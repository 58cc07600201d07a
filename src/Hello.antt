-- ===== src/Hello.antt =====
-- THospf/ospfHello.cpp: `Interface::recv_hello` on the store of the two state machines, with
-- `Neighbor::negotiate` and the constructor of THospf/Neighbor.cpp. The list of identifiers in a
-- packet is that of the words that begin before its end. The memory that a new neighbor gets,
-- with its address, is a parameter: the constructor does not set `prior` and the fields that
-- belong to the exchange of descriptions.
pub mod Kept
use ospfbasic.Prelude.{
  ℕ, ◌*◌, Bool, true, false, not, ◌&&◌, ◌||◌, List, [], ◌∷◌, Option, none, some, leb, ◌==◌,
  if◌then◌else◌,
}
use ospfbasic.Fsm.Neighbor.{
  NbrState, nbs_down, nbs_2way, state_code, NbrEvent, nbe_hellorcvd, nbe_2wayrcvd, nbe_1wayrcvd,
  nbe_eval,
}
use ospfbasic.Fsm.Interface.{IfState, ifs_down, ifs_wait, ifs_dr, same_state, ife_bseen, ife_nchg}
use ospfbasic.Router.State.{
  Ptr, start, second, Neighbor, Interface, IfClass, plain_ifc, dr_ifc, Store, set_nbr, set_ifc,
  emit, network_lsa,
}
use ospfbasic.Router.Actions.{same_nbr_state, mem_ptr}
use ospfbasic.Router.Election.{declared_dr, declared_bdr}
use ospfbasic.Router.Machines.{nbr_fsm, ifc_fsm, originate_if, ◌>>=◌}

-- A Hello packet with its IP source; `heard` holds the identifiers behind the header.
pub record HelloPkt : Type 0 where
  pub i_src : ℕ
  pub srcid : ℕ
  pub hello_mask : ℕ
  pub hello_hint : ℕ
  pub hello_pri : ℕ
  pub hello_dint : ℕ
  pub hello_dr : ℕ
  pub hello_bdr : ℕ
  pub heard : List ℕ

-- The fields of an interface that only the Hello protocol reads.
pub record Settings : Type 0 where
  pub if_mask : ℕ
  pub passive : Bool

-- `Interface::find_Neighbor` on the list of an interface.
unfoldable pub find_neighbor : ℕ → Store → List Ptr → Option Ptr
find_neighbor addr st [] = none
find_neighbor addr st (p ∷ ps) =
    let rest = find_neighbor addr st ps in if (st.nbr p).n_addr == addr then some p else rest

-- The neighbor's part of `Neighbor::Neighbor`, in the memory that it gets.
unfoldable pub blank_neighbor : Ptr → ℕ → ℕ → Neighbor → Neighbor
blank_neighbor a id addr raw = record raw {
  n_ifc = a;
  n_id = id;
  n_addr = addr;
  n_state = nbs_down;
  md5_seqno = 0;
  n_adj_pend = false;
  remote_init = false;
  retrans_cnt = 0;
  retrans_window = 1;
  n_dr = 0;
  n_bdr = 0;
  database_sent = false;
  request_suppression = false;
  pend_retrans = [];
  retrans = [];
  failed_retrans = [];
  ddlist = [];
  reqlist = [];
  inactt = none;
  hellot = none;
  holdt = none;
  ddt = none;
  lsrt = none;
  lsat = none;
  progt = none;
}

-- `Neighbor::Neighbor` at address `p` in front of the interface's list.
unfoldable pub new_neighbor : Ptr → Neighbor → Ptr → ℕ → ℕ → Store → Store
new_neighbor p raw a id addr st =
    let i = st.ifc a in
    set_ifc a (record i { if_Neighborlist = p ∷ i.if_Neighborlist })
      (set_nbr p (blank_neighbor a id addr raw) st)

-- What the packet says of the neighbor.
unfoldable pub takes : HelloPkt → Neighbor → Neighbor
takes h n = record n { n_id = h.srcid; n_dr = h.hello_dr; n_bdr = h.hello_bdr; prior = h.hello_pri }

-- `Neighbor::negotiate`.
unfoldable pub negotiate : Ptr → Store → Store
negotiate p st =
    let n = st.nbr p in
    let i = st.ifc n.n_ifc in
    elim i.if_class [
      | dr_ifc ↦ st
      | plain_ifc ↦
          if leb (state_code nbs_2way) (state_code n.n_state)
          then set_nbr p (record n { inactt = start (i.if_deadinterval * second) n.inactt }) st
          else st
    ]

-- The end of `recv_hello` for a neighbor that has not heard of this router.
unfoldable pub one_way : ℕ → Ptr → Bool → Store → Option Store
one_way fuel p first_hello st = (do
  st' ← nbr_fsm fuel p nbe_1wayrcvd st
  if first_hello then nbr_fsm fuel p nbe_eval st' else some st')

-- `nbr_change`, from the neighbor before the packet and after its events.
unfoldable pub nbr_change : Neighbor → Neighbor → Bool
nbr_change old n =
    if not (old.prior == n.prior)
    then true
    else if not (old.n_id == n.n_id)
    then true
    else if not (same (declared_dr old) (declared_dr n))
    then true
    else not (same (declared_bdr old) (declared_bdr n))
  where
    same : Bool → Bool → Bool
    same true b = b
    same false b = not b

unfoldable pub backup_seen : HelloPkt → IfState → Neighbor → Bool
backup_seen h st n =
    same_state st ifs_wait && ((declared_dr n && (h.hello_bdr == 0)) || declared_bdr n)

-- The interface's event, and the network advertisement of a designated router.
unfoldable pub react : ℕ → Ptr → HelloPkt → Ptr → Neighbor → Bool → Store → Option Store
react fuel a h p old changed st =
    let n = st.nbr p in
    (do
      st' ←
          (if backup_seen h (st.ifc a).if_state n
            then ifc_fsm fuel a ife_bseen st
            else if changed
            then ifc_fsm fuel a ife_nchg st
            else some st)
      originate_if
          (not (old.n_id == (st'.nbr p).n_id)
            && same_state (st'.ifc (st'.nbr p).n_ifc).if_state ifs_dr)
          (nbr_fsm fuel) (network_lsa (st'.nbr p).n_ifc) st')

-- The end of `recv_hello` for a neighbor that lists this router.
unfoldable pub two_way : ℕ → Ptr → HelloPkt → Ptr → Neighbor → Store → Option Store
two_way fuel a h p old st = (do
  st1 ← nbr_fsm fuel p nbe_2wayrcvd st
  st2 ←
      (if not (old.prior == ((negotiate p st1).nbr p).prior)
        then nbr_fsm fuel p nbe_eval (negotiate p st1)
        else some (negotiate p st1))
  react fuel a h p old (nbr_change old ((negotiate p st1).nbr p)) st2)

-- `recv_hello` with the neighbor found or made. `mem_ptr` looks for the router's own identifier.
unfoldable pub hello_from : ℕ → Ptr → HelloPkt → Ptr → Store → Option Store
hello_from fuel a h p st =
    let old = st.nbr p in
    (do
      st' ← nbr_fsm fuel p nbe_hellorcvd (set_nbr p (takes h old) st)
      if mem_ptr st'.my_id h.heard
          then two_way fuel a h p old st'
          else one_way fuel p (same_nbr_state old.n_state nbs_down) st')

-- The tests that drop a packet.
unfoldable pub is_refused : Settings → HelloPkt → Interface → Bool
is_refused s h i =
    if same_state i.if_state ifs_down || s.passive
    then true
    else if not (h.hello_hint == i.if_hellointerval)
    then true
    else if not (h.hello_dint == i.if_deadinterval)
    then true
    else not (h.hello_mask == s.if_mask)

-- `Interface::recv_hello`.
unfoldable pub recv_hello : ℕ → Settings → Ptr → Neighbor → Ptr → HelloPkt → Store → Option Store
recv_hello fuel s fresh raw a h st =
    if is_refused s h (st.ifc a)
    then some st
    else elim (find_neighbor h.i_src st (st.ifc a).if_Neighborlist) [
      | some p ↦ hello_from fuel a h p st
      | none ↦ hello_from fuel a h fresh (new_neighbor fresh raw a h.srcid h.i_src st)
    ]
