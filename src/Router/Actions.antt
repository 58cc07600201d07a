-- ===== src/Router/Actions.antt =====
-- THospf/NeighborFSM.cpp: the actions of `Neighbor::nbr_fsm`, with the parts of ospfDD.cpp,
-- ospfAck.cpp and LSA.cpp that they call.
use ospfbasic.Prelude.{
  ℕ, ◌+◌, ◌-◌, ◌*◌, ◌%◌, ◌^◌, Bool, true, false, not, ◌&&◌, ◌||◌, List, [], ◌∷◌, ◌++◌, ◌==◌,
  if◌then◌else◌, increment, int_ltb,
}
use ospfbasic.Fsm.Neighbor.{
  NbrState, nbs_down, nbs_attempt, nbs_2way, nbs_exstart, nbs_loading, nbs_full, state_code,
  NbrAction, no_action, nba_start, nba_restart_inactt, nba_start_inactt, nba_eval1, nba_eval2,
  nba_snapshot, nba_exchangedone, nba_reeval, nba_restart_dd, nba_delete, nba_clr_lists,
  nba_hellochk,
}
use ospfbasic.Fsm.Interface.{ifs_dr, ifs_backup, same_state}
use ospfbasic.Router.State.{
  Ptr, start, stop, restart, second, unknown_addr, Neighbor, Interface, plain_ifc, dr_ifc, IfType,
  ift_nbma, ift_p2mp, Store, set_nbr, emit, neighbor_hello, send_dd,
}

abbrev pub same_nbr_state : NbrState → NbrState → Bool
same_nbr_state s t = state_code s == state_code t

-- The interface of the neighbor at an address.
abbrev pub ifc_of : Ptr → Store → Interface
ifc_of p st = st.ifc (st.nbr p).n_ifc

abbrev pub set_state : Ptr → NbrState → Store → Store
set_state p s st = set_nbr p (record (st.nbr p) { n_state = s }) st

-- `Interface::adjacency_wanted` and `DRIfc::adjacency_wanted`.
unfoldable pub adjacency_wanted : Interface → Neighbor → Bool
adjacency_wanted i np = elim i.if_class [
  | plain_ifc ↦ true
  | dr_ifc ↦
      same_state i.if_state ifs_dr
      || same_state i.if_state ifs_backup
      || i.if_dr == np.n_addr
      || i.if_bdr == np.n_addr
]

-- `Neighbor::AddPendAdj` and `Neighbor::DelPendAdj` on the queue.
unfoldable pub add_pend_adj : Ptr → Store → Store
add_pend_adj p st =
    if (st.nbr p).n_adj_pend
    then st
    else record (set_nbr p (record (st.nbr p) { n_adj_pend = true }) st) {
      g_adj = st.g_adj ++ p ∷ [];
    }

unfoldable pub mem_ptr : Ptr → List Ptr → Bool
mem_ptr p [] = false
mem_ptr p (q ∷ qs) = q == p || mem_ptr p qs

unfoldable pub erase_ptr : Ptr → List Ptr → List Ptr
erase_ptr p [] = []
erase_ptr p (q ∷ qs) = if q == p then qs else q ∷ erase_ptr p qs

unfoldable pub del_pend_adj : Ptr → Store → Store
del_pend_adj p st =
    if not (st.nbr p).n_adj_pend
    then st
    else if not (mem_ptr p st.g_adj)
    then st
    else record (set_nbr p (record (st.nbr p) { n_adj_pend = false }) st) {
      g_adj = erase_ptr p st.g_adj;
    }

-- `Neighbor::start_adjacency`. The state is ExStart here, so `send_dd` resends the first packet:
-- it holds the packet, clears `database_sent` and starts the retransmission timer.
unfoldable pub start_adjacency : Ptr → Store → Store
start_adjacency p st =
    let n = st.nbr p in
    let i = ifc_of p st in
    emit (send_dd p) (
      set_nbr p
        (record n {
          n_ddseq = (n.n_ddseq + 1) % 2 ^ 32;
          progt = start (i.if_deadinterval * second) n.progt;
          ddpkt = true;
          database_sent = false;
          ddt = start (i.if_rxmt * second) n.ddt;
        })
        st)

-- `lsa_rxmt--` for each entry of a list; the count is a `uns16`.
unfoldable pub unref_all : List Ptr → (Ptr → ℕ) → Ptr → ℕ
unref_all [] rxmt = rxmt
unref_all (l ∷ ls) rxmt =
    unref_all ls (λ q. if q == l then (rxmt q + (2 ^ 16 - 1)) % 2 ^ 16 else rxmt q)

-- `Neighbor::clear_retrans_list`.
unfoldable pub clear_retrans_list : Ptr → Store → Store
clear_retrans_list p st =
    let n = st.nbr p in
    record (set_nbr p
      (record n {
        pend_retrans = [];
        retrans = [];
        failed_retrans = [];
        retrans_cnt = 0;
        retrans_window = 1;
        lsat = stop n.lsat;
      })
      st) {
        lsa_rxmt =
            unref_all n.failed_retrans (unref_all n.retrans (unref_all n.pend_retrans st.lsa_rxmt));
      }

-- `Neighbor::nba_clr_lists`; `dd_free` gives the held packet back.
unfoldable pub clr_lists_tail : Ptr → Store → Store
clr_lists_tail p st =
    let n = st.nbr p in
    set_nbr p
      (record n {
        ddlist = [];
        reqlist = [];
        database_sent = false;
        holdt = stop n.holdt;
        ddt = stop n.ddt;
        lsrt = stop n.lsrt;
        progt = stop n.progt;
      })
      st

unfoldable pub clr_lists : Ptr → Store → Store
clr_lists p st =
    let st1 = del_pend_adj p st in
    let st2 = set_nbr p (record (st1.nbr p) { n_adj_pend = false; ddpkt = false }) st1 in
    clr_lists_tail p (clear_retrans_list p st2)

-- `Neighbor::nba_delete`.
unfoldable pub delete_neighbor : Ptr → Store → Store
delete_neighbor p st =
    let st1 = clr_lists p (set_nbr p (record (st.nbr p) { md5_seqno = 0 }) st) in
    let n = st1.nbr p in
    record (set_nbr p
      (record n {
        n_dr = unknown_addr;
        n_bdr = unknown_addr;
        request_suppression = false;
        inactt = stop n.inactt;
        hellot = stop n.hellot;
      })
      st1) { delete_neighbors = true }

-- `Neighbor::nba_eval1` and `Neighbor::nba_eval2`.
unfoldable pub eval1 : Ptr → Store → Store
eval1 p st =
    let st1 = set_state p nbs_2way st in
    if not (adjacency_wanted (ifc_of p st1) (st1.nbr p))
    then del_pend_adj p st1
    else if int_ltb st1.local_inits st1.max_dds
    then start_adjacency p (
        del_pend_adj p
          (record (set_state p nbs_exstart st1) { local_inits = increment st1.local_inits }))
    else add_pend_adj p st1

unfoldable pub eval2 : Ptr → Store → Store
eval2 p st =
    if not (adjacency_wanted (ifc_of p st) (st.nbr p))
    then set_state p nbs_2way st
    else if int_ltb st.remote_inits st.max_dds
    then start_adjacency p (
        del_pend_adj p
          (record (set_nbr p (record (st.nbr p) { remote_init = true; n_state = nbs_exstart }) st) {
            remote_inits = increment st.remote_inits;
          }))
    else add_pend_adj p (set_state p nbs_2way st)

-- `Neighbor::nba_snapshot`: the walk of `AddTypesToList` begins at the root of each table's tree.
unfoldable pub snapshot : Ptr → Store → Store
snapshot p st =
    let n = st.nbr p in
    set_nbr p (record n { ddlist = (n.ddlist ++ st.rtr_from_root) ++ st.net_from_root }) st

abbrev pub is_empty : List Ptr → Bool
is_empty [] = true
is_empty (l ∷ ls) = false

-- `Neighbor::nba_exchangedone` and `Neighbor::nba_reeval`.
unfoldable pub exchange_done : Ptr → Store → Store
exchange_done p st = set_state p (if is_empty (st.nbr p).reqlist then nbs_full else nbs_loading) st

unfoldable pub reeval : Ptr → Store → Store
reeval p st =
    if not (adjacency_wanted (ifc_of p st) (st.nbr p))
    then set_state p nbs_2way (clr_lists p st)
    else st

-- The case NBA_HELLOCHK.
abbrev pub has_attempt : IfType → Bool
has_attempt ift_nbma = true
has_attempt ift_p2mp = true
has_attempt _ = false

unfoldable pub hello_check : Ptr → Store → Store
hello_check p st =
    let i = ifc_of p st in
    let n = st.nbr p in
    if not (has_attempt i.if_type)
    then st
    else if not (adjacency_wanted i n) && same_nbr_state n.n_state nbs_attempt
    then delete_neighbor p (set_state p nbs_down st)
    else if adjacency_wanted i n && same_nbr_state n.n_state nbs_down
    then set_state p nbs_attempt st
    else st

-- The `switch` of `nbr_fsm`.
unfoldable pub nbr_action : NbrAction → Ptr → Store → Store
nbr_action no_action p st = st
nbr_action nba_start p st =
    let n = st.nbr p in
    let i = ifc_of p st in
    set_nbr p
      (record n {
        hellot = start (i.if_hellointerval * second) n.hellot;
        inactt = start (i.if_deadinterval * second) n.inactt;
      })
      (emit (neighbor_hello p) st)
nbr_action nba_restart_inactt p st =
    let n = st.nbr p in
    set_nbr p (record n { inactt = restart ((ifc_of p st).if_deadinterval * second) n.inactt }) st
nbr_action nba_start_inactt p st =
    let n = st.nbr p in
    set_nbr p (record n { inactt = start ((ifc_of p st).if_deadinterval * second) n.inactt }) st
nbr_action nba_eval1 p st = eval1 p st
nbr_action nba_eval2 p st = eval2 p st
nbr_action nba_snapshot p st = snapshot p st
nbr_action nba_exchangedone p st = exchange_done p st
nbr_action nba_reeval p st = reeval p st
nbr_action nba_restart_dd p st = add_pend_adj p (clr_lists p st)
nbr_action nba_delete p st = delete_neighbor p st
nbr_action nba_clr_lists p st = clr_lists p st
nbr_action nba_hellochk p st = hello_check p st
