-- ===== src/Router/Machines.antt =====
-- THospf/InterfaceFSM.cpp: `Interface::ifc_fsm` and its actions, and how it and
-- `Neighbor::nbr_fsm` of THospf/NeighborFSM.cpp call each other, the flooding of this router's
-- advertisements in THospf/ospfUpdate.cpp included. The depth of those calls is fuel.
pub mod Apart
pub mod Written
pub mod Floods
pub mod Evaluates
pub mod Loading
pub mod Invariant
use ospfbasic.Prelude.{
  ℕ, zero, suc, ◌*◌, Bool, true, false, not, ◌&&◌, ◌||◌, List, [], ◌∷◌, Option, none, some, ltb,
  ◌==◌, if◌then◌else◌, ℤ, int_ltb,
}
use ospfbasic.Fsm.Neighbor.{
  NbrState, nbs_exchange, nbs_loading, at_most as at_most_state, NbrEvent, nbe_eval, nbe_killnbr,
  nbe_loadingdone, nbe_exchangedone,
}
use ospfbasic.Fsm.Interface.{
  IfState, ifs_down, ifs_wait, ifs_other, ifs_dr, at_most, same_state, IfEvent, ife_nchg, IfAction,
  no_action, ifa_start, ifa_elect, ifa_reset, run_ifc_fsm,
}
use ospfbasic.Router.State.{
  Ptr, start, stop, second, unknown_addr, Interface, Store, set_ifc, set_nbr, emit, Output,
  interface_hello, send_dd, add_to_retranslist, router_lsa, network_lsa, phy_attach, multi_join,
  multi_leave,
}
use ospfbasic.Router.Actions.{erase_ptr, is_empty, same_nbr_state, ifc_of}
use ospfbasic.Router.NeighborFsm.{nbr_step, links_change, crosses_2way}
use ospfbasic.Router.Election.{elect}

-- 224.0.0.5 and 224.0.0.6.
abbrev pub all_spf_routers : ℕ
all_spf_routers = 0xe0000005

abbrev pub all_d_routers : ℕ
all_d_routers = 0xe0000006

infixl 5 ◌>>=◌
abbrev pub ◌>>=◌ : Option Store → (Store → Option Store) → Option Store
none >>= f = none
some st >>= f = f st

-- A call of `nbr_fsm`; `none` means that the fuel ran out.
abbrev pub NbrCall : Type 0
NbrCall = Ptr → NbrEvent → Store → Option Store

-- `Interface::ifa_allNeighbors_event`, over the list of neighbors at the time of the call.
unfoldable pub all_neighbors : NbrCall → List Ptr → NbrEvent → Store → Option Store
all_neighbors call [] e st = some st
all_neighbors call (p ∷ ps) e st = do st' ← call p e st; all_neighbors call ps e st'

-- `Neighbor::send_dd` where the state is not ExStart: the slave's last packet ends the exchange.
unfoldable pub send_next : NbrCall → Ptr → Store → Option Store
send_next call p st =
    let sent = emit (send_dd p) st in
    let hold = (ifc_of p st).if_deadinterval * second in
    let ended = call p nbe_exchangedone sent >>= (λ st'.
      some (set_nbr p (record (st'.nbr p) { holdt = start hold (st'.nbr p).holdt }) st')) in
    if not (ltb (st.nbr p).n_id st.my_id) && sent.dd_ends sent.out then ended else some sent

-- `Neighbor::ospf_rmreq` where the request is found and answered. In other states than Loading,
-- `send_dd` goes on with the exchange.
unfoldable pub rmreq : NbrCall → Ptr → Ptr → Store → Option Store
rmreq call p request st =
    let n = st.nbr p in
    let left = erase_ptr request n.reqlist in
    let st1 = set_nbr p (record n { reqlist = left }) st in
    let st2 = set_nbr p (record n { reqlist = left; lsrt = stop n.lsrt }) st in
    if not (is_empty left)
    then some st1
    else if same_nbr_state n.n_state nbs_loading
    then call p nbe_loadingdone st2
    else send_next call p st2

-- The part of `LSA::flood` at a neighbor, for an advertisement of this router: `from` is null. What
-- `add_to_retranslist` does stands in Retrans.
unfoldable pub flood_neighbor : NbrCall → (Ptr → Option (Ptr × ℤ)) → Ptr → Store → Option Store
flood_neighbor call search p st =
    if not (at_most_state nbs_exchange (st.nbr p).n_state) then some st else elim (search p) [
      | none ↦ some (emit (add_to_retranslist p) st)
      | some (request, cmp) ↦ (do
        st' ← (if int_ltb cmp 0 then some st else rmreq call p request st)
        some (if int_ltb cmp 1 then st' else emit (add_to_retranslist p) st'))
    ]

unfoldable pub flood_neighbors :
    NbrCall → (Ptr → Option (Ptr × ℤ)) → List Ptr → Store → Option Store
flood_neighbors call search [] st = some st
flood_neighbors call search (p ∷ ps) st = (do
  st' ← flood_neighbor call search p st
  flood_neighbors call search ps st')

-- `LSA::flood`, over the interfaces, each with its neighbors; the updates for the packets that it
-- begins leave the store alone.
unfoldable pub flood : NbrCall → (Ptr → Option (Ptr × ℤ)) → List Ptr → Store → Option Store
flood call search [] st = some st
flood call search (a ∷ rest) st = (do
  st' ← flood_neighbors call search (st.ifc a).if_Neighborlist st
  flood call search rest st')

-- `rl_orig` and `nl_orig`, down to `flood`, if they come to it.
unfoldable pub originate : NbrCall → Output → Store → Option Store
originate call o st =
    let asked = emit o st in
    elim (st.lsa_answers asked.out) [
      | none ↦ some asked
      | some search ↦ flood call search st.interfaces asked
    ]

abbrev pub originate_if : Bool → NbrCall → Output → Store → Option Store
originate_if true call o st = originate call o st
originate_if false call o st = some st

-- `DRIfc::ifa_start`, with `start_hellos`; the hello timer starts anew at every period.
unfoldable pub interface_start : Ptr → Store → Store
interface_start a st =
    let i = st.ifc a in
    let hello = start (i.if_hellointerval * second) i.if_hellot in
    let sent =
      emit (multi_join i.if_physic all_spf_routers)
        (emit (phy_attach i.if_physic) (emit (interface_hello a) st)) in
    if i.if_drpri == 0
    then set_ifc a (record i { if_hellot = hello; if_state = ifs_other }) sent
    else set_ifc a
        (record i {
          if_hellot = hello;
          if_waitt = start (i.if_deadinterval * second) i.if_waitt;
          if_state = ifs_wait;
        })
        sent

-- `Interface::ifa_reset`.
unfoldable pub interface_reset : NbrCall → Ptr → Store → Option Store
interface_reset call a st =
    let i = st.ifc a in
    all_neighbors call i.if_Neighborlist nbe_killnbr (
      set_ifc a
        (record i {
          if_dr = unknown_addr;
          if_bdr = unknown_addr;
          if_waitt = stop i.if_waitt;
          if_hellot = stop i.if_hellot;
          if_ackt = stop i.if_ackt;
        })
        st)

-- `Interface::ifa_elect`.
unfoldable pub interface_elect : NbrCall → Ptr → Store → Option Store
interface_elect call a st =
    let i = record (st.ifc a) { if_waitt = stop (st.ifc a).if_waitt } in
    let prev_dr = i.if_dr in
    do
      st' ← all_neighbors call i.if_Neighborlist nbe_eval (set_ifc a (elect st.my_id st.nbr i) st)
      originate_if (not ((st'.ifc a).if_dr == prev_dr)) call router_lsa st'

unfoldable pub ifc_action : IfAction → NbrCall → Ptr → Store → Option Store
ifc_action no_action call a st = some st
ifc_action ifa_start call a st = some (interface_start a st)
ifc_action ifa_elect call a st = interface_elect call a st
ifc_action ifa_reset call a st = interface_reset call a st

-- What `ifc_fsm` does behind its `switch`, up to `rl_orig`, when the state has changed from `old`.
unfoldable pub after_ifc_change : IfState → Ptr → Store → Store
after_ifc_change old a st =
    let i = st.ifc a in
    let new = i.if_state in
    let flood_addr = if same_state new ifs_other then all_d_routers else all_spf_routers in
    let sum = if same_state new ifs_down then 0 else i.db_xsum in
    let st1 = set_ifc a (record i { if_flood = flood_addr; db_xsum = sum }) st in
    if not (at_most new ifs_other) && at_most old ifs_other
    then emit (multi_join i.if_physic all_d_routers) st1
    else if at_most new ifs_other && not (at_most old ifs_other)
    then emit (multi_leave i.if_physic all_d_routers) st1
    else st1

-- The end of `ifc_fsm`.
unfoldable pub ifc_originate : NbrCall → IfState → Ptr → Store → Option Store
ifc_originate call old a st = (do
  st' ← originate call router_lsa st
  originate_if (same_state (st'.ifc a).if_state ifs_dr || same_state old ifs_dr) call
      (network_lsa a) st')

-- `Interface::ifc_fsm`.
unfoldable pub ifc_step : NbrCall → Ptr → IfEvent → Store → Option Store
ifc_step call a e st =
    let old = (st.ifc a).if_state in
    elim (run_ifc_fsm old e).1 [
      | none ↦ some (set_ifc a (record (st.ifc a) { if_state = (run_ifc_fsm old e).0 }) st)
      | some act ↦ (do
        st' ←
            ifc_action act call a
              (set_ifc a (record (st.ifc a) { if_state = (run_ifc_fsm old e).0 }) st)
        if same_state old (st'.ifc a).if_state
            then some st'
            else ifc_originate call old a (after_ifc_change old a st'))
    ]

-- The end of `nbr_fsm`, when the state has changed from `old`: it originates advertisements, and
-- tells its interface that a neighbor came or went.
unfoldable pub nbr_originate : NbrCall → NbrState → Ptr → Store → Option Store
nbr_originate call old p st = (do
  st1 ← originate_if (links_change old (st.nbr p).n_state) call router_lsa st
  originate_if (same_state (ifc_of p st1).if_state ifs_dr) call (network_lsa (st1.nbr p).n_ifc) st1)

unfoldable pub tell_interface : NbrCall → NbrState → Ptr → Store → Option Store
tell_interface call old p st =
    if crosses_2way old (st.nbr p).n_state
    then ifc_step call (st.nbr p).n_ifc ife_nchg st
    else some st

-- `Neighbor::nbr_fsm`.
unfoldable pub nbr_fsm : ℕ → NbrCall
nbr_fsm zero p e st = none
nbr_fsm (suc fuel) p e st =
    let old = (st.nbr p).n_state in
    let after = nbr_step p e st in
    let rest = nbr_originate (nbr_fsm fuel) old p after.0 >>= tell_interface (nbr_fsm fuel) old p in
    if after.1 then rest else some after.0

unfoldable pub ifc_fsm : ℕ → Ptr → IfEvent → Store → Option Store
ifc_fsm fuel a e st = ifc_step (nbr_fsm fuel) a e st
