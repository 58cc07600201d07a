-- ===== src/Router/NeighborFsm.antt =====
-- THospf/NeighborFSM.cpp: `Neighbor::nbr_fsm`. It ends by originating advertisements and driving the
-- interface's state machine; those calls stand in Machines, and `nbr_step` is all in front of them.
pub mod Frame
pub mod Outcome
pub mod Change
pub mod Balanced
pub mod Counters
use ospfbasic.Prelude.{
  ℕ, zero, suc, ◌+◌, ◌-◌, ◌*◌, ◌%◌, ◌^◌, Bool, true, false, not, ◌&&◌, ◌||◌, List, [], ◌∷◌, ◌++◌,
  Option, none, some, ltb, ◌==◌, if◌then◌else◌, ℤ, pos, increment, decrement, int_ltb,
}
use ospfbasic.Fsm.Neighbor.{
  NbrState, nbs_down, nbs_attempt, nbs_init, nbs_2way, nbs_exstart, nbs_exchange, nbs_loading,
  nbs_full, state_code, at_most, NbrEvent, NbrAction, no_action, nba_start, nba_restart_inactt,
  nba_start_inactt, nba_eval1, nba_eval2, nba_snapshot, nba_exchangedone, nba_reeval,
  nba_restart_dd, nba_delete, nba_clr_lists, nba_hellochk, run_nbr_fsm,
}
use ospfbasic.Fsm.Interface.{IfState, ifs_dr, ifs_backup, same_state}
use ospfbasic.Router.State.{
  Ptr, TimerState, start, stop, restart, second, unknown_addr, Neighbor, Interface, IfClass,
  plain_ifc, dr_ifc, IfType, ift_nbma, ift_p2mp, Store, set_nbr, set_ifc, emit, neighbor_hello,
  send_dd, router_lsa, network_lsa,
}
use ospfbasic.Router.Actions.{same_nbr_state, ifc_of, set_state, nbr_action}

-- `Neighbor::exit_dbxchg`.
unfoldable pub exit_dbxchg : Ptr → Store → Store
exit_dbxchg p st =
    let n = st.nbr p in
    let st1 =
      if n.remote_init
      then record st { remote_inits = decrement st.remote_inits }
      else record st { local_inits = decrement st.local_inits } in
    set_nbr p (record n { remote_init = false }) st1

-- What `nbr_fsm` does with the counters behind the `switch` when the state has changed from `old`.
-- Two of the branches end with `rl_orig`, which stands in Machines.
unfoldable pub after_change : NbrState → Ptr → Store → Store
after_change old p st =
    let n = st.nbr p in
    let new = n.n_state in
    if same_nbr_state new nbs_full
    then exit_dbxchg p (
        set_nbr p (record n { progt = stop n.progt })
          (record st { n_dbx_nbrs = decrement st.n_dbx_nbrs }))
    else if at_most old nbs_exstart && not (at_most new nbs_exstart)
    then record st { n_dbx_nbrs = increment st.n_dbx_nbrs }
    else if same_nbr_state old nbs_full
    then (let i = ifc_of p st in
        set_ifc n.n_ifc (record i { if_fullcnt = decrement i.if_fullcnt }) st)
    else if at_most new nbs_2way && at_most nbs_exstart old
    then (let st1 = exit_dbxchg p st in
        if not (at_most old nbs_exstart)
        then record st1 { n_dbx_nbrs = decrement st1.n_dbx_nbrs }
        else st1)
    else st

-- The branches that end with `rl_orig`.
abbrev pub links_change : NbrState → NbrState → Bool
links_change old new =
    if same_nbr_state new nbs_full
    then true
    else if at_most old nbs_exstart && not (at_most new nbs_exstart)
    then false
    else same_nbr_state old nbs_full

-- Whether the neighbor was or is now in 2-Way or above, and not both.
abbrev pub crosses_2way : NbrState → NbrState → Bool
crosses_2way old new =
    (at_most nbs_2way new && not (at_most nbs_2way old))
    || (not (at_most nbs_2way new) && at_most nbs_2way old)

-- `nbr_fsm` up to `rl_orig`, and whether the state has changed, so that it goes on.
unfoldable pub nbr_step : Ptr → NbrEvent → Store → Store × Bool
nbr_step p e st =
    let old = (st.nbr p).n_state in
    elim (run_nbr_fsm old e).1 [
      | none ↦ (set_state p (run_nbr_fsm old e).0 st, false)
      | some a ↦
          (let st1 = nbr_action a p (set_state p (run_nbr_fsm old e).0 st) in
            if same_nbr_state old (st1.nbr p).n_state
            then (st1, false)
            else (after_change old p st1, true))
    ]
