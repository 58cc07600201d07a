-- ===== src/Router/NeighborFsm/Change.antt =====
-- THospf/NeighborFSM.cpp: what `nbr_fsm` does behind its `switch`, field by field.
use ospfbasic.Prelude.{
  ◌≡◌, Bool, true, false, not, ◌&&◌, arith, ◌==◌, if◌then◌else◌, ℤ, increment, decrement,
}
use ospfbasic.Fsm.Neighbor.{NbrState, nbs_2way, nbs_exstart, nbs_full, at_most}
use ospfbasic.Router.State.{Ptr, Store, set_nbr, set_ifc}
use ospfbasic.Router.Actions.{same_nbr_state}
use ospfbasic.Router.NeighborFsm.{exit_dbxchg, after_change}

-- The branches on which `exit_dbxchg` is called, and those that change `n_dbx_nbrs`.
abbrev pub exits : NbrState → NbrState → Bool
exits old new =
    if same_nbr_state new nbs_full
    then true
    else if at_most old nbs_exstart && not (at_most new nbs_exstart)
    then false
    else if same_nbr_state old nbs_full
    then false
    else at_most new nbs_2way && at_most nbs_exstart old

abbrev pub dbx_change : NbrState → NbrState → ℤ → ℤ
dbx_change old new d =
    if same_nbr_state new nbs_full
    then decrement d
    else if at_most old nbs_exstart && not (at_most new nbs_exstart)
    then increment d
    else if same_nbr_state old nbs_full
    then d
    else if at_most new nbs_2way && at_most nbs_exstart old
    then (if not (at_most old nbs_exstart) then decrement d else d)
    else d

module _ (old new : NbrState) (p : Ptr) (u : Store) (now : (u.nbr p).n_state ≡ new) where
  pub change_local : (after_change old p u).local_inits ≡ (
      if exits old new && not (u.nbr p).remote_init then decrement u.local_inits else u.local_inits)
  unfolding after_change exit_dbxchg set_nbr set_ifc
  change_local = rw (← now) (ground arith)

  pub change_remote : (after_change old p u).remote_inits ≡ (
      if exits old new && (u.nbr p).remote_init then decrement u.remote_inits else u.remote_inits)
  unfolding after_change exit_dbxchg set_nbr set_ifc
  change_remote = rw (← now) (ground arith)

  pub change_dbx : (after_change old p u).n_dbx_nbrs ≡ dbx_change old new u.n_dbx_nbrs
  unfolding after_change exit_dbxchg set_nbr set_ifc
  change_dbx = rw (← now) (ground arith)

  pub change_init :
      ((after_change old p u).nbr p).remote_init
      ≡ (if exits old new then false else (u.nbr p).remote_init)
  unfolding after_change exit_dbxchg set_nbr set_ifc
  change_init = rw (← now) (ground arith)

  pub change_dds : (after_change old p u).max_dds ≡ u.max_dds
  unfolding after_change exit_dbxchg set_nbr set_ifc
  change_dds = ground arith

  pub change_state : (q : Ptr) → ((after_change old p u).nbr q).n_state ≡ (u.nbr q).n_state
  unfolding after_change exit_dbxchg set_nbr set_ifc
  change_state q = ground arith

  pub change_other_init :
      (q : Ptr)
      → (q == p) ≡ false
      → ((after_change old p u).nbr q).remote_init ≡ (u.nbr q).remote_init
  unfolding after_change exit_dbxchg set_nbr set_ifc
  change_other_init q h = ground arith

  pub change_lists :
      (i : Ptr) → ((after_change old p u).ifc i).if_Neighborlist ≡ (u.ifc i).if_Neighborlist
  unfolding after_change exit_dbxchg set_nbr set_ifc
  change_lists i = ground arith
