-- ===== src/Router/NeighborFsm/Balanced.antt =====
-- THospf/NeighborFSM.cpp: how `nbr_fsm` keeps the counters of database exchanges. The counters
-- `local_inits`, `remote_inits` and `n_dbx_nbrs` each count the neighbors of a kind, and one call
-- changes a counter by what changes at its neighbor.
pub mod Moves
pub mod Starts
pub mod Outcomes
use ospfbasic.Prelude.{
  ℕ, ◌≡◌, refl, sym, ap, ◌∙◌, Bool, true, false, not, ◌&&◌, arith, ◌==◌, if◌then◌else◌, ℤ,
  increment, decrement, increment-decrement, bump, AtMost, decrement-AtMost, increment-AtMost, List,
}
use ospfbasic.Fsm.Neighbor.{
  NbrState, nbs_down, nbs_init, nbs_2way, nbs_exstart, nbs_exchange, nbs_loading,
}
use ospfbasic.Router.State.{Ptr, Output, Neighbor, Interface, Store, set_nbr}
use ospfbasic.Router.Actions.{same_nbr_state}
use ospfbasic.Router.NeighborFsm.{after_change}
use ospfbasic.Router.NeighborFsm.Frame.{Frame}
use ospfbasic.Router.NeighborFsm.Outcome.{
  Outcome, moved, local_start, remote_start, is_move, can_start,
}
use ospfbasic.Router.NeighborFsm.Change.{
  exits, dbx_change, change_local, change_remote, change_dbx, change_init, change_dds, change_state,
  change_other_init, change_lists,
}

-- A database exchange is under way, and its descriptions are exchanged.
abbrev pub is_forming : NbrState → Bool
is_forming nbs_exstart = true
is_forming nbs_exchange = true
is_forming nbs_loading = true
is_forming _ = false

abbrev pub is_exchanging : NbrState → Bool
is_exchanging nbs_exchange = true
is_exchanging nbs_loading = true
is_exchanging _ = false

abbrev pub local_busy : Neighbor → Bool
local_busy n = is_forming n.n_state && not n.remote_init

abbrev pub remote_busy : Neighbor → Bool
remote_busy n = is_forming n.n_state && n.remote_init

abbrev pub dbx_busy : Neighbor → Bool
dbx_busy n = is_exchanging n.n_state

-- `remote_init` is set only during an exchange.
abbrev pub IsCalled : Neighbor → Type 0
IsCalled n = n.remote_init ≡ true → is_forming n.n_state ≡ true

-- From `st` to `u` only the neighbor at `p` changes its state, and each counter changes by what
-- changes there: with the old share added to the new count, it is the old count with the new
-- share.
pub record Balanced (p : Ptr) (st u : Store) : Type 0 where
  pub other_states : (q : Ptr) → (q == p) ≡ false → (u.nbr q).n_state ≡ (st.nbr q).n_state
  pub other_inits : (q : Ptr) → (q == p) ≡ false → (u.nbr q).remote_init ≡ (st.nbr q).remote_init
  pub local_moves :
      bump (local_busy (st.nbr p)) u.local_inits ≡ bump (local_busy (u.nbr p)) st.local_inits
  pub remote_moves :
      bump (remote_busy (st.nbr p)) u.remote_inits ≡ bump (remote_busy (u.nbr p)) st.remote_inits
  pub dbx_moves : bump (dbx_busy (st.nbr p)) u.n_dbx_nbrs ≡ bump (dbx_busy (u.nbr p)) st.n_dbx_nbrs
  pub called : IsCalled (u.nbr p)
  pub local_capped : AtMost st.local_inits st.max_dds → AtMost u.local_inits u.max_dds
  pub remote_capped : AtMost st.remote_inits st.max_dds → AtMost u.remote_inits u.max_dds
  pub dds_same : u.max_dds ≡ st.max_dds
  pub lists_same : (i : Ptr) → (u.ifc i).if_Neighborlist ≡ (st.ifc i).if_Neighborlist
