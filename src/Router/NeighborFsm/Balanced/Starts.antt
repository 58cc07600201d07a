-- ===== src/Router/NeighborFsm/Balanced/Starts.antt =====
-- THospf/NeighborFSM.cpp: the counters where an exchange begins.
use ospfbasic.Prelude.{◌≡◌, refl, ap, ◌∙◌, Bool, true, false, not, arith, ℤ, bump, AtMost}
use ospfbasic.Fsm.Neighbor.{NbrState, nbs_init, nbs_2way, nbs_exstart}
use ospfbasic.Router.State.{Ptr, Neighbor, Store}
use ospfbasic.Router.NeighborFsm.{after_change}
use ospfbasic.Router.NeighborFsm.Outcome.{can_start}
use ospfbasic.Router.NeighborFsm.Change.{
  exits, dbx_change, change_local, change_remote, change_dbx, change_init, change_dds, change_state,
  change_other_init, change_lists,
}
use ospfbasic.Router.NeighborFsm.Balanced.{
  is_forming, is_exchanging, local_busy, remote_busy, IsCalled, Balanced,
}
use ospfbasic.Router.NeighborFsm.Balanced.Moves.{Placed}

-- From Init or 2-Way to ExStart `after_change` leaves the counters alone.
exits_start : (s : NbrState) → can_start s ≡ true → exits s nbs_exstart ≡ false
exits_start nbs_init h = refl
exits_start nbs_2way h = refl
exits_start _ h = cc

dbx_start : (s : NbrState) (d : ℤ) → can_start s ≡ true → dbx_change s nbs_exstart d ≡ d
dbx_start nbs_init d h = refl
dbx_start nbs_2way d h = refl
dbx_start _ d h = cc

pub not_busy :
    (n : Neighbor)
    → can_start n.n_state ≡ true
    → (is_forming n.n_state ≡ false) × (is_exchanging n.n_state ≡ false)
not_busy n ok = ground arith

-- So is one in which an exchange began, here or at the neighbor's call.
module _ (p : Ptr) (s : NbrState) (r : Bool) (l m : ℤ) (st u : Store)
    (at_s : (st.nbr p).n_state ≡ s) (c : IsCalled (st.nbr p)) (f : Placed p nbs_exstart r l m st u)
    (ok : can_start s ≡ true) where
  start_local : (after_change s p u).local_inits ≡ l
  start_local = change_local s nbs_exstart p u f.state_at ∙ rw (exits_start s ok) f.local_is

  start_remote : (after_change s p u).remote_inits ≡ m
  start_remote = change_remote s nbs_exstart p u f.state_at ∙ rw (exits_start s ok) f.remote_is

  start_init : ((after_change s p u).nbr p).remote_init ≡ r
  start_init = change_init s nbs_exstart p u f.state_at ∙ rw (exits_start s ok) f.init_at

  start_dbx : (after_change s p u).n_dbx_nbrs ≡ st.n_dbx_nbrs
  start_dbx = change_dbx s nbs_exstart p u f.state_at ∙ dbx_start s u.n_dbx_nbrs ok ∙ f.dbx_is

  pub started-Balanced :
      bump (local_busy (st.nbr p)) l ≡ bump (not r) st.local_inits
      → bump (remote_busy (st.nbr p)) m ≡ bump r st.remote_inits
      → (AtMost st.local_inits st.max_dds → AtMost l st.max_dds)
      → (AtMost st.remote_inits st.max_dds → AtMost m st.max_dds)
      → Balanced p st (after_change s p u)
  started-Balanced lo re lcap rcap =
      let st' = change_state s nbs_exstart p u f.state_at p ∙ f.state_at in
      let dds = change_dds s nbs_exstart p u f.state_at ∙ f.dds_is in
      let idle = not_busy (st.nbr p) (ap can_start at_s ∙ ok) in
      record {
        other_states = λ q h. change_state s nbs_exstart p u f.state_at q ∙ f.other_states q h;
        other_inits = λ q h. change_other_init s nbs_exstart p u f.state_at q h ∙ f.other_inits q h;
        local_moves = rw (start_local, st', start_init) lo;
        remote_moves = rw (start_remote, st', start_init) re;
        dbx_moves = rw (start_dbx, st', idle.1);
        called = λ h. ap is_forming st';
        local_capped = λ h. rw (start_local, dds) (lcap h);
        remote_capped = λ h. rw (start_remote, dds) (rcap h);
        dds_same = dds;
        lists_same = λ j. change_lists s nbs_exstart p u f.state_at j ∙ f.lists_are j;
      }
