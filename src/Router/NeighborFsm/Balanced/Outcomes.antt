-- ===== src/Router/NeighborFsm/Balanced/Outcomes.antt =====
-- THospf/NeighborFSM.cpp: the counters behind the `switch` of `nbr_fsm`, whatever its action did.
use ospfbasic.Prelude.{
  ◌≡◌, refl, sym, ap, ◌∙◌, true, false, arith, increment, increment-AtMost, List,
}
use ospfbasic.Fsm.Neighbor.{NbrState, nbs_down, nbs_init, nbs_2way, nbs_exstart}
use ospfbasic.Router.State.{Ptr, Output, Store, set_nbr}
use ospfbasic.Router.Actions.{same_nbr_state}
use ospfbasic.Router.NeighborFsm.{after_change}
use ospfbasic.Router.NeighborFsm.Outcome.{Outcome, moved, local_start, remote_start, can_start}
use ospfbasic.Router.NeighborFsm.Balanced.{IsCalled, Balanced}
use ospfbasic.Router.NeighborFsm.Balanced.Moves.{placed, moved-Balanced, idle_of}
use ospfbasic.Router.NeighborFsm.Balanced.Starts.{started-Balanced, not_busy}

start_differs : (s : NbrState) → can_start s ≡ true → ¬ (same_nbr_state s nbs_exstart ≡ true)
start_differs nbs_init h k = cc k
start_differs nbs_2way h k = cc k
start_differs _ h k = cc h

-- The codes tell the states apart.
pub same_eq : (s t : NbrState) → same_nbr_state s t ≡ true → t ≡ s
same_eq nbs_down t h = ground arith
same_eq _ t h = ground arith

pub same_refl : (s : NbrState) → same_nbr_state s s ≡ true
same_refl nbs_down = refl
same_refl _ = refl

-- Whatever the action made of the store, it is balanced behind `after_change` if the state is
-- another one.
pub Outcome-Balanced :
    (p : Ptr) (s : NbrState) (st u : Store)
    → (st.nbr p).n_state ≡ s
    → IsCalled (st.nbr p)
    → Outcome p s st u
    → same_nbr_state s (u.nbr p).n_state ≡ false
    → Balanced p st (after_change s p u)
unfolding set_nbr
Outcome-Balanced p s st u at_s c (moved t m f) d =
    let g = placed p (record (st.nbr p) { n_state = t }) st.local_inits st.remote_inits st u f in
    moved-Balanced p s t st u at_s c g m (sym (ap (same_nbr_state s) g.state_at) ∙ d)
Outcome-Balanced p s st u at_s c (local_start ok room f) d =
    let n = st.nbr p in
    let ok' = ap can_start at_s ∙ ok in
    let idle = idle_of n ok' c in
    let quiet = not_busy n ok' in
    let g =
      placed p (record n { n_state = nbs_exstart }) (increment st.local_inits) st.remote_inits st u
        f in
    started-Balanced p s _ _ _ st u at_s c g ok (rw (quiet.0, idle)) (rw (quiet.0, idle))
      (λ h. increment-AtMost st.local_inits st.max_dds room) (λ h. h)
Outcome-Balanced p s st u at_s c (remote_start ok room f) d =
    let n = st.nbr p in
    let quiet = not_busy n (ap can_start at_s ∙ ok) in
    let g =
      placed p (record n { remote_init = true; n_state = nbs_exstart }) st.local_inits
        (increment st.remote_inits) st u f in
    started-Balanced p s _ _ _ st u at_s c g ok (rw quiet.0) (rw quiet.0) (λ h. h)
      (λ h. increment-AtMost st.remote_inits st.max_dds room)

-- Output changes no counter.
pub emit-Balanced :
    (p : Ptr) (st u : Store) (o : List Output)
    → Balanced p st u
    → Balanced p st (record u { out = o })
emit-Balanced p st u o b = record {
  other_states = b.other_states;
  other_inits = b.other_inits;
  local_moves = b.local_moves;
  remote_moves = b.remote_moves;
  dbx_moves = b.dbx_moves;
  called = b.called;
  local_capped = b.local_capped;
  remote_capped = b.remote_capped;
  dds_same = b.dds_same;
  lists_same = b.lists_same;
}

-- Nor does an action that leaves the neighbor's state.
pub same-Balanced :
    (p : Ptr) (s : NbrState) (st u : Store)
    → (st.nbr p).n_state ≡ s
    → IsCalled (st.nbr p)
    → Outcome p s st u
    → same_nbr_state s (u.nbr p).n_state ≡ true
    → Balanced p st u
unfolding set_nbr
same-Balanced p s st u at_s c (moved t m f) d =
    let g = placed p (record (st.nbr p) { n_state = t }) st.local_inits st.remote_inits st u f in
    let e : (u.nbr p).n_state ≡ (st.nbr p).n_state = same_eq s _ d ∙ sym at_s in
    record {
      other_states = g.other_states;
      other_inits = g.other_inits;
      local_moves = rw (g.local_is, e, g.init_at);
      remote_moves = rw (g.remote_is, e, g.init_at);
      dbx_moves = rw (g.dbx_is, e);
      called = rw (e, g.init_at) c;
      local_capped = λ h. rw (g.local_is, g.dds_is) h;
      remote_capped = λ h. rw (g.remote_is, g.dds_is) h;
      dds_same = g.dds_is;
      lists_same = g.lists_are;
    }
same-Balanced p s st u at_s c (local_start ok room f) d =
    let g =
      placed p (record (st.nbr p) { n_state = nbs_exstart }) (increment st.local_inits)
        st.remote_inits st u f in
    absurd (start_differs s ok (sym (ap (same_nbr_state s) g.state_at) ∙ d))
same-Balanced p s st u at_s c (remote_start ok room f) d =
    let g =
      placed p (record (st.nbr p) { remote_init = true; n_state = nbs_exstart }) st.local_inits
        (increment st.remote_inits) st u f in
    absurd (start_differs s ok (sym (ap (same_nbr_state s) g.state_at) ∙ d))
