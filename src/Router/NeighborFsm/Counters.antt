-- ===== src/Router/NeighborFsm/Counters.antt =====
-- THospf/NeighborFSM.cpp: the counters of database exchanges count the neighbors, and a call of
-- `nbr_fsm` keeps that so.
use ospfbasic.Prelude.{
  ℕ, suc, ◌≡◌, refl, sym, ap, subst, ◌∙◌, inl, inr, Bool, true, false, arith, ◌==◌, if◌then◌else◌,
  Bool-cases, ==_iff, Option-cases, ℤ, pos, increment, bump, bump-injective, AtMost, List, [], ◌∷◌,
}
use ospfbasic.Fsm.Neighbor.{NbrState, NbrEvent, run_nbr_fsm}
use ospfbasic.Router.State.{Ptr, Neighbor, Store}
use ospfbasic.Router.Actions.{same_nbr_state, set_state, mem_ptr}
use ospfbasic.Router.NeighborFsm.{after_change, nbr_step}
use ospfbasic.Router.NeighborFsm.Frame.{Frame-refl, set_state_at}
use ospfbasic.Router.NeighborFsm.Outcome.{
  Outcome, moved, Fits, run_nbr_fsm-Fits, nbr_action-Outcome, stay,
}
use ospfbasic.Router.NeighborFsm.Balanced.{Balanced, IsCalled, local_busy, remote_busy, dbx_busy}
use ospfbasic.Router.NeighborFsm.Balanced.Outcomes.{Outcome-Balanced, same-Balanced, same_refl}

-- What stands behind the `switch`.
tail-Balanced :
    (p : Ptr) (s : NbrState) (st u : Store)
    → (st.nbr p).n_state ≡ s
    → IsCalled (st.nbr p)
    → Outcome p s st u
    → Balanced p st (
        let result : Store × Bool =
          if same_nbr_state s (u.nbr p).n_state then (u, false) else (after_change s p u, true) in
        result.0)
tail-Balanced p s st u at_s c w = elim (Bool-cases (same_nbr_state s (u.nbr p).n_state)) [
  | inl e ↦ rw e (same-Balanced p s st u at_s c w e)
  | inr e ↦ rw e (Outcome-Balanced p s st u at_s c w e)
]

-- For a neighbor whose `remote_init` is set in an exchange only, in every state and on every event,
-- `nbr_fsm` up to its calls of `rl_orig`, `nl_orig` and `ifc_fsm` changes the state of that neighbor
-- only and each of the three counters by what changes there; neither `local_inits` nor `remote_inits`
-- gets above `max_dds`, and the lists of neighbors stay.
pub nbr_step-Balanced :
    (p : Ptr) (e : NbrEvent) (st : Store) → IsCalled (st.nbr p) → Balanced p st (nbr_step p e st).0
unfolding nbr_step
nbr_step-Balanced p e st c =
    let s = (st.nbr p).n_state in
    let t = (run_nbr_fsm s e).0 in
    let fits = run_nbr_fsm-Fits s e in
    elim (Option-cases (run_nbr_fsm s e).1) [
      | inl h ↦
          let same : t ≡ s = subst (λ a. Fits s t a) h fits in
          rw (h, nbr_step)
            (same-Balanced p s st (set_state p t st) refl c
              (moved t (rw same (stay s)) (Frame-refl (set_state p t st)))
              (rw (set_state_at p t st, same) (same_refl s)))
      | inr (a, h) ↦
          rw (h, nbr_step)
            (tail-Balanced p s st _ refl c
              (nbr_action-Outcome p s t a st (subst (λ a. Fits s t a) h fits)))
    ]

-- How many neighbors of a list are of a kind.
unfoldable pub count : (Neighbor → Bool) → Store → List Ptr → ℕ
count busy st [] = 0
count busy st (p ∷ ps) = let rest = count busy st ps in if busy (st.nbr p) then suc rest else rest

-- No address stands in a list twice.
abbrev pub Distinct : List Ptr → Type 0
Distinct [] = Unit {0}
Distinct (p ∷ ps) = (mem_ptr p ps ≡ false) × Distinct ps

pub count-same :
    (busy : Neighbor → Bool) (st u : Store) (p : Ptr) (ps : List Ptr)
    → mem_ptr p ps ≡ false
    → ((q : Ptr) → (q == p) ≡ false → busy (u.nbr q) ≡ busy (st.nbr q))
    → count busy u ps ≡ count busy st ps
unfolding count mem_ptr
count-same busy st u p [] m h = refl
count-same busy st u p (q ∷ qs) m h = ground (arith, h q, count-same busy st u p qs)

-- A change at one member of a list changes the count by that member's share.
pub count-moves :
    (busy : Neighbor → Bool) (st u : Store) (p : Ptr) (ps : List Ptr)
    → Distinct ps
    → mem_ptr p ps ≡ true
    → ((q : Ptr) → (q == p) ≡ false → busy (u.nbr q) ≡ busy (st.nbr q))
    → bump (busy (st.nbr p)) (pos (count busy u ps))
      ≡ bump (busy (u.nbr p)) (pos (count busy st ps))
unfolding count mem_ptr increment
count-moves busy st u p [] d m h = cc
count-moves busy st u p (q ∷ qs) d m h =
    ground (arith, h q, count-same busy st u p qs, count-moves busy st u p qs d.1)

-- The neighbors at the addresses `live` account for the three counters, and no more exchanges are
-- begun than `max_dds` allows.
pub record Counted (live : List Ptr) (st : Store) : Type 0 where
  pub locals : st.local_inits ≡ pos (count local_busy st live)
  pub remotes : st.remote_inits ≡ pos (count remote_busy st live)
  pub dbx : st.n_dbx_nbrs ≡ pos (count dbx_busy st live)
  pub called : (q : Ptr) → mem_ptr q live ≡ true → IsCalled (st.nbr q)
  pub local_capped : AtMost st.local_inits st.max_dds
  pub remote_capped : AtMost st.remote_inits st.max_dds

recount :
    (busy : Neighbor → Bool) (st u : Store) (p : Ptr) (live : List Ptr) (a b : ℤ)
    → Distinct live
    → mem_ptr p live ≡ true
    → ((q : Ptr) → (q == p) ≡ false → busy (u.nbr q) ≡ busy (st.nbr q))
    → bump (busy (st.nbr p)) b ≡ bump (busy (u.nbr p)) a
    → a ≡ pos (count busy st live)
    → b ≡ pos (count busy u live)
recount busy st u p live a b d m others moves was =
    bump-injective (busy (st.nbr p))
      (moves ∙ ap (bump (busy (u.nbr p))) was ∙ sym (count-moves busy st u p live d m others))

-- A balanced change keeps the counts.
pub Balanced-Counted :
    (live : List Ptr) (p : Ptr) (st u : Store)
    → Distinct live
    → mem_ptr p live ≡ true
    → Balanced p st u
    → Counted live st
    → Counted live u
Balanced-Counted live p st u d m b v = record {
  locals =
      recount local_busy st u p live _ _ d m (λ q h. rw (b.other_states q h, b.other_inits q h))
        b.local_moves v.locals;
  remotes =
      recount remote_busy st u p live _ _ d m (λ q h. rw (b.other_states q h, b.other_inits q h))
        b.remote_moves v.remotes;
  dbx = recount dbx_busy st u p live _ _ d m (λ q h. rw (b.other_states q h)) b.dbx_moves v.dbx;
  called = λ q h. elim (Bool-cases (q == p)) [
    | inl e ↦ rw ((==_iff q p).0 e) b.called
    | inr e ↦ rw (b.other_states q e, b.other_inits q e) (v.called q h)
  ];
  local_capped = b.local_capped v.local_capped;
  remote_capped = b.remote_capped v.remote_capped;
}
