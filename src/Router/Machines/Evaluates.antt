-- ===== src/Router/Machines/Evaluates.antt =====
-- THospf/NeighborFSM.cpp: the evaluation of an adjacency does not reach the interface.
use ospfbasic.Prelude.{
  ◌≡◌, refl, sym, ap, subst, ◌∙◌, Option, none, inl, inr, Bool, true, false, not, ◌&&◌,
  if◌then◌else◌, Bool-cases, int_ltb, increment, some,
}
use ospfbasic.Fsm.Neighbor.{
  NbrState, nbs_down, nbs_attempt, nbs_init, nbs_2way, nbs_exstart, nbs_exchange, nbs_loading,
  nbs_full, at_most, NbrEvent, nbe_eval, NbrAction, nba_eval1, nba_reeval, nba_hellochk,
  run_nbr_fsm,
}
use ospfbasic.Router.State.{Ptr, Store}
use ospfbasic.Router.Actions.{
  same_nbr_state, ifc_of, set_state, has_attempt, adjacency_wanted, del_pend_adj, clr_lists, eval1,
  reeval, hello_check, nbr_action,
}
use ospfbasic.Router.NeighborFsm.{nbr_step, after_change}
use ospfbasic.Router.NeighborFsm.Frame.{
  Frame, add_pend-Frame, del_pend-Frame, start_adjacency-Frame, delete-Frame, set_state_at,
}
use ospfbasic.Router.NeighborFsm.Change.{change_state}
use ospfbasic.Router.NeighborFsm.Outcome.{if_intro}

-- The evaluation of an adjacency keeps the neighbor on its side of 2-Way.
abbrev IsUp : Ptr → Store → Type 0
IsUp p st = at_most nbs_2way (st.nbr p).n_state ≡ true

abbrev IsLow : Ptr → Store → Type 0
IsLow p st = at_most nbs_2way (st.nbr p).n_state ≡ false

IsUp-framed : (p : Ptr) {st u : Store} → Frame st u → IsUp p st → IsUp p u
IsUp-framed p f h = rw (f.states p) h

IsLow-framed : (p : Ptr) {st u : Store} → Frame st u → IsLow p st → IsLow p u
IsLow-framed p f h = rw (f.states p) h

IsUp-set :
    (p : Ptr) (s : NbrState) (st : Store) → at_most nbs_2way s ≡ true → IsUp p (set_state p s st)
IsUp-set p s st h = rw (set_state_at p s st) h

IsLow-set :
    (p : Ptr) (s : NbrState) (st : Store) → at_most nbs_2way s ≡ false → IsLow p (set_state p s st)
IsLow-set p s st h = rw (set_state_at p s st) h

eval1-IsUp : (p : Ptr) (st : Store) → IsUp p (eval1 p st)
unfolding eval1
eval1-IsUp p st =
    let st1 = set_state p nbs_2way st in
    let up = record (set_state p nbs_exstart st1) { local_inits = increment st1.local_inits } in
    if_intro (IsUp p) (not (adjacency_wanted (ifc_of p st1) (st1.nbr p)))
      (λ _. IsUp-framed p (del_pend-Frame p st1) (IsUp-set p nbs_2way st refl))
      (λ _.
        if_intro (IsUp p) (int_ltb st1.local_inits st1.max_dds)
          (λ _.
            IsUp-framed p (start_adjacency-Frame p (del_pend_adj p up))
              (IsUp-framed p (del_pend-Frame p up) (IsUp-set p nbs_exstart st1 refl)))
          (λ _. IsUp-framed p (add_pend-Frame p st1) (IsUp-set p nbs_2way st refl)))

reeval-IsUp : (p : Ptr) (st : Store) → IsUp p st → IsUp p (reeval p st)
unfolding reeval
reeval-IsUp p st h =
    if_intro (IsUp p) (not (adjacency_wanted (ifc_of p st) (st.nbr p)))
      (λ _. IsUp-set p nbs_2way (clr_lists p st) refl) (λ _. h)

hello_check-IsLow : (p : Ptr) (st : Store) → IsLow p st → IsLow p (hello_check p st)
unfolding hello_check
hello_check-IsLow p st h =
    let i = ifc_of p st in
    let n = st.nbr p in
    if_intro (IsLow p) (not (has_attempt i.if_type)) (λ _. h)
      (λ _.
        if_intro (IsLow p) (not (adjacency_wanted i n) && same_nbr_state n.n_state nbs_attempt)
          (λ _.
            IsLow-framed p (delete-Frame p (set_state p nbs_down st))
              (IsLow-set p nbs_down st refl))
          (λ _.
            if_intro (IsLow p) (adjacency_wanted i n && same_nbr_state n.n_state nbs_down)
              (λ _. IsLow-set p nbs_attempt st refl) (λ _. h)))

abbrev eval_kind : NbrState → NbrAction
eval_kind nbs_down = nba_hellochk
eval_kind nbs_attempt = nba_hellochk
eval_kind nbs_init = nba_hellochk
eval_kind nbs_2way = nba_eval1
eval_kind _ = nba_reeval

eval_row : (s : NbrState) → run_nbr_fsm s nbe_eval ≡ (s, some (eval_kind s))
unfolding run_nbr_fsm
eval_row nbs_down = refl
eval_row _ = refl

-- The side of 2-Way, as a number of the action's result.
eval_keeps :
    (s : NbrState) (p : Ptr) (st : Store)
    → at_most nbs_2way ((nbr_action (eval_kind s) p (set_state p s st)).nbr p).n_state
      ≡ at_most nbs_2way s
unfolding nbr_action
eval_keeps nbs_down p st = hello_check-IsLow p _ (IsLow-set p nbs_down st refl)
eval_keeps nbs_attempt p st = hello_check-IsLow p _ (IsLow-set p nbs_attempt st refl)
eval_keeps nbs_init p st = hello_check-IsLow p _ (IsLow-set p nbs_init st refl)
eval_keeps nbs_2way p st = eval1-IsUp p _
eval_keeps nbs_exstart p st = reeval-IsUp p _ (IsUp-set p nbs_exstart st refl)
eval_keeps nbs_exchange p st = reeval-IsUp p _ (IsUp-set p nbs_exchange st refl)
eval_keeps nbs_loading p st = reeval-IsUp p _ (IsUp-set p nbs_loading st refl)
eval_keeps nbs_full p st = reeval-IsUp p _ (IsUp-set p nbs_full st refl)

-- What `nbr_fsm` does behind the `switch`, up to `rl_orig`.
abbrev pub finish : NbrState → Ptr → Store → Store × Bool
finish s p u = if same_nbr_state s (u.nbr p).n_state then (u, false) else (after_change s p u, true)

pub step_row :
    (p : Ptr) (e : NbrEvent) (st : Store) (s t : NbrState) (a : NbrAction)
    → (st.nbr p).n_state ≡ s
    → run_nbr_fsm s e ≡ (t, some a)
    → nbr_step p e st ≡ finish s p (nbr_action a p (set_state p t st))
unfolding nbr_step
step_row p e st s t a at_s row =
    subst
      (λ s'.
        elim (run_nbr_fsm s' e).1 as (λ _. Store × Bool) [
          | none ↦ (set_state p (run_nbr_fsm s' e).0 st, false)
          | some a' ↦ finish s' p (nbr_action a' p (set_state p (run_nbr_fsm s' e).0 st))
        ]
        ≡ finish s p (nbr_action a p (set_state p t st)))
      (sym at_s)
      (ap
        (λ (r : NbrState × Option NbrAction). elim r.1 as (λ _. Store × Bool) [
          | none ↦ (set_state p r.0 st, false)
          | some a' ↦ finish s p (nbr_action a' p (set_state p r.0 st))
        ])
        row)

pub finish_state :
    (s : NbrState) (p : Ptr) (u : Store) → ((finish s p u).0.nbr p).n_state ≡ (u.nbr p).n_state
finish_state s p u = elim (Bool-cases (same_nbr_state s (u.nbr p).n_state)) [
  | inl e ↦ rw e refl
  | inr e ↦ rw e (change_state s _ p u refl p)
]

-- On an evaluation a neighbor stays on its side of 2-Way.
pub eval_side :
    (p : Ptr) (st : Store)
    → at_most nbs_2way ((nbr_step p nbe_eval st).0.nbr p).n_state
      ≡ at_most nbs_2way (st.nbr p).n_state
eval_side p st =
    let s = (st.nbr p).n_state in
    let u = nbr_action (eval_kind s) p (set_state p s st) in
    ap (λ (r : Store × Bool). at_most nbs_2way (r.0.nbr p).n_state)
      (step_row p nbe_eval st s s (eval_kind s) refl (eval_row s))
    ∙ ap (at_most nbs_2way) (finish_state s p u)
    ∙ eval_keeps s p st
