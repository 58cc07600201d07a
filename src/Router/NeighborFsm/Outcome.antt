-- ===== src/Router/NeighborFsm/Outcome.antt =====
-- What the `switch` of NeighborFSM.cpp's `nbr_fsm` can make of the store, for every state and
-- event: the neighbor moves along an edge of its diagram, or it begins an exchange and is counted.
use ospfbasic.Prelude.{
  ◌≡◌, refl, inl, inr, Bool, true, false, not, ◌&&◌, ◌||◌, Option, none, some, arith, if◌then◌else◌,
  Bool-cases, increment, int_ltb,
}
use ospfbasic.Fsm.Neighbor.{
  NbrState, nbs_down, nbs_attempt, nbs_init, nbs_2way, nbs_exstart, nbs_exchange, nbs_loading,
  nbs_full, at_most, NbrEvent, nbe_hellorcvd, NbrAction, no_action, nba_start, nba_restart_inactt,
  nba_start_inactt, nba_eval1, nba_eval2, nba_snapshot, nba_exchangedone, nba_reeval,
  nba_restart_dd, nba_delete, nba_clr_lists, nba_hellochk, run_nbr_fsm,
}
use ospfbasic.Router.State.{Ptr, Store, set_nbr}
use ospfbasic.Router.Actions.{
  same_nbr_state, ifc_of, set_state, is_empty, has_attempt, adjacency_wanted, del_pend_adj,
  clr_lists, eval1, eval2, exchange_done, reeval, hello_check, nbr_action,
}
use ospfbasic.Router.NeighborFsm.Frame.{
  Frame, Frame-refl, Frame-trans, set_nbr-Frame, rest-Frame, add_pend-Frame, del_pend-Frame,
  start_adjacency-Frame, snapshot-Frame, clr_lists-Frame, delete-Frame, set_state-Frame,
  set_state-under,
}

-- The edges of the diagram other than the two into ExStart.
abbrev pub is_move : NbrState → NbrState → Bool
is_move nbs_exstart nbs_exchange = true
is_move nbs_exchange nbs_loading = true
is_move nbs_exchange nbs_full = true
is_move nbs_loading nbs_full = true
is_move s t = at_most t nbs_2way || same_nbr_state s t

-- An exchange begins from Init or 2-Way.
abbrev pub can_start : NbrState → Bool
can_start nbs_init = true
can_start nbs_2way = true
can_start _ = false

-- `u` is `st` after the neighbor at `p`, in state `s`, went through an action.
pub data Outcome (p : Ptr) (s : NbrState) (st u : Store) : Type 0 where
  moved : (t : NbrState) → is_move s t ≡ true → Frame (set_state p t st) u → Outcome p s st u
  local_start :
      can_start s ≡ true
      → int_ltb st.local_inits st.max_dds ≡ true
      → Frame (record (set_state p nbs_exstart st) { local_inits = increment st.local_inits }) u
      → Outcome p s st u
  remote_start :
      can_start s ≡ true
      → int_ltb st.remote_inits st.max_dds ≡ true
      → Frame
          (record (set_nbr p (record (st.nbr p) { remote_init = true; n_state = nbs_exstart }) st) {
            remote_inits = increment st.remote_inits;
          })
          u
      → Outcome p s st u

-- What each action is entered with: the state before, and the one that the table sets.
abbrev pub Fits : NbrState → NbrState → Option NbrAction → Type 0
Fits s t none = t ≡ s
Fits s t (some nba_start) = (s ≡ nbs_down) × (t ≡ nbs_attempt)
Fits s t (some nba_eval1) = (t ≡ s) × (can_start s ≡ true)
Fits s t (some nba_eval2) = (t ≡ s) × (can_start s ≡ true)
Fits s t (some nba_snapshot) = (s ≡ nbs_exstart) × (t ≡ nbs_exchange)
Fits s t (some nba_exchangedone) = (s ≡ nbs_exchange) × (t ≡ s)
Fits s t (some nba_reeval) = t ≡ s
Fits s t (some nba_hellochk) = (t ≡ s) × (at_most s nbs_init ≡ true)
Fits s t (some nba_restart_dd) = t ≡ nbs_2way
Fits s t (some nba_delete) = t ≡ nbs_down
Fits s t (some nba_clr_lists) = t ≡ nbs_init
Fits s t (some a) = is_move s t ≡ true

pub run_nbr_fsm-Fits :
    (s : NbrState) (e : NbrEvent) → Fits s (run_nbr_fsm s e).0 (run_nbr_fsm s e).1
unfolding run_nbr_fsm
run_nbr_fsm-Fits nbs_down nbe_hellorcvd = ground arith
run_nbr_fsm-Fits nbs_down _ = ground arith
run_nbr_fsm-Fits nbs_attempt nbe_hellorcvd = ground arith
run_nbr_fsm-Fits nbs_attempt _ = ground arith
run_nbr_fsm-Fits nbs_init nbe_hellorcvd = ground arith
run_nbr_fsm-Fits nbs_init _ = ground arith
run_nbr_fsm-Fits nbs_2way nbe_hellorcvd = ground arith
run_nbr_fsm-Fits nbs_2way _ = ground arith
run_nbr_fsm-Fits nbs_exstart nbe_hellorcvd = ground arith
run_nbr_fsm-Fits nbs_exstart _ = ground arith
run_nbr_fsm-Fits nbs_exchange nbe_hellorcvd = ground arith
run_nbr_fsm-Fits nbs_exchange _ = ground arith
run_nbr_fsm-Fits nbs_loading nbe_hellorcvd = ground arith
run_nbr_fsm-Fits nbs_loading _ = ground arith
run_nbr_fsm-Fits nbs_full nbe_hellorcvd = ground arith
run_nbr_fsm-Fits nbs_full _ = ground arith

pub if_intro {κ} :
    (P : Store → Type κ) (b : Bool) {u v : Store}
    → (b ≡ true → P u)
    → (b ≡ false → P v)
    → P (if b then u else v)
if_intro P true f g = f refl
if_intro P false f g = g refl

-- The store in which an exchange begins, whatever states the neighbor was given before.
local-under :
    (p : Ptr) (s t : NbrState) (st : Store)
    → Frame
        (record (set_state p nbs_exstart st) { local_inits = increment st.local_inits })
        (let sv = set_state p t (set_state p s st) in
          record (set_state p nbs_exstart sv) { local_inits = increment sv.local_inits })
unfolding set_nbr
local-under p s t st = record {
  states = λ q. ground arith;
  inits = λ q. ground arith;
  local_same = refl;
  remote_same = refl;
  dbx_same = refl;
  dds_same = refl;
  ifcs_same = refl;
}

remote-under :
    (p : Ptr) (s : NbrState) (st : Store)
    → Frame
        (record (set_nbr p (record (st.nbr p) { remote_init = true; n_state = nbs_exstart }) st) {
          remote_inits = increment st.remote_inits;
        })
        (let sv = set_state p s st in
          record (set_nbr p (record (sv.nbr p) { remote_init = true; n_state = nbs_exstart }) sv) {
            remote_inits = increment sv.remote_inits;
          })
unfolding set_nbr
remote-under p s st = record {
  states = λ q. ground arith;
  inits = λ q. ground arith;
  local_same = refl;
  remote_same = refl;
  dbx_same = refl;
  dds_same = refl;
  ifcs_same = refl;
}

-- A change of state leaves the counters.
local_room :
    (p : Ptr) (s t : NbrState) (st : Store)
    → (let sv = set_state p t (set_state p s st) in int_ltb sv.local_inits sv.max_dds ≡ true)
    → int_ltb st.local_inits st.max_dds ≡ true
unfolding set_nbr
local_room p s t st room = room

remote_room :
    (p : Ptr) (s : NbrState) (st : Store)
    → (let sv = set_state p s st in int_ltb sv.remote_inits sv.max_dds ≡ true)
    → int_ltb st.remote_inits st.max_dds ≡ true
unfolding set_nbr
remote_room p s st room = room

can_start-move : (s : NbrState) → is_move s nbs_2way ≡ true
can_start-move nbs_exstart = refl
can_start-move _ = refl

down-move : (s : NbrState) → is_move s nbs_down ≡ true
down-move nbs_exstart = refl
down-move _ = refl

attempt-move : (s : NbrState) → is_move s nbs_attempt ≡ true
attempt-move nbs_exstart = refl
attempt-move _ = refl

init-move : (s : NbrState) → is_move s nbs_init ≡ true
init-move nbs_exstart = refl
init-move _ = refl

pub stay : (s : NbrState) → is_move s s ≡ true
stay nbs_exstart = refl
stay _ = refl

module _ (p : Ptr) (s : NbrState) (st : Store) where
  eval1-Outcome : can_start s ≡ true → Outcome p s st (eval1 p (set_state p s st))
  unfolding eval1
  eval1-Outcome ok =
      let st0 = set_state p s st in
      let st1 = set_state p nbs_2way st0 in
      let to_2way = set_state-Frame p s nbs_2way st in
      let up = record (set_state p nbs_exstart st1) { local_inits = increment st1.local_inits } in
      if_intro (Outcome p s st) (not (adjacency_wanted (ifc_of p st1) (st1.nbr p)))
        (λ _. moved nbs_2way (can_start-move s) (Frame-trans to_2way (del_pend-Frame p st1)))
        (λ _.
          if_intro (Outcome p s st) (int_ltb st1.local_inits st1.max_dds)
            (λ room. local_start ok (local_room p s nbs_2way st room) (
              Frame-trans (local-under p s nbs_2way st)
                (Frame-trans (del_pend-Frame p up) (start_adjacency-Frame p (del_pend_adj p up)))))
            (λ _. moved nbs_2way (can_start-move s) (Frame-trans to_2way (add_pend-Frame p st1))))

  eval2-Outcome : can_start s ≡ true → Outcome p s st (eval2 p (set_state p s st))
  unfolding eval2
  eval2-Outcome ok =
      let st0 = set_state p s st in
      let to_2way = set_state-Frame p s nbs_2way st in
      let up =
        record (set_nbr p (record (st0.nbr p) { remote_init = true; n_state = nbs_exstart }) st0) {
          remote_inits = increment st0.remote_inits;
        } in
      if_intro (Outcome p s st) (not (adjacency_wanted (ifc_of p st0) (st0.nbr p)))
        (λ _. moved nbs_2way (can_start-move s) to_2way)
        (λ _.
          if_intro (Outcome p s st) (int_ltb st0.remote_inits st0.max_dds)
            (λ room. remote_start ok (remote_room p s st room) (
              Frame-trans (remote-under p s st)
                (Frame-trans (del_pend-Frame p up) (start_adjacency-Frame p (del_pend_adj p up)))))
            (λ _.
              moved nbs_2way (can_start-move s)
                (Frame-trans to_2way (add_pend-Frame p (set_state p nbs_2way st0)))))

  exchange_done-Outcome : s ≡ nbs_exchange → Outcome p s st (exchange_done p (set_state p s st))
  unfolding exchange_done
  exchange_done-Outcome at_exchange =
      let done = ((set_state p s st).nbr p).reqlist in
      elim (Bool-cases (is_empty done)) [
        | inl e ↦ rw e (moved nbs_full (rw at_exchange) (set_state-Frame p s nbs_full st))
        | inr e ↦ rw e (moved nbs_loading (rw at_exchange) (set_state-Frame p s nbs_loading st))
      ]

  reeval-Outcome : Outcome p s st (reeval p (set_state p s st))
  unfolding reeval
  reeval-Outcome =
      let st0 = set_state p s st in
      if_intro (Outcome p s st) (not (adjacency_wanted (ifc_of p st0) (st0.nbr p)))
        (λ _. moved nbs_2way (can_start-move s) (
          Frame-trans (set_state-Frame p s nbs_2way st)
            (set_state-under p nbs_2way (clr_lists-Frame p st0))))
        (λ _. moved s (stay s) (Frame-refl st0))

  hello_check-Outcome :
      at_most s nbs_init ≡ true → Outcome p s st (hello_check p (set_state p s st))
  unfolding hello_check
  hello_check-Outcome low =
      let st0 = set_state p s st in
      let i = ifc_of p st0 in
      let n = st0.nbr p in
      let same = moved s (stay s) (Frame-refl st0) in
      if_intro (Outcome p s st) (not (has_attempt i.if_type)) (λ _. same)
        (λ _.
          if_intro (Outcome p s st)
            (not (adjacency_wanted i n) && same_nbr_state n.n_state nbs_attempt)
            (λ _. moved nbs_down (down-move s) (
              Frame-trans (set_state-Frame p s nbs_down st)
                (delete-Frame p (set_state p nbs_down st0))))
            (λ _.
              if_intro (Outcome p s st) (adjacency_wanted i n && same_nbr_state n.n_state nbs_down)
                (λ _. moved nbs_attempt (attempt-move s) (set_state-Frame p s nbs_attempt st))
                (λ _. same)))

-- Every action, entered as the table enters it.
pub nbr_action-Outcome :
    (p : Ptr) (s t : NbrState) (a : NbrAction) (st : Store)
    → Fits s t (some a)
    → Outcome p s st (nbr_action a p (set_state p t st))
unfolding nbr_action
nbr_action-Outcome p s t no_action st f = moved t f (Frame-refl (set_state p t st))
nbr_action-Outcome p s t nba_start st f =
    moved t (rw (f.0, f.1))
      (Frame-trans (rest-Frame (set_state p t st) _ _ _ _) (set_nbr-Frame p _ _ refl refl))
nbr_action-Outcome p s t nba_restart_inactt st f = moved t f (set_nbr-Frame p _ _ refl refl)
nbr_action-Outcome p s t nba_start_inactt st f = moved t f (set_nbr-Frame p _ _ refl refl)
nbr_action-Outcome p s t nba_eval1 st f = rw f.0 (eval1-Outcome p s st f.1)
nbr_action-Outcome p s t nba_eval2 st f = rw f.0 (eval2-Outcome p s st f.1)
nbr_action-Outcome p s t nba_snapshot st f =
    moved t (rw (f.0, f.1)) (snapshot-Frame p (set_state p t st))
nbr_action-Outcome p s t nba_exchangedone st f = rw f.1 (exchange_done-Outcome p s st f.0)
nbr_action-Outcome p s t nba_reeval st f = rw f (reeval-Outcome p s st)
nbr_action-Outcome p s t nba_restart_dd st f =
    let st0 = set_state p t st in
    moved t (rw f (can_start-move s))
      (Frame-trans (clr_lists-Frame p st0) (add_pend-Frame p (clr_lists p st0)))
nbr_action-Outcome p s t nba_delete st f =
    moved t (rw f (down-move s)) (delete-Frame p (set_state p t st))
nbr_action-Outcome p s t nba_clr_lists st f =
    moved t (rw f (init-move s)) (clr_lists-Frame p (set_state p t st))
nbr_action-Outcome p s t nba_hellochk st f = rw f.0 (hello_check-Outcome p s st f.1)
