-- ===== src/Router/Machines/Loading.antt =====
-- THospf/NeighborFSM.cpp: the chains of calls between `nbr_fsm` and the flooding of advertisements
-- end, since each call that does anything makes a neighbor Full.
use ospfbasic.Prelude.{
  ℕ, zero, suc, ◌≡◌, ◌≤◌, refl, sym, ap, ◌∙◌, inl, inr, ◌⊎◌, Bool, true, false, List, [], ◌∷◌, none,
  some, arith, ◌==◌, length, Bool-cases, increment,
}
use ospfbasic.Fsm.Neighbor.{
  NbrState, nbs_down, nbs_attempt, nbs_init, nbs_exstart, nbs_exchange, nbs_2way, nbs_loading,
  nbs_full, at_most, NbrEvent, nbe_loadingdone, nbe_exchangedone, run_nbr_fsm, NbrAction,
}
use ospfbasic.Fsm.Interface.{ifs_dr, same_state}
use ospfbasic.Router.State.{Ptr, Store, set_nbr, router_lsa, network_lsa}
use ospfbasic.Router.Actions.{mem_ptr, set_state, ifc_of, nbr_action, is_empty, exchange_done}
use ospfbasic.Router.NeighborFsm.{nbr_step, links_change, crosses_2way}
use ospfbasic.Router.NeighborFsm.Frame.{set_state_at}
use ospfbasic.Router.NeighborFsm.Balanced.{is_exchanging, dbx_busy}
use ospfbasic.Router.NeighborFsm.Counters.{count, count-moves, Distinct, nbr_step-Balanced}
use ospfbasic.Router.Machines.{NbrCall, nbr_fsm, nbr_originate, tell_interface}
use ospfbasic.Router.Machines.Apart.{Good, step-Good}
use ospfbasic.Router.Machines.Floods.{
  Later, Fires, loading, loading-Later, EndsLater, bind-EndsLater, either-EndsLater,
  stays-EndsLater, before-EndsLater, originate_if-EndsLater,
}
use ospfbasic.Router.Machines.Evaluates.{step_row, finish_state}

-- The last request of a neighbor in Loading makes it Full.
loading_row : run_nbr_fsm nbs_loading nbe_loadingdone ≡ (nbs_full, some NbrAction.no_action)
unfolding run_nbr_fsm
loading_row = refl

loading_step :
    (q : Ptr) (st : Store)
    → (st.nbr q).n_state ≡ nbs_loading
    → ((nbr_step q nbe_loadingdone st).1 ≡ true)
      × (((nbr_step q nbe_loadingdone st).0.nbr q).n_state ≡ nbs_full)
unfolding nbr_action
loading_step q st h =
    let u = set_state q nbs_full st in
    let e = step_row q nbe_loadingdone st nbs_loading nbs_full NbrAction.no_action h loading_row in
    let at_full = set_state_at q nbs_full st in
    (
      ap (λ (r : Store × Bool). r.1) e ∙ rw at_full refl,
      ap (λ (r : Store × Bool). (r.0.nbr q).n_state) e ∙ finish_state nbs_loading q u ∙ at_full,
    )

exchange_row : (s : NbrState) → (s ≡ nbs_exchange) ⊎ (run_nbr_fsm s nbe_exchangedone ≡ (s, none))
unfolding run_nbr_fsm
exchange_row nbs_exchange = inl refl
exchange_row nbs_down = inr refl
exchange_row nbs_attempt = inr refl
exchange_row nbs_init = inr refl
exchange_row nbs_2way = inr refl
exchange_row nbs_exstart = inr refl
exchange_row nbs_loading = inr refl
exchange_row nbs_full = inr refl

done_row :
    run_nbr_fsm nbs_exchange nbe_exchangedone ≡ (nbs_exchange, some NbrAction.nba_exchangedone)
unfolding run_nbr_fsm
done_row = refl

-- So does the end of an exchange after which nothing is requested.
done_state :
    (q : Ptr) (st : Store)
    → is_empty (st.nbr q).reqlist ≡ true
    → ((exchange_done q (set_state q nbs_exchange st)).nbr q).n_state ≡ nbs_full
unfolding exchange_done set_nbr
done_state q st r = ground (arith, r)

exchange_step :
    (q : Ptr) (st : Store)
    → (st.nbr q).n_state ≡ nbs_exchange
    → is_empty (st.nbr q).reqlist ≡ true
    → ((nbr_step q nbe_exchangedone st).0.nbr q).n_state ≡ nbs_full
unfolding nbr_action
exchange_step q st h r =
    let u = exchange_done q (set_state q nbs_exchange st) in
    let e =
      step_row q nbe_exchangedone st nbs_exchange nbs_exchange NbrAction.nba_exchangedone h
        done_row in
    ap (λ (r : Store × Bool). (r.0.nbr q).n_state) e
    ∙ finish_state nbs_exchange q u
    ∙ done_state q st r

idle_step :
    (q : Ptr) (e : NbrEvent) (st : Store)
    → run_nbr_fsm (st.nbr q).n_state e ≡ ((st.nbr q).n_state, none)
    → (((nbr_step q e st).0.nbr q).n_state ≡ (st.nbr q).n_state) × ((nbr_step q e st).1 ≡ false)
unfolding nbr_step
idle_step q e st row =
    rw (ap (λ r. r.1) row, ap (λ r. r.0) row, nbr_step) (set_state_at q (st.nbr q).n_state st, refl)

-- What flooding calls makes the neighbor Full, or does nothing.
event_step :
    (q : Ptr) (e : NbrEvent) (st : Store)
    → Fires e (st.nbr q)
    → (is_exchanging (st.nbr q).n_state ≡ true) × (((nbr_step q e st).0.nbr q).n_state ≡ nbs_full)
      ⊎ (((nbr_step q e st).0.nbr q).n_state ≡ (st.nbr q).n_state) × ((nbr_step q e st).1 ≡ false)
event_step q e st (inl (is_e, h)) = rw is_e (inl (ap is_exchanging h, (loading_step q st h).1))
event_step q e st (inr (is_e, r)) = elim (exchange_row (st.nbr q).n_state) [
  | inl h ↦ rw is_e (inl (ap is_exchanging h, exchange_step q st h r))
  | inr row ↦ rw is_e (inr (idle_step q nbe_exchangedone st row))
]

event_moves :
    (live : List Ptr) (q : Ptr) (e : NbrEvent) (st : Store)
    → Distinct live
    → mem_ptr q live ≡ true
    → Good live st
    → is_exchanging (st.nbr q).n_state ≡ true
    → ((nbr_step q e st).0.nbr q).n_state ≡ nbs_full
    → Later st (nbr_step q e st).0 × (suc (loading (nbr_step q e st).0 live) ≡ loading st live)
unfolding increment
event_moves live q e st d m g h full =
    let u = (nbr_step q e st).0 in
    let b = nbr_step-Balanced q e st (g.counted.called q m) in
    let moved =
      count-moves dbx_busy st u q live d m (λ x k. ap is_exchanging (b.other_states x k)) in
    let at_full : is_exchanging (u.nbr q).n_state ≡ false = ap is_exchanging full in
    (
      record {
        states = λ x. elim (Bool-cases (x == q)) [
          | inl k ↦ let same : x ≡ q = ground (arith, k) in inr (rw same h, rw same full)
          | inr k ↦ inl (b.other_states x k)
        ];
      },
      ground (arith, moved, h, at_full),
    )

idle_moves :
    (live : List Ptr) (q : Ptr) (e : NbrEvent) (st : Store)
    → mem_ptr q live ≡ true
    → Good live st
    → ((nbr_step q e st).0.nbr q).n_state ≡ (st.nbr q).n_state
    → Later st (nbr_step q e st).0
idle_moves live q e st m g same =
    let b = nbr_step-Balanced q e st (g.counted.called q m) in
    record {
      states = λ x. elim (Bool-cases (x == q)) [
        | inl k ↦ let is_q : x ≡ q = ground (arith, k) in inl (rw is_q same)
        | inr k ↦ inl (b.other_states x k)
      ];
    }

member_loading :
    (q : Ptr) (st : Store) (ps : List Ptr)
    → mem_ptr q ps ≡ true
    → is_exchanging (st.nbr q).n_state ≡ true
    → 1 ≤ loading st ps
unfolding count mem_ptr
member_loading q st [] m h = cc m
member_loading q st (p ∷ ps) m h = elim (Bool-cases (p == q)) [
  | inl e ↦ let same : p ≡ q = ground (arith, e) in rw (same, h) (ground arith)
  | inr e ↦ ground (arith, member_loading q st ps (ground (arith, m, e)) h)
]

pub loading_bound : (st : Store) (ps : List Ptr) → loading st ps ≤ length ps
unfolding count
loading_bound st [] = omega arith
loading_bound st (p ∷ ps) = ground (arith, loading_bound st ps)

-- A call that returns for what flooding calls, in stores with at most `n` neighbors in Exchange or
-- Loading.
abbrev pub Loads : List Ptr → ℕ → NbrCall → Type 0
Loads live n call =
    (q : Ptr) (e : NbrEvent) (st : Store)
    → mem_ptr q live ≡ true
    → Good live st
    → Fires e (st.nbr q)
    → loading st live ≤ n
    → EndsLater live st (call q e st)

pub nbr_originate-EndsLater :
    (live : List Ptr) (n : ℕ) (call : NbrCall) (old : NbrState) (p : Ptr) (st : Store)
    → Loads live n call
    → Good live st
    → loading st live ≤ n
    → EndsLater live st (nbr_originate call old p st)
unfolding nbr_originate
nbr_originate-EndsLater live n call old p st loads g h =
    bind-EndsLater live st _ _
      (originate_if-EndsLater live n call loads (links_change old (st.nbr p).n_state) router_lsa st
        g h)
      (λ u k l.
        originate_if-EndsLater live n call loads (same_state (ifc_of p u).if_state ifs_dr)
          (network_lsa (u.nbr p).n_ifc) u k (omega (arith, h, loading-Later st u live l)))

exchanging_side : (s : NbrState) → is_exchanging s ≡ true → at_most nbs_2way s ≡ true
exchanging_side nbs_exchange h = refl
exchanging_side nbs_loading h = refl
exchanging_side nbs_down h = cc h
exchanging_side nbs_attempt h = cc h
exchanging_side nbs_init h = cc h
exchanging_side nbs_2way h = refl
exchanging_side nbs_exstart h = refl
exchanging_side nbs_full h = refl

-- What is moved to Full stays on its side of 2-Way.
side_kept :
    (p : Ptr) (st u : Store)
    → Later st u
    → at_most nbs_2way (u.nbr p).n_state ≡ at_most nbs_2way (st.nbr p).n_state
side_kept p st u l = go (l.states p)
  where
    go :
        ((u.nbr p).n_state ≡ (st.nbr p).n_state)
          ⊎ (is_exchanging (st.nbr p).n_state ≡ true) × ((u.nbr p).n_state ≡ nbs_full)
        → at_most nbs_2way (u.nbr p).n_state ≡ at_most nbs_2way (st.nbr p).n_state
    go (inl e) = ap (at_most nbs_2way) e
    go (inr (k, e)) = rw e (sym (exchanging_side (st.nbr p).n_state k))

pub no_crossing :
    (s t : NbrState) → at_most nbs_2way t ≡ at_most nbs_2way s → crosses_2way s t ≡ false
no_crossing s t h = ground arith

-- A call of `nbr_fsm` on which the neighbor stays on its side of 2-Way ends with the advertisements.
pub quiet-EndsLater :
    (live : List Ptr) (n f : ℕ) (p : Ptr) (e : NbrEvent) (st : Store)
    → Loads live n (nbr_fsm f)
    → Good live (nbr_step p e st).0
    → loading (nbr_step p e st).0 live ≤ n
    → at_most nbs_2way ((nbr_step p e st).0.nbr p).n_state ≡ at_most nbs_2way (st.nbr p).n_state
    → EndsLater live (nbr_step p e st).0 (nbr_fsm (suc f) p e st)
unfolding nbr_fsm tell_interface
quiet-EndsLater live n f p e st loads g h side =
    let old = (st.nbr p).n_state in
    let after = nbr_step p e st in
    either-EndsLater live after.0 after.1 _ _
      (λ _.
        bind-EndsLater live after.0 _ _
          (nbr_originate-EndsLater live n (nbr_fsm f) old p after.0 loads g h)
          (λ u k l.
            rw (no_crossing old (u.nbr p).n_state (side_kept p after.0 u l ∙ side))
              (stays-EndsLater live u k)))
      (λ _. stays-EndsLater live after.0 g)

idle-EndsLater :
    (live : List Ptr) (f : ℕ) (q : Ptr) (e : NbrEvent) (st : Store)
    → Distinct live
    → mem_ptr q live ≡ true
    → Good live st
    → ((nbr_step q e st).0.nbr q).n_state ≡ (st.nbr q).n_state
    → (nbr_step q e st).1 ≡ false
    → EndsLater live st (nbr_fsm (suc f) q e st)
unfolding nbr_fsm
idle-EndsLater live f q e st d m g same quiet = (
  (nbr_step q e st).0,
  rw quiet refl,
  step-Good live q e st d m g,
  idle_moves live q e st m g same,
)

-- The calls out of flooding end: each makes one neighbor Full, or does nothing.
pub nbr_fsm-Loads :
    (live : List Ptr) (n f : ℕ) → Distinct live → suc n ≤ f → Loads live n (nbr_fsm f)
nbr_fsm-Loads live n zero d b q e st m g h k = absurd (omega (arith, b))
nbr_fsm-Loads live zero (suc f) d b q e st m g h k = elim (event_step q e st h) [
  | inl (x, full) ↦ absurd (omega (arith, k, member_loading q st live m x))
  | inr (same, quiet) ↦ idle-EndsLater live f q e st d m g same quiet
]
nbr_fsm-Loads live (suc n) (suc f) d b q e st m g h k = elim (event_step q e st h) [
  | inl (x, full) ↦
      (let moves = event_moves live q e st d m g x full in
        before-EndsLater live st (nbr_step q e st).0 _ moves.0 (
          quiet-EndsLater live n f q e st (nbr_fsm-Loads live n f d (omega (arith, b)))
            (step-Good live q e st d m g) (omega (arith, k, moves.1))
            (ap (at_most nbs_2way) full ∙ sym (exchanging_side (st.nbr q).n_state x))))
  | inr (same, quiet) ↦ idle-EndsLater live f q e st d m g same quiet
]
