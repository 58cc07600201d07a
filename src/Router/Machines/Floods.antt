-- ===== src/Router/Machines/Floods.antt =====
-- THospf/ospfUpdate.cpp: the flooding of this router's own advertisements, which can answer the last
-- request to a neighbor: it ends, and keeps the counters.
use ospfbasic.Prelude.{
  ℕ, ◌≡◌, ◌≤◌, refl, sym, ◌∙◌, inl, inr, ◌⊎◌, Bool, true, false, not, List, [], ◌∷◌, Option, none,
  some, arith, ◌==◌, Bool-cases, All, if◌then◌else◌, int_ltb, ℤ, ltb, ap, ◌&&◌, ◌*◌,
}
use ospfbasic.Fsm.Neighbor.{
  nbs_exchange, nbs_loading, nbs_full, at_most, NbrEvent, nbe_loadingdone, nbe_exchangedone,
}
use ospfbasic.Router.State.{
  Ptr, start, second, stop, Neighbor, Store, Output, set_nbr, emit, send_dd, add_to_retranslist,
}
use ospfbasic.Router.Actions.{mem_ptr, erase_ptr, is_empty, same_nbr_state, ifc_of}
use ospfbasic.Router.NeighborFsm.Balanced.Outcomes.{same_eq}
use ospfbasic.Router.NeighborFsm.Balanced.{is_exchanging, dbx_busy}
use ospfbasic.Router.NeighborFsm.Counters.{count}
use ospfbasic.Router.Machines.{
  NbrCall, ◌>>=◌, send_next, rmreq, flood_neighbor, flood_neighbors, flood, originate, originate_if,
}
use ospfbasic.Router.Machines.Apart.{Good, Apart-Good, emit-Apart}
use ospfbasic.Router.Machines.Written.{Alike, set_nbr-Good}

-- No neighbor's state changes but from Exchange or Loading to Full.
pub record Later (st u : Store) : Type 0 where
  pub states :
      (q : Ptr)
      → ((u.nbr q).n_state ≡ (st.nbr q).n_state)
        ⊎ (is_exchanging (st.nbr q).n_state ≡ true) × ((u.nbr q).n_state ≡ nbs_full)

pub Later-refl : (st : Store) → Later st st
Later-refl st = record { states = λ q. inl refl }

pub Later-trans : {a b c : Store} → Later a b → Later b c → Later a c
Later-trans {a} {b} {c} f g = record { states = λ q. chain q (f.states q) (g.states q) }
  where
    chain :
        (q : Ptr)
        → ((b.nbr q).n_state ≡ (a.nbr q).n_state)
          ⊎ (is_exchanging (a.nbr q).n_state ≡ true) × ((b.nbr q).n_state ≡ nbs_full)
        → ((c.nbr q).n_state ≡ (b.nbr q).n_state)
          ⊎ (is_exchanging (b.nbr q).n_state ≡ true) × ((c.nbr q).n_state ≡ nbs_full)
        → ((c.nbr q).n_state ≡ (a.nbr q).n_state)
          ⊎ (is_exchanging (a.nbr q).n_state ≡ true) × ((c.nbr q).n_state ≡ nbs_full)
    chain q (inl e) (inl h) = inl (h ∙ e)
    chain q (inl e) (inr (k, h)) = inr (ap is_exchanging (sym e) ∙ k, h)
    chain q (inr (k, e)) (inl h) = inr (k, h ∙ e)
    chain q (inr (k, e)) (inr (l, h)) = inr (k, h)

abbrev pub loading : Store → List Ptr → ℕ
loading st live = count dbx_busy st live

-- What flooding calls `nbr_fsm` with: the last request of a neighbor in Loading is answered, or that
-- of one to which the last description packet is sent then.
abbrev pub Fires : NbrEvent → Neighbor → Type 0
Fires e n =
    (e ≡ nbe_loadingdone) × (n.n_state ≡ nbs_loading)
    ⊎ (e ≡ nbe_exchangedone) × (is_empty n.reqlist ≡ true)

pub loading-Later : (st u : Store) (ps : List Ptr) → Later st u → loading u ps ≤ loading st ps
unfolding count
loading-Later st u [] f = omega arith
loading-Later st u (q ∷ qs) f = go (f.states q) (loading-Later st u qs f)
  where
    go :
        ((u.nbr q).n_state ≡ (st.nbr q).n_state)
          ⊎ (is_exchanging (st.nbr q).n_state ≡ true) × ((u.nbr q).n_state ≡ nbs_full)
        → loading u qs ≤ loading st qs
        → loading u (q ∷ qs) ≤ loading st (q ∷ qs)
    go (inl e) h = rw e (ground (arith, h))
    go (inr (k, e)) h = rw (k, e) (ground (arith, h))

-- The call returns, and leaves a good store with neighbors moved to Full at most.
abbrev pub EndsLater : List Ptr → Store → Option Store → Type 0
EndsLater live st r = (u : Store) × (r ≡ some u) × Good live u × Later st u

pub bind-EndsLater :
    (live : List Ptr) (st : Store) (r : Option Store) (f : Store → Option Store)
    → EndsLater live st r
    → ((u : Store) → Good live u → Later st u → EndsLater live u (f u))
    → EndsLater live st (r >>= f)
bind-EndsLater live st r f (u, e, g, l) h =
    let (v, e', g', l') = h u g l in rw e (v, e', g', Later-trans l l')

pub either-EndsLater :
    (live : List Ptr) (st : Store) (b : Bool) (x y : Option Store)
    → (b ≡ true → EndsLater live st x)
    → (b ≡ false → EndsLater live st y)
    → EndsLater live st (if b then x else y)
either-EndsLater live st true x y h k = h refl
either-EndsLater live st false x y h k = k refl

pub stays-EndsLater : (live : List Ptr) (st : Store) → Good live st → EndsLater live st (some st)
stays-EndsLater live st g = (st, refl, g, Later-refl st)

pub emitted-EndsLater :
    (live : List Ptr) (o : Output) (st : Store)
    → Good live st
    → EndsLater live st (some (emit o st))
emitted-EndsLater live o st g =
    (emit o st, refl, Apart-Good live (emit-Apart o st) g, record { states = λ q. inl refl })

set_nbr-Later :
    (p : Ptr) (n : Neighbor) (st : Store)
    → n.n_state ≡ (st.nbr p).n_state
    → Later st (set_nbr p n st)
unfolding set_nbr
set_nbr-Later p n st h = record {
  states = λ q. elim (Bool-cases (q == p)) [
    | inl e ↦ let same : q ≡ p = ground (arith, e) in rw e (inl (rw same h))
    | inr e ↦ rw e (inl refl)
  ];
}

set_nbr_state : (p : Ptr) (n : Neighbor) (st : Store) → ((set_nbr p n st).nbr p).n_state ≡ n.n_state
unfolding set_nbr
set_nbr_state p n st = ground arith

set_nbr_left :
    (p : Ptr) (n : Neighbor) (st : Store)
    → is_empty ((set_nbr p n st).nbr p).reqlist ≡ is_empty n.reqlist
unfolding set_nbr
set_nbr_left p n st = ground arith

-- A store before a call can be changed where the call's result is compared with it.
pub before-EndsLater :
    (live : List Ptr) (st v : Store) (r : Option Store)
    → Later st v
    → EndsLater live v r
    → EndsLater live st r
before-EndsLater live st v r f (u, e, g, l) = (u, e, g, Later-trans f l)

module _ (live : List Ptr) (n : ℕ) (call : NbrCall)
    (loads : (q : Ptr) (e : NbrEvent) (st : Store)
      → mem_ptr q live ≡ true
      → Good live st
      → Fires e (st.nbr q)
      → loading st live ≤ n
      → EndsLater live st (call q e st)) where
  send_next-EndsLater :
      (p : Ptr) (st : Store)
      → mem_ptr p live ≡ true
      → Good live st
      → is_empty (st.nbr p).reqlist ≡ true
      → loading st live ≤ n
      → EndsLater live st (send_next call p st)
  unfolding send_next
  send_next-EndsLater p st m g r h =
      let sent = emit (send_dd p) st in
      let g1 = Apart-Good live (emit-Apart (send_dd p) st) g in
      either-EndsLater live st (not (ltb (st.nbr p).n_id st.my_id) && sent.dd_ends sent.out) _ _
        (λ _.
          bind-EndsLater live st _ _
            (before-EndsLater live st sent _ (record { states = λ q. inl refl })
              (loads p nbe_exchangedone sent m g1 (inr (refl, r))
                (omega (arith, h, loading-Later st sent live (record { states = λ q. inl refl })))))
            (λ u k l.
              let hold = (ifc_of p st).if_deadinterval * second in
              let held : Neighbor = record (u.nbr p) { holdt = start hold (u.nbr p).holdt } in
              (
                _,
                refl,
                set_nbr-Good live p held u
                    record {
                      local_same = refl;
                      remote_same = refl;
                      dbx_same = refl;
                      called = λ k. k;
                    }
                    k,
                set_nbr-Later p held u refl,
              )))
        (λ _. emitted-EndsLater live (send_dd p) st g)

  rmreq-EndsLater :
      (p request : Ptr) (st : Store)
      → mem_ptr p live ≡ true
      → Good live st
      → loading st live ≤ n
      → EndsLater live st (rmreq call p request st)
  unfolding rmreq
  rmreq-EndsLater p request st m g h =
      let n1 : Neighbor = record (st.nbr p) { reqlist = erase_ptr request (st.nbr p).reqlist } in
      let n2 : Neighbor = record n1 { lsrt = stop (st.nbr p).lsrt } in
      let alike1 : Alike n1 (st.nbr p) = record {
        local_same = refl;
        remote_same = refl;
        dbx_same = refl;
        called = λ k. k;
      } in
      let alike2 : Alike n2 (st.nbr p) = record {
        local_same = refl;
        remote_same = refl;
        dbx_same = refl;
        called = λ k. k;
      } in
      let g1 = set_nbr-Good live p n1 st alike1 g in
      let g2 = set_nbr-Good live p n2 st alike2 g in
      let l2 = set_nbr-Later p n2 st refl in
      either-EndsLater live st (not (is_empty (erase_ptr request (st.nbr p).reqlist))) _ _
        (λ _. (_, refl, g1, set_nbr-Later p n1 st refl))
        (λ done.
          let left : is_empty (erase_ptr request (st.nbr p).reqlist) ≡ true =
            ground (arith, done) in
          let fewer : loading (set_nbr p n2 st) live ≤ n =
            omega (arith, h, loading-Later st (set_nbr p n2 st) live l2) in
          before-EndsLater live st (set_nbr p n2 st) _ l2 (
            either-EndsLater live _ (same_nbr_state (st.nbr p).n_state nbs_loading) _ _
              (λ e.
                loads p nbe_loadingdone (set_nbr p n2 st) m g2
                  (inl (refl, set_nbr_state p n2 st ∙ sym (same_eq _ _ e))) fewer)
              (λ _.
                send_next-EndsLater p (set_nbr p n2 st) m g2 (set_nbr_left p n2 st ∙ left) fewer)))

  flood_neighbor-EndsLater :
      (search : Ptr → Option (Ptr × ℤ)) (p : Ptr) (st : Store)
      → mem_ptr p live ≡ true
      → Good live st
      → loading st live ≤ n
      → EndsLater live st (flood_neighbor call search p st)
  unfolding flood_neighbor
  flood_neighbor-EndsLater search p st m g h =
      either-EndsLater live st (not (at_most nbs_exchange (st.nbr p).n_state)) _ _
        (λ _. stays-EndsLater live st g) (λ _. answered (search p))
    where
      answered :
          (o : Option (Ptr × ℤ))
          → EndsLater live st (elim o as (λ _. Option Store) [
            | none ↦ some (emit (add_to_retranslist p) st)
            | some (request, cmp) ↦
                (if int_ltb cmp 0 then some st else rmreq call p request st)
                >>= (λ st'. some (if int_ltb cmp 1 then st' else emit (add_to_retranslist p) st'))
          ])
      answered none = emitted-EndsLater live (add_to_retranslist p) st g
      answered (some (request, cmp)) =
          bind-EndsLater live st _ _
            (either-EndsLater live st (int_ltb cmp 0) _ _ (λ _. stays-EndsLater live st g)
              (λ _. rmreq-EndsLater p request st m g h))
            (λ u k l. split (int_ltb cmp 1) u k)
        where
          split :
              (b : Bool) (u : Store)
              → Good live u
              → EndsLater live u (some (if b then u else emit (add_to_retranslist p) u))
          split true u k = stays-EndsLater live u k
          split false u k = emitted-EndsLater live (add_to_retranslist p) u k

  flood_neighbors-EndsLater :
      (search : Ptr → Option (Ptr × ℤ)) (ps : List Ptr) (st : Store)
      → All (λ p. mem_ptr p live ≡ true) ps
      → Good live st
      → loading st live ≤ n
      → EndsLater live st (flood_neighbors call search ps st)
  unfolding flood_neighbors
  flood_neighbors-EndsLater search [] st ms g h = stays-EndsLater live st g
  flood_neighbors-EndsLater search (p ∷ ps) st ms g h =
      bind-EndsLater live st _ _ (flood_neighbor-EndsLater search p st ms.0 g h) (λ u k l.
        flood_neighbors-EndsLater search ps u ms.1 k (omega (arith, h, loading-Later st u live l)))

  flood-EndsLater :
      (search : Ptr → Option (Ptr × ℤ)) (as_left : List Ptr) (st : Store)
      → Good live st
      → loading st live ≤ n
      → EndsLater live st (flood call search as_left st)
  unfolding flood
  flood-EndsLater search [] st g h = stays-EndsLater live st g
  flood-EndsLater search (a ∷ rest) st g h =
      bind-EndsLater live st _ _
        (flood_neighbors-EndsLater search (st.ifc a).if_Neighborlist st (g.housed a) g h)
        (λ u k l. flood-EndsLater search rest u k (omega (arith, h, loading-Later st u live l)))

  pub originate-EndsLater :
      (o : Output) (st : Store)
      → Good live st
      → loading st live ≤ n
      → EndsLater live st (originate call o st)
  unfolding originate
  originate-EndsLater o st g h = answered (st.lsa_answers (o ∷ st.out))
    where
      answered :
          (r : Option (Ptr → Option (Ptr × ℤ)))
          → EndsLater live st (elim r as (λ _. Option Store) [
            | none ↦ some (emit o st)
            | some search ↦ flood call search st.interfaces (emit o st)
          ])
      answered none = emitted-EndsLater live o st g
      answered (some search) =
          before-EndsLater live st (emit o st) _ (record { states = λ q. inl refl })
            (flood-EndsLater search st.interfaces (emit o st) (Apart-Good live (emit-Apart o st) g)
              (omega
                (arith, h, loading-Later st (emit o st) live (record { states = λ q. inl refl }))))

  pub originate_if-EndsLater :
      (b : Bool) (o : Output) (st : Store)
      → Good live st
      → loading st live ≤ n
      → EndsLater live st (originate_if b call o st)
  originate_if-EndsLater true o st g h = originate-EndsLater o st g h
  originate_if-EndsLater false o st g h = stays-EndsLater live st g
