-- ===== src/Aging/Links.antt =====
-- Lists that are linked in both directions: the element before another one.
use ospfbasic.Prelude.{
  ℕ, ◌≡◌, refl, sym, ap, subst, ◌∙◌, inl, inr, ◌⊎◌, true, false, List, [], ◌∷◌, Option, none, some,
  arith, ◌==◌, if◌then◌else◌, Bool-cases, Option-cases, ==_iff,
}
use ospfbasic.Router.State.{Ptr}
use ospfbasic.Router.Actions.{mem_ptr, erase_ptr}
use ospfbasic.Router.NeighborFsm.Counters.{Distinct}
use ospfbasic.Pending.{update, points_to}
use ospfbasic.Pending.Chain.{Chain, before, Chain-erase}
use ospfbasic.Pending.Refines.{before-some}
use ospfbasic.Aging.{assign_at, assign_head}

-- The element that an element of a chain points to is in the chain.
pub next_mem :
    (next : Ptr → Option Ptr) (h : Option Ptr) (p f : Ptr) (ps : List Ptr)
    → Chain next h ps
    → mem_ptr p ps ≡ true
    → next p ≡ some f
    → mem_ptr f ps ≡ true
unfolding mem_ptr
next_mem next h p f [] c m e = cc m
next_mem next h p f (q ∷ []) c m e = let same : q ≡ p = ground (arith, m) in cc (e, same, c.1)
next_mem next h p f (q ∷ r ∷ rs) c m e = elim (Bool-cases (q == p)) [
  | inl k ↦ let same : q ≡ p = ground (arith, k) in ground (arith, e, same, c.1.0)
  | inr k ↦
      let later = next_mem next (next q) p f (r ∷ rs) c.1 (ground (arith, m, k)) e in
      ground (arith, later)
]

-- The element before another one is in the list.
pub front_mem : (p b : Ptr) (ps : List Ptr) → before none p ps ≡ some b → mem_ptr b ps ≡ true
unfolding mem_ptr before
front_mem p b [] e = ground (arith, e)
front_mem p b (q ∷ qs) e = ground (arith, e, inside q qs)
  where
    inside : (q : Ptr) (qs : List Ptr) → before (some q) p qs ≡ some b → mem_ptr b (q ∷ qs) ≡ true
    inside q [] e = ground (arith, e)
    inside q (r ∷ rs) e = ground (arith, e, inside r rs)

-- The element before one behind the first does not depend on what stands before the list.
pub before_cons :
    (prev : Option Ptr) (q h : Ptr) (hs : List Ptr)
    → (h == q) ≡ false
    → before prev q (h ∷ hs) ≡ before none q (h ∷ hs)
unfolding before
before_cons prev q h hs k = rw k refl

-- Where one element is taken out, the element behind it gets the one before it.
pub before-erase :
    (next : Ptr → Option Ptr) (h prev : Option Ptr) (p q : Ptr) (ps : List Ptr)
    → Chain next h ps
    → Distinct ps
    → mem_ptr p ps ≡ true
    → mem_ptr q ps ≡ true
    → (q == p) ≡ false
    → before prev q (erase_ptr p ps)
      ≡ (if points_to (next p) q then before prev p ps else before prev q ps)
unfolding mem_ptr erase_ptr before
before-erase next h prev p q [] c d m mq a = cc m
before-erase next h prev p q (r ∷ rs) c d m mq a = elim (Bool-cases (r == p)) [
  | inl k ↦ first rs ((==_iff r p).0 k) c.1 mq
  | inr k ↦
      rest (Bool-cases (r == q)) k
        (λ n. before-erase next (next r) (some r) p q rs c.1 d.1 (ground (arith, m, k)) n a)
]
  where
    first :
        (rs : List Ptr)
        → r ≡ p
        → Chain next (next r) rs
        → mem_ptr q (r ∷ rs) ≡ true
        → before prev q (erase_ptr p (r ∷ rs))
          ≡ (if points_to (next p) q then before prev p (r ∷ rs) else before prev q (r ∷ rs))
    first [] e c mq = ground (arith, e, mq, a)
    first (s ∷ ss) e c mq = elim (Bool-cases (s == q)) [
      | inl k ↦ rw (sym e, c.0) (ground (arith, k))
      | inr k ↦ rw (sym e, c.0) (ground (arith, k, a, e))
    ]

    after_first : points_to (next p) q ≡ true → (r == p) ≡ false → mem_ptr q rs ≡ true
    after_first t k = elim (Option-cases (next p)) [
      | inl e ↦ cc (e, t)
      | inr (f, e) ↦
          let same : f ≡ q = ground (arith, t, e) in
          next_mem next (next r) p q rs c.1 (ground (arith, m, k)) (e ∙ ap some same)
    ]

    rest :
        ((r == q) ≡ true) ⊎ ((r == q) ≡ false)
        → (r == p) ≡ false
        → (mem_ptr q rs ≡ true
            → before (some r) q (erase_ptr p rs)
              ≡ (if points_to (next p) q then before (some r) p rs else before (some r) q rs))
        → before prev q (erase_ptr p (r ∷ rs))
          ≡ (if points_to (next p) q then before prev p (r ∷ rs) else before prev q (r ∷ rs))
    rest (inl j) k ih = elim (Bool-cases (points_to (next p) q)) [
      | inl t ↦
          let same : r ≡ q = ground (arith, j) in
          absurd (ground (arith, d.0, same, after_first t k))
      | inr t ↦ rw (k, t, j) refl
    ]
    rest (inr j) k ih = rw (k, j) (ih (ground (arith, mq, j)))

-- An element is taken out of a chain at the element before it, or at the head.
pub Chain-cut :
    (next : Ptr → Option Ptr) (bins : ℕ → Option Ptr) (bin : ℕ) (p : Ptr) (ps : List Ptr)
    → Chain next (bins bin) ps
    → Distinct ps
    → mem_ptr p ps ≡ true
    → Chain
        (assign_at (before none p ps) (next p) next)
        (assign_head (before none p ps) bin (next p) bins bin)
        (erase_ptr p ps)
unfolding mem_ptr before erase_ptr
Chain-cut next bins bin p [] c d m = cc m
Chain-cut next bins bin p (q ∷ qs) c d m = elim (Bool-cases (q == p)) [
  | inl k ↦ rw k (subst (λ h. Chain next h qs) (ahead ((==_iff q p).0 k)) c.1)
  | inr k ↦
      (let (b, e) = before-some p q qs in
        let w : before none p (q ∷ qs) ≡ some b = rw k e in
        subst
          (λ w.
            Chain (assign_at w (next p) next) (assign_head w bin (next p) bins bin)
              (erase_ptr p (q ∷ qs)))
          (sym w) (rw k (c.0, Chain-erase next p q b qs d (ground (arith, m, k)) c.1 e)))
]
  where
    ahead : q ≡ p → next q ≡ update bins bin (next p) bin
    ahead e = unfold update in ground (arith, e)
