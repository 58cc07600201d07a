-- ===== src/Queue/Shape.antt =====
-- THospf/Queue.cpp: the form of the tree. On the way to the nearest leaf `dist` counts the
-- elements, and that leaf lies to the right.
use ospfbasic.Prelude.{
  ℕ, zero, suc, ◌+◌, ◌^◌, ◌≡◌, ◌≤◌, refl, sym, subst, inl, inr, Bool, true, false, List, [], ◌∷◌,
  arith, ltb, Bool-cases,
}
use native.Mathlib.Nat.{pow-le-pow_right}
use ospfbasic.Queue.{
  Item, Tree, empty, node, dist, size, cmp_cost, settle, splice, combine, Side, to_left, to_right,
  settle_up, del_at, del,
}

-- The right child is the nearer one, and `dist` counts the elements on the way to it.
abbrev pub IsLeftist : Tree → Type 0
IsLeftist empty = Unit {0}
IsLeftist (node i d l r) = (dist r ≤ dist l) × (d ≡ suc (dist r)) × IsLeftist l × IsLeftist r

settle-IsLeftist : (i : Item) (l r : Tree) → IsLeftist l → IsLeftist r → IsLeftist (settle i l r)
unfolding settle
settle-IsLeftist i l empty h k = (omega arith, refl, h, tt)
settle-IsLeftist i empty (node j e m s) h k = (omega arith, refl, k, tt)
settle-IsLeftist i (node g d l r) (node j e m s) h k = elim (Bool-cases (ltb d e)) [
  | inl c ↦ rw c (ground arith, omega arith, k, h)
  | inr c ↦ rw c (ground arith, omega arith, h, k)
]

splice-IsLeftist : (f : ℕ) (x y : Tree) → IsLeftist x → IsLeftist y → IsLeftist (splice f x y)
unfolding splice
splice-IsLeftist zero x y h k = k
splice-IsLeftist (suc f) empty y h k = k
splice-IsLeftist (suc f) (node i d l r) empty h k = h
splice-IsLeftist (suc f) (node i d l r) (node j e m s) h k = elim (Bool-cases (cmp_cost j i)) [
  | inl c ↦ rw (c, splice) (settle-IsLeftist j m _ k.2 (splice-IsLeftist f s (node i d l r) k.3 h))
  | inr c ↦ rw (c, splice) (settle-IsLeftist i l _ h.2 (splice-IsLeftist f r (node j e m s) h.3 k))
]

-- `combine` keeps the form, and with it `add` and `rmhead`.
pub combine-IsLeftist : (a b : Tree) → IsLeftist a → IsLeftist b → IsLeftist (combine a b)
unfolding combine
combine-IsLeftist a empty h k = h
combine-IsLeftist empty (node j e m s) h k = k
combine-IsLeftist (node i d l r) (node j e m s) h k = elim (Bool-cases (cmp_cost j i)) [
  | inl c ↦ rw (c, combine) (settle-IsLeftist j m _ k.2 (splice-IsLeftist _ s (node i d l r) k.3 h))
  | inr c ↦ rw (c, combine) (settle-IsLeftist i l _ h.2 (splice-IsLeftist _ r (node j e m s) h.3 k))
]

-- Where `adjust` breaks off, `dist` is what it was, so that nothing above has to change.
abbrev Settled : ℕ → Tree × Bool → Type 0
Settled d r = IsLeftist r.0 × (r.1 ≡ false → dist r.0 ≡ d)

settle_up-Settled :
    (i : Item) (d : ℕ) (l r : Tree) (up : Bool)
    → (up ≡ false → (dist r ≤ dist l) × (d ≡ suc (dist r)))
    → IsLeftist l
    → IsLeftist r
    → Settled d (settle_up i d l r up)
unfolding settle_up
settle_up-Settled i d l r false h k m = (((h refl).0, (h refl).1, k, m), λ e. refl)
settle_up-Settled i d l r true h k m = (settle-IsLeftist i l r k m, λ e. ground arith)

del_at-Settled : (ss : List Side) (t : Tree) → IsLeftist t → Settled (dist t) (del_at ss t)
unfolding del_at
del_at-Settled ss empty h = (tt, λ e. refl)
del_at-Settled [] (node i d l r) h = (combine-IsLeftist r l h.3 h.2, λ e. cc e)
del_at-Settled (to_left ∷ ss) (node i d l r) h =
    let rec = del_at-Settled ss l h.2 in
    settle_up-Settled i d (del_at ss l).0 r (del_at ss l).1
      (λ e. (omega (arith, h.0, rec.1 e), h.1)) rec.0 h.3
del_at-Settled (to_right ∷ ss) (node i d l r) h =
    let rec = del_at-Settled ss r h.3 in
    settle_up-Settled i d l (del_at ss r).0 (del_at ss r).1
      (λ e. (omega (arith, h.0, rec.1 e), omega (arith, h.1, rec.1 e))) h.2 rec.0

-- `del` keeps the form of the whole tree, though `adjust` may break off before the root.
pub del-IsLeftist : (ss : List Side) (t : Tree) → IsLeftist t → IsLeftist (del ss t)
unfolding del
del-IsLeftist ss t h = (del_at-Settled ss t h).0

pow_le : (a b : ℕ) → a ≤ b → 2 ^ a ≤ 2 ^ b
pow_le a b h = pow-le-pow_right (omega arith) h

-- In a tree where `dist` counts the elements on the way to the nearest leaf, and that leaf lies to
-- the right, 2 to the power of `dist` is at most one more than the number of elements.
pub dist-fits : (t : Tree) → IsLeftist t → 2 ^ dist t ≤ suc (size t)
unfolding size
dist-fits empty h = omega arith
dist-fits (node i d l r) h =
    let m = pow_le (dist r) (dist l) h.0 in
    subst (λ e. 2 ^ e ≤ suc (suc (size l + size r))) (sym h.1)
      (omega (arith, m, dist-fits l h.2, dist-fits r h.3))
