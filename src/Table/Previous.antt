-- ===== src/Table/Previous.antt =====
-- THospf/Table.cpp: `previous` against the items of the tree in order.
use ospfbasic.Prelude.{
  ◌+◌, ◌-◌, ◌^◌, ◌≡◌, ◌<◌, refl, sym, ◌∙◌, inl, inr, ◌⊎◌, List, [], ◌∷◌, ◌++◌, Option, none, some,
  arith, ◌==◌, Bool-cases, All, ℤ,
}
use ospfbasic.Table.{Key, TblItem, Tree, leaf, node, way, to_left, here, to_right, floor, previous}
use ospfbasic.Table.Order.{
  Before, Same, Sorted, Sorted-split, way-cases, way-left, way-right, way-here, Before-trans,
  All-map,
}
use ospfbasic.Table.Shifts.{elements}

-- The keys are words of 32 bits.
abbrev pub Fits : TblItem → Type 0
Fits i = (i.key.index1 < 2 ^ 32) × (i.key.index2 < 2 ^ 32)

-- The reference: the last item in front of a key, and the last one not behind it.
unfoldable pub last_below : Key → List TblItem → Option TblItem → Option TblItem
last_below k [] d = d
last_below k (x ∷ xs) d = elim (way k x.key) [ to_right ↦ last_below k xs (some x) | _ ↦ d ]

unfoldable last_upto : Key → List TblItem → Option TblItem → Option TblItem
last_upto k [] d = d
last_upto k (x ∷ xs) d = elim (way k x.key) [
  | to_left ↦ d
  | here ↦ some x
  | to_right ↦ last_upto k xs (some x)
]

module _ (k : Key) (j : TblItem) where
  upto-right :
      (xs ys : List TblItem) (d : Option TblItem)
      → All (λ x. Before x.key j.key) xs
      → Before j.key k
      → last_upto k (xs ++ j ∷ ys) d ≡ last_upto k ys (some j)
  unfolding last_upto
  upto-right [] ys d a b = rw (way-right k j.key b, last_upto) refl
  upto-right (x ∷ xs) ys d a b =
      rw (way-right k x.key (Before-trans x.key j.key k a.0 b), last_upto)
        (upto-right xs ys (some x) a.1 b)

  upto-here :
      (xs ys : List TblItem) (d : Option TblItem)
      → All (λ x. Before x.key j.key) xs
      → Same k j.key
      → last_upto k (xs ++ j ∷ ys) d ≡ some j
  unfolding last_upto
  upto-here [] ys d a b = rw (way-here k j.key b, last_upto) refl
  upto-here (x ∷ xs) ys d a b =
      rw (way-right k x.key (ground arith), last_upto) (upto-here xs ys (some x) a.1 b)

  upto-left :
      (xs ys : List TblItem) (d : Option TblItem)
      → Before k j.key
      → last_upto k (xs ++ j ∷ ys) d ≡ last_upto k xs d
  unfolding last_upto
  upto-left [] ys d b = rw (way-left k j.key b, last_upto) refl
  upto-left (x ∷ xs) ys d b = elim (way-cases k x.key) [
    | inl (e, h) ↦ rw (e, last_upto) refl
    | inr (inl (e, h)) ↦ rw (e, last_upto) refl
    | inr (inr (e, h)) ↦ rw (e, last_upto) (upto-left xs ys (some x) b)
  ]

-- The loop's tests are the ways of a search.
floor-node :
    (k : Key) (j : TblItem) (b : ℤ) (l r : Tree) (d : Option TblItem)
    → floor k (node j b l r) d
      ≡ elim (way k j.key) [ to_left ↦ floor k l d | here ↦ some j | to_right ↦ floor k r (some j) ]
unfolding floor way
floor-node k j b l r d = ground arith

floor-elements :
    (k : Key) (t : Tree) (d : Option TblItem)
    → Sorted (elements t)
    → floor k t d ≡ last_upto k (elements t) d
unfolding elements
floor-elements k leaf d s = unfold floor last_upto in refl
floor-elements k (node j b l r) d s =
    let p = Sorted-split (elements l) j (elements r) s in
    floor-node k j b l r d ∙ elim (way-cases k j.key) [
      | inl (e, h) ↦
          rw e (floor-elements k l d p.0 ∙ sym (upto-left k j (elements l) (elements r) d h))
      | inr (inl (e, h)) ↦ rw e (sym (upto-here k j (elements l) (elements r) d p.1 h))
      | inr (inr (e, h)) ↦
          rw e (
            floor-elements k r (some j) p.3
            ∙ sym (upto-right k j (elements l) (elements r) d p.1 h))
    ]

-- `m` is the key in front of `k`.
abbrev IsPred : Key → Key → Type 0
IsPred m k =
    (m.index1 ≡ k.index1) × (m.index2 + 1 ≡ k.index2)
    ⊎ (m.index1 + 1 ≡ k.index1) × (k.index2 ≡ 0) × (m.index2 ≡ 2 ^ 32 - 1)

-- Items that are not in front of the key change nothing, as those behind them are not either.
pub below-stop :
    (k : Key) (x : TblItem) (xs : List TblItem) (d : Option TblItem)
    → ¬ Before x.key k
    → last_below k (x ∷ xs) d ≡ d
unfolding last_below
below-stop k x xs d h = elim (way-cases k x.key) [
  | inl (e, b) ↦ rw (e, last_below) refl
  | inr (inl (e, b)) ↦ rw (e, last_below) refl
  | inr (inr (e, b)) ↦ absurd (h b)
]

behind_pred :
    (m k : Key) (xs : List TblItem) (d : Option TblItem)
    → IsPred m k
    → All Fits xs
    → All (λ x. Before m x.key) xs
    → last_below k xs d ≡ d
behind_pred m k [] d p f s = unfold last_below in refl
behind_pred m k (x ∷ xs) d p f s = below-stop k x xs d (ground arith)

below_upto :
    (m k : Key) (xs : List TblItem) (d : Option TblItem)
    → IsPred m k
    → All Fits xs
    → Sorted xs
    → last_upto m xs d ≡ last_below k xs d
unfolding last_upto last_below
below_upto m k [] d p f s = refl
below_upto m k (x ∷ xs) d p f s = elim (way-cases m x.key) [
  | inl (e, h) ↦ rw (e, last_upto) (sym (below-stop k x xs d (ground arith)))
  | inr (inl (e, h)) ↦
      rw (e, last_upto, way-right k x.key (ground arith), last_below)
        (sym (
          behind_pred m k xs (some x) p f.1
            (All-map (λ y. Before x.key y.key) (λ y. Before m y.key) xs (λ y b. ground arith) s.0)))
  | inr (inr (e, h)) ↦
      rw (e, last_upto, way-right k x.key (ground arith), last_below)
        (below_upto m k xs (some x) p f.1 s.1)
]

first_key :
    (k : Key) (xs : List TblItem) (d : Option TblItem)
    → (k.index1 ≡ 0)
    → (k.index2 ≡ 0)
    → last_below k xs d ≡ d
first_key k [] d a b = unfold last_below in refl
first_key k (x ∷ xs) d a b = below-stop k x xs d (ground arith)

-- `previous` finds the last item in front of the key.
pub previous-elements :
    (k : Key) (t : Tree)
    → All Fits (elements t)
    → Sorted (elements t)
    → previous k t ≡ last_below k (elements t) none
unfolding previous
previous-elements k t f s = elim (Bool-cases (k.index2 == 0)) [
  | inl z ↦ elim (Bool-cases (k.index1 == 0)) [
    | inl y ↦ rw (y, z) (sym (first_key k (elements t) none (ground arith) (ground arith)))
    | inr y ↦
        let m : Key = record { index1 = k.index1 - 1; index2 = 2 ^ 32 - 1 } in
        rw (y, z) (floor-elements m t none s ∙ below_upto m k (elements t) none (ground arith) f s)
  ]
  | inr z ↦
      let m : Key = record { index1 = k.index1; index2 = k.index2 - 1 } in
      elim (Bool-cases (k.index1 == 0)) [
        | inl y ↦
            rw (y, z)
              (floor-elements m t none s ∙ below_upto m k (elements t) none (ground arith) f s)
        | inr y ↦
            rw (y, z)
              (floor-elements m t none s ∙ below_upto m k (elements t) none (ground arith) f s)
      ]
]
