-- ===== src/Table/Above.antt =====
-- THospf/Table.cpp: the first item behind a key, and the keys that `seek` looks for it with.
use ospfbasic.Prelude.{
  ◌+◌, ◌-◌, ◌%◌, ◌^◌, ◌≡◌, ◌<◌, refl, sym, ap, ◌∙◌, inl, inr, ◌⊎◌, List, [], ◌∷◌, ◌++◌, Option,
  none, some, arith, All, ◌==◌, Bool-cases,
}
use ospfbasic.Table.{Key, TblItem, way, to_left}
use ospfbasic.Table.Order.{Before, Sorted, Sorted-split, lookup, way-left, way-cases, All-map}
use ospfbasic.Table.Items.{TblSearch, sll_of, next_key}
use ospfbasic.Table.Chain.{cut, sll_of-here}
use ospfbasic.Table.Cuts.{FoundAt, found_at, lookup-FoundAt}

-- The reference: the first item behind a key.
unfoldable pub first_above : Key → List TblItem → Option TblItem
first_above k [] = none
first_above k (x ∷ xs) = elim (way k x.key) [ to_left ↦ some x | _ ↦ first_above k xs ]

unfoldable pub head_of : List TblItem → Option TblItem
head_of [] = none
head_of (x ∷ xs) = some x

pub both {ℓ κ μ} :
    {P : TblItem → Type ℓ} {Q : TblItem → Type κ} {R : TblItem → Type μ}
    → ((x : TblItem) → P x → Q x → R x)
    → (xs : List TblItem) → All P xs
    → All Q xs
    → All R xs
both f [] a b = tt
both f (x ∷ xs) a b = (f x a.0 b.0, both f xs a.1 b.1)

-- The items up to the key are passed over, and one behind it is the first.
pub above-skip :
    (k : Key) (pre post : List TblItem)
    → All (λ x. ¬ Before k x.key) pre
    → first_above k (pre ++ post) ≡ first_above k post
unfolding first_above
above-skip k [] post a = refl
above-skip k (x ∷ xs) post a = elim (way-cases k x.key) [
  | inl (e, h) ↦ absurd (a.0 h)
  | inr (inl (e, h)) ↦ rw (e, first_above) (above-skip k xs post a.1)
  | inr (inr (e, h)) ↦ rw (e, first_above) (above-skip k xs post a.1)
]

pub above-head :
    (k : Key) (post : List TblItem)
    → All (λ x. Before k x.key) post
    → first_above k post ≡ head_of post
unfolding first_above head_of
above-head k [] b = refl
above-head k (y ∷ ys) b = rw (way-left k y.key b.0, first_above) refl

-- The state of a search after an item.
abbrev pub IsAt : Key → TblSearch → Type 0
IsAt k s = (s.c_key ≡ k) × ((c : TblItem) × ((s.current ≡ some c) × (c.key ≡ k)))

-- A search that the table has not left behind goes on from its item.
pub synced_next :
    (k : Key) (c : TblItem) (xs : List TblItem)
    → Sorted xs
    → (lookup k xs ≡ some c)
    → head_of (sll_of k xs) ≡ first_above k xs
synced_next k c xs s e = go xs (lookup-FoundAt k c xs s e) s
  where
    go : (xs : List TblItem) → FoundAt k c xs → Sorted xs → head_of (sll_of k xs) ≡ first_above k xs
    go xs (found_at pre ys h cut) s =
        let parts = Sorted-split pre c ys s in
        ap head_of (sll_of-here k pre c ys cut.0 h)
        ∙ sym (
            above-skip k pre (c ∷ ys) (
              All-map (λ x. Before x.key k) (λ x. ¬ Before k x.key) pre (λ x b a. ground arith)
                cut.0)
            ∙ above-skip k (c ∷ []) ys ((λ b. ground arith), tt)
            ∙ above-head k ys (
                All-map (λ y. Before c.key y.key) (λ y. Before k y.key) ys (λ y b. ground arith)
                  parts.2))

-- The key behind the search's own, where there is one.
pub next_key-cases :
    (k : Key)
    → (k.index2 < 2 ^ 32)
    → ((k.index2 ≡ 2 ^ 32 - 1)
        × ((next_key k).index1 ≡ (k.index1 + 1) % 2 ^ 32)
        × ((next_key k).index2 ≡ 0))
      ⊎ (((next_key k).index1 ≡ k.index1) × ((next_key k).index2 ≡ k.index2 + 1))
unfolding next_key
next_key-cases k w = elim (Bool-cases ((k.index2 + 1) % 2 ^ 32 == 0)) [
  | inl e ↦ rw e (inl (ground arith, refl, refl))
  | inr e ↦ rw e (inr (refl, ground arith))
]

abbrev pub IsLast : Key → Type 0
IsLast k = (k.index1 ≡ 2 ^ 32 - 1) × (k.index2 ≡ 2 ^ 32 - 1)

pub below_next :
    (k n : Key)
    → (k.index1 < 2 ^ 32) × (k.index2 < 2 ^ 32)
    → (n.index2 < 2 ^ 32)
    → ¬ IsLast k
    → Before n (next_key k)
    → ¬ Before k n
below_next k n f w m b a = elim (next_key-cases k f.1) [
  | inl e ↦ ground arith
  | inr e ↦ ground arith
]

pub from_next :
    (k n : Key)
    → (k.index1 < 2 ^ 32) × (k.index2 < 2 ^ 32)
    → (n.index2 < 2 ^ 32)
    → ¬ IsLast k
    → ¬ Before n (next_key k)
    → Before k n
from_next k n f w m b = elim (way-cases k n) [
  | inl (e, h) ↦ h
  | inr (inl (e, h)) ↦
      absurd (b (elim (next_key-cases k f.1) [ inl e ↦ ground arith | inr e ↦ ground arith ]))
  | inr (inr (e, h)) ↦
      absurd (b (elim (next_key-cases k f.1) [ inl e ↦ ground arith | inr e ↦ ground arith ]))
]
