-- ===== src/Table/Kept.antt =====
-- THospf/Table.cpp: what insertion and removal in a sorted list keep.
use ospfbasic.Prelude.{suc, ◌≡◌, refl, ap, inl, inr, List, [], ◌∷◌, none, some, arith, All, length}
use ospfbasic.Table.{Key, TblItem}
use ospfbasic.Table.Order.{
  Before, Sorted, way-cases, Before-trans, insert_item, erase_item, lookup, lookup-left, All-map,
}

pub All-insert {ℓ} :
    (P : TblItem → Type ℓ) (i : TblItem) (xs : List TblItem)
    → P i
    → All P xs
    → All P (insert_item i xs)
unfolding insert_item
All-insert P i [] p a = (p, tt)
All-insert P i (x ∷ xs) p a = elim (way-cases i.key x.key) [
  | inl (e, h) ↦ rw (e, insert_item) (p, a)
  | inr (inl (e, h)) ↦ rw (e, insert_item) (p, a.1)
  | inr (inr (e, h)) ↦ rw (e, insert_item) (a.0, All-insert P i xs p a.1)
]

pub All-erase {ℓ} :
    (P : TblItem → Type ℓ) (k : Key) (xs : List TblItem) → All P xs → All P (erase_item k xs)
unfolding erase_item
All-erase P k [] a = tt
All-erase P k (x ∷ xs) a = elim (way-cases k x.key) [
  | inl (e, h) ↦ rw (e, erase_item) a
  | inr (inl (e, h)) ↦ rw (e, erase_item) a.1
  | inr (inr (e, h)) ↦ rw (e, erase_item) (a.0, All-erase P k xs a.1)
]

pub insert_item-Sorted : (i : TblItem) (xs : List TblItem) → Sorted xs → Sorted (insert_item i xs)
unfolding insert_item
insert_item-Sorted i [] s = (tt, tt)
insert_item-Sorted i (x ∷ xs) s =
    let behind = λ (f : (y : TblItem) → Before x.key y.key → Before i.key y.key).
      All-map (λ y. Before x.key y.key) (λ y. Before i.key y.key) xs f s.0 in
    elim (way-cases i.key x.key) [
      | inl (e, h) ↦
          rw (e, insert_item) ((h, behind (λ y b. Before-trans i.key x.key y.key h b)), s)
      | inr (inl (e, h)) ↦ rw (e, insert_item) (behind (λ y b. ground arith), s.1)
      | inr (inr (e, h)) ↦
          rw (e, insert_item)
            (All-insert (λ y. Before x.key y.key) i xs h s.0, insert_item-Sorted i xs s.1)
    ]

pub erase_item-Sorted : (k : Key) (xs : List TblItem) → Sorted xs → Sorted (erase_item k xs)
unfolding erase_item
erase_item-Sorted k [] s = tt
erase_item-Sorted k (x ∷ xs) s = elim (way-cases k x.key) [
  | inl (e, h) ↦ rw (e, erase_item) s
  | inr (inl (e, h)) ↦ rw (e, erase_item) s.1
  | inr (inr (e, h)) ↦
      rw (e, erase_item) (All-erase (λ y. Before x.key y.key) k xs s.0, erase_item-Sorted k xs s.1)
]

-- The number of items.
pub length-insert_new :
    (i : TblItem) (xs : List TblItem)
    → (lookup i.key xs ≡ none)
    → length (insert_item i xs) ≡ suc (length xs)
unfolding insert_item lookup
length-insert_new i [] n = refl
length-insert_new i (x ∷ xs) n = elim (way-cases i.key x.key) [
  | inl (e, h) ↦ rw (e, insert_item) refl
  | inr (inl (e, h)) ↦ ground arith
  | inr (inr (e, h)) ↦ rw (e, insert_item) (ap suc (length-insert_new i xs (ground arith)))
]

pub length-insert_found :
    (i o : TblItem) (xs : List TblItem)
    → Sorted xs
    → (lookup i.key xs ≡ some o)
    → length (insert_item i xs) ≡ length xs
unfolding insert_item lookup
length-insert_found i o [] s n = cc n
length-insert_found i o (x ∷ xs) s n = elim (way-cases i.key x.key) [
  | inl (e, h) ↦ cc (n, lookup-left i.key x [] xs s.0 h)
  | inr (inl (e, h)) ↦ rw (e, insert_item) refl
  | inr (inr (e, h)) ↦ rw (e, insert_item) (ap suc (length-insert_found i o xs s.1 (ground arith)))
]

pub length-erase_found :
    (k : Key) (o : TblItem) (xs : List TblItem)
    → Sorted xs
    → (lookup k xs ≡ some o)
    → suc (length (erase_item k xs)) ≡ length xs
unfolding erase_item lookup
length-erase_found k o [] s n = cc n
length-erase_found k o (x ∷ xs) s n = elim (way-cases k x.key) [
  | inl (e, h) ↦ cc (n, lookup-left k x [] xs s.0 h)
  | inr (inl (e, h)) ↦ rw (e, erase_item) refl
  | inr (inr (e, h)) ↦ rw (e, erase_item) (ap suc (length-erase_found k o xs s.1 (ground arith)))
]

pub erase-absent : (k : Key) (xs : List TblItem) → (lookup k xs ≡ none) → erase_item k xs ≡ xs
unfolding erase_item lookup
erase-absent k [] e = refl
erase-absent k (x ∷ xs) e = elim (way-cases k x.key) [
  | inl (w, h) ↦ rw (w, erase_item) refl
  | inr (inl (w, h)) ↦ ground arith
  | inr (inr (w, h)) ↦ rw (w, erase_item) (ap (◌∷◌ x) (erase-absent k xs (ground arith)))
]
