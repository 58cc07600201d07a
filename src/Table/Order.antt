-- ===== src/Table/Order.antt =====
-- THospf/Table.cpp: the order of keys, and sorted lists of items.
use ospfbasic.Prelude.{
  ◌≡◌, ◌<◌, refl, ap, inl, inr, ◌⊎◌, List, [], ◌∷◌, ◌++◌, Option, none, some, arith, All,
}
use ospfbasic.Table.{Key, TblItem, Way, to_left, here, to_right, way}

-- The first key first, then the second.
abbrev pub Before : Key → Key → Type 0
Before k n = (k.index1 < n.index1) ⊎ ((k.index1 ≡ n.index1) × (k.index2 < n.index2))

abbrev pub Same : Key → Key → Type 0
Same k n = (k.index1 ≡ n.index1) × (k.index2 ≡ n.index2)

-- What each way of a search means.
abbrev pub Means : Way → Key → Key → Type 0
Means to_left k n = Before k n
Means here k n = Same k n
Means to_right k n = Before n k

pub way-Means : (k n : Key) → Means (way k n) k n
unfolding way
way-Means k n = ground arith

pub way-left : (k n : Key) → Before k n → way k n ≡ to_left
unfolding way
way-left k n h = ground arith

pub way-right : (k n : Key) → Before n k → way k n ≡ to_right
unfolding way
way-right k n h = ground arith

pub way-here : (k n : Key) → Same k n → way k n ≡ here
unfolding way
way-here k n h = ground arith

pub Before-trans : (a b c : Key) → Before a b → Before b c → Before a c
Before-trans a b c h k = ground arith

-- Every item comes before those behind it.
abbrev pub Sorted : List TblItem → Type 0
Sorted [] = Unit {0}
Sorted (i ∷ is) = All (λ j. Before i.key j.key) is × Sorted is

-- The reference: lookup, insertion and removal in a sorted list.
unfoldable pub lookup : Key → List TblItem → Option TblItem
lookup k [] = none
lookup k (i ∷ is) = elim (way k i.key) [ here ↦ some i | _ ↦ lookup k is ]

unfoldable pub insert_item : TblItem → List TblItem → List TblItem
insert_item i [] = i ∷ []
insert_item i (j ∷ js) = elim (way i.key j.key) [
  | to_left ↦ i ∷ j ∷ js
  | here ↦ i ∷ js
  | to_right ↦ j ∷ insert_item i js
]

unfoldable pub erase_item : Key → List TblItem → List TblItem
erase_item k [] = []
erase_item k (j ∷ js) = elim (way k j.key) [
  | to_left ↦ j ∷ js
  | here ↦ js
  | to_right ↦ j ∷ erase_item k js
]

pub All-append {ℓ κ} :
    {A : Type ℓ} (P : A → Type κ) (xs ys : List A) → All P (xs ++ ys) → All P xs × All P ys
All-append P [] ys h = (tt, h)
All-append P (x ∷ xs) ys h = let r = All-append P xs ys h.1 in ((h.0, r.0), r.1)

pub All-join {ℓ κ} :
    {A : Type ℓ} (P : A → Type κ) (xs ys : List A) → All P xs → All P ys → All P (xs ++ ys)
All-join P [] ys h k = k
All-join P (x ∷ xs) ys h k = (h.0, All-join P xs ys h.1 k)

pub All-map {ℓ κ} :
    {A : Type ℓ} (P Q : A → Type κ) (xs : List A) → ((x : A) → P x → Q x) → All P xs → All Q xs
All-map P Q [] f h = tt
All-map P Q (x ∷ xs) f h = (f x h.0, All-map P Q xs f h.1)

-- The parts of a sorted list around an item.
pub Sorted-split :
    (xs : List TblItem) (j : TblItem) (ys : List TblItem)
    → Sorted (xs ++ j ∷ ys)
    → Sorted xs × All (λ x. Before x.key j.key) xs × All (λ y. Before j.key y.key) ys × Sorted ys
Sorted-split [] j ys s = (tt, tt, s.0, s.1)
Sorted-split (x ∷ xs) j ys s =
    let r = Sorted-split xs j ys s.1 in
    let h = All-append (λ y. Before x.key y.key) xs (j ∷ ys) s.0 in
    ((h.0, r.0), (h.1.0, r.1), r.2, r.3)

-- The ways apart, with what each means.
pub way-cases :
    (k n : Key)
    → ((way k n ≡ to_left) × Before k n)
      ⊎ (((way k n ≡ here) × Same k n) ⊎ ((way k n ≡ to_right) × Before n k))
way-cases k n = cases (way k n) (way-Means k n)
  where
    cases :
        (w : Way)
        → Means w k n
        → ((w ≡ to_left) × Before k n) ⊎ (((w ≡ here) × Same k n) ⊎ ((w ≡ to_right) × Before n k))
    cases to_left h = inl (refl, h)
    cases here h = inr (inl (refl, h))
    cases to_right h = inr (inr (refl, h))

Before-Same : (a b c : Key) → Before a b → Same c b → Before a c
Before-Same a b c h k = ground arith

module _ (i j : TblItem) where
  pub insert-right :
      (xs ys : List TblItem)
      → All (λ x. Before x.key j.key) xs
      → Before j.key i.key
      → insert_item i (xs ++ j ∷ ys) ≡ xs ++ j ∷ insert_item i ys
  unfolding insert_item
  insert-right [] ys a b = rw (way-right i.key j.key b, insert_item) refl
  insert-right (x ∷ xs) ys a b =
      rw (way-right i.key x.key (Before-trans x.key j.key i.key a.0 b), insert_item)
        (ap (◌∷◌ x) (insert-right xs ys a.1 b))

  pub insert-left :
      (xs ys : List TblItem)
      → Before i.key j.key
      → insert_item i (xs ++ j ∷ ys) ≡ insert_item i xs ++ j ∷ ys
  unfolding insert_item
  insert-left [] ys b = rw (way-left i.key j.key b, insert_item) refl
  insert-left (x ∷ xs) ys b = elim (way-cases i.key x.key) [
    | inl (e, h) ↦ rw (e, insert_item) refl
    | inr (inl (e, h)) ↦ rw (e, insert_item) refl
    | inr (inr (e, h)) ↦ rw (e, insert_item) (ap (◌∷◌ x) (insert-left xs ys b))
  ]

  pub insert-here :
      (xs ys : List TblItem)
      → All (λ x. Before x.key j.key) xs
      → Same i.key j.key
      → insert_item i (xs ++ j ∷ ys) ≡ xs ++ i ∷ ys
  unfolding insert_item
  insert-here [] ys a b = rw (way-here i.key j.key b, insert_item) refl
  insert-here (x ∷ xs) ys a b =
      rw (way-right i.key x.key (Before-Same x.key j.key i.key a.0 b), insert_item)
        (ap (◌∷◌ x) (insert-here xs ys a.1 b))

module _ (k : Key) (j : TblItem) where
  pub erase-right :
      (xs ys : List TblItem)
      → All (λ x. Before x.key j.key) xs
      → Before j.key k
      → erase_item k (xs ++ j ∷ ys) ≡ xs ++ j ∷ erase_item k ys
  unfolding erase_item
  erase-right [] ys a b = rw (way-right k j.key b, erase_item) refl
  erase-right (x ∷ xs) ys a b =
      rw (way-right k x.key (Before-trans x.key j.key k a.0 b), erase_item)
        (ap (◌∷◌ x) (erase-right xs ys a.1 b))

  pub erase-left :
      (xs ys : List TblItem)
      → Before k j.key
      → erase_item k (xs ++ j ∷ ys) ≡ erase_item k xs ++ j ∷ ys
  unfolding erase_item
  erase-left [] ys b = rw (way-left k j.key b, erase_item) refl
  erase-left (x ∷ xs) ys b = elim (way-cases k x.key) [
    | inl (e, h) ↦ rw (e, erase_item) refl
    | inr (inl (e, h)) ↦ rw (e, erase_item) refl
    | inr (inr (e, h)) ↦ rw (e, erase_item) (ap (◌∷◌ x) (erase-left xs ys b))
  ]

  pub erase-here :
      (xs ys : List TblItem)
      → All (λ x. Before x.key j.key) xs
      → Same k j.key
      → erase_item k (xs ++ j ∷ ys) ≡ xs ++ ys
  unfolding erase_item
  erase-here [] ys a b = rw (way-here k j.key b, erase_item) refl
  erase-here (x ∷ xs) ys a b =
      rw (way-right k x.key (Before-Same x.key j.key k a.0 b), erase_item)
        (ap (◌∷◌ x) (erase-here xs ys a.1 b))

  pub lookup-right :
      (xs ys : List TblItem)
      → All (λ x. Before x.key j.key) xs
      → Before j.key k
      → lookup k (xs ++ j ∷ ys) ≡ lookup k ys
  unfolding lookup
  lookup-right [] ys a b = rw (way-right k j.key b, lookup) refl
  lookup-right (x ∷ xs) ys a b =
      rw (way-right k x.key (Before-trans x.key j.key k a.0 b), lookup) (lookup-right xs ys a.1 b)

  pub lookup-here :
      (xs ys : List TblItem)
      → All (λ x. Before x.key j.key) xs
      → Same k j.key
      → lookup k (xs ++ j ∷ ys) ≡ some j
  unfolding lookup
  lookup-here [] ys a b = rw (way-here k j.key b, lookup) refl
  lookup-here (x ∷ xs) ys a b =
      rw (way-right k x.key (Before-Same x.key j.key k a.0 b), lookup) (lookup-here xs ys a.1 b)

  pub lookup-left :
      (xs ys : List TblItem)
      → All (λ y. Before j.key y.key) ys
      → Before k j.key
      → lookup k (xs ++ j ∷ ys) ≡ lookup k xs
  unfolding lookup
  lookup-left [] ys a b = rw (way-left k j.key b, lookup) (behind ys a)
    where
      behind : (ys : List TblItem) → All (λ y. Before j.key y.key) ys → lookup k ys ≡ none
      behind [] a = refl
      behind (y ∷ ys) a =
          rw (way-left k y.key (Before-trans k j.key y.key b a.0), lookup) (behind ys a.1)
  lookup-left (x ∷ xs) ys a b = elim (way-cases k x.key) [
    | inl (e, h) ↦ rw (e, lookup) (lookup-left xs ys a b)
    | inr (inl (e, h)) ↦ rw (e, lookup) refl
    | inr (inr (e, h)) ↦ rw (e, lookup) (lookup-left xs ys a b)
  ]
