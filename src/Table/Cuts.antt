-- ===== src/Table/Cuts.antt =====
-- THospf/Table.cpp: the reference operations on a sorted list, at a cut in front of their key.
use ospfbasic.Prelude.{
  ◌≡◌, refl, sym, ap, subst, ◌∙◌, inl, inr, List, [], ◌∷◌, ◌++◌, none, some, arith, All,
}
use ospfbasic.Table.{Key, TblItem}
use ospfbasic.Table.Order.{
  Before, Same, Sorted, way-cases, way-right, insert_item, lookup, lookup-left,
}
use ospfbasic.Table.Chain.{IsFrom, Cut, CutAt, cut_at, cut}

Sorted-behind : (pre post : List TblItem) → Sorted (pre ++ post) → Sorted post
Sorted-behind [] post s = s
Sorted-behind (x ∷ xs) post s = Sorted-behind xs post s.1

pub insert-cut :
    (i : TblItem) (pre post : List TblItem)
    → All (λ x. Before x.key i.key) pre
    → insert_item i (pre ++ post) ≡ pre ++ insert_item i post
unfolding insert_item
insert-cut i [] post a = refl
insert-cut i (x ∷ xs) post a =
    rw (way-right i.key x.key a.0, insert_item) (ap (◌∷◌ x) (insert-cut i xs post a.1))

module _ (k : Key) where
  pub lookup-cut :
      (pre post : List TblItem)
      → All (λ x. Before x.key k) pre
      → lookup k (pre ++ post) ≡ lookup k post
  unfolding lookup
  lookup-cut [] post a = refl
  lookup-cut (x ∷ xs) post a = rw (way-right k x.key a.0, lookup) (lookup-cut xs post a.1)

  -- An item with the key stands first behind the cut.
  pub data FirstIs (o : TblItem) : List TblItem → Type 0 where
    first : (ys : List TblItem) → Same k o.key → FirstIs o (o ∷ ys)

  pub lookup-FirstIs :
      (o : TblItem) (post : List TblItem)
      → Sorted post
      → IsFrom k post
      → (lookup k post ≡ some o)
      → FirstIs o post
  unfolding lookup
  lookup-FirstIs o [] s f e = cc e
  lookup-FirstIs o (y ∷ ys) s f e = elim (way-cases k y.key) [
    | inl (w, h) ↦ cc (e, lookup-left k y [] ys s.0 h)
    | inr (inl (w, h)) ↦
        let q : y ≡ o = ground arith in subst (λ z. FirstIs z (y ∷ ys)) q (first ys h)
    | inr (inr (w, h)) ↦ absurd (f.0 h)
  ]

-- A new item goes in front of what is behind the cut.
pub insert-new :
    (i : TblItem) (post : List TblItem)
    → IsFrom i.key post
    → (lookup i.key post ≡ none)
    → insert_item i post ≡ i ∷ post
unfolding insert_item lookup
insert-new i [] f e = refl
insert-new i (y ∷ ys) f e = elim (way-cases i.key y.key) [
  | inl (w, h) ↦ rw (w, insert_item) refl
  | inr (inl (w, h)) ↦ ground arith
  | inr (inr (w, h)) ↦ absurd (f.0 h)
]

-- An item with the key, and the cut in front of it.
pub data FoundAt (k : Key) (o : TblItem) : List TblItem → Type 0 where
  found_at :
      (pre ys : List TblItem) → Same k o.key → Cut k pre (o ∷ ys) → FoundAt k o (pre ++ o ∷ ys)

pub lookup-FoundAt :
    (k : Key) (o : TblItem) (xs : List TblItem)
    → Sorted xs
    → (lookup k xs ≡ some o)
    → FoundAt k o xs
lookup-FoundAt k o xs s e = at xs (cut k xs s) s e
  where
    behind :
        (pre post : List TblItem) → Cut k pre post → FirstIs k o post → FoundAt k o (pre ++ post)
    behind pre post c (first ys h) = found_at pre ys h c

    at : (xs : List TblItem) → CutAt k xs → Sorted xs → (lookup k xs ≡ some o) → FoundAt k o xs
    at xs (cut_at pre post c) s e = behind pre post c (
        lookup-FirstIs k o post (Sorted-behind pre post s) c.1
          (sym (lookup-cut k pre post c.0) ∙ e))
