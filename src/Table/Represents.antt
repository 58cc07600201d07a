-- ===== src/Table/Represents.antt =====
-- THospf/Table.cpp: a table stands for the sorted list of its items, and its operations for
-- insertion and removal there.
use ospfbasic.Prelude.{
  ℕ, ◌%◌, ◌^◌, ◌≡◌, refl, sym, ap, subst, ◌∙◌, List, ◌∷◌, ◌++◌, none, some, arith, All, length,
}
use ospfbasic.Table.{Key, TblItem, Tree, previous}
use ospfbasic.Table.Order.{
  Sorted, Sorted-split, insert_item, erase_item, lookup, insert-here, erase-here,
}
use ospfbasic.Table.Shifts.{elements}
use ospfbasic.Table.Heights.{Avl}
use ospfbasic.Table.Items.{Table, set_next, sll_of, rest_after}
use ospfbasic.Table.Previous.{Fits, last_below, previous-elements}
use ospfbasic.Table.Chain.{
  Cut, CutAt, cut_at, cut, last_of, last_below-Cut, set_next-last, rest_after-last, sll_of-here,
}
use ospfbasic.Table.Cuts.{insert-cut, lookup-cut, insert-new, FoundAt, found_at, lookup-FoundAt}
use ospfbasic.Table.Kept.{insert_item-Sorted}

-- The tree is balanced and holds the items, the list links them in order, and the count is theirs.
pub record Represents (tb : Table) (xs : List TblItem) : Type 0 where
  pub links : tb.sll ≡ xs
  pub tree : elements tb.root ≡ xs
  pub order : Sorted xs
  pub words : All Fits xs
  pub counted : tb.count ≡ length xs % 2 ^ 32
  pub height : ℕ
  pub balanced : Avl tb.root height

-- `previous` in a tree whose items are cut in front of the key.
pub previous-Cut :
    (k : Key) (t : Tree) (pre post : List TblItem)
    → (elements t ≡ pre ++ post)
    → All Fits (pre ++ post)
    → Sorted (pre ++ post)
    → Cut k pre post
    → previous k t ≡ last_of pre none
previous-Cut k t pre post e f s c =
    previous-elements k t (subst (All Fits) (sym e) f) (subst Sorted (sym e) s)
    ∙ ap (λ xs. last_below k xs none) e
    ∙ last_below-Cut k pre post none c

-- The list of `add`, for a new item and for one that takes another's place.
pub new_links :
    (i : TblItem) (t : Tree) (xs : List TblItem)
    → (elements t ≡ insert_item i xs)
    → Sorted xs
    → All Fits (insert_item i xs)
    → (lookup i.key xs ≡ none)
    → set_next (previous i.key t) (i ∷ rest_after (previous i.key t) xs) xs ≡ insert_item i xs
new_links i t xs e s f n = go xs (cut i.key xs s) e s f n
  where
    go :
        (xs : List TblItem)
        → CutAt i.key xs
        → (elements t ≡ insert_item i xs)
        → Sorted xs
        → All Fits (insert_item i xs)
        → (lookup i.key xs ≡ none)
        → set_next (previous i.key t) (i ∷ rest_after (previous i.key t) xs) xs ≡ insert_item i xs
    go xs (cut_at pre post c) e s f n =
        let q : insert_item i (pre ++ post) ≡ pre ++ i ∷ post =
          insert-cut i pre post c.0
          ∙ ap (λ l. pre ++ l) (insert-new i post c.1 (sym (lookup-cut i.key pre post c.0) ∙ n)) in
        let p : previous i.key t ≡ last_of pre none =
          previous-Cut i.key t pre (i ∷ post) (e ∙ q) (subst (All Fits) q f)
            (subst Sorted q (insert_item-Sorted i (pre ++ post) s))
            (c.0, ((λ b. ground arith), c.1)) in
        rw (p, rest_after-last pre post s, set_next-last pre post (i ∷ post) s) (sym q)

pub found_links :
    (i o : TblItem) (t : Tree) (xs : List TblItem)
    → (elements t ≡ insert_item i xs)
    → Sorted xs
    → All Fits (insert_item i xs)
    → (lookup i.key xs ≡ some o)
    → set_next (previous i.key t) (i ∷ sll_of o.key xs) xs ≡ insert_item i xs
found_links i o t xs e s f n = go xs (lookup-FoundAt i.key o xs s n) e s f
  where
    go :
        (xs : List TblItem)
        → FoundAt i.key o xs
        → (elements t ≡ insert_item i xs)
        → Sorted xs
        → All Fits (insert_item i xs)
        → set_next (previous i.key t) (i ∷ sll_of o.key xs) xs ≡ insert_item i xs
    go xs (found_at pre ys h c) e s f =
        let parts = Sorted-split pre o ys s in
        let q : insert_item i (pre ++ o ∷ ys) ≡ pre ++ i ∷ ys = insert-here i o pre ys parts.1 h in
        let p : previous i.key t ≡ last_of pre none =
          previous-Cut i.key t pre (i ∷ ys) (e ∙ q) (subst (All Fits) q f)
            (subst Sorted q (insert_item-Sorted i (pre ++ o ∷ ys) s))
            (c.0, ((λ b. ground arith), c.1.1)) in
        rw
          (
            p,
            sll_of-here o.key pre o ys parts.1 (refl, refl),
            set_next-last pre (o ∷ ys) (i ∷ ys) s,
          )
          (sym q)

-- The list of `remove`.
pub removed_links :
    (k : Key) (o : TblItem) (t : Tree) (xs : List TblItem)
    → (elements t ≡ xs)
    → Sorted xs
    → All Fits xs
    → (lookup k xs ≡ some o)
    → set_next (previous k t) (sll_of k xs) xs ≡ erase_item k xs
removed_links k o t xs e s f n = go xs (lookup-FoundAt k o xs s n) e s f
  where
    go :
        (xs : List TblItem)
        → FoundAt k o xs
        → (elements t ≡ xs)
        → Sorted xs
        → All Fits xs
        → set_next (previous k t) (sll_of k xs) xs ≡ erase_item k xs
    go xs (found_at pre ys h c) e s f =
        let p = previous-Cut k t pre (o ∷ ys) e f s c in
        rw (p, sll_of-here k pre o ys c.0 h, set_next-last pre (o ∷ ys) ys s)
          (sym (erase-here k o pre ys (Sorted-split pre o ys s).1 h))
