-- ===== src/Table/Elements.antt =====
-- THospf/Table.cpp: the items of the tree in order, and the operations on it.
use ospfbasic.Prelude.{
  ◌≡◌, refl, sym, ap, ◌∙◌, inl, inr, Bool, true, false, List, [], ◌∷◌, ◌++◌, none, some, Bool-cases,
  ℤ,
}
use mathlib.Core.List.{append_assoc}
use ospfbasic.Table.{
  Key, TblItem, Tree, leaf, node, find, insert_below, has_point, add_new, replace, back_left,
  back_right, remove_last, unlink_item, remove_from,
}
use ospfbasic.Table.Shifts.{elements, shift-elements, readjust-elements}
use ospfbasic.Table.Order.{
  Sorted, Sorted-split, lookup, insert_item, erase_item, way-cases, insert-left, insert-right,
  insert-here, erase-left, erase-right, erase-here, lookup-left, lookup-right, lookup-here,
}

append_nil : (xs : List TblItem) → xs ++ [] ≡ xs
append_nil [] = refl
append_nil (x ∷ xs) = ap (◌∷◌ x) (append_nil xs)

insert_below-elements :
    (i : TblItem) (t : Tree)
    → Sorted (elements t)
    → lookup i.key (elements t) ≡ none
    → elements (insert_below i t) ≡ insert_item i (elements t)
unfolding elements insert_below
insert_below-elements i leaf s h = unfold insert_item in refl
insert_below-elements i (node j b l r) s h =
    let p = Sorted-split (elements l) j (elements r) s in
    elim (way-cases i.key j.key) [
      | inl (e, k) ↦
          rw (e, insert_below)
            (ap (λ x. x ++ j ∷ elements r)
                (insert_below-elements i l p.0
                  (sym (lookup-left i.key j (elements l) (elements r) p.2 k) ∙ h))
              ∙ sym (insert-left i j (elements l) (elements r) k))
      | inr (inl (e, k)) ↦ cc (h, lookup-here i.key j (elements l) (elements r) p.1 k)
      | inr (inr (e, k)) ↦
          rw (e, insert_below)
            (ap (λ x. elements l ++ j ∷ x)
                (insert_below-elements i r p.3
                  (sym (lookup-right i.key j (elements l) (elements r) p.1 k) ∙ h))
              ∙ sym (insert-right i j (elements l) (elements r) p.1 k))
    ]

-- `find` looks up in the list of items.
pub find-elements : (k : Key) (t : Tree) → Sorted (elements t) → find k t ≡ lookup k (elements t)
unfolding elements find
find-elements k leaf s = unfold lookup in refl
find-elements k (node j b l r) s =
    let p = Sorted-split (elements l) j (elements r) s in
    elim (way-cases k j.key) [
      | inl (e, h) ↦
          rw (e, find)
            (find-elements k l p.0 ∙ sym (lookup-left k j (elements l) (elements r) p.2 h))
      | inr (inl (e, h)) ↦ rw (e, find) (sym (lookup-here k j (elements l) (elements r) p.1 h))
      | inr (inr (e, h)) ↦
          rw (e, find)
            (find-elements k r p.3 ∙ sym (lookup-right k j (elements l) (elements r) p.1 h))
    ]

pub add_new-elements :
    (i : TblItem) (t : Tree)
    → Sorted (elements t)
    → lookup i.key (elements t) ≡ none
    → elements (add_new i t) ≡ insert_item i (elements t)
unfolding elements add_new
add_new-elements i leaf s h = unfold insert_item in refl
add_new-elements i (node j b l r) s h =
    let p = Sorted-split (elements l) j (elements r) s in
    let shifted =
      shift-elements (insert_below i (node j b l r)) ∙ insert_below-elements i (node j b l r) s h in
    elim (way-cases i.key j.key) [
      | inl (e, k) ↦ elim (Bool-cases (has_point i.key l)) [
        | inl c ↦
            rw (e, add_new, c)
              (ap (λ x. x ++ j ∷ elements r)
                  (add_new-elements i l p.0
                    (sym (lookup-left i.key j (elements l) (elements r) p.2 k) ∙ h))
                ∙ sym (insert-left i j (elements l) (elements r) k))
        | inr c ↦ rw (e, add_new, c) shifted
      ]
      | inr (inl (e, k)) ↦ cc (h, lookup-here i.key j (elements l) (elements r) p.1 k)
      | inr (inr (e, k)) ↦ elim (Bool-cases (has_point i.key r)) [
        | inl c ↦
            rw (e, add_new, c)
              (ap (λ x. elements l ++ j ∷ x)
                  (add_new-elements i r p.3
                    (sym (lookup-right i.key j (elements l) (elements r) p.1 k) ∙ h))
                ∙ sym (insert-right i j (elements l) (elements r) p.1 k))
        | inr c ↦ rw (e, add_new, c) shifted
      ]
    ]

pub replace-elements :
    (i old : TblItem) (t : Tree)
    → Sorted (elements t)
    → lookup i.key (elements t) ≡ some old
    → elements (replace i t) ≡ insert_item i (elements t)
unfolding elements replace
replace-elements i old leaf s h = unfold lookup in cc h
replace-elements i old (node j b l r) s h =
    let p = Sorted-split (elements l) j (elements r) s in
    elim (way-cases i.key j.key) [
      | inl (e, k) ↦
          rw (e, replace)
            (ap (λ x. x ++ j ∷ elements r)
                (replace-elements i old l p.0
                  (sym (lookup-left i.key j (elements l) (elements r) p.2 k) ∙ h))
              ∙ sym (insert-left i j (elements l) (elements r) k))
      | inr (inl (e, k)) ↦ rw (e, replace) (sym (insert-here i j (elements l) (elements r) p.1 k))
      | inr (inr (e, k)) ↦
          rw (e, replace)
            (ap (λ x. elements l ++ j ∷ x)
                (replace-elements i old r p.3
                  (sym (lookup-right i.key j (elements l) (elements r) p.1 k) ∙ h))
              ∙ sym (insert-right i j (elements l) (elements r) p.1 k))
    ]

back_left-elements :
    (i : TblItem) (b : ℤ) (l : Tree × Bool) (r : Tree)
    → elements (back_left i b l r).0 ≡ elements l.0 ++ i ∷ elements r
unfolding back_left elements
back_left-elements i b (l, true) r = readjust-elements _
back_left-elements i b (l, false) r = refl

back_right-elements :
    (i : TblItem) (b : ℤ) (l : Tree) (r : Tree × Bool)
    → elements (back_right i b l r).0 ≡ elements l ++ i ∷ elements r.0
unfolding back_right elements
back_right-elements i b l (r, true) = readjust-elements _
back_right-elements i b l (r, false) = refl

remove_last-elements :
    (i : TblItem) (b : ℤ) (l r : Tree)
    → elements (remove_last i b l r).1.0 ++ (remove_last i b l r).0 ∷ []
      ≡ elements l ++ i ∷ elements r
unfolding remove_last elements
remove_last-elements i b l leaf = refl
remove_last-elements i b l (node j c k s) =
    ap (λ x. x ++ (remove_last j c k s).0 ∷ []) (back_right-elements i b l (remove_last j c k s).1)
    ∙ append_assoc (elements l) (i ∷ elements (remove_last j c k s).1.0) _
    ∙ ap (λ x. elements l ++ i ∷ x) (remove_last-elements j c k s)

unlink_item-elements :
    (i : TblItem) (b : ℤ) (l r : Tree) → elements (unlink_item i b l r).0 ≡ elements l ++ elements r
unfolding unlink_item elements
unlink_item-elements i b l leaf = sym (append_nil (elements l))
unlink_item-elements i b leaf (node j c k s) = refl
unlink_item-elements i b (node h d m n) (node j c k s) =
    back_left-elements _ b (remove_last h d m n).1 (node j c k s)
    ∙ sym (append_assoc (elements (remove_last h d m n).1.0) ((remove_last h d m n).0 ∷ []) _)
    ∙ ap (λ x. x ++ elements (node j c k s)) (remove_last-elements h d m n)

-- `remove` erases in the list of items.
pub remove_from-elements :
    (k : Key) (t : Tree)
    → Sorted (elements t)
    → elements (remove_from k t).0 ≡ erase_item k (elements t)
unfolding elements remove_from
remove_from-elements k leaf s = unfold erase_item in refl
remove_from-elements k (node j b l r) s =
    let p = Sorted-split (elements l) j (elements r) s in
    elim (way-cases k j.key) [
      | inl (e, h) ↦
          rw (e, remove_from)
            (back_left-elements j b (remove_from k l) r
              ∙ ap (λ x. x ++ j ∷ elements r) (remove_from-elements k l p.0)
              ∙ sym (erase-left k j (elements l) (elements r) h))
      | inr (inl (e, h)) ↦
          rw (e, remove_from)
            (unlink_item-elements j b l r ∙ sym (erase-here k j (elements l) (elements r) p.1 h))
      | inr (inr (e, h)) ↦
          rw (e, remove_from)
            (back_right-elements j b l (remove_from k r)
              ∙ ap (λ x. elements l ++ j ∷ x) (remove_from-elements k r p.3)
              ∙ sym (erase-right k j (elements l) (elements r) p.1 h))
    ]
