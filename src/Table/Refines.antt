-- ===== src/Table/Refines.antt =====
-- THospf/Table.cpp: `find`, `add` and `remove` on what a table stands for.
use ospfbasic.Prelude.{
  ℕ, ◌%◌, ◌^◌, ◌≡◌, refl, sym, ap, subst, ◌∙◌, inl, inr, ◌⊎◌, List, Option, none, some, arith, ◌==◌,
  true, Bool,
}
use ospfbasic.Table.{Key, TblItem, Tree, find, add_new, replace, remove_from, has_point}
use ospfbasic.Table.Order.{Sorted, insert_item, erase_item, lookup}
use ospfbasic.Table.Elements.{
  find-elements, add_new-elements, replace-elements, remove_from-elements,
}
use ospfbasic.Table.Heights.{Avl}
use ospfbasic.Table.Raised.{add_new-Avl, replace-Avl, grown}
use ospfbasic.Table.Lower.{Shrunk, less, same, remove_from-Avl}
use ospfbasic.Table.Items.{Table, add, remove}
use ospfbasic.Table.Previous.{Fits}
use ospfbasic.Table.Kept.{
  All-insert, All-erase, insert_item-Sorted, erase_item-Sorted, length-insert_new,
  length-insert_found, length-erase_found, erase-absent,
}
use ospfbasic.Table.Represents.{Represents, new_links, found_links, removed_links}

pub find-lookup :
    (k : Key) (tb : Table) (xs : List TblItem) → Represents tb xs → find k tb.root ≡ lookup k xs
find-lookup k tb xs r =
    find-elements k tb.root (subst Sorted (sym r.tree) r.order) ∙ ap (lookup k) r.tree

-- What an item is found as.
pub found_cases : (o : Option TblItem) → (o ≡ none) ⊎ ((p : TblItem) × (o ≡ some p))
found_cases none = inl refl
found_cases (some p) = inr (p, refl)

Shrunk-height : (p : Tree × Bool) (n : ℕ) → Shrunk p n → (m : ℕ) × Avl p.0 m
Shrunk-height p n (less {n = m} a) = (m, a)
Shrunk-height p n (same a) = (n, a)

-- `add` of an item of 32-bit keys inserts it into the sorted list of items that the table stands
-- for, in the place of an item with the same keys if there is one; the tree stays a balanced search
-- tree of these items, the list links them in order, and the count is their number modulo 2^32.
pub add-Represents :
    (i : TblItem) (tb : Table) (xs : List TblItem)
    → Represents tb xs
    → Fits i
    → Represents (add i tb) (insert_item i xs)
unfolding add
add-Represents i tb xs r w =
    let sorted = subst Sorted (sym r.tree) r.order in
    let words = All-insert Fits i xs w r.words in
    elim (found_cases (find i.key tb.root)) [
      | inl n ↦
          let l = sym (find-lookup i.key tb xs r) ∙ n in
          let e =
            add_new-elements i tb.root sorted (ap (lookup i.key) r.tree ∙ l)
            ∙ ap (insert_item i) r.tree in
          rw (n, add)
            (record {
              links = rw r.links (new_links i (add_new i tb.root) xs e r.order words l);
              tree = e;
              order = insert_item-Sorted i xs r.order;
              words = words;
              counted = (let g = length-insert_new i xs l in omega (arith, r.counted));
              height = grown (has_point i.key tb.root) r.height;
              balanced = add_new-Avl i tb.root r.height r.balanced n;
            })
      | inr (o, n) ↦
          let l = sym (find-lookup i.key tb xs r) ∙ n in
          let e =
            replace-elements i o tb.root sorted (ap (lookup i.key) r.tree ∙ l)
            ∙ ap (insert_item i) r.tree in
          rw (n, add)
            (record {
              links = rw r.links (found_links i o (replace i tb.root) xs e r.order words l);
              tree = e;
              order = insert_item-Sorted i xs r.order;
              words = words;
              counted =
                  r.counted ∙ ap (λ c. c % 2 ^ 32) (sym (length-insert_found i o xs r.order l));
              height = r.height;
              balanced = replace-Avl i tb.root r.height r.balanced;
            })
    ]

same_object : (a b : ℕ) → (a ≡ b) → (a == b) ≡ true
same_object a b e = ground arith

-- `remove` of an item, where the table has no other object under its keys, returns and takes what is
-- under the keys out of the sorted list of items, which stays as it is if nothing is; the tree stays
-- a balanced search tree of the items, the list links them in order, and the count stays theirs.
pub remove-Represents :
    (i : TblItem) (tb : Table) (xs : List TblItem)
    → Represents tb xs
    → ((o : TblItem) → (lookup i.key xs ≡ some o) → o.elt ≡ i.elt)
    → (after : Table) × ((remove i tb ≡ some after) × Represents after (erase_item i.key xs))
unfolding remove
remove-Represents i tb xs r own = elim (found_cases (find i.key tb.root)) [
  | inl n ↦
      let e = erase-absent i.key xs (sym (find-lookup i.key tb xs r) ∙ n) in
      rw (n, remove) ((tb, (refl, subst (Represents tb) (sym e) r)))
  | inr (o, n) ↦
      let l = sym (find-lookup i.key tb xs r) ∙ n in
      let t = (remove_from i.key tb.root).0 in
      let c = same_object o.elt i.elt (own o l) in
      let shorter = length-erase_found i.key o xs r.order l in
      let low =
        Shrunk-height (remove_from i.key tb.root) r.height
          (remove_from-Avl i.key tb.root r.height r.balanced) in
      rw (n, remove, c)
        ((
          _,
          (
            refl,
            record {
              links = rw r.links (removed_links i.key o tb.root xs r.tree r.order r.words l);
              tree =
                  remove_from-elements i.key tb.root (subst Sorted (sym r.tree) r.order)
                  ∙ ap (erase_item i.key) r.tree;
              order = erase_item-Sorted i.key xs r.order;
              words = All-erase Fits i.key xs r.words;
              counted = omega (arith, r.counted);
              height = low.0;
              balanced = low.1;
            },
          ),
        ))
]
