-- ===== src/Queue/Contents.antt =====
-- THospf/Queue.cpp: which elements stand in the queue. Counts by every test of elements take the
-- place of the bag of elements, since the tree's form is not to matter.
use ospfbasic.Prelude.{
  ℕ, zero, suc, ◌+◌, ◌≡◌, ◌≤◌, refl, ◌∙◌, inl, inr, Bool, true, false, List, [], ◌∷◌, some, arith,
  Bool-cases,
}
use ospfbasic.Queue.{
  Item, Tree, empty, node, size, cmp_cost, settle, splice, combine, add, Side, to_left, to_right,
  settle_up, del_at, del, item_at,
}

abbrev pub one : Bool → ℕ
one true = 1
one false = 0

-- How many elements pass a test.
unfoldable pub count : (Item → Bool) → Tree → ℕ
count pass empty = 0
count pass (node i d l r) = one (pass i) + (count pass l + count pass r)

settle-count :
    (pass : Item → Bool) (i : Item) (l r : Tree)
    → count pass (settle i l r) ≡ one (pass i) + (count pass l + count pass r)
unfolding settle count
settle-count pass i l empty = omega arith
settle-count pass i empty (node j e k s) = omega arith
settle-count pass i (node h d l r) (node j e k s) = ground arith

pub settle-size : (i : Item) (l r : Tree) → size (settle i l r) ≡ suc (size l + size r)
unfolding settle size
settle-size i l empty = omega arith
settle-size i empty (node j e k s) = omega arith
settle-size i (node h d l r) (node j e k s) = ground arith

splice-count :
    (pass : Item → Bool) (f : ℕ) (x y : Tree)
    → size x + size y ≤ f
    → count pass (splice f x y) ≡ count pass x + count pass y
unfolding splice count size
splice-count pass zero empty y h = omega arith
splice-count pass zero (node i d l r) y h = omega (arith, h)
splice-count pass (suc f) empty y h = omega arith
splice-count pass (suc f) (node i d l r) empty h = omega arith
splice-count pass (suc f) (node i d l r) (node j e k s) h = elim (Bool-cases (cmp_cost j i)) [
  | inl c ↦
      rw (c, splice)
        (settle-count pass j k _
          ∙ omega (arith, splice-count pass f s (node i d l r) (omega (arith, h))))
  | inr c ↦
      rw (c, splice)
        (settle-count pass i l _
          ∙ omega (arith, splice-count pass f r (node j e k s) (omega (arith, h))))
]

-- `combine` loses no element and adds none.
pub combine-count :
    (pass : Item → Bool) (a b : Tree) → count pass (combine a b) ≡ count pass a + count pass b
unfolding combine count size
combine-count pass empty empty = refl
combine-count pass (node i d l r) empty = omega arith
combine-count pass empty (node j e k s) = omega arith
combine-count pass (node i d l r) (node j e k s) = elim (Bool-cases (cmp_cost j i)) [
  | inl c ↦
      rw (c, combine)
        (settle-count pass j k _
          ∙ omega (
            arith,
            splice-count pass (size (node i d l r) + size (node j e k s)) s (node i d l r)
                (omega arith),
          ))
  | inr c ↦
      rw (c, combine)
        (settle-count pass i l _
          ∙ omega (
            arith,
            splice-count pass (size (node i d l r) + size (node j e k s)) r (node j e k s)
                (omega arith),
          ))
]

-- So `add` adds the one element.
pub add-count :
    (pass : Item → Bool) (i : Item) (t : Tree) → count pass (add i t) ≡ count pass t + one (pass i)
unfolding add count
add-count pass i t = combine-count pass t (node i 1 empty empty) ∙ omega arith

settle_up-count :
    (pass : Item → Bool) (i : Item) (d : ℕ) (l r : Tree) (up : Bool)
    → count pass (settle_up i d l r up).0 ≡ one (pass i) + (count pass l + count pass r)
unfolding settle_up count
settle_up-count pass i d l r false = refl
settle_up-count pass i d l r true = settle-count pass i l r

-- `del` removes the element at a way from the root, and that one only.
pub del-count :
    (pass : Item → Bool) (ss : List Side) (t : Tree) (i : Item)
    → item_at ss t ≡ some i
    → count pass (del ss t) + one (pass i) ≡ count pass t
unfolding del del_at item_at count
del-count pass ss empty i h = cc h
del-count pass [] (node j d l r) i h = ground (arith, h, combine-count pass r l)
del-count pass (to_left ∷ ss) (node j d l r) i h =
    omega
      (arith, settle_up-count pass j d (del_at ss l).0 r (del_at ss l).1, del-count pass ss l i h)
del-count pass (to_right ∷ ss) (node j d l r) i h =
    omega
      (arith, settle_up-count pass j d l (del_at ss r).0 (del_at ss r).1, del-count pass ss r i h)
