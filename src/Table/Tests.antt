-- ===== src/Table/Tests.antt =====
-- A table of three items, of which the second put in makes the tree turn.
use ospfbasic.Prelude.{ℕ, ◌≡◌, refl, [], ◌∷◌, List, some, arith, pos, increment, ap}
use ospfbasic.Table.{
  TblItem, leaf, node, way, find, floor, previous, add_new, has_point, insert_below, shift,
  left_shift,
}
use ospfbasic.Table.Order.{insert_item, erase_item, lookup}
use ospfbasic.Table.Shifts.{elements}
use ospfbasic.Table.Heights.{flat}
use ospfbasic.Table.Items.{
  Table, TblSearch, empty_table, add, remove, next, sll_of, rest_after, set_next,
}
use ospfbasic.Table.Represents.{Represents}
use ospfbasic.Table.Refines.{add-Represents, remove-Represents}
use ospfbasic.Table.Search.{next-first_above}
use ospfbasic.Table.Above.{first_above, IsAt}
use ospfbasic.Table.Depth.{remove-stack_fits, PushesUpTo, stk_sz}

abbrev item : ℕ → TblItem
item k = record { key = record { index1 = k; index2 = 1 }; elt = k }

abbrev three : Table
three = add (item 9) (add (item 7) (add (item 5) empty_table))

built : three ≡ record {
  root = node (item 7) (pos 0) (node (item 5) (pos 0) leaf leaf) (node (item 9) (pos 0) leaf leaf);
  sll = item 5 ∷ item 7 ∷ item 9 ∷ [];
  count = 3;
  instance_id = 3;
}
unfolding add find way add_new has_point insert_below shift left_shift previous floor set_next
    rest_after sll_of increment
built = refl

empty_table-Represents : Represents empty_table []
unfolding elements
empty_table-Represents = record {
  links = refl;
  tree = refl;
  order = tt;
  words = tt;
  counted = refl;
  height = 0;
  balanced = flat;
}

one-Represents : Represents (add (item 5) empty_table) (insert_item (item 5) [])
one-Represents =
    add-Represents (item 5) empty_table [] empty_table-Represents (omega arith, omega arith)

two-Represents :
    Represents
      (add (item 7) (add (item 5) empty_table))
      (insert_item (item 7) (insert_item (item 5) []))
two-Represents = add-Represents (item 7) _ _ one-Represents (omega arith, omega arith)

three-Represents :
    Represents three (insert_item (item 9) (insert_item (item 7) (insert_item (item 5) [])))
three-Represents = add-Represents (item 9) _ _ two-Represents (omega arith, omega arith)

abbrev items : List TblItem
items = insert_item (item 9) (insert_item (item 7) (insert_item (item 5) []))

-- A fourth item, whose keys are those of the second.
abbrev newer : TblItem
newer = record { key = record { index1 = 7; index2 = 1 }; elt = 8 }

add-Represents_example : Represents (add newer three) (insert_item newer items)
add-Represents_example =
    add-Represents newer three items three-Represents (omega arith, omega arith)

own_item : (o : TblItem) → (lookup (item 7).key items ≡ some o) → o.elt ≡ 7
unfolding lookup insert_item way
own_item o e = ground arith

remove-Represents_example :
    (after : Table) × ((remove (item 7) three ≡ some after)
      × Represents after (erase_item (item 7).key items))
remove-Represents_example = remove-Represents (item 7) three items three-Represents own_item

-- A search that has returned the first item when it was the only one.
abbrev early : TblSearch
early = record { seen = 1; c_key = (item 5).key; current = some (item 5) }

not_seen : (early.seen ≡ three.instance_id) → (c : TblItem) × (lookup (item 5).key items ≡ some c)
not_seen e = absurd (omega (arith, ap (λ tb. tb.instance_id) built))

next-first_above_example :
    ((next three early).0 ≡ first_above (item 5).key items)
    × ((x : TblItem)
        → ((next three early).0 ≡ some x)
        → IsAt x.key (next three early).1 × ((next three early).1.seen ≡ three.instance_id))
next-first_above_example =
    next-first_above (item 5).key early three items three-Represents (refl, (item 5, (refl, refl)))
      (omega arith, omega arith) (λ h. omega (arith, h.0)) not_seen

found_next : first_above (item 5).key items ≡ some (item 7)
unfolding first_above insert_item way
found_next = refl

remove-stack_fits_example : PushesUpTo stk_sz (item 9) three.root
remove-stack_fits_example =
    remove-stack_fits (item 9) three items three-Represents (unfold insert_item way in omega arith)
