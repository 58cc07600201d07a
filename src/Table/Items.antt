-- ===== src/Table/Items.antt =====
-- THospf/Table.h and THospf/Table.cpp: a `Table` with its tree, its list in order and its counters,
-- and the search through it. An item in the list is told by its keys, as there is one for each;
-- `in_db` and the references to an item belong to the object that it is part of.
use ospfbasic.Prelude.{
  ℕ, ◌+◌, ◌-◌, ◌%◌, ◌^◌, Bool, true, false, ◌&&◌, ◌||◌, List, [], ◌∷◌, Option, none, some, ◌==◌,
  if◌then◌else◌,
}
use ospfbasic.Table.{Key, TblItem, Tree, leaf, node, find, previous, add_new, replace, remove_from}

-- `sll` is the list from `sllhead` on.
pub record Table : Type 0 where
  pub root : Tree
  pub sll : List TblItem
  pub count : ℕ
  pub instance_id : ℕ

-- The constructor's table.
abbrev pub empty_table : Table
empty_table = record { root = leaf; sll = []; count = 0; instance_id = 0 }

abbrev pub same_key : Key → Key → Bool
same_key k n = k.index1 == n.index1 && k.index2 == n.index2

-- The list behind an item.
unfoldable pub sll_of : Key → List TblItem → List TblItem
sll_of k [] = []
sll_of k (x ∷ xs) = let rest = sll_of k xs in if same_key k x.key then xs else rest

-- The list behind an item, or all of it when there is none.
unfoldable pub rest_after : Option TblItem → List TblItem → List TblItem
rest_after none xs = xs
rest_after (some p) xs = sll_of p.key xs

-- The list whose head, or whose item's `sll`, is set.
unfoldable pub set_next : Option TblItem → List TblItem → List TblItem → List TblItem
set_next none next xs = next
set_next (some p) next [] = []
set_next (some p) next (x ∷ xs) =
    let rest = set_next (some p) next xs in if same_key p.key x.key then x ∷ next else x ∷ rest

-- `Table::add` of an item that is in no table.
unfoldable pub add : TblItem → Table → Table
add item tb =
    let bumped = (tb.instance_id + 1) % 2 ^ 32 in
    elim (find item.key tb.root) [
      | some old ↦
          let root = replace item tb.root in
          let sllprev = previous item.key root in
          record {
            root = root;
            sll = set_next sllprev (item ∷ sll_of old.key tb.sll) tb.sll;
            count = tb.count;
            instance_id = bumped;
          }
      | none ↦
          let root = add_new item tb.root in
          let sllprev = previous item.key root in
          record {
            root = root;
            sll = set_next sllprev (item ∷ rest_after sllprev tb.sll) tb.sll;
            count = (tb.count + 1) % 2 ^ 32;
            instance_id = bumped;
          }
    ]

-- `Table::remove`, of which `none` says that it does not return: the search stays at another item
-- with the keys.
unfoldable pub remove : TblItem → Table → Option Table
remove item tb = elim (find item.key tb.root) [
  | none ↦ some tb
  | some found ↦
      if found.elt == item.elt
      then some (record {
        root = (remove_from item.key tb.root).0;
        sll = set_next (previous item.key tb.root) (sll_of item.key tb.sll) tb.sll;
        count = (tb.count + (2 ^ 32 - 1)) % 2 ^ 32;
        instance_id = (tb.instance_id + 1) % 2 ^ 32;
      })
      else none
]

unfoldable pub clear : Table → Table
clear tb = record { root = leaf; sll = []; count = 0; instance_id = (tb.instance_id + 1) % 2 ^ 32 }

-- A `TblSearch` of a table, with its `c_index1` and `c_index2` as a key.
pub record TblSearch : Type 0 where
  pub seen : ℕ
  pub c_key : Key
  pub current : Option TblItem

abbrev pub is_leaf : Tree → Bool
is_leaf leaf = true
is_leaf (node i b l r) = false

-- The key behind, whose `index1` counts on when `index2` runs over.
unfoldable pub next_key : Key → Key
next_key k =
    if (k.index2 + 1) % 2 ^ 32 == 0
    then record { index1 = (k.index1 + 1) % 2 ^ 32; index2 = 0 }
    else record { index1 = k.index1; index2 = (k.index2 + 1) % 2 ^ 32 }

unfoldable pub seek : Table → Key → TblSearch → TblSearch
seek tb k s =
    let after = next_key k in
    if is_leaf tb.root || after.index1 == 0 && after.index2 == 0
    then record s { c_key = k; current = none }
    else elim (previous after tb.root) [
      | none ↦ record s { c_key = k; current = none }
      | some p ↦ record s { c_key = p.key; current = some p }
    ]

-- The first part of `TblSearch::next`: it finds its place in a table that has changed.
unfoldable pub resync : Table → TblSearch → TblSearch
resync tb s = if s.seen == tb.instance_id then s else elim s.current [
  | none ↦ record s { seen = tb.instance_id }
  | some c ↦ record (seek tb s.c_key s) { seen = tb.instance_id }
]

-- The item taken next, if any.
unfoldable pub advance : List TblItem → TblSearch → Option TblItem × TblSearch
advance [] s = (none, s)
advance (x ∷ xs) s = (some x, record s { c_key = x.key; current = some x })

unfoldable pub next : Table → TblSearch → Option TblItem × TblSearch
next tb s =
    let synced = resync tb s in
    if is_leaf tb.root then (none, s) else advance (rest_after synced.current tb.sll) synced
