-- ===== src/Table.antt =====
-- THospf/Table.h and THospf/Table.cpp: the balanced tree of items under two keys, with the list of
-- its items in order. Trees and the list are values here; an item is told by its keys, which the
-- tree holds once. A shift of a tree that lacks the nodes it reads leaves the tree.
pub mod Order
pub mod Shifts
pub mod Elements
pub mod Heights
pub mod Raised
pub mod Lower
pub mod Items
pub mod Previous
pub mod Chain
pub mod Cuts
pub mod Kept
pub mod Represents
pub mod Refines
pub mod Above
pub mod Search
pub mod Depth
mod Tests
use ospfbasic.Prelude.{
  ℕ, zero, suc, ◌+◌, ◌-◌, ◌%◌, ◌^◌, Bool, true, false, not, ◌&&◌, ◌||◌, List, [], ◌∷◌, Option, none,
  some, ltb, ◌==◌, if◌then◌else◌, ℤ, pos, negsuc, increment, decrement,
}

pub record Key : Type 0 where
  pub index1 : ℕ
  pub index2 : ℕ

-- A `TblItem`: its keys and the object that it is part of.
pub record TblItem : Type 0 where
  pub key : Key
  pub elt : ℕ

-- An item with its `balance`, `left` and `right`.
pub data Tree : Type 0 where
  leaf : Tree
  node : TblItem → ℤ → Tree → Tree → Tree

-- Where the searches go from a node.
pub data Way : Type 0 where
  to_left here to_right : Way

unfoldable pub way : Key → Key → Way
way k n =
    if ltb n.index1 k.index1
    then to_right
    else if ltb k.index1 n.index1
    then to_left
    else if ltb n.index2 k.index2
    then to_right
    else if ltb k.index2 n.index2
    then to_left
    else here

-- `Table::find`.
unfoldable pub find : Key → Tree → Option TblItem
find k leaf = none
find k (node i b l r) = elim (way k i.key) [
  | to_left ↦ find k l
  | here ↦ some i
  | to_right ↦ find k r
]

-- The loop of `Table::previous`, with `last_right`.
unfoldable pub floor : Key → Tree → Option TblItem → Option TblItem
floor k leaf last_right = last_right
floor k (node i b l r) last_right =
    let on_right = floor k r (some i) in
    let on_left = floor k l last_right in
    if ltb i.key.index1 k.index1 || k.index1 == i.key.index1 && ltb i.key.index2 k.index2
    then on_right
    else if ltb k.index1 i.key.index1 || ltb k.index2 i.key.index2
    then on_left
    else some i

unfoldable pub previous : Key → Tree → Option TblItem
previous k t =
    if k.index1 == 0 && k.index2 == 0
    then none
    else if not (k.index2 == 0)
    then floor (record { index1 = k.index1; index2 = k.index2 - 1 }) t none
    else floor (record { index1 = k.index1 - 1; index2 = 2 ^ 32 - 1 }) t none

abbrev pub balance : Tree → ℤ
balance leaf = pos 0
balance (node i b l r) = b

-- `left_shift`, `dbl_left_shift` and their mirror images.
unfoldable pub left_shift : Tree → Tree
left_shift (node b bb lb (node c (pos (suc zero)) lc rc)) = node c (pos 0) (node b (pos 0) lb lc) rc
left_shift (node b bb lb (node c bc lc rc)) = node c (negsuc 0) (node b (pos 1) lb lc) rc
left_shift t = t

unfoldable pub right_shift : Tree → Tree
right_shift (node c bc (node b (negsuc zero) lb rb) rc) = node b (pos 0) lb (node c (pos 0) rb rc)
right_shift (node c bc (node b bb lb rb) rc) = node b (pos 1) lb (node c (negsuc 0) rb rc)
right_shift t = t

unfoldable pub dbl_left_shift : Tree → Tree
dbl_left_shift (node b bb lb (node d bd (node c (negsuc zero) lc rc) rd)) =
    node c (pos 0) (node b (pos 0) lb lc) (node d (pos 1) rc rd)
dbl_left_shift (node b bb lb (node d bd (node c (pos (suc zero)) lc rc) rd)) =
    node c (pos 0) (node b (negsuc 0) lb lc) (node d (pos 0) rc rd)
dbl_left_shift (node b bb lb (node d bd (node c bc lc rc) rd)) =
    node c (pos 0) (node b (pos 0) lb lc) (node d (pos 0) rc rd)
dbl_left_shift t = t

unfoldable pub dbl_right_shift : Tree → Tree
dbl_right_shift (node d bd (node b bb lb (node c (pos (suc zero)) lc rc)) rd) =
    node c (pos 0) (node b (negsuc 0) lb lc) (node d (pos 0) rc rd)
dbl_right_shift (node d bd (node b bb lb (node c (negsuc zero) lc rc)) rd) =
    node c (pos 0) (node b (pos 0) lb lc) (node d (pos 1) rc rd)
dbl_right_shift (node d bd (node b bb lb (node c bc lc rc)) rd) =
    node c (pos 0) (node b (pos 0) lb lc) (node d (pos 0) rc rd)
dbl_right_shift t = t

-- The shifts at the end of `Table::add`.
unfoldable pub shift : Tree → Tree
shift (node i (pos (suc (suc zero))) l (node j (negsuc zero) k s)) =
    dbl_left_shift (node i (pos 2) l (node j (negsuc 0) k s))
shift (node i (pos (suc (suc zero))) l r) = left_shift (node i (pos 2) l r)
shift (node i (negsuc (suc zero)) (node j (pos (suc zero)) k s) r) =
    dbl_right_shift (node i (negsuc 1) (node j (pos 1) k s) r)
shift (node i (negsuc (suc zero)) l r) = right_shift (node i (negsuc 1) l r)
shift t = t

-- `Table::add` from the balance point on: the item is put in place and the factors on the way to
-- it are changed.
unfoldable pub insert_below : TblItem → Tree → Tree
insert_below item leaf = node item (pos 0) leaf leaf
insert_below item (node i b l r) = elim (way item.key i.key) [
  | to_left ↦ node i (decrement b) (insert_below item l) r
  | here ↦ node i b l r
  | to_right ↦ node i (increment b) l (insert_below item r)
]

abbrev pub is_even : ℤ → Bool
is_even (pos zero) = true
is_even _ = false

-- Whether a node on the way has a balance other than zero, so that the balance point lies there.
unfoldable pub has_point : Key → Tree → Bool
has_point k leaf = false
has_point k (node i b l r) =
    let on_left = has_point k l in
    let on_right = has_point k r in
    if not (is_even b)
    then true
    else elim (way k i.key) [ to_left ↦ on_left | here ↦ false | to_right ↦ on_right ]

-- `Table::add` of an item with new keys: down to the balance point, which is the last such node or
-- the root.
unfoldable pub add_new : TblItem → Tree → Tree
add_new item leaf = node item (pos 0) leaf leaf
add_new item (node i b l r) =
    let on_left = add_new item l in
    let on_right = add_new item r in
    elim (way item.key i.key) [
      | to_left ↦
          if has_point item.key l
          then node i b on_left r
          else shift (insert_below item (node i b l r))
      | here ↦ node i b l r
      | to_right ↦
          if has_point item.key r
          then node i b l on_right
          else shift (insert_below item (node i b l r))
    ]

-- `Table::add` where an item with the keys stands already.
unfoldable pub replace : TblItem → Tree → Tree
replace item leaf = leaf
replace item (node i b l r) = elim (way item.key i.key) [
  | to_left ↦ node i b (replace item l) r
  | here ↦ node item b l r
  | to_right ↦ node i b l (replace item r)
]

-- One round of the way back of `Table::remove`, below which the tree has become less high: the
-- tree, and whether it has become less high too.
unfoldable pub readjust : Tree → Tree × Bool
readjust (node i (pos zero) l r) = (node i (pos 0) l r, true)
readjust (node i (pos (suc (suc zero))) l (node j (negsuc zero) k s)) =
    (dbl_left_shift (node i (pos 2) l (node j (negsuc 0) k s)), true)
readjust (node i (pos (suc (suc zero))) l (node j (pos (suc zero)) k s)) =
    (left_shift (node i (pos 2) l (node j (pos 1) k s)), true)
readjust (node i (pos (suc (suc zero))) l r) = (left_shift (node i (pos 2) l r), false)
readjust (node i (negsuc (suc zero)) (node j (pos (suc zero)) k s) r) =
    (dbl_right_shift (node i (negsuc 1) (node j (pos 1) k s) r), true)
readjust (node i (negsuc (suc zero)) (node j (negsuc zero) k s) r) =
    (right_shift (node i (negsuc 1) (node j (negsuc 0) k s) r), true)
readjust (node i (negsuc (suc zero)) l r) = (right_shift (node i (negsuc 1) l r), false)
readjust t = (t, false)

-- The round at a node whose left or right tree is new.
unfoldable pub back_left : TblItem → ℤ → Tree × Bool → Tree → Tree × Bool
back_left i b (l, true) r = readjust (node i (increment b) l r)
back_left i b (l, false) r = (node i b l r, false)

unfoldable pub back_right : TblItem → ℤ → Tree → Tree × Bool → Tree × Bool
back_right i b l (r, true) = readjust (node i (decrement b) l r)
back_right i b l (r, false) = (node i b l r, false)

-- The item in front of the one removed: the last of its left tree, which is `node i b l r`.
unfoldable pub remove_last : TblItem → ℤ → Tree → Tree → TblItem × (Tree × Bool)
remove_last i b l leaf = (i, (l, true))
remove_last i b l (node j c k s) =
    let rest = remove_last j c k s in (rest.0, back_right i b l rest.1)

-- The item's own node.
unfoldable pub unlink_item : TblItem → ℤ → Tree → Tree → Tree × Bool
unlink_item i b l leaf = (l, true)
unlink_item i b leaf r = (r, true)
unlink_item i b (node j c k s) r = let rest = remove_last j c k s in back_left rest.0 b rest.1 r

-- `Table::remove` on the tree.
unfoldable pub remove_from : Key → Tree → Tree × Bool
remove_from k leaf = (leaf, false)
remove_from k (node i b l r) = elim (way k i.key) [
  | to_left ↦ back_left i b (remove_from k l) r
  | here ↦ unlink_item i b l r
  | to_right ↦ back_right i b l (remove_from k r)
]
