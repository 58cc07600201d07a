-- ===== src/Queue.antt =====
-- THospf/Queue.h and THospf/Queue.cpp: the priority queue of timers and of the candidates of the
-- shortest path calculation, a tree in which the nearer leaf lies to the right. Trees are values
-- here: the `parent` of an element is where it stands, and `del` gets the way to it from the root.
-- `dist` is an `uns32`; Shape is about how small it stays.
pub mod Order
pub mod Contents
pub mod Shape
pub mod Least
pub mod Bounds
mod Tests
use ospfbasic.Prelude.{
  ℕ, zero, suc, ◌+◌, Bool, true, false, not, List, [], ◌∷◌, Option, none, some, ltb, ◌==◌,
  if◌then◌else◌,
}

-- What the order looks at in a `Q_Elt`, and the object that it is part of.
pub record Item : Type 0 where
  pub elt : ℕ
  pub cost0 : ℕ
  pub cost1 : ℕ
  pub tie1 : ℕ
  pub tie2 : ℕ

-- `Q_Elt::cmp_cost`.
unfoldable pub cmp_cost : Item → Item → Bool
cmp_cost a b =
    if ltb a.cost0 b.cost0
    then true
    else if ltb b.cost0 a.cost0
    then false
    else if ltb a.cost1 b.cost1
    then true
    else if ltb b.cost1 a.cost1
    then false
    else if ltb b.tie1 a.tie1
    then true
    else if ltb a.tie1 b.tie1
    then false
    else ltb b.tie2 a.tie2

-- An element with its `dist`, `left` and `right`.
pub data Tree : Type 0 where
  empty : Tree
  node : Item → ℕ → Tree → Tree → Tree

abbrev pub dist : Tree → ℕ
dist empty = 0
dist (node i d l r) = d

unfoldable pub size : Tree → ℕ
size empty = 0
size (node i d l r) = suc (size l + size r)

-- One round of `Queue::adjust`.
unfoldable pub settle : Item → Tree → Tree → Tree
settle i l empty = node i 1 l empty
settle i empty r = node i 1 r empty
settle i l r = if ltb (dist l) (dist r) then node i (dist l + 1) r l else node i (dist r + 1) l r

-- The loop of `Queue::combine` below a `parent`, with `adjust` on its way back. The fuel is the
-- number of elements; without any left, `x` is empty.
unfoldable pub splice : ℕ → Tree → Tree → Tree
splice zero x y = y
splice (suc fuel) empty y = y
splice (suc fuel) (node i d l r) empty = node i d l r
splice (suc fuel) (node i d l r) (node j e k s) =
    let hung = splice fuel s (node i d l r) in
    let kept = splice fuel r (node j e k s) in
    if cmp_cost j i then settle j k hung else settle i l kept

-- `Queue::combine`: the tree of `this` and that of `q`.
unfoldable pub combine : Tree → Tree → Tree
combine root empty = root
combine empty q = q
combine (node i d l r) (node j e k s) =
    let fuel = size (node i d l r) + size (node j e k s) in
    if cmp_cost j i
    then settle j k (splice fuel s (node i d l r))
    else settle i l (splice fuel r (node j e k s))

-- `Queue::add`.
unfoldable pub add : Item → Tree → Tree
add item root = combine root (node item 1 empty empty)

-- `Queue::gethead` and `Queue::rmhead`.
unfoldable pub gethead : Tree → Option Item
gethead empty = none
gethead (node i d l r) = some i

unfoldable pub rmhead : Tree → Option Item × Tree
rmhead empty = (none, empty)
rmhead (node i d l r) = (some i, combine l r)

pub data Side : Type 0 where
  to_left to_right : Side

-- `adjust(parent, 1)` at one element: it breaks off when `dist` stays.
unfoldable pub settle_up : Item → ℕ → Tree → Tree → Bool → Tree × Bool
settle_up i d l r false = (node i d l r, false)
settle_up i d l r true = let t = settle i l r in (t, not (dist t == d))

-- `Queue::del`, and whether `adjust` still goes up; a way that leaves the tree removes nothing.
unfoldable pub del_at : List Side → Tree → Tree × Bool
del_at ss empty = (empty, false)
del_at [] (node i d l r) = (combine r l, true)
del_at (to_left ∷ ss) (node i d l r) = let (l', up) = del_at ss l in settle_up i d l' r up
del_at (to_right ∷ ss) (node i d l r) = let (r', up) = del_at ss r in settle_up i d l r' up

unfoldable pub del : List Side → Tree → Tree
del ss root = (del_at ss root).0

unfoldable pub item_at : List Side → Tree → Option Item
item_at ss empty = none
item_at [] (node i d l r) = some i
item_at (to_left ∷ ss) (node i d l r) = item_at ss l
item_at (to_right ∷ ss) (node i d l r) = item_at ss r
