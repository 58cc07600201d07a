-- ===== src/Table/Depth.antt =====
-- THospf/Table.cpp and THospf/Table.h: how much of its `Stack` of `StkSz` entries `remove` fills.
use ospfbasic.Prelude.{
  ℕ, zero, suc, ◌+◌, ◌≡◌, ◌<◌, ◌≤◌, refl, ap, subst, inl, inr, ◌⊎◌, List, ◌∷◌, arith, length,
  length-append, ℤ, pos, negsuc, ◌-◌, ◌≢◌, ◌==◌, if◌then◌else◌, Bool-cases, Option, none, some, sym,
}
use ospfbasic.Table.{TblItem, Tree, leaf, node, find, way, to_left, here, to_right}
use ospfbasic.Table.Order.{way-cases}
use ospfbasic.Table.Shifts.{elements}
use ospfbasic.Table.Heights.{Avl, flat, level, right_heavy, left_heavy}
use ospfbasic.Table.Items.{Table}
use ospfbasic.Table.Represents.{Represents}

abbrev pub stk_sz : ℕ
stk_sz = 32

-- The way to the last item of a tree.
unfoldable pub right_pushes : Tree → ℕ
right_pushes leaf = 0
right_pushes (node i b l leaf) = 0
right_pushes (node i b l (node j c k s)) = suc (right_pushes (node j c k s))

-- At the item's own node.
unfoldable pub own_pushes : Tree → Tree → ℕ
own_pushes l leaf = 0
own_pushes leaf r = 0
own_pushes l r = suc (right_pushes l)

abbrev pub pushed : Option ℕ → Option ℕ
pushed none = none
pushed (some n) = some (suc n)

-- `remove`'s calls of `push`; `none` where it pushes without end, at another object with the keys of
-- the item.
unfoldable pub pushes : TblItem → Tree → Option ℕ
pushes item leaf = some 0
pushes item (node i b l r) =
    let left = pushed (pushes item l) in
    let right = pushed (pushes item r) in
    if i.elt == item.elt
    then some (own_pushes l r)
    else elim (way item.key i.key) [ to_left ↦ left | here ↦ none | to_right ↦ right ]

right_pushes-Avl : (t : Tree) (n : ℕ) → Avl t n → right_pushes t ≤ n
unfolding right_pushes
right_pushes-Avl leaf n a = omega arith
right_pushes-Avl (node i b l leaf) n a = omega arith
right_pushes-Avl (node i b l (node j c k s)) n (level x y) =
    let h = right_pushes-Avl (node j c k s) _ y in omega arith
right_pushes-Avl (node i b l (node j c k s)) n (right_heavy x y) =
    let h = right_pushes-Avl (node j c k s) _ y in omega arith
right_pushes-Avl (node i b l (node j c k s)) n (left_heavy x y) =
    let h = right_pushes-Avl (node j c k s) _ y in omega arith

own_pushes-le : (l r : Tree) (n : ℕ) → (right_pushes l ≤ n) → own_pushes l r ≤ suc n
unfolding own_pushes
own_pushes-le l leaf n h = omega arith
own_pushes-le leaf (node j c k s) n h = omega arith
own_pushes-le (node i b l r) (node j c k s) n h = omega arith

-- Either another object has the keys of the item, or the pushes are at most so many.
abbrev pub PushesUpTo : ℕ → TblItem → Tree → Type 0
PushesUpTo n item t =
    ((j : TblItem) × (find item.key t ≡ some j) × (j.elt ≢ item.elt))
    ⊎ ((c : ℕ) × (pushes item t ≡ some c) × (c ≤ n))

one_more :
    (m n : ℕ) (o : Option ℕ)
    → suc m ≤ n
    → (c : ℕ) × (o ≡ some c) × (c ≤ m)
    → (c : ℕ) × (pushed o ≡ some c) × (c ≤ n)
one_more m n o h (c, e, k) = (suc c, rw e refl, omega (arith, h, k))

pushes-node :
    (item i : TblItem) (b : ℤ) (l r : Tree) (m k n : ℕ)
    → PushesUpTo m item l
    → PushesUpTo k item r
    → suc m ≤ n
    → suc k ≤ n
    → own_pushes l r ≤ n
    → PushesUpTo n item (node i b l r)
unfolding pushes find
pushes-node item i b l r m k n left right hl hr ho = elim (Bool-cases (i.elt == item.elt)) [
  | inl e ↦ inr (own_pushes l r, rw e refl, ho)
  | inr e ↦ elim (way-cases item.key i.key) [
    | inl (w, h) ↦ elim left [
      | inl (j, f, d) ↦ inl (j, rw (find, w) f, d)
      | inr c ↦ inr (rw (e, w) (one_more m n (pushes item l) hl c))
    ]
    | inr (inl (w, h)) ↦ inl (i, rw (find, w) refl, ground (arith, e))
    | inr (inr (w, h)) ↦ elim right [
      | inl (j, f, d) ↦ inl (j, rw (find, w) f, d)
      | inr c ↦ inr (rw (e, w) (one_more k n (pushes item r) hr c))
    ]
  ]
]

pushes-Avl : (item : TblItem) (t : Tree) (n : ℕ) → Avl t n → PushesUpTo n item t
unfolding pushes
pushes-Avl item t n flat = inr (0, refl, omega arith)
pushes-Avl item t n (level {i} {l} {r} {n = m} x y) =
    pushes-node item i (pos 0) l r m m (suc m) (pushes-Avl item l m x) (pushes-Avl item r m y)
      (omega arith) (omega arith) (own_pushes-le l r m (right_pushes-Avl l m x))
pushes-Avl item t n (right_heavy {i} {l} {r} {n = m} x y) =
    let own = own_pushes-le l r m (right_pushes-Avl l m x) in
    pushes-node item i (pos 1) l r m (suc m) (suc (suc m)) (pushes-Avl item l m x)
      (pushes-Avl item r (suc m) y) (omega arith) (omega arith) (omega (arith, own))
pushes-Avl item t n (left_heavy {i} {l} {r} {n = m} x y) =
    let own = own_pushes-le l r (suc m) (right_pushes-Avl l (suc m) x) in
    pushes-node item i (negsuc 0) l r (suc m) m (suc (suc m)) (pushes-Avl item l (suc m) x)
      (pushes-Avl item r m y) (omega arith) (omega arith) (omega (arith, own))

-- The fewest items of a balanced tree of a height and of the next one.
fewest_two : ℕ → ℕ × ℕ
fewest_two zero = (0, 1)
fewest_two (suc n) = let p = fewest_two n in (p.1, suc (p.0 + p.1))

fewest-rises : (n : ℕ) → ((fewest_two n).0 ≤ (fewest_two n).1)
unfolding fewest_two
fewest-rises zero = omega arith
fewest-rises (suc n) = omega arith

fewest-doubles : (n : ℕ) → ((fewest_two n).1 ≤ suc ((fewest_two n).0 + (fewest_two n).0))
unfolding fewest_two
fewest-doubles zero = omega arith
fewest-doubles (suc n) = omega (arith, fewest-rises n)

length-node :
    (i : TblItem) (b : ℤ) (l r : Tree)
    → length (elements (node i b l r)) ≡ length (elements l) + suc (length (elements r))
unfolding elements
length-node i b l r = length-append (elements l) (i ∷ elements r)

fewest-length : (t : Tree) (n : ℕ) → Avl t n → (fewest_two n).0 ≤ length (elements t)
unfolding fewest_two
fewest-length t n flat = omega arith
fewest-length t n (level {i} {l} {r} {n = m} x y) =
    omega
      (arith, fewest-length l m x, fewest-length r m y, fewest-doubles m, length-node i (pos 0) l r)
fewest-length t n (right_heavy {i} {l} {r} {n = m} x y) =
    omega (arith, fewest-length l m x, fewest-length r (suc m) y, length-node i (pos 1) l r)
fewest-length t n (left_heavy {i} {l} {r} {n = m} x y) =
    omega (arith, fewest-length l (suc m) x, fewest-length r m y, length-node i (negsuc 0) l r)

le_self : (n : ℕ) → n ≤ n
le_self n = omega arith

fewest_mono : (m n : ℕ) → ((fewest_two m).0 ≤ (fewest_two (n + m)).0)
unfolding fewest_two
fewest_mono m zero =
    let e : m ≡ 0 + m = omega arith in
    subst (λ k. (fewest_two m).0 ≤ (fewest_two k).0) e (le_self (fewest_two m).0)
fewest_mono m (suc n) =
    let h = fewest_mono m n in
    let k = fewest-rises (n + m) in
    let e : suc (n + m) ≡ suc n + m = omega arith in
    let g : (fewest_two m).0 ≤ (fewest_two (suc (n + m))).0 = omega arith in
    subst (λ j. (fewest_two m).0 ≤ (fewest_two j).0) e g

fewest_33 : (fewest_two 33).0 ≡ 9227464
unfolding fewest_two
fewest_33 = refl

le-cases : (m n : ℕ) → (m ≤ n) ⊎ (n < m)
le-cases m n = ground arith

low_enough : (r : ℕ) (t : Tree) → Avl t r → length (elements t) < 9227464 → r ≤ stk_sz
low_enough r t a h =
    let many = fewest-length t r a in
    elim (le-cases r 32) [
      | inl low ↦ low
      | inr high ↦
          let more = fewest_mono 33 (r - 33) in
          let e : (r - 33) + 33 ≡ r = omega arith in
          let enough : (fewest_two 33).0 ≤ (fewest_two r).0 =
            subst (λ n. (fewest_two 33).0 ≤ (fewest_two n).0) e more in
          absurd (omega (arith, fewest_33))
    ]

-- In a table that stands for fewer than 9227464 items, `remove` pushes no more than the 32 pointers
-- that its stack holds, for every item in the table and every one whose keys are not in it; only
-- where another object has the keys of the item does it push without end.
pub remove-stack_fits :
    (item : TblItem) (tb : Table) (xs : List TblItem)
    → Represents tb xs
    → (length xs < 9227464)
    → PushesUpTo stk_sz item tb.root
remove-stack_fits item tb xs r h =
    let low =
      low_enough r.height tb.root r.balanced
        (subst (λ n. n < 9227464) (sym (ap length r.tree)) h) in
    elim (pushes-Avl item tb.root r.height r.balanced) [
      | inl j ↦ inl j
      | inr (c, e, k) ↦ inr (c, e, omega (arith, k, low))
    ]
