-- ===== src/Queue/Least.antt =====
-- THospf/Queue.cpp: the head of the queue comes before all other elements or is no later.
use ospfbasic.Prelude.{
  ℕ, zero, suc, ◌+◌, ◌≡◌, refl, inl, inr, Bool, true, false, List, [], ◌∷◌, Option, none, some,
  arith, ltb, Bool-cases,
}
use ospfbasic.Queue.{
  Item, Tree, empty, node, size, cmp_cost, settle, splice, combine, add, rmhead, Side, to_left,
  to_right, settle_up, del_at, del, item_at,
}
use ospfbasic.Queue.Order.{cmp_cost_irrefl, cmp_cost-asym, cmp_cost_trans}
use ospfbasic.Queue.Contents.{one, count, combine-count, add-count, del-count}
use ospfbasic.Queue.Shape.{IsLeftist, combine-IsLeftist, del-IsLeftist}

-- The root of a tree does not come before an element.
abbrev pub Below : Item → Tree → Type 0
Below i empty = Unit {0}
Below i (node j d l r) = cmp_cost j i ≡ false

abbrev pub IsHeap : Tree → Type 0
IsHeap empty = Unit {0}
IsHeap (node i d l r) = Below i l × Below i r × IsHeap l × IsHeap r

settle-Below : (p i : Item) (l r : Tree) → cmp_cost i p ≡ false → Below p (settle i l r)
unfolding settle
settle-Below p i l empty h = h
settle-Below p i empty (node j e m s) h = h
settle-Below p i (node g d l r) (node j e m s) h = ground (arith, h)

settle-IsHeap :
    (i : Item) (l r : Tree) → Below i l → Below i r → IsHeap l → IsHeap r → IsHeap (settle i l r)
unfolding settle
settle-IsHeap i l empty a b h k = (a, tt, h, tt)
settle-IsHeap i empty (node j e m s) a b h k = (b, tt, k, tt)
settle-IsHeap i (node g d l r) (node j e m s) a b h k = elim (Bool-cases (ltb d e)) [
  | inl c ↦ rw c (b, a, k, h)
  | inr c ↦ rw c (a, b, h, k)
]

splice-Below : (f : ℕ) (p : Item) (x y : Tree) → Below p x → Below p y → Below p (splice f x y)
unfolding splice
splice-Below zero p x y h k = k
splice-Below (suc f) p empty y h k = k
splice-Below (suc f) p (node i d l r) empty h k = h
splice-Below (suc f) p (node i d l r) (node j e m s) h k = elim (Bool-cases (cmp_cost j i)) [
  | inl c ↦ rw (c, splice) (settle-Below p j m _ k)
  | inr c ↦ rw (c, splice) (settle-Below p i l _ h)
]

splice-IsHeap : (f : ℕ) (x y : Tree) → IsHeap x → IsHeap y → IsHeap (splice f x y)
unfolding splice
splice-IsHeap zero x y h k = k
splice-IsHeap (suc f) empty y h k = k
splice-IsHeap (suc f) (node i d l r) empty h k = h
splice-IsHeap (suc f) (node i d l r) (node j e m s) h k = elim (Bool-cases (cmp_cost j i)) [
  | inl c ↦
      rw (c, splice)
        (settle-IsHeap j m _ k.0 (splice-Below f j s (node i d l r) k.1 (cmp_cost-asym j i c)) k.2
          (splice-IsHeap f s (node i d l r) k.3 h))
  | inr c ↦
      rw (c, splice)
        (settle-IsHeap i l _ h.0 (splice-Below f i r (node j e m s) h.1 c) h.2
          (splice-IsHeap f r (node j e m s) h.3 k))
]

-- `combine` keeps the order along the branches.
pub combine-IsHeap : (a b : Tree) → IsHeap a → IsHeap b → IsHeap (combine a b)
unfolding combine
combine-IsHeap a empty h k = h
combine-IsHeap empty (node j e m s) h k = k
combine-IsHeap (node i d l r) (node j e m s) h k = elim (Bool-cases (cmp_cost j i)) [
  | inl c ↦
      rw (c, combine)
        (settle-IsHeap j m _ k.0 (splice-Below _ j s (node i d l r) k.1 (cmp_cost-asym j i c)) k.2
          (splice-IsHeap _ s (node i d l r) k.3 h))
  | inr c ↦
      rw (c, combine)
        (settle-IsHeap i l _ h.0 (splice-Below _ i r (node j e m s) h.1 c) h.2
          (splice-IsHeap _ r (node j e m s) h.3 k))
]

combine-Below : (p : Item) (a b : Tree) → Below p a → Below p b → Below p (combine a b)
unfolding combine
combine-Below p a empty h k = h
combine-Below p empty (node j e m s) h k = k
combine-Below p (node i d l r) (node j e m s) h k = elim (Bool-cases (cmp_cost j i)) [
  | inl c ↦ rw (c, combine) (settle-Below p j m _ k)
  | inr c ↦ rw (c, combine) (settle-Below p i l _ h)
]

Below-trans : (p i : Item) (u : Tree) → cmp_cost i p ≡ false → Below i u → Below p u
Below-trans p i empty b c = tt
Below-trans p i (node j e m s) b c = cmp_cost_trans p i j b c

-- No element of a heap comes before one that its root does not come before.
no_earlier : (p : Item) (t : Tree) → IsHeap t → Below p t → count (λ j. cmp_cost j p) t ≡ 0
unfolding count
no_earlier p empty h b = refl
no_earlier p (node i d l r) h b = rw b (
    omega (
      arith,
      no_earlier p l h.2 (Below-trans p i l b h.0),
      no_earlier p r h.3 (Below-trans p i r b h.1),
    ))

-- A queue that `combine`, `add`, `del` and `rmhead` have made.
pub record IsQueue (t : Tree) : Type 0 where
  pub leftist : IsLeftist t
  pub heap : IsHeap t

-- `add` makes a queue of a queue, with the one element more.
pub add-inserts :
    (i : Item) (t : Tree)
    → IsQueue t
    → IsQueue (add i t)
      × ((pass : Item → Bool) → count pass (add i t) ≡ count pass t + one (pass i))
unfolding add
add-inserts i t q = (
  record {
    leftist = combine-IsLeftist t (node i 1 empty empty) q.leftist (omega arith, refl, tt, tt);
    heap = combine-IsHeap t (node i 1 empty empty) q.heap (tt, tt, tt, tt);
  },
  λ pass. add-count pass i t,
)

settle_up-Below :
    (p i : Item) (d : ℕ) (l r : Tree) (up : Bool)
    → cmp_cost i p ≡ false
    → Below p (settle_up i d l r up).0
unfolding settle_up
settle_up-Below p i d l r false h = h
settle_up-Below p i d l r true h = settle-Below p i l r h

settle_up-IsHeap :
    (i : Item) (d : ℕ) (l r : Tree) (up : Bool)
    → Below i l
    → Below i r
    → IsHeap l
    → IsHeap r
    → IsHeap (settle_up i d l r up).0
unfolding settle_up
settle_up-IsHeap i d l r false a b h k = (a, b, h, k)
settle_up-IsHeap i d l r true a b h k = settle-IsHeap i l r a b h k

del_at-Below :
    (p : Item) (ss : List Side) (t : Tree) → IsHeap t → Below p t → Below p (del_at ss t).0
unfolding del_at
del_at-Below p ss empty h b = tt
del_at-Below p [] (node i d l r) h b =
    combine-Below p r l (Below-trans p i r b h.1) (Below-trans p i l b h.0)
del_at-Below p (to_left ∷ ss) (node i d l r) h b = settle_up-Below p i d _ r _ b
del_at-Below p (to_right ∷ ss) (node i d l r) h b = settle_up-Below p i d l _ _ b

del_at-IsHeap : (ss : List Side) (t : Tree) → IsHeap t → IsHeap (del_at ss t).0
unfolding del_at
del_at-IsHeap ss empty h = tt
del_at-IsHeap [] (node i d l r) h = combine-IsHeap r l h.3 h.2
del_at-IsHeap (to_left ∷ ss) (node i d l r) h =
    settle_up-IsHeap i d _ r _ (del_at-Below i ss l h.2 h.0) h.1 (del_at-IsHeap ss l h.2) h.3
del_at-IsHeap (to_right ∷ ss) (node i d l r) h =
    settle_up-IsHeap i d l _ _ h.0 (del_at-Below i ss r h.3 h.1) h.2 (del_at-IsHeap ss r h.3)

-- `del` of an element of a queue leaves a queue of all the others, though `adjust` breaks off
-- where `dist` stays.
pub del-removes :
    (ss : List Side) (t : Tree) (i : Item)
    → item_at ss t ≡ some i
    → IsQueue t
    → IsQueue (del ss t)
      × ((pass : Item → Bool) → count pass (del ss t) + one (pass i) ≡ count pass t)
unfolding del
del-removes ss t i e q = (
  record { leftist = del-IsLeftist ss t q.leftist; heap = del_at-IsHeap ss t q.heap },
  λ pass. del-count pass ss t i e,
)

-- What `rmhead` gives back for a queue: with an empty queue, nothing; else an element that no
-- element comes before, and a queue of the other elements.
abbrev pub TakesLeast : Tree → Option Item × Tree → Type 0
TakesLeast t (none, rest) = (size t ≡ 0) × (rest ≡ empty)
TakesLeast t (some i, rest) =
    IsQueue rest
    × ((pass : Item → Bool) → one (pass i) + count pass rest ≡ count pass t)
    × (count (λ j. cmp_cost j i) t ≡ 0)

-- `rmhead` takes a first element out of a queue, and leaves a queue of the others.
pub rmhead-least : (t : Tree) → IsQueue t → TakesLeast t (rmhead t)
unfolding rmhead size count
rmhead-least empty q = (refl, refl)
rmhead-least (node i d l r) q = (
  record {
    leftist = combine-IsLeftist l r q.leftist.2 q.leftist.3;
    heap = combine-IsHeap l r q.heap.2 q.heap.3;
  },
  λ pass. omega (arith, combine-count pass l r),
  no_earlier i (node i d l r) q.heap (cmp_cost_irrefl i),
)
