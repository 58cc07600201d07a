-- ===== src/Timers/Tick.antt =====
-- THospf/OSPF.cpp: what `tick` fires, when no timer's action touches the queue.
use ospfbasic.Prelude.{
  ℕ, zero, suc, ◌+◌, ◌≡◌, ◌≤◌, refl, sym, ◌∙◌, inl, inr, Bool, true, false, not, List, [], ◌∷◌,
  arith, Bool-cases, All,
}
use ospfbasic.Queue.{Item, Tree, empty, node, size, cmp_cost, gethead, rmhead}
use ospfbasic.Queue.Contents.{one, count}
use ospfbasic.Queue.Least.{IsQueue, rmhead-least}
use ospfbasic.Timers.{Time, time_less, is_due, tick}

abbrev pub count_list : (Item → Bool) → List Item → ℕ
count_list pass [] = 0
count_list pass (t ∷ ts) = one (pass t) + count_list pass ts

-- The action leaves the queue alone.
abbrev pub one_shot : Item → Tree → Tree
one_shot t q = q

-- A timer's time is not after the present one.
abbrev pub has_come : Time → Item → Bool
has_come now t = not (time_less now (record { sec = t.cost0; ms = t.cost1 }))

-- That is how `tick` decides.
is_due-has_come : (now : Time) (t : Item) → is_due now t ≡ has_come now t
unfolding is_due time_less
is_due-has_come now t = ground arith

-- Of a tick: a queue in which no timer's time has come, timers whose time had, and nothing lost or
-- doubled.
pub record Ticked (now : Time) (q : Tree) (r : List Item × Tree) : Type 0 where
  pub left-IsQueue : IsQueue r.1
  pub none_due : count (has_come now) r.1 ≡ 0
  pub fired_due : All (λ t. has_come now t ≡ true) r.0
  pub kept : (pass : Item → Bool) → count_list pass r.0 + count pass r.1 ≡ count pass q

-- No timer is due before the head of the queue is.
due_before :
    (now : Time) (i j : Item) → is_due now i ≡ false → has_come now j ≡ true → cmp_cost j i ≡ true
unfolding is_due time_less cmp_cost
due_before now i j h k = ground arith

count_none :
    (p q : Item → Bool) (t : Tree)
    → ((j : Item) → q j ≡ true → p j ≡ true)
    → count p t ≡ 0
    → count q t ≡ 0
unfolding count
count_none p q empty h k = refl
count_none p q (node i d l r) h k = ground (arith, h i, count_none p q l h, count_none p q r h)

size-count : (t : Tree) → size t ≡ count (λ j. true) t
unfolding size count
size-count empty = refl
size-count (node i d l r) = omega (arith, size-count l, size-count r)

stopped :
    (now : Time) (q : Tree) (i : Item)
    → IsQueue q
    → count (λ j. cmp_cost j i) q ≡ 0
    → is_due now i ≡ false
    → Ticked now q ([], q)
stopped now q i w least h = record {
  left-IsQueue = w;
  none_due = count_none (λ j. cmp_cost j i) (has_come now) q (λ j. due_before now i j h) least;
  fired_due = tt;
  kept = λ pass. omega arith;
}

nothing : (now : Time) → IsQueue empty → Ticked now empty ([], empty)
unfolding count
nothing now w = record {
  left-IsQueue = w;
  none_due = refl;
  fired_due = tt;
  kept = λ pass. omega arith;
}

-- `rmhead` at an element.
headed :
    (i : Item) (d : ℕ) (l r : Tree)
    → IsQueue (node i d l r)
    → (let rest : Tree = (rmhead (node i d l r)).1 in
        IsQueue rest
        × ((pass : Item → Bool) → one (pass i) + count pass rest ≡ count pass (node i d l r))
        × (count (λ j. cmp_cost j i) (node i d l r) ≡ 0))
unfolding rmhead
headed i d l r w = rmhead-least (node i d l r) w

headed-size :
    (i : Item) (d : ℕ) (l r : Tree)
    → IsQueue (node i d l r)
    → suc (size (rmhead (node i d l r)).1) ≡ size (node i d l r)
headed-size i d l r w = omega (
  arith,
  size-count (node i d l r),
  size-count (rmhead (node i d l r)).1,
  (headed i d l r w).1 (λ j. true),
)

fired :
    (now : Time) (i : Item) (d : ℕ) (l r : Tree) (t : List Item × Tree)
    → IsQueue (node i d l r)
    → is_due now i ≡ true
    → Ticked now (rmhead (node i d l r)).1 t
    → Ticked now (node i d l r) (i ∷ t.0, t.1)
fired now i d l r t w h k = record {
  left-IsQueue = k.left-IsQueue;
  none_due = k.none_due;
  fired_due = (sym (is_due-has_come now i) ∙ h, k.fired_due);
  kept = λ pass. omega (arith, k.kept pass, (headed i d l r w).1 pass);
}

-- With fuel for every element, `tick` on a queue of timers whose actions leave the queue alone
-- fires timers whose time has come and leaves a queue of all others, in which no timer's time has.
pub tick-Ticked :
    (fuel : ℕ) (now : Time) (q : Tree)
    → size q ≤ fuel
    → IsQueue q
    → Ticked now q (tick one_shot fuel now q)
unfolding tick gethead size
tick-Ticked zero now empty f w = nothing now w
tick-Ticked zero now (node i d l r) f w = absurd (omega (arith, f))
tick-Ticked (suc fuel) now empty f w = nothing now w
tick-Ticked (suc fuel) now (node i d l r) f w =
    let h = headed i d l r w in
    let smaller : size (rmhead (node i d l r)).1 ≤ fuel = omega (arith, f, headed-size i d l r w) in
    elim (Bool-cases (is_due now i)) [
      | inl e ↦
          rw (e, tick)
            (fired now i d l r _ w e (tick-Ticked fuel now (rmhead (node i d l r)).1 smaller h.0))
      | inr e ↦ rw (e, tick) (stopped now (node i d l r) i w h.2 e)
    ]
