-- ===== src/Timers/Tests.antt =====
-- Timers in a queue at a time when the first one is due.
use ospfbasic.Prelude.{ℕ, ◌≡◌, ◌≤◌, refl, [], ◌∷◌, arith, pos}
use ospfbasic.Queue.{Item, Tree, empty, node, size, cmp_cost, gethead, rmhead, combine}
use ospfbasic.Queue.Least.{IsQueue}
use ospfbasic.Timers.{Time, time_diff, tick, timeout, is_due, time_less}
use ospfbasic.Timers.Tick.{one_shot, Ticked, tick-Ticked}

abbrev now : Time
now = record { sec = 7; ms = 300 }

abbrev timer : ℕ → ℕ → ℕ → Item
timer k sec ms = record { elt = k; cost0 = sec; cost1 = ms; tie1 = 0; tie2 = 0 }

abbrev two_timers : Tree
two_timers = node (timer 2 7 200) 1 (node (timer 1 9 0) 1 empty empty) empty

two_timers-IsQueue : IsQueue two_timers
unfolding cmp_cost
two_timers-IsQueue = record {
  leftist = (omega arith, refl, (omega arith, refl, tt, tt), tt);
  heap = (refl, tt, (tt, tt, tt, tt), tt);
}

fired : (tick one_shot 2 now two_timers).0 ≡ timer 2 7 200 ∷ []
unfolding tick gethead rmhead combine is_due
fired = refl

sleeps : timeout now (node (timer 1 9 0) 1 empty empty) ≡ pos 1700
unfolding timeout gethead time_less time_diff
sleeps = refl

enough : size two_timers ≤ 2
unfolding size
enough = omega arith

tick-Ticked_example : Ticked now two_timers (tick one_shot 2 now two_timers)
tick-Ticked_example = tick-Ticked 2 now two_timers enough two_timers-IsQueue
