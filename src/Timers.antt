-- ===== src/Timers.antt =====
-- THospf/Timer.h and THospf/Timer.cpp: times and how timers are put into the queue;
-- THospf/OSPF.cpp: `OSPF::tick` and `OSPF::timeout`. The value of `random_period` and what the
-- action of a timer does to the queue are parameters.
pub mod Clock
pub mod Tick
mod Tests
use ospfbasic.Prelude.{
  ℕ, zero, suc, ◌+◌, ◌-◌, ◌*◌, ◌/◌, ◌%◌, ◌^◌, Bool, true, false, not, ◌&&◌, ◌||◌, List, [], ◌∷◌,
  Option, none, some, ltb, leb, ◌==◌, if◌then◌else◌, ℤ, pos, negsuc,
}
use ospfbasic.Queue.{Item, Tree, add, gethead, rmhead}

-- `SPFtime`; both fields are `uns32`.
pub record Time : Type 0 where
  pub sec : ℕ
  pub ms : ℕ

unfoldable pub time_less : Time → Time → Bool
time_less a b = ltb a.sec b.sec || a.sec == b.sec && ltb a.ms b.ms

unfoldable pub time_equal : Time → Time → Bool
time_equal a b = a.sec == b.sec && a.ms == b.ms

-- `time_add` of two times, and of a time and milliseconds.
unfoldable pub time_add : Time → Time → Time
time_add a b =
    let ms = (a.ms + b.ms) % 2 ^ 32 in
    record { sec = (a.sec + b.sec + ms / 1000) % 2 ^ 32; ms = ms % 1000 }

unfoldable pub time_add_ms : Time → ℕ → Time
time_add_ms a milliseconds =
    let ms = (a.ms + milliseconds) % 2 ^ 32 in
    record { sec = (a.sec + ms / 1000) % 2 ^ 32; ms = ms % 1000 }

-- The `int` with the same 32 bits.
abbrev pub to_int : ℕ → ℤ
to_int w = if ltb w (2 ^ 31) then pos w else negsuc (2 ^ 32 - 1 - w)

unfoldable pub time_diff : Time → Time → ℤ
time_diff a b = to_int ((((a.sec + (2 ^ 32 - b.sec)) * 1000) + (a.ms + (2 ^ 32 - b.ms))) % 2 ^ 32)

-- `Timer::start` on a timer that does not run; `random` is `random_period(1000)`. A period is an
-- `int` and no shorter than 500 milliseconds where `random - 500` is added.
unfoldable pub delay : ℕ → ℕ → Bool → ℕ
delay random ms ran = if ran && leb 1000 ms then ms + random - 500 else ms

unfoldable pub start_timer : Time → ℕ → ℕ → Bool → Item → Tree → Tree
start_timer now random ms ran t q =
    let d = delay random ms ran in
    let etime = time_add now (record { sec = d / 1000; ms = d % 1000 }) in
    add (record t { cost0 = etime.sec; cost1 = etime.ms }) q

-- `ITimer::start`; `random` is `random_period(period)`.
unfoldable pub start_itimer : Time → ℕ → ℕ → Bool → Item → Tree → Tree
start_itimer now random ms ran t q =
    let etime = time_add_ms now (if ran then random + 1 else ms) in
    add (record t { cost0 = etime.sec; cost1 = etime.ms }) q

-- `ITimer::fire` up to its action: it is due again a period after it was due.
unfoldable pub refire : ℕ → Item → Tree → Tree
refire period t q =
    let etime = time_add_ms (record { sec = t.cost0; ms = t.cost1 }) period in
    add (record t { cost0 = etime.sec; cost1 = etime.ms }) q

-- Whether `tick` takes the head.
unfoldable pub is_due : Time → Item → Bool
is_due now t = if ltb now.sec t.cost0 then false else not (t.cost0 == now.sec && ltb now.ms t.cost1)

-- `OSPF::tick`: the timers fired, in order, and the queue afterwards, if the fuel lasts.
unfoldable pub tick : (Item → Tree → Tree) → ℕ → Time → Tree → List Item × Tree
tick fire zero now q = ([], q)
tick fire (suc fuel) now q = elim (gethead q) [
  | none ↦ ([], q)
  | some t ↦
      (let rest = tick fire fuel now (fire t (rmhead q).1) in
        if is_due now t then (t ∷ rest.0, rest.1) else ([], q))
]

-- `OSPF::timeout`.
unfoldable pub timeout : Time → Tree → ℤ
timeout now q = elim (gethead q) [
  | none ↦ negsuc 0
  | some t ↦
      (let wakeup_time : Time = record { sec = t.cost0; ms = t.cost1 } in
        if time_less wakeup_time now then pos 0 else time_diff wakeup_time now)
]
