-- ===== src/Timers/Clock.antt =====
-- THospf/Timer.cpp: the arithmetic of times.
use ospfbasic.Prelude.{ℕ, ◌+◌, ◌-◌, ◌*◌, ◌%◌, ◌^◌, ◌≡◌, ◌≤◌, ◌<◌, Bool, arith, ltb, pos, ap, ◌∙◌}
use ospfbasic.Timers.{Time, time_less, time_add_ms, time_diff, to_int, delay}

-- A time as milliseconds.
abbrev pub millis : Time → ℕ
millis t = t.sec * 1000 + t.ms

-- Milliseconds stay below a second.
abbrev pub IsTime : Time → Type 0
IsTime t = (t.sec < 2 ^ 32) × (t.ms < 1000)

-- Adding milliseconds adds them and leaves a time, as long as the seconds fit 32 bits.
pub millis-time_add_ms :
    (t : Time) (n : ℕ)
    → IsTime t
    → n < 2 ^ 31
    → t.sec + 2 ^ 22 < 2 ^ 32
    → IsTime (time_add_ms t n) × (millis (time_add_ms t n) ≡ millis t + n)
unfolding time_add_ms
millis-time_add_ms t n h k room = ((omega arith, omega arith), omega (arith, h.0, h.1, k, room))

-- The time less is the one with fewer milliseconds.
pub time_less-millis :
    (a b : Time) → IsTime a → IsTime b → time_less a b ≡ ltb (millis a) (millis b)
unfolding time_less
time_less-millis a b h k = ground arith

-- `time_diff` of two times less than 2 ^ 31 milliseconds apart is their distance.
pub time_diff-millis :
    (a b : Time) (d : ℕ)
    → IsTime a
    → IsTime b
    → d < 2 ^ 31
    → millis a ≡ millis b + d
    → time_diff a b ≡ pos d
unfolding time_diff
time_diff-millis a b d h k m e = ap to_int (wrapped a b d h k m e) ∙ in_range d m
  where
    in_range : (d : ℕ) → d < 2 ^ 31 → to_int d ≡ pos d
    in_range d m = ground arith

    wrapped :
        (a b : Time) (d : ℕ)
        → IsTime a
        → IsTime b
        → d < 2 ^ 31
        → millis a ≡ millis b + d
        → (((a.sec + (2 ^ 32 - b.sec)) * 1000) + (a.ms + (2 ^ 32 - b.ms))) % 2 ^ 32 ≡ d
    wrapped a b d h k m e = omega (arith, h.0, h.1, k.0, k.1, m, e)

-- A timer is due at most half a second before and less than half a second after its period.
pub delay_near :
    (random ms : ℕ) (ran : Bool)
    → random < 1000
    → (ms ≤ delay random ms ran + 500) × (delay random ms ran < ms + 500)
unfolding delay
delay_near random ms ran h = ground arith
