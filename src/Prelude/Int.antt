-- ===== src/Prelude/Int.antt =====
-- A signed counter: the integers with their successor and predecessor. Counters of the program
-- are `int` and are never near its bounds.
use Prim.Native.Nat.{ℕ, zero, suc, ◌≤◌}
use mathlib.Core.Path.{◌≡◌, refl, sym, ap, ◌∙◌}
use mathlib.Core.Bool.{Bool, true, false}
use native.Mathlib.Omega.{arith}
use ospfbasic.Prelude.Tests.{ltb}

-- `negsuc n` is -(n + 1).
pub data ℤ : Type 0 where
  pos : ℕ → ℤ
  negsuc : ℕ → ℤ

unfoldable pub increment : ℤ → ℤ
increment (pos n) = pos (suc n)
increment (negsuc zero) = pos zero
increment (negsuc (suc n)) = negsuc n

unfoldable pub decrement : ℤ → ℤ
decrement (pos zero) = negsuc zero
decrement (pos (suc n)) = pos n
decrement (negsuc n) = negsuc (suc n)

pub decrement-increment : (a : ℤ) → decrement (increment a) ≡ a
unfolding increment decrement
decrement-increment (pos n) = refl
decrement-increment (negsuc zero) = refl
decrement-increment (negsuc (suc n)) = refl

-- `a < b` for a counter and an unsigned number.
abbrev pub int_ltb : ℤ → ℕ → Bool
int_ltb (pos n) b = ltb n b
int_ltb (negsuc n) b = true

pub increment-decrement : (a : ℤ) → increment (decrement a) ≡ a
unfolding increment decrement
increment-decrement (pos zero) = refl
increment-decrement (pos (suc n)) = refl
increment-decrement (negsuc n) = refl

-- One more if a condition holds.
abbrev pub bump : Bool → ℤ → ℤ
bump true a = increment a
bump false a = a

pub bump-injective : (b : Bool) {a c : ℤ} → bump b a ≡ bump b c → a ≡ c
bump-injective true {a} {c} h = sym (decrement-increment a) ∙ ap decrement h ∙ decrement-increment c
bump-injective false h = h

pub bump_comm : (b c : Bool) (a : ℤ) → bump b (bump c a) ≡ bump c (bump b a)
bump_comm true true a = refl
bump_comm true false a = refl
bump_comm false c a = refl

-- `a ≤ n` for a counter and a number.
abbrev pub AtMost : ℤ → ℕ → Type 0
AtMost (pos k) n = k ≤ n
AtMost (negsuc k) n = Unit

pub decrement-AtMost : (a : ℤ) (n : ℕ) → AtMost a n → AtMost (decrement a) n
unfolding decrement
decrement-AtMost (pos zero) n h = tt
decrement-AtMost (pos (suc k)) n h = omega arith
decrement-AtMost (negsuc k) n h = tt

pub increment-AtMost : (a : ℤ) (n : ℕ) → int_ltb a n ≡ true → AtMost (increment a) n
unfolding increment
increment-AtMost (pos k) n h = ground arith
increment-AtMost (negsuc zero) n h = omega arith
increment-AtMost (negsuc (suc k)) n h = tt
