-- ===== src/Fsm.antt =====
-- THospf/ospfUtil.cpp: `OSPF::run_fsm`, over the rows of THospf/ospfUtil.h's `FSMmachine`.
pub mod Neighbor
pub mod Interface
use ospfbasic.Prelude.{ℕ, Bool, bit_and, List, [], ◌∷◌, Option, none, some, ◌==◌, if◌then◌else◌}

-- `states` is a mask of state bits. A new state 0 is `none`; the row of zeros that ends a table is
-- the end of the list.
pub record Row (S E A : Type 0) : Type 0 where
  pub states : ℕ
  pub event : E
  pub action : A
  pub new_state : Option S

abbrev pub row : {S E A : Type 0} → ℕ → E → A → Option S → Row S E A
row m e a n = record { states = m; event = e; action = a; new_state = n }

abbrev pub or_else : {S : Type 0} → Option S → S → S
or_else none s = s
or_else (some t) s = t

-- The first row whose mask has the state's bit and whose event is the given one. The result is the
-- state afterwards and the action, `none` for -1.
unfoldable pub run_fsm :
    {S E A : Type 0} → (S → ℕ) → (E → ℕ) → List (Row S E A) → S → E → S × Option A
run_fsm state_code event_code [] s e = (s, none)
run_fsm state_code event_code (r ∷ rows) s e =
    let rest = run_fsm state_code event_code rows s e in
    if bit_and r.states (state_code s) == 0
    then rest
    else if event_code r.event == event_code e
    then (or_else r.new_state s, some r.action)
    else rest
