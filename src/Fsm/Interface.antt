-- ===== src/Fsm/Interface.antt =====
-- THospf/InterfaceFSM.h and the table of THospf/InterfaceFSM.cpp.
use ospfbasic.Prelude.{ℕ, ◌+◌, Bool, List, [], ◌∷◌, Option, none, some, leb, ◌==◌}
use ospfbasic.Fsm.{Row, row, run_fsm}

pub data IfState : Type 0 where
  ifs_down ifs_loop ifs_wait ifs_pp ifs_other ifs_backup ifs_dr : IfState

abbrev pub state_code : IfState → ℕ
state_code ifs_down = 0x01
state_code ifs_loop = 0x02
state_code ifs_wait = 0x04
state_code ifs_pp = 0x08
state_code ifs_other = 0x10
state_code ifs_backup = 0x20
state_code ifs_dr = 0x40

abbrev pub at_most : IfState → IfState → Bool
at_most s t = leb (state_code s) (state_code t)

abbrev pub same_state : IfState → IfState → Bool
same_state s t = state_code s == state_code t

abbrev pub ifs_multi : ℕ
ifs_multi = 0x10 + 0x20 + 0x40

abbrev pub ifs_any : ℕ
ifs_any = 0x7F

pub data IfEvent : Type 0 where
  ife_up ife_wtim ife_bseen ife_nchg ife_loop ife_unloop ife_down : IfEvent

abbrev pub event_code : IfEvent → ℕ
event_code ife_up = 1
event_code ife_wtim = 2
event_code ife_bseen = 3
event_code ife_nchg = 4
event_code ife_loop = 5
event_code ife_unloop = 6
event_code ife_down = 7

pub data IfAction : Type 0 where
  no_action ifa_start ifa_elect ifa_reset : IfAction

abbrev pub ifc_fsm_table : List (Row IfState IfEvent IfAction)
ifc_fsm_table =
    row (state_code ifs_down) ife_up ifa_start none
    ∷ row (state_code ifs_wait) ife_bseen ifa_elect none
    ∷ row (state_code ifs_wait) ife_wtim ifa_elect none
    ∷ row (state_code ifs_wait) ife_nchg no_action none
    ∷ row ifs_multi ife_nchg ifa_elect none
    ∷ row ifs_any ife_nchg no_action none
    ∷ row ifs_any ife_down ifa_reset (some ifs_down)
    ∷ row ifs_any ife_loop ifa_reset (some ifs_loop)
    ∷ row (state_code ifs_loop) ife_unloop no_action (some ifs_down)
    ∷ []

unfoldable pub run_ifc_fsm : IfState → IfEvent → IfState × Option IfAction
unfolding run_fsm
run_ifc_fsm s e = run_fsm state_code event_code ifc_fsm_table s e
