-- ===== src/Fsm/Neighbor.antt =====
-- THospf/NeighborFSM.h and the table of THospf/NeighborFSM.cpp.
use ospfbasic.Prelude.{ℕ, ◌+◌, Bool, List, [], ◌∷◌, Option, none, some, leb}
use ospfbasic.Fsm.{Row, row, run_fsm}

pub data NbrState : Type 0 where
  nbs_down nbs_attempt nbs_init nbs_2way nbs_exstart nbs_exchange nbs_loading nbs_full : NbrState

abbrev pub state_code : NbrState → ℕ
state_code nbs_down = 0x01
state_code nbs_attempt = 0x02
state_code nbs_init = 0x04
state_code nbs_2way = 0x08
state_code nbs_exstart = 0x10
state_code nbs_exchange = 0x20
state_code nbs_loading = 0x40
state_code nbs_full = 0x80

-- `s <= t` on the codes.
abbrev pub at_most : NbrState → NbrState → Bool
at_most s t = leb (state_code s) (state_code t)

-- The masks of several states; the bits do not overlap, so `|` is `+`.
abbrev pub nbs_active : ℕ
nbs_active = 0xFE

abbrev pub nbs_flood : ℕ
nbs_flood = 0x20 + 0x40 + 0x80

abbrev pub nbs_adjform : ℕ
nbs_adjform = 0x10 + nbs_flood

abbrev pub nbs_bidir : ℕ
nbs_bidir = 0x08 + nbs_adjform

abbrev pub nbs_prelim : ℕ
nbs_prelim = 0x01 + 0x02 + 0x04

abbrev pub nbs_any : ℕ
nbs_any = 0xFF

pub data NbrEvent : Type 0 where
  nbe_hellorcvd nbe_start nbe_2wayrcvd nbe_negdone nbe_exchangedone nbe_badlsreq : NbrEvent
  nbe_loadingdone nbe_eval nbe_ddrcvd nbe_seqnomism nbe_1wayrcvd nbe_killnbr nbe_inactive : NbrEvent
  nbe_lldown nbe_adjtmo : NbrEvent

abbrev pub event_code : NbrEvent → ℕ
event_code nbe_hellorcvd = 1
event_code nbe_start = 2
event_code nbe_2wayrcvd = 3
event_code nbe_negdone = 4
event_code nbe_exchangedone = 5
event_code nbe_badlsreq = 6
event_code nbe_loadingdone = 7
event_code nbe_eval = 8
event_code nbe_ddrcvd = 9
event_code nbe_seqnomism = 10
event_code nbe_1wayrcvd = 11
event_code nbe_killnbr = 12
event_code nbe_inactive = 13
event_code nbe_lldown = 14
event_code nbe_adjtmo = 15

-- `no_action` is 0.
pub data NbrAction : Type 0 where
  no_action nba_start nba_restart_inactt nba_start_inactt nba_eval1 nba_eval2 : NbrAction
  nba_snapshot nba_exchangedone nba_reeval nba_restart_dd nba_delete nba_clr_lists : NbrAction
  nba_hellochk : NbrAction

abbrev pub nbr_fsm_table : List (Row NbrState NbrEvent NbrAction)
nbr_fsm_table =
    row nbs_active nbe_hellorcvd nba_restart_inactt none
    ∷ row nbs_bidir nbe_2wayrcvd no_action none
    ∷ row (state_code nbs_init) nbe_1wayrcvd no_action none
    ∷ row (state_code nbs_down) nbe_hellorcvd nba_start_inactt (some nbs_init)
    ∷ row (state_code nbs_down) nbe_start nba_start (some nbs_attempt)
    ∷ row (state_code nbs_attempt) nbe_hellorcvd nba_restart_inactt (some nbs_init)
    ∷ row (state_code nbs_init) nbe_2wayrcvd nba_eval1 none
    ∷ row (state_code nbs_init) nbe_ddrcvd nba_eval2 none
    ∷ row (state_code nbs_2way) nbe_ddrcvd nba_eval2 none
    ∷ row (state_code nbs_exstart) nbe_negdone nba_snapshot (some nbs_exchange)
    ∷ row (state_code nbs_exchange) nbe_exchangedone nba_exchangedone none
    ∷ row (state_code nbs_loading) nbe_loadingdone no_action (some nbs_full)
    ∷ row (state_code nbs_2way) nbe_eval nba_eval1 none
    ∷ row nbs_adjform nbe_eval nba_reeval none
    ∷ row nbs_prelim nbe_eval nba_hellochk none
    ∷ row nbs_adjform nbe_adjtmo nba_restart_dd (some nbs_2way)
    ∷ row nbs_flood nbe_seqnomism nba_restart_dd (some nbs_2way)
    ∷ row nbs_flood nbe_badlsreq nba_restart_dd (some nbs_2way)
    ∷ row nbs_any nbe_killnbr nba_delete (some nbs_down)
    ∷ row nbs_any nbe_lldown nba_delete (some nbs_down)
    ∷ row nbs_any nbe_inactive nba_delete (some nbs_down)
    ∷ row nbs_bidir nbe_1wayrcvd nba_clr_lists (some nbs_init)
    ∷ []

-- `run_fsm(&NbrFSM[0], n_state, event)`.
unfoldable pub run_nbr_fsm : NbrState → NbrEvent → NbrState × Option NbrAction
unfolding run_fsm
run_nbr_fsm s e = run_fsm state_code event_code nbr_fsm_table s e
