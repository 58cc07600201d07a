-- ===== src/Retrans/Tests.antt =====
-- A neighbor with three advertisements of 100 bytes, the second of which has left the database.
use ospfbasic.Prelude.{ℕ, ◌≡◌, refl, inr, true, not, List, [], ◌∷◌, Option, none, some, ◌==◌, arith}
use ospfbasic.Retrans.{
  Advert, Neighbor, add_to_retranslist, set_rxmt, remove, remove_from_retranslist, pending_removed,
  acked, action, collect, garbage_collect, get_next_retrans, next_loop, one_round, check_valid,
  take_out, retrans_updates, updates_loop, finish_updates, send_update, add_to_update, build_update,
}
use ospfbasic.Retrans.Sound.{IsSound, Returns}
use ospfbasic.Retrans.Window.{SentUpTo, retrans_updates-SentUpTo}
use ospfbasic.Retrans.Runs.{Event, flooded, acknowledged, timer_fired, step, run, run-IsSound}

abbrev adverts : ℕ → Advert
adverts a = record { valid = not (a == 2); since_received = 9; ls_length = 100 }

abbrev fresh : Neighbor
fresh = record {
  pend_retrans = [];
  retrans = [];
  failed_retrans = [];
  retrans_cnt = 0;
  retrans_window = 1;
  lsat = none;
  n_update = none;
  sent = [];
  rxmt_interval = 5;
  mtu = 1500;
  max_retrans_window = 8;
  lsas = adverts;
  lsa_rxmt = λ a. 0;
}

fresh-IsSound : IsSound (λ a. 0) fresh
fresh-IsSound = record {
  counted = refl;
  marked = λ a v. refl;
  awake = inr refl;
  sized = λ a. omega arith;
}

abbrev events : List Event
events = flooded 1 ∷ flooded 2 ∷ flooded 3 ∷ timer_fired ∷ acknowledged 3 ∷ []

run-IsSound_example : Returns (IsSound (λ a. 0)) (run events fresh)
run-IsSound_example = run-IsSound (λ a. 0) events fresh fresh-IsSound

-- What is left of a neighbor: its lists, its count, its timer and its packets.
abbrev summary : Option Neighbor → List (List ℕ) × (ℕ × (Option ℕ × List (List ℕ)))
summary none = ([], (0, (none, [])))
summary (some np) =
    (np.pend_retrans ∷ np.retrans ∷ np.failed_retrans ∷ [], (np.retrans_cnt, (np.lsat, np.sent)))

sent_again :
    summary (run events fresh) ≡ ((1 ∷ []) ∷ [] ∷ [] ∷ [], (1, (some 5, (1 ∷ 3 ∷ []) ∷ [])))
unfolding run step add_to_retranslist set_rxmt remove remove_from_retranslist pending_removed acked
    action collect garbage_collect get_next_retrans next_loop one_round check_valid take_out
    retrans_updates updates_loop finish_updates send_update add_to_update build_update
sent_again = refl

-- Ten advertisements of 700 bytes, two of which fit into a packet, and a window of two packets.
abbrev large : ℕ → Advert
large a = record { valid = true; since_received = 9; ls_length = 700 }

abbrev crowded : Neighbor
crowded = record fresh {
  retrans = 1 ∷ 2 ∷ 3 ∷ 4 ∷ 5 ∷ 6 ∷ 7 ∷ 8 ∷ 9 ∷ 10 ∷ [];
  retrans_cnt = 10;
  retrans_window = 2;
  lsas = large;
}

retrans_updates-SentUpTo_example : SentUpTo 2 (retrans_updates crowded)
retrans_updates-SentUpTo_example = retrans_updates-SentUpTo crowded refl refl (λ a. omega arith)

two_packets : summary (retrans_updates crowded) ≡ (
  (1 ∷ 2 ∷ 3 ∷ 4 ∷ []) ∷ (5 ∷ 6 ∷ 7 ∷ 8 ∷ 9 ∷ 10 ∷ []) ∷ [] ∷ [],
  (10, (some 5, (3 ∷ 4 ∷ []) ∷ (1 ∷ 2 ∷ []) ∷ [])),
)
unfolding remove get_next_retrans next_loop one_round check_valid take_out retrans_updates
    updates_loop finish_updates send_update add_to_update build_update
two_packets = refl
