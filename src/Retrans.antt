-- ===== src/Retrans.antt =====
-- THospf/ospfAck.cpp: what a neighbor has been sent and has not acknowledged yet. An `LsaList` is the
-- list of the addresses of its advertisements; the bodies of the update packets are left out.
pub mod Wakeup
pub mod Packets
pub mod Updates
pub mod Filling
pub mod Window
pub mod Sound
pub mod Acknowledged
pub mod Runs
mod Tests
use ospfbasic.Prelude.{
  ℕ, zero, suc, ◌+◌, ◌-◌, ◌*◌, ◌%◌, ◌^◌, Bool, true, false, not, ◌&&◌, List, [], ◌∷◌, ◌++◌, Option,
  none, some, ltb, ◌==◌, if◌then◌else◌, length,
}

-- What is read of an advertisement in the database.
pub record Advert : Type 0 where
  pub valid : Bool
  pub since_received : ℕ
  pub ls_length : ℕ

-- The packet `n_update` while it is filled: the room that is left, 0 when it is overrun, and what it
-- holds.
pub record Update : Type 0 where
  pub room : ℕ
  pub adverts : List ℕ

-- A neighbor with its interface's `rxmt_interval` and `mtu`, and the advertisements. `lsat` is the
-- period of the timer in seconds while it runs, `sent` the updates sent, the last one first.
pub record Neighbor : Type 0 where
  pub pend_retrans : List ℕ
  pub retrans : List ℕ
  pub failed_retrans : List ℕ
  pub retrans_cnt : ℕ
  pub retrans_window : ℕ
  pub lsat : Option ℕ
  pub n_update : Option Update
  pub sent : List (List ℕ)
  pub rxmt_interval : ℕ
  pub mtu : ℕ
  pub max_retrans_window : ℕ
  pub lsas : ℕ → Advert
  pub lsa_rxmt : ℕ → ℕ

-- `LsaList::remove`, with whether it has found the advertisement.
unfoldable pub remove : ℕ → List ℕ → List ℕ × Bool
remove a [] = ([], false)
remove a (x ∷ xs) = let rest = remove a xs in if x == a then (xs, true) else (x ∷ rest.0, rest.1)

-- `LsaList::garbage_collect`, with how many it has removed.
unfoldable pub garbage_collect : (ℕ → Advert) → List ℕ → List ℕ × ℕ
garbage_collect db [] = ([], 0)
garbage_collect db (x ∷ xs) =
    let rest = garbage_collect db xs in
    if (db x).valid then (x ∷ rest.0, rest.1) else (rest.0, suc rest.1)

abbrev pub first_entry : List ℕ → Option ℕ
first_entry [] = none
first_entry (x ∷ xs) = some x

abbrev pub is_empty : List ℕ → Bool
is_empty [] = true
is_empty (x ∷ xs) = false

-- `x -= n` of a word of `w` bits.
abbrev pub minus_word : ℕ → ℕ → ℕ → ℕ
minus_word w x n = (x + (2 ^ w - n % 2 ^ w)) % 2 ^ w

-- `lsa_rxmt++` and `lsa_rxmt--` of one advertisement.
unfoldable pub set_rxmt : (ℕ → ℕ) → ℕ → ℕ → ℕ → ℕ
set_rxmt f a v b = if b == a then v else f b

-- `Timer::start`, which leaves a timer that runs.
abbrev pub start : ℕ → Option ℕ → Option ℕ
start s none = some s
start s (some t) = some t

-- The list that `get_next_retrans` has chosen.
pub data Source : Type 0 where
  from_retrans from_failed : Source

-- `list->remove(lsap)`.
unfoldable pub take_out : Source → ℕ → Neighbor → Neighbor
take_out from_retrans a np = record np { retrans = (remove a np.retrans).0 }
take_out from_failed a np = record np { failed_retrans = (remove a np.failed_retrans).0 }

-- How a round of the loop of `get_next_retrans` ends: with a new neighbor and `nexttime`, or with the
-- result.
pub data Round : Type 0 where
  again : Neighbor → ℕ → Round
  finish : Option (Source × ℕ) → Round

-- The end of a round, for the advertisement that stands first.
unfoldable pub check_valid : Neighbor → ℕ → Source → ℕ → Round
check_valid np nexttime list a =
    if not (np.lsas a).valid
    then again (record (take_out list a np) { retrans_cnt = minus_word 32 np.retrans_cnt 1 })
        nexttime
    else finish (some (list, a))

unfoldable pub one_round : Neighbor → ℕ → Round
one_round np nexttime = elim (if nexttime == 0 then first_entry np.retrans else none) [
  | some a ↦
      let young = (np.lsas a).valid && ltb (np.lsas a).since_received np.rxmt_interval in
      if young
      then again np (np.rxmt_interval - (np.lsas a).since_received)
      else check_valid np nexttime from_retrans a
  | none ↦ elim (first_entry np.failed_retrans) [
    | some a ↦ check_valid np nexttime from_failed a
    | none ↦ finish none
  ]
]

-- `get_next_retrans`, `none` when the fuel is used up: the neighbor, `nexttime` and the advertisement
-- with its list.
unfoldable pub next_loop : ℕ → Neighbor → ℕ → Option (Neighbor × (ℕ × Option (Source × ℕ)))
next_loop zero np nexttime = none
next_loop (suc fuel) np nexttime = elim (one_round np nexttime) [
  | again np2 time ↦ next_loop fuel np2 time
  | finish r ↦ some (np, (nexttime, r))
]

-- Every round but one takes an advertisement off a list.
abbrev pub next_fuel : Neighbor → ℕ
next_fuel np = length np.retrans + length np.failed_retrans + 2

unfoldable pub get_next_retrans : Neighbor → Option (Neighbor × (ℕ × Option (Source × ℕ)))
get_next_retrans np = next_loop (next_fuel np) np 0

-- `Interface::Neighbor_send` of `n_update`, which frees it.
unfoldable pub send_update : Neighbor → Neighbor
send_update np = elim np.n_update [
  | none ↦ np
  | some u ↦ record np { n_update = none; sent = u.adverts ∷ np.sent }
]

-- `OSPF::build_update`, where a packet has 48 bytes of headers, and the room that is left.
unfoldable pub build_update : ℕ → Neighbor → Neighbor × ℕ
build_update a np =
    let len = (np.lsas a).ls_length in
    elim np.n_update [
      | none ↦
          let size = (if ltb (len + 48) np.mtu then np.mtu else len + 48) % 2 ^ 16 in
          let room = size - 48 - len in
          (record np { n_update = some (record { room = room; adverts = a ∷ [] }) }, room)
      | some u ↦
          let room = u.room - len in
          (
            record np { n_update = some (record { room = room; adverts = u.adverts ++ a ∷ [] }) },
            room,
          )
    ]

-- Whether the packet has room for an advertisement, or there is no packet yet.
abbrev pub has_room : ℕ → Option Update → Bool
has_room len none = true
has_room len (some u) = not (ltb u.room len)

-- `Neighbor::add_to_update`.
unfoldable pub add_to_update : ℕ → Neighbor → Neighbor × ℕ
add_to_update a np =
    let cleared = if has_room (np.lsas a).ls_length np.n_update then np else send_update np in
    build_update a cleared

-- The loop of `retrans_updates`: the neighbor, `npkts` and `nexttime` behind it.
unfoldable pub updates_loop : ℕ → Neighbor → ℕ → ℕ → Option (Neighbor × (ℕ × ℕ))
updates_loop zero np space npkts = none
updates_loop (suc fuel) np space npkts = elim (get_next_retrans np) [
  | none ↦ none
  | some (np2, (nexttime, none)) ↦ some (np2, (npkts, nexttime))
  | some (np2, (nexttime, some (list, a))) ↦
      let full = ltb space (np2.lsas a).ls_length in
      let npkts2 = if full then suc npkts else npkts in
      let filled = add_to_update a np2 in
      let moved = take_out list a filled.0 in
      let rest =
        updates_loop fuel (record moved { pend_retrans = moved.pend_retrans ++ a ∷ [] }) filled.1
          npkts2 in
      if full && ltb np2.retrans_window npkts2 then some (np2, (npkts2, nexttime)) else rest
]

-- Every round but the last takes an advertisement off a list.
abbrev pub updates_fuel : Neighbor → ℕ
updates_fuel np = length np.retrans + length np.failed_retrans + 1

-- The end of `retrans_updates`.
unfoldable pub finish_updates : Neighbor × (ℕ × ℕ) → Neighbor
finish_updates (np, (npkts, nexttime)) =
    let sent_all = send_update np in
    if ltb 0 npkts
    then record sent_all { lsat = start np.rxmt_interval np.lsat }
    else if ltb 0 nexttime
    then record np { lsat = start nexttime np.lsat }
    else np

unfoldable pub retrans_updates : Neighbor → Option Neighbor
retrans_updates np = elim (updates_loop (updates_fuel np) np 0 0) [
  | none ↦ none
  | some r ↦ some (finish_updates r)
]

unfoldable pub add_to_retranslist : ℕ → Neighbor → Neighbor
add_to_retranslist a np =
    let cnt = (np.retrans_cnt + 1) % 2 ^ 32 in
    record np {
      retrans = np.retrans ++ a ∷ [];
      lsa_rxmt = set_rxmt np.lsa_rxmt a ((np.lsa_rxmt a + 1) % 2 ^ 16);
      retrans_cnt = cnt;
      lsat = if cnt == 1 then start np.rxmt_interval np.lsat else np.lsat;
    }

-- `remove_from_pending_retrans` of an advertisement that is found there.
unfoldable pub pending_removed : List ℕ → Neighbor → Option Neighbor
pending_removed rest np =
    let np2 = record np { pend_retrans = rest } in
    let doubled = (np.retrans_window * 2) % 2 ^ 16 in
    let window = if ltb np.max_retrans_window doubled then np.max_retrans_window else doubled in
    if is_empty rest
    then retrans_updates (record np2 { retrans_window = window; lsat = none })
    else some np2

-- The end of `remove_from_retranslist`.
unfoldable pub acked : ℕ → Neighbor → Neighbor
acked a np = record np {
  lsa_rxmt = set_rxmt np.lsa_rxmt a (minus_word 16 (np.lsa_rxmt a) 1);
  retrans_cnt = minus_word 32 np.retrans_cnt 1;
}

unfoldable pub remove_from_retranslist : ℕ → Neighbor → Option Neighbor
remove_from_retranslist a np =
    let r = remove a np.retrans in
    let p = remove a np.pend_retrans in
    let f = remove a np.failed_retrans in
    if r.1
    then some (acked a (record np { retrans = r.0 }))
    else if p.1
    then elim (pending_removed p.0 np) [ none ↦ none | some np2 ↦ some (acked a np2) ]
    else if f.1
    then some (acked a (record np { failed_retrans = f.0 }))
    else some np

-- `LSATimer::action`, where the timer does not run any more.
unfoldable pub collect : Neighbor → Neighbor
collect np =
    let r = garbage_collect np.lsas np.retrans in
    let f = garbage_collect np.lsas np.failed_retrans in
    record np {
      retrans = r.0;
      failed_retrans = f.0;
      retrans_cnt = minus_word 32 (minus_word 32 np.retrans_cnt r.1) f.1;
    }

unfoldable pub action : Neighbor → Option Neighbor
action fired =
    let np = record fired {
      lsat = none;
      failed_retrans = fired.failed_retrans ++ fired.pend_retrans;
      pend_retrans = [];
    } in
    elim (get_next_retrans np) [
      | none ↦ none
      | some (np2, (nexttime, r)) ↦
          let np3 = record np2 {
            retrans_window = elim r [ none ↦ np2.retrans_window | some x ↦ 1 ];
          } in
          elim (retrans_updates np3) [ none ↦ none | some np4 ↦ some (collect np4) ]
    ]
