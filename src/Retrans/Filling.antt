-- ===== src/Retrans/Filling.antt =====
-- THospf/ospfUpdate.cpp: when `add_to_update` begins a packet, and how much room is left in it.
use ospfbasic.Prelude.{
  ℕ, suc, ◌+◌, ◌≡◌, ◌<◌, refl, sym, ap, subst, ◌∙◌, inl, inr, true, false, not, Option, none, some,
  ltb, if◌then◌else◌, length, arith, Bool-cases,
}
use ospfbasic.Retrans.{Neighbor, Update, send_update, add_to_update, build_update, has_room}
use ospfbasic.Retrans.Packets.{packet_cases}

-- The packets sent since there were `base`, and the one that is being filled.
abbrev pub begun : Neighbor → ℕ
begun np = length np.sent + elim np.n_update [ none ↦ 0 | some u ↦ 1 ]

abbrev pub room_of : Option Update → ℕ
room_of none = 0
room_of (some u) = u.room

-- An advertisement begins a packet when it does not fit, and the room returned is the packet's.
abbrev Added : ℕ → Neighbor → Neighbor × ℕ → Type 0
Added len np r =
    (begun r.0 ≡ begun np + (if ltb (room_of np.n_update) len then 1 else 0))
    × (room_of r.0.n_update ≡ r.1)
    × (r.0.retrans_window ≡ np.retrans_window)

-- The packet that an advertisement is put into.
build_update-fresh :
    (a : ℕ) (np : Neighbor)
    → (np.n_update ≡ none)
    → (begun (build_update a np).0 ≡ suc (length np.sent))
      × (room_of (build_update a np).0.n_update ≡ (build_update a np).1)
      × ((build_update a np).0.retrans_window ≡ np.retrans_window)
unfolding build_update
build_update-fresh a np e = rw (e, build_update) (omega arith, refl, refl)

build_update-onto :
    (a : ℕ) (np : Neighbor) (u : Update)
    → (np.n_update ≡ some u)
    → (begun (build_update a np).0 ≡ suc (length np.sent))
      × (room_of (build_update a np).0.n_update ≡ (build_update a np).1)
      × ((build_update a np).0.retrans_window ≡ np.retrans_window)
unfolding build_update
build_update-onto a np u e = rw (e, build_update) (omega arith, refl, refl)

-- A packet that is sent makes room for the next.
pub send_update-sent :
    (np : Neighbor) (u : Update)
    → (np.n_update ≡ some u)
    → ((send_update np).n_update ≡ none)
      × (length (send_update np).sent ≡ suc (length np.sent))
      × ((send_update np).retrans_window ≡ np.retrans_window)
unfolding send_update
send_update-sent np u e = rw (e, send_update) (refl, refl, refl)

add_to_update-fits :
    (a : ℕ) (np : Neighbor)
    → (has_room (np.lsas a).ls_length np.n_update ≡ true)
    → add_to_update a np ≡ build_update a np
unfolding add_to_update
add_to_update-fits a np h = ap (λ b. build_update a (if b then np else send_update np)) h

add_to_update-sends :
    (a : ℕ) (np : Neighbor)
    → (has_room (np.lsas a).ls_length np.n_update ≡ false)
    → add_to_update a np ≡ build_update a (send_update np)
unfolding add_to_update
add_to_update-sends a np h = ap (λ b. build_update a (if b then np else send_update np)) h

pub begun-none : (np : Neighbor) → (np.n_update ≡ none) → begun np ≡ length np.sent
begun-none np e = rw e (omega arith)

pub begun-some :
    (np : Neighbor) (u : Update) → (np.n_update ≡ some u) → begun np ≡ suc (length np.sent)
begun-some np u e = rw e (omega arith)

pub add_to_update-Added :
    (a : ℕ) (np : Neighbor)
    → (0 < (np.lsas a).ls_length)
    → Added (np.lsas a).ls_length np (add_to_update a np)
add_to_update-Added a np h = elim (packet_cases np.n_update) [
  | inl e ↦
      let f = add_to_update-fits a np (ap (has_room (np.lsas a).ls_length) e) in
      let b = build_update-fresh a np e in
      let n = begun-none np e in
      let l : ltb (room_of np.n_update) (np.lsas a).ls_length ≡ true = rw e (ground arith) in
      subst (Added (np.lsas a).ls_length np) (sym f) (rw l (omega arith), b.1, b.2)
  | inr (u, e) ↦
      let n = begun-some np u e in
      elim (Bool-cases (ltb u.room (np.lsas a).ls_length)) [
        | inl l ↦
            let f = add_to_update-sends a np (ap (has_room (np.lsas a).ls_length) e ∙ ap not l) in
            let o = send_update-sent np u e in
            let b = build_update-fresh a (send_update np) o.0 in
            let r : ltb (room_of np.n_update) (np.lsas a).ls_length ≡ true = rw e l in
            subst (Added (np.lsas a).ls_length np) (sym f) (rw r (omega arith), b.1, b.2 ∙ o.2)
        | inr l ↦
            let f = add_to_update-fits a np (ap (has_room (np.lsas a).ls_length) e ∙ ap not l) in
            let b = build_update-onto a np u e in
            let r : ltb (room_of np.n_update) (np.lsas a).ls_length ≡ false = rw e l in
            subst (Added (np.lsas a).ls_length np) (sym f) (rw r (omega arith), b.1, b.2)
      ]
]
