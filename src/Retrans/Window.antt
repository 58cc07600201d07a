-- ===== src/Retrans/Window.antt =====
-- THospf/ospfAck.cpp: how many packets `retrans_updates` sends.
use ospfbasic.Prelude.{
  ℕ, zero, suc, ◌+◌, ◌≡◌, ◌<◌, ◌≤◌, refl, sym, ap, ap₂, subst, ◌∙◌, inl, inr, Bool, true, false,
  ◌&&◌, List, [], ◌∷◌, ◌++◌, Option, none, some, ltb, if◌then◌else◌, length, arith, Bool-cases,
}
use ospfbasic.Retrans.{
  Neighbor, Update, Source, from_retrans, from_failed, take_out, get_next_retrans, send_update,
  add_to_update, updates_loop, updates_fuel, finish_updates, retrans_updates,
}
use ospfbasic.Retrans.Wakeup.{Moves, Next, get_next_retrans-Next}
use ospfbasic.Retrans.Packets.{move, packet_cases, add_to_update-Fills}
use ospfbasic.Retrans.Updates.{Updates, updates_loop-Updates, Sized}
use ospfbasic.Retrans.Filling.{
  begun, room_of, send_update-sent, begun-none, begun-some, add_to_update-Added,
}

-- The loop's counters: `space` is the packet's room, and `npkts` packets have been begun, no more than
-- the window has.
abbrev InStep : ℕ → ℕ → ℕ → Neighbor → Type 0
InStep base space npkts np =
    (space ≡ room_of np.n_update) × (begun np ≡ base + npkts) × (npkts ≤ np.retrans_window)

-- What the loop has begun.
abbrev Within : ℕ → Neighbor → Option (Neighbor × (ℕ × ℕ)) → Type 0
Within base np none = Unit
Within base np (some (np2, r)) = begun np2 ≤ base + np.retrans_window

begun-same :
    (np np2 : Neighbor) → (np2.n_update ≡ np.n_update) → (np2.sent ≡ np.sent) → begun np2 ≡ begun np
begun-same np np2 e f =
    ap₂ (λ (u : Option Update) (xs : List (List ℕ)). length xs + elim u [ none ↦ 0 | some v ↦ 1 ]) e
      f

-- The lists do not matter to the packets.
move-output :
    (list : Source) (a : ℕ) (np : Neighbor)
    → ((move list a np).n_update ≡ np.n_update)
      × ((move list a np).sent ≡ np.sent)
      × ((move list a np).retrans_window ≡ np.retrans_window)
      × ((move list a np).lsas ≡ np.lsas)
unfolding take_out
move-output from_retrans a np = (refl, refl, refl, refl)
move-output from_failed a np = (refl, refl, refl, refl)

one_more :
    (base npkts x y : ℕ) (full : Bool)
    → (x ≡ base + npkts)
    → (y ≡ x + (if full then 1 else 0))
    → y ≡ base + (if full then suc npkts else npkts)
one_more base npkts x y true e f = omega arith
one_more base npkts x y false e f = omega arith

-- A round that sends an advertisement.
InStep-round :
    (base space npkts : ℕ) (np np2 : Neighbor) (list : Source) (a : ℕ)
    → InStep base space npkts np
    → Moves np np2
    → (0 < (np2.lsas a).ls_length)
    → ((if ltb space (np2.lsas a).ls_length then suc npkts else npkts) ≤ np2.retrans_window)
    → InStep base
        (add_to_update a np2).1
        (if ltb space (np2.lsas a).ls_length then suc npkts else npkts)
        (move list a (add_to_update a np2).0)
InStep-round base space npkts np np2 list a i m h w =
    let b = add_to_update-Added a np2 h in
    let o = move-output list a (add_to_update a np2).0 in
    let room : room_of np2.n_update ≡ space = ap room_of m.same_output.0 ∙ sym i.0 in
    let fresh : begun np2 ≡ base + npkts =
      begun-same np np2 m.same_output.0 m.same_output.1 ∙ i.1 in
    let grown = b.0 ∙ ap (λ r. begun np2 + (if ltb r (np2.lsas a).ls_length then 1 else 0)) room in
    let same = begun-same (add_to_update a np2).0 (move list a (add_to_update a np2).0) o.0 o.1 in
    (
      sym (ap room_of o.0 ∙ b.1),
      one_more base npkts _ _ _ fresh (same ∙ grown),
      subst (λ n. (if ltb space (np2.lsas a).ls_length then suc npkts else npkts) ≤ n)
          (sym (o.2 ∙ b.2)) w,
    )

within_window :
    (full : Bool) (npkts w w0 : ℕ)
    → (w ≡ w0)
    → (npkts ≤ w0)
    → ((full && ltb w (if full then suc npkts else npkts)) ≡ false)
    → (if full then suc npkts else npkts) ≤ w
within_window true npkts w w0 e h f = ground arith
within_window false npkts w w0 e h f = omega arith

widen :
    (base : ℕ) (np np2 : Neighbor) (r : Option (Neighbor × (ℕ × ℕ)))
    → (np2.retrans_window ≡ np.retrans_window)
    → Within base np2 r
    → Within base np r
widen base np np2 none e h = tt
widen base np np2 (some (np3, r)) e h = omega arith

updates_loop-Within :
    (fuel base : ℕ) (np : Neighbor) (space npkts : ℕ)
    → InStep base space npkts np
    → ((a : ℕ) → 0 < (np.lsas a).ls_length)
    → Within base np (updates_loop fuel np space npkts)
unfolding updates_loop
updates_loop-Within zero base np space npkts i s = tt
updates_loop-Within (suc fuel) base np space npkts i s =
    go (updates_loop-Within fuel base) (get_next_retrans np) (get_next_retrans-Next np)
  where
    go :
        (ih : (q : Neighbor) (space npkts : ℕ)
          → InStep base space npkts q
          → ((a : ℕ) → 0 < (q.lsas a).ls_length)
          → Within base q (updates_loop fuel q space npkts))
        (r : Option (Neighbor × (ℕ × Option (Source × ℕ))))
        → Next np r
        → Within base np (elim r [
          | none ↦ none
          | some (np2, (nexttime, none)) ↦ some (np2, (npkts, nexttime))
          | some (np2, (nexttime, some (list, a))) ↦
              let full = ltb space (np2.lsas a).ls_length in
              let npkts2 = if full then suc npkts else npkts in
              let filled = add_to_update a np2 in
              let moved = take_out list a filled.0 in
              let rest =
                updates_loop fuel
                  (record moved { pend_retrans = moved.pend_retrans ++ a ∷ [] })
                  filled.1
                  npkts2 in
              if full && ltb np2.retrans_window npkts2 then some (np2, (npkts2, nexttime)) else rest
        ])
    go ih none n = tt
    go ih (some (np2, (nexttime, none))) n =
        (let b = begun-same np np2 n.1.same_output.0 n.1.same_output.1 in omega (arith, i.1, i.2))
    go ih (some (np2, (nexttime, some (list, a)))) n =
        let b = begun-same np np2 n.1.same_output.0 n.1.same_output.1 in
        let len : 0 < (np2.lsas a).ls_length = rw n.1.same_lsas (s a) in
        let full = ltb space (np2.lsas a).ls_length in
        let npkts2 = if full then suc npkts else npkts in
        elim (Bool-cases (full && ltb np2.retrans_window npkts2)) [
          | inl e ↦ rw e (omega (arith, i.1, i.2))
          | inr e ↦
              let w : npkts2 ≤ np2.retrans_window = within_window _ _ _ _ n.1.same_output.2 i.2 e in
              let o = move-output list a (add_to_update a np2).0 in
              let f = add_to_update-Fills a np2 in
              let q = add_to_update-Added a np2 len in
              let sized : (c : ℕ) → 0 < ((move list a (add_to_update a np2).0).lsas c).ls_length =
                λ c. rw (o.3, f.counts.2, n.1.same_lsas) (s c) in
              let i2 = InStep-round base space npkts np np2 list a i n.1 len w in
              let k = o.2 ∙ q.2 ∙ n.1.same_output.2 in
              rw e (
                widen base np (move list a (add_to_update a np2).0) _ k (
                  ih (move list a (add_to_update a np2).0) (add_to_update a np2).1 npkts2 i2 sized))
        ]

-- The packets sent by `retrans_updates`.
abbrev pub SentUpTo : ℕ → Option Neighbor → Type 0
SentUpTo n none = ⊥
SentUpTo n (some np) = length np.sent ≤ n

unsent_same : (np : Neighbor) → (np.n_update ≡ none) → send_update np ≡ np
unfolding send_update
unsent_same np e =
    ap
      (λ u. elim u as (λ v. Neighbor) [
        | none ↦ np
        | some v ↦ record np { n_update = none; sent = v.adverts ∷ np.sent }
      ])
      e

send_update-begun : (np : Neighbor) → length (send_update np).sent ≤ begun np
send_update-begun np = elim (packet_cases np.n_update) [
  | inl e ↦
      let n = begun-none np e in let o = ap (λ q. length q.sent) (unsent_same np e) in omega arith
  | inr (u, e) ↦ omega (arith, (send_update-sent np u e).1, begun-some np u e)
]

finish_updates-sent :
    (np : Neighbor) (npkts nexttime : ℕ)
    → length (finish_updates (np, (npkts, nexttime))).sent ≤ begun np
unfolding finish_updates
finish_updates-sent np npkts nexttime = elim (Bool-cases (ltb 0 npkts)) [
  | inl e ↦ rw e (send_update-begun np)
  | inr e ↦ elim (Bool-cases (ltb 0 nexttime)) [
    | inl g ↦ rw (e, g) (omega arith)
    | inr g ↦ rw (e, g) (omega arith)
  ]
]

-- When no packet is begun and nothing waits for its acknowledgment, retrans_updates returns, and sends
-- at most retrans_window packets. Advertisements are not empty.
pub retrans_updates-SentUpTo :
    (np : Neighbor)
    → (np.n_update ≡ none)
    → (np.pend_retrans ≡ [])
    → Sized np
    → SentUpTo (length np.sent + np.retrans_window) (retrans_updates np)
unfolding retrans_updates
retrans_updates-SentUpTo np e p s =
    let i : InStep (length np.sent) 0 0 np =
      (sym (ap room_of e), begun-none np e ∙ omega arith, omega arith) in
    go (updates_loop (updates_fuel np) np 0 0)
      (updates_loop-Updates (updates_fuel np) np 0 0 (omega arith) (inr (refl, p)) s)
      (updates_loop-Within (updates_fuel np) (length np.sent) np 0 0 i s)
  where
    go :
        (r : Option (Neighbor × (ℕ × ℕ)))
        → Updates np r
        → Within (length np.sent) np r
        → SentUpTo
            (length np.sent + np.retrans_window)
            (elim r [ none ↦ none | some x ↦ some (finish_updates x) ])
    go none u w = u
    go (some (np2, (npkts, nexttime))) u w =
        let f = finish_updates-sent np2 npkts nexttime in omega arith
