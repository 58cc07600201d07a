-- ===== src/Retrans/Updates.antt =====
-- THospf/ospfAck.cpp: the loop of `retrans_updates` and the timer behind it.
use ospfbasic.Prelude.{
  ℕ, zero, suc, ◌+◌, ◌≡◌, ◌<◌, refl, ap, ap₂, ◌∙◌, inl, inr, ◌⊎◌, Bool, true, false, ◌&&◌, [], ◌∷◌,
  ◌++◌, Option, none, some, ltb, if◌then◌else◌, length, arith, Bool-cases,
}
use ospfbasic.Retrans.{
  Neighbor, Source, from_retrans, from_failed, first_entry, take_out, get_next_retrans, send_update,
  add_to_update, updates_loop, updates_fuel, finish_updates, retrans_updates, start,
}
use ospfbasic.Retrans.Wakeup.{waiting, unsent, Leads, Next, take_out-unsent, get_next_retrans-Next}
use ospfbasic.Retrans.Packets.{
  Fills-Keeps, Keeps, Keeps-trans, Moves-Keeps, add_to_update-Fills, move, move-Keeps,
  send_update-Fills,
}

-- Before the first packet nothing has been taken out for sending.
abbrev pub Begun : ℕ → ℕ → Neighbor → Type 0
Begun npkts space np = (0 < npkts) ⊎ ((space ≡ 0) × (np.pend_retrans ≡ []))

-- The loop's result: packets, a later time, or no advertisement that waits.
abbrev pub Done : Neighbor → ℕ → ℕ → Type 0
Done np npkts nexttime = (0 < npkts) ⊎ ((np.pend_retrans ≡ []) × ((0 < nexttime) ⊎ (unsent np ≡ 0)))

abbrev pub Updates : Neighbor → Option (Neighbor × (ℕ × ℕ)) → Type 0
Updates np none = ⊥
Updates np (some (np2, (npkts, nexttime))) =
    Keeps np np2 × (np2.lsat ≡ np.lsat) × Done np2 npkts nexttime

-- Advertisements are not empty.
abbrev pub Sized : Neighbor → Type 0
Sized np = (a : ℕ) → 0 < (np.lsas a).ls_length

-- One round.
abbrev pub one_sent : ℕ → Source → Neighbor → Neighbor
one_sent a list np = move list a (add_to_update a np).0

one_sent-Keeps :
    (a : ℕ) (list : Source) (np : Neighbor)
    → Leads list a np
    → Keeps np (one_sent a list np)
      × ((one_sent a list np).lsat ≡ np.lsat)
      × (suc (unsent (one_sent a list np)) ≡ unsent np)
unfolding take_out
one_sent-Keeps a from_retrans np e =
    let np2 = (add_to_update a np).0 in
    let f = add_to_update-Fills a np in
    let lead : Leads from_retrans a np2 = ap first_entry f.lists.1 ∙ e in
    let less = take_out-unsent from_retrans a np2 lead in
    (
      Keeps-trans np np2 _ (Fills-Keeps np np2 f) (move-Keeps from_retrans a np2 lead),
      f.timer.0,
      less ∙ ap₂ (λ xs ys. length xs + length ys) f.lists.1 f.lists.2,
    )
one_sent-Keeps a from_failed np e =
    let np2 = (add_to_update a np).0 in
    let f = add_to_update-Fills a np in
    let lead : Leads from_failed a np2 = ap first_entry f.lists.2 ∙ e in
    let less = take_out-unsent from_failed a np2 lead in
    (
      Keeps-trans np np2 _ (Fills-Keeps np np2 f) (move-Keeps from_failed a np2 lead),
      f.timer.0,
      less ∙ ap₂ (λ xs ys. length xs + length ys) f.lists.1 f.lists.2,
    )

further :
    (np np2 : Neighbor) (r : Option (Neighbor × (ℕ × ℕ)))
    → Keeps np np2
    → (np2.lsat ≡ np.lsat)
    → Updates np2 r
    → Updates np r
further np np2 none k l u = u
further np np2 (some (np3, (n, t))) k l u = (Keeps-trans np np2 np3 k u.0, u.1 ∙ l, u.2)

pub updates_loop-Updates :
    (fuel : ℕ) (np : Neighbor) (space npkts : ℕ)
    → (unsent np < fuel)
    → Begun npkts space np
    → Sized np
    → Updates np (updates_loop fuel np space npkts)
unfolding updates_loop
updates_loop-Updates zero np space npkts h b s = absurd (omega arith)
updates_loop-Updates (suc fuel) np space npkts h b s =
    go (updates_loop-Updates fuel) (get_next_retrans np) (get_next_retrans-Next np)
  where
    go :
        (ih : (q : Neighbor) (space npkts : ℕ)
          → (unsent q < fuel)
          → Begun npkts space q
          → Sized q
          → Updates q (updates_loop fuel q space npkts))
        (r : Option (Neighbor × (ℕ × Option (Source × ℕ))))
        → Next np r
        → Updates np (elim r [
          | none ↦ none
          | some (np2, (nexttime, none)) ↦ some (np2, (npkts, nexttime))
          | some (np2, (nexttime, some (list, a))) ↦
              let full = ltb space (np2.lsas a).ls_length in
              let npkts2 = if full then suc npkts else npkts in
              let filled = add_to_update a np2 in
              let moved = take_out list a filled.0 in
              let rest =
                updates_loop fuel
                  (record moved { pend_retrans = moved.pend_retrans ++ a ∷ [] })
                  filled.1
                  npkts2 in
              if full && ltb np2.retrans_window npkts2 then some (np2, (npkts2, nexttime)) else rest
        ])
    go ih none n = n
    go ih (some (np2, (nexttime, none))) n = (
      Moves-Keeps np np2 n.1,
      n.1.same_lsat,
      elim b [ inl p ↦ inl p | inr q ↦ inr (n.1.same_pend ∙ q.1, n.2) ],
    )
    go ih (some (np2, (nexttime, some (list, a)))) n =
        let o = one_sent-Keeps a list np2 n.2.0 in
        let len : 0 < (np2.lsas a).ls_length = rw n.1.same_lsas (s a) in
        let sized : Sized (one_sent a list np2) = λ c. rw (o.0.same_lsas, n.1.same_lsas) (s c) in
        let full = ltb space (np2.lsas a).ls_length in
        let npkts2 = if full then suc npkts else npkts in
        let some_packet : 0 < npkts2 = ground arith in
        let rest =
          ih (one_sent a list np2) (add_to_update a np2).1 npkts2 (omega arith) (inl some_packet)
            sized in
        let kept = Moves-Keeps np np2 n.1 in
        elim (Bool-cases (full && ltb np2.retrans_window npkts2)) [
          | inl e ↦ rw e (kept, n.1.same_lsat, inl some_packet)
          | inr e ↦ rw e (
              further np (one_sent a list np2) _ (Keeps-trans np np2 _ kept o.0)
                (o.1 ∙ n.1.same_lsat) rest)
        ]

abbrev pub is_running : Option ℕ → Bool
is_running none = false
is_running (some t) = true

-- The timer runs, or nothing waits.
abbrev pub Awake : Neighbor → Type 0
Awake np = (is_running np.lsat ≡ true) ⊎ (waiting np ≡ 0)

pub start-runs : (s : ℕ) (t : Option ℕ) → is_running (start s t) ≡ true
start-runs s none = refl
start-runs s (some t) = refl

abbrev pub Resumed : Neighbor → Option Neighbor → Type 0
Resumed np none = ⊥
Resumed np (some np2) = Keeps np np2 × Awake np2

pub timer-Keeps : (np : Neighbor) (t : Option ℕ) → Keeps np (record np { lsat = t })
timer-Keeps np t = record {
  same_rxmt_interval = refl;
  same_lsas = refl;
  keeps_count = λ extra c. c;
  keeps_marks = λ others m. m;
}

nothing_waits :
    (np : Neighbor) (npkts nexttime : ℕ)
    → (ltb 0 npkts ≡ false)
    → (ltb 0 nexttime ≡ false)
    → Done np npkts nexttime
    → waiting np ≡ 0
nothing_waits np npkts nexttime e g (inl d) = absurd (ground arith)
nothing_waits np npkts nexttime e g (inr (p, inl t)) = absurd (ground arith)
nothing_waits np npkts nexttime e g (inr (p, inr u)) = omega (arith, ap length p)

finish_updates-Resumed :
    (np np2 : Neighbor) (npkts nexttime : ℕ)
    → Keeps np np2
    → Done np2 npkts nexttime
    → Resumed np (some (finish_updates (np2, (npkts, nexttime))))
unfolding finish_updates
finish_updates-Resumed np np2 npkts nexttime k d = elim (Bool-cases (ltb 0 npkts)) [
  | inl e ↦
      let sent = send_update np2 in
      let kept =
        Keeps-trans np2 sent _ (Fills-Keeps np2 sent (send_update-Fills np2))
          (timer-Keeps sent (start np2.rxmt_interval np2.lsat)) in
      rw e (Keeps-trans np np2 _ k kept, inl (start-runs np2.rxmt_interval np2.lsat))
  | inr e ↦ elim (Bool-cases (ltb 0 nexttime)) [
    | inl g ↦
        rw (e, g)
          (
            Keeps-trans np np2 _ k (timer-Keeps np2 (start nexttime np2.lsat)),
            inl (start-runs nexttime np2.lsat),
          )
    | inr g ↦ rw (e, g) (k, inr (nothing_waits np2 npkts nexttime e g d))
  ]
]

pub retrans_updates-Resumed :
    (np : Neighbor) → (np.pend_retrans ≡ []) → Sized np → Resumed np (retrans_updates np)
unfolding retrans_updates
retrans_updates-Resumed np e s =
    go (updates_loop (updates_fuel np) np 0 0)
      (updates_loop-Updates (updates_fuel np) np 0 0 (omega arith) (inr (refl, e)) s)
  where
    go :
        (r : Option (Neighbor × (ℕ × ℕ)))
        → Updates np r
        → Resumed np (elim r [ none ↦ none | some x ↦ some (finish_updates x) ])
    go none u = u
    go (some (np2, (npkts, nexttime))) u = finish_updates-Resumed np np2 npkts nexttime u.0 u.2
