-- ===== src/Retrans/Acknowledged.antt =====
-- THospf/ospfAck.cpp: an acknowledgment, on the lists, the counters and the timer.
use ospfbasic.Prelude.{
  ℕ, suc, ◌+◌, ◌≡◌, ◌≤◌, refl, ap, ◌∙◌, inl, inr, true, List, [], ◌∷◌, Option, none, some, ◌==◌,
  if◌then◌else◌, length, arith, Bool-cases,
}
use ospfbasic.Retrans.{
  Neighbor, remove, minus_word, is_empty, retrans_updates, pending_removed, acked,
  remove_from_retranslist,
}
use ospfbasic.Retrans.Wakeup.{waiting, Counted, Marked, occurs, owed}
use ospfbasic.Retrans.Packets.{Keeps}
use ospfbasic.Retrans.Updates.{Sized, Awake, is_running, Resumed, retrans_updates-Resumed}
use ospfbasic.Retrans.Sound.{IsSound, Returns, same_address, other_address, set_rxmt-lem}

-- Where an advertisement has been found and taken out.
remove-found :
    (a b : ℕ) (xs : List ℕ)
    → ((remove a xs).1 ≡ true)
    → (occurs b xs ≡ (if a == b then 1 else 0) + occurs b (remove a xs).0)
      × (length xs ≡ suc (length (remove a xs).0))
unfolding remove
remove-found a b [] e = cc e
remove-found a b (x ∷ xs) e = elim (Bool-cases (x == a)) [
  | inl t ↦ rw t (ground arith, refl)
  | inr t ↦ let r = remove-found a b xs (ground arith) in rw t (ground arith, omega arith)
]

-- The state between an acknowledged advertisement's leaving its list and the counters' change.
bumped : (ℕ → ℕ) → ℕ → ℕ → ℕ
bumped others a b = others b + (if a == b then 1 else 0)

acked-Marked :
    (others : ℕ → ℕ) (a : ℕ) (np : Neighbor)
    → Marked (bumped others a) np
    → Marked others (acked a np)
unfolding acked bumped
acked-Marked others a np m b v =
    let h = m b v in
    set_rxmt-lem np.lsa_rxmt a b (minus_word 16 (np.lsa_rxmt a) 1) (owed b np)
      ((if a == b then 1 else 0) + owed b np) others (omega arith)
      (λ e h. let t = (same_address a b e).0 in ground arith)
      (λ e. let t = other_address a b e in ground arith)

acked-IsSound :
    (others : ℕ → ℕ) (a : ℕ) (np : Neighbor)
    → Counted 1 np
    → Marked (bumped others a) np
    → Awake np
    → Sized np
    → IsSound others (acked a np)
unfolding acked
acked-IsSound others a np c m w s = record {
  counted = omega arith;
  marked = acked-Marked others a np m;
  awake = w;
  sized = s;
}

-- A list that has lost an advertisement.
removed_pending :
    (others : ℕ → ℕ) (a : ℕ) (np : Neighbor)
    → ((remove a np.pend_retrans).1 ≡ true)
    → Counted 0 np
    → Marked others np
    → Counted 1 (record np { pend_retrans = (remove a np.pend_retrans).0 })
      × Marked (bumped others a) (record np { pend_retrans = (remove a np.pend_retrans).0 })
unfolding bumped
removed_pending others a np e c m =
    let len = (remove-found a a np.pend_retrans e).1 in
    (
      omega arith,
      (λ b v. let h = m b v in let o = (remove-found a b np.pend_retrans e).0 in omega arith),
    )

removed_retrans :
    (others : ℕ → ℕ) (a : ℕ) (np : Neighbor)
    → ((remove a np.retrans).1 ≡ true)
    → Counted 0 np
    → Marked others np
    → Counted 1 (record np { retrans = (remove a np.retrans).0 })
      × Marked (bumped others a) (record np { retrans = (remove a np.retrans).0 })
unfolding bumped
removed_retrans others a np e c m =
    let len = (remove-found a a np.retrans e).1 in
    (
      omega arith,
      (λ b v. let h = m b v in let o = (remove-found a b np.retrans e).0 in omega arith),
    )

removed_failed :
    (others : ℕ → ℕ) (a : ℕ) (np : Neighbor)
    → ((remove a np.failed_retrans).1 ≡ true)
    → Counted 0 np
    → Marked others np
    → Counted 1 (record np { failed_retrans = (remove a np.failed_retrans).0 })
      × Marked (bumped others a) (record np { failed_retrans = (remove a np.failed_retrans).0 })
unfolding bumped
removed_failed others a np e c m =
    let len = (remove-found a a np.failed_retrans e).1 in
    (
      omega arith,
      (λ b v. let h = m b v in let o = (remove-found a b np.failed_retrans e).0 in omega arith),
    )

-- A list that gets shorter leaves the timer as it is.
pub shorter-Awake :
    (np np2 : Neighbor) → (np2.lsat ≡ np.lsat) → (waiting np2 ≤ waiting np) → Awake np → Awake np2
shorter-Awake np np2 e l (inl r) = inl (ap is_running e ∙ r)
shorter-Awake np np2 e l (inr w) = inr (omega arith)

empty-list : (xs : List ℕ) → (is_empty xs ≡ true) → xs ≡ []
empty-list [] e = refl
empty-list (x ∷ xs) e = cc e

pub Sized-Keeps : (np np2 : Neighbor) → Keeps np np2 → Sized np → Sized np2
Sized-Keeps np np2 k s a = rw k.same_lsas (s a)

resumed_acked :
    (others : ℕ → ℕ) (a : ℕ) (np : Neighbor)
    → (np.pend_retrans ≡ [])
    → Counted 1 np
    → Marked (bumped others a) np
    → Sized np
    → Returns (λ q. IsSound others (acked a q)) (retrans_updates np)
resumed_acked others a np e c m s = go (retrans_updates np) (retrans_updates-Resumed np e s)
  where
    go : (r : Option Neighbor) → Resumed np r → Returns (λ q. IsSound others (acked a q)) r
    go none u = u
    go (some np2) (k, w) =
        acked-IsSound others a np2 (k.keeps_count 1 c) (k.keeps_marks (bumped others a) m) w
          (Sized-Keeps np np2 k s)

pending_removed-IsSound :
    (others : ℕ → ℕ) (a : ℕ) (np : Neighbor)
    → ((remove a np.pend_retrans).1 ≡ true)
    → IsSound others np
    → Returns (λ q. IsSound others (acked a q)) (pending_removed (remove a np.pend_retrans).0 np)
unfolding pending_removed
pending_removed-IsSound others a np e s =
    elim (Bool-cases (is_empty (remove a np.pend_retrans).0)) [
      | inl z ↦
          let r = removed_pending others a np e s.counted s.marked in
          rw z (resumed_acked others a _ (empty-list _ z) r.0 r.1 s.sized)
      | inr z ↦
          let r = removed_pending others a np e s.counted s.marked in
          let len = (remove-found a a np.pend_retrans e).1 in
          rw z (
            acked-IsSound others a (record np { pend_retrans = (remove a np.pend_retrans).0 }) r.0
              r.1
              (shorter-Awake np (record np { pend_retrans = (remove a np.pend_retrans).0 }) refl
                (omega arith) s.awake)
              s.sized)
    ]

pub remove_from_retranslist-IsSound :
    (others : ℕ → ℕ) (a : ℕ) (np : Neighbor)
    → IsSound others np
    → Returns (IsSound others) (remove_from_retranslist a np)
unfolding remove_from_retranslist
remove_from_retranslist-IsSound others a np s = elim (Bool-cases (remove a np.retrans).1) [
  | inl e ↦
      let r = removed_retrans others a np e s.counted s.marked in
      let len = (remove-found a a np.retrans e).1 in
      let np2 : Neighbor = record np { retrans = (remove a np.retrans).0 } in
      rw e (
        acked-IsSound others a np2 r.0 r.1 (shorter-Awake np np2 refl (omega arith) s.awake)
          s.sized)
  | inr e ↦ elim (Bool-cases (remove a np.pend_retrans).1) [
    | inl f ↦
        rw (e, f, remove_from_retranslist)
          (through (pending_removed (remove a np.pend_retrans).0 np)
            (pending_removed-IsSound others a np f s))
    | inr f ↦ elim (Bool-cases (remove a np.failed_retrans).1) [
      | inl g ↦
          let r = removed_failed others a np g s.counted s.marked in
          let len = (remove-found a a np.failed_retrans g).1 in
          let np2 : Neighbor = record np { failed_retrans = (remove a np.failed_retrans).0 } in
          rw (e, f, g)
            (acked-IsSound others a np2 r.0 r.1 (shorter-Awake np np2 refl (omega arith) s.awake)
              s.sized)
      | inr g ↦ rw (e, f, g) s
    ]
  ]
]
  where
    through :
        (r : Option Neighbor)
        → Returns (λ q. IsSound others (acked a q)) r
        → Returns (IsSound others) (elim r [ none ↦ none | some np2 ↦ some (acked a np2) ])
    through none h = h
    through (some np2) h = h
