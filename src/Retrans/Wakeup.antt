-- ===== src/Retrans/Wakeup.antt =====
-- THospf/ospfAck.cpp: the loop of `get_next_retrans`, with the counts of what waits.
use ospfbasic.Prelude.{
  ℕ, zero, suc, ◌+◌, ◌%◌, ◌^◌, ◌≡◌, ◌≢◌, ◌<◌, ◌≤◌, refl, ap, ◌∙◌, inl, inr, ◌⊎◌, true, false, ◌&&◌,
  List, [], ◌∷◌, Option, none, some, ltb, ◌==◌, if◌then◌else◌, length, arith, Bool-cases,
}
use ospfbasic.Retrans.{
  Advert, Neighbor, Source, from_retrans, from_failed, Round, again, finish, remove, first_entry,
  take_out, check_valid, one_round, next_loop, next_fuel, get_next_retrans,
}

-- How many advertisements wait.
abbrev pub waiting : Neighbor → ℕ
waiting np = length np.pend_retrans + length np.retrans + length np.failed_retrans

abbrev pub unsent : Neighbor → ℕ
unsent np = length np.retrans + length np.failed_retrans

-- `retrans_cnt` counts those that wait, and `extra` more.
abbrev pub Counted : ℕ → Neighbor → Type 0
Counted extra np = np.retrans_cnt ≡ (extra + waiting np) % 2 ^ 32

-- How often an advertisement is in a list, and in the three lists.
abbrev pub occurs : ℕ → List ℕ → ℕ
occurs a [] = 0
occurs a (x ∷ xs) = (if x == a then 1 else 0) + occurs a xs

abbrev pub owed : ℕ → Neighbor → ℕ
owed a np = occurs a np.pend_retrans + occurs a np.retrans + occurs a np.failed_retrans

-- `lsa_rxmt` of the valid advertisements counts this neighbor's lists and those of the others.
abbrev pub Marked : (ℕ → ℕ) → Neighbor → Type 0
Marked others np =
    (a : ℕ) → ((np.lsas a).valid ≡ true) → np.lsa_rxmt a ≡ (others a + owed a np) % 2 ^ 16

pub remove-other : (a b : ℕ) (xs : List ℕ) → (a ≢ b) → occurs b (remove a xs).0 ≡ occurs b xs
unfolding remove
remove-other a b [] d = refl
remove-other a b (x ∷ xs) d = elim (Bool-cases (x == a)) [
  | inl e ↦ rw e (ground arith)
  | inr e ↦ rw e (ap (λ n. (if x == b then 1 else 0) + n) (remove-other a b xs d))
]

not_valid : (db : ℕ → Advert) (a b : ℕ) → ((db a).valid ≡ false) → ((db b).valid ≡ true) → a ≢ b
not_valid db a b v w e = cc (v, w, e)

-- The advertisement of a list, if it stands first there.
abbrev pub Leads : Source → ℕ → Neighbor → Type 0
Leads from_retrans a np = first_entry np.retrans ≡ some a
Leads from_failed a np = first_entry np.failed_retrans ≡ some a

pub remove-first :
    (a : ℕ) (xs : List ℕ) → (first_entry xs ≡ some a) → suc (length (remove a xs).0) ≡ length xs
unfolding remove
remove-first a [] e = cc e
remove-first a (x ∷ xs) e =
    let q : x ≡ a = ground arith in let t : (x == a) ≡ true = ground arith in rw t refl

pub take_out-unsent :
    (list : Source) (a : ℕ) (np : Neighbor)
    → Leads list a np
    → suc (unsent (take_out list a np)) ≡ unsent np
unfolding take_out
take_out-unsent from_retrans a np e = let h = remove-first a np.retrans e in omega arith
take_out-unsent from_failed a np e = let h = remove-first a np.failed_retrans e in omega arith

-- What the fuel counts: the advertisements not sent, and whether `nexttime` is still to be set.
abbrev rounds : Neighbor → ℕ → ℕ
rounds np nexttime = unsent np + (if nexttime == 0 then 2 else 1)

-- What a round of the loop may do to a neighbor.
pub record Moves (np np2 : Neighbor) : Type 0 where
  pub same_pend : np2.pend_retrans ≡ np.pend_retrans
  pub same_lsat : np2.lsat ≡ np.lsat
  pub same_rxmt_interval : np2.rxmt_interval ≡ np.rxmt_interval
  pub same_lsas : np2.lsas ≡ np.lsas
  pub same_output :
      (np2.n_update ≡ np.n_update) × (np2.sent ≡ np.sent) × (np2.retrans_window ≡ np.retrans_window)
  pub keeps_count : (extra : ℕ) → Counted extra np → Counted extra np2
  pub keeps_marks : (others : ℕ → ℕ) → Marked others np → Marked others np2

-- The result of `get_next_retrans`: an advertisement that leads its list, or that nothing is left,
-- up to one that is too young.
abbrev pub Ends : Neighbor → ℕ → Option (Source × ℕ) → Type 0
Ends np nexttime none = (0 < nexttime) ⊎ (unsent np ≡ 0)
Ends np nexttime (some (list, a)) = Leads list a np × ((np.lsas a).valid ≡ true)

abbrev Rounds : Neighbor → ℕ → Round → Type 0
Rounds np nexttime (again np2 time) =
    (rounds np2 time < rounds np nexttime) × (unsent np2 ≤ unsent np) × Moves np np2
Rounds np nexttime (finish r) = Ends np nexttime r

check_valid-Rounds :
    (np : Neighbor) (nexttime : ℕ) (list : Source) (a : ℕ)
    → Leads list a np
    → Rounds np nexttime (check_valid np nexttime list a)
unfolding check_valid take_out
check_valid-Rounds np nexttime from_retrans a e = elim (Bool-cases (np.lsas a).valid) [
  | inl v ↦ rw v (e, v)
  | inr v ↦
      let h = remove-first a np.retrans e in
      rw v (
        omega arith,
        omega arith,
        record {
          same_pend = refl;
          same_lsat = refl;
          same_rxmt_interval = refl;
          same_lsas = refl;
          same_output = (refl, refl, refl);
          keeps_count = λ extra c. omega arith;
          keeps_marks = λ others m b w.
              let o = remove-other a b np.retrans (not_valid np.lsas a b v w) in rw o (m b w);
        },
      )
]
check_valid-Rounds np nexttime from_failed a e = elim (Bool-cases (np.lsas a).valid) [
  | inl v ↦ rw v (e, v)
  | inr v ↦
      let h = remove-first a np.failed_retrans e in
      rw v (
        omega arith,
        omega arith,
        record {
          same_pend = refl;
          same_lsat = refl;
          same_rxmt_interval = refl;
          same_lsas = refl;
          same_output = (refl, refl, refl);
          keeps_count = λ extra c. omega arith;
          keeps_marks = λ others m b w.
              let o = remove-other a b np.failed_retrans (not_valid np.lsas a b v w) in
              rw o (m b w);
        },
      )
]

Moves-refl : (np : Neighbor) → Moves np np
Moves-refl np = record {
  same_pend = refl;
  same_lsat = refl;
  same_rxmt_interval = refl;
  same_lsas = refl;
  same_output = (refl, refl, refl);
  keeps_count = λ extra c. c;
  keeps_marks = λ others m. m;
}

Moves-trans : (a b c : Neighbor) → Moves a b → Moves b c → Moves a c
Moves-trans a b c m n = record {
  same_pend = n.same_pend ∙ m.same_pend;
  same_lsat = n.same_lsat ∙ m.same_lsat;
  same_rxmt_interval = n.same_rxmt_interval ∙ m.same_rxmt_interval;
  same_lsas = n.same_lsas ∙ m.same_lsas;
  same_output = (
    n.same_output.0 ∙ m.same_output.0,
    n.same_output.1 ∙ m.same_output.1,
    n.same_output.2 ∙ m.same_output.2,
  );
  keeps_count = λ extra h. n.keeps_count extra (m.keeps_count extra h);
  keeps_marks = λ others h. n.keeps_marks others (m.keeps_marks others h);
}

first-cases :
    (xs : List ℕ)
    → ((first_entry xs ≡ none) × (length xs ≡ 0)) ⊎ ((a : ℕ) × (first_entry xs ≡ some a))
first-cases [] = inl (refl, refl)
first-cases (x ∷ xs) = inr (x, refl)

one_round-Rounds : (np : Neighbor) (nexttime : ℕ) → Rounds np nexttime (one_round np nexttime)
unfolding one_round
one_round-Rounds np nexttime = elim (Bool-cases (nexttime == 0)) [
  | inl z ↦ elim (first-cases np.retrans) [
    | inl (e, l) ↦ elim (first-cases np.failed_retrans) [
      | inl (g, m) ↦ rw (z, e, g, one_round) (inr (omega arith))
      | inr (a, g) ↦ rw (z, e, g, one_round) (check_valid-Rounds np nexttime from_failed a g)
    ]
    | inr (a, e) ↦
        elim (Bool-cases ((np.lsas a).valid && ltb (np.lsas a).since_received np.rxmt_interval)) [
          | inl y ↦ rw (z, e, y, one_round) (ground arith, omega arith, Moves-refl np)
          | inr y ↦ rw (z, e, y, one_round) (check_valid-Rounds np nexttime from_retrans a e)
        ]
  ]
  | inr z ↦ elim (first-cases np.failed_retrans) [
    | inl (g, m) ↦ rw (z, g, one_round) (inl (ground arith))
    | inr (a, g) ↦ rw (z, g, one_round) (check_valid-Rounds np nexttime from_failed a g)
  ]
]

-- The loop returns on enough fuel.
abbrev pub Next : Neighbor → Option (Neighbor × (ℕ × Option (Source × ℕ))) → Type 0
Next np none = ⊥
Next np (some (np2, (time, r))) = (unsent np2 ≤ unsent np) × Moves np np2 × Ends np2 time r

next_loop-Next :
    (fuel : ℕ) (np : Neighbor) (nexttime : ℕ)
    → (rounds np nexttime ≤ fuel)
    → Next np (next_loop fuel np nexttime)
unfolding next_loop
next_loop-Next zero np nexttime h = absurd (ground arith)
next_loop-Next (suc fuel) np nexttime h =
    go (next_loop-Next fuel) (one_round np nexttime) (one_round-Rounds np nexttime)
  where
    further :
        {np2 : Neighbor} (r : Option (Neighbor × (ℕ × Option (Source × ℕ))))
        → Next np2 r
        → (unsent np2 ≤ unsent np)
        → Moves np np2
        → Next np r
    further none n l m = n
    further {np2} (some (np3, (t, r))) n l m =
        (omega (arith, n.0), Moves-trans np np2 np3 m n.1, n.2)

    go :
        ((q : Neighbor) (time : ℕ) → (rounds q time ≤ fuel) → Next q (next_loop fuel q time))
        → (r : Round) → Rounds np nexttime r
        → Next np (elim r [
          | again np2 time ↦ next_loop fuel np2 time
          | finish e ↦ some (np, (nexttime, e))
        ])
    go ih (again np2 time) s =
        let n = ih np2 time (omega arith) in further (next_loop fuel np2 time) n s.1 s.2
    go ih (finish r) s = (omega arith, Moves-refl np, s)

pub get_next_retrans-Next : (np : Neighbor) → Next np (get_next_retrans np)
unfolding get_next_retrans
get_next_retrans-Next np = next_loop-Next (next_fuel np) np 0 (omega arith)
