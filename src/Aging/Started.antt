-- ===== src/Aging/Started.antt =====
-- THospf/LSA.cpp: `start_aging` on the lists that the links from `AgeBins` are.
use ospfbasic.Prelude.{
  ℕ, ◌≡◌, ◌≤◌, refl, sym, ap, subst, ◌∙◌, inl, inr, Bool, true, false, ◌||◌, List, [], ◌∷◌, Option,
  none, some, arith, ◌==◌, if◌then◌else◌, leb, Bool-cases, Option-cases, ==_iff,
}
use ospfbasic.Router.State.{Ptr}
use ospfbasic.Router.Actions.{mem_ptr}
use ospfbasic.Pending.{update, points_to}
use ospfbasic.Pending.Chain.{Chain, before, Chain-update}
use ospfbasic.Lsa.{max_age, has_do_not_age, bin_to_age}
use ospfbasic.Lsa.Age.{bin_to_age-age_to_bin}
use ospfbasic.Aging.{Aging, assign_at, stop_aging, starting_bin, file_aging, start_aging}
use ospfbasic.Aging.Refines.{Represents, without, elsewhere, at-assign_at, stop_aging-Represents}

-- The lists with an advertisement in front of those of a bin.
abbrev pub put : ℕ → Ptr → (ℕ → List Ptr) → ℕ → List Ptr
put bin p ls b = if bin == b then p ∷ ls b else ls b

-- The lists with an advertisement of some age in front of its bin: of MaxAge, it is in none.
abbrev pub filed : ℕ → ℕ → Ptr → (ℕ → List Ptr) → ℕ → List Ptr
filed bin0 age p ls = if age == max_age then ls else put (starting_bin bin0 age) p ls

head_mem :
    (next : Ptr → Option Ptr) (h : Option Ptr) (f : Ptr) (ps : List Ptr)
    → Chain next h ps
    → h ≡ some f
    → mem_ptr f ps ≡ true
unfolding mem_ptr
head_mem next h f [] c e = cc (c, e)
head_mem next h f (q ∷ qs) c e = ground (arith, c.0, e)

-- The elements before in a list with a new first one.
before_put :
    (next rv : Ptr → Option Ptr) (h : Option Ptr) (p q : Ptr) (ps : List Ptr)
    → Chain next h ps
    → mem_ptr p ps ≡ false
    → mem_ptr q (p ∷ ps) ≡ true
    → (mem_ptr q ps ≡ true → rv q ≡ before none q ps)
    → (if points_to h q then some p else update rv p none q) ≡ before none q (p ∷ ps)
unfolding mem_ptr before update
before_put next rv h p q [] c m n b = rw c (ground (arith, n))
before_put next rv h p q (f ∷ fs) c m n b = rw c.0 (ground (arith, m, n, b))

module _ (ls : ℕ → List Ptr) (st : Aging) (p : Ptr) (r : Represents ls st)
    (idle : st.in_agebin p ≡ false) where
  absent : (b : ℕ) → mem_ptr p (ls b) ≡ false
  absent b = r.held b p ∙ rw idle refl

  aged_out : (bin0 : ℕ) → (st.lsa_rcvage p == max_age) ≡ true → Represents ls (file_aging bin0 p st)
  unfolding file_aging
  aged_out bin0 k =
      rw (k, file_aging)
        record {
          chain = r.chain;
          back = r.back;
          distinct = r.distinct;
          held = λ b q. unfold update in ground (arith, r.held b q, idle, ==_iff q p);
          bounded = λ q e. unfold update in ground (arith, e, idle, r.bounded q e);
        }

  module _ (bin : ℕ) where
    linked_first :
        (b : ℕ)
        → bin ≡ b
        → Chain
            (update st.lsa_agefwd p (st.age_bins bin))
            (update st.lsa_agefwd p (st.age_bins bin) p)
            (ls b)
    linked_first b e = rw (sym e) (
        subst (λ h. Chain (update st.lsa_agefwd p (st.age_bins bin)) h (ls bin)) (sym self)
          (Chain-update st.lsa_agefwd p (st.age_bins bin) (st.age_bins bin) (ls bin) (absent bin)
            (r.chain bin)))
      where
        self : update st.lsa_agefwd p (st.age_bins bin) p ≡ st.age_bins bin
        self = unfold update in ground arith

    linked_put :
        (b : ℕ)
        → Chain
            (update st.lsa_agefwd p (st.age_bins bin))
            (update st.age_bins bin (some p) b)
            (put bin p ls b)
    linked_put b = elim (Bool-cases (bin == b)) [
      | inl k ↦ rw k (unfold update in ground (arith, k), linked_first b ((==_iff bin b).0 k))
      | inr k ↦
          let same : update st.age_bins bin (some p) b ≡ st.age_bins b =
            unfold update in ground (arith, k) in
          rw (k, same)
            (Chain-update st.lsa_agefwd p (st.age_bins bin) (st.age_bins b) (ls b) (absent b)
              (r.chain b))
    ]

    back_put :
        (b : ℕ) (q : Ptr)
        → mem_ptr q (put bin p ls b) ≡ true
        → assign_at (st.age_bins bin) (some p) (update st.lsa_agerv p none) q
          ≡ before none q (put bin p ls b)
    back_put b q m = elim (Bool-cases (bin == b)) [
      | inl k ↦
          let e : b ≡ bin = sym ((==_iff bin b).0 k) in
          let n : mem_ptr q (p ∷ ls bin) ≡ true =
            subst (λ xs. mem_ptr q xs ≡ true) (rw (k, e) refl) m in
          at-assign_at (st.age_bins bin) (some p) (update st.lsa_agerv p none) q
          ∙ before_put st.lsa_agefwd st.lsa_agerv (st.age_bins bin) p q (ls bin) (r.chain bin)
              (absent bin) n (r.back bin q)
          ∙ rw (k, e) refl
      | inr k ↦
          let n : mem_ptr q (ls b) ≡ true = subst (λ xs. mem_ptr q xs ≡ true) (rw k refl) m in
          at-assign_at (st.age_bins bin) (some p) (update st.lsa_agerv p none) q
          ∙ rw (k, not_first b q k n, sym (r.back b q n))
              (unfold update in ground (arith, n, absent b, ==_iff q p))
    ]
      where
        not_first :
            (b : ℕ) (q : Ptr)
            → (bin == b) ≡ false
            → mem_ptr q (ls b) ≡ true
            → points_to (st.age_bins bin) q ≡ false
        not_first b q k n = elim (Option-cases (st.age_bins bin)) [
          | inl e ↦ rw e refl
          | inr (f, e) ↦
              let fm = head_mem st.lsa_agefwd (st.age_bins bin) f (ls bin) (r.chain bin) e in
              let out = elsewhere ls st p f b bin r fm k in rw e (ground (arith, out, n))
        ]

  put-Represents :
      (bin0 : ℕ)
      → (st.lsa_rcvage p == max_age) ≡ false
      → starting_bin bin0 (st.lsa_rcvage p) ≤ max_age
      → Represents (put (starting_bin bin0 (st.lsa_rcvage p)) p ls) (file_aging bin0 p st)
  unfolding file_aging
  put-Represents bin0 k h =
      rw (k, file_aging)
        record {
          chain = linked_put (starting_bin bin0 (st.lsa_rcvage p));
          back = back_put (starting_bin bin0 (st.lsa_rcvage p));
          distinct = λ b. elim (Bool-cases (starting_bin bin0 (st.lsa_rcvage p) == b)) [
            | inl k ↦ rw k (absent b, r.distinct b)
            | inr k ↦ rw k (r.distinct b)
          ];
          held = λ b q. unfold update mem_ptr in ground (arith, r.held b q, idle, ==_iff q p);
          bounded = λ q e. unfold update in ground (arith, e, h, r.bounded q);
        }

  filed-Represents :
      (bin0 : ℕ)
      → starting_bin bin0 (st.lsa_rcvage p) ≤ max_age
      → Represents (filed bin0 (st.lsa_rcvage p) p ls) (file_aging bin0 p st)
  filed-Represents bin0 h = elim (Bool-cases (st.lsa_rcvage p == max_age)) [
    | inl k ↦ rw k (aged_out bin0 k)
    | inr k ↦ rw k (put-Represents bin0 k h)
  ]

-- The age at which an advertisement starts.
abbrev pub first_age : ℕ → ℕ
first_age age = if age == max_age || has_do_not_age age then 0 else age

-- An age that is kept: at most MaxAge, or with DoNotAge.
abbrev pub is_kept : ℕ → Bool
is_kept age = leb age max_age || has_do_not_age age

starting_bin_lem :
    (bin0 age : ℕ)
    → bin0 ≤ max_age
    → is_kept age ≡ true
    → (bin_to_age bin0 (starting_bin bin0 age) ≡ (if has_do_not_age age then 0 else age))
      × (starting_bin bin0 age ≤ max_age)
unfolding starting_bin
starting_bin_lem bin0 age h k = elim (Bool-cases (has_do_not_age age)) [
  | inl d ↦ rw d (bin_to_age-age_to_bin bin0 0 h (omega arith))
  | inr d ↦ rw d (bin_to_age-age_to_bin bin0 age h (ground (arith, k, d)))
]

stopped_first :
    (p : Ptr) (st : Aging) → (if st.in_agebin p then stop_aging p st else st) ≡ stop_aging p st
unfolding stop_aging
stopped_first p st = elim (Bool-cases (st.in_agebin p)) [ inl k ↦ rw k refl | inr k ↦ rw k refl ]

-- After `stop_aging` the advertisement is in no bin and has its age.
stop_aging-idle :
    (p : Ptr) (st : Aging)
    → ((stop_aging p st).in_agebin p ≡ false) × ((stop_aging p st).lsa_rcvage ≡ st.lsa_rcvage)
unfolding stop_aging update
stop_aging-idle p st = elim (Bool-cases (st.in_agebin p)) [
  | inl k ↦ rw (k, stop_aging) (ground arith, refl)
  | inr k ↦ rw (k, stop_aging) (k, refl)
]

file_aging-age :
    (bin0 : ℕ) (p : Ptr) (st : Aging)
    → bin0 ≤ max_age
    → is_kept (st.lsa_rcvage p) ≡ true
    → bin_to_age bin0 ((file_aging bin0 p st).lsa_agebin p) ≡ first_age (st.lsa_rcvage p)
unfolding file_aging update
file_aging-age bin0 p st h k =
    let e : (p == p) ≡ true = ground arith in
    elim (Bool-cases (st.lsa_rcvage p == max_age)) [
      | inl m ↦ rw (m, file_aging, e) (bin_to_age-age_to_bin bin0 0 h (omega arith)).0
      | inr m ↦ rw (m, file_aging, e) (starting_bin_lem bin0 (st.lsa_rcvage p) h k).0
    ]

-- On links that represent the lists of the bins, `start_aging` takes the advertisement out of its
-- list, if it is in one, and puts it in front of the list of its age, unless this is MaxAge. Its
-- bin is that of its age, and of age 0 where it is of MaxAge or has DoNotAge set. The age must be
-- at most MaxAge or have DoNotAge set.
pub start_aging-Represents :
    (bin0 : ℕ) (p : Ptr) (st : Aging) (ls : ℕ → List Ptr)
    → bin0 ≤ max_age
    → is_kept (st.lsa_rcvage p) ≡ true
    → Represents ls st
    → Represents (filed bin0 (st.lsa_rcvage p) p (without p ls)) (start_aging bin0 p st)
      × (bin_to_age bin0 ((start_aging bin0 p st).lsa_agebin p) ≡ first_age (st.lsa_rcvage p))
unfolding start_aging
start_aging-Represents bin0 p st ls h k r =
    rw (stopped_first p st, sym same)
      (
        filed-Represents (without p ls) (stop_aging p st) p (stop_aging-Represents p st ls r) idle.0
            bin0 (starting_bin_lem bin0 ((stop_aging p st).lsa_rcvage p) h kept).1,
        file_aging-age bin0 p (stop_aging p st) h kept,
      )
  where
    idle : ((stop_aging p st).in_agebin p ≡ false) × ((stop_aging p st).lsa_rcvage ≡ st.lsa_rcvage)
    idle = stop_aging-idle p st

    same : (stop_aging p st).lsa_rcvage p ≡ st.lsa_rcvage p
    same = ap (λ f. f p) idle.1

    kept : is_kept ((stop_aging p st).lsa_rcvage p) ≡ true
    kept = rw same k
