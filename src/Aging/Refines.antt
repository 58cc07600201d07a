-- ===== src/Aging/Refines.antt =====
-- THospf/LSA.cpp: the links from `AgeBins` are lists, one of each age.
use ospfbasic.Prelude.{
  ℕ, ◌≡◌, ◌≤◌, refl, sym, subst, ◌∙◌, inl, inr, true, false, ◌&&◌, List, Option, none, some, arith,
  ◌==◌, if◌then◌else◌, Bool-cases, Option-cases,
}
use ospfbasic.Router.State.{Ptr}
use ospfbasic.Router.Actions.{mem_ptr, erase_ptr}
use ospfbasic.Router.NeighborFsm.Counters.{Distinct}
use ospfbasic.Pending.{update, points_to}
use ospfbasic.Pending.Chain.{Chain, before, Chain-update}
use ospfbasic.Pending.Refines.{mem-erase, Distinct-erase, erase_absent}
use ospfbasic.Lsa.{max_age}
use ospfbasic.Aging.{Aging, assign_at, assign_head, stop_aging}
use ospfbasic.Aging.Links.{next_mem, front_mem, before-erase, Chain-cut}

-- The list of each bin, in both directions; `in_agebin` and `lsa_agebin` say who stands where, and
-- every bin is one of `AgeBins`.
pub record Represents (ls : ℕ → List Ptr) (st : Aging) : Type 0 where
  pub chain : (b : ℕ) → Chain st.lsa_agefwd (st.age_bins b) (ls b)
  pub back : (b : ℕ) (q : Ptr) → mem_ptr q (ls b) ≡ true → st.lsa_agerv q ≡ before none q (ls b)
  pub distinct : (b : ℕ) → Distinct (ls b)
  pub held : (b : ℕ) (q : Ptr) → mem_ptr q (ls b) ≡ (st.in_agebin q && st.lsa_agebin q == b)
  pub bounded : (q : Ptr) → st.in_agebin q ≡ true → st.lsa_agebin q ≤ max_age

-- The lists without an advertisement.
abbrev pub without : Ptr → (ℕ → List Ptr) → ℕ → List Ptr
without p ls b = erase_ptr p (ls b)

-- An advertisement in a bin stands in the list of its bin, and in no other.
pub elsewhere :
    (ls : ℕ → List Ptr) (st : Aging) (p q : Ptr) (b c : ℕ)
    → Represents ls st
    → mem_ptr q (ls c) ≡ true
    → (c == b) ≡ false
    → mem_ptr q (ls b) ≡ false
elsewhere ls st p q b c r m k = ground (arith, r.held b q, r.held c q, m, k)

Chain-assign_at :
    (next : Ptr → Option Ptr) (o v h : Option Ptr) (ps : List Ptr)
    → ((b : Ptr) → o ≡ some b → mem_ptr b ps ≡ false)
    → Chain next h ps
    → Chain (assign_at o v next) h ps
Chain-assign_at next none v h ps m c = c
Chain-assign_at next (some b) v h ps m c = Chain-update next b v h ps (m b refl) c

pub at-assign_at :
    (o v : Option Ptr) (f : Ptr → Option Ptr) (q : Ptr)
    → assign_at o v f q ≡ (if points_to o q then v else f q)
unfolding update
at-assign_at none v f q = refl
at-assign_at (some p) v f q = ground arith

at-assign_head :
    (o v : Option Ptr) (bin b : ℕ) (bins : ℕ → Option Ptr)
    → (bin == b) ≡ false
    → assign_head o bin v bins b ≡ bins b
unfolding update
at-assign_head none v bin b bins k = ground (arith, k)
at-assign_head (some p) v bin b bins k = refl

-- What `stop_aging` makes of the links forward.
abbrev cut : Ptr → Aging → Ptr → Option Ptr
cut p st = assign_at (st.lsa_agerv p) (st.lsa_agefwd p) st.lsa_agefwd

cut_self : (p : Ptr) (st : Aging) → cut p st p ≡ st.lsa_agefwd p
cut_self p st = at-assign_at (st.lsa_agerv p) (st.lsa_agefwd p) st.lsa_agefwd p ∙ ground arith

module _ (ls : ℕ → List Ptr) (st : Aging) (p : Ptr) (r : Represents ls st) where
  p_gone : (b : ℕ) → mem_ptr p (erase_ptr p (ls b)) ≡ false
  p_gone b = mem-erase p p (ls b) (r.distinct b) ∙ ground arith

  p_inside : st.in_agebin p ≡ true → mem_ptr p (ls (st.lsa_agebin p)) ≡ true
  p_inside aging = r.held (st.lsa_agebin p) p ∙ ground (arith, aging)

  p_elsewhere : (b : ℕ) → (st.lsa_agebin p == b) ≡ false → mem_ptr p (ls b) ≡ false
  p_elsewhere b k = r.held b p ∙ ground (arith, k)

  linked_here :
      st.in_agebin p ≡ true
      → Chain
          (cut p st)
          (assign_head
            (st.lsa_agerv p)
            (st.lsa_agebin p)
            (st.lsa_agefwd p)
            st.age_bins
            (st.lsa_agebin p))
          (erase_ptr p (ls (st.lsa_agebin p)))
  linked_here aging =
      let m = p_inside aging in
      let b = st.lsa_agebin p in
      subst
        (λ o.
          Chain (assign_at o (st.lsa_agefwd p) st.lsa_agefwd)
            (assign_head o b (st.lsa_agefwd p) st.age_bins b) (erase_ptr p (ls b)))
        (sym (r.back b p m))
        (Chain-cut st.lsa_agefwd st.age_bins b p (ls b) (r.chain b) (r.distinct b) m)

  linked_there :
      st.in_agebin p ≡ true
      → (b : ℕ) → (st.lsa_agebin p == b) ≡ false
      → Chain
          (cut p st)
          (assign_head (st.lsa_agerv p) (st.lsa_agebin p) (st.lsa_agefwd p) st.age_bins b)
          (erase_ptr p (ls b))
  linked_there aging b k =
      let m = p_inside aging in
      rw
        (
          erase_absent p (ls b) (p_elsewhere b k),
          at-assign_head (st.lsa_agerv p) (st.lsa_agefwd p) (st.lsa_agebin p) b st.age_bins k,
        )
        (Chain-assign_at st.lsa_agefwd (st.lsa_agerv p) (st.lsa_agefwd p) (st.age_bins b) (ls b)
          (λ f e.
            elsewhere ls st p f b (st.lsa_agebin p) r
              (front_mem p f (ls (st.lsa_agebin p)) (sym (r.back (st.lsa_agebin p) p m) ∙ e)) k)
          (r.chain b))

  back_stopped :
      st.in_agebin p ≡ true
      → (b : ℕ) (q : Ptr) → mem_ptr q (ls b) ≡ true
      → (q == p) ≡ false
      → (if points_to (st.lsa_agefwd p) q then st.lsa_agerv p else st.lsa_agerv q)
        ≡ before none q (erase_ptr p (ls b))
  back_stopped aging b q m a = elim (Bool-cases (st.lsa_agebin p == b)) [
    | inl k ↦
        let e : st.lsa_agebin p ≡ b = ground (arith, k) in
        let pm : mem_ptr p (ls b) ≡ true =
          subst (λ b. mem_ptr p (ls b) ≡ true) e (p_inside aging) in
        rw (r.back b p pm, r.back b q m)
          (sym (
            before-erase st.lsa_agefwd (st.age_bins b) none p q (ls b) (r.chain b) (r.distinct b) pm
              m a))
    | inr k ↦ rw (erase_absent p (ls b) (p_elsewhere b k), not_behind k, r.back b q m) refl
  ]
    where
      not_behind : (st.lsa_agebin p == b) ≡ false → points_to (st.lsa_agefwd p) q ≡ false
      not_behind k = elim (Option-cases (st.lsa_agefwd p)) [
        | inl e ↦ rw e refl
        | inr (f, e) ↦
            let fm =
              next_mem st.lsa_agefwd (st.age_bins (st.lsa_agebin p)) p f (ls (st.lsa_agebin p))
                (r.chain (st.lsa_agebin p)) (p_inside aging) e in
            let out = elsewhere ls st p f b (st.lsa_agebin p) r fm k in
            rw e (ground (arith, out, m))
      ]

  stopped : st.in_agebin p ≡ true → Represents (without p ls) (stop_aging p st)
  unfolding stop_aging
  stopped aging =
      rw (aging, stop_aging)
        record {
          chain = λ b.
              Chain-update (cut p st) p none _ (erase_ptr p (ls b)) (p_gone b)
                (elim (Bool-cases (st.lsa_agebin p == b)) [
                  | inl k ↦
                      let e : st.lsa_agebin p ≡ b = ground (arith, k) in
                      rw (sym e) (linked_here aging)
                  | inr k ↦ linked_there aging b k
                ]);
          back = λ b q m.
              let a : (q == p) ≡ false = kept b q m in
              let mq = sym (mem-erase q p (ls b) (r.distinct b) ∙ rw a refl) ∙ m in
              back_updated q a ∙ back_stopped aging b q mq a;
          distinct = λ b. Distinct-erase p (ls b) (r.distinct b);
          held = λ b q.
              mem-erase q p (ls b) (r.distinct b) ∙ unfold update in ground (arith, r.held b q);
          bounded = λ q e. r.bounded q (unfold update in ground (arith, e));
        }
    where
      kept : (b : ℕ) (q : Ptr) → mem_ptr q (erase_ptr p (ls b)) ≡ true → (q == p) ≡ false
      kept b q m = ground (arith, m, mem-erase q p (ls b) (r.distinct b))

      back_updated :
          (q : Ptr)
          → (q == p) ≡ false
          → update (assign_at (cut p st p) (st.lsa_agerv p) st.lsa_agerv) p none q
            ≡ (if points_to (st.lsa_agefwd p) q then st.lsa_agerv p else st.lsa_agerv q)
      back_updated q a =
          rw (cut_self p st)
            (unfold update in rw a (at-assign_at (st.lsa_agefwd p) (st.lsa_agerv p) st.lsa_agerv q))

same-Represents :
    (ls ms : ℕ → List Ptr) (st : Aging)
    → ((b : ℕ) → ms b ≡ ls b)
    → Represents ls st
    → Represents ms st
same-Represents ls ms st h r = record {
  chain = λ b. rw (h b) (r.chain b);
  back = λ b q. rw (h b) (r.back b q);
  distinct = λ b. rw (h b) (r.distinct b);
  held = λ b q. rw (h b) (r.held b q);
  bounded = r.bounded;
}

-- On links that represent the lists of the bins, `stop_aging` takes the advertisement out of its
-- list, and changes nothing if it is in none.
pub stop_aging-Represents :
    (p : Ptr) (st : Aging) (ls : ℕ → List Ptr)
    → Represents ls st
    → Represents (without p ls) (stop_aging p st)
stop_aging-Represents p st ls r = elim (Bool-cases (st.in_agebin p)) [
  | inl k ↦ stopped ls st p r k
  | inr k ↦
      same-Represents ls (without p ls) (stop_aging p st)
        (λ b. erase_absent p (ls b) (r.held b p ∙ rw k refl))
        (subst (Represents ls) (sym (idle k)) r)
]
  where
    idle : st.in_agebin p ≡ false → stop_aging p st ≡ st
    idle k = unfold stop_aging in rw k refl
