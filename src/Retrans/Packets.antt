-- ===== src/Retrans/Packets.antt =====
-- THospf/ospfAck.cpp and THospf/ospfUpdate.cpp: filling a packet, and moving an advertisement from
-- list to list.
use ospfbasic.Prelude.{
  ℕ, ◌+◌, ◌≡◌, refl, ◌∙◌, inl, inr, ◌⊎◌, true, List, [], ◌∷◌, ◌++◌, Option, none, some, ◌==◌,
  if◌then◌else◌, length-append, arith, Bool-cases,
}
use ospfbasic.Retrans.{
  Neighbor, Update, Source, from_retrans, from_failed, remove, first_entry, take_out, send_update,
  add_to_update, build_update, has_room,
}
use ospfbasic.Retrans.Wakeup.{Counted, Marked, occurs, Leads, Moves, remove-first}

-- What an operation keeps of a neighbor.
pub record Keeps (np np2 : Neighbor) : Type 0 where
  pub same_rxmt_interval : np2.rxmt_interval ≡ np.rxmt_interval
  pub same_lsas : np2.lsas ≡ np.lsas
  pub keeps_count : (extra : ℕ) → Counted extra np → Counted extra np2
  pub keeps_marks : (others : ℕ → ℕ) → Marked others np → Marked others np2

pub Keeps-trans : (a b c : Neighbor) → Keeps a b → Keeps b c → Keeps a c
Keeps-trans a b c m n = record {
  same_rxmt_interval = n.same_rxmt_interval ∙ m.same_rxmt_interval;
  same_lsas = n.same_lsas ∙ m.same_lsas;
  keeps_count = λ extra h. n.keeps_count extra (m.keeps_count extra h);
  keeps_marks = λ others h. n.keeps_marks others (m.keeps_marks others h);
}

pub Moves-Keeps : (a b : Neighbor) → Moves a b → Keeps a b
Moves-Keeps a b m = record {
  same_rxmt_interval = m.same_rxmt_interval;
  same_lsas = m.same_lsas;
  keeps_count = m.keeps_count;
  keeps_marks = m.keeps_marks;
}

pub occurs-append : (a : ℕ) (xs ys : List ℕ) → occurs a (xs ++ ys) ≡ occurs a xs + occurs a ys
occurs-append a [] ys = omega arith
occurs-append a (x ∷ xs) ys = let h = occurs-append a xs ys in omega arith

pub occurs-remove_first :
    (a b : ℕ) (xs : List ℕ)
    → (first_entry xs ≡ some a)
    → occurs b xs ≡ (if a == b then 1 else 0) + occurs b (remove a xs).0
unfolding remove
occurs-remove_first a b [] e = cc e
occurs-remove_first a b (x ∷ xs) e =
    let q : x ≡ a = ground arith in let t : (x == a) ≡ true = ground arith in rw (t, q) refl

-- A packet takes an advertisement in, and nothing else of the neighbor changes.
pub record Fills (np np2 : Neighbor) : Type 0 where
  pub lists :
      (np2.pend_retrans ≡ np.pend_retrans)
      × (np2.retrans ≡ np.retrans)
      × (np2.failed_retrans ≡ np.failed_retrans)
  pub counts :
      (np2.retrans_cnt ≡ np.retrans_cnt) × (np2.lsa_rxmt ≡ np.lsa_rxmt) × (np2.lsas ≡ np.lsas)
  pub timer : (np2.lsat ≡ np.lsat) × (np2.rxmt_interval ≡ np.rxmt_interval)

pub Fills-refl : (np : Neighbor) → Fills np np
Fills-refl np = record {
  lists = (refl, refl, refl);
  counts = (refl, refl, refl);
  timer = (refl, refl);
}

pub Fills-trans : (a b c : Neighbor) → Fills a b → Fills b c → Fills a c
Fills-trans a b c m n = record {
  lists = (n.lists.0 ∙ m.lists.0, n.lists.1 ∙ m.lists.1, n.lists.2 ∙ m.lists.2);
  counts = (n.counts.0 ∙ m.counts.0, n.counts.1 ∙ m.counts.1, n.counts.2 ∙ m.counts.2);
  timer = (n.timer.0 ∙ m.timer.0, n.timer.1 ∙ m.timer.1);
}

pub packet_cases : (u : Option Update) → (u ≡ none) ⊎ ((v : Update) × (u ≡ some v))
packet_cases none = inl refl
packet_cases (some v) = inr (v, refl)

pub send_update-Fills : (np : Neighbor) → Fills np (send_update np)
unfolding send_update
send_update-Fills np = elim (packet_cases np.n_update) [
  | inl e ↦
      rw (e, send_update)
        (record { lists = (refl, refl, refl); counts = (refl, refl, refl); timer = (refl, refl) })
  | inr (v, e) ↦
      rw (e, send_update)
        (record { lists = (refl, refl, refl); counts = (refl, refl, refl); timer = (refl, refl) })
]

pub build_update-Fills : (a : ℕ) (np : Neighbor) → Fills np (build_update a np).0
unfolding build_update
build_update-Fills a np = elim (packet_cases np.n_update) [
  | inl e ↦
      rw (e, build_update)
        (record { lists = (refl, refl, refl); counts = (refl, refl, refl); timer = (refl, refl) })
  | inr (v, e) ↦
      rw (e, build_update)
        (record { lists = (refl, refl, refl); counts = (refl, refl, refl); timer = (refl, refl) })
]

pub add_to_update-Fills : (a : ℕ) (np : Neighbor) → Fills np (add_to_update a np).0
unfolding add_to_update
add_to_update-Fills a np = elim (Bool-cases (has_room (np.lsas a).ls_length np.n_update)) [
  | inl e ↦ rw (e, add_to_update) (build_update-Fills a np)
  | inr e ↦
      rw (e, add_to_update)
        (Fills-trans np (send_update np) _ (send_update-Fills np)
          (build_update-Fills a (send_update np)))
]

-- The advertisement that leads a list goes to the end of those that wait for their acknowledgment.
abbrev pub move : Source → ℕ → Neighbor → Neighbor
move list a np =
    let moved = take_out list a np in record moved { pend_retrans = moved.pend_retrans ++ a ∷ [] }

pub move-Keeps :
    (list : Source) (a : ℕ) (np : Neighbor) → Leads list a np → Keeps np (move list a np)
unfolding take_out
move-Keeps from_retrans a np e =
    let h = remove-first a np.retrans e in
    let g = length-append np.pend_retrans (a ∷ []) in
    record {
      same_rxmt_interval = refl;
      same_lsas = refl;
      keeps_count = λ extra c. omega arith;
      keeps_marks = λ others m b v.
          let o = occurs-remove_first a b np.retrans e in
          let p = occurs-append b np.pend_retrans (a ∷ []) in let q = m b v in omega arith;
    }
move-Keeps from_failed a np e =
    let h = remove-first a np.failed_retrans e in
    let g = length-append np.pend_retrans (a ∷ []) in
    record {
      same_rxmt_interval = refl;
      same_lsas = refl;
      keeps_count = λ extra c. omega arith;
      keeps_marks = λ others m b v.
          let o = occurs-remove_first a b np.failed_retrans e in
          let p = occurs-append b np.pend_retrans (a ∷ []) in let q = m b v in omega arith;
    }

pub Fills-Keeps : (a b : Neighbor) → Fills a b → Keeps a b
Fills-Keeps a b f = record {
  same_rxmt_interval = f.timer.1;
  same_lsas = f.counts.2;
  keeps_count = λ extra c. rw (f.counts.0, f.lists.0, f.lists.1, f.lists.2) c;
  keeps_marks = λ others m. rw (f.counts.1, f.counts.2, f.lists.0, f.lists.1, f.lists.2) m;
}
