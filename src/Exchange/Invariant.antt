-- ===== src/Exchange/Invariant.antt =====
-- THospf/ospfDD.cpp: how the two sides judge what is on its way, step by step.
use ospfbasic.Prelude.{
  ◌+◌, ◌-◌, ◌%◌, ◌^◌, ◌≡◌, ℕ, ◌≢◌, ◌==◌, Bool-cases, ◌<◌, refl, sym, ap, subst, ◌∙◌, inl, inr, ◌⊎◌,
  Bool, true, false, if◌then◌else◌, List, [], ◌∷◌, ◌++◌, All, arith,
}
use ospfbasic.Exchange.{
  DdPkt, Side, is_master, Verdict, mismatched, ignored, repeated, taken, in_exchange, judge,
  advance, dd_header,
}
use ospfbasic.Exchange.Channel.{
  TwoRuns, All-sent, All-lost, TwoRuns-one, TwoRuns-sent, TwoRuns-lost,
}
use ospfbasic.Exchange.Protocol.{
  Net, Step, master_sends, slave_sends, lost_to_slave, lost_to_master, slave_takes, slave_returns,
  master_takes, master_returns, Reach, begun, then_step, IsPkt, IsSide, InStep,
}

-- A packet is judged so, or as a mismatch where its options are not those of the neighbor.
abbrev pub JudgedOr : Verdict → Side → DdPkt → Type 0
JudgedOr v n p = judge n p ≡ (if n.n_opts == p.dd_opts then v else mismatched)

judged :
    (v w : Verdict) (n : Side) (p : DdPkt) → JudgedOr v n p → judge n p ≡ w → w ≢ mismatched → v ≡ w
judged v w n p h e k = elim (Bool-cases (n.n_opts == p.dd_opts)) [
  | inl c ↦ sym (h ∙ rw c refl) ∙ e
  | inr c ↦ absurd (k (sym e ∙ h ∙ rw c refl))
]

judged_apart :
    (v w : Verdict) (n : Side) (p : DdPkt)
    → JudgedOr v n p
    → judge n p ≡ w
    → w ≢ mismatched
    → v ≢ w
    → ⊥
judged_apart v w n p h e k l = l (judged v w n p h e k)

-- How the sides judge the packets that are on their way.
pub slave-repeated :
    (s : Side) (p : DdPkt) → IsSide false s → IsPkt true s.n_ddseq p → JudgedOr repeated s p
unfolding judge in_exchange
slave-repeated s p h k = rw (h.1, judge) (ground arith)

pub slave-taken :
    (s : Side) (p : DdPkt)
    → IsSide false s
    → IsPkt true ((s.n_ddseq + 1) % 2 ^ 32) p
    → JudgedOr taken s p
unfolding judge in_exchange
slave-taken s p h k = rw (h.1, judge) (ground arith)

pub master-ignored :
    (m : Side) (p : DdPkt)
    → IsSide true m
    → IsPkt false ((m.n_ddseq + (2 ^ 32 - 1)) % 2 ^ 32) p
    → JudgedOr ignored m p
unfolding judge in_exchange
master-ignored m p h k = rw (h.1, judge) (ground arith)

pub master-taken :
    (m : Side) (p : DdPkt) → IsSide true m → IsPkt false m.n_ddseq p → JudgedOr taken m p
unfolding judge in_exchange
master-taken m p h k = rw (h.1, judge) (ground arith)

pub dd_header-IsPkt :
    (role : Bool) (n : Side) (opts : ℕ) (more bare : Bool)
    → IsSide role n
    → IsPkt role n.n_ddseq (dd_header opts more bare n)
unfolding dd_header
dd_header-IsPkt role n opts more bare h = (refl, refl, h.0)

pub advance-slave :
    (s : Side) (p : DdPkt)
    → IsSide false s
    → (p.dd_seqno < 2 ^ 32)
    → IsSide false (advance s p) × ((advance s p).n_ddseq ≡ p.dd_seqno)
unfolding advance is_master
advance-slave s p h l =
    let e : (if is_master s then (s.n_ddseq + 1) % 2 ^ 32 else p.dd_seqno) ≡ p.dd_seqno =
      ap (λ b. if b then (s.n_ddseq + 1) % 2 ^ 32 else p.dd_seqno) h.0 in
    ((h.0, h.1, omega arith), e)

pub advance-master :
    (m : Side) (p : DdPkt)
    → IsSide true m
    → IsSide true (advance m p) × ((advance m p).n_ddseq ≡ (m.n_ddseq + 1) % 2 ^ 32)
unfolding advance is_master
advance-master m p h =
    let e : (if is_master m then (m.n_ddseq + 1) % 2 ^ 32 else p.dd_seqno)
        ≡ (m.n_ddseq + 1) % 2 ^ 32 =
      ap (λ b. if b then (m.n_ddseq + 1) % 2 ^ 32 else p.dd_seqno) h.0 in
    ((h.0, h.1, omega arith), e)

-- The slave takes the packet of a master that is one ahead, and the master the answer to its own.
slave_took :
    (net : Net) (p : DdPkt) (ps : List DdPkt)
    → (net.to_slave ≡ p ∷ ps)
    → (judge net.slave p ≡ taken)
    → InStep net
    → InStep (record net { slave = advance net.slave p; to_slave = ps })
slave_took net p ps e j (h, k, inl (q, a, b)) =
    go (subst (TwoRuns (IsPkt true net.slave.n_ddseq) (IsPkt true net.master.n_ddseq)) e a)
  where
    go :
        TwoRuns (IsPkt true net.slave.n_ddseq) (IsPkt true net.master.n_ddseq) (p ∷ ps)
        → InStep (record net { slave = advance net.slave p; to_slave = ps })
    go (inl (x, t)) = absurd (
        judged_apart repeated taken net.slave p (slave-repeated net.slave p k x) j (λ e. cc e)
          (λ e. cc e))
    go (inr (x, t)) =
        let adv = advance-slave net.slave p k (omega arith) in
        let d : (advance net.slave p).n_ddseq ≡ net.master.n_ddseq = adv.1 ∙ x.0 in
        let before : net.slave.n_ddseq ≡ ((advance net.slave p).n_ddseq + (2 ^ 32 - 1)) % 2 ^ 32 =
          omega arith in
        (
          h,
          adv.0,
          inr (
            sym d,
            t,
            TwoRuns-one _ _ net.to_master (subst (λ n. All (IsPkt false n) net.to_master) before b),
          ),
        )
slave_took net p ps e j (h, k, inr (q, a, b)) =
    let x = (subst (All (IsPkt true net.master.n_ddseq)) e a).0 in
    absurd (
      judged_apart repeated taken net.slave p (slave-repeated net.slave p k (x.0 ∙ q, x.1, x.2)) j
        (λ e. cc e) (λ e. cc e))

master_took :
    (net : Net) (p : DdPkt) (ps : List DdPkt)
    → (net.to_master ≡ p ∷ ps)
    → (judge net.master p ≡ taken)
    → InStep net
    → InStep (record net { master = advance net.master p; to_master = ps })
master_took net p ps e j (h, k, inl (q, a, b)) =
    let x = (subst (All (IsPkt false net.slave.n_ddseq)) e b).0 in
    absurd (
      judged_apart ignored taken net.master p
        (master-ignored net.master p h (omega arith, x.1, x.2)) j (λ e. cc e) (λ e. cc e))
master_took net p ps e j (h, k, inr (q, a, b)) = go (
    subst
      (TwoRuns (IsPkt false ((net.slave.n_ddseq + (2 ^ 32 - 1)) % 2 ^ 32))
        (IsPkt false net.slave.n_ddseq))
      e b)
  where
    go :
        TwoRuns
          (IsPkt false ((net.slave.n_ddseq + (2 ^ 32 - 1)) % 2 ^ 32))
          (IsPkt false net.slave.n_ddseq)
          (p ∷ ps)
        → InStep (record net { master = advance net.master p; to_master = ps })
    go (inl (x, t)) = absurd (
        judged_apart ignored taken net.master p
          (master-ignored net.master p h (omega arith, x.1, x.2)) j (λ e. cc e) (λ e. cc e))
    go (inr (x, t)) =
        let adv = advance-master net.master p h in
        (
          adv.0,
          k,
          inl (
            adv.1 ∙ ap (λ n. (n + 1) % 2 ^ 32) q,
            TwoRuns-one _ _ net.to_slave (subst (λ n. All (IsPkt true n) net.to_slave) q a),
            t,
          ),
        )

not_passed :
    (n : Side) (p : DdPkt) → (judge n p ≡ ignored) ⊎ (judge n p ≡ repeated) → JudgedOr taken n p → ⊥
not_passed n p (inl e) h = judged_apart taken ignored n p h e (λ e. cc e) (λ e. cc e)
not_passed n p (inr e) h = judged_apart taken repeated n p h e (λ e. cc e) (λ e. cc e)

-- A packet that is passed over leaves the rest of its channel.
slave_passed :
    (net : Net) (p : DdPkt) (ps : List DdPkt)
    → (net.to_slave ≡ p ∷ ps)
    → (judge net.slave p ≡ ignored) ⊎ (judge net.slave p ≡ repeated)
    → InStep net
    → InStep (record net { to_slave = ps })
slave_passed net p ps e j (h, k, inl (q, a, b)) =
    go (subst (TwoRuns (IsPkt true net.slave.n_ddseq) (IsPkt true net.master.n_ddseq)) e a)
  where
    go :
        TwoRuns (IsPkt true net.slave.n_ddseq) (IsPkt true net.master.n_ddseq) (p ∷ ps)
        → InStep (record net { to_slave = ps })
    go (inl (x, t)) = (h, k, inl (q, t, b))
    go (inr (x, t)) =
        absurd (not_passed net.slave p j (slave-taken net.slave p k (x.0 ∙ q, x.1, x.2)))
slave_passed net p ps e j (h, k, inr (q, a, b)) =
    (h, k, inr (q, (subst (All (IsPkt true net.master.n_ddseq)) e a).1, b))

master_passed :
    (net : Net) (p : DdPkt) (ps : List DdPkt)
    → (net.to_master ≡ p ∷ ps)
    → (judge net.master p ≡ ignored) ⊎ (judge net.master p ≡ repeated)
    → InStep net
    → InStep (record net { to_master = ps })
master_passed net p ps e j (h, k, inl (q, a, b)) =
    (h, k, inl (q, a, (subst (All (IsPkt false net.slave.n_ddseq)) e b).1))
master_passed net p ps e j (h, k, inr (q, a, b)) = go (
    subst
      (TwoRuns (IsPkt false ((net.slave.n_ddseq + (2 ^ 32 - 1)) % 2 ^ 32))
        (IsPkt false net.slave.n_ddseq))
      e b)
  where
    go :
        TwoRuns
          (IsPkt false ((net.slave.n_ddseq + (2 ^ 32 - 1)) % 2 ^ 32))
          (IsPkt false net.slave.n_ddseq)
          (p ∷ ps)
        → InStep (record net { to_master = ps })
    go (inl (x, t)) = (h, k, inr (q, a, t))
    go (inr (x, t)) =
        absurd (not_passed net.master p j (master-taken net.master p h (x.0 ∙ sym q, x.1, x.2)))

sent :
    (net : Net) (opts : ℕ) (more bare : Bool)
    → InStep net
    → InStep (record net { to_slave = net.to_slave ++ dd_header opts more bare net.master ∷ [] })
      × InStep (record net { to_master = net.to_master ++ dd_header opts more bare net.slave ∷ [] })
sent net opts more bare (h, k, inl (q, a, b)) =
    let x = dd_header-IsPkt true net.master opts more bare h in
    let y = dd_header-IsPkt false net.slave opts more bare k in
    (
      (h, k, inl (q, TwoRuns-sent _ _ net.to_slave _ a x, b)),
      (
        h,
        k,
        inl (
          q,
          a,
          All-sent (IsPkt false net.slave.n_ddseq) (IsPkt false net.slave.n_ddseq) net.to_master _ b
              y,
        ),
      ),
    )
sent net opts more bare (h, k, inr (q, a, b)) =
    let x = dd_header-IsPkt true net.master opts more bare h in
    let y = dd_header-IsPkt false net.slave opts more bare k in
    (
      (
        h,
        k,
        inr (
          q,
          All-sent (IsPkt true net.master.n_ddseq) (IsPkt true net.master.n_ddseq) net.to_slave _ a
              x,
          b,
        ),
      ),
      (h, k, inr (q, a, TwoRuns-sent _ _ net.to_master _ b y)),
    )

lost_slave :
    (net : Net) (xs : List DdPkt) (p : DdPkt) (ys : List DdPkt)
    → (net.to_slave ≡ xs ++ p ∷ ys)
    → InStep net
    → InStep (record net { to_slave = xs ++ ys })
lost_slave net xs p ys e (h, k, inl (q, a, b)) = (
  h,
  k,
  inl (
    q,
    TwoRuns-lost _ _ xs p ys
        (subst (TwoRuns (IsPkt true net.slave.n_ddseq) (IsPkt true net.master.n_ddseq)) e a),
    b,
  ),
)
lost_slave net xs p ys e (h, k, inr (q, a, b)) = (
  h,
  k,
  inr (
    q,
    All-lost (IsPkt true net.master.n_ddseq) (IsPkt true net.master.n_ddseq) xs p ys
        (subst (All (IsPkt true net.master.n_ddseq)) e a),
    b,
  ),
)

lost_master :
    (net : Net) (xs : List DdPkt) (p : DdPkt) (ys : List DdPkt)
    → (net.to_master ≡ xs ++ p ∷ ys)
    → InStep net
    → InStep (record net { to_master = xs ++ ys })
lost_master net xs p ys e (h, k, inl (q, a, b)) = (
  h,
  k,
  inl (
    q,
    a,
    All-lost (IsPkt false net.slave.n_ddseq) (IsPkt false net.slave.n_ddseq) xs p ys
        (subst (All (IsPkt false net.slave.n_ddseq)) e b),
  ),
)
lost_master net xs p ys e (h, k, inr (q, a, b)) = (
  h,
  k,
  inr (
    q,
    a,
    TwoRuns-lost _ _ xs p ys (
        subst
          (TwoRuns (IsPkt false ((net.slave.n_ddseq + (2 ^ 32 - 1)) % 2 ^ 32))
            (IsPkt false net.slave.n_ddseq))
          e b),
  ),
)

pub Step-InStep : {net last : Net} → Step net last → InStep net → InStep last
Step-InStep (master_sends net opts more bare) i = (sent net opts more bare i).0
Step-InStep (slave_sends net opts more bare) i = (sent net opts more bare i).1
Step-InStep (lost_to_slave net xs p ys e) i = lost_slave net xs p ys e i
Step-InStep (lost_to_master net xs p ys e) i = lost_master net xs p ys e i
Step-InStep (slave_takes net p ps e j) i = slave_took net p ps e j i
Step-InStep (slave_returns net p ps e j) i = slave_passed net p ps e j i
Step-InStep (master_takes net p ps e j) i = master_took net p ps e j i
Step-InStep (master_returns net p ps e j) i = master_passed net p ps e j i

pub Reach-InStep : {net last : Net} → InStep net → Reach net last → InStep last
Reach-InStep i begun = i
Reach-InStep i (then_step r s) = Step-InStep s (Reach-InStep i r)
