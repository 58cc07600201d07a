-- ===== src/Exchange/Progress.antt =====
-- THospf/ospfDD.cpp: runs of the exchange over channels that lose packets.
use ospfbasic.Prelude.{
  ◌+◌, ◌-◌, ◌%◌, ◌^◌, ◌≡◌, ◌≢◌, refl, sym, subst, ◌∙◌, inl, inr, ◌⊎◌, true, false, List, ◌∷◌, All,
  arith, ◌==◌, Bool-cases,
}
use ospfbasic.Exchange.{DdPkt, Side, Verdict, ignored, repeated, taken, mismatched, judge}
use ospfbasic.Exchange.Channel.{TwoRuns}
use ospfbasic.Exchange.Protocol.{Net, Reach, IsPkt, InStep}
use ospfbasic.Exchange.Invariant.{
  JudgedOr, slave-repeated, slave-taken, master-ignored, master-taken, Reach-InStep,
}

-- A mismatch that lies in the options only.
abbrev pub IsOtherOptions : Side → DdPkt → Type 0
IsOtherOptions n p = (judge n p ≡ mismatched) × (p.dd_opts ≢ n.n_opts)

-- How the first packets on their way are judged: the slave takes only the master's last packet, and
-- the master only the slave's answer to it.
abbrev pub InOrder : Net → Type 0
InOrder net =
    ((p : DdPkt) (ps : List DdPkt)
      → (net.to_slave ≡ p ∷ ps)
      → IsOtherOptions net.slave p
        ⊎ ((judge net.slave p ≡ repeated)
            ⊎ (judge net.slave p ≡ taken) × (p.dd_seqno ≡ net.master.n_ddseq)))
    × ((p : DdPkt) (ps : List DdPkt)
        → (net.to_master ≡ p ∷ ps)
        → IsOtherOptions net.master p
          ⊎ ((judge net.master p ≡ ignored)
              ⊎ (judge net.master p ≡ taken)
                × (p.dd_seqno ≡ net.slave.n_ddseq)
                × (net.slave.n_ddseq ≡ net.master.n_ddseq)))

options :
    (v : Verdict) (n : Side) (p : DdPkt) → JudgedOr v n p → IsOtherOptions n p ⊎ (judge n p ≡ v)
options v n p h = elim (Bool-cases (n.n_opts == p.dd_opts)) [
  | inl c ↦ inr (h ∙ rw c refl)
  | inr c ↦ inl (h ∙ rw c refl, ground (arith, c))
]

passed {κ} :
    {A : Type κ}
    → (v : Verdict) (n : Side) (p : DdPkt) → JudgedOr v n p
    → IsOtherOptions n p ⊎ ((judge n p ≡ v) ⊎ A)
passed v n p h = elim (options v n p h) [ inl o ↦ inl o | inr e ↦ inr (inl e) ]

took {κ} :
    {A : Type κ} {w : Verdict}
    → (n : Side) (p : DdPkt) → JudgedOr taken n p
    → A
    → IsOtherOptions n p ⊎ ((judge n p ≡ w) ⊎ (judge n p ≡ taken) × A)
took n p h a = elim (options taken n p h) [ inl o ↦ inl o | inr e ↦ inr (inr (e, a)) ]

InStep-InOrder : (net : Net) → InStep net → InOrder net
InStep-InOrder net (h, k, inl (q, a, b)) = (
  (λ p ps e.
      to_slave p ps
        (subst (TwoRuns (IsPkt true net.slave.n_ddseq) (IsPkt true net.master.n_ddseq)) e a)),
  (λ p ps e.
      let x = (subst (All (IsPkt false net.slave.n_ddseq)) e b).0 in
      passed ignored net.master p (master-ignored net.master p h (omega arith, x.1, x.2))),
)
  where
    to_slave :
        (p : DdPkt) (ps : List DdPkt)
        → TwoRuns (IsPkt true net.slave.n_ddseq) (IsPkt true net.master.n_ddseq) (p ∷ ps)
        → IsOtherOptions net.slave p
          ⊎ ((judge net.slave p ≡ repeated)
              ⊎ (judge net.slave p ≡ taken) × (p.dd_seqno ≡ net.master.n_ddseq))
    to_slave p ps (inl (x, t)) = passed repeated net.slave p (slave-repeated net.slave p k x)
    to_slave p ps (inr (x, t)) =
        took net.slave p (slave-taken net.slave p k (x.0 ∙ q, x.1, x.2)) x.0
InStep-InOrder net (h, k, inr (q, a, b)) = (
  (λ p ps e.
      let x = (subst (All (IsPkt true net.master.n_ddseq)) e a).0 in
      passed repeated net.slave p (slave-repeated net.slave p k (x.0 ∙ q, x.1, x.2))),
  (λ p ps e. to_master p ps (
      subst
        (TwoRuns (IsPkt false ((net.slave.n_ddseq + (2 ^ 32 - 1)) % 2 ^ 32))
          (IsPkt false net.slave.n_ddseq))
        e b)),
)
  where
    to_master :
        (p : DdPkt) (ps : List DdPkt)
        → TwoRuns
            (IsPkt false ((net.slave.n_ddseq + (2 ^ 32 - 1)) % 2 ^ 32))
            (IsPkt false net.slave.n_ddseq)
            (p ∷ ps)
        → IsOtherOptions net.master p
          ⊎ ((judge net.master p ≡ ignored)
              ⊎ (judge net.master p ≡ taken)
                × (p.dd_seqno ≡ net.slave.n_ddseq)
                × (net.slave.n_ddseq ≡ net.master.n_ddseq))
    to_master p ps (inl (x, t)) =
        passed ignored net.master p (master-ignored net.master p h (omega arith, x.1, x.2))
    to_master p ps (inr (x, t)) =
        elim (options taken net.master p (master-taken net.master p h (x.0 ∙ sym q, x.1, x.2))) [
          | inl o ↦ inl o
          | inr e ↦ inr (inr (e, x.0, sym q))
        ]

-- Two routers in Exchange, whose packets are sent any number of times, are kept in order, may be
-- lost and carry any options, never raise NBE_SEQNOMISM but for options other than those of the
-- neighbor: the slave takes only the master's last packet and the master only the answer to its own,
-- and both pass over all others without an event. No packet of ExStart is on its way at first.
pub exchange-InOrder : {net last : Net} → InStep net → Reach net last → InOrder last
exchange-InOrder {net} {last} i r = InStep-InOrder last (Reach-InStep i r)
