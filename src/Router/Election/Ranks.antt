-- ===== src/Router/Election/Ranks.antt =====
-- THospf/InterfaceFSM.cpp: who wins the two loops of `Interface::ifa_elect`.
use ospfbasic.Prelude.{
  ℕ, ◌≡◌, ◌≢◌, ◌≤◌, ◌<◌, refl, sym, subst, ◌⊎◌, inl, inr, Bool, true, false, List, [], ◌∷◌, some,
  arith, All, Bool-cases,
}
use ospfbasic.Fsm.Neighbor.{nbs_2way, at_most}
use ospfbasic.Router.State.{Ptr, Neighbor}
use ospfbasic.Router.Election.{
  declared_dr, declared_bdr, BackupScan, skips_backup, scan_backup, DrScan, skips_dr, scan_dr,
}

-- Who may be elected: at least 2-Way, with a priority.
abbrev pub MayBeElected : Neighbor → Type 0
MayBeElected n = (at_most nbs_2way n.n_state ≡ true) × (n.prior ≢ 0)

-- Priority first, then the router's id.
abbrev pub PairLe : ℕ → ℕ → ℕ → ℕ → Type 0
PairLe pri id pri' id' = (pri < pri') ⊎ ((pri ≡ pri') × (id ≤ id'))

-- One who declares itself backup goes before one who does not.
abbrev pub RankLe : Bool → ℕ → ℕ → Bool → ℕ → ℕ → Type 0
RankLe true pri id true pri' id' = PairLe pri id pri' id'
RankLe true pri id false pri' id' = ⊥
RankLe false pri id true pri' id' = Unit
RankLe false pri id false pri' id' = PairLe pri id pri' id'

RankLe-trans :
    (a b c : Bool) (p i q j r k : ℕ) → RankLe a p i b q j → RankLe b q j c r k → RankLe a p i c r k
RankLe-trans true true true p i q j r k h g = ground arith
RankLe-trans true true false p i q j r k h g = g
RankLe-trans true false c p i q j r k h g = absurd h
RankLe-trans false b true p i q j r k h g = tt
RankLe-trans false true false p i q j r k h g = absurd g
RankLe-trans false false false p i q j r k h g = ground arith

RankLe-refl : (a : Bool) (p i : ℕ) → RankLe a p i a p i
RankLe-refl true p i = inr (refl, omega arith)
RankLe-refl false p i = inr (refl, omega arith)

abbrev pub BackupLe : Neighbor → BackupScan → Type 0
BackupLe n c = RankLe (declared_bdr n) n.prior n.n_id c.declared c.c_pri c.c_id

abbrev ScanLe : BackupScan → BackupScan → Type 0
ScanLe b c = RankLe b.declared b.c_pri b.c_id c.declared c.c_pri c.c_id

abbrev pub Outranks : BackupScan → Neighbor → Type 0
Outranks c n = MayBeElected n → declared_dr n ≡ false → BackupLe n c

-- A neighbor that is passed over ranks no higher, and one that is taken no lower.
skipped : (n : Neighbor) (c : BackupScan) → skips_backup n c ≡ true → Outranks c n
unfolding skips_backup
skipped n c h m d = ground arith

abbrev took : Ptr → Neighbor → BackupScan
took p n = record {
  bdr_p = some p;
  bdr = n.n_addr;
  declared = declared_bdr n;
  c_pri = n.prior;
  c_id = n.n_id;
}

taken : (p : Ptr) (n : Neighbor) (c : BackupScan) → skips_backup n c ≡ false → ScanLe c (took p n)
unfolding skips_backup
taken p n c h = ground arith

-- Where a result of the first loop comes from: the start, or an eligible neighbor of the list.
abbrev pub BackupFrom : List Ptr → (Ptr → Neighbor) → BackupScan → BackupScan → Type 0
BackupFrom [] nbr c r = r ≡ c
BackupFrom (p ∷ ps) nbr c r =
    BackupFrom ps nbr c r
    ⊎ (MayBeElected (nbr p) × (declared_dr (nbr p) ≡ false) × BackupFrom ps nbr (took p (nbr p)) r)

eligible :
    (n : Neighbor) (c : BackupScan)
    → skips_backup n c ≡ false
    → MayBeElected n × (declared_dr n ≡ false)
unfolding skips_backup
eligible n c h = ground arith

-- `r` wins against the start `c` and against all of a list, and is one of them.
abbrev pub BackupWins : List Ptr → (Ptr → Neighbor) → BackupScan → BackupScan → Type 0
BackupWins ps nbr c r =
    RankLe c.declared c.c_pri c.c_id r.declared r.c_pri r.c_id
    × All (λ p. Outranks r (nbr p)) ps
    × BackupFrom ps nbr c r

module _ (p : Ptr) (ps : List Ptr) (nbr : Ptr → Neighbor) (c : BackupScan) where
  backup_skip : skips_backup (nbr p) c ≡ true → scan_backup (p ∷ ps) nbr c ≡ scan_backup ps nbr c
  unfolding scan_backup
  backup_skip h = rw h

  backup_take :
      skips_backup (nbr p) c ≡ false
      → scan_backup (p ∷ ps) nbr c ≡ scan_backup ps nbr (took p (nbr p))
  unfolding scan_backup
  backup_take h = rw h

  wins_skip :
      (r : BackupScan)
      → skips_backup (nbr p) c ≡ true
      → BackupWins ps nbr c r
      → BackupWins (p ∷ ps) nbr c r
  wins_skip r h w =
      let n = nbr p in
      (
        w.0,
        (
          λ m d.
              RankLe-trans (declared_bdr n) c.declared r.declared n.prior n.n_id c.c_pri c.c_id
                r.c_pri r.c_id (skipped n c h m d) w.0,
          w.1,
        ),
        inl w.2,
      )

  wins_take :
      (r : BackupScan)
      → skips_backup (nbr p) c ≡ false
      → BackupWins ps nbr (took p (nbr p)) r
      → BackupWins (p ∷ ps) nbr c r
  wins_take r h w =
      let n = nbr p in
      let e = eligible n c h in
      (
        RankLe-trans c.declared (declared_bdr n) r.declared c.c_pri c.c_id n.prior n.n_id r.c_pri
            r.c_id (taken p n c h) w.0,
        (λ m d. w.0, w.1),
        inr (e.0, e.1, w.2),
      )

-- The first loop ends with a candidate that no neighbor in at least 2-Way, with a priority and
-- not declaring itself designated router outranks, nor does the candidate that it started with;
-- and it is that candidate or such a neighbor.
pub scan_backup-wins :
    (ps : List Ptr) (nbr : Ptr → Neighbor) (c : BackupScan)
    → BackupWins ps nbr c (scan_backup ps nbr c)
scan_backup-wins [] nbr c = unfold scan_backup in (RankLe-refl c.declared c.c_pri c.c_id, tt, refl)
scan_backup-wins (p ∷ ps) nbr c = elim (Bool-cases (skips_backup (nbr p) c)) [
  | inl h ↦
      subst (BackupWins (p ∷ ps) nbr c) (sym (backup_skip p ps nbr c h))
        (wins_skip p ps nbr c _ h (scan_backup-wins ps nbr c))
  | inr h ↦
      subst (BackupWins (p ∷ ps) nbr c) (sym (backup_take p ps nbr c h))
        (wins_take p ps nbr c _ h (scan_backup-wins ps nbr (took p (nbr p))))
]

abbrev tookdr : Ptr → Neighbor → DrScan
tookdr p n = record { dr_n = some p; dr = n.n_addr; c_pri = n.prior; c_id = n.n_id }

abbrev pub DrFrom : List Ptr → (Ptr → Neighbor) → DrScan → DrScan → Type 0
DrFrom [] nbr c r = r ≡ c
DrFrom (p ∷ ps) nbr c r =
    DrFrom ps nbr c r
    ⊎ (MayBeElected (nbr p) × (declared_dr (nbr p) ≡ true) × DrFrom ps nbr (tookdr p (nbr p)) r)

abbrev pub OutranksDr : DrScan → Neighbor → Type 0
OutranksDr c n = MayBeElected n → declared_dr n ≡ true → PairLe n.prior n.n_id c.c_pri c.c_id

dr_skipped : (n : Neighbor) (c : DrScan) → skips_dr n c ≡ true → OutranksDr c n
unfolding skips_dr
dr_skipped n c h m d = ground arith

dr_taken :
    (n : Neighbor) (c : DrScan)
    → skips_dr n c ≡ false
    → MayBeElected n × (declared_dr n ≡ true) × PairLe c.c_pri c.c_id n.prior n.n_id
unfolding skips_dr
dr_taken n c h = ground arith

PairLe-trans : (p i q j r k : ℕ) → PairLe p i q j → PairLe q j r k → PairLe p i r k
PairLe-trans p i q j r k h g = ground arith

abbrev pub DrWins : List Ptr → (Ptr → Neighbor) → DrScan → DrScan → Type 0
DrWins ps nbr c r =
    PairLe c.c_pri c.c_id r.c_pri r.c_id × All (λ p. OutranksDr r (nbr p)) ps × DrFrom ps nbr c r

module _ (p : Ptr) (ps : List Ptr) (nbr : Ptr → Neighbor) (c : DrScan) where
  dr_skip : skips_dr (nbr p) c ≡ true → scan_dr (p ∷ ps) nbr c ≡ scan_dr ps nbr c
  unfolding scan_dr
  dr_skip h = rw h

  dr_take : skips_dr (nbr p) c ≡ false → scan_dr (p ∷ ps) nbr c ≡ scan_dr ps nbr (tookdr p (nbr p))
  unfolding scan_dr
  dr_take h = rw h

  DrWins-skip :
      (r : DrScan) → skips_dr (nbr p) c ≡ true → DrWins ps nbr c r → DrWins (p ∷ ps) nbr c r
  DrWins-skip r h w =
      let n = nbr p in
      (
        w.0,
        (
          λ m d.
              PairLe-trans n.prior n.n_id c.c_pri c.c_id r.c_pri r.c_id (dr_skipped n c h m d) w.0,
          w.1,
        ),
        inl w.2,
      )

  DrWins-take :
      (r : DrScan)
      → skips_dr (nbr p) c ≡ false
      → DrWins ps nbr (tookdr p (nbr p)) r
      → DrWins (p ∷ ps) nbr c r
  DrWins-take r h w =
      let n = nbr p in
      let e = dr_taken n c h in
      (
        PairLe-trans c.c_pri c.c_id n.prior n.n_id r.c_pri r.c_id e.2 w.0,
        (λ m d. w.0, w.1),
        inr (e.0, e.1, w.2),
      )

-- The second loop ends with a candidate that no neighbor in at least 2-Way, with a priority and
-- declaring itself designated router outranks, nor does the candidate that it started with; and it
-- is that candidate or such a neighbor.
pub scan_dr-wins :
    (ps : List Ptr) (nbr : Ptr → Neighbor) (c : DrScan) → DrWins ps nbr c (scan_dr ps nbr c)
scan_dr-wins [] nbr c = unfold scan_dr in (inr (refl, omega arith), tt, refl)
scan_dr-wins (p ∷ ps) nbr c = elim (Bool-cases (skips_dr (nbr p) c)) [
  | inl h ↦
      subst (DrWins (p ∷ ps) nbr c) (sym (dr_skip p ps nbr c h))
        (DrWins-skip p ps nbr c _ h (scan_dr-wins ps nbr c))
  | inr h ↦
      subst (DrWins (p ∷ ps) nbr c) (sym (dr_take p ps nbr c h))
        (DrWins-take p ps nbr c _ h (scan_dr-wins ps nbr (tookdr p (nbr p))))
]
