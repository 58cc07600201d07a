-- ===== src/Routes/Offers.antt =====
-- THospf/ospfCalc.cpp: the cost of a routing table entry over the calls of `new_intra` of one run.
use ospfbasic.Prelude.{
  ℕ, ◌+◌, ◌%◌, ◌^◌, ◌≤◌, ◌≡◌, ◌≢◌, refl, ◌⊎◌, inl, inr, Bool, true, false, List, Option, none, some,
  arith, Bool-cases, ltb, ◌==◌,
}
use ospfbasic.Paths.{ENode}
use ospfbasic.Routes.{
  TNode, Ospf, RtType, rt_direct, rt_spf, rt_spfia, rt_extt1, rt_extt2, rt_reject, rt_static,
  rt_none, RtrTblEntry, weigh, hops, enter, new_intra, save_state, set_area, set_origin,
}

abbrev pub IsDirect : RtrTblEntry → Type 0
IsDirect e = e.r_type ≡ rt_direct

-- An entry that the run of this parity has written.
pub record IsCurrent (run : ℕ) (e : RtrTblEntry) : Type 0 where
  pub spf : e.r_type ≡ rt_spf
  pub stamp : e.dijk_run ≡ run

-- An entry that has been offered a cost.
pub data Entered (run c : ℕ) (e : RtrTblEntry) : Type 0 where
  direct : IsDirect e → Entered run c e
  current : IsCurrent run e → e.cost ≤ c → Entered run c e

-- What the offer of a total cost makes of an entry.
pub record Files (run total_cost : ℕ) (e e' : RtrTblEntry) : Type 0 where
  pub keeps : (c : ℕ) → Entered run c e → Entered run c e'
  pub enters : Entered run total_cost e'
  pub origin : IsCurrent run e' → (e'.cost ≡ total_cost) ⊎ (IsCurrent run e × (e'.cost ≡ e.cost))
  pub direct_back : IsDirect e' → IsDirect e

pub record Written (run total_cost : ℕ) (e : RtrTblEntry) : Type 0 where
  pub is_current : IsCurrent run e
  pub cost : e.cost ≡ total_cost

enter-Written :
    (g : Ospf) (v : ℕ) (n : TNode) (newnh : Option (Option (List ENode))) (total_cost : ℕ)
    (begun : RtrTblEntry × Bool)
    → Written (g.n_dijkstras % 2) total_cost (enter g v n newnh total_cost begun)
unfolding enter set_area set_origin
enter-Written g v n none total_cost (e, both) = record {
  is_current = record { spf = refl; stamp = refl };
  cost = refl;
}
enter-Written g v n (some path) total_cost (e, both) = record {
  is_current = record { spf = refl; stamp = refl };
  cost = refl;
}

Written-Files :
    {run total_cost : ℕ} {e e' : RtrTblEntry}
    → ¬ IsDirect e
    → (IsCurrent run e → total_cost ≤ e.cost)
    → Written run total_cost e'
    → Files run total_cost e e'
Written-Files {run} {total_cost} {e} {e'} off low w = record {
  keeps = λ c h. keep c h;
  enters = current w.is_current (omega (arith, w.cost));
  origin = λ _. inl w.cost;
  direct_back = λ d. cc (d, w.is_current.spf);
}
  where
    keep : (c : ℕ) → Entered run c e → Entered run c e'
    keep c (direct d) = absurd (off d)
    keep c (current cur le) = current w.is_current (omega (arith, w.cost, low cur, le))

same-Files :
    {run total_cost : ℕ} {e : RtrTblEntry} → Entered run total_cost e → Files run total_cost e e
same-Files h = record {
  keeps = λ c k. k;
  enters = h;
  origin = λ k. inr (k, refl);
  direct_back = λ d. d;
}

type_cases :
    (e : RtrTblEntry)
    → IsDirect e
      ⊎ ((e.r_type ≡ rt_spf)
          ⊎ ((e.r_type ≢ rt_direct)
              × (e.r_type ≢ rt_spf)
              × ((run c : ℕ) → weigh run c e ≡ some (record e { changed = true }, false))))
unfolding weigh
type_cases e = go e.r_type refl
  where
    go :
        (t : RtType)
        → e.r_type ≡ t
        → (t ≡ rt_direct)
          ⊎ ((t ≡ rt_spf)
              ⊎ ((t ≢ rt_direct)
                  × (t ≢ rt_spf)
                  × ((run c : ℕ) → weigh run c e ≡ some (record e { changed = true }, false))))
    go rt_direct k = inl refl
    go rt_spf k = inr (inl refl)
    go rt_spfia k = inr (inr ((λ u. cc u), (λ u. cc u), λ run c. rw k refl))
    go rt_extt1 k = inr (inr ((λ u. cc u), (λ u. cc u), λ run c. rw k refl))
    go rt_extt2 k = inr (inr ((λ u. cc u), (λ u. cc u), λ run c. rw k refl))
    go rt_reject k = inr (inr ((λ u. cc u), (λ u. cc u), λ run c. rw k refl))
    go rt_static k = inr (inr ((λ u. cc u), (λ u. cc u), λ run c. rw k refl))
    go rt_none k = inr (inr ((λ u. cc u), (λ u. cc u), λ run c. rw k refl))

-- `weigh` goes on except for a direct entry and for one of this run with a lower cost.
weigh_cases :
    (run c : ℕ) (e : RtrTblEntry)
    → ((weigh run c e ≡ none) × Entered run c e)
      ⊎ ((b : RtrTblEntry × Bool) × (weigh run c e ≡ some b)
          × (¬ IsDirect e)
          × (IsCurrent run e → c ≤ e.cost))
unfolding weigh
weigh_cases run c e = elim (type_cases e) [
  | inl d ↦ inl (rw d refl, direct d)
  | inr (inl spf) ↦ elim (Bool-cases (e.dijk_run == run)) [
    | inr stale ↦ inr (
      (save_state e, false),
      rw (spf, stale) refl,
      (λ d. cc (d, spf)),
      λ cur. ground (arith, cur.stamp, stale),
    )
    | inl same ↦ elim (Bool-cases (ltb e.cost c)) [
      | inl less ↦ inl (
        rw (spf, same, less) refl,
        current record { spf = spf; stamp = ground (arith, same) } (ground (arith, less)),
      )
      | inr no_less ↦ inr (
        (e, c == e.cost),
        rw (spf, same, no_less) refl,
        (λ d. cc (d, spf)),
        λ cur. ground (arith, no_less),
      )
    ]
  ]
  | inr (inr (off, other, w)) ↦
      inr ((record e { changed = true }, false), w run c, off, λ cur. absurd (other cur.spf))
]

-- `new_intra` leaves a direct entry alone; any other holds afterwards the lower of the cost
-- offered and of the cost it had been given in this run.
pub new_intra-Files :
    (g : Ospf) (v : ℕ) (n : TNode) (stub : Bool) (stub_cost i : ℕ) (e : RtrTblEntry)
    → Files
        (g.n_dijkstras % 2)
        ((n.cost0 + stub_cost) % 2 ^ 32)
        e
        (new_intra g v n stub stub_cost i e)
unfolding new_intra
new_intra-Files g v n stub stub_cost i e =
    let total_cost = (n.cost0 + stub_cost) % 2 ^ 32 in
    elim (weigh_cases (g.n_dijkstras % 2) total_cost e) [
      | inl (stop, h) ↦ rw (stop, new_intra) (same-Files h)
      | inr (b, more, off, low) ↦
          rw (more, new_intra)
            (Written-Files off low (enter-Written g v n (hops g v n stub i) total_cost b))
    ]
