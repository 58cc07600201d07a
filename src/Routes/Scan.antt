-- ===== src/Routes/Scan.antt =====
-- THospf/ospfCalc.cpp: `OSPF::rt_scan`.
use ospfbasic.Prelude.{
  ℕ, suc, ◌%◌, ◌≡◌, ◌≢◌, refl, subst, Bool, true, false, List, [], ◌∷◌, Option, none, some, arith,
  ◌==◌, not, All, ◌&&◌, ◌||◌, if◌then◌else◌,
}
use ospfbasic.Routes.{
  rt_spf, rt_none, RtrTblEntry, intra_area, intra_as, expire, withdraw, clear_tag, refresh,
  scan_entry, rt_scan, declare_unreachable, KernelCall, rtdel, kernel_call, same_path,
  state_changed,
}
use ospfbasic.Routes.Offers.{IsCurrent}

-- What `rt_scan` leaves of an entry: a route of the calculation is of this run and has next hops.
pub record IsFresh (run : ℕ) (e : RtrTblEntry) : Type 0 where
  pub stamp : intra_area e ≡ true → e.dijk_run ≡ run
  pub usable : intra_as e ≡ true → e.r_epath ≢ none

either {ℓ κ} :
    {A : Type ℓ} (P : A → Type κ) (b : Bool) {x y : A}
    → (b ≡ true → P x)
    → (b ≡ false → P y)
    → P (if b then x else y)
either P true p q = p refl
either P false p q = q refl

abbrev Stamped : ℕ → RtrTblEntry → Type 0
Stamped run e = intra_area e ≡ true → e.dijk_run ≡ run

abbrev HasHops : RtrTblEntry → Type 0
HasHops e = intra_as e ≡ true → e.r_epath ≢ none

expire-Stamped : (run : ℕ) (e : RtrTblEntry) → Stamped run (expire run e)
unfolding expire declare_unreachable intra_area
expire-Stamped run e =
    either (Stamped run) (intra_area e && not (run == e.dijk_run)) (λ out h. cc h)
      (λ stays h. ground (arith, stays, h))

withdraw-Stamped : (run : ℕ) (e : RtrTblEntry) → Stamped run e → Stamped run (withdraw e)
unfolding withdraw declare_unreachable intra_area
withdraw-Stamped run e s =
    either (Stamped run) (intra_as e && same_path e.r_epath none) (λ out h. cc h) (λ stays. s)

withdraw-HasHops : (e : RtrTblEntry) → HasHops (withdraw e)
unfolding withdraw declare_unreachable intra_as same_path
withdraw-HasHops e =
    either HasHops (intra_as e && same_path e.r_epath none) (λ out h. cc h)
      (λ stays h gone. cc (subst (λ p. (intra_as e && same_path p none) ≡ false) gone stays, h))

clear_tag-IsFresh :
    (run : ℕ) (e : RtrTblEntry) → Stamped run e → HasHops e → IsFresh run (clear_tag e)
unfolding clear_tag intra_area intra_as
clear_tag-IsFresh run e s k =
    either (IsFresh run) (intra_area e) (λ _. record { stamp = s; usable = k })
      (λ _. record { stamp = s; usable = k })

refresh-IsFresh : (run : ℕ) (e : RtrTblEntry) → IsFresh run (refresh run e)
unfolding refresh
refresh-IsFresh run e =
    let current = expire run e in
    clear_tag-IsFresh run (withdraw current) (withdraw-Stamped run current (expire-Stamped run e))
      (withdraw-HasHops current)

scan_entry-IsFresh : (run : ℕ) (e : RtrTblEntry) → IsFresh run (scan_entry run e).0
unfolding scan_entry intra_area intra_as
scan_entry-IsFresh run e =
    let kept = refresh run e in
    let fresh : IsFresh run kept = refresh-IsFresh run e in
    either (λ (k : RtrTblEntry × Option KernelCall). IsFresh run k.0)
      (kept.changed || state_changed kept)
      (λ _. record { stamp = fresh.stamp; usable = fresh.usable }) (λ _. fresh)

-- After `rt_scan` every route of the calculation is of this run and has next hops.
pub rt_scan-IsFresh :
    (n_dijkstras : ℕ) (es : List RtrTblEntry)
    → All (λ k. IsFresh (n_dijkstras % 2) k.0) (rt_scan n_dijkstras es)
unfolding rt_scan
rt_scan-IsFresh n_dijkstras [] = tt
rt_scan-IsFresh n_dijkstras (e ∷ es) =
    (scan_entry-IsFresh (n_dijkstras % 2) e, rt_scan-IsFresh n_dijkstras es)

-- A route that the run has not reached is deleted from the kernel.
pub scan_entry-expired :
    (run : ℕ) (e : RtrTblEntry)
    → e.r_type ≡ rt_spf
    → e.dijk_run ≢ run
    → ((scan_entry run e).0.r_type ≡ rt_none) × ((scan_entry run e).1 ≡ some (rtdel e.last_epath))
unfolding scan_entry refresh expire withdraw clear_tag declare_unreachable intra_area intra_as
    kernel_call
scan_entry-expired run e spf old =
    let stale : (run == e.dijk_run) ≡ false = ground (arith, old) in rw (spf, stale) (refl, refl)

-- A route of the run that has no next hops left and is not marked as changed becomes inactive
-- without a call to the kernel, which keeps the next hops it was given last.
pub scan_entry-silent :
    (run : ℕ) (e : RtrTblEntry)
    → IsCurrent run e
    → e.r_epath ≡ none
    → e.changed ≡ false
    → ((scan_entry run e).0.r_type ≡ rt_none)
      × ((scan_entry run e).1 ≡ none)
      × ((scan_entry run e).0.last_epath ≡ e.last_epath)
unfolding scan_entry refresh expire withdraw clear_tag declare_unreachable intra_area intra_as
    same_path state_changed
scan_entry-silent run e cur gone same =
    let here : (run == e.dijk_run) ≡ true = ground (arith, cur.stamp) in
    rw (cur.spf, here, gone, same) (refl, refl, refl)

-- An entry that `rt_scan` has left is not of the next run.
pub IsFresh-next :
    (n_dijkstras : ℕ) (e : RtrTblEntry)
    → IsFresh (n_dijkstras % 2) e
    → ¬ IsCurrent (suc n_dijkstras % 2) e
unfolding intra_area
IsFresh-next n_dijkstras e fresh cur = omega (arith, cur.stamp, fresh.stamp (rw cur.spf refl))
