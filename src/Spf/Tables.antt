-- ===== src/Spf/Tables.antt =====
-- THospf/ospfCalc.cpp: the routing table entries that `OSPF::dijkstra` leaves.
use ospfbasic.Prelude.{ℕ, suc, ◌%◌, ◌≡◌, ap, subst, ◌++◌, some, arith, All, length}
use mathlib.Core.List.{Memᴰ}
use ospfbasic.Routes.{TNode, RtrTblEntry, ds_ontree}
use ospfbasic.Routes.Offers.{IsCurrent, Entered}
use ospfbasic.Spf.{Calc, prepare, dijk_init, dijkstra}
use ospfbasic.Spf.Entries.{Filed, Source}
use ospfbasic.Spf.Filing.{Tabled, visit-Tabled}
use ospfbasic.Spf.Loop.{main_loop-finishes}
use ospfbasic.Spf.Shortest.{
  IsNet, started-Round, prepare_lem, started-off, waiting_bound, graph, vs,
}

prepare-entries :
    (s : Calc)
    → ((prepare s).entries ≡ s.entries) × ((prepare s).ospf.n_dijkstras ≡ suc s.ospf.n_dijkstras)
unfolding prepare dijk_init
prepare-entries s = ground arith

-- What the run leaves in the table: every node on the tree has offered its cost to its own entry
-- and to those of its stub links, and an entry of the run has a cost that was offered.
pub record IsTable (s t : Calc) (run : ℕ) : Type 0 where
  pub offered :
      (v : ℕ)
      → Memᴰ v (s.rtr_lsas ++ s.net_lsas)
      → (t.nodes v).t_state ≡ ds_ontree
      → Entered run (t.nodes v).cost0 (t.entries (t.nodes v).t_dest)
        × All (Filed run t.entries (t.nodes v).cost0) (s.nodes v).t_links
  pub least :
      (x : ℕ)
      → IsCurrent run (t.entries x)
      → Source (s.rtr_lsas ++ s.net_lsas) t.nodes x (t.entries x).cost

-- If the entries hold nothing of the run that is to come, `dijkstra` on a network leaves a table
-- of it: an entry of the run has the least of the costs that nodes on the tree offer it, by
-- themselves or by a stub link.
pub dijkstra-IsTable :
    (s : Calc) (r : ℕ)
    → IsNet s r
    → ((x : ℕ) → ¬ IsCurrent (suc s.ospf.n_dijkstras % 2) (s.entries x))
    → (t : Calc) × (dijkstra s ≡ some t) × IsTable s t (suc s.ospf.n_dijkstras % 2)
unfolding dijkstra
dijkstra-IsTable s r h old =
    let run = suc s.ospf.n_dijkstras % 2 in
    let (entries_eq, count_eq) = prepare-entries s in
    let begun : Tabled (graph s r) r (vs s r) h.distinct h.few run (prepare s) = record {
      here = ap (λ k. k % 2) count_eq;
      sources = λ x cur.
          absurd (old x (subst (λ (g : ℕ → RtrTblEntry). IsCurrent run (g x)) entries_eq cur));
      filed = λ u m e. absurd (
          started-off s r u m
            (subst (λ (g : ℕ → TNode). (g u).t_state ≡ ds_ontree) (prepare_lem s r h).0 e));
    } in
    let (t, ends, done, tab) =
      main_loop-finishes (graph s r) r (vs s r) h.distinct h.few h.joins
        (Tabled (graph s r) r (vs s r) h.distinct h.few run)
        (λ c rest p. record { here = p.here; sources = p.sources; filed = p.filed })
        (λ c round i rest m cand least q counts p.
          visit-Tabled (graph s r) r (vs s r) h.distinct h.few run c round i.elt rest m cand least q
            counts (h.joins i.elt m) p)
        (suc (length (vs s r))) (prepare s) (started-Round s r h) begun
        (omega (arith, waiting_bound (prepare s).nodes (vs s r))) in
    (t, ends, record { offered = tab.filed; least = tab.sources })
