-- ===== src/Routes/Tests.antt =====
-- THospf/ospfCalc.cpp: routing table entries through a run and a scan.
use ospfbasic.Prelude.{◌≡◌, refl, false, [], ◌∷◌, Option, none, some, pos, All}
use ospfbasic.Paths.{ENode}
use ospfbasic.Routes.{RtrTblEntry, rt_spf, rt_none, rt_scan, scan_entry, KernelCall}
use ospfbasic.Routes.Scan.{IsFresh, rt_scan-IsFresh, scan_entry-silent}

abbrev hop : ENode
hop = record { if_addr = 1; phyint = pos 1; gateway = 0 }

-- A route that the kernel has, and that the run has left without next hops.
abbrev hopless : RtrTblEntry
hopless = record {
  r_type = rt_spf;
  changed = false;
  dijk_run = 1;
  r_epath = none;
  last_epath = some (hop ∷ []);
  cost = 7;
  tag = 0;
  r_ospf = none;
  router_type = none;
}

rt_scan-IsFresh_example :
    All (λ (k : RtrTblEntry × Option KernelCall). IsFresh 1 k.0) (rt_scan 3 (hopless ∷ []))
rt_scan-IsFresh_example = rt_scan-IsFresh 3 (hopless ∷ [])

scan_entry-silent_example :
    ((scan_entry 1 hopless).0.r_type ≡ rt_none)
    × ((scan_entry 1 hopless).1 ≡ none)
    × ((scan_entry 1 hopless).0.last_epath ≡ some (hop ∷ []))
scan_entry-silent_example =
    scan_entry-silent 1 hopless record { spf = refl; stamp = refl } refl refl
