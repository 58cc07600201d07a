-- ===== src/Spf/Tests.antt =====
-- THospf/ospfCalc.cpp: `OSPF::dijkstra` on a small network.
use ospfbasic.Prelude.{
  ℕ, ◌≤◌, ◌≡◌, refl, Bool, true, false, List, [], ◌∷◌, ◌++◌, Option, none, some, arith, All, get_or,
  ◌==◌, ◌||◌,
}
use mathlib.Core.List.{Memᴰ}
use mathlib.Core.List.Memᴰ
use ospfbasic.Queue.{empty, rmhead, add, combine}
use ospfbasic.Routes.{
  TNode, Link, stub_link, transit_link, RtrTblEntry, ds_uninit, ds_ontree, lst_rtr, lst_net,
  rt_none, is_root, enter, hops, new_intra, set_area, set_origin, weigh, intra_as, save_state,
}
use ospfbasic.Spf.{
  Calc, dijkstra, main_loop, prepare, dijk_init, reset_all, visit, follow_all, settle_node, item_of,
  follow,
}
use ospfbasic.Spf.Sums.{NoDup}
use ospfbasic.Spf.Walks.{Joins, Walk, stay, go_on}
use ospfbasic.Spf.Shortest.{IsNet, dijkstra_shortest}
use ospfbasic.Spf.Tables.{IsTable, dijkstra-IsTable}

abbrev blank_node : ℕ → List Link → ℕ → TNode
blank_node lsa_type links dest = record {
  lsa_type = lsa_type;
  ls_id = 0;
  adv_rtr = 0;
  rtype = 0;
  parsed = true;
  t_links = links;
  t_dest = dest;
  t_direct = false;
  t_state = ds_uninit;
  t_parent = none;
  t_epath = none;
  cost0 = 0;
  cost1 = 0;
  tie1 = 0;
  tie2 = 0;
}

-- Router 0 and router 2 on network 1, router 2 with a stub network besides, router 3 apart.
abbrev sample_nodes : List TNode
sample_nodes =
    blank_node lst_rtr (transit_link (some 1) 10 7 ∷ []) 0
    ∷ blank_node lst_net (transit_link (some 0) 0 0 ∷ transit_link (some 2) 0 0 ∷ []) 1
    ∷ blank_node lst_rtr (transit_link (some 1) 5 9 ∷ stub_link (some 4) 3 ∷ []) 2
    ∷ blank_node lst_rtr [] 3
    ∷ []

abbrev blank_entry : RtrTblEntry
blank_entry = record {
  r_type = rt_none;
  changed = false;
  dijk_run = 0;
  r_epath = none;
  last_epath = none;
  cost = 0;
  tag = 0;
  r_ospf = none;
  router_type = none;
}

abbrev sample : Calc
sample = record {
  ospf = record { mylsa = none; ifcs = []; ifmap = []; n_dijkstras = 0; n_routers = 0 };
  own = some 0;
  rtr_lsas = 0 ∷ 2 ∷ 3 ∷ [];
  net_lsas = 1 ∷ [];
  nodes = λ u. get_or sample_nodes u (blank_node lst_rtr [] 3);
  entries = λ x. blank_entry;
  nets = λ x. (0, 0);
  cand = empty;
}

member : ℕ → List ℕ → Bool
member v [] = false
member v (w ∷ ws) = (v == w) || member v ws

member_complete : (v : ℕ) (ws : List ℕ) → Memᴰ v ws → member v ws ≡ true
unfolding member
member_complete v [] m = absurd (Memᴰ.not-nil m)
member_complete v (w ∷ ws) (Memᴰ.head e) = ground (arith, e)
member_complete v (w ∷ ws) (Memᴰ.tail m) = ground (arith, member_complete v ws m)

out : (v : ℕ) (ws : List ℕ) → member v ws ≡ false → ¬ Memᴰ v ws
out v ws e m = cc (e, member_complete v ws m)

sample_distinct : NoDup (0 ∷ 2 ∷ 3 ∷ 1 ∷ [])
unfolding member
sample_distinct = (
  out 0 (2 ∷ 3 ∷ 1 ∷ []) refl,
  (out 2 (3 ∷ 1 ∷ []) refl, (out 3 (1 ∷ []) refl, (out 1 [] refl, tt))),
)

sample-Joins :
    (u : ℕ)
    → Memᴰ u (0 ∷ 2 ∷ 3 ∷ 1 ∷ [])
    → All (Joins (0 ∷ 2 ∷ 3 ∷ 1 ∷ [])) (sample.nodes u).t_links
sample-Joins u (Memᴰ.head e) =
    rw e ((Memᴰ.tail (Memᴰ.tail (Memᴰ.tail (Memᴰ.head refl))), omega arith), tt)
sample-Joins u (Memᴰ.tail (Memᴰ.head e)) =
    rw e ((Memᴰ.tail (Memᴰ.tail (Memᴰ.tail (Memᴰ.head refl))), omega arith), (omega arith, tt))
sample-Joins u (Memᴰ.tail (Memᴰ.tail (Memᴰ.head e))) = rw e tt
sample-Joins u (Memᴰ.tail (Memᴰ.tail (Memᴰ.tail (Memᴰ.head e)))) =
    rw e ((Memᴰ.head refl, omega arith), ((Memᴰ.tail (Memᴰ.head refl), omega arith), tt))
sample-Joins u (Memᴰ.tail (Memᴰ.tail (Memᴰ.tail (Memᴰ.tail m)))) = absurd (Memᴰ.not-nil m)

sample-IsNet : IsNet sample 0
sample-IsNet = record {
  own = refl;
  listed = Memᴰ.head refl;
  parsed = refl;
  distinct = sample_distinct;
  few = omega arith;
  joins = sample-Joins;
}

dijkstra_shortest_example :
    (t : Calc) × (dijkstra sample ≡ some t)
    × ((v : ℕ)
        → Memᴰ v (sample.rtr_lsas ++ sample.net_lsas)
        → ((t.nodes v).t_state ≡ ds_ontree
            → Walk (λ u. (sample.nodes u).t_links) 0 v (t.nodes v).cost0)
          × ((c : ℕ)
              → Walk (λ u. (sample.nodes u).t_links) 0 v c
              → ((t.nodes v).t_state ≡ ds_ontree) × ((t.nodes v).cost0 ≤ c)))
dijkstra_shortest_example = dijkstra_shortest sample 0 sample-IsNet

dijkstra-IsTable_example : (t : Calc) × (dijkstra sample ≡ some t) × IsTable sample t 1
dijkstra-IsTable_example = dijkstra-IsTable sample 0 sample-IsNet (λ x cur. cc cur.spf)

-- Router 2 is reached at a cost of no more than 10, by way of the network.
reached-sample :
    (t : Calc) × (dijkstra sample ≡ some t)
    × ((t.nodes 2).t_state ≡ ds_ontree)
    × ((t.nodes 2).cost0 ≤ 10)
reached-sample =
    let (t, ends, all) = dijkstra_shortest_example in
    let first : Memᴰ (transit_link (some 1) 10 7) (sample.nodes 0).t_links = Memᴰ.head refl in
    let second : Memᴰ (transit_link (some 2) 0 0) (sample.nodes 1).t_links =
      Memᴰ.tail (Memᴰ.head refl) in
    let (tree, low) = (all 2 (Memᴰ.tail (Memᴰ.head refl))).1 10 (go_on (go_on stay first) second) in
    (t, ends, tree, low)

-- The one router of a network with a stub link: its own cost, the stub link's and the count.
alone : Calc
alone = record sample {
  rtr_lsas = 0 ∷ [];
  net_lsas = [];
  nodes = λ u. blank_node lst_rtr (stub_link (some 4) 3 ∷ []) 0;
}

costs : Option Calc → List ℕ
costs none = []
costs (some t) = (t.nodes 0).cost0 ∷ (t.entries 4).cost ∷ t.ospf.n_routers ∷ []

costs-alone : costs (dijkstra alone) ≡ 0 ∷ 3 ∷ 1 ∷ []
unfolding costs alone dijkstra main_loop rmhead prepare dijk_init reset_all add combine visit
    follow_all settle_node item_of follow is_root enter hops new_intra set_area set_origin weigh
    intra_as save_state
costs-alone = refl
