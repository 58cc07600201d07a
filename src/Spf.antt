-- ===== src/Spf.antt =====
-- THospf/ospfCalc.cpp: `OSPF::dijkstra`, with `TNode::add_next_hop` and `TNode::ospf_find_gw` of
-- THospf/RtrTblEntry.cpp. The nodes and the routing table entries are stores by address, the
-- candidates a queue of the nodes' `Q_Elt` parts.
pub mod Sums
pub mod Bag
pub mod Moves
pub mod Walks
pub mod Search
pub mod Rounds
pub mod Entries
pub mod Filing
pub mod Loop
pub mod Shortest
pub mod Tables
mod Tests
use ospfbasic.Prelude.{
  ℕ, zero, suc, ◌+◌, ◌%◌, ◌^◌, Bool, true, false, List, [], ◌∷◌, ◌++◌, Option, none, some, ltb,
  ◌==◌, ◌&&◌, not, if◌then◌else◌, get_elem?, bit_and, length,
}
use ospfbasic.Queue.{Item, Tree, empty, node, add, rmhead, Side, to_left, to_right, del}
use ospfbasic.Paths.{Interface, ENode, create, merge, addgateway}
use ospfbasic.Routes.{
  DijkState, ds_uninit, ds_oncand, ds_ontree, Link, stub_link, transit_link, TNode, lst_rtr,
  lst_net, Ospf, RtrTblEntry, is_root, new_intra,
}

-- A write to a store.
abbrev pub put {ℓ} : {A : Type ℓ} → ℕ → A → (ℕ → A) → ℕ → A
put k a store x = if x == k then a else store x

-- `rtr_lsas` and `net_lsas` are the nodes in the lists of `rtrLSAs` and `netLSAs`, `own` the
-- advertisement that `myLSA` finds, `nets` the address and mask of the entries that are `IPrte`.
pub record Calc : Type 0 where
  pub ospf : Ospf
  pub own : Option ℕ
  pub rtr_lsas : List ℕ
  pub net_lsas : List ℕ
  pub nodes : ℕ → TNode
  pub entries : ℕ → RtrTblEntry
  pub nets : ℕ → ℕ × ℕ
  pub cand : Tree

-- The `Q_Elt` part of a node.
unfoldable pub item_of : ℕ → TNode → Item
item_of v n = record { elt = v; cost0 = n.cost0; cost1 = n.cost1; tie1 = n.tie1; tie2 = n.tie2 }

-- Where an element stands in the queue, to the left first.
unfoldable pub way_to : ℕ → Tree → Option (List Side)
way_to w empty = none
way_to w (node i d l r) =
    let in_left = way_to w l in
    let in_right = way_to w r in
    if i.elt == w then some [] else elim in_left [
      | some ss ↦ some (to_left ∷ ss)
      | none ↦ elim in_right [ none ↦ none | some ss ↦ some (to_right ∷ ss) ]
    ]

-- `cand.del(W)`.
unfoldable pub del_elt : ℕ → Tree → Tree
del_elt w t = elim (way_to w t) [ none ↦ t | some ss ↦ del ss t ]

-- `TNode::ospf_find_gw` over the links, with `gw_addr` so far.
unfoldable pub gw_loop : ℕ → ℕ → ℕ → List Link → ℕ → ℕ
gw_loop v net mask [] gw_addr = gw_addr
gw_loop v net mask (stub_link rte c ∷ lps) gw_addr = gw_loop v net mask lps gw_addr
gw_loop v net mask (transit_link nbr c l_data ∷ lps) gw_addr =
    let found : ℕ = elim nbr [ none ↦ gw_addr | some w ↦ if w == v then l_data else gw_addr ] in
    let rest = gw_loop v net mask lps found in
    if not (net == 0) && (bit_and found mask == net) then found else rest

unfoldable pub ospf_find_gw : ℕ → ℕ → ℕ → TNode → ℕ
ospf_find_gw v net mask w = gw_loop v net mask w.t_links 0

-- The next hops that `TNode::add_next_hop` computes for `w` behind `v`; nothing where it returns.
unfoldable pub new_next_hop : Calc → ℕ → TNode → ℕ → Option (Option (List ENode))
new_next_hop s v w index =
    if is_root s.ospf v
    then elim (get_elem? s.ospf.ifmap index) [
      | some (some ip) ↦ some (
          some (
            create ip (if w.lsa_type == lst_net then 0 else ospf_find_gw v ip.if_net ip.if_mask w)))
      | some none ↦ none
      | none ↦ none
    ]
    else let parent = s.nodes v in
      if not (parent.t_direct && (parent.lsa_type == lst_net))
      then some parent.t_epath
      else let (net, mask) = s.nets parent.t_dest in
        some (addgateway s.ospf.ifcs parent.t_epath (ospf_find_gw v net mask w))

-- `TNode::add_next_hop`.
unfoldable pub add_next_hop : Calc → ℕ → ℕ → TNode → TNode
add_next_hop s v index w = elim (new_next_hop s v w index) [
  | none ↦ w
  | some new_nh ↦ record w { t_epath = merge w.t_epath new_nh }
]

-- A better way to `w` through `v`.
unfoldable pub improve : Calc → ℕ → ℕ → TNode → TNode
improve s v new_cost w = record w {
  t_direct = is_root s.ospf v;
  cost0 = new_cost;
  cost1 = 0;
  tie1 = w.lsa_type;
  t_state = ds_oncand;
  t_parent = some v;
  t_epath = none;
}

-- `cand.add(W)` once `del` has been called for a `W` that was a candidate.
unfoldable pub reach : Calc → ℕ → ℕ → ℕ → ℕ → Tree → Calc
reach s v index w new_cost queue =
    let better = improve s v new_cost (s.nodes w) in
    let t = record s { nodes = put w better s.nodes; cand = add (item_of w better) queue } in
    record t { nodes = put w (add_next_hop t v index better) s.nodes }

-- A way of the same cost.
unfoldable pub join : Calc → ℕ → ℕ → ℕ → Calc
join s v index w =
    let old = s.nodes w in
    let same = if is_root s.ospf v then record old { t_direct = true } else old in
    record s { nodes = put w (add_next_hop s v index same) s.nodes }

-- The loop's body for a transit link to a node.
unfoldable pub relax : Calc → ℕ → ℕ → ℕ → ℕ → Calc
relax s v index w l_fwdcst =
    let new_cost = ((s.nodes v).cost0 + l_fwdcst) % 2 ^ 32 in
    elim (s.nodes w).t_state [
      | ds_ontree ↦ s
      | ds_oncand ↦
          if ltb (s.nodes w).cost0 new_cost
          then s
          else if ltb new_cost (s.nodes w).cost0
          then reach s v index w new_cost (del_elt w s.cand)
          else join s v index w
      | ds_uninit ↦ reach s v index w new_cost s.cand
    ]

-- The loop's body for one link.
unfoldable pub follow : Calc → ℕ → ℕ → Link → Calc
follow s v index (stub_link none c) = s
follow s v index (stub_link (some rte) c) = record s {
  entries = put rte (new_intra s.ospf v (s.nodes v) true c index (s.entries rte)) s.entries;
}
follow s v index (transit_link none c l_data) = s
follow s v index (transit_link (some w) c l_data) = relax s v index w c

-- The loop over the links of `v`.
unfoldable pub follow_all : Calc → ℕ → ℕ → List Link → Calc
follow_all s v index [] = s
follow_all s v index (lp ∷ lps) = follow_all (follow s v index lp) v (suc index) lps

-- Node `v` onto the tree and its own entry into the routing table.
unfoldable pub settle_node : ℕ → Calc → Calc
settle_node v s =
    let placed = record (s.nodes v) { t_state = ds_ontree } in
    let dest = placed.t_dest in
    record s {
      nodes = put v placed s.nodes;
      entries = put dest (new_intra s.ospf v placed false 0 0 (s.entries dest)) s.entries;
      ospf =
          if placed.lsa_type == lst_rtr
          then record s.ospf { n_routers = suc s.ospf.n_routers }
          else s.ospf;
    }

-- The body of the main loop.
unfoldable pub visit : ℕ → Calc → Calc
visit v s = let t = settle_node v s in follow_all t v 0 (t.nodes v).t_links

-- The main loop; nothing when the fuel runs out.
unfoldable pub main_loop : ℕ → Calc → Option Calc
main_loop zero s = none
main_loop (suc fuel) s =
    let (first, rest) = rmhead s.cand in
    elim first [
      | none ↦ some (record s { cand = rest })
      | some i ↦ main_loop fuel (visit i.elt (record s { cand = rest }))
    ]

unfoldable pub reset_all : List ℕ → (ℕ → TNode) → ℕ → TNode
reset_all [] nodes = nodes
reset_all (v ∷ vs) nodes = reset_all vs (put v (record (nodes v) { t_state = ds_uninit }) nodes)

-- `OSPF::dijk_init`.
unfoldable pub dijk_init : Calc → Calc
dijk_init s = elim s.own [
  | none ↦ s
  | some root ↦
      if (s.nodes root).parsed
      then (let first = record (s.nodes root) {
        cost0 = 0;
        cost1 = 0;
        tie1 = (s.nodes root).lsa_type;
      } in
          record s {
            nodes = put root (record first { t_state = ds_oncand }) s.nodes;
            cand = add (item_of root first) s.cand;
            ospf = record s.ospf { mylsa = some root };
          })
      else s
]

-- `OSPF::dijkstra` up to the main loop.
unfoldable pub prepare : Calc → Calc
prepare s =
    let counted = record s.ospf { n_dijkstras = suc s.ospf.n_dijkstras; n_routers = 0 } in
    dijk_init (record s {
      ospf = counted;
      nodes = reset_all s.net_lsas (reset_all s.rtr_lsas s.nodes);
      cand = empty;
    })

-- `OSPF::dijkstra`: every round takes a node from the candidates, so one round for each node and
-- one for the empty queue are enough.
unfoldable pub dijkstra : Calc → Option Calc
dijkstra s = main_loop (suc (length (s.rtr_lsas ++ s.net_lsas))) (prepare s)
