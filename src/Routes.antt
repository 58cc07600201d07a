-- ===== src/Routes.antt =====
-- THospf/LSA.h: the nodes of the shortest path tree, `TNode` with its links; THospf/RtrTblEntry.h
-- and THospf/ospfCalc.cpp: routing table entries and what the calculation of shortest paths does
-- to them. Nodes and entries have addresses; an entry with a `router_type` is a
-- `RouterRtrTblEntry`, any other an `IPrte`. What `sys_install` asks of the kernel is a value.
pub mod Offers
pub mod Scan
mod Tests
use ospfbasic.Prelude.{
  ℕ, zero, suc, ◌+◌, ◌%◌, ◌^◌, Bool, true, false, List, [], ◌∷◌, Option, none, some, ltb, ◌==◌,
  ◌&&◌, ◌||◌, not, if◌then◌else◌, get_elem?,
}
use ospfbasic.Paths.{Interface, ENode, int_eq, create, merge}

pub data DijkState : Type 0 where
  ds_uninit ds_oncand ds_ontree : DijkState

-- A `SLink` with `sl_rte` and `l_fwdcst`; a `TLink` with `tl_nbr`, `l_fwdcst` and `l_data`.
pub data Link : Type 0 where
  stub_link : Option ℕ → ℕ → Link
  transit_link : Option ℕ → ℕ → ℕ → Link

pub record TNode : Type 0 where
  pub lsa_type : ℕ
  pub ls_id : ℕ
  pub adv_rtr : ℕ
  pub rtype : ℕ
  pub parsed : Bool
  pub t_links : List Link
  pub t_dest : ℕ
  pub t_direct : Bool
  pub t_state : DijkState
  pub t_parent : Option ℕ
  pub t_epath : Option (List ENode)
  pub cost0 : ℕ
  pub cost1 : ℕ
  pub tie1 : ℕ
  pub tie2 : ℕ

abbrev pub lst_rtr : ℕ
lst_rtr = 1

abbrev pub lst_net : ℕ
lst_net = 2

-- The fields of `OSPF` that the calculation reads and counts in.
pub record Ospf : Type 0 where
  pub mylsa : Option ℕ
  pub ifcs : List Interface
  pub ifmap : List (Option Interface)
  pub n_dijkstras : ℕ
  pub n_routers : ℕ

pub data RtType : Type 0 where
  rt_direct rt_spf rt_spfia rt_extt1 rt_extt2 rt_reject rt_static rt_none : RtType

pub record SpfData : Type 0 where
  pub lstype : ℕ
  pub lsid : ℕ
  pub rtid : ℕ
  pub r_area : ℕ
  pub old_epath : Option (List ENode)
  pub old_cost : ℕ

pub record RtrTblEntry : Type 0 where
  pub r_type : RtType
  pub changed : Bool
  pub dijk_run : ℕ
  pub r_epath : Option (List ENode)
  pub last_epath : Option (List ENode)
  pub cost : ℕ
  pub tag : ℕ
  pub r_ospf : Option SpfData
  pub router_type : Option ℕ

-- `RtrTblEntry::intra_area`, `valid` and `intra_AS`.
unfoldable pub intra_area : RtrTblEntry → Bool
intra_area e = elim e.r_type [ rt_spf ↦ true | _ ↦ false ]

unfoldable pub valid : RtrTblEntry → Bool
valid e = elim e.r_type [ rt_none ↦ false | _ ↦ true ]

unfoldable pub intra_as : RtrTblEntry → Bool
intra_as e = elim e.r_type [ rt_spf ↦ true | rt_spfia ↦ true | _ ↦ false ]

-- A new `SpfData`, all zero.
abbrev pub no_data : SpfData
no_data = record { lstype = 0; lsid = 0; rtid = 0; r_area = 0; old_epath = none; old_cost = 0 }

-- `if (!r_ospf) r_ospf = new SpfData`.
abbrev pub data_of : Option SpfData → SpfData
data_of none = no_data
data_of (some d) = d

unfoldable pub set_area : ℕ → RtrTblEntry → RtrTblEntry
set_area id e = record e { r_ospf = some (record (data_of e.r_ospf) { r_area = id }) }

-- `RouterRtrTblEntry::set_origin` also takes over the router's type.
unfoldable pub set_origin : TNode → RtrTblEntry → RtrTblEntry
set_origin v e = record e {
  r_ospf =
      some (record (data_of e.r_ospf) { lstype = v.lsa_type; lsid = v.ls_id; rtid = v.adv_rtr });
  router_type = elim e.router_type [ none ↦ none | some t ↦ some v.rtype ];
}

unfoldable pub save_state : RtrTblEntry → RtrTblEntry
save_state e = if not (intra_as e) then e else elim e.r_ospf [
  | none ↦ e
  | some d ↦ record e { r_ospf = some (record d { old_epath = e.r_epath; old_cost = e.cost }) }
]

unfoldable pub is_root : Ospf → ℕ → Bool
is_root g v = elim g.mylsa [ none ↦ false | some m ↦ m == v ]

-- The first tests of `RtrTblEntry::new_intra`: nothing when it returns, else the entry so far and
-- `merge`.
unfoldable pub weigh : ℕ → ℕ → RtrTblEntry → Option (RtrTblEntry × Bool)
weigh run total_cost e = elim e.r_type [
  | rt_direct ↦ none
  | rt_spf ↦
      if not (e.dijk_run == run)
      then some (save_state e, false)
      else if ltb e.cost total_cost
      then none
      else some (e, total_cost == e.cost)
  | _ ↦ some (record e { changed = true }, false)
]

-- The next hops of an entry with its origin at node `v`: nothing where `new_intra` returns at the
-- root.
unfoldable pub hops : Ospf → ℕ → TNode → Bool → ℕ → Option (Option (List ENode))
hops g v node stub index =
    if not (is_root g v)
    then some node.t_epath
    else if stub
    then elim (get_elem? g.ifmap index) [
      | some (some ip) ↦ some (some (create ip 0))
      | some none ↦ some none
      | none ↦ some none
    ]
    else none

-- What `new_intra` writes once it goes on.
unfoldable pub enter :
    Ospf → ℕ → TNode → Option (Option (List ENode)) → ℕ → RtrTblEntry × Bool → RtrTblEntry
enter g v node newnh total_cost (e, both) =
    let begun = set_area 0 (
      set_origin node
        (record e { dijk_run = g.n_dijkstras % 2; r_type = rt_spf; cost = total_cost })) in
    elim newnh [
      | none ↦ begun
      | some path ↦ record begun { r_epath = if both then merge path begun.r_epath else path }
    ]

-- `RtrTblEntry::new_intra`.
unfoldable pub new_intra : Ospf → ℕ → TNode → Bool → ℕ → ℕ → RtrTblEntry → RtrTblEntry
new_intra g v node stub stub_cost index e =
    let total_cost = (node.cost0 + stub_cost) % 2 ^ 32 in
    elim (weigh (g.n_dijkstras % 2) total_cost e) [
      | none ↦ e
      | some begun ↦ enter g v node (hops g v node stub index) total_cost begun
    ]

abbrev pub ls_infinity : ℕ
ls_infinity = 0xffffff

-- `RtrTblEntry::declare_unreachable`.
unfoldable pub declare_unreachable : RtrTblEntry → RtrTblEntry
declare_unreachable e = record e {
  r_type = rt_none;
  r_ospf = none;
  cost = ls_infinity;
  r_epath = none;
}

unfoldable pub same_node : ENode → ENode → Bool
same_node a b = (a.if_addr == b.if_addr) && (int_eq a.phyint b.phyint && (a.gateway == b.gateway))

-- `==` on `EPath *`.
unfoldable pub same_nodes : List ENode → List ENode → Bool
same_nodes [] [] = true
same_nodes (a ∷ p) (b ∷ q) = same_node a b && same_nodes p q
same_nodes _ _ = false

unfoldable pub same_path : Option (List ENode) → Option (List ENode) → Bool
same_path none none = true
same_path (some p) (some q) = same_nodes p q
same_path _ _ = false

unfoldable pub state_changed : RtrTblEntry → Bool
state_changed e = elim e.r_ospf [
  | none ↦ false
  | some d ↦ if not (same_path e.r_epath d.old_epath) then true else not (d.old_cost == e.cost)
]

-- The calls of `IPrte::sys_install` to the kernel, `rtdel` with the old next hops, `rtadd` with
-- the new and the old ones, and whether to reject.
pub data KernelCall : Type 0 where
  rtdel : Option (List ENode) → KernelCall
  rtadd : Option (List ENode) → Option (List ENode) → Bool → KernelCall

unfoldable pub kernel_call : RtrTblEntry → KernelCall
kernel_call e = elim e.r_type [
  | rt_none ↦ rtdel e.last_epath
  | rt_reject ↦ rtadd none e.last_epath true
  | _ ↦ rtadd e.r_epath e.last_epath false
]

-- The three tests of `OSPF::rt_scan` on an entry before the last.
unfoldable pub expire : ℕ → RtrTblEntry → RtrTblEntry
expire run e =
    if intra_area e && not (run == e.dijk_run)
    then record (declare_unreachable e) { changed = true }
    else e

unfoldable pub withdraw : RtrTblEntry → RtrTblEntry
withdraw e = if intra_as e && same_path e.r_epath none then declare_unreachable e else e

unfoldable pub clear_tag : RtrTblEntry → RtrTblEntry
clear_tag e = if intra_area e then record e { tag = 0 } else e

unfoldable pub refresh : ℕ → RtrTblEntry → RtrTblEntry
refresh run e = clear_tag (withdraw (expire run e))

unfoldable pub scan_entry : ℕ → RtrTblEntry → RtrTblEntry × Option KernelCall
scan_entry run e =
    let kept = refresh run e in
    if kept.changed || state_changed kept
    then (record kept { changed = false; last_epath = kept.r_epath }, some (kernel_call kept))
    else (kept, none)

-- `OSPF::rt_scan` over the entries in the order of the table.
unfoldable pub rt_scan : ℕ → List RtrTblEntry → List (RtrTblEntry × Option KernelCall)
rt_scan n_dijkstras [] = []
rt_scan n_dijkstras (e ∷ es) = scan_entry (n_dijkstras % 2) e ∷ rt_scan n_dijkstras es
