-- ===== src/Paths.antt =====
-- THospf/RtrTblEntry.cpp: the next hops of a destination, `EPath`, and THospf/OSPF.cpp: the
-- search for an interface. A path is the list of its first `npaths` nodes: `EPath::create` fills
-- the others with zeros and gives equal nodes the same entry of `nhdb`, so paths are compared by
-- their nodes here. A null `EPath *` is `none`.
pub mod Merge
mod Tests
use ospfbasic.Prelude.{
  ℕ, zero, suc, ◌+◌, Bool, true, false, List, [], ◌∷◌, ◌++◌, Option, none, some, ltb, leb, ◌==◌,
  ◌&&◌, ◌||◌, not, if◌then◌else◌, length, bit_and, ℤ, pos, negsuc,
}

-- `int` comparisons of numbers of physical interfaces.
abbrev pub int_lt : ℤ → ℤ → Bool
int_lt (pos a) (pos b) = ltb a b
int_lt (pos a) (negsuc b) = false
int_lt (negsuc a) (pos b) = true
int_lt (negsuc a) (negsuc b) = ltb b a

abbrev pub int_eq : ℤ → ℤ → Bool
int_eq (pos a) (pos b) = a == b
int_eq (pos a) (negsuc b) = false
int_eq (negsuc a) (pos b) = false
int_eq (negsuc a) (negsuc b) = a == b

-- What the search for an interface and for next hops looks at in an `Interface`.
pub record Interface : Type 0 where
  pub if_addr : ℕ
  pub if_mask : ℕ
  pub if_net : ℕ
  pub if_physic : ℤ

-- `OSPF::find_ifc` by address and physical interface; -1 stands for any.
unfoldable pub find_ifc : List Interface → ℕ → ℤ → Option Interface
find_ifc [] xaddr phy = none
find_ifc (ip ∷ ips) xaddr phy =
    let rest = find_ifc ips xaddr phy in
    if not (int_eq phy (negsuc 0)) && not (int_eq phy ip.if_physic)
    then rest
    else if ip.if_addr == xaddr
    then some ip
    else rest

pub record ENode : Type 0 where
  pub if_addr : ℕ
  pub phyint : ℤ
  pub gateway : ℕ

abbrev pub max_path : ℕ
max_path = 4

-- `EPath::create` for one interface.
unfoldable pub create : Interface → ℕ → List ENode
create ip addr = record { if_addr = ip.if_addr; phyint = ip.if_physic; gateway = addr } ∷ []

-- The tests of `EPath::merge` on a node of each path: take the second path's, leave the loop, or
-- go on to the next.
pub data Turn : Type 0 where
  take leave skip : Turn

unfoldable pub turn : ENode → ENode → Turn
turn a b =
    if ltb b.if_addr a.if_addr
    then take
    else if int_lt a.phyint b.phyint
    then leave
    else if int_lt b.phyint a.phyint
    then take
    else if ltb a.gateway b.gateway
    then leave
    else if ltb b.gateway a.gateway
    then take
    else skip

-- The inner loop of `EPath::merge`: the nodes of the second path that are left, and the nodes so
-- far.
unfoldable pub merge_inner : ENode → List ENode → List ENode → List ENode × List ENode
merge_inner a [] paths = ([], paths)
merge_inner a (b ∷ bs) paths = elim (ltb (length paths) max_path) [
  | false ↦ (b ∷ bs, paths)
  | true ↦ elim (turn a b) [
    | take ↦ merge_inner a bs (paths ++ b ∷ [])
    | leave ↦ (b ∷ bs, paths)
    | skip ↦ merge_inner a bs paths
  ]
]

-- `if (n_paths < MAXPATH) paths[n_paths++] = a`.
unfoldable pub push : List ENode → ENode → List ENode
push paths a = if ltb (length paths) max_path then paths ++ a ∷ [] else paths

-- The last loop of `EPath::merge`.
unfoldable pub push_all : List ENode → List ENode → List ENode
push_all paths [] = paths
push_all paths (b ∷ bs) = push_all (push paths b) bs

unfoldable pub merge_outer : List ENode → List ENode → List ENode → List ENode
merge_outer [] p2 paths = push_all paths p2
merge_outer (a ∷ nodes) p2 paths = elim (ltb (length paths) max_path) [
  | false ↦ push_all paths p2
  | true ↦ let (rest, taken) = merge_inner a p2 paths in merge_outer nodes rest (push taken a)
]

-- `EPath::merge`.
unfoldable pub merge : Option (List ENode) → Option (List ENode) → Option (List ENode)
merge none p2 = p2
merge (some p1) none = some p1
merge (some p1) (some p2) =
    if length p1 == max_path
    then some p1
    else if length p2 == max_path
    then some p2
    else some (merge_outer p1 p2 [])

-- `p->Nodes[i + 1].if_addr` for a node with what follows it: behind the last node, the zeros.
abbrev pub next_addr : List ENode → ℕ
next_addr [] = 0
next_addr (b ∷ bs) = b.if_addr

-- One round of `EPath::addgateway` at a node: what it writes for it, with `n_paths` and
-- `modified` before and after.
unfoldable pub gateway_at : List Interface → ℕ → ENode → ℕ → ℕ × Bool → List ENode × (ℕ × Bool)
gateway_at ifcs gw a following (n_paths, modified) = elim (find_ifc ifcs a.if_addr a.phyint) [
  | none ↦ (a ∷ [], (n_paths, modified))
  | some ip ↦
      if (ip.if_net == 0) || not (bit_and ip.if_mask gw == ip.if_net)
      then (a ∷ [], (n_paths, modified))
      else if a.gateway == 0
      then (record a { gateway = gw } ∷ [], (n_paths, true))
      else if (n_paths == max_path)
          || ((a.gateway == gw) || ((following == a.if_addr) && ltb a.gateway gw))
      then (a ∷ [], (n_paths, modified))
      else if ltb a.gateway gw
      then (a ∷ record a { gateway = gw } ∷ [], (suc n_paths, true))
      else (record a { gateway = gw } ∷ a ∷ [], (suc n_paths, true))
]

unfoldable pub gateway_loop : List Interface → ℕ → List ENode → ℕ × Bool → List ENode × (ℕ × Bool)
gateway_loop ifcs gw [] n = ([], n)
gateway_loop ifcs gw (a ∷ nodes) n =
    let (here, m) = gateway_at ifcs gw a (next_addr nodes) n in
    let (rest, end) = gateway_loop ifcs gw nodes m in (here ++ rest, end)

-- `EPath::addgateway`.
unfoldable pub addgateway : List Interface → Option (List ENode) → ℕ → Option (List ENode)
addgateway ifcs none gw = none
addgateway ifcs (some p) gw =
    let (paths, (n_paths, modified)) = gateway_loop ifcs gw p (length p, false) in
    some (if modified then paths else p)

-- The loop of `EPath::simple_phyint`.
unfoldable pub off_phyint : ℤ → List ENode → List ENode
off_phyint phyint [] = []
off_phyint phyint (a ∷ nodes) =
    let rest = off_phyint phyint nodes in if int_eq a.phyint phyint then rest else a ∷ rest

-- `EPath::simple_phyint` without its cache.
unfoldable pub simple_phyint : ℤ → List ENode → Option (List ENode)
simple_phyint phyint p = elim (off_phyint phyint p) [ [] ↦ none | a ∷ nodes ↦ some (a ∷ nodes) ]
