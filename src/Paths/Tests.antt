-- ===== src/Paths/Tests.antt =====
-- THospf/RtrTblEntry.cpp: paths at sample nodes.
use ospfbasic.Prelude.{ℕ, ◌≡◌, ◌≤◌, refl, List, [], ◌∷◌, none, some, pos, arith}
use ospfbasic.Paths.{
  Interface, ENode, merge, merge_outer, merge_inner, turn, push, push_all, addgateway, gateway_loop,
  gateway_at, find_ifc, simple_phyint, off_phyint,
}
use ospfbasic.Paths.Merge.{Fits, merge-Fits, merge_drops}

abbrev hop : ℕ → ℕ → ℕ → ENode
hop addr phy gw = record { if_addr = addr; phyint = pos phy; gateway = gw }

abbrev port : Interface
port = record { if_addr = 1; if_mask = 0xfffffff0; if_net = 0; if_physic = pos 1 }

-- Nodes in order are merged in order; the third run gives a node twice.
merge-sample :
    (merge (some (hop 1 1 0 ∷ hop 3 3 0 ∷ [])) (some (hop 2 2 0 ∷ []))
      ≡ some (hop 1 1 0 ∷ hop 2 2 0 ∷ hop 3 3 0 ∷ []))
    × (merge (some (hop 1 1 0 ∷ [])) (some (hop 1 1 0 ∷ [])) ≡ some (hop 1 1 0 ∷ []))
    × (merge (some (hop 1 2 0 ∷ hop 2 1 0 ∷ [])) (some (hop 2 1 0 ∷ []))
        ≡ some (hop 2 1 0 ∷ hop 1 2 0 ∷ hop 2 1 0 ∷ []))
unfolding merge merge_outer merge_inner turn push push_all
merge-sample = (refl, refl, refl)

addgateway-sample :
    addgateway (record port { if_mask = 0xf0; if_net = 0x10 } ∷ []) (some (hop 1 1 0 ∷ [])) 0x12
    ≡ some (hop 1 1 0x12 ∷ [])
unfolding addgateway gateway_loop gateway_at find_ifc
addgateway-sample = refl

simple_phyint-sample :
    (simple_phyint (pos 1) (hop 1 1 0 ∷ hop 2 2 0 ∷ []) ≡ some (hop 2 2 0 ∷ []))
    × (simple_phyint (pos 1) (hop 1 1 0 ∷ []) ≡ none)
unfolding simple_phyint off_phyint
simple_phyint-sample = (refl, refl)

abbrev Small : ENode → Type 0
Small a = a.if_addr ≤ 3

merge-Fits_example :
    (p : List ENode) × (merge (some (hop 1 1 0 ∷ hop 3 3 0 ∷ [])) (some (hop 2 2 0 ∷ [])) ≡ some p)
    × Fits Small p
merge-Fits_example =
    merge-Fits (hop 1 1 0 ∷ hop 3 3 0 ∷ []) (hop 2 2 0 ∷ [])
      (record { bound = omega arith; all = (omega arith, (omega arith, tt)) })
      (record { bound = omega arith; all = (omega arith, tt) })

merge_drops_example : merge (some (hop 1 1 0 ∷ [])) (some (hop 2 1 0 ∷ [])) ≡ some (hop 1 1 0 ∷ [])
merge_drops_example = merge_drops (hop 1 1 0) (hop 2 1 0) (omega arith) refl refl
