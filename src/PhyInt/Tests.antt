-- ===== src/PhyInt/Tests.antt =====
-- An interface attached and detached, and a group joined and left.
use ospfbasic.Prelude.{◌≡◌, refl, List, [], ◌∷◌, arith}
use ospfbasic.PhyInt.{
  phy_open, phy_close, join, no_phyints, PhyOp, attach, detach, join_group, leave_group, phy_ops,
  phy_op, phy_attach, phy_detach, multi_join, multi_leave, put,
}
use ospfbasic.PhyInt.Calls.{
  InStep, phy_ops-InStep, NeverLeft, phy_ops-NeverLeft, opens, closes, leaves,
}

abbrev session : List PhyOp
session = attach 3 ∷ join_group 3 0xe0000005 ∷ leave_group 3 0xe0000005 ∷ detach 3 ∷ []

called : (phy_ops session no_phyints).calls ≡ phy_close 3 ∷ join 0xe0000005 3 ∷ phy_open 3 ∷ []
unfolding phy_ops phy_op phy_attach phy_detach multi_join multi_leave put
called = refl

no_phyints-InStep : InStep no_phyints
unfolding opens closes
no_phyints-InStep p = omega arith

no_phyints-NeverLeft : NeverLeft no_phyints
unfolding leaves
no_phyints-NeverLeft = (λ p g. refl, refl)

phy_ops-InStep_example : InStep (phy_ops session no_phyints)
phy_ops-InStep_example = phy_ops-InStep session no_phyints no_phyints-InStep

phy_ops-NeverLeft_example : NeverLeft (phy_ops session no_phyints)
phy_ops-NeverLeft_example = phy_ops-NeverLeft session no_phyints no_phyints-NeverLeft
