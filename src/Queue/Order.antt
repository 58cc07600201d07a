-- ===== src/Queue/Order.antt =====
-- THospf/Queue.h: the order of `Q_Elt::cmp_cost`.
use ospfbasic.Prelude.{◌≡◌, true, false, arith}
use ospfbasic.Queue.{Item, cmp_cost}

-- Nothing comes before itself.
pub cmp_cost_irrefl : (a : Item) → cmp_cost a a ≡ false
unfolding cmp_cost
cmp_cost_irrefl a = ground arith

-- No two come before each other.
pub cmp_cost-asym : (a b : Item) → cmp_cost a b ≡ true → cmp_cost b a ≡ false
unfolding cmp_cost
cmp_cost-asym a b h = ground arith

-- To come no earlier is transitive.
pub cmp_cost_trans :
    (a b c : Item) → cmp_cost b a ≡ false → cmp_cost c b ≡ false → cmp_cost c a ≡ false
unfolding cmp_cost
cmp_cost_trans a b c h k = ground arith
