-- ===== src/Exchange/Tests.antt =====
-- The router 9 as master of the router 4, whose packet 100 the slave has taken and answered.
use ospfbasic.Prelude.{ℕ, ◌≡◌, refl, inr, true, false, [], ◌∷◌, arith}
use ospfbasic.Fsm.Neighbor.{nbs_exchange}
use ospfbasic.Exchange.{DdPkt, Side, is_master, judge, in_exchange, mismatched, taken}
use ospfbasic.Exchange.Protocol.{Net, begun, then_step, lost_to_master, InStep}
use ospfbasic.Exchange.Progress.{exchange-InOrder, InOrder}

abbrev side : ℕ → ℕ → Side
side own other = record {
  my_id = own;
  n_id = other;
  n_state = nbs_exchange;
  n_ddseq = 100;
  n_opts = 2;
}

abbrev answer : DdPkt
answer = record {
  dd_opts = 2;
  dd_init = false;
  dd_more = true;
  dd_master = false;
  dd_seqno = 100;
  is_empty = false;
}

abbrev answered_net : Net
answered_net = record {
  master = side 9 4;
  slave = side 4 9;
  to_master = answer ∷ answer ∷ [];
  to_slave = [];
}

abbrev lossy_net : Net
lossy_net = record answered_net { to_master = answer ∷ [] }

answered_net-InStep : InStep answered_net
unfolding is_master
answered_net-InStep = (
  (refl, refl, omega arith),
  (refl, refl, omega arith),
  inr (refl, tt, inr ((refl, refl, refl), ((refl, refl, refl), tt))),
)

exchange-InOrder_example : InOrder lossy_net
exchange-InOrder_example =
    exchange-InOrder answered_net-InStep
      (then_step begun (lost_to_master answered_net [] answer (answer ∷ []) refl))

judge-answer : judge (side 9 4) answer ≡ taken
unfolding judge in_exchange is_master
judge-answer = refl

-- A packet of ExStart that comes late.
late_init : judge (side 4 9) (record answer { dd_master = true; dd_init = true }) ≡ mismatched
unfolding judge in_exchange is_master
late_init = refl
