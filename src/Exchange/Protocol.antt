-- ===== src/Exchange/Protocol.antt =====
-- THospf/ospfDD.cpp: the exchange of two routers over a channel in each direction.
use ospfbasic.Prelude.{
  ℕ, ◌+◌, ◌-◌, ◌%◌, ◌^◌, ◌≡◌, ◌<◌, ◌⊎◌, Bool, true, false, List, [], ◌∷◌, ◌++◌, All,
}
use ospfbasic.Fsm.Neighbor.{nbs_exchange}
use ospfbasic.Exchange.{DdPkt, Side, is_master, ignored, repeated, taken, judge, advance, dd_header}
use ospfbasic.Exchange.Channel.{TwoRuns}

-- The master's and the slave's side, and the packets on their way to each.
pub record Net : Type 0 where
  pub master : Side
  pub slave : Side
  pub to_master : List DdPkt
  pub to_slave : List DdPkt

-- Either side sends its packet, for the first time or again, with whatever options; a packet is lost; or a side receives the
-- first packet of its channel, takes it, or returns from recv_dd without an event.
pub data Step : Net → Net → Type 0 where
  master_sends :
      (net : Net) (opts : ℕ) (more bare : Bool)
      → Step net
          (record net { to_slave = net.to_slave ++ dd_header opts more bare net.master ∷ [] })
  slave_sends :
      (net : Net) (opts : ℕ) (more bare : Bool)
      → Step net
          (record net { to_master = net.to_master ++ dd_header opts more bare net.slave ∷ [] })
  lost_to_slave :
      (net : Net) (xs : List DdPkt) (p : DdPkt) (ys : List DdPkt)
      → (net.to_slave ≡ xs ++ p ∷ ys)
      → Step net (record net { to_slave = xs ++ ys })
  lost_to_master :
      (net : Net) (xs : List DdPkt) (p : DdPkt) (ys : List DdPkt)
      → (net.to_master ≡ xs ++ p ∷ ys)
      → Step net (record net { to_master = xs ++ ys })
  slave_takes :
      (net : Net) (p : DdPkt) (ps : List DdPkt)
      → (net.to_slave ≡ p ∷ ps)
      → (judge net.slave p ≡ taken)
      → Step net (record net { slave = advance net.slave p; to_slave = ps })
  slave_returns :
      (net : Net) (p : DdPkt) (ps : List DdPkt)
      → (net.to_slave ≡ p ∷ ps)
      → (judge net.slave p ≡ ignored) ⊎ (judge net.slave p ≡ repeated)
      → Step net (record net { to_slave = ps })
  master_takes :
      (net : Net) (p : DdPkt) (ps : List DdPkt)
      → (net.to_master ≡ p ∷ ps)
      → (judge net.master p ≡ taken)
      → Step net (record net { master = advance net.master p; to_master = ps })
  master_returns :
      (net : Net) (p : DdPkt) (ps : List DdPkt)
      → (net.to_master ≡ p ∷ ps)
      → (judge net.master p ≡ ignored) ⊎ (judge net.master p ≡ repeated)
      → Step net (record net { to_master = ps })

pub data Reach (net : Net) : Net → Type 0 where
  begun : Reach net net
  then_step : {mid last : Net} → Reach net mid → Step mid last → Reach net last

-- A packet of the master or the slave with a sequence number.
abbrev pub IsPkt : Bool → ℕ → DdPkt → Type 0
IsPkt from_master n p = (p.dd_seqno ≡ n) × (p.dd_init ≡ false) × (p.dd_master ≡ from_master)

abbrev pub IsSide : Bool → Side → Type 0
IsSide role n = (is_master n ≡ role) × (n.n_state ≡ nbs_exchange) × (n.n_ddseq < 2 ^ 32)

-- Either the slave is one packet behind and the last packet of the master may be on its way, or it has
-- taken it and its answer may be.
abbrev pub InStep : Net → Type 0
InStep net =
    IsSide true net.master
    × IsSide false net.slave
    × ((net.master.n_ddseq ≡ (net.slave.n_ddseq + 1) % 2 ^ 32)
          × TwoRuns (IsPkt true net.slave.n_ddseq) (IsPkt true net.master.n_ddseq) net.to_slave
          × All (IsPkt false net.slave.n_ddseq) net.to_master
        ⊎ (net.master.n_ddseq ≡ net.slave.n_ddseq)
          × All (IsPkt true net.master.n_ddseq) net.to_slave
          × TwoRuns (IsPkt false ((net.slave.n_ddseq + (2 ^ 32 - 1)) % 2 ^ 32))
              (IsPkt false net.slave.n_ddseq) net.to_master)
