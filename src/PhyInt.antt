-- ===== src/PhyInt.antt =====
-- THospf/phyint.cpp: the physical interfaces that are open and the multicast groups, each counted
-- in a table. A table is a function here, from the keys to the count of references of the entry;
-- that count is an `int16`, below its limit here.
pub mod Calls
mod Tests
use ospfbasic.Prelude.{
  ℕ, zero, suc, ◌+◌, ◌-◌, Bool, true, false, not, ◌&&◌, List, [], ◌∷◌, Option, none, some, leb,
  ◌==◌, if◌then◌else◌,
}

-- The calls of `sys`.
pub data SysCall : Type 0 where
  phy_open phy_close : ℕ → SysCall
  join leave : ℕ → ℕ → SysCall

-- The two tables, and the calls of `sys` so far, newest first.
pub record PhyState : Type 0 where
  pub phyints : ℕ → Option ℕ
  pub ospf_member : ℕ → ℕ → Option ℕ
  pub calls : List SysCall

abbrev pub no_phyints : PhyState
no_phyints = record { phyints = λ p. none; ospf_member = λ p g. none; calls = [] }

unfoldable pub put : (ℕ → Option ℕ) → ℕ → Option ℕ → ℕ → Option ℕ
put t p v q = if q == p then v else t q

unfoldable pub put_member : (ℕ → ℕ → Option ℕ) → ℕ → ℕ → Option ℕ → ℕ → ℕ → Option ℕ
put_member t p g v q h = if q == p && h == g then v else t q h

-- `TblItem::deref` on an entry of a table.
abbrev pub deref : ℕ → ℕ
deref n = if leb 1 n then n - 1 else n

unfoldable pub phy_attach : ℕ → PhyState → PhyState
phy_attach p st = elim (st.phyints p) [
  | none ↦ record st { phyints = put st.phyints p (some 1); calls = phy_open p ∷ st.calls }
  | some n ↦ record st { phyints = put st.phyints p (some (suc n)) }
]

unfoldable pub phy_detach : ℕ → PhyState → PhyState
phy_detach p st = elim (st.phyints p) [
  | none ↦ st
  | some n ↦
      if deref n == 0
      then record st { phyints = put st.phyints p none; calls = phy_close p ∷ st.calls }
      else record st { phyints = put st.phyints p (some (deref n)) }
]

-- A new member is not put into the table.
unfoldable pub multi_join : ℕ → ℕ → PhyState → PhyState
multi_join p g st = elim (st.ospf_member p g) [
  | none ↦ record st { calls = join g p ∷ st.calls }
  | some n ↦ record st { ospf_member = put_member st.ospf_member p g (some (suc n)) }
]

unfoldable pub multi_leave : ℕ → ℕ → PhyState → PhyState
multi_leave p g st = elim (st.ospf_member p g) [
  | none ↦ st
  | some n ↦
      if deref n == 0
      then record st {
        ospf_member = put_member st.ospf_member p g none;
        calls = leave g p ∷ st.calls;
      }
      else record st { ospf_member = put_member st.ospf_member p g (some (deref n)) }
]

-- One of the four operations.
pub data PhyOp : Type 0 where
  attach detach : ℕ → PhyOp
  join_group leave_group : ℕ → ℕ → PhyOp

unfoldable pub phy_op : PhyOp → PhyState → PhyState
phy_op (attach p) st = phy_attach p st
phy_op (detach p) st = phy_detach p st
phy_op (join_group p g) st = multi_join p g st
phy_op (leave_group p g) st = multi_leave p g st

unfoldable pub phy_ops : List PhyOp → PhyState → PhyState
phy_ops [] st = st
phy_ops (o ∷ os) st = phy_ops os (phy_op o st)
