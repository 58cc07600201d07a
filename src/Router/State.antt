-- ===== src/Router/State.antt =====
-- THospf/Neighbor.h, THospf/Interface.h and THospf/OSPF.h: neighbors and interfaces are objects of
-- a store, named by addresses; the global `ospf` is the rest of the store. What leaves the modelled
-- part (packets, requests to originate advertisements, calls of the system) is kept in `out`,
-- newest first.
use ospfbasic.Prelude.{ℕ, Bool, List, ◌∷◌, Option, none, some, ◌==◌, if◌then◌else◌, ℤ}
use ospfbasic.Fsm.Neighbor.{NbrState}
use ospfbasic.Fsm.Interface.{IfState}

abbrev pub Ptr : Type 0
Ptr = ℕ

-- A timer: `none` if it does not run, or its period in milliseconds (`active` and `period`).
abbrev pub TimerState : Type 0
TimerState = Option ℕ

-- `Timer::start` does nothing on a timer that runs.
unfoldable pub start : ℕ → TimerState → TimerState
start ms none = some ms
start ms (some p) = some p

unfoldable pub stop : TimerState → TimerState
stop t = none

-- `Timer::restart` does nothing on a timer that does not run; 0 keeps the period.
unfoldable pub restart : ℕ → TimerState → TimerState
restart ms none = none
restart ms (some p) = some (if ms == 0 then p else ms)

abbrev pub second : ℕ
second = 1000

abbrev pub unknown_addr : ℕ
unknown_addr = 0

-- `ddpkt` says whether the last database description packet is still held.
pub record Neighbor : Type 0 where
  pub n_addr : ℕ
  pub n_id : ℕ
  pub n_ifc : Ptr
  pub n_state : NbrState
  pub prior : ℕ
  pub n_dr : ℕ
  pub n_bdr : ℕ
  pub md5_seqno : ℕ
  pub n_ddseq : ℕ
  pub database_sent : Bool
  pub n_adj_pend : Bool
  pub remote_init : Bool
  pub request_suppression : Bool
  pub pend_retrans : List Ptr
  pub retrans : List Ptr
  pub failed_retrans : List Ptr
  pub retrans_cnt : ℕ
  pub retrans_window : ℕ
  pub ddlist : List Ptr
  pub reqlist : List Ptr
  pub ddpkt : Bool
  pub inactt : TimerState
  pub hellot : TimerState
  pub holdt : TimerState
  pub ddt : TimerState
  pub lsrt : TimerState
  pub lsat : TimerState
  pub progt : TimerState

pub data IfType : Type 0 where
  ift_broadcast ift_pp ift_nbma ift_p2mp : IfType

-- The class of an interface: DRIfc overrides some of the virtual functions.
pub data IfClass : Type 0 where
  plain_ifc dr_ifc : IfClass

pub record Interface : Type 0 where
  pub if_class : IfClass
  pub if_type : IfType
  pub if_addr : ℕ
  pub if_physic : ℕ
  pub if_hellointerval : ℕ
  pub if_deadinterval : ℕ
  pub if_rxmt : ℕ
  pub if_drpri : ℕ
  pub if_flood : ℕ
  pub if_dr : ℕ
  pub if_bdr : ℕ
  pub if_dr_n : Option Ptr
  pub if_state : IfState
  pub if_waitt : TimerState
  pub if_hellot : TimerState
  pub if_ackt : TimerState
  pub db_xsum : ℕ
  pub if_Neighborlist : List Ptr
  pub if_fullcnt : ℤ

-- What the modelled functions ask of the rest of the router and of the system.
pub data Output : Type 0 where
  neighbor_hello interface_hello send_dd add_to_retranslist : Ptr → Output
  router_lsa : Output
  network_lsa : Ptr → Output
  phy_attach : ℕ → Output
  multi_join multi_leave : ℕ → ℕ → Output

pub record Store : Type 0 where
  pub nbr : Ptr → Neighbor
  pub ifc : Ptr → Interface
  pub my_id : ℕ
  pub max_dds : ℕ
  pub local_inits : ℤ
  pub remote_inits : ℤ
  pub n_dbx_nbrs : ℤ
  -- The neighbors that wait for a database exchange, first come first; the linked list that
  -- holds them is in Pending.
  pub g_adj : List Ptr
  pub delete_neighbors : Bool
  -- The entries of the two tables of advertisements from the tree's root on, and how many
  -- neighbors are to acknowledge each.
  pub rtr_from_root : List Ptr
  pub net_from_root : List Ptr
  pub lsa_rxmt : Ptr → ℕ
  pub out : List Output
  pub interfaces : List Ptr
  -- What the database of advertisements, not modelled here, answers after the outputs so far, the
  -- last of which asks to originate an advertisement: `none` if nothing is flooded, or what each
  -- neighbor's list of requests has of that advertisement, with the result of `cmp_instance`.
  pub lsa_answers : List Output → Option (Ptr → Option (Ptr × ℤ))
  -- Whether the description packet of the newest output is the last one: the contents of packets are
  -- not modelled either. It says that `database_sent` is set behind it and that the last packet of the
  -- neighbor had no DD_MORE.
  pub dd_ends : List Output → Bool

unfoldable pub set_nbr : Ptr → Neighbor → Store → Store
set_nbr p n st = record st { nbr = λ q. if q == p then n else st.nbr q }

unfoldable pub set_ifc : Ptr → Interface → Store → Store
set_ifc p i st = record st { ifc = λ q. if q == p then i else st.ifc q }

abbrev pub emit : Output → Store → Store
emit o st = record st { out = o ∷ st.out }
