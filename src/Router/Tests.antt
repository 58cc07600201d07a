-- ===== src/Router/Tests.antt =====
-- A router with one broadcast interface and two neighbors, one of which has called: the state
-- machines on concrete events.
use ospfbasic.Prelude.{
  ℕ, ◌≡◌, ◌≢◌, ◌⊎◌, refl, ◌+◌, Bool, true, false, List, [], ◌∷◌, Option, none, some, arith, pos,
  decrement, increment, ◌==◌, if◌then◌else◌,
}
use ospfbasic.Fsm.Neighbor.{
  NbrState, nbs_down, nbs_2way, nbs_exchange, nbs_loading, nbs_full, nbe_exchangedone, run_nbr_fsm,
}
use ospfbasic.Fsm.Interface.{ifs_wait, ifs_other, ife_wtim}
use ospfbasic.Hello.{Settings, HelloPkt, recv_hello, is_refused}
use ospfbasic.Hello.Kept.{recv_hello-Good}
use ospfbasic.Router.State.{
  Ptr, Neighbor, Interface, Store, dr_ifc, ift_broadcast, unknown_addr, set_nbr, set_ifc, stop,
}
use ospfbasic.Router.Actions.{mem_ptr, erase_ptr, nbr_action, exchange_done}
use ospfbasic.Router.NeighborFsm.{nbr_step, after_change, exit_dbxchg}
use ospfbasic.Router.NeighborFsm.Balanced.{Balanced, IsCalled}
use ospfbasic.Router.NeighborFsm.Counters.{nbr_step-Balanced, Distinct, count}
use ospfbasic.Router.Election.{
  start_backup, scan_backup, start_dr, scan_dr, elect, BackupScan, elect_pass, conclude,
  skips_backup, skips_dr, role, passes_again,
}
use ospfbasic.Router.Election.Ranks.{BackupWins, scan_backup-wins, DrWins, scan_dr-wins}
use ospfbasic.Router.Election.Roles.{elect-other}
use ospfbasic.Router.Machines.{
  nbr_fsm, ifc_fsm, nbr_originate, tell_interface, originate, flood, flood_neighbors,
  flood_neighbor, rmreq, send_next,
}
use ospfbasic.Router.Machines.Apart.{Good}
use ospfbasic.Router.Machines.Invariant.{nbr_fsm-Good, ifc_fsm-Good}

abbrev neighbor : ℕ → NbrState → Bool → Neighbor
neighbor k s called = record {
  n_addr = 100 + k;
  n_id = k;
  n_ifc = 10;
  n_state = s;
  prior = k;
  n_dr = unknown_addr;
  n_bdr = unknown_addr;
  md5_seqno = 0;
  n_ddseq = 7;
  database_sent = false;
  n_adj_pend = false;
  remote_init = called;
  request_suppression = false;
  pend_retrans = [];
  retrans = [];
  failed_retrans = [];
  retrans_cnt = 0;
  retrans_window = 1;
  ddlist = [];
  reqlist = [];
  ddpkt = false;
  inactt = none;
  hellot = none;
  holdt = none;
  ddt = none;
  lsrt = none;
  lsat = none;
  progt = none;
}

abbrev interface : Interface
interface = record {
  if_class = dr_ifc;
  if_type = ift_broadcast;
  if_addr = 100;
  if_physic = 1;
  if_hellointerval = 10;
  if_deadinterval = 40;
  if_rxmt = 5;
  if_drpri = 0;
  if_flood = 0;
  if_dr = unknown_addr;
  if_bdr = unknown_addr;
  if_dr_n = none;
  if_state = ifs_wait;
  if_waitt = some 40000;
  if_hellot = some 10000;
  if_ackt = none;
  db_xsum = 0;
  if_Neighborlist = 1 ∷ 2 ∷ [];
  if_fullcnt = pos 0;
}

-- Neighbor 1 is in Exchange, at its own call; neighbor 2 is in 2-Way.
abbrev two_neighbors : Store
two_neighbors = record {
  nbr = λ p. if p == 1 then neighbor 1 nbs_exchange true else neighbor 2 nbs_2way false;
  ifc = λ a. interface;
  my_id = 50;
  max_dds = 2;
  local_inits = pos 0;
  remote_inits = pos 1;
  n_dbx_nbrs = pos 1;
  g_adj = [];
  delete_neighbors = true;
  rtr_from_root = [];
  net_from_root = [];
  lsa_rxmt = λ l. 0;
  out = [];
  interfaces = 10 ∷ [];
  lsa_answers = λ asked. some (λ p. if p == 2 then some (7, pos 0) else none);
  dd_ends = λ sent. true;
}

abbrev live : List Ptr
live = 1 ∷ 2 ∷ []

live-Distinct : Distinct live
unfolding mem_ptr
live-Distinct = (refl, (refl, tt))

two_neighbors-Good : Good live two_neighbors
unfolding count mem_ptr
two_neighbors-Good = record {
  counted = record {
    locals = refl;
    remotes = refl;
    dbx = refl;
    called = λ q h. ground arith;
    local_capped = omega arith;
    remote_capped = omega arith;
  };
  housed = λ a. (refl, (refl, tt));
}

live_has : mem_ptr 1 live ≡ true
unfolding mem_ptr
live_has = refl

is_called : IsCalled (two_neighbors.nbr 1)
is_called h = refl

nbr_step-Balanced_example : Balanced 1 two_neighbors (nbr_step 1 nbe_exchangedone two_neighbors).0
nbr_step-Balanced_example = nbr_step-Balanced 1 nbe_exchangedone two_neighbors is_called

-- Neighbor 1 in Exchange has nothing to request, and neighbor 2 in Loading has one request left,
-- which the next router advertisement of this router answers.
abbrev last_request : Store
last_request = record two_neighbors {
  nbr = λ p.
      if p == 1
      then neighbor 1 nbs_exchange true
      else record (neighbor 2 nbs_loading false) { reqlist = 7 ∷ [] };
  local_inits = pos 1;
  n_dbx_nbrs = pos 2;
}

last_request-Good : Good live last_request
unfolding count mem_ptr
last_request-Good = record {
  counted = record {
    locals = refl;
    remotes = refl;
    dbx = refl;
    called = λ q h. ground arith;
    local_capped = omega arith;
    remote_capped = omega arith;
  };
  housed = λ a. (refl, (refl, tt));
}

abbrev state_of : Ptr → Option Store → Option NbrState
state_of p none = none
state_of p (some st) = some (st.nbr p).n_state

-- The end of the exchange with neighbor 1 makes both Full, within one call.
both_full :
    (state_of 1 (nbr_fsm 5 1 nbe_exchangedone last_request) ≡ some nbs_full)
    × (state_of 2 (nbr_fsm 5 1 nbe_exchangedone last_request) ≡ some nbs_full)
unfolding send_next nbr_fsm nbr_step nbr_action exchange_done after_change nbr_originate
    tell_interface originate flood flood_neighbors flood_neighbor rmreq set_nbr set_ifc exit_dbxchg
    erase_ptr run_nbr_fsm decrement increment stop
both_full = (refl, refl)

nbr_fsm-Good_example :
    (u : Store) × (nbr_fsm 5 1 nbe_exchangedone last_request ≡ some u) × Good live u
nbr_fsm-Good_example =
    nbr_fsm-Good live 5 1 nbe_exchangedone last_request live-Distinct (omega arith) live_has
      last_request-Good

ifc_fsm-Good_example : (u : Store) × (ifc_fsm 5 10 ife_wtim two_neighbors ≡ some u) × Good live u
ifc_fsm-Good_example =
    ifc_fsm-Good live 5 10 ife_wtim two_neighbors live-Distinct (omega arith) two_neighbors-Good

abbrev first : BackupScan
first = record { bdr_p = none; bdr = unknown_addr; declared = false; c_pri = 0; c_id = 0 }

scan_backup-wins_example :
    BackupWins live two_neighbors.nbr first (scan_backup live two_neighbors.nbr first)
scan_backup-wins_example = scan_backup-wins live two_neighbors.nbr first

scan_dr-wins_example :
    DrWins live two_neighbors.nbr
      (start_dr 50 interface first)
      (scan_dr live two_neighbors.nbr (start_dr 50 interface first))
scan_dr-wins_example = scan_dr-wins live two_neighbors.nbr (start_dr 50 interface first)

elect-other_example :
    ((elect 50 two_neighbors.nbr interface).if_state ≡ ifs_other)
    × ((elect 50 two_neighbors.nbr interface).if_dr ≢ 100)
    × ((elect 50 two_neighbors.nbr interface).if_bdr ≢ 100)
elect-other_example =
    elect-other 50 two_neighbors.nbr interface refl (omega arith) (omega arith, (omega arith, tt))

-- Neighbor 2, with the higher priority, becomes backup in the first pass and so designated router.
elected : (elect 50 two_neighbors.nbr interface).if_dr ≡ 102
unfolding elect elect_pass conclude start_backup scan_backup skips_backup start_dr scan_dr skips_dr
    role passes_again
elected = refl

abbrev settings : Settings
settings = record { if_mask = 0xffffff00; passive = false }

-- A Hello packet of a neighbor that has not been heard before, and lists this router.
abbrev hello : HelloPkt
hello = record {
  i_src = 3;
  srcid = 3;
  hello_mask = 0xffffff00;
  hello_hint = 10;
  hello_pri = 1;
  hello_dint = 40;
  hello_dr = 0;
  hello_bdr = 0;
  heard = 1 ∷ 50 ∷ [];
}

free_3 : mem_ptr 3 live ≡ false
unfolding mem_ptr
free_3 = refl

hello_accepted : is_refused settings hello (two_neighbors.ifc 10) ≡ false
unfolding is_refused
hello_accepted = refl

recv_hello-Good_example :
    (u : Store) × (recv_hello 6 settings 3 (neighbor 3 nbs_down false) 10 hello two_neighbors
      ≡ some u)
    × (Good live u ⊎ Good (3 ∷ live) u)
recv_hello-Good_example =
    recv_hello-Good live 6 settings 3 (neighbor 3 nbs_down false) 10 hello two_neighbors
      live-Distinct (omega arith) free_3 two_neighbors-Good
