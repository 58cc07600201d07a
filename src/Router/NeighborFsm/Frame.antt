-- ===== src/Router/NeighborFsm/Frame.antt =====
-- Which parts of the store the actions of NeighborFSM.cpp leave alone.
use ospfbasic.Prelude.{ℕ, ◌≡◌, refl, ◌∙◌, Bool, true, false, List, arith, if◌then◌else◌}
use ospfbasic.Fsm.Neighbor.{NbrState}
use ospfbasic.Router.State.{Ptr, Neighbor, Store, Output, set_nbr}
use ospfbasic.Router.Actions.{
  set_state, add_pend_adj, del_pend_adj, start_adjacency, clear_retrans_list, clr_lists_tail,
  clr_lists, delete_neighbor, snapshot,
}

-- The states of the neighbors, who began their exchanges, the counters and the interfaces are the
-- same.
pub record Frame (st u : Store) : Type 0 where
  pub states : (q : Ptr) → (u.nbr q).n_state ≡ (st.nbr q).n_state
  pub inits : (q : Ptr) → (u.nbr q).remote_init ≡ (st.nbr q).remote_init
  pub local_same : u.local_inits ≡ st.local_inits
  pub remote_same : u.remote_inits ≡ st.remote_inits
  pub dbx_same : u.n_dbx_nbrs ≡ st.n_dbx_nbrs
  pub dds_same : u.max_dds ≡ st.max_dds
  pub ifcs_same : u.ifc ≡ st.ifc

pub Frame-refl : (st : Store) → Frame st st
Frame-refl st = record {
  states = λ q. refl;
  inits = λ q. refl;
  local_same = refl;
  remote_same = refl;
  dbx_same = refl;
  dds_same = refl;
  ifcs_same = refl;
}

pub Frame-trans : {a b c : Store} → Frame a b → Frame b c → Frame a c
Frame-trans f g = record {
  states = λ q. g.states q ∙ f.states q;
  inits = λ q. g.inits q ∙ f.inits q;
  local_same = g.local_same ∙ f.local_same;
  remote_same = g.remote_same ∙ f.remote_same;
  dbx_same = g.dbx_same ∙ f.dbx_same;
  dds_same = g.dds_same ∙ f.dds_same;
  ifcs_same = g.ifcs_same ∙ f.ifcs_same;
}

-- Updating a neighbor keeps the frame if its state and `remote_init` stay.
pub set_nbr-Frame :
    (p : Ptr) (n : Neighbor) (st : Store)
    → n.n_state ≡ (st.nbr p).n_state
    → n.remote_init ≡ (st.nbr p).remote_init
    → Frame st (set_nbr p n st)
unfolding set_nbr
set_nbr-Frame p n st h k = record {
  states = λ q. ground arith;
  inits = λ q. ground arith;
  local_same = refl;
  remote_same = refl;
  dbx_same = refl;
  dds_same = refl;
  ifcs_same = refl;
}

-- So do updates of what the frame does not name.
pub rest-Frame :
    (st : Store) (qs : List Ptr) (flag : Bool) (rxmt : Ptr → ℕ) (o : List Output)
    → Frame st (record st { g_adj = qs; delete_neighbors = flag; lsa_rxmt = rxmt; out = o })
rest-Frame st qs flag rxmt o = record {
  states = λ q. refl;
  inits = λ q. refl;
  local_same = refl;
  remote_same = refl;
  dbx_same = refl;
  dds_same = refl;
  ifcs_same = refl;
}

-- An update of one neighbor, then of the rest.
both :
    (p : Ptr) (n : Neighbor) (st : Store) (qs : List Ptr) (flag : Bool) (rxmt : Ptr → ℕ)
    (o : List Output)
    → n.n_state ≡ (st.nbr p).n_state
    → n.remote_init ≡ (st.nbr p).remote_init
    → Frame st
        (record (set_nbr p n st) { g_adj = qs; delete_neighbors = flag; lsa_rxmt = rxmt; out = o })
both p n st qs flag rxmt o h k =
    Frame-trans (set_nbr-Frame p n st h k) (rest-Frame (set_nbr p n st) qs flag rxmt o)

pub if-Frame : (b : Bool) (st u v : Store) → Frame st u → Frame st v → Frame st (if b then u else v)
if-Frame true st u v f g = f
if-Frame false st u v f g = g

module _ (p : Ptr) (st : Store) where
  pub add_pend-Frame : Frame st (add_pend_adj p st)
  unfolding add_pend_adj
  add_pend-Frame = if-Frame _ st _ _ (Frame-refl st) (both p _ st _ _ _ _ refl refl)

  pub del_pend-Frame : Frame st (del_pend_adj p st)
  unfolding del_pend_adj
  del_pend-Frame =
      if-Frame _ st _ _ (Frame-refl st)
        (if-Frame _ st _ _ (Frame-refl st) (both p _ st _ _ _ _ refl refl))

  pub start_adjacency-Frame : Frame st (start_adjacency p st)
  unfolding start_adjacency
  start_adjacency-Frame = both p _ st _ _ _ _ refl refl

  clear_retrans-Frame : Frame st (clear_retrans_list p st)
  unfolding clear_retrans_list
  clear_retrans-Frame = both p _ st _ _ _ _ refl refl

  clr_tail-Frame : Frame st (clr_lists_tail p st)
  unfolding clr_lists_tail
  clr_tail-Frame = both p _ st _ _ _ _ refl refl

  pub snapshot-Frame : Frame st (snapshot p st)
  unfolding snapshot
  snapshot-Frame = both p _ st _ _ _ _ refl refl

pub clr_lists-Frame : (p : Ptr) (st : Store) → Frame st (clr_lists p st)
unfolding clr_lists
clr_lists-Frame p st =
    let st1 = del_pend_adj p st in
    let st2 = set_nbr p (record (st1.nbr p) { n_adj_pend = false; ddpkt = false }) st1 in
    Frame-trans (del_pend-Frame p st) (
      Frame-trans (set_nbr-Frame p _ st1 refl refl)
        (Frame-trans (clear_retrans-Frame p st2) (clr_tail-Frame p (clear_retrans_list p st2))))

pub delete-Frame : (p : Ptr) (st : Store) → Frame st (delete_neighbor p st)
unfolding delete_neighbor
delete-Frame p st =
    let st0 = set_nbr p (record (st.nbr p) { md5_seqno = 0 }) st in
    Frame-trans (set_nbr-Frame p _ st refl refl)
      (Frame-trans (clr_lists-Frame p st0) (both p _ (clr_lists p st0) _ _ _ _ refl refl))

-- A change of a neighbor's state is the last word on it.
pub set_state-Frame :
    (p : Ptr) (s t : NbrState) (st : Store)
    → Frame (set_state p t st) (set_state p t (set_state p s st))
unfolding set_nbr
set_state-Frame p s t st = record {
  states = λ q. ground arith;
  inits = λ q. ground arith;
  local_same = refl;
  remote_same = refl;
  dbx_same = refl;
  dds_same = refl;
  ifcs_same = refl;
}

-- What is framed before a change of state is framed behind it.
pub set_state-under :
    (p : Ptr) (t : NbrState) {st u : Store}
    → Frame st u
    → Frame (set_state p t st) (set_state p t u)
unfolding set_nbr
set_state-under p t f = record {
  states = λ q. ground (arith, f.states q);
  inits = λ q. ground (arith, f.inits q, f.inits p);
  local_same = f.local_same;
  remote_same = f.remote_same;
  dbx_same = f.dbx_same;
  dds_same = f.dds_same;
  ifcs_same = f.ifcs_same;
}

pub set_state_at : (p : Ptr) (s : NbrState) (st : Store) → ((set_state p s st).nbr p).n_state ≡ s
unfolding set_nbr
set_state_at p s st = ground arith

-- To set the state that is there changes nothing.
pub set_state_self :
    (p : Ptr) (s : NbrState) (st : Store) → (st.nbr p).n_state ≡ s → Frame (set_state p s st) st
unfolding set_nbr
set_state_self p s st h = record {
  states = λ q. ground arith;
  inits = λ q. ground arith;
  local_same = refl;
  remote_same = refl;
  dbx_same = refl;
  dds_same = refl;
  ifcs_same = refl;
}
