-- ===== src/Router/NeighborFsm/Balanced/Moves.antt =====
-- THospf/NeighborFSM.cpp: the counters along the edges of `nbr_fsm`'s diagram.
use ospfbasic.Prelude.{
  ℕ, ◌≡◌, sym, ap, ◌∙◌, Bool, true, false, not, ◌&&◌, arith, ◌==◌, if◌then◌else◌, ℤ, decrement,
  increment-decrement, bump, AtMost, decrement-AtMost,
}
use ospfbasic.Fsm.Neighbor.{NbrState, nbs_down}
use ospfbasic.Router.State.{Ptr, Neighbor, Interface, Store, set_nbr}
use ospfbasic.Router.Actions.{same_nbr_state}
use ospfbasic.Router.NeighborFsm.{after_change}
use ospfbasic.Router.NeighborFsm.Frame.{Frame}
use ospfbasic.Router.NeighborFsm.Outcome.{is_move, can_start}
use ospfbasic.Router.NeighborFsm.Change.{
  exits, dbx_change, change_local, change_remote, change_dbx, change_init, change_dds, change_state,
  change_other_init, change_lists,
}
use ospfbasic.Router.NeighborFsm.Balanced.{is_forming, is_exchanging, IsCalled, Balanced}

-- The store behind the `switch`: the neighbor is in state `t` with `remote_init` `r`, and the
-- counters of exchanges begun are `l` and `m`.
pub record Placed (p : Ptr) (t : NbrState) (r : Bool) (l m : ℤ) (st u : Store) : Type 0 where
  pub state_at : (u.nbr p).n_state ≡ t
  pub init_at : (u.nbr p).remote_init ≡ r
  pub other_states : (q : Ptr) → (q == p) ≡ false → (u.nbr q).n_state ≡ (st.nbr q).n_state
  pub other_inits : (q : Ptr) → (q == p) ≡ false → (u.nbr q).remote_init ≡ (st.nbr q).remote_init
  pub local_is : u.local_inits ≡ l
  pub remote_is : u.remote_inits ≡ m
  pub dbx_is : u.n_dbx_nbrs ≡ st.n_dbx_nbrs
  pub dds_is : u.max_dds ≡ st.max_dds
  pub lists_are : (i : Ptr) → (u.ifc i).if_Neighborlist ≡ (st.ifc i).if_Neighborlist

-- An update at `p`, with the counters given.
abbrev placed_store : Ptr → Neighbor → ℤ → ℤ → Store → Store
placed_store p n l m st = record (set_nbr p n st) { local_inits = l; remote_inits = m }

pub placed :
    (p : Ptr) (n : Neighbor) (l m : ℤ) (st u : Store)
    → Frame (placed_store p n l m st) u
    → Placed p n.n_state n.remote_init l m st u
unfolding set_nbr
placed p n l m st u f = record {
  state_at = ground (arith, f.states p);
  init_at = ground (arith, f.inits p);
  other_states = λ q h. ground (arith, f.states q);
  other_inits = λ q h. ground (arith, f.inits q);
  local_is = f.local_same;
  remote_is = f.remote_same;
  dbx_is = f.dbx_same;
  dds_is = f.dds_same;
  lists_are = λ i. ap (λ (g : Ptr → Interface). (g i).if_Neighborlist) f.ifcs_same;
}

-- Along every edge the branch that `after_change` takes fits what ends or begins there.
local_fits :
    (s t : NbrState) (r : Bool) (l : ℤ)
    → is_move s t ≡ true
    → same_nbr_state s t ≡ false
    → (r ≡ true → is_forming s ≡ true)
    → bump (is_forming s && not r) (if exits s t && not r then decrement l else l)
      ≡ bump (is_forming t && not (if exits s t then false else r)) l
local_fits nbs_down t r l m d c = ground (arith, increment-decrement l)
local_fits _ t r l m d c = ground (arith, increment-decrement l)

remote_fits :
    (s t : NbrState) (r : Bool) (l : ℤ)
    → is_move s t ≡ true
    → same_nbr_state s t ≡ false
    → (r ≡ true → is_forming s ≡ true)
    → bump (is_forming s && r) (if exits s t && r then decrement l else l)
      ≡ bump (is_forming t && (if exits s t then false else r)) l
remote_fits nbs_down t r l m d c = ground (arith, increment-decrement l)
remote_fits _ t r l m d c = ground (arith, increment-decrement l)

dbx_fits :
    (s t : NbrState) (d : ℤ)
    → is_move s t ≡ true
    → same_nbr_state s t ≡ false
    → bump (is_exchanging s) (dbx_change s t d) ≡ bump (is_exchanging t) d
dbx_fits nbs_down t d m c = ground (arith, increment-decrement d)
dbx_fits _ t d m c = ground (arith, increment-decrement d)

called_fits :
    (s t : NbrState) (r : Bool)
    → is_move s t ≡ true
    → same_nbr_state s t ≡ false
    → (r ≡ true → is_forming s ≡ true)
    → (if exits s t then false else r) ≡ true
    → is_forming t ≡ true
called_fits nbs_down t r m d c h = ground arith
called_fits _ t r m d c h = ground arith

capped :
    (b : Bool) (l x : ℤ) (n m : ℕ)
    → x ≡ (if b then decrement l else l)
    → m ≡ n
    → AtMost l n
    → AtMost x m
capped true l x n m e d h = rw (e, d) (decrement-AtMost l n h)
capped false l x n m e d h = rw (e, d) h

-- Before an exchange the neighbor has not called.
pub idle_of : (n : Neighbor) → can_start n.n_state ≡ true → IsCalled n → n.remote_init ≡ false
idle_of n ok c = ground (arith, c)

-- A store placed by a move is balanced again behind `after_change`.
module _ (p : Ptr) (s t : NbrState) (st u : Store) (at_s : (st.nbr p).n_state ≡ s)
    (c : IsCalled (st.nbr p)) where
  pub moved-Balanced :
      Placed p t (st.nbr p).remote_init st.local_inits st.remote_inits st u
      → is_move s t ≡ true
      → same_nbr_state s t ≡ false
      → Balanced p st (after_change s p u)
  moved-Balanced f m d =
      let r = (st.nbr p).remote_init in
      let c' : r ≡ true → is_forming s ≡ true = λ h. sym (ap is_forming at_s) ∙ c h in
      let v = after_change s p u in
      let st' = change_state s t p u f.state_at p ∙ f.state_at in
      let in' = change_init s t p u f.state_at in
      let lo = change_local s t p u f.state_at in
      let re = change_remote s t p u f.state_at in
      record {
        other_states = λ q h. change_state s t p u f.state_at q ∙ f.other_states q h;
        other_inits = λ q h. change_other_init s t p u f.state_at q h ∙ f.other_inits q h;
        local_moves =
            cc (at_s, st', in', lo, f.init_at, f.local_is, local_fits s t r st.local_inits m d c');
        remote_moves =
            cc (
              at_s,
              st',
              in',
              re,
              f.init_at,
              f.remote_is,
              remote_fits s t r st.remote_inits m d c',
            );
        dbx_moves =
            cc (at_s, st', change_dbx s t p u f.state_at, f.dbx_is, dbx_fits s t st.n_dbx_nbrs m d);
        called = λ h.
            ap is_forming st'
            ∙ called_fits s t r m d c'
                (sym (in' ∙ ap (λ (b : Bool). if exits s t then false else b) f.init_at) ∙ h);
        local_capped = λ h.
            capped _ u.local_inits _ _ _ lo (change_dds s t p u f.state_at)
              (rw (f.local_is, f.dds_is) h);
        remote_capped = λ h.
            capped _ u.remote_inits _ _ _ re (change_dds s t p u f.state_at)
              (rw (f.remote_is, f.dds_is) h);
        dds_same = change_dds s t p u f.state_at ∙ f.dds_is;
        lists_same = λ i. change_lists s t p u f.state_at i ∙ f.lists_are i;
      }
