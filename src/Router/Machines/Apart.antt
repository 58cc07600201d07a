-- ===== src/Router/Machines/Apart.antt =====
-- THospf/NeighborFSM.cpp and THospf/InterfaceFSM.cpp: the whole store's invariant on neighbors and
-- counters, and the parts of `ifc_fsm` that do not touch them.
use ospfbasic.Prelude.{
  ℕ, ◌≡◌, refl, sym, ap, ◌∙◌, Bool, true, not, ◌&&◌, List, [], ◌∷◌, arith, ◌==◌, if◌then◌else◌, All,
  pos,
}
use ospfbasic.Fsm.Neighbor.{NbrEvent}
use ospfbasic.Fsm.Interface.{IfState, at_most, ifs_other}
use ospfbasic.Router.State.{
  Ptr, Interface, Neighbor, Store, Output, set_ifc, emit, multi_join, multi_leave,
}
use ospfbasic.Router.Actions.{mem_ptr}
use ospfbasic.Router.NeighborFsm.{nbr_step}
use ospfbasic.Router.NeighborFsm.Outcome.{if_intro}
use ospfbasic.Router.NeighborFsm.Balanced.{local_busy, remote_busy, dbx_busy}
use ospfbasic.Router.NeighborFsm.Counters.{
  count, Distinct, Counted, Balanced-Counted, nbr_step-Balanced,
}
use ospfbasic.Router.Election.{elect, elect_pass, conclude}
use ospfbasic.Router.Machines.{interface_start, after_ifc_change, all_d_routers}

-- The neighbors at the addresses `live` account for the counters, and every interface's list of
-- neighbors names live ones.
pub record Good (live : List Ptr) (st : Store) : Type 0 where
  pub counted : Counted live st
  pub housed : (a : Ptr) → All (λ p. mem_ptr p live ≡ true) (st.ifc a).if_Neighborlist

-- A change that leaves neighbors, counters and lists of neighbors alone.
pub record Apart (st u : Store) : Type 0 where
  pub nbr_same : u.nbr ≡ st.nbr
  pub local_same : u.local_inits ≡ st.local_inits
  pub remote_same : u.remote_inits ≡ st.remote_inits
  pub dbx_same : u.n_dbx_nbrs ≡ st.n_dbx_nbrs
  pub dds_same : u.max_dds ≡ st.max_dds
  pub lists_same : (a : Ptr) → (u.ifc a).if_Neighborlist ≡ (st.ifc a).if_Neighborlist

Apart-trans : {a b c : Store} → Apart a b → Apart b c → Apart a c
Apart-trans f g = record {
  nbr_same = g.nbr_same ∙ f.nbr_same;
  local_same = g.local_same ∙ f.local_same;
  remote_same = g.remote_same ∙ f.remote_same;
  dbx_same = g.dbx_same ∙ f.dbx_same;
  dds_same = g.dds_same ∙ f.dds_same;
  lists_same = λ a. g.lists_same a ∙ f.lists_same a;
}

pub set_ifc-Apart :
    (a : Ptr) (i : Interface) (st : Store)
    → i.if_Neighborlist ≡ (st.ifc a).if_Neighborlist
    → Apart st (set_ifc a i st)
unfolding set_ifc
set_ifc-Apart a i st h = record {
  nbr_same = refl;
  local_same = refl;
  remote_same = refl;
  dbx_same = refl;
  dds_same = refl;
  lists_same = λ q. ground arith;
}

pub emit-Apart : (o : Output) (st : Store) → Apart st (emit o st)
emit-Apart o st = record {
  nbr_same = refl;
  local_same = refl;
  remote_same = refl;
  dbx_same = refl;
  dds_same = refl;
  lists_same = λ q. refl;
}

count_apart :
    (busy : Neighbor → Bool) (st u : Store) (ps : List Ptr)
    → u.nbr ≡ st.nbr
    → count busy u ps ≡ count busy st ps
unfolding count
count_apart busy st u [] h = refl
count_apart busy st u (p ∷ ps) h = rw (h, count_apart busy st u ps h) refl

pub Apart-Good : (live : List Ptr) {st u : Store} → Apart st u → Good live st → Good live u
Apart-Good live {st} {u} f g = record {
  counted = record {
    locals =
        f.local_same
        ∙ g.counted.locals
        ∙ ap pos (sym (count_apart local_busy st u live f.nbr_same));
    remotes =
        f.remote_same
        ∙ g.counted.remotes
        ∙ ap pos (sym (count_apart remote_busy st u live f.nbr_same));
    dbx = f.dbx_same ∙ g.counted.dbx ∙ ap pos (sym (count_apart dbx_busy st u live f.nbr_same));
    called = λ q h. rw f.nbr_same (g.counted.called q h);
    local_capped = rw (f.local_same, f.dds_same) g.counted.local_capped;
    remote_capped = rw (f.remote_same, f.dds_same) g.counted.remote_capped;
  };
  housed = λ a. rw (f.lists_same a) (g.housed a);
}

-- An election leaves the list of neighbors.
pass_list :
    (me : ℕ) (nbr : Ptr → Neighbor) (i : Interface)
    → (elect_pass me nbr i).if_Neighborlist ≡ i.if_Neighborlist
unfolding elect_pass conclude
pass_list me nbr i = ground arith

pub elect_list :
    (me : ℕ) (nbr : Ptr → Neighbor) (i : Interface)
    → (elect me nbr i).if_Neighborlist ≡ i.if_Neighborlist
unfolding elect
elect_list me nbr i = ground (arith, pass_list me nbr i, pass_list me nbr (elect_pass me nbr i))

-- A step up to the call of the interface keeps the store good.
pub step-Good :
    (live : List Ptr) (p : Ptr) (e : NbrEvent) (st : Store)
    → Distinct live
    → mem_ptr p live ≡ true
    → Good live st
    → Good live (nbr_step p e st).0
step-Good live p e st d m g =
    let b = nbr_step-Balanced p e st (g.counted.called p m) in
    record {
      counted = Balanced-Counted live p st _ d m b g.counted;
      housed = λ a. rw (b.lists_same a) (g.housed a);
    }

pub start-Apart : (a : Ptr) (st : Store) → Apart st (interface_start a st)
unfolding interface_start
start-Apart a st =
    let sent = Apart-trans (Apart-trans (emit-Apart _ st) (emit-Apart _ _)) (emit-Apart _ _) in
    if_intro (Apart st) ((st.ifc a).if_drpri == 0)
      (λ _. Apart-trans sent (set_ifc-Apart a _ _ refl))
      (λ _. Apart-trans sent (set_ifc-Apart a _ _ refl))

pub after-Apart : (old : IfState) (a : Ptr) (st : Store) → Apart st (after_ifc_change old a st)
unfolding after_ifc_change
after-Apart old a st =
    let i = st.ifc a in
    let new = i.if_state in
    let first = set_ifc-Apart a _ st refl in
    joins _ (not (at_most new ifs_other) && at_most old ifs_other)
      (at_most new ifs_other && not (at_most old ifs_other)) (multi_join i.if_physic all_d_routers)
      (multi_leave i.if_physic all_d_routers) first
  where
    joins :
        (u : Store) (b c : Bool) (o o' : Output)
        → Apart st u
        → Apart st (if b then emit o u else if c then emit o' u else u)
    joins u b c o o' f =
        if_intro (Apart st) b (λ _. Apart-trans f (emit-Apart o u))
          (λ _. if_intro (Apart st) c (λ _. Apart-trans f (emit-Apart o' u)) (λ _. f))
