-- ===== src/Router/Machines/Invariant.antt =====
-- THospf/NeighborFSM.cpp and THospf/InterfaceFSM.cpp: all the calls between `nbr_fsm`, `ifc_fsm` and
-- the flooding of advertisements end, and keep the whole store good.
use ospfbasic.Prelude.{
  ℕ, zero, suc, ◌+◌, ◌≡◌, ◌≤◌, refl, inl, inr, Bool, true, false, ◌||◌, List, [], ◌∷◌, Option, some,
  arith, length, Option-cases, All, if◌then◌else◌,
}
use ospfbasic.Fsm.Neighbor.{NbrEvent, nbe_eval, nbe_killnbr}
use ospfbasic.Fsm.Interface.{
  IfState, IfEvent, ife_nchg, IfAction, no_action, ifa_start, ifa_elect, ifa_reset, run_ifc_fsm,
  ifs_down, ifs_wait, ifs_loop, ifs_pp, ifs_other, ifs_backup, ifs_dr, same_state,
}
use ospfbasic.Router.State.{Ptr, Store, Output, router_lsa, network_lsa}
use ospfbasic.Router.Actions.{mem_ptr}
use ospfbasic.Router.NeighborFsm.{nbr_step, crosses_2way}
use ospfbasic.Router.NeighborFsm.Counters.{Distinct}
use ospfbasic.Router.Machines.{
  NbrCall, all_neighbors, interface_elect, interface_reset, ifc_action, ifc_step, nbr_fsm, ifc_fsm,
  ◌>>=◌, tell_interface, ifc_originate, originate_if,
}
use ospfbasic.Router.Machines.Apart.{
  Good, Apart-Good, set_ifc-Apart, elect_list, step-Good, start-Apart, after-Apart,
}
use ospfbasic.Router.Machines.Floods.{EndsLater, originate_if-EndsLater}
use ospfbasic.Router.Machines.Loading.{
  loading_bound, nbr_originate-EndsLater, quiet-EndsLater, nbr_fsm-Loads,
}
use ospfbasic.Router.Machines.Evaluates.{eval_side}

-- The call returns, and leaves a good store.
abbrev pub EndsGood : List Ptr → Option Store → Type 0
EndsGood live r = (u : Store) × (r ≡ some u) × Good live u

pub bind-EndsGood :
    (live : List Ptr) (r : Option Store) (f : Store → Option Store)
    → EndsGood live r
    → ((u : Store) → Good live u → EndsGood live (f u))
    → EndsGood live (r >>= f)
bind-EndsGood live r f (u, e, g) h = rw e (h u g)

pub either-EndsGood :
    (live : List Ptr) (b : Bool) (x y : Option Store)
    → EndsGood live x
    → EndsGood live y
    → EndsGood live (if b then x else y)
either-EndsGood live true x y h k = h
either-EndsGood live false x y h k = k

ends : (live : List Ptr) (st : Store) (r : Option Store) → EndsLater live st r → EndsGood live r
ends live st r (u, e, g, l) = (u, e, g)

-- An evaluation is one call, with the requests that its advertisement answers.
eval-EndsGood :
    (live : List Ptr) (f : ℕ) (p : Ptr) (st : Store)
    → Distinct live
    → length live + 1 ≤ f
    → mem_ptr p live ≡ true
    → Good live st
    → EndsGood live (nbr_fsm (suc f) p nbe_eval st)
eval-EndsGood live f p st d b m g = ends live _ _ (
    quiet-EndsLater live (length live) f p nbe_eval st
      (nbr_fsm-Loads live (length live) f d (omega (arith, b))) (step-Good live p nbe_eval st d m g)
      (loading_bound _ live) (eval_side p st))

-- The events of all neighbors of an interface.
all-EndsGood :
    (live : List Ptr) (call : NbrCall) (e : NbrEvent)
    → ((p : Ptr) (st : Store) → mem_ptr p live ≡ true → Good live st → EndsGood live (call p e st))
    → (ps : List Ptr) (st : Store) → All (λ p. mem_ptr p live ≡ true) ps
    → Good live st
    → EndsGood live (all_neighbors call ps e st)
unfolding all_neighbors
all-EndsGood live call e h [] st ms g = (st, refl, g)
all-EndsGood live call e h (p ∷ ps) st ms g =
    bind-EndsGood live _ _ (h p st ms.0 g) (λ u k. all-EndsGood live call e h ps u ms.1 k)

module _ (live : List Ptr) (f : ℕ) (d : Distinct live) (b : length live + 1 ≤ f) where
  announce :
      (c : Bool) (o : Output) (st : Store)
      → Good live st
      → EndsGood live (originate_if c (nbr_fsm f) o st)
  announce c o st g = ends live st _ (
      originate_if-EndsLater live (length live) (nbr_fsm f)
        (nbr_fsm-Loads live (length live) f d (omega (arith, b))) c o st g (loading_bound st live))

  ifc_originate-EndsGood :
      (old : IfState) (a : Ptr) (st : Store)
      → Good live st
      → EndsGood live (ifc_originate (nbr_fsm f) old a st)
  unfolding ifc_originate
  ifc_originate-EndsGood old a st g = bind-EndsGood live _ _ (announce true router_lsa st g) (λ u k.
      announce (same_state (u.ifc a).if_state ifs_dr || same_state old ifs_dr) (network_lsa a) u k)

  -- A step of an interface ends as its action does.
  ifc_step-EndsGood :
      (a : Ptr) (e : IfEvent) (st : Store)
      → ((k : IfAction) (u : Store)
          → (run_ifc_fsm (st.ifc a).if_state e).1 ≡ some k
          → Good live u
          → EndsGood live (ifc_action k (nbr_fsm f) a u))
      → Good live st
      → EndsGood live (ifc_step (nbr_fsm f) a e st)
  unfolding ifc_step
  ifc_step-EndsGood a e st acts g =
      let old = (st.ifc a).if_state in
      let set =
        Apart-Good live
          (set_ifc-Apart a (record (st.ifc a) { if_state = (run_ifc_fsm old e).0 }) st refl) g in
      elim (Option-cases (run_ifc_fsm old e).1) [
        | inl n ↦ rw (n, ifc_step) (_, refl, set)
        | inr (k, n) ↦
            rw (n, ifc_step)
              (bind-EndsGood live _ _ (acts k _ n set) (λ u w.
                either-EndsGood live (same_state old (u.ifc a).if_state) _ _ (u, refl, w)
                  (ifc_originate-EndsGood old a _ (Apart-Good live (after-Apart old a u) w))))
      ]

elect-EndsGood :
    (live : List Ptr) (f : ℕ) (a : Ptr) (st : Store)
    → Distinct live
    → length live + 1 ≤ f
    → Good live st
    → EndsGood live (interface_elect (nbr_fsm (suc f)) a st)
unfolding interface_elect
elect-EndsGood live f a st d b g =
    bind-EndsGood live _ _
      (all-EndsGood live (nbr_fsm (suc f)) nbe_eval (λ p u m k. eval-EndsGood live f p u d b m k)
        (st.ifc a).if_Neighborlist _ (g.housed a)
        (Apart-Good live (set_ifc-Apart a _ st (elect_list st.my_id st.nbr _)) g))
      (λ u k. announce live (suc f) d (omega (arith, b)) _ router_lsa u k)

-- On `IFE_NCHG` an interface elects, or does nothing.
abbrev nchg_kind : IfAction → Bool
nchg_kind ifa_start = false
nchg_kind ifa_reset = false
nchg_kind _ = true

nchg_fits : (s : IfState) (a : IfAction) → (run_ifc_fsm s ife_nchg).1 ≡ some a → nchg_kind a ≡ true
unfolding run_ifc_fsm
nchg_fits ifs_down a h = cc
nchg_fits ifs_loop a h = cc
nchg_fits ifs_wait a h = cc
nchg_fits ifs_pp a h = cc
nchg_fits ifs_other a h = ground arith
nchg_fits ifs_backup a h = ground arith
nchg_fits ifs_dr a h = ground arith

nchg-EndsGood :
    (live : List Ptr) (f : ℕ) (k : IfAction) (a : Ptr) (st : Store)
    → Distinct live
    → length live + 1 ≤ f
    → nchg_kind k ≡ true
    → Good live st
    → EndsGood live (ifc_action k (nbr_fsm (suc f)) a st)
unfolding ifc_action
nchg-EndsGood live f no_action a st d b h g = (st, refl, g)
nchg-EndsGood live f ifa_elect a st d b h g = elect-EndsGood live f a st d b g
nchg-EndsGood live f ifa_start a st d b h g = cc h
nchg-EndsGood live f ifa_reset a st d b h g = cc h

-- From a good store, with no live neighbor named twice, every event of a live neighbor ends in a
-- good store, with the advertisements that it originates, the events of other neighbors whose last
-- request one of these answers, and its interface's reaction included. Fuel for three calls more than
-- there are live neighbors is enough.
pub nbr_fsm-Good :
    (live : List Ptr) (fuel : ℕ) (p : Ptr) (e : NbrEvent) (st : Store)
    → Distinct live
    → length live + 3 ≤ fuel
    → mem_ptr p live ≡ true
    → Good live st
    → (u : Store) × (nbr_fsm fuel p e st ≡ some u) × Good live u
unfolding nbr_fsm tell_interface
nbr_fsm-Good live zero p e st d b m g = absurd (omega (arith, b))
nbr_fsm-Good live (suc zero) p e st d b m g = absurd (omega (arith, b))
nbr_fsm-Good live (suc (suc f)) p e st d b m g =
    let old = (st.nbr p).n_state in
    let after = nbr_step p e st in
    let stepped = step-Good live p e st d m g in
    let room : length live + 1 ≤ suc f = omega (arith, b) in
    either-EndsGood live after.1 _ _
      (bind-EndsGood live _ _
        (ends live after.0 _ (
          nbr_originate-EndsLater live (length live) (nbr_fsm (suc f)) old p after.0
            (nbr_fsm-Loads live (length live) (suc f) d (omega (arith, room))) stepped
            (loading_bound after.0 live)))
        (λ u k.
          either-EndsGood live (crosses_2way old (u.nbr p).n_state) _ _
            (ifc_step-EndsGood live (suc f) d room (u.nbr p).n_ifc ife_nchg u
              (λ act v n w. nchg-EndsGood live f act _ v d (omega (arith, b)) (nchg_fits _ act n) w)
              k)
            (u, refl, k)))
      (after.0, refl, stepped)

action-EndsGood :
    (live : List Ptr) (fuel : ℕ) (k : IfAction) (a : Ptr) (st : Store)
    → Distinct live
    → length live + 3 ≤ fuel
    → Good live st
    → EndsGood live (ifc_action k (nbr_fsm fuel) a st)
unfolding ifc_action interface_reset
action-EndsGood live zero k a st d b g = absurd (omega (arith, b))
action-EndsGood live (suc f) no_action a st d b g = (st, refl, g)
action-EndsGood live (suc f) ifa_start a st d b g = (_, refl, Apart-Good live (start-Apart a st) g)
action-EndsGood live (suc f) ifa_elect a st d b g =
    elect-EndsGood live f a st d (omega (arith, b)) g
action-EndsGood live (suc f) ifa_reset a st d b g =
    all-EndsGood live (nbr_fsm (suc f)) nbe_killnbr
      (λ p u m k. nbr_fsm-Good live (suc f) p nbe_killnbr u d b m k) _ _ (g.housed a)
      (Apart-Good live (set_ifc-Apart a _ st refl) g)

-- From a good store, with no live neighbor named twice, every event of an interface ends in a good
-- store, with all events of neighbors that it causes, those that the flooding of the originated
-- advertisements raises included: the three counters are the numbers of live neighbors in exchanges
-- begun here, in exchanges begun by the neighbor and in the exchange of descriptions, neither of the
-- first two passes `max_dds`, and every interface's list names live neighbors. Fuel for three
-- calls more than there are live neighbors is enough.
pub ifc_fsm-Good :
    (live : List Ptr) (fuel : ℕ) (a : Ptr) (e : IfEvent) (st : Store)
    → Distinct live
    → length live + 3 ≤ fuel
    → Good live st
    → (u : Store) × (ifc_fsm fuel a e st ≡ some u) × Good live u
unfolding ifc_fsm
ifc_fsm-Good live fuel a e st d b g =
    ifc_step-EndsGood live fuel d (omega (arith, b)) a e st
      (λ k u n w. action-EndsGood live fuel k a u d b w) g

-- The flooding of an advertisement of this router ends in a good store.
pub originate-EndsGood :
    (live : List Ptr) (fuel : ℕ) (c : Bool) (o : Output) (st : Store)
    → Distinct live
    → length live + 1 ≤ fuel
    → Good live st
    → EndsGood live (originate_if c (nbr_fsm fuel) o st)
originate-EndsGood live fuel c o st d b g = announce live fuel d b c o st g
