-- ===== src/Hello/Kept.antt =====
-- THospf/ospfHello.cpp: the store of the state machines over a Hello packet.
use ospfbasic.Prelude.{
  ℕ, ◌≡◌, refl, sym, ap, subst, ◌∙◌, ◌⊎◌, inl, inr, Bool, true, false, not, List, [], ◌∷◌, some,
  arith, ◌==◌, Bool-cases, Option-cases, All, if◌then◌else◌, pos, leb, ◌*◌, ◌+◌, ◌≤◌, length,
}
use ospfbasic.Fsm.Neighbor.{NbrEvent, nbs_2way, state_code}
use ospfbasic.Fsm.Interface.{IfEvent}
use ospfbasic.Router.NeighborFsm.Outcome.{if_intro}
use ospfbasic.Router.State.{
  Ptr, start, second, Neighbor, Store, set_nbr, set_ifc, IfClass, plain_ifc, dr_ifc,
}
use ospfbasic.Router.Actions.{mem_ptr}
use ospfbasic.Router.NeighborFsm.Balanced.{local_busy, remote_busy, dbx_busy, IsCalled}
use ospfbasic.Router.NeighborFsm.Counters.{count, count-same, Distinct}
use ospfbasic.Router.Machines.{nbr_fsm, ifc_fsm}
use ospfbasic.Router.Machines.Apart.{Good}
use ospfbasic.Router.Machines.Written.{Alike, set_nbr-Good}
use ospfbasic.Router.Machines.Invariant.{
  EndsGood, bind-EndsGood, either-EndsGood, nbr_fsm-Good, ifc_fsm-Good, originate-EndsGood,
}
use ospfbasic.Hello.{
  HelloPkt, Settings, find_neighbor, blank_neighbor, new_neighbor, takes, negotiate, one_way, react,
  two_way, hello_from, is_refused, recv_hello, backup_seen,
}

takes-Alike : (h : HelloPkt) (n : Neighbor) → Alike (takes h n) n
unfolding takes
takes-Alike h n = record { local_same = refl; remote_same = refl; dbx_same = refl; called = λ k. k }

negotiate-Good :
    (live : List Ptr) (p : Ptr) (st : Store) → Good live st → Good live (negotiate p st)
unfolding negotiate
negotiate-Good live p st g = class_cases (st.ifc (st.nbr p).n_ifc).if_class
  where
    class_cases :
        (c : IfClass)
        → Good live (elim c as (λ _. Store) [
          | dr_ifc ↦ st
          | plain_ifc ↦
              if leb (state_code nbs_2way) (state_code (st.nbr p).n_state)
              then set_nbr p
                  (record (st.nbr p) {
                    inactt =
                        start
                          ((st.ifc (st.nbr p).n_ifc).if_deadinterval * second)
                          (st.nbr p).inactt;
                  })
                  st
              else st
        ])
    class_cases dr_ifc = g
    class_cases plain_ifc =
        if_intro (Good live) (leb (state_code nbs_2way) (state_code (st.nbr p).n_state))
          (λ _.
            set_nbr-Good live p _ st
              record { local_same = refl; remote_same = refl; dbx_same = refl; called = λ k. k } g)
          (λ _. g)

module _ (live : List Ptr) (fuel : ℕ) (d : Distinct live) (b : length live + 3 ≤ fuel) where
  nbr-EndsGood :
      (p : Ptr) (e : NbrEvent) (st : Store)
      → mem_ptr p live ≡ true
      → Good live st
      → EndsGood live (nbr_fsm fuel p e st)
  nbr-EndsGood p e st m g = nbr_fsm-Good live fuel p e st d b m g

  ifc-EndsGood :
      (a : Ptr) (e : IfEvent) (st : Store) → Good live st → EndsGood live (ifc_fsm fuel a e st)
  ifc-EndsGood a e st g = ifc_fsm-Good live fuel a e st d b g

  stays : (st : Store) → Good live st → EndsGood live (some st)
  stays st g = (st, refl, g)

  react-EndsGood :
      (a : Ptr) (h : HelloPkt) (p : Ptr) (old : Neighbor) (changed : Bool) (st : Store)
      → Good live st
      → EndsGood live (react fuel a h p old changed st)
  unfolding react
  react-EndsGood a h p old changed st g =
      bind-EndsGood live _ _
        (either-EndsGood live (backup_seen h (st.ifc a).if_state (st.nbr p)) _ _
          (ifc-EndsGood a _ st g)
          (either-EndsGood live changed _ _ (ifc-EndsGood a _ st g) (stays st g)))
        (λ u k. originate-EndsGood live fuel _ _ u d (omega (arith, b)) k)

  two_way-EndsGood :
      (a : Ptr) (h : HelloPkt) (p : Ptr) (old : Neighbor) (st : Store)
      → mem_ptr p live ≡ true
      → Good live st
      → EndsGood live (two_way fuel a h p old st)
  unfolding two_way
  two_way-EndsGood a h p old st m g = bind-EndsGood live _ _ (nbr-EndsGood p _ st m g) (λ u k.
      let met = negotiate-Good live p u k in
      bind-EndsGood live _ _
        (either-EndsGood live (not (old.prior == ((negotiate p u).nbr p).prior)) _ _
          (nbr-EndsGood p _ _ m met) (stays _ met))
        (λ v l. react-EndsGood a h p old _ v l))

  one_way-EndsGood :
      (p : Ptr) (first_hello : Bool) (st : Store)
      → mem_ptr p live ≡ true
      → Good live st
      → EndsGood live (one_way fuel p first_hello st)
  unfolding one_way
  one_way-EndsGood p first_hello st m g =
      bind-EndsGood live _ _ (nbr-EndsGood p _ st m g)
        (λ u k. either-EndsGood live first_hello _ _ (nbr-EndsGood p _ u m k) (stays u k))

  hello_from-EndsGood :
      (a : Ptr) (h : HelloPkt) (p : Ptr) (st : Store)
      → mem_ptr p live ≡ true
      → Good live st
      → EndsGood live (hello_from fuel a h p st)
  unfolding hello_from
  hello_from-EndsGood a h p st m g =
      bind-EndsGood live _ _
        (nbr-EndsGood p _ _ m
          (set_nbr-Good live p (takes h (st.nbr p)) st (takes-Alike h (st.nbr p)) g))
        (λ u k.
          either-EndsGood live (mem_ptr u.my_id h.heard) _ _ (two_way-EndsGood a h p _ u m k)
            (one_way-EndsGood p _ u m k))

-- A neighbor that has just been made is down, and no counter counts it.
module _ (live : List Ptr) (p : Ptr) (raw : Neighbor) (a : Ptr) (id addr : ℕ) (st : Store)
    (out : mem_ptr p live ≡ false) where
  abbrev made : Store
  made = new_neighbor p raw a id addr st

  made_at : made.nbr p ≡ blank_neighbor a id addr raw
  unfolding new_neighbor set_nbr set_ifc
  made_at = ground arith

  made_other : (q : Ptr) → (q == p) ≡ false → made.nbr q ≡ st.nbr q
  unfolding new_neighbor set_nbr set_ifc
  made_other q e = rw e refl

  count-made :
      (busy : Neighbor → Bool)
      → busy (blank_neighbor a id addr raw) ≡ false
      → count busy made (p ∷ live) ≡ count busy st live
  unfolding count
  count-made busy h =
      let down : busy (made.nbr p) ≡ false = ap busy made_at ∙ h in
      rw down (count-same busy st made p live out (λ q e. ap busy (made_other q e)))

  made-IsCalled : (q : Ptr) → Good live st → mem_ptr q (p ∷ live) ≡ true → IsCalled (made.nbr q)
  unfolding mem_ptr blank_neighbor
  made-IsCalled q g m = elim (Bool-cases (q == p)) [
    | inl e ↦
        let same : q ≡ p = ground (arith, e) in
        λ k. cc (k, ap (λ (n : Neighbor). n.remote_init) (ap made.nbr same ∙ made_at))
    | inr e ↦ rw (made_other q e) (g.counted.called q (ground (arith, m, e)))
  ]

  house :
      (ps : List Ptr)
      → All (λ q. mem_ptr q live ≡ true) ps
      → All (λ q. mem_ptr q (p ∷ live) ≡ true) ps
  unfolding mem_ptr
  house [] h = tt
  house (q ∷ qs) h = (ground (arith, h.0), house qs h.1)

  made-housed :
      (b : Ptr) → Good live st → All (λ q. mem_ptr q (p ∷ live) ≡ true) (made.ifc b).if_Neighborlist
  unfolding new_neighbor set_ifc set_nbr mem_ptr
  made-housed b g = elim (Bool-cases (b == a)) [
    | inl e ↦ rw e (ground arith, house _ (g.housed a))
    | inr e ↦ rw e (house _ (g.housed b))
  ]

  made-Good : Good live st → Good (p ∷ live) made
  unfolding new_neighbor set_ifc set_nbr blank_neighbor
  made-Good g = record {
    counted = record {
      locals = g.counted.locals ∙ ap pos (sym (count-made local_busy refl));
      remotes = g.counted.remotes ∙ ap pos (sym (count-made remote_busy refl));
      dbx = g.counted.dbx ∙ ap pos (sym (count-made dbx_busy refl));
      called = λ q m. made-IsCalled q g m;
      local_capped = g.counted.local_capped;
      remote_capped = g.counted.remote_capped;
    };
    housed = λ b. made-housed b g;
  }

found-live :
    (live : List Ptr) (addr : ℕ) (st : Store) (ps : List Ptr) (p : Ptr)
    → All (λ q. mem_ptr q live ≡ true) ps
    → find_neighbor addr st ps ≡ some p
    → mem_ptr p live ≡ true
unfolding find_neighbor
found-live live addr st [] p h e = cc e
found-live live addr st (q ∷ qs) p h e = elim (Bool-cases ((st.nbr q).n_addr == addr)) [
  | inl k ↦ let same : q ≡ p = cc (rw k at e) in subst (λ x. mem_ptr x live ≡ true) same h.0
  | inr k ↦ found-live live addr st qs p h.1 (rw k at e)
]

first_member : (p : Ptr) (ps : List Ptr) → mem_ptr p (p ∷ ps) ≡ true
unfolding mem_ptr
first_member p ps = ground arith

-- From a good store a Hello packet ends in a good store, with every event that it raises for the
-- neighbor and the interface, and through them; the neighbors then are the old ones, or those with a new one at the
-- address that was free. Fuel for four calls more than there were live neighbors is enough.
pub recv_hello-Good :
    (live : List Ptr) (fuel : ℕ) (s : Settings) (fresh : Ptr) (raw : Neighbor) (a : Ptr)
    (h : HelloPkt) (st : Store)
    → Distinct live
    → length live + 4 ≤ fuel
    → mem_ptr fresh live ≡ false
    → Good live st
    → (u : Store) × (recv_hello fuel s fresh raw a h st ≡ some u)
      × (Good live u ⊎ Good (fresh ∷ live) u)
unfolding recv_hello
recv_hello-Good live fuel s fresh raw a h st d b out g =
    elim (Bool-cases (is_refused s h (st.ifc a))) [
      | inl e ↦ (st, rw e refl, inl g)
      | inr e ↦ elim (Option-cases (find_neighbor h.i_src st (st.ifc a).if_Neighborlist)) [
        | inl none_known ↦
            let (u, ends, good) =
              hello_from-EndsGood (fresh ∷ live) fuel (out, d) (omega (arith, b)) a h fresh _
                (first_member fresh live) (made-Good live fresh raw a h.srcid h.i_src st out g) in
            (u, rw (e, none_known, recv_hello) ends, inr good)
        | inr (p, found) ↦
            let (u, ends, good) =
              hello_from-EndsGood live fuel d (omega (arith, b)) a h p st
                (found-live live h.i_src st (st.ifc a).if_Neighborlist p (g.housed a) found) g in
            (u, rw (e, found, recv_hello) ends, inl good)
      ]
    ]
