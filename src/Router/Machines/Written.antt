-- ===== src/Router/Machines/Written.antt =====
-- Writes to a neighbor that the counters of database exchanges do not see.
use ospfbasic.Prelude.{
  ◌≡◌, refl, sym, ap, subst, ◌∙◌, inl, inr, Bool, List, [], ◌∷◌, arith, ◌==◌, Bool-cases, pos,
}
use ospfbasic.Router.State.{Ptr, Neighbor, Store, set_nbr}
use ospfbasic.Router.NeighborFsm.Balanced.{local_busy, remote_busy, dbx_busy, IsCalled}
use ospfbasic.Router.NeighborFsm.Counters.{count}
use ospfbasic.Router.Machines.Apart.{Good}

-- What the counters see of a neighbor.
pub record Alike (a b : Neighbor) : Type 0 where
  pub local_same : local_busy a ≡ local_busy b
  pub remote_same : remote_busy a ≡ remote_busy b
  pub dbx_same : dbx_busy a ≡ dbx_busy b
  pub called : IsCalled b → IsCalled a

at-set_nbr :
    (busy : Neighbor → Bool) (p : Ptr) (n : Neighbor) (st : Store) (q : Ptr)
    → busy n ≡ busy (st.nbr p)
    → busy ((set_nbr p n st).nbr q) ≡ busy (st.nbr q)
unfolding set_nbr
at-set_nbr busy p n st q h = elim (Bool-cases (q == p)) [
  | inl e ↦ let same : q ≡ p = ground (arith, e) in rw (e, same) h
  | inr e ↦ rw e refl
]

pub count-set_nbr :
    (busy : Neighbor → Bool) (p : Ptr) (n : Neighbor) (st : Store) (ps : List Ptr)
    → busy n ≡ busy (st.nbr p)
    → count busy (set_nbr p n st) ps ≡ count busy st ps
unfolding count
count-set_nbr busy p n st [] h = refl
count-set_nbr busy p n st (q ∷ qs) h =
    rw (at-set_nbr busy p n st q h, count-set_nbr busy p n st qs h) refl

set_nbr-IsCalled :
    (p : Ptr) (n : Neighbor) (st : Store) (q : Ptr)
    → (IsCalled (st.nbr p) → IsCalled n)
    → IsCalled (st.nbr q)
    → IsCalled ((set_nbr p n st).nbr q)
unfolding set_nbr
set_nbr-IsCalled p n st q h k = elim (Bool-cases (q == p)) [
  | inl e ↦
      let same : q ≡ p = ground (arith, e) in rw e (h (subst (λ x. IsCalled (st.nbr x)) same k))
  | inr e ↦ rw e k
]

-- A write that the counters do not see.
pub set_nbr-Good :
    (live : List Ptr) (p : Ptr) (n : Neighbor) (st : Store)
    → Alike n (st.nbr p)
    → Good live st
    → Good live (set_nbr p n st)
unfolding set_nbr
set_nbr-Good live p n st a g = record {
  counted = record {
    locals = g.counted.locals ∙ ap pos (sym (count-set_nbr local_busy p n st live a.local_same));
    remotes =
        g.counted.remotes ∙ ap pos (sym (count-set_nbr remote_busy p n st live a.remote_same));
    dbx = g.counted.dbx ∙ ap pos (sym (count-set_nbr dbx_busy p n st live a.dbx_same));
    called = λ q m. set_nbr-IsCalled p n st q a.called (g.counted.called q m);
    local_capped = g.counted.local_capped;
    remote_capped = g.counted.remote_capped;
  };
  housed = g.housed;
}
