-- ===== src/Pending/Refines.antt =====
-- THospf/NeighborFSM.cpp and THospf/LSA.cpp: the linked list of waiting neighbors is a list in
-- which each stands once, first come first.
use ospfbasic.Prelude.{
  ℕ, ◌≡◌, ◌<◌, refl, sym, subst, ◌∙◌, inl, inr, true, false, ◌||◌, List, [], ◌∷◌, ◌++◌, Option,
  none, some, arith, ◌==◌, length, if◌then◌else◌, Bool-cases, ==_iff,
}
use ospfbasic.Router.State.{Ptr}
use ospfbasic.Router.Actions.{mem_ptr, erase_ptr}
use ospfbasic.Router.NeighborFsm.Counters.{Distinct}
use ospfbasic.Pending.{Pending, update, points_to, add_pend_adj, unlink, del_pend_adj, get_next_adj}
use ospfbasic.Pending.Chain.{Chain, last, before, Chain-append, walk-Chain, Chain-erase, last_erase}

-- The list that the links make up: `n_adj_pend` says who stands in it.
pub record Represents (ps : List Ptr) (st : Pending) : Type 0 where
  pub chain : Chain st.next_pend st.g_adj_head ps
  pub tail : st.g_adj_tail ≡ last none ps
  pub distinct : Distinct ps
  pub flags : (q : Ptr) → st.n_adj_pend q ≡ mem_ptr q ps

mem-append : (q p : Ptr) (ps : List Ptr) → mem_ptr q (ps ++ p ∷ []) ≡ (mem_ptr q ps || p == q)
unfolding mem_ptr
mem-append q p [] = ground arith
mem-append q p (r ∷ rs) = ground (arith, mem-append q p rs)

Distinct-append :
    (p : Ptr) (ps : List Ptr) → Distinct ps → mem_ptr p ps ≡ false → Distinct (ps ++ p ∷ [])
unfolding mem_ptr
Distinct-append p [] d m = (refl, tt)
Distinct-append p (r ∷ rs) d m =
    (mem-append r p rs ∙ ground (arith, d.0, m), Distinct-append p rs d.1 (ground (arith, m)))

last-append : (p : Ptr) (prev : Option Ptr) (ps : List Ptr) → last prev (ps ++ p ∷ []) ≡ some p
last-append p prev [] = refl
last-append p prev (r ∷ rs) = last-append p (some r) rs

pub mem-erase :
    (q p : Ptr) (ps : List Ptr)
    → Distinct ps
    → mem_ptr q (erase_ptr p ps) ≡ (if q == p then false else mem_ptr q ps)
unfolding mem_ptr erase_ptr
mem-erase q p [] d = ground arith
mem-erase q p (r ∷ rs) d = elim (Bool-cases (r == p)) [
  | inl k ↦ rw k (gone q p r rs ((==_iff r p).0 k) d.0)
  | inr k ↦ rw k (ground (arith, mem-erase q p rs d.1, k))
]
  where
    gone :
        (q p r : Ptr) (rs : List Ptr)
        → r ≡ p
        → mem_ptr r rs ≡ false
        → mem_ptr q rs ≡ (if q == p then false else r == q || mem_ptr q rs)
    gone q p r rs e m = elim (Bool-cases (q == p)) [
      | inl h ↦ rw (h, (==_iff q p).0 h, sym e) m
      | inr h ↦ rw h (ground (arith, e, h))
    ]

pub Distinct-erase : (p : Ptr) (ps : List Ptr) → Distinct ps → Distinct (erase_ptr p ps)
unfolding erase_ptr
Distinct-erase p [] d = tt
Distinct-erase p (r ∷ rs) d = elim (Bool-cases (r == p)) [
  | inl k ↦ rw k d.1
  | inr k ↦ rw k (mem-erase r p rs d.1 ∙ rw (k, d.0) refl, Distinct-erase p rs d.1)
]

last-some : (q : Ptr) (qs : List Ptr) → (l : Ptr) × (last (some q) qs ≡ some l)
last-some q [] = (q, refl)
last-some q (r ∷ rs) = last-some r rs

pub before-some : (p q : Ptr) (qs : List Ptr) → (b : Ptr) × (before (some q) p qs ≡ some b)
unfolding before
before-some p q [] = (q, refl)
before-some p q (r ∷ rs) = elim (Bool-cases (r == p)) [
  | inl k ↦ rw k (q, refl)
  | inr k ↦ rw k (before-some p r rs)
]

-- A neighbor that does not wait is put at the end of the list.
appended :
    (p : Ptr) (st : Pending) (ps : List Ptr)
    → Represents ps st
    → mem_ptr p ps ≡ false
    → Represents (ps ++ p ∷ []) (add_pend_adj p st)
unfolding add_pend_adj
appended p st [] r m =
    rw (r.flags p, m, add_pend_adj, r.chain)
      record {
        chain = (refl, unfold update in ground arith);
        tail = refl;
        distinct = (unfold mem_ptr in refl, tt);
        flags = λ q. unfold update mem_ptr in ground (arith, r.flags q);
      }
appended p st (t ∷ ts) r m =
    let (l, e) = last-some t ts in
    rw (r.flags p, m, add_pend_adj, r.chain.0, r.tail, e)
      record {
        chain = (refl, Chain-append st.next_pend p t l ts r.distinct m r.chain.1 e);
        tail = sym (last-append p none (t ∷ ts));
        distinct = Distinct-append p (t ∷ ts) r.distinct m;
        flags = λ q. unfold update in (ground (arith, r.flags q, mem-append q p (t ∷ ts)));
      }

-- On links that represent a list of waiting neighbors, `AddPendAdj` puts a neighbor at its end,
-- unless it waits already.
pub add_pend_adj-Represents :
    (p : Ptr) (st : Pending) (ps : List Ptr)
    → Represents ps st
    → Represents (if mem_ptr p ps then ps else ps ++ p ∷ []) (add_pend_adj p st)
add_pend_adj-Represents p st ps r = elim (Bool-cases (mem_ptr p ps)) [
  | inl m ↦ rw m (subst (Represents ps) (sym (waits m)) r)
  | inr m ↦ rw m (appended p st ps r m)
]
  where
    waits : mem_ptr p ps ≡ true → add_pend_adj p st ≡ st
    waits m = unfold add_pend_adj in rw (r.flags p, m) refl

tail-unlink :
    (p : Ptr) (prev : Option Ptr) (st : Pending)
    → (unlink p prev st).g_adj_tail ≡ (if points_to st.g_adj_tail p then prev else st.g_adj_tail)
unfolding unlink
tail-unlink p none st = refl
tail-unlink p (some b) st = refl

flags-unlink :
    (p : Ptr) (prev : Option Ptr) (st : Pending) (q : Ptr)
    → (unlink p prev st).n_adj_pend q ≡ (if q == p then false else st.n_adj_pend q)
unfolding unlink update
flags-unlink p none st q = refl
flags-unlink p (some b) st q = refl

Chain-unlink :
    (p : Ptr) (st : Pending) (ps : List Ptr)
    → Represents ps st
    → mem_ptr p ps ≡ true
    → Chain
        (unlink p (before none p ps) st).next_pend
        (unlink p (before none p ps) st).g_adj_head
        (erase_ptr p ps)
unfolding unlink before erase_ptr mem_ptr
Chain-unlink p st [] r m = cc m
Chain-unlink p st (q ∷ qs) r m = elim (Bool-cases (q == p)) [
  | inl k ↦ rw (k, sym ((==_iff q p).0 k)) r.chain.1
  | inr k ↦
      (let (b, e) = before-some p q qs in
        let w : before none p (q ∷ qs) ≡ some b = rw k e in
        subst
          (λ w. Chain (unlink p w st).next_pend (unlink p w st).g_adj_head (erase_ptr p (q ∷ qs)))
          (sym w)
          (rw k (
            r.chain.0,
            Chain-erase st.next_pend p q b qs r.distinct (ground (arith, m, k)) r.chain.1 e,
          )))
]

-- The neighbor is unlinked where the walk has found it.
unlinked :
    (p : Ptr) (st : Pending) (ps : List Ptr)
    → Represents ps st
    → mem_ptr p ps ≡ true
    → Represents (erase_ptr p ps) (unlink p (before none p ps) st)
unlinked p st ps r m = record {
  chain = Chain-unlink p st ps r m;
  tail = tail-unlink p _ st ∙ rw r.tail (sym (last_erase p none ps r.distinct m));
  distinct = Distinct-erase p ps r.distinct;
  flags = λ q. flags-unlink p _ st q ∙ rw (r.flags q) (sym (mem-erase q p ps r.distinct));
}

pub erase_absent : (p : Ptr) (ps : List Ptr) → mem_ptr p ps ≡ false → erase_ptr p ps ≡ ps
unfolding erase_ptr mem_ptr
erase_absent p [] m = refl
erase_absent p (q ∷ qs) m = ground (arith, m, erase_absent p qs)

-- On links that represent a list of waiting neighbors, `DelPendAdj` ends, with fuel for one step
-- more than neighbors wait, and takes the neighbor out of the list if it stands there.
pub del_pend_adj-Represents :
    (fuel : ℕ) (p : Ptr) (st : Pending) (ps : List Ptr)
    → length ps < fuel
    → Represents ps st
    → (u : Pending) × (del_pend_adj fuel p st ≡ some u) × Represents (erase_ptr p ps) u
unfolding del_pend_adj
del_pend_adj-Represents fuel p st ps f r = elim (Bool-cases (mem_ptr p ps)) [
  | inl m ↦
      rw
        (
          r.flags p,
          m,
          del_pend_adj,
          walk-Chain fuel st.next_pend p st.g_adj_head none ps f r.chain,
          m,
        )
        (_, refl, unlinked p st ps r m)
  | inr m ↦ rw (r.flags p, m) (st, refl, subst (λ l. Represents l st) (sym (erase_absent p ps m)) r)
]

-- What `GetNextAdj` makes of the list.
abbrev pub TakesFirst : List Ptr → Option Ptr × Pending → Type 0
TakesFirst [] (o, u) = (o ≡ none) × Represents [] u
TakesFirst (p ∷ ps) (o, u) = (o ≡ some p) × Represents ps u

-- On links that represent a list of waiting neighbors, `GetNextAdj` takes its first one out, and
-- none if it is empty.
pub get_next_adj-TakesFirst :
    (st : Pending) (ps : List Ptr) → Represents ps st → TakesFirst ps (get_next_adj st)
unfolding get_next_adj
get_next_adj-TakesFirst st [] r = rw (r.chain, get_next_adj) (refl, r)
get_next_adj-TakesFirst st (p ∷ []) r =
    rw (r.chain.0, get_next_adj, r.chain.1)
      (
        refl,
        record {
          chain = refl;
          tail = refl;
          distinct = tt;
          flags = λ q. unfold update mem_ptr in ground (arith, r.flags q);
        },
      )
get_next_adj-TakesFirst st (p ∷ q ∷ qs) r =
    rw (r.chain.0, get_next_adj, r.chain.1.0)
      (
        refl,
        record {
          chain = (refl, r.chain.1.1);
          tail = r.tail;
          distinct = r.distinct.1;
          flags =
              λ x. unfold update mem_ptr in ground (arith, r.flags x, r.distinct.0, (==_iff p x).0);
        },
      )
