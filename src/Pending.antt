-- ===== src/Pending.antt =====
-- THospf/NeighborFSM.cpp: `AddPendAdj` and `DelPendAdj`, and THospf/LSA.cpp: `GetNextAdj`, on the
-- list of neighbors that wait for a database exchange, linked by `next_pend` from `g_adj_head` to
-- `g_adj_tail`. The walk of `DelPendAdj` takes fuel.
pub mod Chain
pub mod Refines
mod Tests
use ospfbasic.Prelude.{
  ℕ, zero, suc, Bool, true, false, not, List, [], ◌∷◌, Option, none, some, ◌==◌, if◌then◌else◌,
}
use ospfbasic.Router.State.{Ptr}

pub record Pending : Type 0 where
  pub n_adj_pend : Ptr → Bool
  pub next_pend : Ptr → Option Ptr
  pub g_adj_head : Option Ptr
  pub g_adj_tail : Option Ptr

unfoldable pub update {ℓ} : {A : Type ℓ} → (Ptr → A) → Ptr → A → Ptr → A
update f p a q = if q == p then a else f q

-- Whether a pointer holds an address.
abbrev pub points_to : Option Ptr → Ptr → Bool
points_to none p = false
points_to (some q) p = q == p

-- The code takes `g_adj_tail` to be set where `g_adj_head` is.
abbrev pub link_tail : Option Ptr → Ptr → (Ptr → Option Ptr) → Ptr → Option Ptr
link_tail none p next = next
link_tail (some t) p next = update next t (some p)

unfoldable pub add_pend_adj : Ptr → Pending → Pending
add_pend_adj p st =
    let next = update st.next_pend p none in
    let pend = update st.n_adj_pend p true in
    if st.n_adj_pend p then st else elim st.g_adj_head [
      | none ↦ record {
        n_adj_pend = pend;
        next_pend = next;
        g_adj_head = some p;
        g_adj_tail = some p;
      }
      | some h ↦ record {
        n_adj_pend = pend;
        next_pend = link_tail st.g_adj_tail p next;
        g_adj_head = some h;
        g_adj_tail = some p;
      }
    ]

-- The walk: `*ptr` and `prev`. It ends with what `prev` is at the neighbor, or without it.
pub data Walk : Type 0 where
  out_of_fuel not_there : Walk
  there : Option Ptr → Walk

unfoldable pub walk : ℕ → (Ptr → Option Ptr) → Ptr → Option Ptr → Option Ptr → Walk
walk zero next p at prev = out_of_fuel
walk (suc fuel) next p none prev = not_there
walk (suc fuel) next p (some q) prev =
    let rest = walk fuel next p (next q) (some q) in if q == p then there prev else rest

-- `*ptr = next_pend`, where `ptr` points to the head or into the element before.
unfoldable pub unlink : Ptr → Option Ptr → Pending → Pending
unlink p none st = record st {
  g_adj_head = st.next_pend p;
  g_adj_tail = if points_to st.g_adj_tail p then none else st.g_adj_tail;
  n_adj_pend = update st.n_adj_pend p false;
}
unlink p (some b) st = record st {
  next_pend = update st.next_pend b (st.next_pend p);
  g_adj_tail = if points_to st.g_adj_tail p then some b else st.g_adj_tail;
  n_adj_pend = update st.n_adj_pend p false;
}

-- `none` if the fuel runs out.
unfoldable pub del_pend_adj : ℕ → Ptr → Pending → Option Pending
del_pend_adj fuel p st =
    if not (st.n_adj_pend p) then some st else elim (walk fuel st.next_pend p st.g_adj_head none) [
      | out_of_fuel ↦ none
      | not_there ↦ some st
      | there prev ↦ some (unlink p prev st)
    ]

-- `GetNextAdj`.
unfoldable pub get_next_adj : Pending → Option Ptr × Pending
get_next_adj st = elim st.g_adj_head [
  | none ↦ (none, st)
  | some np ↦ (
    some np,
    record st {
      g_adj_head = st.next_pend np;
      g_adj_tail = elim (st.next_pend np) [ none ↦ none | some q ↦ st.g_adj_tail ];
      n_adj_pend = update st.n_adj_pend np false;
    },
  )
]
