-- ===== src/Spf/Loop.antt =====
-- THospf/ospfCalc.cpp: the main loop of `OSPF::dijkstra`.
use ospfbasic.Prelude.{
  ℕ, zero, suc, ◌+◌, ◌≤◌, ◌≡◌, ◌≢◌, refl, sym, subst, inl, inr, Bool, List, [], ◌∷◌, some, arith,
  Option-cases, All, length,
}
use mathlib.Core.List.{Memᴰ}
use mathlib.Core.List.Memᴰ
use ospfbasic.Queue.{Item, Tree, rmhead}
use ospfbasic.Queue.Contents.{count, one}
use ospfbasic.Queue.Least.{IsQueue, TakesLeast, rmhead-least}
use ospfbasic.Routes.{TNode, Link, ds_uninit, ds_ontree}
use ospfbasic.Spf.{Calc, item_of, visit, main_loop}
use ospfbasic.Spf.Bag.{IsCandidate, head-least, empty-holds}
use ospfbasic.Spf.Sums.{NoDup, tally}
use ospfbasic.Spf.Moves.{state_cases}
use ospfbasic.Spf.Search.{Found}
use ospfbasic.Spf.Walks.{stay, go_on, Walk, Joins, Relaxed, waiting}
use ospfbasic.Spf.Rounds.{Round, visit-Round}

All-member {ℓ κ} : {A : Type ℓ} (P : A → Type κ) {x : A} (xs : List A) → Memᴰ x xs → All P xs → P x
All-member P [] m h = absurd (Memᴰ.not-nil m)
All-member P (y ∷ xs) (Memᴰ.head e) h = subst P (sym e) h.0
All-member P (y ∷ xs) (Memᴰ.tail m) h = All-member P xs m h.1

module _ (graph : ℕ → List Link) (r : ℕ) (vs : List ℕ) (nd : NoDup vs) (few : length vs ≤ 0x10000)
    (joins : (u : ℕ) → Memᴰ u vs → All (Joins vs) (graph u)) where
  -- The nodes once no candidate is left.
  pub record Finished (nodes : ℕ → TNode) : Type 0 where
    pub last : ℕ
    pub found : Found graph r vs nodes last
    pub closed :
        (u : ℕ) → Memᴰ u vs → (nodes u).t_state ≡ ds_ontree → All (Relaxed nodes u) (graph u)
    pub no_candidate : (v : ℕ) → Memᴰ v vs → ¬ IsCandidate (nodes v)

  -- What every round keeps holds when the queue is empty.
  pub main_loop-finishes :
      (P : Calc → Type 0)
      → ((s : Calc) (rest : Tree) → P s → P (record s { cand = rest }))
      → ((s : Calc) (round : Round graph r vs nd few s) (i : Item) (rest : Tree) (m : Memᴰ i.elt vs)
            (cand : IsCandidate (s.nodes i.elt))
            (least : (w : ℕ)
              → Memᴰ w vs
              → IsCandidate (s.nodes w)
              → (s.nodes i.elt).cost0 ≤ (s.nodes w).cost0)
          → IsQueue rest
          → ((pass : Item → Bool)
              → count pass rest + one (pass (item_of i.elt (s.nodes i.elt)))
                ≡ tally pass s.nodes vs)
          → P s
          → P (visit i.elt (record s { cand = rest })))
      → (fuel : ℕ) (s : Calc) → Round graph r vs nd few s
      → P s
      → suc (waiting s.nodes vs) ≤ fuel
      → (t : Calc) × (main_loop fuel s ≡ some t) × Finished t.nodes × P t
  unfolding main_loop
  main_loop-finishes P drop keep zero s h p le = absurd (omega (arith, le))
  main_loop-finishes P drop keep (suc fuel) s h p le =
      let takes : TakesLeast s.cand (rmhead s.cand) = rmhead-least s.cand h.bag.queue in
      elim (Option-cases (rmhead s.cand).0) [
        | inl e ↦
            let (no_size, gone) = subst (λ o. TakesLeast s.cand (o, (rmhead s.cand).1)) e takes in
            (
              record s { cand = (rmhead s.cand).1 },
              rw (e, main_loop) refl,
              record {
                last = h.last;
                found = h.found;
                closed = h.closed;
                no_candidate = λ v m. empty-holds s.nodes vs s.cand v h.bag no_size m;
              },
              drop s (rmhead s.cand).1 p,
            )
        | inr (i, e) ↦
            let took = subst (λ o. TakesLeast s.cand (o, (rmhead s.cand).1)) e takes in
            let (m, cand, counts, least) =
              head-least s.nodes vs s.cand (rmhead s.cand).1 i h.bag took in
            let (next, fewer) =
              visit-Round graph r vs nd few s h i.elt (rmhead s.cand).1 m cand least took.0 counts
                (joins i.elt m) in
            let (t, ends, done, kept) =
              main_loop-finishes P drop keep fuel
                (visit i.elt (record s { cand = (rmhead s.cand).1 })) next
                (keep s h i (rmhead s.cand).1 m cand least took.0 counts p)
                (omega (arith, fewer, le)) in
            (t, rw (e, main_loop) ends, done, kept)
      ]

  Finished-ontree :
      {nodes : ℕ → TNode} (v : ℕ)
      → Finished nodes
      → Memᴰ v vs
      → (nodes v).t_state ≢ ds_uninit
      → (nodes v).t_state ≡ ds_ontree
  Finished-ontree {nodes} v h m known = elim (state_cases (nodes v)) [
    | inl u ↦ absurd (known u)
    | inr (inl u) ↦ absurd (h.no_candidate v m u)
    | inr (inr u) ↦ u
  ]

  -- Every walk leads to a node on the tree that costs no more.
  pub Finished-covers :
      {nodes : ℕ → TNode} {v c : ℕ}
      → Finished nodes
      → Memᴰ r vs
      → Walk graph r v c
      → Memᴰ v vs × ((nodes v).t_state ≡ ds_ontree) × ((nodes v).cost0 ≤ c)
  Finished-covers h m stay =
      (m, Finished-ontree r h m h.found.root.0, omega (arith, h.found.root.1))
  Finished-covers {nodes} h m (go_on {u} {v} {c} {w} {l_data} walk edge) =
      let (in_u, tree_u, le) = Finished-covers h m walk in
      let (in_v, small) = All-member (Joins vs) (graph u) edge (joins u in_u) in
      let (known, low) = All-member (Relaxed nodes u) (graph u) edge (h.closed u in_u tree_u) in
      (in_v, Finished-ontree v h in_v known, omega (arith, low, le))
