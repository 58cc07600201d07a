-- ===== src/Spf/Bag.antt =====
-- THospf/ospfCalc.cpp: the candidates of the shortest path calculation against the states of the
-- nodes.
use ospfbasic.Prelude.{
  ℕ, ◌+◌, ◌≤◌, ◌≡◌, refl, sym, ap, subst, ◌∙◌, inl, inr, Bool, true, false, List, [], ◌∷◌, none,
  some, ◌==◌, ◌&&◌, arith, Bool-cases, Option-cases,
}
use mathlib.Core.List.{Memᴰ}
use mathlib.Core.List.Memᴰ
use ospfbasic.Queue.{Item, Tree, empty, node, Side, item_at, del, cmp_cost, size}
use ospfbasic.Queue.Contents.{count, one, del-count}
use ospfbasic.Queue.Least.{IsQueue, del-removes, TakesLeast}
use ospfbasic.Routes.{TNode, DijkState, ds_uninit, ds_oncand, ds_ontree}
use ospfbasic.Spf.{item_of, way_to, del_elt}
use ospfbasic.Spf.Sums.{passes, total, tally}

same_item : Item → Item → Bool
same_item a b =
    (a.elt == b.elt)
    && ((a.cost0 == b.cost0)
        && ((a.cost1 == b.cost1) && ((a.tie1 == b.tie1) && (a.tie2 == b.tie2))))

same_item_refl : (a : Item) → same_item a a ≡ true
unfolding same_item
same_item_refl a = ground arith

same_item_sound : (a b : Item) → same_item a b ≡ true → a ≡ b
unfolding same_item
same_item_sound a b h = ground (arith, h)

abbrev pub IsCandidate : TNode → Type 0
IsCandidate n = n.t_state ≡ ds_oncand

passes_sound :
    (pass : Item → Bool) (v : ℕ) (n : TNode)
    → passes pass v n ≡ true
    → IsCandidate n × (pass (item_of v n) ≡ true)
passes_sound pass v n h = go n.t_state refl h
  where
    go :
        (d : DijkState)
        → n.t_state ≡ d
        → elim d as (λ _. Bool) [ ds_oncand ↦ pass (item_of v n) | _ ↦ false ] ≡ true
        → IsCandidate n × (pass (item_of v n) ≡ true)
    go ds_oncand e h = (e, h)
    go ds_uninit e h = cc h
    go ds_ontree e h = cc h

pub passes-candidate :
    (pass : Item → Bool) (v : ℕ) (n : TNode) → IsCandidate n → passes pass v n ≡ pass (item_of v n)
passes-candidate pass v n h = rw h refl

pub passes-other :
    (pass : Item → Bool) (v : ℕ) (n : TNode) → ¬ IsCandidate n → passes pass v n ≡ false
passes-other pass v n h = go n.t_state refl
  where
    go :
        (d : DijkState)
        → n.t_state ≡ d
        → elim d as (λ _. Bool) [ ds_oncand ↦ pass (item_of v n) | _ ↦ false ] ≡ false
    go ds_oncand e = absurd (h e)
    go ds_uninit e = refl
    go ds_ontree e = refl

-- A positive tally comes from a node.
tally_positive :
    (pass : Item → Bool) (nodes : ℕ → TNode) (vs : List ℕ)
    → 1 ≤ tally pass nodes vs
    → (v : ℕ) × Memᴰ v vs × IsCandidate (nodes v) × (pass (item_of v (nodes v)) ≡ true)
unfolding total
tally_positive pass nodes [] h = absurd (omega (arith, h))
tally_positive pass nodes (v ∷ vs) h = elim (Bool-cases (passes pass v (nodes v))) [
  | inl e ↦ let (cand, p) = passes_sound pass v (nodes v) e in (v, Memᴰ.head refl, cand, p)
  | inr e ↦
      let (u, m, cand, p) = tally_positive pass nodes vs (omega (arith, ap one e, h)) in
      (u, Memᴰ.tail m, cand, p)
]

tally_member :
    (pass : Item → Bool) (nodes : ℕ → TNode) (v : ℕ) (vs : List ℕ)
    → Memᴰ v vs
    → passes pass v (nodes v) ≡ true
    → 1 ≤ tally pass nodes vs
unfolding total
tally_member pass nodes v [] m p = absurd (Memᴰ.not-nil m)
tally_member pass nodes v (w ∷ vs) (Memᴰ.head e) p =
    omega (arith, subst (λ x. 1 ≤ one (passes pass x (nodes x))) e (rw p (omega arith)))
tally_member pass nodes v (w ∷ vs) (Memᴰ.tail m) p = omega (arith, tally_member pass nodes v vs m p)

-- Every item of the queue is that of a candidate.
item_at-count :
    (pass : Item → Bool) (ss : List Side) (t : Tree) (i : Item)
    → item_at ss t ≡ some i
    → pass i ≡ true
    → 1 ≤ count pass t
item_at-count pass ss t i e p = omega (arith, del-count pass ss t i e, ap one p)

way_to_sound :
    (w : ℕ) (t : Tree) (ss : List Side)
    → way_to w t ≡ some ss
    → (i : Item) × (item_at ss t ≡ some i) × (i.elt ≡ w)
unfolding way_to item_at
way_to_sound w empty ss h = cc h
way_to_sound w (node i d l r) ss h = elim (Bool-cases (i.elt == w)) [
  | inl e ↦ (i, ground (arith, h, e), ground (arith, e))
  | inr e ↦ elim (Option-cases (way_to w l)) [
    | inl out ↦ elim (Option-cases (way_to w r)) [
      | inl out' ↦ ground (arith, h, e, out, out')
      | inr (ss', found) ↦
          let (j, at, same) = way_to_sound w r ss' found in
          (j, ground (arith, h, e, out, found, at), same)
    ]
    | inr (ss', found) ↦
        let (j, at, same) = way_to_sound w l ss' found in (j, ground (arith, h, e, found, at), same)
  ]
]

way_to-none : (w : ℕ) (t : Tree) → way_to w t ≡ none → count (λ j. j.elt == w) t ≡ 0
unfolding way_to count
way_to-none w empty h = refl
way_to-none w (node i d l r) h = ground (arith, h, way_to-none w l, way_to-none w r)

-- A queue that holds the candidates.
pub record IsBag (nodes : ℕ → TNode) (vs : List ℕ) (t : Tree) : Type 0 where
  pub queue : IsQueue t
  pub holds : (pass : Item → Bool) → count pass t ≡ tally pass nodes vs

-- An item of the queue is that of the candidate it belongs to.
item_at-IsCandidate :
    (nodes : ℕ → TNode) (vs : List ℕ) (t : Tree) (i : Item)
    → IsBag nodes vs t
    → 1 ≤ count (same_item i) t
    → Memᴰ i.elt vs × IsCandidate (nodes i.elt) × (i ≡ item_of i.elt (nodes i.elt))
unfolding item_of
item_at-IsCandidate nodes vs t i b h =
    let (u, m, cand, same) =
      tally_positive (same_item i) nodes vs (omega (arith, b.holds (same_item i), h)) in
    let e = same_item_sound i (item_of u (nodes u)) same in
    let back : u ≡ i.elt = sym (ap (λ (j : Item). j.elt) e) in
    (
      subst (λ x. Memᴰ x vs) back m,
      subst (λ x. IsCandidate (nodes x)) back cand,
      subst (λ x. i ≡ item_of x (nodes x)) back e,
    )

-- `cand.del` of a candidate takes its item from the queue.
pub del_elt-takes :
    (nodes : ℕ → TNode) (vs : List ℕ) (t : Tree) (v : ℕ)
    → IsBag nodes vs t
    → Memᴰ v vs
    → IsCandidate (nodes v)
    → IsQueue (del_elt v t)
      × ((pass : Item → Bool)
          → count pass (del_elt v t) + one (pass (item_of v (nodes v))) ≡ tally pass nodes vs)
unfolding del_elt item_of
del_elt-takes nodes vs t v b m cand = elim (Option-cases (way_to v t)) [
  | inl out ↦ absurd (omega (arith, way_to-none v t out, there))
  | inr (ss, found) ↦
      let (i, at, same) = way_to_sound v t ss found in
      let here =
        item_at-IsCandidate nodes vs t i b
          (item_at-count (same_item i) ss t i at (same_item_refl i)) in
      let is_item : i ≡ item_of v (nodes v) = subst (λ x. i ≡ item_of x (nodes x)) same here.2 in
      let (queue, counts) = del-removes ss t i at b.queue in
      rw (found, del_elt)
        (
          queue,
          λ pass.
              subst (λ j. count pass (del ss t) + one (pass j) ≡ tally pass nodes vs) is_item
                (counts pass ∙ b.holds pass),
        )
]
  where
    there : 1 ≤ count (λ j. j.elt == v) t
    there = omega (
      arith,
      b.holds (λ j. j.elt == v),
      tally_member (λ j. j.elt == v) nodes v vs m
          (passes-candidate (λ j. j.elt == v) v (nodes v) cand ∙ ground arith),
    )

-- An empty queue leaves no candidates.
pub empty-holds :
    (nodes : ℕ → TNode) (vs : List ℕ) (t : Tree) (v : ℕ)
    → IsBag nodes vs t
    → size t ≡ 0
    → Memᴰ v vs
    → ¬ IsCandidate (nodes v)
unfolding size count
empty-holds nodes vs empty v b e m cand = omega (
  arith,
  b.holds (λ _. true),
  tally_member (λ _. true) nodes v vs m (passes-candidate (λ _. true) v (nodes v) cand),
)
empty-holds nodes vs (node i d l r) v b e m cand = omega (arith, e)

cost_le :
    (i : Item) (n : TNode) (w : ℕ) (other : TNode)
    → i ≡ item_of i.elt n
    → cmp_cost (item_of w other) i ≡ false
    → n.cost0 ≤ other.cost0
unfolding cmp_cost item_of
cost_le i n w other e late = ground (arith, late, ap (λ (j : Item). j.cost0) e)

-- What the head of the queue is: a candidate that costs no more than any.
pub head-least :
    (nodes : ℕ → TNode) (vs : List ℕ) (t rest : Tree) (i : Item)
    → IsBag nodes vs t
    → TakesLeast t (some i, rest)
    → Memᴰ i.elt vs
      × IsCandidate (nodes i.elt)
      × ((pass : Item → Bool)
          → count pass rest + one (pass (item_of i.elt (nodes i.elt))) ≡ tally pass nodes vs)
      × ((w : ℕ) → Memᴰ w vs → IsCandidate (nodes w) → (nodes i.elt).cost0 ≤ (nodes w).cost0)
unfolding item_of
head-least nodes vs t rest i b (queue, counts, least) =
    let (m, cand, e) =
      item_at-IsCandidate nodes vs t i b
        (omega (arith, counts (same_item i), ap one (same_item_refl i))) in
    (
      m,
      cand,
      λ pass.
          subst (λ j. count pass rest + one (pass j) ≡ tally pass nodes vs) e
            (omega (arith, counts pass, b.holds pass)),
      λ w n other. elim (Bool-cases (cmp_cost (item_of w (nodes w)) i)) [
        | inl before ↦ absurd (
            omega (
              arith,
              least,
              b.holds (λ j. cmp_cost j i),
              tally_member (λ j. cmp_cost j i) nodes w vs n
                  (passes-candidate (λ j. cmp_cost j i) w (nodes w) other ∙ before),
            ))
        | inr late ↦ cost_le i (nodes i.elt) w (nodes w) e late
      ],
    )
