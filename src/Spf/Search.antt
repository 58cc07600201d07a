-- ===== src/Spf/Search.antt =====
-- THospf/ospfCalc.cpp: the loop over the links of a node that has come onto the tree.
use ospfbasic.Prelude.{
  ℕ, suc, ◌+◌, ◌*◌, ◌%◌, ◌^◌, ◌≤◌, ◌≡◌, ◌≢◌, refl, sym, ap, subst, ◌∙◌, ◌⊎◌, inl, inr, List, [],
  ◌∷◌, some, arith, Bool-cases, ◌==◌, All, length,
}
use mathlib.Core.List.{Memᴰ}
use ospfbasic.Routes.{TNode, Link, transit_link, ds_uninit, ds_oncand, ds_ontree}
use ospfbasic.Spf.{Calc, relax}
use ospfbasic.Spf.Bag.{IsBag}
use ospfbasic.Spf.Sums.{NoDup, total}
use ospfbasic.Spf.Moves.{Moves, relax-Moves, Outcome, kept, better, state_cases}
use ospfbasic.Spf.Walks.{go_on, Walk, max_cost, Relaxed, off_tree, waiting, Lowers}

-- What a round of the loop does to each node.
record Change (a b : TNode) (new_cost : ℕ) : Type 0 where
  links : b.t_links ≡ a.t_links
  dest : b.t_dest ≡ a.t_dest
  off : (v : ℕ) → off_tree v b ≡ off_tree v a
  back : b.t_state ≡ ds_ontree → a.t_state ≡ ds_ontree
  tree : a.t_state ≡ ds_ontree → (b.t_state ≡ ds_ontree) × (b.cost0 ≡ a.cost0)
  known : a.t_state ≢ ds_uninit → (b.t_state ≢ ds_uninit) × (b.cost0 ≤ a.cost0)
  origin :
      b.t_state ≢ ds_uninit
      → ((a.t_state ≢ ds_uninit) × (b.t_state ≡ a.t_state) × (b.cost0 ≡ a.cost0))
        ⊎ ((b.t_state ≡ ds_oncand) × (b.cost0 ≡ new_cost))

Change-refl : (a : TNode) (new_cost : ℕ) → Change a a new_cost
Change-refl a new_cost = record {
  links = refl;
  dest = refl;
  off = λ v. refl;
  back = λ e. e;
  tree = λ e. (e, refl);
  known = λ e. (e, omega arith);
  origin = λ e. inl (e, refl, refl);
}

pub off_tree-other : (v : ℕ) (n : TNode) → n.t_state ≢ ds_ontree → off_tree v n ≡ 1
off_tree-other v n h = elim (state_cases n) [
  | inl e ↦ rw e refl
  | inr (inl e) ↦ rw e refl
  | inr (inr e) ↦ absurd (h e)
]

Outcome-Change : {a b : TNode} {new_cost : ℕ} → Outcome b a new_cost → Change a b new_cost
Outcome-Change (kept same known le) = record {
  links = same.links;
  dest = same.dest;
  off = λ v. rw same.state refl;
  back = λ e. sym same.state ∙ e;
  tree = λ e. (same.state ∙ e, same.cost);
  known = λ e. (λ u. e (sym same.state ∙ u), omega (arith, same.cost));
  origin = λ e. inl (λ u. e (same.state ∙ u), same.state, same.cost);
}
Outcome-Change {a} {b} (better new off lt) = record {
  links = new.links;
  dest = new.dest;
  off = λ v. off_tree-other v b (λ e. cc (e, new.state)) ∙ sym (off_tree-other v a off);
  back = λ e. cc (e, new.state);
  tree = λ e. absurd (off e);
  known = λ e. (
    λ u. cc (u, new.state),
    elim (state_cases a) [
      | inl u ↦ absurd (e u)
      | inr (inl u) ↦ omega (arith, new.cost, lt u)
      | inr (inr u) ↦ absurd (off u)
    ],
  );
  origin = λ e. inr (new.state, new.cost);
}

Moves-Change :
    {vs : List ℕ} {w new_cost : ℕ} {s t : Calc}
    → Moves vs w new_cost s t
    → (x : ℕ) → Change (s.nodes x) (t.nodes x) new_cost
Moves-Change {w} {new_cost} {s} {t} m x = elim (Bool-cases (x == w)) [
  | inl e ↦
      let same : x ≡ w = ground (arith, e) in
      subst (λ y. Change (s.nodes y) (t.nodes y) new_cost) (sym same) (Outcome-Change m.outcome)
  | inr e ↦ rw (m.others x (ground (arith, e))) (Change-refl (s.nodes x) new_cost)
]

Changes-Lowers :
    {a b : ℕ → TNode} {new_cost : ℕ} → ((x : ℕ) → Change (a x) (b x) new_cost) → Lowers a b
Changes-Lowers h = record {
  tree = λ x. (h x).tree;
  known = λ x. (h x).known;
  same = λ x. ((h x).links, (h x).dest);
}

total-same :
    (f : ℕ → TNode → ℕ) (a b : ℕ → TNode) (vs : List ℕ)
    → ((x : ℕ) → f x (b x) ≡ f x (a x))
    → total f b vs ≡ total f a vs
unfolding total
total-same f a b [] h = refl
total-same f a b (v ∷ vs) h = omega (arith, h v, total-same f a b vs h)

Outcome-known :
    {a b : TNode} {new_cost : ℕ}
    → Outcome b a new_cost
    → (a.t_state ≡ ds_ontree → a.cost0 ≤ new_cost)
    → (b.t_state ≢ ds_uninit) × (b.cost0 ≤ new_cost)
Outcome-known {a} (kept same known le) low = (
  λ u. known (sym same.state ∙ u),
  elim (state_cases a) [
    | inl u ↦ absurd (known u)
    | inr (inl u) ↦ omega (arith, same.cost, le u)
    | inr (inr u) ↦ omega (arith, same.cost, low u)
  ],
)
Outcome-known (better new off lt) low = (λ u. cc (u, new.state), omega (arith, new.cost))

module _ (graph : ℕ → List Link) (r : ℕ) (vs : List ℕ) where
  -- What holds of the nodes while the last node on the tree costs `d`.
  pub record Found (nodes : ℕ → TNode) (d : ℕ) : Type 0 where
    pub links : (v : ℕ) → (nodes v).t_links ≡ graph v
    pub walks : (v : ℕ) → Memᴰ v vs → (nodes v).t_state ≢ ds_uninit → Walk graph r v (nodes v).cost0
    pub near : (v : ℕ) → Memᴰ v vs → (nodes v).t_state ≡ ds_ontree → (nodes v).cost0 ≤ d
    pub far : (v : ℕ) → Memᴰ v vs → (nodes v).t_state ≡ ds_oncand → d ≤ (nodes v).cost0
    pub small :
        (v : ℕ)
        → Memᴰ v vs
        → (nodes v).t_state ≢ ds_uninit
        → (nodes v).cost0 + max_cost * waiting nodes vs ≤ max_cost * length vs
    pub root : ((nodes r).t_state ≢ ds_uninit) × ((nodes r).cost0 ≡ 0)

  -- The node on the tree whose links are followed.
  pub record At (nodes : ℕ → TNode) (v d : ℕ) : Type 0 where
    pub listed : Memᴰ v vs
    pub on_tree : (nodes v).t_state ≡ ds_ontree
    pub cost : (nodes v).cost0 ≡ d
    pub slack : d + max_cost * suc (waiting nodes vs) ≤ max_cost * length vs

  module _ (nd : NoDup vs) (few : length vs ≤ 0x10000) where
    -- A change by a link from node `v`, at the exact new cost.
    Changes-Found :
        (a b : ℕ → TNode) (d v w c l_data : ℕ)
        → ((x : ℕ) → x ≢ w → b x ≡ a x)
        → Outcome (b w) (a w) (d + c)
        → ((x : ℕ) → Change (a x) (b x) (d + c))
        → Found a d
        → At a v d
        → Memᴰ (transit_link (some w) c l_data) (graph v)
        → c ≤ max_cost
        → Found b d
    Changes-Found a b d v w c l_data others outcome h f at edge le = record {
      links = λ x. (h x).links ∙ f.links x;
      walks = λ x m e. walk_to x m e (x_cases x);
      near = λ x m e. let e' = (h x).back e in omega (arith, f.near x m e', ((h x).tree e').1);
      far = λ x m e. elim ((h x).origin (λ u. cc (u, e))) [
        | inl (known, state, cost) ↦ omega (arith, f.far x m (sym state ∙ e), cost)
        | inr (cand, cost) ↦ omega (arith, cost)
      ];
      small = λ x m e. elim ((h x).origin e) [
        | inl (known, state, cost) ↦ omega (arith, f.small x m known, cost, same_waiting)
        | inr (cand, cost) ↦ omega (arith, cost, at.slack, same_waiting, le)
      ];
      root = let (known, low) = (h r).known f.root.0 in (known, omega (arith, low, f.root.1));
    }
      where
        x_cases : (x : ℕ) → (x ≡ w) ⊎ (x ≢ w)
        x_cases x = ground arith

        same_waiting : waiting b vs ≡ waiting a vs
        same_waiting = total-same off_tree a b vs (λ x. (h x).off x)

        walk_w : Memᴰ w vs → (b w).t_state ≢ ds_uninit → Walk graph r w (b w).cost0
        walk_w m e = elim ((h w).origin e) [
          | inl (known, state, cost) ↦ subst (Walk graph r w) (sym cost) (f.walks w m known)
          | inr (cand, cost) ↦
              subst (Walk graph r w) (ap (λ k. k + c) at.cost ∙ sym cost)
                (go_on (f.walks v at.listed (λ u. cc (u, at.on_tree))) edge)
        ]

        walk_to :
            (x : ℕ)
            → Memᴰ x vs
            → (b x).t_state ≢ ds_uninit
            → (x ≡ w) ⊎ (x ≢ w)
            → Walk graph r x (b x).cost0
        walk_to x m e (inl is_w) =
            subst (λ y. Memᴰ y vs → (b y).t_state ≢ ds_uninit → Walk graph r y (b y).cost0)
              (sym is_w) walk_w m e
        walk_to x m e (inr ne) =
            rw (others x ne) (f.walks x m (subst (λ n. n.t_state ≢ ds_uninit) (others x ne) e))

    Changes-At :
        (a b : ℕ → TNode) (d v new_cost : ℕ)
        → ((x : ℕ) → Change (a x) (b x) new_cost)
        → At a v d
        → At b v d
    Changes-At a b d v new_cost h at =
        let (state, cost) = (h v).tree at.on_tree in
        record {
          listed = at.listed;
          on_tree = state;
          cost = cost ∙ at.cost;
          slack = rw (total-same off_tree a b vs (λ x. (h x).off x)) at.slack;
        }

    -- What the links that have been followed leave.
    pub record Followed (s t : Calc) (v d : ℕ) (lps : List Link) : Type 0 where
      pub bag : IsBag t.nodes vs t.cand
      pub found : Found t.nodes d
      pub at : At t.nodes v d
      pub lowers : Lowers s.nodes t.nodes
      pub back : (x : ℕ) → (t.nodes x).t_state ≡ ds_ontree → (s.nodes x).t_state ≡ ds_ontree
      pub waits : waiting t.nodes vs ≡ waiting s.nodes vs
      pub relaxed : All (Relaxed t.nodes v) lps

    pub relax-Followed :
        (s : Calc) (d v i w c l_data : ℕ)
        → IsBag s.nodes vs s.cand
        → Found s.nodes d
        → At s.nodes v d
        → Memᴰ (transit_link (some w) c l_data) (graph v)
        → Memᴰ w vs
        → c ≤ max_cost
        → Followed s (relax s v i w c) v d (transit_link (some w) c l_data ∷ [])
    relax-Followed s d v i w c l_data b f at edge m le =
        let exact : ((s.nodes v).cost0 + c) % 2 ^ 32 ≡ d + c =
          omega (arith, at.cost, at.slack, le, few) in
        let moves : Moves vs w (d + c) s (relax s v i w c) =
          subst (λ k. Moves vs w k s (relax s v i w c)) exact (relax-Moves vs nd s v i w c m b) in
        let changes = Moves-Change moves in
        let at' = Changes-At s.nodes (relax s v i w c).nodes d v (d + c) changes at in
        let (known, low) = Outcome-known moves.outcome (λ u. omega (arith, f.near w m u)) in
        record {
          bag = moves.bag;
          found =
              Changes-Found s.nodes (relax s v i w c).nodes d v w c l_data moves.others
                moves.outcome changes f at edge le;
          at = at';
          lowers = Changes-Lowers changes;
          back = λ x. (changes x).back;
          waits = total-same off_tree s.nodes (relax s v i w c).nodes vs (λ x. (changes x).off x);
          relaxed = ((known, omega (arith, low, at'.cost)), tt);
        }
