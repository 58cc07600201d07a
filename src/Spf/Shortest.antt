-- ===== src/Spf/Shortest.antt =====
-- THospf/ospfCalc.cpp: `OSPF::dijkstra` from its start to the empty queue.
use ospfbasic.Prelude.{
  ℕ, suc, ◌≤◌, ◌≡◌, ◌≢◌, refl, sym, ap, subst, ◌∙◌, ◌⊎◌, inl, inr, true, List, [], ◌∷◌, ◌++◌, some,
  arith, Bool-cases, ◌==◌, All, length,
}
use mathlib.Core.List.{Memᴰ}
use mathlib.Core.List.Memᴰ
use ospfbasic.Queue.{empty, add}
use ospfbasic.Queue.Contents.{count, one}
use ospfbasic.Queue.Least.{add-inserts}
use ospfbasic.Routes.{TNode, Link, ds_uninit, ds_oncand, ds_ontree}
use ospfbasic.Spf.{Calc, put, item_of, reset_all, dijk_init, prepare, dijkstra}
use ospfbasic.Spf.Bag.{IsBag, passes-other}
use ospfbasic.Spf.Sums.{NoDup, passes, total, total-put, put_self}
use ospfbasic.Spf.Moves.{state_cases}
use ospfbasic.Spf.Search.{Found}
use ospfbasic.Spf.Walks.{stay, Walk, Joins, off_tree, waiting}
use ospfbasic.Spf.Rounds.{Round}
use ospfbasic.Spf.Loop.{main_loop-finishes, Finished-covers}

-- A network with the router's own advertisement in it: at most 65536 router and network
-- advertisements, none twice, links that lead to such advertisements and `uns16` costs.
pub record IsNet (s : Calc) (r : ℕ) : Type 0 where
  pub own : s.own ≡ some r
  pub listed : Memᴰ r (s.rtr_lsas ++ s.net_lsas)
  pub parsed : (s.nodes r).parsed ≡ true
  pub distinct : NoDup (s.rtr_lsas ++ s.net_lsas)
  pub few : length (s.rtr_lsas ++ s.net_lsas) ≤ 0x10000
  pub joins :
      (u : ℕ)
      → Memᴰ u (s.rtr_lsas ++ s.net_lsas)
      → All (Joins (s.rtr_lsas ++ s.net_lsas)) (s.nodes u).t_links

-- What `reset_all` leaves of a node.
abbrev IsReset : TNode → TNode → Type 0
IsReset a b =
    (a.t_links ≡ b.t_links)
    × (a.parsed ≡ b.parsed)
    × ((b.t_state ≡ ds_uninit) → a.t_state ≡ ds_uninit)

put-IsReset :
    (nodes : ℕ → TNode) (v x : ℕ)
    → IsReset (put v (record (nodes v) { t_state = ds_uninit }) nodes x) (nodes x)
put-IsReset nodes v x = elim (Bool-cases (x == v)) [
  | inl e ↦ let same : x ≡ v = ground (arith, e) in rw (e, same) (refl, refl, λ _. refl)
  | inr e ↦ rw e (refl, refl, λ u. u)
]

reset_all-IsReset :
    (vs : List ℕ) (nodes : ℕ → TNode) (x : ℕ) → IsReset (reset_all vs nodes x) (nodes x)
unfolding reset_all
reset_all-IsReset [] nodes x = (refl, refl, λ u. u)
reset_all-IsReset (v ∷ vs) nodes x =
    let (links, parsed, off) = put-IsReset nodes v x in
    let (links', parsed', off') =
      reset_all-IsReset vs (put v (record (nodes v) { t_state = ds_uninit }) nodes) x in
    (links' ∙ links, parsed' ∙ parsed, λ u. off' (off u))

reset_all-uninit :
    (vs : List ℕ) (nodes : ℕ → TNode) (x : ℕ)
    → Memᴰ x vs
    → (reset_all vs nodes x).t_state ≡ ds_uninit
unfolding reset_all
reset_all-uninit [] nodes x m = absurd (Memᴰ.not-nil m)
reset_all-uninit (v ∷ vs) nodes x (Memᴰ.head e) =
    let first : ℕ → TNode = put v (record (nodes v) { t_state = ds_uninit }) nodes in
    let here : (first x).t_state ≡ ds_uninit = ground (arith, e) in
    (reset_all-IsReset vs first x).2 here
reset_all-uninit (v ∷ vs) nodes x (Memᴰ.tail m) = reset_all-uninit vs _ x m

total_zero :
    (f : ℕ → TNode → ℕ) (nodes : ℕ → TNode) (vs : List ℕ)
    → ((x : ℕ) → Memᴰ x vs → f x (nodes x) ≡ 0)
    → total f nodes vs ≡ 0
unfolding total
total_zero f nodes [] h = refl
total_zero f nodes (v ∷ vs) h =
    omega (arith, h v (Memᴰ.head refl), total_zero f nodes vs (λ x m. h x (Memᴰ.tail m)))

pub waiting_bound : (nodes : ℕ → TNode) (vs : List ℕ) → waiting nodes vs ≤ length vs
unfolding total
waiting_bound nodes [] = omega arith
waiting_bound nodes (v ∷ vs) = omega (arith, waiting_bound nodes vs, off_bound (nodes v))
  where
    off_bound : (n : TNode) → off_tree v n ≤ 1
    off_bound n = elim (state_cases n) [
      | inl e ↦ rw e (omega arith)
      | inr (inl e) ↦ rw e (omega arith)
      | inr (inr e) ↦ rw e (omega arith)
    ]

-- The nodes that `dijk_init` starts from, and with the root among the candidates.
module _ (s : Calc) (r : ℕ) where
  abbrev cleared : ℕ → TNode
  cleared = reset_all s.net_lsas (reset_all s.rtr_lsas s.nodes)

  abbrev root_item : TNode
  root_item = record (cleared r) { cost0 = 0; cost1 = 0; tie1 = (cleared r).lsa_type }

  abbrev root_cand : TNode
  root_cand = record root_item { t_state = ds_oncand }

  abbrev pub started : ℕ → TNode
  started = put r root_cand cleared

  cleared-uninit : (x : ℕ) → Memᴰ x (s.rtr_lsas ++ s.net_lsas) → (cleared x).t_state ≡ ds_uninit
  cleared-uninit x m = elim (Memᴰ.append_cases s.rtr_lsas m) [
    | inl in_rtr ↦
        (reset_all-IsReset s.net_lsas (reset_all s.rtr_lsas s.nodes) x).2
          (reset_all-uninit s.rtr_lsas s.nodes x in_rtr)
    | inr in_net ↦ reset_all-uninit s.net_lsas (reset_all s.rtr_lsas s.nodes) x in_net
  ]

  cleared-kept :
      (x : ℕ)
      → ((cleared x).t_links ≡ (s.nodes x).t_links) × ((cleared x).parsed ≡ (s.nodes x).parsed)
  cleared-kept x =
      let (links, parsed, _) = reset_all-IsReset s.rtr_lsas s.nodes x in
      let (links', parsed', _) = reset_all-IsReset s.net_lsas (reset_all s.rtr_lsas s.nodes) x in
      (links' ∙ links, parsed' ∙ parsed)

  pub prepare_lem :
      IsNet s r
      → ((prepare s).nodes ≡ started) × ((prepare s).cand ≡ add (item_of r root_item) empty)
  unfolding prepare dijk_init
  prepare_lem h = rw h.own (rw ((cleared-kept r).1 ∙ h.parsed) (refl, refl))

  abbrev pub vs : List ℕ
  vs = s.rtr_lsas ++ s.net_lsas

  abbrev pub graph : ℕ → List Link
  graph u = (s.nodes u).t_links

  started_cases :
      (x : ℕ) → ((x ≡ r) × (started x ≡ root_cand)) ⊎ ((x ≢ r) × (started x ≡ cleared x))
  started_cases x = elim (Bool-cases (x == r)) [
    | inl e ↦ inl (ground (arith, e), rw e refl)
    | inr e ↦ inr (ground (arith, e), rw e refl)
  ]

  started-Found : IsNet s r → Found graph r vs started 0
  started-Found h = record {
    links = λ x. elim (started_cases x) [
      | inl (is_r, same) ↦
          rw same (subst (λ y. (cleared r).t_links ≡ graph y) (sym is_r) (cleared-kept r).0)
      | inr (ne, same) ↦ rw same (cleared-kept x).0
    ];
    walks = λ x m e. elim (started_cases x) [
      | inl (is_r, same) ↦ rw same (subst (λ y. Walk graph r y 0) (sym is_r) stay)
      | inr (ne, same) ↦ absurd (e (ap (λ (a : TNode). a.t_state) same ∙ cleared-uninit x m))
    ];
    near = λ x m e. elim (started_cases x) [
      | inl (is_r, same) ↦ rw same (omega arith)
      | inr (ne, same) ↦ cc (e, same, cleared-uninit x m)
    ];
    far = λ x m e. omega arith;
    small = λ x m e. elim (started_cases x) [
      | inl (is_r, same) ↦ rw same (omega (arith, waiting_bound started vs))
      | inr (ne, same) ↦ absurd (e (ap (λ (a : TNode). a.t_state) same ∙ cleared-uninit x m))
    ];
    root = rw (put_self root_cand cleared r) ((λ u. cc u), refl);
  }

  pub started-off : (x : ℕ) → Memᴰ x vs → (started x).t_state ≢ ds_ontree
  started-off x m e = elim (started_cases x) [
    | inl (is_r, same) ↦ cc (ap (λ (a : TNode). a.t_state) same, e)
    | inr (ne, same) ↦ cc (ap (λ (a : TNode). a.t_state) same, cleared-uninit x m, e)
  ]

  started-IsBag : IsNet s r → IsBag started vs (add (item_of r root_item) empty)
  unfolding item_of count
  started-IsBag h =
      let (q, counts) =
        add-inserts (item_of r root_item) empty record { leftist = tt; heap = tt } in
      record {
        queue = q;
        holds = λ pass. omega (
          arith,
          counts pass,
          total-put (λ y a. one (passes pass y a)) root_cand cleared r vs h.distinct h.listed,
          total_zero (λ y a. one (passes pass y a)) cleared vs
              (λ x m. ap one (passes-other pass x (cleared x) (λ u. cc (u, cleared-uninit x m)))),
          ap one (passes-other pass r (cleared r) (λ u. cc (u, cleared-uninit r h.listed))),
        );
      }

-- What is true before the first round.
pub started-Round :
    (s : Calc) (r : ℕ) (h : IsNet s r) → Round (graph s r) r (vs s r) h.distinct h.few (prepare s)
started-Round s r h =
    let (nodes_eq, cand_eq) = prepare_lem s r h in
    record {
      bag =
          subst (λ g. IsBag g (vs s r) (prepare s).cand) (sym nodes_eq)
            (subst (IsBag (started s r) (vs s r)) (sym cand_eq) (started-IsBag s r h));
      last = 0;
      found = subst (λ g. Found (graph s r) r (vs s r) g 0) (sym nodes_eq) (started-Found s r h);
      closed =
          λ u m e. absurd (started-off s r u m (subst (λ g. (g u).t_state ≡ ds_ontree) nodes_eq e));
    }

-- From a network `dijkstra` returns; then the nodes on the tree are those that a walk along links
-- leads to, and each of them has the cost of a walk, which no other walk to it is below.
pub dijkstra_shortest :
    (s : Calc) (r : ℕ)
    → IsNet s r
    → (t : Calc) × (dijkstra s ≡ some t)
      × ((v : ℕ)
          → Memᴰ v (s.rtr_lsas ++ s.net_lsas)
          → ((t.nodes v).t_state ≡ ds_ontree
              → Walk (λ u. (s.nodes u).t_links) r v (t.nodes v).cost0)
            × ((c : ℕ)
                → Walk (λ u. (s.nodes u).t_links) r v c
                → ((t.nodes v).t_state ≡ ds_ontree) × ((t.nodes v).cost0 ≤ c)))
unfolding dijkstra
dijkstra_shortest s r h =
    let (t, ends, done, _) =
      main_loop-finishes (graph s r) r (vs s r) h.distinct h.few h.joins (λ _. Unit) (λ _ _ _. tt)
        (λ _ _ _ _ _ _ _ _ _ _. tt) (suc (length (vs s r))) (prepare s) (started-Round s r h) tt
        (omega (arith, waiting_bound (prepare s).nodes (vs s r))) in
    (
      t,
      ends,
      λ v m. (
        λ e. done.found.walks v m (λ u. cc (u, e)),
        λ c walk.
            let (in_v, tree, low) =
              Finished-covers (graph s r) r (vs s r) h.distinct h.few h.joins done h.listed walk in
            (tree, low),
      ),
    )
