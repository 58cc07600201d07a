-- ===== src/Spf/Rounds.antt =====
-- THospf/ospfCalc.cpp: the rounds of the main loop of `OSPF::dijkstra`.
use ospfbasic.Prelude.{
  ℕ, suc, ◌+◌, ◌≤◌, ◌≡◌, ◌≢◌, refl, sym, ap, subst, ◌∙◌, ◌⊎◌, inl, inr, Bool, List, [], ◌∷◌, none,
  some, arith, Bool-cases, ◌==◌, All, length,
}
use mathlib.Core.List.{Memᴰ}
use ospfbasic.Queue.{Item, Tree}
use ospfbasic.Queue.Contents.{count, one}
use ospfbasic.Queue.Least.{IsQueue}
use ospfbasic.Routes.{TNode, Link, stub_link, transit_link, ds_uninit, ds_oncand, ds_ontree}
use ospfbasic.Spf.{Calc, put, item_of, follow, follow_all, settle_node, visit}
use ospfbasic.Spf.Bag.{IsBag, IsCandidate, passes-candidate, passes-other}
use ospfbasic.Spf.Sums.{NoDup, passes, tally, total-put, put_self}
use ospfbasic.Spf.Search.{off_tree-other, Found, At, Followed, relax-Followed}
use ospfbasic.Spf.Walks.{
  Walk, Joins, Relaxed, off_tree, waiting, Lowers, Lowers-refl, Lowers-trans, All-Relaxed-later,
}

module _ (graph : ℕ → List Link) (r : ℕ) (vs : List ℕ) (nd : NoDup vs)
    (few : length vs ≤ 0x10000) where
  idle-Followed :
      (s : Calc) (d v : ℕ) (lp : Link)
      → IsBag s.nodes vs s.cand
      → Found graph r vs s.nodes d
      → At graph r vs s.nodes v d
      → Relaxed s.nodes v lp
      → Followed graph r vs nd few s s v d (lp ∷ [])
  idle-Followed s d v lp b f at rel = record {
    bag = b;
    found = f;
    at = at;
    lowers = Lowers-refl s.nodes;
    back = λ x e. e;
    waits = refl;
    relaxed = (rel, tt);
  }

  pub follow-Followed :
      (s : Calc) (d v i : ℕ) (lp : Link)
      → IsBag s.nodes vs s.cand
      → Found graph r vs s.nodes d
      → At graph r vs s.nodes v d
      → Memᴰ lp (graph v)
      → Joins vs lp
      → Followed graph r vs nd few s (follow s v i lp) v d (lp ∷ [])
  unfolding follow
  follow-Followed s d v i (stub_link none c) b f at m j =
      idle-Followed s d v (stub_link none c) b f at tt
  follow-Followed s d v i (stub_link (some rte) c) b f at m j = record {
    bag = b;
    found = f;
    at = at;
    lowers = Lowers-refl s.nodes;
    back = λ x e. e;
    waits = refl;
    relaxed = (tt, tt);
  }
  follow-Followed s d v i (transit_link none c l_data) b f at m j =
      idle-Followed s d v (transit_link none c l_data) b f at tt
  follow-Followed s d v i (transit_link (some w) c l_data) b f at m j =
      relax-Followed graph r vs nd few s d v i w c l_data b f at m j.0 j.1

  pub follow_all-Followed :
      (s : Calc) (d v i : ℕ) (lps : List Link)
      → IsBag s.nodes vs s.cand
      → Found graph r vs s.nodes d
      → At graph r vs s.nodes v d
      → ((lp : Link) → Memᴰ lp lps → Memᴰ lp (graph v))
      → All (Joins vs) lps
      → Followed graph r vs nd few s (follow_all s v i lps) v d lps
  unfolding follow_all
  follow_all-Followed s d v i [] b f at m j = record {
    bag = b;
    found = f;
    at = at;
    lowers = Lowers-refl s.nodes;
    back = λ x e. e;
    waits = refl;
    relaxed = tt;
  }
  follow_all-Followed s d v i (lp ∷ lps) b f at m j =
      let one_on = follow-Followed s d v i lp b f at (m lp (Memᴰ.head refl)) j.0 in
      let rest =
        follow_all-Followed (follow s v i lp) d v (suc i) lps one_on.bag one_on.found one_on.at
          (λ lp' n. m lp' (Memᴰ.tail n)) j.1 in
      record {
        bag = rest.bag;
        found = rest.found;
        at = rest.at;
        lowers = Lowers-trans one_on.lowers rest.lowers;
        back = λ x e. one_on.back x (rest.back x e);
        waits = rest.waits ∙ one_on.waits;
        relaxed = (
          (All-Relaxed-later v (lp ∷ []) rest.lowers one_on.at.on_tree one_on.relaxed).0,
          rest.relaxed,
        );
      }

  -- What holds between two rounds.
  pub record Round (s : Calc) : Type 0 where
    pub bag : IsBag s.nodes vs s.cand
    pub last : ℕ
    pub found : Found graph r vs s.nodes last
    pub closed :
        (u : ℕ) → Memᴰ u vs → (s.nodes u).t_state ≡ ds_ontree → All (Relaxed s.nodes u) (graph u)

  -- The node that leaves the candidates for the tree.
  module _ (s : Calc) (round : Round s) (v : ℕ) (rest : Tree) (m : Memᴰ v vs)
      (cand : IsCandidate (s.nodes v))
      (least : (w : ℕ)
        → Memᴰ w vs
        → IsCandidate (s.nodes w)
        → (s.nodes v).cost0 ≤ (s.nodes w).cost0) where
    abbrev pub placed : TNode
    placed = record (s.nodes v) { t_state = ds_ontree }

    abbrev pub after : ℕ → TNode
    after = put v placed s.nodes

    pub after_cases : (x : ℕ) → ((x ≡ v) × (after x ≡ placed)) ⊎ ((x ≢ v) × (after x ≡ s.nodes x))
    after_cases x = elim (Bool-cases (x == v)) [
      | inl e ↦ inl (ground (arith, e), rw e refl)
      | inr e ↦ inr (ground (arith, e), rw e refl)
    ]

    pub after-Lowers : Lowers s.nodes after
    after-Lowers = record {
      tree = λ x e. elim (after_cases x) [
        | inl (is_v, same) ↦ cc (subst (λ y. (s.nodes y).t_state ≡ ds_ontree) is_v e, cand)
        | inr (ne, same) ↦ rw same (e, refl)
      ];
      known = λ x e. elim (after_cases x) [
        | inl (is_v, same) ↦ rw same (
          (λ u. cc u),
          subst (λ y. (s.nodes v).cost0 ≤ (s.nodes y).cost0) (sym is_v) (omega arith),
        )
        | inr (ne, same) ↦ rw same (e, omega arith)
      ];
      same = λ x. elim (after_cases x) [
        | inl (is_v, same) ↦
            rw same
              (ap (λ y. (s.nodes y).t_links) (sym is_v), ap (λ y. (s.nodes y).t_dest) (sym is_v))
        | inr (ne, same) ↦ rw same (refl, refl)
      ];
    }

    after-waiting : suc (waiting after vs) ≡ waiting s.nodes vs
    after-waiting = omega (
      arith,
      total-put off_tree placed s.nodes v vs nd m,
      off_tree-other v (s.nodes v) (λ u. cc (u, cand)),
    )

    at_v :
        (P : ℕ → TNode → Type 0) → P v placed → (x : ℕ) → x ≡ v → after x ≡ placed → P x (after x)
    at_v P p x is_v same = rw same (subst (λ y. P y placed) (sym is_v) p)

    known_v : (s.nodes v).t_state ≢ ds_uninit
    known_v u = cc (u, cand)

    pub after-Found : Found graph r vs after (s.nodes v).cost0
    after-Found =
        let f = round.found in
        record {
          links = λ x. elim (after_cases x) [
            | inl (is_v, same) ↦ at_v (λ y n. n.t_links ≡ graph y) (f.links v) x is_v same
            | inr (ne, same) ↦ rw same (f.links x)
          ];
          walks = λ x n e. elim (after_cases x) [
            | inl (is_v, same) ↦
                at_v (λ y a. Walk graph r y a.cost0) (f.walks v m known_v) x is_v same
            | inr (ne, same) ↦ rw same (f.walks x n (subst (λ a. a.t_state ≢ ds_uninit) same e))
          ];
          near = λ x n e. elim (after_cases x) [
            | inl (is_v, same) ↦ rw same (omega arith)
            | inr (ne, same) ↦ rw same (
                omega
                  (arith, f.near x n (subst (λ a. a.t_state ≡ ds_ontree) same e), f.far v m cand))
          ];
          far = λ x n e. elim (after_cases x) [
            | inl (is_v, same) ↦ cc (subst (λ a. a.t_state ≡ ds_oncand) same e)
            | inr (ne, same) ↦ rw same (least x n (subst (λ a. a.t_state ≡ ds_oncand) same e))
          ];
          small = λ x n e. elim (after_cases x) [
            | inl (is_v, same) ↦ rw same (omega (arith, after-waiting, f.small v m known_v))
            | inr (ne, same) ↦ rw same (
                omega
                  (arith, after-waiting, f.small x n (subst (λ a. a.t_state ≢ ds_uninit) same e)))
          ];
          root =
              let (known, low) = after-Lowers.known r f.root.0 in
              (known, omega (arith, low, f.root.1));
        }

    pub after-At : At graph r vs after v (s.nodes v).cost0
    after-At =
        let here = put_self placed s.nodes v in
        record {
          listed = m;
          on_tree = rw here refl;
          cost = rw here refl;
          slack = omega (arith, after-waiting, round.found.small v m known_v);
        }

    pub after-IsBag :
        IsQueue rest
        → ((pass : Item → Bool)
            → count pass rest + one (pass (item_of v (s.nodes v))) ≡ tally pass s.nodes vs)
        → IsBag after vs rest
    after-IsBag q h = record {
      queue = q;
      holds = λ pass. omega (
        arith,
        h pass,
        total-put (λ y a. one (passes pass y a)) placed s.nodes v vs nd m,
        ap one (passes-candidate pass v (s.nodes v) cand),
        ap one (passes-other pass v placed (λ u. cc u)),
      );
    }

    closed_at :
        {t0 : Calc} (t : Calc)
        → t0.nodes ≡ after
        → Followed graph r vs nd few t0 t v (s.nodes v).cost0 (graph v)
        → (u : ℕ) → Memᴰ u vs
        → (t0.nodes u).t_state ≡ ds_ontree
        → ((u ≡ v) × (after u ≡ placed)) ⊎ ((u ≢ v) × (after u ≡ s.nodes u))
        → All (Relaxed t.nodes u) (graph u)
    closed_at t from done u n e (inl (is_v, same)) =
        subst (λ y. All (Relaxed t.nodes y) (graph y)) (sym is_v) done.relaxed
    closed_at {t0} t from done u n e (inr (ne, same)) =
        let e' : (s.nodes u).t_state ≡ ds_ontree =
          subst (λ a. a.t_state ≡ ds_ontree) (ap (λ (g : ℕ → TNode). g u) from ∙ same) e in
        All-Relaxed-later u (graph u)
          (Lowers-trans after-Lowers (subst (λ g. Lowers g t.nodes) from done.lowers)) e'
          (round.closed u n e')

    -- A round that takes `v` from the candidates.
    pub visit-Round :
        IsQueue rest
        → ((pass : Item → Bool)
            → count pass rest + one (pass (item_of v (s.nodes v))) ≡ tally pass s.nodes vs)
        → All (Joins vs) (graph v)
        → let t = visit v (record s { cand = rest }) in
          Round t × (suc (waiting t.nodes vs) ≤ waiting s.nodes vs)
    unfolding visit settle_node
    visit-Round q h joins =
        let t0 : Calc = settle_node v (record s { cand = rest }) in
        let links : (t0.nodes v).t_links ≡ graph v = after-Found.links v in
        let done =
          follow_all-Followed t0 (s.nodes v).cost0 v 0 (graph v) (after-IsBag q h) after-Found
            after-At (λ lp n. n) joins in
        let t : Calc = follow_all t0 v 0 (graph v) in
        rw links (
          record {
            bag = done.bag;
            last = (s.nodes v).cost0;
            found = done.found;
            closed = λ u n e. closed_at t refl done u n (done.back u e) (after_cases u);
          },
          omega (arith, done.waits, after-waiting),
        )
