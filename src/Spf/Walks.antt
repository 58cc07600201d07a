-- ===== src/Spf/Walks.antt =====
-- THospf/ospfCalc.cpp: the walks of the network that the nodes' links make, and what the
-- calculation may do to the nodes.
use ospfbasic.Prelude.{ℕ, ◌+◌, ◌≤◌, ◌≡◌, ◌≢◌, refl, ◌∙◌, List, [], ◌∷◌, none, some, arith, All}
use mathlib.Core.List.{Memᴰ}
use ospfbasic.Routes.{TNode, Link, stub_link, transit_link, ds_uninit, ds_ontree}
use ospfbasic.Spf.Sums.{total}

-- The walks from `r` along links to nodes, with what they cost.
pub data Walk (graph : ℕ → List Link) (r : ℕ) : ℕ → ℕ → Type 0 where
  stay : Walk graph r r 0
  go_on :
      {u v c w l_data : ℕ}
      → Walk graph r u c
      → Memᴰ (transit_link (some v) w l_data) (graph u)
      → Walk graph r v (c + w)

abbrev pub max_cost : ℕ
max_cost = 0xffff

-- `uns16` costs and links within the lists of advertisements.
abbrev pub Joins : List ℕ → Link → Type 0
Joins vs (stub_link rte c) = c ≤ max_cost
Joins vs (transit_link none c l_data) = Unit {0}
Joins vs (transit_link (some w) c l_data) = Memᴰ w vs × (c ≤ max_cost)

-- Node `u`, on the tree, has offered its way over a link.
abbrev pub Relaxed : (ℕ → TNode) → ℕ → Link → Type 0
Relaxed nodes u (stub_link rte c) = Unit {0}
Relaxed nodes u (transit_link none c l_data) = Unit {0}
Relaxed nodes u (transit_link (some w) c l_data) =
    ((nodes w).t_state ≢ ds_uninit) × ((nodes w).cost0 ≤ (nodes u).cost0 + c)

-- How many nodes are not on the tree yet.
abbrev pub off_tree : ℕ → TNode → ℕ
off_tree v n = elim n.t_state [ ds_ontree ↦ 0 | _ ↦ 1 ]

abbrev pub waiting : (ℕ → TNode) → List ℕ → ℕ
waiting = total off_tree

-- What one state of the nodes may become: the tree stays, costs only fall.
pub record Lowers (a b : ℕ → TNode) : Type 0 where
  pub tree :
      (x : ℕ)
      → (a x).t_state ≡ ds_ontree
      → ((b x).t_state ≡ ds_ontree) × ((b x).cost0 ≡ (a x).cost0)
  pub known :
      (x : ℕ)
      → (a x).t_state ≢ ds_uninit
      → ((b x).t_state ≢ ds_uninit) × ((b x).cost0 ≤ (a x).cost0)
  pub same : (x : ℕ) → ((b x).t_links ≡ (a x).t_links) × ((b x).t_dest ≡ (a x).t_dest)

pub Lowers-refl : (a : ℕ → TNode) → Lowers a a
Lowers-refl a = record {
  tree = λ x e. (e, refl);
  known = λ x e. (e, omega arith);
  same = λ x. (refl, refl);
}

pub Lowers-trans : {a b c : ℕ → TNode} → Lowers a b → Lowers b c → Lowers a c
Lowers-trans h k = record {
  tree =
      λ x e. let (e', same) = h.tree x e in let (e'', same') = k.tree x e' in (e'', same' ∙ same);
  known = λ x e.
      let (e', le) = h.known x e in let (e'', le') = k.known x e' in (e'', omega (arith, le, le'));
  same = λ x. ((k.same x).0 ∙ (h.same x).0, (k.same x).1 ∙ (h.same x).1);
}

pub Relaxed-later :
    {a b : ℕ → TNode} (u : ℕ) (lp : Link)
    → Lowers a b
    → (a u).t_state ≡ ds_ontree
    → Relaxed a u lp
    → Relaxed b u lp
Relaxed-later u (stub_link rte c) h e r = tt
Relaxed-later u (transit_link none c l_data) h e r = tt
Relaxed-later u (transit_link (some w) c l_data) h e r =
    let (known, le) = h.known w r.0 in (known, omega (arith, le, (h.tree u e).1, r.1))

pub All-Relaxed-later :
    {a b : ℕ → TNode} (u : ℕ) (lps : List Link)
    → Lowers a b
    → (a u).t_state ≡ ds_ontree
    → All (Relaxed a u) lps
    → All (Relaxed b u) lps
All-Relaxed-later u [] h e r = tt
All-Relaxed-later u (lp ∷ lps) h e r = (Relaxed-later u lp h e r.0, All-Relaxed-later u lps h e r.1)
