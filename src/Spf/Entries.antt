-- ===== src/Spf/Entries.antt =====
-- THospf/ospfCalc.cpp: the routing table entries over the rounds of `OSPF::dijkstra`.
use ospfbasic.Prelude.{
  ℕ, suc, ◌+◌, ◌%◌, ◌^◌, ◌≤◌, ◌≡◌, refl, sym, ap, subst, ◌∙◌, inl, inr, true, List, [], ◌∷◌, none,
  some, arith, Bool-cases, ◌==◌, All, length,
}
use mathlib.Core.List.{Memᴰ}
use ospfbasic.Routes.{TNode, Link, stub_link, transit_link, RtrTblEntry, Ospf, new_intra, ds_ontree}
use ospfbasic.Routes.Offers.{IsCurrent, Entered, Files, new_intra-Files}
use ospfbasic.Spf.{Calc, put, follow, follow_all, relax, reach, join}
use ospfbasic.Spf.Bag.{IsBag}
use ospfbasic.Spf.Sums.{NoDup}
use ospfbasic.Spf.Search.{Found, At}
use ospfbasic.Spf.Walks.{Joins, Lowers}
use ospfbasic.Spf.Rounds.{follow-Followed}

-- The entry of a stub link has been offered the cost of its node and of the link.
abbrev pub Filed : ℕ → (ℕ → RtrTblEntry) → ℕ → Link → Type 0
Filed run entries cost (stub_link none c) = Unit {0}
Filed run entries cost (stub_link (some x) c) = Entered run (cost + c) (entries x)
Filed run entries cost (transit_link nbr c l_data) = Unit {0}

-- A node on the tree whose own entry or whose stub link's entry is at `x`, and the cost it offers.
pub data Source (vs : List ℕ) (nodes : ℕ → TNode) (x : ℕ) : ℕ → Type 0 where
  of_node :
      {u : ℕ}
      → Memᴰ u vs
      → (nodes u).t_state ≡ ds_ontree
      → (nodes u).t_dest ≡ x
      → Source vs nodes x (nodes u).cost0
  of_stub :
      {u w : ℕ}
      → Memᴰ u vs
      → (nodes u).t_state ≡ ds_ontree
      → Memᴰ (stub_link (some x) w) (nodes u).t_links
      → Source vs nodes x ((nodes u).cost0 + w)

pub Source-later :
    {vs : List ℕ} {a b : ℕ → TNode} {x c : ℕ} → Lowers a b → Source vs a x c → Source vs b x c
Source-later {vs} {a} {b} {x} h (of_node {u} m e d) =
    let (e', cost) = h.tree u e in subst (Source vs b x) cost (of_node m e' ((h.same u).1 ∙ d))
Source-later {vs} {a} {b} {x} h (of_stub {u} {w} m e l) =
    let (e', cost) = h.tree u e in
    subst (Source vs b x) (ap (λ k. k + w) cost)
      (of_stub m e' (subst (Memᴰ (stub_link (some x) w)) (sym (h.same u).0) l))

module _ (vs : List ℕ) (run : ℕ) where
  -- What the entries may become in the run.
  abbrev pub Later : (ℕ → RtrTblEntry) → (ℕ → RtrTblEntry) → Type 0
  Later a b = (x c : ℕ) → Entered run c (a x) → Entered run c (b x)

  abbrev pub Sources : (ℕ → TNode) → (ℕ → RtrTblEntry) → Type 0
  Sources nodes entries = (x : ℕ) → IsCurrent run (entries x) → Source vs nodes x (entries x).cost

  Filed-Later :
      {a b : ℕ → RtrTblEntry} (cost : ℕ) (lp : Link)
      → Later a b
      → Filed run a cost lp
      → Filed run b cost lp
  Filed-Later cost (stub_link none c) h f = tt
  Filed-Later cost (stub_link (some x) c) h f = h x (cost + c) f
  Filed-Later cost (transit_link nbr c l_data) h f = tt

  pub All-Filed-Later :
      {a b : ℕ → RtrTblEntry} (cost : ℕ) (lps : List Link)
      → Later a b
      → All (Filed run a cost) lps
      → All (Filed run b cost) lps
  All-Filed-Later cost [] h f = tt
  All-Filed-Later cost (lp ∷ lps) h f = (Filed-Later cost lp h f.0, All-Filed-Later cost lps h f.1)

  -- A write of what `new_intra` makes of an entry.
  pub put-Later :
      (entries : ℕ → RtrTblEntry) (y total_cost : ℕ) (e : RtrTblEntry)
      → Files run total_cost (entries y) e
      → Later entries (put y e entries)
  put-Later entries y total_cost e f x c h = elim (Bool-cases (x == y)) [
    | inl same ↦
        let is_y : x ≡ y = ground (arith, same) in
        rw same (f.keeps c (subst (λ z. Entered run c (entries z)) is_y h))
    | inr other ↦ rw other h
  ]

  pub put-Sources :
      (nodes : ℕ → TNode) (entries : ℕ → RtrTblEntry) (y total_cost : ℕ) (e : RtrTblEntry)
      → Files run total_cost (entries y) e
      → Source vs nodes y total_cost
      → Sources nodes entries
      → Sources nodes (put y e entries)
  put-Sources nodes entries y total_cost e f from h x = elim (Bool-cases (x == y)) [
    | inl same ↦
        let is_y : x ≡ y = ground (arith, same) in
        rw (same, is_y)
          (λ cur. elim (f.origin cur) [
            | inl new ↦ subst (Source vs nodes y) (sym new) from
            | inr (old, kept) ↦ subst (Source vs nodes y) (sym kept) (h y old)
          ])
    | inr other ↦ rw other (h x)
  ]

  pub put-here :
      (entries : ℕ → RtrTblEntry) (y total_cost : ℕ) (e : RtrTblEntry)
      → Files run total_cost (entries y) e
      → Entered run total_cost (put y e entries y)
  put-here entries y total_cost e f = let same : (y == y) ≡ true = ground arith in rw same f.enters

-- A transit link changes no entry.
relax-entries :
    (s : Calc) (v i w c : ℕ)
    → ((relax s v i w c).entries ≡ s.entries) × ((relax s v i w c).ospf ≡ s.ospf)
unfolding relax reach join
relax-entries s v i w c = ground arith

module _ (graph : ℕ → List Link) (r : ℕ) (vs : List ℕ) (nd : NoDup vs) (few : length vs ≤ 0x10000)
    (run : ℕ) where
  -- What following links does to the entries.
  pub record FilesLinks (s t : Calc) (cost : ℕ) (lps : List Link) : Type 0 where
    pub ospf : t.ospf ≡ s.ospf
    pub later : Later vs run s.entries t.entries
    pub sources : Sources vs run t.nodes t.entries
    pub filed : All (Filed run t.entries cost) lps

  idle-FilesLinks :
      (s t : Calc) (d : ℕ) (lp : Link)
      → t.ospf ≡ s.ospf
      → t.entries ≡ s.entries
      → Lowers s.nodes t.nodes
      → Sources vs run s.nodes s.entries
      → ((entries : ℕ → RtrTblEntry) → Filed run entries d lp)
      → FilesLinks s t d (lp ∷ [])
  idle-FilesLinks s t d lp o e low h f = record {
    ospf = o;
    later = λ x c k. rw e k;
    sources = subst (Sources vs run t.nodes) (sym e) (λ x cur. Source-later low (h x cur));
    filed = (f t.entries, tt);
  }

  follow-FilesLinks :
      (s : Calc) (d v i : ℕ) (lp : Link)
      → At graph r vs s.nodes v d
      → Memᴰ lp (s.nodes v).t_links
      → Joins vs lp
      → s.ospf.n_dijkstras % 2 ≡ run
      → Lowers s.nodes (follow s v i lp).nodes
      → Sources vs run s.nodes s.entries
      → FilesLinks s (follow s v i lp) d (lp ∷ [])
  unfolding follow
  follow-FilesLinks s d v i (stub_link none c) at m j here low h =
      idle-FilesLinks s s d (stub_link none c) refl refl low h (λ _. tt)
  follow-FilesLinks s d v i (transit_link none c l_data) at m j here low h =
      idle-FilesLinks s s d (transit_link none c l_data) refl refl low h (λ _. tt)
  follow-FilesLinks s d v i (transit_link (some w) c l_data) at m j here low h =
      let (e, o) = relax-entries s v i w c in
      idle-FilesLinks s (relax s v i w c) d (transit_link (some w) c l_data) o e low h (λ _. tt)
  follow-FilesLinks s d v i (stub_link (some x) c) at m j here low h =
      let e' : RtrTblEntry = new_intra s.ospf v (s.nodes v) true c i (s.entries x) in
      let exact : ((s.nodes v).cost0 + c) % 2 ^ 32 ≡ (s.nodes v).cost0 + c =
        omega (arith, at.cost, at.slack, j, few) in
      let files : Files run ((s.nodes v).cost0 + c) (s.entries x) e' =
        subst (λ k. Files run k (s.entries x) e') exact
          (subst (λ k. Files k (((s.nodes v).cost0 + c) % 2 ^ 32) (s.entries x) e') here
            (new_intra-Files s.ospf v (s.nodes v) true c i (s.entries x))) in
      record {
        ospf = refl;
        later = put-Later vs run s.entries x ((s.nodes v).cost0 + c) e' files;
        sources =
            put-Sources vs run s.nodes s.entries x ((s.nodes v).cost0 + c) e' files
              (of_stub at.listed at.on_tree m) h;
        filed = (
          subst (λ k. Entered run (k + c) (put x e' s.entries x)) at.cost
              (put-here vs run s.entries x ((s.nodes v).cost0 + c) e' files),
          tt,
        );
      }

  pub follow_all-FilesLinks :
      (s : Calc) (d v i : ℕ) (lps : List Link)
      → IsBag s.nodes vs s.cand
      → Found graph r vs s.nodes d
      → At graph r vs s.nodes v d
      → ((lp : Link) → Memᴰ lp lps → Memᴰ lp (graph v))
      → All (Joins vs) lps
      → s.ospf.n_dijkstras % 2 ≡ run
      → Sources vs run s.nodes s.entries
      → FilesLinks s (follow_all s v i lps) d lps
  unfolding follow_all
  follow_all-FilesLinks s d v i [] b f at m j here h = record {
    ospf = refl;
    later = λ x c k. k;
    sources = h;
    filed = tt;
  }
  follow_all-FilesLinks s d v i (lp ∷ lps) b f at m j here h =
      let one_on =
        follow-Followed graph r vs nd few s d v i lp b f at (m lp (Memᴰ.head refl)) j.0 in
      let files =
        follow-FilesLinks s d v i lp at (subst (Memᴰ lp) (sym (f.links v)) (m lp (Memᴰ.head refl)))
          j.0 here one_on.lowers h in
      let rest =
        follow_all-FilesLinks (follow s v i lp) d v (suc i) lps one_on.bag one_on.found one_on.at
          (λ lp' n. m lp' (Memᴰ.tail n)) j.1
          (ap (λ (o : Ospf). o.n_dijkstras % 2) files.ospf ∙ here) files.sources in
      record {
        ospf = rest.ospf ∙ files.ospf;
        later = λ x c k. rest.later x c (files.later x c k);
        sources = rest.sources;
        filed = ((All-Filed-Later vs run d (lp ∷ []) rest.later files.filed).0, rest.filed);
      }
