-- ===== src/Spf/Filing.antt =====
-- THospf/ospfCalc.cpp: the routing table entries over one round of `OSPF::dijkstra`.
use ospfbasic.Prelude.{
  ℕ, ◌+◌, ◌%◌, ◌^◌, ◌≤◌, ◌≡◌, ◌≢◌, refl, sym, ap, subst, ◌∙◌, ◌⊎◌, inl, inr, Bool, false, List,
  arith, Bool-cases, ◌==◌, All, length,
}
use mathlib.Core.List.{Memᴰ}
use ospfbasic.Queue.{Item, Tree}
use ospfbasic.Queue.Contents.{count, one}
use ospfbasic.Queue.Least.{IsQueue}
use ospfbasic.Routes.{TNode, Link, RtrTblEntry, Ospf, new_intra, lst_rtr, ds_ontree}
use ospfbasic.Routes.Offers.{Entered, Files, new_intra-Files}
use ospfbasic.Spf.{Calc, put, item_of, follow_all, settle_node, visit}
use ospfbasic.Spf.Bag.{IsCandidate}
use ospfbasic.Spf.Sums.{NoDup, tally, put_self}
use ospfbasic.Spf.Walks.{Joins, Lowers, Lowers-trans}
use ospfbasic.Spf.Rounds.{
  Round, follow_all-Followed, after, placed, after_cases, after-Lowers, after-Found, after-At,
  after-IsBag,
}
use ospfbasic.Spf.Entries.{
  Filed, Source, of_node, Source-later, Sources, Later, All-Filed-Later, put-Later, put-Sources,
  put-here, follow_all-FilesLinks,
}

module _ (graph : ℕ → List Link) (r : ℕ) (vs : List ℕ) (nd : NoDup vs) (few : length vs ≤ 0x10000)
    (run : ℕ) where
  -- The entries between two rounds.
  pub record Tabled (s : Calc) : Type 0 where
    pub here : s.ospf.n_dijkstras % 2 ≡ run
    pub sources : Sources vs run s.nodes s.entries
    pub filed :
        (u : ℕ)
        → Memᴰ u vs
        → (s.nodes u).t_state ≡ ds_ontree
        → Entered run (s.nodes u).cost0 (s.entries (s.nodes u).t_dest)
          × All (Filed run s.entries (s.nodes u).cost0) (graph u)

  -- What a node on the tree has filed, at a later time.
  node-Filed :
      {a b : ℕ → TNode} {ea eb : ℕ → RtrTblEntry} (u : ℕ)
      → Lowers a b
      → Later vs run ea eb
      → (a u).t_state ≡ ds_ontree
      → Entered run (a u).cost0 (ea (a u).t_dest) × All (Filed run ea (a u).cost0) (graph u)
      → Entered run (b u).cost0 (eb (b u).t_dest) × All (Filed run eb (b u).cost0) (graph u)
  node-Filed {a} {b} {ea} {eb} u low later e (own, all) =
      let cost = (low.tree u e).1 in
      rw (cost, (low.same u).1)
        (later (a u).t_dest (a u).cost0 own, All-Filed-Later vs run (a u).cost0 (graph u) later all)

  settle_node-run : (v : ℕ) (s : Calc) → (settle_node v s).ospf.n_dijkstras ≡ s.ospf.n_dijkstras
  unfolding settle_node
  settle_node-run v s = elim (Bool-cases ((s.nodes v).lsa_type == lst_rtr)) [
    | inl e ↦ rw e refl
    | inr e ↦ rw e refl
  ]

  module _ (s : Calc) (round : Round graph r vs nd few s) (v : ℕ) (rest : Tree) (m : Memᴰ v vs)
      (cand : IsCandidate (s.nodes v))
      (least : (w : ℕ)
        → Memᴰ w vs
        → IsCandidate (s.nodes w)
        → (s.nodes v).cost0 ≤ (s.nodes w).cost0)
      (q : IsQueue rest)
      (h : (pass : Item → Bool)
        → count pass rest + one (pass (item_of v (s.nodes v))) ≡ tally pass s.nodes vs)
      (joins : All (Joins vs) (graph v)) where
    abbrev next : TNode
    next = placed graph r vs nd few s round v rest m cand least

    abbrev nodes : ℕ → TNode
    nodes = after graph r vs nd few s round v rest m cand least

    abbrev dest : ℕ
    dest = (s.nodes v).t_dest

    abbrev entry : RtrTblEntry
    entry = new_intra s.ospf v next false 0 0 (s.entries dest)

    entry-Files : Tabled s → Files run (s.nodes v).cost0 (s.entries dest) entry
    entry-Files tab =
        let exact : ((s.nodes v).cost0 + 0) % 2 ^ 32 ≡ (s.nodes v).cost0 =
          omega (arith, (after-At graph r vs nd few s round v rest m cand least).slack, few) in
        subst (λ k. Files run k (s.entries dest) entry) exact
          (subst (λ k. Files k (((s.nodes v).cost0 + 0) % 2 ^ 32) (s.entries dest) entry) tab.here
            (new_intra-Files s.ospf v next false 0 0 (s.entries dest)))

    lowers : Lowers s.nodes nodes
    lowers = after-Lowers graph r vs nd few s round v rest m cand least

    settled-Sources : Tabled s → Sources vs run nodes (put dest entry s.entries)
    settled-Sources tab =
        let here : nodes v ≡ next = put_self next s.nodes v in
        let from : Source vs nodes dest (s.nodes v).cost0 =
          subst (Source vs nodes dest) (ap (λ (n : TNode). n.cost0) here)
            (of_node m (ap (λ (n : TNode). n.t_state) here) (ap (λ (n : TNode). n.t_dest) here)) in
        put-Sources vs run nodes s.entries dest (s.nodes v).cost0 entry (entry-Files tab) from
          (λ x cur. Source-later lowers (tab.sources x cur))

    settled-Entered :
        (t : Calc)
        → Tabled s
        → Later vs run (put dest entry s.entries) t.entries
        → Lowers nodes t.nodes
        → All (Filed run t.entries (s.nodes v).cost0) (graph v)
        → Entered run (t.nodes v).cost0 (t.entries (t.nodes v).t_dest)
          × All (Filed run t.entries (t.nodes v).cost0) (graph v)
    settled-Entered t tab later low all =
        let here : nodes v ≡ next = put_self next s.nodes v in
        let cost : (t.nodes v).cost0 ≡ (s.nodes v).cost0 =
          (low.tree v (ap (λ (n : TNode). n.t_state) here)).1 ∙ ap (λ (n : TNode). n.cost0) here in
        let to : (t.nodes v).t_dest ≡ dest = (low.same v).1 ∙ ap (λ (n : TNode). n.t_dest) here in
        rw (cost, to)
          (
            later dest (s.nodes v).cost0
                (put-here vs run s.entries dest (s.nodes v).cost0 entry (entry-Files tab)),
            all,
          )

    visit-Entered :
        (t : Calc)
        → Tabled s
        → Later vs run (put dest entry s.entries) t.entries
        → Lowers nodes t.nodes
        → All (Filed run t.entries (s.nodes v).cost0) (graph v)
        → (u : ℕ) → Memᴰ u vs
        → (nodes u).t_state ≡ ds_ontree
        → ((u ≡ v) × (nodes u ≡ next)) ⊎ ((u ≢ v) × (nodes u ≡ s.nodes u))
        → Entered run (t.nodes u).cost0 (t.entries (t.nodes u).t_dest)
          × All (Filed run t.entries (t.nodes u).cost0) (graph u)
    visit-Entered t tab later low all u n e (inl (is_v, same)) =
        subst
          (λ y.
            Entered run (t.nodes y).cost0 (t.entries (t.nodes y).t_dest)
            × All (Filed run t.entries (t.nodes y).cost0) (graph y))
          (sym is_v) (settled-Entered t tab later low all)
    visit-Entered t tab later low all u n e (inr (ne, same)) =
        let e' : (s.nodes u).t_state ≡ ds_ontree = subst (λ a. a.t_state ≡ ds_ontree) same e in
        node-Filed u (Lowers-trans lowers low)
          (λ x c k.
            later x c
              (put-Later vs run s.entries dest (s.nodes v).cost0 entry (entry-Files tab) x c k))
          e' (tab.filed u n e')

    pub visit-Tabled : Tabled s → Tabled (visit v (record s { cand = rest }))
    unfolding visit settle_node
    visit-Tabled tab =
        let t0 : Calc = settle_node v (record s { cand = rest }) in
        let found = after-Found graph r vs nd few s round v rest m cand least in
        let at = after-At graph r vs nd few s round v rest m cand least in
        let bag = after-IsBag graph r vs nd few s round v rest m cand least q h in
        let d = (s.nodes v).cost0 in
        let here0 : t0.ospf.n_dijkstras % 2 ≡ run =
          ap (λ k. k % 2) (settle_node-run v (record s { cand = rest })) ∙ tab.here in
        let links : (t0.nodes v).t_links ≡ graph v = found.links v in
        let t : Calc = follow_all t0 v 0 (graph v) in
        let done =
          follow_all-Followed graph r vs nd few t0 d v 0 (graph v) bag found at (λ lp n. n) joins in
        let files =
          follow_all-FilesLinks graph r vs nd few run t0 d v 0 (graph v) bag found at (λ lp n. n)
            joins here0 (settled-Sources tab) in
        rw links (record {
          here = ap (λ (o : Ospf). o.n_dijkstras % 2) files.ospf ∙ here0;
          sources = files.sources;
          filed = λ u n e.
              visit-Entered t tab files.later done.lowers files.filed u n (done.back u e)
                (after_cases graph r vs nd few s round v rest m cand least u);
        })
