-- ===== src/Spf/Moves.antt =====
-- THospf/ospfCalc.cpp: what one link of a node on the tree does to the nodes and the candidates.
use ospfbasic.Prelude.{
  ℕ, ◌+◌, ◌%◌, ◌^◌, ◌≤◌, ◌<◌, ◌≡◌, ◌≢◌, refl, ◌∙◌, ◌⊎◌, inl, inr, Bool, true, List, arith,
  Bool-cases, Option-cases, ltb,
}
use mathlib.Core.List.{Memᴰ}
use ospfbasic.Queue.{Item, Tree, add}
use ospfbasic.Queue.Contents.{count, one}
use ospfbasic.Queue.Least.{IsQueue, add-inserts}
use ospfbasic.Routes.{TNode, DijkState, ds_uninit, ds_oncand, ds_ontree, is_root}
use ospfbasic.Spf.{
  Calc, item_of, del_elt, put, add_next_hop, new_next_hop, improve, reach, join, relax,
}
use ospfbasic.Spf.Bag.{IsBag, passes-candidate, passes-other, del_elt-takes}
use ospfbasic.Spf.Sums.{NoDup, tally, passes, total-put, put_self, put_other}

-- What `add_next_hop` and `t_direct` leave alone.
pub record Agrees (a b : TNode) : Type 0 where
  pub state : a.t_state ≡ b.t_state
  pub links : a.t_links ≡ b.t_links
  pub dest : a.t_dest ≡ b.t_dest
  pub cost : a.cost0 ≡ b.cost0
  pub item : (v : ℕ) → item_of v a ≡ item_of v b

abbrev pub agrees_refl : (a : TNode) → Agrees a a
agrees_refl a = record { state = refl; links = refl; dest = refl; cost = refl; item = λ v. refl }

add_next_hop-Agrees : (s : Calc) (v i : ℕ) (n : TNode) → Agrees (add_next_hop s v i n) n
unfolding add_next_hop item_of
add_next_hop-Agrees s v i n = elim (Option-cases (new_next_hop s v n i)) [
  | inl e ↦ rw (e, add_next_hop) (agrees_refl n)
  | inr (p, e) ↦
      rw (e, add_next_hop)
        record { state = refl; links = refl; dest = refl; cost = refl; item = λ u. refl }
]

-- The node that a better way leaves.
pub record Reached (a b : TNode) (new_cost : ℕ) : Type 0 where
  pub state : a.t_state ≡ ds_oncand
  pub links : a.t_links ≡ b.t_links
  pub dest : a.t_dest ≡ b.t_dest
  pub cost : a.cost0 ≡ new_cost

-- What may happen to a node: it keeps its state and cost, which is no higher than the new one
-- for a candidate, or it becomes a candidate of the new cost.
pub data Outcome (a b : TNode) (new_cost : ℕ) : Type 0 where
  kept :
      Agrees a b
      → b.t_state ≢ ds_uninit
      → (b.t_state ≡ ds_oncand → b.cost0 ≤ new_cost)
      → Outcome a b new_cost
  better :
      Reached a b new_cost
      → b.t_state ≢ ds_ontree
      → (b.t_state ≡ ds_oncand → new_cost < b.cost0)
      → Outcome a b new_cost

pub record Moves (vs : List ℕ) (w new_cost : ℕ) (s t : Calc) : Type 0 where
  pub bag : IsBag t.nodes vs t.cand
  pub others : (x : ℕ) → x ≢ w → t.nodes x ≡ s.nodes x
  pub outcome : Outcome (t.nodes w) (s.nodes w) new_cost

pub state_cases :
    (n : TNode) → (n.t_state ≡ ds_uninit) ⊎ ((n.t_state ≡ ds_oncand) ⊎ (n.t_state ≡ ds_ontree))
state_cases n = go n.t_state
  where
    go : (d : DijkState) → (d ≡ ds_uninit) ⊎ ((d ≡ ds_oncand) ⊎ (d ≡ ds_ontree))
    go ds_uninit = inl refl
    go ds_oncand = inr (inl refl)
    go ds_ontree = inr (inr refl)

module _ (vs : List ℕ) (nd : NoDup vs) where
  -- A write to a node and a queue that follows it.
  IsBag-change :
      (nodes : ℕ → TNode) (n : TNode) (w : ℕ) (t : Tree)
      → Memᴰ w vs
      → IsQueue t
      → ((pass : Item → Bool)
          → count pass t + one (passes pass w (nodes w))
            ≡ tally pass nodes vs + one (passes pass w n))
      → IsBag (put w n nodes) vs t
  IsBag-change nodes n w t m q h = record {
    queue = q;
    holds =
        λ pass. omega (arith, h pass, total-put (λ v a. one (passes pass v a)) n nodes w vs nd m);
  }

  -- A better way, with a queue of the other candidates.
  reach-Moves :
      (s : Calc) (v i w new_cost : ℕ) (queue : Tree)
      → Memᴰ w vs
      → IsQueue queue
      → ((pass : Item → Bool)
          → count pass queue + one (passes pass w (s.nodes w)) ≡ tally pass s.nodes vs)
      → (s.nodes w).t_state ≢ ds_ontree
      → ((s.nodes w).t_state ≡ ds_oncand → new_cost < (s.nodes w).cost0)
      → Moves vs w new_cost s (reach s v i w new_cost queue)
  unfolding reach improve
  reach-Moves s v i w new_cost queue m q h off lt =
      let first : TNode = improve s v new_cost (s.nodes w) in
      let mid : Calc = record s {
        nodes = put w first s.nodes;
        cand = add (item_of w first) queue;
      } in
      let last : TNode = add_next_hop mid v i first in
      let same : Agrees last first = add_next_hop-Agrees mid v i first in
      let (q', counts) = add-inserts (item_of w first) queue q in
      record {
        bag = IsBag-change s.nodes last w _ m q' (λ pass.
            rw (passes-candidate pass w last same.state)
              (rw (same.item w) (omega (arith, counts pass, h pass))));
        others = λ x ne. put_other last s.nodes w x ne;
        outcome = rw (put_self last s.nodes w) (
            better
              record { state = same.state; links = same.links; dest = same.dest; cost = same.cost }
              off lt);
      }

  -- A node that agrees with what was there.
  same-Moves :
      (s : Calc) (n : TNode) (w new_cost : ℕ)
      → Memᴰ w vs
      → IsBag s.nodes vs s.cand
      → Agrees n (s.nodes w)
      → (s.nodes w).t_state ≡ ds_oncand
      → (s.nodes w).cost0 ≤ new_cost
      → Moves vs w new_cost s (record s { nodes = put w n s.nodes })
  same-Moves s n w new_cost m b same cand le = record {
    bag = IsBag-change s.nodes n w s.cand m b.queue (λ pass.
        rw
          (
            passes-candidate pass w n (same.state ∙ cand),
            passes-candidate pass w (s.nodes w) cand,
            same.item w,
            b.holds pass,
          )
          refl);
    others = λ x ne. put_other n s.nodes w x ne;
    outcome = rw (put_self n s.nodes w) (kept same (λ e. cc (e, cand)) (λ _. le));
  }

  join-Moves :
      (s : Calc) (v i w new_cost : ℕ)
      → Memᴰ w vs
      → IsBag s.nodes vs s.cand
      → (s.nodes w).t_state ≡ ds_oncand
      → (s.nodes w).cost0 ≤ new_cost
      → Moves vs w new_cost s (join s v i w)
  unfolding join item_of
  join-Moves s v i w new_cost m b cand le = elim (Bool-cases (is_root s.ospf v)) [
    | inl e ↦
        let direct : TNode = record (s.nodes w) { t_direct = true } in
        let same : Agrees (add_next_hop s v i direct) direct = add_next_hop-Agrees s v i direct in
        rw (e, join)
          (same-Moves s (add_next_hop s v i direct) w new_cost m b
            record {
              state = same.state;
              links = same.links;
              dest = same.dest;
              cost = same.cost;
              item = same.item;
            }
            cand le)
    | inr e ↦
        rw (e, join)
          (same-Moves s (add_next_hop s v i (s.nodes w)) w new_cost m b
            (add_next_hop-Agrees s v i (s.nodes w)) cand le)
  ]

  idle-Moves :
      (s : Calc) (w new_cost : ℕ)
      → IsBag s.nodes vs s.cand
      → (s.nodes w).t_state ≢ ds_uninit
      → ((s.nodes w).t_state ≡ ds_oncand → (s.nodes w).cost0 ≤ new_cost)
      → Moves vs w new_cost s s
  idle-Moves s w new_cost b known le = record {
    bag = b;
    others = λ x ne. refl;
    outcome = kept (agrees_refl (s.nodes w)) known le;
  }

  -- One transit link.
  pub relax-Moves :
      (s : Calc) (v i w c : ℕ)
      → Memᴰ w vs
      → IsBag s.nodes vs s.cand
      → Moves vs w (((s.nodes v).cost0 + c) % 2 ^ 32) s (relax s v i w c)
  unfolding relax
  relax-Moves s v i w c m b = elim (state_cases (s.nodes w)) [
    | inl e ↦
        rw (e, relax)
          (reach-Moves s v i w new_cost s.cand m b.queue
            (λ pass.
              rw (passes-other pass w (s.nodes w) (λ e'. cc (e, e'))) (omega (arith, b.holds pass)))
            (λ e'. cc (e, e')) (λ e'. cc (e, e')))
    | inr (inl e) ↦ elim (Bool-cases (ltb (s.nodes w).cost0 new_cost)) [
      | inl worse ↦
          rw (e, worse, relax)
            (idle-Moves s w new_cost b (λ e'. cc (e, e')) (λ _. ground (arith, worse)))
      | inr no_worse ↦ elim (Bool-cases (ltb new_cost (s.nodes w).cost0)) [
        | inl less ↦
            let (queue, counts) = del_elt-takes s.nodes vs s.cand w b m e in
            rw (e, no_worse, less, relax)
              (reach-Moves s v i w new_cost (del_elt w s.cand) m queue
                (λ pass. rw (passes-candidate pass w (s.nodes w) e) (counts pass))
                (λ e'. cc (e, e')) (λ _. ground (arith, less)))
        | inr no_less ↦
            rw (e, no_worse, no_less, relax)
              (join-Moves s v i w new_cost m b e (ground (arith, no_less)))
      ]
    ]
    | inr (inr e) ↦ rw (e, relax) (idle-Moves s w new_cost b (λ e'. cc (e, e')) (λ e'. cc (e, e')))
  ]
    where
      new_cost : ℕ
      new_cost = ((s.nodes v).cost0 + c) % 2 ^ 32
