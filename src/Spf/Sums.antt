-- ===== src/Spf/Sums.antt =====
-- THospf/ospfCalc.cpp: sums over the nodes, and what a write to a node does to them.
use ospfbasic.Prelude.{ℕ, ◌+◌, ◌≡◌, ◌≢◌, refl, sym, ap, subst, Bool, false, List, [], ◌∷◌, arith}
use mathlib.Core.List.{Memᴰ}
use mathlib.Core.List.Memᴰ
use ospfbasic.Queue.{Item}
use ospfbasic.Queue.Contents.{one}
use ospfbasic.Routes.{TNode, ds_oncand}
use ospfbasic.Spf.{item_of, put}

-- No node is in a list twice.
abbrev pub NoDup : List ℕ → Type 0
NoDup [] = Unit {0}
NoDup (v ∷ vs) = (¬ Memᴰ v vs) × NoDup vs

-- Whether a node is a candidate that passes a test.
abbrev pub passes : (Item → Bool) → ℕ → TNode → Bool
passes pass v n = elim n.t_state [ ds_oncand ↦ pass (item_of v n) | _ ↦ false ]

-- A sum over nodes.
unfoldable pub total : (ℕ → TNode → ℕ) → (ℕ → TNode) → List ℕ → ℕ
total f nodes [] = 0
total f nodes (v ∷ vs) = f v (nodes v) + total f nodes vs

-- How many of the nodes are candidates that pass a test.
abbrev pub tally : (Item → Bool) → (ℕ → TNode) → List ℕ → ℕ
tally pass = total (λ v n. one (passes pass v n))

pub put_self : (n : TNode) (nodes : ℕ → TNode) (v : ℕ) → put v n nodes v ≡ n
put_self n nodes v = ground arith

pub put_other : (n : TNode) (nodes : ℕ → TNode) (v w : ℕ) → w ≢ v → put v n nodes w ≡ nodes w
put_other n nodes v w ne = ground arith

total_outside :
    (f : ℕ → TNode → ℕ) (n : TNode) (nodes : ℕ → TNode) (v : ℕ) (vs : List ℕ)
    → ¬ Memᴰ v vs
    → total f (put v n nodes) vs ≡ total f nodes vs
unfolding total
total_outside f n nodes v [] out = refl
total_outside f n nodes v (w ∷ vs) out =
    rw (put_other n nodes v w (λ e. out (Memᴰ.head (sym e))))
      (ap (λ k. f w (nodes w) + k) (total_outside f n nodes v vs (λ m. out (Memᴰ.tail m))))

-- A write to a node changes a sum by what that node adds to it.
pub total-put :
    (f : ℕ → TNode → ℕ) (n : TNode) (nodes : ℕ → TNode) (v : ℕ) (vs : List ℕ)
    → NoDup vs
    → Memᴰ v vs
    → total f (put v n nodes) vs + f v (nodes v) ≡ total f nodes vs + f v n
unfolding total
total-put f n nodes v [] nd m = absurd (Memᴰ.not-nil m)
total-put f n nodes v (w ∷ vs) nd (Memᴰ.head e) =
    subst (λ x. total f (put v n nodes) (x ∷ vs) + f v (nodes v) ≡ total f nodes (x ∷ vs) + f v n) e
      (rw put_self
        (omega (arith, total_outside f n nodes v vs (λ m. nd.0 (subst (λ x. Memᴰ x vs) e m)))))
total-put f n nodes v (w ∷ vs) nd (Memᴰ.tail m) =
    rw (put_other n nodes v w (λ e. nd.0 (subst (λ x. Memᴰ x vs) (sym e) m)))
      (omega (arith, total-put f n nodes v vs nd.1 m))
