-- ===== src/Table/Heights.antt =====
-- THospf/Table.cpp: the heights that the balance factors stand for, and the shifts that restore them.
use ospfbasic.Prelude.{ℕ, zero, suc, pos, negsuc}
use ospfbasic.Table.{TblItem, Tree, leaf, node, dbl_left_shift, dbl_right_shift}

-- A tree of a height whose balances are the heights' differences, none of them above one.
pub data Avl : Tree → ℕ → Type 0 where
  flat : Avl leaf 0
  level : {i : TblItem} {l r : Tree} {n : ℕ} → Avl l n → Avl r n → Avl (node i (pos 0) l r) (suc n)
  right_heavy :
      {i : TblItem} {l r : Tree} {n : ℕ}
      → Avl l n
      → Avl r (suc n)
      → Avl (node i (pos (suc zero)) l r) (suc (suc n))
  left_heavy :
      {i : TblItem} {l r : Tree} {n : ℕ}
      → Avl l (suc n)
      → Avl r n
      → Avl (node i (negsuc 0) l r) (suc (suc n))

-- The shifts of a tree that is too high on one side by two.
pub dbl_left_shift-Avl :
    (b d : TblItem) (lb c rd : Tree) (n : ℕ)
    → Avl lb n
    → Avl c (suc n)
    → Avl rd n
    → Avl (dbl_left_shift (node b (pos 2) lb (node d (negsuc 0) c rd))) (suc (suc n))
unfolding dbl_left_shift
dbl_left_shift-Avl b d lb c rd n x (level y w) z = level (level x y) (level w z)
dbl_left_shift-Avl b d lb c rd n x (right_heavy y w) z = level (left_heavy x y) (level w z)
dbl_left_shift-Avl b d lb c rd n x (left_heavy y w) z = level (level x y) (right_heavy w z)

pub dbl_right_shift-Avl :
    (d b : TblItem) (lb c rd : Tree) (n : ℕ)
    → Avl lb n
    → Avl c (suc n)
    → Avl rd n
    → Avl (dbl_right_shift (node d (negsuc 1) (node b (pos 1) lb c) rd)) (suc (suc n))
unfolding dbl_right_shift
dbl_right_shift-Avl d b lb c rd n x (level y w) z = level (level x y) (level w z)
dbl_right_shift-Avl d b lb c rd n x (right_heavy y w) z = level (left_heavy x y) (level w z)
dbl_right_shift-Avl d b lb c rd n x (left_heavy y w) z = level (level x y) (right_heavy w z)
