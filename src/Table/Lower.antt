-- ===== src/Table/Lower.antt =====
-- THospf/Table.cpp: the height of the tree on the way back of `remove`.
use ospfbasic.Prelude.{ℕ, suc, inl, inr, Bool, true, false, pos, negsuc, ℤ, increment, decrement}
use ospfbasic.Table.{
  Key, TblItem, Tree, leaf, node, left_shift, right_shift, readjust, back_left, back_right,
  remove_last, unlink_item, remove_from,
}
use ospfbasic.Table.Order.{way-cases}
use ospfbasic.Table.Heights.{
  Avl, flat, level, right_heavy, left_heavy, dbl_left_shift-Avl, dbl_right_shift-Avl,
}

-- The height after a round on the way back: the flag says that it is one less.
pub data Shrunk : Tree × Bool → ℕ → Type 0 where
  less : {t : Tree} {n : ℕ} → Avl t n → Shrunk (t, true) (suc n)
  same : {t : Tree} {n : ℕ} → Avl t n → Shrunk (t, false) n

module _ (i : TblItem) where
  back_left-level :
      (p : Tree × Bool) (r : Tree) (n : ℕ)
      → Shrunk p n
      → Avl r n
      → Shrunk (back_left i (pos 0) p r) (suc n)
  unfolding back_left readjust increment
  back_left-level p r n (less x) y = same (right_heavy x y)
  back_left-level p r n (same x) y = same (level x y)

  back_left-left_heavy :
      (p : Tree × Bool) (r : Tree) (n : ℕ)
      → Shrunk p (suc n)
      → Avl r n
      → Shrunk (back_left i (negsuc 0) p r) (suc (suc n))
  unfolding back_left readjust increment
  back_left-left_heavy p r n (less x) y = less (level x y)
  back_left-left_heavy p r n (same x) y = same (left_heavy x y)

  back_left-right_heavy :
      (p : Tree × Bool) (r : Tree) (n : ℕ)
      → Shrunk p n
      → Avl r (suc n)
      → Shrunk (back_left i (pos 1) p r) (suc (suc n))
  unfolding back_left readjust increment left_shift
  back_left-right_heavy p r n (same x) y = same (right_heavy x y)
  back_left-right_heavy p r n (less x) (level y z) = same (left_heavy (right_heavy x y) z)
  back_left-right_heavy p r n (less x) (right_heavy y z) = less (level (level x y) z)
  back_left-right_heavy p r n (less x) (left_heavy {i = j} {l = c} {r = d} y z) =
      less (dbl_left_shift-Avl i j p.0 c d _ x y z)

  back_right-level :
      (l : Tree) (p : Tree × Bool) (n : ℕ)
      → Avl l n
      → Shrunk p n
      → Shrunk (back_right i (pos 0) l p) (suc n)
  unfolding back_right readjust decrement
  back_right-level l p n y (less x) = same (left_heavy y x)
  back_right-level l p n y (same x) = same (level y x)

  back_right-right_heavy :
      (l : Tree) (p : Tree × Bool) (n : ℕ)
      → Avl l n
      → Shrunk p (suc n)
      → Shrunk (back_right i (pos 1) l p) (suc (suc n))
  unfolding back_right readjust decrement
  back_right-right_heavy l p n y (less x) = less (level y x)
  back_right-right_heavy l p n y (same x) = same (right_heavy y x)

  back_right-left_heavy :
      (l : Tree) (p : Tree × Bool) (n : ℕ)
      → Avl l (suc n)
      → Shrunk p n
      → Shrunk (back_right i (negsuc 0) l p) (suc (suc n))
  unfolding back_right readjust decrement right_shift
  back_right-left_heavy l p n y (same x) = same (left_heavy y x)
  back_right-left_heavy l p n (level y z) (less x) = same (right_heavy y (left_heavy z x))
  back_right-left_heavy l p n (left_heavy y z) (less x) = less (level y (level z x))
  back_right-left_heavy l p n (right_heavy {i = j} {l = c} {r = d} y z) (less x) =
      less (dbl_right_shift-Avl i j c d p.0 _ y z x)

remove_last-Avl :
    (i : TblItem) (b : ℤ) (l r : Tree) (n : ℕ)
    → Avl (node i b l r) n
    → Shrunk (remove_last i b l r).1 n
unfolding remove_last
remove_last-Avl i b l leaf n (level x flat) = less x
remove_last-Avl i b l leaf n (right_heavy x y) = elim y [ ]
remove_last-Avl i b l leaf n (left_heavy x flat) = less x
remove_last-Avl i b l (node j c k s) n (level x y) =
    back_right-level i l _ _ x (remove_last-Avl j c k s _ y)
remove_last-Avl i b l (node j c k s) n (right_heavy x y) =
    back_right-right_heavy i l _ _ x (remove_last-Avl j c k s _ y)
remove_last-Avl i b l (node j c k s) n (left_heavy x y) =
    back_right-left_heavy i l _ _ x (remove_last-Avl j c k s _ y)

unlink_item-Avl :
    (i : TblItem) (b : ℤ) (l r : Tree) (n : ℕ)
    → Avl (node i b l r) n
    → Shrunk (unlink_item i b l r) n
unfolding unlink_item
unlink_item-Avl i b l leaf n (level x flat) = less x
unlink_item-Avl i b l leaf n (right_heavy x y) = elim y [ ]
unlink_item-Avl i b l leaf n (left_heavy x flat) = less x
unlink_item-Avl i b leaf (node j c k s) n (level flat y) = elim y [ ]
unlink_item-Avl i b leaf (node j c k s) n (right_heavy flat y) = less y
unlink_item-Avl i b leaf (node j c k s) n (left_heavy x y) = elim x [ ]
unlink_item-Avl i b (node h d m o) (node j c k s) n (level x y) =
    back_left-level _ _ _ _ (remove_last-Avl h d m o _ x) y
unlink_item-Avl i b (node h d m o) (node j c k s) n (right_heavy x y) =
    back_left-right_heavy _ _ _ _ (remove_last-Avl h d m o _ x) y
unlink_item-Avl i b (node h d m o) (node j c k s) n (left_heavy x y) =
    back_left-left_heavy _ _ _ _ (remove_last-Avl h d m o _ x) y

-- `remove` leaves a balanced tree, and says whether it is one less high.
pub remove_from-Avl : (k : Key) (t : Tree) (n : ℕ) → Avl t n → Shrunk (remove_from k t) n
unfolding remove_from
remove_from-Avl k t n flat = same flat
remove_from-Avl k t n (level {i} {l} {r} {n = m} x y) = elim (way-cases k i.key) [
  | inl (e, h) ↦ rw (e, remove_from) (back_left-level i _ r m (remove_from-Avl k l m x) y)
  | inr (inl (e, h)) ↦ rw (e, remove_from) (unlink_item-Avl i (pos 0) l r _ (level x y))
  | inr (inr (e, h)) ↦ rw (e, remove_from) (back_right-level i l _ m x (remove_from-Avl k r m y))
]
remove_from-Avl k t n (right_heavy {i} {l} {r} {n = m} x y) = elim (way-cases k i.key) [
  | inl (e, h) ↦ rw (e, remove_from) (back_left-right_heavy i _ r m (remove_from-Avl k l m x) y)
  | inr (inl (e, h)) ↦ rw (e, remove_from) (unlink_item-Avl i (pos 1) l r _ (right_heavy x y))
  | inr (inr (e, h)) ↦
      rw (e, remove_from) (back_right-right_heavy i l _ m x (remove_from-Avl k r (suc m) y))
]
remove_from-Avl k t n (left_heavy {i} {l} {r} {n = m} x y) = elim (way-cases k i.key) [
  | inl (e, h) ↦
      rw (e, remove_from) (back_left-left_heavy i _ r m (remove_from-Avl k l (suc m) x) y)
  | inr (inl (e, h)) ↦ rw (e, remove_from) (unlink_item-Avl i (negsuc 0) l r _ (left_heavy x y))
  | inr (inr (e, h)) ↦
      rw (e, remove_from) (back_right-left_heavy i l _ m x (remove_from-Avl k r m y))
]
