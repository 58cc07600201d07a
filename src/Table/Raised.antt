-- ===== src/Table/Raised.antt =====
-- THospf/Table.cpp: the height of the tree that `add` leaves.
use ospfbasic.Prelude.{
  ℕ, suc, ◌≡◌, inl, inr, ◌⊎◌, subst, Bool, true, false, none, arith, Bool-cases, pos, negsuc,
  increment, decrement,
}
use ospfbasic.Table.{
  TblItem, Tree, node, way, to_left, to_right, find, left_shift, right_shift, dbl_left_shift,
  dbl_right_shift, shift, insert_below, has_point, add_new, replace,
}
use ospfbasic.Table.Order.{way-cases}
use ospfbasic.Table.Heights.{
  flat, level, right_heavy, left_heavy, Avl, dbl_left_shift-Avl, dbl_right_shift-Avl,
}

-- Without a balance point on its way, an item makes the tree one higher.
insert_below-Avl :
    (item : TblItem) (t : Tree) (n : ℕ)
    → Avl t n
    → (has_point item.key t ≡ false)
    → (find item.key t ≡ none)
    → Avl (insert_below item t) (suc n)
unfolding insert_below has_point find decrement increment
insert_below-Avl item t n flat p f = level flat flat
insert_below-Avl item t n (level {i} {l} {r} {n = m} x y) p f = elim (way-cases item.key i.key) [
  | inl (e, h) ↦
      rw (e, insert_below)
        (left_heavy (insert_below-Avl item l m x (ground arith) (ground arith)) y)
  | inr (inl (e, h)) ↦ ground arith
  | inr (inr (e, h)) ↦
      rw (e, insert_below)
        (right_heavy x (insert_below-Avl item r m y (ground arith) (ground arith)))
]
insert_below-Avl item t n (right_heavy x y) p f = cc p
insert_below-Avl item t n (left_heavy x y) p f = cc p

-- The branch of a balance point that the item makes too high.
right_grown :
    (item i : TblItem) (l r : Tree) (n : ℕ)
    → Avl l n
    → Avl r (suc n)
    → (has_point item.key r ≡ false)
    → (find item.key r ≡ none)
    → Avl (shift (node i (pos 2) l (insert_below item r))) (suc (suc n))
unfolding insert_below has_point find shift decrement dbl_left_shift increment
right_grown item i l r n x (level {i = j} {l = k} {r = s} y z) p f =
    elim (way-cases item.key j.key) [
      | inl (e, h) ↦
          rw (e, insert_below)
            (dbl_left_shift-Avl i j l (insert_below item k) s n x
              (insert_below-Avl item k n y (ground arith) (ground arith)) z)
      | inr (inl (e, h)) ↦ ground arith
      | inr (inr (e, h)) ↦
          rw (e, insert_below)
            (unfold left_shift in
              level (level x y) (insert_below-Avl item s n z (ground arith) (ground arith)))
    ]
right_grown item i l r n x (right_heavy y z) p f = cc p
right_grown item i l r n x (left_heavy y z) p f = cc p

left_grown :
    (item i : TblItem) (l r : Tree) (n : ℕ)
    → Avl l (suc n)
    → Avl r n
    → (has_point item.key l ≡ false)
    → (find item.key l ≡ none)
    → Avl (shift (node i (negsuc 1) (insert_below item l) r)) (suc (suc n))
unfolding insert_below has_point find shift decrement dbl_right_shift increment
left_grown item i l r n (level {i = j} {l = k} {r = s} y z) x p f =
    elim (way-cases item.key j.key) [
      | inl (e, h) ↦
          rw (e, insert_below)
            (unfold right_shift in
              level (insert_below-Avl item k n y (ground arith) (ground arith)) (level z x))
      | inr (inl (e, h)) ↦ ground arith
      | inr (inr (e, h)) ↦
          rw (e, insert_below)
            (dbl_right_shift-Avl i j k (insert_below item s) r n y
              (insert_below-Avl item s n z (ground arith) (ground arith)) x)
    ]
left_grown item i l r n (right_heavy y z) x p f = cc p
left_grown item i l r n (left_heavy y z) x p f = cc p

-- A balance point is one node whose branch on the way has none.
right_point-Avl :
    (item i : TblItem) (l r : Tree) (n : ℕ)
    → Avl l n
    → Avl r (suc n)
    → (way item.key i.key ≡ to_left) × (has_point item.key l ≡ false) × (find item.key l ≡ none)
      ⊎ (way item.key i.key ≡ to_right) × (has_point item.key r ≡ false) × (find item.key r ≡ none)
    → Avl (shift (insert_below item (node i (pos 1) l r))) (suc (suc n))
unfolding insert_below shift decrement increment
right_point-Avl item i l r n x y (inl (e, p, f)) =
    rw (e, insert_below) (level (insert_below-Avl item l n x p f) y)
right_point-Avl item i l r n x y (inr (e, p, f)) =
    rw (e, insert_below) (right_grown item i l r n x y p f)

left_point-Avl :
    (item i : TblItem) (l r : Tree) (n : ℕ)
    → Avl l (suc n)
    → Avl r n
    → (way item.key i.key ≡ to_left) × (has_point item.key l ≡ false) × (find item.key l ≡ none)
      ⊎ (way item.key i.key ≡ to_right) × (has_point item.key r ≡ false) × (find item.key r ≡ none)
    → Avl (shift (insert_below item (node i (negsuc 0) l r))) (suc (suc n))
unfolding insert_below shift decrement increment
left_point-Avl item i l r n x y (inl (e, p, f)) =
    rw (e, insert_below) (left_grown item i l r n x y p f)
left_point-Avl item i l r n x y (inr (e, p, f)) =
    rw (e, insert_below) (level x (insert_below-Avl item r n y p f))

no_point-Avl :
    (item i : TblItem) (l r : Tree) (n : ℕ)
    → Avl l n
    → Avl r n
    → (way item.key i.key ≡ to_left) × (has_point item.key l ≡ false) × (find item.key l ≡ none)
      ⊎ (way item.key i.key ≡ to_right) × (has_point item.key r ≡ false) × (find item.key r ≡ none)
    → Avl (shift (insert_below item (node i (pos 0) l r))) (suc (suc n))
unfolding insert_below shift decrement increment
no_point-Avl item i l r n x y (inl (e, p, f)) =
    rw (e, insert_below) (left_heavy (insert_below-Avl item l n x p f) y)
no_point-Avl item i l r n x y (inr (e, p, f)) =
    rw (e, insert_below) (right_heavy x (insert_below-Avl item r n y p f))

-- The height after an item with new keys: the balance point takes up what it adds.
abbrev pub grown : Bool → ℕ → ℕ
grown true n = n
grown false n = suc n

-- The branch that holds the balance point keeps its height.
point_kept :
    (item : TblItem) (t : Tree) (n : ℕ)
    → (has_point item.key t ≡ true)
    → Avl (add_new item t) (grown (has_point item.key t) n)
    → Avl (add_new item t) n
point_kept item t n c a = subst (λ b. Avl (add_new item t) (grown b n)) c a

pub add_new-Avl :
    (item : TblItem) (t : Tree) (n : ℕ)
    → Avl t n
    → (find item.key t ≡ none)
    → Avl (add_new item t) (grown (has_point item.key t) n)
unfolding add_new has_point find
add_new-Avl item t n flat f = level flat flat
add_new-Avl item t n (level {i} {l} {r} {n = m} x y) f = elim (way-cases item.key i.key) [
  | inl (e, h) ↦ elim (Bool-cases (has_point item.key l)) [
    | inl c ↦
        rw (e, add_new, has_point, c)
          (level (point_kept item l m c (add_new-Avl item l m x (ground arith))) y)
    | inr c ↦
        rw (e, add_new, has_point, c) (no_point-Avl item i l r m x y (inl (e, c, ground arith)))
  ]
  | inr (inl (e, h)) ↦ ground arith
  | inr (inr (e, h)) ↦ elim (Bool-cases (has_point item.key r)) [
    | inl c ↦
        rw (e, add_new, has_point, c)
          (level x (point_kept item r m c (add_new-Avl item r m y (ground arith))))
    | inr c ↦
        rw (e, add_new, has_point, c) (no_point-Avl item i l r m x y (inr (e, c, ground arith)))
  ]
]
add_new-Avl item t n (right_heavy {i} {l} {r} {n = m} x y) f = elim (way-cases item.key i.key) [
  | inl (e, h) ↦ elim (Bool-cases (has_point item.key l)) [
    | inl c ↦
        rw (e, add_new, c)
          (right_heavy (point_kept item l m c (add_new-Avl item l m x (ground arith))) y)
    | inr c ↦ rw (e, add_new, c) (right_point-Avl item i l r m x y (inl (e, c, ground arith)))
  ]
  | inr (inl (e, h)) ↦ ground arith
  | inr (inr (e, h)) ↦ elim (Bool-cases (has_point item.key r)) [
    | inl c ↦
        rw (e, add_new, c)
          (right_heavy x
            (point_kept item r (suc m) c (add_new-Avl item r (suc m) y (ground arith))))
    | inr c ↦ rw (e, add_new, c) (right_point-Avl item i l r m x y (inr (e, c, ground arith)))
  ]
]
add_new-Avl item t n (left_heavy {i} {l} {r} {n = m} x y) f = elim (way-cases item.key i.key) [
  | inl (e, h) ↦ elim (Bool-cases (has_point item.key l)) [
    | inl c ↦
        rw (e, add_new, c)
          (left_heavy (point_kept item l (suc m) c (add_new-Avl item l (suc m) x (ground arith))) y)
    | inr c ↦ rw (e, add_new, c) (left_point-Avl item i l r m x y (inl (e, c, ground arith)))
  ]
  | inr (inl (e, h)) ↦ ground arith
  | inr (inr (e, h)) ↦ elim (Bool-cases (has_point item.key r)) [
    | inl c ↦
        rw (e, add_new, c)
          (left_heavy x (point_kept item r m c (add_new-Avl item r m y (ground arith))))
    | inr c ↦ rw (e, add_new, c) (left_point-Avl item i l r m x y (inr (e, c, ground arith)))
  ]
]

pub replace-Avl : (item : TblItem) (t : Tree) (n : ℕ) → Avl t n → Avl (replace item t) n
unfolding replace
replace-Avl item t n flat = flat
replace-Avl item t n (level {i} {l} {r} {n = m} x y) = elim (way-cases item.key i.key) [
  | inl (e, h) ↦ rw (e, replace) (level (replace-Avl item l m x) y)
  | inr (inl (e, h)) ↦ rw (e, replace) (level x y)
  | inr (inr (e, h)) ↦ rw (e, replace) (level x (replace-Avl item r m y))
]
replace-Avl item t n (right_heavy {i} {l} {r} {n = m} x y) = elim (way-cases item.key i.key) [
  | inl (e, h) ↦ rw (e, replace) (right_heavy (replace-Avl item l m x) y)
  | inr (inl (e, h)) ↦ rw (e, replace) (right_heavy x y)
  | inr (inr (e, h)) ↦ rw (e, replace) (right_heavy x (replace-Avl item r (suc m) y))
]
replace-Avl item t n (left_heavy {i} {l} {r} {n = m} x y) = elim (way-cases item.key i.key) [
  | inl (e, h) ↦ rw (e, replace) (left_heavy (replace-Avl item l (suc m) x) y)
  | inr (inl (e, h)) ↦ rw (e, replace) (left_heavy x y)
  | inr (inr (e, h)) ↦ rw (e, replace) (left_heavy x (replace-Avl item r m y))
]
