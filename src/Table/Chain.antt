-- ===== src/Table/Chain.antt =====
-- THospf/Table.cpp: the list of items in order, cut in front of a key: where `previous` points and
-- what setting a `next` there makes of the list.
use ospfbasic.Prelude.{
  ◌≡◌, refl, ap, ◌∙◌, inl, inr, true, false, List, [], ◌∷◌, ◌++◌, Option, none, some, arith, All,
}
use ospfbasic.Table.{Key, TblItem}
use ospfbasic.Table.Order.{Before, Same, Sorted, way-cases, way-right, All-map, All-append}
use ospfbasic.Table.Items.{same_key, sll_of, rest_after, set_next}
use ospfbasic.Table.Previous.{last_below, below-stop}

-- The last item of a list.
unfoldable pub last_of : List TblItem → Option TblItem → Option TblItem
last_of [] d = d
last_of (x ∷ xs) d = last_of xs (some x)

-- No item of the list is in front of the key.
abbrev pub IsFrom : Key → List TblItem → Type 0
IsFrom k xs = All (λ x. ¬ Before x.key k) xs

-- The list in front of a key, and from it on.
abbrev pub Cut : Key → List TblItem → List TblItem → Type 0
Cut k pre post = All (λ x. Before x.key k) pre × IsFrom k post

pub data CutAt (k : Key) : List TblItem → Type 0 where
  cut_at : (pre post : List TblItem) → Cut k pre post → CutAt k (pre ++ post)

behind_key : (k : Key) (xs : List TblItem) → All (λ x. Before k x.key) xs → IsFrom k xs
behind_key k xs a =
    All-map (λ x. Before k x.key) (λ x. ¬ Before x.key k) xs (λ x h b. ground arith) a

pub cut : (k : Key) (xs : List TblItem) → Sorted xs → CutAt k xs
cut k [] s = cut_at [] [] (tt, tt)
cut k (x ∷ xs) s = elim (way-cases k x.key) [
  | inl (e, h) ↦ cut_at [] (x ∷ xs) (
    tt,
    (
      (λ b. ground arith),
      behind_key k xs
          (All-map (λ y. Before x.key y.key) (λ y. Before k y.key) xs (λ y b. ground arith) s.0),
    ),
  )
  | inr (inl (e, h)) ↦ cut_at [] (x ∷ xs) (
    tt,
    (
      (λ b. ground arith),
      behind_key k xs
          (All-map (λ y. Before x.key y.key) (λ y. Before k y.key) xs (λ y b. ground arith) s.0),
    ),
  )
  | inr (inr (e, h)) ↦ longer x xs h (cut k xs s.1)
]
  where
    longer : (x : TblItem) (xs : List TblItem) → Before x.key k → CutAt k xs → CutAt k (x ∷ xs)
    longer x xs h (cut_at pre post c) = cut_at (x ∷ pre) post ((h, c.0), c.1)

pub last_below-Cut :
    (k : Key) (pre post : List TblItem) (d : Option TblItem)
    → Cut k pre post
    → last_below k (pre ++ post) d ≡ last_of pre d
unfolding last_of last_below
last_below-Cut k [] [] d c = refl
last_below-Cut k [] (y ∷ ys) d c = below-stop k y ys d c.1.0
last_below-Cut k (x ∷ xs) post d c =
    rw (way-right k x.key c.0.0, last_below) (last_below-Cut k xs post (some x) (c.0.1, c.1))

-- The last of some items has what they all have.
last_of-some {ℓ} :
    (P : TblItem → Type ℓ) (x : TblItem) (xs : List TblItem)
    → P x
    → All P xs
    → (q : TblItem) × ((last_of xs (some x) ≡ some q) × P q)
unfolding last_of
last_of-some P x [] p a = (x, (refl, p))
last_of-some P x (y ∷ ys) p a = last_of-some P y ys a.0 a.1

not_same : (k n : Key) → Before n k → same_key k n ≡ false
not_same k n h = ground arith

same_key_refl : (k : Key) → same_key k k ≡ true
same_key_refl k = ground arith

-- A later item is looked for behind.
set_next-step :
    (o : Option TblItem) (q x : TblItem) (next xs : List TblItem)
    → (o ≡ some q)
    → Before x.key q.key
    → set_next o next (x ∷ xs) ≡ x ∷ set_next o next xs
unfolding set_next
set_next-step o q x next xs e h = rw e (rw (set_next, not_same q.key x.key h) refl)

rest_after-step :
    (o : Option TblItem) (q x : TblItem) (xs : List TblItem)
    → (o ≡ some q)
    → Before x.key q.key
    → rest_after o (x ∷ xs) ≡ rest_after o xs
unfolding rest_after sll_of
rest_after-step o q x xs e h = rw e (rw (sll_of, not_same q.key x.key h) refl)

-- Setting the `next` of the last item in front cuts off what is behind.
pub set_next-last :
    (pre post next : List TblItem)
    → Sorted (pre ++ post)
    → set_next (last_of pre none) next (pre ++ post) ≡ pre ++ next
unfolding last_of set_next
set_next-last [] post next s = refl
set_next-last (x ∷ []) post next s = rw (same_key_refl x.key) refl
set_next-last (x ∷ y ∷ ys) post next s =
    let behind = All-append (λ z. Before x.key z.key) ys post s.0.1 in
    let q = last_of-some (λ z. Before x.key z.key) y ys s.0.0 behind.0 in
    set_next-step (last_of ys (some y)) q.0 x next (y ∷ ys ++ post) q.1.0 q.1.1
    ∙ ap (◌∷◌ x) (set_next-last (y ∷ ys) post next s.1)

pub rest_after-last :
    (pre post : List TblItem)
    → Sorted (pre ++ post)
    → rest_after (last_of pre none) (pre ++ post) ≡ post
unfolding last_of rest_after sll_of
rest_after-last [] post s = refl
rest_after-last (x ∷ []) post s = rw (same_key_refl x.key) refl
rest_after-last (x ∷ y ∷ ys) post s =
    let behind = All-append (λ z. Before x.key z.key) ys post s.0.1 in
    let q = last_of-some (λ z. Before x.key z.key) y ys s.0.0 behind.0 in
    rest_after-step (last_of ys (some y)) q.0 x (y ∷ ys ++ post) q.1.0 q.1.1
    ∙ rest_after-last (y ∷ ys) post s.1

-- The list behind an item that is in it.
pub sll_of-here :
    (k : Key) (xs : List TblItem) (y : TblItem) (ys : List TblItem)
    → All (λ x. Before x.key k) xs
    → Same k y.key
    → sll_of k (xs ++ y ∷ ys) ≡ ys
unfolding sll_of
sll_of-here k [] y ys a h = ground arith
sll_of-here k (x ∷ xs) y ys a h = rw (not_same k x.key a.0) (sll_of-here k xs y ys a.1 h)
