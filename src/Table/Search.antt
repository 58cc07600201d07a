-- ===== src/Table/Search.antt =====
-- THospf/Table.cpp: `TblSearch::next` against the list of items, also in a table that has changed
-- since the last call.
use ospfbasic.Prelude.{
  ◌^◌, ◌≡◌, ◌≢◌, ◌<◌, refl, sym, ap, ◌∙◌, inl, inr, List, [], ◌∷◌, some, arith, All, ◌==◌, ◌||◌,
  ◌&&◌, true, false, Bool-cases,
}
use ospfbasic.Table.{Key, TblItem, Tree, leaf, node, previous}
use ospfbasic.Table.Order.{Sorted, lookup, All-append}
use ospfbasic.Table.Shifts.{elements}
use ospfbasic.Table.Items.{
  Table, TblSearch, rest_after, next_key, seek, resync, advance, next, is_leaf,
}
use ospfbasic.Table.Previous.{Fits}
use ospfbasic.Table.Chain.{CutAt, cut_at, cut, rest_after-last}
use ospfbasic.Table.Represents.{Represents, previous-Cut}
use ospfbasic.Table.Refines.{found_cases}
use ospfbasic.Table.Above.{
  first_above, head_of, both, above-skip, above-head, IsAt, synced_next, next_key-cases, IsLast,
  below_next, from_next,
}

-- `next` in an unchanged and in a changed table.
advance-head : (xs : List TblItem) (s : TblSearch) → (advance xs s).0 ≡ head_of xs
unfolding advance head_of
advance-head [] s = refl
advance-head (x ∷ xs) s = refl

-- The items from the key behind the search's own on are those behind its own.
cut_next :
    (k : Key) (xs : List TblItem)
    → Sorted xs
    → All Fits xs
    → (k.index1 < 2 ^ 32) × (k.index2 < 2 ^ 32)
    → ¬ IsLast k
    → (t : Tree) → (elements t ≡ xs)
    → head_of (rest_after (previous (next_key k) t) xs) ≡ first_above k xs
cut_next k xs s w f m t e = go xs (cut (next_key k) xs s) s w e
  where
    go :
        (xs : List TblItem)
        → CutAt (next_key k) xs
        → Sorted xs
        → All Fits xs
        → (elements t ≡ xs)
        → head_of (rest_after (previous (next_key k) t) xs) ≡ first_above k xs
    go xs (cut_at pre post c) s w e =
        let p = previous-Cut (next_key k) t pre post e w s c in
        let fits = All-append Fits pre post w in
        rw (p, rest_after-last pre post s)
          (sym (
            above-skip k pre post (both (λ x n b. below_next k x.key f n.1 m b) pre fits.0 c.0)
            ∙ above-head k post (both (λ x n b. from_next k x.key f n.1 m b) post fits.1 c.1)))

-- What the items that `next` returns leave behind.
advance-IsAt :
    (xs : List TblItem) (s : TblSearch) (x : TblItem)
    → ((advance xs s).0 ≡ some x)
    → IsAt x.key (advance xs s).1 × ((advance xs s).1.seen ≡ s.seen)
unfolding advance
advance-IsAt [] s x e = cc e
advance-IsAt (y ∷ ys) s x e =
    let q : y ≡ x = ground arith in ((ap (λ z. z.key) q, (x, (ap some q, refl))), refl)

-- `seek` points at the item in front of the key behind, and the search is in step from then on.
seek-current :
    (k : Key) (tb : Table) (s : TblSearch)
    → ¬ IsLast k
    → (k.index1 < 2 ^ 32) × (k.index2 < 2 ^ 32)
    → (is_leaf tb.root ≡ false)
    → (seek tb k s).current ≡ previous (next_key k) tb.root
unfolding seek
seek-current k tb s m f e =
    let on : (is_leaf tb.root || (next_key k).index1 == 0 && (next_key k).index2 == 0) ≡ false =
      elim (next_key-cases k f.1) [ inl q ↦ ground arith | inr q ↦ ground arith ] in
    elim (found_cases (previous (next_key k) tb.root)) [
      | inl q ↦ rw (seek, on, q) refl
      | inr (p, q) ↦ rw (seek, on, q) refl
    ]

resync-current :
    (k : Key) (tb : Table) (s : TblSearch)
    → IsAt k s
    → (s.seen ≢ tb.instance_id)
    → ¬ IsLast k
    → (k.index1 < 2 ^ 32) × (k.index2 < 2 ^ 32)
    → (is_leaf tb.root ≡ false)
    → (resync tb s).current ≡ previous (next_key k) tb.root
unfolding resync
resync-current k tb s a d m f e =
    let q : (s.seen == tb.instance_id) ≡ false = ground arith in
    let c : s.current ≡ some a.1.0 = a.1.1.0 in
    rw (q, c, resync) (ap (λ n. (seek tb n s).current) a.0 ∙ seek-current k tb s m f e)

resync-seen : (tb : Table) (s : TblSearch) → (resync tb s).seen ≡ tb.instance_id
unfolding resync
resync-seen tb s = elim (Bool-cases (s.seen == tb.instance_id)) [
  | inl e ↦ rw (e, resync) (ground arith)
  | inr e ↦ elim (found_cases s.current) [
    | inl q ↦ rw (e, q, resync) refl
    | inr (c, q) ↦ rw (e, q, resync) refl
  ]
]

leaf-elements : (t : Tree) → (is_leaf t ≡ true) → elements t ≡ []
unfolding elements
leaf-elements leaf e = refl
leaf-elements (node i b l r) e = cc e

module _ (k : Key) (s : TblSearch) (tb : Table) (xs : List TblItem) (r : Represents tb xs)
    (a : IsAt k s) (f : (k.index1 < 2 ^ 32) × (k.index2 < 2 ^ 32)) (m : ¬ IsLast k)
    (known : (s.seen ≡ tb.instance_id) → (c : TblItem) × (lookup k xs ≡ some c)) where
  same_place :
      (s.seen ≡ tb.instance_id)
      → head_of (rest_after (resync tb s).current tb.sll) ≡ first_above k xs
  unfolding resync rest_after
  same_place e =
      let w : (s.seen == tb.instance_id) ≡ true = ground arith in
      let c : s.current ≡ some a.1.0 = a.1.1.0 in
      rw (w, resync, c, rest_after, a.1.1.1, r.links)
        (synced_next k (known e).0 xs r.order (known e).1)

  new_place :
      (s.seen ≢ tb.instance_id)
      → (is_leaf tb.root ≡ false)
      → head_of (rest_after (resync tb s).current tb.sll) ≡ first_above k xs
  new_place d e =
      rw (resync-current k tb s a d m f e, r.links)
        (cut_next k xs r.order r.words f m tb.root r.tree)

  -- From an item of a table, whatever has been added and removed since, `next` returns the first item
  -- behind it in order, or none when there is none, and an item that it returns is the one that the
  -- search stands at from then on. The item's keys are not the largest ones, and it is still in the
  -- table if that has not changed.
  pub next-first_above :
      ((next tb s).0 ≡ first_above k xs)
      × ((x : TblItem)
          → ((next tb s).0 ≡ some x)
          → IsAt x.key (next tb s).1 × ((next tb s).1.seen ≡ tb.instance_id))
  unfolding next
  next-first_above = elim (Bool-cases (is_leaf tb.root)) [
    | inl e ↦
        let q : xs ≡ [] = sym r.tree ∙ leaf-elements tb.root e in
        rw (e, q) (unfold first_above in (refl, (λ x h. cc h)))
    | inr e ↦
        let there : TblSearch = resync tb s in
        let place : head_of (rest_after there.current tb.sll) ≡ first_above k xs =
          elim (Bool-cases (s.seen == tb.instance_id)) [
            | inl w ↦ same_place (ground arith)
            | inr w ↦ new_place (λ q. ground arith) e
          ] in
        rw e (
          (
            advance-head (rest_after there.current tb.sll) there ∙ place,
            (λ x h.
                let g = advance-IsAt (rest_after there.current tb.sll) there x h in
                (g.0, g.1 ∙ resync-seen tb s)),
          ))
  ]
