-- ===== src/Paths/Merge.antt =====
-- THospf/RtrTblEntry.cpp: the nodes of the paths that `EPath::merge` and `EPath::addgateway` make.
use ospfbasic.Prelude.{
  ℕ, suc, ◌+◌, ◌≡◌, ◌≤◌, ◌<◌, ◌⊎◌, inl, inr, refl, Bool, true, false, List, [], ◌∷◌, ◌++◌, some,
  ltb, arith, length, length-append, Bool-cases, ◌==◌, negsuc, ℤ, pos, All,
}
use ospfbasic.Paths.{
  ENode, max_path, Turn, take, leave, skip, turn, merge_inner, push, push_all, merge_outer, merge,
  Interface, gateway_at, gateway_loop, addgateway, int_lt, next_addr,
}

-- At most `MAXPATH` nodes, each with a property.
pub record Fits {ℓ} (P : ENode → Type ℓ) (p : List ENode) : Type ℓ where
  pub bound : length p ≤ max_path
  pub all : All P p

All-append {ℓ} : (P : ENode → Type ℓ) (xs ys : List ENode) → All P xs → All P ys → All P (xs ++ ys)
All-append P [] ys h k = k
All-append P (x ∷ xs) ys h k = (h.0, All-append P xs ys h.1 k)

Turn-cases : (t : Turn) → (t ≡ take) ⊎ ((t ≡ leave) ⊎ (t ≡ skip))
Turn-cases take = inl refl
Turn-cases leave = inr (inl refl)
Turn-cases skip = inr (inr refl)

module _ {ℓ} {P : ENode → Type ℓ} where
  append-Fits :
      (paths : List ENode) (a : ENode)
      → ltb (length paths) max_path ≡ true
      → Fits P paths
      → P a
      → Fits P (paths ++ a ∷ [])
  append-Fits paths a room h p = record {
    bound = ground (arith, length-append paths (a ∷ []));
    all = All-append P paths (a ∷ []) h.all (p, tt);
  }

  push-Fits : (paths : List ENode) (a : ENode) → Fits P paths → P a → Fits P (push paths a)
  unfolding push
  push-Fits paths a h p = elim (Bool-cases (ltb (length paths) max_path)) [
    | inl room ↦ rw room (append-Fits paths a room h p)
    | inr full ↦ rw full h
  ]

  push_all-Fits : (paths p : List ENode) → Fits P paths → All P p → Fits P (push_all paths p)
  unfolding push_all
  push_all-Fits paths [] h k = h
  push_all-Fits paths (b ∷ bs) h k = push_all-Fits (push paths b) bs (push-Fits paths b h k.0) k.1

  merge_inner-Fits :
      (a : ENode) (p paths : List ENode)
      → All P p
      → Fits P paths
      → All P (merge_inner a p paths).0 × Fits P (merge_inner a p paths).1
  unfolding merge_inner
  merge_inner-Fits a [] paths k h = (tt, h)
  merge_inner-Fits a (b ∷ bs) paths k h = elim (Bool-cases (ltb (length paths) max_path)) [
    | inl room ↦ elim (Turn-cases (turn a b)) [
      | inl e ↦
          rw (room, e, merge_inner)
            (merge_inner-Fits a bs (paths ++ b ∷ []) k.1 (append-Fits paths b room h k.0))
      | inr (inl e) ↦ rw (room, e, merge_inner) (k, h)
      | inr (inr e) ↦ rw (room, e, merge_inner) (merge_inner-Fits a bs paths k.1 h)
    ]
    | inr full ↦ rw (full, merge_inner) (k, h)
  ]

  merge_outer-Fits :
      (p1 p2 paths : List ENode)
      → All P p1
      → All P p2
      → Fits P paths
      → Fits P (merge_outer p1 p2 paths)
  unfolding merge_outer
  merge_outer-Fits [] p2 paths j k h = push_all-Fits paths p2 h k
  merge_outer-Fits (a ∷ nodes) p2 paths j k h = elim (Bool-cases (ltb (length paths) max_path)) [
    | inl room ↦
        let (left, taken) = merge_inner-Fits a p2 paths k h in
        rw (room, merge_outer) (merge_outer-Fits nodes _ _ j.1 left (push-Fits _ a taken j.0))
    | inr full ↦ rw (full, merge_outer) (push_all-Fits paths p2 h k)
  ]

  -- A path that `merge` makes of two has at most `MAXPATH` nodes, all of them nodes of the two.
  pub merge-Fits :
      (p1 p2 : List ENode)
      → Fits P p1
      → Fits P p2
      → (p : List ENode) × (merge (some p1) (some p2) ≡ some p) × Fits P p
  unfolding merge
  merge-Fits p1 p2 h k = elim (Bool-cases (length p1 == max_path)) [
    | inl e ↦ (p1, simp (e, merge), h)
    | inr e ↦ elim (Bool-cases (length p2 == max_path)) [
      | inl e' ↦ (p2, simp (e, e', merge), k)
      | inr e' ↦ (
        merge_outer p1 p2 [],
        simp (e, e', merge),
        merge_outer-Fits p1 p2 [] h.all k.all record { bound = omega arith; all = tt },
      )
    ]
  ]

module _ {ℓ} (P : ENode → Type ℓ) where
  gateway_at-Fits :
      (ifcs : List Interface) (gw : ℕ) (a : ENode) (following : ℕ) (n : ℕ × Bool)
      → P a
      → P (record a { gateway = gw })
      → n.0 ≤ max_path
      → let (here, m) = gateway_at ifcs gw a following n in
        All P here × (length here + n.0 ≡ suc m.0) × (m.0 ≤ max_path)
  unfolding gateway_at
  gateway_at-Fits ifcs gw a following (n, modified) p q b = ground arith

  gateway_loop-Fits :
      (ifcs : List Interface) (gw : ℕ) (p : List ENode) (n : ℕ × Bool)
      → All P p
      → All (λ a. P (record a { gateway = gw })) p
      → n.0 ≤ max_path
      → let (out, m) = gateway_loop ifcs gw p n in
        All P out × (length out + n.0 ≡ length p + m.0) × (m.0 ≤ max_path)
  unfolding gateway_loop
  gateway_loop-Fits ifcs gw [] n h k b = (tt, refl, b)
  gateway_loop-Fits ifcs gw (a ∷ nodes) n h k b =
      let (here, m) = gateway_at ifcs gw a (next_addr nodes) n in
      let (fine, count, small) = gateway_at-Fits ifcs gw a (next_addr nodes) n h.0 k.0 b in
      let (fine', count', small') = gateway_loop-Fits ifcs gw nodes m h.1 k.1 small in
      (
        All-append P here _ fine fine',
        omega (arith, length-append here (gateway_loop ifcs gw nodes m).0, count, count'),
        small',
      )

  -- `addgateway` gives a path of at most `MAXPATH` nodes, each one of the path or with the new
  -- gateway in place of its own.
  pub addgateway-Fits :
      (ifcs : List Interface) (gw : ℕ) (p : List ENode)
      → Fits P p
      → All (λ a. P (record a { gateway = gw })) p
      → (out : List ENode) × (addgateway ifcs (some p) gw ≡ some out) × Fits P out
  unfolding addgateway
  addgateway-Fits ifcs gw p h k =
      let (paths, (n_paths, modified)) = gateway_loop ifcs gw p (length p, false) in
      let (fine, count, small) = gateway_loop-Fits ifcs gw p (length p, false) h.all k h.bound in
      elim (Bool-cases modified) [
        | inl e ↦ (paths, rw e refl, record { bound = omega (arith, count, small); all = fine })
        | inr e ↦ (p, rw e refl, h)
      ]

int_lt_irrefl : (a : ℤ) → int_lt a a ≡ false
int_lt_irrefl (pos n) = ground arith
int_lt_irrefl (negsuc n) = ground arith

turn_skip :
    (a b : ENode)
    → a.if_addr < b.if_addr
    → a.phyint ≡ b.phyint
    → a.gateway ≡ b.gateway
    → turn a b ≡ skip
unfolding turn
turn_skip a b lt e e' = rw (e, int_lt_irrefl b.phyint) (ground (arith, lt, e'))

inner_skip : (a b : ENode) → turn a b ≡ skip → merge_inner a (b ∷ []) [] ≡ ([], [])
unfolding merge_inner
inner_skip a b e = rw (e, merge_inner) refl

-- Of two nodes with one physical interface and gateway, `merge` keeps only the first path's when
-- its interface address is the lower one.
pub merge_drops :
    (a b : ENode)
    → a.if_addr < b.if_addr
    → a.phyint ≡ b.phyint
    → a.gateway ≡ b.gateway
    → merge (some (a ∷ [])) (some (b ∷ [])) ≡ some (a ∷ [])
unfolding merge merge_outer push push_all
merge_drops a b lt e e' = rw (inner_skip a b (turn_skip a b lt e e')) refl
