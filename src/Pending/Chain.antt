-- ===== src/Pending/Chain.antt =====
-- Linked lists of neighbors: which elements a chain of `next_pend` passes.
use ospfbasic.Prelude.{
  ℕ, zero, suc, ◌≡◌, ◌<◌, refl, sym, subst, inl, inr, true, false, List, [], ◌∷◌, ◌++◌, Option,
  none, some, arith, ◌==◌, length, if◌then◌else◌, Bool-cases, Option-cases, ==_iff,
}
use ospfbasic.Router.State.{Ptr}
use ospfbasic.Router.Actions.{mem_ptr, erase_ptr}
use ospfbasic.Router.NeighborFsm.Counters.{Distinct}
use ospfbasic.Pending.{update, points_to, not_there, there, walk}

-- From a pointer on, the elements of a list and then none.
abbrev pub Chain : (Ptr → Option Ptr) → Option Ptr → List Ptr → Type 0
Chain next h [] = h ≡ none
Chain next h (p ∷ ps) = (h ≡ some p) × Chain next (next p) ps

-- The last element, or what stands before the list.
abbrev pub last : Option Ptr → List Ptr → Option Ptr
last prev [] = prev
last prev (p ∷ ps) = last (some p) ps

-- The element in front of another one, or what stands before the list.
unfoldable pub before : Option Ptr → Ptr → List Ptr → Option Ptr
before prev p [] = prev
before prev p (q ∷ qs) = let rest = before (some q) p qs in if q == p then prev else rest

-- A change at an element that the chain does not pass leaves the chain.
pub Chain-update :
    (next : Ptr → Option Ptr) (b : Ptr) (v h : Option Ptr) (ps : List Ptr)
    → mem_ptr b ps ≡ false
    → Chain next h ps
    → Chain (update next b v) h ps
unfolding update mem_ptr
Chain-update next b v h [] m c = c
Chain-update next b v h (p ∷ ps) m c =
    let apart : (p == b) ≡ false = ground arith in
    (c.0, rw apart (Chain-update next b v (next p) ps (ground arith) c.1))

last_mem : (q l : Ptr) (qs : List Ptr) → last (some q) qs ≡ some l → mem_ptr l (q ∷ qs) ≡ true
unfolding mem_ptr
last_mem q l [] e = ground (arith, e)
last_mem q l (r ∷ rs) e = ground (arith, last_mem r l rs e)

-- At the end of a chain another element can be linked.
pub Chain-append :
    (next : Ptr → Option Ptr) (p t l : Ptr) (ps : List Ptr)
    → Distinct (t ∷ ps)
    → mem_ptr p (t ∷ ps) ≡ false
    → Chain next (next t) ps
    → last (some t) ps ≡ some l
    → Chain
        (update (update next p none) l (some p))
        (update (update next p none) l (some p) t)
        (ps ++ p ∷ [])
unfolding update mem_ptr
Chain-append next p t l [] d m c e = (ground (arith, e), ground (arith, e))
Chain-append next p t l (q ∷ qs) d m c e =
    let inside = last_mem q l qs e in
    (ground (arith, c.0, inside, d.0), Chain-append next p q l qs d.1 (ground arith) c.1 e)

-- With more fuel than elements the walk ends, at the element if it is there.
pub walk-Chain :
    (fuel : ℕ) (next : Ptr → Option Ptr) (p : Ptr) (h prev : Option Ptr) (ps : List Ptr)
    → length ps < fuel
    → Chain next h ps
    → walk fuel next p h prev ≡ (if mem_ptr p ps then there (before prev p ps) else not_there)
unfolding walk mem_ptr before
walk-Chain zero next p h prev ps f c = absurd (omega (arith, f))
walk-Chain (suc fuel) next p h prev [] f c = rw (c, walk) refl
walk-Chain (suc fuel) next p h prev (q ∷ qs) f c =
    let rest = walk-Chain fuel next p (next q) (some q) qs (omega (arith, f)) c.1 in
    rw (c.0, walk) (ground (arith, rest))

before_mem :
    (q p b : Ptr) (qs : List Ptr) → before (some q) p qs ≡ some b → mem_ptr b (q ∷ qs) ≡ true
unfolding mem_ptr before
before_mem q p b [] e = ground (arith, e)
before_mem q p b (r ∷ rs) e = ground (arith, e, before_mem r p b rs)

Chain-here :
    (next : Ptr → Option Ptr) (p a b q : Ptr) (qs : List Ptr)
    → q ≡ p
    → a ≡ b
    → mem_ptr a qs ≡ false
    → Chain next (next q) qs
    → Chain (update next b (next p)) (update next b (next p) a) qs
Chain-here next p a b q qs eq eb m c =
    rw (sym eq, sym eb)
      (subst (λ h. Chain (update next a (next q)) h qs) (sym self)
        (Chain-update next a (next q) (next q) qs m c))
  where
    self : update next a (next q) a ≡ next q
    self = unfold update in ground arith

-- An element is taken out of a chain by a change at the element before it.
pub Chain-erase :
    (next : Ptr → Option Ptr) (p a b : Ptr) (ps : List Ptr)
    → Distinct (a ∷ ps)
    → mem_ptr p ps ≡ true
    → Chain next (next a) ps
    → before (some a) p ps ≡ some b
    → Chain (update next b (next p)) (update next b (next p) a) (erase_ptr p ps)
unfolding mem_ptr before erase_ptr update
Chain-erase next p a b [] d m c e = cc m
Chain-erase next p a b (q ∷ qs) d m c e = elim (Bool-cases (q == p)) [
  | inl k ↦ rw k (
      Chain-here next p a b q qs ((==_iff q p).0 k) (ground (e, k, arith)) (ground (arith, d.0))
        c.1)
  | inr k ↦
      (let e' : before (some q) p qs ≡ some b = ground (arith, e, k) in
        rw k (
          ground (arith, c.0, before_mem q p b qs e', d.0),
          Chain-erase next p q b qs d.1 (ground (arith, m, k)) c.1 e',
        ))
]

last_skip :
    (p : Ptr) (prev : Option Ptr) (qs : List Ptr)
    → mem_ptr p qs ≡ false
    → last prev qs ≡ (if points_to (last (some p) qs) p then prev else last (some p) qs)
unfolding mem_ptr
last_skip p prev [] m = ground arith
last_skip p prev (r ∷ rs) m = elim (Option-cases (last (some r) rs)) [
  | inl e ↦ rw e refl
  | inr (l, e) ↦ rw e (ground (arith, last_mem r l rs e, m))
]

-- The last element after one is taken out.
pub last_erase :
    (p : Ptr) (prev : Option Ptr) (ps : List Ptr)
    → Distinct ps
    → mem_ptr p ps ≡ true
    → last prev (erase_ptr p ps)
      ≡ (if points_to (last prev ps) p then before prev p ps else last prev ps)
unfolding mem_ptr before erase_ptr
last_erase p prev [] d m = cc m
last_erase p prev (q ∷ qs) d m = elim (Bool-cases (q == p)) [
  | inl k ↦ rw (k, (==_iff q p).0 k) (last_skip p prev qs (ground (arith, d.0, k)))
  | inr k ↦ rw k (ground (arith, last_erase p (some q) qs d.1, m, k))
]
