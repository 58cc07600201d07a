-- ===== src/Dispatch/Next.antt =====
-- THospf/OSPF.cpp: the interface that `OSPF::next_ifc` finds.
use ospfbasic.Prelude.{
  ℕ, ◌≡◌, ◌⊎◌, inl, inr, refl, Bool, true, false, ◌&&◌, ◌||◌, not, List, [], ◌∷◌, Option, none,
  some, ltb, leb, ℤ, pos, negsuc, arith, Bool-cases, All, if◌then◌else◌,
}
use mathlib.Core.List.{Memᴰ}
use mathlib.Core.List.Memᴰ
use ospfbasic.Paths.{int_lt, int_eq}
use ospfbasic.Dispatch.{Interface, closer, next_loop, next_ifc}

-- The order of interfaces: by physical interface, then by address.
abbrev pub before : ℤ → ℕ → ℤ → ℕ → Bool
before p a q b = int_lt p q || (int_eq p q && ltb a b)

-- What the search has found among the interfaces so far: the first of those behind a place.
abbrev pub IsNext : ℕ → ℤ → List Interface → Option Interface → Type 0
IsNext xaddr phy ifcs none = All (λ ip. before phy xaddr ip.if_physic ip.if_addr ≡ false) ifcs
IsNext xaddr phy ifcs (some best) =
    (before phy xaddr best.if_physic best.if_addr ≡ true)
    × Memᴰ best ifcs
    × All
        (λ ip.
          before phy xaddr ip.if_physic ip.if_addr ≡ true
          → before ip.if_physic ip.if_addr best.if_physic best.if_addr ≡ false)
        ifcs

before_irrefl : (p : ℤ) (a : ℕ) → before p a p a ≡ false
before_irrefl (pos p) a = ground arith
before_irrefl (negsuc p) a = ground arith

before-asym : (p q : ℤ) (a b : ℕ) → before p a q b ≡ true → before q b p a ≡ false
before-asym (pos p) (pos q) a b h = ground (arith, h)
before-asym (pos p) (negsuc q) a b h = ground (arith, h)
before-asym (negsuc p) (pos q) a b h = ground (arith, h)
before-asym (negsuc p) (negsuc q) a b h = ground (arith, h)

before_trans :
    (p q s : ℤ) (a b c : ℕ)
    → before p a q b ≡ false
    → before q b s c ≡ false
    → before p a s c ≡ false
before_trans (pos p) (pos q) (pos s) a b c h k = ground (arith, h, k)
before_trans (pos p) (pos q) (negsuc s) a b c h k = ground (arith, h, k)
before_trans (pos p) (negsuc q) (pos s) a b c h k = ground (arith, h, k)
before_trans (pos p) (negsuc q) (negsuc s) a b c h k = ground (arith, h, k)
before_trans (negsuc p) (pos q) (pos s) a b c h k = ground (arith, h, k)
before_trans (negsuc p) (pos q) (negsuc s) a b c h k = ground (arith, h, k)
before_trans (negsuc p) (negsuc q) (pos s) a b c h k = ground (arith, h, k)
before_trans (negsuc p) (negsuc q) (negsuc s) a b c h k = ground (arith, h, k)

-- The tests of the loop are those of the order.
skips_lem : (p q : ℤ) (a b : ℕ) → int_lt q p || (int_eq p q && leb b a) ≡ not (before p a q b)
skips_lem (pos p) (pos q) a b = ground arith
skips_lem (pos p) (negsuc q) a b = ground arith
skips_lem (negsuc p) (pos q) a b = ground arith
skips_lem (negsuc p) (negsuc q) a b = ground arith

closer_lem :
    (xaddr : ℕ) (phy : ℤ) (ip : Interface) (best : Option Interface)
    → closer xaddr phy ip best ≡ (
        if before phy xaddr ip.if_physic ip.if_addr
        then elim best as (λ _. Option Interface) [
          | none ↦ some ip
          | some b ↦
              if before b.if_physic b.if_addr ip.if_physic ip.if_addr then some b else some ip
        ]
        else best)
unfolding closer
closer_lem xaddr phy ip none = ground (arith, skips_lem phy ip.if_physic xaddr ip.if_addr)
closer_lem xaddr phy ip (some b) = ground (arith, skips_lem phy ip.if_physic xaddr ip.if_addr)

abbrev reverse_onto : List Interface → List Interface → List Interface
reverse_onto seen [] = seen
reverse_onto seen (ip ∷ ifcs) = reverse_onto (ip ∷ seen) ifcs

All-map {ℓ κ} :
    {A : Type ℓ} (P Q : A → Type κ) (xs : List A) → ((x : A) → P x → Q x) → All P xs → All Q xs
All-map P Q [] f h = tt
All-map P Q (x ∷ xs) f h = (f x h.0, All-map P Q xs f h.1)

closer-IsNext :
    (xaddr : ℕ) (phy : ℤ) (seen : List Interface) (ip : Interface) (best : Option Interface)
    → IsNext xaddr phy seen best
    → IsNext xaddr phy (ip ∷ seen) (closer xaddr phy ip best)
closer-IsNext xaddr phy seen ip none h =
    elim (Bool-cases (before phy xaddr ip.if_physic ip.if_addr)) [
      | inl e ↦
          rw (closer_lem xaddr phy ip none, e)
            (
              e,
              Memᴰ.head refl,
              (
                (λ _. before_irrefl ip.if_physic ip.if_addr),
                All-map _ _ seen (λ x out behind. cc (out, behind)) h,
              ),
            )
      | inr e ↦ rw (closer_lem xaddr phy ip none, e) (e, h)
    ]
closer-IsNext xaddr phy seen ip (some b) h =
    elim (Bool-cases (before phy xaddr ip.if_physic ip.if_addr)) [
      | inl e ↦ elim (Bool-cases (before b.if_physic b.if_addr ip.if_physic ip.if_addr)) [
        | inl l ↦
            rw (closer_lem xaddr phy ip (some b), e, l)
              (
                h.0,
                Memᴰ.tail h.1,
                ((λ _. before-asym b.if_physic ip.if_physic b.if_addr ip.if_addr l), h.2),
              )
        | inr l ↦
            rw (closer_lem xaddr phy ip (some b), e, l)
              (
                e,
                Memᴰ.head refl,
                (
                  (λ _. before_irrefl ip.if_physic ip.if_addr),
                  All-map _ _ seen
                      (λ x later behind.
                        before_trans x.if_physic b.if_physic ip.if_physic x.if_addr b.if_addr
                          ip.if_addr (later behind) l)
                      h.2,
                ),
              )
      ]
      | inr e ↦
          rw (closer_lem xaddr phy ip (some b), e)
            (h.0, Memᴰ.tail h.1, ((λ behind. cc (e, behind)), h.2))
    ]

next_loop-IsNext :
    (xaddr : ℕ) (phy : ℤ) (seen ifcs : List Interface) (best : Option Interface)
    → IsNext xaddr phy seen best
    → IsNext xaddr phy (reverse_onto seen ifcs) (next_loop xaddr phy ifcs best)
unfolding next_loop
next_loop-IsNext xaddr phy seen [] best h = h
next_loop-IsNext xaddr phy seen (ip ∷ ifcs) best h =
    next_loop-IsNext xaddr phy (ip ∷ seen) ifcs (closer xaddr phy ip best)
      (closer-IsNext xaddr phy seen ip best h)

All-back {κ} :
    (P : Interface → Type κ) (seen ifcs : List Interface)
    → All P (reverse_onto seen ifcs)
    → All P seen × All P ifcs
All-back P seen [] h = (h, tt)
All-back P seen (ip ∷ ifcs) h =
    let ((here, before_it), after) = All-back P (ip ∷ seen) ifcs h in (before_it, (here, after))

member-back :
    (x : Interface) (seen ifcs : List Interface)
    → Memᴰ x (reverse_onto seen ifcs)
    → Memᴰ x seen ⊎ Memᴰ x ifcs
member-back x seen [] m = inl m
member-back x seen (ip ∷ ifcs) m = elim (member-back x (ip ∷ seen) ifcs m) [
  | inl (Memᴰ.head e) ↦ inr (Memᴰ.head e)
  | inl (Memᴰ.tail n) ↦ inl n
  | inr n ↦ inr (Memᴰ.tail n)
]

IsNext-back :
    (xaddr : ℕ) (phy : ℤ) (ifcs : List Interface) (best : Option Interface)
    → IsNext xaddr phy (reverse_onto [] ifcs) best
    → IsNext xaddr phy ifcs best
IsNext-back xaddr phy ifcs none h = (All-back _ [] ifcs h).1
IsNext-back xaddr phy ifcs (some b) h = (
  h.0,
  elim (member-back b [] ifcs h.1) [ inl m ↦ absurd (Memᴰ.not-nil m) | inr m ↦ m ],
  (All-back _ [] ifcs h.2).1,
)

-- `next_ifc` finds the first interface behind a place in the order of physical interfaces and
-- addresses, and nothing only if no interface is behind it.
pub next_ifc-IsNext :
    (xaddr : ℕ) (phy : ℤ) (ifcs : List Interface) → IsNext xaddr phy ifcs (next_ifc xaddr phy ifcs)
unfolding next_ifc
next_ifc-IsNext xaddr phy ifcs =
    IsNext-back xaddr phy ifcs (next_loop xaddr phy ifcs none)
      (next_loop-IsNext xaddr phy [] ifcs none tt)
