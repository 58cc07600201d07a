-- ===== src/Retrans/Sound.antt =====
-- THospf/ospfAck.cpp: the lists, the counters and the timer together, and a flood.
use ospfbasic.Prelude.{
  ℕ, ◌+◌, ◌%◌, ◌^◌, ◌≡◌, ap, subst, ◌∙◌, inl, inr, ◌⊎◌, Bool, true, false, [], ◌∷◌, Option, none,
  some, ◌==◌, if◌then◌else◌, length-append, arith, Bool-cases,
}
use ospfbasic.Retrans.{Neighbor, set_rxmt, start, add_to_retranslist}
use ospfbasic.Retrans.Wakeup.{Counted, Marked, owed}
use ospfbasic.Retrans.Packets.{occurs-append}
use ospfbasic.Retrans.Updates.{Sized, Awake, is_running, start-runs}

-- `retrans_cnt` and the valid advertisements' `lsa_rxmt` count the lists' members, next to the
-- `others` of the other neighbors, and the timer runs if there are any.
pub record IsSound (others : ℕ → ℕ) (np : Neighbor) : Type 0 where
  pub counted : Counted 0 np
  pub marked : Marked others np
  pub awake : Awake np
  pub sized : Sized np

abbrev pub Returns : (Neighbor → Type 0) → Option Neighbor → Type 0
Returns P none = ⊥
Returns P (some np) = P np

pub same_address : (a b : ℕ) → (b == a) ≡ true → ((a == b) ≡ true) × (b ≡ a)
same_address a b e = (ground arith, ground arith)

pub other_address : (a b : ℕ) → (b == a) ≡ false → (a == b) ≡ false
other_address a b e = ground arith

-- `lsa_rxmt` of one advertisement goes with how often it is in the lists.
pub set_rxmt-lem :
    (f : ℕ → ℕ) (a b v now before : ℕ) (others : ℕ → ℕ)
    → (f b ≡ (others b + before) % 2 ^ 16)
    → (((b == a) ≡ true) → f a ≡ (others b + before) % 2 ^ 16 → v ≡ (others b + now) % 2 ^ 16)
    → (((b == a) ≡ false) → before ≡ now)
    → set_rxmt f a v b ≡ (others b + now) % 2 ^ 16
unfolding set_rxmt
set_rxmt-lem f a b v now before others m p q = elim (Bool-cases (b == a)) [
  | inl e ↦ rw e (p e (subst (λ c. f c ≡ (others b + before) % 2 ^ 16) (same_address a b e).1 m))
  | inr e ↦ rw e (m ∙ ap (λ n. (others b + n) % 2 ^ 16) (q e))
]

add_to_retranslist-Marked :
    (others : ℕ → ℕ) (a : ℕ) (np : Neighbor)
    → Marked others np
    → Marked others (add_to_retranslist a np)
unfolding add_to_retranslist
add_to_retranslist-Marked others a np m b v =
    let o = occurs-append b np.retrans (a ∷ []) in
    set_rxmt-lem np.lsa_rxmt a b ((np.lsa_rxmt a + 1) % 2 ^ 16) _ (owed b np) others (m b v)
      (λ e h. let t = (same_address a b e).0 in ground arith)
      (λ e. let t = other_address a b e in ground arith)

started :
    (b : Bool) (s : ℕ) (t : Option ℕ)
    → (is_running t ≡ true) ⊎ (b ≡ true)
    → is_running (if b then start s t else t) ≡ true
started true s t h = start-runs s t
started false s t (inl h) = h
started false s t (inr h) = cc h

add_to_retranslist-Awake :
    (a : ℕ) (np : Neighbor) → Counted 0 np → Awake np → Awake (add_to_retranslist a np)
unfolding add_to_retranslist
add_to_retranslist-Awake a np c (inl r) = inl (started _ np.rxmt_interval np.lsat (inl r))
add_to_retranslist-Awake a np c (inr w) =
    let e : ((np.retrans_cnt + 1) % 2 ^ 32 == 1) ≡ true = ground arith in
    inl (started _ np.rxmt_interval np.lsat (inr e))

pub add_to_retranslist-IsSound :
    (others : ℕ → ℕ) (a : ℕ) (np : Neighbor)
    → IsSound others np
    → IsSound others (add_to_retranslist a np)
unfolding add_to_retranslist
add_to_retranslist-IsSound others a np s =
    let g = length-append np.retrans (a ∷ []) in
    record {
      counted = omega (arith, s.counted);
      marked = add_to_retranslist-Marked others a np s.marked;
      awake = add_to_retranslist-Awake a np s.counted s.awake;
      sized = s.sized;
    }
