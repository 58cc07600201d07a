-- ===== src/Lsa/Sequence.antt =====
-- THospf/ospfOrig.cpp: the numbers of `ospf_get_seqno`.
use ospfbasic.Prelude.{
  ℕ, ◌≡◌, ◌<◌, ◌⊎◌, inl, inr, ◌^◌, Bool, true, false, arith, ℤ, pos, negsuc, increment, some,
  Bool-cases,
}
use ospfbasic.Lsa.{Lsa, ospf_get_seqno, is_max_seq, invalid_ls_seq, int_lt}

-- A number that a `seq_t` of 32 bits holds.
abbrev pub IsSeq : ℤ → Type 0
IsSeq (pos n) = n < 2 ^ 31
IsSeq (negsuc n) = n < 2 ^ 31

next_fits :
    (s : ℤ) → IsSeq s → is_max_seq s ≡ false → IsSeq (increment s) × (int_lt s (increment s) ≡ true)
unfolding increment
next_fits (pos n) h k = ground arith
next_fits (negsuc n) h k = ground arith

-- For an advertisement in the database with a number that a `seq_t` holds, the number is the
-- invalid one, or it is greater than that number and a `seq_t` holds it.
pub ospf_get_seqno-IsSeq :
    (bin0 : ℕ) (l : Lsa) (forced : Bool)
    → l.is_valid ≡ true
    → IsSeq l.lsa_seqno
    → (let s : ℤ = (ospf_get_seqno bin0 (some l) forced).seqno in
        (s ≡ invalid_ls_seq) ⊎ ((int_lt l.lsa_seqno s ≡ true) × IsSeq s))
unfolding ospf_get_seqno
ospf_get_seqno-IsSeq bin0 l forced v h = elim (Bool-cases (is_max_seq l.lsa_seqno)) [
  | inl m ↦ ground (arith, v, m)
  | inr m ↦ ground (arith, v, m, next_fits l.lsa_seqno h m)
]
