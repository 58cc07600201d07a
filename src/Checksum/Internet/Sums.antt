-- ===== src/Checksum/Internet/Sums.antt =====
-- `incksum` of THospf/ospfUtil.cpp in closed form: the sum of the words modulo 0xffff.
use ospfbasic.Prelude.{
  ℕ, ◌+◌, ◌*◌, ◌%◌, ◌≤◌, ◌<◌, ◌≡◌, ◌≢◌, List, [], ◌∷◌, ◌++◌, arith, All, length,
}
use ospfbasic.Checksum.Internet.{add_carry, incksum_loop, incksum}

-- The bytes as words, low byte first; an odd last byte counts as a high one.
unfoldable pub word_sum : List ℕ → ℕ
word_sum [] = 0
word_sum (b ∷ []) = b * 256
word_sum (lo ∷ hi ∷ rest) = lo + hi * 256 + word_sum rest

abbrev pub Bytes : List ℕ → Type 0
Bytes = All (λ b. b < 256)

add_carry_lem :
    (x w : ℕ)
    → x ≤ 0xffff
    → w ≤ 0xffff
    → (add_carry x w ≤ 0xffff) × (add_carry x w % 0xffff ≡ (x + w) % 0xffff)
unfolding add_carry
add_carry_lem x w h k = ground arith

incksum_loop_lem :
    (bs : List ℕ) (x : ℕ)
    → Bytes bs
    → x ≤ 0xffff
    → (incksum_loop bs x ≤ 0xffff) × (incksum_loop bs x % 0xffff ≡ (x + word_sum bs) % 0xffff)
unfolding incksum_loop word_sum
incksum_loop_lem [] x h k = (omega arith, omega arith)
incksum_loop_lem (b ∷ []) x h k = add_carry_lem x (b * 256) k (omega arith)
incksum_loop_lem (lo ∷ hi ∷ rest) x h k =
    let a = add_carry_lem x (lo + hi * 256) k (omega arith) in
    let r = incksum_loop_lem rest (add_carry x (lo + hi * 256)) h.1.1 a.0 in
    (omega (arith, r), omega (arith, r))

-- `incksum` is the sum of the words and the seed modulo 0xffff; the end-around carry loses
-- nothing.
pub incksum_lem :
    (bs : List ℕ) (seed : ℕ)
    → Bytes bs
    → seed ≤ 0xffff
    → incksum bs seed ≡ (seed + word_sum bs) % 0xffff
unfolding incksum
incksum_lem bs seed h k = ground (arith, incksum_loop_lem bs seed h k)

-- An even number of bytes.
abbrev pub IsPaired : List ℕ → Type 0
IsPaired xs = length xs % 2 ≡ 0

pub word_sum-append :
    (xs ys : List ℕ) → IsPaired xs → word_sum (xs ++ ys) ≡ word_sum xs + word_sum ys
unfolding word_sum
word_sum-append [] ys h = omega arith
word_sum-append (b ∷ []) ys h = absurd (omega arith)
word_sum-append (lo ∷ hi ∷ rest) ys h = omega (arith, word_sum-append rest ys (omega arith))

pub Bytes-append : (xs ys : List ℕ) → Bytes xs → Bytes ys → Bytes (xs ++ ys)
Bytes-append [] ys h k = k
Bytes-append (x ∷ xs) ys h k = (h.0, Bytes-append xs ys h.1 k)

-- The checksum of a body is the seed that continues it: over an even number of bytes the two
-- passes give the checksum of the whole.
pub incksum-append :
    (xs ys : List ℕ)
    → IsPaired xs
    → Bytes xs
    → Bytes ys
    → incksum xs (incksum ys 0) ≡ incksum (xs ++ ys) 0
incksum-append xs ys paired h k =
    let e = incksum_lem ys 0 k (omega arith) in
    omega (
      arith,
      incksum_lem xs (incksum ys 0) h (omega arith),
      incksum_lem (xs ++ ys) 0 (Bytes-append xs ys h k) (omega arith),
      word_sum-append xs ys paired,
    )

-- The Internet checksum pads an odd number of bytes by a zero byte. `incksum` does not: behind an
-- even number of bytes, a last byte that is not 0 changes the result when it is padded so.
pub incksum-odd_differs :
    (xs : List ℕ) (b : ℕ)
    → IsPaired xs
    → Bytes xs
    → 0 < b
    → b < 256
    → incksum (xs ++ b ∷ []) 0 ≢ incksum (xs ++ b ∷ 0 ∷ []) 0
unfolding word_sum
incksum-odd_differs xs b paired h low high same = absurd (
    omega (
      arith,
      incksum_lem (xs ++ b ∷ []) 0 (Bytes-append xs (b ∷ []) h (omega arith)) (omega arith),
      incksum_lem (xs ++ b ∷ 0 ∷ []) 0 (Bytes-append xs (b ∷ 0 ∷ []) h (omega arith)) (omega arith),
      word_sum-append xs (b ∷ []) paired,
      word_sum-append xs (b ∷ 0 ∷ []) paired,
    ))
