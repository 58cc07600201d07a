-- ===== src/Checksum/Fletcher/Bounds.antt =====
-- No `int` overflows in THospf/LSA.cpp's `fletcher`: modx bytes are few enough.
use native.Mathlib.Nat.{mul-le-mul, mul-le-mul_left}
use ospfbasic.Prelude.{ℕ, suc, ◌*◌, ◌^◌, ◌≤◌, ◌<◌, List, [], ◌∷◌, length, arith, All}
use ospfbasic.Checksum.Fletcher.{modx, Sums, add_bytes}
use ospfbasic.Checksum.Fletcher.Plain.{byte_sum, weighted_sum, add_bytes_c0, add_bytes_c1}

byte_sum-le : (bs : List ℕ) → All (λ b. b < 256) bs → byte_sum bs ≤ 255 * length bs
unfolding byte_sum
byte_sum-le [] h = omega arith
byte_sum-le (b ∷ bs) h = omega (arith, byte_sum-le bs h.1)

weighted_sum-le :
    (bs : List ℕ)
    → All (λ b. b < 256) bs
    → 2 * weighted_sum bs ≤ 255 * (length bs * suc (length bs))
unfolding weighted_sum
weighted_sum-le [] h = omega arith
weighted_sum-le (b ∷ bs) h =
    let top : b ≤ 255 = omega arith in
    omega (arith, weighted_sum-le bs h.1, mul-le-mul_left (suc (length bs)) top)

-- From reduced sums, after any number of bytes of one chunk, at most modx, both sums are below
-- 2 ^ 31: the `int` arithmetic of the inner loop never overflows.
pub add_bytes-fits :
    (bs : List ℕ) (s : Sums)
    → All (λ b. b < 256) bs
    → length bs ≤ modx
    → s.c0 < 255
    → s.c1 < 255
    → ((add_bytes bs s).c0 < 2 ^ 31) × ((add_bytes bs s).c1 < 2 ^ 31)
add_bytes-fits bs s h few k l =
    let c : s.c0 ≤ 254 = omega arith in
    let next : suc (length bs) ≤ 4103 = omega arith in
    (
      omega (arith, add_bytes_c0 bs s, byte_sum-le bs h),
      omega (arith, add_bytes_c1 bs s, weighted_sum-le bs h, mul-le-mul few c, mul-le-mul few next),
    )
