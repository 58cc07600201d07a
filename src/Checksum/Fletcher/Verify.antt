-- ===== src/Checksum/Fletcher/Verify.antt =====
-- THospf/LSA.cpp: `generate_cksum` against `verify_cksum`, and what `verify_cksum` detects.
use ospfbasic.Prelude.{
  ℕ, zero, suc, ◌+◌, ◌-◌, ◌*◌, ◌%◌, ◌≤◌, ◌<◌, ◌≡◌, ◌≢◌, refl, ap, ap₂, ◌∙◌, ◌⊎◌, inl, inr, true,
  List, [], ◌∷◌, ◌++◌, length, set, take, drop, get_elem?, get_or, some, arith, ==_iff, length-set,
  length-drop, length-take, get_elem?-set_self, get_elem?-set_ne,
}
use ospfbasic.Checksum.Fletcher.{
  modx, Sums, sums, add_chunks, checksum_sums, check_iq, check_ir, clear_check, store_check,
  fletcher, ls_length, message_length, xsum_offset, verify_cksum, generate_cksum,
}
use ospfbasic.Checksum.Fletcher.Plain.{
  byte_sum, weighted_sum, byte_sum-set, weighted_sum-set, add_chunks_lem,
}

add_chunks-lt :
    (f : ℕ) (bs : List ℕ) (s : Sums)
    → s.c0 < 255
    → s.c1 < 255
    → length bs ≤ f
    → ((add_chunks f bs s).c0 < 255) × ((add_chunks f bs s).c1 < 255)
unfolding add_chunks
add_chunks-lt zero [] s h k l = (h, k)
add_chunks-lt zero (b ∷ bs) s h k l = absurd (omega arith)
add_chunks-lt (suc f) [] s h k l = (h, k)
add_chunks-lt (suc f) (b ∷ bs) s h k l =
    add_chunks-lt f (drop modx (b ∷ bs)) _ (omega arith) (omega arith)
      (omega (arith, length-drop modx (b ∷ bs)))

-- The loops compute both sums modulo 255, whatever the message's length.
pub checksum_sums_lem :
    (message : List ℕ)
    → ((checksum_sums message).c0 ≡ byte_sum message % 255)
      × ((checksum_sums message).c1 ≡ weighted_sum message % 255)
unfolding checksum_sums
checksum_sums_lem message =
    let n = length message in
    let m = add_chunks_lem n message (sums 0 0) (omega arith) in
    let l = add_chunks-lt n message (sums 0 0) (omega arith) (omega arith) (omega arith) in
    (omega arith, omega arith)

-- The message passes exactly if both sums are multiples of 255.
fletcher-zero :
    (message : List ℕ)
    → byte_sum message % 255 ≡ 0
    → weighted_sum message % 255 ≡ 0
    → (fletcher message 0).0 ≡ 0
unfolding fletcher
fletcher-zero message h k = let e = checksum_sums_lem message in omega arith

byte_sum-fletcher : (message : List ℕ) → (fletcher message 0).0 ≡ 0 → byte_sum message % 255 ≡ 0
unfolding fletcher
byte_sum-fletcher message h = let e = checksum_sums_lem message in omega arith

-- The check bytes solve the two congruences.
check_iq_lem :
    (p c1 : ℕ)
    → (1 ≤ check_iq p c1) × (check_iq p c1 ≤ 255) × ((check_iq p c1 + c1) % 255 ≡ p % 255)
unfolding check_iq
check_iq_lem p c1 = ground arith

check_ir_lem :
    (c0 iq : ℕ)
    → c0 < 255
    → 1 ≤ iq
    → iq ≤ 255
    → (check_ir c0 iq ≤ 255) × ((iq + check_ir c0 iq + c0 ≡ 255) ⊎ (iq + check_ir c0 iq + c0 ≡ 510))
unfolding check_ir
check_ir_lem c0 iq h k l = ground arith

combine :
    (n w c0 q r k : ℕ)
    → q + r + c0 ≡ 255 * k
    → (q + w % 255) % 255 ≡ (n * c0) % 255
    → (w + (n + 1) * q + n * r) % 255 ≡ 0
combine n w c0 q r k e h = omega (arith, ap (λ (t : ℕ). n * t) e)

-- Storing the check bytes in two zero bytes makes both sums multiples of 255.
store_check_lem :
    (i : ℕ) (m : List ℕ)
    → suc i < length m
    → get_elem? m i ≡ some 0
    → get_elem? m (suc i) ≡ some 0
    → (byte_sum (store_check (suc i) (checksum_sums m) m) % 255 ≡ 0)
      × (weighted_sum (store_check (suc i) (checksum_sums m) m) % 255 ≡ 0)
unfolding store_check
store_check_lem i m room h k =
    let s = checksum_sums m in
    let n = length m - suc i in
    let q = check_iq (n * s.c0) s.c1 in
    let r = check_ir s.c0 q in
    let one = set m i q in
    let e = checksum_sums_lem m in
    let Q = check_iq_lem (n * s.c0) s.c1 in
    let R = check_ir_lem s.c0 q (omega arith) Q.0 Q.1 in
    let before : suc i - 1 ≡ i = omega arith in
    let untouched : get_elem? one (suc i) ≡ some 0 =
      get_elem?-set_ne m {i = i} {j = suc i} q (omega arith) ∙ k in
    let b1 = byte_sum-set m i q h in
    let b2 = byte_sum-set one (suc i) r untouched in
    let w1 = weighted_sum-set m i q h in
    let w2 = weighted_sum-set one (suc i) r untouched in
    let at_i : length m - i ≡ n + 1 = omega arith in
    let at_next : length one - suc i ≡ n = omega (arith, length-set m i q) in
    let total : weighted_sum (set one (suc i) r) ≡ weighted_sum m + (n + 1) * q + n * r =
      omega (arith, ap (λ (t : ℕ). t * q) at_i, ap (λ (t : ℕ). t * r) at_next) in
    let iq : (q + weighted_sum m % 255) % 255 ≡ (n * s.c0) % 255 = omega (arith, Q.2, e.1) in
    rw before (
      omega (arith, R),
      ap (λ (t : ℕ). t % 255) total ∙ (elim R.1 [
        | inl once ↦ combine n (weighted_sum m) s.c0 q r 1 once iq
        | inr twice ↦ combine n (weighted_sum m) s.c0 q r 2 twice iq
      ]),
    )

-- The bytes behind the check bytes stay as they were.
get_or-set_ne : (xs : List ℕ) (i j v : ℕ) → i ≢ j → get_or (set xs i v) j 0 ≡ get_or xs j 0
get_or-set_ne [] i j v h = refl
get_or-set_ne (x ∷ xs) zero zero v h = absurd (h refl)
get_or-set_ne (x ∷ xs) zero (suc j) v h = refl
get_or-set_ne (x ∷ xs) (suc i) zero v h = refl
get_or-set_ne (x ∷ xs) (suc i) (suc j) v h = get_or-set_ne xs i j v (λ e. h (ap suc e))

get_or-append_take :
    (n : ℕ) (xs ys : List ℕ) (j : ℕ) → length xs ≡ n → j < n → get_or (xs ++ ys) j 0 ≡ get_or xs j 0
get_or-append_take n [] ys j e h = absurd (omega arith)
get_or-append_take n (x ∷ xs) ys zero e h = refl
get_or-append_take n (x ∷ xs) ys (suc j) e h =
    get_or-append_take (length xs) xs ys j refl (omega arith)

get_or-take : (n : ℕ) (xs : List ℕ) (j : ℕ) → j < n → get_or (take n xs) j 0 ≡ get_or xs j 0
get_or-take zero xs j h = absurd (omega arith)
get_or-take (suc n) [] j h = refl
get_or-take (suc n) (x ∷ xs) zero h = refl
get_or-take (suc n) (x ∷ xs) (suc j) h = get_or-take n xs j (omega arith)

take-append : (n : ℕ) (xs ys : List ℕ) → length xs ≡ n → take n (xs ++ ys) ≡ xs
take-append zero [] ys e = refl
take-append zero (x ∷ xs) ys e = absurd (omega arith)
take-append (suc n) [] ys e = absurd (omega arith)
take-append (suc n) (x ∷ xs) ys e = ap (◌∷◌ x) (take-append n xs ys (omega arith))

-- What `fletcher` leaves in a message with room for the check bytes.
abbrev filled : List ℕ → List ℕ
filled message = (fletcher message xsum_offset).1

length-filled : (message : List ℕ) → length (filled message) ≡ length message
unfolding fletcher store_check clear_check
length-filled message =
    let m = clear_check xsum_offset message in
    length-set _ 15 _ ∙ length-set _ 14 _ ∙ length-set _ 15 _ ∙ length-set _ 14 _

get_or-filled :
    (message : List ℕ) (j : ℕ) → 15 < j → get_or (filled message) j 0 ≡ get_or message j 0
unfolding fletcher store_check clear_check
get_or-filled message j h =
    get_or-set_ne _ 15 j _ (omega arith)
    ∙ get_or-set_ne _ 14 j _ (omega arith)
    ∙ get_or-set_ne _ 15 j _ (omega arith)
    ∙ get_or-set_ne _ 14 j _ (omega arith)

filled-passes : (message : List ℕ) → 15 < length message → (fletcher (filled message) 0).0 ≡ 0
unfolding clear_check
filled-passes message room =
    let one = set message 14 0 in
    let len1 = length-set message 14 0 in
    let m = clear_check xsum_offset message in
    let len = length-set one 15 0 in
    let at_15 : get_elem? m 15 ≡ some 0 = get_elem?-set_self one 15 0 (omega arith) in
    let at_14 : get_elem? m 14 ≡ some 0 =
      get_elem?-set_ne one {i = 15} {j = 14} 0 (omega arith)
      ∙ get_elem?-set_self message 14 0 (omega arith) in
    let both = store_check_lem 14 m (omega arith) at_14 at_15 in
    unfold fletcher in fletcher-zero _ both.0 both.1

byte_kept :
    (n : ℕ) (buf : List ℕ) (j : ℕ)
    → length (take n buf) ≡ n
    → 15 < j
    → j < n
    → get_or (filled (take n buf) ++ drop n buf) j 0 ≡ get_or buf j 0
byte_kept n buf j len low high =
    get_or-append_take n (filled (take n buf)) (drop n buf) j (length-filled (take n buf) ∙ len)
      high
    ∙ get_or-filled (take n buf) j low
    ∙ get_or-take n buf j high

message_length-generate :
    (buf : List ℕ)
    → 18 ≤ message_length buf
    → length (take (message_length buf) buf) ≡ message_length buf
    → message_length (generate_cksum buf) ≡ message_length buf
unfolding generate_cksum message_length ls_length
message_length-generate buf room len =
    let n = get_or buf 16 0 * 256 + get_or buf 17 0 - 2 in
    let hi = byte_kept n buf 16 len (omega arith) (omega arith) in
    let lo = byte_kept n buf 17 len (omega arith) (omega arith) in
    ap₂ (λ (a b : ℕ). a * 256 + b - 2) hi lo

passes :
    (n : ℕ) (buf xs ys : List ℕ)
    → message_length buf ≡ n
    → buf ≡ xs ++ ys
    → length xs ≡ n
    → (fletcher xs 0).0 ≡ 0
    → verify_cksum buf ≡ true
unfolding verify_cksum
passes n buf xs ys e split len zero_sum =
    let cut : take (message_length buf) buf ≡ xs = ap₂ take e split ∙ take-append n xs ys len in
    (==_iff _ 0).1 (ap (λ (m : List ℕ). (fletcher m 0).0) cut ∙ zero_sum)

-- After `generate_cksum` on an advertisement whose header is complete and which lies within its
-- buffer, `verify_cksum` accepts, and the length that it reads is the one from before.
pub verify-generate :
    (buf : List ℕ)
    → 18 ≤ message_length buf
    → message_length buf ≤ length buf
    → (verify_cksum (generate_cksum buf) ≡ true)
      × (message_length (generate_cksum buf) ≡ message_length buf)
verify-generate buf room fits =
    let n = message_length buf in
    let len : length (take n buf) ≡ n = omega (arith, length-take n buf) in
    let same = message_length-generate buf room len in
    (
      passes n (generate_cksum buf) (filled (take n buf)) (drop n buf) same
          (unfold generate_cksum in refl) (length-filled (take n buf) ∙ len)
          (filled-passes (take n buf) (omega arith)),
      same,
    )

byte_sum-replace :
    (bs : List ℕ) (i v b : ℕ)
    → get_elem? bs i ≡ some b
    → byte_sum (set bs i v) + b ≡ byte_sum bs + v
unfolding byte_sum
byte_sum-replace [] i v b h = cc
byte_sum-replace (x ∷ bs) zero v b h = ground arith
byte_sum-replace (x ∷ bs) (suc i) v b h = omega (arith, byte_sum-replace bs i v b h)

-- A message that passes no longer passes when one of its bytes is replaced by a byte that differs
-- from it modulo 255, that is by any other byte, unless 0 and 255 are exchanged.
pub fletcher-detects :
    (message : List ℕ) (i v b : ℕ)
    → (fletcher message 0).0 ≡ 0
    → get_elem? message i ≡ some b
    → v % 255 ≢ b % 255
    → (fletcher (set message i v) 0).0 ≢ 0
fletcher-detects message i v b ok at_i differs broken = differs (
    omega (
      arith,
      byte_sum-fletcher message ok,
      byte_sum-fletcher (set message i v) broken,
      byte_sum-replace message i v b at_i,
    ))
