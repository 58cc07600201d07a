-- ===== src/Checksum/Fletcher/Plain.antt =====
-- The two sums of THospf/LSA.cpp's `fletcher` without chunks: the plain sum of the bytes and the
-- sum weighted by how many bytes are left.
use native.Mathlib.Nat.{div-add-mod}
use ospfbasic.Prelude.{
  ℕ, zero, suc, ◌+◌, ◌-◌, ◌*◌, ◌%◌, ◌≤◌, ◌≡◌, refl, sym, ap, ◌∙◌, List, [], ◌∷◌, ◌++◌, length, set,
  take, drop, get_elem?, some, arith, take-append-drop, length-drop, length-append, length-set,
}
use ospfbasic.Checksum.Fletcher.{modx, Sums, sums, add_bytes, reduce, add_chunks}

unfoldable pub byte_sum : List ℕ → ℕ
byte_sum [] = 0
byte_sum (b ∷ bs) = b + byte_sum bs

-- The byte at `i` of `n` counts `n - i` times.
unfoldable pub weighted_sum : List ℕ → ℕ
weighted_sum [] = 0
weighted_sum (b ∷ bs) = suc (length bs) * b + weighted_sum bs

pub byte_sum-append : (xs ys : List ℕ) → byte_sum (xs ++ ys) ≡ byte_sum xs + byte_sum ys
unfolding byte_sum
byte_sum-append [] ys = omega arith
byte_sum-append (x ∷ xs) ys = omega (arith, byte_sum-append xs ys)

pub weighted_sum-append :
    (xs ys : List ℕ)
    → weighted_sum (xs ++ ys) ≡ weighted_sum xs + length ys * byte_sum xs + weighted_sum ys
unfolding byte_sum weighted_sum
weighted_sum-append [] ys = omega arith
weighted_sum-append (x ∷ xs) ys =
    omega (arith, weighted_sum-append xs ys, ap (λ (t : ℕ). suc t * x) (length-append xs ys))

-- The inner loop in closed form.
pub add_bytes_c0 : (bs : List ℕ) (s : Sums) → (add_bytes bs s).c0 ≡ s.c0 + byte_sum bs
unfolding add_bytes byte_sum
add_bytes_c0 [] s = omega arith
add_bytes_c0 (b ∷ bs) s = omega (arith, add_bytes_c0 bs (sums (s.c0 + b) (s.c1 + (s.c0 + b))))

pub add_bytes_c1 :
    (bs : List ℕ) (s : Sums) → (add_bytes bs s).c1 ≡ s.c1 + length bs * s.c0 + weighted_sum bs
unfolding add_bytes weighted_sum
add_bytes_c1 [] s = omega arith
add_bytes_c1 (b ∷ bs) s = omega (arith, add_bytes_c1 bs (sums (s.c0 + b) (s.c1 + (s.c0 + b))))

-- Setting a zero byte adds its weight.
pub byte_sum-set :
    (bs : List ℕ) (i v : ℕ) → get_elem? bs i ≡ some 0 → byte_sum (set bs i v) ≡ byte_sum bs + v
unfolding byte_sum
byte_sum-set [] i v h = cc
byte_sum-set (b ∷ bs) zero v h = ground arith
byte_sum-set (b ∷ bs) (suc i) v h = omega (arith, byte_sum-set bs i v h)

pub weighted_sum-set :
    (bs : List ℕ) (i v : ℕ)
    → get_elem? bs i ≡ some 0
    → weighted_sum (set bs i v) ≡ weighted_sum bs + (length bs - i) * v
unfolding weighted_sum
weighted_sum-set [] i v h = cc
weighted_sum-set (b ∷ bs) zero v h = ground arith
weighted_sum-set (b ∷ bs) (suc i) v h =
    let less : suc (length bs) - suc i ≡ length bs - i = omega arith in
    omega (
      arith,
      weighted_sum-set bs i v h,
      ap (λ (t : ℕ). t * v) less,
      length-set bs i v,
      ap (λ (t : ℕ). suc t * b) (length-set bs i v),
    )

-- Reducing between two chunks changes neither sum modulo 255.
chunk_step :
    (xs ys bs : List ℕ) (s r : Sums) (a : Sums)
    → xs ++ ys ≡ bs
    → add_bytes xs s ≡ a
    → r.c0 % 255 ≡ (a.c0 % 255 + byte_sum ys) % 255
    → r.c1 % 255 ≡ (a.c1 % 255 + length ys * (a.c0 % 255) + weighted_sum ys) % 255
    → (r.c0 % 255 ≡ (s.c0 + byte_sum bs) % 255)
      × (r.c1 % 255 ≡ (s.c1 + length bs * s.c0 + weighted_sum bs) % 255)
chunk_step xs ys bs s r a split e h k =
    let len : length bs ≡ length xs + length ys = sym (ap length split) ∙ length-append xs ys in
    let f0 = ap (λ (t : Sums). t.c0) e in
    let f1 = ap (λ (t : Sums). t.c1) e in
    let d = div-add-mod a.c0 255 in
    let g0 : a.c0 ≡ s.c0 + byte_sum xs = omega (arith, add_bytes_c0 xs s) in
    let g1 : a.c1 ≡ s.c1 + length xs * s.c0 + weighted_sum xs = omega (arith, add_bytes_c1 xs s) in
    (
      omega (arith, ap byte_sum split, byte_sum-append xs ys),
      omega (
        arith,
        ap weighted_sum split,
        weighted_sum-append xs ys,
        ap (λ (t : ℕ). t * s.c0) len,
        ap (λ (t : ℕ). length ys * t) g0,
        ap (λ (t : ℕ). length ys * t) d,
      ),
    )

-- With the message's length as fuel the chunked sums are the plain ones modulo 255.
pub add_chunks_lem :
    (f : ℕ) (bs : List ℕ) (s : Sums)
    → length bs ≤ f
    → ((add_chunks f bs s).c0 % 255 ≡ (s.c0 + byte_sum bs) % 255)
      × ((add_chunks f bs s).c1 % 255 ≡ (s.c1 + length bs * s.c0 + weighted_sum bs) % 255)
unfolding add_chunks byte_sum weighted_sum
add_chunks_lem zero [] s h = (omega arith, omega arith)
add_chunks_lem zero (b ∷ bs) s h = absurd (omega arith)
add_chunks_lem (suc f) [] s h = (omega arith, omega arith)
add_chunks_lem (suc f) (b ∷ bs) s h =
    let a = add_bytes (take modx (b ∷ bs)) s in
    let ys = drop modx (b ∷ bs) in
    let rest = add_chunks_lem f ys (reduce a) (omega (arith, length-drop modx (b ∷ bs))) in
    chunk_step (take modx (b ∷ bs)) ys (b ∷ bs) s (add_chunks f ys (reduce a)) a
      (take-append-drop modx (b ∷ bs)) refl rest.0 rest.1
