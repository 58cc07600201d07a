-- ===== src/Checksum/Fletcher.antt =====
-- THospf/LSA.cpp: `fletcher`, `LShdr::verify_cksum` and `LShdr::generate_cksum`. A message is the
-- list of its bytes, counted from the field `ls_opts`. An `int` is a number here; that none
-- overflows is shown in Bounds.
pub mod Plain
pub mod Bounds
pub mod Verify
mod Tests
use ospfbasic.Prelude.{
  ℕ, zero, suc, ◌+◌, ◌-◌, ◌*◌, ◌/◌, ◌%◌, ◌^◌, ◌≡◌, refl, Bool, ◌&&◌, List, [], ◌∷◌, ◌++◌, length,
  get_or, set, take, drop, ltb, leb, ◌==◌, if◌then◌else◌,
}

abbrev pub modx : ℕ
modx = 4102

-- The two running sums `c0` and `c1`.
pub record Sums : Type 0 where
  pub c0 : ℕ
  pub c1 : ℕ

abbrev pub sums : ℕ → ℕ → Sums
sums a b = record { c0 = a; c1 = b }

-- The inner loop, over the bytes up to `stop`.
pub add_bytes : List ℕ → Sums → Sums
add_bytes [] s = s
add_bytes (b ∷ bs) s = add_bytes bs (sums (s.c0 + b) (s.c1 + (s.c0 + b)))

abbrev pub reduce : Sums → Sums
reduce s = sums (s.c0 % 255) (s.c1 % 255)

-- The outer loop: at most modx bytes a round, then both sums are reduced. The first argument is
-- fuel; a round takes a byte at least, so the message's length is enough.
pub add_chunks : ℕ → List ℕ → Sums → Sums
unfolding add_bytes
add_chunks zero bs s = s
add_chunks (suc f) [] s = s
add_chunks (suc f) (b ∷ bs) s =
    add_chunks f (drop modx (b ∷ bs)) (reduce (add_bytes (take modx (b ∷ bs)) s))

pub checksum_sums : List ℕ → Sums
unfolding add_chunks
checksum_sums message = add_chunks (length message) message (sums 0 0)

-- `((mlen - offset)*c0 - c1) % 255`, raised by 255 unless positive; `p` is the product. The
-- remainder of a negative number is negative or zero in C.
pub check_iq : ℕ → ℕ → ℕ
check_iq p c1 =
    if leb c1 p then (if (p - c1) % 255 == 0 then 255 else (p - c1) % 255) else 255 - (c1 - p) % 255

pub check_ir : ℕ → ℕ → ℕ
check_ir c0 iq = if ltb 255 (510 - c0 - iq) then 510 - c0 - iq - 255 else 510 - c0 - iq

pub clear_check : ℕ → List ℕ → List ℕ
clear_check offset message = set (set message (offset - 1) 0) offset 0

pub store_check : ℕ → Sums → List ℕ → List ℕ
unfolding check_iq check_ir
store_check offset s message =
    let iq = check_iq ((length message - offset) * s.c0) s.c1 in
    set (set message (offset - 1) iq) offset (check_ir s.c0 iq)

-- The checksum, a `uns16`, and the message afterwards; `offset` 0 only computes.
pub fletcher : List ℕ → ℕ → ℕ × List ℕ
unfolding checksum_sums clear_check store_check
fletcher message zero = let s = checksum_sums message in ((s.c1 * 2 ^ 8 + s.c0) % 2 ^ 16, message)
fletcher message (suc k) =
    let cleared = clear_check (suc k) message in
    let s = checksum_sums cleared in ((s.c1 * 2 ^ 8 + s.c0) % 2 ^ 16, store_check (suc k) s cleared)

-- Behind `ls_opts` stand a byte of type, three words of four bytes, the checksum at 14 and 15 and
-- the length at 16 and 17, in network order.
pub ls_length : List ℕ → ℕ
ls_length buf = get_or buf 16 0 * 256 + get_or buf 17 0

-- `ntoh16(ls_length) - sizeof(age_t)`
pub message_length : List ℕ → ℕ
unfolding ls_length
message_length buf = ls_length buf - 2

abbrev pub xsum_offset : ℕ
xsum_offset = 15

pub verify_cksum : List ℕ → Bool
unfolding message_length fletcher
verify_cksum buf = (fletcher (take (message_length buf) buf) 0).0 == 0

-- The buffer may go on behind the advertisement.
pub generate_cksum : List ℕ → List ℕ
unfolding message_length fletcher
generate_cksum buf =
    (fletcher (take (message_length buf) buf) xsum_offset).1 ++ drop (message_length buf) buf
