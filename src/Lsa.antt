-- ===== src/Lsa.antt =====
-- THospf/LSA.h and THospf/LSA.cpp: the header of an advertisement, its age and the comparison of
-- two instances; THospf/ospfOrig.cpp: `ospf_get_seqno`. A header holds the values that its bytes
-- carry; a `seq_t` is signed.
pub mod Age
pub mod Instance
pub mod Sequence
mod Tests
use ospfbasic.Prelude.{
  ℕ, zero, suc, ◌+◌, ◌-◌, ◌%◌, ◌^◌, Bool, true, false, not, ◌&&◌, ◌||◌, Option, none, some, ltb,
  leb, ◌==◌, if◌then◌else◌, ℤ, pos, negsuc, increment,
}

abbrev pub max_age : ℕ
max_age = 3600

abbrev pub max_age_diff : ℕ
max_age_diff = 900

abbrev pub min_ls_interval : ℕ
min_ls_interval = 5

-- 0x80000000, 0x80000001 and 0x7fffffff as signed numbers.
abbrev pub invalid_ls_seq : ℤ
invalid_ls_seq = negsuc (2 ^ 31 - 1)

abbrev pub init_ls_seq : ℤ
init_ls_seq = negsuc (2 ^ 31 - 2)

abbrev pub max_ls_seq : ℤ
max_ls_seq = pos (2 ^ 31 - 1)

-- `DoNotAge` is bit 15 of an `age_t`, of 16 bits: whether it is set, and `age & ~DoNotAge`.
abbrev pub has_do_not_age : ℕ → Bool
has_do_not_age age = leb (2 ^ 15) age

abbrev pub masked_age : ℕ → ℕ
masked_age age = age % 2 ^ 15

-- The comparison of signed numbers.
abbrev pub int_lt : ℤ → ℤ → Bool
int_lt (pos a) (pos b) = ltb a b
int_lt (pos a) (negsuc b) = false
int_lt (negsuc a) (pos b) = true
int_lt (negsuc a) (negsuc b) = ltb b a

pub record LsHdr : Type 0 where
  pub ls_age : ℕ
  pub ls_opts : ℕ
  pub ls_type : ℕ
  pub ls_id : ℕ
  pub ls_org : ℕ
  pub ls_seqno : ℤ
  pub ls_xsum : ℕ
  pub ls_length : ℕ

-- The part of an `LSA` that these functions work on; `is_valid` is `valid()` of its base class.
pub record Lsa : Type 0 where
  pub lsa_rcvage : ℕ
  pub lsa_opts : ℕ
  pub lsa_type : ℕ
  pub ls_id : ℕ
  pub adv_rtr : ℕ
  pub lsa_seqno : ℤ
  pub lsa_xsum : ℕ
  pub lsa_length : ℕ
  pub lsa_agebin : ℕ
  pub is_valid : Bool
  pub in_agebin : Bool
  pub deferring : Bool
  pub rollover : Bool

-- `Age2Bin`, with `LSA::Bin0`; the result is cut to a `uns16`. `Bin2Age` is the same function.
unfoldable pub age_to_bin : ℕ → ℕ → ℕ
age_to_bin bin0 x = if leb x bin0 then bin0 - x else (max_age + 1 + bin0 + (2 ^ 16 - x)) % 2 ^ 16

unfoldable pub bin_to_age : ℕ → ℕ → ℕ
bin_to_age bin0 x = age_to_bin bin0 x

-- The second that begins in `OSPF::dbage`.
unfoldable pub next_bin0 : ℕ → ℕ
next_bin0 bin0 = if ltb max_age (bin0 + 1) then 0 else bin0 + 1

unfoldable pub is_aging : Lsa → Bool
is_aging l =
    if not l.is_valid
    then false
    else if has_do_not_age l.lsa_rcvage
    then false
    else not (l.lsa_rcvage == max_age)

unfoldable pub lsa_age : ℕ → Lsa → ℕ
lsa_age bin0 l = if is_aging l then bin_to_age bin0 l.lsa_agebin else l.lsa_rcvage

-- The difference of two `age_t` is cut to one.
unfoldable pub since_received : ℕ → Lsa → ℕ
since_received bin0 l =
    if is_aging l
    then (lsa_age bin0 l + (2 ^ 16 - l.lsa_rcvage)) % 2 ^ 16
    else bin_to_age bin0 l.lsa_agebin

-- `LSA::hdr_parse` and `LShdr::operator=`.
unfoldable pub hdr_parse : LsHdr → Lsa → Lsa
hdr_parse h l = record l {
  lsa_rcvage = if leb max_age (masked_age h.ls_age) then max_age else h.ls_age;
  lsa_opts = h.ls_opts;
  lsa_seqno = h.ls_seqno;
  lsa_xsum = h.ls_xsum;
  lsa_length = h.ls_length;
}

unfoldable pub header_of : ℕ → Lsa → LsHdr
header_of bin0 l = record {
  ls_age = lsa_age bin0 l;
  ls_opts = l.lsa_opts;
  ls_type = l.lsa_type;
  ls_id = l.ls_id;
  ls_org = l.adv_rtr;
  ls_seqno = l.lsa_seqno;
  ls_xsum = l.lsa_xsum;
  ls_length = l.lsa_length;
}

-- How `cmp_instance` reads an age.
abbrev pub capped_age : ℕ → ℕ
capped_age age = if ltb max_age (masked_age age) then max_age else masked_age age

-- The comparisons of `LSA::cmp_instance`, of what was received and what the database holds.
unfoldable pub cmp_fields : ℤ → ℤ → ℕ → ℕ → ℕ → ℕ → ℤ
cmp_fields rcvd_seq db_seq rcvd_xsum db_xsum rcvd_age db_age =
    if int_lt db_seq rcvd_seq
    then pos 1
    else if int_lt rcvd_seq db_seq
    then negsuc 0
    else if ltb db_xsum rcvd_xsum
    then pos 1
    else if ltb rcvd_xsum db_xsum
    then negsuc 0
    else if rcvd_age == max_age && not (db_age == max_age)
    then pos 1
    else if not (rcvd_age == max_age) && db_age == max_age
    then negsuc 0
    else if ltb (rcvd_age + max_age_diff) db_age
    then pos 1
    else if ltb (db_age + max_age_diff) rcvd_age
    then negsuc 0
    else pos 0

-- `LSA::cmp_instance`: 1 if the header is newer, -1 if it is older, 0 if neither.
unfoldable pub cmp_instance : ℕ → Lsa → LsHdr → ℤ
cmp_instance bin0 l hdr =
    cmp_fields hdr.ls_seqno l.lsa_seqno hdr.ls_xsum l.lsa_xsum (capped_age hdr.ls_age)
      (capped_age (lsa_age bin0 l))

-- `OSPF::ospf_get_seqno`: the number, the advertisement afterwards, and whether
-- `age_prematurely` is called on it.
pub record SeqNo : Type 0 where
  pub seqno : ℤ
  pub lsa : Option Lsa
  pub aged : Bool

abbrev pub is_max_seq : ℤ → Bool
is_max_seq (pos n) = n == 2 ^ 31 - 1
is_max_seq (negsuc n) = false

unfoldable pub ospf_get_seqno : ℕ → Option Lsa → Bool → SeqNo
ospf_get_seqno bin0 none forced = record { seqno = init_ls_seq; lsa = none; aged = false }
ospf_get_seqno bin0 (some l) forced =
    if not l.is_valid
    then record { seqno = init_ls_seq; lsa = some l; aged = false }
    else if not forced && (l.in_agebin && (is_aging l && ltb (lsa_age bin0 l) min_ls_interval))
    then record { seqno = invalid_ls_seq; lsa = some (record l { deferring = true }); aged = false }
    else if is_max_seq l.lsa_seqno
    then record { seqno = invalid_ls_seq; lsa = some (record l { rollover = true }); aged = true }
    else record { seqno = increment l.lsa_seqno; lsa = some l; aged = false }
