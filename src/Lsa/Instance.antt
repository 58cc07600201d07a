-- ===== src/Lsa/Instance.antt =====
-- THospf/LSA.cpp: `cmp_instance` against the order of instances.
use ospfbasic.Prelude.{
  ℕ, ◌+◌, ◌≡◌, refl, Bool, true, false, not, ◌&&◌, ◌||◌, ltb, ◌==◌, if◌then◌else◌, arith, ℤ, pos,
  negsuc,
}
use ospfbasic.Lsa.{
  Lsa, LsHdr, cmp_instance, header_of, int_lt, cmp_fields, capped_age, max_age, max_age_diff,
}

int_lt_asym : (a b : ℤ) → int_lt a b ≡ true → int_lt b a ≡ false
int_lt_asym (pos a) (pos b) h = ground arith
int_lt_asym (pos a) (negsuc b) h = cc h
int_lt_asym (negsuc a) (pos b) h = refl
int_lt_asym (negsuc a) (negsuc b) h = ground arith

-- The order of instances, by sequence number, checksum and age: one is newer than another if its
-- sequence number is greater, or else its checksum, or else if only it is of MaxAge, or it is younger
-- by more than MaxAgeDiff.
pub record Version : Type 0 where
  pub seqno : ℤ
  pub xsum : ℕ
  pub age : ℕ

abbrev pub is_newer : Version → Version → Bool
is_newer v w =
    int_lt w.seqno v.seqno
    || not (int_lt v.seqno w.seqno)
      && (ltb w.xsum v.xsum
          || not (ltb v.xsum w.xsum)
            && not (w.age == max_age)
            && (v.age == max_age || ltb (v.age + max_age_diff) w.age))

abbrev pub version_of : LsHdr → Version
version_of h = record { seqno = h.ls_seqno; xsum = h.ls_xsum; age = capped_age h.ls_age }

fields_order :
    (s t : ℤ) (x y a b : ℕ)
    → (let v : Version = record { seqno = s; xsum = x; age = a } in
        let w : Version = record { seqno = t; xsum = y; age = b } in
        cmp_fields s t x y a b
        ≡ (if is_newer v w then pos 1 else if is_newer w v then negsuc 0 else pos 0))
unfolding cmp_fields
fields_order s t x y a b = ground (arith, int_lt_asym s t, int_lt_asym t s)

is_newer_asym : (v w : Version) → is_newer v w ≡ true → is_newer w v ≡ false
is_newer_asym v w h = ground (arith, h, int_lt_asym v.seqno w.seqno, int_lt_asym w.seqno v.seqno)

-- `cmp_instance` compares a header with an advertisement by the order of instances: it gives 1 where
-- the header is the newer, -1 where the advertisement is, and 0 where neither is; no two instances
-- are each newer than the other.
pub cmp_instance-order :
    (bin0 : ℕ) (l : Lsa) (hdr : LsHdr)
    → (let v = version_of hdr in
        let w = version_of (header_of bin0 l) in
        (cmp_instance bin0 l hdr
          ≡ (if is_newer v w then pos 1 else if is_newer w v then negsuc 0 else pos 0))
        × (is_newer v w ≡ true → is_newer w v ≡ false))
unfolding cmp_instance header_of
cmp_instance-order bin0 l hdr =
    (fields_order _ _ _ _ _ _, is_newer_asym (version_of hdr) (version_of (header_of bin0 l)))
