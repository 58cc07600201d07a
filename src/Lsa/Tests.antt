-- ===== src/Lsa/Tests.antt =====
-- An advertisement of age 7 and its younger instance.
use ospfbasic.Prelude.{◌≡◌, ◌⊎◌, refl, true, false, arith, some, pos, negsuc, if◌then◌else◌}
use ospfbasic.Lsa.{Lsa, cmp_instance, header_of, ospf_get_seqno, invalid_ls_seq, int_lt, cmp_fields}
use ospfbasic.Lsa.Instance.{version_of, is_newer, cmp_instance-order}
use ospfbasic.Lsa.Sequence.{IsSeq, ospf_get_seqno-IsSeq}

abbrev advertisement : Lsa
advertisement = record {
  lsa_rcvage = 1;
  lsa_opts = 2;
  lsa_type = 1;
  ls_id = 5;
  adv_rtr = 5;
  lsa_seqno = negsuc 100;
  lsa_xsum = 4660;
  lsa_length = 36;
  lsa_agebin = 3;
  is_valid = true;
  in_agebin = true;
  deferring = false;
  rollover = false;
}

abbrev younger : Lsa
younger = record advertisement { lsa_seqno = negsuc 99 }

newer : cmp_instance 10 advertisement (header_of 10 younger) ≡ pos 1
unfolding cmp_instance cmp_fields header_of
newer = refl

cmp_instance-order_example :
    (cmp_instance 10 advertisement (header_of 10 younger) ≡ (
      if is_newer (version_of (header_of 10 younger)) (version_of (header_of 10 advertisement))
      then pos 1
      else if is_newer (version_of (header_of 10 advertisement)) (version_of (header_of 10 younger))
      then negsuc 0
      else pos 0))
    × (is_newer (version_of (header_of 10 younger)) (version_of (header_of 10 advertisement)) ≡ true
        → is_newer (version_of (header_of 10 advertisement)) (version_of (header_of 10 younger))
          ≡ false)
cmp_instance-order_example = cmp_instance-order 10 advertisement (header_of 10 younger)

ospf_get_seqno-IsSeq_example :
    ((ospf_get_seqno 10 (some advertisement) true).seqno ≡ invalid_ls_seq)
    ⊎ ((int_lt (negsuc 100) (ospf_get_seqno 10 (some advertisement) true).seqno ≡ true)
        × IsSeq (ospf_get_seqno 10 (some advertisement) true).seqno)
ospf_get_seqno-IsSeq_example = ospf_get_seqno-IsSeq 10 advertisement true refl (omega arith)
