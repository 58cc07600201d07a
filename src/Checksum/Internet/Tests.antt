-- ===== src/Checksum/Internet/Tests.antt =====
-- A hello header with an odd body, and the two ways to the checksum.
use ospfbasic.Prelude.{◌+◌, ◌%◌, ◌≡◌, refl, ◌↔◌, true, false, [], ◌∷◌, arith, replicate}
use ospfbasic.Checksum.Internet.{incksum, Pkt, gen_msg, verify, aut_none}
use ospfbasic.Checksum.Internet.Sums.{word_sum, incksum_lem}
use ospfbasic.Checksum.Internet.Messages.{gen_msg-verify}

abbrev hello : Pkt
hello = record {
  spfpkt = record {
    vers = 2;
    packet_type = 1;
    plen = 28;
    srcid = 16843009;
    p_aid = 0;
    chksum = 77;
    autype = 1;
    aubytes = 1 ∷ 2 ∷ 3 ∷ 4 ∷ 5 ∷ 6 ∷ 7 ∷ 8 ∷ [];
    body = 255 ∷ 255 ∷ 255 ∷ 0 ∷ [];
  };
  chksummed = false;
  body_chksum = 0;
}

accepted : verify aut_none (gen_msg aut_none (replicate 8 0) hello) ≡ true
unfolding verify gen_msg
accepted = refl

gen_msg-verify_example :
    (verify aut_none (gen_msg aut_none (1 ∷ 0 ∷ 0 ∷ 0 ∷ 0 ∷ 0 ∷ 0 ∷ 0 ∷ []) hello) ≡ true)
    ↔ (word_sum (1 ∷ 0 ∷ 0 ∷ 0 ∷ 0 ∷ 0 ∷ 0 ∷ 0 ∷ []) % 0xffff ≡ 0)
gen_msg-verify_example =
    gen_msg-verify hello (1 ∷ 0 ∷ 0 ∷ 0 ∷ 0 ∷ 0 ∷ 0 ∷ 0 ∷ []) (omega arith) (λ h. cc h)
      (omega arith) refl

incksum_example :
    incksum (1 ∷ 2 ∷ 255 ∷ 255 ∷ 3 ∷ []) 9 ≡ (9 + word_sum (1 ∷ 2 ∷ 255 ∷ 255 ∷ 3 ∷ [])) % 0xffff
incksum_example = incksum_lem (1 ∷ 2 ∷ 255 ∷ 255 ∷ 3 ∷ []) 9 (omega arith) (omega arith)
