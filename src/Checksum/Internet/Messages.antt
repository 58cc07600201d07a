-- ===== src/Checksum/Internet/Messages.antt =====
-- THospf/Interface.cpp: `verify` on what `gen_msg` makes.
use ospfbasic.Prelude.{
  ℕ, zero, suc, ◌+◌, ◌*◌, ◌/◌, ◌%◌, ◌^◌, ◌≤◌, ◌<◌, ◌≡◌, refl, ap, sym, ◌∙◌, ◌↔◌, inl, inr, List, [],
  ◌∷◌, ◌++◌, arith, length, true, take, replicate, length-append, Bool-cases,
}
use ospfbasic.Checksum.Internet.{
  incksum, complement16, host16, net16, net32, SpfPkt, Pkt, header_bytes, packet_bytes, cleared,
  gen_msg, verify, aut_none,
}
use ospfbasic.Checksum.Internet.Sums.{
  word_sum, Bytes, IsPaired, incksum_lem, word_sum-append, Bytes-append, incksum-append,
}

take-all {ℓ} : {A : Type ℓ} (n : ℕ) (xs : List A) → length xs ≤ n → take n xs ≡ xs
take-all zero [] h = refl
take-all zero (x ∷ xs) h = absurd (omega arith)
take-all (suc n) [] h = refl
take-all (suc n) (x ∷ xs) h = ap (◌∷◌ x) (take-all n xs (omega arith))

-- A packet whose fields fit their widths and whose `plen` counts all of its bytes.
pub record IsPacket (p : SpfPkt) : Type 0 where
  pub vers : p.vers < 256
  pub packet_type : p.packet_type < 256
  pub plen : p.plen < 2 ^ 16
  pub srcid : p.srcid < 2 ^ 32
  pub p_aid : p.p_aid < 2 ^ 32
  pub chksum : p.chksum < 2 ^ 16
  pub autype : p.autype < 2 ^ 16
  pub au_length : length p.aubytes ≡ 8
  pub au_bytes : Bytes p.aubytes
  pub body : Bytes p.body
  pub counted : p.plen ≡ 24 + length p.body

-- The words in front of the checksum.
front_sum : SpfPkt → ℕ
front_sum p =
    p.vers
    + p.packet_type * 256
    + (p.plen / 256 + p.plen % 256 * 256)
    + (p.srcid / 2 ^ 24 + p.srcid / 2 ^ 16 % 256 * 256)
    + (p.srcid / 2 ^ 8 % 256 + p.srcid % 256 * 256)
    + (p.p_aid / 2 ^ 24 + p.p_aid / 2 ^ 16 % 256 * 256)
    + (p.p_aid / 2 ^ 8 % 256 + p.p_aid % 256 * 256)

header_sum :
    (p : SpfPkt)
    → word_sum (header_bytes p)
      ≡ front_sum p + p.chksum + (p.autype / 256 + p.autype % 256 * 256) + word_sum p.aubytes
unfolding header_bytes word_sum front_sum
header_sum p = omega arith

-- The sixteen bytes in front of the authentication field.
abbrev front_bytes : SpfPkt → List ℕ
front_bytes p =
    p.vers
    ∷ p.packet_type
    ∷ (net16 p.plen ++ (net32 p.srcid ++ (net32 p.p_aid ++ (host16 p.chksum ++ net16 p.autype))))

header-Bytes : (p : SpfPkt) → IsPacket p → Bytes (header_bytes p)
unfolding header_bytes
header-Bytes p v =
    Bytes-append (front_bytes p) p.aubytes
      (omega (arith, v.vers, v.packet_type, v.plen, v.srcid, v.p_aid, v.chksum, v.autype))
      v.au_bytes

header-IsPaired : (p : SpfPkt) → IsPacket p → IsPaired (header_bytes p)
unfolding header_bytes
header-IsPaired p v = omega (arith, v.au_length)

-- The length that the header gives covers the whole packet.
whole : (p : SpfPkt) → IsPacket p → take p.plen (packet_bytes p) ≡ header_bytes p ++ p.body
unfolding packet_bytes header_bytes
whole p v =
    take-all p.plen _ (omega (arith, v.counted, v.au_length, length-append p.aubytes p.body))

-- The checksum over a whole packet, as the sum of its words.
packet_sum :
    (p : SpfPkt)
    → IsPacket p
    → incksum (take p.plen (packet_bytes p)) 0
      ≡ (front_sum p
          + p.chksum
          + (p.autype / 256 + p.autype % 256 * 256)
          + word_sum p.aubytes
          + word_sum p.body)
        % 0xffff
packet_sum p v =
    ap (λ (bs : List ℕ). incksum bs 0) (whole p v)
    ∙ omega (
      arith,
      incksum_lem (header_bytes p ++ p.body) 0 (Bytes-append _ p.body (header-Bytes p v) v.body)
          (omega arith),
      word_sum-append (header_bytes p) p.body (header-IsPaired p v),
      header_sum p,
    )

cleared-IsPacket : (p : SpfPkt) → IsPacket p → IsPacket (cleared p)
cleared-IsPacket p v = record {
  vers = v.vers;
  packet_type = v.packet_type;
  plen = v.plen;
  srcid = v.srcid;
  p_aid = v.p_aid;
  chksum = omega arith;
  autype = omega arith;
  au_length = refl;
  au_bytes = omega arith;
  body = v.body;
  counted = v.counted;
}

-- The body's checksum, if it was kept, is that of the body.
abbrev pub IsKept : Pkt → Type 0
IsKept pkt = pkt.chksummed ≡ true → pkt.body_chksum ≡ incksum pkt.spfpkt.body 0

-- Both ways to compute the checksum give the same.
seed_lem :
    (pkt : Pkt)
    → IsPacket pkt.spfpkt
    → pkt.body_chksum ≡ incksum pkt.spfpkt.body 0
    → incksum (header_bytes (cleared pkt.spfpkt)) pkt.body_chksum
      ≡ incksum (take pkt.spfpkt.plen (packet_bytes (cleared pkt.spfpkt))) 0
seed_lem pkt v kept =
    let p = cleared pkt.spfpkt in
    let c = cleared-IsPacket pkt.spfpkt v in
    ap (incksum (header_bytes p)) kept
    ∙ incksum-append (header_bytes p) p.body (header-IsPaired p c) (header-Bytes p c) c.body
    ∙ sym (ap (λ (bs : List ℕ). incksum bs 0) (whole p c))

abbrev filled : Pkt → List ℕ → SpfPkt
filled pkt passwd = record (cleared pkt.spfpkt) {
  chksum = complement16 (incksum (take pkt.spfpkt.plen (packet_bytes (cleared pkt.spfpkt))) 0);
  aubytes = passwd;
}

gen_msg_lem :
    (pkt : Pkt) (passwd : List ℕ)
    → IsPacket pkt.spfpkt
    → IsKept pkt
    → gen_msg aut_none passwd pkt ≡ filled pkt passwd
unfolding gen_msg
gen_msg_lem pkt passwd v kept = elim (Bool-cases pkt.chksummed) [
  | inl done ↦ rw done (
      ap (λ (c : ℕ). record (cleared pkt.spfpkt) { chksum = complement16 c; aubytes = passwd })
        (seed_lem pkt v (kept done)))
  | inr fresh ↦ rw fresh
]

filled-IsPacket :
    (pkt : Pkt) (passwd : List ℕ)
    → IsPacket pkt.spfpkt
    → Bytes passwd
    → length passwd ≡ 8
    → IsPacket (filled pkt passwd)
filled-IsPacket pkt passwd v b len = record {
  vers = v.vers;
  packet_type = v.packet_type;
  plen = v.plen;
  srcid = v.srcid;
  p_aid = v.p_aid;
  chksum = omega arith;
  autype = omega arith;
  au_length = len;
  au_bytes = b;
  body = v.body;
  counted = v.counted;
}

front-filled :
    (pkt : Pkt) (passwd : List ℕ) → front_sum (filled pkt passwd) ≡ front_sum (cleared pkt.spfpkt)
unfolding front_sum
front-filled pkt passwd = refl

zeros_sum : word_sum (replicate 8 0) ≡ 0
unfolding word_sum
zeros_sum = refl

-- What was summed is taken off by the complement; the password remains.
filled_sum :
    (pkt : Pkt) (passwd : List ℕ)
    → IsPacket pkt.spfpkt
    → Bytes passwd
    → length passwd ≡ 8
    → incksum (take pkt.spfpkt.plen (packet_bytes (filled pkt passwd))) 0 ≡ word_sum passwd % 0xffff
filled_sum pkt passwd v b len = omega (
  arith,
  packet_sum (cleared pkt.spfpkt) (cleared-IsPacket pkt.spfpkt v),
  packet_sum (filled pkt passwd) (filled-IsPacket pkt passwd v b len),
  front-filled pkt passwd,
  zeros_sum,
)

verify_lem :
    (p : SpfPkt)
    → p.autype ≡ 0
    → (verify aut_none p ≡ true) ↔ (incksum (take p.plen (packet_bytes p)) 0 ≡ 0)
unfolding verify
verify_lem p e = ground arith

-- With no authentication, a packet that `gen_msg` completes is accepted by `verify` exactly if
-- the words of the interface's password sum to a multiple of 0xffff (as those of eight zero bytes
-- do), whether the checksum of the body was kept or is computed.
pub gen_msg-verify :
    (pkt : Pkt) (passwd : List ℕ)
    → IsPacket pkt.spfpkt
    → IsKept pkt
    → Bytes passwd
    → length passwd ≡ 8
    → (verify aut_none (gen_msg aut_none passwd pkt) ≡ true) ↔ (word_sum passwd % 0xffff ≡ 0)
gen_msg-verify pkt passwd v kept b len =
    let e = filled_sum pkt passwd v b len in
    let i = verify_lem (filled pkt passwd) refl in
    rw (gen_msg_lem pkt passwd v kept) (λ h. sym e ∙ i.0 h, λ h. i.1 (e ∙ h))
