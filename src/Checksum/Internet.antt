-- ===== src/Checksum/Internet.antt =====
-- THospf/ospfUtil.cpp: `incksum` and `Pkt::partial_checksum`; THospf/Interface.cpp:
-- `Interface::gen_msg` and `Interface::verify`. Memory is a list of bytes; a `uns16 *` reads two
-- of them low byte first, as on the host that `ntoh16` of define.h, which always swaps, is for.
pub mod Sums
pub mod Messages
mod Tests
use ospfbasic.Prelude.{
  ℕ, ◌+◌, ◌-◌, ◌*◌, ◌/◌, ◌%◌, ◌^◌, Bool, true, false, not, List, [], ◌∷◌, ◌++◌, take, replicate,
  ◌==◌, if◌then◌else◌,
}

-- `xsum += w`, then the end-around carry: `xsum & 0x10000` tests bit 16, `xsum &= 0xffff` keeps
-- the bits below it.
unfoldable pub add_carry : ℕ → ℕ → ℕ
add_carry xsum w = if ((xsum + w) / 0x10000) % 2 == 1 then (xsum + w + 1) % 0x10000 else xsum + w

-- The loop by pairs, and the odd byte at the end, `hton16` of which is its shift by 8.
unfoldable pub incksum_loop : List ℕ → ℕ → ℕ
unfolding add_carry
incksum_loop [] xsum = xsum
incksum_loop (b ∷ []) xsum = add_carry xsum (b * 256)
incksum_loop (lo ∷ hi ∷ rest) xsum = incksum_loop rest (add_carry xsum (lo + hi * 256))

unfoldable pub incksum : List ℕ → ℕ → ℕ
unfolding incksum_loop
incksum bytes seed =
    if incksum_loop bytes seed == 0xffff then 0 else incksum_loop bytes seed % 2 ^ 16

-- `~` on a `uns16`.
abbrev pub complement16 : ℕ → ℕ
complement16 x = 0xffff - x

-- Two bytes as the host writes a `uns16`, and as `hton16` and `hton32` lay out a value.
abbrev pub host16 : ℕ → List ℕ
host16 v = (v % 256) ∷ (v / 256) ∷ []

abbrev pub net16 : ℕ → List ℕ
net16 v = (v / 256) ∷ (v % 256) ∷ []

abbrev pub net32 : ℕ → List ℕ
net32 v = (v / 2 ^ 24) ∷ (v / 2 ^ 16 % 256) ∷ (v / 2 ^ 8 % 256) ∷ (v % 256) ∷ []

-- The header of every packet and what follows it. `plen`, `srcid`, `p_aid` and `autype` hold the
-- values that their bytes carry in network order, `chksum` the value in the host's order.
pub record SpfPkt : Type 0 where
  pub vers : ℕ
  pub packet_type : ℕ
  pub plen : ℕ
  pub srcid : ℕ
  pub p_aid : ℕ
  pub chksum : ℕ
  pub autype : ℕ
  pub aubytes : List ℕ
  pub body : List ℕ

unfoldable pub header_bytes : SpfPkt → List ℕ
header_bytes p =
    p.vers
    ∷ p.packet_type
    ∷ (net16 p.plen
        ++ (net32 p.srcid ++ (net32 p.p_aid ++ (host16 p.chksum ++ (net16 p.autype ++ p.aubytes)))))

unfoldable pub packet_bytes : SpfPkt → List ℕ
unfolding header_bytes
packet_bytes p = header_bytes p ++ p.body

pub data AuType : Type 0 where
  aut_none aut_passwd aut_crypt : AuType

abbrev pub au_code : AuType → ℕ
au_code aut_none = 0
au_code aut_passwd = 1
au_code aut_crypt = 2

-- What `partial_checksum` keeps: `chksummed` is set if it ran.
pub record Pkt : Type 0 where
  pub spfpkt : SpfPkt
  pub chksummed : Bool
  pub body_chksum : ℕ

pub partial_checksum : Pkt → Pkt
unfolding incksum
partial_checksum p = record p { chksummed = true; body_chksum = incksum p.spfpkt.body 0 }

abbrev pub cleared : SpfPkt → SpfPkt
cleared p = record p { chksum = 0; autype = 0; aubytes = replicate 8 0 }

-- `Interface::gen_msg`: only AUT_NONE fills in the checksum and, behind it, the password.
pub gen_msg : AuType → List ℕ → Pkt → SpfPkt
unfolding incksum packet_bytes header_bytes
gen_msg aut_none if_passwd pdesc =
    let p = cleared pdesc.spfpkt in
    let c =
      if not pdesc.chksummed
      then complement16 (incksum (take p.plen (packet_bytes p)) 0)
      else complement16 (incksum (header_bytes p) pdesc.body_chksum) in
    record p { chksum = c; aubytes = if_passwd }
gen_msg _ if_passwd pdesc = cleared pdesc.spfpkt

-- `Interface::verify`.
unfoldable pub verify : AuType → SpfPkt → Bool
unfolding incksum packet_bytes
verify aut_none p =
    if not (p.autype == au_code aut_none)
    then false
    else if not (incksum (take p.plen (packet_bytes p)) 0 == 0)
    then false
    else true
verify _ p = false
