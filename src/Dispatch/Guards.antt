-- ===== src/Dispatch/Guards.antt =====
-- THospf/OSPF.cpp: the tests of `OSPF::resolvePkt` and what passes them.
use ospfbasic.Prelude.{
  ℕ, ◌+◌, ◌≤◌, ◌≡◌, ◌≢◌, inl, inr, refl, Bool, true, false, not, ◌&&◌, List, Option, none, some,
  ltb, ◌==◌, ℤ, arith, if◌then◌else◌, Bool-cases, Option-cases,
}
use ospfbasic.Checksum.Internet.{verify}
use ospfbasic.Dispatch.{
  Interface, InPkt, iphlen, spfpkt_size, find_ifc, find_neighbor, not_designated, handler_of,
  Verdict, Reason, dropped, recv_hello, handed, spt_hello, hand_over, for_ifc, resolve_pkt,
  all_d_routers, no_ifc, own_packet, cut_datagram, cut_header, cut_packet, wrong_version,
  no_neighbor, not_verified, not_for_me,
}

-- A packet of another router, whole in the datagram and in its length field, of version 2.
abbrev pub IsWhole : ℕ → InPkt → ℕ → Type 0
IsWhole myid pkt plen =
    (pkt.spfpkt.srcid ≢ myid)
    × (pkt.i_len ≤ plen)
    × (iphlen pkt + spfpkt_size ≤ pkt.i_len)
    × (iphlen pkt + pkt.spfpkt.plen ≤ pkt.i_len)
    × (pkt.spfpkt.vers ≡ 2)

-- A packet that an interface accepts.
abbrev pub IsFor : InPkt → Interface → Type 0
IsFor pkt ip =
    (verify ip.if_autype pkt.spfpkt ≡ true)
    × ((pkt.i_dest ≡ all_d_routers) → not_designated ip.if_state ≡ false)

-- What passes the tests up to the search for the interface.
resolve_pkt-whole :
    (myid : ℕ) (ifcs : List Interface) (phyint : ℤ) (pkt : InPkt) (plen : ℕ)
    → IsWhole myid pkt plen
    → resolve_pkt myid ifcs phyint pkt plen ≡ elim (find_ifc phyint pkt ifcs) as (λ _. Verdict) [
      | none ↦ dropped no_ifc
      | some ip ↦ for_ifc pkt ip
    ]
unfolding resolve_pkt
resolve_pkt-whole myid ifcs phyint pkt plen h = ground (arith, h)

-- Whether something handles a packet.
abbrev pub IsHandled : Verdict → Type 0
IsHandled (dropped r) = ⊥
IsHandled (recv_hello ip) = Unit {0}
IsHandled (handed h ip n) = Unit {0}

guard_passes :
    (b : Bool) (r : Reason) (v : Verdict)
    → IsHandled (if b then dropped r else v)
    → (b ≡ false) × IsHandled v
guard_passes true r v h = absurd h
guard_passes false r v h = (refl, h)

found_passes :
    (o : Option Interface) (f : Interface → Verdict)
    → IsHandled (elim o as (λ _. Verdict) [ none ↦ dropped no_ifc | some ip ↦ f ip ])
    → (ip : Interface) × (o ≡ some ip) × IsHandled (f ip)
found_passes none f h = absurd h
found_passes (some ip) f h = (ip, refl, h)

resolve_pkt-IsHandled :
    (myid : ℕ) (ifcs : List Interface) (phyint : ℤ) (pkt : InPkt) (plen : ℕ)
    → IsHandled (resolve_pkt myid ifcs phyint pkt plen)
    → IsWhole myid pkt plen
      × ((ip : Interface) × (find_ifc phyint pkt ifcs ≡ some ip) × IsHandled (for_ifc pkt ip))
unfolding resolve_pkt
resolve_pkt-IsHandled myid ifcs phyint pkt plen h =
    let (a, h1) = guard_passes (pkt.spfpkt.srcid == myid) own_packet _ h in
    let (b, h2) = guard_passes (ltb plen pkt.i_len) cut_datagram _ h1 in
    let (c, h3) = guard_passes (ltb pkt.i_len (iphlen pkt + spfpkt_size)) cut_header _ h2 in
    let (d, h4) = guard_passes (ltb pkt.i_len (iphlen pkt + pkt.spfpkt.plen)) cut_packet _ h3 in
    let (e, h5) = guard_passes (not (pkt.spfpkt.vers == 2)) wrong_version _ h4 in
    (
      (
        (λ k. ground (arith, a, k)),
        ground (arith, b),
        ground (arith, c),
        ground (arith, d),
        ground (arith, e),
      ),
      found_passes (find_ifc phyint pkt ifcs) (for_ifc pkt) h5,
    )

-- The interface part: a Hello packet, or one of a known neighbor and of a known type.
abbrev pub IsMeantFor : InPkt → Interface → Verdict → Type 0
IsMeantFor pkt ip (dropped r) = ⊥
IsMeantFor pkt ip (recv_hello ip') = (pkt.spfpkt.packet_type ≡ spt_hello) × (ip' ≡ ip)
IsMeantFor pkt ip (handed h ip' n) =
    (pkt.spfpkt.packet_type ≢ spt_hello)
    × (ip' ≡ ip)
    × (find_neighbor pkt.i_src ip.if_Neighborlist ≡ some n)
    × (handler_of pkt.spfpkt.packet_type ≡ some h)

hand_over-meant :
    (pkt : InPkt) (ip : Interface)
    → let v = hand_over pkt.spfpkt.packet_type ip (find_neighbor pkt.i_src ip.if_Neighborlist) in
      IsHandled v → IsMeantFor pkt ip v
unfolding hand_over
hand_over-meant pkt ip h = elim (Bool-cases (pkt.spfpkt.packet_type == spt_hello)) [
  | inl e ↦ rw (e, hand_over) (ground (arith, e), refl)
  | inr e ↦ elim (Option-cases (find_neighbor pkt.i_src ip.if_Neighborlist)) [
    | inl k ↦ absurd (rw (e, k, hand_over) at h)
    | inr (n, k) ↦ elim (Option-cases (handler_of pkt.spfpkt.packet_type)) [
      | inl l ↦ absurd (rw (e, k, l, hand_over) at h)
      | inr (to, l) ↦ rw (e, k, l, hand_over) ((λ u. ground (arith, e, u)), refl, k, l)
    ]
  ]
]

for_ifc-IsHandled :
    (pkt : InPkt) (ip : Interface)
    → IsHandled (for_ifc pkt ip)
    → IsFor pkt ip × IsMeantFor pkt ip (for_ifc pkt ip)
unfolding for_ifc
for_ifc-IsHandled pkt ip h =
    let np = find_neighbor pkt.i_src ip.if_Neighborlist in
    let unknown : Bool = elim np [ none ↦ true | some n ↦ false ] in
    let (a, h1) =
      guard_passes (not (pkt.spfpkt.packet_type == spt_hello) && unknown) no_neighbor _ h in
    let (b, h2) = guard_passes (not (verify ip.if_autype pkt.spfpkt)) not_verified _ h1 in
    let (c, h3) =
      guard_passes ((pkt.i_dest == all_d_routers) && not_designated ip.if_state) not_for_me _ h2 in
    (
      (ground (arith, b), λ e. ground (arith, c, e)),
      rw (a, b, c, for_ifc) (hand_over-meant pkt ip h3),
    )

-- A packet that `resolvePkt` hands to a handler is another router's, whole, of version 2, for an
-- interface that receives it, verifies it and, for the designated routers' address, is one of
-- them; a Hello packet goes to the interface, any other to the neighbor of its source address,
-- by its type.
pub resolve_pkt-guards :
    (myid : ℕ) (ifcs : List Interface) (phyint : ℤ) (pkt : InPkt) (plen : ℕ)
    → IsHandled (resolve_pkt myid ifcs phyint pkt plen)
    → IsWhole myid pkt plen
      × ((ip : Interface) × (find_ifc phyint pkt ifcs ≡ some ip)
          × IsFor pkt ip
          × IsMeantFor pkt ip (resolve_pkt myid ifcs phyint pkt plen))
resolve_pkt-guards myid ifcs phyint pkt plen h =
    let (whole, (ip, found, handled)) = resolve_pkt-IsHandled myid ifcs phyint pkt plen h in
    let (for, meant) = for_ifc-IsHandled pkt ip handled in
    (whole, (ip, found, for, rw (resolve_pkt-whole myid ifcs phyint pkt plen whole, found) meant))
