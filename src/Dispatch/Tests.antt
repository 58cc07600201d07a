-- ===== src/Dispatch/Tests.antt =====
-- THospf/OSPF.cpp: packets and interfaces of a small router.
use ospfbasic.Prelude.{ℕ, ◌≡◌, refl, [], ◌∷◌, some, pos, arith, replicate}
use ospfbasic.Fsm.Interface.{ifs_other}
use ospfbasic.Checksum.Internet.{
  SpfPkt, aut_none, verify, incksum, incksum_loop, add_carry, packet_bytes, header_bytes,
}
use ospfbasic.Dispatch.{
  Neighbor, Interface, InPkt, receives, find_ifc, find_neighbor, not_designated, handler_of,
  recv_dd, recv_hello, handed, hand_over, for_ifc, resolve_pkt, closer, next_loop, next_ifc,
}
use ospfbasic.Dispatch.Guards.{IsHandled, IsWhole, IsFor, IsMeantFor, resolve_pkt-guards}
use ospfbasic.Dispatch.Next.{IsNext, next_ifc-IsNext}

-- 10.0.0.1 on 10.0.0.0/24 with the neighbor 10.0.0.2, and 10.0.1.1 behind it.
abbrev peer : Neighbor
peer = record { n_addr = 0x0a000002; n_id = 5 }

abbrev port : Interface
port = record {
  if_addr = 0x0a000001;
  if_mask = 0xffffff00;
  if_net = 0x0a000000;
  if_physic = pos 1;
  if_autype = aut_none;
  if_state = ifs_other;
  if_Neighborlist = peer ∷ [];
}

abbrev second_port : Interface
second_port = record port { if_addr = 0x0a000101; if_net = 0x0a000100; if_physic = pos 2 }

-- A packet of router 5 with no body.
abbrev packet : ℕ → ℕ → SpfPkt
packet packet_type chksum = record {
  vers = 2;
  packet_type = packet_type;
  plen = 24;
  srcid = 5;
  p_aid = 0;
  chksum = chksum;
  autype = 0;
  aubytes = replicate 8 0;
  body = [];
}

abbrev datagram : ℕ → SpfPkt → InPkt
datagram dest p = record {
  i_vhlen = 0x45;
  i_len = 44;
  i_src = 0x0a000002;
  i_dest = dest;
  spfpkt = p;
}

abbrev hello : InPkt
hello = datagram 0xe0000005 (packet 1 57853)

abbrev dd : InPkt
dd = datagram 0x0a000001 (packet 2 57597)

resolve-hello : resolve_pkt 9 (port ∷ []) (pos 1) hello 44 ≡ recv_hello port
unfolding resolve_pkt find_ifc receives for_ifc hand_over find_neighbor verify incksum incksum_loop
    add_carry packet_bytes header_bytes not_designated
resolve-hello = refl

resolve-dd : resolve_pkt 9 (port ∷ []) (pos 1) dd 44 ≡ handed recv_dd port peer
unfolding resolve_pkt find_ifc receives for_ifc hand_over find_neighbor verify incksum incksum_loop
    add_carry packet_bytes header_bytes not_designated handler_of
resolve-dd = refl

dd-IsHandled : IsHandled (resolve_pkt 9 (port ∷ []) (pos 1) dd 44)
unfolding resolve_pkt find_ifc receives for_ifc hand_over find_neighbor verify incksum incksum_loop
    add_carry packet_bytes header_bytes not_designated handler_of
dd-IsHandled = tt

resolve_pkt-guards_example :
    IsWhole 9 dd 44
    × ((ip : Interface) × (find_ifc (pos 1) dd (port ∷ []) ≡ some ip)
        × IsFor dd ip
        × IsMeantFor dd ip (resolve_pkt 9 (port ∷ []) (pos 1) dd 44))
resolve_pkt-guards_example = resolve_pkt-guards 9 (port ∷ []) (pos 1) dd 44 dd-IsHandled

hello-IsWhole : IsWhole 9 hello 44
hello-IsWhole = ((λ e. omega (arith, e)), omega arith, omega arith, omega arith, refl)

hello_found : find_ifc (pos 1) hello (port ∷ []) ≡ some port
unfolding find_ifc receives
hello_found = refl

hello-IsFor : IsFor hello port
unfolding verify incksum incksum_loop add_carry packet_bytes header_bytes
hello-IsFor = (refl, λ e. absurd (omega (arith, e)))

next-sample : next_ifc 0x0a000001 (pos 1) (second_port ∷ port ∷ []) ≡ some second_port
unfolding next_ifc next_loop closer
next-sample = refl

next_ifc-IsNext_example :
    IsNext 0x0a000001
      (pos 1)
      (second_port ∷ port ∷ [])
      (next_ifc 0x0a000001 (pos 1) (second_port ∷ port ∷ []))
next_ifc-IsNext_example = next_ifc-IsNext 0x0a000001 (pos 1) (second_port ∷ port ∷ [])
