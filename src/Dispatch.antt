-- ===== src/Dispatch.antt =====
-- THospf/OSPF.cpp: which interface and which neighbor an IP packet is for, and the interfaces in
-- order, `OSPF::find_ifc`, `OSPF::resolvePkt` and `OSPF::next_ifc`. Fields of headers hold their
-- values after `ntoh16` and `ntoh32`; `bsize`, which may be negative, is not subtracted out: the
-- lengths it is compared to are added on the other side.
pub mod Guards
pub mod Next
mod Tests
use ospfbasic.Prelude.{
  ℕ, ◌+◌, ◌*◌, ◌%◌, Bool, true, false, not, ◌&&◌, ◌||◌, List, [], ◌∷◌, Option, none, some, ltb, leb,
  ◌==◌, if◌then◌else◌, bit_and, ℤ, pos, negsuc,
}
use ospfbasic.Fsm.Interface.{
  IfState, ifs_down, ifs_loop, ifs_wait, ifs_pp, ifs_other, ifs_backup, ifs_dr, state_code,
}
use ospfbasic.Checksum.Internet.{AuType, SpfPkt, verify}
use ospfbasic.Paths.{int_lt, int_eq}

pub record Neighbor : Type 0 where
  pub n_addr : ℕ
  pub n_id : ℕ

pub record Interface : Type 0 where
  pub if_addr : ℕ
  pub if_mask : ℕ
  pub if_net : ℕ
  pub if_physic : ℤ
  pub if_autype : AuType
  pub if_state : IfState
  pub if_Neighborlist : List Neighbor

-- An IP header with the OSPF packet that stands at its end.
pub record InPkt : Type 0 where
  pub i_vhlen : ℕ
  pub i_len : ℕ
  pub i_src : ℕ
  pub i_dest : ℕ
  pub spfpkt : SpfPkt

abbrev pub all_spf_routers : ℕ
all_spf_routers = 0xe0000005

abbrev pub all_d_routers : ℕ
all_d_routers = 0xe0000006

-- `iphlen`, and the size of `SpfPkt`.
abbrev pub iphlen : InPkt → ℕ
iphlen pkt = pkt.i_vhlen % 16 * 4

abbrev pub spfpkt_size : ℕ
spfpkt_size = 24

-- The tests of `OSPF::find_ifc` on an interface.
unfoldable pub receives : ℤ → InPkt → Interface → Bool
receives phyint pkt ip =
    if not (int_eq phyint (negsuc 0)) && not (int_eq ip.if_physic phyint)
    then false
    else if not (bit_and pkt.i_src ip.if_mask == ip.if_net)
    then false
    else if (pkt.i_dest == all_d_routers) || (pkt.i_dest == all_spf_routers)
    then true
    else pkt.i_dest == ip.if_addr

-- `OSPF::find_ifc` by packet.
unfoldable pub find_ifc : ℤ → InPkt → List Interface → Option Interface
find_ifc phyint pkt [] = none
find_ifc phyint pkt (ip ∷ ips) =
    let rest = find_ifc phyint pkt ips in if receives phyint pkt ip then some ip else rest

-- `Interface::find_Neighbor`: by address.
unfoldable pub find_neighbor : ℕ → List Neighbor → Option Neighbor
find_neighbor addr [] = none
find_neighbor addr (np ∷ nps) =
    let rest = find_neighbor addr nps in if np.n_addr == addr then some np else rest

-- `state() <= IFS_OTHER`.
unfoldable pub not_designated : IfState → Bool
not_designated st = leb (state_code st) (state_code ifs_other)

-- The packet types other than Hello, with the handlers they go to.
pub data Handler : Type 0 where
  recv_dd recv_req recv_update recv_ack : Handler

unfoldable pub handler_of : ℕ → Option Handler
handler_of t =
    if t == 2
    then some recv_dd
    else if t == 3
    then some recv_req
    else if t == 4
    then some recv_update
    else if t == 5
    then some recv_ack
    else none

pub data Reason : Type 0 where
  own_packet cut_datagram cut_header cut_packet wrong_version : Reason
  no_ifc no_neighbor not_verified not_for_me unknown_type : Reason

-- What `OSPF::resolvePkt` does with a packet.
pub data Verdict : Type 0 where
  dropped : Reason → Verdict
  recv_hello : Interface → Verdict
  handed : Handler → Interface → Neighbor → Verdict

abbrev pub spt_hello : ℕ
spt_hello = 1

-- The handler of a packet without and with a neighbor, once nothing has refused it.
unfoldable pub hand_over : ℕ → Interface → Option Neighbor → Verdict
hand_over packet_type ip np = if packet_type == spt_hello then recv_hello ip else elim np [
  | none ↦ dropped no_neighbor
  | some n ↦ elim (handler_of packet_type) [ none ↦ dropped unknown_type | some h ↦ handed h ip n ]
]

-- The last tests of `OSPF::resolvePkt`, with the interface found.
unfoldable pub for_ifc : InPkt → Interface → Verdict
for_ifc pkt ip =
    let np = find_neighbor pkt.i_src ip.if_Neighborlist in
    let unknown : Bool = elim np [ none ↦ true | some n ↦ false ] in
    if not (pkt.spfpkt.packet_type == spt_hello) && unknown
    then dropped no_neighbor
    else if not (verify ip.if_autype pkt.spfpkt)
    then dropped not_verified
    else if (pkt.i_dest == all_d_routers) && not_designated ip.if_state
    then dropped not_for_me
    else hand_over pkt.spfpkt.packet_type ip np

-- `OSPF::resolvePkt`, of `plen` bytes received on `phyint`.
unfoldable pub resolve_pkt : ℕ → List Interface → ℤ → InPkt → ℕ → Verdict
resolve_pkt myid ifcs phyint pkt plen =
    if pkt.spfpkt.srcid == myid
    then dropped own_packet
    else if ltb plen pkt.i_len
    then dropped cut_datagram
    else if ltb pkt.i_len (iphlen pkt + spfpkt_size)
    then dropped cut_header
    else if ltb pkt.i_len (iphlen pkt + pkt.spfpkt.plen)
    then dropped cut_packet
    else if not (pkt.spfpkt.vers == 2)
    then dropped wrong_version
    else elim (find_ifc phyint pkt ifcs) [ none ↦ dropped no_ifc | some ip ↦ for_ifc pkt ip ]

-- `best` of `OSPF::next_ifc` after one more interface.
unfoldable pub closer : ℕ → ℤ → Interface → Option Interface → Option Interface
closer xaddr phy ip best =
    if int_lt ip.if_physic phy
    then best
    else if int_eq phy ip.if_physic && leb ip.if_addr xaddr
    then best
    else elim best [
      | none ↦ some ip
      | some b ↦
          if int_lt b.if_physic ip.if_physic
          then some b
          else if int_eq b.if_physic ip.if_physic && ltb b.if_addr ip.if_addr
          then some b
          else some ip
    ]

unfoldable pub next_loop : ℕ → ℤ → List Interface → Option Interface → Option Interface
next_loop xaddr phy [] best = best
next_loop xaddr phy (ip ∷ ips) best = next_loop xaddr phy ips (closer xaddr phy ip best)

-- `OSPF::next_ifc`.
unfoldable pub next_ifc : ℕ → ℤ → List Interface → Option Interface
next_ifc xaddr phy ifcs = next_loop xaddr phy ifcs none
