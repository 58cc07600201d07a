-- ===== src/Lib.antt =====
-- OSPFbasic is a router's implementation of OSPF version 2 on one area, in C++ under THospf.
--
-- Parts and files:
--   Checksum/Fletcher: `fletcher`, `LShdr::verify_cksum` and `LShdr::generate_cksum` of
--     THospf/LSA.cpp, on lists of bytes.
--   Checksum/Internet: `incksum` and `Pkt::partial_checksum` of THospf/ospfUtil.cpp, `gen_msg` and
--     `verify` of THospf/Interface.cpp, on the header of THospf/ospfPkt.h.
--   Fsm: `OSPF::run_fsm` of THospf/ospfUtil.cpp, with the tables of THospf/NeighborFSM.cpp and
--     THospf/InterfaceFSM.cpp in Fsm/Neighbor and Fsm/Interface.
--   Router/State: the objects of THospf/Neighbor.h, THospf/Interface.h and THospf/OSPF.h on which the
--     two state machines work, in one store; Router/Actions the actions of `Neighbor::nbr_fsm`,
--     Router/NeighborFsm that function up to its calls of others, Router/Election the loops of
--     `Interface::ifa_elect`, Router/Machines `Interface::ifc_fsm`, the flooding of this router's own
--     advertisements (`LSA::flood` and `Neighbor::ospf_rmreq` of THospf/ospfUpdate.cpp), and the calls
--     between all of them.
--   Queue: the priority queue of THospf/Queue.h and THospf/Queue.cpp, with trees as values. The fuel of
--     the loop of `combine` is the number of elements of both trees.
--   Timers: the times of THospf/Timer.cpp, the start of timers, and `OSPF::tick` and `OSPF::timeout` of
--     THospf/OSPF.cpp on that queue; the number of elements is fuel enough when no action adds any.
--   Lsa: ages, headers and the comparison of instances of THospf/LSA.h and THospf/LSA.cpp, and
--     `ospf_get_seqno` of THospf/ospfOrig.cpp.
--   Aging: `start_aging` and `stop_aging` of THospf/LSA.cpp on the lists of the bins of `AgeBins`, a
--     store of links in both directions.
--   Pending: the linked list of neighbors that wait for a database exchange, `AddPendAdj` and
--     `DelPendAdj` of THospf/NeighborFSM.cpp and `GetNextAdj` of THospf/LSA.cpp. In Router/Actions that
--     list is a list of addresses. The walk's fuel is one more than the neighbors that wait.
--   PhyInt: `phy_attach`, `phy_detach`, `multi_join` and `multi_leave` of THospf/phyint.cpp, with the
--     tables as functions.
--   Table: the AVL tree of THospf/Table.h and THospf/Table.cpp, with trees as values: Table.antt has the
--     tree's part of each operation, Table/Items `Table` and `TblSearch` with the list in order, and
--     Table/Depth what `remove` pushes. An item put in belongs to no table, so that its `left`, `right`
--     and `balance` are those of its constructor; `in_db` and `refct` belong to the object it is part of.
--   Retrans: the retransmission lists of a neighbor in THospf/ospfAck.cpp, with `add_to_update` and
--     `build_update` of THospf/ospfUpdate.cpp. The fuel of the two loops is one or two more than the
--     advertisements that are not sent, as all rounds but the last ones take one off a list.
--     Events are handled one after the other, and memory for a packet is always there.
--   Exchange: the tests of `recv_dd` in THospf/ospfDD.cpp, the sequence number that it goes on with and
--     the headers of `send_dd`; Exchange/Protocol has the steps of two routers in Exchange over a channel
--     in each direction, up to where one of them ends the exchange.
--   Paths: the next hops of a destination, `EPath` of THospf/RtrTblEntry.cpp, as lists of nodes, and the
--     search for an interface by address of THospf/OSPF.cpp.
--   Routes: routing table entries as the calculation writes them, `new_intra` and `rt_scan` of
--     THospf/ospfCalc.cpp; what `sys_install` asks of the kernel is a value, and its calls to the
--     forwarding addresses and `krtdeletes` are left out.
--   Spf: `OSPF::dijkstra` of THospf/ospfCalc.cpp with the queue of Queue and the entries of Routes. Nodes
--     and entries are stores by address; the way to an element that `del` gets is searched for, as the
--     trees have no parent pointers. The main loop's fuel is one more than the advertisements, since
--     every round takes one of them from the candidates for good. Costs are `uns32` with their
--     wrap-around; up to 65536 advertisements with `uns16` costs no sum reaches it.
--   Dispatch: which interface and neighbor a packet is for, `find_ifc`, `resolvePkt` and `next_ifc` of
--     THospf/OSPF.cpp, up to the call of the handler, with `verify` of Checksum/Internet.
--   Hello: `Interface::recv_hello` of THospf/ospfHello.cpp, with the constructor and `negotiate` of
--     THospf/Neighbor.cpp, on the store of Router/State.
--
-- A neighbor's event can drive its interface, whose election evaluates all its neighbors again; both
-- originate advertisements, and the flooding of one can answer the last request to another neighbor.
-- In Loading that raises an event of that neighbor, and in Exchange it sends the next description
-- packet, which raises one if it is the last; that neighbor becomes Full, and an advertisement is
-- originated again. Those calls take fuel. Three more than there are neighbors is enough, since each
-- event out of flooding makes one neighbor Full or does nothing. What is in an originated
-- advertisement, and so which requests it answers, and what is in a description packet is not modelled:
-- `lsa_answers` and `dd_ends` of the store say it, for every course of events, and the theorems hold
-- for all their values. Packets sent and calls of the system are values in the store's `out`, as are
-- the calls of `add_to_retranslist`, which Retrans is about. A running timer is its period;
-- `random_period` only shifts when it fires.
--
-- Not modelled: the sending of Hello packets, the contents of database description packets and requests, and
-- the flooding of received advertisements (the rest of THospf/ospfHello.cpp, ospfRequest.cpp, the rest of ospfDD.cpp, ospfUpdate.cpp and
-- ospfAck.cpp), the database of advertisements behind their headers (the rest of THospf/LSA.cpp and ospfOrig.cpp,
-- rtrLSA.cpp, netLSA.cpp, LsaList.cpp), so that the links of the nodes are given, the tables of routes
-- and of forwarding addresses (the rest of THospf/ospfCalc.cpp and RtrTblEntry.cpp) and the tries of
-- THospf/Patricia.cpp. The sockets, the kernel's routes and the
-- signals of THospf/system.cpp and THospf/main.cpp only call the operating system, and the texts that
-- the functions print are left out.
pub mod Prelude
pub mod Checksum
pub mod Fsm
pub mod Router
pub mod Queue
pub mod Lsa
pub mod Timers
pub mod Pending
pub mod PhyInt
pub mod Table
pub mod Retrans
pub mod Exchange
pub mod Dispatch
pub mod Paths
pub mod Hello
pub mod Routes
pub mod Spf
pub mod Aging
