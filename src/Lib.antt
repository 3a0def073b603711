-- ===== src/Lib.antt =====
-- libroce: a model of the user-space RoCE v2 stack.
--
-- The program. libroce (the C sources at the root of the repository and under include/) lets a host
-- without RDMA hardware speak RDMA over Ethernet. A device (dev.c) owns ports (port.c) and tables of
-- objects: protection domains (pd.c), address handles (ah.c), completion queues (cq.c), memory regions
-- (mr.c) and queue pairs (qp.c), each found by its handle (resource.c). The requester (requester.c)
-- cuts a work request into packets, the responder (responder.c) takes packets apart. Both build their
-- packets with netpkt.c, which fills in the headers of include/spec/ and the invariant checksum of
-- crc.c, and walk scatter lists with include/private/iov-helper.h.
--
-- The files.
--   Base       names shared by all: native numbers, Boolean tests, lists, negated error numbers.
--   Word       C's unsigned words: casts, shifts, complement and the byte swap by which endian.h works
--              on a little-endian host; Word/Bits, Word/Xor, Word/Swap and Word/Field have their laws.
--   Ib         include/spec/ib-spec.h: Ib/Bth is the base transport header, with its layout as the
--              specification draws it in Ib/Bth/Layout; the other children are the extended headers
--              and the table of operation codes' names. `ib_bth_get_se` is `Ib.Bth.get_se`, and so on.
--   Psn        `roce_qp_psn_inc` and `roce_compare_psn`, and the circle of sequence numbers.
--   Iov        include/private/iov-helper.h; Iov/Span is the list of bytes' addresses that a scatter
--              list stands for, by which Iov/Copy, Advance and Reverse describe the operations.
--   Sge        include/private/sge-helper.h: `roce_sge_len` and `roce_sge_advance`.
--   Crc        crc.c: the table, the three loops, `roce_crc32`; Crc/Bitwise is the shift register by
--              which they are described, and Crc/Packet is `roce_crc32_pkt`.
--   Net        include/spec/ip-spec.h, ipv6-spec.h, udp-spec.h, ethernet-spec.h, and the checksum of
--              include/private/checksum.h.
--   Qp         qp.c: the types of queue pairs; Qp/Create is `roce_create_qp`, with Qp/Created and
--              Qp/Ending on how it ends; Qp/Destroy has the end of queue pairs and of a device, with
--              Qp/Destroyed and Qp/Again on what is left; Qp/Modify has the attributes with `roce_modify_qp` and
--              `roce_query_qp`, Qp/Kept what a change keeps.
--   Netpkt     netpkt.c: `roce_netpkt_set_bth`, and in Netpkt/Eth `roce_netpkt_set_eth` with the IPv4
--              and the IPv6 branch.
--   Port       port.c: the ports of the context with their identifiers and attributes.
--   Resource   resource.c; Resource/Slots has the invariant, Resource/Contract what each call does to
--              the partial map from handles to objects, Resource/Steps the calls in any order.
--   Counted    the table and the counts of references that pd.c, ah.c, cq.c, mr.c and qp.c each
--              keep; Counted/Takes is about references taken and put in turn.
--   Pd Ah Cq   pd.c, ah.c and cq.c: protection domains, address handles, completion queues; the
--              children of Pd are about the references of protection domains.
--   Mr         mr.c: Mr/Life has the regions and their references, Mr/Map `roce_mr_map_sge`.
--   Wr         the work requests and completions of include/roce/roce.h and roce-private.h.
--   Requester  requester.c: Requester/Build and Multi cut a work request into packets, Queue has the
--              packets that wait and that are on their way with acknowledgements, Datagram the work
--              requests of datagram queue pairs; Message, Sends and Cut are about whole messages,
--              Window, Acks and Handled about the window of packets on their way; Owned and Ends
--              are about packets and the work requests that they are of, Live and Drain about
--              rounds of acknowledgements, Posted, Joined and Request about a new work request.
--   Responder  responder.c: Responder/Wire has the headers as they are read from bytes, Decap
--              `roce_net_decap`, Payload and Write the two ways to memory, Reliable `roce_recv_rc`,
--              Datagram `roce_recv_ud`, Recv `roce_recv_bth` and `roce_net_recv`. Order and Run are about
--              sequence numbers, with Answer, Kept and Switch below them; Intact is about the packets that
--              `roce_net_decap` lets through, by the description in Whole; Stuck is about a write that
--              does not end, with Written below it.
--   Post       qp.c: `roce_alloc_recv_wr`, `roce_post_recv` and `roce_post_send`.
--   Device     dev.c: `roce_init_device`, with `roce_alloc_special_qps` of qp.c; Device/Tables and
--              Device/Made are about what it makes.
--   Context    ctx.c: the parameters that `roce_new_ctx` takes and fills in, with Context/Families
--              and Context/Chosen on what they are then.
--   Tests      runs on concrete inputs.
--
-- How the code is modelled. A number of w digits keeps its wrap-around (`u32` is `% 2 ^ 32`). A header
-- is a record of the numbers that stand in memory, and a setter returns the header that it leaves. A
-- pointer is a number, the null pointer 0, and memory is a function from addresses to bytes. A failed
-- assertion or a read out of bounds is `none`. A lock that is held over an operation makes it one
-- step. Loops are structural recursion on the array they walk; the carries of `roce_checksum` are
-- folded with a fuel of two rounds, which is enough for every 32-bit sum. The loop of the
-- requester over the packets in the middle of a message has a fuel, and as many rounds as the message
-- has bytes are enough, since each round takes off `mtu` of them. What goes to the callbacks `net_xmit`
-- and `cq_comp` is collected in the requester's state, in order.
--
-- Not modelled: include/private/list.h is a copy of the CCAN list library; log.h and pcap.h are
-- output; lock.h, mm.h and atomic.h call the host. What `roce_free` frees stays in the model's
-- maps, and no table points to it. The callback `dma_unmap` and
-- the lower headers of the packets that are sent (which Netpkt has) are not part of the requester and
-- of the responder. A device is taken to have one queue: the packets that come in are taken one after the
-- other.
pub mod Ah
pub mod Base
pub mod Context
pub mod Counted
pub mod Cq
pub mod Crc
pub mod Device
pub mod Ib
pub mod Iov
pub mod Mr
pub mod Net
pub mod Netpkt
pub mod Pd
pub mod Port
pub mod Post
pub mod Psn
pub mod Qp
pub mod Requester
pub mod Resource
pub mod Responder
pub mod Sge
pub mod Tests
pub mod Word
pub mod Wr
