-- ===== src/Requester.antt =====
-- requester.c: from a work request to packets, and what acknowledgements do. The locks are not
-- modelled: each function runs as one step.
pub mod Build
pub mod Multi
pub mod Piece
pub mod Message
pub mod Sends
pub mod Queue
pub mod Window
pub mod Kept
pub mod Datagram
pub mod Acks
pub mod Handled
pub mod Cut
pub mod Owned
pub mod Ends
pub mod Live
pub mod Drain
pub mod Posted
pub mod Joined
pub mod Request
use libroce.Base.{
  ℕ, ◌+◌, ◌*◌, ◌%◌, ◌^◌, ◌==◌, List, [], ◌∷◌, ◌++◌, Option, none, some, ℤ, pos, negsuc, ◌-◌, Bool,
  true, false, if◌then◌else◌, map,
}
use libroce.Word.{u16, u32}
use libroce.Iov.{Iov}
use libroce.Ib.Bth.{Bth, get_psn}
use libroce.Ib.Ieth.{Ieth}
use libroce.Ib.Immdt.{Immdt}
use libroce.Ib.Reth.{Reth}
use libroce.Ib.Deth.{Deth}
use libroce.Ib.Aeth.{Aeth}
use libroce.Qp.{QpType, rc, uc}
use libroce.Pd.{Pds}
use libroce.Mr.{Mrs}
use libroce.Wr.{SendWr, Wc}

-- The extended headers of a packet.
pub data Ext : Type 0 where
  no_ext : Ext
  ieth_ext : Ieth → Ext
  immdt_ext : Immdt → Ext
  reth_ext : Reth → Option Immdt → Ext
  deth_ext : Deth → Option Immdt → Ext
  aeth_ext : Aeth → Ext

-- `roce_netpkt` without the lower headers: `opaque` is the address of the work request that ends
-- with the packet, or null; `eth_len` the length of the entry for the extended headers; `payload`
-- what is written to the entries for the payload, with the index there.
pub record Packet : Type 0 where
  pub opaque : ℕ
  pub num_iov : ℕ
  pub vnet_len : ℕ
  pub padcnt : ℕ
  pub bth : Bth
  pub ext : Ext
  pub eth_len : ℕ
  pub payload : List (ℕ × List Iov)

-- What the requester reads of the context: the page size, the length of the network device's header
-- and the MTU of the port, the callback that maps memory, and whether the `k`th allocation for a
-- work request succeeds.
pub record Ctx : Type 0 where
  pub page_size : ℕ
  pub vnet_hdr : ℕ
  pub active_mtu : ℕ
  pub dma_map : ℕ → ℕ → ℕ
  pub memory : ℕ → Bool

-- The fields of `roce_qp` that the requester uses, `req.psn` as `psn`; the objects that it reaches;
-- and what went to the callbacks `net_xmit` and `cq_comp`, in order.
pub record Requester : Type 0 where
  pub handle : ℕ
  pub qp_type : QpType
  pub pd : ℕ
  pub sq_sig_all : Bool
  pub dest_qp_num : ℕ
  pub path_mtu : ℕ
  pub max_inline_data : ℕ
  pub sq_psn : ℕ
  pub psn : ℕ
  pub pending : List Packet
  pub outgoing : List Packet
  pub wrs : List SendWr
  pub pds : Pds
  pub mrs : Mrs
  pub sent : List Packet
  pub completed : List Wc

-- What a call leads to: a failed assertion or a null pointer followed; a loop that has used up its
-- fuel; or a state.
pub data Outcome : Type 0 where
  failed endless : Outcome
  done : Requester → Outcome

-- `ROCE_MAX_OUTGOING_PACKETS`.
abbrev pub max_outgoing_packets : ℕ
max_outgoing_packets = 8

unfoldable pub get_mtu : Ctx → Requester → ℕ
get_mtu c s = elim s.qp_type [ rc ↦ s.path_mtu | uc ↦ s.path_mtu | _ ↦ c.active_mtu ]

unfoldable pub netpkt_psn : Packet → ℕ
unfolding get_psn
netpkt_psn pkt = get_psn pkt.bth

unfoldable pub netpkt_pending_one : Requester → Packet → Requester
netpkt_pending_one s pkt = record s { pending = s.pending ++ pkt ∷ [] }

unfoldable pub netpkt_pending_multi : Requester → List Packet → Requester
netpkt_pending_multi s pkts = record s { pending = s.pending ++ pkts }

-- `roce_netpkt_alloc`; `none` is the null pointer.
unfoldable pub netpkt_alloc : Ctx → ℕ → ℕ → ℕ → ℕ → Option Packet
netpkt_alloc c k opaque pages padcnt =
    if c.memory k
    then some (record {
      opaque = opaque;
      num_iov = u16 pages + 8;
      vnet_len = c.vnet_hdr;
      padcnt = padcnt;
      bth = record { opcode = 0; flags = 0; pkey = 0; u32_1 = 0; u32_2 = 0 };
      ext = no_ext;
      eth_len = 0;
      payload = [];
    })
    else none

-- An `int` as a `uint32_t`.
abbrev pub to_u32 : ℤ → ℕ
to_u32 (pos n) = u32 n
to_u32 (negsuc n) = 2 ^ 32 - 1 - n % 2 ^ 32

-- `send_wr->error = error`, seen through the queue of send work requests.
abbrev pub mark_one : ℕ → ℕ → SendWr → SendWr
mark_one address error w = if w.address == address then record w { error = error } else w

unfoldable pub mark : Requester → SendWr → ℕ → Requester
mark s w error = record s { wrs = map (mark_one w.address error) s.wrs }
