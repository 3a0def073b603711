-- ===== src/Responder/Switch.antt =====
-- The switch of `roce_recv_rc`, and what it leaves alone.
use libroce.Base.{ℕ, List, Option, none, some, ℤ, Bool, true, false}
use libroce.Iov.{Iov}
use libroce.Ib.Reth.{Reth}
use libroce.Requester.{Ctx}
use libroce.Responder.{Responder}
use libroce.Responder.Wire.{immdt_from, reth_from}
use libroce.Responder.Payload.{get_eth, recv_payload}
use libroce.Responder.Write.{rdma_write_payload}
use libroce.Responder.Reliable.{
  eth_next, with_eth, send_immdt, write_reth, write_immdt, write_reth_immdt, dispatch,
}
use libroce.Responder.Kept.{
  Same, Keeps, bind-Keeps, if-Keeps, recv_payload-Keeps, rdma_write_payload-Keeps,
}

module _ (start : Responder) where
  with_eth-Keeps :
      (r : Responder) (iovs : List Iov) (size : ℕ)
      (next : List ℕ → List Iov → Option (ℤ × Responder))
      → Same start r
      → ((eth : List ℕ) (rest : List Iov) → Keeps start (next eth rest))
      → Keeps start (with_eth r iovs size next)
  unfolding with_eth
  with_eth-Keeps r iovs size next s h = bind-Keeps start (get_eth r.mem iovs size) _ next-Keeps
    where
      next-Keeps : (got : Option (List ℕ × List Iov)) → Keeps start (eth_next r next got)
      next-Keeps none = s
      next-Keeps (some (eth, rest)) = h eth rest

  module _ (c : Ctx) (r : Responder) (opcode : ℕ) (s : Same start r) where
    payload-Keeps :
        (iovs : List Iov) (inprocess : Bool)
        → Keeps start (recv_payload c r iovs none inprocess opcode)
    payload-Keeps iovs inprocess = recv_payload-Keeps start c r iovs none inprocess opcode s

    send_immdt-Keeps :
        (inprocess : Bool) (iovs : List Iov) → Keeps start (send_immdt c r opcode inprocess iovs)
    unfolding send_immdt
    send_immdt-Keeps inprocess iovs =
        with_eth-Keeps r iovs 4 _ s
          (λ eth rest. recv_payload-Keeps start c r rest (some (immdt_from eth)) inprocess opcode s)

    write-Keeps :
        (iovs : List Iov) → Keeps start (rdma_write_payload c r iovs none none true opcode)
    write-Keeps iovs = rdma_write_payload-Keeps start c r iovs none none true opcode s

    write_reth-Keeps : (iovs : List Iov) → Keeps start (write_reth c r opcode iovs)
    unfolding write_reth
    write_reth-Keeps iovs = with_eth-Keeps r iovs 16 _ s (λ eth rest.
        rdma_write_payload-Keeps start c r rest (some (reth_from eth)) none false opcode s)

    write_immdt-Keeps :
        (reth : Option Reth) (inprocess : Bool) (iovs : List Iov)
        → Keeps start (write_immdt c r opcode reth inprocess iovs)
    unfolding write_immdt
    write_immdt-Keeps reth inprocess iovs = with_eth-Keeps r iovs 4 _ s (λ eth rest.
        rdma_write_payload-Keeps start c r rest reth (some (immdt_from eth)) inprocess opcode s)

    write_reth_immdt-Keeps : (iovs : List Iov) → Keeps start (write_reth_immdt c r opcode iovs)
    unfolding write_reth_immdt
    write_reth_immdt-Keeps iovs =
        with_eth-Keeps r iovs 16 _ s
          (λ eth rest. write_immdt-Keeps (some (reth_from eth)) false rest)

    pub dispatch-Keeps : (iovs : List Iov) → Keeps start (dispatch c r opcode iovs)
    unfolding dispatch
    dispatch-Keeps iovs =
        search
          (
            if-Keeps, s, payload-Keeps, send_immdt-Keeps, write-Keeps, write_reth-Keeps,
            write_immdt-Keeps, write_reth_immdt-Keeps,
          )
          depth 20
