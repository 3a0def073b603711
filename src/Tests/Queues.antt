-- ===== src/Tests/Queues.antt =====
-- Ten packets of one work request, of which nine are on their way; and a new work request of ten
-- bytes for an idle queue pair.
use Prim.{tt}
use libroce.Base.{
  ℕ, update, ◌+◌, ◌*◌, ◌≡◌, refl, inl, inr, List, [], ◌∷◌, none, some, ◌++◌, arith, map,
}
use libroce.Word.{bswap32, bswap16}
use libroce.Ib.Bth
use libroce.Netpkt.{set_bth_fields}
use libroce.Mr.Life.{put_mrs}
use libroce.Sge.{sge_len}
use libroce.Wr.{wc_send, send_wr_is_local, send_wr_opcode_to_wc, send_wr_is_inline}
use libroce.Requester.{Packet, Requester, Outcome, done, netpkt_psn, get_mtu}
use libroce.Requester.Queue.{handle_acknowledge, request_rc}
use libroce.Requester.Window.{InOrder}
use libroce.Requester.Owned.{IsReported, finished, part, whole, OwnedBy, ids_of}
use libroce.Requester.Live.{IsLive}
use libroce.Requester.Drain.{rounds, IsDrained, rounds-IsDrained}
use libroce.Requester.Joined.{CanEnd, Joins}
use libroce.Requester.Request.{request_rc-Joins}
use libroce.Mr.{Mrs}
use libroce.Tests.Mr.{element, regions}
use libroce.Tests.Requester.{ctx, qp, numbered, wr, known}

abbrev wr_reported : IsReported wr
unfolding sge_len send_wr_opcode_to_wc
wr_reported = record { len = 10; opcode = wc_send; flags = 0; has_len = refl; has_opcode = refl }

-- The region behind the end of the work request.
abbrev put_back : Mrs
put_back = record regions { objects = record regions.objects { ref = update (λ p. 1) 7 0 } }

put_one : put_mrs qp.pds regions (element ∷ []) ≡ some (qp.pds, put_back)
unfolding put_mrs
put_one = refl

abbrev ending : Packet
ending = record (numbered 109) { opaque = 500 }

abbrev working : Requester
working = record qp {
  psn = 110;
  outgoing = map numbered (100 ∷ 101 ∷ 102 ∷ 103 ∷ 104 ∷ 105 ∷ 106 ∷ 107 ∷ 108 ∷ []);
  pending = ending ∷ [];
  wrs = wr ∷ [];
}

working-InOrder : InOrder working
unfolding netpkt_psn bswap32 bswap16
working-InOrder = record {
  row = (refl, (refl, (refl, (refl, (refl, (refl, (refl, (refl, (refl, (refl, tt))))))))));
  next = refl;
  fits = omega arith;
}

working-Owned :
    OwnedBy working
      (map numbered (100 ∷ 101 ∷ 102 ∷ 103 ∷ 104 ∷ 105 ∷ 106 ∷ 107 ∷ 108 ∷ []) ++ ending ∷ [])
unfolding send_wr_is_local
working-Owned = parts (100 ∷ 101 ∷ 102 ∷ 103 ∷ 104 ∷ 105 ∷ 106 ∷ 107 ∷ 108 ∷ []) (
    whole qp.pds qp.pds regions put_back wr [] ending [] refl refl (omega arith) wr_reported put_one
      (finished qp.pds put_back))
  where
    parts :
        (ns : List ℕ)
        → OwnedBy working (ending ∷ [])
        → OwnedBy working (map numbered ns ++ ending ∷ [])
    parts [] o = o
    parts (n ∷ ns) o =
        part qp.pds qp.mrs (wr ∷ []) (numbered n) (map numbered ns ++ ending ∷ []) refl (parts ns o)

working-IsLive : IsLive working
working-IsLive = record {
  order = working-InOrder;
  owned = working-Owned;
  window = omega arith;
  full = inr refl;
  straight = omega arith;
  small = omega arith;
}

rounds-IsDrained_example :
    (s' : Requester) × (rounds (λ n. 3 * n + 1) 10 working ≡ some s') × IsDrained working s'
rounds-IsDrained_example = rounds-IsDrained (λ n. 3 * n + 1) 10 working working-IsLive (omega arith)

qp-IsLive : IsLive qp
qp-IsLive = record {
  order = record { row = tt; next = refl; fits = omega arith };
  owned = finished qp.pds qp.mrs;
  window = omega arith;
  full = inl refl;
  straight = omega arith;
  small = omega arith;
}

abbrev wr_ends : CanEnd qp wr
unfolding send_wr_is_local put_mrs
wr_ends = record {
  stays = refl;
  address = omega arith;
  reported = wr_reported;
  left = (qp.pds, put_back);
  released = put_one;
}

request_rc-Joins_example : Joins qp wr (request_rc 10 ctx qp wr)
unfolding get_mtu send_wr_is_inline wr_ends wr_reported
request_rc-Joins_example =
    request_rc-Joins ctx qp wr 0 10 wr_ends known qp-IsLive refl refl (omega arith)
      ((omega arith, omega arith, tt), (omega arith, tt)) refl (omega arith) (omega arith)
      (omega arith) (omega arith) (omega arith)

-- The identifiers that rounds of acknowledgements report behind the call.
abbrev reported : Outcome → List ℕ
reported (done s) = elim (rounds (λ n. 1) 3 s) [ none ↦ [] | some s' ↦ ids_of s' ]
reported o = []

one_reported : reported (request_rc 10 ctx qp wr) ≡ 1 ∷ []
unfolding request_rc handle_acknowledge bswap32 bswap16 set_bth_fields Bth.set_psn Bth.clear_resv2
    Bth.set_ack Bth.set_destqp Bth.clear_resv1 Bth.set_becn Bth.set_fecn Bth.set_pkey Bth.set_tver
    Bth.set_padcnt Bth.set_mig Bth.set_se Bth.set_opcode
one_reported = refl
