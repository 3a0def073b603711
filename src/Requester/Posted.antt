-- ===== src/Requester/Posted.antt =====
-- A new work request: the packets of its message go behind those in the queues.
use Prim.{tt}
use libroce.Base.{
  ℕ, zero, suc, ◌^◌, ◌<◌, ◌≡◌, ◌≢◌, sym, ap, ◌∙◌, subst, inl, inr, List, [], ◌∷◌, ◌++◌, Option,
  none, some, false, arith, drop, length, map, replicate, when_true, when_false, if◌then◌else◌,
  ◌>>=◌, Option-cases,
}
use libroce.Mr.{Mrs}
use libroce.Pd.{Pds}
use libroce.Ib.Bth.{get_psn}
use libroce.Ib.Bth.Layout.{Layout, layout}
use libroce.Word.Field.{masked}
use libroce.Word.{bswap32}
use libroce.Psn.Order.{after}
use libroce.Requester.{Packet, netpkt_psn}
use libroce.Requester.Message.{header, middle_headers}
use libroce.Requester.Window.{InRow}
use libroce.Requester.Owned.{is_gone, IsReported, released, Owned, finished, part, gone, whole}
use libroce.Wr.{SendWr}

-- Headers with sequence numbers in a row.
abbrev pub HeadersInRow : ℕ → List Layout → Type 0
HeadersInRow psn [] = Unit
HeadersInRow psn (h ∷ hs) = (h.psn ≡ psn) × HeadersInRow (after psn 1) hs

netpkt_psn-layout : (pkt : Packet) → netpkt_psn pkt ≡ (header pkt).psn
unfolding netpkt_psn get_psn layout
netpkt_psn-layout pkt = omega (arith, masked 0 24 (bswap32 pkt.bth.u32_2))

-- The packets have the numbers of their headers.
pub packets-InRow :
    (psn : ℕ) (pkts : List Packet) (hs : List Layout)
    → map header pkts ≡ hs
    → HeadersInRow psn hs
    → InRow psn pkts
packets-InRow psn pkts hs e r = go psn pkts (subst (HeadersInRow psn) (sym e) r)
  where
    go : (psn : ℕ) (pkts : List Packet) → HeadersInRow psn (map header pkts) → InRow psn pkts
    go psn [] r = tt
    go psn (pkt ∷ pkts) r = (netpkt_psn-layout pkt ∙ r.0, go (after psn 1) pkts r.1)

pub middles-InRow :
    (ib opcode dest n psn : ℕ) (last : Layout)
    → psn < 2 ^ 24
    → last.psn ≡ after psn n
    → HeadersInRow psn (middle_headers ib opcode dest n psn ++ last ∷ [])
middles-InRow ib opcode dest zero psn last h e = (omega (arith, e), tt)
middles-InRow ib opcode dest (suc n) psn last h e = (
  omega arith,
  middles-InRow ib opcode dest n (after psn 1) last (omega arith) (omega (arith, e)),
)

pub InRow-join :
    (psn : ℕ) (xs ys : List Packet)
    → psn < 2 ^ 24
    → InRow psn xs
    → InRow (after psn (length xs)) ys
    → InRow psn (xs ++ ys)
InRow-join psn [] ys h a b = let e : after psn 0 ≡ psn = omega arith in subst (λ p. InRow p ys) e b
InRow-join psn (x ∷ xs) ys h a b =
    let e : after psn (suc (length xs)) ≡ after (after psn 1) (length xs) = omega arith in
    (a.0, InRow-join (after psn 1) xs ys (omega arith) a.1 (subst (λ p. InRow p ys) e b))

head_of : {x y : ℕ} {xs ys : List ℕ} → ◌≡◌ {A = List ℕ} (x ∷ xs) (y ∷ ys) → x ≡ y
head_of e = cc

-- Packets of which only the last ends a work request.
message-Owned :
    (pds pds' : Pds) (mrs mrs' : Mrs) (w : SendWr) (n : ℕ) (pkts : List Packet)
    → is_gone w ≡ false
    → w.address ≢ 0
    → IsReported w
    → released pds mrs w ≡ some (pds', mrs')
    → map (λ pkt. pkt.opaque) pkts ≡ replicate n 0 ++ w.address ∷ []
    → Owned pds mrs (w ∷ []) pkts
message-Owned pds pds' mrs mrs' w zero [] stays ne r f e = cc
message-Owned pds pds' mrs mrs' w (suc n) [] stays ne r f e = cc
message-Owned pds pds' mrs mrs' w zero (pkt ∷ []) stays ne r f e =
    whole pds pds' mrs mrs' w [] pkt [] stays (head_of e) ne r f (finished pds' mrs')
message-Owned pds pds' mrs mrs' w zero (pkt ∷ pkt' ∷ pkts) stays ne r f e = cc
message-Owned pds pds' mrs mrs' w (suc n) (pkt ∷ pkts) stays ne r f e =
    part pds mrs (w ∷ []) pkt pkts (head_of e)
      (message-Owned pds pds' mrs mrs' w n pkts stays ne r f (ap (drop 1) e))

-- The references of work requests put back, one after the other.
abbrev pub release_all : Pds → Mrs → List SendWr → Option (Pds × Mrs)
release_all pds mrs [] = some (pds, mrs)
release_all pds mrs (w ∷ ws) =
    if is_gone w then release_all pds mrs ws else released pds mrs w >>= λ r. release_all r.0 r.1 ws

-- A new work request and the packets of its message.
pub Owned-append :
    (pds : Pds) (mrs : Mrs) (wrs : List SendWr) (pkts : List Packet) (w : SendWr) (n : ℕ)
    (message : List Packet) (r : Pds × Mrs)
    → is_gone w ≡ false
    → w.address ≢ 0
    → IsReported w
    → map (λ pkt. pkt.opaque) message ≡ replicate n 0 ++ w.address ∷ []
    → release_all pds mrs (wrs ++ w ∷ []) ≡ some r
    → Owned pds mrs wrs pkts
    → Owned pds mrs (wrs ++ w ∷ []) (pkts ++ message)
Owned-append pds mrs wrs pkts w n message r stays ne rep e f (finished _ _) =
    elim (Option-cases (released pds mrs w)) [
      | inl none_left ↦ absurd (stuck none_left)
      | inr ((pds', mrs'), found) ↦ message-Owned pds pds' mrs mrs' w n message stays ne rep found e
    ]
  where
    stuck : released pds mrs w ≡ none → ⊥
    stuck h =
        let step : Option (Pds × Mrs) → Option (Pds × Mrs) =
          λ x. x >>= λ r. release_all r.0 r.1 [] in
        let r' : ◌≡◌ {A = Option (Pds × Mrs)} none (some r) =
          sym (when_false (is_gone w) _ _ stays ∙ ap step h) ∙ f in
        cc
Owned-append pds mrs wrs pkts w n message r stays ne rep e f (part _ _ _ pkt pkts' z o) =
    part pds mrs (wrs ++ w ∷ []) pkt (pkts' ++ message) z
      (Owned-append pds mrs wrs pkts' w n message r stays ne rep e f o)
Owned-append pds mrs wrs pkts w n message r stays ne rep e f (gone _ _ v ws _ g o) =
    gone pds mrs v (ws ++ w ∷ []) (pkts ++ message) g (
      Owned-append pds mrs ws pkts w n message r stays ne rep e
        (sym (when_true (is_gone v) _ _ g) ∙ f) o)
Owned-append pds mrs wrs pkts w n message r stays ne rep e f
      (whole _ pds' _ mrs' v ws pkt pkts' keeps a m rep' found o) =
    whole pds pds' mrs mrs' v (ws ++ w ∷ []) pkt (pkts' ++ message) keeps a m rep' found (
      Owned-append pds' mrs' ws pkts' w n message r stays ne rep e
        (sym (
            when_false (is_gone v) _ _ keeps
            ∙ ap (λ x. x >>= λ r. release_all r.0 r.1 (ws ++ w ∷ [])) found)
          ∙ f)
        o)
