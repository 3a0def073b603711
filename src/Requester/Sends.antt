-- ===== src/Requester/Sends.antt =====
-- What the packets of a message look like together.
use libroce.Base.{
  ℕ, zero, suc, ◌+◌, ◌*◌, ◌≤◌, ◌<◌, ◌≡◌, refl, sym, ap, ap₂, ◌∙◌, List, [], ◌∷◌, ◌++◌, true, false,
  length, take, replicate, map, arith, append_assoc, length-take,
}
use Prim.{tt}
use libroce.Sge.{Sge}
use libroce.Netpkt.SetBth.{asked}
use libroce.Psn.Order.{after}
use libroce.Requester.{no_ext, Packet, Ctx, Requester, Outcome, failed, endless, done}
use libroce.Requester.Build.{Ending, asks_ack, padding}
use libroce.Requester.Piece.{rest, carried, IsMapped}
use libroce.Requester.Message.{header, AreMapped, all_carried, middle_headers}
use libroce.Wr.{SendWr, has, solicited}

-- The packets `pkts` are the message of the work request `w`: a first, `n` in the middle, a last.
-- Their payloads are those of the elements of `parts`, one part for each.
pub record IsMessage (c : Ctx) (s : Requester) (w : SendWr) (ib mtu : ℕ) (head : Ending)
    (middle : ℕ) (last : Ending) (payload : ℕ) (pkts : List Packet) : Type 0 where
  pub n : ℕ
  pub remained : ℕ
  pub counted : mtu + n * mtu + remained ≡ payload
  pub some_left : 0 < remained
  pub at_most : remained ≤ mtu
  pub headers :
      map header pkts
      ≡ asked ib head.opcode false 0 s.dest_qp_num (asks_ack s.psn) s.psn
          ∷ middle_headers ib middle s.dest_qp_num n (after s.psn 1)
        ++ asked ib last.opcode
            (has w.send_flags solicited)
            (padding remained)
            s.dest_qp_num
            true
            (after s.psn (suc n))
          ∷ []
  pub parts : List (List Sge)
  pub mapped : AreMapped c s pkts parts
  pub sizes : map (λ gs. length (carried gs)) parts ≡ mtu ∷ replicate n mtu ++ remained ∷ []
  pub owners : map (λ pkt. pkt.opaque) pkts ≡ 0 ∷ replicate n 0 ++ w.address ∷ []
  pub exts : map (λ pkt. pkt.ext) pkts ≡ head.ext ∷ replicate n no_ext ++ last.ext ∷ []
  pub bytes : all_carried parts ≡ rest w 0 0

-- What a message leads to: no endless loop; and unless an assertion fails or memory lacks, the
-- packets of the message behind those that wait, and the next sequence number behind theirs.
abbrev pub Sends : Ctx → Requester → SendWr → ℕ → ℕ → Ending → ℕ → Ending → ℕ → Outcome → Type 0
Sends c s w ib mtu head middle last payload failed = Unit
Sends c s w ib mtu head middle last payload endless = ⊥
Sends c s w ib mtu head middle last payload (done s') =
    (pkts : List Packet) × (s'
      ≡ record s { pending = s.pending ++ pkts; psn = after s.psn (length pkts) })
    × IsMessage c s w ib mtu head middle last payload pkts

pub map-append :
    {A B : Type 0} (f : A → B) (xs ys : List A) → map f (xs ++ ys) ≡ map f xs ++ map f ys
map-append f [] ys = refl
map-append f (x ∷ xs) ys = ap (◌∷◌ (f x)) (map-append f xs ys)

pub all_carried-append :
    (xs ys : List (List Sge)) → all_carried (xs ++ ys) ≡ all_carried xs ++ all_carried ys
all_carried-append [] ys = refl
all_carried-append (x ∷ xs) ys =
    ap (◌++◌ (carried x)) (all_carried-append xs ys)
    ∙ sym (append_assoc (carried x) (all_carried xs) (all_carried ys))

pub AreMapped-append :
    (c : Ctx) (s : Requester) (pkts : List Packet) (parts : List (List Sge)) (pkt : Packet)
    (gs : List Sge)
    → AreMapped c s pkts parts
    → IsMapped c s pkt gs
    → AreMapped c s (pkts ++ pkt ∷ []) (parts ++ gs ∷ [])
AreMapped-append c s [] [] pkt gs all one = (one, tt)
AreMapped-append c s [] (part ∷ parts) pkt gs all one = absurd all
AreMapped-append c s (first ∷ pkts) [] pkt gs all one = absurd all
AreMapped-append c s (first ∷ pkts) (part ∷ parts) pkt gs (here, all) one =
    (here, AreMapped-append c s pkts parts pkt gs all one)

pub take-all : {A : Type 0} (n : ℕ) (xs : List A) → length xs ≤ n → take n xs ≡ xs
take-all zero [] h = refl
take-all zero (x ∷ xs) h = absurd (omega arith)
take-all (suc n) [] h = refl
take-all (suc n) (x ∷ xs) h = ap (◌∷◌ x) (take-all n xs (omega arith))

pub size :
    {xs : List ℕ} {k n : ℕ} (ys : List ℕ) → xs ≡ take k ys → length ys ≡ n → k ≤ n → length xs ≡ k
size {k = k} ys e h le = ap (length {A = ℕ}) e ∙ length-take k ys ∙ omega arith

-- What a function makes of all, from the first, those in the middle and the last.
module _ {P A : Type 0} (f : P → A) (first : P) (pkts : List P) (pkt : P) where
  pub fields :
      {a b : A} {xs : List A}
      → f first ≡ a
      → map f pkts ≡ xs
      → f pkt ≡ b
      → map f (first ∷ pkts ++ pkt ∷ []) ≡ a ∷ xs ++ b ∷ []
  fields ea eas eb = ap₂ ◌∷◌ ea (map-append f pkts (pkt ∷ []) ∙ ap₂ (λ ys y. ys ++ y ∷ []) eas eb)
