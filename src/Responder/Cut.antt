-- ===== src/Responder/Cut.antt =====
-- What takes headers off a scatter list, as bytes in front of the rest.
use mathlib.Core.List.{map-append}
use libroce.Base.{
  ℕ, suc, ◌+◌, ◌^◌, ◌<◌, min, ◌==◌, ◌≡◌, ◌⊎◌, inl, inr, refl, sym, ap, ap₂, ◌∙◌, subst, List, [],
  ◌∷◌, ◌++◌, map, Option, none, some, Bool, true, false, ◌&&◌, not, if◌then◌else◌, length,
  length-append, take, drop, take-append-drop, length-take, ◌>>=◌, arith,
}
use libroce.Iov.{Iov, Taken, iov_len, advance, reverse_iovs}
use libroce.Iov.Span.{span, total, length-span, iov_len-span}
use libroce.Iov.Advance.{Front, advance-Front}
use libroce.Iov.Reverse.{End, reverse_iovs-End}
use libroce.Responder.Decap.{Frame, refused, header}

abbrev pub Accepts : Option (Option Frame) → Frame → Type 0
Accepts m f = m ≡ some (some f)

pub if-Accepts :
    (b : Bool) (m : Option (Option Frame)) (f : Frame)
    → Accepts (if b then m else refused) f
    → (b ≡ true) × Accepts m f
if-Accepts true m f h = (refl, h)
if-Accepts false m f h = absurd cc

pub unless-Accepts :
    (b : Bool) (m : Option (Option Frame)) (f : Frame)
    → Accepts (if not b then refused else m) f
    → (b ≡ true) × Accepts m f
unless-Accepts true m f h = (refl, h)
unless-Accepts false m f h = absurd cc

pub same_number : (a b : ℕ) → (a == b) ≡ true → a ≡ b
same_number a b e = ground arith

pub either-Accepts :
    (b : Bool) (m m' : Option (Option Frame)) (f : Frame)
    → Accepts (if b then m else m') f
    → ((b ≡ true) × Accepts m f) ⊎ ((b ≡ false) × Accepts m' f)
either-Accepts true m m' f h = inl (refl, h)
either-Accepts false m m' f h = inr (refl, h)

pub if_both :
    (a b : Bool) (m : Option (Option Frame)) (f : Frame)
    → Accepts (if a && b then m else refused) f
    → (a ≡ true) × (b ≡ true) × Accepts m f
if_both true true m f h = (refl, refl, h)
if_both true false m f h = absurd cc
if_both false b m f h = absurd cc

pub bind-Accepts :
    {A : Type 0} (m : Option A) (g : A → Option (Option Frame)) (f : Frame)
    → Accepts (m >>= g) f
    → (a : A) × (m ≡ some a) × Accepts (g a) f
bind-Accepts none g f h = absurd cc
bind-Accepts (some a) g f h = (a, refl, h)

module _ (mem : ℕ → ℕ) where
  abbrev pub bytes_of : List Iov → List ℕ
  bytes_of vs = map mem (span vs)

  length-map : (places : List ℕ) → length (map mem places) ≡ length places
  length-map [] = refl
  length-map (p ∷ places) = ap suc (length-map places)

  -- So many bytes in front of the rest of a list.
  abbrev pub Cut : List Iov → ℕ → List ℕ → List Iov → Type 0
  Cut iovs n bytes rest = (length bytes ≡ n) × (bytes_of iovs ≡ bytes ++ bytes_of rest)

  pub advance-Front_taken :
      (v : Iov) (vs : List Iov) (n : ℕ) (t : Taken)
      → n < 2 ^ 32
      → advance mem (v ∷ vs) n ≡ some t
      → Front mem (v ∷ vs) n 0 t
  advance-Front_taken v vs n t fits e =
      let (t', e', front) = advance-Front mem v vs n fits in
      let same : t' ≡ t = cc in subst (Front mem (v ∷ vs) n 0) same front

  pub front-Cut :
      (v : Iov) (vs : List Iov) (n : ℕ) (t : Taken)
      → Front mem (v ∷ vs) n 0 t
      → Cut (v ∷ vs) (min n (total (v ∷ vs))) t.bytes t.iovs
  front-Cut v vs n t front = (
    ap length front.taken
        ∙ omega (arith, length-map (take n all), length-take n all, length-span (v ∷ vs)),
    ap (map mem) (sym (take-append-drop n all))
        ∙ map-append mem (take n all) (drop n all)
        ∙ ap₂ ◌++◌ (sym front.taken) (ap (map mem) (sym front.left)),
  )
    where
      all : List ℕ
      all = span (v ∷ vs)

  pub header-Cut :
      (iovs : List Iov) (n : ℕ) (next : List ℕ → List Iov → Option (Option Frame)) (f : Frame)
      → n < 2 ^ 32
      → Accepts (header mem iovs n next) f
      → (t : Taken) × Cut iovs n t.bytes t.iovs × Accepts (next t.bytes t.iovs) f
  unfolding header advance
  header-Cut [] n next f fits h = absurd cc
  header-Cut (v ∷ vs) n next f fits h =
      let (t, e, h') = bind-Accepts (advance mem (v ∷ vs) n) _ f h in
      let (full, h'') = if-Accepts (t.copied == n) (next t.bytes t.iovs) f h' in
      let front = advance-Front_taken v vs n t fits e in
      let (size, layout) = front-Cut v vs n t front in
      (t, (ground (arith, front.count, size), layout), h'')

  pub length-bytes_of : (iovs : List Iov) → length (bytes_of iovs) ≡ total iovs
  length-bytes_of iovs = length-map (span iovs) ∙ length-span iovs

  pub length-Cut :
      (iovs : List Iov) (n : ℕ) (bytes : List ℕ) (rest : List Iov)
      → Cut iovs n bytes rest
      → total iovs ≡ n + total rest
  length-Cut iovs n bytes rest (size, layout) = omega (
    arith,
    length-bytes_of iovs,
    length-bytes_of rest,
    ap length layout,
    length-append bytes (bytes_of rest),
  )

  -- The last four bytes, where they are there.
  pub reverse-Cut :
      (iovs : List Iov) (t : Taken)
      → reverse_iovs mem iovs 4 ≡ some t
      → t.copied ≡ 4
      → (length t.bytes ≡ 4) × (bytes_of iovs ≡ bytes_of t.iovs ++ t.bytes)
  unfolding reverse_iovs
  reverse-Cut [] t e c = absurd cc
  reverse-Cut (v ∷ vs) t e c =
      let (t', ps, e', end') = reverse_iovs-End mem v vs 4 (omega arith) (omega arith) in
      let same : t' ≡ t = cc in
      let end = subst (λ u. End mem (v ∷ vs) 4 u ps) same end' in
      (
        ap length end.taken ∙ length-map ps ∙ omega (arith, end.count),
        ap (map mem) (sym end.left)
            ∙ map-append mem (span t.iovs) ps
            ∙ ap (◌++◌ (bytes_of t.iovs)) (sym end.taken),
      )

  pub iov_len-total :
      (vs : List Iov) (len : ℕ) → total vs < 2 ^ 32 → iov_len vs ≡ some len → len ≡ total vs
  unfolding iov_len
  iov_len-total [] len small e = absurd cc
  iov_len-total (v ∷ vs) len small e =
      let same : some len ≡ some (length (span (v ∷ vs))) = sym e ∙ iov_len-span v vs small in
      let eq : len ≡ length (span (v ∷ vs)) = cc in eq ∙ length-span (v ∷ vs)
