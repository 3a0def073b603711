-- ===== src/Mr/Access.antt =====
-- What `roce_mr_map_sge` has checked when it succeeds.
use Prim.{tt}
use libroce.Base.{
  ℕ, ◌+◌, ◌^◌, ◌≤◌, ◌<◌, ◌≡◌, ◌≢◌, refl, sym, ap, ◌∙◌, ◌⊎◌, inl, inr, List, [], ◌∷◌, Option, none,
  some, ℤ, pos, eacces, Bool, true, false, Bool-cases, Option-cases, ◌==◌, ◌||◌, not, ==→ne, arith,
  if◌then◌else◌, bit_and,
}
use libroce.Word.{u32}
use libroce.Resource.{get}
use libroce.Iov.{Iov}
use libroce.Sge.{Sge}
use libroce.Qp.{QpType, gsi}
use libroce.Mr.{MrType, mem, frmr, dma, max_type, MrState, valid, Mr, Mrs, key_to_index}
use libroce.Mr.Map.{
  is_valid, is_gsi, allowed, in_range, map_one, map_pages, map_from, map_sge, Mapped, broken,
  refused, mapped,
}

-- The region that an element names lets a queue pair do what it asks for: the key is the region's,
-- and so is the domain; the region is in use and has every access right asked for; and the element
-- lies in it, or the region stands for all memory and the queue pair is the one for management.
pub record IsGranted (s : Mrs) (qp_pd : ℕ) (qp_type : QpType) (local : Bool) (access : ℕ) (g : Sge)
    : Type 0 where
  pub at : ℕ
  pub found : get s.objects.table (key_to_index g.lkey) ≡ some at
  pub real : at ≢ 0
  pub key : (if local then (s.mr at).lkey else (s.mr at).rkey) ≡ g.lkey
  pub domain : (s.mr at).pd ≡ qp_pd
  pub state : (s.mr at).state ≡ valid
  pub rights : bit_and access ((s.mr at).access) ≡ access
  pub range :
      (((s.mr at).type ≡ dma) × (qp_type ≡ gsi))
      ⊎ (((s.mr at).iova ≤ g.addr) × (g.addr + g.length ≤ (s.mr at).iova + (s.mr at).length))

abbrev pub AllGranted : Mrs → ℕ → QpType → Bool → ℕ → List Sge → Type 0
AllGranted s qp_pd qp_type local access [] = Unit
AllGranted s qp_pd qp_type local access (g ∷ gs) =
    IsGranted s qp_pd qp_type local access g × AllGranted s qp_pd qp_type local access gs

allowed-fields :
    (qp_pd : ℕ) (local : Bool) (access : ℕ) (type : MrType) (mr : Mr) (g : Sge)
    → allowed qp_pd local access type mr g ≡ true
    → ((if local then mr.lkey else mr.rkey) ≡ g.lkey)
      × (mr.pd ≡ qp_pd)
      × (is_valid mr.state ≡ true)
      × (bit_and access mr.access ≡ access)
unfolding allowed
allowed-fields qp_pd local access type mr g h = ground arith

Mapped-cases :
    (x : Mapped)
    → (x ≡ broken)
      ⊎ (x ≡ refused)
      ⊎ ((iovs : List Iov) × (n : ℕ) × (d : Bool) × (x ≡ mapped iovs n d))
Mapped-cases broken = inl refl
Mapped-cases refused = inr (inl refl)
Mapped-cases (mapped iovs n d) = inr (inr (iovs, n, d, refl))

is_valid-valid : (state : MrState) → is_valid state ≡ true → state ≡ valid
is_valid-valid MrState.invalid h = cc
is_valid-valid MrState.free h = cc
is_valid-valid valid h = refl
is_valid-valid MrState.destroyed h = cc
is_valid-valid MrState.max_state h = cc

is_gsi-gsi : (type : QpType) → is_gsi type ≡ true → type ≡ gsi
is_gsi-gsi gsi h = refl
is_gsi-gsi QpType.smi h = cc
is_gsi-gsi QpType.rc h = cc
is_gsi-gsi QpType.uc h = cc
is_gsi-gsi QpType.rd h = cc
is_gsi-gsi QpType.ud h = cc
is_gsi-gsi QpType.max h = cc

-- Where no sum wraps, the test of the range is the one on numbers.
in_range-le :
    (mr : Mr) (g : Sge)
    → mr.iova + mr.length < 2 ^ 64
    → g.addr + g.length < 2 ^ 64
    → in_range mr g ≡ true
    → (mr.iova ≤ g.addr) × (g.addr + g.length ≤ mr.iova + mr.length)
unfolding in_range
in_range-le mr g hm hg h = ground arith

paged-in_range :
    (mr : Mr) (g : Sge) (iovs : List Iov) (n : ℕ) (d : Bool)
    → (if in_range mr g then map_pages mr g else refused) ≡ mapped iovs n d
    → in_range mr g ≡ true
paged-in_range mr g iovs n d e = elim (Bool-cases (in_range mr g)) [
  | inl h ↦ h
  | inr h ↦ let r : ◌≡◌ {A = Mapped} refused (mapped iovs n d) = sym (rw h refl) ∙ e in cc
]

not-or : {a b : Bool} → (a || not b) ≡ false → (a ≡ false) × (b ≡ true)
not-or {a = true} {b = b} h = cc
not-or {a = false} {b = true} h = (refl, refl)
not-or {a = false} {b = false} h = cc

-- The addresses of an element do not wrap.
abbrev pub AllSmall : List Sge → Type 0
AllSmall [] = Unit
AllSmall (g ∷ gs) = (g.addr + g.length < 2 ^ 64) × AllSmall gs

abbrev Result : Type 0
Result = Option (ℤ × List (ℕ × List Iov) × Bool)

module _ (dma_map : ℕ → ℕ → ℕ) where
  -- An element that is mapped passed the test of its region's type.
  map_one-range :
      (qp_type : QpType) (mr : Mr) (g : Sge) (type : MrType) (iovs : List Iov) (n : ℕ) (d : Bool)
      → map_one dma_map qp_type mr g type ≡ mapped iovs n d
      → ((type ≡ dma) × (qp_type ≡ gsi)) ⊎ (in_range mr g ≡ true)
  unfolding map_one
  map_one-range qp_type mr g dma iovs n d e = elim (Bool-cases (is_gsi qp_type)) [
    | inl h ↦ inl (refl, is_gsi-gsi qp_type h)
    | inr h ↦ let r : ◌≡◌ {A = Mapped} refused (mapped iovs n d) = sym (rw h refl) ∙ e in cc
  ]
  map_one-range qp_type mr g mem iovs n d e = inr (paged-in_range mr g iovs n d e)
  map_one-range qp_type mr g frmr iovs n d e = inr (paged-in_range mr g iovs n d e)
  map_one-range qp_type mr g max_type iovs n d e = inr (paged-in_range mr g iovs n d e)

  module _ (s : Mrs) (qp_pd : ℕ) (qp_type : QpType) (local : Bool) (access : ℕ)
      (regions : (p : ℕ) → (s.mr p).iova + (s.mr p).length < 2 ^ 64) where
    -- One element that is allowed and mapped.
    granted :
        (g : Sge) (type : MrType) (p n : ℕ) (iovs : List Iov) (d : Bool)
        → g.addr + g.length < 2 ^ 64
        → get s.objects.table (key_to_index g.lkey) ≡ some p
        → (p == 0 || not (allowed qp_pd local access type (s.mr p) g)) ≡ false
        → map_one dma_map qp_type (s.mr p) g ((s.mr p).type) ≡ mapped iovs n d
        → IsGranted s qp_pd qp_type local access g
    granted g type p n iovs d hg e t m =
        let tests = not-or t in
        let fields = allowed-fields qp_pd local access type (s.mr p) g tests.1 in
        record {
          at = p;
          found = e;
          real = ==→ne p 0 tests.0;
          key = fields.0;
          domain = fields.1;
          state = is_valid-valid _ fields.2;
          rights = fields.3;
          range = elim (map_one-range qp_type (s.mr p) g ((s.mr p).type) iovs n d m) [
            | inl r ↦ inl r
            | inr r ↦ inr (in_range-le (s.mr p) g (regions p) hg r)
          ];
        }

    map_from-AllGranted :
        (gs : List Sge) (type : MrType) (num_iov n : ℕ) (dmamap d : Bool) (w : List (ℕ × List Iov))
        → AllSmall gs
        → map_from dma_map s qp_pd qp_type local access gs type num_iov dmamap ≡ some (pos n, w, d)
        → AllGranted s qp_pd qp_type local access gs
    unfolding map_from
    map_from-AllGranted [] type num_iov n dmamap d w hs e = tt
    map_from-AllGranted (g ∷ gs) type num_iov n dmamap d w hs e =
        let key = key_to_index g.lkey in
        elim (Option-cases (get s.objects.table key)) [
          | inl nothing ↦ clash (sym (rw (nothing, map_from) refl) ∙ e)
          | inr (p, at) ↦
              elim (Bool-cases (p == 0 || not (allowed qp_pd local access type (s.mr p) g))) [
                | inl bad ↦ clash' (sym (rw (at, bad, map_from) refl) ∙ e)
                | inr t ↦ elim (Mapped-cases (map_one dma_map qp_type (s.mr p) g ((s.mr p).type))) [
                  | inl m ↦ clash (sym (rw (at, t, m, map_from) refl) ∙ e)
                  | inr (inl m) ↦ clash' (sym (rw (at, t, m, map_from) refl) ∙ e)
                  | inr (inr (iovs, k, d', m)) ↦ (
                    granted g type p k iovs d' hs.0 at t m,
                    elim (Option-cases (
                        map_from dma_map s qp_pd qp_type local access gs ((s.mr p).type)
                          (u32 (num_iov + k)) d')) [
                            | inl over ↦ (clash (sym (rw (at, t, m, over, map_from) refl) ∙ e)).1
                            | inr ((ret, w', d''), more) ↦
                                let same : ◌≡◌ {A = Result} (some (ret, (num_iov, iovs) ∷ w', d''))
                                    (some (pos n, w, d)) =
                                  sym (rw (at, t, m, more, map_from) refl) ∙ e in
                                let is : ret ≡ pos n = cc in
                                map_from-AllGranted gs ((s.mr p).type) (u32 (num_iov + k)) n d' d''
                                  w' hs.1 (more ∙ ap (λ r. some (r, w', d'')) is)
                          ],
                  )
                ]
              ]
        ]
      where
        clash :
            ◌≡◌ {A = Result} none (some (pos n, w, d))
            → AllGranted s qp_pd qp_type local access (g ∷ gs)
        clash r = cc

        clash' :
            ◌≡◌ {A = Result} (some (eacces, [], dmamap)) (some (pos n, w, d))
            → AllGranted s qp_pd qp_type local access (g ∷ gs)
        clash' r = cc

-- `roce_mr_map_sge`, where the addresses of no element and of no region wrap: when it succeeds,
-- every element names a region whose key, domain and state are right, that has all the access asked
-- for, and that the element lies in, or one for all memory and a queue pair for management.
pub map_sge-AllGranted :
    (dma_map : ℕ → ℕ → ℕ) (s : Mrs) (qp_pd : ℕ) (qp_type : QpType) (sges : List Sge) (local : Bool)
    (access n : ℕ) (dmamap d : Bool) (written : List (ℕ × List Iov))
    → ((p : ℕ) → (s.mr p).iova + (s.mr p).length < 2 ^ 64)
    → AllSmall sges
    → map_sge dma_map s qp_pd qp_type sges local access dmamap ≡ some (pos n, written, d)
    → AllGranted s qp_pd qp_type local access sges
unfolding map_sge
map_sge-AllGranted dma_map s qp_pd qp_type sges local access n dmamap d written regions small e =
    map_from-AllGranted dma_map s qp_pd qp_type local access regions sges max_type 0 n dmamap d
      written small e
