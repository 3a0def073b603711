-- ===== src/Pd/Entries.antt =====
-- The references of protection domains when an object that points to one enters its table or leaves
-- it.
use native.Mathlib.Decide.{ℕ_discrete}
use libroce.Base.{
  ℕ, ◌+◌, ◌-◌, ◌<◌, ◌≡◌, ◌≢◌, sym, ap, ◌∙◌, subst, update, update_self, update_ne, length,
  length-set, arith,
}
use libroce.Resource.{Resource, put}
use libroce.Resource.Slots.{slot, IsFresh, clear, put-IsValid, clear-IsValid}
use libroce.Resource.Placed.{slot-put_self, slot-put_ne, slot-clear_self, slot-clear_ne, slot-lt}
use libroce.Counted.Pointing.{
  points, points_one, points_other, points_null, pointing-set, pointing-update,
}
use libroce.Pd.{Pds}
use libroce.Pd.Sound.{Live, Sound}

module _ (ps : Pds) (t : Resource) (f : ℕ → ℕ) (others : ℕ → ℕ) (h : Sound ps t f others) where
  -- An object that points to `d` is put in the table, and takes over a reference.
  pub put-Sound :
      (p i d : ℕ)
      → IsFresh t p
      → p ≢ 0
      → i < length t.addr
      → slot t i ≡ 0
      → others d ≢ 0
      → Sound ps (put t p i) (update f p d) (update others d (others d - 1))
  put-Sound p i d fresh n lt free some_left = record {
    pds_valid = h.pds_valid;
    table_valid = put-IsValid t p i h.table_valid fresh (omega (arith, h.table_valid.full));
    small = omega (arith, length-set t.addr i p, h.small);
    counts = λ q m at.
        let old = h.counts q m at in
        let moved = pointing-set (update f p d) q t.addr i p lt in
        let same = pointing-update f q t.addr p d fresh in
        let empty : points (update f p d) q (slot t i) ≡ 0 = ap (points (update f p d) q) free in
        elim (ℕ_discrete q d) [
          | yes e ↦ omega (
            arith,
            points_one (update f p d) q p n (update_self f p d ∙ sym e),
            subst (λ x. update others d (others d - 1) x ≡ others x - 1) (sym e)
                (update_self others d (others d - 1)),
            subst (λ x. others x ≢ 0) (sym e) some_left,
          )
          | no ne ↦ omega (
            arith,
            points_other (update f p d) q p (λ z. ne (sym z ∙ update_self f p d)),
            update_ne others d (others d - 1) q ne,
          )
        ];
    live = λ j m. elim (ℕ_discrete i j) [
      | yes e ↦
          subst (Live ps.objects.table)
            (sym (
              ap (update f p d)
                (ap (slot (put t p i)) (sym e) ∙ slot-put_self t h.table_valid p i lt)
              ∙ update_self f p d))
            (h.held d some_left)
      | no ne ↦
          let same : slot (put t p i) j ≡ slot t j = slot-put_ne t h.table_valid p i j ne in
          subst (Live ps.objects.table)
            (sym (ap (update f p d) same ∙ update_ne f p d (slot t j) (fresh j)))
            (h.live j (λ z. m (same ∙ z)))
    ];
    held = λ q m. elim (ℕ_discrete q d) [
      | yes e ↦ subst (Live ps.objects.table) (sym e) (h.held d some_left)
      | no ne ↦ h.held q (λ z. m (update_ne others d (others d - 1) q ne ∙ z))
    ];
  }

  -- An object is taken out of the table, and leaves its reference to another holder.
  pub clear-Sound :
      (i : ℕ)
      → slot t i ≢ 0
      → let d = f (slot t i) in Sound ps (clear t i) f (update others d (others d + 1))
  clear-Sound i n = record {
    pds_valid = h.pds_valid;
    table_valid = clear-IsValid t i h.table_valid;
    small = omega (arith, length-set t.addr i 0, h.small);
    counts = λ q m at.
        let old = h.counts q m at in
        let moved = pointing-set f q t.addr i 0 (slot-lt t h.table_valid i n) in
        elim (ℕ_discrete q d) [
          | yes e ↦ omega (
            arith,
            points_one f q (slot t i) n (sym e),
            points_null f q,
            subst (λ x. update others d (others d + 1) x ≡ others x + 1) (sym e)
                (update_self others d (others d + 1)),
          )
          | no ne ↦ omega (
            arith,
            points_other f q (slot t i) (λ z. ne (sym z)),
            points_null f q,
            update_ne others d (others d + 1) q ne,
          )
        ];
    live = λ j m. elim (ℕ_discrete i j) [
      | yes e ↦ absurd (m (ap (slot (clear t i)) (sym e) ∙ slot-clear_self t h.table_valid i))
      | no ne ↦
          let same : slot (clear t i) j ≡ slot t j = slot-clear_ne t h.table_valid i j ne in
          subst (λ x. Live ps.objects.table (f x)) (sym same) (h.live j (λ z. m (same ∙ z)))
    ];
    held = λ q m. elim (ℕ_discrete q d) [
      | yes e ↦ subst (Live ps.objects.table) (sym e) (h.live i n)
      | no ne ↦ h.held q (λ z. m (update_ne others d (others d + 1) q ne ∙ z))
    ];
  }
    where
      d : ℕ
      d = f (slot t i)
