-- ===== src/Pd/Calls.antt =====
-- The calls on protection domains and address handles, in any order: no domain that is referred to
-- is freed.
use native.Mathlib.Decide.{ℕ_discrete}
use libroce.Base.{
  ℕ, ◌+◌, ◌-◌, ◌^◌, ◌<◌, ◌≡◌, ◌≢◌, ◌⊎◌, refl, sym, ap, ◌∙◌, subst, Option, some, ℤ, pos, einval,
  ebusy, enomem, ◌==◌, ==_iff, false, update, update_self, update_ne, arith, inl, inr,
}
use libroce.Resource.{Resource, get, put}
use libroce.Resource.Slots.{slot, IsFresh, clear, get-slot}
use libroce.Resource.Placed.{alloc-put}
use libroce.Counted.{enter}
use libroce.Counted.Refs.{get_ref-null, enter-alloc, remove-null, remove-busy, remove-clear}
use libroce.Pd.{Pds, get_pd, put_pd_asserted}
use libroce.Pd.Sound.{Sound, Sound-others, get_pd-Sound, put_pd-Sound}
use libroce.Pd.Entries.{put-Sound, clear-Sound}
use libroce.Ah.{Ahs, AhAttr, create_ah, ah_entered, destroy_ah, ah_left}

-- The two tables.
abbrev pub SoundAhs : Pds → Ahs → (ℕ → ℕ) → Type 0
SoundAhs ps ahs others = Sound ps ahs.objects.table ahs.pd others

-- A call that passes its assertions and leaves the tables sound.
abbrev pub Succeeds : (ℕ → ℕ) → Option (ℤ × Pds × Ahs) → Type 0
Succeeds others r =
    (ret : ℤ) × (ps : Pds) × (ahs : Ahs) × (r ≡ some (ret, ps, ahs)) × SoundAhs ps ahs others

-- Memory that is not null is not in use.
pub IsFresh-of : (t : Resource) (p : ℕ) → (p ≡ 0) ⊎ IsFresh t p → p ≢ 0 → IsFresh t p
IsFresh-of t p (inl z) n = absurd (n z)
IsFresh-of t p (inr fresh) n = fresh

-- One reference more of the domain `d`, and of no other.
abbrev taken : (ℕ → ℕ) → ℕ → ℕ → ℕ
taken others d = update others d (others d + 1)

module _ (ahs : Ahs) (others : ℕ → ℕ) where
  back : (d q : ℕ) → update (taken others d) d (taken others d d - 1) q ≡ others q
  back d q = elim (ℕ_discrete q d) [
    | yes e ↦
        let one : taken others d d ≡ others d + 1 = update_self others d (others d + 1) in
        ap (update (taken others d) d (taken others d d - 1)) e
        ∙ update_self (taken others d) d (taken others d d - 1)
        ∙ omega (arith, one, ap others e)
    | no ne ↦
        update_ne (taken others d) d (taken others d d - 1) q ne
        ∙ update_ne others d (others d + 1) q ne
  ]

  -- The reference taken is put back.
  returned :
      (i d : ℕ) (ps' : Pds)
      → d ≢ 0
      → slot ps'.objects.table i ≡ d
      → ((d : ℕ) → others d + 2 ^ 24 + 1 < 2 ^ 32)
      → SoundAhs ps' ahs (taken others d)
      → (ps'' : Pds) × (put_pd_asserted ps' i ≡ some ps'') × SoundAhs ps'' ahs others
  returned i d ps' n at room snd =
      let one : taken others d d ≡ others d + 1 = update_self others d (others d + 1) in
      let here : taken others d (slot ps'.objects.table i) ≡ others d + 1 =
        ap (taken others d) at ∙ one in
      let (ps'', put_back, snd', _) =
        put_pd-Sound ps' ahs.objects.table ahs.pd (taken others d) snd i (λ z. n (sym at ∙ z))
          (omega (arith, here, room d)) (λ z. omega (arith, here)) in
      (
        ps'',
        put_back,
        Sound-others ps'' ahs.objects.table ahs.pd _ others
            (subst (λ e. (q : ℕ) → update (taken others d) e (taken others d e - 1) q ≡ others q)
              (sym at) (back d))
            snd',
      )

module _ (ps : Pds) (ahs : Ahs) (others : ℕ → ℕ) (h : SoundAhs ps ahs others) where
  get_pd-null : (i : ℕ) → slot ps.objects.table i ≡ 0 → get_pd ps i ≡ some (0, ps)
  unfolding get_pd
  get_pd-null i z = rw (get_ref-null ps.objects h.pds_valid i z, get_pd) refl

  pub create_ah-Succeeds :
      (i p : ℕ) (attr : AhAttr) (ctx : ℕ)
      → (p ≡ 0) ⊎ IsFresh ahs.objects.table p
      → ((d : ℕ) → others d + 2 ^ 24 + 1 < 2 ^ 32)
      → Succeeds others (create_ah ps ahs i p attr ctx)
  unfolding create_ah ah_entered enter
  create_ah-Succeeds i p attr ctx fair room = elim (ℕ_discrete (slot ps.objects.table i) 0) [
    | yes z ↦ (einval, ps, ahs, rw (get_pd-null i z, create_ah) refl, h)
    | no n ↦
        let (ps', got, snd, table) =
          get_pd-Sound ps ahs.objects.table ahs.pd others h i n (room (slot ps.objects.table i)) in
        let (ret, ps'', ahs', done, sound) =
          entering ps' (ap (λ t. slot t i) table) n snd (ℕ_discrete p 0) in
        (ret, ps'', ahs', rw (got, nonzero (slot ps.objects.table i) n, create_ah) done, sound)
  ]
    where
      d : ℕ
      d = slot ps.objects.table i

      nonzero : (q : ℕ) → q ≢ 0 → (q == 0) ≡ false
      nonzero q n = ground arith

      entering :
          (ps' : Pds)
          → slot ps'.objects.table i ≡ d
          → d ≢ 0
          → SoundAhs ps' ahs (taken others d)
          → Dec (p ≡ 0)
          → Succeeds others (ah_entered ps' ahs i d p attr ctx (enter ahs.objects p))
      entering ps' at n snd (yes z) =
          let (ps'', put_back, sound) = returned ahs others i d ps' n at room snd in
          (enomem, ps'', ahs, rw ((==_iff p 0).1 z, put_back, enter, ah_entered) refl, sound)
      entering ps' at n snd (no m) = elim (alloc-put ahs.objects.table h.table_valid p m) [
        | inl (j, put_in, lt, empty) ↦
            let ahs' : Ahs = record {
              objects = record {
                table = put ahs.objects.table p j;
                ref = update ahs.objects.ref p 0;
              };
              pd = update ahs.pd p d;
              attr = update ahs.attr p attr;
              ah_ctx = update ahs.ah_ctx p ctx;
            } in
            let one : taken others d d ≡ others d + 1 = update_self others d (others d + 1) in
            (
              pos j,
              ps',
              ahs',
              ap (ah_entered ps' ahs i d p attr ctx)
                  (enter-alloc ahs.objects p (pos j, put ahs.objects.table p j) m put_in),
              Sound-others ps' (put ahs.objects.table p j) (update ahs.pd p d) _ others
                  (back ahs others d)
                  (put-Sound ps' ahs.objects.table ahs.pd (taken others d) snd p j d
                    (IsFresh-of ahs.objects.table p fair m) m lt empty (λ z. omega (arith, one))),
            )
        | inr full ↦
            let (ps'', put_back, sound) = returned ahs others i d ps' n at room snd in
            (
              ebusy,
              ps'',
              ahs,
              ap (ah_entered ps' ahs i d p attr ctx)
                    (enter-alloc ahs.objects p (ebusy, ahs.objects.table) m full)
                  ∙ rw (put_back, ah_entered) refl,
              sound,
            )
      ]

  pub destroy_ah-Succeeds :
      (i : ℕ) → ((d : ℕ) → others d + 2 ^ 24 + 1 < 2 ^ 32) → Succeeds others (destroy_ah ps ahs i)
  unfolding destroy_ah ah_left
  destroy_ah-Succeeds i room = elim (ℕ_discrete (slot ahs.objects.table i) 0) [
    | yes z ↦
        (einval, ps, ahs, rw (found, remove-null ahs.objects h.table_valid i z, destroy_ah) refl, h)
    | no n ↦ elim (ℕ_discrete (ahs.objects.ref (slot ahs.objects.table i)) 0) [
      | no m ↦ (
        ebusy,
        ps,
        ahs,
        rw (found, remove-busy ahs.objects h.table_valid i n m, destroy_ah) refl,
        h,
      )
      | yes z ↦
          let d = ahs.pd (slot ahs.objects.table i) in
          let (m, (j, at)) = h.live i n in
          let handle : ps.objects.table.handle d ≡ j =
            ap ps.objects.table.handle (sym at) ∙ h.pds_valid.knows j (λ e. m (sym at ∙ e)) in
          let ahs' : Ahs = record ahs {
            objects = record ahs.objects { table = clear ahs.objects.table i };
          } in
          let (ps', put_back, sound) =
            returned ahs' others (ps.objects.table.handle d) d ps m
              (ap (slot ps.objects.table) handle ∙ at) room
              (clear-Sound ps ahs.objects.table ahs.pd others h i n) in
          (
            pos 0,
            ps',
            ahs',
            rw (found, remove-clear ahs.objects h.table_valid i n z, put_back, destroy_ah, ah_left)
                refl,
            sound,
          )
    ]
  ]
    where
      found : get ahs.objects.table i ≡ some (slot ahs.objects.table i)
      found = get-slot ahs.objects.table i h.table_valid
