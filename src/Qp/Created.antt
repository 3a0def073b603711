-- ===== src/Qp/Created.antt =====
-- How `roce_create_qp` ends, and the references that it takes.
use native.Mathlib.Decide.{ℕ_discrete}
use libroce.Base.{
  ℕ, ◌+◌, ◌-◌, ◌^◌, ◌≤◌, ◌<◌, ◌≡◌, ◌≢◌, ◌==◌, refl, sym, ◌∙◌, subst, Option, none, some, ℤ, pos,
  negsuc, true, false, if◌then◌else◌, arith,
}
use libroce.Port.{valid_mtu, max_pkey}
use libroce.Resource.Slots.{slot, IsValid}
use libroce.Counted.Takes.{held, held_self, Takes, put_ref-Takes}
use libroce.Pd.{put_pd, put_pd_asserted}
use libroce.Cq.{Cqs, put_cq}
use libroce.Qp.Modify.{Qp, Qps, verify_qp_cap}
use libroce.Qp.Kept.{IsKept}
use libroce.Qp.Create.{Request, Found, Tables, is_special, filled, put_cq_asserted, put_resource}

-- What the call relies on; the special queue pair is in place.
pub record IsReady (e : Found) (t : Tables) : Type 0 where
  pub pds : IsValid t.pds.objects.table
  pub cqs : IsValid t.cqs.objects.table
  pub pd_words : (d : ℕ) → t.pds.objects.ref d < 2 ^ 32
  pub cq_words : (d : ℕ) → t.cqs.objects.ref d < 2 ^ 32
  pub gsi_qp : e.gsi_qp ≢ 0
  pub gsi_handle : t.qps.objects.table.handle e.gsi_qp ≡ 1
  pub gsi_pkey : (t.qps.qp e.gsi_qp).attr.pkey_index < max_pkey
  pub active_mtu : valid_mtu e.active_mtu ≡ true

-- No reference is kept, and nothing else has changed.
pub record IsRefused (t t' : Tables) : Type 0 where
  pub pd_table : t'.pds.objects.table ≡ t.pds.objects.table
  pub cq_table : t'.cqs.objects.table ≡ t.cqs.objects.table
  pub pd_refs : (d : ℕ) → t'.pds.objects.ref d ≡ t.pds.objects.ref d
  pub cq_refs : (d : ℕ) → t'.cqs.objects.ref d ≡ t.cqs.objects.ref d
  pub qps : t'.qps ≡ t.qps
  pub pd_ctx : t'.pds.pd_ctx ≡ t.pds.pd_ctx
  pub cqe : t'.cqs.cqe ≡ t.cqs.cqe
  pub comp_vector : t'.cqs.comp_vector ≡ t.cqs.comp_vector
  pub cq_ctx : t'.cqs.ctx ≡ t.cqs.ctx

-- The new queue pair is within the limits, and a reference is taken for each of its pointers.
pub record IsMade (e : Found) (r : Request) (t t' : Tables) (q : Qp) : Type 0 where
  pub kept : IsKept e.limits q q
  pub pd : q.pd ≡ slot t.pds.objects.table r.pd_handle
  pub pd_real : q.pd ≢ 0
  pub scq : q.scq ≡ slot t.cqs.objects.table r.send_cq
  pub scq_real : q.scq ≢ 0
  -- The queue for receiving may be the null pointer.
  pub rcq : q.rcq ≡ slot t.cqs.objects.table r.recv_cq
  pub pd_refs : Takes t.pds.objects.ref t'.pds.objects.ref (held q.pd)
  pub cq_refs : Takes t.cqs.objects.ref t'.cqs.objects.ref (λ d. held q.scq d + held q.rcq d)

abbrev pub place : Found → Request → ℕ
place e r = if is_special r.qp_type then e.gsi_qp else e.memory

abbrev pub Ended : Found → Request → Tables → Option (ℤ × Tables) → Type 0
Ended e r t none = ⊥
Ended e r t (some (negsuc n, t')) = IsRefused t t'
Ended e r t (some (pos i, t')) = IsMade e r t t' (t'.qps.qp (place e r))

-- The state with the counts `f` and `g`.
abbrev pub counted : Tables → (ℕ → ℕ) → (ℕ → ℕ) → Tables
counted t f g = record t {
  pds = record t.pds { objects = record t.pds.objects { ref = f } };
  cqs = record t.cqs { objects = record t.cqs.objects { ref = g } };
}

pub held_null : (p d : ℕ) → p ≡ 0 → held p d ≡ 0
held_null p d z = ground arith

pub null : (p : ℕ) → p ≢ 0 → (p == 0) ≡ false
null p n = ground arith

-- The reference of a queue, or of none, is put.
pub put_cq_asserted-Takes :
    (s : Cqs) (g n : ℕ → ℕ) (p h : ℕ)
    → IsValid s.objects.table
    → Takes s.objects.ref g n
    → (p ≢ 0 → slot s.objects.table h ≡ p)
    → ((d : ℕ) → held p d ≤ n d)
    → (g' : ℕ → ℕ) × (put_cq_asserted (record s { objects = record s.objects { ref = g } }) p h
        ≡ some (record s { objects = record s.objects { ref = g' } }))
      × Takes s.objects.ref g' (λ d. n d - held p d)
unfolding put_cq_asserted put_cq
put_cq_asserted-Takes s g n p h v t at some_left = elim (ℕ_discrete p 0) [
  | yes z ↦ (g, rw (z, put_cq_asserted) refl, λ d. omega (arith, t d, held_null p d z))
  | no m ↦
      let real : slot s.objects.table h ≢ 0 = λ z. m (sym (at m) ∙ z) in
      let (g', eq, t') =
        put_ref-Takes s.objects v g n h t real
          (subst (λ x. n x ≢ 0) (sym (at m)) (λ z. omega (arith, some_left p, held_self p m, z))) in
      (
        g',
        rw (null p m, eq, put_cq, put_cq_asserted) refl,
        subst (λ x. Takes s.objects.ref g' (λ d. n d - held x d)) (at m) t',
      )
]

-- Nothing is taken, or all is put again.
pub none_taken :
    (f g n : ℕ → ℕ)
    → ((d : ℕ) → f d < 2 ^ 32)
    → ((d : ℕ) → n d ≡ 0)
    → Takes f g n
    → (d : ℕ) → g d ≡ f d
none_taken f g n words z t d = omega (arith, t d, z d, words d)

module _ (e : Found) (r : Request) (t : Tables) (ready : IsReady e t) where
  pub put_resource-Ended :
      (f g : ℕ → ℕ) (scq rcq : ℕ)
      → slot t.pds.objects.table r.pd_handle ≢ 0
      → (scq ≢ 0 → slot t.cqs.objects.table r.send_cq ≡ scq)
      → (rcq ≢ 0 → slot t.cqs.objects.table r.recv_cq ≡ rcq)
      → Takes t.pds.objects.ref f (held (slot t.pds.objects.table r.pd_handle))
      → Takes t.cqs.objects.ref g (λ d. held scq d + held rcq d)
      → Ended e r t (put_resource r scq rcq (counted t f g))
  unfolding put_resource put_pd_asserted put_pd
  put_resource-Ended f g scq rcq real at_s at_r tf tg =
      let pd = slot t.pds.objects.table r.pd_handle in
      let (f', eq_f, tf') =
        put_ref-Takes t.pds.objects ready.pds f (held pd) r.pd_handle tf real
          (λ z. omega (arith, held_self pd real, z)) in
      let (g₁, eq₁, t₁) =
        put_cq_asserted-Takes t.cqs g (λ d. held scq d + held rcq d) scq r.send_cq ready.cqs tg at_s
          (λ d. omega arith) in
      let (g₂, eq₂, t₂) =
        put_cq_asserted-Takes t.cqs g₁ (λ d. held scq d + held rcq d - held scq d) rcq r.recv_cq
          ready.cqs t₁ at_r (λ d. omega arith) in
      rw (eq_f, eq₁, eq₂, Ended, put_resource, put_pd_asserted, put_pd)
        (record {
          pd_table = refl;
          cq_table = refl;
          pd_refs =
              none_taken t.pds.objects.ref f' (λ d. held pd d - held pd d) ready.pd_words
                (λ d. omega arith) tf';
          cq_refs =
              none_taken t.cqs.objects.ref g₂
                (λ d. held scq d + held rcq d - held scq d - held rcq d) ready.cq_words
                (λ d. omega arith) t₂;
          qps = refl;
          pd_ctx = refl;
          cqe = refl;
          comp_vector = refl;
          cq_ctx = refl;
        })

  module _ (cap : verify_qp_cap e.limits r.cap ≡ pos 0) where
    filled-IsKept :
        (pd scq rcq : ℕ) (old : Qp)
        → old.attr.pkey_index < max_pkey
        → IsKept e.limits (filled e r pd scq rcq old) (filled e r pd scq rcq old)
    unfolding filled
    filled-IsKept pd scq rcq old small = record {
      pkey_index = small;
      port_num = omega arith;
      path_mtu = ready.active_mtu;
      cap = cap;
      busy = refl;
      fixed = λ b. (refl, refl);
    }

    module _ (f g : ℕ → ℕ) (pd scq rcq : ℕ) (at_pd : pd ≡ slot t.pds.objects.table r.pd_handle)
        (pd_real : pd ≢ 0) (at_s : scq ≡ slot t.cqs.objects.table r.send_cq) (scq_real : scq ≢ 0)
        (at_r : rcq ≡ slot t.cqs.objects.table r.recv_cq) (tf : Takes t.pds.objects.ref f (held pd))
        (tg : Takes t.cqs.objects.ref g (λ d. held scq d + held rcq d)) where
      pub refused : Ended e r t (put_resource r scq rcq (counted t f g))
      refused =
          put_resource-Ended f g scq rcq (λ z. pd_real (at_pd ∙ z)) (λ _. sym at_s) (λ _. sym at_r)
            (subst (λ x. Takes t.pds.objects.ref f (held x)) at_pd tf) tg

      pub made :
          (qps : Qps) (old : Qp)
          → old.attr.pkey_index < max_pkey
          → IsMade e r t (record (counted t f g) { qps = qps }) (filled e r pd scq rcq old)
      unfolding filled
      made qps old small = record {
        kept = filled-IsKept pd scq rcq old small;
        pd = at_pd;
        pd_real = pd_real;
        scq = at_s;
        scq_real = scq_real;
        rcq = at_r;
        pd_refs = tf;
        cq_refs = tg;
      }
