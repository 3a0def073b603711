-- ===== src/Qp/Again.antt =====
-- The special queue pair, destroyed and asked for again.
use libroce.Base.{
  ℕ, suc, ◌+◌, ◌^◌, ◌<◌, ◌≡◌, ◌≢◌, refl, sym, ap, ◌∙◌, none, some, pos, true, update, update_self,
  arith, inl, inr, when_true, ne→==,
}
use libroce.Resource.Slots.{slot, IsValid}
use libroce.Counted.Takes.{held, Takes}
use libroce.Qp.{gsi, max}
use libroce.Qp.Modify.{Qp, verify_qp_cap}
use libroce.Qp.Create.{
  Request, Found, Tables, is_special, is_unused, supported, blank, special, entering, with_queues,
  create_qp,
}
use libroce.Qp.Ending.{number, get_pd-Takes, get_cq-Takes}
use libroce.Qp.Destroy.{Held, blank_gsi, qp_ended, destroy_qp}
use libroce.Qp.Destroyed.{Stands, without, destroy_qp-without}

-- A request for the special queue pair that would be granted.
pub record Asks (e : Found) (r : Request) (t : Tables) : Type 0 where
  pub qp_type : r.qp_type ≡ gsi
  pub cap : verify_qp_cap e.limits r.cap ≡ pos 0
  pub pds : IsValid t.pds.objects.table
  pub cqs : IsValid t.cqs.objects.table
  pub pd : slot t.pds.objects.table r.pd_handle ≢ 0
  pub scq : slot t.cqs.objects.table r.send_cq ≢ 0

abbrev blank_max : Qp
blank_max = record blank { qp_type = max }

-- The special queue pair is free, with a handle that is not its own.
special-none :
    (e : Found) (r : Request) (t : Tables) (pd scq rcq : ℕ)
    → e.gsi_qp ≢ 0
    → is_unused ((t.qps.qp e.gsi_qp).qp_type) ≡ true
    → t.qps.objects.table.handle e.gsi_qp ≢ 1
    → special e r pd scq rcq t ≡ none
unfolding special
special-none e r t pd scq rcq real unused other =
    rw (ne→== e.gsi_qp 0 real, unused, ne→== (t.qps.objects.table.handle e.gsi_qp) 1 other, special)
      refl

entering-none :
    (e : Found) (r : Request) (t : Tables) (pd scq rcq : ℕ)
    → r.qp_type ≡ gsi
    → e.gsi_qp ≢ 0
    → is_unused ((t.qps.qp e.gsi_qp).qp_type) ≡ true
    → t.qps.objects.table.handle e.gsi_qp ≢ 1
    → entering e r pd scq rcq t ≡ none
unfolding entering
entering-none e r t pd scq rcq it real unused other =
    when_true (is_special r.qp_type) _ _ (ap is_special it)
    ∙ special-none e r t pd scq rcq real unused other

create_qp-none :
    (e : Found) (r : Request) (t : Tables)
    → Asks e r t
    → ((d : ℕ) → t.pds.objects.ref d < 2 ^ 32)
    → ((d : ℕ) → t.cqs.objects.ref d < 2 ^ 32)
    → e.gsi_qp ≢ 0
    → is_unused ((t.qps.qp e.gsi_qp).qp_type) ≡ true
    → t.qps.objects.table.handle e.gsi_qp ≢ 1
    → create_qp e r t ≡ none
unfolding create_qp with_queues
create_qp-none e r t a pw cw real unused other =
    let (f, eq, _) =
      get_pd-Takes t.pds t.pds.objects.ref (λ d. 0) r.pd_handle a.pds (λ d. omega (arith, pw d)) in
    let (g₁, eq₁, t₁) =
      get_cq-Takes t.cqs t.cqs.objects.ref (λ d. 0) r.send_cq a.cqs (λ d. omega (arith, cw d)) in
    let (g₂, eq₂, _) =
      get_cq-Takes t.cqs g₁ (λ d. 0 + held (slot t.cqs.objects.table r.send_cq) d) r.recv_cq a.cqs
        t₁ in
    elim (number (slot t.pds.objects.table r.pd_handle)) [
      | inl z ↦ absurd (a.pd z)
      | inr (k, y) ↦ elim (number (slot t.cqs.objects.table r.send_cq)) [
        | inl z ↦ absurd (a.scq z)
        | inr (l, z) ↦
            rw
              (
                ap supported a.qp_type,
                a.cap,
                eq
                    ∙ ap
                        (λ x. some (x, record t.pds { objects = record t.pds.objects { ref = f } }))
                        y,
                eq₁
                    ∙ ap
                        (λ x.
                          some (x, record t.cqs { objects = record t.cqs.objects { ref = g₁ } }))
                        z,
                eq₂,
                create_qp,
                with_queues,
              )
              (entering-none e r
                (record t {
                  pds = record t.pds { objects = record t.pds.objects { ref = f } };
                  cqs = record t.cqs { objects = record t.cqs.objects { ref = g₂ } };
                })
                (suc k) (suc l) (slot t.cqs.objects.table r.recv_cq) a.qp_type real unused other)
      ]
    ]

-- Once `roce_destroy_qp` has destroyed the special queue pair, which was without work requests and
-- with its domain and queues in valid tables, a request for it within the limits, with a domain
-- and a queue for sending that there are, fails an assertion of `roce_create_qp`: the handle that
-- the first call has set to zero is not 1.
pub again-none :
    (s : Held) (h : ℕ) (q : Qp) (f g n m : ℕ → ℕ) (e : Found) (r : Request)
    → Stands s h q
    → q.qp_type ≡ gsi
    → slot s.tables.qps.objects.table h ≡ s.gsi
    → e.gsi_qp ≡ s.gsi
    → Asks e r s.tables
    → Takes f s.tables.pds.objects.ref (λ d. n d + held q.pd d)
    → Takes g s.tables.cqs.objects.ref (λ d. m d + held q.rcq d + held q.scq d)
    → (s' : Held) × (destroy_qp s h ≡ some (pos 0, s')) × (create_qp e r s'.tables ≡ none)
unfolding qp_ended
again-none s h q f g n m e r st it at found a tf tg =
    let (f', g', ends, tf', tg') = destroy_qp-without s h q st f g n m tf tg in
    let t = without s h f' g' in
    (
      blank_gsi t,
      ends
          ∙ ap (λ t. some (pos 0, t))
              (when_true
                (is_special ((s.tables.qps.qp (slot s.tables.qps.objects.table h)).qp_type)) _ _
                (ap (λ x. is_special x.qp_type) st.here ∙ ap is_special it)),
      create_qp-none e r (blank_gsi t).tables
          (record {
            qp_type = a.qp_type;
            cap = a.cap;
            pds = a.pds;
            cqs = a.cqs;
            pd = a.pd;
            scq = a.scq;
          })
          (λ d. omega (arith, tf' d)) (λ d. omega (arith, tg' d))
          (λ z. st.real (at ∙ sym found ∙ z))
          (ap (λ x. is_unused ((update s.tables.qps.qp s.gsi blank_max x).qp_type)) found
            ∙ ap (λ x. is_unused x.qp_type) (update_self s.tables.qps.qp s.gsi blank_max))
          (λ z. absurd (
            omega (
              arith,
              z,
              ap (update s.tables.qps.objects.table.handle s.gsi 0) found,
              update_self s.tables.qps.objects.table.handle s.gsi 0,
            ))),
    )
