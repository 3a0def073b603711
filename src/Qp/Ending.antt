-- ===== src/Qp/Ending.antt =====
-- `roce_create_qp` to its end, on each of its ways.
use native.Mathlib.Decide.{ℕ_discrete}
use libroce.Base.{
  ℕ, zero, suc, ◌+◌, ◌<◌, ◌≡◌, ◌≢◌, ◌⊎◌, refl, sym, ap, ◌∙◌, subst, some, ℤ, pos, negsuc, update,
  update_self, true, false, Bool-cases, inl, inr, if◌then◌else◌, arith,
}
use libroce.Port.{max_pkey}
use libroce.Resource.Slots.{slot, IsValid}
use libroce.Counted.{Counted, enter}
use libroce.Counted.Refs.{get_ref-null}
use libroce.Counted.Takes.{held, Takes, get_ref-Takes}
use libroce.Pd.{Pds, get_pd}
use libroce.Cq.{Cqs, get_cq}
use libroce.Qp.Modify.{Qp, Qps, verify_qp_cap}
use libroce.Qp.Create.{
  Request, Found, Tables, supported, is_special, is_unused, filled, blank, put_resource, allocated,
  special, entering, with_queues, create_qp,
}
use libroce.Qp.Created.{
  IsReady, IsRefused, IsMade, place, Ended, counted, null, put_resource-Ended, refused, made,
  held_null,
}

pub number : (n : ℕ) → (n ≡ 0) ⊎ ((k : ℕ) × (n ≡ suc k))
number zero = inl refl
number (suc k) = inr (k, refl)

drop_zero : (f g n : ℕ → ℕ) → Takes f g (λ d. 0 + n d) → Takes f g n
drop_zero f g n t d = omega (arith, t d)

-- A lookup of a handle that may be of nothing.
pub get_pd-Takes :
    (s : Pds) (g n : ℕ → ℕ) (h : ℕ)
    → IsValid s.objects.table
    → Takes s.objects.ref g n
    → let p = slot s.objects.table h in
      (g' : ℕ → ℕ) × (get_pd (record s { objects = record s.objects { ref = g } }) h
        ≡ some (p, record s { objects = record s.objects { ref = g' } }))
      × Takes s.objects.ref g' (λ d. n d + held p d)
unfolding get_pd
get_pd-Takes s g n h v t = elim (ℕ_discrete (slot s.objects.table h) 0) [
  | yes z ↦ (
    g,
    rw (get_ref-null (record s.objects { ref = g }) v h z, get_pd)
        (ap (λ x. some (x, record s { objects = record s.objects { ref = g } })) (sym z)),
    λ d. omega (arith, t d, held_null (slot s.objects.table h) d z),
  )
  | no m ↦ let (g', eq, t') = get_ref-Takes s.objects v g n h t m in (g', rw (eq, get_pd) refl, t')
]

pub get_cq-Takes :
    (s : Cqs) (g n : ℕ → ℕ) (h : ℕ)
    → IsValid s.objects.table
    → Takes s.objects.ref g n
    → let p = slot s.objects.table h in
      (g' : ℕ → ℕ) × (get_cq (record s { objects = record s.objects { ref = g } }) h
        ≡ some (p, record s { objects = record s.objects { ref = g' } }))
      × Takes s.objects.ref g' (λ d. n d + held p d)
unfolding get_cq
get_cq-Takes s g n h v t = elim (ℕ_discrete (slot s.objects.table h) 0) [
  | yes z ↦ (
    g,
    rw (get_ref-null (record s.objects { ref = g }) v h z, get_cq)
        (ap (λ x. some (x, record s { objects = record s.objects { ref = g } })) (sym z)),
    λ d. omega (arith, t d, held_null (slot s.objects.table h) d z),
  )
  | no m ↦ let (g', eq, t') = get_ref-Takes s.objects v g n h t m in (g', rw (eq, get_cq) refl, t')
]

module _ (e : Found) (r : Request) (t : Tables) (ready : IsReady e t)
    (cap : verify_qp_cap e.limits r.cap ≡ pos 0) where
  module _ (f g : ℕ → ℕ) (pd scq rcq : ℕ) (at_pd : pd ≡ slot t.pds.objects.table r.pd_handle)
      (pd_real : pd ≢ 0) (at_s : scq ≡ slot t.cqs.objects.table r.send_cq) (scq_real : scq ≢ 0)
      (at_r : rcq ≡ slot t.cqs.objects.table r.recv_cq) (tf : Takes t.pds.objects.ref f (held pd))
      (tg : Takes t.cqs.objects.ref g (λ d. held scq d + held rcq d)) where
    put_back : Ended e r t (put_resource r scq rcq (counted t f g))
    put_back = refused e r t ready cap f g pd scq rcq at_pd pd_real at_s scq_real at_r tf tg

    -- The queue pair at `p` is the one that has been filled in.
    at_place :
        (p : ℕ) (qps : Qps) (old : Qp)
        → old.attr.pkey_index < max_pkey
        → place e r ≡ p
        → let qps' = record qps { qp = update qps.qp p (filled e r pd scq rcq old) } in
          IsMade e r t (record (counted t f g) { qps = qps' }) (qps'.qp (place e r))
    at_place p qps old small at_p =
        let new = filled e r pd scq rcq old in
        let qps' = record qps { qp = update qps.qp p new } in
        subst (IsMade e r t (record (counted t f g) { qps = qps' }))
          (sym (ap (update qps.qp p new) at_p ∙ update_self qps.qp p new))
          (made e r t ready cap f g pd scq rcq at_pd pd_real at_s scq_real at_r tf tg qps' old
            small)

    allocated-Ended :
        (x : ℤ × Counted)
        → is_special r.qp_type ≡ false
        → Ended e r t (allocated e r pd scq rcq (counted t f g) x)
    unfolding allocated
    allocated-Ended (negsuc n, c) other = put_back
    allocated-Ended (pos i, c) other =
        at_place e.memory (record t.qps { objects = c }) blank (omega arith)
          (ap (λ b. if b then e.gsi_qp else e.memory) other)

    special-Ended :
        is_special r.qp_type ≡ true → Ended e r t (special e r pd scq rcq (counted t f g))
    unfolding special
    special-Ended it = elim (Bool-cases (is_unused ((t.qps.qp e.gsi_qp).qp_type))) [
      | inr used ↦ rw (null e.gsi_qp ready.gsi_qp, used, special) put_back
      | inl unused ↦
          rw (null e.gsi_qp ready.gsi_qp, unused, ready.gsi_handle, special)
            (at_place e.gsi_qp t.qps (t.qps.qp e.gsi_qp) ready.gsi_pkey
              (ap (λ b. if b then e.gsi_qp else e.memory) it))
    ]

    entering-Ended : Ended e r t (entering e r pd scq rcq (counted t f g))
    unfolding entering
    entering-Ended = elim (Bool-cases (is_special r.qp_type)) [
      | inl it ↦ rw (it, entering) (special-Ended it)
      | inr other ↦ rw (other, entering) (allocated-Ended (enter t.qps.objects e.memory) other)
    ]

  module _ (f g : ℕ → ℕ) (pd : ℕ) (at_pd : pd ≡ slot t.pds.objects.table r.pd_handle)
      (pd_real : pd ≢ 0) (tf : Takes t.pds.objects.ref f (held pd))
      (tg : Takes t.cqs.objects.ref g (λ d. 0)) where
    with_queues-Ended : Ended e r t (with_queues e r pd (counted t f g))
    unfolding with_queues
    with_queues-Ended =
        let s = slot t.cqs.objects.table r.send_cq in
        let (g₁, eq₁, t₁) = get_cq-Takes t.cqs g (λ d. 0) r.send_cq ready.cqs tg in
        let (g₂, eq₂, t₂) =
          get_cq-Takes t.cqs g₁ (held s) r.recv_cq ready.cqs
            (drop_zero t.cqs.objects.ref g₁ (held s) t₁) in
        elim (number s) [
          | inl z ↦
              rw (eq₁ ∙ ap (λ x. some (x, (counted t f g₁).cqs)) z, with_queues)
                (put_resource-Ended e r t ready f g₁ 0 0 (λ n. pd_real (at_pd ∙ n))
                  (λ n. absurd (n refl)) (λ n. absurd (n refl))
                  (subst (λ x. Takes t.pds.objects.ref f (held x)) at_pd tf)
                  (λ d. omega (arith, t₁ d, held_null s d z)))
          | inr (k, z) ↦
              rw (eq₁ ∙ ap (λ x. some (x, (counted t f g₁).cqs)) z, eq₂, with_queues)
                (entering-Ended f g₂ pd (suc k) (slot t.cqs.objects.table r.recv_cq) at_pd pd_real
                  (sym z) (λ n. absurd (omega (arith, n))) refl tf
                  (subst
                    (λ x.
                      Takes t.cqs.objects.ref g₂
                        (λ d. held x d + held (slot t.cqs.objects.table r.recv_cq) d))
                    z t₂))
        ]

unchanged : (t : Tables) → IsRefused t t
unchanged t = record {
  pd_table = refl;
  cq_table = refl;
  pd_refs = λ d. refl;
  cq_refs = λ d. refl;
  qps = refl;
  pd_ctx = refl;
  cqe = refl;
  comp_vector = refl;
  cq_ctx = refl;
}

-- `roce_create_qp` where the tables are valid, the counts are words, the special queue pair is in
-- its place with the index of a partition key that there is, and the active MTU of the first port
-- is valid. The call ends. When it returns an error, every count of references is that from before,
-- and nothing else has changed; when it returns a handle, the new queue pair is within the limits
-- that `roce_modify_qp` keeps, points to the domain and to the queues of the caller's handles (of
-- which that for receiving alone may be the null pointer), and one reference is taken for each. The
-- queue for receiving is the completion queue at `recv_cq`, also where the flags ask for a shared
-- receive queue.
pub create_qp-Ended :
    (e : Found) (r : Request) (t : Tables) → IsReady e t → Ended e r t (create_qp e r t)
unfolding create_qp
create_qp-Ended e r t ready = elim (Bool-cases (supported r.qp_type)) [
  | inr bad ↦ rw (bad, create_qp) (unchanged t)
  | inl good ↦ verified (verify_qp_cap e.limits r.cap) refl good
]
  where
    verified :
        (ret : ℤ)
        → verify_qp_cap e.limits r.cap ≡ ret
        → supported r.qp_type ≡ true
        → Ended e r t (create_qp e r t)
    verified (negsuc n) eq good = rw (good, eq, create_qp) (unchanged t)
    verified (pos (suc n)) eq good = rw (good, eq, create_qp) (unchanged t)
    verified (pos zero) fits good =
        let d = slot t.pds.objects.table r.pd_handle in
        let (f, eq, tf) =
          get_pd-Takes t.pds t.pds.objects.ref (λ d. 0) r.pd_handle ready.pds
            (λ d. omega (arith, ready.pd_words d)) in
        elim (number d) [
          | inl z ↦
              rw
                (
                  good,
                  fits,
                  eq ∙ ap (λ x. some (x, (counted t f t.cqs.objects.ref).pds)) z,
                  create_qp,
                )
                (record {
                  pd_table = refl;
                  cq_table = refl;
                  pd_refs = λ q. omega (arith, tf q, held_null d q z, ready.pd_words q);
                  cq_refs = λ d. refl;
                  qps = refl;
                  pd_ctx = refl;
                  cqe = refl;
                  comp_vector = refl;
                  cq_ctx = refl;
                })
          | inr (k, z) ↦
              rw
                (
                  good,
                  fits,
                  eq ∙ ap (λ x. some (x, (counted t f t.cqs.objects.ref).pds)) z,
                  create_qp,
                )
                (with_queues-Ended e r t ready fits f t.cqs.objects.ref (suc k) (sym z)
                  (λ n. absurd (omega (arith, n)))
                  (subst (λ x. Takes t.pds.objects.ref f (held x)) z
                    (drop_zero t.pds.objects.ref f (held d) tf))
                  (λ d. omega (arith, ready.cq_words d)))
        ]
