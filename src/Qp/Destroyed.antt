-- ===== src/Qp/Destroyed.antt =====
-- `roce_destroy_qp` of a queue pair without work requests: the references that it puts, and the
-- special queue pair, which cannot be made again.
use libroce.Base.{
  ℕ, ◌+◌, ◌-◌, ◌≡◌, ◌≢◌, ◌==◌, refl, sym, ap, ◌∙◌, subst, [], some, pos, false, update, arith, inl,
  inr, when_false,
}
use libroce.Word.{u32}
use libroce.Resource.{Resource, free, get}
use libroce.Resource.Slots.{
  slot, IsValid, clear, clear-IsValid, get-slot, get_or-clear, get_or-set_ne,
}
use libroce.Resource.Placed.{free-clear}
use libroce.Counted.{Counted}
use libroce.Counted.Refs.{IsIn, get_ref-slot}
use libroce.Counted.Takes.{held, held_self, Takes, put_ref-Takes}
use libroce.Pd.{Pds, put_pd, put_pd_asserted}
use libroce.Cq.{Cqs}
use libroce.Qp.Modify.{Qp}
use libroce.Qp.Create.{is_special}
use libroce.Qp.Created.{put_cq_asserted-Takes, null}
use libroce.Qp.Ending.{number}
use libroce.Qp.Destroy.{
  Held, put_cq_of, put_pd_of, free_send_wrs, free_recv_wrs, qp_ended, wrs_freed, destroy_at,
  destroy_qp,
}

-- A queue pair at `h`, whose domain and queues are in their tables.
pub record Stands (s : Held) (h : ℕ) (q : Qp) : Type 0 where
  pub pds : IsValid s.tables.pds.objects.table
  pub cqs : IsValid s.tables.cqs.objects.table
  pub qps : IsValid s.tables.qps.objects.table
  pub real : slot s.tables.qps.objects.table h ≢ 0
  pub here : s.tables.qps.qp (slot s.tables.qps.objects.table h) ≡ q
  pub pd : IsIn s.tables.pds.objects q.pd
  pub scq : IsIn s.tables.cqs.objects q.scq
  pub rcq : IsIn s.tables.cqs.objects q.rcq
  pub no_sends : s.sq (slot s.tables.qps.objects.table h) ≡ []
  pub no_receives : s.rq (slot s.tables.qps.objects.table h) ≡ []

put_pd_of-Takes :
    (s : Pds) (f n : ℕ → ℕ) (p : ℕ)
    → IsValid s.objects.table
    → IsIn s.objects p
    → Takes f s.objects.ref (λ d. n d + held p d)
    → (f' : ℕ → ℕ) × (put_pd_of s p ≡ some (record s { objects = record s.objects { ref = f' } }))
      × Takes f f' n
unfolding put_pd_of put_pd_asserted put_pd
put_pd_of-Takes s f n p v i t =
    let h = s.objects.table.handle p in
    let (f', eq, t') =
      put_ref-Takes (record s.objects { ref = f }) v s.objects.ref (λ d. n d + held p d) h t
        (λ z. i.real (sym i.at ∙ z))
        (subst (λ x. n x + held p x ≢ 0) (sym i.at) (λ z. omega (arith, held_self p i.real, z))) in
    (
      f',
      rw (null p i.real, eq, put_pd_of, put_pd_asserted, put_pd) refl,
      λ d. t' d ∙ ap (λ x. u32 (f d + (n d + held p d - held x d))) i.at ∙ omega arith,
    )

put_cq_of-Takes :
    (s : Cqs) (f n : ℕ → ℕ) (p : ℕ)
    → IsValid s.objects.table
    → IsIn s.objects p
    → Takes f s.objects.ref (λ d. n d + held p d)
    → (f' : ℕ → ℕ) × (put_cq_of s p ≡ some (record s { objects = record s.objects { ref = f' } }))
      × Takes f f' n
unfolding put_cq_of
put_cq_of-Takes s f n p v i t =
    let (f', eq, t') =
      put_cq_asserted-Takes (record s { objects = record s.objects { ref = f } }) s.objects.ref
        (λ d. n d + held p d) p (s.objects.table.handle p) v t (λ _. i.at) (λ d. omega arith) in
    (f', when_false (p == 0) _ _ (null p i.real) ∙ eq, λ d. omega (arith, t' d))

-- `s` without the queue pair at `h`, with the counts `f` and `g`.
abbrev pub without : Held → ℕ → (ℕ → ℕ) → (ℕ → ℕ) → Held
without s h f g =
    let t = s.tables in
    let p = slot t.qps.objects.table h in
    record s {
      tables = record {
        pds = record t.pds { objects = record t.pds.objects { ref = f } };
        cqs = record t.cqs { objects = record t.cqs.objects { ref = g } };
        qps = record t.qps {
          objects = record {
            table = clear t.qps.objects.table h;
            ref = update t.qps.objects.ref p (u32 (t.qps.objects.ref p + 1));
          };
        };
      };
    }

destroy_at_lem :
    (s : Held) (p : ℕ) (objects : Counted) (q : Qp) (pds : Pds) (sent cqs : Cqs)
    → s.tables.qps.qp p ≡ q
    → put_pd_of s.tables.pds q.pd ≡ some pds
    → put_cq_of s.tables.cqs q.scq ≡ some sent
    → put_cq_of sent q.rcq ≡ some cqs
    → destroy_at s p objects ≡ wrs_freed s p objects pds cqs
unfolding destroy_at
destroy_at_lem s p objects q pds sent cqs e a b c = rw (e, a, b, c, destroy_at) refl

module _ (s : Held) (h : ℕ) (q : Qp) (st : Stands s h q) (f g n m : ℕ → ℕ)
    (tf : Takes f s.tables.pds.objects.ref (λ d. n d + held q.pd d))
    (tg : Takes g s.tables.cqs.objects.ref (λ d. m d + held q.rcq d + held q.scq d)) where
  at : ℕ
  at = slot s.tables.qps.objects.table h

  abbrev found : Counted
  unfolding at
  found = record s.tables.qps.objects {
    ref = update s.tables.qps.objects.ref at (u32 (s.tables.qps.objects.ref at + 1));
  }

  cleared : (free found.table (found.table.handle at)).1 ≡ clear s.tables.qps.objects.table h
  unfolding at found
  cleared =
      ap (λ i. (free s.tables.qps.objects.table i).1) (st.qps.knows h st.real)
      ∙ ap (λ r. r.1) (free-clear s.tables.qps.objects.table st.qps h st.real)

  wrs_freed_lem :
      (pds : Pds) (cqs : Cqs)
      → wrs_freed s at found pds cqs
        ≡ some (
          pos 0,
          qp_ended
              (record s {
                tables = record {
                  pds = pds;
                  cqs = cqs;
                  qps = record s.tables.qps {
                    objects = record found { table = clear s.tables.qps.objects.table h };
                  };
                };
              })
              at,
        )
  unfolding wrs_freed free_send_wrs free_recv_wrs at
  wrs_freed_lem pds cqs =
      rw (st.no_sends, st.no_receives, cleared, wrs_freed, free_send_wrs, free_recv_wrs) refl

  destroy_found : destroy_qp s h ≡ destroy_at s at found
  unfolding destroy_qp at found
  destroy_found = elim (number at) [
    | inl z ↦ absurd (st.real z)
    | inr (k, z) ↦
        rw
          (
            get_ref-slot s.tables.qps.objects st.qps h st.real ∙ ap (λ x. some (x, found)) z,
            destroy_qp,
          )
          (ap (λ x. destroy_at s x found) (sym z))
  ]

  -- What the call leaves, before what becomes of the queue pair itself.
  pub destroy_qp-without :
      (f' : ℕ → ℕ) × (g' : ℕ → ℕ) × (destroy_qp s h
        ≡ some (pos 0, qp_ended (without s h f' g') (slot s.tables.qps.objects.table h)))
      × Takes f f' n
      × Takes g g' m
  unfolding at found
  destroy_qp-without =
      let t = s.tables in
      let (f', eq_f, tf') = put_pd_of-Takes t.pds f n q.pd st.pds st.pd tf in
      let (g₁, eq₁, t₁) =
        put_cq_of-Takes t.cqs g (λ d. m d + held q.rcq d) q.scq st.cqs st.scq tg in
      let (g₂, eq₂, t₂) =
        put_cq_of-Takes (record t.cqs { objects = record t.cqs.objects { ref = g₁ } }) g m q.rcq
          st.cqs (record { real = st.rcq.real; at = st.rcq.at }) t₁ in
      (
        f',
        g₂,
        destroy_found ∙ destroy_at_lem s at found q _ _ _ st.here eq_f eq₁ eq₂ ∙ wrs_freed_lem _ _,
        tf',
        t₂,
      )

clear-get :
    (r : Resource) (h : ℕ)
    → IsValid r
    → (get (clear r h) h ≡ some 0)
      × ((i : ℕ) → h ≢ i → get (clear r h) i ≡ get r i)
      × IsValid (clear r h)
clear-get r h v =
    let v' = clear-IsValid r h v in
    (
      get-slot (clear r h) h v' ∙ ap some (get_or-clear r.addr h),
      (λ i ne.
          get-slot (clear r h) i v'
          ∙ ap some (get_or-set_ne r.addr h i 0 ne)
          ∙ sym (get-slot r i v)),
      v',
    )

-- The queue pair at `h` is gone and no other; the counts of domains and queues are `n` and `m`
-- above `f` and `g`; and the regions and the lists are the same.
pub record IsGone (s : Held) (h : ℕ) (f g n m : ℕ → ℕ) (s' : Held) : Type 0 where
  pub here : get s'.tables.qps.objects.table h ≡ some 0
  pub others :
      (i : ℕ) → h ≢ i → get s'.tables.qps.objects.table i ≡ get s.tables.qps.objects.table i
  pub valid : IsValid s'.tables.qps.objects.table
  pub pd_refs : Takes f s'.tables.pds.objects.ref n
  pub cq_refs : Takes g s'.tables.cqs.objects.ref m
  pub pd_table : s'.tables.pds.objects.table ≡ s.tables.pds.objects.table
  pub cq_table : s'.tables.cqs.objects.table ≡ s.tables.cqs.objects.table
  pub mrs : s'.mrs ≡ s.mrs

-- `roce_destroy_qp` of a queue pair that is not the special one and has no work requests, with its
-- domain and its two queues in valid tables, passes its assertions and returns 0. The references
-- that the queue pair held are put: where the counts were those of others and its own, they are
-- those of the others again. Its handle is free, and the other handles are as before.
pub destroy_qp-IsGone :
    (s : Held) (h : ℕ) (q : Qp) (f g n m : ℕ → ℕ)
    → Stands s h q
    → is_special q.qp_type ≡ false
    → Takes f s.tables.pds.objects.ref (λ d. n d + held q.pd d)
    → Takes g s.tables.cqs.objects.ref (λ d. m d + held q.rcq d + held q.scq d)
    → (s' : Held) × (destroy_qp s h ≡ some (pos 0, s')) × IsGone s h f g n m s'
unfolding qp_ended
destroy_qp-IsGone s h q f g n m st other tf tg =
    let (f', g', ends, tf', tg') = destroy_qp-without s h q st f g n m tf tg in
    let (here, others, valid) = clear-get s.tables.qps.objects.table h st.qps in
    (
      without s h f' g',
      ends
          ∙ ap (λ t. some (pos 0, t))
              (when_false
                (is_special ((s.tables.qps.qp (slot s.tables.qps.objects.table h)).qp_type)) _ _
                (ap (λ x. is_special x.qp_type) st.here ∙ other)),
      record {
        here = here;
        others = others;
        valid = valid;
        pd_refs = tf';
        cq_refs = tg';
        pd_table = refl;
        cq_table = refl;
        mrs = refl;
      },
    )
