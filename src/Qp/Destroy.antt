-- ===== src/Qp/Destroy.antt =====
-- qp.c and dev.c: the end of a queue pair, of the two special ones, and of a device. `none` is a
-- failed assertion or a null pointer followed. Memory that is freed is not modelled: what it held
-- stays in the maps, and no table points to it.
use libroce.Base.{
  ℕ, zero, suc, ◌+◌, ◌==◌, List, [], ◌∷◌, Option, none, some, ℤ, pos, if◌then◌else◌, update, get_or,
  ◌>>=◌,
}
use libroce.Resource.{Resource, free}
use libroce.Counted.{Counted, get_ref}
use libroce.Pd.{Pds, put_pd_asserted}
use libroce.Cq.{Cqs}
use libroce.Mr.{Mrs}
use libroce.Mr.Life.{put_mrs}
use libroce.Qp.{max}
use libroce.Qp.Create.{Tables, is_special, is_unused, blank, put_cq_asserted}
use libroce.Wr.{SendWr, RecvWr}

-- The tables of a context with the regions, the lists `sq.wrs` and `rq.wrs` of each queue pair, and
-- `dev.smi` and `dev.gsi`.
pub record Held : Type 0 where
  pub tables : Tables
  pub mrs : Mrs
  pub sq : ℕ → List SendWr
  pub rq : ℕ → List RecvWr
  pub smi : ℕ
  pub gsi : ℕ

-- `ROCE_ASSERT(!roce_put_cq(ctx, cq->res.handle))`.
unfoldable pub put_cq_of : Cqs → ℕ → Option Cqs
unfolding put_cq_asserted
put_cq_of s p = if p == 0 then none else put_cq_asserted s p (s.objects.table.handle p)

-- `ROCE_ASSERT(!roce_put_pd(ctx, pd->res.handle))`.
unfoldable pub put_pd_of : Pds → ℕ → Option Pds
unfolding put_pd_asserted
put_pd_of s p = if p == 0 then none else put_pd_asserted s (s.objects.table.handle p)

-- The loops over the two lists, with `roce_free_send_wr` and `roce_free_recv_wr`.
abbrev pub send_wr_freed : Pds → Mrs → SendWr → Option (Pds × Mrs)
send_wr_freed pds mrs w = if w.mapped then put_mrs pds mrs w.sges else some (pds, mrs)

unfoldable pub free_send_wrs : Pds → Mrs → List SendWr → Option (Pds × Mrs)
unfolding put_mrs
free_send_wrs pds mrs [] = some (pds, mrs)
free_send_wrs pds mrs (w ∷ ws) = send_wr_freed pds mrs w >>= λ r. free_send_wrs r.0 r.1 ws

unfoldable pub free_recv_wrs : Pds → Mrs → List RecvWr → Option (Pds × Mrs)
unfolding put_mrs
free_recv_wrs pds mrs [] = some (pds, mrs)
free_recv_wrs pds mrs (w ∷ ws) = put_mrs pds mrs w.sges >>= λ r. free_recv_wrs r.0 r.1 ws

-- The `memset` of `dev.gsi`, its handle, its count and its lists included.
abbrev pub blank_gsi : Held → Held
blank_gsi s =
    let qps = s.tables.qps in
    record s {
      tables = record s.tables {
        qps = record {
          objects = record {
            table = record qps.objects.table { handle = update qps.objects.table.handle s.gsi 0 };
            ref = update qps.objects.ref s.gsi 0;
          };
          qp = update qps.qp s.gsi (record blank { qp_type = max });
        };
      };
      sq = update s.sq s.gsi [];
      rq = update s.rq s.gsi [];
    }

-- What is left of the queue pair at `p`: the special one is set to zeros, another is freed.
unfoldable pub qp_ended : Held → ℕ → Held
qp_ended s p = if is_special ((s.tables.qps.qp p).qp_type) then blank_gsi s else s

-- Behind the three assertions.
unfoldable pub wrs_freed : Held → ℕ → Counted → Pds → Cqs → Option (ℤ × Held)
unfolding free free_send_wrs free_recv_wrs qp_ended
wrs_freed s p objects pds cqs = do
  let objects = record objects { table = (free objects.table (objects.table.handle p)).1 }
  (pds, mrs) ← free_send_wrs pds s.mrs (s.sq p)
  (pds, mrs) ← free_recv_wrs pds mrs (s.rq p)
  some (
    pos 0,
    qp_ended
        (record s {
          tables = record { pds = pds; cqs = cqs; qps = record s.tables.qps { objects = objects } };
          mrs = mrs;
        })
        p,
  )

-- Behind `roce_get_qp`.
unfoldable pub destroy_at : Held → ℕ → Counted → Option (ℤ × Held)
unfolding put_pd_of put_cq_of wrs_freed
destroy_at s p objects = do
  let q = s.tables.qps.qp p
  pds ← put_pd_of s.tables.pds q.pd
  sent ← put_cq_of s.tables.cqs q.scq
  cqs ← put_cq_of sent q.rcq
  wrs_freed s p objects pds cqs

-- `roce_destroy_qp`.
unfoldable pub destroy_qp : Held → ℕ → Option (ℤ × Held)
unfolding get_ref destroy_at
destroy_qp s h = elim (get_ref s.tables.qps.objects h) [
  | none ↦ none
  | some (zero, _) ↦ none
  | some (suc p, objects) ↦ destroy_at s (suc p) objects
]

-- `roce_resource_free` of the table of queue pairs.
abbrev pub free_qp : Held → ℕ → Held
free_qp s h =
    let qps = s.tables.qps in
    record s {
      tables = record s.tables {
        qps = record qps { objects = record qps.objects { table = (free qps.objects.table h).1 } };
      };
    }

-- `roce_destroy_special_qps`.
unfoldable pub destroy_special_qps : Held → Option Held
unfolding free destroy_qp
destroy_special_qps s =
    let t = if s.smi == 0 then s else free_qp s 0 in
    if t.gsi == 0
    then some t
    else if is_unused ((t.tables.qps.qp t.gsi).qp_type)
    then some (free_qp t 1)
    else destroy_qp t 1 >>= λ r. some (r.1)

-- The handles in use from `j` on, which `roce_free_dev` logs.
unfoldable pub in_use : Resource → ℕ → ℕ → List ℕ
in_use t zero j = []
in_use t (suc left) j =
    let rest = in_use t left (j + 1) in if get_or t.addr j 0 == 0 then rest else j ∷ rest

abbrev pub logged : Resource → List ℕ
logged t = in_use t t.size 0

abbrev pub logged_tables : Resource → Resource → Resource → Held → List (List ℕ)
logged_tables mw srq ah t =
    logged t.tables.pds.objects.table
    ∷ logged t.tables.cqs.objects.table
    ∷ logged t.mrs.objects.table
    ∷ logged mw
    ∷ logged t.tables.qps.objects.table
    ∷ logged srq
    ∷ logged ah
    ∷ []

-- `roce_free_dev`: what it logs of each table, in the order of `roce_resource_type`, with those of
-- the kinds that are not supported yet, and of the address handles.
unfoldable pub free_dev : Resource → Resource → Resource → Held → Option (List (List ℕ))
unfolding destroy_special_qps in_use
free_dev mw srq ah s = do t ← destroy_special_qps s; some (logged_tables mw srq ah t)
