-- ===== src/Mr/Life.antt =====
-- mr.c: the regions from their creation to their end, and the references that work requests hold.
use libroce.Base.{
  ℕ, zero, List, [], ◌∷◌, Option, none, some, ℤ, pos, negsuc, einval, eacces, enomem, ◌==◌, update,
  if◌then◌else◌,
}
use libroce.Resource.{get, free}
use libroce.Counted.{Counted, enter, get_ref, put_ref, left}
use libroce.Pd.{Pds, get_pd, put_pd_asserted}
use libroce.Iov.{Iov}
use libroce.Sge.{Sge}
use libroce.Mr.{
  MrType, mem, MrState, destroyed, Mrs, MrRequest, key_to_index, new_key, mr_state, mr_page_size,
}

-- The error path from `put_pd` on.
unfoldable pub create_failed : Pds → Mrs → ℕ → ℤ → Option (ℤ × Pds × Mrs)
unfolding put_pd_asserted
create_failed ps s pd_handle ret = elim (put_pd_asserted ps pd_handle) [
  | none ↦ none
  | some ps' ↦ some (ret, ps', s)
]

-- The entries copied: those of a region of memory.
abbrev pub kept_iovs : MrType → List Iov → List Iov
kept_iovs mem iovs = iovs
kept_iovs type iovs = []

-- What follows `roce_resource_alloc` for the region at `p` of the domain `d`.
unfoldable pub mr_entered :
    Pds → Mrs → ℕ → ℕ → ℕ → MrRequest → ℕ → MrState → ℕ × ℕ → ℤ × Counted → Option (ℤ × Pds × Mrs)
unfolding new_key create_failed
mr_entered ps s pd_handle d p q page_size state randoms (pos i, c) = some (
  pos i,
  ps,
  record {
    objects = c;
    mr = update s.mr p (record {
      mr_ctx = q.mr_ctx;
      pd = d;
      state = state;
      type = q.type;
      iova = q.iova;
      length = q.length;
      lkey = new_key randoms.0 i;
      rkey = new_key randoms.1 i;
      access = q.access;
      page_size = page_size;
      iovs = kept_iovs q.type q.iovs;
    });
  },
)
mr_entered ps s pd_handle d p q page_size state randoms (negsuc e, c) =
    create_failed ps (record s { objects = c }) pd_handle (negsuc e)

-- With the reference of the domain taken.
unfoldable pub create_in :
    ℕ → ℕ → Pds → Mrs → ℕ → ℕ → ℕ → MrRequest → ℕ → ℕ × ℕ → Option (ℤ × Pds × Mrs)
unfolding mr_state create_failed enter mr_entered
create_in max_mr_size min_page ps s pd_handle d p q page_size randoms =
    if p == 0
    then create_failed ps s pd_handle enomem
    else elim (mr_state max_mr_size min_page page_size q q.type) [
      | none ↦ none
      | some (pos _, state) ↦
          mr_entered ps s pd_handle d p q page_size state randoms (enter s.objects p)
      | some (ret, _) ↦ create_failed ps s pd_handle ret
    ]

-- `roce_create_mr`, with what `roce_calloc` and `random` returned.
unfoldable pub create_mr : ℕ → ℕ → Pds → Mrs → ℕ → MrRequest → ℕ → ℕ × ℕ → Option (ℤ × Pds × Mrs)
unfolding mr_page_size get_pd create_in
create_mr max_mr_size min_page ps s pd_handle q p randoms =
    elim (mr_page_size min_page q.page_size) [
      | none ↦ some (einval, ps, s)
      | some page_size ↦ elim (get_pd ps pd_handle) [
        | none ↦ none
        | some (d, ps') ↦
            if d == 0
            then some (einval, ps, s)
            else create_in max_mr_size min_page ps' s pd_handle d p q page_size randoms
      ]
    ]

unfoldable pub get_mr : Mrs → ℕ → Option (ℕ × Mrs)
unfolding get_ref
get_mr s h = elim (get_ref s.objects h) [
  | none ↦ none
  | some (p, c) ↦ some (p, record s { objects = c })
]

unfoldable pub get_mr_by_key : Mrs → ℕ → Option (ℕ × Mrs)
unfolding get_mr key_to_index
get_mr_by_key s lkey = get_mr s (key_to_index lkey)

abbrev pub set_state : Mrs → ℕ → MrState → Mrs
set_state s p state = record s { mr = update s.mr p (record (s.mr p) { state = state }) }

-- What `roce_destroy_mr` does behind `roce_resource_free`, for the region at `p`.
unfoldable pub mr_left : Pds → Mrs → ℕ → ℤ × Counted → Option (ℤ × Pds × Mrs)
unfolding put_pd_asserted
mr_left ps s p (pos zero, c) = elim (put_pd_asserted ps (ps.objects.table.handle ((s.mr p).pd))) [
  | none ↦ none
  | some ps' ↦ some (pos 0, ps', record s { objects = c })
]
mr_left ps s p (ret, c) = some (ret, ps, record s { objects = c })

unfoldable pub destroy_mr : Pds → Mrs → ℕ → Option (ℤ × Pds × Mrs)
unfolding get free mr_left
destroy_mr ps s h = elim (get s.objects.table h) [
  | none ↦ none
  | some p ↦
      if p == 0
      then some (einval, ps, s)
      else if s.objects.ref p == 0
      then mr_left ps s p (left s.objects (free s.objects.table h))
      else some (pos 0, ps, set_state s p destroyed)
]

-- `roce_put_mr`, which ends a region whose end waits for its references.
unfoldable pub put_mr : Pds → Mrs → ℕ → Option (Pds × Mrs)
unfolding get put_ref destroy_mr
put_mr ps s h = elim (get s.objects.table h) [
  | none ↦ none
  | some p ↦ elim (put_ref s.objects h) [
    | none ↦ none
    | some (negsuc _, c) ↦ some (ps, s)
    | some (pos _, c) ↦ elim ((s.mr p).state) [
      | destroyed ↦ elim (destroy_mr ps (record s { objects = c }) h) [
        | none ↦ none
        | some (_, ps', s') ↦ some (ps', s')
      ]
      | _ ↦ some (ps, record s { objects = c })
    ]
  ]
]

-- `roce_put_mrs`.
unfoldable pub put_mrs : Pds → Mrs → List Sge → Option (Pds × Mrs)
unfolding put_mr key_to_index
put_mrs ps s [] = some (ps, s)
put_mrs ps s (g ∷ gs) = elim (put_mr ps s (key_to_index g.lkey)) [
  | none ↦ none
  | some (ps', s') ↦ put_mrs ps' s' gs
]

-- The loop of `roce_get_mrs`, with the elements passed, the last first, which the error path goes
-- back over.
unfoldable pub get_mrs_from : Pds → Mrs → List Sge → List Sge → Option (ℤ × Pds × Mrs)
unfolding get_mr_by_key put_mrs
get_mrs_from ps s passed [] = some (pos 0, ps, s)
get_mrs_from ps s passed (g ∷ gs) = elim (get_mr_by_key s g.lkey) [
  | none ↦ none
  | some (zero, _) ↦ elim (put_mrs ps s passed) [
    | none ↦ none
    | some (ps', s') ↦ some (eacces, ps', s')
  ]
  | some (_, s') ↦ get_mrs_from ps s' (g ∷ passed) gs
]

unfoldable pub get_mrs : Pds → Mrs → List Sge → Option (ℤ × Pds × Mrs)
unfolding get_mrs_from
get_mrs ps s sges = get_mrs_from ps s [] sges

-- `roce_get_mr_key`: what it returns, and the two keys that it writes where that is 0.
unfoldable pub get_mr_key : Mrs → ℕ → Option (ℤ × Option (ℕ × ℕ))
unfolding get
get_mr_key s h = elim (get s.objects.table h) [
  | none ↦ none
  | some p ↦
      if p == 0 then some (einval, none) else some (pos 0, some ((s.mr p).lkey, (s.mr p).rkey))
]
