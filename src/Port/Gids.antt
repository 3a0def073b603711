-- ===== src/Port/Gids.antt =====
-- The table of a port's identifiers as its client sees it.
use libroce.Base.{
  ℕ, zero, suc, ◌≤◌, ◌<◌, ◌≡◌, ◌≢◌, ◌↔◌, refl, sym, ◌∙◌, List, [], ◌∷◌, Option, none, some, ℤ, pos,
  einval, ebusy, get_elem?, get_elem?-none_iff, get_elem?-set_self, get_elem?-set_ne, set, length,
  length-set, Bool, true, false, Bool-cases, inl, inr, arith, if◌then◌else◌,
}
use libroce.Port.{Port, add_gid, del_gid, get_gid, all_zero, zero_gid}

-- What `roce_get_gid` finds on the port: the identifier, an empty entry, or a read out of bounds.
abbrev pub found : Port → ℕ → Option (ℤ × List ℕ)
found p index = get_gid p 1 index []

get_elem?-some :
    {A : Type 0} (xs : List A) (i : ℕ) → i < length xs → (x : A) × (get_elem? xs i ≡ some x)
get_elem?-some [] i h = absurd (omega arith)
get_elem?-some (x ∷ xs) zero h = (x, refl)
get_elem?-some (x ∷ xs) (suc i) h = get_elem?-some xs i (omega arith)

-- What it makes of an entry.
abbrev looked : List ℕ → Option (ℤ × List ℕ)
looked old = if all_zero old then some (ebusy, []) else some (pos 0, old)

found-some :
    (p : Port) (i : ℕ) (gid : List ℕ) → get_elem? p.gids i ≡ some gid → found p i ≡ looked gid
unfolding get_gid
found-some p i gid e = rw e refl

found_ext : (p q : Port) (i : ℕ) → get_elem? p.gids i ≡ get_elem? q.gids i → found p i ≡ found q i
unfolding get_gid
found_ext p q i e = rw e refl

-- An identifier other than zero that is added to an entry that is free is found there, and the
-- other entries are as before; adding to the entry in use is refused; deleted again, the entry is
-- free, and the others are as before. The index is within the table.
pub add_gid-del_gid :
    (p : Port) (i : ℕ) (gid : List ℕ)
    → i < length p.gids
    → all_zero gid ≡ false
    → found p i ≡ some (ebusy, [])
    → (q : Port) × (r : Port) × (add_gid p 1 i gid ≡ some (pos 0, q))
      × (found q i ≡ some (pos 0, gid))
      × (add_gid q 1 i gid ≡ some (ebusy, q))
      × (del_gid q 1 i ≡ some (pos 0, r))
      × (found r i ≡ some (ebusy, []))
      × ((j : ℕ) → i ≢ j → (found q j ≡ found p j) × (found r j ≡ found p j))
unfolding add_gid del_gid
add_gid-del_gid p i gid h used free =
    let x = get_elem?-some p.gids i h in
    let q : Port = record p { gids = set p.gids i gid } in
    let r : Port = record p { gids = set q.gids i zero_gid } in
    let at_q : get_elem? q.gids i ≡ some gid = get_elem?-set_self p.gids i gid h in
    let at_r : get_elem? r.gids i ≡ some zero_gid =
      get_elem?-set_self q.gids i zero_gid (omega (arith, length-set p.gids i gid)) in
    (
      q,
      r,
      rw (x.1, empty x.0 (sym (found-some p i x.0 x.1) ∙ free)) refl,
      found-some q i gid at_q ∙ rw used refl,
      rw (at_q, used) refl,
      rw (at_q, used) refl,
      found-some r i zero_gid at_r,
      λ j ne.
          let same : get_elem? q.gids j ≡ get_elem? p.gids j = get_elem?-set_ne p.gids gid ne in
          (found_ext q p j same, found_ext r p j (get_elem?-set_ne q.gids zero_gid ne ∙ same)),
    )
  where
    empty : (old : List ℕ) → looked old ≡ some (ebusy, []) → all_zero old ≡ true
    empty old e = elim (Bool-cases (all_zero old)) [
      | inl z ↦ z
      | inr n ↦
          let clash : ◌≡◌ {A = Option (ℤ × List ℕ)} (some (pos 0, old)) (some (ebusy, [])) =
            sym (rw n refl) ∙ e in
          cc
    ]

-- A lookup that answers on every entry fails on a missing one alone.
answers :
    {A B : Type 0} (o : Option A) (t : A → Bool) (f g : A → B)
    → (elim o as (λ x. Option B) [ none ↦ none | some x ↦ if t x then some (f x) else some (g x) ]
        ≡ none)
      ↔ (o ≡ none)
answers none t f g = ((λ e. refl), λ e. refl)
answers (some x) t f g = elim (Bool-cases (t x)) [
  | inl h ↦ rw h ((λ e. cc), λ e. cc)
  | inr h ↦ rw h ((λ e. cc), λ e. cc)
]

-- Each of the three calls reads past the end of the table at the indices from its length on, and
-- at no other.
pub gid-none :
    (p : Port) (i : ℕ) (gid : List ℕ)
    → ((add_gid p 1 i gid ≡ none) ↔ (length p.gids ≤ i))
      × ((del_gid p 1 i ≡ none) ↔ (length p.gids ≤ i))
      × ((get_gid p 1 i gid ≡ none) ↔ (length p.gids ≤ i))
unfolding add_gid del_gid get_gid
gid-none p i gid =
    let past = get_elem?-none_iff p.gids i in
    let added =
      answers (get_elem? p.gids i) all_zero (λ x. (pos 0, record p { gids = set p.gids i gid }))
        (λ x. (ebusy, p)) in
    let deleted =
      answers (get_elem? p.gids i) all_zero (λ x. (einval, p))
        (λ x. (pos 0, record p { gids = set p.gids i zero_gid })) in
    let got = answers (get_elem? p.gids i) all_zero (λ x. (ebusy, gid)) (λ x. (pos 0, x)) in
    (
      ((λ e. past.0 (added.0 e)), λ h. added.1 (past.1 h)),
      ((λ e. past.0 (deleted.0 e)), λ h. deleted.1 (past.1 h)),
      ((λ e. past.0 (got.0 e)), λ h. got.1 (past.1 h)),
    )
