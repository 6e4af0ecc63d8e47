-- ===== src/Sets/Names.antt =====
-- The names that listObjectNames returns are in ascending order.
use mini_minio.Prelude.{
  ◌≡◌, refl, subst, ap, if◌then◌else◌, Bool, true, false, Bool-cases, inl, inr, List, [], ◌∷◌, ◌++◌,
  All, arith,
}
use mini_minio.Prelude.Errors.{Result, ok, err, is_not_found, bucket_not_found, ◌>>=◌}
use mini_minio.Prelude.Text.{
  Text, text_eq, text_lt, text_eq_refl, text_eq→eq, text_lt_trans, text_lt_total,
}
use mini_minio.Sets.Listing.{
  has_name, add_names, gather, insert_name, sort_names, list_object_names,
}
use mini_minio.Sets.Pages.{IsAscending}

abbrev pub IsDistinct : List Text → Type 0
IsDistinct [] = Unit {0}
IsDistinct (t ∷ l) = (has_name t l ≡ false) × IsDistinct l

pub text_eq-false_sym : (s t : Text) → text_eq s t ≡ false → text_eq t s ≡ false
text_eq-false_sym s t h = elim (Bool-cases (text_eq t s)) [
  | inr f ↦ f
  | inl e ↦ absurd (cc (h, text_eq_refl s, ap (text_eq s) (text_eq→eq t s e)))
]

has_name-snoc :
    (u t : Text) (l : List Text)
    → has_name u l ≡ false
    → text_eq t u ≡ false
    → has_name u (l ++ t ∷ []) ≡ false
unfolding has_name
has_name-snoc u t [] h e = ground (arith, e)
has_name-snoc u t (s ∷ l) h e =
    let first : text_eq s u ≡ false = ground arith in
    let others : has_name u l ≡ false = ground arith in
    rw (first, has_name-snoc u t l others e) refl

snoc-IsDistinct :
    (t : Text) (l : List Text) → has_name t l ≡ false → IsDistinct l → IsDistinct (l ++ t ∷ [])
snoc-IsDistinct t [] h d = (unfold has_name in refl, tt)
snoc-IsDistinct t (s ∷ l) h d =
    let differs : text_eq s t ≡ false = unfold has_name in ground arith in
    let others : has_name t l ≡ false = unfold has_name in ground arith in
    (has_name-snoc s t l d.0 (text_eq-false_sym s t differs), snoc-IsDistinct t l others d.1)

add_names-IsDistinct : (names l : List Text) → IsDistinct names → IsDistinct (add_names names l)
unfolding add_names
add_names-IsDistinct names [] d = d
add_names-IsDistinct names (t ∷ l) d = elim (Bool-cases (has_name t names)) [
  | inl seen ↦ rw seen (add_names-IsDistinct names l d)
  | inr fresh ↦
      rw fresh (add_names-IsDistinct (names ++ t ∷ []) l (snoc-IsDistinct t names fresh d))
]

gather-IsDistinct :
    (rs : List (Result (List Text))) (names : List Text) (found : Bool) {r : List Text × Bool}
    → gather rs names found ≡ ok r
    → IsDistinct names
    → IsDistinct r.0
unfolding gather
gather-IsDistinct [] names found {r} e d =
    let same : names ≡ r.0 = ground (arith, e) in subst IsDistinct same d
gather-IsDistinct (ok l ∷ rs) names found e d =
    gather-IsDistinct rs (add_names names l) true e (add_names-IsDistinct names l d)
gather-IsDistinct (err x ∷ rs) names found {r} e d = elim (Bool-cases (is_not_found x)) [
  | inl skip ↦ gather-IsDistinct rs names found {r = r} (ground (arith, e, skip)) d
  | inr stop ↦ absurd (ground (arith, e, stop))
]

has_name-insert_name :
    (u t : Text) (l : List Text)
    → text_eq t u ≡ false
    → has_name u l ≡ false
    → has_name u (insert_name t l) ≡ false
unfolding has_name insert_name
has_name-insert_name u t [] e h = ground (arith, e)
has_name-insert_name u t (s ∷ l) e h =
    let first : text_eq s u ≡ false = ground arith in
    let others : has_name u l ≡ false = ground arith in
    elim (Bool-cases (text_lt s t)) [
      | inl less ↦ rw less (rw (first, has_name-insert_name u t l e others) refl)
      | inr more ↦ rw more (rw (e, first, others) refl)
    ]

pub has_name-sort_names :
    (u : Text) (l : List Text) → has_name u l ≡ false → has_name u (sort_names l) ≡ false
unfolding sort_names
has_name-sort_names u [] h = h
has_name-sort_names u (t ∷ l) h =
    has_name-insert_name u t (sort_names l) (unfold has_name in ground arith)
      (has_name-sort_names u l (unfold has_name in ground arith))

insert_name-All :
    (s t : Text) (l : List Text)
    → text_lt s t ≡ true
    → All (λ u. text_lt s u ≡ true) l
    → All (λ u. text_lt s u ≡ true) (insert_name t l)
unfolding insert_name
insert_name-All s t [] p a = (p, tt)
insert_name-All s t (u ∷ l) p a = elim (Bool-cases (text_lt u t)) [
  | inl less ↦ rw less (a.0, insert_name-All s t l p a.1)
  | inr more ↦ rw more (p, a)
]

All-trans :
    (t s : Text) (l : List Text)
    → text_lt t s ≡ true
    → All (λ u. text_lt s u ≡ true) l
    → All (λ u. text_lt t u ≡ true) l
All-trans t s [] p a = tt
All-trans t s (u ∷ l) p a = (text_lt_trans t s u p a.0, All-trans t s l p a.1)

less_of : (t s : Text) → text_lt s t ≡ false → text_eq s t ≡ false → text_lt t s ≡ true
less_of t s p q = elim (Bool-cases (text_lt t s)) [
  | inl less ↦ less
  | inr more ↦ absurd (cc (q, text_eq_refl s, ap (text_eq s) (text_lt_total s t p more)))
]

insert_name-IsAscending :
    (t : Text) (l : List Text)
    → has_name t l ≡ false
    → IsAscending l
    → IsAscending (insert_name t l)
unfolding insert_name
insert_name-IsAscending t [] h up = (tt, tt)
insert_name-IsAscending t (s ∷ l) h up =
    let differs : text_eq s t ≡ false = unfold has_name in ground arith in
    let others : has_name t l ≡ false = unfold has_name in ground arith in
    elim (Bool-cases (text_lt s t)) [
      | inl less ↦
          rw less (insert_name-All s t l less up.0, insert_name-IsAscending t l others up.1)
      | inr more ↦
          let under = less_of t s more differs in rw more ((under, All-trans t s l under up.0), up)
    ]

pub sort_names-IsAscending : (l : List Text) → IsDistinct l → IsAscending (sort_names l)
unfolding sort_names
sort_names-IsAscending [] d = tt
sort_names-IsAscending (t ∷ l) d =
    insert_name-IsAscending t (sort_names l) (has_name-sort_names t l d.0)
      (sort_names-IsAscending l d.1)

-- The names that listObjectNames returns, from any answers of the drives, are in ascending order
-- and without duplicates, if it succeeds.
pub list_object_names-IsAscending :
    (answers : List (Result (List Text))) {names : List Text}
    → list_object_names answers ≡ ok names
    → IsAscending names
unfolding list_object_names
list_object_names-IsAscending answers {names} e = by_result (gather answers [] false) refl e
  where
    by_result :
        (g : Result (List Text × Bool))
        → gather answers [] false ≡ g
        → (g >>= λ r. if r.1 then ok (sort_names r.0) else err bucket_not_found) ≡ ok names
        → IsAscending names
    by_result (err x) s h = absurd (ground (arith, h))
    by_result (ok (l, false)) s h = absurd (ground (arith, h))
    by_result (ok (l, true)) s h =
        let same : sort_names l ≡ names = ground (arith, h) in
        subst IsAscending same (sort_names-IsAscending l (gather-IsDistinct answers [] false s tt))
