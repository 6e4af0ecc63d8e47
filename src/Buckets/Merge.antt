-- ===== src/Buckets/Merge.antt =====
-- The names and the times in the merged list of buckets.
use mini_minio.Prelude.{
  ℕ, min, ltb, ◌≡◌, refl, sym, subst, ap, ◌∙◌, if◌then◌else◌, true, false, Bool-cases, inl, inr,
  Option, none, some, List, [], ◌∷◌, ◌++◌, concat, arith,
}
use mini_minio.Prelude.Text.{Text, text_eq, text_eq_refl, text_eq→eq}
use mini_minio.Sets.Listing.{has_name, insert_name, sort_names}
use mini_minio.Sets.Pages.{IsAscending}
use mini_minio.Sets.Names.{
  IsDistinct, sort_names-IsAscending, has_name-sort_names, text_eq-false_sym,
}
use mini_minio.Buckets.{
  BucketInfo, put_info, put_infos, put_all, insert_info, sort_infos, merge_bucket_infos,
}

-- The time of the first entry with a name, and the earliest of all entries with it.
abbrev pub created_of : Text → List BucketInfo → Option ℕ
created_of n [] = none
created_of n (b ∷ l) = if text_eq b.name n then some b.created else created_of n l

abbrev pub earlier : Option ℕ → Option ℕ → Option ℕ
earlier none b = b
earlier (some a) none = some a
earlier (some a) (some b) = some (min a b)

abbrev pub earliest : Text → List BucketInfo → Option ℕ
earliest n [] = none
earliest n (b ∷ l) =
    if text_eq b.name n then earlier (some b.created) (earliest n l) else earliest n l

abbrev pub names : List BucketInfo → List Text
names [] = []
names (b ∷ l) = b.name ∷ names l

earlier_assoc : (a b c : Option ℕ) → earlier (earlier a b) c ≡ earlier a (earlier b c)
earlier_assoc a b c = ground arith

text_eq_trans : (s t u : Text) → text_eq s t ≡ true → text_eq s u ≡ text_eq t u
text_eq_trans s t u h = ap (λ v. text_eq v u) (text_eq→eq s t h)

differ : (s t u : Text) → text_eq s t ≡ false → text_eq s u ≡ true → text_eq t u ≡ false
differ s t u h e = elim (Bool-cases (text_eq t u)) [
  | inr f ↦ f
  | inl g ↦
      absurd (cc (h, text_eq_refl s, ap (text_eq s) (text_eq→eq s u e ∙ sym (text_eq→eq t u g))))
]

created_of-put_info :
    (n : Text) (b : BucketInfo) (m : List BucketInfo)
    → created_of n (put_info b m)
      ≡ earlier (created_of n m) (if text_eq b.name n then some b.created else none)
unfolding put_info
created_of-put_info n b [] = ground arith
created_of-put_info n b (e ∷ m) = elim (Bool-cases (text_eq e.name b.name)) [
  | inl same ↦ ground (arith, same, text_eq_trans e.name b.name n same)
  | inr other ↦ elim (Bool-cases (text_eq e.name n)) [
    | inl here ↦ ground (arith, other, here, differ e.name b.name n other here)
    | inr there ↦ ground (arith, other, there, created_of-put_info n b m)
  ]
]

has_name-put_info :
    (u : Text) (b : BucketInfo) (m : List BucketInfo)
    → text_eq b.name u ≡ false
    → has_name u (names (put_info b m)) ≡ has_name u (names m)
unfolding put_info has_name
has_name-put_info u b [] h = ground (arith, h)
has_name-put_info u b (e ∷ m) h = elim (Bool-cases (text_eq e.name b.name)) [
  | inl same ↦ ground (arith, same, h, text_eq_trans e.name b.name u same)
  | inr other ↦ ground (arith, other, has_name-put_info u b m h)
]

has_name_same : (s t : Text) (l : List Text) → text_eq s t ≡ true → has_name s l ≡ has_name t l
has_name_same s t l h = ap (λ u. has_name u l) (text_eq→eq s t h)

put_info-IsDistinct :
    (b : BucketInfo) (m : List BucketInfo)
    → IsDistinct (names m)
    → IsDistinct (names (put_info b m))
unfolding put_info
put_info-IsDistinct b [] d = (unfold has_name in refl, tt)
put_info-IsDistinct b (e ∷ m) d = elim (Bool-cases (text_eq e.name b.name)) [
  | inl same ↦ rw same (elim (Bool-cases (ltb b.created e.created)) [
    | inl lt ↦ rw lt (sym (has_name_same e.name b.name (names m) same) ∙ d.0, d.1)
    | inr ge ↦ rw ge d
  ])
  | inr other ↦ rw other (
    has_name-put_info e.name b m (text_eq-false_sym e.name b.name other) ∙ d.0,
    put_info-IsDistinct b m d.1,
  )
]

put_infos_lem :
    (n : Text) (m l : List BucketInfo)
    → IsDistinct (names m)
    → IsDistinct (names (put_infos m l))
      × (created_of n (put_infos m l) ≡ earlier (created_of n m) (earliest n l))
unfolding put_infos
put_infos_lem n m [] d = (d, ground arith)
put_infos_lem n m (b ∷ l) d =
    let (d', e) = put_infos_lem n (put_info b m) l (put_info-IsDistinct b m d) in
    (
      d',
      e
          ∙ ap (λ o. earlier o (earliest n l)) (created_of-put_info n b m)
          ∙ earlier_assoc (created_of n m) (if text_eq b.name n then some b.created else none)
              (earliest n l)
          ∙ ap (earlier (created_of n m)) (ground arith),
    )

earliest-append :
    (n : Text) (l r : List BucketInfo) → earliest n (l ++ r) ≡ earlier (earliest n l) (earliest n r)
earliest-append n [] r = refl
earliest-append n (b ∷ l) r = ground (arith, earliest-append n l r)

put_all_lem :
    (n : Text) (m : List BucketInfo) (ls : List (List BucketInfo))
    → IsDistinct (names m)
    → IsDistinct (names (put_all m ls))
      × (created_of n (put_all m ls) ≡ earlier (created_of n m) (earliest n (concat ls)))
unfolding put_all
put_all_lem n m [] d = (d, ground arith)
put_all_lem n m (l ∷ ls) d =
    let (d1, e1) = put_infos_lem n m l d in
    let (d2, e2) = put_all_lem n (put_infos m l) ls d1 in
    (
      d2,
      e2
          ∙ ap (λ o. earlier o (earliest n (concat ls))) e1
          ∙ earlier_assoc (created_of n m) (earliest n l) (earliest n (concat ls))
          ∙ ap (earlier (created_of n m)) (sym (earliest-append n l (concat ls))),
    )

names-insert_info :
    (b : BucketInfo) (l : List BucketInfo) → names (insert_info b l) ≡ insert_name b.name (names l)
unfolding insert_info insert_name
names-insert_info b [] = refl
names-insert_info b (e ∷ l) = ground (arith, names-insert_info b l)

names-sort_infos : (l : List BucketInfo) → names (sort_infos l) ≡ sort_names (names l)
unfolding sort_infos sort_names
names-sort_infos [] = refl
names-sort_infos (b ∷ l) =
    names-insert_info b (sort_infos l) ∙ ap (insert_name b.name) (names-sort_infos l)

-- Sorting keeps each name's time.
created_of-insert_info :
    (n : Text) (b : BucketInfo) (l : List BucketInfo)
    → has_name b.name (names l) ≡ false
    → created_of n (insert_info b l) ≡ (if text_eq b.name n then some b.created else created_of n l)
unfolding insert_info has_name
created_of-insert_info n b [] h = refl
created_of-insert_info n b (e ∷ l) h =
    let other : text_eq e.name b.name ≡ false = ground arith in
    let rest = created_of-insert_info n b l (ground arith) in
    elim (Bool-cases (text_eq e.name n)) [
      | inl here ↦ ground (arith, here, rest, differ e.name b.name n other here)
      | inr there ↦ ground (arith, there, rest)
    ]

created_of-sort_infos :
    (n : Text) (l : List BucketInfo)
    → IsDistinct (names l)
    → created_of n (sort_infos l) ≡ created_of n l
unfolding sort_infos
created_of-sort_infos n [] d = refl
created_of-sort_infos n (b ∷ l) d =
    created_of-insert_info n b (sort_infos l)
      (ap (has_name b.name) (names-sort_infos l) ∙ has_name-sort_names b.name (names l) d.0)
    ∙ ap (λ o. if text_eq b.name n then some b.created else o) (created_of-sort_infos n l d.1)

-- mergeBucketInfos returns the buckets in ascending order of their names without duplicates, and
-- each name has the earliest time of creation that any drive has for it, or is not there if no
-- drive has it.
pub merge_bucket_infos_lem :
    (n : Text) (per_disk : List (List BucketInfo))
    → IsAscending (names (merge_bucket_infos per_disk))
      × (created_of n (merge_bucket_infos per_disk) ≡ earliest n (concat per_disk))
unfolding merge_bucket_infos
merge_bucket_infos_lem n per_disk =
    let (d, e) = put_all_lem n [] per_disk tt in
    let all = put_all [] per_disk in
    (
      subst IsAscending (sym (names-sort_infos all)) (sort_names-IsAscending (names all) d),
      created_of-sort_infos n all d ∙ e,
    )
