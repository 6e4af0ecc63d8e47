-- ===== src/Buckets/Drives.antt =====
-- The bucket operations over the drives of a set.
use mini_minio.Prelude.{
  ℕ, suc, ◌≡◌, refl, if◌then◌else◌, Bool, true, false, Bool-cases, Option-cases, inl, inr, Option,
  none, some, List, [], ◌∷◌, All, arith,
}
use mini_minio.Prelude.Text.{Text}
use mini_minio.Prelude.Errors.{
  Error, Result, ok, err, is_not_found, is_bucket_exists, bucket_not_found,
}
use mini_minio.Buckets.{BucketInfo, on_drives, make_bucket, stat_bucket, get_bucket_info}

-- The error of an operation counts as nil.
abbrev pub is_fine : (Error → Bool) → Option Error → Bool
is_fine forgive none = true
is_fine forgive (some e) = forgive e

module _ {D : Type 0} (forgive : Error → Bool) (op : D → Option Error × D) (P : D → Type 0)
    (done : (d : D) → is_fine forgive (op d).0 ≡ true → P (op d).1) where
  on_drives_lem :
      (drives : List D)
      → (on_drives forgive op drives).0 ≡ none
      → All P (on_drives forgive op drives).1
  unfolding on_drives
  on_drives_lem [] e = tt
  on_drives_lem (d ∷ drives) e = elim (Option-cases (op d).0) [
    | inl h ↦ (done d (ground (arith, h)), on_drives_lem drives (ground (arith, e, h)))
    | inr (x, h) ↦ elim (Bool-cases (forgive x)) [
      | inl f ↦ (done d (ground (arith, h, f)), on_drives_lem drives (ground (arith, e, h, f)))
      | inr f ↦ absurd (ground (arith, e, h, f))
    ]
  ]

-- If a drive has the bucket after a creation that succeeds or says that it exists, then all drives
-- have it when MakeBucket returns no error.
pub make_bucket_lem :
    {D : Type 0} (op : D → Option Error × D) (HasBucket : D → Type 0) (drives : List D)
    → ((d : D) → is_fine is_bucket_exists (op d).0 ≡ true → HasBucket (op d).1)
    → (make_bucket op drives).0 ≡ none
    → All HasBucket (make_bucket op drives).1
unfolding make_bucket
make_bucket_lem op HasBucket drives done e =
    on_drives_lem is_bucket_exists op HasBucket done drives e

-- The first answer with a bucket; without one the first error but for a missing bucket.
abbrev pub found_bucket : Option Error → List (Result BucketInfo) → Result BucketInfo
found_bucket none [] = err bucket_not_found
found_bucket (some e) [] = err e
found_bucket first_err (ok info ∷ rs) = ok info
found_bucket (some x) (err e ∷ rs) = found_bucket (some x) rs
found_bucket none (err e ∷ rs) =
    if is_not_found e then found_bucket none rs else found_bucket (some e) rs

abbrev pub named : Text → Result BucketInfo → Result BucketInfo
named bucket (ok info) = ok (record { name = bucket; created = info.created })
named bucket (err e) = err e

stat_bucket_from :
    (ctx_err : ℕ → Option Error) (bucket : Text) (i : ℕ) (first_err : Option Error)
    (answers : List (Result BucketInfo))
    → ((k : ℕ) → ctx_err k ≡ none)
    → ((e : Error) → first_err ≡ some e → is_not_found e ≡ false)
    → get_bucket_info bucket (stat_bucket ctx_err i first_err answers)
      ≡ named bucket (found_bucket first_err answers)
unfolding stat_bucket get_bucket_info
stat_bucket_from ctx_err bucket i none [] alive other = refl
stat_bucket_from ctx_err bucket i (some e) [] alive other = ground (arith, other e refl)
stat_bucket_from ctx_err bucket i none (ok info ∷ answers) alive other =
    rw (alive i, get_bucket_info, stat_bucket) refl
stat_bucket_from ctx_err bucket i (some e) (ok info ∷ answers) alive other =
    rw (alive i, get_bucket_info, stat_bucket) refl
stat_bucket_from ctx_err bucket i (some x) (err e ∷ answers) alive other =
    rw (alive i, get_bucket_info, stat_bucket)
      (stat_bucket_from ctx_err bucket (suc i) (some x) answers alive other)
stat_bucket_from ctx_err bucket i none (err e ∷ answers) alive other =
    rw (alive i, get_bucket_info, stat_bucket)
      (elim (Bool-cases (is_not_found e)) [
        | inl missing ↦
            rw missing (stat_bucket_from ctx_err bucket (suc i) none answers alive other)
        | inr broken ↦ rw broken (
            stat_bucket_from ctx_err bucket (suc i) (some e) answers alive
              (λ x h. ground (arith, broken, h)))
      ])

-- With a context that is not cancelled, GetBucketInfo returns the first drive's answer that has
-- the bucket under its name, provided that one has it; else the first error but for a missing
-- bucket, and else that the bucket is missing.
pub get_bucket_info_lem :
    (ctx_err : ℕ → Option Error) (bucket : Text) (answers : List (Result BucketInfo))
    → ((k : ℕ) → ctx_err k ≡ none)
    → get_bucket_info bucket (stat_bucket ctx_err 0 none answers)
      ≡ named bucket (found_bucket none answers)
get_bucket_info_lem ctx_err bucket answers alive =
    stat_bucket_from ctx_err bucket 0 none answers alive (λ e h. absurd (cc))
