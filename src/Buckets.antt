-- ===== src/Buckets.antt =====
-- The bucket operations of an erasure set (cmd/erasure-object.go) and ListBuckets of the sets
-- (cmd/erasure-sets.go). The goroutines of an operation work each on a drive of its own, so it is a
-- map over the drives; a time is a number.
pub mod Merge
pub mod Drives
mod Tests
use mini_minio.Prelude.{
  ℕ, zero, suc, ltb, if◌then◌else◌, Bool, true, false, not, ◌&&◌, Option, none, some, List, [], ◌∷◌,
  ◌++◌, map,
}
use mini_minio.Prelude.Text.{Text, text_eq, text_lt}
use mini_minio.Prelude.Errors.{
  Error, Result, ok, err, is_not_found, is_bucket_exists, is_nil, not_found, bucket_not_found,
}

pub record BucketInfo : Type 0 where
  pub name : Text
  pub created : ℕ

-- One round of the inner loop of mergeBucketInfos; the map is a list with one entry for a name.
unfoldable pub put_info : BucketInfo → List BucketInfo → List BucketInfo
put_info b [] = b ∷ []
put_info b (e ∷ m) =
    let rest = put_info b m in
    if text_eq e.name b.name then (if ltb b.created e.created then b ∷ m else e ∷ m) else e ∷ rest

unfoldable pub put_infos : List BucketInfo → List BucketInfo → List BucketInfo
put_infos m [] = m
put_infos m (b ∷ l) = put_infos (put_info b m) l

unfoldable pub put_all : List BucketInfo → List (List BucketInfo) → List BucketInfo
put_all m [] = m
put_all m (l ∷ ls) = put_all (put_infos m l) ls

-- `sort.Slice` by name; the names differ.
unfoldable pub insert_info : BucketInfo → List BucketInfo → List BucketInfo
insert_info b [] = b ∷ []
insert_info b (e ∷ l) = if text_lt e.name b.name then e ∷ insert_info b l else b ∷ e ∷ l

unfoldable pub sort_infos : List BucketInfo → List BucketInfo
sort_infos [] = []
sort_infos (b ∷ l) = insert_info b (sort_infos l)

unfoldable pub merge_bucket_infos : List (List BucketInfo) → List BucketInfo
merge_bucket_infos per_disk = sort_infos (put_all [] per_disk)

-- The lists of those that answered, and the first error.
unfoldable pub answered : List (Result (List BucketInfo)) → List (List BucketInfo) × Option Error
answered [] = ([], none)
answered (ok l ∷ rs) = let (ls, failure) = answered rs in (l ∷ ls, failure)
answered (err e ∷ rs) = let (ls, failure) = answered rs in (ls, some e)

-- The end of listBucketInfos, and of ListBuckets of the sets.
unfoldable pub list_bucket_infos : List (Result (List BucketInfo)) → Result (List BucketInfo)
list_bucket_infos answers =
    let (ls, failure) = answered answers in
    elim ls [
      | [] ↦ elim failure [ some e ↦ err e | none ↦ ok (merge_bucket_infos []) ]
      | l ∷ more ↦ ok (merge_bucket_infos (l ∷ more))
    ]

-- statBucket: `ctx_err` before each drive, the drives' answers, and the first other error so far.
unfoldable pub stat_bucket :
    (ctx_err : ℕ → Option Error) → ℕ → Option Error → List (Result BucketInfo) → Result BucketInfo
stat_bucket ctx_err i none [] = err not_found
stat_bucket ctx_err i (some e) [] = err e
stat_bucket ctx_err i first_err (r ∷ rs) = elim (ctx_err i) [
  | some x ↦ err x
  | none ↦ elim r [
    | ok info ↦ ok info
    | err e ↦ elim first_err [
      | some x ↦ stat_bucket ctx_err (suc i) (some x) rs
      | none ↦
          if is_not_found e
          then stat_bucket ctx_err (suc i) none rs
          else stat_bucket ctx_err (suc i) (some e) rs
    ]
  ]
]

-- GetBucketInfo, from what statBucket returns.
unfoldable pub get_bucket_info : Text → Result BucketInfo → Result BucketInfo
get_bucket_info bucket (ok info) = ok (record { name = bucket; created = info.created })
get_bucket_info bucket (err e) = if is_not_found e then err bucket_not_found else err e

-- The first error of a phase, with the drives after it; `forgive` is the error that counts as nil.
unfoldable pub on_drives :
    {D : Type 0} → (Error → Bool) → (D → Option Error × D) → List D → Option Error × List D
on_drives forgive op [] = (none, [])
on_drives forgive op (d ∷ ds) =
    let (failure, d') = op d in
    let (later, ds') = on_drives forgive op ds in
    (elim failure [ none ↦ later | some e ↦ if forgive e then later else some e ], d' ∷ ds')

-- MakeBucket and DeleteBucket behind their lock; `is_not_exist` is `os.IsNotExist`.
unfoldable pub make_bucket : {D : Type 0} → (D → Option Error × D) → List D → Option Error × List D
make_bucket op drives = on_drives is_bucket_exists op drives

unfoldable pub delete_bucket :
    {D : Type 0} → (Error → Bool) → (D → Option Error × D) → List D → Option Error × List D
delete_bucket is_not_exist op drives = on_drives is_not_exist op drives
