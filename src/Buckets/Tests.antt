-- ===== src/Buckets/Tests.antt =====
-- The theorems about buckets on two drives.
use mini_minio.Prelude.{ℕ, ◌≡◌, refl, Bool, true, false, Option, none, some, List, [], ◌∷◌}
use mini_minio.Prelude.Text.{text_eq}
use mini_minio.Prelude.Errors.{Error, ok, err, not_found, bucket_exists}
use mini_minio.Sets.Pages.{IsAscending}
use mini_minio.Buckets.{BucketInfo, merge_bucket_infos, stat_bucket, get_bucket_info}
use mini_minio.Buckets.Merge.{names, created_of, merge_bucket_infos_lem}
use mini_minio.Buckets.Drives.{get_bucket_info_lem}

abbrev bucket : ℕ → ℕ → BucketInfo
bucket name created = record { name = name ∷ []; created = created }

abbrev lists : List (List BucketInfo)
lists = (bucket 98 5 ∷ bucket 97 4 ∷ []) ∷ (bucket 97 3 ∷ []) ∷ []

merge_bucket_infos_lem_example :
    IsAscending (names (merge_bucket_infos lists))
    × (created_of (97 ∷ []) (merge_bucket_infos lists) ≡ some 3)
unfolding text_eq
merge_bucket_infos_lem_example = merge_bucket_infos_lem (97 ∷ []) lists

-- A drive is whether it has the bucket.
abbrev make : Bool → Option Error × Bool
make false = (none, true)
make true = (some bucket_exists, true)

get_bucket_info_lem_example :
    get_bucket_info
      (97 ∷ [])
      (stat_bucket (λ k. none) 0 none (err not_found ∷ ok (bucket 97 3) ∷ []))
    ≡ ok (bucket 97 3)
get_bucket_info_lem_example =
    get_bucket_info_lem (λ k. none) (97 ∷ []) (err not_found ∷ ok (bucket 97 3) ∷ []) (λ k. refl)
