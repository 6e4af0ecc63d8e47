-- ===== src/Object/Parts/Tests.antt =====
-- The theorems about the parts on an object of two parts.
use mini_minio.Prelude.{ℕ, zero, suc, ◌+◌, ◌≡◌, refl, Option, none, some, List, [], ◌∷◌, arith}
use mini_minio.Prelude.Slices.{slice}
use mini_minio.Prelude.Errors.{Error, ok}
use mini_minio.Erasure.Reader.{Bytes}
use mini_minio.Object.Meta.{ObjectPartInfo}
use mini_minio.Object.Parts.{decode_object, object_part_range}
use mini_minio.Object.Parts.Cover.{content_of, decode_object_lem, object_part_range_lem}

abbrev part : ℕ → ℕ → ObjectPartInfo
part number size = record {
  etag = [];
  number = number;
  size = size;
  actual_size = size;
  mod_time = 0;
}

abbrev parts : List ObjectPartInfo
parts = part 1 2 ∷ part 2 3 ∷ []

abbrev part_content : ℕ → Bytes
part_content zero = []
part_content (suc zero) = 5 ∷ 6 ∷ []
part_content (suc (suc n)) = 7 ∷ 8 ∷ 9 ∷ []

abbrev decode_part : (number offset len total : ℕ) → Bytes × Option Error
decode_part number offset len total = (slice offset (offset + len) (part_content number), none)

decode_object_lem_example :
    decode_object decode_part (λ n. none) parts 5 1 3 ≡ (6 ∷ 7 ∷ 8 ∷ [], none)
decode_object_lem_example =
    decode_object_lem decode_part (λ n. none) 5 1 3 parts ((5 ∷ 6 ∷ []) ∷ (7 ∷ 8 ∷ 9 ∷ []) ∷ [])
      (omega arith)
      (
        record { size = refl; ranges = λ offset len h. refl; closes = refl },
        (record { size = refl; ranges = λ offset len h. refl; closes = refl }, tt),
      )

part_2 : object_part_range 2 0 parts ≡ ok (2, 4, 3)
unfolding object_part_range
part_2 = refl

object_part_range_lem_example :
    (5 ≡ 2 + 3)
    × (some (7 ∷ 8 ∷ 9 ∷ []) ≡ content_of 2 parts ((5 ∷ 6 ∷ []) ∷ (7 ∷ 8 ∷ 9 ∷ []) ∷ []))
object_part_range_lem_example =
    object_part_range_lem 2 parts ((5 ∷ 6 ∷ []) ∷ (7 ∷ 8 ∷ 9 ∷ []) ∷ []) (refl, (refl, tt)) part_2
