-- ===== src/Object/Get/Tests.antt =====
-- The last two bytes of an object of two parts.
use mini_minio.Prelude.{ℕ, zero, suc, ◌+◌, ◌≡◌, refl, Option, none, some, [], ◌∷◌, arith}
use mini_minio.Prelude.Slices.{slice}
use mini_minio.Prelude.Errors.{Error, ok}
use mini_minio.Erasure.Reader.{Bytes}
use mini_minio.Object.Meta.{XlMeta, ObjectPartInfo}
use mini_minio.Object.Range.Requests.{last_bytes}
use mini_minio.Object.Get.{get_object_n_info}
use mini_minio.Object.Get.Body.{spec_of?, info_of, get_object_n_info_lem}

abbrev part : ℕ → ℕ → ObjectPartInfo
part number size = record {
  etag = [];
  number = number;
  size = size;
  actual_size = size;
  mod_time = 0;
}

abbrev meta : XlMeta
meta = record {
  name = 1 ∷ [];
  bucket = 2 ∷ [];
  size = 5;
  mod_time = 9;
  etag = [];
  content_type = [];
  data_dir = 4 ∷ [];
  data_blocks = 1;
  parity_blocks = 1;
  block_size = 4;
  parts = part 1 2 ∷ part 2 3 ∷ [];
  disk_index = 0;
  distribution = 1 ∷ 2 ∷ [];
}

abbrev part_content : ℕ → Bytes
part_content zero = []
part_content (suc zero) = 5 ∷ 6 ∷ []
part_content (suc (suc n)) = 7 ∷ 8 ∷ 9 ∷ []

abbrev decode_part : (number offset len total : ℕ) → Bytes × Option Error
decode_part number offset len total = (slice offset (offset + len) (part_content number), none)

get_object_n_info_lem_example :
    get_object_n_info decode_part
      (λ n. none)
      (2 ∷ [])
      (1 ∷ [])
      (ok meta)
      (spec_of? (some (last_bytes 2)))
    ≡ ok (info_of (2 ∷ []) (1 ∷ []) meta, (8 ∷ 9 ∷ [], none))
get_object_n_info_lem_example =
    get_object_n_info_lem decode_part (λ n. none) (2 ∷ []) (1 ∷ []) meta
      ((5 ∷ 6 ∷ []) ∷ (7 ∷ 8 ∷ 9 ∷ []) ∷ []) (some (last_bytes 2)) (omega arith)
      (
        record { size = refl; ranges = λ offset len h. refl; closes = refl },
        (record { size = refl; ranges = λ offset len h. refl; closes = refl }, tt),
      )
      refl
