-- ===== src/Object/Meta/Tests.antt =====
-- The theorems about readMeta, with one drive that fails and one that answers.
use mini_minio.Prelude.{◌≡◌, refl, ◌⊎◌, List, [], ◌∷◌}
use mini_minio.Prelude.Errors.{Result, ok, err, short_write}
use mini_minio.Object.Meta.{XlMeta, read_meta}
use mini_minio.Object.Meta.Vote.{FirstRead, NoneRead, IsWinner, read_meta_lem}

abbrev new_meta : XlMeta
new_meta = record {
  name = 1 ∷ [];
  bucket = 2 ∷ [];
  size = 6;
  mod_time = 9;
  etag = 3 ∷ [];
  content_type = [];
  data_dir = 4 ∷ [];
  data_blocks = 1;
  parity_blocks = 1;
  block_size = 4;
  parts = [];
  disk_index = 0;
  distribution = 1 ∷ 2 ∷ [];
}

abbrev answers : List (Result XlMeta)
answers = err short_write ∷ ok new_meta ∷ []

answers-read : read_meta answers answers ≡ ok new_meta
unfolding read_meta
answers-read = refl

read_meta_lem_example : FirstRead new_meta answers ⊎ (NoneRead answers × IsWinner answers new_meta)
read_meta_lem_example = read_meta_lem answers answers answers-read
