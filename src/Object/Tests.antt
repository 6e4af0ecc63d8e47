-- ===== src/Object/Tests.antt =====
-- The theorems about the object layer on small inputs.
use mini_minio.Prelude.{
  ℕ, ◌≡◌, ◌≢◌, true, false, none, some, List, [], ◌∷◌, length, arith, get_elem?, leb,
}
use mini_minio.Prelude.Errors.{ok, is_nil}
use mini_minio.Object.Meta.{XlMeta}
use mini_minio.Object.Placement.{shuffle_disks, hash_order}
use mini_minio.Object.Placement.Rotation.{shuffle_disks_lem}
use mini_minio.Object.Commit.{commit_meta}
use mini_minio.Object.Commit.Safe.{Commits, commit_meta_lem}
use mini_minio.Object.Memory.{api, api-IsDrive, drive}

abbrev new_meta : XlMeta
new_meta = record {
  name = 1 ∷ [];
  bucket = 2 ∷ [];
  size = 6;
  mod_time = 9;
  etag = 3 ∷ [];
  content_type = [];
  data_dir = 4 ∷ [];
  data_blocks = 1;
  parity_blocks = 1;
  block_size = 4;
  parts = [];
  disk_index = 0;
  distribution = 1 ∷ 2 ∷ [];
}

commit_meta_lem_example :
    let r =
      commit_meta api
        (2 ∷ [])
        (1 ∷ [])
        2
        none
        new_meta
        (drive false ∷ drive true ∷ drive false ∷ []) in
    (n : ℕ) × Commits api
      (2 ∷ [])
      (1 ∷ [])
      api-IsDrive
      new_meta
      0
      (drive false ∷ drive true ∷ drive false ∷ [])
      r.1
      n
    × (is_nil r.0 ≡ leb 2 n)
commit_meta_lem_example =
    commit_meta_lem api (2 ∷ []) (1 ∷ []) api-IsDrive 2 none new_meta
      (drive false ∷ drive true ∷ drive false ∷ []) (omega arith)

shuffle_disks_lem_example :
    (shuffled : List ℕ) × (shuffle_disks 0 (5 ∷ 6 ∷ 7 ∷ []) (hash_order 10 3) ≡ ok shuffled)
    × (length shuffled ≡ 3)
    × (get_elem? shuffled 1 ≡ some 7)
    × (◌≢◌ {A = ℕ} 2 1)
shuffle_disks_lem_example =
    shuffle_disks_lem 0 (5 ∷ 6 ∷ 7 ∷ []) 10 0 2 (omega arith) (omega arith) (omega arith)
      (λ e. absurd (omega arith))
