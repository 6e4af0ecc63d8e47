-- ===== src/Object/Put/Tests.antt =====
-- PutObject on two drives in memory.
use mini_minio.Prelude.{
  ◌≡◌, refl, subst, Bool-cases, inl, inr, true, false, none, List, [], ◌∷◌, ◌++◌, length, arith,
  if◌then◌else◌,
}
use mini_minio.Prelude.Text.{Text, text_eq, text_eq_refl}
use mini_minio.Prelude.Errors.{ok, err, short_write, object_not_found}
use mini_minio.Erasure.Reader.{Bytes}
use mini_minio.Erasure.Mirror.{mirror_geometry, mirror}
use mini_minio.Object.Commit.{write_quorum_of}
use mini_minio.Object.Put.{Creation, opened, ShardFiles, new_meta, put_object}
use mini_minio.Object.Put.Success.{Works, put_object_succeeds}
use mini_minio.Erasure.Encode.Blocks.{stream, blocks_of}
use mini_minio.Object.Meta.{Api}
use mini_minio.Object.Put.Stored.{IsStored}
use mini_minio.Object.Put.Part.{IsBeside}
use mini_minio.Object.Put.Atomic.{Outcome, put_object_lem}
use mini_minio.Object.Memory.{Drive, api, api-IsDrive, drive}

-- The directory of the open file, and the drive.
abbrev Open : Type 0
Open = Text × Drive

abbrev append_file : Open → Bytes → Drive
append_file w b = record w.1 {
  files = λ u. if text_eq u w.0 then w.1.files u ++ b else w.1.files u;
}

abbrev files : ShardFiles Drive Open
files = record {
  create = λ bucket object data_dir part d.
      opened (data_dir, record d { files = λ u. if text_eq u data_dir then [] else d.files u });
  write =
      λ w b. if w.1.broken then (err short_write, w) else (ok (length b), (w.0, append_file w b));
  close = λ w. (none, w.1);
}

files-IsBeside : IsBeside files api-IsDrive.meta_of
unfolding api-IsDrive
files-IsBeside = record {
  held = λ w. w.1.meta;
  create_keeps = λ bucket object data_dir part d. refl;
  write_keeps = λ w b. elim (Bool-cases w.1.broken) [ inl t ↦ rw t refl | inr f ↦ rw f refl ];
  close_keeps = λ w. refl;
}

abbrev truncated : Text → Drive → Drive
truncated data_dir d = record d { files = λ u. if text_eq u data_dir then [] else d.files u }

new_file :
    (data_dir : Text) (d : Drive) (w : Open)
    → ◌≡◌ {A = Creation Drive Open} (opened (data_dir, truncated data_dir d)) (opened w)
    → (w.1.files w.0 ≡ []) × (w.0 ≡ data_dir)
new_file data_dir d w h =
    let same : ◌≡◌ {A = Open} (data_dir, truncated data_dir d) w = ground (arith, h) in
    subst (λ (v : Open). (v.1.files v.0 ≡ []) × (v.0 ≡ data_dir)) same
      (rw (text_eq_refl data_dir) refl, refl)

files-IsStored : IsStored files api-IsDrive.data_of
unfolding api-IsDrive
files-IsStored = record {
  content = λ w. w.1.files w.0;
  dir_of = λ w. w.0;
  opens = λ bucket object data_dir part d w h. new_file data_dir d w h;
  appends = λ w b h. elim (Bool-cases w.1.broken) [
    | inl t ↦ absurd (ground (arith, h, t))
    | inr f ↦ rw f (rw (text_eq_refl w.0) refl)
  ];
  same_dir = λ w b. elim (Bool-cases w.1.broken) [ inl t ↦ rw t refl | inr f ↦ rw f refl ];
  closed = λ w h. refl;
}

abbrev drives : List Drive
drives = drive false ∷ drive false ∷ []

abbrev content : Bytes
content = 7 ∷ 8 ∷ 9 ∷ []

put_object_lem_example :
    let (r, drives') =
      put_object api files mirror_geometry mirror []
        (2 ∷ [])
        (1 ∷ [])
        (λ i. none)
        4
        10
        9
        (4 ∷ [])
        (3 ∷ [])
        (err object_not_found)
        (drive true)
        (stream content)
        drives in
    Outcome api files
      (2 ∷ [])
      (1 ∷ [])
      api-IsDrive
      files-IsBeside
      files-IsStored
      mirror_geometry
      (4 ∷ [])
      (stream content)
      ((content ∷ content ∷ []) ∷ [])
      (drive true)
      10
      (new_meta mirror_geometry [] (2 ∷ []) (1 ∷ []) (4 ∷ []) (3 ∷ []) 9 10 3 2)
      drives
      drives'
      r
unfolding blocks_of
put_object_lem_example =
    put_object_lem api files (2 ∷ []) (1 ∷ []) api-IsDrive files-IsBeside files-IsStored
      mirror_geometry mirror [] (λ i. none) 4 10 9 (4 ∷ []) (3 ∷ []) (err object_not_found)
      (drive true) (stream content) ((content ∷ content ∷ []) ∷ []) drives (omega arith)
      (omega arith) ((refl, refl), tt)

-- A drive on which nothing fails.
abbrev plain_api : Api Bytes
plain_api = record {
  write_meta_tmp = λ bucket object m d. (none, d);
  rename_meta = λ bucket object d. (none, d);
  read_meta = λ bucket object d. err object_not_found;
  delete_object_data = λ bucket object t d. (none, d);
  delete_object = λ bucket object d. (none, d);
}

abbrev plain_files : ShardFiles Bytes Bytes
plain_files = record {
  create = λ bucket object data_dir part d. opened d;
  write = λ w b. (ok (length b), w ++ b);
  close = λ w. (none, w);
}

plain-Works : Works plain_api plain_files (2 ∷ []) (1 ∷ [])
plain-Works = record {
  creates = λ data_dir part d. (d, refl);
  writes = λ w b. refl;
  closes = λ w. refl;
  metas = λ m d. refl;
  renames = λ d. refl;
}

put_object_succeeds_example :
    (put_object plain_api plain_files mirror_geometry mirror []
      (2 ∷ [])
      (1 ∷ [])
      (λ i. none)
      4
      10
      9
      (4 ∷ [])
      (3 ∷ [])
      (err object_not_found)
      []
      (stream content)
      ([] ∷ [] ∷ [])).0
    ≡ ok 3
unfolding write_quorum_of blocks_of
put_object_succeeds_example =
    put_object_succeeds plain_api plain_files (2 ∷ []) (1 ∷ []) plain-Works mirror_geometry mirror
      [] (λ i. none) 4 10 9 (4 ∷ []) (3 ∷ []) (err object_not_found) none [] content ([] ∷ [] ∷ [])
      (λ i. refl) (omega arith) refl (omega arith) ((content ∷ content ∷ [], refl, refl), tt)
