-- ===== src/Object/Put.antt =====
-- writePart and PutObject (cmd/erasure-object.go). A drive is a value that the operations change;
-- a shard writer that was opened on a drive holds that drive until it is closed, and stands for the
-- buffered writer (module Writer) in front of the drive's file. A drive that is shuffled to another
-- place is the same drive, so it is put back to its own place after the writes.
pub mod Keep
pub mod Atomic
pub mod Part
pub mod Stored
pub mod Written
pub mod Success
mod Tests
use mini_minio.Prelude.{
  ℕ, zero, suc, ◌+◌, ◌-◌, Bool, true, false, Option, none, some, List, [], ◌∷◌, ◌++◌, map, length,
  get_or, if◌then◌else◌,
}
use mini_minio.Prelude.Text.{Text}
use mini_minio.Prelude.Errors.{Error, Result, ok, err, object_not_found}
use mini_minio.Erasure.{Geometry, shard_file_size, default_block_size}
use mini_minio.Erasure.Reader.{Bytes}
use mini_minio.Erasure.Coder.{Coder}
use mini_minio.Erasure.Encode.{Source, Slot, encode}
use mini_minio.Object.Placement.{hash_order, shuffle_disks}
use mini_minio.Object.Meta.{XlMeta, Api, ObjectPartInfo}
use mini_minio.Object.Commit.{write_quorum_of, cleanup_one, commit_meta}

-- What CreateShardFile gives: an open writer, or an error and the drive.
pub data Creation (D W : Type 0) : Type 0 where
  opened : W → Creation D W
  refused : Error → D → Creation D W

-- The shard files of `storage.API`: CreateShardFile, and Write and Close of what it opens.
pub record ShardFiles (D W : Type 0) : Type 0 where
  pub create : (bucket object data_dir : Text) (part : ℕ) → D → Creation D W
  pub write : W → Bytes → Result ℕ × W
  pub close : W → Option Error × D

-- What the first loop of writePart leaves.
pub data Opened (D W : Type 0) : Type 0 where
  all_open : List W → Opened D W
  open_failed : Error → List D → Opened D W

abbrev pub to_slots : {W : Type 0} → List W → List (Slot W)
to_slots [] = []
to_slots (w ∷ ws) = record { writer = some w; failure = none } ∷ to_slots ws

-- Each drive is put back to its place.
abbrev pub put_back : {D : Type 0} → D → List ℕ → List D → List D
put_back nil_disk distribution ordered = map (λ b. get_or ordered (b - 1) nil_disk) distribution

module _ {D W : Type 0} (files : ShardFiles D W) where
  -- The loop that creates the shard files; after a failure the open files are closed.
  pub open_files : (D → Creation D W) → List D → Opened D W
  open_files create [] = all_open []
  open_files create (d ∷ ds) =
      let rest = open_files create ds in
      elim (create d) [
        | refused e d' ↦ open_failed e (d' ∷ ds)
        | opened w ↦ elim rest [
          | all_open ws ↦ all_open (w ∷ ws)
          | open_failed e ds' ↦ open_failed e ((files.close w).1 ∷ ds')
        ]
      ]

  -- The loop that closes the files, with the first error.
  pub close_files : List (Slot W) → Option Error × List D
  close_files [] = (none, [])
  close_files (s ∷ ss) =
      let (later, ds) = close_files ss in
      elim s.writer [
        | none ↦ (later, ds)
        | some w ↦
            let (failure, d) = files.close w in
            (elim failure [ some e ↦ some e | none ↦ later ], d ∷ ds)
      ]

  module _ (e : Geometry) (c : Coder) (ctx_err : ℕ → Option Error) (bucket object data_dir : Text)
      (part : ℕ) where
    -- writePart on the drives in their order, with the write quorum of the set and a buffer of
    -- `erasure.BlockSize` bytes.
    pub write_ordered : (block : ℕ) → List D → Source → Result ℕ × List D
    write_ordered block ordered src =
        elim (open_files (files.create bucket object data_dir part) ordered) [
          | open_failed x ds ↦ (err x, ds)
          | all_open ws ↦
              let quorum = write_quorum_of e.data_blocks e.parity_blocks in
              let (r, slots) = encode files.write quorum e c ctx_err block src (to_slots ws) in
              let (closed, ds) = close_files slots in
              (elim r [ err x ↦ err x | ok n ↦ elim closed [ some x ↦ err x | none ↦ ok n ] ], ds)
        ]

    -- writePart; `crc` is the checksum of the object's name.
    pub write_part : (block crc : ℕ) → D → List D → Source → Result ℕ × List D
    write_part block crc nil_disk drives src =
        let distribution = hash_order crc (length drives) in
        elim (shuffle_disks nil_disk drives distribution) [
          | err x ↦ (err x, drives)
          | ok ordered ↦
              let (r, ordered') = write_ordered block ordered src in
              (r, put_back nil_disk distribution ordered')
        ]

-- `errors.Is(err, ErrObjectNotFound)` for a missing object, or the old metadata.
abbrev pub old_meta_of : Result XlMeta → Result (Option XlMeta)
old_meta_of (ok m) = ok (some m)
old_meta_of (err object_not_found) = ok none
old_meta_of (err e) = err e

-- The metadata of an object that is written at once.
abbrev pub new_meta :
    Geometry → (content_type bucket object data_dir etag : Text) (now crc n count : ℕ) → XlMeta
new_meta e content_type bucket object data_dir etag now crc n count = record {
  name = object;
  bucket = bucket;
  size = n;
  mod_time = now;
  etag = etag;
  content_type = content_type;
  data_dir = data_dir;
  data_blocks = e.data_blocks;
  parity_blocks = e.parity_blocks;
  block_size = default_block_size;
  parts =
      record { etag = []; number = 1; size = shard_file_size e n; actual_size = n; mod_time = 0 }
      ∷ [];
  disk_index = 0;
  distribution = hash_order crc count;
}

-- `content_type` is what every object gets: application/octet-stream.
module _ {D W : Type 0} (api : Api D) (files : ShardFiles D W) (e : Geometry) (c : Coder)
    (content_type : Text) (bucket object : Text) where
  -- PutObject behind its lock. `data_dir` is the new identifier, `old` what readMeta returns beside
  -- the writing, `etag` the digest of what was read, and `now` the time.
  pub put_object :
      (ctx_err : ℕ → Option Error) (block crc now : ℕ) (data_dir etag : Text) (old : Result XlMeta)
      (nil_disk : D)
      → Source
      → List D
      → Result ℕ × List D
  put_object ctx_err block crc now data_dir etag old nil_disk src drives =
      let (r, written) =
        write_part files e c ctx_err bucket object data_dir 1 block crc nil_disk drives src in
      let cleaned = map (cleanup_one api bucket object data_dir) written in
      elim r [
        | err x ↦ (err x, cleaned)
        | ok n ↦ elim (old_meta_of old) [
          | err x ↦ (err x, cleaned)
          | ok old_meta ↦
              let quorum = write_quorum_of e.data_blocks e.parity_blocks in
              let meta =
                new_meta e content_type bucket object data_dir etag now crc n (length drives) in
              let (failure, drives') = commit_meta api bucket object quorum old_meta meta written in
              (elim failure [ some x ↦ err x | none ↦ ok n ], drives')
        ]
      ]
