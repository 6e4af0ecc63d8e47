-- ===== src/Object/Put/Atomic.antt =====
-- PutObject as a whole: what it leaves of the metadata and of the shards on the drives.
use mini_minio.Prelude.{
  ℕ, ◌≤◌, ◌<◌, ◌≡◌, refl, ap, ap₂, ◌∙◌, ◌⊎◌, inl, inr, Bool, false, Option, none, some, List, [],
  ◌∷◌, map, length, leb,
}
use mini_minio.Prelude.Text.{Text}
use mini_minio.Prelude.Errors.{Error, Result, ok, err, is_nil, error_of, Result-cases}
use mini_minio.Erasure.{Geometry}
use mini_minio.Erasure.Coder.{Coder}
use mini_minio.Erasure.Encode.{Source}
use mini_minio.Object.Meta.{XlMeta, Api}
use mini_minio.Object.Commit.{cleanup_one, write_quorum_of}
use mini_minio.Object.Commit.Safe.{IsDrive, Commits, commit_meta_lem, write_quorum_of-pos}
use mini_minio.Object.Put.{ShardFiles, put_back, write_part, old_meta_of, new_meta, put_object}
use mini_minio.Object.Put.Stored.{IsStored, Held}
use mini_minio.Object.Put.Written.{AreShards, write_part-Held}
use mini_minio.Object.Placement.{hash_order}
use mini_minio.Erasure.Reader.{Bytes}
use mini_minio.Erasure.Encode.Ends.{IsEnd}
use mini_minio.Erasure.Encode.Durable.{columns}
use mini_minio.Object.Put.Part.{IsBeside, write_part-keep}

module _ {D W : Type 0} (api : Api D) (files : ShardFiles D W) (bucket object : Text)
    (drive : IsDrive api bucket object) (beside : IsBeside files drive.meta_of)
    (stored : IsStored files drive.data_of) where
  open drive use {meta_of}

  clean-keep :
      (t : Text) (ds : List D)
      → map meta_of (map (cleanup_one api bucket object t) ds) ≡ map meta_of ds
  unfolding cleanup_one
  clean-keep t [] = refl
  clean-keep t (d ∷ ds) = ap₂ (λ x xs. x ∷ xs) (drive.delete_keeps t d) (clean-keep t ds)

  by_value :
      (n : ℕ) (failure : Option Error)
      → let r : Result ℕ = elim failure [ some x ↦ err x | none ↦ ok n ] in
        (r ≡ ok n) ⊎ (is_nil (error_of r) ≡ false)
  by_value n none = inl refl
  by_value n (some x) = inr refl

  by_failure :
      (n : ℕ) (failure : Option Error) {b : Bool}
      → is_nil failure ≡ b
      → let r : Result ℕ = elim failure [ some x ↦ err x | none ↦ ok n ] in is_nil (error_of r) ≡ b
  by_failure n none h = h
  by_failure n (some x) h = h

  -- What PutObject leaves on the drives: the metadata of before everywhere and an error; or, where
  -- the source was taken to its end, the outcome of the commit of the new metadata on drives of
  -- which a write quorum, in the order of the object, hold whole shards of its data.
  pub data Outcome (e : Geometry) (data_dir : Text) (src : Source) (all : List (List Bytes))
      (nil_disk : D) (crc : ℕ) (meta : XlMeta) (drives drives' : List D) (r : Result ℕ)
      : Type 0 where
    not_committed :
        is_nil (error_of r) ≡ false
        → map meta_of drives' ≡ map meta_of drives
        → Outcome e data_dir src all nil_disk crc meta drives drives' r
    committed :
        (ordered written : List D) (k n : ℕ)
        → IsEnd src.fail
        → Held (drive.data_of data_dir) ordered (columns (length drives) all) k
        → write_quorum_of e.data_blocks e.parity_blocks ≤ k
        → written ≡ put_back nil_disk (hash_order crc (length drives)) ordered
        → map meta_of written ≡ map meta_of drives
        → Commits api bucket object drive meta 0 written drives' n
        → is_nil (error_of r) ≡ leb (write_quorum_of e.data_blocks e.parity_blocks) n
        → (r ≡ ok (length src.rest)) ⊎ (is_nil (error_of r) ≡ false)
        → Outcome e data_dir src all nil_disk crc meta drives drives' r

  -- PutObject with a positive number of data blocks and a buffer of at least a byte, where
  -- EncodeData gives a shard of each block of what the source delivers for each drive, on drives
  -- that keep their files, with the metadata beside the shard files, and whose files hold what was
  -- written where the writes and Close return no error: either it returns an error and no metadata
  -- has changed; or the source has ended in io.EOF or io.ErrUnexpectedEOF, a write quorum of the
  -- drives that were written hold their whole shards of all that it delivered, and each drive has
  -- the new metadata, of that size, with its index and its data as it was written, or its metadata
  -- of before; then the error is nil exactly when at least the write quorum of the drives has the
  -- new metadata, and the number returned without an error is the number of bytes that the source
  -- delivered.
  pub put_object_lem :
      (e : Geometry) (c : Coder) (content_type : Text) (ctx_err : ℕ → Option Error)
      (block crc now : ℕ) (data_dir etag : Text) (old : Result XlMeta) (nil_disk : D) (src : Source)
      (all : List (List Bytes)) (drives : List D)
      → 0 < e.data_blocks
      → 0 < block
      → AreShards e c block src.rest all (length drives)
      → let (r, drives') =
          put_object api files e c content_type bucket object ctx_err block crc now data_dir etag
            old nil_disk src drives in
        Outcome e data_dir src all nil_disk crc
          (new_meta e content_type bucket object data_dir etag now crc
            (length src.rest)
            (length drives))
          drives
          drives'
          r
  unfolding put_object
  put_object_lem e c content_type ctx_err block crc now data_dir etag old nil_disk src all drives
        pos some_room shards =
      let (r, written) =
        write_part files e c ctx_err bucket object data_dir 1 block crc nil_disk drives src in
      let kept =
        write_part-keep files meta_of beside e c ctx_err bucket object data_dir 1 block crc nil_disk
          drives src in
      elim (Result-cases r) [
        | inl (x, h) ↦ rw (h, put_object) (not_committed refl (clean-keep data_dir written ∙ kept))
        | inr (n, h) ↦ elim (Result-cases (old_meta_of old)) [
          | inl (x, h') ↦
              rw (h, put_object, h') (not_committed refl (clean-keep data_dir written ∙ kept))
          | inr (old_meta, h') ↦
              let ((size, ending), (ordered, (k, met, held), back)) =
                write_part-Held files drive.data_of stored e c ctx_err bucket object data_dir 1
                  block some_room src all crc n nil_disk drives shards h in
              let meta =
                new_meta e content_type bucket object data_dir etag now crc (length src.rest)
                  (length drives) in
              let quorum = write_quorum_of e.data_blocks e.parity_blocks in
              let (m, commits, exact) =
                commit_meta_lem api bucket object drive quorum old_meta meta written
                  (write_quorum_of-pos e.data_blocks e.parity_blocks pos) in
              rw (h ∙ ap ok size, put_object, h')
                (committed ordered written k m ending held met back kept commits
                  (by_failure _ _ exact) (by_value _ _))
        ]
      ]
