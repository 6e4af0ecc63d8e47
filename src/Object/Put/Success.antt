-- ===== src/Object/Put/Success.antt =====
-- PutObject where nothing fails.
use mini_minio.Prelude.{
  ℕ, suc, ◌+◌, ◌≤◌, ◌<◌, ◌≡◌, refl, sym, ap, ◌∙◌, true, false, ltb, ◌==◌, Option, none, some, List,
  [], ◌∷◌, map, length, length-map, All, arith, if◌then◌else◌,
}
use mini_minio.Prelude.Text.{Text}
use mini_minio.Prelude.Errors.{Error, Result, ok, ◌>>=◌}
use mini_minio.Erasure.{Geometry}
use mini_minio.Erasure.Reader.{Bytes}
use mini_minio.Erasure.Coder.{Coder, encode_data}
use mini_minio.Erasure.Encode.{
  Slot, write_writer, write_slot, write_slots, mw_write, encode_block, encode,
}
use mini_minio.Erasure.Encode.Blocks.{
  write_blocks, object_blocks, stream, encode_result, encode_lem,
}
use mini_minio.Object.Meta.{XlMeta, Api}
use mini_minio.Object.Placement.{hash_order}
use mini_minio.Object.Placement.Rotation.{shuffle_disks-put_back, length-hash_order}
use mini_minio.Object.Commit.{flags, write_tmp, rename_one, write_quorum_of, commit_meta}
use mini_minio.Object.Put.{
  ShardFiles, opened, all_open, open_files, to_slots, close_files, write_ordered, write_part,
  old_meta_of, new_meta, put_object,
}

module _ {W : Type 0} (write : W → Bytes → Result ℕ × W)
    (writes : (w : W) (b : Bytes) → (write w b).0 ≡ ok (length b)) where
  write_slot_full :
      (w : W) (b : Bytes)
      → write_slot write (record { writer = some w; failure = none }) b
        ≡ (true, record { writer = some (write w b).1; failure = none })
  unfolding write_slot write_writer
  write_slot_full w b =
      let full : (length b == length b) ≡ true = ground arith in
      rw (writes w b, write_writer, full) refl

  write_slots_works :
      (ws : List W) (shards : List Bytes)
      → length shards ≡ length ws
      → (ws' : List W) × (write_slots write (to_slots ws) shards ≡ ok (length ws, to_slots ws'))
        × (length ws' ≡ length ws)
  unfolding write_slots
  write_slots_works [] [] h = ([], refl, refl)
  write_slots_works [] (b ∷ bs) h = absurd (omega arith)
  write_slots_works (w ∷ ws) [] h = absurd (omega arith)
  write_slots_works (w ∷ ws) (b ∷ bs) h =
      let (ws', done, count) = write_slots_works ws bs (omega arith) in
      (
        (write w b).1 ∷ ws',
        ap (λ r. r >>= next) done
            ∙ ap (λ p. ok (if p.0 then suc (length ws) else length ws, p.1 ∷ to_slots ws'))
                (write_slot_full w b),
        ap suc count,
      )
    where
      next : ℕ × List (Slot W) → Result (ℕ × List (Slot W))
      next r =
          let (done, s') = write_slot write (record { writer = some w; failure = none }) b in
          ok (if done then suc r.0 else r.0, s' ∷ r.1)

  module _ (quorum : ℕ) (e : Geometry) (c : Coder) where
    -- EncodeData gives a shard for each of `n` writers.
    abbrev pub IsEncoded : ℕ → Bytes → Type 0
    IsEncoded n b = (shards : List Bytes) × (encode_data e c b ≡ ok shards) × (length shards ≡ n)

    encode_block_works :
        (b : Bytes) (ws ws' : List W) (shards : List Bytes) (n : ℕ)
        → encode_data e c b ≡ ok shards
        → write_slots write (to_slots ws) shards ≡ ok (n, to_slots ws')
        → ltb n quorum ≡ false
        → encode_block write quorum e c (to_slots ws) b ≡ (none, to_slots ws')
    unfolding encode_block mw_write
    encode_block_works b ws ws' shards n enc done met =
        rw (enc, encode_block) (rw (done, mw_write) (rw met refl))

    write_blocks_works :
        (n : ℕ) (bs : List Bytes) (ws : List W)
        → quorum ≤ n
        → length ws ≡ n
        → All (IsEncoded n) bs
        → (ws' : List W) × (write_blocks write quorum e c (to_slots ws) bs ≡ (none, to_slots ws'))
    unfolding write_blocks
    write_blocks_works n [] ws enough count h = (ws, refl)
    write_blocks_works n (b ∷ bs) ws enough count ((shards, enc, each), h) =
        let (ws', done, count') = write_slots_works ws shards (each ∙ sym count) in
        let met : ltb (length ws) quorum ≡ false = ground arith in
        let (ws'', rest) = write_blocks_works n bs ws' enough (count' ∙ count) h in
        let one = encode_block_works b ws ws' shards (length ws) enc done met in
        (ws'', rw (ap (λ p. p.0) one, write_blocks, ap (λ p. p.1) one) rest)

-- Every operation on the drives succeeds.
pub record Works {D W : Type 0} (api : Api D) (files : ShardFiles D W) (bucket object : Text)
    : Type 0 where
  pub creates :
      (data_dir : Text) (part : ℕ) (d : D)
      → (w : W) × (files.create bucket object data_dir part d ≡ opened w)
  pub writes : (w : W) (b : Bytes) → (files.write w b).0 ≡ ok (length b)
  pub closes : (w : W) → (files.close w).0 ≡ none
  pub metas : (m : XlMeta) (d : D) → (api.write_meta_tmp bucket object m d).0 ≡ none
  pub renames : (d : D) → (api.rename_meta bucket object d).0 ≡ none

module _ {D W : Type 0} (api : Api D) (files : ShardFiles D W) (bucket object : Text)
    (works : Works api files bucket object) where
  open_files_works :
      (data_dir : Text) (part : ℕ) (ds : List D)
      → (ws : List W) × (open_files files (files.create bucket object data_dir part) ds
          ≡ all_open ws)
        × (length ws ≡ length ds)
  unfolding open_files
  open_files_works data_dir part [] = ([], refl, refl)
  open_files_works data_dir part (d ∷ ds) =
      let (ws, rest, count) = open_files_works data_dir part ds in
      let (w, first) = works.creates data_dir part d in
      (w ∷ ws, rw (first, open_files, rest) refl, ap suc count)

  close_files_works :
      (ws : List W)
      → ((close_files files (to_slots ws)).0 ≡ none)
        × (length (close_files files (to_slots ws)).1 ≡ length ws)
  unfolding close_files
  close_files_works [] = (refl, refl)
  close_files_works (w ∷ ws) =
      let (fine, count) = close_files_works ws in (rw (works.closes w) fine, ap suc count)

  flags-write_tmp :
      (m : XlMeta) (idx : ℕ) (ds : List D)
      → flags (write_tmp api bucket object m idx ds) ≡ length ds
  unfolding write_tmp
  flags-write_tmp m idx [] = refl
  flags-write_tmp m idx (d ∷ ds) =
      rw (works.metas (record m { disk_index = idx }) d) (ap suc (flags-write_tmp m (idx + 1) ds))

  flags-rename :
      (m : XlMeta) (idx : ℕ) (ds : List D)
      → flags (map (rename_one api bucket object) (write_tmp api bucket object m idx ds))
        ≡ length ds
  unfolding write_tmp rename_one
  flags-rename m idx [] = refl
  flags-rename m idx (d ∷ ds) =
      let m' = record m { disk_index = idx } in
      rw (works.metas m' d) (
        rw (works.renames (api.write_meta_tmp bucket object m' d).1)
          (ap suc (flags-rename m (idx + 1) ds)))

  commit_meta_works :
      (quorum : ℕ) (old : Option XlMeta) (m : XlMeta) (ds : List D)
      → quorum ≤ length ds
      → (commit_meta api bucket object quorum old m ds).0 ≡ none
  unfolding commit_meta
  commit_meta_works quorum old m ds enough =
      let all : ltb (length ds) quorum ≡ false = ground arith in
      rw (flags-write_tmp m 0 ds, commit_meta, all, flags-rename m 0 ds) (rw all refl)

  module _ (e : Geometry) (c : Coder) (ctx_err : ℕ → Option Error)
      (alive : (i : ℕ) → ctx_err i ≡ none) (block : ℕ) (pos : 0 < block) (d : Bytes)
      (data_dir : Text) (part n : ℕ) (enough : write_quorum_of e.data_blocks e.parity_blocks ≤ n)
      (encoded : All
        (IsEncoded files.write works.writes (write_quorum_of e.data_blocks e.parity_blocks) e c n)
        (object_blocks block d)) where
    write_ordered_works :
        (ordered : List D)
        → length ordered ≡ n
        → (write_ordered files e c ctx_err bucket object data_dir part block ordered (stream d)).0
          ≡ ok (length d)
    unfolding write_ordered
    write_ordered_works ordered count =
        let quorum = write_quorum_of e.data_blocks e.parity_blocks in
        let (ws, all, size) = open_files_works data_dir part ordered in
        let (ws', done) =
          write_blocks_works files.write works.writes quorum e c n (object_blocks block d) ws enough
            (size ∙ count) encoded in
        let whole : encode files.write quorum e c ctx_err block (stream d) (to_slots ws)
            ≡ (ok (length d), to_slots ws') =
          encode_lem files.write quorum e c ctx_err alive block pos d (to_slots ws)
          ∙ ap (encode_result (length d)) done in
        rw (all, write_ordered, ap (λ p. p.0) whole, ap (λ p. p.1) whole, (close_files_works ws').0)
          refl

    write_part_works :
        (crc : ℕ) (nil_disk : D) (drives : List D)
        → length drives ≡ n
        → let (r, drives') =
            write_part files e c ctx_err bucket object data_dir part block crc nil_disk drives
              (stream d) in
          (r ≡ ok (length d)) × (length drives' ≡ n)
    unfolding write_part
    write_part_works crc nil_disk drives count =
        let (ordered, shuffled, size, back) = shuffle_disks-put_back nil_disk drives crc in
        rw (shuffled, write_part)
          (
            write_ordered_works ordered (size ∙ count),
            length-map (hash_order crc (length drives)) _
                ∙ length-hash_order crc (length drives)
                ∙ count,
          )

  -- If every create, write, Close, write and rename of metadata on the drives succeeds, the
  -- context is not cancelled, the old metadata was read or is missing, EncodeData gives a shard
  -- for each drive for each block of the object, and the drives are at least the write quorum,
  -- PutObject succeeds and returns the number of bytes of the object.
  pub put_object_succeeds :
      (e : Geometry) (c : Coder) (content_type : Text) (ctx_err : ℕ → Option Error)
      (block crc now : ℕ) (data_dir etag : Text) (old : Result XlMeta) (old_meta : Option XlMeta)
      (nil_disk : D) (d : Bytes) (drives : List D)
      → ((i : ℕ) → ctx_err i ≡ none)
      → 0 < block
      → old_meta_of old ≡ ok old_meta
      → write_quorum_of e.data_blocks e.parity_blocks ≤ length drives
      → All
          (IsEncoded files.write works.writes
            (write_quorum_of e.data_blocks e.parity_blocks)
            e
            c
            (length drives))
          (object_blocks block d)
      → (put_object api files e c content_type bucket object ctx_err block crc now data_dir etag old
          nil_disk
          (stream d)
          drives).0
        ≡ ok (length d)
  unfolding put_object
  put_object_succeeds e c content_type ctx_err block crc now data_dir etag old old_meta nil_disk d
        drives alive pos h enough encoded =
      let quorum = write_quorum_of e.data_blocks e.parity_blocks in
      let (done, count) =
        write_part_works e c ctx_err alive block pos d data_dir 1 (length drives) enough encoded crc
          nil_disk drives refl in
      let written =
        (write_part files e c ctx_err bucket object data_dir 1 block crc nil_disk drives
          (stream d)).1 in
      let meta =
        new_meta e content_type bucket object data_dir etag now crc (length d) (length drives) in
      rw
        (
          done,
          put_object,
          h,
          commit_meta_works quorum old_meta meta written (ground (arith, count, enough)),
        )
        refl
