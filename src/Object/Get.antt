-- ===== src/Object/Get.antt =====
-- GetObjectInfo, GetObjectNInfo, openShardReaders and closeShardReaders of cmd/erasure-object.go.
-- The pipe is read to its end, so the body is the bytes that decodeObject writes and its error.
pub mod Body
mod Tests
use mini_minio.Prelude.{
  ℕ, ◌+◌, ◌-◌, ◌==◌, if◌then◌else◌, Bool, true, false, Option, none, some, List, [], ◌∷◌, map,
  length,
}
use mini_minio.Prelude.Int.{ℤ, pos, negsuc}
use mini_minio.Prelude.Text.{Text}
use mini_minio.Prelude.Errors.{Error, Result, ok, err, ◌>>=◌, join}
use mini_minio.Erasure.Reader.{Bytes}
use mini_minio.Object.Placement.{hash_order, shuffle_disks}
use mini_minio.Object.Meta.{XlMeta, ObjectPartInfo}
use mini_minio.Object.Parts.{decode_object}
use mini_minio.Object.Range.{RangeSpec, get_offset_length}

-- `ObjectInfo`, the fields that are set.
pub record ObjectInfo : Type 0 where
  pub bucket : Text
  pub name : Text
  pub size : ℕ
  pub mod_time : ℕ
  pub etag : Text
  pub content_type : Text
  pub parts : List ObjectPartInfo

-- GetObjectInfo, from what readMeta returns.
unfoldable pub get_object_info : (bucket object : Text) → Result XlMeta → Result ObjectInfo
get_object_info bucket object found = found >>= λ meta. ok (record {
  bucket = bucket;
  name = object;
  size = meta.size;
  mod_time = meta.mod_time;
  etag = meta.etag;
  content_type = meta.content_type;
  parts = meta.parts;
})

-- `dist` of decodeObject: the metadata's distribution, or that of the name.
abbrev pub distribution_of : (crc count : ℕ) → XlMeta → List ℕ
distribution_of crc count meta =
    if length meta.distribution == 0 then hash_order crc count else meta.distribution

module _ {D R : Type 0}
    (read_shard_file : (bucket object data_dir : Text) (part : ℕ) → D → Result R)
    (nil_disk : D) where
  -- One round of the loop of openShardReaders: a drive that does not open the file gives nil.
  abbrev pub reader_of : Result R → Option R
  reader_of (ok reader) = some reader
  reader_of (err e) = none

  -- openShardReaders; the closers are the readers.
  unfoldable pub open_shard_readers :
      (bucket object data_dir : Text) (part : ℕ) (distribution : List ℕ)
      → List D
      → Result (List (Option R))
  open_shard_readers bucket object data_dir part distribution drives =
      shuffle_disks nil_disk drives distribution >>= λ ordered.
      ok (map (λ d. reader_of (read_shard_file bucket object data_dir part d)) ordered)

-- closeShardReaders: the errors of all Close calls, joined in their order.
unfoldable pub close_shard_readers :
    {R : Type 0} → (R → Option Error) → Option Error → List (Option R) → Option Error
close_shard_readers close close_err [] = close_err
close_shard_readers close close_err (none ∷ closers) = close_shard_readers close close_err closers
close_shard_readers close close_err (some r ∷ closers) =
    close_shard_readers close (join close_err (close r)) closers

-- `int64` values as offsets: what GetOffsetLength returns for a range that parseRangeSpec has read is
-- not negative.
abbrev pub to_ℕ : ℤ → ℕ
to_ℕ (pos n) = n
to_ℕ (negsuc n) = 0

-- `offset, length` of GetObjectNInfo.
abbrev pub range_of : Option RangeSpec → (size : ℕ) → Result (ℤ × ℤ)
range_of none size = ok (pos 0, pos size)
range_of (some rs) size = get_offset_length rs size

-- GetObjectNInfo: the information and the body, for `decode_part` and `close_part` of the readers
-- that are opened for a part.
unfoldable pub get_object_n_info :
    (decode_part : (number offset len total : ℕ) → Bytes × Option Error)
    (close_part : ℕ → Option Error) (bucket object : Text)
    → Result XlMeta
    → Option RangeSpec
    → Result (ObjectInfo × (Bytes × Option Error))
get_object_n_info decode_part close_part bucket object found rs = found >>= λ meta.
    range_of rs meta.size >>= λ range.
    let info : ObjectInfo = record {
      bucket = bucket;
      name = object;
      size = meta.size;
      mod_time = meta.mod_time;
      etag = meta.etag;
      content_type = meta.content_type;
      parts = [];
    } in
    ok (
      info,
      decode_object decode_part close_part meta.parts meta.size (to_ℕ range.0) (to_ℕ range.1),
    )
