-- ===== src/Multipart.antt =====
-- Multipart uploads of cmd/erasure-object.go. An upload keeps its state and the record of each part
-- as JSON files on every drive; JSON, strconv and MD5 are the standard library's, and parameters.
-- The goroutines of a phase work each on a drive of its own, so a phase is a map over the drives.
pub mod Files
pub mod Complete
pub mod Undone
pub mod Memory
mod Tests
use mini_minio.Prelude.{
  ℕ, zero, suc, ◌+◌, ◌-◌, ◌*◌, ◌/◌, ◌%◌, Bool, true, false, not, ◌&&◌, ◌||◌, Option, none, some,
  List, [], ◌∷◌, ◌++◌, map, length, ltb, leb, ◌==◌, if◌then◌else◌,
}
use mini_minio.Prelude.Text.{Text, text_eq}
use mini_minio.Prelude.Errors.{
  Error, Result, ok, err, ◌>>=◌, is_nil, unless, quorum_not_met, invalid_part, duplicate_part,
  no_parts, invalid_upload, upload_not_found,
}
use mini_minio.Hash.{decode_hex, print_hex}
use mini_minio.Erasure.{Geometry, shard_file_size, default_block_size}
use mini_minio.Erasure.Reader.{Bytes}
use mini_minio.Erasure.Coder.{Coder}
use mini_minio.Erasure.Encode.{Source}
use mini_minio.Object.Placement.{hash_order}
use mini_minio.Object.Meta.{XlMeta, Api, ObjectPartInfo, read_meta}
use mini_minio.Object.Commit.{write_quorum_of, cleanup_one, commit_meta}
use mini_minio.Object.Put.{ShardFiles, write_part, old_meta_of}

pub record MultipartState : Type 0 where
  pub bucket : Text
  pub object : Text
  pub data_dir : Text

-- What the standard library gives: JSON, `strconv.Itoa` and MD5.
pub record Formats : Type 0 where
  pub print_state : MultipartState → Bytes
  pub parse_state : Bytes → Result MultipartState
  pub print_part : ObjectPartInfo → Bytes
  pub parse_part : Bytes → Result ObjectPartInfo
  pub itoa : ℕ → Text
  pub md5 : Bytes → Bytes

-- The files of an upload on a drive: WriteUploadMeta, ReadUploadMeta and DeleteUpload of
-- `storage.API`.
pub record UploadApi (D : Type 0) : Type 0 where
  pub write_upload_meta : (bucket object upload_id name : Text) → Bytes → D → Option Error × D
  pub read_upload_meta : (bucket object upload_id name : Text) → D → Result Bytes
  pub delete_upload : (bucket object upload_id : Text) → D → Option Error × D

-- The errors of a phase and the drives after it.
unfoldable pub on_all :
    {D : Type 0} → (D → Option Error × D) → List D → List (Option Error) × List D
on_all op [] = ([], [])
on_all op (d ∷ ds) =
    let (failure, d') = op d in let (failures, ds') = on_all op ds in (failure ∷ failures, d' ∷ ds')

abbrev pub successes : List (Option Error) → ℕ
successes [] = 0
successes (e ∷ es) = if is_nil e then suc (successes es) else successes es

-- checkWriteQuorum
unfoldable pub check_write_quorum : Geometry → List (Option Error) → Option Error
check_write_quorum e failures =
    if ltb (successes failures) (write_quorum_of e.data_blocks e.parity_blocks)
    then some quorum_not_met
    else none

-- "state"
abbrev pub state_name : Text
state_name = 115 ∷ 116 ∷ 97 ∷ 116 ∷ 101 ∷ []

-- "part-"
abbrev pub part_prefix : Text
part_prefix = 112 ∷ 97 ∷ 114 ∷ 116 ∷ 45 ∷ []

abbrev pub multipart_part_name : Formats → ℕ → Text
multipart_part_name formats number = part_prefix ++ formats.itoa number

-- What multipartETag writes to the hash.
pub decoded_etags : List ObjectPartInfo → Bytes
decoded_etags [] = []
decoded_etags (p ∷ ps) =
    let rest = decoded_etags ps in
    elim (decode_hex p.etag) [ some bytes ↦ bytes ++ rest | none ↦ rest ]

unfoldable pub multipart_etag : Formats → List ObjectPartInfo → Text
multipart_etag formats parts =
    print_hex (formats.md5 (decoded_etags parts)) ++ 45 ∷ formats.itoa (length parts)

abbrev pub contains : ℕ → List ℕ → Bool
contains n [] = false
contains n (m ∷ ms) = n == m || contains n ms

abbrev pub total_size : List ObjectPartInfo → ℕ
total_size [] = 0
total_size (p ∷ ps) = p.actual_size + total_size ps

-- The loop of CompleteMultipartUpload over the selected parts.
unfoldable pub collect_parts :
    (ℕ → Result ObjectPartInfo) → (seen numbers : List ℕ) → Result (List ObjectPartInfo)
collect_parts read seen [] = ok []
collect_parts read seen (n ∷ ns) =
    let rest = collect_parts read (n ∷ seen) ns in
    if contains n seen
    then err duplicate_part
    else read n >>= λ part. rest >>= λ parts. ok (part ∷ parts)

module _ {D : Type 0} (uploads : UploadApi D) (formats : Formats) (e : Geometry)
    (bucket object upload_id : Text) where
  -- writeUploadMeta of a value that is already printed.
  unfoldable pub write_upload_meta : (name : Text) → Bytes → List D → Option Error × List D
  write_upload_meta name content drives =
      let (failures, drives') =
        on_all (uploads.write_upload_meta bucket object upload_id name content) drives in
      (check_write_quorum e failures, drives')

  -- deleteUpload
  unfoldable pub delete_upload : List D → Option Error × List D
  delete_upload drives =
      let (failures, drives') = on_all (uploads.delete_upload bucket object upload_id) drives in
      (check_write_quorum e failures, drives')

  -- readUploadMeta from drive `i` on: the first drive whose file is read and parsed. `ctx_err` is
  -- what `ctx.Err()` returns before a drive is asked for a file.
  unfoldable pub read_upload_meta :
      {A : Type 0}
      → (Bytes → Result A)
      → (ctx_err : Text → ℕ → Option Error) → (name : Text) → ℕ
      → List D
      → Result A
  read_upload_meta parse ctx_err name i [] = err upload_not_found
  read_upload_meta parse ctx_err name i (d ∷ ds) =
      let later = read_upload_meta parse ctx_err name (suc i) ds in
      elim (ctx_err name i) [
        | some x ↦ err x
        | none ↦ elim (uploads.read_upload_meta bucket object upload_id name d >>= parse) [
          | ok value ↦ ok value
          | err x ↦ later
        ]
      ]

  -- readMultipartState
  unfoldable pub read_multipart_state :
      (ctx_err : Text → ℕ → Option Error) → List D → Result MultipartState
  read_multipart_state ctx_err drives =
      read_upload_meta formats.parse_state ctx_err state_name 0 drives >>= λ s.
      if not (text_eq s.bucket bucket) || not (text_eq s.object object) || text_eq s.data_dir []
      then err invalid_upload
      else ok s

  -- readMultipartPart
  unfoldable pub read_multipart_part :
      (ctx_err : Text → ℕ → Option Error) → List D → ℕ → Result ObjectPartInfo
  read_multipart_part ctx_err drives number =
      read_upload_meta formats.parse_part ctx_err (multipart_part_name formats number) 0 drives
      >>= λ p. if p.number == number then ok p else err invalid_part

  -- NewMultipartUpload with its two new identifiers; `found` is the error of GetBucketInfo.
  unfoldable pub new_multipart_upload :
      (found : Option Error) (data_dir : Text) → List D → Result Text × List D
  new_multipart_upload found data_dir drives = elim found [
    | some x ↦ (err x, drives)
    | none ↦
        let state : MultipartState = record {
          bucket = bucket;
          object = object;
          data_dir = data_dir;
        } in
        let (failure, drives') = write_upload_meta state_name (formats.print_state state) drives in
        (unless failure upload_id, drives')
  ]

  -- PutObjectPart, for what `write` does as writePart with a data directory and a part number;
  -- `etag` is the digest of what was read, and `now` the time.
  unfoldable pub put_object_part :
      (write : Text → ℕ → List D → Result ℕ × List D) (ctx_err : Text → ℕ → Option Error)
      (etag : Text) (now number : ℕ)
      → List D
      → Result ObjectPartInfo × List D
  put_object_part write ctx_err etag now number drives =
      if ltb number 1
      then (err invalid_part, drives)
      else elim (read_multipart_state ctx_err drives) [
        | err x ↦ (err x, drives)
        | ok state ↦
            let (r, written) = write state.data_dir number drives in
            elim r [
              | err x ↦ (err x, written)
              | ok n ↦
                  let part : ObjectPartInfo = record {
                    etag = etag;
                    number = number;
                    size = shard_file_size e n;
                    actual_size = n;
                    mod_time = now;
                  } in
                  let (failure, drives') =
                    write_upload_meta (multipart_part_name formats number) (formats.print_part part)
                      written in
                  (unless failure part, drives')
            ]
      ]

  module _ (api : Api D) where
    -- AbortMultipartUpload
    unfoldable pub abort_multipart_upload :
        (ctx_err : Text → ℕ → Option Error) → List D → Option Error × List D
    abort_multipart_upload ctx_err drives = elim (read_multipart_state ctx_err drives) [
      | err x ↦ (some x, drives)
      | ok state ↦ delete_upload (map (cleanup_one api bucket object state.data_dir) drives)
    ]

    -- readMeta: the drives answer both passes alike.
    unfoldable pub read_object_meta : List D → Result XlMeta
    read_object_meta drives =
        let answers = map (api.read_meta bucket object) drives in read_meta answers answers

    -- The metadata of the object, with `data_dir` of the upload and its parts.
    abbrev pub multipart_meta :
        (content_type data_dir : Text) (now crc count : ℕ) → List ObjectPartInfo → XlMeta
    multipart_meta content_type data_dir now crc count parts = record {
      name = object;
      bucket = bucket;
      size = total_size parts;
      mod_time = now;
      etag = multipart_etag formats parts;
      content_type = content_type;
      data_dir = data_dir;
      data_blocks = e.data_blocks;
      parity_blocks = e.parity_blocks;
      block_size = default_block_size;
      parts = parts;
      disk_index = 0;
      distribution = hash_order crc count;
    }

    -- The checks of CompleteMultipartUpload: the state and the parts, and the metadata of before.
    unfoldable pub select_parts :
        (ctx_err : Text → ℕ → Option Error) (numbers : List ℕ)
        → List D
        → Result (MultipartState × List ObjectPartInfo × Option XlMeta)
    select_parts ctx_err numbers drives = read_multipart_state ctx_err drives >>= λ state.
        collect_parts (read_multipart_part ctx_err drives) [] numbers >>= λ parts.
        if length parts == 0
        then err no_parts
        else (old_meta_of (read_object_meta drives) >>= λ old. ok (state, parts, old))

    -- CompleteMultipartUpload behind its lock; `crc` is the checksum of the object's name. It
    -- returns the new metadata.
    unfoldable pub complete_multipart_upload :
        (ctx_err : Text → ℕ → Option Error) (content_type : Text) (now crc : ℕ) (numbers : List ℕ)
        → List D
        → Result XlMeta × List D
    complete_multipart_upload ctx_err content_type now crc numbers drives =
        elim (select_parts ctx_err numbers drives) [
          | err x ↦ (err x, drives)
          | ok (state, parts, old) ↦
              let meta = multipart_meta content_type state.data_dir now crc (length drives) parts in
              let (failure, committed) =
                commit_meta api bucket object (write_quorum_of e.data_blocks e.parity_blocks) old
                  meta drives in
              elim failure [
                | some x ↦ (err x, committed)
                | none ↦
                    let (failure', drives') = delete_upload committed in
                    (unless failure' meta, drives')
              ]
        ]
