-- ===== src/Rest/Server.antt =====
-- serveStorageRESTOperation and its helpers (cmd/storage-rest-server.go). Bodies are read and
-- written without an error; a response written without a status has status 200. The error texts
-- are left out.
use mini_minio.Prelude.{
  ℕ, ◌&&◌, ◌||◌, ltb, ◌==◌, if◌then◌else◌, Bool, false, Option, none, some, [], ◌∷◌, length, take,
}
use mini_minio.Prelude.Text.{Text, text_eq}
use mini_minio.Prelude.Errors.{
  Error, Result, ok, err, other, is_not_found, is_bucket_exists, is_io_eof, join,
}
use mini_minio.Erasure.Reader.{Bytes}
use mini_minio.Rest.{
  Method, put_method, get_method, post_method, delete_method, Operation, bucket_op, buckets_op,
  shard_op, data_op, meta_op, rename_meta_op, upload_meta_op, upload_op, object_op, objects_op,
  bucket_key, object_key, data_dir_key, part_key, offset_key, length_key, upload_id_key, name_key,
  prefix_key, Body, no_body, raw, info_body, infos_body, names_body, Request, Response, Digits,
  Number, natural, StorageApi,
}

-- The refusals of the server itself, told apart by a number.
abbrev pub invalid_part : Error
invalid_part = other 1

abbrev pub invalid_offset : Error
invalid_offset = other 2

abbrev pub invalid_length : Error
invalid_length = other 3

abbrev pub invalid_upload_meta : Error
invalid_upload_meta = other 4

abbrev pub invalid_upload_id : Error
invalid_upload_id = other 5

-- `1 << 20` bytes of metadata and `16 << 20` bytes of a shard at most.
abbrev pub max_meta : ℕ
max_meta = 1048576

abbrev pub max_length : ℕ
max_length = 16777216

-- `http.NotFound`
abbrev pub http_not_found : Response
http_not_found = record { status = 404; content = no_body }

-- writeStorageRESTError
abbrev pub write_error : Option Error → Response
write_error none = record { status = 204; content = no_body }
write_error (some e) =
    if is_not_found e
    then record { status = 404; content = no_body }
    else if is_bucket_exists e
    then record { status = 409; content = no_body }
    else record { status = 500; content = no_body }

abbrev pub write_body : Body → Response
write_body b = record { status = 200; content = b }

-- The response for a read of the drive.
abbrev pub answer {ℓ} : {A : Type ℓ} → (A → Body) → Result A → Response
answer body (ok a) = write_body (body a)
answer body (err e) = write_error (some e)

-- `strings.ContainsAny(name, …)`: a slash or a backslash.
abbrev pub has_slash : Text → Bool
has_slash [] = false
has_slash (c ∷ t) = c == 47 || c == 92 || has_slash t

abbrev pub is_bad_name : (upload_id name : Text) → Bool
is_bad_name upload_id name = text_eq upload_id [] || text_eq name [] || has_slash name

-- storageRESTPartNumber and storageRESTRange: what `strconv` read of the values.
abbrev pub part_number : Number → Result ℕ
part_number (natural n) = if ltb n 1 then err invalid_part else ok n
part_number _ = err invalid_part

abbrev pub shard_range : (offset len : Number) → Result (ℕ × ℕ)
shard_range (natural offset) (natural len) =
    if ltb len 1 || ltb max_length len then err invalid_length else ok (offset, len)
shard_range (natural offset) _ = err invalid_length
shard_range _ _ = err invalid_offset

-- `readErr != nil && (!errors.Is(readErr, io.EOF) || n <= 0)` is a failure.
abbrev pub shard_answer : Bytes × Option Error → Option Error → Response
shard_answer (b, some e) close_error =
    if is_io_eof e && ltb 0 (length b)
    then elim close_error [ some c ↦ write_error (some c) | none ↦ write_body (raw b) ]
    else write_error (join (some e) close_error)
shard_answer (b, none) (some c) = write_error (some c)
shard_answer (b, none) none = write_body (raw b)

module _ {D W : Type 0} (api : StorageApi D W) (digits : Digits) where
  -- `drive`'s answer to an operation that returns an error alone.
  abbrev pub written : Option Error × D → Response × D
  written (failure, d) = (write_error failure, d)

  -- `io.Copy` to the writer, then Close, with the two errors joined.
  unfoldable pub store_shard : (bucket object data_dir : Text) → ℕ → Bytes → D → Response × D
  store_shard bucket object data_dir part body d =
      let (writer, d1) = api.create_shard_file bucket object data_dir part d in
      elim writer [
        | err e ↦ (write_error (some e), d1)
        | ok w ↦
            let (copied, d2) = api.copy_to_shard w body d1 in
            let (closed, d3) = api.close_shard w d2 in (write_error (join copied closed), d3)
      ]

  unfoldable pub load_shard : (bucket object data_dir : Text) → ℕ → Result (ℕ × ℕ) → D → Response
  load_shard bucket object data_dir part range d = elim range [
    | err e ↦ write_error (some e)
    | ok (offset, len) ↦ elim (api.read_shard_file bucket object data_dir part d) [
      | err e ↦ write_error (some e)
      | ok reader ↦ shard_answer (reader.read_at offset len) reader.close_error
    ]
  ]

  -- The case "shard".
  unfoldable pub serve_shard : Request → Method → D → Response × D
  serve_shard r method d = elim (part_number (digits.atoi (r.values part_key))) [
    | err e ↦ (write_error (some e), d)
    | ok part ↦
        let bucket = r.values bucket_key in
        let object = r.values object_key in
        let data_dir = r.values data_dir_key in
        elim method [
          | post_method ↦ store_shard bucket object data_dir part r.body d
          | get_method ↦
              let range =
                shard_range (digits.atoi (r.values offset_key))
                  (digits.atoi (r.values length_key)) in
              (load_shard bucket object data_dir part range d, d)
          | put_method ↦ (http_not_found, d)
          | delete_method ↦ (http_not_found, d)
        ]
  ]

  -- The case "upload-meta".
  unfoldable pub serve_upload_meta : Request → Method → D → Response × D
  serve_upload_meta r method d =
      let upload_id = r.values upload_id_key in
      let name = r.values name_key in
      let bucket = r.values bucket_key in
      let object = r.values object_key in
      if is_bad_name upload_id name
      then (write_error (some invalid_upload_meta), d)
      else elim method [
        | put_method ↦
            written (api.write_upload_meta bucket object upload_id name (take max_meta r.body) d)
        | get_method ↦ (answer raw (api.read_upload_meta bucket object upload_id name d), d)
        | post_method ↦ (http_not_found, d)
        | delete_method ↦ (http_not_found, d)
      ]

  -- serveStorageRESTOperation
  unfoldable pub serve : Operation → Method → Request → D → Response × D
  serve bucket_op put_method r d = written (api.make_bucket (r.values bucket_key) d)
  serve bucket_op delete_method r d = written (api.delete_bucket (r.values bucket_key) d)
  serve bucket_op get_method r d = (answer info_body (api.stat_bucket (r.values bucket_key) d), d)
  serve buckets_op get_method r d = (answer infos_body (api.list_buckets d), d)
  serve shard_op method r d = serve_shard r method d
  serve data_op delete_method r d =
      written (
        api.delete_object_data (r.values bucket_key) (r.values object_key) (r.values data_dir_key)
          d)
  serve meta_op put_method r d =
      written
        (api.write_meta_tmp (r.values bucket_key) (r.values object_key) (take max_meta r.body) d)
  serve meta_op get_method r d =
      (answer raw (api.read_meta (r.values bucket_key) (r.values object_key) d), d)
  serve rename_meta_op post_method r d =
      written (api.rename_meta (r.values bucket_key) (r.values object_key) d)
  serve upload_meta_op method r d = serve_upload_meta r method d
  serve upload_op delete_method r d =
      if text_eq (r.values upload_id_key) []
      then (write_error (some invalid_upload_id), d)
      else written
          (api.delete_upload (r.values bucket_key) (r.values object_key) (r.values upload_id_key) d)
  serve object_op delete_method r d =
      written (api.delete_object (r.values bucket_key) (r.values object_key) d)
  serve objects_op get_method r d =
      (answer names_body (api.list_objects (r.values bucket_key) (r.values prefix_key) d), d)
  serve _ _ r d = (http_not_found, d)
