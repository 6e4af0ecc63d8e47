-- ===== src/Rest/Client.antt =====
-- storageRESTClient (cmd/storage-rest-client.go). `transport` is `c.client.Do` with the header that
-- `call` sets: a request, to a drive of state `D`, gives a response or an error. The bodies are read
-- without an error.
use mini_minio.Prelude.{
  ℕ, ◌&&◌, ltb, leb, ◌==◌, if◌then◌else◌, Option, none, some, List, [], length, take,
}
use mini_minio.Prelude.Text.{Text, text_eq}
use mini_minio.Prelude.Errors.{
  Error, Result, ok, err, not_found, bucket_exists, eof, unexpected_eof, other, error_of,
}
use mini_minio.Erasure.Reader.{Bytes}
use mini_minio.Rest.{
  Method, put_method, get_method, post_method, delete_method, Operation, bucket_op, buckets_op,
  shard_op, data_op, meta_op, rename_meta_op, upload_meta_op, upload_op, object_op, objects_op,
  bucket_key, object_key, data_dir_key, part_key, offset_key, length_key, upload_id_key, name_key,
  prefix_key, Values, no_values, set_value, FileInfo, raw, info_body, infos_body, names_body,
  drive_path, Request, Response, Digits,
}

-- objectValues, shardValues and uploadValues.
abbrev pub bucket_values : Text → Values
bucket_values bucket = set_value no_values bucket_key bucket

abbrev pub object_values : Text → Text → Values
object_values bucket object = set_value (bucket_values bucket) object_key object

module _ (digits : Digits) where
  abbrev pub shard_values : (bucket object data_dir : Text) → ℕ → Values
  shard_values bucket object data_dir part =
      let values = set_value (object_values bucket object) data_dir_key data_dir in
      if part == 0 then values else set_value values part_key (digits.itoa part)

abbrev pub upload_values : (bucket object upload_id name : Text) → Values
upload_values bucket object upload_id name =
    let values = set_value (object_values bucket object) upload_id_key upload_id in
    if text_eq name [] then values else set_value values name_key name

-- How `call` reads a response; the number in `other` is the status.
abbrev pub check_status : Response → Result Response
check_status r =
    if leb 200 r.status && ltb r.status 300
    then ok r
    else if r.status == 404
    then err not_found
    else if r.status == 409
    then err bucket_exists
    else err (other r.status)

-- `json.UnmarshalRead`; the number in `other` marks a body of another shape.
abbrev pub read_info : Response → Result FileInfo
read_info r = elim r.content [ info_body i ↦ ok i | _ ↦ err (other 0) ]

abbrev pub read_infos : Response → Result (List FileInfo)
read_infos r = elim r.content [ infos_body i ↦ ok i | _ ↦ err (other 0) ]

abbrev pub read_names : Response → Result (List Text)
read_names r = elim r.content [ names_body i ↦ ok i | _ ↦ err (other 0) ]

abbrev pub raw_body : Response → Bytes
raw_body r = elim r.content [ raw b ↦ b | _ ↦ [] ]

-- `io.ReadFull(resp.Body, p)` with a buffer of `size` bytes: the bytes read and the error.
abbrev pub fill_buffer : ℕ → Bytes → Bytes × Option Error
fill_buffer size b =
    if leb size (length b)
    then (take size b, none)
    else if length b == 0
    then ([], some eof)
    else (b, some unexpected_eof)

-- storageRESTShardReader.ReadAt turns `io.ErrUnexpectedEOF` into `io.EOF`.
abbrev pub end_of_shard : Error → Error
end_of_shard unexpected_eof = eof
end_of_shard e = e

module _ {D : Type 0} (digits : Digits) (transport : Request → D → Result Response × D)
    (drive_id : Text) where
  unfoldable pub call : Method → Operation → Values → Bytes → D → Result Response × D
  call method operation values body d =
      let request : Request = record {
        method = method;
        path = drive_path drive_id operation;
        values = values;
        body = body;
        time_header = [];
        config_header = [];
        auth_header = [];
      } in
      let (r, d') = transport request d in
      elim r [ err e ↦ (err e, d') | ok resp ↦ (check_status resp, d') ]

  -- The error alone: the body is closed.
  unfoldable pub call_error : Method → Operation → Values → Bytes → D → Option Error × D
  call_error method operation values body d =
      let (r, d') = call method operation values body d in (error_of r, d')

  unfoldable pub call_read {ℓ} :
      {A : Type ℓ} → (Response → Result A) → Method → Operation → Values → D → Result A
  call_read decode method operation values d = elim (call method operation values [] d).0 [
    | err e ↦ err e
    | ok resp ↦ decode resp
  ]

  unfoldable pub make_bucket : Text → D → Option Error × D
  make_bucket bucket = call_error put_method bucket_op (bucket_values bucket) []

  unfoldable pub delete_bucket : Text → D → Option Error × D
  delete_bucket bucket = call_error delete_method bucket_op (bucket_values bucket) []

  unfoldable pub list_buckets : D → Result (List FileInfo)
  list_buckets = call_read read_infos get_method buckets_op no_values

  unfoldable pub stat_bucket : Text → D → Result FileInfo
  stat_bucket bucket = call_read read_info get_method bucket_op (bucket_values bucket)

  -- CreateShardFile, the writes of `content` to the pipe, and Close.
  unfoldable pub write_shard : (bucket object data_dir : Text) → ℕ → Bytes → D → Option Error × D
  write_shard bucket object data_dir part content =
      call_error post_method shard_op (shard_values digits bucket object data_dir part) content

  unfoldable pub delete_object_data : (bucket object data_dir : Text) → D → Option Error × D
  delete_object_data bucket object data_dir =
      call_error delete_method data_op (shard_values digits bucket object data_dir 0) []

  unfoldable pub write_meta_tmp : (bucket object : Text) → Bytes → D → Option Error × D
  write_meta_tmp bucket object content =
      call_error put_method meta_op (object_values bucket object) content

  unfoldable pub rename_meta : (bucket object : Text) → D → Option Error × D
  rename_meta bucket object = call_error post_method rename_meta_op (object_values bucket object) []

  unfoldable pub read_meta : (bucket object : Text) → D → Result Bytes
  read_meta bucket object =
      call_read (λ r. ok (raw_body r)) get_method meta_op (object_values bucket object)

  unfoldable pub write_upload_meta :
      (bucket object upload_id name : Text) → Bytes → D → Option Error × D
  write_upload_meta bucket object upload_id name content =
      call_error put_method upload_meta_op (upload_values bucket object upload_id name) content

  unfoldable pub read_upload_meta : (bucket object upload_id name : Text) → D → Result Bytes
  read_upload_meta bucket object upload_id name =
      call_read (λ r. ok (raw_body r)) get_method upload_meta_op
        (upload_values bucket object upload_id name)

  unfoldable pub delete_upload : (bucket object upload_id : Text) → D → Option Error × D
  delete_upload bucket object upload_id =
      call_error delete_method upload_op (upload_values bucket object upload_id []) []

  unfoldable pub delete_object : (bucket object : Text) → D → Option Error × D
  delete_object bucket object = call_error delete_method object_op (object_values bucket object) []

  unfoldable pub list_objects : (bucket name_prefix : Text) → D → Result (List Text)
  list_objects bucket name_prefix =
      call_read read_names get_method objects_op
        (set_value (bucket_values bucket) prefix_key name_prefix)

  -- readShard: the bytes read into a buffer of `size` bytes, and the error.
  unfoldable pub read_shard :
      (bucket object data_dir : Text) → (part offset size : ℕ) → D → Bytes × Option Error
  read_shard bucket object data_dir part offset size d =
      let values =
        set_value
          (set_value (shard_values digits bucket object data_dir part) offset_key
            (digits.itoa offset))
          length_key (digits.itoa size) in
      elim (call get_method shard_op values [] d).0 [
        | err e ↦ ([], some e)
        | ok resp ↦ fill_buffer size (raw_body resp)
      ]

  -- storageRESTShardReader.ReadAt
  unfoldable pub read_at :
      (bucket object data_dir : Text) → (part offset size : ℕ) → D → Bytes × Option Error
  read_at bucket object data_dir part offset size d =
      let (b, failure) = read_shard bucket object data_dir part offset size d in
      (b, elim failure [ none ↦ none | some e ↦ some (end_of_shard e) ])
