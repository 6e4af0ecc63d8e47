-- ===== src/Rest.antt =====
-- The internal storage protocol (cmd/storage-rest-common.go, storage-rest-client.go and
-- storage-rest-server.go): requests, responses, and the drive operations of `storage.API` behind
-- them. HTTP, the query encoding and JSON are the standard library's: a request carries the words of
-- its path and its query values, and a body is the value that is sent. The context is left out.
pub mod Auth
pub mod Client
pub mod Server
pub mod Handler
pub mod Refine
pub mod Shards
mod Tests
use mini_minio.Prelude.{
  ℕ, zero, suc, ◌<◌, ◌≡◌, ◌^◌, ◌==◌, if◌then◌else◌, Bool, true, false, Option, none, some, List, [],
  ◌∷◌,
}
use mini_minio.Prelude.Text.{Text}
use mini_minio.Prelude.Errors.{Error, Result, ok, err}
use mini_minio.Erasure.Reader.{Bytes}

pub data Method : Type 0 where
  put_method get_method post_method delete_method : Method

-- The words of the switch in serveStorageRESTOperation.
pub data Operation : Type 0 where
  bucket_op buckets_op shard_op data_op meta_op rename_meta_op upload_meta_op upload_op object_op
        objects_op :
      Operation
  unknown_op : Operation

-- The names of the query values.
pub data Key : Type 0 where
  bucket_key object_key data_dir_key part_key offset_key length_key upload_id_key name_key
        prefix_key :
      Key

abbrev pub key_code : Key → ℕ
key_code bucket_key = 0
key_code object_key = 1
key_code data_dir_key = 2
key_code part_key = 3
key_code offset_key = 4
key_code length_key = 5
key_code upload_id_key = 6
key_code name_key = 7
key_code prefix_key = 8

-- `url.Values` with one value for a key; `Get` gives the empty text for a key that is not set.
abbrev pub Values : Type 0
Values = Key → Text

abbrev pub no_values : Values
no_values k = []

-- `values.Set(k, t)`
abbrev pub set_value : Values → Key → Text → Values
set_value v k t k' = if key_code k == key_code k' then t else v k'

-- `storageRESTFileInfo`
pub record FileInfo : Type 0 where
  pub filename : Text
  pub modified : ℕ

pub data Body : Type 0 where
  no_body : Body
  raw : Bytes → Body
  info_body : FileInfo → Body
  infos_body : List FileInfo → Body
  names_body : List Text → Body

-- The path after `storageRESTPrefix`: two words that are not empty, or anything else.
pub data RequestPath : Type 0 where
  drive_path : (drive_id : Text) → Operation → RequestPath
  bad_path : RequestPath

pub record Request : Type 0 where
  pub method : Method
  pub path : RequestPath
  pub values : Values
  pub body : Bytes
  pub time_header : Text
  pub config_header : Text
  pub auth_header : Text

pub record Response : Type 0 where
  pub status : ℕ
  pub content : Body

-- `storage.ShardReader`: the bytes that ReadAt reads of a range, with its error, and that of Close.
pub record ShardReader : Type 0 where
  pub read_at : (offset len : ℕ) → Bytes × Option Error
  pub close_error : Option Error

-- `storage.API` for drives of state `D` and shard writers of state `W`.
pub record StorageApi (D W : Type 0) : Type 0 where
  pub make_bucket : (bucket : Text) → D → Option Error × D
  pub delete_bucket : (bucket : Text) → D → Option Error × D
  pub list_buckets : D → Result (List FileInfo)
  pub stat_bucket : (bucket : Text) → D → Result FileInfo
  pub create_shard_file : (bucket object data_dir : Text) (part : ℕ) → D → Result W × D
  pub copy_to_shard : W → Bytes → D → Option Error × D  -- `io.Copy` to the writer
  pub close_shard : W → D → Option Error × D
  pub read_shard_file : (bucket object data_dir : Text) (part : ℕ) → D → Result ShardReader
  pub delete_object_data : (bucket object data_dir : Text) → D → Option Error × D
  pub write_meta_tmp : (bucket object : Text) → Bytes → D → Option Error × D
  pub rename_meta : (bucket object : Text) → D → Option Error × D
  pub read_meta : (bucket object : Text) → D → Result Bytes
  pub write_upload_meta : (bucket object upload_id name : Text) → Bytes → D → Option Error × D
  pub read_upload_meta : (bucket object upload_id name : Text) → D → Result Bytes
  pub delete_upload : (bucket object upload_id : Text) → D → Option Error × D
  pub delete_object : (bucket object : Text) → D → Option Error × D
  pub list_objects : (bucket name_prefix : Text) → D → Result (List Text)

-- `strconv`: how a number is written, and how a text is read, with a fault for what is no number.
pub data Number : Type 0 where
  natural : ℕ → Number
  negative : ℕ → Number
  malformed : Number

pub record Digits : Type 0 where
  pub itoa : ℕ → Text
  pub atoi : Text → Number
  pub atoi_itoa : (n : ℕ) → n < 2 ^ 63 → atoi (itoa n) ≡ natural n
