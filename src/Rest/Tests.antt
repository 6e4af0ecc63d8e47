-- ===== src/Rest/Tests.antt =====
-- The theorems about the storage protocol on a drive that keeps one file and one metadata text.
use mini_minio.Prelude.{
  ℕ, ◌≡◌, refl, true, false, Option, none, some, [], ◌∷◌, ◌++◌, drop, arith, inr,
}
use mini_minio.Prelude.Text.{Text, text_eq}
use mini_minio.Prelude.Errors.{Error, Result, ok, err, not_found, eof}
use mini_minio.Erasure.Reader.{Bytes}
use mini_minio.Rest.{
  Digits, Number, natural, malformed, StorageApi, Request, Response, Method, get_method, bucket_op,
  RequestPath, drive_path, Values, no_values,
}
use mini_minio.Rest.Auth.{valid_request, sign, valid_request-sign}
use mini_minio.Rest.Client.{
  make_bucket, delete_bucket, list_buckets, stat_bucket, write_shard, delete_object_data,
  write_meta_tmp, rename_meta, read_meta, write_upload_meta, read_upload_meta, delete_upload,
  delete_object, list_objects, read_at,
}
use mini_minio.Rest.Handler.{storage_handler, drive_of, storage_handler_others}
use mini_minio.Rest.Refine.{to_drive, remote_buckets, remote_objects, remote_uploads}
use mini_minio.Rest.Server.{is_bad_name}
use mini_minio.Rest.Shards.{remote_write_shard, remote_read_shard}

-- A number is written as one character.
abbrev read_digits : Text → Number
read_digits (n ∷ []) = natural n
read_digits _ = malformed

abbrev digits : Digits
digits = record { itoa = λ n. n ∷ []; atoi = read_digits; atoi_itoa = λ n lt. refl }

record Disk : Type 0 where
  file : Bytes
  meta : Bytes

abbrev read_part : Bytes → ℕ → Bytes × Option Error
read_part b size = (b, some eof)

abbrev api : StorageApi Disk (Unit {0})
api = record {
  make_bucket = λ b d. (none, d);
  delete_bucket = λ b d. (some not_found, d);
  list_buckets = λ d. ok [];
  stat_bucket = λ b d. err not_found;
  create_shard_file = λ b o t p d. (ok tt, record d { file = [] });
  copy_to_shard = λ w c d. (none, record d { file = d.file ++ c });
  close_shard = λ w d. (none, d);
  read_shard_file = λ b o t p d.
      ok (record {
        read_at = λ offset size. read_part (drop offset d.file) size;
        close_error = none;
      });
  delete_object_data = λ b o t d. (none, record d { file = [] });
  write_meta_tmp = λ b o m d. (none, record d { meta = m });
  rename_meta = λ b o d. (none, d);
  read_meta = λ b o d. ok d.meta;
  write_upload_meta = λ b o u n m d. (none, record d { meta = m });
  read_upload_meta = λ b o u n d. ok d.meta;
  delete_upload = λ b o u d. (none, record d { meta = [] });
  delete_object = λ b o d. (none, record { file = []; meta = [] });
  list_objects = λ b p d. ok ((1 ∷ []) ∷ []);
}

abbrev disk : Disk
disk = record { file = 5 ∷ 6 ∷ 7 ∷ []; meta = 8 ∷ [] }

abbrev transport : Request → Disk → Result Response × Disk
transport = to_drive api digits (9 ∷ [])

remote_buckets_example :
    (make_bucket digits transport (9 ∷ []) (1 ∷ []) disk ≡ (none, disk))
    × (delete_bucket digits transport (9 ∷ []) (1 ∷ []) disk ≡ (some not_found, disk))
    × (stat_bucket digits transport (9 ∷ []) (1 ∷ []) disk ≡ err not_found)
    × (list_buckets digits transport (9 ∷ []) disk ≡ ok [])
remote_buckets_example = remote_buckets api digits (9 ∷ []) (1 ∷ []) disk

remote_objects_example :
    (write_meta_tmp digits transport (9 ∷ []) (1 ∷ []) (2 ∷ []) (4 ∷ []) disk
      ≡ (none, record disk { meta = 4 ∷ [] }))
    × (rename_meta digits transport (9 ∷ []) (1 ∷ []) (2 ∷ []) disk ≡ (none, disk))
    × (read_meta digits transport (9 ∷ []) (1 ∷ []) (2 ∷ []) disk ≡ ok (8 ∷ []))
    × (delete_object_data digits transport (9 ∷ []) (1 ∷ []) (2 ∷ []) (3 ∷ []) disk
        ≡ (none, record disk { file = [] }))
    × (delete_object digits transport (9 ∷ []) (1 ∷ []) (2 ∷ []) disk
        ≡ (none, record { file = []; meta = [] }))
    × (list_objects digits transport (9 ∷ []) (1 ∷ []) (1 ∷ []) disk ≡ ok ((1 ∷ []) ∷ []))
remote_objects_example =
    remote_objects api digits (9 ∷ []) (1 ∷ []) (2 ∷ []) (3 ∷ []) (1 ∷ []) (4 ∷ []) disk
      (omega arith)

good_name : is_bad_name (6 ∷ []) (7 ∷ []) ≡ false
unfolding text_eq
good_name = refl

remote_uploads_example :
    (write_upload_meta digits transport (9 ∷ []) (1 ∷ []) (2 ∷ []) (6 ∷ []) (7 ∷ []) (4 ∷ []) disk
      ≡ (none, record disk { meta = 4 ∷ [] }))
    × (read_upload_meta digits transport (9 ∷ []) (1 ∷ []) (2 ∷ []) (6 ∷ []) (7 ∷ []) disk
        ≡ ok (8 ∷ []))
    × (delete_upload digits transport (9 ∷ []) (1 ∷ []) (2 ∷ []) (6 ∷ []) disk
        ≡ (none, record disk { meta = [] }))
remote_uploads_example =
    remote_uploads api digits (9 ∷ []) (1 ∷ []) (2 ∷ []) (6 ∷ []) (7 ∷ []) (4 ∷ []) disk good_name
      (omega arith)

remote_write_shard_example :
    write_shard digits transport (9 ∷ []) (1 ∷ []) (2 ∷ []) (3 ∷ []) 1 (4 ∷ 4 ∷ []) disk
    ≡ (none, record disk { file = 4 ∷ 4 ∷ [] })
remote_write_shard_example =
    remote_write_shard api digits (9 ∷ []) (1 ∷ []) (2 ∷ []) (3 ∷ []) 1 (4 ∷ 4 ∷ []) disk
      (omega arith) (omega arith)

remote_read_shard_example :
    read_at digits transport (9 ∷ []) (1 ∷ []) (2 ∷ []) (3 ∷ []) 1 1 9 disk ≡ (6 ∷ 7 ∷ [], some eof)
remote_read_shard_example =
    remote_read_shard api digits (9 ∷ []) (1 ∷ []) (2 ∷ []) (3 ∷ []) 1 1 9 disk (6 ∷ 7 ∷ [])
      (some eof) (omega arith) (omega arith) (omega arith) (omega arith) (omega arith)
      (_, refl, refl, refl, omega arith, inr (omega arith, refl))

abbrev mac : Text → Text → Method → RequestPath → Values → Text → Text
mac secret time method path values config = secret ++ time ++ config

abbrev request : Request
request = record {
  method = get_method;
  path = drive_path (9 ∷ []) bucket_op;
  values = no_values;
  body = [];
  time_header = [];
  config_header = [];
  auth_header = [];
}

valid_request-sign_example :
    valid_request digits mac
      (1 ∷ [])
      (2 ∷ [])
      7000000000
      (sign digits mac (1 ∷ []) (2 ∷ []) 5000000000 request)
    ≡ true
valid_request-sign_example =
    valid_request-sign digits mac (1 ∷ []) (2 ∷ []) 5000000000 7000000000 request (λ e. absurd (cc))
      (omega arith) (omega arith) (omega arith)

storage_handler_others_example :
    drive_of
      (8 ∷ [])
      (storage_handler api digits mac
        (1 ∷ [])
        (2 ∷ [])
        5000000000
        request
        ((8 ∷ [], disk) ∷ (9 ∷ [], disk) ∷ [])).1
    ≡ some disk
unfolding text_eq
storage_handler_others_example =
    storage_handler_others api digits mac (1 ∷ []) (2 ∷ []) 5000000000 request (8 ∷ [])
      ((8 ∷ [], disk) ∷ (9 ∷ [], disk) ∷ []) (inr (λ e. absurd (cc)))
