-- ===== src/Rest/Refine.antt =====
-- A remote drive behaves like the drive: each client operation, answered by the server, is the
-- drive's operation, with its error as the protocol hands it on.
use mini_minio.Prelude.{
  ◌≤◌, ◌≡◌, refl, ap, false, Option, none, some, if◌then◌else◌, [], ◌∷◌, length, arith, Bool-cases,
  inl, inr,
}
use mini_minio.Prelude.Slices.{take_all}
use mini_minio.Prelude.Text.{Text, text_eq}
use mini_minio.Prelude.Errors.{
  Error, Result, ok, err, not_found, bucket_exists, other, is_not_found, is_bucket_exists, error_of,
}
use mini_minio.Erasure.Reader.{Bytes}
use mini_minio.Rest.{
  drive_path, bad_path, Request, Response, Digits, StorageApi, raw, info_body, infos_body,
  names_body, Body,
}
use mini_minio.Rest.Server.{
  serve, serve_upload_meta, write_error, answer, max_meta, http_not_found, is_bad_name,
}
use mini_minio.Rest.Client.{
  call, call_error, call_read, read_info, read_infos, read_names, raw_body, check_status,
  make_bucket, delete_bucket, list_buckets, stat_bucket, delete_object_data, write_meta_tmp,
  rename_meta, read_meta, write_upload_meta, read_upload_meta, delete_upload, delete_object,
  list_objects,
}

-- An error as the client sees it.
abbrev pub remote : Error → Error
remote e =
    if is_not_found e then not_found else if is_bucket_exists e then bucket_exists else other 500

abbrev pub remote_error : Option Error → Option Error
remote_error none = none
remote_error (some e) = some (remote e)

abbrev pub remote_result {ℓ} : {A : Type ℓ} → Result A → Result A
remote_result (ok a) = ok a
remote_result (err e) = err (remote e)

abbrev pub remote_written : {D : Type 0} → Option Error × D → Option Error × D
remote_written (failure, d) = (remote_error failure, d)

-- What the client makes of the answer to a write and to a read.
error_of-write_error :
    (failure : Option Error) → error_of (check_status (write_error failure)) ≡ remote_error failure
error_of-write_error none = refl
error_of-write_error (some e) = elim (Bool-cases (is_not_found e)) [
  | inl t ↦ rw t refl
  | inr f ↦ elim (Bool-cases (is_bucket_exists e)) [
    | inl t ↦ rw (f, t) refl
    | inr g ↦ rw (f, g) refl
  ]
]

pub error_of-written :
    {D : Type 0} (x : Option Error × D)
    → (error_of (check_status (write_error x.0)), x.1) ≡ remote_written x
error_of-written x = ap (λ f. (f, x.1)) (error_of-write_error x.0)

decode-answer {ℓ} :
    {A : Type ℓ} (body : A → Body) (decode : Response → Result A)
    → ((a : A) → decode (record { status = 200; content = body a }) ≡ ok a)
    → (r : Result A)
    → elim (check_status (answer body r)) [ err e ↦ err e | ok resp ↦ decode resp ]
      ≡ remote_result r
decode-answer body decode h (ok a) = h a
decode-answer body decode h (err e) = elim (Bool-cases (is_not_found e)) [
  | inl t ↦ rw t refl
  | inr f ↦ elim (Bool-cases (is_bucket_exists e)) [
    | inl t ↦ rw (f, t) refl
    | inr g ↦ rw (f, g) refl
  ]
]

module _ {D W : Type 0} (api : StorageApi D W) (digits : Digits) (drive_id : Text) where
  -- The request reaches the drive.
  abbrev pub to_drive : Request → D → Result Response × D
  to_drive r d = elim r.path [
    | drive_path i operation ↦
        let (resp, d') = serve api digits operation r.method r d in (ok resp, d')
    | bad_path ↦ (ok http_not_found, d)
  ]

  -- The bucket operations of a remote drive are those of the drive, up to the protocol's errors.
  pub remote_buckets :
      (bucket : Text) (d : D)
      → (make_bucket digits to_drive drive_id bucket d ≡ remote_written (api.make_bucket bucket d))
        × (delete_bucket digits to_drive drive_id bucket d
            ≡ remote_written (api.delete_bucket bucket d))
        × (stat_bucket digits to_drive drive_id bucket d ≡ remote_result (api.stat_bucket bucket d))
        × (list_buckets digits to_drive drive_id d ≡ remote_result (api.list_buckets d))
  unfolding make_bucket delete_bucket stat_bucket list_buckets call_error call_read call serve
  remote_buckets bucket d = (
    error_of-written (api.make_bucket bucket d),
    error_of-written (api.delete_bucket bucket d),
    decode-answer info_body read_info (λ a. refl) (api.stat_bucket bucket d),
    decode-answer infos_body read_infos (λ a. refl) (api.list_buckets d),
  )

  -- The metadata, clean-up, delete and list operations of a remote drive are those of the drive,
  -- up to the protocol's errors, if the metadata is at most a MiB.
  pub remote_objects :
      (bucket object data_dir name_prefix : Text) (meta : Bytes) (d : D)
      → length meta ≤ max_meta
      → (write_meta_tmp digits to_drive drive_id bucket object meta d
          ≡ remote_written (api.write_meta_tmp bucket object meta d))
        × (rename_meta digits to_drive drive_id bucket object d
            ≡ remote_written (api.rename_meta bucket object d))
        × (read_meta digits to_drive drive_id bucket object d
            ≡ remote_result (api.read_meta bucket object d))
        × (delete_object_data digits to_drive drive_id bucket object data_dir d
            ≡ remote_written (api.delete_object_data bucket object data_dir d))
        × (delete_object digits to_drive drive_id bucket object d
            ≡ remote_written (api.delete_object bucket object d))
        × (list_objects digits to_drive drive_id bucket name_prefix d
            ≡ remote_result (api.list_objects bucket name_prefix d))
  unfolding write_meta_tmp rename_meta read_meta delete_object_data delete_object list_objects
      call_error call_read call serve
  remote_objects bucket object data_dir name_prefix meta d small = (
    rw (take_all max_meta meta small) (error_of-written (api.write_meta_tmp bucket object meta d)),
    error_of-written (api.rename_meta bucket object d),
    decode-answer raw (λ r. ok (raw_body r)) (λ a. refl) (api.read_meta bucket object d),
    error_of-written (api.delete_object_data bucket object data_dir d),
    error_of-written (api.delete_object bucket object d),
    decode-answer names_body read_names (λ a. refl) (api.list_objects bucket name_prefix d),
  )

  -- The upload operations of a remote drive are those of the drive, up to the protocol's errors,
  -- for an upload identifier and a name that the server accepts and metadata of at most a MiB.
  pub remote_uploads :
      (bucket object upload_id name : Text) (meta : Bytes) (d : D)
      → is_bad_name upload_id name ≡ false
      → length meta ≤ max_meta
      → (write_upload_meta digits to_drive drive_id bucket object upload_id name meta d
          ≡ remote_written (api.write_upload_meta bucket object upload_id name meta d))
        × (read_upload_meta digits to_drive drive_id bucket object upload_id name d
            ≡ remote_result (api.read_upload_meta bucket object upload_id name d))
        × (delete_upload digits to_drive drive_id bucket object upload_id d
            ≡ remote_written (api.delete_upload bucket object upload_id d))
  unfolding write_upload_meta read_upload_meta delete_upload call_error call_read call serve
      serve_upload_meta text_eq
  remote_uploads bucket object [] name meta d fine small = absurd (ground arith)
  remote_uploads bucket object (u ∷ us) [] meta d fine small = absurd (ground arith)
  remote_uploads bucket object (u ∷ us) (c ∷ cs) meta d fine small = (
    rw (fine, take_all max_meta meta small)
        (error_of-written (api.write_upload_meta bucket object (u ∷ us) (c ∷ cs) meta d)),
    rw (fine, read_upload_meta, call_read, call, serve, serve_upload_meta)
        (decode-answer raw (λ r. ok (raw_body r)) (λ a. refl)
          (api.read_upload_meta bucket object (u ∷ us) (c ∷ cs) d)),
    error_of-written (api.delete_upload bucket object (u ∷ us) d),
  )
