-- ===== src/Rest/Shards.antt =====
-- Writing and reading shards of a remote drive.
use mini_minio.Prelude.{
  ℕ, ◌≤◌, ◌<◌, ◌≡◌, refl, ap, ◌∙◌, ◌^◌, true, false, Option, none, some, [], length, arith, inl,
  inr, ◌⊎◌, ltb, leb, ◌==◌,
}
use mini_minio.Prelude.Slices.{take_all}
use mini_minio.Prelude.Text.{Text}
use mini_minio.Prelude.Errors.{Error, Result, ok, err, eof, join, error_of}
use mini_minio.Erasure.Reader.{Bytes}
use mini_minio.Rest.{
  Method, post_method, get_method, shard_op, data_dir_key, part_key, offset_key, length_key,
  set_value, drive_path, Request, Digits, StorageApi, ShardReader, raw,
}
use mini_minio.Rest.Server.{
  write_body, part_number, shard_range, serve, serve_shard, store_shard, load_shard, shard_answer,
  written, max_length,
}
use mini_minio.Rest.Client.{
  shard_values, object_values, call, call_error, fill_buffer, end_of_shard, check_status,
  write_shard, read_shard, read_at,
}
use mini_minio.Rest.Refine.{to_drive, error_of-written, remote_written}

module _ {D W : Type 0} (api : StorageApi D W) (digits : Digits) (drive_id : Text) where
  -- What the drive does for a whole shard: create it, copy the content, close it.
  abbrev pub store_all : (bucket object data_dir : Text) → ℕ → Bytes → D → Option Error × D
  store_all bucket object data_dir part content d =
      let (writer, d1) = api.create_shard_file bucket object data_dir part d in
      elim writer [
        | err e ↦ (some e, d1)
        | ok w ↦
            let (copied, d2) = api.copy_to_shard w content d1 in
            let (closed, d3) = api.close_shard w d2 in (join copied closed, d3)
      ]

  store_shard_lem :
      (bucket object data_dir : Text) (part : ℕ) (content : Bytes) (d : D)
      → store_shard api digits bucket object data_dir part content d
        ≡ written api digits (store_all bucket object data_dir part content d)
  unfolding store_shard
  store_shard_lem bucket object data_dir part content d =
      by_writer (api.create_shard_file bucket object data_dir part d) refl
    where
      by_writer :
          (x : Result W × D)
          → api.create_shard_file bucket object data_dir part d ≡ x
          → store_shard api digits bucket object data_dir part content d
            ≡ written api digits (store_all bucket object data_dir part content d)
      by_writer (ok w, d1) e = rw (e, store_shard, store_all) refl
      by_writer (err x, d1) e = rw (e, store_shard, store_all) refl

  abbrev shard_request : Method → (bucket object data_dir : Text) (part : ℕ) → Bytes → Request
  shard_request method bucket object data_dir part content = record {
    method = method;
    path = drive_path drive_id shard_op;
    values = shard_values digits bucket object data_dir part;
    body = content;
    time_header = [];
    config_header = [];
    auth_header = [];
  }

  part_number_lem :
      (part : ℕ) → 1 ≤ part → part < 2 ^ 63 → part_number (digits.atoi (digits.itoa part)) ≡ ok part
  part_number_lem part pos small = rw (digits.atoi_itoa part small) (ground arith)

  shard_values-part :
      (bucket object data_dir : Text) (part : ℕ)
      → 1 ≤ part
      → shard_values digits bucket object data_dir part
        ≡ set_value
            (set_value (object_values bucket object) data_dir_key data_dir)
            part_key
            (digits.itoa part)
  shard_values-part bucket object data_dir part pos =
      let given : (part == 0) ≡ false = ground arith in rw (given, shard_values) refl

  serve_shard_post :
      (bucket object data_dir : Text) (part : ℕ) (content : Bytes) (d : D)
      → 1 ≤ part
      → part < 2 ^ 63
      → serve_shard api digits
          (shard_request post_method bucket object data_dir part content)
          post_method
          d
        ≡ store_shard api digits bucket object data_dir part content d
  unfolding serve_shard
  serve_shard_post bucket object data_dir part content d pos small =
      rw (shard_values-part bucket object data_dir part pos)
        (rw (part_number_lem part pos small, serve_shard) refl)

  -- Writing a shard of a part numbered from 1 through the storage client and server creates,
  -- copies and closes the shard of the drive, with the joined error as the protocol hands it on.
  pub remote_write_shard :
      (bucket object data_dir : Text) (part : ℕ) (content : Bytes) (d : D)
      → 1 ≤ part
      → part < 2 ^ 63
      → write_shard digits
          (to_drive api digits drive_id)
          drive_id
          bucket
          object
          data_dir
          part
          content
          d
        ≡ remote_written (store_all bucket object data_dir part content d)
  unfolding write_shard call_error call serve
  remote_write_shard bucket object data_dir part content d pos small =
      ap (λ x. (error_of (check_status x.0), x.1))
        (serve_shard_post bucket object data_dir part content d pos small
          ∙ store_shard_lem bucket object data_dir part content d)
      ∙ error_of-written (store_all bucket object data_dir part content d)

  shard_range_lem :
      (offset size : ℕ)
      → offset < 2 ^ 63
      → 1 ≤ size
      → size ≤ max_length
      → shard_range (digits.atoi (digits.itoa offset)) (digits.atoi (digits.itoa size))
        ≡ ok (offset, size)
  shard_range_lem offset size wide pos small =
      rw (digits.atoi_itoa offset wide, digits.atoi_itoa size (omega arith)) (ground arith)

  -- The drive reads some bytes of a shard: as many as asked for, or fewer with the end of the file.
  abbrev pub ReadsSome :
      (bucket object data_dir : Text) (part offset size : ℕ) → D → Bytes → Option Error → Type 0
  ReadsSome bucket object data_dir part offset size d b failure =
      (reader : ShardReader) × (api.read_shard_file bucket object data_dir part d ≡ ok reader)
      × (reader.close_error ≡ none)
      × (reader.read_at offset size ≡ (b, failure))
      × (0 < length b)
      × ((length b ≡ size) × (failure ≡ none) ⊎ (length b < size) × (failure ≡ some eof))

  shard_answer_lem :
      (size : ℕ) (b : Bytes) (failure : Option Error)
      → 0 < length b
      → (length b ≡ size) × (failure ≡ none) ⊎ (length b < size) × (failure ≡ some eof)
      → shard_answer (b, failure) none ≡ write_body (raw b)
  shard_answer_lem size b failure pos (inl (l, f)) = rw f refl
  shard_answer_lem size b failure pos (inr (l, f)) =
      let some_read : ltb 0 (length b) ≡ true = ground arith in rw (f, some_read) refl

  fill_buffer_lem :
      (size : ℕ) (b : Bytes) (failure : Option Error)
      → 0 < length b
      → (length b ≡ size) × (failure ≡ none) ⊎ (length b < size) × (failure ≡ some eof)
      → let (c, e) = fill_buffer size b in
        ◌≡◌ {A = Bytes × Option Error}
          (c, elim e [ none ↦ none | some x ↦ some (end_of_shard x) ])
          (b, failure)
  fill_buffer_lem size b failure pos (inl (l, f)) =
      let full : leb size (length b) ≡ true = ground arith in
      rw (full, f, take_all size b (omega arith)) refl
  fill_buffer_lem size b failure pos (inr (l, f)) =
      let short : leb size (length b) ≡ false = ground arith in
      let any : (length b == 0) ≡ false = ground arith in rw (short, any, f) refl

  load_shard_lem :
      (bucket object data_dir : Text) (part offset size : ℕ) (d : D) (b : Bytes)
      (failure : Option Error)
      → ReadsSome bucket object data_dir part offset size d b failure
      → load_shard api digits bucket object data_dir part (ok (offset, size)) d ≡ write_body (raw b)
  unfolding load_shard
  load_shard_lem bucket object data_dir part offset size d b failure
        (reader, opened, closed, got, any, how) =
      rw (opened, load_shard) (rw (got, closed) (shard_answer_lem size b failure any how))

  abbrev range_request : (bucket object data_dir : Text) (part offset size : ℕ) → Request
  range_request bucket object data_dir part offset size =
      record (shard_request get_method bucket object data_dir part []) {
        values =
            set_value
              (set_value (shard_values digits bucket object data_dir part) offset_key
                (digits.itoa offset))
              length_key (digits.itoa size);
      }

  serve_shard_get :
      (bucket object data_dir : Text) (part offset size : ℕ) (d : D)
      → 1 ≤ part
      → part < 2 ^ 63
      → offset < 2 ^ 63
      → 1 ≤ size
      → size ≤ max_length
      → serve_shard api digits (range_request bucket object data_dir part offset size) get_method d
        ≡ (load_shard api digits bucket object data_dir part (ok (offset, size)) d, d)
  unfolding serve_shard
  serve_shard_get bucket object data_dir part offset size d pos wp wo ls us =
      rw (shard_values-part bucket object data_dir part pos) (
        rw (part_number_lem part pos wp, serve_shard)
          (rw (shard_range_lem offset size wo ls us) refl))

  -- Reading 1 byte to 16 MiB of a shard of a part numbered from 1 through the storage client and
  -- server gives what the drive reads and its end of file, if the drive reads some bytes and
  -- closes the file without an error.
  pub remote_read_shard :
      (bucket object data_dir : Text) (part offset size : ℕ) (d : D) (b : Bytes)
      (failure : Option Error)
      → 1 ≤ part
      → part < 2 ^ 63
      → offset < 2 ^ 63
      → 1 ≤ size
      → size ≤ max_length
      → ReadsSome bucket object data_dir part offset size d b failure
      → read_at digits
          (to_drive api digits drive_id)
          drive_id
          bucket
          object
          data_dir
          part
          offset
          size
          d
        ≡ (b, failure)
  unfolding read_at read_shard call serve
  remote_read_shard bucket object data_dir part offset size d b failure pos wp wo ls us some_read =
      rw
        (
          serve_shard_get bucket object data_dir part offset size d pos wp wo ls us,
          read_at,
          read_shard,
          call,
          serve,
        )
        (rw (load_shard_lem bucket object data_dir part offset size d b failure some_read) (
          let (reader, opened, closed, got, any, how) = some_read in
          fill_buffer_lem size b failure any how))
