-- ===== src/Multipart/Files.antt =====
-- The files of an upload as they are written and read back.
use mini_minio.Prelude.{
  ℕ, suc, ◌<◌, ◌≤◌, ◌≡◌, ◌≢◌, ◌⊎◌, refl, sym, ap, ◌∙◌, inl, inr, true, false, ltb, ◌==◌, Bool-cases,
  Option-cases, Option, none, some, List, [], ◌∷◌, All, take, arith,
}
use mini_minio.Prelude.Text.{Text, text_eq, text_eq_refl}
use mini_minio.Prelude.Errors.{Error, Result, ok, err, ◌>>=◌, unless, Result-cases}
use mini_minio.Erasure.{Geometry, shard_file_size}
use mini_minio.Erasure.Reader.{Bytes}
use mini_minio.Object.Commit.{write_quorum_of}
use mini_minio.Object.Meta.{ObjectPartInfo}
use mini_minio.Multipart.{
  MultipartState, Formats, UploadApi, on_all, successes, check_write_quorum, state_name,
  multipart_part_name, write_upload_meta, read_upload_meta, read_multipart_state,
  read_multipart_part, new_multipart_upload, put_object_part,
}

-- A file that was written is read. A write that fails leaves the file of before, or a beginning of
-- what was to be written.
pub record IsUploads {D : Type 0} (uploads : UploadApi D) (bucket object upload_id : Text)
    : Type 0 where
  pub read_written :
      (name : Text) (content : Bytes) (d : D)
      → let (failure, d') = uploads.write_upload_meta bucket object upload_id name content d in
        failure ≡ none → uploads.read_upload_meta bucket object upload_id name d' ≡ ok content
  pub read_torn :
      (name : Text) (content : Bytes) (d : D)
      → let (failure, d') = uploads.write_upload_meta bucket object upload_id name content d in
        let after = uploads.read_upload_meta bucket object upload_id name d' in
        failure ≢ none
        → (after ≡ uploads.read_upload_meta bucket object upload_id name d)
          ⊎ ((k : ℕ) × (after ≡ ok (take k content)))

-- `parse` refuses a beginning of what is printed, or reads all of it.
abbrev pub Parses : {A : Type 0} → (Bytes → Result A) → Bytes → A → Type 0
Parses parse content value =
    (parse content ≡ ok value)
    × ((k : ℕ)
        → (parse (take k content) ≡ ok value) ⊎ ((x : Error) × (parse (take k content) ≡ err x)))

pub record IsFormats (formats : Formats) : Type 0 where
  pub states : (s : MultipartState) → Parses formats.parse_state (formats.print_state s) s
  pub parts : (p : ObjectPartInfo) → Parses formats.parse_part (formats.print_part p) p

-- No drive has the file.
abbrev pub IsFresh :
    {D : Type 0} → UploadApi D → (bucket object upload_id name : Text) → List D → Type 0
IsFresh uploads bucket object upload_id name =
    All (λ d. (x : Error) × (uploads.read_upload_meta bucket object upload_id name d ≡ err x))

module _ {D : Type 0} (uploads : UploadApi D) (formats : Formats) (e : Geometry)
    (bucket object upload_id : Text) (laws : IsUploads uploads bucket object upload_id)
    (ctx_err : Text → ℕ → Option Error)
    (alive : (name : Text) (i : ℕ) → ctx_err name i ≡ none) where
  module _ {A : Type 0} (parse : Bytes → Result A) (name : Text) (content : Bytes) (value : A)
      (parsed : Parses parse content value) where
    abbrev write : D → Option Error × D
    write = uploads.write_upload_meta bucket object upload_id name content

    abbrev read : ℕ → List D → Result A
    read = read_upload_meta uploads formats e bucket object upload_id parse ctx_err name

    abbrev file : D → Result Bytes
    file = uploads.read_upload_meta bucket object upload_id name

    read_found :
        (i : ℕ) (d : D) (ds : List D) → (file d >>= parse) ≡ ok value → read i (d ∷ ds) ≡ ok value
    unfolding read_upload_meta
    read_found i d ds h = rw (alive name i, h, read_upload_meta) refl

    read_later :
        (i : ℕ) (d : D) (ds : List D) {x : Error}
        → (file d >>= parse) ≡ err x
        → read i (d ∷ ds) ≡ read (suc i) ds
    unfolding read_upload_meta
    read_later i d ds h = rw (alive name i, h, read_upload_meta) refl

    read_first :
        (i : ℕ) (ds : List D)
        → IsFresh uploads bucket object upload_id name ds
        → 0 < successes (on_all write ds).0
        → read i (on_all write ds).1 ≡ ok value
    unfolding on_all
    read_first i [] fresh pos = absurd (omega arith)
    read_first i (d ∷ ds) ((x, h), fresh) pos = elim (Option-cases (write d).0) [
      | inl n ↦
          read_found i (write d).1 _
            (ap (λ r. r >>= parse) (laws.read_written name content d n) ∙ parsed.0)
      | inr (y, n) ↦
          let later : read (suc i) (on_all write ds).1 ≡ ok value =
            read_first (suc i) ds fresh (ground (arith, pos, n)) in
          elim (laws.read_torn name content d (λ q. cc (q, n))) [
            | inl same ↦ read_later i (write d).1 _ (ap (λ r. r >>= parse) (same ∙ h)) ∙ later
            | inr (k, torn) ↦ elim (parsed.1 k) [
              | inl p ↦ read_found i (write d).1 _ (ap (λ r. r >>= parse) torn ∙ p)
              | inr (z, p) ↦ read_later i (write d).1 _ (ap (λ r. r >>= parse) torn ∙ p) ∙ later
            ]
          ]
    ]

    -- A file that was not there and is written to a quorum of the drives is read again.
    write-read :
        (ds : List D)
        → 0 < e.data_blocks
        → IsFresh uploads bucket object upload_id name ds
        → let (failure, ds') =
            write_upload_meta uploads formats e bucket object upload_id name content ds in
          failure ≡ none → read 0 ds' ≡ ok value
    unfolding write_upload_meta check_write_quorum write_quorum_of
    write-read ds blocks fresh done = read_first 0 ds fresh (ground (arith, done, blocks))

  text_eq-nil : (t : Text) → t ≢ [] → text_eq t [] ≡ false
  unfolding text_eq
  text_eq-nil [] ne = absurd (ne refl)
  text_eq-nil (c ∷ t) ne = refl

  -- If the context is not cancelled, printed states are parsed again and no drive has the state
  -- yet, the state of an upload that NewMultipartUpload has started is read by readMultipartState,
  -- also where some of the writes failed.
  pub new_multipart_upload_lem :
      (found : Option Error) (data_dir : Text) (drives : List D)
      → IsFormats formats
      → 0 < e.data_blocks
      → data_dir ≢ []
      → IsFresh uploads bucket object upload_id state_name drives
      → let (r, drives') =
          new_multipart_upload uploads formats e bucket object upload_id found data_dir drives in
        r ≡ ok upload_id
        → read_multipart_state uploads formats e bucket object upload_id ctx_err drives'
          ≡ ok (record { bucket = bucket; object = object; data_dir = data_dir })
  unfolding new_multipart_upload read_multipart_state
  new_multipart_upload_lem (some x) data_dir drives json blocks named fresh done =
      absurd (ground (arith, done))
  new_multipart_upload_lem none data_dir drives json blocks named fresh done =
      let state : MultipartState = record {
        bucket = bucket;
        object = object;
        data_dir = data_dir;
      } in
      let got =
        write-read formats.parse_state state_name (formats.print_state state) state
          (json.states state) drives blocks fresh (ground (arith, done)) in
      rw got (ground (arith, text_eq_refl bucket, text_eq_refl object, text_eq-nil data_dir named))

  -- A part that was returned is read back under its number.
  abbrev IsRecorded : ℕ → Result ObjectPartInfo × List D → Type 0
  IsRecorded number (r, drives) =
      (part : ObjectPartInfo)
      → r ≡ ok part
      → (read_multipart_part uploads formats e bucket object upload_id ctx_err drives number
          ≡ ok part)
        × (part.number ≡ number)
        × (1 ≤ number)

  record_part :
      (part : ObjectPartInfo) (written : List D)
      → IsFormats formats
      → 0 < e.data_blocks
      → 1 ≤ part.number
      → IsFresh uploads bucket object upload_id (multipart_part_name formats part.number) written
      → let (failure, drives') =
          write_upload_meta uploads formats e bucket object upload_id
            (multipart_part_name formats part.number)
            (formats.print_part part)
            written in
        IsRecorded part.number (unless failure part, drives')
  unfolding read_multipart_part
  record_part part written json blocks pos fresh part' done =
      let name = multipart_part_name formats part.number in
      let kept =
        write-read formats.parse_part name (formats.print_part part) part (json.parts part) written
          blocks fresh (ground (arith, done)) in
      let same : part ≡ part' = ground (arith, done) in
      let same_number : (part.number == part.number) ≡ true = ground arith in
      (rw (kept, same_number) (ap ok same), ap (λ p. p.number) (sym same), pos)

  -- PutObjectPart on every branch.
  put_object_part-IsRecorded :
      (write_data : Text → ℕ → List D → Result ℕ × List D) (etag : Text) (now number : ℕ)
      (drives : List D)
      → IsFormats formats
      → 0 < e.data_blocks
      → ((data_dir : Text)
          → IsFresh uploads bucket object upload_id
              (multipart_part_name formats number)
              (write_data data_dir number drives).1)
      → IsRecorded number (
          put_object_part uploads formats e bucket object upload_id write_data ctx_err etag now
            number drives)
  unfolding put_object_part
  put_object_part-IsRecorded write_data etag now number drives json blocks fresh =
      elim (Bool-cases (ltb number 1)) [
        | inl t ↦ rw (t, put_object_part) (λ part done. absurd (cc done))
        | inr f ↦
            elim (Result-cases
              (read_multipart_state uploads formats e bucket object upload_id ctx_err drives)) [
                | inl (x, h) ↦ rw (f, h, put_object_part) (λ part done. absurd (cc done))
                | inr (state, h) ↦ elim (Result-cases (write_data state.data_dir number drives).0) [
                  | inl (x, w) ↦ rw (f, h, w, put_object_part) (λ part done. absurd (cc done))
                  | inr (n, w) ↦
                      rw (f, h, w, put_object_part)
                        (record_part
                          (record {
                            etag = etag;
                            number = number;
                            size = shard_file_size e n;
                            actual_size = n;
                            mod_time = now;
                          })
                          (write_data state.data_dir number drives).1 json blocks
                          (ground (arith, f)) (fresh state.data_dir))
                ]
              ]
      ]

  -- If the context is not cancelled, printed parts are parsed again and no drive has the record of
  -- the part yet, a part that PutObjectPart returns has the given number, at least 1, and is read
  -- by readMultipartPart under it, also where some of the writes failed.
  pub put_object_part_lem :
      (write_data : Text → ℕ → List D → Result ℕ × List D) (etag : Text) (now number : ℕ)
      (drives : List D) (part : ObjectPartInfo)
      → IsFormats formats
      → 0 < e.data_blocks
      → ((data_dir : Text)
          → IsFresh uploads bucket object upload_id
              (multipart_part_name formats number)
              (write_data data_dir number drives).1)
      → let (r, drives') =
          put_object_part uploads formats e bucket object upload_id write_data ctx_err etag now
            number drives in
        r ≡ ok part
        → (read_multipart_part uploads formats e bucket object upload_id ctx_err drives' number
            ≡ ok part)
          × (part.number ≡ number)
          × (1 ≤ number)
  put_object_part_lem write_data etag now number drives part json blocks fresh done =
      put_object_part-IsRecorded write_data etag now number drives json blocks fresh part done
