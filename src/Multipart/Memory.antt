-- ===== src/Multipart/Memory.antt =====
-- A drive that keeps the files of an upload in memory, beside those of the object. A value is written
-- behind its length, so a beginning of it is refused.
use mini_minio.Prelude.{
  ℕ, zero, suc, ◌≡◌, ◌⊎◌, refl, ap, ap₂, ◌∙◌, inl, inr, Bool, true, false, Bool-cases, ◌==◌, Option,
  none, some, [], ◌∷◌, ◌++◌, length, take, drop, arith, if◌then◌else◌,
}
use mini_minio.Prelude.Slices.{take-append_all, drop-append_all}
use mini_minio.Prelude.Text.{Text, text_eq, text_eq_refl}
use mini_minio.Prelude.Errors.{Error, Result, ok, err, ◌>>=◌, short_write, short_data, not_found}
use mini_minio.Erasure.Reader.{Bytes}
use mini_minio.Object.Meta.{Api, ObjectPartInfo}
use mini_minio.Object.Commit.Safe.{IsDrive}
use mini_minio.Object.Memory.{Drive, api, api-IsDrive, drive}
use mini_minio.Multipart.{MultipartState, Formats, UploadApi, state_name, multipart_part_name}
use mini_minio.Multipart.Files.{IsUploads, IsFormats, Parses}
use mini_minio.Multipart.Undone.{IsApart}

abbrev unframe : Bytes → Result Bytes
unframe [] = err short_data
unframe (n ∷ t) = if length t == n then ok t else err short_data

take-IsAll : (k : ℕ) (t : Bytes) → length (take k t) ≡ length t → take k t ≡ t
take-IsAll zero [] h = refl
take-IsAll zero (x ∷ t) h = absurd (omega arith)
take-IsAll (suc k) [] h = refl
take-IsAll (suc k) (x ∷ t) h = ap (λ l. x ∷ l) (take-IsAll k t (omega arith))

-- A value that is decoded from what is framed is parsed.
framed-Parses :
    {A : Type 0} (decode : Bytes → Result A) (content : Bytes) (value : A)
    → decode content ≡ ok value
    → Parses (λ b. unframe b >>= decode) (length content ∷ content) value
framed-Parses {A = A} decode content value h = (rw (same content) h, torn)
  where
    same : (t : Bytes) → (length t == length t) ≡ true
    same t = ground arith

    torn :
        (k : ℕ)
        → ((unframe (take k (length content ∷ content)) >>= decode) ≡ ok value)
          ⊎ ((x : Error) × ((unframe (take k (length content ∷ content)) >>= decode) ≡ err x))
    torn zero = inr (short_data, refl)
    torn (suc k) = elim (Bool-cases (length (take k content) == length content)) [
      | inl e ↦ inl (rw e (ap decode (take-IsAll k content (ground (arith, e))) ∙ h))
      | inr e ↦ inr (short_data, rw e refl)
    ]

abbrev decode_state : Bytes → Result MultipartState
decode_state (m ∷ n ∷ t) =
    ok (record { bucket = take m t; object = take n (drop m t); data_dir = drop n (drop m t) })
decode_state _ = err short_data

abbrev encode_state : MultipartState → Bytes
encode_state s = length s.bucket ∷ length s.object ∷ s.bucket ++ (s.object ++ s.data_dir)

abbrev of_texts : Text → Text × Text → Result MultipartState
of_texts bucket (object, data_dir) =
    ok (record { bucket = bucket; object = object; data_dir = data_dir })

abbrev pair : Text → Text → Text × Text
pair s t = (s, t)

decode-encode_state : (s : MultipartState) → decode_state (encode_state s) ≡ ok s
decode-encode_state s =
    let tail = s.object ++ s.data_dir in
    let rest : drop (length s.bucket) (s.bucket ++ tail) ≡ tail = drop-append_all s.bucket tail in
    ap₂ of_texts (take-append_all s.bucket tail) (
      ap₂ pair (ap (take (length s.object)) rest ∙ take-append_all s.object s.data_dir)
        (ap (drop (length s.object)) rest ∙ drop-append_all s.object s.data_dir))

abbrev decode_part : Bytes → Result ObjectPartInfo
decode_part (number ∷ size ∷ actual_size ∷ mod_time ∷ etag) = ok (record {
  etag = etag;
  number = number;
  size = size;
  actual_size = actual_size;
  mod_time = mod_time;
})
decode_part _ = err short_data

abbrev encode_part : ObjectPartInfo → Bytes
encode_part p = p.number ∷ p.size ∷ p.actual_size ∷ p.mod_time ∷ p.etag

abbrev pub formats : Formats
formats = record {
  print_state = λ s. length (encode_state s) ∷ encode_state s;
  parse_state = λ b. unframe b >>= decode_state;
  print_part = λ p. length (encode_part p) ∷ encode_part p;
  parse_part = λ b. unframe b >>= decode_part;
  itoa = λ n. n ∷ [];
  md5 = λ b. b;
}

pub formats-IsFormats : IsFormats formats
formats-IsFormats = record {
  states = λ s. framed-Parses decode_state (encode_state s) s (decode-encode_state s);
  parts = λ p. framed-Parses decode_part (encode_part p) p refl;
}

-- The files of one upload by their names, beside the files of the object.
pub record Store : Type 0 where
  pub disk : Drive
  pub files : Text → Result Bytes
  pub full : Bool

abbrev write_file : Text → Bytes → Store → Option Error × Store
write_file name content s =
    if s.full
    then (some short_write, s)
    else (none, record s { files = λ n. if text_eq n name then ok content else s.files n })

abbrev pub uploads : UploadApi Store
uploads = record {
  write_upload_meta = λ bucket object upload_id name content s. write_file name content s;
  read_upload_meta = λ bucket object upload_id name s. s.files name;
  delete_upload = λ bucket object upload_id s. (none, record s { files = λ n. err not_found });
}

pub uploads-IsUploads : IsUploads uploads (2 ∷ []) (1 ∷ []) (5 ∷ [])
uploads-IsUploads = record {
  read_written = λ name content s done. ground (arith, done, text_eq_refl name);
  read_torn = λ name content s failed. elim (Bool-cases s.full) [
    | inl t ↦ inl (rw t refl)
    | inr f ↦ absurd (failed (rw f refl))
  ];
}

-- The files of the object are those of the drive.
abbrev on_disk : Option Error × Drive → Store → Option Error × Store
on_disk r s = (r.0, record s { disk = r.1 })

abbrev pub store_api : Api Store
store_api = record {
  write_meta_tmp = λ b o m s. on_disk (api.write_meta_tmp b o m s.disk) s;
  rename_meta = λ b o s. on_disk (api.rename_meta b o s.disk) s;
  read_meta = λ b o s. api.read_meta b o s.disk;
  delete_object_data = λ b o t s. on_disk (api.delete_object_data b o t s.disk) s;
  delete_object = λ b o s. on_disk (api.delete_object b o s.disk) s;
}

pub store_api-IsDrive : IsDrive store_api (2 ∷ []) (1 ∷ [])
store_api-IsDrive = record {
  meta_of = λ s. api-IsDrive.meta_of s.disk;
  tmp_of = λ s. api-IsDrive.tmp_of s.disk;
  data_of = λ t s. api-IsDrive.data_of t s.disk;
  tmp_lem = λ m s h. api-IsDrive.tmp_lem m s.disk h;
  tmp_keeps = λ m s. api-IsDrive.tmp_keeps m s.disk;
  tmp_data = λ m s t. api-IsDrive.tmp_data m s.disk t;
  rename_lem = λ s h. api-IsDrive.rename_lem s.disk h;
  rename_fails = λ s h. api-IsDrive.rename_fails s.disk h;
  rename_data = λ s t. api-IsDrive.rename_data s.disk t;
  delete_keeps = λ t s. api-IsDrive.delete_keeps t s.disk;
  delete_data = λ t u s ne. api-IsDrive.delete_data t u s.disk ne;
}

pub store_api-IsApart : IsApart uploads store_api (2 ∷ []) (1 ∷ []) (5 ∷ [])
store_api-IsApart = record {
  data_of = λ t s. s.disk.files t;
  removed = λ t s h. rw (text_eq_refl t) refl;
  tmp_meta = λ m s. ground arith;
  delete_meta = λ t s. refl;
  tmp_keeps = λ m s name. refl;
  delete_keeps = λ t s name. refl;
}

abbrev pub empty : Bool → Store
empty broken = record { disk = drive broken; files = λ n. err not_found; full = false }

abbrev pub no_error : Text → ℕ → Option Error
no_error name i = none

abbrev pub new_state : MultipartState
new_state = record { bucket = 2 ∷ []; object = 1 ∷ []; data_dir = 4 ∷ [] }

abbrev pub new_part : ObjectPartInfo
new_part = record { etag = 48 ∷ 65 ∷ []; number = 1; size = 4; actual_size = 4; mod_time = 9 }

-- An upload with one part.
abbrev pub uploaded : Bool → Store
uploaded broken = record (empty broken) {
  files = λ n.
      if text_eq n state_name
      then ok (formats.print_state new_state)
      else if text_eq n (multipart_part_name formats 1)
      then ok (formats.print_part new_part)
      else err not_found;
}
