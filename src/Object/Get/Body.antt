-- ===== src/Object/Get/Body.antt =====
-- The body of a response and the range that the request asks for.
use mini_minio.Prelude.{
  ℕ, ◌+◌, ◌-◌, ◌≤◌, ◌≡◌, refl, ap, ◌∙◌, inl, inr, Option, none, some, List, [], concat, length,
  All₂, arith,
}
use mini_minio.Prelude.Slices.{slice, take_all}
use mini_minio.Prelude.Text.{Text}
use mini_minio.Prelude.Errors.{Error, Result, ok, ◌>>=◌, Result-cases}
use mini_minio.Erasure.Reader.{Bytes}
use mini_minio.Object.Meta.{XlMeta}
use mini_minio.Object.Parts.Cover.{Decodes, decode_object_lem}
use mini_minio.Object.Range.{RangeSpec, get_offset_length}
use mini_minio.Object.Range.Requests.{ByteRange, requested, spec_of, get_offset_length_lem}
use mini_minio.Object.Get.{ObjectInfo, to_ℕ, get_object_n_info}

abbrev pub spec_of? : Option ByteRange → Option RangeSpec
spec_of? none = none
spec_of? (some r) = some (spec_of r)

-- The bytes of an object that a request asks for.
abbrev pub requested_bytes : Option ByteRange → Bytes → Result Bytes
requested_bytes none all = ok all
requested_bytes (some r) all = requested r (length all) >>= λ range.
    ok (slice (to_ℕ range.0) (to_ℕ range.0 + to_ℕ range.1) all)

abbrev pub info_of : (bucket object : Text) → XlMeta → ObjectInfo
info_of bucket object meta = record {
  bucket = bucket;
  name = object;
  size = meta.size;
  mod_time = meta.mod_time;
  etag = meta.etag;
  content_type = meta.content_type;
  parts = [];
}

-- GetObjectNInfo of an object of two parts or more, whose parts decode to their contents and whose
-- size is theirs: with no range the body is the whole object, with a range it is the bytes that
-- the range asks for, or the range is refused, and the body ends without an error.
pub get_object_n_info_lem :
    (decode_part : (number offset len total : ℕ) → Bytes × Option Error)
    (close_part : ℕ → Option Error) (bucket object : Text) (meta : XlMeta) (contents : List Bytes)
    (r : Option ByteRange)
    → 2 ≤ length meta.parts
    → All₂ (Decodes decode_part close_part) meta.parts contents
    → meta.size ≡ length (concat contents)
    → get_object_n_info decode_part close_part bucket object (ok meta) (spec_of? r) ≡ (
        requested_bytes r (concat contents) >>= λ body.
        ok (info_of bucket object meta, (body, none)))
unfolding get_object_n_info
get_object_n_info_lem decode_part close_part bucket object meta contents none many h size =
    let all = concat contents in
    ap (λ b. ok (info_of bucket object meta, b))
      (decode_object_lem decode_part close_part meta.size 0 meta.size meta.parts contents many h
        ∙ ap (λ b. (b, none)) (take_all (0 + meta.size - 0) all (omega (arith, size))))
get_object_n_info_lem decode_part close_part bucket object meta contents (some r) many h size =
    let all = concat contents in
    let ask : get_offset_length (spec_of r) meta.size ≡ requested r (length all) =
      get_offset_length_lem r meta.size ∙ ap (requested r) size in
    elim (Result-cases (requested r (length all))) [
      | inl (x, q) ↦ rw (ask ∙ q, q) refl
      | inr (range, q) ↦
          rw (ask ∙ q, q)
            (ap (λ b. ok (info_of bucket object meta, b))
              (decode_object_lem decode_part close_part meta.size (to_ℕ range.0) (to_ℕ range.1)
                meta.parts contents many h))
    ]
