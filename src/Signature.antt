-- ===== src/Signature.antt =====
-- SigV4 request signatures (cmd/signature-v4.go) and authMiddleware (cmd/api-handlers.go). Dates,
-- durations, escapes, SHA-256 and HMAC are the standard library's, and parameters. A text is its
-- bytes, so no conversion between strings and bytes is written.
pub mod Names
pub mod Maps
pub mod Presigned
mod Tests
use mini_minio.Prelude.{
  ℕ, suc, ◌/◌, Bool, true, false, not, ◌&&◌, ◌||◌, Option, none, some, List, [], ◌∷◌, ◌++◌, map,
  length, ltb, ◌==◌, if◌then◌else◌,
}
use mini_minio.Prelude.Int.{ℤ, sub_ℕ, ltb_ℤ}
use mini_minio.Prelude.Text.{Text, text_eq, text_lt, strip}
use mini_minio.Prelude.Errors.{Error, Result, ok, err, ◌>>=◌, other}
use mini_minio.Hash.{print_hex}
use mini_minio.Signature.Maps.{
  Values, values_of, get, put, split_first, split, join_with, insert_entry, sort_entries, without,
}
use mini_minio.Signature.Names.{
  sign_v4_algorithm, unsigned_payload, region, service, aws4, aws4_request, algorithm_key,
  credential_key, date_key, expires_key, signed_headers_key, signature_key, payload_hash_key,
  authorization_key, host_key, host, credential_field, signed_headers_field, signature_field,
}

pub record Credentials : Type 0 where
  pub access_key : Text
  pub secret_key : Text

-- A second in nanoseconds.
abbrev pub second : ℕ
second = 1000000000

-- The standard library: times in nanoseconds, `t.Format` and `time.Parse` with the two layouts,
-- `time.ParseDuration`, `url.QueryEscape`, the texts of headers, and the hashes.
-- `escaped_path` is `EscapedPath()` of the URL that is parsed from a path.
pub record Library : Type 0 where
  pub escaped_path : Text → Text
  pub format_date : ℕ → Text
  pub format_iso : ℕ → Text
  pub parse_iso : Text → Result ℕ
  pub parse_duration : Text → Result ℤ
  pub itoa : ℕ → Text
  pub query_escape : Text → Text
  pub canonical_key : Text → Text
  pub to_lower : Text → Text
  pub trim_space : Text → Text
  pub hmac : (key content : Text) → Text
  pub sha256 : Text → Text

module _ (lib : Library) where
  -- signingKey
  unfoldable pub signing_key : (secret : Text) (t : ℕ) → Text
  signing_key secret t =
      let date = lib.hmac (aws4 ++ secret) (lib.format_date t) in
      let reg = lib.hmac date region in let svc = lib.hmac reg service in lib.hmac svc aws4_request

  -- scope
  abbrev pub scope : ℕ → Text
  scope t = lib.format_date t ++ (47 ∷ region ++ (47 ∷ service ++ (47 ∷ aws4_request)))

  abbrev pub parts_of : Text → List Text → List Text
  parts_of k [] = []
  parts_of k (v ∷ vs) = (lib.query_escape k ++ (61 ∷ lib.query_escape v)) ∷ parts_of k vs

  unfoldable pub all_parts : Values → List Text
  all_parts [] = []
  all_parts ((k, vs) ∷ q) = parts_of k vs ++ all_parts q

  -- canonicalQueryString
  unfoldable pub canonical_query_string : Values → (exclude_sig : Bool) → Text
  canonical_query_string q exclude_sig =
      join_with (38 ∷ [])
        (all_parts (sort_entries (if exclude_sig then without signature_key q else q)))

  -- The map of canonicalHeaders.
  unfoldable pub lower_headers :
      (h : Values) (signed : List Text) → List (Text × List Text) → List (Text × List Text)
  lower_headers h [] m = m
  lower_headers h (k ∷ signed) m =
      lower_headers h signed
        (put (lib.to_lower k) (lib.trim_space (get (lib.canonical_key k) h) ∷ []) m)

  abbrev pub header_lines : Values → Text
  header_lines [] = []
  header_lines ((k, vs) ∷ m) = k ++ (58 ∷ (get k ((k, vs) ∷ []) ++ (10 ∷ header_lines m)))

  -- canonicalHeaders
  unfoldable pub canonical_headers : (h : Values) (signed : List Text) → Text × Text
  canonical_headers h signed =
      let m = sort_entries (lower_headers h signed []) in
      (header_lines m, join_with (59 ∷ []) (map (λ e. e.0) m))

  -- A request; `escaped_path` is `r.URL.EscapedPath()` and `query` is `r.URL.Query()`.
  pub record Request : Type 0 where
    pub method : Text
    pub escaped_path : Text
    pub query : Values
    pub host_name : Text
    pub headers : Values

  -- The header map that is signed: the host is not in `r.Header`.
  unfoldable pub signed_headers : Request → (signed : List Text) → Values → Values
  signed_headers r [] hdr = hdr
  signed_headers r (k ∷ signed) hdr =
      if text_eq k host
      then signed_headers r signed (put host_key (r.host_name ∷ []) hdr)
      else signed_headers r signed
          (put (lib.canonical_key k) (values_of (lib.canonical_key k) r.headers) hdr)

  -- `stringToSign` and `expected`, from the parts of the canonical request.
  unfoldable pub expected_signature :
      (secret : Text) (t : ℕ) (method path query canon_hdr signed payload_hash : Text) → Text
  expected_signature secret t method path query canon_hdr signed payload_hash =
      let canon_req =
        join_with (10 ∷ []) (method ∷ path ∷ query ∷ canon_hdr ∷ signed ∷ payload_hash ∷ []) in
      let string_to_sign =
        join_with (10 ∷ []) (
          sign_v4_algorithm ∷ lib.format_iso t ∷ scope t ∷ print_hex (lib.sha256 canon_req) ∷ []) in
      print_hex (lib.hmac (signing_key secret t) string_to_sign)

  -- `strings.FieldsFunc` at commas, which drops empty fields, then the first with the prefix.
  unfoldable pub find_field : Text → List Text → Text
  find_field prefix [] = []
  find_field prefix ([] ∷ ps) = find_field prefix ps
  find_field prefix ((c ∷ cs) ∷ ps) =
      let rest = find_field prefix ps in
      elim (strip prefix (lib.trim_space (c ∷ cs))) [ some after ↦ after | none ↦ rest ]

  -- extractAuthField; `prefix` is the field with its equals sign.
  abbrev pub extract_auth_field : Text → Text → Text
  extract_auth_field s prefix = find_field prefix (split 44 s)

  -- The credential and its access key: five parts at least, the first of them the key.
  abbrev pub has_access_key : Credentials → Text → Bool
  has_access_key creds credential =
      let parts = split_first 47 credential in
      not (ltb (suc (length parts.1)) 5) && text_eq parts.0 creds.access_key

  -- verifyHeaderAuth; the number in `other` tells its errors apart.
  unfoldable pub verify_header_auth : Credentials → Request → Option Error
  verify_header_auth creds r =
      elim (strip (sign_v4_algorithm ++ (32 ∷ [])) (get authorization_key r.headers)) [
        | none ↦ some (other 10)
        | some rest ↦
            let credential = extract_auth_field rest credential_field in
            let signed_str = extract_auth_field rest signed_headers_field in
            let signature = extract_auth_field rest signature_field in
            if text_eq credential [] || text_eq signed_str [] || text_eq signature []
            then some (other 11)
            else if ltb (suc (length (split_first 47 credential).1)) 5
            then some (other 19)
            else if not (text_eq (split_first 47 credential).0 creds.access_key)
            then some (other 12)
            else elim (lib.parse_iso (get date_key r.headers)) [
              | err e ↦ some (other 13)
              | ok t ↦
                  let signed = split 59 signed_str in
                  let canonical = canonical_headers (signed_headers r signed []) signed in
                  let payload = get payload_hash_key r.headers in
                  let payload_hash = if text_eq payload [] then unsigned_payload else payload in
                  let expected =
                    expected_signature creds.secret_key t r.method r.escaped_path
                      (canonical_query_string r.query false) canonical.0 canonical.1 payload_hash in
                  if text_eq expected signature then none else some (other 14)
            ]
      ]

  -- verifyPresignedAuth at time `now`.
  unfoldable pub verify_presigned_auth : Credentials → (now : ℕ) → Request → Option Error
  verify_presigned_auth creds now r =
      if not (text_eq (get algorithm_key r.query) sign_v4_algorithm)
      then some (other 15)
      else if not (has_access_key creds (get credential_key r.query))
      then some (other 12)
      else elim (lib.parse_iso (get date_key r.query)) [
        | err e ↦ some (other 13)
        | ok t ↦ elim (lib.parse_duration (get expires_key r.query ++ (115 ∷ []))) [
          | err e ↦ some (other 16)
          | ok expires ↦
              let signed = split 59 (get signed_headers_key r.query) in
              let canonical = canonical_headers (signed_headers r signed []) signed in
              let expected =
                expected_signature creds.secret_key t r.method r.escaped_path
                  (canonical_query_string r.query true) canonical.0 canonical.1 unsigned_payload in
              if ltb_ℤ expires (sub_ℕ now t)
              then some (other 17)
              else if text_eq expected (get signature_key r.query)
              then none
              else some (other 14)
        ]
      ]

  -- authMiddleware: the error of the check, before the handler is called. ParseForm is left out:
  -- `parse_form` is its error.
  unfoldable pub authenticate :
      Credentials → (now : ℕ) (parse_form : Option Error) → Request → Option Error
  authenticate creds now parse_form r =
      if not (text_eq (get signature_key r.query) [])
      then elim parse_form [ some e ↦ some e | none ↦ verify_presigned_auth creds now r ]
      else if not (text_eq (get authorization_key r.headers) [])
      then verify_header_auth creds r
      else some (other 18)

  -- PresignURL at time `t`, from the host on: the path, which it does not escape, and the query.
  abbrev pub presigned_query : (access_key : Text) (t seconds : ℕ) → Values
  presigned_query access_key t seconds =
      (algorithm_key, sign_v4_algorithm ∷ [])
      ∷ (credential_key, (access_key ++ (47 ∷ scope t)) ∷ [])
      ∷ (date_key, lib.format_iso t ∷ [])
      ∷ (expires_key, lib.itoa seconds ∷ [])
      ∷ (signed_headers_key, host ∷ [])
      ∷ []

  abbrev pub object_path : Text → Text → Text
  object_path bucket object = 47 ∷ bucket ++ (47 ∷ object)

  unfoldable pub presign_url :
      (host_name method bucket object access_key secret_key : Text) (t expiry : ℕ) → Text × Values
  presign_url host_name method bucket object access_key secret_key t expiry =
      let q = presigned_query access_key t (expiry / second) in
      let signature =
        expected_signature secret_key t method (object_path bucket object)
          (canonical_query_string q false) (host ++ (58 ∷ (host_name ++ (10 ∷ [])))) host
          unsigned_payload in
      (object_path bucket object, put signature_key (signature ∷ []) q)
