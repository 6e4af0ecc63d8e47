-- ===== src/Signature/Presigned.antt =====
-- The URL of PresignURL before verifyPresignedAuth.
use mini_minio.Prelude.{
  ℕ, suc, ◌+◌, ◌*◌, ◌/◌, ◌^◌, ◌<◌, ◌≤◌, ◌≡◌, ◌≢◌, refl, ap, ap₂, ◌∙◌, Bool, true, false, none, some,
  [], ◌∷◌, ◌++◌, All, length, ltb, if◌then◌else◌, arith,
}
use mini_minio.Prelude.Int.{pos, sub_ℕ, ltb_ℤ}
use mini_minio.Prelude.Text.{Text, text_eq, text_eq_refl}
use mini_minio.Prelude.Errors.{ok, other}
use mini_minio.Signature.Names.{
  host, host_key, signature_key, unsigned_payload, aws4_request, region, service,
}
use mini_minio.Signature.{
  Credentials, Library, Request, scope, has_access_key, canonical_query_string, lower_headers,
  canonical_headers, signed_headers, expected_signature, verify_presigned_auth, presigned_query,
  presign_url, object_path, second, signing_key,
}
use mini_minio.Signature.Maps.{
  Values, get, put, without, values_of, split_first, sort_entries, insert_entry, join_with,
}

-- What is used of the library: the layouts keep the whole seconds of a time (up to the year 2262),
-- a duration in seconds is read as it was written, and the texts of the host's header.
pub record IsLibrary (lib : Library) : Type 0 where
  pub parse-format_iso :
      (t : ℕ) → t < 2 ^ 63 → lib.parse_iso (lib.format_iso t) ≡ ok (t / second * second)
  pub format_iso_whole :
      (t : ℕ) → t < 2 ^ 63 → lib.format_iso (t / second * second) ≡ lib.format_iso t
  pub format_date_whole :
      (t : ℕ) → t < 2 ^ 63 → lib.format_date (t / second * second) ≡ lib.format_date t
  pub parse-itoa :
      (n : ℕ)
      → n * second < 2 ^ 63
      → lib.parse_duration (lib.itoa n ++ (115 ∷ [])) ≡ ok (pos (n * second))
  pub lower_host : lib.to_lower host ≡ host
  pub canonical_host : lib.canonical_key host ≡ host_key

split_first-append :
    (c : ℕ) (s t : Text)
    → All (λ d. d ≢ c) s
    → split_first c (s ++ c ∷ t) ≡ (s, (split_first c t).0 ∷ (split_first c t).1)
unfolding split_first
split_first-append c [] t h = ground arith
split_first-append c (d ∷ s) t h = ground (arith, split_first-append c s t h.1)

split_first-count :
    (c : ℕ) (s t : Text) → suc (length (split_first c t).1) ≤ length (split_first c (s ++ c ∷ t)).1
unfolding split_first
split_first-count c [] t = ground arith
split_first-count c (d ∷ s) t = ground (arith, split_first-count c s t)

module _ (lib : Library) (laws : IsLibrary lib) where
  has_access_key_lem :
      (creds : Credentials) (t : ℕ)
      → All (λ d. d ≢ 47) creds.access_key
      → has_access_key lib creds (creds.access_key ++ (47 ∷ scope lib t)) ≡ true
  has_access_key_lem creds t h =
      let whole = split_first-append 47 creds.access_key (scope lib t) h in
      let tail = region ++ (47 ∷ service ++ (47 ∷ aws4_request)) in
      let some_parts = split_first-count 47 (lib.format_date t) tail in
      let three : length (split_first 47 tail).1 ≡ 2 = unfold split_first in refl in
      rw whole (ground (arith, some_parts, three, text_eq_refl creds.access_key))

  -- The host is the one header that is signed.
  host_headers :
      (r : Request lib)
      → lib.trim_space r.host_name ≡ r.host_name
      → canonical_headers lib (signed_headers lib r (host ∷ []) []) (host ∷ [])
        ≡ (host ++ (58 ∷ (r.host_name ++ (10 ∷ []))), host)
  unfolding canonical_headers signed_headers lower_headers put get values_of text_eq sort_entries
      insert_entry join_with
  host_headers r trimmed =
      rw (laws.canonical_host, laws.lower_host, canonical_headers, lower_headers, trimmed) refl

  signature_left_out :
      (access_key signature : Text) (t seconds : ℕ)
      → let q = presigned_query lib access_key t seconds in
        canonical_query_string lib (put signature_key (signature ∷ []) q) true
        ≡ canonical_query_string lib q false
  unfolding canonical_query_string put without text_eq
  signature_left_out access_key signature t seconds = refl

  abbrev late_test : (seconds t now : ℕ) → Bool
  late_test seconds t now = ltb_ℤ (pos (seconds * second)) (sub_ℕ now t)

  late_test_lem : (seconds t now : ℕ) → late_test seconds t now ≡ ltb (t + seconds * second) now
  late_test_lem seconds t now = ground arith

  signing_key_whole :
      (secret : Text) (t : ℕ)
      → t < 2 ^ 63
      → signing_key lib secret (t / second * second) ≡ signing_key lib secret t
  unfolding signing_key
  signing_key_whole secret t small = rw (laws.format_date_whole t small, signing_key) refl

  -- The signature does not depend on the fraction of the second.
  expected_signature_whole :
      (secret : Text) (t : ℕ) (method path query canon_hdr signed payload_hash : Text)
      → t < 2 ^ 63
      → expected_signature lib secret
          (t / second * second)
          method
          path
          query
          canon_hdr
          signed
          payload_hash
        ≡ expected_signature lib secret t method path query canon_hdr signed payload_hash
  unfolding expected_signature
  expected_signature_whole secret t method path query canon_hdr signed payload_hash small =
      rw
        (
          signing_key_whole secret t small,
          expected_signature,
          laws.format_iso_whole t small,
          laws.format_date_whole t small,
        )
        refl

  -- For an access key without a slash, a time below 2^63 nanoseconds, an expiry below 2^23
  -- seconds, a path that needs no escape and a host with no white space around it, a request with
  -- the method, the path, the query and the host of a URL from PresignURL is accepted by
  -- verifyPresignedAuth with the same credentials until the whole seconds of the expiry have
  -- passed since the whole second of the signing, and refused as expired after that, if the
  -- layouts keep the whole seconds of a time and a duration in seconds is read as it was written.
  pub verify_presigned_auth-presign_url :
      (creds : Credentials) (method bucket object host_name : Text) (headers : Values)
      (t expiry now : ℕ)
      → t < 2 ^ 63
      → expiry / second < 2 ^ 23
      → All (λ d. d ≢ 47) creds.access_key
      → lib.trim_space host_name ≡ host_name
      → lib.escaped_path (object_path lib bucket object) ≡ object_path lib bucket object
      → let url =
          presign_url lib host_name method bucket object creds.access_key creds.secret_key t
            expiry in
        verify_presigned_auth lib creds now (record {
          method = method;
          escaped_path = lib.escaped_path url.0;
          query = url.1;
          host_name = host_name;
          headers = headers;
        })
        ≡ (if ltb (t / second * second + expiry / second * second) now
            then some (other 17)
            else none)
  unfolding verify_presigned_auth presign_url put get values_of text_eq split_first
  verify_presigned_auth-presign_url creds method bucket object host_name headers t expiry now small
        short whole trimmed plain =
      let seconds = expiry / second in
      let start = t / second * second in
      let q = presigned_query lib creds.access_key t seconds in
      let url =
        presign_url lib host_name method bucket object creds.access_key creds.secret_key t expiry in
      let r : Request lib = record {
        method = method;
        escaped_path = lib.escaped_path url.0;
        query = url.1;
        host_name = host_name;
        headers = headers;
      } in
      let signature = get signature_key url.1 in
      let same : text_eq
            (expected_signature lib creds.secret_key start method (lib.escaped_path url.0)
              (canonical_query_string lib url.1 true)
              (canonical_headers lib (signed_headers lib r (host ∷ []) []) (host ∷ [])).0
              (canonical_headers lib (signed_headers lib r (host ∷ []) []) (host ∷ [])).1
              unsigned_payload)
            signature
          ≡ true =
        ap (λ x. text_eq x signature)
          (expected_signature_whole creds.secret_key t method _ _ _ _ _ small
            ∙ ap
                (λ path.
                  expected_signature lib creds.secret_key t method path
                    (canonical_query_string lib url.1 true)
                    (canonical_headers lib (signed_headers lib r (host ∷ []) []) (host ∷ [])).0
                    (canonical_headers lib (signed_headers lib r (host ∷ []) []) (host ∷ [])).1
                    unsigned_payload)
                plain
            ∙ ap₂
                (λ query h.
                  expected_signature lib creds.secret_key t method (object_path lib bucket object)
                    query h.0 h.1 unsigned_payload)
                (signature_left_out creds.access_key signature t seconds) (host_headers r trimmed))
        ∙ text_eq_refl signature in
      rw (has_access_key_lem creds t whole, laws.parse-format_iso t small)
        (rw (laws.parse-itoa seconds (omega (arith, short))) (
          rw same
            (ap (λ b. if b then some (other 17) else none) (late_test_lem seconds start now))))
