-- ===== src/Rest/Auth.antt =====
-- The request signature (cmd/storage-rest-common.go). `mac` is the hexadecimal HMAC-SHA256 of the
-- standard library, of the secret and the signed parts.
use mini_minio.Prelude.{
  ℕ, ◌+◌, ◌-◌, ◌*◌, ◌/◌, ◌^◌, ◌<◌, ◌≤◌, ◌≡◌, ◌≢◌, Bool, true, false, not, ◌&&◌, ltb, [], arith,
}
use mini_minio.Prelude.Text.{Text, text_eq, text_eq_refl, text_eq→eq}
use mini_minio.Rest.{
  Request, Method, RequestPath, Values, Digits, Number, natural, negative, malformed,
}

-- A minute and a second, in nanoseconds.
abbrev pub minute : ℕ
minute = 60000000000

abbrev pub second : ℕ
second = 1000000000

module _ (digits : Digits) (mac : Text → Text → Method → RequestPath → Values → Text → Text) where
  -- storageRESTSignature
  pub signature : (secret : Text) → Request → Text
  signature secret r = mac secret r.time_header r.method r.path r.values r.config_header

  -- `time.Since` and `time.Until` of the timestamp are at most a minute, at time `now`.
  pub is_recent : (now : ℕ) → Number → Bool
  is_recent now (natural n) =
      not (ltb minute (now - n * second)) && not (ltb minute (n * second - now))
  is_recent now (negative n) = not (ltb minute (now + n * second))
  is_recent now malformed = false

  -- validStorageRESTRequest
  pub valid_request : (secret config_hash : Text) (now : ℕ) → Request → Bool
  valid_request secret config_hash now r =
      not (text_eq secret [])
      && text_eq r.config_header config_hash
      && is_recent now (digits.atoi r.time_header)
      && text_eq (mac secret r.time_header r.method r.path r.values config_hash) r.auth_header

  -- What a client sends at time `now`: the request with its three headers.
  pub sign : (secret config_hash : Text) (now : ℕ) → Request → Request
  sign secret config_hash now r =
      let timed = record r {
        time_header = digits.itoa (now / second);
        config_header = config_hash;
      } in
      record timed { auth_header = signature secret timed }

  -- A server with the same secret, not empty, and the same configuration accepts what a client
  -- signed at a time below 2^63, if the clocks differ by at most 59 seconds.
  pub valid_request-sign :
      (secret config_hash : Text) (sent now : ℕ) (r : Request)
      → secret ≢ []
      → sent < 2 ^ 63
      → sent ≤ now + 59 * second
      → now ≤ sent + 59 * second
      → valid_request secret config_hash now (sign secret config_hash sent r) ≡ true
  unfolding valid_request sign signature is_recent
  valid_request-sign secret config_hash sent now r keyed small early late =
      let whole : sent / second < 2 ^ 63 = omega arith in
      ground (
        arith,
        digits.atoi_itoa (sent / second) whole,
        text_eq_refl config_hash,
        text_eq_refl
            (mac secret (digits.itoa (sent / second)) r.method r.path r.values config_hash),
        text_eq→eq secret [],
      )
