-- ===== src/Signature/Tests.antt =====
-- A presigned URL of five seconds, used in its last moment, with times in whole seconds and with hashes that keep their content.
use mini_minio.Prelude.{ℕ, ◌*◌, ◌/◌, ◌≡◌, refl, ap, none, [], ◌∷◌, ◌++◌, if◌then◌else◌, arith}
use mini_minio.Prelude.Int.{ℤ, pos}
use mini_minio.Prelude.Text.{Text, text_eq}
use mini_minio.Prelude.Errors.{Result, ok, err, short_data}
use mini_minio.Signature.Names.{host, host_key}
use mini_minio.Signature.{Credentials, Library, Request, verify_presigned_auth, presign_url, second}
use mini_minio.Signature.Presigned.{IsLibrary, verify_presigned_auth-presign_url}

abbrev read_number : Text → Result ℕ
read_number (n ∷ []) = ok (n * second)
read_number _ = err short_data

abbrev read_seconds : Text → Result ℤ
read_seconds (n ∷ c ∷ []) = ok (pos (n * second))
read_seconds _ = err short_data

abbrev library : Library
library = record {
  escaped_path = λ s. s;
  format_date = λ t. t / second ∷ [];
  format_iso = λ t. t / second ∷ [];
  parse_iso = read_number;
  parse_duration = read_seconds;
  itoa = λ n. n ∷ [];
  query_escape = λ s. s;
  canonical_key = λ k. if text_eq k host then host_key else k;
  to_lower = λ k. k;
  trim_space = λ s. s;
  hmac = λ key content. key ++ content;
  sha256 = λ content. content;
}

whole_seconds : (t : ℕ) → t / second * second / second ≡ t / second
whole_seconds t = omega arith

library-IsLibrary : IsLibrary library
unfolding text_eq
library-IsLibrary = record {
  parse-format_iso = λ t small. refl;
  format_iso_whole = λ t small. ap (λ n. n ∷ []) (whole_seconds t);
  format_date_whole = λ t small. ap (λ n. n ∷ []) (whole_seconds t);
  parse-itoa = λ n small. refl;
  lower_host = refl;
  canonical_host = refl;
}

abbrev creds : Credentials
creds = record { access_key = 65 ∷ 75 ∷ []; secret_key = 83 ∷ 75 ∷ [] }

abbrev request : Request library
request =
    let url =
      presign_url library (104 ∷ []) (71 ∷ []) (98 ∷ []) (111 ∷ []) (65 ∷ 75 ∷ []) (83 ∷ 75 ∷ [])
        2000000007 5000000000 in
    record {
      method = 71 ∷ [];
      escaped_path = url.0;
      query = url.1;
      host_name = 104 ∷ [];
      headers = [];
    }

verify_presigned_auth-presign_url_example :
    verify_presigned_auth library creds 7000000000 request ≡ none
verify_presigned_auth-presign_url_example =
    verify_presigned_auth-presign_url library library-IsLibrary creds (71 ∷ []) (98 ∷ []) (111 ∷ [])
      (104 ∷ []) [] 2000000007 5000000000 7000000000 (omega arith) (omega arith)
      ((λ e. absurd (omega (arith, e))), ((λ e. absurd (omega (arith, e))), tt)) refl refl
