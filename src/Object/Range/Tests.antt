-- ===== src/Object/Range/Tests.antt =====
-- The theorems about ranges, with decimal numbers of one digit.
use mini_minio.Prelude.{ℕ, ◌+◌, ◌-◌, ◌≡◌, [], ◌∷◌, arith}
use mini_minio.Prelude.Int.{ℤ, pos, neg_ℕ}
use mini_minio.Prelude.Text.{Text}
use mini_minio.Prelude.Errors.{Result, ok, err, ◌>>=◌, invalid_range}
use mini_minio.Object.Range.{get_offset_length, parse_range_spec}
use mini_minio.Object.Range.Requests.{from_to, IsDigits, range_header, parse_range_spec_lem}

-- A number is written as one character past the dash.
abbrev itoa : ℕ → Text
itoa n = (46 + n) ∷ []

abbrev parse_int : Text → Result ℤ
parse_int (c ∷ []) = ok (pos (c - 46))
parse_int (d ∷ c ∷ []) = ok (neg_ℕ (c - 46))
parse_int _ = err invalid_range

itoa-IsDigits : (n : ℕ) → IsDigits (itoa n)
itoa-IsDigits n = (λ e. absurd (cc), (omega arith, tt))

parse_range_spec_lem_example :
    (parse_range_spec parse_int (
        range_header itoa parse_int itoa-IsDigits
          (λ n lt. ground arith)
          (λ n lt. ground arith)
          (from_to 2 9))
      >>= λ rs. get_offset_length rs 6)
    ≡ ok (pos 2, pos 4)
parse_range_spec_lem_example =
    parse_range_spec_lem itoa parse_int itoa-IsDigits (λ n lt. ground arith) (λ n lt. ground arith)
      (from_to 2 9) 6 (omega arith, omega arith)
