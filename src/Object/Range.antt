-- ===== src/Object/Range.antt =====
-- Range requests: HTTPRangeSpec (cmd/httprange.go), GetOffsetLength (cmd/erasure-object.go) and
-- parseRangeSpec (cmd/api-handlers.go). An int64 is an integer here; sizes are far below 2^63.
pub mod Requests
mod Tests
use mini_minio.Prelude.{
  ℕ, zero, suc, ◌+◌, ◌-◌, ◌≡◌, ◌<◌, ◌||◌, Bool, true, false, not, ◌==◌, ltb, leb, if◌then◌else◌,
  List, [], ◌∷◌, ◌++◌, Option, none, some,
}
use mini_minio.Prelude.Int.{ℤ, pos, negsuc, ◌+ℤ◌, ◌-ℤ◌, ltb_ℤ, max_ℤ, neg_ℕ}
use mini_minio.Prelude.Text.{Text, text_eq, strip, trim_prefix}
use mini_minio.Prelude.Errors.{Error, Result, ok, err, ◌>>=◌, invalid_range}

-- `HTTPRangeSpec`
pub record RangeSpec : Type 0 where
  pub is_suffix_length : Bool
  pub start : ℤ
  pub end : ℤ

-- GetOffsetLength: the offset and the length in an object of `size` bytes.
pub get_offset_length : RangeSpec → (size : ℕ) → Result (ℤ × ℤ)
get_offset_length rs size =
    let start = max_ℤ (pos size +ℤ rs.start) (pos 0) in
    let last = pos size -ℤ pos 1 in
    let end = if ltb_ℤ rs.end (pos 0) || not (ltb_ℤ rs.end (pos size)) then last else rs.end in
    if rs.is_suffix_length
    then ok (start, pos size -ℤ start)
    else if ltb_ℤ end rs.start
    then err invalid_range
    else ok (rs.start, end -ℤ rs.start +ℤ pos 1)

-- `-`, and `bytes=`.
abbrev pub dash : ℕ
dash = 45

abbrev pub bytes_unit : Text
bytes_unit = 98 ∷ 121 ∷ 116 ∷ 101 ∷ 115 ∷ 61 ∷ []

-- `strings.SplitN(s, "-", 2)`, where it has two parts.
unfoldable pub split_dash : Text → Option (Text × Text)
split_dash [] = none
split_dash (c ∷ s) =
    let rest = split_dash s in
    if c == dash then some ([], s) else elim rest [ none ↦ none | some (a, b) ↦ some (c ∷ a, b) ]

-- `strings.HasPrefix(s, "-")`
abbrev pub has_dash : Text → Bool
has_dash [] = false
has_dash (c ∷ s) = c == dash

-- `parse_int` is `strconv.ParseInt(…, 10, 64)`.
module _ (parse_int : Text → Result ℤ) where
  -- The range without its unit: a suffix, or two parts.
  pub parse_suffix : Text → Result RangeSpec
  parse_suffix s =
      parse_int s >>= λ n. ok (record { is_suffix_length = true; start = n; end = pos 0 })

  pub parse_parts : Option (Text × Text) → Result RangeSpec
  parse_parts none = err invalid_range
  parse_parts (some (a, b)) = parse_int a >>= λ start.
      (if text_eq b [] then ok (negsuc 0) else parse_int b) >>= λ end.
      ok (record { is_suffix_length = false; start = start; end = end })

  pub parse_range_spec : Text → Result RangeSpec
  parse_range_spec header =
      let s = trim_prefix header bytes_unit in
      if has_dash s then parse_suffix s else parse_parts (split_dash s)
