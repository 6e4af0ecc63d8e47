-- ===== src/Object/Range/Requests.antt =====
-- The three forms of a range header, as the HTTP standard writes them, and the bytes that they ask
-- for.
use mini_minio.Prelude.{
  ℕ, ◌+◌, ◌-◌, ◌^◌, ◌<◌, ◌≡◌, ◌≢◌, refl, ap, ap₂, ◌∙◌, min, true, false, ltb, leb, if◌then◌else◌,
  [], ◌∷◌, ◌++◌, none, some, All, arith,
}
use mini_minio.Prelude.Int.{ℤ, pos, negsuc, neg_ℕ}
use mini_minio.Prelude.Text.{Text, text_eq, trim_prefix, strip-append}
use mini_minio.Prelude.Errors.{Result, ok, err, ◌>>=◌, invalid_range}
use mini_minio.Object.Range.{
  has_dash, parse_suffix, parse_parts, RangeSpec, get_offset_length, dash, bytes_unit, split_dash,
  parse_range_spec,
}

-- bytes=a-b, bytes=a- and bytes=-n
pub data ByteRange : Type 0 where
  from_to : (first last : ℕ) → ByteRange
  from_on : (first : ℕ) → ByteRange
  last_bytes : ℕ → ByteRange

-- The first byte and the number of bytes that a range has in an object of `size` bytes; a range
-- that has none of the object is refused, but for the last bytes of an empty object, or none.
abbrev pub requested : ByteRange → (size : ℕ) → Result (ℤ × ℤ)
requested (from_to first last) size =
    if leb size first
    then err invalid_range
    else if ltb last first
    then err invalid_range
    else ok (pos first, pos (min (last + 1) size - first))
requested (from_on first) size =
    if leb size first then err invalid_range else ok (pos first, pos (size - first))
requested (last_bytes n) size = ok (pos (size - n), pos (min n size))

abbrev pub spec_of : ByteRange → RangeSpec
spec_of (from_to first last) = record {
  is_suffix_length = false;
  start = pos first;
  end = pos last;
}
spec_of (from_on first) = record { is_suffix_length = false; start = pos first; end = negsuc 0 }
spec_of (last_bytes n) = record { is_suffix_length = true; start = neg_ℕ n; end = pos 0 }

-- GetOffsetLength
pub get_offset_length_lem :
    (r : ByteRange) (size : ℕ) → get_offset_length (spec_of r) size ≡ requested r size
unfolding get_offset_length
get_offset_length_lem (from_to first last) size = ground arith
get_offset_length_lem (from_on first) size = ground arith
get_offset_length_lem (last_bytes n) size = ground arith

-- Texts of a number that are not empty and have no dash.
abbrev pub IsDigits : Text → Type 0
IsDigits t = (t ≢ []) × All (λ c. c ≢ dash) t

split_dash_lem : (a b : Text) → All (λ c. c ≢ dash) a → split_dash (a ++ dash ∷ b) ≡ some (a, b)
unfolding split_dash
split_dash_lem [] b h = ground arith
split_dash_lem (c ∷ a) b h = ground (arith, split_dash_lem a b h.1)

-- How `strconv` writes numbers and reads them again.
module _ (itoa : ℕ → Text) (parse_int : Text → Result ℤ) (digits : (n : ℕ) → IsDigits (itoa n))
    (parse-itoa : (n : ℕ) → n < 2 ^ 63 → parse_int (itoa n) ≡ ok (pos n))
    (parse-dash : (n : ℕ) → n < 2 ^ 63 → parse_int (dash ∷ itoa n) ≡ ok (neg_ℕ n)) where
  abbrev pub range_header : ByteRange → Text
  range_header (from_to first last) = bytes_unit ++ itoa first ++ dash ∷ itoa last
  range_header (from_on first) = bytes_unit ++ itoa first ++ dash ∷ []
  range_header (last_bytes n) = bytes_unit ++ dash ∷ itoa n

  abbrev pub Fits : ByteRange → Type 0
  Fits (from_to first last) = (first < 2 ^ 63) × (last < 2 ^ 63)
  Fits (from_on first) = first < 2 ^ 63
  Fits (last_bytes n) = n < 2 ^ 63

  first_digit : (n : ℕ) (s : Text) → has_dash (itoa n ++ s) ≡ false
  first_digit n s = by_text (itoa n) (digits n)
    where
      by_text : (t : Text) → IsDigits t → has_dash (t ++ s) ≡ false
      by_text [] d = absurd (d.0 refl)
      by_text (c ∷ t) d = ground arith

  trim_unit : (t : Text) → trim_prefix (bytes_unit ++ t) bytes_unit ≡ t
  trim_unit t =
      ap (λ o. elim o [ some rest ↦ rest | none ↦ bytes_unit ++ t ]) (strip-append bytes_unit t)

  not_empty : (n : ℕ) → text_eq (itoa n) [] ≡ false
  not_empty n = by_text (itoa n) (digits n)
    where
      by_text : (t : Text) → IsDigits t → text_eq t [] ≡ false
      by_text [] d = absurd (d.0 refl)
      by_text (c ∷ t) d = unfold text_eq in refl

  -- A range with a dash in the middle.
  parse_split :
      (first : ℕ) (b : Text)
      → parse_range_spec parse_int (bytes_unit ++ itoa first ++ dash ∷ b)
        ≡ parse_parts parse_int (some (itoa first, b))
  unfolding parse_range_spec
  parse_split first b =
      ap
        (λ s. if has_dash s then parse_suffix parse_int s else parse_parts parse_int (split_dash s))
        (trim_unit (itoa first ++ dash ∷ b))
      ∙ ap₂
          (λ d o.
            if d then parse_suffix parse_int (itoa first ++ dash ∷ b) else parse_parts parse_int o)
          (first_digit first (dash ∷ b)) (split_dash_lem (itoa first) b (digits first).1)

  parse_lem :
      (r : ByteRange) → Fits r → parse_range_spec parse_int (range_header r) ≡ ok (spec_of r)
  unfolding parse_range_spec
  parse_lem (from_to first last) fits =
      parse_split first (itoa last)
      ∙ (unfold parse_parts in
          rw (parse-itoa first fits.0, not_empty last, parse-itoa last fits.1) refl)
  parse_lem (from_on first) fits =
      parse_split first [] ∙ (unfold parse_parts text_eq in rw (parse-itoa first fits) refl)
  parse_lem (last_bytes n) fits =
      ap
        (λ s. if has_dash s then parse_suffix parse_int s else parse_parts parse_int (split_dash s))
        (trim_unit (dash ∷ itoa n))
      ∙ (unfold parse_suffix in ground (arith, parse-dash n fits))

  -- A range header of one of the three forms bytes=a-b, bytes=a- and bytes=-n, written with
  -- numbers below 2^63 that strconv reads again, is read by parseRangeSpec and gives, by
  -- GetOffsetLength, the offset and the length that the form stands for in an object of any size,
  -- or the error.
  pub parse_range_spec_lem :
      (r : ByteRange) (size : ℕ)
      → Fits r
      → (parse_range_spec parse_int (range_header r) >>= λ rs. get_offset_length rs size)
        ≡ requested r size
  parse_range_spec_lem r size fits =
      ap (λ p. p >>= λ rs. get_offset_length rs size) (parse_lem r fits)
      ∙ get_offset_length_lem r size
