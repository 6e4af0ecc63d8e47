-- ===== src/Hash.antt =====
-- hash.Reader of internal/hash/reader.go: a reader that checks the size and the MD5 sum of what it
-- delivers. The source is any type with a Read, which a Reader from NewReader calls through
-- io.LimitReader where a size is given. The state of the hasher is the bytes that were written to
-- it, and `md5` its sum, a parameter.
pub mod Limit
pub mod Whole
mod Tests
use mini_minio.Prelude.{
  ℕ, zero, suc, ◌+◌, ◌-◌, ◌*◌, ◌/◌, ◌%◌, Bool, true, false, not, ◌&&◌, Option, none, some, List, [],
  ◌∷◌, ◌++◌, length, ltb, leb, ◌==◌, if◌then◌else◌, min,
}
use mini_minio.Prelude.Int.{ℤ, pos, negsuc}
use mini_minio.Prelude.Text.{Text, text_eq}
use mini_minio.Prelude.Errors.{Error, Result, ok, err, eof, size_mismatch, bad_digest}
use mini_minio.Erasure.Reader.{Bytes}

-- A hexadecimal digit, in either case.
abbrev pub hex_value : ℕ → Option ℕ
hex_value c =
    if leb 48 c && leb c 57
    then some (c - 48)
    else if leb 97 c && leb c 102
    then some (c - 87)
    else if leb 65 c && leb c 70
    then some (c - 55)
    else none

-- `hex.DecodeString`; `none` is its error.
unfoldable pub decode_hex : Text → Option Bytes
decode_hex [] = some []
decode_hex (a ∷ []) = none
decode_hex (a ∷ b ∷ t) =
    let rest = decode_hex t in
    elim (hex_value a) [
      | none ↦ none
      | some hi ↦ elim (hex_value b) [
        | none ↦ none
        | some lo ↦ elim rest [ none ↦ none | some bytes ↦ some ((16 * hi + lo) ∷ bytes) ]
      ]
    ]

abbrev pub hex_digit : ℕ → ℕ
hex_digit v = if ltb v 10 then 48 + v else 87 + v

-- `%x` of bytes.
unfoldable pub print_hex : Bytes → Text
print_hex [] = []
print_hex (b ∷ bs) = hex_digit (b / 16) ∷ hex_digit (b % 16) ∷ print_hex bs

-- A reader behind `io.LimitReader`, with the bytes that it may still deliver; `none` where there is
-- no limit.
pub record Limited (S : Type 0) : Type 0 where
  pub src : S
  pub left : Option ℕ

-- `Reader`
pub record HashReader (S : Type 0) : Type 0 where
  pub src : Limited S
  pub bytes_read : ℕ
  pub size : ℤ
  pub checksum : Bytes
  pub hashed : Bytes

abbrev pub limit_of : ℤ → Option ℕ
limit_of (pos n) = some n
limit_of (negsuc n) = none

-- NewReader
unfoldable pub new_reader : {S : Type 0} → S → (size : ℤ) (md5_hex : Text) → Result (HashReader S)
new_reader src size md5_hex = elim (decode_hex md5_hex) [
  | none ↦ err bad_digest
  | some sum ↦ ok (record {
    src = record { src = src; left = limit_of size };
    bytes_read = 0;
    size = size;
    checksum = sum;
    hashed = [];
  })
]

-- `r.size >= 0 && r.bytesRead != r.size`
abbrev pub has_wrong_size : {S : Type 0} → HashReader S → Bool
has_wrong_size r = elim r.size [ pos n ↦ not (r.bytes_read == n) | negsuc n ↦ false ]

-- `err == io.EOF`
abbrev pub is_exactly_eof : Option Error → Bool
is_exactly_eof (some eof) = true
is_exactly_eof _ = false

abbrev pub wanted : ℤ → ℕ
wanted (pos n) = n
wanted (negsuc n) = 0

-- What Read makes of the end of the stream.
unfoldable pub check_end : {S : Type 0} → (md5 : Bytes → Bytes) → HashReader S → Error
check_end md5 r =
    if has_wrong_size r
    then size_mismatch (wanted r.size) r.bytes_read
    else if ltb 0 (length r.checksum) && not (text_eq r.checksum (md5 r.hashed))
    then bad_digest
    else eof

-- `MD5()`
unfoldable pub md5_of : {S : Type 0} → (md5 : Bytes → Bytes) → HashReader S → Text
md5_of md5 r = print_hex (md5 r.hashed)

-- `read_src` is the Read of the source with a buffer of that many bytes.
module _ {S : Type 0} (read_src : S → ℕ → Bytes × Option Error × S) where
  -- Read of `io.LimitReader`.
  unfoldable pub limit_read : Limited S → (room : ℕ) → Bytes × Option Error × Limited S
  limit_read l room = elim l.left [
    | none ↦
        let (p, failure, src') = read_src l.src room in
        (p, failure, record { src = src'; left = none })
    | some n ↦
        if n == 0
        then ([], some eof, l)
        else let (p, failure, src') = read_src l.src (min room n) in
          (p, failure, record { src = src'; left = some (n - length p) })
  ]

  module _ (md5 : Bytes → Bytes) where
    -- Read with a buffer of `room` bytes.
    unfoldable pub read : HashReader S → (room : ℕ) → Bytes × Option Error × HashReader S
    read r room =
        let (p, failure, src') = limit_read r.src room in
        let r' = record r {
          src = src';
          bytes_read = r.bytes_read + length p;
          hashed = if ltb 0 (length p) then r.hashed ++ p else r.hashed;
        } in
        (p, if is_exactly_eof failure then some (check_end md5 r') else failure, r')

    -- A reader of the whole stream: it reads until the first error, in round `i` with a buffer of
    -- `caps i` bytes.
    unfoldable pub read_all :
        (caps : ℕ → ℕ) (fuel i : ℕ) → HashReader S → Bytes × Option Error × HashReader S
    read_all caps zero i r = ([], none, r)
    read_all caps (suc fuel) i r =
        let (b, failure, r') = read r (caps i) in
        let (rest, end, r'') = read_all caps fuel (i + 1) r' in
        elim failure [ some x ↦ (b, some x, r') | none ↦ (b ++ rest, end, r'') ]
