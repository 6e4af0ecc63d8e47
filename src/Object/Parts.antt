-- ===== src/Object/Parts.antt =====
-- The parts of an object: decodeObject (cmd/erasure-object.go) and objectPartRange
-- (cmd/api-handlers.go). `decode_part` is `enc.Decode` with the readers that were opened for a part,
-- and `close_part` what closing them returns.
pub mod Cover
mod Tests
use mini_minio.Prelude.{
  ℕ, ◌+◌, ◌-◌, leb, ◌==◌, if◌then◌else◌, min, max, Option, none, some, List, [], ◌∷◌, ◌++◌, length,
}
use mini_minio.Prelude.Errors.{Error, Result, ok, err, join, other}
use mini_minio.Erasure.Reader.{Bytes}
use mini_minio.Object.Meta.{ObjectPartInfo}

-- The bytes of one part, and the rest of the loop if it did not fail.
abbrev pub then_write : Bytes × Option Error → Bytes × Option Error → Bytes × Option Error
then_write part rest = elim part.1 [ some e ↦ (part.0, some e) | none ↦ (part.0 ++ rest.0, rest.1) ]

module _ (decode_part : (number offset len total : ℕ) → Bytes × Option Error)
    (close_part : ℕ → Option Error) where
  -- Decode and close, with the two errors joined.
  abbrev pub read_part : (number offset len total : ℕ) → Bytes × Option Error
  read_part number offset len total =
      let (b, failure) = decode_part number offset len total in
      (b, join failure (close_part number))

  -- The loop over the parts, from `object_offset` on.
  pub decode_parts :
      (object_offset offset request_end : ℕ) → List ObjectPartInfo → Bytes × Option Error
  decode_parts object_offset offset request_end [] = ([], none)
  decode_parts object_offset offset request_end (p ∷ ps) =
      let part_end = object_offset + p.actual_size in
      let start = max offset object_offset in
      let end = min request_end part_end in
      let rest = decode_parts part_end offset request_end ps in
      if leb end start
      then rest
      else then_write (read_part p.number (start - object_offset) (end - start) p.actual_size) rest

  -- decodeObject, for metadata with these parts and this size.
  pub decode_object : List ObjectPartInfo → (size offset len : ℕ) → Bytes × Option Error
  decode_object parts size offset len =
      if leb (length parts) 1
      then read_part 1 offset len size
      else decode_parts 0 offset (offset + len) parts

abbrev pub part_empty : Error
part_empty = other 6

abbrev pub part_not_found : Error
part_not_found = other 7

-- objectPartRange from `offset` on: the first and the last byte of the part, and its size.
pub object_part_range : (part_number offset : ℕ) → List ObjectPartInfo → Result (ℕ × ℕ × ℕ)
object_part_range part_number offset [] = err part_not_found
object_part_range part_number offset (p ∷ ps) =
    let later = object_part_range part_number (offset + p.actual_size) ps in
    if p.number == part_number
    then if p.actual_size == 0
      then err part_empty
      else ok (offset, offset + p.actual_size - 1, p.actual_size)
    else later
