-- ===== src/Erasure/Encode/Tests.antt =====
-- Encode of an object of two blocks to a writer that keeps what it is given, beside a nil writer.
use mini_minio.Prelude.{ℕ, ◌≤◌, ◌≡◌, refl, none, some, List, [], ◌∷◌, ◌++◌, length, arith}
use mini_minio.Prelude.Errors.{Result, ok}
use mini_minio.Erasure.Reader.{Bytes}
use mini_minio.Erasure.Encode.{
  Slot, encode, encode_loop, encode_round, encode_block, mw_write, write_slots, write_slot,
  write_writer, read_full,
}
use mini_minio.Erasure.Encode.Blocks.{
  blocks_of, stream, encode_result, write_blocks, object_blocks, encode_lem,
}
use mini_minio.Erasure.Encode.Durable.{Stored, columns, healthy, encode_durable}
use mini_minio.Erasure.Mirror.{mirror_geometry, mirror}

abbrev object : Bytes
object = 10 ∷ 11 ∷ 12 ∷ 13 ∷ 14 ∷ 15 ∷ []

abbrev block_0 : Bytes
block_0 = 10 ∷ 11 ∷ 12 ∷ 13 ∷ []

abbrev block_1 : Bytes
block_1 = 14 ∷ 15 ∷ []

-- A writer that keeps what it is given.
abbrev append_to : Bytes → Bytes → Result ℕ × Bytes
append_to w b = (ok (length b), w ++ b)

-- One writer is there, and one is nil.
abbrev slots : List (Slot Bytes)
slots = record { writer = some []; failure = none } ∷ record { writer = none; failure = none } ∷ []

encode_lem_example :
    encode append_to 1 mirror_geometry mirror (λ i. none) 4 (stream object) slots
    ≡ encode_result 6
        (write_blocks append_to 1 mirror_geometry mirror slots (object_blocks 4 object))
encode_lem_example =
    encode_lem append_to 1 mirror_geometry mirror (λ i. none) (λ i. refl) 4 (omega arith) object
      slots

abbrev stored_slots : List (Slot Bytes)
stored_slots =
    record { writer = some object; failure = none } ∷ record { writer = none; failure = none } ∷ []

encode_run :
    encode append_to 1 mirror_geometry mirror (λ i. none) 4 (stream object) slots
    ≡ (ok 6, stored_slots)
unfolding encode encode_loop encode_round encode_block mw_write write_slots write_slot write_writer
    read_full
encode_run = refl

encode_durable_example :
    (6 ≡ length object)
    × Stored append_to
        (λ w. w)
        (λ w b e. refl)
        slots
        (columns 2 ((block_0 ∷ block_0 ∷ []) ∷ (block_1 ∷ block_1 ∷ []) ∷ []))
        stored_slots
    × (1 ≤ healthy stored_slots)
unfolding blocks_of
encode_durable_example =
    encode_durable append_to (λ w. w) (λ w b e. refl) 1 mirror_geometry mirror (λ i. none) 4 object
      ((block_0 ∷ block_0 ∷ []) ∷ (block_1 ∷ block_1 ∷ []) ∷ []) slots stored_slots (λ i. refl)
      (omega arith) ((refl, refl), ((refl, refl), tt)) encode_run
