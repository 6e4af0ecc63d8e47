-- ===== src/Erasure/Encode.antt =====
-- multiWriter.Write and Erasure.Encode of internal/erasure/erasure.go. The reader is the stream of
-- bytes that it delivers with the error that ends it, and the writers are any type with a `Write`.
pub mod Blocks
pub mod Durable
pub mod Ends
mod Tests
use mini_minio.Prelude.{
  ℕ, zero, suc, ◌+◌, ◌-◌, ◌≤◌, ◌<◌, ◌≡◌, Bool, true, false, ◌&&◌, ◌||◌, not, Option, none, some,
  List, [], ◌∷◌, ◌++◌, length, take, drop, ltb, leb, ◌==◌, if◌then◌else◌,
}
use mini_minio.Prelude.Errors.{
  Error, Result, ok, err, ◌>>=◌, is_nil, eof, unexpected_eof, short_write, write_quorum, panic,
  out_of_fuel,
}
use mini_minio.Erasure.{Geometry}
use mini_minio.Erasure.Reader.{Bytes}
use mini_minio.Erasure.Coder.{Coder, encode_data}

-- What a reader still delivers; after it `fail`, or `io.EOF`.
pub record Source : Type 0 where
  pub rest : Bytes
  pub fail : Option Error

-- The error of `io.ReadFull` when the stream ends before the buffer is full.
abbrev pub short_read : Source → Error
short_read s = elim s.fail [
  | some e ↦ e
  | none ↦ if length s.rest == 0 then eof else unexpected_eof
]

-- `io.ReadFull(src, buf)` with a buffer of `size` bytes.
pub read_full : ℕ → Source → Bytes × Option Error × Source
read_full size s =
    if leb size (length s.rest)
    then (take size s.rest, none, record s { rest = drop size s.rest })
    else (s.rest, some (short_read s), record s { rest = [] })

abbrev pub is_eof : Error → Bool
is_eof eof = true
is_eof unexpected_eof = true
is_eof _ = false

abbrev pub has {ℓ} : {A : Type ℓ} → Option A → Bool
has none = false
has (some a) = true

-- How a read ended.
pub data Ending : Type 0 where
  more at_eof : Ending
  broken : Error → Ending

abbrev pub classify : Option Error → Ending
classify none = more
classify (some e) = if is_eof e then at_eof else broken e

-- `writers[i]` and `errs[i]` of the multiWriter.
pub record Slot (W : Type 0) : Type 0 where
  pub writer : Option W
  pub failure : Option Error

-- `write` is `io.Writer`: the count that `Write` returns, or its error.
module _ {W : Type 0} (write : W → Bytes → Result ℕ × W) where
  -- `mw.errs[i] != nil || w == nil`: the slot is passed over.
  abbrev pub is_skipped : Slot W → Bool
  is_skipped s = not (is_nil s.failure) || not (has s.writer)

  -- One round of the loop of Write: whether the slot counts as written.
  unfoldable pub write_writer : W → Bytes → Bool × Slot W
  write_writer w block =
      let (r, w') = write w block in
      elim r [
        | err e ↦ (false, record { writer = some w'; failure = some e })
        | ok n ↦
            if n == length block
            then (true, record { writer = some w'; failure = none })
            else (false, record { writer = some w'; failure = some short_write })
      ]

  unfoldable pub write_slot : Slot W → Bytes → Bool × Slot W
  write_slot s block = elim s.failure [
    | some e ↦ (false, s)
    | none ↦ elim s.writer [ none ↦ (false, s) | some w ↦ write_writer w block ]
  ]

  -- The count `ok` and the slots after the loop; `blocks[i]` out of range is a panic.
  unfoldable pub write_slots : List (Slot W) → List Bytes → Result (ℕ × List (Slot W))
  write_slots [] blocks = ok (0, [])
  write_slots (s ∷ ss) [] =
      if is_skipped s then (write_slots ss [] >>= λ r. ok (r.0, s ∷ r.1)) else err panic
  write_slots (s ∷ ss) (b ∷ bs) = write_slots ss bs >>= λ r.
      let (done, s') = write_slot s b in ok (if done then suc r.0 else r.0, s' ∷ r.1)

  module _ (quorum : ℕ) where
    -- `multiWriter.Write`
    unfoldable pub mw_write : List (Slot W) → List Bytes → Option Error × List (Slot W)
    mw_write slots blocks = elim (write_slots slots blocks) [
      | err e ↦ (some e, slots)
      | ok (n, slots') ↦ (if ltb n quorum then some write_quorum else none, slots')
    ]

    module _ (e : Geometry) (c : Coder) where
      -- One block: EncodeData, then Write.
      unfoldable pub encode_block : List (Slot W) → Bytes → Option Error × List (Slot W)
      encode_block slots buf = elim (encode_data e c buf) [
        | err x ↦ (some x, slots)
        | ok shards ↦ mw_write slots shards
      ]

      -- From the test `n == 0 && total != 0` to the end of the round; `go_on` is the next round, or
      -- the return at the end of the stream.
      unfoldable pub encode_round :
          List (Slot W)
          → ℕ
          → Bytes
          → (List (Slot W) → ℕ → Result ℕ × List (Slot W))
          → Result ℕ × List (Slot W)
      encode_round slots total buf go_on =
          if length buf == 0 && not (total == 0)
          then (ok total, slots)
          else let (failure, slots') = encode_block slots buf in
            elim failure [ some x ↦ (err x, slots') | none ↦ go_on slots' (total + length buf) ]

      module _ (ctx_err : ℕ → Option Error) (size : ℕ) where
        -- The loop of Encode at round `i`, with a buffer of `size` bytes.
        unfoldable pub encode_loop : ℕ → ℕ → Source → List (Slot W) → ℕ → Result ℕ × List (Slot W)
        encode_loop zero i src slots total = (err out_of_fuel, slots)
        encode_loop (suc fuel) i src slots total = elim (ctx_err i) [
          | some x ↦ (err x, slots)
          | none ↦
              let (buf, end, src') = read_full size src in
              elim (classify end) [
                | broken x ↦ (err x, slots)
                | at_eof ↦ encode_round slots total buf (λ slots' total'. (ok total', slots'))
                | more ↦
                    encode_round slots total buf
                      (λ slots' total'. encode_loop fuel (i + 1) src' slots' total')
              ]
        ]

        -- `Erasure.Encode`: a round takes a byte at least, but for the last.
        unfoldable pub encode : Source → List (Slot W) → Result ℕ × List (Slot W)
        encode src slots = encode_loop (suc (length src.rest)) 0 src slots 0
