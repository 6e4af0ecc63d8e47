-- ===== src/Erasure/Encode/Blocks.antt =====
-- Encode as a loop over the blocks of the stream.
use mini_minio.Prelude.{
  ℕ, zero, suc, ◌+◌, ◌≤◌, ◌<◌, ◌≡◌, refl, sym, ap, ap₂, ◌∙◌, false, ◌&&◌, not, Option, none, some,
  List, [], ◌∷◌, length, take, drop, ◌==◌, arith, dec_lt, length-take, length-drop,
}
use mini_minio.Prelude.Slices.{take_all, drop_all}
use mini_minio.Prelude.Errors.{Error, Result, ok, err}
use mini_minio.Erasure.{Geometry}
use mini_minio.Erasure.Reader.{Bytes}
use mini_minio.Erasure.Coder.{Coder}
use mini_minio.Erasure.Encode.{
  Source, read_full, Slot, encode_block, encode_round, encode_loop, encode,
}

-- The blocks of what is left of a stream: `size` bytes each, the last one the remainder.
unfoldable pub blocks_of : (fuel size : ℕ) → Bytes → List Bytes
blocks_of fuel size [] = []
blocks_of zero size (x ∷ xs) = []
blocks_of (suc fuel) size (x ∷ xs) = take size (x ∷ xs) ∷ blocks_of fuel size (drop size (x ∷ xs))

-- A remainder shorter than a block is one block.
last_block :
    (fuel size : ℕ) (d : Bytes)
    → 0 < length d
    → length d ≤ size
    → blocks_of (suc fuel) size d ≡ d ∷ []
unfolding blocks_of
last_block fuel size [] pos h = absurd (omega arith)
last_block fuel size (x ∷ xs) pos h =
    ap₂ (λ b r. b ∷ blocks_of fuel size r) (take_all size (x ∷ xs) h) (drop_all size (x ∷ xs) h)

-- The blocks of an object: an empty object has one empty block.
abbrev pub object_blocks : (size : ℕ) → Bytes → List Bytes
object_blocks size [] = [] ∷ []
object_blocks size (x ∷ xs) = blocks_of (length (x ∷ xs)) size (x ∷ xs)

-- A finite stream that ends in `io.EOF`.
abbrev pub stream : Bytes → Source
stream d = record { rest = d; fail = none }

-- The result of Encode for what `write_blocks` returns.
abbrev pub encode_result :
    {W : Type 0} → ℕ → Option Error × List (Slot W) → Result ℕ × List (Slot W)
encode_result total (none, slots) = (ok total, slots)
encode_result total (some x, slots) = (err x, slots)

module _ {W : Type 0} (write : W → Bytes → Result ℕ × W) (quorum : ℕ) (e : Geometry)
    (c : Coder) where
  -- Encode the blocks one after the other, up to the first failure.
  unfoldable pub write_blocks : List (Slot W) → List Bytes → Option Error × List (Slot W)
  write_blocks slots [] = (none, slots)
  write_blocks slots (b ∷ bs) =
      let (failure, slots') = encode_block write quorum e c slots b in
      elim failure [ some x ↦ (some x, slots') | none ↦ write_blocks slots' bs ]

  module _ (ctx_err : ℕ → Option Error) (alive : (i : ℕ) → ctx_err i ≡ none) (size : ℕ)
      (pos : 0 < size) where
    -- A full block.
    pub loop_full :
        (fuel i total : ℕ) (slots : List (Slot W)) (d : Bytes)
        → size ≤ length d
        → encode_loop write quorum e c ctx_err size (suc fuel) i (stream d) slots total
          ≡ encode_round write quorum e c slots total (take size d) (λ slots' total'.
            encode_loop write quorum e c ctx_err size fuel
              (i + 1)
              (stream (drop size d))
              slots'
              total')
    unfolding encode_loop read_full
    loop_full fuel i total slots d h = ground (arith, alive i)

    -- The last read.
    pub loop_last :
        (fuel i total : ℕ) (slots : List (Slot W)) (d : Bytes)
        → length d < size
        → encode_loop write quorum e c ctx_err size (suc fuel) i (stream d) slots total
          ≡ encode_round write quorum e c slots total d (λ slots' total'. (ok total', slots'))
    unfolding encode_loop read_full
    loop_last fuel i total slots d h = ground (arith, alive i)

  -- A round that is not the last `n == 0`, and what follows it.
  round_lem :
      (slots : List (Slot W)) (total result : ℕ) (buf : Bytes) (bs : List Bytes)
      (go_on : List (Slot W) → ℕ → Result ℕ × List (Slot W))
      → (length buf == 0 && not (total == 0)) ≡ false
      → ((slots' : List (Slot W))
          → go_on slots' (total + length buf) ≡ encode_result result (write_blocks slots' bs))
      → encode_round write quorum e c slots total buf go_on
        ≡ encode_result result (write_blocks slots (buf ∷ bs))
  unfolding encode_round write_blocks
  round_lem slots total result buf bs go_on not_end h =
      rw not_end (by_outcome (encode_block write quorum e c slots buf))
    where
      by_outcome :
          (r : Option Error × List (Slot W))
          → (let (failure, slots') = r in
              elim failure [ some x ↦ (err x, slots') | none ↦ go_on slots' (total + length buf) ])
            ≡ encode_result result (
                let (failure, slots') = r in
                elim failure [ some x ↦ (some x, slots') | none ↦ write_blocks slots' bs ])
      by_outcome (none, slots') = h slots'
      by_outcome (some x, slots') = refl

  -- The round that finds the stream at its end.
  ended :
      (slots : List (Slot W)) (total : ℕ)
      → 0 < total
      → encode_round write quorum e c slots total [] (λ slots' total'. (ok total', slots'))
        ≡ (ok (total + 0), slots)
  unfolding encode_round
  ended slots total h = ground arith

  module _ (ctx_err : ℕ → Option Error) (alive : (i : ℕ) → ctx_err i ≡ none) (size : ℕ)
      (pos : 0 < size) where
    encode_loop_lem :
        (fuel i total : ℕ) (slots : List (Slot W)) (d : Bytes)
        → length d ≤ fuel
        → 0 < total + length d
        → encode_loop write quorum e c ctx_err size (suc fuel) i (stream d) slots total
          ≡ encode_result (total + length d) (write_blocks slots (blocks_of fuel size d))
    unfolding blocks_of write_blocks
    encode_loop_lem fuel i total slots [] le some_data =
        loop_last ctx_err alive size pos fuel i total slots [] pos ∙ ended slots total (omega arith)
    encode_loop_lem zero i total slots (x ∷ xs) le some_data = absurd (omega arith)
    encode_loop_lem (suc fuel) i total slots (x ∷ xs) le some_data =
        let d = x ∷ xs in
        elim (dec_lt (length d) size) [
          | yes short ↦
              loop_last ctx_err alive size pos (suc fuel) i total slots d short
              ∙ round_lem slots total (total + length d) d [] (λ slots' total'. (ok total', slots'))
                  (ground arith) (λ slots'. refl)
              ∙ ap (λ l. encode_result (total + length d) (write_blocks slots l))
                  (sym (last_block fuel size d (omega arith) (omega arith)))
          | no full ↦
              loop_full ctx_err alive size pos (suc fuel) i total slots d (omega arith)
              ∙ round_lem slots total (total + length d) (take size d)
                  (blocks_of fuel size (drop size d)) _ (ground (arith, length-take size d))
                  (λ slots'.
                    encode_loop_lem fuel (i + 1) (total + length (take size d)) slots' (drop size d)
                      (omega (arith, length-drop size d)) (omega (arith, length-take size d))
                    ∙ ap
                        (λ n.
                          encode_result n (write_blocks slots' (blocks_of fuel size (drop size d))))
                        (omega (arith, length-drop size d, length-take size d)))
        ]

    -- Encode of a finite stream, with a buffer of at least a byte and a context that is not
    -- cancelled, writes the object block by block up to the first failure and returns the number
    -- of its bytes, or that failure.
    pub encode_lem :
        (d : Bytes) (slots : List (Slot W))
        → encode write quorum e c ctx_err size (stream d) slots
          ≡ encode_result (length d) (write_blocks slots (object_blocks size d))
    unfolding encode write_blocks
    encode_lem [] slots =
        loop_last ctx_err alive size pos 0 0 0 slots [] pos
        ∙ round_lem slots 0 0 [] [] (λ slots' total'. (ok total', slots')) refl (λ slots'. refl)
    encode_lem (x ∷ xs) slots =
        let d = x ∷ xs in
        encode_loop_lem (length d) 0 0 slots d (omega arith) (omega arith)
        ∙ ap (λ n. encode_result n (write_blocks slots (object_blocks size d))) {x = 0 + length d}
            {y = length d} (omega arith)
