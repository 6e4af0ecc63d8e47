-- ===== src/Erasure/Decode.antt =====
-- Erasure.Decode of internal/erasure/erasure.go. `reads k` is what `rp.Read` returned for block `k`
-- (module Reader says what that can be), and `ctx_err k` what `ctx.Err()` returned before it. The
-- writer is the pipe of the caller: the bytes written are the first part of the result, also where
-- the second part is an error.
pub mod Shards
pub mod Range
use mini_minio.Prelude.{
  ℕ, zero, suc, ◌+◌, ◌-◌, ◌*◌, ◌/◌, ◌≤◌, ◌<◌, ◌≡◌, Bool, true, false, Option, none, some, List, [],
  ◌∷◌, ◌++◌, length, min, max, ltb, leb, ◌==◌, if◌then◌else◌,
}
use mini_minio.Prelude.Slices.{slice}
use mini_minio.Prelude.Errors.{Error, Result, ok, err, ◌>>=◌, panic}
use mini_minio.Erasure.{Geometry}
use mini_minio.Erasure.Reader.{Bytes}
use mini_minio.Erasure.Coder.{Coder, decode_data_blocks}

-- The loop `for i := 0; i < e.dataBlocks; i++`: `k` shards are left, the first has index `i`.
pub write_shards : (k i shard_size block_len data_start data_end : ℕ) → List Bytes → Result Bytes
write_shards zero i shard_size block_len data_start data_end bufs = ok []
write_shards (suc k) i shard_size block_len data_start data_end [] = err panic
write_shards (suc k) i shard_size block_len data_start data_end (b ∷ bs) =
    let shard_start = i * shard_size in
    let shard_end = min (shard_start + length b) block_len in
    let start = max data_start shard_start in
    let end = min data_end shard_end in
    write_shards k (i + 1) shard_size block_len data_start data_end bs >>= λ out.
    ok (if leb end start then out else slice (start - shard_start) (end - shard_start) b ++ out)

-- `len(bufs[0])`
abbrev pub first_length : List Bytes → Result ℕ
first_length [] = err panic
first_length (b ∷ bs) = ok (length b)

module _ (e : Geometry) (c : Coder) where
  -- The part of a round after Read: `max(offset-blockStart, 0)` is the subtraction of ℕ.
  pub decode_block : (offset len total_length block : ℕ) → List Bytes → Result Bytes
  decode_block offset len total_length block bufs = decode_data_blocks e c bufs >>= λ shards.
      first_length shards >>= λ shard_size.
      let block_start = block * e.block_size in
      let block_end = min (block_start + e.block_size) total_length in
      let block_len = block_end - block_start in
      let data_start = offset - block_start in
      let data_end = min (offset + len - block_start) block_len in
      write_shards e.data_blocks 0 shard_size block_len data_start data_end shards

  module _ (ctx_err : ℕ → Option Error) (reads : ℕ → Result (List Bytes)) where
    -- The loop over the blocks: `k` rounds are left, the next is for `block`.
    pub decode_blocks : (offset len total_length k block : ℕ) → Bytes × Option Error
    decode_blocks offset len total_length zero block = ([], none)
    decode_blocks offset len total_length (suc k) block = elim (ctx_err block) [
      | some x ↦ ([], some x)
      | none ↦ elim (reads block >>= decode_block offset len total_length block) [
        | err x ↦ ([], some x)
        | ok out ↦
            let (rest, failure) = decode_blocks offset len total_length k (block + 1) in
            (out ++ rest, failure)
      ]
    ]

    pub decode : (offset len total_length : ℕ) → Bytes × Option Error
    decode offset len total_length =
        if len == 0
        then ([], none)
        else let start_block = offset / e.block_size in
          let end_block = (offset + len - 1) / e.block_size in
          decode_blocks offset len total_length (end_block + 1 - start_block) start_block
