-- ===== src/Erasure/Decode/Range.antt =====
-- Decode and the bytes of the object: the requested range and the shards that survive.
use native.Mathlib.Nat.{div-mul-le_self, lt-div-mul-add}
use mini_minio.Prelude.{
  ℕ, zero, suc, ◌+◌, ◌-◌, ◌*◌, ◌/◌, ◌≤◌, ◌<◌, ◌≡◌, sym, ap, ap₂, ◌∙◌, List, [], ◌∷◌, ◌++◌, length,
  take, drop, length-take, All-take, min, max, concat, All, All₂, arith, Bool-cases, inl, inr,
  Option, none, replicate, ◌==◌,
}
use mini_minio.Prelude.Slices.{
  slice, slice-slice, slice-append, window-append, length-slice, slice_empty,
}
use mini_minio.Prelude.Errors.{Error, Result, ok}
use mini_minio.Erasure.{Geometry, shard_size_for}
use mini_minio.Erasure.Sizes.{shard_size_for_bounds, shard_size_for_pos}
use mini_minio.Erasure.Reader.{Bytes}
use mini_minio.Erasure.Coder.{Coder, present, Survives}
use mini_minio.Erasure.Coder.Laws.{IsShards, decode_data_blocks_lem}
use mini_minio.Erasure.Decode.{write_shards, first_length, decode_block, decode_blocks, decode}
use mini_minio.Erasure.Decode.Shards.{write_shards_lem}

-- Block `k` of an object.
abbrev pub block_of : Geometry → Bytes → ℕ → Bytes
block_of e obj k = slice (k * e.block_size) (min (k * e.block_size + e.block_size) (length obj)) obj

-- What was read of a block is enough: each buffer is the shard or missing, and no more than the
-- parity allows are missing.
pub record IsReadable (e : Geometry) (c : Coder) (block : Bytes) (bufs : List Bytes) : Type 0 where
  pub out : List Bytes
  pub shards : IsShards e c block out
  pub survive : All₂ Survives bufs out
  pub enough : e.data_blocks ≤ present bufs

first_length_lem :
    (k size : ℕ) (bufs : List Bytes)
    → 0 < k
    → length (take k bufs) ≡ k
    → All (λ s. length s ≡ size) (take k bufs)
    → first_length bufs ≡ ok size
first_length_lem zero size bufs pos count sizes = absurd (omega arith)
first_length_lem (suc k) size [] pos count sizes = absurd (omega arith)
first_length_lem (suc k) size (b ∷ bs) pos count sizes = ap ok sizes.0

module _ (e : Geometry) (c : Coder) (data_pos : 0 < e.data_blocks) (block_pos : 0 < e.block_size)
    (obj : Bytes) (offset len : ℕ) (inside : offset + len ≤ length obj) where
  length_block :
      (k : ℕ)
      → k * e.block_size < offset + len
      → length (block_of e obj k)
        ≡ min (k * e.block_size + e.block_size) (length obj) - k * e.block_size
  length_block k lt =
      length-slice (k * e.block_size) (min (k * e.block_size + e.block_size) (length obj)) obj
        (omega arith)

  -- The range of the block, as a range of the object.
  range_of_block :
      (k pad : ℕ)
      → k * e.block_size < offset + len
      → let p = k * e.block_size in
        let block_len = min (p + e.block_size) (length obj) - p in
        slice (offset - p) (min (offset + len - p) block_len) (block_of e obj k ++ replicate pad 0)
        ≡ slice (max offset p) (min (offset + len) (p + e.block_size)) obj
  range_of_block k pad lt =
      let p = k * e.block_size in
      let q = min (p + e.block_size) (length obj) in
      slice-append (offset - p) (min (offset + len - p) (q - p)) (block_of e obj k)
        (replicate pad 0) (omega (arith, length-slice p q obj (omega arith)))
      ∙ slice-slice (offset - p) (min (offset + len - p) (q - p)) p q obj (omega arith)
      ∙ ap₂ (λ lo hi. slice lo hi obj) {x = p + (offset - p)} {y = max offset p}
          {u = p + min (offset + len - p) (q - p)} {v = min (offset + len) (p + e.block_size)}
          (omega arith) (omega arith)

  -- The data shards of a block, written out: the range of the block.
  write_block :
      (k : ℕ) (res out : List Bytes)
      → k * e.block_size < offset + len
      → IsShards e c (block_of e obj k) out
      → take e.data_blocks res ≡ take e.data_blocks out
      → let p = k * e.block_size in
        let block_len = min (p + e.block_size) (length obj) - p in
        write_shards e.data_blocks 0
          (shard_size_for e (length (block_of e obj k)))
          block_len
          (offset - p)
          (min (offset + len - p) block_len)
          res
        ≡ ok (slice (max offset p) (min (offset + len) (p + e.block_size)) obj)
  write_block k res out lt shards same =
      let p = k * e.block_size in
      let block_len = min (p + e.block_size) (length obj) - p in
      let size = shard_size_for e (length (block_of e obj k)) in
      let (pad, holds) = shards.content in
      let de = min (offset + len - p) block_len in
      let whole = block_of e obj k ++ replicate pad 0 in
      let bounds = shard_size_for_bounds e (length (block_of e obj k)) data_pos in
      write_shards_lem e.data_blocks 0 size block_len (offset - p) de res whole (omega arith)
        (rw same (omega (arith, length-take e.data_blocks out, shards.count)))
        (rw same (All-take (λ s. length s ≡ size) e.data_blocks out shards.sizes))
        (ap (λ n. drop n whole) {x = 0 * size} {y = 0} (omega arith)
          ∙ sym holds
          ∙ ap concat (sym same))
      ∙ ap ok (
          ap₂ (λ lo hi. slice lo hi whole) {x = max (offset - p) (0 * size)} {y = offset - p}
            {u = min de ((0 + e.data_blocks) * size)} {v = de} (omega arith)
            (omega (arith, bounds, length_block k lt))
          ∙ range_of_block k pad lt)

  decode_block_lem :
      (k : ℕ) (bufs : List Bytes)
      → k * e.block_size < offset + len
      → IsReadable e c (block_of e obj k) bufs
      → let p = k * e.block_size in
        decode_block e c offset len (length obj) k bufs
        ≡ ok (slice (max offset p) (min (offset + len) (p + e.block_size)) obj)
  unfolding decode_block
  decode_block_lem k bufs lt h =
      let p = k * e.block_size in
      let size = shard_size_for e (length (block_of e obj k)) in
      let (res, done, same) =
        decode_data_blocks_lem e c (block_of e obj k) bufs h.out data_pos
          (shard_size_for_pos e _ data_pos (omega (arith, length_block k lt))) h.shards h.survive
          h.enough in
      let first =
        first_length_lem e.data_blocks size res data_pos
          (rw same (omega (arith, length-take e.data_blocks h.out, h.shards.count)))
          (rw same (All-take (λ s. length s ≡ size) e.data_blocks h.out h.shards.sizes)) in
      rw done (rw first (write_block k res h.out lt h.shards same))

  module _ (ctx_err : ℕ → Option Error) (reads : ℕ → Result (List Bytes))
      (alive : (k : ℕ) → ctx_err k ≡ none)
      (readable : (k : ℕ)
        → k * e.block_size < offset + len
        → (bufs : List Bytes) × (reads k ≡ ok bufs) × IsReadable e c (block_of e obj k) bufs) where
    decode_blocks_step :
        (k block : ℕ) (bufs : List Bytes) (out : Bytes)
        → reads block ≡ ok bufs
        → decode_block e c offset len (length obj) block bufs ≡ ok out
        → decode_blocks e c ctx_err reads offset len (length obj) (suc k) block ≡ (
          out ++ (decode_blocks e c ctx_err reads offset len (length obj) k (block + 1)).0,
          (decode_blocks e c ctx_err reads offset len (length obj) k (block + 1)).1,
        )
    unfolding decode_blocks
    decode_blocks_step k block bufs out got one = ground (arith, alive block)

    decode_blocks_lem :
        (k block : ℕ)
        → (block + k) * e.block_size < offset + len + e.block_size
        → decode_blocks e c ctx_err reads offset len (length obj) k block ≡ (
          slice
              (max offset (block * e.block_size))
              (min (offset + len) ((block + k) * e.block_size))
              obj,
          none,
        )
    unfolding decode_blocks
    decode_blocks_lem zero block lt =
        ap (λ l. (l, none))
          (sym (
            slice_empty (max offset (block * e.block_size))
              (min (offset + len) ((block + 0) * e.block_size)) obj (omega arith)))
    decode_blocks_lem (suc k) block lt =
        let p = block * e.block_size in
        let lt' : p < offset + len = omega arith in
        let (bufs, got, good) = readable block lt' in
        let rest = decode_blocks_lem k (block + 1) (omega arith) in
        let q : (block + 1) * e.block_size ≡ p + e.block_size = omega arith in
        let r : (block + 1 + k) * e.block_size ≡ (block + suc k) * e.block_size = omega arith in
        decode_blocks_step k block bufs _ got (decode_block_lem block bufs lt' good)
        ∙ rw rest (
            ap (λ l. (l, none))
              (rw (q, r)
                (window-append offset (offset + len) p (p + e.block_size)
                  ((block + suc k) * e.block_size) obj (omega arith) (omega arith))))

    -- Decode writes exactly the requested bytes of the object and reports no error, if there is a
    -- data block and a block has a byte, the range lies inside the object, the context is not
    -- cancelled, and of each block that the range meets the buffers that were read hold at least
    -- data_blocks of its shards and nothing else.
    pub decode_lem :
        decode e c ctx_err reads offset len (length obj) ≡ (slice offset (offset + len) obj, none)
    unfolding decode
    decode_lem = elim (Bool-cases (len == 0)) [
      | inl z ↦
          rw z (ap (λ l. (l, none)) (sym (slice_empty offset (offset + len) obj (ground arith))))
      | inr nz ↦
          let start = offset / e.block_size in
          let last = (offset + len - 1) / e.block_size in
          let low = div-mul-le_self offset e.block_size in
          let high = div-mul-le_self (offset + len - 1) e.block_size in
          let above = lt-div-mul-add {a = offset + len - 1} block_pos in
          let pos : 0 < len = ground arith in
          let order : start ≤ last = grind arith in
          let count : start + (last + 1 - start) ≡ last + 1 = omega arith in
          rw nz (
            decode_blocks_lem (last + 1 - start) start (rw count (omega arith))
            ∙ ap (λ l. (l, none))
                (rw count (
                  ap₂ (λ lo hi. slice lo hi obj) {x = max offset (start * e.block_size)}
                    {y = offset} {u = min (offset + len) ((last + 1) * e.block_size)}
                    {v = offset + len} (omega arith) (omega arith))))
    ]
