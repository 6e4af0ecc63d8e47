-- ===== src/Erasure/Coder/Laws.antt =====
-- The shards of a block, and the laws of EncodeData and DecodeDataBlocks.
use mini_minio.Prelude.{
  ℕ, suc, ◌+◌, ◌-◌, ◌≤◌, ◌<◌, ◌≡◌, ◌≢◌, inl, inr, refl, ap, ap₂, ◌∙◌, true, List, [], ◌∷◌, ◌++◌,
  length, take, replicate, concat, All, All₂, ◌==◌, arith, Bool-cases, dec_lt,
}
use mini_minio.Prelude.Errors.{ok}
use mini_minio.Erasure.{Geometry, shard_size_for}
use mini_minio.Erasure.Reader.{Bytes}
use mini_minio.Erasure.Coder.{
  Coder, IsCode, present, Survives, encode_data, count_missing, decode_data_blocks,
}

-- The shards of a block: their number, their sizes, the data that they hold, and that any
-- `data_blocks` of them are enough.
pub record IsShards (e : Geometry) (c : Coder) (d : Bytes) (out : List Bytes) : Type 0 where
  pub count : length out ≡ e.data_blocks + e.parity_blocks
  pub sizes : All (λ s. length s ≡ shard_size_for e (length d)) out
  pub content : (pad : ℕ) × (concat (take e.data_blocks out) ≡ d ++ replicate pad 0)
  pub restores :
      (bufs : List Bytes)
      → All₂ Survives bufs out
      → e.data_blocks ≤ present bufs
      → (res : List Bytes) × (c.reconstruct_data bufs ≡ ok res)
        × (take e.data_blocks res ≡ take e.data_blocks out)

module _ (e : Geometry) (c : Coder) (code : IsCode e c) where
  -- EncodeData of a block that is not empty gives its shards.
  pub encode_data_lem :
      (d : Bytes)
      → 0 < length d
      → (out : List Bytes) × (encode_data e c d ≡ ok out) × IsShards e c d out
  encode_data_lem d pos =
      let (shards, pad, split, count, sizes, content) = code.split_lem d pos in
      let (out, enc, count', sizes', same) =
        code.encode_lem (shard_size_for e (length d)) shards count sizes in
      (
        out,
        ground (arith, split, enc),
        record {
          count = count';
          sizes = sizes';
          content = (pad, ap concat same ∙ content);
          restores =
              λ bufs survive enough. code.reconstruct_lem shards out bufs count enc survive enough;
        },
      )

-- A buffer that is not empty is the shard.
survivor : (b shard : Bytes) → length b ≢ 0 → Survives b shard → b ≡ shard
survivor b shard full (inl gone) = absurd (full (ap length gone))
survivor b shard full (inr same) = same

-- No data shard is missing: the buffers are the data shards.
none_missing :
    (data_blocks i size : ℕ) (bufs out : List Bytes)
    → 0 < size
    → All (λ s. length s ≡ size) out
    → All₂ Survives bufs out
    → (count_missing data_blocks i bufs).0 ≡ 0
    → take (data_blocks - i) bufs ≡ take (data_blocks - i) out
unfolding count_missing
none_missing data_blocks i size [] [] pos lens h z = refl
none_missing data_blocks i size [] (x ∷ out) pos lens h z = elim h [ ]
none_missing data_blocks i size (b ∷ bufs) [] pos lens h z = elim h [ ]
none_missing data_blocks i size (b ∷ bufs) (x ∷ out) pos lens h z = elim (dec_lt i data_blocks) [
  | no past ↦ let done : data_blocks - i ≡ 0 = omega arith in rw done
  | yes data_shard ↦
      let more : data_blocks - i ≡ suc (data_blocks - suc i) = omega arith in
      rw more (
        ap₂ ◌∷◌ (survivor b x (ground arith) h.0)
          (none_missing data_blocks (suc i) size bufs out pos lens.1 h.1 (ground arith)))
]

all_missing→present :
    (data_blocks i : ℕ) (bufs : List Bytes)
    → (count_missing data_blocks i bufs).1 ≡ true
    → present bufs ≡ 0
unfolding count_missing
all_missing→present data_blocks i [] z = refl
all_missing→present data_blocks i ([] ∷ bufs) z = all_missing→present data_blocks (suc i) bufs z
all_missing→present data_blocks i ((x ∷ b) ∷ bufs) z = ground arith

module _ (e : Geometry) (c : Coder) where
  -- From at least data_blocks shards of a block that is not empty, and no other buffers,
  -- DecodeDataBlocks restores the data shards.
  pub decode_data_blocks_lem :
      (d : Bytes) (bufs out : List Bytes)
      → 0 < e.data_blocks
      → 0 < shard_size_for e (length d)
      → IsShards e c d out
      → All₂ Survives bufs out
      → e.data_blocks ≤ present bufs
      → (res : List Bytes) × (decode_data_blocks e c bufs ≡ ok res)
        × (take e.data_blocks res ≡ take e.data_blocks out)
  unfolding decode_data_blocks
  decode_data_blocks_lem d bufs out data_pos pos shards survive enough =
      elim (Bool-cases ((count_missing e.data_blocks 0 bufs).0 == 0)) [
        | inl full ↦
            let z : e.data_blocks - 0 ≡ e.data_blocks = omega arith in
            (
              bufs,
              ground arith,
              rw z at
                  (none_missing e.data_blocks 0 _ bufs out pos shards.sizes survive (ground arith)),
            )
        | inr lacking ↦
            let (res, done, same) = shards.restores bufs survive enough in
            (res, ground (arith, all_missing→present e.data_blocks 0 bufs), same)
      ]
