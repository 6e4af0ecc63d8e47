-- ===== src/Erasure/Coder.antt =====
-- EncodeData and DecodeDataBlocks of internal/erasure/erasure.go. The Reed–Solomon encoder is the
-- package github.com/klauspost/reedsolomon: a parameter, with the laws of its documentation.
pub mod Laws
use mini_minio.Prelude.{
  ℕ, zero, suc, ◌+◌, ◌*◌, ◌≤◌, ◌<◌, ◌≡◌, ◌⊎◌, Bool, true, false, ◌&&◌, ◌||◌, List, [], ◌∷◌, ◌++◌,
  length, take, replicate, concat, All, All₂, ltb, ◌==◌, if◌then◌else◌,
}
use mini_minio.Prelude.Errors.{Error, Result, ok, err, ◌>>=◌}
use mini_minio.Erasure.{Geometry, shard_size_for}
use mini_minio.Erasure.Reader.{Bytes, non_empty}

-- `reedsolomon.Encoder`; `Encode` and `ReconstructData` change the shards in place.
pub record Coder : Type 0 where
  pub split : Bytes → Result (List Bytes)
  pub encode : List Bytes → Result (List Bytes)
  pub reconstruct_data : List Bytes → Result (List Bytes)

-- `len(b) > 0` for how many of the shards.
abbrev pub present : List Bytes → ℕ
present [] = 0
present (b ∷ bs) = if non_empty b then suc (present bs) else present bs

-- A buffer is the shard, or missing.
abbrev pub Survives : Bytes → Bytes → Type 0
Survives b shard = (b ≡ []) ⊎ (b ≡ shard)

-- The documented behaviour: `Split` cuts the data into equal shards, padded with zeros, and adds
-- empty parity shards; `Encode` fills the parity shards and keeps the data shards; from
-- `data_blocks` shards or more `ReconstructData` restores the data shards that are empty.
pub record IsCode (e : Geometry) (c : Coder) : Type 0 where
  pub split_lem :
      (d : Bytes)
      → 0 < length d
      → (shards : List Bytes) × (pad : ℕ) × (c.split d ≡ ok shards)
        × (length shards ≡ e.data_blocks + e.parity_blocks)
        × All (λ s. length s ≡ shard_size_for e (length d)) shards
        × (concat (take e.data_blocks shards) ≡ d ++ replicate pad 0)
  pub encode_lem :
      (size : ℕ) (shards : List Bytes)
      → length shards ≡ e.data_blocks + e.parity_blocks
      → All (λ s. length s ≡ size) shards
      → (out : List Bytes) × (c.encode shards ≡ ok out)
        × (length out ≡ e.data_blocks + e.parity_blocks)
        × All (λ s. length s ≡ size) out
        × (take e.data_blocks out ≡ take e.data_blocks shards)
  pub reconstruct_lem :
      (shards out bufs : List Bytes)
      → length shards ≡ e.data_blocks + e.parity_blocks
      → c.encode shards ≡ ok out
      → All₂ Survives bufs out
      → e.data_blocks ≤ present bufs
      → (res : List Bytes) × (c.reconstruct_data bufs ≡ ok res)
        × (take e.data_blocks res ≡ take e.data_blocks out)

-- The loop of DecodeDataBlocks from index `i` on: `missingData` and `allMissing`.
pub count_missing : (data_blocks : ℕ) → ℕ → List Bytes → ℕ × Bool
count_missing data_blocks i [] = (0, true)
count_missing data_blocks i (b ∷ bs) =
    let (missing, all_missing) = count_missing data_blocks (suc i) bs in
    (
      if ltb i data_blocks && length b == 0 then suc missing else missing,
      if ltb 0 (length b) then false else all_missing,
    )

module _ (e : Geometry) (c : Coder) where
  -- `make([][]byte, k)`
  abbrev pub encode_data : Bytes → Result (List Bytes)
  encode_data d =
      if length d == 0
      then ok (replicate (e.data_blocks + e.parity_blocks) [])
      else do shards ← c.split d; c.encode shards

  pub decode_data_blocks : List Bytes → Result (List Bytes)
  decode_data_blocks bufs =
      let (missing_data, all_missing) = count_missing e.data_blocks 0 bufs in
      if missing_data == 0 || all_missing then ok bufs else c.reconstruct_data bufs
