-- ===== src/Erasure/Sizes.antt =====
-- Bounds of the shard sizes of internal/erasure/erasure.go.
use mini_minio.Prelude.{ℕ, ◌+◌, ◌*◌, ◌≤◌, ◌<◌, arith, dec_lt}
use mini_minio.Erasure.{Geometry, shard_size_for}

-- The data shards of a block hold it with less than one byte of padding for each data shard, if
-- there is a data shard.
pub shard_size_for_bounds :
    (e : Geometry) (n : ℕ)
    → 0 < e.data_blocks
    → (n ≤ shard_size_for e n * e.data_blocks)
      × (shard_size_for e n * e.data_blocks < n + e.data_blocks)
unfolding shard_size_for
shard_size_for_bounds e n h = grind arith

pub shard_size_for_pos : (e : Geometry) (n : ℕ) → 0 < e.data_blocks → 0 < n → 0 < shard_size_for e n
unfolding shard_size_for
shard_size_for_pos e n h pos = ground arith

-- A longer block has no shorter shards.
pub shard_size_for_mono :
    (e : Geometry) {m n : ℕ} → 0 < e.data_blocks → m ≤ n → shard_size_for e m ≤ shard_size_for e n
shard_size_for_mono e {m} {n} h le = elim (dec_lt (shard_size_for e n) (shard_size_for e m)) [
  | yes p ↦ absurd (grind (arith, shard_size_for_bounds e m h, shard_size_for_bounds e n h))
  | no p ↦ omega arith
]
