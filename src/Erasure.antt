-- ===== src/Erasure.antt =====
-- internal/erasure/erasure.go: the geometry of an erasure-coded object.
-- Sizes are int64 in the source and natural numbers here: they are lengths of data that exist, and
-- every product stays below 2^63 for data below 2^63 / 2 bytes.
pub mod Sizes
pub mod Reader
pub mod Coder
pub mod Encode
pub mod Decode
pub mod Mirror
mod Tests
use mini_minio.Prelude.{ℕ, ◌+◌, ◌-◌, ◌*◌, ◌/◌, ◌%◌, ◌||◌, ◌==◌, if◌then◌else◌}

-- `BlockSize = 10 << 20`.
abbrev pub default_block_size : ℕ
default_block_size = 10485760

-- `Erasure`, without the encoder (`Coder`) and the buffer pool (`Pool`).
pub record Geometry : Type 0 where
  pub data_blocks : ℕ
  pub parity_blocks : ℕ
  pub block_size : ℕ

pub shard_size_for : Geometry → ℕ → ℕ
shard_size_for e block_size =
    if block_size == 0 || e.data_blocks == 0 then 0 else (block_size - 1) / e.data_blocks + 1

pub shard_size : Geometry → ℕ
shard_size e = shard_size_for e e.block_size

pub shard_file_size : Geometry → ℕ → ℕ
shard_file_size e total_length =
    if total_length == 0
    then 0
    else let num_shards = total_length / e.block_size in
      let last_block_size = total_length % e.block_size in
      let last_shard_size = shard_size_for e last_block_size in
      num_shards * shard_size e + last_shard_size
