-- ===== src/Erasure/Tests.antt =====
-- Tests of the erasure coding on small objects, and the theorems about it at such inputs: blocks of
-- four bytes, mirrored.
use mini_minio.Prelude.{
  ℕ, zero, suc, ◌+◌, ◌*◌, ◌≤◌, ◌<◌, ◌≡◌, refl, inl, inr, none, List, [], ◌∷◌, take, arith,
}
use mini_minio.Prelude.Errors.{Result, ok}
use mini_minio.Erasure.{shard_size_for}
use mini_minio.Erasure.Sizes.{shard_size_for_bounds}
use mini_minio.Erasure.Reader.{Bytes}
use mini_minio.Erasure.Coder.{decode_data_blocks}
use mini_minio.Erasure.Coder.Laws.{decode_data_blocks_lem}
use mini_minio.Erasure.Decode.{decode}
use mini_minio.Erasure.Decode.Range.{IsReadable, block_of, decode_lem}
use mini_minio.Erasure.Mirror.{mirror_geometry, mirror, mirror-IsShards}

abbrev object : Bytes
object = 10 ∷ 11 ∷ 12 ∷ 13 ∷ 14 ∷ 15 ∷ []

abbrev block_0 : Bytes
block_0 = 10 ∷ 11 ∷ 12 ∷ 13 ∷ []

abbrev block_1 : Bytes
block_1 = 14 ∷ 15 ∷ []

-- The first block lost its data shard, the second its parity shard.
abbrev damaged : ℕ → Result (List Bytes)
damaged zero = ok ([] ∷ block_0 ∷ [])
damaged (suc k) = ok (block_1 ∷ [] ∷ [])

damaged-IsReadable :
    (k : ℕ)
    → k * 4 < 2 + 4
    → (bufs : List Bytes) × (damaged k ≡ ok bufs)
      × IsReadable mirror_geometry mirror (block_of mirror_geometry object k) bufs
damaged-IsReadable zero lt = (
  [] ∷ block_0 ∷ [],
  refl,
  record {
    out = block_0 ∷ block_0 ∷ [];
    shards = mirror-IsShards block_0 (omega arith);
    survive = (inl refl, (inr refl, tt));
    enough = omega arith;
  },
)
damaged-IsReadable (suc zero) lt = (
  block_1 ∷ [] ∷ [],
  refl,
  record {
    out = block_1 ∷ block_1 ∷ [];
    shards = mirror-IsShards block_1 (omega arith);
    survive = (inr refl, (inl refl, tt));
    enough = omega arith;
  },
)
damaged-IsReadable (suc (suc k)) lt = absurd (omega arith)

decode_lem_example :
    decode mirror_geometry mirror (λ k. none) damaged 2 4 6 ≡ (12 ∷ 13 ∷ 14 ∷ 15 ∷ [], none)
decode_lem_example =
    decode_lem mirror_geometry mirror (omega arith) (omega arith) object 2 4 (omega arith)
      (λ k. none) damaged (λ k. refl) damaged-IsReadable

decode_data_blocks_lem_example :
    (res : List Bytes) × (decode_data_blocks mirror_geometry mirror ([] ∷ block_1 ∷ []) ≡ ok res)
    × (take 1 res ≡ block_1 ∷ [])
decode_data_blocks_lem_example =
    decode_data_blocks_lem mirror_geometry mirror block_1 ([] ∷ block_1 ∷ [])
      (block_1 ∷ block_1 ∷ []) (omega arith) (unfold shard_size_for in omega arith)
      (mirror-IsShards block_1 (omega arith)) (inl refl, (inr refl, tt)) (omega arith)

shard_size_for_bounds_example :
    (6 ≤ shard_size_for (record { data_blocks = 4; parity_blocks = 2; block_size = 8 }) 6 * 4)
    × (shard_size_for (record { data_blocks = 4; parity_blocks = 2; block_size = 8 }) 6 * 4 < 6 + 4)
shard_size_for_bounds_example =
    shard_size_for_bounds (record { data_blocks = 4; parity_blocks = 2; block_size = 8 }) 6
      (omega arith)
