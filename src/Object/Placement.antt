-- ===== src/Object/Placement.antt =====
-- hashOrder and shuffleDisks of cmd/erasure-object.go: which drive of a set keeps which shard.
-- The CRC-32 of the key is an argument: the checksum is the standard library's hash/crc32.
pub mod Rotation
use mini_minio.Prelude.{
  ℕ, zero, suc, ◌+◌, ◌-◌, ◌%◌, ◌^◌, ◌||◌, not, List, [], ◌∷◌, length, set, replicate, ltb, ◌==◌,
  if◌then◌else◌,
}
use mini_minio.Prelude.Errors.{Result, ok, err, panic}

-- `nums[i-1]` for `i` from `from` on, `k` of them.
pub order_from : (start cardinality from k : ℕ) → List ℕ
order_from start cardinality from zero = []
order_from start cardinality from (suc k) =
    (1 + (start + from) % cardinality) ∷ order_from start cardinality (from + 1) k

-- `cardinality` is the length of a slice; `uint32(cardinality)` wraps.
pub hash_order : (crc cardinality : ℕ) → List ℕ
hash_order crc cardinality =
    if cardinality == 0
    then []
    else order_from (crc % (cardinality % 2 ^ 32)) cardinality 1 cardinality

module _ {ℓ} {A : Type ℓ} where
  -- The loop `shuffled[blockIndex-1] = disks[i]`; an index out of range is a panic.
  pub fill : List A → List A → List ℕ → Result (List A)
  fill shuffled disks [] = ok shuffled
  fill shuffled [] (b ∷ distribution) = err panic
  fill shuffled (d ∷ disks) (b ∷ distribution) =
      let rest = fill (set shuffled (b - 1) d) disks distribution in
      if b == 0 || ltb (length shuffled) b then err panic else rest

  -- `nil_disk` is the zero value of the element type.
  pub shuffle_disks : A → List A → List ℕ → Result (List A)
  shuffle_disks nil_disk disks distribution =
      if not (length distribution == length disks)
      then ok disks
      else fill (replicate (length disks) nil_disk) disks distribution
