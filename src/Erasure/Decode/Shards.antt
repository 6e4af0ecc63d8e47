-- ===== src/Erasure/Decode/Shards.antt =====
-- The loop over the data shards of one block.

use mini_minio.Prelude.{
  ℕ, zero, suc, ◌+◌, ◌-◌, ◌*◌, ◌≤◌, ◌<◌, ◌≡◌, refl, sym, ap, ap₂, ◌∙◌, List, [], ◌∷◌, ◌++◌, length,
  take, drop, min, max, concat, All, leb, if◌then◌else◌, arith, Bool-cases, inl, inr,
}
use mini_minio.Prelude.Slices.{
  slice, slice_empty, slice-slice, window_step, take-append_all, drop-append_all, drop-drop,
}
use mini_minio.Prelude.Errors.{ok}
use mini_minio.Erasure.Reader.{Bytes}
use mini_minio.Erasure.Decode.{write_shards}

-- One shard, which is the part `[p, p + size)` of the block: what is written of it.
shard_part :
    (b whole : Bytes) (size p block_len ds de : ℕ)
    → length b ≡ size
    → b ≡ slice p (p + size) whole
    → de ≤ block_len
    → (out : Bytes)
    → (if leb (min de (min (p + length b) block_len)) (max ds p)
        then out
        else slice (max ds p - p) (min de (min (p + length b) block_len) - p) b ++ out)
      ≡ (if leb (min de (p + size)) (max ds p)
          then out
          else slice (max ds p) (min de (p + size)) whole ++ out)
shard_part b whole size p block_len ds de len at le out =
    rw same (elim (Bool-cases (leb (min de (p + size)) (max ds p))) [
      | inl e ↦ rw e refl
      | inr e ↦ rw e (ap (λ l. l ++ out) (part (ground arith)))
    ])
  where
    same : min de (min (p + length b) block_len) ≡ min de (p + size)
    same = omega arith

    part :
        max ds p < min de (p + size)
        → slice (max ds p - p) (min de (p + size) - p) b
          ≡ slice (max ds p) (min de (p + size)) whole
    part h =
        ap (slice (max ds p - p) (min de (p + size) - p)) at
        ∙ slice-slice (max ds p - p) (min de (p + size) - p) p (p + size) whole (omega arith)
        ∙ ap₂ (λ k l. slice k l whole) {x = p + (max ds p - p)} {y = max ds p}
            {u = p + (min de (p + size) - p)} {v = min de (p + size)} (omega arith) (omega arith)

-- The first shard of what is left of the block, and the rest.
module _ (p size : ℕ) (b whole rest : Bytes) (len : length b ≡ size)
    (at : drop p whole ≡ b ++ rest) where
  head_slice : b ≡ slice p (p + size) whole
  head_slice =
      sym (take-append_all b rest)
      ∙ ap₂ take {x = length b} {y = p + size - p} {u = b ++ rest} {v = drop p whole} (omega arith)
          (sym at)

  tail_drop : drop (p + size) whole ≡ rest
  tail_drop =
      sym (drop-drop size p whole)
      ∙ ap₂ drop {x = size} {y = length b} (omega arith) at
      ∙ drop-append_all b rest

-- The part written of shard `i`, and the parts of the `k` shards behind it, are one part.
next_part :
    (k i size ds de : ℕ) (whole : Bytes)
    → (if leb (min de (i * size + size)) (max ds (i * size))
        then slice (max ds ((i + 1) * size)) (min de ((i + 1 + k) * size)) whole
        else slice (max ds (i * size)) (min de (i * size + size)) whole
          ++ slice (max ds ((i + 1) * size)) (min de ((i + 1 + k) * size)) whole)
      ≡ slice (max ds (i * size)) (min de ((i + suc k) * size)) whole
next_part k i size ds de whole =
    let q : (i + 1) * size ≡ i * size + size = omega arith in
    let e : (i + 1 + k) * size ≡ (i + suc k) * size = omega arith in
    rw (q, e)
      (window_step ds de (i * size) (i * size + size) ((i + suc k) * size) whole (omega arith)
        (omega arith))

pub write_shards_lem :
    (k i size block_len ds de : ℕ) (bufs : List Bytes) (whole : Bytes)
    → de ≤ block_len
    → length (take k bufs) ≡ k
    → All (λ s. length s ≡ size) (take k bufs)
    → drop (i * size) whole ≡ concat (take k bufs)
    → write_shards k i size block_len ds de bufs
      ≡ ok (slice (max ds (i * size)) (min de ((i + k) * size)) whole)
unfolding write_shards
write_shards_lem zero i size block_len ds de bufs whole le count lens at =
    ap ok (sym (slice_empty (max ds (i * size)) (min de ((i + 0) * size)) whole (omega arith)))
write_shards_lem (suc k) i size block_len ds de [] whole le count lens at = absurd (omega arith)
write_shards_lem (suc k) i size block_len ds de (b ∷ bs) whole le count lens at =
    let rest = concat (take k bs) in
    let ih = write_shards_lem k (i + 1) size block_len ds de bs whole le (omega arith) lens.1 (
      ap (λ n. drop n whole) {x = (i + 1) * size} {y = i * size + size} (omega arith)
      ∙ tail_drop (i * size) size b whole rest lens.0 at) in
    rw ih (
      ap ok (
        shard_part b whole size (i * size) block_len ds de lens.0
          (head_slice (i * size) size b whole rest lens.0 at) le
          (slice (max ds ((i + 1) * size)) (min de ((i + 1 + k) * size)) whole)
        ∙ next_part k i size ds de whole))
