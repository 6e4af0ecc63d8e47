-- ===== src/Sets/Partition.antt =====
-- The sets that NewErasureSetsWithDisks makes.
use mini_minio.Prelude.{
  ℕ, zero, suc, ◌+◌, ◌*◌, ◌/◌, ◌%◌, ◌^◌, ◌≤◌, ◌<◌, ◌≡◌, Option, none, refl, sym, ap, ◌∙◌, List, [],
  ◌∷◌, ◌++◌, length, take, drop, concat, All, arith, length-take, length-drop,
}
use native.Mathlib.Nat.{mod-lt}
use mini_minio.Prelude.Errors.{Error, ok, ◌>>=◌}
use mini_minio.Sets.{make_sets, new_sets, set_index}

take-++-drop {ℓ} : {A : Type ℓ} (k : ℕ) (l : List A) → take k l ++ drop k l ≡ l
take-++-drop zero l = refl
take-++-drop (suc k) [] = refl
take-++-drop (suc k) (x ∷ l) = ap (λ t. x ∷ t) (take-++-drop k l)

-- The drives in `count` sets of `size`.
cut {ℓ} : {A : Type ℓ} → (count size : ℕ) → List A → List (List A)
cut zero size disks = []
cut (suc count) size disks = take size disks ∷ cut count size (drop size disks)

make_sets_lem {ℓ} :
    {A : Type ℓ} (count size : ℕ) (disks : List A)
    → make_sets none count size disks ≡ ok (cut count size disks)
unfolding make_sets cut
make_sets_lem zero size disks = refl
make_sets_lem (suc count) size disks =
    ap (λ r. r >>= λ sets. ok (take size disks ∷ sets)) (make_sets_lem count size (drop size disks))

cut_lem {ℓ} :
    {A : Type ℓ} (count size : ℕ) (disks : List A)
    → length disks ≡ count * size
    → (concat (cut count size disks) ≡ disks)
      × All (λ s. length s ≡ size) (cut count size disks)
      × (length (cut count size disks) ≡ count)
unfolding cut
cut_lem zero size [] h = (refl, tt, refl)
cut_lem zero size (d ∷ disks) h = absurd (omega arith)
cut_lem (suc count) size disks h =
    let left : length (drop size disks) ≡ count * size = grind (arith, length-drop size disks) in
    let (whole, sizes, many) = cut_lem count size (drop size disks) left in
    (
      ap (λ l. take size disks ++ l) whole ∙ take-++-drop size disks,
      (length-take size disks ∙ grind arith, sizes),
      ap suc many,
    )

-- For positive numbers of blocks and a positive number of drives, below 2^32, in groups of their
-- sum of at most 65536, NewErasureSetsWithDisks cuts the drives in their order into sets of that
-- many drives, and the set that setForObject chooses exists. reedsolomon.New accepts positive
-- numbers of blocks of that sum.
pub new_sets_lem {ℓ} :
    {A : Type ℓ} (new_erasure : (data_blocks parity_blocks : ℕ) → Option Error)
    (documented : (d p : ℕ) → 0 < d → 0 < p → d + p ≤ 65536 → new_erasure d p ≡ none)
    (disks : List A) (data_blocks parity_blocks crc : ℕ)
    → 0 < data_blocks
    → 0 < parity_blocks
    → data_blocks + parity_blocks ≤ 65536
    → 0 < length disks
    → length disks < 2 ^ 32
    → length disks % (data_blocks + parity_blocks) ≡ 0
    → (sets : List (List A)) × (new_sets new_erasure disks data_blocks parity_blocks ≡ ok sets)
      × (concat sets ≡ disks)
      × All (λ s. length s ≡ data_blocks + parity_blocks) sets
      × (length sets * (data_blocks + parity_blocks) ≡ length disks)
      × (set_index crc (length sets) < length sets)
unfolding new_sets set_index
new_sets_lem new_erasure documented disks data_blocks parity_blocks crc data_pos parity_pos
      few_shards pos small exact =
    let size = data_blocks + parity_blocks in
    let count = length disks / size in
    let full : length disks ≡ count * size = grind arith in
    let (whole, sizes, many) = cut_lem count size disks full in
    let some_sets : 0 < count = grind arith in
    let few : count ≤ length disks = grind arith in
    let made =
      ap (λ f. make_sets f count size disks)
        (documented data_blocks parity_blocks data_pos parity_pos few_shards)
      ∙ make_sets_lem count size disks in
    (
      cut count size disks,
      ground (arith, made),
      whole,
      sizes,
      ap (λ k. k * size) many ∙ sym full,
      rw many (omega (arith, mod-lt crc {m = count % 2 ^ 32} (omega arith))),
    )
