-- ===== src/Sets.antt =====
-- cmd/erasure-sets.go: the drives cut into sets, the set of an object, and the bucket operations
-- over the sets. The CRC-32 of the key is an argument.
pub mod Partition
pub mod Listing
pub mod Pages
pub mod Names
mod Tests
use mini_minio.Prelude.{
  ℕ, zero, suc, ◌+◌, ◌*◌, ◌/◌, ◌%◌, ◌^◌, ◌&&◌, ◌||◌, not, ltb, leb, ◌==◌, if◌then◌else◌, Bool, true,
  false, Option, none, some, List, [], ◌∷◌, ◌++◌, length, take, drop, get_elem?,
}
use mini_minio.Prelude.Errors.{Error, Result, ok, err, ◌>>=◌, panic, bucket_not_found, other}
use mini_minio.Prelude.Text.{Text}

abbrev pub not_positive : Error
not_positive = other 1

abbrev pub wrong_count : Error
wrong_count = other 2

-- The loop of NewErasureSetsWithDisks: a set is the list of its drives, and `failure` the error of
-- newErasureObjects, which is that of `reedsolomon.New` for the numbers of blocks.
pub make_sets {ℓ} :
    {A : Type ℓ} → (failure : Option Error) (count size : ℕ) → List A → Result (List (List A))
make_sets failure zero size disks = ok []
make_sets failure (suc count) size disks =
    let later = make_sets failure count size (drop size disks) in
    elim failure [ some e ↦ err e | none ↦ (later >>= λ sets. ok (take size disks ∷ sets)) ]

-- NewErasureSetsWithDisks; `new_erasure` is the error of `reedsolomon.New`, a library's. A number
-- of blocks that is not positive is 0 here.
pub new_sets {ℓ} :
    {A : Type ℓ}
    → (new_erasure : (data_blocks parity_blocks : ℕ) → Option Error) → List A
    → (data_blocks parity_blocks : ℕ) → Result (List (List A))
new_sets new_erasure disks data_blocks parity_blocks =
    let set_drive_count = data_blocks + parity_blocks in
    if data_blocks == 0 || parity_blocks == 0
    then err not_positive
    else if length disks == 0 || not (length disks % set_drive_count == 0)
    then err wrong_count
    else make_sets (new_erasure data_blocks parity_blocks) (length disks / set_drive_count)
        set_drive_count disks

-- setForObject: the index of the set; `uint32(len(s.sets))` wraps.
pub set_index : (crc sets : ℕ) → ℕ
set_index crc sets = crc % (sets % 2 ^ 32)

-- MakeBucket and DeleteBucket of the sets: `op` on one set after the other, up to the first error.
pub each_set : {S : Type 0} → (S → Option Error × S) → List S → Option Error × List S
each_set op [] = (none, [])
each_set op (s ∷ ss) =
    let (failure, s') = op s in
    let (later, ss') = each_set op ss in
    elim failure [ some e ↦ (some e, s' ∷ ss) | none ↦ (later, s' ∷ ss') ]

abbrev pub is_bucket_not_found : Error → Bool
is_bucket_not_found bucket_not_found = true
is_bucket_not_found _ = false

-- GetBucketInfo: what the sets answer; `first_err` is the first other error so far.
pub first_info {ℓ} : {A : Type ℓ} → Option Error → List (Result A) → Result A
first_info none [] = err bucket_not_found
first_info (some e) [] = err e
first_info first_err (ok info ∷ rs) = ok info
first_info none (err e ∷ rs) =
    if is_bucket_not_found e then first_info none rs else first_info (some e) rs
first_info (some x) (err e ∷ rs) = first_info (some x) rs
