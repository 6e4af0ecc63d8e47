-- ===== src/Object/Placement/Rotation.antt =====
-- The places that hashOrder gives to the drives.
use native.Mathlib.Nat.{mod-add-mod, mod-eq_of_lt, mod-eq-sub-mod, mod-lt}
use mini_minio.Prelude.{
  ℕ, zero, suc, ◌+◌, ◌-◌, ◌%◌, ◌^◌, ◌≤◌, ◌<◌, ◌≡◌, ◌≢◌, refl, sym, ap, ap₂, ◌∙◌, some, List, [],
  ◌∷◌, map, get_or, length, set, replicate, get_elem?, arith, dec_lt, length-set,
  get_elem?-set_self, get_elem?-set_ne, length-replicate, get_elem?-get_or,
}
use mini_minio.Prelude.Errors.{ok}
use mini_minio.Object.Placement.{order_from, hash_order, fill, shuffle_disks}

-- Fewer than `n` steps from `a` do not come back to the same residue.
mod-add_ne : (a n t : ℕ) → 0 < t → t < n → (a + t) % n ≢ a % n
mod-add_ne a n t pos lt same =
    let h = a % n in
    let below : h < n = mod-lt a (omega arith) in
    let moved : (h + t) % n ≡ (a + t) % n = mod-add-mod a n t in
    elim (dec_lt (h + t) n) [
      | yes p ↦ absurd (omega (arith, moved, same, mod-eq_of_lt p))
      | no p ↦ absurd (
          omega (
            arith,
            moved,
            same,
            mod-eq-sub-mod {n = h + t} {m = n} (omega arith),
            mod-eq_of_lt {n = h + t - n} {m = n} (omega arith),
          ))
    ]

pub length-order_from : (start n from k : ℕ) → length (order_from start n from k) ≡ k
unfolding order_from
length-order_from start n from zero = refl
length-order_from start n from (suc k) = ap suc (length-order_from start n (from + 1) k)

pub length-hash_order : (crc n : ℕ) → length (hash_order crc n) ≡ n
unfolding hash_order
length-hash_order crc n = ground (arith, length-order_from (crc % (n % 2 ^ 32)) n 1 n)

module _ {ℓ} {A : Type ℓ} (n start : ℕ) where
  -- What the loop has done when it stops: drive `m` of those left is at its place, and no other
  -- place has changed.
  record Filled (from k : ℕ) (before disks after : List A) : Type ℓ where
    size : length after ≡ n
    placed : (m : ℕ) → m < k → get_elem? after ((start + (from + m)) % n) ≡ get_elem? disks m
    kept :
        (q : ℕ)
        → ((m : ℕ) → m < k → q ≢ (start + (from + m)) % n)
        → get_elem? after q ≡ get_elem? before q

  -- One more drive in front: the places of the later ones differ from its place.
  module _ (from k : ℕ) (before disks after : List A) (d : A) (le : suc k ≤ n)
      (size : length before ≡ n)
      (f : Filled (from + 1) k (set before ((start + from) % n) d) disks after) where
    first_kept : get_elem? after ((start + from) % n) ≡ some d
    first_kept =
        f.kept ((start + from) % n) (λ m lt same.
          mod-add_ne (start + from) n (suc m) (omega arith) (omega arith) (
            ap (λ i. i % n) {x = start + from + suc m} {y = start + (from + 1 + m)} (omega arith)
            ∙ sym same))
        ∙ get_elem?-set_self before ((start + from) % n) d
            (omega (arith, mod-lt (start + from) {m = n} (omega arith)))

    step_placed :
        (m : ℕ) → m < suc k → get_elem? after ((start + (from + m)) % n) ≡ get_elem? (d ∷ disks) m
    step_placed zero lt =
        ap (λ i. get_elem? after (i % n)) {x = start + (from + 0)} {y = start + from} (omega arith)
        ∙ first_kept
    step_placed (suc m) lt =
        ap (λ i. get_elem? after (i % n)) {x = start + (from + suc m)} {y = start + (from + 1 + m)}
          (omega arith)
        ∙ f.placed m (omega arith)

    Filled-step : Filled from (suc k) before (d ∷ disks) after
    Filled-step = record {
      size = f.size;
      placed = step_placed;
      kept = λ q h.
          f.kept q (λ m lt same. h (suc m) (omega arith) (
            same
            ∙ ap (λ i. i % n) {x = start + (from + 1 + m)} {y = start + (from + suc m)}
                (omega arith)))
          ∙ get_elem?-set_ne before d (λ same.
            h 0 (omega arith) (
              sym same
              ∙ ap (λ i. i % n) {x = start + from} {y = start + (from + 0)} (omega arith)));
    }

  fill_lem :
      (from k : ℕ) (before disks : List A)
      → k ≤ n
      → length before ≡ n
      → length disks ≡ k
      → (after : List A) × (fill before disks (order_from start n from k) ≡ ok after)
        × Filled from k before disks after
  unfolding fill order_from
  fill_lem from zero before disks le size count = (
    before,
    refl,
    record { size = size; placed = λ m lt. absurd (omega arith); kept = λ q h. refl },
  )
  fill_lem from (suc k) before [] le size count = absurd (omega arith)
  fill_lem from (suc k) before (d ∷ disks) le size count =
      let place = (start + from) % n in
      let lt : place < n = mod-lt (start + from) (omega arith) in
      let (after, done, f) =
        fill_lem (from + 1) k (set before place d) disks (omega arith)
          (length-set before place d ∙ size) (omega arith) in
      let one : 1 + place - 1 ≡ place = omega arith in
      (after, rw one (ground (arith, done)), Filled-step from k before disks after d le size f)

place_lem :
    (crc n j : ℕ) → 0 < n → n < 2 ^ 32 → (crc + j + 1) % n ≡ (crc % (n % 2 ^ 32) + (1 + j)) % n
place_lem crc n j pos small =
    let wide : n % 2 ^ 32 ≡ n = omega arith in
    ap (λ i. i % n) {x = crc + j + 1} {y = crc + (1 + j)} (omega arith)
    ∙ sym (mod-add-mod crc n (1 + j))
    ∙ ap (λ w. (crc % w + (1 + j)) % n) (sym wide)

-- No two drives share a place: the places of different drives differ.
places_distinct : (crc n i j : ℕ) → i < n → j < n → i ≢ j → (crc + i + 1) % n ≢ (crc + j + 1) % n
places_distinct crc n i j li lj ne same = elim (dec_lt i j) [
  | yes lt ↦
      mod-add_ne (crc + i + 1) n (j - i) (omega arith) (omega arith)
        (ap (λ k. k % n) {x = crc + i + 1 + (j - i)} {y = crc + j + 1} (omega arith) ∙ sym same)
  | no ge ↦
      mod-add_ne (crc + j + 1) n (i - j) (omega arith) (omega arith)
        (ap (λ k. k % n) {x = crc + j + 1 + (i - j)} {y = crc + i + 1} (omega arith) ∙ same)
]

-- With fewer than 2^32 drives the shuffle by the hash order succeeds and keeps the number of
-- drives, drive j has the place (crc + j + 1) mod n, and no other drive has that place.
pub shuffle_disks_lem {ℓ} :
    {A : Type ℓ} (nil_disk : A) (disks : List A) (crc i j : ℕ)
    → length disks < 2 ^ 32
    → i < length disks
    → j < length disks
    → i ≢ j
    → let n = length disks in
      (shuffled : List A) × (shuffle_disks nil_disk disks (hash_order crc n) ≡ ok shuffled)
      × (length shuffled ≡ n)
      × (get_elem? shuffled ((crc + j + 1) % n) ≡ get_elem? disks j)
      × ((crc + i + 1) % n ≢ (crc + j + 1) % n)
unfolding shuffle_disks hash_order
shuffle_disks_lem nil_disk disks crc i j small li lj ne =
    let n = length disks in
    let start = crc % (n % 2 ^ 32) in
    let (after, done, f) =
      fill_lem n start 1 n (replicate n nil_disk) disks (omega arith) (length-replicate n nil_disk)
        refl in
    (
      after,
      ground (arith, done, length-order_from start n 1 n),
      f.size,
      ap (get_elem? after) (place_lem crc n j (omega arith) small) ∙ f.placed j lj,
      places_distinct crc n i j li lj ne,
    )

-- A drive is found again at its place.
find_back {ℓ} :
    {A : Type ℓ} (nil_disk : A) (after : List A) (n start from k : ℕ) (disks : List A)
    → length disks ≡ k
    → ((m : ℕ) → m < k → get_elem? after ((start + (from + m)) % n) ≡ get_elem? disks m)
    → map (λ b. get_or after (b - 1) nil_disk) (order_from start n from k) ≡ disks
unfolding order_from
find_back nil_disk after n start from zero [] size placed = refl
find_back nil_disk after n start from zero (d ∷ disks) size placed = absurd (omega arith)
find_back nil_disk after n start from (suc k) [] size placed = absurd (omega arith)
find_back nil_disk after n start from (suc k) (d ∷ disks) size placed =
    let one : 1 + (start + from) % n - 1 ≡ (start + (from + 0)) % n =
      omega arith ∙ ap (λ i. i % n) {x = start + from} {y = start + (from + 0)} (omega arith) in
    ap₂ (λ x xs. x ∷ xs)
      (ap (λ i. get_or after i nil_disk) one
        ∙ get_elem?-get_or after ((start + (from + 0)) % n) nil_disk (placed 0 (omega arith)))
      (find_back nil_disk after n start (from + 1) k disks (omega arith) (λ m lt.
        ap (λ i. get_elem? after (i % n)) {x = start + (from + 1 + m)} {y = start + (from + suc m)}
          (omega arith)
        ∙ placed (suc m) (omega arith)))

hash_order-pos : (crc n : ℕ) → 0 < n → hash_order crc n ≡ order_from (crc % (n % 2 ^ 32)) n 1 n
unfolding hash_order
hash_order-pos crc n pos = ground arith

-- Shuffled drives are as many, and are put back to their places.
pub shuffle_disks-put_back {ℓ} :
    {A : Type ℓ} (nil_disk : A) (disks : List A) (crc : ℕ)
    → let n = length disks in
      (shuffled : List A) × (shuffle_disks nil_disk disks (hash_order crc n) ≡ ok shuffled)
      × (length shuffled ≡ n)
      × (map (λ b. get_or shuffled (b - 1) nil_disk) (hash_order crc n) ≡ disks)
unfolding shuffle_disks hash_order fill
shuffle_disks-put_back nil_disk [] crc = ([], refl, refl, refl)
shuffle_disks-put_back nil_disk (d ∷ ds) crc =
    let disks = d ∷ ds in
    let n = length disks in
    let start = crc % (n % 2 ^ 32) in
    let (after, done, f) =
      fill_lem n start 1 n (replicate n nil_disk) disks (omega arith) (length-replicate n nil_disk)
        refl in
    (
      after,
      ground (arith, done, length-order_from start n 1 n),
      f.size,
      ap (map (λ b. get_or after (b - 1) nil_disk)) (hash_order-pos crc n (omega arith))
          ∙ find_back nil_disk after n start 1 n disks refl f.placed,
    )
