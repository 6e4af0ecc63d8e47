-- ===== src/Object/Parts/Cover.antt =====
-- decodeObject and objectPartRange, and the contents of the parts put together.
use mini_minio.Prelude.{
  ℕ, zero, suc, ◌+◌, ◌-◌, ◌≤◌, ◌<◌, ◌≡◌, refl, sym, ap, ap₂, ◌∙◌, false, leb, ◌==◌, if◌then◌else◌,
  min, max, Bool-cases, inl, inr, Option, none, some, List, [], ◌∷◌, ◌++◌, length, length-drop,
  take, drop, concat, All₂, arith,
}
use mini_minio.Prelude.Slices.{
  slice, slice_empty, take_all, drop_all, slice-append, take-nil, drop-nil,
}
use mini_minio.Prelude.Errors.{Error, ok, join}
use mini_minio.Erasure.Reader.{Bytes}
use mini_minio.Object.Meta.{ObjectPartInfo}
use mini_minio.Object.Parts.{then_write, read_part, decode_parts, decode_object, object_part_range}

module _ {ℓ} {A : Type ℓ} where
  slice-nil : (lo hi : ℕ) → slice {A = A} lo hi [] ≡ []
  slice-nil lo hi = ap (take (hi - lo)) (drop-nil lo) ∙ take-nil (hi - lo)

  take-++ : (k : ℕ) (c r : List A) → take k (c ++ r) ≡ take k c ++ take (k - length c) r
  take-++ zero [] r = refl
  take-++ (suc k) [] r = ap (λ n. take n r) {x = suc k} {y = suc k - 0} (omega arith)
  take-++ zero (x ∷ c) r = ap (λ n. take n r) {x = 0} {y = 0 - suc (length c)} (omega arith)
  take-++ (suc k) (x ∷ c) r =
      ap (λ l. x ∷ l) (take-++ k c r)
      ∙ ap (λ n. x ∷ take k c ++ take n r) {x = k - length c} {y = suc k - suc (length c)}
          (omega arith)

  drop-++ : (k : ℕ) (c r : List A) → drop k (c ++ r) ≡ drop k c ++ drop (k - length c) r
  drop-++ zero [] r = refl
  drop-++ (suc k) [] r = ap (λ n. drop n r) {x = suc k} {y = suc k - 0} (omega arith)
  drop-++ zero (x ∷ c) r =
      ap (λ n. x ∷ c ++ drop n r) {x = 0} {y = 0 - suc (length c)} (omega arith)
  drop-++ (suc k) (x ∷ c) r =
      drop-++ k c r
      ∙ ap (λ n. drop k c ++ drop n r) {x = k - length c} {y = suc k - suc (length c)} (omega arith)

  -- A slice of two lists put together.
  slice-++ :
      (lo hi : ℕ) (c r : List A)
      → slice lo hi (c ++ r) ≡ slice lo hi c ++ slice (lo - length c) (hi - length c) r
  slice-++ lo hi c r =
      ap (take (hi - lo)) (drop-++ lo c r)
      ∙ take-++ (hi - lo) (drop lo c) (drop (lo - length c) r)
      ∙ ap (λ n. slice lo hi c ++ take n (drop (lo - length c) r))
          {x = hi - lo - length (drop lo c)} {y = hi - length c - (lo - length c)}
          (omega (arith, length-drop lo c))

  -- A slice behind the end of the list.
  slice_beyond : (lo hi : ℕ) (c : List A) → length c ≤ lo → slice lo hi c ≡ []
  slice_beyond lo hi c h = ap (take (hi - lo)) (drop_all lo c h) ∙ take-nil (hi - lo)

  -- A slice ends at the end of the list.
  slice-min : (lo hi : ℕ) (c : List A) → slice lo (min hi (length c)) c ≡ slice lo hi c
  slice-min lo hi c = elim (Bool-cases (leb hi (length c))) [
    | inl le ↦
        ap (λ n. slice lo n c) {x = min hi (length c)} {y = hi}
          (let below : hi ≤ length c = ground arith in omega arith)
    | inr gt ↦
        let above : length c < hi = ground arith in
        take_all (min hi (length c) - lo) (drop lo c) (omega (arith, length-drop lo c))
        ∙ sym (take_all (hi - lo) (drop lo c) (omega (arith, length-drop lo c)))
  ]

module _ (decode_part : (number offset len total : ℕ) → Bytes × Option Error)
    (close_part : ℕ → Option Error) where
  -- Decode gives every range of the part's content, and the readers close without an error.
  pub record Decodes (p : ObjectPartInfo) (c : Bytes) : Type 0 where
    pub size : length c ≡ p.actual_size
    pub ranges :
        (offset len : ℕ)
        → offset + len ≤ length c
        → decode_part p.number offset len p.actual_size ≡ (slice offset (offset + len) c, none)
    pub closes : close_part p.number ≡ none

  decode_parts_lem :
      (object_offset offset request_end : ℕ) (parts : List ObjectPartInfo) (contents : List Bytes)
      → All₂ Decodes parts contents
      → offset ≤ request_end
      → decode_parts decode_part close_part object_offset offset request_end parts
        ≡ (slice (offset - object_offset) (request_end - object_offset) (concat contents), none)
  unfolding decode_parts
  decode_parts_lem object_offset offset request_end [] [] h le =
      ap (λ l. (l, none)) (sym (slice-nil (offset - object_offset) (request_end - object_offset)))
  decode_parts_lem object_offset offset request_end [] (c ∷ contents) h le = elim h [ ]
  decode_parts_lem object_offset offset request_end (p ∷ parts) [] h le = elim h [ ]
  decode_parts_lem object_offset offset request_end (p ∷ parts) (c ∷ contents) (d, h) le =
      let n = p.actual_size in
      let later = decode_parts_lem (object_offset + n) offset request_end parts contents h le in
      let lo = offset - object_offset in
      let hi = request_end - object_offset in
      let start = max offset object_offset in
      let end = min request_end (object_offset + n) in
      let size = d.size in
      let others : slice (lo - length c) (hi - length c) (concat contents)
          ≡ slice (offset - (object_offset + n)) (request_end - (object_offset + n))
              (concat contents) =
        ap₂ (λ a b. slice a b (concat contents)) {x = lo - length c}
          {y = offset - (object_offset + n)} {u = hi - length c}
          {v = request_end - (object_offset + n)} (omega arith) (omega arith) in
      let joined = slice-++ lo hi c (concat contents) in
      elim (Bool-cases (leb end start)) [
        | inl outside ↦
            let passed : end ≤ start = ground arith in
            let nothing : slice lo hi c ≡ [] =
              sym (slice-min lo hi c) ∙ slice_empty lo (min hi (length c)) c (omega arith) in
            rw outside (later ∙ ap (λ l. (l, none)) (sym (joined ∙ ap₂ ◌++◌ nothing others)))
        | inr inside ↦
            let before : start < end = ground arith in
            let here : decode_part p.number (start - object_offset) (end - start) n
                ≡ (slice lo hi c, none) =
              d.ranges (start - object_offset) (end - start) (omega arith)
              ∙ ap₂ (λ a b. (slice a b c, none)) {x = start - object_offset} {y = lo}
                  {u = start - object_offset + (end - start)} {v = min hi (length c)} (omega arith)
                  (omega arith)
              ∙ ap (λ l. (l, none)) (slice-min lo hi c) in
            let closed = d.closes in
            let got : read_part decode_part close_part p.number (start - object_offset)
                  (end - start) n
                ≡ (slice lo hi c, none) =
              ap₂ (λ x y. (x.0, join x.1 y)) here closed in
            rw inside (
              ap₂ then_write got later
              ∙ ap (λ l. (l, none)) (sym (joined ∙ ap (λ l. slice lo hi c ++ l) others)))
      ]

  -- decodeObject of an object of two parts or more, whose parts decode to their contents, writes
  -- the requested range of the contents put together, over the borders of the parts, and reports
  -- no error.
  pub decode_object_lem :
      (size offset len : ℕ) (parts : List ObjectPartInfo) (contents : List Bytes)
      → 2 ≤ length parts
      → All₂ Decodes parts contents
      → decode_object decode_part close_part parts size offset len
        ≡ (slice offset (offset + len) (concat contents), none)
  unfolding decode_object
  decode_object_lem size offset len parts contents many h =
      let several : leb (length parts) 1 ≡ false = ground arith in
      rw several (
        decode_parts_lem 0 offset (offset + len) parts contents h (omega arith)
        ∙ ap₂ (λ a b. (slice a b (concat contents), none)) {x = offset - 0} {y = offset}
            {u = offset + len - 0} {v = offset + len} (omega arith) (omega arith))

-- The content of the first part with a number.
abbrev pub content_of : ℕ → List ObjectPartInfo → List Bytes → Option Bytes
content_of part_number [] contents = none
content_of part_number (p ∷ ps) [] = none
content_of part_number (p ∷ ps) (c ∷ cs) =
    if p.number == part_number then some c else content_of part_number ps cs

abbrev pub Sized : ObjectPartInfo → Bytes → Type 0
Sized p c = length c ≡ p.actual_size

part_range_from :
    (part_number offset : ℕ) (parts : List ObjectPartInfo) (contents : List Bytes)
    {first last size : ℕ}
    → All₂ Sized parts contents
    → object_part_range part_number offset parts ≡ ok (first, last, size)
    → (offset ≤ first)
      × (last + 1 ≡ first + size)
      × (some (slice (first - offset) (last + 1 - offset) (concat contents))
          ≡ content_of part_number parts contents)
unfolding object_part_range
part_range_from part_number offset [] contents h e = absurd (ground (arith, e))
part_range_from part_number offset (p ∷ parts) [] h e = elim h [ ]
part_range_from part_number offset (p ∷ parts) (c ∷ contents) {first} {last} {size} (s, h) e =
    elim (Bool-cases (p.number == part_number)) [
      | inl here ↦
          let full : (p.actual_size == 0) ≡ false = ground (arith, e, here) in
          let at_offset : first ≡ offset = ground (arith, e, here, full) in
          let at_last : last ≡ offset + p.actual_size - 1 = ground (arith, e, here, full) in
          let at_size : size ≡ p.actual_size = ground (arith, e, here, full) in
          (
            omega arith,
            ground arith,
            rw here (
                ap some (
                  ap₂ (λ a b. slice a b (c ++ concat contents)) {x = first - offset} {y = 0}
                    {u = last + 1 - offset} {v = length c} (omega arith) (ground arith)
                  ∙ slice-append 0 (length c) c (concat contents) (omega arith)
                  ∙ take_all (length c - 0) c (omega arith))),
          )
      | inr later ↦
          let (above, sized, found) =
            part_range_from part_number (offset + p.actual_size) parts contents {first = first}
              {last = last} {size = size} h (ground (arith, e, later)) in
          (
            omega arith,
            sized,
            rw later (
                ap some (
                  slice-++ (first - offset) (last + 1 - offset) c (concat contents)
                  ∙ ap₂ ◌++◌ (slice_beyond (first - offset) (last + 1 - offset) c (omega arith)) (
                      ap₂ (λ a b. slice a b (concat contents)) {x = first - offset - length c}
                        {y = first - (offset + p.actual_size)} {u = last + 1 - offset - length c}
                        {v = last + 1 - (offset + p.actual_size)} (omega arith) (omega arith)))
                ∙ found),
          )
    ]

-- If objectPartRange gives a range, the range has the given size, and in the contents of the parts
-- put together it is the content of the first part with the number.
pub object_part_range_lem :
    (part_number : ℕ) (parts : List ObjectPartInfo) (contents : List Bytes) {first last size : ℕ}
    → All₂ Sized parts contents
    → object_part_range part_number 0 parts ≡ ok (first, last, size)
    → (last + 1 ≡ first + size)
      × (some (slice first (last + 1) (concat contents)) ≡ content_of part_number parts contents)
object_part_range_lem part_number parts contents {first} {last} h e =
    let (above, sized, found) = part_range_from part_number 0 parts contents h e in
    (
      sized,
      ap₂ (λ a b. some (slice a b (concat contents))) {x = first} {y = first - 0} {u = last + 1}
            {v = last + 1 - 0} (omega arith) (omega arith)
          ∙ found,
    )
