-- ===== src/Object/Put/Keep.antt =====
-- multiWriter and Encode, and what a drive keeps beside its shard files: `value` of a writer is what
-- the drive that it holds keeps.
use mini_minio.Prelude.{
  ℕ, zero, suc, ◌+◌, ◌≡◌, refl, ap₂, ◌∙◌, inl, inr, not, ◌&&◌, ◌==◌, Bool-cases, Option, none,
  Option-cases, some, List, [], ◌∷◌, map, length, if◌then◌else◌, arith,
}
use mini_minio.Prelude.Errors.{Error, Result, ok, err, Result-cases, ◌>>=◌}
use mini_minio.Erasure.{Geometry}
use mini_minio.Erasure.Reader.{Bytes}
use mini_minio.Erasure.Coder.{Coder, encode_data}
use mini_minio.Erasure.Encode.{
  Source, Slot, is_skipped, write_writer, write_slot, write_slots, mw_write, encode_block,
  encode_round, encode_loop, encode, Ending, more, at_eof, broken, classify, read_full,
}

-- `value` of the writer of a slot, if it has one.
abbrev pub slot_value {ℓ} : {W : Type 0} {A : Type ℓ} → (W → A) → Slot W → Option A
slot_value value s = elim s.writer [ none ↦ none | some w ↦ some (value w) ]

-- A write keeps the value of the writer; then all of Encode does.
module _ {W A : Type 0} (write : W → Bytes → Result ℕ × W) (value : W → A)
    (keeps : (w : W) (b : Bytes) → value (write w b).1 ≡ value w) where
  abbrev values : List (Slot W) → List (Option A)
  values = map (slot_value value)

  write_writer-value :
      (w : W) (b : Bytes) → slot_value value (write_writer write w b).1 ≡ some (value w)
  unfolding write_writer
  write_writer-value w b = ground (arith, keeps w b)

  write_slot-value :
      (s : Slot W) (b : Bytes) → slot_value value (write_slot write s b).1 ≡ slot_value value s
  unfolding write_slot
  write_slot-value s b = by_slot s.failure s.writer refl refl
    where
      by_slot :
          (f : Option Error) (o : Option W)
          → s.failure ≡ f
          → s.writer ≡ o
          → slot_value value (write_slot write s b).1 ≡ slot_value value s
      by_slot (some x) o ef eo = ground arith
      by_slot none none ef eo = ground arith
      by_slot none (some w) ef eo = ground (arith, write_writer-value w b)

  -- Where the loop returns slots, they have the values of those it was given.
  abbrev SameValues : List (Slot W) → Result (ℕ × List (Slot W)) → Type 0
  SameValues slots (err e) = Unit {0}
  SameValues slots (ok (n, slots')) = values slots' ≡ values slots

  bind-SameValues :
      (s : Slot W) (ss : List (Slot W)) (r : Result (ℕ × List (Slot W))) (next : Slot W)
      (count : ℕ → ℕ)
      → slot_value value next ≡ slot_value value s
      → SameValues ss r
      → SameValues (s ∷ ss) (r >>= λ r. ok (count r.0, next ∷ r.1))
  bind-SameValues s ss (err e) next count head tail = tt
  bind-SameValues s ss (ok (n, ss')) next count head tail = ap₂ (λ x xs. x ∷ xs) head tail

  write_slots-SameValues :
      (slots : List (Slot W)) (blocks : List Bytes)
      → SameValues slots (write_slots write slots blocks)
  unfolding write_slots
  write_slots-SameValues [] blocks = refl
  write_slots-SameValues (s ∷ ss) [] = elim (Bool-cases (is_skipped write s)) [
    | inl t ↦ rw t (bind-SameValues s ss _ s (λ n. n) refl (write_slots-SameValues ss []))
    | inr f ↦ rw f tt
  ]
  write_slots-SameValues (s ∷ ss) (b ∷ bs) =
      let (done, s') = write_slot write s b in
      bind-SameValues s ss _ s' (λ n. if done then suc n else n) (write_slot-value s b)
        (write_slots-SameValues ss bs)

  module _ (quorum : ℕ) where
    mw_write-values :
        (slots : List (Slot W)) (blocks : List Bytes)
        → values (mw_write write quorum slots blocks).1 ≡ values slots
    unfolding mw_write
    mw_write-values slots blocks =
        by_result (write_slots write slots blocks) (write_slots-SameValues slots blocks) refl
      where
        by_result :
            (r : Result (ℕ × List (Slot W)))
            → SameValues slots r
            → write_slots write slots blocks ≡ r
            → values (mw_write write quorum slots blocks).1 ≡ values slots
        by_result (err x) same e = rw (e, mw_write) refl
        by_result (ok (n, slots')) same e = rw (e, mw_write) same

    module _ (e : Geometry) (c : Coder) where
      encode_block-values :
          (slots : List (Slot W)) (buf : Bytes)
          → values (encode_block write quorum e c slots buf).1 ≡ values slots
      unfolding encode_block
      encode_block-values slots buf = elim (Result-cases (encode_data e c buf)) [
        | inl (x, h) ↦ rw (h, encode_block) refl
        | inr (shards, h) ↦ rw (h, encode_block) (mw_write-values slots shards)
      ]

      encode_round-values :
          (slots : List (Slot W)) (total : ℕ) (buf : Bytes)
          (go_on : List (Slot W) → ℕ → Result ℕ × List (Slot W))
          → ((slots' : List (Slot W)) (n : ℕ) → values (go_on slots' n).1 ≡ values slots')
          → values (encode_round write quorum e c slots total buf go_on).1 ≡ values slots
      unfolding encode_round
      encode_round-values slots total buf go_on h =
          let (failure, slots') = encode_block write quorum e c slots buf in
          let kept = encode_block-values slots buf in
          elim (Bool-cases (length buf == 0 && not (total == 0))) [
            | inl t ↦ rw (t, encode_round) refl
            | inr f ↦ elim (Option-cases failure) [
              | inl n ↦ rw (f, encode_round, n) (h slots' (total + length buf) ∙ kept)
              | inr (x, n) ↦ rw (f, encode_round, n) kept
            ]
          ]

      ending-values :
          (slots : List (Slot W)) (total : ℕ) (buf : Bytes)
          (next : List (Slot W) → ℕ → Result ℕ × List (Slot W))
          → ((slots' : List (Slot W)) (n : ℕ) → values (next slots' n).1 ≡ values slots')
          → (end : Ending)
          → let round = encode_round write quorum e c slots total buf in
            let result : Result ℕ × List (Slot W) = elim end [
              | broken x ↦ (err x, slots)
              | at_eof ↦ round (λ slots' total'. (ok total', slots'))
              | more ↦ round (λ slots' total'. next slots' total')
            ] in
            values result.1 ≡ values slots
      ending-values slots total buf next h (broken x) = refl
      ending-values slots total buf next h at_eof =
          encode_round-values slots total buf _ (λ slots' n. refl)
      ending-values slots total buf next h more = encode_round-values slots total buf _ h

      module _ (ctx_err : ℕ → Option Error) (size : ℕ) where
        encode_loop-values :
            (fuel i : ℕ) (src : Source) (slots : List (Slot W)) (total : ℕ)
            → values (encode_loop write quorum e c ctx_err size fuel i src slots total).1
              ≡ values slots
        unfolding encode_loop
        encode_loop-values zero i src slots total = refl
        encode_loop-values (suc fuel) i src slots total = elim (Option-cases (ctx_err i)) [
          | inr (x, n) ↦ rw (n, encode_loop) refl
          | inl n ↦
              rw (n, encode_loop)
                (let (buf, end, src') = read_full size src in
                  ending-values slots total buf
                    (encode_loop write quorum e c ctx_err size fuel (i + 1) src')
                    (λ slots' n. encode_loop-values fuel (i + 1) src' slots' n) (classify end))
        ]

        pub encode-values :
            (src : Source) (slots : List (Slot W))
            → values (encode write quorum e c ctx_err size src slots).1 ≡ values slots
        unfolding encode
        encode-values src slots = encode_loop-values (suc (length src.rest)) 0 src slots 0
