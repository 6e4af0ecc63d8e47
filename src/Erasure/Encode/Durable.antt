-- ===== src/Erasure/Encode/Durable.antt =====
-- What the writers hold after Encode.

use mathlib.Core.List.{append_assoc, append-nil}
use mini_minio.Prelude.{
  ℕ, suc, ◌≤◌, ◌<◌, ◌≡◌, refl, sym, subst, ap, ◌∙◌, Bool, true, false, Option, none, some, List, [],
  ◌∷◌, ◌++◌, length, replicate, if◌then◌else◌, arith, All₂,
}
use mini_minio.Prelude.Errors.{Error, Result, ok}
use mini_minio.Erasure.{Geometry}
use mini_minio.Erasure.Reader.{Bytes}
use mini_minio.Erasure.Coder.{Coder, encode_data}
use mini_minio.Erasure.Encode.{Slot, write_writer, write_slot, write_slots, mw_write, encode_block}
use mini_minio.Erasure.Encode.{encode}
use mini_minio.Erasure.Encode.Blocks.{
  write_blocks, object_blocks, stream, encode_result, encode_lem, blocks_of,
}

-- What each writer was given: the shards of one block behind another, writer by writer.
abbrev pub zip_append : List Bytes → List Bytes → List Bytes
zip_append (b ∷ bs) (c ∷ cs) = (b ++ c) ∷ zip_append bs cs
zip_append _ _ = []

abbrev pub columns : ℕ → List (List Bytes) → List Bytes
columns n [] = replicate n []
columns n (shards ∷ rest) = zip_append shards (columns n rest)

-- The writer is there and none of its writes failed.
abbrev pub is_healthy : {W : Type 0} → Slot W → Bool
is_healthy s = elim s.failure [
  | some e ↦ false
  | none ↦ elim s.writer [ some w ↦ true | none ↦ false ]
]

abbrev pub healthy : {W : Type 0} → List (Slot W) → ℕ
healthy [] = 0
healthy (s ∷ ss) = if is_healthy s then suc (healthy ss) else healthy ss

encode_result_ok :
    {W : Type 0} (n total : ℕ) (slots' : List (Slot W)) (r : Option Error × List (Slot W))
    → encode_result n r ≡ (ok total, slots')
    → (r ≡ (none, slots')) × (total ≡ n)
encode_result_ok n total slots' (none, slots) h = (ground arith, ground arith)
encode_result_ok n total slots' (some x, slots) h = absurd (ground arith)

object_blocks_pos : (size : ℕ) (d : Bytes) → 0 < length (object_blocks size d)
unfolding blocks_of
object_blocks_pos size [] = omega arith
object_blocks_pos size (x ∷ xs) = omega arith

-- `content` is what a writer holds; a write that reports the full length has appended its bytes.
module _ {W : Type 0} (write : W → Bytes → Result ℕ × W) (content : W → Bytes)
    (appends : (w : W) (b : Bytes)
      → (write w b).0 ≡ ok (length b)
      → content (write w b).1 ≡ content w ++ b) where
  -- A slot that is healthy in the end was so before, and its writer has gained `c`.
  abbrev pub Kept : Slot W → Bytes → Slot W → Type 0
  Kept s c s' =
      (w' : W)
      → s'.failure ≡ none
      → s'.writer ≡ some w'
      → (w : W) × (s.failure ≡ none) × (s.writer ≡ some w) × (content w' ≡ content w ++ c)

  pub data Stored : List (Slot W) → List Bytes → List (Slot W) → Type 0 where
    nil : Stored [] [] []
    cons :
        {s s' : Slot W} {c : Bytes} {ss ss' : List (Slot W)} {cs : List Bytes}
        → Kept s c s'
        → Stored ss cs ss'
        → Stored (s ∷ ss) (c ∷ cs) (s' ∷ ss')

  write_writer-Kept :
      (w : W) (b : Bytes)
      → Kept (record { writer = some w; failure = none }) b (write_writer write w b).1
  unfolding write_writer
  write_writer-Kept w b w' f h = (w, refl, refl, ground (arith, appends w b))

  write_writer-count :
      (w : W) (b : Bytes) → is_healthy (write_writer write w b).1 ≡ (write_writer write w b).0
  unfolding write_writer
  write_writer-count w b = ground arith

  write_slot-Kept : (s : Slot W) (b : Bytes) → Kept s b (write_slot write s b).1
  unfolding write_slot
  write_slot-Kept s b = by_slot s.writer s.failure refl refl
    where
      by_slot :
          (o : Option W) (f : Option Error)
          → s.writer ≡ o
          → s.failure ≡ f
          → Kept s b (write_slot write s b).1
      by_slot o (some x) eo ef w' f h = absurd (ground arith)
      by_slot none none eo ef w' f h = absurd (ground arith)
      by_slot (some w) none eo ef w' f h =
          let (v, _, e, grown) = write_writer-Kept w b w' (ground arith) (ground arith) in
          (w, ef, eo, ground (arith, grown, e))

  write_slot-count :
      (s : Slot W) (b : Bytes) → is_healthy (write_slot write s b).1 ≡ (write_slot write s b).0
  unfolding write_slot
  write_slot-count s b = by_slot s.writer s.failure refl refl
    where
      by_slot :
          (o : Option W) (f : Option Error)
          → s.writer ≡ o
          → s.failure ≡ f
          → is_healthy (write_slot write s b).1 ≡ (write_slot write s b).0
      by_slot o (some x) eo ef = ground arith
      by_slot none none eo ef = ground arith
      by_slot (some w) none eo ef = ground (arith, write_writer-count w b)

  -- The loop of Write stores the shards and counts the healthy slots.
  write_slots_lem :
      (slots : List (Slot W)) (shards : List Bytes)
      → length shards ≡ length slots
      → (slots' : List (Slot W)) × (write_slots write slots shards ≡ ok (healthy slots', slots'))
        × Stored slots shards slots'
  unfolding write_slots
  write_slots_lem [] [] e = ([], refl, nil)
  write_slots_lem [] (b ∷ bs) e = absurd (omega arith)
  write_slots_lem (s ∷ ss) [] e = absurd (omega arith)
  write_slots_lem (s ∷ ss) (b ∷ bs) e =
      let (ss', written, kept) = write_slots_lem ss bs (omega arith) in
      (
        (write_slot write s b).1 ∷ ss',
        ground (arith, written, write_slot-count s b),
        cons (write_slot-Kept s b) kept,
      )

  mw_write_lem :
      (quorum : ℕ) (slots slots' : List (Slot W)) (shards : List Bytes)
      → length shards ≡ length slots
      → mw_write write quorum slots shards ≡ (none, slots')
      → (quorum ≤ healthy slots') × Stored slots shards slots'
  unfolding mw_write
  mw_write_lem quorum slots slots' shards e h =
      let (done, written, kept) = write_slots_lem slots shards e in
      let same : done ≡ slots' = ground (arith, written) in
      (ground (arith, written), subst (Stored slots shards) same kept)

  Kept-trans : (s t u : Slot W) (b c : Bytes) → Kept s b t → Kept t c u → Kept s (b ++ c) u
  Kept-trans s t u b c p q w' f h =
      let (v, vf, vw, grown) = q w' f h in
      let (w, wf, ww, grown') = p v vf vw in
      (w, wf, ww, grown ∙ ap (λ l. l ++ c) grown' ∙ append_assoc (content w) b c)

  Stored-trans :
      {a b d : List (Slot W)} {xs ys : List Bytes}
      → Stored a xs b
      → Stored b ys d
      → Stored a (zip_append xs ys) d
  Stored-trans nil nil = nil
  Stored-trans (cons p ps) (cons q qs) = cons (Kept-trans _ _ _ _ _ p q) (Stored-trans ps qs)

  Stored-refl : (a : List (Slot W)) → Stored a (replicate (length a) []) a
  Stored-refl [] = nil
  Stored-refl (s ∷ a) = cons (λ w' f h. (w', f, h, sym (append-nil (content w')))) (Stored-refl a)

  length-Stored : {a b : List (Slot W)} {xs : List Bytes} → Stored a xs b → length b ≡ length a
  length-Stored nil = refl
  length-Stored (cons p ps) = ap suc (length-Stored ps)

  module _ (quorum : ℕ) (e : Geometry) (c : Coder) where
    -- EncodeData gives one shard for each of `n` writers, for each block.
    abbrev pub Encodes : ℕ → Bytes → List Bytes → Type 0
    Encodes n b shards = (encode_data e c b ≡ ok shards) × (length shards ≡ n)

    -- The first block was written, and then the others.
    write_blocks_cons :
        (b : Bytes) (bs : List Bytes) (shards : List Bytes) (slots slots' : List (Slot W))
        → encode_data e c b ≡ ok shards
        → write_blocks write quorum e c slots (b ∷ bs) ≡ (none, slots')
        → (mid : List (Slot W)) × (mw_write write quorum slots shards ≡ (none, mid))
          × (write_blocks write quorum e c mid bs ≡ (none, slots'))
    unfolding write_blocks encode_block
    write_blocks_cons b bs shards slots slots' enc h =
        by_result (mw_write write quorum slots shards) refl
      where
        by_result :
            (r : Option Error × List (Slot W))
            → mw_write write quorum slots shards ≡ r
            → (mid : List (Slot W)) × (mw_write write quorum slots shards ≡ (none, mid))
              × (write_blocks write quorum e c mid bs ≡ (none, slots'))
        by_result (none, mid) w = (mid, w, ground (arith, enc))
        by_result (some x, mid) w = absurd (ground (arith, enc))

    last_quorum :
        (bs : List Bytes) (mid slots' : List (Slot W))
        → quorum ≤ healthy mid
        → write_blocks write quorum e c mid bs ≡ (none, slots')
        → (0 < length bs → quorum ≤ healthy slots')
        → quorum ≤ healthy slots'
    unfolding write_blocks
    last_quorum [] mid slots' met h later = ground arith
    last_quorum (b ∷ bs) mid slots' met h later = later (omega arith)

    write_blocks-Stored :
        (bs : List Bytes) (all : List (List Bytes)) (slots slots' : List (Slot W)) (n : ℕ)
        → length slots ≡ n
        → All₂ (Encodes n) bs all
        → write_blocks write quorum e c slots bs ≡ (none, slots')
        → Stored slots (columns n all) slots' × (0 < length bs → quorum ≤ healthy slots')
    write_blocks-Stored [] [] slots slots' n count enc h =
        let same : slots ≡ slots' = unfold write_blocks in ground arith in
        (
          subst (λ k. Stored slots (replicate k []) slots') count
              (subst (Stored slots (replicate (length slots) [])) same (Stored-refl slots)),
          λ pos. absurd (omega arith),
        )
    write_blocks-Stored (b ∷ bs) (shards ∷ all) slots slots' n count enc h =
        let (mid, first, others) = write_blocks_cons b bs shards slots slots' enc.0.0 h in
        let (met, kept) = mw_write_lem quorum slots mid shards (enc.0.1 ∙ sym count) first in
        let (rest, met') =
          write_blocks-Stored bs all mid slots' n (length-Stored kept ∙ count) enc.1 others in
        (Stored-trans kept rest, λ pos. last_quorum bs mid slots' met others met')
    write_blocks-Stored [] (shards ∷ all) slots slots' n count enc h = elim enc [ ]
    write_blocks-Stored (b ∷ bs) [] slots slots' n count enc h = elim enc [ ]

    -- If a write that reports the full length has appended its bytes, the buffer has a byte, the
    -- context is not cancelled, and EncodeData gives a shard for each writer: if Encode then
    -- returns no error, it returns the length of the object, every writer without an error holds
    -- its complete column of shards behind what it held before, and at least a write quorum of the
    -- writers are so.
    pub encode_durable :
        (ctx_err : ℕ → Option Error) (size : ℕ) (d : Bytes) (all : List (List Bytes))
        (slots slots' : List (Slot W)) {total : ℕ}
        → ((i : ℕ) → ctx_err i ≡ none)
        → 0 < size
        → All₂ (Encodes (length slots)) (object_blocks size d) all
        → encode write quorum e c ctx_err size (stream d) slots ≡ (ok total, slots')
        → (total ≡ length d)
          × Stored slots (columns (length slots) all) slots'
          × (quorum ≤ healthy slots')
    encode_durable ctx_err size d all slots slots' {total} alive pos enc h =
        let (written, same) =
          encode_result_ok (length d) total slots'
            (write_blocks write quorum e c slots (object_blocks size d))
            (sym (encode_lem write quorum e c ctx_err alive size pos d slots) ∙ h) in
        let (kept, met) =
          write_blocks-Stored (object_blocks size d) all slots slots' (length slots) refl enc
            written in
        (same, kept, met (object_blocks_pos size d))
