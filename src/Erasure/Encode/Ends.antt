-- ===== src/Erasure/Encode/Ends.antt =====
-- Encode that returns no error: what the reader and the context were.
use mini_minio.Prelude.{
  ℕ, zero, suc, ◌+◌, ◌≤◌, ◌<◌, ◌≡◌, refl, sym, dec_lt, ap, ◌∙◌, inl, inr, true, false, not, ◌&&◌,
  ◌==◌, Option, none, some, Option-cases, List, [], ◌∷◌, length, take, drop, arith, Bool-cases,
  length-take,
}
use mini_minio.Prelude.Errors.{Error, Result, ok, err}
use mini_minio.Erasure.{Geometry}
use mini_minio.Erasure.Reader.{Bytes}
use mini_minio.Erasure.Coder.{Coder}
use mini_minio.Erasure.Encode.{
  Source, Slot, is_eof, short_read, read_full, classify, at_eof, broken, encode_block, encode_round,
  encode_loop, encode,
}
use mini_minio.Erasure.Encode.Blocks.{stream, loop_full, loop_last}

-- The stream ends in io.EOF, or in the io.ErrUnexpectedEOF that Encode takes for it.
abbrev pub IsEnd : Option Error → Type 0
IsEnd none = Unit {0}
IsEnd (some x) = is_eof x ≡ true

classify-stream : (d : Bytes) → classify (some (short_read (stream d))) ≡ at_eof
classify-stream [] = refl
classify-stream (x ∷ d) = ground arith

module _ {W : Type 0} (write : W → Bytes → Result ℕ × W) (quorum : ℕ) (e : Geometry)
    (c : Coder) where
  -- What follows the block of a round.
  abbrev finish :
      (total : ℕ) (f : List (Slot W) → ℕ → Result ℕ × List (Slot W))
      → Option Error × List (Slot W)
      → Result ℕ × List (Slot W)
  finish total f (some x, slots) = (err x, slots)
  finish total f (none, slots) = f slots total

  round_finish :
      (slots : List (Slot W)) (total : ℕ) (buf : Bytes)
      (f : List (Slot W) → ℕ → Result ℕ × List (Slot W))
      → 0 < length buf
      → encode_round write quorum e c slots total buf f
        ≡ finish (total + length buf) f (encode_block write quorum e c slots buf)
  unfolding encode_round
  round_finish slots total buf f some_byte =
      let not_end : (length buf == 0 && not (total == 0)) ≡ false = ground arith in
      rw not_end (by_outcome (encode_block write quorum e c slots buf))
    where
      by_outcome :
          (o : Option Error × List (Slot W))
          → (let (failure, slots') = o in
              elim failure [ some x ↦ (err x, slots') | none ↦ f slots' (total + length buf) ])
            ≡ finish (total + length buf) f o
      by_outcome (none, slots') = refl
      by_outcome (some x, slots') = refl

  -- What succeeds does so with any continuation that agrees on success.
  finish_same :
      (P : Type 0) (total : ℕ) (f g : List (Slot W) → ℕ → Result ℕ × List (Slot W))
      (r : Result ℕ × List (Slot W)) {n : ℕ} (o : Option Error × List (Slot W))
      → r.0 ≡ ok n
      → ((slots' : List (Slot W)) → f slots' total ≡ r → P × (g slots' total ≡ r))
      → finish total f o ≡ r
      → P × (finish total g o ≡ r)
  finish_same P total f g r (none, slots') fine agree h = agree slots' h
  finish_same P total f g r (some x, slots') fine agree h =
      absurd (ground (arith, fine, ap (λ t. t.0) h))

  module _ (ctx_err : ℕ → Option Error) (size : ℕ) (some_room : 0 < size) where
    module _ (fuel i total : ℕ) (src : Source) (slots : List (Slot W))
        (alive : ctx_err i ≡ none) where
      any_full :
          size ≤ length src.rest
          → encode_loop write quorum e c ctx_err size (suc fuel) i src slots total
            ≡ encode_round write quorum e c slots total (take size src.rest) (λ slots' total'.
              encode_loop write quorum e c ctx_err size fuel
                (i + 1)
                (record src { rest = drop size src.rest })
                slots'
                total')
      unfolding encode_loop read_full
      any_full h = ground (arith, alive)

      read_short :
          length src.rest < size
          → read_full size src ≡ (src.rest, some (short_read src), record src { rest = [] })
      unfolding read_full
      read_short h = ground arith

      any_last :
          length src.rest < size
          → classify (some (short_read src)) ≡ at_eof
          → encode_loop write quorum e c ctx_err size (suc fuel) i src slots total
            ≡ encode_round write quorum e c slots total src.rest
                (λ slots' total'. (ok total', slots'))
      unfolding encode_loop
      any_last h ends =
          rw (alive, encode_loop, ap (λ t. t.1) (read_short h))
            (rw ends (rw (ap (λ t. t.0) (read_short h)) refl))

      any_broken :
          (x : Error)
          → length src.rest < size
          → classify (some (short_read src)) ≡ broken x
          → (encode_loop write quorum e c ctx_err size (suc fuel) i src slots total).0 ≡ err x
      unfolding encode_loop
      any_broken x h ends = rw (alive, encode_loop, read_short h) (rw ends refl)

    cancelled :
        (fuel i total : ℕ) (src : Source) (slots : List (Slot W)) (x : Error)
        → ctx_err i ≡ some x
        → (encode_loop write quorum e c ctx_err size (suc fuel) i src slots total).0 ≡ err x
    unfolding encode_loop
    cancelled fuel i total src slots x h = rw (h, encode_loop) refl

    -- The last read of a stream that ends in an error that is not its end.
    last_read :
        (fuel i total : ℕ) (src : Source) (slots : List (Slot W)) {n : ℕ}
        → ctx_err i ≡ none
        → length src.rest < size
        → (encode_loop write quorum e c ctx_err size (suc fuel) i src slots total).0 ≡ ok n
        → IsEnd src.fail × (classify (some (short_read src)) ≡ at_eof)
    last_read fuel i total src slots alive short h = by_fail src.fail refl
      where
        by_fail :
            (o : Option Error)
            → src.fail ≡ o
            → IsEnd o × (classify (some (short_read src)) ≡ at_eof)
        by_fail none eo = (tt, rw eo (classify-stream src.rest))
        by_fail (some x) eo = elim (Bool-cases (is_eof x)) [
          | inl t ↦ (t, rw eo (rw t refl))
          | inr f ↦
              let ends : classify (some (short_read src)) ≡ broken x = rw eo (rw f refl) in
              absurd (ground (arith, h, any_broken fuel i total src slots alive x short ends))
        ]

    loop_same :
        (fuel i : ℕ) (src : Source) (slots : List (Slot W)) (total : ℕ)
        (r : Result ℕ × List (Slot W)) {n : ℕ}
        → r.0 ≡ ok n
        → encode_loop write quorum e c ctx_err size fuel i src slots total ≡ r
        → IsEnd src.fail
          × (encode_loop write quorum e c (λ i. none) size fuel i (stream src.rest) slots total ≡ r)
    loop_same zero i src slots total r fine h =
        absurd (unfold encode_loop in ground (arith, fine, ap (λ t. t.0) h))
    loop_same (suc fuel) i src slots total r fine h = elim (Option-cases (ctx_err i)) [
      | inr (x, e) ↦
          absurd (ground (arith, fine, ap (λ t. t.0) h, cancelled fuel i total src slots x e))
      | inl alive ↦ elim (dec_lt (length src.rest) size) [
        | yes short ↦
            let (ending, ends) =
              last_read fuel i total src slots alive short (ap (λ t. t.0) h ∙ fine) in
            (
              ending,
              loop_last write quorum e c (λ i. none) (λ i. refl) size some_room fuel i total slots
                    src.rest short
                  ∙ sym (any_last fuel i total src slots alive short ends)
                  ∙ h,
            )
        | no full ↦
            let go_on : List (Slot W) → ℕ → Result ℕ × List (Slot W) = λ slots' total'.
              encode_loop write quorum e c ctx_err size fuel (i + 1)
                (record src { rest = drop size src.rest }) slots' total' in
            let go_on' : List (Slot W) → ℕ → Result ℕ × List (Slot W) = λ slots' total'.
              encode_loop write quorum e c (λ i. none) size fuel (i + 1)
                (stream (drop size src.rest)) slots' total' in
            let buf = take size src.rest in
            let some_byte : 0 < length buf = ground (arith, length-take size src.rest) in
            let round = round_finish slots total buf go_on some_byte in
            let (ending, same) =
              finish_same (IsEnd src.fail) (total + length buf) go_on go_on' r
                (encode_block write quorum e c slots buf) fine
                (λ slots' h'.
                  loop_same fuel (i + 1) (record src { rest = drop size src.rest }) slots'
                    (total + length buf) r fine h')
                (sym round ∙ sym (any_full fuel i total src slots alive (omega arith)) ∙ h) in
            (
              ending,
              loop_full write quorum e c (λ i. none) (λ i. refl) size some_room fuel i total slots
                    src.rest (omega arith)
                  ∙ round_finish slots total buf go_on' some_byte
                  ∙ same,
            )
      ]
    ]

    -- Encode that returns no error has read the stream to its end, and has done what it does for a
    -- finite stream whose context is not cancelled.
    pub encode_same :
        (src : Source) (slots slots' : List (Slot W)) {n : ℕ}
        → encode write quorum e c ctx_err size src slots ≡ (ok n, slots')
        → IsEnd src.fail
          × (encode write quorum e c (λ i. none) size (stream src.rest) slots ≡ (ok n, slots'))
    unfolding encode
    encode_same src slots slots' h = loop_same (suc (length src.rest)) 0 src slots 0 _ refl h
