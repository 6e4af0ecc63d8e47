-- ===== src/Hash/Whole.antt =====
-- A stream that is read through a hash.Reader to its end.
use mathlib.Core.List.{append_assoc, append-nil}
use mini_minio.Prelude.{
  ℕ, zero, suc, ◌+◌, ◌<◌, ◌≡◌, refl, sym, subst, ap, ap₂, ◌∙◌, inl, inr, true, not, ◌&&◌, Option,
  none, some, [], ◌∷◌, ◌++◌, length, length-append, ltb, ◌==◌, if◌then◌else◌, Option-cases, arith,
}
use mini_minio.Prelude.Int.{ℤ, pos, negsuc}
use mini_minio.Prelude.Text.{Text, text_eq}
use mini_minio.Prelude.Errors.{Error, ok, eof, size_mismatch, bad_digest}
use mini_minio.Erasure.Reader.{Bytes}
use mini_minio.Hash.Limit.{IsStream, within, within_short, view, limit_read-IsStream}
use mini_minio.Hash.{
  Limited, HashReader, limit_of, limit_read, new_reader, read, read_all, check_end, md5_of,
  decode_hex, print_hex,
}

-- How a whole stream ends: with the wrong size, with the wrong sum, or well.
abbrev pub verdict : (md5 : Bytes → Bytes) (size : ℤ) (sum all : Bytes) → Error
verdict md5 (negsuc n) sum all =
    if ltb 0 (length sum) && not (text_eq sum (md5 all)) then bad_digest else eof
verdict md5 (pos n) sum all =
    if not (length all == n)
    then size_mismatch n (length all)
    else if ltb 0 (length sum) && not (text_eq sum (md5 all))
    then bad_digest
    else eof

-- The reader after the bytes `done`.
abbrev pub after : {S : Type 0} → (size : ℤ) (sum : Bytes) → Limited S → Bytes → HashReader S
after size sum l done = record {
  src = l;
  bytes_read = length done;
  size = size;
  checksum = sum;
  hashed = done;
}

module _ {S : Type 0} (read_src : S → ℕ → Bytes × Option Error × S) (content : S → Bytes)
    (stream : IsStream read_src content) where
  module _ (md5 : Bytes → Bytes) (size : ℤ) (sum : Bytes) where
    -- Neither the count nor the hash forgets a byte.
    next_state :
        (l : Limited S) (done p : Bytes)
        → record (after size sum l done) {
          bytes_read = length done + length p;
          hashed = if ltb 0 (length p) then done ++ p else done;
        }
          ≡ after size sum l (done ++ p)
    next_state l done [] =
        ap₂ (λ n h. record (after size sum l done) { bytes_read = n; hashed = h })
          (omega arith ∙ sym (length-append done [])) (sym (append-nil done))
    next_state l done (x ∷ p) =
        let some_byte : ltb 0 (length (x ∷ p)) ≡ true = ground arith in
        rw some_byte (
          ap (λ n. record (after size sum l done) { bytes_read = n; hashed = done ++ x ∷ p })
            (sym (length-append done (x ∷ p))))

    check_end-after :
        (l : Limited S) (done : Bytes)
        → check_end md5 (after size sum l done) ≡ verdict md5 size sum done
    unfolding check_end
    check_end-after l done = by_size size refl
      where
        by_size : (z : ℤ) → size ≡ z → check_end md5 (after z sum l done) ≡ verdict md5 z sum done
        by_size (pos n) e = refl
        by_size (negsuc n) e = refl

    module _ (l : Limited S) (room : ℕ) (done : Bytes) where
      abbrev answer : Bytes × Option Error × Limited S
      answer = limit_read read_src l room

      read_more :
          answer.1 ≡ none
          → read read_src md5 (after size sum l done) room
            ≡ (answer.0, none, after size sum answer.2 (done ++ answer.0))
      unfolding read
      read_more h = rw (h, read) (ap (λ r. (answer.0, none, r)) (next_state answer.2 done answer.0))

      read_last :
          answer.1 ≡ some eof
          → read read_src md5 (after size sum l done) room ≡ (
            answer.0,
            some (verdict md5 size sum (done ++ answer.0)),
            after size sum answer.2 (done ++ answer.0),
          )
      unfolding read
      read_last h =
          rw (h, read)
            (ap (λ r. (answer.0, some (check_end md5 r), r)) (next_state answer.2 done answer.0)
              ∙ ap (λ x. (answer.0, some x, after size sum answer.2 (done ++ answer.0)))
                  (check_end-after answer.2 (done ++ answer.0)))

    -- What a read of the rest comes to: the bytes, the error and the bytes that were hashed.
    abbrev IsWhole : (done rest : Bytes) → Bytes × Option Error × HashReader S → Type 0
    IsWhole done rest (b, end, r) =
        (b ≡ rest) × (end ≡ some (verdict md5 size sum (done ++ rest))) × (r.hashed ≡ done ++ rest)

    read_all-from :
        (caps : ℕ → ℕ) (caps_pos : (i : ℕ) → 0 < caps i) (fuel i : ℕ) (l : Limited S) (done : Bytes)
        → length (view read_src content stream l) < fuel
        → IsWhole done
            (view read_src content stream l)
            (read_all read_src md5 caps fuel i (after size sum l done))
    unfolding read_all
    read_all-from caps caps_pos zero i l done enough = absurd (omega arith)
    read_all-from caps caps_pos (suc fuel) i l done enough =
        let (p, failure, l') = limit_read read_src l (caps i) in
        let one = limit_read-IsStream read_src content stream l (caps i) (caps_pos i) in
        elim one.ends [
          | inr (e, empty) ↦
              let h = read_last l (caps i) done e in
              let whole : p ≡ view read_src content stream l =
                sym (append-nil p) ∙ ap (λ t. p ++ t) (sym empty) ∙ sym one.delivers in
              rw (ap (λ t. t.1) h, read_all, ap (λ t. t.0) h, ap (λ t. t.2) h)
                (
                  whole,
                  ap (λ t. some (verdict md5 size sum (done ++ t))) whole,
                  ap (λ t. done ++ t) whole,
                )
          | inl (e, some_byte) ↦
              let h = read_more l (caps i) done e in
              let count =
                ap length one.delivers ∙ length-append p (view read_src content stream l') in
              let (bytes, end, sums) =
                read_all-from caps caps_pos fuel (i + 1) l' (done ++ p)
                  (omega (arith, enough, some_byte, count)) in
              let same : (done ++ p) ++ view read_src content stream l'
                  ≡ done ++ view read_src content stream l =
                append_assoc done p (view read_src content stream l')
                ∙ ap (λ t. done ++ t) (sym one.delivers) in
              rw (ap (λ t. t.1) h, read_all, ap (λ t. t.0) h, ap (λ t. t.2) h)
                (
                  ap (λ t. p ++ t) bytes ∙ sym one.delivers,
                  end ∙ ap (λ t. some (verdict md5 size sum t)) same,
                  sums ∙ same,
                )
        ]

-- A hash.Reader from NewReader, over a source that delivers its content however it cuts it, is
-- read until its first error, with buffers of at least a byte and in more rounds than the content
-- has bytes: it delivers the first bytes of the content up to the size where that is not negative,
-- and else all of it; it ends with the error that these bytes ask for (the wrong size where they
-- are fewer, else the wrong MD5 sum where one was given, else io.EOF); and MD5 is the sum of them.
pub read_all_lem :
    {S : Type 0} (read_src : S → ℕ → Bytes × Option Error × S) (content : S → Bytes)
    (stream : IsStream read_src content) (md5 : Bytes → Bytes) (size : ℤ) (md5_hex : Text)
    (caps : ℕ → ℕ) (fuel : ℕ) (s : S) (r : HashReader S)
    → ((i : ℕ) → 0 < caps i)
    → length (content s) < fuel
    → new_reader s size md5_hex ≡ ok r
    → let all = within (limit_of size) (content s) in
      let (b, end, r') = read_all read_src md5 caps fuel 0 r in
      (b ≡ all)
      × (end ≡ some (verdict md5 size r.checksum all))
      × (md5_of md5 r' ≡ print_hex (md5 all))
unfolding new_reader md5_of
read_all_lem read_src content stream md5 size md5_hex caps fuel s r caps_pos enough h =
    elim (Option-cases (decode_hex md5_hex)) [
      | inl n ↦ absurd (ground (arith, h, n))
      | inr (sum, n) ↦
          let l : Limited _ = record { src = s; left = limit_of size } in
          let start : after size sum l [] ≡ r = ground (arith, h, n) in
          let all = within (limit_of size) (content s) in
          let (bytes, end, sums) =
            read_all-from read_src content stream md5 size sum caps caps_pos fuel 0 l []
              (within_short (limit_of size) (content s) fuel enough) in
          subst
            (λ q.
              ((read_all read_src md5 caps fuel 0 q).0 ≡ all)
              × ((read_all read_src md5 caps fuel 0 q).1 ≡ some (verdict md5 size q.checksum all))
              × (md5_of md5 (read_all read_src md5 caps fuel 0 q).2 ≡ print_hex (md5 all)))
            start (bytes, end, ap (λ t. print_hex (md5 t)) sums)
    ]
