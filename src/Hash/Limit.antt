-- ===== src/Hash/Limit.antt =====
-- io.LimitReader in front of a source that delivers its content.

use mini_minio.Prelude.{
  ℕ, zero, suc, ◌-◌, ◌≤◌, ◌<◌, min, ◌≡◌, refl, ap, ◌∙◌, ◌⊎◌, inl, inr, false, Option, none, some,
  [], ◌∷◌, ◌++◌, length, take, length-take, ◌==◌, arith,
}
use mini_minio.Prelude.Errors.{Error, eof}
use mini_minio.Erasure.Reader.{Bytes}
use mini_minio.Hash.{Limited, limit_read}

-- The bytes of a stream within a limit.
abbrev pub within : Option ℕ → Bytes → Bytes
within none b = b
within (some n) b = take n b

-- What a read does that leaves `rest'` of `rest`: it delivers the bytes between them, at most `room`
-- of them, and either there is one and no error, or none is left and the error is io.EOF.
pub record IsRead (room : ℕ) (rest p : Bytes) (failure : Option Error) (rest' : Bytes)
    : Type 0 where
  pub fits : length p ≤ room
  pub delivers : rest ≡ p ++ rest'
  pub ends : ((failure ≡ none) × (0 < length p)) ⊎ ((failure ≡ some eof) × (rest' ≡ []))

-- A source that delivers its content, however it cuts it: `content` is what is left.
abbrev pub IsStream : {S : Type 0} → (S → ℕ → Bytes × Option Error × S) → (S → Bytes) → Type 0
IsStream {S} read_src content =
    (s : S) (room : ℕ)
    → 0 < room
    → IsRead room (content s) (read_src s room).0 (read_src s room).1 (content (read_src s room).2)

take_empty : (n : ℕ) → take {A = ℕ} n [] ≡ []
take_empty zero = refl
take_empty (suc n) = refl

take_over : (n : ℕ) (p b : Bytes) → length p ≤ n → take n (p ++ b) ≡ p ++ take (n - length p) b
take_over n [] b h = ap (λ k. take k b) (omega arith)
take_over zero (x ∷ p) b h = absurd (omega arith)
take_over (suc n) (x ∷ p) b h =
    ap (λ l. x ∷ l)
      (take_over n p b (omega arith)
        ∙ ap (λ k. p ++ take k b) {x = n - length p} {y = suc n - length (x ∷ p)} (omega arith))

-- A read of at most the limit stays a read within it.
within-IsRead :
    (n room : ℕ) (rest p : Bytes) (failure : Option Error) (rest' : Bytes)
    → IsRead (min room n) rest p failure rest'
    → IsRead room (take n rest) p failure (take (n - length p) rest')
within-IsRead n room rest p failure rest' r = record {
  fits = omega (arith, r.fits);
  delivers = ap (take n) r.delivers ∙ take_over n p rest' (omega (arith, r.fits));
  ends = elim r.ends [
    | inl h ↦ inl h
    | inr (e, empty) ↦ inr (e, ap (take (n - length p)) empty ∙ take_empty (n - length p))
  ];
}

pub within_short :
    (o : Option ℕ) (b : Bytes) (fuel : ℕ) → length b < fuel → length (within o b) < fuel
within_short none b fuel h = h
within_short (some n) b fuel h = omega (arith, h, length-take n b)

module _ {S : Type 0} (read_src : S → ℕ → Bytes × Option Error × S) (content : S → Bytes)
    (stream : IsStream read_src content) where
  -- What the limited reader has left.
  abbrev pub view : Limited S → Bytes
  view l = within l.left (content l.src)

  -- A limited stream is a stream.
  pub limit_read-IsStream : IsStream (limit_read read_src) view
  unfolding limit_read
  limit_read-IsStream l room some_room = by_limit l.left refl
    where
      by_limit :
          (o : Option ℕ)
          → l.left ≡ o
          → let (p, failure, l') = limit_read read_src l room in
            IsRead room (within o (content l.src)) p failure (view l')
      by_limit none e = rw (e, limit_read) (stream l.src room some_room)
      by_limit (some zero) e =
          rw (e, limit_read)
            (rw e (record { fits = omega arith; delivers = refl; ends = inr (refl, refl) }))
      by_limit (some (suc n)) e =
          let some_left : (suc n == 0) ≡ false = ground arith in
          rw (e, limit_read, some_left)
            (within-IsRead (suc n) room (content l.src) _ _ _
              (stream l.src (min room (suc n)) (omega (arith, some_room))))
