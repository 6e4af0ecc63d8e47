-- ===== src/Prelude/Slices.antt =====
-- Slices `xs[lo:hi]` of a list, and how they nest and join.

use mini_minio.Prelude.Lists.{length, take, drop, length-take, length-drop}
use Prim.Native.Nat.{ℕ, zero, suc, ◌+◌, ◌-◌, ◌≤◌, ◌<◌, min, max}
use mathlib.Core.Path.{◌≡◌, refl, ap, ap₂, sym, ◌∙◌}
use mathlib.Core.List.{List, [], ◌∷◌, ◌++◌, append-nil}
use mathlib.Core.Logic.{inl, inr}
use native.Mathlib.Decide.{dec_lt}
use mini_minio.Prelude.Tests.{leb, leb→le, if◌then◌else◌, Bool-cases}
use native.Mathlib.Omega.{arith}

module _ {ℓ} {A : Type ℓ} where
  abbrev pub slice : ℕ → ℕ → List A → List A
  slice lo hi xs = take (hi - lo) (drop lo xs)

  pub drop-nil : (n : ℕ) → drop {A = A} n [] ≡ []
  drop-nil zero = refl
  drop-nil (suc n) = refl

  pub take-nil : (n : ℕ) → take {A = A} n [] ≡ []
  take-nil zero = refl
  take-nil (suc n) = refl

  pub drop-drop : (m n : ℕ) (xs : List A) → drop m (drop n xs) ≡ drop (n + m) xs
  drop-drop m zero xs = ap (λ k. drop k xs) (omega arith)
  drop-drop m (suc n) [] = ground (arith, drop-nil m, drop-nil (suc n + m))
  drop-drop m (suc n) (x ∷ xs) =
      drop-drop m n xs ∙ ap (λ k. drop k (x ∷ xs)) {x = suc (n + m)} {y = suc n + m} (omega arith)

  pub take-take : (m n : ℕ) (xs : List A) → m ≤ n → take m (take n xs) ≡ take m xs
  take-take zero n xs h = refl
  take-take (suc m) zero xs h = absurd (omega arith)
  take-take (suc m) (suc n) [] h = refl
  take-take (suc m) (suc n) (x ∷ xs) h = ap (λ l. x ∷ l) (take-take m n xs (omega arith))

  pub drop-take : (m n : ℕ) (xs : List A) → drop m (take n xs) ≡ take (n - m) (drop m xs)
  drop-take zero n xs = ap (λ k. take k xs) (omega arith)
  drop-take (suc m) zero xs =
      ap (λ k. take k (drop (suc m) xs)) {x = 0} {y = 0 - suc m} (omega arith)
  drop-take (suc m) (suc n) [] = sym (take-nil (suc n - suc m))
  drop-take (suc m) (suc n) (x ∷ xs) =
      drop-take m n xs ∙ ap (λ k. take k (drop m xs)) {x = n - m} {y = suc n - suc m} (omega arith)

  pub take_all : (n : ℕ) (xs : List A) → length xs ≤ n → take n xs ≡ xs
  take_all zero [] h = refl
  take_all zero (x ∷ xs) h = absurd (omega arith)
  take_all (suc n) [] h = refl
  take_all (suc n) (x ∷ xs) h = ap (λ l. x ∷ l) (take_all n xs (omega arith))

  pub drop_all : (n : ℕ) (xs : List A) → length xs ≤ n → drop n xs ≡ []
  drop_all zero [] h = refl
  drop_all zero (x ∷ xs) h = absurd (omega arith)
  drop_all (suc n) [] h = refl
  drop_all (suc n) (x ∷ xs) h = drop_all n xs (omega arith)

  pub take-append-take : (m n : ℕ) (xs : List A) → take m xs ++ take n (drop m xs) ≡ take (m + n) xs
  take-append-take zero n xs = ap (λ k. take k xs) (omega arith)
  take-append-take (suc m) n [] = take-nil n ∙ sym (take-nil (suc m + n))
  take-append-take (suc m) n (x ∷ xs) =
      ap (λ l. x ∷ l) (take-append-take m n xs)
      ∙ ap (λ k. take k (x ∷ xs)) {x = suc (m + n)} {y = suc m + n} (omega arith)

  pub take-append : (n : ℕ) (xs ys : List A) → n ≤ length xs → take n (xs ++ ys) ≡ take n xs
  take-append zero xs ys h = refl
  take-append (suc n) [] ys h = absurd (omega arith)
  take-append (suc n) (x ∷ xs) ys h = ap (λ l. x ∷ l) (take-append n xs ys (omega arith))

  pub take-append_all : (xs ys : List A) → take (length xs) (xs ++ ys) ≡ xs
  take-append_all [] ys = refl
  take-append_all (x ∷ xs) ys = ap (λ l. x ∷ l) (take-append_all xs ys)

  pub drop-append_all : (xs ys : List A) → drop (length xs) (xs ++ ys) ≡ ys
  drop-append_all [] ys = refl
  drop-append_all (x ∷ xs) ys = drop-append_all xs ys

  pub drop-append : (n : ℕ) (xs ys : List A) → n ≤ length xs → drop n (xs ++ ys) ≡ drop n xs ++ ys
  drop-append zero xs ys h = refl
  drop-append (suc n) [] ys h = absurd (omega arith)
  drop-append (suc n) (x ∷ xs) ys h = drop-append n xs ys (omega arith)

  -- A slice of a slice is a slice.
  pub slice-slice :
      (a b lo hi : ℕ) (xs : List A)
      → lo + b ≤ hi
      → slice a b (slice lo hi xs) ≡ slice (lo + a) (lo + b) xs
  slice-slice a b lo hi xs h =
      ap (take (b - a)) (drop-take a (hi - lo) (drop lo xs))
      ∙ take-take (b - a) (hi - lo - a) (drop a (drop lo xs)) (omega arith)
      ∙ ap (take (b - a)) (drop-drop a lo xs)
      ∙ ap (λ k. take k (drop (lo + a) xs)) {x = b - a} {y = lo + b - (lo + a)} (omega arith)

  -- Adjacent slices join.
  pub slice-append_slice :
      (lo mid hi : ℕ) (xs : List A)
      → lo ≤ mid
      → mid ≤ hi
      → slice lo mid xs ++ slice mid hi xs ≡ slice lo hi xs
  slice-append_slice lo mid hi xs p q =
      ap (λ l. take (mid - lo) (drop lo xs) ++ take (hi - mid) l) {x = drop mid xs}
        {y = drop (mid - lo) (drop lo xs)}
        (ap (λ k. drop k xs) {x = mid} {y = lo + (mid - lo)} (omega arith)
          ∙ sym (drop-drop (mid - lo) lo xs))
      ∙ take-append-take (mid - lo) (hi - mid) (drop lo xs)
      ∙ ap (λ k. take k (drop lo xs)) {x = mid - lo + (hi - mid)} {y = hi - lo} (omega arith)

  pub slice_empty : (lo hi : ℕ) (xs : List A) → hi ≤ lo → slice lo hi xs ≡ []
  slice_empty lo hi xs h = ap (λ k. take k (drop lo xs)) {x = hi - lo} {y = 0} (omega arith)

  pub length-slice : (lo hi : ℕ) (xs : List A) → hi ≤ length xs → length (slice lo hi xs) ≡ hi - lo
  length-slice lo hi xs h = length-take (hi - lo) (drop lo xs) ∙ omega (arith, length-drop lo xs)

  -- A loop that takes the part of a window `[ds, de)` that lies in `[p, q)`, and then the part in
  -- `[q, e)`, takes the part in `[p, e)`.
  pub window_step :
      (ds de p q e : ℕ) (xs : List A)
      → p ≤ q
      → q ≤ e
      → (if leb (min de q) (max ds p)
          then slice (max ds q) (min de e) xs
          else slice (max ds p) (min de q) xs ++ slice (max ds q) (min de e) xs)
        ≡ slice (max ds p) (min de e) xs
  window_step ds de p q e xs pq qe = elim (Bool-cases (leb (min de q) (max ds p))) [
    | inl e' ↦ rw e' (passed (leb→le (min de q) (max ds p) e'))
    | inr e' ↦ rw e' (taken (ground arith))
  ]
    where
      passed : min de q ≤ max ds p → slice (max ds q) (min de e) xs ≡ slice (max ds p) (min de e) xs
      passed h = elim (dec_lt (max ds p) (min de e)) [
        | no empty ↦
            slice_empty (max ds q) (min de e) xs (omega arith)
            ∙ sym (slice_empty (max ds p) (min de e) xs (omega arith))
        | yes part ↦ ap (λ k. slice k (min de e) xs) {x = max ds q} {y = max ds p} (omega arith)
      ]

      taken :
          max ds p < min de q
          → slice (max ds p) (min de q) xs ++ slice (max ds q) (min de e) xs
            ≡ slice (max ds p) (min de e) xs
      taken h = elim (dec_lt q de) [
        | yes beyond ↦
            ap₂ (λ k l. slice (max ds p) k xs ++ slice l (min de e) xs) {x = min de q} {y = q}
              {u = max ds q} {v = q} (omega arith) (omega arith)
            ∙ slice-append_slice (max ds p) q (min de e) xs (omega arith) (omega arith)
        | no within ↦
            ap₂ (λ k l. slice (max ds p) k xs ++ l) {x = min de q} {y = min de e} (omega arith)
              (slice_empty (max ds q) (min de e) xs (omega arith))
            ∙ append-nil (slice (max ds p) (min de e) xs)
      ]

  pub window-append :
      (ds de p q e : ℕ) (xs : List A)
      → p ≤ q
      → q ≤ e
      → slice (max ds p) (min de q) xs ++ slice (max ds q) (min de e) xs
        ≡ slice (max ds p) (min de e) xs
  window-append ds de p q e xs pq qe = elim (Bool-cases (leb (min de q) (max ds p))) [
    | inl e' ↦
        ap (λ l. l ++ slice (max ds q) (min de e) xs)
          (slice_empty (max ds p) (min de q) xs (leb→le (min de q) (max ds p) e'))
        ∙ (rw e' at (window_step ds de p q e xs pq qe))
    | inr e' ↦ rw e' at (window_step ds de p q e xs pq qe)
  ]

  -- A slice that ends in the first list is a slice of it.
  pub slice-append :
      (lo hi : ℕ) (xs ys : List A) → hi ≤ length xs → slice lo hi (xs ++ ys) ≡ slice lo hi xs
  slice-append lo hi xs ys h = elim (dec_lt (length xs) lo) [
    | yes beyond ↦
        slice_empty lo hi (xs ++ ys) (omega arith) ∙ sym (slice_empty lo hi xs (omega arith))
    | no within ↦
        ap (take (hi - lo)) (drop-append lo xs ys (omega arith))
        ∙ take-append (hi - lo) (drop lo xs) ys (omega (arith, length-drop lo xs))
  ]
