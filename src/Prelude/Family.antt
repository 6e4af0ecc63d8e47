-- ===== src/Prelude/Family.antt =====
-- Finite families `ℕ → A`: a change at one index, and how many of the first `n` pass a test.
use Prim.Native.Nat.{ℕ, zero, suc, ◌+◌, ◌≤◌, ◌<◌}
use mathlib.Core.Path.{◌≡◌, refl}
use mathlib.Core.Bool.{Bool, true, false}
use mathlib.Core.Logic.{inl, inr}
use native.Mathlib.Decide.{dec_lt}
use native.Mathlib.Omega.{arith}
use mini_minio.Prelude.Tests.{◌==◌, if◌then◌else◌, Bool-cases}

abbrev pub put_at {ℓ} : {A : Type ℓ} → (ℕ → A) → ℕ → A → ℕ → A
put_at f i a j = if i == j then a else f j

abbrev pub one_if : Bool → ℕ
one_if true = 1
one_if false = 0

module _ {ℓ} {A : Type ℓ} (test : A → Bool) where
  -- how many of `f 0`, …, `f (n - 1)` pass the test
  unfoldable pub tally : ℕ → (ℕ → A) → ℕ
  tally zero f = 0
  tally (suc n) f = one_if (test (f n)) + tally n f

  tally-put_at_above :
      (n : ℕ) (f : ℕ → A) (i : ℕ) (a : A) → n ≤ i → tally n (put_at f i a) ≡ tally n f
  unfolding tally
  tally-put_at_above zero f i a h = refl
  tally-put_at_above (suc n) f i a h = ground (arith, tally-put_at_above n f i a)

  -- A change at `i` trades the old value's share for the new one's.
  pub tally-put_at :
      (n : ℕ) (f : ℕ → A) (i : ℕ) (a : A)
      → i < n
      → tally n (put_at f i a) + one_if (test (f i)) ≡ tally n f + one_if (test a)
  unfolding tally
  tally-put_at zero f i a h = absurd (omega arith)
  tally-put_at (suc n) f i a h = elim (dec_lt i n) [
    | yes below ↦ ground (arith, tally-put_at n f i a below)
    | no top ↦ ground (arith, tally-put_at_above n f i a)
  ]

  pub tally_zero : (n : ℕ) (f : ℕ → A) → ((i : ℕ) → test (f i) ≡ false) → tally n f ≡ 0
  unfolding tally
  tally_zero zero f h = refl
  tally_zero (suc n) f h = ground (arith, h n, tally_zero n f h)

  pub tally_pos : (n : ℕ) (f : ℕ → A) → 0 < tally n f → (i : ℕ) × (i < n) × (test (f i) ≡ true)
  unfolding tally
  tally_pos zero f h = absurd (omega arith)
  tally_pos (suc n) f h = elim (Bool-cases (test (f n))) [
    | inl e ↦ (n, omega arith, e)
    | inr e ↦ let (i, below, t) = tally_pos n f (ground arith) in (i, omega arith, t)
  ]

module _ {ℓ} {A : Type ℓ} (test : A → Bool) where
  pub tally_none : (n : ℕ) (f : ℕ → A) → tally test n f ≡ 0 → (i : ℕ) → i < n → test (f i) ≡ false
  unfolding tally
  tally_none zero f h i lt = absurd (omega arith)
  tally_none (suc n) f h i lt = elim (dec_lt i n) [
    | yes below ↦ tally_none n f (omega arith) i below
    | no top ↦ ground arith
  ]

-- If each that passes the first test passes the second, the second tally is no smaller.
pub tally_mono {ℓ κ} :
    {A : Type ℓ} {B : Type κ} (p : A → Bool) (q : B → Bool) (n : ℕ) (f : ℕ → A) (g : ℕ → B)
    → ((i : ℕ) → i < n → p (f i) ≡ true → q (g i) ≡ true)
    → tally p n f ≤ tally q n g
unfolding tally
tally_mono p q zero f g h = omega arith
tally_mono p q (suc n) f g h =
    ground (arith, h n (omega arith), tally_mono p q n f g (λ i lt. h i (omega arith)))
