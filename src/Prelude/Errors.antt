-- ===== src/Prelude/Errors.antt =====
-- Go's `error` values and the two-valued results `(T, error)`. The sentinels are those of
-- cmd/errors.go, internal/erasure/errors.go, internal/storage/disk.go and internal/hash/reader.go;
-- `other n` stands for any other error value (an operating-system error, a wrapped message), told
-- apart by the number `n`, and `joined` is what `errors.Join` makes of two. A run-time panic of the
-- source is the error `panic`; `out_of_fuel` is no value of the source: it marks a loop of the model
-- that was given too few rounds.
use Prim.Native.Nat.{ℕ}
use mathlib.Core.Path.{◌≡◌, refl}
use mathlib.Core.Logic.{◌⊎◌, inl, inr}
use mathlib.Core.Bool.{Bool, true, false, ◌||◌}
use mathlib.Core.Option.{Option, none, some}

pub data Error : Type 0 where
  write_quorum not_found bucket_exists bucket_not_found object_not_found : Error
  short_write short_data eof unexpected_eof canceled panic : Error
  size_mismatch : (want got : ℕ) → Error
  bad_digest invalid_range meta_quorum rename_quorum : Error
  quorum_not_met delete_failed invalid_part duplicate_part no_parts : Error
  invalid_upload upload_not_found write_after_close part_empty part_missing : Error
  out_of_fuel : Error
  other : ℕ → Error
  joined : Error → Error → Error

pub data Result {ℓ} (A : Type ℓ) : Type ℓ where
  ok : A → Result A
  err : Error → Result A

pub Result-cases {ℓ} :
    {A : Type ℓ} (r : Result A) → ((x : Error) × (r ≡ err x)) ⊎ ((a : A) × (r ≡ ok a))
Result-cases (err x) = inl (x, refl)
Result-cases (ok a) = inr (a, refl)

-- The rest of a function after a check of the error.
infixl 5 ◌>>=◌
abbrev pub ◌>>=◌ {ℓ κ} : {A : Type ℓ} {B : Type κ} → Result A → (A → Result B) → Result B
err failure >>= go_on = err failure
ok value >>= go_on = go_on value

-- `err == nil` for an error that may be absent.
abbrev pub is_nil : Option Error → Bool
is_nil none = true
is_nil (some e) = false

-- The value, unless there is an error.
abbrev pub unless {ℓ} : {A : Type ℓ} → Option Error → A → Result A
unless none value = ok value
unless (some failure) value = err failure

abbrev pub error_of {ℓ} : {A : Type ℓ} → Result A → Option Error
error_of (ok a) = none
error_of (err e) = some e

-- `errors.Is(err, storage.ErrNotFound)` and its like.
abbrev pub is_not_found : Error → Bool
is_not_found not_found = true
is_not_found (joined a b) = is_not_found a || is_not_found b
is_not_found _ = false

abbrev pub is_bucket_exists : Error → Bool
is_bucket_exists bucket_exists = true
is_bucket_exists (joined a b) = is_bucket_exists a || is_bucket_exists b
is_bucket_exists _ = false

-- `errors.Is(err, io.EOF)`.
abbrev pub is_io_eof : Error → Bool
is_io_eof eof = true
is_io_eof (joined a b) = is_io_eof a || is_io_eof b
is_io_eof _ = false

-- `errors.Join` of two errors.
abbrev pub join : Option Error → Option Error → Option Error
join none b = b
join (some a) none = some a
join (some a) (some b) = some (joined a b)
