-- ===== src/Erasure/Reader/Filling.antt =====
-- Successful reads fill their buffers: what a goroutine has found and what it has stored.
use mini_minio.Prelude.{
  ℕ, ◌<◌, ◌≡◌, refl, Bool, true, false, Option, none, some, [], ◌∷◌, length, arith,
}
use mini_minio.Prelude.Errors.{Result, ok, err}
use mini_minio.Erasure.Reader.{
  Bytes, ReaderAt, Outcome, got, nil_reader, failed, read_shard, Pc, idle, reading, sending,
  finished, is_active, is_stored, non_empty,
}

-- What a goroutine has found, if it has read.
abbrev pub Found : Outcome → Pc → Type 0
Found o idle = Unit {0}
Found o reading = Unit {0}
Found o (sending o') = o' ≡ o
Found o (finished o') = o' ≡ o

abbrev pub is_idle : Pc → Bool
is_idle idle = true
is_idle _ = false

-- `io.ReaderAt`: a read with a nil error has filled the buffer.
abbrev pub Fills : Option ReaderAt → Type 0
Fills none = Unit {0}
Fills (some r) = (offset size : ℕ) (b : Bytes) → r offset size ≡ ok b → length b ≡ size

-- A successful read has put something into the buffer.
abbrev pub IsFull : Outcome → Type 0
IsFull (got b) = non_empty b ≡ true
IsFull _ = Unit {0}

non_empty_of_length : (b : Bytes) → 0 < length b → non_empty b ≡ true
non_empty_of_length [] h = absurd (omega arith)
non_empty_of_length (x ∷ b) h = refl

Result-IsFull :
    (size : ℕ) (r : Result Bytes)
    → 0 < size
    → ((b : Bytes) → r ≡ ok b → length b ≡ size)
    → IsFull (elim r [ ok b ↦ got b | err e ↦ failed e ])
Result-IsFull size (ok b) pos h = non_empty_of_length b (omega (arith, h b refl))
Result-IsFull size (err e) pos h = tt

pub Fills-IsFull :
    (r : Option ReaderAt) (offset size : ℕ) → 0 < size → Fills r → IsFull (read_shard r offset size)
unfolding read_shard
Fills-IsFull none offset size pos h = tt
Fills-IsFull (some r) offset size pos h = Result-IsFull size (r offset size) pos (h offset size)

-- A reader that gives its shard.
abbrev pub is_got : Outcome → Bool
is_got (got b) = true
is_got _ = false

-- What a goroutine has stored comes from a good read.
pub is_stored→is_got : (p : Pc) (o : Outcome) → Found o p → is_stored p ≡ true → is_got o ≡ true
is_stored→is_got idle o f h = cc
is_stored→is_got reading o f h = cc
is_stored→is_got (sending (got b)) o f h = ground arith
is_stored→is_got (sending nil_reader) o f h = cc
is_stored→is_got (sending (failed e)) o f h = cc
is_stored→is_got (finished (got b)) o f h = ground arith
is_stored→is_got (finished nil_reader) o f h = cc
is_stored→is_got (finished (failed e)) o f h = cc

pub is_got→is_stored :
    (p : Pc) (o : Outcome)
    → Found o p
    → IsFull o
    → is_idle p ≡ false
    → is_active p ≡ false
    → is_got o ≡ true
    → is_stored p ≡ true
is_got→is_stored idle o f full i a h = cc
is_got→is_stored reading o f full i a h = cc
is_got→is_stored (sending o') o f full i a h = cc
is_got→is_stored (finished (got b)) o f full i a h = ground arith
is_got→is_stored (finished nil_reader) o f full i a h = ground arith
is_got→is_stored (finished (failed e)) o f full i a h = ground arith
