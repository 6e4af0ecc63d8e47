-- ===== src/Erasure/Reader.antt =====
-- parallelReader.Read of internal/erasure/erasure.go: the loop over the trigger channel and the
-- goroutines that it starts, as interleaved atomic steps. A goroutine stores its shard under the
-- mutex and then sends its trigger, in two steps. `readerToBuf` is the identity, so goroutine `i`
-- fills buffer `i`, and `newBuf[i]` is what `buffered` says of goroutine `i`.
pub mod Filling
pub mod Counts
pub mod Inv
pub mod Final
pub mod Progress
mod Tests
use mini_minio.Prelude.{
  ℕ, zero, suc, ◌+◌, ◌-◌, ◌*◌, ◌≤◌, ◌<◌, ◌≡◌, Bool, true, false, Option, none, some, List, [], ◌∷◌,
  ◌++◌, length, get_elem?, not, leb, ltb, if◌then◌else◌,
}
use mini_minio.Prelude.Family.{put_at, tally}
use mini_minio.Prelude.Errors.{Error, Result, ok, err, write_quorum}

abbrev pub Bytes : Type 0
Bytes = List ℕ

-- `io.ReaderAt`: the read of `len(p)` bytes at an offset. With a nil error it fills `p`.
abbrev pub ReaderAt : Type 0
ReaderAt = ℕ → ℕ → Result Bytes

-- What one goroutine finds: its shard, a nil reader, or a failed read.
pub data Outcome : Type 0 where
  got : Bytes → Outcome
  nil_reader : Outcome
  failed : Error → Outcome

-- `r.ReadAt(p.buf[bufIdx], p.offset)` with a buffer of `size` bytes.
pub read_shard : Option ReaderAt → (offset size : ℕ) → Outcome
read_shard none offset size = nil_reader
read_shard (some r) offset size = elim (r offset size) [ ok b ↦ got b | err e ↦ failed e ]

-- The trigger that the goroutine sends: `false` after a success.
abbrev pub trigger_of : Outcome → Bool
trigger_of (got b) = false
trigger_of _ = true

-- Where the goroutine for one reader stands.
pub data Pc : Type 0 where
  idle : Pc
  reading : Pc
  sending : Outcome → Pc
  finished : Outcome → Pc

abbrev pub is_active : Pc → Bool
is_active reading = true
is_active (sending o) = true
is_active _ = false

-- `len(b) > 0`.
abbrev pub non_empty : Bytes → Bool
non_empty [] = false
non_empty (x ∷ b) = true

-- `newBuf[i]`.
abbrev pub buffered : Pc → Bytes
buffered (sending (got b)) = b
buffered (finished (got b)) = b
buffered _ = []

-- The loop runs, or it was left by one of its two `break`s and waits for the goroutines.
pub data Phase : Type 0 where
  looping waiting : Phase

pub record Reading : Type 0 where
  pub phase : Phase
  pub queue : List Bool  -- the contents of `readTriggerCh`, oldest first
  pub reader_index : ℕ
  pub pc : ℕ → Pc

-- Buffer `i` holds a shard: `len(newBuf[i]) > 0`.
abbrev pub is_stored : Pc → Bool
is_stored p = non_empty (buffered p)

-- `canDecode(newBuf)`, for `n` buffers.
pub can_decode : (n data_blocks : ℕ) → (ℕ → Pc) → Bool
can_decode n data_blocks pc = leb data_blocks (tally is_stored n pc)

abbrev pub seeds : ℕ → List Bool
seeds zero = []
seeds (suc k) = true ∷ seeds k

-- After `data_blocks` triggers have been seeded.
abbrev pub start : ℕ → Reading
start data_blocks = record {
  phase = looping;
  queue = seeds data_blocks;
  reader_index = 0;
  pc = λ i. idle;
}

-- `newBuf[i : i + k]`
abbrev pub listed : (ℕ → Pc) → ℕ → ℕ → List Bytes
listed pc i zero = []
listed pc i (suc k) = buffered (pc i) ∷ listed pc (i + 1) k

-- What `Read` returns after `wg.Wait()`.
pub read_result : (n data_blocks : ℕ) → Reading → Result (List Bytes)
read_result n data_blocks s =
    if can_decode n data_blocks s.pc then ok (listed s.pc 0 n) else err write_quorum

-- `wg.Wait()` returns: the loop is left and no goroutine runs.
pub record IsDone (n : ℕ) (s : Reading) : Type 0 where
  pub left : s.phase ≡ waiting
  pub quiet : tally is_active n s.pc ≡ 0

module _ (readers : ℕ → Option ReaderAt) (n data_blocks offset size : ℕ) where
  -- A send waits while the channel, of capacity `n`, is full.
  pub data Step (s : Reading) : Reading → Type 0 where
    stop_decode :
        {t : Bool} {q : List Bool}
        → s.phase ≡ looping
        → s.queue ≡ t ∷ q
        → can_decode n data_blocks s.pc ≡ true
        → Step s (record s { phase = waiting; queue = q })
    stop_exhausted :
        {t : Bool} {q : List Bool}
        → s.phase ≡ looping
        → s.queue ≡ t ∷ q
        → can_decode n data_blocks s.pc ≡ false
        → n ≤ s.reader_index
        → Step s (record s { phase = waiting; queue = q })
    skip :
        {q : List Bool}
        → s.phase ≡ looping
        → s.queue ≡ false ∷ q
        → can_decode n data_blocks s.pc ≡ false
        → s.reader_index < n
        → Step s (record s { queue = q })
    spawn :
        {q : List Bool}
        → s.phase ≡ looping
        → s.queue ≡ true ∷ q
        → can_decode n data_blocks s.pc ≡ false
        → s.reader_index < n
        → Step s (record s {
          queue = q;
          reader_index = s.reader_index + 1;
          pc = put_at s.pc s.reader_index reading;
        })
    store :
        (i : ℕ)
        → i < n
        → s.pc i ≡ reading
        → Step s (record s { pc = put_at s.pc i (sending (read_shard (readers i) offset size)) })
    send :
        (i : ℕ) {o : Outcome}
        → i < n
        → s.pc i ≡ sending o
        → length s.queue < n
        → Step s
            (record s { queue = s.queue ++ trigger_of o ∷ []; pc = put_at s.pc i (finished o) })

  pub data Reach : Reading → Type 0 where
    here : Reach (start data_blocks)
    next : {s t : Reading} → Reach s → Step s t → Reach t
