-- ===== src/Writer.antt =====
-- bufferedShardWriter of internal/storage/buffered-writer.go: the calls of one writing goroutine and
-- the goroutine of `run`, as interleaved atomic steps. `w.mu` is held over several steps only while
-- Write waits to send. Chunk buffers are copies, and their pool is left out.
pub mod Places
pub mod Inv
pub mod Close
pub mod Deadlock
mod Tests
use mini_minio.Prelude.{
  ℕ, zero, suc, ◌+◌, ◌<◌, ◌≡◌, ◌⊎◌, Bool, true, false, Option, none, some, List, [], ◌∷◌, ◌++◌,
  length,
}
use mini_minio.Prelude.Errors.{Error}
use mini_minio.Erasure.Reader.{Bytes}

-- Where the calling goroutine stands: before Write takes the mutex, in the `select` that sends,
-- before Close takes the mutex, in the `select` of Close, and before Close reads `w.err`.
pub data Caller : Type 0 where
  ready : Caller
  wants_write : Bytes → Caller
  sends : Bytes → Caller
  wants_close waits reads : Caller

-- Where `run` stands: before it receives, with a chunk to write, before setErr takes the mutex,
-- before it closes the drive's writer, before setErr after that, and at its end.
pub data Runner : Type 0 where
  receives : Runner
  writes : Bytes → Runner
  fails : Error → Runner
  closes : Runner
  fails_close : Error → Runner
  finished : Runner

-- `accepted` lists the chunks for which Write has returned their length, oldest first.
pub record BufferedWriter (W : Type 0) : Type 0 where
  pub caller : Caller
  pub runner : Runner
  pub chunks : List Bytes
  pub failure : Option Error
  pub is_closed : Bool
  pub ctx_done : Bool
  pub dst : W
  pub accepted : List Bytes

-- The caller holds `w.mu`.
abbrev pub is_locked : Caller → Bool
is_locked (sends p) = true
is_locked _ = false

-- setErr keeps the first error.
abbrev pub set_err : Error → Option Error → Option Error
set_err e none = some e
set_err e (some x) = some x

-- NewBufferedShardWriter
abbrev pub new_writer : {W : Type 0} → W → BufferedWriter W
new_writer dst = record {
  caller = ready;
  runner = receives;
  chunks = [];
  failure = none;
  is_closed = false;
  ctx_done = false;
  dst = dst;
  accepted = [];
}

-- `write` and `close` are the drive's writer, and `ctx_err` is `w.ctx.Err()` once it is done.
module _ {W : Type 0} (write : W → Bytes → Option Error × W) (close : W → Option Error × W)
    (ctx_err : Error) (capacity : ℕ) where
  pub data Step (s : BufferedWriter W) : BufferedWriter W → Type 0 where
    call_write : (p : Bytes) → s.caller ≡ ready → Step s (record s { caller = wants_write p })
    refuse_closed :
        {p : Bytes}
        → s.caller ≡ wants_write p
        → s.is_closed ≡ true
        → Step s (record s { caller = ready })
    refuse_failed :
        {p : Bytes} {e : Error}
        → s.caller ≡ wants_write p
        → s.failure ≡ some e
        → Step s (record s { caller = ready })
    admit :
        {p : Bytes}
        → s.caller ≡ wants_write p
        → s.is_closed ≡ false
        → s.failure ≡ none
        → Step s (record s { caller = sends p })
    send :
        {p : Bytes}
        → s.caller ≡ sends p
        → length s.chunks < capacity
        → Step s (record s {
          caller = ready;
          chunks = s.chunks ++ p ∷ [];
          accepted = s.accepted ++ p ∷ [];
        })
    cancel_send :
        {p : Bytes} → s.caller ≡ sends p → s.ctx_done ≡ true → Step s (record s { caller = ready })
    call_close : s.caller ≡ ready → s.is_closed ≡ false → Step s (record s { caller = wants_close })
    call_close_again : s.caller ≡ ready → s.is_closed ≡ true → Step s (record s { caller = reads })
    close_chunks : s.caller ≡ wants_close → Step s (record s { caller = waits; is_closed = true })
    wait_done : s.caller ≡ waits → s.runner ≡ finished → Step s (record s { caller = reads })
    cancel_wait :
        s.caller ≡ waits
        → s.ctx_done ≡ true
        → Step s (record s { caller = reads; failure = set_err ctx_err s.failure })
    return_err : s.caller ≡ reads → Step s (record s { caller = ready })
    receive :
        {c : Bytes} {q : List Bytes}
        → s.runner ≡ receives
        → s.chunks ≡ c ∷ q
        → Step s (record s { runner = writes c; chunks = q })
    drained :
        s.runner ≡ receives
        → s.chunks ≡ []
        → s.is_closed ≡ true
        → Step s (record s { runner = closes })
    write_chunk :
        {c : Bytes} {d : W}
        → s.runner ≡ writes c
        → write s.dst c ≡ (none, d)
        → Step s (record s { runner = receives; dst = d })
    write_fails :
        {c : Bytes} {e : Error} {d : W}
        → s.runner ≡ writes c
        → write s.dst c ≡ (some e, d)
        → Step s (record s { runner = fails e; dst = d })
    report :
        {e : Error}
        → s.runner ≡ fails e
        → is_locked s.caller ≡ false
        → Step s (record s { runner = receives; failure = set_err e s.failure })
    close_dst :
        {d : W}
        → s.runner ≡ closes
        → close s.dst ≡ (none, d)
        → Step s (record s { runner = finished; dst = d })
    close_fails :
        {e : Error} {d : W}
        → s.runner ≡ closes
        → close s.dst ≡ (some e, d)
        → Step s (record s { runner = fails_close e; dst = d })
    report_close :
        {e : Error}
        → s.runner ≡ fails_close e
        → is_locked s.caller ≡ false
        → Step s (record s { runner = finished; failure = set_err e s.failure })

  -- The context may be done at any time.
  pub data Reach (w : W) : BufferedWriter W → Type 0 where
    here : Reach w (new_writer w)
    next : {s t : BufferedWriter W} → Reach w s → Step s t → Reach w t
    cancelled : {s : BufferedWriter W} → Reach w s → Reach w (record s { ctx_done = true })
