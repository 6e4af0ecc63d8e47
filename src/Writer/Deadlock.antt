-- ===== src/Writer/Deadlock.antt =====
-- When a buffered writer is blocked: a call of Write that holds the mutex waits for room in the full
-- channel, while `run`, which alone makes room, waits for the mutex to report an error.
use mini_minio.Prelude.{
  ℕ, ◌≤◌, ◌<◌, ◌≡◌, ◌≢◌, refl, ap, ◌⊎◌, inl, inr, true, false, Bool-cases, Option, Option-cases,
  List, [], ◌∷◌, length, dec_lt, arith,
}
use mini_minio.Prelude.Errors.{Error}
use mini_minio.Erasure.Reader.{Bytes}
use mini_minio.Writer.{
  Caller, ready, wants_write, sends, wants_close, waits, reads, Runner, receives, writes, fails,
  closes, fails_close, finished, BufferedWriter, is_locked, Step, call_write, refuse_closed,
  refuse_failed, admit, send, cancel_send, call_close, call_close_again, close_chunks, wait_done,
  cancel_wait, return_err, receive, drained, write_chunk, write_fails, report, close_dst,
  close_fails, report_close, Reach,
}
use mini_minio.Writer.Inv.{Inv, Reach-Inv}
use mini_minio.Writer.Places.{RunnerAt}

-- Write waits for room with the mutex, `run` waits for the mutex with an error, the channel is full,
-- and the context is not done.
pub record Stuck {W : Type 0} (capacity : ℕ) (s : BufferedWriter W) : Type 0 where
  pub chunk : Bytes
  pub problem : Error
  pub sending : s.caller ≡ sends chunk
  pub reporting : s.runner ≡ fails problem
  pub full : capacity ≤ length s.chunks
  pub alive : s.ctx_done ≡ false

module _ {W : Type 0} (write : W → Bytes → Option Error × W) (close : W → Option Error × W)
    (ctx_err : Error) (capacity : ℕ) where
  abbrev CanStep : BufferedWriter W → Type 0
  CanStep s = (t : BufferedWriter W) × Step write close ctx_err capacity s t

  -- A state that is stuck has no step.
  Stuck-final :
      {s t : BufferedWriter W} → Stuck capacity s → Step write close ctx_err capacity s t → ⊥
  Stuck-final k (call_write p e) = cc (e, k.sending)
  Stuck-final k (refuse_closed e c) = cc (e, k.sending)
  Stuck-final k (refuse_failed e f) = cc (e, k.sending)
  Stuck-final k (admit e c f) = cc (e, k.sending)
  Stuck-final k (send e lt) = omega (arith, k.full)
  Stuck-final k (cancel_send e c) = cc (c, k.alive)
  Stuck-final k (call_close e c) = cc (e, k.sending)
  Stuck-final k (call_close_again e c) = cc (e, k.sending)
  Stuck-final k (close_chunks e) = cc (e, k.sending)
  Stuck-final k (wait_done e h) = cc (e, k.sending)
  Stuck-final k (cancel_wait e c) = cc (e, k.sending)
  Stuck-final k (return_err e) = cc (e, k.sending)
  Stuck-final k (receive e q) = cc (e, k.reporting)
  Stuck-final k (drained e q c) = cc (e, k.reporting)
  Stuck-final k (write_chunk e h) = cc (e, k.reporting)
  Stuck-final k (write_fails e h) = cc (e, k.reporting)
  Stuck-final k (report e l) = cc (l, ap is_locked k.sending)
  Stuck-final k (close_dst e h) = cc (e, k.reporting)
  Stuck-final k (close_fails e h) = cc (e, k.reporting)
  Stuck-final k (report_close e l) = cc (l, ap is_locked k.sending)

  -- A write or a close of the drive's writer ends.
  write_step : (s : BufferedWriter W) (c : Bytes) → s.runner ≡ writes c → CanStep s
  write_step s c e = elim (Option-cases (write s.dst c).0) [
    | inl ok_write ↦
        (_, write_chunk {d = (write s.dst c).1} e (ap (λ o. (o, (write s.dst c).1)) ok_write))
    | inr (x, bad) ↦
        (_, write_fails {d = (write s.dst c).1} e (ap (λ o. (o, (write s.dst c).1)) bad))
  ]

  close_step : (s : BufferedWriter W) → s.runner ≡ closes → CanStep s
  close_step s e = elim (Option-cases (close s.dst).0) [
    | inl ok_close ↦
        (_, close_dst {d = (close s.dst).1} e (ap (λ o. (o, (close s.dst).1)) ok_close))
    | inr (x, bad) ↦ (_, close_fails {d = (close s.dst).1} e (ap (λ o. (o, (close s.dst).1)) bad))
  ]

  -- `run` has a step, unless it is done, has nothing to receive, or waits for the mutex.
  run_step :
      (s : BufferedWriter W) (r : Runner) (q : List Bytes)
      → s.runner ≡ r
      → s.chunks ≡ q
      → is_locked s.caller ≡ false
      → s.is_closed ≡ true
      → CanStep s ⊎ (s.runner ≡ finished)
  run_step s receives [] e h l c = inl (_, drained e h c)
  run_step s receives (b ∷ q) e h l c = inl (_, receive e h)
  run_step s (writes b) q e h l c = inl (write_step s b e)
  run_step s (fails x) q e h l c = inl (_, report e l)
  run_step s closes q e h l c = inl (close_step s e)
  run_step s (fails_close x) q e h l c = inl (_, report_close e l)
  run_step s finished q e h l c = inr e

  -- Write waits for room.
  send_step :
      (s : BufferedWriter W) (p : Bytes) (r : Runner) (q : List Bytes)
      → 0 < capacity
      → s.caller ≡ sends p
      → s.is_closed ≡ false
      → s.runner ≡ r
      → RunnerAt r s.is_closed s.chunks
      → s.chunks ≡ q
      → capacity ≤ length s.chunks
      → CanStep s ⊎ Stuck capacity s
  send_step s p receives [] pos e c h at_loop k full = absurd (omega (arith, ap length k))
  send_step s p receives (b ∷ q) pos e c h at_loop k full = inl (_, receive h k)
  send_step s p (writes b) q pos e c h at_loop k full = inl (write_step s b h)
  send_step s p (fails x) q pos e c h at_loop k full = elim (Bool-cases s.ctx_done) [
    | inl over ↦ inl (_, cancel_send e over)
    | inr alive ↦
        inr (record {
          chunk = p;
          problem = x;
          sending = e;
          reporting = h;
          full = full;
          alive = alive;
        })
  ]
  send_step s p closes q pos e c h at_loop k full = absurd (cc (c, at_loop.0))
  send_step s p (fails_close x) q pos e c h at_loop k full = absurd (cc (c, at_loop.0))
  send_step s p finished q pos e c h at_loop k full = absurd (cc (c, at_loop.0))

  call_step :
      (s : BufferedWriter W) (c : Caller) {w : W}
      → 0 < capacity
      → Inv write close w s
      → s.caller ≡ c
      → c ≢ ready
      → CanStep s ⊎ Stuck capacity s
  call_step s ready pos inv e busy = absurd (busy refl)
  call_step s (wants_write p) pos inv e busy = elim (Bool-cases s.is_closed) [
    | inl c ↦ inl (_, refuse_closed e c)
    | inr c ↦ elim (Option-cases s.failure) [
      | inl f ↦ inl (_, admit e c f)
      | inr (x, f) ↦ inl (_, refuse_failed e f)
    ]
  ]
  call_step s (sends p) pos inv e busy = elim (dec_lt (length s.chunks) capacity) [
    | yes room ↦ inl (_, send e room)
    | no full ↦
        send_step s p s.runner s.chunks pos e (rw e at inv.caller_at) refl inv.runner_at refl
          (omega arith)
  ]
  call_step s wants_close pos inv e busy = inl (_, close_chunks e)
  call_step s waits pos inv e busy =
      elim (run_step s s.runner s.chunks refl refl (ap is_locked e) (rw e at inv.caller_at)) [
        | inl st ↦ inl st
        | inr done ↦ inl (_, wait_done e done)
      ]
  call_step s reads pos inv e busy = inl (_, return_err e)

  -- In every reachable state of the buffered shard writer in which a call of the caller has not
  -- returned, with a positive capacity, some step is possible, but for one kind of state: Write
  -- waits for a place in the full channel while the goroutine waits for the lock that Write holds,
  -- to report a failed write, and the context is not done; from such a state there is no step.
  pub deadlock_lem :
      (w : W) (s : BufferedWriter W)
      → 0 < capacity
      → Reach write close ctx_err capacity w s
      → s.caller ≢ ready
      → ((t : BufferedWriter W) × Step write close ctx_err capacity s t)
        ⊎ (Stuck capacity s × ((t : BufferedWriter W) → ¬ Step write close ctx_err capacity s t))
  deadlock_lem w s pos r busy =
      elim (call_step s s.caller pos (Reach-Inv write close ctx_err capacity r) refl busy) [
        | inl st ↦ inl st
        | inr k ↦ inr (k, λ t st. Stuck-final k st)
      ]
