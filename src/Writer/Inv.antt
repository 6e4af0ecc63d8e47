-- ===== src/Writer/Inv.antt =====
-- What holds in every reachable state of a buffered writer.
use mini_minio.Prelude.{
  ℕ, ◌≡◌, refl, sym, ap, ◌∙◌, inl, inr, Bool, true, false, Option, none, some, Option-cases, List,
  [], ◌∷◌, ◌++◌, arith,
}
use mathlib.Core.List.{append_assoc, append-nil}
use mini_minio.Prelude.Errors.{Error, is_nil}
use mini_minio.Erasure.Reader.{Bytes}
use mini_minio.Writer.{
  Runner, receives, writes, fails, closes, fails_close, finished, BufferedWriter, set_err, Step,
  call_write, refuse_closed, refuse_failed, admit, send, cancel_send, call_close, call_close_again,
  close_chunks, wait_done, cancel_wait, return_err, receive, drained, write_chunk, write_fails,
  report, close_dst, close_fails, report_close, Reach, here, next, cancelled,
}
use mini_minio.Writer.Places.{
  CallerAt, RunnerAt, has_waited, Waited, When, When-map, is_final, Waited-moves, Waited-finished,
  Waited-failed, is_nil-set_err, RunnerAt-open, RunnerAt-close,
}

module _ {W : Type 0} (write : W → Bytes → Option Error × W) (close : W → Option Error × W) where
  -- The writes of some chunks, one after the other, up to the first error.
  pub write_all : W → List Bytes → Option Error × W
  write_all d [] = (none, d)
  write_all d (c ∷ cs) =
      let (failure, d') = write d c in
      elim failure [ some e ↦ (some e, d') | none ↦ write_all d' cs ]

  -- Without an error so far, what was written is what was accepted, but for the chunks on the way.
  abbrev pub Written : W → Runner → List Bytes → W → List Bytes → Type 0
  Written w receives q d acc = (cs : List Bytes) × (acc ≡ cs ++ q) × (write_all w cs ≡ (none, d))
  Written w (writes c) q d acc =
      (cs : List Bytes) × (acc ≡ cs ++ c ∷ q) × (write_all w cs ≡ (none, d))
  Written w (fails e) q d acc = Unit {0}
  Written w closes q d acc = write_all w acc ≡ (none, d)
  Written w (fails_close e) q d acc = Unit {0}
  Written w finished q d acc = (m : W) × (write_all w acc ≡ (none, m)) × (close m ≡ (none, d))

  pub record Inv (w : W) (s : BufferedWriter W) : Type 0 where
    pub caller_at : CallerAt s.caller s.is_closed
    pub runner_at : RunnerAt s.runner s.is_closed s.chunks
    pub waited : Waited (has_waited s.caller s.is_closed) s.runner s.failure
    pub written : When (is_nil s.failure) (Written w s.runner s.chunks s.dst s.accepted)

  write_all-snoc :
      (w d d' : W) (cs : List Bytes) (c : Bytes)
      → write_all w cs ≡ (none, d)
      → write d c ≡ (none, d')
      → write_all w (cs ++ c ∷ []) ≡ (none, d')
  unfolding write_all
  write_all-snoc w d d' [] c h e = ground (arith, h, e)
  write_all-snoc w d d' (b ∷ cs) c h e = elim (Option-cases (write w b).0) [
    | inl f ↦ rw (f, write_all) (write_all-snoc (write w b).1 d d' cs c (rw (f, write_all) at h) e)
    | inr (x, f) ↦ absurd (ground (arith, h, f))
  ]

  Written-send :
      (w : W) (r : Runner) (c : Bool) (q : List Bytes) (d : W) (acc : List Bytes) (p : Bytes)
      → c ≡ false
      → RunnerAt r c q
      → Written w r q d acc
      → Written w r (q ++ p ∷ []) d (acc ++ p ∷ [])
  Written-send w receives c q d acc p o at_loop (cs, e, h) =
      (cs, ap (λ l. l ++ p ∷ []) e ∙ append_assoc cs q (p ∷ []), h)
  Written-send w (writes b) c q d acc p o at_loop (cs, e, h) =
      (cs, ap (λ l. l ++ p ∷ []) e ∙ append_assoc cs (b ∷ q) (p ∷ []), h)
  Written-send w (fails e) c q d acc p o at_loop h = tt
  Written-send w closes c q d acc p o at_loop h = absurd (cc (o, at_loop.0))
  Written-send w (fails_close e) c q d acc p o at_loop h = tt
  Written-send w finished c q d acc p o at_loop h = absurd (cc (o, at_loop.0))

  module _ (ctx_err : Error) (capacity : ℕ) where
    -- A failure has been set.
    failed_now : (e : Error) (f : Option Error) (A : Type 0) → When (is_nil (set_err e f)) A
    failed_now e none A = tt
    failed_now e (some x) A = tt

    Step-Inv :
        {w : W} {s t : BufferedWriter W} → Inv w s → Step write close ctx_err capacity s t → Inv w t
    Step-Inv inv (call_write p e) = record {
      caller_at = tt;
      runner_at = inv.runner_at;
      waited = rw e at inv.waited;
      written = inv.written;
    }
    Step-Inv inv (refuse_closed e c) = record {
      caller_at = tt;
      runner_at = inv.runner_at;
      waited = rw e at inv.waited;
      written = inv.written;
    }
    Step-Inv inv (refuse_failed e f) = record {
      caller_at = tt;
      runner_at = inv.runner_at;
      waited = rw e at inv.waited;
      written = inv.written;
    }
    Step-Inv inv (admit e c f) = record {
      caller_at = c;
      runner_at = inv.runner_at;
      waited = tt;
      written = inv.written;
    }
    Step-Inv {w} {s} inv (send {p} e lt) =
        let c : s.is_closed ≡ false = rw e at inv.caller_at in
        record {
          caller_at = tt;
          runner_at =
              RunnerAt-open s.runner s.is_closed s.chunks (s.chunks ++ p ∷ []) c inv.runner_at;
          waited = rw c tt;
          written =
              When-map (is_nil s.failure) _ _
                (Written-send w s.runner s.is_closed s.chunks s.dst s.accepted p c inv.runner_at)
                inv.written;
        }
    Step-Inv {w} {s} inv (cancel_send e x) =
        let c : s.is_closed ≡ false = rw e at inv.caller_at in
        record {
          caller_at = tt;
          runner_at = inv.runner_at;
          waited = rw c tt;
          written = inv.written;
        }
    Step-Inv inv (call_close e c) = record {
      caller_at = c;
      runner_at = inv.runner_at;
      waited = tt;
      written = inv.written;
    }
    Step-Inv inv (call_close_again e c) = record {
      caller_at = c;
      runner_at = inv.runner_at;
      waited = rw c at (rw e at inv.waited);
      written = inv.written;
    }
    Step-Inv {w} {s} inv (close_chunks e) = record {
      caller_at = refl;
      runner_at =
          RunnerAt-close s.runner s.is_closed s.chunks (rw e at inv.caller_at) inv.runner_at;
      waited = tt;
      written = inv.written;
    }
    Step-Inv inv (wait_done e r) = record {
      caller_at = rw e at inv.caller_at;
      runner_at = inv.runner_at;
      waited = inl r;
      written = inv.written;
    }
    Step-Inv {w} {s} inv (cancel_wait e c) = record {
      caller_at = rw e at inv.caller_at;
      runner_at = inv.runner_at;
      waited = inr (is_nil-set_err ctx_err s.failure);
      written = failed_now ctx_err s.failure _;
    }
    Step-Inv {w} {s} inv (return_err e) =
        let c : s.is_closed ≡ true = rw e at inv.caller_at in
        record {
          caller_at = tt;
          runner_at = inv.runner_at;
          waited = rw c (rw e at inv.waited);
          written = inv.written;
        }
    Step-Inv {w} {s} inv (receive {c} {q} e h) = record {
      caller_at = inv.caller_at;
      runner_at = tt;
      waited =
          Waited-moves (has_waited s.caller s.is_closed) s.runner (writes c) s.failure
            (ap is_final e) inv.waited;
      written =
          When-map (is_nil s.failure) _ _ (λ (cs, a, x). (cs, a ∙ ap (λ l. cs ++ l) h, x))
            (rw e at inv.written);
    }
    Step-Inv {w} {s} inv (drained e h c) = record {
      caller_at = inv.caller_at;
      runner_at = (c, h);
      waited =
          Waited-moves (has_waited s.caller s.is_closed) s.runner closes s.failure (ap is_final e)
            inv.waited;
      written =
          When-map (is_nil s.failure) _ _
            (λ (cs, a, x). ap (write_all w) (a ∙ ap (λ l. cs ++ l) h ∙ append-nil cs) ∙ x)
            (rw e at inv.written);
    }
    Step-Inv {w} {s} inv (write_chunk {c} {d} e r) = record {
      caller_at = inv.caller_at;
      runner_at = tt;
      waited =
          Waited-moves (has_waited s.caller s.is_closed) s.runner receives s.failure (ap is_final e)
            inv.waited;
      written =
          When-map (is_nil s.failure) _ _
            (λ (cs, a, x). (
              cs ++ c ∷ [],
              a ∙ sym (append_assoc cs (c ∷ []) s.chunks),
              write_all-snoc w s.dst d cs c x r,
            ))
            (rw e at inv.written);
    }
    Step-Inv {w} {s} inv (write_fails {e = x} e r) = record {
      caller_at = inv.caller_at;
      runner_at = tt;
      waited =
          Waited-moves (has_waited s.caller s.is_closed) s.runner (fails x) s.failure
            (ap is_final e) inv.waited;
      written = When-map (is_nil s.failure) _ _ (λ h. tt) inv.written;
    }
    Step-Inv {w} {s} inv (report {e = x} e l) = record {
      caller_at = inv.caller_at;
      runner_at = tt;
      waited =
          Waited-failed (has_waited s.caller s.is_closed) receives (set_err x s.failure)
            (is_nil-set_err x s.failure);
      written = failed_now x s.failure _;
    }
    Step-Inv {w} {s} inv (close_dst {d} e r) = record {
      caller_at = inv.caller_at;
      runner_at = rw e at inv.runner_at;
      waited = Waited-finished (has_waited s.caller s.is_closed) s.failure;
      written = When-map (is_nil s.failure) _ _ (λ h. (s.dst, h, r)) (rw e at inv.written);
    }
    Step-Inv {w} {s} inv (close_fails {e = x} e r) = record {
      caller_at = inv.caller_at;
      runner_at = rw e at inv.runner_at;
      waited =
          Waited-moves (has_waited s.caller s.is_closed) s.runner (fails_close x) s.failure
            (ap is_final e) inv.waited;
      written = When-map (is_nil s.failure) _ _ (λ h. tt) inv.written;
    }
    Step-Inv {w} {s} inv (report_close {e = x} e l) = record {
      caller_at = inv.caller_at;
      runner_at = rw e at inv.runner_at;
      waited = Waited-finished (has_waited s.caller s.is_closed) (set_err x s.failure);
      written = failed_now x s.failure _;
    }

    -- In every reachable state of the buffered shard writer the channel is closed where the caller
    -- stands behind the close, and closed and empty once the goroutine has left its loop; Close
    -- returns only after the goroutine has finished or with an error; and without an error the
    -- chunks accepted are those written, that in hand and those in the channel, in their order.
    pub Reach-Inv :
        {w : W} {s : BufferedWriter W} → Reach write close ctx_err capacity w s → Inv w s
    Reach-Inv here = record {
      caller_at = tt;
      runner_at = tt;
      waited = tt;
      written = ([], refl, unfold write_all in refl);
    }
    Reach-Inv (next r st) = Step-Inv (Reach-Inv r) st
    Reach-Inv (cancelled r) =
        let inv = Reach-Inv r in
        record {
          caller_at = inv.caller_at;
          runner_at = inv.runner_at;
          waited = inv.waited;
          written = inv.written;
        }
