-- ===== src/Writer/Tests.antt =====
-- The theorems about the buffered writer: a run that stores one chunk, and a run into the deadlock,
-- with room for one chunk.
use mini_minio.Prelude.{◌≡◌, refl, ◌⊎◌, true, false, Option, none, some, [], ◌∷◌, ◌++◌, arith}
use mini_minio.Prelude.Errors.{Error, canceled, short_write}
use mini_minio.Erasure.Reader.{Bytes}
use mini_minio.Writer.{
  sends, reads, fails, finished, BufferedWriter, Step, call_write, admit, send, call_close,
  close_chunks, wait_done, receive, drained, write_chunk, write_fails, close_dst, Reach, here, next,
}
use mini_minio.Writer.Inv.{Inv, Reach-Inv, write_all}
use mini_minio.Writer.Close.{close_lem}
use mini_minio.Writer.Deadlock.{Stuck, deadlock_lem}

abbrev write : Bytes → Bytes → Option Error × Bytes
write d c = (none, d ++ c)

abbrev close : Bytes → Option Error × Bytes
close d = (none, d)

abbrev closed_writer : BufferedWriter Bytes
closed_writer = record {
  caller = reads;
  runner = finished;
  chunks = [];
  failure = none;
  is_closed = true;
  ctx_done = false;
  dst = 5 ∷ 6 ∷ [];
  accepted = (5 ∷ 6 ∷ []) ∷ [];
}

closed_run : Reach write close canceled 1 [] closed_writer
closed_run =
    next
      (next
        (next
          (next
            (next
              (next
                (next
                  (next (next (next here (call_write (5 ∷ 6 ∷ []) refl)) (admit refl refl refl))
                    (send refl (omega arith)))
                  (receive refl refl))
                (call_close refl refl))
              (write_chunk refl refl))
            (close_chunks refl))
          (drained refl refl refl))
        (close_dst refl refl))
      (wait_done refl refl)

close_lem_example :
    (m : Bytes) × (write_all write close [] ((5 ∷ 6 ∷ []) ∷ []) ≡ (none, m))
    × (close m ≡ (none, 5 ∷ 6 ∷ []))
close_lem_example = close_lem write close canceled 1 [] closed_writer closed_run refl refl

abbrev broken : Bytes → Bytes → Option Error × Bytes
broken d c = (some short_write, d)

abbrev blocked_writer : BufferedWriter Bytes
blocked_writer = record {
  caller = sends (7 ∷ []);
  runner = fails short_write;
  chunks = (6 ∷ []) ∷ [];
  failure = none;
  is_closed = false;
  ctx_done = false;
  dst = [];
  accepted = (5 ∷ []) ∷ (6 ∷ []) ∷ [];
}

-- Write, Write, Write, of which the first fails on the drive while the third waits.
blocked_run : Reach broken close canceled 1 [] blocked_writer
blocked_run =
    next
      (next
        (next
          (next
            (next
              (next
                (next
                  (next (next (next here (call_write (5 ∷ []) refl)) (admit refl refl refl))
                    (send refl (omega arith)))
                  (receive refl refl))
                (call_write (6 ∷ []) refl))
              (admit refl refl refl))
            (send refl (omega arith)))
          (call_write (7 ∷ []) refl))
        (admit refl refl refl))
      (write_fails refl refl)

deadlock_lem_example :
    ((t : BufferedWriter Bytes) × Step broken close canceled 1 blocked_writer t)
    ⊎ (Stuck 1 blocked_writer
        × ((t : BufferedWriter Bytes) → ¬ Step broken close canceled 1 blocked_writer t))
deadlock_lem_example =
    deadlock_lem broken close canceled 1 [] blocked_writer (omega arith) blocked_run
      (λ e. absurd (cc))

Reach-Inv_example : Inv write close [] closed_writer
Reach-Inv_example = Reach-Inv write close canceled 1 closed_run
