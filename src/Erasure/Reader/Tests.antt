-- ===== src/Erasure/Reader/Tests.antt =====
-- The theorems about the read loop, on a run with two readers of which the first fails.
use mini_minio.Prelude.{
  ℕ, zero, suc, ◌≤◌, ◌<◌, ◌≡◌, refl, ◌⊎◌, Option, some, [], ◌∷◌, replicate, length-replicate, arith,
}
use mini_minio.Prelude.Family.{put_at, tally}
use mini_minio.Prelude.Errors.{ok, err, short_write}
use mini_minio.Erasure.Reader.{
  Pc, reading, sending, ReaderAt, got, failed, read_shard, Reading, Reach, here, next, spawn, store,
  send, stop_decode, IsDone, read_result, Step, waiting, idle, finished, buffered, can_decode,
}
use mini_minio.Erasure.Reader.Filling.{Fills}
use mini_minio.Erasure.Reader.Final.{FromReader, read_decides}
use mini_minio.Erasure.Reader.Progress.{steps, read_progress, read_ends}

abbrev readers : ℕ → Option ReaderAt
readers zero = some (λ offset size. err short_write)
readers (suc i) = some (λ offset size. ok (replicate size 7))

readers-Fills : (i : ℕ) → i < 2 → Fills (readers i)
readers-Fills zero lt = λ offset size b e. absurd (ground arith)
readers-Fills (suc i) lt = λ offset size b e. ground (arith, length-replicate {A = ℕ} size 7)

-- The first reader fails, then the second one gives its shard.
abbrev finished_both : ℕ → Pc
finished_both =
    put_at
      (put_at
        (put_at
          (put_at (put_at (put_at (λ i. idle) 0 reading) 0 (sending (failed short_write))) 0
            (finished (failed short_write)))
          1 reading)
        1 (sending (got (7 ∷ 7 ∷ []))))
      1 (finished (got (7 ∷ 7 ∷ [])))

abbrev final : Reading
final = record { phase = waiting; queue = []; reader_index = 2; pc = finished_both }

final-Reach : Reach readers 2 1 0 2 final
unfolding can_decode read_shard tally
final-Reach =
    next
      (next
        (next
          (next
            (next
              (next (next here (spawn refl refl refl (omega arith))) (store 0 (omega arith) refl))
              (send 0 (omega arith) refl (omega arith)))
            (spawn refl refl refl (omega arith)))
          (store 1 (omega arith) refl))
        (send 1 (omega arith) refl (omega arith)))
      (stop_decode refl refl refl)

read_decides_example :
    (read_result 2 1 final ≡ ok ([] ∷ (7 ∷ 7 ∷ []) ∷ []))
    × FromReader (read_shard (readers 1) 0 2) (buffered (final.pc 1))
unfolding read_shard tally
read_decides_example =
    read_decides readers 2 1 0 2 readers-Fills (omega arith) (omega arith) 1 final-Reach
      (record { left = refl; quiet = refl })

read_progress_example : IsDone 2 final ⊎ ((t : Reading) × Step readers 2 1 0 2 final t)
read_progress_example =
    read_progress readers 2 1 0 2 readers-Fills (omega arith) (omega arith) (omega arith)
      final-Reach

read_ends_example : steps final-Reach ≤ 8
read_ends_example = read_ends readers 2 1 0 2 readers-Fills (omega arith) (omega arith) final-Reach
