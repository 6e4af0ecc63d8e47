-- ===== src/Lock/Tests.antt =====
-- Mutual exclusion of two goroutines, of which the second has the mutex.
use mini_minio.Prelude.{ℕ, ◌≡◌, refl, true, false, arith}
use mini_minio.Prelude.Family.{put_at}
use mini_minio.Lock.{Mutex, Reach, here, next, lock, unlock}
use mini_minio.Lock.Exclusion.{lock_lem}

abbrev locked : Mutex
locked = record {
  token = false;
  holds = put_at (put_at (put_at (λ i. false) 0 true) 0 false) 1 true;
  panicked = false;
}

locked_run : Reach 2 locked
locked_run =
    next (next (next here (lock 0 (omega arith) refl refl)) (unlock 0 (omega arith) refl refl))
      (lock 1 (omega arith) refl refl)

lock_lem_example : (◌≡◌ {A = ℕ} 1 1) × (locked.token ≡ false) × (locked.panicked ≡ false)
lock_lem_example = lock_lem 2 1 1 locked_run (omega arith) (omega arith) refl refl
