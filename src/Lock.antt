-- ===== src/Lock.antt =====
-- contextMutex of cmd/erasure-object.go, shared by `n` goroutines that each unlock it only after
-- they have locked it, as every operation does by `defer`.
pub mod Exclusion
mod Tests
use mini_minio.Prelude.{ℕ, ◌<◌, ◌≡◌, Bool, true, false}
use mini_minio.Prelude.Family.{put_at}

-- `token` says whether the channel of capacity 1 holds the token; `panicked`, whether Unlock was
-- called on a mutex that is not locked.
pub record Mutex : Type 0 where
  pub token : Bool
  pub holds : ℕ → Bool
  pub panicked : Bool

-- newContextMutex
abbrev pub new_mutex : Mutex
new_mutex = record { token = true; holds = λ i. false; panicked = false }

module _ (n : ℕ) where
  -- Lock by goroutine `i`, or its context is done first; Unlock.
  pub data Step (s : Mutex) : Mutex → Type 0 where
    lock :
        (i : ℕ)
        → i < n
        → s.holds i ≡ false
        → s.token ≡ true
        → Step s (record s { token = false; holds = put_at s.holds i true })
    lock_cancelled : (i : ℕ) → i < n → s.holds i ≡ false → Step s s
    unlock :
        (i : ℕ)
        → i < n
        → s.holds i ≡ true
        → s.token ≡ false
        → Step s (record s { token = true; holds = put_at s.holds i false })
    unlock_unlocked :
        (i : ℕ) → i < n → s.holds i ≡ true → s.token ≡ true → Step s (record s { panicked = true })

  pub data Reach : Mutex → Type 0 where
    here : Reach new_mutex
    next : {s t : Mutex} → Reach s → Step s t → Reach t
