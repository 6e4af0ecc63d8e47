-- ===== src/Lock/Exclusion.antt =====
-- Who holds a contextMutex.
use mini_minio.Prelude.{ℕ, ◌+◌, ◌<◌, ◌≡◌, refl, Bool, true, false, arith, ℕ_discrete}
use mini_minio.Prelude.Family.{put_at, one_if, tally, tally-put_at, tally_none, tally_zero}
use mini_minio.Lock.{Mutex, Step, lock, lock_cancelled, unlock, unlock_unlocked, Reach, here, next}

abbrev id_bool : Bool → Bool
id_bool b = b

-- The token is in the channel or with one goroutine, and nothing has panicked.
pub record Inv (n : ℕ) (s : Mutex) : Type 0 where
  pub one_token : tally id_bool n s.holds + one_if s.token ≡ 1
  pub calm : s.panicked ≡ false

Step-Inv : (n : ℕ) {s t : Mutex} → Inv n s → Step n s t → Inv n t
Step-Inv n {s} inv (lock i lt h k) = record {
  one_token = ground (arith, tally-put_at id_bool n s.holds i true lt, inv.one_token, h, k);
  calm = inv.calm;
}
Step-Inv n inv (lock_cancelled i lt h) = inv
Step-Inv n {s} inv (unlock i lt h k) = record {
  one_token = ground (arith, tally-put_at id_bool n s.holds i false lt, inv.one_token, h, k);
  calm = inv.calm;
}
Step-Inv n {s} inv (unlock_unlocked i lt h k) =
    absurd (ground (arith, tally-put_at id_bool n s.holds i false lt, inv.one_token, h, k))

-- One goroutine at most holds the mutex in every reachable state.
pub Reach-Inv : (n : ℕ) {s : Mutex} → Reach n s → Inv n s
Reach-Inv n here = record {
  one_token = omega (arith, tally_zero id_bool n (λ i. false) (λ i. refl));
  calm = refl;
}
Reach-Inv n (next r st) = Step-Inv n (Reach-Inv n r) st

-- Two goroutines that have locked a contextMutex at the same time, in any interleaving of Lock and
-- Unlock of n goroutines that unlock only what they hold, are the same, the channel has no token,
-- and Unlock has not panicked.
pub lock_lem :
    (n i j : ℕ) {s : Mutex}
    → Reach n s
    → i < n
    → j < n
    → s.holds i ≡ true
    → s.holds j ≡ true
    → (i ≡ j) × (s.token ≡ false) × (s.panicked ≡ false)
lock_lem n i j {s} r li lj hi hj =
    let inv = Reach-Inv n r in
    let moved = tally-put_at id_bool n s.holds i false li in
    let rest : tally id_bool n (put_at s.holds i false) ≡ 0 =
      ground (arith, moved, inv.one_token, hi) in
    let apart = tally_none id_bool n (put_at s.holds i false) rest j lj in
    (
      elim (ℕ_discrete i j) [ yes e ↦ e | no ne ↦ absurd (ground (arith, apart, hj, ne)) ],
      ground (arith, moved, inv.one_token, hi),
      inv.calm,
    )
