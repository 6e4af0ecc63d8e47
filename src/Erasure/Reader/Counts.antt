-- ===== src/Erasure/Reader/Counts.antt =====
-- Counts over the goroutines and over the triggers in the channel, and how a step changes them.
use mini_minio.Prelude.{
  ℕ, zero, suc, ◌+◌, ◌≤◌, ◌<◌, ◌≡◌, refl, Bool, true, false, List, [], ◌∷◌, ◌++◌, length, arith,
  ◌⊎◌, length-append, ap,
}
use mini_minio.Prelude.Family.{put_at, tally, one_if, tally-put_at}
use mini_minio.Erasure.Reader.Filling.{IsFull}
use mini_minio.Erasure.Reader.{
  Outcome, got, nil_reader, failed, trigger_of, Pc, reading, sending, finished, is_active,
  is_stored, Phase, looping, waiting, seeds,
}

-- How many `false` triggers wait in the channel.
unfoldable pub falses : List Bool → ℕ
falses [] = 0
falses (true ∷ q) = falses q
falses (false ∷ q) = suc (falses q)

pub falses-append_one :
    (q : List Bool) (t : Bool) → falses (q ++ t ∷ []) ≡ falses q + falses (t ∷ [])
unfolding falses
falses-append_one [] t = omega arith
falses-append_one (true ∷ q) t = falses-append_one q t
falses-append_one (false ∷ q) t = omega (arith, falses-append_one q t)

pub falses-seeds : (k : ℕ) → falses (seeds k) ≡ 0
unfolding falses
falses-seeds zero = refl
falses-seeds (suc k) = falses-seeds k

pub length-seeds : (k : ℕ) → length (seeds k) ≡ k
length-seeds zero = refl
length-seeds (suc k) = ap suc (length-seeds k)

-- A success whose trigger has not been sent.
abbrev pub is_unsent : Pc → Bool
is_unsent (sending (got b)) = true
is_unsent _ = false

module _ (n : ℕ) where
  pub record Moved (pc : ℕ → Pc) (i : ℕ) (p p' : Pc) : Type 0 where
    pub active :
        tally is_active n (put_at pc i p') + one_if (is_active p)
        ≡ tally is_active n pc + one_if (is_active p')
    pub stored :
        tally is_stored n (put_at pc i p') + one_if (is_stored p)
        ≡ tally is_stored n pc + one_if (is_stored p')
    pub unsent :
        tally is_unsent n (put_at pc i p') + one_if (is_unsent p)
        ≡ tally is_unsent n pc + one_if (is_unsent p')

  pub moved : (pc : ℕ → Pc) (i : ℕ) (p p' : Pc) → i < n → pc i ≡ p → Moved pc i p p'
  moved pc i p p' lt e = record {
    active = ground (arith, tally-put_at is_active n pc i p' lt);
    stored = ground (arith, tally-put_at is_stored n pc i p' lt);
    unsent = ground (arith, tally-put_at is_unsent n pc i p' lt);
  }

  -- What storing `o` at `i` does to the three counts.
  pub record Stored (pc : ℕ → Pc) (i : ℕ) (o : Outcome) : Type 0 where
    pub active : tally is_active n (put_at pc i (sending o)) ≡ tally is_active n pc
    pub stored : tally is_stored n pc ≤ tally is_stored n (put_at pc i (sending o))
    pub owed :
        tally is_unsent n (put_at pc i (sending o)) + tally is_stored n pc
        ≡ tally is_unsent n pc + tally is_stored n (put_at pc i (sending o))

  pub storing :
      (pc : ℕ → Pc) (i : ℕ) (o : Outcome)
      → IsFull o
      → Moved pc i reading (sending o)
      → Stored pc i o
  storing pc i (got b) full m = ground arith
  storing pc i nil_reader full m = ground arith
  storing pc i (failed e) full m = ground arith

  -- What sending the trigger of `o` does to the counts and to the channel.
  pub record Sent (q : List Bool) (pc : ℕ → Pc) (i : ℕ) (o : Outcome) : Type 0 where
    pub tokens :
        length (q ++ trigger_of o ∷ []) + tally is_active n (put_at pc i (finished o))
        ≡ length q + tally is_active n pc
    pub stored : tally is_stored n (put_at pc i (finished o)) ≡ tally is_stored n pc
    pub owed :
        falses (q ++ trigger_of o ∷ []) + tally is_unsent n (put_at pc i (finished o))
        ≡ falses q + tally is_unsent n pc

  pub sent :
      (q : List Bool) (pc : ℕ → Pc) (i : ℕ) (o : Outcome)
      → Moved pc i (sending o) (finished o)
      → Sent q pc i o
  unfolding falses
  sent q pc i (got b) m = ground (arith, falses-append_one q false, length-append q (false ∷ []))
  sent q pc i nil_reader m = ground (arith, falses-append_one q true, length-append q (true ∷ []))
  sent q pc i (failed e) m = ground (arith, falses-append_one q true, length-append q (true ∷ []))

-- While the loop runs, the triggers in the channel, those still to come and those lost make up
-- `data_blocks`; it was left with enough shards, or with all goroutines started.
module _ (n data_blocks : ℕ) where
  abbrev pub AtPhase : Phase → ℕ → ℕ → ℕ → ℕ → Type 0
  AtPhase looping tokens lost stored index = (tokens ≡ data_blocks) × (lost < data_blocks)
  AtPhase waiting tokens lost stored index =
      (tokens ≤ data_blocks) × ((data_blocks ≤ stored) ⊎ (n ≤ index))

  pub AtPhase-mono :
      (p : Phase) {tokens tokens' : ℕ} (lost : ℕ) {stored stored' : ℕ} (index : ℕ)
      → tokens' ≡ tokens
      → stored ≤ stored'
      → AtPhase p tokens lost stored index
      → AtPhase p tokens' lost stored' index
  AtPhase-mono looping lost index e le h = omega arith
  AtPhase-mono waiting lost index e le h = omega arith
