-- ===== src/Erasure/Reader/Final.antt =====
-- What parallelReader.Read returns.
use mini_minio.Prelude.{
  ℕ, ◌≤◌, ◌<◌, ◌≡◌, refl, Option, [], arith, ◌⊎◌, inl, inr, dec_lt, sym, leb, if◌then◌else◌,
}
use mini_minio.Prelude.Family.{tally, tally_mono, tally_none}
use mini_minio.Prelude.Errors.{ok, err, write_quorum}
use mini_minio.Erasure.Reader.{
  Bytes, ReaderAt, Outcome, got, nil_reader, failed, read_shard, Pc, idle, reading, sending,
  finished, is_active, is_stored, buffered, Phase, looping, waiting, Reading, can_decode, Reach,
  IsDone, read_result, listed,
}
use mini_minio.Erasure.Reader.Inv.{Inv, Reach-Inv}
use mini_minio.Erasure.Reader.Filling.{
  Fills, IsFull, Found, is_stored→is_got, is_got→is_stored, Fills-IsFull, is_got,
}
use mini_minio.Erasure.Reader.Counts.{AtPhase}

-- Why the loop was left.
why_left :
    (n data_blocks : ℕ) (p : Phase) (tokens lost stored index : ℕ)
    → p ≡ waiting
    → AtPhase n data_blocks p tokens lost stored index
    → (data_blocks ≤ stored) ⊎ (n ≤ index)
why_left n data_blocks looping tokens lost stored index e h = cc
why_left n data_blocks waiting tokens lost stored index e h = h.1

-- A buffer is empty, or holds what its reader gave.
abbrev pub FromReader : Outcome → Bytes → Type 0
FromReader o b = (b ≡ []) ⊎ (o ≡ got b)

Found-FromReader : (p : Pc) (o : Outcome) → Found o p → FromReader o (buffered p)
Found-FromReader idle o f = inl refl
Found-FromReader reading o f = inl refl
Found-FromReader (sending (got b)) o f = inr (sym f)
Found-FromReader (sending nil_reader) o f = inl refl
Found-FromReader (sending (failed e)) o f = inl refl
Found-FromReader (finished (got b)) o f = inr (sym f)
Found-FromReader (finished nil_reader) o f = inl refl
Found-FromReader (finished (failed e)) o f = inl refl

module _ (readers : ℕ → Option ReaderAt) (n data_blocks offset size : ℕ)
    (fills : (i : ℕ) → i < n → Fills (readers i)) (size_pos : 0 < size)
    (data_pos : 0 < data_blocks) where
  -- How many readers give their shard.
  abbrev pub good : ℕ
  good = tally is_got n (λ i. read_shard (readers i) offset size)

  read_shard-IsFull : (i : ℕ) → i < n → IsFull (read_shard (readers i) offset size)
  read_shard-IsFull i lt = Fills-IsFull (readers i) offset size size_pos (fills i lt)

  state-Inv :
      {s : Reading}
      → Reach readers n data_blocks offset size s
      → Inv readers n data_blocks offset size s
  state-Inv r = Reach-Inv readers n data_blocks offset size fills size_pos data_pos r

  stored-le-good :
      {s : Reading} → Inv readers n data_blocks offset size s → tally is_stored n s.pc ≤ good
  stored-le-good {s} inv =
      tally_mono is_stored is_got n s.pc (λ i. read_shard (readers i) offset size)
        (λ i lt h. is_stored→is_got (s.pc i) (read_shard (readers i) offset size) (inv.found i) h)

  -- A final state that has started all goroutines has stored every good shard.
  good-le-stored :
      {s : Reading}
      → Inv readers n data_blocks offset size s
      → IsDone n s
      → n ≤ s.reader_index
      → good ≤ tally is_stored n s.pc
  good-le-stored {s} inv done all =
      tally_mono is_got is_stored n (λ i. read_shard (readers i) offset size) s.pc
        (λ i lt h.
          is_got→is_stored (s.pc i) (read_shard (readers i) offset size) (inv.found i)
            (read_shard-IsFull i lt) (inv.started i (omega arith))
            (tally_none is_active n s.pc done.quiet i lt) h)

  -- At the end the buffers suffice if the good readers do.
  good→stored :
      {s : Reading}
      → Inv readers n data_blocks offset size s
      → IsDone n s
      → data_blocks ≤ good
      → data_blocks ≤ tally is_stored n s.pc
  good→stored {s} inv done enough =
      elim (why_left n data_blocks s.phase _ inv.lost _ s.reader_index done.left inv.at_phase) [
        | inl stored ↦ stored
        | inr all ↦ omega (arith, good-le-stored inv done all)
      ]

  -- When parallelReader.Read is done, in every interleaving, it returns the buffers exactly if at
  -- least data_blocks readers give their shard, and else the quorum error; each buffer is empty or
  -- what its reader gave. A reader that succeeds fills its buffer, a shard has a byte, and there
  -- is a data block.
  pub read_decides :
      {s : Reading} (i : ℕ)
      → Reach readers n data_blocks offset size s
      → IsDone n s
      → (read_result n data_blocks s
          ≡ (if leb data_blocks good then ok (listed s.pc 0 n) else err write_quorum))
        × FromReader (read_shard (readers i) offset size) (buffered (s.pc i))
  unfolding read_result can_decode
  read_decides {s} i r done = (decides, Found-FromReader (s.pc i) _ ((state-Inv r).found i))
    where
      decides :
          read_result n data_blocks s
          ≡ (if leb data_blocks good then ok (listed s.pc 0 n) else err write_quorum)
      decides = elim (dec_lt good data_blocks) [
        | yes few ↦ ground (arith, stored-le-good (state-Inv r))
        | no enough ↦ ground (arith, good→stored (state-Inv r) done (omega arith))
      ]
