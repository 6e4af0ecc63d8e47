-- ===== src/Erasure/Reader/Inv.antt =====
-- The invariant of the read loop: how many triggers are in flight, and what the buffers hold.
use mini_minio.Prelude.{
  ℕ, suc, ◌+◌, ◌≤◌, ◌<◌, ◌≡◌, refl, Bool, true, false, Option, List, [], ◌∷◌, ◌++◌, length, arith,
  ◌⊎◌, inl, inr,
}
use mini_minio.Prelude.Family.{put_at, tally, tally_zero}
use mini_minio.Erasure.Reader.{
  ReaderAt, Outcome, read_shard, trigger_of, Pc, idle, reading, sending, finished, is_active,
  is_stored, looping, waiting, Reading, can_decode, start, Step, stop_decode, stop_exhausted, skip,
  spawn, store, send, Reach, here, next,
}
use mini_minio.Erasure.Reader.Filling.{Fills, IsFull, Found, is_idle, Fills-IsFull}
use mini_minio.Erasure.Reader.Counts.{
  falses, falses-seeds, length-seeds, is_unsent, Moved, moved, Stored, storing, Sent, sent, AtPhase,
  AtPhase-mono,
}

module _ (readers : ℕ → Option ReaderAt) (n data_blocks offset size : ℕ) where
  pub record Inv (s : Reading) : Type 0 where
    pub lost : ℕ
    pub index_le : s.reader_index ≤ n
    pub started : (i : ℕ) → i < s.reader_index → is_idle (s.pc i) ≡ false
    pub unstarted : (i : ℕ) → s.reader_index ≤ i → s.pc i ≡ idle
    pub found : (i : ℕ) → Found (read_shard (readers i) offset size) (s.pc i)
    pub successes : falses s.queue + tally is_unsent n s.pc + lost ≤ tally is_stored n s.pc
    pub at_phase :
        AtPhase n data_blocks s.phase
          (length s.queue + tally is_active n s.pc + lost)
          lost
          (tally is_stored n s.pc)
          s.reader_index

  can_decode→le :
      (pc : ℕ → Pc) → can_decode n data_blocks pc ≡ true → data_blocks ≤ tally is_stored n pc
  unfolding can_decode
  can_decode→le pc e = ground arith

  cannot_decode→lt :
      (pc : ℕ → Pc) → can_decode n data_blocks pc ≡ false → tally is_stored n pc < data_blocks
  unfolding can_decode
  cannot_decode→lt pc e = ground arith

  store-Inv :
      {s : Reading} (i : ℕ) (o : Outcome)
      → i < n
      → s.pc i ≡ reading
      → o ≡ read_shard (readers i) offset size
      → IsFull o
      → Inv s
      → Inv (record s { pc = put_at s.pc i (sending o) })
  store-Inv {s} i o lt at e full inv = record {
    lost = inv.lost;
    index_le = inv.index_le;
    started = λ j h. ground (arith, inv.started j h);
    unstarted = λ j h. ground (arith, inv.unstarted i, inv.unstarted j h);
    found = λ j. ground (arith, inv.found j);
    successes = omega (arith, stored, owed);
    at_phase =
        AtPhase-mono n data_blocks s.phase inv.lost s.reader_index (omega (arith, active)) stored
          inv.at_phase;
  }
    where
      counts : Stored n s.pc i o
      counts = storing n s.pc i o full (moved n s.pc i reading (sending o) lt at)

      open counts use {active, stored, owed}

  send-Inv :
      {s : Reading} (i : ℕ) (o : Outcome)
      → i < n
      → s.pc i ≡ sending o
      → Inv s
      → Inv (record s { queue = s.queue ++ trigger_of o ∷ []; pc = put_at s.pc i (finished o) })
  send-Inv {s} i o lt at inv = record {
    lost = inv.lost;
    index_le = inv.index_le;
    started = λ j h. ground (arith, inv.started j h);
    unstarted = λ j h. ground (arith, inv.unstarted i, inv.unstarted j h);
    found = λ j. ground (arith, inv.found i, inv.found j);
    successes = omega (arith, stored, owed);
    at_phase =
        AtPhase-mono n data_blocks s.phase inv.lost s.reader_index (omega (arith, tokens))
          (omega (arith, stored)) inv.at_phase;
  }
    where
      counts : Sent n s.queue s.pc i o
      counts = sent n s.queue s.pc i o (moved n s.pc i (sending o) (finished o) lt at)

      open counts use {tokens, stored, owed}

  spawn-Inv :
      {s : Reading} {q : List Bool}
      → s.phase ≡ looping
      → s.queue ≡ true ∷ q
      → s.reader_index < n
      → Inv s
      → Inv (record s {
        queue = q;
        reader_index = s.reader_index + 1;
        pc = put_at s.pc s.reader_index reading;
      })
  unfolding falses
  spawn-Inv {s} {q} run e lt inv = record {
    lost = inv.lost;
    index_le = omega arith;
    started = λ j h. ground (arith, inv.started j);
    unstarted = λ j h. ground (arith, inv.unstarted j);
    found = λ j. ground (arith, inv.found j);
    successes = ground (arith, inv.successes, m.stored, m.unsent);
    at_phase = ground (arith, inv.at_phase, m.active);
  }
    where
      m : Moved n s.pc s.reader_index idle reading
      m = moved n s.pc s.reader_index idle reading lt (inv.unstarted s.reader_index (omega arith))

  skip-Inv :
      {s : Reading} {q : List Bool}
      → s.phase ≡ looping
      → s.queue ≡ false ∷ q
      → can_decode n data_blocks s.pc ≡ false
      → Inv s
      → Inv (record s { queue = q })
  unfolding falses
  skip-Inv {s} {q} run e few inv = record {
    lost = suc inv.lost;
    index_le = inv.index_le;
    started = inv.started;
    unstarted = inv.unstarted;
    found = inv.found;
    successes = ground (arith, inv.successes);
    at_phase = ground (arith, inv.at_phase, inv.successes, cannot_decode→lt s.pc few);
  }

  stop-Inv :
      {s : Reading} {t : Bool} {q : List Bool}
      → s.phase ≡ looping
      → s.queue ≡ t ∷ q
      → (data_blocks ≤ tally is_stored n s.pc) ⊎ (n ≤ s.reader_index)
      → Inv s
      → Inv (record s { phase = waiting; queue = q })
  unfolding falses
  stop-Inv {s} {t} {q} run e why inv = record {
    lost = inv.lost;
    index_le = inv.index_le;
    started = inv.started;
    unstarted = inv.unstarted;
    found = inv.found;
    successes = ground (arith, inv.successes);
    at_phase = (ground (arith, inv.at_phase), why);
  }

  start-Inv : 0 < data_blocks → Inv (start data_blocks)
  unfolding falses
  start-Inv pos = record {
    lost = 0;
    index_le = omega arith;
    started = λ i h. absurd (omega arith);
    unstarted = λ i h. refl;
    found = λ i. tt;
    successes =
        omega (arith, falses-seeds data_blocks, tally_zero is_unsent n (λ i. idle) (λ i. refl));
    at_phase =
        omega (arith, length-seeds data_blocks, tally_zero is_active n (λ i. idle) (λ i. refl));
  }

  -- Each read with a nil error, of a size above 0, puts something into its buffer.
  module _ (full : (i : ℕ) → i < n → IsFull (read_shard (readers i) offset size)) where
    pub Step-Inv : {s t : Reading} → Step readers n data_blocks offset size s t → Inv s → Inv t
    Step-Inv {s} (stop_decode run e enough) inv =
        stop-Inv run e (inl (can_decode→le s.pc enough)) inv
    Step-Inv (stop_exhausted run e few all) inv = stop-Inv run e (inr all) inv
    Step-Inv (skip run e few more) inv = skip-Inv run e few inv
    Step-Inv (spawn run e few lt) inv = spawn-Inv run e lt inv
    Step-Inv (store i lt at) inv = store-Inv i _ lt at refl (full i lt) inv
    Step-Inv (send i {o} lt at room) inv = send-Inv i o lt at inv

    Reach-Inv_of_full :
        {s : Reading} → 0 < data_blocks → Reach readers n data_blocks offset size s → Inv s
    Reach-Inv_of_full pos here = start-Inv pos
    Reach-Inv_of_full pos (next r st) = Step-Inv st (Reach-Inv_of_full pos r)

  -- The invariant holds in every reachable state of a reader whose drives fill the buffers.
  pub Reach-Inv :
      {s : Reading}
      → ((i : ℕ) → i < n → Fills (readers i))
      → 0 < size
      → 0 < data_blocks
      → Reach readers n data_blocks offset size s
      → Inv s
  Reach-Inv fills pos data_pos r =
      Reach-Inv_of_full (λ i lt. Fills-IsFull (readers i) offset size pos (fills i lt)) data_pos r
