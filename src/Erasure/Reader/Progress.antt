-- ===== src/Erasure/Reader/Progress.antt =====
-- The steps that are left to parallelReader.Read in a reachable state.
use mini_minio.Prelude.{
  ℕ, suc, ◌+◌, ◌-◌, ◌*◌, ◌≤◌, ◌<◌, ◌≡◌, refl, Bool, true, false, Option, List, [], ◌∷◌, length,
  arith, ◌⊎◌, inl, inr, length-append, dec_lt,
}
use mini_minio.Prelude.Family.{put_at, tally, one_if, tally-put_at, tally_zero, tally_pos}
use mini_minio.Erasure.Reader.{
  ReaderAt, read_shard, trigger_of, Pc, idle, reading, sending, finished, is_active, is_stored,
  Phase, looping, waiting, Reading, can_decode, start, Step, stop_decode, stop_exhausted, skip,
  spawn, store, send, Reach, here, next, IsDone,
}
use mini_minio.Erasure.Reader.Inv.{Inv, Reach-Inv}
use mini_minio.Erasure.Reader.Filling.{Fills}
use mini_minio.Erasure.Reader.Counts.{length-seeds, AtPhase}

abbrev is_reading : Pc → Bool
is_reading reading = true
is_reading _ = false

abbrev loop_weight : Phase → ℕ
loop_weight looping = 1
loop_weight waiting = 0

-- Steps that are left at most: three for each goroutine to be started, read and sent, one for each
-- trigger, one to leave the loop.
measure : ℕ → Reading → ℕ
measure n s =
    3 * (n - s.reader_index)
    + 2 * tally is_active n s.pc
    + tally is_reading n s.pc
    + length s.queue
    + loop_weight s.phase

abbrev pub steps :
    {readers : ℕ → Option ReaderAt} {n data_blocks offset size : ℕ} {s : Reading}
    → Reach readers n data_blocks offset size s
    → ℕ
steps here = 0
steps (next r st) = suc (steps r)

tokens-le :
    (n data_blocks : ℕ) (p : Phase) (tokens lost stored index : ℕ)
    → AtPhase n data_blocks p tokens lost stored index
    → tokens ≤ data_blocks
tokens-le n data_blocks looping tokens lost stored index h = omega arith
tokens-le n data_blocks waiting tokens lost stored index h = h.0

module _ (readers : ℕ → Option ReaderAt) (n data_blocks offset size : ℕ) where
  -- What a change at `i` does to the two counts of the measure.
  record Shift (pc : ℕ → Pc) (i : ℕ) (p p' : Pc) : Type 0 where
    active :
        tally is_active n (put_at pc i p') + one_if (is_active p)
        ≡ tally is_active n pc + one_if (is_active p')
    reads :
        tally is_reading n (put_at pc i p') + one_if (is_reading p)
        ≡ tally is_reading n pc + one_if (is_reading p')

  shift : (pc : ℕ → Pc) (i : ℕ) (p p' : Pc) → i < n → pc i ≡ p → Shift pc i p p'
  shift pc i p p' lt e = record {
    active = ground (arith, tally-put_at is_active n pc i p' lt);
    reads = ground (arith, tally-put_at is_reading n pc i p' lt);
  }

  Step-measure :
      {s t : Reading}
      → Step readers n data_blocks offset size s t
      → Inv readers n data_blocks offset size s
      → measure n t < measure n s
  unfolding measure
  Step-measure (stop_decode run e enough) inv = ground arith
  Step-measure (stop_exhausted run e few all) inv = ground arith
  Step-measure (skip run e few more) inv = ground arith
  Step-measure {s} (spawn run e few lt) inv = ground (
    arith,
    shift s.pc s.reader_index idle reading lt (inv.unstarted s.reader_index (omega arith)),
  )
  Step-measure {s} (store i lt at) inv =
      ground (arith, shift s.pc i reading (sending (read_shard (readers i) offset size)) lt at)
  Step-measure {s} (send i {o} lt at room) inv = ground (
    arith,
    shift s.pc i (sending o) (finished o) lt at,
    length-append s.queue (trigger_of o ∷ []),
  )

  measure-start : measure n (start data_blocks) ≡ 3 * n + data_blocks + 1
  unfolding measure
  measure-start = omega (
    arith,
    length-seeds data_blocks,
    tally_zero is_active n (λ i. idle) (λ i. refl),
    tally_zero is_reading n (λ i. idle) (λ i. refl),
  )

  module _ (fills : (i : ℕ) → i < n → Fills (readers i)) (size_pos : 0 < size)
      (data_pos : 0 < data_blocks) where
    state-Inv :
        {s : Reading}
        → Reach readers n data_blocks offset size s
        → Inv readers n data_blocks offset size s
    state-Inv r = Reach-Inv readers n data_blocks offset size fills size_pos data_pos r

    steps-le-measure :
        {s : Reading} (r : Reach readers n data_blocks offset size s)
        → steps r + measure n s ≤ 3 * n + data_blocks + 1
    steps-le-measure here = omega (arith, measure-start)
    steps-le-measure (next r st) = omega (arith, steps-le-measure r, Step-measure st (state-Inv r))

    -- A goroutine that runs can always go on: its send finds room in the channel.
    active-Step :
        {s : Reading} (i : ℕ) (p : Pc)
        → data_blocks ≤ n
        → Inv readers n data_blocks offset size s
        → 0 < tally is_active n s.pc
        → i < n
        → s.pc i ≡ p
        → is_active p ≡ true
        → (t : Reading) × Step readers n data_blocks offset size s t
    active-Step i idle few inv some_active lt at a = absurd (cc)
    active-Step i reading few inv some_active lt at a = (_, store i lt at)
    active-Step {s} i (sending o) few inv some_active lt at a = (
      _,
      send i lt at (omega (arith, tokens-le n data_blocks s.phase _ inv.lost _ _ inv.at_phase)),
    )
    active-Step i (finished o) few inv some_active lt at a = absurd (cc)

    -- With no goroutine running, the loop itself can go on.
    loop-Step :
        {s : Reading} (q : List Bool) (enough : Bool)
        → Inv readers n data_blocks offset size s
        → s.phase ≡ looping
        → s.queue ≡ q
        → 0 < length q
        → can_decode n data_blocks s.pc ≡ enough
        → (t : Reading) × Step readers n data_blocks offset size s t
    loop-Step [] enough inv run e pos d = absurd (omega arith)
    loop-Step (t ∷ q) true inv run e pos d = (_, stop_decode run e d)
    loop-Step {s} (t ∷ q) false inv run e pos d = elim (dec_lt s.reader_index n) [
      | no all ↦ (_, stop_exhausted run e d (omega arith))
      | yes more ↦ by_trigger t e more
    ]
      where
        by_trigger :
            (t : Bool)
            → s.queue ≡ t ∷ q
            → s.reader_index < n
            → (t' : Reading) × Step readers n data_blocks offset size s t'
        by_trigger true e more = (_, spawn run e d more)
        by_trigger false e more = (_, skip run e d more)

    phase-Step :
        {s : Reading} (p : Phase) (lost : ℕ)
        → Inv readers n data_blocks offset size s
        → s.phase ≡ p
        → tally is_active n s.pc ≡ 0
        → AtPhase n data_blocks p
            (length s.queue + tally is_active n s.pc + lost)
            lost
            (tally is_stored n s.pc)
            s.reader_index
        → IsDone n s ⊎ ((t : Reading) × Step readers n data_blocks offset size s t)
    phase-Step waiting lost inv e quiet h = inl (record { left = e; quiet = quiet })
    phase-Step {s} looping lost inv e quiet h =
        inr (loop-Step s.queue (can_decode n data_blocks s.pc) inv e refl (omega arith) refl)

    -- In every reachable state of parallelReader.Read it has returned or some step is possible,
    -- with at most as many data blocks as readers. A reader that succeeds fills its buffer, a
    -- shard has a byte, and there is a data block.
    pub read_progress :
        {s : Reading}
        → data_blocks ≤ n
        → Reach readers n data_blocks offset size s
        → IsDone n s ⊎ ((t : Reading) × Step readers n data_blocks offset size s t)
    read_progress {s} few r = elim (dec_lt 0 (tally is_active n s.pc)) [
      | yes pos ↦
          let (i, lt, a) = tally_pos is_active n s.pc pos in
          inr (active-Step i (s.pc i) few (state-Inv r) pos lt refl a)
      | no quiet ↦
          phase-Step s.phase (state-Inv r).lost (state-Inv r) refl (omega arith)
            (state-Inv r).at_phase
    ]

    -- Every run of the read loop over n readers has at most 3 n + data_blocks + 1 steps. A reader
    -- that succeeds fills its buffer, a shard has a byte, and there is a data block.
    pub read_ends :
        {s : Reading} (r : Reach readers n data_blocks offset size s)
        → steps r ≤ 3 * n + data_blocks + 1
    read_ends r = omega (arith, steps-le-measure r)
