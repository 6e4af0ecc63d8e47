-- ===== src/Object/Put/Written.antt =====
-- writePart as a whole, and the shards that the drives hold after it.
use mini_minio.Prelude.{
  ℕ, ◌≤◌, ◌<◌, ◌≡◌, refl, sym, subst, ap, ◌∙◌, Option, none, some, List, map, length, All, All₂,
  arith,
}
use mini_minio.Prelude.Text.{Text}
use mini_minio.Prelude.Errors.{Error, Result, ok, err}
use mini_minio.Erasure.{Geometry}
use mini_minio.Erasure.Reader.{Bytes}
use mini_minio.Erasure.Coder.{Coder, encode_data}
use mini_minio.Erasure.Encode.{Source, Slot, encode}
use mini_minio.Erasure.Encode.Ends.{IsEnd, encode_same}
use mini_minio.Erasure.Encode.Blocks.{object_blocks}
use mini_minio.Erasure.Encode.Durable.{columns, healthy, encode_durable}
use mini_minio.Object.Placement.{hash_order}
use mini_minio.Object.Placement.Rotation.{shuffle_disks-put_back}
use mini_minio.Object.Commit.{write_quorum_of}
use mini_minio.Object.Put.{
  ShardFiles, Opened, all_open, open_failed, open_files, to_slots, close_files, write_ordered,
  put_back, write_part,
}
use mini_minio.Object.Put.Keep.{slot_value, encode-values}
use mini_minio.Object.Put.Stored.{
  IsStored, Held, IsNew, All-map, length-to_slots, open_files-IsNew, slots-content,
  close_files-Held,
}

-- EncodeData gives these shards of the blocks of an object, one for each of `n` drives.
abbrev pub AreShards :
    Geometry → Coder → (block : ℕ) → Bytes → (all : List (List Bytes)) → ℕ → Type 0
AreShards e c block d all n =
    All₂ (λ b shards. (encode_data e c b ≡ ok shards) × (length shards ≡ n)) (object_blocks block d)
      all

module _ {D W : Type 0} (files : ShardFiles D W) (data_of : Text → D → Bytes)
    (stored : IsStored files data_of) where
  open stored use {content, dir_of}

  module _ (e : Geometry) (c : Coder) (ctx_err : ℕ → Option Error) (bucket object data_dir : Text)
      (part block : ℕ) (pos : 0 < block) (src : Source) (all : List (List Bytes)) where
    -- All of the source was taken, up to its end.
    abbrev pub IsTaken : ℕ → Type 0
    IsTaken n = (n ≡ length src.rest) × IsEnd src.fail

    -- The drives after a write, whole shards on a write quorum of them.
    abbrev pub IsWritten : ℕ → List D → Type 0
    IsWritten n ordered =
        (k : ℕ) × (write_quorum_of e.data_blocks e.parity_blocks ≤ k)
        × Held (data_of data_dir) ordered (columns n all) k

    write_slots-Held :
        (n total : ℕ) (ws : List W) (slots : List (Slot W))
        → length ws ≡ n
        → All (IsNew files data_of stored data_dir) ws
        → AreShards e c block src.rest all n
        → encode files.write
            (write_quorum_of e.data_blocks e.parity_blocks)
            e
            c
            ctx_err
            block
            src
            (to_slots ws)
          ≡ (ok total, slots)
        → (close_files files slots).0 ≡ none
        → IsTaken total × IsWritten n (close_files files slots).1
    write_slots-Held n total ws slots count new enc h closed =
        let quorum = write_quorum_of e.data_blocks e.parity_blocks in
        let size : length (to_slots ws) ≡ n = length-to_slots ws ∙ count in
        let (ending, same) =
          encode_same files.write quorum e c ctx_err block pos src (to_slots ws) slots h in
        let (whole, kept, met) =
          encode_durable files.write content stored.appends quorum e c (λ i. none) block src.rest
            all (to_slots ws) slots (λ i. refl) pos
            (subst (AreShards e c block src.rest all) (sym size) enc) same in
        let (empty, dirs) = slots-content files data_of stored data_dir ws new in
        let kept_dirs =
          sym (ap (λ r. map (slot_value dir_of) r.1) h)
          ∙ encode-values files.write dir_of stored.same_dir quorum e c ctx_err block src
              (to_slots ws) in
        let dirs' =
          All-map (slot_value dir_of) (some data_dir) slots (to_slots ws) kept_dirs dirs in
        (
          (whole, ending),
          (
            healthy slots,
            met,
            subst
                (λ k.
                  Held (data_of data_dir) (close_files files slots).1 (columns k all)
                    (healthy slots))
                size (close_files-Held files data_of stored data_dir kept empty dirs' closed),
          ),
        )

    write_ordered-Held :
        (n total : ℕ) (ordered : List D)
        → length ordered ≡ n
        → AreShards e c block src.rest all n
        → let (r, ordered') =
            write_ordered files e c ctx_err bucket object data_dir part block ordered src in
          r ≡ ok total → IsTaken total × IsWritten n ordered'
    unfolding write_ordered
    write_ordered-Held n total ordered count enc =
        by_opened (open_files files (files.create bucket object data_dir part) ordered) refl
      where
        by_closed :
            (ws : List W) (r : Result ℕ) (closed : Option Error) (slots : List (Slot W))
            → (length ws ≡ n) × All (IsNew files data_of stored data_dir) ws
            → encode files.write
                (write_quorum_of e.data_blocks e.parity_blocks)
                e
                c
                ctx_err
                block
                src
                (to_slots ws)
              ≡ (r, slots)
            → (close_files files slots).0 ≡ closed
            → let end : Result ℕ = elim r [
              | err x ↦ err x
              | ok n ↦ elim closed [ some x ↦ err x | none ↦ ok n ]
            ] in
              end ≡ ok total → IsTaken total × IsWritten n (close_files files slots).1
        by_closed ws (err x) closed slots new er ec h = absurd (ground (arith, h))
        by_closed ws (ok m) (some x) slots new er ec h = absurd (ground (arith, h))
        by_closed ws (ok m) none slots new er ec h =
            let (size, written) = write_slots-Held n m ws slots new.0 new.1 enc er ec in
            ((ground (arith, h, size.0), size.1), written)

        by_opened :
            (o : Opened D W)
            → open_files files (files.create bucket object data_dir part) ordered ≡ o
            → let (r, ordered') =
                write_ordered files e c ctx_err bucket object data_dir part block ordered src in
              r ≡ ok total → IsTaken total × IsWritten n ordered'
        by_opened (open_failed x ds) eq = rw (eq, write_ordered) (λ h. absurd (ground (arith, h)))
        by_opened (all_open ws) eq =
            let (size, new) =
              open_files-IsNew files data_of stored bucket object data_dir part ordered ws eq in
            rw (eq, write_ordered) (by_closed ws _ _ _ (size ∙ count, new) refl refl)

    -- writePart
    pub write_part-Held :
        (crc total : ℕ) (nil_disk : D) (drives : List D)
        → AreShards e c block src.rest all (length drives)
        → let (r, written) =
            write_part files e c ctx_err bucket object data_dir part block crc nil_disk drives
              src in
          r ≡ ok total
          → IsTaken total
            × ((ordered : List D) × IsWritten (length drives) ordered
                × (written ≡ put_back nil_disk (hash_order crc (length drives)) ordered))
    unfolding write_part
    write_part-Held crc total nil_disk drives enc =
        let (ordered, shuffled, size, back) = shuffle_disks-put_back nil_disk drives crc in
        rw (shuffled, write_part)
          (λ h.
            let (whole, written) = write_ordered-Held (length drives) total ordered size enc h in
            (whole, (_, written, refl)))
