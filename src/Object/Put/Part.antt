-- ===== src/Object/Put/Part.antt =====
-- writePart, and what a drive keeps beside the file of the part.
use mini_minio.Prelude.{
  ℕ, zero, suc, ◌-◌, ◌≡◌, refl, sym, ap, ap₂, ◌∙◌, inl, inr, Option-cases, Option, some, List, [],
  ◌∷◌, map, length, get_or, arith,
}
use mini_minio.Prelude.Text.{Text}
use mini_minio.Prelude.Errors.{Error}
use mini_minio.Erasure.{Geometry}
use mini_minio.Erasure.Reader.{Bytes}
use mini_minio.Erasure.Coder.{Coder}
use mini_minio.Erasure.Encode.{Source, Slot}
use mini_minio.Object.Placement.{hash_order}
use mini_minio.Object.Placement.Rotation.{shuffle_disks-put_back}
use mini_minio.Object.Commit.{write_quorum_of}
use mini_minio.Object.Put.{
  Creation, opened, refused, ShardFiles, Opened, all_open, open_failed, open_files, to_slots,
  close_files, write_ordered, put_back, write_part,
}
use mini_minio.Object.Put.Keep.{slot_value, encode-values}

-- The shard files are kept beside what `keep` reads of a drive: `held` reads it of the drive behind
-- an open writer.
pub record IsBeside {D W A : Type 0} (files : ShardFiles D W) (keep : D → A) : Type 0 where
  pub held : W → A
  pub create_keeps :
      (bucket object data_dir : Text) (part : ℕ) (d : D)
      → let r : Type 0 = elim (files.create bucket object data_dir part d) [
        | opened w ↦ held w ≡ keep d
        | refused e d' ↦ keep d' ≡ keep d
      ] in
        r
  pub write_keeps : (w : W) (b : Bytes) → held (files.write w b).1 ≡ held w
  pub close_keeps : (w : W) → keep (files.close w).1 ≡ held w

map-get_or {ℓ κ} :
    {A : Type ℓ} {B : Type κ} (f : A → B) (xs : List A) (d : A) (i : ℕ)
    → f (get_or xs i d) ≡ get_or (map f xs) i (f d)
map-get_or f [] d i = refl
map-get_or f (x ∷ xs) d zero = refl
map-get_or f (x ∷ xs) d (suc i) = map-get_or f xs d i

map-put_back :
    {D A : Type 0} (keep : D → A) (nil_disk : D) (distribution : List ℕ) (xs ys : List D)
    → map keep xs ≡ map keep ys
    → map keep (put_back nil_disk distribution xs) ≡ map keep (put_back nil_disk distribution ys)
map-put_back keep nil_disk [] xs ys h = refl
map-put_back keep nil_disk (b ∷ bs) xs ys h =
    ap₂ (λ x xs. x ∷ xs)
      (map-get_or keep xs nil_disk (b - 1)
        ∙ ap (λ zs. get_or zs (b - 1) (keep nil_disk)) h
        ∙ sym (map-get_or keep ys nil_disk (b - 1)))
      (map-put_back keep nil_disk bs xs ys h)

module _ {D W A : Type 0} (files : ShardFiles D W) (keep : D → A)
    (beside : IsBeside files keep) where
  open beside use {held}

  -- The drives behind the writers, or the drives after a failure, keep what they kept.
  abbrev SameKept : List D → Opened D W → Type 0
  SameKept ds (all_open ws) = map held ws ≡ map keep ds
  SameKept ds (open_failed e ds') = map keep ds' ≡ map keep ds

  open_files-SameKept :
      (bucket object data_dir : Text) (part : ℕ) (ds : List D)
      → SameKept ds (open_files files (files.create bucket object data_dir part) ds)
  unfolding open_files
  open_files-SameKept bucket object data_dir part [] = refl
  open_files-SameKept bucket object data_dir part (d ∷ ds) =
      by_creation (files.create bucket object data_dir part d)
        (open_files files (files.create bucket object data_dir part) ds)
        (beside.create_keeps bucket object data_dir part d)
        (open_files-SameKept bucket object data_dir part ds)
    where
      by_creation :
          (r : Creation D W) (rest : Opened D W)
          → (let h : Type 0 = elim r [
            | opened w ↦ held w ≡ keep d
            | refused e d' ↦ keep d' ≡ keep d
          ] in
              h)
          → SameKept ds rest
          → let all : Opened D W = elim r [
            | refused e d' ↦ open_failed e (d' ∷ ds)
            | opened w ↦ elim rest [
              | all_open ws ↦ all_open (w ∷ ws)
              | open_failed e ds' ↦ open_failed e ((files.close w).1 ∷ ds')
            ]
          ] in
            SameKept (d ∷ ds) all
      by_creation (refused e d') rest h same = ap (λ x. x ∷ map keep ds) h
      by_creation (opened w) (all_open ws) h same = ap₂ (λ x xs. x ∷ xs) h same
      by_creation (opened w) (open_failed e ds') h same =
          ap₂ (λ x xs. x ∷ xs) (beside.close_keeps w ∙ h) same

  slots_of : (ws : List W) → map (slot_value held) (to_slots ws) ≡ map some (map held ws)
  slots_of [] = refl
  slots_of (w ∷ ws) = ap (λ xs. some (held w) ∷ xs) (slots_of ws)

  close_files-keep :
      (slots : List (Slot W)) (kept : List A)
      → map (slot_value held) slots ≡ map some kept
      → map keep (close_files files slots).1 ≡ kept
  unfolding close_files
  close_files-keep [] [] h = refl
  close_files-keep [] (k ∷ kept) h = absurd (ground arith)
  close_files-keep (s ∷ ss) [] h = absurd (ground arith)
  close_files-keep (s ∷ ss) (k ∷ kept) h =
      let later = close_files-keep ss kept (ground arith) in
      elim (Option-cases s.writer) [
        | inl n ↦ absurd (ground arith)
        | inr (w, n) ↦
            rw (n, close_files) (ap₂ (λ x xs. x ∷ xs) (beside.close_keeps w ∙ ground arith) later)
      ]

  module _ (e : Geometry) (c : Coder) (ctx_err : ℕ → Option Error) (bucket object data_dir : Text)
      (part : ℕ) where
    write_ordered-keep :
        (block : ℕ) (ordered : List D) (src : Source)
        → map keep (write_ordered files e c ctx_err bucket object data_dir part block ordered src).1
          ≡ map keep ordered
    unfolding write_ordered
    write_ordered-keep block ordered src =
        by_opened (open_files files (files.create bucket object data_dir part) ordered)
          (open_files-SameKept bucket object data_dir part ordered) refl
      where
        by_opened :
            (o : Opened D W)
            → SameKept ordered o
            → open_files files (files.create bucket object data_dir part) ordered ≡ o
            → map keep
                (write_ordered files e c ctx_err bucket object data_dir part block ordered src).1
              ≡ map keep ordered
        by_opened (open_failed x ds) same eq = rw (eq, write_ordered) same
        by_opened (all_open ws) same eq =
            rw (eq, write_ordered)
              (close_files-keep _ (map keep ordered) (
                encode-values files.write held beside.write_keeps
                  (write_quorum_of e.data_blocks e.parity_blocks) e c ctx_err block src
                  (to_slots ws)
                ∙ slots_of ws
                ∙ ap (map some) same))

    -- writePart
    pub write_part-keep :
        (block crc : ℕ) (nil_disk : D) (drives : List D) (src : Source)
        → map keep
            (write_part files e c ctx_err bucket object data_dir part block crc nil_disk drives
              src).1
          ≡ map keep drives
    unfolding write_part
    write_part-keep block crc nil_disk drives src =
        let (ordered, shuffled, size, back) = shuffle_disks-put_back nil_disk drives crc in
        rw (shuffled, write_part)
          (map-put_back keep nil_disk (hash_order crc (length drives)) _ ordered
              (write_ordered-keep block ordered src)
            ∙ ap (map keep) back)
