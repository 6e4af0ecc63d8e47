-- ===== src/Object/Put/Stored.antt =====
-- The shard files that writePart opens and closes, and what the drives hold after it.

use mini_minio.Prelude.{
  ℕ, suc, ◌≡◌, refl, sym, subst, ap, ◌∙◌, inl, inr, true, false, Option-cases, none, some, List, [],
  ◌∷◌, ◌++◌, map, length, All, arith,
}
use mini_minio.Prelude.Text.{Text}
use mini_minio.Prelude.Errors.{ok}
use mini_minio.Erasure.Reader.{Bytes}
use mini_minio.Erasure.Encode.{Slot}
use mini_minio.Erasure.Encode.Durable.{Stored, nil, cons, healthy, is_healthy}
use mini_minio.Object.Put.{
  Creation, opened, refused, ShardFiles, Opened, all_open, open_failed, open_files, to_slots,
  close_files,
}
use mini_minio.Object.Put.Keep.{slot_value}

-- A new shard file is empty; a write that reports the full length has appended its bytes; and where
-- Close returns no error, the directory of the file holds what was written. `content` is what an
-- open file was given, and `dir_of` its directory.
pub record IsStored {D W : Type 0} (files : ShardFiles D W) (data_of : Text → D → Bytes)
    : Type 0 where
  pub content : W → Bytes
  pub dir_of : W → Text
  pub opens :
      (bucket object data_dir : Text) (part : ℕ) (d : D) (w : W)
      → files.create bucket object data_dir part d ≡ opened w
      → (content w ≡ []) × (dir_of w ≡ data_dir)
  pub appends :
      (w : W) (b : Bytes)
      → (files.write w b).0 ≡ ok (length b)
      → content (files.write w b).1 ≡ content w ++ b
  pub same_dir : (w : W) (b : Bytes) → dir_of (files.write w b).1 ≡ dir_of w
  pub closed : (w : W) → (files.close w).0 ≡ none → data_of (dir_of w) (files.close w).1 ≡ content w

-- The drives beside their shards, with the number of those that hold the whole shard.
pub data Held {D : Type 0} (data_of : D → Bytes) : List D → List Bytes → ℕ → Type 0 where
  no_drives : Held data_of [] [] 0
  holds :
      {d : D} {b : Bytes} {ds : List D} {bs : List Bytes} {n : ℕ}
      → data_of d ≡ b
      → Held data_of ds bs n
      → Held data_of (d ∷ ds) (b ∷ bs) (suc n)
  fails :
      {d : D} {b : Bytes} {ds : List D} {bs : List Bytes} {n : ℕ}
      → Held data_of ds bs n
      → Held data_of (d ∷ ds) (b ∷ bs) n

pub All-map :
    {A B : Type 0} (f : A → B) (b : B) (xs ys : List A)
    → map f xs ≡ map f ys
    → All (λ y. f y ≡ b) ys
    → All (λ x. f x ≡ b) xs
All-map f b [] ys h all = tt
All-map f b (x ∷ xs) [] h all = absurd (ground arith)
All-map f b (x ∷ xs) (y ∷ ys) h all =
    (ground (arith, all.0), All-map f b xs ys (ground arith) all.1)

pub length-to_slots : {W : Type 0} (ws : List W) → length (to_slots ws) ≡ length ws
length-to_slots [] = refl
length-to_slots (w ∷ ws) = ap suc (length-to_slots ws)

module _ {D W : Type 0} (files : ShardFiles D W) (data_of : Text → D → Bytes)
    (stored : IsStored files data_of) where
  open stored use {content, dir_of}

  -- The open files are new files of the directory, one for each drive.
  abbrev pub IsNew : Text → W → Type 0
  IsNew data_dir w = (content w ≡ []) × (dir_of w ≡ data_dir)

  pub open_files-IsNew :
      (bucket object data_dir : Text) (part : ℕ) (ds : List D) (ws : List W)
      → open_files files (files.create bucket object data_dir part) ds ≡ all_open ws
      → (length ws ≡ length ds) × All (IsNew data_dir) ws
  unfolding open_files
  open_files-IsNew bucket object data_dir part [] [] h = (refl, tt)
  open_files-IsNew bucket object data_dir part [] (w ∷ ws) h = absurd (ground arith)
  open_files-IsNew bucket object data_dir part (d ∷ ds) ws h =
      by_creation (files.create bucket object data_dir part d)
        (open_files files (files.create bucket object data_dir part) ds) refl refl
        (λ ws' e. open_files-IsNew bucket object data_dir part ds ws' e)
    where
      by_creation :
          (r : Creation D W) (rest : Opened D W)
          → files.create bucket object data_dir part d ≡ r
          → open_files files (files.create bucket object data_dir part) ds ≡ rest
          → ((ws' : List W)
              → open_files files (files.create bucket object data_dir part) ds ≡ all_open ws'
              → (length ws' ≡ length ds) × All (IsNew data_dir) ws')
          → (length ws ≡ length (d ∷ ds)) × All (IsNew data_dir) ws
      by_creation (refused e d') rest er eo later = absurd (ground (arith, h, er))
      by_creation (opened w) (open_failed e ds') er eo later = absurd (ground (arith, h, er, eo))
      by_creation (opened w) (all_open ws') er eo later =
          let (size, new) = later ws' eo in
          let same : w ∷ ws' ≡ ws = ground (arith, h, er, eo) in
          subst (λ l. (length l ≡ length (d ∷ ds)) × All (IsNew data_dir) l) same
            (ap suc size, (stored.opens bucket object data_dir part d w er, new))

  pub slots-content :
      (data_dir : Text) (ws : List W)
      → All (IsNew data_dir) ws
      → All (λ s. slot_value content s ≡ some []) (to_slots ws)
        × All (λ s. slot_value dir_of s ≡ some data_dir) (to_slots ws)
  slots-content data_dir [] h = (tt, tt)
  slots-content data_dir (w ∷ ws) ((empty, dir), h) =
      let (a, b) = slots-content data_dir ws h in ((ap some empty, a), (ap some dir, b))

  -- One slot more: its drive holds its column, if the slot is healthy.
  close_one-Held :
      (data_dir : Text) (s : Slot W) (c : Bytes) (ss : List (Slot W)) (cs : List Bytes)
      → slot_value dir_of s ≡ some data_dir
      → ((w : W) → s.failure ≡ none → s.writer ≡ some w → content w ≡ c)
      → ((close_files files ss).0 ≡ none
          → Held (data_of data_dir) (close_files files ss).1 cs (healthy ss))
      → (close_files files (s ∷ ss)).0 ≡ none
      → Held (data_of data_dir) (close_files files (s ∷ ss)).1 (c ∷ cs) (healthy (s ∷ ss))
  unfolding close_files
  close_one-Held data_dir s c ss cs dir whole later h = elim (Option-cases s.writer) [
    | inl n ↦ absurd (ground (arith, dir, n))
    | inr (w, n) ↦
        let rest = later (ground (arith, h, n)) in
        elim (Option-cases s.failure) [
          | inr (x, f) ↦
              let sick : is_healthy s ≡ false = ground arith in
              rw sick (rw (n, close_files) (fails rest))
          | inl f ↦
              let well : is_healthy s ≡ true = ground (arith, n, f) in
              let done : (files.close w).0 ≡ none = ground (arith, h, n) in
              let same : dir_of w ≡ data_dir = ground (arith, dir, n) in
              let held =
                ap (λ t. data_of t (files.close w).1) (sym same)
                ∙ stored.closed w done
                ∙ whole w f n in
              rw well (rw (n, close_files) (holds held rest))
        ]
  ]

  -- The files were closed without an error: a healthy slot's drive holds its column.
  pub close_files-Held :
      (data_dir : Text) {before slots : List (Slot W)} {cols : List Bytes}
      → Stored files.write content stored.appends before cols slots
      → All (λ s. slot_value content s ≡ some []) before
      → All (λ s. slot_value dir_of s ≡ some data_dir) slots
      → (close_files files slots).0 ≡ none
      → Held (data_of data_dir) (close_files files slots).1 cols (healthy slots)
  unfolding close_files
  close_files-Held data_dir nil empty dirs h = no_drives
  close_files-Held data_dir (cons {s' = s'} {c = c} {ss' = ss'} {cs = cs} kept rest) empty dirs h =
      close_one-Held data_dir s' c ss' cs dirs.0
        (λ w f n.
          let (v, _, e, grown) = kept w f n in
          let start : content v ≡ [] = ground (arith, empty.0, e) in grown ∙ ap (λ b. b ++ c) start)
        (λ e. close_files-Held data_dir rest empty.1 dirs.1 e) h
