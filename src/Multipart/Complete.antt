-- ===== src/Multipart/Complete.antt =====
-- CompleteMultipartUpload: what it selects, and what it leaves on the drives.
use mini_minio.Prelude.{
  ℕ, suc, ◌<◌, ◌≤◌, ◌≡◌, refl, inl, inr, Bool, true, false, ◌==◌, Option-cases, Option, List, [],
  ◌∷◌, length, All, All₂, if◌then◌else◌, arith,
}
use mini_minio.Prelude.Text.{Text}
use mini_minio.Prelude.Errors.{Error, Result, ok, err, ◌>>=◌, unless, duplicate_part, no_parts}
use mini_minio.Erasure.{Geometry}
use mini_minio.Object.Meta.{XlMeta, Api, ObjectPartInfo}
use mini_minio.Object.Commit.{write_quorum_of, commit_meta}
use mini_minio.Object.Commit.Safe.{IsDrive, Commits, commit_meta_lem}
use mini_minio.Object.Put.{old_meta_of}
use mini_minio.Object.Commit.Safe.{write_quorum_of-pos}
use mini_minio.Multipart.{
  MultipartState, Formats, UploadApi, contains, collect_parts, read_multipart_state,
  read_multipart_part, read_object_meta, multipart_meta, select_parts, delete_upload,
  complete_multipart_upload,
}

-- No number stands twice.
abbrev pub Unique : List ℕ → Type 0
Unique [] = Unit {0}
Unique (n ∷ ns) = (contains n ns ≡ false) × Unique ns

-- The part that was read under a number.
abbrev pub IsPart : (ℕ → Result ObjectPartInfo) → ℕ → ObjectPartInfo → Type 0
IsPart read n part = read n ≡ ok part

module _ (read : ℕ → Result ObjectPartInfo) where
  -- None of the numbers stands in `seen`.
  abbrev IsUnseen : List ℕ → List ℕ → Type 0
  IsUnseen seen = All (λ n. contains n seen ≡ false)

  IsUnseen-drop :
      (n : ℕ) (seen ns : List ℕ)
      → IsUnseen (n ∷ seen) ns
      → IsUnseen seen ns × (contains n ns ≡ false)
  IsUnseen-drop n seen [] h = (tt, refl)
  IsUnseen-drop n seen (m ∷ ns) (h, hs) =
      let (rest, later) = IsUnseen-drop n seen ns hs in
      ((ground (arith, h), rest), ground (arith, h, later))

  abbrev IsSelection : (seen numbers : List ℕ) → Result (List ObjectPartInfo) → Type 0
  IsSelection seen numbers (err x) = Unit {0}
  IsSelection seen numbers (ok parts) =
      All₂ (IsPart read) numbers parts × Unique numbers × IsUnseen seen numbers

  collect_parts_lem :
      (seen numbers : List ℕ) → IsSelection seen numbers (collect_parts read seen numbers)
  unfolding collect_parts
  collect_parts_lem seen [] = (tt, tt, tt)
  collect_parts_lem seen (n ∷ ns) =
      add_part (contains n seen) refl (read n) refl (collect_parts read (n ∷ seen) ns)
        (collect_parts_lem (n ∷ seen) ns)
    where
      add_part :
          (b : Bool)
          → contains n seen ≡ b
          → (r : Result ObjectPartInfo) → read n ≡ r
          → (rest : Result (List ObjectPartInfo)) → IsSelection (n ∷ seen) ns rest
          → IsSelection seen
              (n ∷ ns)
              (if b then err duplicate_part else r >>= λ part. rest >>= λ parts. ok (part ∷ parts))
      add_part true e r h rest more = tt
      add_part false e (err x) h rest more = tt
      add_part false e (ok part) h (err x) more = tt
      add_part false e (ok part) h (ok parts) (all, unique, unseen) =
          let (others, later) = IsUnseen-drop n seen ns unseen in
          ((h, all), (later, unique), (e, others))

module _ {D : Type 0} (uploads : UploadApi D) (formats : Formats) (e : Geometry)
    (bucket object upload_id : Text) (api : Api D) (drive : IsDrive api bucket object)
    (ctx_err : Text → ℕ → Option Error) where
  -- What CompleteMultipartUpload has checked before it commits.
  pub record Selected (numbers : List ℕ) (drives : List D) (state : MultipartState)
      (parts : List ObjectPartInfo) : Type 0 where
    pub state_read :
        read_multipart_state uploads formats e bucket object upload_id ctx_err drives ≡ ok state
    pub parts_read :
        All₂
          (IsPart (read_multipart_part uploads formats e bucket object upload_id ctx_err drives))
          numbers
          parts
    pub unique : Unique numbers
    pub some_part : 0 < length parts

  abbrev AreSelected :
      List ℕ → List D → Result (MultipartState × List ObjectPartInfo × Option XlMeta) → Type 0
  AreSelected numbers drives (err x) = Unit {0}
  AreSelected numbers drives (ok (state, parts, old)) = Selected numbers drives state parts

  select_parts_lem :
      (numbers : List ℕ) (drives : List D)
      → AreSelected numbers drives
          (select_parts uploads formats e bucket object upload_id api ctx_err numbers drives)
  unfolding select_parts
  select_parts_lem numbers drives =
      by_results (read_multipart_state uploads formats e bucket object upload_id ctx_err drives)
        refl (collect_parts read [] numbers) (collect_parts_lem read [] numbers)
        (old_meta_of (read_object_meta uploads formats e bucket object upload_id api drives))
    where
      read : ℕ → Result ObjectPartInfo
      read = read_multipart_part uploads formats e bucket object upload_id ctx_err drives

      by_results :
          (s : Result MultipartState)
          → read_multipart_state uploads formats e bucket object upload_id ctx_err drives ≡ s
          → (r : Result (List ObjectPartInfo)) → IsSelection read [] numbers r
          → (o : Result (Option XlMeta))
          → AreSelected numbers drives (
              s >>= λ state. r >>= λ parts.
              if length parts == 0 then err no_parts else (o >>= λ old. ok (state, parts, old)))
      by_results (err x) h r all o = tt
      by_results (ok state) h (err x) all o = tt
      by_results (ok state) h (ok []) all o = tt
      by_results (ok state) h (ok (p ∷ ps)) all (err x) =
          let many : (suc (length ps) == 0) ≡ false = ground arith in rw many tt
      by_results (ok state) h (ok (p ∷ ps)) all (ok old) =
          let many : (suc (length ps) == 0) ≡ false = ground arith in
          rw many
            (record { state_read = h; parts_read = all.0; unique = all.1; some_part = omega arith })

  -- What CompleteMultipartUpload leaves: nothing changed, or the outcome of the commit of an
  -- object that has exactly the selected parts. The upload is deleted after a commit only.
  pub data Completion (meta_of_parts : MultipartState → List ObjectPartInfo → XlMeta)
      (numbers : List ℕ) (drives : List D) : Result XlMeta → List D → Type 0 where
    refused : (x : Error) → Completion meta_of_parts numbers drives (err x) drives
    not_committed :
        (state : MultipartState) (parts : List ObjectPartInfo) (n : ℕ) (x : Error)
        (drives' : List D)
        → Selected numbers drives state parts
        → Commits api bucket object drive (meta_of_parts state parts) 0 drives drives' n
        → n < write_quorum_of e.data_blocks e.parity_blocks
        → Completion meta_of_parts numbers drives (err x) drives'
    committed :
        (state : MultipartState) (parts : List ObjectPartInfo) (n : ℕ) (mid : List D)
        → Selected numbers drives state parts
        → Commits api bucket object drive (meta_of_parts state parts) 0 drives mid n
        → write_quorum_of e.data_blocks e.parity_blocks ≤ n
        → Completion meta_of_parts numbers drives
            (unless
              (delete_upload uploads formats e bucket object upload_id mid).0
              (meta_of_parts state parts))
            (delete_upload uploads formats e bucket object upload_id mid).1

  -- CompleteMultipartUpload on drives that keep their files, with a positive number of data
  -- blocks: it fails and no drive has changed, or it commits the metadata of an object that has
  -- exactly the parts which it read under the selected numbers, no number twice and at least one;
  -- below a write quorum of drives with that metadata it fails, and else the upload is deleted and
  -- the result is the metadata or the error of the deletion.
  pub complete_multipart_upload_lem :
      (content_type : Text) (now crc : ℕ) (numbers : List ℕ) (drives : List D)
      → 0 < e.data_blocks
      → let (r, drives') =
          complete_multipart_upload uploads formats e bucket object upload_id api ctx_err
            content_type now crc numbers drives in
        Completion
          (λ state.
            multipart_meta uploads formats e bucket object upload_id api content_type state.data_dir
              now crc
              (length drives))
          numbers
          drives
          r
          drives'
  unfolding complete_multipart_upload
  complete_multipart_upload_lem content_type now crc numbers drives pos =
      by_selection
        (select_parts uploads formats e bucket object upload_id api ctx_err numbers drives) refl
        (select_parts_lem numbers drives)
    where
      Goal : Result XlMeta × List D → Type 0
      Goal p =
          Completion
            (λ state.
              multipart_meta uploads formats e bucket object upload_id api content_type
                state.data_dir now crc (length drives))
            numbers drives p.0 p.1

      by_selection :
          (r : Result (MultipartState × List ObjectPartInfo × Option XlMeta))
          → select_parts uploads formats e bucket object upload_id api ctx_err numbers drives ≡ r
          → AreSelected numbers drives r
          → Goal (
              complete_multipart_upload uploads formats e bucket object upload_id api ctx_err
                content_type now crc numbers drives)
      by_selection (err x) h s = rw (h, complete_multipart_upload) (refused x)
      by_selection (ok (state, parts, old)) h s =
          let meta =
            multipart_meta uploads formats e bucket object upload_id api content_type state.data_dir
              now crc (length drives) parts in
          let quorum = write_quorum_of e.data_blocks e.parity_blocks in
          let (failure, mid) = commit_meta api bucket object quorum old meta drives in
          let (n, commits, exact) =
            commit_meta_lem api bucket object drive quorum old meta drives
              (write_quorum_of-pos e.data_blocks e.parity_blocks pos) in
          elim (Option-cases failure) [
            | inl f ↦
                rw (h, complete_multipart_upload, f)
                  (committed state parts n mid s commits (ground (arith, exact, f)))
            | inr (x, f) ↦
                rw (h, complete_multipart_upload, f)
                  (not_committed state parts n x mid s commits (ground (arith, exact, f)))
          ]
