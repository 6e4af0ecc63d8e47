-- ===== src/Object/Commit.antt =====
-- commitMeta, cleanupObjectData and the delete of DeleteObject in cmd/erasure-object.go. The
-- goroutines of one phase work each on a drive of its own, so a phase is a map over the drives.
pub mod Safe
use mini_minio.Prelude.{
  ℕ, zero, suc, ◌+◌, ◌-◌, ◌/◌, Bool, true, false, not, Option, none, some, List, [], ◌∷◌, map,
  length, ltb, ◌==◌, if◌then◌else◌,
}
use mini_minio.Prelude.Text.{Text, text_eq}
use mini_minio.Prelude.Errors.{
  Error, is_nil, meta_quorum, rename_quorum, delete_failed, quorum_not_met,
}
use mini_minio.Object.Meta.{XlMeta, Api}

-- A drive beside a flag: `tmpWritten[i]`, and then `renamed[i]`.
abbrev pub Flagged : Type 0 → Type 0
Flagged D = Bool × D

-- How many flags are set.
abbrev pub flags {ℓ} : {D : Type ℓ} → List (Bool × D) → ℕ
flags [] = 0
flags ((b, d) ∷ fs) = if b then suc (flags fs) else flags fs

-- `writeQuorum`: one more than the data blocks where data and parity blocks are as many.
unfoldable pub write_quorum_of : (data_blocks parity_blocks : ℕ) → ℕ
write_quorum_of data_blocks parity_blocks =
    if data_blocks == parity_blocks then suc data_blocks else data_blocks

module _ {D : Type 0} (api : Api D) (bucket object : Text) where
  -- The first phase, from drive `idx` on.
  unfoldable pub write_tmp : XlMeta → ℕ → List D → List (Flagged D)
  write_tmp meta idx [] = []
  write_tmp meta idx (d ∷ ds) =
      let (failure, d') = api.write_meta_tmp bucket object (record meta { disk_index = idx }) d in
      (is_nil failure, d') ∷ write_tmp meta (idx + 1) ds

  -- One drive of the second phase.
  unfoldable pub rename_one : Flagged D → Flagged D
  rename_one (false, d) = (false, d)
  rename_one (true, d) = let (failure, d') = api.rename_meta bucket object d in (is_nil failure, d')

  -- cleanupObjectData on one drive; its error is only logged.
  unfoldable pub cleanup_one : Text → D → D
  cleanup_one data_dir d = (api.delete_object_data bucket object data_dir d).1

  -- After the renames: the old data goes where the new metadata stands, the new data elsewhere.
  pub settle_one : Option XlMeta → XlMeta → Flagged D → Flagged D
  settle_one none meta (true, d) = (true, d)
  settle_one (some old) meta (true, d) =
      if text_eq old.data_dir meta.data_dir then (true, d) else (true, cleanup_one old.data_dir d)
  settle_one old meta (false, d) = (false, cleanup_one meta.data_dir d)

  -- commitMeta, with the write quorum of the set.
  unfoldable pub commit_meta :
      (quorum : ℕ) → Option XlMeta → XlMeta → List D → Option Error × List D
  commit_meta quorum old meta drives =
      let written = write_tmp meta 0 drives in
      if ltb (flags written) quorum
      then (some meta_quorum, map (λ f. cleanup_one meta.data_dir f.1) written)
      else let renamed = map rename_one written in
        (
          if ltb (flags renamed) quorum then some rename_quorum else none,
          map (λ f. (settle_one old meta f).1) renamed,
        )

  -- The parallel phase of DeleteObject; `ctx_err` is what `ctx.Err()` returns.
  pub delete_all : Option Error → List D → List (Flagged D)
  delete_all ctx_err [] = []
  delete_all none (d ∷ ds) =
      let (failure, d') = api.delete_object bucket object d in
      (is_nil failure, d') ∷ delete_all none ds
  delete_all (some x) (d ∷ ds) = (false, d) ∷ delete_all (some x) ds

  -- DeleteObject behind its lock and GetObjectInfo: a majority of the drives has to succeed.
  pub delete_object : Option Error → List D → Option Error × List D
  delete_object ctx_err drives =
      let deleted = delete_all ctx_err drives in
      let quorum = length drives / 2 + 1 in
      (if ltb (flags deleted) quorum then some delete_failed else none, map (λ f. f.1) deleted)
