-- ===== src/Object/Meta.antt =====
-- The metadata of an object (`xlMeta`, `ObjectPartInfo`), what the object layer asks of a drive
-- (the interface `storage.API` of internal/storage/api.go), and readMeta of cmd/erasure-object.go.
-- A drive's state is of any type; JSON is written and read back as the record itself, and a file
-- that does not parse is an error of the read. `UserMeta` is never set and is left out.
pub mod Vote
mod Tests
use mini_minio.Prelude.{
  ℕ, zero, suc, Bool, true, false, ◌&&◌, Option, none, some, List, [], ◌∷◌, ltb, ◌==◌,
  if◌then◌else◌,
}
use mini_minio.Prelude.Text.{Text, text_eq}
use mini_minio.Prelude.Errors.{Error, Result, ok, err, object_not_found}

-- `ObjectPartInfo`, the fields that the program sets.
pub record ObjectPartInfo : Type 0 where
  pub etag : Text
  pub number : ℕ
  pub size : ℕ
  pub actual_size : ℕ
  pub mod_time : ℕ

pub record XlMeta : Type 0 where
  pub name : Text
  pub bucket : Text
  pub size : ℕ
  pub mod_time : ℕ
  pub etag : Text
  pub content_type : Text
  pub data_dir : Text
  pub data_blocks : ℕ
  pub parity_blocks : ℕ
  pub block_size : ℕ
  pub parts : List ObjectPartInfo
  pub disk_index : ℕ
  pub distribution : List ℕ

-- `storage.API`, the operations on the files of one object; `none` is a nil error.
pub record Api (D : Type 0) : Type 0 where
  pub write_meta_tmp : (bucket object : Text) → XlMeta → D → Option Error × D
  pub rename_meta : (bucket object : Text) → D → Option Error × D
  pub read_meta : (bucket object : Text) → D → Result XlMeta
  pub delete_object_data : (bucket object data_dir : Text) → D → Option Error × D
  pub delete_object : (bucket object : Text) → D → Option Error × D

-- `metaKey{etag, modTime}`
abbrev pub same_key : XlMeta → XlMeta → Bool
same_key m m' = text_eq m.etag m'.etag && m.mod_time == m'.mod_time

-- `counts[k]` for the key of `m`.
unfoldable pub count_key : XlMeta → List (Result XlMeta) → ℕ
count_key m [] = 0
count_key m (err e ∷ rs) = count_key m rs
count_key m (ok m' ∷ rs) = if same_key m m' then suc (count_key m rs) else count_key m rs

-- The second loop of the vote: the best so far and its count.
unfoldable pub pick_best : (all rest : List (Result XlMeta)) → Option XlMeta → ℕ → Option XlMeta
pick_best all [] best best_count = best
pick_best all (err e ∷ rs) best best_count = pick_best all rs best best_count
pick_best all (ok m ∷ rs) best best_count =
    let votes = count_key m all in
    if ltb best_count votes
    then pick_best all rs (some m) votes
    else pick_best all rs best best_count

-- The quorum vote over what the parallel pass has read. `metas[0]`, with which the search starts,
-- is taken over by the first that is not nil.
unfoldable pub vote : List (Result XlMeta) → Result XlMeta
vote all = elim (pick_best all all none 0) [ some m ↦ ok m | none ↦ err object_not_found ]

-- readMeta: what the drives answer to the first, sequential pass, and to the parallel pass. A nil
-- drive answers the first pass with an error.
unfoldable pub read_meta : (first second : List (Result XlMeta)) → Result XlMeta
read_meta [] second = vote second
read_meta (ok m ∷ first) second = ok m
read_meta (err e ∷ first) second = read_meta first second
