-- ===== src/Object/Commit/Safe.antt =====
-- commitMeta on drives that keep their files, drive by drive.
use mini_minio.Prelude.{
  ℕ, suc, ◌+◌, ◌<◌, ◌≡◌, ◌≢◌, refl, ap, ◌∙◌, Bool, true, false, Option, none, some, List, [], ◌∷◌,
  map, ltb, leb, arith, Bool-cases, inl, inr,
}
use mini_minio.Prelude.Text.{Text, text_eq, text_eq_refl}
use mini_minio.Prelude.Errors.{Error, is_nil}
use mini_minio.Object.Meta.{XlMeta, Api}
use mini_minio.Object.Commit.{
  Flagged, flags, write_tmp, rename_one, cleanup_one, settle_one, commit_meta, write_quorum_of,
}

-- A drive that keeps the metadata, the temporary metadata and the data directories of the object
-- as files: writing the temporary file touches no other, a rename moves it over the metadata, or
-- changes nothing, and a directory is removed alone.
pub record IsDrive {D : Type 0} (api : Api D) (bucket object : Text) : Type 0 where
  pub meta_of : D → Option XlMeta
  pub tmp_of : D → Option XlMeta
  pub data_of : Text → D → Text
  pub tmp_lem :
      (m : XlMeta) (d : D)
      → (api.write_meta_tmp bucket object m d).0 ≡ none
      → tmp_of (api.write_meta_tmp bucket object m d).1 ≡ some m
  pub tmp_keeps :
      (m : XlMeta) (d : D) → meta_of (api.write_meta_tmp bucket object m d).1 ≡ meta_of d
  pub tmp_data :
      (m : XlMeta) (d : D) (t : Text)
      → data_of t (api.write_meta_tmp bucket object m d).1 ≡ data_of t d
  pub rename_lem :
      (d : D)
      → (api.rename_meta bucket object d).0 ≡ none
      → meta_of (api.rename_meta bucket object d).1 ≡ tmp_of d
  pub rename_fails :
      (d : D)
      → is_nil (api.rename_meta bucket object d).0 ≡ false
      → meta_of (api.rename_meta bucket object d).1 ≡ meta_of d
  pub rename_data : (d : D) (t : Text) → data_of t (api.rename_meta bucket object d).1 ≡ data_of t d
  pub delete_keeps :
      (t : Text) (d : D) → meta_of (api.delete_object_data bucket object t d).1 ≡ meta_of d
  pub delete_data :
      (t u : Text) (d : D)
      → u ≢ t
      → data_of u (api.delete_object_data bucket object t d).1 ≡ data_of u d

pub write_quorum_of-pos : (n parity : ℕ) → 0 < n → 0 < write_quorum_of n parity
unfolding write_quorum_of
write_quorum_of-pos n parity pos = ground arith

is_nil→none : (o : Option Error) → is_nil o ≡ true → o ≡ none
is_nil→none none h = refl
is_nil→none (some e) h = cc

module _ {D : Type 0} (api : Api D) (bucket object : Text) (drive : IsDrive api bucket object) where
  open drive use {meta_of, data_of}

  -- The drive has the new metadata, and the new data as it was written.
  pub record Committed (meta : XlMeta) (idx : ℕ) (d d' : D) : Type 0 where
    pub new_meta : meta_of d' ≡ some (record meta { disk_index = idx })
    pub new_data : data_of meta.data_dir d' ≡ data_of meta.data_dir d

  -- The drive has its metadata of before, and all data but the new as before.
  pub record Untouched (meta : XlMeta) (d d' : D) : Type 0 where
    pub old_meta : meta_of d' ≡ meta_of d
    pub old_data : (t : Text) → t ≢ meta.data_dir → data_of t d' ≡ data_of t d

  -- Drive by drive from index `idx` on, with the number of those that have the new metadata.
  pub data Commits (meta : XlMeta) : ℕ → List D → List D → ℕ → Type 0 where
    nil : {idx : ℕ} → Commits meta idx [] [] 0
    new :
        {idx n : ℕ} {d d' : D} {ds ds' : List D}
        → Committed meta idx d d'
        → Commits meta (idx + 1) ds ds' n
        → Commits meta idx (d ∷ ds) (d' ∷ ds') (suc n)
    kept :
        {idx n : ℕ} {d d' : D} {ds ds' : List D}
        → Untouched meta d d'
        → Commits meta (idx + 1) ds ds' n
        → Commits meta idx (d ∷ ds) (d' ∷ ds') n

  -- The first quorum missed: the new data is removed again everywhere.
  undone :
      (meta : XlMeta) (idx : ℕ) (ds : List D)
      → Commits meta idx ds
          (map
            (λ f. cleanup_one api bucket object meta.data_dir f.1)
            (write_tmp api bucket object meta idx ds))
          0
  unfolding write_tmp cleanup_one
  undone meta idx [] = nil
  undone meta idx (d ∷ ds) =
      let m = record meta { disk_index = idx } in
      let d1 = (api.write_meta_tmp bucket object m d).1 in
      kept
        (record {
          old_meta = drive.delete_keeps meta.data_dir d1 ∙ drive.tmp_keeps m d;
          old_data = λ t ne. drive.delete_data meta.data_dir t d1 ne ∙ drive.tmp_data m d t;
        })
        (undone meta (idx + 1) ds)

  -- What one drive goes through in the two phases and the clean-up.
  module _ (old : Option XlMeta) (meta : XlMeta) (idx : ℕ) (d : D) where
    abbrev written : D
    written = (api.write_meta_tmp bucket object (record meta { disk_index = idx }) d).1

    abbrev wrote : Bool
    wrote = is_nil (api.write_meta_tmp bucket object (record meta { disk_index = idx }) d).0

    abbrev after : Flagged D → D
    after f = (settle_one api bucket object old meta f).1

    -- A drive whose phases did not both succeed loses the new data again.
    drive-Untouched :
        (e : D)
        → meta_of e ≡ meta_of d
        → ((t : Text) → data_of t e ≡ data_of t d)
        → Untouched meta d (after (false, e))
    unfolding settle_one cleanup_one
    drive-Untouched e same data_same = record {
      old_meta = drive.delete_keeps meta.data_dir e ∙ same;
      old_data = λ t ne. drive.delete_data meta.data_dir t e ne ∙ data_same t;
    }

    -- A drive whose rename succeeded keeps the new metadata and data.
    drive-Committed :
        (o : Option XlMeta) (e : D)
        → meta_of e ≡ some (record meta { disk_index = idx })
        → data_of meta.data_dir e ≡ data_of meta.data_dir d
        → Committed meta idx d (settle_one api bucket object o meta (true, e)).1
    unfolding settle_one cleanup_one
    drive-Committed none e m same = record { new_meta = m; new_data = same }
    drive-Committed (some old_meta) e m same =
        elim (Bool-cases (text_eq old_meta.data_dir meta.data_dir)) [
          | inl t ↦ rw t (record { new_meta = m; new_data = same })
          | inr f ↦
              let ne : meta.data_dir ≢ old_meta.data_dir =
                λ q. (cc (text_eq_refl meta.data_dir, f, ap (λ t. text_eq t meta.data_dir) q)) in
              rw f (record {
                new_meta = drive.delete_keeps old_meta.data_dir e ∙ m;
                new_data = drive.delete_data old_meta.data_dir meta.data_dir e ne ∙ same;
              })
        ]

    -- One drive: with the flag set it has committed, and else it is untouched.
    abbrev DriveResult : Flagged D → Type 0
    DriveResult (true, e) = Committed meta idx d (after (true, e))
    DriveResult (false, e) = Untouched meta d (after (false, e))

    drive_result : DriveResult (rename_one api bucket object (wrote, written))
    unfolding rename_one
    drive_result = by_flags wrote refl
      where
        m : XlMeta
        m = record meta { disk_index = idx }

        by_rename :
            (r : Bool)
            → is_nil (api.rename_meta bucket object written).0 ≡ r
            → wrote ≡ true
            → DriveResult (r, (api.rename_meta bucket object written).1)
        by_rename false r e =
            drive-Untouched (api.rename_meta bucket object written).1
              (drive.rename_fails written r ∙ drive.tmp_keeps m d)
              (λ t. drive.rename_data written t ∙ drive.tmp_data m d t)
        by_rename true r e =
            drive-Committed old (api.rename_meta bucket object written).1
              (drive.rename_lem written (is_nil→none _ r) ∙ drive.tmp_lem m d (is_nil→none _ e))
              (drive.rename_data written meta.data_dir ∙ drive.tmp_data m d meta.data_dir)

        by_flags : (w : Bool) → wrote ≡ w → DriveResult (rename_one api bucket object (w, written))
        by_flags false e = drive-Untouched written (drive.tmp_keeps m d) (drive.tmp_data m d)
        by_flags true e = by_rename (is_nil (api.rename_meta bucket object written).0) refl e

  add_drive :
      (old : Option XlMeta) (meta : XlMeta) (idx : ℕ) (d : D) (ds : List D) (f : Flagged D)
      (fs : List (Flagged D))
      → DriveResult old meta idx d f
      → Commits meta
          (idx + 1)
          ds
          (map (λ g. (settle_one api bucket object old meta g).1) fs)
          (flags fs)
      → Commits meta idx
          (d ∷ ds)
          (map (λ g. (settle_one api bucket object old meta g).1) (f ∷ fs))
          (flags (f ∷ fs))
  add_drive old meta idx d ds (true, e) fs r rest = new r rest
  add_drive old meta idx d ds (false, e) fs r rest = kept r rest

  -- Drive by drive through the two phases and the clean-up.
  done :
      (old : Option XlMeta) (meta : XlMeta) (idx : ℕ) (ds : List D)
      → let renamed =
          map (rename_one api bucket object) (write_tmp api bucket object meta idx ds) in
        Commits meta idx ds
          (map (λ f. (settle_one api bucket object old meta f).1) renamed)
          (flags renamed)
  unfolding write_tmp
  done old meta idx [] = nil
  done old meta idx (d ∷ ds) =
      add_drive old meta idx d ds _ _ (drive_result old meta idx d) (done old meta (idx + 1) ds)

  -- commitMeta on every branch, for a quorum that is not zero and drives that keep their files:
  -- each drive has the new metadata with its index and its new data, or its metadata of before and
  -- all other data as before; the error is nil exactly when at least the quorum of drives has the
  -- new metadata.
  pub commit_meta_lem :
      (quorum : ℕ) (old : Option XlMeta) (meta : XlMeta) (drives : List D)
      → 0 < quorum
      → let (failure, drives') = commit_meta api bucket object quorum old meta drives in
        (n : ℕ) × Commits meta 0 drives drives' n × (is_nil failure ≡ leb quorum n)
  unfolding commit_meta
  commit_meta_lem quorum old meta drives pos =
      let written = write_tmp api bucket object meta 0 drives in
      let renamed = map (rename_one api bucket object) written in
      elim (Bool-cases (ltb (flags written) quorum)) [
        | inl few ↦ rw few (0, undone meta 0 drives, ground arith)
        | inr enough ↦ rw enough (flags renamed, done old meta 0 drives, ground arith)
      ]
