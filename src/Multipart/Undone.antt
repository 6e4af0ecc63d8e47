-- ===== src/Multipart/Undone.antt =====
-- CompleteMultipartUpload whose commit misses its first quorum, and the clean-up of commitMeta.
use mathlib.Core.Path.{fun_ext}
use mini_minio.Prelude.{
  ℕ, suc, ◌+◌, ◌≡◌, ◌≢◌, ◌⊎◌, ◌==◌, if◌then◌else◌, refl, sym, subst, ap, ap₂, ◌∙◌, inl, inr,
  Option-cases, Option, none, some, List, [], ◌∷◌, map, length, All, arith,
}
use mini_minio.Prelude.Text.{Text}
use mini_minio.Prelude.Errors.{Error, Result, ok, err, ◌>>=◌, unless, meta_quorum, no_parts}
use mini_minio.Erasure.{Geometry}
use mini_minio.Erasure.Reader.{Bytes}
use mini_minio.Object.Meta.{XlMeta, Api, ObjectPartInfo, read_meta}
use mini_minio.Object.Put.{old_meta_of}
use mini_minio.Object.Commit.{write_tmp, cleanup_one, write_quorum_of, commit_meta}
use mini_minio.Multipart.{
  MultipartState, Formats, UploadApi, state_name, multipart_part_name, read_upload_meta,
  read_multipart_state, read_multipart_part, multipart_meta, select_parts, collect_parts,
  read_object_meta, check_write_quorum, delete_upload, complete_multipart_upload,
}

-- A drive that removes a directory with all its data where its delete returns no error, and keeps
-- the files of uploads and the metadata of the object elsewhere.
pub record IsApart {D : Type 0} (uploads : UploadApi D) (api : Api D)
    (bucket object upload_id : Text) : Type 0 where
  pub data_of : Text → D → Bytes
  pub removed :
      (t : Text) (d : D)
      → (api.delete_object_data bucket object t d).0 ≡ none
      → data_of t (api.delete_object_data bucket object t d).1 ≡ []
  pub tmp_meta :
      (m : XlMeta) (d : D)
      → api.read_meta bucket object (api.write_meta_tmp bucket object m d).1
        ≡ api.read_meta bucket object d
  pub delete_meta :
      (t : Text) (d : D)
      → api.read_meta bucket object (api.delete_object_data bucket object t d).1
        ≡ api.read_meta bucket object d
  pub tmp_keeps :
      (m : XlMeta) (d : D) (name : Text)
      → uploads.read_upload_meta bucket object upload_id name
          (api.write_meta_tmp bucket object m d).1
        ≡ uploads.read_upload_meta bucket object upload_id name d
  pub delete_keeps :
      (t : Text) (d : D) (name : Text)
      → uploads.read_upload_meta bucket object upload_id name
          (api.delete_object_data bucket object t d).1
        ≡ uploads.read_upload_meta bucket object upload_id name d

module _ {D : Type 0} (uploads : UploadApi D) (formats : Formats) (e : Geometry)
    (bucket object upload_id : Text) (api : Api D)
    (apart : IsApart uploads api bucket object upload_id) (ctx_err : Text → ℕ → Option Error) where
  -- The drives after the clean-up.
  abbrev undone : XlMeta → ℕ → List D → List D
  undone meta idx ds =
      map (λ f. cleanup_one api bucket object meta.data_dir f.1)
        (write_tmp api bucket object meta idx ds)

  -- The directory is empty on the drive, or the drive is what a failed delete of it has left.
  abbrev pub IsRemoved : Text → D → Type 0
  IsRemoved t d' =
      (apart.data_of t d' ≡ [])
      ⊎ ((d : D) × (x : Error) × (api.delete_object_data bucket object t d ≡ (some x, d')))

  delete-IsRemoved : (t : Text) (d : D) → IsRemoved t (api.delete_object_data bucket object t d).1
  delete-IsRemoved t d = elim (Option-cases (api.delete_object_data bucket object t d).0) [
    | inl n ↦ inl (apart.removed t d n)
    | inr (x, n) ↦ inr (d, x, ap (λ f. (f, (api.delete_object_data bucket object t d).1)) n)
  ]

  undone-IsRemoved :
      (meta : XlMeta) (idx : ℕ) (ds : List D) → All (IsRemoved meta.data_dir) (undone meta idx ds)
  unfolding write_tmp cleanup_one
  undone-IsRemoved meta idx [] = tt
  undone-IsRemoved meta idx (d ∷ ds) =
      (delete-IsRemoved meta.data_dir _, undone-IsRemoved meta (idx + 1) ds)

  undone-meta :
      (meta : XlMeta) (idx : ℕ) (ds : List D)
      → map (api.read_meta bucket object) (undone meta idx ds)
        ≡ map (api.read_meta bucket object) ds
  unfolding write_tmp cleanup_one
  undone-meta meta idx [] = refl
  undone-meta meta idx (d ∷ ds) =
      let m = record meta { disk_index = idx } in
      ap₂ (λ x xs. x ∷ xs)
        (apart.delete_meta meta.data_dir (api.write_meta_tmp bucket object m d).1
          ∙ apart.tmp_meta m d)
        (undone-meta meta (idx + 1) ds)

  undone-read :
      {A : Type 0} (parse : Bytes → Result A) (name : Text) (i : ℕ) (meta : XlMeta) (idx : ℕ)
      (ds : List D)
      → read_upload_meta uploads formats e bucket object upload_id parse ctx_err name i
          (undone meta idx ds)
        ≡ read_upload_meta uploads formats e bucket object upload_id parse ctx_err name i ds
  unfolding read_upload_meta write_tmp cleanup_one
  undone-read {A = A} parse name i meta idx [] = refl
  undone-read {A = A} parse name i meta idx (d ∷ ds) =
      let later = undone-read parse name (suc i) meta (idx + 1) ds in
      let m = record meta { disk_index = idx } in
      let same =
        apart.delete_keeps meta.data_dir (api.write_meta_tmp bucket object m d).1 name
        ∙ apart.tmp_keeps m d name in
      ap₂
        (λ r l.
          let out : Result A = elim (ctx_err name i) [
            | some x ↦ err x
            | none ↦ elim r [ ok value ↦ ok value | err x ↦ l ]
          ] in
          out)
        (ap (λ q. q >>= parse) same) later

  missed :
      (quorum : ℕ) (old : Option XlMeta) (meta : XlMeta) (drives : List D)
      → (commit_meta api bucket object quorum old meta drives).0 ≡ some meta_quorum
      → (commit_meta api bucket object quorum old meta drives).1 ≡ undone meta 0 drives
  unfolding commit_meta
  missed quorum old meta drives h = ground (arith, h)

  not_deleted :
      (mid : List D) (meta : XlMeta)
      → unless (delete_upload uploads formats e bucket object upload_id mid).0 meta
        ≢ err meta_quorum
  unfolding delete_upload check_write_quorum
  not_deleted mid meta h = ground (arith, h)

  -- The data directory is empty on every drive whose delete has not failed, the upload is read as
  -- before, and so is the metadata of the object.
  abbrev pub IsUndone : Text → List D → List D → Type 0
  IsUndone data_dir drives drives' =
      All (IsRemoved data_dir) drives'
      × (read_multipart_state uploads formats e bucket object upload_id ctx_err drives'
          ≡ read_multipart_state uploads formats e bucket object upload_id ctx_err drives)
      × ((n : ℕ)
          → read_multipart_part uploads formats e bucket object upload_id ctx_err drives' n
            ≡ read_multipart_part uploads formats e bucket object upload_id ctx_err drives n)
      × (read_object_meta uploads formats e bucket object upload_id api drives'
          ≡ read_object_meta uploads formats e bucket object upload_id api drives)

  undone-IsUndone :
      (meta : XlMeta) (drives : List D) → IsUndone meta.data_dir drives (undone meta 0 drives)
  unfolding read_multipart_state read_multipart_part read_object_meta
  undone-IsUndone meta drives = (
    undone-IsRemoved meta 0 drives,
    rw (undone-read formats.parse_state state_name 0 meta 0 drives) refl,
    λ n. rw (undone-read formats.parse_part (multipart_part_name formats n) 0 meta 0 drives) refl,
    ap (λ answers. read_meta answers answers) (undone-meta meta 0 drives),
  )

  -- The checks of CompleteMultipartUpload are passed with the same outcome.
  select-IsUndone :
      (data_dir : Text) (numbers : List ℕ) (drives drives' : List D)
      → IsUndone data_dir drives drives'
      → select_parts uploads formats e bucket object upload_id api ctx_err numbers drives'
        ≡ select_parts uploads formats e bucket object upload_id api ctx_err numbers drives
  unfolding select_parts
  select-IsUndone data_dir numbers drives drives' (removed, state, parts, object_meta) =
      let each = fun_ext parts in
      ap₂
        (λ (f : Result MultipartState × (ℕ → Result ObjectPartInfo)) (q : Result XlMeta).
          f.0 >>= λ state. collect_parts f.1 [] numbers >>= λ parts.
          if length parts == 0
          then err no_parts
          else (old_meta_of q >>= λ old. ok (state, parts, old)))
        (ap₂ (λ s f. (s, f)) state each) object_meta

  -- If CompleteMultipartUpload has read its parts and fails because too few drives took the
  -- temporary metadata, the data directory of the upload is empty on every drive but those whose
  -- delete has failed, while the state and the parts of the upload and the metadata of the object
  -- are read as before, so that the same call passes its checks again with the same parts. A drive
  -- empties a directory where its delete returns no error, and keeps the files of uploads and the
  -- metadata apart.
  pub complete_multipart_upload-IsUndone :
      (content_type : Text) (now crc : ℕ) (numbers : List ℕ) (drives : List D)
      (state : MultipartState) (parts : List ObjectPartInfo) (old : Option XlMeta)
      → select_parts uploads formats e bucket object upload_id api ctx_err numbers drives
        ≡ ok (state, parts, old)
      → let (r, drives') =
          complete_multipart_upload uploads formats e bucket object upload_id api ctx_err
            content_type now crc numbers drives in
        r ≡ err meta_quorum
        → IsUndone state.data_dir drives drives'
          × (select_parts uploads formats e bucket object upload_id api ctx_err numbers drives'
              ≡ ok (state, parts, old))
  unfolding complete_multipart_upload
  complete_multipart_upload-IsUndone content_type now crc numbers drives state parts old h =
      let meta =
        multipart_meta uploads formats e bucket object upload_id api content_type state.data_dir now
          crc (length drives) parts in
      let quorum = write_quorum_of e.data_blocks e.parity_blocks in
      let (failure, mid) = commit_meta api bucket object quorum old meta drives in
      elim (Option-cases failure) [
        | inl f ↦ rw (h, complete_multipart_upload, f) (λ r. absurd (not_deleted mid meta r))
        | inr (x, f) ↦
            rw (h, complete_multipart_upload, f)
              (λ r.
                let none_written : failure ≡ some meta_quorum = ground (arith, f, r) in
                let all =
                  subst (IsUndone state.data_dir drives)
                    (sym (missed quorum old meta drives none_written))
                    (undone-IsUndone meta drives) in
                (all, select-IsUndone state.data_dir numbers drives mid all ∙ h))
      ]
