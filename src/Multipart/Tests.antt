-- ===== src/Multipart/Tests.antt =====
-- The theorems about uploads on drives in memory.
use mini_minio.Prelude.{ℕ, ◌≤◌, ◌≡◌, refl, true, false, none, List, [], ◌∷◌, arith, if◌then◌else◌}
use mini_minio.Prelude.Text.{Text, text_eq}
use mini_minio.Prelude.Errors.{Result, ok, err, not_found}
use mini_minio.Erasure.{shard_file_size}
use mini_minio.Erasure.Mirror.{mirror_geometry}
use mini_minio.Object.Meta.{ObjectPartInfo, read_meta, vote, pick_best, count_key}
use mini_minio.Object.Commit.{write_tmp, commit_meta, write_quorum_of}
use mini_minio.Multipart.{
  state_name, new_multipart_upload, put_object_part, read_multipart_state, read_multipart_part,
  read_upload_meta, collect_parts, read_object_meta, complete_multipart_upload, select_parts,
  multipart_meta, write_upload_meta, check_write_quorum, on_all,
}
use mini_minio.Multipart.Files.{new_multipart_upload_lem, put_object_part_lem}
use mini_minio.Multipart.Complete.{Completion, complete_multipart_upload_lem}
use mini_minio.Multipart.Undone.{IsUndone, complete_multipart_upload-IsUndone}
use mini_minio.Multipart.Memory.{
  formats, formats-IsFormats, Store, uploads, uploads-IsUploads, store_api, store_api-IsDrive,
  store_api-IsApart, empty, no_error, new_state, new_part, uploaded,
}

new_multipart_upload_lem_example :
    read_multipart_state uploads formats mirror_geometry
      (2 ∷ [])
      (1 ∷ [])
      (5 ∷ [])
      no_error
      (new_multipart_upload uploads formats mirror_geometry
        (2 ∷ [])
        (1 ∷ [])
        (5 ∷ [])
        none
        (4 ∷ [])
        (empty false ∷ empty false ∷ [])).1
    ≡ ok new_state
unfolding new_multipart_upload write_upload_meta check_write_quorum on_all write_quorum_of
new_multipart_upload_lem_example =
    new_multipart_upload_lem uploads formats mirror_geometry (2 ∷ []) (1 ∷ []) (5 ∷ [])
      uploads-IsUploads no_error (λ name i. refl) none (4 ∷ []) (empty false ∷ empty false ∷ [])
      formats-IsFormats (omega arith) (λ q. cc q) ((not_found, refl), ((not_found, refl), tt)) refl

abbrev write_nothing : Text → ℕ → List Store → Result ℕ × List Store
write_nothing data_dir number drives = (ok 4, drives)

-- An upload without a part.
abbrev started : Store
started = record (empty false) {
  files = λ n. if text_eq n state_name then ok (formats.print_state new_state) else err not_found;
}

abbrev stored_part : ObjectPartInfo
stored_part = record {
  etag = 48 ∷ 65 ∷ [];
  number = 1;
  size = shard_file_size mirror_geometry 4;
  actual_size = 4;
  mod_time = 9;
}

put_object_part_lem_example :
    (read_multipart_part uploads formats mirror_geometry
        (2 ∷ [])
        (1 ∷ [])
        (5 ∷ [])
        no_error
        (put_object_part uploads formats mirror_geometry
          (2 ∷ [])
          (1 ∷ [])
          (5 ∷ [])
          write_nothing
          no_error
          (48 ∷ 65 ∷ [])
          9
          1
          (started ∷ started ∷ [])).1
        1
      ≡ ok stored_part)
    × (◌≡◌ {A = ℕ} 1 1)
    × (◌≤◌ 1 1)
unfolding put_object_part read_multipart_state read_upload_meta text_eq write_upload_meta
    check_write_quorum on_all write_quorum_of
put_object_part_lem_example =
    put_object_part_lem uploads formats mirror_geometry (2 ∷ []) (1 ∷ []) (5 ∷ []) uploads-IsUploads
      no_error (λ name i. refl) write_nothing (48 ∷ 65 ∷ []) 9 1 (started ∷ started ∷ [])
      stored_part formats-IsFormats (omega arith)
      (λ data_dir. ((not_found, refl), ((not_found, refl), tt))) refl

complete_multipart_upload_lem_example :
    let drives = uploaded false ∷ uploaded false ∷ [] in
    let (r, drives') =
      complete_multipart_upload uploads formats mirror_geometry
        (2 ∷ [])
        (1 ∷ [])
        (5 ∷ [])
        store_api
        no_error
        []
        9
        7
        (1 ∷ [])
        drives in
    Completion uploads formats mirror_geometry
      (2 ∷ [])
      (1 ∷ [])
      (5 ∷ [])
      store_api
      store_api-IsDrive
      no_error
      (λ state.
        multipart_meta uploads formats mirror_geometry
          (2 ∷ [])
          (1 ∷ [])
          (5 ∷ [])
          store_api
          []
          state.data_dir
          9
          7
          2)
      (1 ∷ [])
      drives
      r
      drives'
complete_multipart_upload_lem_example =
    complete_multipart_upload_lem uploads formats mirror_geometry (2 ∷ []) (1 ∷ []) (5 ∷ [])
      store_api store_api-IsDrive no_error [] 9 7 (1 ∷ []) (uploaded false ∷ uploaded false ∷ [])
      (omega arith)

-- One of the two drives refuses the new metadata.
complete_multipart_upload-IsUndone_example :
    let drives = uploaded false ∷ uploaded true ∷ [] in
    IsUndone uploads formats mirror_geometry
      (2 ∷ [])
      (1 ∷ [])
      (5 ∷ [])
      store_api
      store_api-IsApart
      no_error
      (4 ∷ [])
      drives
      (complete_multipart_upload uploads formats mirror_geometry
        (2 ∷ [])
        (1 ∷ [])
        (5 ∷ [])
        store_api
        no_error
        []
        9
        7
        (1 ∷ [])
        drives).1
    × (select_parts uploads formats mirror_geometry
          (2 ∷ [])
          (1 ∷ [])
          (5 ∷ [])
          store_api
          no_error
          (1 ∷ [])
          (complete_multipart_upload uploads formats mirror_geometry
            (2 ∷ [])
            (1 ∷ [])
            (5 ∷ [])
            store_api
            no_error
            []
            9
            7
            (1 ∷ [])
            drives).1
        ≡ ok (new_state, new_part ∷ [], none))
unfolding complete_multipart_upload select_parts read_multipart_state read_multipart_part
    read_upload_meta collect_parts read_object_meta text_eq read_meta vote pick_best count_key
    commit_meta write_tmp write_quorum_of
complete_multipart_upload-IsUndone_example =
    complete_multipart_upload-IsUndone uploads formats mirror_geometry (2 ∷ []) (1 ∷ []) (5 ∷ [])
      store_api store_api-IsApart no_error [] 9 7 (1 ∷ []) (uploaded false ∷ uploaded true ∷ [])
      new_state (new_part ∷ []) none refl refl
