-- ===== src/Sets/Tests.antt =====
-- The theorems about the sets on four drives in two sets, and on a listing of three names.
use mini_minio.Prelude.{
  ℕ, ◌+◌, leb, not, ◌||◌, ◌==◌, if◌then◌else◌, Option, some, ◌*◌, ◌≤◌, ◌<◌, ◌≡◌, refl, true, none,
  List, [], ◌∷◌, ◌++◌, length, concat, All, arith,
}
use mini_minio.Prelude.Errors.{Error, other, not_found, err, Result, ok}
use mini_minio.Prelude.Text.{Text, text_eq, text_lt}
use mini_minio.Object.Meta.{XlMeta}
use mini_minio.Sets.{new_sets, set_index}
use mini_minio.Sets.Partition.{new_sets_lem}
use mini_minio.Sets.Listing.{ListInfo, object_info, list_objects_v2, page_loop}
use mini_minio.Sets.Listing.{
  has_name, add_names, gather, insert_name, sort_names, list_object_names,
}
use mini_minio.Sets.Names.{list_object_names-IsAscending}
use mini_minio.Sets.Pages.{IsAscending, readable, remaining, list_objects_v2_lem}

-- What `reedsolomon.New` refuses.
abbrev new_erasure : ℕ → ℕ → Option Error
new_erasure data_blocks parity_blocks =
    if data_blocks == 0 || parity_blocks == 0 || not (leb (data_blocks + parity_blocks) 65536)
    then some (other 3)
    else none

new_erasure_lem : (d p : ℕ) → 0 < d → 0 < p → d + p ≤ 65536 → new_erasure d p ≡ none
new_erasure_lem d p data_pos parity_pos few = ground arith

new_sets_lem_example :
    (sets : List (List ℕ)) × (new_sets new_erasure (5 ∷ 6 ∷ 7 ∷ 8 ∷ []) 1 1 ≡ ok sets)
    × (concat sets ≡ 5 ∷ 6 ∷ 7 ∷ 8 ∷ [])
    × All (λ s. length s ≡ 2) sets
    × (length sets * 2 ≡ 4)
    × (set_index 9 (length sets) < length sets)
new_sets_lem_example =
    new_sets_lem new_erasure new_erasure_lem (5 ∷ 6 ∷ 7 ∷ 8 ∷ []) 1 1 9 (omega arith) (omega arith)
      (omega arith) (omega arith) (omega arith) (omega arith)

abbrev meta : XlMeta
meta = record {
  name = [];
  bucket = [];
  size = 6;
  mod_time = 9;
  etag = [];
  content_type = [];
  data_dir = [];
  data_blocks = 1;
  parity_blocks = 1;
  block_size = 4;
  parts = [];
  disk_index = 0;
  distribution = [];
}

-- "a", "b" and "c".
abbrev names : List Text
names = (97 ∷ []) ∷ (98 ∷ []) ∷ (99 ∷ []) ∷ []

names-IsAscending : IsAscending names
unfolding text_lt
names-IsAscending = ((refl, (refl, tt)), ((refl, tt), (tt, tt)))

abbrev read : Text → Result XlMeta
read t = ok meta

abbrev first_page : ListInfo
first_page = record {
  objects = object_info [] (97 ∷ []) meta ∷ object_info [] (98 ∷ []) meta ∷ [];
  prefixes = [];
  is_truncated = true;
  next_continuation_token = 98 ∷ [];
}

page_run : list_objects_v2 [] [] [] (λ i. none) read (ok names) [] 2 [] ≡ ok first_page
unfolding list_objects_v2 page_loop text_eq
page_run = refl

list_objects_v2_lem_example :
    (2 ≤ 2)
    × (2 ≤ 1000)
    × (first_page.objects ++ remaining [] [] [] (λ i. none) read first_page names
        ≡ readable [] [] [] (λ i. none) read names)
list_objects_v2_lem_example =
    list_objects_v2_lem [] [] [] (λ i. none) read 2 names names-IsAscending page_run

abbrev answers : List (Result (List Text))
answers = ok ((99 ∷ []) ∷ (97 ∷ []) ∷ []) ∷ err not_found ∷ ok ((97 ∷ []) ∷ (98 ∷ []) ∷ []) ∷ []

names_run : list_object_names answers ≡ ok names
unfolding list_object_names gather add_names has_name insert_name sort_names text_eq text_lt
names_run = refl

list_object_names-IsAscending_example : IsAscending names
list_object_names-IsAscending_example = list_object_names-IsAscending answers names_run
