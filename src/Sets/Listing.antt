-- ===== src/Sets/Listing.antt =====
-- ListObjectsV2 and listObjectNames (cmd/erasure-sets.go).
use mini_minio.Prelude.{
  ℕ, ◌+◌, ◌||◌, ltb, leb, ◌==◌, if◌then◌else◌, Bool, true, false, Option, none, some, List, [], ◌∷◌,
  ◌++◌, length,
}
use mini_minio.Prelude.Errors.{Error, Result, ok, err, ◌>>=◌, panic, bucket_not_found, is_not_found}
use mini_minio.Prelude.Text.{Text, text_eq, text_lt, strip, trim_prefix}
use mini_minio.Object.Meta.{XlMeta}

-- `seen[name]`
unfoldable pub has_name : Text → List Text → Bool
has_name t [] = false
has_name t (s ∷ l) = text_eq s t || has_name t l

-- The inner loop of listObjectNames: the names that are not yet seen.
unfoldable pub add_names : List Text → List Text → List Text
add_names names [] = names
add_names names (t ∷ l) = add_names (if has_name t names then names else names ++ t ∷ []) l

-- The loop over the drives' answers: the names, and whether a drive has the bucket.
unfoldable pub gather : List (Result (List Text)) → List Text → Bool → Result (List Text × Bool)
gather [] names found = ok (names, found)
gather (ok l ∷ rs) names found = gather rs (add_names names l) true
gather (err e ∷ rs) names found = if is_not_found e then gather rs names found else err e

-- `sort.Strings`
unfoldable pub insert_name : Text → List Text → List Text
insert_name t [] = t ∷ []
insert_name t (s ∷ l) = if text_lt s t then s ∷ insert_name t l else t ∷ s ∷ l

unfoldable pub sort_names : List Text → List Text
sort_names [] = []
sort_names (t ∷ l) = insert_name t (sort_names l)

-- listObjectNames, from what the drives answer.
unfoldable pub list_object_names : List (Result (List Text)) → Result (List Text)
list_object_names answers =
    gather answers [] false >>= λ r. if r.1 then ok (sort_names r.0) else err bucket_not_found

-- `sort.SearchStrings` in sorted names, and the name itself passed over.
unfoldable pub after : Text → List Text → List Text
after start [] = []
after start (t ∷ l) =
    let later = after start l in
    if text_lt t start then later else if text_eq t start then l else t ∷ l

-- `rel[:idx+len(delimiter)]` for the first occurrence of the delimiter.
pub up_to : (delimiter rel : Text) → Option Text
up_to delimiter [] = elim (strip delimiter []) [ some r ↦ some delimiter | none ↦ none ]
up_to delimiter (c ∷ rel) =
    let rest = up_to delimiter rel in
    elim (strip delimiter (c ∷ rel)) [
      | some r ↦ some delimiter
      | none ↦ elim rest [ some t ↦ some (c ∷ t) | none ↦ none ]
    ]

-- The common prefix under which a name is listed.
abbrev pub common_prefix : (name_prefix delimiter name : Text) → Option Text
common_prefix name_prefix delimiter name =
    if text_eq delimiter [] then none else elim (up_to delimiter (trim_prefix name name_prefix)) [
      | none ↦ none
      | some t ↦ some (name_prefix ++ t)
    ]

pub record ObjectInfo : Type 0 where
  pub bucket : Text
  pub name : Text
  pub size : ℕ
  pub mod_time : ℕ
  pub etag : Text
  pub content_type : Text

pub record ListInfo : Type 0 where
  pub objects : List ObjectInfo
  pub prefixes : List Text
  pub is_truncated : Bool
  pub next_continuation_token : Text

abbrev pub object_info : Text → Text → XlMeta → ObjectInfo
object_info bucket name meta = record {
  bucket = bucket;
  name = name;
  size = meta.size;
  mod_time = meta.mod_time;
  etag = meta.etag;
  content_type = meta.content_type;
}

-- `maxKeys`, 1000 if it is not positive or larger.
abbrev pub clamp_keys : ℕ → ℕ
clamp_keys max_keys = if max_keys == 0 || ltb 1000 max_keys then 1000 else max_keys

-- `read` is `readMeta` of the set of a name, and `ctx_err` what `ctx.Err()` returns at an index.
module _ (bucket name_prefix delimiter : Text) (ctx_err : ℕ → Option Error)
    (read : Text → Result XlMeta) where
  -- The loop from index `i` on, with `names[i-1]` if there is one.
  unfoldable pub page_loop :
      (max_keys i : ℕ)
      → (prev : Option Text) → List Text
      → List ObjectInfo
      → List Text
      → Result ListInfo
  page_loop max_keys i prev [] objects prefixes = ok (record {
    objects = objects;
    prefixes = prefixes;
    is_truncated = false;
    next_continuation_token = [];
  })
  page_loop max_keys i prev (name ∷ names) objects prefixes = elim (ctx_err i) [
    | some e ↦ err e
    | none ↦ elim (leb max_keys (length objects + length prefixes)) [
      | true ↦ elim prev [
        | none ↦ err panic
        | some p ↦ ok (record {
          objects = objects;
          prefixes = prefixes;
          is_truncated = true;
          next_continuation_token = p;
        })
      ]
      | false ↦ elim (common_prefix name_prefix delimiter name) [
        | some c ↦
            page_loop max_keys (i + 1) (some name) names objects
              (if has_name c prefixes then prefixes else prefixes ++ c ∷ [])
        | none ↦ elim (read name) [
          | err e ↦ page_loop max_keys (i + 1) (some name) names objects prefixes
          | ok meta ↦
              page_loop max_keys (i + 1) (some name) names
                (objects ++ object_info bucket name meta ∷ []) prefixes
        ]
      ]
    ]
  ]

  -- ListObjectsV2, from what listObjectNames returns; a negative `maxKeys` is 0.
  unfoldable pub list_objects_v2 :
      Result (List Text)
      → (continuation_token : Text) → (max_keys : ℕ) → (start_after : Text) → Result ListInfo
  list_objects_v2 listed continuation_token max_keys start_after = listed >>= λ names.
      let start = if text_eq continuation_token [] then start_after else continuation_token in
      let rest = if text_eq start [] then names else after start names in
      page_loop (clamp_keys max_keys) 0 none rest [] []
