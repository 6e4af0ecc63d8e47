-- ===== src/Sets/Pages.antt =====
-- A page of ListObjectsV2: its size, and that the page and the names after its token are all.
use mini_minio.Prelude.{
  ℕ, ◌+◌, ◌≤◌, ◌≡◌, refl, sym, subst, ap, ◌∙◌, leb, if◌then◌else◌, true, false, Bool-cases, inl,
  inr, ◌⊎◌, Option, none, some, List, [], ◌∷◌, ◌++◌, length, length-append, All, arith,
}
use mathlib.Core.List.{append_assoc}
use mini_minio.Prelude.Errors.{Error, Result, ok, err}
use mini_minio.Prelude.Text.{Text, text_eq, text_lt, text_lt_irrefl, text_eq_refl}
use mini_minio.Object.Meta.{XlMeta}
use mini_minio.Sets.Listing.{
  has_name, after, common_prefix, ObjectInfo, ListInfo, object_info, clamp_keys, page_loop,
  list_objects_v2,
}

-- Each name is before all that follow.
abbrev pub IsAscending : List Text → Type 0
IsAscending [] = Unit {0}
IsAscending (t ∷ l) = All (λ s. text_lt t s ≡ true) l × IsAscending l

All-middle :
    (s : Text) (l : List Text) (t : Text) (m : List Text)
    → All (λ u. text_lt s u ≡ true) (l ++ t ∷ m)
    → text_lt s t ≡ true
All-middle s [] t m h = h.0
All-middle s (u ∷ l) t m h = All-middle s l t m h.1

-- The names after a name of an ascending list.
after-split :
    (l : List Text) (t : Text) (m : List Text) → IsAscending (l ++ t ∷ m) → after t (l ++ t ∷ m) ≡ m
unfolding after
after-split [] t m h = rw (text_lt_irrefl t, text_eq_refl t) refl
after-split (s ∷ l) t m h =
    let less : text_lt s t ≡ true = All-middle s l t m h.0 in rw less (after-split l t m h.1)

resume_next :
    (passed : List Text) (name : Text) (names all : List Text) (p : Text)
    → IsAscending all
    → all ≡ passed ++ name ∷ names
    → name ≡ p
    → after p all ≡ names
resume_next passed name names all p up split same =
    subst (λ t. after t all ≡ names) same
      (subst (λ l. after name l ≡ names) (sym split)
        (after-split passed name names (subst IsAscending split up)))

room_for :
    {max_keys : ℕ} (objects : List ObjectInfo) (prefixes : List Text) (q : Text)
    → leb max_keys (length objects + length prefixes) ≡ false
    → length objects + length (if has_name q prefixes then prefixes else prefixes ++ q ∷ [])
      ≤ max_keys
room_for objects prefixes q room = ground (arith, length-append prefixes (q ∷ []))

Option-cases {ℓ} : {A : Type ℓ} (o : Option A) → (o ≡ none) ⊎ ((a : A) × (o ≡ some a))
Option-cases none = inl refl
Option-cases (some a) = inr (a, refl)

Result-cases {ℓ} :
    {A : Type ℓ} (r : Result A) → ((a : A) × (r ≡ ok a)) ⊎ ((e : Error) × (r ≡ err e))
Result-cases (ok a) = inl (a, refl)
Result-cases (err e) = inr (e, refl)

module _ (bucket name_prefix delimiter : Text) (ctx_err : ℕ → Option Error)
    (read : Text → Result XlMeta) where
  -- The objects of the names that are not under a common prefix and can be read.
  pub readable : List Text → List ObjectInfo
  readable [] = []
  readable (name ∷ names) =
      let rest = readable names in
      elim (common_prefix name_prefix delimiter name) [
        | some c ↦ rest
        | none ↦ elim (read name) [ err e ↦ rest | ok meta ↦ object_info bucket name meta ∷ rest ]
      ]

  -- What the names behind the token still have.
  abbrev pub remaining : ListInfo → List Text → List ObjectInfo
  remaining info all =
      if info.is_truncated then readable (after info.next_continuation_token all) else []

  -- The page holds at most `max_keys`, and with what remains it is all.
  record IsPage (max_keys : ℕ) (all : List Text) (objects : List ObjectInfo) (names : List Text)
      (info : ListInfo) : Type 0 where
    size : length info.objects + length info.prefixes ≤ max_keys
    complete : info.objects ++ remaining info all ≡ objects ++ readable names

  page_loop_lem :
      (max_keys i : ℕ) (all passed names : List Text) (prev : Option Text)
      (objects : List ObjectInfo) (prefixes : List Text) {info : ListInfo}
      → page_loop bucket name_prefix delimiter ctx_err read max_keys i prev names objects prefixes
        ≡ ok info
      → length objects + length prefixes ≤ max_keys
      → IsAscending all
      → all ≡ passed ++ names
      → ((p : Text) → prev ≡ some p → after p all ≡ names)
      → IsPage max_keys all objects names info
  unfolding page_loop readable
  page_loop_lem max_keys i all passed [] prev objects prefixes {info} e le up split resume =
      let same : record {
        objects = objects;
        prefixes = prefixes;
        is_truncated = false;
        next_continuation_token = [];
      }
          ≡ info =
        ground (arith, e) in
      subst (IsPage max_keys all objects []) same (record { size = le; complete = refl })
  page_loop_lem max_keys i all passed (name ∷ names) prev objects prefixes {info} e le up split
        resume =
      let split' : all ≡ (passed ++ name ∷ []) ++ names =
        split ∙ sym (append_assoc passed (name ∷ []) names) in
      let resume' : (p : Text) → some name ≡ some p → after p all ≡ names =
        λ p q. resume_next passed name names all p up split (ground (arith, q)) in
      elim (Option-cases (ctx_err i)) [
        | inr (x, c) ↦ absurd (ground (arith, c, e))
        | inl c ↦ elim (Bool-cases (leb max_keys (length objects + length prefixes))) [
          | inl full ↦ elim (Option-cases prev) [
            | inl p ↦ absurd (ground (arith, c, e, full, p))
            | inr (t, p) ↦
                let same : record {
                  objects = objects;
                  prefixes = prefixes;
                  is_truncated = true;
                  next_continuation_token = t;
                }
                    ≡ info =
                  ground (arith, c, e, full, p) in
                subst (IsPage max_keys all objects (name ∷ names)) same
                  (record { size = le; complete = ap (λ l. objects ++ readable l) (resume t p) })
          ]
          | inr room ↦ elim (Option-cases (common_prefix name_prefix delimiter name)) [
            | inr (q, k) ↦
                let found =
                  page_loop_lem max_keys (i + 1) all (passed ++ name ∷ []) names (some name) objects
                    (if has_name q prefixes then prefixes else prefixes ++ q ∷ [])
                    (ground (arith, e, c, room, k)) (room_for objects prefixes q room) up split'
                    resume' in
                record {
                  size = found.size;
                  complete =
                      found.complete
                      ∙ ap (λ l. objects ++ l) {x = readable names} {y = readable (name ∷ names)}
                          (ground (arith, k));
                }
            | inl k ↦ elim (Result-cases (read name)) [
              | inl (m, r) ↦
                  let found =
                    page_loop_lem max_keys (i + 1) all (passed ++ name ∷ []) names (some name)
                      (objects ++ object_info bucket name m ∷ []) prefixes
                      (ground (arith, e, c, room, k, r))
                      (ground (arith, room, length-append objects (object_info bucket name m ∷ [])))
                      up split' resume' in
                  record {
                    size = found.size;
                    complete =
                        found.complete
                        ∙ append_assoc objects (object_info bucket name m ∷ []) (readable names)
                        ∙ ap (λ l. objects ++ l) {x = object_info bucket name m ∷ readable names}
                            {y = readable (name ∷ names)} (ground (arith, k, r));
                  }
              | inr (x, r) ↦
                  let found =
                    page_loop_lem max_keys (i + 1) all (passed ++ name ∷ []) names (some name)
                      objects prefixes (ground (arith, e, c, room, k, r)) le up split' resume' in
                  record {
                    size = found.size;
                    complete =
                        found.complete
                        ∙ ap (λ l. objects ++ l) {x = readable names} {y = readable (name ∷ names)}
                            (ground (arith, k, r));
                  }
            ]
          ]
        ]
      ]

  -- Of an ascending listing a page of ListObjectsV2 from the start holds at most max_keys names
  -- and prefixes, 1000 at most, and its objects, followed by those of the names after its
  -- continuation token, are all objects of the listing in order, if the call succeeds.
  pub list_objects_v2_lem :
      (max_keys : ℕ) (names : List Text) {info : ListInfo}
      → IsAscending names
      → list_objects_v2 bucket name_prefix delimiter ctx_err read (ok names) [] max_keys []
        ≡ ok info
      → (length info.objects + length info.prefixes ≤ clamp_keys max_keys)
        × (clamp_keys max_keys ≤ 1000)
        × (info.objects ++ remaining info names ≡ readable names)
  unfolding list_objects_v2 text_eq
  list_objects_v2_lem max_keys names {info} up e =
      let found =
        page_loop_lem (clamp_keys max_keys) 0 names [] names none [] [] e (omega arith) up refl
          (λ p q. absurd (cc)) in
      (found.size, ground arith, found.complete)
