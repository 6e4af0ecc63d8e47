-- ===== src/Rest/Handler.antt =====
-- The handler of NewStorageRESTHandler (cmd/storage-rest-server.go): the drives of a node by their
-- identifier.
use mini_minio.Prelude.{
  ℕ, ◌⊎◌, Option, none, some, ◌≢◌, sym, ap, ap₂, ◌∙◌, ◌≡◌, refl, Bool, true, false, not,
  if◌then◌else◌, List, [], ◌∷◌, Bool-cases, inl, inr,
}
use mini_minio.Prelude.Text.{Text, text_eq, text_eq→eq}
use mini_minio.Rest.{
  Operation, unknown_op, Method, RequestPath, drive_path, bad_path, Values, Request, Response,
  no_body, Digits, StorageApi,
}
use mini_minio.Rest.Auth.{valid_request}
use mini_minio.Rest.Server.{http_not_found, serve}

-- `http.Error(…, http.StatusForbidden)`
abbrev pub forbidden : Response
forbidden = record { status = 403; content = no_body }

abbrev pub drive_of : {D : Type 0} → Text → List (Text × D) → Option D
drive_of i [] = none
drive_of i ((j, d) ∷ drives) = if text_eq j i then some d else drive_of i drives

abbrev pub operation_in : RequestPath → Operation
operation_in (drive_path _ operation) = operation
operation_in bad_path = unknown_op

not_true : (b : Bool) → ¬ (b ≡ true) → b ≡ false
not_true false h = refl
not_true true h = absurd (h refl)

module _ {D W : Type 0} (api : StorageApi D W) (digits : Digits) where
  -- `drives[id]`, on which the request is served.
  pub serve_drive : Text → Request → List (Text × D) → Response × List (Text × D)
  serve_drive drive_id r [] = (http_not_found, [])
  serve_drive drive_id r ((i, d) ∷ drives) =
      let (rest, drives') = serve_drive drive_id r drives in
      if text_eq i drive_id
      then elim r.path [
        | drive_path _ operation ↦
            let (resp, d') = serve api digits operation r.method r d in (resp, (i, d') ∷ drives)
        | bad_path ↦ (http_not_found, (i, d) ∷ drives)
      ]
      else (rest, (i, d) ∷ drives')

  serve_drive_others :
      (drive_id i : Text) (r : Request)
      → i ≢ drive_id
      → (drives : List (Text × D))
      → drive_of i (serve_drive drive_id r drives).1 ≡ drive_of i drives
  unfolding serve_drive
  serve_drive_others drive_id i r ne [] = refl
  serve_drive_others drive_id i r ne ((j, d) ∷ drives) = elim (Bool-cases (text_eq j drive_id)) [
    | inr other_drive ↦ rw (other_drive, serve_drive_others drive_id i r ne drives) refl
    | inl this_drive ↦
        let differs : text_eq j i ≡ false =
          not_true (text_eq j i)
            (λ t. ne (sym (text_eq→eq j i t) ∙ text_eq→eq j drive_id this_drive)) in
        rw this_drive (by_path r.path differs)
  ]
    where
      by_path :
          (p : RequestPath)
          → text_eq j i ≡ false
          → drive_of i (
              let x : Response × List (Text × D) = elim p [
                | drive_path _ operation ↦
                    let (resp, d') = serve api digits operation r.method r d in
                    (resp, (j, d') ∷ drives)
                | bad_path ↦ (http_not_found, (j, d) ∷ drives)
              ] in
              x.1)
            ≡ drive_of i ((j, d) ∷ drives)
      by_path (drive_path _ operation) f = rw f refl
      by_path bad_path f = refl

  module _ (mac : Text → Text → Method → RequestPath → Values → Text → Text)
      (secret config_hash : Text) where
    pub storage_handler : (now : ℕ) → Request → List (Text × D) → Response × List (Text × D)
    storage_handler now r drives =
        if not (valid_request digits mac secret config_hash now r)
        then (forbidden, drives)
        else elim r.path [
          | bad_path ↦ (http_not_found, drives)
          | drive_path drive_id operation ↦ serve_drive drive_id r drives
        ]

    -- No drive of a node changes but the one that a valid request names.
    pub storage_handler_others :
        (now : ℕ) (r : Request) (i : Text) (drives : List (Text × D))
        → (valid_request digits mac secret config_hash now r ≡ false)
          ⊎ (r.path ≢ drive_path i (operation_in r.path))
        → drive_of i (storage_handler now r drives).1 ≡ drive_of i drives
    unfolding storage_handler
    storage_handler_others now r i drives h =
        elim (Bool-cases (valid_request digits mac secret config_hash now r)) [
          | inr invalid ↦ rw invalid refl
          | inl valid ↦ rw valid (by_path r.path refl (named h valid))
        ]
      where
        named :
            (valid_request digits mac secret config_hash now r ≡ false)
              ⊎ (r.path ≢ drive_path i (operation_in r.path))
            → valid_request digits mac secret config_hash now r ≡ true
            → r.path ≢ drive_path i (operation_in r.path)
        named (inl refused) taken = absurd (cc)
        named (inr ne) taken = ne

        by_path :
            (p : RequestPath)
            → r.path ≡ p
            → r.path ≢ drive_path i (operation_in r.path)
            → drive_of i (
                let x : Response × List (Text × D) = elim p [
                  | bad_path ↦ (http_not_found, drives)
                  | drive_path drive_id operation ↦ serve_drive drive_id r drives
                ] in
                x.1)
              ≡ drive_of i drives
        by_path bad_path e ne = refl
        by_path (drive_path drive_id operation) e ne =
            serve_drive_others drive_id i r
              (λ same. ne (e ∙ ap₂ drive_path (sym same) (ap operation_in (sym e)))) drives
