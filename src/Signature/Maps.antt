-- ===== src/Signature/Maps.antt =====
-- Maps of texts to values, and the texts of the standard library's package strings that
-- cmd/signature-v4.go works with.
use mini_minio.Prelude.{ℕ, List, [], ◌∷◌, ◌++◌, ◌==◌, if◌then◌else◌}
use mini_minio.Prelude.Text.{Text, text_eq, text_lt}

-- `url.Values` and `http.Header`: keys, each once, with their values.
abbrev pub Values : Type 0
Values = List (Text × List Text)

unfoldable pub values_of : Text → Values → List Text
values_of key [] = []
values_of key ((k, vs) ∷ q) = let rest = values_of key q in if text_eq k key then vs else rest

-- `Get`: the first value, or the empty text.
unfoldable pub get : Text → Values → Text
get key q = elim (values_of key q) [ [] ↦ [] | v ∷ vs ↦ v ]

-- An assignment to a key of the map, and `Set`.
unfoldable pub put : Text → List Text → Values → Values
put key vs [] = (key, vs) ∷ []
put key vs ((k, ws) ∷ q) =
    let rest = put key vs q in if text_eq k key then (k, vs) ∷ q else (k, ws) ∷ rest

-- `strings.Split` at one byte: never empty.
unfoldable pub split_first : ℕ → Text → Text × List Text
split_first c [] = ([], [])
split_first c (d ∷ t) =
    let (first, rest) = split_first c t in if c == d then ([], first ∷ rest) else (d ∷ first, rest)

abbrev pub split : ℕ → Text → List Text
split c t = let (first, rest) = split_first c t in first ∷ rest

-- `strings.Join`
unfoldable pub join_with : Text → List Text → Text
join_with sep [] = []
join_with sep (t ∷ ts) = elim ts [ [] ↦ t | u ∷ us ↦ t ++ sep ++ join_with sep ts ]

-- The keys of a map in ascending order, with their values.
unfoldable pub insert_entry : {A : Type 0} → Text × A → List (Text × A) → List (Text × A)
insert_entry e [] = e ∷ []
insert_entry e (f ∷ l) =
    let rest = insert_entry e l in if text_lt f.0 e.0 then f ∷ rest else e ∷ f ∷ l

unfoldable pub sort_entries : {A : Type 0} → List (Text × A) → List (Text × A)
sort_entries [] = []
sort_entries (e ∷ l) = insert_entry e (sort_entries l)

-- The map without the key.
unfoldable pub without : Text → Values → Values
without key [] = []
without key ((k, vs) ∷ q) =
    let rest = without key q in if text_eq k key then rest else (k, vs) ∷ rest
