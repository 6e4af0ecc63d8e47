-- ===== src/Object/Memory.antt =====
-- A drive that keeps the files of an object in memory, with the laws of a drive.
use mini_minio.Prelude.{
  ◌≡◌, false, refl, inl, inr, Bool, Option, none, some, [], ◌∷◌, arith, if◌then◌else◌, Bool-cases,
}
use mini_minio.Prelude.Text.{Text, text_eq, text_eq→eq}
use mini_minio.Prelude.Errors.{is_nil, Error, ok, err, object_not_found, short_write}
use mini_minio.Object.Meta.{XlMeta, Api}
use mini_minio.Object.Commit.Safe.{IsDrive}

-- `broken` fails every write.
pub record Drive : Type 0 where
  pub meta : Option XlMeta
  pub tmp : Option XlMeta
  pub files : Text → Text
  pub broken : Bool

abbrev pub write_tmp_file : XlMeta → Drive → Option Error × Drive
write_tmp_file m d = if d.broken then (some short_write, d) else (none, record d { tmp = some m })

abbrev pub rename_file : Drive → Option Error × Drive
rename_file d =
    if d.broken then (some short_write, d) else (none, record d { meta = d.tmp; tmp = none })

abbrev pub remove_dir : Text → Drive → Option Error × Drive
remove_dir t d = (none, record d { files = λ u. if text_eq u t then [] else d.files u })

abbrev pub api : Api Drive
api = record {
  write_meta_tmp = λ b o m d. write_tmp_file m d;
  rename_meta = λ b o d. rename_file d;
  read_meta = λ b o d. elim d.meta [ some m ↦ ok m | none ↦ err object_not_found ];
  delete_object_data = λ b o t d. remove_dir t d;
  delete_object = λ b o d. (none, record d { meta = none });
}

-- A failed write changes nothing, and a rename moves the temporary file.
pub tmp_lem :
    (m : XlMeta) (d : Drive) → (write_tmp_file m d).0 ≡ none → (write_tmp_file m d).1.tmp ≡ some m
tmp_lem m d h = ground arith

pub tmp_keeps : (m : XlMeta) (d : Drive) → (write_tmp_file m d).1.meta ≡ d.meta
tmp_keeps m d = ground arith

pub tmp_data : (m : XlMeta) (d : Drive) (t : Text) → (write_tmp_file m d).1.files t ≡ d.files t
tmp_data m d t = ground arith

pub rename_lem : (d : Drive) → (rename_file d).0 ≡ none → (rename_file d).1.meta ≡ d.tmp
rename_lem d h = ground arith

pub rename_fails : (d : Drive) → is_nil (rename_file d).0 ≡ false → (rename_file d).1.meta ≡ d.meta
rename_fails d h = ground arith

pub rename_data : (d : Drive) (t : Text) → (rename_file d).1.files t ≡ d.files t
rename_data d t = ground arith

unfoldable pub api-IsDrive : IsDrive api (2 ∷ []) (1 ∷ [])
api-IsDrive = record {
  meta_of = λ d. d.meta;
  tmp_of = λ d. d.tmp;
  data_of = λ t d. d.files t;
  tmp_lem = tmp_lem;
  tmp_keeps = tmp_keeps;
  tmp_data = tmp_data;
  rename_lem = rename_lem;
  rename_fails = rename_fails;
  rename_data = rename_data;
  delete_keeps = λ t d. refl;
  delete_data = λ t u d ne. elim (Bool-cases (text_eq u t)) [
    | inl e ↦ absurd (ne (text_eq→eq u t e))
    | inr f ↦ rw f refl
  ];
}

abbrev pub drive : Bool → Drive
drive broken = record { meta = none; tmp = none; files = λ t. []; broken = broken }
