-- ===== src/Hash/Tests.antt =====
-- A stream of five bytes that comes two bytes at a time, with a size of three.
use mini_minio.Prelude.{
  ℕ, min, ◌≡◌, refl, sym, inl, inr, Option, none, some, [], ◌∷◌, length, leb, take, drop,
  take-append-drop, length-take, if◌then◌else◌, arith, Bool-cases,
}
use mini_minio.Prelude.Int.{pos}
use mini_minio.Prelude.Slices.{drop_all}
use mini_minio.Prelude.Errors.{Error, eof}
use mini_minio.Erasure.Reader.{Bytes}
use mini_minio.Hash.{HashReader, new_reader, read_all, md5_of, print_hex, decode_hex}
use mini_minio.Hash.Limit.{IsStream}
use mini_minio.Hash.Whole.{read_all_lem}

abbrev read_two : Bytes → ℕ → Bytes × Option Error × Bytes
read_two s room =
    let k = min room 2 in (take k s, if leb (length s) k then some eof else none, drop k s)

read_two-IsStream : IsStream read_two (λ s. s)
read_two-IsStream s room some_room =
    let k = min room 2 in
    let size = length-take k s in
    record {
      fits = omega (arith, size);
      delivers = sym (take-append-drop k s);
      ends = elim (Bool-cases (leb (length s) k)) [
        | inl t ↦ inr (rw t refl, drop_all k s (ground (arith, t)))
        | inr f ↦ inl (rw f refl, ground (arith, f, size, some_room))
      ];
    }

abbrev five : Bytes
five = 7 ∷ 8 ∷ 9 ∷ 10 ∷ 11 ∷ []

abbrev three : HashReader Bytes
three = record {
  src = record { src = five; left = some 3 };
  bytes_read = 0;
  size = pos 3;
  checksum = [];
  hashed = [];
}

read_all_lem_example :
    let (b, end, r') = read_all read_two (λ b. b) (λ i. 512) 6 0 three in
    (b ≡ 7 ∷ 8 ∷ 9 ∷ []) × (end ≡ some eof) × (md5_of (λ b. b) r' ≡ print_hex (7 ∷ 8 ∷ 9 ∷ []))
unfolding new_reader decode_hex
read_all_lem_example =
    read_all_lem read_two (λ s. s) read_two-IsStream (λ b. b) (pos 3) [] (λ i. 512) 6 five three
      (λ i. omega arith) (omega arith) refl
