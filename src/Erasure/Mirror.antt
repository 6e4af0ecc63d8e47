-- ===== src/Erasure/Mirror.antt =====
-- The Reed–Solomon code of one data and one parity block, which is mirroring: a coder that has the
-- laws assumed of the encoder.
use mini_minio.Prelude.{
  ℕ, ◌≤◌, ◌<◌, ◌≡◌, refl, ap, ◌∙◌, inl, inr, List, [], ◌∷◌, ◌++◌, length, take, replicate, concat,
  All, All₂, arith, length-replicate,
}
use mini_minio.Prelude.Errors.{Result, ok, err, short_data}
use mini_minio.Erasure.{Geometry, shard_size_for}
use mini_minio.Erasure.Reader.{Bytes}
use mini_minio.Erasure.Coder.{Coder, IsCode, present, Survives}
use mini_minio.Erasure.Coder.Laws.{IsShards}

-- One data and one parity block, in blocks of four bytes.
abbrev pub mirror_geometry : Geometry
mirror_geometry = record { data_blocks = 1; parity_blocks = 1; block_size = 4 }

abbrev pub mirror_split : Bytes → Result (List Bytes)
mirror_split [] = err short_data
mirror_split (x ∷ d) = ok ((x ∷ d) ∷ replicate (length (x ∷ d)) 0 ∷ [])

abbrev pub mirror_encode : List Bytes → Result (List Bytes)
mirror_encode (a ∷ b ∷ []) = ok (a ∷ a ∷ [])
mirror_encode _ = err short_data

abbrev pub mirror_reconstruct : List Bytes → Result (List Bytes)
mirror_reconstruct ([] ∷ b ∷ []) = ok (b ∷ b ∷ [])
mirror_reconstruct ((x ∷ a) ∷ b ∷ []) = ok ((x ∷ a) ∷ b ∷ [])
mirror_reconstruct _ = err short_data

abbrev pub mirror : Coder
mirror = record {
  split = mirror_split;
  encode = mirror_encode;
  reconstruct_data = mirror_reconstruct;
}

shard_size_mirror : (n : ℕ) → 0 < n → n ≡ shard_size_for mirror_geometry n
unfolding shard_size_for
shard_size_mirror n pos = ground arith

mirror_split_lem :
    (d : Bytes)
    → 0 < length d
    → (shards : List Bytes) × (pad : ℕ) × (mirror_split d ≡ ok shards)
      × (length shards ≡ 2)
      × All (λ s. length s ≡ shard_size_for mirror_geometry (length d)) shards
      × (concat (take 1 shards) ≡ d ++ replicate pad 0)
mirror_split_lem [] pos = absurd (omega arith)
mirror_split_lem (x ∷ d) pos =
    let size = shard_size_mirror (length (x ∷ d)) pos in
    (
      (x ∷ d) ∷ replicate (length (x ∷ d)) 0 ∷ [],
      0,
      refl,
      refl,
      (size, (length-replicate (length (x ∷ d)) 0 ∙ size, tt)),
      refl,
    )

mirror_encode_lem :
    (size : ℕ) (shards : List Bytes)
    → length shards ≡ 2
    → All (λ s. length s ≡ size) shards
    → (out : List Bytes) × (mirror_encode shards ≡ ok out)
      × (length out ≡ 2)
      × All (λ s. length s ≡ size) out
      × (take 1 out ≡ take 1 shards)
mirror_encode_lem size [] count sizes = absurd (omega arith)
mirror_encode_lem size (a ∷ []) count sizes = absurd (omega arith)
mirror_encode_lem size (a ∷ b ∷ []) count sizes =
    (a ∷ a ∷ [], refl, refl, (sizes.0, (sizes.0, tt)), refl)
mirror_encode_lem size (a ∷ b ∷ x ∷ l) count sizes = absurd (omega arith)

mirror_reconstruct_lem :
    (bufs : List Bytes) (a : Bytes)
    → All₂ Survives bufs (a ∷ a ∷ [])
    → 1 ≤ present bufs
    → (res : List Bytes) × (mirror_reconstruct bufs ≡ ok res) × (take 1 res ≡ a ∷ [])
mirror_reconstruct_lem [] a h enough = elim h [ ]
mirror_reconstruct_lem (b ∷ []) a h enough = elim h.1 [ ]
mirror_reconstruct_lem ([] ∷ [] ∷ []) a h enough = absurd (omega arith)
mirror_reconstruct_lem ([] ∷ (y ∷ b) ∷ []) a h enough =
    ((y ∷ b) ∷ (y ∷ b) ∷ [], refl, ap (λ l. l ∷ []) (same h.1.0))
  where
    same : Survives (y ∷ b) a → y ∷ b ≡ a
    same (inl e) = absurd (cc)
    same (inr e) = e
mirror_reconstruct_lem ((x ∷ c) ∷ b ∷ []) a h enough =
    ((x ∷ c) ∷ b ∷ [], refl, ap (λ l. l ∷ []) (same h.0))
  where
    same : Survives (x ∷ c) a → x ∷ c ≡ a
    same (inl e) = absurd (cc)
    same (inr e) = e
mirror_reconstruct_lem (b ∷ c ∷ x ∷ l) a h enough = elim h.1.1 [ ]

-- A block that is not empty and its copy are its shards.
pub mirror-IsShards : (a : Bytes) → 0 < length a → IsShards mirror_geometry mirror a (a ∷ a ∷ [])
mirror-IsShards a pos =
    let size = shard_size_mirror (length a) pos in
    record {
      count = refl;
      sizes = (size, (size, tt));
      content = (0, refl);
      restores = λ bufs survive enough. mirror_reconstruct_lem bufs a survive enough;
    }

pub mirror-IsCode : IsCode mirror_geometry mirror
mirror-IsCode = record {
  split_lem = mirror_split_lem;
  encode_lem = mirror_encode_lem;
  reconstruct_lem =
      λ shards out bufs count enc h enough. restore shards out bufs count enc h enough;
}
  where
    restore :
        (shards out bufs : List Bytes)
        → length shards ≡ 2
        → mirror_encode shards ≡ ok out
        → All₂ Survives bufs out
        → 1 ≤ present bufs
        → (res : List Bytes) × (mirror_reconstruct bufs ≡ ok res) × (take 1 res ≡ take 1 out)
    restore [] out bufs count enc h enough = absurd (omega arith)
    restore (a ∷ []) out bufs count enc h enough = absurd (omega arith)
    restore (a ∷ b ∷ []) out bufs count enc h enough =
        let same : out ≡ a ∷ a ∷ [] = ground arith in
        rw same (mirror_reconstruct_lem bufs a (rw same at h) enough)
    restore (a ∷ b ∷ x ∷ l) out bufs count enc h enough = absurd (omega arith)
