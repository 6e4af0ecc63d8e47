-- ===== src/Object/Meta/Vote.antt =====
-- What readMeta chooses.
use mini_minio.Prelude.{
  ℕ, ◌≤◌, ◌≡◌, refl, true, false, Option, none, some, List, [], ◌∷◌, ltb, arith, ◌⊎◌, inl, inr,
  Bool-cases, ltb→lt,
}
use mini_minio.Prelude.Errors.{Result, ok, err, object_not_found}
use mini_minio.Object.Meta.{XlMeta, count_key, pick_best, vote, read_meta}

-- The metadata was read by some drive.
abbrev pub Among : XlMeta → List (Result XlMeta) → Type 0
Among m [] = ⊥
Among m (err e ∷ rs) = Among m rs
Among m (ok m' ∷ rs) = (m ≡ m') ⊎ Among m rs

-- No metadata among `rs` has more than `n` votes in `all`.
abbrev pub AtMost : ℕ → List (Result XlMeta) → List (Result XlMeta) → Type 0
AtMost n all [] = Unit {0}
AtMost n all (err e ∷ rs) = AtMost n all rs
AtMost n all (ok m ∷ rs) = (count_key m all ≤ n) × AtMost n all rs

-- Nothing was read.
abbrev pub NoneRead : List (Result XlMeta) → Type 0
NoneRead [] = Unit {0}
NoneRead (err e ∷ rs) = NoneRead rs
NoneRead (ok m ∷ rs) = ⊥

AtMost-mono : {n k : ℕ} (all rs : List (Result XlMeta)) → n ≤ k → AtMost n all rs → AtMost k all rs
AtMost-mono all [] le h = tt
AtMost-mono all (err e ∷ rs) le h = AtMost-mono all rs le h
AtMost-mono all (ok m ∷ rs) le h = (omega arith, AtMost-mono all rs le h.1)

taken_from :
    (x : XlMeta) {m : XlMeta} (rs : List (Result XlMeta))
    → (some x ≡ some m) ⊎ Among m rs
    → (m ≡ x) ⊎ Among m rs
taken_from x rs (inl e) = inl (ground arith)
taken_from x rs (inr a) = inr a

passed_from :
    (x : XlMeta) {m : XlMeta} {best : Option XlMeta} (rs : List (Result XlMeta))
    → (best ≡ some m) ⊎ Among m rs
    → (best ≡ some m) ⊎ ((m ≡ x) ⊎ Among m rs)
passed_from x rs (inl e) = inl e
passed_from x rs (inr a) = inr (inr a)

module _ (all : List (Result XlMeta)) where
  abbrev IsBest : Option XlMeta → ℕ → Type 0
  IsBest none votes = votes ≡ 0
  IsBest (some m) votes = votes ≡ count_key m all

  record Picked (best : Option XlMeta) (best_count : ℕ) (rs : List (Result XlMeta)) (m : XlMeta)
      : Type 0 where
    from : (best ≡ some m) ⊎ Among m rs
    above : best_count ≤ count_key m all
    most : AtMost (count_key m all) all rs

  pick_best_lem :
      (rs : List (Result XlMeta)) (best : Option XlMeta) (best_count : ℕ) {m : XlMeta}
      → IsBest best best_count
      → pick_best all rs best best_count ≡ some m
      → Picked best best_count rs m
  unfolding pick_best
  pick_best_lem [] none best_count b h = cc
  pick_best_lem [] (some b) best_count {m} i h = record {
    from = inl h;
    above = ground arith;
    most = tt;
  }
  pick_best_lem (err e ∷ rs) best best_count b h =
      let p = pick_best_lem rs best best_count b h in
      record { from = p.from; above = p.above; most = p.most }
  pick_best_lem (ok x ∷ rs) best best_count {m} b h =
      elim (Bool-cases (ltb best_count (count_key x all))) [
        | inl more ↦ taken more (pick_best_lem rs (some x) (count_key x all) refl (ground arith))
        | inr less ↦ passed less (pick_best_lem rs best best_count b (ground arith))
      ]
    where
      taken :
          ltb best_count (count_key x all) ≡ true
          → Picked (some x) (count_key x all) rs m
          → Picked best best_count (ok x ∷ rs) m
      taken more p = record {
        from = inr (taken_from x rs p.from);
        above = omega (arith, ltb→lt best_count (count_key x all) more, p.above);
        most = (p.above, p.most);
      }

      passed :
          ltb best_count (count_key x all) ≡ false
          → Picked best best_count rs m
          → Picked best best_count (ok x ∷ rs) m
      passed less p = record {
        from = passed_from x rs p.from;
        above = p.above;
        most = (ground (arith, p.above), p.most);
      }

  -- The winner was read, and no metadata that was read has more votes.
  abbrev pub IsWinner : XlMeta → Type 0
  IsWinner m = Among m all × AtMost (count_key m all) all all

  vote-IsWinner : {m : XlMeta} → vote all ≡ ok m → IsWinner m
  unfolding vote
  vote-IsWinner {m} h =
      let p = pick_best_lem all none 0 refl (picked (pick_best all all none 0) h) in
      (was_read p.from, p.most)
    where
      picked :
          (o : Option XlMeta)
          → elim o [ some w ↦ ok w | none ↦ err object_not_found ] ≡ ok m
          → o ≡ some m
      picked none h = cc
      picked (some w) h = ground arith

      was_read : (none ≡ some m) ⊎ Among m all → Among m all
      was_read (inl e) = absurd (cc)
      was_read (inr a) = a

pick_best-none : (all rs : List (Result XlMeta)) → NoneRead rs → pick_best all rs none 0 ≡ none
unfolding pick_best
pick_best-none all [] h = refl
pick_best-none all (err e ∷ rs) h = pick_best-none all rs h
pick_best-none all (ok m ∷ rs) h = absurd h

-- The first metadata that a pass over the drives has read.
abbrev pub FirstRead : XlMeta → List (Result XlMeta) → Type 0
FirstRead m [] = ⊥
FirstRead m (err e ∷ rs) = FirstRead m rs
FirstRead m (ok m' ∷ rs) = m ≡ m'

-- The metadata that readMeta returns is the first one that the sequential pass read, or, if that
-- pass read none, one of the parallel pass with the most votes.
pub read_meta_lem :
    (first second : List (Result XlMeta)) {m : XlMeta}
    → read_meta first second ≡ ok m
    → FirstRead m first ⊎ (NoneRead first × IsWinner second m)
unfolding read_meta
read_meta_lem [] second h = inr (tt, vote-IsWinner second h)
read_meta_lem (ok x ∷ first) second h = inl (ground arith)
read_meta_lem (err e ∷ first) second h = read_meta_lem first second h

-- If neither pass of readMeta reads any metadata, it returns the error of an object that is not
-- found.
pub read_meta_none :
    (first second : List (Result XlMeta))
    → NoneRead first
    → NoneRead second
    → read_meta first second ≡ err object_not_found
unfolding read_meta vote
read_meta_none [] second n h = ground (arith, pick_best-none second second h)
read_meta_none (ok x ∷ first) second n h = absurd n
read_meta_none (err e ∷ first) second n h = read_meta_none first second n h
