-- ===== src/Writer/Places.antt =====
-- What the place of the caller and of the goroutine says of a buffered writer.
use mini_minio.Prelude.{
  ◌≡◌, refl, ap, ◌⊎◌, inl, inr, Bool, true, false, Option, none, some, List, [],
}
use mini_minio.Prelude.Errors.{Error, is_nil}
use mini_minio.Erasure.Reader.{Bytes}
use mini_minio.Writer.{
  Caller, ready, wants_write, sends, wants_close, waits, reads, Runner, receives, writes, fails,
  closes, fails_close, finished, set_err,
}

-- Closed or not, by where the caller stands.
abbrev pub CallerAt : Caller → Bool → Type 0
CallerAt (sends p) c = c ≡ false
CallerAt wants_close c = c ≡ false
CallerAt waits c = c ≡ true
CallerAt reads c = c ≡ true
CallerAt _ c = Unit {0}

-- Once `run` has left its loop the channel is closed and empty.
abbrev pub RunnerAt : Runner → Bool → List Bytes → Type 0
RunnerAt closes c q = (c ≡ true) × (q ≡ [])
RunnerAt (fails_close e) c q = (c ≡ true) × (q ≡ [])
RunnerAt finished c q = (c ≡ true) × (q ≡ [])
RunnerAt _ c q = Unit {0}

-- Close has waited for `run`, or has set an error.
abbrev pub has_waited : Caller → Bool → Bool
has_waited ready c = c
has_waited (wants_write p) c = c
has_waited reads c = true
has_waited _ c = false

abbrev pub Waited : Bool → Runner → Option Error → Type 0
Waited false r f = Unit {0}
Waited true r f = (r ≡ finished) ⊎ (is_nil f ≡ false)

-- A property that holds under a condition.
abbrev pub When : Bool → Type 0 → Type 0
When false A = Unit {0}
When true A = A

pub When-map : (b : Bool) (A B : Type 0) → (A → B) → When b A → When b B
When-map false A B f h = tt
When-map true A B f h = f h

abbrev pub is_final : Runner → Bool
is_final finished = true
is_final _ = false

pub Waited-moves :
    (b : Bool) (r r' : Runner) (f : Option Error)
    → is_final r ≡ false
    → Waited b r f
    → Waited b r' f
Waited-moves false r r' f n h = tt
Waited-moves true r r' f n (inl e) = absurd (cc (n, ap is_final e))
Waited-moves true r r' f n (inr e) = inr e

pub Waited-finished : (b : Bool) (f : Option Error) → Waited b finished f
Waited-finished false f = tt
Waited-finished true f = inl refl

pub Waited-failed : (b : Bool) (r : Runner) (f : Option Error) → is_nil f ≡ false → Waited b r f
Waited-failed false r f h = tt
Waited-failed true r f h = inr h

pub is_nil-set_err : (e : Error) (f : Option Error) → is_nil (set_err e f) ≡ false
is_nil-set_err e none = refl
is_nil-set_err e (some x) = refl

-- While the channel is open `run` is in its loop.
pub RunnerAt-open :
    (r : Runner) (c : Bool) (q q' : List Bytes) → c ≡ false → RunnerAt r c q → RunnerAt r c q'
RunnerAt-open receives c q q' o h = tt
RunnerAt-open (writes b) c q q' o h = tt
RunnerAt-open (fails e) c q q' o h = tt
RunnerAt-open closes c q q' o h = absurd (cc (o, h.0))
RunnerAt-open (fails_close e) c q q' o h = absurd (cc (o, h.0))
RunnerAt-open finished c q q' o h = absurd (cc (o, h.0))

pub RunnerAt-close :
    (r : Runner) (c : Bool) (q : List Bytes) → c ≡ false → RunnerAt r c q → RunnerAt r true q
RunnerAt-close receives c q o h = tt
RunnerAt-close (writes b) c q o h = tt
RunnerAt-close (fails e) c q o h = tt
RunnerAt-close closes c q o h = absurd (cc (o, h.0))
RunnerAt-close (fails_close e) c q o h = absurd (cc (o, h.0))
RunnerAt-close finished c q o h = absurd (cc (o, h.0))
