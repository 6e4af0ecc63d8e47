-- ===== src/Writer/Close.antt =====
-- What a nil error of Close means.
use mini_minio.Prelude.{ℕ, ◌≡◌, inl, inr, Option, none, arith}
use mini_minio.Prelude.Errors.{Error}
use mini_minio.Erasure.Reader.{Bytes}
use mini_minio.Writer.{BufferedWriter, reads, Reach}
use mini_minio.Writer.Inv.{Reach-Inv, write_all}

-- When Close of the buffered shard writer is about to return a nil error, in every interleaving,
-- the chunks that Write accepted have all been written to the drive in their order without an
-- error, and the drive file was closed without an error.
pub close_lem :
    {W : Type 0} (write : W → Bytes → Option Error × W) (close : W → Option Error × W)
    (ctx_err : Error) (capacity : ℕ) (w : W) (s : BufferedWriter W)
    → Reach write close ctx_err capacity w s
    → s.caller ≡ reads
    → s.failure ≡ none
    → (m : W) × (write_all write close w s.accepted ≡ (none, m)) × (close m ≡ (none, s.dst))
close_lem write close ctx_err capacity w s r e f =
    let inv = Reach-Inv write close ctx_err capacity r in
    elim (rw e at inv.waited) [
      | inl done ↦ rw done at (rw f at inv.written)
      | inr bad ↦ absurd (ground (arith, bad, f))
    ]
