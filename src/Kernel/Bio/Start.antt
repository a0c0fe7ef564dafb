-- ===== src/Kernel/Bio/Start.antt =====
-- `binit` in terms of the abstract view: behind it the blocks hold what the diskettes hold.
use bkunix.Prelude.{ℕ, zero, suc, ◌<◌, ◌≡◌, refl, ap, ◌∙◌, false, List, [], ◌∷◌, arith}
use bkunix.Prelude.Lists.{get_or, replicate}
use bkunix.Prelude.Run.{ok}
use bkunix.Kernel.State.{Buf, Kernel, nodev}
use bkunix.Kernel.Bio.{put, init_bufs, binit}
use bkunix.Kernel.Bio.View.{Represents}

-- a buffer in cleared memory
abbrev pub cleared_buf : List ℕ → Buf
cleared_buf xs = record {
  rd = false;
  done = false;
  error = false;
  busy = false;
  delwri = false;
  blkno = 0;
  dev = 0;
  err = 0;
  data_words = xs;
}

-- The tables of the cache as the program is loaded, whatever stands in the buffers.
pub record Fresh (k : Kernel) : Type 0 where
  pub cleared : (i : ℕ) → k.buf i ≡ cleared_buf (k.buf i).data_words
  pub slots : k.bufp ≡ replicate 6 0

abbrev off_dev : Buf → Buf
off_dev b = record b { dev = nodev }

-- the buffers behind `binit`
abbrev started : (ℕ → Buf) → ℕ → Buf
started f =
    put (put (put (put (put (put f 0 (off 0)) 1 (off 1)) 2 (off 2)) 3 (off 3)) 4 (off 4)) 5 (off 5)
  where
    off : ℕ → Buf
    off i = off_dev (f i)

at_6 : (P : ℕ → Type 0) → P 0 → P 1 → P 2 → P 3 → P 4 → P 5 → (i : ℕ) → i < 6 → P i
at_6 P a b c d e f zero h = a
at_6 P a b c d e f (suc zero) h = b
at_6 P a b c d e f (suc (suc zero)) h = c
at_6 P a b c d e f (suc (suc (suc zero))) h = d
at_6 P a b c d e f (suc (suc (suc (suc zero)))) h = e
at_6 P a b c d e f (suc (suc (suc (suc (suc zero))))) h = f
at_6 P a b c d e f (suc (suc (suc (suc (suc (suc i)))))) h = absurd (omega arith)

abbrev pub begun : Kernel → Kernel
begun k = record k { buf = started k.buf; bufp = 0 ∷ 1 ∷ 2 ∷ 3 ∷ 4 ∷ 5 ∷ [] }

pub binit_lem : (k : Kernel) → Fresh k → binit k ≡ ok tt (begun k)
unfolding binit init_bufs
binit_lem k f = rw f.slots refl

-- a buffer behind `binit` is as it was, but stands for no block
started_all : (k : Kernel) (i : ℕ) → i < 6 → started k.buf i ≡ off_dev (k.buf i)
started_all k = at_6 (λ i. started k.buf i ≡ off_dev (k.buf i)) refl refl refl refl refl refl

module _ (k : Kernel) (f : Fresh k) where
  -- no buffer stands for a block, and the flags are those of cleared memory
  begun_buf : (i : ℕ) → i < 6 → (begun k).buf i ≡ off_dev (cleared_buf (k.buf i).data_words)
  begun_buf i h = started_all k i h ∙ ap off_dev (f.cleared i)

  off_disk : (i : ℕ) → i < 6 → ((begun k).buf i).dev ≡ nodev
  off_disk i h = ap (λ b. b.dev) (begun_buf i h)

  not_done : (i : ℕ) → i < 6 → ((begun k).buf i).done ≡ false
  not_done i h = ap (λ b. b.done) (begun_buf i h)

  -- From cleared tables, where no transfer fails, `binit` ends in a state that represents what the
  -- diskettes hold.
  pub binit-Represents :
      ((d n : ℕ) → k.medium.bad d n ≡ false)
      → (binit k ≡ ok tt (begun k)) × Represents (begun k) k.medium.contents
  binit-Represents sound = (
    binit_lem k f,
    record {
      cache = record {
        slots = refl;
        listed = λ j h.
            (j, h, at_6 (λ i. get_or (begun k).bufp i 0 ≡ i) refl refl refl refl refl refl j h);
        known =
            at_6 (λ i. get_or (begun k).bufp i 0 < 6) (omega arith) (omega arith) (omega arith)
              (omega arith) (omega arith) (omega arith);
        once = λ i j h h' p q ne. absurd (ne (off_disk i h));
        delayed = λ j h p. absurd (cc (p, ap (λ b. b.delwri) (begun_buf j h)));
        placed = λ j h ne. absurd (ne (off_disk j h));
        healthy = λ j h. ap (λ b. b.error) (begun_buf j h);
        clean = λ j h ne. absurd (ne (off_disk j h));
      };
      sound = sound;
      at_rest = λ i h p. off_disk i h;
      idle = (0, omega arith, ap (λ b. b.busy) (begun_buf 0 (omega arith)));
      holds = λ d n ne small. record {
        cached = λ j h p q t. absurd (cc (t, not_done j h));
        stored = λ all. refl;
      };
    },
  )
