-- ===== src/Kernel/Bio/View.antt =====
-- The abstract view of the buffer cache: an array of blocks for each device.
use bkunix.Prelude.{ℕ, ◌<◌, ◌≡◌, ◌≢◌, true, false, List, ◌&&◌}
use bkunix.Prelude.Tests.{◌==◌, if◌then◌else◌}
use bkunix.Kernel.State.{Kernel, nodev}
use bkunix.Kernel.Bio.Cache.{IsCache, Logical}

-- The words of each block of each device.
abbrev pub Blocks : Type 0
Blocks = ℕ → ℕ → List ℕ

abbrev pub updated : Blocks → ℕ → ℕ → List ℕ → Blocks
updated a d n w d' n' = if d' == d && n' == n then w else a d' n'

-- Between two uses of the cache: no transfer fails, only buffers that stand for no block are in
-- use, one at least is not, and the blocks hold what `a` says.
pub record Represents (k : Kernel) (a : Blocks) : Type 0 where
  pub cache : IsCache k
  pub sound : (d n : ℕ) → k.medium.bad d n ≡ false
  pub at_rest : (i : ℕ) → i < 6 → (k.buf i).busy ≡ true → (k.buf i).dev ≡ nodev
  pub idle : (i : ℕ) × (i < 6) × ((k.buf i).busy ≡ false)
  pub holds : (d n : ℕ) → d ≢ nodev → n < 500 → Logical k d n (a d n)

-- The buffer `j` is in use for the block `n` of device `d`, and may hold anything; the other blocks
-- hold what `a` says.
pub record Using (k : Kernel) (j d n : ℕ) (a : Blocks) : Type 0 where
  pub cache : IsCache k
  pub sound : (d' n' : ℕ) → k.medium.bad d' n' ≡ false
  pub index : j < 6
  pub on_dev : (k.buf j).dev ≡ d
  pub at_block : (k.buf j).blkno ≡ n
  pub on_disk : d ≢ nodev
  pub used : (k.buf j).busy ≡ true
  pub rest : (i : ℕ) → i < 6 → i ≢ j → (k.buf i).busy ≡ true → (k.buf i).dev ≡ nodev
  pub others :
      (d' n' : ℕ) → d' ≢ nodev → n' < 500 → (d' ≡ d → n' ≡ n → ⊥) → Logical k d' n' (a d' n')

-- The buffer in use has not been changed.
pub record Unchanged (k : Kernel) (j d n : ℕ) (a : Blocks) : Type 0 where
  pub settled :
      (k.buf j).done ≡ true
      → (k.buf j).delwri ≡ false
      → (k.buf j).data_words ≡ k.medium.contents d n
  pub own : Logical k d n (a d n)

-- The state `k` with the tables of `k'`, but for the buffers and the diskettes.
abbrev pub beside : Kernel → Kernel → Kernel
beside k k' = record k' { medium = k.medium; buf = k.buf; bufp = k.bufp }

-- Only the buffers and the diskettes differ.
abbrev pub SameTables : Kernel → Kernel → Type 0
SameTables k k' = k' ≡ beside k' k

-- What holds of the buffers and the diskettes does not depend on the other tables.
module _ (k k' : Kernel) where
  IsCache-beside : IsCache k → IsCache (beside k k')
  IsCache-beside c = record {
    slots = c.slots;
    listed = c.listed;
    known = c.known;
    once = c.once;
    delayed = c.delayed;
    placed = c.placed;
    healthy = c.healthy;
    clean = c.clean;
  }

  Logical-beside : {d n : ℕ} {w : List ℕ} → Logical k d n w → Logical (beside k k') d n w
  Logical-beside l = record { cached = l.cached; stored = l.stored }

  pub Represents-beside : {a : Blocks} → Represents k a → Represents (beside k k') a
  Represents-beside r = record {
    cache = IsCache-beside r.cache;
    sound = r.sound;
    at_rest = r.at_rest;
    idle = r.idle;
    holds = λ d n p q. Logical-beside (r.holds d n p q);
  }

  pub Using-beside : {j d n : ℕ} {a : Blocks} → Using k j d n a → Using (beside k k') j d n a
  Using-beside u = record {
    cache = IsCache-beside u.cache;
    sound = u.sound;
    index = u.index;
    on_dev = u.on_dev;
    at_block = u.at_block;
    on_disk = u.on_disk;
    used = u.used;
    rest = u.rest;
    others = λ d n p q apart. Logical-beside (u.others d n p q apart);
  }

  pub Unchanged-beside :
      {j d n : ℕ} {a : Blocks} → Unchanged k j d n a → Unchanged (beside k k') j d n a
  Unchanged-beside v = record { settled = v.settled; own = Logical-beside v.own }
