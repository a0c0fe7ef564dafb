-- ===== src/Kernel/Bio/Cache.antt =====
-- The invariant of the buffer cache, and the contents of the diskettes as the kernel sees them
-- through it.
use bkunix.Prelude.{ℕ, ◌+◌, ◌-◌, ◌<◌, ◌≡◌, ◌≢◌, refl, ◌∙◌, true, false, List, arith}
use bkunix.Prelude.Tests.{eq→==, ne→==}
use bkunix.Prelude.Lists.{length, get_or, set, length-set}
use native.Mathlib.Decide.{ℕ_discrete, dec_lt}
use bkunix.Kernel.State.{Kernel, nodev}
use bkunix.Kernel.Bio.{put, move_up}
use bkunix.Kernel.Bio.Order.{length-move_up, get_or-move_front}

-- The cache is in order: `bufp` lists the six buffers, no block stands in two of them, a delayed
-- write is of a block of the diskette and complete, no transfer has failed, and a buffer that is neither in use nor to be
-- written holds what stands on the diskette.
pub record IsCache (k : Kernel) : Type 0 where
  pub slots : length k.bufp ≡ 6
  pub listed : (j : ℕ) → j < 6 → (p : ℕ) × (p < 6) × (get_or k.bufp p 0 ≡ j)
  pub known : (p : ℕ) → p < 6 → get_or k.bufp p 0 < 6
  pub once :
      (i j : ℕ)
      → i < 6
      → j < 6
      → (k.buf i).dev ≡ (k.buf j).dev
      → (k.buf i).blkno ≡ (k.buf j).blkno
      → (k.buf i).dev ≢ nodev
      → i ≡ j
  pub delayed :
      (j : ℕ) → j < 6 → (k.buf j).delwri ≡ true → ((k.buf j).done ≡ true) × ((k.buf j).dev ≢ nodev)
  pub placed : (j : ℕ) → j < 6 → (k.buf j).dev ≢ nodev → (k.buf j).blkno < 500
  pub healthy : (j : ℕ) → j < 6 → (k.buf j).error ≡ false
  pub clean :
      (j : ℕ)
      → j < 6
      → (k.buf j).dev ≢ nodev
      → (k.buf j).busy ≡ false
      → (k.buf j).done ≡ true
      → (k.buf j).delwri ≡ false
      → (k.buf j).data_words ≡ k.medium.contents (k.buf j).dev (k.buf j).blkno

-- The block `b` of device `d` holds `w` for the kernel: a buffer that has the block holds `w`, and
-- where none has it, the diskette does.
pub record Logical (k : Kernel) (d b : ℕ) (w : List ℕ) : Type 0 where
  pub cached :
      (j : ℕ)
      → j < 6
      → (k.buf j).dev ≡ d
      → (k.buf j).blkno ≡ b
      → (k.buf j).done ≡ true
      → (k.buf j).data_words ≡ w
  pub stored :
      ((j : ℕ) → j < 6 → (k.buf j).dev ≡ d → (k.buf j).blkno ≡ b → (k.buf j).done ≡ false)
      → k.medium.contents d b ≡ w

-- From one state to the next the cache stays in order and each block holds what it held.
pub record Keeps (k k' : Kernel) : Type 0 where
  pub cache : IsCache k'
  pub same : (d b : ℕ) (w : List ℕ) → d ≢ nodev → Logical k d b w → Logical k' d b w
  pub bad : (d b : ℕ) → k'.medium.bad d b ≡ k.medium.bad d b

pub Keeps-trans : {k k' k'' : Kernel} → Keeps k k' → Keeps k' k'' → Keeps k k''
Keeps-trans u v = record {
  cache = v.cache;
  same = λ d b w h l. v.same d b w h (u.same d b w h l);
  bad = λ d b. v.bad d b ∙ u.bad d b;
}

pub put_self : {A : Type 0} (f : ℕ → A) (j : ℕ) (a : A) → put f j a j ≡ a
put_self f j a = rw (eq→== j j refl)

pub put_ne : {A : Type 0} (f : ℕ → A) (j i : ℕ) (a : A) → i ≢ j → put f j a i ≡ f i
put_ne f j i a h = rw (ne→== i j h)

-- the state with the buffer at place `i` moved to the front
abbrev pub fronted : ℕ → Kernel → Kernel
fronted i k = record k { bufp = set (move_up i k.bufp) 0 (get_or k.bufp i 0) }

module _ (k : Kernel) (c : IsCache k) where
  fronted-listed :
      (i : ℕ) → i < 6 → (j : ℕ) → j < 6 → (p : ℕ) × (p < 6) × (get_or (fronted i k).bufp p 0 ≡ j)
  fronted-listed i h j lt =
      let (p, in_range, at) = c.listed j lt in
      let front = λ (q : ℕ). get_or-move_front i k.bufp q (omega (arith, c.slots)) in
      elim (ℕ_discrete p i) [
        | yes e ↦ (0, omega arith, front 0 ∙ rw (← e) at)
        | no e ↦ elim (dec_lt p i) [
          | yes below ↦ (p + 1, omega arith, front (p + 1) ∙ ground arith)
          | no above ↦ (p, in_range, front p ∙ ground arith)
        ]
      ]

  fronted-known : (i : ℕ) → i < 6 → (p : ℕ) → p < 6 → get_or (fronted i k).bufp p 0 < 6
  fronted-known i h p lt =
      rw (get_or-move_front i k.bufp p (omega (arith, c.slots)))
        (ground (arith, c.known i h, c.known p lt, c.known (p - 1)))

  pub fronted-Keeps : (i : ℕ) → i < 6 → Keeps k (fronted i k)
  fronted-Keeps i h = record {
    cache = record {
      slots = length-set (move_up i k.bufp) 0 _ ∙ length-move_up i k.bufp ∙ c.slots;
      listed = fronted-listed i h;
      known = fronted-known i h;
      once = c.once;
      delayed = c.delayed;
      placed = c.placed;
      healthy = c.healthy;
      clean = c.clean;
    };
    same = λ d b w n l. record { cached = l.cached; stored = l.stored };
    bad = λ d b. refl;
  }
