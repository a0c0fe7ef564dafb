-- ===== src/Kernel/Bio/Replace.antt =====
-- A buffer of the cache replaced by another, and perhaps a block of the diskette: when the cache
-- stays in order, and what the blocks then hold.
use bkunix.Prelude.{ℕ, ◌<◌, ◌≡◌, ◌≢◌, sym, ◌∙◌, true, false, List}
use mathlib.Core.Path.{subst}
use native.Mathlib.Decide.{ℕ_discrete}
use bkunix.Kernel.State.{Buf, Medium, Kernel, nodev}
use bkunix.Kernel.Bio.{put, set_buf}
use bkunix.Kernel.Bio.Cache.{IsCache, Logical, put_self, put_ne}

module _ (k : Kernel) (c : IsCache k) (j : ℕ) (lt : j < 6) (b' : Buf) (m' : Medium) where
  abbrev pub replaced : Kernel
  replaced = record (set_buf j b' k) { medium = m' }

  -- a property of the buffers, at the one that is new and at the others
  pub split :
      (i : ℕ) (P : Buf → Type 0) → (i ≡ j → P b') → (i ≢ j → P (k.buf i)) → P (put k.buf j b' i)
  split i P new old = elim (ℕ_discrete i j) [
    | yes e ↦ subst P (rw e (sym (put_self k.buf j b'))) (new e)
    | no n ↦ subst P (sym (put_ne k.buf j i b' n)) (old n)
  ]

  -- the buffer and the diskette suit the other buffers
  pub record FitsIn : Type 0 where
    pub alone :
        (i : ℕ)
        → i < 6
        → i ≢ j
        → (k.buf i).dev ≡ b'.dev
        → (k.buf i).blkno ≡ b'.blkno
        → (k.buf i).dev ≢ nodev
        → ⊥
    pub delayed : b'.delwri ≡ true → (b'.done ≡ true) × (b'.dev ≢ nodev)
    pub placed : b'.dev ≢ nodev → b'.blkno < 500
    pub healthy : b'.error ≡ false
    pub clean :
        b'.dev ≢ nodev
        → b'.busy ≡ false
        → b'.done ≡ true
        → b'.delwri ≡ false
        → b'.data_words ≡ m'.contents b'.dev b'.blkno
    pub others :
        (i : ℕ)
        → i < 6
        → i ≢ j
        → (k.buf i).dev ≢ nodev
        → m'.contents (k.buf i).dev (k.buf i).blkno
          ≡ k.medium.contents (k.buf i).dev (k.buf i).blkno

  module _ (f : FitsIn) where
    replaced-once :
        (i i' : ℕ)
        → i < 6
        → i' < 6
        → (put k.buf j b' i).dev ≡ (put k.buf j b' i').dev
        → (put k.buf j b' i).blkno ≡ (put k.buf j b' i').blkno
        → (put k.buf j b' i).dev ≢ nodev
        → i ≡ i'
    replaced-once i i' h h' =
        split i
          (λ b.
            b.dev ≡ (put k.buf j b' i').dev
            → b.blkno ≡ (put k.buf j b' i').blkno
            → b.dev ≢ nodev
            → i ≡ i')
          (λ e.
            split i' (λ b. b'.dev ≡ b.dev → b'.blkno ≡ b.blkno → b'.dev ≢ nodev → i ≡ i')
              (λ e' p q r. e ∙ sym e')
              (λ n p q r. absurd (f.alone i' h' n (sym p) (sym q) (λ t. r (p ∙ t)))))
          (λ n.
            split i'
              (λ b.
                (k.buf i).dev ≡ b.dev → (k.buf i).blkno ≡ b.blkno → (k.buf i).dev ≢ nodev → i ≡ i')
              (λ e' p q r. absurd (f.alone i h n p q r)) (λ n' p q r. c.once i i' h h' p q r))

    pub replaced-IsCache : IsCache replaced
    replaced-IsCache = record {
      slots = c.slots;
      listed = c.listed;
      known = c.known;
      once = replaced-once;
      delayed = λ i h.
          split i (λ b. b.delwri ≡ true → (b.done ≡ true) × (b.dev ≢ nodev)) (λ e. f.delayed)
            (λ n. c.delayed i h);
      placed =
          λ i h. split i (λ b. b.dev ≢ nodev → b.blkno < 500) (λ e. f.placed) (λ n. c.placed i h);
      healthy = λ i h. split i (λ b. b.error ≡ false) (λ e. f.healthy) (λ n. c.healthy i h);
      clean = λ i h.
          split i
            (λ b.
              b.dev ≢ nodev
              → b.busy ≡ false
              → b.done ≡ true
              → b.delwri ≡ false
              → b.data_words ≡ m'.contents b.dev b.blkno)
            (λ e. f.clean) (λ n p q r s. c.clean i h p q r s ∙ sym (f.others i h n p));
    }

  -- What a block holds behind the replacement, by the new buffer and the old ones.
  pub replaced-Logical :
      (d n : ℕ) (w : List ℕ)
      → (b'.dev ≡ d → b'.blkno ≡ n → b'.done ≡ true → b'.data_words ≡ w)
      → ((i : ℕ)
          → i < 6
          → i ≢ j
          → (k.buf i).dev ≡ d
          → (k.buf i).blkno ≡ n
          → (k.buf i).done ≡ true
          → (k.buf i).data_words ≡ w)
      → ((b'.dev ≡ d → b'.blkno ≡ n → b'.done ≡ false)
          → ((i : ℕ)
              → i < 6
              → i ≢ j
              → (k.buf i).dev ≡ d
              → (k.buf i).blkno ≡ n
              → (k.buf i).done ≡ false)
          → m'.contents d n ≡ w)
      → Logical replaced d n w
  replaced-Logical d n w new old none_has = record {
    cached = λ i h.
        split i (λ b. b.dev ≡ d → b.blkno ≡ n → b.done ≡ true → b.data_words ≡ w) (λ e. new)
          (λ ne. old i h ne);
    stored = λ all.
        none_has
          (subst (λ b. b.dev ≡ d → b.blkno ≡ n → b.done ≡ false) (put_self k.buf j b') (all j lt))
          (λ i h ne.
            subst (λ b. b.dev ≡ d → b.blkno ≡ n → b.done ≡ false) (put_ne k.buf j i b' ne)
              (all i h));
  }
