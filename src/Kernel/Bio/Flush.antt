-- ===== src/Kernel/Bio/Flush.antt =====
-- `bflush` in terms of the abstract view: behind it the diskettes hold what the blocks hold.
use bkunix.Prelude.{
  ℕ, zero, suc, ◌+◌, ◌≤◌, ◌<◌, ◌≡◌, ◌≢◌, refl, sym, ap, ap₂, ◌∙◌, ◌⊎◌, inl, inr, Bool, true, false,
  ◌&&◌, ◌||◌, arith,
}
use bkunix.Prelude.Tests.{◌==◌, if◌then◌else◌, eq→==, ne→==, Bool-cases}
use native.Mathlib.Decide.{ℕ_discrete}
use bkunix.Prelude.Run.{Cmd, ok, pure, and_then}
use bkunix.Kernel.State.{Buf, Kernel, nodev}
use bkunix.Kernel.Bio.{has_block, bwrite, flush_bufs, bflush}
use bkunix.Kernel.Bio.Cache.{put_self, put_ne}
use bkunix.Kernel.Bio.Replace.{split}
use bkunix.Kernel.Bio.Transfer.{written, flushed, bwrite_lem}
use bkunix.Kernel.Bio.Keep.{written-Keeps}
use bkunix.Kernel.Bio.Access.{at_rest-idle, has_block-dev}
use bkunix.Kernel.Bio.View.{Blocks, Represents, beside, SameTables}

-- the test of `bflush`: a delayed write for the device, or for any
abbrev to_write : ℕ → Buf → Bool
to_write d b = b.delwri && (d == nodev || d == b.dev)

-- one round of the loop
abbrev flush_one : ℕ → ℕ → Cmd Kernel (Unit {0})
flush_one d j k = (if to_write d (k.buf j) then bwrite j else pure tt) k

to_write-delwri : (d : ℕ) (b : Buf) → to_write d b ≡ true → b.delwri ≡ true
to_write-delwri d b h = elim (Bool-cases b.delwri) [ inl e ↦ e | inr e ↦ absurd (cc (rw e at h)) ]

-- What a round does: the buffer `j` is not to be written any more, and no other has changed.
abbrev Flushes : ℕ → ℕ → Blocks → Kernel → Type 0
Flushes d j a k =
    (k' : Kernel) × (flush_one d j k ≡ ok tt k')
    × SameTables k k'
    × Represents k' a
    × (to_write d (k'.buf j) ≡ false)
    × ((i : ℕ) → i ≢ j → k'.buf i ≡ k.buf i)

flush_one-Flushes :
    (k : Kernel) (a : Blocks) (r : Represents k a) (d j : ℕ) → j < 6 → Flushes d j a k
flush_one-Flushes k a r d j lt = elim (Bool-cases (to_write d (k.buf j))) [
  | inr e ↦ (k, rw e, refl, r, e, λ i ne. refl)
  | inl e ↦
      let (done, on_disk) = r.cache.delayed j lt (to_write-delwri d (k.buf j) e) in
      let w = written-Keeps k r.cache j lt on_disk done in
      let b' = flushed (k.buf j) in
      (
        written j k,
        rw e (bwrite_lem k j (r.cache.placed j lt on_disk) (r.sound (k.buf j).dev (k.buf j).blkno)),
        refl,
        record {
          cache = w.cache;
          sound = r.sound;
          at_rest = λ i h.
              split k r.cache j lt b' (written j k).medium i (λ b. b.busy ≡ true → b.dev ≡ nodev)
                (λ t p. absurd (cc p)) (λ ne. r.at_rest i h);
          idle = (j, lt, rw (put_self k.buf j b') refl);
          holds = λ d' n p q. w.same d' n (a d' n) p (r.holds d' n p q);
        },
        rw (put_self k.buf j b') refl,
        λ i ne. put_ne k.buf j i b' ne,
      )
]

flush_bufs_lem :
    (d n j : ℕ) (k : Kernel) (a : Blocks)
    → Represents k a
    → j + n ≤ 6
    → (k' : Kernel) × (flush_bufs d n j k ≡ ok tt k')
      × SameTables k k'
      × Represents k' a
      × ((i : ℕ) → i < j → k'.buf i ≡ k.buf i)
      × ((i : ℕ) → j ≤ i → i < j + n → to_write d (k'.buf i) ≡ false)
unfolding flush_bufs
flush_bufs_lem d zero j k a r h = (k, refl, refl, r, λ i lt. refl, λ i le lt. absurd (omega arith))
flush_bufs_lem d (suc n) j k a r h =
    let (k1, call, s1, r1, at_j, others) = flush_one-Flushes k a r d j (omega arith) in
    let (k2, calls, s2, r2, before, behind) = flush_bufs_lem d n (j + 1) k1 a r1 (omega arith) in
    (
      k2,
      ap (λ t. and_then t (λ _. flush_bufs d n (j + 1))) call ∙ calls,
      s2 ∙ ap (λ t. beside k2 t) s1,
      r2,
      λ i lt. before i (omega arith) ∙ others i (λ e. absurd (omega arith)),
      λ i le lt. elim (ℕ_discrete i j) [
        | yes e ↦ rw (e, before j (omega arith)) at_j
        | no ne ↦ behind i (omega arith) (omega arith)
      ],
    )

-- a test of the buffers below `m` holds of one or of none
some_or_none :
    (p : ℕ → Bool) (m : ℕ) → ((i : ℕ) × (i < m) × (p i ≡ true)) ⊎ ((i : ℕ) → i < m → p i ≡ false)
some_or_none p zero = inr (λ i lt. absurd (omega arith))
some_or_none p (suc m) = elim (Bool-cases (p m)) [
  | inl e ↦ inl (m, omega arith, e)
  | inr e ↦ elim (some_or_none p m) [
    | inl (i, lt, at) ↦ inl (i, omega arith, at)
    | inr none_of ↦
        inr (λ i lt. elim (ℕ_discrete i m) [ yes t ↦ rw t e | no t ↦ none_of i (omega arith) ])
  ]
]

-- Where the buffers of a device are not to be written, the diskette holds what its blocks hold.
settled :
    (k : Kernel) (a : Blocks)
    → Represents k a
    → (d n : ℕ) → d ≢ nodev
    → n < 500
    → ((i : ℕ) → i < 6 → (k.buf i).dev ≡ d → (k.buf i).delwri ≡ false)
    → k.medium.contents d n ≡ a d n
settled k a r d n on_disk small clean =
    elim (some_or_none (λ i. has_block d n (k.buf i) && (k.buf i).done) 6) [
      | inl (i, lt, at) ↦
          let (has, done) = both (has_block d n (k.buf i)) (k.buf i).done at in
          let (p, q, t) = has_block-dev d n (k.buf i) has in
          let ne : (k.buf i).dev ≢ nodev = λ s. on_disk (sym p ∙ s) in
          sym (
            r.cache.clean i lt ne (at_rest-idle k a r d n i lt ne) done (clean i lt p)
            ∙ ap₂ k.medium.contents p q)
          ∙ (r.holds d n on_disk small).cached i lt p q done
      | inr none_of ↦ (r.holds d n on_disk small).stored (λ i lt p q.
          rw (ne→== d nodev on_disk, eq→== (k.buf i).blkno n q, eq→== (k.buf i).dev d p) at
            (none_of i lt))
    ]
  where
    both : (p q : Bool) → (p && q) ≡ true → (p ≡ true) × (q ≡ true)
    both true q h = (refl, h)
    both false q h = cc

bflush_lem :
    (k : Kernel) (a : Blocks) (d : ℕ)
    → Represents k a
    → (k' : Kernel) × (bflush d k ≡ ok tt k')
      × SameTables k k'
      × Represents k' a
      × ((d' n : ℕ)
          → d' ≢ nodev
          → n < 500
          → (d ≡ nodev) ⊎ (d ≡ d')
          → k'.medium.contents d' n ≡ a d' n)
unfolding bflush
bflush_lem k a d r =
    let (k', call, same, r', before, behind) = flush_bufs_lem d 6 0 k a r (omega arith) in
    (
      k',
      call,
      same,
      r',
      λ d' n p q which.
          settled k' a r' d' n p q
            (λ i lt e. not_to_write d d' (k'.buf i) e which (behind i (omega arith) lt)),
    )
  where
    not_to_write :
        (d d' : ℕ) (b : Buf)
        → b.dev ≡ d'
        → (d ≡ nodev) ⊎ (d ≡ d')
        → to_write d b ≡ false
        → b.delwri ≡ false
    not_to_write d d' b e which h = elim (Bool-cases b.delwri) [
      | inr f ↦ f
      | inl t ↦ elim which [
        | inl p ↦ absurd (cc (rw (t, eq→== d nodev p) at h))
        | inr p ↦ absurd (ground (arith, rw (t, eq→== d b.dev (p ∙ sym e)) at h))
      ]
    ]

-- In a state that represents the blocks `a`, `bflush` of a device, or of all where the device is
-- `NODEV`, ends, changes no block and no other table, and the diskette of such a device holds behind
-- it what `a` says, in each block below 500.
pub bflush-Represents :
    (k : Kernel) (a : Blocks) (d d' n : ℕ)
    → Represents k a
    → d' ≢ nodev
    → n < 500
    → (d ≡ nodev) ⊎ (d ≡ d')
    → (k' : Kernel) × (bflush d k ≡ ok tt k')
      × SameTables k k'
      × Represents k' a
      × (k'.medium.contents d' n ≡ a d' n)
bflush-Represents k a d d' n r on_disk small which =
    let (k', call, same, r', settled_all) = bflush_lem k a d r in
    (k', call, same, r', settled_all d' n on_disk small which)
