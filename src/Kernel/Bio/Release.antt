-- ===== src/Kernel/Bio/Release.antt =====
-- The three ways to give a buffer back, `brelse`, `bwrite` and `bdwrite`, in terms of the abstract
-- view.
use bkunix.Prelude.{ℕ, ◌<◌, ◌≡◌, ◌≢◌, refl, sym, ap₂, ◌∙◌, true, false, List}
use mathlib.Core.Path.{subst}
use bkunix.Prelude.Tests.{eq→==, ne→==}
use native.Mathlib.Decide.{ℕ_discrete}
use bkunix.Prelude.Run.{ok}
use bkunix.Kernel.State.{Buf, Medium, Kernel, nodev}
use bkunix.Kernel.Bio.{set_buf, brelse, bwrite, bdwrite}
use bkunix.Kernel.Bio.Cache.{Logical, put_self, put_ne}
use bkunix.Kernel.Bio.Replace.{replaced, FitsIn, split, replaced-IsCache, replaced-Logical}
use bkunix.Kernel.Bio.Transfer.{written, flushed, bwrite_lem, on_buf-set}
use bkunix.Kernel.Bio.Keep.{alone, all_of, written-IsCache, written_self, written_other}
use bkunix.Kernel.Bio.View.{Blocks, updated, Represents, Using, Unchanged}

-- the words of the buffer replaced
abbrev pub edited : ℕ → List ℕ → Kernel → Kernel
edited j xs k = set_buf j (record (k.buf j) { data_words = xs }) k

-- the buffer given back
abbrev pub released : ℕ → Kernel → Kernel
released j k = set_buf j (record (k.buf j) { busy = false }) k

-- the buffer given back for a later write
abbrev pub postponed : ℕ → Kernel → Kernel
postponed j k = set_buf j (record (k.buf j) { delwri = true; done = true; busy = false }) k

pub updated_self : (a : Blocks) (d n : ℕ) (w : List ℕ) → updated a d n w d n ≡ w
updated_self a d n w = rw (eq→== d d refl, eq→== n n refl)

pub updated_other :
    (a : Blocks) (d n d' n' : ℕ) (w : List ℕ)
    → (d' ≡ d → n' ≡ n → ⊥)
    → updated a d n w d' n' ≡ a d' n'
updated_other a d n d' n' w h = elim (ℕ_discrete d' d) [
  | no e ↦ rw (ne→== d' d e)
  | yes e ↦ elim (ℕ_discrete n' n) [
    | no e' ↦ rw (eq→== d' d e, ne→== n' n e')
    | yes e' ↦ absurd (h e e')
  ]
]

module _ (k : Kernel) (j d n : ℕ) (a : Blocks) (u : Using k j d n a) where
  ne_dev : (k.buf j).dev ≢ nodev
  ne_dev t = u.on_disk (sym u.on_dev ∙ t)

  -- Any words may be put into the buffer.
  pub edited-Using : (xs : List ℕ) → Using (edited j xs k) j d n a
  edited-Using xs =
      let b' = record (k.buf j) { data_words = xs } in
      record {
        cache = replaced-IsCache k u.cache j u.index b' k.medium (record {
          alone = alone k u.cache j u.index;
          delayed = u.cache.delayed j u.index;
          placed = u.cache.placed j u.index;
          healthy = u.cache.healthy j u.index;
          clean = λ p q. absurd (cc (q, u.used));
          others = λ i h ne p. refl;
        });
        sound = u.sound;
        index = u.index;
        on_dev = rw (put_self k.buf j b') u.on_dev;
        at_block = rw (put_self k.buf j b') u.at_block;
        on_disk = u.on_disk;
        used = rw (put_self k.buf j b') u.used;
        rest = λ i h ne. rw (put_ne k.buf j i b' ne) (u.rest i h ne);
        others = λ d' n' p q apart.
            let l = u.others d' n' p q apart in
            let elsewhere : (k.buf j).dev ≡ d' → (k.buf j).blkno ≡ n' → ⊥ =
              λ s t. apart (sym s ∙ u.on_dev) (sym t ∙ u.at_block) in
            replaced-Logical k u.cache j u.index b' k.medium d' n' (a d' n')
              (λ s t. absurd (elsewhere s t)) (λ i h ne. l.cached i h)
              (λ new rest. l.stored (
                all_of k u.cache j u.index (λ b. b.dev ≡ d' → b.blkno ≡ n' → b.done ≡ false)
                  (λ s t. absurd (elsewhere s t)) rest));
      }

  -- The buffer is given back as `b'`, with the diskettes as `m'`.
  module _ (b' : Buf) (m' : Medium) (f : FitsIn k u.cache j u.index b' m') (a' : Blocks) where
    given_back :
        b'.busy ≡ false
        → ((d' n' : ℕ) → m'.bad d' n' ≡ false)
        → ((d' n' : ℕ)
            → d' ≢ nodev
            → n' < 500
            → Logical (replaced k u.cache j u.index b' m') d' n' (a' d' n'))
        → Represents (replaced k u.cache j u.index b' m') a'
    given_back idle sound holds = record {
      cache = replaced-IsCache k u.cache j u.index b' m' f;
      sound = sound;
      at_rest = λ i h.
          split k u.cache j u.index b' m' i (λ b. b.busy ≡ true → b.dev ≡ nodev)
            (λ e p. absurd (cc (idle, p))) (λ ne. u.rest i h ne);
      idle = (j, u.index, rw (put_self k.buf j b') idle);
      holds = holds;
    }

  -- what holds of the block of the buffer and of the others holds of all
  by_block :
      (P : ℕ → ℕ → Type 0)
      → P d n
      → ((d' n' : ℕ) → d' ≢ nodev → n' < 500 → (d' ≡ d → n' ≡ n → ⊥) → P d' n')
      → (d' n' : ℕ) → d' ≢ nodev
      → n' < 500
      → P d' n'
  by_block P own others d' n' p q = elim (ℕ_discrete d' d) [
    | no e ↦ others d' n' p q (λ s t. e s)
    | yes e ↦ elim (ℕ_discrete n' n) [
      | no e' ↦ others d' n' p q (λ s t. e' t)
      | yes e' ↦ subst (λ x. P x n') (sym e) (subst (λ y. P d y) (sym e') own)
    ]
  ]

  -- `brelse` gives an unchanged buffer back, and no block changes.
  pub brelse-Represents :
      Unchanged k j d n a → (brelse j k ≡ ok tt (released j k)) × Represents (released j k) a
  unfolding brelse
  brelse-Represents v =
      let b' = record (k.buf j) { busy = false } in
      (
        refl,
        given_back b' k.medium
            (record {
              alone = alone k u.cache j u.index;
              delayed = u.cache.delayed j u.index;
              placed = u.cache.placed j u.index;
              healthy = u.cache.healthy j u.index;
              clean = λ p q r s. v.settled r s ∙ sym (ap₂ k.medium.contents u.on_dev u.at_block);
              others = λ i h ne p. refl;
            })
            a refl u.sound
            (by_block (λ d' n'. Logical (released j k) d' n' (a d' n')) (kept d n v.own)
              (λ d' n' p q apart. kept d' n' (u.others d' n' p q apart))),
      )
    where
      kept : (d' n' : ℕ) → Logical k d' n' (a d' n') → Logical (released j k) d' n' (a d' n')
      kept d' n' l =
          replaced-Logical k u.cache j u.index (record (k.buf j) { busy = false }) k.medium d' n'
            (a d' n') (l.cached j u.index) (λ i h ne. l.cached i h)
            (λ new rest. l.stored (
              all_of k u.cache j u.index (λ b. b.dev ≡ d' → b.blkno ≡ n' → b.done ≡ false) new
                rest))

  -- `bwrite` gives the buffer back, and its block holds its words.
  pub bwrite-Represents :
      (bwrite j k ≡ ok tt (written j k))
      × Represents (written j k) (updated a d n (k.buf j).data_words)
  bwrite-Represents =
      let b = k.buf j in
      let own : Logical (written j k) d n b.data_words =
        subst (λ x. Logical (written j k) x n b.data_words) u.on_dev
          (subst (λ y. Logical (written j k) b.dev y b.data_words) u.at_block
            (written_self k u.cache j u.index ne_dev)) in
      (
        bwrite_lem k j (u.cache.placed j u.index ne_dev) (u.sound b.dev b.blkno),
        record {
          cache = written-IsCache k u.cache j u.index ne_dev;
          sound = u.sound;
          at_rest = λ i h.
              split k u.cache j u.index (flushed b) (written j k).medium i
                (λ b. b.busy ≡ true → b.dev ≡ nodev) (λ e p. absurd (cc p)) (λ ne. u.rest i h ne);
          idle = (j, u.index, rw (put_self k.buf j (flushed b)) refl);
          holds =
              by_block (λ d' n'. Logical (written j k) d' n' (updated a d n b.data_words d' n'))
                (subst (Logical (written j k) d n) (sym (updated_self a d n b.data_words)) own)
                (λ d' n' p q apart.
                  subst (Logical (written j k) d' n')
                    (sym (updated_other a d n d' n' b.data_words apart))
                    (written_other k u.cache j u.index ne_dev d' n' (a d' n')
                      (λ s t. apart (sym s ∙ u.on_dev) (sym t ∙ u.at_block))
                      (u.others d' n' p q apart)));
        },
      )

  -- So does `bdwrite`.
  pub bdwrite-Represents :
      (bdwrite j k ≡ ok tt (postponed j k))
      × Represents (postponed j k) (updated a d n (k.buf j).data_words)
  unfolding bdwrite brelse
  bdwrite-Represents =
      let b = k.buf j in
      let b' = record b { delwri = true; done = true; busy = false } in
      let apart_of =
        λ (d' n' : ℕ) (apart : d' ≡ d → n' ≡ n → ⊥) (s : b.dev ≡ d') (t : b.blkno ≡ n').
          apart (sym s ∙ u.on_dev) (sym t ∙ u.at_block) in
      (
        on_buf-set k j (record b { delwri = true; done = true }) (λ b. record b { busy = false }),
        given_back b' k.medium
            (record {
              alone = alone k u.cache j u.index;
              delayed = λ p. (refl, ne_dev);
              placed = u.cache.placed j u.index;
              healthy = u.cache.healthy j u.index;
              clean = λ p q r s. absurd (cc s);
              others = λ i h ne p. refl;
            })
            (updated a d n b.data_words) refl u.sound
            (by_block (λ d' n'. Logical (postponed j k) d' n' (updated a d n b.data_words d' n'))
              (subst (Logical (postponed j k) d n) (sym (updated_self a d n b.data_words)) (
                replaced-Logical k u.cache j u.index b' k.medium d n b.data_words (λ p q r. refl)
                  (λ i h ne p q. absurd (
                    alone k u.cache j u.index i h ne (p ∙ sym u.on_dev) (q ∙ sym u.at_block)
                      (λ t. u.on_disk (sym p ∙ t))))
                  (λ new rest. absurd (cc (new u.on_dev u.at_block)))))
              (λ d' n' p q apart.
                let l = u.others d' n' p q apart in
                subst (Logical (postponed j k) d' n')
                  (sym (updated_other a d n d' n' b.data_words apart))
                  (replaced-Logical k u.cache j u.index b' k.medium d' n' (a d' n')
                    (λ s t. absurd (apart_of d' n' apart s t)) (λ i h ne. l.cached i h)
                    (λ new rest. l.stored (
                      all_of k u.cache j u.index (λ b. b.dev ≡ d' → b.blkno ≡ n' → b.done ≡ false)
                        (λ s t. absurd (apart_of d' n' apart s t)) rest))))),
      )
