-- ===== src/Kernel/Bio/Keep.antt =====
-- The steps of the buffer cache keep it in order, and keep what the blocks hold.
use bkunix.Prelude.{ℕ, ◌<◌, ◌≡◌, ◌≢◌, refl, sym, ◌∙◌, inl, inr, true, false, List}
use mathlib.Core.Path.{subst}
use bkunix.Prelude.Tests.{eq→==, ne→==, Bool-cases}
use native.Mathlib.Decide.{ℕ_discrete}
use bkunix.Kernel.State.{Buf, Medium, Kernel, nodev}
use bkunix.Kernel.Bio.{set_buf, write_medium, has_block}
use bkunix.Kernel.Bio.Cache.{IsCache, Logical, Keeps}
use bkunix.Kernel.Bio.Replace.{replaced-IsCache, replaced-Logical}
use bkunix.Kernel.Bio.Transfer.{flushed, written, loaded}

contents-write_ne :
    (m : Medium) (d n d' n' : ℕ) (xs : List ℕ)
    → (d' ≡ d → n' ≡ n → ⊥)
    → (write_medium d n xs m).contents d' n' ≡ m.contents d' n'
contents-write_ne m d n d' n' xs h = elim (ℕ_discrete d' d) [
  | no e ↦ rw (ne→== d' d e)
  | yes e ↦ elim (ℕ_discrete n' n) [
    | no e' ↦ rw (eq→== d' d e, ne→== n' n e')
    | yes e' ↦ absurd (h e e')
  ]
]

contents-write_self :
    (m : Medium) (d n : ℕ) (xs : List ℕ) → (write_medium d n xs m).contents d n ≡ xs
contents-write_self m d n xs = rw (eq→== d d refl, eq→== n n refl)

module _ (k : Kernel) (c : IsCache k) (j : ℕ) (lt : j < 6) where
  -- a property of the buffer `j` and of the others is one of all
  pub all_of :
      (P : Buf → Type 0)
      → P (k.buf j)
      → ((i : ℕ) → i < 6 → i ≢ j → P (k.buf i))
      → (i : ℕ) → i < 6
      → P (k.buf i)
  all_of P here others i h = elim (ℕ_discrete i j) [ yes e ↦ rw e here | no n ↦ others i h n ]

  -- no other buffer has the block of the buffer `j`
  pub alone :
      (i : ℕ)
      → i < 6
      → i ≢ j
      → (k.buf i).dev ≡ (k.buf j).dev
      → (k.buf i).blkno ≡ (k.buf j).blkno
      → (k.buf i).dev ≢ nodev
      → ⊥
  alone i h n p q r = n (c.once i j h lt p q r)

  -- The buffer is marked as in use.
  pub busied-Keeps : Keeps k (set_buf j (record (k.buf j) { busy = true }) k)
  busied-Keeps =
      let b' = record (k.buf j) { busy = true } in
      record {
        cache = replaced-IsCache k c j lt b' k.medium (record {
          alone = alone;
          delayed = c.delayed j lt;
          placed = c.placed j lt;
          healthy = c.healthy j lt;
          clean = λ p q. absurd (cc q);
          others = λ i h n p. refl;
        });
        same = λ d n w ne l.
            replaced-Logical k c j lt b' k.medium d n w (l.cached j lt) (λ i h e. l.cached i h)
              (λ new rest.
                l.stored (all_of (λ b. b.dev ≡ d → b.blkno ≡ n → b.done ≡ false) new rest));
        bad = λ d n. refl;
      }

  module _ (on_disk : (k.buf j).dev ≢ nodev) where
    pub written-IsCache : IsCache (written j k)
    written-IsCache =
        let b = k.buf j in
        let m' = write_medium b.dev b.blkno b.data_words k.medium in
        replaced-IsCache k c j lt (flushed b) m' (record {
          alone = alone;
          delayed = λ p. absurd (cc p);
          placed = c.placed j lt;
          healthy = refl;
          clean = λ p q r s. sym (contents-write_self k.medium b.dev b.blkno b.data_words);
          others = λ i h n p.
              contents-write_ne k.medium b.dev b.blkno (k.buf i).dev (k.buf i).blkno b.data_words
                (λ q r. alone i h n q r p);
        })

    -- A write leaves the other blocks.
    pub written_other :
        (d n : ℕ) (w : List ℕ)
        → ((k.buf j).dev ≡ d → (k.buf j).blkno ≡ n → ⊥)
        → Logical k d n w
        → Logical (written j k) d n w
    written_other d n w apart l =
        let b = k.buf j in
        let m' = write_medium b.dev b.blkno b.data_words k.medium in
        replaced-Logical k c j lt (flushed b) m' d n w (λ p q. absurd (apart p q))
          (λ i h e. l.cached i h)
          (λ new rest.
            contents-write_ne k.medium b.dev b.blkno d n b.data_words (λ p q. apart (sym p) (sym q))
            ∙ l.stored (
                all_of (λ b. b.dev ≡ d → b.blkno ≡ n → b.done ≡ false) (λ p q. absurd (apart p q))
                  rest))

    -- The block written holds the buffer's words.
    pub written_self : Logical (written j k) (k.buf j).dev (k.buf j).blkno (k.buf j).data_words
    written_self =
        let b = k.buf j in
        let m' = write_medium b.dev b.blkno b.data_words k.medium in
        replaced-Logical k c j lt (flushed b) m' b.dev b.blkno b.data_words (λ p q r. refl)
          (λ i h e p q r. absurd (alone i h e p q (λ t. on_disk (sym p ∙ t))))
          (λ new rest. contents-write_self k.medium b.dev b.blkno b.data_words)

    -- A complete buffer is written.
    pub written-Keeps : (k.buf j).done ≡ true → Keeps k (written j k)
    written-Keeps done =
        let b = k.buf j in
        record {
          cache = written-IsCache;
          same = λ d n w ne l. elim (ℕ_discrete b.dev d) [
            | no e ↦ written_other d n w (λ p q. e p) l
            | yes e ↦ elim (ℕ_discrete b.blkno n) [
              | no e' ↦ written_other d n w (λ p q. e' q) l
              | yes e' ↦
                  subst (λ t. Logical (written j k) d n t) (l.cached j lt e e' done)
                    (subst (λ t. Logical (written j k) t n b.data_words) e
                      (subst (λ t. Logical (written j k) b.dev t b.data_words) e' written_self))
            ]
          ];
          bad = λ d n. refl;
        }

    -- The block of the buffer `j` is read into it.
    pub loaded-Keeps : (k.buf j).done ≡ false → Keeps k (set_buf j (loaded k (k.buf j)) k)
    loaded-Keeps undone =
        let b = k.buf j in
        record {
          cache = replaced-IsCache k c j lt (loaded k b) k.medium (record {
            alone = alone;
            delayed = λ p. (refl, on_disk);
            placed = c.placed j lt;
            healthy = c.healthy j lt;
            clean = λ p q r s. refl;
            others = λ i h n p. refl;
          });
          same = λ d n w ne l.
              replaced-Logical k c j lt (loaded k b) k.medium d n w
                (λ p q r.
                  rw (p, q)
                    (l.stored (
                      all_of (λ b. b.dev ≡ d → b.blkno ≡ n → b.done ≡ false) (λ s t. undone)
                        (λ i h e s t.
                          absurd (alone i h e (s ∙ sym p) (t ∙ sym q) (λ u. ne (sym s ∙ u)))))))
                (λ i h e. l.cached i h)
                (λ new rest.
                  l.stored
                    (all_of (λ b. b.dev ≡ d → b.blkno ≡ n → b.done ≡ false) (λ s t. undone) rest));
          bad = λ d n. refl;
        }

-- the buffer that is given up for the block `n` of device `d`
abbrev pub fresh : ℕ → ℕ → Buf → Buf
fresh d n b = record b {
  rd = false;
  done = false;
  error = false;
  busy = false;
  delwri = false;
  blkno = n;
  dev = d;
}

has_block-true : (d n : ℕ) (b : Buf) → d ≢ nodev → b.dev ≡ d → b.blkno ≡ n → has_block d n b ≡ true
has_block-true d n b h p q = rw (ne→== d nodev h, eq→== b.blkno n q, eq→== b.dev d p)

module _ (k : Kernel) (c : IsCache k) (j : ℕ) (lt : j < 6) (d n : ℕ) where
  pub fresh-Keeps :
      d ≢ nodev
      → n < 500
      → ((i : ℕ) → i < 6 → has_block d n (k.buf i) ≡ false)
      → (k.buf j).busy ≡ false
      → (k.buf j).delwri ≡ false
      → Keeps k (set_buf j (fresh d n (k.buf j)) k)
  fresh-Keeps on_disk small absent idle clean =
      let b = k.buf j in
      record {
        cache = replaced-IsCache k c j lt (fresh d n b) k.medium (record {
          alone =
              λ i h ne p q r. absurd (cc (absent i h, has_block-true d n (k.buf i) on_disk p q));
          delayed = λ p. absurd (cc p);
          placed = λ p. small;
          healthy = refl;
          clean = λ p q r. absurd (cc r);
          others = λ i h ne p. refl;
        });
        same = λ d' n' w ne l.
            replaced-Logical k c j lt (fresh d n b) k.medium d' n' w (λ p q r. absurd (cc r))
              (λ i h e. l.cached i h) (λ new rest. kept d' n' w ne l rest);
        bad = λ d' n'. refl;
      }
    where
      kept :
          (d' n' : ℕ) (w : List ℕ)
          → d' ≢ nodev
          → Logical k d' n' w
          → ((i : ℕ)
              → i < 6
              → i ≢ j
              → (k.buf i).dev ≡ d'
              → (k.buf i).blkno ≡ n'
              → (k.buf i).done ≡ false)
          → k.medium.contents d' n' ≡ w
      kept d' n' w ne l rest = elim (Bool-cases (k.buf j).done) [
        | inr e ↦
            l.stored
              (all_of k c j lt (λ b. b.dev ≡ d' → b.blkno ≡ n' → b.done ≡ false) (λ p q. e) rest)
        | inl e ↦ elim (ℕ_discrete (k.buf j).dev d') [
          | no u ↦ l.stored (
              all_of k c j lt (λ b. b.dev ≡ d' → b.blkno ≡ n' → b.done ≡ false)
                (λ p q. absurd (u p)) rest)
          | yes u ↦ elim (ℕ_discrete (k.buf j).blkno n') [
            | no v ↦ l.stored (
                all_of k c j lt (λ b. b.dev ≡ d' → b.blkno ≡ n' → b.done ≡ false)
                  (λ p q. absurd (v q)) rest)
            | yes v ↦
                rw (← u, ← v) (sym (c.clean j lt (λ t. ne (sym u ∙ t)) idle e clean))
                ∙ l.cached j lt u v e
          ]
        ]
      ]
