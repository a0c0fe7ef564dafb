-- ===== src/Kernel/Bio/Access.antt =====
-- The parts of `getblk` in terms of the abstract view: a buffer claimed, and one given up.
use bkunix.Prelude.{ℕ, ◌<◌, ◌≡◌, ◌≢◌, refl, inl, inr, true, false, arith}
use bkunix.Prelude.Tests.{eq→==, ne→==, Bool-cases}
use bkunix.Prelude.Lists.{get_or}
use native.Mathlib.Decide.{ℕ_discrete}
use bkunix.Prelude.Run.{ok}
use bkunix.Kernel.State.{Buf, Kernel, nodev}
use bkunix.Kernel.Bio.{set_buf, has_block, claim, reassign}
use bkunix.Kernel.Bio.Cache.{
  IsCache, Logical, Keeps, Keeps-trans, fronted, fronted-Keeps, put_self, put_ne,
}
use bkunix.Kernel.Bio.Transfer.{written, bwrite_lem}
use bkunix.Kernel.Bio.Keep.{busied-Keeps, fresh, fresh-Keeps}
use bkunix.Kernel.Bio.View.{Blocks, Represents, Using, Unchanged}

-- the state behind `claim`
abbrev pub claimed : ℕ → Kernel → Kernel
claimed i k =
    let j = get_or k.bufp i 0 in set_buf j (record (k.buf j) { busy = true }) (fronted i k)

pub claim_lem : (i : ℕ) (k : Kernel) → claim i k ≡ ok (get_or k.bufp i 0) (claimed i k)
unfolding claim
claim_lem i k = refl

-- the state with the buffer `j` given up for another block
abbrev pub given : ℕ → ℕ → ℕ → Kernel → Kernel
given d n j k = set_buf j (fresh d n (k.buf j)) k

module _ (k : Kernel) (a : Blocks) (r : Represents k a) (d n : ℕ) where
  -- a buffer that has a block is not in use
  pub at_rest-idle : (i : ℕ) → i < 6 → (k.buf i).dev ≢ nodev → (k.buf i).busy ≡ false
  at_rest-idle i h p = elim (Bool-cases (k.buf i).busy) [
    | inl e ↦ absurd (p (r.at_rest i h e))
    | inr e ↦ e
  ]

  module _ (j : ℕ) (lt : j < 6) where
    pub reassign-clean : (k.buf j).delwri ≡ false → reassign d n j k ≡ ok tt (given d n j k)
    unfolding reassign
    reassign-clean e = rw e

    pub reassign-delayed :
        (k.buf j).delwri ≡ true → reassign d n j k ≡ ok tt (given d n j (written j k))
    unfolding reassign
    reassign-delayed e =
        let (done, on_disk) = r.cache.delayed j lt e in
        simp
          (e, bwrite_lem k j (r.cache.placed j lt on_disk) (r.sound (k.buf j).dev (k.buf j).blkno))
          refl

pub has_block-dev :
    (d n : ℕ) (b : Buf) → has_block d n b ≡ true → (b.dev ≡ d) × (b.blkno ≡ n) × (d ≢ nodev)
has_block-dev d n b h = elim (ℕ_discrete d nodev) [
  | yes e ↦ absurd (cc (rw (eq→== d nodev e) at h))
  | no u ↦ elim (ℕ_discrete b.dev d) [
    | no e ↦ absurd (ground (arith, rw (ne→== d nodev u, ne→== b.dev d e) at h))
    | yes p ↦ elim (ℕ_discrete b.blkno n) [
      | no e ↦ absurd (ground (arith, rw (ne→== d nodev u, ne→== b.blkno n e) at h))
      | yes q ↦ (p, q, u)
    ]
  ]
]

-- `claim` at the place of a buffer that stands for the block
module _ (k : Kernel) (a : Blocks) (c : IsCache k) (i : ℕ) (h : i < 6) (d n : ℕ) where
  claimed-Keeps : Keeps k (claimed i k)
  claimed-Keeps =
      let f = fronted-Keeps k c i h in
      Keeps-trans f (busied-Keeps (fronted i k) f.cache (get_or k.bufp i 0) (c.known i h))

  module _ (holds : (d' n' : ℕ) → d' ≢ nodev → n' < 500 → Logical k d' n' (a d' n')) where
    pub claimed-Using :
        ((d' n' : ℕ) → k.medium.bad d' n' ≡ false)
        → (k.buf (get_or k.bufp i 0)).dev ≡ d
        → (k.buf (get_or k.bufp i 0)).blkno ≡ n
        → d ≢ nodev
        → ((i' : ℕ)
            → i' < 6
            → i' ≢ get_or k.bufp i 0
            → (k.buf i').busy ≡ true
            → (k.buf i').dev ≡ nodev)
        → Using (claimed i k) (get_or k.bufp i 0) d n a
    claimed-Using sound p q on_disk rest =
        let j = get_or k.bufp i 0 in
        let b' = record (k.buf j) { busy = true } in
        record {
          cache = claimed-Keeps.cache;
          sound = sound;
          index = c.known i h;
          on_dev = rw (put_self k.buf j b') p;
          at_block = rw (put_self k.buf j b') q;
          on_disk = on_disk;
          used = rw (put_self k.buf j b') refl;
          rest = λ i' h' ne. rw (put_ne k.buf j i' b' ne) (rest i' h' ne);
          others = λ d' n' u v w. claimed-Keeps.same d' n' (a d' n') u (holds d' n' u v);
        }

    pub claimed-Unchanged :
        d ≢ nodev
        → n < 500
        → ((k.buf (get_or k.bufp i 0)).done ≡ true
            → (k.buf (get_or k.bufp i 0)).delwri ≡ false
            → (k.buf (get_or k.bufp i 0)).data_words ≡ k.medium.contents d n)
        → Unchanged (claimed i k) (get_or k.bufp i 0) d n a
    claimed-Unchanged on_disk small settled =
        let j = get_or k.bufp i 0 in
        record {
          settled = rw (put_self k.buf j (record (k.buf j) { busy = true })) settled;
          own = claimed-Keeps.same d n (a d n) on_disk (holds d n on_disk small);
        }

-- A buffer that is not in use and not to be written is given up, and claimed.
module _ (k : Kernel) (a : Blocks) (c : IsCache k) (p : ℕ) (h : p < 6) (d n : ℕ) where
  abbrev pub reused : Kernel
  reused = claimed p (given d n (get_or k.bufp p 0) k)

  module _ (sound : (d' n' : ℕ) → k.medium.bad d' n' ≡ false)
      (holds : (d' n' : ℕ) → d' ≢ nodev → n' < 500 → Logical k d' n' (a d' n'))
      (on_disk : d ≢ nodev) (small : n < 500)
      (absent : (i : ℕ) → i < 6 → has_block d n (k.buf i) ≡ false)
      (clean : (k.buf (get_or k.bufp p 0)).delwri ≡ false)
      (idle : (k.buf (get_or k.bufp p 0)).busy ≡ false)
      (rest : (i : ℕ) → i < 6 → (k.buf i).busy ≡ true → (k.buf i).dev ≡ nodev) where
    reused-Keeps : Keeps k (given d n (get_or k.bufp p 0) k)
    reused-Keeps =
        fresh-Keeps k c (get_or k.bufp p 0) (c.known p h) d n on_disk small absent idle clean

    pub reused-both :
        Using reused (get_or k.bufp p 0) d n a × Unchanged reused (get_or k.bufp p 0) d n a
    reused-both =
        let j = get_or k.bufp p 0 in
        let b' = fresh d n (k.buf j) in
        let k' = given d n j k in
        let held = λ (d' n' : ℕ) (u : d' ≢ nodev) (v : n' < 500).
          reused-Keeps.same d' n' (a d' n') u (holds d' n' u v) in
        (
          claimed-Using k' a reused-Keeps.cache p h d n held sound (rw (put_self k.buf j b') refl)
              (rw (put_self k.buf j b') refl) on_disk
              (λ i h' ne. rw (put_ne k.buf j i b' ne) (rest i h')),
          claimed-Unchanged k' a reused-Keeps.cache p h d n held on_disk small
              (rw (put_self k.buf j b') (λ t. absurd (cc t))),
        )
