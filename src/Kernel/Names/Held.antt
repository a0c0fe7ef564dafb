-- ===== src/Kernel/Names/Held.antt =====
-- The buffer that the search of a directory holds, from entry to entry.
use bkunix.Prelude.{
  ℕ, ◌*◌, ◌/◌, ◌%◌, ◌<◌, ◌≡◌, ◌≢◌, refl, ap, ◌∙◌, sym, ◌⊎◌, inl, inr, Option, none, some, arith,
}
use mathlib.Core.Path.{subst}
use bkunix.Prelude.Tests.{eq→==, ne→==}
use bkunix.Prelude.Lists.{get_or}
use bkunix.Prelude.Run.{Cmd, ok, and_then}
use bkunix.Kernel.State.{Inode, Kernel, nodev}
use bkunix.Kernel.Bio.{bread}
use bkunix.Kernel.Bio.View.{Blocks, SameTables, Represents, Using, Unchanged, beside}
use bkunix.Kernel.Bio.Obtain.{bread-Obtains}
use bkunix.Kernel.Bio.Release.{released, brelse-Represents}
use bkunix.Kernel.Iget.Bmap.{bmap}
use bkunix.Kernel.Iget.Bmap.Lookup.{block_of, bmap-found}
use bkunix.Kernel.Rdwr.File.{HasBlocks}
use bkunix.Kernel.Names.{release, entry_buf}

-- the buffer `bp` holds the block `b`, where there is one
abbrev pub Held : Kernel → Blocks → ℕ → ℕ → Option ℕ → Type 0
Held k a d b none = Represents k a
Held k a d b (some j) = Using k j d b a × Unchanged k j d b a × ((k.buf j).data_words ≡ a d b)

pub release_lem :
    (k : Kernel) (a : Blocks) (d b : ℕ) (bp : Option ℕ)
    → Held k a d b bp
    → (k' : Kernel) × (release bp k ≡ ok tt k') × Represents k' a × SameTables k k'
release_lem k a d b none r = (k, refl, r, refl)
release_lem k a d b (some j) (u, v, w) =
    let (call, r) = brelse-Represents k j d b a u v in (released j k, call, r, refl)

-- a part of the search that ends with a buffer of the block `b`
abbrev pub Holds : Cmd Kernel ℕ → Kernel → Blocks → ℕ → ℕ → Type 0
Holds m k a d b =
    (j : ℕ) × (k' : Kernel) × (m k ≡ ok j k') × Held k' a d b (some j) × SameTables k k'

module _ (k : Kernel) (a : Blocks) (p i lim : ℕ) (h : HasBlocks a (k.inode p) lim)
    (at : k.u_offset1 ≡ 16 * i) (inside : 16 * i < lim) where
  -- the first entry of a block
  next_block :
      (b : ℕ) (bp : Option ℕ)
      → Held k a (k.inode p).dev b bp
      → i % 32 ≡ 0
      → Holds (entry_buf p bp) k a (k.inode p).dev (block_of a (k.inode p) (i / 32))
  unfolding entry_buf
  next_block b bp held start =
      let x = k.inode p in
      let (k1, back, r1, same1) = release_lem k a x.dev b bp held in
      let inode : k1.inode p ≡ x = ap (λ (t : Kernel). t.inode p) same1 in
      let few : k.u_offset1 / 512 ≡ i / 32 = omega (arith, at) in
      let (k2, call, r2, same2, sized) =
        bmap-found k1 a p (i / 32) r1 (subst (λ (y : Inode). y.dev ≢ nodev) (sym inode) h.on_disk)
          (subst (λ (y : Inode). (q : ℕ) → get_or y.addr q 0 < 500) (sym inode) h.addresses)
          (omega (arith, h.limit, inside))
          (subst (λ y. block_of a y (i / 32) ≢ 0) (sym inode) (h.present (i / 32) (omega arith))) in
      let c = block_of a x (i / 32) in
      let (j, k3, call3, same3, u, v, words) =
        bread-Obtains k2 a r2 x.dev c h.on_disk (h.small (i / 32)) in
      (
        j,
        k3,
        rw (eq→== (k.u_offset1 % 512) 0 (omega (arith, at)), back)
            (ap (λ q. and_then (bmap p q k1) (λ t. bread x.dev t)) few
              ∙ ap (λ r. and_then r (λ t. bread x.dev t)) call
              ∙ ap (λ y. bread x.dev (block_of a y (i / 32)) k2) inode
              ∙ call3),
        (u, v, words),
        same3 ∙ ap (beside k3) (same2 ∙ ap (beside k2) same1),
      )

  -- another entry of a block
  same_buf :
      (j : ℕ)
      → Held k a (k.inode p).dev (block_of a (k.inode p) (i / 32)) (some j)
      → i % 32 ≢ 0
      → Holds (entry_buf p (some j)) k a (k.inode p).dev (block_of a (k.inode p) (i / 32))
  unfolding entry_buf
  same_buf j held inner =
      (j, k, rw (ne→== (k.u_offset1 % 512) 0 (omega (arith, at))) refl, held, refl)

-- where the search stands before the entry `i`
abbrev pub Before : Kernel → Blocks → ℕ → ℕ → Option ℕ → Type 0
Before k a p i bp =
    ((b : ℕ) × Held k a (k.inode p).dev b bp × (i % 32 ≡ 0))
    ⊎ ((j : ℕ) × (bp ≡ some j)
        × Held k a (k.inode p).dev (block_of a (k.inode p) (i / 32)) (some j)
        × (i % 32 ≢ 0))

pub entry_buf_lem :
    (k : Kernel) (a : Blocks) (p i lim : ℕ) (bp : Option ℕ)
    → HasBlocks a (k.inode p) lim
    → k.u_offset1 ≡ 16 * i
    → 16 * i < lim
    → Before k a p i bp
    → Holds (entry_buf p bp) k a (k.inode p).dev (block_of a (k.inode p) (i / 32))
entry_buf_lem k a p i lim bp h at inside (inl (b, held, start)) =
    next_block k a p i lim h at inside b bp held start
entry_buf_lem k a p i lim bp h at inside (inr (j, e, held, inner)) =
    subst (λ t. Holds (entry_buf p t) k a (k.inode p).dev (block_of a (k.inode p) (i / 32))) (sym e)
      (same_buf k a p i lim h at inside j held inner)
