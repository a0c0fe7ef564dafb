-- ===== src/Kernel/Bio/Cycle.antt =====
-- The ways in which the kernel uses a block: read it, change it, or write it over.
use bkunix.Prelude.{ℕ, ◌<◌, ◌≡◌, ◌≢◌, ap, List}
use mathlib.Core.Path.{subst}
use bkunix.Prelude.Run.{ok}
use bkunix.Kernel.State.{Kernel, nodev}
use bkunix.Kernel.Bio.{brelse, bwrite, bdwrite, getblk, bread}
use bkunix.Kernel.Bio.Cache.{put_self}
use bkunix.Kernel.Bio.Transfer.{written}
use bkunix.Kernel.Bio.View.{Blocks, updated, Represents, Using}
use bkunix.Kernel.Bio.Obtain.{getblk-Obtains, bread-Obtains}
use bkunix.Kernel.Bio.Release.{
  edited, released, postponed, edited-Using, brelse-Represents, bwrite-Represents,
  bdwrite-Represents,
}

-- A buffer in use is given the words `xs`, and is given back with a write at once, or later.
abbrev pub Stores : Kernel → ℕ → ℕ → ℕ → Blocks → List ℕ → Type 0
Stores k j d n a xs =
    ((k' : Kernel) × (bwrite j (edited j xs k) ≡ ok tt k') × Represents k' (updated a d n xs))
    × ((k' : Kernel) × (bdwrite j (edited j xs k) ≡ ok tt k') × Represents k' (updated a d n xs))

Using-Stores :
    (k : Kernel) (j d n : ℕ) (a : Blocks) (xs : List ℕ) → Using k j d n a → Stores k j d n a xs
Using-Stores k j d n a xs u =
    let v = edited-Using k j d n a u xs in
    let (call, r) = bwrite-Represents (edited j xs k) j d n a v in
    let (call', r') = bdwrite-Represents (edited j xs k) j d n a v in
    let words = ap (λ b. b.data_words) (put_self k.buf j (record (k.buf j) { data_words = xs })) in
    (
      (
        written j (edited j xs k),
        call,
        subst (λ t. Represents (written j (edited j xs k)) (updated a d n t)) words r,
      ),
      (
        postponed j (edited j xs k),
        call',
        subst (λ t. Represents (postponed j (edited j xs k)) (updated a d n t)) words r',
      ),
    )

module _ (k : Kernel) (a : Blocks) (r : Represents k a) (d n : ℕ) (on_disk : d ≢ nodev)
    (small : n < 500) (xs : List ℕ) where
  -- In a state that represents the blocks `a`, `bread` of a block below 500 of a device returns a
  -- buffer with the words of that block. Behind `brelse` no block has changed; where the kernel puts
  -- the words `xs` into the buffer and calls `bwrite` or `bdwrite`, the block holds `xs`, and the
  -- others hold what they held.
  pub bread-cycle :
      (j : ℕ) × (k' : Kernel) × (bread d n k ≡ ok j k')
      × ((k'.buf j).data_words ≡ a d n)
      × ((k'' : Kernel) × (brelse j k' ≡ ok tt k'') × Represents k'' a)
      × Stores k' j d n a xs
  bread-cycle =
      let (j, k', call, same, u, v, words) = bread-Obtains k a r d n on_disk small in
      let (back, r') = brelse-Represents k' j d n a u v in
      (j, k', call, words, (released j k', back, r'), Using-Stores k' j d n a xs u)

  -- In a state that represents the blocks `a`, `getblk` of a block below 500 of a device returns a
  -- buffer. Where the kernel puts the words `xs` into it and calls `bwrite` or `bdwrite`, the block
  -- holds `xs`, though it was not read, and the others hold what they held.
  pub getblk-cycle : (j : ℕ) × (k' : Kernel) × (getblk d n k ≡ ok j k') × Stores k' j d n a xs
  getblk-cycle =
      let (j, k', call, same, u, v) = getblk-Obtains k a r d n on_disk small in
      (j, k', call, Using-Stores k' j d n a xs u)
