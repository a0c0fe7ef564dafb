-- ===== src/Kernel/Iget/Bmap/Lookup.antt =====
-- `bmap` of a block that the file has, against the map that the addresses of an inode describe.
use bkunix.Prelude.{
  ℕ, ◌/◌, ◌%◌, ◌<◌, ◌≡◌, ◌≢◌, refl, sym, ap, ◌∙◌, inl, inr, Bool, true, false, bit_and, not,
}
use bkunix.Prelude.Tests.{leb, ◌==◌, if◌then◌else◌, eq→==, ne→==, lt→leb, Bool-cases}
use bkunix.Prelude.Lists.{get_or}
use native.Mathlib.Decide.{ℕ_discrete}
use bkunix.Prelude.Run.{ok, and_then, pure}
use bkunix.Kernel.State.{Inode, Kernel, nodev}
use bkunix.Kernel.Bio.{set_buf, brelse, bread}
use bkunix.Kernel.Bio.View.{Blocks, SameTables, Represents}
use bkunix.Kernel.Bio.Sized.{Sized, set_buf-Sized, bread-Sized, Sized-behind}
use bkunix.Kernel.Bio.Obtain.{bread-Obtains}
use bkunix.Kernel.Bio.Release.{released, brelse-Represents}
use bkunix.Kernel.Iget.Bmap.{map_indirect, map_large, map_small, bmap}

abbrev pub is_large : Inode → Bool
is_large x = not (bit_and x.mode 4096 == 0)

-- the word of an indirect block; block 0 is none
abbrev word_of : Blocks → ℕ → ℕ → ℕ → ℕ
word_of a dev b i = if b == 0 then 0 else get_or (a dev b) i 0

-- The block of a file: one of eight addresses, or a word of one of eight indirect blocks; 0 where the
-- file has none.
abbrev pub block_of : Blocks → Inode → ℕ → ℕ
block_of a x bn =
    if is_large x
    then word_of a x.dev (get_or x.addr (bn / 256) 0) (bn % 256)
    else if leb 8 bn
    then 0
    else get_or x.addr bn 0

module _ (k : Kernel) (p bn : ℕ) (small : bn < 2048) where
  bmap_large : is_large (k.inode p) ≡ true → bmap p bn k ≡ map_large p bn k
  unfolding bmap
  bmap_large e = rw (lt→leb 2048 bn small, e) refl

  pub bmap_small : is_large (k.inode p) ≡ false → leb 8 bn ≡ false → bmap p bn k ≡ map_small p bn k
  unfolding bmap
  bmap_small e e' = rw (lt→leb 2048 bn small, e, e') refl

  map_small_lem :
      get_or (k.inode p).addr bn 0 ≢ 0 → map_small p bn k ≡ ok (get_or (k.inode p).addr bn 0) k
  unfolding map_small
  map_small_lem h = rw (ne→== (get_or (k.inode p).addr bn 0) 0 h) refl

  map_large_lem :
      (k1 k2 : Kernel) (j b : ℕ)
      → get_or (k.inode p).addr (bn / 256) 0 ≡ b
      → b ≢ 0
      → bread (k.inode p).dev b k ≡ ok j k1
      → get_or (k1.buf j).data_words (bn % 256) 0 ≢ 0
      → brelse j k1 ≡ ok tt k2
      → map_large p bn k ≡ ok (get_or (k1.buf j).data_words (bn % 256) 0) k2
  unfolding map_large map_indirect
  map_large_lem k1 k2 j b at h call h' back =
      rw (at, ne→== b 0 h, call, ne→== (get_or (k1.buf j).data_words (bn % 256) 0) 0 h')
        (ap (λ t. and_then t (λ _. pure (get_or (k1.buf j).data_words (bn % 256) 0))) back)

-- `bmap` of a block that the file has, with all that it leaves alone
pub bmap-found :
    (k : Kernel) (a : Blocks) (p bn : ℕ)
    → Represents k a
    → (k.inode p).dev ≢ nodev
    → ((i : ℕ) → get_or (k.inode p).addr i 0 < 500)
    → bn < 2048
    → block_of a (k.inode p) bn ≢ 0
    → (k' : Kernel) × (bmap p bn k ≡ ok (block_of a (k.inode p) bn) k')
      × Represents k' a
      × SameTables k k'
      × (Sized k → Sized k')
bmap-found k a p bn r on_disk below small has = elim (Bool-cases (is_large (k.inode p))) [
  | inr e ↦ elim (Bool-cases (leb 8 bn)) [
    | inl e' ↦ absurd (has (rw (e, e') refl))
    | inr e' ↦ (
      k,
      bmap_small k p bn small e e'
          ∙ map_small_lem k p bn small (rw (e, e') at has)
          ∙ rw (e, e') refl,
      r,
      refl,
      λ s. s,
    )
  ]
  | inl e ↦
      let b = get_or (k.inode p).addr (bn / 256) 0 in
      elim (ℕ_discrete b 0) [
        | yes z ↦ absurd (has (rw (e, eq→== b 0 z) refl))
        | no nz ↦
            let (j, k1, call, same, u, v, words) =
              bread-Obtains k a r (k.inode p).dev b on_disk (below (bn / 256)) in
            let (back, r') = brelse-Represents k1 j (k.inode p).dev b a u v in
            let value : get_or (k1.buf j).data_words (bn % 256) 0 ≡ block_of a (k.inode p) bn =
              ap (λ t. get_or t (bn % 256) 0) words ∙ rw (e, ne→== b 0 nz) refl in
            (
              released j k1,
              bmap_large k p bn small e
                  ∙ map_large_lem k p bn small k1 (released j k1) j b refl nz call
                      (λ t. has (sym value ∙ t)) back
                  ∙ ap (λ t. ok t (released j k1)) value,
              r',
              ap (set_buf j (record (k1.buf j) { busy = false })) same,
              λ s.
                  let s1 =
                    Sized-behind (bread (k.inode p).dev b k) j k1 call
                      (bread-Sized (k.inode p).dev b k s) in
                  set_buf-Sized j (record (k1.buf j) { busy = false }) k1 s1 (s1.bufs j),
            )
      ]
]

-- In a state that represents the blocks `a`, for an inode of a device whose addresses are below 500
-- and a block below 2048 that the file has, `bmap` ends with that block, changes no block, and of all
-- other tables, the inodes, the super blocks with their free lists and the error among them, none.
pub bmap-block_of :
    (k : Kernel) (a : Blocks) (p bn : ℕ)
    → Represents k a
    → (k.inode p).dev ≢ nodev
    → ((i : ℕ) → get_or (k.inode p).addr i 0 < 500)
    → bn < 2048
    → block_of a (k.inode p) bn ≢ 0
    → (k' : Kernel) × (bmap p bn k ≡ ok (block_of a (k.inode p) bn) k')
      × Represents k' a
      × SameTables k k'
bmap-block_of k a p bn r on_disk below small has =
    let (k', call, r', same, sized) = bmap-found k a p bn r on_disk below small has in
    (k', call, r', same)
