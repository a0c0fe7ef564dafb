-- ===== src/Kernel/Iget/Bmap/Allocate.antt =====
-- `bmap` of a block that a small file does not have.
use bkunix.Prelude.{ℕ, ◌<◌, ◌≡◌, ◌≢◌, refl, ap, ap₂, ◌∙◌, true, false, some, List, ◌∷◌, arith}
use mathlib.Core.Path.{subst}
use bkunix.Prelude.Tests.{leb, lt→leb}
use bkunix.Prelude.Lists.{get_or, set, replicate, length, get_or-set_self}
use bkunix.Prelude.Run.{ok}
use bkunix.Kernel.State.{Inode, Filsys, Kernel, nodev}
use bkunix.Kernel.Bio.{bdwrite}
use bkunix.Kernel.Bio.Cache.{put_self}
use bkunix.Kernel.Bio.View.{Blocks, updated, Represents, Represents-beside}
use bkunix.Kernel.Bio.Release.{postponed, bdwrite-Represents}
use bkunix.Kernel.Alloc.{alloc}
use bkunix.Kernel.Alloc.Chain.{FreeList}
use bkunix.Kernel.Alloc.Take.{alloc-Takes}
use bkunix.Kernel.Iget.{set_inode}
use bkunix.Kernel.Iget.Bmap.{map_small, bmap}
use bkunix.Kernel.Iget.Bmap.Lookup.{is_large, block_of, bmap_small}

-- the inode with an address set
abbrev pub with_block : ℕ → ℕ → Inode → Inode
with_block bn b x = record x { addr = set x.addr bn b; upd = true }

map_small_call :
    (k k1 k2 : Kernel) (p bn j : ℕ)
    → get_or (k.inode p).addr bn 0 ≡ 0
    → alloc (k.inode p).dev k ≡ ok (some j) k1
    → bdwrite j k1 ≡ ok tt k2
    → map_small p bn k
      ≡ ok (k2.buf j).blkno (set_inode p (with_block bn (k2.buf j).blkno (k2.inode p)) k2)
unfolding map_small
map_small_call k k1 k2 p bn j none_there call back = rw (none_there, call, back) refl

-- In a state that represents the blocks `a`, for a small file of a mounted device whose free blocks
-- start with `b`, `bmap` of one of its first eight blocks that the file does not have ends with
-- `b`: the block is cleared and is no longer free, the inode has it, and no other block changes.
pub bmap-allocates :
    (k : Kernel) (a : Blocks) (p bn m b : ℕ) (fs : Filsys) (bs : List ℕ)
    → Represents k a
    → (k.inode p).dev ≢ nodev
    → FreeList k a (k.inode p).dev m fs (b ∷ bs)
    → bn < 8
    → length (k.inode p).addr ≡ 8
    → is_large (k.inode p) ≡ false
    → block_of a (k.inode p) bn ≡ 0
    → (k' : Kernel) × (fs' : Filsys) × (bmap p bn k ≡ ok b k')
      × Represents k' (updated a (k.inode p).dev b (replicate 256 0))
      × FreeList k' (updated a (k.inode p).dev b (replicate 256 0)) (k.inode p).dev m fs' bs
      × (k'.inode p ≡ with_block bn b (k.inode p))
      × (block_of (updated a (k.inode p).dev b (replicate 256 0)) (k'.inode p) bn ≡ b)
bmap-allocates k a p bn m b fs bs r on_disk l small eight e none_there =
    let d = (k.inode p).dev in
    let in_eight : leb 8 bn ≡ false = lt→leb 8 bn small in
    let (j, k1, fs', call, u, cleared, l', inodes) = alloc-Takes k a d m fs b bs on_disk r l in
    let (back, r') = bdwrite-Represents k1 j d b a u in
    let k2 = postponed j k1 in
    let blkno : (k2.buf j).blkno ≡ b =
      ap (λ x. x.blkno)
        (put_self k1.buf j (record (k1.buf j) { delwri = true; done = true; busy = false }))
      ∙ u.at_block in
    let x' = with_block bn (k2.buf j).blkno (k2.inode p) in
    let k' = set_inode p x' k2 in
    let now : k'.inode p ≡ with_block bn b (k.inode p) =
      put_self k2.inode p x' ∙ ap₂ (λ n f. with_block bn n (f p)) blkno inodes in
    let a' = updated a d b (replicate 256 0) in
    (
      k',
      fs',
      bmap_small k p bn (omega arith) e in_eight
          ∙ map_small_call k k1 k2 p bn j (rw (e, in_eight) at none_there) call back
          ∙ ap (λ t. ok t k') blkno,
      Represents-beside k2 k' (subst (λ w. Represents k2 (updated a d b w)) cleared r'),
      record {
        mounted = record {
          found = l'.mounted.found;
          at = l'.mounted.at;
          small = l'.mounted.small;
          inodes = l'.mounted.inodes;
        };
        chain = l'.chain;
        inside = l'.inside;
        distinct = l'.distinct;
      },
      now,
      ap (λ x. block_of a' x bn) now
          ∙ rw (e, in_eight) (get_or-set_self (k.inode p).addr bn b 0 (omega arith)),
    )
