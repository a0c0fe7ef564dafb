-- ===== src/Kernel/Rdwr/File.antt =====
-- A file as a sequence of bytes, through the map of its blocks.
use bkunix.Prelude.{ℕ, ◌*◌, ◌/◌, ◌%◌, ◌≤◌, ◌<◌, ◌≡◌, ◌≢◌, ap, ◌∙◌, false, arith}
use bkunix.Prelude.Lists.{get_or}
use bkunix.Prelude.Run.{ok}
use bkunix.Kernel.State.{Inode, Kernel, nodev}
use bkunix.Kernel.Bio.Sized.{Sized}
use bkunix.Kernel.Bio.View.{Blocks, SameTables, Represents}
use bkunix.Kernel.Iget.Bmap.{bmap}
use bkunix.Kernel.Iget.Bmap.Lookup.{block_of, bmap-found}
use bkunix.Kernel.Wide.{wide, lshift_9}
use bkunix.Kernel.Iomove.{byte_at}
use bkunix.Kernel.Rdwr.{is_char, is_block}

-- the byte of a file at an offset
abbrev pub file_byte : Blocks → Inode → ℕ → ℕ
file_byte a x i = byte_at (a x.dev (block_of a x (i / 512))) (i % 512)

abbrev pub file_size : Inode → ℕ
file_size x = wide (x.size0 % 256) x.size1

-- the offset of the call
abbrev pub offset : Kernel → ℕ
offset k = wide k.u_offset0 k.u_offset1

-- A plain file or a directory on a device has all blocks of its first `lim` bytes, and its addresses
-- are those of a diskette.
pub record HasBlocks (a : Blocks) (x : Inode) (lim : ℕ) : Type 0 where
  pub no_char : is_char x ≡ false
  pub no_block : is_block x ≡ false
  pub on_disk : x.dev ≢ nodev
  pub addresses : (i : ℕ) → get_or x.addr i 0 < 500
  pub small : (bn : ℕ) → block_of a x bn < 500
  pub present : (bn : ℕ) → bn * 512 < lim → block_of a x bn ≢ 0
  pub size : x.size1 < 65536
  pub limit : lim ≤ 1048576

-- The block of the offset is found.
pub bmap-HasBlocks :
    (k : Kernel) (a : Blocks) (p lim : ℕ)
    → Represents k a
    → HasBlocks a (k.inode p) lim
    → offset k < lim
    → (k' : Kernel) × (bmap p (lshift_9 k.u_offset0 k.u_offset1) k
        ≡ ok (block_of a (k.inode p) (offset k / 512)) k')
      × Represents k' a
      × SameTables k k'
      × (Sized k → Sized k')
bmap-HasBlocks k a p lim r h inside =
    let few : lshift_9 k.u_offset0 k.u_offset1 ≡ offset k / 512 = omega (arith, h.limit) in
    let (k', call, r', same, sized) =
      bmap-found k a p (offset k / 512) r h.on_disk h.addresses (omega (arith, h.limit))
        (h.present (offset k / 512) (omega arith)) in
    (k', ap (λ n. bmap p n k) few ∙ call, r', same, sized)
