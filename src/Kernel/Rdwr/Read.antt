-- ===== src/Kernel/Rdwr/Read.antt =====
-- A round of `readi` gives the bytes of one block of the file.
pub mod Loop
use bkunix.Prelude.{
  ℕ, zero, suc, ◌+◌, ◌-◌, ◌*◌, ◌/◌, ◌%◌, ◌≤◌, ◌<◌, ◌≡◌, ◌≢◌, refl, ap, ap₂, ◌∙◌, sym, inl, inr,
  Bool, false, true, List, arith, min, not, ◌&&◌,
}
use mathlib.Core.Path.{fun_ext, subst}
use bkunix.Prelude.Tests.{ltb, leb, ◌==◌, if◌then◌else◌, Bool-cases, ne→==, eq→==, ==_iff}
use bkunix.Prelude.Lists.{get_or}
use bkunix.Prelude.Run.{ok, Cmd, and_then, ◌>>=◌, ◌>>◌, pure, get}
use bkunix.Kernel.State.{Inode, Kernel, nodev}
use bkunix.Kernel.Bio.{brelse, bread}
use bkunix.Kernel.Alloc.{s_lt}
use bkunix.Kernel.Bio.View.{Blocks, SameTables, Represents, beside, Using-beside}
use bkunix.Kernel.Bio.Obtain.{bread-Obtains}
use bkunix.Kernel.Bio.Release.{released, brelse-Represents}
use native.Mathlib.Decide.{dec_le}
use bkunix.Kernel.Iget.Bmap.{bmap}
use bkunix.Kernel.Iget.Bmap.Lookup.{block_of, bmap-found}
use bkunix.Kernel.Wide.{wide, lshift_9, dpcmp, dpcmp-above, dpcmp-below}
use bkunix.Kernel.Iomove.{byte_at, iomove_read}
use bkunix.Kernel.Iomove.Progress.{
  Fits, Fits-less, Fits-beside, progress, advanced, poured, progress-agree, progress-progress,
  progress-zero, Fits-core, Fits-advanced,
}
use bkunix.Kernel.Iomove.Out.{iomove_read_lem}
use bkunix.Kernel.Rdwr.{
  is_char, is_block, room, read_block, read_mapped, read_round, goes_on, read_loop, readi,
}
use bkunix.Kernel.Rdwr.File.{file_byte, file_size, offset, HasBlocks, bmap-HasBlocks}

-- how many bytes a call reads
abbrev pub to_read : Kernel → Inode → ℕ
to_read k x = min k.u_count (file_size x - offset k)

-- how many a round reads
abbrev pub in_round : Kernel → Inode → ℕ
in_round k x = min (room k) (min (file_size x - offset k) 512)

-- the bytes from the offset on
abbrev pub from_offset : Blocks → Kernel → Inode → ℕ → ℕ
from_offset a k x i = file_byte a x (offset k + i)

-- A call of `readi` that fits, of a file that has the blocks of its size.
pub record Readable (k : Kernel) (a : Blocks) (p : ℕ) : Type 0 where
  pub blocks : Represents k a
  pub file : HasBlocks a (k.inode p) (file_size (k.inode p))
  pub fits : Fits k 0
  pub no_error : k.u_error ≡ 0
  pub near : k.u_offset0 < 32768

-- the number of bytes behind the offset, which `readi` compares with that of the block
pub in_file :
    (k : Kernel) (a : Blocks) (p : ℕ)
    → Readable k a p
    → offset k ≤ file_size (k.inode p)
    → dpcmp ((k.inode p).size0 % 256) (k.inode p).size1 k.u_offset0 k.u_offset1
      ≡ min (file_size (k.inode p) - offset k) 512
in_file k a p h e =
    dpcmp-above ((k.inode p).size0 % 256) (k.inode p).size1 k.u_offset0 k.u_offset1 (omega arith)
      h.file.size h.near h.fits.low e

pub behind_file :
    (k : Kernel) (a : Blocks) (p : ℕ)
    → Readable k a p
    → file_size (k.inode p) ≤ offset k
    → s_lt 0 (dpcmp ((k.inode p).size0 % 256) (k.inode p).size1 k.u_offset0 k.u_offset1) ≡ false
behind_file k a p h e = elim (dec_le (offset k) (file_size (k.inode p))) [
  | yes q ↦ rw (in_file k a p h q) (ground arith)
  | no q ↦
      rw
        (dpcmp-below ((k.inode p).size0 % 256) (k.inode p).size1 k.u_offset0 k.u_offset1
          (omega arith) h.file.size h.near h.fits.low (omega arith))
        (ground arith)
]

pub read_round-end :
    (k : Kernel) (a : Blocks) (p : ℕ)
    → Readable k a p
    → file_size (k.inode p) ≤ offset k
    → read_round p k ≡ ok false k
unfolding read_round
read_round-end k a p h e = rw (h.file.no_block, behind_file k a p h e) refl

read_round_call :
    (k k1 : Kernel) (p dn b : ℕ)
    → is_block (k.inode p) ≡ false
    → dpcmp ((k.inode p).size0 % 256) (k.inode p).size1 k.u_offset0 k.u_offset1 ≡ dn
    → s_lt 0 dn ≡ true
    → bmap p (lshift_9 k.u_offset0 k.u_offset1) k ≡ ok b k1
    → read_round p k ≡ read_mapped p (k.u_offset1 % 512) (min (room k) dn) b k1
unfolding read_round
read_round_call k k1 p dn b plain e pos call = rw (plain, e, pos, call) refl

read_mapped_call :
    (k1 k2 k3 k4 : Kernel) (p b j on n : ℕ)
    → b ≢ 0
    → bread (k1.inode p).dev b k1 ≡ ok j k2
    → iomove_read j on n k2 ≡ ok tt k3
    → brelse j k3 ≡ ok tt k4
    → read_mapped p on n b k1 ≡ ok true k4
unfolding read_mapped read_block
read_mapped_call k1 k2 k3 k4 p b j on n h call move back = rw (ne→== b 0 h, call, move, back) refl

-- the bytes of one block
same_block :
    (a : Blocks) (k : Kernel) (x : Inode) (i : ℕ)
    → i < 512 - k.u_offset1 % 512
    → byte_at (a x.dev (block_of a x (offset k / 512))) (k.u_offset1 % 512 + i)
      ≡ from_offset a k x i
same_block a k x i h = ap₂ (λ q r. byte_at (a x.dev (block_of a x q)) r) (omega arith) (omega arith)

module _ (k : Kernel) (a : Blocks) (p : ℕ) (h : Readable k a p)
    (inside : offset k < file_size (k.inode p)) where
  abbrev x : Inode
  x = k.inode p

  abbrev n : ℕ
  n = in_round k x

  -- the blocks behind the transfer of one block's bytes
  read_mapped_lem :
      (k1 : Kernel)
      → Represents k1 a
      → k1 ≡ beside k1 k
      → (k' : Kernel) × (read_mapped p (k.u_offset1 % 512) n (block_of a x (offset k / 512)) k1
          ≡ ok true k')
        × Represents k' a
        × (k' ≡ beside k' (progress (from_offset a k x) n k))
  read_mapped_lem k1 r1 same1 =
      let b = block_of a x (offset k / 512) in
      let on = k.u_offset1 % 512 in
      let (j, k2, call, same2, u, v, words) =
        bread-Obtains k1 a r1 x.dev b h.file.on_disk (h.file.small (offset k / 512)) in
      let same : k2 ≡ beside k2 k = same2 ∙ ap (beside k2) same1 in
      let f : ℕ → ℕ = λ i. byte_at (k2.buf j).data_words (on + i) in
      let k3 = progress f n k2 in
      let fits : Fits k2 n =
        subst (λ t. Fits t n) (sym same) (Fits-beside k2 k (Fits-less n (omega arith) h.fits)) in
      let (back, r') = brelse-Represents k3 j x.dev b a (Using-beside k2 k3 u) (record {
        settled = v.settled;
        own = record { cached = v.own.cached; stored = v.own.stored };
      }) in
      let dev : (k1.inode p).dev ≡ x.dev = ap (λ t. (t.inode p).dev) same1 in
      (
        released j k3,
        read_mapped_call k1 k2 k3 (released j k3) p b j on n
            (h.file.present (offset k / 512) (omega arith)) (ap (λ d. bread d b k1) dev ∙ call)
            (iomove_read_lem j on n k2 fits) back,
        r',
        ap (λ t. beside (released j k3) (progress f n t)) same
            ∙ ap (beside (released j k3)) (
                progress-agree f (from_offset a k x) n k
                  λ i q. ap (λ ws. byte_at ws (on + i)) words ∙ same_block a k x i (omega arith)),
      )

  pub read_round_lem :
      (k' : Kernel) × (read_round p k ≡ ok true k')
      × Represents k' a
      × (k' ≡ beside k' (progress (from_offset a k x) n k))
  read_round_lem =
      let (k1, call, r1, same1, sized) =
        bmap-HasBlocks k a p (file_size x) h.blocks h.file inside in
      let (k', done, r', same) = read_mapped_lem k1 r1 same1 in
      (
        k',
        read_round_call k k1 p (min (file_size x - offset k) 512) (block_of a x (offset k / 512))
              h.file.no_block (in_file k a p h (omega arith)) (ground arith) call
            ∙ done,
        r',
        same,
      )
