-- ===== src/Kernel/Tests/Tables.antt =====
-- Runs of the functions on inodes, open files and signals, on the system of the parent module.
use mathlib.Core.Path.{subst}
use bkunix.Prelude.{
  Option, zero, suc, sym, ap, ◌∙◌, inl, ℕ, ◌+◌, ◌*◌, ◌≤◌, ◌<◌, ◌≡◌, refl, true, none, some, List,
  [], ◌∷◌, arith,
}
use bkunix.Prelude.Lists.{get_or, replicate}
use bkunix.Prelude.Tests.{◌==◌, if◌then◌else◌}
use bkunix.Prelude.Run.{ok}
use bkunix.Kernel.State.{Inode, Filsys, File, Kernel}
use bkunix.Kernel.Bio.View.{updated, beside, SameTables, Represents, Represents-beside}
use bkunix.Kernel.Iget.{with_inode, iupdat, read_inode}
use bkunix.Kernel.Iget.Words.{SameFile, with_inode_other}
use bkunix.Kernel.Iget.Store.{unflagged, iupdat-Writes, read_inode-iupdat}
use bkunix.Kernel.Iget.Bmap.{bmap}
use bkunix.Kernel.Iget.Bmap.Lookup.{block_of, bmap-block_of}
use bkunix.Kernel.Iget.Bmap.Allocate.{with_block, bmap-allocates}
use bkunix.Kernel.Files.Seek.{seek, seek_lem}
use bkunix.Kernel.Files.{open_file, set_file, file_at, dup, falloc, close}
use bkunix.Kernel.Files.Counts.{refs, Counts}
use bkunix.Kernel.Files.Steps.{some_inj}
use bkunix.Kernel.Files.Calls.{EndsCounted, descriptors-Counts}
use bkunix.Kernel.Files.Close.{close-Counts}
use bkunix.Kernel.Procs.{issig, ssig}
use bkunix.Kernel.Procs.Signals.{KillsStand, ssig-KillsStand, issig-ssig}
use bkunix.Kernel.Alloc.Chain.{FreeList}
use bkunix.Kernel.Tests.{
  running, loaded_kernel, no_inode, no_file, no_proc, root_fs, running-Represents, running-FreeList,
}

-- Inode 3 of the root is in core with two references and is to be written; file 0 is its open file.
abbrev open_inode : Inode
open_inode = record no_inode { upd = true; count = 2; number = 3; mode = 32768; nlink = 1 }

abbrev root_file : File
root_file = record no_file { flag = 1; count = 1 }

abbrev busy_kernel : Kernel
busy_kernel = record running {
  inode = λ p. if p == 0 then open_inode else no_inode;
  file = root_file ∷ replicate 19 no_file;
  u_ofile = some 0 ∷ replicate 14 none;
}

busy_kernel-Represents : Represents busy_kernel running.medium.contents
busy_kernel-Represents = Represents-beside running busy_kernel running-Represents

iupdat-Writes_example :
    (k' : Kernel) × (iupdat 0 busy_kernel ≡ ok tt k')
    × Represents k'
        (updated running.medium.contents 0 2 (with_inode open_inode 0 0 (2 ∷ replicate 255 0)))
    × (k' ≡ beside k' (unflagged 0 busy_kernel))
iupdat-Writes_example =
    iupdat-Writes busy_kernel loaded_kernel.medium.contents busy_kernel-Represents 0
      (λ t. omega arith) (omega arith) refl

read_inode-iupdat_example :
    (k1 : Kernel) × (k2 : Kernel) × (iupdat 0 busy_kernel ≡ ok tt k1)
    × (read_inode 0 3 1 k1 ≡ ok (some 1) k2)
    × SameFile (k2.inode 1) open_inode
read_inode-iupdat_example =
    read_inode-iupdat busy_kernel loaded_kernel.medium.contents 0 1 busy_kernel-Represents refl
      (λ t. omega arith) (omega arith)
      (record {
        nlink = omega arith;
        uid = omega arith;
        gid = omega arith;
        size0 = omega arith;
        addr = refl;
      })
      refl

with_inode_other_example :
    get_or (with_inode open_inode 0 0 (replicate 256 7)) 5 0 ≡ get_or (replicate 256 7) 5 0
with_inode_other_example =
    with_inode_other open_inode 0 0 (replicate 256 7)
      (record {
        nlink = omega arith;
        uid = omega arith;
        gid = omega arith;
        size0 = omega arith;
        addr = refl;
      })
      refl 5 (inl (omega arith))

abbrev closed_ones : ℕ → List (Option ℕ)
closed_ones n = replicate n none

all_closed : (n i : ℕ) → get_or (closed_ones n) i none ≡ none
all_closed zero i = refl
all_closed (suc n) zero = refl
all_closed (suc n) (suc i) = all_closed n i

none-some : {f : ℕ} → none ≡ some f → ⊥
none-some h = cc

opened_below : (i f : ℕ) → get_or busy_kernel.u_ofile i none ≡ some f → f < 20
opened_below zero f h = subst (λ t. t < 20) (some_inj h) (omega arith)
opened_below (suc i) f h = absurd (none-some (sym (all_closed 14 i) ∙ h))

unused : (n f : ℕ) (x : File) → file_at (replicate n no_file) f ≡ some x → x.count ≡ 0
unfolding file_at
unused zero f x h = cc
unused (suc n) zero x h = ap (λ y. y.count) (sym (some_inj h))
unused (suc n) (suc f) x h = unused n f x h

counted_file :
    (f : ℕ) (x : File)
    → file_at busy_kernel.file f ≡ some x
    → x.count ≡ refs f busy_kernel.u_ofile + 0
unfolding file_at
counted_file zero x h = ap (λ y. y.count) (sym (some_inj h))
counted_file (suc f) x h = unused 19 f x h ∙ ground arith

-- Descriptor 0 is open, and no process is swapped out.
busy_kernel-Counts : Counts (λ f. 0) busy_kernel
busy_kernel-Counts = record {
  slots = refl;
  files = refl;
  few = λ f. omega arith;
  open_only = opened_below;
  counted = counted_file;
}

descriptors-Counts_example :
    EndsCounted dup (λ f. 0) busy_kernel × EndsCounted falloc (λ f. 0) busy_kernel
descriptors-Counts_example = descriptors-Counts (λ f. 0) busy_kernel busy_kernel-Counts

close-Counts_example : EndsCounted (close (λ k. ok tt k)) (λ f. 0) busy_kernel
unfolding file_at
close-Counts_example =
    close-Counts (λ k. ok tt k) (λ f. 0) busy_kernel busy_kernel-Counts
      (λ f x is_open at few.
        let first : root_file ≡ x =
          some_inj (subst (λ t. file_at busy_kernel.file t ≡ some x) (sym (some_inj is_open)) at) in
        (
          subst (λ y. 2 ≤ (busy_kernel.inode y.inode).count) first (omega arith),
          subst (λ y. (busy_kernel.inode y.inode).count < 128) first (omega arith),
        ))

-- The process has a kill signal pending, and asks to ignore signal 2.
abbrev killed_kernel : Kernel
killed_kernel = record running {
  proc = record no_proc { sig = 9 } ∷ no_proc ∷ no_proc ∷ [];
  u_arg = 2 ∷ 1 ∷ 0 ∷ 0 ∷ 0 ∷ [];
}

ssig-KillsStand_example : (k' : Kernel) × (ssig killed_kernel ≡ ok tt k') × KillsStand k'
ssig-KillsStand_example = ssig-KillsStand killed_kernel (record { table = refl; kill = refl })

issig-ssig_example :
    (issig killed_kernel ≡ ok 9 killed_kernel)
    × ((k' : Kernel) × (ssig killed_kernel ≡ ok tt k') × (issig k' ≡ ok 9 k'))
issig-ssig_example =
    issig-ssig killed_kernel (record { table = refl; kill = refl }) refl (λ t. omega arith)

busy_kernel-FreeList : FreeList busy_kernel running.medium.contents 0 0 root_fs (21 ∷ 20 ∷ [])
busy_kernel-FreeList = record {
  mounted = record {
    found = running-FreeList.mounted.found;
    at = running-FreeList.mounted.at;
    small = running-FreeList.mounted.small;
    inodes = running-FreeList.mounted.inodes;
  };
  chain = running-FreeList.chain;
  inside = running-FreeList.inside;
  distinct = running-FreeList.distinct;
}

bmap-allocates_example :
    (k' : Kernel) × (fs' : Filsys) × (bmap 0 2 busy_kernel ≡ ok 21 k')
    × Represents k' (updated running.medium.contents 0 21 (replicate 256 0))
    × FreeList k' (updated running.medium.contents 0 21 (replicate 256 0)) 0 0 fs' (20 ∷ [])
    × (k'.inode 0 ≡ with_block 2 21 open_inode)
    × (block_of (updated running.medium.contents 0 21 (replicate 256 0)) (k'.inode 0) 2 ≡ 21)
bmap-allocates_example =
    bmap-allocates busy_kernel loaded_kernel.medium.contents 0 2 0 21 root_fs (20 ∷ [])
      busy_kernel-Represents (λ t. omega arith) busy_kernel-FreeList (omega arith) refl refl refl

-- Inode 0 is a large file whose first indirect block is block 5, and that names block 5 again.
abbrev large_kernel : Kernel
large_kernel = record running {
  inode = λ p. record open_inode { mode = 36864; addr = 5 ∷ replicate 7 0 };
}

abbrev zeros : ℕ → List ℕ
zeros n = replicate n 0

all_zero : (n i : ℕ) → get_or (zeros n) i 0 ≡ 0
all_zero zero i = refl
all_zero (suc n) zero = refl
all_zero (suc n) (suc i) = all_zero n i

below_500 : (i : ℕ) → get_or (5 ∷ replicate 7 0) i 0 < 500
below_500 zero = omega arith
below_500 (suc i) = omega (arith, all_zero 7 i)

bmap-block_of_example :
    (k' : Kernel) × (bmap 0 0 large_kernel ≡ ok 5 k')
    × Represents k' running.medium.contents
    × SameTables large_kernel k'
bmap-block_of_example =
    bmap-block_of large_kernel loaded_kernel.medium.contents 0 0
      (Represents-beside running large_kernel running-Represents) (λ t. omega arith) below_500
      (omega arith) (λ t. omega arith)

-- `seek` by two bytes back from the end of the file of descriptor 0, of 100 bytes
abbrev seeking_kernel : Kernel
seeking_kernel = record busy_kernel {
  inode = λ p. record open_inode { size1 = 100 };
  u_arg = 65534 ∷ 2 ∷ 0 ∷ 0 ∷ 0 ∷ [];
}

seek_lem_example :
    (y : File) × (seek seeking_kernel ≡ ok tt (set_file 0 y seeking_kernel))
    × (y.offset0 * 65536 + y.offset1 ≡ 98)
unfolding open_file file_at
seek_lem_example =
    seek_lem seeking_kernel 0 root_file refl refl (omega arith) (omega arith) (omega arith)
      (omega arith) (omega arith) (omega arith)
