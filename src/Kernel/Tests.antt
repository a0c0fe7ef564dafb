-- ===== src/Kernel/Tests.antt =====
-- Runs of the kernel's functions on a small system: two diskettes, of which the root's has a file
-- system of 100 blocks with two of them free.
mod Tables
mod Calls
mod Entries
mod Cache
use mathlib.Core.Path.{subst}
use bkunix.Prelude.{
  Option, zero, suc, sym, ap, ◌∙◌, inl, ℕ, ◌+◌, ◌*◌, ◌-◌, ◌≤◌, ◌<◌, ◌≡◌, refl, inr, true, false,
  none, some, List, [], ◌∷◌, arith,
}
use bkunix.Prelude.Lists.{get_or, set, replicate}
use bkunix.Prelude.Tests.{leb, ◌==◌, if◌then◌else◌}
use bkunix.Prelude.Run.{ok}
use bkunix.Kernel.State.{Inode, Filsys, File, Proc, Kernel, nodev, enospc}
use bkunix.Kernel.Bio.{binit, move_up, brelse, getblk, bread, bflush}
use bkunix.Kernel.Bio.View.{
  Blocks, updated, SameTables, beside, Represents, Represents-beside, Using,
}
use bkunix.Kernel.Bio.Start.{cleared_buf, Fresh, begun, binit-Represents}
use bkunix.Kernel.Bio.Cycle.{Stores, bread-cycle, getblk-cycle}
use bkunix.Kernel.Bio.Flush.{bflush-Represents}
use bkunix.Kernel.Iget.{with_inode, iupdat, read_inode, iput}
use bkunix.Kernel.Iget.Lookup.{iget}
use bkunix.Kernel.Iget.Words.{SameFile, with_inode_other}
use bkunix.Kernel.Iget.Store.{unflagged, iupdat-Writes, read_inode-iupdat}
use bkunix.Kernel.Iget.Bmap.{bmap}
use bkunix.Kernel.Iget.Bmap.Lookup.{block_of, bmap-block_of}
use bkunix.Kernel.Iget.Bmap.Allocate.{with_block, bmap-allocates}
use bkunix.Kernel.Files.Seek.{seek, seek_lem}
use bkunix.Kernel.Files.{open_file, set_file, file_at, dup, falloc, close}
use bkunix.Kernel.Files.Counts.{refs, Counts}
use bkunix.Kernel.Files.Steps.{some_inj}
use bkunix.Kernel.Files.Calls.{EndsCounted}
use bkunix.Kernel.Files.Close.{close-Counts}
use bkunix.Kernel.Procs.{issig, ssig}
use bkunix.Kernel.Procs.Signals.{KillsStand, ssig-KillsStand, issig-ssig}
use bkunix.Kernel.Alloc.{filsys_words, filsys_of, find_fs, fs_at, put_fs, set_fs, alloc, free}
use bkunix.Kernel.Alloc.Chain.{FreeList}
use bkunix.Kernel.Alloc.Take.{alloc-Takes}
use bkunix.Kernel.Alloc.Full.{alloc-Full}
use bkunix.Kernel.Alloc.Give.{SameBut}
use bkunix.Kernel.Alloc.Cycle.{Gives, free-Gives, alloc-free_lem}

abbrev pub no_inode : Inode
no_inode = record {
  upd = false;
  mounted_on = false;
  count = 0;
  dev = 0;
  number = 0;
  mode = 0;
  nlink = 0;
  uid = 0;
  gid = 0;
  size0 = 0;
  size1 = 0;
  addr = replicate 8 0;
}

abbrev pub root_fs : Filsys
root_fs = record {
  isize = 10;
  fsize = 100;
  nfree = 3;
  free = 0 ∷ 20 ∷ 21 ∷ replicate 97 0;
  ninode = 0;
  inode = replicate 100 0;
  flock = 0;
  ilock = 0;
  fmod = 0;
  ronly = 0;
  time0 = 0;
  time1 = 0;
  pad = replicate 48 0;
}

abbrev pub no_file : File
no_file = record { flag = 0; count = 0; inode = 0; offset0 = 0; offset1 = 0 }

abbrev pub no_proc : Proc
no_proc = record { stat = 0; sig = 0; wchan = 0; clktim = 0 }

abbrev pub loaded_kernel : Kernel
loaded_kernel = record {
  medium = record {
    contents = λ d n. (d + n) ∷ replicate 255 0;
    bad = λ d n. false;
    junk = replicate 256 0;
  };
  buf = λ i. cleared_buf (replicate 256 0);
  bufp = replicate 6 0;
  inode = λ i. no_inode;
  mount =
      record { dev = 0; fs = some root_fs; inodp = none }
      ∷ record { dev = 0; fs = none; inodp = none }
      ∷ [];
  file = replicate 20 no_file;
  proc = replicate 3 no_proc;
  cpid = 0;
  time0 = 0;
  time1 = 0;
  u_error = 0;
  u_procp = 0;
  u_ofile = replicate 15 none;
  u_r0 = 0;
  u_r1 = 0;
  u_arg = replicate 5 0;
  u_signal = replicate 20 0;
  core = λ i. 0;
  absent = λ w. false;
  rootdir = 0;
  u_base = 0;
  u_count = 0;
  u_offset0 = 0;
  u_offset1 = 0;
  u_cdir = 0;
  u_dbuf = replicate 14 0;
  u_dirp = 0;
  u_dent_ino = 0;
  u_dent_name = replicate 14 0;
  u_pdir = 0;
  u_uid = 0;
  u_gid = 0;
}

loaded_kernel-Fresh : Fresh loaded_kernel
loaded_kernel-Fresh = record { cleared = λ i. refl; slots = refl }

abbrev pub running : Kernel
running = begun loaded_kernel

binit-Represents_example :
    (binit loaded_kernel ≡ ok tt running) × Represents running loaded_kernel.medium.contents
binit-Represents_example = binit-Represents loaded_kernel loaded_kernel-Fresh (λ d n. refl)

pub running-Represents : Represents running loaded_kernel.medium.contents
running-Represents = (binit-Represents loaded_kernel loaded_kernel-Fresh (λ d n. refl)).1

bread-cycle_example :
    (j : ℕ) × (k' : Kernel) × (bread 0 5 running ≡ ok j k')
    × ((k'.buf j).data_words ≡ (5 ∷ replicate 255 0))
    × ((k'' : Kernel) × (brelse j k' ≡ ok tt k'') × Represents k'' running.medium.contents)
    × Stores k' j 0 5 running.medium.contents (7 ∷ [])
bread-cycle_example =
    bread-cycle running loaded_kernel.medium.contents running-Represents 0 5 (λ t. omega arith)
      (omega arith) (7 ∷ [])

getblk-cycle_example :
    (j : ℕ) × (k' : Kernel) × (getblk 0 5 running ≡ ok j k')
    × Stores k' j 0 5 running.medium.contents (7 ∷ [])
getblk-cycle_example =
    getblk-cycle running loaded_kernel.medium.contents running-Represents 0 5 (λ t. omega arith)
      (omega arith) (7 ∷ [])

bflush-Represents_example :
    (k' : Kernel) × (bflush nodev running ≡ ok tt k')
    × SameTables running k'
    × Represents k' running.medium.contents
    × (k'.medium.contents 0 5 ≡ (5 ∷ replicate 255 0))
bflush-Represents_example =
    bflush-Represents running loaded_kernel.medium.contents nodev 0 5 running-Represents
      (λ t. omega arith) (omega arith) (inl refl)

pub running-FreeList : FreeList running running.medium.contents 0 0 root_fs (21 ∷ 20 ∷ [])
unfolding find_fs fs_at
running-FreeList = record {
  mounted = record { found = refl; at = refl; small = omega arith; inodes = omega arith };
  chain = (
    refl,
    omega arith,
    omega arith,
    refl,
    (λ t. omega arith),
    (refl, omega arith, omega arith, refl, (λ t. omega arith), (refl, inr (refl, refl))),
  );
  inside = ((omega arith, omega arith), ((omega arith, omega arith), tt));
  distinct = (((λ t. omega arith), tt), (tt, tt));
}

alloc-Takes_example :
    (j : ℕ) × (k' : Kernel) × (fs' : Filsys) × (alloc 0 running ≡ ok (some j) k')
    × Using k' j 0 21 running.medium.contents
    × ((k'.buf j).data_words ≡ replicate 256 0)
    × FreeList k' (updated running.medium.contents 0 21 (replicate 256 0)) 0 0 fs' (20 ∷ [])
    × (k'.inode ≡ running.inode)
alloc-Takes_example =
    alloc-Takes running loaded_kernel.medium.contents 0 0 root_fs 21 (20 ∷ []) (λ t. omega arith)
      running-Represents running-FreeList

free-Gives_example : Gives running running.medium.contents 0 0 30 (21 ∷ 20 ∷ [])
free-Gives_example =
    free-Gives running loaded_kernel.medium.contents 0 0 root_fs 30 (21 ∷ 20 ∷ [])
      (λ t. omega arith) running-Represents running-FreeList (omega arith, omega arith)
      ((λ t. omega arith), ((λ t. omega arith), tt))

alloc-free_lem_example :
    (k1 : Kernel) × (j : ℕ) × (k2 : Kernel) × (a2 : Blocks) × (fs2 : Filsys) × (free 0 30 running
      ≡ ok tt k1)
    × (alloc 0 k1 ≡ ok (some j) k2)
    × Using k2 j 0 30 a2
    × ((k2.buf j).data_words ≡ replicate 256 0)
    × FreeList k2 (updated a2 0 30 (replicate 256 0)) 0 0 fs2 (21 ∷ 20 ∷ [])
    × SameBut 0 30 running.medium.contents a2
alloc-free_lem_example =
    alloc-free_lem running loaded_kernel.medium.contents 0 0 root_fs 30 (21 ∷ 20 ∷ [])
      (λ t. omega arith) running-Represents running-FreeList (omega arith, omega arith)
      ((λ t. omega arith), ((λ t. omega arith), tt))

-- the same system with no free block
abbrev full_fs : Filsys
full_fs = record root_fs { nfree = 1 }

abbrev full_kernel : Kernel
full_kernel = set_fs 0 full_fs running

full_kernel-FreeList : FreeList full_kernel running.medium.contents 0 0 full_fs []
unfolding find_fs fs_at put_fs
full_kernel-FreeList = record {
  mounted = record { found = refl; at = refl; small = omega arith; inodes = omega arith };
  chain = (refl, inr (refl, refl));
  inside = tt;
  distinct = tt;
}

alloc-Full_example :
    (k' : Kernel) × (fs' : Filsys) × (alloc 0 full_kernel ≡ ok none k')
    × (k'.u_error ≡ enospc)
    × FreeList k' running.medium.contents 0 0 fs' []
alloc-Full_example =
    alloc-Full full_kernel loaded_kernel.medium.contents 0 0 full_fs full_kernel-FreeList
