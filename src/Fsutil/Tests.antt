-- ===== src/Fsutil/Tests.antt =====
-- The theorems on fsutil at inputs that meet their hypotheses.
use bkunix.Prelude.{
  ℕ, zero, suc, ◌-◌, ◌≤◌, ◌<◌, ◌≡◌, ◌≢◌, inr, refl, true, false, some, List, [], ◌∷◌, ◌||◌, ◌&&◌,
  not, arith,
}
use bkunix.Prelude.Tests.{◌==◌, if◌then◌else◌}
use bkunix.Prelude.Lists.{replicate, get_or}
use bkunix.Prelude.Run.{ok, ◌>>◌}
use bkunix.Fsutil.State.{Image, Fs, Inode, Dirent}
use bkunix.Fsutil.Disk.{deskew, read_block, write_block}
use bkunix.Fsutil.Disk.Skew.{skew, deskew_permutes}
use bkunix.Fsutil.Disk.Blocks.{result, read_block-write_block}
use bkunix.Fsutil.Super.{blank, sync, open_fs}
use bkunix.Fsutil.Block.{word_at, unpack_words, block_free, block_alloc}
use bkunix.Fsutil.Block.Words.{AreWords, AreWords-cons}
use bkunix.Fsutil.Block.Lifo.{IsSound, SameList, contents, alloc-free, alloc-free_exhausted}
use bkunix.Fsutil.Inode.{inode_get, inode_save, blank_inode}
use bkunix.Fsutil.Inode.Layout.{IsStorable}
use bkunix.Fsutil.Inode.Save.{inode_get-inode_save}
use bkunix.Fsutil.Names.{dirent_pack, dirent_unpack, walk, inode_by_name, find}
use bkunix.Fsutil.Super.RoundTrip.{IsKept, SameSuper, open_fs-sync}
use bkunix.Fsutil.Names.Paths.{paths_enough}
use bkunix.Fsutil.Inode.Enough.{Same, inode_read-EndsWith}
use bkunix.Fsutil.Block.Enough.{block_alloc-EndsWith}
use bkunix.Prelude.Run.{EndsWith}
use bkunix.Fsutil.Inode.{inode_read}
use bkunix.Fsutil.Names.Entries.{unpack-pack}
use bkunix.Fsutil.Check.{
  Check, state_in, set_inode_state, inode_state, is_marked, mark, mark_block_free,
}
use bkunix.Fsutil.Check.Maps.{AreBytes, inode_state-set_inode_state, is_marked-marks}
use bkunix.Fsutil.Salvage.{clear_from, check_free_inode_list}
use bkunix.Fsutil.Salvage.Inodes.{IsEntry, check_free_inode_list_lem}

-- a diskette of zeros
abbrev zeros : Image
zeros = record { size = 256256; limit = 256256; bytes = λ a. 0; pos = 0 }

-- a volume with two blocks on its list
abbrev volume : Fs
volume = record (blank zeros) {
  writable = true;
  isize = 1;
  fsize = 20;
  nfree = 2;
  free = 0 ∷ 7 ∷ replicate 98 0;
  ninode = 1;
  inode = 5 ∷ replicate 99 0;
  stack = replicate 310 0;
}

abbrev block : List ℕ
block = replicate 512 9

abbrev file : Inode
file = record (blank_inode 5) {
  dirty = true;
  mode = 0o100644;
  nlink = 1;
  size = 70000;
  atime = 100000;
}

AreWords-replicate : (n : ℕ) → AreWords (replicate n 0)
AreWords-replicate zero k = omega arith
AreWords-replicate (suc n) zero = omega arith
AreWords-replicate (suc n) (suc k) = AreWords-replicate n k

volume-IsSound : IsSound volume
volume-IsSound = record {
  disk = omega arith;
  writable = refl;
  slots = refl;
  words =
      AreWords-cons 0 (7 ∷ replicate 98 0) (omega arith)
        (AreWords-cons 7 (replicate 98 0) (omega arith) (AreWords-replicate 98));
  rest = refl;
  some_left = omega arith;
  at_most = omega arith;
}

file-IsStorable : IsStorable file
file-IsStorable = record {
  mode = omega arith;
  nlink = omega arith;
  uid = omega arith;
  gid = omega arith;
  size = omega arith;
  slots = refl;
  words = AreWords-replicate 8;
  atime = omega arith;
  mtime = omega arith;
}

deskew_permutes_example :
    (deskew 252928 < 256256)
    × (skew 252928 < 256256)
    × (deskew (skew 252928) ≡ 252928)
    × (skew (deskew 252928) ≡ 252928)
deskew_permutes_example = deskew_permutes 252928 (omega arith)

read_block-write_block_example :
    (fs : Fs) × (write_block 9 block volume ≡ ok tt fs)
    × (result (read_block 9 fs) ≡ (if 9 == 9 then some block else result (read_block 9 volume)))
read_block-write_block_example =
    read_block-write_block volume 9 9 block (omega arith) refl (omega arith) (omega arith) refl

alloc-free_example :
    (fs : Fs) × ((block_free 9 >> block_alloc) volume ≡ ok 9 fs) × SameList volume fs
alloc-free_example = alloc-free volume 9 volume-IsSound (omega arith)

abbrev exhausted : Fs
exhausted = record volume { nfree = 0; free = replicate 100 0 }

alloc-free_exhausted_example :
    (fs : Fs) × ((block_free 9 >> block_alloc) exhausted ≡ ok 9 fs)
    × (fs.nfree ≡ word_at (contents exhausted 9) 0)
    × (fs.free ≡ unpack_words 100 (contents exhausted 9) 2)
alloc-free_exhausted_example =
    alloc-free_exhausted exhausted 9 (omega arith) refl (omega arith) refl

inode_get-inode_save_example :
    (fs : Fs) × (inode_save (record { fs = volume; inode = file })
      ≡ ok tt (record { fs = fs; inode = record file { dirty = false } }))
    × (result (inode_get 5 fs) ≡ (
        if 5 == file.number
        then some (record file { dirty = false })
        else result (inode_get 5 volume)))
inode_get-inode_save_example =
    inode_get-inode_save volume file 5 refl (omega arith) (omega arith) (omega arith)
      file-IsStorable

-- the volume with its super block to be written
abbrev changed : Fs
changed = record volume { dirty = true }

changed-IsKept : IsKept changed
changed-IsKept = record {
  isize = omega arith;
  fsize = omega arith;
  nfree = omega arith;
  free_slots = refl;
  free_words = volume-IsSound.words;
  ninode = omega arith;
  inode_slots = refl;
  inode_words = AreWords-cons 5 (replicate 99 0) (omega arith) (AreWords-replicate 99);
  flock = omega arith;
  ilock = omega arith;
  fmod = omega arith;
  ronly = omega arith;
  time = omega arith;
}

open_fs-sync_example :
    (fs fs' : Fs) × (sync false changed ≡ ok tt fs)
    × (fs.dirty ≡ false)
    × (open_fs (some fs.image) true ≡ some (ok tt fs'))
    × SameSuper changed fs'
open_fs-sync_example = open_fs-sync changed false true refl refl volume-IsSound.disk changed-IsKept

paths_enough_example :
    (walk 9 find file (b'a' ∷ []) ≡ walk 1 find file (b'a' ∷ []))
    × (inode_by_name (b'/' ∷ b'a' ∷ []) find volume ≡ inode_by_name (b'a' ∷ []) find volume)
paths_enough_example = paths_enough 9 1 find file (b'a' ∷ []) volume (omega arith) (omega arith)

inode_read-EndsWith_example :
    EndsWith (Same 512 block) (inode_read 500 30 block (record { fs = volume; inode = file }))
inode_read-EndsWith_example =
    inode_read-EndsWith 500 30 block (record { fs = volume; inode = file }) (omega arith)

block_alloc-EndsWith_example : EndsWith (λ bno. bno ≢ 0) (block_alloc volume)
block_alloc-EndsWith_example = block_alloc-EndsWith volume (omega arith)

abbrev dirent : Dirent
dirent = record { ino = 258; name = b'a' ∷ replicate 14 0 }

abbrev letter : List ℕ
letter = b'a' ∷ []

name_bytes : (i : ℕ) → i < 1 → get_or letter i 0 ≢ 0
name_bytes zero h = λ e. omega arith
name_bytes (suc i) h = absurd (omega arith)

unpack-pack_example :
    dirent_unpack (dirent_pack dirent) ≡ record { ino = 2; name = b'a' ∷ replicate 14 0 }
unpack-pack_example =
    unpack-pack dirent letter (replicate 14 0) (omega arith) refl (omega arith) name_bytes
      (inr refl)

abbrev table : List ℕ
table = 0 ∷ 228 ∷ 0 ∷ []

table-AreBytes : AreBytes table
table-AreBytes zero = omega arith
table-AreBytes (suc zero) = omega arith
table-AreBytes (suc (suc zero)) = omega arith
table-AreBytes (suc (suc (suc k))) = omega arith

inode_state-set_inode_state_example :
    inode_state 6 (set_inode_state 5 2 table) ≡ (if 6 == 5 then 2 else inode_state 6 table)
inode_state-set_inode_state_example =
    inode_state-set_inode_state 5 6 2 table table-AreBytes (omega arith) (omega arith)

is_marked-marks_example :
    (is_marked 13 (mark 12 table) ≡ (13 == 12 || is_marked 13 table))
    × (is_marked 13 (mark_block_free 12 table) ≡ (not (13 == 12) && is_marked 13 table))
is_marked-marks_example = is_marked-marks 12 13 table table-AreBytes (omega arith)

-- Inode 5 is in use, and it is the first of the list of free inodes.
abbrev checked : Check
checked = record {
  fs = volume;
  dup_list = replicate 100 0;
  dup_end = 0;
  dup_multi = 0;
  block_map = 0 ∷ 0 ∷ 0 ∷ [];
  free_map = 0 ∷ 0 ∷ 0 ∷ [];
  state_map = 4 ∷ 4 ∷ 0 ∷ 0 ∷ 0 ∷ [];
  corrupted = false;
  bad_blocks = 0;
  dup_blocks = 0;
  scan_filesize = 0;
  used_blocks = 0;
  total_files = 0;
  buf_data = [];
  buf_bno = 65535;
  buf_dirty = false;
  bad_links = [];
  link_count = [];
  pathp = 0;
  thisname = 0;
  find_inode_name = [];
  find_inode_result = 0;
  lost_inode = 0;
  lost_found_inode = 0;
}

checked-IsEntry : (j : ℕ) → j ≤ 0 → IsEntry checked j
checked-IsEntry zero h = omega arith
checked-IsEntry (suc j) h = absurd (omega arith)

check_free_inode_list_lem_example :
    (c : Check) × (check_free_inode_list checked ≡ ok tt c)
    × (c.fs.inode
        ≡ (if checked.fs.writable then clear_from 0 checked.fs.inode else checked.fs.inode))
    × (c.fs.ninode
        ≡ (if checked.fs.writable then (if 0 == 0 then 65535 else 0 - 1) else checked.fs.ninode))
unfolding inode_state state_in
check_free_inode_list_lem_example =
    check_free_inode_list_lem checked 0 checked-IsEntry (λ j h. absurd (omega arith)) (omega arith)
      (omega arith)
