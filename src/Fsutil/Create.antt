-- ===== src/Fsutil/Create.antt =====
-- fsutil/create.c: a new file system, and the boot blocks.
use bkunix.Prelude.{
  ℕ, zero, suc, ◌+◌, ◌-◌, ◌*◌, ◌/◌, ◌%◌, ◌^◌, bit_or, Bool, true, Option, none, some, List, [], ◌∷◌,
  ◌++◌, not, ◌||◌, ◌&&◌,
}
use bkunix.Prelude.Tests.{ltb, leb, ◌==◌, if◌then◌else◌}
use bkunix.Prelude.Lists.{length, get_or, set, take, drop, replicate}
use bkunix.Prelude.Run.{
  Run, ok, fail, fault, Cmd, pure, ◌>>=◌, ◌>>◌, get, modify, guard, in_range, ignore,
}
use bkunix.Fsutil.State.{Image, Fs, Inode, u16, ulong, mode_alloc, mode_fdir}
use bkunix.Fsutil.Disk.{write_all, seek, write, write_block, read_block, byte_at}
use bkunix.Fsutil.Super.{blank, sync}
use bkunix.Fsutil.Block.{spill, word_at, unpack_words}
use bkunix.Fsutil.Inode.{inode_get, inode_save, blank_inode, overwrite}
use bkunix.Fsutil.Inode.Write.{zero_block}
use bkunix.Fsutil.Names.{on_node}

-- `fs->free [fs->nfree] = bno; fs->nfree++` of create.c, which leaves `dirty` alone
unfoldable pub push_free : ℕ → Fs → Fs
push_free bno fs = record fs { free = set fs.free fs.nfree (u16 bno); nfree = u16 (fs.nfree + 1) }

-- `free_block` of create.c, at a list of a hundred
unfoldable pub spill_free : Fs → ℕ → Cmd Fs (Unit {0})
spill_free fs bno = do
  write_block (u16 bno) (spill fs)
  modify (λ fs. push_free bno (record fs { nfree = 0 }))

-- `free_block` of create.c
unfoldable pub free_block : ℕ → Cmd Fs (Unit {0})
free_block bno = do fs ← get; if leb 100 fs.nfree then spill_free fs bno else modify (push_free bno)

-- `for (n = fs->fsize - 1; n >= fs->isize + 2; n--)`: `k` blocks, the last number `first + k - 1`
unfoldable pub free_down : ℕ → ℕ → Cmd Fs (Unit {0})
free_down first zero = pure tt
free_down first (suc k) = do free_block (first + k); free_down first k

-- the loop of `build_inode_list`, with `n` inodes left
unfoldable pub build_loop : ℕ → ℕ → Cmd Fs (Unit {0})
build_loop zero inum = pure tt
build_loop (suc n) inum = do
  i ← inode_get inum
  if i.mode == 0
      then (do
        fs ← get
        in_range (ltb fs.ninode 100)
        modify (λ fs. record fs { inode = set fs.inode fs.ninode inum; ninode = fs.ninode + 1 })
        if leb 100 (fs.ninode + 1) then pure tt else build_loop n (inum + 1))
      else build_loop n (inum + 1)

-- `build_inode_list`
unfoldable pub build_inode_list : Cmd Fs (Unit {0})
build_inode_list = do fs ← get; build_loop (fs.isize * 16) 1

-- `allocate_block`; the counter is 16 bits wide, and wraps at 0
unfoldable pub allocate_block : Cmd Fs ℕ
allocate_block = do
  fs ← get
  let top = (fs.nfree + 65535) % 65536
  in_range (ltb top 100)
  let bno = get_or fs.free top 0
  modify (λ fs. record fs { nfree = top; free = set fs.free top 0 })
  guard (not (bno == 0))
  if top == 0
      then (read_block bno >>= λ block.
          modify (λ fs. record fs { nfree = word_at block 0; free = unpack_words 100 block 2 }))
      else pure tt
  pure bno

-- the first block of the root directory: `.` and `..`
abbrev pub root_block : List ℕ
root_block =
    (1 ∷ 0 ∷ b'.' ∷ replicate 13 0) ++ (1 ∷ 0 ∷ b'.' ∷ b'.' ∷ replicate 12 0) ++ replicate 480 0

abbrev pub root_inode : ℕ → ℕ → Inode
root_inode now bno = record (blank_inode 1) {
  mode = bit_or (bit_or mode_alloc mode_fdir) 0o777;
  nlink = 2;
  size = 32;
  addr = u16 bno ∷ replicate 7 0;
  atime = now;
  mtime = now;
}

-- The number that a call gives, 0 where it returns 0.
abbrev pub or_0 : Run Fs ℕ → Run Fs ℕ
or_0 (ok v fs) = ok v fs
or_0 (fail fs) = ok 0 fs
or_0 fault = fault

-- `create_root_directory`; `now` is what time(2) gives
unfoldable pub create_root_directory : ℕ → Cmd Fs (Unit {0})
create_root_directory now = do
  bno ← (λ fs. or_0 (allocate_block fs))
  write_block (u16 bno) root_block
  on_node (root_inode now bno) inode_save
  pure tt

-- `for (n=0; n < fs->isize; n++) lsxfs_write (fs, buf, 512)`
unfoldable pub clear_blocks : ℕ → Cmd Fs (Unit {0})
clear_blocks zero = pure tt
clear_blocks (suc n) = do write zero_block; clear_blocks n

-- The image gets its size by one byte written at its end.
unfoldable pub set_size : ℕ → Cmd Fs (Unit {0})
set_size bytes fs =
    if ltb (ulong (bytes + 2 ^ 64 - 1)) (2 ^ 63)
    then (ignore (write_all (0 ∷ []))
          >> modify (λ fs. record fs { image = record fs.image { pos = 0 } }))
        (record fs { image = record fs.image { pos = ulong (bytes + 2 ^ 64 - 1) } })
    else fail fs

-- the sizes that `lsxfs_create` computes: of the volume, and of the inode list
abbrev pub volume_size : ℕ → ℕ
volume_size bytes = u16 (bytes / 512)

abbrev pub inode_blocks : ℕ → ℕ
inode_blocks fsize = (fsize / 6 + 15) / 16

-- `lsxfs_create` once the image is open, at the time `now`
unfoldable pub create_in : ℕ → ℕ → Cmd Fs (Unit {0})
create_in now bytes = do
  let fsize = volume_size bytes
  let isize = inode_blocks fsize
  modify (λ fs. record fs { fsize = fsize; isize = isize })
  guard (leb 1 isize)
  set_size bytes
  ignore (free_block 0)
  free_down (isize + 2) (fsize - (isize + 2))
  seek 1024
  clear_blocks isize
  create_root_directory now
  build_inode_list
  modify (λ fs. record fs { time = now })
  sync true

-- `lsxfs_create`: `file` is what open(2) gives for the name, `none` where it fails.
unfoldable pub create_fs : Option Image → ℕ → ℕ → Option (Run Fs (Unit {0}))
create_fs none now bytes = none
create_fs (some f) now bytes = some (create_in now bytes (record (blank f) { writable = true }))

-- The file's header: 16 bytes that begin with the magic number 0407.
abbrev pub has_header : List ℕ → Bool
has_header file = leb 16 (length file) && byte_at file 0 == 7 && byte_at file 1 == 1

-- the sizes of the text and the data, added up
abbrev pub program_size : List ℕ → ℕ
program_size file = word_at file 2 + word_at file 4

-- `lsxfs_install_boot`: the contents of the two files, and what its two buffers hold at the start
unfoldable pub install_boot : (file file2 buf buf2 : List ℕ) → Cmd Fs (Unit {0})
install_boot file file2 buf buf2 = do
  let n = program_size file
  let n2 = program_size file2
  guard (has_header file && has_header file2)
  guard (not (ltb 128 n || ltb (384 + 256) n2 || leb n2 384))
  guard (leb (16 + n) (length file) && leb (16 + n2) (length file2))
  seek 0
  write (
      overwrite (overwrite (overwrite buf 0 (take 16 file)) 0 (take n (drop 16 file))) 128
        (take 384 (drop 16 file2)))
  seek 256000
  write (overwrite (overwrite buf2 0 (take 16 file2)) 0 (take (n2 - 384) (drop 400 file2)))

-- `lsxfs_install_single_boot`
unfoldable pub install_single_boot : (file buf : List ℕ) → Cmd Fs (Unit {0})
install_single_boot file buf = do
  let n = program_size file
  guard (has_header file)
  guard (not (ltb 512 n))
  guard (leb (16 + n) (length file))
  seek 0
  write (overwrite (overwrite buf 0 (take 16 file)) 0 (take n (drop 16 file)))
