-- ===== src/Fsutil/Super.antt =====
-- fsutil/superblock.c: `lsxfs_open` and `lsxfs_sync`, which read and write the super block.
pub mod Layout
pub mod Load
pub mod RoundTrip
use bkunix.Prelude.{ℕ, zero, suc, ◌+◌, Bool, false, Option, none, some, [], not}
use bkunix.Prelude.Tests.{if◌then◌else◌}
use bkunix.Prelude.Lists.{get_or, set, replicate}
use bkunix.Prelude.Run.{Run, Cmd, pure, ◌>>=◌, ◌>>◌, get, modify, guard}
use bkunix.Fsutil.State.{Image, Fs}
use bkunix.Fsutil.Disk.{seek, read8, read16, read32, write8, write16, write32}

-- `memset (fs, 0, sizeof (*fs))`, over an image just opened
abbrev pub blank : Image → Fs
blank f = record {
  image = f;
  seek = 0;
  writable = false;
  dirty = false;
  modified = false;
  isize = 0;
  fsize = 0;
  nfree = 0;
  free = replicate 100 0;
  ninode = 0;
  inode = replicate 100 0;
  flock = 0;
  ilock = 0;
  fmod = 0;
  ronly = 0;
  time = 0;
  stack = [];
}

-- `for (i...) lsxfs_read16 (fs, &fs->free[i])`, with `n` entries left
unfoldable pub read_free : ℕ → ℕ → Cmd Fs (Unit {0})
read_free zero i = pure tt
read_free (suc n) i = do
  v ← read16
  modify (λ fs. record fs { free = set fs.free i v })
  read_free n (i + 1)

-- the same loop for `fs->inode[i]`
unfoldable pub read_inodes : ℕ → ℕ → Cmd Fs (Unit {0})
read_inodes zero i = pure tt
read_inodes (suc n) i = do
  v ← read16
  modify (λ fs. record fs { inode = set fs.inode i v })
  read_inodes n (i + 1)

-- what `lsxfs_open` reads once the file is open
unfoldable pub read_super : Cmd Fs (Unit {0})
read_super = do
  seek 512
  isize ← read16
  modify (λ fs. record fs { isize = isize })
  fsize ← read16
  modify (λ fs. record fs { fsize = fsize })
  nfree ← read16
  modify (λ fs. record fs { nfree = nfree })
  read_free 100 0
  ninode ← read16
  modify (λ fs. record fs { ninode = ninode })
  read_inodes 100 0
  flock ← read8
  modify (λ fs. record fs { flock = flock })
  ilock ← read8
  modify (λ fs. record fs { ilock = ilock })
  fmod ← read8
  modify (λ fs. record fs { fmod = fmod })
  ronly ← read8
  modify (λ fs. record fs { ronly = ronly })
  time ← read32
  modify (λ fs. record fs { time = time })

-- `lsxfs_open`: `file` is what open(2) gives for the name, `none` where it fails.
unfoldable pub open_fs : Option Image → Bool → Option (Run Fs (Unit {0}))
open_fs none writable = none
open_fs (some f) writable = some (read_super (record (blank f) { writable = writable }))

-- `for (i...) lsxfs_write16 (fs, fs->free[i])`
unfoldable pub write_free : ℕ → ℕ → Cmd Fs (Unit {0})
write_free zero i = pure tt
write_free (suc n) i = do fs ← get; write16 (get_or fs.free i 0); write_free n (i + 1)

unfoldable pub write_inodes : ℕ → ℕ → Cmd Fs (Unit {0})
write_inodes zero i = pure tt
write_inodes (suc n) i = do fs ← get; write16 (get_or fs.inode i 0); write_inodes n (i + 1)

-- the writes of `lsxfs_sync`
unfoldable pub write_super : Cmd Fs (Unit {0})
write_super = do
  fs ← get
  seek 512
  write16 fs.isize
  write16 fs.fsize
  write16 fs.nfree
  write_free 100 0
  write16 fs.ninode
  write_inodes 100 0
  write8 fs.flock
  write8 fs.ilock
  write8 fs.fmod
  write8 fs.ronly
  write32 fs.time
  modify (λ fs. record fs { dirty = false })

-- `lsxfs_sync`
unfoldable pub sync : Bool → Cmd Fs (Unit {0})
sync force = do
  fs ← get
  guard fs.writable
  if not force then (if not fs.dirty then pure tt else write_super) else write_super
