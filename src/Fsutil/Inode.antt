-- ===== src/Fsutil/Inode.antt =====
-- fsutil/inode.c: inodes on the disk and in memory, the map from a file's blocks to the disk's, and
-- reading a file's bytes.
pub mod Alloc
pub mod Write
pub mod Codec
pub mod Layout
pub mod Save
pub mod Enough
use bkunix.Prelude.{
  ℕ, zero, suc, ◌+◌, ◌-◌, ◌*◌, ◌/◌, ◌%◌, min, bit_and, bit_or, Bool, true, false, List, [], ◌∷◌,
  ◌++◌, not, ◌||◌,
}
use bkunix.Prelude.Tests.{ltb, leb, ◌==◌, if◌then◌else◌}
use bkunix.Prelude.Lists.{length, get_or, set, take, drop, replicate}
use bkunix.Prelude.Run.{
  Run, ok, fail, fault, Cmd, pure, return_0, ◌>>=◌, ◌>>◌, get, modify, guard, in_range, ignore,
}
use bkunix.Fsutil.State.{Fs, Inode, Node, u8, u16, ulong, mode_fmt, mode_fchr, mode_fblk, mode_larg}
use bkunix.Fsutil.Disk.{
  seek, read8, read16, read32, write8, write16, write32, read_block, write_block, byte_at,
}
use bkunix.Fsutil.Block.{
  word_at, block_free, indirect_block_free, double_indirect_block_free, block_alloc,
}

-- A call on the file system that an inode points to.
abbrev pub with_fs : {A : Type 0} → Inode → Run Fs A → Run Node A
with_fs i (ok a fs) = ok a (record { fs = fs; inode = i })
with_fs i (fail fs) = fail (record { fs = fs; inode = i })
with_fs i fault = fault

abbrev pub on_fs : {A : Type 0} → Cmd Fs A → Cmd Node A
on_fs m n = with_fs n.inode (m n.fs)

-- An update of the inode.
abbrev pub on_inode : (Inode → Inode) → Cmd Node (Unit {0})
on_inode f = modify (λ n. record n { inode = f n.inode })

-- `memset (inode, 0, sizeof (*inode))`, and the number
abbrev pub blank_inode : ℕ → Inode
blank_inode inum = record {
  number = inum;
  dirty = false;
  mode = 0;
  nlink = 0;
  uid = 0;
  gid = 0;
  size = 0;
  addr = replicate 8 0;
  atime = 0;
  mtime = 0;
}

-- the check on an inode's number, which begins at 1
abbrev pub is_inode : ℕ → Fs → Bool
is_inode inum fs = not (inum == 0 || ltb (fs.isize * 16) inum)

-- `n` words read one after another
unfoldable pub read_words : ℕ → Cmd Fs (List ℕ)
read_words zero = pure []
read_words (suc n) = do w ← read16; ws ← read_words n; pure (w ∷ ws)

unfoldable pub write_words : List ℕ → Cmd Fs (Unit {0})
write_words [] = pure tt
write_words (w ∷ ws) = do write16 w; write_words ws

-- `lsxfs_inode_get`, whose inode is read only where it returns 1
unfoldable pub inode_get : ℕ → Cmd Fs Inode
inode_get inum = do
  fs ← get
  guard (is_inode inum fs)
  seek ((inum + 31) * 32)
  mode ← read16
  nlink ← read8
  uid ← read8
  gid ← read8
  size2 ← read8
  size10 ← read16
  addr ← read_words 8
  atime ← read32
  mtime ← read32
  pure (record {
    number = inum;
    dirty = false;
    mode = mode;
    nlink = nlink;
    uid = uid;
    gid = gid;
    size = size2 * 65536 + size10;
    addr = addr;
    atime = atime;
    mtime = mtime;
  })

-- `lsxfs_inode_clear`
unfoldable pub inode_clear : Inode → Inode
inode_clear i = record (blank_inode i.number) { dirty = true }

-- the writes of `lsxfs_inode_save`
unfoldable pub write_inode : Inode → Cmd Fs (Unit {0})
write_inode i = do
  fs ← get
  guard (is_inode i.number fs)
  seek ((i.number + 31) * 32)
  write16 i.mode
  write8 i.nlink
  write8 i.uid
  write8 i.gid
  write8 (i.size / 65536)
  write16 i.size
  write_words i.addr
  write32 i.atime
  write32 i.mtime

-- `lsxfs_inode_save`
unfoldable pub inode_save : Cmd Node (Unit {0})
inode_save = do n ← get; on_fs (write_inode n.inode); on_inode (λ i. record i { dirty = false })

-- `inode->mode & INODE_MODE_LARG`
abbrev pub is_large : Inode → Bool
is_large i = not (bit_and i.mode mode_larg == 0)

abbrev pub file_type : Inode → ℕ
file_type i = bit_and i.mode mode_fmt

-- A result that is 0 is a failure.
abbrev pub nonzero : {S : Type 0} → ℕ → Cmd S ℕ
nonzero v = if v == 0 then return_0 else pure v

-- `map_block` for a large file: the index of the address, and the double indirect one at 7
unfoldable pub map_large : ℕ → Cmd Node ℕ
map_large lbn = do
  n ← get
  let i = min 7 (lbn / 256)
  first ← nonzero (get_or n.inode.addr i 0)
  block ← on_fs (read_block first)
  last ←
      (if i == 7
        then (nonzero (word_at block ((lbn / 256 - 7) * 2)) >>= λ nb. on_fs (read_block nb))
        else pure block)
  nonzero (word_at last (lbn % 256 * 2))

-- `map_block`
unfoldable pub map_block : ℕ → Cmd Node ℕ
map_block lbn n =
    if ltb 0x7fff lbn
    then return_0 n
    else if is_large n.inode
    then map_large lbn n
    else if ltb 7 lbn
    then return_0 n
    else nonzero (get_or n.inode.addr lbn 0) n

-- `memcpy (to + at, from, n)`
unfoldable pub overwrite : List ℕ → ℕ → List ℕ → List ℕ
overwrite to at from = take at to ++ from ++ drop (at + length from) to

-- the rounds of `lsxfs_inode_read`: each copies its part to the start of `buffer`
unfoldable pub read_loop : ℕ → ℕ → ℕ → List ℕ → Cmd Node (List ℕ)
read_loop zero offset bytes buffer = if bytes == 0 then pure buffer else (λ n. fault)
read_loop (suc fuel) offset bytes buffer =
    let inside = offset % 512 in
    let n = min (512 - inside) bytes in
    if bytes == 0 then pure buffer else (do
      bn ← map_block (u16 (offset / 512))
      block ← on_fs (read_block bn)
      read_loop fuel (ulong (offset + n)) (bytes - n)
          (overwrite buffer 0 (take n (drop inside block))))

-- `lsxfs_inode_read`, and `lsxfs_file_read`, which has the same text. The result is the caller's
-- buffer afterwards.
unfoldable pub inode_read : ℕ → ℕ → List ℕ → Cmd Node (List ℕ)
inode_read offset bytes buffer = do
  n ← get
  guard (not (ltb n.inode.size (ulong (bytes + offset))))
  read_loop bytes offset bytes buffer
