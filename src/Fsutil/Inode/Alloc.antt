-- ===== src/Fsutil/Inode/Alloc.antt =====
-- src/fsutil/inode.c: `lsxfs_inode_alloc` and `lsxfs_inode_truncate`.
use bkunix.Prelude.{ℕ, zero, suc, ◌-◌, bit_and, Bool, true, not, ◌||◌}
use bkunix.Prelude.Tests.{ltb, ◌==◌, if◌then◌else◌}
use bkunix.Prelude.Lists.{get_or, set}
use bkunix.Prelude.Run.{fail, fault, Cmd, pure, ◌>>=◌, ◌>>◌, get, modify, guard, in_range, ignore}
use bkunix.Fsutil.State.{Fs, Inode, Node, mode_fchr, mode_fblk, mode_larg}
use bkunix.Fsutil.Block.{block_free, indirect_block_free, double_indirect_block_free}
use bkunix.Fsutil.Inode.{on_fs, on_inode, inode_get, inode_clear, is_large, file_type}

-- `ino = fs->inode[--fs->ninode]; fs->dirty = 1`, at a count above 0
unfoldable pub take_inode : Cmd Fs ℕ
take_inode = do
  fs ← get
  in_range (ltb (fs.ninode - 1) 100)
  modify (λ fs. record fs { ninode = fs.ninode - 1; dirty = true })
  pure (get_or fs.inode (fs.ninode - 1) 0)

-- The rounds of `lsxfs_inode_alloc`. Each takes one number, so the count is fuel enough.
unfoldable pub inode_alloc_loop : ℕ → Cmd Fs Inode
inode_alloc_loop zero = λ fs. if fs.ninode == 0 then fail fs else fault
inode_alloc_loop (suc rounds) = do
  fs ← get
  guard (not (fs.ninode == 0))
  ino ← take_inode
  i ← inode_get ino
  if i.mode == 0 then pure (inode_clear i) else inode_alloc_loop rounds

-- `lsxfs_inode_alloc`
unfoldable pub inode_alloc : Cmd Fs Inode
inode_alloc = do fs ← get; inode_alloc_loop fs.ninode

-- what `lsxfs_inode_truncate` does with the block at address `k`
unfoldable pub free_addr : Bool → ℕ → ℕ → Cmd Fs (Unit {0})
free_addr large k bno =
    if not large
    then block_free bno
    else if k == 7
    then double_indirect_block_free bno
    else indirect_block_free bno

-- the loop of `lsxfs_inode_truncate`, from the last address down to the first
unfoldable pub truncate_loop : ℕ → Cmd Node (Unit {0})
truncate_loop zero = pure tt
truncate_loop (suc k) = do
  n ← get
  if get_or n.inode.addr k 0 == 0
      then pure tt
      else (on_fs (ignore (free_addr (is_large n.inode) k (get_or n.inode.addr k 0)))
          >> on_inode (λ i. record i { addr = set i.addr k 0 }))
  truncate_loop k

-- `lsxfs_inode_truncate`
unfoldable pub truncate : Cmd Node (Unit {0})
truncate = do
  n ← get
  if file_type n.inode == mode_fchr || file_type n.inode == mode_fblk
      then pure tt
      else (truncate_loop 8
          >> on_inode
              (λ i. record i { mode = bit_and i.mode (65535 - mode_larg); size = 0; dirty = true }))
