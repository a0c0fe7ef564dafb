-- ===== src/Fsutil/Salvage.antt =====
-- fsutil/check.c: the check of the free list, and its rebuilding.
pub mod Inodes
use bkunix.Prelude.{
  ℕ, zero, suc, ◌+◌, ◌-◌, ◌*◌, ◌/◌, ◌%◌, Bool, true, false, List, [], ◌∷◌, not, ◌||◌,
}
use bkunix.Prelude.Tests.{ltb, leb, ◌==◌, if◌then◌else◌}
use bkunix.Prelude.Lists.{length, get_or, set, replicate}
use bkunix.Prelude.Run.{
  Run, ok, fail, fault, Cmd, pure, return_0, ◌>>=◌, ◌>>◌, get, modify, in_range, ignore,
}
use bkunix.Fsutil.State.{Fs, u16}
use bkunix.Fsutil.Block.{word_at, unpack_words, block_free}
use bkunix.Fsutil.Check.{
  Check, on_check, outrange, is_marked, mark, keepon, skip, stop, read_or_nil, inode_state, ustate,
}

-- `pass5`, with the counter that it is handed: the bits, and the counter afterwards
unfoldable pub pass5 : ℕ → ℕ → Cmd Check (ℕ × ℕ)
pass5 blk count = do
  c ← get
  if outrange c.fs blk
      then (modify (λ c. record c { corrupted = true; bad_blocks = c.bad_blocks + 1 })
          >> pure (if leb 10 (c.bad_blocks + 1) then stop else skip, count))
      else if is_marked blk c.free_map
      then (modify (λ c. record c { corrupted = true; dup_blocks = c.dup_blocks + 1 })
          >> pure (if leb 100 (c.dup_blocks + 1) then stop else keepon, count))
      else (modify (λ c. record c { free_map = mark blk c.free_map })
          >> pure (keepon, u16 (count + 1)))

-- `while (--ap > base)`, from index `n` down to 1: whether it was stopped, and the count
unfoldable pub check_entries : ℕ → List ℕ → ℕ → Cmd Check (Bool × ℕ)
check_entries zero base count = pure (false, count)
check_entries (suc n) base count = do
  (ret, count') ← pass5 (get_or base (suc n) 0) count
  if ret == stop then pure (true, count') else check_entries n base count'

-- The rounds of `check_free_list`, one for each block of the list. The count of a list that comes
-- from the disk is checked first.
unfoldable pub check_rounds : ℕ → ℕ → List ℕ → ℕ → Cmd Check ℕ
check_rounds zero nfree base count = pure count
check_rounds (suc fuel) nfree base count =
    if nfree == 0 || ltb 100 nfree
    then (modify (λ c. record c { corrupted = true }) >> pure count)
    else (do
      (stopped, count) ← check_entries (nfree - 1) base count
      let blk = get_or base 0 0
      if stopped || blk == 0 then pure count else (do
        (ret, count) ← pass5 blk count
        if not (ret == keepon) then pure count else (do
          block ← read_or_nil blk
          if length block == 0
              then pure count
              else check_rounds fuel (word_at block 0) (unpack_words 100 block 2) count)))

-- `check_free_list`. A round goes on only if it has met a block that was not marked, of which there
-- are fewer than `fsize`, or a duplicate, of which the hundredth stops it.
unfoldable pub check_free_list : Cmd Check ℕ
check_free_list = do
  c ← get
  if c.fs.nfree == 0 then pure 0 else check_rounds (c.fs.fsize + 101) c.fs.nfree c.fs.free 0

-- `while (i < 100) fs->inode [i++] = 0`
abbrev pub clear_from : ℕ → List ℕ → List ℕ
clear_from zero xs = replicate (length xs) 0
clear_from (suc i) [] = []
clear_from (suc i) (x ∷ xs) = x ∷ clear_from i xs

-- the list of free inodes from entry `i` on cleared, its count `i - 1` in 16 bits
abbrev pub cut_inodes : ℕ → Fs → Fs
cut_inodes i fs = record fs {
  ninode = (i + 65535) % 65536;
  inode = clear_from i fs.inode;
  dirty = true;
}

-- the loop of `check_free_inode_list`, with `n` entries left
unfoldable pub check_inodes : ℕ → ℕ → Cmd Check (Unit {0})
check_inodes zero i = pure tt
check_inodes (suc n) i = do
  c ← get
  in_range (ltb i 100)
  let inum = get_or c.fs.inode i 0
  in_range (ltb (inum / 4) (length c.state_map))
  if inode_state inum c.state_map == ustate
      then check_inodes n (i + 1)
      else (if c.fs.writable then modify (λ c. record c { fs = cut_inodes i c.fs }) else pure tt)

-- `check_free_inode_list`
unfoldable pub check_free_inode_list : Cmd Check (Unit {0})
check_free_inode_list = do c ← get; check_inodes c.fs.ninode 0

-- The loop of `make_free_list`, with `k` blocks left, the next one being `first + k - 1`. The
-- `free_block` of check.c has the text of `lsxfs_block_free`.
unfoldable pub make_rounds : ℕ → ℕ → ℕ → Cmd Check ℕ
make_rounds first zero count = pure count
make_rounds first (suc k) count = do
  c ← get
  if is_marked (first + k) c.block_map
      then make_rounds first k count
      else (on_check (block_free (first + k)) >> make_rounds first k (u16 (count + 1)))

-- the super block as `make_free_list` begins with it
abbrev pub emptied : Fs → Fs
emptied fs = record fs { nfree = 0; flock = 0; fmod = 0; ilock = 0; ronly = 0; dirty = true }

-- `make_free_list`. `lsxfs_check` has refused a volume that ends before block `isize + 3`, so the
-- loop does not begin below its end.
unfoldable pub make_free_list : Cmd Check ℕ
make_free_list = do
  modify (λ c. record c { fs = emptied c.fs })
  ignore (on_check (block_free 0))
  c ← get
  make_rounds (c.fs.isize + 2) (c.fs.fsize - (c.fs.isize + 2)) 0
