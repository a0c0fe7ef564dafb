-- ===== src/Fsutil/Check/Dirs.antt =====
-- fsutil/check.c: the scan of directories, the pass over the path names, and the search for names.
use bkunix.Prelude.{
  ℕ, zero, suc, ◌+◌, ◌-◌, ◌*◌, ◌^◌, bit_and, Bool, true, false, none, some, ◌&&◌, not,
}
use bkunix.Prelude.Tests.{ltb, leb, ◌==◌, if◌then◌else◌}
use bkunix.Prelude.Lists.{length, get_or, set, take, drop}
use bkunix.Prelude.Run.{fault, Cmd, pure, ◌>>=◌, ◌>>◌, get, modify, in_range, ignore}
use bkunix.Fsutil.State.{Inode, Dirent, u16, ulong, mode_fdir}
use bkunix.Fsutil.Disk.{write_block}
use bkunix.Fsutil.Inode.{file_type, inode_get, overwrite}
use bkunix.Fsutil.Names.{c_string, dirent_pack, dirent_unpack, str_eq}
use bkunix.Fsutil.Check.{
  Check, fstate, dstate, clear, alterd, keepon, skip, stop, has_bit, outrange, on_check,
  read_or_nil, get_inode, set_inode_state, inode_state,
}
use bkunix.Fsutil.Check.Scan.{Scanner, scan_inode}

-- `buf_flush`
unfoldable pub buf_flush : Cmd Check (Unit {0})
buf_flush = do
  c ← get
  if c.buf_dirty && c.fs.writable
      then ignore (on_check (write_block c.buf_bno c.buf_data))
      else pure tt
  modify (λ c. record c { buf_dirty = false })

-- `buf_get`. What a failed read leaves in `buf_data` is not looked at before the next good one.
unfoldable pub buf_get : ℕ → Cmd Check Bool
buf_get blk = do
  c ← get
  if c.buf_bno == blk then pure true else (do
    buf_flush
    block ← read_or_nil blk
    if length block == 0
        then (modify (λ c. record c { buf_bno = 65535 }) >> pure false)
        else (modify (λ c. record c { buf_data = block; buf_bno = blk }) >> pure true))

-- `scan_filesize -= n`
abbrev pub less_filesize : ℕ → Check → Check
less_filesize n c = record c { scan_filesize = ulong (c.scan_filesize + (2 ^ 64 - n)) }

-- A function called for a directory entry: its bits, and the entry as it leaves it.
abbrev pub Handler : Type 0
Handler = Dirent → Cmd Check (ℕ × Dirent)

-- An altered entry goes back to its block.
unfoldable pub put_entry : ℕ → ℕ → ℕ × Dirent → Cmd Check ℕ
put_entry blk dirp (ret, entry) = if not (has_bit ret alterd) then pure ret else (do
  have ← buf_get blk
  if not have
      then pure (bit_and ret (15 - alterd))
      else (modify (λ c. record c {
        buf_data = overwrite c.buf_data dirp (dirent_pack entry);
        buf_dirty = true;
      })
          >> pure ret))

-- the result of `scan_directory` behind its loop
abbrev pub scan_end : Cmd Check ℕ
scan_end = do c ← get; pure (if c.scan_filesize == 0 then stop else keepon)

-- the loop of `scan_directory`, with `n` of the 32 entries of a block left
unfoldable pub dir_loop : Handler → ℕ → ℕ → Cmd Check ℕ
dir_loop func blk zero = scan_end
dir_loop func blk (suc n) = do
  c ← get
  if c.scan_filesize == 0 then scan_end else (do
    have ← buf_get blk
    if not have then (modify (less_filesize (16 * (n + 1))) >> pure skip) else (do
      c ← get
      let dirp = 512 - 16 * (n + 1)
      altered ← func (dirent_unpack (take 16 (drop dirp c.buf_data)))
      ret ← put_entry blk dirp altered
      if has_bit ret stop then pure ret else (modify (less_filesize 16) >> dir_loop func blk n)))

-- `scan_directory`
unfoldable pub scan_directory : Handler → Scanner
scan_directory func inode blk = do
  c ← get
  if outrange c.fs blk then (modify (less_filesize 512) >> pure skip) else dir_loop func blk 32

-- the inode that `print_dir_error` looks up for its message
abbrev pub print_dir_error : ℕ → Cmd Check (Unit {0})
print_dir_error inum = ignore (on_check (inode_get inum))

abbrev pub set_state : ℕ → ℕ → Cmd Check (Unit {0})
set_state inum s = modify (λ c. record c { state_map = set_inode_state inum s c.state_map })

-- the state of an inode in use
abbrev pub state_for : Inode → ℕ
state_for i = if file_type i == mode_fdir then dstate else fstate

-- `--link_count [inum]`
abbrev pub less_links : ℕ → Cmd Check (Unit {0})
less_links inum = modify (λ c. record c {
  link_count = set c.link_count inum (u16 (get_or c.link_count inum 0 + 65535));
})

-- The cases of the switch of `pass2` for a file and a directory; `descend` is `scan_pass2`.
unfoldable pub count_link : (ℕ → Cmd Check (Unit {0})) → ℕ → ℕ → Cmd Check (Unit {0})
count_link descend inum s =
    if s == fstate
    then less_links inum
    else if s == dstate
    then (less_links inum >> descend inum)
    else pure tt

-- The entry that `pass2` removes where it may.
abbrev pub remove_entry : Dirent → ℕ × Dirent
remove_entry dirp = (keepon + alterd, record dirp { ino = 0 })

-- the switch of `pass2` for an inode to be cleared
unfoldable pub keep_bad : (ℕ → Cmd Check (Unit {0})) → Dirent → Cmd Check (ℕ × Dirent)
keep_bad descend dirp = do
  found ← get_inode dirp.ino
  elim found [
    | none ↦ pure tt
    | some i ↦ (set_state dirp.ino (state_for i) >> count_link descend dirp.ino (state_for i))
  ]
  pure (keepon, dirp)

-- the switch of `pass2`
unfoldable pub check_entry : (ℕ → Cmd Check (Unit {0})) → Dirent → Cmd Check (ℕ × Dirent)
check_entry descend dirp = do
  c ← get
  let s = inode_state dirp.ino c.state_map
  if ltb (c.fs.isize * 16) dirp.ino
      then (print_dir_error dirp.ino >> pure (keepon, dirp))
      else if s == fstate
      then (count_link descend dirp.ino s >> pure (keepon, dirp))
      else if s == dstate
      then (count_link descend dirp.ino s >> pure (keepon, dirp))
      else (do
        print_dir_error dirp.ino
        if c.fs.writable
            then pure (remove_entry dirp)
            else if s == clear
            then keep_bad descend dirp
            else pure (keepon, dirp))

-- `pass2`. The name goes to `pathname`, an array of 256 bytes, without a check.
unfoldable pub pass2 : (ℕ → Cmd Check (Unit {0})) → Handler
pass2 descend dirp = if dirp.ino == 0 then pure (keepon, dirp) else (do
  c ← get
  let end = c.pathp + length (c_string dirp.name)
  in_range (ltb end 256)
  modify (λ c. record c { thisname = c.pathp; pathp = end })
  ret ← check_entry descend dirp
  modify (λ c. record c { pathp = c.thisname })
  pure ret)

-- `scan_pass2`, with `depth` levels of directories left to go down. Each level marks its directory
-- as a file, and no inode so marked is gone down to again, so that one level more than there are
-- inodes is enough.
unfoldable pub scan_pass2 : ℕ → ℕ → Cmd Check (Unit {0})
scan_pass2 zero inum = λ c. fault
scan_pass2 (suc depth) inum = do
  set_state inum fstate
  found ← get_inode inum
  c ← get
  elim found [
    | none ↦ pure tt
    | some inode ↦ (do
      in_range (ltb c.pathp 256)
      modify (λ c. record c { pathp = c.pathp + 1 })
      scan_inode false (scan_directory (pass2 (scan_pass2 depth))) inode
      modify (λ d. record d {
        scan_filesize = c.scan_filesize;
        thisname = c.thisname;
        pathp = d.pathp - 1;
      }))
  ]

-- `find_inode`
unfoldable pub find_inode : Handler
find_inode dirp = do
  c ← get
  if dirp.ino == 0
      then pure (keepon, dirp)
      else if not (str_eq 15 c.find_inode_name dirp.name)
      then pure (keepon, dirp)
      else if leb dirp.ino (c.fs.isize * 16)
      then (modify (λ c. record c { find_inode_result = dirp.ino }) >> pure (stop, dirp))
      else pure (stop, dirp)
