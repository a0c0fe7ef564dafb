-- ===== src/Fsutil/Check/Repair.antt =====
-- fsutil/check.c: files without a name are put into lost+found, and inodes are cleared.
use bkunix.Prelude.{
  ℕ, ◌+◌, ◌-◌, ◌*◌, ◌/◌, ◌%◌, Bool, true, false, Option, none, some, List, [], ◌∷◌, ◌&&◌, not,
}
use bkunix.Prelude.Tests.{◌==◌, if◌then◌else◌}
use bkunix.Prelude.Lists.{get_or, set}
use bkunix.Prelude.Run.{Cmd, pure, ◌>>=◌, ◌>>◌, get, modify, ignore}
use bkunix.Fsutil.State.{Inode, u16, mode_fdir}
use bkunix.Fsutil.Disk.{byte_at}
use bkunix.Fsutil.Inode.{file_type, inode_clear, overwrite}
use bkunix.Fsutil.Check.{
  Check, fstate, alterd, keepon, skip, stop, has_bit, outrange, get_inode, save_inode, inode_state,
  is_marked, mark_block_free,
}
use bkunix.Fsutil.Check.Scan.{Scanner, scan_inode, index_of}
use bkunix.Fsutil.Check.Dirs.{Handler, scan_directory, less_links, find_inode}

-- the five digits of `%05d` for a number below 100000
abbrev pub digits : ℕ → List ℕ
digits n =
    (48 + n / 10000 % 10)
    ∷ (48 + n / 1000 % 10)
    ∷ (48 + n / 100 % 10)
    ∷ (48 + n / 10 % 10)
    ∷ (48 + n % 10)
    ∷ []

-- `make_lost_entry`: `sprintf` writes seven bytes of the name.
unfoldable pub make_lost_entry : Handler
make_lost_entry dirp = do
  c ← get
  if not (dirp.ino == 0)
      then pure (keepon, dirp)
      else pure (
        alterd + stop,
        record {
          ino = c.lost_inode;
          name =
              overwrite (overwrite (overwrite dirp.name 0 (b'#' ∷ [])) 1 (digits c.lost_inode)) 6
                (0 ∷ []);
        },
      )

-- `dotdot_to_lost_found`
unfoldable pub dotdot_to_lost_found : Handler
dotdot_to_lost_found dirp = do
  c ← get
  if byte_at dirp.name 0 == b'.' && byte_at dirp.name 1 == b'.' && byte_at dirp.name 2 == 0
      then pure (alterd + stop, record dirp { ino = c.lost_found_inode })
      else pure (keepon, dirp)

-- "lost+found"
abbrev pub lost_found_name : List ℕ
lost_found_name = b'l' ∷ b'o' ∷ b's' ∷ b't' ∷ b'+' ∷ b'f' ∷ b'o' ∷ b'u' ∷ b'n' ∷ b'd' ∷ []

-- `find_inode` of a name in a directory
unfoldable pub find_in : List ℕ → Inode → Cmd Check ℕ
find_in name dir = do
  modify (λ c. record c { find_inode_name = name; find_inode_result = 0 })
  ret ← scan_inode false (scan_directory find_inode) dir
  c ← get
  pure c.find_inode_result

-- `find_lost_found`
unfoldable pub find_lost_found : Cmd Check ℕ
find_lost_found = do
  found ← get_inode 1
  elim found [ none ↦ pure 0 | some root ↦ find_in lost_found_name root ]

-- `move_to_lost_found`: the number of lost+found, looked for where it is not known
unfoldable pub know_lost_found : Cmd Check ℕ
know_lost_found = do
  c ← get
  if not (c.lost_found_inode == 0)
      then pure c.lost_found_inode
      else (do n ← find_lost_found; modify (λ c. record c { lost_found_inode = n }); pure n)

-- `move_to_lost_found`: lost+found, if it is a directory that was reached
unfoldable pub open_lost_found : Cmd Check (Option Inode)
open_lost_found = do
  n ← know_lost_found
  if n == 0 then pure none else (do
    found ← get_inode n
    c ← get
    elim found [
      | none ↦ pure none
      | some dir ↦
          if file_type dir == mode_fdir && inode_state n c.state_map == fstate
          then pure (some dir)
          else pure none
    ])

-- `move_to_lost_found`: the size of lost+found up to the end of its last block, and whether it
-- could be saved
unfoldable pub round_lost_found : Inode → Cmd Check (Inode × Bool)
round_lost_found dir = if dir.size % 512 == 0 then pure (dir, true) else (do
  let grown = record dir { size = (dir.size + 511) / 512 * 512 }
  saved ← save_inode grown
  pure (record grown { dirty = if saved then false else grown.dirty }, saved))

-- `move_to_lost_found`: a directory gets lost+found as its parent.
unfoldable pub adopt : Inode → Cmd Check Bool
adopt inode = if not (file_type inode == mode_fdir) then pure true else (do
  ret ← scan_inode false (scan_directory dotdot_to_lost_found) inode
  c ← get
  found ← get_inode c.lost_found_inode
  elim found [
    | none ↦ pure true
    | some dir ↦ (do
      modify (λ c. record c {
        link_count = set c.link_count dir.number (u16 (get_or c.link_count dir.number 0 + 1));
      })
      save_inode (record dir { nlink = (dir.nlink + 1) % 256 }))
  ])

-- `move_to_lost_found`: the entry for the file
unfoldable pub connect : Inode → Inode → Cmd Check Bool
connect inode dir = do
  modify (λ c. record c { lost_inode = inode.number })
  ret ← scan_inode false (scan_directory make_lost_entry) dir
  if not (has_bit ret alterd) then pure false else (less_links inode.number >> adopt inode)

-- `move_to_lost_found`, and whether it returned 1
unfoldable pub move_to_lost_found : Inode → Cmd Check Bool
move_to_lost_found inode = do
  c ← get
  if not c.fs.writable then pure false else (do
    found ← open_lost_found
    elim found [
      | none ↦ pure false
      | some dir ↦ (do
        (dir', saved) ← round_lost_found dir
        if saved then connect inode dir' else pure false)
    ])

-- `pass4`, with no counter as `clear_inode` calls it
unfoldable pub pass4 : Scanner
pass4 inode blk = do
  c ← get
  if outrange c.fs blk
      then pure skip
      else if not (is_marked blk c.block_map)
      then pure keepon
      else elim (index_of blk c.dup_end c.dup_list 0) [
        | none ↦
            (modify (λ c. record c { block_map = mark_block_free blk c.block_map }) >> pure keepon)
        | some i ↦ (do
          let end = c.dup_end - 1
          modify (λ c. record c {
            dup_list = set c.dup_list i (get_or c.dup_list end 0);
            dup_end = end;
          })
          pure keepon)
      ]

-- `clear_inode`
unfoldable pub clear_inode : ℕ → Cmd Check (Unit {0})
clear_inode inum = do
  found ← get_inode inum
  c ← get
  elim found [
    | none ↦ pure tt
    | some inode ↦ if not c.fs.writable then pure tt else (do
      modify (λ c. record c { total_files = u16 (c.total_files + 65535) })
      ret ← scan_inode true pass4 inode
      saved ← save_inode (inode_clear inode)
      pure tt)
  ]

-- `adjust_link_count`; `lcnt` is the 16 bits of a signed count
unfoldable pub adjust_link_count : ℕ → ℕ → Cmd Check (Unit {0})
adjust_link_count inum lcnt = do
  found ← get_inode inum
  c ← get
  elim found [
    | none ↦ pure tt
    | some inode ↦
        if inode.nlink == lcnt
        then (move_to_lost_found inode >>= λ moved. if moved then pure tt else clear_inode inum)
        else if c.fs.writable
        then ignore (save_inode (record inode { nlink = (inode.nlink + (65536 - lcnt)) % 256 }))
        else pure tt
  ]
