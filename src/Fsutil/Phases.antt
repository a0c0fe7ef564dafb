-- ===== src/Fsutil/Phases.antt =====
-- fsutil/check.c: `lsxfs_check`, the phases of the file system check.
use bkunix.Prelude.{
  ℕ, zero, suc, ◌+◌, ◌-◌, ◌*◌, ◌/◌, bit_and, bit_or, Bool, true, false, Option, none, some, List,
  [], ◌∷◌, ◌++◌, ◌&&◌, ◌||◌, not,
}
use bkunix.Prelude.Tests.{ltb, ◌==◌, if◌then◌else◌}
use bkunix.Prelude.Lists.{length, get_or, set, replicate}
use bkunix.Prelude.Run.{
  Run, ok, fail, fault, Cmd, pure, return_0, ◌>>=◌, ◌>>◌, get, modify, guard, in_range, ignore,
}
use bkunix.Fsutil.State.{Fs, Inode, u16, mode_alloc, mode_fmt, mode_fdir}
use bkunix.Fsutil.Super.{sync}
use bkunix.Fsutil.Inode.{inode_clear}
use bkunix.Fsutil.Check.{
  Check, ustate, fstate, dstate, stop, has_bit, get_inode, save_inode, inode_state,
}
use bkunix.Fsutil.Check.Scan.{scan_inode, pass1, pass1b, is_among}
use bkunix.Fsutil.Check.Dirs.{buf_flush, state_for, set_state, scan_pass2}
use bkunix.Fsutil.Check.Repair.{find_in, move_to_lost_found, clear_inode, adjust_link_count}
use bkunix.Fsutil.Salvage.{check_free_list, check_free_inode_list, make_free_list}

abbrev pub inodes : Fs → ℕ
inodes fs = fs.isize * 16

-- The tables as `lsxfs_check` begins with them. Its `calloc` calls are taken to succeed.
abbrev pub begin : Fs → Check
begin fs = record {
  fs = fs;
  dup_list = replicate 100 0;
  dup_end = 0;
  dup_multi = 0;
  block_map = replicate ((fs.fsize + 7) / 8) 0;
  free_map = [];
  state_map = replicate ((inodes fs + 4) / 4) 0;
  corrupted = false;
  bad_blocks = 0;
  dup_blocks = 0;
  scan_filesize = 0;
  used_blocks = 0;
  total_files = 0;
  buf_data = replicate 512 0;
  buf_bno = 65535;
  buf_dirty = false;
  bad_links = [];
  link_count = replicate (inodes fs + 1) 0;
  pathp = 0;
  thisname = 0;
  find_inode_name = [];
  find_inode_result = 0;
  lost_inode = 0;
  lost_found_inode = 0;
}

-- The list of inodes without links, which holds 20.
abbrev pub add_bad_link : Inode → Check → List ℕ
add_bad_link i c =
    if i.nlink == 0 && ltb (length c.bad_links) 20
    then c.bad_links ++ (i.number ∷ [])
    else c.bad_links

-- phase 1, at an inode in use
unfoldable pub count_inode : Inode → Cmd Check (Unit {0})
count_inode i = do
  modify (λ c. record c {
    total_files = u16 (c.total_files + 1);
    link_count = set c.link_count i.number i.nlink;
    bad_links = add_bad_link i c;
    bad_blocks = 0;
    dup_blocks = 0;
  })
  set_state i.number (state_for i)
  ret ← scan_inode true pass1 i
  pure tt

-- phase 1, at an inode: the number of the last inode in use
unfoldable pub check_inode : ℕ → ℕ → Cmd Check ℕ
check_inode inum last = do
  found ← get_inode inum
  c ← get
  elim found [
    | none ↦ pure last
    | some i ↦
        if not (bit_and i.mode mode_alloc == 0)
        then (count_inode i >> pure inum)
        else if not (i.mode == 0) && c.fs.writable
        then (save_inode (inode_clear i) >> pure last)
        else pure last
  ]

-- phase 1, with `n` inodes left
unfoldable pub phase_1 : ℕ → ℕ → ℕ → Cmd Check ℕ
phase_1 zero inum last = pure last
phase_1 (suc n) inum last = do last' ← check_inode inum last; phase_1 n (inum + 1) last'

-- phase 1b, at an inode: whether the scan was stopped
unfoldable pub rescan : ℕ → Cmd Check Bool
rescan inum = do
  c ← get
  if inode_state inum c.state_map == ustate then pure false else (do
    found ← get_inode inum
    elim found [
      | none ↦ pure false
      | some i ↦ (do ret ← scan_inode true pass1b i; pure (has_bit ret stop))
    ])

-- phase 1b, with `n` inodes left
unfoldable pub phase_1b : ℕ → ℕ → Cmd Check (Unit {0})
phase_1b zero inum = pure tt
phase_1b (suc n) inum = do stopped ← rescan inum; if stopped then pure tt else phase_1b n (inum + 1)

-- `scan_pass2` with levels enough
abbrev pub descend : ℕ → Cmd Check (Unit {0})
descend inum c = scan_pass2 (inodes c.fs + 1) inum c

abbrev pub save_root : Option Inode → Cmd Check (Unit {0})
save_root none = return_0
save_root (some i) =
    ignore (save_inode (record i { mode = bit_or (bit_and i.mode (65535 - mode_fmt)) mode_fdir }))

-- phase 2: the root inode becomes a directory.
unfoldable pub repair_root : Cmd Check (Unit {0})
repair_root = do
  c ← get
  guard c.fs.writable
  found ← get_inode 1
  save_root found
  set_state 1 dstate

-- phase 2
unfoldable pub phase_2 : Cmd Check (Unit {0})
phase_2 = do
  modify (λ c. record c { pathp = 0; thisname = 0 })
  c ← get
  let s = inode_state 1 c.state_map
  guard (not (s == ustate))
  (if s == fstate then repair_root else if s == dstate then pure tt else set_state 1 dstate)
  descend 1

-- phase 3: from a directory that was not reached, up to one without a parent. A climb of more steps
-- than there are inodes has come back to where it was, and the loop of the source goes on forever,
-- which is `fault` here.
unfoldable pub climb : ℕ → ℕ → Cmd Check (Unit {0})
climb zero ino = λ c. fault
climb (suc steps) ino = do
  found ← get_inode ino
  elim found [
    | none ↦ pure tt
    | some i ↦ (do
      parent ← find_in (b'.' ∷ b'.' ∷ []) i
      if parent == 0
          then (do
            moved ← move_to_lost_found i
            if moved
                then (modify (λ c. record c { pathp = 1; thisname = 0 }) >> descend ino)
                else pure tt)
          else (do
            c ← get
            if inode_state parent c.state_map == dstate then climb steps parent else pure tt))
  ]

-- phase 3, with `n` inodes left
unfoldable pub phase_3 : ℕ → ℕ → Cmd Check (Unit {0})
phase_3 zero inum = pure tt
phase_3 (suc n) inum = do
  c ← get
  if inode_state inum c.state_map == dstate then climb (inodes c.fs + 1) inum else pure tt
  phase_3 n (inum + 1)

-- phase 4, at an inode
unfoldable pub check_links : ℕ → Cmd Check (Unit {0})
check_links inum = do
  c ← get
  let s = inode_state inum c.state_map
  let n = get_or c.link_count inum 0
  if s == ustate
      then pure tt
      else if not (s == fstate)
      then clear_inode inum
      else if not (n == 0)
      then adjust_link_count inum n
      else if is_among inum (length c.bad_links) c.bad_links
      then clear_inode inum
      else pure tt

-- phase 4, with `n` inodes left
unfoldable pub phase_4 : ℕ → ℕ → Cmd Check (Unit {0})
phase_4 zero inum = pure tt
phase_4 (suc n) inum = do check_links inum; phase_4 n (inum + 1)

-- phases 5 and 6
unfoldable pub phase_5 : Cmd Check (Unit {0})
phase_5 = do
  check_free_inode_list
  modify (λ c. record c { bad_blocks = 0; dup_blocks = 0; free_map = c.block_map })
  free_blocks ← check_free_list
  c ← get
  let whole = c.used_blocks + free_blocks + c.fs.isize + 2 == c.fs.fsize
  if (c.corrupted || not whole) && c.fs.writable then ignore make_free_list else pure tt

-- the time of a file system that was written to
abbrev pub stamp : ℕ → Fs → Fs
stamp now fs = if fs.modified then record fs { time = now; dirty = true } else fs

-- the phases in their order, at a time
unfoldable pub phases : ℕ → Cmd Check (Unit {0})
phases now = do
  c ← get
  last ← phase_1 (inodes c.fs) 1 0
  c ← get
  if c.dup_end == 0 then pure tt else phase_1b last 1
  phase_2
  phase_3 last 1
  phase_4 last 1
  buf_flush
  phase_5
  modify (λ c. record c { fs = stamp now c.fs })
  buf_flush

-- the run of the phases, as one on the file system
abbrev pub leave_check : {A : Type 0} → Run Check A → Run Fs A
leave_check (ok a c) = ok a c.fs
leave_check (fail c) = fail c.fs
leave_check fault = fault

-- `lsxfs_check`, at a time. With 4096 blocks of inodes and more its 16-bit counter never passes
-- their number, and phase 1 does not end, which is `fault` here.
unfoldable pub check_fs : ℕ → Cmd Fs (Unit {0})
check_fs now = do
  fs ← get
  guard (ltb (fs.isize + 2) fs.fsize)
  in_range (ltb fs.isize 4096)
  (λ fs. leave_check (phases now (begin fs)))
  ignore (sync false)
