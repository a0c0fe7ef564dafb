-- ===== src/Fsutil/Names.antt =====
-- fsutil/inode.c: directory entries, the scan of a directory, and the walk along a path name with
-- the creation, deletion and linking at its end.
pub mod Entries
pub mod Paths
use bkunix.Prelude.{
  ℕ, zero, suc, ◌+◌, ◌-◌, ◌*◌, ◌/◌, ◌%◌, bit_and, bit_or, Bool, true, false, List, [], ◌∷◌, ◌++◌,
  not, ◌||◌, ◌&&◌,
}
use bkunix.Prelude.Tests.{ltb, leb, ◌==◌, if◌then◌else◌}
use bkunix.Prelude.Lists.{length, get_or, set, take, drop, replicate}
use bkunix.Prelude.Run.{
  Run, ok, fail, fault, Cmd, pure, return_0, ◌>>=◌, ◌>>◌, get, modify, guard, ignore,
}
use bkunix.Fsutil.State.{Fs, Inode, Node, Dirent, u8, u16, mode_alloc, mode_fmt, mode_fdir}
use bkunix.Fsutil.Disk.{byte_at}
use bkunix.Fsutil.Block.{word_at}
use bkunix.Fsutil.Inode.{file_type, inode_get, inode_clear, inode_save, inode_read}
use bkunix.Fsutil.Inode.Alloc.{inode_alloc, truncate}
use bkunix.Fsutil.Inode.Write.{inode_write}

-- A command on an inode in memory, run by a function that holds the inode in a variable.
abbrev pub leave : {A : Type 0} → Run Node A → Run Fs (A × Inode)
leave (ok a n) = ok (a, n.inode) n.fs
leave (fail n) = fail n.fs
leave fault = fault

abbrev pub on_node : {A : Type 0} → Inode → Cmd Node A → Cmd Fs (A × Inode)
on_node i m fs = leave (m (record { fs = fs; inode = i }))

-- the bytes of a C string, before its zero
unfoldable pub c_string : List ℕ → List ℕ
c_string [] = []
c_string (c ∷ s) = if c == 0 then [] else c ∷ c_string s

-- `n` bytes of a string, with zeros behind its end
unfoldable pub pad : ℕ → List ℕ → List ℕ
pad zero s = []
pad (suc n) [] = 0 ∷ pad n []
pad (suc n) (c ∷ s) = c ∷ pad n s

-- `lsxfs_dirent_pack`: the 16 bytes of an entry. The second takes `ino >> 16`.
unfoldable pub dirent_pack : Dirent → List ℕ
dirent_pack d = u8 d.ino ∷ u8 (d.ino / 65536) ∷ pad 14 (c_string (take 14 d.name))

-- `lsxfs_dirent_unpack`
unfoldable pub dirent_unpack : List ℕ → Dirent
dirent_unpack bytes = record { ino = word_at bytes 0; name = take 14 (drop 2 bytes) ++ (0 ∷ []) }

-- The function that `lsxfs_directory_scan` calls: on the directory, the file, and its name.
abbrev pub Scanner : Type 0
Scanner = Inode → Inode → List ℕ → Cmd Fs (Unit {0})

-- an unused entry, `.` and `..`
unfoldable pub is_skipped : List ℕ → Bool
is_skipped bytes =
    word_at bytes 0 == 0
    || (byte_at bytes 2 == b'.' && byte_at bytes 3 == 0)
    || (byte_at bytes 2 == b'.' && byte_at bytes 3 == b'.' && byte_at bytes 4 == 0)

-- A scan goes on past an inode that cannot be got.
abbrev pub call_scanner : Scanner → Inode → List ℕ → Run Fs Inode → Run Fs (Unit {0})
call_scanner scanner dir name (ok file fs) = ignore (scanner dir file name) fs
call_scanner scanner dir name (fail fs) = ok tt fs
call_scanner scanner dir name fault = fault

-- one entry of `lsxfs_directory_scan`
unfoldable pub scan_entry : Scanner → Inode → List ℕ → Cmd Fs (Unit {0})
scan_entry scanner dir bytes fs =
    if is_skipped bytes
    then ok tt fs
    else call_scanner scanner dir (c_string (take 14 (drop 2 bytes)))
        (inode_get (word_at bytes 0) fs)

-- The loop of `lsxfs_directory_scan`, over the whole entries left; it ends at a read error.
unfoldable pub scan_loop : Scanner → Inode → ℕ → ℕ → Cmd Fs (Unit {0})
scan_loop scanner dir zero offset = pure tt
scan_loop scanner dir (suc n) offset = do
  (bytes, dir') ← on_node dir (inode_read offset 16 (replicate 16 0))
  scan_entry scanner dir bytes
  scan_loop scanner dir n (offset + 16)

-- `lsxfs_directory_scan`, which returns nothing
unfoldable pub directory_scan : Scanner → Inode → Cmd Fs (Unit {0})
directory_scan scanner dir = ignore (scan_loop scanner dir (dir.size / 16) 0)

-- `while (c == '/') c = *name++`: a path is its bytes, `c` first.
unfoldable pub skip_slashes : List ℕ → List ℕ
skip_slashes [] = []
skip_slashes (c ∷ name) = if c == b'/' then skip_slashes name else c ∷ name

-- the bytes up to the next slash, and what begins there
unfoldable pub component : List ℕ → List ℕ
component [] = []
component (c ∷ name) = if c == b'/' then [] else c ∷ component name

unfoldable pub after_component : List ℕ → List ℕ
after_component [] = []
after_component (c ∷ name) = if c == b'/' then c ∷ name else after_component name

-- `strncmp (a, b, n) == 0`
unfoldable pub str_eq : ℕ → List ℕ → List ℕ → Bool
str_eq zero a b = true
str_eq (suc n) a b =
    byte_at a 0 == byte_at b 0 && (byte_at a 0 == 0 || str_eq n (drop 1 a) (drop 1 b))

-- where the search of a directory ends: at an entry of that name, or behind the last entry
pub data Found : Type 0 where
  entry : (inum offset : ℕ) → Found
  missing : (offset : ℕ) → Found

-- the search, over the whole entries left
unfoldable pub search_loop : Inode → List ℕ → ℕ → ℕ → Cmd Fs Found
search_loop dir dbuf zero offset = pure (missing offset)
search_loop dir dbuf (suc n) offset = do
  (bytes, dir') ← on_node dir (inode_read offset 16 (replicate 16 0))
  if word_at bytes 0 == 0 || not (str_eq 14 dbuf (drop 2 bytes))
      then search_loop dir dbuf n (offset + 16)
      else pure (entry (word_at bytes 0) offset)

-- what `lsxfs_inode_by_name` is asked for: its flag, with the mode or inode number that goes with it
pub data Op : Type 0 where
  find : Op
  create : (mode : ℕ) → Op
  delete : Op
  link : (inum : ℕ) → Op

-- the label `write_back`: the directory gets the entry, and is saved
unfoldable pub write_back : Inode → ℕ → List ℕ → Cmd Fs Inode
write_back dir offset bytes = do
  (_, dir') ← on_node dir (inode_write offset bytes 16)
  (_, dir'') ← on_node dir' inode_save
  pure dir''

abbrev pub entry_bytes : ℕ → List ℕ → List ℕ
entry_bytes inum dbuf = u8 inum ∷ u8 (inum / 256) ∷ dbuf

-- the inode of a new file
abbrev pub new_inode : ℕ → Inode → Inode
new_inode mode i = record i {
  dirty = true;
  mode = bit_or (bit_and mode (bit_or 0o7777 mode_fmt)) mode_alloc;
  nlink = 1;
  uid = 0;
}

-- the label `create_file`
unfoldable pub create_file : Inode → ℕ → List ℕ → ℕ → Cmd Fs Inode
create_file dir offset dbuf mode = do
  i ← inode_alloc
  (_, i') ← on_node (new_inode mode i) inode_save
  write_back dir offset (entry_bytes i'.number dbuf)
  pure i'

-- a number put on the list of free inodes, if there is room
abbrev pub keep_inode : ℕ → Fs → Fs
keep_inode inum fs =
    if ltb fs.ninode 100
    then record fs { inode = set fs.inode fs.ninode inum; ninode = fs.ninode + 1; dirty = true }
    else fs

-- One link less. With the last link the file's blocks and its inode are given back.
unfoldable pub unlink : Inode → Cmd Fs Inode
unlink i = do
  let less = record i { dirty = true; nlink = (i.nlink + 255) % 256 }
  if not (less.nlink == 0)
      then pure less
      else (do (_, i') ← on_node less truncate; modify (keep_inode i.number); pure (inode_clear i'))

-- the label `delete_file`
unfoldable pub delete_file : Inode → ℕ → ℕ → Cmd Fs Inode
delete_file dir offset inum = do
  i ← inode_get inum
  i' ← unlink i
  write_back dir offset (replicate 16 0)
  pure i'

-- what is done at the end of the directory, when the name is not there: `last` says whether the
-- path ends with it
unfoldable pub at_end : Op → Bool → Inode → ℕ → List ℕ → Cmd Fs Inode
at_end find last dir offset dbuf = return_0
at_end (create mode) last dir offset dbuf =
    if last then create_file dir offset dbuf mode else return_0
at_end delete last dir offset dbuf = return_0
at_end (link inum) last dir offset dbuf =
    if last then write_back dir offset (entry_bytes inum dbuf) else return_0

-- whether the entry found is to be deleted
abbrev pub deletes : Op → Bool → Bool
deletes delete last = last
deletes _ last = false

abbrev pub is_end : List ℕ → Bool
is_end [] = true
is_end (c ∷ name) = false

-- The rounds of `lsxfs_inode_by_name` from the label `cloop` on: one for each component.
unfoldable pub walk : ℕ → Op → Inode → List ℕ → Cmd Fs Inode
walk rounds op dir [] = pure dir
walk zero op dir (c ∷ name) = return_0
walk (suc rounds) op dir (c ∷ name) = do
  guard (file_type dir == mode_fdir)
  let dbuf = pad 14 (component (c ∷ name))
  let rest = skip_slashes (after_component (c ∷ name))
  found ← search_loop dir dbuf (dir.size / 16) 0
  elim found [
    | missing offset ↦ at_end op (is_end rest) dir offset dbuf
    | entry inum offset ↦
        (if deletes op (is_end rest)
          then delete_file dir offset inum
          else (inode_get inum >>= λ next. walk rounds op next rest))
  ]

abbrev pub is_find : Op → Bool
is_find find = true
is_find _ = false

-- `lsxfs_inode_by_name`, of the bytes of a path
unfoldable pub inode_by_name : List ℕ → Op → Cmd Fs Inode
inode_by_name name op = do
  root ← inode_get 1
  guard (is_find op || not (is_end (skip_slashes name)))
  walk (length name) op root (skip_slashes name)
