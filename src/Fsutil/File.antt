-- ===== src/Fsutil/File.antt =====
-- fsutil/file.c: files opened for writing.
use bkunix.Prelude.{ℕ, ◌+◌, true, List, not}
use bkunix.Prelude.Tests.{◌==◌, if◌then◌else◌}
use bkunix.Prelude.Run.{Run, ok, fail, fault, Cmd, pure, ◌>>=◌, ◌>>◌, get, modify, guard, ignore}
use bkunix.Fsutil.State.{Fs, Inode, Node, File, ulong, mode_fdir}
use bkunix.Fsutil.Inode.{file_type, inode_save}
use bkunix.Fsutil.Inode.Alloc.{truncate}
use bkunix.Fsutil.Inode.Write.{inode_write}
use bkunix.Fsutil.Names.{create, inode_by_name}

-- A command on a file's inode.
abbrev pub with_file : {A : Type 0} → File → Run Node A → Run File A
with_file f (ok a n) = ok a (record f { node = n })
with_file f (fail n) = fail (record f { node = n })
with_file f fault = fault

abbrev pub on_file : {A : Type 0} → Cmd Node A → Cmd File A
on_file m f = with_file f (m f.node)

-- what `lsxfs_file_create` does with the inode that the name leads to
unfoldable pub start_file : Inode → Fs → Run File (Unit {0})
start_file i fs =
    on_file (truncate >> ignore inode_save)
      (record { node = record { fs = fs; inode = i }; writable = true; offset = 0 })

-- `lsxfs_file_create`: the file, or the file system as it is left without one
unfoldable pub file_create : List ℕ → ℕ → Fs → Run Fs (Run File (Unit {0}))
file_create name mode = do
  i ← inode_by_name name (create mode)
  guard (not (file_type i == mode_fdir))
  fs ← get
  pure (start_file i fs)

-- `lsxfs_file_write`
unfoldable pub file_write : List ℕ → ℕ → Cmd File (Unit {0})
file_write buffer bytes = do
  f ← get
  guard f.writable
  on_file (inode_write f.offset buffer bytes)
  modify (λ f. record f { offset = ulong (f.offset + bytes) })

-- `lsxfs_file_close`
unfoldable pub file_close : Cmd File (Unit {0})
file_close = do f ← get; if f.writable then on_file inode_save else pure tt
