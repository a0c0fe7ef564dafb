-- ===== src/Kernel/Alloc.antt =====
-- src/sys/alloc.c: the free list of blocks of a mounted file system, the start from the root's super
-- block, and the list of free inodes. `getfs` returns the index of the entry of `mount` whose super
-- block the code points into.
pub mod Chain
pub mod Take
pub mod Full
pub mod Give
pub mod Returned
pub mod Cycle
pub mod Super
use bkunix.Prelude.{
  ℕ, zero, suc, ◌+◌, ◌-◌, ◌*◌, ◌/◌, ◌%◌, Bool, true, false, Option, none, some, List, [], ◌∷◌, ◌++◌,
  not, ◌||◌, ◌&&◌,
}
use bkunix.Prelude.Tests.{ltb, leb, ◌==◌, if◌then◌else◌}
use bkunix.Prelude.Lists.{get_or, set, take, drop, replicate, length}
use bkunix.Prelude.Run.{Cmd, pure, ◌>>=◌, ◌>>◌, get, modify, in_range}
use bkunix.Kernel.State.{Buf, Filsys, Mount, Kernel, nodev, enospc}
use bkunix.Kernel.Bio.{panic, on_buf, brelse, bwrite, getblk, bread, clrbuf}

-- `a < b` on words as signed numbers
abbrev pub s_lt : ℕ → ℕ → Bool
s_lt a b = ltb ((a + 32768) % 65536) ((b + 32768) % 65536)

-- whether `m_bufp` is set, for the device
abbrev pub serves : ℕ → Mount → Bool
serves dev m = elim m.fs [ none ↦ false | some _ ↦ m.dev == dev ]

-- the loop of `getfs`, from the entry with index `i` on
unfoldable pub find_fs : ℕ → List Mount → ℕ → Option ℕ
find_fs dev [] i = none
find_fs dev (m ∷ rest) i = if serves dev m then some i else find_fs dev rest (i + 1)

-- what was found, or `panic()`, or the fault of a null pointer
abbrev pub or_panic : {A : Type 0} → Option A → Cmd Kernel A
or_panic none = panic
or_panic (some x) = pure x

-- `getfs`
unfoldable pub getfs : ℕ → Cmd Kernel ℕ
getfs dev k = or_panic (find_fs dev k.mount 0) k

-- the super block of an entry of `mount`
unfoldable pub fs_at : List Mount → ℕ → Option Filsys
fs_at [] m = none
fs_at (x ∷ xs) zero = x.fs
fs_at (x ∷ xs) (suc m) = fs_at xs m

unfoldable pub put_fs : List Mount → ℕ → Filsys → List Mount
put_fs [] m fs = []
put_fs (x ∷ xs) zero fs = record x { fs = some fs } ∷ xs
put_fs (x ∷ xs) (suc m) fs = x ∷ put_fs xs m fs

abbrev pub set_fs : ℕ → Filsys → Kernel → Kernel
set_fs m fs k = record k { mount = put_fs k.mount m fs }

-- `fp->...` read, and assigned
abbrev pub load_fs : ℕ → Cmd Kernel Filsys
load_fs m k = or_panic (fs_at k.mount m) k

abbrev pub store_fs : ℕ → Filsys → Cmd Kernel (Unit {0})
store_fs m fs = modify (set_fs m fs)

-- `alloc` from the label `nospace` on
unfoldable pub no_space : ℕ → Cmd Kernel (Option ℕ)
no_space m = do
  fs ← load_fs m
  store_fs m (record fs { nfree = 0 })
  modify (λ k. record k { u_error = enospc })
  pure none

-- `alloc`: the next block of the list is read into the super block.
unfoldable pub refill : ℕ → ℕ → ℕ → Cmd Kernel (Unit {0})
refill dev m bno = do
  j ← bread dev bno
  k ← get
  fs ← load_fs m
  let ws = (k.buf j).data_words
  store_fs m (record fs { nfree = get_or ws 0 0; free = take 100 (drop 1 ws) })
  brelse j

-- whether the block is not one of the data blocks of the file system
abbrev pub outside : Filsys → ℕ → Bool
outside fs bno = s_lt bno ((fs.isize + 2) % 65536) || not (s_lt bno fs.fsize)

-- `alloc`: the block taken from the list is given out.
unfoldable pub take_block : ℕ → ℕ → ℕ → Cmd Kernel (Option ℕ)
take_block dev m bno = do
  fs ← load_fs m
  if outside fs bno
      then panic
      else (do j ← getblk dev bno; clrbuf j; store_fs m (record fs { fmod = 1 }); pure (some j))

-- `alloc`. The result is the buffer, and `none` is `NULL`.
unfoldable pub alloc : ℕ → Cmd Kernel (Option ℕ)
alloc dev = do
  m ← getfs dev
  fs ← load_fs m
  if not (s_lt 0 fs.nfree) then no_space m else (do
    in_range (leb fs.nfree 100)
    let bno = get_or fs.free (fs.nfree - 1) 0
    store_fs m (record fs { nfree = fs.nfree - 1 })
    if bno == 0
        then no_space m
        else (do if fs.nfree == 1 then refill dev m bno else pure tt; take_block dev m bno))

-- `free`: the list in the super block is moved into the block.
unfoldable pub spill : ℕ → ℕ → ℕ → Cmd Kernel (Unit {0})
spill dev m bno = do
  j ← getblk dev bno
  fs ← load_fs m
  on_buf j (λ b. record b { data_words = fs.nfree ∷ (take 100 fs.free ++ drop 101 b.data_words) })
  store_fs m (record fs { nfree = 0 })
  bwrite j

-- `free`: the list is not empty from here on.
abbrev pub started_list : Filsys → Filsys
started_list fs = record fs {
  nfree = if s_lt 0 fs.nfree then fs.nfree else 1;
  free = if s_lt 0 fs.nfree then fs.free else set fs.free 0 0;
}

-- `free`: the block is put on the list.
abbrev pub pushed : ℕ → Filsys → Filsys
pushed bno fs = record fs { free = set fs.free fs.nfree bno; nfree = fs.nfree + 1; fmod = 1 }

-- `free`
unfoldable pub free : ℕ → ℕ → Cmd Kernel (Unit {0})
free dev bno = do
  m ← getfs dev
  fs ← load_fs m
  if outside fs bno then panic else (do
    store_fs m (started_list fs)
    if s_lt (started_list fs).nfree 100 then pure tt else spill dev m bno
    fs' ← load_fs m
    store_fs m (pushed bno fs'))

-- `ifree`, which does not look whether the table is full: an index beyond it is another field
unfoldable pub ifree : ℕ → ℕ → Cmd Kernel (Unit {0})
ifree dev ino = do
  m ← getfs dev
  fs ← load_fs m
  in_range (leb (fs.ninode + 1) 100)
  store_fs m (record fs { inode = set fs.inode fs.ninode ino; ninode = fs.ninode + 1; fmod = 1 })

-- two bytes of a word
abbrev low_byte : ℕ → ℕ
low_byte w = w % 256

-- the words from `s_flock` on
unfoldable pub filsys_tail : Filsys → List ℕ
filsys_tail fs =
    (fs.flock + 256 * fs.ilock) ∷ (fs.fmod + 256 * fs.ronly) ∷ fs.time0 ∷ fs.time1 ∷ fs.pad

-- The 256 words of a buffer as the code sees them through a pointer to `struct filsys`: its fields in
-- their order. The last two of the 50 words of `pad` lie behind the buffer, so that `pad` has 48 here.
unfoldable pub filsys_words : Filsys → List ℕ
filsys_words fs =
    fs.isize ∷ fs.fsize ∷ fs.nfree ∷ (fs.free ++ (fs.ninode ∷ (fs.inode ++ filsys_tail fs)))

-- the `struct filsys` that 256 words are, once `bcopy` has put them there
unfoldable pub filsys_of : List ℕ → Filsys
filsys_of ws = record {
  isize = get_or ws 0 0;
  fsize = get_or ws 1 0;
  nfree = get_or ws 2 0;
  free = take 100 (drop 3 ws);
  ninode = get_or ws 103 0;
  inode = take 100 (drop 104 ws);
  flock = low_byte (get_or ws 204 0);
  ilock = get_or ws 204 0 / 256;
  fmod = low_byte (get_or ws 205 0);
  ronly = get_or ws 205 0 / 256;
  time0 = get_or ws 206 0;
  time1 = get_or ws 207 0;
  pad = take 48 (drop 208 ws);
}
