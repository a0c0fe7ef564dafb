-- ===== src/Kernel/Names.antt =====
-- src/sys/nami.c, and `access` of src/sys/fio.c: the inode of a path name, and the search of a
-- directory. A path is a string in the memory of the process; the loops over its characters have 65536
-- rounds, those of the whole address space.
pub mod Entries
pub mod Held
pub mod Step
pub mod Search
use bkunix.Prelude.{
  ℕ, zero, suc, ◌+◌, ◌-◌, ◌*◌, ◌/◌, ◌%◌, bit_and, Bool, true, false, Option, none, some, List, [],
  ◌∷◌, not, ◌||◌, ◌&&◌,
}
use bkunix.Prelude.Tests.{leb, ◌==◌, if◌then◌else◌}
use bkunix.Prelude.Lists.{get_or, set, replicate}
use bkunix.Prelude.Run.{Cmd, ok, fault, pure, ◌>>=◌, ◌>>◌, get, modify}
use bkunix.Kernel.State.{Inode, Kernel}
use bkunix.Kernel.Bio.{brelse, bread}
use bkunix.Kernel.Iget.{on_inode, iput}
use bkunix.Kernel.Iget.Lookup.{iget}
use bkunix.Kernel.Iget.Bmap.{bmap}
use bkunix.Kernel.Files.{error}
use bkunix.Kernel.Iomove.{byte_at, efault, fubyte}
use bkunix.Kernel.Rdwr.{is_dir}

-- `ENOENT`, `EACCES`, `ENOTDIR`
abbrev pub enoent : ℕ
enoent = 2

abbrev pub eacces : ℕ
eacces = 13

abbrev pub enotdir : ℕ
enotdir = 20

-- the characters '/' and '\0', and -1 in 16 bits
abbrev slash : ℕ
slash = 47

abbrev minus_1 : ℕ
minus_1 = 65535

-- `IEXEC` and `IWRITE`
abbrev pub iexec : ℕ
iexec = 64

abbrev pub iwrite : ℕ
iwrite = 128

-- `access`; the result tells whether it is refused. 0111 is 73.
unfoldable pub access : ℕ → ℕ → Cmd Kernel Bool
access p m k =
    (if m == iexec && bit_and (k.inode p).mode 73 == 0
        then error eacces >> pure true
        else pure false)
      k

-- `uchar` behind `fubyte`
unfoldable pub char_of : Option ℕ → Cmd Kernel ℕ
char_of none = error efault >> pure minus_1
char_of (some c) = pure c

-- `uchar`
unfoldable pub uchar : Cmd Kernel ℕ
uchar = do
  k ← get
  modify (λ k. record k { u_dirp = (k.u_dirp + 1) % 65536 })
  char_of (fubyte k.u_dirp k)

-- `while (c == '/') c = uchar();`, with `m` rounds left
unfoldable pub skip_slashes : ℕ → ℕ → Cmd Kernel ℕ
skip_slashes zero c = λ k. fault
skip_slashes (suc m) c = let rest = skip_slashes m in if c == slash then uchar >>= rest else pure c

-- the loop that fills `u_dbuf` up with zeros
unfoldable pub fill : List ℕ → ℕ → ℕ → List ℕ
fill xs i zero = xs
fill xs i (suc n) = fill (set xs i 0) (i + 1) n

-- the loop that gathers a name in `u_dbuf`, with the index of `cp`; the result is the character
-- behind the name. A character of -1 is stored as 255.
unfoldable pub gather : ℕ → ℕ → ℕ → Cmd Kernel ℕ
gather zero i c = λ k. fault
gather (suc m) i c = do
  k ← get
  let rest = gather m (if leb 14 i then i else i + 1)
  if c == slash || (c == 0 || not (k.u_error == 0))
      then (modify (λ k. record k { u_dbuf = fill k.u_dbuf i (14 - i) }) >> pure c)
      else (do modify (λ k. record k { u_dbuf = set k.u_dbuf i (c % 256) }); uchar >>= rest)

-- the directory entry that starts at a byte of a buffer: `bcopy` into `u_dent`
unfoldable pub name_at : List ℕ → ℕ → ℕ → List ℕ
name_at ws o zero = []
name_at ws o (suc n) = byte_at ws o ∷ name_at ws (o + 1) n

-- the buffer given back, where there is one
abbrev pub release : Option ℕ → Cmd Kernel (Unit {0})
release none = pure tt
release (some j) = brelse j

-- `namei`: the buffer of the next entry
unfoldable pub entry_buf : ℕ → Option ℕ → Cmd Kernel ℕ
entry_buf p bp = do
  k ← get
  if k.u_offset1 % 512 == 0
      then (do release bp; b ← bmap p (k.u_offset1 / 512); bread (k.inode p).dev b)
      else elim bp [ none ↦ λ k. fault | some j ↦ pure j ]

-- `namei`: the entry is copied, and the offset and the count moved behind it.
abbrev pub with_entry : ℕ → Kernel → Kernel
with_entry j k =
    let ws = (k.buf j).data_words in
    let o = k.u_offset1 % 512 in
    record k {
      u_dent_ino = get_or ws (o / 2) 0;
      u_dent_name = name_at ws (o + 2) 14;
      u_offset1 = (k.u_offset1 + 16) % 65536;
      u_count = (k.u_count + 65535) % 65536;
    }

-- the loop that compares the names
unfoldable pub same_name : List ℕ → List ℕ → Bool
same_name [] ys = true
same_name (x ∷ xs) [] = true
same_name (x ∷ xs) (y ∷ ys) = x == y && same_name xs ys

-- where the search of a directory ends: behind the last entry, with the end of the first empty entry
-- or 0, or at the entry in `u_dent`
pub data Found : Type 0 where
  missing : ℕ → Found
  present : Found

abbrev pub is_match : Kernel → Bool
is_match k = not (k.u_dent_ino == 0) && same_name k.u_dbuf k.u_dent_name

-- the end of the first empty entry
abbrev pub empty_end : ℕ → Kernel → ℕ
empty_end eo k = if k.u_dent_ino == 0 && eo == 0 then k.u_offset1 else eo

-- `namei` from the label `eloop` on, with `u_count` entries left
unfoldable pub search_dir : ℕ → ℕ → Option ℕ → ℕ → Cmd Kernel Found
search_dir zero p bp eo = do release bp; pure (missing eo)
search_dir (suc n) p bp eo = do
  j ← entry_buf p bp
  modify (with_entry j)
  k ← get
  let rest = search_dir n p (some j) (empty_end eo k)
  if is_match k then (brelse j >> pure present) else rest

-- `namei` at the label `out`
unfoldable pub give_up : ℕ → Cmd Kernel (Option ℕ)
give_up p = do iput p; pure none

-- `namei`: the name was not found. The flag is 1 where it is to be created.
unfoldable pub not_found : ℕ → ℕ → ℕ → ℕ → Cmd Kernel (Option ℕ)
not_found flag p c eo = if not (flag == 1 && c == 0) then (error enoent >> give_up p) else (do
  refused ← access p iwrite
  if refused then give_up p else (do
    modify (λ k. record k { u_pdir = p })
    if eo == 0
        then on_inode p (λ x. record x { upd = true })
        else modify (λ k. record k { u_offset1 = eo - 16 })
    pure none))

-- `namei`: an entry was found, and the path ends there or goes on with `rest`. The flag is 2 where the
-- name is to be deleted.
unfoldable pub next_component : (ℕ → ℕ → Cmd Kernel (Option ℕ)) → ℕ → ℕ → ℕ → Cmd Kernel (Option ℕ)
next_component rest flag p c =
    if flag == 2 && c == 0
    then (do refused ← access p iwrite; if refused then give_up p else pure (some p))
    else (do
      k ← get
      iput p
      k' ← get
      q ← iget (k.inode p).dev k'.u_dent_ino
      elim q [ none ↦ pure none | some q ↦ rest q c ])

-- `namei` at the label `cloop`, with `m` components left
unfoldable pub walk : ℕ → ℕ → ℕ → ℕ → Cmd Kernel (Option ℕ)
walk zero flag p c = λ k. fault
walk (suc m) flag p c = do
  k ← get
  let rest = walk m flag
  if not (k.u_error == 0)
      then give_up p
      else (if c == 0
          then pure (some p)
          else (if not (is_dir (k.inode p)) then (error enotdir >> give_up p) else (do
            refused ← access p iexec
            if refused then give_up p else (do
              end ← gather 65536 0 c
              c' ← skip_slashes 65536 end
              k' ← get
              if not (k'.u_error == 0) then give_up p else (do
                let n = (k'.inode p).size1 / 16
                modify (λ k. record k { u_offset1 = 0; u_offset0 = 0; u_count = n })
                found ← search_dir n p none 0
                elim found [
                  | missing eo ↦ not_found flag p c' eo
                  | present ↦ next_component rest flag p c'
                ])))))

-- `namei`; the flag is 0 where the name is sought
unfoldable pub namei : ℕ → Cmd Kernel (Option ℕ)
namei flag = do
  k ← get
  c ← uchar
  let p = if c == slash then k.rootdir else k.u_cdir
  iget (k.inode p).dev (k.inode p).number
  c' ← skip_slashes 65536 c
  if c' == 0 && not (flag == 0) then (error enoent >> give_up p) else walk 65536 flag p c'
