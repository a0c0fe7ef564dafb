-- ===== src/Kernel/Files.antt =====
-- The open files: src/sys/fio.c, `close` of src/sys/sys2.c and `dup` of src/sys/sys3.c. The
-- registers that a system call reads and sets are the fields `u_r0` and `u_arg`.
pub mod Counts
pub mod Steps
pub mod Calls
pub mod Close
pub mod Seek
use bkunix.Prelude.{
  ℕ, zero, suc, ◌+◌, ◌-◌, ◌*◌, ◌/◌, ◌%◌, bit_and, Bool, true, false, Option, none, some, List, [],
  ◌∷◌, not, ◌||◌, ◌&&◌,
}
use bkunix.Prelude.Tests.{leb, ◌==◌, if◌then◌else◌}
use bkunix.Prelude.Lists.{get_or, set}
use bkunix.Prelude.Run.{Cmd, pure, ◌>>=◌, ◌>>◌, get, modify}
use bkunix.Kernel.State.{Inode, File, Kernel, nofile, ebadf, emfile, enfile}
use bkunix.Kernel.Alloc.{s_lt, or_panic}
use bkunix.Kernel.Iget.{iput}

abbrev pub error : ℕ → Cmd Kernel (Unit {0})
error e = modify (λ k. record k { u_error = e })

-- an entry of the table of files, where there is one
unfoldable pub file_at : List File → ℕ → Option File
file_at [] i = none
file_at (f ∷ fs) zero = some f
file_at (f ∷ fs) (suc i) = file_at fs i

abbrev pub set_file : ℕ → File → Kernel → Kernel
set_file i f k = record k { file = set k.file i f }

abbrev pub load_file : ℕ → Cmd Kernel File
load_file i k = or_panic (file_at k.file i) k

abbrev pub store_file : ℕ → File → Cmd Kernel (Unit {0})
store_file i f = modify (set_file i f)

-- what was found, or an error
abbrev pub or_error : ℕ → Option ℕ → Cmd Kernel (Option ℕ)
or_error e none = error e >> pure none
or_error e (some x) = pure (some x)

-- the entry of the table of files of a descriptor, a signed word
unfoldable pub open_file : List (Option ℕ) → ℕ → Option ℕ
open_file xs fd = if s_lt fd 0 || not (s_lt fd nofile) then none else get_or xs fd none

-- `getf`
unfoldable pub getf : ℕ → Cmd Kernel (Option ℕ)
getf fd k = or_error ebadf (open_file k.u_ofile fd) k

-- the loop of `ufalloc`, with the rest of the descriptors from `i` on
unfoldable pub first_closed : List (Option ℕ) → ℕ → Option ℕ
first_closed [] i = none
first_closed (none ∷ rest) i = some i
first_closed (some f ∷ rest) i = first_closed rest (i + 1)

-- `ufalloc` behind its loop
unfoldable pub use_slot : Option ℕ → Cmd Kernel (Option ℕ)
use_slot none = error emfile >> pure none
use_slot (some i) = modify (λ k. record k { u_r0 = i }) >> pure (some i)

-- `ufalloc`; `none` is the result -1
unfoldable pub ufalloc : Cmd Kernel (Option ℕ)
ufalloc k = use_slot (first_closed k.u_ofile 0) k

-- the loop of `falloc`, with the rest of the table of files from `i` on
unfoldable pub first_unused : List File → ℕ → Option ℕ
first_unused [] i = none
first_unused (f ∷ rest) i = if f.count == 0 then some i else first_unused rest (i + 1)

abbrev pub set_ofile : ℕ → Option ℕ → Cmd Kernel (Unit {0})
set_ofile i f = modify (λ k. record k { u_ofile = set k.u_ofile i f })

-- `f_count++`, in a byte
abbrev pub referred : File → File
referred f = record f { count = (f.count + 1) % 256 }

-- `falloc` behind its loop, with the descriptor that `ufalloc` found
unfoldable pub take_file : ℕ → Option ℕ → Cmd Kernel (Option ℕ)
take_file i none = error enfile >> pure none
take_file i (some f) = do
  x ← load_file f
  set_ofile i (some f)
  store_file f (record (referred x) { offset0 = 0; offset1 = 0 })
  pure (some f)

-- `falloc` behind `ufalloc`
unfoldable pub in_slot : Option ℕ → Cmd Kernel (Option ℕ)
in_slot none = pure none
in_slot (some i) = λ k. take_file i (first_unused k.file 0) k

-- `falloc`
unfoldable pub falloc : Cmd Kernel (Option ℕ)
falloc = ufalloc >>= in_slot

-- a count, a signed byte, compared with 1
unfoldable pub at_most_1 : ℕ → Bool
at_most_1 n = leb n 1 || leb 128 n

-- The functions of the terminal driver `klclose` and `klopen` are the parameter of the section.
module _ (klclose : Cmd Kernel (Unit {0})) where
  -- `closei`; 060000 is 24576 and `IFCHR` is 8192
  unfoldable pub closei : ℕ → Cmd Kernel (Unit {0})
  closei ip = do
    k ← get
    if at_most_1 (k.inode ip).count && bit_and (k.inode ip).mode 24576 == 8192
        then klclose
        else pure tt
    iput ip

  -- `closef`
  unfoldable pub closef : ℕ → Cmd Kernel (Unit {0})
  closef f = do
    x ← load_file f
    if at_most_1 x.count then closei x.inode else pure tt
    y ← load_file f
    store_file f (record y { count = (y.count + 255) % 256 })

  -- `close` behind `getf`
  unfoldable pub close_file : ℕ → Option ℕ → Cmd Kernel (Unit {0})
  close_file fd none = pure tt
  close_file fd (some f) = do set_ofile fd none; closef f

  -- `close`
  unfoldable pub close : Cmd Kernel (Unit {0})
  close k = (getf k.u_r0 >>= close_file k.u_r0) k

-- `dup` behind `ufalloc`
unfoldable pub copy_to : ℕ → Option ℕ → Cmd Kernel (Unit {0})
copy_to f none = pure tt
copy_to f (some i) = do set_ofile i (some f); x ← load_file f; store_file f (referred x)

-- `dup` behind `getf`
unfoldable pub copy_of : Option ℕ → Cmd Kernel (Unit {0})
copy_of none = pure tt
copy_of (some f) = ufalloc >>= copy_to f

-- `dup`
unfoldable pub dup : Cmd Kernel (Unit {0})
dup k = (getf k.u_r0 >>= copy_of) k
