-- ===== src/Kernel/Sys/Open.antt =====
-- `open`, `creat` and `open1` of src/sys/sys2.c, with `openi` of src/sys/fio.c. The path of a call
-- stands at `u_dirp`.
use bkunix.Prelude.{ℕ, ◌+◌, ◌%◌, bit_and, Option, none, some, not, ◌&&◌}
use bkunix.Prelude.Tests.{◌==◌, if◌then◌else◌}
use bkunix.Prelude.Lists.{get_or, set}
use bkunix.Prelude.Run.{Cmd, pure, ◌>>=◌, ◌>>◌, get, modify}
use bkunix.Kernel.State.{Kernel}
use bkunix.Kernel.Alloc.{s_lt}
use bkunix.Kernel.Iget.{iput, itrunc}
use bkunix.Kernel.Files.{error, load_file, store_file, set_ofile, falloc}
use bkunix.Kernel.Rdwr.{is_char, is_dir}
use bkunix.Kernel.Names.{iwrite, access, namei}
use bkunix.Kernel.Dirs.{maknode}

-- `EISDIR` and `IREAD`
abbrev eisdir : ℕ
eisdir = 21

abbrev iread : ℕ
iread = 256

-- `open1`: the permissions; what `access` returns is not looked at.
unfoldable pub check_mode : ℕ → ℕ → Cmd Kernel (Unit {0})
check_mode p m = do
  if bit_and m 1 == 0 then pure tt else (access p iread >> pure tt)
  if bit_and m 2 == 0
      then pure tt
      else (do access p iwrite; k ← get; if is_dir (k.inode p) then error eisdir else pure tt)

-- The functions of the terminal driver `klopen` and `ttwrite`, and the address of `u_dent`, are
-- parameters of the section.
module _ (klopen ttwrite : Cmd Kernel (Unit {0})) (dent : ℕ) where
  -- `openi`
  unfoldable pub openi : ℕ → Cmd Kernel (Unit {0})
  openi p k = (if is_char (k.inode p) then klopen else pure tt) k

  -- `open1` behind `openi`, with the entry `f` of the table of files and the descriptor `i`
  unfoldable pub opened : ℕ → ℕ → ℕ → ℕ → Cmd Kernel (Unit {0})
  opened p mode f i = do
    k ← get
    if s_lt mode 4 && k.u_error == 0 then pure tt else (do
      set_ofile i none
      if s_lt mode 4
          then iput p
          else (do x ← load_file f; store_file f (record x { count = (x.count + 255) % 256 })))

  -- `open1` behind `falloc`
  unfoldable pub use_file : ℕ → ℕ → Option ℕ → Cmd Kernel (Unit {0})
  use_file p mode none = iput p
  use_file p mode (some f) = do
    x ← load_file f
    store_file f (record x { flag = bit_and mode 3; inode = p })
    k ← get
    openi p
    opened p mode f k.u_r0

  -- `open1`
  unfoldable pub open1 : ℕ → ℕ → ℕ → Cmd Kernel (Unit {0})
  open1 p mode trf = do
    if trf == 2 then pure tt else check_mode p mode
    k ← get
    if not (k.u_error == 0)
        then iput p
        else (do if trf == 0 then pure tt else itrunc p; falloc >>= use_file p mode)

  -- `open`
  unfoldable pub open_call : Cmd Kernel (Unit {0})
  open_call = do
    found ← namei 0
    elim found [
      | none ↦ pure tt
      | some p ↦ (do
        modify (λ k. record k { u_arg = set k.u_arg 1 ((get_or k.u_arg 1 0 + 1) % 65536) })
        k ← get
        open1 p (get_or k.u_arg 1 0) 0)
    ]

  -- `creat` of a name that `namei` did not find
  unfoldable pub create : Cmd Kernel (Unit {0})
  create = do
    k ← get
    if not (k.u_error == 0) then pure tt else (do
      made ← maknode ttwrite dent (bit_and (get_or k.u_arg 1 0) 4095)
      elim made [ none ↦ pure tt | some p ↦ open1 p 2 2 ])

  -- `creat`
  unfoldable pub creat : Cmd Kernel (Unit {0})
  creat = do found ← namei 1; elim found [ none ↦ create | some p ↦ open1 p 2 1 ]
