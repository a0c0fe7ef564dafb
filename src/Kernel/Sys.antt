-- ===== src/Kernel/Sys.antt =====
-- The system calls of src/sys/sys2.c on open files, `read` and `write`; those on paths are in the
-- children.
pub mod Read
pub mod Open
pub mod Link
use bkunix.Prelude.{ℕ, ◌+◌, ◌-◌, ◌%◌, bit_and, Option, none, some}
use bkunix.Prelude.Tests.{◌==◌, if◌then◌else◌}
use bkunix.Prelude.Lists.{get_or}
use bkunix.Prelude.Run.{Cmd, pure, ◌>>=◌, ◌>>◌, get, modify}
use bkunix.Kernel.State.{File, Kernel, ebadf}
use bkunix.Kernel.Files.{error, getf, load_file, store_file}
use bkunix.Kernel.Wide.{dpadd_high, dpadd_low}
use bkunix.Kernel.Rdwr.{readi, writei}

-- `rdwr`: the arguments of `readi` and `writei`
abbrev pub called : File → Kernel → Kernel
called x k = record k {
  u_base = get_or k.u_arg 0 0;
  u_count = get_or k.u_arg 1 0;
  u_offset0 = x.offset0;
  u_offset1 = x.offset1;
}

-- `dpadd` of an open file's offset
abbrev pub shifted_file : ℕ → File → File
shifted_file n x = record x {
  offset0 = dpadd_high x.offset0 x.offset1 n;
  offset1 = dpadd_low x.offset1 n;
}

-- how many bytes were moved
abbrev pub done_count : Kernel → ℕ
done_count k = (get_or k.u_arg 1 0 + 65536 - k.u_count) % 65536

-- `rdwr` behind `readi` or `writei`
unfoldable pub account : ℕ → Cmd Kernel (Unit {0})
account f = do
  k ← get
  y ← load_file f
  store_file f (shifted_file (done_count k) y)
  modify (λ k. record k { u_r0 = done_count k })

-- The functions of the terminal driver are parameters of the section.
module _ (ttread ttwrite : Cmd Kernel (Unit {0})) where
  -- `rdwr` behind `getf`; `FREAD` is 1
  unfoldable pub rdwr_file : ℕ → Option ℕ → Cmd Kernel (Unit {0})
  rdwr_file m none = pure tt
  rdwr_file m (some f) = do
    x ← load_file f
    if bit_and x.flag m == 0 then error ebadf else (do
      modify (called x)
      if m == 1 then readi ttread x.inode else writei ttwrite x.inode
      account f)

  -- `rdwr`
  unfoldable pub rdwr : ℕ → Cmd Kernel (Unit {0})
  rdwr m k = (getf k.u_r0 >>= rdwr_file m) k

  -- `read`
  unfoldable pub read : Cmd Kernel (Unit {0})
  read = rdwr 1

  -- `write`; `FWRITE` is 2
  unfoldable pub write : Cmd Kernel (Unit {0})
  write = rdwr 2
