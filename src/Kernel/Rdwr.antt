-- ===== src/Kernel/Rdwr.antt =====
-- `readi` and `writei` of src/sys/rdwri.c: a file read and written block by block. Those of the
-- terminal, `ttread` and `ttwrite`, are arguments.
pub mod File
pub mod Read
pub mod Wrote
pub mod Size
pub mod Buffer
pub mod Write
pub mod Cycle
use bkunix.Prelude.{ℕ, zero, suc, ◌+◌, ◌-◌, ◌%◌, bit_and, Bool, true, false, not, ◌&&◌, min}
use bkunix.Prelude.Tests.{◌==◌, if◌then◌else◌}
use bkunix.Prelude.Lists.{get_or}
use bkunix.Prelude.Run.{Cmd, fault, pure, ◌>>=◌, ◌>>◌, get}
use bkunix.Kernel.State.{Inode, Kernel}
use bkunix.Kernel.Bio.{brelse, bwrite, bdwrite, getblk, bread}
use bkunix.Kernel.Alloc.{s_lt}
use bkunix.Kernel.Iget.{on_inode}
use bkunix.Kernel.Iget.Bmap.{bmap}
use bkunix.Kernel.Wide.{dpcmp, lshift_9}
use bkunix.Kernel.Iomove.{iomove_read, iomove_write}

-- the types of files; `IFMT` is 24576
abbrev pub is_type : ℕ → Inode → Bool
is_type t x = bit_and x.mode 24576 == t

abbrev pub is_char : Inode → Bool
is_char = is_type 8192

abbrev pub is_block : Inode → Bool
is_block = is_type 24576

abbrev pub is_dir : Inode → Bool
is_dir = is_type 16384

-- how many bytes of the block a round moves at most
abbrev pub room : Kernel → ℕ
room k = min (512 - k.u_offset1 % 512) k.u_count

-- `readi`: one block is read; the result tells that the loop did not return.
unfoldable pub read_block : ℕ → ℕ → ℕ → ℕ → Cmd Kernel Bool
read_block dev bn on n = do j ← bread dev bn; iomove_read j on n; brelse j; pure true

-- `readi` behind `bmap`
unfoldable pub read_mapped : ℕ → ℕ → ℕ → ℕ → Cmd Kernel Bool
read_mapped p on n bn = do
  k ← get
  if bn == 0 then pure false else read_block (k.inode p).dev bn on n

-- the body of the loop of `readi`
unfoldable pub read_round : ℕ → Cmd Kernel Bool
read_round p = do
  k ← get
  let x = k.inode p
  let bn = lshift_9 k.u_offset0 k.u_offset1
  let on = k.u_offset1 % 512
  let dn = dpcmp (x.size0 % 256) x.size1 k.u_offset0 k.u_offset1
  if is_block x
      then read_block (get_or x.addr 0 0) bn on (room k)
      else if not (s_lt 0 dn)
      then pure false
      else bmap p bn >>= read_mapped p on (min (room k) dn)

-- the test at the end of the loops
abbrev pub goes_on : Kernel → Bool
goes_on k = k.u_error == 0 && not (k.u_count == 0)

-- the loop of `readi`, with `f` rounds left
unfoldable pub read_loop : ℕ → ℕ → Cmd Kernel (Unit {0})
read_loop zero p = λ k. fault
read_loop (suc f) p = do
  went ← read_round p
  k ← get
  let rest = read_loop f p
  if went && goes_on k then rest else pure tt

-- `readi`; each round but the last moves a byte or more
unfoldable pub readi : Cmd Kernel (Unit {0}) → ℕ → Cmd Kernel (Unit {0})
readi ttread p k =
    (if k.u_count == 0
        then pure tt
        else if is_char (k.inode p)
        then ttread
        else read_loop k.u_count p)
      k

-- `writei` behind `iomove`: the buffer is given back
unfoldable pub give_back : ℕ → Cmd Kernel (Unit {0})
give_back j k =
    (if not (k.u_error == 0)
        then brelse j
        else if k.u_offset1 % 512 == 0
        then bwrite j
        else bdwrite j)
      k

-- the size of the inode behind a round of `writei`
abbrev pub grown : Kernel → Inode → Inode
grown k x =
    if s_lt (dpcmp (x.size0 % 256) x.size1 k.u_offset0 k.u_offset1) 0 && bit_and x.mode 8192 == 0
    then record x { size0 = k.u_offset0 % 256; size1 = k.u_offset1 }
    else x

-- `writei`: one block is written
unfoldable pub write_block : ℕ → ℕ → ℕ → ℕ → ℕ → Cmd Kernel Bool
write_block p dev bn on n = do
  j ← (if n == 512 then getblk dev bn else bread dev bn)
  iomove_write j on n
  give_back j
  k ← get
  on_inode p (grown k)
  on_inode p (λ x. record x { upd = true })
  pure true

-- `writei` behind `bmap`
unfoldable pub write_mapped : ℕ → ℕ → ℕ → ℕ → Cmd Kernel Bool
write_mapped p on n bn = do
  k ← get
  if bn == 0 then pure false else write_block p (k.inode p).dev bn on n

-- the body of the loop of `writei`
unfoldable pub write_round : ℕ → Cmd Kernel Bool
write_round p = do
  k ← get
  let x = k.inode p
  let bn = lshift_9 k.u_offset0 k.u_offset1
  let on = k.u_offset1 % 512
  if is_block x
      then write_block p (get_or x.addr 0 0) bn on (room k)
      else bmap p bn >>= write_mapped p on (room k)

-- the loop of `writei`, with `f` rounds left
unfoldable pub write_loop : ℕ → ℕ → Cmd Kernel (Unit {0})
write_loop zero p = λ k. fault
write_loop (suc f) p = do
  went ← write_round p
  k ← get
  let rest = write_loop f p
  if went && goes_on k then rest else pure tt

-- `writei`
unfoldable pub writei : Cmd Kernel (Unit {0}) → ℕ → Cmd Kernel (Unit {0})
writei ttwrite p k =
    (if is_char (k.inode p)
        then ttwrite
        else if k.u_count == 0
        then pure tt
        else write_loop k.u_count p)
      k
