-- ===== src/Kernel/Sys/Read.antt =====
-- `read` and `write` of an open file of which the inode is a plain file or a directory.
use bkunix.Prelude.{ℕ, ◌+◌, ◌-◌, ◌%◌, ◌≤◌, ◌<◌, ◌≡◌, ◌≢◌, refl, ap, ap₂, ◌∙◌, some, bit_and, arith}
use bkunix.Prelude.Tests.{ne→==}
use bkunix.Prelude.Lists.{get_or}
use bkunix.Prelude.Run.{Cmd, ok, and_then}
use bkunix.Kernel.State.{File, Kernel, ebadf}
use bkunix.Kernel.Bio.View.{Blocks, Represents, Represents-beside, beside}
use bkunix.Kernel.Files.{or_error, open_file, getf, file_at, set_file}
use bkunix.Kernel.Files.Steps.{load_file_lem}
use bkunix.Kernel.Wide.{wide}
use bkunix.Kernel.Iomove.Progress.{progress}
use bkunix.Kernel.Rdwr.{readi, writei}
use bkunix.Kernel.Rdwr.Read.{Readable, to_read, from_offset}
use bkunix.Kernel.Rdwr.Read.Loop.{readi_lem}
use bkunix.Kernel.Rdwr.Wrote.{Wrote}
use bkunix.Kernel.Rdwr.Size.{behind}
use bkunix.Kernel.Rdwr.Buffer.{given_bytes}
use bkunix.Kernel.Rdwr.Write.{Writable}
use bkunix.Kernel.Rdwr.Write.Loop.{writei_lem}
use bkunix.Kernel.Sys.{called, shifted_file, done_count, account, rdwr_file, rdwr, read, write}

-- the state behind the transfer of `n` bytes, with the file `f`, `x` before it, and the result
abbrev pub accounted : ℕ → File → ℕ → Kernel → Kernel
accounted f x n k = record (set_file f (shifted_file n x) k) { u_r0 = n }

account_lem :
    (k : Kernel) (f n : ℕ) (x : File)
    → file_at k.file f ≡ some x
    → done_count k ≡ n
    → account f k ≡ ok tt (accounted f x n k)
unfolding account
account_lem k f n x at e = rw (load_file_lem k f x at) (ap (λ t. ok tt (accounted f x t k)) e)

module _ (ttread ttwrite : Cmd Kernel (Unit {0})) (k : Kernel) (f : ℕ) (x : File)
    (is_open : open_file k.u_ofile k.u_r0 ≡ some f) (at : file_at k.file f ≡ some x) where
  read_call :
      (k1 : Kernel)
      → bit_and x.flag 1 ≢ 0
      → readi ttread x.inode (called x k) ≡ ok tt k1
      → read ttread ttwrite k ≡ account f k1
  unfolding read rdwr rdwr_file getf
  read_call k1 allowed call =
      ap (λ s. and_then (or_error ebadf s k) (rdwr_file ttread ttwrite 1)) is_open
      ∙ rw (load_file_lem k f x at, ne→== (bit_and x.flag 1) 0 allowed, call) refl

  write_call :
      (k1 : Kernel)
      → bit_and x.flag 2 ≢ 0
      → writei ttwrite x.inode (called x k) ≡ ok tt k1
      → write ttread ttwrite k ≡ account f k1
  unfolding write rdwr rdwr_file getf
  write_call k1 allowed call =
      ap (λ s. and_then (or_error ebadf s k) (rdwr_file ttread ttwrite 2)) is_open
      ∙ rw (load_file_lem k f x at, ne→== (bit_and x.flag 2) 0 allowed, call) refl

  -- Both end in `account`.
  account_behind :
      (k1 k2 : Kernel) (n : ℕ)
      → k1 ≡ beside k1 k2
      → k2.file ≡ k.file
      → k2.u_arg ≡ k.u_arg
      → k2.u_count ≡ get_or k.u_arg 1 0 - n
      → n ≤ get_or k.u_arg 1 0
      → get_or k.u_arg 1 0 < 65536
      → (account f k1 ≡ ok tt (accounted f x n k1))
        × (accounted f x n k1 ≡ beside (accounted f x n k1) (accounted f x n k2))
  account_behind k1 k2 n same files args count few small =
      let counted : done_count k1 ≡ n =
        ap done_count same
        ∙ ap₂ (λ xs c. (get_or xs 1 0 + 65536 - c) % 65536) args count
        ∙ omega arith in
      (
        account_lem k1 f n x
            (ap (λ (t : Kernel). file_at t.file f) same ∙ ap (λ t. file_at t f) files ∙ at) counted,
        ap (accounted f x n) same,
      )

  -- In a state that represents the blocks `a`, `read` of a descriptor that is open for reading, of a
  -- plain file or a directory that has all blocks of its size, with memory and offset that the call
  -- fits in, ends: the bytes of the file from the offset of the open file on stand in the memory at the
  -- first argument, as many as are asked for or as the file has; the result is their number, the offset
  -- of the open file moves by it, and no block and none of the other tables changes.
  pub read_lem :
      (a : Blocks)
      → bit_and x.flag 1 ≢ 0
      → Readable (called x k) a x.inode
      → let n = to_read (called x k) (k.inode x.inode) in
        let bytes = from_offset a (called x k) (k.inode x.inode) in
        (k' : Kernel) × (read ttread ttwrite k ≡ ok tt k')
        × Represents k' a
        × (k' ≡ beside k' (accounted f x n (progress bytes n (called x k))))
        × (wide (shifted_file n x).offset0 (shifted_file n x).offset1
            ≡ wide x.offset0 x.offset1 + n)
  read_lem a allowed h =
      let n = to_read (called x k) (k.inode x.inode) in
      let bytes = from_offset a (called x k) (k.inode x.inode) in
      let (k1, call, r, same) = readi_lem ttread (called x k) a x.inode h in
      let (done, same') =
        account_behind k1 (progress bytes n (called x k)) n same refl refl refl (omega arith)
          h.fits.count in
      (
        accounted f x n k1,
        read_call k1 allowed call ∙ done,
        Represents-beside k1 (accounted f x n k1) r,
        same',
        omega (arith, h.fits.offset, h.fits.low),
      )

  -- In a state that represents the blocks `a`, `write` of a descriptor that is open for writing, of a
  -- plain file or a directory that has all blocks of what is written, none of them twice, with memory
  -- and offset that the call fits in, and of one byte or more, ends: the file has the bytes of the
  -- process at the offset of the open file and keeps its others, no other block changes, the result
  -- is the number of bytes, and the offset of the open file moves by it.
  pub write_lem :
      (a : Blocks)
      → bit_and x.flag 2 ≢ 0
      → Writable (called x k) a x.inode
      → 0 < get_or k.u_arg 1 0
      → let n = get_or k.u_arg 1 0 in
        (k' : Kernel) × (a' : Blocks) × (write ttread ttwrite k ≡ ok tt k')
        × Represents k' a'
        × Wrote a a' (k.inode x.inode) (wide x.offset0 x.offset1) n (given_bytes (called x k))
        × (k' ≡ beside k' (accounted f x n (behind x.inode n (called x k))))
        × (wide (shifted_file n x).offset0 (shifted_file n x).offset1
            ≡ wide x.offset0 x.offset1 + n)
  write_lem a allowed h pos =
      let n = get_or k.u_arg 1 0 in
      let (k1, a1, call, r, s, w, same) = writei_lem ttwrite (called x k) a x.inode h pos in
      let (done, same') =
        account_behind k1 (behind x.inode n (called x k)) n same refl refl refl (omega arith)
          h.fits.count in
      (
        accounted f x n k1,
        a1,
        write_call k1 allowed call ∙ done,
        Represents-beside k1 (accounted f x n k1) r,
        w,
        same',
        omega (arith, h.fits.offset, h.fits.low),
      )
