-- ===== src/Kernel/Iget/Bmap.antt =====
-- `bmap` of src/sys/subr.c: the block of a file, which is allocated where there is none.
pub mod Lookup
pub mod Allocate
use bkunix.Prelude.{ℕ, ◌+◌, ◌/◌, ◌%◌, bit_and, true, none, some, ◌++◌, not}
use bkunix.Prelude.Tests.{leb, ◌==◌, if◌then◌else◌}
use bkunix.Prelude.Lists.{get_or, set, drop, replicate}
use bkunix.Prelude.Run.{Cmd, pure, ◌>>=◌, ◌>>◌, get, modify}
use bkunix.Kernel.State.{Kernel}
use bkunix.Kernel.Bio.{on_buf, brelse, bdwrite, bread}
use bkunix.Kernel.Alloc.{alloc}
use bkunix.Kernel.Iget.{on_inode}

-- `EFBIG`
abbrev efbig : ℕ
efbig = 27

-- `bmap`: the rest behind the buffer `j` of the indirect block
unfoldable pub map_indirect : ℕ → ℕ → ℕ → Cmd Kernel ℕ
map_indirect dev j i = do
  k ← get
  let nb = get_or (k.buf j).data_words i 0
  if not (nb == 0) then (brelse j >> pure nb) else (do
    new ← alloc dev
    elim new [
      | none ↦ (brelse j >> pure 0)
      | some j' ↦ (do
        k' ← get
        let b = (k'.buf j').blkno
        on_buf j (λ x. record x { data_words = set x.data_words i b })
        bdwrite j'
        bdwrite j
        pure b)
    ])

-- `bmap` from the label `large` on
unfoldable pub map_large : ℕ → ℕ → Cmd Kernel ℕ
map_large p bn = do
  k ← get
  let dev = (k.inode p).dev
  let nb = get_or (k.inode p).addr (bn / 256) 0
  if not (nb == 0) then (bread dev nb >>= λ j. map_indirect dev j (bn % 256)) else (do
    on_inode p (λ x. record x { upd = true })
    new ← alloc dev
    elim new [
      | none ↦ pure 0
      | some j ↦ (do
        k' ← get
        on_inode p (λ x. record x { addr = set x.addr (bn / 256) (k'.buf j).blkno })
        map_indirect dev j (bn % 256))
    ])

-- `bmap`: the addresses of a small file are moved into an indirect block.
unfoldable pub enlarge : ℕ → ℕ → Cmd Kernel ℕ
enlarge p bn = do
  k ← get
  new ← alloc (k.inode p).dev
  elim new [
    | none ↦ pure 0
    | some j ↦ (do
      k' ← get
      on_buf j (λ b. record b { data_words = (k'.inode p).addr ++ drop 8 b.data_words })
      on_inode p (λ x. record x { addr = set (replicate 8 0) 0 (k'.buf j).blkno })
      bdwrite j
      on_inode p (λ x. record x { mode = x.mode + 4096 })
      map_large p bn)
  ]

-- `bmap` of a small file
unfoldable pub map_small : ℕ → ℕ → Cmd Kernel ℕ
map_small p bn = do
  k ← get
  let nb = get_or (k.inode p).addr bn 0
  if not (nb == 0) then pure nb else (do
    new ← alloc (k.inode p).dev
    elim new [
      | none ↦ pure 0
      | some j ↦ (do
        bdwrite j
        k' ← get
        let b = (k'.buf j).blkno
        on_inode p (λ x. record x { addr = set x.addr bn b; upd = true })
        pure b)
    ])

-- `bmap`, of the inode `p` and the block `bn` of the file; 0174000 is 63488, and a block number below
-- it that is not one of 2048 is too large
unfoldable pub bmap : ℕ → ℕ → Cmd Kernel ℕ
bmap p bn = do
  k ← get
  if leb 2048 bn
      then (modify (λ k. record k { u_error = efbig }) >> pure 0)
      else if not (bit_and (k.inode p).mode 4096 == 0)
      then map_large p bn
      else if leb 8 bn
      then enlarge p bn
      else map_small p bn
