-- ===== src/Kernel/Bio.antt =====
-- src/sys/bio.c: the buffer cache. The driver's `fdstrategy` and the sleep in `iowait` are one
-- transfer, which is finished when the caller goes on. `fault` is `panic()`.
pub mod Order
pub mod Search
pub mod Cache
pub mod Replace
pub mod Transfer
pub mod Keep
pub mod View
pub mod Access
pub mod Obtain
pub mod Release
pub mod Flush
pub mod Start
pub mod Cycle
pub mod Sized
pub mod Recent
use bkunix.Prelude.{
  ℕ, zero, suc, ◌+◌, Bool, true, false, Option, none, some, List, [], ◌∷◌, not, ◌||◌, ◌&&◌,
}
use bkunix.Prelude.Tests.{leb, ◌==◌, if◌then◌else◌}
use bkunix.Prelude.Lists.{get_or, set, replicate}
use bkunix.Prelude.Run.{ok, fault, Cmd, pure, ◌>>=◌, ◌>>◌, get, modify}
use bkunix.Kernel.State.{Buf, Medium, Kernel, nbuf, nodev, eio}

-- an array with the element at one index replaced
abbrev pub put : {A : Type 0} → (ℕ → A) → ℕ → A → ℕ → A
put f j a i = if i == j then a else f i

abbrev pub panic : {A : Type 0} → Cmd Kernel A
panic k = fault

abbrev pub set_buf : ℕ → Buf → Kernel → Kernel
set_buf j b k = record k { buf = put k.buf j b }

-- an assignment to fields of the buffer `j`
abbrev pub on_buf : ℕ → (Buf → Buf) → Cmd Kernel (Unit {0})
on_buf j f = modify (λ k. set_buf j (f (k.buf j)) k)

-- whether the driver carries a transfer out: the block is on the diskette and is not bad
abbrev pub goes_well : Kernel → Buf → Bool
goes_well k b = not (leb 500 b.blkno) && not (k.medium.bad b.dev b.blkno)

-- a block of the medium written
abbrev pub write_medium : ℕ → ℕ → List ℕ → Medium → Medium
write_medium d n xs m = record m {
  contents = λ d' n'. if d' == d && n' == n then xs else m.contents d' n';
}

-- `fdstrategy`, with its interrupts up to the last, of which the flags tell the direction
unfoldable pub fdstrategy : ℕ → Cmd Kernel (Unit {0})
fdstrategy j k =
    let b = k.buf j in
    if not (goes_well k b)
    then ok tt (
        set_buf j
          (record b {
            done = true;
            error = true;
            data_words = if b.rd && not (leb 500 b.blkno) then k.medium.junk else b.data_words;
          })
          k)
    else if b.rd
    then ok tt
        (set_buf j (record b { done = true; data_words = k.medium.contents b.dev b.blkno }) k)
    else ok tt (record (set_buf j (record b { done = true }) k) {
      medium = write_medium b.dev b.blkno b.data_words k.medium;
    })

-- `iowait`, once the transfer is done
unfoldable pub iowait : ℕ → Cmd Kernel (Unit {0})
iowait j k =
    if (k.buf j).error
    then ok tt (record k { u_error = if (k.buf j).err == 0 then eio else (k.buf j).err })
    else ok tt k

-- `brelse`
unfoldable pub brelse : ℕ → Cmd Kernel (Unit {0})
brelse j = on_buf j (λ b. record b { busy = false })

-- `bwrite`
unfoldable pub bwrite : ℕ → Cmd Kernel (Unit {0})
bwrite j = do
  on_buf j (λ b. record b { rd = false; done = false; error = false; delwri = false })
  fdstrategy j
  iowait j
  brelse j

-- `bdwrite`
unfoldable pub bdwrite : ℕ → Cmd Kernel (Unit {0})
bdwrite j = do on_buf j (λ b. record b { delwri = true; done = true }); brelse j

-- where the search of `getblk` ends: at the block, at the last buffer that is not busy, or at none
pub data Place : Type 0 where
  hit : ℕ → Place
  reuse : ℕ → Place
  full : Place

-- the place that the pointer `bdp` names behind the loop
abbrev pub left_at : Option ℕ → Place
left_at none = full
left_at (some i) = reuse i

-- the test of `getblk` for the block
abbrev pub has_block : ℕ → ℕ → Buf → Bool
has_block dev blkno b = not (dev == nodev) && (b.blkno == blkno && b.dev == dev)

-- the loop of `getblk` over the rest of `bufp`, whose first entry has index `i`
unfoldable pub search_bufs : (ℕ → Buf) → ℕ → ℕ → List ℕ → ℕ → Option ℕ → Place
search_bufs buf dev blkno [] i bdp = left_at bdp
search_bufs buf dev blkno (j ∷ rest) i bdp =
    if has_block dev blkno (buf j)
    then hit i
    else search_bufs buf dev blkno rest (i + 1) (if (buf j).busy then bdp else some i)

-- `while (bdp > &bufp[0]) *--bdp2 = *--bdp`, with `i` entries left to move up
unfoldable pub move_up : ℕ → List ℕ → List ℕ
move_up zero xs = xs
move_up (suc i) xs = move_up i (set xs (suc i) (get_or xs i 0))

-- `getblk` from the label `fnd` on, at the entry `i` of `bufp`
unfoldable pub claim : ℕ → Cmd Kernel ℕ
claim i = do
  k ← get
  let j = get_or k.bufp i 0
  modify (λ k. record k { bufp = set (move_up i k.bufp) 0 j })
  on_buf j (λ b. record b { busy = true })
  pure j

-- `getblk`: the buffer `j` is given up for another block.
unfoldable pub reassign : ℕ → ℕ → ℕ → Cmd Kernel (Unit {0})
reassign dev blkno j = do
  k ← get
  if (k.buf j).delwri then bwrite j else pure tt
  on_buf j (λ b. record b {
    rd = false;
    done = false;
    error = false;
    busy = false;
    delwri = false;
    blkno = blkno;
    dev = dev;
  })

-- `getblk` behind its loop
unfoldable pub take_place : ℕ → ℕ → Place → Cmd Kernel ℕ
take_place dev blkno full = panic
take_place dev blkno (hit i) = claim i
take_place dev blkno (reuse i) = do k ← get; reassign dev blkno (get_or k.bufp i 0); claim i

-- `getblk`
unfoldable pub getblk : ℕ → ℕ → Cmd Kernel ℕ
getblk dev blkno = do k ← get; take_place dev blkno (search_bufs k.buf dev blkno k.bufp 0 none)

-- `bread`
unfoldable pub bread : ℕ → ℕ → Cmd Kernel ℕ
bread dev blkno = do
  j ← getblk dev blkno
  k ← get
  if (k.buf j).done
      then pure j
      else (do on_buf j (λ b. record b { rd = true }); fdstrategy j; iowait j; pure j)

-- `clrbuf`
unfoldable pub clrbuf : ℕ → Cmd Kernel (Unit {0})
clrbuf j = on_buf j (λ b. record b { data_words = replicate 256 0 })

-- the loop of `binit`, over buffers whose other fields are still those of cleared memory
unfoldable pub init_bufs : ℕ → ℕ → Cmd Kernel (Unit {0})
init_bufs zero i = pure tt
init_bufs (suc n) i = do
  modify (λ k. record k { bufp = set k.bufp i i })
  on_buf i (λ b. record b { dev = nodev })
  init_bufs n (i + 1)

-- `binit`
unfoldable pub binit : Cmd Kernel (Unit {0})
binit = init_bufs nbuf 0

-- the loop of `bflush`, with `n` buffers left
unfoldable pub flush_bufs : ℕ → ℕ → ℕ → Cmd Kernel (Unit {0})
flush_bufs dev zero j = pure tt
flush_bufs dev (suc n) j = do
  k ← get
  if (k.buf j).delwri && (dev == nodev || dev == (k.buf j).dev) then bwrite j else pure tt
  flush_bufs dev n (j + 1)

-- `bflush`
unfoldable pub bflush : ℕ → Cmd Kernel (Unit {0})
bflush dev = flush_bufs dev nbuf 0
