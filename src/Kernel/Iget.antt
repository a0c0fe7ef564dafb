-- ===== src/Kernel/Iget.antt =====
-- src/sys/iget.c: the table of inodes in core, and the inode list on the diskette behind it.
-- The child modules have `iget`, and the functions of src/sys/alloc.c and subr.c that use inodes.
pub mod Lookup
pub mod Words
pub mod Store
pub mod Refs
pub mod Update
pub mod Bmap
use bkunix.Prelude.{
  ℕ, zero, suc, ◌+◌, ◌-◌, ◌*◌, ◌/◌, ◌%◌, bit_and, Bool, true, false, Option, none, some, List, [],
  ◌∷◌, ◌++◌, not, ◌||◌, ◌&&◌,
}
use bkunix.Prelude.Tests.{ltb, leb, ◌==◌, if◌then◌else◌}
use bkunix.Prelude.Lists.{get_or, set, take, drop, replicate, length}
use bkunix.Prelude.Run.{fault, Cmd, pure, ◌>>=◌, ◌>>◌, get, modify}
use bkunix.Kernel.State.{Buf, Inode, Filsys, Mount, Kernel, nodev, ninode, enfile, enospc}
use bkunix.Kernel.Bio.{put, panic, on_buf, brelse, bwrite, bflush, getblk, bread}
use bkunix.Kernel.Alloc.{s_lt, getfs, load_fs, store_fs, ifree, free, filsys_words, filsys_of}

abbrev pub set_inode : ℕ → Inode → Kernel → Kernel
set_inode p x k = record k { inode = put k.inode p x }

-- an assignment to fields of the inode `p`
abbrev pub on_inode : ℕ → (Inode → Inode) → Cmd Kernel (Unit {0})
on_inode p f = modify (λ k. set_inode p (f (k.inode p)) k)

-- the words from `i_mode` to the end of `i_addr`
unfoldable pub inode_words : Inode → List ℕ
inode_words p = p.mode ∷ (p.nlink + 256 * p.uid) ∷ (p.gid + 256 * p.size0) ∷ p.size1 ∷ p.addr

-- these words assigned
unfoldable pub with_words : List ℕ → Inode → Inode
with_words ws p = record p {
  mode = get_or ws 0 0;
  nlink = get_or ws 1 0 % 256;
  uid = get_or ws 1 0 / 256;
  gid = get_or ws 2 0 % 256;
  size0 = get_or ws 2 0 / 256;
  size1 = get_or ws 3 0;
  addr = take 8 (drop 4 ws);
}

-- the block of the inode list that holds an inode, and the word in it where the inode starts, for
-- the numbers of which the sum does not leave the positive words
abbrev pub inode_block : ℕ → ℕ
inode_block ino = (ino + 31) / 16

abbrev pub inode_word : ℕ → ℕ
inode_word ino = 16 * ((ino + 31) % 16)

-- words written over those from one index on
unfoldable pub overlay : List ℕ → ℕ → List ℕ → List ℕ
overlay xs i ys = take i xs ++ (ys ++ drop (i + length ys) xs)

-- the words of a block of the inode list with one inode written
abbrev pub with_inode : Inode → ℕ → ℕ → List ℕ → List ℕ
with_inode p t0 t1 ws =
    overlay (overlay ws (inode_word p.number) (inode_words p)) (inode_word p.number + 14)
      (t0 ∷ t1 ∷ [])

-- `iupdat` of an inode that is to be written
unfoldable pub store_inode : ℕ → Cmd Kernel (Unit {0})
store_inode p = do
  k ← get
  on_inode p (λ x. record x { upd = false })
  j ← bread (k.inode p).dev (inode_block (k.inode p).number)
  on_buf j (λ b. record b { data_words = with_inode (k.inode p) k.time0 k.time1 b.data_words })
  bwrite j

-- `iupdat`
unfoldable pub iupdat : ℕ → Cmd Kernel (Unit {0})
iupdat p k = (if (k.inode p).upd then store_inode p else pure tt) k

-- `itrunc`: the blocks that an indirect block names, the last of them first
unfoldable pub free_words : ℕ → ℕ → ℕ → Cmd Kernel (Unit {0})
free_words dev j zero = pure tt
free_words dev j (suc n) = do
  k ← get
  let w = get_or (k.buf j).data_words n 0
  if w == 0 then pure tt else free dev w
  free_words dev j n

-- `itrunc`: what one address of an inode leads to
unfoldable pub free_addr : ℕ → ℕ → ℕ → Cmd Kernel (Unit {0})
free_addr p i w = do
  k ← get
  if bit_and (k.inode p).mode 4096 == 0
      then pure tt
      else (do j ← bread (k.inode p).dev w; free_words (k.inode p).dev j 256; brelse j)
  free (k.inode p).dev w
  on_inode p (λ x. record x { addr = set x.addr i 0 })

-- the loop of `itrunc`, with `n` addresses left
unfoldable pub free_addrs : ℕ → ℕ → Cmd Kernel (Unit {0})
free_addrs p zero = pure tt
free_addrs p (suc n) = do
  k ← get
  let w = get_or (k.inode p).addr n 0
  if w == 0 then pure tt else free_addr p n w
  free_addrs p n

-- bits cleared in a word
abbrev clear_bits : ℕ → ℕ → ℕ
clear_bits w mask = w - bit_and w mask

-- `itrunc`; the bit 020000 of the mode is that of special files, and 011000 is `ILARG|ICONT`
unfoldable pub itrunc : ℕ → Cmd Kernel (Unit {0})
itrunc p = do
  k ← get
  if not (bit_and (k.inode p).mode 8192 == 0) then pure tt else (do
    free_addrs p 8
    on_inode p (λ x. record x { mode = clear_bits x.mode 4608; size0 = 0; size1 = 0; upd = true }))

-- `iput`: an inode without links is taken off the diskette; `i_nlink` is a signed byte
unfoldable pub drop_file : ℕ → Cmd Kernel (Unit {0})
drop_file p = do
  itrunc p
  on_inode p (λ x. record x { mode = 0 })
  k ← get
  ifree (k.inode p).dev (k.inode p).number

unfoldable pub no_links : Inode → Bool
no_links x = x.nlink == 0 || leb 128 x.nlink

-- `iput`
unfoldable pub iput : ℕ → Cmd Kernel (Unit {0})
iput p = do
  k ← get
  if (k.inode p).count == 1
      then (do
        if no_links (k.inode p) then drop_file p else pure tt
        iupdat p
        on_inode p (λ x. record x { upd = false; mounted_on = false; number = 0 }))
      else pure tt
  on_inode p (λ x. record x { count = (x.count + 255) % 256 })

-- where the search of `iget` ends: at the inode, at the first entry that is not used, or at none
pub data Slot : Type 0 where
  in_core : ℕ → Slot
  spare : ℕ → Slot
  no_slot : Slot

abbrev pub slot_left : Option ℕ → Slot
slot_left none = no_slot
slot_left (some p) = spare p

abbrev pub is_inode : ℕ → ℕ → Inode → Bool
is_inode dev ino x = x.dev == dev && x.number == ino

-- the pointer `ip`: the first entry without references
abbrev pub first_free : Option ℕ → ℕ → Inode → Option ℕ
first_free none p x = if x.count == 0 then some p else none
first_free (some q) p x = some q

-- the loop of `iget`, with `n` entries left from `p` on
unfoldable pub find_inode : (ℕ → Inode) → ℕ → ℕ → ℕ → ℕ → Option ℕ → Slot
find_inode f dev ino zero p ip = slot_left ip
find_inode f dev ino (suc n) p ip =
    if is_inode dev ino (f p)
    then in_core p
    else find_inode f dev ino n (p + 1) (first_free ip p (f p))

-- the device that is mounted on an inode
unfoldable pub find_mounted : ℕ → List Mount → Option ℕ
find_mounted p [] = none
find_mounted p (m ∷ rest) =
    if (elim m.inodp [ none ↦ false | some q ↦ q == p ]) then some m.dev else find_mounted p rest

-- `iget`: the inode is read into the entry `p`; where that fails it is given back.
unfoldable pub read_inode : ℕ → ℕ → ℕ → Cmd Kernel (Option ℕ)
read_inode dev ino p = do
  on_inode p (λ x. record x { dev = dev; number = ino; count = (x.count + 1) % 256 })
  j ← bread dev (inode_block ino)
  k ← get
  if (k.buf j).error then (do brelse j; iput p; pure none) else (do
    on_inode p (with_words (drop (inode_word ino) (k.buf j).data_words))
    brelse j
    pure (some p))
