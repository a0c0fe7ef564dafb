-- ===== src/Fsutil/Disk.antt =====
-- fsutil/superblock.c: the sector interleave, the byte, word and block transfers, and the super
-- block.
pub mod Skew
pub mod View
pub mod Wrote
pub mod Blocks
pub mod Ends
pub mod Words
use bkunix.Prelude.{
  ℕ, zero, suc, ◌+◌, ◌-◌, ◌*◌, ◌/◌, ◌%◌, ◌^◌, min, max, Bool, true, false, Option, none, some, List,
  [], ◌∷◌, ◌++◌, ◌&&◌, not, ◌||◌,
}
use bkunix.Prelude.Tests.{ltb, leb, ◌==◌, if◌then◌else◌}
use bkunix.Prelude.Lists.{length, get_or, set, take, drop, replicate}
use bkunix.Prelude.Run.{
  Run, ok, fail, fault, Cmd, pure, return_0, and_then, ◌>>=◌, ◌>>◌, get, modify, guard, ignore,
  forget,
}
use bkunix.Fsutil.State.{Image, Fs, u8, u16, ulong}

-- `deskew`: the logical address to that in the image, whose tracks hold 26 sectors of 128 bytes in
-- an interleave of 3, and whose logical track 76 is the physical track 0.
unfoldable pub deskew : ℕ → ℕ
deskew address =
    let offset = address % 128 in
    let sector = address / 128 * 3 % 26 in
    let next = address / 128 / 26 + 1 in
    let track = if next == 77 then 0 else next in ulong ((track * 26 + sector) * 128 + offset)

-- lseek(2): the offset is signed, and a negative one is refused.
abbrev pub lseek : ℕ → Image → Option Image
lseek a f = if ltb a (2 ^ 63) then some (record f { pos = a }) else none

-- the `n` bytes of a file from address `a` on
abbrev pub bytes_from : (ℕ → ℕ) → ℕ → ℕ → List ℕ
bytes_from f a zero = []
bytes_from f a (suc n) = f a ∷ bytes_from f (a + 1) n

-- read(2) of `n` bytes: short at the end of the file.
abbrev pub read_count : ℕ → Image → ℕ
read_count n f = min n (f.size - f.pos)

-- A read that must give all its `n` bytes.
unfoldable pub read : ℕ → Cmd Fs (List ℕ)
read n fs =
    let k = read_count n fs.image in
    let f = record fs.image { pos = fs.image.pos + k } in
    if k == n
    then ok (bytes_from fs.image.bytes fs.image.pos n) (record fs { image = f })
    else fail (record fs { image = f })

-- The file's bytes after `xs` is written at address `p`; a hole left behind its end reads as 0.
unfoldable pub patch : Image → List ℕ → ℕ → ℕ
patch f xs a =
    if leb f.pos a && ltb a (f.pos + length xs)
    then get_or xs (a - f.pos) 0
    else if ltb a f.size
    then f.bytes a
    else 0

-- write(2) of the bytes `xs`: short where the host has no room.
unfoldable pub write_image : List ℕ → Image → Image
write_image xs f = record f {
  bytes = patch f xs;
  pos = f.pos + length xs;
  size = max f.size (f.pos + length xs);
}

-- The part of a write for which there is room.
unfoldable pub write_some : List ℕ → Cmd Fs (Unit {0})
write_some xs fs =
    let k = min (length xs) (fs.image.limit - fs.image.pos) in
    let done = record fs { image = write_image (take k xs) fs.image } in
    if k == length xs then ok tt done else (if k == 0 then fail fs else fail done)

-- A write that must take all its bytes. The descriptor is open for writing where `fs->writable` is
-- set, and write(2) fails on one that is not.
unfoldable pub write_all : List ℕ → Cmd Fs (Unit {0})
write_all xs = do fs ← get; guard fs.writable; write_some xs

-- `lsxfs_seek`
unfoldable pub seek : ℕ → Cmd Fs (Unit {0})
seek offset fs = elim (lseek (deskew offset) fs.image) [
  | none ↦ fail fs
  | some f ↦ ok tt (record fs { image = f; seek = offset })
]

-- `lsxfs_seek_raw`, with its `unsigned int` product
unfoldable pub seek_raw : ℕ → ℕ → Cmd Fs (Unit {0})
seek_raw track sector fs =
    let hw = ((if track == 77 then 0 else track) * 26 + sector) * 128 % 2 ^ 32 in
    elim (lseek hw fs.image) [
      | none ↦ fail fs
      | some f ↦ ok tt (record fs { image = f; seek = hw })
    ]

-- `update_seek`: at the end of a 128-byte sector the next one is sought.
unfoldable pub update_seek : ℕ → Cmd Fs (Unit {0})
update_seek offset fs =
    if leb 128 (fs.seek % 128 + offset)
    then ignore (seek (ulong (fs.seek + offset))) fs
    else ok tt (record fs { seek = ulong (fs.seek + offset) })

abbrev pub byte_at : List ℕ → ℕ → ℕ
byte_at xs i = get_or xs i 0

-- `lsxfs_read8`
unfoldable pub read8 : Cmd Fs ℕ
read8 = do d ← read 1; update_seek 1; pure (byte_at d 0)

-- `lsxfs_read16`: low byte first
unfoldable pub read16 : Cmd Fs ℕ
read16 = do d ← read 2; update_seek 2; pure (byte_at d 1 * 256 + byte_at d 0)

-- `lsxfs_read32`: high word first, each low byte first
unfoldable pub read32 : Cmd Fs ℕ
read32 = do
  d ← read 4
  update_seek 4
  pure (byte_at d 1 * 2 ^ 24 + byte_at d 0 * 2 ^ 16 + byte_at d 3 * 256 + byte_at d 2)

-- `lsxfs_write8`
unfoldable pub write8 : ℕ → Cmd Fs (Unit {0})
write8 val = do write_all (u8 val ∷ []); update_seek 1

-- `lsxfs_write16`
unfoldable pub write16 : ℕ → Cmd Fs (Unit {0})
write16 val = do write_all (u8 val ∷ u8 (val / 256) ∷ []); update_seek 2

-- `lsxfs_write32`
unfoldable pub write32 : ℕ → Cmd Fs (Unit {0})
write32 val = do
  write_all (u8 (val / 2 ^ 16) ∷ u8 (val / 2 ^ 24) ∷ u8 val ∷ u8 (val / 256) ∷ [])
  update_seek 4

-- the loop of `lsxfs_read_block`, over the sectors left
unfoldable pub read_sectors : ℕ → Cmd Fs (List ℕ)
read_sectors zero = pure []
read_sectors (suc n) = do d ← read 128; update_seek 128; rest ← read_sectors n; pure (d ++ rest)

-- `lsxfs_read_block`: the boot block, the super block and the inode blocks are refused.
unfoldable pub read_block : ℕ → Cmd Fs (List ℕ)
read_block bnum = do
  fs ← get
  guard (not (leb bnum (fs.isize + 1)))
  seek (bnum * 512)
  read_sectors 4

-- the loop of `lsxfs_write`, on fuel: a round writes up to 128 bytes
unfoldable pub write_loop : ℕ → List ℕ → Cmd Fs (Unit {0})
write_loop zero xs = pure tt
write_loop (suc fuel) [] = pure tt
write_loop (suc fuel) (x ∷ xs) = do
  write_all (take 128 (x ∷ xs))
  update_seek (min 128 (length (x ∷ xs)))
  write_loop fuel (drop 128 (x ∷ xs))

-- `lsxfs_write`, of the whole of a buffer
unfoldable pub write : List ℕ → Cmd Fs (Unit {0})
write xs = do fs ← get; guard fs.writable; write_loop (length xs) xs

-- `lsxfs_write_block`
unfoldable pub write_block : ℕ → List ℕ → Cmd Fs (Unit {0})
write_block bnum block = do
  fs ← get
  guard (fs.writable && not (leb bnum (fs.isize + 1)))
  seek (bnum * 512)
  write block
  modify (λ fs. record fs { modified = true })
