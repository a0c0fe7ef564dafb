-- ===== src/Fsutil/Block.antt =====
-- fsutil/block.c: the free list, of which the super block holds up to 100 numbers and each hundred
-- further ones stand in a block of the list itself.
pub mod Words
pub mod Lifo
pub mod Enough
use bkunix.Prelude.{ℕ, zero, suc, ◌+◌, ◌-◌, ◌*◌, ◌/◌, ◌%◌, Bool, true, false, List, [], ◌∷◌, ◌++◌}
use bkunix.Prelude.Tests.{ltb, leb, ◌==◌, if◌then◌else◌}
use bkunix.Prelude.Lists.{length, get_or, set, take, drop}
use bkunix.Prelude.Run.{
  Run, ok, fail, fault, Cmd, pure, return_0, ◌>>=◌, ◌>>◌, get, modify, in_range, ignore,
}
use bkunix.Fsutil.State.{Fs, u8, u16}
use bkunix.Fsutil.Disk.{read_block, write_block, byte_at}

-- A 16-bit word in a block's bytes, low byte first.
abbrev pub word_at : List ℕ → ℕ → ℕ
word_at block i = byte_at block (i + 1) * 256 + byte_at block i

-- words as they lie in memory
unfoldable pub pack_words : List ℕ → List ℕ
pack_words [] = []
pack_words (w ∷ ws) = u8 w ∷ u8 (w / 256) ∷ pack_words ws

-- `n` words from byte `i` on
unfoldable pub unpack_words : ℕ → List ℕ → ℕ → List ℕ
unpack_words zero block i = []
unpack_words (suc n) block i = word_at block i ∷ unpack_words n block (i + 2)

-- `buf` of `lsxfs_block_free`: the count, the 100 numbers, and 155 words that it does not set
unfoldable pub spill : Fs → List ℕ
spill fs = pack_words (fs.nfree ∷ fs.free) ++ fs.stack

-- `fs->free [fs->nfree] = bno; fs->nfree++; fs->dirty = 1`
unfoldable pub push : ℕ → Fs → Fs
push bno fs = record fs {
  free = set fs.free fs.nfree (u16 bno);
  nfree = u16 (fs.nfree + 1);
  dirty = true;
}

-- A full list goes to the freed block, and the list starts anew with the block alone.
unfoldable pub spill_and_push : Fs → ℕ → Cmd Fs (Unit {0})
spill_and_push fs bno = do
  write_block (u16 bno) (spill fs)
  modify (λ fs. push bno (record fs { nfree = 0 }))

-- `lsxfs_block_free`
unfoldable pub block_free : ℕ → Cmd Fs (Unit {0})
block_free bno = do fs ← get; if leb 100 fs.nfree then spill_and_push fs bno else modify (push bno)

-- the numbers of an indirect block, freed from the last to the first, with `n` words left
unfoldable pub free_words : ℕ → List ℕ → Cmd Fs (Unit {0})
free_words zero block = pure tt
free_words (suc n) block = do
  if word_at block (2 * n) == 0 then pure tt else ignore (block_free (word_at block (2 * n)))
  free_words n block

-- `lsxfs_indirect_block_free`
unfoldable pub indirect_block_free : ℕ → Cmd Fs (Unit {0})
indirect_block_free bno = do
  block ← read_block (u16 bno)
  free_words 256 block
  ignore (block_free bno)

unfoldable pub free_indirects : ℕ → List ℕ → Cmd Fs (Unit {0})
free_indirects zero block = pure tt
free_indirects (suc n) block = do
  if word_at block (2 * n) == 0
      then pure tt
      else ignore (indirect_block_free (word_at block (2 * n)))
  free_indirects n block

-- `lsxfs_double_indirect_block_free`
unfoldable pub double_indirect_block_free : ℕ → Cmd Fs (Unit {0})
double_indirect_block_free bno = do
  block ← read_block (u16 bno)
  free_indirects 256 block
  ignore (block_free bno)

-- `fs->nfree--; *bno = fs->free [fs->nfree]; fs->free [fs->nfree] = 0; fs->dirty = 1`, at a count
-- above 0
unfoldable pub pop : Cmd Fs ℕ
pop = do
  fs ← get
  let top = fs.nfree - 1
  in_range (ltb top 100)
  modify (λ fs. record fs { nfree = top; free = set fs.free top 0; dirty = true })
  pure (get_or fs.free top 0)

-- The last number of the list is that of the block with the next hundred.
unfoldable pub refill : ℕ → Cmd Fs (Unit {0})
refill bno = do
  block ← read_block bno
  modify (λ fs. record fs { nfree = word_at block 0; free = unpack_words 100 block 2 })

-- The rounds of `lsxfs_block_alloc` from the label `again` on. A round that comes back there
-- leaves a count that is lower by one, so the count is fuel enough; without fuel, a list that is not
-- empty is a fault.
unfoldable pub alloc_loop : ℕ → Cmd Fs ℕ
alloc_loop zero = λ fs. if fs.nfree == 0 then fail fs else fault
alloc_loop (suc rounds) = do
  fs ← get
  if fs.nfree == 0 then return_0 else pure tt
  bno ← pop
  left ← get
  if left.nfree == 0 then refill bno else pure tt
  if bno == 0 then alloc_loop rounds else pure bno

-- `lsxfs_block_alloc`
unfoldable pub block_alloc : Cmd Fs ℕ
block_alloc = do fs ← get; alloc_loop fs.nfree
