-- ===== src/Fsutil/Inode/Write.antt =====
-- src/fsutil/inode.c: `map_block_write` and `lsxfs_inode_write`.
use bkunix.Prelude.{ℕ, zero, suc, ◌+◌, ◌-◌, ◌*◌, ◌/◌, ◌%◌, min, bit_or, true, List, [], ◌∷◌}
use bkunix.Prelude.Tests.{ltb, ◌==◌, if◌then◌else◌}
use bkunix.Prelude.Lists.{length, get_or, set, take, replicate}
use bkunix.Prelude.Run.{fault, Cmd, pure, return_0, ◌>>=◌, ◌>>◌, get}
use bkunix.Fsutil.State.{Node, u8, u16, ulong, mode_larg}
use bkunix.Fsutil.Disk.{read_block, write_block}
use bkunix.Fsutil.Block.{word_at, block_alloc}
use bkunix.Fsutil.Inode.{on_fs, on_inode, is_large, overwrite}

-- a block's bytes with the word at index `i` replaced
unfoldable pub set_word : List ℕ → ℕ → ℕ → List ℕ
set_word block i w = set (set block (i + i) (u8 w)) (i + i + 1) (u8 (w / 256))

abbrev pub zero_block : List ℕ
zero_block = replicate 512 0

abbrev pub set_addr : ℕ → ℕ → Cmd Node (Unit {0})
set_addr i nb = on_inode (λ n. record n { addr = set n.addr i nb; dirty = true })

-- the addresses of a small file as the first words of its first indirect block
unfoldable pub addr_block : List ℕ → ℕ → List ℕ → List ℕ
addr_block [] i block = block
addr_block (a ∷ rest) i block = addr_block rest (i + 1) (set_word block i a)

-- `map_block_write`: a small file becomes a large one.
unfoldable pub enlarge : Cmd Node (Unit {0})
enlarge = do
  nb ← on_fs block_alloc
  n ← get
  on_inode (λ i. record i { addr = u16 nb ∷ replicate 7 0 })
  on_fs (write_block nb (addr_block n.inode.addr 0 zero_block))
  on_inode (λ i. record i { mode = bit_or i.mode mode_larg; dirty = true })

-- `map_block_write`: a block of a small file
unfoldable pub map_small_write : ℕ → Cmd Node ℕ
map_small_write lbn = do
  n ← get
  if get_or n.inode.addr lbn 0 == 0
      then (on_fs block_alloc >>= λ nb. set_addr lbn (u16 nb) >> pure nb)
      else pure (get_or n.inode.addr lbn 0)

-- `map_block_write`: the first indirect block, with its contents
unfoldable pub first_write : ℕ → Cmd Node (ℕ × List ℕ)
first_write i = do
  n ← get
  let ib = get_or n.inode.addr i 0
  if ib == 0
      then (on_fs block_alloc >>= λ nb. set_addr i (u16 nb) >> pure (nb, zero_block))
      else (on_fs (read_block ib) >>= λ block. pure (ib, block))

-- `map_block_write`: the step through the double indirect block. It tests the word at byte `i`,
-- and a new number goes to the word at index `i`, in a block cleared before.
unfoldable pub second_write : ℕ → ℕ × List ℕ → Cmd Node (ℕ × List ℕ)
second_write lbn (ib, block) =
    let i = (lbn / 256 - 7) * 2 in
    if word_at block i == 0
    then (do
      nb ← on_fs block_alloc
      on_fs (write_block ib (set_word zero_block i nb))
      pure (nb, set_word zero_block i nb))
    else (on_fs (read_block (word_at block i)) >>= λ next. pure (word_at block i, next))

-- `map_block_write`: the block itself
unfoldable pub last_write : ℕ → ℕ × List ℕ → Cmd Node ℕ
last_write lbn (ib, block) =
    let i = lbn % 256 in
    if word_at block (i + i) == 0
    then (do nb ← on_fs block_alloc; on_fs (write_block ib (set_word block i nb)); pure nb)
    else pure (word_at block (i + i))

-- `map_block_write`, from the label `large` on
unfoldable pub map_large_write : ℕ → Cmd Node ℕ
map_large_write lbn = do
  let i = min 7 (lbn / 256)
  first ← first_write i
  last ← (if i == 7 then second_write lbn first else pure first)
  last_write lbn last

-- `map_block_write`
unfoldable pub map_block_write : ℕ → Cmd Node ℕ
map_block_write lbn n =
    if ltb 0x7fff lbn
    then return_0 n
    else if is_large n.inode
    then map_large_write lbn n
    else if ltb 7 lbn
    then (enlarge >> map_large_write lbn) n
    else map_small_write lbn n

-- one round's transfer in `lsxfs_inode_write`
unfoldable pub write_part : ℕ → ℕ → List ℕ → Cmd Node (Unit {0})
write_part bn inside part =
    if length part == 512
    then on_fs (write_block bn part)
    else (on_fs (read_block bn) >>= λ block. on_fs (write_block bn (overwrite block inside part)))

-- The rounds of `lsxfs_inode_write`: each takes its part from the start of `buffer`.
unfoldable pub inode_write_loop : ℕ → ℕ → List ℕ → ℕ → Cmd Node (Unit {0})
inode_write_loop zero offset buffer bytes = if bytes == 0 then pure tt else (λ n. fault)
inode_write_loop (suc fuel) offset buffer bytes =
    let inside = offset % 512 in
    let n = min (512 - inside) bytes in
    let end = ulong (offset + n) in
    if bytes == 0 then pure tt else (do
      bn ← map_block_write (u16 (offset / 512))
      on_inode (λ i. if ltb i.size end then record i { size = end; dirty = true } else i)
      write_part bn inside (take n buffer)
      inode_write_loop fuel end buffer (bytes - n))

-- `lsxfs_inode_write`
unfoldable pub inode_write : ℕ → List ℕ → ℕ → Cmd Node (Unit {0})
inode_write offset buffer bytes = inode_write_loop bytes offset buffer bytes
