-- ===== src/Fsutil/Check/Scan.antt =====
-- src/fsutil/check.c: the scan of the blocks of a file, and passes 1 and 1b.
use bkunix.Prelude.{
  ℕ, zero, suc, ◌+◌, ◌-◌, Bool, false, Option, none, some, List, [], ◌∷◌, not, ◌||◌,
}
use bkunix.Prelude.Tests.{leb, ◌==◌, if◌then◌else◌}
use bkunix.Prelude.Lists.{length, get_or, set}
use bkunix.Prelude.Run.{Cmd, pure, ◌>>=◌, ◌>>◌, get, modify}
use bkunix.Fsutil.State.{Inode, u16, mode_fchr, mode_fblk}
use bkunix.Fsutil.Block.{word_at}
use bkunix.Fsutil.Inode.{file_type, is_large}
use bkunix.Fsutil.Check.{
  Check, clear, keepon, skip, stop, has_bit, outrange, read_or_nil, set_inode_state, is_marked,
  mark,
}

-- A function called for a block of a file; it returns its bits.
abbrev pub Scanner : Type 0
Scanner = Inode → ℕ → Cmd Check ℕ

-- the loop of `scan_indirect_block`, with `n` of the 256 words left
unfoldable pub scan_words : (ℕ → Cmd Check ℕ) → List ℕ → ℕ → ℕ → Cmd Check ℕ
scan_words call block zero i = pure keepon
scan_words call block (suc n) i =
    let nb = word_at block i in
    if nb == 0
    then scan_words call block n (i + 2)
    else (do ret ← call nb; if has_bit ret stop then pure ret else scan_words call block n (i + 2))

-- `scan_indirect_block` past its call for the block itself
unfoldable pub scan_listed : (ℕ → Cmd Check ℕ) → ℕ → Cmd Check ℕ
scan_listed call blk = do
  c ← get
  if outrange c.fs blk then pure skip else (do
    block ← read_or_nil blk
    if length block == 0 then pure skip else scan_words call block 256 0)

-- `scan_indirect_block`, by what it does with each block listed; `addrs` is set for ADDR
unfoldable pub scan_indirect : Bool → Scanner → Inode → (ℕ → Cmd Check ℕ) → ℕ → Cmd Check ℕ
scan_indirect addrs func inode call blk =
    if not addrs
    then scan_listed call blk
    else (do ret ← func inode blk; if has_bit ret keepon then scan_listed call blk else pure ret)

-- a block of a large file: an indirect one, or at address 7 a double indirect one
unfoldable pub scan_indirect_block : Bool → Bool → Scanner → Inode → ℕ → Cmd Check ℕ
scan_indirect_block double addrs func inode blk =
    if double
    then scan_indirect addrs func inode (scan_indirect addrs func inode (func inode)) blk
    else scan_indirect addrs func inode (func inode) blk

-- the loops of `scan_inode` over the addresses `k`, `k + 1`, …
unfoldable pub scan_addrs : (ℕ → ℕ → Cmd Check ℕ) → ℕ → List ℕ → Cmd Check ℕ
scan_addrs call k [] = pure keepon
scan_addrs call k (a ∷ rest) =
    if a == 0
    then scan_addrs call (k + 1) rest
    else (do ret ← call k a; if has_bit ret stop then pure ret else scan_addrs call (k + 1) rest)

-- `scan_inode`
unfoldable pub scan_inode : Bool → Scanner → Inode → Cmd Check ℕ
scan_inode addrs func inode =
    if file_type inode == mode_fblk || file_type inode == mode_fchr then pure keepon else (do
      modify (λ c. record c { scan_filesize = inode.size })
      scan_addrs
          (λ k a.
            if is_large inode
            then scan_indirect_block (k == 7) addrs func inode a
            else func inode a)
          0 inode.addr)

-- an inode marked for clearing
abbrev pub mark_clear : ℕ → Check → Check
mark_clear inum c = record c { state_map = set_inode_state inum clear c.state_map }

-- whether a number is among the first `n` of the table
unfoldable pub is_among : ℕ → ℕ → List ℕ → Bool
is_among blk zero xs = false
is_among blk (suc n) [] = false
is_among blk (suc n) (x ∷ xs) = x == blk || is_among blk n xs

-- a duplicate number entered in `dup_list`: the first part of the table, up to `dup_multi`, holds
-- each number once, and the rest the further times that it was met
unfoldable pub add_dup : ℕ → Check → Check
add_dup blk c =
    if is_among blk c.dup_multi c.dup_list
    then record c { dup_list = set c.dup_list c.dup_end blk; dup_end = c.dup_end + 1 }
    else record c {
      dup_list = set (set c.dup_list c.dup_end (get_or c.dup_list c.dup_multi 0)) c.dup_multi blk;
      dup_end = c.dup_end + 1;
      dup_multi = c.dup_multi + 1;
    }

-- `pass1` at a block out of range
unfoldable pub pass1_bad : ℕ → Cmd Check ℕ
pass1_bad inum = do
  modify (λ c. record (mark_clear inum c) { bad_blocks = c.bad_blocks + 1 })
  c ← get
  if leb 10 c.bad_blocks then pure stop else pure skip

-- `pass1` at a block that another file has
unfoldable pub pass1_dup : ℕ → ℕ → Cmd Check ℕ
pass1_dup inum blk = do
  modify (λ c. record (mark_clear inum c) { dup_blocks = c.dup_blocks + 1 })
  c ← get
  if leb 10 c.dup_blocks || leb 100 c.dup_end
      then pure stop
      else (modify (add_dup blk) >> pure keepon)

-- `pass1`
unfoldable pub pass1 : Scanner
pass1 inode blk = do
  c ← get
  if outrange c.fs blk
      then pass1_bad inode.number
      else if is_marked blk c.block_map
      then pass1_dup inode.number blk
      else (modify (λ c. record c {
        used_blocks = u16 (c.used_blocks + 1);
        block_map = mark blk c.block_map;
      })
          >> pure keepon)

-- the search of `pass1b` in the first `n` entries: the index of the number
unfoldable pub index_of : ℕ → ℕ → List ℕ → ℕ → Option ℕ
index_of blk zero xs i = none
index_of blk (suc n) [] i = none
index_of blk (suc n) (x ∷ xs) i = if x == blk then some i else index_of blk n xs (i + 1)

-- `pass1b`
unfoldable pub pass1b : Scanner
pass1b inode blk = do
  c ← get
  if outrange c.fs blk then pure skip else elim (index_of blk c.dup_multi c.dup_list 0) [
    | none ↦ pure keepon
    | some i ↦ (do
      let multi = c.dup_multi - 1
      modify (λ c. record (mark_clear inode.number c) {
        dup_list = set (set c.dup_list i (get_or c.dup_list multi 0)) multi blk;
        dup_multi = multi;
      })
      pure (if multi == 0 then stop else keepon))
  ]
