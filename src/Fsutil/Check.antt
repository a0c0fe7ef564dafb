-- ===== src/Fsutil/Check.antt =====
-- fsutil/check.c: the tables of the file system check.
pub mod Scan
pub mod Maps
pub mod Dirs
pub mod Repair
use bkunix.Prelude.{
  ℕ, zero, suc, ◌+◌, ◌-◌, ◌*◌, ◌/◌, ◌%◌, ◌^◌, bit_and, bit_or, Bool, true, false, Option, none,
  some, List, [], ◌∷◌, not, ◌||◌,
}
use bkunix.Prelude.Tests.{ltb, leb, ◌==◌, if◌then◌else◌}
use bkunix.Prelude.Lists.{length, get_or, set}
use bkunix.Prelude.Run.{Run, ok, fail, fault, Cmd, pure, ◌>>=◌, ◌>>◌, get, modify, in_range}
use bkunix.Fsutil.State.{Fs, Inode, u16, mode_fchr, mode_fblk}
use bkunix.Fsutil.Disk.{read_block}
use bkunix.Fsutil.Block.{word_at}
use bkunix.Fsutil.Inode.{file_type, is_large, inode_get, inode_save}

-- The static variables of check.c, with the file system. `dup_end` and `dup_multi` are indices into
-- `dup_list`, `pathp` and `thisname` are indices into `pathname`, which is only printed,
-- `bad_links` is the used part of `bad_link_list`, and `used_blocks` is the counter of `lsxfs_check`
-- that `pass1` is handed.
pub record Check : Type 0 where
  pub fs : Fs
  pub dup_list : List ℕ
  pub dup_end : ℕ
  pub dup_multi : ℕ
  pub block_map : List ℕ
  pub free_map : List ℕ
  pub state_map : List ℕ
  pub corrupted : Bool
  pub bad_blocks : ℕ
  pub dup_blocks : ℕ
  pub scan_filesize : ℕ
  pub used_blocks : ℕ
  pub total_files : ℕ
  pub buf_data : List ℕ
  pub buf_bno : ℕ
  pub buf_dirty : Bool
  pub bad_links : List ℕ
  pub link_count : List ℕ
  pub pathp : ℕ
  pub thisname : ℕ
  pub find_inode_name : List ℕ
  pub find_inode_result : ℕ
  pub lost_inode : ℕ
  pub lost_found_inode : ℕ

-- the states of an inode
abbrev pub ustate : ℕ
ustate = 0

abbrev pub fstate : ℕ
fstate = 1

abbrev pub dstate : ℕ
dstate = 2

abbrev pub clear : ℕ
clear = 3

-- the bits that a scan function returns
abbrev pub alterd : ℕ
alterd = 8

abbrev pub keepon : ℕ
keepon = 4

abbrev pub skip : ℕ
skip = 2

abbrev pub stop : ℕ
stop = 1

-- `ret & STOP` and `ret & KEEPON`
abbrev pub has_bit : ℕ → ℕ → Bool
has_bit ret bit = not (bit_and ret bit == 0)

-- `outrange`
abbrev pub outrange : Fs → ℕ → Bool
outrange fs blk = ltb blk (fs.isize + 2) || leb fs.fsize blk

-- A call on the file system.
abbrev pub with_check : {A : Type 0} → Check → Run Fs A → Run Check A
with_check c (ok a fs) = ok a (record c { fs = fs })
with_check c (fail fs) = fail (record c { fs = fs })
with_check c fault = fault

abbrev pub on_check : {A : Type 0} → Cmd Fs A → Cmd Check A
on_check m c = with_check c (m c.fs)

-- A read that may fail: the block's bytes, or none.
abbrev pub read_or_nil : ℕ → Cmd Check (List ℕ)
read_or_nil blk c = elim (read_block blk c.fs) [
  | ok block fs ↦ ok block (record c { fs = fs })
  | fail fs ↦ ok [] (record c { fs = fs })
  | fault ↦ fault
]

-- `lsxfs_inode_get` where its failure is looked at
abbrev pub get_inode : ℕ → Cmd Check (Option Inode)
get_inode inum c = elim (inode_get inum c.fs) [
  | ok i fs ↦ ok (some i) (record c { fs = fs })
  | fail fs ↦ ok none (record c { fs = fs })
  | fault ↦ fault
]

-- `lsxfs_inode_save`, and whether it succeeded
abbrev pub save_inode : Inode → Cmd Check Bool
save_inode i c = elim (inode_save (record { fs = c.fs; inode = i })) [
  | ok _ n ↦ ok true (record c { fs = n.fs })
  | fail n ↦ ok false (record c { fs = n.fs })
  | fault ↦ fault
]

-- one byte of the state table, with the state at `shift` set, and the state at `shift` of a byte
unfoldable pub put_state : ℕ → ℕ → ℕ → ℕ
put_state byte shift s = bit_or (bit_and byte (255 - 3 * 2 ^ shift)) (s * 2 ^ shift)

unfoldable pub state_in : ℕ → ℕ → ℕ
state_in byte shift = bit_and (byte / 2 ^ shift) 3

abbrev pub shift_of : ℕ → ℕ
shift_of inum = inum % 4 * 2

-- `set_inode_state`, on the table
unfoldable pub set_inode_state : ℕ → ℕ → List ℕ → List ℕ
set_inode_state inum s map =
    set map (inum / 4) (put_state (get_or map (inum / 4) 0) (shift_of inum) s)

-- `inode_state`
unfoldable pub inode_state : ℕ → List ℕ → ℕ
inode_state inum map = state_in (get_or map (inum / 4) 0) (shift_of inum)

-- `block_is_busy` and `in_free_list`, on their maps
unfoldable pub is_marked : ℕ → List ℕ → Bool
is_marked blk map = not (bit_and (get_or map (blk / 8) 0) (2 ^ (blk % 8)) == 0)

-- `mark_block_busy` and `mark_free_list`
unfoldable pub mark : ℕ → List ℕ → List ℕ
mark blk map = set map (blk / 8) (bit_or (get_or map (blk / 8) 0) (2 ^ (blk % 8)))

-- `mark_block_free`
unfoldable pub mark_block_free : ℕ → List ℕ → List ℕ
mark_block_free blk map = set map (blk / 8) (bit_and (get_or map (blk / 8) 0) (255 - 2 ^ (blk % 8)))
