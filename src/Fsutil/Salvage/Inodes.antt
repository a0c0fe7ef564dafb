-- ===== src/Fsutil/Salvage/Inodes.antt =====
-- `check_free_inode_list` of fsutil/check.c.
use bkunix.Prelude.{ℕ, zero, suc, ◌+◌, ◌-◌, ◌/◌, ◌≤◌, ◌<◌, ◌≡◌, ◌≢◌, ◌∙◌, arith}
use bkunix.Prelude.Tests.{◌==◌, if◌then◌else◌, lt→ltb, ne→==, eq→==}
use bkunix.Prelude.Lists.{length, get_or}
use bkunix.Prelude.Run.{ok}
use bkunix.Fsutil.Check.{Check, inode_state, ustate}
use bkunix.Fsutil.Salvage.{clear_from, cut_inodes, check_inodes, check_free_inode_list}

-- The entry `i` of the list of free inodes names an inode that the table has a place for.
pub record IsEntry (c : Check) (i : ℕ) : Type 0 where
  pub slot : i < 100
  pub place : get_or c.fs.inode i 0 / 4 < length c.state_map

-- the state of the inode that entry `i` names
abbrev pub state_of : Check → ℕ → ℕ
state_of c i = inode_state (get_or c.fs.inode i 0) c.state_map

-- the state that the check leaves when entry `i` is the first that is not free
abbrev pub cut : Check → ℕ → Check
cut c i = if c.fs.writable then record c { fs = cut_inodes i c.fs } else c

module _ (c : Check) (n i : ℕ) (e : IsEntry c i) where
  check_inodes-next : state_of c i ≡ ustate → check_inodes (suc n) i c ≡ check_inodes n (i + 1) c
  unfolding check_inodes
  check_inodes-next u = rw (
    lt→ltb i 100 e.slot,
    lt→ltb (get_or c.fs.inode i 0 / 4) (length c.state_map) e.place,
    eq→== (state_of c i) ustate u,
  )

  check_inodes-stop : state_of c i ≢ ustate → check_inodes (suc n) i c ≡ ok tt (cut c i)
  unfolding check_inodes
  check_inodes-stop u =
      rw
        (
          lt→ltb i 100 e.slot,
          lt→ltb (get_or c.fs.inode i 0 / 4) (length c.state_map) e.place,
          ne→== (state_of c i) ustate u,
        )
        (ground arith)

check_inodes-cut :
    (c : Check) (n i k m : ℕ)
    → i + k ≡ m
    → ((j : ℕ) → j ≤ m → IsEntry c j)
    → ((j : ℕ) → j < m → state_of c j ≡ ustate)
    → state_of c m ≢ ustate
    → k < n
    → check_inodes n i c ≡ ok tt (cut c m)
check_inodes-cut c zero i k m p e u b h = absurd (omega arith)
check_inodes-cut c (suc n) i zero m p e u b h =
    let here : i ≡ m = omega arith in rw here (check_inodes-stop c n m (e m (omega arith)) b)
check_inodes-cut c (suc n) i (suc k) m p e u b h =
    check_inodes-next c n i (e i (omega arith)) (u i (omega arith))
    ∙ check_inodes-cut c n (i + 1) k m (omega arith) e u b (omega arith)

-- Where the first `k` entries of the list of free inodes are free and entry `k` is not, and all
-- stand in the tables, the check leaves the list of a file system open for reading alone as it is,
-- and otherwise clears the entries from `k` on and sets the count to `k - 1` in 16 bits: one entry less than those
-- found free, and 65535 where the first entry is not free.
pub check_free_inode_list_lem :
    (c : Check) (k : ℕ)
    → ((j : ℕ) → j ≤ k → IsEntry c j)
    → ((j : ℕ) → j < k → state_of c j ≡ ustate)
    → state_of c k ≢ ustate
    → k < c.fs.ninode
    → (c' : Check) × (check_free_inode_list c ≡ ok tt c')
      × (c'.fs.inode ≡ (if c.fs.writable then clear_from k c.fs.inode else c.fs.inode))
      × (c'.fs.ninode ≡ (if c.fs.writable then (if k == 0 then 65535 else k - 1) else c.fs.ninode))
unfolding check_free_inode_list
check_free_inode_list_lem c k e u b h =
    let slot = (e k (omega arith)).slot in
    (
      if c.fs.writable then record c { fs = cut_inodes k c.fs } else c,
      check_inodes-cut c c.fs.ninode 0 k k (omega arith) e u b h,
      ground arith,
      ground arith,
    )
