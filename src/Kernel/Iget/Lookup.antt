-- ===== src/Kernel/Iget/Lookup.antt =====
-- `iget` of src/sys/iget.c, and `ialloc` of src/sys/alloc.c.
use bkunix.Prelude.{ℕ, zero, suc, ◌+◌, ◌-◌, ◌%◌, Option, none, some, not}
use bkunix.Prelude.Tests.{leb, ◌==◌, if◌then◌else◌}
use bkunix.Prelude.Lists.{get_or, replicate}
use bkunix.Prelude.Run.{fault, Cmd, pure, ◌>>=◌, ◌>>◌, get, modify, in_range}
use bkunix.Kernel.State.{Inode, Kernel, ninode, enfile, enospc}
use bkunix.Kernel.Bio.{panic}
use bkunix.Kernel.Alloc.{s_lt, getfs, load_fs, store_fs}
use bkunix.Kernel.Iget.{
  on_inode, iput, Slot, in_core, spare, no_slot, find_inode, find_mounted, read_inode,
}

-- `iget` behind its loop. `again` is the jump to the label `loop` with another device.
unfoldable pub at_slot : (ℕ → Cmd Kernel (Option ℕ)) → ℕ → ℕ → Slot → Cmd Kernel (Option ℕ)
at_slot again dev ino no_slot = do modify (λ k. record k { u_error = enfile }); pure none
at_slot again dev ino (spare p) = read_inode dev ino p
at_slot again dev ino (in_core p) = do
  k ← get
  if (k.inode p).mounted_on
      then elim (find_mounted p k.mount) [ none ↦ panic | some d ↦ again d ]
      else (do on_inode p (λ x. record x { count = (x.count + 1) % 256 }); pure (some p))

-- `iget`, which starts again at the root of what is mounted on an inode. `n` bounds the starts: a
-- table of mounts that leads round in a circle makes the code run forever, and the model out of them.
unfoldable pub iget_rounds : ℕ → ℕ → ℕ → Cmd Kernel (Option ℕ)
iget_rounds zero dev ino k = fault
iget_rounds (suc n) dev ino k =
    at_slot (λ d. iget_rounds n d 1) dev ino (find_inode k.inode dev ino ninode 0 none) k

-- `iget`, with a start for each entry of `mount` and one more
unfoldable pub iget : ℕ → ℕ → Cmd Kernel (Option ℕ)
iget = iget_rounds 3

-- `ialloc`: the words of the inode are cleared.
abbrev pub cleared_inode : Inode → Inode
cleared_inode x = record x {
  mode = 0;
  nlink = 0;
  uid = 0;
  gid = 0;
  size0 = 0;
  size1 = 0;
  addr = replicate 8 0;
}

-- the loop of `ialloc` over the table of free inodes of entry `m` of `mount`, at most `n` times
unfoldable pub ialloc_rounds : ℕ → ℕ → ℕ → Cmd Kernel (Option ℕ)
ialloc_rounds dev m zero = λ k. fault
ialloc_rounds dev m (suc n) = do
  fs ← load_fs m
  if not (s_lt 0 fs.ninode)
      then (do modify (λ k. record k { u_error = enospc }); pure none)
      else (do
        in_range (leb fs.ninode 100)
        store_fs m (record fs { ninode = fs.ninode - 1 })
        found ← iget dev (get_or fs.inode (fs.ninode - 1) 0)
        elim found [
          | none ↦ pure none
          | some p ↦ (do
            k ← get
            if (k.inode p).mode == 0
                then (do
                  on_inode p cleared_inode
                  fs' ← load_fs m
                  store_fs m (record fs' { fmod = 1 })
                  pure (some p))
                else (do iput p; ialloc_rounds dev m n))
        ])

-- `ialloc`. An inode that `iput` gives back comes at once again, and is then free: two rounds for
-- each entry of the table are enough.
unfoldable pub ialloc : ℕ → Cmd Kernel (Option ℕ)
ialloc dev = do m ← getfs dev; ialloc_rounds dev m 201
