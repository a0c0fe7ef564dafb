-- ===== src/Kernel/Iget/Update.antt =====
-- `iinit` and `update` of src/sys/alloc.c: the start and the writing back of everything.
pub mod Stored
use bkunix.Prelude.{ℕ, zero, suc, ◌+◌, none, some, List, [], ◌∷◌, not}
use bkunix.Prelude.Tests.{◌==◌, if◌then◌else◌}
use bkunix.Prelude.Run.{Cmd, pure, ◌>>=◌, ◌>>◌, get, modify}
use bkunix.Kernel.State.{Filsys, Mount, Kernel, nodev, ninode}
use bkunix.Kernel.Bio.{panic, on_buf, brelse, bwrite, bflush, getblk, bread}
use bkunix.Kernel.Alloc.{store_fs, filsys_words, filsys_of}
use bkunix.Kernel.Iget.{iupdat}

-- `iinit`. `any` is the block number that the call of `getblk` leaves out, and the super block is
-- then held by the first entry of `mount`, whose device is ROOTDEV, 0.
unfoldable pub iinit : ℕ → Cmd Kernel (Unit {0})
iinit any = do
  j ← bread 0 1
  j' ← getblk nodev any
  k ← get
  if not (k.u_error == 0) then panic else (do
    let fs = filsys_of (k.buf j).data_words
    on_buf j' (λ b. record b { data_words = (k.buf j).data_words })
    brelse j
    modify (λ k. record k { mount = root_entry fs k.mount; time0 = fs.time0; time1 = fs.time1 }))
  where
    root_entry : Filsys → List Mount → List Mount
    root_entry fs [] = []
    root_entry fs (m ∷ rest) = record m { dev = 0; fs = some fs } ∷ rest

-- `update`: the super block of the entry `m` of `mount`
unfoldable pub update_super : ℕ → ℕ → Filsys → Cmd Kernel (Unit {0})
update_super m dev fs = do
  j ← getblk dev 1
  k ← get
  let fs' = record fs { time0 = k.time0; time1 = k.time1; fmod = 0 }
  store_fs m fs'
  on_buf j (λ b. record b { data_words = filsys_words fs' })
  bwrite j

-- the loop of `update` over `mount`, from the entry `m` on
unfoldable pub update_supers : List Mount → ℕ → Cmd Kernel (Unit {0})
update_supers [] m = pure tt
update_supers (x ∷ rest) m = do
  elim x.fs [
    | none ↦ pure tt
    | some fs ↦ (if fs.fmod == 0 then pure tt else update_super m x.dev fs)
  ]
  update_supers rest (m + 1)

-- the loop of `update` over the inodes, with `n` of them left from `p` on
unfoldable pub update_inodes : ℕ → ℕ → Cmd Kernel (Unit {0})
update_inodes zero p = pure tt
update_inodes (suc n) p = do iupdat p; update_inodes n (p + 1)

-- `update`
unfoldable pub update : Cmd Kernel (Unit {0})
update = do k ← get; update_supers k.mount 0; update_inodes ninode 0; bflush nodev
