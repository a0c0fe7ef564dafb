-- ===== src/Kernel/Dirs.antt =====
-- `maknode` and `wdir` of src/sys/iget.c: a new inode, and its entry in the directory at which `namei`
-- stopped.
pub mod Bytes
pub mod Enter
use bkunix.Prelude.{ℕ, ◌+◌, ◌/◌, ◌%◌, bit_or, true, Option, none, some, List, [], ◌∷◌}
use bkunix.Prelude.Run.{Cmd, pure, ◌>>=◌, ◌>>◌, get, modify}
use bkunix.Kernel.State.{Kernel}
use bkunix.Kernel.Bio.{put}
use bkunix.Kernel.Iget.{on_inode, iput}
use bkunix.Kernel.Iget.Lookup.{ialloc}
use bkunix.Kernel.Rdwr.{writei}

-- bytes in the memory from an address on
unfoldable pub stand_at : ℕ → List ℕ → (ℕ → ℕ) → ℕ → ℕ
stand_at a [] core = core
stand_at a (b ∷ bs) core = put (stand_at (a + 1) bs core) a b

-- the bytes of `u_dent`
abbrev pub dent_bytes : Kernel → List ℕ
dent_bytes k = k.u_dent_ino % 256 ∷ k.u_dent_ino / 256 ∷ k.u_dent_name

-- `u_base` and `u_count` for a transfer of `u_dent`, which stands at the address `dent`
abbrev pub from_dent : ℕ → Kernel → Kernel
from_dent dent k = record k {
  u_count = 16;
  u_base = dent;
  core = stand_at dent (dent_bytes k) k.core;
}

-- The function `ttwrite` of the terminal and the address of `u_dent` are parameters of the section.
module _ (ttwrite : Cmd Kernel (Unit {0})) (dent : ℕ) where
  -- `wdir`
  unfoldable pub wdir : ℕ → Cmd Kernel (Unit {0})
  wdir p = do
    modify (λ k. record k { u_dent_ino = (k.inode p).number; u_dent_name = k.u_dbuf })
    modify (from_dent dent)
    k ← get
    writei ttwrite k.u_pdir
    iput k.u_pdir

  -- `maknode`; 32768 is `IALLOC`
  unfoldable pub maknode : ℕ → Cmd Kernel (Option ℕ)
  maknode mode = do
    k ← get
    found ← ialloc (k.inode k.u_pdir).dev
    elim found [
      | none ↦ pure none
      | some p ↦ (do
        k' ← get
        on_inode p (λ x. record x {
          upd = true;
          mode = bit_or mode 32768;
          nlink = 1;
          uid = k'.u_uid;
          gid = k'.u_gid;
        })
        wdir p
        pure (some p))
    ]
