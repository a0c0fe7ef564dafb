-- ===== src/Kernel/Names/Entries.antt =====
-- The entries of a directory, and how the search of them ends.
use bkunix.Prelude.{
  ℕ, zero, suc, ◌+◌, ◌*◌, ◌/◌, ◌%◌, ◌≡◌, Bool, Option, none, some, List, not, ◌&&◌,
}
use bkunix.Prelude.Tests.{◌==◌, if◌then◌else◌}
use bkunix.Prelude.Lists.{get_or}
use bkunix.Kernel.State.{Inode, Kernel}
use bkunix.Kernel.Bio.View.{Blocks}
use bkunix.Kernel.Iget.Bmap.Lookup.{block_of}
use bkunix.Kernel.Names.{name_at, same_name, Found, missing, present}

-- the entries of a directory
module _ (a : Blocks) (x : Inode) where
  abbrev pub entry_ino : ℕ → ℕ
  entry_ino i = get_or (a x.dev (block_of a x (i / 32))) (8 * (i % 32)) 0

  abbrev pub entry_name : ℕ → List ℕ
  entry_name i = name_at (a x.dev (block_of a x (i / 32))) (16 * (i % 32) + 2) 14

  abbrev pub matches : List ℕ → ℕ → Bool
  matches name i = not (entry_ino i == 0) && same_name name (entry_name i)

-- The first of `n` entries from `i` on that has a name and is in use.
unfoldable pub lookup : Blocks → Inode → List ℕ → ℕ → ℕ → Option ℕ
lookup a x name zero i = none
lookup a x name (suc n) i = if matches a x name i then some i else lookup a x name n (i + 1)

-- The end of the first of `n` entries from `i` on that is not in use, or 0.
unfoldable pub first_empty : Blocks → Inode → ℕ → ℕ → ℕ
first_empty a x zero i = 0
first_empty a x (suc n) i = if entry_ino a x i == 0 then 16 * i + 16 else first_empty a x n (i + 1)

-- how the search of `n` entries from `i` on ends
abbrev pub Ends : Blocks → Inode → ℕ → Option ℕ → Found → Kernel → Type 0
Ends a x eo none r k = r ≡ missing eo
Ends a x eo (some i) r k =
    (r ≡ present) × (k.u_dent_ino ≡ entry_ino a x i) × (k.u_offset1 ≡ 16 * i + 16)
