-- ===== src/Kernel/Names/Search.antt =====
-- The search of a directory by `namei`, against the entries that its blocks hold.
use bkunix.Prelude.{
  ℕ, zero, suc, ◌+◌, ◌*◌, ◌/◌, ◌%◌, ◌≤◌, ◌<◌, ◌≡◌, refl, ap, ◌∙◌, sym, inl, inr, Option, none, some,
  arith,
}
use mathlib.Core.Path.{subst}
use bkunix.Prelude.Tests.{◌==◌, if◌then◌else◌, Bool-cases}
use bkunix.Prelude.Run.{ok}
use native.Mathlib.Decide.{ℕ_discrete}
use bkunix.Kernel.State.{Inode, Kernel}
use bkunix.Kernel.Bio.View.{Blocks, Represents, Using-beside, Unchanged-beside}
use bkunix.Kernel.Bio.Release.{released, brelse-Represents}
use bkunix.Kernel.Iget.Bmap.Lookup.{block_of}
use bkunix.Kernel.Rdwr.File.{HasBlocks}
use bkunix.Kernel.Names.{with_entry, Found, missing, empty_end, search_dir}
use bkunix.Kernel.Names.Entries.{matches, lookup, first_empty, Ends}
use bkunix.Kernel.Names.Held.{Held, release_lem, Before, entry_buf_lem}
use bkunix.Kernel.Names.Step.{
  search_dir-present, search_dir-next, Searches, offset_behind, match_lem, Searches-next,
  Searches-present,
}

nothing_left : (eo : ℕ) → eo ≡ (if eo == 0 then 0 else eo)
nothing_left eo = ground arith

-- behind the last entry
Searches-end :
    (k : Kernel) (a : Blocks) (p i eo d b : ℕ) (bp : Option ℕ)
    → Held k a d b bp
    → Searches (search_dir zero p bp eo k) k a p zero i eo
unfolding search_dir lookup first_empty
Searches-end k a p i eo d b bp held =
    let (k', back, r, same) = release_lem k a d b bp held in
    (
      missing eo,
      k',
      rw back refl,
      r,
      ap (λ (t : Kernel). t.inode) same,
      ap (λ (t : Kernel). t.u_error) same,
      ap missing (nothing_left eo),
    )

-- the state before the next entry
Before-next :
    (k1 : Kernel) (a : Blocks) (p i j : ℕ)
    → Held k1 a (k1.inode p).dev (block_of a (k1.inode p) (i / 32)) (some j)
    → Before (with_entry j k1) a p (i + 1) (some j)
Before-next k1 a p i j (u, v, w) =
    let k2 = with_entry j k1 in
    let x = k1.inode p in
    let held : Held k2 a x.dev (block_of a x (i / 32)) (some j) =
      (Using-beside k1 k2 u, Unchanged-beside k1 k2 v, w) in
    elim (ℕ_discrete ((i + 1) % 32) 0) [
      | yes e ↦ inl (block_of a x (i / 32), held, e)
      | no e ↦
          let same : i / 32 ≡ (i + 1) / 32 = omega arith in
          inr (j, refl, subst (λ q. Held k2 a x.dev (block_of a x q) (some j)) same held, e)
    ]

search_dir_lem :
    (n : ℕ) (k : Kernel) (a : Blocks) (p i lim eo : ℕ) (bp : Option ℕ)
    → HasBlocks a (k.inode p) lim
    → 16 * (i + n) ≤ lim
    → 16 * (i + n) < 65536
    → k.u_offset1 ≡ 16 * i
    → Before k a p i bp
    → Searches (search_dir n p bp eo k) k a p n i eo
search_dir_lem zero k a p i lim eo bp h few room at (inl (b, held, e)) =
    Searches-end k a p i eo (k.inode p).dev b bp held
search_dir_lem zero k a p i lim eo bp h few room at (inr (j, e, held, u)) =
    subst (λ t. Searches (search_dir zero p t eo k) k a p zero i eo) (sym e)
      (Searches-end k a p i eo (k.inode p).dev (block_of a (k.inode p) (i / 32)) (some j) held)
search_dir_lem (suc n) k a p i lim eo bp h few room at before =
    let x = k.inode p in
    let (j, k1, call, held, same) = entry_buf_lem k a p i lim bp h at (omega arith) before in
    let k2 = with_entry j k1 in
    let words = held.2 in
    let inode : k1.inode p ≡ x = ap (λ (t : Kernel). t.inode p) same in
    let small : 16 * i + 16 < 65536 = omega arith in
    let same_match = match_lem k k1 a p n i j eo at small same words in
    elim (Bool-cases (matches a x k.u_dbuf i)) [
      | inl e ↦
          let (back, r) =
            brelse-Represents k2 j x.dev (block_of a x (i / 32)) a (Using-beside k1 k2 held.0)
              (Unchanged-beside k1 k2 held.1) in
          Searches-present k k1 a p n i j eo at small same words (search_dir (suc n) p bp eo k)
            (released j k2)
            (search_dir-present k k1 (released j k2) n p j eo bp call (same_match ∙ e) back) refl r
            e
      | inr e ↦
          Searches-next k k1 a p n i j eo at small same words (search_dir (suc n) p bp eo k)
            (search_dir n p (some j) (empty_end eo k2) k2)
            (search_dir-next k k1 n p j eo bp call (same_match ∙ e)) e
            (search_dir_lem n k2 a p (i + 1) lim (empty_end eo k2) (some j)
              (subst (λ y. HasBlocks a y lim) (sym inode) h) (omega arith) (omega arith)
              (offset_behind k k1 a p n i j eo at small same words ∙ omega arith)
              (Before-next k1 a p i j (
                subst (λ (y : Inode). Held k1 a y.dev (block_of a y (i / 32)) (some j)) (sym inode)
                  held)))
    ]

-- In a state that represents the blocks `a`, with the offset 0, the search of a directory of `n`
-- entries that has all blocks of them, and that are less than 65536 bytes, ends, and changes no block,
-- no inode and no error: where an entry that is in use has the name in `u_dbuf`, `u_dent` has the
-- number of the first such entry and the offset is its end; where none has, the result is the end of
-- the first entry that is not in use, or 0 where all are.
pub search_dir-lookup :
    (k : Kernel) (a : Blocks) (p n : ℕ)
    → Represents k a
    → HasBlocks a (k.inode p) (16 * n)
    → 16 * n < 65536
    → k.u_offset1 ≡ 0
    → (r : Found) × (k' : Kernel) × (search_dir n p none 0 k ≡ ok r k')
      × Represents k' a
      × (k'.inode ≡ k.inode)
      × (k'.u_error ≡ k.u_error)
      × Ends a (k.inode p) (first_empty a (k.inode p) n 0) (lookup a (k.inode p) k.u_dbuf n 0) r k'
search_dir-lookup k a p n r h room at =
    search_dir_lem n k a p 0 (16 * n) 0 none h (omega arith) (omega arith) at (inl (0, r, refl))
