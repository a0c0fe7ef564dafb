-- ===== src/Kernel/Names/Step.antt =====
-- One entry of the search of a directory.
use bkunix.Prelude.{
  ℕ, suc, ◌+◌, ◌*◌, ◌/◌, ◌%◌, ◌<◌, ◌≡◌, refl, ap, ap₂, ◌∙◌, sym, true, false, Option, some, not,
  ◌&&◌, arith,
}
use mathlib.Core.Path.{subst}
use bkunix.Prelude.Tests.{◌==◌, if◌then◌else◌}
use bkunix.Prelude.Lists.{get_or}
use bkunix.Prelude.Run.{Run, ok, and_then, ◌>>◌, pure}
use bkunix.Kernel.State.{Kernel}
use bkunix.Kernel.Bio.{brelse}
use bkunix.Kernel.Bio.View.{Blocks, Represents, beside}
use bkunix.Kernel.Iget.Bmap.Lookup.{block_of}
use bkunix.Kernel.Names.{
  name_at, entry_buf, with_entry, same_name, Found, present, is_match, empty_end, search_dir,
}
use bkunix.Kernel.Names.Entries.{entry_ino, entry_name, matches, lookup, first_empty, Ends}

-- the arguments behind an entry
entered :
    (k k1 : Kernel) (a : Blocks) (p i j : ℕ)
    → k.u_offset1 ≡ 16 * i
    → k1 ≡ beside k1 k
    → (k1.buf j).data_words ≡ a (k.inode p).dev (block_of a (k.inode p) (i / 32))
    → ((with_entry j k1).u_dent_ino ≡ entry_ino a (k.inode p) i)
      × ((with_entry j k1).u_dent_name ≡ entry_name a (k.inode p) i)
entered k k1 a p i j at same words =
    let o : k1.u_offset1 % 512 ≡ 16 * (i % 32) =
      ap (λ (t : Kernel). t.u_offset1 % 512) same ∙ omega (arith, at) in
    (
      ap₂ (λ ws q. get_or ws (q / 2) 0) words o
          ∙ ap (λ q. get_or (a (k.inode p).dev (block_of a (k.inode p) (i / 32))) q 0)
              (omega arith),
      ap₂ (λ ws q. name_at ws (q + 2) 14) words o,
    )

pub search_dir-present :
    (k k1 k2 : Kernel) (n p j eo : ℕ) (bp : Option ℕ)
    → entry_buf p bp k ≡ ok j k1
    → is_match (with_entry j k1) ≡ true
    → brelse j (with_entry j k1) ≡ ok tt k2
    → search_dir (suc n) p bp eo k ≡ ok present k2
unfolding search_dir
search_dir-present k k1 k2 n p j eo bp call e back = rw call (
    ap
      (λ t.
        (if t
            then (brelse j >> pure present)
            else search_dir n p (some j) (empty_end eo (with_entry j k1)))
          (with_entry j k1))
      e
    ∙ ap (λ r. and_then r (λ t. pure present)) back)

pub search_dir-next :
    (k k1 : Kernel) (n p j eo : ℕ) (bp : Option ℕ)
    → entry_buf p bp k ≡ ok j k1
    → is_match (with_entry j k1) ≡ false
    → search_dir (suc n) p bp eo k
      ≡ search_dir n p (some j) (empty_end eo (with_entry j k1)) (with_entry j k1)
unfolding search_dir
search_dir-next k k1 n p j eo bp call e = rw call (
    ap
      (λ t.
        (if t
            then (brelse j >> pure present)
            else search_dir n p (some j) (empty_end eo (with_entry j k1)))
          (with_entry j k1))
      e)

-- how the search of `n` entries from `i` on, in which `m` results, ends for the state `t`
abbrev pub Searches : Run Kernel Found → Kernel → Blocks → ℕ → ℕ → ℕ → ℕ → Type 0
Searches m t a p n i eo =
    (r : Found) × (k' : Kernel) × (m ≡ ok r k')
    × Represents k' a
    × (k'.inode ≡ t.inode)
    × (k'.u_error ≡ t.u_error)
    × Ends a (t.inode p) (if eo == 0 then first_empty a (t.inode p) n i else eo)
        (lookup a (t.inode p) t.u_dbuf n i) r k'

empty_lem :
    (u eo o f : ℕ)
    → 0 < o
    → (if (if u == 0 && eo == 0 then o else eo) == 0
        then f
        else (if u == 0 && eo == 0 then o else eo))
      ≡ (if eo == 0 then (if u == 0 then o else f) else eo)
empty_lem u eo o f h = ground arith

-- one entry that does not match, and the others
module _ (k k1 : Kernel) (a : Blocks) (p n i j eo : ℕ) (at : k.u_offset1 ≡ 16 * i)
    (room : 16 * i + 16 < 65536) (same : k1 ≡ beside k1 k)
    (words : (k1.buf j).data_words ≡ a (k.inode p).dev (block_of a (k.inode p) (i / 32))) where
  pub offset_behind : (with_entry j k1).u_offset1 ≡ 16 * i + 16
  offset_behind = ap (λ (t : Kernel). (t.u_offset1 + 16) % 65536) same ∙ omega (arith, at)

  pub match_lem : is_match (with_entry j k1) ≡ matches a (k.inode p) k.u_dbuf i
  match_lem =
      let (ino, name) = entered k k1 a p i j at same words in
      ap₂ (λ u w. not (u == 0) && same_name k1.u_dbuf w) ino name
      ∙ ap
          (λ (t : Kernel).
            not (entry_ino a (k.inode p) i == 0) && same_name t.u_dbuf (entry_name a (k.inode p) i))
          same

  empty_behind :
      (f : ℕ)
      → (if empty_end eo (with_entry j k1) == 0 then f else empty_end eo (with_entry j k1))
        ≡ (if eo == 0 then (if entry_ino a (k.inode p) i == 0 then 16 * i + 16 else f) else eo)
  empty_behind f =
      let (ino, name) = entered k k1 a p i j at same words in
      empty_lem (with_entry j k1).u_dent_ino eo (with_entry j k1).u_offset1 f
        (omega (arith, offset_behind))
      ∙ ap₂ (λ u o. if eo == 0 then (if u == 0 then o else f) else eo) ino offset_behind

  pub Searches-next :
      (m m' : Run Kernel Found)
      → m ≡ m'
      → matches a (k.inode p) k.u_dbuf i ≡ false
      → Searches m' (with_entry j k1) a p n (i + 1) (empty_end eo (with_entry j k1))
      → Searches m k a p (suc n) i eo
  unfolding lookup first_empty
  Searches-next m m' step e found =
      let (r, k', call, rep, inodes, errors, ends) =
        subst (λ (t : Kernel). Searches m' t a p n (i + 1) (empty_end eo (with_entry j k1))) same
          found in
      (
        r,
        k',
        step ∙ call,
        rep,
        inodes,
        errors,
        subst
            (λ b.
              Ends a (k.inode p)
                (if eo == 0
                  then (if entry_ino a (k.inode p) i == 0
                      then 16 * i + 16
                      else first_empty a (k.inode p) n (i + 1))
                  else eo)
                (if b then some i else lookup a (k.inode p) k.u_dbuf n (i + 1)) r k')
            (sym e)
            (subst (λ o. Ends a (k.inode p) o (lookup a (k.inode p) k.u_dbuf n (i + 1)) r k')
              (empty_behind (first_empty a (k.inode p) n (i + 1))) ends),
      )

  pub Searches-present :
      (m : Run Kernel Found) (k2 : Kernel)
      → m ≡ ok present k2
      → k2 ≡ beside k2 (with_entry j k1)
      → Represents k2 a
      → matches a (k.inode p) k.u_dbuf i ≡ true
      → Searches m k a p (suc n) i eo
  unfolding lookup first_empty
  Searches-present m k2 call same2 rep e =
      let (ino, name) = entered k k1 a p i j at same words in
      (
        present,
        k2,
        call,
        rep,
        ap (λ (t : Kernel). t.inode) same2 ∙ ap (λ (t : Kernel). t.inode) same,
        ap (λ (t : Kernel). t.u_error) same2 ∙ ap (λ (t : Kernel). t.u_error) same,
        subst
            (λ b.
              Ends a (k.inode p)
                (if eo == 0
                  then (if entry_ino a (k.inode p) i == 0
                      then 16 * i + 16
                      else first_empty a (k.inode p) n (i + 1))
                  else eo)
                (if b then some i else lookup a (k.inode p) k.u_dbuf n (i + 1)) present k2)
            (sym e)
            (
              refl,
              ap (λ (t : Kernel). t.u_dent_ino) same2 ∙ ino,
              ap (λ (t : Kernel). t.u_offset1) same2 ∙ offset_behind,
            ),
      )
