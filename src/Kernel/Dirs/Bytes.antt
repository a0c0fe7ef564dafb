-- ===== src/Kernel/Dirs/Bytes.antt =====
-- The bytes of a directory entry, in the memory and in a file.
use bkunix.Prelude.{
  ℕ, zero, suc, ◌+◌, ◌*◌, ◌/◌, ◌%◌, ◌<◌, ◌≡◌, ◌≢◌, refl, ap, ap₂, ◌∙◌, sym, inl, inr, List, [], ◌∷◌,
  none, some, Bool, true, false, not, ◌&&◌, arith,
}
use bkunix.Prelude.Tests.{◌==◌, eq→==, Bool-cases}
use bkunix.Prelude.Lists.{get_or, length}
use mathlib.Core.Path.{subst}
use bkunix.Kernel.State.{Inode}
use bkunix.Kernel.Bio.Cache.{put_self, put_ne}
use bkunix.Kernel.Bio.View.{Blocks}
use bkunix.Kernel.Iget.Bmap.Lookup.{block_of}
use bkunix.Kernel.Iomove.{byte_at}
use bkunix.Kernel.Names.{name_at, same_name}
use bkunix.Kernel.Names.Entries.{entry_ino, entry_name, matches, lookup, first_empty}
use bkunix.Kernel.Rdwr.File.{file_byte}
use bkunix.Kernel.Dirs.{stand_at}

-- Bytes that are put into the memory stand there.
pub stand_at_lem :
    (a : ℕ) (bs : List ℕ) (core : ℕ → ℕ) (i : ℕ)
    → i < length bs
    → stand_at a bs core (a + i) ≡ get_or bs i 0
unfolding stand_at
stand_at_lem a [] core i h = absurd (omega arith)
stand_at_lem a (b ∷ bs) core zero h =
    ap (stand_at a (b ∷ bs) core) (omega arith) ∙ put_self (stand_at (a + 1) bs core) a b
stand_at_lem a (b ∷ bs) core (suc i) h =
    put_ne (stand_at (a + 1) bs core) a (a + suc i) b (λ e. omega arith)
    ∙ ap (stand_at (a + 1) bs core) (omega arith)
    ∙ stand_at_lem (a + 1) bs core i (omega arith)

-- A name in a block is the list of its bytes.
pub name_at_lem :
    (ws xs : List ℕ) (o : ℕ)
    → ((i : ℕ) → i < length xs → byte_at ws (o + i) ≡ get_or xs i 0)
    → name_at ws o (length xs) ≡ xs
unfolding name_at
name_at_lem ws [] o h = refl
name_at_lem ws (x ∷ xs) o h =
    ap₂ (λ c cs. c ∷ cs) (ap (byte_at ws) (omega arith) ∙ h 0 (omega arith))
      (name_at_lem ws xs (o + 1) (λ i q. ap (byte_at ws) (omega arith) ∙ h (suc i) (omega arith)))

pub name_at-agree :
    (ws ws' : List ℕ) (o n : ℕ)
    → ((i : ℕ) → i < n → byte_at ws (o + i) ≡ byte_at ws' (o + i))
    → name_at ws o n ≡ name_at ws' o n
unfolding name_at
name_at-agree ws ws' o zero h = refl
name_at-agree ws ws' o (suc n) h =
    let e : o + 0 ≡ o = omega arith in
    ap₂ (λ c cs. c ∷ cs) (ap (byte_at ws) (sym e) ∙ h 0 (omega arith) ∙ ap (byte_at ws') e)
      (name_at-agree ws ws' (o + 1) n (λ i q.
        ap (byte_at ws) (omega arith) ∙ h (suc i) (omega arith) ∙ ap (byte_at ws') (omega arith)))

-- A word of a block in 16 bits, by its bytes.
pub word-bytes :
    (ws : List ℕ) (s : ℕ)
    → get_or ws (8 * s) 0 % 65536 ≡ byte_at ws (16 * s) + 256 * byte_at ws (16 * s + 1)
word-bytes ws s =
    let even : (16 * s) % 2 ≡ 0 = omega arith in
    let odd : (16 * s + 1) % 2 ≡ 1 = omega arith in
    let half : (16 * s) / 2 ≡ 8 * s = omega arith in
    let half' : (16 * s + 1) / 2 ≡ 8 * s = omega arith in rw (even, odd, half, half') (omega arith)

-- A name that is the same as itself
pub same_name_self : (xs : List ℕ) → same_name xs xs ≡ true
unfolding same_name
same_name_self [] = refl
same_name_self (x ∷ xs) = rw (eq→== x x refl, same_name_self xs) refl

-- the bytes of an entry, as bytes of the directory
pub entry-file_byte :
    (a : Blocks) (x : Inode) (i j : ℕ)
    → j < 16
    → byte_at (a x.dev (block_of a x (i / 32))) (16 * (i % 32) + j) ≡ file_byte a x (16 * i + j)
entry-file_byte a x i j h =
    ap₂ (λ m o. byte_at (a x.dev (block_of a x m)) o) (omega arith) (omega arith)

-- Where the first `e` entries from `i` on are in use and do not have the name, and those of the
-- directory `x'` have the same names, the first one with the name there is the next one.
pub lookup-next :
    (a a' : Blocks) (x x' : Inode) (name : List ℕ) (e n i : ℕ)
    → e < n
    → lookup a x name e i ≡ none
    → first_empty a x e i ≡ 0
    → ((j : ℕ) → j < e → entry_name a' x' (i + j) ≡ entry_name a x (i + j))
    → matches a' x' name (i + e) ≡ true
    → lookup a' x' name n i ≡ some (i + e)
unfolding lookup first_empty
lookup-next a a' x x' name zero zero i lt none_has full same here = absurd (omega arith)
lookup-next a a' x x' name zero (suc n) i lt none_has full same here =
    let at : i + 0 ≡ i = omega arith in
    rw (subst (λ t. matches a' x' name t ≡ true) at here) (ap some (sym at))
lookup-next a a' x x' name (suc e) zero i lt none_has full same here = absurd (omega arith)
lookup-next a a' x x' name (suc e) (suc n) i lt none_has full same here =
    elim (Bool-cases (entry_ino a x i == 0)) [
      | inl z ↦ absurd (omega (arith, rw z at full))
      | inr z ↦ elim (Bool-cases (same_name name (entry_name a x i))) [
        | inl s ↦ absurd (some≢none (rw (z, s) at none_has))
        | inr s ↦
            let other : same_name name (entry_name a' x' i) ≡ false =
              ap (same_name name) (
                ap (entry_name a' x') (omega arith)
                ∙ same 0 (omega arith)
                ∙ ap (entry_name a x) (omega arith))
              ∙ s in
            rw (&&-false (not (entry_ino a' x' i == 0)) (same_name name (entry_name a' x' i)) other)
              (lookup-next a a' x x' name e n (i + 1) (omega arith) (rw (z, s) at none_has)
                  (rw z at full)
                  (λ j q.
                    ap (entry_name a' x') (omega arith)
                    ∙ same (suc j) (omega arith)
                    ∙ ap (entry_name a x) (omega arith))
                  (subst (λ t. matches a' x' name t ≡ true) (omega arith) here)
                ∙ ap some (omega arith))
      ]
    ]
  where
    &&-false : (b c : Bool) → c ≡ false → (b && c) ≡ false
    &&-false true c h = h
    &&-false false c h = refl

    some≢none : some i ≢ none
    some≢none e = cc e
