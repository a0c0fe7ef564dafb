-- ===== src/Kernel/Alloc/Chain.antt =====
-- The free list as an abstract list of blocks, in the order in which `alloc` gives them out.
use bkunix.Prelude.{
  ℕ, zero, suc, ◌+◌, ◌-◌, ◌≤◌, ◌<◌, ◌≡◌, ◌≢◌, refl, ap, ◌⊎◌, false, some, List, [], ◌∷◌,
}
use mathlib.Core.Path.{subst}
use bkunix.Prelude.Tests.{◌==◌, if◌then◌else◌}
use bkunix.Prelude.Lists.{length, get_or, take, drop}
use bkunix.Kernel.State.{Filsys, Mount, Kernel}
use bkunix.Kernel.Alloc.{s_lt, serves, find_fs, fs_at, put_fs}
use bkunix.Kernel.Bio.View.{Blocks}

abbrev pub All : (ℕ → Type 0) → List ℕ → Type 0
All p [] = Unit {0}
All p (x ∷ xs) = p x × All p xs

abbrev pub Distinct : List ℕ → Type 0
Distinct [] = Unit {0}
Distinct (x ∷ xs) = All (λ y. x ≢ y) xs × Distinct xs

-- the table from which the next block is taken, once `b` is taken from one of `n` entries
abbrev pub next_count : (ℕ → List ℕ) → ℕ → ℕ → ℕ
next_count a n b = if n == 1 then get_or (a b) 0 0 else n - 1

abbrev pub next_table : (ℕ → List ℕ) → ℕ → ℕ → List ℕ → List ℕ
next_table a n b xs = if n == 1 then take 100 (drop 1 (a b)) else xs

-- The table `xs`, of which `n` entries count, leads to the free blocks of the list: the last entry
-- is the next block, and the first one is a block that holds the next table.
abbrev pub Chain : (ℕ → List ℕ) → ℕ → List ℕ → List ℕ → Type 0
Chain a n xs [] = (length xs ≡ 100) × ((s_lt 0 n ≡ false) ⊎ ((n ≡ 1) × (get_or xs 0 0 ≡ 0)))
Chain a n xs (b ∷ bs) =
    (length xs ≡ 100)
    × (1 ≤ n)
    × (n ≤ 100)
    × (get_or xs (n - 1) 0 ≡ b)
    × (b ≢ 0)
    × Chain a (next_count a n b) (next_table a n b xs) bs

-- Only the blocks of the list matter.
pub Chain-agree :
    (a a' : ℕ → List ℕ) (n : ℕ) (xs bs : List ℕ)
    → All (λ b. a b ≡ a' b) bs
    → Chain a n xs bs
    → Chain a' n xs bs
Chain-agree a a' n xs [] h c = c
Chain-agree a a' n xs (b ∷ bs) (e, h) (room, some_left, few, top, set_, c) = (
  room,
  some_left,
  few,
  top,
  set_,
  subst
      (λ t.
        Chain a' (if n == 1 then get_or t 0 0 else n - 1)
          (if n == 1 then take 100 (drop 1 t) else xs) bs)
      e (Chain-agree a a' (next_count a n b) (next_table a n b xs) bs h c),
)

pub All-map : (p q : ℕ → Type 0) (bs : List ℕ) → ((b : ℕ) → p b → q b) → All p bs → All q bs
All-map p q [] f h = tt
All-map p q (b ∷ bs) f (x, h) = (f b x, All-map p q bs f h)

-- an entry of `mount` read behind a write of it
pub fs_at-put_fs :
    (ms : List Mount) (m : ℕ) (fs fs' : Filsys)
    → fs_at ms m ≡ some fs
    → fs_at (put_fs ms m fs') m ≡ some fs'
unfolding fs_at put_fs
fs_at-put_fs [] m fs fs' h = cc
fs_at-put_fs (x ∷ xs) zero fs fs' h = refl
fs_at-put_fs (x ∷ xs) (suc m) fs fs' h = fs_at-put_fs xs m fs fs' h

pub put_fs-put_fs :
    (ms : List Mount) (m : ℕ) (fs fs' : Filsys) → put_fs (put_fs ms m fs) m fs' ≡ put_fs ms m fs'
unfolding put_fs
put_fs-put_fs [] m fs fs' = refl
put_fs-put_fs (x ∷ xs) zero fs fs' = refl
put_fs-put_fs (x ∷ xs) (suc m) fs fs' = ap (λ t. x ∷ t) (put_fs-put_fs xs m fs fs')

pub find_fs-put_fs :
    (d : ℕ) (ms : List Mount) (m i : ℕ) (fs fs' : Filsys)
    → fs_at ms m ≡ some fs
    → find_fs d (put_fs ms m fs') i ≡ find_fs d ms i
unfolding find_fs fs_at put_fs
find_fs-put_fs d [] m i fs fs' h = refl
find_fs-put_fs d (x ∷ xs) zero i fs fs' h = rw h refl
find_fs-put_fs d (x ∷ xs) (suc m) i fs fs' h =
    ap (λ t. if serves d x then some i else t) (find_fs-put_fs d xs m (i + 1) fs fs' h)

-- a file system of the mount table, its sizes those of a diskette or less
pub record IsMounted (k : Kernel) (d m : ℕ) (fs : Filsys) : Type 0 where
  pub found : find_fs d k.mount 0 ≡ some m
  pub at : fs_at k.mount m ≡ some fs
  pub small : fs.fsize ≤ 500
  pub inodes : fs.isize + 2 ≤ fs.fsize

abbrev pub InData : Filsys → ℕ → Type 0
InData fs b = (fs.isize + 2 ≤ b) × (b < fs.fsize)

-- The free blocks of a mounted device are those of the list: they are data blocks, each once, and
-- the super block leads to them.
pub record FreeList (k : Kernel) (a : Blocks) (d m : ℕ) (fs : Filsys) (bs : List ℕ) : Type 0 where
  pub mounted : IsMounted k d m fs
  pub chain : Chain (a d) fs.nfree fs.free bs
  pub inside : All (InData fs) bs
  pub distinct : Distinct bs
