-- ===== src/Kernel/Files/Counts.antt =====
-- The reference counts of the table of files: how the lists of descriptors and of files change.
use bkunix.Prelude.{
  ℕ, zero, suc, ◌+◌, ◌≤◌, ◌<◌, ◌≡◌, ◌≢◌, refl, ap, Option, none, some, List, [], ◌∷◌, arith,
}
use bkunix.Prelude.Tests.{◌==◌, if◌then◌else◌, eq→==, ne→==}
use bkunix.Prelude.Lists.{length, get_or, set}
use native.Mathlib.Decide.{ℕ_discrete}
use bkunix.Kernel.State.{File, Kernel}
use bkunix.Kernel.Files.{file_at, first_closed, first_unused}

-- 1 where a descriptor refers to the file `f`
abbrev pub one_if : ℕ → Option ℕ → ℕ
one_if f none = 0
one_if f (some g) = if g == f then 1 else 0

-- the number of descriptors that refer to the file `f`
abbrev pub refs : ℕ → List (Option ℕ) → ℕ
refs f [] = 0
refs f (x ∷ xs) = one_if f x + refs f xs

-- The count of each file is the number of the descriptors that refer to it, with the references
-- `other` of the processes that are swapped out, and is far below 128, where its
-- signed byte would turn negative.
pub record Counts (other : ℕ → ℕ) (k : Kernel) : Type 0 where
  pub slots : length k.u_ofile ≡ 15
  pub files : length k.file ≡ 20
  pub few : (f : ℕ) → other f < 100
  pub open_only : (i f : ℕ) → get_or k.u_ofile i none ≡ some f → f < 20
  pub counted :
      (f : ℕ) (x : File) → file_at k.file f ≡ some x → x.count ≡ refs f k.u_ofile + other f

pub one_if-bound : (f : ℕ) (x : Option ℕ) → one_if f x ≤ 1
one_if-bound f none = omega arith
one_if-bound f (some g) = ground arith

pub refs-bound : (f : ℕ) (xs : List (Option ℕ)) → refs f xs ≤ length xs
refs-bound f [] = omega arith
refs-bound f (x ∷ xs) = omega (arith, refs-bound f xs, one_if-bound f x)

-- A descriptor set anew.
pub refs-set :
    (f i : ℕ) (x : Option ℕ) (xs : List (Option ℕ))
    → i < length xs
    → refs f (set xs i x) + one_if f (get_or xs i none) ≡ one_if f x + refs f xs
refs-set f i x [] h = absurd (omega arith)
refs-set f zero x (y ∷ xs) h = omega arith
refs-set f (suc i) x (y ∷ xs) h = omega (arith, refs-set f i x xs (omega arith))

pub file_at-set_self :
    (fs : List File) (f : ℕ) (x : File) → f < length fs → file_at (set fs f x) f ≡ some x
unfolding file_at
file_at-set_self [] f x h = absurd (omega arith)
file_at-set_self (y ∷ fs) zero x h = refl
file_at-set_self (y ∷ fs) (suc f) x h = file_at-set_self fs f x (omega arith)

pub file_at-set_ne :
    (fs : List File) (f g : ℕ) (x : File) → f ≢ g → file_at (set fs f x) g ≡ file_at fs g
unfolding file_at
file_at-set_ne [] f g x h = refl
file_at-set_ne (y ∷ fs) zero zero x h = absurd (h refl)
file_at-set_ne (y ∷ fs) zero (suc g) x h = refl
file_at-set_ne (y ∷ fs) (suc f) zero x h = refl
file_at-set_ne (y ∷ fs) (suc f) (suc g) x h = file_at-set_ne fs f g x (λ t. h (ap suc t))

pub file_at-in : (fs : List File) (f : ℕ) → f < length fs → (x : File) × (file_at fs f ≡ some x)
unfolding file_at
file_at-in [] f h = absurd (omega arith)
file_at-in (y ∷ fs) zero h = (y, refl)
file_at-in (y ∷ fs) (suc f) h = file_at-in fs f (omega arith)

pub get_or-in : (xs : List (Option ℕ)) (i f : ℕ) → get_or xs i none ≡ some f → i < length xs
get_or-in [] i f h = cc
get_or-in (x ∷ xs) zero f h = omega arith
get_or-in (x ∷ xs) (suc i) f h = omega (arith, get_or-in xs i f h)

-- the descriptor that `ufalloc` finds is closed
pub first_closed_lem :
    (xs : List (Option ℕ)) (i j : ℕ)
    → first_closed xs i ≡ some j
    → (q : ℕ) × (j ≡ i + q) × (q < length xs) × (get_or xs q none ≡ none)
unfolding first_closed
first_closed_lem [] i j h = cc
first_closed_lem (none ∷ xs) i j h =
    let t : some i ≡ some j = h in (0, ground arith, omega arith, refl)
first_closed_lem (some f ∷ xs) i j h =
    let (q, at, lt, closed) = first_closed_lem xs (i + 1) j h in
    (suc q, omega arith, omega arith, closed)

-- the file that `falloc` finds is not used
pub first_unused_lem :
    (fs : List File) (i j : ℕ)
    → first_unused fs i ≡ some j
    → (q : ℕ) × (x : File) × (j ≡ i + q) × (q < length fs) × (file_at fs q ≡ some x) × (x.count ≡ 0)
unfolding first_unused file_at
first_unused_lem [] i j h = cc
first_unused_lem (y ∷ fs) i j h = elim (ℕ_discrete y.count 0) [
  | yes e ↦
      let t : some i ≡ some j = rw (eq→== y.count 0 e) at h in
      (0, y, ground arith, omega arith, refl, e)
  | no e ↦
      let (q, x, at, lt, found, unused) =
        first_unused_lem fs (i + 1) j (rw (ne→== y.count 0 e) at h) in
      (suc q, x, omega arith, omega arith, found, unused)
]
