-- ===== src/Kernel/Bio/Order.antt =====
-- The order of the buffers: `getblk` moves the one it gives out to the front of `bufp`.
use bkunix.Prelude.{ℕ, zero, suc, ◌-◌, ◌<◌, ◌≡◌, refl, sym, ◌∙◌, List, arith}
use bkunix.Prelude.Tests.{leb, ◌==◌, if◌then◌else◌}
use bkunix.Prelude.Lists.{length, get_or, set, length-set, get_or-set_self, get_or-set_ne}
use native.Mathlib.Decide.{ℕ_discrete}
use bkunix.Kernel.Bio.{move_up}

pub length-move_up : (i : ℕ) (xs : List ℕ) → length (move_up i xs) ≡ length xs
unfolding move_up
length-move_up zero xs = refl
length-move_up (suc i) xs =
    length-move_up i (set xs (suc i) (get_or xs i 0)) ∙ length-set xs (suc i) (get_or xs i 0)

-- what stands at `p` after the entries below `i` have moved up
abbrev moved : ℕ → List ℕ → ℕ → ℕ
moved i xs p =
    if p == 0 then get_or xs 0 0 else if leb p i then get_or xs (p - 1) 0 else get_or xs p 0

get_or-set_at :
    (xs : List ℕ) (i p v : ℕ)
    → i < length xs
    → get_or (set xs i v) p 0 ≡ (if p == i then v else get_or xs p 0)
get_or-set_at xs i p v h = elim (ℕ_discrete p i) [
  | yes e ↦ rw (e, get_or-set_self xs i v 0 h) (ground arith)
  | no e ↦ rw (get_or-set_ne xs i p v 0 (λ t. e (sym t))) (ground arith)
]

get_or-move_up :
    (i : ℕ) (xs : List ℕ) (p : ℕ) → i < length xs → get_or (move_up i xs) p 0 ≡ moved i xs p
unfolding move_up
get_or-move_up zero xs p h = ground arith
get_or-move_up (suc i) xs p h =
    let v = get_or xs i 0 in
    let before = get_or-set_at xs (suc i) in
    get_or-move_up i (set xs (suc i) v) p (omega (arith, length-set xs (suc i) v))
    ∙ rw (before 0 v h, before (p - 1) v h, before p v h)
        (elim (ℕ_discrete p (suc i)) [ yes e ↦ rw e (ground arith) | no e ↦ ground arith ])

-- Behind `getblk` the entry that stood at `i`, an index of the list, stands in front, those that stood before it one place further,
-- and the others where they stood.
pub get_or-move_front :
    (i : ℕ) (xs : List ℕ) (p : ℕ)
    → i < length xs
    → get_or (set (move_up i xs) 0 (get_or xs i 0)) p 0
      ≡ (if p == 0 then get_or xs i 0 else if leb p i then get_or xs (p - 1) 0 else get_or xs p 0)
get_or-move_front i xs p h =
    get_or-set_at (move_up i xs) 0 p (get_or xs i 0) (omega (arith, length-move_up i xs))
    ∙ rw (get_or-move_up i xs p h) (ground arith)
