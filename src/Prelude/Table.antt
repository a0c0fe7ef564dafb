-- ===== src/Prelude/Table.antt =====
-- Over a small range, a claim is checked at every value.
use Prim.Native.Nat.{ℕ, zero, suc, ◌<◌}
use mathlib.Core.Path.{◌≡◌}
use mathlib.Core.Bool.{Bool, true, ◌&&◌}
use native.Mathlib.Omega.{arith}

-- `claim` at each of the first `bound` numbers
unfoldable pub everywhere : (claim : ℕ → Bool) (bound : ℕ) → Bool
everywhere claim zero = true
everywhere claim (suc top) = everywhere claim top && claim top

pub everywhere_at :
    (claim : ℕ → Bool) (bound value : ℕ)
    → value < bound
    → everywhere claim bound ≡ true
    → claim value ≡ true
unfolding everywhere
everywhere_at claim zero value inside all = absurd (omega arith)
everywhere_at claim (suc top) value inside all = grind (arith, everywhere_at claim top value)
