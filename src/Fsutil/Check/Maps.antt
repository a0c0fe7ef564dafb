-- ===== src/Fsutil/Check/Maps.antt =====
-- The tables of fsutil/check.c: what is set in one place reads back there and nowhere else.
use bkunix.Prelude.{
  ℕ, ◌*◌, ◌/◌, ◌%◌, ◌^◌, ◌<◌, ◌≡◌, refl, sym, Bool, true, false, List, ◌||◌, ◌&&◌, ◌-◌, not,
  bit_and, bit_or, arith,
}
use bkunix.Prelude.Tests.{◌==◌, if◌then◌else◌, ==_iff}
use bkunix.Prelude.Lists.{length, get_or, get_or-set_self, get_or-set_ne}
use bkunix.Prelude.Table.{everywhere, everywhere_at}
use native.Mathlib.Decide.{ℕ_discrete}
use bkunix.Fsutil.Check.{
  put_state, state_in, shift_of, set_inode_state, inode_state, is_marked, mark, mark_block_free,
}

-- every entry of a table is a byte
abbrev pub AreBytes : List ℕ → Type 0
AreBytes map = (k : ℕ) → get_or map k 0 < 256

state_test : ℕ → ℕ → ℕ → ℕ → Bool
state_test s r q x =
    state_in (put_state x (r * 2) s) (q * 2) == (if q == r then s else state_in x (q * 2))

state_table :
    everywhere (λ s. everywhere (λ r. everywhere (λ q. everywhere (state_test s r q) 256) 4) 4) 4
    ≡ true
unfolding everywhere state_test state_in put_state
state_table = refl

-- One byte holds the states of four inodes apart.
state_in-put_state :
    (x r q s : ℕ)
    → x < 256
    → r < 4
    → q < 4
    → s < 4
    → state_in (put_state x (r * 2) s) (q * 2) ≡ (if q == r then s else state_in x (q * 2))
unfolding state_test
state_in-put_state x r q s hx hr hq hs =
    let by_s = everywhere_at _ 4 s hs state_table in
    let by_r = everywhere_at _ 4 r hr by_s in
    let by_q = everywhere_at _ 4 q hq by_r in
    (==_iff _ _).0 (everywhere_at (state_test s r q) 256 x hx by_q)

-- In a table of bytes that has a place for inode `inum`, setting its state to one of the four
-- states makes that its state, and leaves the state of every other inode as it was.
pub inode_state-set_inode_state :
    (inum j s : ℕ) (map : List ℕ)
    → AreBytes map
    → inum / 4 < length map
    → s < 4
    → inode_state j (set_inode_state inum s map) ≡ (if j == inum then s else inode_state j map)
unfolding inode_state set_inode_state
inode_state-set_inode_state inum j s map b h hs = elim (ℕ_discrete (j / 4) (inum / 4)) [
  | yes e ↦
      rw
        (
          e,
          get_or-set_self map (inum / 4) (put_state (get_or map (inum / 4) 0) (shift_of inum) s) 0
              h,
          state_in-put_state (get_or map (inum / 4) 0) (inum % 4) (j % 4) s (b (inum / 4))
              (omega arith) (omega arith) hs,
        )
        (ground arith)
  | no e ↦
      rw
        (get_or-set_ne map (inum / 4) (j / 4)
          (put_state (get_or map (inum / 4) 0) (shift_of inum) s) 0 (λ p. e (sym p)))
        (ground arith)
]

-- the bit `q` of a byte
abbrev bit : ℕ → ℕ → Bool
bit x q = not (bit_and x (2 ^ q) == 0)

same : Bool → Bool → Bool
same true b = b
same false b = not b

same_sound : (a b : Bool) → same a b ≡ true → a ≡ b
unfolding same
same_sound a b h = ground arith

mark_test : ℕ → ℕ → ℕ → Bool
mark_test r q x = same (bit (bit_or x (2 ^ r)) q) (q == r || bit x q)

mark_table : everywhere (λ r. everywhere (λ q. everywhere (mark_test r q) 256) 8) 8 ≡ true
unfolding everywhere mark_test same
mark_table = refl

bit-bit_or : (x r q : ℕ) → x < 256 → r < 8 → q < 8 → bit (bit_or x (2 ^ r)) q ≡ (q == r || bit x q)
unfolding mark_test
bit-bit_or x r q hx hr hq =
    let by_r = everywhere_at _ 8 r hr mark_table in
    let by_q = everywhere_at _ 8 q hq by_r in
    same_sound _ _ (everywhere_at (mark_test r q) 256 x hx by_q)

-- a block marked
is_marked-mark :
    (b c : ℕ) (map : List ℕ)
    → AreBytes map
    → b / 8 < length map
    → is_marked c (mark b map) ≡ (c == b || is_marked c map)
unfolding is_marked mark
is_marked-mark b c map h l = elim (ℕ_discrete (c / 8) (b / 8)) [
  | yes e ↦
      rw
        (
          e,
          get_or-set_self map (b / 8) (bit_or (get_or map (b / 8) 0) (2 ^ (b % 8))) 0 l,
          bit-bit_or (get_or map (b / 8) 0) (b % 8) (c % 8) (h (b / 8)) (omega arith) (omega arith),
        )
        (ground arith)
  | no e ↦
      rw
        (get_or-set_ne map (b / 8) (c / 8) (bit_or (get_or map (b / 8) 0) (2 ^ (b % 8))) 0
          (λ p. e (sym p)))
        (ground arith)
]

free_test : ℕ → ℕ → ℕ → Bool
free_test r q x = same (bit (bit_and x (255 - 2 ^ r)) q) (not (q == r) && bit x q)

free_table : everywhere (λ r. everywhere (λ q. everywhere (free_test r q) 256) 8) 8 ≡ true
unfolding everywhere free_test same
free_table = refl

bit-bit_and :
    (x r q : ℕ)
    → x < 256
    → r < 8
    → q < 8
    → bit (bit_and x (255 - 2 ^ r)) q ≡ (not (q == r) && bit x q)
unfolding free_test
bit-bit_and x r q hx hr hq =
    let by_r = everywhere_at _ 8 r hr free_table in
    let by_q = everywhere_at _ 8 q hq by_r in
    same_sound _ _ (everywhere_at (free_test r q) 256 x hx by_q)

-- a mark taken off
is_marked-mark_block_free :
    (b c : ℕ) (map : List ℕ)
    → AreBytes map
    → b / 8 < length map
    → is_marked c (mark_block_free b map) ≡ (not (c == b) && is_marked c map)
unfolding is_marked mark_block_free
is_marked-mark_block_free b c map h l = elim (ℕ_discrete (c / 8) (b / 8)) [
  | yes e ↦
      rw
        (
          e,
          get_or-set_self map (b / 8) (bit_and (get_or map (b / 8) 0) (255 - 2 ^ (b % 8))) 0 l,
          bit-bit_and (get_or map (b / 8) 0) (b % 8) (c % 8) (h (b / 8)) (omega arith)
              (omega arith),
        )
        (ground arith)
  | no e ↦
      rw
        (get_or-set_ne map (b / 8) (c / 8) (bit_and (get_or map (b / 8) 0) (255 - 2 ^ (b % 8))) 0
          (λ p. e (sym p)))
        (ground arith)
]

-- In a map of bytes that has a place for block `b`, marking it marks that block, marking it free takes
-- the mark off it, and neither changes the mark of another.
pub is_marked-marks :
    (b c : ℕ) (map : List ℕ)
    → AreBytes map
    → b / 8 < length map
    → (is_marked c (mark b map) ≡ (c == b || is_marked c map))
      × (is_marked c (mark_block_free b map) ≡ (not (c == b) && is_marked c map))
is_marked-marks b c map h l = (is_marked-mark b c map h l, is_marked-mark_block_free b c map h l)
