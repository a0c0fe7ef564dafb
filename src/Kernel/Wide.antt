-- ===== src/Kernel/Wide.antt =====
-- src/sys/mch.s: `dpadd`, `dpcmp` and `lshift`, on numbers of two words, the high one first.
use bkunix.Prelude.{ℕ, ◌+◌, ◌-◌, ◌*◌, ◌/◌, ◌%◌, ◌≤◌, ◌<◌, ◌≡◌, ◌&&◌, min, arith}
use bkunix.Prelude.Tests.{ltb, leb, ◌==◌, if◌then◌else◌}

-- the number of two words
abbrev pub wide : ℕ → ℕ → ℕ
wide h l = h * 65536 + l

-- `dpadd`: the words of the sum
abbrev pub dpadd_high : ℕ → ℕ → ℕ → ℕ
dpadd_high h l n = (h + (l + n) / 65536) % 65536

abbrev pub dpadd_low : ℕ → ℕ → ℕ
dpadd_low l n = (l + n) % 65536

-- `dpcmp`: the difference `h` of the high words with the borrow `c` of the low ones, and that of the
-- low words
unfoldable pub clamped : ℕ → ℕ → ℕ → ℕ
clamped h c l =
    if ltb h 32768 && leb c h
    then if h == c && ltb l 512 then l else 512
    else if (h + 65536 - c) % 65536 == 65535 && ltb 65024 l
    then l
    else 65024

-- `dpcmp`
unfoldable pub dpcmp : ℕ → ℕ → ℕ → ℕ → ℕ
dpcmp a0 a1 b0 b1 =
    clamped ((a0 + 65536 - b0) % 65536) (if ltb a1 b1 then 1 else 0) ((a1 + 65536 - b1) % 65536)

-- `lshift` of two words by -9
abbrev pub lshift_9 : ℕ → ℕ → ℕ
lshift_9 h l = (wide h l / 512) % 65536

-- For numbers below 2 ^ 31 `dpcmp` is their difference, or 512 or -512 where it is larger or
-- smaller.
module _ (a0 a1 b0 b1 : ℕ) (p : a0 < 32768) (q : a1 < 65536) (p' : b0 < 32768)
    (q' : b1 < 65536) where
  pub dpcmp-above : wide b0 b1 ≤ wide a0 a1 → dpcmp a0 a1 b0 b1 ≡ min (wide a0 a1 - wide b0 b1) 512
  unfolding dpcmp clamped
  dpcmp-above h = ground arith

  pub dpcmp-below :
      wide a0 a1 < wide b0 b1 → dpcmp a0 a1 b0 b1 ≡ 65536 - min (wide b0 b1 - wide a0 a1) 512
  unfolding dpcmp clamped
  dpcmp-below h = ground arith
