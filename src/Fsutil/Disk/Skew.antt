-- ===== src/Fsutil/Disk/Skew.antt =====
-- `deskew` of fsutil/superblock.c as a map of addresses.
use bkunix.Prelude.{ℕ, ◌+◌, ◌-◌, ◌*◌, ◌/◌, ◌%◌, ◌^◌, ◌≤◌, ◌<◌, ◌≡◌, arith}
use bkunix.Prelude.Tests.{◌==◌, if◌then◌else◌}
use bkunix.Fsutil.Disk.{deskew}

-- Addresses below this are far from the width of `unsigned long`.
abbrev pub far : ℕ
far = 2 ^ 62

-- Within a sector the bytes stay in their order.
pub deskew-add : (a n : ℕ) → a % 128 + n < 128 → a + n < far → deskew (a + n) ≡ deskew a + n
unfolding deskew
deskew-add a n h f = ground arith

pub deskew-lt_far : (a : ℕ) → a < far → deskew a < 2 ^ 63
unfolding deskew
deskew-lt_far a f = ground arith

-- `deskew` sends two different addresses below 2^62 to different addresses of the image.
pub deskew_injective : (a b : ℕ) → a < far → b < far → deskew a ≡ deskew b → a ≡ b
unfolding deskew
deskew_injective a b ha hb e = ground arith

-- A diskette of 77 tracks holds the byte of each of its addresses.
pub deskew-lt : (a : ℕ) → a < 256256 → deskew a < 256256
unfolding deskew
deskew-lt a h = ground arith

-- The rest of a sector lies on the diskette too.
pub deskew-end : (a n : ℕ) → 0 < n → a % 128 + n ≤ 128 → a + n ≤ 256256 → deskew a + n ≤ 256256
unfolding deskew
deskew-end a n p h f = ground arith

-- The way back: from the address in the image to the logical one. 9 undoes the interleave of 3.
abbrev pub skew : ℕ → ℕ
skew b =
    let track = b / 128 / 26 in
    ((if track == 0 then 76 else track - 1) * 26 + b / 128 % 26 * 9 % 26) * 128 + b % 128

-- On a diskette of 256256 bytes `deskew` is a permutation of the addresses: it keeps them in range,
-- it gives back each address from its `skew`, and `skew` gives back each address from its `deskew`.
pub deskew_permutes :
    (a : ℕ)
    → a < 256256
    → (deskew a < 256256) × (skew a < 256256) × (deskew (skew a) ≡ a) × (skew (deskew a) ≡ a)
unfolding deskew
deskew_permutes a h = (deskew-lt a h, ground arith, ground arith, ground arith)
