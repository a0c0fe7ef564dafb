-- ===== src/Kernel/Iomove/Words.antt =====
-- The bytes of the words of a buffer.
use bkunix.Prelude.{
  ℕ, zero, suc, ◌+◌, ◌*◌, ◌/◌, ◌%◌, ◌<◌, ◌≡◌, refl, ap, ap₂, ◌∙◌, sym, List, [], ◌∷◌, arith,
}
use bkunix.Prelude.Tests.{◌==◌, if◌then◌else◌, ne→==}
use native.Mathlib.Decide.{ℕ_discrete}
use bkunix.Prelude.Lists.{length, get_or, set, length-set, get_or-set_self, get_or-set_ne}
use bkunix.Kernel.Iomove.{byte_at, with_byte, set_byte, core_word}

-- a byte of one word
abbrev byte_of : ℕ → ℕ → ℕ
byte_of w i = if i % 2 == 0 then w % 256 else w / 256 % 256

byte_of-with_byte :
    (w o i c : ℕ)
    → i / 2 ≡ o / 2
    → byte_of (with_byte w o c) i ≡ (if i == o then c % 256 else byte_of w i)
byte_of-with_byte w o i c e = ground arith

pub length-set_byte : (ws : List ℕ) (o c : ℕ) → length (set_byte ws o c) ≡ length ws
length-set_byte ws o c = length-set ws (o / 2) (with_byte (get_or ws (o / 2) 0) o c)

-- A byte read behind the assignment of one.
pub byte_at-set_byte :
    (ws : List ℕ) (o c i : ℕ)
    → o / 2 < length ws
    → byte_at (set_byte ws o c) i ≡ (if i == o then c % 256 else byte_at ws i)
byte_at-set_byte ws o c i h = elim (ℕ_discrete (i / 2) (o / 2)) [
  | yes e ↦
      ap (λ w. byte_of w i)
        (ap (λ t. get_or (set_byte ws o c) t 0) e
          ∙ get_or-set_self ws (o / 2) (with_byte (get_or ws (o / 2) 0) o c) 0 h)
      ∙ byte_of-with_byte (get_or ws (o / 2) 0) o i c e
      ∙ ap (λ t. if i == o then c % 256 else byte_of (get_or ws t 0) i) (sym e)
  | no u ↦
      ap (λ w. byte_of w i)
        (get_or-set_ne ws (o / 2) (i / 2) (with_byte (get_or ws (o / 2) 0) o c) 0 (λ e. u (sym e)))
      ∙ ap (λ t. if t then c % 256 else byte_at ws i) (sym (ne→== i o (λ e. u (ap (λ t. t / 2) e))))
]

set-set_self : (ws : List ℕ) (i v w : ℕ) → set (set ws i v) i w ≡ set ws i w
set-set_self [] i v w = refl
set-set_self (x ∷ xs) zero v w = refl
set-set_self (x ∷ xs) (suc i) v w = ap (λ t. x ∷ t) (set-set_self xs i v w)

set_byte-low :
    (ws : List ℕ) (o c : ℕ)
    → o % 2 ≡ 0
    → set_byte ws o c ≡ set ws (o / 2) (get_or ws (o / 2) 0 / 256 * 256 + c % 256)
set_byte-low ws o c e = ap (set ws (o / 2)) (ground arith)

set_byte-high :
    (ws : List ℕ) (v o c : ℕ)
    → o % 2 ≡ 1
    → o / 2 < length ws
    → set_byte (set ws (o / 2) v) o c ≡ set ws (o / 2) (v % 256 + 256 * (c % 256))
set_byte-high ws v o c e h =
    ap (λ w. set (set ws (o / 2) v) (o / 2) (with_byte w o c)) (get_or-set_self ws (o / 2) v 0 h)
    ∙ set-set_self ws (o / 2) v (with_byte v o c)
    ∙ ap (set ws (o / 2)) (ground arith)

-- A word is assigned by its two bytes.
pub set_byte-set_byte :
    (ws : List ℕ) (core : ℕ → ℕ) (o base : ℕ)
    → o % 2 ≡ 0
    → o / 2 < length ws
    → set_byte (set_byte ws o (core base)) (o + 1) (core (base + 1))
      ≡ set ws (o / 2) (core_word core base)
set_byte-set_byte ws core o base e h =
    let v = get_or ws (o / 2) 0 / 256 * 256 + core base % 256 in
    let here : o / 2 ≡ (o + 1) / 2 = omega arith in
    ap (λ xs. set_byte xs (o + 1) (core (base + 1)))
      (set_byte-low ws o (core base) e ∙ ap (λ q. set ws q v) here)
    ∙ set_byte-high ws v (o + 1) (core (base + 1)) (omega arith) (omega arith)
    ∙ ap₂ (set ws) (sym here) (omega arith)
