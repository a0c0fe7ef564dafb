-- ===== src/Kernel/Files/Seek.antt =====
-- `seek` of src/sys/sys2.c, on an offset of two words.
use bkunix.Prelude.{
  ℕ, zero, suc, ◌+◌, ◌*◌, ◌/◌, ◌%◌, ◌≤◌, ◌<◌, ◌≡◌, refl, ap, ◌∙◌, inl, inr, Bool, true, false,
  Option, none, some, not, ◌||◌, ◌&&◌, arith,
}
use bkunix.Prelude.Tests.{ltb, ◌==◌, if◌then◌else◌, Bool-cases}
use bkunix.Prelude.Lists.{get_or}
use bkunix.Prelude.Run.{Cmd, pure, ◌>>=◌, get, ok, and_then}
use bkunix.Kernel.State.{Inode, File, Kernel, ebadf}
use bkunix.Kernel.Alloc.{s_lt}
use bkunix.Kernel.Files.{or_error, open_file, getf, file_at, set_file, load_file, store_file}
use bkunix.Kernel.Files.Steps.{load_file_lem}

-- `>>7` of a signed word
abbrev shifted : ℕ → ℕ
shifted a = if ltb a 32768 then a / 128 else a / 128 + 65024

-- the words `n[1]` and `n[0]` before the switch
unfoldable pub step_low : ℕ → ℕ → ℕ
step_low t a = if s_lt 2 t then (a * 512) % 65536 else a

unfoldable pub step_high : ℕ → ℕ → ℕ
step_high t a =
    if s_lt 2 t
    then (if t == 3 then shifted a % 512 else shifted a)
    else if not (t == 0) && not (ltb a 32768)
    then 65535
    else 0

abbrev from_start : ℕ → Bool
from_start t = t == 0 || t == 3

abbrev from_offset : ℕ → Bool
from_offset t = t == 1 || t == 4

-- the words behind the switch, where it adds the words `h` and `l`
unfoldable pub sum_low : ℕ → ℕ → ℕ → ℕ
sum_low t a l = if from_start t then step_low t a else (step_low t a + l) % 65536

unfoldable pub sum_high : ℕ → ℕ → ℕ → ℕ → ℕ
sum_high t a h l =
    if from_start t then step_high t a else (step_high t a + h + (step_low t a + l) / 65536) % 65536

-- the file behind `seek`, which adds to its offset or to the size of its inode
abbrev pub sought : ℕ → ℕ → Inode → File → File
sought t a i x =
    let h = if from_offset t then x.offset0 else i.size0 in
    let l = if from_offset t then x.offset1 else i.size1 in
    record x { offset0 = sum_high t a h l; offset1 = sum_low t a l }

-- `seek` behind `getf`
unfoldable pub seek_file : Option ℕ → Cmd Kernel (Unit {0})
seek_file none = pure tt
seek_file (some f) = do
  x ← load_file f
  k ← get
  store_file f (sought (get_or k.u_arg 1 0) (get_or k.u_arg 0 0) (k.inode x.inode) x)

-- `seek`
unfoldable pub seek : Cmd Kernel (Unit {0})
seek k = (getf k.u_r0 >>= seek_file) k

-- a signed word as one of 32 bits
abbrev pub extended : ℕ → ℕ
extended a = if ltb a 32768 then a else a + 4294901760

-- How far `seek` moves, in 32 bits: modes 0 to 2 count bytes and 3 to 5 blocks, and where the
-- place does not count from the start of the file the argument is signed.
abbrev pub distance : ℕ → ℕ → ℕ
distance t a =
    if t == 0
    then a
    else if t == 3
    then a * 512
    else if ltb t 3
    then extended a
    else (extended a * 512) % 4294967296

-- the place from which `seek` counts
abbrev pub origin : ℕ → Inode → File → ℕ
origin t i x =
    if from_start t
    then 0
    else if from_offset t
    then x.offset0 * 65536 + x.offset1
    else i.size0 * 65536 + i.size1

sum_words :
    (t a h l : ℕ)
    → t ≤ 5
    → a < 65536
    → h < 65536
    → l < 65536
    → sum_high t a h l * 65536 + sum_low t a l
      ≡ (distance t a + (if from_start t then 0 else h * 65536 + l)) % 4294967296
unfolding sum_high sum_low step_high step_low
sum_words zero a h l small p q r = omega arith
sum_words (suc zero) a h l small p q r = ground arith
sum_words (suc (suc zero)) a h l small p q r = ground arith
sum_words (suc (suc (suc zero))) a h l small p q r = ground arith
sum_words (suc (suc (suc (suc zero)))) a h l small p q r = ground arith
sum_words (suc (suc (suc (suc (suc zero))))) a h l small p q r = ground arith
sum_words (suc (suc (suc (suc (suc (suc t)))))) a h l small p q r = absurd (omega arith)

origin-words :
    (t : ℕ) (i : Inode) (x : File)
    → (if from_start t
        then 0
        else (if from_offset t then x.offset0 else i.size0) * 65536
          + (if from_offset t then x.offset1 else i.size1))
      ≡ origin t i x
origin-words t i x = elim (Bool-cases (from_offset t)) [ inl e ↦ rw e refl | inr e ↦ rw e refl ]

chosen : (b : Bool) (m n : ℕ) → m < 65536 → n < 65536 → (if b then m else n) < 65536
chosen true m n p q = p
chosen false m n p q = q

-- For an open descriptor, a mode from 0 to 5 and words that fit 16 bits, `seek` ends, and the new
-- offset of the file, as one number of 32 bits, is that of the place from which it counts and the
-- distance, added without overflow between the words.
pub seek_lem :
    (k : Kernel) (f : ℕ) (x : File)
    → open_file k.u_ofile k.u_r0 ≡ some f
    → file_at k.file f ≡ some x
    → get_or k.u_arg 1 0 ≤ 5
    → get_or k.u_arg 0 0 < 65536
    → x.offset0 < 65536
    → x.offset1 < 65536
    → (k.inode x.inode).size0 < 65536
    → (k.inode x.inode).size1 < 65536
    → (y : File) × (seek k ≡ ok tt (set_file f y k))
      × (y.offset0 * 65536 + y.offset1
          ≡ (distance (get_or k.u_arg 1 0) (get_or k.u_arg 0 0)
              + origin (get_or k.u_arg 1 0) (k.inode x.inode) x)
            % 4294967296)
unfolding seek getf seek_file
seek_lem k f x found at small arg o0 o1 s0 s1 =
    let t = get_or k.u_arg 1 0 in
    let a = get_or k.u_arg 0 0 in
    let i = k.inode x.inode in
    let h = if from_offset t then x.offset0 else i.size0 in
    let l = if from_offset t then x.offset1 else i.size1 in
    (
      sought t a i x,
      ap (λ s. and_then (or_error ebadf s k) seek_file) found ∙ rw (load_file_lem k f x at) refl,
      sum_words t a h l small arg (chosen (from_offset t) x.offset0 i.size0 o0 s0)
            (chosen (from_offset t) x.offset1 i.size1 o1 s1)
          ∙ ap (λ n. (distance t a + n) % 4294967296) (origin-words t i x),
    )
