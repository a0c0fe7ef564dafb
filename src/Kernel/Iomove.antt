-- ===== src/Kernel/Iomove.antt =====
-- `iomove` of src/sys/rdwri.c, and `passc` and `cpass` of src/sys/subr.c: bytes moved between a buffer
-- and the memory of the process, whose accesses are those of src/sys/mch.s.
pub mod Words
pub mod Progress
pub mod Out
pub mod In
use bkunix.Prelude.{
  ℕ, zero, suc, ◌+◌, ◌-◌, ◌*◌, ◌/◌, ◌%◌, Bool, true, false, Option, none, some, List, ◌&&◌,
}
use bkunix.Prelude.Tests.{◌==◌, if◌then◌else◌}
use bkunix.Prelude.Lists.{get_or, set}
use bkunix.Prelude.Run.{Cmd, ok, pure, ◌>>=◌, ◌>>◌, get, modify}
use bkunix.Kernel.State.{Kernel}
use bkunix.Kernel.Bio.{put, on_buf}
use bkunix.Kernel.Files.{error}
use bkunix.Kernel.Wide.{dpadd_high, dpadd_low}

-- `EFAULT`
abbrev pub efault : ℕ
efault = 106

-- a byte of a buffer, the low byte of a word first
abbrev pub byte_at : List ℕ → ℕ → ℕ
byte_at ws i = if i % 2 == 0 then get_or ws (i / 2) 0 % 256 else get_or ws (i / 2) 0 / 256 % 256

-- a byte put into a word
abbrev pub with_byte : ℕ → ℕ → ℕ → ℕ
with_byte w i c = if i % 2 == 0 then w / 256 * 256 + c % 256 else w % 256 + 256 * (c % 256)

-- a byte of a buffer assigned
abbrev pub set_byte : List ℕ → ℕ → ℕ → List ℕ
set_byte ws i c = set ws (i / 2) (with_byte (get_or ws (i / 2) 0) i c)

-- whether an access to the word of an address traps
abbrev pub traps : Kernel → ℕ → Bool
traps k a = k.absent (a / 2)

-- `fubyte`; `none` is the result -1
unfoldable pub fubyte : ℕ → Kernel → Option ℕ
fubyte a k = if traps k a then none else some (k.core a % 256)

-- `subyte`; the result tells whether the access trapped
unfoldable pub subyte : ℕ → ℕ → Cmd Kernel Bool
subyte a c k =
    if traps k a then ok true k else ok false (record k { core = put k.core a (c % 256) })

-- the part that `passc` and `cpass` share
abbrev pub step_on : Kernel → Kernel
step_on k = record k {
  u_count = (k.u_count + 65535) % 65536;
  u_offset1 = (k.u_offset1 + 1) % 65536;
  u_offset0 = if (k.u_offset1 + 1) % 65536 == 0 then (k.u_offset0 + 1) % 65536 else k.u_offset0;
  u_base = (k.u_base + 1) % 65536;
}

-- `passc` behind `subyte`
unfoldable pub passed : Bool → Cmd Kernel Bool
passed true = error efault >> pure true
passed false = do modify step_on; k ← get; pure (k.u_count == 0)

-- `passc`; the result tells whether it is -1
unfoldable pub passc : ℕ → Cmd Kernel Bool
passc c k = (subyte k.u_base c >>= passed) k

-- `cpass` behind `fubyte`
unfoldable pub picked : Option ℕ → Cmd Kernel (Option ℕ)
picked none = error efault >> pure none
picked (some c) = do modify step_on; pure (some c)

-- `cpass`; `none` is the result -1
unfoldable pub cpass : Cmd Kernel (Option ℕ)
cpass k = (if k.u_count == 0 then pure none else picked (fubyte k.u_base k)) k

-- the loop of `copyout`, with `n` words left, from the byte `cp` of the buffer `j` to the address
-- `base`; the result tells whether an access trapped. The loop tests the count at its end, and
-- `iomove` calls it with one word at least.
unfoldable pub copyout : ℕ → ℕ → ℕ → ℕ → Cmd Kernel Bool
copyout zero j cp base k = ok false k
copyout (suc n) j cp base k =
    let ws = (k.buf j).data_words in
    let rest = copyout n j (cp + 2) (base + 2) in
    if traps k base
    then ok true k
    else rest
        (record k { core = put (put k.core base (byte_at ws cp)) (base + 1) (byte_at ws (cp + 1)) })

-- the word at an even address
abbrev pub core_word : (ℕ → ℕ) → ℕ → ℕ
core_word core base = core base % 256 + 256 * (core (base + 1) % 256)

-- the loop of `copyin`
unfoldable pub copyin : ℕ → ℕ → ℕ → ℕ → Cmd Kernel Bool
copyin zero j cp base k = ok false k
copyin (suc n) j cp base k =
    let rest = copyin n j (cp + 2) (base + 2) in
    if traps k base
    then ok true k
    else (on_buf j
            (λ b. record b { data_words = set b.data_words (cp / 2) (core_word k.core base) })
          >> rest)
        k

-- `iomove`: the loop that reads byte by byte, with `n` bytes left
unfoldable pub pass_bytes : ℕ → ℕ → ℕ → Cmd Kernel (Unit {0})
pass_bytes zero j cp = pure tt
pass_bytes (suc n) j cp = do
  k ← get
  stop ← passc (byte_at (k.buf j).data_words cp)
  let rest = pass_bytes n j (cp + 1)
  if stop then pure tt else rest

-- `iomove`: the loop that writes byte by byte
unfoldable pub pick_bytes : ℕ → ℕ → ℕ → Cmd Kernel (Unit {0})
pick_bytes zero j cp = pure tt
pick_bytes (suc n) j cp = do
  t ← cpass
  let rest = pick_bytes n j (cp + 1)
  elim t [
    | none ↦ pure tt
    | some c ↦ (on_buf j (λ b. record b { data_words = set_byte b.data_words cp c }) >> rest)
  ]

-- `iomove`: the arguments behind a transfer by words
abbrev pub move_on : ℕ → Kernel → Kernel
move_on n k = record k {
  u_base = (k.u_base + n) % 65536;
  u_offset0 = dpadd_high k.u_offset0 k.u_offset1 n;
  u_offset1 = dpadd_low k.u_offset1 n;
  u_count = (k.u_count + 65536 - n) % 65536;
}

-- `iomove` behind `copyin` or `copyout`
unfoldable pub moved : ℕ → Bool → Cmd Kernel (Unit {0})
moved n true = error efault
moved n false = modify (move_on n)

-- whether the transfer is one of words; the buffers stand at even addresses
abbrev pub by_words : ℕ → ℕ → ℕ → Bool
by_words n o base = n % 2 == 0 && (o % 2 == 0 && base % 2 == 0)

-- `iomove` with `B_READ` and with `B_WRITE`
unfoldable pub iomove_read : ℕ → ℕ → ℕ → Cmd Kernel (Unit {0})
iomove_read j o n k =
    (if by_words n o k.u_base then copyout (n / 2) j o k.u_base >>= moved n else pass_bytes n j o) k

unfoldable pub iomove_write : ℕ → ℕ → ℕ → Cmd Kernel (Unit {0})
iomove_write j o n k =
    (if by_words n o k.u_base then copyin (n / 2) j o k.u_base >>= moved n else pick_bytes n j o) k
