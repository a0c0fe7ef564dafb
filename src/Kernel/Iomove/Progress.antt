-- ===== src/Kernel/Iomove/Progress.antt =====
-- What a transfer of `iomove` that does not trap does to its arguments and to the memory.
use bkunix.Prelude.{
  ℕ, suc, ◌+◌, ◌-◌, ◌/◌, ◌%◌, ◌≤◌, ◌<◌, ◌≡◌, refl, ap, ap₂, inl, inr, false, ◌&&◌, arith,
}
use mathlib.Core.Path.{fun_ext}
use bkunix.Prelude.Tests.{ltb, leb, if◌then◌else◌, Bool-cases}
use bkunix.Kernel.State.{Buf, Inode, Kernel}
use bkunix.Kernel.Bio.View.{beside}
use bkunix.Kernel.Wide.{wide}
use bkunix.Kernel.Iomove.{traps, step_on}

-- the memory with `n` bytes from the address `base` on set
abbrev pub poured : (ℕ → ℕ) → ℕ → ℕ → (ℕ → ℕ) → ℕ → ℕ
poured f base n core a = if leb base a && ltb a (base + n) then f (a - base) else core a

-- the arguments of the call behind the transfer of `n` bytes
abbrev pub advanced : ℕ → Kernel → Kernel
advanced n k = record k {
  u_base = k.u_base + n;
  u_offset0 = (wide k.u_offset0 k.u_offset1 + n) / 65536;
  u_offset1 = (wide k.u_offset0 k.u_offset1 + n) % 65536;
  u_count = k.u_count - n;
}

-- the state behind the transfer of `n` bytes into the memory
abbrev pub progress : (ℕ → ℕ) → ℕ → Kernel → Kernel
progress f n k = record (advanced n k) { core = poured f k.u_base n k.core }

-- A transfer of `n` bytes fits: they are asked for, none of them traps, and the addresses and the
-- offset do not wrap around.
pub record Fits (k : Kernel) (n : ℕ) : Type 0 where
  pub asked : n ≤ k.u_count
  pub count : k.u_count < 65536
  pub room : k.u_base + k.u_count < 65536
  pub low : k.u_offset1 < 65536
  pub offset : wide k.u_offset0 k.u_offset1 + k.u_count < 4294967296
  pub here : (a : ℕ) → k.u_base ≤ a → a < k.u_base + k.u_count → traps k a ≡ false

-- A transfer of `n` bytes, then one of `m`, is one of `n + m`.
pub advanced-advanced :
    (k : Kernel) (n m : ℕ) → Fits k (n + m) → advanced m (advanced n k) ≡ advanced (n + m) k
advanced-advanced k n m h = ground arith

pub poured-poured :
    (f : ℕ → ℕ) (base n m : ℕ) (core : ℕ → ℕ)
    → poured (λ i. f (n + i)) (base + n) m (poured f base n core) ≡ poured f base (n + m) core
poured-poured f base n m core = fun_ext λ a. ground (arith)

pub step_on-advanced : (k : Kernel) → Fits k 1 → step_on k ≡ advanced 1 k
step_on-advanced k h = ground arith

pub progress-progress :
    (f : ℕ → ℕ) (k : Kernel) (n m : ℕ)
    → Fits k (n + m)
    → progress (λ i. f (n + i)) m (progress f n k) ≡ progress f (n + m) k
progress-progress f k n m h =
    ap₂ (λ (x : Kernel) c. record x { core = c }) (advanced-advanced k n m h)
      (poured-poured f k.u_base n m k.core)

pub Fits-advanced : {k : Kernel} (n m : ℕ) → Fits k (n + m) → Fits (advanced n k) m
Fits-advanced n m h = record {
  asked = omega (arith, h.asked);
  count = omega (arith, h.count);
  room = omega (arith, h.room, h.asked);
  low = omega arith;
  offset = omega (arith, h.offset, h.asked);
  here = λ a p q. h.here a (omega arith) (omega (arith, h.asked));
}

pub Fits-core : {k : Kernel} {n : ℕ} (c : ℕ → ℕ) → Fits k n → Fits (record k { core = c }) n
Fits-core c h = record {
  asked = h.asked;
  count = h.count;
  room = h.room;
  low = h.low;
  offset = h.offset;
  here = h.here;
}

pub Fits-buf : {k : Kernel} {n : ℕ} (b : ℕ → Buf) → Fits k n → Fits (record k { buf = b }) n
Fits-buf b h = record {
  asked = h.asked;
  count = h.count;
  room = h.room;
  low = h.low;
  offset = h.offset;
  here = h.here;
}

pub Fits-inode : {k : Kernel} {n : ℕ} (i : ℕ → Inode) → Fits k n → Fits (record k { inode = i }) n
Fits-inode i h = record {
  asked = h.asked;
  count = h.count;
  room = h.room;
  low = h.low;
  offset = h.offset;
  here = h.here;
}

-- The buffers and the diskettes do not matter.
pub Fits-beside : (k k' : Kernel) {n : ℕ} → Fits k' n → Fits (beside k k') n
Fits-beside k k' h = record {
  asked = h.asked;
  count = h.count;
  room = h.room;
  low = h.low;
  offset = h.offset;
  here = h.here;
}

pub Fits-less : {k : Kernel} {m : ℕ} (n : ℕ) → n ≤ k.u_count → Fits k m → Fits k n
Fits-less n e h = record {
  asked = e;
  count = h.count;
  room = h.room;
  low = h.low;
  offset = h.offset;
  here = h.here;
}

pub advanced-zero : (k : Kernel) → k.u_offset1 < 65536 → advanced 0 k ≡ k
advanced-zero k h = ground arith

pub progress-zero : (f : ℕ → ℕ) (k : Kernel) → k.u_offset1 < 65536 → progress f 0 k ≡ k
progress-zero f k h =
    ap₂ (λ (x : Kernel) c. record x { core = c }) (advanced-zero k h) (fun_ext λ a. ground arith)

pub Fits-one : {k : Kernel} (n : ℕ) → Fits k (suc n) → Fits k 1
Fits-one n h = record {
  asked = omega (arith, h.asked);
  count = h.count;
  room = h.room;
  low = h.low;
  offset = h.offset;
  here = h.here;
}

-- The first byte is not one that traps.
pub no_trap : {k : Kernel} (n : ℕ) → Fits k (suc n) → traps k k.u_base ≡ false
no_trap n h = h.here _ (omega arith) (omega (arith, h.asked))

-- Only the bytes moved matter.
pub progress-agree :
    (f g : ℕ → ℕ) (n : ℕ) (k : Kernel)
    → ((i : ℕ) → i < n → f i ≡ g i)
    → progress f n k ≡ progress g n k
progress-agree f g n k h = ap (λ c. record (advanced n k) { core = c }) (fun_ext λ a. same a)
  where
    same : (a : ℕ) → poured f k.u_base n k.core a ≡ poured g k.u_base n k.core a
    same a = elim (Bool-cases (leb k.u_base a && ltb a (k.u_base + n))) [
      | inl e ↦ rw e (h (a - k.u_base) (ground arith))
      | inr e ↦ rw e refl
    ]
