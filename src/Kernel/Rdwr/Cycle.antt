-- ===== src/Kernel/Rdwr/Cycle.antt =====
-- A file written by `writei` and read by `readi`.
use bkunix.Prelude.{ℕ, ◌+◌, ◌-◌, ◌/◌, ◌%◌, ◌≤◌, ◌<◌, ◌≡◌, ap, ◌∙◌, sym, false, arith, min, ◌&&◌}
use mathlib.Core.Path.{subst}
use bkunix.Prelude.Tests.{ltb, leb, if◌then◌else◌}
use bkunix.Prelude.Run.{ok, Cmd}
use bkunix.Kernel.State.{Inode, Kernel}
use bkunix.Kernel.Bio.View.{Blocks, Represents, beside}
use bkunix.Kernel.Iomove.Progress.{poured}
use bkunix.Kernel.Rdwr.{readi}
use bkunix.Kernel.Rdwr.File.{file_byte, file_size, offset, HasBlocks}
use bkunix.Kernel.Rdwr.Read.{Readable, to_read, from_offset}
use bkunix.Kernel.Bio.Cache.{put_self}
use bkunix.Kernel.Bio.View.{Represents-beside}
use bkunix.Kernel.Rdwr.{writei}
use bkunix.Kernel.Rdwr.Read.Loop.{readi_lem}
use bkunix.Kernel.Rdwr.Wrote.{Wrote}
use bkunix.Kernel.Rdwr.Size.{sized_to, size_behind, behind}
use bkunix.Kernel.Rdwr.Buffer.{given_bytes}
use bkunix.Kernel.Rdwr.Write.{Writable}
use bkunix.Kernel.Rdwr.Write.Loop.{HasBlocks-Wrote, writei_lem}

-- the arguments of a call that reads `n` bytes to the address `b`, at the offset of the state `k`
abbrev pub rewound : ℕ → ℕ → Kernel → Kernel → Kernel
rewound b n k k' = record k' {
  u_base = b;
  u_count = n;
  u_offset0 = k.u_offset0;
  u_offset1 = k.u_offset1;
}

-- a byte read
poured_at :
    (f : ℕ → ℕ) (b n m : ℕ) (core : ℕ → ℕ) (i : ℕ) → i < n → n ≡ m → poured f b m core (b + i) ≡ f i
poured_at f b n m core i h e = ground arith

module _ (k : Kernel) (a : Blocks) (p b n : ℕ) (h : Writable k a p)
    (whole : HasBlocks a (k.inode p) (size_behind k k.u_count (k.inode p))) (few : n ≤ k.u_count)
    (to : b + n < 65536) (here : (t : ℕ) → b ≤ t → t < b + n → k.absent (t / 2) ≡ false) where
  abbrev x : Inode
  x = k.inode p

  abbrev z : Inode
  z = sized_to (size_behind k k.u_count x) x

  rewound-Readable :
      (k1 : Kernel) (a1 : Blocks)
      → Represents k1 a1
      → Wrote a a1 x (offset k) k.u_count (given_bytes k)
      → k1 ≡ beside k1 (behind p k.u_count k)
      → Readable (rewound b n k k1) a1 p
  rewound-Readable k1 a1 r w same =
      let k2 = rewound b n k k1 in
      let now : k1.inode p ≡ z = ap (λ (t : Kernel). t.inode p) same ∙ put_self k.inode p z in
      let size : size_behind k k.u_count x ≡ file_size z = omega (arith, whole.limit) in
      record {
        blocks = Represents-beside k1 k2 r;
        file =
            subst (λ y. HasBlocks a1 y (file_size y)) (sym now)
              (HasBlocks-Wrote a a1 x (offset k) k.u_count (size_behind k k.u_count x)
                (size_behind k k.u_count x) (file_size z) (given_bytes k) w size whole);
        fits = record {
          asked = omega arith;
          count = omega (arith, to);
          room = to;
          low = h.fits.low;
          offset = omega (arith, h.fits.offset, few);
          here = λ t q r. ap (λ (y : Kernel). y.absent (t / 2)) same ∙ here t q r;
        };
        no_error = ap (λ (t : Kernel). t.u_error) same ∙ h.no_error;
        near = omega (arith, h.file.limit);
      }

  -- In a state in which `writei` may write its bytes into a file that has all blocks of its size, and
  -- for an address from which `n` of them may be read back to: `writei` ends, `readi` at the same
  -- offset ends behind it, and the `n` bytes at the address are the first ones that `writei` was
  -- given.
  pub readi-writei :
      (ttread ttwrite : Cmd Kernel (Unit {0}))
      → 0 < k.u_count
      → (k1 : Kernel) × (k2 : Kernel) × (writei ttwrite p k ≡ ok tt k1)
        × (readi ttread p (rewound b n k k1) ≡ ok tt k2)
        × ((i : ℕ) → i < n → k2.core (b + i) ≡ k.core (k.u_base + i) % 256)
  readi-writei ttread ttwrite pos =
      let (k1, a1, call, r1, s1, w, same) = writei_lem ttwrite k a p h pos in
      let k2 = rewound b n k k1 in
      let ready = rewound-Readable k1 a1 r1 w same in
      let (k3, call', r3, same') = readi_lem ttread k2 a1 p ready in
      let now : k1.inode p ≡ z = ap (λ (t : Kernel). t.inode p) same ∙ put_self k.inode p z in
      let all : n ≡ to_read k2 (k1.inode p) =
        omega (arith, whole.limit) ∙ ap (λ y. min n (file_size y - offset k)) (sym now) in
      (
        k1,
        k3,
        call,
        call',
        λ i q.
            ap (λ (t : Kernel). t.core (b + i)) same'
            ∙ poured_at (from_offset a1 k2 (k1.inode p)) b n (to_read k2 (k1.inode p)) k2.core i q
                all
            ∙ ap (λ y. file_byte a1 y (offset k + i)) now
            ∙ w.bytes (offset k + i) (h.file.present ((offset k + i) / 512) (omega arith))
            ∙ own i (omega arith),
      )
    where
      own :
          (i : ℕ)
          → i < k.u_count
          → (if leb (offset k) (offset k + i) && ltb (offset k + i) (offset k + k.u_count)
              then given_bytes k (offset k + i - offset k)
              else file_byte a x (offset k + i))
            ≡ given_bytes k i
      own i q = ground arith
