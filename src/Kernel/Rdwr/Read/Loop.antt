-- ===== src/Kernel/Rdwr/Read/Loop.antt =====
-- The whole of `readi` gives the bytes of the file.
use bkunix.Prelude.{
  ℕ, zero, suc, ◌+◌, ◌-◌, ◌≤◌, ◌<◌, ◌≡◌, refl, ap, ◌∙◌, sym, inl, inr, Bool, false, true, arith,
  ◌&&◌,
}
use mathlib.Core.Path.{subst}
use bkunix.Prelude.Tests.{◌==◌, if◌then◌else◌, Bool-cases, ==_iff}
use bkunix.Prelude.Run.{ok, Cmd, and_then, ◌>>=◌, pure, get}
use bkunix.Kernel.State.{Kernel}
use bkunix.Kernel.Bio.View.{Blocks, Represents, beside}
use native.Mathlib.Decide.{dec_le}
use bkunix.Kernel.Iomove.Progress.{
  Fits, Fits-less, Fits-beside, progress, advanced, progress-agree, progress-progress,
  progress-zero, Fits-core, Fits-advanced,
}
use bkunix.Kernel.Rdwr.{read_round, goes_on, read_loop, readi}
use bkunix.Kernel.Rdwr.File.{file_byte, file_size, offset, HasBlocks}
use bkunix.Kernel.Rdwr.Read.{
  Readable, to_read, in_round, from_offset, read_round-end, read_round_lem,
}

-- A round leaves a call that fits, for what is left of it.
Readable-progress :
    (k k' : Kernel) (a : Blocks) (p n : ℕ) (f : ℕ → ℕ)
    → Readable k a p
    → Represents k' a
    → k' ≡ beside k' (progress f n k)
    → n ≤ k.u_count
    → offset k + n ≤ file_size (k.inode p)
    → Readable k' a p
Readable-progress k k' a p n f h r same few inside =
    let k1 = progress f n k in
    let rest : Fits (advanced n k) 0 = Fits-advanced n 0 (Fits-less (n + 0) (omega arith) h.fits) in
    record {
      blocks = r;
      file =
          subst (λ (t : Kernel). HasBlocks a (t.inode p) (file_size (t.inode p))) (sym same) h.file;
      fits = subst (λ t. Fits t 0) (sym same) (Fits-beside k' k1 (Fits-core k1.core rest));
      no_error = ap (λ (t : Kernel). t.u_error) same ∙ h.no_error;
      near =
          subst (λ (t : Kernel). t.u_offset0 < 32768) (sym same)
            (omega (arith, h.file.limit, inside));
    }

read_loop-stop :
    (k k1 : Kernel) (f p : ℕ) (w : Bool)
    → read_round p k ≡ ok w k1
    → (w && goes_on k1) ≡ false
    → read_loop (suc f) p k ≡ ok tt k1
unfolding read_loop
read_loop-stop k k1 f p w call e =
    ap (λ r. and_then r (λ went. get >>= λ t. if went && goes_on t then read_loop f p else pure tt))
      call
    ∙ rw e refl

read_loop-more :
    (k k1 : Kernel) (f p : ℕ)
    → read_round p k ≡ ok true k1
    → goes_on k1 ≡ true
    → read_loop (suc f) p k ≡ read_loop f p k1
unfolding read_loop
read_loop-more k k1 f p call e =
    ap (λ r. and_then r (λ went. get >>= λ t. if went && goes_on t then read_loop f p else pure tt))
      call
    ∙ rw e refl

-- what the loop ends with
abbrev pub Reads : Cmd Kernel (Unit {0}) → Kernel → Blocks → ℕ → Type 0
Reads m k a p =
    (k' : Kernel) × (m k ≡ ok tt k')
    × Represents k' a
    × (k' ≡ beside k' (progress (from_offset a k (k.inode p)) (to_read k (k.inode p)) k))

-- the bytes of a round, and those of the rounds behind it
progress-rounds :
    (k k1 k' : Kernel) (a : Blocks) (p n : ℕ)
    → Readable k a p
    → k1 ≡ beside k1 (progress (from_offset a k (k.inode p)) n k)
    → k' ≡ beside k' (progress (from_offset a k1 (k1.inode p)) (to_read k1 (k1.inode p)) k1)
    → n ≤ to_read k (k.inode p)
    → k' ≡ beside k' (progress (from_offset a k (k.inode p)) (to_read k (k.inode p)) k)
progress-rounds k k1 k' a p n h same1 same few =
    let x = k.inode p in
    let f = from_offset a k x in
    let k2 = progress f n k in
    let m = to_read k x - n in
    let left : to_read k2 x ≡ m = omega arith in
    let total : n + m ≡ to_read k x = omega (arith, few) in
    same
    ∙ ap
        (λ (t : Kernel).
          beside k' (progress (from_offset a t (t.inode p)) (to_read t (t.inode p)) t))
        same1
    ∙ ap (beside k') (
        ap (λ t. progress (from_offset a k2 x) t k2) left
        ∙ progress-agree (from_offset a k2 x) (λ i. f (n + i)) m k2
            (λ i q. ap (file_byte a x) (omega arith))
        ∙ progress-progress f k n m (Fits-less (n + m) (omega arith) h.fits)
        ∙ ap (λ t. progress f t k) total)

read_loop_lem :
    (f : ℕ) (k : Kernel) (a : Blocks) (p : ℕ)
    → Readable k a p
    → 0 < k.u_count
    → k.u_count ≤ f
    → Reads (read_loop f p) k a p
read_loop_lem zero k a p h pos enough = absurd (omega arith)
read_loop_lem (suc f) k a p h pos enough = elim (dec_le (file_size (k.inode p)) (offset k)) [
  | yes e ↦
      let x = k.inode p in
      let g = from_offset a k x in
      let nothing : to_read k x ≡ 0 = omega arith in
      (
        k,
        read_loop-stop k k f p false (read_round-end k a p h e) refl,
        h.blocks,
        sym (ap (beside k) (ap (λ t. progress g t k) nothing ∙ progress-zero g k h.fits.low)),
      )
  | no e ↦
      let x = k.inode p in
      let g = from_offset a k x in
      let n = in_round k x in
      let inside : offset k < file_size x = omega arith in
      let (k1, call, r1, same1) = read_round_lem k a p h inside in
      let h1 = Readable-progress k k1 a p n g h r1 same1 (omega arith) (omega arith) in
      let left : k1.u_count ≡ k.u_count - n = ap (λ (t : Kernel). t.u_count) same1 in
      elim (Bool-cases (k1.u_count == 0)) [
        | inl z ↦
            let all : n ≡ to_read k x = omega (arith, (==_iff k1.u_count 0).0 z, left) in
            (
              k1,
              read_loop-stop k k1 f p true call (rw (h1.no_error, z) refl),
              r1,
              same1 ∙ ap (λ t. beside k1 (progress g t k)) all,
            )
        | inr z ↦
            let more : 0 < k1.u_count = ground arith in
            let (k', rest, r', same') = read_loop_lem f k1 a p h1 more (omega (arith, left)) in
            (
              k',
              read_loop-more k k1 f p call (rw (h1.no_error, z) refl) ∙ rest,
              r',
              progress-rounds k k1 k' a p n h same1 same' (omega arith),
            )
      ]
]

-- In a state that represents the blocks `a`, for a plain file or a directory of a device that has all
-- blocks of its size, and memory and offset that the call fits in, `readi` ends: the bytes of the file
-- from the offset on stand in the memory of the process at `u_base`, as many as are asked for or as
-- the file has; the base, the count and the offset moved by them; and no block, no error and
-- none of the other tables changed.
pub readi_lem :
    (ttread : Cmd Kernel (Unit {0})) (k : Kernel) (a : Blocks) (p : ℕ)
    → Readable k a p
    → Reads (readi ttread p) k a p
unfolding readi
readi_lem ttread k a p h = elim (Bool-cases (k.u_count == 0)) [
  | inl z ↦
      let g = from_offset a k (k.inode p) in
      let nothing : to_read k (k.inode p) ≡ 0 = omega (arith, (==_iff k.u_count 0).0 z) in
      (
        k,
        rw z refl,
        h.blocks,
        sym (ap (beside k) (ap (λ t. progress g t k) nothing ∙ progress-zero g k h.fits.low)),
      )
  | inr z ↦
      let (k', call, r', same) = read_loop_lem k.u_count k a p h (ground arith) (omega arith) in
      (k', rw (z, h.file.no_char) call, r', same)
]
