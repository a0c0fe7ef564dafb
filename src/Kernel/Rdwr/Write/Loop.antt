-- ===== src/Kernel/Rdwr/Write/Loop.antt =====
-- The whole of `writei` puts the bytes of the process into the file.
use bkunix.Prelude.{
  ℕ, zero, suc, ◌+◌, ◌-◌, ◌%◌, ◌≤◌, ◌<◌, ◌≡◌, refl, ap, ap₂, ◌∙◌, sym, inl, inr, false, true, arith,
  ◌&&◌, bit_and,
}
use mathlib.Core.Path.{fun_ext, subst}
use bkunix.Prelude.Tests.{◌==◌, if◌then◌else◌, Bool-cases, ne→==, ==_iff}
use bkunix.Prelude.Run.{ok, Cmd, and_then, ◌>>=◌, pure, get}
use bkunix.Kernel.State.{Inode, Kernel}
use bkunix.Kernel.Bio.{put}
use bkunix.Kernel.Bio.Cache.{put_self}
use bkunix.Kernel.Bio.Transfer.{put-put}
use bkunix.Kernel.Bio.View.{Blocks, Represents, beside}
use bkunix.Kernel.Bio.Sized.{Sized}
use bkunix.Kernel.Iomove.Progress.{
  Fits, Fits-less, Fits-beside, Fits-inode, advanced, advanced-advanced, Fits-advanced,
}
use bkunix.Kernel.Rdwr.{room, goes_on, write_round, write_loop}
use bkunix.Kernel.Rdwr.File.{offset, HasBlocks}
use bkunix.Kernel.Rdwr.Wrote.{Separate, Wrote}
use bkunix.Kernel.Rdwr.{writei}
use bkunix.Kernel.Rdwr.Wrote.{Wrote-trans, Separate-Wrote}
use bkunix.Kernel.Rdwr.Size.{sized_to, size_behind, behind}
use bkunix.Kernel.Rdwr.Buffer.{given_bytes}
use bkunix.Kernel.Rdwr.Write.{Writable, Writes, write_round_lem}

-- A file keeps its blocks behind a write.
pub HasBlocks-Wrote :
    (a a' : Blocks) (x : Inode) (off n s lim lim' : ℕ) (f : ℕ → ℕ)
    → Wrote a a' x off n f
    → lim ≡ lim'
    → HasBlocks a x lim
    → HasBlocks a' (sized_to s x) lim'
HasBlocks-Wrote a a' x off n s lim lim' f w e h = record {
  no_char = h.no_char;
  no_block = h.no_block;
  on_disk = h.on_disk;
  addresses = h.addresses;
  small = λ m. subst (λ t. t < 500) (sym (w.map m)) (h.small m);
  present = λ m q z. h.present m (omega (arith, e)) (sym (w.map m) ∙ z);
  size = omega arith;
  limit = omega (arith, h.limit, e);
}

Writable-behind :
    (k k1 : Kernel) (a a1 : Blocks) (p n : ℕ)
    → Writable k a p
    → n ≤ k.u_count
    → Represents k1 a1
    → Sized k1
    → Wrote a a1 (k.inode p) (offset k) n (given_bytes k)
    → k1 ≡ beside k1 (behind p n k)
    → Writable k1 a1 p
Writable-behind k k1 a a1 p n h few r s w same =
    let x = k.inode p in
    let z = sized_to (size_behind k n x) x in
    let now : k1.inode p ≡ z = ap (λ (t : Kernel). t.inode p) same ∙ put_self k.inode p z in
    let rest : Fits (advanced n k) 0 = Fits-advanced n 0 (Fits-less (n + 0) (omega arith) h.fits) in
    let limit : offset k + k.u_count ≡ offset (advanced n k) + (k.u_count - n) =
      omega (arith, few) in
    record {
      blocks = r;
      words = s;
      file =
          subst (λ (t : Kernel). HasBlocks a1 (k1.inode p) (offset t + t.u_count)) (sym same)
            (subst (λ y. HasBlocks a1 y (offset (advanced n k) + (k.u_count - n))) (sym now)
              (HasBlocks-Wrote a a1 x (offset k) n (size_behind k n x) (offset k + k.u_count)
                (offset (advanced n k) + (k.u_count - n)) (given_bytes k) w limit h.file));
      separate = subst (Separate a1) (sym now) (
          Separate-sized a1 x (size_behind k n x)
            (Separate-Wrote a a1 x (offset k) n (given_bytes k) w h.separate));
      plain = ap (λ (y : Inode). bit_and y.mode 8192) now ∙ h.plain;
      byte =
          subst (λ (y : Inode). y.size0 < 256) (sym now)
            (omega (arith, h.file.limit, h.file.size, h.byte));
      fits =
          subst (λ t. Fits t 0) (sym same)
            (Fits-beside k1 (behind p n k) (Fits-inode (behind p n k).inode rest));
      no_error = ap (λ (t : Kernel). t.u_error) same ∙ h.no_error;
    }
  where
    Separate-sized : (a : Blocks) (x : Inode) (s : ℕ) → Separate a x → Separate a (sized_to s x)
    Separate-sized a x s h = record { once = h.once; apart = h.apart }

write_loop-stop :
    (k k1 : Kernel) (f p : ℕ)
    → write_round p k ≡ ok true k1
    → goes_on k1 ≡ false
    → write_loop (suc f) p k ≡ ok tt k1
unfolding write_loop
write_loop-stop k k1 f p call e =
    ap
      (λ r. and_then r (λ went. get >>= λ t. if went && goes_on t then write_loop f p else pure tt))
      call
    ∙ rw e refl

write_loop-more :
    (k k1 : Kernel) (f p : ℕ)
    → write_round p k ≡ ok true k1
    → goes_on k1 ≡ true
    → write_loop (suc f) p k ≡ write_loop f p k1
unfolding write_loop
write_loop-more k k1 f p call e =
    ap
      (λ r. and_then r (λ went. get >>= λ t. if went && goes_on t then write_loop f p else pure tt))
      call
    ∙ rw e refl

behind-behind :
    (k : Kernel) (p n m : ℕ)
    → Fits k (n + m)
    → offset k + (n + m) < 16777216
    → (k.inode p).size1 < 65536
    → behind p m (behind p n k) ≡ behind p (n + m) k
behind-behind k p n m h near s1 =
    let x = k.inode p in
    let s = size_behind k n x in
    let z = sized_to s x in
    let k1 = behind p n k in
    let total : size_behind k1 m z ≡ size_behind k (n + m) x = omega arith in
    let inode : (behind p m k1).inode ≡ (behind p (n + m) k).inode =
      ap (λ y. put (put k.inode p z) p (sized_to (size_behind k1 m y) y)) (put_self k.inode p z)
      ∙ put-put k.inode p z (sized_to (size_behind k1 m z) x)
      ∙ ap (λ t. put k.inode p (sized_to t x)) total in
    ap₂ (λ (t : Kernel) f. record t { inode = f }) (advanced-advanced k n m h) inode

-- The size of an inode does not matter to what is written.
Wrote-sized :
    (a a' : Blocks) (x : Inode) (s off n : ℕ) (f : ℕ → ℕ)
    → Wrote a a' (sized_to s x) off n f
    → Wrote a a' x off n f
Wrote-sized a a' x s off n f w = record { map = w.map; bytes = w.bytes; others = w.others }

-- a write that follows one of `n` bytes, in terms of the state before both
Wrote-behind :
    (k k1 : Kernel) (a1 a2 : Blocks) (p n m : ℕ)
    → k1 ≡ beside k1 (behind p n k)
    → Wrote a1 a2 (k1.inode p) (offset k1) m (given_bytes k1)
    → Wrote a1 a2 (k.inode p) (offset k + n) m (λ i. given_bytes k (n + i))
Wrote-behind k k1 a1 a2 p n m same w =
    let x = k.inode p in
    let s = size_behind k n x in
    let z = sized_to s x in
    let k2 = behind p n k in
    let w2 = subst (λ (t : Kernel). Wrote a1 a2 (t.inode p) (offset t) m (given_bytes t)) same w in
    let w3 = subst (λ y. Wrote a1 a2 y (offset k2) m (given_bytes k2)) (put_self k.inode p z) w2 in
    let at : offset k2 ≡ offset k + n = omega arith in
    let bytes : ◌≡◌ {A = ℕ → ℕ} (given_bytes k2) (λ i. given_bytes k (n + i)) =
      fun_ext λ i. ap (λ b. k.core b % 256) (omega arith) in
    Wrote-sized a1 a2 x s (offset k + n) m (λ i. given_bytes k (n + i))
      (subst (λ o. Wrote a1 a2 z o m (λ i. given_bytes k (n + i))) at
        (subst (Wrote a1 a2 z (offset k2) m) bytes w3))

write_loop_lem :
    (f : ℕ) (k : Kernel) (a : Blocks) (p : ℕ)
    → Writable k a p
    → 0 < k.u_count
    → k.u_count ≤ f
    → Writes (write_loop f p) tt k a p k.u_count
write_loop_lem zero k a p h pos enough = absurd (omega arith)
write_loop_lem (suc f) k a p h pos enough =
    let n = room k in
    let m = k.u_count - n in
    let total : n + m ≡ k.u_count = omega arith in
    let (k1, a1, call, r1, s1, w1, same1) = write_round_lem k a p h pos in
    let h1 = Writable-behind k k1 a a1 p n h (omega arith) r1 s1 w1 same1 in
    let left : k1.u_count ≡ m = ap (λ (t : Kernel). t.u_count) same1 in
    elim (Bool-cases (k1.u_count == 0)) [
      | inl z ↦
          let all : n ≡ k.u_count = omega (arith, (==_iff k1.u_count 0).0 z, left) in
          (
            k1,
            a1,
            write_loop-stop k k1 f p call (rw (h1.no_error, z) refl),
            r1,
            s1,
            subst (λ t. Wrote a a1 (k.inode p) (offset k) t (given_bytes k)) all w1,
            same1 ∙ ap (λ t. beside k1 (behind p t k)) all,
          )
      | inr z ↦
          let (k', a', rest, r', s', w', same') =
            write_loop_lem f k1 a1 p h1 (ground arith) (omega (arith, left)) in
          (
            k',
            a',
            write_loop-more k k1 f p call (rw (h1.no_error, z) refl) ∙ rest,
            r',
            s',
            subst (λ t. Wrote a a' (k.inode p) (offset k) t (given_bytes k)) total
                (Wrote-trans a a1 a' (k.inode p) (offset k) n m (given_bytes k) w1 (
                  Wrote-behind k k1 a1 a' p n m same1 (
                    subst (λ t. Wrote a1 a' (k1.inode p) (offset k1) t (given_bytes k1)) left w'))),
            all_behind k k1 k' p n m (Fits-less (n + m) (omega arith) h.fits)
                  (omega (arith, h.file.limit)) h.file.size same1
                  (same' ∙ ap (λ t. beside k' (behind p t k1)) left)
                ∙ ap (λ t. beside k' (behind p t k)) total,
          )
    ]
  where
    all_behind :
        (k k1 k' : Kernel) (p n m : ℕ)
        → Fits k (n + m)
        → offset k + (n + m) < 16777216
        → (k.inode p).size1 < 65536
        → k1 ≡ beside k1 (behind p n k)
        → k' ≡ beside k' (behind p m k1)
        → k' ≡ beside k' (behind p (n + m) k)
    all_behind k k1 k' p n m h near s1 same1 same =
        same
        ∙ ap (λ t. beside k' (behind p m t)) same1
        ∙ ap (beside k') (behind-behind k p n m h near s1)

-- In a state that represents the blocks `a`, for a plain file or a directory that has all blocks of
-- what is written, none of them twice, and memory and offset that the call fits in, `writei` ends:
-- the file has the bytes of the process from `u_base` on at the offset, `u_count` of them, keeps all
-- its other bytes and its blocks, and its size grows where they end behind it; no other block
-- changes, and of the other tables only the base, the count and the offset do.
pub writei_lem :
    (ttwrite : Cmd Kernel (Unit {0})) (k : Kernel) (a : Blocks) (p : ℕ)
    → Writable k a p
    → 0 < k.u_count
    → Writes (writei ttwrite p) tt k a p k.u_count
unfolding writei
writei_lem ttwrite k a p h pos =
    let (k', a', call, r', s', w, same) = write_loop_lem k.u_count k a p h pos (omega arith) in
    (k', a', rw (h.file.no_char, ne→== k.u_count 0 (omega arith)) call, r', s', w, same)
