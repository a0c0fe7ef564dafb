-- ===== src/Kernel/Rdwr/Write.antt =====
-- A round of `writei` puts bytes of the process into one block of the file.
pub mod Loop
use bkunix.Prelude.{
  ℕ, zero, suc, ◌+◌, ◌-◌, ◌*◌, ◌/◌, ◌%◌, ◌≤◌, ◌<◌, ◌≡◌, ◌≢◌, refl, ap, ap₂, ◌∙◌, sym, inl, inr,
  Bool, false, true, List, arith, min, max, not, ◌&&◌, bit_and,
}
use mathlib.Core.Path.{fun_ext, subst}
use bkunix.Prelude.Tests.{ltb, leb, ◌==◌, if◌then◌else◌, Bool-cases, ne→==, eq→==, ==_iff}
use bkunix.Prelude.Lists.{get_or, length}
use bkunix.Prelude.Run.{ok, Cmd, and_then, ◌>>=◌, ◌>>◌, pure, get}
use native.Mathlib.Decide.{dec_le, ℕ_discrete}
use bkunix.Kernel.State.{Inode, Kernel, nodev}
use bkunix.Kernel.Bio.{put, set_buf, brelse, bwrite, bdwrite, getblk, bread}
use bkunix.Kernel.Bio.Cache.{put_self}
use bkunix.Kernel.Bio.Transfer.{put-put, written}
use bkunix.Kernel.Bio.View.{
  Blocks, updated, SameTables, Represents, Represents-beside, Using, beside, Using-beside,
}
use bkunix.Kernel.Bio.Obtain.{getblk-Obtains, bread-Obtains}
use bkunix.Kernel.Bio.Release.{
  edited, postponed, edited-Using, bwrite-Represents, bdwrite-Represents,
}
use bkunix.Kernel.Bio.Sized.{
  Sized, getblk-Sized, bread-Sized, bwrite-Sized, bdwrite-Sized, set_buf-Sized, Sized-behind,
}
use bkunix.Kernel.Alloc.{s_lt}
use bkunix.Kernel.Iget.{set_inode, on_inode}
use bkunix.Kernel.Iget.Bmap.{bmap}
use bkunix.Kernel.Iget.Bmap.Lookup.{block_of}
use bkunix.Kernel.Wide.{wide, lshift_9, dpcmp, dpcmp-above, dpcmp-below}
use bkunix.Kernel.Iomove.{byte_at, iomove_write}
use bkunix.Kernel.Iomove.Progress.{
  Fits, Fits-less, Fits-beside, Fits-buf, advanced, advanced-advanced, Fits-advanced,
}
use bkunix.Kernel.Iomove.In.{
  soaked, length-soaked, byte_at-soaked, absorbed, edited_words, iomove_write_lem,
}
use bkunix.Kernel.Rdwr.{
  is_block, room, goes_on, give_back, grown, write_block, write_mapped, write_round, write_loop,
}
use bkunix.Kernel.Rdwr.File.{file_byte, file_size, offset, HasBlocks, bmap-HasBlocks}
use bkunix.Kernel.Rdwr.Wrote.{Separate, Wrote, Wrote-one}
use bkunix.Kernel.Rdwr.Size.{sized_to, size_behind, behind, finish_lem}
use bkunix.Kernel.Rdwr.Buffer.{given_bytes, buffer_lem, give_back_lem, soaked_bytes}

-- A call of `writei` that fits, of a file that has the blocks of all that is written.
pub record Writable (k : Kernel) (a : Blocks) (p : ℕ) : Type 0 where
  pub blocks : Represents k a
  pub words : Sized k
  pub file : HasBlocks a (k.inode p) (offset k + k.u_count)
  pub separate : Separate a (k.inode p)
  pub plain : bit_and (k.inode p).mode 8192 ≡ 0
  pub byte : (k.inode p).size0 < 256
  pub fits : Fits k 0
  pub no_error : k.u_error ≡ 0

write_mapped_call :
    (k1 k2 k3 k4 k5 : Kernel) (p b j on n : ℕ)
    → b ≢ 0
    → (if n == 512 then getblk (k1.inode p).dev b else bread (k1.inode p).dev b) k1 ≡ ok j k2
    → iomove_write j on n k2 ≡ ok tt k3
    → give_back j k3 ≡ ok tt k4
    → (on_inode p (grown k4) >> (on_inode p (λ x. record x { upd = true }) >> pure true)) k4
      ≡ ok true k5
    → write_mapped p on n b k1 ≡ ok true k5
unfolding write_mapped write_block
write_mapped_call k1 k2 k3 k4 k5 p b j on n h call move back done =
    rw (ne→== b 0 h, call, move, back) done

Sized-beside : (k k' : Kernel) → Sized k → Sized (beside k k')
Sized-beside k k' s = record { bufs = s.bufs; blocks = s.blocks; junk = s.junk }

module _ (k : Kernel) (a : Blocks) (p : ℕ) (h : Writable k a p) (some_left : 0 < k.u_count) where
  abbrev x : Inode
  x = k.inode p

  abbrev n : ℕ
  n = room k

  abbrev on : ℕ
  on = k.u_offset1 % 512

  abbrev block : ℕ
  block = block_of a x (offset k / 512)

  write_block_lem :
      (k1 : Kernel)
      → Represents k1 a
      → Sized k1
      → k1 ≡ beside k1 k
      → (k' : Kernel) × (a' : Blocks) × (write_mapped p on n block k1 ≡ ok true k')
        × Represents k' a'
        × Sized k'
        × Wrote a a' x (offset k) n (given_bytes k)
        × (k' ≡ beside k' (behind p n k))
  write_block_lem k1 r1 s1 same1 =
      let (j, k2, call, same2, u, s2, words) =
        buffer_lem k1 a x.dev block n r1 s1 h.file.on_disk (h.file.small (offset k / 512)) in
      let same : k2 ≡ beside k2 k = same2 ∙ ap (beside k2) same1 in
      let ws = (k2.buf j).data_words in
      let xs = soaked k2.core k2.u_base on n ws in
      let k3 = absorbed n j xs k2 in
      let fits : Fits k2 n =
        subst (λ t. Fits t n) (sym same) (Fits-beside k2 k (Fits-less n (omega arith) h.fits)) in
      let u3 =
        edited-Using (advanced n k2) j x.dev block a (Using-beside k2 (advanced n k2) u) xs in
      let long : length xs ≡ 256 = length-soaked k2.core k2.u_base on n ws ∙ s2.bufs j in
      let s3 =
        Sized-beside (edited j xs k2) k3
          (set_buf-Sized j (record (k2.buf j) { data_words = xs }) k2 s2 long) in
      let (k4, back, r4, s4, same4) =
        give_back_lem k3 a j x.dev block u3 s3 (ap (λ (t : Kernel). t.u_error) same ∙ h.no_error) in
      let (k5, done, apart5, same5) =
        finish_lem k k4 p n (same4 ∙ ap (λ t. beside k4 (advanced n t)) same) h.plain h.byte
          h.file.size (omega (arith, h.file.limit)) in
      let dev : (k1.inode p).dev ≡ x.dev = ap (λ (t : Kernel). (t.inode p).dev) same1 in
      let a' = updated a x.dev block xs in
      let has = h.file.present (offset k / 512) (omega arith) in
      (
        k5,
        a',
        write_mapped_call k1 k2 k3 k4 k5 p block j on n has
            (ap (λ d. (if n == 512 then getblk d block else bread d block) k1) dev ∙ call)
            (iomove_write_lem j on n k2 fits (omega (arith, s2.bufs j))) back done,
        subst (λ t. Represents t a') (sym apart5)
            (Represents-beside k4 k5
              (subst (λ t. Represents k4 (updated a x.dev block t)) (edited_words j xs k2) r4)),
        subst Sized (sym apart5) (Sized-beside k4 k5 s4),
        Wrote-one a x (offset k) h.separate xs has n (given_bytes k) (omega arith) (λ i q.
            subst
              (λ o. byte_at xs i ≡ (
                if leb o i && ltb i (o + n)
                then given_bytes k (i - o)
                else byte_at (a x.dev block) i))
              same_start
              (soaked_bytes k k2 (a x.dev block) ws on n i same (s2.bufs j) (omega arith) q words)),
        same5,
      )
    where
      same_start : on ≡ offset k % 512
      same_start = omega arith

write_round_call :
    (k k1 : Kernel) (p b : ℕ)
    → is_block (k.inode p) ≡ false
    → bmap p (lshift_9 k.u_offset0 k.u_offset1) k ≡ ok b k1
    → write_round p k ≡ write_mapped p (k.u_offset1 % 512) (room k) b k1
unfolding write_round
write_round_call k k1 p b plain call = rw (plain, call) refl

-- what a part of `writei` that writes `n` bytes ends with
abbrev pub Writes : {A : Type 0} → Cmd Kernel A → A → Kernel → Blocks → ℕ → ℕ → Type 0
Writes m v k a p n =
    (k' : Kernel) × (a' : Blocks) × (m k ≡ ok v k')
    × Represents k' a'
    × Sized k'
    × Wrote a a' (k.inode p) (offset k) n (given_bytes k)
    × (k' ≡ beside k' (behind p n k))

pub write_round_lem :
    (k : Kernel) (a : Blocks) (p : ℕ)
    → Writable k a p
    → 0 < k.u_count
    → Writes (write_round p) true k a p (room k)
write_round_lem k a p h some_left =
    let (k1, call, r1, same1, sized) =
      bmap-HasBlocks k a p (offset k + k.u_count) h.blocks h.file (omega arith) in
    let (k', a', done, r', s', w, same) =
      write_block_lem k a p h some_left k1 r1 (sized h.words) same1 in
    (
      k',
      a',
      write_round_call k k1 p (block_of a (k.inode p) (offset k / 512)) h.file.no_block call ∙ done,
      r',
      s',
      w,
      same,
    )
