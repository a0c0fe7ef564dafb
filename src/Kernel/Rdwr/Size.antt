-- ===== src/Kernel/Rdwr/Size.antt =====
-- How a round of `writei` leaves the size of the inode.
use bkunix.Prelude.{
  ℕ, ◌+◌, ◌/◌, ◌%◌, ◌<◌, ◌≡◌, refl, ap, ap₂, ◌∙◌, Bool, false, true, arith, max, ◌&&◌, bit_and,
}
use bkunix.Prelude.Tests.{ltb, ◌==◌, if◌then◌else◌, eq→==}
use bkunix.Prelude.Run.{ok, ◌>>◌, pure}
use native.Mathlib.Decide.{dec_le}
use bkunix.Kernel.State.{Inode, Kernel}
use bkunix.Kernel.Bio.{put}
use bkunix.Kernel.Bio.Cache.{put_self}
use bkunix.Kernel.Bio.Transfer.{put-put}
use bkunix.Kernel.Bio.View.{beside}
use bkunix.Kernel.Alloc.{s_lt}
use bkunix.Kernel.Iget.{set_inode, on_inode}
use bkunix.Kernel.Wide.{dpcmp, dpcmp-above, dpcmp-below}
use bkunix.Kernel.Iomove.Progress.{advanced}
use bkunix.Kernel.Rdwr.{grown}
use bkunix.Kernel.Rdwr.File.{file_size, offset}

-- the inode with its size set
abbrev pub sized_to : ℕ → Inode → Inode
sized_to s x = record x { size0 = s / 65536; size1 = s % 65536; upd = true }

-- the size behind `n` bytes
abbrev pub size_behind : Kernel → ℕ → Inode → ℕ
size_behind k n x = max (file_size x) (offset k + n)

-- the other tables behind a write of `n` bytes
abbrev pub behind : ℕ → ℕ → Kernel → Kernel
behind p n k = set_inode p (sized_to (size_behind k n (k.inode p)) (k.inode p)) (advanced n k)

-- whether a round of `writei` makes the file longer
abbrev longer : Kernel → Inode → Bool
longer t x =
    s_lt (dpcmp (x.size0 % 256) x.size1 t.u_offset0 t.u_offset1) 0 && bit_and x.mode 8192 == 0

longer_lem :
    (t : Kernel) (x : Inode)
    → bit_and x.mode 8192 ≡ 0
    → x.size1 < 65536
    → t.u_offset0 < 256
    → t.u_offset1 < 65536
    → longer t x ≡ ltb (file_size x) (offset t)
longer_lem t x plain s1 o0 o1 = elim (dec_le (offset t) (file_size x)) [
  | yes q ↦
      rw
        (dpcmp-above (x.size0 % 256) x.size1 t.u_offset0 t.u_offset1 (omega arith) s1 (omega arith)
          o1 q)
        (ground arith)
  | no q ↦
      rw
        (
          eq→== (bit_and x.mode 8192) 0 plain,
          dpcmp-below (x.size0 % 256) x.size1 t.u_offset0 t.u_offset1 (omega arith) s1 (omega arith)
              o1 (omega arith),
        )
        (ground arith)
]

resized : (b : Bool) (t : Kernel) (x : Inode) → Inode
resized b t x =
    record (if b then record x { size0 = t.u_offset0 % 256; size1 = t.u_offset1 } else x) {
      upd = true;
    }

resized-sized_to :
    (b : Bool) (t : Kernel) (x : Inode)
    → x.size0 < 256
    → x.size1 < 65536
    → t.u_offset0 < 256
    → t.u_offset1 < 65536
    → b ≡ ltb (file_size x) (offset t)
    → resized b t x ≡ sized_to (max (file_size x) (offset t)) x
unfolding resized
resized-sized_to true t x s0 s1 o0 o1 e =
    ap₂ (λ g h. record x { size0 = g; size1 = h; upd = true }) (ground arith) (ground arith)
resized-sized_to false t x s0 s1 o0 o1 e =
    ap₂ (λ g h. record x { size0 = g; size1 = h; upd = true }) (ground arith) (ground arith)

-- The size of the inode grows with the offset.
pub grown_lem :
    (t : Kernel) (x : Inode)
    → bit_and x.mode 8192 ≡ 0
    → x.size0 < 256
    → x.size1 < 65536
    → t.u_offset0 < 256
    → t.u_offset1 < 65536
    → record (grown t x) { upd = true } ≡ sized_to (max (file_size x) (offset t)) x
unfolding resized
grown_lem t x plain s0 s1 o0 o1 =
    resized-sized_to (longer t x) t x s0 s1 o0 o1 (longer_lem t x plain s1 o0 o1)

-- the other tables behind a round
pub finish_lem :
    (k k4 : Kernel) (p n : ℕ)
    → k4 ≡ beside k4 (advanced n k)
    → bit_and (k.inode p).mode 8192 ≡ 0
    → (k.inode p).size0 < 256
    → (k.inode p).size1 < 65536
    → offset k + n < 16777216
    → (k5 : Kernel) × ((on_inode p (grown k4)
            >> (on_inode p (λ x. record x { upd = true }) >> pure true))
          k4
        ≡ ok true k5)
      × (k5 ≡ beside k4 k5)
      × (k5 ≡ beside k5 (behind p n k))
finish_lem k k4 p n same plain s0 s1 near =
    let y = grown k4 (k4.inode p) in
    let z = sized_to (size_behind k n (k.inode p)) (k.inode p) in
    let k5 = set_inode p z k4 in
    let advanced_to : offset (advanced n k) ≡ offset k + n = omega arith in
    let inode : record y { upd = true } ≡ z =
      ap (λ (t : Kernel). record (grown t (t.inode p)) { upd = true }) same
      ∙ grown_lem (advanced n k) (k.inode p) plain s0 s1 (omega arith) (omega arith)
      ∙ ap (λ o. sized_to (max (file_size (k.inode p)) o) (k.inode p)) advanced_to in
    (
      k5,
      ap
            (λ (t : Inode).
              ok true (record k4 { inode = put (put k4.inode p y) p (record t { upd = true }) }))
            (put_self k4.inode p y)
          ∙ ap (λ f. ok true (record k4 { inode = f }))
              (put-put k4.inode p y (record y { upd = true }))
          ∙ ap (λ t. ok true (set_inode p t k4)) inode,
      refl,
      ap (set_inode p z) same,
    )
