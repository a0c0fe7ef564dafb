-- ===== src/Kernel/Iget/Store.antt =====
-- An inode written by `iupdat` and read by `iget`, through the buffer cache.
use bkunix.Prelude.{
  ℕ, ◌+◌, ◌%◌, ◌<◌, ◌≡◌, ◌≢◌, refl, sym, ap, ap₂, ◌∙◌, true, false, some, List, arith,
}
use mathlib.Core.Path.{subst}
use bkunix.Prelude.Tests.{if◌then◌else◌, eq→==}
use bkunix.Prelude.Lists.{length, drop, length-drop}
use bkunix.Prelude.Run.{ok, and_then, pure}
use bkunix.Kernel.State.{Inode, Kernel, nodev}
use bkunix.Kernel.Bio.{bread, bwrite, brelse}
use bkunix.Kernel.Bio.Cache.{put_self}
use bkunix.Kernel.Bio.Transfer.{put-put, written}
use bkunix.Kernel.Bio.View.{Blocks, updated, Represents, beside, Represents-beside, Using-beside}
use bkunix.Kernel.Bio.Obtain.{bread-Obtains}
use bkunix.Kernel.Bio.Release.{edited, released, edited-Using, bwrite-Represents, brelse-Represents}
use bkunix.Kernel.Iget.{
  set_inode, inode_block, inode_word, with_words, with_inode, store_inode, iupdat, read_inode,
}
use bkunix.Kernel.Iget.Words.{
  FitsInode, SameFile, length-with_inode, with_inode_own, with_words-SameFile, get_or-drop,
}

-- the state in which `iupdat` has cleared the flag, and that in which it calls `bwrite`
abbrev pub unflagged : ℕ → Kernel → Kernel
unflagged p k = set_inode p (record (k.inode p) { upd = false }) k

abbrev filled : Inode → ℕ → ℕ → ℕ → Kernel → Kernel
filled x t0 t1 j k = edited j (with_inode x t0 t1 (k.buf j).data_words) k

iupdat_call :
    (k k1 : Kernel) (p j : ℕ)
    → (k.inode p).upd ≡ true
    → bread (k.inode p).dev (inode_block (k.inode p).number) (unflagged p k) ≡ ok j k1
    → iupdat p k ≡ bwrite j (filled (k.inode p) k.time0 k.time1 j k1)
unfolding iupdat store_inode
iupdat_call k k1 p j e call = ap (λ t. (if t then store_inode p else pure tt) k) e ∙ rw call refl

-- the entry of the table that `iget` has taken
abbrev pub claimed : ℕ → ℕ → Inode → Inode
claimed dev ino x = record x { dev = dev; number = ino; count = (x.count + 1) % 256 }

abbrev entered : ℕ → ℕ → ℕ → Kernel → Kernel
entered dev ino p k = set_inode p (claimed dev ino (k.inode p)) k

abbrev taken_over : ℕ → ℕ → ℕ → Kernel → Kernel
taken_over ino p j k =
    set_inode p (with_words (drop (inode_word ino) (k.buf j).data_words) (k.inode p)) k

read_inode_call :
    (k k1 : Kernel) (p j dev ino : ℕ)
    → bread dev (inode_block ino) (entered dev ino p k) ≡ ok j k1
    → (k1.buf j).error ≡ false
    → read_inode dev ino p k ≡ and_then (brelse j (taken_over ino p j k1)) (λ _. ok (some p))
unfolding read_inode
read_inode_call k k1 p j dev ino call e = rw (call, e) refl

module _ (k : Kernel) (a : Blocks) (r : Represents k a) (p : ℕ) (on_disk : (k.inode p).dev ≢ nodev)
    (small : inode_block (k.inode p).number < 500) where
  -- the block of the inode list with the inode written
  abbrev pub inode_stored : List ℕ
  inode_stored =
      with_inode (k.inode p) k.time0 k.time1 (a (k.inode p).dev (inode_block (k.inode p).number))

  -- In a state that represents the blocks `a`, `iupdat` of an inode of a device that is to be written,
  -- with its block below 500, ends: the inode's words and the time stand in its block, no other block
  -- changes, and of the other tables only the flag of the inode does.
  pub iupdat-Writes :
      (k.inode p).upd ≡ true
      → (k' : Kernel) × (iupdat p k ≡ ok tt k')
        × Represents k' (updated a (k.inode p).dev (inode_block (k.inode p).number) inode_stored)
        × (k' ≡ beside k' (set_inode p (record (k.inode p) { upd = false }) k))
  unfolding iupdat
  iupdat-Writes e =
      let k0 = unflagged p k in
      let dev = (k.inode p).dev in
      let n = inode_block (k.inode p).number in
      let (j, k1, call, same, u, v, words) =
        bread-Obtains k0 a (Represents-beside k k0 r) dev n on_disk small in
      let xs = with_inode (k.inode p) k.time0 k.time1 (k1.buf j).data_words in
      let k2 = edited j xs k1 in
      let (wrote, r') = bwrite-Represents k2 j dev n a (edited-Using k1 j dev n a u xs) in
      let stored : (k2.buf j).data_words ≡ inode_stored =
        ap (λ b. b.data_words) (put_self k1.buf j (record (k1.buf j) { data_words = xs }))
        ∙ ap (with_inode (k.inode p) k.time0 k.time1) words in
      (
        written j k2,
        iupdat_call k k1 p j e call ∙ wrote,
        subst (λ t. Represents (written j k2) (updated a dev n t)) stored r',
        ap (λ t. beside (written j k2) t) same,
      )

module _ (k : Kernel) (a : Blocks) (r : Represents k a) (p dev ino : ℕ) (on_disk : dev ≢ nodev)
    (small : inode_block ino < 500) where
  -- the words of the inode on the diskette
  abbrev pub stored_words : List ℕ
  stored_words = drop (inode_word ino) (a dev (inode_block ino))

  -- The inode is read into the entry `p`, with one reference more.
  pub read_inode_lem :
      (k' : Kernel) × (read_inode dev ino p k ≡ ok (some p) k')
      × Represents k' a
      × (k' ≡ beside k' (set_inode p (with_words stored_words (claimed dev ino (k.inode p))) k))
  read_inode_lem =
      let x = claimed dev ino (k.inode p) in
      let k0 = set_inode p x k in
      let n = inode_block ino in
      let (j, k1, call, same, u, v, words) =
        bread-Obtains k0 a (Represents-beside k k0 r) dev n on_disk small in
      let ws = drop (inode_word ino) (k1.buf j).data_words in
      let k2 = taken_over ino p j k1 in
      let (back, r') = brelse-Represents k2 j dev n a (Using-beside k1 k2 u) (record {
        settled = v.settled;
        own = record { cached = v.own.cached; stored = v.own.stored };
      }) in
      (
        released j k2,
        read_inode_call k k1 p j dev ino call (u.cache.healthy j u.index)
            ∙ ap (λ t. and_then t (λ _. ok (some p))) back,
        r',
        ap (λ (t : Kernel). beside (released j k2) (set_inode p (with_words ws (t.inode p)) t)) same
            ∙ ap₂
                (λ ws y.
                  beside (released j k2) (set_inode p (with_words (drop (inode_word ino) ws) y) k0))
                words (put_self k.inode p x)
            ∙ ap (λ f. beside (released j k2) (record k { inode = f }))
                (put-put k.inode p x (with_words stored_words x)),
      )

-- In a state that represents the blocks `a`, an inode of a device that is to be written, whose fields
-- fit their widths and whose block is below 500 and has 256 words, comes back the same when it is
-- read into any entry of the table behind `iupdat`.
pub read_inode-iupdat :
    (k : Kernel) (a : Blocks) (p q : ℕ)
    → Represents k a
    → (k.inode p).upd ≡ true
    → (k.inode p).dev ≢ nodev
    → inode_block (k.inode p).number < 500
    → FitsInode (k.inode p)
    → length (a (k.inode p).dev (inode_block (k.inode p).number)) ≡ 256
    → (k1 : Kernel) × (k2 : Kernel) × (iupdat p k ≡ ok tt k1)
      × (read_inode (k.inode p).dev (k.inode p).number q k1 ≡ ok (some q) k2)
      × SameFile (k2.inode q) (k.inode p)
read_inode-iupdat k a p q r e on_disk small fits full =
    let x = k.inode p in
    let n = inode_block x.number in
    let ws = inode_stored k a r p on_disk small in
    let (k1, call, r1, same) = iupdat-Writes k a r p on_disk small e in
    let (k2, call2, r2, same2) =
      read_inode_lem k1 (updated a x.dev n ws) r1 q x.dev x.number on_disk small in
    let y = claimed x.dev x.number (k1.inode q) in
    let z = with_words (drop (inode_word x.number) (updated a x.dev n ws x.dev n)) y in
    let words : k2.inode q ≡ z = ap (λ (t : Kernel). t.inode q) same2 ∙ put_self k1.inode q z in
    let here : updated a x.dev n ws x.dev n ≡ ws =
      rw (eq→== x.dev x.dev refl, eq→== n n refl) refl in
    let long = length-with_inode x k.time0 k.time1 (a x.dev n) fits full in
    (
      k1,
      k2,
      call,
      call2,
      subst (λ z. SameFile z x)
          (sym (words ∙ ap (λ t. with_words (drop (inode_word x.number) t) y) here))
          (with_words-SameFile x y (drop (inode_word x.number) ws) fits
            (omega (arith, length-drop (inode_word x.number) ws, long))
            (λ i h.
              get_or-drop (inode_word x.number) i ws
              ∙ with_inode_own x k.time0 k.time1 (a x.dev n) fits full i h)),
    )
