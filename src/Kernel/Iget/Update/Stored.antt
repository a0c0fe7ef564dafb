-- ===== src/Kernel/Iget/Update/Stored.antt =====
-- The super block that `update` writes is on the diskette, marked as not modified and with the time.
use bkunix.Prelude.{ℕ, ◌≡◌, ◌≢◌, refl, ap, ◌∙◌, none, some, [], ◌∷◌, arith}
use mathlib.Core.Path.{subst}
use bkunix.Prelude.Tests.{eq→==, ne→==}
use bkunix.Prelude.Run.{ok, and_then}
use bkunix.Kernel.State.{Filsys, Mount, Kernel, nodev}
use bkunix.Kernel.Bio.{bread}
use bkunix.Kernel.Bio.Cache.{put_self}
use bkunix.Kernel.Bio.Transfer.{written}
use bkunix.Kernel.Bio.View.{Blocks, updated, Represents, Using-beside, beside}
use bkunix.Kernel.Bio.Obtain.{getblk-Obtains, bread-Obtains}
use bkunix.Kernel.Bio.Release.{edited, edited-Using, bwrite-Represents}
use bkunix.Kernel.Alloc.{put_fs, set_fs, filsys_words, filsys_of}
use bkunix.Kernel.Alloc.Super.{FitsBlock, filsys_of-filsys_words}
use bkunix.Kernel.Iget.Update.{update_super, update_supers}

-- the super block that is written
abbrev pub stamped : Kernel → Filsys → Filsys
stamped k fs = record fs { time0 = k.time0; time1 = k.time1; fmod = 0 }

module _ (k : Kernel) (a : Blocks) (r : Represents k a) (m dev : ℕ) (fs : Filsys)
    (on_disk : dev ≢ nodev) where
  -- One super block is written into block 1 of its device.
  update_super-Writes :
      (k' : Kernel) × (update_super m dev fs k ≡ ok tt k')
      × Represents k' (updated a dev 1 (filsys_words (stamped k fs)))
      × (k' ≡ beside k' (set_fs m (stamped k fs) k))
  unfolding update_super
  update_super-Writes =
      let (j, k1, call, same, u, v) = getblk-Obtains k a r dev 1 on_disk (omega arith) in
      let fs' = stamped k1 fs in
      let xs = filsys_words fs' in
      let k2 = set_fs m fs' k1 in
      let k3 = edited j xs k2 in
      let (wrote, r') =
        bwrite-Represents k3 j dev 1 a (edited-Using k2 j dev 1 a (Using-beside k1 k2 u) xs) in
      let time : fs' ≡ stamped k fs = ap (λ t. stamped t fs) same in
      let words : (k3.buf j).data_words ≡ filsys_words (stamped k fs) =
        ap (λ b. b.data_words) (put_self k2.buf j (record (k2.buf j) { data_words = xs }))
        ∙ ap filsys_words time in
      (
        written j k3,
        rw call wrote,
        subst (λ t. Represents (written j k3) (updated a dev 1 t)) words r',
        ap (λ t. beside (written j k3) (set_fs m (stamped t fs) t)) same,
      )

-- In a state that represents the blocks `a`, with one diskette mounted, whose super block has been
-- modified, has whole tables and bytes that fit: the loop of `update` over the super blocks ends. The
-- super block is marked as not modified and has the time, its words are in block 1 of the device, no
-- other block changes and no other table, and `bread` of that block gives the words of this super
-- block.
pub update_supers-bread :
    (k : Kernel) (a : Blocks) (x y : Mount) (fs : Filsys)
    → Represents k a
    → k.mount ≡ x ∷ y ∷ []
    → x.fs ≡ some fs
    → y.fs ≡ none
    → fs.fmod ≢ 0
    → FitsBlock fs
    → x.dev ≢ nodev
    → (k1 : Kernel) × (k2 : Kernel) × (j : ℕ) × (update_supers k.mount 0 k ≡ ok tt k1)
      × Represents k1 (updated a x.dev 1 (filsys_words (stamped k fs)))
      × (k1 ≡ beside k1 (record k { mount = record x { fs = some (stamped k fs) } ∷ y ∷ [] }))
      × (bread x.dev 1 k1 ≡ ok j k2)
      × (filsys_of (k2.buf j).data_words ≡ stamped k fs)
unfolding update_supers put_fs
update_supers-bread k a x y fs r two first second modified fits on_disk =
    let fs' = stamped k fs in
    let ws = filsys_words fs' in
    let fits' : FitsBlock fs' = record {
      free = fits.free;
      inode = fits.inode;
      pad = fits.pad;
      flock = fits.flock;
      ilock = fits.ilock;
      fmod = omega arith;
      ronly = fits.ronly;
    } in
    let (k1, call, r1, same) = update_super-Writes k a r 0 x.dev fs on_disk in
    let (j, k2, call', same', u, v, words) =
      bread-Obtains k1 (updated a x.dev 1 ws) r1 x.dev 1 on_disk (omega arith) in
    (
      k1,
      k2,
      j,
      ap (λ t. update_supers t 0 k) two
          ∙ rw (first, second, ne→== fs.fmod 0 modified) (ap (λ t. and_then t (λ u. ok tt)) call),
      r1,
      same ∙ ap (λ t. beside k1 (record k { mount = put_fs t 0 fs' })) two,
      call',
      ap filsys_of (words ∙ rw (eq→== x.dev x.dev refl) refl) ∙ filsys_of-filsys_words fs' fits',
    )
