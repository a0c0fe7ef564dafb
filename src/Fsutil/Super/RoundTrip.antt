-- ===== src/Fsutil/Super/RoundTrip.antt =====
-- The super block written by `lsxfs_sync` and read by `lsxfs_open`.
use bkunix.Prelude.{
  ℕ, zero, suc, ◌+◌, ◌*◌, ◌^◌, ◌<◌, ◌≡◌, refl, sym, ap, ◌∙◌, Bool, true, false, some, List, ◌++◌,
  arith,
}
use bkunix.Prelude.Lists.{length, get_or, replicate, get_or_ext, get_or-append_right}
use bkunix.Prelude.Run.{ok, guard-true}
use bkunix.Fsutil.State.{Image, Fs}
use bkunix.Fsutil.Disk.View.{IsDisk, at}
use bkunix.Fsutil.Block.{pack_words}
use bkunix.Fsutil.Block.Words.{AreWords, word_at-pack_words}
use bkunix.Fsutil.Super.{blank, write_super, sync, open_fs}
use bkunix.Fsutil.Super.Layout.{
  entries, length-entries, layout, inode_part, flags, length-packed, length-layout, clean,
  write_super_lem,
}
use bkunix.Fsutil.Super.Load.{filled, length-filled, get_or-filled, loaded, read_super-Holds}

-- The fields of the super block fit the widths that they have on the disk.
pub record IsKept (fs : Fs) : Type 0 where
  pub isize : fs.isize < 65536
  pub fsize : fs.fsize < 65536
  pub nfree : fs.nfree < 65536
  pub free_slots : length fs.free ≡ 100
  pub free_words : AreWords fs.free
  pub ninode : fs.ninode < 65536
  pub inode_slots : length fs.inode ≡ 100
  pub inode_words : AreWords fs.inode
  pub flock : fs.flock < 256
  pub ilock : fs.ilock < 256
  pub fmod : fs.fmod < 256
  pub ronly : fs.ronly < 256
  pub time : fs.time < 2 ^ 32

-- Two file systems have the same super block.
pub record SameSuper (fs fs' : Fs) : Type 0 where
  pub isize : fs'.isize ≡ fs.isize
  pub fsize : fs'.fsize ≡ fs.fsize
  pub nfree : fs'.nfree ≡ fs.nfree
  pub free : fs'.free ≡ fs.free
  pub ninode : fs'.ninode ≡ fs.ninode
  pub inode : fs'.inode ≡ fs.inode
  pub flock : fs'.flock ≡ fs.flock
  pub ilock : fs'.ilock ≡ fs.ilock
  pub fmod : fs'.fmod ≡ fs.fmod
  pub ronly : fs'.ronly ≡ fs.ronly
  pub time : fs'.time ≡ fs.time

get_or-entries :
    (xs : List ℕ) (n i j : ℕ) → j < n → get_or (entries xs n i) j 0 ≡ get_or xs (i + j) 0
unfolding entries
get_or-entries xs zero i j h = absurd (omega arith)
get_or-entries xs (suc n) i zero h = ap (λ t. get_or xs t 0) (omega arith)
get_or-entries xs (suc n) i (suc j) h =
    get_or-entries xs n (i + 1) j (omega arith) ∙ ap (λ t. get_or xs t 0) (omega arith)

entries_whole : (xs : List ℕ) → length xs ≡ 100 → entries xs 100 0 ≡ xs
entries_whole xs l = get_or_ext _ xs 0 (length-entries xs 100 0 ∙ sym l) λ k lt.
    get_or-entries xs 100 0 k (omega (arith, length-entries xs 100 0))
    ∙ ap (λ t. get_or xs t 0) (omega arith)

-- A table that was packed is read back from where its bytes begin.
table_back :
    (ws rest xs : List ℕ) (o : ℕ)
    → length ws ≡ 100
    → AreWords ws
    → ((k : ℕ) → get_or xs (o + k) 0 ≡ get_or (pack_words (entries ws 100 0) ++ rest) k 0)
    → filled (replicate 100 0) xs 100 0 o ≡ ws
table_back ws rest xs o l h same =
    let len = length-filled (replicate 100 0) xs 100 0 o in
    get_or_ext _ ws 0 (len ∙ sym l) λ j lt.
      let small : j < 100 = omega (arith, len) in
      let next : o + 2 * j + 1 ≡ o + (2 * j + 1) = omega arith in
      ap (λ t. get_or (filled (replicate 100 0) xs 100 0 o) t 0) (omega arith)
      ∙ get_or-filled (replicate 100 0) xs 100 0 o j (omega arith) small
      ∙ rw (next, same (2 * j), same (2 * j + 1), entries_whole ws l)
          (word_at-pack_words ws rest j h (omega arith))

module _ (fs : Fs) (s : IsKept fs) where
  free_at :
      (k : ℕ)
      → get_or (layout fs) (6 + k) 0
        ≡ get_or (pack_words (entries fs.free 100 0) ++ inode_part fs) k 0
  free_at k = let e : 6 + k ≡ suc (suc (suc (suc (suc (suc k))))) = omega arith in rw e

  behind_free : (k : ℕ) → get_or (layout fs) (206 + k) 0 ≡ get_or (inode_part fs) k 0
  behind_free k =
      let len = length-packed fs.free in
      ap (λ t. get_or (layout fs) t 0) (omega arith)
      ∙ free_at (200 + k)
      ∙ get_or-append_right (pack_words (entries fs.free 100 0)) (inode_part fs) (200 + k) 0
          (omega (arith, len))
      ∙ ap (λ t. get_or (inode_part fs) t 0) (omega (arith, len))

  inodes_at :
      (k : ℕ)
      → get_or (layout fs) (208 + k) 0
        ≡ get_or (pack_words (entries fs.inode 100 0) ++ flags fs) k 0
  inodes_at k =
      let e : 2 + k ≡ suc (suc k) = omega arith in
      ap (λ t. get_or (layout fs) t 0) (omega arith) ∙ behind_free (2 + k) ∙ rw e

  flags_at : (k : ℕ) → get_or (layout fs) (408 + k) 0 ≡ get_or (flags fs) k 0
  flags_at k =
      let len = length-packed fs.inode in
      ap (λ t. get_or (layout fs) t 0) (omega arith)
      ∙ inodes_at (200 + k)
      ∙ get_or-append_right (pack_words (entries fs.inode 100 0)) (flags fs) (200 + k) 0
          (omega (arith, len))
      ∙ ap (λ t. get_or (flags fs) t 0) (omega (arith, len))

  -- What is loaded from the bytes is what they were laid out from.
  loaded-layout :
      (f : Image) (w : Bool)
      → SameSuper fs (at (loaded (record (blank f) { writable = w }) (layout fs)) f 928)
  loaded-layout f w = record {
    isize = omega (arith, s);
    fsize = omega (arith, s);
    nfree = omega (arith, s);
    free = table_back fs.free (inode_part fs) (layout fs) 6 s.free_slots s.free_words free_at;
    ninode = omega (arith, s, behind_free 0, behind_free 1);
    inode = table_back fs.inode (flags fs) (layout fs) 208 s.inode_slots s.inode_words inodes_at;
    flock = omega (arith, s, flags_at 0);
    ilock = omega (arith, s, flags_at 1);
    fmod = omega (arith, s, flags_at 2);
    ronly = omega (arith, s, flags_at 3);
    time = omega (arith, s, flags_at 4, flags_at 5, flags_at 6, flags_at 7);
  }

-- Forced or not, `lsxfs_sync` of a file system marked `dirty` writes it.
sync-runs :
    (fs : Fs) (force : Bool) → fs.writable ≡ true → fs.dirty ≡ true → sync force fs ≡ write_super fs
unfolding sync
sync-runs fs true w d = guard-true fs.writable write_super fs w
sync-runs fs false w d = guard-true fs.writable _ fs w ∙ rw d

-- Syncing a writable file system that is marked `dirty`, over a whole diskette, succeeds, and
-- clears the mark; opening the image that it leaves gives a file system with the same super block,
-- where all its fields fit their widths and its two tables have 100 entries.
pub open_fs-sync :
    (fs : Fs) (force w : Bool)
    → fs.writable ≡ true
    → fs.dirty ≡ true
    → IsDisk fs.image
    → IsKept fs
    → (fs' fs'' : Fs) × (sync force fs ≡ ok tt fs')
      × (fs'.dirty ≡ false)
      × (open_fs (some fs'.image) w ≡ some (ok tt fs''))
      × SameSuper fs fs''
unfolding open_fs
open_fs-sync fs force w on dirty d s =
    let (g, runs, wrote) = write_super_lem fs on d in
    let image = (at fs g 928).image in
    let start = record (blank image) { writable = w } in
    (
      clean (at fs g 928),
      at (loaded start (layout fs)) image 928,
      sync-runs fs force on dirty ∙ runs,
      refl,
      ap some (
          read_super-Holds start (layout fs) (omega (arith, wrote.disk)) wrote.inside
            (length-layout fs)),
      loaded-layout fs s image w,
    )
