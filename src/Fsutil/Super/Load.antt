-- ===== src/Fsutil/Super/Load.antt =====
-- `lsxfs_open`, by the bytes of the super block that it finds.
use bkunix.Prelude.{ℕ, zero, suc, ◌+◌, ◌*◌, ◌%◌, ◌≤◌, ◌<◌, ◌≡◌, refl, ap, ◌∙◌, List, arith}
use bkunix.Prelude.Lists.{length, get_or, set, length-set, get_or-set_self, get_or-set_ne}
use bkunix.Prelude.Run.{ok}
use bkunix.Fsutil.State.{Image, Fs}
use bkunix.Fsutil.Disk.{byte_at}
use bkunix.Fsutil.Disk.View.{IsDisk, at, seek_lem}
use bkunix.Fsutil.Disk.Words.{Holds, read8_lem, read16_lem, read32_lem}
use bkunix.Fsutil.Block.{word_at}
use bkunix.Fsutil.Inode.Codec.{long_at}
use bkunix.Fsutil.Super.{read_free, read_inodes, read_super}

-- a table with `n` words from byte `k` on stored from entry `i` on
unfoldable pub filled : List ℕ → List ℕ → ℕ → ℕ → ℕ → List ℕ
filled table xs zero i k = table
filled table xs (suc n) i k = filled (set table i (word_at xs k)) xs n (i + 1) (k + 2)

pub length-filled : (table xs : List ℕ) (n i k : ℕ) → length (filled table xs n i k) ≡ length table
unfolding filled
length-filled table xs zero i k = refl
length-filled table xs (suc n) i k =
    length-filled (set table i (word_at xs k)) xs n (i + 1) (k + 2)
    ∙ length-set table i (word_at xs k)

filled-below :
    (table xs : List ℕ) (n i k j : ℕ)
    → j < i
    → get_or (filled table xs n i k) j 0 ≡ get_or table j 0
unfolding filled
filled-below table xs zero i k j h = refl
filled-below table xs (suc n) i k j h =
    filled-below (set table i (word_at xs k)) xs n (i + 1) (k + 2) j (omega arith)
    ∙ get_or-set_ne table i j (word_at xs k) 0 (λ e. absurd (omega arith))

pub get_or-filled :
    (table xs : List ℕ) (n i k j : ℕ)
    → i + n ≤ length table
    → j < n
    → get_or (filled table xs n i k) (i + j) 0 ≡ word_at xs (k + 2 * j)
unfolding filled
get_or-filled table xs zero i k j l h = absurd (omega arith)
get_or-filled table xs (suc n) i k zero l h =
    filled-below (set table i (word_at xs k)) xs n (i + 1) (k + 2) (i + 0) (omega arith)
    ∙ ap (λ t. get_or (set table i (word_at xs k)) t 0) (omega arith)
    ∙ get_or-set_self table i (word_at xs k) 0 (omega arith)
    ∙ ap (word_at xs) (omega arith)
get_or-filled table xs (suc n) i k (suc j) l h =
    ap (λ t. get_or (filled (set table i (word_at xs k)) xs n (i + 1) (k + 2)) t 0) (omega arith)
    ∙ get_or-filled (set table i (word_at xs k)) xs n (i + 1) (k + 2) j
        (omega (arith, length-set table i (word_at xs k))) (omega arith)
    ∙ ap (word_at xs) (omega arith)

module _ (f : Image) (o : ℕ) (xs : List ℕ) (d : IsDisk f) (h : Holds f o xs) where
  read_free_lem :
      (n i k : ℕ) (fs : Fs)
      → k + 2 * n ≤ length xs
      → (o + k) % 2 ≡ 0
      → o + length xs ≤ 256256
      → read_free n i (at fs f (o + k))
        ≡ ok tt (at (record fs { free = filled fs.free xs n i k }) f (o + (k + 2 * n)))
  unfolding read_free filled
  read_free_lem zero i k fs l p e = ap (λ t. ok tt (at fs f (o + t))) (omega arith)
  read_free_lem (suc n) i k fs l p e =
      rw
        (
          read16_lem fs f o xs d h k (omega arith) (omega arith) (omega arith),
          read_free_lem n (i + 1) (k + 2) (record fs { free = set fs.free i (word_at xs k) })
              (omega arith) (omega arith) e,
        )
        (ap
          (λ t. ok tt (
            at (record fs { free = filled (set fs.free i (word_at xs k)) xs n (i + 1) (k + 2) }) f
              (o + t)))
          (omega arith))

  read_inodes_lem :
      (n i k : ℕ) (fs : Fs)
      → k + 2 * n ≤ length xs
      → (o + k) % 2 ≡ 0
      → o + length xs ≤ 256256
      → read_inodes n i (at fs f (o + k))
        ≡ ok tt (at (record fs { inode = filled fs.inode xs n i k }) f (o + (k + 2 * n)))
  unfolding read_inodes filled
  read_inodes_lem zero i k fs l p e = ap (λ t. ok tt (at fs f (o + t))) (omega arith)
  read_inodes_lem (suc n) i k fs l p e =
      rw
        (
          read16_lem fs f o xs d h k (omega arith) (omega arith) (omega arith),
          read_inodes_lem n (i + 1) (k + 2) (record fs { inode = set fs.inode i (word_at xs k) })
              (omega arith) (omega arith) e,
        )
        (ap
          (λ t. ok tt (
            at (record fs { inode = filled (set fs.inode i (word_at xs k)) xs n (i + 1) (k + 2) }) f
              (o + t)))
          (omega arith))

-- the fields of the super block, taken from its bytes
abbrev pub loaded : Fs → List ℕ → Fs
loaded fs xs = record fs {
  isize = word_at xs 0;
  fsize = word_at xs 2;
  nfree = word_at xs 4;
  free = filled fs.free xs 100 0 6;
  ninode = word_at xs 206;
  inode = filled fs.inode xs 100 0 208;
  flock = byte_at xs 408;
  ilock = byte_at xs 409;
  fmod = byte_at xs 410;
  ronly = byte_at xs 411;
  time = long_at xs 412;
}

pub read_super-Holds :
    (fs : Fs) (xs : List ℕ)
    → IsDisk fs.image
    → Holds fs.image 512 xs
    → length xs ≡ 416
    → read_super fs ≡ ok tt (at (loaded fs xs) fs.image 928)
unfolding read_super
read_super-Holds fs xs d h l =
    let f = fs.image in
    let fs1 = record fs { isize = word_at xs 0 } in
    let fs2 = record fs1 { fsize = word_at xs 2 } in
    let fs3 = record fs2 { nfree = word_at xs 4 } in
    let fs4 = record fs3 { free = filled fs.free xs 100 0 6 } in
    let fs5 = record fs4 { ninode = word_at xs 206 } in
    let fs6 = record fs5 { inode = filled fs.inode xs 100 0 208 } in
    let fs7 = record fs6 { flock = byte_at xs 408 } in
    let fs8 = record fs7 { ilock = byte_at xs 409 } in
    let fs9 = record fs8 { fmod = byte_at xs 410 } in
    let fs10 = record fs9 { ronly = byte_at xs 411 } in
    rw (
      seek_lem fs 512 (omega arith),
      read16_lem fs f 512 xs d h 0 (omega arith) (omega arith) (omega arith),
      read16_lem fs1 f 512 xs d h 2 (omega arith) (omega arith) (omega arith),
      read16_lem fs2 f 512 xs d h 4 (omega arith) (omega arith) (omega arith),
      read_free_lem f 512 xs d h 100 0 6 fs3 (omega arith) (omega arith) (omega arith),
      read16_lem fs4 f 512 xs d h 206 (omega arith) (omega arith) (omega arith),
      read_inodes_lem f 512 xs d h 100 0 208 fs5 (omega arith) (omega arith) (omega arith),
      read8_lem fs6 f 512 xs d h 408 (omega arith) (omega arith) (omega arith),
      read8_lem fs7 f 512 xs d h 409 (omega arith) (omega arith) (omega arith),
      read8_lem fs8 f 512 xs d h 410 (omega arith) (omega arith) (omega arith),
      read8_lem fs9 f 512 xs d h 411 (omega arith) (omega arith) (omega arith),
      read32_lem fs10 f 512 xs d h 412 (omega arith) (omega arith) (omega arith),
    )
