-- ===== src/Fsutil/Disk/Blocks.antt =====
-- `lsxfs_read_block` and `lsxfs_write_block` against the view of the image.
use bkunix.Prelude.{
  ℕ, zero, suc, ◌+◌, ◌*◌, ◌%◌, ◌≤◌, ◌<◌, min, ◌≡◌, ◌≢◌, refl, ap, ap₂, ◌∙◌, ◌⊎◌, true, false,
  Option, none, some, List, [], ◌∷◌, ◌++◌, ◌&&◌, not, arith,
}
use mathlib.Core.Path.{subst}
use bkunix.Prelude.Tests.{◌==◌, if◌then◌else◌, leb, lt→leb, eq→==, ne→==}
use bkunix.Prelude.Lists.{
  length, get_or, take, drop, length-take, length-drop, take-append-drop, get_or_ext,
}
use bkunix.Prelude.Run.{Run, ok, fail, fault, Cmd, ◌>>◌, guard-true, guard-false}
use native.Mathlib.Decide.{ℕ_discrete}
use bkunix.Fsutil.State.{Image, Fs}
use bkunix.Fsutil.Disk.{
  bytes_from, write_all, update_seek, read_sectors, write_loop, write, read_block, write_block,
}
use bkunix.Fsutil.Disk.View.{
  view, IsDisk, at, stored, bytes_from-eq, seek_lem, update_seek_lem, read-at, write-at,
}
use bkunix.Fsutil.Disk.Wrote.{Wrote, stored-Wrote, Wrote-nil, Wrote-append}

bytes_from-append :
    (f : ℕ → ℕ) (a n m : ℕ) → bytes_from f a n ++ bytes_from f (a + n) m ≡ bytes_from f a (n + m)
bytes_from-append f a zero m = ap₂ (bytes_from f) (omega arith) (omega arith)
bytes_from-append f a (suc n) m =
    let next : a + suc n ≡ a + 1 + n = omega arith in
    let count : suc n + m ≡ suc (n + m) = omega arith in
    rw (next, count, bytes_from-append f (a + 1) n m)

read_sectors_lem :
    (fs : Fs) (f : Image) (n a : ℕ)
    → IsDisk f
    → a % 128 ≡ 0
    → a + 128 * n ≤ 256256
    → read_sectors n (at fs f a) ≡ ok (bytes_from (view f) a (128 * n)) (at fs f (a + 128 * n))
unfolding read_sectors
read_sectors_lem fs f zero a d h e = ap (λ p. ok [] (at fs f p)) (omega arith)
read_sectors_lem fs f (suc n) a d h e =
    rw
      (
        read-at fs f a 128 d (omega arith) (omega arith) (omega arith),
        update_seek_lem fs f a 128 (omega arith) (omega arith),
        read_sectors_lem fs f n (a + 128) d (omega arith) (omega arith),
      )
      (ap₂ (λ xs p. ok xs (at fs f p))
        (bytes_from-append (view f) a 128 (128 * n) ∙ ap (bytes_from (view f) a) (omega arith))
        (omega arith))

-- what is left of a command's run by one who asks for its result alone
abbrev pub result : {S A : Type 0} → Run S A → Option A
result (ok a s) = some a
result (fail s) = none
result fault = none

-- A block that may be read holds its 512 bytes of the view.
pub read_block_lem :
    (fs : Fs) (b : ℕ)
    → IsDisk fs.image
    → fs.isize + 1 < b
    → b < 500
    → read_block b fs
      ≡ ok (bytes_from (view fs.image) (b * 512) 512) (at fs fs.image (b * 512 + 512))
unfolding read_block
read_block_lem fs b d lo hi = rw (
  lt→leb b (fs.isize + 1) lo,
  seek_lem fs (b * 512) (omega arith),
  read_sectors_lem fs fs.image 4 (b * 512) d (omega arith) (omega arith),
)

-- A round of `lsxfs_write` on a whole sector, given what the later rounds do.
write_round :
    (fs : Fs) (f : Image) (a : ℕ) (xs rest : List ℕ) (later : List ℕ → Cmd Fs (Unit {0}))
    → fs.writable ≡ true
    → IsDisk f
    → 128 ≤ length xs
    → drop 128 xs ≡ rest
    → a % 128 ≡ 0
    → a + length xs ≤ 256256
    → (g : Image) × (later rest (at fs (stored f a (take 128 xs)) (a + 128))
        ≡ ok tt (at fs g (a + 128 + length rest)))
      × Wrote (stored f a (take 128 xs)) g (a + 128) rest
    → (g : Image) × ((write_all (take 128 xs) >> (update_seek (min 128 (length xs)) >> later rest))
          (at fs f a)
        ≡ ok tt (at fs g (a + length xs)))
      × Wrote f g a xs
write_round fs f a xs rest later wr d l r h e (g, runs, w) =
    let taken : length (take 128 xs) ≡ 128 = omega (arith, length-take 128 xs) in
    let whole : min 128 (length xs) ≡ 128 = omega arith in
    let end : a + 128 + length rest ≡ a + length xs =
      rw (← r) (omega (arith, length-drop 128 xs)) in
    let joined : take 128 xs ++ rest ≡ xs = rw (← r) (take-append-drop 128 xs) in
    (
      g,
      rw (
        write-at fs f a (take 128 xs) wr d (omega arith) (omega arith) (omega arith),
        whole,
        taken,
        update_seek_lem fs (stored f a (take 128 xs)) a 128 (omega arith) (omega arith),
        runs,
        end,
      ),
      subst (Wrote f g a) joined (
          Wrote-append a (take 128 xs) rest (omega arith)
            (stored-Wrote f a (take 128 xs) d (omega arith) (omega arith) (omega arith))
            (rw taken w)),
    )

write_loop-Wrote :
    (fs : Fs) (k fuel : ℕ) (f : Image) (a : ℕ) (xs : List ℕ)
    → fs.writable ≡ true
    → IsDisk f
    → length xs ≡ 128 * k
    → k ≤ fuel
    → a % 128 ≡ 0
    → a + length xs ≤ 256256
    → (g : Image) × (write_loop fuel xs (at fs f a) ≡ ok tt (at fs g (a + length xs)))
      × Wrote f g a xs
unfolding write_loop
write_loop-Wrote fs k zero f a [] wr d l t h e =
    (f, ap (λ p. ok tt (at fs f p)) (omega arith), Wrote-nil a d)
write_loop-Wrote fs k (suc fuel) f a [] wr d l t h e =
    (f, ap (λ p. ok tt (at fs f p)) (omega arith), Wrote-nil a d)
write_loop-Wrote fs k zero f a (x ∷ xs) wr d l t h e = absurd (omega arith)
write_loop-Wrote fs zero (suc fuel) f a (x ∷ xs) wr d l t h e = absurd (omega arith)
write_loop-Wrote fs (suc k) (suc fuel) f a (x ∷ xs) wr d l t h e =
    write_round fs f a (x ∷ xs) (drop 127 xs) (write_loop fuel) wr d (omega arith) refl h e (
      write_loop-Wrote fs k fuel (stored f a (take 128 (x ∷ xs))) (a + 128) (drop 127 xs) wr
        (stored-Wrote f a (take 128 (x ∷ xs)) d (omega arith) (omega (arith, length-take 127 xs))
          (omega (arith, length-take 127 xs))).disk
        (omega (arith, length-drop 127 xs)) (omega arith) (omega arith)
        (omega (arith, length-drop 127 xs)))

-- the file system after a block has been written
abbrev pub after : Fs → Image → ℕ → Fs
after fs g b = record (at fs g (b * 512 + 512)) { modified = true }

pub write_lem :
    (fs : Fs) (xs : List ℕ) → fs.writable ≡ true → write xs fs ≡ write_loop (length xs) xs fs
unfolding write
write_lem fs xs w = guard-true fs.writable (write_loop (length xs) xs) fs w

-- `lsxfs_write_block` around its loop
write_block-runs :
    (fs : Fs) (b : ℕ) (xs : List ℕ) (g : Image)
    → fs.writable ≡ true
    → fs.isize + 1 < b
    → b < 500
    → length xs ≡ 512
    → write_loop (length xs) xs (at fs fs.image (b * 512)) ≡ ok tt (at fs g (b * 512 + length xs))
    → write_block b xs fs ≡ ok tt (after fs g b)
unfolding write_block
write_block-runs fs b xs g w lo hi l runs =
    guard-true (fs.writable && not (leb b (fs.isize + 1))) _ fs (ground arith)
    ∙ rw (seek_lem fs (b * 512) (omega arith), write_lem (at fs fs.image (b * 512)) xs w, runs, l)

pub write_block_lem :
    (fs : Fs) (b : ℕ) (xs : List ℕ)
    → IsDisk fs.image
    → fs.writable ≡ true
    → fs.isize + 1 < b
    → b < 500
    → length xs ≡ 512
    → (g : Image) × (write_block b xs fs ≡ ok tt (after fs g b)) × Wrote fs.image g (b * 512) xs
write_block_lem fs b xs d w lo hi l =
    let (g, runs, wrote) =
      write_loop-Wrote fs 4 (length xs) fs.image (b * 512) xs w d (omega arith) (omega arith)
        (omega arith) (omega arith) in
    (g, write_block-runs fs b xs g w lo hi l runs, wrote)

pub length-bytes_from : (f : ℕ → ℕ) (a n : ℕ) → length (bytes_from f a n) ≡ n
length-bytes_from f a zero = refl
length-bytes_from f a (suc n) = ap suc (length-bytes_from f (a + 1) n)

pub get_or-bytes_from : (f : ℕ → ℕ) (a n k : ℕ) → k < n → get_or (bytes_from f a n) k 0 ≡ f (a + k)
get_or-bytes_from f a zero k h = absurd (omega arith)
get_or-bytes_from f a (suc n) zero h = ap f (omega arith)
get_or-bytes_from f a (suc n) (suc k) h =
    get_or-bytes_from f (a + 1) n k (omega arith) ∙ ap f (omega arith)

-- The bytes of a run of the view, from those at each address.
pub bytes_from-Wrote :
    {f g : Image} (a : ℕ) (xs : List ℕ) → Wrote f g a xs → bytes_from (view g) a (length xs) ≡ xs
bytes_from-Wrote {g} a xs w =
    let len = length-bytes_from (view g) a (length xs) in
    get_or_ext _ xs 0 len
      λ k lt. get_or-bytes_from (view g) a (length xs) k (omega arith) ∙ w.inside k (omega arith)

-- The bytes of another block lie outside.
apart :
    (c b k : ℕ) {n : ℕ}
    → c ≢ b
    → k < 512
    → n ≡ 512
    → (c * 512 + k < b * 512) ⊎ (b * 512 + n ≤ c * 512 + k)
apart c b k e h l = grind arith

-- A block that fsutil may write, on a volume of at most 500 blocks.
pub record IsFree (fs : Fs) (b : ℕ) : Type 0 where
  pub above : fs.isize + 1 < b
  pub below : b < 500

-- What is read after a block has been written.
read-after :
    (fs : Fs) (b c : ℕ) (xs : List ℕ) (g : Image)
    → IsDisk fs.image
    → IsFree fs c
    → length xs ≡ 512
    → Wrote fs.image g (b * 512) xs
    → result (read_block c (after fs g b)) ≡ (if c == b then some xs else result (read_block c fs))
read-after fs b c xs g d hc l wrote =
    ap result (read_block_lem (after fs g b) c (omega (arith, wrote.disk)) hc.above hc.below)
    ∙ elim (ℕ_discrete c b) [
      | yes e ↦ rw (eq→== c b e, e) (ap some (rw l at (bytes_from-Wrote (b * 512) xs wrote)))
      | no e ↦
          rw (ne→== c b e, read_block_lem fs c d hc.above hc.below)
            (ap some (
              bytes_from-eq (view g) (view fs.image) (c * 512) (c * 512) 512
                λ k lt. wrote.outside (c * 512 + k) (omega arith) (apart c b k e lt l)))
    ]

-- On a writable file system over a whole diskette, writing 512 bytes to a block behind the inode
-- list succeeds, and leaves each such block reading as before, but for the one written, which reads
-- as those bytes.
pub read_block-write_block :
    (fs : Fs) (b c : ℕ) (xs : List ℕ)
    → IsDisk fs.image
    → fs.writable ≡ true
    → IsFree fs b
    → IsFree fs c
    → length xs ≡ 512
    → (fs' : Fs) × (write_block b xs fs ≡ ok tt fs')
      × (result (read_block c fs') ≡ (if c == b then some xs else result (read_block c fs)))
read_block-write_block fs b c xs d w hb hc l =
    let (g, runs, wrote) = write_block_lem fs b xs d w hb.above hb.below l in
    (after fs g b, runs, read-after fs b c xs g d hc l wrote)

-- A write to the boot block, the super block or the inode list is refused and changes nothing, and
-- so is a read of those blocks, and a write to any block on a file system not open for writing.
pub refused :
    (fs : Fs) (b c : ℕ) (xs : List ℕ)
    → b ≤ fs.isize + 1
    → (write_block b xs fs ≡ fail fs)
      × (read_block b fs ≡ fail fs)
      × (write_block c xs (record fs { writable = false }) ≡ fail (record fs { writable = false }))
unfolding read_block write_block
refused fs b c xs h = (
  guard-false (fs.writable && not (leb b (fs.isize + 1))) _ fs (ground arith),
  guard-false (not (leb b (fs.isize + 1))) _ fs (ground arith),
  refl,
)
