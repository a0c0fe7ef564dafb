-- ===== src/Fsutil/Inode/Codec.antt =====
-- Inodes on the disk: what `lsxfs_inode_save` writes is what `lsxfs_inode_get` reads.
use bkunix.Prelude.{
  ℕ, zero, suc, ◌+◌, ◌*◌, ◌%◌, ◌^◌, ◌≤◌, ◌<◌, ◌≡◌, ap, ◌∙◌, false, List, [], arith,
}
use bkunix.Prelude.Lists.{length}
use bkunix.Prelude.Run.{ok, guard-true}
use bkunix.Fsutil.State.{Image, Fs, Inode}
use bkunix.Fsutil.Disk.{byte_at}
use bkunix.Fsutil.Disk.View.{IsDisk, at, seek_lem}
use bkunix.Fsutil.Disk.Words.{Holds, read8_lem, read16_lem, read32_lem}
use bkunix.Fsutil.Block.{word_at, unpack_words}
use bkunix.Fsutil.Inode.{is_inode, read_words, inode_get}

-- the number in the 4 bytes from `k` on, high word first
abbrev pub long_at : List ℕ → ℕ → ℕ
long_at xs k =
    byte_at xs (k + 1) * 2 ^ 24
    + byte_at xs k * 2 ^ 16
    + byte_at xs (k + 3) * 256
    + byte_at xs (k + 2)

-- an inode's 32 bytes, taken apart
unfoldable pub decode : ℕ → List ℕ → Inode
decode n xs = record {
  number = n;
  dirty = false;
  mode = word_at xs 0;
  nlink = byte_at xs 2;
  uid = byte_at xs 3;
  gid = byte_at xs 4;
  size = byte_at xs 5 * 65536 + word_at xs 6;
  addr = unpack_words 8 xs 8;
  atime = long_at xs 24;
  mtime = long_at xs 28;
}

read_words_lem :
    (fs : Fs) (f : Image) (o : ℕ) (xs : List ℕ)
    → IsDisk f
    → Holds f o xs
    → (n k : ℕ) → k + 2 * n ≤ length xs
    → o % 32 ≡ 0
    → k % 2 ≡ 0
    → o + length xs ≤ 256256
    → read_words n (at fs f (o + k)) ≡ ok (unpack_words n xs k) (at fs f (o + (k + 2 * n)))
unfolding read_words unpack_words
read_words_lem fs f o xs d h zero k l s t e = ap (λ p. ok [] (at fs f (o + p))) (omega arith)
read_words_lem fs f o xs d h (suc n) k l s t e =
    rw
      (
        read16_lem fs f o xs d h k (omega arith) (omega arith) (omega arith),
        read_words_lem fs f o xs d h n (k + 2) (omega arith) s (omega arith) e,
      )
      (ap (λ p. ok (unpack_words (suc n) xs k) (at fs f (o + p))) (omega arith))

-- the address of an inode on the disk
abbrev pub place : ℕ → ℕ
place n = (n + 31) * 32

-- An inode whose number is in the list, on a volume whose inode list lies on the diskette.
pub record IsListed (fs : Fs) (n : ℕ) : Type 0 where
  pub first : 0 < n
  pub last : n ≤ fs.isize * 16
  pub on_disk : fs.isize < 498

pub inode_get-Holds :
    (fs : Fs) (n : ℕ) (xs : List ℕ)
    → IsDisk fs.image
    → IsListed fs n
    → length xs ≡ 32
    → Holds fs.image (place n) xs
    → inode_get n fs ≡ ok (decode n xs) (at fs fs.image (place n + 32))
unfolding inode_get decode
inode_get-Holds fs n xs d v l h =
    let f = fs.image in
    let o = place n in
    let start : place n ≡ place n + 0 = omega arith in
    guard-true (is_inode n fs) _ fs (ground arith)
    ∙ rw
        (
          seek_lem fs (place n) (omega arith),
          start,
          read16_lem fs f o xs d h 0 (omega arith) (omega arith) (omega arith),
          read8_lem fs f o xs d h 2 (omega arith) (omega arith) (omega arith),
          read8_lem fs f o xs d h 3 (omega arith) (omega arith) (omega arith),
          read8_lem fs f o xs d h 4 (omega arith) (omega arith) (omega arith),
          read8_lem fs f o xs d h 5 (omega arith) (omega arith) (omega arith),
          read16_lem fs f o xs d h 6 (omega arith) (omega arith) (omega arith),
          read_words_lem fs f o xs d h 8 8 (omega arith) (omega arith) (omega arith) (omega arith),
          read32_lem fs f o xs d h 24 (omega arith) (omega arith) (omega arith),
          read32_lem fs f o xs d h 28 (omega arith) (omega arith) (omega arith),
        )
        (ap (λ p. ok (decode n xs) (at fs f (p + 32))) (omega arith))
