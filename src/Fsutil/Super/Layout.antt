-- ===== src/Fsutil/Super/Layout.antt =====
-- The bytes of the super block, and `lsxfs_sync`, which writes them.
use bkunix.Prelude.{
  ℕ, zero, suc, ◌+◌, ◌*◌, ◌/◌, ◌%◌, ◌≤◌, ◌≡◌, refl, ap, ◌∙◌, true, false, List, [], ◌∷◌, ◌++◌,
  arith,
}
use bkunix.Prelude.Lists.{length, get_or, length-append}
use bkunix.Prelude.Run.{ok, Cmd, and_then, ◌>>◌, modify}
use bkunix.Fsutil.State.{Image, Fs, u8}
use bkunix.Fsutil.Disk.{write8, write16, write32}
use bkunix.Fsutil.Disk.View.{IsDisk, at, seek_lem}
use bkunix.Fsutil.Disk.Wrote.{Wrote, Wrote-nil, Wrote-append}
use bkunix.Fsutil.Disk.Words.{
  long_bytes, Emits, Emits-nil, Emits->>, write8-Emits, write16-Emits, write32-Emits,
}
use bkunix.Fsutil.Block.{pack_words}
use bkunix.Fsutil.Block.Words.{length-pack_words}
use bkunix.Fsutil.Super.{write_free, write_inodes, write_super}

-- `n` entries of a table from entry `i` on
unfoldable pub entries : List ℕ → ℕ → ℕ → List ℕ
entries xs zero i = []
entries xs (suc n) i = get_or xs i 0 ∷ entries xs n (i + 1)

pub length-entries : (xs : List ℕ) (n i : ℕ) → length (entries xs n i) ≡ n
unfolding entries
length-entries xs zero i = refl
length-entries xs (suc n) i = ap suc (length-entries xs n (i + 1))

abbrev pub word_bytes : ℕ → List ℕ
word_bytes v = u8 v ∷ u8 (v / 256) ∷ []

-- the flags and the time, at the end
abbrev pub flags : Fs → List ℕ
flags fs =
    (u8 fs.flock ∷ [])
    ++ ((u8 fs.ilock ∷ [])
        ++ ((u8 fs.fmod ∷ []) ++ ((u8 fs.ronly ∷ []) ++ (long_bytes fs.time ++ []))))

-- the list of free inodes and what follows it
abbrev pub inode_part : Fs → List ℕ
inode_part fs = word_bytes fs.ninode ++ (pack_words (entries fs.inode 100 0) ++ flags fs)

-- the 416 bytes of the super block
abbrev pub layout : Fs → List ℕ
layout fs =
    word_bytes fs.isize
    ++ (word_bytes fs.fsize
        ++ (word_bytes fs.nfree ++ (pack_words (entries fs.free 100 0) ++ inode_part fs)))

pub length-packed : (xs : List ℕ) → length (pack_words (entries xs 100 0)) ≡ 200
length-packed xs = omega (arith, length-pack_words (entries xs 100 0), length-entries xs 100 0)

pub length-inode_part : (fs : Fs) → length (inode_part fs) ≡ 210
length-inode_part fs =
    omega (
      arith,
      length-append (pack_words (entries fs.inode 100 0)) (flags fs),
      length-packed fs.inode,
    )

pub length-layout : (fs : Fs) → length (layout fs) ≡ 416
length-layout fs = omega (
  arith,
  length-append (pack_words (entries fs.free 100 0)) (inode_part fs),
  length-packed fs.free,
  length-inode_part fs,
)

-- the file system with its `dirty` mark taken off
abbrev pub clean : Fs → Fs
clean fs = record fs { dirty = false }

-- Commands that write the bytes `xs` and then take the mark off.
pub record Ends (fs : Fs) (m : Cmd Fs (Unit {0})) (a : ℕ) (xs : List ℕ) : Type 0 where
  pub runs :
      (f : Image)
      → IsDisk f
      → (g : Image) × (m (at fs f a) ≡ ok tt (clean (at fs g (a + length xs)))) × Wrote f g a xs

Ends-nil : (fs : Fs) (a : ℕ) → Ends fs (modify clean) a []
Ends-nil fs a = record {
  runs = λ f d. (f, ap (λ p. ok tt (clean (at fs f p))) (omega arith), Wrote-nil a d);
}

Ends->> :
    {fs : Fs} {m n : Cmd Fs (Unit {0})} {a : ℕ} {xs ys : List ℕ}
    → a + length xs + length ys ≤ 256256
    → Emits fs m a xs
    → Ends fs n (a + length xs) ys
    → Ends fs (m >> n) a (xs ++ ys)
Ends->> {fs} {m} {n} {a} {xs} {ys} e u v = record {
  runs = λ f d.
      let (g, first, wrote) = u.runs f d in
      let (h, second, wrote') = v.runs g wrote.disk in
      (
        h,
        ap (λ t. and_then t (λ _. n)) first
            ∙ second
            ∙ ap (λ p. ok tt (clean (at fs h p))) (omega (arith, length-append xs ys)),
        Wrote-append a xs ys e wrote wrote',
      );
}

module _ (fs : Fs) (w : fs.writable ≡ true) where
  write_free-Emits :
      (n i a : ℕ)
      → a % 2 ≡ 0
      → a + 2 * n ≤ 256256
      → Emits fs (write_free n i) a (pack_words (entries fs.free n i))
  unfolding write_free entries pack_words
  write_free-Emits zero i a p e = Emits-nil fs a
  write_free-Emits (suc n) i a p e =
      let rest = write_free-Emits n (i + 1) (a + 2) (omega arith) (omega arith) in
      let fits : length (pack_words (entries fs.free n (i + 1))) ≡ 2 * n =
        omega (
          arith,
          length-pack_words (entries fs.free n (i + 1)),
          length-entries fs.free n (i + 1),
        ) in
      let both =
        Emits->> (omega (arith, fits))
          (write16-Emits fs w a (get_or fs.free i 0) (omega arith) (omega arith)) rest in
      record { runs = λ f d. both.runs f d }

  write_inodes-Emits :
      (n i a : ℕ)
      → a % 2 ≡ 0
      → a + 2 * n ≤ 256256
      → Emits fs (write_inodes n i) a (pack_words (entries fs.inode n i))
  unfolding write_inodes entries pack_words
  write_inodes-Emits zero i a p e = Emits-nil fs a
  write_inodes-Emits (suc n) i a p e =
      let rest = write_inodes-Emits n (i + 1) (a + 2) (omega arith) (omega arith) in
      let fits : length (pack_words (entries fs.inode n (i + 1))) ≡ 2 * n = omega (
        arith,
        length-pack_words (entries fs.inode n (i + 1)),
        length-entries fs.inode n (i + 1),
      ) in
      let both =
        Emits->> (omega (arith, fits))
          (write16-Emits fs w a (get_or fs.inode i 0) (omega arith) (omega arith)) rest in
      record { runs = λ f d. both.runs f d }

  -- the writes of `lsxfs_sync` behind those of the tables
  last_writes : Cmd Fs (Unit {0})
  last_writes =
      write8 fs.flock
      >> (write8 fs.ilock
          >> (write8 fs.fmod >> (write8 fs.ronly >> (write32 fs.time >> modify clean))))

  flags-Ends : (a : ℕ) → a % 128 ≡ 24 → a + 8 ≤ 256256 → Ends fs last_writes a (flags fs)
  unfolding last_writes
  flags-Ends a p e =
      Ends->> (omega arith) (write8-Emits fs w a fs.flock (omega arith) (omega arith)) (
        Ends->> (omega arith) (write8-Emits fs w (a + 1) fs.ilock (omega arith) (omega arith)) (
          Ends->> (omega arith) (write8-Emits fs w (a + 1 + 1) fs.fmod (omega arith) (omega arith))
            (Ends->> (omega arith)
              (write8-Emits fs w (a + 1 + 1 + 1) fs.ronly (omega arith) (omega arith))
              (Ends->> (omega arith)
                (write32-Emits fs w (a + 1 + 1 + 1 + 1) fs.time (omega arith) (omega arith))
                (Ends-nil fs (a + 1 + 1 + 1 + 1 + 4))))))

  inode_writes : Cmd Fs (Unit {0})
  inode_writes = write16 fs.ninode >> (write_inodes 100 0 >> last_writes)

  inodes-Ends : (a : ℕ) → a % 128 ≡ 78 → a + 210 ≤ 256256 → Ends fs inode_writes a (inode_part fs)
  unfolding inode_writes
  inodes-Ends a p e =
      let len = length-packed fs.inode in
      let all = length-inode_part fs in
      Ends->> (omega (arith, all)) (write16-Emits fs w a fs.ninode (omega arith) (omega arith)) (
        Ends->> (omega (arith, len, all))
          (write_inodes-Emits 100 0 (a + 2) (omega arith) (omega arith))
          (flags-Ends (a + 2 + length (pack_words (entries fs.inode 100 0))) (omega (arith, len))
            (omega (arith, len))))

  super_writes : Cmd Fs (Unit {0})
  super_writes =
      write16 fs.isize
      >> (write16 fs.fsize >> (write16 fs.nfree >> (write_free 100 0 >> inode_writes)))

  super-Ends : Ends fs super_writes 512 (layout fs)
  unfolding super_writes
  super-Ends =
      let len = length-packed fs.free in
      let later = length-inode_part fs in
      let all = length-layout fs in
      Ends->> (omega (arith, all)) (write16-Emits fs w 512 fs.isize (omega arith) (omega arith)) (
        Ends->> (omega (arith, all)) (write16-Emits fs w 514 fs.fsize (omega arith) (omega arith)) (
          Ends->> (omega (arith, all)) (write16-Emits fs w 516 fs.nfree (omega arith) (omega arith))
            (Ends->> (omega (arith, len, later))
              (write_free-Emits 100 0 518 (omega arith) (omega arith))
              (inodes-Ends (518 + length (pack_words (entries fs.free 100 0))) (omega (arith, len))
                (omega (arith, len))))))

  -- `lsxfs_sync` writes the bytes of the super block to block 1.
  pub write_super_lem :
      IsDisk fs.image
      → (g : Image) × (write_super fs ≡ ok tt (clean (at fs g 928)))
        × Wrote fs.image g 512 (layout fs)
  unfolding write_super last_writes inode_writes super_writes
  write_super_lem d =
      let (g, runs, wrote) = super-Ends.runs fs.image d in
      (
        g,
        rw (seek_lem fs 512 (omega arith))
            (runs ∙ ap (λ p. ok tt (clean (at fs g p))) (omega (arith, length-layout fs))),
        wrote,
      )
