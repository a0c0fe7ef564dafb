-- ===== src/Fsutil/Inode/Save.antt =====
-- The round trip of inodes through the disk, and what it leaves alone.
use bkunix.Prelude.{
  ℕ, ◌+◌, ◌*◌, ◌/◌, ◌%◌, ◌≤◌, ◌<◌, ◌≡◌, ◌≢◌, sym, ap, ◌∙◌, ◌⊎◌, true, false, some, List, [], ◌∷◌,
  ◌++◌, arith,
}
use bkunix.Prelude.Tests.{◌==◌, if◌then◌else◌, ne→==, eq→==}
use bkunix.Prelude.Lists.{length, length-append}
use bkunix.Prelude.Run.{ok, Cmd, ◌>>◌, guard-true}
use native.Mathlib.Decide.{ℕ_discrete}
use bkunix.Fsutil.State.{Image, Fs, Inode}
use bkunix.Fsutil.Disk.{bytes_from, write8, write16, write32}
use bkunix.Fsutil.Disk.View.{IsDisk, view, at, seek_lem, bytes_from-eq}
use bkunix.Fsutil.Disk.Wrote.{Wrote}
use bkunix.Fsutil.Disk.Blocks.{result, get_or-bytes_from, length-bytes_from, bytes_from-Wrote}
use bkunix.Fsutil.Disk.Words.{
  long_bytes, Emits, Emits-nil, Emits->>, write8-Emits, write16-Emits, write32-Emits,
}
use bkunix.Fsutil.Block.{pack_words}
use bkunix.Fsutil.Block.Words.{length-pack_words}
use bkunix.Fsutil.Inode.{is_inode, write_words, inode_get, write_inode, inode_save}
use bkunix.Fsutil.Inode.Codec.{decode, place, IsListed, inode_get-Holds}
use bkunix.Fsutil.Inode.Layout.{IsStorable, encode, decode-encode}

write_words-Emits :
    (fs : Fs) (w : fs.writable ≡ true) (a : ℕ) (ws : List ℕ)
    → a % 2 ≡ 0
    → a + 2 * length ws ≤ 256256
    → Emits fs (write_words ws) a (pack_words ws)
unfolding write_words pack_words
write_words-Emits fs w a [] p e = Emits-nil fs a
write_words-Emits fs w a (v ∷ ws) p e =
    Emits->> (omega (arith, length-pack_words ws))
      (write16-Emits fs w a v (omega arith) (omega arith))
      (write_words-Emits fs w (a + 2) ws (omega arith) (omega arith))

-- the writes of `lsxfs_inode_save` behind the seek
abbrev fields : Inode → Cmd Fs (Unit {0})
fields i = do
  write16 i.mode
  write8 i.nlink
  write8 i.uid
  write8 i.gid
  write8 (i.size / 65536)
  write16 i.size
  write_words i.addr
  write32 i.atime
  write32 i.mtime

length-tail :
    (i : Inode)
    → length i.addr ≡ 8
    → length (pack_words i.addr ++ (long_bytes i.atime ++ long_bytes i.mtime)) ≡ 24
length-tail i l = omega (
  arith,
  length-append (pack_words i.addr) (long_bytes i.atime ++ long_bytes i.mtime),
  length-pack_words i.addr,
)

tail-Emits :
    (fs : Fs) (w : fs.writable ≡ true) (a : ℕ) (i : Inode)
    → a % 32 ≡ 8
    → a + 24 ≤ 256256
    → length i.addr ≡ 8
    → Emits fs
        (write_words i.addr >> (write32 i.atime >> write32 i.mtime))
        a
        (pack_words i.addr ++ (long_bytes i.atime ++ long_bytes i.mtime))
tail-Emits fs w a i p e l =
    let lp = length-pack_words i.addr in
    Emits->> (omega (arith, lp)) (write_words-Emits fs w a i.addr (omega arith) (omega arith)) (
      Emits->> (omega (arith, lp))
        (write32-Emits fs w (a + length (pack_words i.addr)) i.atime (omega (arith, lp))
          (omega (arith, lp)))
        (write32-Emits fs w (a + length (pack_words i.addr) + 4) i.mtime (omega (arith, lp))
          (omega (arith, lp))))

fields-Emits :
    (fs : Fs) (w : fs.writable ≡ true) (a : ℕ) (i : Inode)
    → a % 32 ≡ 0
    → a + 32 ≤ 256256
    → length i.addr ≡ 8
    → Emits fs (fields i) a (encode i)
fields-Emits fs w a i p e l =
    let fits = length-tail i l in
    Emits->> (omega (arith, fits)) (write16-Emits fs w a i.mode (omega arith) (omega arith)) (
      Emits->> (omega (arith, fits)) (write8-Emits fs w (a + 2) i.nlink (omega arith) (omega arith))
        (Emits->> (omega (arith, fits))
          (write8-Emits fs w (a + 2 + 1) i.uid (omega arith) (omega arith))
          (Emits->> (omega (arith, fits))
            (write8-Emits fs w (a + 2 + 1 + 1) i.gid (omega arith) (omega arith))
            (Emits->> (omega (arith, fits))
              (write8-Emits fs w (a + 2 + 1 + 1 + 1) (i.size / 65536) (omega arith) (omega arith))
              (Emits->> (omega (arith, fits))
                (write16-Emits fs w (a + 2 + 1 + 1 + 1 + 1) i.size (omega arith) (omega arith))
                (tail-Emits fs w (a + 2 + 1 + 1 + 1 + 1 + 2) i (omega arith) (omega arith) l))))))

-- the file system after an inode has been written
abbrev pub saved : Fs → Image → ℕ → Fs
saved fs g n = at fs g (place n + 32)

write_inode-runs :
    (fs : Fs) (i : Inode) (g : Image)
    → IsListed fs i.number
    → length i.addr ≡ 8
    → fields i (at fs fs.image (place i.number))
      ≡ ok tt (at fs g (place i.number + length (encode i)))
    → write_inode i fs ≡ ok tt (saved fs g i.number)
unfolding write_inode
write_inode-runs fs i g v l runs =
    guard-true (is_inode i.number fs) _ fs (ground arith)
    ∙ rw (seek_lem fs (place i.number) (omega arith), runs)
        (ap (λ p. ok tt (at fs g (place i.number + p))) (omega (arith, length-tail i l)))

pub write_inode_lem :
    (fs : Fs) (i : Inode)
    → fs.writable ≡ true
    → IsDisk fs.image
    → IsListed fs i.number
    → length i.addr ≡ 8
    → (g : Image) × (write_inode i fs ≡ ok tt (saved fs g i.number))
      × Wrote fs.image g (place i.number) (encode i)
write_inode_lem fs i w d v l =
    let e = fields-Emits fs w (place i.number) i (omega arith) (omega arith) l in
    let (g, runs, wrote) = e.runs fs.image d in (g, write_inode-runs fs i g v l runs, wrote)

-- What `lsxfs_inode_get` gives, from the bytes of the view.
pub inode_get_lem :
    (fs : Fs) (n : ℕ)
    → IsDisk fs.image
    → IsListed fs n
    → result (inode_get n fs) ≡ some (decode n (bytes_from (view fs.image) (place n) 32))
inode_get_lem fs n d v =
    let len = length-bytes_from (view fs.image) (place n) 32 in
    ap result (
      inode_get-Holds fs n (bytes_from (view fs.image) (place n) 32) d v len
        λ k lt. sym (get_or-bytes_from (view fs.image) (place n) 32 k (omega (arith, len))))

-- `lsxfs_inode_save` around its writes
save-runs :
    (fs fs' : Fs) (i : Inode)
    → write_inode i fs ≡ ok tt fs'
    → inode_save (record { fs = fs; inode = i })
      ≡ ok tt (record { fs = fs'; inode = record i { dirty = false } })
unfolding inode_save
save-runs fs fs' i runs = rw runs

-- Two inodes lie apart.
apart : (m n k : ℕ) → m ≢ n → k < 32 → (place m + k < place n) ⊎ (place n + 32 ≤ place m + k)
apart m n k h l = grind arith

-- what is got after an inode has been saved
get-after :
    (fs : Fs) (i : Inode) (n : ℕ) (g : Image)
    → IsDisk fs.image
    → IsListed fs i.number
    → IsListed fs n
    → IsStorable i
    → Wrote fs.image g (place i.number) (encode i)
    → result (inode_get n (saved fs g i.number))
      ≡ (if n == i.number then some (record i { dirty = false }) else result (inode_get n fs))
get-after fs i n g d v vn s wrote =
    let len : length (encode i) ≡ 32 = omega (arith, length-tail i s.slots) in
    inode_get_lem (saved fs g i.number) n (omega (arith, wrote.disk)) (omega arith)
    ∙ elim (ℕ_discrete n i.number) [
      | yes e ↦
          rw (eq→== n i.number e, e)
            (ap (λ xs. some (decode i.number xs))
                (ap (bytes_from (view g) (place i.number)) (sym len)
                  ∙ bytes_from-Wrote (place i.number) (encode i) wrote)
              ∙ ap some (decode-encode i s))
      | no e ↦
          rw (ne→== n i.number e, inode_get_lem fs n d vn)
            (ap (λ xs. some (decode n xs))
              (bytes_from-eq (view g) (view fs.image) (place n) (place n) 32 λ k lt.
                wrote.outside (place n + k) (omega arith) (rw len (apart n i.number k e lt))))
    ]

-- On a writable file system over a whole diskette, saving an inode whose fields fit their widths
-- succeeds and clears its `dirty` mark. After it, getting any inode of the list gives the inode
-- that was saved, if the number is its own, and otherwise what getting it gave before.
pub inode_get-inode_save :
    (fs : Fs) (i : Inode) (n : ℕ)
    → fs.writable ≡ true
    → IsDisk fs.image
    → IsListed fs i.number
    → IsListed fs n
    → IsStorable i
    → (fs' : Fs) × (inode_save (record { fs = fs; inode = i })
        ≡ ok tt (record { fs = fs'; inode = record i { dirty = false } }))
      × (result (inode_get n fs')
          ≡ (if n == i.number then some (record i { dirty = false }) else result (inode_get n fs)))
unfolding inode_save
inode_get-inode_save fs i n w d v vn s =
    let (g, runs, wrote) = write_inode_lem fs i w d v s.slots in
    (
      saved fs g i.number,
      save-runs fs (saved fs g i.number) i runs,
      get-after fs i n g d v vn s wrote,
    )
