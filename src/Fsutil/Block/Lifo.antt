-- ===== src/Fsutil/Block/Lifo.antt =====
-- The free list of fsutil/block.c as a stack: what is freed last is allocated first.
use bkunix.Prelude.{
  ℕ, suc, ◌+◌, ◌-◌, ◌*◌, ◌%◌, ◌≤◌, ◌<◌, ◌≡◌, ◌≢◌, refl, sym, ap, ◌∙◌, true, List, ◌∷◌, arith,
}
use bkunix.Prelude.Tests.{◌==◌, if◌then◌else◌, ne→==, lt→ltb, lt→leb, le→leb, eq→==}
use bkunix.Prelude.Lists.{length, get_or, set, get_or-set_self, get_or-set_ne, length-append}
use bkunix.Prelude.Run.{ok, Cmd, pure, ◌>>◌}
use native.Mathlib.Decide.{dec_lt}
use bkunix.Fsutil.State.{Image, Fs}
use bkunix.Fsutil.Disk.{bytes_from, write_block}
use bkunix.Fsutil.Disk.View.{IsDisk, view, at}
use bkunix.Fsutil.Disk.Wrote.{Wrote}
use bkunix.Fsutil.Disk.Blocks.{IsFree, after, read_block_lem, write_block_lem, bytes_from-Wrote}
use bkunix.Fsutil.Block.{
  word_at, pack_words, unpack_words, spill, push, spill_and_push, block_free, pop, refill,
  alloc_loop, block_alloc,
}
use bkunix.Fsutil.Block.Words.{
  AreWords, AreWords-cons, length-pack_words, word_at-pack_words, unpack-pack,
}

-- A file system open for writing on a whole diskette, whose list holds between 1 and 100 numbers.
pub record IsSound (fs : Fs) : Type 0 where
  pub disk : IsDisk fs.image
  pub writable : fs.writable ≡ true
  pub slots : length fs.free ≡ 100
  pub words : AreWords fs.free
  pub rest : length fs.stack ≡ 310
  pub some_left : 0 < fs.nfree
  pub at_most : fs.nfree ≤ 100

-- the state after the top number has been taken
abbrev pub popped : Fs → Fs
popped fs = record fs { nfree = fs.nfree - 1; free = set fs.free (fs.nfree - 1) 0; dirty = true }

abbrev pub top : Fs → ℕ
top fs = get_or fs.free (fs.nfree - 1) 0

-- What a round of `lsxfs_block_alloc` does at a number that is not 0.
abbrev pub taken : Fs → Cmd Fs ℕ
taken fs = (if fs.nfree - 1 == 0 then refill (top fs) else pure tt) >> pure (top fs)

round :
    (fs : Fs) (n : ℕ)
    → 0 < fs.nfree
    → fs.nfree ≤ 100
    → top fs ≢ 0
    → alloc_loop (suc n) fs ≡ taken fs (popped fs)
unfolding alloc_loop pop
round fs n p q r =
    rw (ne→== fs.nfree 0 (omega arith), lt→ltb (fs.nfree - 1) 100 (omega arith), ne→== (top fs) 0 r)

pub alloc_round :
    (fs : Fs) → 0 < fs.nfree → fs.nfree ≤ 100 → top fs ≢ 0 → block_alloc fs ≡ taken fs (popped fs)
unfolding block_alloc
alloc_round fs p q r =
    let e : fs.nfree ≡ suc (fs.nfree - 1) = omega arith in
    ap (λ n. alloc_loop n fs) e ∙ round fs (fs.nfree - 1) p q r

module _ (fs : Fs) (b : ℕ) (room : fs.nfree < 100) (slots : length fs.free ≡ 100) where
  nfree-push : (push b fs).nfree ≡ fs.nfree + 1
  unfolding push
  nfree-push = omega arith

  -- The number freed is the top of the list.
  top-push : b < 500 → top (push b fs) ≡ b
  unfolding push
  top-push h =
      ap (λ i. get_or (set fs.free fs.nfree (b % 65536)) i 0) (omega arith)
      ∙ get_or-set_self fs.free fs.nfree (b % 65536) 0 (omega arith)
      ∙ omega arith

  -- Below it nothing changes.
  below-push : (k : ℕ) → k < fs.nfree → get_or (popped (push b fs)).free k 0 ≡ get_or fs.free k 0
  below-push k h =
      get_or-set_ne (push b fs).free ((push b fs).nfree - 1) k 0 0 (omega (arith, nfree-push))
      ∙ rest k h
    where
      rest : (k : ℕ) → k < fs.nfree → get_or (push b fs).free k 0 ≡ get_or fs.free k 0
      rest k h = unfold push in get_or-set_ne fs.free fs.nfree k (b % 65536) 0 (omega arith)

-- the list and its count are as they were
abbrev pub SameList : Fs → Fs → Type 0
SameList fs fs' =
    (fs'.nfree ≡ fs.nfree) × ((k : ℕ) → k < fs.nfree → get_or fs'.free k 0 ≡ get_or fs.free k 0)

-- A list with room: the number freed comes back, and the list is as before.
alloc-push :
    (fs : Fs) (b : ℕ)
    → IsSound fs
    → IsFree fs b
    → fs.nfree < 100
    → (fs' : Fs) × ((block_free b >> block_alloc) fs ≡ ok b fs') × SameList fs fs'
unfolding block_free
alloc-push fs b s h lt =
    let n = nfree-push fs b lt s.slots in
    let t = top-push fs b lt s.slots h.below in
    let more : (push b fs).nfree - 1 ≢ 0 = omega (arith, n) in
    (
      popped (push b fs),
      rw (
        lt→leb 100 fs.nfree lt,
        alloc_round (push b fs) (omega (arith, n)) (omega (arith, n)) (omega (arith, t)),
        ne→== ((push b fs).nfree - 1) 0 more,
        t,
      ),
      (omega (arith, n), below-push fs b lt s.slots),
    )

-- the bytes of a block as the image holds them
abbrev pub contents : Fs → ℕ → List ℕ
contents fs b = bytes_from (view fs.image) (b * 512) 512

-- the state after the list has been taken over from the bytes of block `b`
abbrev pub refilled : Fs → ℕ → List ℕ → Fs
refilled fs b xs = record (at fs fs.image (b * 512 + 512)) {
  nfree = word_at xs 0;
  free = unpack_words 100 xs 2;
}

-- The last number of the list is given out, and its block is taken for the rest of the list.
pub alloc_last :
    (fs : Fs) (b : ℕ)
    → IsDisk fs.image
    → IsFree fs b
    → fs.nfree ≡ 1
    → top fs ≡ b
    → block_alloc fs ≡ ok b (refilled (popped fs) b (contents fs b))
unfolding refill
alloc_last fs b d h e t =
    let zero_left : fs.nfree - 1 ≡ 0 = omega arith in
    alloc_round fs (omega arith) (omega arith) (omega arith)
    ∙ rw (eq→== (fs.nfree - 1) 0 zero_left, t, read_block_lem (popped fs) b d h.above h.below)

-- the state after a full list has gone to block `b`
abbrev emptied : Fs → Image → ℕ → Fs
emptied fs g b = record (after fs g b) { nfree = 0 }

length-spill : (fs : Fs) → IsSound fs → length (spill fs) ≡ 512
unfolding spill
length-spill fs s = omega (
  arith,
  length-append (pack_words (fs.nfree ∷ fs.free)) fs.stack,
  length-pack_words (fs.nfree ∷ fs.free),
)

-- `lsxfs_block_free` around its write
free-spills :
    (fs : Fs) (b : ℕ) (g : Image)
    → b < 500
    → fs.nfree ≡ 100
    → write_block b (spill fs) fs ≡ ok tt (after fs g b)
    → block_free b fs ≡ ok tt (push b (emptied fs g b))
unfolding block_free spill_and_push
free-spills fs b g h e runs =
    let small : b % 65536 ≡ b = omega arith in rw (le→leb 100 fs.nfree (omega arith), small, runs)

-- What comes back from the block to which a full list went is that list.
restored :
    (fs : Fs) (b : ℕ) (g : Image)
    → IsSound fs
    → fs.nfree ≡ 100
    → Wrote fs.image g (b * 512) (spill fs)
    → SameList fs (refilled fs b (bytes_from (view g) (b * 512) 512))
unfolding spill
restored fs b g s e w =
    let back : bytes_from (view g) (b * 512) 512 ≡ spill fs =
      ap (bytes_from (view g) (b * 512)) (sym (length-spill fs s))
      ∙ bytes_from-Wrote (b * 512) (spill fs) w in
    let words = AreWords-cons fs.nfree fs.free (omega arith) s.words in
    (
      ap (λ xs. word_at xs 0) back
          ∙ word_at-pack_words (fs.nfree ∷ fs.free) fs.stack 0 words (omega arith),
      λ k lt.
          ap (λ xs. get_or (unpack_words 100 xs 2) k 0) back
          ∙ ap (λ n. get_or (unpack_words n (spill fs) 2) k 0) (sym s.slots)
          ∙ ap (λ ws. get_or ws k 0) (unpack-pack fs.nfree fs.free fs.stack (omega arith) s.words),
    )

-- A full list: it goes to the block freed, and comes back with it.
alloc-spill :
    (fs : Fs) (b : ℕ)
    → IsSound fs
    → IsFree fs b
    → fs.nfree ≡ 100
    → (fs' : Fs) × ((block_free b >> block_alloc) fs ≡ ok b fs') × SameList fs fs'
unfolding push
alloc-spill fs b s h e =
    let (g, runs, wrote) =
      write_block_lem fs b (spill fs) s.disk s.writable h.above h.below (length-spill fs s) in
    let p = push b (emptied fs g b) in
    (
      refilled (popped p) b (contents p b),
      rw (
        free-spills fs b g h.below e runs,
        alloc_last p b (omega (arith, wrote.disk)) (omega arith) (omega arith)
            (top-push (emptied fs g b) b (omega arith) s.slots h.below),
      ),
      restored fs b g s e wrote,
    )

-- On a sound list, with a block behind the inode list of a volume of at most 500 blocks: the block
-- that `lsxfs_block_free` takes is the one that the next `lsxfs_block_alloc` gives, and the count
-- and the numbers of the list are then as they were before. This holds too where the list is full
-- and goes to that block in between.
pub alloc-free :
    (fs : Fs) (b : ℕ)
    → IsSound fs
    → IsFree fs b
    → (fs' : Fs) × ((block_free b >> block_alloc) fs ≡ ok b fs') × SameList fs fs'
alloc-free fs b s h = elim (dec_lt fs.nfree 100) [
  | yes lt ↦ alloc-push fs b s h lt
  | no ge ↦ alloc-spill fs b s h (omega arith)
]

-- Once the list has run out (its count is 0), a freed block is given out again as the last of the
-- list: the count and the numbers are then taken from whatever bytes the block holds.
pub alloc-free_exhausted :
    (fs : Fs) (b : ℕ)
    → IsDisk fs.image
    → length fs.free ≡ 100
    → IsFree fs b
    → fs.nfree ≡ 0
    → (fs' : Fs) × ((block_free b >> block_alloc) fs ≡ ok b fs')
      × (fs'.nfree ≡ word_at (contents fs b) 0)
      × (fs'.free ≡ unpack_words 100 (contents fs b) 2)
unfolding block_free push
alloc-free_exhausted fs b d l h e = (
  refilled (popped (push b fs)) b (contents fs b),
  rw (
    lt→leb 100 fs.nfree (omega arith),
    alloc_last (push b fs) b d (omega arith) (omega arith) (top-push fs b (omega arith) l h.below),
  ),
  refl,
  refl,
)
