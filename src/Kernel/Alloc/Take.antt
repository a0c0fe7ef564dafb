-- ===== src/Kernel/Alloc/Take.antt =====
-- `alloc` in terms of the list of free blocks.
use bkunix.Prelude.{
  ℕ, ◌+◌, ◌-◌, ◌%◌, ◌≤◌, ◌<◌, ◌≡◌, ◌≢◌, refl, sym, ap, ap₂, ◌∙◌, inl, inr, true, false, some, List,
  ◌∷◌, arith,
}
use bkunix.Prelude.Tests.{◌==◌, ltb, Bool-cases, ne→==, eq→==, le→leb}
use bkunix.Prelude.Lists.{get_or, take, drop, replicate}
use bkunix.Prelude.Run.{ok, and_then}
use bkunix.Kernel.State.{Filsys, Kernel, nodev}
use bkunix.Kernel.Bio.{clrbuf}
use bkunix.Kernel.Bio.Cache.{put_self}
use bkunix.Kernel.Bio.View.{Blocks, updated, Represents, Using, Represents-beside, Using-beside}
use bkunix.Kernel.Bio.Obtain.{bread-Obtains, getblk-Obtains}
use bkunix.Kernel.Bio.Release.{released, edited, edited-Using, brelse-Represents}
use bkunix.Kernel.Alloc.{
  s_lt, or_panic, getfs, find_fs, fs_at, put_fs, set_fs, load_fs, refill, outside, take_block,
  alloc,
}
use bkunix.Kernel.Alloc.Chain.{
  next_count, next_table, Chain-agree, All-map, fs_at-put_fs, put_fs-put_fs, find_fs-put_fs, InData,
  FreeList,
}

pub s_lt-small : (x y : ℕ) → x < 32768 → y < 32768 → s_lt x y ≡ ltb x y
s_lt-small x y h h' = ground arith

pub outside-false : (fs : Filsys) (b : ℕ) → fs.fsize ≤ 500 → InData fs b → outside fs b ≡ false
outside-false fs b h (le, lt) =
    rw
      (
        s_lt-small b ((fs.isize + 2) % 65536) (omega arith) (omega arith),
        s_lt-small b fs.fsize (omega arith) (omega arith),
      )
      (ground arith)

pub getfs_lem : (k : Kernel) (d m : ℕ) → find_fs d k.mount 0 ≡ some m → getfs d k ≡ ok m k
unfolding getfs
getfs_lem k d m h = ap (λ t. or_panic t k) h

pub load_fs_lem :
    (k : Kernel) (m : ℕ) (fs : Filsys) → fs_at k.mount m ≡ some fs → load_fs m k ≡ ok fs k
load_fs_lem k m fs h = ap (λ t. or_panic t k) h

module _ (k : Kernel) (a : Blocks) (d m : ℕ) (fs : Filsys) (on_disk : d ≢ nodev)
    (at : fs_at k.mount m ≡ some fs) (r : Represents k a) where
  pub refill_lem :
      (b : ℕ)
      → b < 500
      → (k' : Kernel) × (refill d m b k ≡ ok tt k')
        × Represents k' a
        × (k'.mount
            ≡ put_fs k.mount m
                (record fs { nfree = get_or (a d b) 0 0; free = take 100 (drop 1 (a d b)) }))
        × (k'.inode ≡ k.inode)
  unfolding refill
  refill_lem b small =
      let (j, k1, call, same, u, v, words) = bread-Obtains k a r d b on_disk small in
      let mount_same : k1.mount ≡ k.mount = ap (λ k. k.mount) same in
      let fs' = record fs {
        nfree = get_or (k1.buf j).data_words 0 0;
        free = take 100 (drop 1 (k1.buf j).data_words);
      } in
      let k2 = set_fs m fs' k1 in
      let (back, r') = brelse-Represents k2 j d b a (Using-beside k1 k2 u) (record {
        settled = v.settled;
        own = record { cached = v.own.cached; stored = v.own.stored };
      }) in
      (
        released j k2,
        rw (call, load_fs_lem k1 m fs (rw mount_same at)) back,
        r',
        ap₂ (λ t ws. put_fs t m (record fs { nfree = get_or ws 0 0; free = take 100 (drop 1 ws) }))
            mount_same words,
        ap (λ k. k.inode) same,
      )

  pub take_block_lem :
      (b : ℕ)
      → fs.fsize ≤ 500
      → InData fs b
      → (j : ℕ) × (k' : Kernel) × (take_block d m b k ≡ ok (some j) k')
        × Using k' j d b a
        × ((k'.buf j).data_words ≡ replicate 256 0)
        × (k'.mount ≡ put_fs k.mount m (record fs { fmod = 1 }))
        × (k'.inode ≡ k.inode)
  unfolding take_block clrbuf
  take_block_lem b small within =
      let (j, k1, call, same, u, v) = getblk-Obtains k a r d b on_disk (omega arith) in
      let k2 = set_fs m (record fs { fmod = 1 }) (edited j (replicate 256 0) k1) in
      (
        j,
        k2,
        rw (load_fs_lem k m fs at, outside-false fs b small within, call) refl,
        Using-beside (edited j (replicate 256 0) k1) k2
            (edited-Using k1 j d b a u (replicate 256 0)),
        rw (put_self k1.buf j (record (k1.buf j) { data_words = replicate 256 0 })) refl,
        ap (λ k. put_fs k.mount m (record fs { fmod = 1 })) same,
        ap (λ k. k.inode) same,
      )

-- the state in which `alloc` has taken an entry from the table
abbrev pub popped : Filsys → Filsys
popped fs = record fs { nfree = fs.nfree - 1 }

-- the super block from which the next block is taken
abbrev next_fs : (ℕ → List ℕ) → ℕ → Filsys → Filsys
next_fs a b fs = record fs {
  nfree = next_count a fs.nfree b;
  free = next_table a fs.nfree b fs.free;
  fmod = 1;
}

module _ (k : Kernel) (a : Blocks) (d m : ℕ) (fs : Filsys) (b : ℕ) (bs : List ℕ)
    (on_disk : d ≢ nodev) (r : Represents k a) (l : FreeList k a d m fs (b ∷ bs)) where
  -- A block that is taken from the list: the buffer in use for it, cleared, and the super block.
  abbrev pub Takes : Type 0
  Takes =
      (j : ℕ) × (k' : Kernel) × (alloc d k ≡ ok (some j) k')
      × Using k' j d b a
      × ((k'.buf j).data_words ≡ replicate 256 0)
      × (k'.mount ≡ put_fs k.mount m (next_fs (a d) b fs))
      × (k'.inode ≡ k.inode)

  -- `alloc` up to the call of `refill`, and up to that of `take_block`
  abbrev one_popped : Kernel
  one_popped = set_fs m (popped fs) k

  positive : s_lt 0 fs.nfree ≡ true
  positive =
      let (room, some_left, few, top, set_, rest) = l.chain in
      rw (s_lt-small 0 fs.nfree (omega arith) (omega arith)) (ground arith)

  alloc-more : (fs.nfree == 1) ≡ false → alloc d k ≡ take_block d m b one_popped
  unfolding alloc
  alloc-more e =
      let (room, some_left, few, top, set_, rest) = l.chain in
      rw
        (
          getfs_lem k d m l.mounted.found,
          load_fs_lem k m fs l.mounted.at,
          positive,
          le→leb fs.nfree 100 few,
          top,
          ne→== b 0 set_,
          e,
        )
        refl

  alloc-link :
      (k2 : Kernel)
      → (fs.nfree == 1) ≡ true
      → refill d m b one_popped ≡ ok tt k2
      → alloc d k ≡ take_block d m b k2
  unfolding alloc
  alloc-link k2 e reads =
      let (room, some_left, few, top, set_, rest) = l.chain in
      rw
        (
          getfs_lem k d m l.mounted.found,
          load_fs_lem k m fs l.mounted.at,
          positive,
          le→leb fs.nfree 100 few,
          top,
          ne→== b 0 set_,
          e,
        )
        (ap (λ t. and_then t (λ _. take_block d m b)) reads)

  alloc-call : Takes
  alloc-call =
      let (within, others) = l.inside in
      let at = l.mounted.at in
      let k1 = one_popped in
      let r1 = Represents-beside k k1 r in
      let at1 = fs_at-put_fs k.mount m fs (popped fs) at in
      elim (Bool-cases (fs.nfree == 1)) [
        | inr e ↦
            let (j, k2, call, u, cleared, mounts, inodes) =
              take_block_lem k1 a d m (popped fs) on_disk at1 r1 b l.mounted.small within in
            (
              j,
              k2,
              alloc-more e ∙ call,
              u,
              cleared,
              mounts ∙ put_fs-put_fs k.mount m (popped fs) _ ∙ rw e refl,
              inodes,
            )
        | inl e ↦
            let (k2, reads, r2, mounts2, inodes2) =
              refill_lem k1 a d m (popped fs) on_disk at1 r1 b (omega arith) in
            let fs2 = record (popped fs) {
              nfree = get_or (a d b) 0 0;
              free = take 100 (drop 1 (a d b));
            } in
            let at2 : fs_at k2.mount m ≡ some fs2 =
              rw mounts2 (fs_at-put_fs k1.mount m (popped fs) fs2 at1) in
            let (j, k3, call, u, cleared, mounts, inodes) =
              take_block_lem k2 a d m fs2 on_disk at2 r2 b l.mounted.small within in
            (
              j,
              k3,
              alloc-link k2 e reads ∙ call,
              u,
              cleared,
              mounts
                  ∙ ap (λ t. put_fs t m (record fs2 { fmod = 1 })) mounts2
                  ∙ put_fs-put_fs k1.mount m fs2 _
                  ∙ put_fs-put_fs k.mount m (popped fs) _
                  ∙ rw e refl,
              inodes ∙ inodes2,
            )
      ]

  -- In a state that represents the blocks `a`, with the super block of a device mounted whose list of
  -- free blocks starts with `b`, `alloc` ends and gives out `b`: its buffer is in use and cleared,
  -- the other blocks of the list stay, in their order, and no inode in core changes.
  pub alloc-Takes :
      (j : ℕ) × (k' : Kernel) × (fs' : Filsys) × (alloc d k ≡ ok (some j) k')
      × Using k' j d b a
      × ((k'.buf j).data_words ≡ replicate 256 0)
      × FreeList k' (updated a d b (replicate 256 0)) d m fs' bs
      × (k'.inode ≡ k.inode)
  alloc-Takes =
      let (j, k', call, u, cleared, mounts, inodes) = alloc-call in
      let (room, some_left, few, top, set_, rest) = l.chain in
      let (within, others) = l.inside in
      let (apart, distinct) = l.distinct in
      let fs' = next_fs (a d) b fs in
      (
        j,
        k',
        fs',
        call,
        u,
        cleared,
        record {
          mounted = record {
            found = rw mounts (find_fs-put_fs d k.mount m 0 fs fs' l.mounted.at ∙ l.mounted.found);
            at = rw mounts (fs_at-put_fs k.mount m fs fs' l.mounted.at);
            small = l.mounted.small;
            inodes = l.mounted.inodes;
          };
          chain =
              Chain-agree (a d) (updated a d b (replicate 256 0) d) (next_count (a d) fs.nfree b)
                (next_table (a d) fs.nfree b fs.free) bs
                (All-map (λ y. b ≢ y) (λ y. a d y ≡ updated a d b (replicate 256 0) d y) bs
                  (λ y ne. rw (eq→== d d refl, ne→== y b (λ t. ne (sym t))) refl) apart)
                rest;
          inside = others;
          distinct = distinct;
        },
        inodes,
      )
