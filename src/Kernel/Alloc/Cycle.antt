-- ===== src/Kernel/Alloc/Cycle.antt =====
-- `free` puts a block in front of the list of free blocks, and `alloc` takes it from there.
use bkunix.Prelude.{
  ℕ, ◌<◌, ◌≡◌, ◌≢◌, refl, sym, ap, ◌∙◌, inl, inr, true, false, some, List, ◌∷◌, arith,
}
use bkunix.Prelude.Tests.{Bool-cases, ne→==, eq→==}
use bkunix.Prelude.Lists.{replicate, get_or, take, drop}
use bkunix.Prelude.Run.{ok}
use bkunix.Kernel.State.{Filsys, Kernel, nodev}
use bkunix.Kernel.Bio.View.{Blocks, updated, Represents, Using, Represents-beside}
use bkunix.Kernel.Alloc.{s_lt, put_fs, set_fs, started_list, pushed, free, alloc}
use bkunix.Kernel.Alloc.Chain.{
  All, Chain, Chain-agree, All-map, fs_at-put_fs, put_fs-put_fs, InData, FreeList,
}
use bkunix.Kernel.Alloc.Take.{alloc-Takes, s_lt-small}
use bkunix.Kernel.Alloc.Give.{SameBut, spill_lem}
use bkunix.Kernel.Alloc.Returned.{
  begun, free-few, free-full, put_fs-IsMounted, Chain-pushed, Chain-spilled, Chain-started,
}

-- a block put in front of the list
abbrev pub Gives : Kernel → Blocks → ℕ → ℕ → ℕ → List ℕ → Type 0
Gives k a d m b bs =
    (k' : Kernel) × (a' : Blocks) × (fs' : Filsys) × (free d b k ≡ ok tt k')
    × Represents k' a'
    × FreeList k' a' d m fs' (b ∷ bs)
    × SameBut d b a a'

module _ (k : Kernel) (a : Blocks) (d m : ℕ) (fs : Filsys) (b : ℕ) (bs : List ℕ)
    (on_disk : d ≢ nodev) (r : Represents k a) (l : FreeList k a d m fs bs) (within : InData fs b)
    (apart : All (λ y. b ≢ y) bs) where
  free-Gives_few : s_lt (started_list fs).nfree 100 ≡ true → Gives k a d m b bs
  free-Gives_few e =
      let fs1 = started_list fs in
      let (chain, room, some_left, few) = Chain-started (a d) fs bs l.chain in
      let fs2 = pushed b fs1 in
      let k' = set_fs m fs2 (begun k d m fs b l.mounted within) in
      let below : fs1.nfree < 100 =
        ground (arith, rw (s_lt-small fs1.nfree 100 (omega arith) (omega arith)) at e) in
      (
        k',
        a,
        fs2,
        free-few k d m fs b l.mounted within e,
        Represents-beside k k' r,
        record {
          mounted =
              put_fs-IsMounted k d m fs b l.mounted within k' fs2 (put_fs-put_fs k.mount m fs1 fs2)
                refl refl;
          chain =
              Chain-pushed (a d) fs1.nfree b fs1.free bs some_left below (λ t. omega arith) chain
                room;
          inside = (within, l.inside);
          distinct = (apart, l.distinct);
        },
        inl refl,
      )

  free-Gives_full : s_lt (started_list fs).nfree 100 ≡ false → Gives k a d m b bs
  free-Gives_full e =
      let fs1 = started_list fs in
      let (chain, room, some_left, few) = Chain-started (a d) fs bs l.chain in
      let k1 = begun k d m fs b l.mounted within in
      let at1 = fs_at-put_fs k.mount m fs fs1 l.mounted.at in
      let small : b < 500 = omega (arith, within.1, l.mounted.small) in
      let (k2, w, call, r2, mounts, count, table) =
        spill_lem k1 a d m fs1 on_disk at1 (Represents-beside k k1 r) b small room in
      let fs2 = record fs1 { nfree = 0 } in
      let fs3 = pushed b fs2 in
      let k' = set_fs m fs3 k2 in
      let a' = updated a d b w in
      let here : a' d b ≡ w = rw (eq→== d d refl, eq→== b b refl) refl in
      let kept : Chain (a' d) fs1.nfree fs1.free bs =
        Chain-agree (a d) (a' d) fs1.nfree fs1.free bs
          (All-map (λ y. b ≢ y) (λ y. a d y ≡ a' d y) bs
            (λ y ne. rw (eq→== d d refl, ne→== y b (λ t. ne (sym t))) refl) apart)
          chain in
      (
        k',
        a',
        fs3,
        free-full k d m fs b l.mounted within k2 fs2 e call
            (rw mounts (fs_at-put_fs k1.mount m fs1 fs2 at1)),
        Represents-beside k2 k' r2,
        record {
          mounted =
              put_fs-IsMounted k d m fs b l.mounted within k' fs3
                (ap (λ t. put_fs t m fs3) mounts
                  ∙ put_fs-put_fs k1.mount m fs2 fs3
                  ∙ put_fs-put_fs k.mount m fs1 fs3)
                refl refl;
          chain =
              Chain-spilled (a' d) fs1.nfree b fs1.free fs1.free bs (λ t. omega arith) room
                (ap (λ t. get_or t 0 0) here ∙ count) (ap (λ t. take 100 (drop 1 t)) here ∙ table)
                kept;
          inside = (within, l.inside);
          distinct = (apart, l.distinct);
        },
        inr (w, refl),
      )

  -- In a state that represents the blocks `a`, with the super block of a device mounted, `free` of a
  -- data block that is not on the list of free blocks ends and puts it in front of the list, and no
  -- block but that one changes.
  pub free-Gives : Gives k a d m b bs
  free-Gives = elim (Bool-cases (s_lt (started_list fs).nfree 100)) [
    | inl e ↦ free-Gives_few e
    | inr e ↦ free-Gives_full e
  ]

  -- Under the same conditions `alloc` behind `free` gives out the block that was freed, cleared, and
  -- the list of free blocks is then as it was; no block but that one changes.
  pub alloc-free_lem :
      (k1 : Kernel) × (j : ℕ) × (k2 : Kernel) × (a2 : Blocks) × (fs2 : Filsys) × (free d b k
        ≡ ok tt k1)
      × (alloc d k1 ≡ ok (some j) k2)
      × Using k2 j d b a2
      × ((k2.buf j).data_words ≡ replicate 256 0)
      × FreeList k2 (updated a2 d b (replicate 256 0)) d m fs2 bs
      × SameBut d b a a2
  alloc-free_lem =
      let (k1, a1, fs1, call, r1, l1, same) = free-Gives in
      let (j, k2, fs2, call2, u, cleared, l2, inodes) =
        alloc-Takes k1 a1 d m fs1 b bs on_disk r1 l1 in
      (k1, j, k2, a1, fs2, call, call2, u, cleared, l2, same)
