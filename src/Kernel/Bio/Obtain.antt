-- ===== src/Kernel/Bio/Obtain.antt =====
-- `getblk` and `bread` in terms of the abstract view.
use bkunix.Prelude.{ℕ, ◌<◌, ◌≡◌, ◌≢◌, refl, sym, ap, ap₂, ◌∙◌, inl, inr, true, false, none, arith}
use mathlib.Core.Path.{subst}
use bkunix.Prelude.Tests.{Bool-cases}
use bkunix.Prelude.Lists.{get_or}
use bkunix.Prelude.Run.{Cmd, ok, pure, ◌>>◌}
use bkunix.Kernel.State.{Buf, Kernel, nodev}
use bkunix.Kernel.Bio.{
  set_buf, has_block, Place, hit, reuse, full, search_bufs, take_place, getblk, bread, on_buf,
  fdstrategy, iowait,
}
use bkunix.Kernel.Bio.Search.{
  search_bufs-hit, search_bufs-absent, search_bufs-free, search_bufs-full,
}
use bkunix.Kernel.Bio.Cache.{put_self, put_ne}
use bkunix.Kernel.Bio.Replace.{split}
use bkunix.Kernel.Bio.Transfer.{written, flushed, loaded, iowait-set, fdstrategy-read}
use bkunix.Kernel.Bio.Keep.{written-Keeps, loaded-Keeps}
use bkunix.Kernel.Bio.View.{Blocks, Represents, Using, Unchanged, SameTables}
use bkunix.Kernel.Bio.Access.{
  claimed, claim_lem, given, at_rest-idle, reassign-clean, reassign-delayed, has_block-dev,
  claimed-Using, claimed-Unchanged, reused, reused-both,
}

-- the read of `bread`
abbrev fill_buf : ℕ → Cmd Kernel ℕ
fill_buf j = do on_buf j (λ b. record b { rd = true }); fdstrategy j; iowait j; pure j

read_lem :
    (k : Kernel) (j : ℕ)
    → (k.buf j).error ≡ false
    → (k.buf j).blkno < 500
    → k.medium.bad (k.buf j).dev (k.buf j).blkno ≡ false
    → fill_buf j k ≡ ok j (set_buf j (loaded k (k.buf j)) k)
read_lem k j e h good =
    rw (fdstrategy-read k j (k.buf j) h good, iowait-set k j (loaded k (k.buf j)) e) refl

loaded-Using :
    (k : Kernel) (j d n : ℕ) (a : Blocks)
    → Using k j d n a
    → (k.buf j).done ≡ false
    → Using (set_buf j (loaded k (k.buf j)) k) j d n a
loaded-Using k j d n a u e =
    let w = loaded-Keeps k u.cache j u.index (λ t. u.on_disk (sym u.on_dev ∙ t)) e in
    let b' = loaded k (k.buf j) in
    record {
      cache = w.cache;
      sound = u.sound;
      index = u.index;
      on_dev = rw (put_self k.buf j b') u.on_dev;
      at_block = rw (put_self k.buf j b') u.at_block;
      on_disk = u.on_disk;
      used = rw (put_self k.buf j b') u.used;
      rest = λ i h ne. rw (put_ne k.buf j i b' ne) (u.rest i h ne);
      others = λ d' n' p q apart. w.same d' n' (a d' n') p (u.others d' n' p q apart);
    }

-- a call of `getblk` or `bread` that succeeds
abbrev pub Obtains : Cmd Kernel ℕ → Kernel → ℕ → ℕ → Blocks → Type 0
Obtains m k d n a =
    (j : ℕ) × (k' : Kernel) × (m k ≡ ok j k')
    × SameTables k k'
    × Using k' j d n a
    × Unchanged k' j d n a

module _ (k : Kernel) (a : Blocks) (r : Represents k a) (d n : ℕ) (on_disk : d ≢ nodev)
    (small : n < 500) where
  getblk-hit : (p : ℕ) → search_bufs k.buf d n k.bufp 0 none ≡ hit p → Obtains (getblk d n) k d n a
  unfolding getblk take_place
  getblk-hit p h =
      let (q, lt, at, has) = search_bufs-hit k.buf d n k.bufp 0 none p h in
      let j = get_or k.bufp p 0 in
      let in_range : p < 6 = omega (arith, r.cache.slots) in
      let same : q ≡ p = omega arith in
      let (same_dev, same_blkno, u) =
        has_block-dev d n (k.buf j)
          (subst (λ t. has_block d n (k.buf (get_or k.bufp t 0)) ≡ true) same has) in
      let ne : (k.buf j).dev ≢ nodev = λ t. on_disk (sym same_dev ∙ t) in
      let known = r.cache.known p in_range in
      (
        j,
        claimed p k,
        ap (λ t. take_place d n t k) h ∙ claim_lem p k,
        refl,
        claimed-Using k a r.cache p in_range d n r.holds r.sound same_dev same_blkno on_disk
            (λ i' h' t. r.at_rest i' h'),
        claimed-Unchanged k a r.cache p in_range d n r.holds on_disk small (λ s t.
            r.cache.clean j known ne (at_rest-idle k a r d n j known ne) s t
            ∙ rw (same_dev, same_blkno) refl),
      )

  getblk-reuse :
      (p : ℕ) → search_bufs k.buf d n k.bufp 0 none ≡ reuse p → Obtains (getblk d n) k d n a
  unfolding getblk take_place
  getblk-reuse p h = elim (search_bufs-free k.buf d n k.bufp 0 none p h) [
    | inr e ↦ cc
    | inl (q, lt, at, free) ↦
        let same : q ≡ p = omega arith in
        let j = get_or k.bufp p 0 in
        let in_range : p < 6 = omega (arith, r.cache.slots) in
        let known = r.cache.known p in_range in
        let idle = subst (λ t. (k.buf (get_or k.bufp t 0)).busy ≡ false) same free in
        let absent : (i : ℕ) → i < 6 → has_block d n (k.buf i) ≡ false = λ i lt'.
          let (s, u, v) = r.cache.listed i lt' in
          subst (λ t. has_block d n (k.buf t) ≡ false) v
            (search_bufs-absent k.buf d n k.bufp 0 none p h s (omega (arith, r.cache.slots))) in
        elim (Bool-cases (k.buf j).delwri) [
          | inr e ↦
              let (u, v) =
                reused-both k a r.cache p in_range d n r.sound r.holds on_disk small absent e idle
                  r.at_rest in
              (
                j,
                reused k a r.cache p in_range d n,
                ap (λ t. take_place d n t k) h
                    ∙ rw (reassign-clean k a r d n j known e) (claim_lem p (given d n j k)),
                refl,
                u,
                v,
              )
          | inl e ↦
              let (done, ne) = r.cache.delayed j known e in
              let w = written-Keeps k r.cache j known ne done in
              let k' = written j k in
              let m' = k'.medium in
              let at_all =
                λ (i : ℕ) (P : Buf → Type 0). split k r.cache j known (flushed (k.buf j)) m' i P in
              let (u, v) =
                reused-both k' a w.cache p in_range d n r.sound
                  (λ d' n' u v. w.same d' n' (a d' n') u (r.holds d' n' u v)) on_disk small
                  (λ i lt'.
                    at_all i (λ b. has_block d n b ≡ false) (λ t. absent j known)
                      (λ t. absent i lt'))
                  (rw (put_self k.buf j (flushed (k.buf j))) refl)
                  (rw (put_self k.buf j (flushed (k.buf j))) refl)
                  (λ i lt'.
                    at_all i (λ b. b.busy ≡ true → b.dev ≡ nodev) (λ t s. absurd (cc s))
                      (λ t. r.at_rest i lt')) in
              (
                j,
                reused k' a w.cache p in_range d n,
                ap (λ t. take_place d n t k) h
                    ∙ rw (reassign-delayed k a r d n j known e) (claim_lem p (given d n j k')),
                refl,
                u,
                v,
              )
        ]
  ]

  -- no place is left only where all buffers are in use
  pub getblk-full : search_bufs k.buf d n k.bufp 0 none ≡ full → ⊥
  getblk-full h =
      let (i, lt, idle) = r.idle in
      let (p, small, at) = r.cache.listed i lt in
      let (none_left, all) = search_bufs-full k.buf d n k.bufp 0 none h in
      let busy = subst (λ t. (k.buf t).busy ≡ true) at (all p (omega (arith, r.cache.slots))) in
      absurd (cc (idle, busy))

  -- `getblk` returns a buffer that is in use for the block, and no block changes.
  pub getblk-Obtains : Obtains (getblk d n) k d n a
  getblk-Obtains = go (search_bufs k.buf d n k.bufp 0 none) refl
    where
      go : (x : Place) → search_bufs k.buf d n k.bufp 0 none ≡ x → Obtains (getblk d n) k d n a
      go full h = absurd (getblk-full h)
      go (hit p) h = getblk-hit p h
      go (reuse p) h = getblk-reuse p h

  -- `bread` returns a buffer in use for the block that holds what the block holds.
  pub bread-Obtains :
      (j : ℕ) × (k' : Kernel) × (bread d n k ≡ ok j k')
      × SameTables k k'
      × Using k' j d n a
      × Unchanged k' j d n a
      × ((k'.buf j).data_words ≡ a d n)
  unfolding bread
  bread-Obtains =
      let (j, k', call, same, u, v) = getblk-Obtains in
      elim (Bool-cases (k'.buf j).done) [
        | inl e ↦ (j, k', rw (call, e), same, u, v, v.own.cached j u.index u.on_dev u.at_block e)
        | inr e ↦
            let w = loaded-Keeps k' u.cache j u.index (λ t. on_disk (sym u.on_dev ∙ t)) e in
            let l = w.same d n (a d n) on_disk v.own in
            let b' = loaded k' (k'.buf j) in
            (
              j,
              set_buf j b' k',
              rw
                  (
                    call,
                    e,
                    read_lem k' j (u.cache.healthy j u.index)
                        (u.cache.placed j u.index (λ t. on_disk (sym u.on_dev ∙ t)))
                        (u.sound (k'.buf j).dev (k'.buf j).blkno),
                  )
                  refl,
              ap (λ t. set_buf j (loaded k' (k'.buf j)) t) same,
              loaded-Using k' j d n a u e,
              record {
                settled =
                    rw (put_self k'.buf j b') (λ p q. ap₂ k'.medium.contents u.on_dev u.at_block);
                own = l;
              },
              l.cached j u.index (rw (put_self k'.buf j b') u.on_dev)
                  (rw (put_self k'.buf j b') u.at_block) (rw (put_self k'.buf j b') refl),
            )
      ]
