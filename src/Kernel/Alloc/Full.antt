-- ===== src/Kernel/Alloc/Full.antt =====
-- `alloc` where no block is free.
use bkunix.Prelude.{ℕ, ◌≡◌, refl, ap, ◌∙◌, inl, inr, false, none, some, []}
use bkunix.Prelude.Lists.{get_or}
use bkunix.Prelude.Run.{ok}
use bkunix.Kernel.State.{Filsys, Kernel, enospc}
use bkunix.Kernel.Bio.View.{Blocks}
use bkunix.Kernel.Alloc.{s_lt, fs_at, put_fs, set_fs, no_space, alloc}
use bkunix.Kernel.Alloc.Chain.{FreeList, fs_at-put_fs, put_fs-put_fs, find_fs-put_fs}
use bkunix.Kernel.Alloc.Take.{getfs_lem, load_fs_lem, popped}

-- the super block with its list emptied
abbrev emptied : Filsys → Filsys
emptied fs = record fs { nfree = 0 }

module _ (k : Kernel) (a : Blocks) (d m : ℕ) (fs : Filsys) (l : FreeList k a d m fs []) where
  emptied-FreeList :
      (k' : Kernel) → k'.mount ≡ put_fs k.mount m (emptied fs) → FreeList k' a d m (emptied fs) []
  emptied-FreeList k' mounts =
      let (room, which) = l.chain in
      record {
        mounted = record {
          found =
              rw mounts
                (find_fs-put_fs d k.mount m 0 fs (emptied fs) l.mounted.at ∙ l.mounted.found);
          at = rw mounts (fs_at-put_fs k.mount m fs (emptied fs) l.mounted.at);
          small = l.mounted.small;
          inodes = l.mounted.inodes;
        };
        chain = (room, inl refl);
        inside = tt;
        distinct = tt;
      }

  no_space_lem :
      (k1 : Kernel) (fs1 : Filsys)
      → fs_at k1.mount m ≡ some fs1
      → put_fs k1.mount m (emptied fs) ≡ put_fs k.mount m (emptied fs)
      → emptied fs1 ≡ emptied fs
      → (k' : Kernel) × (no_space m k1 ≡ ok none k')
        × (k'.u_error ≡ enospc)
        × (k'.mount ≡ put_fs k.mount m (emptied fs))
  unfolding no_space
  no_space_lem k1 fs1 at mounts same = (
    record (set_fs m (emptied fs1) k1) { u_error = enospc },
    rw (load_fs_lem k1 m fs1 at) refl,
    refl,
    ap (λ t. put_fs k1.mount m t) same ∙ mounts,
  )

  alloc-nothing : s_lt 0 fs.nfree ≡ false → alloc d k ≡ no_space m k
  unfolding alloc
  alloc-nothing e = rw (getfs_lem k d m l.mounted.found, load_fs_lem k m fs l.mounted.at, e) refl

  alloc-end :
      fs.nfree ≡ 1 → get_or fs.free 0 0 ≡ 0 → alloc d k ≡ no_space m (set_fs m (popped fs) k)
  unfolding alloc
  alloc-end one top =
      rw (getfs_lem k d m l.mounted.found, load_fs_lem k m fs l.mounted.at, one, top) refl

  -- Where the list of free blocks of a mounted device is empty, `alloc` ends, returns `NULL` with
  -- `ENOSPC`, and the list stays empty.
  pub alloc-Full :
      (k' : Kernel) × (fs' : Filsys) × (alloc d k ≡ ok none k')
      × (k'.u_error ≡ enospc)
      × FreeList k' a d m fs' []
  alloc-Full =
      let (room, which) = l.chain in
      let at = l.mounted.at in
      elim which [
        | inl e ↦
            let (k', call, error, mounts) = no_space_lem k fs at refl refl in
            (k', emptied fs, alloc-nothing e ∙ call, error, emptied-FreeList k' mounts)
        | inr (one, top) ↦
            let (k', call, error, mounts) =
              no_space_lem (set_fs m (popped fs) k) (popped fs)
                (fs_at-put_fs k.mount m fs (popped fs) at)
                (put_fs-put_fs k.mount m (popped fs) (emptied fs)) refl in
            (k', emptied fs, alloc-end one top ∙ call, error, emptied-FreeList k' mounts)
      ]
