-- ===== src/Kernel/Alloc/Returned.antt =====
-- The two ways through `free`, and the lists that they leave.
use bkunix.Prelude.{
  ℕ, ◌+◌, ◌≤◌, ◌<◌, ◌≡◌, ◌≢◌, refl, ap, ◌∙◌, inl, inr, true, false, some, List, [], ◌∷◌, arith,
}
use mathlib.Core.Path.{subst}
use bkunix.Prelude.Tests.{◌==◌, ne→==}
use bkunix.Prelude.Lists.{length, get_or, set, take, drop, length-set, get_or-set_self}
use bkunix.Prelude.Run.{ok}
use bkunix.Kernel.State.{Filsys, Kernel}
use bkunix.Kernel.Alloc.{s_lt, fs_at, put_fs, set_fs, spill, started_list, pushed, free}
use bkunix.Kernel.Alloc.Chain.{Chain, fs_at-put_fs, find_fs-put_fs, IsMounted, InData}
use bkunix.Kernel.Alloc.Take.{getfs_lem, load_fs_lem, s_lt-small, outside-false}
use bkunix.Kernel.Alloc.Give.{Chain-set}

module _ (k : Kernel) (d m : ℕ) (fs : Filsys) (b : ℕ) (mounted : IsMounted k d m fs)
    (within : InData fs b) where
  abbrev pub begun : Kernel
  begun = set_fs m (started_list fs) k

  pub free-few :
      s_lt (started_list fs).nfree 100 ≡ true
      → free d b k ≡ ok tt (set_fs m (pushed b (started_list fs)) begun)
  unfolding free
  free-few e =
      rw
        (
          getfs_lem k d m mounted.found,
          load_fs_lem k m fs mounted.at,
          outside-false fs b mounted.small within,
          e,
          load_fs_lem begun m (started_list fs)
              (fs_at-put_fs k.mount m fs (started_list fs) mounted.at),
        )
        refl

  pub free-full :
      (k2 : Kernel) (fs2 : Filsys)
      → s_lt (started_list fs).nfree 100 ≡ false
      → spill d m b begun ≡ ok tt k2
      → fs_at k2.mount m ≡ some fs2
      → free d b k ≡ ok tt (set_fs m (pushed b fs2) k2)
  unfolding free
  free-full k2 fs2 e call at =
      rw
        (
          getfs_lem k d m mounted.found,
          load_fs_lem k m fs mounted.at,
          outside-false fs b mounted.small within,
          e,
          call,
          load_fs_lem k2 m fs2 at,
        )
        refl

  -- The super block stays mounted, whatever its list.
  pub put_fs-IsMounted :
      (k' : Kernel) (fs' : Filsys)
      → k'.mount ≡ put_fs k.mount m fs'
      → fs'.fsize ≡ fs.fsize
      → fs'.isize ≡ fs.isize
      → IsMounted k' d m fs'
  put_fs-IsMounted k' fs' mounts p q = record {
    found = rw mounts (find_fs-put_fs d k.mount m 0 fs fs' mounted.at ∙ mounted.found);
    at = rw mounts (fs_at-put_fs k.mount m fs fs' mounted.at);
    small = rw p mounted.small;
    inodes = rw (p, q) mounted.inodes;
  }

-- A block pushed on a table that is not full.
pub Chain-pushed :
    (a : ℕ → List ℕ) (n b : ℕ) (xs bs : List ℕ)
    → 1 ≤ n
    → n < 100
    → b ≢ 0
    → Chain a n xs bs
    → length xs ≡ 100
    → Chain a (n + 1) (set xs n b) (b ∷ bs)
Chain-pushed a n b xs bs some_left few set_ c room =
    let e : ((n + 1) == 1) ≡ false = ne→== (n + 1) 1 (λ t. omega arith) in
    (
      length-set xs n b ∙ room,
      omega arith,
      omega arith,
      ap (λ t. get_or (set xs n b) t 0) (omega arith) ∙ get_or-set_self xs n b 0 (omega arith),
      set_,
      rw e (
          subst (λ t. Chain a t (set xs n b) bs) (omega arith)
            (Chain-set a n n b xs bs (omega arith) c)),
    )

-- A block that holds a full table, and stands alone in the next.
pub Chain-spilled :
    (a : ℕ → List ℕ) (n b : ℕ) (xs ys bs : List ℕ)
    → b ≢ 0
    → length ys ≡ 100
    → get_or (a b) 0 0 ≡ n
    → take 100 (drop 1 (a b)) ≡ xs
    → Chain a n xs bs
    → Chain a 1 (set ys 0 b) (b ∷ bs)
Chain-spilled a n b xs ys bs set_ room count table c = (
  length-set ys 0 b ∙ room,
  omega arith,
  omega arith,
  get_or-set_self ys 0 b 0 (omega arith),
  set_,
  rw (count, table) c,
)

-- The list that `free` starts where there is none is empty as well.
pub Chain-started :
    (a : ℕ → List ℕ) (fs : Filsys) (bs : List ℕ)
    → Chain a fs.nfree fs.free bs
    → Chain a (started_list fs).nfree (started_list fs).free bs
      × (length (started_list fs).free ≡ 100)
      × (1 ≤ (started_list fs).nfree)
      × ((started_list fs).nfree ≤ 100)
Chain-started a fs [] (room, inl e) = rw e (
  (length-set fs.free 0 0 ∙ room, inr (refl, get_or-set_self fs.free 0 0 0 (omega arith))),
  length-set fs.free 0 0 ∙ room,
  omega arith,
  omega arith,
)
Chain-started a fs [] (room, inr (e, z)) =
    let t : s_lt 0 fs.nfree ≡ true = rw e refl in
    rw t ((room, inr (e, z)), room, omega arith, omega arith)
Chain-started a fs (b ∷ bs) (room, some_left, few, top, set_, rest) =
    let t : s_lt 0 fs.nfree ≡ true =
      rw (s_lt-small 0 fs.nfree (omega arith) (omega arith)) (ground arith) in
    rw t ((room, some_left, few, top, set_, rest), room, some_left, few)
