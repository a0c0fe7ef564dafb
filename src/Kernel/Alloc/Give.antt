-- ===== src/Kernel/Alloc/Give.antt =====
-- What `free` writes: the block that takes the table, and an entry of the table.
use bkunix.Prelude.{
  ℕ, ◌-◌, ◌≤◌, ◌<◌, ◌≡◌, ◌≢◌, refl, sym, ap, ◌∙◌, ◌⊎◌, inl, inr, some, List, [], ◌∷◌, ◌++◌, arith,
}
use bkunix.Prelude.Tests.{◌==◌, Bool-cases}
use bkunix.Prelude.Lists.{
  take-append, take-length, length, get_or, set, take, drop, length-set, get_or-set_ne,
}
use bkunix.Prelude.Run.{ok}
use bkunix.Kernel.State.{Filsys, Kernel, nodev}
use bkunix.Kernel.Bio.Cache.{put_self}
use bkunix.Kernel.Bio.Transfer.{written}
use bkunix.Kernel.Bio.View.{Blocks, updated, Represents, Using-beside}
use bkunix.Kernel.Bio.Obtain.{getblk-Obtains}
use bkunix.Kernel.Bio.Release.{edited, edited-Using, bwrite-Represents}
use bkunix.Kernel.Alloc.{fs_at, put_fs, set_fs, spill}
use bkunix.Kernel.Alloc.Chain.{Chain}
use bkunix.Kernel.Alloc.Take.{load_fs_lem}

-- Entries beyond those that count do not matter.
pub Chain-set :
    (a : ℕ → List ℕ) (n i v : ℕ) (xs bs : List ℕ)
    → n ≤ i
    → Chain a n xs bs
    → Chain a n (set xs i v) bs
Chain-set a n i v xs [] h (room, inl e) = (length-set xs i v ∙ room, inl e)
Chain-set a n i v xs [] h (room, inr (e, z)) =
    (length-set xs i v ∙ room, inr (e, get_or-set_ne xs i 0 v 0 (λ t. omega arith) ∙ z))
Chain-set a n i v xs (b ∷ bs) h (room, some_left, few, top, set_, c) = (
  length-set xs i v ∙ room,
  some_left,
  few,
  get_or-set_ne xs i (n - 1) v 0 (λ t. omega arith) ∙ top,
  set_,
  elim (Bool-cases (n == 1)) [
    | inl e ↦ rw e (rw e at c)
    | inr e ↦ rw e (Chain-set a (n - 1) i v xs bs (omega arith) (rw e at c))
  ],
)

-- The blocks are the same, but perhaps for one.
abbrev pub SameBut : ℕ → ℕ → Blocks → Blocks → Type 0
SameBut d b a a' = (a' ≡ a) ⊎ ((w : List ℕ) × (a' ≡ updated a d b w))

module _ (k : Kernel) (a : Blocks) (d m : ℕ) (fs : Filsys) (on_disk : d ≢ nodev)
    (at : fs_at k.mount m ≡ some fs) (r : Represents k a) where
  -- The block that `spill` writes holds the table.
  pub spill_lem :
      (b : ℕ)
      → b < 500
      → length fs.free ≡ 100
      → (k' : Kernel) × (w : List ℕ) × (spill d m b k ≡ ok tt k')
        × Represents k' (updated a d b w)
        × (k'.mount ≡ put_fs k.mount m (record fs { nfree = 0 }))
        × (get_or w 0 0 ≡ fs.nfree)
        × (take 100 (drop 1 w) ≡ fs.free)
  unfolding spill
  spill_lem b small room =
      let (j, k1, call, same, u, v) = getblk-Obtains k a r d b on_disk small in
      let mount_same : k1.mount ≡ k.mount = ap (λ k. k.mount) same in
      let xs = fs.nfree ∷ (take 100 fs.free ++ drop 101 (k1.buf j).data_words) in
      let k2 = set_fs m (record fs { nfree = 0 }) (edited j xs k1) in
      let (wrote, r') =
        bwrite-Represents k2 j d b a
          (Using-beside (edited j xs k1) k2 (edited-Using k1 j d b a u xs)) in
      let words : (k2.buf j).data_words ≡ xs =
        ap (λ b. b.data_words) (put_self k1.buf j (record (k1.buf j) { data_words = xs })) in
      let whole : take 100 fs.free ≡ fs.free =
        ap (λ n. take n fs.free) (sym room) ∙ take-length fs.free in
      (
        written j k2,
        (k2.buf j).data_words,
        rw (call, load_fs_lem k1 m fs (rw mount_same at)) wrote,
        r',
        ap (λ t. put_fs t m (record fs { nfree = 0 })) mount_same,
        rw words refl,
        rw (words, whole)
            (ap (λ n. take n (fs.free ++ drop 101 (k1.buf j).data_words)) (sym room)
              ∙ take-append fs.free _),
      )
