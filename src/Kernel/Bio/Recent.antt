-- ===== src/Kernel/Bio/Recent.antt =====
-- `getblk` gives out the buffer that has the block, or the one that has been in `bufp` behind all others
-- that are not in use, and moves it to the front.
use bkunix.Prelude.{ℕ, ◌-◌, ◌<◌, ◌≡◌, ◌≢◌, refl, ap, ◌∙◌, ◌⊎◌, inl, inr, true, false, none, arith}
use mathlib.Core.Path.{subst}
use bkunix.Prelude.Tests.{leb, ◌==◌, if◌then◌else◌, Bool-cases}
use bkunix.Prelude.Lists.{get_or}
use bkunix.Prelude.Run.{ok}
use bkunix.Kernel.State.{Kernel, nodev}
use bkunix.Kernel.Bio.{has_block, Place, hit, reuse, full, search_bufs, take_place, getblk}
use bkunix.Kernel.Bio.Order.{get_or-move_front}
use bkunix.Kernel.Bio.Search.{
  search_bufs-hit, search_bufs-absent, search_bufs-free, search_bufs-last,
}
use bkunix.Kernel.Bio.Transfer.{written}
use bkunix.Kernel.Bio.View.{Blocks, Represents}
use bkunix.Kernel.Bio.Access.{claimed, claim_lem, given, reassign-clean, reassign-delayed}
use bkunix.Kernel.Bio.Obtain.{getblk-full}

-- The entry `i` of `bufp` has the block; or no buffer has it, and the entry is the last one that is not
-- in use.
abbrev pub Chosen : Kernel → ℕ → ℕ → ℕ → Type 0
Chosen k d n i =
    (has_block d n (k.buf (get_or k.bufp i 0)) ≡ true)
    ⊎ (((q : ℕ) → q < 6 → has_block d n (k.buf (get_or k.bufp q 0)) ≡ false)
        × ((k.buf (get_or k.bufp i 0)).busy ≡ false)
        × ((q : ℕ) → i < q → q < 6 → (k.buf (get_or k.bufp q 0)).busy ≡ true))

-- The entry `i` has moved to the front of `bufp`, and those before it one place further.
abbrev pub Fronted : Kernel → Kernel → ℕ → Type 0
Fronted k k' i =
    (p : ℕ)
    → get_or k'.bufp p 0 ≡ (
        if p == 0
        then get_or k.bufp i 0
        else if leb p i
        then get_or k.bufp (p - 1) 0
        else get_or k.bufp p 0)

module _ (k : Kernel) (a : Blocks) (r : Represents k a) (d n : ℕ) (on_disk : d ≢ nodev)
    (small : n < 500) where
  -- the state in which the buffer that is given up is claimed
  taken :
      (i : ℕ)
      → i < 6
      → (k' : Kernel) × (take_place d n (reuse i) k ≡ ok (get_or k.bufp i 0) k') × Fronted k k' i
  unfolding take_place
  taken i lt =
      let j = get_or k.bufp i 0 in
      let known = r.cache.known i lt in
      let order = λ (p : ℕ). get_or-move_front i k.bufp p (omega (arith, r.cache.slots)) in
      elim (Bool-cases (k.buf j).delwri) [
        | inr e ↦ (
          claimed i (given d n j k),
          rw (reassign-clean k a r d n j known e) (claim_lem i (given d n j k)),
          order,
        )
        | inl e ↦ (
          claimed i (given d n j (written j k)),
          rw (reassign-delayed k a r d n j known e) (claim_lem i (given d n j (written j k))),
          order,
        )
      ]

  -- In a state that represents the blocks `a`, `getblk` of a block of a device gives out the buffer that
  -- has the block, or, where none has it, the last one in `bufp` that is not in use. It then stands
  -- first in `bufp`, those that stood before it one place further, and the others where they stood.
  pub getblk-Fronted :
      (i : ℕ) × (k' : Kernel) × (i < 6)
      × (getblk d n k ≡ ok (get_or k.bufp i 0) k')
      × Chosen k d n i
      × Fronted k k' i
  unfolding getblk take_place
  getblk-Fronted = go (search_bufs k.buf d n k.bufp 0 none) refl
    where
      go :
          (x : Place)
          → search_bufs k.buf d n k.bufp 0 none ≡ x
          → (i : ℕ) × (k' : Kernel) × (i < 6)
            × (getblk d n k ≡ ok (get_or k.bufp i 0) k')
            × Chosen k d n i
            × Fronted k k' i
      go full h = absurd (getblk-full k a r d n on_disk small h)
      go (hit i) h =
          let (q, lt, at, has) = search_bufs-hit k.buf d n k.bufp 0 none i h in
          let same : q ≡ i = omega arith in
          let index : i < 6 = omega (arith, r.cache.slots) in
          (
            i,
            claimed i k,
            index,
            ap (λ t. take_place d n t k) h ∙ claim_lem i k,
            inl (subst (λ t. has_block d n (k.buf (get_or k.bufp t 0)) ≡ true) same has),
            λ p. get_or-move_front i k.bufp p (omega (arith, r.cache.slots)),
          )
      go (reuse i) h = elim (search_bufs-free k.buf d n k.bufp 0 none i h) [
        | inr e ↦ absurd (cc e)
        | inl (q, lt, at, free) ↦
            let same : q ≡ i = omega arith in
            let index : i < 6 = omega (arith, r.cache.slots) in
            let (k', call, order) = taken i index in
            (
              i,
              k',
              index,
              ap (λ t. take_place d n t k) h ∙ call,
              inr (
                (λ p lt'.
                    search_bufs-absent k.buf d n k.bufp 0 none i h p
                      (omega (arith, r.cache.slots))),
                subst (λ t. (k.buf (get_or k.bufp t 0)).busy ≡ false) same free,
                λ p late lt'.
                    search_bufs-last k.buf d n k.bufp 0 none i h p (omega (arith, r.cache.slots))
                      (omega arith),
              ),
              order,
            )
      ]
