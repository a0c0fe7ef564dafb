-- ===== src/Kernel/Bio/Search.antt =====
-- The search of `getblk`: what each of its three ends says of the buffers.
use bkunix.Prelude.{
  ℕ, zero, suc, ◌+◌, ◌<◌, ◌≡◌, refl, ◌⊎◌, inl, inr, true, false, Option, none, some, List, [], ◌∷◌,
  arith,
}
use bkunix.Prelude.Tests.{if◌then◌else◌, Bool-cases}
use bkunix.Prelude.Lists.{length, get_or}
use bkunix.Kernel.State.{Buf}
use bkunix.Kernel.Bio.{hit, reuse, full, has_block, search_bufs}

module _ (buf : ℕ → Buf) (dev blkno : ℕ) where
  -- the buffer that stands at a place of the rest of `bufp`
  abbrev nth : List ℕ → ℕ → Buf
  nth js q = buf (get_or js q 0)

  pub search_bufs-hit :
      (js : List ℕ) (i : ℕ) (bdp : Option ℕ) (p : ℕ)
      → search_bufs buf dev blkno js i bdp ≡ hit p
      → (q : ℕ) × (q < length js) × (p ≡ i + q) × (has_block dev blkno (nth js q) ≡ true)
  unfolding search_bufs
  search_bufs-hit [] i none p h = cc
  search_bufs-hit [] i (some b) p h = cc
  search_bufs-hit (j ∷ js) i bdp p h = elim (Bool-cases (has_block dev blkno (buf j))) [
    | inl e ↦ (0, omega arith, ground arith, e)
    | inr e ↦
        let (q, lt, at, has) =
          search_bufs-hit js (i + 1) (if (buf j).busy then bdp else some i) p (rw e at h) in
        (suc q, omega arith, omega arith, has)
  ]

  -- Where a buffer is to be given up, none of those searched has the block.
  pub search_bufs-absent :
      (js : List ℕ) (i : ℕ) (bdp : Option ℕ) (p : ℕ)
      → search_bufs buf dev blkno js i bdp ≡ reuse p
      → (q : ℕ) → q < length js
      → has_block dev blkno (nth js q) ≡ false
  unfolding search_bufs
  search_bufs-absent [] i bdp p h q lt = absurd (omega arith)
  search_bufs-absent (j ∷ js) i bdp p h zero lt = elim (Bool-cases (has_block dev blkno (buf j))) [
    | inl e ↦ absurd (cc (rw e at h))
    | inr e ↦ e
  ]
  search_bufs-absent (j ∷ js) i bdp p h (suc q) lt =
      elim (Bool-cases (has_block dev blkno (buf j))) [
        | inl e ↦ absurd (cc (rw e at h))
        | inr e ↦
            search_bufs-absent js (i + 1) (if (buf j).busy then bdp else some i) p (rw e at h) q
              (omega arith)
      ]

  -- The buffer that is to be given up is not busy.
  pub search_bufs-free :
      (js : List ℕ) (i : ℕ) (bdp : Option ℕ) (p : ℕ)
      → search_bufs buf dev blkno js i bdp ≡ reuse p
      → ((q : ℕ) × (q < length js) × (p ≡ i + q) × ((nth js q).busy ≡ false)) ⊎ (bdp ≡ some p)
  unfolding search_bufs
  search_bufs-free [] i none p h = cc
  search_bufs-free [] i (some b) p h = inr (cc)
  search_bufs-free (j ∷ js) i bdp p h = elim (Bool-cases (has_block dev blkno (buf j))) [
    | inl e ↦ absurd (cc (rw e at h))
    | inr e ↦
        elim (search_bufs-free js (i + 1) (if (buf j).busy then bdp else some i) p (rw e at h)) [
          | inl (q, lt, at, idle) ↦ inl (suc q, omega arith, omega arith, idle)
          | inr last ↦ elim (Bool-cases (buf j).busy) [
            | inl t ↦ inr (rw t at last)
            | inr f ↦
                let here : some i ≡ some p = rw f at last in inl (0, omega arith, ground arith, f)
          ]
        ]
  ]

  -- Behind the buffer that is to be given up, all are busy.
  pub search_bufs-last :
      (js : List ℕ) (i : ℕ) (bdp : Option ℕ) (p : ℕ)
      → search_bufs buf dev blkno js i bdp ≡ reuse p
      → (q : ℕ) → q < length js
      → p < i + q
      → (nth js q).busy ≡ true
  unfolding search_bufs
  search_bufs-last [] i bdp p h q lt late = absurd (omega arith)
  search_bufs-last (j ∷ js) i bdp p h zero lt late =
      elim (Bool-cases (has_block dev blkno (buf j))) [
        | inl e ↦ absurd (cc (rw e at h))
        | inr e ↦ elim (Bool-cases (buf j).busy) [
          | inl t ↦ t
          | inr f ↦ elim (search_bufs-free js (i + 1) (some i) p (rw (e, f) at h)) [
            | inl (q, lt', at, idle) ↦ absurd (omega arith)
            | inr last ↦ let here : some i ≡ some p = last in absurd (ground arith)
          ]
        ]
      ]
  search_bufs-last (j ∷ js) i bdp p h (suc q) lt late =
      elim (Bool-cases (has_block dev blkno (buf j))) [
        | inl e ↦ absurd (cc (rw e at h))
        | inr e ↦
            search_bufs-last js (i + 1) (if (buf j).busy then bdp else some i) p (rw e at h) q
              (omega arith) (omega arith)
      ]

  -- Where no buffer is found, all are busy.
  pub search_bufs-full :
      (js : List ℕ) (i : ℕ) (bdp : Option ℕ)
      → search_bufs buf dev blkno js i bdp ≡ full
      → (bdp ≡ none) × ((q : ℕ) → q < length js → (nth js q).busy ≡ true)
  unfolding search_bufs
  search_bufs-full [] i none h = (refl, λ q lt. absurd (omega arith))
  search_bufs-full [] i (some b) h = cc
  search_bufs-full (j ∷ js) i bdp h = elim (Bool-cases (has_block dev blkno (buf j))) [
    | inl e ↦ absurd (cc (rw e at h))
    | inr e ↦
        let (last, rest) =
          search_bufs-full js (i + 1) (if (buf j).busy then bdp else some i) (rw e at h) in
        elim (Bool-cases (buf j).busy) [
          | inl t ↦ (rw t at last, all_of js t rest)
          | inr f ↦ absurd (cc (rw f at last))
        ]
  ]
    where
      all_of :
          {j : ℕ} (js : List ℕ)
          → (buf j).busy ≡ true
          → ((q : ℕ) → q < length js → (nth js q).busy ≡ true)
          → (q : ℕ) → q < suc (length js)
          → (nth (j ∷ js) q).busy ≡ true
      all_of js t rest zero lt = t
      all_of js t rest (suc q) lt = rest q (omega arith)
