-- ===== src/Fsutil/Block/Enough.antt =====
-- `lsxfs_block_alloc` comes to an end.
use bkunix.Prelude.{ℕ, zero, suc, ◌-◌, ◌≤◌, ◌≡◌, ◌≢◌, inl, inr, true, [], arith}
use bkunix.Prelude.Tests.{◌==◌, ==_iff, Bool-cases, ltb, eq→==}
use bkunix.Prelude.Run.{fail, EndsWith, Finishes, finish_then}
use bkunix.Fsutil.State.{Fs}
use bkunix.Fsutil.Disk.{read_block}
use bkunix.Fsutil.Disk.Blocks.{refused}
use bkunix.Fsutil.Disk.Ends.{read_block-Finishes}
use bkunix.Fsutil.Block.{pop, refill, alloc_loop, block_alloc}
use bkunix.Fsutil.Block.Lifo.{popped, top}

-- The boot block is not read as a block of the list.
refill-0 : (fs : Fs) → refill 0 fs ≡ fail fs
unfolding refill
refill-0 fs = rw ((refused fs 0 0 [] (omega arith)).1)

refill-Finishes : (b : ℕ) (fs : Fs) → Finishes (refill b fs)
unfolding refill
refill-Finishes b fs =
    finish_then _ (read_block b fs) _ (read_block-Finishes b fs) (λ block fs1. tt)

-- The rounds end before the fuel does, and the entry that each one takes is in the table.
alloc_loop-EndsWith :
    (n : ℕ) (fs : Fs) → fs.nfree ≤ n → fs.nfree ≤ 100 → EndsWith (λ bno. bno ≢ 0) (alloc_loop n fs)
unfolding alloc_loop pop
alloc_loop-EndsWith zero fs h small = let e = eq→== fs.nfree 0 (omega arith) in rw e tt
alloc_loop-EndsWith (suc n) fs h small = elim (Bool-cases (fs.nfree == 0)) [
  | inl e ↦ rw e tt
  | inr e ↦
      let r : ltb (fs.nfree - 1) 100 ≡ true = ground arith in
      elim (Bool-cases (top fs == 0)) [
        | inr t ↦ elim (Bool-cases (fs.nfree - 1 == 0)) [
          | inl z ↦
              rw (e, r, z, t)
                (finish_then _ (refill (top fs) (popped fs)) _
                  (refill-Finishes (top fs) (popped fs))
                  (λ u fs1 zero_top. absurd (cc (rw (eq→== (top fs) 0 zero_top) at t))))
          | inr z ↦ rw (e, r, z, t) (λ zero_top. absurd (cc (rw (eq→== (top fs) 0 zero_top) at t)))
        ]
        | inl t ↦ elim (Bool-cases (fs.nfree - 1 == 0)) [
          | inl z ↦
              let zero_top : top fs ≡ 0 = (==_iff (top fs) 0).0 t in
              rw (e, r, z, zero_top, refill-0 (popped fs)) tt
          | inr z ↦ rw (e, r, z, t) (alloc_loop-EndsWith n (popped fs) (omega arith) (omega arith))
        ]
      ]
]

-- With a list of at most 100 numbers, whatever stands on the image, `lsxfs_block_alloc` comes to an
-- end in as many rounds as the list has numbers, takes no entry from outside of the table, and where
-- it succeeds gives out a block other than 0.
pub block_alloc-EndsWith : (fs : Fs) → fs.nfree ≤ 100 → EndsWith (λ bno. bno ≢ 0) (block_alloc fs)
unfolding block_alloc
block_alloc-EndsWith fs small = alloc_loop-EndsWith fs.nfree fs (omega arith) small
