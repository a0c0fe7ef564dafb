-- ===== src/Kernel/Bio/Transfer.antt =====
-- What `bwrite` and the read of `bread` do to the cache, where the driver carries the transfer out.
use bkunix.Prelude.{ℕ, ◌<◌, ◌≡◌, refl, ap, inl, inr, true, false}
use mathlib.Core.Path.{fun_ext}
use bkunix.Prelude.Tests.{◌==◌, eq→==, lt→leb, Bool-cases}
use bkunix.Prelude.Run.{ok}
use bkunix.Kernel.State.{Buf, Kernel}
use bkunix.Kernel.Bio.{put, set_buf, on_buf, write_medium, fdstrategy, iowait, brelse, bwrite}
use bkunix.Kernel.Bio.Cache.{put_self}

pub put-put : {A : Type 0} (f : ℕ → A) (j : ℕ) (a b : A) → put (put f j a) j b ≡ put f j b
put-put f j a b = fun_ext λ i. elim (Bool-cases (i == j)) [ inl e ↦ rw e | inr e ↦ rw e ]

module _ (k : Kernel) (j : ℕ) (b : Buf) where
  pub on_buf-set : (f : Buf → Buf) → on_buf j f (set_buf j b k) ≡ ok tt (set_buf j (f b) k)
  on_buf-set f =
      rw (put_self k.buf j b) (ap (λ t. ok tt (record k { buf = t })) (put-put k.buf j b (f b)))

  brelse-set : brelse j (set_buf j b k) ≡ ok tt (set_buf j (record b { busy = false }) k)
  unfolding brelse
  brelse-set = on_buf-set (λ b. record b { busy = false })

  pub iowait-set : b.error ≡ false → iowait j (set_buf j b k) ≡ ok tt (set_buf j b k)
  unfolding iowait
  iowait-set e = rw (eq→== j j refl, e)

  module _ (h : b.blkno < 500) (good : k.medium.bad b.dev b.blkno ≡ false) where
    fdstrategy-write :
        fdstrategy j (set_buf j (record b { rd = false }) k)
        ≡ ok tt (
            set_buf j
              (record b { rd = false; done = true })
              (record k { medium = write_medium b.dev b.blkno b.data_words k.medium }))
    unfolding fdstrategy
    fdstrategy-write =
        rw (eq→== j j refl, lt→leb 500 b.blkno h, good)
          (ap
            (λ t.
              ok tt
                (record k { buf = t; medium = write_medium b.dev b.blkno b.data_words k.medium }))
            (put-put k.buf j (record b { rd = false }) (record b { rd = false; done = true })))

    pub fdstrategy-read :
        fdstrategy j (set_buf j (record b { rd = true }) k)
        ≡ ok tt (
            set_buf j
              (record b { rd = true; done = true; data_words = k.medium.contents b.dev b.blkno })
              k)
    unfolding fdstrategy
    fdstrategy-read =
        rw (eq→== j j refl, lt→leb 500 b.blkno h, good)
          (ap (λ t. ok tt (record k { buf = t }))
            (put-put k.buf j (record b { rd = true })
              (record b { rd = true; done = true; data_words = k.medium.contents b.dev b.blkno })))

-- the buffer behind a write
abbrev pub flushed : Buf → Buf
flushed b = record b { rd = false; done = true; error = false; delwri = false; busy = false }

-- the state behind a write of the buffer `j`
abbrev pub written : ℕ → Kernel → Kernel
written j k = record (set_buf j (flushed (k.buf j)) k) {
  medium = write_medium (k.buf j).dev (k.buf j).blkno (k.buf j).data_words k.medium;
}

pub bwrite_lem :
    (k : Kernel) (j : ℕ)
    → (k.buf j).blkno < 500
    → k.medium.bad (k.buf j).dev (k.buf j).blkno ≡ false
    → bwrite j k ≡ ok tt (written j k)
unfolding bwrite
bwrite_lem k j h good =
    let b = record (k.buf j) { rd = false; done = false; error = false; delwri = false } in
    let after = record k { medium = write_medium b.dev b.blkno b.data_words k.medium } in
    rw (
      fdstrategy-write k j b h good,
      iowait-set after j (record b { done = true }) refl,
      brelse-set after j (record b { done = true }),
    )

-- the buffer behind a read
abbrev pub loaded : Kernel → Buf → Buf
loaded k b = record b { rd = true; done = true; data_words = k.medium.contents b.dev b.blkno }
