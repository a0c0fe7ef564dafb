-- ===== src/Kernel/Rdwr/Buffer.antt =====
-- The buffer of a round of `writei`: how it is obtained, filled and given back.
use bkunix.Prelude.{
  ℕ, ◌+◌, ◌-◌, ◌%◌, ◌≤◌, ◌<◌, ◌≡◌, ◌≢◌, refl, ap, ◌∙◌, inl, inr, true, List, arith, ◌&&◌,
}
use bkunix.Prelude.Tests.{ltb, leb, ◌==◌, if◌then◌else◌, Bool-cases, eq→==, ==_iff}
use bkunix.Prelude.Lists.{length}
use bkunix.Prelude.Run.{ok}
use native.Mathlib.Decide.{ℕ_discrete}
use bkunix.Kernel.State.{Kernel, nodev}
use bkunix.Kernel.Bio.{bwrite, bdwrite, getblk, bread}
use bkunix.Kernel.Bio.Transfer.{written}
use bkunix.Kernel.Bio.View.{Blocks, updated, SameTables, Represents, Using, beside}
use bkunix.Kernel.Bio.Obtain.{getblk-Obtains, bread-Obtains}
use bkunix.Kernel.Bio.Release.{postponed, bwrite-Represents, bdwrite-Represents}
use bkunix.Kernel.Bio.Sized.{
  Sized, getblk-Sized, bread-Sized, bwrite-Sized, bdwrite-Sized, Sized-behind,
}
use bkunix.Kernel.Iomove.{byte_at}
use bkunix.Kernel.Iomove.In.{soaked, byte_at-soaked}
use bkunix.Kernel.Rdwr.{room, give_back}

-- the bytes of the process from `u_base` on
abbrev pub given_bytes : Kernel → ℕ → ℕ
given_bytes k i = k.core (k.u_base + i) % 256

-- The buffer of the block, read or not.
pub buffer_lem :
    (k : Kernel) (a : Blocks) (d b n : ℕ)
    → Represents k a
    → Sized k
    → d ≢ nodev
    → b < 500
    → (j : ℕ) × (k' : Kernel) × ((if n == 512 then getblk d b else bread d b) k ≡ ok j k')
      × SameTables k k'
      × Using k' j d b a
      × Sized k'
      × (n ≢ 512 → (k'.buf j).data_words ≡ a d b)
buffer_lem k a d b n r s on_disk small = elim (Bool-cases (n == 512)) [
  | inl e ↦
      let (j, k', call, same, u, v) = getblk-Obtains k a r d b on_disk small in
      (
        j,
        k',
        rw e call,
        same,
        u,
        Sized-behind (getblk d b k) j k' call (getblk-Sized d b k s),
        λ t. absurd (t ((==_iff n 512).0 e)),
      )
  | inr e ↦
      let (j, k', call, same, u, v, words) = bread-Obtains k a r d b on_disk small in
      (
        j,
        k',
        rw e call,
        same,
        u,
        Sized-behind (bread d b k) j k' call (bread-Sized d b k s),
        λ t. words,
      )
]

-- The buffer is given back with its block written, at once or later.
pub give_back_lem :
    (k : Kernel) (a : Blocks) (j d b : ℕ)
    → Using k j d b a
    → Sized k
    → k.u_error ≡ 0
    → (k' : Kernel) × (give_back j k ≡ ok tt k')
      × Represents k' (updated a d b (k.buf j).data_words)
      × Sized k'
      × SameTables k k'
unfolding give_back
give_back_lem k a j d b u s e = elim (Bool-cases (k.u_offset1 % 512 == 0)) [
  | inl t ↦
      let (call, r) = bwrite-Represents k j d b a u in
      (
        written j k,
        rw (eq→== k.u_error 0 e, t) call,
        r,
        Sized-behind (bwrite j k) tt (written j k) call (bwrite-Sized j k s),
        refl,
      )
  | inr t ↦
      let (call, r) = bdwrite-Represents k j d b a u in
      (
        postponed j k,
        rw (eq→== k.u_error 0 e, t) call,
        r,
        Sized-behind (bdwrite j k) tt (postponed j k) call (bdwrite-Sized j k s),
        refl,
      )
]

-- the bytes of the block behind `iomove`
pub soaked_bytes :
    (k k2 : Kernel) (old ws : List ℕ) (on n i : ℕ)
    → k2 ≡ beside k2 k
    → length ws ≡ 256
    → on + n ≤ 512
    → i < 512
    → (n ≢ 512 → ws ≡ old)
    → byte_at (soaked k2.core k2.u_base on n ws) i
      ≡ (if leb on i && ltb i (on + n) then given_bytes k (i - on) else byte_at old i)
soaked_bytes k k2 old ws on n i same long room small words =
    byte_at-soaked k2.core k2.u_base on n ws i (omega (arith, long))
    ∙ ap
        (λ (t : Kernel).
          if leb on i && ltb i (on + n) then t.core (t.u_base + (i - on)) % 256 else byte_at ws i)
        same
    ∙ elim (ℕ_discrete n 512) [
      | no u ↦
          ap (λ t. if leb on i && ltb i (on + n) then given_bytes k (i - on) else byte_at t i)
            (words u)
      | yes e ↦ let within : (leb on i && ltb i (on + n)) ≡ true = ground arith in rw within refl
    ]
