-- ===== src/Fsutil/Disk/Words.antt =====
-- The transfers of one, two and four bytes of fsutil/superblock.c, within a sector.
use bkunix.Prelude.{
  ℕ, ◌+◌, ◌*◌, ◌/◌, ◌%◌, ◌^◌, ◌≤◌, ◌<◌, ◌≡◌, ap, ◌∙◌, true, List, [], ◌∷◌, ◌++◌, arith,
}
use bkunix.Prelude.Lists.{length, get_or, length-append}
use bkunix.Prelude.Run.{ok, Cmd, pure, and_then, ◌>>◌}
use bkunix.Fsutil.State.{Image, Fs, u8}
use bkunix.Fsutil.Disk.{
  byte_at, update_seek, write_all, read8, read16, read32, write8, write16, write32,
}
use bkunix.Fsutil.Disk.View.{view, IsDisk, at, stored, read-at, write-at, update_seek_lem}
use bkunix.Fsutil.Disk.Wrote.{Wrote, stored-Wrote, Wrote-nil, Wrote-append}

-- The image holds the bytes `xs` from the logical address `o` on.
abbrev pub Holds : Image → ℕ → List ℕ → Type 0
Holds f o xs = (k : ℕ) → k < length xs → view f (o + k) ≡ get_or xs k 0

module _ (fs : Fs) (f : Image) (o : ℕ) (xs : List ℕ) (d : IsDisk f) (h : Holds f o xs) where
  pub read8_lem :
      (k : ℕ)
      → k + 1 ≤ length xs
      → (o + k) % 128 + 1 ≤ 128
      → o + k + 1 ≤ 256256
      → read8 (at fs f (o + k)) ≡ ok (byte_at xs k) (at fs f (o + (k + 1)))
  unfolding read8
  read8_lem k l s e =
      rw
        (
          read-at fs f (o + k) 1 d (omega arith) s e,
          update_seek_lem fs f (o + k) 1 s (omega arith),
          h k (omega arith),
        )
        (ap (λ p. ok (byte_at xs k) (at fs f p)) (omega arith))

  pub read16_lem :
      (k : ℕ)
      → k + 2 ≤ length xs
      → (o + k) % 128 + 2 ≤ 128
      → o + k + 2 ≤ 256256
      → read16 (at fs f (o + k))
        ≡ ok (byte_at xs (k + 1) * 256 + byte_at xs k) (at fs f (o + (k + 2)))
  unfolding read16
  read16_lem k l s e =
      let p1 : o + k + 1 ≡ o + (k + 1) = omega arith in
      rw
        (
          read-at fs f (o + k) 2 d (omega arith) s e,
          update_seek_lem fs f (o + k) 2 s (omega arith),
          p1,
          h k (omega arith),
          h (k + 1) (omega arith),
        )
        (ap (λ p. ok (byte_at xs (k + 1) * 256 + byte_at xs k) (at fs f p)) (omega arith))

  pub read32_lem :
      (k : ℕ)
      → k + 4 ≤ length xs
      → (o + k) % 128 + 4 ≤ 128
      → o + k + 4 ≤ 256256
      → read32 (at fs f (o + k))
        ≡ ok
            (byte_at xs (k + 1) * 2 ^ 24
              + byte_at xs k * 2 ^ 16
              + byte_at xs (k + 3) * 256
              + byte_at xs (k + 2))
            (at fs f (o + (k + 4)))
  unfolding read32
  read32_lem k l s e =
      let p1 : o + k + 1 ≡ o + (k + 1) = omega arith in
      let p2 : o + (k + 1) + 1 ≡ o + (k + 2) = omega arith in
      let p3 : o + (k + 2) + 1 ≡ o + (k + 3) = omega arith in
      rw
        (
          read-at fs f (o + k) 4 d (omega arith) s e,
          update_seek_lem fs f (o + k) 4 s (omega arith),
          p1,
          p2,
          p3,
          h k (omega arith),
          h (k + 1) (omega arith),
          h (k + 2) (omega arith),
          h (k + 3) (omega arith),
        )
        (ap
          (λ p.
            ok
              (byte_at xs (k + 1) * 2 ^ 24
                + byte_at xs k * 2 ^ 16
                + byte_at xs (k + 3) * 256
                + byte_at xs (k + 2))
              (at fs f p))
          (omega arith))

-- A command that writes the bytes `xs` from the logical address `a` on, and touches nothing else of
-- the file system.
pub record Emits (fs : Fs) (m : Cmd Fs (Unit {0})) (a : ℕ) (xs : List ℕ) : Type 0 where
  pub runs :
      (f : Image)
      → IsDisk f
      → (g : Image) × (m (at fs f a) ≡ ok tt (at fs g (a + length xs))) × Wrote f g a xs

pub Emits-nil : (fs : Fs) (a : ℕ) → Emits fs (pure tt) a []
Emits-nil fs a = record {
  runs = λ f d. (f, ap (λ p. ok tt (at fs f p)) (omega arith), Wrote-nil a d);
}

-- One command behind another.
pub Emits->> :
    {fs : Fs} {m n : Cmd Fs (Unit {0})} {a : ℕ} {xs ys : List ℕ}
    → a + length xs + length ys ≤ 256256
    → Emits fs m a xs
    → Emits fs n (a + length xs) ys
    → Emits fs (m >> n) a (xs ++ ys)
Emits->> {fs} {m} {n} {a} {xs} {ys} e u v = record {
  runs = λ f d.
      let (g, r, w) = u.runs f d in
      let (h, r', w') = v.runs g w.disk in
      (
        h,
        ap (λ t. and_then t (λ _. n)) r
            ∙ r'
            ∙ ap (λ p. ok tt (at fs h p)) (omega (arith, length-append xs ys)),
        Wrote-append a xs ys e w w',
      );
}

-- the bytes of `lsxfs_write32`
abbrev pub long_bytes : ℕ → List ℕ
long_bytes v = u8 (v / 2 ^ 16) ∷ u8 (v / 2 ^ 24) ∷ u8 v ∷ u8 (v / 256) ∷ []

module _ (fs : Fs) (w : fs.writable ≡ true) (a v : ℕ) where
  emit :
      (xs : List ℕ)
      → 0 < length xs
      → a % 128 + length xs ≤ 128
      → a + length xs ≤ 256256
      → Emits fs (write_all xs >> update_seek (length xs)) a xs
  emit xs p s e = record {
    runs = λ f d. (
      stored f a xs,
      rw (
        write-at fs f a xs w d p s e,
        update_seek_lem fs (stored f a xs) a (length xs) s (omega arith),
      ),
      stored-Wrote f a xs d p s e,
    );
  }

  pub write8-Emits : a % 128 + 1 ≤ 128 → a + 1 ≤ 256256 → Emits fs (write8 v) a (u8 v ∷ [])
  unfolding write8
  write8-Emits s e = emit (u8 v ∷ []) (omega arith) s e

  pub write16-Emits :
      a % 128 + 2 ≤ 128 → a + 2 ≤ 256256 → Emits fs (write16 v) a (u8 v ∷ u8 (v / 256) ∷ [])
  unfolding write16
  write16-Emits s e = emit (u8 v ∷ u8 (v / 256) ∷ []) (omega arith) s e

  pub write32-Emits : a % 128 + 4 ≤ 128 → a + 4 ≤ 256256 → Emits fs (write32 v) a (long_bytes v)
  unfolding write32
  write32-Emits s e = emit (long_bytes v) (omega arith) s e
