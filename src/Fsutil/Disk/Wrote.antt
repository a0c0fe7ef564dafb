-- ===== src/Fsutil/Disk/Wrote.antt =====
-- What a run of writes leaves on the image, and how runs are put together.
use bkunix.Prelude.{
  ℕ, ◌+◌, ◌-◌, ◌%◌, ◌≤◌, ◌<◌, ◌≡◌, refl, sym, ap, ◌∙◌, ◌⊎◌, inl, List, [], ◌++◌, arith,
}
use bkunix.Prelude.Lists.{length, get_or, get_or-append_left, get_or-append_right, length-append}
use native.Mathlib.Decide.{dec_lt}
use bkunix.Fsutil.State.{Image}
use bkunix.Fsutil.Disk.{deskew, patch, write_image}
use bkunix.Fsutil.Disk.Skew.{deskew-add, deskew_injective, deskew-lt, deskew-end}
use bkunix.Fsutil.Disk.View.{view, IsDisk, stored}

-- The image `g` is `f` with the bytes `xs` from the logical address `a` on.
pub record Wrote (f g : Image) (a : ℕ) (xs : List ℕ) : Type 0 where
  pub disk : IsDisk g
  pub inside : (k : ℕ) → k < length xs → view g (a + k) ≡ get_or xs k 0
  pub outside : (b : ℕ) → b < 256256 → (b < a) ⊎ (a + length xs ≤ b) → view g b ≡ view f b

module _ (f : Image) (a : ℕ) (xs : List ℕ) (d : IsDisk f) (p : 0 < length xs)
    (h : a % 128 + length xs ≤ 128) (e : a + length xs ≤ 256256) where
  stored-IsDisk : IsDisk (stored f a xs)
  unfolding write_image
  stored-IsDisk = record {
    whole = omega (arith, deskew-end a (length xs) p h e);
    room = omega (arith, deskew-end a (length xs) p h e);
  }

  stored-inside : (k : ℕ) → k < length xs → view (stored f a xs) (a + k) ≡ get_or xs k 0
  unfolding write_image patch
  stored-inside k lt = rw (deskew-add a k (omega arith) (omega arith)) (ground arith)

  stored-outside :
      (b : ℕ) → b < 256256 → (b < a) ⊎ (a + length xs ≤ b) → view (stored f a xs) b ≡ view f b
  unfolding write_image patch
  stored-outside b lt out = ground (
    arith,
    deskew-lt b lt,
    deskew-add a (deskew b - deskew a),
    deskew_injective (a + (deskew b - deskew a)) b,
  )

  pub stored-Wrote : Wrote f (stored f a xs) a xs
  stored-Wrote = record { disk = stored-IsDisk; inside = stored-inside; outside = stored-outside }

pub Wrote-nil : {f : Image} (a : ℕ) → IsDisk f → Wrote f f a []
Wrote-nil a d = record { disk = d; inside = λ k h. absurd (omega arith); outside = λ b l o. refl }

-- the bytes of the second run
append-right :
    (h : Image) (a : ℕ) (xs ys : List ℕ)
    → ((k : ℕ) → k < length ys → view h (a + length xs + k) ≡ get_or ys k 0)
    → (k : ℕ) → length xs ≤ k
    → k < length (xs ++ ys)
    → view h (a + k) ≡ get_or (xs ++ ys) k 0
append-right h a xs ys v k le lt =
    ap (view h) (omega arith)
    ∙ v (k - length xs) (omega (arith, length-append xs ys))
    ∙ sym (get_or-append_right xs ys k 0 le)

-- One run behind another.
pub Wrote-append :
    {f g h : Image} (a : ℕ) (xs ys : List ℕ)
    → a + length xs + length ys ≤ 256256
    → Wrote f g a xs
    → Wrote g h (a + length xs) ys
    → Wrote f h a (xs ++ ys)
Wrote-append {f} {g} {h} a xs ys e u v = record {
  disk = v.disk;
  inside = λ k lt. elim (dec_lt k (length xs)) [
    | yes l ↦
        v.outside (a + k) (omega arith) (inl (omega arith))
        ∙ u.inside k l
        ∙ sym (get_or-append_left xs ys k 0 l)
    | no l ↦ append-right h a xs ys v.inside k (omega arith) lt
  ];
  outside = λ b l o. ground (arith, length-append xs ys, v.outside b l, u.outside b l);
}
