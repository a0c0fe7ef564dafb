-- ===== src/Fsutil/Disk/View.antt =====
-- The image as fsutil's functions address it, and what a transfer within one sector does to it.
use bkunix.Prelude.{
  ℕ, zero, suc, ◌+◌, ◌-◌, ◌%◌, ◌≤◌, ◌<◌, min, ◌≡◌, refl, sym, ap, ap₂, ◌∙◌, inl, inr, true, List,
  [], ◌∷◌, arith,
}
use bkunix.Prelude.Tests.{leb, Bool-cases, eq→==}
use bkunix.Prelude.Lists.{length, take}
use native.Mathlib.Nat.{add-zero}
use bkunix.Prelude.Run.{ok, guard-true}
use bkunix.Fsutil.State.{Image, Fs, ulong}
use bkunix.Fsutil.Disk.{
  deskew, bytes_from, read_count, read, write_image, write_some, write_all, seek, update_seek,
}
use bkunix.Fsutil.Disk.Skew.{far, deskew-add, deskew-lt_far, deskew-end}

-- the byte at a logical address
abbrev pub view : Image → ℕ → ℕ
view f a = f.bytes (deskew a)

-- The image is at least a whole diskette of 77 tracks, which the host has room for.
pub record IsDisk (f : Image) : Type 0 where
  pub whole : 256256 ≤ f.size
  pub room : f.size ≤ f.limit

-- a file system whose image stands at a logical address
abbrev pub at : Fs → Image → ℕ → Fs
at fs f a = record fs { image = record f { pos = deskew a }; seek = a }

-- the same while the last `n` bytes moved are not yet accounted for
abbrev pub past : Fs → Image → ℕ → ℕ → Fs
past fs f a n = record fs { image = record f { pos = deskew a + n }; seek = a }

pub seek_lem : (fs : Fs) (a : ℕ) → a < far → seek a fs ≡ ok tt (at fs fs.image a)
unfolding seek
seek_lem fs a h = ground (arith, deskew-lt_far a h)

pub update_seek_lem :
    (fs : Fs) (f : Image) (a n : ℕ)
    → a % 128 + n ≤ 128
    → a + n < far
    → update_seek n (past fs f a n) ≡ ok tt (at fs f (a + n))
unfolding update_seek
update_seek_lem fs f a n h b = elim (Bool-cases (leb 128 (a % 128 + n))) [
  | inl full ↦ rw (full, same) (rw (seek_lem (past fs f a n) (a + n) b))
  | inr part ↦ rw (part, same, deskew-add a n (ground arith) b)
]
  where
    same : ulong (a + n) ≡ a + n
    same = omega arith

-- Two files that agree along a stretch give the same bytes.
pub bytes_from-eq :
    (f g : ℕ → ℕ) (p a n : ℕ)
    → ((k : ℕ) → k < n → f (p + k) ≡ g (a + k))
    → bytes_from f p n ≡ bytes_from g a n
bytes_from-eq f g p a zero h = refl
bytes_from-eq f g p a (suc n) h = ap₂ ◌∷◌ (simp add-zero at (h 0 (omega arith))) (
    bytes_from-eq f g (p + 1) (a + 1) n
      λ k lt. ap f (omega arith) ∙ h (suc k) (omega arith) ∙ ap g (omega arith))

read-ok :
    (fs : Fs) (n : ℕ)
    → fs.image.pos + n ≤ fs.image.size
    → read n fs
      ≡ ok
          (bytes_from fs.image.bytes fs.image.pos n)
          (record fs { image = record fs.image { pos = fs.image.pos + n } })
unfolding read
read-ok fs n h = let e : read_count n fs.image ≡ n = omega arith in rw (e, eq→== n n refl)

pub read-at :
    (fs : Fs) (f : Image) (a n : ℕ)
    → IsDisk f
    → 0 < n
    → a % 128 + n ≤ 128
    → a + n ≤ 256256
    → read n (at fs f a) ≡ ok (bytes_from (view f) a n) (past fs f a n)
read-at fs f a n d p h b = rw (read-ok (at fs f a) n (omega (arith, deskew-end a n p h b))) (
    ap (λ xs. ok xs (past fs f a n))
      (bytes_from-eq f.bytes (view f) (deskew a) a n
        λ k lt. ap f.bytes (sym (deskew-add a k (omega arith) (omega arith)))))

-- the image after a write at a logical address
abbrev pub stored : Image → ℕ → List ℕ → Image
stored f a xs = write_image xs (record f { pos = deskew a })

take-length : {A : Type 0} (xs : List A) → take (length xs) xs ≡ xs
take-length [] = refl
take-length (x ∷ xs) = ap (λ t. x ∷ t) (take-length xs)

write_all-ok :
    (fs : Fs) (xs : List ℕ)
    → fs.writable ≡ true
    → fs.image.pos + length xs ≤ fs.image.limit
    → write_all xs fs ≡ ok tt (record fs { image = write_image xs fs.image })
unfolding write_all write_some
write_all-ok fs xs w h =
    let e : min (length xs) (fs.image.limit - fs.image.pos) ≡ length xs = omega arith in
    guard-true fs.writable (write_some xs) fs w
    ∙ rw (e, eq→== (length xs) (length xs) refl, take-length xs)

pub write-at :
    (fs : Fs) (f : Image) (a : ℕ) (xs : List ℕ)
    → fs.writable ≡ true
    → IsDisk f
    → 0 < length xs
    → a % 128 + length xs ≤ 128
    → a + length xs ≤ 256256
    → write_all xs (at fs f a) ≡ ok tt (past fs (stored f a xs) a (length xs))
unfolding write_image
write-at fs f a xs w d p h b =
    rw (write_all-ok (at fs f a) xs w (omega (arith, deskew-end a (length xs) p h b)))
