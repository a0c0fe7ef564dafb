-- ===== src/Fsutil/Names/Entries.antt =====
-- Directory entries: `lsxfs_dirent_pack` followed by `lsxfs_dirent_unpack`.
use bkunix.Prelude.{
  ℕ, zero, suc, ◌+◌, ◌*◌, ◌/◌, ◌%◌, ◌<◌, ◌-◌, ◌≤◌, ◌≡◌, ◌≢◌, ◌∙◌, ◌⊎◌, inl, inr, refl, ap, List, [],
  ◌∷◌, ◌++◌, arith,
}
use bkunix.Prelude.Lists.{length, take, get_or, replicate}
use bkunix.Prelude.Tests.{eq→==, ne→==}
use bkunix.Fsutil.State.{Dirent}
use bkunix.Fsutil.Names.{c_string, pad, dirent_pack, dirent_unpack}

pub length-pad : (n : ℕ) (s : List ℕ) → length (pad n s) ≡ n
unfolding pad
length-pad zero s = refl
length-pad (suc n) [] = ap suc (length-pad n [])
length-pad (suc n) (c ∷ s) = ap suc (length-pad n s)

zeros : (n : ℕ) → pad n [] ≡ replicate n 0
unfolding pad
zeros zero = refl
zeros (suc n) = ap (λ t. 0 ∷ t) (zeros n)

-- The bytes of a string that ends or is cut off at `n` bytes, and zeros behind them.
pad-string :
    (n : ℕ) (xs rest : List ℕ)
    → length xs ≤ n
    → ((i : ℕ) → i < length xs → get_or xs i 0 ≢ 0)
    → (length xs ≡ n) ⊎ (get_or rest 0 0 ≡ 0)
    → pad n (c_string (take n (xs ++ rest))) ≡ xs ++ replicate (n - length xs) 0
unfolding pad c_string
pad-string zero [] rest few full end = refl
pad-string zero (x ∷ xs) rest few full end = absurd (omega arith)
pad-string (suc n) [] [] few full end =
    let e : suc n ≡ suc n - 0 = omega arith in zeros (suc n) ∙ ap (λ t. replicate t 0) e
pad-string (suc n) [] (c ∷ rest) few full (inl e) = absurd (omega arith)
pad-string (suc n) [] (c ∷ rest) few full (inr e) =
    let l : suc n ≡ suc n - 0 = omega arith in
    rw (eq→== c 0 e) (zeros (suc n) ∙ ap (λ t. replicate t 0) l)
pad-string (suc n) (x ∷ xs) rest few full end = rw (ne→== x 0 (full 0 (omega arith))) (
    ap (λ t. x ∷ t)
      (pad-string n xs rest (omega arith) (λ i h. full (suc i) (omega arith)) (less end)
        ∙ ap (λ t. xs ++ replicate t 0) (omega arith)))
  where
    less :
        (length (x ∷ xs) ≡ suc n) ⊎ (get_or rest 0 0 ≡ 0) → (length xs ≡ n) ⊎ (get_or rest 0 0 ≡ 0)
    less (inl e) = inl (omega arith)
    less (inr e) = inr e

take-long : (n : ℕ) (xs : List ℕ) → length xs ≡ n → take n xs ≡ xs
take-long zero [] h = refl
take-long zero (x ∷ xs) h = absurd (omega arith)
take-long (suc n) [] h = absurd (omega arith)
take-long (suc n) (x ∷ xs) h = ap (λ t. x ∷ t) (take-long n xs (omega arith))

-- A directory entry whose name is the string of the bytes `xs`, none of them 0 and at most 14, that
-- ends with a zero or is cut off at 14 bytes, is packed and unpacked again to these bytes with zeros
-- behind them, but of its 16-bit inode number only the low byte is kept.
pub unpack-pack :
    (d : Dirent) (xs rest : List ℕ)
    → d.ino < 65536
    → d.name ≡ xs ++ rest
    → length xs ≤ 14
    → ((i : ℕ) → i < length xs → get_or xs i 0 ≢ 0)
    → (length xs ≡ 14) ⊎ (get_or rest 0 0 ≡ 0)
    → dirent_unpack (dirent_pack d)
      ≡ record { ino = d.ino % 256; name = xs ++ replicate (14 - length xs) 0 ++ (0 ∷ []) }
unfolding dirent_pack dirent_unpack
unpack-pack d xs rest h name few full end =
    let low : d.ino / 65536 % 256 * 256 + d.ino % 256 ≡ d.ino % 256 = omega arith in
    let packed = pad 14 (c_string (take 14 d.name)) in
    let bytes : take 14 packed ++ (0 ∷ []) ≡ xs ++ replicate (14 - length xs) 0 ++ (0 ∷ []) =
      ap (λ t. t ++ (0 ∷ []))
        (take-long 14 packed (length-pad 14 (c_string (take 14 d.name)))
          ∙ ap (λ t. pad 14 (c_string (take 14 t))) name
          ∙ pad-string 14 xs rest few full end) in
    λ j. record { ino = low j; name = bytes j }
