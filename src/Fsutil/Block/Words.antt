-- ===== src/Fsutil/Block/Words.antt =====
-- The words of a list block: what `lsxfs_block_free` packs, `lsxfs_block_alloc` unpacks.
use bkunix.Prelude.{ℕ, zero, suc, ◌+◌, ◌*◌, ◌<◌, ◌≡◌, refl, ap, ◌∙◌, List, [], ◌∷◌, ◌++◌, arith}
use bkunix.Prelude.Lists.{length, get_or, get_or_ext}
use bkunix.Fsutil.Block.{word_at, pack_words, unpack_words}

-- A list of 16-bit words.
abbrev pub AreWords : List ℕ → Type 0
AreWords ws = (k : ℕ) → get_or ws k 0 < 65536

pub length-pack_words : (ws : List ℕ) → length (pack_words ws) ≡ 2 * length ws
unfolding pack_words
length-pack_words [] = refl
length-pack_words (w ∷ ws) = omega (arith, length-pack_words ws)

pub length-unpack_words : (n : ℕ) (block : List ℕ) (i : ℕ) → length (unpack_words n block i) ≡ n
unfolding unpack_words
length-unpack_words zero block i = refl
length-unpack_words (suc n) block i = ap suc (length-unpack_words n block (i + 2))

pub get_or-unpack_words :
    (n : ℕ) (block : List ℕ) (i k : ℕ)
    → k < n
    → get_or (unpack_words n block i) k 0 ≡ word_at block (i + 2 * k)
unfolding unpack_words
get_or-unpack_words zero block i k h = absurd (omega arith)
get_or-unpack_words (suc n) block i zero h = ap (word_at block) (omega arith)
get_or-unpack_words (suc n) block i (suc k) h =
    get_or-unpack_words n block (i + 2) k (omega arith) ∙ ap (word_at block) (omega arith)

pub word_at-pack_words :
    (ws rest : List ℕ) (k : ℕ)
    → AreWords ws
    → k < length ws
    → word_at (pack_words ws ++ rest) (2 * k) ≡ get_or ws k 0
unfolding pack_words
word_at-pack_words [] rest k h lt = absurd (omega arith)
word_at-pack_words (w ∷ ws) rest zero h lt = omega (arith, h 0)
word_at-pack_words (w ∷ ws) rest (suc k) h lt =
    let e : 2 * suc k ≡ suc (suc (2 * k)) = omega arith in
    let e' : suc (suc (2 * k)) + 1 ≡ suc (suc (2 * k + 1)) = omega arith in
    rw (e, e') (word_at-pack_words ws rest k (λ j. h (suc j)) (omega arith))

pub AreWords-cons : (n : ℕ) (ws : List ℕ) → n < 65536 → AreWords ws → AreWords (n ∷ ws)
AreWords-cons n ws hn h zero = hn
AreWords-cons n ws hn h (suc k) = h k

-- Behind its count, a list block gives back the numbers that were packed.
pub unpack-pack :
    (n : ℕ) (ws rest : List ℕ)
    → n < 65536
    → AreWords ws
    → unpack_words (length ws) (pack_words (n ∷ ws) ++ rest) 2 ≡ ws
unpack-pack n ws rest hn h = get_or_ext _ ws 0 (length-unpack_words (length ws) _ 2) λ k lt.
    get_or-unpack_words (length ws) _ 2 k
      (omega (arith, length-unpack_words (length ws) (pack_words (n ∷ ws) ++ rest) 2))
    ∙ ap (word_at (pack_words (n ∷ ws) ++ rest)) (omega arith)
    ∙ word_at-pack_words (n ∷ ws) rest (suc k) (AreWords-cons n ws hn h)
        (omega (arith, length-unpack_words (length ws) (pack_words (n ∷ ws) ++ rest) 2))
