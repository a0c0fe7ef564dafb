-- ===== src/Kernel/Alloc/Super.antt =====
-- The words of a super block in a buffer, and what they stand for.
use bkunix.Prelude.{
  ℕ, zero, suc, ◌+◌, ◌*◌, ◌/◌, ◌%◌, ◌<◌, ◌≡◌, refl, sym, ap, ◌∙◌, List, [], ◌∷◌, ◌++◌, arith,
}
use bkunix.Prelude.Lists.{
  length, get_or, take, drop, drop-drop, drop-append, take-append, take-length,
}
use bkunix.Kernel.State.{Filsys}
use bkunix.Kernel.Alloc.{filsys_tail, filsys_words, filsys_of}

get_or-drop_first : (n : ℕ) (xs : List ℕ) → get_or xs n 0 ≡ get_or (drop n xs) 0 0
get_or-drop_first zero xs = refl
get_or-drop_first (suc n) [] = refl
get_or-drop_first (suc n) (x ∷ xs) = get_or-drop_first n xs

-- A super block whose tables are whole and whose bytes fit.
pub record FitsBlock (fs : Filsys) : Type 0 where
  pub free : length fs.free ≡ 100
  pub inode : length fs.inode ≡ 100
  pub pad : length fs.pad ≡ 48
  pub flock : fs.flock < 256
  pub ilock : fs.ilock < 256
  pub fmod : fs.fmod < 256
  pub ronly : fs.ronly < 256

module _ (fs : Filsys) (f : FitsBlock fs) where
  abbrev ws : List ℕ
  ws = filsys_words fs

  abbrev behind_free : List ℕ
  behind_free = fs.ninode ∷ (fs.inode ++ filsys_tail fs)

  at_103 : drop 103 ws ≡ behind_free
  unfolding filsys_words
  at_103 = ap (λ n. drop n (fs.free ++ behind_free)) (sym f.free) ∙ drop-append fs.free behind_free

  at_104 : drop 104 ws ≡ fs.inode ++ filsys_tail fs
  at_104 = drop-drop 103 1 ws ∙ ap (drop 1) at_103

  at_204 : drop 204 ws ≡ filsys_tail fs
  at_204 =
      drop-drop 104 100 ws
      ∙ ap (drop 100) at_104
      ∙ ap (λ n. drop n (fs.inode ++ filsys_tail fs)) (sym f.inode)
      ∙ drop-append fs.inode (filsys_tail fs)

  -- the words of the tail
  tail_word : (p : ℕ) → get_or ws (204 + p) 0 ≡ get_or (filsys_tail fs) p 0
  tail_word p =
      get_or-drop_first (204 + p) ws
      ∙ ap (λ t. get_or t 0 0) (drop-drop 204 p ws ∙ ap (drop p) at_204)
      ∙ sym (get_or-drop_first p (filsys_tail fs))

  -- A super block whose tables are whole and whose bytes fit is what its words stand for.
  pub filsys_of-filsys_words : filsys_of (filsys_words fs) ≡ fs
  unfolding filsys_of filsys_words filsys_tail
  filsys_of-filsys_words =
      let free : take 100 (drop 3 ws) ≡ fs.free =
        ap (λ n. take n (fs.free ++ behind_free)) (sym f.free) ∙ take-append fs.free behind_free in
      let ninode : get_or ws 103 0 ≡ fs.ninode =
        get_or-drop_first 103 ws ∙ ap (λ t. get_or t 0 0) at_103 in
      let inode : take 100 (drop 104 ws) ≡ fs.inode =
        ap (take 100) at_104
        ∙ ap (λ n. take n (fs.inode ++ filsys_tail fs)) (sym f.inode)
        ∙ take-append fs.inode (filsys_tail fs) in
      let locks : get_or ws 204 0 ≡ fs.flock + 256 * fs.ilock = tail_word 0 in
      let marks : get_or ws 205 0 ≡ fs.fmod + 256 * fs.ronly = tail_word 1 in
      let flock : get_or ws 204 0 % 256 ≡ fs.flock = omega (arith, locks, f.flock) in
      let ilock : get_or ws 204 0 / 256 ≡ fs.ilock = omega (arith, locks, f.flock) in
      let fmod : get_or ws 205 0 % 256 ≡ fs.fmod = omega (arith, marks, f.fmod) in
      let ronly : get_or ws 205 0 / 256 ≡ fs.ronly = omega (arith, marks, f.fmod) in
      let pad : take 48 (drop 208 ws) ≡ fs.pad =
        ap (take 48) (drop-drop 204 4 ws ∙ ap (drop 4) at_204)
        ∙ ap (λ n. take n fs.pad) (sym f.pad)
        ∙ take-length fs.pad in
      λ i. record {
        isize = fs.isize;
        fsize = fs.fsize;
        nfree = fs.nfree;
        free = free i;
        ninode = ninode i;
        inode = inode i;
        flock = flock i;
        ilock = ilock i;
        fmod = fmod i;
        ronly = ronly i;
        time0 = tail_word 2 i;
        time1 = tail_word 3 i;
        pad = pad i;
      }
