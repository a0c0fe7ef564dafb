-- ===== src/Kernel/Iget/Words.antt =====
-- The words of an inode in its block of the inode list.
use bkunix.Prelude.{
  ℕ, zero, suc, ◌+◌, ◌-◌, ◌*◌, ◌≤◌, ◌<◌, ◌≡◌, ◌⊎◌, inl, inr, refl, sym, ap, ◌∙◌, List, [], ◌∷◌,
  ◌++◌, arith,
}
use bkunix.Prelude.Lists.{
  length, get_or, take, drop, length-append, length-take, length-drop, get_or-append_left,
  get_or-append_right, get_or_ext,
}
use bkunix.Kernel.State.{Inode}
use bkunix.Kernel.Iget.{inode_words, with_words, inode_word, overlay, with_inode}

get_or-take : (n p : ℕ) (xs : List ℕ) → p < n → get_or (take n xs) p 0 ≡ get_or xs p 0
get_or-take zero p xs h = absurd (omega arith)
get_or-take (suc n) p [] h = refl
get_or-take (suc n) zero (x ∷ xs) h = refl
get_or-take (suc n) (suc p) (x ∷ xs) h = get_or-take n p xs (omega arith)

pub get_or-drop : (n p : ℕ) (xs : List ℕ) → get_or (drop n xs) p 0 ≡ get_or xs (n + p) 0
get_or-drop zero p xs = ap (λ i. get_or xs i 0) (omega arith)
get_or-drop (suc n) p [] = refl
get_or-drop (suc n) p (x ∷ xs) =
    let e : suc (n + p) ≡ suc n + p = omega arith in
    get_or-drop n p xs ∙ ap (λ i. get_or (x ∷ xs) i 0) e

module _ (xs : List ℕ) (i : ℕ) (ys : List ℕ) (fits : i + length ys ≤ length xs) where
  length-head : length (take i xs) ≡ i
  length-head = length-take i xs ∙ omega arith

  pub length-overlay : length (overlay xs i ys) ≡ length xs
  unfolding overlay
  length-overlay = omega (
    arith,
    length-append (take i xs) (ys ++ drop (i + length ys) xs),
    length-append ys (drop (i + length ys) xs),
    length-head,
    length-drop (i + length ys) xs,
  )

  pub overlay_in : (p : ℕ) → p < length ys → get_or (overlay xs i ys) (i + p) 0 ≡ get_or ys p 0
  unfolding overlay
  overlay_in p h =
      get_or-append_right (take i xs) (ys ++ drop (i + length ys) xs) (i + p) 0
        (omega (arith, length-head))
      ∙ ap (λ t. get_or (ys ++ drop (i + length ys) xs) t 0) (omega (arith, length-head))
      ∙ get_or-append_left ys (drop (i + length ys) xs) p 0 h

  pub overlay_before : (p : ℕ) → p < i → get_or (overlay xs i ys) p 0 ≡ get_or xs p 0
  unfolding overlay
  overlay_before p h =
      get_or-append_left (take i xs) (ys ++ drop (i + length ys) xs) p 0
        (omega (arith, length-head))
      ∙ get_or-take i p xs h

  pub overlay_behind : (p : ℕ) → i + length ys ≤ p → get_or (overlay xs i ys) p 0 ≡ get_or xs p 0
  unfolding overlay
  overlay_behind p h =
      get_or-append_right (take i xs) (ys ++ drop (i + length ys) xs) p 0
        (omega (arith, length-head))
      ∙ get_or-append_right ys (drop (i + length ys) xs) (p - length (take i xs)) 0
          (omega (arith, length-head))
      ∙ get_or-drop (i + length ys) (p - length (take i xs) - length ys) xs
      ∙ ap (λ t. get_or xs t 0) (omega (arith, length-head))

-- An inode whose fields fit their bytes and words.
pub record FitsInode (x : Inode) : Type 0 where
  pub nlink : x.nlink < 256
  pub uid : x.uid < 256
  pub gid : x.gid < 256
  pub size0 : x.size0 < 256
  pub addr : length x.addr ≡ 8

-- The two inodes are the same on the diskette.
pub record SameFile (x y : Inode) : Type 0 where
  pub mode : x.mode ≡ y.mode
  pub nlink : x.nlink ≡ y.nlink
  pub uid : x.uid ≡ y.uid
  pub gid : x.gid ≡ y.gid
  pub size0 : x.size0 ≡ y.size0
  pub size1 : x.size1 ≡ y.size1
  pub addr : x.addr ≡ y.addr

module _ (x : Inode) (t0 t1 : ℕ) (ws : List ℕ) (fits : FitsInode x) (full : length ws ≡ 256) where
  length-inode_words : length (inode_words x) ≡ 12
  unfolding inode_words
  length-inode_words = omega (arith, fits.addr)

  abbrev start : ℕ
  start = inode_word x.number

  room : start + length (inode_words x) ≤ length ws
  room = omega (arith, length-inode_words)

  later : start + 14 + length (t0 ∷ t1 ∷ []) ≤ length (overlay ws start (inode_words x))
  later = omega (arith, length-overlay ws start (inode_words x) room)

  pub length-with_inode : length (with_inode x t0 t1 ws) ≡ 256
  length-with_inode =
      length-overlay (overlay ws start (inode_words x)) (start + 14) (t0 ∷ t1 ∷ []) later
      ∙ length-overlay ws start (inode_words x) room
      ∙ full

  -- The words of the inode stand in the block.
  pub with_inode_own :
      (p : ℕ) → p < 12 → get_or (with_inode x t0 t1 ws) (start + p) 0 ≡ get_or (inode_words x) p 0
  with_inode_own p h =
      overlay_before (overlay ws start (inode_words x)) (start + 14) (t0 ∷ t1 ∷ []) later
        (start + p) (omega arith)
      ∙ overlay_in ws start (inode_words x) room p (omega (arith, length-inode_words))

  -- For an inode whose fields fit their widths and a block of 256 words, the words before and behind
  -- the sixteen of the inode are as they were.
  pub with_inode_other :
      (p : ℕ) → (p < start) ⊎ (start + 16 ≤ p) → get_or (with_inode x t0 t1 ws) p 0 ≡ get_or ws p 0
  with_inode_other p (inl h) =
      overlay_before (overlay ws start (inode_words x)) (start + 14) (t0 ∷ t1 ∷ []) later p
        (omega arith)
      ∙ overlay_before ws start (inode_words x) room p h
  with_inode_other p (inr h) =
      overlay_behind (overlay ws start (inode_words x)) (start + 14) (t0 ∷ t1 ∷ []) later p
        (omega arith)
      ∙ overlay_behind ws start (inode_words x) room p (omega (arith, length-inode_words))

-- Words that agree with those of an inode give the same inode.
pub with_words-SameFile :
    (x y : Inode) (ws : List ℕ)
    → FitsInode x
    → 12 ≤ length ws
    → ((p : ℕ) → p < 12 → get_or ws p 0 ≡ get_or (inode_words x) p 0)
    → SameFile (with_words ws y) x
unfolding with_words inode_words
with_words-SameFile x y ws fits long agree =
    let w1 : get_or ws 1 0 ≡ x.nlink + 256 * x.uid = agree 1 (omega arith) in
    let w2 : get_or ws 2 0 ≡ x.gid + 256 * x.size0 = agree 2 (omega arith) in
    let long_tail : length (take 8 (drop 4 ws)) ≡ 8 =
      length-take 8 (drop 4 ws) ∙ omega (arith, length-drop 4 ws) in
    record {
      mode = agree 0 (omega arith);
      nlink = rw w1 (omega (arith, fits.nlink));
      uid = rw w1 (omega (arith, fits.nlink));
      gid = rw w2 (omega (arith, fits.gid));
      size0 = rw w2 (omega (arith, fits.gid));
      size1 = agree 3 (omega arith);
      addr = get_or_ext (take 8 (drop 4 ws)) x.addr 0 (long_tail ∙ sym fits.addr) (λ q h.
          get_or-take 8 q (drop 4 ws) (omega (arith, long_tail))
          ∙ get_or-drop 4 q ws
          ∙ agree (4 + q) (omega (arith, long_tail))
          ∙ sym (get_or-drop 4 q (inode_words x)));
    }
