-- ===== src/Fsutil/Inode/Layout.antt =====
-- The 32 bytes of an inode on the disk, and that they are taken apart as they were put together.
use bkunix.Prelude.{
  ℕ, suc, ◌+◌, ◌*◌, ◌/◌, ◌^◌, ◌<◌, ◌≡◌, refl, sym, ap, ◌∙◌, false, List, [], ◌∷◌, ◌++◌, arith,
}
use bkunix.Prelude.Lists.{length, get_or, get_or_ext, get_or-append_right}
use native.Mathlib.Nat.{mod-eq_of_lt}
use bkunix.Fsutil.State.{Inode, u8}
use bkunix.Fsutil.Disk.Words.{long_bytes}
use bkunix.Fsutil.Block.{word_at, pack_words, unpack_words}
use bkunix.Fsutil.Block.Words.{
  AreWords, length-pack_words, length-unpack_words, get_or-unpack_words, word_at-pack_words,
}
use bkunix.Fsutil.Inode.Codec.{decode, long_at}

-- The fields fit the widths that they have in memory and on the disk.
pub record IsStorable (i : Inode) : Type 0 where
  pub mode : i.mode < 65536
  pub nlink : i.nlink < 256
  pub uid : i.uid < 256
  pub gid : i.gid < 256
  pub size : i.size < 2 ^ 24
  pub slots : length i.addr ≡ 8
  pub words : AreWords i.addr
  pub atime : i.atime < 2 ^ 32
  pub mtime : i.mtime < 2 ^ 32

-- the 32 bytes of an inode
abbrev pub encode : Inode → List ℕ
encode i =
    (u8 i.mode ∷ u8 (i.mode / 256) ∷ [])
    ++ ((u8 i.nlink ∷ [])
        ++ ((u8 i.uid ∷ [])
            ++ ((u8 i.gid ∷ [])
                ++ ((u8 (i.size / 65536) ∷ [])
                    ++ ((u8 i.size ∷ u8 (i.size / 256) ∷ [])
                        ++ (pack_words i.addr ++ (long_bytes i.atime ++ long_bytes i.mtime)))))))

-- behind the addresses
behind :
    (ws rest : List ℕ) (i k : ℕ)
    → length ws ≡ 8
    → i ≡ 16 + k
    → get_or (pack_words ws ++ rest) i 0 ≡ get_or rest k 0
behind ws rest i k l e =
    get_or-append_right (pack_words ws) rest i 0 (omega (arith, length-pack_words ws))
    ∙ ap (λ j. get_or rest j 0) (omega (arith, length-pack_words ws))

word_behind :
    (x0 x1 x2 x3 x4 x5 x6 x7 : ℕ) (ys : List ℕ) (i : ℕ)
    → word_at (x0 ∷ x1 ∷ x2 ∷ x3 ∷ x4 ∷ x5 ∷ x6 ∷ x7 ∷ ys) (8 + i) ≡ word_at ys i
word_behind x0 x1 x2 x3 x4 x5 x6 x7 ys i =
    let e : 8 + i ≡ suc (suc (suc (suc (suc (suc (suc (suc i))))))) = omega arith in
    let e' : 8 + i + 1 ≡ suc (suc (suc (suc (suc (suc (suc (suc (i + 1)))))))) = omega arith in
    rw (e', e)

addr_back : (i : Inode) → IsStorable i → unpack_words 8 (encode i) 8 ≡ i.addr
addr_back i v = get_or_ext _ i.addr 0 (length-unpack_words 8 (encode i) 8 ∙ sym v.slots) λ k lt.
    let small : k < 8 = omega (arith, length-unpack_words 8 (encode i) 8) in
    get_or-unpack_words 8 (encode i) 8 k small
    ∙ word_behind _ _ _ _ _ _ _ _ (pack_words i.addr ++ (long_bytes i.atime ++ long_bytes i.mtime))
        (2 * k)
    ∙ word_at-pack_words i.addr _ k v.words (omega (arith, v.slots))

module _ (i : Inode) (v : IsStorable i) where
  tail_at :
      (j k : ℕ)
      → j ≡ 16 + k
      → get_or (pack_words i.addr ++ (long_bytes i.atime ++ long_bytes i.mtime)) j 0
        ≡ get_or (long_bytes i.atime ++ long_bytes i.mtime) k 0
  tail_at j k e = behind i.addr (long_bytes i.atime ++ long_bytes i.mtime) j k v.slots e

  atime_back : long_at (encode i) 24 ≡ i.atime
  atime_back =
      omega (arith, tail_at 16 0 refl, tail_at 17 1 refl, tail_at 18 2 refl, tail_at 19 3 refl, v)

  mtime_back : long_at (encode i) 28 ≡ i.mtime
  mtime_back =
      omega (arith, tail_at 20 4 refl, tail_at 21 5 refl, tail_at 22 6 refl, tail_at 23 7 refl, v)

  mode_back : u8 (i.mode / 256) * 256 + u8 i.mode ≡ i.mode
  mode_back = omega (arith, v)

  size_back : u8 (i.size / 65536) * 65536 + (u8 (i.size / 256) * 256 + u8 i.size) ≡ i.size
  size_back = omega (arith, v)

  -- What is taken apart is what was put together.
  pub decode-encode : decode i.number (encode i) ≡ record i { dirty = false }
  unfolding decode
  decode-encode = λ j. record {
    number = i.number;
    dirty = false;
    mode = mode_back j;
    nlink = (mod-eq_of_lt v.nlink) j;
    uid = (mod-eq_of_lt v.uid) j;
    gid = (mod-eq_of_lt v.gid) j;
    size = size_back j;
    addr = addr_back i v j;
    atime = atime_back j;
    mtime = mtime_back j;
  }
