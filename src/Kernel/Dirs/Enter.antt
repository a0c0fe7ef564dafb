-- ===== src/Kernel/Dirs/Enter.antt =====
-- An entry that `wdir` makes is found by `namei`.
use bkunix.Prelude.{
  ℕ, suc, ◌+◌, ◌*◌, ◌/◌, ◌%◌, ◌<◌, ◌≡◌, ◌≢◌, refl, ap, ap₂, ◌∙◌, sym, List, none, some, true, false,
  ◌&&◌, arith,
}
use mathlib.Core.Path.{subst}
use bkunix.Prelude.Tests.{leb, ltb, ◌==◌, ne→==}
use bkunix.Prelude.Lists.{get_or, length}
use bkunix.Prelude.Run.{Cmd, ok, and_then}
use bkunix.Kernel.State.{Inode, Kernel}
use bkunix.Kernel.Bio.Cache.{put_self}
use bkunix.Kernel.Bio.View.{Blocks, Represents-beside}
use bkunix.Kernel.Iget.{set_inode, iput}
use bkunix.Kernel.Iget.Refs.{recounted, iput_lem}
use bkunix.Kernel.Iget.Bmap.Lookup.{block_of}
use bkunix.Kernel.Iomove.{byte_at}
use bkunix.Kernel.Rdwr.File.{file_byte, offset, HasBlocks}
use bkunix.Kernel.Rdwr.Wrote.{Wrote}
use bkunix.Kernel.Rdwr.Size.{sized_to, size_behind}
use bkunix.Kernel.Rdwr.Buffer.{given_bytes}
use bkunix.Kernel.Rdwr.Write.{Writable}
use bkunix.Kernel.Rdwr.Write.Loop.{HasBlocks-Wrote, writei_lem}
use bkunix.Kernel.Names.{name_at, present, search_dir}
use bkunix.Kernel.Names.Entries.{entry_ino, entry_name, matches, lookup, first_empty, Ends}
use bkunix.Kernel.Names.Search.{search_dir-lookup}
use bkunix.Kernel.Dirs.{stand_at, dent_bytes, from_dent, wdir}
use bkunix.Kernel.Dirs.Bytes.{
  stand_at_lem, name_at_lem, name_at-agree, word-bytes, same_name_self, entry-file_byte,
  lookup-next,
}

-- the state in which `wdir` calls `writei`
abbrev pub entering : ℕ → ℕ → Kernel → Kernel
entering dent p k =
    from_dent dent (record k { u_dent_ino = (k.inode p).number; u_dent_name = k.u_dbuf })

-- The search of a directory of `n` entries has left the entry `e` for the name in `u_dbuf`, which the
-- entries before it do not have, and the entry may be written.
pub record Ready (dent p e n : ℕ) (k : Kernel) (a : Blocks) : Type 0 where
  pub writable : Writable (entering dent p k) a k.u_pdir
  pub whole : HasBlocks a (k.inode k.u_pdir) (16 * n)
  pub small : 16 * n < 65536
  pub index : e < n
  pub at : offset k ≡ 16 * e
  pub new : lookup a (k.inode k.u_pdir) k.u_dbuf e 0 ≡ none
  pub full : first_empty a (k.inode k.u_pdir) e 0 ≡ 0
  pub long : length k.u_dbuf ≡ 14
  pub chars : (i : ℕ) → get_or k.u_dbuf i 0 < 256
  pub some_inode : 0 < (k.inode p).number
  pub word : (k.inode p).number < 65536
  pub referred : (k.inode k.u_pdir).count ≢ 1

module _ (dent p e n : ℕ) (k : Kernel) (a a1 : Blocks) (h : Ready dent p e n k a)
    (w : Wrote a a1 (k.inode k.u_pdir) (offset k) 16 (given_bytes (entering dent p k))) where
  abbrev x : Inode
  x = k.inode k.u_pdir

  abbrev bytes : List ℕ
  bytes = dent_bytes (record k { u_dent_ino = (k.inode p).number; u_dent_name = k.u_dbuf })

  has : (i j : ℕ) → i < n → j < 16 → block_of a x ((16 * i + j) / 512) ≢ 0
  has i j q r = h.whole.present ((16 * i + j) / 512) (omega arith)

  -- the bytes of the entry
  entered : (j : ℕ) → j < 16 → file_byte a1 x (16 * e + j) ≡ get_or bytes j 0 % 256
  entered j q =
      let within : (leb (offset k) (16 * e + j) && ltb (16 * e + j) (offset k + 16)) ≡ true =
        ground (arith, h.at) in
      w.bytes (16 * e + j) (has e j h.index q)
      ∙ rw within (
          ap (λ t. stand_at dent bytes k.core (dent + t) % 256) (omega (arith, h.at))
          ∙ ap (λ t. t % 256) (stand_at_lem dent bytes k.core j (omega (arith, h.long))))

  -- the bytes of the entries before it
  kept : (i j : ℕ) → i < e → j < 16 → file_byte a1 x (16 * i + j) ≡ file_byte a x (16 * i + j)
  kept i j q r =
      let without : (leb (offset k) (16 * i + j) && ltb (16 * i + j) (offset k + 16)) ≡ false =
        ground (arith, h.at) in
      w.bytes (16 * i + j) (has i j (omega (arith, h.index)) r) ∙ rw without refl

  entry_name-entered : entry_name a1 x e ≡ k.u_dbuf
  entry_name-entered =
      let ws = a1 x.dev (block_of a1 x (e / 32)) in
      subst (λ t. name_at ws (16 * (e % 32) + 2) t ≡ k.u_dbuf) h.long
        (name_at_lem ws k.u_dbuf (16 * (e % 32) + 2) (λ i q.
          let lt : 2 + i < 16 = omega (arith, h.long) in
          ap (byte_at ws) (omega arith)
          ∙ entry-file_byte a1 x e (2 + i) lt
          ∙ entered (2 + i) lt
          ∙ ap (λ t. get_or bytes t 0 % 256) two_more
          ∙ omega (arith, h.chars i)))
    where
      two_more : {i : ℕ} → 2 + i ≡ suc (suc i)
      two_more = omega arith

  entry_name-kept : (i : ℕ) → i < e → entry_name a1 x i ≡ entry_name a x i
  entry_name-kept i q =
      let ws = a1 x.dev (block_of a1 x (i / 32)) in
      let ws' = a x.dev (block_of a x (i / 32)) in
      name_at-agree ws ws' (16 * (i % 32) + 2) 14 (λ j r.
        ap (byte_at ws) (omega arith)
        ∙ entry-file_byte a1 x i (2 + j) (omega arith)
        ∙ kept i (2 + j) q (omega arith)
        ∙ sym (entry-file_byte a x i (2 + j) (omega arith))
        ∙ ap (byte_at ws') (omega arith))

  entry_ino-entered : entry_ino a1 x e % 65536 ≡ (k.inode p).number
  entry_ino-entered =
      let ws = a1 x.dev (block_of a1 x (e / 32)) in
      let low : byte_at ws (16 * (e % 32)) ≡ (k.inode p).number % 256 % 256 =
        ap (byte_at ws) (omega arith)
        ∙ entry-file_byte a1 x e 0 (omega arith)
        ∙ entered 0 (omega arith) in
      let high : byte_at ws (16 * (e % 32) + 1) ≡ (k.inode p).number / 256 % 256 =
        entry-file_byte a1 x e 1 (omega arith) ∙ entered 1 (omega arith) in
      word-bytes ws (e % 32) ∙ ap₂ (λ l u. l + 256 * u) low high ∙ omega (arith, h.word)

  matches-entered : matches a1 x k.u_dbuf e ≡ true
  matches-entered =
      let used : (entry_ino a1 x e == 0) ≡ false =
        ne→== (entry_ino a1 x e) 0 (λ z. omega (arith, entry_ino-entered, h.some_inode)) in
      rw (used, entry_name-entered) (same_name_self k.u_dbuf)

-- the inode of the directory behind `wdir`
abbrev dir_behind : ℕ → ℕ → Kernel → Inode
dir_behind dent p k =
    let x = k.inode k.u_pdir in
    recounted ((x.count + 255) % 256) (sized_to (size_behind (entering dent p k) 16 x) x)

pub recounted-HasBlocks :
    (a : Blocks) (x : Inode) (c lim : ℕ) → HasBlocks a x lim → HasBlocks a (recounted c x) lim
recounted-HasBlocks a x c lim h = record {
  no_char = h.no_char;
  no_block = h.no_block;
  on_disk = h.on_disk;
  addresses = h.addresses;
  small = h.small;
  present = h.present;
  size = h.size;
  limit = h.limit;
}

-- In a state in which the search of a directory of `n` entries has left the entry `e` for the name in
-- `u_dbuf`, where the entries before it are in use and none of them has that name, where all blocks of
-- the entries are there and the directory may be written at `e`, and where `wdir` does not give back
-- its last reference: `wdir` of an inode ends, and the search of the directory for that name behind it
-- ends at the entry `e`, with the number of the inode.
pub search_dir-wdir :
    (ttwrite : Cmd Kernel (Unit {0})) (dent p e n : ℕ) (k : Kernel) (a : Blocks)
    → Ready dent p e n k a
    → (k1 : Kernel) × (k2 : Kernel) × (wdir ttwrite dent p k ≡ ok tt k1)
      × (search_dir n k.u_pdir none 0 (record k1 { u_offset1 = 0 }) ≡ ok present k2)
      × (k2.u_dent_ino % 65536 ≡ (k.inode p).number)
      × (k2.u_offset1 ≡ 16 * e + 16)
unfolding wdir
search_dir-wdir ttwrite dent p e n k a h =
    let d = k.u_pdir in
    let x = k.inode d in
    let (k1, a1, call, r1, s1, w, same) =
      writei_lem ttwrite (entering dent p k) a d h.writable (omega arith) in
    let s = size_behind (entering dent p k) 16 x in
    let y = dir_behind dent p k in
    let written : k1.inode d ≡ sized_to s x =
      ap (λ (t : Kernel). t.inode d) same ∙ put_self k.inode d (sized_to s x) in
    let k2 = set_inode d y k1 in
    let k3 = record k2 { u_offset1 = 0 } in
    let now : k3.inode d ≡ y = put_self k1.inode d y in
    let blocks : HasBlocks a1 y (16 * n) =
      recounted-HasBlocks a1 (sized_to s x) ((x.count + 255) % 256) (16 * n) (
        HasBlocks-Wrote a a1 x (offset k) 16 s (16 * n) (16 * n) (given_bytes (entering dent p k)) w
          refl h.whole) in
    let found : lookup a1 (k3.inode d) k3.u_dbuf n 0 ≡ some e =
      ap₂ (λ t name. lookup a1 t name n 0) now (ap (λ (t : Kernel). t.u_dbuf) same)
      ∙ lookup-next a a1 x y k.u_dbuf e n 0 h.index h.new h.full
          (λ j q. entry_name-kept dent p e n k a a1 h w (0 + j) (omega arith))
          (subst (λ t. matches a1 y k.u_dbuf t ≡ true) at (matches-entered dent p e n k a a1 h w))
      ∙ ap some (sym at) in
    let (r, k4, call', r4, inodes, errors, ends) =
      search_dir-lookup k3 a1 d n (Represents-beside k1 k3 r1)
        (subst (λ t. HasBlocks a1 t (16 * n)) (sym now) blocks) h.small refl in
    let (present_at, ino, off) =
      subst (λ t. Ends a1 (k3.inode d) (first_empty a1 (k3.inode d) n 0) t r k4) found ends in
    (
      k2,
      k4,
      ap (λ t. and_then t (λ u. iput d)) call
          ∙ iput_lem k1 d (λ z. h.referred (sym (ap (λ (t : Inode). t.count) written) ∙ z))
          ∙ ap (λ (t : Inode). ok tt (set_inode d (recounted ((t.count + 255) % 256) t) k1))
              written,
      call' ∙ ap (λ t. ok t k4) present_at,
      ap (λ t. t % 65536) ino
          ∙ ap (λ t. entry_ino a1 t e % 65536) now
          ∙ entry_ino-entered dent p e n k a a1 h w,
      off,
    )
  where
    at : e ≡ 0 + e
    at = omega arith
