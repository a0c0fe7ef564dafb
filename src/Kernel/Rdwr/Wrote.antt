-- ===== src/Kernel/Rdwr/Wrote.antt =====
-- What a write does to the bytes of a file, through the map of its blocks.
use bkunix.Prelude.{
  ℕ, ◌+◌, ◌-◌, ◌/◌, ◌%◌, ◌≤◌, ◌<◌, ◌≡◌, ◌≢◌, refl, ap, ◌∙◌, sym, inl, inr, false, true, List, arith,
  ◌&&◌,
}
use bkunix.Prelude.Tests.{ltb, leb, ◌==◌, if◌then◌else◌, Bool-cases}
use bkunix.Prelude.Lists.{get_or}
use native.Mathlib.Decide.{ℕ_discrete}
use bkunix.Kernel.State.{Inode}
use bkunix.Kernel.Bio.View.{Blocks, updated}
use bkunix.Kernel.Bio.Release.{updated_self, updated_other}
use bkunix.Kernel.Iget.Bmap.Lookup.{is_large, block_of}
use bkunix.Kernel.Iomove.{byte_at}
use bkunix.Kernel.Rdwr.File.{file_byte}

-- No block of the diskette stands twice in a file, or is an indirect block of it as well.
pub record Separate (a : Blocks) (x : Inode) : Type 0 where
  pub once : (m n : ℕ) → block_of a x m ≢ 0 → block_of a x m ≡ block_of a x n → m ≡ n
  pub apart :
      (m i : ℕ) → is_large x ≡ true → block_of a x m ≢ 0 → get_or x.addr i 0 ≢ block_of a x m

-- The blocks `a'` are those of `a` with the bytes `f` written into the file, `n` of them from the
-- offset `off` on.
pub record Wrote (a a' : Blocks) (x : Inode) (off n : ℕ) (f : ℕ → ℕ) : Type 0 where
  pub map : (m : ℕ) → block_of a' x m ≡ block_of a x m
  pub bytes :
      (i : ℕ)
      → block_of a x (i / 512) ≢ 0
      → file_byte a' x i ≡ (if leb off i && ltb i (off + n) then f (i - off) else file_byte a x i)
  pub others : (d b : ℕ) → ((m : ℕ) → d ≡ x.dev → b ≡ block_of a x m → b ≢ 0 → ⊥) → a' d b ≡ a d b

-- A block that is none of the indirect blocks does not matter to the map.
block_of-updated :
    (a : Blocks) (x : Inode) (b m : ℕ) (xs : List ℕ)
    → ((i : ℕ) → is_large x ≡ true → get_or x.addr i 0 ≢ b)
    → block_of (updated a x.dev b xs) x m ≡ block_of a x m
block_of-updated a x b m xs apart = elim (Bool-cases (is_large x)) [
  | inl e ↦ rw e (
      ap (λ ws. if get_or x.addr (m / 256) 0 == 0 then 0 else get_or ws (m % 256) 0)
        (updated_other a x.dev b x.dev (get_or x.addr (m / 256) 0) xs (λ s t. apart (m / 256) e t)))
  | inr e ↦ rw e refl
]

-- a byte of the block that the offset is in
shifted :
    (off n i c : ℕ) (f : ℕ → ℕ)
    → off % 512 + n ≤ 512
    → i / 512 ≡ off / 512
    → (if leb (off % 512) (i % 512) && ltb (i % 512) (off % 512 + n)
        then f (i % 512 - off % 512)
        else c)
      ≡ (if leb off i && ltb i (off + n) then f (i - off) else c)
shifted off n i c f room e = ground arith

-- a byte of another block
unshifted :
    (off n i c : ℕ) (f : ℕ → ℕ)
    → off % 512 + n ≤ 512
    → i / 512 ≢ off / 512
    → c ≡ (if leb off i && ltb i (off + n) then f (i - off) else c)
unshifted off n i c f room u =
    let e : (leb off i && ltb i (off + n)) ≡ false = ground arith in
    ap (λ t. if t then f (i - off) else c) (sym e)

module _ (a : Blocks) (x : Inode) (off : ℕ) (sep : Separate a x) (xs : List ℕ)
    (has : block_of a x (off / 512) ≢ 0) where
  abbrev block : ℕ
  block = block_of a x (off / 512)

  abbrev stored : Blocks
  stored = updated a x.dev block xs

  module _ (n : ℕ) (f : ℕ → ℕ) (room : off % 512 + n ≤ 512)
      (bytes : (i : ℕ)
        → i < 512
        → byte_at xs i ≡ (
            if leb (off % 512) i && ltb i (off % 512 + n)
            then f (i - off % 512)
            else byte_at (a x.dev block) i)) where
    in_block :
        (i : ℕ)
        → i / 512 ≡ off / 512
        → byte_at (stored x.dev (block_of a x (i / 512))) (i % 512)
          ≡ (if leb off i && ltb i (off + n) then f (i - off) else file_byte a x i)
    in_block i e =
        ap (λ m. byte_at (stored x.dev (block_of a x m)) (i % 512)) e
        ∙ ap (λ ws. byte_at ws (i % 512)) (updated_self a x.dev block xs)
        ∙ bytes (i % 512) (omega arith)
        ∙ shifted off n i (byte_at (a x.dev block) (i % 512)) f room e
        ∙ ap
            (λ m.
              if leb off i && ltb i (off + n)
              then f (i - off)
              else byte_at (a x.dev (block_of a x m)) (i % 512))
            (sym e)

    out_of_block :
        (i : ℕ)
        → block_of a x (i / 512) ≢ 0
        → i / 512 ≢ off / 512
        → byte_at (stored x.dev (block_of a x (i / 512))) (i % 512)
          ≡ (if leb off i && ltb i (off + n) then f (i - off) else file_byte a x i)
    out_of_block i h u =
        ap (λ ws. byte_at ws (i % 512))
          (updated_other a x.dev block x.dev (block_of a x (i / 512)) xs
            (λ s t. u (sep.once (i / 512) (off / 512) h t)))
        ∙ unshifted off n i (file_byte a x i) f room u

    -- One block of a file replaced by one with the bytes written.
    pub Wrote-one : Wrote a stored x off n f
    Wrote-one =
        let map =
          λ (m : ℕ). block_of-updated a x block m xs (λ i e. sep.apart (off / 512) i e has) in
        record {
          map = map;
          bytes = λ i h.
              ap (λ m. byte_at (stored x.dev m) (i % 512)) (map (i / 512))
              ∙ elim (ℕ_discrete (i / 512) (off / 512)) [
                | yes e ↦ in_block i e
                | no u ↦ out_of_block i h u
              ];
          others = λ d c h.
              updated_other a x.dev block d c xs (λ s t. h (off / 512) s t (λ z. has (sym t ∙ z)));
        }

-- Two writes, the second behind the first.
two_ranges :
    (off n m i c : ℕ) (f : ℕ → ℕ)
    → (if leb (off + n) i && ltb i (off + n + m)
        then f (n + (i - (off + n)))
        else (if leb off i && ltb i (off + n) then f (i - off) else c))
      ≡ (if leb off i && ltb i (off + (n + m)) then f (i - off) else c)
two_ranges off n m i c f = ground arith

pub Wrote-trans :
    (a a1 a2 : Blocks) (x : Inode) (off n m : ℕ) (f : ℕ → ℕ)
    → Wrote a a1 x off n f
    → Wrote a1 a2 x (off + n) m (λ i. f (n + i))
    → Wrote a a2 x off (n + m) f
Wrote-trans a a1 a2 x off n m f w v = record {
  map = λ q. v.map q ∙ w.map q;
  bytes = λ i h.
      v.bytes i (λ z. h (sym (w.map (i / 512)) ∙ z))
      ∙ ap (λ c. if leb (off + n) i && ltb i (off + n + m) then f (n + (i - (off + n))) else c)
          (w.bytes i h)
      ∙ two_ranges off n m i (file_byte a x i) f;
  others = λ d c h. v.others d c (λ q s t. h q s (t ∙ w.map q)) ∙ w.others d c h;
}

-- A write does not change which blocks a file has.
pub Separate-Wrote :
    (a a' : Blocks) (x : Inode) (off n : ℕ) (f : ℕ → ℕ)
    → Wrote a a' x off n f
    → Separate a x
    → Separate a' x
Separate-Wrote a a' x off n f w s = record {
  once = λ p q h e. s.once p q (λ z. h (w.map p ∙ z)) (sym (w.map p) ∙ e ∙ w.map q);
  apart = λ p i e h t. s.apart p i e (λ z. h (w.map p ∙ z)) (t ∙ w.map p);
}
