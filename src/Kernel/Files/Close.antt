-- ===== src/Kernel/Files/Close.antt =====
-- `close` keeps the reference counts.
use bkunix.Prelude.{
  ℕ, ◌+◌, ◌%◌, ◌≤◌, ◌<◌, true, false, ◌≡◌, refl, ap, ◌∙◌, inl, inr, Option, none, some, arith,
}
use bkunix.Prelude.Tests.{Bool-cases}
use bkunix.Prelude.Lists.{get_or, set}
use bkunix.Prelude.Run.{Cmd, ok, and_then}
use bkunix.Kernel.State.{File, Kernel, ebadf}
use bkunix.Kernel.Iget.{set_inode}
use bkunix.Kernel.Iget.Refs.{recounted, iput_lem}
use bkunix.Kernel.Files.{
  set_file, file_at, or_error, open_file, getf, at_most_1, closei, closef, close_file, close,
}
use bkunix.Kernel.Files.Counts.{Counts, file_at-in, refs-bound}
use bkunix.Kernel.Files.Steps.{load_file_lem, Counts-same, shut}
use bkunix.Kernel.Files.Calls.{open_file-some, EndsCounted}

-- a file with one reference less
abbrev pub fewer : File → File
fewer x = record x { count = (x.count + 255) % 256 }

above_1 : (n : ℕ) → 2 ≤ n → n < 128 → at_most_1 n ≡ false
unfolding at_most_1
above_1 n h h' = ground arith

at_most_1_lem : (n : ℕ) → n < 128 → at_most_1 n ≡ true → n ≤ 1
unfolding at_most_1
at_most_1_lem n h e = ground arith

module _ (klclose : Cmd Kernel (Unit {0})) (k : Kernel) (f : ℕ) (x : File)
    (at : file_at k.file f ≡ some x) where
  -- the inode of the file with one reference less
  abbrev counted_down : Kernel
  counted_down =
      set_inode x.inode (recounted (((k.inode x.inode).count + 255) % 256) (k.inode x.inode)) k

  closei_lem :
      2 ≤ (k.inode x.inode).count
      → (k.inode x.inode).count < 128
      → closei klclose x.inode k ≡ ok tt counted_down
  unfolding closei
  closei_lem h h' =
      rw (above_1 (k.inode x.inode).count h h') (iput_lem k x.inode (λ t. omega arith))

  -- `closef` where other files refer to the inode, or other descriptors to the file
  closef_lem :
      x.count < 128
      → (x.count ≤ 1 → (2 ≤ (k.inode x.inode).count) × ((k.inode x.inode).count < 128))
      → (k' : Kernel) × (closef klclose f k ≡ ok tt k')
        × (k'.u_ofile ≡ k.u_ofile)
        × (k'.file ≡ set k.file f (fewer x))
  unfolding closef
  closef_lem byte shared = elim (Bool-cases (at_most_1 x.count)) [
    | inl e ↦ (
      set_file f (fewer x) counted_down,
      rw
          (
            load_file_lem k f x at,
            e,
            closei_lem (shared (at_most_1_lem x.count byte e)).0
                (shared (at_most_1_lem x.count byte e)).1,
            load_file_lem counted_down f x at,
          )
          refl,
      refl,
      refl,
    )
    | inr e ↦ (
      set_file f (fewer x) k,
      rw (load_file_lem k f x at, e, load_file_lem k f x at) refl,
      refl,
      refl,
    )
  ]

module _ (klclose : Cmd Kernel (Unit {0})) (other : ℕ → ℕ) (k : Kernel) (c : Counts other k) where
  -- Where each file's count is the number of its references, and the inode of a file that is closed
  -- for the last time has another reference and fewer than 128, `close` ends, for a bad descriptor
  -- too, and behind it each file's count is again the number of its references.
  pub close-Counts :
      ((f : ℕ) (x : File)
        → get_or k.u_ofile k.u_r0 none ≡ some f
        → file_at k.file f ≡ some x
        → x.count ≤ 1
        → (2 ≤ (k.inode x.inode).count) × ((k.inode x.inode).count < 128))
      → EndsCounted (close klclose) other k
  unfolding close getf close_file
  close-Counts shared = go (open_file k.u_ofile k.u_r0) refl
    where
      go : (t : Option ℕ) → open_file k.u_ofile k.u_r0 ≡ t → EndsCounted (close klclose) other k
      go none e =
          let k' = record k { u_error = ebadf } in
          (
            tt,
            k',
            ap (λ t. and_then (or_error ebadf t k) (close_file klclose k.u_r0)) e,
            Counts-same other k c k' refl refl,
          )
      go (some f) e =
          let is_open = open_file-some k.u_ofile k.u_r0 f e in
          let (x, at) =
            file_at-in k.file f (omega (arith, c.files, c.open_only k.u_r0 f is_open)) in
          let k1 = record k { u_ofile = set k.u_ofile k.u_r0 none } in
          let (k', call, p, q) =
            closef_lem klclose k1 f x at
              (omega (arith, c.counted f x at, refs-bound f k.u_ofile, c.slots, c.few f))
              (shared f x is_open at) in
          (
            tt,
            k',
            ap (λ t. and_then (or_error ebadf t k) (close_file klclose k.u_r0)) e ∙ call,
            shut other k c k' k.u_r0 f x (fewer x) is_open at refl p q,
          )
