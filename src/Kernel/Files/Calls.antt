-- ===== src/Kernel/Files/Calls.antt =====
-- `dup`, `falloc` and `close` keep the reference counts.
use bkunix.Prelude.{
  ℕ, ◌<◌, ◌≡◌, refl, ap, ◌∙◌, inl, inr, Option, none, some, List, not, ◌||◌, arith,
}
use mathlib.Core.Path.{subst}
use bkunix.Prelude.Tests.{Bool-cases}
use bkunix.Prelude.Lists.{get_or, set}
use bkunix.Prelude.Run.{Cmd, ok, and_then}
use bkunix.Kernel.State.{Kernel, ebadf, emfile, enfile}
use bkunix.Kernel.Alloc.{s_lt}
use bkunix.Kernel.Files.{
  set_file, referred, file_at, or_error, open_file, getf, first_closed, use_slot, ufalloc,
  first_unused, take_file, in_slot, falloc, copy_to, copy_of, dup,
}
use bkunix.Kernel.Files.Counts.{Counts, file_at-in, first_closed_lem, first_unused_lem}
use bkunix.Kernel.Files.Steps.{load_file_lem, Counts-same, opened}

pub open_file-some :
    (xs : List (Option ℕ)) (fd f : ℕ) → open_file xs fd ≡ some f → get_or xs fd none ≡ some f
unfolding open_file
open_file-some xs fd f h = elim (Bool-cases (s_lt fd 0 || not (s_lt fd 15))) [
  | inl e ↦ absurd (cc (rw e at h))
  | inr e ↦ rw e at h
]

-- A call that ends, and behind which the counts are right.
abbrev pub EndsCounted : {A : Type 0} → Cmd Kernel A → (ℕ → ℕ) → Kernel → Type 0
EndsCounted {A} m other k = (r : A) × (k' : Kernel) × (m k ≡ ok r k') × Counts other k'

module _ (other : ℕ → ℕ) (k : Kernel) (c : Counts other k) where
  copied :
      (f i : ℕ)
      → f < 20
      → i < 15
      → get_or k.u_ofile i none ≡ none
      → EndsCounted (copy_to f (some i)) other k
  unfolding copy_to
  copied f i h h' closed =
      let (x, at) = file_at-in k.file f (omega (arith, c.files)) in
      let k1 = record k { u_ofile = set k.u_ofile i (some f) } in
      let k2 = set_file f (referred x) k1 in
      (
        tt,
        k2,
        rw (load_file_lem k1 f x at) refl,
        opened other k c k2 i f x (referred x) h' closed h at refl refl refl,
      )

module _ (other : ℕ → ℕ) (k : Kernel) (c : Counts other k) where
  duplicated : (f : ℕ) → f < 20 → EndsCounted (copy_of (some f)) other k
  unfolding copy_of ufalloc use_slot copy_to
  duplicated f h = go (first_closed k.u_ofile 0) refl
    where
      go : (x : Option ℕ) → first_closed k.u_ofile 0 ≡ x → EndsCounted (copy_of (some f)) other k
      go none e =
          let k' = record k { u_error = emfile } in
          (
            tt,
            k',
            ap (λ t. and_then (use_slot t k) (copy_to f)) e,
            Counts-same other k c k' refl refl,
          )
      go (some i) e =
          let k1 = record k { u_r0 = i } in
          let c1 = Counts-same other k c k1 refl refl in
          let (q, same, lt, closed) = first_closed_lem k.u_ofile 0 i e in
          let at : q ≡ i = omega arith in
          let (r, k', call, c') =
            copied other k1 c1 f i h (omega (arith, c.slots))
              (subst (λ t. get_or k.u_ofile t none ≡ none) at closed) in
          (r, k', ap (λ t. and_then (use_slot t k) (copy_to f)) e ∙ call, c')

  dup-Counts : EndsCounted dup other k
  unfolding dup getf copy_of
  dup-Counts = go (open_file k.u_ofile k.u_r0) refl
    where
      go : (x : Option ℕ) → open_file k.u_ofile k.u_r0 ≡ x → EndsCounted dup other k
      go none e =
          let k' = record k { u_error = ebadf } in
          (
            tt,
            k',
            ap (λ t. and_then (or_error ebadf t k) copy_of) e,
            Counts-same other k c k' refl refl,
          )
      go (some f) e =
          let (r, k', call, c') =
            duplicated f (c.open_only k.u_r0 f (open_file-some k.u_ofile k.u_r0 f e)) in
          (r, k', ap (λ t. and_then (or_error ebadf t k) copy_of) e ∙ call, c')

  taken :
      (i : ℕ)
      → i < 15
      → get_or k.u_ofile i none ≡ none
      → EndsCounted (λ k. take_file i (first_unused k.file 0) k) other k
  unfolding take_file
  taken i h closed = go (first_unused k.file 0) refl
    where
      go :
          (x : Option ℕ)
          → first_unused k.file 0 ≡ x
          → EndsCounted (λ k. take_file i (first_unused k.file 0) k) other k
      go none e =
          let k' = record k { u_error = enfile } in
          (none, k', ap (λ t. take_file i t k) e, Counts-same other k c k' refl refl)
      go (some f) e =
          let (q, x, same, lt, found, unused) = first_unused_lem k.file 0 f e in
          let at : file_at k.file f ≡ some x =
            subst (λ t. file_at k.file t ≡ some x) (omega arith) found in
          let y = record (referred x) { offset0 = 0; offset1 = 0 } in
          let k' = set_file f y (record k { u_ofile = set k.u_ofile i (some f) }) in
          (
            some f,
            k',
            ap (λ t. take_file i t k) e ∙ rw (load_file_lem k f x at) refl,
            opened other k c k' i f x y h closed (omega (arith, c.files)) at refl refl refl,
          )

module _ (other : ℕ → ℕ) (k : Kernel) (c : Counts other k) where
  falloc-Counts : EndsCounted falloc other k
  unfolding falloc ufalloc use_slot in_slot
  falloc-Counts = go (first_closed k.u_ofile 0) refl
    where
      go : (x : Option ℕ) → first_closed k.u_ofile 0 ≡ x → EndsCounted falloc other k
      go none e =
          let k' = record k { u_error = emfile } in
          (
            none,
            k',
            ap (λ t. and_then (use_slot t k) in_slot) e,
            Counts-same other k c k' refl refl,
          )
      go (some i) e =
          let k1 = record k { u_r0 = i } in
          let (q, same, lt, closed) = first_closed_lem k.u_ofile 0 i e in
          let (r, k', call, c') =
            taken other k1 (Counts-same other k c k1 refl refl) i (omega (arith, c.slots))
              (subst (λ t. get_or k.u_ofile t none ≡ none) (omega arith) closed) in
          (r, k', ap (λ t. and_then (use_slot t k) in_slot) e ∙ call, c')

  -- Where each file's count is the number of its references, `dup` and `falloc` end in all their
  -- cases, those of a bad descriptor, of no descriptor and of no file left included, and behind each of
  -- them this holds again.
  pub descriptors-Counts : EndsCounted dup other k × EndsCounted falloc other k
  descriptors-Counts = (dup-Counts other k c, falloc-Counts)
