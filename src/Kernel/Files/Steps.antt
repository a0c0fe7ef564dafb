-- ===== src/Kernel/Files/Steps.antt =====
-- The steps on open files keep the reference counts.
use bkunix.Prelude.{ℕ, ◌+◌, ◌%◌, ◌<◌, ◌≡◌, ◌≢◌, refl, sym, ap, ◌∙◌, Option, none, some, arith}
use mathlib.Core.Path.{subst}
use bkunix.Prelude.Tests.{eq→==, ne→==}
use bkunix.Prelude.Lists.{get_or, set, length-set, get_or-set_self, get_or-set_ne}
use native.Mathlib.Decide.{ℕ_discrete}
use bkunix.Prelude.Run.{ok}
use bkunix.Kernel.State.{File, Kernel}
use bkunix.Kernel.Alloc.{or_panic}
use bkunix.Kernel.Files.{load_file, file_at}
use bkunix.Kernel.Files.Counts.{
  refs, Counts, refs-bound, refs-set, file_at-set_self, file_at-set_ne, get_or-in,
}

pub some_inj : {A : Type 0} {x y : A} → some x ≡ some y → x ≡ y
some_inj h = cc

pub load_file_lem :
    (k : Kernel) (f : ℕ) (x : File) → file_at k.file f ≡ some x → load_file f k ≡ ok x k
load_file_lem k f x h = ap (λ t. or_panic t k) h

module _ (other : ℕ → ℕ) (k : Kernel) (c : Counts other k) where
  -- only the two tables matter
  pub Counts-same : (k' : Kernel) → k'.u_ofile ≡ k.u_ofile → k'.file ≡ k.file → Counts other k'
  Counts-same k' p q = record {
    slots = rw p c.slots;
    files = rw q c.files;
    few = c.few;
    open_only = rw p c.open_only;
    counted = rw (p, q) c.counted;
  }

  -- A descriptor is set, and the count of one file is as the descriptors then have it.
  changed :
      (k' : Kernel) (i f : ℕ) (y : File) (d : Option ℕ)
      → i < 15
      → f < 20
      → k'.u_ofile ≡ set k.u_ofile i d
      → k'.file ≡ set k.file f y
      → ((g : ℕ) → d ≡ some g → g < 20)
      → y.count ≡ refs f (set k.u_ofile i d) + other f
      → ((g : ℕ) → g ≢ f → refs g (set k.u_ofile i d) ≡ refs g k.u_ofile)
      → Counts other k'
  changed k' i f y d h h' p q known own others = record {
    slots = rw p (length-set k.u_ofile i d ∙ c.slots);
    files = rw q (length-set k.file f y ∙ c.files);
    few = c.few;
    open_only = λ j g e. elim (ℕ_discrete j i) [
      | yes t ↦ known g (
          sym (get_or-set_self k.u_ofile i d none (omega (arith, c.slots)))
          ∙ subst (λ t. get_or (set k.u_ofile i d) t none ≡ some g) t (rw p at e))
      | no t ↦
          c.open_only j g (sym (get_or-set_ne k.u_ofile i j d none (λ u. t (sym u))) ∙ (rw p at e))
    ];
    counted = λ g x e. elim (ℕ_discrete g f) [
      | yes t ↦
          let same : some y ≡ some x =
            sym (file_at-set_self k.file f y (omega (arith, c.files)))
            ∙ subst (λ t. file_at (set k.file f y) t ≡ some x) t (rw q at e) in
          rw (p, t) (ap (λ z. z.count) (sym (some_inj same)) ∙ own)
      | no t ↦
          rw (p, others g t)
            (c.counted g x (sym (file_at-set_ne k.file f g y (λ u. t (sym u))) ∙ (rw q at e)))
    ];
  }

  -- A closed descriptor is opened for a file, whose count goes up.
  pub opened :
      (k' : Kernel) (i f : ℕ) (x y : File)
      → i < 15
      → get_or k.u_ofile i none ≡ none
      → f < 20
      → file_at k.file f ≡ some x
      → y.count ≡ (x.count + 1) % 256
      → k'.u_ofile ≡ set k.u_ofile i (some f)
      → k'.file ≡ set k.file f y
      → Counts other k'
  opened k' i f x y h closed h' at up p q =
      let step = λ (g : ℕ). refs-set g i (some f) k.u_ofile (omega (arith, c.slots)) in
      changed k' i f y (some f) h h' p q (λ g e. subst (λ t. t < 20) (some_inj e) h')
        (let t = rw (closed, eq→== f f refl) at (step f) in
          let bound = refs-bound f k.u_ofile in
          omega (arith, t, up, bound, c.slots, c.few f, c.counted f x at))
        (λ g ne. let t = rw (closed, ne→== f g (λ u. ne (sym u))) at (step g) in omega (arith, t))

  -- An open descriptor is closed, and the count of its file goes down.
  pub shut :
      (k' : Kernel) (i f : ℕ) (x y : File)
      → get_or k.u_ofile i none ≡ some f
      → file_at k.file f ≡ some x
      → y.count ≡ (x.count + 255) % 256
      → k'.u_ofile ≡ set k.u_ofile i none
      → k'.file ≡ set k.file f y
      → Counts other k'
  shut k' i f x y is_open at down p q =
      let lt = get_or-in k.u_ofile i f is_open in
      let step = λ (g : ℕ). refs-set g i none k.u_ofile lt in
      changed k' i f y none (omega (arith, c.slots)) (c.open_only i f is_open) p q (λ g e. cc)
        (let t = rw (is_open, eq→== f f refl) at (step f) in
          let bound = refs-bound f k.u_ofile in
          omega (arith, t, down, bound, c.slots, c.few f, c.counted f x at))
        (λ g ne. let t = rw (is_open, ne→== f g (λ u. ne (sym u))) at (step g) in omega (arith, t))
