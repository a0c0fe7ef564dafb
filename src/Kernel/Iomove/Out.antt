-- ===== src/Kernel/Iomove/Out.antt =====
-- `iomove` with `B_READ`, where no access traps: bytes of the buffer come into the memory.
use bkunix.Prelude.{
  ℕ, zero, suc, ◌+◌, ◌-◌, ◌*◌, ◌/◌, ◌%◌, ◌≤◌, ◌<◌, ◌≡◌, refl, ap, ap₂, ◌∙◌, sym, inl, inr, Bool,
  true, false, List, arith,
}
use mathlib.Core.Path.{fun_ext, subst}
use bkunix.Prelude.Tests.{◌==◌, if◌then◌else◌, Bool-cases, ne→==}
use bkunix.Prelude.Run.{ok, and_then, pure}
use bkunix.Kernel.State.{Kernel}
use bkunix.Kernel.Bio.{put}
use bkunix.Kernel.Iomove.{
  byte_at, traps, subyte, passed, passc, copyout, pass_bytes, move_on, moved, by_words, iomove_read,
}
use bkunix.Kernel.Iomove.Progress.{
  poured, advanced, progress, Fits, progress-progress, Fits-advanced, Fits-core, progress-zero,
  step_on-advanced, Fits-one, no_trap,
}

poured-one : (f : ℕ → ℕ) (base : ℕ) (core : ℕ → ℕ) → put core base (f 0) ≡ poured f base 1 core
poured-one f base core = fun_ext λ a. ground arith

passc_lem :
    (c : ℕ) (f : ℕ → ℕ) (k : Kernel)
    → Fits k 1
    → f 0 ≡ c % 256
    → passc c k ≡ ok (k.u_count - 1 == 0) (progress f 1 k)
unfolding passc subyte passed
passc_lem c f k h e = rw (no_trap 0 h) (
    ap₂ (λ (x : Kernel) d. ok (x.u_count == 0) (record x { core = d })) (step_on-advanced k h)
      (ap (put k.core k.u_base) (sym e) ∙ poured-one f k.u_base k.core))

byte_at-mod : (ws : List ℕ) (i : ℕ) → byte_at ws i ≡ byte_at ws i % 256
byte_at-mod ws i = ground arith

pass_bytes_step :
    (n j cp : ℕ) (k : Kernel)
    → Fits k 1
    → pass_bytes (suc n) j cp k
      ≡ (if k.u_count - 1 == 0 then pure tt else pass_bytes n j (cp + 1))
          (progress (λ i. byte_at (k.buf j).data_words (cp + i)) 1 k)
unfolding pass_bytes
pass_bytes_step n j cp k h =
    let ws = (k.buf j).data_words in
    let f : ℕ → ℕ = λ i. byte_at ws (cp + i) in
    let first : f 0 ≡ byte_at ws cp = ap (byte_at ws) (omega arith) in
    ap (λ r. and_then r (λ stop. if stop then pure tt else pass_bytes n j (cp + 1)))
      (passc_lem (byte_at ws cp) f k h (first ∙ byte_at-mod ws cp))

either_way : (b : Bool) (k : Kernel) → (if b then pure tt else pure tt) k ≡ ok tt k
either_way true k = refl
either_way false k = refl

-- the bytes of `n` more than one
progress-rest :
    (ws : List ℕ) (cp n : ℕ) (k : Kernel)
    → Fits k (suc n)
    → progress (λ i. byte_at ws (cp + 1 + i)) n (progress (λ i. byte_at ws (cp + i)) 1 k)
      ≡ progress (λ i. byte_at ws (cp + i)) (suc n) k
progress-rest ws cp n k h =
    let f : ℕ → ℕ = λ i. byte_at ws (cp + i) in
    let later : ◌≡◌ {A = ℕ → ℕ} (λ i. byte_at ws (cp + 1 + i)) (λ i. f (1 + i)) =
      fun_ext λ i. ap (byte_at ws) (omega arith) in
    let total : 1 + n ≡ suc n = omega arith in
    ap (λ g. progress g n (progress f 1 k)) later
    ∙ progress-progress f k 1 n (subst (Fits k) (sym total) h)
    ∙ ap (λ t. progress f t k) total

pub pass_bytes_lem :
    (n j cp : ℕ) (k : Kernel)
    → Fits k n
    → pass_bytes n j cp k ≡ ok tt (progress (λ i. byte_at (k.buf j).data_words (cp + i)) n k)
pass_bytes_lem zero j cp k h =
    unfold pass_bytes in
    ap (ok tt) (sym (progress-zero (λ i. byte_at (k.buf j).data_words (cp + i)) k h.low))
pass_bytes_lem (suc zero) j cp k h =
    pass_bytes_step 0 j cp k h
    ∙ unfold pass_bytes in
      either_way (k.u_count - 1 == 0) (progress (λ i. byte_at (k.buf j).data_words (cp + i)) 1 k)
pass_bytes_lem (suc (suc n)) j cp k h =
    let ws = (k.buf j).data_words in
    let k1 = progress (λ i. byte_at ws (cp + i)) 1 k in
    let rest : Fits k1 (suc n) =
      Fits-core k1.core (Fits-advanced 1 (suc n) (subst (Fits k) (omega arith) h)) in
    pass_bytes_step (suc n) j cp k (Fits-one (suc n) h)
    ∙ ap (λ b. (if b then pure tt else pass_bytes (suc n) j (cp + 1)) k1)
        (ne→== (k.u_count - 1) 0 (omega (arith, h.asked)))
    ∙ pass_bytes_lem (suc n) j (cp + 1) k1 rest
    ∙ ap (ok tt) (progress-rest ws cp (suc n) k h)

-- words read
put-poured :
    (f : ℕ → ℕ) (base m : ℕ) (core : ℕ → ℕ)
    → poured (λ i. f (2 + i)) (base + 2) m (put (put core base (f 0)) (base + 1) (f 1))
      ≡ poured f base (2 + m) core
put-poured f base m core = fun_ext λ a. ground arith

poured-zero : (f : ℕ → ℕ) (base : ℕ) (core : ℕ → ℕ) → poured f base 0 core ≡ core
poured-zero f base core = fun_ext λ a. ground arith

copyout_lem :
    (n j cp base : ℕ) (k : Kernel)
    → ((a : ℕ) → base ≤ a → a < base + 2 * n → traps k a ≡ false)
    → copyout n j cp base k
      ≡ ok false (record k {
        core = poured (λ i. byte_at (k.buf j).data_words (cp + i)) base (2 * n) k.core;
      })
unfolding copyout
copyout_lem zero j cp base k h =
    ap (λ c. ok false (record k { core = c }))
      (sym (poured-zero (λ i. byte_at (k.buf j).data_words (cp + i)) base k.core))
copyout_lem (suc n) j cp base k h =
    let ws = (k.buf j).data_words in
    let f : ℕ → ℕ = λ i. byte_at ws (cp + i) in
    let c1 = put (put k.core base (byte_at ws cp)) (base + 1) (byte_at ws (cp + 1)) in
    let first : byte_at ws cp ≡ f 0 = ap (byte_at ws) (omega arith) in
    let total : 2 + 2 * n ≡ 2 * suc n = omega arith in
    let later : ◌≡◌ {A = ℕ → ℕ} (λ i. byte_at ws (cp + 2 + i)) (λ i. f (2 + i)) =
      fun_ext λ i. ap (byte_at ws) (omega arith) in
    ap (λ b. (if b then ok true k else copyout n j (cp + 2) (base + 2) (record k { core = c1 })))
      (h base (omega arith) (omega arith))
    ∙ copyout_lem n j (cp + 2) (base + 2) (record k { core = c1 })
        (λ a p q. h a (omega arith) (omega arith))
    ∙ ap₂
        (λ (g : ℕ → ℕ) x. ok false (record k {
          core =
              poured g (base + 2) (2 * n)
                (put (put k.core base x) (base + 1) (byte_at ws (cp + 1)));
        }))
        later first
    ∙ ap (λ c. ok false (record k { core = c }))
        (put-poured f base (2 * n) k.core ∙ ap (λ t. poured f base t k.core) total)

pub move_on-advanced : (n : ℕ) (k : Kernel) → Fits k n → move_on n k ≡ advanced n k
move_on-advanced n k h = ground arith

-- Where the transfer fits, `iomove` by words and by bytes do the same.
pub iomove_read_lem :
    (j o n : ℕ) (k : Kernel)
    → Fits k n
    → iomove_read j o n k ≡ ok tt (progress (λ i. byte_at (k.buf j).data_words (o + i)) n k)
unfolding iomove_read moved
iomove_read_lem j o n k h =
    let f : ℕ → ℕ = λ i. byte_at (k.buf j).data_words (o + i) in
    elim (Bool-cases (by_words n o k.u_base)) [
      | inr e ↦ rw e (pass_bytes_lem n j o k h)
      | inl e ↦
          let even : 2 * (n / 2) ≡ n = ground arith in
          rw e (
            ap (λ r. and_then r (moved n))
              (copyout_lem (n / 2) j o k.u_base k
                  (λ a p q. h.here a p (omega (arith, even, h.asked)))
                ∙ ap (λ t. ok false (record k { core = poured f k.u_base t k.core })) even)
            ∙ ap (λ (x : Kernel). ok tt (record x { core = poured f k.u_base n k.core }))
                (move_on-advanced n k h))
    ]
