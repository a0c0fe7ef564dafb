-- ===== src/Kernel/Iomove/In.antt =====
-- `iomove` with `B_WRITE`, where no access traps: bytes of the memory come into the buffer.
use bkunix.Prelude.{
  ℕ, zero, suc, ◌+◌, ◌-◌, ◌*◌, ◌/◌, ◌%◌, ◌≤◌, ◌<◌, ◌≡◌, refl, ap, ap₂, ◌∙◌, sym, inl, inr, false,
  List, ◌&&◌, arith,
}
use mathlib.Core.Path.{fun_ext, subst}
use bkunix.Prelude.Tests.{ltb, leb, ◌==◌, if◌then◌else◌, Bool-cases, ne→==, ==_iff}
use bkunix.Prelude.Lists.{length, set, length-set}
use bkunix.Prelude.Run.{ok, and_then}
use bkunix.Kernel.State.{Buf, Kernel}
use bkunix.Kernel.Bio.{put}
use bkunix.Kernel.Iomove.{
  byte_at, set_byte, core_word, traps, picked, fubyte, cpass, copyin, pick_bytes, moved, by_words,
  iomove_write,
}
use bkunix.Kernel.Iomove.Words.{byte_at-set_byte, length-set_byte, set_byte-set_byte}
use bkunix.Kernel.Iomove.Progress.{
  advanced, Fits, advanced-advanced, Fits-advanced, Fits-buf, advanced-zero, step_on-advanced,
  Fits-one, no_trap,
}
use bkunix.Kernel.Iomove.Out.{move_on-advanced}
use bkunix.Kernel.Bio.Cache.{put_self}
use bkunix.Kernel.Bio.Transfer.{put-put}
use bkunix.Kernel.Bio.Release.{edited}

-- the words with `n` bytes of the memory, from the address `base` on, put in at the byte `cp`
unfoldable pub soaked : (ℕ → ℕ) → ℕ → ℕ → ℕ → List ℕ → List ℕ
soaked core base cp zero ws = ws
soaked core base cp (suc n) ws = soaked core (base + 1) (cp + 1) n (set_byte ws cp (core base))

pub length-soaked :
    (core : ℕ → ℕ) (base cp n : ℕ) (ws : List ℕ) → length (soaked core base cp n ws) ≡ length ws
unfolding soaked
length-soaked core base cp zero ws = refl
length-soaked core base cp (suc n) ws =
    length-soaked core (base + 1) (cp + 1) n (set_byte ws cp (core base))
    ∙ length-set_byte ws cp (core base)

-- Each byte of the buffer behind the transfer.
pub byte_at-soaked :
    (core : ℕ → ℕ) (base cp n : ℕ) (ws : List ℕ) (i : ℕ)
    → cp + n ≤ 2 * length ws
    → byte_at (soaked core base cp n ws) i
      ≡ (if leb cp i && ltb i (cp + n) then core (base + (i - cp)) % 256 else byte_at ws i)
unfolding soaked
byte_at-soaked core base cp zero ws i h =
    let e : false ≡ (leb cp i && ltb i (cp + 0)) = ground arith in
    ap (λ b. if b then core (base + (i - cp)) % 256 else byte_at ws i) e
byte_at-soaked core base cp (suc n) ws i h = ground (
  arith,
  byte_at-soaked core (base + 1) (cp + 1) n (set_byte ws cp (core base)) i
      (omega (arith, length-set_byte ws cp (core base))),
  byte_at-set_byte ws cp (core base) i (omega arith),
)

-- the buffer `j` with the words `xs`, and the arguments behind `n` bytes
abbrev pub absorbed : ℕ → ℕ → List ℕ → Kernel → Kernel
absorbed n j xs k = advanced n (edited j xs k)

put_same : {A : Type 0} (f : ℕ → A) (j : ℕ) → put f j (f j) ≡ f
put_same f j =
    fun_ext λ i. elim (Bool-cases (i == j)) [
      | inl e ↦ rw e (ap f (sym ((==_iff i j).0 e)))
      | inr e ↦ rw e
    ]

set_byte-mod : (ws : List ℕ) (i c : ℕ) → set_byte ws i (c % 256) ≡ set_byte ws i c
set_byte-mod ws i c = ap (set ws (i / 2)) (ground arith)

pick_bytes_step :
    (n j cp : ℕ) (k : Kernel)
    → Fits k 1
    → pick_bytes (suc n) j cp k
      ≡ pick_bytes n j
          (cp + 1)
          (absorbed 1 j (set_byte (k.buf j).data_words cp (k.core k.u_base)) k)
unfolding pick_bytes cpass picked fubyte
pick_bytes_step n j cp k h =
    rw (ne→== k.u_count 0 (omega (arith, h.asked)), no_trap 0 h)
      (ap₂ (λ (x : Kernel) xs. pick_bytes n j (cp + 1) (edited j xs x)) (step_on-advanced k h)
        (set_byte-mod (k.buf j).data_words cp (k.core k.u_base)))

pub edited-edited :
    (j : ℕ) (xs ys : List ℕ) (k : Kernel) → edited j xs (edited j ys k) ≡ edited j xs k
edited-edited j xs ys k =
    let b1 = record (k.buf j) { data_words = ys } in
    ap (λ (b : Buf). record k { buf = put (put k.buf j b1) j (record b { data_words = xs }) })
      (put_self k.buf j b1)
    ∙ ap (λ f. record k { buf = f }) (put-put k.buf j b1 (record (k.buf j) { data_words = xs }))

pub edited_words : (j : ℕ) (xs : List ℕ) (k : Kernel) → ((edited j xs k).buf j).data_words ≡ xs
edited_words j xs k =
    ap (λ (b : Buf). b.data_words) (put_self k.buf j (record (k.buf j) { data_words = xs }))

absorbed-zero : (j : ℕ) (k : Kernel) → k.u_offset1 < 65536 → absorbed 0 j (k.buf j).data_words k ≡ k
absorbed-zero j k h =
    advanced-zero (edited j (k.buf j).data_words k) h
    ∙ ap (λ f. record k { buf = f }) (put_same k.buf j)

absorbed-rest :
    (n j : ℕ) (xs ys : List ℕ) (k : Kernel)
    → Fits k (suc n)
    → absorbed n j xs (absorbed 1 j ys k) ≡ absorbed (suc n) j xs k
absorbed-rest n j xs ys k h =
    let total : 1 + n ≡ suc n = omega arith in
    ap (λ x. advanced n (advanced 1 x)) (edited-edited j xs ys k)
    ∙ advanced-advanced (edited j xs k) 1 n
        (Fits-buf (edited j xs k).buf (subst (Fits k) (sym total) h))
    ∙ ap (λ t. absorbed t j xs k) total

pub pick_bytes_lem :
    (n j cp : ℕ) (k : Kernel)
    → Fits k n
    → pick_bytes n j cp k
      ≡ ok tt (absorbed n j (soaked k.core k.u_base cp n (k.buf j).data_words) k)
pick_bytes_lem zero j cp k h =
    unfold pick_bytes soaked in ap (ok tt) (sym (absorbed-zero j k h.low))
pick_bytes_lem (suc n) j cp k h =
    let ws1 = set_byte (k.buf j).data_words cp (k.core k.u_base) in
    let k1 = absorbed 1 j ws1 k in
    let rest : Fits k1 n = Fits-buf k1.buf (Fits-advanced 1 n (subst (Fits k) (omega arith) h)) in
    pick_bytes_step n j cp k (Fits-one n h)
    ∙ pick_bytes_lem n j (cp + 1) k1 rest
    ∙ ap (λ ws. ok tt (absorbed n j (soaked k.core (k.u_base + 1) (cp + 1) n ws) k1))
        (edited_words j ws1 k)
    ∙ ap (ok tt) (absorbed-rest n j (soaked k.core (k.u_base + 1) (cp + 1) n ws1) ws1 k h)
    ∙ unfold soaked in refl

-- words written
soaked-word :
    (core : ℕ → ℕ) (base cp n : ℕ) (ws : List ℕ)
    → cp % 2 ≡ 0
    → cp / 2 < length ws
    → soaked core (base + 2) (cp + 2) (2 * n) (set ws (cp / 2) (core_word core base))
      ≡ soaked core base cp (2 * suc n) ws
unfolding soaked
soaked-word core base cp n ws e h =
    let total : suc (suc (2 * n)) ≡ 2 * suc n = omega arith in
    let at : base + 1 + 1 ≡ base + 2 = omega arith in
    let to : cp + 1 + 1 ≡ cp + 2 = omega arith in
    ap (soaked core (base + 2) (cp + 2) (2 * n)) (sym (set_byte-set_byte ws core cp base e h))
    ∙ ap₂
        (λ b c.
          soaked core b c (2 * n)
            (set_byte (set_byte ws cp (core base)) (cp + 1) (core (base + 1))))
        (sym at) (sym to)
    ∙ ap (λ t. soaked core base cp t ws) total

copyin_step :
    (n j cp base : ℕ) (k : Kernel)
    → traps k base ≡ false
    → copyin (suc n) j cp base k
      ≡ copyin n j
          (cp + 2)
          (base + 2)
          (edited j (set (k.buf j).data_words (cp / 2) (core_word k.core base)) k)
unfolding copyin
copyin_step n j cp base k h = rw h refl

copyin_lem :
    (n j cp base : ℕ) (k : Kernel)
    → cp % 2 ≡ 0
    → cp + 2 * n ≤ 2 * length (k.buf j).data_words
    → ((a : ℕ) → base ≤ a → a < base + 2 * n → traps k a ≡ false)
    → copyin n j cp base k
      ≡ ok false (edited j (soaked k.core base cp (2 * n) (k.buf j).data_words) k)
copyin_lem zero j cp base k e room h =
    unfold copyin soaked in ap (λ f. ok false (record k { buf = f })) (sym (put_same k.buf j))
copyin_lem (suc n) j cp base k e room h =
    let ws = (k.buf j).data_words in
    let ws1 = set ws (cp / 2) (core_word k.core base) in
    let k1 = edited j ws1 k in
    let words = edited_words j ws1 k in
    copyin_step n j cp base k (h base (omega arith) (omega arith))
    ∙ copyin_lem n j (cp + 2) (base + 2) k1 (omega arith)
        (subst (λ t. cp + 2 + 2 * n ≤ 2 * length t) (sym words)
          (omega (arith, length-set ws (cp / 2) (core_word k.core base))))
        (λ a p q. h a (omega arith) (omega arith))
    ∙ ap (λ t. ok false (edited j (soaked k.core (base + 2) (cp + 2) (2 * n) t) k1)) words
    ∙ ap (ok false) (edited-edited j (soaked k.core (base + 2) (cp + 2) (2 * n) ws1) ws1 k)
    ∙ ap (λ t. ok false (edited j t k)) (soaked-word k.core base cp n ws e (omega arith))

-- Where the transfer fits, `iomove` by words and by bytes do the same.
pub iomove_write_lem :
    (j o n : ℕ) (k : Kernel)
    → Fits k n
    → o + n ≤ 2 * length (k.buf j).data_words
    → iomove_write j o n k
      ≡ ok tt (absorbed n j (soaked k.core k.u_base o n (k.buf j).data_words) k)
unfolding iomove_write moved
iomove_write_lem j o n k h room =
    let ws = (k.buf j).data_words in
    elim (Bool-cases (by_words n o k.u_base)) [
      | inr e ↦ rw e (pick_bytes_lem n j o k h)
      | inl e ↦
          let even : 2 * (n / 2) ≡ n = ground arith in
          let start : o % 2 ≡ 0 = ground arith in
          let k1 = edited j (soaked k.core k.u_base o n ws) k in
          rw e (
            ap (λ r. and_then r (moved n))
              (copyin_lem (n / 2) j o k.u_base k start (omega (arith, even, room))
                  (λ a p q. h.here a p (omega (arith, even, h.asked)))
                ∙ ap (λ t. ok false (edited j (soaked k.core k.u_base o t ws) k)) even)
            ∙ ap (ok tt) (move_on-advanced n k1 (Fits-buf k1.buf h)))
    ]
