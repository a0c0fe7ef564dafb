-- ===== src/Prelude/Run.antt =====
-- The outcome of a C function over a state that it updates in place. Every function modelled here
-- reports failure by returning 0, so `fail` is "returned 0", with the state as it was left, and
-- `ok v` is "returned a non-zero result", `v` being the result or what went through an out
-- parameter. `fault` is undefined behaviour: an array index out of range.
use mathlib.Core.Bool.{Bool, true, false}
use mathlib.Core.Path.{◌≡◌}

pub data Run (S A : Type 0) : Type 0 where
  ok : A → S → Run S A
  fail : S → Run S A
  fault : Run S A

abbrev pub Cmd : Type 0 → Type 0 → Type 0
Cmd S A = S → Run S A

module _ {S : Type 0} where
  abbrev pub pure : {A : Type 0} → A → Cmd S A
  pure = ok

  abbrev pub return_0 : {A : Type 0} → Cmd S A
  return_0 = fail

  abbrev pub and_then : {A B : Type 0} → Run S A → (A → Cmd S B) → Run S B
  and_then (ok a s) k = k a s
  and_then (fail s) k = fail s
  and_then fault k = fault

  infixl 5 ◌>>=◌ ◌>>◌
  abbrev pub ◌>>=◌ : {A B : Type 0} → Cmd S A → (A → Cmd S B) → Cmd S B
  m >>= k = λ s. and_then (m s) k

  abbrev pub ◌>>◌ : {A B : Type 0} → Cmd S A → Cmd S B → Cmd S B
  m >> n = m >>= λ _. n

  abbrev pub get : Cmd S S
  get s = ok s s

  abbrev pub modify : (S → S) → Cmd S (Unit {0})
  modify f s = ok tt (f s)

  -- `if (! test) return 0;`
  abbrev pub guard : Bool → Cmd S (Unit {0})
  guard true s = ok tt s
  guard false s = fail s

  -- an index that C does not check
  abbrev pub in_range : Bool → Cmd S (Unit {0})
  in_range true s = ok tt s
  in_range false s = fault

  abbrev pub forget : {A : Type 0} → Run S A → Run S (Unit {0})
  forget (ok a s) = ok tt s
  forget (fail s) = ok tt s
  forget fault = fault

  -- a call whose result is not looked at
  abbrev pub ignore : {A : Type 0} → Cmd S A → Cmd S (Unit {0})
  ignore m s = forget (m s)

-- A guard whose test holds is no step.
pub guard-true :
    {S A : Type 0} (test : Bool) (k : Cmd S A) (s : S) → test ≡ true → (guard test >> k) s ≡ k s
guard-true test k s h = rw h

pub guard-false :
    {S A : Type 0} (test : Bool) (k : Cmd S A) (s : S) → test ≡ false → (guard test >> k) s ≡ fail s
guard-false test k s h = rw h

-- A command comes to an end without a fault, and its result, where it is not 0, is as `P` says.
abbrev pub EndsWith : {S A : Type 0} → (A → Type 0) → Run S A → Type 0
EndsWith P (ok a s) = P a
EndsWith P (fail s) = Unit {0}
EndsWith P fault = ⊥

-- the same with nothing said of the result
abbrev pub Finishes : {S A : Type 0} → Run S A → Type 0
Finishes = EndsWith (λ a. Unit {0})

-- A command behind one that comes to an end.
pub finish_then :
    {S A B : Type 0} (Q : B → Type 0) (r : Run S A) (k : A → Cmd S B)
    → Finishes r
    → ((a : A) (s : S) → EndsWith Q (k a s))
    → EndsWith Q (and_then r k)
finish_then Q (ok a s) k h next = next a s
finish_then Q (fail s) k h next = tt
finish_then Q fault k h next = absurd h

pub Finishes-forget : {S A : Type 0} (r : Run S A) → Finishes r → Finishes (forget r)
Finishes-forget (ok a s) h = tt
Finishes-forget (fail s) h = tt
Finishes-forget fault h = absurd h

pub EndsWith-weaker :
    {S A : Type 0} (P Q : A → Type 0) (r : Run S A)
    → ((a : A) → P a → Q a)
    → EndsWith P r
    → EndsWith Q r
EndsWith-weaker P Q (ok a s) f h = f a h
EndsWith-weaker P Q (fail s) f h = tt
EndsWith-weaker P Q fault f h = absurd h
