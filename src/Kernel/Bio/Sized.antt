-- ===== src/Kernel/Bio/Sized.antt =====
-- Each buffer and each block of a diskette has 256 words, whatever the functions of src/sys/bio.c do.
use bkunix.Prelude.{ℕ, ◌≡◌, inl, inr, Bool, true, false, none, List, not, ◌&&◌}
use bkunix.Prelude.Tests.{leb, ◌==◌, if◌then◌else◌, Bool-cases}
use bkunix.Prelude.Lists.{get_or, length}
use bkunix.Prelude.Run.{Run, Cmd, ok, fail, fault, and_then, ◌>>=◌}
use bkunix.Kernel.State.{Buf, Kernel, eio}
use mathlib.Core.Path.{subst}
use bkunix.Kernel.Bio.{
  set_buf, goes_well, write_medium, fdstrategy, iowait, brelse, bwrite, bdwrite, Place, hit, reuse,
  full, search_bufs, claim, reassign, take_place, getblk, bread,
}

pub record Sized (k : Kernel) : Type 0 where
  pub bufs : (i : ℕ) → length (k.buf i).data_words ≡ 256
  pub blocks : (d n : ℕ) → length (k.medium.contents d n) ≡ 256
  pub junk : length k.medium.junk ≡ 256

-- the result is a state in which the sizes are right, where there is one
abbrev pub EndsSized : {A : Type 0} → Run Kernel A → Type 0
EndsSized (ok a k) = Sized k
EndsSized (fail k) = Sized k
EndsSized fault = Unit {0}

bind-Sized :
    {A B : Type 0} (r : Run Kernel A) (f : A → Cmd Kernel B)
    → EndsSized r
    → ((a : A) (k : Kernel) → Sized k → EndsSized (f a k))
    → EndsSized (and_then r f)
bind-Sized (ok a k) f h g = g a k h
bind-Sized (fail k) f h g = h
bind-Sized fault f h g = tt

-- a buffer replaced by one whose words have the right number
pub set_buf-Sized :
    (j : ℕ) (b : Buf) (k : Kernel) → Sized k → length b.data_words ≡ 256 → Sized (set_buf j b k)
set_buf-Sized j b k s h = record {
  bufs = λ i. elim (Bool-cases (i == j)) [ inl e ↦ rw e h | inr e ↦ rw e (s.bufs i) ];
  blocks = s.blocks;
  junk = s.junk;
}

if-Sized :
    {A : Type 0} (b : Bool) (x y : Run Kernel A)
    → EndsSized x
    → EndsSized y
    → EndsSized (if b then x else y)
if-Sized true x y h g = h
if-Sized false x y h g = g

chosen-Sized :
    (b : Bool) (xs ys : List ℕ)
    → length xs ≡ 256
    → length ys ≡ 256
    → length (if b then xs else ys) ≡ 256
chosen-Sized true xs ys h g = h
chosen-Sized false xs ys h g = g

-- the three ways in which a transfer ends
failed_transfer : ℕ → Kernel → Kernel
failed_transfer j k =
    set_buf j
      (record (k.buf j) {
        done = true;
        error = true;
        data_words =
            if (k.buf j).rd && not (leb 500 (k.buf j).blkno)
            then k.medium.junk
            else (k.buf j).data_words;
      })
      k

read_transfer : ℕ → Kernel → Kernel
read_transfer j k =
    set_buf j
      (record (k.buf j) {
        done = true;
        data_words = k.medium.contents (k.buf j).dev (k.buf j).blkno;
      })
      k

write_transfer : ℕ → Kernel → Kernel
write_transfer j k = record (set_buf j (record (k.buf j) { done = true }) k) {
  medium = write_medium (k.buf j).dev (k.buf j).blkno (k.buf j).data_words k.medium;
}

write_transfer-Sized : (j : ℕ) (k : Kernel) → Sized k → Sized (write_transfer j k)
unfolding write_transfer
write_transfer-Sized j k s =
    let s' = set_buf-Sized j (record (k.buf j) { done = true }) k s (s.bufs j) in
    record {
      bufs = s'.bufs;
      blocks = λ d n.
          chosen-Sized (d == (k.buf j).dev && n == (k.buf j).blkno) (k.buf j).data_words
            (k.medium.contents d n) (s.bufs j) (s.blocks d n);
      junk = s.junk;
    }

fdstrategy-Sized : (j : ℕ) (k : Kernel) → Sized k → EndsSized (fdstrategy j k)
unfolding fdstrategy failed_transfer read_transfer write_transfer
fdstrategy-Sized j k s =
    let b = k.buf j in
    if-Sized (not (goes_well k b)) (ok tt (failed_transfer j k))
      (if b.rd then ok tt (read_transfer j k) else ok tt (write_transfer j k))
      (set_buf-Sized j _ k s
        (chosen-Sized (b.rd && not (leb 500 b.blkno)) k.medium.junk b.data_words s.junk (s.bufs j)))
      (if-Sized b.rd (ok tt (read_transfer j k)) (ok tt (write_transfer j k))
        (set_buf-Sized j _ k s (s.blocks b.dev b.blkno)) (write_transfer-Sized j k s))

iowait-Sized : (j : ℕ) (k : Kernel) → Sized k → EndsSized (iowait j k)
unfolding iowait
iowait-Sized j k s =
    if-Sized (k.buf j).error
      (ok tt (record k { u_error = if (k.buf j).err == 0 then eio else (k.buf j).err })) (ok tt k)
      (record { bufs = s.bufs; blocks = s.blocks; junk = s.junk }) s

pub brelse-Sized : (j : ℕ) (k : Kernel) → Sized k → EndsSized (brelse j k)
unfolding brelse
brelse-Sized j k s = set_buf-Sized j (record (k.buf j) { busy = false }) k s (s.bufs j)

pub bwrite-Sized : (j : ℕ) (k : Kernel) → Sized k → EndsSized (bwrite j k)
unfolding bwrite
bwrite-Sized j k s =
    let b' = record (k.buf j) { rd = false; done = false; error = false; delwri = false } in
    let k1 = set_buf j b' k in
    bind-Sized (fdstrategy j k1) (λ t. iowait j >>= λ t'. brelse j)
      (fdstrategy-Sized j k1 (set_buf-Sized j b' k s (s.bufs j)))
      λ t k2 s2.
        bind-Sized (iowait j k2) (λ t'. brelse j) (iowait-Sized j k2 s2)
          λ t' k3 s3. brelse-Sized j k3 s3

pub bdwrite-Sized : (j : ℕ) (k : Kernel) → Sized k → EndsSized (bdwrite j k)
unfolding bdwrite
bdwrite-Sized j k s =
    let b' = record (k.buf j) { delwri = true; done = true } in
    brelse-Sized j (set_buf j b' k) (set_buf-Sized j b' k s (s.bufs j))

claim-Sized : (i : ℕ) (k : Kernel) → Sized k → EndsSized (claim i k)
unfolding claim
claim-Sized i k s =
    let b' = record (k.buf (get_or k.bufp i 0)) { busy = true } in
    let s' = set_buf-Sized (get_or k.bufp i 0) b' k s (s.bufs (get_or k.bufp i 0)) in
    record { bufs = s'.bufs; blocks = s.blocks; junk = s.junk }

reassign-Sized : (d n j : ℕ) (k : Kernel) → Sized k → EndsSized (reassign d n j k)
unfolding reassign
reassign-Sized d n j k s =
    let give : (k' : Kernel)
        → Sized k'
        → Sized (
            set_buf j
              (record (k'.buf j) {
                rd = false;
                done = false;
                error = false;
                busy = false;
                delwri = false;
                blkno = n;
                dev = d;
              })
              k') =
      λ k' s'. set_buf-Sized j _ k' s' (s'.bufs j) in
    elim (Bool-cases (k.buf j).delwri) [
      | inl e ↦ rw e (bind-Sized (bwrite j k) _ (bwrite-Sized j k s) (λ t. give))
      | inr e ↦ rw e (give k s)
    ]

take_place-Sized : (d n : ℕ) (x : Place) (k : Kernel) → Sized k → EndsSized (take_place d n x k)
unfolding take_place
take_place-Sized d n full k s = tt
take_place-Sized d n (hit i) k s = claim-Sized i k s
take_place-Sized d n (reuse i) k s =
    bind-Sized (reassign d n (get_or k.bufp i 0) k) (λ t. claim i)
      (reassign-Sized d n (get_or k.bufp i 0) k s) λ t k' s'. claim-Sized i k' s'

pub getblk-Sized : (d n : ℕ) (k : Kernel) → Sized k → EndsSized (getblk d n k)
unfolding getblk
getblk-Sized d n k s = take_place-Sized d n (search_bufs k.buf d n k.bufp 0 none) k s

pub bread-Sized : (d n : ℕ) (k : Kernel) → Sized k → EndsSized (bread d n k)
unfolding bread
bread-Sized d n k s = bind-Sized (getblk d n k) _ (getblk-Sized d n k s) λ j k' s'.
    elim (Bool-cases (k'.buf j).done) [
      | inl e ↦ rw e s'
      | inr e ↦
          let b' = record (k'.buf j) { rd = true } in
          let k1 = set_buf j b' k' in
          rw e (
            bind-Sized (fdstrategy j k1) _
              (fdstrategy-Sized j k1 (set_buf-Sized j b' k' s' (s'.bufs j)))
              λ t k2 s2. bind-Sized (iowait j k2) _ (iowait-Sized j k2 s2) (λ t' k3 s3. s3))
    ]

-- The state behind a call that returns.
pub Sized-behind :
    {A : Type 0} (r : Run Kernel A) (a : A) (k : Kernel) → r ≡ ok a k → EndsSized r → Sized k
Sized-behind r a k e h = subst EndsSized e h
