-- ===== src/Kernel/Iget/Refs.antt =====
-- `iput` where it is not the last reference, and `iget` and `iput` of an inode that is not in core.
use bkunix.Prelude.{
  ℕ, zero, suc, ◌+◌, ◌%◌, ◌<◌, ◌≡◌, ◌≢◌, refl, sym, ap, ◌∙◌, false, none, some, arith,
}
use mathlib.Core.Path.{subst}
use bkunix.Prelude.Tests.{eq→==, ne→==}
use bkunix.Prelude.Run.{ok}
use bkunix.Kernel.State.{Inode, Kernel, nodev}
use bkunix.Prelude.Lists.{drop}
use bkunix.Kernel.Bio.View.{Blocks, Represents, Represents-beside, beside}
use bkunix.Kernel.Iget.Store.{read_inode_lem}
use bkunix.Kernel.Bio.Cache.{put_self}
use bkunix.Kernel.Bio.Transfer.{put-put}
use bkunix.Kernel.Iget.{
  set_inode, spare, is_inode, no_links, iupdat, inode_block, inode_word, with_words, find_inode,
  iput,
}
use bkunix.Kernel.Iget.Lookup.{at_slot, iget_rounds, iget}

-- the inode with another count
abbrev pub recounted : ℕ → Inode → Inode
recounted n x = record x { count = n }

-- Where it is not the last reference, `iput` counts down and does no more.
pub iput_lem :
    (k : Kernel) (p : ℕ)
    → (k.inode p).count ≢ 1
    → iput p k ≡ ok tt (set_inode p (recounted (((k.inode p).count + 255) % 256) (k.inode p)) k)
unfolding iput
iput_lem k p h = rw (ne→== (k.inode p).count 1 h) refl

-- The entry `p` is free, and is the one that `iget` takes for the inode, which no entry has.
pub record Spare (k : Kernel) (p dev ino : ℕ) : Type 0 where
  pub index : p < 20
  pub absent : (q : ℕ) → q < 20 → is_inode dev ino (k.inode q) ≡ false
  pub before : (q : ℕ) → q < p → (k.inode q).count ≢ 0
  pub unused : (k.inode p).count ≡ 0
  pub unchanged : (k.inode p).upd ≡ false

-- The search goes on behind an entry that is in use, and keeps the first one that is free.
find_inode-kept :
    (f : ℕ → Inode) (dev ino n i p : ℕ)
    → ((q : ℕ) → q < n → is_inode dev ino (f (i + q)) ≡ false)
    → find_inode f dev ino n i (some p) ≡ spare p
unfolding find_inode
find_inode-kept f dev ino zero i p absent = refl
find_inode-kept f dev ino (suc n) i p absent =
    let at : i + 0 ≡ i = omega arith in
    rw (subst (λ t. is_inode dev ino (f t) ≡ false) at (absent 0 (omega arith))) (
      find_inode-kept f dev ino n (i + 1) p (λ q h.
        subst (λ t. is_inode dev ino (f t) ≡ false) (omega arith) (absent (suc q) (omega arith))))

find_inode-spare :
    (f : ℕ → Inode) (dev ino n i p : ℕ)
    → p < n
    → ((q : ℕ) → q < n → is_inode dev ino (f (i + q)) ≡ false)
    → ((q : ℕ) → q < p → (f (i + q)).count ≢ 0)
    → (f (i + p)).count ≡ 0
    → find_inode f dev ino n i none ≡ spare (i + p)
unfolding find_inode
find_inode-spare f dev ino zero i p h absent used free = absurd (omega arith)
find_inode-spare f dev ino (suc n) i zero h absent used free =
    let at : i + 0 ≡ i = omega arith in
    let here = subst (λ t. is_inode dev ino (f t) ≡ false) at (absent 0 (omega arith)) in
    let empty = subst (λ t. (f t).count ≡ 0) at free in
    rw (here, eq→== (f i).count 0 empty)
      (find_inode-kept f dev ino n (i + 1) i (λ q h.
          subst (λ t. is_inode dev ino (f t) ≡ false) (omega arith) (absent (suc q) (omega arith)))
        ∙ ap spare (sym at))
find_inode-spare f dev ino (suc n) i (suc p) h absent used free =
    let at : i + 0 ≡ i = omega arith in
    let e : (q : ℕ) → i + suc q ≡ i + 1 + q = λ q. omega arith in
    let here = subst (λ t. is_inode dev ino (f t) ≡ false) at (absent 0 (omega arith)) in
    let full = subst (λ t. (f t).count ≢ 0) at (used 0 (omega arith)) in
    rw (here, ne→== (f i).count 0 full)
      (find_inode-spare f dev ino n (i + 1) p (omega arith)
          (λ q lt. subst (λ t. is_inode dev ino (f t) ≡ false) (e q) (absent (suc q) (omega arith)))
          (λ q lt. subst (λ t. (f t).count ≢ 0) (e q) (used (suc q) (omega arith)))
          (subst (λ t. (f t).count ≡ 0) (e p) free)
        ∙ ap spare (sym (e p)))

-- the entry behind `iput` of its last reference
abbrev pub given_back : Inode → Inode
given_back x = record x {
  upd = false;
  mounted_on = false;
  number = 0;
  count = (x.count + 255) % 256;
}

-- Where the last reference goes, of an inode that has links and is not to be written, `iput` makes no
-- transfer.
iput-last :
    (k : Kernel) (p : ℕ)
    → (k.inode p).count ≡ 1
    → no_links (k.inode p) ≡ false
    → (k.inode p).upd ≡ false
    → iput p k ≡ ok tt (set_inode p (given_back (k.inode p)) k)
unfolding iput iupdat
iput-last k p one links clean =
    let x = k.inode p in
    let y = record x { upd = false; mounted_on = false; number = 0 } in
    rw (eq→== x.count 1 one, links, clean)
      (ap
          (λ (t : Inode).
            ok tt (set_inode p (recounted ((t.count + 255) % 256) t) (set_inode p y k)))
          (put_self k.inode p y)
        ∙ ap (λ f. ok tt (record k { inode = f })) (put-put k.inode p y (given_back x)))

-- the entry that has the inode, read from its block, and one reference
abbrev pub fetched : Blocks → ℕ → ℕ → Inode → Inode
fetched a dev ino x =
    with_words (drop (inode_word ino) (a dev (inode_block ino)))
      (record x { dev = dev; number = ino; count = 1 })

-- In a state that represents the blocks `a`, with a free entry `p` that is the first one, for an inode
-- of a device that no entry has, whose block is below 500 and which has links: `iget` ends with the
-- entry, filled with the words of the inode and with one reference, and `iput` takes it back: the
-- entry is free again, and neither of them changes another entry, another table or a block.
pub iput-iget :
    (k : Kernel) (a : Blocks) (p dev ino : ℕ)
    → Represents k a
    → Spare k p dev ino
    → dev ≢ nodev
    → inode_block ino < 500
    → no_links (with_words (drop (inode_word ino) (a dev (inode_block ino))) (k.inode p)) ≡ false
    → (k1 : Kernel) × (k2 : Kernel) × (iget dev ino k ≡ ok (some p) k1)
      × (iput p k1 ≡ ok tt k2)
      × Represents k1 a
      × Represents k2 a
      × (k1 ≡ beside k1 (set_inode p (fetched a dev ino (k.inode p)) k))
      × (k2 ≡ beside k2 (set_inode p (given_back (fetched a dev ino (k.inode p))) k))
unfolding iget iget_rounds at_slot with_words no_links
iput-iget k a p dev ino r s on_disk small links =
    let x = fetched a dev ino (k.inode p) in
    let (k1, call, r1, same) = read_inode_lem k a r p dev ino on_disk small in
    let first : 0 + p ≡ p = omega arith in
    let found : find_inode k.inode dev ino 20 0 none ≡ spare p =
      find_inode-spare k.inode dev ino 20 0 p s.index
        (λ q h. subst (λ t. is_inode dev ino (k.inode t) ≡ false) (omega arith) (s.absent q h))
        (λ q h. subst (λ t. (k.inode t).count ≢ 0) (omega arith) (s.before q h))
        (subst (λ t. (k.inode t).count ≡ 0) (omega arith) s.unused)
      ∙ ap spare first in
    let same1 : k1 ≡ beside k1 (set_inode p x k) =
      same ∙ ap (λ n. beside k1 (set_inode p (with_count n) k)) (omega (arith, s.unused)) in
    let now : k1.inode p ≡ x = ap (λ (t : Kernel). t.inode p) same1 ∙ put_self k.inode p x in
    let k2 = set_inode p (given_back (k1.inode p)) k1 in
    (
      k1,
      k2,
      ap (λ t. at_slot (λ d. iget_rounds 2 d 1) dev ino t k) found ∙ call,
      iput-last k1 p (ap (λ (t : Inode). t.count) now) (ap no_links now ∙ links)
          (ap (λ (t : Inode). t.upd) now ∙ s.unchanged),
      r1,
      Represents-beside k1 k2 r1,
      same1,
      ap (λ t. beside k2 (set_inode p (given_back (t.inode p)) t)) same1
          ∙ ap (λ y. beside k2 (set_inode p (given_back y) (set_inode p x k)))
              (put_self k.inode p x)
          ∙ ap (λ f. beside k2 (record k { inode = f })) (put-put k.inode p x (given_back x)),
    )
  where
    with_count : ℕ → Inode
    with_count n =
        with_words (drop (inode_word ino) (a dev (inode_block ino)))
          (record (k.inode p) { dev = dev; number = ino; count = n })
