-- ===== src/Fsutil/Names/Paths.antt =====
-- The path walk of `lsxfs_inode_by_name`: its rounds are enough, and the slashes in front of a path
-- do not count.
use bkunix.Prelude.{
  ℕ, zero, suc, ◌/◌, ◌≤◌, ◌≡◌, refl, ap, inl, inr, List, [], ◌∷◌, ◌||◌, not, arith,
}
use bkunix.Prelude.Tests.{◌==◌, if◌then◌else◌, Bool-cases}
use bkunix.Prelude.Lists.{length}
use bkunix.Prelude.Run.{Cmd, ◌>>=◌, ◌>>◌, guard}
use bkunix.Fsutil.State.{Fs, Inode, mode_fdir}
use bkunix.Fsutil.Inode.{file_type, inode_get}
use bkunix.Fsutil.Names.{
  Op, missing, entry, pad, skip_slashes, component, after_component, search_loop, at_end,
  delete_file, deletes, is_end, is_find, walk, inode_by_name,
}

length-skip_slashes : (name : List ℕ) → length (skip_slashes name) ≤ length name
unfolding skip_slashes
length-skip_slashes [] = omega arith
length-skip_slashes (c ∷ name) = ground (arith, length-skip_slashes name)

length-after_component : (name : List ℕ) → length (after_component name) ≤ length name
unfolding after_component
length-after_component [] = omega arith
length-after_component (c ∷ name) = ground (arith, length-after_component name)

-- what is left of a path after a round
abbrev rest_of : List ℕ → List ℕ
rest_of name = skip_slashes (after_component name)

-- A round takes at least a byte.
length-rest_of : (c : ℕ) (name : List ℕ) → length (rest_of (c ∷ name)) ≤ length name
unfolding skip_slashes after_component
length-rest_of c name = elim (Bool-cases (c == b'/')) [
  | inl e ↦ rw (e, e) (length-skip_slashes name)
  | inr e ↦
      rw e (omega (arith, length-skip_slashes (after_component name), length-after_component name))
]

-- a round of the walk, by what it goes on with
abbrev round : Op → Inode → List ℕ → (Inode → Cmd Fs Inode) → Cmd Fs Inode
round op dir name next_round = do
  guard (file_type dir == mode_fdir)
  let dbuf = pad 14 (component name)
  let rest = rest_of name
  found ← search_loop dir dbuf (dir.size / 16) 0
  elim found [
    | missing offset ↦ at_end op (is_end rest) dir offset dbuf
    | entry inum offset ↦
        (if deletes op (is_end rest)
          then delete_file dir offset inum
          else (inode_get inum >>= next_round))
  ]

-- Every number of rounds that is at least the length of the path gives the same walk.
walk_enough :
    (n m : ℕ) (op : Op) (dir : Inode) (name : List ℕ)
    → length name ≤ n
    → length name ≤ m
    → walk n op dir name ≡ walk m op dir name
unfolding walk
walk_enough zero zero op dir [] h k = refl
walk_enough zero (suc m) op dir [] h k = refl
walk_enough (suc n) zero op dir [] h k = refl
walk_enough (suc n) (suc m) op dir [] h k = refl
walk_enough zero m op dir (c ∷ name) h k = absurd (omega arith)
walk_enough (suc n) zero op dir (c ∷ name) h k = absurd (omega arith)
walk_enough (suc n) (suc m) op dir (c ∷ name) h k =
    let less = length-rest_of c name in
    let same : (λ next. walk n op next (rest_of (c ∷ name)))
        ≡ (λ next. walk m op next (rest_of (c ∷ name))) =
      λ i next.
        walk_enough n m op next (rest_of (c ∷ name)) (omega (arith, less)) (omega (arith, less))
          i in
    ap (round op dir (c ∷ name)) same

-- `lsxfs_inode_by_name`, by its walk
abbrev from_root : Op → List ℕ → (Inode → Cmd Fs Inode) → Cmd Fs Inode
from_root op path go = do root ← inode_get 1; guard (is_find op || not (is_end path)); go root

-- Any number of slashes may stand in front of a path: with one more, `lsxfs_inode_by_name` does the
-- same, whatever it is asked for.
inode_by_name-slash :
    (name : List ℕ) (op : Op) (fs : Fs)
    → inode_by_name (b'/' ∷ name) op fs ≡ inode_by_name name op fs
unfolding inode_by_name skip_slashes
inode_by_name-slash name op fs =
    let less = length-skip_slashes name in
    ap (λ k. from_root op (skip_slashes name) k fs)
      (λ i root.
        walk_enough (suc (length name)) (length name) op root (skip_slashes name)
          (omega (arith, less)) less i)

-- Every number of rounds that is at least the length of the path gives the same walk, and
-- `lsxfs_inode_by_name` does the same for a path with one more slash in front, whatever it is asked
-- for.
pub paths_enough :
    (n m : ℕ) (op : Op) (dir : Inode) (name : List ℕ) (fs : Fs)
    → length name ≤ n
    → length name ≤ m
    → (walk n op dir name ≡ walk m op dir name)
      × (inode_by_name (b'/' ∷ name) op fs ≡ inode_by_name name op fs)
paths_enough n m op dir name fs h k =
    (walk_enough n m op dir name h k, inode_by_name-slash name op fs)
