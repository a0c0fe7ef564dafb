-- ===== src/Fsutil/Inode/Enough.antt =====
-- `lsxfs_inode_read` comes to an end, and what it does to the buffer.
use bkunix.Prelude.{
  ℕ, zero, suc, ◌+◌, ◌-◌, ◌*◌, ◌/◌, ◌%◌, ◌≤◌, ◌≡◌, refl, ap, ◌∙◌, inl, inr, min, List, [], ◌∷◌,
  ◌++◌, arith,
}
use bkunix.Prelude.Tests.{ltb, ◌==◌, if◌then◌else◌, Bool-cases, eq→==}
use bkunix.Prelude.Lists.{get_or, length, take, drop, length-take}
use bkunix.Prelude.Run.{
  Run, ok, fail, fault, pure, ◌>>=◌, EndsWith, EndsWith-weaker, Finishes, finish_then,
}
use bkunix.Fsutil.State.{Fs, Inode, Node, u16, ulong}
use bkunix.Fsutil.Disk.{read_block}
use bkunix.Fsutil.Disk.Ends.{read_block-Finishes}
use bkunix.Fsutil.Block.{word_at}
use bkunix.Fsutil.Inode.{
  with_fs, on_fs, is_large, nonzero, map_large, map_block, overwrite, read_loop, inode_read,
}

with_fs-Finishes : {A : Type 0} (i : Inode) (r : Run Fs A) → Finishes r → Finishes (with_fs i r)
with_fs-Finishes i (ok a fs) h = tt
with_fs-Finishes i (fail fs) h = tt
with_fs-Finishes i fault h = absurd h

read-Finishes : (b : ℕ) (n : Node) → Finishes (on_fs (read_block b) n)
read-Finishes b n = with_fs-Finishes n.inode (read_block b n.fs) (read_block-Finishes b n.fs)

nonzero-Finishes : (v : ℕ) (n : Node) → Finishes (nonzero v n)
nonzero-Finishes v n = elim (Bool-cases (v == 0)) [ inl e ↦ rw e tt | inr e ↦ rw e tt ]

map_large-Finishes : (lbn : ℕ) (n : Node) → Finishes (map_large lbn n)
unfolding map_large
map_large-Finishes lbn n =
    let i = min 7 (lbn / 256) in
    let w = get_or n.inode.addr i 0 in
    finish_then _ (nonzero w n) _ (nonzero-Finishes w n) (λ first n1.
      finish_then _ (on_fs (read_block first) n1) _ (read-Finishes first n1) (λ block n2.
        finish_then _ _ _ (last_block i lbn block n2)
          (λ last n3. nonzero-Finishes (word_at last (lbn % 256 * 2)) n3)))
  where
    last_block :
        (i lbn : ℕ) (block : List ℕ) (n : Node)
        → Finishes (
            (if i == 7
                then (nonzero (word_at block ((lbn / 256 - 7) * 2)) >>= λ nb. on_fs (read_block nb))
                else pure block)
              n)
    last_block i lbn block n = elim (Bool-cases (i == 7)) [
      | inr e ↦ rw e tt
      | inl e ↦
          let v = word_at block ((lbn / 256 - 7) * 2) in
          rw e (finish_then _ (nonzero v n) _ (nonzero-Finishes v n) (λ nb n1. read-Finishes nb n1))
    ]

map_block-Finishes : (lbn : ℕ) (n : Node) → Finishes (map_block lbn n)
unfolding map_block
map_block-Finishes lbn n = elim (Bool-cases (ltb 0x7fff lbn)) [
  | inl e ↦ rw e tt
  | inr e ↦ elim (Bool-cases (is_large n.inode)) [
    | inl l ↦ rw (e, l) (map_large-Finishes lbn n)
    | inr l ↦ elim (Bool-cases (ltb 7 lbn)) [
      | inl f ↦ rw (e, l, f) tt
      | inr f ↦ rw (e, l, f) (nonzero-Finishes (get_or n.inode.addr lbn 0) n)
    ]
  ]
]

-- The buffer keeps its length, and the bytes from `m` on.
abbrev pub Same : ℕ → List ℕ → List ℕ → Type 0
Same m xs ys = (length ys ≡ length xs) × ((i : ℕ) → m ≤ i → get_or ys i 0 ≡ get_or xs i 0)

Same-self : (m : ℕ) (xs : List ℕ) → Same m xs xs
Same-self m xs = (refl, λ i h. refl)

length-laid :
    (xs from : List ℕ)
    → length from ≤ length xs
    → length (from ++ drop (length from) xs) ≡ length xs
length-laid xs [] h = refl
length-laid [] (y ∷ ys) h = absurd (omega arith)
length-laid (x ∷ xs) (y ∷ ys) h = ap suc (length-laid xs ys (omega arith))

get_or-laid :
    (xs from : List ℕ) (i : ℕ)
    → length from ≤ length xs
    → length from ≤ i
    → get_or (from ++ drop (length from) xs) i 0 ≡ get_or xs i 0
get_or-laid xs [] i h q = refl
get_or-laid [] (y ∷ ys) i h q = absurd (omega arith)
get_or-laid (x ∷ xs) (y ∷ ys) zero h q = absurd (omega arith)
get_or-laid (x ∷ xs) (y ∷ ys) (suc i) h q = get_or-laid xs ys i (omega arith) (omega arith)

Same-overwrite :
    (m : ℕ) (xs from : List ℕ)
    → length from ≤ length xs
    → length from ≤ m
    → Same m xs (overwrite xs 0 from)
unfolding overwrite
Same-overwrite m xs from h q =
    let e : 0 + length from ≡ length from = omega arith in
    rw e (length-laid xs from h, λ i r. get_or-laid xs from i h (omega arith))

Same-trans : (m : ℕ) (xs ys zs : List ℕ) → Same m xs ys → Same m ys zs → Same m xs zs
Same-trans m xs ys zs (l, b) (l', b') = (l' ∙ l, λ i h. b' i h ∙ b i h)

read_loop-EndsWith :
    (f offset bytes : ℕ) (buffer : List ℕ) (n : Node)
    → bytes ≤ f
    → bytes ≤ length buffer
    → EndsWith (Same 512 buffer) (read_loop f offset bytes buffer n)
unfolding read_loop
read_loop-EndsWith zero offset bytes buffer n h room =
    let e = eq→== bytes 0 (omega arith) in rw e (Same-self 512 buffer)
read_loop-EndsWith (suc f) offset bytes buffer n h room = elim (Bool-cases (bytes == 0)) [
  | inl e ↦ rw e (Same-self 512 buffer)
  | inr e ↦
      let inside = offset % 512 in
      let part = min (512 - inside) bytes in
      rw e (
        finish_then _ (map_block (u16 (offset / 512)) n) _
          (map_block-Finishes (u16 (offset / 512)) n)
          (λ bn n1. finish_then _ (on_fs (read_block bn) n1) _ (read-Finishes bn n1) (λ block n2.
            let from = take part (drop inside block) in
            let long : length from ≤ part = omega (arith, length-take part (drop inside block)) in
            let same = Same-overwrite 512 buffer from (omega arith) (omega arith) in
            let laid = overwrite buffer 0 from in
            EndsWith-weaker (Same 512 laid) (Same 512 buffer)
              (read_loop f (ulong (offset + part)) (bytes - part) laid n2)
              (λ ys t. Same-trans 512 buffer laid ys same t)
              (read_loop-EndsWith f (ulong (offset + part)) (bytes - part) laid n2
                (ground (arith, h)) (omega (arith, same.0, room))))))
]

-- Whatever stands on the image, `lsxfs_inode_read` of at most as many bytes as the buffer has comes to
-- an end in at most as many rounds as there are bytes, within the buffer, of which it leaves the bytes
-- from the first 512 on as they were.
pub inode_read-EndsWith :
    (offset bytes : ℕ) (buffer : List ℕ) (n : Node)
    → bytes ≤ length buffer
    → EndsWith (Same 512 buffer) (inode_read offset bytes buffer n)
unfolding inode_read
inode_read-EndsWith offset bytes buffer n room =
    elim (Bool-cases (ltb n.inode.size (ulong (bytes + offset)))) [
      | inl e ↦ rw e tt
      | inr e ↦ rw e (read_loop-EndsWith bytes offset bytes buffer n (omega arith) room)
    ]
