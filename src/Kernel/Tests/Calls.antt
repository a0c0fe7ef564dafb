-- ===== src/Kernel/Tests/Calls.antt =====
-- Runs of the transfers between a file and the memory of the process.
use bkunix.Prelude.{
  ℕ, inl, inr, ◌∙◌, zero, suc, ◌+◌, ◌*◌, ◌%◌, ◌≤◌, ◌<◌, ◌≡◌, ◌≢◌, refl, none, some, List, [], ◌∷◌,
  arith,
}
use bkunix.Prelude.Lists.{get_or, replicate}
use bkunix.Prelude.Tests.{leb, Bool-cases}
use bkunix.Prelude.Run.{ok}
use bkunix.Kernel.State.{Buf, Inode, File, Kernel, nodev}
use bkunix.Kernel.Bio.View.{Blocks, Represents, Represents-beside, beside}
use bkunix.Kernel.Bio.{set_buf}
use bkunix.Kernel.Bio.Start.{cleared_buf}
use bkunix.Kernel.Bio.Sized.{Sized, set_buf-Sized}
use bkunix.Kernel.Wide.{wide}
use bkunix.Kernel.Iget.Bmap.Lookup.{block_of}
use bkunix.Kernel.Iomove.Progress.{Fits, progress}
use bkunix.Kernel.Rdwr.{readi, writei}
use bkunix.Kernel.Rdwr.File.{HasBlocks}
use bkunix.Kernel.Rdwr.Read.{Readable, from_offset}
use bkunix.Kernel.Rdwr.Wrote.{Separate, Wrote}
use bkunix.Kernel.Rdwr.Size.{behind}
use bkunix.Kernel.Rdwr.Buffer.{given_bytes}
use bkunix.Kernel.Rdwr.Write.{Writable}
use bkunix.Kernel.Rdwr.Cycle.{rewound, readi-writei}
use bkunix.Kernel.Files.{open_file, file_at}
use bkunix.Kernel.Sys.{called, shifted_file, read, write}
use bkunix.Kernel.Sys.Read.{accounted, read_lem, write_lem}
use bkunix.Kernel.Tests.{running, loaded_kernel, no_inode, no_file, running-Represents}

-- Inode 4 is a file of ten bytes in block 30, which is open as file 0 for reading and writing; the
-- process asks to move four bytes at the address 100.
abbrev pub data_inode : Inode
data_inode = record no_inode {
  count = 1;
  number = 4;
  mode = 32768;
  nlink = 1;
  size1 = 10;
  addr = 30 ∷ replicate 7 0;
}

abbrev data_file : File
data_file = record no_file { flag = 3; count = 1 }

abbrev calling : Kernel
calling = record running {
  inode = λ p. data_inode;
  file = data_file ∷ replicate 19 no_file;
  u_ofile = some 0 ∷ replicate 14 none;
  u_arg = 100 ∷ 4 ∷ 0 ∷ 0 ∷ 0 ∷ [];
  core = λ a. a % 256;
}

abbrev pub asking : Kernel
asking = called data_file calling

abbrev pub held : Blocks
held = loaded_kernel.medium.contents

asking-Represents : Represents asking held
asking-Represents = Represents-beside running asking running-Represents

-- a buffer that stands for no block
abbrev no_block : Buf
no_block = record (cleared_buf (replicate 256 0)) { dev = nodev }

loaded_kernel-Sized : Sized loaded_kernel
loaded_kernel-Sized = record { bufs = λ i. refl; blocks = λ d n. refl; junk = refl }

abbrev with_no_block : ℕ → Kernel → Kernel
with_no_block j k = set_buf j no_block k

unset-Sized : (j : ℕ) (k : Kernel) → Sized k → Sized (with_no_block j k)
unset-Sized j k s = set_buf-Sized j no_block k s refl

pub asking-Sized : Sized asking
asking-Sized =
    let k = loaded_kernel in
    let k0 = with_no_block 0 k in
    let k1 = with_no_block 1 k0 in
    let k2 = with_no_block 2 k1 in
    let k3 = with_no_block 3 k2 in
    let k4 = with_no_block 4 k3 in
    let s = unset-Sized 5 k4 (
      unset-Sized 4 k3 (
        unset-Sized 3 k2
          (unset-Sized 2 k1 (unset-Sized 1 k0 (unset-Sized 0 k loaded_kernel-Sized))))) in
    record { bufs = s.bufs; blocks = s.blocks; junk = s.junk }

abbrev pub zeros : ℕ → List ℕ
zeros n = replicate n 0

pub zero_at : (n i : ℕ) → get_or (zeros n) i 0 ≡ 0
zero_at zero i = refl
zero_at (suc n) zero = refl
zero_at (suc n) (suc i) = zero_at n i

-- The file has one block.
only_block : (m : ℕ) → block_of held data_inode (suc m) ≡ 0
only_block m = elim (Bool-cases (leb 8 (suc m))) [ inl e ↦ rw e refl | inr e ↦ rw e (zero_at 7 m) ]

below_500 : (i : ℕ) → get_or data_inode.addr i 0 < 500
below_500 zero = omega arith
below_500 (suc i) = omega (arith, zero_at 7 i)

few_blocks : (m : ℕ) → block_of held data_inode m < 500
few_blocks zero = omega arith
few_blocks (suc m) = omega (arith, only_block m)

first_block : (lim m : ℕ) → lim ≤ 512 → m * 512 < lim → block_of held data_inode m ≢ 0
first_block lim zero h p e = absurd (omega arith)
first_block lim (suc m) h p e = absurd (omega arith)

pub data_inode-HasBlocks : (lim : ℕ) → lim ≤ 512 → HasBlocks held data_inode lim
data_inode-HasBlocks lim h = record {
  no_char = refl;
  no_block = refl;
  on_disk = λ t. omega arith;
  addresses = below_500;
  small = few_blocks;
  present = λ m p. first_block lim m h p;
  size = omega arith;
  limit = omega arith;
}

pub one_place :
    (m n : ℕ)
    → block_of held data_inode m ≢ 0
    → block_of held data_inode m ≡ block_of held data_inode n
    → m ≡ n
one_place zero zero h e = refl
one_place zero (suc n) h e = absurd (h (e ∙ only_block n))
one_place (suc m) n h e = absurd (h (only_block m))

data_inode-Separate : Separate held data_inode
data_inode-Separate = record { once = one_place; apart = λ m i e h. absurd (cc e) }

asking-Fits : Fits asking 0
asking-Fits = record {
  asked = omega arith;
  count = omega arith;
  room = omega arith;
  low = omega arith;
  offset = omega arith;
  here = λ a p q. refl;
}

asking-Writable : Writable asking held 0
asking-Writable = record {
  blocks = asking-Represents;
  words = asking-Sized;
  file = data_inode-HasBlocks 4 (omega arith);
  separate = data_inode-Separate;
  plain = refl;
  byte = omega arith;
  fits = asking-Fits;
  no_error = refl;
}

asking-Readable : Readable asking held 0
asking-Readable = record {
  blocks = asking-Represents;
  file = data_inode-HasBlocks 10 (omega arith);
  fits = asking-Fits;
  no_error = refl;
  near = omega arith;
}

readi-writei_example :
    (k1 : Kernel) × (k2 : Kernel) × (writei (λ k. ok tt k) 0 asking ≡ ok tt k1)
    × (readi (λ k. ok tt k) 0 (rewound 200 3 asking k1) ≡ ok tt k2)
    × ((i : ℕ) → i < 3 → k2.core (200 + i) ≡ asking.core (100 + i) % 256)
readi-writei_example =
    readi-writei asking held 0 200 3 asking-Writable (data_inode-HasBlocks 10 (omega arith))
      (omega arith) (omega arith) (λ t p q. refl) (λ k. ok tt k) (λ k. ok tt k) (omega arith)

write_lem_example :
    (k' : Kernel) × (a' : Blocks) × (write (λ k. ok tt k) (λ k. ok tt k) calling ≡ ok tt k')
    × Represents k' a'
    × Wrote held a' data_inode 0 4 (given_bytes asking)
    × (k' ≡ beside k' (accounted 0 data_file 4 (behind 0 4 asking)))
    × (wide (shifted_file 4 data_file).offset0 (shifted_file 4 data_file).offset1 ≡ 4)
unfolding open_file file_at
write_lem_example =
    write_lem (λ k. ok tt k) (λ k. ok tt k) calling 0 data_file refl refl held (λ t. omega arith)
      asking-Writable (omega arith)

read_lem_example :
    (k' : Kernel) × (read (λ k. ok tt k) (λ k. ok tt k) calling ≡ ok tt k')
    × Represents k' held
    × (k'
        ≡ beside k'
            (accounted 0 data_file 4 (progress (from_offset held asking data_inode) 4 asking)))
    × (wide (shifted_file 4 data_file).offset0 (shifted_file 4 data_file).offset1 ≡ 4)
unfolding open_file file_at
read_lem_example =
    read_lem (λ k. ok tt k) (λ k. ok tt k) calling 0 data_file refl refl held (λ t. omega arith)
      asking-Readable
