-- ===== src/Kernel/Tests/Entries.antt =====
-- Runs of the search of a directory, and of the making of an entry.
use bkunix.Prelude.{ℕ, zero, suc, ◌%◌, ◌<◌, ◌≡◌, refl, none, ◌∷◌, arith}
use bkunix.Prelude.Lists.{get_or, replicate}
use bkunix.Prelude.Run.{ok}
use bkunix.Kernel.State.{Inode, Kernel}
use bkunix.Kernel.Bio.View.{Represents, Represents-beside}
use bkunix.Kernel.Bio.Sized.{Sized}
use bkunix.Kernel.Iomove.Progress.{Fits}
use bkunix.Kernel.Rdwr.File.{HasBlocks}
use bkunix.Kernel.Rdwr.Wrote.{Separate}
use bkunix.Kernel.Rdwr.Write.{Writable}
use bkunix.Kernel.Names.{Found, present, search_dir, same_name, name_at}
use bkunix.Kernel.Names.Entries.{lookup, first_empty}
use bkunix.Kernel.Names.Search.{search_dir-lookup}
use bkunix.Kernel.Dirs.{wdir}
use bkunix.Kernel.Dirs.Enter.{entering, recounted-HasBlocks, Ready, search_dir-wdir}
use bkunix.Kernel.Tests.{running, running-Represents}
use bkunix.Kernel.Tests.Calls.{
  data_inode, held, zero_at, data_inode-HasBlocks, one_place, asking-Sized,
}

-- Inode 4 as a directory, and the name of fourteen zeros, which is that of its first entry.
abbrev dir_inode : Inode
dir_inode = record data_inode { mode = 49152 }

dir_inode-HasBlocks : HasBlocks held dir_inode 32
dir_inode-HasBlocks =
    let h = data_inode-HasBlocks 32 (omega arith) in
    record {
      no_char = refl;
      no_block = refl;
      on_disk = h.on_disk;
      addresses = h.addresses;
      small = h.small;
      present = h.present;
      size = h.size;
      limit = h.limit;
    }

abbrev searching : Kernel
searching = record running { inode = λ p. dir_inode; u_count = 2 }

search_dir-lookup_example :
    (r : Found) × (k' : Kernel) × (search_dir 2 0 none 0 searching ≡ ok r k')
    × Represents k' held
    × (k'.inode ≡ searching.inode)
    × (k'.u_error ≡ 0)
    × ((r ≡ present) × (k'.u_dent_ino ≡ 30) × (k'.u_offset1 ≡ 16))
unfolding lookup same_name name_at
search_dir-lookup_example =
    search_dir-lookup searching held 0 2 (Represents-beside running searching running-Represents)
      dir_inode-HasBlocks (omega arith) refl

-- The directory with another reference, and a new name of one letter for its second entry.
abbrev shared_inode : Inode
shared_inode = record dir_inode { count = 2 }

abbrev linking : Kernel
linking = record running { inode = λ p. shared_inode; u_dbuf = 65 ∷ replicate 13 0; u_offset1 = 16 }

abbrev at_writei : Kernel
at_writei = entering 200 0 linking

at_writei-Fits : Fits at_writei 0
at_writei-Fits = record {
  asked = omega arith;
  count = omega arith;
  room = omega arith;
  low = omega arith;
  offset = omega arith;
  here = λ a p q. refl;
}

shared_inode-Separate : Separate held shared_inode
shared_inode-Separate = record { once = one_place; apart = λ m i e h. absurd (cc e) }

at_writei-Sized : Sized at_writei
at_writei-Sized = let s = asking-Sized in record { bufs = s.bufs; blocks = s.blocks; junk = s.junk }

at_writei-Writable : Writable at_writei held 0
at_writei-Writable = record {
  blocks = Represents-beside running at_writei running-Represents;
  words = at_writei-Sized;
  file = recounted-HasBlocks held dir_inode 2 32 dir_inode-HasBlocks;
  separate = shared_inode-Separate;
  plain = refl;
  byte = omega arith;
  fits = at_writei-Fits;
  no_error = refl;
}

name_chars : (i : ℕ) → get_or linking.u_dbuf i 0 < 256
name_chars zero = omega arith
name_chars (suc i) = omega (arith, zero_at 13 i)

linking-Ready : Ready 200 0 1 2 linking held
unfolding lookup same_name name_at first_empty
linking-Ready = record {
  writable = at_writei-Writable;
  whole = recounted-HasBlocks held dir_inode 2 32 dir_inode-HasBlocks;
  small = omega arith;
  index = omega arith;
  at = refl;
  new = refl;
  full = refl;
  long = refl;
  chars = name_chars;
  some_inode = omega arith;
  word = omega arith;
  referred = λ e. omega arith;
}

search_dir-wdir_example :
    (k1 : Kernel) × (k2 : Kernel) × (wdir (λ k. ok tt k) 200 0 linking ≡ ok tt k1)
    × (search_dir 2 0 none 0 (record k1 { u_offset1 = 0 }) ≡ ok present k2)
    × (k2.u_dent_ino % 65536 ≡ 4)
    × (k2.u_offset1 ≡ 32)
search_dir-wdir_example = search_dir-wdir (λ k. ok tt k) 200 0 1 2 linking held linking-Ready
