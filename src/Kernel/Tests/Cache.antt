-- ===== src/Kernel/Tests/Cache.antt =====
-- Runs of `getblk`, of `update` and of `iget` and `iput`, on the system of the parent module.
use bkunix.Prelude.{ℕ, ◌<◌, ◌≡◌, refl, none, some, [], ◌∷◌, arith}
use bkunix.Prelude.Lists.{get_or, replicate}
use bkunix.Prelude.Run.{ok}
use bkunix.Kernel.State.{Filsys, Kernel}
use bkunix.Kernel.Bio.{getblk, bread}
use bkunix.Kernel.Bio.View.{updated, beside, Represents, Represents-beside}
use bkunix.Kernel.Bio.Start.{begun, binit-Represents}
use bkunix.Kernel.Bio.Recent.{Chosen, Fronted, getblk-Fronted}
use bkunix.Kernel.Alloc.{filsys_words, filsys_of}
use bkunix.Kernel.Iget.{set_inode, no_links, with_words, iput}
use bkunix.Kernel.Iget.Lookup.{iget}
use bkunix.Kernel.Iget.Refs.{fetched, given_back, iput-iget}
use bkunix.Kernel.Iget.Update.{update_supers}
use bkunix.Kernel.Iget.Update.Stored.{stamped, update_supers-bread}
use bkunix.Kernel.Tests.{running, loaded_kernel, no_inode, root_fs, running-Represents}

getblk-Fronted_example :
    (i : ℕ) × (k' : Kernel) × (i < 6)
    × (getblk 0 5 running ≡ ok (get_or running.bufp i 0) k')
    × Chosen running 0 5 i
    × Fronted running k' i
getblk-Fronted_example =
    getblk-Fronted running loaded_kernel.medium.contents running-Represents 0 5 (λ t. omega arith)
      (omega arith)

-- the root's super block, changed since it was written
abbrev changed_fs : Filsys
changed_fs = record root_fs { fmod = 1 }

abbrev changed_kernel : Kernel
changed_kernel = record running {
  mount =
      record { dev = 0; fs = some changed_fs; inodp = none }
      ∷ record { dev = 0; fs = none; inodp = none }
      ∷ [];
  time1 = 7;
}

update_supers-bread_example :
    (k1 : Kernel) × (k2 : Kernel) × (j : ℕ) × (update_supers changed_kernel.mount 0 changed_kernel
      ≡ ok tt k1)
    × Represents k1
        (updated running.medium.contents 0 1 (filsys_words (stamped changed_kernel changed_fs)))
    × (k1
        ≡ beside k1 (record changed_kernel {
          mount =
              record { dev = 0; fs = some (stamped changed_kernel changed_fs); inodp = none }
              ∷ record { dev = 0; fs = none; inodp = none }
              ∷ [];
        }))
    × (bread 0 1 k1 ≡ ok j k2)
    × (filsys_of (k2.buf j).data_words ≡ stamped changed_kernel changed_fs)
update_supers-bread_example =
    update_supers-bread changed_kernel loaded_kernel.medium.contents
      (record { dev = 0; fs = some changed_fs; inodp = none })
      (record { dev = 0; fs = none; inodp = none }) changed_fs
      (Represents-beside running changed_kernel running-Represents) refl refl refl
      (λ t. omega arith)
      (record {
        free = refl;
        inode = refl;
        pad = refl;
        flock = omega arith;
        ilock = omega arith;
        fmod = omega arith;
        ronly = omega arith;
      })
      (λ t. omega arith)

-- the same system with diskettes on which each inode has a link
abbrev linked_kernel : Kernel
linked_kernel = record loaded_kernel {
  medium = record loaded_kernel.medium { contents = λ d n. 0 ∷ 1 ∷ replicate 254 0 };
}

linked_kernel-Represents : Represents (begun linked_kernel) linked_kernel.medium.contents
linked_kernel-Represents =
    (binit-Represents linked_kernel (record { cleared = λ i. refl; slots = refl }) (λ d n. refl)).1

iput-iget_example :
    (k1 : Kernel) × (k2 : Kernel) × (iget 0 1 (begun linked_kernel) ≡ ok (some 0) k1)
    × (iput 0 k1 ≡ ok tt k2)
    × Represents k1 linked_kernel.medium.contents
    × Represents k2 linked_kernel.medium.contents
    × (k1
        ≡ beside k1 (
            set_inode 0 (fetched linked_kernel.medium.contents 0 1 no_inode) (begun linked_kernel)))
    × (k2
        ≡ beside k2 (
            set_inode 0
              (given_back (fetched linked_kernel.medium.contents 0 1 no_inode))
              (begun linked_kernel)))
unfolding with_words no_links
iput-iget_example =
    iput-iget (begun linked_kernel) linked_kernel.medium.contents 0 0 1 linked_kernel-Represents
      (record {
        index = omega arith;
        absent = λ q h. refl;
        before = λ q h. absurd (omega arith);
        unused = refl;
        unchanged = refl;
      })
      (λ t. omega arith) (omega arith) refl
