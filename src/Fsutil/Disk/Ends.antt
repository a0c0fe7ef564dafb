-- ===== src/Fsutil/Disk/Ends.antt =====
-- Reads of an image come to an end without a fault.
use bkunix.Prelude.{ℕ, zero, suc, ◌+◌, ◌*◌, ◌%◌, inl, inr, Option, none, some}
use bkunix.Prelude.Tests.{leb, Bool-cases, ◌==◌}
use bkunix.Prelude.Run.{ok, fail, Finishes, finish_then, Finishes-forget}
use bkunix.Fsutil.State.{Fs, Image, ulong}
use bkunix.Fsutil.Disk.{
  read, read_count, lseek, deskew, seek, update_seek, read_sectors, read_block,
}

read-Finishes : (n : ℕ) (fs : Fs) → Finishes (read n fs)
unfolding read
read-Finishes n fs = elim (Bool-cases (read_count n fs.image == n)) [
  | inl e ↦ rw e tt
  | inr e ↦ rw e tt
]

seek-Finishes : (a : ℕ) (fs : Fs) → Finishes (seek a fs)
unfolding seek
seek-Finishes a fs = go (lseek (deskew a) fs.image)
  where
    go :
        (t : Option Image)
        → Finishes {S = Fs}
            (elim t [ none ↦ fail fs | some f ↦ ok tt (record fs { image = f; seek = a }) ])
    go none = tt
    go (some f) = tt

update_seek-Finishes : (n : ℕ) (fs : Fs) → Finishes (update_seek n fs)
unfolding update_seek
update_seek-Finishes n fs = elim (Bool-cases (leb 128 (fs.seek % 128 + n))) [
  | inl e ↦
      rw e
        (Finishes-forget (seek (ulong (fs.seek + n)) fs) (seek-Finishes (ulong (fs.seek + n)) fs))
  | inr e ↦ rw e tt
]

read_sectors-Finishes : (n : ℕ) (fs : Fs) → Finishes (read_sectors n fs)
unfolding read_sectors
read_sectors-Finishes zero fs = tt
read_sectors-Finishes (suc n) fs = finish_then _ (read 128 fs) _ (read-Finishes 128 fs) (λ d fs1.
    finish_then _ (update_seek 128 fs1) _ (update_seek-Finishes 128 fs1) (λ u fs2.
      finish_then _ (read_sectors n fs2) _ (read_sectors-Finishes n fs2) (λ rest fs3. tt)))

pub read_block-Finishes : (b : ℕ) (fs : Fs) → Finishes (read_block b fs)
unfolding read_block
read_block-Finishes b fs = elim (Bool-cases (leb b (fs.isize + 1))) [
  | inl e ↦ rw e tt
  | inr e ↦ rw e (
      finish_then _ (seek (b * 512) fs) _ (seek-Finishes (b * 512) fs)
        (λ u fs1. read_sectors-Finishes 4 fs1))
]
