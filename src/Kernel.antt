-- ===== src/Kernel.antt =====
-- The kernel of LSX, src/sys.
pub mod State
pub mod Bio
pub mod Alloc
pub mod Iget
pub mod Files
pub mod Procs
pub mod Wide
pub mod Iomove
pub mod Rdwr
pub mod Names
pub mod Dirs
pub mod Sys
mod Tests
