-- ===== src/Fsutil.antt =====
-- fsutil: the tool that reads and writes LSX file system images.
pub mod State
pub mod Disk
pub mod Super
pub mod Block
pub mod Inode
pub mod Names
pub mod File
pub mod Create
pub mod Check
pub mod Salvage
pub mod Phases
mod Tests
mod Runs
