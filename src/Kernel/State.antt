-- ===== src/Kernel/State.antt =====
-- The tables of the kernel, src/sys/*.h, as one state: buffers (buf.h), in-core inodes (inode.h),
-- super blocks (filsys.h, systm.h), open files (file.h), processes (proc.h) and the part of the
-- user structure (user.h) that the functions modelled here use.
use bkunix.Prelude.{ℕ, Bool, Option, List}

-- `struct buf`, its flags one by one. `data` is what `b_addr` points to: 256 words.
pub record Buf : Type 0 where
  pub rd : Bool
  pub done : Bool
  pub error : Bool
  pub busy : Bool
  pub delwri : Bool
  pub blkno : ℕ
  pub dev : ℕ
  pub err : ℕ
  pub data_words : List ℕ

-- The diskettes: the words of each block, the transfers that fail after the driver's retries, and
-- what the controller's own buffer holds then.
pub record Medium : Type 0 where
  pub contents : ℕ → ℕ → List ℕ
  pub bad : ℕ → ℕ → Bool
  pub junk : List ℕ

-- `struct inode`, its flags one by one; the size is the 24 bits of `i_size0` and `i_size1`.
pub record Inode : Type 0 where
  pub upd : Bool
  pub mounted_on : Bool
  pub count : ℕ
  pub dev : ℕ
  pub number : ℕ
  pub mode : ℕ
  pub nlink : ℕ
  pub uid : ℕ
  pub gid : ℕ
  pub size0 : ℕ
  pub size1 : ℕ
  pub addr : List ℕ

-- `struct filsys`
pub record Filsys : Type 0 where
  pub isize : ℕ
  pub fsize : ℕ
  pub nfree : ℕ
  pub free : List ℕ
  pub ninode : ℕ
  pub inode : List ℕ
  pub flock : ℕ
  pub ilock : ℕ
  pub fmod : ℕ
  pub ronly : ℕ
  pub time0 : ℕ
  pub time1 : ℕ
  pub pad : List ℕ

-- `struct mount`. `fs` is what `m_bufp` leads to, where that is set.
pub record Mount : Type 0 where
  pub dev : ℕ
  pub fs : Option Filsys
  pub inodp : Option ℕ

-- `struct file`; the offset is the pair of words in `f_offset`.
pub record File : Type 0 where
  pub flag : ℕ
  pub count : ℕ
  pub inode : ℕ
  pub offset0 : ℕ
  pub offset1 : ℕ

-- `struct proc`
pub record Proc : Type 0 where
  pub stat : ℕ
  pub sig : ℕ
  pub wchan : ℕ
  pub clktim : ℕ

-- The kernel's tables. `buf`, `inode`, `file` and `proc` are arrays, `bufp` is the array of pointers
-- into `buf`, and the fields whose names start with `u_` are those of `u`. A pointer is an index into
-- its array. `core` is the memory of the process by its bytes, and `absent` tells of each of its
-- words whether an access to it traps; the kernel's own tables are not part of it.
pub record Kernel : Type 0 where
  pub medium : Medium
  pub buf : ℕ → Buf
  pub bufp : List ℕ
  pub inode : ℕ → Inode
  pub mount : List Mount
  pub file : List File
  pub proc : List Proc
  pub cpid : ℕ
  pub time0 : ℕ
  pub time1 : ℕ
  pub u_error : ℕ
  pub u_procp : ℕ
  pub u_ofile : List (Option ℕ)
  pub u_r0 : ℕ
  pub u_r1 : ℕ
  pub u_arg : List ℕ
  pub u_signal : List ℕ
  pub core : ℕ → ℕ
  pub absent : ℕ → Bool
  pub rootdir : ℕ
  pub u_base : ℕ
  pub u_count : ℕ
  pub u_offset0 : ℕ
  pub u_offset1 : ℕ
  pub u_cdir : ℕ
  pub u_dbuf : List ℕ
  pub u_dirp : ℕ
  pub u_dent_ino : ℕ
  pub u_dent_name : List ℕ
  pub u_pdir : ℕ
  pub u_uid : ℕ
  pub u_gid : ℕ

-- the sizes of the tables in param.h
abbrev pub nbuf : ℕ
nbuf = 6

abbrev pub ninode : ℕ
ninode = 20

abbrev pub nfile : ℕ
nfile = 20

abbrev pub nofile : ℕ
nofile = 15

abbrev pub nproc : ℕ
nproc = 3

abbrev pub nsig : ℕ
nsig = 20

-- `NODEV`, -1 in 16 bits
abbrev pub nodev : ℕ
nodev = 65535

-- the values of `u_error`
abbrev pub eio : ℕ
eio = 5

abbrev pub ebadf : ℕ
ebadf = 9

abbrev pub einval : ℕ
einval = 22

abbrev pub enfile : ℕ
enfile = 23

abbrev pub emfile : ℕ
emfile = 24

abbrev pub enospc : ℕ
enospc = 28
