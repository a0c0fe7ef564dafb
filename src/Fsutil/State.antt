-- ===== src/Fsutil/State.antt =====
-- The structures of fsutil/lsxfs.h, and the image file behind `lsxfs_t.fd`.
use bkunix.Prelude.{ℕ, ◌^◌, ◌%◌, Bool, List}

-- The open image file, as read(2), write(2) and lseek(2) see a regular file: `size` bytes, of
-- which `bytes a` is the one at address `a`, the descriptor's offset `pos`, and the size `limit`
-- past which the host refuses to let it grow.
pub record Image : Type 0 where
  pub size : ℕ
  pub limit : ℕ
  pub bytes : ℕ → ℕ
  pub pos : ℕ

-- `lsxfs_t`. `stack` stands for what an uninitialised block buffer holds behind the part that
-- `lsxfs_block_free` fills in.
pub record Fs : Type 0 where
  pub image : Image
  pub seek : ℕ
  pub writable : Bool
  pub dirty : Bool
  pub modified : Bool
  pub isize : ℕ
  pub fsize : ℕ
  pub nfree : ℕ
  pub free : List ℕ
  pub ninode : ℕ
  pub inode : List ℕ
  pub flock : ℕ
  pub ilock : ℕ
  pub fmod : ℕ
  pub ronly : ℕ
  pub time : ℕ
  pub stack : List ℕ

-- `lsxfs_inode_t`; its `fs` pointer is the state that the commands carry.
pub record Inode : Type 0 where
  pub number : ℕ
  pub dirty : Bool
  pub mode : ℕ
  pub nlink : ℕ
  pub uid : ℕ
  pub gid : ℕ
  pub size : ℕ
  pub addr : List ℕ
  pub atime : ℕ
  pub mtime : ℕ

-- An inode in memory together with the file system that it points to.
pub record Node : Type 0 where
  pub fs : Fs
  pub inode : Inode

-- `lsxfs_dirent_t`: `name` is the array's 15 bytes.
pub record Dirent : Type 0 where
  pub ino : ℕ
  pub name : List ℕ

-- `lsxfs_file_t`
pub record File : Type 0 where
  pub node : Node
  pub writable : Bool
  pub offset : ℕ

-- The stores into `unsigned char`, `unsigned short`, and `unsigned long` variables.
abbrev pub u8 : ℕ → ℕ
u8 n = n % 256

abbrev pub u16 : ℕ → ℕ
u16 n = n % 65536

abbrev pub ulong : ℕ → ℕ
ulong n = n % 2 ^ 64

abbrev pub mode_alloc : ℕ
mode_alloc = 0o100000

abbrev pub mode_fmt : ℕ
mode_fmt = 0o60000

abbrev pub mode_fdir : ℕ
mode_fdir = 0o40000

abbrev pub mode_fchr : ℕ
mode_fchr = 0o20000

abbrev pub mode_fblk : ℕ
mode_fblk = 0o60000

abbrev pub mode_larg : ℕ
mode_larg = 0o10000
