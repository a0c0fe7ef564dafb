-- ===== src/Lib.antt =====
-- The file system of LSX Unix from both sides: the kernel's part of it, in src/sys of the repository,
-- and the tool fsutil, which makes, reads, changes and checks images of LSX diskettes on a host.
--
-- The parts of fsutil and the files that model them:
--   * Fsutil/State: the structures of fsutil/lsxfs.h. `Fs` is `lsxfs_t`, `Inode` is
--     `lsxfs_inode_t`, `Dirent` is `lsxfs_dirent_t` and `File` is `lsxfs_file_t`. `Image` is the
--     image file behind the descriptor.
--   * Fsutil/Disk: fsutil/superblock.c, the sector interleave (`deskew`), `lsxfs_seek`,
--     `update_seek`, the transfers of bytes, words and long words (`read8` … `write32`), and
--     `lsxfs_read_block`, `lsxfs_write` and `lsxfs_write_block`. Its children hold proofs: Disk/Skew
--     on the interleave, Disk/View on transfers within a sector, Disk/Wrote on what a run of writes
--     leaves, Disk/Blocks on whole blocks, Disk/Ends on a block from an image of any length,
--     Disk/Words on the transfers of words.
--   * Fsutil/Super: `lsxfs_open` and `lsxfs_sync`; Super/Layout, Super/Load and Super/RoundTrip hold
--     proofs.
--   * Fsutil/Block: fsutil/block.c, the list of free blocks; Block/Words, Block/Lifo and Block/Enough
--     hold proofs.
--   * Fsutil/Inode: fsutil/inode.c, inodes, the map of a file's blocks and reading; Inode/Write has
--     the writing, Inode/Alloc allocation and truncation; Inode/Codec, Inode/Layout, Inode/Save and
--     Inode/Enough hold proofs.
--   * Fsutil/Names: fsutil/inode.c, directory entries, `lsxfs_directory_scan` and
--     `lsxfs_inode_by_name`; Names/Entries and Names/Paths hold proofs.
--   * Fsutil/File: fsutil/file.c.
--   * Fsutil/Create: fsutil/create.c, `lsxfs_create` and the installers of boot programs.
--   * Fsutil/Check: fsutil/check.c, the tables of the check; Check/Scan has the scan of a file's
--     blocks and passes 1 and 1b, Check/Dirs the scan of directories and pass 2; Check/Repair lost+found, pass 4
--     and the clearing of inodes. Check/Maps holds proofs.
--   * Fsutil/Salvage: fsutil/check.c, the check and rebuilding of the free list and of the list of
--     free inodes; Salvage/Inodes holds proofs.
--   * Fsutil/Phases: fsutil/check.c, `lsxfs_check`.
--   * Fsutil/Runs and Fsutil/Tests: runs at small inputs, and the theorems at small inputs.
-- The parts of the kernel and the files that model them. The calls go downwards in this list in
-- reverse: files use inodes, inodes use free blocks, and all use the buffer cache.
--   * Kernel/State: the structures of src/sys/*.h and the tables of the kernel as one state,
--     `Kernel`. A pointer into a table is an index.
--   * Kernel/Bio: src/sys/bio.c, the buffer cache, with the transfer of a block by `fdstrategy` of
--     src/sys/dev/decfd.c as one step. Bio/Cache has its invariant, Bio/View the abstract view, an
--     array of blocks for each device, and Bio/Cycle, Bio/Flush and Bio/Start what the operations do
--     to it; Bio/Order and Bio/Recent are on the order of the buffers, and the other children are lemmas on the way:
--     Bio/Search, Bio/Replace, Bio/Transfer, Bio/Keep, Bio/Access, Bio/Obtain, Bio/Release.
--     Bio/Sized is on the length of the buffers.
--   * Kernel/Alloc: src/sys/alloc.c, the free list. Alloc/Chain has the list of free blocks that a
--     super block leads to; Alloc/Take, Alloc/Full, Alloc/Give, Alloc/Returned and Alloc/Cycle are on
--     `alloc` and `free`, Alloc/Super on the words of a super block. Where the code looks at a buffer
--     through a pointer to `struct filsys`, the model takes the fields from its 256 words and puts
--     them there; the last two words of `pad` lie behind the buffer and are left out.
--   * Kernel/Iget: src/sys/iget.c, with `iget` and `ialloc` in Iget/Lookup, `iinit` and `update` of
--     src/sys/alloc.c in Iget/Update, and `bmap` of src/sys/subr.c in Iget/Bmap, with proofs
--     in Update/Stored, Bmap/Lookup and Bmap/Allocate. Iget/Words, Iget/Store and Iget/Refs hold
--     proofs.
--   * Kernel/Files: src/sys/fio.c, `close` of src/sys/sys2.c and `dup` of src/sys/sys3.c.
--     Files/Seek has `seek` of src/sys/sys2.c; Files/Counts, Files/Steps, Files/Calls and Files/Close
--     hold proofs.
--   * Kernel/Wide: the arithmetic on two words of src/sys/mch.s.
--   * Kernel/Iomove: `iomove` of src/sys/rdwri.c, `passc` and `cpass` of src/sys/subr.c, and the
--     accesses to the memory of the process of src/sys/mch.s. Iomove/Words, Iomove/Progress,
--     Iomove/Out and Iomove/In hold proofs.
--   * Kernel/Rdwr: `readi` and `writei` of src/sys/rdwri.c. Rdwr/File has a file as a sequence of
--     bytes, Rdwr/Wrote what a write does to it, Rdwr/Size how its size grows; Rdwr/Read and Rdwr/Write
--     are on a round of the loops and, in their children Loop, on the loops, Rdwr/Buffer on the
--     buffer of a round, and Rdwr/Cycle on the two functions one behind the other.
--   * Kernel/Names: src/sys/nami.c, with `access` of src/sys/fio.c. Names/Entries has the entries of a
--     directory; Names/Held, Names/Step and Names/Search hold proofs.
--   * Kernel/Dirs: `maknode` and `wdir` of src/sys/iget.c; Dirs/Bytes and Dirs/Enter hold proofs.
--   * Kernel/Sys: the calls `read` and `write` of src/sys/sys2.c; Sys/Read holds proofs, Sys/Open has
--     `open` (as `open_call`) and `creat`, and Sys/Link `link`, `mknod`, `unlink`, `chdir` and `chmod` of
--     src/sys/sys2.c and src/sys/sys4.c.
--   * Kernel/Procs: `setrun`, `wakeup`, `issig` and calls of src/sys/sys4.c; Procs/Signals holds
--     proofs.
--   * Kernel/Tests with Tests/Tables, Tests/Calls, Tests/Entries and Tests/Cache: the theorems on the
--     kernel at a small system.
--   * Prelude and its children: the numbers, lists, Boolean tests, finite tables, and the commands
--     that the model is written in.
--
-- A C function that works on a structure is a command `Cmd S A`: from a state it gives `ok`, with a
-- value and the new state, `fail` with the state where the C function returns 0, or `fault` where
-- the C function would leave an array. State and value are explicit, so a function that takes an
-- inode works on a `Node`, the inode together with the file system it points to. A caller that
-- does not look at a result is written with `ignore`, which goes on behind a failure.
--
-- Numbers are natural numbers. A store into `unsigned char`, `unsigned short` or `unsigned long`
-- keeps its wrap-around, written `u8`, `u16` and `ulong`.
--
-- In the kernel a result `NULL` is `none`, an error is the field `u_error`, and `fault` is `panic()`
-- or an index out of a table. Signed comparisons of words are written `s_lt`. CONTIG and BGOPTION
-- are not defined, as src/sys/param.h has it. `iget` starts again at most three times, and `ialloc`
-- tries at most 201 entries; behind that, as at a circle of mounts, the model gives `fault`. The
-- theorems on the cache are about states in which no transfer fails. The memory of the process is the
-- field `core`, a byte at each address, and an access traps where `absent` says so of the word; the
-- tables and the buffers of the kernel are not part of it, but for `u_dent`: where `wdir` and `unlink` let
-- `writei` take it, its bytes are put at its address, which is a parameter. A call finds its path at
-- `u_dirp`, where the trap puts it. Buffers stand at even addresses. `ttread` and
-- `ttwrite` of the terminal are parameters of the functions that call them.
--
-- read(2), write(2) and lseek(2) are modelled as POSIX describes them for a regular file: a read is
-- short at the end of the file, a write is short where the host has no room (`limit`), a hole reads
-- as zeros. The descriptor is open for writing where `lsxfs_open` was asked for that, which is the
-- field `writable`. `stack` stands for the bytes of an uninitialised block buffer, of which
-- `lsxfs_block_free` sets the first 202.
--
-- Loops that are not over a list run on fuel. `write_loop`, `read_loop` and `inode_write_loop` take
-- the count of bytes, of which each round moves at least one; `alloc_loop` and `inode_alloc_loop`
-- take the count of the list, which each round lowers. Where one of `read_loop`, `inode_write_loop`,
-- `alloc_loop` and `inode_alloc_loop` ran out of fuel with something left to do, it would give
-- `fault`. `walk` takes the length of the path, of which
-- each round takes a component; `check_rounds` takes `fsize + 101`, since a round goes on only if it
-- marks a block that was not marked or counts a duplicate, of which the hundredth ends it;
-- `scan_pass2` takes one level more than there are inodes, of which each level marks one as reached.
-- `readi` and `writei` take `u_count` rounds, of which each that does not end the loop moves a byte at
-- least, and their theorems show that they end; `search_dir` takes `u_count` rounds, which is the
-- source's own bound; `namei` takes 65536 rounds for each of its loops over characters and 65536
-- components, since a string in the memory that is longer than that never ends.
-- Where a loop of the source does not end (`climb`, `check_fs`) the model gives `fault`.
--
-- Not modelled: printing, the command line (fsutil/fsutil.c) and `lsxfs_install_boot_lsx`. The memory
-- of `lsxfs_check` is taken to be there. Of the kernel: `stat` and `fstat`,
-- the delivery of signals, the clock, the switching and swapping of processes and the
-- terminal. The commands and the compilers of the repository are not modelled.
pub mod Prelude
pub mod Fsutil
pub mod Kernel
