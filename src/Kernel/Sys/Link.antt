-- ===== src/Kernel/Sys/Link.antt =====
-- `link` and `mknod` of src/sys/sys2.c, `unlink`, `chdir` and `chmod` of src/sys/sys4.c, and `owner`
-- of src/sys/fio.c. The path of a call stands at `u_dirp`.
use bkunix.Prelude.{ℕ, ◌+◌, ◌-◌, ◌%◌, bit_and, bit_or, Bool, true, Option, none, some, not, ◌&&◌}
use bkunix.Prelude.Tests.{leb, ltb, ◌==◌, if◌then◌else◌}
use bkunix.Prelude.Lists.{get_or, set}
use bkunix.Prelude.Run.{Cmd, pure, ◌>>=◌, ◌>>◌, get, modify}
use bkunix.Kernel.State.{Inode, Kernel}
use bkunix.Kernel.Iget.{on_inode, iput}
use bkunix.Kernel.Iget.Lookup.{iget}
use bkunix.Kernel.Files.{error}
use bkunix.Kernel.Rdwr.{is_dir, writei}
use bkunix.Kernel.Names.{enotdir, iexec, access, namei}
use bkunix.Kernel.Dirs.{from_dent, wdir, maknode}

-- `EMLINK`, `EEXIST` and `EXDEV`
abbrev emlink : ℕ
emlink = 31

abbrev eexist : ℕ
eexist = 17

abbrev exdev : ℕ
exdev = 18

-- `link`: the number of links, a signed byte, is 127 or more.
abbrev many_links : Inode → Bool
many_links x = leb 127 x.nlink && ltb x.nlink 128

-- `link`: the second name is there already.
unfoldable pub name_taken : Option ℕ → Cmd Kernel (Unit {0})
name_taken none = pure tt
name_taken (some q) = do error eexist; iput q

-- `owner`
unfoldable pub owner : Cmd Kernel (Option ℕ)
owner = namei 0

-- `chdir` of an inode
unfoldable pub enter_dir : ℕ → Cmd Kernel (Unit {0})
enter_dir p = do
  k ← get
  if not (is_dir (k.inode p)) then (error enotdir >> iput p) else (do
    refused ← access p iexec
    if refused then iput p else (do iput k.u_cdir; modify (λ k. record k { u_cdir = p })))

-- `chdir`
unfoldable pub chdir : Cmd Kernel (Unit {0})
chdir = do found ← namei 0; elim found [ none ↦ pure tt | some p ↦ enter_dir p ]

-- `chmod`: the mode of the inode; 4095 is 07777.
abbrev with_mode : ℕ → Inode → Inode
with_mode m x = record x {
  mode = bit_or (x.mode - bit_and x.mode 4095) (bit_and m 4095);
  upd = true;
}

-- `chmod`
unfoldable pub chmod : Cmd Kernel (Unit {0})
chmod = do
  found ← owner
  elim found [
    | none ↦ pure tt
    | some p ↦ (do k ← get; on_inode p (with_mode (get_or k.u_arg 1 0)); iput p)
  ]

-- The function `ttwrite` of the terminal and the address of `u_dent` are parameters of the section.
module _ (ttwrite : Cmd Kernel (Unit {0})) (dent : ℕ) where
  -- `link`: the entry is made where the directory is on the device of the inode.
  unfoldable pub link_to : ℕ → Cmd Kernel (Unit {0})
  link_to p = do
    k ← get
    if not ((k.inode k.u_pdir).dev == (k.inode p).dev) then (do iput k.u_pdir; error exdev) else (do
      wdir ttwrite dent p
      on_inode p (λ x. record x { nlink = (x.nlink + 1) % 256; upd = true }))

  -- `link` of an inode
  unfoldable pub link_inode : ℕ → Cmd Kernel (Unit {0})
  link_inode p = do
    k ← get
    if many_links (k.inode p) then error emlink else (do
      modify (λ k. record k { u_dirp = get_or k.u_arg 1 0 })
      found ← namei 1
      name_taken found
      k' ← get
      if k'.u_error == 0 then link_to p else pure tt)
    iput p

  -- `link`
  unfoldable pub link : Cmd Kernel (Unit {0})
  link = do found ← namei 0; elim found [ none ↦ pure tt | some p ↦ link_inode p ]

  -- `mknod` of a name that `namei` did not find
  unfoldable pub make_node : Cmd Kernel (Unit {0})
  make_node = do
    k ← get
    if not (k.u_error == 0) then pure tt else (do
      made ← maknode ttwrite dent (get_or k.u_arg 1 0)
      elim made [
        | none ↦ pure tt
        | some p ↦ (do
          k' ← get
          on_inode p (λ x. record x { addr = set x.addr 0 (get_or k'.u_arg 2 0) })
          iput p)
      ])

  -- `mknod`
  unfoldable pub mknod : Cmd Kernel (Unit {0})
  mknod = do found ← namei 1; elim found [ none ↦ make_node | some p ↦ (do error eexist; iput p) ]

  -- `unlink` of an entry of the directory `p` that leads to the inode `q`
  unfoldable pub remove_link : ℕ → Option ℕ → Cmd Kernel (Unit {0})
  remove_link p none = pure tt
  remove_link p (some q) = do
    modify (λ k. record k { u_offset1 = (k.u_offset1 + 65520) % 65536; u_dent_ino = 0 })
    modify (from_dent dent)
    writei ttwrite p
    on_inode q (λ x. record x { nlink = (x.nlink + 255) % 256; upd = true })
    iput q

  -- `unlink`
  unfoldable pub unlink : Cmd Kernel (Unit {0})
  unlink = do
    found ← namei 2
    elim found [
      | none ↦ pure tt
      | some p ↦ (do k ← get; q ← iget (k.inode p).dev k.u_dent_ino; remove_link p q; iput p)
    ]
