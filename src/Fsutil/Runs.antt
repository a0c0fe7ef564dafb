-- ===== src/Fsutil/Runs.antt =====
-- Runs of fsutil's functions at small inputs.
use bkunix.Prelude.{ℕ, ◌≡◌, refl, Option, none, some, [], ◌∷◌}
use bkunix.Prelude.Run.{Run, Cmd, pure, ◌>>=◌, ◌>>◌, get, and_then}
use bkunix.Fsutil.State.{Image, Fs, Inode}
use bkunix.Fsutil.Disk.{
  deskew, read, patch, write_image, write_some, write_all, seek, update_seek, read8, read16, read32,
  write8, write16, write32, read_sectors, read_block, write_loop, write, write_block,
}
use bkunix.Fsutil.Disk.Blocks.{result}
use bkunix.Fsutil.Super.{
  read_free, read_inodes, read_super, open_fs, write_free, write_inodes, write_super, sync,
}
use bkunix.Fsutil.Block.{
  pack_words, unpack_words, spill, push, spill_and_push, block_free, free_words,
  indirect_block_free, free_indirects, double_indirect_block_free, pop, refill, alloc_loop,
  block_alloc,
}
use bkunix.Fsutil.Inode.{
  read_words, write_words, inode_get, inode_clear, write_inode, inode_save, map_large, map_block,
  overwrite, read_loop, inode_read,
}
use bkunix.Fsutil.Inode.Alloc.{
  take_inode, inode_alloc_loop, inode_alloc, free_addr, truncate_loop, truncate,
}
use bkunix.Fsutil.Inode.Write.{
  set_word, addr_block, enlarge, map_small_write, first_write, second_write, last_write,
  map_large_write, map_block_write, write_part, inode_write_loop, inode_write,
}
use bkunix.Fsutil.Names.{
  c_string, pad, dirent_pack, dirent_unpack, skip_slashes, component, after_component, str_eq,
  search_loop, write_back, create_file, unlink, delete_file, at_end, walk, inode_by_name, find,
  create, delete,
}
use bkunix.Fsutil.Create.{
  push_free, spill_free, free_block, free_down, build_loop, build_inode_list, allocate_block,
  create_root_directory, clear_blocks, set_size, create_in, create_fs,
}
use bkunix.Fsutil.Check.{
  put_state, state_in, set_inode_state, inode_state, is_marked, mark, mark_block_free,
}
use bkunix.Fsutil.Check.Scan.{
  scan_words, scan_listed, scan_indirect, scan_indirect_block, scan_addrs, scan_inode, is_among,
  add_dup, pass1_bad, pass1_dup, pass1, index_of, pass1b,
}
use bkunix.Fsutil.Check.Dirs.{
  buf_flush, buf_get, put_entry, dir_loop, scan_directory, count_link, keep_bad, check_entry, pass2,
  scan_pass2, find_inode,
}
use bkunix.Fsutil.Check.Repair.{
  make_lost_entry, dotdot_to_lost_found, find_in, find_lost_found, know_lost_found, open_lost_found,
  round_lost_found, adopt, connect, move_to_lost_found, pass4, clear_inode, adjust_link_count,
}
use bkunix.Fsutil.Salvage.{
  pass5, check_entries, check_rounds, check_free_list, check_inodes, check_free_inode_list,
  make_rounds, make_free_list,
}
use bkunix.Fsutil.Phases.{
  count_inode, check_inode, phase_1, rescan, phase_1b, repair_root, phase_2, climb, phase_3,
  check_links, phase_4, phase_5, phases, check_fs,
}

-- What a command gives on a file system made by `lsxfs_create`.
run : {A : Type 0} → Option (Run Fs (Unit {0})) → Cmd Fs A → Option A
unfolding deskew read patch write_image write_some write_all seek update_seek read8 read16 read32
    write8 write16 write32 read_sectors read_block write_loop write write_block read_free
    read_inodes read_super open_fs write_free write_inodes write_super sync pack_words unpack_words
    spill push spill_and_push block_free free_words indirect_block_free free_indirects
    double_indirect_block_free pop refill alloc_loop block_alloc read_words write_words inode_get
    inode_clear write_inode inode_save map_large map_block overwrite read_loop inode_read set_word
    addr_block enlarge map_small_write first_write second_write last_write map_large_write
    map_block_write write_part inode_write_loop inode_write take_inode inode_alloc_loop inode_alloc
    free_addr truncate_loop truncate c_string pad dirent_pack dirent_unpack skip_slashes component
    after_component str_eq search_loop write_back create_file unlink delete_file at_end walk
    inode_by_name push_free spill_free free_block free_down build_loop build_inode_list
    allocate_block create_root_directory clear_blocks set_size create_in create_fs put_state
    state_in set_inode_state inode_state is_marked mark mark_block_free scan_words scan_listed
    scan_indirect scan_indirect_block scan_addrs scan_inode is_among add_dup pass1_bad pass1_dup
    pass1 index_of pass1b buf_flush buf_get put_entry dir_loop scan_directory count_link keep_bad
    check_entry pass2 scan_pass2 find_inode make_lost_entry dotdot_to_lost_found find_in
    find_lost_found know_lost_found open_lost_found round_lost_found adopt connect
    move_to_lost_found pass4 clear_inode adjust_link_count pass5 check_entries check_rounds
    check_free_list check_inodes check_free_inode_list make_rounds make_free_list count_inode
    check_inode phase_1 rescan phase_1b repair_root phase_2 climb phase_3 check_links phase_4
    phase_5 phases check_fs
run none m = none
run (some r) m = result (and_then r λ _. m)

abbrev empty_image : Image
empty_image = record { size = 0; limit = 256256; bytes = λ a. 0; pos = 0 }

abbrev made : Option (Run Fs (Unit {0}))
made = create_fs (some empty_image) 7 10240

-- A volume of 20 blocks: 16 of the 17 blocks behind the inode list are free, the list ends with a
-- 0, and 15 of its 16 inodes are free.
created_counts :
    run {A = ℕ × ℕ × ℕ} made (do fs ← get; pure (fs.nfree, fs.ninode, fs.isize)) ≡ some (17, 15, 1)
unfolding run
created_counts = refl

found_root :
    run {A = ℕ × ℕ} made (do i ← inode_by_name (b'/' ∷ []) find; pure (i.number, i.size))
    ≡ some (1, 32)
unfolding run
found_root = refl

-- A file is made, found under another spelling of its path, and is gone once it is deleted.
created_file :
    run {A = ℕ × ℕ} made (do
      inode_by_name (b'a' ∷ []) (create 0o644)
      i ← inode_by_name (b'/' ∷ b'a' ∷ b'/' ∷ []) find
      pure (i.number, i.mode))
    ≡ some (16, 0o100644)
unfolding run
created_file = refl

deleted_file :
    run {A = Inode} made (do
      inode_by_name (b'a' ∷ []) (create 0o644)
      inode_by_name (b'a' ∷ []) delete
      inode_by_name (b'a' ∷ []) find)
    ≡ none
unfolding run
deleted_file = refl

-- The check finds nothing to repair on a new volume with a file, and stamps it with the time.
checked_file :
    run {A = ℕ × ℕ × ℕ} made (do
      inode_by_name (b'a' ∷ []) (create 0o644)
      check_fs 77
      fs ← get
      pure (fs.nfree, fs.ninode, fs.time))
    ≡ some (17, 14, 77)
unfolding run
checked_file = refl
