-- ===== src/FileSys/Tests.antt =====
-- The empty file system on 32 sectors, and the theorems on src/filesys/filesys.c at it.
use operating_system.Common.{
  ℕ, ◌+◌, length, ◌≤◌, Option, ◌≡◌, ◌≢◌, refl, Bool, true, false, some, none, [], ◌∷◌, arith, inl,
}
use operating_system.Common.Int.{pos}
use operating_system.InodeTable.{find_inode}
use operating_system.InodeTable.Sample.{table_with, owner_with, with-Owned}
use operating_system.InodeTable.Owners.{IsStore}
use operating_system.FileSys.{FileSys, Outcomes, filesys_create}
use operating_system.Block.{block_read, block_write, check_sector}
use operating_system.Bitmap.{
  scan_and_flip, scan, scan_from, contains, in_range, contains_from, test, nonzero, set_multiple,
  set_from, set, mark, update_word,
}
use operating_system.FreeMap.{free_map_allocate}
use operating_system.InodeTable.{
  inode_create, create_with, write_zeros, inode_open, open_with, inode_reopen, inode_close,
  put_inode,
}
use operating_system.Directory.{dir_add, add_new, lookup, lookup_from, same_name, free_slot}
use operating_system.FileSys.{
  dir_open_root, dir_open, dir_close, create_in, create_at, give_back, filesys_open,
}
use operating_system.FileSys.Open.{FoundFile, filesys_open-create}
use operating_system.FileSys.Named.{CannotCreate, FileCreated}
use operating_system.FileSys.Create.{filesys_create_lem}

abbrev fs : FileSys
fs = record {
  table = table_with none;
  root = record { inode_sector = 0; name = []; in_use = false } ∷ [];
}

abbrev all_well : Outcomes
all_well = record {
  root_inode = true;
  dir = true;
  inode = true;
  disk_inode = true;
  buffers = record { lookup_reads = 4; slot_reads = 4; written = true };
  store_map = λ f b. record b { write_cnt = b.write_cnt + 1 };
  one_written = true;
  data_written = true;
}

all_well-IsStore : IsStore (owner_with none) all_well.store_map
all_well-IsStore f b = record { size = refl; foreign = refl; kept = λ j h k p. refl }

zero_used : owner_with none 0 ≢ none
zero_used e = cc

filesys_create_lem_example :
    (ok : Bool) × (fs' : FileSys) × (filesys_create fs all_well (97 ∷ []) (pos 700)
      ≡ some (ok, fs'))
    × FileCreated fs fs' 32
        (owner_with none)
        (97 ∷ [])
        (CannotCreate all_well 32 (owner_with none) fs.root (97 ∷ []) 700)
        ok
unfolding find_inode
filesys_create_lem_example =
    filesys_create_lem fs 32 (owner_with none) all_well (97 ∷ []) 700 (with-Owned none) refl
      all_well-IsStore (omega arith) zero_used (omega arith) refl refl (inl refl, tt) (omega arith)
      (omega arith) (omega arith)

abbrev fs_of : Option (Bool × FileSys) → FileSys
fs_of none = fs
fs_of (some r) = r.1

-- The file system with the file "a".
with_a : FileSys
with_a = fs_of (filesys_create fs all_well (97 ∷ []) (pos 700))

create_run : filesys_create fs all_well (97 ∷ []) (pos 700) ≡ some (true, with_a)
unfolding with_a filesys_create dir_open_root dir_open dir_close create_in create_at give_back
    inode_create create_with write_zeros inode_open open_with inode_reopen inode_close find_inode
    put_inode free_map_allocate block_read block_write check_sector dir_add add_new lookup
    lookup_from same_name free_slot scan_and_flip scan scan_from contains in_range contains_from
    test nonzero set_multiple set_from set mark update_word
create_run = refl

one_entry : length with_a.root ≤ 4
unfolding with_a filesys_create dir_open_root dir_open dir_close create_in create_at give_back
    inode_create create_with write_zeros inode_open open_with inode_reopen inode_close find_inode
    put_inode free_map_allocate block_read block_write check_sector dir_add add_new lookup
    lookup_from same_name free_slot scan_and_flip scan scan_from contains in_range contains_from
    test nonzero set_multiple set_from set mark update_word
one_entry = omega arith

filesys_open-create_example :
    (s : ℕ) × (fs2 : FileSys) × (filesys_open with_a all_well (97 ∷ []) ≡ some (some s, fs2))
    × (owner_with none s ≡ none)
    × FoundFile with_a fs2 (97 ∷ []) s
unfolding find_inode
filesys_open-create_example =
    filesys_open-create fs with_a 32 (owner_with none) all_well all_well (97 ∷ []) 700
      (with-Owned none) refl all_well-IsStore all_well-IsStore (omega arith) zero_used (omega arith)
      refl refl (inl refl, tt) (omega arith) (omega arith) (omega arith) create_run refl refl
      one_entry
