-- ===== src/File/Tests.antt =====
-- A store of two files of one inode, and the theorems on src/filesys/file.c at it.
use operating_system.Common.{
  ℕ, ◌+◌, ◌≡◌, Bool, true, some, List, [], ◌∷◌, ◌++◌, arith, ◌==◌, if◌then◌else◌,
}
use operating_system.Block.{Bytes}
use operating_system.Inode.Sample.{disk, inode}
use operating_system.Inode.Read.{available}
use operating_system.File.{Files, inode_of, file_deny_write, file_write_at, file_read}
use operating_system.File.Deny.{IsValid, file_deny_write_lem}
use operating_system.File.Sequence.{bytes_at, file_read-append}

-- Files 1 and 2 share inode 0; file 2 denies writes.
abbrev store : Files
store = record {
  device = disk;
  inodes = λ i. record inode { open_cnt = 2; deny_write_cnt = if i == 0 then 1 else 0 };
  files = λ f. record { inode = 0; position = 500; deny_write = f == 2 };
  open_files = 1 ∷ 2 ∷ [];
}

store-IsValid : IsValid store
store-IsValid = record {
  once = λ f. ground arith;
  opened = λ i. ground arith;
  denied = λ i. ground arith;
}

file_deny_write_lem_example :
    (s' : Files) × (file_deny_write store 1 ≡ some s')
    × IsValid s'
    × ((s'.files 1).deny_write ≡ true)
    × ((g : ℕ)
        → (s'.files g).inode ≡ (s'.files 1).inode
        → (bounce : Bool) (buffer : Bytes) (size file_ofs : ℕ)
        → file_write_at s' bounce g buffer size file_ofs ≡ some (0, s'))
file_deny_write_lem_example = file_deny_write_lem store-IsValid 1 (omega arith)

-- The second read is cut off at the end of the file, at 700.
file_read-append_example :
    (xs ys : List ℕ) × (s1 s2 : Files) × (file_read store true 1 50 ≡ some (xs, s1))
    × (file_read s1 true 1 300 ≡ some (ys, s2))
    × (xs ++ ys ≡ bytes_at store 1 500 (available (inode_of store 1) 350 500))
    × ((s2.files 1).position ≡ 500 + available (inode_of store 1) 350 500)
file_read-append_example = file_read-append store 1 50 300 (omega arith)
