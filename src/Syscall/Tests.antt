-- ===== src/Syscall/Tests.antt =====
-- The theorems on src/userprog/syscall.c at one open file and at small numbers.
use operating_system.Common.{
  ◌+◌, ◌≡◌, refl, false, some, none, [], ◌∷◌, arith, ◌==◌, ◌^◌, if◌then◌else◌,
}
use operating_system.Common.Int.{pos}
use operating_system.Inode.Sample.{disk, inode}
use operating_system.File.{Files}
use operating_system.Syscall.{FdTable, get_file, seek}
use operating_system.Syscall.Seek.{seek_panics}

abbrev store : Files
store = record {
  device = disk;
  inodes = λ i. record inode { open_cnt = 1 };
  files = λ f. record { inode = 0; position = 0; deny_write = false };
  open_files = 7 ∷ [];
}

-- Descriptor 2 stands for file 7.
abbrev table : FdTable
table = some (λ fd. if fd == 2 then some 7 else none)

get_file-run : get_file table (pos 2) ≡ some 7
unfolding get_file
get_file-run = refl

seek_panics_example : seek store table (pos 2) (2 ^ 31 + 5) ≡ none
seek_panics_example =
    seek_panics store table (pos 2) 7 (2 ^ 31 + 5) get_file-run (omega arith) (omega arith)
