-- ===== src/Inode/Sample.antt =====
-- A disk and a file of 700 bytes at which the theorems on src/filesys/inode.c are applied.
use operating_system.Common.{◌+◌, ◌*◌, false}
use operating_system.Block.{Block}
use operating_system.Inode.{Inode}

abbrev pub disk : Block
disk = record {
  size = 64;
  foreign = false;
  sectors = λ s k. s * 3 + k;
  read_cnt = 0;
  write_cnt = 0;
}

abbrev pub inode : Inode
inode = record {
  sector = 9;
  open_cnt = 1;
  removed = false;
  deny_write_cnt = 0;
  start = 10;
  data_length = 700;
}
