-- ===== src/Inode/Tests.antt =====
-- A file of 700 bytes, and the theorems on src/filesys/inode.c at it.
use operating_system.Common.{refl, ℕ, ◌≡◌, true, some, List, arith}
use operating_system.Block.{Block}
use operating_system.Inode.{inode_read_at, inode_write_at}
use operating_system.Inode.Write.{HasWritten, inode_write_at_lem}
use operating_system.Inode.Read.{HasRead, available, inode_read_at_lem}
use operating_system.Inode.Sample.{disk, inode}

-- The read starts in the first sector and is cut off at the end, in the second.
inode_read_at_lem_example :
    (bytes : List ℕ) × (b' : Block) × (inode_read_at disk inode true 400 500 ≡ some (bytes, b'))
    × HasRead disk b' inode 500 (available inode 400 500) bytes
inode_read_at_lem_example = inode_read_at_lem disk inode 400 500 (omega arith)

-- The write goes over the boundary of the two sectors.
inode_write_at_lem_example :
    (b' : Block) × (inode_write_at disk inode true (λ k. k) 150 500
      ≡ some (available inode 150 500, b'))
    × HasWritten disk b' inode (λ k. k) 0 500 (available inode 150 500)
inode_write_at_lem_example = inode_write_at_lem disk inode (λ k. k) 150 500 (omega arith) refl refl
