-- ===== src/InodeTable/Tests.antt =====
-- A table with one open inode on a device of 32 sectors, and the theorems on src/filesys/inode.c at it.
use operating_system.Common.{ℕ, Option, ◌+◌, ◌-◌, ◌^◌, ◌<◌, ◌≡◌, refl, Bool, true, some, arith}
use operating_system.Common.Int.{pos}
use operating_system.Block.{Block}
use operating_system.FreeMap.{FreeMap}
use operating_system.InodeTable.Owners.{IsStore}
use operating_system.InodeTable.{InodeTable, find_inode, inode_create, inode_close}
use operating_system.InodeTable.Create.{IsCreated, inode_create_lem}
use operating_system.InodeTable.Close.{Closed, inode_close_lem}
use operating_system.InodeTable.Sample.{
  table, owner, table-Owned, root_inode, reserved, reserved-Owned,
}

-- Storing the map counts as a write of the device.
abbrev counted : FreeMap → Block → Block
counted f b = record b { write_cnt = b.write_cnt + 1 }

counted-IsStore : (o : ℕ → Option ℕ) → IsStore o counted
counted-IsStore o f b = record { size = refl; foreign = refl; kept = λ j h k p. refl }

inode_close_lem_example :
    (t' : InodeTable) × (inode_close table counted 1 ≡ some t')
    × (root_inode.data_length < 2 ^ 31 - 512)
    × Closed table t' 32 owner root_inode
unfolding find_inode
inode_close_lem_example =
    inode_close_lem table 32 owner counted root_inode table-Owned (counted-IsStore owner)
      (omega arith) refl

inode_create_lem_example :
    (ok : Bool) × (t' : InodeTable) × (inode_create table true true counted 2 (pos 700)
      ≡ some (ok, t'))
    × IsCreated ok table t' 32 reserved true true 2 700
unfolding find_inode
inode_create_lem_example =
    inode_create_lem table 32 reserved true true counted 2 700 reserved-Owned
      (counted-IsStore reserved) refl (omega arith) (omega arith) refl refl (omega arith)
