-- ===== src/FileSys.antt =====
-- src/filesys/filesys.c: creating, finding and removing files by name. The content of the root
-- directory's inode is seen as its entries, as in the module Directory.
pub mod Sectors
pub mod Named
pub mod Create
pub mod Open
mod Tests
use operating_system.Common.{
  ℕ, Bool, true, false, not, ◌&&◌, Option, none, some, List, ◌==◌, if◌then◌else◌, ◌>>=◌,
}
use operating_system.Common.Int.{ℤ}
use operating_system.Block.{Block}
use operating_system.FreeMap.{FreeMap, root_dir_sector, free_map_allocate, free_map_release}
use operating_system.InodeTable.{
  InodeTable, inode_create, inode_open, inode_close, inode_remove, find_inode,
}
use operating_system.Directory.{Buffers, DirEntry, lookup, sector_of, dir_add, dir_remove}

pub record FileSys : Type 0 where
  pub table : InodeTable
  pub root : List DirEntry

-- What one call meets: whether memory is had for the inode of the root, the `struct dir`, a second
-- inode and the sector buffer, which reads and writes of the directory get a bounce buffer, and
-- whether the free map can be stored for one sector and for the data; `store_map` is what storing a
-- map makes of the device.
pub record Outcomes : Type 0 where
  pub root_inode : Bool
  pub dir : Bool
  pub inode : Bool
  pub disk_inode : Bool
  pub buffers : Buffers
  pub store_map : FreeMap → Block → Block
  pub one_written : Bool
  pub data_written : Bool

-- `dir_open`: with no memory for the `struct dir`, the inode is closed again.
unfoldable pub dir_open :
    Bool → (FreeMap → Block → Block) → Bool × InodeTable → (sector : ℕ) → Option (Bool × InodeTable)
dir_open memory store_map (false, t) sector = some (false, t)
dir_open true store_map (true, t) sector = some (true, t)
dir_open false store_map (true, t) sector =
    inode_close t store_map sector >>= λ t'. some (false, t')

unfoldable pub dir_open_root : InodeTable → Outcomes → Option (Bool × InodeTable)
dir_open_root t o =
    inode_open t o.root_inode root_dir_sector >>= λ r. dir_open o.dir o.store_map r root_dir_sector

-- `dir_close`
unfoldable pub dir_close : InodeTable → (FreeMap → Block → Block) → (sector : ℕ) → Option InodeTable
dir_close t store_map sector = inode_close t store_map sector

-- The directory after `inode_create` has answered `made`.
abbrev pub add_made : Bool → Buffers → List DirEntry → List ℕ → ℕ → Bool × List DirEntry
add_made false b es name s = (false, es)
add_made true b es name s = dir_add b es name s

-- `if (!success && inode_sector != 0) free_map_release (inode_sector, 1)`
unfoldable pub give_back : Bool → InodeTable → (FreeMap → Block → Block) → ℕ → Option InodeTable
give_back true t store_map s = some t
give_back false t store_map s =
    if s == 0
    then some t
    else (free_map_release t.free_map s 1 >>= λ f.
        some (record t { free_map = f; device = store_map f t.device }))

-- The rest of `filesys_create` once a sector was asked for.
unfoldable pub create_at :
    Option ℕ → InodeTable → List DirEntry → Outcomes → List ℕ → ℤ → Option (Bool × FileSys)
create_at none t es o name size = do
  t' ← dir_close t o.store_map root_dir_sector
  some (false, record { table = t'; root = es })
create_at (some s) t es o name size = do
  r ← inode_create t o.disk_inode o.data_written o.store_map s size
  let a : Bool × List DirEntry = add_made r.0 o.buffers es name s
  t1 ← give_back a.0 r.1 o.store_map s
  t2 ← dir_close t1 o.store_map root_dir_sector
  some (a.0, record { table = t2; root = a.1 })

-- `filesys_create` after `dir_open_root`.
unfoldable pub create_in :
    Bool × InodeTable → List DirEntry → Outcomes → List ℕ → ℤ → Option (Bool × FileSys)
create_in (false, t) es o name size = some (false, record { table = t; root = es })
create_in (true, t) es o name size = free_map_allocate t.free_map o.one_written 1 >>= λ r.
    create_at r.0 (record t { free_map = r.1; device = o.store_map r.1 t.device }) es o name size

unfoldable pub filesys_create :
    FileSys → Outcomes → List ℕ → (initial_size : ℤ) → Option (Bool × FileSys)
filesys_create fs o name initial_size =
    dir_open_root fs.table o >>= λ r. create_in r fs.root o name initial_size

-- `dir_lookup` after the lookup: the sector of the inode that was opened.
unfoldable pub lookup_with :
    Option ℕ → InodeTable → (allocated : Bool) → Option (Option ℕ × InodeTable)
lookup_with none t allocated = some (none, t)
lookup_with (some s) t allocated =
    inode_open t allocated s >>= λ r. some (if r.0 then some s else none, r.1)

unfoldable pub dir_lookup :
    InodeTable
    → (reads : ℕ) → List DirEntry
    → (allocated : Bool) → List ℕ
    → Option (Option ℕ × InodeTable)
dir_lookup t reads es allocated name = lookup_with (sector_of (lookup reads es name)) t allocated

-- `filesys_open` after `dir_open_root`.
unfoldable pub open_in :
    Bool × InodeTable → List DirEntry → Outcomes → List ℕ → Option (Option ℕ × FileSys)
open_in (false, t) es o name = some (none, record { table = t; root = es })
open_in (true, t) es o name = dir_lookup t o.buffers.lookup_reads es o.inode name >>= λ i.
    dir_close i.1 o.store_map root_dir_sector >>= λ t'. some (i.0, record { table = t'; root = es })

-- `filesys_open` up to `file_open`: the sector of the inode, or `none` for NULL.
unfoldable pub filesys_open : FileSys → Outcomes → List ℕ → Option (Option ℕ × FileSys)
filesys_open fs o name = dir_open_root fs.table o >>= λ r. open_in r fs.root o name

-- `dir_remove` where the lookup gave a sector whose inode `inode_open` opened, or not.
unfoldable pub remove_entry :
    Bool × InodeTable
    → Outcomes
    → List DirEntry
    → List ℕ
    → (sector : ℕ) → Option ((Bool × List DirEntry) × InodeTable)
remove_entry (false, t) o es name s = some ((false, es), t)
remove_entry (true, t) o es name s = do
  let d : Bool × List DirEntry × Option ℕ = dir_remove o.buffers es name (λ k. true)
  t1 ← if d.0 then inode_remove t s else some t
  t2 ← inode_close t1 o.store_map s
  some ((d.0, d.1), t2)

unfoldable pub remove_name :
    Option ℕ
    → InodeTable
    → Outcomes
    → List DirEntry
    → List ℕ
    → Option ((Bool × List DirEntry) × InodeTable)
remove_name none t o es name = some ((false, es), t)
remove_name (some s) t o es name = inode_open t o.inode s >>= λ r. remove_entry r o es name s

-- `filesys_remove` after `dir_open_root`.
unfoldable pub remove_in :
    Bool × InodeTable → List DirEntry → Outcomes → List ℕ → Option (Bool × FileSys)
remove_in (false, t) es o name = some (false, record { table = t; root = es })
remove_in (true, t) es o name = do
  r ← remove_name (sector_of (lookup o.buffers.lookup_reads es name)) t o es name
  t' ← dir_close r.1 o.store_map root_dir_sector
  some (r.0.0, record { table = t'; root = r.0.1 })

unfoldable pub filesys_remove : FileSys → Outcomes → List ℕ → Option (Bool × FileSys)
filesys_remove fs o name = dir_open_root fs.table o >>= λ r. remove_in r fs.root o name
