-- ===== src/InodeTable.antt =====
-- src/filesys/inode.c: creating, opening, closing and removing inodes; the module Inode has their
-- data. A `struct inode *` goes by its sector, since no two open inodes share one. `none` is a
-- PANIC, a failed ASSERT or the use of an inode that is not open.
pub mod Owners
mod Store
pub mod Zeros
pub mod Create
pub mod Disown
pub mod Close
pub mod Open
pub mod Sample
mod Tests
use operating_system.Common.{
  ℕ, zero, suc, ◌+◌, ◌-◌, ◌*◌, ◌/◌, ◌%◌, ◌^◌, Bool, true, false, not, Option, none, some, List, [],
  ◌∷◌, ◌==◌, ltb, leb, if◌then◌else◌, ◌>>=◌, ◌>>◌, assert,
}
use operating_system.Common.Int.{ℤ, pos, ltb_ℤ, pos_part}
use operating_system.Block.{Bytes, Block, block_read, block_write}
use operating_system.Inode.{Inode, bytes_to_sectors}
use operating_system.FreeMap.{FreeMap, free_map_allocate, free_map_release}

-- `fs_device`, the free map and `open_inodes`.
pub record InodeTable : Type 0 where
  pub device : Block
  pub free_map : FreeMap
  pub open_inodes : List Inode

abbrev pub inode_magic : ℕ
inode_magic = 1229867844

-- Byte `k` of a 32-bit number, the lowest first.
abbrev pub byte_of : ℕ → ℕ → ℕ
byte_of x zero = x % 256
byte_of x (suc k) = byte_of (x / 256) k

-- The bytes of a `struct inode_disk`; `calloc` cleared the unused ones.
abbrev pub inode_disk : (start length : ℕ) → Bytes
inode_disk start length k =
    if ltb k 4
    then byte_of start k
    else if ltb k 8
    then byte_of length (k - 4)
    else if ltb k 12
    then byte_of inode_magic (k - 8)
    else 0

-- The 32-bit number at an offset.
abbrev pub disk_word : Bytes → ℕ → ℕ
disk_word d k = d k + 256 * (d (k + 1) + 256 * (d (k + 2) + 256 * d (k + 3)))

-- `start` is a sector number, `length` the 32-bit word of an `off_t`.
abbrev pub disk_start : Bytes → ℕ
disk_start d = disk_word d 0

abbrev pub disk_length : Bytes → ℕ
disk_length d = disk_word d 4

-- The loop of `inode_create` that writes zeros to sectors i, i + 1, …
unfoldable pub write_zeros : Block → ℕ → ℕ → Option Block
write_zeros b i zero = some b
write_zeros b i (suc n) = block_write b i (λ k. 0) >>= λ b'. write_zeros b' (i + 1) n

-- The part of `inode_create` after `calloc`.
unfoldable pub create_with :
    InodeTable → Option ℕ × FreeMap → (sector length : ℕ) → Option (Bool × InodeTable)
create_with t (none, f) sector length = some (false, record t { free_map = f })
create_with t (some start, f) sector length = do
  b ← block_write t.device sector (inode_disk start length)
  b' ← write_zeros b start (bytes_to_sectors length)
  some (true, record t { device = b'; free_map = f })

-- `allocated` says whether `calloc` succeeds, `written` whether the free map can be stored, and
-- `store_map` what `bitmap_write` of the free map to its file makes of the device. The `off_t` sum in
-- DIV_ROUND_UP must not overflow.
unfoldable pub inode_create :
    InodeTable
    → (allocated written : Bool) → (store_map : FreeMap → Block → Block) → (sector : ℕ)
    → (length : ℤ) → Option (Bool × InodeTable)
inode_create t allocated written store_map sector length =
    let sectors = bytes_to_sectors (pos_part length) in
    assert (not (ltb_ℤ length (pos 0)))
    >> (if allocated
        then (assert (ltb (pos_part length) (2 ^ 31 - 512))
            >> (free_map_allocate t.free_map written sectors >>= λ r.
                create_with (record t { device = store_map r.1 t.device }) r sector
                  (pos_part length)))
        else some (false, t))

unfoldable pub find_inode : List Inode → ℕ → Option Inode
find_inode [] sector = none
find_inode (i ∷ is) sector = if i.sector == sector then some i else find_inode is sector

unfoldable pub put_inode : List Inode → Inode → List Inode
put_inode [] r = []
put_inode (i ∷ is) r = if i.sector == r.sector then r ∷ is else i ∷ put_inode is r

-- `list_remove (&inode->elem)`
unfoldable pub remove_inode : List Inode → ℕ → List Inode
remove_inode [] sector = []
remove_inode (i ∷ is) sector = if i.sector == sector then is else i ∷ remove_inode is sector

unfoldable pub inode_reopen : InodeTable → ℕ → Option InodeTable
inode_reopen t sector = do
  i ← find_inode t.open_inodes sector
  some (record t { open_inodes = put_inode t.open_inodes (record i { open_cnt = i.open_cnt + 1 }) })

-- A fresh `struct inode` with the data of its sector.
abbrev pub new_inode : ℕ → Bytes → Inode
new_inode sector data' = record {
  sector = sector;
  open_cnt = 1;
  removed = false;
  deny_write_cnt = 0;
  start = disk_start data';
  data_length = disk_length data';
}

-- `inode_open` after the search of the list.
unfoldable pub open_with :
    Option Inode → InodeTable → (allocated : Bool) → (sector : ℕ) → Option (Bool × InodeTable)
open_with (some i) t allocated sector = inode_reopen t sector >>= λ t'. some (true, t')
open_with none t false sector = some (false, t)
open_with none t true sector = block_read t.device sector >>= λ r.
    some (true, record t { device = r.1; open_inodes = new_inode sector r.0 ∷ t.open_inodes })

-- Whether the inode is open afterwards, which it is not where `malloc` fails.
unfoldable pub inode_open :
    InodeTable → (allocated : Bool) → (sector : ℕ) → Option (Bool × InodeTable)
inode_open t allocated sector = open_with (find_inode t.open_inodes sector) t allocated sector

-- The last reference: the inode leaves the list, and its sectors are free if it was removed.
-- `store_map` is as in `inode_create`, here for both calls of `free_map_release`.
unfoldable pub close_last : InodeTable → (FreeMap → Block → Block) → Inode → Option InodeTable
close_last t store_map i =
    let t' = record t { open_inodes = remove_inode t.open_inodes i.sector } in
    if i.removed
    then (free_map_release t.free_map i.sector 1 >>= λ f.
        free_map_release f i.start (bytes_to_sectors i.data_length) >>= λ f'.
        some (record t' { free_map = f'; device = store_map f' t'.device }))
    else some t'

-- An open inode has a count of 1 at least, so it is the last reference if the count is 1.
unfoldable pub inode_close : InodeTable → (FreeMap → Block → Block) → ℕ → Option InodeTable
inode_close t store_map sector = find_inode t.open_inodes sector >>= λ i.
    (if i.open_cnt == 1
      then close_last t store_map i
      else some (record t {
        open_inodes = put_inode t.open_inodes (record i { open_cnt = i.open_cnt - 1 });
      }))

unfoldable pub inode_remove : InodeTable → ℕ → Option InodeTable
inode_remove t sector = do
  i ← find_inode t.open_inodes sector
  some (record t { open_inodes = put_inode t.open_inodes (record i { removed = true }) })
