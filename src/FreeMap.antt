-- ===== src/FreeMap.antt =====
-- src/filesys/free-map.c: the sectors of the file system's device that are in use.
-- The file that keeps the map on the device is seen through two flags: whether it is open, and,
-- for each call, whether `bitmap_write` to it succeeds; what that write makes of the device is the
-- argument `store_map` of the callers, in InodeTable and FileSys, which have the device. `none` is a
-- failed ASSERT or a PANIC.
pub mod Allocate
mod Tests
use operating_system.Common.{
  ℕ, Bool, true, false, not, ◌&&◌, Option, none, some, if◌then◌else◌, ◌>>=◌, ◌>>◌, assert,
}
use operating_system.Bitmap.{Bitmap, scan_and_flip, set_multiple, all, mark}

-- `free_map` and whether `free_map_file` is not NULL.
pub record FreeMap : Type 0 where
  pub map : Bitmap
  pub is_open : Bool

abbrev pub free_map_sector : ℕ
free_map_sector = 0

abbrev pub root_dir_sector : ℕ
root_dir_sector = 1

-- From the bitmap that `bitmap_create` returned, NULL if memory ran out.
pub free_map_init : Option Bitmap → Option FreeMap
free_map_init created = do
  b0 ← created
  b1 ← mark b0 free_map_sector
  b2 ← mark b1 root_dir_sector
  some (record { map = b2; is_open = false })

-- The first of `cnt` sectors, or `none` for false; `written` is the answer of `bitmap_write`.
unfoldable pub free_map_allocate :
    FreeMap → (written : Bool) → (cnt : ℕ) → Option (Option ℕ × FreeMap)
free_map_allocate f written cnt = do
  (sector, b) ← scan_and_flip f.map 0 cnt false
  elim sector [
    | none ↦ some (none, record f { map = b })
    | some s ↦
        if f.is_open && not written
        then (set_multiple b s cnt false >>= λ b'. some (none, record f { map = b' }))
        else some (some s, record f { map = b })
  ]

pub free_map_release : FreeMap → (sector cnt : ℕ) → Option FreeMap
free_map_release f sector cnt = do
  set' ← all f.map sector cnt
  assert set'
  b ← set_multiple f.map sector cnt false
  assert f.is_open
  some (record f { map = b })

-- `stored` is what `bitmap_read` puts into the map, and whether it succeeds.
pub free_map_open : FreeMap → (opened : Bool) → (stored : Option Bitmap) → Option FreeMap
free_map_open f opened stored =
    assert opened >> stored >>= λ b. some (record { map = b; is_open = true })

-- `file_close` leaves the pointer as it is.
pub free_map_close : FreeMap → FreeMap
free_map_close f = f
