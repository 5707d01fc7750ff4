-- ===== src/Swap.antt =====
-- src/vm/swap.c: swap slots of eight sectors behind a bitmap of used slots. `Swap_lock` only
-- orders the accesses to the bitmap and has no state here; `none` is a PANIC or a failed ASSERT.
pub mod Slots
pub mod Sample
mod Tests
use operating_system.Common.{
  ℕ, zero, suc, ◌+◌, ◌*◌, ◌/◌, ◌%◌, Bool, true, false, Option, none, some, List, ◌==◌,
  if◌then◌else◌, ◌>>=◌, ◌>>◌, assert,
}
use operating_system.Block.{block_sector_size, Bytes, Block, block_read, block_write, block_size}
use operating_system.Bitmap
use operating_system.Bitmap.{Bitmap, Word}

abbrev pub pgsize : ℕ
pgsize = 4096

-- PGSIZE / BLOCK_SECTOR_SIZE
abbrev pub sectors_per_page : ℕ
sectors_per_page = pgsize / block_sector_size

-- The statics of the file; `block` is NULL on a machine with no swap device.
pub record Swap : Type 0 where
  pub block : Option Block
  pub bitmap : Bitmap

-- The number of slots of the swap device, 0 without one.
slot_cnt : Option Block → ℕ
slot_cnt none = 0
slot_cnt (some b) = block_size b / sectors_per_page

-- `swap_init` on the device of role BLOCK_SWAP, with what malloc returns to `bitmap_create`.
pub swap_init : Option Block → (header : Bool) → (words : Option (List Word)) → Option Swap
swap_init dev header words = do
  made ← Bitmap.create (slot_cnt dev) header words
  map' ← made
  some (record { block = dev; bitmap = map' })

-- Sector `i` of a page in memory.
abbrev pub chunk : Bytes → ℕ → Bytes
chunk page i = λ k. page (i * block_sector_size + k)

-- The page after sector `i` of it was overwritten.
abbrev pub put_chunk : Bytes → ℕ → Bytes → Bytes
put_chunk page i d = λ j. if j / block_sector_size == i then d (j % block_sector_size) else page j

-- The loop of `swap_out`, from sector `i` of the page on with `n` rounds left.
pub write_from : Block → (base : ℕ) → Bytes → ℕ → ℕ → Option Block
write_from b base page i zero = some b
write_from b base page i (suc n) =
    block_write b (base + i) (chunk page i) >>= λ b'. write_from b' base page (i + 1) n

pub read_from : Block → (base : ℕ) → Bytes → ℕ → ℕ → Option (Bytes × Block)
read_from b base page i zero = some (page, b)
read_from b base page i (suc n) = do
  (d, b') ← block_read b (base + i)
  read_from b' base (put_chunk page i d) (i + 1) n

-- The slot that the page went to, and the new state.
pub swap_out : Swap → Bytes → Option (ℕ × Swap)
swap_out s kpage = do
  (found, bitmap') ← Bitmap.scan_and_flip s.bitmap 0 1 false
  slot ← found
  b ← s.block
  b' ← write_from b (slot * sectors_per_page) kpage 0 sectors_per_page
  some (slot, record { block = some b'; bitmap = bitmap' })

-- The page read back into `kpage`, and the new state.
pub swap_in : Swap → ℕ → Bytes → Option (Bytes × Swap)
swap_in s slot kpage = do
  used ← Bitmap.test s.bitmap slot
  assert used
  b ← s.block
  (page, b') ← read_from b (slot * sectors_per_page) kpage 0 sectors_per_page
  bitmap' ← Bitmap.reset s.bitmap slot
  some (page, record { block = some b'; bitmap = bitmap' })

pub swap_free : Swap → ℕ → Option Swap
swap_free s slot = do
  used ← Bitmap.test s.bitmap slot
  assert used
  bitmap' ← Bitmap.reset s.bitmap slot
  some (record s { bitmap = bitmap' })
