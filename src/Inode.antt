-- ===== src/Inode.antt =====
-- src/filesys/inode.c: the bytes of an open file on the file system's device. Offsets and sizes
-- (`off_t`) are natural numbers: the callers pass none below 0 but by the conversions described at
-- the system calls. The device is `fs_device`; `none` is a PANIC of the device or a failed ASSERT.
pub mod Read
pub mod Write
pub mod Deny
pub mod Sample
mod Tests
use operating_system.Common.{
  ℕ, zero, suc, ◌+◌, ◌-◌, ◌*◌, ◌/◌, ◌%◌, Bool, true, false, not, ◌&&◌, ◌||◌, Option, none, some,
  List, [], ◌∷◌, ◌++◌, ◌==◌, ltb, leb, min, if◌then◌else◌, length, ◌>>=◌, ◌>>◌, assert, tabulate,
}
use operating_system.Block.{block_sector_size, Bytes, Block, block_read, block_write}

-- `struct inode` with the two fields of `struct inode_disk` that are read through it.
pub record Inode : Type 0 where
  pub sector : ℕ
  pub open_cnt : ℕ
  pub removed : Bool
  pub deny_write_cnt : ℕ
  pub start : ℕ
  pub data_length : ℕ

-- DIV_ROUND_UP on an `off_t` from 0 to below 2^31 - 512, where the sum in it does not overflow:
-- `inode_create` is undefined above, and no length on a device of fewer than 2^22 - 1 sectors is.
abbrev pub bytes_to_sectors : ℕ → ℕ
bytes_to_sectors size = (size + block_sector_size - 1) / block_sector_size

-- `none` stands for the -1 of an offset past the end.
abbrev pub byte_to_sector : Inode → ℕ → Option ℕ
byte_to_sector i p = if ltb p i.data_length then some (i.start + p / block_sector_size) else none

-- The size of the next chunk: min (size, inode_left, sector_left), 0 past the end.
abbrev pub chunk_size : Inode → ℕ → ℕ → ℕ
chunk_size i size offset =
    min size (min (i.data_length - offset) (block_sector_size - offset % block_sector_size))

-- A chunk that fills a sector goes without the bounce buffer.
abbrev pub is_full : ℕ → ℕ → Bool
is_full offset chunk = (offset % block_sector_size == 0) && (chunk == block_sector_size)

-- One round of `inode_read_at` reads the bytes of a chunk from its sector.
pub read_chunk : Block → Inode → (offset chunk : ℕ) → Option (List ℕ × Block)
read_chunk b i offset chunk = do
  s ← byte_to_sector i offset
  (d, b') ← block_read b s
  some (tabulate (offset % block_sector_size) chunk d, b')

-- The loop of `inode_read_at` on fuel (`none` also if that runs out): the bytes read, and the
-- device with its count of reads. `bounce` says whether malloc returns a bounce buffer.
pub read_from :
    (fuel : ℕ) → Block → Inode → (bounce : Bool) → (size offset : ℕ) → Option (List ℕ × Block)
read_from zero b i bounce size offset = none
read_from (suc fuel) b i bounce size offset =
    let chunk = chunk_size i size offset in
    let next =
      (read_chunk b i offset chunk >>= λ r.
      read_from fuel r.1 i bounce (size - chunk) (offset + chunk) >>= λ rest.
      some (r.0 ++ rest.0, rest.1)) in
    if chunk == 0
    then some ([], b)
    else if is_full offset chunk || bounce
    then next
    else some ([], b)

-- Each round takes a byte at least, so `size` rounds and the last test do.
pub inode_read_at : Block → Inode → (bounce : Bool) → (size offset : ℕ) → Option (List ℕ × Block)
inode_read_at b i bounce size offset = read_from (size + 1) b i bounce size offset

-- `memcpy (d + ofs, buffer + from, chunk)`
abbrev pub memcpy_at : Bytes → ℕ → Bytes → ℕ → ℕ → Bytes
memcpy_at d ofs buffer from chunk k =
    if leb ofs k && ltb k (ofs + chunk) then buffer (from + (k - ofs)) else d k

-- What the bounce buffer holds before the chunk is copied into it.
pub bounce_before : Block → (sector offset chunk : ℕ) → Option (Bytes × Block)
bounce_before b s offset chunk =
    let sector_ofs = offset % block_sector_size in
    if ltb 0 sector_ofs || ltb chunk (block_sector_size - sector_ofs)
    then block_read b s
    else some ((λ k. 0), b)

-- One round of `inode_write_at`: `done` bytes of the buffer were written before.
pub write_chunk : Block → Inode → Bytes → (done offset chunk : ℕ) → Option Block
write_chunk b i buffer done offset chunk = do
  s ← byte_to_sector i offset
  if is_full offset chunk then block_write b s (λ k. buffer (done + k)) else do
    (d, b') ← bounce_before b s offset chunk
    block_write b' s (memcpy_at d (offset % block_sector_size) buffer done chunk)

-- The loop of `inode_write_at` on fuel: the bytes written in all, and the device.
pub write_from :
    (fuel : ℕ)
    → Block
    → Inode
    → (bounce : Bool) → Bytes
    → (done size offset : ℕ) → Option (ℕ × Block)
write_from zero b i bounce buffer done size offset = none
write_from (suc fuel) b i bounce buffer done size offset =
    let chunk = chunk_size i size offset in
    let next =
      (write_chunk b i buffer done offset chunk >>= λ b'.
      write_from fuel b' i bounce buffer (done + chunk) (size - chunk) (offset + chunk)) in
    if chunk == 0
    then some (done, b)
    else if is_full offset chunk || bounce
    then next
    else some (done, b)

pub inode_write_at :
    Block → Inode → (bounce : Bool) → Bytes → (size offset : ℕ) → Option (ℕ × Block)
inode_write_at b i bounce buffer size offset =
    if i.deny_write_cnt == 0
    then write_from (size + 1) b i bounce buffer 0 size offset
    else some (0, b)

pub inode_deny_write : Inode → Option Inode
inode_deny_write i =
    assert (leb (i.deny_write_cnt + 1) i.open_cnt)
    >> some (record i { deny_write_cnt = i.deny_write_cnt + 1 })

pub inode_allow_write : Inode → Option Inode
inode_allow_write i = do
  assert (ltb 0 i.deny_write_cnt)
  assert (leb i.deny_write_cnt i.open_cnt)
  some (record i { deny_write_cnt = i.deny_write_cnt - 1 })

pub inode_length : Inode → ℕ
inode_length i = i.data_length
