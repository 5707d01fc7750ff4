-- ===== src/Block.antt =====
-- src/devices/block.c: a block device as the sectors that it stores. The drivers behind
-- `block->ops` are hardware: a read returns what the last write to the sector stored.
use operating_system.Common.{
  ℕ, ◌+◌, ◌<◌, ◌≡◌, Bool, false, not, Option, some, none, arith, ◌==◌, ltb, lt→ltb, if◌then◌else◌,
  ◌>>◌, assert,
}

abbrev pub block_sector_size : ℕ
block_sector_size = 512

-- A sector, or any buffer in memory: the byte at an offset.
abbrev pub Bytes : Type 0
Bytes = ℕ → ℕ

-- `struct block`; `foreign` says whether its type is BLOCK_FOREIGN.
pub record Block : Type 0 where
  pub size : ℕ
  pub foreign : Bool
  pub sectors : ℕ → Bytes
  pub read_cnt : ℕ
  pub write_cnt : ℕ

-- PANIC past the end of the device.
unfoldable pub check_sector : Block → ℕ → Option (Unit {0})
check_sector b sector = if ltb sector b.size then some tt else none

unfoldable pub block_read : Block → ℕ → Option (Bytes × Block)
unfolding check_sector
block_read b sector =
    check_sector b sector >> some (b.sectors sector, record b { read_cnt = b.read_cnt + 1 })

abbrev pub store : (ℕ → Bytes) → ℕ → Bytes → ℕ → Bytes
store sectors s d j = if j == s then d else sectors j

unfoldable pub block_write : Block → ℕ → Bytes → Option Block
unfolding check_sector
block_write b sector data' = do
  check_sector b sector
  assert (not b.foreign)
  some (record b { sectors = store b.sectors sector data'; write_cnt = b.write_cnt + 1 })

pub block_size : Block → ℕ
block_size b = b.size

module _ (b : Block) (s : ℕ) (h : s < b.size) where
  pub block_read-some : block_read b s ≡ some (b.sectors s, record b { read_cnt = b.read_cnt + 1 })
  unfolding block_read
  block_read-some = rw (lt→ltb s b.size h)

  pub block_write-some :
      (d : Bytes)
      → b.foreign ≡ false
      → block_write b s d
        ≡ some (record b { sectors = store b.sectors s d; write_cnt = b.write_cnt + 1 })
  unfolding block_write
  block_write-some d e = rw (lt→ltb s b.size h) (ground arith)
