-- ===== src/InodeTable/Store.antt =====
-- `bitmap_write` of the free map in src/filesys/free-map.c, as a write of the inode of its file.
use operating_system.Common.{
  ℕ, ◌+◌, ◌≤◌, ◌<◌, ◌≡◌, ◌≢◌, Option, some, inl, inr, ◌⊎◌, arith, false, true,
}
use native.Mathlib.Decide.{dec_lt}
use operating_system.Block.{Bytes, Block}
use operating_system.Inode.{Inode, bytes_to_sectors, inode_write_at}
use operating_system.Inode.Read.{Fits, available}
use operating_system.Inode.Write.{inode_write_at_lem}
use operating_system.FreeMap.{free_map_sector}
use operating_system.InodeTable.Owners.{Extent, Stored}

-- A write from the start of the free map's file, whose inode has its data where the owners say, on a
-- device that is no foreign one, if nobody denies writes and a bounce buffer is had: it changes no
-- sector but the data of that file.
free_map_write-Stored :
    (b : Block) (i : Inode) (buffer : Bytes) (size n : ℕ) (owner : ℕ → Option ℕ)
    → Fits b i
    → b.foreign ≡ false
    → i.deny_write_cnt ≡ 0
    → Extent owner n free_map_sector i.start (bytes_to_sectors i.data_length)
    → (b' : Block) × (inode_write_at b i true buffer size 0 ≡ some (available i size 0, b'))
      × Stored owner b b'
free_map_write-Stored b i buffer size n owner fits own allowed x =
    let (b', e, w) = inode_write_at_lem b i buffer size 0 fits own allowed in
    (
      b',
      e,
      record { size = w.size; foreign = w.own; kept = λ j c k p. w.others j k p (outside j c) },
    )
  where
    outside :
        (j : ℕ)
        → (owner j ≢ some free_map_sector) ⊎ (j ≡ free_map_sector)
        → (j < i.start) ⊎ (i.start + bytes_to_sectors i.data_length ≤ j)
    outside j c = elim (dec_lt j i.start) [
      | yes lt ↦ inl lt
      | no ge ↦ elim (dec_lt j (i.start + bytes_to_sectors i.data_length)) [
        | no above ↦ inr (omega arith)
        | yes below ↦ absurd (elim c [
          | inl ne ↦ ne (x.owned j (omega arith) below)
          | inr z ↦ x.apart j (omega arith) below z
        ])
      ]
    ]
