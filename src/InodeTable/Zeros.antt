-- ===== src/InodeTable/Zeros.antt =====
-- What `inode_create` of src/filesys/inode.c writes: the inode, in bytes that give it back, and zeros.
use operating_system.Common.{
  ℕ, zero, suc, ◌+◌, ◌≤◌, ◌<◌, ◌≡◌, refl, ◌∙◌, inl, false, some, arith, ◌==◌, ==_eq, if-true,
  if-false, ap, ◌⊎◌,
}
use native.Mathlib.Decide.{ℕ_discrete}
use operating_system.Block.{Block, Bytes, store, block_write-some}
use operating_system.InodeTable.{disk_start, disk_length, inode_disk, write_zeros}

-- What `inode_create` writes is read back.
pub disk_start-inode_disk :
    (start length : ℕ) → start < 4294967296 → disk_start (inode_disk start length) ≡ start
disk_start-inode_disk start length h = omega arith

pub disk_length-inode_disk :
    (start length : ℕ) → length < 4294967296 → disk_length (inode_disk start length) ≡ length
disk_length-inode_disk start length h = omega arith

-- Sectors start, …, start + cnt - 1 are zeros in `b'`, and the others as in `b`.
pub record Zeroed (b b' : Block) (start cnt : ℕ) : Type 0 where
  pub size : b'.size ≡ b.size
  pub foreign : b'.foreign ≡ b.foreign
  pub zeros : (j k : ℕ) → start ≤ j → j < start + cnt → b'.sectors j k ≡ 0
  pub others : (j : ℕ) → (j < start) ⊎ (start + cnt ≤ j) → b'.sectors j ≡ b.sectors j

pub write_zeros_lem :
    (cnt : ℕ) (b : Block) (start : ℕ)
    → b.foreign ≡ false
    → start + cnt ≤ b.size
    → (b' : Block) × (write_zeros b start cnt ≡ some b') × Zeroed b b' start cnt
unfolding write_zeros
write_zeros_lem zero b start own fits = (
  b,
  refl,
  record {
    size = refl;
    foreign = refl;
    zeros = λ j k p q. absurd (omega arith);
    others = λ j h. refl;
  },
)
write_zeros_lem (suc cnt) b start own fits =
    let b1 : Block = record b {
      sectors = store b.sectors start (λ k. 0);
      write_cnt = b.write_cnt + 1;
    } in
    let (b', e, z) = write_zeros_lem cnt b1 (start + 1) own (omega (arith, fits)) in
    (
      b',
      rw (block_write-some b start (omega (arith, fits)) (λ k. 0) own) e,
      record {
        size = z.size;
        foreign = z.foreign;
        zeros = λ j k p q. elim (ℕ_discrete j start) [
          | yes same ↦
              ap (λ (d : Bytes). d k)
                (z.others j (inl (omega arith)) ∙ if-true (j == start) _ _ (==_eq same))
          | no ne ↦ z.zeros j k (omega arith) (omega arith)
        ];
        others = λ j h. z.others j (ground arith) ∙ if-false (j == start) _ _ (ground arith);
      },
    )
