-- ===== src/Inode/Deny.antt =====
-- The denial of writes in src/filesys/inode.c.
use operating_system.Common.{
  ℕ, ◌+◌, ◌-◌, ◌≤◌, ◌<◌, ◌≡◌, ◌∙◌, Bool, some, arith, ◌==◌, if-false, assert-true, le→leb, lt→ltb,
  ==_ne,
}
use operating_system.Block.{Bytes, Block}
use operating_system.Inode.{Inode, inode_write_at, inode_deny_write, inode_allow_write, write_from}

module _ (i : Inode) where
  pub inode_deny_write-some :
      i.deny_write_cnt + 1 ≤ i.open_cnt
      → inode_deny_write i ≡ some (record i { deny_write_cnt = i.deny_write_cnt + 1 })
  unfolding inode_deny_write
  inode_deny_write-some h = assert-true _ _ (le→leb (i.deny_write_cnt + 1) i.open_cnt h)

  pub inode_allow_write-some :
      0 < i.deny_write_cnt
      → i.deny_write_cnt ≤ i.open_cnt
      → inode_allow_write i ≡ some (record i { deny_write_cnt = i.deny_write_cnt - 1 })
  unfolding inode_allow_write
  inode_allow_write-some h k =
      assert-true _ _ (lt→ltb 0 i.deny_write_cnt h)
      ∙ assert-true _ _ (le→leb i.deny_write_cnt i.open_cnt k)

  pub inode_write_at-denied :
      0 < i.deny_write_cnt
      → (b : Block) (bounce : Bool) (buffer : Bytes) (size offset : ℕ)
      → inode_write_at b i bounce buffer size offset ≡ some (0, b)
  unfolding inode_write_at
  inode_write_at-denied h b bounce buffer size offset =
      if-false (i.deny_write_cnt == 0) (write_from (size + 1) b i bounce buffer 0 size offset) _
        (==_ne {a = i.deny_write_cnt} {b = 0} (λ e. omega arith))
