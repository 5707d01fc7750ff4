-- ===== src/File.antt =====
-- src/filesys/file.c: open files, each with its position in an inode that it may share with others.
-- A `struct file *` and a `struct inode *` go by numbers into the store; the arguments are not
-- NULL. Opening and closing are not modelled. `none` is a failed ASSERT or a PANIC of the device.
pub mod Deny
pub mod Sequence
mod Tests
use operating_system.Common.{
  ℕ, ◌+◌, Bool, true, false, not, Option, none, some, List, ◌==◌, if◌then◌else◌, length, ◌>>=◌,
  ◌>>◌, assert,
}
use operating_system.Common.Int.{ℤ, pos, ltb_ℤ, pos_part}
use operating_system.Block.{Bytes, Block}
use operating_system.Inode.{
  Inode, inode_read_at, inode_write_at, inode_deny_write, inode_allow_write, inode_length,
}

-- `struct file`; a position is not below 0, as `file_seek` asserts.
pub record File : Type 0 where
  pub inode : ℕ
  pub position : ℕ
  pub deny_write : Bool

-- The device and the store; `open_files` are the files that are open.
pub record Files : Type 0 where
  pub device : Block
  pub inodes : ℕ → Inode
  pub files : ℕ → File
  pub open_files : List ℕ

abbrev pub inode_of : Files → ℕ → Inode
inode_of s f = s.inodes (s.files f).inode

abbrev pub put_file : Files → ℕ → File → Files
put_file s f r = record s { files = λ g. if g == f then r else s.files g }

abbrev pub put_inode : Files → ℕ → Inode → Files
put_inode s i r = record s { inodes = λ j. if j == i then r else s.inodes j }

pub file_get_inode : Files → ℕ → ℕ
file_get_inode s f = (s.files f).inode

pub file_read_at : Files → (bounce : Bool) → ℕ → (size file_ofs : ℕ) → Option (List ℕ × Files)
file_read_at s bounce f size file_ofs = do
  (bytes, device') ← inode_read_at s.device (inode_of s f) bounce size file_ofs
  some (bytes, record s { device = device' })

pub file_read : Files → (bounce : Bool) → ℕ → (size : ℕ) → Option (List ℕ × Files)
file_read s bounce f size = do
  (bytes, s') ← file_read_at s bounce f size (s.files f).position
  let moved = record (s.files f) { position = (s.files f).position + length bytes }
  some (bytes, put_file s' f moved)

pub file_write_at : Files → (bounce : Bool) → ℕ → Bytes → (size file_ofs : ℕ) → Option (ℕ × Files)
file_write_at s bounce f buffer size file_ofs = do
  (n, device') ← inode_write_at s.device (inode_of s f) bounce buffer size file_ofs
  some (n, record s { device = device' })

pub file_write : Files → (bounce : Bool) → ℕ → Bytes → (size : ℕ) → Option (ℕ × Files)
file_write s bounce f buffer size = do
  (n, s') ← file_write_at s bounce f buffer size (s.files f).position
  some (n, put_file s' f (record (s.files f) { position = (s.files f).position + n }))

pub file_deny_write : Files → ℕ → Option Files
file_deny_write s f =
    if (s.files f).deny_write
    then some s
    else (inode_deny_write (inode_of s f) >>= λ i.
        some
          (put_inode (put_file s f (record (s.files f) { deny_write = true })) (s.files f).inode i))

pub file_allow_write : Files → ℕ → Option Files
file_allow_write s f =
    if (s.files f).deny_write
    then (inode_allow_write (inode_of s f) >>= λ i.
        some (
          put_inode (put_file s f (record (s.files f) { deny_write = false })) (s.files f).inode i))
    else some s

pub file_length : Files → ℕ → ℕ
file_length s f = inode_length (inode_of s f)

unfoldable pub file_seek : Files → ℕ → (new_pos : ℤ) → Option Files
file_seek s f new_pos =
    assert (not (ltb_ℤ new_pos (pos 0)))
    >> some (put_file s f (record (s.files f) { position = pos_part new_pos }))

unfoldable pub file_tell : Files → ℕ → ℕ
file_tell s f = (s.files f).position
