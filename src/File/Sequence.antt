-- ===== src/File/Sequence.antt =====
-- Reads in a row through src/filesys/file.c.
use operating_system.Common.{
  ℕ, ◌+◌, ◌≡◌, refl, ap, ap₂, sym, subst, ◌∙◌, true, some, List, ◌++◌, arith, length, tabulate,
  zero, suc,
}
use operating_system.Block.{Bytes}
use operating_system.Inode.{Inode}
use operating_system.Inode.Read.{content, Fits, available, tabulate-append, inode_read_at_lem}
use operating_system.File.{Files, inode_of, put_file, file_read_at, file_read}

length-tabulate : {A : Type 0} (n i : ℕ) (g : ℕ → A) → length (tabulate i n g) ≡ n
length-tabulate zero i g = refl
length-tabulate (suc n) i g = omega (arith, length-tabulate n (i + 1) g)

-- What a read of `n` bytes through file `f` leaves.
record Moved (s s' : Files) (f n : ℕ) : Type 0 where
  sectors : s'.device.sectors ≡ s.device.sectors
  size : s'.device.size ≡ s.device.size
  inodes : s'.inodes ≡ s.inodes
  same_inode : (s'.files f).inode ≡ (s.files f).inode
  position : (s'.files f).position ≡ (s.files f).position + n

-- The bytes of a file from a position on.
abbrev pub bytes_at : Files → ℕ → ℕ → ℕ → List ℕ
bytes_at s f p n = tabulate p n (content s.device.sectors (inode_of s f))

read_lem :
    (s : Files) (f size : ℕ)
    → Fits s.device (inode_of s f)
    → (s' : Files) × (file_read s true f size
        ≡ some (
          bytes_at s f (s.files f).position (available (inode_of s f) size (s.files f).position),
          s',
        ))
      × Moved s s' f (available (inode_of s f) size (s.files f).position)
unfolding file_read file_read_at
read_lem s f size fits =
    let p = (s.files f).position in
    let n = available (inode_of s f) size p in
    let (bytes, b', e, r) = inode_read_at_lem s.device (inode_of s f) size p fits in
    let s' : Files =
      put_file (record s { device = b' }) f
        (record (s.files f) { position = p + length (bytes_at s f p n) }) in
    (
      s',
      rw (e, r.got),
      record {
        sectors = r.same;
        size = r.size;
        inodes = refl;
        same_inode = ground arith;
        position = ground (arith, length-tabulate n p (content s.device.sectors (inode_of s f)));
      },
    )

-- The inode, and with it the bytes, are those of before.
module _ {s s' : Files} {f n : ℕ} (m : Moved s s' f n) where
  same_inode_of : inode_of s' f ≡ inode_of s f
  same_inode_of = ap₂ (λ (g : ℕ → Inode) i. g i) m.inodes m.same_inode

  same_bytes : (p k : ℕ) → bytes_at s' f p k ≡ bytes_at s f p k
  same_bytes p k =
      ap₂ (λ (d : ℕ → Bytes) (i : Inode). tabulate p k (content d i)) m.sectors same_inode_of

  still-Fits : Fits s.device (inode_of s f) → Fits s'.device (inode_of s' f)
  still-Fits h =
      subst (λ (i : Inode). Fits s'.device i) (sym same_inode_of) (omega (arith, m.size, h))

-- If the sectors of the inode lie on the device and a bounce buffer is had, two reads in a row
-- through one file, of `m` and of `n` bytes, do not panic and together return the bytes of the file
-- from the position on, `m + n` of them or up to the end, and move the position by as many.
pub file_read-append :
    (s : Files) (f m n : ℕ)
    → Fits s.device (inode_of s f)
    → (xs ys : List ℕ) × (s1 s2 : Files) × (file_read s true f m ≡ some (xs, s1))
      × (file_read s1 true f n ≡ some (ys, s2))
      × (xs ++ ys
          ≡ bytes_at s f
              (s.files f).position
              (available (inode_of s f) (m + n) (s.files f).position))
      × ((s2.files f).position
          ≡ (s.files f).position + available (inode_of s f) (m + n) (s.files f).position)
file_read-append s f m n fits =
    let p = (s.files f).position in
    let i = inode_of s f in
    let k = available i m p in
    let (s1, e1, m1) = read_lem s f m fits in
    let (s2, e2, m2) = read_lem s1 f n (still-Fits m1 fits) in
    let l = available (inode_of s1 f) n (s1.files f).position in
    let l_is : l ≡ available i n (p + k) =
      ap₂ (λ (j : Inode) q. available j n q) (same_inode_of m1) m1.position in
    (
      _,
      _,
      s1,
      s2,
      e1,
      e2,
      ap (λ t. bytes_at s f p k ++ t)
            (same_bytes m1 (s1.files f).position l ∙ ap₂ (λ a b. bytes_at s f a b) m1.position l_is)
          ∙ tabulate-append k (available i n (p + k)) p (content s.device.sectors i)
          ∙ ap (λ t. bytes_at s f p t) (omega arith),
      m2.position ∙ omega (arith, m1.position, l_is),
    )
