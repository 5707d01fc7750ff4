-- ===== src/InodeTable/Sample.antt =====
-- A device of 32 sectors with the inodes of the free map and of the root directory, both empty, and
-- sector 2 reserved; the root is open. The theorems on src/filesys/inode.c and filesys.c hold at it.
use operating_system.Common.{
  ℕ, ◌/◌, ◌%◌, ◌≡◌, refl, true, false, Option, some, none, [], ◌∷◌, arith, ◌==◌, ◌||◌, ◌&&◌,
  if◌then◌else◌, if-true, if-false, sym, ◌∙◌, subst, some_injective, none≢some, Bool-cases, inl,
  inr, ◌⊎◌,
}
use operating_system.Bitmap.{Word}
use operating_system.Bitmap.Refine.{Models}
use operating_system.Block.{Block}
use operating_system.Inode.{Inode}
use operating_system.InodeTable.{InodeTable, find_inode}
use operating_system.InodeTable.Owners.{Owned, IsOpen, taken}

abbrev pub disk : Block
disk = record { size = 32; foreign = false; sectors = λ s k. 0; read_cnt = 0; write_cnt = 0 }

abbrev pub root_inode : Inode
root_inode = record {
  sector = 1;
  open_cnt = 1;
  removed = false;
  deny_write_cnt = 0;
  start = 0;
  data_length = 0;
}

abbrev word : Option ℕ → Word
word o k = (k == 0) || ((k == 1) || (taken o && (k == 2)))

abbrev pub table_with : Option ℕ → InodeTable
table_with o = record {
  device = disk;
  free_map = record { map = record { bit_cnt = 32; bits = word o ∷ [] }; is_open = true };
  open_inodes = root_inode ∷ [];
}

-- Sector 2 is in use.
abbrev pub table : InodeTable
table = table_with (some 2)

-- The owners with sector 2 at the one given.
abbrev pub owner_with : Option ℕ → ℕ → Option ℕ
owner_with o j = if j == 0 then some 0 else if j == 1 then some 1 else if j == 2 then o else none

abbrev pub owner : ℕ → Option ℕ
owner = owner_with (some 2)

abbrev pub reserved : ℕ → Option ℕ
reserved = owner_with (some 32)

table_bits : (o : Option ℕ) → Models (table_with o).free_map.map 32 (λ j. taken (owner_with o j))
table_bits none = record {
  cnt = refl;
  words = refl;
  agrees = λ j h.
      let q : j / 32 ≡ 0 = omega arith in
      let r : j % 32 ≡ j = omega arith in rw (q, r) (ground arith);
}
table_bits (some m) = record {
  cnt = refl;
  words = refl;
  agrees = λ j h.
      let q : j / 32 ≡ 0 = omega arith in
      let r : j % 32 ≡ j = omega arith in rw (q, r) (ground arith);
}

pub with-Owned : (o : Option ℕ) → Owned (table_with o) 32 (owner_with o)
unfolding find_inode
with-Owned o = record {
  is_open = refl;
  size = refl;
  bits = table_bits o;
  on_disk = λ s p e. record {
    inside = omega arith;
    owned = λ j a b. absurd (omega arith);
    apart = λ j a b. absurd (omega arith);
  };
  opened = λ s i h. opened s i (Bool-cases (1 == s)) h;
  distinct = (refl, tt);
}
  where
    opened :
        (s : ℕ) (i : Inode)
        → ((1 == s) ≡ true) ⊎ ((1 == s) ≡ false)
        → (if 1 == s then some root_inode else none) ≡ some i
        → IsOpen (owner_with o) 32 (λ s k. 0) i
    opened s i (inl t) h =
        subst (IsOpen (owner_with o) 32 (λ s k. 0)) (some_injective (sym (if-true _ _ _ t) ∙ h))
          (record {
            counted = omega arith;
            inside = omega arith;
            owned = refl;
            start_eq = refl;
            length_eq = refl;
          })
    opened s i (inr f) h = absurd (none≢some (sym (if-false _ _ _ f) ∙ h))

pub table-Owned : Owned table 32 owner
table-Owned = with-Owned (some 2)

pub reserved-Owned : Owned table 32 reserved
reserved-Owned = with-Owned (some 32)
