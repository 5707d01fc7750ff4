-- ===== src/InodeTable/Owners.antt =====
-- The table of open inodes of src/filesys/inode.c as a map from sectors, and who owns each sector of
-- the device.
use operating_system.Common.{
  ℕ, ◌+◌, ◌≤◌, ◌<◌, ◌≡◌, ◌≢◌, refl, ◌∙◌, sym, inl, inr, ◌⊎◌, some_injective, Bool, true, false,
  ◌||◌, ◌&&◌, Option, none, some, List, [], ◌∷◌, arith, if◌then◌else◌, ◌==◌, leb, ltb, ==_eq, ==_ne,
  ==_refl,
}
use native.Mathlib.Decide.{ℕ_discrete}
use operating_system.Block.{Bytes, Block}
use operating_system.FreeMap.{FreeMap, free_map_sector}
use operating_system.Inode.{Inode, bytes_to_sectors}
use operating_system.Bitmap.Refine.{Models}
use operating_system.InodeTable.{
  InodeTable, find_inode, put_inode, remove_inode, disk_start, disk_length,
}

-- No two open inodes have one sector.
abbrev pub Distinct : List Inode → Type 0
Distinct [] = Unit
Distinct (i ∷ is) = (find_inode is i.sector ≡ none) × Distinct is

module _ (s : ℕ) where
  pub find-sector : (l : List Inode) (i : Inode) → find_inode l s ≡ some i → i.sector ≡ s
  unfolding find_inode
  find-sector [] i h = cc
  find-sector (x ∷ l) i h = grind (arith, find-sector l i)

  pub find-put_self :
      (l : List Inode) (i r : Inode)
      → find_inode l s ≡ some i
      → r.sector ≡ s
      → find_inode (put_inode l r) s ≡ some r
  unfolding find_inode put_inode
  find-put_self [] i r h e = cc
  find-put_self (x ∷ l) i r h e = grind (arith, find-put_self l i r, ==_refl s)

  pub find-put_ne :
      (l : List Inode) (r : Inode) → r.sector ≢ s → find_inode (put_inode l r) s ≡ find_inode l s
  unfolding find_inode put_inode
  find-put_ne [] r h = refl
  find-put_ne (x ∷ l) r h = grind (arith, find-put_ne l r h)

  pub find-remove_ne :
      (l : List Inode) (k : ℕ) → k ≢ s → find_inode (remove_inode l k) s ≡ find_inode l s
  unfolding find_inode remove_inode
  find-remove_ne [] k h = refl
  find-remove_ne (x ∷ l) k h = ground (arith, find-remove_ne l k h)

  pub find-remove_self : (l : List Inode) → Distinct l → find_inode (remove_inode l s) s ≡ none
  unfolding find_inode remove_inode
  find-remove_self [] d = refl
  find-remove_self (x ∷ l) d = ground (arith, find-remove_self l d.1, d.0)

pub Distinct-put : (l : List Inode) (r : Inode) → Distinct l → Distinct (put_inode l r)
unfolding find_inode put_inode
Distinct-put [] r d = tt
Distinct-put (x ∷ l) r d = elim (ℕ_discrete x.sector r.sector) [
  | yes e ↦ rw (==_eq e) (rw (← e) d.0, d.1)
  | no ne ↦ rw (==_ne ne) (find-put_ne x.sector l r (λ e. ne (sym e)) ∙ d.0, Distinct-put l r d.1)
]

pub Distinct-remove : (l : List Inode) (s : ℕ) → Distinct l → Distinct (remove_inode l s)
unfolding find_inode remove_inode
Distinct-remove [] s d = tt
Distinct-remove (x ∷ l) s d = elim (ℕ_discrete x.sector s) [
  | yes e ↦ rw (==_eq e) d.1
  | no ne ↦
      rw (==_ne ne) (find-remove_ne x.sector l s (λ e. ne (sym e)) ∙ d.0, Distinct-remove l s d.1)
]

-- The sectors start, …, start + cnt - 1 belong to the inode of sector `s`, which is not among them.
pub record Extent (owner : ℕ → Option ℕ) (n s start cnt : ℕ) : Type 0 where
  pub inside : start + cnt ≤ n
  pub owned : (j : ℕ) → start ≤ j → j < start + cnt → owner j ≡ some s
  pub apart : (j : ℕ) → start ≤ j → j < start + cnt → j ≢ s

-- An open inode has a reference and agrees with its sector of the device, which it owns.
pub record IsOpen (owner : ℕ → Option ℕ) (n : ℕ) (sectors : ℕ → Bytes) (i : Inode) : Type 0 where
  pub counted : 0 < i.open_cnt
  pub inside : i.sector < n
  pub owned : owner i.sector ≡ some i.sector
  pub start_eq : i.start ≡ disk_start (sectors i.sector)
  pub length_eq : i.data_length ≡ disk_length (sectors i.sector)

abbrev pub taken : Option ℕ → Bool
taken none = false
taken (some s) = true

-- Sector `j` of the `n` belongs to the inode of sector `s` if `owner j ≡ some s`, and is free if it is
-- `none`; the free map, the inodes on the device and the open ones agree with that.
pub record Owned (t : InodeTable) (n : ℕ) (owner : ℕ → Option ℕ) : Type 0 where
  pub is_open : t.free_map.is_open ≡ true
  pub size : t.device.size ≡ n
  pub bits : Models t.free_map.map n (λ j. taken (owner j))
  pub on_disk :
      (s : ℕ)
      → s < n
      → owner s ≡ some s
      → Extent owner n s
          (disk_start (t.device.sectors s))
          (bytes_to_sectors (disk_length (t.device.sectors s)))
  pub opened :
      (s : ℕ) (i : Inode) → find_inode t.open_inodes s ≡ some i → IsOpen owner n t.device.sectors i
  pub distinct : Distinct t.open_inodes

-- The owners after the inode of sector `s` has given up its own sector and its data.
abbrev pub disown : (ℕ → Option ℕ) → (s start cnt : ℕ) → ℕ → Option ℕ
disown owner s start cnt j =
    if (j == s) || (leb start j && ltb j (start + cnt)) then none else owner j

-- From `b` to `b'` no sector changes but the data of the free map's file, whose inode has sector 0.
pub record Stored (owner : ℕ → Option ℕ) (b b' : Block) : Type 0 where
  pub size : b'.size ≡ b.size
  pub foreign : b'.foreign ≡ b.foreign
  pub kept :
      (j : ℕ)
      → (owner j ≢ some free_map_sector) ⊎ (j ≡ free_map_sector)
      → (k : ℕ) → k < 512
      → b'.sectors j k ≡ b.sectors j k

pub Stored-refl : (owner : ℕ → Option ℕ) (b : Block) → Stored owner b b
Stored-refl owner b = record { size = refl; foreign = refl; kept = λ j h k p. refl }

-- Storing a map writes to the free map's file only.
abbrev pub IsStore : (ℕ → Option ℕ) → (FreeMap → Block → Block) → Type 0
IsStore owner store_map = (f : FreeMap) (b : Block) → Stored owner b (store_map f b)

-- It stays so when sectors that are not the free map's get other owners.
pub IsStore-extends :
    (owner owner' : ℕ → Option ℕ) (store_map : FreeMap → Block → Block)
    → ((j : ℕ) → owner j ≡ some free_map_sector → owner' j ≡ some free_map_sector)
    → IsStore owner store_map
    → IsStore owner' store_map
IsStore-extends owner owner' store_map ext h f b = record {
  size = (h f b).size;
  foreign = (h f b).foreign;
  kept = λ j c. (h f b).kept j (elim c [ inl ne ↦ inl (λ e. ne (ext j e)) | inr z ↦ inr z ]);
}

-- A sector that belongs to another inode than the free map's, or that is an inode.
pub Stored-kept :
    (owner : ℕ → Option ℕ) (b b' : Block) (j k : ℕ)
    → Stored owner b b'
    → owner j ≡ some k
    → (k ≢ free_map_sector) ⊎ (j ≡ k)
    → (i : ℕ) → i < 512
    → b'.sectors j i ≡ b.sectors j i
Stored-kept owner b b' j k s e c = s.kept j (elim (ℕ_discrete k free_map_sector) [
  | no ne ↦ inl (λ q. ne (some_injective (sym e ∙ q)))
  | yes z ↦ elim c [ inl ne ↦ absurd (ne z) | inr same ↦ inr (same ∙ z) ]
])

-- The words of an inode on the device stand in its first bytes.
start_same : (x y : Bytes) → ((i : ℕ) → i < 512 → x i ≡ y i) → disk_start x ≡ disk_start y
start_same x y h = rw (h 0 (omega arith), h 1 (omega arith), h 2 (omega arith), h 3 (omega arith))

length_same : (x y : Bytes) → ((i : ℕ) → i < 512 → x i ≡ y i) → disk_length x ≡ disk_length y
length_same x y h = rw (h 4 (omega arith), h 5 (omega arith), h 6 (omega arith), h 7 (omega arith))

pub Stored-Owned :
    (t : InodeTable) (n : ℕ) (owner : ℕ → Option ℕ) (d : Block)
    → Stored owner t.device d
    → Owned t n owner
    → Owned (record t { device = d }) n owner
Stored-Owned t n owner d s o = record {
  is_open = o.is_open;
  size = s.size ∙ o.size;
  bits = o.bits;
  on_disk = λ k p e.
      let same = Stored-kept owner t.device d k k s e (inr refl) in
      rw
        (
          start_same (d.sectors k) (t.device.sectors k) same,
          length_same (d.sectors k) (t.device.sectors k) same,
        )
        (o.on_disk k p e);
  opened = λ k i h.
      let y = o.opened k i h in
      let same = Stored-kept owner t.device d i.sector i.sector s y.owned (inr refl) in
      record {
        counted = y.counted;
        inside = y.inside;
        owned = y.owned;
        start_eq =
            y.start_eq ∙ sym (start_same (d.sectors i.sector) (t.device.sectors i.sector) same);
        length_eq =
            y.length_eq ∙ sym (length_same (d.sectors i.sector) (t.device.sectors i.sector) same);
      };
  distinct = o.distinct;
}
