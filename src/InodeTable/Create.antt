-- ===== src/InodeTable/Create.antt =====
-- `inode_create` of src/filesys/inode.c: a new inode owns the sectors of its data, which are zeros.
use operating_system.Common.{
  ℕ, ◌+◌, ◌≤◌, ◌<◌, ◌≡◌, ◌≢◌, refl, ◌∙◌, sym, inl, inr, Bool, true, false, ◌||◌, ◌&&◌, Option, none,
  some, ◌^◌, ◌-◌, lt→ltb, arith, if◌then◌else◌, ◌==◌, leb, ltb, ==_eq, ==_ne, if-true, if-false, ap,
  ◌⊎◌, Bool-cases, not, assert, assert-true, ◌>>◌, some_injective,
}
use native.Mathlib.Decide.{ℕ_discrete}
use operating_system.Common.Int.{pos, ltb_ℤ}
use operating_system.Block.{Bytes, Block, store, block_write-some}
use operating_system.Inode.{bytes_to_sectors}
use operating_system.Bitmap.Refine.{Models, fill_range}
use operating_system.Bitmap.Scan.{IsRun}
use operating_system.FreeMap.{free_map_sector, FreeMap, free_map_allocate}
use operating_system.FreeMap.Allocate.{
  free_map_allocate_lem, IsAnswer, Models-cong, after, answer-IsRun,
}
use operating_system.InodeTable.{
  InodeTable, find_inode, disk_start, disk_length, inode_disk, create_with, inode_create,
}
use operating_system.InodeTable.Owners.{
  Extent, taken, Stored, Stored-refl, Stored-kept, Stored-Owned, IsStore, Owned,
}
use operating_system.InodeTable.Zeros.{
  disk_start-inode_disk, disk_length-inode_disk, write_zeros_lem,
}

-- The owners after an inode of sector `s` was created with its data from `start` on.
abbrev pub own_extent : (ℕ → Option ℕ) → (s start cnt : ℕ) → ℕ → Option ℕ
own_extent owner s start cnt j =
    if (j == s) || (leb start j && ltb j (start + cnt)) then some s else owner j

created_bits :
    (owner : ℕ → Option ℕ) (s r start cnt : ℕ)
    → owner s ≡ some r
    → (j : ℕ)
    → fill_range (λ k. taken (owner k)) start cnt true j ≡ taken (own_extent owner s start cnt j)
created_bits owner s r start cnt h j = elim (ℕ_discrete j s) [
  | yes e ↦ rw (e, h, ==_eq refl) (if_same (leb start s && ltb s (start + cnt)))
  | no ne ↦ rw (==_ne ne) (ground arith)
]
  where
    if_same : (b : Bool) → (if b then true else true) ≡ true
    if_same true = refl
    if_same false = refl

-- A sector that stays with its owner: it is neither reserved nor free.
module _ (owner : ℕ → Option ℕ) (n s start cnt : ℕ) (reserved : owner s ≡ some n)
    (free : (j : ℕ) → start ≤ j → j < start + cnt → owner j ≡ none) where
  outside :
      (j k : ℕ)
      → k ≢ n
      → owner j ≡ some k
      → (j ≢ s) × ((leb start j && ltb j (start + cnt)) ≡ false)
  outside j k ne e = (
    λ p. ne (some_injective (sym e ∙ ap owner p ∙ reserved)),
    elim (Bool-cases (leb start j && ltb j (start + cnt))) [
      | inr f ↦ f
      | inl t ↦ let none_here : none ≡ some k = sym (free j (ground arith) (ground arith)) ∙ e in cc
    ],
  )

  own_keeps : (j k : ℕ) → k ≢ n → owner j ≡ some k → own_extent owner s start cnt j ≡ some k
  own_keeps j k ne e = let (p, q) = outside j k ne e in rw (==_ne p, q) e

  own_was : (j k : ℕ) → k ≢ s → own_extent owner s start cnt j ≡ some k → owner j ≡ some k
  own_was j k ne e = elim (Bool-cases ((j == s) || (leb start j && ltb j (start + cnt)))) [
    | inr f ↦ sym (if-false _ _ _ f) ∙ e
    | inl t ↦ absurd (ne (some_injective (sym e ∙ if-true _ _ _ t)))
  ]

  own-Extent :
      (k from len : ℕ)
      → k ≢ n
      → Extent owner n k from len
      → Extent (own_extent owner s start cnt) n k from len
  own-Extent k from len ne x = record {
    inside = x.inside;
    owned = λ j p q. own_keeps j k ne (x.owned j p q);
    apart = x.apart;
  }

  new-Extent : start + cnt ≤ n → Extent (own_extent owner s start cnt) n s start cnt
  new-Extent inside = record {
    inside = inside;
    owned = λ j p q. if-true ((j == s) || (leb start j && ltb j (start + cnt))) _ _ (ground arith);
    apart =
        λ j p q e. let bad : none ≡ some n = sym (free j p q) ∙ ap owner e ∙ reserved in differ bad;
  }
    where
      differ : none ≡ some n → ⊥
      differ e = cc

-- After the creation of an inode at sector `s`, the state `t'` of the table `t`: its data lies from
-- `start` on.
pub record Created (t t' : InodeTable) (n : ℕ) (owner : ℕ → Option ℕ) (s length start : ℕ)
    : Type 0 where
  pub keeps : Owned t' n (own_extent owner s start (bytes_to_sectors length))
  pub was_free : (j : ℕ) → start ≤ j → j < start + bytes_to_sectors length → owner j ≡ none
  pub start_stored : disk_start (t'.device.sectors s) ≡ start
  pub length_stored : disk_length (t'.device.sectors s) ≡ length
  pub zeros :
      (j k : ℕ) → start ≤ j → j < start + bytes_to_sectors length → t'.device.sectors j k ≡ 0
  pub others :
      (j m : ℕ)
      → m ≢ n
      → m ≢ free_map_sector
      → owner j ≡ some m
      → (k : ℕ) → k < 512
      → t'.device.sectors j k ≡ t.device.sectors j k
  pub same_open : t'.open_inodes ≡ t.open_inodes

abbrev pub data_owner : (ℕ → Option ℕ) → ℕ → Bool
data_owner owner j = taken (owner j)

create_with-Created :
    (t : InodeTable) (n : ℕ) (owner : ℕ → Option ℕ) (s length start : ℕ) (f : FreeMap)
    → Owned t n owner
    → t.device.foreign ≡ false
    → s < n
    → n < 4294967296
    → owner s ≡ some n
    → find_inode t.open_inodes s ≡ none
    → length < 2147483648
    → f.is_open ≡ true
    → start + bytes_to_sectors length ≤ n
    → IsRun (data_owner owner) start (bytes_to_sectors length) false
    → Models f.map n (fill_range (data_owner owner) start (bytes_to_sectors length) true)
    → (t' : InodeTable) × (create_with t (some start, f) s length ≡ some (true, t'))
      × Created t t' n owner s length start
unfolding create_with
create_with-Created t n owner s length start f o own inside small reserved closed short op fits run
      m =
    let cnt = bytes_to_sectors length in
    let d1 : Block = record t.device {
      sectors = store t.device.sectors s (inode_disk start length);
      write_cnt = t.device.write_cnt + 1;
    } in
    let (d2, e2, z) = write_zeros_lem cnt d1 start own (omega (arith, o.size, fits)) in
    let at_s : d2.sectors s ≡ inode_disk start length =
      z.others s (apart s n reserved) ∙ if-true (s == s) _ _ (==_eq refl) in
    let kept : (j k : ℕ) → k ≢ n → owner j ≡ some k → d2.sectors j ≡ t.device.sectors j =
      λ j k ne e.
        z.others j (apart j k e)
        ∙ if-false (j == s) _ _ (==_ne (outside owner n s start cnt reserved free j k ne e).0) in
    let t' = record t { device = d2; free_map = f } in
    (
      t',
      rw (
        block_write-some t.device s (omega (arith, o.size, inside)) (inode_disk start length) own,
        e2,
      ),
      record {
        keeps = record {
          is_open = op;
          size = z.size ∙ o.size;
          bits = Models-cong m (created_bits owner s n start cnt reserved);
          on_disk = λ k p e. elim (ℕ_discrete k s) [
            | yes same ↦ new_one d2 at_s k same
            | no ne ↦ old_one d2 kept k p ne (own_was owner n s start cnt reserved free k k ne e)
          ];
          opened = λ k i h.
              let y = o.opened k i h in
              let ne : i.sector ≢ n = omega (arith, y.inside) in
              record {
                counted = y.counted;
                inside = y.inside;
                owned = own_keeps owner n s start cnt reserved free i.sector i.sector ne y.owned;
                start_eq = y.start_eq ∙ ap disk_start (sym (kept i.sector i.sector ne y.owned));
                length_eq = y.length_eq ∙ ap disk_length (sym (kept i.sector i.sector ne y.owned));
              };
          distinct = o.distinct;
        };
        was_free = free;
        start_stored = ap disk_start at_s ∙ disk_start-inode_disk start length (omega arith);
        length_stored = ap disk_length at_s ∙ disk_length-inode_disk start length (omega arith);
        zeros = z.zeros;
        others = λ j m ne nz e k p. ap (λ (x : Bytes). x k) (kept j m ne e);
        same_open = refl;
      },
    )
  where
    free : (j : ℕ) → start ≤ j → j < start + bytes_to_sectors length → owner j ≡ none
    free j p q = not_taken (owner j) (run j p q)
      where
        not_taken : (v : Option ℕ) → taken v ≡ false → v ≡ none
        not_taken none h = refl
        not_taken (some a) h = cc

    apart : (j k : ℕ) → owner j ≡ some k → (j < start) ⊎ (start + bytes_to_sectors length ≤ j)
    apart j k e = elim (Bool-cases (leb start j && ltb j (start + bytes_to_sectors length))) [
      | inr q ↦ ground arith
      | inl q ↦
          let bad : none ≡ some k = sym (free j (ground arith) (ground arith)) ∙ e in
          absurd (differ bad)
    ]
      where
        differ : none ≡ some k → ⊥
        differ e = cc

    new_one :
        (d2 : Block)
        → d2.sectors s ≡ inode_disk start length
        → (k : ℕ) → k ≡ s
        → Extent
            (own_extent owner s start (bytes_to_sectors length))
            n
            k
            (disk_start (d2.sectors k))
            (bytes_to_sectors (disk_length (d2.sectors k)))
    new_one d2 at_s k same =
        rw
          (
            same,
            at_s,
            disk_start-inode_disk start length (omega arith),
            disk_length-inode_disk start length (omega arith),
          )
          (new-Extent owner n s start (bytes_to_sectors length) reserved free fits)

    old_one :
        (d2 : Block)
        → ((j k : ℕ) → k ≢ n → owner j ≡ some k → d2.sectors j ≡ t.device.sectors j)
        → (k : ℕ) → k < n
        → k ≢ s
        → owner k ≡ some k
        → Extent
            (own_extent owner s start (bytes_to_sectors length))
            n
            k
            (disk_start (d2.sectors k))
            (bytes_to_sectors (disk_length (d2.sectors k)))
    old_one d2 kept k p ne e =
        let below : k ≢ n = omega (arith, p) in
        rw (kept k k below e) (
          own-Extent owner n s start (bytes_to_sectors length) reserved free k _ _ below
            (o.on_disk k p e))

-- What `inode_create` has done where it answers `ok`: created the inode, or left the owners and the
-- device as they are, because memory ran out or the free map had no room or could not be stored.
abbrev pub IsCreated :
    Bool
    → InodeTable
    → InodeTable
    → (n : ℕ) → (ℕ → Option ℕ)
    → (allocated written : Bool) → (s length : ℕ) → Type 0
IsCreated true t t' n owner allocated written s length =
    (start : ℕ) × Created t t' n owner s length start
IsCreated false t t' n owner allocated written s length =
    Owned t' n owner
    × Stored owner t.device t'.device
    × (t'.open_inodes ≡ t.open_inodes)
    × ((allocated ≡ false)
        ⊎ IsAnswer (data_owner owner) n (bytes_to_sectors length)
            (t.free_map.is_open && not written) none)

not_negative {ℓ} :
    {A : Type ℓ} (n : ℕ) (m : Option A) → (assert (not (ltb_ℤ (pos n) (pos 0))) >> m) ≡ m
not_negative n m = assert-true _ m (ground arith)

-- In a valid table on a device of fewer than 2^22 - 1 sectors that is no foreign one, if storing
-- the free map changes no sector but the data of its file: `inode_create` at a reserved sector that
-- is not open, for a length from 0 to below 2^31 - 512, does not panic. If it succeeds, the inode's
-- sector holds the length and where its data lies, which are sectors that were free, now its own
-- and all zeros; the sectors of others but the free map's file keep their content. If it fails,
-- memory ran out or the free map gave no sectors, the open inodes and the owners are as before, and
-- so is the device but for the data of the free map's file. The table stays valid.
pub inode_create_lem :
    (t : InodeTable) (n : ℕ) (owner : ℕ → Option ℕ) (allocated written : Bool)
    (store_map : FreeMap → Block → Block) (s length : ℕ)
    → Owned t n owner
    → IsStore owner store_map
    → t.device.foreign ≡ false
    → s < n
    → n < 2 ^ 22 - 1
    → owner s ≡ some n
    → find_inode t.open_inodes s ≡ none
    → length < 2 ^ 31 - 512
    → (ok : Bool) × (t' : InodeTable) × (inode_create t allocated written store_map s (pos length)
        ≡ some (ok, t'))
      × IsCreated ok t t' n owner allocated written s length
unfolding inode_create create_with
inode_create_lem t n owner false written store_map s length o keeps own inside small reserved closed
      short =
    (
      false,
      t,
      not_negative length (some (false, t)),
      (o, Stored-refl owner t.device, refl, inl refl),
    )
inode_create_lem t n owner true written store_map s length o keeps own inside small reserved closed
      short =
    go (
      free_map_allocate_lem t.free_map written n (data_owner owner) (bytes_to_sectors length)
        o.bits)
  where
    stored : (f : FreeMap) → Owned (record t { device = store_map f t.device }) n owner
    stored f = Stored-Owned t n owner (store_map f t.device) (keeps f t.device) o

    go :
        (r : Option ℕ) × (f' : FreeMap) × (free_map_allocate t.free_map written
              (bytes_to_sectors length)
            ≡ some (r, f'))
          × (f'.is_open ≡ t.free_map.is_open)
          × IsAnswer
              (data_owner owner)
              n
              (bytes_to_sectors length)
              (t.free_map.is_open && not written)
              r
          × Models f'.map n (after (data_owner owner) (bytes_to_sectors length) r)
        → (ok : Bool) × (t' : InodeTable) × (inode_create t true written store_map s (pos length)
            ≡ some (ok, t'))
          × IsCreated ok t t' n owner true written s length
    go (none, f, e, op, answer, m) = (
      false,
      record t { free_map = f; device = store_map f t.device },
      not_negative length _ ∙ assert-true (ltb length (2 ^ 31 - 512)) _ (lt→ltb _ _ short) ∙ rw e,
      (
        record {
          is_open = op ∙ o.is_open;
          size = (stored f).size;
          bits = m;
          on_disk = (stored f).on_disk;
          opened = (stored f).opened;
          distinct = o.distinct;
        },
        keeps f t.device,
        refl,
        inr answer,
      ),
    )
    go (some start, f, e, op, answer, m) =
        let (fits, run) =
          answer-IsRun (data_owner owner) n (bytes_to_sectors length)
            (t.free_map.is_open && not written) start answer in
        let (t', e', c) =
          create_with-Created (record t { device = store_map f t.device }) n owner s length start f
            (stored f) ((keeps f t.device).foreign ∙ own) inside (omega (arith, small)) reserved
            closed (omega (arith, short)) (op ∙ o.is_open) fits run m in
        (
          true,
          t',
          not_negative length _
              ∙ assert-true (ltb length (2 ^ 31 - 512)) _ (lt→ltb _ _ short)
              ∙ rw e e',
          (
            start,
            record {
              keeps = c.keeps;
              was_free = c.was_free;
              start_stored = c.start_stored;
              length_stored = c.length_stored;
              zeros = c.zeros;
              others = λ j m ne nz e k p.
                  c.others j m ne nz e k p
                  ∙ Stored-kept owner t.device (store_map f t.device) j m (keeps f t.device) e
                      (inl nz) k p;
              same_open = c.same_open;
            },
          ),
        )
