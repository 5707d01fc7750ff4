-- ===== src/InodeTable/Disown.antt =====
-- Who owns the sectors of src/filesys/inode.c when an inode is exchanged in the table or gives up its own.
use operating_system.Common.{
  ℕ, ◌+◌, ◌<◌, ◌≡◌, ◌≢◌, ◌∙◌, sym, inl, inr, Bool, true, false, ◌||◌, ◌&&◌, Option, none, some,
  arith, ◌==◌, leb, ltb, if-false, ap, Bool-cases, subst, some_injective,
}
use native.Mathlib.Decide.{ℕ_discrete}
use operating_system.Block.{Bytes}
use operating_system.Inode.{Inode, bytes_to_sectors}
use operating_system.Bitmap.Refine.{Models, fill_range}
use operating_system.FreeMap.{FreeMap, free_map_release}
use operating_system.FreeMap.Allocate.{free_map_release_lem, Models-cong}
use operating_system.InodeTable.{InodeTable, find_inode, put_inode}
use operating_system.InodeTable.Owners.{
  find-sector, find-put_self, find-put_ne, Distinct-put, Extent, IsOpen, taken, Owned, disown,
}

-- An open inode is exchanged for one that agrees with the device as well.
pub put_inode-Owned :
    (t : InodeTable) (n : ℕ) (owner : ℕ → Option ℕ) (s : ℕ) (i r : Inode)
    → Owned t n owner
    → find_inode t.open_inodes s ≡ some i
    → r.sector ≡ s
    → IsOpen owner n t.device.sectors r
    → Owned (record t { open_inodes = put_inode t.open_inodes r }) n owner
put_inode-Owned t n owner s i r o h e ok = record {
  is_open = o.is_open;
  size = o.size;
  bits = o.bits;
  on_disk = o.on_disk;
  opened = λ k j hj. elim (ℕ_discrete r.sector k) [
    | yes p ↦
        let at_k =
          subst (λ x. find_inode (put_inode t.open_inodes r) x ≡ some r) (sym e ∙ p)
            (find-put_self s t.open_inodes i r h e) in
        let same : some r ≡ some j = sym at_k ∙ hj in
        subst (IsOpen owner n t.device.sectors) (some_injective same) ok
    | no np ↦ o.opened k j (sym (find-put_ne k t.open_inodes r np) ∙ hj)
  ];
  distinct = Distinct-put t.open_inodes r o.distinct;
}

freed_bits :
    (owner : ℕ → Option ℕ) (s start cnt : ℕ) (j : ℕ)
    → fill_range (fill_range (λ k. taken (owner k)) s 1 false) start cnt false j
      ≡ taken (disown owner s start cnt j)
freed_bits owner s start cnt j = ground arith

pub disown_was :
    (owner : ℕ → Option ℕ) (s start cnt j k : ℕ)
    → disown owner s start cnt j ≡ some k
    → owner j ≡ some k
disown_was owner s start cnt j k h = ground arith

pub disown_self : (owner : ℕ → Option ℕ) (s start cnt : ℕ) → disown owner s start cnt s ≡ none
disown_self owner s start cnt = ground arith

module _ (owner : ℕ → Option ℕ) (n s start cnt : ℕ) (own : owner s ≡ some s)
    (x : Extent owner n s start cnt) where
  -- Giving up what belongs to `s` takes nothing from the others.
  disown_keeps : (j k : ℕ) → k ≢ s → owner j ≡ some k → disown owner s start cnt j ≡ some k
  disown_keeps j k ne e = elim (Bool-cases ((j == s) || (leb start j && ltb j (start + cnt)))) [
    | inr f ↦ rw f e
    | inl t ↦
        let mine : owner j ≡ some s = elim (ℕ_discrete j s) [
          | yes p ↦ rw p own
          | no np ↦ x.owned j (ground arith) (ground arith)
        ] in
        absurd (ne (some_injective (sym e ∙ mine)))
  ]

  pub disown-Extent :
      (k from len : ℕ)
      → k ≢ s
      → Extent owner n k from len
      → Extent (disown owner s start cnt) n k from len
  disown-Extent k from len ne y = record {
    inside = y.inside;
    owned = λ j p q. disown_keeps j k ne (y.owned j p q);
    apart = y.apart;
  }

  pub disown-IsOpen :
      (sectors : ℕ → Bytes) (i : Inode)
      → i.sector ≢ s
      → IsOpen owner n sectors i
      → IsOpen (disown owner s start cnt) n sectors i
  disown-IsOpen sectors i ne y = record {
    counted = y.counted;
    inside = y.inside;
    owned = disown_keeps i.sector i.sector ne y.owned;
    start_eq = y.start_eq;
    length_eq = y.length_eq;
  }

-- The extent of an open inode.
pub open-Extent :
    (t : InodeTable) (n : ℕ) (owner : ℕ → Option ℕ) (s : ℕ) (i : Inode)
    → Owned t n owner
    → find_inode t.open_inodes s ≡ some i
    → (owner s ≡ some s) × (s < n) × Extent owner n s i.start (bytes_to_sectors i.data_length)
open-Extent t n owner s i o h =
    let e = find-sector s t.open_inodes i h in
    let y = o.opened s i h in
    let own : owner s ≡ some s = rw (← e) y.owned in
    let inside : s < n = omega (arith, e, y.inside) in
    (own, inside, rw (y.start_eq, y.length_eq, e) (o.on_disk s inside own))

-- Both releases of a removed inode succeed.
pub release-both :
    (t : InodeTable) (n : ℕ) (owner : ℕ → Option ℕ) (s : ℕ) (i : Inode)
    → Owned t n owner
    → find_inode t.open_inodes s ≡ some i
    → (f : FreeMap) × (f' : FreeMap) × (free_map_release t.free_map s 1 ≡ some f)
      × (free_map_release f i.start (bytes_to_sectors i.data_length) ≡ some f')
      × (f'.is_open ≡ true)
      × Models f'.map n (λ j. taken (disown owner s i.start (bytes_to_sectors i.data_length) j))
release-both t n owner s i o h =
    let (own, inside, x) = open-Extent t n owner s i o h in
    let cnt = bytes_to_sectors i.data_length in
    let used : ℕ → Bool = λ j. taken (owner j) in
    let (f, e, op, m) =
      free_map_release_lem t.free_map n used 1 s o.bits o.is_open (omega arith)
        (λ j p q. let same : j ≡ s = omega arith in rw (same, own)) in
    let (f', e', op', m') =
      free_map_release_lem f n (fill_range used s 1 false) cnt i.start m op x.inside
        (λ j p q. still_used j (x.apart j p q) (x.owned j p q)) in
    (f, f', e, e', op', Models-cong m' (freed_bits owner s i.start cnt))
  where
    still_used :
        (j : ℕ) → j ≢ s → owner j ≡ some s → fill_range (λ k. taken (owner k)) s 1 false j ≡ true
    still_used j ne e = if-false (leb s j && ltb j (s + 1)) _ _ (ground arith) ∙ ap taken e
