-- ===== src/InodeTable/Close.antt =====
-- Closing inodes, `inode_close` of src/filesys/inode.c: the sectors of a removed inode are free with its
-- last reference.
use operating_system.Common.{
  ◌^◌, ◌-◌, ◌<◌, ℕ, ◌-◌, ◌≡◌, ◌≢◌, refl, ◌∙◌, sym, inl, inr, true, false, ◌&&◌, Option, none, some,
  List, arith, if◌then◌else◌, ◌==◌, ==_eq, ==_ne, if-true, if-false, ap, ap₂, ◌⊎◌, Bool-cases,
  subst,
}
use native.Mathlib.Decide.{ℕ_discrete}
use operating_system.Inode.{Inode, bytes_to_sectors}
use operating_system.Bitmap.Refine.{Models}
use operating_system.Block.{Block}
use operating_system.FreeMap.{FreeMap}
use operating_system.InodeTable.{
  InodeTable, find_inode, put_inode, remove_inode, inode_close, close_last,
}
use operating_system.InodeTable.Owners.{
  Distinct, find-sector, find-put_self, find-put_ne, find-remove_self, find-remove_ne,
  Distinct-remove, taken, Stored, Stored-refl, Stored-Owned, IsStore, Owned, disown,
}
use operating_system.InodeTable.Disown.{
  disown-Extent, disown-IsOpen, put_inode-Owned, disown_was, disown_self, open-Extent, release-both,
}

-- The owners after a call of `inode_close` for the inode `i`.
abbrev pub owners_after : (ℕ → Option ℕ) → Inode → ℕ → Option ℕ
owners_after owner i =
    if (i.open_cnt == 1) && i.removed
    then disown owner i.sector i.start (bytes_to_sectors i.data_length)
    else owner

-- What becomes of the inode `i` in the table.
abbrev pub inode_after : Inode → Option Inode
inode_after i = if i.open_cnt == 1 then none else some (record i { open_cnt = i.open_cnt - 1 })

-- After `inode_close` of `i`, the state `t'` of the table `t`.
pub record Closed (t t' : InodeTable) (n : ℕ) (owner : ℕ → Option ℕ) (i : Inode) : Type 0 where
  pub keeps : Owned t' n (owners_after owner i)
  pub this : find_inode t'.open_inodes i.sector ≡ inode_after i
  pub stored : Stored owner t.device t'.device
  pub others : (k : ℕ) → k ≢ i.sector → find_inode t'.open_inodes k ≡ find_inode t.open_inodes k

-- What is open without `s` was open before, and is another inode.
still_open :
    (l : List Inode) (s k : ℕ) (j : Inode)
    → Distinct l
    → find_inode (remove_inode l s) k ≡ some j
    → (k ≢ s) × (find_inode l k ≡ some j)
still_open l s k j d h =
    let ne : k ≢ s = λ e.
      none_found (sym (find-remove_self s l d) ∙ ap (find_inode (remove_inode l s)) (sym e) ∙ h) in
    (ne, sym (find-remove_ne k l s (λ e. ne (sym e))) ∙ h)
  where
    none_found : none ≡ some j → ⊥
    none_found e = cc

closed_kept :
    (t : InodeTable) (n : ℕ) (owner : ℕ → Option ℕ) (s : ℕ)
    → Owned t n owner
    → Owned (record t { open_inodes = remove_inode t.open_inodes s }) n owner
closed_kept t n owner s o = record {
  is_open = o.is_open;
  size = o.size;
  bits = o.bits;
  on_disk = o.on_disk;
  opened = λ k j hj. o.opened k j (still_open t.open_inodes s k j o.distinct hj).1;
  distinct = Distinct-remove t.open_inodes s o.distinct;
}

closed_gone :
    (t : InodeTable) (n : ℕ) (owner : ℕ → Option ℕ) (s : ℕ) (i : Inode) (f : FreeMap)
    → Owned t n owner
    → find_inode t.open_inodes s ≡ some i
    → f.is_open ≡ true
    → Models f.map n (λ j. taken (disown owner s i.start (bytes_to_sectors i.data_length) j))
    → Owned
        (record t { open_inodes = remove_inode t.open_inodes s; free_map = f })
        n
        (disown owner s i.start (bytes_to_sectors i.data_length))
closed_gone t n owner s i f o h op m =
    let (own, inside, x) = open-Extent t n owner s i o h in
    let cnt = bytes_to_sectors i.data_length in
    record {
      is_open = op;
      size = o.size;
      bits = m;
      on_disk = λ k p e.
          disown-Extent owner n s i.start cnt own x k _ _ (other own k e)
            (o.on_disk k p (disown_was owner s i.start cnt k k e));
      opened = λ k j hj.
          let (ne, was) = still_open t.open_inodes s k j o.distinct hj in
          disown-IsOpen owner n s i.start cnt own x t.device.sectors j
            (λ e. ne (sym (find-sector k t.open_inodes j was) ∙ e)) (o.opened k j was);
      distinct = Distinct-remove t.open_inodes s o.distinct;
    }
  where
    other :
        owner s ≡ some s
        → (k : ℕ) → disown owner s i.start (bytes_to_sectors i.data_length) k ≡ some k
        → k ≢ s
    other own k e p = absurd (
        differ (
          sym (disown_self owner s i.start (bytes_to_sectors i.data_length))
          ∙ ap (disown owner s i.start (bytes_to_sectors i.data_length)) (sym p)
          ∙ e))
      where
        differ : none ≡ some k → ⊥
        differ q = cc

close_last-Closed :
    (t : InodeTable) (n : ℕ) (owner : ℕ → Option ℕ) (store_map : FreeMap → Block → Block)
    (i : Inode)
    → Owned t n owner
    → IsStore owner store_map
    → find_inode t.open_inodes i.sector ≡ some i
    → i.open_cnt ≡ 1
    → (t' : InodeTable) × (close_last t store_map i ≡ some t') × Closed t t' n owner i
unfolding close_last
close_last-Closed t n owner store_map i o keeps_map h last = go (Bool-cases i.removed)
  where
    gone_this : find_inode (remove_inode t.open_inodes i.sector) i.sector ≡ inode_after i
    gone_this =
        find-remove_self i.sector t.open_inodes o.distinct ∙ sym (if-true _ _ _ (==_eq last))

    gone_others :
        (k : ℕ)
        → k ≢ i.sector
        → find_inode (remove_inode t.open_inodes i.sector) k ≡ find_inode t.open_inodes k
    gone_others k ne = find-remove_ne k t.open_inodes i.sector (λ e. ne (sym e))

    go :
        (i.removed ≡ true) ⊎ (i.removed ≡ false)
        → (t' : InodeTable) × (close_last t store_map i ≡ some t') × Closed t t' n owner i
    go (inr kept) = (
      record t { open_inodes = remove_inode t.open_inodes i.sector },
      if-false _ _ _ kept,
      record {
        keeps =
            subst (Owned _ n)
              (sym (if-false ((i.open_cnt == 1) && i.removed) _ _ (ap₂ ◌&&◌ (==_eq last) kept)))
              (closed_kept t n owner i.sector o);
        this = gone_this;
        stored = Stored-refl owner t.device;
        others = gone_others;
      },
    )
    go (inl gone) =
        let (f, f', e, e', op, m) = release-both t n owner i.sector i o h in
        (
          record t {
            open_inodes = remove_inode t.open_inodes i.sector;
            free_map = f';
            device = store_map f' t.device;
          },
          if-true _ _ _ gone ∙ rw (e, e'),
          record {
            keeps =
                rw (gone, ==_eq last)
                  (closed_gone (record t { device = store_map f' t.device }) n owner i.sector i f'
                    (Stored-Owned t n owner (store_map f' t.device) (keeps_map f' t.device) o) h op
                    m);
            this = gone_this;
            stored = keeps_map f' t.device;
            others = gone_others;
          },
        )

-- In a valid table on a device of fewer than 2^22 - 1 sectors, if storing the free map changes no
-- sector but the data of its file: `inode_close` of an open inode fails no ASSERT, and the length
-- of the inode is an `off_t` below 2^31 - 512. With the last reference the inode leaves the table,
-- and if it was removed, its sector and its data are free and nothing else is; otherwise one
-- reference less is left. The other inodes, their sectors and the device but for the data of the
-- free map's file stay as they are, and the table stays valid.
pub inode_close_lem :
    (t : InodeTable) (n : ℕ) (owner : ℕ → Option ℕ) (store_map : FreeMap → Block → Block)
    (i : Inode)
    → Owned t n owner
    → IsStore owner store_map
    → n < 2 ^ 22 - 1
    → find_inode t.open_inodes i.sector ≡ some i
    → (t' : InodeTable) × (inode_close t store_map i.sector ≡ some t')
      × (i.data_length < 2 ^ 31 - 512)
      × Closed t t' n owner i
unfolding inode_close
inode_close_lem t n owner store_map i o keeps_map small h =
    let (t', e, c) = go (ℕ_discrete i.open_cnt 1) in
    let x = (open-Extent t n owner i.sector i o h).2 in (t', e, omega (arith, x.inside, small), c)
  where
    go :
        Dec (i.open_cnt ≡ 1)
        → (t' : InodeTable) × (inode_close t store_map i.sector ≡ some t') × Closed t t' n owner i
    go (yes last) =
        let (t', e, c) = close_last-Closed t n owner store_map i o keeps_map h last in
        (t', rw h (if-true _ _ _ (==_eq last) ∙ e), c)
    go (no more) =
        let y = o.opened i.sector i h in
        let r = record i { open_cnt = i.open_cnt - 1 } in
        (
          record t { open_inodes = put_inode t.open_inodes r },
          rw h (if-false _ _ _ (==_ne more)),
          record {
            keeps = rw (==_ne more) (
                put_inode-Owned t n owner i.sector i r o h refl (record {
                  counted = omega (arith, more, y.counted);
                  inside = y.inside;
                  owned = y.owned;
                  start_eq = y.start_eq;
                  length_eq = y.length_eq;
                }));
            stored = Stored-refl owner t.device;
            this =
                find-put_self i.sector t.open_inodes i r h refl ∙ sym (if-false _ _ _ (==_ne more));
            others = λ k ne. find-put_ne k t.open_inodes r (λ e. ne (sym e));
          },
        )
