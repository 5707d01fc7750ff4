-- ===== src/FileSys/Open.antt =====
-- `filesys_open` of src/filesys/filesys.c after `filesys_create`: the new file is found.
use operating_system.Common.{
  ℕ, ◌^◌, ◌-◌, ◌+◌, ◌≤◌, length, ◌<◌, ◌≡◌, ◌≢◌, refl, ◌∙◌, sym, ap, subst, inl, inr, ◌⊎◌, Bool,
  true, false, ◌&&◌, Option, none, some, List, none≢some, true≢false, if-true, some_injective,
}
use operating_system.Common.Int.{pos}
use operating_system.Inode.{Inode}
use operating_system.FreeMap.{free_map_sector, root_dir_sector}
use operating_system.InodeTable.{InodeTable, find_inode, inode_open, new_inode}
use operating_system.InodeTable.Owners.{IsStore, IsStore-extends, Owned}
use operating_system.InodeTable.Open.{inode_open_lem, inode_opened, is_found}
use operating_system.Directory.{DirEntry, lookup, sector_of}
use operating_system.Directory.Names.{binds, UniqueNames, same_name_refl, take-enough}
use operating_system.FileSys.{
  FileSys, Outcomes, dir_open_root, dir_close, dir_lookup, lookup_with, open_in, filesys_open,
  filesys_create,
}
use operating_system.FileSys.Sectors.{removed_of, IsHeld, Holds, close_kept, dir_open_root_lem}
use operating_system.FileSys.Named.{CannotCreate, FileCreated}
use operating_system.FileSys.Create.{filesys_create_lem}

lookup-binds :
    (reads : ℕ) (es : List DirEntry) (name : List ℕ)
    → length es ≤ reads
    → sector_of (lookup reads es name) ≡ binds es name
unfolding lookup
lookup-binds reads es name h = ap (λ l. binds l name) (take-enough reads es h)

-- `inode_open` with memory opens the inode.
opened_some :
    (was : Option Inode) (fresh : Inode) → (i : Inode) × (inode_opened was true fresh ≡ some i)
opened_some none fresh = (fresh, refl)
opened_some (some i) fresh = (record i { open_cnt = i.open_cnt + 1 }, refl)

open_run :
    (fs : FileSys) (o : Outcomes) (name : List ℕ) (s : ℕ) (t1 t2 t3 : InodeTable)
    → sector_of (lookup o.buffers.lookup_reads fs.root name) ≡ some s
    → dir_open_root fs.table o ≡ some (true, t1)
    → inode_open t1 o.inode s ≡ some (true, t2)
    → dir_close t2 o.store_map root_dir_sector ≡ some t3
    → filesys_open fs o name ≡ some (some s, record { table = t3; root = fs.root })
unfolding filesys_open open_in dir_lookup lookup_with
open_run fs o name s t1 t2 t3 b e1 e2 e3 = rw (e1, b, e2, e3)

-- What a file that was found looks like.
pub record FoundFile (fs fs' : FileSys) (name : List ℕ) (s : ℕ) : Type 0 where
  pub bound : binds fs.root name ≡ some s
  pub same_names : fs'.root ≡ fs.root
  pub is_open : (i : Inode) × (find_inode fs'.table.open_inodes s ≡ some i)

at-FoundFile :
    (fs : FileSys) (n : ℕ) (owner : ℕ → Option ℕ) (o : Outcomes) (name : List ℕ) (s : ℕ)
    → Owned fs.table n owner
    → IsStore owner o.store_map
    → n < 2 ^ 22 - 1
    → root_dir_sector < n
    → owner root_dir_sector ≡ some root_dir_sector
    → removed_of (find_inode fs.table.open_inodes root_dir_sector) ≡ false
    → binds fs.root name ≡ some s
    → length fs.root ≤ o.buffers.lookup_reads
    → s < n
    → owner s ≡ some s
    → s ≢ root_dir_sector
    → (o.root_inode && o.dir) ≡ true
    → o.inode ≡ true
    → (fs' : FileSys) × (filesys_open fs o name ≡ some (some s, fs')) × FoundFile fs fs' name s
unfolding dir_close
at-FoundFile fs n owner o name s w stores small root_in root_own kept b reads inside own apart had
      mem =
    let (ok, t1, e1, h, why) =
      dir_open_root_lem fs.table n owner o w stores small root_in root_own kept in
    go ok t1 e1 h why
  where
    go :
        (ok : Bool) (t1 : InodeTable)
        → dir_open_root fs.table o ≡ some (ok, t1)
        → Holds fs.table t1 n owner root_dir_sector ok
        → (ok ≡ true) ⊎ ((o.root_inode && o.dir) ≡ false)
        → (fs' : FileSys) × (filesys_open fs o name ≡ some (some s, fs')) × FoundFile fs fs' name s
    go false t1 e1 h (inl yes') = absurd (true≢false (sym yes'))
    go false t1 e1 h (inr none') = absurd (true≢false (sym had ∙ none'))
    go true t1 e1 h why =
        let (ok2, t2, e2, r) = inode_open_lem t1 n owner true s h.keeps inside own in
        let (i, here) =
          opened_some (find_inode t1.open_inodes s) (new_inode s (t1.device.sectors s)) in
        let now : find_inode t2.open_inodes s ≡ some i = r.this ∙ here in
        let yes' : ok2 ≡ true = r.answer ∙ ap is_found now in
        let (root_i, at_root, live) = h.held in
        let held : IsHeld true t2 root_dir_sector =
          (root_i, r.others root_dir_sector (λ q. apart (sym q)) ∙ at_root, live) in
        let (t3, e3, h3) =
          close_kept t2 n owner o.store_map root_dir_sector r.keeps stores small held in
        let opened : inode_open t1 o.inode s ≡ some (true, t2) =
          ap (λ m. inode_open t1 m s) mem ∙ e2 ∙ ap (λ k. some (k, t2)) yes' in
        (
          record { table = t3; root = fs.root },
          open_run fs o name s t1 t2 t3 (lookup-binds o.buffers.lookup_reads fs.root name reads ∙ b)
              e1 opened e3,
          record { bound = b; same_names = refl; is_open = (i, h3.others s apart ∙ now) },
        )

-- In a valid file system on a device of fewer than 2^22 - 1 sectors that is no foreign one, in
-- which sector 0 is in use, the root directory has sector 1 and is not removed, and no two names
-- are equal, if each read of an entry of the directory gets a bounce buffer and storing the free
-- map changes no sector but the data of its file: after a `filesys_create` with an initial size
-- from 0 to below 2^31 - 512 that answered true, `filesys_open` of the name, with memory, opens an
-- inode at a sector that was free before, the sector that the name is now bound to, and leaves the
-- names as they are.
pub filesys_open-create :
    (fs fs1 : FileSys) (n : ℕ) (owner : ℕ → Option ℕ) (o o1 : Outcomes) (name : List ℕ) (size : ℕ)
    → Owned fs.table n owner
    → fs.table.device.foreign ≡ false
    → IsStore owner o.store_map
    → IsStore owner o1.store_map
    → n < 2 ^ 22 - 1
    → owner 0 ≢ none
    → root_dir_sector < n
    → owner root_dir_sector ≡ some root_dir_sector
    → removed_of (find_inode fs.table.open_inodes root_dir_sector) ≡ false
    → UniqueNames fs.root
    → length fs.root ≤ o.buffers.lookup_reads
    → length fs.root ≤ o.buffers.slot_reads
    → size < 2 ^ 31 - 512
    → filesys_create fs o name (pos size) ≡ some (true, fs1)
    → (o1.root_inode && o1.dir) ≡ true
    → o1.inode ≡ true
    → length fs1.root ≤ o1.buffers.lookup_reads
    → (s : ℕ) × (fs2 : FileSys) × (filesys_open fs1 o1 name ≡ some (some s, fs2))
      × (owner s ≡ none)
      × FoundFile fs1 fs2 name s
filesys_open-create fs fs1 n owner o o1 name size w own stores stores1 small used0 root_in root_own
      kept unique reads slots short run had mem reads1 =
    let (ok, fs', e, c) =
      filesys_create_lem fs n owner o name size w own stores small used0 root_in root_own kept
        unique reads slots short in
    let both : ◌≡◌ {A = Bool × FileSys} (ok, fs') (true, fs1) = some_injective (sym e ∙ run) in
    let c1 : FileCreated fs fs1 n owner name (CannotCreate o n owner fs.root name size) true =
      subst (λ r. FileCreated fs r.1 n owner name (CannotCreate o n owner fs.root name size) r.0)
        both c in
    let (s, free, inside, mine, fresh, names, u) = c1.named in
    let apart : s ≢ root_dir_sector = λ q. none≢some (sym free ∙ ap owner q ∙ root_own) in
    let (fs2, e2, f) =
      at-FoundFile fs1 n c1.owner' o1 name s c1.keeps
        (IsStore-extends owner c1.owner' o1.store_map (λ j e. c1.extends j free_map_sector e)
          stores1)
        small root_in (c1.extends root_dir_sector root_dir_sector root_own) c1.root_kept
        (names name ∙ if-true _ _ _ (same_name_refl name)) reads1 inside mine apart had mem in
    (s, fs2, e2, free, f)
