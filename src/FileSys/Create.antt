-- ===== src/FileSys/Create.antt =====
-- `filesys_create` of src/filesys/filesys.c: the new file is found under its name and owns its sectors,
-- or the directory is as before.
use operating_system.Common.{
  true≢false, ℕ, ◌^◌, ◌-◌, ◌+◌, ◌≤◌, length, ◌<◌, ◌≡◌, ◌≢◌, refl, ◌∙◌, sym, ap, subst, inl, inr,
  ◌⊎◌, Bool, true, false, ◌||◌, ◌&&◌, Option, none, some, List, arith, ◌==◌, leb, ltb, ==_eq, ==_ne,
  if-true, if-false, Bool-cases, not, ◌>>=◌, none≢some,
}
use operating_system.Common.Int.{pos}
use operating_system.Inode.{Inode, bytes_to_sectors}
use operating_system.Bitmap.Refine.{Models}
use operating_system.FreeMap.{free_map_sector, FreeMap, free_map_allocate, root_dir_sector}
use operating_system.FreeMap.Allocate.{
  free_map_allocate_lem, IsAnswer, answer-IsRun, after, Models-cong,
}
use operating_system.InodeTable.{InodeTable, find_inode, inode_create}
use operating_system.InodeTable.Owners.{taken, IsStore, IsStore-extends, Stored-Owned, Owned}
use operating_system.InodeTable.Create.{inode_create_lem, IsCreated, Created, own_extent}
use operating_system.Directory.{DirEntry, dir_add}
use operating_system.Directory.Names.{UniqueNames}
use operating_system.Directory.Add.{IsAdded, dir_add_lem}
use operating_system.FileSys.{
  FileSys, Outcomes, dir_open_root, dir_close, give_back, create_at, create_in, filesys_create,
}
use operating_system.FileSys.Sectors.{
  reserve, change-Owned, fill_one, give_back-Owned, removed_of, IsHeld, Holds, dir_open_root_lem,
}
use operating_system.FileSys.Named.{
  closed_after, returned-Extends, FileCreated, CannotCreate, not_open, and_right, stored,
  answer-IsFirstFit,
}

-- The creation at a sector `s` that was reserved while the root is held.
module _ (fs : FileSys) (n : ℕ) (owner : ℕ → Option ℕ) (o : Outcomes) (name : List ℕ) (s : ℕ)
    (free : owner s ≡ none) (inside : s < n) (not_0 : s ≢ 0) (unique : UniqueNames fs.root)
    (reads : length fs.root ≤ o.buffers.lookup_reads)
    (slots : length fs.root ≤ o.buffers.slot_reads) (stores : IsStore owner o.store_map)
    (small : n < 2 ^ 22 - 1) (size : ℕ) where
  abbrev with_s : ℕ → Option ℕ
  with_s = reserve owner s (some n)

  -- Sectors other than `s` keep their owners, and so does the free map's file.
  stores_with :
      (owner' : ℕ → Option ℕ)
      → ((j m : ℕ) → j ≢ s → owner j ≡ some m → owner' j ≡ some m)
      → IsStore owner' o.store_map
  stores_with owner' ext =
      IsStore-extends owner owner' o.store_map
        (λ j e. ext j free_map_sector (λ q. none≢some (sym free ∙ ap owner (sym q) ∙ e)) e) stores

  -- `free_map_release` and `dir_close` after a failure.
  failed :
      (t : InodeTable) (owner' : ℕ → Option ℕ)
      → Owned t n owner'
      → (owner' s ≡ some n) ⊎ (owner' s ≡ some s)
      → find_inode t.open_inodes s ≡ none
      → IsHeld true t root_dir_sector
      → ((j m : ℕ) → j ≢ s → owner j ≡ some m → owner' j ≡ some m)
      → CannotCreate o n owner fs.root name size
      → (fs' : FileSys) × ◌≡◌ {A = Option (Bool × FileSys)}
          (give_back false t o.store_map s >>= λ t1.
            dir_close t1 o.store_map root_dir_sector >>= λ t2.
            some (false, record { table = t2; root = fs.root }))
          (some (false, fs'))
        × FileCreated fs fs' n owner name (CannotCreate o n owner fs.root name size) false
  failed t owner' w mine closed held ext because =
      let (t1, e1, w1, same) =
        give_back-Owned t n owner' o.store_map s w (stores_with owner' ext) inside not_0 mine
          closed in
      let (t2, e2, c) =
        closed_after n owner fs.root name (CannotCreate o n owner fs.root name size) o.store_map
          small false t1 fs.root (reserve owner' s none) fs refl w1
          (IsStore-extends owner (reserve owner' s none) o.store_map
            (λ j e.
              if-false (j == s) _ _ (==_ne (λ q. none≢some (sym free ∙ ap owner (sym q) ∙ e)))
              ∙ ext j free_map_sector (λ q. none≢some (sym free ∙ ap owner (sym q) ∙ e)) e)
            stores)
          (subst (λ l. (i : Inode) × (find_inode l root_dir_sector ≡ some i) × (i.removed ≡ false))
            (sym same) held)
          (returned-Extends n owner fs.root name (CannotCreate o n owner fs.root name size)
            o.store_map small s owner' free ext)
          (refl, because) in
      (record { table = t2; root = fs.root }, rw (e1, e2), c)

  own_s : (start size : ℕ) → own_extent with_s s start (bytes_to_sectors size) s ≡ some s
  own_s start size =
      if-true _ _ _
        (ap (λ b. b || (leb start s && ltb s (start + bytes_to_sectors size))) (==_eq refl))

  kept_held :
      (t t3 : InodeTable)
      → t3.open_inodes ≡ t.open_inodes
      → IsHeld true t root_dir_sector
      → IsHeld true t3 root_dir_sector
  kept_held t t3 same held =
      subst (λ l. (i : Inode) × (find_inode l root_dir_sector ≡ some i) × (i.removed ≡ false))
        (sym same) held

  extent_keeps :
      {t t3 : InodeTable} {size start : ℕ}
      → Created t t3 n with_s s size start
      → (j m : ℕ) → j ≢ s
      → owner j ≡ some m
      → own_extent with_s s start (bytes_to_sectors size) j ≡ some m
  extent_keeps {size = size} {start = start} c j m ne e =
      let with_j : with_s j ≡ some m = if-false (j == s) _ _ (==_ne ne) ∙ e in
      elim (Bool-cases ((j == s) || (leb start j && ltb j (start + bytes_to_sectors size)))) [
        | inr q ↦ if-false _ _ _ q ∙ with_j
        | inl q ↦ absurd (none≢some (sym (c.was_free j (ground arith) (ground arith)) ∙ with_j))
      ]

  made_one :
      (t t3 : InodeTable) (start : ℕ) (ok : Bool) (es' : List DirEntry)
      → find_inode t.open_inodes s ≡ none
      → IsHeld true t root_dir_sector
      → Created t t3 n with_s s size start
      → IsAdded ok o.buffers.written fs.root es' name s
      → (fs' : FileSys) × ◌≡◌ {A = Option (Bool × FileSys)}
          (give_back ok t3 o.store_map s >>= λ t1.
            dir_close t1 o.store_map root_dir_sector >>= λ t2.
            some (ok, record { table = t2; root = es' }))
          (some (ok, fs'))
        × FileCreated fs fs' n owner name (CannotCreate o n owner fs.root name size) ok
  unfolding give_back
  made_one t t3 start true es' closed held c a =
      let (t2, e2, r) =
        closed_after n owner fs.root name (CannotCreate o n owner fs.root name size) o.store_map
          small true t3 es' (own_extent with_s s start (bytes_to_sectors size)) fs refl c.keeps
          (stores_with (own_extent with_s s start (bytes_to_sectors size))
            (λ j m ne e. extent_keeps c j m ne e))
          (kept_held t t3 c.same_open held)
          (λ j m e. extent_keeps c j m (λ q. none≢some (sym free ∙ ap owner (sym q) ∙ e)) e)
          (s, free, inside, own_s start size, a.0, a.3, a.4) in
      (record { table = t2; root = es' }, rw e2, r)
  made_one t t3 start false es' closed held c a =
      let (fs', e, r) =
        failed t3 (own_extent with_s s start (bytes_to_sectors size)) c.keeps
          (inr (own_s start size)) (ap (λ l. find_inode l s) c.same_open ∙ closed)
          (kept_held t t3 c.same_open held) (λ j m ne e. extent_keeps c j m ne e)
          (inr (inr (inr a.1))) in
      (fs', rw a.0 e, r)

  create_at_lem :
      (t : InodeTable)
      → Owned t n with_s
      → IsHeld true t root_dir_sector
      → t.device.foreign ≡ false
      → size < 2 ^ 31 - 512
      → find_inode t.open_inodes s ≡ none
      → (ok : Bool) × (fs' : FileSys) × (create_at (some s) t fs.root o name (pos size)
          ≡ some (ok, fs'))
        × FileCreated fs fs' n owner name (CannotCreate o n owner fs.root name size) ok
  unfolding create_at
  create_at_lem t w held own short closed =
      let (made, t3, e3, c) =
        inode_create_lem t n with_s o.disk_inode o.data_written o.store_map s size w
          (stores_with with_s (λ j m ne e. if-false (j == s) _ _ (==_ne ne) ∙ e)) own inside small
          (if-true (s == s) _ _ (==_eq refl)) closed short in
      go made t3 e3 c (dir_add o.buffers fs.root name s).0 (dir_add o.buffers fs.root name s).1 refl
        (dir_add_lem o.buffers fs.root name s unique reads slots)
    where
      no_data :
          t.free_map.is_open ≡ true
          → (o.disk_inode ≡ false)
            ⊎ IsAnswer
                (λ j. taken (with_s j))
                n
                (bytes_to_sectors size)
                (t.free_map.is_open && not o.data_written)
                none
          → CannotCreate o n owner fs.root name size
      no_data op (inl h) = inl (
          and_right (o.root_inode && o.dir) (o.disk_inode && (o.one_written && o.data_written))
            (ap (λ b. b && (o.one_written && o.data_written)) h))
      no_data op (inr h) = elim (Bool-cases o.data_written) [
        | inr w ↦ inl (
            and_right (o.root_inode && o.dir) (o.disk_inode && (o.one_written && o.data_written)) (
              and_right o.disk_inode (o.one_written && o.data_written)
                (and_right o.one_written o.data_written w)))
        | inl w ↦ inr (
            inr (
              inl (
                s,
                free,
                answer-IsFirstFit (λ j. taken (with_s j)) n (bytes_to_sectors size)
                    (t.free_map.is_open && not o.data_written) none (stored op w) h,
              )))
      ]

      go :
          (made : Bool) (t3 : InodeTable)
          → inode_create t o.disk_inode o.data_written o.store_map s (pos size) ≡ some (made, t3)
          → IsCreated made t t3 n with_s o.disk_inode o.data_written s size
          → (ok : Bool) (es' : List DirEntry)
          → ◌≡◌ {A = Bool × List DirEntry} (dir_add o.buffers fs.root name s) (ok, es')
          → IsAdded ok o.buffers.written fs.root es' name s
          → (ok : Bool) × (fs' : FileSys) × (create_at (some s) t fs.root o name (pos size)
              ≡ some (ok, fs'))
            × FileCreated fs fs' n owner name (CannotCreate o n owner fs.root name size) ok
      go true t3 e3 (start, c) ok es' ea a =
          let (fs', e, r) = made_one t t3 start ok es' closed held c a in
          (ok, fs', rw (e3, ea) e, r)
      go false t3 e3 (w3, same_d, same, reason) ok es' ea a =
          let (fs', e, r) =
            failed t3 with_s w3 (inl (if-true (s == s) _ _ (==_eq refl)))
              (ap (λ l. find_inode l s) same ∙ closed) (kept_held t t3 same held)
              (λ j m ne e. if-false (j == s) _ _ (==_ne ne) ∙ e) (no_data w.is_open reason) in
          (false, fs', rw e3 e, r)

not_taken : (v : Option ℕ) → taken v ≡ false → v ≡ none
not_taken none h = refl
not_taken (some a) h = cc

-- In a valid file system on a device of fewer than 2^22 - 1 sectors that is no foreign one, in
-- which sector 0 is in use, the root directory has sector 1 and is not removed, and no two names
-- are equal, if each read of an entry of the directory gets a bounce buffer and storing the free
-- map changes no sector but the data of its file: `filesys_create` with an initial size from 0 to
-- below 2^31 - 512 does not panic, whatever other memory is had and whether the free map can be
-- stored. If it answers true, the name, which was not bound, is bound to the sector of a new inode,
-- a sector that was free, every other name is as before, and no two names are equal; if it answers
-- false, the directory is as it was, and memory was wanting, the free map could not be stored, no
-- sector is free for the inode, no run of sectors for the data beside it, or the directory refuses
-- the name as empty, too long, bound or for want of a slot, or its write got no bounce buffer. In
-- both cases every sector in use stays with its owner, the root directory is not removed and the
-- table of inodes with the free map is valid.
pub filesys_create_lem :
    (fs : FileSys) (n : ℕ) (owner : ℕ → Option ℕ) (o : Outcomes) (name : List ℕ) (size : ℕ)
    → Owned fs.table n owner
    → fs.table.device.foreign ≡ false
    → IsStore owner o.store_map
    → n < 2 ^ 22 - 1
    → owner 0 ≢ none
    → root_dir_sector < n
    → owner root_dir_sector ≡ some root_dir_sector
    → removed_of (find_inode fs.table.open_inodes root_dir_sector) ≡ false
    → UniqueNames fs.root
    → length fs.root ≤ o.buffers.lookup_reads
    → length fs.root ≤ o.buffers.slot_reads
    → size < 2 ^ 31 - 512
    → (ok : Bool) × (fs' : FileSys) × (filesys_create fs o name (pos size) ≡ some (ok, fs'))
      × FileCreated fs fs' n owner name (CannotCreate o n owner fs.root name size) ok
unfolding filesys_create create_in create_at
filesys_create_lem fs n owner o name size w own stores small used0 root_in root_own kept unique
      reads slots short =
    let (ok, t, e, h, why) =
      dir_open_root_lem fs.table n owner o w stores small root_in root_own kept in
    go ok t e h why
      (free_map_allocate_lem t.free_map o.one_written n (λ j. taken (owner j)) 1 h.keeps.bits)
  where
    no_sector :
        (t : InodeTable)
        → t.free_map.is_open ≡ true
        → IsAnswer (λ j. taken (owner j)) n 1 (t.free_map.is_open && not o.one_written) none
        → CannotCreate o n owner fs.root name size
    no_sector t op h = elim (Bool-cases o.one_written) [
      | inr w ↦ inl (
          and_right (o.root_inode && o.dir) (o.disk_inode && (o.one_written && o.data_written)) (
            and_right o.disk_inode (o.one_written && o.data_written)
              (ap (λ b. b && o.data_written) w)))
      | inl w ↦ inr (
          inl (
            answer-IsFirstFit (λ j. taken (owner j)) n 1 (t.free_map.is_open && not o.one_written)
              none (stored op w) h))
    ]

    go :
        (ok : Bool) (t : InodeTable)
        → dir_open_root fs.table o ≡ some (ok, t)
        → Holds fs.table t n owner root_dir_sector ok
        → (ok ≡ true) ⊎ ((o.root_inode && o.dir) ≡ false)
        → (r : Option ℕ) × (f : FreeMap) × (free_map_allocate t.free_map o.one_written 1
            ≡ some (r, f))
          × (f.is_open ≡ t.free_map.is_open)
          × IsAnswer (λ j. taken (owner j)) n 1 (t.free_map.is_open && not o.one_written) r
          × Models f.map n (after (λ j. taken (owner j)) 1 r)
        → (ok : Bool) × (fs' : FileSys) × (filesys_create fs o name (pos size) ≡ some (ok, fs'))
          × FileCreated fs fs' n owner name (CannotCreate o n owner fs.root name size) ok
    go false t e h (inl yes') any = absurd (true≢false (sym yes'))
    go false t e h (inr none') any = (
      false,
      record { table = t; root = fs.root },
      rw e,
      record {
        owner' = owner;
        keeps = h.keeps;
        extends = λ j m q. q;
        named =
            (refl, inl (ap (λ b. b && (o.disk_inode && (o.one_written && o.data_written))) none'));
        root_kept = h.held;
      },
    )
    go true t e h had (none, f, ea, op, answer, m) =
        let d = o.store_map f t.device in
        let t1 : InodeTable = record t { free_map = f; device = d } in
        let k = Stored-Owned t n owner d (stores f t.device) h.keeps in
        let w1 : Owned t1 n owner = record {
          is_open = op ∙ k.is_open;
          size = k.size;
          bits = m;
          on_disk = k.on_disk;
          opened = k.opened;
          distinct = k.distinct;
        } in
        let (t2, e2, c) =
          closed_after n owner fs.root name (CannotCreate o n owner fs.root name size) o.store_map
            small false t1 fs.root owner fs refl w1 stores h.held (λ j m q. q)
            (refl, no_sector t h.keeps.is_open answer) in
        (false, record { table = t2; root = fs.root }, rw (e, ea, e2), c)
    go true t e h had (some s, f, ea, op, answer, m) =
        let d = o.store_map f t.device in
        let (fits, run) =
          answer-IsRun (λ j. taken (owner j)) n 1 (t.free_map.is_open && not o.one_written) s
            answer in
        let free : owner s ≡ none = not_taken (owner s) (run s (omega arith) (omega arith)) in
        let closed = not_open t n owner s h.keeps free in
        let w1 =
          change-Owned (record t { device = d }) n owner s (some n) f
            (Stored-Owned t n owner d (stores f t.device) h.keeps) (omega arith) (inl free)
            (inr refl) closed (op ∙ h.keeps.is_open) (Models-cong m (fill_one owner s (some n))) in
        let (ok, fs', e2, c) =
          create_at_lem fs n owner o name s free (omega arith)
            (λ z. used0 (ap owner (sym z) ∙ free)) unique reads slots stores small size
            (record t { free_map = f; device = d }) w1 h.held
            ((stores f t.device).foreign ∙ h.foreign ∙ own) short closed in
        (ok, fs', rw (e, ea) e2, c)
