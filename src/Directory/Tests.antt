-- ===== src/Directory/Tests.antt =====
-- A directory of four slots with two names, and the theorems on src/filesys/directory.c at it.
use operating_system.Common.{
  ℕ, ◌≡◌, refl, Bool, true, false, List, [], ◌∷◌, arith, ◌==◌, drop, inl, inr,
}
use operating_system.Directory.{
  Buffers, DirEntry, lookup, lookup_from, same_name, dir_add, dir_remove, read_names, dir_readdir,
  readdir_from, add_new, free_slot,
}
use operating_system.Directory.Names.{UniqueNames}
use operating_system.Directory.Add.{IsAdded, dir_add_lem}
use operating_system.Directory.Remove.{IsRemoved, dir_remove_lem}
use operating_system.Directory.Readdir.{names_of, read_names_lem}

-- Buffers for every read and write.
abbrev had : Buffers
had = record { lookup_reads = 4; slot_reads = 4; written = true }

-- "a" for sector 5, a removed "b", "cd" for sector 7, and an empty slot.
abbrev entries : List DirEntry
entries =
    record { inode_sector = 5; name = 97 ∷ []; in_use = true }
    ∷ record { inode_sector = 6; name = 98 ∷ []; in_use = false }
    ∷ record { inode_sector = 7; name = 99 ∷ 100 ∷ []; in_use = true }
    ∷ record { inode_sector = 0; name = []; in_use = false }
    ∷ []

entries-UniqueNames : UniqueNames entries
unfolding lookup_from same_name
entries-UniqueNames = (inr refl, (inl refl, (inr refl, (inl refl, tt))))

dir_add_lem_example :
    IsAdded
      (dir_add had entries (98 ∷ []) 9).0
      true
      entries
      (dir_add had entries (98 ∷ []) 9).1
      (98 ∷ [])
      9
dir_add_lem_example =
    dir_add_lem had entries (98 ∷ []) 9 entries-UniqueNames (omega arith) (omega arith)

can_open : ℕ → Bool
can_open s = s == 7

dir_remove_lem_example :
    IsRemoved
      (dir_remove had entries (99 ∷ 100 ∷ []) can_open).0
      true
      entries
      (dir_remove had entries (99 ∷ 100 ∷ []) can_open).1
      (99 ∷ 100 ∷ [])
      can_open
      (dir_remove had entries (99 ∷ 100 ∷ []) can_open).2
dir_remove_lem_example =
    dir_remove_lem had entries (99 ∷ 100 ∷ []) can_open entries-UniqueNames (omega arith)

read_names_lem_example :
    read_names 5 (λ k. 4) (record { entries = entries; pos = 0 }) ≡ names_of (drop 0 entries)
read_names_lem_example =
    read_names_lem 5 (λ k. 4) (record { entries = entries; pos = 0 })
      (omega arith, (omega arith, (omega arith, (omega arith, tt)))) (λ k. omega arith)
      (omega arith)

add_run : (dir_add had entries (98 ∷ []) 9).0 ≡ true
unfolding dir_add add_new lookup lookup_from same_name free_slot
add_run = refl

read_run :
    read_names 5 (λ k. 4) (record { entries = entries; pos = 0 }) ≡ (97 ∷ []) ∷ (99 ∷ 100 ∷ []) ∷ []
unfolding read_names dir_readdir readdir_from
read_run = refl
