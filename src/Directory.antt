-- ===== src/Directory.antt =====
-- src/filesys/directory.c: a directory, as the entries that the data of its inode is made of, one
-- every `sizeof (struct dir_entry)` bytes. An offset goes by the number of entries before it. A
-- name is the list of its bytes before the '\0'. Entries are read and written whole, as
-- `inode_read_at` and `inode_write_at` do within the file, or not at all when malloc has no bounce
-- buffer for them; no write makes the file longer.
pub mod Names
pub mod Add
pub mod Remove
pub mod Readdir
mod Tests
use operating_system.Common.{
  ℕ, zero, suc, ◌+◌, Bool, true, false, not, ◌&&◌, ◌||◌, Option, none, some, List, [], ◌∷◌, ◌==◌,
  ltb, if◌then◌else◌, length, set, drop, take,
}
use operating_system.Process.Arguments.{strlcpy}

abbrev pub name_max : ℕ
name_max = 14

-- `struct dir_entry`
pub record DirEntry : Type 0 where
  pub inode_sector : ℕ
  pub name : List ℕ
  pub in_use : Bool

-- `strcmp (a, b) == 0`
unfoldable pub same_name : List ℕ → List ℕ → Bool
same_name [] [] = true
same_name [] (b ∷ bs) = false
same_name (a ∷ xs) [] = false
same_name (a ∷ xs) (b ∷ bs) = (a == b) && same_name xs bs

-- The loop of `lookup` from the entry `ofs` on: the entry of that name and its offset.
unfoldable pub lookup_from : List DirEntry → (ofs : ℕ) → List ℕ → Option (DirEntry × ℕ)
lookup_from [] ofs name = none
lookup_from (e ∷ es) ofs name =
    let rest = lookup_from es (ofs + 1) name in
    if e.in_use && same_name name e.name then some (e, ofs) else rest

-- What memory one call has for bounce buffers: how many reads of the loop of `lookup` and of the loop
-- over the slots get one before a read does not, and whether the write does. The first short read
-- ends a loop.
pub record Buffers : Type 0 where
  pub lookup_reads : ℕ
  pub slot_reads : ℕ
  pub written : Bool

unfoldable pub lookup : (reads : ℕ) → List DirEntry → List ℕ → Option (DirEntry × ℕ)
lookup reads es name = lookup_from (take reads es) 0 name

-- The sector that `dir_lookup` hands to `inode_open`.
abbrev pub sector_of : Option (DirEntry × ℕ) → Option ℕ
sector_of none = none
sector_of (some (e, ofs)) = some e.inode_sector

-- The loop of `dir_add` over the slots that are read: a free one, or the offset behind them.
unfoldable pub free_slot : List DirEntry → ℕ
free_slot [] = 0
free_slot (e ∷ es) = let rest = free_slot es in if not e.in_use then 0 else rest + 1

-- `inode_write_at` of one entry writes nothing at the end of the file, or without a bounce buffer.
abbrev pub write_entry : (written : Bool) → List DirEntry → ℕ → DirEntry → Bool × List DirEntry
write_entry written es ofs e =
    if written && ltb ofs (length es) then (true, set es ofs e) else (false, es)

-- `dir_add` after the check of the name and the lookup.
unfoldable pub add_new :
    Option (DirEntry × ℕ)
    → Buffers
    → List DirEntry
    → List ℕ
    → (inode_sector : ℕ) → Bool × List DirEntry
add_new (some r) b es name inode_sector = (false, es)
add_new none b es name inode_sector =
    write_entry b.written es (free_slot (take b.slot_reads es))
      (record { inode_sector = inode_sector; name = strlcpy name (name_max + 1); in_use = true })

unfoldable pub dir_add :
    Buffers → List DirEntry → List ℕ → (inode_sector : ℕ) → Bool × List DirEntry
dir_add b es name inode_sector =
    if (length name == 0) || ltb name_max (length name)
    then (false, es)
    else add_new (lookup b.lookup_reads es name) b es name inode_sector

-- `dir_remove` after the lookup; `opened` says for which sectors `inode_open` succeeds. The last part
-- is the sector whose inode is to be removed.
unfoldable pub remove_found :
    Option (DirEntry × ℕ)
    → (written : Bool) → List DirEntry
    → (opened : ℕ → Bool) → Bool × List DirEntry × Option ℕ
remove_found none written es opened = (false, es, none)
remove_found (some (e, ofs)) written es opened =
    if opened e.inode_sector
    then (let w = write_entry written es ofs (record e { in_use = false }) in
        if w.0 then (true, w.1, some e.inode_sector) else (false, w.1, none))
    else (false, es, none)

unfoldable pub dir_remove :
    Buffers → List DirEntry → List ℕ → (opened : ℕ → Bool) → Bool × List DirEntry × Option ℕ
dir_remove b es name opened = remove_found (lookup b.lookup_reads es name) b.written es opened

-- `struct dir`, with the entries of its inode.
pub record Dir : Type 0 where
  pub entries : List DirEntry
  pub pos : ℕ

-- The loop of `dir_readdir` over the entries that are left: the name, and the entries passed over.
unfoldable pub readdir_from : List DirEntry → Option (List ℕ) × ℕ
readdir_from [] = (none, 0)
readdir_from (e ∷ es) =
    let rest = readdir_from es in
    if e.in_use then (some (strlcpy e.name (name_max + 1)), 1) else (rest.0, rest.1 + 1)

-- `reads` is how many of its reads get a bounce buffer before one does not.
unfoldable pub dir_readdir : (reads : ℕ) → Dir → Option (List ℕ) × Dir
dir_readdir reads d =
    let r = readdir_from (take reads (drop d.pos d.entries)) in
    (r.0, record d { pos = d.pos + r.1 })

-- One round prints a name and goes on, or ends the loop.
abbrev pub print_next : Option (List ℕ) → List (List ℕ) → List (List ℕ)
print_next none rest = []
print_next (some name) rest = name ∷ rest

-- The loop of `fsutil_ls` in src/filesys/fsutil.c: the names it prints, within `fuel` rounds;
-- `reads` counts the reads with a bounce buffer of each round, by the rounds that are left after it.
unfoldable pub read_names : (fuel : ℕ) → (reads : ℕ → ℕ) → Dir → List (List ℕ)
read_names zero reads d = []
read_names (suc fuel) reads d =
    let r = dir_readdir (reads fuel) d in print_next r.0 (read_names fuel reads r.1)
