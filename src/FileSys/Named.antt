-- ===== src/FileSys/Named.antt =====
-- What `filesys_create` of src/filesys/filesys.c has to leave, and when it may fail.
use operating_system.Common.{
  true≢false, ap₂, ℕ, ◌^◌, ◌-◌, ◌<◌, ◌≡◌, ◌≢◌, refl, ◌∙◌, sym, ap, inl, inr, ◌⊎◌, Bool, true, false,
  ◌&&◌, Option, none, some, List, if◌then◌else◌, ◌==◌, ==_ne, if-false, Option-cases, not,
  none≢some,
}
use operating_system.Inode.{bytes_to_sectors}
use operating_system.Bitmap.Scan.{IsFirstFit}
use operating_system.Block.{Block}
use operating_system.FreeMap.{FreeMap, root_dir_sector}
use operating_system.FreeMap.Allocate.{IsAnswer}
use operating_system.InodeTable.{InodeTable, find_inode}
use operating_system.InodeTable.Owners.{taken, IsStore, Owned, find-sector}
use operating_system.Directory.{DirEntry, same_name}
use operating_system.Directory.Names.{binds, UniqueNames}
use operating_system.Directory.Add.{IsRefused}
use operating_system.FileSys.{FileSys, Outcomes, dir_close}
use operating_system.FileSys.Sectors.{reserve, removed_of, IsHeld, close_kept}

-- Every sector of `owner` is with the same owner in `owner'`.
abbrev pub Extends : (owner owner' : ℕ → Option ℕ) → Type 0
Extends owner owner' = (j m : ℕ) → owner j ≡ some m → owner' j ≡ some m

-- Whether memory is had and the free map can be stored wherever `filesys_create` needs it.
abbrev pub all_had : Outcomes → Bool
all_had o = (o.root_inode && o.dir) && (o.disk_inode && (o.one_written && o.data_written))

abbrev pub in_use_by : (ℕ → Option ℕ) → ℕ → Bool
in_use_by owner j = taken (owner j)

-- Why a file cannot be created: memory or the free map failed, no sector is free for its inode, no run
-- of sectors is free for its data beside that sector, or the directory refuses the name.
abbrev pub CannotCreate : Outcomes → ℕ → (ℕ → Option ℕ) → List DirEntry → List ℕ → ℕ → Type 0
CannotCreate o n owner es name length =
    (all_had o ≡ false)
    ⊎ (IsFirstFit (in_use_by owner) n 0 1 false none
        ⊎ (((s : ℕ) × (owner s ≡ none)
              × IsFirstFit (in_use_by (reserve owner s (some n))) n 0 (bytes_to_sectors length)
                  false none)
            ⊎ IsRefused o.buffers.written es name))

-- What the name of the new file has become, where the answer is `ok`.
abbrev pub IsNamed :
    Bool
    → (why : Type 0) → (n : ℕ) → (es es' : List DirEntry) → (owner owner' : ℕ → Option ℕ) → List ℕ
    → Type 0
IsNamed true why n es es' owner owner' name =
    (s : ℕ) × (owner s ≡ none)
    × (s < n)
    × (owner' s ≡ some s)
    × (binds es name ≡ none)
    × ((other : List ℕ)
        → binds es' other ≡ (if same_name other name then some s else binds es other))
    × UniqueNames es'
IsNamed false why n es es' owner owner' name = (es' ≡ es) × why

-- The file system `fs'` after `filesys_create` in `fs`.
pub record FileCreated (fs fs' : FileSys) (n : ℕ) (owner : ℕ → Option ℕ) (name : List ℕ)
    (why : Type 0) (ok : Bool) : Type 0 where
  pub owner' : ℕ → Option ℕ
  pub keeps : Owned fs'.table n owner'
  pub extends : Extends owner owner'
  pub named : IsNamed ok why n fs.root fs'.root owner owner' name
  pub root_kept : removed_of (find_inode fs'.table.open_inodes root_dir_sector) ≡ false

-- An inode whose sector is free is not open.
pub not_open :
    (t : InodeTable) (n : ℕ) (owner : ℕ → Option ℕ) (s : ℕ)
    → Owned t n owner
    → owner s ≡ none
    → find_inode t.open_inodes s ≡ none
not_open t n owner s o e = elim (Option-cases (find_inode t.open_inodes s)) [
  | inl h ↦ h
  | inr (i, h) ↦ absurd (
      none≢some (sym e ∙ ap owner (sym (find-sector s t.open_inodes i h)) ∙ (o.opened s i h).owned))
]

module _ (n : ℕ) (owner : ℕ → Option ℕ) (es : List DirEntry) (name : List ℕ) (why : Type 0)
    (store_map : FreeMap → Block → Block) (small : n < 2 ^ 22 - 1) where
  -- The file system after a step that keeps the root open, once `dir_close` has run.
  pub closed_after :
      (ok : Bool) (t : InodeTable) (es' : List DirEntry) (owner' : ℕ → Option ℕ) (fs : FileSys)
      → fs.root ≡ es
      → Owned t n owner'
      → IsStore owner' store_map
      → IsHeld true t root_dir_sector
      → Extends owner owner'
      → IsNamed ok why n es es' owner owner' name
      → (t' : InodeTable) × (dir_close t store_map root_dir_sector ≡ some t')
        × FileCreated fs (record { table = t'; root = es' }) n owner name why ok
  unfolding dir_close
  closed_after ok t es' owner' fs p o stores held ext named =
      let (t', e, h) = close_kept t n owner' store_map root_dir_sector o stores small held in
      (
        t',
        e,
        record {
          owner' = owner';
          keeps = h.keeps;
          extends = ext;
          named = rw p named;
          root_kept = h.held;
        },
      )

  -- A reserved sector that is given back is free again.
  pub returned-Extends :
      (s : ℕ) (owner' : ℕ → Option ℕ)
      → owner s ≡ none
      → ((j m : ℕ) → j ≢ s → owner j ≡ some m → owner' j ≡ some m)
      → Extends owner (reserve owner' s none)
  returned-Extends s owner' free ext j m e =
      let ne : j ≢ s = λ q. none≢some (sym free ∙ ap owner (sym q) ∙ e) in
      if-false (j == s) _ _ (==_ne ne) ∙ ext j m ne e

pub and_right : (a b : Bool) → b ≡ false → (a && b) ≡ false
and_right true b h = h
and_right false b h = refl

-- The free map could be stored.
pub stored :
    {is_open written : Bool} → is_open ≡ true → written ≡ true → (is_open && not written) ≡ false
stored op w = ap₂ (λ a b. a && not b) op w

pub answer-IsFirstFit :
    (used : ℕ → Bool) (n cnt : ℕ) (unstored : Bool) (r : Option ℕ)
    → unstored ≡ false
    → IsAnswer used n cnt unstored r
    → IsFirstFit used n 0 cnt false r
answer-IsFirstFit used n cnt false r e h = h
answer-IsFirstFit used n cnt true r e h = absurd (true≢false e)
