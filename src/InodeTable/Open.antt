-- ===== src/InodeTable/Open.antt =====
-- Opening inodes, `inode_open` of src/filesys/inode.c.
use operating_system.Common.{
  ℕ, ◌+◌, ◌<◌, ◌≡◌, ◌≢◌, refl, ◌∙◌, sym, inl, inr, Bool, true, false, Option, none, some, List, ◌∷◌,
  arith, ==_ne, ==_refl, if-false, ap, ◌⊎◌, Option-cases, subst, some_injective,
}
use native.Mathlib.Decide.{ℕ_discrete}
use operating_system.Block.{block_read-some}
use operating_system.Inode.{Inode}
use operating_system.InodeTable.{
  InodeTable, find_inode, put_inode, inode_open, inode_reopen, new_inode, open_with,
}
use operating_system.InodeTable.Owners.{find-sector, find-put_self, find-put_ne, IsOpen, Owned}
use operating_system.InodeTable.Disown.{put_inode-Owned}

-- What `inode_open` makes of the open inode, or of none, of a sector whose bytes give `fresh`.
abbrev pub inode_opened : Option Inode → (allocated : Bool) → (fresh : Inode) → Option Inode
inode_opened (some i) allocated fresh = some (record i { open_cnt = i.open_cnt + 1 })
inode_opened none true fresh = some fresh
inode_opened none false fresh = none

abbrev pub is_found : Option Inode → Bool
is_found none = false
is_found (some i) = true

-- After `inode_open` of sector `s` with answer `ok`, the state `t'` of the table `t`.
pub record Opened (t t' : InodeTable) (n : ℕ) (owner : ℕ → Option ℕ) (allocated : Bool) (s : ℕ)
    (ok : Bool) : Type 0 where
  pub keeps : Owned t' n owner
  pub this :
      find_inode t'.open_inodes s
      ≡ inode_opened (find_inode t.open_inodes s) allocated (new_inode s (t.device.sectors s))
  pub answer : ok ≡ is_found (find_inode t'.open_inodes s)
  pub same_sectors : t'.device.sectors ≡ t.device.sectors
  pub same_foreign : t'.device.foreign ≡ t.device.foreign
  pub others : (k : ℕ) → k ≢ s → find_inode t'.open_inodes k ≡ find_inode t.open_inodes k

find-here : (i : Inode) (l : List Inode) → find_inode (i ∷ l) i.sector ≡ some i
unfolding find_inode
find-here i l = rw (==_refl i.sector)

find-there :
    (i : Inode) (l : List Inode) (k : ℕ) → k ≢ i.sector → find_inode (i ∷ l) k ≡ find_inode l k
unfolding find_inode
find-there i l k ne = if-false _ _ _ (==_ne (λ e. ne (sym e)))

-- In a valid table, `inode_open` of an inode's sector does not panic. One more reference is had if the
-- inode is open; otherwise it is read from its sector if memory is had, and the answer is NULL if
-- not. The table stays valid, and the other inodes stay as they are.
pub inode_open_lem :
    (t : InodeTable) (n : ℕ) (owner : ℕ → Option ℕ) (allocated : Bool) (s : ℕ)
    → Owned t n owner
    → s < n
    → owner s ≡ some s
    → (ok : Bool) × (t' : InodeTable) × (inode_open t allocated s ≡ some (ok, t'))
      × Opened t t' n owner allocated s ok
unfolding inode_open open_with inode_reopen
inode_open_lem t n owner allocated s o inside own =
    go allocated (Option-cases (find_inode t.open_inodes s))
  where
    go :
        (allocated : Bool)
        → (find_inode t.open_inodes s ≡ none)
          ⊎ ((i : Inode) × (find_inode t.open_inodes s ≡ some i))
        → (ok : Bool) × (t' : InodeTable) × (inode_open t allocated s ≡ some (ok, t'))
          × Opened t t' n owner allocated s ok
    go false (inl h) = (
      false,
      t,
      rw h,
      record {
        keeps = o;
        same_sectors = refl;
        same_foreign = refl;
        this = h ∙ rw h;
        answer = rw h;
        others = λ k ne. refl;
      },
    )
    go true (inl h) =
        let fresh = new_inode s (t.device.sectors s) in
        let t' = record t {
          device = record t.device { read_cnt = t.device.read_cnt + 1 };
          open_inodes = fresh ∷ t.open_inodes;
        } in
        (
          true,
          t',
          rw (h, block_read-some t.device s (omega (arith, o.size))),
          record {
            keeps = record {
              is_open = o.is_open;
              size = o.size;
              bits = o.bits;
              on_disk = o.on_disk;
              opened = λ k j hj. elim (ℕ_discrete k s) [
                | yes e ↦
                    subst (IsOpen owner n t.device.sectors)
                      (some_injective (
                        sym (find-here fresh t.open_inodes)
                        ∙ ap (find_inode (fresh ∷ t.open_inodes)) (sym e)
                        ∙ hj))
                      (record {
                        counted = omega arith;
                        inside = inside;
                        owned = own;
                        start_eq = refl;
                        length_eq = refl;
                      })
                | no ne ↦ o.opened k j (sym (find-there fresh t.open_inodes k ne) ∙ hj)
              ];
              distinct = (h, o.distinct);
            };
            same_sectors = refl;
            same_foreign = refl;
            this = find-here fresh t.open_inodes ∙ rw h;
            answer = rw (find-here fresh t.open_inodes);
            others = λ k ne. find-there fresh t.open_inodes k ne;
          },
        )
    go a (inr (i, h)) =
        let r = record i { open_cnt = i.open_cnt + 1 } in
        let e = find-sector s t.open_inodes i h in
        let y = o.opened s i h in
        let here = find-put_self s t.open_inodes i r h e in
        (
          true,
          record t { open_inodes = put_inode t.open_inodes r },
          rw h (rw h),
          record {
            keeps = put_inode-Owned t n owner s i r o h e (record {
              counted = omega arith;
              inside = y.inside;
              owned = y.owned;
              start_eq = y.start_eq;
              length_eq = y.length_eq;
            });
            same_sectors = refl;
            same_foreign = refl;
            this = here ∙ rw h;
            answer = rw here;
            others = λ k ne. find-put_ne k t.open_inodes r (λ q. ne (sym q ∙ e));
          },
        )
