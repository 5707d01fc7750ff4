-- ===== src/FileSys/Sectors.antt =====
-- The steps of `filesys_create` of src/filesys/filesys.c on the table of inodes: a sector is reserved
-- for the inode, and given back if the file could not be created; the root directory is open meanwhile.
use operating_system.Common.{
  ℕ, ◌+◌, ◌^◌, ◌-◌, ◌<◌, ◌≡◌, ◌≢◌, refl, ◌∙◌, sym, ap, subst, inl, inr, ◌⊎◌, Bool, true, false,
  ◌&&◌, Option, none, some, arith, if◌then◌else◌, ◌==◌, ==_eq, ==_ne, if-true, if-false, Bool-cases,
  some_injective, ◌>>=◌, none≢some, true≢false,
}
use native.Mathlib.Decide.{ℕ_discrete}
use operating_system.Inode.{Inode}
use operating_system.Bitmap.Refine.{Models, fill_range}
use operating_system.Block.{Block}
use operating_system.FreeMap.{FreeMap, root_dir_sector}
use operating_system.FreeMap.Allocate.{free_map_release_lem, Models-cong}
use operating_system.InodeTable.{InodeTable, find_inode, inode_open, inode_close, new_inode}
use operating_system.InodeTable.Owners.{Extent, taken, IsStore, Stored-Owned, Owned, find-sector}
use operating_system.InodeTable.Close.{inode_close_lem, inode_after}
use operating_system.InodeTable.Open.{inode_open_lem, inode_opened, is_found}
use operating_system.FileSys.{dir_open, dir_open_root, give_back, Outcomes}

abbrev pub reserve : (ℕ → Option ℕ) → ℕ → Option ℕ → ℕ → Option ℕ
reserve owner s o j = if j == s then o else owner j

-- Only the owner of sector `s` changes, from free or reserved or the inode itself to free or reserved.
pub change-Owned :
    (t : InodeTable) (n : ℕ) (owner : ℕ → Option ℕ) (s : ℕ) (o : Option ℕ) (f : FreeMap)
    → Owned t n owner
    → s < n
    → (owner s ≡ none) ⊎ ((owner s ≡ some n) ⊎ (owner s ≡ some s))
    → (o ≡ none) ⊎ (o ≡ some n)
    → find_inode t.open_inodes s ≡ none
    → f.is_open ≡ true
    → Models f.map n (λ j. taken (reserve owner s o j))
    → Owned (record t { free_map = f }) n (reserve owner s o)
change-Owned t n owner s o f w inside was now closed op m = record {
  is_open = op;
  size = w.size;
  bits = m;
  on_disk = λ k p e. let (ne, old) = was_own k p e in keep_extent k _ _ p ne (w.on_disk k p old);
  opened = λ k i h.
      let y = w.opened k i h in
      record {
        counted = y.counted;
        inside = y.inside;
        owned = if-false _ _ _ (==_ne (not_s k i h)) ∙ y.owned;
        start_eq = y.start_eq;
        length_eq = y.length_eq;
      };
  distinct = w.distinct;
}
  where
    not_s : (k : ℕ) (i : Inode) → find_inode t.open_inodes k ≡ some i → i.sector ≢ s
    not_s k i h e =
        none≢some
          (sym closed ∙ ap (find_inode t.open_inodes) (sym e ∙ find-sector k t.open_inodes i h) ∙ h)

    was_own : (k : ℕ) → k < n → reserve owner s o k ≡ some k → (k ≢ s) × (owner k ≡ some k)
    was_own k p e = elim (ℕ_discrete k s) [
      | no ne ↦ (ne, sym (if-false _ _ _ (==_ne ne)) ∙ e)
      | yes q ↦
          let here : o ≡ some k = sym (if-true (k == s) _ _ (==_eq q)) ∙ e in
          absurd (elim now [
            | inl z ↦ none≢some (sym z ∙ here)
            | inr z ↦ let k_eq : n ≡ k = some_injective (sym z ∙ here) in omega (arith, k_eq, p)
          ])
    ]

    keep_extent :
        (k from len : ℕ)
        → k < n
        → k ≢ s
        → Extent owner n k from len
        → Extent (reserve owner s o) n k from len
    keep_extent k from len p ne x = record {
      inside = x.inside;
      owned = λ j a b.
          if-false _ _ _ (==_ne (λ q. clash (sym (ap owner q) ∙ x.owned j a b))) ∙ x.owned j a b;
      apart = x.apart;
    }
      where
        clash : owner s ≡ some k → ⊥
        clash e = elim was [
          | inl z ↦ none≢some (sym z ∙ e)
          | inr z ↦ elim z [
            | inl z ↦ let q : n ≡ k = some_injective (sym z ∙ e) in omega (arith, q, p)
            | inr z ↦ ne (sym (some_injective (sym z ∙ e)))
          ]
        ]

pub fill_one :
    (owner : ℕ → Option ℕ) (s : ℕ) (o : Option ℕ) (j : ℕ)
    → fill_range (λ k. taken (owner k)) s 1 (taken o) j ≡ taken (reserve owner s o j)
fill_one owner s o j = ground arith

-- `filesys_create` gives back a sector that it could not use.
pub give_back-Owned :
    (t : InodeTable) (n : ℕ) (owner : ℕ → Option ℕ) (store_map : FreeMap → Block → Block) (s : ℕ)
    → Owned t n owner
    → IsStore owner store_map
    → s < n
    → s ≢ 0
    → (owner s ≡ some n) ⊎ (owner s ≡ some s)
    → find_inode t.open_inodes s ≡ none
    → (t' : InodeTable) × (give_back false t store_map s ≡ some t')
      × Owned t' n (reserve owner s none)
      × (t'.open_inodes ≡ t.open_inodes)
unfolding give_back
give_back-Owned t n owner store_map s w keeps inside ne was closed =
    let (f, e, op, m) =
      free_map_release_lem t.free_map n (λ j. taken (owner j)) 1 s w.bits w.is_open (omega arith)
        (λ j p q. let same : j ≡ s = omega arith in rw same (used was)) in
    (
      record t { free_map = f; device = store_map f t.device },
      if-false (s == 0) _ _ (==_ne ne) ∙ rw e,
      change-Owned (record t { device = store_map f t.device }) n owner s none f
          (Stored-Owned t n owner (store_map f t.device) (keeps f t.device) w) inside (inr was)
          (inl refl) closed op (Models-cong m (fill_one owner s none)),
      refl,
    )
  where
    used : (owner s ≡ some n) ⊎ (owner s ≡ some s) → taken (owner s) ≡ true
    used (inl e) = ap taken e
    used (inr e) = ap taken e

-- Whether an inode is to be freed with its last reference.
abbrev pub removed_of : Option Inode → Bool
removed_of none = false
removed_of (some i) = i.removed

-- The inode of sector `s` is open and not removed if `ok`, and otherwise not removed if it is open.
abbrev pub IsHeld : Bool → InodeTable → ℕ → Type 0
IsHeld true t s = (i : Inode) × (find_inode t.open_inodes s ≡ some i) × (i.removed ≡ false)
IsHeld false t s = removed_of (find_inode t.open_inodes s) ≡ false

-- From `t` to `t'` only the references to sector `s` change, which is held if `ok`.
pub record Holds (t t' : InodeTable) (n : ℕ) (owner : ℕ → Option ℕ) (s : ℕ) (ok : Bool)
    : Type 0 where
  pub keeps : Owned t' n owner
  pub held : IsHeld ok t' s
  pub others : (k : ℕ) → k ≢ s → find_inode t'.open_inodes k ≡ find_inode t.open_inodes k
  pub foreign : t'.device.foreign ≡ t.device.foreign

IsHeld-removed :
    (ok : Bool) (t : InodeTable) (s : ℕ)
    → IsHeld ok t s
    → removed_of (find_inode t.open_inodes s) ≡ false
IsHeld-removed true t s (i, e, r) = ap removed_of e ∙ r
IsHeld-removed false t s h = h

-- Closing a reference to an inode that was not removed frees nothing.
pub close_kept :
    (t : InodeTable) (n : ℕ) (owner : ℕ → Option ℕ) (store_map : FreeMap → Block → Block) (s : ℕ)
    → Owned t n owner
    → IsStore owner store_map
    → n < 2 ^ 22 - 1
    → IsHeld true t s
    → (t' : InodeTable) × (inode_close t store_map s ≡ some t') × Holds t t' n owner s false
close_kept t n owner store_map s o keeps small (i, h, kept) =
    let e = find-sector s t.open_inodes i h in
    let (t', e', fits, c) =
      inode_close_lem t n owner store_map i o keeps small (ap (find_inode t.open_inodes) e ∙ h) in
    (
      t',
      subst (λ k. inode_close t store_map k ≡ some t') e e',
      record {
        keeps =
            subst (Owned t' n)
              (if-false ((i.open_cnt == 1) && i.removed) _ _ (no_free kept (i.open_cnt == 1)))
              c.keeps;
        held =
            ap removed_of (subst (λ k. find_inode t'.open_inodes k ≡ inode_after i) e c.this)
            ∙ after_kept kept (Bool-cases (i.open_cnt == 1));
        others = λ k ne. c.others k (λ q. ne (q ∙ e));
        foreign = c.stored.foreign;
      },
    )
  where
    no_free : {r : Bool} → r ≡ false → (b : Bool) → (b && r) ≡ false
    no_free h true = h
    no_free h false = refl

    after_kept :
        i.removed ≡ false
        → ((i.open_cnt == 1) ≡ true) ⊎ ((i.open_cnt == 1) ≡ false)
        → removed_of (inode_after i) ≡ false
    after_kept r (inl p) = rw p
    after_kept r (inr p) = ap removed_of (if-false (i.open_cnt == 1) none _ p) ∙ r

-- `inode_open` of an inode that is not removed.
pub open_kept :
    (t : InodeTable) (n : ℕ) (owner : ℕ → Option ℕ) (memory : Bool) (s : ℕ)
    → Owned t n owner
    → s < n
    → owner s ≡ some s
    → removed_of (find_inode t.open_inodes s) ≡ false
    → (ok : Bool) × (t' : InodeTable) × (inode_open t memory s ≡ some (ok, t'))
      × Holds t t' n owner s ok
      × ((ok ≡ true) ⊎ (memory ≡ false))
open_kept t n owner memory s o inside own kept =
    let (ok, t', e, r) = inode_open_lem t n owner memory s o inside own in
    (
      ok,
      t',
      e,
      record {
        keeps = r.keeps;
        held = go ok t' (find_inode t.open_inodes s) memory kept r.this r.answer;
        others = r.others;
        foreign = r.same_foreign;
      },
      got ok t' (find_inode t.open_inodes s) memory r.this r.answer,
    )
  where
    got :
        (ok : Bool) (t' : InodeTable) (was : Option Inode) (memory : Bool)
        → find_inode t'.open_inodes s ≡ inode_opened was memory (new_inode s (t.device.sectors s))
        → ok ≡ is_found (find_inode t'.open_inodes s)
        → (ok ≡ true) ⊎ (memory ≡ false)
    got ok t' (some i) m e a = inl (a ∙ ap is_found e)
    got ok t' none true e a = inl (a ∙ ap is_found e)
    got ok t' none false e a = inr refl

    go :
        (ok : Bool) (t' : InodeTable) (was : Option Inode) (memory : Bool)
        → removed_of was ≡ false
        → find_inode t'.open_inodes s ≡ inode_opened was memory (new_inode s (t.device.sectors s))
        → ok ≡ is_found (find_inode t'.open_inodes s)
        → IsHeld ok t' s
    go ok t' (some i) m k e a =
        subst (λ b. IsHeld b t' s) (sym (a ∙ ap is_found e))
          (record i { open_cnt = i.open_cnt + 1 }, e, k)
    go ok t' none true k e a =
        subst (λ b. IsHeld b t' s) (sym (a ∙ ap is_found e))
          (new_inode s (t.device.sectors s), e, refl)
    go ok t' none false k e a =
        subst (λ b. IsHeld b t' s) (sym (a ∙ ap is_found e)) (ap removed_of e)

-- `dir_open_root` takes a reference to the root directory, or leaves things as they are.
pub dir_open_root_lem :
    (t : InodeTable) (n : ℕ) (owner : ℕ → Option ℕ) (o : Outcomes)
    → Owned t n owner
    → IsStore owner o.store_map
    → n < 2 ^ 22 - 1
    → root_dir_sector < n
    → owner root_dir_sector ≡ some root_dir_sector
    → removed_of (find_inode t.open_inodes root_dir_sector) ≡ false
    → (ok : Bool) × (t' : InodeTable) × (dir_open_root t o ≡ some (ok, t'))
      × Holds t t' n owner root_dir_sector ok
      × ((ok ≡ true) ⊎ ((o.root_inode && o.dir) ≡ false))
unfolding dir_open_root dir_open
dir_open_root_lem t n owner o w stores small inside own kept =
    let (ok, t', e, h, why) = open_kept t n owner o.root_inode root_dir_sector w inside own kept in
    go ok o.dir t' e h why
  where
    no_dir : (b : Bool) → (b && false) ≡ false
    no_dir true = refl
    no_dir false = refl

    go :
        (ok memory : Bool) (t' : InodeTable)
        → inode_open t o.root_inode root_dir_sector ≡ some (ok, t')
        → Holds t t' n owner root_dir_sector ok
        → (ok ≡ true) ⊎ (o.root_inode ≡ false)
        → (ok' : Bool) × (t'' : InodeTable) × ◌≡◌ {A = Option (Bool × InodeTable)}
            (inode_open t o.root_inode root_dir_sector >>= λ r.
              dir_open memory o.store_map r root_dir_sector)
            (some (ok', t''))
          × Holds t t'' n owner root_dir_sector ok'
          × ((ok' ≡ true) ⊎ ((o.root_inode && memory) ≡ false))
    go false memory t' e h (inl yes') = absurd (true≢false (sym yes'))
    go false memory t' e h (inr none') = (false, t', rw e, h, inr (ap (λ b. b && memory) none'))
    go true true t' e h why = (true, t', rw e, h, inl refl)
    go true false t' e h why =
        let (t'', e', h') =
          close_kept t' n owner o.store_map root_dir_sector h.keeps stores small h.held in
        (
          false,
          t'',
          rw (e, e'),
          record {
            keeps = h'.keeps;
            held = h'.held;
            others = λ k ne. h'.others k ne ∙ h.others k ne;
            foreign = h'.foreign ∙ h.foreign;
          },
          inr (no_dir o.root_inode),
        )
