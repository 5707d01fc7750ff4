-- ===== src/Directory/Add.antt =====
-- `dir_add` of src/filesys/directory.c: the name is bound, and the others stay.
use operating_system.Common.{
  ℕ, suc, ◌+◌, ◌≤◌, ◌<◌, ◌≡◌, refl, ◌∙◌, sym, ap, ap₂, inl, inr, ◌⊎◌, Bool, true, false, not, ◌&&◌,
  ◌||◌, Option, none, some, List, [], ◌∷◌, ◌==◌, ltb, arith, if◌then◌else◌, length, set, Bool-cases,
  if-true, if-false, ltb→lt, subst, All, le→ltb,
}
use operating_system.Directory.{
  Buffers, DirEntry, name_max, same_name, lookup_from, lookup, sector_of, free_slot, dir_add,
  add_new,
}
use operating_system.Directory.Names.{
  same_name_refl, same_name→eq, strlcpy-short, binds, matches, UniqueNames, choose, binds-cons,
  fresh_entry, unbound_cons, take-enough, both_true,
}

module _ (x : DirEntry) (es : List DirEntry) (r : DirEntry) where
  set_here : x.in_use ≡ false → set (x ∷ es) (free_slot (x ∷ es)) r ≡ r ∷ es
  unfolding free_slot
  set_here f = ap (λ k. set (x ∷ es) k r) (if-true (not x.in_use) 0 _ (ap not f))

  set_later : x.in_use ≡ true → set (x ∷ es) (free_slot (x ∷ es)) r ≡ x ∷ set es (free_slot es) r
  unfolding free_slot
  set_later t =
      ap (λ k. set (x ∷ es) k r) (if-false (not x.in_use) 0 (free_slot es + 1) (ap not t) ∙ succ)
    where
      succ : free_slot es + 1 ≡ suc (free_slot es)
      succ = omega arith

  slot_later : x.in_use ≡ true → free_slot (x ∷ es) < length (x ∷ es) → free_slot es < length es
  unfolding free_slot
  slot_later t h =
      let e : free_slot (x ∷ es) ≡ free_slot es + 1 =
        if-false (not x.in_use) 0 (free_slot es + 1) (ap not t) in
      omega (arith, e, h)

pub binds-add :
    (es : List DirEntry) (name other : List ℕ) (s : ℕ)
    → free_slot es < length es
    → binds es name ≡ none
    → binds (set es (free_slot es) (fresh_entry name s)) other
      ≡ choose (same_name other name) (some s) (binds es other)
binds-add [] name other s h e = absurd (omega arith)
binds-add (x ∷ es) name other s h e =
    go (λ p q. binds-add es name other s p q) (Bool-cases x.in_use)
      (Bool-cases (same_name other name))
  where
    r : DirEntry
    r = fresh_entry name s

    skip : x.in_use ≡ false → binds (x ∷ es) other ≡ binds es other
    skip f =
        binds-cons x es other
        ∙ if-false (matches x other) _ _ (ap (λ b. b && same_name other x.name) f)

    not_x : same_name other name ≡ true → matches x other ≡ false
    not_x same =
        subst (λ n. matches x n ≡ false) (sym (same_name→eq other name same))
          (unbound_cons x es name e).0

    go :
        (free_slot es < length es
          → binds es name ≡ none
          → binds (set es (free_slot es) r) other
            ≡ choose (same_name other name) (some s) (binds es other))
        → (x.in_use ≡ true) ⊎ (x.in_use ≡ false)
        → (same_name other name ≡ true) ⊎ (same_name other name ≡ false)
        → binds (set (x ∷ es) (free_slot (x ∷ es)) r) other
          ≡ choose (same_name other name) (some s) (binds (x ∷ es) other)
    go rec (inr f) c =
        ap (λ l. binds l other) (set_here x es r f)
        ∙ binds-cons r es other
        ∙ ap (λ y. choose (same_name other name) (some s) y) (sym (skip f))
    go rec (inl t) c =
        ap (λ l. binds l other) (set_later x es r t)
        ∙ binds-cons x (set es (free_slot es) r) other
        ∙ ap (λ y. choose (matches x other) (some x.inode_sector) y)
            (rec (slot_later x es r t h) (unbound_cons x es name e).1)
        ∙ swap c
      where
        swap :
            (same_name other name ≡ true) ⊎ (same_name other name ≡ false)
            → choose
                (matches x other)
                (some x.inode_sector)
                (choose (same_name other name) (some s) (binds es other))
              ≡ choose (same_name other name) (some s) (binds (x ∷ es) other)
        swap (inl same) = rw (same, not_x same)
        swap (inr ne) = rw ne (sym (binds-cons x es other))

-- An entry that is in use binds its name.
binds_self :
    (x : DirEntry) (es : List DirEntry)
    → x.in_use ≡ true
    → binds (x ∷ es) x.name ≡ some x.inode_sector
binds_self x es t =
    binds-cons x es x.name ∙ if-true (matches x x.name) _ _ (ap₂ ◌&&◌ t (same_name_refl x.name))

pub add-UniqueNames :
    (es : List DirEntry) (name : List ℕ) (s : ℕ)
    → UniqueNames es
    → free_slot es < length es
    → binds es name ≡ none
    → UniqueNames (set es (free_slot es) (fresh_entry name s))
add-UniqueNames [] name s u h e = absurd (omega arith)
add-UniqueNames (x ∷ es) name s u h e = elim (Bool-cases x.in_use) [
  | inr f ↦ subst UniqueNames (sym (set_here x es r f)) (inr (unbound_cons x es name e).1, u.1)
  | inl t ↦
      let later = slot_later x es r t h in
      let (no_match, rest) = unbound_cons x es name e in
      let differs : same_name x.name name ≡ false = elim (Bool-cases (same_name x.name name)) [
        | inr d ↦ d
        | inl same ↦
            let p = same_name→eq x.name name same in
            let yes' : matches x name ≡ true =
              ap₂ ◌&&◌ t (ap (λ l. same_name name l) p ∙ same_name_refl name) in
            let bad : true ≡ false = sym yes' ∙ no_match in cc
      ] in
      let free : binds es x.name ≡ none = elim u.0 [
        | inl f ↦ let bad : true ≡ false = sym t ∙ f in cc
        | inr b ↦ b
      ] in
      subst UniqueNames (sym (set_later x es r t)) (
        inr (binds-add es name x.name s later rest ∙ if-false _ _ _ differs ∙ free),
        add-UniqueNames es name s u.1 later rest,
      )
]
  where
    r : DirEntry
    r = fresh_entry name s

no_slot :
    (es : List DirEntry) → ltb (free_slot es) (length es) ≡ false → All (λ e. e.in_use ≡ true) es
unfolding free_slot
no_slot [] h = tt
no_slot (x ∷ es) h = elim (Bool-cases x.in_use) [
  | inr f ↦
      let e : free_slot (x ∷ es) ≡ 0 = if-true (not x.in_use) 0 _ (ap not f) in
      absurd (omega (arith, ltb_false (free_slot (x ∷ es)) (length (x ∷ es)) h, e))
  | inl t ↦
      let e : free_slot (x ∷ es) ≡ free_slot es + 1 =
        if-false (not x.in_use) 0 (free_slot es + 1) (ap not t) in
      let n = ltb_false (free_slot (x ∷ es)) (length (x ∷ es)) h in
      (t, no_slot es (le→ltb _ _ (omega (arith, n, e))))
]
  where
    ltb_false : (a b : ℕ) → ltb a b ≡ false → b ≤ a
    ltb_false a b h = ground arith

either_false : (a b : Bool) → (a && b) ≡ false → (a ≡ false) ⊎ (b ≡ false)
either_false true b h = inr h
either_false false b h = inl refl

-- Why a name cannot be added: it is empty, too long or bound, every slot is in use, or the write has
-- no bounce buffer.
abbrev pub IsRefused : (written : Bool) → List DirEntry → List ℕ → Type 0
IsRefused written es name =
    (length name ≡ 0)
    ⊎ ((name_max < length name)
        ⊎ (((a : ℕ) × (binds es name ≡ some a))
            ⊎ (All (λ e. e.in_use ≡ true) es ⊎ (written ≡ false))))

-- What `dir_add` of a name for sector `s` has done where it answers `ok`: given the name its sector and
-- changed no other name, or nothing, for one of these reasons.
abbrev pub IsAdded : (ok written : Bool) → (es es' : List DirEntry) → List ℕ → ℕ → Type 0
IsAdded true written es es' name s =
    (binds es name ≡ none)
    × (0 < length name)
    × (length name ≤ name_max)
    × ((other : List ℕ)
        → binds es' other ≡ (if same_name other name then some s else binds es other))
    × UniqueNames es'
IsAdded false written es es' name s = (es' ≡ es) × IsRefused written es name

-- In a directory in which no two entries have one name, and if each read of an entry gets a bounce
-- buffer, `dir_add` answers true only with the name, which was not bound and has 1 to NAME_MAX
-- bytes, bound to the sector, and every other name as it was; and false only with no change,
-- because the name is empty or longer than NAME_MAX, it is bound, no slot is free, or the write got
-- no bounce buffer. After a true answer no two entries have one name.
pub dir_add_lem :
    (b : Buffers) (es : List DirEntry) (name : List ℕ) (s : ℕ)
    → UniqueNames es
    → length es ≤ b.lookup_reads
    → length es ≤ b.slot_reads
    → IsAdded (dir_add b es name s).0 b.written es (dir_add b es name s).1 name s
unfolding dir_add add_new lookup
dir_add_lem b es name s u some_reads more_reads =
    elim (Bool-cases ((length name == 0) || ltb name_max (length name))) [
      | inl bad ↦ rw bad (refl, name_bad (Bool-cases (length name == 0)) bad)
      | inr good ↦
          rw (good, take-enough b.lookup_reads es some_reads)
            (go good (lookup_from es 0 name) refl
              (Bool-cases (b.written && ltb (free_slot es) (length es))))
    ]
  where
    name_bad :
        ((length name == 0) ≡ true) ⊎ ((length name == 0) ≡ false)
        → ((length name == 0) || ltb name_max (length name)) ≡ true
        → (length name ≡ 0)
          ⊎ ((name_max < length name)
              ⊎ (((a : ℕ) × (binds es name ≡ some a))
                  ⊎ (All (λ e. e.in_use ≡ true) es ⊎ (b.written ≡ false))))
    name_bad (inl p) bad = inl (ground arith)
    name_bad (inr p) bad = inr (inl (ltb→lt name_max (length name) (rw p at bad)))

    fits :
        ((length name == 0) || ltb name_max (length name)) ≡ false
        → (0 < length name) × (length name ≤ name_max)
    fits good = (ground arith, ground arith)

    go :
        ((length name == 0) || ltb name_max (length name)) ≡ false
        → (r : Option (DirEntry × ℕ)) → lookup_from es 0 name ≡ r
        → ((b.written && ltb (free_slot es) (length es)) ≡ true)
          ⊎ ((b.written && ltb (free_slot es) (length es)) ≡ false)
        → IsAdded (add_new r b es name s).0 b.written es (add_new r b es name s).1 name s
    go good (some (x, ofs)) e c = (refl, inr (inr (inl (x.inode_sector, ap sector_of e))))
    go good none e (inr full) =
        rw (take-enough b.slot_reads es more_reads, full)
          (
            refl,
            inr (
                inr (
                  inr (elim (either_false b.written (ltb (free_slot es) (length es)) full) [
                    | inl not_written ↦ inr not_written
                    | inr no_room ↦ inl (no_slot es no_room)
                  ]))),
          )
    go good none e (inl room) =
        let unbound : binds es name ≡ none = ap sector_of e in
        let h =
          ltb→lt (free_slot es) (length es)
            (both_true b.written (ltb (free_slot es) (length es)) room).1 in
        rw
          (
            take-enough b.slot_reads es more_reads,
            room,
            strlcpy-short name 15 (omega (arith, (fits good).1)),
          )
          (
            unbound,
            (fits good).0,
            (fits good).1,
            (λ other. binds-add es name other s h unbound),
            add-UniqueNames es name s u h unbound,
          )
