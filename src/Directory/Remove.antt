-- ===== src/Directory/Remove.antt =====
-- `dir_remove` of src/filesys/directory.c: the name is gone, and the others stay.
use operating_system.Common.{
  ℕ, suc, ◌+◌, ◌<◌, ◌≤◌, ◌≡◌, ◌≢◌, refl, ◌∙◌, sym, ap, ap₂, inl, inr, ◌⊎◌, Bool, true, false, ◌&&◌,
  Option, none, some, List, [], ◌∷◌, arith, if◌then◌else◌, length, set, Bool-cases, some_injective,
  if-true, if-false, subst, lt→ltb,
}
use operating_system.Directory.{
  Buffers, DirEntry, same_name, lookup_from, lookup, sector_of, dir_remove, remove_found,
}
use operating_system.Directory.Names.{
  same_name→eq, binds, matches, UniqueNames, choose, binds-cons, both_true, take-enough,
}

-- Where the lookup finds a name, from the offset `k` on.
pub record Found (es : List DirEntry) (k : ℕ) (name : List ℕ) (e : DirEntry) (ofs : ℕ)
    : Type 0 where
  place : ℕ
  offset : ofs ≡ k + place
  inside : place < length es
  binding : binds es name ≡ some e.inode_sector
  after_removal :
      UniqueNames es
      → (other : List ℕ)
      → binds (set es place (record e { in_use = false })) other
        ≡ choose (same_name other name) none (binds es other)
  unique_removed : UniqueNames es → UniqueNames (set es place (record e { in_use = false }))

abbrev pub cleared : DirEntry → DirEntry
cleared e = record e { in_use = false }

module _ (x : DirEntry) (es : List DirEntry) (k : ℕ) (name : List ℕ) where
  here-Found : matches x name ≡ true → Found (x ∷ es) k name x k
  here-Found t = record {
    place = 0;
    offset = omega arith;
    inside = omega arith;
    binding = binds-cons x es name ∙ if-true (matches x name) _ _ t;
    after_removal = λ u other.
        binds-cons (cleared x) es other ∙ gone u other (Bool-cases (same_name other name));
    unique_removed = λ u. (inl refl, u.1);
  }
    where
      used : x.in_use ≡ true
      used = (both_true x.in_use (same_name name x.name) t).0

      same : name ≡ x.name
      same = same_name→eq name x.name (both_true x.in_use (same_name name x.name) t).1

      unbound : UniqueNames (x ∷ es) → binds es x.name ≡ none
      unbound u = elim u.0 [ inl f ↦ let bad : true ≡ false = sym used ∙ f in cc | inr b ↦ b ]

      gone :
          UniqueNames (x ∷ es)
          → (other : List ℕ) → (same_name other name ≡ true) ⊎ (same_name other name ≡ false)
          → binds es other ≡ choose (same_name other name) none (binds (x ∷ es) other)
      gone u other (inl p) =
          rw p (ap (λ n. binds es n) (same_name→eq other name p ∙ same) ∙ unbound u)
      gone u other (inr p) =
          let no_match : matches x other ≡ false =
            ap₂ ◌&&◌ used (ap (same_name other) (sym same) ∙ p) in
          rw p (sym (binds-cons x es other ∙ if-false _ _ _ no_match))

  later-Found :
      (e : DirEntry) (ofs : ℕ)
      → matches x name ≡ false
      → Found es (k + 1) name e ofs
      → Found (x ∷ es) k name e ofs
  later-Found e ofs f r = record {
    place = suc r.place;
    offset = omega (arith, r.offset);
    inside = omega (arith, r.inside);
    binding = binds-cons x es name ∙ if-false _ _ _ f ∙ r.binding;
    after_removal = λ u other.
        binds-cons x (set es r.place (cleared e)) other
        ∙ ap (λ y. choose (matches x other) (some x.inode_sector) y) (r.after_removal u.1 other)
        ∙ swap other (Bool-cases (same_name other name));
    unique_removed = λ u. (still u, r.unique_removed u.1);
  }
    where
      swap :
          (other : List ℕ)
          → (same_name other name ≡ true) ⊎ (same_name other name ≡ false)
          → choose
              (matches x other)
              (some x.inode_sector)
              (choose (same_name other name) none (binds es other))
            ≡ choose (same_name other name) none (binds (x ∷ es) other)
      swap other (inl p) =
          let no_match : matches x other ≡ false =
            subst (λ n. matches x n ≡ false) (sym (same_name→eq other name p)) f in
          rw (p, no_match)
      swap other (inr p) = rw p (sym (binds-cons x es other))

      none_stays : (b : Bool) (y : Option ℕ) → y ≡ none → choose b none y ≡ none
      none_stays true y h = refl
      none_stays false y h = h

      still :
          UniqueNames (x ∷ es)
          → (x.in_use ≡ false) ⊎ (binds (set es r.place (cleared e)) x.name ≡ none)
      still u = elim u.0 [
        | inl q ↦ inl q
        | inr b ↦ inr (r.after_removal u.1 x.name ∙ none_stays (same_name x.name name) _ b)
      ]

lookup-Found :
    (es : List DirEntry) (k : ℕ) (name : List ℕ) (e : DirEntry) (ofs : ℕ)
    → lookup_from es k name ≡ some (e, ofs)
    → Found es k name e ofs
unfolding lookup_from
lookup-Found [] k name e ofs h = cc
lookup-Found (x ∷ es) k name e ofs h = elim (Bool-cases (matches x name)) [
  | inl t ↦
      let both : ◌≡◌ {A = DirEntry × ℕ} (x, k) (e, ofs) =
        some_injective (sym (if-true (matches x name) _ _ t) ∙ h) in
      subst (λ r. Found (x ∷ es) k name r.0 r.1) both (here-Found x es k name t)
  | inr f ↦
      later-Found x es k name e ofs f
        (lookup-Found es (k + 1) name e ofs (sym (if-false (matches x name) _ _ f) ∙ h))
]

-- What `dir_remove` of a name has done where it answers `ok`: unbound the name, whose sector `gone` it
-- hands to `inode_remove`, or nothing, because the name was not bound, its inode could not be opened, or the entry could not be written.
abbrev pub IsRemoved :
    (ok written : Bool) → (es es' : List DirEntry) → List ℕ → (ℕ → Bool) → Option ℕ → Type 0
IsRemoved true written es es' name opened gone =
    (gone ≢ none)
    × (binds es name ≡ gone)
    × ((other : List ℕ) → binds es' other ≡ (if same_name other name then none else binds es other))
    × UniqueNames es'
IsRemoved false written es es' name opened gone =
    (gone ≡ none)
    × (es' ≡ es)
    × ((binds es name ≡ none)
        ⊎ ((s : ℕ) × (binds es name ≡ some s) × ((opened s ≡ false) ⊎ (written ≡ false))))

-- In a directory in which no two entries have one name, and if each read of an entry gets a bounce
-- buffer, `dir_remove` answers true only with the name, which was bound, no longer so, every other
-- name as it was, and the inode of its sector handed over for removal; and false only with no
-- change, because the name is not bound, its inode cannot be opened, or the write got no bounce
-- buffer. After a true answer no two entries have one name.
pub dir_remove_lem :
    (b : Buffers) (es : List DirEntry) (name : List ℕ) (opened : ℕ → Bool)
    → UniqueNames es
    → length es ≤ b.lookup_reads
    → IsRemoved
        (dir_remove b es name opened).0
        b.written
        es
        (dir_remove b es name opened).1
        name
        opened
        (dir_remove b es name opened).2
unfolding dir_remove remove_found lookup
dir_remove_lem b es name opened u reads =
    rw (take-enough b.lookup_reads es reads) (go (lookup_from es 0 name) refl)
  where
    go :
        (r : Option (DirEntry × ℕ))
        → lookup_from es 0 name ≡ r
        → IsRemoved
            (remove_found r b.written es opened).0
            b.written
            es
            (remove_found r b.written es opened).1
            name
            opened
            (remove_found r b.written es opened).2
    go none e = (refl, refl, inl (ap sector_of e))
    go (some (x, ofs)) e = elim (Bool-cases (opened x.inode_sector)) [
      | inr shut ↦ rw shut (refl, refl, inr (x.inode_sector, ap sector_of e, inl shut))
      | inl can ↦
          let f = lookup-Found es 0 name x ofs e in
          let at : ofs ≡ f.place = f.offset ∙ omega arith in
          elim (Bool-cases b.written) [
            | inl w ↦
                rw (can, at, w, lt→ltb f.place (length es) f.inside)
                  ((λ q. cc), f.binding, f.after_removal u, f.unique_removed u)
            | inr w ↦ rw (can, w) (refl, refl, inr (x.inode_sector, ap sector_of e, inr refl))
          ]
    ]
