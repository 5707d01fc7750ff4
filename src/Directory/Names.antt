-- ===== src/Directory/Names.antt =====
-- `lookup` of src/filesys/directory.c: a directory as a map from names to sectors.
use operating_system.Common.{
  ℕ, zero, suc, take, ◌≤◌, ◌+◌, ◌<◌, ◌≡◌, refl, ◌∙◌, sym, ap, ap₂, inl, inr, ◌⊎◌, Bool, true, false,
  ◌&&◌, Option, none, some, List, [], ◌∷◌, ◌==◌, ltb, arith, if◌then◌else◌, length, Bool-cases,
  if-true, ==_refl,
}
use operating_system.Process.Arguments.{strlcpy}
use operating_system.Directory.{DirEntry, same_name, lookup_from, sector_of}

pub same_name_refl : (a : List ℕ) → same_name a a ≡ true
unfolding same_name
same_name_refl [] = refl
same_name_refl (x ∷ a) = rw (==_refl x, same_name_refl a)

pub same_name→eq : (a b : List ℕ) → same_name a b ≡ true → a ≡ b
unfolding same_name
same_name→eq [] [] h = refl
same_name→eq [] (y ∷ b) h = cc
same_name→eq (x ∷ a) [] h = cc
same_name→eq (x ∷ a) (y ∷ b) h = elim (Bool-cases (x == y)) [
  | inl t ↦ let e : x ≡ y = ground arith in ap₂ ◌∷◌ e (same_name→eq a b (rw t at h))
  | inr f ↦ let bad : false ≡ true = rw f at h in cc
]

pub strlcpy-short : (l : List ℕ) (size : ℕ) → length l < size → strlcpy l size ≡ l
strlcpy-short [] size h = refl
strlcpy-short (c ∷ l) size h =
    if-true (ltb 1 size) _ _ (ground arith) ∙ ap (λ r. c ∷ r) (strlcpy-short l _ (omega arith))

-- Enough reads see every entry.
pub take-enough : {A : Type 0} (n : ℕ) (l : List A) → length l ≤ n → take n l ≡ l
take-enough n [] h = take_nil n
  where
    take_nil : {A : Type 0} (k : ℕ) → take {A = A} k [] ≡ []
    take_nil zero = refl
    take_nil (suc k) = refl
take-enough zero (x ∷ l) h = absurd (omega arith)
take-enough (suc n) (x ∷ l) h = ap (λ r. x ∷ r) (take-enough n l (omega arith))

pub both_true : (a b : Bool) → (a && b) ≡ true → (a ≡ true) × (b ≡ true)
both_true true b h = (refl, h)
both_true false b h = cc

-- The sector that a directory gives a name.
abbrev pub binds : List DirEntry → List ℕ → Option ℕ
binds es name = sector_of (lookup_from es 0 name)

abbrev pub matches : DirEntry → List ℕ → Bool
matches e name = e.in_use && same_name name e.name

-- No two entries in use have one name.
abbrev pub UniqueNames : List DirEntry → Type 0
UniqueNames [] = Unit
UniqueNames (e ∷ es) = ((e.in_use ≡ false) ⊎ (binds es e.name ≡ none)) × UniqueNames es

abbrev pub choose : Bool → Option ℕ → Option ℕ → Option ℕ
choose b x y = if b then x else y

-- The sector does not depend on where the offsets begin.
binds_cons :
    (e : DirEntry) (es : List DirEntry) (k m : ℕ) (name : List ℕ)
    → (sector_of (lookup_from es (k + 1) name) ≡ sector_of (lookup_from es (m + 1) name))
    → sector_of (lookup_from (e ∷ es) k name) ≡ sector_of (lookup_from (e ∷ es) m name)
unfolding lookup_from
binds_cons e es k m name h = elim (Bool-cases (matches e name)) [ inl t ↦ rw t | inr f ↦ rw f h ]

offset_free :
    (es : List DirEntry) (k m : ℕ) (name : List ℕ)
    → sector_of (lookup_from es k name) ≡ sector_of (lookup_from es m name)
unfolding lookup_from
offset_free [] k m name = refl
offset_free (e ∷ es) k m name = binds_cons e es k m name (offset_free es (k + 1) (m + 1) name)

-- The first entry decides, if it is in use and has the name.
pub binds-cons :
    (e : DirEntry) (es : List DirEntry) (name : List ℕ)
    → binds (e ∷ es) name ≡ choose (matches e name) (some e.inode_sector) (binds es name)
unfolding lookup_from
binds-cons e es name = elim (Bool-cases (matches e name)) [
  | inl t ↦ rw t
  | inr f ↦ rw f (offset_free es 1 0 name)
]

-- An entry that takes the name of no other.
abbrev pub fresh_entry : List ℕ → ℕ → DirEntry
fresh_entry name s = record { inode_sector = s; name = name; in_use = true }

choose-none :
    (b : Bool) (a : ℕ) (y : Option ℕ) → choose b (some a) y ≡ none → (b ≡ false) × (y ≡ none)
choose-none false a y h = (refl, h)
choose-none true a y h = absurd (differ h)
  where
    differ : some a ≡ none → ⊥
    differ e = cc

-- A name that is not bound is not the first entry's, nor bound by the others.
pub unbound_cons :
    (e : DirEntry) (es : List DirEntry) (name : List ℕ)
    → binds (e ∷ es) name ≡ none
    → (matches e name ≡ false) × (binds es name ≡ none)
unbound_cons e es name h =
    choose-none (matches e name) e.inode_sector (binds es name) (sym (binds-cons e es name) ∙ h)
