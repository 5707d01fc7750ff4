-- ===== src/Directory/Readdir.antt =====
-- `dir_readdir` of src/filesys/directory.c, called until it answers false.
use operating_system.Common.{
  ℕ, zero, suc, ◌+◌, ◌≤◌, ◌<◌, ◌≡◌, refl, ◌∙◌, sym, ap, inl, inr, true, false, Option, none, some,
  List, [], ◌∷◌, arith, if◌then◌else◌, length, drop, take, Bool-cases, if-true, if-false, All, ◌⊎◌,
  subst,
}
use operating_system.Process.Arguments.{strlcpy}
use operating_system.Directory.{
  DirEntry, name_max, Dir, readdir_from, dir_readdir, print_next, read_names,
}
use operating_system.Directory.Names.{strlcpy-short, take-enough}

-- The names in use, in the order of their slots.
abbrev pub names_of : List DirEntry → List (List ℕ)
names_of [] = []
names_of (e ∷ es) = if e.in_use then e.name ∷ names_of es else names_of es

drop-add : {A : Type 0} (m n : ℕ) (l : List A) → drop (m + n) l ≡ drop n (drop m l)
drop-add zero n l = ap (λ k. drop k l) (omega arith)
drop-add (suc m) n [] = drop_nil (suc m + n) ∙ sym (drop_nil n)
  where
    drop_nil : {A : Type 0} (k : ℕ) → drop {A = A} k [] ≡ []
    drop_nil zero = refl
    drop_nil (suc k) = refl
drop-add (suc m) n (x ∷ l) = ap (λ k. drop k (x ∷ l)) shift ∙ drop-add m n l
  where
    shift : suc m + n ≡ suc (m + n)
    shift = omega arith

-- What one call has read: the next name in use, after which fewer entries are left.
record Reads (es : List DirEntry) (r : Option (List ℕ) × ℕ) : Type 0 where
  reads_on : names_of es ≡ print_next r.0 (names_of (drop r.1 es))
  shorter : (r.0 ≡ none) ⊎ (length (drop r.1 es) < length es)

one-Reads :
    (e : DirEntry) (es : List DirEntry)
    → length e.name ≤ name_max
    → e.in_use ≡ true
    → Reads (e ∷ es) (some (strlcpy e.name (name_max + 1)), 1)
one-Reads e es short t = record {
  reads_on =
      if-true _ _ _ t
      ∙ ap (λ n. n ∷ names_of es) (sym (strlcpy-short e.name (name_max + 1) (omega arith)));
  shorter = inr (omega arith);
}

past-Reads :
    (e : DirEntry) (es : List DirEntry) (r : Option (List ℕ) × ℕ)
    → e.in_use ≡ false
    → Reads es r
    → Reads (e ∷ es) (r.0, r.1 + 1)
past-Reads e es r f reads = record {
  reads_on = if-false _ _ _ f ∙ reads.reads_on ∙ ap (λ l. print_next r.0 (names_of l)) (sym same);
  shorter = elim reads.shorter [
    | inl none' ↦ inl none'
    | inr less ↦ inr (omega (arith, less, ap length same))
  ];
}
  where
    same : drop (r.1 + 1) (e ∷ es) ≡ drop r.1 es
    same = ap (λ k. drop k (e ∷ es)) succ
      where
        succ : r.1 + 1 ≡ suc r.1
        succ = omega arith

readdir_from-Reads :
    (es : List DirEntry) → All (λ e. length e.name ≤ name_max) es → Reads es (readdir_from es)
unfolding readdir_from
readdir_from-Reads [] h = record { reads_on = refl; shorter = inl refl }
readdir_from-Reads (e ∷ es) h = elim (Bool-cases e.in_use) [
  | inl t ↦ subst (Reads (e ∷ es)) (sym (if-true e.in_use _ _ t)) (one-Reads e es h.0 t)
  | inr f ↦
      subst (Reads (e ∷ es)) (sym (if-false e.in_use _ _ f))
        (past-Reads e es (readdir_from es) f (readdir_from-Reads es h.1))
]

All-drop :
    (n : ℕ) (es : List DirEntry)
    → All (λ e. length e.name ≤ name_max) es
    → All (λ e. length e.name ≤ name_max) (drop n es)
All-drop zero es h = h
All-drop (suc n) [] h = h
All-drop (suc n) (e ∷ es) h = All-drop n es h.1

length-drop_le : {A : Type 0} (n : ℕ) (l : List A) → length (drop n l) ≤ length l
length-drop_le zero l = omega arith
length-drop_le (suc n) [] = omega arith
length-drop_le (suc n) (x ∷ l) = omega (arith, length-drop_le n l)

-- If no name is longer than NAME_MAX and each read of an entry gets a bounce buffer, a loop of
-- `dir_readdir` from any position on ends, within as many rounds as one more than the entries that
-- are left, and reads the names that are in use from there on, each once and in the order of their
-- slots.
pub read_names_lem :
    (fuel : ℕ) (reads : ℕ → ℕ) (d : Dir)
    → All (λ e. length e.name ≤ name_max) d.entries
    → ((k : ℕ) → length d.entries ≤ reads k)
    → length (drop d.pos d.entries) < fuel
    → read_names fuel reads d ≡ names_of (drop d.pos d.entries)
unfolding read_names dir_readdir
read_names_lem zero reads d h had enough = absurd (omega arith)
read_names_lem (suc fuel) reads d h had enough = rw all_read (
    go (readdir_from (drop d.pos d.entries))
      (readdir_from-Reads (drop d.pos d.entries) (All-drop d.pos d.entries h))
      (λ r less.
        read_names_lem fuel reads (record d { pos = d.pos + r }) h had
          (omega (arith, less, enough, ap length (drop-add d.pos r d.entries)))))
  where
    all_read : take (reads fuel) (drop d.pos d.entries) ≡ drop d.pos d.entries
    all_read =
        take-enough (reads fuel) (drop d.pos d.entries)
          (omega (arith, length-drop_le d.pos d.entries, had fuel))

    go :
        (r : Option (List ℕ) × ℕ)
        → Reads (drop d.pos d.entries) r
        → ((k : ℕ)
            → length (drop k (drop d.pos d.entries)) < length (drop d.pos d.entries)
            → read_names fuel reads (record d { pos = d.pos + k })
              ≡ names_of (drop (d.pos + k) d.entries))
        → print_next r.0 (read_names fuel reads (record d { pos = d.pos + r.1 }))
          ≡ names_of (drop d.pos d.entries)
    go (none, k) reads rec = sym reads.reads_on
    go (some name, k) reads rec = elim reads.shorter [
      | inl e ↦ cc
      | inr less ↦
          ap (λ l. name ∷ l) (rec k less ∙ ap names_of (drop-add d.pos k d.entries))
          ∙ sym reads.reads_on
    ]
