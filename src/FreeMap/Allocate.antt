-- ===== src/FreeMap/Allocate.antt =====
-- Allocation and release of sectors in src/filesys/free-map.c, against the set of sectors in use.
use operating_system.Common.{
  ℕ, ◌+◌, ◌≤◌, ◌≡◌, refl, ◌∙◌, sym, Bool, true, false, not, ◌&&◌, Option, none, some, arith, inl,
  inr, ◌⊎◌, subst, ap, ap₂, some_injective, le→leb, lt→ltb, leb, ltb, Bool-cases, if-true,
}
use operating_system.Bitmap.{Bitmap, scan_and_flip}
use operating_system.Bitmap.Refine.{Models, fill_range, set_multiple_lem}
use operating_system.Bitmap.Scan.{IsRun, IsFirstFit, flipped, scan_and_flip_lem, all-IsRun}
use operating_system.FreeMap.{FreeMap, free_map_allocate, free_map_release}

-- What an allocation has to answer: the lowest run of free sectors if there is one, and nothing
-- where the map cannot be stored.
abbrev pub IsAnswer : (ℕ → Bool) → ℕ → ℕ → (unstored : Bool) → Option ℕ → Type 0
IsAnswer used n cnt false o = IsFirstFit used n 0 cnt false o
IsAnswer used n cnt true o = o ≡ none

-- The sectors in use after an allocation.
abbrev pub after : (ℕ → Bool) → ℕ → Option ℕ → ℕ → Bool
after used cnt none = used
after used cnt (some s) = fill_range used s cnt true

fill-back :
    (f : ℕ → Bool) (s cnt : ℕ)
    → IsRun f s cnt false
    → (j : ℕ) → fill_range (fill_range f s cnt true) s cnt false j ≡ f j
fill-back f s cnt r j = elim (Bool-cases (leb s j && ltb j (s + cnt))) [
  | inl t ↦ rw t (sym (r j (ground arith) (ground arith)))
  | inr t ↦ rw t
]

pub Models-cong :
    {b : Bitmap} {n : ℕ} {f g : ℕ → Bool} → Models b n f → ((j : ℕ) → f j ≡ g j) → Models b n g
Models-cong m h = record { cnt = m.cnt; words = m.words; agrees = λ j p. m.agrees j p ∙ h j }

-- The allocation never panics. It takes the lowest run of free sectors that is long enough, and
-- marks exactly those; where there is none, or the map cannot be written, it leaves the sectors in
-- use as they are.
pub free_map_allocate_lem :
    (f : FreeMap) (written : Bool) (n : ℕ) (used : ℕ → Bool) (cnt : ℕ)
    → Models f.map n used
    → (o : Option ℕ) × (f' : FreeMap) × (free_map_allocate f written cnt ≡ some (o, f'))
      × (f'.is_open ≡ f.is_open)
      × IsAnswer used n cnt (f.is_open && not written) o
      × Models f'.map n (after used cnt o)
unfolding free_map_allocate
free_map_allocate_lem f written n used cnt m =
    go (scan_and_flip_lem f.map n used 0 cnt false m (omega arith))
      (Bool-cases (f.is_open && not written))
  where
    stored_none : (u : Bool) → IsFirstFit used n 0 cnt false none → IsAnswer used n cnt u none
    stored_none true h = refl
    stored_none false h = h

    go :
        (o : Option ℕ) × (b' : Bitmap) × (scan_and_flip f.map 0 cnt false ≡ some (o, b'))
          × IsFirstFit used n 0 cnt false o
          × Models b' n (flipped used cnt false o)
        → ((f.is_open && not written) ≡ true) ⊎ ((f.is_open && not written) ≡ false)
        → (o : Option ℕ) × (f' : FreeMap) × (free_map_allocate f written cnt ≡ some (o, f'))
          × (f'.is_open ≡ f.is_open)
          × IsAnswer used n cnt (f.is_open && not written) o
          × Models f'.map n (after used cnt o)
    go (none, b, e, fit, m') c =
        (none, record f { map = b }, rw e, refl, stored_none (f.is_open && not written) fit, m')
    go (some s, b, e, fit, m') (inr c) =
        (some s, record f { map = b }, rw (e, c), refl, rw c fit, m')
    go (some s, b, e, fit, m') (inl c) =
        let (b', e', back) =
          set_multiple_lem b n (fill_range used s cnt true) s cnt false m' fit.1 in
        (
          none,
          record f { map = b' },
          rw (e, c, e'),
          refl,
          rw c,
          Models-cong back (fill-back used s cnt fit.2),
        )

pub answer-IsRun :
    (used : ℕ → Bool) (n cnt : ℕ) (u : Bool) (s : ℕ)
    → IsAnswer used n cnt u (some s)
    → (s + cnt ≤ n) × IsRun used s cnt false
answer-IsRun used n cnt true s a = cc
answer-IsRun used n cnt false s a = (a.1, a.2)

-- What the caller of a successful allocation knows.
pub record Allocated (f f' : FreeMap) (n : ℕ) (used : ℕ → Bool) (cnt s : ℕ) : Type 0 where
  pub same_file : f'.is_open ≡ f.is_open
  pub inside : s + cnt ≤ n
  pub was_free : IsRun used s cnt false
  pub now_used : Models f'.map n (fill_range used s cnt true)

pub allocate-Allocated :
    (f f' : FreeMap) (written : Bool) (n : ℕ) (used : ℕ → Bool) (cnt s : ℕ)
    → Models f.map n used
    → free_map_allocate f written cnt ≡ some (some s, f')
    → Allocated f f' n used cnt s
allocate-Allocated f f' written n used cnt s m h =
    let (o, g, e, same, answer, m') = free_map_allocate_lem f written n used cnt m in
    let both : ◌≡◌ {A = Option ℕ × FreeMap} (o, g) (some s, f') = some_injective (sym e ∙ h) in
    let eo : o ≡ some s = ap (λ r. r.0) both in
    let eg : g ≡ f' = ap (λ r. r.1) both in
    let run =
      answer-IsRun used n cnt (f.is_open && not written) s
        (subst (IsAnswer used n cnt (f.is_open && not written)) eo answer) in
    record {
      same_file = ap (λ x. x.is_open) (sym eg) ∙ same;
      inside = run.0;
      was_free = run.1;
      now_used =
          subst (λ x. Models x.map n (after used cnt (some s))) eg
            (subst (λ x. Models g.map n (after used cnt x)) eo m');
    }

-- On a map whose file is open, sectors that are in use can be released: exactly those are free
-- afterwards.
pub free_map_release_lem :
    (f : FreeMap) (n : ℕ) (used : ℕ → Bool) (cnt s : ℕ)
    → Models f.map n used
    → f.is_open ≡ true
    → s + cnt ≤ n
    → IsRun used s cnt true
    → (f' : FreeMap) × (free_map_release f s cnt ≡ some f')
      × (f'.is_open ≡ true)
      × Models f'.map n (fill_range used s cnt false)
unfolding free_map_release
free_map_release_lem f n used cnt s m o inside run =
    let (b, e, m') = set_multiple_lem f.map n used s cnt false m inside in
    (record f { map = b }, rw (all-IsRun f.map n used s cnt m inside run, e, o), o, m')

fill_range-IsRun : (f : ℕ → Bool) (s cnt : ℕ) → IsRun (fill_range f s cnt true) s cnt true
fill_range-IsRun f s cnt j p q = if-true _ _ _ (ap₂ ◌&&◌ (le→leb s j p) (lt→ltb j (s + cnt) q))

-- The sectors that `free_map_allocate` took can be released again by `free_map_release`, if the
-- file of the map is open, and then the same sectors are in use as before.
pub free_map_release-allocate :
    (f f' : FreeMap) (written : Bool) (n : ℕ) (used : ℕ → Bool) (cnt s : ℕ)
    → Models f.map n used
    → f.is_open ≡ true
    → free_map_allocate f written cnt ≡ some (some s, f')
    → (f'' : FreeMap) × (free_map_release f' s cnt ≡ some f'') × Models f''.map n used
free_map_release-allocate f f' written n used cnt s m o h =
    let a = allocate-Allocated f f' written n used cnt s m h in
    let (f'', e, o', m') =
      free_map_release_lem f' n (fill_range used s cnt true) cnt s a.now_used (a.same_file ∙ o)
        a.inside (fill_range-IsRun used s cnt) in
    (f'', e, Models-cong m' (fill-back used s cnt a.was_free))
