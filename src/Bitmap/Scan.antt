-- ===== src/Bitmap/Scan.antt =====
-- `bitmap_contains`, `bitmap_count`, `bitmap_scan` and `bitmap_scan_and_flip` of
-- src/lib/kernel/bitmap.c: searches for runs of equal bits.
use operating_system.Common.{
  ℕ, zero, suc, ◌+◌, ◌-◌, ◌≤◌, ◌<◌, ◌≡◌, refl, ◌∙◌, sym, inl, inr, Bool, true, false, le→leb,
  lt→leb, not, Option, none, some, arith, if◌then◌else◌, Bool-cases,
}
use native.Mathlib.Decide.{ℕ_discrete, dec_le}
use operating_system.Bitmap.{
  Bitmap, in_range, same, count_from, count, contains_from, contains, all, scan_from, scan,
  scan_and_flip,
}
use operating_system.Bitmap.Refine.{Models, test_lem, set_multiple_lem, fill_range}

-- Every bit of `[i, i + k)` is `v`.
abbrev pub IsRun : (ℕ → Bool) → ℕ → ℕ → Bool → Type 0
IsRun f i k v = (j : ℕ) → i ≤ j → j < i + k → f j ≡ v

-- Some bit of `[i, i + k)` is `v`: the loop of `bitmap_contains` on the bits themselves.
abbrev pub range_has : (ℕ → Bool) → ℕ → ℕ → Bool → Bool
range_has f i zero v = false
range_has f i (suc k) v = if same (f i) v then true else range_has f (i + 1) k v

abbrev pub range_count : (ℕ → Bool) → ℕ → ℕ → Bool → ℕ
range_count f i zero v = 0
range_count f i (suc k) v =
    if same (f i) v then range_count f (i + 1) k v + 1 else range_count f (i + 1) k v

same_iff : (a b : Bool) → same a (not b) ≡ false → a ≡ b
same_iff true true h = refl
same_iff true false h = cc
same_iff false true h = cc
same_iff false false h = refl

same_not : (a b : Bool) → a ≡ b → same a (not b) ≡ false
same_not true b h = rw (← h)
same_not false b h = rw (← h)

pub IsRun-of_range :
    (f : ℕ → Bool) (i k : ℕ) (v : Bool) → range_has f i k (not v) ≡ false → IsRun f i k v
IsRun-of_range f i zero v h j p q = absurd (omega arith)
IsRun-of_range f i (suc k) v h j p q = elim (Bool-cases (same (f i) (not v))) [
  | inl t ↦ let bad : true ≡ false = rw t at h in cc
  | inr e ↦
      let rest : range_has f (i + 1) k (not v) ≡ false = rw e at h in
      elim (ℕ_discrete i j) [
        | yes p' ↦ rw (← p') (same_iff (f i) v e)
        | no np ↦ IsRun-of_range f (i + 1) k v rest j (omega arith) (omega arith)
      ]
]

pub range-of_IsRun :
    (f : ℕ → Bool) (i k : ℕ) (v : Bool) → IsRun f i k v → range_has f i k (not v) ≡ false
range-of_IsRun f i zero v h = refl
range-of_IsRun f i (suc k) v h =
    rw (same_not (f i) v (h i (omega arith) (omega arith)))
      (range-of_IsRun f (i + 1) k v (λ j p q. h j (omega arith) (omega arith)))

contains_from_lem :
    (k : ℕ) (b : Bitmap) (n : ℕ) (f : ℕ → Bool) (i : ℕ) (v : Bool)
    → Models b n f
    → i + k ≤ n
    → contains_from b i k v ≡ some (range_has f i k v)
unfolding contains_from
contains_from_lem zero b n f i v m h = refl
contains_from_lem (suc k) b n f i v m h = elim (Bool-cases (same (f i) v)) [
  | inl t ↦ rw (test_lem b n f i m (omega arith), t)
  | inr t ↦
      rw (test_lem b n f i m (omega arith), t) (contains_from_lem k b n f (i + 1) v m (omega arith))
]

in_range_lem :
    (b : Bitmap) (n : ℕ) (f : ℕ → Bool) (start cnt : ℕ)
    → Models b n f
    → start + cnt ≤ n
    → in_range b start cnt ≡ some tt
unfolding in_range
in_range_lem b n f start cnt m h = rw (
  le→leb start b.bit_cnt (omega (arith, m.cnt)),
  le→leb (start + cnt) b.bit_cnt (omega (arith, m.cnt)),
)

pub contains_lem :
    (b : Bitmap) (n : ℕ) (f : ℕ → Bool) (start cnt : ℕ) (v : Bool)
    → Models b n f
    → start + cnt ≤ n
    → contains b start cnt v ≡ some (range_has f start cnt v)
unfolding contains
contains_lem b n f start cnt v m h =
    rw (in_range_lem b n f start cnt m h) (contains_from_lem cnt b n f start v m h)

-- `bitmap_all` is true of a run of ones, whose bits the callers then clear.
pub all-IsRun :
    (b : Bitmap) (n : ℕ) (f : ℕ → Bool) (start cnt : ℕ)
    → Models b n f
    → start + cnt ≤ n
    → IsRun f start cnt true
    → all b start cnt ≡ some true
unfolding all
all-IsRun b n f start cnt m h r =
    rw (contains_lem b n f start cnt false m h, range-of_IsRun f start cnt true r)

-- What a search for `cnt` bits of value `v` from `start` on has to answer: the first run, or
-- nothing where there is none.
abbrev pub IsFirstFit : (ℕ → Bool) → ℕ → ℕ → ℕ → Bool → Option ℕ → Type 0
IsFirstFit f n start cnt v (some i) =
    (start ≤ i)
    × (i + cnt ≤ n)
    × IsRun f i cnt v
    × ((j : ℕ) → start ≤ j → j < i → ¬ IsRun f j cnt v)
IsFirstFit f n start cnt v none = (j : ℕ) → start ≤ j → j + cnt ≤ n → ¬ IsRun f j cnt v

skip_one :
    (f : ℕ → Bool) (n i cnt : ℕ) (v : Bool) (o : Option ℕ)
    → ¬ IsRun f i cnt v
    → IsFirstFit f n (i + 1) cnt v o
    → IsFirstFit f n i cnt v o
skip_one f n i cnt v none no_run h =
    λ j p q. elim (ℕ_discrete i j) [ yes e ↦ rw (← e) no_run | no ne ↦ h j (omega arith) q ]
skip_one f n i cnt v (some l) no_run (p, q, r, first) = (
  omega arith,
  q,
  r,
  λ j a b. elim (ℕ_discrete i j) [ yes e ↦ rw (← e) no_run | no ne ↦ first j (omega arith) b ],
)

scan_from_lem :
    (r : ℕ) (b : Bitmap) (n : ℕ) (f : ℕ → Bool) (i cnt : ℕ) (v : Bool)
    → Models b n f
    → cnt ≤ n
    → r ≡ n - cnt + 1 - i
    → (o : Option ℕ) × (scan_from b i r cnt v ≡ some o) × IsFirstFit f n i cnt v o
unfolding scan_from
scan_from_lem zero b n f i cnt v m h e = (none, refl, λ j p q. absurd (omega arith))
scan_from_lem (suc r) b n f i cnt v m h e =
    let here = contains_lem b n f i cnt (not v) m (omega arith) in
    elim (Bool-cases (range_has f i cnt (not v))) [
      | inr t ↦ (
        some i,
        rw (here, t),
        (omega arith, omega arith, IsRun-of_range f i cnt v t, λ j p q. absurd (omega arith)),
      )
      | inl t ↦
          let (o, eo, fit) = scan_from_lem r b n f (i + 1) cnt v m h (omega arith) in
          (
            o,
            rw (here, t) eo,
            skip_one f n i cnt v o
                (λ run. let bad : true ≡ false = sym t ∙ range-of_IsRun f i cnt v run in cc) fit,
          )
    ]

-- On a well-formed bitmap and a start within it, `bitmap_scan` never panics and returns the lowest
-- index at or above the start of a run of `cnt` bits of the given value, or BITMAP_ERROR where no
-- such run fits.
pub scan-IsFirstFit :
    (b : Bitmap) (n : ℕ) (f : ℕ → Bool) (start cnt : ℕ) (v : Bool)
    → Models b n f
    → start ≤ n
    → (o : Option ℕ) × (scan b start cnt v ≡ some o) × IsFirstFit f n start cnt v o
unfolding scan
scan-IsFirstFit b n f start cnt v m h = elim (dec_le cnt n) [
  | yes p ↦
      rw
        (le→leb start b.bit_cnt (omega (arith, m.cnt)), le→leb cnt b.bit_cnt (omega (arith, m.cnt)))
        (scan_from_lem (b.bit_cnt - cnt + 1 - start) b n f start cnt v m p (omega (arith, m.cnt)))
  | no np ↦ (
    none,
    rw (le→leb start b.bit_cnt (omega (arith, m.cnt)), lt→leb cnt b.bit_cnt (omega (arith, m.cnt))),
    λ j p q. absurd (omega arith),
  )
]

-- The bits after a search: the run that was found is inverted, and nothing else is touched.
abbrev pub flipped : (ℕ → Bool) → ℕ → Bool → Option ℕ → ℕ → Bool
flipped f cnt v none = f
flipped f cnt v (some i) = fill_range f i cnt (not v)

-- On a well-formed bitmap and a start within it, `bitmap_scan_and_flip` never panics, finds what
-- `bitmap_scan` has to find, and inverts exactly the bits of that run.
pub scan_and_flip_lem :
    (b : Bitmap) (n : ℕ) (f : ℕ → Bool) (start cnt : ℕ) (v : Bool)
    → Models b n f
    → start ≤ n
    → (o : Option ℕ) × (b' : Bitmap) × (scan_and_flip b start cnt v ≡ some (o, b'))
      × IsFirstFit f n start cnt v o
      × Models b' n (flipped f cnt v o)
unfolding scan_and_flip
scan_and_flip_lem b n f start cnt v m h = go (scan-IsFirstFit b n f start cnt v m h)
  where
    go :
        (o : Option ℕ) × (scan b start cnt v ≡ some o) × IsFirstFit f n start cnt v o
        → (o : Option ℕ) × (b' : Bitmap) × (scan_and_flip b start cnt v ≡ some (o, b'))
          × IsFirstFit f n start cnt v o
          × Models b' n (flipped f cnt v o)
    go (none, e, fit) = (none, b, rw e, fit, m)
    go (some i, e, fit) =
        let (b', e', m') = set_multiple_lem b n f i cnt (not v) m fit.1 in
        (some i, b', rw (e, e'), fit, m')

count_from_lem :
    (k : ℕ) (b : Bitmap) (n : ℕ) (f : ℕ → Bool) (i : ℕ) (v : Bool)
    → Models b n f
    → i + k ≤ n
    → count_from b i k v ≡ some (range_count f i k v)
unfolding count_from
count_from_lem zero b n f i v m h = refl
count_from_lem (suc k) b n f i v m h =
    rw (test_lem b n f i m (omega arith), count_from_lem k b n f (i + 1) v m (omega arith))
      (ground arith)

range_count-add :
    (k : ℕ) (f : ℕ → Bool) (i : ℕ) → range_count f i k true + range_count f i k false ≡ k
range_count-add zero f i = refl
range_count-add (suc k) f i = ground (arith, range_count-add k f (i + 1))

-- On a well-formed bitmap and a range within it, `bitmap_count` of ones and of zeros does not
-- panic, and the two counts add up to the length of the range.
pub count-add :
    (b : Bitmap) (n : ℕ) (f : ℕ → Bool) (start cnt : ℕ)
    → Models b n f
    → start + cnt ≤ n
    → (p : ℕ) × (q : ℕ) × (count b start cnt true ≡ some p)
      × (count b start cnt false ≡ some q)
      × (p + q ≡ cnt)
unfolding count
count-add b n f start cnt m h = (
  range_count f start cnt true,
  range_count f start cnt false,
  rw (in_range_lem b n f start cnt m h) (count_from_lem cnt b n f start true m h),
  rw (in_range_lem b n f start cnt m h) (count_from_lem cnt b n f start false m h),
  range_count-add cnt f start,
)
