-- ===== src/Bitmap/Refine.antt =====
-- The packed bitmap against the function from an index to its bit.
use operating_system.Common.{
  le→ltb, ℕ, zero, suc, ◌+◌, ◌%◌, ◌≤◌, ◌<◌, ◌≡◌, ◌≢◌, refl, ap, ◌∙◌, Bool, true, false, ◌&&◌,
  Option, none, some, List, arith, ◌==◌, leb, ltb, if◌then◌else◌, length, get_elem?,
  set as set_elem, length-set, get_elem?-set_self, get_elem?-set_ne, get_elem?-some, lt→ltb, le→leb,
}
use native.Mathlib.Decide.{ℕ_discrete}
use operating_system.Bitmap.{
  Word, elem_bits, Bitmap, elem_idx, elem_cnt, word_and, nonzero, update_word, mark, reset, set,
  test, set_from, in_range, set_multiple,
}

-- The bit at an index, false outside the buffer.
abbrev pub bit_of : Option Word → ℕ → Bool
bit_of none k = false
bit_of (some w) k = w k

abbrev pub bit : Bitmap → ℕ → Bool
bit b j = bit_of (get_elem? b.bits (elem_idx j)) (j % elem_bits)

-- `b` has `n` bits, its buffer has the words for them, and bit `j` is `f j`.
pub record Models (b : Bitmap) (n : ℕ) (f : ℕ → Bool) : Type 0 where
  pub cnt : b.bit_cnt ≡ n
  pub words : length b.bits ≡ elem_cnt n
  pub agrees : (j : ℕ) → j < n → bit b j ≡ f j

abbrev pub update : (ℕ → Bool) → ℕ → Bool → ℕ → Bool
update f i v j = if i == j then v else f j

abbrev pub fill_range : (ℕ → Bool) → ℕ → ℕ → Bool → ℕ → Bool
fill_range f start n v j = if leb start j && ltb j (start + n) then v else f j

same_place : (i j : ℕ) → i ≢ j → elem_idx i ≡ elem_idx j → i % elem_bits ≢ j % elem_bits
same_place i j ne e = omega arith

idx-lt : (i n : ℕ) → i < n → elem_idx i < elem_cnt n
idx-lt i n h = omega arith

-- A word written at the place of bit `i` changes bit `i` and no other.
bit-set_elem :
    (ws : List Word) (i j : ℕ) (v : Bool) (w w' : Word)
    → get_elem? ws (elem_idx i) ≡ some w
    → elem_idx i < length ws
    → ((k : ℕ) → w' k ≡ (if k == i % elem_bits then v else w k))
    → bit_of (get_elem? (set_elem ws (elem_idx i) w') (elem_idx j)) (j % elem_bits)
      ≡ (if i == j then v else bit_of (get_elem? ws (elem_idx j)) (j % elem_bits))
bit-set_elem ws i j v w w' e lt sem = elim (ℕ_discrete (elem_idx i) (elem_idx j)) [
  | yes p ↦
      rw (← p, get_elem?-set_self ws (elem_idx i) w' lt, e, sem) (ground (arith, same_place i j))
  | no np ↦ rw (get_elem?-set_ne ws w' np) (ground arith)
]

-- The one-word update, seen bit by bit.
update_word_lem :
    (b : Bitmap) (n : ℕ) (f : ℕ → Bool) (i : ℕ) (v : Bool) (g : Word → Word)
    → Models b n f
    → i < n
    → ((w : Word) (k : ℕ) → g w k ≡ (if k == i % elem_bits then v else w k))
    → (b' : Bitmap) × (update_word b (elem_idx i) g ≡ some b') × Models b' n (update f i v)
unfolding update_word
update_word_lem b n f i v g m h sem =
    let lt : elem_idx i < length b.bits = omega (arith, m.words, idx-lt i n h) in
    let (w, e) = get_elem?-some b.bits (elem_idx i) lt in
    (
      record b { bits = set_elem b.bits (elem_idx i) (g w) },
      rw e,
      record {
        cnt = m.cnt;
        words = length-set _ _ _ ∙ m.words;
        agrees = λ j hj.
            bit-set_elem b.bits i j v w (g w) e lt (sem w)
            ∙ ap (λ t. if i == j then v else t) (m.agrees j hj);
      },
    )

-- `bitmap_mark` and `bitmap_reset` write one bit.
pub mark_lem :
    (b : Bitmap) (n : ℕ) (f : ℕ → Bool) (i : ℕ)
    → Models b n f
    → i < n
    → (b' : Bitmap) × (mark b i ≡ some b') × Models b' n (update f i true)
unfolding mark
mark_lem b n f i m h = update_word_lem b n f i true _ m h (λ w k. ground arith)

pub reset_lem :
    (b : Bitmap) (n : ℕ) (f : ℕ → Bool) (i : ℕ)
    → Models b n f
    → i < n
    → (b' : Bitmap) × (reset b i ≡ some b') × Models b' n (update f i false)
unfolding reset
reset_lem b n f i m h = update_word_lem b n f i false _ m h (λ w k. ground arith)

in_bounds :
    (b : Bitmap) (n : ℕ) (f : ℕ → Bool) (i : ℕ) → Models b n f → i < n → ltb i b.bit_cnt ≡ true
in_bounds b n f i m h = lt→ltb i b.bit_cnt (omega (arith, m.cnt))

-- On a well-formed bitmap and an index within it, `bitmap_set` does not panic and writes the given
-- value at that index and at no other.
pub set_lem :
    (b : Bitmap) (n : ℕ) (f : ℕ → Bool) (i : ℕ) (v : Bool)
    → Models b n f
    → i < n
    → (b' : Bitmap) × (set b i v ≡ some b') × Models b' n (update f i v)
unfolding set
set_lem b n f i true m h = rw (in_bounds b n f i m h) (mark_lem b n f i m h)
set_lem b n f i false m h = rw (in_bounds b n f i m h) (reset_lem b n f i m h)

nonzero_mask :
    (n k : ℕ) (w : Word) → nonzero n (word_and w (λ l. l == k)) ≡ (if ltb k n then w k else false)
unfolding nonzero
nonzero_mask zero k w = ground arith
nonzero_mask (suc n) k w = ground (arith, nonzero_mask n k w)

-- On a well-formed bitmap and an index within it, `bitmap_test` does not panic and returns the bit
-- at that index.
pub test_lem :
    (b : Bitmap) (n : ℕ) (f : ℕ → Bool) (i : ℕ) → Models b n f → i < n → test b i ≡ some (f i)
unfolding test
test_lem b n f i m h =
    let lt : elem_idx i < length b.bits = omega (arith, m.words, idx-lt i n h) in
    let (w, e) = get_elem?-some b.bits (elem_idx i) lt in
    let here : bit b i ≡ f i = m.agrees i h in
    let here' : w (i % elem_bits) ≡ f i = rw e at here in
    rw (in_bounds b n f i m h, e, nonzero_mask 32 (i % elem_bits) w, here') (ground arith)

-- A failed ASSERT: no bit outside the bitmap is written or read.
pub set_out_of_range : (b : Bitmap) (i : ℕ) (v : Bool) → b.bit_cnt ≤ i → set b i v ≡ none
unfolding set
set_out_of_range b i v h = rw (le→ltb i b.bit_cnt h)

pub test_out_of_range : (b : Bitmap) (i : ℕ) → b.bit_cnt ≤ i → test b i ≡ none
unfolding test
test_out_of_range b i h = rw (le→ltb i b.bit_cnt h)

pub set_from_lem :
    (k : ℕ) (b : Bitmap) (n : ℕ) (f : ℕ → Bool) (i : ℕ) (v : Bool)
    → Models b n f
    → i + k ≤ n
    → (b' : Bitmap) × (set_from b i k v ≡ some b') × Models b' n (fill_range f i k v)
unfolding set_from
set_from_lem zero b n f i v m h =
    (b, refl, record { cnt = m.cnt; words = m.words; agrees = λ j hj. ground (arith, m.agrees j) })
set_from_lem (suc k) b n f i v m h =
    let (b1, e1, m1) = set_lem b n f i v m (omega arith) in
    let (b2, e2, m2) = set_from_lem k b1 n (update f i v) (i + 1) v m1 (omega arith) in
    (
      b2,
      rw e1 e2,
      record { cnt = m2.cnt; words = m2.words; agrees = λ j hj. ground (arith, m2.agrees j) },
    )

-- On a well-formed bitmap and a range within it, `bitmap_set_multiple` does not panic and writes
-- the given value at every index of the range and at no other.
pub set_multiple_lem :
    (b : Bitmap) (n : ℕ) (f : ℕ → Bool) (start cnt : ℕ) (v : Bool)
    → Models b n f
    → start + cnt ≤ n
    → (b' : Bitmap) × (set_multiple b start cnt v ≡ some b')
      × Models b' n (fill_range f start cnt v)
unfolding set_multiple in_range
set_multiple_lem b n f start cnt v m h =
    rw
      (
        le→leb start b.bit_cnt (omega (arith, m.cnt)),
        le→leb (start + cnt) b.bit_cnt (omega (arith, m.cnt)),
      )
      (set_from_lem cnt b n f start v m h)
