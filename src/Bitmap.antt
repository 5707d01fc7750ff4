-- ===== src/Bitmap.antt =====
-- src/lib/kernel/bitmap.c: a bit array packed in 32-bit words.
-- A word is the function from a bit's place to the bit. `none` is a failed ASSERT or an access
-- outside the word buffer.
pub mod Refine
pub mod Scan
mod Tests
use operating_system.Common.{
  ℕ, zero, suc, ◌+◌, ◌-◌, ◌*◌, ◌/◌, ◌%◌, Bool, true, false, not, ◌&&◌, ◌||◌, Option, none, some,
  List, [], ◌==◌, leb, ltb, if◌then◌else◌, get_elem?, set as set_elem, ◌>>=◌, ◌>>◌, assert,
}

-- `elem_type`, a word of `elem_bits` bits.
abbrev pub Word : Type 0
Word = ℕ → Bool

abbrev pub elem_bits : ℕ
elem_bits = 32

-- `struct bitmap`
pub record Bitmap : Type 0 where
  pub bit_cnt : ℕ
  pub bits : List Word

abbrev pub elem_idx : ℕ → ℕ
elem_idx bit_idx = bit_idx / elem_bits

-- `1 << (bit_idx % ELEM_BITS)`
abbrev pub bit_mask : ℕ → Word
bit_mask bit_idx = λ k. k == bit_idx % elem_bits

-- DIV_ROUND_UP (bit_cnt, ELEM_BITS)
abbrev pub elem_cnt : ℕ → ℕ
elem_cnt bit_cnt = (bit_cnt + elem_bits - 1) / elem_bits

abbrev pub byte_cnt : ℕ → ℕ
byte_cnt bit_cnt = 4 * elem_cnt bit_cnt

-- `(1 << last_bits) - 1`, or all ones if the last word is full.
abbrev pub last_mask : Bitmap → Word
last_mask b =
    let last_bits = b.bit_cnt % elem_bits in λ k. if last_bits == 0 then true else ltb k last_bits

abbrev pub word_or : Word → Word → Word
word_or u v = λ k. u k || v k

abbrev pub word_and : Word → Word → Word
word_and u v = λ k. u k && v k

abbrev pub word_xor : Word → Word → Word
word_xor u v = λ k. if u k then not (v k) else v k

abbrev pub word_not : Word → Word
word_not u = λ k. not (u k)

-- `w != 0`: one of the low `n` bits is set.
unfoldable pub nonzero : ℕ → Word → Bool
nonzero zero w = false
nonzero (suc n) w = w n || nonzero n w

-- `b->bits[idx] = f (b->bits[idx])`
unfoldable pub update_word : Bitmap → ℕ → (Word → Word) → Option Bitmap
update_word b idx f =
    get_elem? b.bits idx >>= λ w. some (record b { bits = set_elem b.bits idx (f w) })

unfoldable pub mark : Bitmap → ℕ → Option Bitmap
mark b bit_idx = update_word b (elem_idx bit_idx) (λ w. word_or w (bit_mask bit_idx))

pub reset : Bitmap → ℕ → Option Bitmap
reset b bit_idx = update_word b (elem_idx bit_idx) (λ w. word_and w (word_not (bit_mask bit_idx)))

pub flip : Bitmap → ℕ → Option Bitmap
flip b bit_idx = update_word b (elem_idx bit_idx) (λ w. word_xor w (bit_mask bit_idx))

unfoldable pub set : Bitmap → ℕ → Bool → Option Bitmap
set b idx value = assert (ltb idx b.bit_cnt) >> (if value then mark b idx else reset b idx)

unfoldable pub test : Bitmap → ℕ → Option Bool
test b idx = do
  assert (ltb idx b.bit_cnt)
  w ← get_elem? b.bits (elem_idx idx)
  some (nonzero elem_bits (word_and w (bit_mask idx)))

-- The loop of `bitmap_set_multiple`, from bit `i` on with `n` rounds left.
unfoldable pub set_from : Bitmap → ℕ → ℕ → Bool → Option Bitmap
set_from b i zero value = some b
set_from b i (suc n) value = set b i value >>= λ b'. set_from b' (i + 1) n value

unfoldable pub in_range : Bitmap → ℕ → ℕ → Option (Unit {0})
in_range b start cnt = assert (leb start b.bit_cnt) >> assert (leb (start + cnt) b.bit_cnt)

unfoldable pub set_multiple : Bitmap → ℕ → ℕ → Bool → Option Bitmap
set_multiple b start cnt value = in_range b start cnt >> set_from b start cnt value

pub set_all : Bitmap → Bool → Option Bitmap
set_all b value = set_multiple b 0 b.bit_cnt value

abbrev pub same : Bool → Bool → Bool
same true b = b
same false b = not b

pub count_from : Bitmap → ℕ → ℕ → Bool → Option ℕ
count_from b i zero value = some 0
count_from b i (suc n) value = do
  t ← test b i
  c ← count_from b (i + 1) n value
  some (if same t value then c + 1 else c)

pub count : Bitmap → ℕ → ℕ → Bool → Option ℕ
count b start cnt value = in_range b start cnt >> count_from b start cnt value

unfoldable pub contains_from : Bitmap → ℕ → ℕ → Bool → Option Bool
contains_from b i zero value = some false
contains_from b i (suc n) value = do
  t ← test b i
  if same t value then some true else contains_from b (i + 1) n value

unfoldable pub contains : Bitmap → ℕ → ℕ → Bool → Option Bool
contains b start cnt value = in_range b start cnt >> contains_from b start cnt value

pub any : Bitmap → ℕ → ℕ → Option Bool
any b start cnt = contains b start cnt true

-- `bitmap_none`
pub none_set : Bitmap → ℕ → ℕ → Option Bool
none_set b start cnt = contains b start cnt true >>= λ c. some (not c)

pub all : Bitmap → ℕ → ℕ → Option Bool
all b start cnt = contains b start cnt false >>= λ c. some (not c)

-- The loop of `bitmap_scan` over i, …, last; the inner `none` is BITMAP_ERROR.
unfoldable pub scan_from : Bitmap → ℕ → ℕ → ℕ → Bool → Option (Option ℕ)
scan_from b i zero cnt value = some none
scan_from b i (suc n) cnt value = do
  c ← contains b i cnt (not value)
  if c then scan_from b (i + 1) n cnt value else some (some i)

unfoldable pub scan : Bitmap → ℕ → ℕ → Bool → Option (Option ℕ)
scan b start cnt value = do
  assert (leb start b.bit_cnt)
  if leb cnt b.bit_cnt then scan_from b start (b.bit_cnt - cnt + 1 - start) cnt value else some none

-- The index found (or BITMAP_ERROR), and the bitmap afterwards.
unfoldable pub scan_and_flip : Bitmap → ℕ → ℕ → Bool → Option (Option ℕ × Bitmap)
scan_and_flip b start cnt value = do
  idx ← scan b start cnt value
  elim idx [
    | none ↦ some (none, b)
    | some i ↦ set_multiple b i cnt (not value) >>= λ b'. some (some i, b')
  ]

-- A fresh header over the words that malloc returned, with every bit cleared.
fill : ℕ → List Word → Option (Option Bitmap)
fill bit_cnt words =
    set_all (record { bit_cnt = bit_cnt; bits = words }) false >>= λ b. some (some b)

-- `bitmap_create`: `header` and `words` are what the two calls of malloc return. The inner `none`
-- is a NULL result.
pub create : ℕ → (header : Bool) → (words : Option (List Word)) → Option (Option Bitmap)
create bit_cnt false words = some none
create bit_cnt true (some ws) = fill bit_cnt ws
create bit_cnt true none = if bit_cnt == 0 then fill bit_cnt [] else some none

-- `bitmap_buf_size`; the header `struct bitmap` is eight bytes on the 32-bit machine.
abbrev pub buf_size : ℕ → ℕ
buf_size bit_cnt = 8 + byte_cnt bit_cnt

-- `bitmap_create_in_buf`: `words` is what the buffer holds behind the header.
pub create_in_buf : (bit_cnt : ℕ) (words : List Word) (block_size : ℕ) → Option Bitmap
create_in_buf bit_cnt words block_size =
    assert (leb (buf_size bit_cnt) block_size)
    >> set_all (record { bit_cnt = bit_cnt; bits = words }) false
