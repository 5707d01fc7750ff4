-- ===== src/Process/Arguments/Readback.antt =====
-- What stands in memory after the pushes of `construct_stack` in src/userprog/process.c.
use operating_system.Common.{
  ℕ, zero, suc, ◌+◌, ◌*◌, ◌-◌, ◌/◌, ◌%◌, ◌^◌, ◌≤◌, ◌<◌, ◌≡◌, refl, ap, sym, subst, ◌∙◌, List, [],
  ◌∷◌, ◌==◌, ltb, leb, ◌&&◌, length, arith, if-true, if-false, All,
}
use operating_system.Page.{byte_at}
use operating_system.Process.Arguments.{
  Stack, sub_32, push, push_string, bytes_of, push_word, push_strings, align, push_words,
}

-- The bytes of the strings with their zeros.
abbrev pub total : List (List ℕ) → ℕ
total [] = 0
total (s ∷ ss) = length s + 1 + total ss

-- A string with its zero stands at `a`.
abbrev pub StringAt : (ℕ → ℕ) → ℕ → List ℕ → Type 0
StringAt m a s = ((j : ℕ) → j < length s → m (a + j) ≡ byte_at s j) × (m (a + length s) ≡ 0)

-- The strings stand at the addresses, between `low` and `high`.
pub StringsAt : (low high : ℕ) → (ℕ → ℕ) → List (List ℕ) → List ℕ → Type 0
StringsAt low high m [] [] = Unit
StringsAt low high m (s ∷ ss) (a ∷ as') =
    (low ≤ a) × (a + length s < high) × StringAt m a s × StringsAt low high m ss as'
StringsAt low high m _ _ = ⊥

-- The 32-bit word at an address.
abbrev pub word_at : (ℕ → ℕ) → ℕ → ℕ
word_at m a = m a + 256 * m (a + 1) + 65536 * m (a + 2) + 16777216 * m (a + 3)

pub WordsAt : (ℕ → ℕ) → ℕ → List ℕ → Type 0
WordsAt m a [] = Unit
WordsAt m a (w ∷ ws) = (word_at m a ≡ w) × WordsAt m (a + 4) ws

-- Nothing at `a` or above changed.
abbrev pub SameFrom : ℕ → (ℕ → ℕ) → (ℕ → ℕ) → Type 0
SameFrom a m m' = (b : ℕ) → a ≤ b → m' b ≡ m b

pub StringsAt-same :
    (low high : ℕ) (m m' : ℕ → ℕ) (ss : List (List ℕ)) (addresses : List ℕ) (low' : ℕ)
    → low' ≤ low
    → SameFrom low m m'
    → StringsAt low high m ss addresses
    → StringsAt low' high m' ss addresses
unfolding StringsAt
StringsAt-same low high m m' [] [] low' le same h = tt
StringsAt-same low high m m' (s ∷ ss) (a ∷ as') low' le same h = (
  omega (arith, h.0),
  h.1,
  (
    λ j lt. same (a + j) (omega (arith, h.0)) ∙ h.2.0 j lt,
    same (a + length s) (omega (arith, h.0)) ∙ h.2.1,
  ),
  StringsAt-same low high m m' ss as' low' le same h.3,
)
StringsAt-same low high m m' [] (a ∷ as') low' le same h = absurd h
StringsAt-same low high m m' (s ∷ ss) [] low' le same h = absurd h

-- The addresses of strings below `high` are words.
pub StringsAt-words :
    (low high : ℕ) (m : ℕ → ℕ) (ss : List (List ℕ)) (addresses : List ℕ)
    → high < 2 ^ 32
    → StringsAt low high m ss addresses
    → All (λ w. w < 2 ^ 32) addresses
unfolding StringsAt
StringsAt-words low high m [] [] small h = tt
StringsAt-words low high m (s ∷ ss) (a ∷ as') small h =
    (omega (arith, h.1), StringsAt-words low high m ss as' small h.3)
StringsAt-words low high m [] (a ∷ as') small h = absurd h
StringsAt-words low high m (s ∷ ss) [] small h = absurd h

pub WordsAt-same :
    (m m' : ℕ → ℕ) (a : ℕ) (ws : List ℕ) → SameFrom a m m' → WordsAt m a ws → WordsAt m' a ws
unfolding WordsAt
WordsAt-same m m' a [] same h = tt
WordsAt-same m m' a (w ∷ ws) same h = (
  rw
      (
        same a (omega arith),
        same (a + 1) (omega arith),
        same (a + 2) (omega arith),
        same (a + 3) (omega arith),
      )
      h.0,
  WordsAt-same m m' (a + 4) ws (λ b le. same b (omega arith)) h.1,
)

-- One push.
module _ (st : Stack) (bs : List ℕ) (len : ℕ) (fits : len ≤ st.esp) (word : st.esp < 2 ^ 32) where
  pub push_esp : (push st bs len).esp ≡ st.esp - len
  unfolding push
  push_esp = omega (arith, fits, word)

  pub push_keeps : SameFrom st.esp st.memory (push st bs len).memory
  unfolding push
  push_keeps b le = ground (arith, push_esp, fits, word)

  pub push_at : (j : ℕ) → j < len → (push st bs len).memory (st.esp - len + j) ≡ byte_at bs j
  unfolding push
  push_at j lt =
      if-true
        (leb (sub_32 st.esp len) (st.esp - len + j)
          && ltb (st.esp - len + j) (sub_32 st.esp len + len))
        _ _ (ground (arith, lt, fits, word))
      ∙ ap (byte_at bs) (omega (arith, lt, fits, word))

byte_at-end : (s : List ℕ) (j : ℕ) → length s ≤ j → byte_at s j ≡ 0
byte_at-end [] j le = refl
byte_at-end (c ∷ cs) j le = ground (arith, byte_at-end cs (j - 1))

pub word_push :
    (st : Stack) (w : ℕ)
    → 4 ≤ st.esp
    → st.esp < 2 ^ 32
    → w < 2 ^ 32
    → word_at (push_word st w).memory (st.esp - 4) ≡ w
word_push st w fits word small =
    let m = (push_word st w).memory in
    let at = push_at st (bytes_of w) 4 fits word in
    let b0 : m (st.esp - 4) ≡ w % 256 = ap m (omega arith) ∙ at 0 (omega arith) in
    let b1 : m (st.esp - 4 + 1) ≡ w / 256 % 256 = at 1 (omega arith) in
    let b2 : m (st.esp - 4 + 2) ≡ w / 65536 % 256 = at 2 (omega arith) in
    let b3 : m (st.esp - 4 + 3) ≡ w / 16777216 % 256 = at 3 (omega arith) in
    omega (arith, b0, b1, b2, b3)

-- The strings are where `push_strings` says, and nothing above changed.
pub record PushedStrings (st : Stack) (ss : List (List ℕ)) (st' : Stack) (addresses : List ℕ)
    : Type 0 where
  pub esp : st'.esp + total ss ≡ st.esp
  pub at : StringsAt st'.esp st.esp st'.memory ss addresses
  pub keeps : SameFrom st.esp st.memory st'.memory
  pub number : length addresses ≡ length ss

pub push_strings_lem :
    (st : Stack) (ss : List (List ℕ))
    → total ss ≤ st.esp
    → st.esp < 2 ^ 32
    → PushedStrings st ss (push_strings st ss).0 (push_strings st ss).1
unfolding push_strings StringsAt
push_strings_lem st [] fits word = record {
  esp = omega arith;
  at = tt;
  keeps = λ b le. refl;
  number = refl;
}
push_strings_lem st (s ∷ ss) fits word =
    let h = push_strings_lem st ss (omega (arith, fits)) word in
    let st' = (push_strings st ss).0 in
    let room : length s + 1 ≤ st'.esp = omega (arith, h.esp, fits) in
    let small : st'.esp < 2 ^ 32 = omega (arith, h.esp, word) in
    let down = push_esp st' s (length s + 1) room small in
    let keeps = push_keeps st' s (length s + 1) room small in
    let written : (j : ℕ)
        → j < length s + 1
        → (push_string st' s).memory ((push_string st' s).esp + j) ≡ byte_at s j =
      λ j lt.
        ap (λ a. (push_string st' s).memory (a + j)) down
        ∙ push_at st' s (length s + 1) room small j lt in
    record {
      esp = omega (arith, down, h.esp, room);
      at = (
        omega arith,
        omega (arith, down, h.esp, room),
        (
          λ j lt. written j (omega (arith, lt)),
          written (length s) (omega arith) ∙ byte_at-end s (length s) (omega arith),
        ),
        StringsAt-same st'.esp st.esp st'.memory (push_string st' s).memory ss
            (push_strings st ss).1 (push_string st' s).esp (omega (arith, down)) keeps h.at,
      );
      keeps = λ b le. keeps b (omega (arith, h.esp)) ∙ h.keeps b le;
      number = omega (arith, h.number);
    }

pub record PushedWords (st : Stack) (ws : List ℕ) (st' : Stack) : Type 0 where
  pub esp : st'.esp + 4 * length ws ≡ st.esp
  pub at : WordsAt st'.memory st'.esp ws
  pub keeps : SameFrom st.esp st.memory st'.memory

pub push_words_lem :
    (st : Stack) (ws : List ℕ)
    → 4 * length ws ≤ st.esp
    → st.esp < 2 ^ 32
    → All (λ w. w < 2 ^ 32) ws
    → PushedWords st ws (push_words st ws)
unfolding push_words WordsAt
push_words_lem st [] fits word small = record { esp = omega arith; at = tt; keeps = λ b le. refl }
push_words_lem st (w ∷ ws) fits word small =
    let h = push_words_lem st ws (omega (arith, fits)) word small.1 in
    let st' = push_words st ws in
    let room : 4 ≤ st'.esp = omega (arith, h.esp, fits) in
    let under : st'.esp < 2 ^ 32 = omega (arith, h.esp, word) in
    let down = push_esp st' (bytes_of w) 4 room under in
    let keeps = push_keeps st' (bytes_of w) 4 room under in
    record {
      esp = omega (arith, down, h.esp, room);
      at = (
        ap (word_at (push_word st' w).memory) down ∙ word_push st' w room under small.0,
        subst (λ a. WordsAt (push_word st' w).memory a ws) (omega (arith, down, room))
            (WordsAt-same st'.memory (push_word st' w).memory st'.esp ws keeps h.at),
      );
      keeps = λ b le. keeps b (omega (arith, h.esp)) ∙ h.keeps b le;
    }

pub record Aligned (n : ℕ) (st st' : Stack) : Type 0 where
  pub esp : (st'.esp % 4 ≡ 0) × (st'.esp + n ≡ st.esp)
  pub keeps : SameFrom st.esp st.memory st'.memory

align-more : (n : ℕ) (st : Stack) → st.esp % 4 ≡ suc n → align (suc n) st ≡ align n (push st [] 1)
unfolding align
align-more n st e = if-false (st.esp % 4 == 0) _ _ (ground arith)

align-done : (n : ℕ) (st : Stack) → st.esp % 4 ≡ 0 → align n st ≡ st
unfolding align
align-done zero st e = refl
align-done (suc n) st e = if-true (st.esp % 4 == 0) _ _ (ground arith)

pub align_lem :
    (n : ℕ) (st : Stack) → st.esp % 4 ≡ n → 4 ≤ st.esp → st.esp < 2 ^ 32 → Aligned n st (align n st)
align_lem zero st e fits word =
    subst (Aligned 0 st) (sym (align-done 0 st e))
      (record { esp = (e, omega arith); keeps = λ b le. refl })
align_lem (suc n) st e fits word =
    let down = push_esp st [] 1 (omega arith) word in
    let h =
      align_lem n (push st [] 1) (omega (arith, down, e)) (omega (arith, down, e, fits))
        (omega (arith, down, word)) in
    subst (Aligned (suc n) st) (sym (align-more n st e)) (record {
      esp = (h.esp.0, omega (arith, h.esp.1, down));
      keeps = λ b le. h.keeps b (omega (arith, down)) ∙ push_keeps st [] 1 (omega arith) word b le;
    })
