-- ===== src/Process/Arguments.antt =====
-- `construct_stack` of src/userprog/process.c, with `strtok_r` of src/lib/string.c for a space as
-- the delimiter. A C string is the list of its bytes before the zero. Memory is a function of the
-- address.
pub mod Readback
pub mod Layout
use operating_system.Common.{
  ℕ, zero, suc, ◌+◌, ◌*◌, ◌-◌, ◌/◌, ◌%◌, ◌^◌, Bool, true, false, Option, none, some, List, [], ◌∷◌,
  ◌++◌, ◌==◌, ltb, leb, ◌&&◌, if◌then◌else◌, length,
}
use operating_system.Frame.{phys_base}
use operating_system.Page.{byte_at}

abbrev pub max_cmd_len : ℕ
max_cmd_len = 128

abbrev pub max_argc : ℕ
max_argc = 64

-- `strlcpy`: the first `size - 1` bytes.
abbrev pub strlcpy : List ℕ → (size : ℕ) → List ℕ
strlcpy [] size = []
strlcpy (c ∷ cs) size = if ltb 1 size then c ∷ strlcpy cs (size - 1) else []

abbrev pub is_space : ℕ → Bool
is_space c = c == 32

unfoldable pub skip_spaces : List ℕ → List ℕ
skip_spaces [] = []
skip_spaces (c ∷ cs) = let rest = skip_spaces cs in if is_space c then rest else c ∷ cs

-- The bytes up to a delimiter, and what follows the delimiter.
unfoldable pub take_token : List ℕ → List ℕ × List ℕ
take_token [] = ([], [])
take_token (c ∷ cs) =
    let (token, rest) = take_token cs in if is_space c then ([], cs) else (c ∷ token, rest)

-- The next token and the new `save_ptr`.
unfoldable pub strtok_r : List ℕ → Option (List ℕ × List ℕ)
strtok_r s = elim (skip_spaces s) [ [] ↦ none | c ∷ cs ↦ some (take_token (c ∷ cs)) ]

-- The loop that fills `Argv`, with room for `n` more.
unfoldable pub tokens : (n : ℕ) → List ℕ → List (List ℕ)
tokens zero s = []
tokens (suc n) s = elim (strtok_r s) [ none ↦ [] | some t ↦ t.0 ∷ tokens n t.1 ]

pub record Stack : Type 0 where
  pub esp : ℕ
  pub memory : ℕ → ℕ

abbrev pub sub_32 : ℕ → ℕ → ℕ
sub_32 a b = (a + 2 ^ 32 - b) % 2 ^ 32

-- `esp` goes down by `len` bytes, and they are written.
pub push : Stack → List ℕ → (len : ℕ) → Stack
push st bs len =
    let esp' = sub_32 st.esp len in
    record {
      esp = esp';
      memory = λ a. if leb esp' a && ltb a (esp' + len) then byte_at bs (a - esp') else st.memory a;
    }

-- A string with its zero, and a 32-bit word, the low byte first.
abbrev pub push_string : Stack → List ℕ → Stack
push_string st s = push st s (length s + 1)

abbrev pub bytes_of : ℕ → List ℕ
bytes_of w = w % 256 ∷ w / 256 % 256 ∷ w / 65536 % 256 ∷ w / 16777216 % 256 ∷ []

abbrev pub push_word : Stack → ℕ → Stack
push_word st w = push st (bytes_of w) 4

-- The strings from the last to the first, with the addresses that `Argv` then holds.
pub push_strings : Stack → List (List ℕ) → Stack × List ℕ
push_strings st [] = (st, [])
push_strings st (s ∷ ss) =
    let (st', addresses) = push_strings st ss in
    let st'' = push_string st' s in (st'', st''.esp ∷ addresses)

-- The loop that aligns `esp`, with `n` rounds left; `esp % 4` rounds are enough.
pub align : ℕ → Stack → Stack
align zero st = st
align (suc n) st = let rest = align n (push st [] 1) in if st.esp % 4 == 0 then st else rest

pub push_words : Stack → List ℕ → Stack
push_words st [] = st
push_words st (w ∷ ws) = push_word (push_words st ws) w

pub construct_stack : List ℕ → Stack → Stack
construct_stack cmdline st =
    let argv = tokens max_argc (strlcpy cmdline max_cmd_len) in
    let (st1, addresses) = push_strings st argv in
    let st2 = push_word (align (st1.esp % 4) st1) 0 in
    let st3 = push_words st2 addresses in
    push_word (push_word (push_word st3 st3.esp) (length argv)) 0
