-- ===== src/Process/Arguments/Layout.antt =====
-- The stack that `construct_stack` of src/userprog/process.c hands to a new process.
use operating_system.Common.{
  ℕ, zero, suc, ◌+◌, ◌*◌, ◌-◌, ◌%◌, ◌^◌, ◌≤◌, ◌<◌, ◌≡◌, refl, ap, sym, subst, ◌∙◌, Option, none,
  some, List, [], ◌∷◌, ◌⊎◌, length, arith, if-false, Bool-cases, inl, inr,
}
use operating_system.Frame.{phys_base}
use operating_system.Swap.{pgsize}
use operating_system.Process.Arguments.{
  max_cmd_len, max_argc, strlcpy, is_space, skip_spaces, take_token, strtok_r, tokens, Stack,
  bytes_of, push_word, push_strings, align, push_words, construct_stack,
}
use operating_system.Process.Arguments.Readback.{
  total, StringsAt, word_at, WordsAt, SameFrom, StringsAt-words, StringsAt-same, WordsAt-same,
  push_esp, push_keeps, word_push, push_strings_lem, push_words_lem, align_lem,
}

-- How much room the tokens need.
length-strlcpy : (cs : List ℕ) (size : ℕ) → 0 < size → length (strlcpy cs size) + 1 ≤ size
length-strlcpy [] size pos = omega arith
length-strlcpy (c ∷ cs) size pos = ground (arith, length-strlcpy cs (size - 1))

length-skip_spaces : (cs : List ℕ) → length (skip_spaces cs) ≤ length cs
unfolding skip_spaces
length-skip_spaces [] = omega arith
length-skip_spaces (c ∷ cs) = ground (arith, length-skip_spaces cs)

length-take_token : (cs : List ℕ) → length (take_token cs).0 + length (take_token cs).1 ≤ length cs
unfolding take_token
length-take_token [] = omega arith
length-take_token (c ∷ cs) = ground (arith, length-take_token cs)

-- A token and its delimiter are gone, or the string is at its end.
take_token-used :
    (cs : List ℕ)
    → (length (take_token cs).0 + 1 + length (take_token cs).1 ≤ length cs)
      ⊎ (((take_token cs).1 ≡ []) × (length (take_token cs).0 ≤ length cs))
unfolding take_token
take_token-used [] = inr (refl, omega arith)
take_token-used (c ∷ cs) = elim (Bool-cases (is_space c)) [
  | inl e ↦ inl (ground (arith, e))
  | inr e ↦ elim (take_token-used cs) [
    | inl h ↦ inl (ground (arith, e, h))
    | inr h ↦ inr (
      ap (λ (t : List ℕ × List ℕ). t.1) (if-false (is_space c) _ _ e) ∙ h.0,
      ground (arith, e, h.1),
    )
  ]
]

tokens-nil : (n : ℕ) → tokens n [] ≡ []
unfolding tokens strtok_r skip_spaces
tokens-nil zero = refl
tokens-nil (suc n) = refl

pub total-tokens : (n : ℕ) (s : List ℕ) → total (tokens n s) ≤ length s + 1
unfolding tokens strtok_r
total-tokens zero s = omega arith
total-tokens (suc n) s = by_rest (total-tokens n) (skip_spaces s) (length-skip_spaces s)
  where
    by_rest :
        ((r : List ℕ) → total (tokens n r) ≤ length r + 1)
        → (cs : List ℕ) → length cs ≤ length s
        → total
            (elim (elim cs as (λ x. Option (List ℕ × List ℕ)) [
              | [] ↦ none
              | c ∷ cs ↦ some (take_token (c ∷ cs))
            ])
              as (λ x. List (List ℕ)) [ none ↦ [] | some t ↦ t.0 ∷ tokens n t.1 ])
          ≤ length s + 1
    by_rest ih [] le = omega arith
    by_rest ih (c ∷ cs) le = elim (take_token-used (c ∷ cs)) [
      | inl h ↦ omega (arith, h, le, ih (take_token (c ∷ cs)).1)
      | inr h ↦
          let none_left = ap total (ap (tokens n) h.0 ∙ tokens-nil n) in
          omega (arith, h.1, le, none_left)
    ]

pub length-tokens : (n : ℕ) (s : List ℕ) → length (tokens n s) ≤ n
unfolding tokens
length-tokens zero s = omega arith
length-tokens (suc n) s = by_token (length-tokens n) (strtok_r s)
  where
    by_token :
        ((r : List ℕ) → length (tokens n r) ≤ n)
        → (o : Option (List ℕ × List ℕ))
        → length (elim o [ none ↦ [] | some t ↦ t.0 ∷ tokens n t.1 ]) ≤ suc n
    by_token ih none = omega arith
    by_token ih (some t) = omega (arith, ih t.1)

-- One word pushed.
record PushedWord (st : Stack) (w : ℕ) (st' : Stack) : Type 0 where
  pub esp : st'.esp + 4 ≡ st.esp
  pub at : word_at st'.memory st'.esp ≡ w
  pub keeps : SameFrom st.esp st.memory st'.memory

push_word_lem :
    (st : Stack) (w : ℕ)
    → 4 ≤ st.esp
    → st.esp < 2 ^ 32
    → w < 2 ^ 32
    → PushedWord st w (push_word st w)
push_word_lem st w fits word small =
    let down = push_esp st (bytes_of w) 4 fits word in
    record {
      esp = omega (arith, down, fits);
      at = ap (word_at (push_word st w).memory) down ∙ word_push st w fits word small;
      keeps = push_keeps st (bytes_of w) 4 fits word;
    }

word_at-same : (m m' : ℕ → ℕ) (a : ℕ) → SameFrom a m m' → word_at m' a ≡ word_at m a
word_at-same m m' a same = rw (
  same a (omega arith),
  same (a + 1) (omega arith),
  same (a + 2) (omega arith),
  same (a + 3) (omega arith),
)

-- What a program finds above its stack pointer: the return address 0, `argc`, `argv`, the pointers
-- to the arguments with a null behind them, and the arguments.
pub record HasArguments (argv : List (List ℕ)) (high : ℕ) (st : Stack) : Type 0 where
  pub aligned : st.esp % 4 ≡ 0
  pub in_page : high ≤ st.esp + pgsize
  pub return_address : word_at st.memory st.esp ≡ 0
  pub argc : word_at st.memory (st.esp + 4) ≡ length argv
  pub argv_base : word_at st.memory (st.esp + 8) ≡ st.esp + 12
  pub addresses : List ℕ
  pub pointers : WordsAt st.memory (st.esp + 12) addresses
  pub number : length addresses ≡ length argv
  pub null : word_at st.memory (st.esp + 12 + 4 * length argv) ≡ 0
  pub strings : StringsAt (st.esp + 16 + 4 * length argv) high st.memory argv addresses

-- The pushes that follow the strings.
below_strings :
    (argv : List (List ℕ)) (addresses : List ℕ) (high low : ℕ) (st : Stack)
    → length addresses ≡ length argv
    → length argv ≤ max_argc
    → low ≤ high
    → high < 2 ^ 32
    → high ≤ low + 128
    → 1024 ≤ low
    → st.esp ≡ low
    → StringsAt low high st.memory argv addresses
    → let st2 = push_word (align (st.esp % 4) st) 0 in
      let st3 = push_words st2 addresses in
      HasArguments argv high (push_word (push_word (push_word st3 st3.esp) (length argv)) 0)
below_strings argv addresses high low st number few le small near room at strings =
    let al =
      align_lem (st.esp % 4) st refl (omega (arith, at, room)) (omega (arith, at, le, small)) in
    let st1 = align (st.esp % 4) st in
    let p0 =
      push_word_lem st1 0 (omega (arith, al.esp.1, at, room))
        (omega (arith, al.esp.1, at, le, small)) (omega arith) in
    let st2 = push_word st1 0 in
    let e2 : st2.esp + 4 + st.esp % 4 ≡ low = omega (arith, p0.esp, al.esp.1, at) in
    let ws =
      push_words_lem st2 addresses (omega (arith, e2, number, few, room))
        (omega (arith, e2, le, small))
        (StringsAt-words low high st.memory argv addresses small strings) in
    let st3 = push_words st2 addresses in
    let e3 : st3.esp + 4 * length argv + 4 + st.esp % 4 ≡ low = omega (arith, ws.esp, e2, number) in
    let p1 =
      push_word_lem st3 st3.esp (omega (arith, e3, few, room)) (omega (arith, e3, le, small))
        (omega (arith, e3, le, small)) in
    let st4 = push_word st3 st3.esp in
    let p2 =
      push_word_lem st4 (length argv) (omega (arith, p1.esp, e3, few, room))
        (omega (arith, p1.esp, e3, le, small)) (omega (arith, few)) in
    let st5 = push_word st4 (length argv) in
    let p3 =
      push_word_lem st5 0 (omega (arith, p2.esp, p1.esp, e3, few, room))
        (omega (arith, p2.esp, p1.esp, e3, le, small)) (omega arith) in
    let st6 = push_word st5 0 in
    let at5 : st6.esp + 4 ≡ st5.esp = p3.esp in
    let at4 : st6.esp + 8 ≡ st4.esp = omega (arith, p3.esp, p2.esp) in
    let at3 : st6.esp + 12 ≡ st3.esp = omega (arith, p3.esp, p2.esp, p1.esp) in
    let at2 : st6.esp + 12 + 4 * length argv ≡ st2.esp = omega (arith, at3, ws.esp, number) in
    let k4 : SameFrom st4.esp st4.memory st6.memory =
      λ b ge. p3.keeps b (omega (arith, at5, at4)) ∙ p2.keeps b ge in
    let k3 : SameFrom st3.esp st3.memory st6.memory =
      λ b ge. k4 b (omega (arith, at3, at4)) ∙ p1.keeps b ge in
    let k2 : SameFrom st2.esp st2.memory st6.memory =
      λ b ge. k3 b (omega (arith, at2, at3)) ∙ ws.keeps b ge in
    let k0 : SameFrom low st.memory st6.memory = λ b ge.
      k2 b (omega (arith, e2))
      ∙ p0.keeps b (omega (arith, p0.esp, e2))
      ∙ al.keeps b (omega (arith, at)) in
    record {
      aligned = omega (arith, at2, p0.esp, al.esp.0);
      in_page = omega (arith, at2, e2, few, near);
      return_address = p3.at;
      argc =
          ap (word_at st6.memory) at5 ∙ word_at-same st5.memory st6.memory st5.esp p3.keeps ∙ p2.at;
      argv_base =
          ap (word_at st6.memory) at4
          ∙ word_at-same st4.memory st6.memory st4.esp k4
          ∙ p1.at
          ∙ sym at3;
      addresses = addresses;
      pointers =
          subst (λ a. WordsAt st6.memory a addresses) (sym at3)
            (WordsAt-same st3.memory st6.memory st3.esp addresses k3 ws.at);
      number = number;
      null = ap (word_at st6.memory) at2 ∙ word_at-same st2.memory st6.memory st2.esp k2 ∙ p0.at;
      strings =
          StringsAt-same low high st.memory st6.memory argv addresses
            (st6.esp + 16 + 4 * length argv) (omega (arith, at2, e2)) k0 strings;
    }

-- From the top of user memory and for every command line, `construct_stack` leaves a stack pointer
-- that is aligned to 4 and at most a page lower, and above it the return address 0, `argc`, `argv`,
-- the pointers to the arguments with a null behind them, and each argument with its zero at its
-- pointer.
pub construct_stack_lem :
    (cmdline : List ℕ) (memory : ℕ → ℕ)
    → HasArguments
        (tokens max_argc (strlcpy cmdline max_cmd_len))
        phys_base
        (construct_stack cmdline (record { esp = phys_base; memory = memory }))
unfolding construct_stack
construct_stack_lem cmdline memory =
    let argv = tokens max_argc (strlcpy cmdline max_cmd_len) in
    let start : Stack = record { esp = phys_base; memory = memory } in
    let used : total argv ≤ 128 = omega (
      arith,
      total-tokens max_argc (strlcpy cmdline max_cmd_len),
      length-strlcpy cmdline max_cmd_len (omega arith),
    ) in
    let h = push_strings_lem start argv (omega (arith, used)) (omega arith) in
    let st1 = (push_strings start argv).0 in
    below_strings argv (push_strings start argv).1 phys_base st1.esp st1 h.number
      (length-tokens max_argc (strlcpy cmdline max_cmd_len)) (omega (arith, h.esp)) (omega arith)
      (omega (arith, h.esp, used)) (omega (arith, h.esp, used)) refl h.at
