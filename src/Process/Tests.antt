-- ===== src/Process/Tests.antt =====
-- The theorems on src/userprog/process.c at a small executable and a short command line.
use operating_system.Common.{ℕ, ◌≡◌, refl, List, [], ◌∷◌}
use operating_system.Frame.{Page}
use operating_system.Frame.{phys_base}
use operating_system.Process.{Phdr}
use operating_system.Process.Arguments.{
  max_argc, max_cmd_len, strlcpy, skip_spaces, take_token, strtok_r, tokens, construct_stack,
}
use operating_system.Process.Arguments.Layout.{HasArguments, construct_stack_lem}

abbrev text : Phdr
text = record {
  p_type = 1;
  p_offset = 4148;
  p_vaddr = 0x08048034;
  p_filesz = 5000;
  p_memsz = 9000;
  p_flags = 5;
}

-- The command line `ls  -l`.
abbrev ls : List ℕ
ls = 108 ∷ 115 ∷ 32 ∷ 32 ∷ 45 ∷ 108 ∷ []

ls-tokens : tokens max_argc ls ≡ (108 ∷ 115 ∷ []) ∷ (45 ∷ 108 ∷ []) ∷ []
unfolding tokens strtok_r skip_spaces take_token
ls-tokens = refl

construct_stack_lem_example :
    HasArguments
      (tokens max_argc (strlcpy ls max_cmd_len))
      phys_base
      (construct_stack ls (record { esp = phys_base; memory = λ a. 0 }))
construct_stack_lem_example = construct_stack_lem ls (λ a. 0)
