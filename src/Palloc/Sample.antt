-- ===== src/Palloc/Sample.antt =====
-- Two small pools of pages at which the theorems on src/threads/palloc.c are applied.
use operating_system.Common.{ℕ, ◌+◌, ◌/◌, ◌<◌, ◌≡◌, refl, Bool, true, false, [], ◌∷◌, arith}
use operating_system.Bitmap.{Bitmap, Word}
use operating_system.Bitmap.Refine.{Models}
use operating_system.Palloc.{Memory}
use operating_system.Palloc.Pages.{IsValid}

abbrev no_bits : Word
no_bits k = false

abbrev none_used : ℕ → Bitmap
none_used n = record { bit_cnt = n; bits = no_bits ∷ [] }

-- The kernel's pages are 100 to 103, the user's 200 to 207, all free.
abbrev pub memory : Memory
memory = record {
  kernel_pool = record { used_map = none_used 4; base = 100 };
  user_pool = record { used_map = none_used 8; base = 200 };
  bytes = λ p ofs. p + ofs;
}

abbrev pub sizes : Bool → ℕ
sizes true = 8
sizes false = 4

abbrev pub all_free : Bool → ℕ → Bool
all_free u j = false

none_used-Models : (n : ℕ) → 0 < n → n < 32 → Models (none_used n) n (λ j. false)
none_used-Models n pos small = record {
  cnt = refl;
  words = omega arith;
  agrees = λ j h. let q : j / 32 ≡ 0 = omega arith in rw q;
}

pub memory-IsValid : IsValid memory sizes all_free
memory-IsValid = record {
  maps = elim [
    | true ↦ none_used-Models 8 (omega arith) (omega arith)
    | false ↦ none_used-Models 4 (omega arith) (omega arith)
  ];
  apart = omega arith;
}
