-- ===== src/Swap/Sample.antt =====
-- A swap device of five slots at which the theorems on src/vm/swap.c are applied.
use operating_system.Common.{ℕ, ◌+◌, ◌/◌, ◌%◌, ◌≡◌, refl, Bool, false, some, [], ◌∷◌, arith, ◌==◌}
use operating_system.Block.{Block}
use operating_system.Swap.{Swap}
use operating_system.Swap.Slots.{IsValid}

abbrev pub device : Block
device = record { size = 41; foreign = false; sectors = λ s k. s + k; read_cnt = 0; write_cnt = 0 }

-- Slot 0 is in use.
abbrev pub first_used : Swap
first_used = record {
  block = some device;
  bitmap = record { bit_cnt = 5; bits = (λ k. k == 0) ∷ [] };
}

abbrev pub only_zero : ℕ → Bool
only_zero j = j == 0

pub first_used-IsValid : IsValid first_used 5 only_zero
first_used-IsValid = record {
  used = record {
    cnt = refl;
    words = refl;
    agrees = λ j h.
        let q : j / 32 ≡ 0 = omega arith in
        let r : j % 32 ≡ j = omega arith in rw (q, r) (ground arith);
  };
  dev = device;
  has_dev = refl;
  fits = omega arith;
  own = refl;
}
