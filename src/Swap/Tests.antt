-- ===== src/Swap/Tests.antt =====
-- A swap device of five slots, and the theorems on src/vm/swap.c at it.
use operating_system.Common.{ℕ, ◌*◌, ◌/◌, ◌<◌, ◌≡◌, refl, true, some, [], ◌∷◌, arith}
use operating_system.Block.{Bytes}
use operating_system.Swap.{pgsize, Swap, swap_out, swap_in}
use operating_system.Swap.Slots.{IsValid, swap_in-swap_out}
use operating_system.Swap.Sample.{device, first_used, only_zero, first_used-IsValid}

-- One slot, in use.
abbrev full : Swap
full = record { block = some device; bitmap = record { bit_cnt = 1; bits = (λ k. true) ∷ [] } }

full-IsValid : IsValid full 1 (λ j. true)
full-IsValid = record {
  used = record {
    cnt = refl;
    words = refl;
    agrees = λ j h. let q : j / 32 ≡ 0 = omega arith in rw q;
  };
  dev = device;
  has_dev = refl;
  fits = omega arith;
  own = refl;
}

abbrev page : Bytes
page k = k * 7

abbrev old : Bytes
old k = 0

swap_in-swap_out_example :
    (slot : ℕ) × (s' : Swap) × (page' : Bytes) × (s'' : Swap) × (swap_out first_used page
      ≡ some (slot, s'))
    × (swap_in s' slot old ≡ some (page', s''))
    × ((j : ℕ) → j < pgsize → page' j ≡ page j)
    × IsValid s'' 5 only_zero
swap_in-swap_out_example = swap_in-swap_out page old 3 first_used-IsValid (omega arith) refl
