-- ===== src/Frame/Tests.antt =====
-- Three frames, and the theorems on src/vm/frame.c at them.
use operating_system.Common.{
  ℕ, ◌+◌, ◌%◌, ◌≡◌, refl, Bool, true, false, Option, some, none, [], ◌∷◌, arith,
}
use operating_system.Palloc.{Flags}
use operating_system.Palloc.Sample.{memory}
use operating_system.Swap.Sample.{first_used, only_zero, first_used-IsValid}
use operating_system.Frame.{Frame, page_anon, Vm, Choice, choose, frame_evict, visit}
use operating_system.Frame.Evict.{Evicted, frame_evict_lem}

abbrev frame : ℕ → Option ℕ → Bool → Frame
frame t p pinned = record { kpage = 200 + t; upage = t; owner = t; page = p; pinned = pinned }

-- Frame 1 is pinned, and the page of frame 2 was accessed; the hand stands at frame 3, which holds
-- no page yet.
abbrev vm : Vm
vm = record {
  before = frame 1 (some 1) true ∷ frame 2 (some 2) false ∷ [];
  after = frame 3 none false ∷ [];
  pte = λ t u. record { present = true; accessed = true; dirty = false };
  page = λ p. record {
    kind = page_anon;
    upage = p % 1000;
    kpage = some (200 + p);
    writable = true;
    file = none;
    ofs = 0;
    read_bytes = 0;
    zero_bytes = 4096;
    swap_slot = none;
  };
  memory = memory;
  swap = first_used;
}

abbrev flags : Flags
flags = record { pal_assert = false; pal_zero = true; pal_user = true }

frame_evict_lem_example :
    (kpage : ℕ) × (v' : Vm) × (frame_evict vm flags ≡ some (kpage, v'))
    × Evicted vm v' 5 only_zero kpage
frame_evict_lem_example =
    frame_evict_lem vm flags 5 only_zero 3 first_used-IsValid (omega arith) refl (λ q. ground arith)
      (omega arith)

abbrev victim_of : Option Choice → ℕ
victim_of none = 0
victim_of (some c) = c.victim.kpage

-- The hand goes by frames 3, 1 and 2, and takes frame 2 the second time.
choose-run : victim_of (choose 6 vm.pte vm.before vm.after) ≡ 202
unfolding choose visit
choose-run = refl
