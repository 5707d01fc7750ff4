-- ===== src/Page/Tests.antt =====
-- The theorems on src/vm/page.c at a small memory.
use operating_system.Common.{ℕ, ◌+◌, ◌<◌, ◌≡◌, refl, true, false, some, none, [], ◌∷◌, arith}
use operating_system.Palloc.{Flags}
use operating_system.Palloc.Sample.{memory, sizes, all_free, memory-IsValid}
use operating_system.Swap.Sample.{first_used, only_zero, first_used-IsValid}
use operating_system.Frame.{Frame, page_anon, Vm, frame_evict}
use operating_system.File.{Files}
use operating_system.Inode.Sample.{disk, inode}
use operating_system.Swap.{pgsize}
use operating_system.Page.{handle_mm_fault}
use operating_system.Page.Roundtrip.{evict_then_fault}

abbrev frame : ℕ → Frame
frame t = record { kpage = 200 + t; upage = t; owner = t; page = some t; pinned = false }

-- Two frames with an anonymous page each.
abbrev vm : Vm
vm = record {
  before = frame 1 ∷ [];
  after = frame 2 ∷ [];
  pte = λ t u. record { present = true; accessed = true; dirty = false };
  page = λ p. record {
    kind = page_anon;
    upage = 10;
    kpage = some (200 + p);
    writable = true;
    file = none;
    ofs = 0;
    read_bytes = 0;
    zero_bytes = 4096;
    swap_slot = none;
  };
  memory = memory;
  swap = first_used;
}

abbrev flags : Flags
flags = record { pal_assert = false; pal_zero = true; pal_user = true }

abbrev files : Files
files = record {
  device = disk;
  inodes = λ i. inode;
  files = λ f. record { inode = 0; position = 0; deny_write = false };
  open_files = [];
}

evict_then_fault_example :
    (kpage : ℕ) × (v1 : Vm) × (v2 : Vm) × (p : ℕ) × (t : ℕ) × (kpage' : ℕ) × (frame_evict vm flags
      ≡ some (kpage, v1))
    × ((v1.page p).kpage ≡ none)
    × (handle_mm_fault v1 files t true true true p ≡ some (true, v2, files))
    × ((v2.page p).kpage ≡ some kpage')
    × ((j : ℕ) → j < pgsize → v2.memory.bytes kpage' j ≡ vm.memory.bytes kpage j)
evict_then_fault_example =
    evict_then_fault vm files flags 5 1 3 true only_zero {sizes = sizes} {taken = all_free}
      memory-IsValid first_used-IsValid (omega arith) (omega arith) (omega arith) refl refl
      (omega arith) (λ q. ground arith) (λ q. refl) (λ q. refl) (λ q t. refl)
