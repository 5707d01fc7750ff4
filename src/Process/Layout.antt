-- ===== src/Process/Layout.antt =====
-- The segments that `validate_segment` of src/userprog/process.c accepts, and where they lie.
use operating_system.Common.{ℕ, ◌+◌, ◌*◌, ◌-◌, ◌/◌, ◌%◌, ◌^◌, ◌≤◌, ◌<◌, ◌≡◌, ◌∙◌, true, arith}
use operating_system.Frame.{phys_base}
use operating_system.Swap.{pgsize}
use operating_system.Process.{Phdr, validate_segment, round_up, segment_of}

-- The fields are words.
pub record IsWords (phdr : Phdr) : Type 0 where
  pub vaddr : phdr.p_vaddr < 2 ^ 32
  pub filesz : phdr.p_filesz < 2 ^ 32
  pub memsz : phdr.p_memsz < 2 ^ 32

-- What `validate_segment` checks, without wrap.
pub record Accepted (phdr : Phdr) : Type 0 where
  pub congruent : phdr.p_offset % pgsize ≡ phdr.p_vaddr % pgsize
  pub sizes : phdr.p_filesz ≤ phdr.p_memsz
  pub nonempty : 0 < phdr.p_memsz
  pub above : pgsize ≤ phdr.p_vaddr
  pub below : phdr.p_vaddr + phdr.p_memsz < phys_base

pub validate-Accepted :
    (phdr : Phdr) (file_length : ℕ)
    → IsWords phdr
    → validate_segment phdr file_length ≡ true
    → Accepted phdr
unfolding validate_segment
validate-Accepted phdr file_length w e = record {
  congruent = ground (arith, e);
  sizes = ground (arith, e);
  nonempty = ground (arith, e);
  above = ground (arith, e);
  below = ground (arith, e, w.vaddr, w.memsz);
}

-- A segment of `n` whole pages: the ASSERTs of `load_segment` hold, and the pages cover the segment
-- in memory, start no lower than the second page and end below PHYS_BASE.
pub record Laid (phdr : Phdr) (n : ℕ) : Type 0 where
  pub whole : (segment_of phdr).read_bytes + (segment_of phdr).zero_bytes ≡ n * pgsize
  pub mem_aligned : (segment_of phdr).mem_page % pgsize ≡ 0
  pub file_aligned : (segment_of phdr).file_page % pgsize ≡ 0
  pub starts : pgsize ≤ (segment_of phdr).mem_page
  pub before : (segment_of phdr).mem_page ≤ phdr.p_vaddr
  pub behind : phdr.p_vaddr + phdr.p_memsz ≤ (segment_of phdr).mem_page + n * pgsize
  pub ends : (segment_of phdr).mem_page + n * pgsize ≤ phys_base
  pub in_file : (segment_of phdr).file_page + n * pgsize ≤ phdr.p_offset + phdr.p_memsz + pgsize
  pub reads :
      0 < phdr.p_filesz
      → phdr.p_vaddr + phdr.p_filesz ≡ (segment_of phdr).mem_page + (segment_of phdr).read_bytes

rounded : (x : ℕ) → x + 4096 ≤ 2 ^ 32 → round_up (x % 2 ^ 32) ≡ (x + 4095) / pgsize * pgsize
rounded x h = omega arith

fills : (r w : ℕ) → r ≤ w → w < 2 ^ 32 → r + (w + 2 ^ 32 - r) % 2 ^ 32 ≡ w
fills r w le lt = omega arith

pub Accepted-Laid : (phdr : Phdr) → Accepted phdr → (n : ℕ) × Laid phdr n
unfolding segment_of
Accepted-Laid phdr a = (
  ((phdr.p_vaddr % pgsize + phdr.p_memsz + 4095) / pgsize),
  record {
    whole =
        let w = rounded (phdr.p_vaddr % pgsize + phdr.p_memsz) (omega (arith, a.below)) in
        fills _ _ (ground (arith, a.sizes, a.below, w)) (omega (arith, w, a.below)) ∙ w;
    mem_aligned = omega arith;
    file_aligned = omega arith;
    starts = omega (arith, a.above);
    before = omega arith;
    behind = omega arith;
    ends = omega (arith, a.below);
    in_file = omega (arith, a.congruent);
    reads = λ p. ground (arith, a.below, a.sizes, p);
  },
)
