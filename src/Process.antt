-- ===== src/Process.antt =====
-- src/userprog/process.c: the segments of an executable, as `load` reads them, and the arguments
-- that `construct_stack` lays out. Addresses and sizes are 32-bit words. `none` is a failed ASSERT.
pub mod Layout
pub mod Load
pub mod Arguments
mod Tests
use operating_system.Common.{
  ℕ, zero, suc, ◌+◌, ◌*◌, ◌-◌, ◌/◌, ◌%◌, ◌^◌, Bool, true, false, not, ◌&&◌, ◌||◌, Option, none,
  some, List, [], ◌∷◌, ◌==◌, ltb, leb, if◌then◌else◌, length, ◌>>=◌, ◌>>◌, assert,
}
use operating_system.Frame.{Page}
use operating_system.Frame.{is_user_vaddr}
use operating_system.Swap.{pgsize}
use operating_system.Page.{page_add_file}

-- `struct Elf32_Phdr`, the fields that are read.
pub record Phdr : Type 0 where
  pub p_type : ℕ
  pub p_offset : ℕ
  pub p_vaddr : ℕ
  pub p_filesz : ℕ
  pub p_memsz : ℕ
  pub p_flags : ℕ

-- The end of a segment in memory, as `uint32_t` adds.
abbrev pub end_of : Phdr → ℕ
end_of phdr = (phdr.p_vaddr + phdr.p_memsz) % 2 ^ 32

unfoldable pub validate_segment : Phdr → (file_length : ℕ) → Bool
validate_segment phdr file_length =
    if not (phdr.p_offset % pgsize == phdr.p_vaddr % pgsize)
    then false
    else if ltb file_length phdr.p_offset
    then false
    else if ltb phdr.p_memsz phdr.p_filesz
    then false
    else if phdr.p_memsz == 0
    then false
    else if not (is_user_vaddr phdr.p_vaddr)
    then false
    else if not (is_user_vaddr (end_of phdr))
    then false
    else if ltb (end_of phdr) phdr.p_vaddr
    then false
    else if ltb phdr.p_vaddr pgsize
    then false
    else true

-- ROUND_UP to a page, as `uint32_t` computes it.
abbrev pub round_up : ℕ → ℕ
round_up x = (x + pgsize - 1) % 2 ^ 32 / pgsize * pgsize

-- What `load` passes to `load_segment` for a segment of type PT_LOAD.
pub record Segment : Type 0 where
  pub file_page : ℕ
  pub mem_page : ℕ
  pub read_bytes : ℕ
  pub zero_bytes : ℕ
  pub writable : Bool

pub segment_of : Phdr → Segment
segment_of phdr =
    let page_offset = phdr.p_vaddr % pgsize in
    let whole = round_up ((page_offset + phdr.p_memsz) % 2 ^ 32) in
    let read = if ltb 0 phdr.p_filesz then (page_offset + phdr.p_filesz) % 2 ^ 32 else 0 in
    record {
      file_page = phdr.p_offset / pgsize * pgsize;
      mem_page = phdr.p_vaddr / pgsize * pgsize;
      read_bytes = read;
      zero_bytes = (whole + 2 ^ 32 - read) % 2 ^ 32;
      writable = not (phdr.p_flags / 2 % 2 == 0);
    }

-- The loop of `load_segment`, on fuel; `allocated` says for which pages malloc succeeds. The inner
-- result is what the function returns with the table of pages; the fuel running out is `none`.
pub load_from :
    (fuel : ℕ)
    → (allocated : ℕ → Bool) → (file : ℕ) → (writable : Bool) → List Page
    → (upage page_ofs read_bytes zero_bytes : ℕ) → Option (Bool × List Page)
load_from zero allocated file writable spt upage page_ofs read_bytes zero_bytes =
    if ltb 0 read_bytes || ltb 0 zero_bytes then none else some (true, spt)
load_from (suc fuel) allocated file writable spt upage page_ofs read_bytes zero_bytes =
    let page_read_bytes = if ltb read_bytes pgsize then read_bytes else pgsize in
    let page_zero_bytes = pgsize - page_read_bytes in
    if ltb 0 read_bytes || ltb 0 zero_bytes
    then (page_add_file spt (allocated upage) upage file page_ofs page_read_bytes page_zero_bytes
          writable
        >>= (λ (added, spt').
            if added
            then load_from fuel allocated file writable spt' ((upage + pgsize) % 2 ^ 32)
                ((page_ofs + page_read_bytes) % 2 ^ 32) (read_bytes - page_read_bytes)
                ((zero_bytes + 2 ^ 32 - page_zero_bytes) % 2 ^ 32)
            else some (false, spt')))
    else some (true, spt)

-- `load_segment`; there are as many rounds as pages. An `off_t` goes by its 32-bit word, so that the
-- sign that `file_seek` tests is bit 31. The result is what the function returns, the table of
-- pages, and the position at which `file_seek` leaves the file.
pub load_segment :
    (allocated : ℕ → Bool) → (file : ℕ) → List Page → Segment → Option (Bool × List Page × ℕ)
load_segment allocated file spt s = do
  assert ((s.read_bytes + s.zero_bytes) % 2 ^ 32 % pgsize == 0)
  assert (s.mem_page % pgsize == 0)
  assert (s.file_page % pgsize == 0)
  assert (ltb s.file_page (2 ^ 31))
  (loaded, spt') ←
      load_from ((s.read_bytes + s.zero_bytes) / pgsize) allocated file s.writable spt s.mem_page
        s.file_page s.read_bytes s.zero_bytes
  some (loaded, spt', s.file_page)
