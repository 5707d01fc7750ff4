-- ===== src/Page.antt =====
-- src/vm/page.c: a page of a process is brought into a frame. The state is that of src/vm/frame.c
-- with the open files; `Filesys_lock` orders the accesses and has no state here. What can fail for
-- want of kernel memory is an argument: `allocated` for the malloc of `struct frame`, `bounce` for
-- the one in `inode_read_at`, `mapped` for the page table that `pagedir_set_page` may need. `none`
-- is a PANIC, a failed ASSERT or a NULL file.
pub mod Access
pub mod Restore
pub mod Roundtrip
mod Tests
use operating_system.Common.{
  ℕ, zero, suc, ◌+◌, ◌*◌, ◌-◌, ◌/◌, ◌%◌, ◌^◌, Bool, true, false, not, ◌&&◌, Option, none, some,
  List, [], ◌∷◌, ◌==◌, ltb, leb, if◌then◌else◌, length, ◌>>=◌, ◌>>◌, assert,
}
use operating_system.Block.{Bytes}
use operating_system.Palloc.{Memory, Flags}
use operating_system.Swap.{pgsize, Swap, swap_in}
use operating_system.Frame.{
  phys_base, is_user_vaddr, PageType, page_bin, page_anon, page_mmap, Page, Pte, Vm, update_pte,
  update_page, is_null, is_anon, frame_alloc, frame_free, frame_install, frame_pin_resident,
}
use operating_system.File.{Files, file_read_at}

-- STACK_LIMIT
abbrev pub stack_limit : ℕ
stack_limit = 8 * 1024 * 1024

abbrev pub pal_user_only : Flags
pal_user_only = record { pal_assert = false; pal_zero = false; pal_user = true }

-- `pagedir_set_page`, for page number `upage` of the process of thread `t`.
pub pagedir_set_page :
    (ℕ → ℕ → Pte) → (t upage : ℕ) → (mapped : Bool) → Option (Bool × (ℕ → ℕ → Pte))
pagedir_set_page pte t upage mapped = do
  assert (is_user_vaddr (upage * pgsize))
  if mapped
      then assert (not (pte t upage).present)
        >> some (
          true,
          update_pte pte t upage (λ e. record { present = true; accessed = false; dirty = false }),
        )
      else some (false, pte)

abbrev pub put_bytes : Vm → ℕ → Bytes → Vm
put_bytes v kpage bytes =
    let change : ℕ → ℕ → ℕ = λ p. if p == kpage then bytes else v.memory.bytes p in
    record v { memory = record v.memory { bytes = change } }

-- Byte `j` of what `file_read_at` stored.
abbrev pub byte_at : List ℕ → ℕ → ℕ
byte_at [] j = 0
byte_at (b ∷ bs) j = if j == 0 then b else byte_at bs (j - 1)

-- A frame that held `old`, after the bytes were stored and `zero_bytes` cleared behind them.
abbrev pub loaded : List ℕ → (zero_bytes : ℕ) → Bytes → Bytes
loaded bs zero_bytes old j =
    if ltb j (length bs) then byte_at bs j else if ltb j (length bs + zero_bytes) then 0 else old j

-- The first part of `handle_mm_fault`: the frame's content as the page's origin gives it, or
-- `none` if the file is too short.
pub page_content : Files → (bounce : Bool) → Page → Bytes → Option (Option Bytes × Files)
page_content files bounce p old =
    if is_anon p.kind then some (some (λ j. if ltb j pgsize then 0 else old j), files) else (do
      file ← p.file
      (bs, files') ← file_read_at files bounce file p.read_bytes p.ofs
      some (if length bs == p.read_bytes then some (loaded bs p.zero_bytes old) else none, files'))

-- The content comes back from the swap device, if the page is there.
pub from_slot : Vm → ℕ → (kpage : ℕ) → Option ℕ → Option Vm
from_slot v p kpage none = some v
from_slot v p kpage (some slot) = swap_in v.swap slot (v.memory.bytes kpage) >>= (λ (bytes, swap').
    some (
      put_bytes
        (record v {
          swap = swap';
          page = update_page v.page p (λ q. record q { swap_slot = none });
        })
        kpage bytes))

pub from_swap : Vm → ℕ → (kpage : ℕ) → Option Vm
from_swap v p kpage = from_slot v p kpage (v.page p).swap_slot

abbrev pub is_mmap : PageType → Bool
is_mmap page_mmap = true
is_mmap _ = false

-- The last part: the page is mapped, or the frame given back.
pub install : Vm → (current p kpage : ℕ) → (was_swapped mapped : Bool) → Option (Bool × Vm)
install v current p kpage was_swapped mapped = do
  (done, pte') ← pagedir_set_page v.pte current (v.page p).upage mapped
  if done
      then some (
        true,
        frame_install
            (record v {
              pte =
                  if is_mmap (v.page p).kind && was_swapped
                  then update_pte pte' current (v.page p).upage (λ e. record e { dirty = true })
                  else pte';
              page = update_page v.page p (λ q. record q { kpage = some kpage });
            })
            kpage p,
      )
      else (frame_free v kpage >>= λ v'. some (false, v'))

-- `handle_mm_fault` of page `p` in the running thread `current`.
pub handle_mm_fault :
    Vm → Files → (current : ℕ) → (allocated bounce mapped : Bool) → ℕ → Option (Bool × Vm × Files)
handle_mm_fault v files current allocated bounce mapped p = do
  assert (is_null (v.page p).kpage)
  (got, v1) ← frame_alloc v current allocated pal_user_only (v.page p).upage
  elim got [
    | none ↦ some (false, v1, files)
    | some kpage ↦
        page_content files bounce (v1.page p) (v1.memory.bytes kpage) >>= (λ (content, files').
          elim content [
            | none ↦ frame_free v1 kpage >>= λ v2. some (false, v2, files')
            | some bytes ↦ do
              v2 ← from_swap (put_bytes v1 kpage bytes) p kpage
              (done, v3) ← install v2 current p kpage (not (is_null (v1.page p).swap_slot)) mapped
              some (done, v3, files')
          ])
  ]

-- One round of the loop of `page_pin`: `none` to go round again, else what it returns.
pub pin_once :
    Vm
    → Files
    → (current : ℕ) → (allocated bounce mapped : Bool) → ℕ
    → Option (Option Bool × Vm × Files)
pin_once v files current allocated bounce mapped p =
    let (resident, v') = frame_pin_resident v p in
    if resident
    then some (some true, v', files)
    else (handle_mm_fault v' files current allocated bounce mapped p
        >>= (λ (done, v2, files'). some (if done then none else some false, v2, files')))

-- The comparisons are those of 32-bit pointers, so `esp - 32` wraps.
pub page_is_stack_access : (addr esp : ℕ) → Bool
page_is_stack_access addr esp =
    is_user_vaddr addr
    && leb (phys_base - stack_limit) addr
    && leb ((esp + 2 ^ 32 - 32) % 2 ^ 32) addr

-- The table `Spt` of a process, as the pages in it; a page's key is `upage`. The arguments here are
-- addresses, and a page records their page number. `page_hash` and `page_less` read no other field.
unfoldable pub page_find : List Page → (vaddr : ℕ) → Option Page
page_find [] vaddr = none
page_find (p ∷ ps) vaddr =
    let rest = page_find ps vaddr in if p.upage == vaddr / pgsize then some p else rest

abbrev pub is_absent : Option Page → Bool
is_absent none = true
is_absent (some p) = false

-- Whether the page was added, and the table: not if malloc fails or the key is there already.
unfoldable pub page_insert :
    List Page → (allocated : Bool) → (upage : ℕ) → Page → Option (Bool × List Page)
page_insert spt allocated upage p = do
  assert (upage % pgsize == 0)
  some (if allocated && is_absent (page_find spt upage) then (true, p ∷ spt) else (false, spt))

unfoldable pub page_add_file :
    List Page
    → (allocated : Bool) → (upage file ofs read_bytes zero_bytes : ℕ) → (writable : Bool)
    → Option (Bool × List Page)
page_add_file spt allocated upage file ofs read_bytes zero_bytes writable =
    page_insert spt allocated upage (record {
      kind = page_bin;
      upage = upage / pgsize;
      kpage = none;
      writable = writable;
      file = some file;
      ofs = ofs;
      read_bytes = read_bytes;
      zero_bytes = zero_bytes;
      swap_slot = none;
    })

pub page_add_mmap :
    List Page
    → (allocated : Bool) → (upage file ofs read_bytes zero_bytes : ℕ) → Option (Bool × List Page)
page_add_mmap spt allocated upage file ofs read_bytes zero_bytes =
    page_insert spt allocated upage (record {
      kind = page_mmap;
      upage = upage / pgsize;
      kpage = none;
      writable = true;
      file = some file;
      ofs = ofs;
      read_bytes = read_bytes;
      zero_bytes = zero_bytes;
      swap_slot = none;
    })

pub page_add_anon :
    List Page → (allocated : Bool) → (upage : ℕ) → (writable : Bool) → Option (Bool × List Page)
page_add_anon spt allocated upage writable = page_insert spt allocated upage (record {
  kind = page_anon;
  upage = upage / pgsize;
  kpage = none;
  writable = writable;
  file = none;
  ofs = 0;
  read_bytes = 0;
  zero_bytes = pgsize;
  swap_slot = none;
})
