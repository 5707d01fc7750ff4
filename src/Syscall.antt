-- ===== src/Syscall.antt =====
-- The system calls of src/userprog/syscall.c that work on the table of open files, and the two that
-- compute. `Filesys_lock` orders the accesses and has no state here. `none` is a failed ASSERT: a
-- panic of the kernel.
pub mod Compute
pub mod Seek
mod Tests
use operating_system.Common.{
  ℕ, zero, suc, ◌+◌, ◌-◌, ◌*◌, ◌/◌, ◌%◌, ◌^◌, Bool, true, false, not, ◌||◌, Option, none, some,
  ◌==◌, leb, ltb, if◌then◌else◌, ◌>>=◌, ◌>>◌, assert,
}
use operating_system.Common.Int.{ℤ, pos, negsuc, ltb_ℤ, pos_part, int32, ◌+ℤ◌}
use operating_system.File.{Files, file_length, file_seek, file_tell}

abbrev pub fd_base : ℕ
fd_base = 2

-- PGSIZE / sizeof (struct file *)
abbrev pub fd_max : ℕ
fd_max = 4096 / 4

-- A process's `Fd_table`, `none` for NULL, with its entries.
abbrev pub FdTable : Type 0
FdTable = Option (ℕ → Option ℕ)

pub get_file : FdTable → (fd : ℤ) → Option ℕ
get_file none fd = none
get_file (some table) fd =
    if ltb_ℤ fd (pos fd_base) || not (ltb_ℤ fd (pos fd_max)) then none else table (pos_part fd)

-- The loop of `open` that looks for a free descriptor, from `fd` on with `n` rounds left.
pub free_fd : (ℕ → Option ℕ) → (fd n : ℕ) → Option ℕ
free_fd table fd zero = none
free_fd table fd (suc n) = elim (table fd) [ none ↦ some fd | some f ↦ free_fd table (fd + 1) n ]

pub filesize : Files → FdTable → (fd : ℤ) → ℤ
filesize s table fd = elim (get_file table fd) [
  | none ↦ negsuc 0
  | some f ↦ int32 (pos (file_length s f))
]

-- The unsigned `position` is converted to the signed `off_t` of `file_seek`.
pub seek : Files → FdTable → (fd : ℤ) → (position : ℕ) → Option Files
seek s table fd position = elim (get_file table fd) [
  | none ↦ some s
  | some f ↦ file_seek s f (int32 (pos position))
]

-- The -1 of a bad descriptor is converted to unsigned.
pub tell : Files → FdTable → (fd : ℤ) → ℕ
tell s table fd = elim (get_file table fd) [ none ↦ 2 ^ 32 - 1 | some f ↦ file_tell s f ]

-- The loop of `fibonacci` with `n` rounds left.
pub fibonacci_from : ℕ → ℤ → ℤ → ℤ
fibonacci_from zero prev cur = cur
fibonacci_from (suc n) prev cur = fibonacci_from n cur (int32 (prev +ℤ cur))

pub fibonacci : ℤ → ℤ
fibonacci n =
    if not (ltb_ℤ (pos 0) n) then pos 0 else fibonacci_from (pos_part n - 1) (pos 0) (pos 1)

abbrev pub greater : ℤ → ℤ → ℤ
greater max x = if ltb_ℤ max x then x else max

pub max_of_four_int : (a b c d : ℤ) → ℤ
max_of_four_int a b c d = greater (greater (greater a b) c) d
