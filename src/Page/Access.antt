-- ===== src/Page/Access.antt =====
-- Which addresses src/vm/page.c takes for accesses to the stack.
use operating_system.Common.{ℕ, ◌+◌, ◌-◌, ◌^◌, ◌≤◌, ◌<◌, ◌≡◌, ◌↔◌, true, arith}
use operating_system.Frame.{phys_base}
use operating_system.Page.{stack_limit, page_is_stack_access}

-- For a 32-bit stack pointer, `page_is_stack_access` holds exactly of the user addresses in the
-- last 8 MB below PHYS_BASE that are at most 32 bytes below the stack pointer, when the stack
-- pointer is at least 32.
pub page_is_stack_access_lem :
    (addr esp : ℕ)
    → esp < 2 ^ 32
    → (page_is_stack_access addr esp ≡ true)
      ↔ ((phys_base - stack_limit ≤ addr) × (addr < phys_base) × (esp ≤ addr + 32) × (32 ≤ esp))
unfolding page_is_stack_access
page_is_stack_access_lem addr esp small = ground arith
