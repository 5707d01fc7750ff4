-- ===== src/Palloc.antt =====
-- src/threads/palloc.c: the kernel pool and the user pool of pages, each behind a bitmap of used
-- pages. Pages go by their page number (`pg_no`), so an address that is not page-aligned does not
-- arise. The pools' locks order the accesses and have no state here. `none` is a PANIC, a failed
-- ASSERT or NOT_REACHED.
pub mod Pages
pub mod Sample
mod Tests
use operating_system.Common.{
  ℕ, ◌+◌, ◌-◌, ◌*◌, ◌/◌, Bool, true, false, Option, none, some, List, ◌==◌, leb, ltb, min,
  if◌then◌else◌, ◌>>=◌, ◌>>◌, assert, ◌&&◌,
}
use operating_system.Bitmap
use operating_system.Bitmap.{Bitmap, Word, buf_size}

abbrev pub pgsize : ℕ
pgsize = 4096

-- `struct pool`: `base` is the page number of its first page.
pub record Pool : Type 0 where
  pub used_map : Bitmap
  pub base : ℕ

-- The two pools and the bytes of memory, by page number and offset.
pub record Memory : Type 0 where
  pub kernel_pool : Pool
  pub user_pool : Pool
  pub bytes : ℕ → ℕ → ℕ

-- `enum palloc_flags`, a flag each.
pub record Flags : Type 0 where
  pub pal_assert : Bool
  pub pal_zero : Bool
  pub pal_user : Bool

-- `init_pool`: the bitmap takes the first pages of the region. `words` is what lies in memory
-- behind its header.
pub init_pool : (base page_cnt : ℕ) → List Word → Option Pool
init_pool base page_cnt words =
    let bm_pages = (buf_size page_cnt + pgsize - 1) / pgsize in
    do
      assert (leb bm_pages page_cnt)
      map' ← Bitmap.create_in_buf (page_cnt - bm_pages) words (bm_pages * pgsize)
      some (record { used_map = map'; base = base + bm_pages })

-- `palloc_init`: the free pages start at page `free_start`; half of them, and at most
-- `user_page_limit`, go to the user pool.
pub palloc_init :
    (user_page_limit free_start free_pages : ℕ) (kernel_words user_words : List Word)
    → (ℕ → ℕ → ℕ)
    → Option Memory
palloc_init user_page_limit free_start free_pages kernel_words user_words bytes =
    let user_pages =
      if ltb user_page_limit (free_pages / 2) then user_page_limit else free_pages / 2 in
    let kernel_pages = free_pages - user_pages in
    do
      kernel ← init_pool free_start kernel_pages kernel_words
      user ← init_pool (free_start + kernel_pages) user_pages user_words
      some (record { kernel_pool = kernel; user_pool = user; bytes = bytes })

-- memset over `cnt` pages from `page` on.
abbrev pub memset_pages : (ℕ → ℕ → ℕ) → ℕ → ℕ → ℕ → ℕ → ℕ → ℕ
memset_pages bytes page cnt v p ofs = if leb page p && ltb p (page + cnt) then v else bytes p ofs

abbrev pub pool_of : Memory → Bool → Pool
pool_of m true = m.user_pool
pool_of m false = m.kernel_pool

abbrev pub put_pool : Memory → Bool → Pool → Memory
put_pool m true p = record m { user_pool = p }
put_pool m false p = record m { kernel_pool = p }

-- PAL_ZERO: the pages are cleared, or left as they are.
abbrev pub clear_pages : Bool → ℕ → ℕ → Memory → Memory
clear_pages true page cnt m = record m { bytes = memset_pages m.bytes page cnt 0 }
clear_pages false page cnt m = m

-- The first page (the inner `none` is NULL) and the new state.
pub palloc_get_multiple : Memory → Flags → ℕ → Option (Option ℕ × Memory)
palloc_get_multiple m flags page_cnt =
    let pool = pool_of m flags.pal_user in
    if page_cnt == 0 then some (none, m) else do
      (idx, map') ← Bitmap.scan_and_flip pool.used_map 0 page_cnt false
      elim idx [
        | none ↦ if flags.pal_assert then none else some (none, m)
        | some i ↦
            let page = pool.base + i in
            let m' = put_pool m flags.pal_user (record pool { used_map = map' }) in
            some (some page, clear_pages flags.pal_zero page page_cnt m')
      ]

unfoldable pub palloc_get_page : Memory → Flags → Option (Option ℕ × Memory)
palloc_get_page m flags = palloc_get_multiple m flags 1

pub page_from_pool : Pool → ℕ → Bool
page_from_pool pool page = leb pool.base page && ltb page (pool.base + pool.used_map.bit_cnt)

-- Back into the pool chosen: the pages are overwritten with 0xcc and their bits cleared.
pub free_in : Memory → Bool → ℕ → ℕ → Option Memory
free_in m user page page_cnt =
    let pool = pool_of m user in
    let page_idx = page - pool.base in
    do
      used ← Bitmap.all pool.used_map page_idx page_cnt
      assert used
      map' ← Bitmap.set_multiple pool.used_map page_idx page_cnt false
      let m' = put_pool m user (record pool { used_map = map' })
      some (record m' { bytes = memset_pages m.bytes page page_cnt 0xcc })

-- `palloc_free_multiple`; the first `none` is NULL.
pub palloc_free_multiple : Memory → Option ℕ → ℕ → Option Memory
palloc_free_multiple m none page_cnt = some m
palloc_free_multiple m (some page) page_cnt =
    if page_cnt == 0
    then some m
    else if page_from_pool m.kernel_pool page
    then free_in m false page page_cnt
    else if page_from_pool m.user_pool page
    then free_in m true page page_cnt
    else none

pub palloc_free_page : Memory → Option ℕ → Option Memory
palloc_free_page m page = palloc_free_multiple m page 1
