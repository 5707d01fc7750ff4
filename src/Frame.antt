-- ===== src/Frame.antt =====
-- src/vm/frame.c: the frames that hold user pages, and the clock that evicts one. `Frame_lock`
-- orders the accesses and has no state here. The bits of a page table entry are those that
-- src/userprog/pagedir.c reads and writes, with a thread for its page directory; a page goes by the
-- number that stands for its `struct page *`. `none` is a PANIC or a failed ASSERT.
pub mod Clock
pub mod Evict
pub mod Alloc
mod Tests
use operating_system.Common.{
  ℕ, zero, suc, ◌+◌, ◌*◌, Bool, true, false, ◌&&◌, ◌||◌, Option, none, some, List, [], ◌∷◌, ◌++◌,
  ◌==◌, if◌then◌else◌, length, ◌>>=◌, ◌>>◌, assert, ltb,
}
use operating_system.Palloc.{Memory, Flags, palloc_get_page, palloc_free_page, clear_pages}
use operating_system.Swap.{pgsize, Swap, swap_out}

-- PHYS_BASE
abbrev pub phys_base : ℕ
phys_base = 0xc0000000

abbrev pub is_user_vaddr : ℕ → Bool
is_user_vaddr vaddr = ltb vaddr phys_base

-- `struct frame`
pub record Frame : Type 0 where
  pub kpage : ℕ
  pub upage : ℕ
  pub owner : ℕ
  pub page : Option ℕ
  pub pinned : Bool

-- `enum page_type`
pub data PageType : Type 0 where
  page_bin page_anon page_mmap : PageType

-- `struct page`; `swap_slot` is `none` for PAGE_NO_SLOT.
pub record Page : Type 0 where
  pub kind : PageType
  pub upage : ℕ
  pub kpage : Option ℕ
  pub writable : Bool
  pub file : Option ℕ
  pub ofs : ℕ
  pub read_bytes : ℕ
  pub zero_bytes : ℕ
  pub swap_slot : Option ℕ

-- PTE_P, PTE_A and PTE_D
pub record Pte : Type 0 where
  pub present : Bool
  pub accessed : Bool
  pub dirty : Bool

-- The list of frames is `before` and then `after`; `Clock_hand` points to the first frame of
-- `after`, and is NULL or the list's end if there is none, which the code treats alike.
pub record Vm : Type 0 where
  pub before : List Frame
  pub after : List Frame
  pub pte : ℕ → ℕ → Pte
  pub page : ℕ → Page
  pub memory : Memory
  pub swap : Swap

abbrev pub update_pte : (ℕ → ℕ → Pte) → ℕ → ℕ → (Pte → Pte) → ℕ → ℕ → Pte
update_pte pte t u f t' u' = if (t' == t) && (u' == u) then f (pte t' u') else pte t' u'

abbrev pub update_page : (ℕ → Page) → ℕ → (Page → Page) → ℕ → Page
update_page page p f q = if q == p then f (page q) else page q

abbrev pub is_null : Option ℕ → Bool
is_null none = true
is_null (some p) = false

-- One round of the clock at a frame: `none` if it is the victim, else the entries afterwards.
pub visit : (ℕ → ℕ → Pte) → Frame → Option (ℕ → ℕ → Pte)
visit pte f =
    if f.pinned || is_null f.page
    then some pte
    else if (pte f.owner f.upage).accessed
    then some (update_pte pte f.owner f.upage (λ e. record e { accessed = false }))
    else none

-- The victim, and the list of frames without it.
pub record Choice : Type 0 where
  pub victim : Frame
  pub before : List Frame
  pub after : List Frame
  pub pte : ℕ → ℕ → Pte

-- The loop of `frame_evict` with `n` rounds left.
pub choose : ℕ → (ℕ → ℕ → Pte) → List Frame → List Frame → Option Choice
choose zero pte before after = none
choose (suc n) pte [] [] = none
choose (suc n) pte (g ∷ gs) [] = elim (visit pte g) [
  | none ↦ some (record { victim = g; before = []; after = gs; pte = pte })
  | some pte' ↦ choose n pte' (g ∷ []) gs
]
choose (suc n) pte before (f ∷ fs) = elim (visit pte f) [
  | none ↦ some (record { victim = f; before = before; after = fs; pte = pte })
  | some pte' ↦ choose n pte' (before ++ (f ∷ [])) fs
]

abbrev pub is_anon : PageType → Bool
is_anon page_anon = true
is_anon _ = false

abbrev pub anon_of_bin : PageType → PageType
anon_of_bin page_bin = page_anon
anon_of_bin t = t

-- The victim's content goes to the swap device.
pub save_page : Vm → ℕ → ℕ → Option Vm
save_page v p kpage = do
  (slot, swap') ← swap_out v.swap (v.memory.bytes kpage)
  let page' =
      update_page v.page p (λ q. record q { swap_slot = some slot; kind = anon_of_bin q.kind })
  some (record v { page = page'; swap = swap' })

-- The page of memory that gets free, and the state. The ASSERT is that of `pagedir_clear_page`.
pub frame_evict : Vm → Flags → Option (ℕ × Vm)
frame_evict v flags = do
  c ← choose (2 * length (v.before ++ v.after)) v.pte v.before v.after
  p ← c.victim.page
  let kpage = c.victim.kpage
  let upage = (v.page p).upage
  assert (is_user_vaddr (upage * pgsize))
  let v1 = record v {
    before = c.before;
    after = c.after;
    page = update_page v.page p (λ q. record q { kpage = none });
    pte = update_pte c.pte c.victim.owner upage (λ e. record e { present = false });
  }
  v2 ←
      if is_anon (v.page p).kind || (c.pte c.victim.owner upage).dirty
      then save_page v1 p kpage
      else some v1
  some (kpage, record v2 { memory = clear_pages flags.pal_zero kpage 1 v2.memory })

-- `list_push_back` to the list of frames.
pub push_back : Vm → Frame → Vm
push_back v f = elim v.after [
  | [] ↦ record v { before = v.before ++ (f ∷ []) }
  | g ∷ gs ↦ record v { after = v.after ++ (f ∷ []) }
]

-- A page for the running thread `current`; the inner `none` is NULL, and `allocated` says whether
-- malloc returns the `struct frame`.
pub frame_alloc : Vm → (current : ℕ) → (allocated : Bool) → Flags → ℕ → Option (Option ℕ × Vm)
frame_alloc v current allocated flags upage = do
  assert flags.pal_user
  (got, memory') ← palloc_get_page v.memory flags
  let v1 = record v { memory = memory' }
  (kpage, v2) ← elim got [ some kpage ↦ some (kpage, v1) | none ↦ frame_evict v1 flags ]
  if allocated
      then some (
        some kpage,
        push_back v2
            (record { kpage = kpage; upage = upage; owner = current; page = none; pinned = true }),
      )
      else (palloc_free_page v2.memory (some kpage) >>= λ m. some (none, record v2 { memory = m }))

-- The first frame that passes the test is changed: whether there is one, and the list.
pub change_first : (Frame → Bool) → (Frame → List Frame) → List Frame → Bool × List Frame
change_first q f [] = (false, [])
change_first q f (x ∷ xs) =
    let (found, rest) = change_first q f xs in if q x then (true, f x ++ xs) else (found, x ∷ rest)

pub change_frame : (Frame → Bool) → (Frame → List Frame) → Vm → Vm
change_frame q f v =
    let (found, before') = change_first q f v.before in
    if found
    then record v { before = before' }
    else record v { after = (change_first q f v.after).1 }

pub frame_free : Vm → ℕ → Option Vm
frame_free v kpage = do
  let v' = change_frame (λ f. f.kpage == kpage) (λ f. []) v
  m ← palloc_free_page v.memory (some kpage)
  some (record v' { memory = m })

pub frame_install : Vm → (kpage page : ℕ) → Vm
frame_install v kpage page =
    change_frame (λ f. f.kpage == kpage) (λ f. record f { page = some page; pinned = false } ∷ []) v

-- Whether the page is resident, and the state with its frame pinned.
pub frame_pin_resident : Vm → (page : ℕ) → Bool × Vm
frame_pin_resident v page = elim (v.page page).kpage [
  | none ↦ (false, v)
  | some kpage ↦
      let found = (change_first (λ f. f.kpage == kpage) (λ f. f ∷ []) (v.before ++ v.after)).0 in
      (found, change_frame (λ f. f.kpage == kpage) (λ f. record f { pinned = true } ∷ []) v)
]

pub change_all : (Frame → List Frame) → List Frame → List Frame
change_all f [] = []
change_all f (x ∷ xs) = f x ++ change_all f xs

pub frame_remove_owner : Vm → (owner : ℕ) → Vm
frame_remove_owner v owner =
    let drop = change_all (λ f. if f.owner == owner then [] else f ∷ []) in
    record v { before = drop v.before; after = drop v.after }

pub frame_unpin_owner : Vm → (owner : ℕ) → Vm
frame_unpin_owner v owner =
    let unpin = change_all (λ f.
      (if (f.owner == owner) && (if is_null f.page then false else true)
        then record f { pinned = false }
        else f)
      ∷ []) in
    record v { before = unpin v.before; after = unpin v.after }
