-- ===== src/Page/Restore.antt =====
-- A page that was evicted comes back: `frame_evict` of src/vm/frame.c, then `handle_mm_fault` of
-- src/vm/page.c.
use operating_system.Common.{
  ℕ, ◌*◌, ◌<◌, ◌≡◌, refl, ap, sym, subst, ◌∙◌, Bool, true, false, not, none, some, ◌++◌,
  if◌then◌else◌, arith, if-true, ◌==◌, ltb, ==_refl, assert-true, ◌&&◌,
}
use operating_system.KernelList.Order.{count}
use operating_system.Block.{Bytes}
use operating_system.Palloc.{Memory}
use operating_system.Palloc.Pages
use operating_system.Swap.{Swap, swap_in}
use operating_system.Swap.Slots
use operating_system.Swap.Slots.{swap_in_lem}
use operating_system.Bitmap.Refine.{update}
use operating_system.Frame.{
  Page, Pte, Vm, page_anon, is_null, is_anon, update_pte, update_page, frame_alloc, frame_install,
}
use operating_system.Frame.Clock.{is_evictable}
use operating_system.Frame.Alloc.{InSlot, frame_alloc-Allocated, holds_page, frame_install-Same}
use operating_system.File.{Files}
use operating_system.Frame.{is_user_vaddr}
use operating_system.Swap.{pgsize}
use operating_system.Page.{
  pal_user_only, pagedir_set_page, put_bytes, page_content, from_slot, from_swap, install,
  handle_mm_fault,
}

-- What `handle_mm_fault` achieves: page `p` is resident and mapped, holds `bytes`, and has no slot.
pub record Restored (p current n slot : ℕ) (bytes : Bytes) (v' : Vm) : Type 0 where
  pub kpage : ℕ
  pub resident : (v'.page p).kpage ≡ some kpage
  pub content : (j : ℕ) → j < pgsize → v'.memory.bytes kpage j ≡ bytes j
  pub no_slot : (v'.page p).swap_slot ≡ none
  pub mapped : (v'.pte current (v'.page p).upage).present ≡ true
  pub used : ℕ → Bool
  pub valid : Slots.IsValid v'.swap n used
  pub released : used slot ≡ false

-- The state after the slot was read back.
abbrev swapped_in : Vm → (p kpage : ℕ) → Bytes → Swap → Vm
swapped_in v p kpage bytes swap' =
    put_bytes
      (record v { swap = swap'; page = update_page v.page p (λ q. record q { swap_slot = none }) })
      kpage bytes

from_swap-slot :
    (v : Vm) (p kpage slot : ℕ) (bytes : Bytes) (swap' : Swap)
    → (v.page p).swap_slot ≡ some slot
    → swap_in v.swap slot (v.memory.bytes kpage) ≡ some (bytes, swap')
    → from_swap v p kpage ≡ some (swapped_in v p kpage bytes swap')
unfolding from_swap from_slot
from_swap-slot v p kpage slot bytes swap' at e = ap (from_slot v p kpage) at ∙ rw e

-- The state after `install`, before the frame is marked.
abbrev mapped_at : Vm → (current p kpage : ℕ) → Vm
mapped_at v current p kpage = record v {
  pte =
      update_pte v.pte current (v.page p).upage
        (λ e. record { present = true; accessed = false; dirty = false });
  page = update_page v.page p (λ q. record q { kpage = some kpage });
}

set_page-absent :
    (pte : ℕ → ℕ → Pte) (t upage : ℕ)
    → is_user_vaddr (upage * pgsize) ≡ true
    → (pte t upage).present ≡ false
    → pagedir_set_page pte t upage true
      ≡ some (
        true,
        update_pte pte t upage (λ e. record { present = true; accessed = false; dirty = false }),
      )
unfolding pagedir_set_page
set_page-absent pte t upage user absent =
    assert-true _ _ user ∙ assert-true (not (pte t upage).present) _ (ap not absent)

install-anon :
    (v : Vm) (current p kpage : ℕ) (b : Bool)
    → (v.page p).kind ≡ page_anon
    → is_user_vaddr ((v.page p).upage * pgsize) ≡ true
    → (v.pte current (v.page p).upage).present ≡ false
    → install v current p kpage b true
      ≡ some (true, frame_install (mapped_at v current p kpage) kpage p)
unfolding install
install-anon v current p kpage b anon user absent =
    rw (set_page-absent v.pte current (v.page p).upage user absent, anon)

page_content-anon :
    (files : Files) (bounce : Bool) (p : Page) (old : Bytes)
    → p.kind ≡ page_anon
    → page_content files bounce p old ≡ some (some (λ j. if ltb j pgsize then 0 else old j), files)
unfolding page_content
page_content-anon files bounce p old anon = if-true _ _ _ (ap is_anon anon)

handle-at :
    (v : Vm) (files : Files) (current p kpage : ℕ) (bounce : Bool) (v1 v2 v3 : Vm) (bs : Bytes)
    → (v.page p).kpage ≡ none
    → frame_alloc v current true pal_user_only (v.page p).upage ≡ some (some kpage, v1)
    → page_content files bounce (v1.page p) (v1.memory.bytes kpage) ≡ some (some bs, files)
    → from_swap (put_bytes v1 kpage bs) p kpage ≡ some v2
    → install v2 current p kpage (not (is_null (v1.page p).swap_slot)) true ≡ some (true, v3)
    → handle_mm_fault v files current true bounce true p ≡ some (true, v3, files)
unfolding handle_mm_fault
handle-at v files current p kpage bounce v1 v2 v3 bs out al fi sw ins =
    assert-true (is_null (v.page p).kpage) _ (ap is_null out) ∙ rw (al, fi, sw, ins)

updated : (g : ℕ → Page) (p : ℕ) (f : Page → Page) → update_page g p f p ≡ f (g p)
updated g p f = if-true (p == p) _ _ (==_refl p)

updated_pte : (g : ℕ → ℕ → Pte) (t u : ℕ) (f : Pte → Pte) → update_pte g t u f t u ≡ f (g t u)
updated_pte g t u f = if-true ((t == t) && (u == u)) _ _ (ground arith)

-- The parts of `handle_mm_fault` after the frame was filled, for an anonymous page with a slot.
finish-anon :
    (v : Vm) (current p kpage n slot : ℕ) (b : Bool) (f : ℕ → Bool) (bytes : Bytes)
    → InSlot v.swap n f slot bytes
    → (v.page p).kind ≡ page_anon
    → is_user_vaddr ((v.page p).upage * pgsize) ≡ true
    → (v.page p).swap_slot ≡ some slot
    → (v.pte current (v.page p).upage).present ≡ false
    → (v2 : Vm) × (v3 : Vm) × (from_swap v p kpage ≡ some v2)
      × (install v2 current p kpage b true ≡ some (true, v3))
      × Restored p current n slot bytes v3
finish-anon v current p kpage n slot b f bytes h anon user at unmapped =
    let (page', swap', read, same, valid') =
      swap_in_lem slot (v.memory.bytes kpage) h.valid h.in_range h.used in
    let v2 = swapped_in v p kpage page' swap' in
    let read_page = updated v.page p (λ q. record q { swap_slot = none }) in
    let upage2 = ap (λ (q : Page). q.upage) read_page in
    let v3 = mapped_at v2 current p kpage in
    let rest = frame_install-Same v3 kpage p in
    let last =
      ap (λ (g : ℕ → Page). g p) rest.page
      ∙ updated v2.page p (λ q. record q { kpage = some kpage }) in
    (
      v2,
      frame_install v3 kpage p,
      from_swap-slot v p kpage slot page' swap' at read,
      install-anon v2 current p kpage b (ap (λ (q : Page). q.kind) read_page ∙ anon)
          (ap (λ u. is_user_vaddr (u * pgsize)) upage2 ∙ user)
          (ap (λ u. (v.pte current u).present) upage2 ∙ unmapped),
      record {
        kpage = kpage;
        resident = ap (λ (q : Page). q.kpage) last;
        content = λ j lt.
            ap (λ (m : Memory). m.bytes kpage j) rest.memory
            ∙ ap (λ (d : Bytes). d j) (if-true (kpage == kpage) page' _ (==_refl kpage))
            ∙ same j lt
            ∙ h.holds j lt;
        no_slot = ap (λ (q : Page). q.swap_slot) last ∙ ap (λ (q : Page). q.swap_slot) read_page;
        mapped =
            ap (λ (g : ℕ → ℕ → Pte). (g current ((frame_install v3 kpage p).page p).upage).present)
              rest.pte
            ∙ ap (λ u. (v3.pte current u).present) (ap (λ (q : Page). q.upage) last)
            ∙ ap (λ (r : Pte). r.present)
                (updated_pte v.pte current (v2.page p).upage
                  (λ e. record { present = true; accessed = false; dirty = false }));
        used = update f slot false;
        valid = subst (λ s. Slots.IsValid s n (update f slot false)) (sym rest.swap) valid';
        released = ground arith;
      },
    )

-- An anonymous page that is not resident and has its bytes in a slot is brought back.
module _ (v : Vm) (files : Files) (current p n slot i : ℕ) (bounce : Bool) (f : ℕ → Bool)
    (bytes : Bytes) {sizes : Bool → ℕ} {taken : Bool → ℕ → Bool}
    (pools : Pages.IsValid v.memory sizes taken) (h : InSlot v.swap n f slot bytes) (lt : i < n)
    (free : f i ≡ false) (some_frame : 0 < count is_evictable (v.before ++ v.after))
    (not_held : count (holds_page p) (v.before ++ v.after) ≡ 0) (anon : (v.page p).kind ≡ page_anon)
    (user : (q : ℕ) → is_user_vaddr ((v.page q).upage * pgsize) ≡ true)
    (out : (v.page p).kpage ≡ none) (at : (v.page p).swap_slot ≡ some slot)
    (unmapped : (v.pte current (v.page p).upage).present ≡ false) where
  pub handle_mm_fault-anon :
      (v' : Vm) × (handle_mm_fault v files current true bounce true p ≡ some (true, v', files))
      × Restored p current n slot bytes v'
  handle_mm_fault-anon =
      let a =
        frame_alloc-Allocated v current p current (v.page p).upage n slot f bytes pools
          pal_user_only refl refl h not_held unmapped user (v.page p).upage i lt free some_frame in
      let zeros : Bytes = λ j. if ltb j pgsize then 0 else a.after.memory.bytes a.kpage j in
      let upage1 = ap (λ (q : Page). q.upage) a.same_page in
      let anon1 = ap (λ (q : Page). q.kind) a.same_page ∙ anon in
      let (v2, v3, swapped, installed, restored) =
        finish-anon (put_bytes a.after a.kpage zeros) current p a.kpage n slot
          (not (is_null (a.after.page p).swap_slot)) a.used bytes a.in_slot anon1
          (ap (λ u. is_user_vaddr (u * pgsize)) upage1 ∙ user p)
          (ap (λ (q : Page). q.swap_slot) a.same_page ∙ at)
          (ap (λ u. (a.after.pte current u).present) upage1 ∙ a.absent) in
      (
        v3,
        handle-at v files current p a.kpage bounce a.after v2 v3 zeros out a.call
            (page_content-anon files bounce (a.after.page p) _ anon1) swapped installed,
        restored,
      )
