-- ===== src/Page/Roundtrip.antt =====
-- Eviction by src/vm/frame.c and the page fault of src/vm/page.c, one after the other.
use operating_system.Common.{
  ℕ, ◌*◌, ◌≤◌, ◌<◌, ◌≡◌, ◌≢◌, refl, ap, sym, subst, ◌∙◌, Bool, true, false, none, some, ◌++◌, arith,
}
use native.Mathlib.Decide.{ℕ_discrete}
use operating_system.KernelList.Order.{count}
use operating_system.Palloc.{Memory, Flags, Pool}
use operating_system.Palloc.Pages
use operating_system.Swap.Slots
use operating_system.Bitmap.Refine.{update}
use operating_system.Frame.{
  Page, PageType, page_anon, page_bin, page_mmap, Vm, anon_of_bin, frame_evict,
}
use operating_system.Frame.Clock.{is_evictable}
use operating_system.Frame.Evict.{must_save, frame_evict_lem}
use operating_system.Frame.Alloc.{Stored-InSlot, holds_page, holds-at}
use operating_system.File.{Files}
use operating_system.Frame.{is_user_vaddr}
use operating_system.Swap.{pgsize}
use operating_system.Page.{is_mmap, handle_mm_fault}
use operating_system.Page.Restore.{handle_mm_fault-anon}

same_pools-IsValid :
    (m m' : Memory) {sizes : Bool → ℕ} {taken : Bool → ℕ → Bool}
    → m'.kernel_pool ≡ m.kernel_pool
    → m'.user_pool ≡ m.user_pool
    → Pages.IsValid m sizes taken
    → Pages.IsValid m' sizes taken
same_pools-IsValid m m' {sizes} {taken} ek eu v =
    subst (λ (k : Pool). Pages.IsValid (record m' { kernel_pool = k }) sizes taken) (sym ek)
      (subst
        (λ (u : Pool).
          Pages.IsValid (record m' { kernel_pool = m.kernel_pool; user_pool = u }) sizes taken)
        (sym eu)
        (record { maps = elim [ true ↦ v.maps true | false ↦ v.maps false ]; apart = v.apart }))

-- The kind of a page that was saved, which is no mapped file.
anon-of_bin : (t : PageType) → is_mmap t ≡ false → anon_of_bin t ≡ page_anon
anon-of_bin page_bin h = refl
anon-of_bin page_anon h = refl
anon-of_bin page_mmap h = cc

-- Of two free slots one is left.
other_slot :
    {n : ℕ} (i i' : ℕ) (f : ℕ → Bool) (slot : ℕ)
    → i < n
    → i' < n
    → i ≢ i'
    → f i ≡ false
    → f i' ≡ false
    → (j : ℕ) × (j < n) × (update f slot true j ≡ false)
other_slot i i' f slot lt lt' apart free free' = elim (ℕ_discrete slot i) [
  | yes e ↦ (i', lt', ground (arith, e, apart, free'))
  | no ne ↦ (i, lt, ground (arith, ne, free))
]

module _ (v : Vm) (files : Files) (flags : Flags) (n i i' : ℕ) (bounce : Bool) (f : ℕ → Bool)
    {sizes : Bool → ℕ} {taken : Bool → ℕ → Bool} where
  -- With valid pools, a valid swap device with two free slots, at least two frames that can be
  -- evicted, no page in two frames, only user pages, none of a mapped file and each anonymous or
  -- written to: `frame_evict` does not panic and puts a page out, and `handle_mm_fault` of that
  -- page in its owner, when malloc and the page table succeed, does not panic and brings it back
  -- into a frame that holds the same bytes as before.
  pub evict_then_fault :
      Pages.IsValid v.memory sizes taken
      → Slots.IsValid v.swap n f
      → i < n
      → i' < n
      → i ≢ i'
      → f i ≡ false
      → f i' ≡ false
      → 1 < count is_evictable (v.before ++ v.after)
      → ((q : ℕ) → count (holds_page q) (v.before ++ v.after) ≤ 1)
      → ((q : ℕ) → is_user_vaddr ((v.page q).upage * pgsize) ≡ true)
      → ((q : ℕ) → is_mmap (v.page q).kind ≡ false)
      → ((q t : ℕ) → must_save v q t ≡ true)
      → (kpage : ℕ) × (v1 : Vm) × (v2 : Vm) × (p : ℕ) × (t : ℕ) × (kpage' : ℕ) × (frame_evict v
            flags
          ≡ some (kpage, v1))
        × ((v1.page p).kpage ≡ none)
        × (handle_mm_fault v1 files t true bounce true p ≡ some (true, v2, files))
        × ((v2.page p).kpage ≡ some kpage')
        × ((j : ℕ) → j < pgsize → v2.memory.bytes kpage' j ≡ v.memory.bytes kpage j)
  evict_then_fault pools slots lt lt' apart free free' two once user no_mmap save =
      let (kpage, v1, ev, out) = frame_evict_lem v flags n f i slots lt free user (omega arith) in
      let p = out.page in
      let t = out.victim.owner in
      let (slot, at, st) = out.saved (save p t) in
      let spare = other_slot i i' f slot lt lt' apart free free' in
      let (v2, call, r) =
        handle_mm_fault-anon v1 files t p n slot spare.0 bounce (update f slot true)
          (v.memory.bytes kpage)
          (same_pools-IsValid v.memory v1.memory out.pools.0 out.pools.1 pools)
          (Stored-InSlot (v.memory.bytes kpage) slot st) spare.1 spare.2
          (ground (arith, out.rest is_evictable, two))
          (ground (arith, out.rest (holds_page p), once p, holds-at out.victim out.held.1))
          (out.kind (save p t) ∙ anon-of_bin (v.page p).kind (no_mmap p))
          (λ q. elim (ℕ_discrete q p) [
            | yes same ↦
                ap (λ x. is_user_vaddr ((v1.page x).upage * pgsize)) same
                ∙ ap (λ u. is_user_vaddr (u * pgsize)) out.upage
                ∙ user p
            | no other ↦
                ap (λ (x : Page). is_user_vaddr (x.upage * pgsize)) (out.others q other) ∙ user q
          ])
          out.gone at (ap (λ u. (v1.pte t u).present) out.upage ∙ out.unmapped) in
      (kpage, v1, v2, p, t, r.kpage, ev, out.gone, call, r.resident, r.content)
