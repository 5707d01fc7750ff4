-- ===== src/Frame/Alloc.antt =====
-- `frame_alloc` of src/vm/frame.c, and what a page of memory that is not resident sees of it.
use operating_system.Common.{
  ℕ, ◌+◌, ◌*◌, ◌/◌, ◌%◌, ◌<◌, ◌≡◌, ◌≢◌, refl, ap, sym, subst, ◌∙◌, Bool, true, false, inl, inr,
  Option, none, some, some_injective, assert-true, List, [], ◌∷◌, ◌++◌, if◌then◌else◌, arith,
  Bool-cases, if-false, ◌==◌,
}
use operating_system.KernelList.Order.{count}
use operating_system.Block.{Bytes, Block}
use operating_system.Palloc.{Memory, Flags, palloc_get_page}
use operating_system.Palloc.Pages
use operating_system.Palloc.Pages.{palloc_get_multiple_lem}
use operating_system.Swap.{Swap, pgsize}
use operating_system.Swap.Slots
use operating_system.Swap.Slots.{Stored}
use operating_system.Bitmap.Refine.{update}
use operating_system.Frame.{
  is_user_vaddr, Frame, Page, Pte, Vm, frame_evict, push_back, frame_alloc, change_first,
  change_frame, frame_install,
}
use operating_system.Frame.Clock.{is_evictable}
use operating_system.Frame.Evict.{must_save, Evicted, frame_evict_lem}

-- Only the list of frames differs.
pub record Same (v v' : Vm) : Type 0 where
  pub page : v'.page ≡ v.page
  pub pte : v'.pte ≡ v.pte
  pub memory : v'.memory ≡ v.memory
  pub swap : v'.swap ≡ v.swap

push_back-Same : (v : Vm) (f : Frame) → Same v (push_back v f)
unfolding push_back
push_back-Same v f =
    elim v.after
      as (λ xs. Same v (elim xs [
        | [] ↦ record v { before = v.before ++ (f ∷ []) }
        | g ∷ gs ↦ record v { after = v.after ++ (f ∷ []) }
      ])) [
        | [] ↦ record { page = refl; pte = refl; memory = refl; swap = refl }
        | g ∷ gs ↦ record { page = refl; pte = refl; memory = refl; swap = refl }
      ]

pub frame_install-Same : (v : Vm) (kpage p : ℕ) → Same v (frame_install v kpage p)
unfolding frame_install change_frame
frame_install-Same v kpage p =
    if-Same
      (change_first (λ f. f.kpage == kpage) (λ f. record f { page = some p; pinned = false } ∷ [])
        v.before).0
      _ _
  where
    if-Same :
        (b : Bool) (xs ys : List Frame)
        → Same v (if b then record v { before = xs } else record v { after = ys })
    if-Same true xs ys = record { page = refl; pte = refl; memory = refl; swap = refl }
    if-Same false xs ys = record { page = refl; pte = refl; memory = refl; swap = refl }

-- Slot `slot` of a valid swap device is in use and has the content `bytes`.
pub record InSlot (s : Swap) (n : ℕ) (f : ℕ → Bool) (slot : ℕ) (bytes : Bytes) : Type 0 where
  pub valid : Slots.IsValid s n f
  pub in_range : slot < n
  pub used : f slot ≡ true
  pub holds : (j : ℕ) → j < pgsize → valid.dev.sectors (slot * 8 + j / 512) (j % 512) ≡ bytes j

pub Stored-InSlot :
    {s s' : Swap} {n : ℕ} {f : ℕ → Bool} (page : Bytes) (slot : ℕ)
    → Stored s s' n f page slot
    → InSlot s' n (update f slot true) slot page
Stored-InSlot page slot st = record {
  valid = st.valid;
  in_range = st.in_range;
  used = ground arith;
  holds = st.holds;
}

-- Another page goes to the swap device.
Stored-keeps :
    {s s' : Swap} {n : ℕ} {f : ℕ → Bool} (page : Bytes) (slot k : ℕ) (bytes : Bytes)
    → InSlot s n f k bytes
    → Stored s s' n f page slot
    → InSlot s' n (update f slot true) k bytes
Stored-keeps {f = f} page slot k bytes h st = record {
  valid = st.valid;
  in_range = h.in_range;
  used = ground (arith, h.used);
  holds = λ j lt.
      at_byte (j % 512) (st.others k (j / 512) apart (omega arith))
      ∙ at_byte (j % 512) (ap (λ (b : Block). b.sectors (k * 8 + j / 512)) same_dev)
      ∙ h.holds j lt;
}
  where
    clash : true ≢ false
    clash e = cc

    apart : k ≢ slot
    apart e = clash (sym h.used ∙ ap f e ∙ st.was_free)

    at_byte : {d d' : Bytes} (j : ℕ) → d ≡ d' → d j ≡ d' j
    at_byte j e = ap (λ (t : Bytes). t j) e

    same_dev : st.before ≡ h.valid.dev
    same_dev = some_injective (sym st.had_dev ∙ h.valid.has_dev)

-- No frame of the list holds page `p`.
abbrev pub holds_page : ℕ → Frame → Bool
holds_page p f = elim f.page [ none ↦ false | some q ↦ q == p ]

pub holds-at : {p : ℕ} (f : Frame) → f.page ≡ some p → holds_page p f ≡ true
holds-at f e = rw e (ground arith)

-- What `frame_alloc` leaves for page `p`, which is not resident and has its bytes in `slot`.
pub record Allocated (v : Vm) (p t u n slot : ℕ) (bytes : Bytes) (r : Option (Option ℕ × Vm))
    : Type 0 where
  pub kpage : ℕ
  pub after : Vm
  pub call : r ≡ some (some kpage, after)
  pub same_page : after.page p ≡ v.page p
  pub absent : (after.pte t u).present ≡ false
  pub used : ℕ → Bool
  pub in_slot : InSlot after.swap n used slot bytes

module _ (v : Vm) (current : ℕ) (flags : Flags) (upage : ℕ) (user : flags.pal_user ≡ true) where
  new_frame : ℕ → Frame
  new_frame kpage = record {
    kpage = kpage;
    upage = upage;
    owner = current;
    page = none;
    pinned = true;
  }

  frame_alloc-free :
      (kpage : ℕ) (m : Memory)
      → palloc_get_page v.memory flags ≡ some (some kpage, m)
      → frame_alloc v current true flags upage
        ≡ some (some kpage, push_back (record v { memory = m }) (new_frame kpage))
  unfolding frame_alloc new_frame
  frame_alloc-free kpage m e = assert-true _ _ user ∙ rw e

  frame_alloc-evicts :
      (kpage : ℕ) (v' : Vm)
      → palloc_get_page v.memory flags ≡ some (none, v.memory)
      → frame_evict v flags ≡ some (kpage, v')
      → frame_alloc v current true flags upage ≡ some (some kpage, push_back v' (new_frame kpage))
  unfolding frame_alloc new_frame
  frame_alloc-evicts kpage v' e ev = assert-true _ _ user ∙ rw (e, ev)

-- With two valid pools, a valid swap device with a free slot and a frame that can be evicted,
-- `frame_alloc` does not panic, and the page that is not resident keeps its content.
module _ (v : Vm) (current p t u n slot : ℕ) (f : ℕ → Bool) (bytes : Bytes) {sizes : Bool → ℕ}
    {taken : Bool → ℕ → Bool} (pools : Pages.IsValid v.memory sizes taken) (flags : Flags)
    (user : flags.pal_user ≡ true) (soft : flags.pal_assert ≡ false)
    (h : InSlot v.swap n f slot bytes) (not_held : count (holds_page p) (v.before ++ v.after) ≡ 0)
    (unmapped : (v.pte t u).present ≡ false)
    (users : (q : ℕ) → is_user_vaddr ((v.page q).upage * pgsize) ≡ true) where
  evicts :
      (upage i : ℕ)
      → i < n
      → f i ≡ false
      → 0 < count is_evictable (v.before ++ v.after)
      → palloc_get_page v.memory flags ≡ some (none, v.memory)
      → Allocated v p t u n slot bytes (frame_alloc v current true flags upage)
  evicts upage i lt free some_frame e =
      let (kpage, v', ev, out) = frame_evict_lem v flags n f i h.valid lt free users some_frame in
      let back = push_back-Same v' (new_frame v current flags upage user kpage) in
      record {
        kpage = kpage;
        after = push_back v' (new_frame v current flags upage user kpage);
        call = frame_alloc-evicts v current flags upage user kpage v' e ev;
        same_page = ap (λ (g : ℕ → Page). g p) back.page ∙ out.others p (other out);
        absent = ap (λ (g : ℕ → ℕ → Pte). (g t u).present) back.pte ∙ out.absent t u unmapped;
        used = (slots out).0;
        in_slot = subst (λ s. InSlot s n (slots out).0 slot bytes) (sym back.swap) (slots out).1;
      }
    where
      other : {v' : Vm} {kpage : ℕ} (out : Evicted v v' n f kpage) → p ≢ out.page
      other out e =
          let at_victim = holds-at out.victim (out.held.1 ∙ ap some (sym e)) in
          absurd (ground (arith, out.rest (holds_page p), not_held, at_victim))

      slots :
          {v' : Vm} {kpage : ℕ} (out : Evicted v v' n f kpage)
          → (g : ℕ → Bool) × InSlot v'.swap n g slot bytes
      slots out = elim (Bool-cases (must_save v out.page out.victim.owner)) [
        | inl save ↦ let (k, at, st) = out.saved save in (_, Stored-keeps _ k slot bytes h st)
        | inr keep ↦ (f, subst (λ s. InSlot s n f slot bytes) (sym (out.clean keep)) h)
      ]

  pub frame_alloc-Allocated :
      (upage i : ℕ)
      → i < n
      → f i ≡ false
      → 0 < count is_evictable (v.before ++ v.after)
      → Allocated v p t u n slot bytes (frame_alloc v current true flags upage)
  unfolding palloc_get_page
  frame_alloc-Allocated upage i lt free some_frame =
      elim (palloc_get_multiple_lem flags 1 pools (omega arith)) [
        | inl (kpage, m, e, got) ↦
            let back =
              push_back-Same (record v { memory = m })
                (new_frame v current flags upage user kpage) in
            record {
              kpage = kpage;
              after =
                  push_back (record v { memory = m }) (new_frame v current flags upage user kpage);
              call = frame_alloc-free v current flags upage user kpage m e;
              same_page = ap (λ (g : ℕ → Page). g p) back.page;
              absent = ap (λ (g : ℕ → ℕ → Pte). (g t u).present) back.pte ∙ unmapped;
              used = f;
              in_slot = subst (λ s. InSlot s n f slot bytes) (sym back.swap) h;
            }
        | inr (e, full) ↦ evicts upage i lt free some_frame (e ∙ if-false flags.pal_assert _ _ soft)
      ]
