-- ===== src/Frame/Evict.antt =====
-- `frame_evict` of src/vm/frame.c: the page that is evicted and its content.
use operating_system.Common.{
  ℕ, ◌+◌, ◌*◌, ◌<◌, ◌≡◌, ◌≢◌, refl, ap, sym, ◌∙◌, Bool, true, false, ◌||◌, inl, inr, Option, none,
  some, ◌++◌, if◌then◌else◌, length, arith, Bool-cases, if-true, if-false,
}
use operating_system.KernelList.Order.{count}
use operating_system.Palloc.{Flags, Memory, clear_pages}
use operating_system.Swap.{pgsize, Swap, swap_out}
use operating_system.Swap.Slots
use operating_system.Swap.Slots.{Stored, swap_out-Stored}
use operating_system.Frame.{
  is_user_vaddr, Frame, Vm, update_pte, update_page, is_null, is_anon, anon_of_bin, Choice, choose,
  save_page, frame_evict,
}
use operating_system.Frame.Clock.{is_evictable, choose_lem}

-- Page `p` is lost from memory: it is anonymous, or was written to.
abbrev pub must_save : Vm → ℕ → ℕ → Bool
must_save v p t = is_anon (v.page p).kind || (v.pte t (v.page p).upage).dirty

-- What `frame_evict` does: the victim's page is out of memory and off the list, and its bytes are
-- in a swap slot that was free if memory had the only copy.
pub record Evicted (v v' : Vm) (n : ℕ) (f : ℕ → Bool) (kpage : ℕ) : Type 0 where
  pub victim : Frame
  pub page : ℕ
  pub held : (victim.kpage ≡ kpage) × (victim.page ≡ some page) × (victim.pinned ≡ false)
  pub gone : (v'.page page).kpage ≡ none
  pub unmapped : (v'.pte victim.owner (v.page page).upage).present ≡ false
  pub saved :
      must_save v page victim.owner ≡ true
      → (slot : ℕ) × ((v'.page page).swap_slot ≡ some slot)
        × Stored v.swap v'.swap n f (v.memory.bytes kpage) slot
  pub clean : must_save v page victim.owner ≡ false → v'.swap ≡ v.swap
  pub absent : (t u : ℕ) → (v.pte t u).present ≡ false → (v'.pte t u).present ≡ false
  pub upage : (v'.page page).upage ≡ (v.page page).upage
  pub kind :
      must_save v page victim.owner ≡ true → (v'.page page).kind ≡ anon_of_bin (v.page page).kind
  pub pools :
      (v'.memory.kernel_pool ≡ v.memory.kernel_pool) × (v'.memory.user_pool ≡ v.memory.user_pool)
  pub others : (q : ℕ) → q ≢ page → v'.page q ≡ v.page q
  pub rest :
      (q : Frame → Bool)
      → (if q victim then 1 else 0) + count q (v'.before ++ v'.after)
        ≡ count q (v.before ++ v.after)

clear_pools :
    (b : Bool) (page : ℕ) (m : Memory)
    → ((clear_pages b page 1 m).kernel_pool ≡ m.kernel_pool)
      × ((clear_pages b page 1 m).user_pool ≡ m.user_pool)
clear_pools true page m = (refl, refl)
clear_pools false page m = (refl, refl)

-- The state in which `frame_evict` decides whether to save the page.
abbrev taken_off : Vm → Choice → ℕ → Vm
taken_off v c p = record v {
  before = c.before;
  after = c.after;
  page = update_page v.page p (λ q. record q { kpage = none });
  pte = update_pte c.pte c.victim.owner (v.page p).upage (λ e. record e { present = false });
}

abbrev cleaned : Flags → ℕ → Vm → Vm
cleaned flags kpage v = record v { memory = clear_pages flags.pal_zero kpage 1 v.memory }

the_page : (o : Option ℕ) → is_null o ≡ false → (p : ℕ) × (o ≡ some p)
the_page (some p) h = (p, refl)
the_page none h = cc

module _ (v : Vm) (flags : Flags) (c : Choice) (p : ℕ)
    (chosen : choose (2 * length (v.before ++ v.after)) v.pte v.before v.after ≡ some c)
    (has_page : c.victim.page ≡ some p)
    (user : is_user_vaddr ((v.page p).upage * pgsize) ≡ true) where
  evict_step :
      (v2 : Vm)
      → (if is_anon (v.page p).kind || (c.pte c.victim.owner (v.page p).upage).dirty
          then save_page (taken_off v c p) p c.victim.kpage
          else some (taken_off v c p))
        ≡ some v2
      → frame_evict v flags ≡ some (c.victim.kpage, cleaned flags c.victim.kpage v2)
  unfolding frame_evict
  evict_step v2 e = rw (chosen, has_page, user, e)

saving :
    (v1 : Vm) (p kpage slot : ℕ) (swap' : Swap)
    → swap_out v1.swap (v1.memory.bytes kpage) ≡ some (slot, swap')
    → save_page v1 p kpage
      ≡ some (record v1 {
        page =
            update_page v1.page p
              (λ q. record q { swap_slot = some slot; kind = anon_of_bin q.kind });
        swap = swap';
      })
unfolding save_page
saving v1 p kpage slot swap' e = rw e

-- On a valid swap device with a free slot, with user pages only and if some frame is not pinned and
-- holds a page, `frame_evict` does not panic: it takes such a frame off the list and its page out
-- of memory; if the page is anonymous or was written to, its bytes are then in a swap slot that was
-- free and that the page records, else the swap device is as before; every other page and frame
-- stays.
pub frame_evict_lem :
    (v : Vm) (flags : Flags) (n : ℕ) (f : ℕ → Bool) (i : ℕ)
    → Slots.IsValid v.swap n f
    → i < n
    → f i ≡ false
    → ((q : ℕ) → is_user_vaddr ((v.page q).upage * pgsize) ≡ true)
    → 0 < count is_evictable (v.before ++ v.after)
    → (kpage : ℕ) × (v' : Vm) × (frame_evict v flags ≡ some (kpage, v')) × Evicted v v' n f kpage
frame_evict_lem v flags n f i ok lt free users some_frame =
    let (c, chosen, found) = choose_lem v.pte v.before v.after some_frame in
    let (p, has_page) = the_page c.victim.page found.may_go.1 in
    let t = c.victim.owner in
    let u = (v.page p).upage in
    let same : must_save v p t ≡ (is_anon (v.page p).kind || (c.pte t u).dirty) =
      ap (λ d. is_anon (v.page p).kind || d) (sym (found.cleared.dirty t u)) in
    let v1 = taken_off v c p in
    let kpage = c.victim.kpage in
    elim (Bool-cases (must_save v p t)) [
      | inl save ↦
          let (slot, swap', es, st) = swap_out-Stored (v.memory.bytes kpage) ok i lt free in
          let v2 : Vm = record v1 {
            page =
                update_page v1.page p
                  (λ q. record q { swap_slot = some slot; kind = anon_of_bin q.kind });
            swap = swap';
          } in
          (
            kpage,
            cleaned flags kpage v2,
            evict_step v flags c p chosen has_page (users p) v2
                (if-true _ _ _ (sym same ∙ save) ∙ saving v1 p kpage slot swap' es),
            record {
              victim = c.victim;
              page = p;
              held = (refl, has_page, found.may_go.0);
              gone = ground arith;
              unmapped = ground arith;
              saved = λ h. (slot, ground arith, st);
              clean = λ h. absurd (clash (sym save ∙ h));
              absent = λ t u h. ground (arith, found.cleared.present t u, h);
              upage = ground arith;
              pools = clear_pools flags.pal_zero kpage v.memory;
              kind = λ h. ground arith;
              others = λ q ne. ground arith;
              rest = found.rest;
            },
          )
      | inr keep ↦ (
        kpage,
        cleaned flags kpage v1,
        evict_step v flags c p chosen has_page (users p) v1 (if-false _ _ _ (sym same ∙ keep)),
        record {
          victim = c.victim;
          page = p;
          held = (refl, has_page, found.may_go.0);
          gone = ground arith;
          unmapped = ground arith;
          saved = λ h. absurd (clash (sym h ∙ keep));
          clean = λ h. refl;
          absent = λ t u h. ground (arith, found.cleared.present t u, h);
          upage = ground arith;
          pools = clear_pools flags.pal_zero kpage v.memory;
          kind = λ h. absurd (clash (sym h ∙ keep));
          others = λ q ne. ground arith;
          rest = found.rest;
        },
      )
    ]
  where
    clash : true ≢ false
    clash h = cc
