-- ===== src/Swap/Slots.antt =====
-- Swap slots: what `swap_out` stores and `swap_in` brings back.
use operating_system.Common.{
  ℕ, zero, suc, ◌+◌, ◌-◌, ◌*◌, ◌/◌, ◌%◌, ◌≤◌, ◌<◌, ◌≡◌, ◌≢◌, refl, ◌⊎◌, inl, inr, ap, ◌∙◌, Bool,
  true, false, Option, none, some, arith, leb, ltb, if◌then◌else◌, ◌&&◌,
}
use operating_system.Block.{Bytes, Block, block_read-some, block_write-some, store}
use operating_system.Bitmap
use operating_system.Bitmap.{Bitmap}
use operating_system.Bitmap.Refine.{Models, update, fill_range, test_lem, reset_lem}
use operating_system.Bitmap.Scan.{IsFirstFit, flipped, scan_and_flip_lem}
use operating_system.Swap.{
  pgsize, sectors_per_page, Swap, chunk, put_chunk, write_from, read_from, swap_out, swap_in,
  swap_free,
}

-- The device has `n` slots, and `f` says which are in use.
pub record IsValid (s : Swap) (n : ℕ) (f : ℕ → Bool) : Type 0 where
  pub used : Models s.bitmap n f
  pub dev : Block
  pub has_dev : s.block ≡ some dev
  pub fits : n * sectors_per_page ≤ dev.size
  pub own : dev.foreign ≡ false

-- The sectors after `g i`, …, `g (i + n - 1)` went to `base + i` and on.
abbrev written : (ℕ → Bytes) → ℕ → (ℕ → Bytes) → ℕ → ℕ → ℕ → Bytes
written sectors base g i n j =
    if leb (base + i) j && ltb j (base + i + n) then g (j - base) else sectors j

written-suc :
    (sectors : ℕ → Bytes) (base : ℕ) (g : ℕ → Bytes) (i n j : ℕ)
    → written (store sectors (base + i) (g i)) base g (i + 1) n j
      ≡ written sectors base g i (suc n) j
written-suc sectors base g i n j = ground arith

record Wrote (b b' : Block) (base : ℕ) (page : Bytes) (i n : ℕ) : Type 0 where
  size : b'.size ≡ b.size
  own : b'.foreign ≡ b.foreign
  holds : (j : ℕ) → b'.sectors j ≡ written b.sectors base (chunk page) i n j

write_from-Wrote :
    (n : ℕ) (b : Block) (base : ℕ) (page : Bytes) (i : ℕ)
    → base + i + n ≤ b.size
    → b.foreign ≡ false
    → (b' : Block) × (write_from b base page i n ≡ some b') × Wrote b b' base page i n
unfolding write_from
write_from-Wrote zero b base page i h own =
    (b, refl, record { size = refl; own = refl; holds = λ j. ground arith })
write_from-Wrote (suc n) b base page i h own =
    let b1 : Block = record b {
      sectors = store b.sectors (base + i) (chunk page i);
      write_cnt = b.write_cnt + 1;
    } in
    let (b2, e, w) = write_from-Wrote n b1 base page (i + 1) (omega arith) own in
    (
      b2,
      rw (block_write-some b (base + i) (omega arith) (chunk page i) own) e,
      record {
        size = w.size;
        own = w.own;
        holds = λ j. w.holds j ∙ written-suc b.sectors base (chunk page) i n j;
      },
    )

-- The bytes after sectors `i`, …, `i + n - 1` of the page were read.
abbrev loaded : (ℕ → Bytes) → ℕ → Bytes → ℕ → ℕ → Bytes
loaded sectors base page i n j =
    if leb i (j / 512) && ltb (j / 512) (i + n) then sectors (base + j / 512) (j % 512) else page j

record Read (b b' : Block) (base : ℕ) (page page' : Bytes) (i n : ℕ) : Type 0 where
  size : b'.size ≡ b.size
  own : b'.foreign ≡ b.foreign
  same : b'.sectors ≡ b.sectors
  holds : (j : ℕ) → page' j ≡ loaded b.sectors base page i n j

loaded-suc :
    (sectors : ℕ → Bytes) (base : ℕ) (page : Bytes) (i n j : ℕ)
    → loaded sectors base (put_chunk page i (sectors (base + i))) (i + 1) n j
      ≡ loaded sectors base page i (suc n) j
loaded-suc sectors base page i n j = ground arith

read_from-Read :
    (n : ℕ) (b : Block) (base : ℕ) (page : Bytes) (i : ℕ)
    → base + i + n ≤ b.size
    → (page' : Bytes) × (b' : Block) × (read_from b base page i n ≡ some (page', b'))
      × Read b b' base page page' i n
unfolding read_from
read_from-Read zero b base page i h =
    (page, b, refl, record { size = refl; own = refl; same = refl; holds = λ j. ground arith })
read_from-Read (suc n) b base page i h =
    let b1 : Block = record b { read_cnt = b.read_cnt + 1 } in
    let (page2, b2, e, r) =
      read_from-Read n b1 base (put_chunk page i (b.sectors (base + i))) (i + 1) (omega arith) in
    (
      page2,
      b2,
      rw (block_read-some b (base + i) (omega arith)) e,
      record {
        size = r.size;
        own = r.own;
        same = r.same;
        holds = λ j. r.holds j ∙ loaded-suc b.sectors base page i n j;
      },
    )

-- What `swap_out` did: the slot was free and is now in use, it holds the page, and the sectors of
-- every other slot are as they were.
pub record Stored (s s' : Swap) (n : ℕ) (f : ℕ → Bool) (page : Bytes) (slot : ℕ) : Type 0 where
  pub in_range : slot < n
  pub was_free : f slot ≡ false
  pub valid : IsValid s' n (update f slot true)
  pub before : Block
  pub had_dev : s.block ≡ some before
  pub holds : (j : ℕ) → j < pgsize → valid.dev.sectors (slot * 8 + j / 512) (j % 512) ≡ page j
  pub others :
      (k j : ℕ) → k ≢ slot → j < 8 → valid.dev.sectors (k * 8 + j) ≡ before.sectors (k * 8 + j)

at : {d d' : Bytes} (j : ℕ) → d ≡ d' → d j ≡ d' j
at j e = ap (λ (t : Bytes). t j) e

written_in :
    (sectors : ℕ → Bytes) (base : ℕ) (g : ℕ → Bytes) (j : ℕ)
    → j < 8
    → written sectors base g 0 8 (base + j) ≡ g j
written_in sectors base g j h = ground arith

written_out :
    (sectors : ℕ → Bytes) (base : ℕ) (g : ℕ → Bytes) (j : ℕ)
    → (j < base) ⊎ (base + 8 ≤ j)
    → written sectors base g 0 8 j ≡ sectors j
written_out sectors base g j (inl h) = ground arith
written_out sectors base g j (inr h) = ground arith

chunk_back : (page : Bytes) (j : ℕ) → chunk page (j / 512) (j % 512) ≡ page j
chunk_back page j = ap page (omega arith)

module _ {s : Swap} {n : ℕ} {f : ℕ → Bool} (page : Bytes) (v : IsValid s n f) where
  -- The page goes to the slot that the search found.
  store_at :
      (slot : ℕ) (bitmap' : Bitmap)
      → Bitmap.scan_and_flip s.bitmap 0 1 false ≡ some (some slot, bitmap')
      → slot + 1 ≤ n
      → f slot ≡ false
      → Models bitmap' n (fill_range f slot 1 true)
      → (s' : Swap) × (swap_out s page ≡ some (slot, s')) × Stored s s' n f page slot
  unfolding swap_out
  store_at slot bitmap' e lt was m =
      let (b', eb, w) = write_from-Wrote 8 v.dev (slot * 8) page 0 (omega (arith, v.fits)) v.own in
      (
        record { block = some b'; bitmap = bitmap' },
        rw (e, v.has_dev, eb),
        record {
          in_range = omega arith;
          was_free = was;
          valid = record {
            used = record {
              cnt = m.cnt;
              words = m.words;
              agrees = λ j hj. m.agrees j hj ∙ ground arith;
            };
            dev = b';
            has_dev = refl;
            fits = omega (arith, v.fits, w.size);
            own = w.own ∙ v.own;
          };
          before = v.dev;
          had_dev = v.has_dev;
          holds = λ j hj.
              at (j % 512) (
                w.holds (slot * 8 + j / 512)
                ∙ written_in v.dev.sectors (slot * 8) (chunk page) (j / 512) (omega arith))
              ∙ chunk_back page j;
          others = λ k j ne hj.
              w.holds (k * 8 + j)
              ∙ written_out v.dev.sectors (slot * 8) (chunk page) (k * 8 + j) (omega arith);
        },
      )

  -- If a slot is free, `swap_out` does not panic: it stores the page in a slot that was free.
  pub swap_out-Stored :
      (i : ℕ)
      → i < n
      → f i ≡ false
      → (slot : ℕ) × (s' : Swap) × (swap_out s page ≡ some (slot, s')) × Stored s s' n f page slot
  swap_out-Stored i lt free = go (scan_and_flip_lem s.bitmap n f 0 1 false v.used (omega arith))
    where
      go :
          (o : Option ℕ) × (b' : Bitmap) × (Bitmap.scan_and_flip s.bitmap 0 1 false ≡ some (o, b'))
            × IsFirstFit f n 0 1 false o
            × Models b' n (flipped f 1 false o)
          → (slot : ℕ) × (s' : Swap) × (swap_out s page ≡ some (slot, s'))
            × Stored s s' n f page slot
      go (none, b', e, fit, m) = absurd (
          fit i (omega arith) (omega arith)
            (λ j p q. let same : i ≡ j = omega arith in rw (← same) free))
      go (some slot, b', e, fit, m) =
          let (s', es, st) = store_at slot b' e fit.1 (fit.2 slot (omega arith) (omega arith)) m in
          (slot, s', es, st)

  -- On a valid swap device with every slot in use, `swap_out` panics.
  pub swap_out-full : ((i : ℕ) → i < n → f i ≡ true) → swap_out s page ≡ none
  unfolding swap_out
  swap_out-full all_used = go (scan_and_flip_lem s.bitmap n f 0 1 false v.used (omega arith))
    where
      go :
          (o : Option ℕ) × (b' : Bitmap) × (Bitmap.scan_and_flip s.bitmap 0 1 false ≡ some (o, b'))
            × IsFirstFit f n 0 1 false o
            × Models b' n (flipped f 1 false o)
          → swap_out s page ≡ none
      go (none, b', e, fit, m) = rw e
      go (some slot, b', e, fit, m) =
          let hole : f slot ≡ false = fit.2 slot (omega arith) (omega arith) in
          let used : f slot ≡ true = all_used slot (omega arith) in absurd (ground arith)

-- Reading a used slot gives the bytes of its sectors and frees the slot.
pub swap_in_lem :
    {s : Swap} {n : ℕ} {f : ℕ → Bool} (slot : ℕ) (old : Bytes) (v : IsValid s n f)
    → slot < n
    → f slot ≡ true
    → (page : Bytes) × (s' : Swap) × (swap_in s slot old ≡ some (page, s'))
      × ((j : ℕ) → j < pgsize → page j ≡ v.dev.sectors (slot * 8 + j / 512) (j % 512))
      × IsValid s' n (update f slot false)
unfolding swap_in
swap_in_lem {s} {n} {f} slot old v lt used =
    let (page, b', er, r) = read_from-Read 8 v.dev (slot * 8) old 0 (omega (arith, v.fits)) in
    let (bm, em, m) = reset_lem s.bitmap n f slot v.used lt in
    (
      page,
      record { block = some b'; bitmap = bm },
      rw (test_lem s.bitmap n f slot v.used lt, used, v.has_dev, er, em),
      λ j hj. r.holds j ∙ ground arith,
      record {
        used = m;
        dev = b';
        has_dev = refl;
        fits = omega (arith, v.fits, r.size);
        own = r.own ∙ v.own;
      },
    )

-- On a valid swap device with a free slot, `swap_out` of a page does not panic, and `swap_in` from
-- the slot that it returned gives the page back byte for byte, whatever the buffer held; afterwards
-- the same slots are in use as before.
pub swap_in-swap_out :
    {s : Swap} {n : ℕ} {f : ℕ → Bool} (page old : Bytes) (i : ℕ)
    → IsValid s n f
    → i < n
    → f i ≡ false
    → (slot : ℕ) × (s' : Swap) × (page' : Bytes) × (s'' : Swap) × (swap_out s page
        ≡ some (slot, s'))
      × (swap_in s' slot old ≡ some (page', s''))
      × ((j : ℕ) → j < pgsize → page' j ≡ page j)
      × IsValid s'' n f
swap_in-swap_out {s} {n} {f} page old i v lt free =
    let (slot, s', eo, st) = swap_out-Stored page v i lt free in
    let (page', s'', ei, same, v'') = swap_in_lem slot old st.valid st.in_range (ground arith) in
    (
      slot,
      s',
      page',
      s'',
      eo,
      ei,
      λ j hj. same j hj ∙ st.holds j hj,
      record {
        used = record {
          cnt = v''.used.cnt;
          words = v''.used.words;
          agrees = λ j hj. v''.used.agrees j hj ∙ ground (arith, st.was_free);
        };
        dev = v''.dev;
        has_dev = v''.has_dev;
        fits = v''.fits;
        own = v''.own;
      },
    )

-- On a valid swap device, `swap_free` of a slot in use does not panic, frees that slot and no
-- other, and leaves the device alone.
pub swap_free_lem :
    {s : Swap} {n : ℕ} {f : ℕ → Bool} (slot : ℕ) (v : IsValid s n f)
    → slot < n
    → f slot ≡ true
    → (s' : Swap) × (swap_free s slot ≡ some s')
      × (s'.block ≡ s.block)
      × IsValid s' n (update f slot false)
unfolding swap_free
swap_free_lem {s} {n} {f} slot v lt used =
    let (bm, em, m) = reset_lem s.bitmap n f slot v.used lt in
    (
      record s { bitmap = bm },
      rw (test_lem s.bitmap n f slot v.used lt, used, em),
      refl,
      record { used = m; dev = v.dev; has_dev = v.has_dev; fits = v.fits; own = v.own },
    )
