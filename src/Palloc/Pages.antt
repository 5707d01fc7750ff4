-- ===== src/Palloc/Pages.antt =====
-- Page allocation: what the two pools hand out and take back.
use operating_system.Common.{
  max, ℕ, ◌+◌, ◌-◌, ◌≤◌, ◌<◌, ◌≡◌, ◌≢◌, refl, ap, ◌∙◌, sym, subst, ◌⊎◌, inl, inr, Bool, true, false,
  Option, none, some, arith, ◌==◌, le→leb, lt→ltb, le→ltb, if◌then◌else◌,
}
use native.Mathlib.Decide.{dec_le}
use operating_system.Bitmap
use operating_system.Bitmap.{Bitmap, same}
use operating_system.Bitmap.Refine.{Models, fill_range, set_multiple_lem}
use operating_system.Bitmap.Scan.{IsFirstFit, IsRun, flipped, scan_and_flip_lem, all-IsRun}
use operating_system.Palloc.{
  clear_pages, Pool, Memory, Flags, pool_of, put_pool, memset_pages, palloc_get_multiple,
  page_from_pool, free_in, palloc_free_multiple,
}

-- Pool `u` (true for the user pool) has `n u` pages, `f u` says which are in use, and the pools do
-- not overlap.
pub record IsValid (m : Memory) (n : Bool → ℕ) (f : Bool → ℕ → Bool) : Type 0 where
  pub maps : (u : Bool) → Models (pool_of m u).used_map (n u) (f u)
  pub apart : m.kernel_pool.base + n false ≤ m.user_pool.base

abbrev pub update_pool : (Bool → ℕ → Bool) → Bool → (ℕ → Bool) → Bool → ℕ → Bool
update_pool f user g u j = if same u user then g j else f u j

-- `cnt` pages from `page` on lie in pool `u`, none of them was in use, all are now, and nothing
-- else changed but the bytes that PAL_ZERO clears.
pub record Got (m m' : Memory) (n : Bool → ℕ) (f : Bool → ℕ → Bool) (zero_fill u : Bool)
    (cnt page : ℕ) : Type 0 where
  pub idx : ℕ
  pub at_idx : page ≡ (pool_of m u).base + idx
  pub fits : idx + cnt ≤ n u
  pub was_free : IsRun (f u) idx cnt false
  pub valid : IsValid m' n (update_pool f u (fill_range (f u) idx cnt true))
  pub bases : (w : Bool) → (pool_of m' w).base ≡ (pool_of m w).base
  pub bytes :
      (p ofs : ℕ)
      → m'.bytes p ofs
        ≡ (if zero_fill then memset_pages m.bytes page cnt 0 p ofs else m.bytes p ofs)

-- No run of `cnt` free pages is left in pool `u`.
abbrev pub NoRun : (Bool → ℕ) → (Bool → ℕ → Bool) → Bool → ℕ → Type 0
NoRun n f u cnt = (j : ℕ) → j + cnt ≤ n u → ¬ IsRun (f u) j cnt false

put-IsValid :
    (m : Memory) (n : Bool → ℕ) (f : Bool → ℕ → Bool) (u : Bool) (g : ℕ → Bool) (b : Bitmap)
    → IsValid m n f
    → Models b (n u) g
    → IsValid (put_pool m u (record (pool_of m u) { used_map = b })) n (update_pool f u g)
put-IsValid m n f true g b v mb = record {
  maps = elim [ true ↦ mb | false ↦ v.maps false ];
  apart = v.apart;
}
put-IsValid m n f false g b v mb = record {
  maps = elim [ true ↦ v.maps true | false ↦ mb ];
  apart = v.apart;
}

put_bases :
    (m : Memory) (u : Bool) (b : Bitmap) (w : Bool)
    → (pool_of (put_pool m u (record (pool_of m u) { used_map = b })) w).base ≡ (pool_of m w).base
put_bases m true b true = refl
put_bases m true b false = refl
put_bases m false b true = refl
put_bases m false b false = refl

put_bytes : (m : Memory) (u : Bool) (p : Pool) → (put_pool m u p).bytes ≡ m.bytes
put_bytes m true p = refl
put_bytes m false p = refl

-- What the client gets: the pool's new bitmap, and the pages cleared or not.
abbrev handed : Memory → Bool → Bool → ℕ → ℕ → Bitmap → Memory
handed m zero_fill u i cnt b =
    let pool = pool_of m u in
    clear_pages zero_fill (pool.base + i) cnt (put_pool m u (record pool { used_map = b }))

handed-Got :
    (m : Memory) (n : Bool → ℕ) (f : Bool → ℕ → Bool) (zero_fill u : Bool) (cnt i : ℕ) (b : Bitmap)
    → IsValid m n f
    → i + cnt ≤ n u
    → IsRun (f u) i cnt false
    → Models b (n u) (fill_range (f u) i cnt true)
    → Got m (handed m zero_fill u i cnt b) n f zero_fill u cnt ((pool_of m u).base + i)
handed-Got m n f false u cnt i b v fit run mb = record {
  idx = i;
  at_idx = refl;
  fits = fit;
  was_free = run;
  valid = put-IsValid m n f u _ b v mb;
  bases = put_bases m u b;
  bytes = λ p ofs. ap (λ (t : ℕ → ℕ → ℕ). t p ofs) (put_bytes m u _);
}
handed-Got m n f true u cnt i b v fit run mb =
    let w = put-IsValid m n f u _ b v mb in
    record {
      idx = i;
      at_idx = refl;
      fits = fit;
      was_free = run;
      valid = record { maps = elim [ true ↦ w.maps true | false ↦ w.maps false ]; apart = w.apart };
      bases = elim [ true ↦ put_bases m u b true | false ↦ put_bases m u b false ];
      bytes = λ p ofs.
          ap (λ (t : ℕ → ℕ → ℕ). memset_pages t ((pool_of m u).base + i) cnt 0 p ofs)
            (put_bytes m u _);
    }

module _ {m : Memory} {n : Bool → ℕ} {f : Bool → ℕ → Bool} (flags : Flags) (cnt : ℕ)
    (v : IsValid m n f) where
  -- From valid pools, a request for at least one page takes a run of free pages of the pool that
  -- PAL_USER names, marks exactly those and clears them under PAL_ZERO; or there is no such run,
  -- and it panics under PAL_ASSERT and else returns NULL with nothing changed.
  pub palloc_get_multiple_lem :
      0 < cnt
      → ((page : ℕ) × (m' : Memory) × (palloc_get_multiple m flags cnt ≡ some (some page, m'))
          × Got m m' n f flags.pal_zero flags.pal_user cnt page)
        ⊎ ((palloc_get_multiple m flags cnt ≡ (if flags.pal_assert then none else some (none, m)))
            × NoRun n f flags.pal_user cnt)
  unfolding palloc_get_multiple
  palloc_get_multiple_lem pos =
      go (scan_and_flip_lem (pool_of m u).used_map (n u) (f u) 0 cnt false (v.maps u) (omega arith))
    where
      u : Bool
      u = flags.pal_user

      nz : (cnt == 0) ≡ false
      nz = ground arith

      go :
          (o : Option ℕ) × (b : Bitmap) × (Bitmap.scan_and_flip (pool_of m u).used_map 0 cnt false
              ≡ some (o, b))
            × IsFirstFit (f u) (n u) 0 cnt false o
            × Models b (n u) (flipped (f u) cnt false o)
          → ((page : ℕ) × (m' : Memory) × (palloc_get_multiple m flags cnt ≡ some (some page, m'))
              × Got m m' n f flags.pal_zero flags.pal_user cnt page)
            ⊎ ((palloc_get_multiple m flags cnt
                  ≡ (if flags.pal_assert then none else some (none, m)))
                × NoRun n f flags.pal_user cnt)
      go (none, b, e, fit, mb) = inr (rw (nz, e), λ j h. fit j (omega arith) h)
      go (some i, b, e, fit, mb) = inl (
        (pool_of m u).base + i,
        handed m flags.pal_zero u i cnt b,
        rw (nz, e),
        handed-Got m n f flags.pal_zero u cnt i b v fit.1 fit.2 mb,
      )

  -- A successful request got pages that were free.
  pub Got-of_some :
      {page : ℕ} {m' : Memory}
      → 0 < cnt
      → palloc_get_multiple m flags cnt ≡ some (some page, m')
      → Got m m' n f flags.pal_zero flags.pal_user cnt page
  Got-of_some {page} {m'} pos e = go (palloc_get_multiple_lem pos)
    where
      Goal : Memory → ℕ → Type 0
      Goal x p = Got m x n f flags.pal_zero flags.pal_user cnt p

      answer : Bool → Option (Option ℕ × Memory)
      answer b = if b then none else some (none, m)

      not_null : (b : Bool) → answer b ≢ some (some page, m')
      not_null true = λ h. cc
      not_null false = λ h. cc

      go :
          ((page : ℕ) × (m' : Memory) × (palloc_get_multiple m flags cnt ≡ some (some page, m'))
              × Got m m' n f flags.pal_zero flags.pal_user cnt page)
            ⊎ ((palloc_get_multiple m flags cnt
                  ≡ (if flags.pal_assert then none else some (none, m)))
                × NoRun n f flags.pal_user cnt)
          → Got m m' n f flags.pal_zero flags.pal_user cnt page
      go (inl (p, x, e', got)) =
          let same_page : p ≡ page = cc in
          let same_mem : x ≡ m' = cc in
          subst (λ y. Goal y page) same_mem (subst (Goal x) same_page got)
      go (inr (e', no_run)) = absurd (not_null flags.pal_assert (sym e' ∙ e))

-- Pages given back to pool `u`: they must lie in it and be in use, and are free afterwards.
free_in_lem :
    (m : Memory) (n : Bool → ℕ) (f : Bool → ℕ → Bool) (u : Bool) (idx cnt page : ℕ)
    → IsValid m n f
    → page ≡ (pool_of m u).base + idx
    → idx + cnt ≤ n u
    → IsRun (f u) idx cnt true
    → (m' : Memory) × (free_in m u page cnt ≡ some m')
      × IsValid m' n (update_pool f u (fill_range (f u) idx cnt false))
unfolding free_in
free_in_lem m n f u idx cnt page v e fit run =
    let here : page - (pool_of m u).base ≡ idx = omega arith in
    let (b, eb, mb) =
      set_multiple_lem (pool_of m u).used_map (n u) (f u) idx cnt false (v.maps u) fit in
    let w = put-IsValid m n f u _ b v mb in
    (
      record (put_pool m u (record (pool_of m u) { used_map = b })) {
        bytes = memset_pages m.bytes page cnt 0xcc;
      },
      rw (here, all-IsRun (pool_of m u).used_map (n u) (f u) idx cnt (v.maps u) fit run, eb),
      record { maps = elim [ true ↦ w.maps true | false ↦ w.maps false ]; apart = w.apart },
    )

pool_yes :
    (p : Pool) (n : ℕ) (f : ℕ → Bool) (page : ℕ)
    → Models p.used_map n f
    → p.base ≤ page
    → page < p.base + n
    → page_from_pool p page ≡ true
unfolding page_from_pool
pool_yes p n f page mb lo hi =
    rw (le→leb p.base page lo, lt→ltb page (p.base + p.used_map.bit_cnt) (omega (arith, mb.cnt)))

pool_no :
    (p : Pool) (n : ℕ) (f : ℕ → Bool) (page : ℕ)
    → Models p.used_map n f
    → p.base + n ≤ page
    → page_from_pool p page ≡ false
unfolding page_from_pool
pool_no p n f page mb lo = rw (
  le→leb p.base page (omega arith),
  le→ltb page (p.base + p.used_map.bit_cnt) (omega (arith, mb.cnt)),
)

-- `palloc_free_multiple` of pages in use finds the pool that they came from, never panics, and
-- frees exactly those pages.
pub palloc_free_multiple_lem :
    (m : Memory) (n : Bool → ℕ) (f : Bool → ℕ → Bool) (u : Bool) (idx cnt page : ℕ)
    → IsValid m n f
    → 0 < cnt
    → page ≡ (pool_of m u).base + idx
    → idx + cnt ≤ n u
    → IsRun (f u) idx cnt true
    → (m' : Memory) × (palloc_free_multiple m (some page) cnt ≡ some m')
      × IsValid m' n (update_pool f u (fill_range (f u) idx cnt false))
unfolding palloc_free_multiple
palloc_free_multiple_lem m n f true idx cnt page v pos e fit run =
    let nz : (cnt == 0) ≡ false = ground arith in
    rw
      (
        nz,
        pool_no m.kernel_pool (n false) (f false) page (v.maps false) (omega (arith, v.apart)),
        pool_yes m.user_pool (n true) (f true) page (v.maps true) (omega arith) (omega arith),
      )
      (free_in_lem m n f true idx cnt page v e fit run)
palloc_free_multiple_lem m n f false idx cnt page v pos e fit run =
    let nz : (cnt == 0) ≡ false = ground arith in
    rw
      (
        nz,
        pool_yes m.kernel_pool (n false) (f false) page (v.maps false) (omega arith) (omega arith),
      )
      (free_in_lem m n f false idx cnt page v e fit run)

-- The bits after a run of free pages was taken and given back are the bits before.
taken_back :
    (f : Bool → ℕ → Bool) (u : Bool) (idx cnt : ℕ)
    → IsRun (f u) idx cnt false
    → (w : Bool) (j : ℕ)
    → let g = update_pool f u (fill_range (f u) idx cnt true) in
      update_pool g u (fill_range (g u) idx cnt false) w j ≡ f w j
taken_back f true idx cnt run true j = ground (arith, run j)
taken_back f true idx cnt run false j = refl
taken_back f false idx cnt run true j = refl
taken_back f false idx cnt run false j = ground (arith, run j)

-- Pages just taken are in use.
now_used :
    (f : Bool → ℕ → Bool) (u : Bool) (idx cnt : ℕ)
    → IsRun (update_pool f u (fill_range (f u) idx cnt true) u) idx cnt true
now_used f true idx cnt j p q = ground arith
now_used f false idx cnt j p q = ground arith

-- A run that is free after another was taken does not overlap it.
runs_apart :
    (f : Bool → ℕ → Bool) (u1 u2 : Bool) (i1 c1 i2 c2 : ℕ)
    → IsRun (update_pool f u1 (fill_range (f u1) i1 c1 true) u2) i2 c2 false
    → 0 < c1
    → 0 < c2
    → same u2 u1 ≡ true
    → (i1 + c1 ≤ i2) ⊎ (i2 + c2 ≤ i1)
runs_apart f u1 u2 i1 c1 i2 c2 run p1 p2 e = elim (dec_le (i1 + c1) i2) [
  | yes h ↦ inl h
  | no h ↦ elim (dec_le (i2 + c2) i1) [
    | yes k ↦ inr k
    | no k ↦
        let free = run (max i1 i2) (omega arith) (omega arith) in
        let used : fill_range (f u1) i1 c1 true (max i1 i2) ≡ false = rw e at free in
        absurd (ground arith)
  ]
]

pages_apart :
    (m : Memory) (n : Bool → ℕ) (f : Bool → ℕ → Bool) (u1 u2 : Bool) (i1 c1 i2 c2 p1 p2 : ℕ)
    → IsValid m n f
    → p1 ≡ (pool_of m u1).base + i1
    → p2 ≡ (pool_of m u2).base + i2
    → i1 + c1 ≤ n u1
    → i2 + c2 ≤ n u2
    → (same u2 u1 ≡ true → (i1 + c1 ≤ i2) ⊎ (i2 + c2 ≤ i1))
    → (p1 + c1 ≤ p2) ⊎ (p2 + c2 ≤ p1)
pages_apart m n f true true i1 c1 i2 c2 p1 p2 v e1 e2 h1 h2 h = let d = h refl in omega arith
pages_apart m n f true false i1 c1 i2 c2 p1 p2 v e1 e2 h1 h2 h = omega (arith, v.apart)
pages_apart m n f false true i1 c1 i2 c2 p1 p2 v e1 e2 h1 h2 h = omega (arith, v.apart)
pages_apart m n f false false i1 c1 i2 c2 p1 p2 v e1 e2 h1 h2 h = let d = h refl in omega arith

same_bits :
    (m : Memory) (n : Bool → ℕ) (f g : Bool → ℕ → Bool)
    → IsValid m n f
    → ((u : Bool) (j : ℕ) → f u j ≡ g u j)
    → IsValid m n g
same_bits m n f g v h = record {
  maps = λ u. record {
    cnt = (v.maps u).cnt;
    words = (v.maps u).words;
    agrees = λ j hj. (v.maps u).agrees j hj ∙ h u j;
  };
  apart = v.apart;
}

-- From valid pools, the pages that a request for at least one page returned can be freed without a
-- panic, and afterwards the same pages are in use as before the request.
pub palloc_free-get :
    {m m' : Memory} {n : Bool → ℕ} {f : Bool → ℕ → Bool} (flags : Flags) (cnt page : ℕ)
    → IsValid m n f
    → 0 < cnt
    → palloc_get_multiple m flags cnt ≡ some (some page, m')
    → (m'' : Memory) × (palloc_free_multiple m' (some page) cnt ≡ some m'') × IsValid m'' n f
palloc_free-get {m} {m'} {n} {f} flags cnt page v pos e =
    let got = Got-of_some flags cnt v pos e in
    let u = flags.pal_user in
    let g = update_pool f u (fill_range (f u) got.idx cnt true) in
    let (m'', e'', v'') =
      palloc_free_multiple_lem m' n g u got.idx cnt page got.valid pos
        (got.at_idx ∙ ap (λ k. k + got.idx) (sym (got.bases u))) got.fits
        (now_used f u got.idx cnt) in
    (m'', e'', same_bits m'' n _ f v'' (taken_back f u got.idx cnt got.was_free))

-- From valid pools, the pages that two successful requests in a row return, each for at least one
-- page and from either pool, do not overlap.
pub palloc_get_disjoint :
    {m m1 m2 : Memory} {n : Bool → ℕ} {f : Bool → ℕ → Bool} (flags1 flags2 : Flags)
    (cnt1 cnt2 page1 page2 : ℕ)
    → IsValid m n f
    → 0 < cnt1
    → 0 < cnt2
    → palloc_get_multiple m flags1 cnt1 ≡ some (some page1, m1)
    → palloc_get_multiple m1 flags2 cnt2 ≡ some (some page2, m2)
    → (page1 + cnt1 ≤ page2) ⊎ (page2 + cnt2 ≤ page1)
palloc_get_disjoint {m} {n} {f} flags1 flags2 cnt1 cnt2 page1 page2 v pos1 pos2 e1 e2 =
    let got1 = Got-of_some flags1 cnt1 v pos1 e1 in
    let got2 = Got-of_some flags2 cnt2 got1.valid pos2 e2 in
    pages_apart m n f flags1.pal_user flags2.pal_user got1.idx cnt1 got2.idx cnt2 page1 page2 v
      got1.at_idx (got2.at_idx ∙ ap (λ k. k + got2.idx) (got1.bases flags2.pal_user)) got1.fits
      got2.fits
      (runs_apart f flags1.pal_user flags2.pal_user got1.idx cnt1 got2.idx cnt2 got2.was_free pos1
        pos2)
