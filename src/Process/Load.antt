-- ===== src/Process/Load.antt =====
-- `load_segment` of src/userprog/process.c: the pages that it puts into the table.
use operating_system.Common.{
  ℕ, zero, suc, ◌+◌, ◌*◌, ◌-◌, ◌%◌, ◌/◌, ◌^◌, ◌≤◌, ◌<◌, ◌≡◌, ◌≢◌, refl, ap, sym, subst, ◌∙◌, Bool,
  true, ◌||◌, ◌⊎◌, inl, inr, none, some, List, ◌∷◌, ◌==◌, ltb, if◌then◌else◌, arith, assert-true,
  if-true, if-false, min, ==_eq, ==_ne,
}
use operating_system.Frame.{Page, page_bin}
use operating_system.Swap.{pgsize}
use operating_system.Page.{page_find, page_insert, page_add_file}
use operating_system.Process.{load_from}

-- Page `k` of a segment of which `read` bytes come from the file.
pub record IsPage (upage ofs read file : ℕ) (writable : Bool) (k : ℕ) (q : Page) : Type 0 where
  pub kind : q.kind ≡ page_bin
  pub at : q.upage * pgsize ≡ upage + k * pgsize
  pub away : (q.kpage ≡ none) × (q.swap_slot ≡ none)
  pub from_file : (q.file ≡ some file) × (q.writable ≡ writable)
  pub at_ofs : q.ofs ≡ ofs + min (k * pgsize) read
  pub read_bytes : q.read_bytes ≡ min (read - k * pgsize) pgsize
  pub zero_bytes : q.zero_bytes ≡ pgsize - q.read_bytes

-- Page `k` for a later part of the segment.
IsPage-suc :
    (upage ofs read file : ℕ) (writable : Bool) (k : ℕ) (q : Page)
    → IsPage (upage + pgsize) (ofs + min read pgsize) (read - min read pgsize) file writable k q
    → IsPage upage ofs read file writable (k + 1) q
IsPage-suc upage ofs read file writable k q h = record {
  kind = h.kind;
  at = omega (arith, h.at);
  away = h.away;
  from_file = h.from_file;
  at_ofs = omega (arith, h.at_ofs);
  read_bytes = omega (arith, h.read_bytes);
  zero_bytes = h.zero_bytes;
}

module _ (file : ℕ) (writable : Bool) where
  -- The first page, as `load_from` adds it.
  abbrev first : (upage ofs read : ℕ) → Page
  first upage ofs read = record {
    kind = page_bin;
    upage = upage / pgsize;
    kpage = none;
    writable = writable;
    file = some file;
    ofs = ofs;
    read_bytes = min read pgsize;
    zero_bytes = pgsize - min read pgsize;
    swap_slot = none;
  }

  first-IsPage :
      (upage ofs read : ℕ)
      → upage % pgsize ≡ 0
      → IsPage upage ofs read file writable 0 (first upage ofs read)
  first-IsPage upage ofs read aligned = record {
    kind = refl;
    at = omega arith;
    away = (refl, refl);
    from_file = (refl, refl);
    at_ofs = omega arith;
    read_bytes = omega arith;
    zero_bytes = refl;
  }

  add_first :
      (spt : List Page) (upage ofs read : ℕ)
      → upage % pgsize ≡ 0
      → page_find spt upage ≡ none
      → page_add_file spt true upage file ofs (min read pgsize) (pgsize - min read pgsize) writable
        ≡ some (true, first upage ofs read ∷ spt)
  unfolding page_add_file page_insert
  add_first spt upage ofs read aligned fresh =
      assert-true (upage % pgsize == 0) _ (==_eq aligned) ∙ rw fresh

  -- What the loop leaves for a segment of `n` pages.
  pub record Loaded (n upage ofs read : ℕ) (spt spt' : List Page) : Type 0 where
    pub pages :
        (k : ℕ)
        → k < n
        → (q : Page) × (page_find spt' (upage + k * pgsize) ≡ some q)
          × IsPage upage ofs read file writable k q
    pub others :
        (a : ℕ)
        → a % pgsize ≡ 0
        → (a < upage) ⊎ (upage + n * pgsize ≤ a)
        → page_find spt' a ≡ page_find spt a

  find_first :
      (p : Page) (spt : List Page) (a : ℕ)
      → a % pgsize ≡ 0
      → p.upage ≡ a / pgsize
      → page_find (p ∷ spt) a ≡ some p
  unfolding page_find
  find_first p spt a aligned e = if-true (p.upage == a / pgsize) _ _ (==_eq e)

  find_other :
      (p : Page) (spt : List Page) (a : ℕ)
      → a % pgsize ≡ 0
      → p.upage ≢ a / pgsize
      → page_find (p ∷ spt) a ≡ page_find spt a
  unfolding page_find
  find_other p spt a aligned ne =
      if-false (p.upage == a / pgsize) _ _ (==_ne {a = p.upage} {b = a / pgsize} ne)

  load_from-end :
      (spt : List Page) (upage ofs read pad : ℕ)
      → read + pad ≡ 0
      → load_from 0 (λ a. true) file writable spt upage ofs read pad ≡ some (true, spt)
  unfolding load_from
  load_from-end spt upage ofs read pad e = if-false (ltb 0 read || ltb 0 pad) _ _ (ground arith)

  load_from-suc :
      (n : ℕ) (spt : List Page) (upage ofs read pad : ℕ)
      → read + pad ≡ suc n * pgsize
      → upage % pgsize ≡ 0
      → upage + suc n * pgsize < 2 ^ 32
      → ofs + suc n * pgsize < 2 ^ 32
      → page_find spt upage ≡ none
      → load_from (suc n) (λ a. true) file writable spt upage ofs read pad
        ≡ load_from n
            (λ a. true)
            file
            writable
            (first upage ofs read ∷ spt)
            (upage + pgsize)
            (ofs + min read pgsize)
            (read - min read pgsize)
            (n * pgsize - (read - min read pgsize))
  unfolding load_from
  load_from-suc n spt upage ofs read pad sum aligned fits fits_ofs fresh =
      let more : (ltb 0 read || ltb 0 pad) ≡ true = ground (arith, sum) in
      let size : (if ltb read pgsize then read else pgsize) ≡ min read pgsize = ground arith in
      let next : (upage + pgsize) % 2 ^ 32 ≡ upage + pgsize = omega (arith, fits) in
      let next_ofs : (ofs + min read pgsize) % 2 ^ 32 ≡ ofs + min read pgsize =
        omega (arith, fits_ofs) in
      let left : (pad + 2 ^ 32 - (pgsize - min read pgsize)) % 2 ^ 32
          ≡ n * pgsize - (read - min read pgsize) =
        omega (arith, sum, fits) in
      if-true (ltb 0 read || ltb 0 pad) _ _ more
      ∙ rw (size, add_first spt upage ofs read aligned fresh, next, next_ofs, left)

  pub load_from_lem :
      (n : ℕ) (spt : List Page) (upage ofs read pad : ℕ)
      → read + pad ≡ n * pgsize
      → upage % pgsize ≡ 0
      → upage + n * pgsize < 2 ^ 32
      → ofs + n * pgsize < 2 ^ 32
      → ((k : ℕ) → k < n → page_find spt (upage + k * pgsize) ≡ none)
      → (spt' : List Page) × (load_from n (λ a. true) file writable spt upage ofs read pad
          ≡ some (true, spt'))
        × Loaded n upage ofs read spt spt'
  load_from_lem zero spt upage ofs read pad sum aligned fits fits_ofs fresh = (
    spt,
    load_from-end spt upage ofs read pad (omega arith),
    record { pages = λ k lt. absurd (omega arith); others = λ a al out. refl },
  )
  load_from_lem (suc n) spt upage ofs read pad sum aligned fits fits_ofs fresh =
      let p = first upage ofs read in
      let here : page_find spt upage ≡ none =
        subst (λ u. page_find spt u ≡ none) (at_zero upage) (fresh 0 (omega arith)) in
      let (spt', call, rest) =
        load_from_lem n (p ∷ spt) (upage + pgsize) (ofs + min read pgsize) (read - min read pgsize)
          (n * pgsize - (read - min read pgsize)) (omega arith) (omega arith) (omega arith)
          (omega arith)
          (λ k lt.
            find_other p spt (upage + pgsize + k * pgsize) (omega arith)
              (λ e. absurd (omega (arith, e)))
            ∙ subst (λ u. page_find spt u ≡ none) (later upage k) (fresh (k + 1) (omega arith))) in
      (
        spt',
        load_from-suc n spt upage ofs read pad sum aligned fits fits_ofs here ∙ call,
        record {
          pages = λ k lt. elim (nat_cases k) [
            | inl z ↦ (
              p,
              ap (λ u. page_find spt' u) (omega (arith, z))
                  ∙ rest.others upage aligned (inl (omega arith))
                  ∙ find_first p spt upage aligned refl,
              subst (λ k. IsPage upage ofs read file writable k p) (sym z)
                  (first-IsPage upage ofs read aligned),
            )
            | inr (j, s) ↦
                let (q, found, is_page) = rest.pages j (omega arith) in
                (
                  q,
                  ap (λ u. page_find spt' u) (omega (arith, s)) ∙ found,
                  subst (λ k. IsPage upage ofs read file writable k q) (sym s)
                      (IsPage-suc upage ofs read file writable j q is_page),
                )
          ];
          others = λ a al out.
              rest.others a al
                (elim out [ inl lt ↦ inl (omega arith) | inr ge ↦ inr (omega arith) ])
              ∙ find_other p spt a al
                  (λ e. elim out [ inl lt ↦ absurd (omega arith) | inr ge ↦ absurd (omega arith) ]);
        },
      )
    where
      at_zero : (u : ℕ) → u + 0 * pgsize ≡ u
      at_zero u = omega arith

      later : (u k : ℕ) → u + (k + 1) * pgsize ≡ u + pgsize + k * pgsize
      later u k = omega arith

      nat_cases : (k : ℕ) → (k ≡ 0) ⊎ ((j : ℕ) × (k ≡ j + 1))
      nat_cases zero = inl refl
      nat_cases (suc j) = inr (j, omega arith)
