-- ===== src/File/Deny.antt =====
-- The counts of denied writes that src/filesys/file.c and src/filesys/inode.c keep.
use operating_system.Common.{
  ℕ, ◌+◌, ◌-◌, ◌≤◌, ◌<◌, ◌≡◌, refl, ap, sym, subst, ◌≢◌, ◌∙◌, Bool, true, false, ◌&&◌, some, List,
  [], ◌∷◌, ◌==◌, arith, Bool-cases, inl, inr, if-true, if-false, ◌>>=◌, ==_ne,
}
use native.Mathlib.Decide.{ℕ_discrete}
use operating_system.KernelList.Order.{count}
use operating_system.Block.{Bytes}
use operating_system.Inode.Deny.{
  inode_deny_write-some, inode_allow_write-some, inode_write_at-denied,
}
use operating_system.File.{
  Files, inode_of, put_file, put_inode, file_deny_write, file_allow_write, file_write_at,
}

-- The open files of inode `i`, and those of them that deny writes.
abbrev pub openers : Files → ℕ → ℕ
openers s i = count (λ f. (s.files f).inode == i) s.open_files

abbrev pub deniers : Files → ℕ → ℕ
deniers s i = count (λ f. ((s.files f).inode == i) && (s.files f).deny_write) s.open_files

-- Each open file stands once in the store, and each inode counts its openers (of which the kernel
-- may hold more) and exactly the files that deny writes to it.
pub record IsValid (s : Files) : Type 0 where
  pub once : (f : ℕ) → count (λ g. g == f) s.open_files ≤ 1
  pub opened : (i : ℕ) → openers s i ≤ (s.inodes i).open_cnt
  pub denied : (i : ℕ) → (s.inodes i).deny_write_cnt ≡ deniers s i

-- `deniers` after the flag of one file was set to `b`, over any list of files in which it stands
-- `n` times.
abbrev flagged : Files → ℕ → Bool → Files
flagged s f b = put_file s f (record (s.files f) { deny_write = b })

abbrev deniers_in : Files → ℕ → List ℕ → ℕ
deniers_in s i fs = count (λ f. ((s.files f).inode == i) && (s.files f).deny_write) fs

abbrev openers_in : Files → ℕ → List ℕ → ℕ
openers_in s i fs = count (λ f. (s.files f).inode == i) fs

openers-flagged :
    (s : Files) (f : ℕ) (b : Bool) (i : ℕ) (fs : List ℕ)
    → openers_in (flagged s f b) i fs ≡ openers_in s i fs
openers-flagged s f b i [] = refl
openers-flagged s f b i (g ∷ gs) = ground (arith, openers-flagged s f b i gs)

deniers-flagged_other :
    (s : Files) (f : ℕ) (b : Bool) (i : ℕ) (fs : List ℕ)
    → (((s.files f).inode == i) ≡ false)
    → deniers_in (flagged s f b) i fs ≡ deniers_in s i fs
deniers-flagged_other s f b i [] ne = refl
deniers-flagged_other s f b i (g ∷ gs) ne = ground (arith, deniers-flagged_other s f b i gs ne)

deniers-flagged :
    (s : Files) (f : ℕ) (fs : List ℕ)
    → (s.files f).deny_write ≡ false
    → deniers_in (flagged s f true) (s.files f).inode fs
      ≡ deniers_in s (s.files f).inode fs + count (λ g. g == f) fs
deniers-flagged s f [] h = omega arith
deniers-flagged s f (g ∷ gs) h = ground (arith, deniers-flagged s f gs h)

deniers-unflagged :
    (s : Files) (f : ℕ) (fs : List ℕ)
    → (s.files f).deny_write ≡ true
    → deniers_in (flagged s f false) (s.files f).inode fs + count (λ g. g == f) fs
      ≡ deniers_in s (s.files f).inode fs
deniers-unflagged s f [] h = omega arith
deniers-unflagged s f (g ∷ gs) h = ground (arith, deniers-unflagged s f gs h)

-- A file that does not deny writes yet is one opener more than there are files that do.
room :
    (s : Files) (f : ℕ) (fs : List ℕ)
    → (s.files f).deny_write ≡ false
    → deniers_in s (s.files f).inode fs + count (λ g. g == f) fs ≤ openers_in s (s.files f).inode fs
room s f [] h = omega arith
room s f (g ∷ gs) h = ground (arith, room s f gs h)

deniers_pos :
    (s : Files) (f : ℕ) (fs : List ℕ)
    → (s.files f).deny_write ≡ true
    → 0 < count (λ g. g == f) fs
    → 0 < deniers_in s (s.files f).inode fs
deniers_pos s f [] t h = absurd (omega arith)
deniers_pos s f (g ∷ gs) t h = elim (ℕ_discrete g f) [
  | yes p ↦ ground arith
  | no np ↦ ground (arith, deniers_pos s f gs t (ground arith))
]

deniers_openers : (s : Files) (i : ℕ) (fs : List ℕ) → deniers_in s i fs ≤ openers_in s i fs
deniers_openers s i [] = omega arith
deniers_openers s i (g ∷ gs) = ground (arith, deniers_openers s i gs)

-- The store after `file_deny_write` by a file that had not denied writes, and after
-- `file_allow_write` by one that had.
abbrev counted : Files → ℕ → Bool → ℕ → Files
counted s f b n =
    put_inode (flagged s f b) (s.files f).inode (record (inode_of s f) { deny_write_cnt = n })

-- The new count is right.
counted-IsValid :
    {s : Files} (v : IsValid s) (f : ℕ) (b : Bool) (n : ℕ)
    → n ≡ deniers (flagged s f b) (s.files f).inode
    → IsValid (counted s f b n)
counted-IsValid {s} v f b n e = record {
  once = v.once;
  opened = λ i. elim (ℕ_discrete i (s.files f).inode) [
    | yes p ↦ ground (arith, openers-flagged s f b i s.open_files, v.opened i)
    | no np ↦ ground (arith, openers-flagged s f b i s.open_files, v.opened i)
  ];
  denied = λ i. elim (ℕ_discrete i (s.files f).inode) [
    | yes p ↦
        subst (λ j. ((counted s f b n).inodes j).deny_write_cnt ≡ deniers (counted s f b n) j)
          (sym p) (here ∙ e)
    | no np ↦
        ground
          (arith, v.denied i, deniers-flagged_other s f b i s.open_files (==_ne (λ h. np (sym h))))
  ];
}
  where
    here : ((counted s f b n).inodes (s.files f).inode).deny_write_cnt ≡ n
    here = ground arith

-- No file can write to an inode of which some open file denies writes.
denied_all :
    (s : Files)
    → IsValid s
    → (i : ℕ) → 0 < deniers s i
    → (g : ℕ) → (s.files g).inode ≡ i
    → (bounce : Bool) (buffer : Bytes) (size file_ofs : ℕ)
    → file_write_at s bounce g buffer size file_ofs ≡ some (0, s)
unfolding file_write_at
denied_all s v i p g e bounce buffer size file_ofs =
    ap (λ m. m >>= λ r. some (r.0, record s { device = r.1 }))
      (inode_write_at-denied (inode_of s g)
        (subst (λ j. 0 < (s.inodes j).deny_write_cnt) (sym e) (omega (arith, v.denied i))) s.device
        bounce buffer size file_ofs)

-- In a valid store, `file_deny_write` of an open file fails no ASSERT and keeps the store valid,
-- and in the new store no file of the same inode can write: each write is of 0 bytes and changes
-- nothing.
pub file_deny_write_lem :
    {s : Files} (v : IsValid s) (f : ℕ)
    → 0 < count (λ g. g == f) s.open_files
    → (s' : Files) × (file_deny_write s f ≡ some s')
      × IsValid s'
      × ((s'.files f).deny_write ≡ true)
      × ((g : ℕ)
          → (s'.files g).inode ≡ (s'.files f).inode
          → (bounce : Bool) (buffer : Bytes) (size file_ofs : ℕ)
          → file_write_at s' bounce g buffer size file_ofs ≡ some (0, s'))
unfolding file_deny_write
file_deny_write_lem {s} v f isopen = elim (Bool-cases (s.files f).deny_write) [
  | inl t ↦ (
    s,
    if-true _ _ _ t,
    v,
    t,
    λ g e. denied_all s v (s.files f).inode (deniers_pos s f s.open_files t isopen) g e,
  )
  | inr t ↦
      let i = (s.files f).inode in
      let n = (inode_of s f).deny_write_cnt + 1 in
      let s' = counted s f true n in
      let d = deniers-flagged s f s.open_files t in
      let v' = counted-IsValid v f true n (omega (arith, d, v.denied i, v.once f)) in
      (
        s',
        if-false _ _ _ t
            ∙ ap (λ m. m >>= λ r. some (put_inode (flagged s f true) (s.files f).inode r))
                (inode_deny_write-some (inode_of s f)
                  (omega (arith, room s f s.open_files t, v.denied i, v.opened i))),
        v',
        ground arith,
        λ g e. denied_all s' v' (s'.files f).inode (ground (arith, d, v.denied i)) g e,
      )
]

-- In a valid store, `file_allow_write` of an open file fails no ASSERT, keeps the store valid and
-- takes back the denial of writes of that file alone.
pub file_allow_write_lem :
    {s : Files} (v : IsValid s) (f : ℕ)
    → 0 < count (λ g. g == f) s.open_files
    → (s' : Files) × (file_allow_write s f ≡ some s')
      × IsValid s'
      × ((s'.files f).deny_write ≡ false)
      × ((g : ℕ) → g ≢ f → s'.files g ≡ s.files g)
unfolding file_allow_write
file_allow_write_lem {s} v f isopen = elim (Bool-cases (s.files f).deny_write) [
  | inr t ↦ (s, if-false _ _ _ t, v, t, λ g ne. refl)
  | inl t ↦
      let i = (s.files f).inode in
      let n = (inode_of s f).deny_write_cnt - 1 in
      let d = deniers-unflagged s f s.open_files t in
      (
        counted s f false n,
        if-true _ _ _ t
            ∙ ap (λ m. m >>= λ r. some (put_inode (flagged s f false) (s.files f).inode r))
                (inode_allow_write-some (inode_of s f) (omega (arith, d, v.denied i))
                  (omega (arith, v.denied i, v.opened i, deniers_openers s i s.open_files))),
        counted-IsValid v f false n (omega (arith, d, v.denied i, v.once f)),
        ground arith,
        λ g ne. ground arith,
      )
]
