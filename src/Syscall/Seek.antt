-- ===== src/Syscall/Seek.antt =====
-- What a user program's `seek` does to the kernel.
use operating_system.Common.{
  ℕ, ◌-◌, ◌≤◌, ◌<◌, ◌^◌, ◌≡◌, ap, ◌∙◌, true, Option, none, some, arith, assert-true,
}
use operating_system.Common.Int.{ℤ, pos, ltb_ℤ, int32, int32_self}
use operating_system.File.{Files, put_file, file_seek, file_tell}
use operating_system.Syscall.{FdTable, get_file, seek, tell}

int32-large : (p : ℕ) → 2 ^ 31 ≤ p → p < 2 ^ 32 → ltb_ℤ (int32 (pos p)) (pos 0) ≡ true
unfolding int32
int32-large p h k = ground arith

seek_at :
    (s : Files) (table : FdTable) (fd : ℤ) (f p : ℕ)
    → get_file table fd ≡ some f
    → seek s table fd p ≡ file_seek s f (int32 (pos p))
unfolding seek
seek_at s table fd f p e =
    ap
      (λ (o : Option ℕ). elim o as (λ x. Option Files) [
        | none ↦ some s
        | some g ↦ file_seek s g (int32 (pos p))
      ])
      e

seek_to :
    (s : Files) (f p : ℕ)
    → file_seek s f (pos p) ≡ some (put_file s f (record (s.files f) { position = p }))
unfolding file_seek
seek_to s f p = assert-true _ _ (ground arith)

-- `seek` of an open descriptor to a position below 2^31 does not panic, and `tell` then returns
-- that position.
pub tell-seek :
    (s : Files) (table : FdTable) (fd : ℤ) (f p : ℕ)
    → get_file table fd ≡ some f
    → p < 2 ^ 31
    → (s' : Files) × (seek s table fd p ≡ some s') × (tell s' table fd ≡ p)
unfolding tell file_tell
tell-seek s table fd f p e h =
    let s' = put_file s f (record (s.files f) { position = p }) in
    (
      s',
      seek_at s table fd f p e
          ∙ ap (file_seek s f) (int32_self (pos p) (omega arith))
          ∙ seek_to s f p,
      ap (λ (o : Option ℕ). elim o as (λ x. ℕ) [ none ↦ 2 ^ 32 - 1 | some g ↦ file_tell s' g ]) e
          ∙ ground arith,
    )

-- `seek` of an open descriptor to a position from 2^31 to 2^32 - 1 fails the ASSERT of `file_seek`,
-- and so panics the kernel.
pub seek_panics :
    (s : Files) (table : FdTable) (fd : ℤ) (f p : ℕ)
    → get_file table fd ≡ some f
    → 2 ^ 31 ≤ p
    → p < 2 ^ 32
    → seek s table fd p ≡ none
unfolding file_seek
seek_panics s table fd f p e h k = seek_at s table fd f p e ∙ rw (int32-large p h k)
