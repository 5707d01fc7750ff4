-- ===== src/Inode/Write.antt =====
-- `inode_write_at` of src/filesys/inode.c against the bytes of the file.
use operating_system.Common.{
  ℕ, zero, suc, ◌+◌, ◌-◌, ◌/◌, ◌%◌, ◌≤◌, ◌<◌, ◌≡◌, refl, ap, ◌∙◌, Bool, true, false, ◌||◌, ◌&&◌,
  some, arith, ◌==◌, if◌then◌else◌, ◌>>=◌, lt→ltb, if-true, if-false, ==_iff, ==_ne, leb, ltb,
  Bool-cases, inl, inr, ◌⊎◌,
}
use native.Mathlib.Decide.{ℕ_discrete, dec_le, dec_lt}
use operating_system.Block.{Bytes, Block, store, block_read-some, block_write-some}
use operating_system.Inode.{
  Inode, bytes_to_sectors, byte_to_sector, chunk_size, is_full, memcpy_at, bounce_before,
  write_chunk, write_from, inode_write_at,
}
use operating_system.Inode.Read.{content, Fits, available}

-- The bytes of a sector of the file after a chunk was written.
abbrev patched : (ℕ → Bytes) → Inode → Bytes → (done offset c : ℕ) → ℕ → Bytes
patched sectors i buffer done offset c s k =
    if (s == i.start + offset / 512) && (leb (offset % 512) k && ltb k (offset % 512 + c))
    then buffer (done + (k - offset % 512))
    else sectors s k

record Patched (b b' : Block) (i : Inode) (buffer : Bytes) (done offset c : ℕ) : Type 0 where
  size : b'.size ≡ b.size
  own : b'.foreign ≡ b.foreign
  holds : (s k : ℕ) → k < 512 → b'.sectors s k ≡ patched b.sectors i buffer done offset c s k

module _ (b : Block) (i : Inode) (buffer : Bytes) (done offset c : ℕ) (fits : Fits b i)
    (own : b.foreign ≡ false) (inside : offset < i.data_length)
    (room : offset % 512 + c ≤ 512) where
  sector : ℕ
  sector = i.start + offset / 512

  on_device : i.start + offset / 512 < b.size
  on_device = omega arith

  at_sector : byte_to_sector i offset ≡ some (i.start + offset / 512)
  at_sector = if-true _ _ _ (lt→ltb offset i.data_length inside)

  full_chunk :
      is_full offset c ≡ true
      → (b' : Block) × (write_chunk b i buffer done offset c ≡ some b')
        × Patched b b' i buffer done offset c
  unfolding write_chunk
  full_chunk full =
      let s = i.start + offset / 512 in
      (
        record b {
          sectors = store b.sectors s (λ k. buffer (done + k));
          write_cnt = b.write_cnt + 1;
        },
        rw (at_sector, full, block_write-some b s on_device (λ k. buffer (done + k)) own),
        record { size = refl; own = refl; holds = λ t k h. ground arith },
      )

  part_chunk :
      is_full offset c ≡ false
      → (b' : Block) × (write_chunk b i buffer done offset c ≡ some b')
        × Patched b b' i buffer done offset c
  unfolding write_chunk bounce_before
  part_chunk part =
      let s = i.start + offset / 512 in
      let must_read : (ltb 0 (offset % 512) || ltb c (512 - offset % 512)) ≡ true = ground arith in
      let b1 : Block = record b { read_cnt = b.read_cnt + 1 } in
      (
        record b1 {
          sectors = store b.sectors s (memcpy_at (b.sectors s) (offset % 512) buffer done c);
          write_cnt = b1.write_cnt + 1;
        },
        rw (
          at_sector,
          part,
          must_read,
          block_read-some b s on_device,
          block_write-some b1 s on_device (memcpy_at (b.sectors s) (offset % 512) buffer done c)
              own,
        ),
        record { size = refl; own = refl; holds = λ t k h. ground arith },
      )

  chunk_lem :
      (b' : Block) × (write_chunk b i buffer done offset c ≡ some b')
      × Patched b b' i buffer done offset c
  chunk_lem = elim (Bool-cases (is_full offset c)) [ inl t ↦ full_chunk t | inr t ↦ part_chunk t ]

-- What a write of `n` bytes of the buffer, from its byte `done` on, leaves on the device.
pub record HasWritten (b b' : Block) (i : Inode) (buffer : Bytes) (done offset n : ℕ) : Type 0 where
  pub size : b'.size ≡ b.size
  pub own : b'.foreign ≡ b.foreign
  pub holds :
      (p : ℕ)
      → content b'.sectors i p ≡ (
          if leb offset p && ltb p (offset + n)
          then buffer (done + (p - offset))
          else content b.sectors i p)
  pub others :
      (s k : ℕ)
      → k < 512
      → (s < i.start) ⊎ (i.start + bytes_to_sectors i.data_length ≤ s)
      → b'.sectors s k ≡ b.sectors s k

-- A chunk, seen from the file.
patched-content :
    (sectors : ℕ → Bytes) (i : Inode) (buffer : Bytes) (done offset c p : ℕ)
    → offset % 512 + c ≤ 512
    → patched sectors i buffer done offset c (i.start + p / 512) (p % 512) ≡ (
        if leb offset p && ltb p (offset + c)
        then buffer (done + (p - offset))
        else content sectors i p)
patched-content sectors i buffer done offset c p room = elim (dec_le offset p) [
  | no h ↦ ground arith
  | yes h ↦ elim (dec_lt p (offset + c)) [
    | no k ↦ ground arith
    | yes k ↦
        let same : p / 512 ≡ offset / 512 = omega arith in
        let place : p % 512 ≡ offset % 512 + (p - offset) = omega arith in ground arith
  ]
]

-- A chunk of the file changes no sector outside it.
patched_other :
    (sectors : ℕ → Bytes) (i : Inode) (buffer : Bytes) (done offset c s k : ℕ)
    → offset < i.data_length
    → (s < i.start) ⊎ (i.start + bytes_to_sectors i.data_length ≤ s)
    → patched sectors i buffer done offset c s k ≡ sectors s k
patched_other sectors i buffer done offset c s k inside (inl h) =
    let ne : (s == i.start + offset / 512) ≡ false =
      ==_ne {a = s} {b = i.start + offset / 512} (λ e. omega arith) in
    ground arith
patched_other sectors i buffer done offset c s k inside (inr h) =
    let ne : (s == i.start + offset / 512) ≡ false =
      ==_ne {a = s} {b = i.start + offset / 512} (λ e. omega arith) in
    ground arith

-- A chunk and the rest.
written_on :
    (buffer : Bytes) (done offset c n p x : ℕ)
    → (if leb (offset + c) p && ltb p (offset + c + n)
        then buffer (done + c + (p - (offset + c)))
        else if leb offset p && ltb p (offset + c)
        then buffer (done + (p - offset))
        else x)
      ≡ (if leb offset p && ltb p (offset + (c + n)) then buffer (done + (p - offset)) else x)
written_on buffer done offset c n p x = ground arith

chunk_in :
    (i : Inode) (size offset : ℕ)
    → 0 < chunk_size i size offset
    → (offset < i.data_length)
      × (offset % 512 + chunk_size i size offset ≤ 512)
      × (chunk_size i size offset ≤ size)
chunk_in i size offset h = (omega arith, omega arith, omega arith)

always : (b : Bool) → (b || true) ≡ true
always true = refl
always false = refl

write_from-HasWritten :
    (fuel : ℕ) (b : Block) (i : Inode) (buffer : Bytes) (done size offset : ℕ)
    → Fits b i
    → b.foreign ≡ false
    → size < fuel
    → (b' : Block) × (write_from fuel b i true buffer done size offset
        ≡ some (done + available i size offset, b'))
      × HasWritten b b' i buffer done offset (available i size offset)
unfolding write_from
write_from-HasWritten zero b i buffer done size offset fits own f = absurd (omega arith)
write_from-HasWritten (suc fuel) b i buffer done size offset fits own f =
    elim (ℕ_discrete (chunk_size i size offset) 0) [
      | yes z ↦
          let none_left : available i size offset ≡ 0 = omega arith in
          (
            b,
            if-true _ _ _ ((==_iff _ _).1 z) ∙ ap (λ d. some (d, b)) (omega arith),
            record {
              size = refl;
              own = refl;
              holds = λ p. ground (arith, none_left);
              others = λ s k h o. refl;
            },
          )
      | no nz ↦
          let c = chunk_size i size offset in
          let inside = chunk_in i size offset (omega arith) in
          let (b1, e1, w1) = chunk_lem b i buffer done offset c fits own inside.0 inside.1 in
          let (b2, e2, w2) =
            write_from-HasWritten fuel b1 i buffer (done + c) (size - c) (offset + c)
              (omega (arith, w1.size)) (w1.own ∙ own) (omega arith) in
          let n = available i (size - c) (offset + c) in
          let total : c + n ≡ available i size offset = omega arith in
          (
            b2,
            if-false _ _ _ (==_ne nz)
                ∙ if-true _ _ _ (always (is_full offset c))
                ∙ ap
                    (λ m.
                      m >>= λ x. write_from fuel x i true buffer (done + c) (size - c) (offset + c))
                    e1
                ∙ e2
                ∙ ap (λ d. some (d, b2)) (omega arith),
            record {
              size = w2.size ∙ w1.size;
              own = w2.own ∙ w1.own;
              holds = λ p.
                  w2.holds p
                  ∙ ap
                      (λ x.
                        if leb (offset + c) p && ltb p (offset + c + n)
                        then buffer (done + c + (p - (offset + c)))
                        else x)
                      (w1.holds (i.start + p / 512) (p % 512) (omega arith)
                        ∙ patched-content b.sectors i buffer done offset c p inside.1)
                  ∙ written_on buffer done offset c n p (content b.sectors i p)
                  ∙ ap
                      (λ t.
                        if leb offset p && ltb p (offset + t)
                        then buffer (done + (p - offset))
                        else content b.sectors i p)
                      total;
              others = λ s k h o.
                  w2.others s k h o
                  ∙ w1.holds s k h
                  ∙ patched_other b.sectors i buffer done offset c s k inside.0 o;
            },
          )
    ]

-- If the sectors of the file lie on the device, which is no foreign one, a bounce buffer is had and
-- nobody denies writes, `inode_write_at` does not panic: it writes as many bytes as were asked for
-- or up to the end of the file, puts the bytes of the buffer at the offset, leaves every other byte
-- of the file as it was, and changes no sector outside the file.
pub inode_write_at_lem :
    (b : Block) (i : Inode) (buffer : Bytes) (size offset : ℕ)
    → Fits b i
    → b.foreign ≡ false
    → i.deny_write_cnt ≡ 0
    → (b' : Block) × (inode_write_at b i true buffer size offset
        ≡ some (available i size offset, b'))
      × HasWritten b b' i buffer 0 offset (available i size offset)
unfolding inode_write_at
inode_write_at_lem b i buffer size offset fits own allowed =
    let (b', e, w) =
      write_from-HasWritten (size + 1) b i buffer 0 size offset fits own (omega arith) in
    (
      b',
      if-true (i.deny_write_cnt == 0) _ _ ((==_iff _ _).1 allowed)
          ∙ e
          ∙ ap (λ d. some (d, b')) (omega arith),
      w,
    )
