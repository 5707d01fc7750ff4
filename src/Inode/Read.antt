-- ===== src/Inode/Read.antt =====
-- `inode_read_at` of src/filesys/inode.c against the bytes of the file.
use operating_system.Common.{
  ℕ, zero, suc, ◌+◌, ◌-◌, ◌/◌, ◌%◌, ◌≤◌, ◌<◌, ◌≡◌, refl, ap, ap₂, ◌∙◌, Bool, true, false, ◌||◌,
  Option, some, List, [], ◌∷◌, ◌++◌, arith, min, ◌>>=◌, tabulate, lt→ltb, if-true, if-false, ==_iff,
  ==_ne,
}
use native.Mathlib.Decide.{ℕ_discrete}
use operating_system.Block.{block_sector_size, Bytes, Block, block_read-some}
use operating_system.Inode.{
  Inode, bytes_to_sectors, byte_to_sector, chunk_size, is_full, read_chunk, read_from,
  inode_read_at,
}

-- The byte of the file at a position.
abbrev pub content : (ℕ → Bytes) → Inode → ℕ → ℕ
content sectors i p = sectors (i.start + p / block_sector_size) (p % block_sector_size)

-- The file's sectors lie on the device.
abbrev pub Fits : Block → Inode → Type 0
Fits b i = i.start + bytes_to_sectors i.data_length ≤ b.size

pub tabulate_cong {ℓ} :
    {A : Type ℓ} (n i j : ℕ) (f g : ℕ → A)
    → ((k : ℕ) → k < n → f (i + k) ≡ g (j + k))
    → tabulate i n f ≡ tabulate j n g
tabulate_cong zero i j f g h = refl
tabulate_cong (suc n) i j f g h =
    ap₂ ◌∷◌ (ap f (omega arith) ∙ h 0 (omega arith) ∙ ap g (omega arith)) (
      tabulate_cong n (i + 1) (j + 1) f g
        (λ k p. ap f (omega arith) ∙ h (k + 1) (omega arith) ∙ ap g (omega arith)))

pub tabulate-append {ℓ} :
    {A : Type ℓ} (m n i : ℕ) (f : ℕ → A)
    → tabulate i m f ++ tabulate (i + m) n f ≡ tabulate i (m + n) f
tabulate-append zero n i f = ap₂ (λ a b. tabulate a b f) (omega arith) (omega arith)
tabulate-append (suc m) n i f =
    ap (λ l. f i ∷ l)
      (ap (λ a. tabulate (i + 1) m f ++ tabulate a n f) shift ∙ tabulate-append m n (i + 1) f)
    ∙ ap (λ c. tabulate i c f) total
  where
    shift : i + suc m ≡ i + 1 + m
    shift = omega arith

    total : suc (m + n) ≡ suc m + n
    total = omega arith

-- A chunk lies in one sector of the file.
chunk_in :
    (i : Inode) (size offset : ℕ)
    → 0 < chunk_size i size offset
    → (offset < i.data_length)
      × (offset % 512 + chunk_size i size offset ≤ 512)
      × (chunk_size i size offset ≤ size)
      × (offset + chunk_size i size offset ≤ i.data_length)
chunk_in i size offset h = (omega arith, omega arith, omega arith, omega arith)

abbrev counted : Block → Block
counted b = record b { read_cnt = b.read_cnt + 1 }

read_chunk_lem :
    (b : Block) (i : Inode) (offset c : ℕ)
    → Fits b i
    → offset < i.data_length
    → offset % 512 + c ≤ 512
    → read_chunk b i offset c ≡ some (tabulate offset c (content b.sectors i), counted b)
unfolding read_chunk
read_chunk_lem b i offset c fits inside room =
    let e1 : byte_to_sector i offset ≡ some (i.start + offset / 512) =
      if-true _ _ _ (lt→ltb offset i.data_length inside) in
    let e2 = block_read-some b (i.start + offset / 512) (omega arith) in
    rw (e1, e2) (ap (λ l. some (l, counted b)) (tabulate_cong c (offset % 512) offset _ _ same))
  where
    same :
        (k : ℕ)
        → k < c
        → b.sectors (i.start + offset / 512) (offset % 512 + k) ≡ content b.sectors i (offset + k)
    same k p = ap₂ b.sectors (omega arith) (omega arith)

-- What a read of `n` bytes at `offset` returns and leaves.
pub record HasRead (b b' : Block) (i : Inode) (offset n : ℕ) (bytes : List ℕ) : Type 0 where
  pub got : bytes ≡ tabulate offset n (content b.sectors i)
  pub same : b'.sectors ≡ b.sectors
  pub size : b'.size ≡ b.size

-- The number of bytes between an offset and the end, and `size` at most.
abbrev pub available : Inode → ℕ → ℕ → ℕ
available i size offset = min size (i.data_length - offset)

always : (b : Bool) → (b || true) ≡ true
always true = refl
always false = refl

read_from-HasRead :
    (fuel : ℕ) (b : Block) (i : Inode) (size offset : ℕ)
    → Fits b i
    → size < fuel
    → (bytes : List ℕ) × (b' : Block) × (read_from fuel b i true size offset ≡ some (bytes, b'))
      × HasRead b b' i offset (available i size offset) bytes
unfolding read_from
read_from-HasRead zero b i size offset fits f = absurd (omega arith)
read_from-HasRead (suc fuel) b i size offset fits f =
    elim (ℕ_discrete (chunk_size i size offset) 0) [
      | yes z ↦ (
        [],
        b,
        if-true _ _ _ ((==_iff _ _).1 z),
        record {
          got = ap (λ n. tabulate offset n (content b.sectors i)) (nothing z);
          same = refl;
          size = refl;
        },
      )
      | no nz ↦
          let c = chunk_size i size offset in
          let inside = chunk_in i size offset (omega arith) in
          let (rest, b', e, r) =
            read_from-HasRead fuel (counted b) i (size - c) (offset + c) (counted_fits fits)
              (omega arith) in
          (
            tabulate offset c (content b.sectors i) ++ rest,
            b',
            if-false _ _ _ (==_ne nz)
                ∙ if-true _ _ _ (always (is_full offset c))
                ∙ after (read_chunk_lem b i offset c fits inside.0 inside.1) e,
            record {
              got =
                  ap (λ l. tabulate offset c (content b.sectors i) ++ l)
                    (r.got ∙ counted_content (available i (size - c) (offset + c)) (offset + c))
                  ∙ tabulate-append c (available i (size - c) (offset + c)) offset
                      (content b.sectors i)
                  ∙ ap (λ n. tabulate offset n (content b.sectors i)) (omega arith);
              same = r.same;
              size = r.size;
            },
          )
    ]
  where
    counted_fits : Fits b i → Fits (counted b) i
    counted_fits h = h

    counted_content :
        (n p : ℕ)
        → tabulate p n (content (counted b).sectors i) ≡ tabulate p n (content b.sectors i)
    counted_content n p = refl

    nothing : chunk_size i size offset ≡ 0 → 0 ≡ available i size offset
    nothing z = omega arith

    after :
        {xs ys : List ℕ} {b1 b2 : Block}
        → read_chunk b i offset (chunk_size i size offset) ≡ some (xs, b1)
        → read_from fuel b1 i true
            (size - chunk_size i size offset)
            (offset + chunk_size i size offset)
          ≡ some (ys, b2)
        → ◌≡◌ {A = Option (List ℕ × Block)}
            (read_chunk b i offset (chunk_size i size offset) >>= λ r.
              read_from fuel r.1 i true
                (size - chunk_size i size offset)
                (offset + chunk_size i size offset)
              >>= λ rest. some (r.0 ++ rest.0, rest.1))
            (some (xs ++ ys, b2))
    after e1 e2 = rw (e1, e2)

-- If the sectors of the file lie on the device and a bounce buffer is had, `inode_read_at` does not
-- panic and returns exactly the bytes of the file from the offset on, as many as were asked for or
-- up to the end; every sector stays as it was.
pub inode_read_at_lem :
    (b : Block) (i : Inode) (size offset : ℕ)
    → Fits b i
    → (bytes : List ℕ) × (b' : Block) × (inode_read_at b i true size offset ≡ some (bytes, b'))
      × HasRead b b' i offset (available i size offset) bytes
unfolding inode_read_at
inode_read_at_lem b i size offset fits =
    read_from-HasRead (size + 1) b i size offset fits (omega arith)
