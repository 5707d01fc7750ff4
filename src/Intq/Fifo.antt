-- ===== src/Intq/Fifo.antt =====
-- The queue of src/devices/intq.c as the sequence of its bytes.
use operating_system.Common.{
  ℕ, suc, ◌+◌, ◌-◌, ◌%◌, ◌<◌, ◌≡◌, refl, ap, sym, ◌∙◌, not, none, some, List, [], ◌∷◌, ◌++◌, length,
  ◌==◌, if◌then◌else◌, arith, assert-true, if-true, if-false, ==_eq, ==_ne,
}
use native.Mathlib.Decide.{ℕ_discrete}
use operating_system.Sched.State.{Kernel}
use operating_system.Page.{byte_at}
use operating_system.Intq.{
  Intq, next, intq_bufsize, intq_empty, intq_full, signal, intq_getc, intq_putc,
}

-- The queue holds the bytes `xs`, the oldest at `tail`.
pub record Holds (q : Intq) (xs : List ℕ) : Type 0 where
  pub in_buf : q.tail < intq_bufsize
  pub room : length xs < intq_bufsize
  pub ends : q.head ≡ (q.tail + length xs) % intq_bufsize
  pub bytes : (i : ℕ) → i < length xs → q.buf ((q.tail + i) % intq_bufsize) ≡ byte_at xs i

length-snoc : (xs : List ℕ) (b : ℕ) → length (xs ++ (b ∷ [])) ≡ length xs + 1
length-snoc [] b = refl
length-snoc (x ∷ xs) b = omega (arith, length-snoc xs b)

byte_at-snoc :
    (xs : List ℕ) (b i : ℕ)
    → byte_at (xs ++ (b ∷ [])) i ≡ (if i == length xs then b else byte_at xs i)
byte_at-snoc [] b i = ground arith
byte_at-snoc (x ∷ xs) b i = ground (arith, byte_at-snoc xs b (i - 1))

module _ (k : Kernel) (q : Intq) (xs : List ℕ) (h : Holds q xs) where
  -- A byte goes to the end.
  intq_putc-Holds :
      (b : ℕ)
      → length xs + 1 < intq_bufsize
      → q.not_empty ≡ none
      → (q' : Intq) × (intq_putc k q b ≡ some (some (k, q')))
        × Holds q' (xs ++ (b ∷ []))
        × (q'.not_full ≡ q.not_full)
  unfolding intq_putc signal
  intq_putc-Holds b more nobody =
      let q' : Intq = record q {
        buf = λ i. if i == q.head then b else q.buf i;
        head = next q.head;
        not_empty = none;
      } in
      let len = length-snoc xs b in
      (
        q',
        if-false (intq_full q) _ _ (ground (arith, h.ends, h.in_buf, more))
            ∙ assert-true (not (next q.head == q.tail)) _ (ground (arith, h.ends, h.in_buf, more))
            ∙ rw nobody,
        record {
          in_buf = h.in_buf;
          room = omega (arith, len, more);
          ends = omega (arith, len, h.ends, h.in_buf, more);
          bytes = λ i lt. elim (ℕ_discrete i (length xs)) [
            | yes e ↦
                if-true ((q.tail + i) % intq_bufsize == q.head) _ _
                  (==_eq (ap (λ n. (q.tail + n) % intq_bufsize) e ∙ sym h.ends))
                ∙ sym (byte_at-snoc xs b i ∙ if-true (i == length xs) _ _ (==_eq e))
            | no ne ↦
                if-false ((q.tail + i) % intq_bufsize == q.head) _ _ (
                  ==_ne {a = (q.tail + i) % intq_bufsize} {b = q.head}
                    (λ e. absurd (omega (arith, e, ne, lt, len, h.ends, h.in_buf, more))))
                ∙ h.bytes i (omega (arith, lt, len, ne))
                ∙ sym (
                    byte_at-snoc xs b i
                    ∙ if-false (i == length xs) _ _ (==_ne {a = i} {b = length xs} ne))
          ];
        },
        refl,
      )

  -- The oldest byte is taken.
  intq_getc-Holds :
      (x : ℕ) (rest : List ℕ)
      → xs ≡ x ∷ rest
      → q.not_full ≡ none
      → (q' : Intq) × (intq_getc k q ≡ some (some (x, k, q'))) × Holds q' rest
  unfolding intq_getc signal
  intq_getc-Holds x rest e nobody =
      let q' : Intq = record q { tail = next q.tail; not_full = none } in
      let len : length xs ≡ suc (length rest) = ap length e in
      let byte : (i : ℕ) → byte_at xs i ≡ byte_at (x ∷ rest) i = λ i. ap (λ ys. byte_at ys i) e in
      let first : q.buf q.tail ≡ x =
        ap q.buf (omega (arith, h.in_buf)) ∙ h.bytes 0 (omega (arith, len)) ∙ byte 0 in
      (
        q',
        if-false (intq_empty q) _ _ (ground (arith, h.ends, h.in_buf, h.room, len))
            ∙ assert-true (not (next q.head == next q.tail)) _
                (ground (arith, h.ends, h.in_buf, h.room, len))
            ∙ rw (nobody, first),
        record {
          in_buf = omega arith;
          room = omega (arith, len, h.room);
          ends = omega (arith, len, h.ends, h.in_buf);
          bytes = λ i lt.
              ap q.buf (omega arith)
              ∙ h.bytes (i + 1) (omega (arith, len, lt))
              ∙ byte (i + 1)
              ∙ later i;
        },
      )
    where
      later : (i : ℕ) → byte_at (x ∷ rest) (i + 1) ≡ byte_at rest i
      later i = if-false (i + 1 == 0) _ _ (ground arith) ∙ ap (byte_at rest) (omega arith)

-- On a queue that holds at least one byte and has room for two more, with no thread waiting on it,
-- `intq_putc` of a byte and then `intq_getc` fail no ASSERT and do not wait; the oldest byte is
-- returned, and the queue then holds the other bytes in order with the new one behind them.
pub intq_getc-intq_putc :
    (k : Kernel) (q : Intq) (x : ℕ) (rest : List ℕ) (b : ℕ)
    → Holds q (x ∷ rest)
    → length rest + 2 < intq_bufsize
    → q.not_empty ≡ none
    → q.not_full ≡ none
    → (q1 q2 : Intq) × (intq_putc k q b ≡ some (some (k, q1)))
      × (intq_getc k q1 ≡ some (some (x, k, q2)))
      × Holds q2 (rest ++ (b ∷ []))
intq_getc-intq_putc k q x rest b h more ne nf =
    let (q1, put, h1, same) = intq_putc-Holds k q (x ∷ rest) h b (omega (arith, more)) ne in
    let (q2, got, h2) =
      intq_getc-Holds k q1 (x ∷ (rest ++ (b ∷ []))) h1 x (rest ++ (b ∷ [])) refl (same ∙ nf) in
    (q1, q2, put, got, h2)
