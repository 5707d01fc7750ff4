-- ===== src/Intq.antt =====
-- src/devices/intq.c: the queue of bytes between an interrupt handler and the threads. Interrupts
-- are off in each operation. `none` is a failed ASSERT; the inner `none` of `intq_getc` and
-- `intq_putc` says that the thread has to wait first. The lock and `wait` are not modelled.
pub mod Fifo
mod Tests
use operating_system.Common.{
  ℕ, ◌+◌, ◌%◌, Bool, true, false, not, Option, none, some, ◌==◌, if◌then◌else◌, ◌>>=◌, ◌>>◌, assert,
}
use operating_system.Sched.State.{Kernel}
use operating_system.Sched.{thread_unblock}

abbrev pub intq_bufsize : ℕ
intq_bufsize = 64

-- `struct intq`, with the threads that wait for the two conditions.
pub record Intq : Type 0 where
  pub not_full : Option ℕ
  pub not_empty : Option ℕ
  pub buf : ℕ → ℕ
  pub head : ℕ
  pub tail : ℕ

abbrev pub next : ℕ → ℕ
next p = (p + 1) % intq_bufsize

pub intq_init : (ℕ → ℕ) → Intq
intq_init buf = record { not_full = none; not_empty = none; buf = buf; head = 0; tail = 0 }

abbrev pub intq_empty : Intq → Bool
intq_empty q = q.head == q.tail

abbrev pub intq_full : Intq → Bool
intq_full q = next q.head == q.tail

-- The waiter is unblocked, if there is one.
pub signal : Kernel → Option ℕ → Option Kernel
signal k none = some k
signal k (some t) = thread_unblock k t

pub intq_getc : Kernel → Intq → Option (Option (ℕ × Kernel × Intq))
intq_getc k q = if intq_empty q then assert (not k.intr_context) >> some none else (do
  let q' = record q { tail = next q.tail }
  assert (not (intq_full q'))
  k' ← signal k q.not_full
  some (some (q.buf q.tail, k', record q' { not_full = none })))

pub intq_putc : Kernel → Intq → (byte : ℕ) → Option (Option (Kernel × Intq))
intq_putc k q byte = if intq_full q then assert (not k.intr_context) >> some none else (do
  let q' = record q { buf = λ i. if i == q.head then byte else q.buf i; head = next q.head }
  assert (not (intq_empty q'))
  k' ← signal k q.not_empty
  some (some (k', record q' { not_empty = none })))
