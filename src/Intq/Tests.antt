-- ===== src/Intq/Tests.antt =====
-- The theorem on src/devices/intq.c at a queue of two bytes that goes around the end of its buffer.
use operating_system.Common.{◌≡◌, refl, false, none, some, [], ◌∷◌, arith, ◌==◌, if◌then◌else◌}
use operating_system.Sched.Sample.{kernel}
use operating_system.Intq.{Intq, intq_getc, intq_putc}
use operating_system.Intq.Fifo.{Holds, intq_getc-intq_putc}

abbrev queue : Intq
queue = record {
  not_full = none;
  not_empty = none;
  buf = λ i. if i == 63 then 65 else 66;
  head = 1;
  tail = 63;
}

queue-Holds : Holds queue (65 ∷ 66 ∷ [])
queue-Holds = record {
  in_buf = omega arith;
  room = omega arith;
  ends = refl;
  bytes = λ i lt. ground (arith, lt);
}

intq_getc-intq_putc_example :
    (q1 q2 : Intq) × (intq_putc (kernel false) queue 67 ≡ some (some (kernel false, q1)))
    × (intq_getc (kernel false) q1 ≡ some (some (65, kernel false, q2)))
    × Holds q2 (66 ∷ 67 ∷ [])
intq_getc-intq_putc_example =
    intq_getc-intq_putc (kernel false) queue 65 (66 ∷ []) 67 queue-Holds (omega arith) refl refl
