-- ===== src/Mlfqs/Priority.antt =====
-- The priority formula of the BSD scheduler in src/threads/thread.c.
use operating_system.Common.{ℕ, ◌+◌, ◌*◌, ◌≤◌, ◌<◌, ◌^◌, ◌≡◌, refl, ap, ◌∙◌, some, arith, ◌>>=◌}
use operating_system.Common.Int.{
  ℤ, pos, pos_part, neg_part, ◌-ℤ◌, ◌*ℤ◌, ◌≤ℤ◌, sub_ℕ, int32, int32_self, IsInt, quot, div_ℤ-pos,
}
use operating_system.FixedPoint.{fp_f, fp_from_int, fp_to_int_zero, fp_sub, fp_sub_int, fp_div_int}
use operating_system.Sched.State.{Thread, Kernel, pri_min, pri_max}
use operating_system.Sched.{set_priority}
use operating_system.Mlfqs.{raw_priority, clamp_priority, thread_calc_priority}

-- The range of niceness that the manual gives.
abbrev pub IsNice : ℤ → Type 0
IsNice n = (pos_part n ≤ 20) × (neg_part n ≤ 20)

-- 63 - q - 2 * nice over the integers, in 2 ^ -14ths; `q` is recent_cpu / 4, cut to such units.
abbrev pub exact : ℤ → ℤ → ℤ
exact q n =
    sub_ℕ (63 * fp_f + neg_part q + 2 * fp_f * neg_part n) (pos_part q + 2 * fp_f * pos_part n)

quot_small : (r : ℤ) → IsInt r → (pos_part (quot r 4) < 2 ^ 29) × (neg_part (quot r 4) ≤ 2 ^ 29)
quot_small r h = ground arith

div_four : (r : ℤ) → IsInt r → fp_div_int r (pos 4) ≡ some (quot r 4)
unfolding fp_div_int
div_four r h =
    ap (λ m. m >>= λ q. some (int32 q)) (div_ℤ-pos r 4 (omega arith))
    ∙ ap some (int32_self (quot r 4) (let b = quot_small r h in omega arith))

sub_exact :
    (q n : ℤ)
    → (pos_part q < 2 ^ 29)
    → (neg_part q ≤ 2 ^ 29)
    → IsNice n
    → fp_sub_int (fp_sub (fp_from_int pri_max) q) (int32 (n *ℤ pos 2)) ≡ exact q n
unfolding fp_sub_int fp_sub fp_from_int int32 ◌*ℤ◌ ◌-ℤ◌
sub_exact q n h1 h2 h3 = ground arith

-- For any `recent_cpu` of an `int` and a niceness from -20 to 20, the priority formula does not
-- divide by zero and its result is, over the integers, this: recent_cpu / 4 is cut towards zero to
-- 2 ^ -14ths, and PRI_MAX less that and less 2 * nice is exact in 2 ^ -14ths and then cut towards
-- zero.
pub raw_priority-exact :
    (r : Thread)
    → IsInt r.recent_cpu
    → IsNice r.nice
    → raw_priority r ≡ some (quot (exact (quot r.recent_cpu 4) r.nice) fp_f)
unfolding raw_priority fp_to_int_zero
raw_priority-exact r h n =
    let b = quot_small r.recent_cpu h in
    ap
      (λ m. m >>= λ q.
        some
          (fp_to_int_zero (fp_sub_int (fp_sub (fp_from_int pri_max) q) (int32 (r.nice *ℤ pos 2)))))
      (div_four r.recent_cpu h)
    ∙ ap (λ x. some (quot x fp_f)) (sub_exact (quot r.recent_cpu 4) r.nice b.0 b.1 n)

quot-four_mono : (a b : ℤ) → a ≤ℤ b → quot a 4 ≤ℤ quot b 4
quot-four_mono a b h = ground arith

quot-fp_f_mono : (a b : ℤ) → a ≤ℤ b → quot a fp_f ≤ℤ quot b fp_f
quot-fp_f_mono a b h = ground arith

exact_anti : (q q' n n' : ℤ) → q ≤ℤ q' → n ≤ℤ n' → exact q' n' ≤ℤ exact q n
exact_anti q q' n n' h k = ground arith

clamp_mono : (a b : ℤ) → a ≤ℤ b → clamp_priority a ≤ℤ clamp_priority b
clamp_mono a b h = ground arith

clamp_range : (a : ℤ) → (pri_min ≤ℤ clamp_priority a) × (clamp_priority a ≤ℤ pri_max)
clamp_range a = (ground arith, ground arith)

-- For any `recent_cpu` of an `int` and a niceness from -20 to 20, `thread_calc_priority` sets the
-- priority of that thread alone, to the value of the formula cut to PRI_MIN ... PRI_MAX.
pub thread_calc_priority_lem :
    (k : Kernel) (t : ℕ)
    → IsInt (k.thread t).recent_cpu
    → IsNice (k.thread t).nice
    → (p : ℤ) × (thread_calc_priority k t ≡ some (set_priority k t p))
      × (p ≡ clamp_priority (quot (exact (quot (k.thread t).recent_cpu 4) (k.thread t).nice) fp_f))
      × (pri_min ≤ℤ p)
      × (p ≤ℤ pri_max)
unfolding thread_calc_priority
thread_calc_priority_lem k t h n =
    let x = quot (exact (quot (k.thread t).recent_cpu 4) (k.thread t).nice) fp_f in
    (
      clamp_priority x,
      ap (λ m. m >>= λ p. some (set_priority k t (clamp_priority p)))
          (raw_priority-exact (k.thread t) h n),
      refl,
      (clamp_range x).0,
      (clamp_range x).1,
    )

-- Of two threads with `recent_cpu` in an `int` and niceness from -20 to 20, the one that has used
-- no less of the processor and is no less nice gets no higher priority.
pub priority_anti :
    (r s : Thread)
    → IsInt r.recent_cpu
    → IsInt s.recent_cpu
    → IsNice r.nice
    → IsNice s.nice
    → r.recent_cpu ≤ℤ s.recent_cpu
    → r.nice ≤ℤ s.nice
    → (p : ℤ) × (q : ℤ) × (raw_priority r ≡ some p)
      × (raw_priority s ≡ some q)
      × (clamp_priority q ≤ℤ clamp_priority p)
priority_anti r s hr hs nr ns h k = (
  _,
  _,
  raw_priority-exact r hr nr,
  raw_priority-exact s hs ns,
  clamp_mono (quot (exact (quot s.recent_cpu 4) s.nice) fp_f)
      (quot (exact (quot r.recent_cpu 4) r.nice) fp_f)
      (quot-fp_f_mono (exact (quot s.recent_cpu 4) s.nice) (exact (quot r.recent_cpu 4) r.nice) (
        exact_anti (quot r.recent_cpu 4) (quot s.recent_cpu 4) r.nice s.nice
          (quot-four_mono r.recent_cpu s.recent_cpu h) k)),
)
