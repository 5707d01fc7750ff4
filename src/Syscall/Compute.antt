-- ===== src/Syscall/Compute.antt =====
-- The system calls of src/userprog/syscall.c that compute.
use operating_system.Common.{
  ℕ, zero, suc, ◌+◌, ◌-◌, ◌≤◌, ◌<◌, ◌^◌, ◌≡◌, refl, ap, sym, ◌∙◌, arith, if-false, not, ◌⊎◌,
}
use operating_system.Common.Int.{ℤ, pos, ltb_ℤ, int32, int32_self, ◌+ℤ◌, ◌≤ℤ◌}
use operating_system.Syscall.{fibonacci_from, fibonacci, max_of_four_int}

-- The Fibonacci numbers: each is the sum of the two before it.
abbrev pub fib : ℕ → ℕ
fib zero = 0
fib (suc zero) = 1
fib (suc (suc n)) = fib (suc n) + fib n

fib_mono : (n : ℕ) → fib n ≤ fib (suc n)
fib_mono zero = omega arith
fib_mono (suc n) = omega arith

at_zero : (n : ℕ) → n + 0 ≡ n
at_zero n = omega arith

at_suc : (n k : ℕ) → n + suc k ≡ suc (n + k)
at_suc n k = omega arith

suc-add : (n k : ℕ) → suc n + k ≡ suc (n + k)
suc-add n k = omega arith

fib-add_mono : (k n : ℕ) → fib n ≤ fib (n + k)
fib-add_mono zero n = omega (arith, ap fib (at_zero n))
fib-add_mono (suc k) n = omega (arith, ap fib (at_suc n k), fib-add_mono k n, fib_mono (n + k))

int32-sum : (a b : ℕ) → a + b < 2 ^ 31 → int32 (pos a +ℤ pos b) ≡ pos (b + a)
unfolding ◌+ℤ◌
int32-sum a b h = ap int32 sum ∙ int32_self (pos (b + a)) (omega arith)
  where
    sum : pos a +ℤ pos b ≡ pos (b + a)
    sum = ground arith

fibonacci_from_lem :
    (r k : ℕ)
    → fib (suc (k + r)) < 2 ^ 31
    → fibonacci_from r (pos (fib k)) (pos (fib (suc k))) ≡ pos (fib (suc (k + r)))
unfolding fibonacci_from
fibonacci_from_lem zero k h = ap (λ j. pos (fib (suc j))) (sym (at_zero k))
fibonacci_from_lem (suc r) k h =
    let e : fib (suc (k + suc r)) ≡ fib (suc (suc k + r)) =
      ap (λ j. fib (suc j)) (at_suc k r ∙ sym (suc-add k r)) in
    let f : fib (suc (suc k + r)) ≡ fib (suc (suc k) + r) = ap fib (sym (suc-add (suc k) r)) in
    ap (fibonacci_from r (pos (fib (suc k))))
      (int32-sum (fib k) (fib (suc k)) (omega (arith, fib-add_mono r (suc (suc k)))))
    ∙ fibonacci_from_lem r (suc k) (omega arith)
    ∙ ap pos (sym e)

-- `fibonacci` of n is the n-th Fibonacci number, where that fits into an `int`.
pub fibonacci_lem : (n : ℕ) → fib n < 2 ^ 31 → fibonacci (pos n) ≡ pos (fib n)
unfolding fibonacci
fibonacci_lem zero h = refl
fibonacci_lem (suc n) h =
    let e : fib (suc (0 + n)) ≡ fib (suc n) = ap (λ j. fib (suc j)) zero_add in
    positive ∙ fibonacci_from_lem n 0 (omega arith) ∙ ap pos e
  where
    zero_add : 0 + n ≡ n
    zero_add = omega arith

    one_less : suc n - 1 ≡ n
    one_less = omega arith

    positive : fibonacci (pos (suc n)) ≡ fibonacci_from n (pos 0) (pos 1)
    positive =
        if-false (not (ltb_ℤ (pos 0) (pos (suc n)))) (pos 0)
          (fibonacci_from (suc n - 1) (pos 0) (pos 1)) (ground arith)
        ∙ ap (λ r. fibonacci_from r (pos 0) (pos 1)) one_less

-- `max_of_four_int` returns one of its arguments, and none is above it.
pub max_of_four_int_lem :
    (a b c d : ℤ)
    → let m = max_of_four_int a b c d in
      (a ≤ℤ m) × (b ≤ℤ m) × (c ≤ℤ m) × (d ≤ℤ m) × ((m ≡ a) ⊎ (m ≡ b) ⊎ (m ≡ c) ⊎ (m ≡ d))
unfolding max_of_four_int
max_of_four_int_lem a b c d = (ground arith, ground arith, ground arith, ground arith, ground arith)
