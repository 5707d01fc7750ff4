-- ===== src/FixedPoint.antt =====
-- src/threads/fixed-point.h: 17.14 fixed-point numbers in an `int`. Sums and products of `int`
-- wrap (`int32`); the products and quotients that the source widens to int64_t cannot overflow
-- there and are cut back to `int` at the end. `none` is a divide error.
pub mod Rounding
mod Tests
use operating_system.Common.{ℕ, ◌^◌, Option, none, some, if◌then◌else◌, ◌>>=◌}
use operating_system.Common.Int.{
  ℤ, pos, negsuc, pos_part, neg_part, ◌+ℤ◌, ◌-ℤ◌, ◌*ℤ◌, ltb_ℤ, quot, div_ℤ, int32,
}

-- FP_F, 1 << FP_Q
abbrev pub fp_f : ℕ
fp_f = 2 ^ 14

unfoldable pub fp_from_int : ℤ → ℤ
fp_from_int n = int32 (n *ℤ pos fp_f)

unfoldable pub fp_to_int_zero : ℤ → ℤ
fp_to_int_zero x = quot x fp_f

unfoldable pub fp_to_int_nearest : ℤ → ℤ
fp_to_int_nearest x =
    if ltb_ℤ x (pos 0) then quot (int32 (x -ℤ pos 8192)) fp_f else quot (int32 (x +ℤ pos 8192)) fp_f

unfoldable pub fp_to_int_up : ℤ → ℤ
fp_to_int_up x =
    if ltb_ℤ x (pos 0) then quot x fp_f else quot (int32 (int32 (x +ℤ pos fp_f) -ℤ pos 1)) fp_f

unfoldable pub fp_add : ℤ → ℤ → ℤ
fp_add x y = int32 (x +ℤ y)

unfoldable pub fp_sub : ℤ → ℤ → ℤ
fp_sub x y = int32 (x -ℤ y)

unfoldable pub fp_add_int : ℤ → ℤ → ℤ
fp_add_int x n = int32 (x +ℤ int32 (n *ℤ pos fp_f))

unfoldable pub fp_sub_int : ℤ → ℤ → ℤ
fp_sub_int x n = int32 (x -ℤ int32 (n *ℤ pos fp_f))

unfoldable pub fp_mul : ℤ → ℤ → ℤ
fp_mul x y = int32 (quot (x *ℤ y) fp_f)

unfoldable pub fp_mul_int : ℤ → ℤ → ℤ
fp_mul_int x n = int32 (x *ℤ n)

unfoldable pub fp_div : ℤ → ℤ → Option ℤ
fp_div x y = div_ℤ (x *ℤ pos fp_f) y >>= λ q. some (int32 q)

unfoldable pub fp_div_int : ℤ → ℤ → Option ℤ
fp_div_int x n = div_ℤ x n >>= λ q. some (int32 q)
