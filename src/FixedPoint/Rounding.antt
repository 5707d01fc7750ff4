-- ===== src/FixedPoint/Rounding.antt =====
-- Conversions between integers and fixed-point numbers of src/threads/fixed-point.h.
use operating_system.Common.{◌+◌, ◌≤◌, ◌<◌, ◌^◌, ◌-◌, ◌≡◌, arith}
use operating_system.Common.Int.{
  ℤ, pos, pos_part, neg_part, ◌+ℤ◌, ◌-ℤ◌, ◌*ℤ◌, ◌≤ℤ◌, ◌<ℤ◌, int32, int32_self, IsInt,
}
use operating_system.FixedPoint.{fp_f, fp_from_int, fp_to_int_zero, fp_to_int_nearest, fp_to_int_up}

-- The integers that 17 bits hold, less the outermost, at which a rounding would overflow.
abbrev pub IsSmall : ℤ → Type 0
IsSmall n = (pos_part n < 2 ^ 17 - 1) × (neg_part n < 2 ^ 17)

pub fp_from_int_lem : (n : ℤ) → IsSmall n → fp_from_int n ≡ n *ℤ pos fp_f
unfolding fp_from_int ◌*ℤ◌
fp_from_int_lem n h = int32_self (n *ℤ pos fp_f) (ground arith)

-- An integer above -2^17 and below 2^17 - 1 survives the conversion to fixed point and back, by
-- each of the three roundings.
pub fp_to_int-from_int :
    (n : ℤ)
    → IsSmall n
    → (fp_to_int_zero (fp_from_int n) ≡ n)
      × (fp_to_int_nearest (fp_from_int n) ≡ n)
      × (fp_to_int_up (fp_from_int n) ≡ n)
unfolding fp_from_int fp_to_int_zero fp_to_int_nearest fp_to_int_up int32 ◌*ℤ◌ ◌+ℤ◌ ◌-ℤ◌
fp_to_int-from_int n h = (ground arith, ground arith, ground arith)

-- For a number of an `int` to which FP_F can be added without overflow, `fp_to_int_up` is the
-- ceiling.
pub fp_to_int_up-ceiling :
    (x : ℤ)
    → IsInt x
    → pos_part x + fp_f < 2 ^ 31
    → (x ≤ℤ fp_to_int_up x *ℤ pos fp_f) × (fp_to_int_up x *ℤ pos fp_f <ℤ x +ℤ pos fp_f)
unfolding fp_to_int_up int32 ◌*ℤ◌ ◌+ℤ◌ ◌-ℤ◌
fp_to_int_up-ceiling x h k = (ground arith, ground arith)

-- For a number to which a half can be added and subtracted without overflow, `fp_to_int_nearest` is
-- within half a unit of it.
pub fp_to_int_nearest-half :
    (x : ℤ)
    → pos_part x + 8192 < 2 ^ 31
    → neg_part x + 8192 ≤ 2 ^ 31
    → (x -ℤ pos 8192 ≤ℤ fp_to_int_nearest x *ℤ pos fp_f)
      × (fp_to_int_nearest x *ℤ pos fp_f ≤ℤ x +ℤ pos 8192)
unfolding fp_to_int_nearest int32 ◌*ℤ◌ ◌+ℤ◌ ◌-ℤ◌
fp_to_int_nearest-half x h k = (ground arith, ground arith)
