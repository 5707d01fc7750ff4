-- ===== src/FixedPoint/Tests.antt =====
-- Numbers at which the theorems on src/threads/fixed-point.h are applied.
