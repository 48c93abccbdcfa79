-- ===== src/Util/Math/Tests.antt =====
-- Runs of the integer functions.
use avr_kernel.Base.{ℕ, ◌-◌, ◌^◌, ◌≡◌, refl, arith, some}
use avr_kernel.Util.Math.{isqrt, clamp, max, min, lower_bit, root_loop}
use avr_kernel.Util.Math.Root.{IsRoot, isqrt-IsRoot}

isqrt-IsRoot_example : (s : ℕ) × (isqrt 18 4000000000 ≡ some s) × IsRoot 4000000000 s
isqrt-IsRoot_example = isqrt-IsRoot 4000000000 18 (omega arith) (omega arith)

root_test : isqrt 18 4000000000 ≡ some 63245
unfolding isqrt lower_bit root_loop
root_test = refl

clamp_test : clamp 7 (2 ^ 32 - 5) 3 ≡ 3
unfolding clamp max min
clamp_test = refl
