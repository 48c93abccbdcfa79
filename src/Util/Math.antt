-- ===== src/Util/Math.antt =====
-- kernel/util/math.c: the integer functions. An int is its bit pattern, of 32 bits; a long long has 64.
-- The floating-point functions are x87 instructions.
pub mod Root
pub mod Power
pub mod Angle
mod Tests
use avr_kernel.Base.{
  ℕ, zero, suc, ◌+◌, ◌-◌, ◌*◌, ◌/◌, ◌%◌, ◌^◌, Bool, true, false, ◌&&◌, Option, none, some,
  if◌then◌else◌, ltb, leb, ◌==◌, ◌!=◌, u32, u64, add32, sub32, ◌>>=◌,
}

-- `a < b` of ints.
abbrev pub less : (a b : ℕ) → Bool
less a b = ltb (add32 a (2 ^ 31)) (add32 b (2 ^ 31))

pub max : (a b : ℕ) → ℕ
max a b = if less b a then a else b

pub min : (a b : ℕ) → ℕ
min a b = if less a b then a else b

pub clamp : (value min_val max_val : ℕ) → ℕ
clamp value min_val max_val = min (max value min_val) max_val

-- `while (bit > num) bit >>= 2;`
pub lower_bit : (rounds bit num : ℕ) → Option ℕ
lower_bit zero bit num = none
lower_bit (suc rounds) bit num =
    let rest = lower_bit rounds (bit / 4) num in if ltb num bit then rest else some bit

-- The second loop of `isqrt`.
pub root_loop : (rounds num res bit : ℕ) → Option ℕ
root_loop zero num res bit = none
root_loop (suc rounds) num res bit =
    let take = root_loop rounds (num - (res + bit)) (res / 2 + bit) (bit / 4) in
    let skip = root_loop rounds num (res / 2) (bit / 4) in
    if bit != 0 then (if leb (res + bit) num then take else skip) else some res

pub isqrt : (rounds num : ℕ) → Option ℕ
isqrt rounds num = do bit ← lower_bit rounds (2 ^ 30) num; root_loop rounds num 0 bit

-- `while (exp > 0)` of `ipow`. Products are cut off to 64 bits, as the compiled code does.
pub power_loop : (rounds res base exp : ℕ) → Option ℕ
power_loop zero res base exp = none
power_loop (suc rounds) res base exp =
    let res' = if exp % 2 == 1 then u64 (res * base) else res in
    let base' = if exp / 2 != 0 then u64 (base * base) else base in
    let rest = power_loop rounds res' base' (exp / 2) in if ltb 0 exp then rest else some res

pub ipow : (rounds base exp : ℕ) → Option ℕ
ipow rounds base exp =
    if leb (2 ^ 31) exp
    then some (
        if base == 1
        then 1
        else if base == 2 ^ 64 - 1
        then (if exp % 2 == 1 then 2 ^ 64 - 1 else 1)
        else 0)
    else power_loop rounds 1 base exp

-- The absolute value of an int, as unsigned.
abbrev pub magnitude : ℕ → ℕ
magnitude x = if leb (2 ^ 31) x then sub32 0 x else x

-- `while (max_val >= (1u << 20))`
pub scale_down : (rounds min_val max_val : ℕ) → Option (ℕ × ℕ)
scale_down zero min_val max_val = none
scale_down (suc rounds) min_val max_val =
    let rest = scale_down rounds (min_val / 2) (max_val / 2) in
    if leb (2 ^ 20) max_val then rest else some (min_val, max_val)

-- The angle in the first octant, from the scaled values.
pub octant_angle : (min_val max_val : ℕ) → ℕ
octant_angle min_val max_val =
    let ratio = u32 (min_val * 2 ^ 12) / max_val in
    ratio * 2 + ratio * (4096 - ratio) / 2 ^ 12 * 2928 / 2 ^ 12

-- The octant swap and the quadrant.
pub full_angle : (y x angle : ℕ) → ℕ
full_angle y x angle =
    let a = if ltb (magnitude x) (magnitude y) then sub32 16384 angle else angle in
    let turned =
      if leb (2 ^ 31) x
      then (if leb (2 ^ 31) y then add32 32768 a else sub32 32768 a)
      else if leb (2 ^ 31) y
      then sub32 65536 a
      else a in
    turned % 2 ^ 16

pub iatan2 : (rounds y x : ℕ) → Option ℕ
iatan2 rounds y x =
    let abs_y = magnitude y in
    let abs_x = magnitude x in
    if x == 0 && y == 0 then some 0 else do
      scaled ←
          scale_down rounds (if ltb abs_x abs_y then abs_x else abs_y)
            (if ltb abs_y abs_x then abs_x else abs_y)
      some (full_angle y x (octant_angle scaled.0 scaled.1))
