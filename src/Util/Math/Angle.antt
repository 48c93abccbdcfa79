-- ===== src/Util/Math/Angle.antt =====
-- iatan2 answers an angle of the quadrant and the octant that its arguments are in. A full turn is 2 ^ 16.
use native.Mathlib.Nat.{mul-le-mul_right, le_of_mul-le-mul_right, div-mul-le_self}
use avr_kernel.Base.{
  ℕ, zero, suc, ◌+◌, ◌-◌, ◌*◌, ◌/◌, ◌%◌, ◌^◌, ◌<◌, ◌≤◌, ◌≡◌, refl, arith, inl, inr, false, ◌&&◌,
  some, if◌then◌else◌, ltb, leb, ◌==◌, u32, sub32, Bool-cases,
}
use avr_kernel.Util.Math.{magnitude, scale_down, octant_angle, full_angle, iatan2}

scale_down-IsScaled :
    (k rounds a b : ℕ)
    → k < rounds
    → b < 2 ^ 20 * 2 ^ k
    → a ≤ b
    → 0 < b
    → (a' : ℕ) × (b' : ℕ) × (scale_down rounds a b ≡ some (a', b'))
      × (a' ≤ b')
      × (0 < b')
      × (b' < 2 ^ 20)
unfolding scale_down
scale_down-IsScaled k zero a b lt small le pos = absurd (omega arith)
scale_down-IsScaled zero (suc rounds) a b lt small le pos =
    let done : leb (2 ^ 20) b ≡ false = ground arith in (a, b, rw done refl, le, pos, omega arith)
scale_down-IsScaled (suc k) (suc rounds) a b lt small le pos = elim (Bool-cases (leb (2 ^ 20) b)) [
  | inl e ↦
      let big : 2 ^ 20 ≤ b = ground (arith, e) in
      let r =
        scale_down-IsScaled k rounds (a / 2) (b / 2) (omega arith) (omega (arith, small, big))
          (omega arith) (omega (arith, big)) in
      (r.0, r.1, rw e r.2, r.3, r.4, r.5)
  | inr e ↦ (a, b, rw e refl, le, pos, ground (arith, e))
]

octant_angle-le : (a b : ℕ) → a ≤ b → 0 < b → b < 2 ^ 20 → octant_angle a b ≤ 8192
unfolding octant_angle
octant_angle-le a b le pos small =
    let r = u32 (a * 2 ^ 12) / b in
    let ratio : r * b ≤ 4096 * b = omega (arith, div-mul-le_self (u32 (a * 2 ^ 12)) b, le) in
    let short : r ≤ 4096 = le_of_mul-le-mul_right ratio pos in
    let bend : r * (4096 - r) ≤ 4096 * (4096 - r) = mul-le-mul_right (4096 - r) short in
    omega (arith, short, bend)

-- The answer `r`, from an angle of the first quadrant that lies in its second octant when the ordinate
-- is the greater one. The last quadrant ends at 0 again.
abbrev pub IsTurned : (y x r : ℕ) → Type 0
IsTurned y x r =
    (a : ℕ) × (if ltb (magnitude x) (magnitude y) then (8192 ≤ a) × (a ≤ 16384) else a ≤ 8192)
    × (if leb (2 ^ 31) x
        then (if leb (2 ^ 31) y then r ≡ 32768 + a else r ≡ 32768 - a)
        else if leb (2 ^ 31) y
        then r ≡ (65536 - a) % 65536
        else r ≡ a)

full_angle-quadrant :
    (y x a b : ℕ)
    → (if ltb (magnitude x) (magnitude y) then sub32 16384 a else a) ≡ b
    → b ≤ 16384
    → (if leb (2 ^ 31) x
        then (if leb (2 ^ 31) y then full_angle y x a ≡ 32768 + b else full_angle y x a ≡ 32768 - b)
        else if leb (2 ^ 31) y
        then full_angle y x a ≡ (65536 - b) % 65536
        else full_angle y x a ≡ b)
unfolding full_angle
full_angle-quadrant y x a b e le = elim (Bool-cases (leb (2 ^ 31) x)) [
  | inl sx ↦ elim (Bool-cases (leb (2 ^ 31) y)) [
    | inl sy ↦ rw (e, sx, sy) (omega arith)
    | inr sy ↦ rw (e, sx, sy) (omega arith)
  ]
  | inr sx ↦ elim (Bool-cases (leb (2 ^ 31) y)) [
    | inl sy ↦ rw (e, sx, sy) (omega arith)
    | inr sy ↦ rw (e, sx, sy) (omega arith)
  ]
]

full_angle-IsTurned : (y x a : ℕ) → a ≤ 8192 → IsTurned y x (full_angle y x a)
full_angle-IsTurned y x a le = elim (Bool-cases (ltb (magnitude x) (magnitude y))) [
  | inl e ↦
      let b = 16384 - a in
      let same : (if ltb (magnitude x) (magnitude y) then sub32 16384 a else a) ≡ b =
        rw e (omega (arith, le)) in
      (b, rw e (omega (arith, le), omega arith), full_angle-quadrant y x a b same (omega arith))
  | inr e ↦ (a, rw e le, full_angle-quadrant y x a a (rw e refl) (omega (arith, le)))
]

-- iatan2 answers an angle of the right octant: for two ints that are not both 0, with thirteen rounds
-- or more, it ends; the angle is that of the quadrant of the two signs, turned from an angle of the
-- first quadrant that is at most an eighth of a turn when the ordinate is not the greater in magnitude
-- and at least that much when it is.
pub iatan2-IsTurned :
    (y x rounds : ℕ)
    → y < 2 ^ 32
    → x < 2 ^ 32
    → 0 < x + y
    → 13 ≤ rounds
    → (r : ℕ) × (iatan2 rounds y x ≡ some r) × IsTurned y x r
unfolding iatan2
iatan2-IsTurned y x rounds hy hx pos le =
    let abs_y = magnitude y in
    let abs_x = magnitude x in
    let low = if ltb abs_x abs_y then abs_x else abs_y in
    let high = if ltb abs_y abs_x then abs_x else abs_y in
    let some_set : (x == 0 && y == 0) ≡ false = ground (arith, pos) in
    let s =
      scale_down-IsScaled 12 rounds low high (omega arith) (ground (arith, hy, hx)) (ground arith)
        (ground (arith, pos, hy, hx)) in
    let a = octant_angle s.0 s.1 in
    (
      full_angle y x a,
      rw (some_set, s.2) refl,
      full_angle-IsTurned y x a (octant_angle-le s.0 s.1 s.3 s.4 s.5),
    )
