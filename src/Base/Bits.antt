-- ===== src/Base/Bits.antt =====
-- `|` and `&` of numbers of any width, one binary digit at a time, and `|` of disjoint fields.
use Prim.Native.Nat.{
  ℕ, zero, suc, ◌+◌, ◌*◌, ◌/◌, ◌%◌, ◌^◌, ◌≤◌, max, bit_or, bit_and, digits, bit_or-bitwise,
  bit_and-bitwise,
}
use mathlib.Core.Path.{◌≡◌, refl, ap}
use native.Mathlib.Omega.{arith}
use native.Mathlib.Nat.{pow-suc}

-- The digit recursion that `|` stands for, with its fuel in view.
abbrev or_upto : ℕ → ℕ → ℕ → ℕ
or_upto fuel a b = digits (λ y. y) max fuel a b

or_upto_stable : (f g a b : ℕ) → a ≤ f → a ≤ g → or_upto f a b ≡ or_upto g a b
or_upto_stable zero zero a b hf hg = refl
or_upto_stable zero (suc g) zero b hf hg = refl
or_upto_stable zero (suc g) (suc a) b hf hg = absurd (omega arith)
or_upto_stable (suc f) zero zero b hf hg = refl
or_upto_stable (suc f) zero (suc a) b hf hg = absurd (omega arith)
or_upto_stable (suc f) (suc g) zero b hf hg = refl
or_upto_stable (suc f) (suc g) (suc a) b hf hg =
    omega (arith, or_upto_stable f g (suc a / 2) (b / 2) (omega arith) (omega arith))

pub zero-bit_or : (b : ℕ) → bit_or 0 b ≡ b
zero-bit_or b = bit_or-bitwise 0 b

pub zero-bit_and : (b : ℕ) → bit_and 0 b ≡ 0
zero-bit_and b = bit_and-bitwise 0 b

-- The lowest digit of `a | b`.
pub bit_or_digit : (a b : ℕ) → bit_or a b ≡ bit_or (a / 2) (b / 2) * 2 + max (a % 2) (b % 2)
bit_or_digit zero b = omega (arith, zero-bit_or b, zero-bit_or (b / 2))
bit_or_digit (suc a) b = omega (
  arith,
  bit_or-bitwise (suc a) b,
  bit_or-bitwise (suc a / 2) (b / 2),
  or_upto_stable a (suc a / 2) (suc a / 2) (b / 2) (omega arith) (omega arith),
)

pub mul-pow-suc : (d k : ℕ) → d * 2 ^ suc k ≡ 2 * (d * 2 ^ k)
mul-pow-suc d k = omega (arith, ap (λ (t : ℕ). d * t) (pow-suc 2 k))

bit_or-zero_upto : (f a : ℕ) → a ≤ f → bit_or a 0 ≡ a
bit_or-zero_upto f zero h = refl
bit_or-zero_upto zero (suc a) h = absurd (omega arith)
bit_or-zero_upto (suc f) (suc a) h =
    omega (arith, bit_or_digit (suc a) 0, bit_or-zero_upto f (suc a / 2) (omega arith))

-- A bit above which the other operand starts is added.
pub bit_or_above : (k m : ℕ) → bit_or (m * 2 ^ suc k) (2 ^ k) ≡ m * 2 ^ suc k + 2 ^ k
bit_or_above zero m =
    ground (arith, bit_or_digit (m * 2 ^ 1) (2 ^ 0), bit_or-zero_upto m m (omega arith))
bit_or_above (suc k) m = ground (
  arith,
  bit_or_digit (m * 2 ^ suc (suc k)) (2 ^ suc k),
  bit_or_above k m,
  mul-pow-suc m (suc k),
  mul-pow-suc m k,
  pow-suc 2 k,
)
