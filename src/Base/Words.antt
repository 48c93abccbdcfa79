-- ===== src/Base/Words.antt =====
-- Single bits of a word of any width: `w & (1 << b)`, `w | (1 << b)` and `w & ~(1 << b)`.
use Prim.Native.Nat.{
  ℕ, zero, suc, ◌+◌, ◌-◌, ◌*◌, ◌/◌, ◌%◌, ◌^◌, ◌≤◌, ◌<◌, max, min, bit_or, bit_and, digits,
  bit_and-bitwise,
}
use mathlib.Core.Path.{◌≡◌, refl, ap, ◌∙◌}
use native.Mathlib.Omega.{arith}
use native.Mathlib.Nat.{pow-suc, one-le-pow, pow-le-pow_right}
use avr_kernel.Base.Tests.{◌==◌, if◌then◌else◌}
use avr_kernel.Base.Bits.{bit_or_digit, zero-bit_and}

-- Bit `b` of a word, 0 or 1.
abbrev pub bit : (w b : ℕ) → ℕ
bit w zero = w % 2
bit w (suc b) = bit (w / 2) b

pub bit-le : (w b : ℕ) → bit w b ≤ 1
bit-le w zero = omega arith
bit-le w (suc b) = bit-le (w / 2) b

pub bit-zero : (b : ℕ) → bit 0 b ≡ 0
bit-zero zero = refl
bit-zero (suc b) = bit-zero b

-- The digit recursion that `&` stands for, with its fuel in view.
abbrev and_upto : ℕ → ℕ → ℕ → ℕ
and_upto fuel a b = digits (λ y. 0) min fuel a b

and_upto_stable : (f g a b : ℕ) → a ≤ f → a ≤ g → and_upto f a b ≡ and_upto g a b
and_upto_stable zero zero a b hf hg = refl
and_upto_stable zero (suc g) zero b hf hg = refl
and_upto_stable zero (suc g) (suc a) b hf hg = absurd (omega arith)
and_upto_stable (suc f) zero zero b hf hg = refl
and_upto_stable (suc f) zero (suc a) b hf hg = absurd (omega arith)
and_upto_stable (suc f) (suc g) zero b hf hg = refl
and_upto_stable (suc f) (suc g) (suc a) b hf hg =
    omega (arith, and_upto_stable f g (suc a / 2) (b / 2) (omega arith) (omega arith))

pub bit_and_digit : (a b : ℕ) → bit_and a b ≡ bit_and (a / 2) (b / 2) * 2 + min (a % 2) (b % 2)
bit_and_digit zero b = omega (arith, zero-bit_and b, zero-bit_and (b / 2))
bit_and_digit (suc a) b = omega (
  arith,
  bit_and-bitwise (suc a) b,
  bit_and-bitwise (suc a / 2) (b / 2),
  and_upto_stable a (suc a / 2) (suc a / 2) (b / 2) (omega arith) (omega arith),
)

bit_and-zero_upto : (f a : ℕ) → a ≤ f → bit_and a 0 ≡ 0
bit_and-zero_upto f zero h = zero-bit_and 0
bit_and-zero_upto zero (suc a) h = absurd (omega arith)
bit_and-zero_upto (suc f) (suc a) h =
    omega (arith, bit_and_digit (suc a) 0, bit_and-zero_upto f (suc a / 2) (omega arith))

bit_and-zero : (a : ℕ) → bit_and a 0 ≡ 0
bit_and-zero a = bit_and-zero_upto a a (omega arith)

half_or : (w v : ℕ) → bit_or w v / 2 ≡ bit_or (w / 2) (v / 2)
half_or w v = omega (arith, bit_or_digit w v)

half_and : (w v : ℕ) → bit_and w v / 2 ≡ bit_and (w / 2) (v / 2)
half_and w v = omega (arith, bit_and_digit w v)

-- `|` and `&` bit by bit.
pub bit-or : (c w v : ℕ) → bit (bit_or w v) c ≡ max (bit w c) (bit v c)
bit-or zero w v = omega (arith, bit_or_digit w v)
bit-or (suc c) w v = ap (λ (x : ℕ). bit x c) (half_or w v) ∙ bit-or c (w / 2) (v / 2)

pub bit-and : (c w v : ℕ) → bit (bit_and w v) c ≡ min (bit w c) (bit v c)
bit-and zero w v = omega (arith, bit_and_digit w v)
bit-and (suc c) w v = ap (λ (x : ℕ). bit x c) (half_and w v) ∙ bit-and c (w / 2) (v / 2)

half_pow : (b : ℕ) → 2 ^ suc b / 2 ≡ 2 ^ b
half_pow b = omega (arith, pow-suc 2 b)

pub bit-pow : (b c : ℕ) → bit (2 ^ b) c ≡ (if b == c then 1 else 0)
bit-pow zero zero = refl
bit-pow zero (suc c) = ground (arith, bit-zero c)
bit-pow (suc b) zero = ground (arith, pow-suc 2 b)
bit-pow (suc b) (suc c) = ap (λ (x : ℕ). bit x c) (half_pow b) ∙ ground (arith, bit-pow b c)

pub bit-ones : (n c : ℕ) → c < n → bit (2 ^ n - 1) c ≡ 1
bit-ones zero c lt = absurd (omega arith)
bit-ones (suc n) zero lt = omega (arith, pow-suc 2 n, one-le-pow n 2 (omega arith))
bit-ones (suc n) (suc c) lt =
    let half : (2 ^ suc n - 1) / 2 ≡ 2 ^ n - 1 = omega (arith, pow-suc 2 n) in
    ap (λ (x : ℕ). bit x c) half ∙ bit-ones n c (omega arith)

-- `~(1U << b)`, of `n` bits.
pub bit-complement :
    (n b c : ℕ) → b < n → c < n → bit (2 ^ n - 1 - 2 ^ b) c ≡ (if b == c then 0 else 1)
bit-complement zero b c hb hc = absurd (omega arith)
bit-complement (suc n) zero zero hb hc = omega (arith, pow-suc 2 n, one-le-pow n 2 (omega arith))
bit-complement (suc n) zero (suc c) hb hc =
    let half : (2 ^ suc n - 1 - 1) / 2 ≡ 2 ^ n - 1 = omega (arith, pow-suc 2 n) in
    ap (λ (x : ℕ). bit x c) half ∙ ground (arith, bit-ones n c (omega arith))
bit-complement (suc n) (suc b) zero hb hc =
    let room : 2 ^ suc b ≤ 2 ^ n = pow-le-pow_right (omega arith) (omega arith) in
    ground (arith, pow-suc 2 n, pow-suc 2 b, room, one-le-pow n 2 (omega arith))
bit-complement (suc n) (suc b) (suc c) hb hc =
    let half : (2 ^ suc n - 1 - 2 ^ suc b) / 2 ≡ 2 ^ n - 1 - 2 ^ b =
      omega (arith, pow-suc 2 n, pow-suc 2 b) in
    ap (λ (x : ℕ). bit x c) half ∙ ground (arith, bit-complement n b c (omega arith) (omega arith))

-- `w | (1U << b)`
pub bit-set : (w b c : ℕ) → bit (bit_or w (2 ^ b)) c ≡ (if b == c then 1 else bit w c)
bit-set w b c = ground (arith, bit-or c w (2 ^ b), bit-pow b c, bit-le w c)

-- `w & ~(1U << b)`, of `n` bits
pub bit-clear :
    (n w b c : ℕ)
    → b < n
    → c < n
    → bit (bit_and w (2 ^ n - 1 - 2 ^ b)) c ≡ (if b == c then 0 else bit w c)
bit-clear n w b c hb hc =
    ground (arith, bit-and c w (2 ^ n - 1 - 2 ^ b), bit-complement n b c hb hc, bit-le w c)

-- `w & (1U << b)` is that bit.
pub bit_and-pow : (b w : ℕ) → bit_and w (2 ^ b) ≡ bit w b * 2 ^ b
bit_and-pow zero w = omega (arith, bit_and_digit w 1, bit_and-zero (w / 2))
bit_and-pow (suc b) w = ground (
  arith,
  bit_and_digit w (2 ^ suc b),
  half_pow b,
  bit_and-pow b (w / 2),
  pow-suc 2 b,
  ap (λ (x : ℕ). bit (w / 2) b * x) (pow-suc 2 b),
)

pub bit_and_pow-zero : (b w : ℕ) → (bit_and w (2 ^ b) == 0) ≡ (bit w b == 0)
bit_and_pow-zero b w = ground (arith, bit_and-pow b w, bit-le w b, one-le-pow b 2 (omega arith))
