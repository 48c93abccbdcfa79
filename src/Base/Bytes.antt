-- ===== src/Base/Bytes.antt =====
-- Single bits of a byte: `b & (1 << k)`, `b | (1 << k)` and `b & ~(1 << k)`. The laws are proved by
-- evaluation at every byte and every pair of bits.
use Prim.Native.Nat.{ℕ, zero, suc, ◌-◌, ◌^◌, ◌<◌, bit_and, bit_or}
use mathlib.Core.Path.{◌≡◌, refl}
use mathlib.Core.Bool.{Bool, true, false, not}
use native.Mathlib.Omega.{arith}
use avr_kernel.Base.Tests.{◌==◌, ◌!=◌, if◌then◌else◌, u8}

-- `test` answers yes at every number below the bound.
unfoldable pub holds_below : (ℕ → Bool) → ℕ → Bool
holds_below test zero = true
holds_below test (suc k) = if test k then holds_below test k else false

pub holds_below_at :
    (test : ℕ → Bool) (bound : ℕ)
    → holds_below test bound ≡ true
    → (x : ℕ) → x < bound
    → test x ≡ true
unfolding holds_below
holds_below_at test zero every x lt = absurd (omega arith)
holds_below_at test (suc k) every x lt =
    ground (arith, every, λ (h : holds_below test k ≡ true). holds_below_at test k h x)

-- Equality of two tests.
abbrev pub eqb : Bool → Bool → Bool
eqb true b = b
eqb false b = not b

pub eqb→eq : (a b : Bool) → eqb a b ≡ true → a ≡ b
eqb→eq a b h = ground arith

-- `(b & (1U << k)) != 0`
unfoldable pub bit_test : ℕ → ℕ → Bool
bit_test b k = bit_and b (2 ^ k) != 0

-- `(uint8_t)(b | (1U << k))`
unfoldable pub bit_set : ℕ → ℕ → ℕ
bit_set b k = u8 (bit_or b (2 ^ k))

-- `(uint8_t)(b & ~(1U << k))`: the complement of an unsigned int, cut off to a byte
unfoldable pub bit_clear : ℕ → ℕ → ℕ
bit_clear b k = u8 (bit_and b (2 ^ 32 - 1 - 2 ^ k))

set_table :
    holds_below
      (λ b.
        holds_below
          (λ k.
            holds_below
              (λ j. eqb (bit_test (bit_set b k) j) (if j == k then true else bit_test b j))
              8)
          8)
      256
    ≡ true
unfolding holds_below bit_test bit_set
set_table = refl

clear_table :
    holds_below
      (λ b.
        holds_below
          (λ k.
            holds_below
              (λ j. eqb (bit_test (bit_clear b k) j) (if j == k then false else bit_test b j))
              8)
          8)
      256
    ≡ true
unfolding holds_below bit_test bit_clear
clear_table = refl

pub bit_test-set :
    (b k j : ℕ)
    → b < 256
    → k < 8
    → j < 8
    → bit_test (bit_set b k) j ≡ (if j == k then true else bit_test b j)
bit_test-set b k j hb hk hj =
    eqb→eq _ _
      (holds_below_at _ 8 (holds_below_at _ 8 (holds_below_at _ 256 set_table b hb) k hk) j hj)

pub bit_test-clear :
    (b k j : ℕ)
    → b < 256
    → k < 8
    → j < 8
    → bit_test (bit_clear b k) j ≡ (if j == k then false else bit_test b j)
bit_test-clear b k j hb hk hj =
    eqb→eq _ _
      (holds_below_at _ 8 (holds_below_at _ 8 (holds_below_at _ 256 clear_table b hb) k hk) j hj)
