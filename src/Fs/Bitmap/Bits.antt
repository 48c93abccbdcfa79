-- ===== src/Fs/Bitmap/Bits.antt =====
-- Single bits of any number that is kept as a byte.
use avr_kernel.Base.{
  ℕ, zero, suc, ◌^◌, ◌-◌, ◌<◌, ◌≡◌, arith, true, false, if◌then◌else◌, ◌==◌, ◌!=◌, u8, bit, bit-set,
  bit-clear, bit_and_pow-zero, bit_and, bit_or, bit_test, bit_set, bit_clear,
}

byte_bit : (x c : ℕ) → c < 8 → bit (u8 x) c ≡ bit x c
byte_bit x zero lt = omega arith
byte_bit x (suc zero) lt = omega arith
byte_bit x (suc (suc zero)) lt = omega arith
byte_bit x (suc (suc (suc zero))) lt = omega arith
byte_bit x (suc (suc (suc (suc zero)))) lt = omega arith
byte_bit x (suc (suc (suc (suc (suc zero))))) lt = omega arith
byte_bit x (suc (suc (suc (suc (suc (suc zero)))))) lt = omega arith
byte_bit x (suc (suc (suc (suc (suc (suc (suc zero))))))) lt = omega arith
byte_bit x (suc (suc (suc (suc (suc (suc (suc (suc c)))))))) lt = absurd (omega arith)

bit_test_lem : (b k : ℕ) → bit_test b k ≡ (bit b k != 0)
unfolding bit_test
bit_test_lem b k = ground (arith, bit_and_pow-zero k b)

pub bit_test-bit_set :
    (b k j : ℕ) → j < 8 → bit_test (bit_set b k) j ≡ (if j == k then true else bit_test b j)
unfolding bit_set
bit_test-bit_set b k j lt = ground (
  arith,
  bit_test_lem (u8 (bit_or b (2 ^ k))) j,
  bit_test_lem b j,
  byte_bit (bit_or b (2 ^ k)) j lt,
  bit-set b k j,
)

pub bit_test-bit_clear :
    (b k j : ℕ)
    → k < 8
    → j < 8
    → bit_test (bit_clear b k) j ≡ (if j == k then false else bit_test b j)
unfolding bit_clear
bit_test-bit_clear b k j lt_k lt = ground (
  arith,
  bit_test_lem (u8 (bit_and b (2 ^ 32 - 1 - 2 ^ k))) j,
  bit_test_lem b j,
  byte_bit (bit_and b (2 ^ 32 - 1 - 2 ^ k)) j lt,
  bit-clear 32 b k j (omega arith) (omega arith),
)
