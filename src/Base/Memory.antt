-- ===== src/Base/Memory.antt =====
-- Byte-addressed memory as a function, and little-endian 32-bit words in it.
use Prim.Native.Nat.{ℕ, ◌+◌, ◌*◌, ◌/◌, ◌%◌, ◌^◌, ◌<◌}
use mathlib.Core.Path.{◌≡◌}
use native.Mathlib.Omega.{arith}
use avr_kernel.Base.Tests.{◌==◌, if◌then◌else◌}

abbrev pub upd {ℓ} : {A : Type ℓ} → (ℕ → A) → ℕ → A → ℕ → A
upd f k v i = if i == k then v else f i

abbrev pub join32 : ℕ → ℕ → ℕ → ℕ → ℕ
join32 b0 b1 b2 b3 = b0 + 256 * b1 + 65536 * b2 + 16777216 * b3

unfoldable pub get32 : (ℕ → ℕ) → ℕ → ℕ
get32 f o = join32 (f o) (f (o + 1)) (f (o + 2)) (f (o + 3))

unfoldable pub put32 : (ℕ → ℕ) → ℕ → ℕ → ℕ → ℕ
put32 f o v =
    upd (upd (upd (upd f o (v % 256)) (o + 1) (v / 256 % 256)) (o + 2) (v / 65536 % 256)) (o + 3)
      (v / 16777216 % 256)

pub get32-put32 : (f : ℕ → ℕ) (o v : ℕ) → get32 (put32 f o v) o ≡ v % 2 ^ 32
unfolding get32 put32
get32-put32 f o v = ground arith

pub join32-bytes :
    (v : ℕ) → join32 (v % 256) (v / 256 % 256) (v / 65536 % 256) (v / 16777216 % 256) ≡ v % 2 ^ 32
join32-bytes v = omega arith

-- All cells are bytes.
abbrev pub IsBytes : (ℕ → ℕ) → Type 0
IsBytes f = (i : ℕ) → f i < 256

pub upd-IsBytes : (f : ℕ → ℕ) (k v : ℕ) → IsBytes f → v < 256 → IsBytes (upd f k v)
upd-IsBytes f k v h hv i = ground (arith, h i)

pub put32-IsBytes : (f : ℕ → ℕ) (o v : ℕ) → IsBytes f → IsBytes (put32 f o v)
unfolding put32
put32-IsBytes f o v h i = ground (arith, h i)

pub get32-lt : (f : ℕ → ℕ) (o : ℕ) → IsBytes f → get32 f o < 2 ^ 32
unfolding get32
get32-lt f o h = omega (arith, h o, h (o + 1), h (o + 2), h (o + 3))
