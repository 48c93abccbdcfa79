-- ===== src/Fs/Device/Layout.antt =====
-- The layout of a mounted disk, and the allocation headers on it.
use native.Mathlib.Nat.{mul-le-mul_right, add-mul, lt-div-mul-add}
use avr_kernel.Base.{
  ℕ, ◌+◌, ◌-◌, ◌*◌, ◌/◌, ◌%◌, ◌^◌, ◌≤◌, ◌<◌, ◌≡◌, refl, ap, arith, ◌⊎◌, ◌&&◌, if◌then◌else◌, leb,
  ltb, add32, sub32, get32, put32, get32-put32,
}
use avr_kernel.Fs.Cache.Content.{content}
use avr_kernel.Fs.Bitmap.{Context}
use avr_kernel.Fs.Bitmap.Frame.{IsFramed, SameSizes}
use avr_kernel.Fs.Bitmap.Blocks.{block_is_used}
use avr_kernel.Fs.Device.{blocks_needed, write_header, write_struct}
use avr_kernel.Fs.Device.Words.{write_struct-IsWritten}

-- A context whose bitmap stands in its reserved blocks, on a drive that never fails.
pub record IsMounted (c : Context) : Type 0 where
  pub framed : IsFramed c
  pub sector : 0 < c.sector_size
  pub room : 48 + c.bitmap_size ≤ c.reserved_blocks * c.sector_size
  pub inside : c.reserved_blocks ≤ c.block_count
  pub fits : c.block_count * c.sector_size < 2 ^ 32

pub SameSizes-IsMounted : (c d : Context) → IsMounted c → SameSizes c d → IsFramed d → IsMounted d
SameSizes-IsMounted c d v s f = record {
  framed = f;
  sector = omega (arith, v.sector, s);
  room = rw (s.0, s.3, s.4) v.room;
  inside = omega (arith, v.inside, s);
  fits = rw (s.0, s.2) v.fits;
}

-- The blocks that `size` bytes take, with the allocation header.
abbrev pub blocks_for : (size : ℕ) → Context → ℕ
blocks_for size c = (size + 4 + (c.sector_size - 1)) / c.sector_size

pub blocks_needed-eq-blocks_for :
    (size : ℕ) (c : Context)
    → 0 < c.sector_size
    → size + 4 + c.sector_size ≤ 2 ^ 32
    → blocks_needed size c ≡ blocks_for size c
unfolding blocks_needed
blocks_needed-eq-blocks_for size c pos fits =
    let total : sub32 (add32 (add32 4 size) c.sector_size) 1 ≡ size + 4 + (c.sector_size - 1) =
      omega arith in
    ap (λ (x : ℕ). x / c.sector_size) total

-- They hold the bytes, and there is at least one.
pub blocks_for_bounds :
    (size : ℕ) (c : Context)
    → 0 < c.sector_size
    → (size + 4 ≤ blocks_for size c * c.sector_size) × (0 < blocks_for size c)
blocks_for_bounds size c pos =
    let enough : size + 4 ≤ blocks_for size c * c.sector_size =
      omega (arith, lt-div-mul-add {a = size + 4 + (c.sector_size - 1)} {b = c.sector_size} pos) in
    (enough, ground (arith, enough))

-- Where a run of blocks lies on the disk.
pub run_bounds :
    (start n : ℕ) (c : Context)
    → IsMounted c
    → c.reserved_blocks ≤ start
    → start + n ≤ c.block_count
    → (48 + c.bitmap_size ≤ start * c.sector_size)
      × (start * c.sector_size + n * c.sector_size < 2 ^ 32)
run_bounds start n c v low high = omega (
  arith,
  v.room,
  v.fits,
  mul-le-mul_right c.sector_size low,
  mul-le-mul_right c.sector_size high,
  add-mul start n c.sector_size,
)

header_word :
    (address size : ℕ) (m m' : ℕ → ℕ)
    → ((x : ℕ)
        → m' x ≡ (
            if leb address x && ltb x (address + 4)
            then put32 (λ i. 0) 0 size (x - address)
            else m x))
    → get32 m' address ≡ size % 2 ^ 32
unfolding get32
header_word address size m m' h = omega (
  arith,
  byte_zero,
  byte 1 (omega arith),
  byte 2 (omega arith),
  byte 3 (omega arith),
  get32-put32 (λ i. 0) 0 size,
)
  where
    byte_zero : m' address ≡ put32 (λ i. 0) 0 size 0
    byte_zero = ground (arith, h address)

    byte : (k : ℕ) → k < 4 → m' (address + k) ≡ put32 (λ i. 0) 0 size k
    byte k lt = ground (arith, h (address + k))

-- `d` is `c` with the allocation header `size` written at `address`, outside the bitmap.
pub record IsHeaded (address size : ℕ) (c d : Context) : Type 0 where
  pub framed : IsFramed d
  pub sizes : SameSizes c d
  pub used : (j : ℕ) → j < c.block_count → block_is_used j d ≡ block_is_used j c
  pub header : get32 (content d.cache) address ≡ size % 2 ^ 32
  pub rest : (x : ℕ) → (x < address) ⊎ (address + 4 ≤ x) → content d.cache x ≡ content c.cache x
  pub dirty : d.frame_dirty ≡ c.frame_dirty

pub write_header-IsHeaded :
    (address size : ℕ) (c : Context)
    → IsFramed c
    → 48 + c.bitmap_size ≤ address
    → address + 4 ≤ 2 ^ 32
    → IsHeaded address size c (write_header address size c)
unfolding write_header write_struct block_is_used
write_header-IsHeaded address size c v far le =
    let w = write_struct-IsWritten 4 address (put32 (λ i. 0) 0 size) c v far le in
    record {
      framed = w.framed;
      sizes = omega arith;
      used = λ j lt. ground (arith, w.bits (j / 8) (omega (arith, v.size)));
      header = header_word address size (content c.cache) _ w.bytes;
      rest = λ x away. ground (arith, w.bytes x, away);
      dirty = refl;
    }

pub get32-eq_of_eq :
    (a : ℕ) (m m' : ℕ → ℕ) → ((x : ℕ) → a ≤ x → m' x ≡ m x) → get32 m' a ≡ get32 m a
unfolding get32
get32-eq_of_eq a m m' h = omega (
  arith,
  h a (omega arith),
  h (a + 1) (omega arith),
  h (a + 2) (omega arith),
  h (a + 3) (omega arith),
)
