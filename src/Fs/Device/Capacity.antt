-- ===== src/Fs/Device/Capacity.antt =====
-- The sizes of a formatted disk.
use native.Mathlib.Nat.{lt-div-mul-add, div-mul-le_self}
use avr_kernel.Base.{ℕ, ◌+◌, ◌-◌, ◌*◌, ◌/◌, ◌^◌, ◌<◌, ◌≤◌, ◌≡◌, refl, ap, arith, ltb, add32}
use avr_kernel.Fs.Cache.{Cache}
use avr_kernel.Fs.Bitmap.{Context}
use avr_kernel.Fs.Bitmap.Blocks.{block_is_used}
use avr_kernel.Fs.Device.{with_sizes}
use avr_kernel.Fs.Device.Layout.{IsMounted}
use avr_kernel.Fs.Device.Open.{IsAttached, opened, opened-IsFramed}

abbrev pub bitmap_bytes : (capacity sector_size : ℕ) → ℕ
bitmap_bytes capacity sector_size = (capacity / sector_size + 7) / 8

abbrev pub reserved_for : (capacity sector_size : ℕ) → ℕ
reserved_for capacity sector_size =
    (48 + bitmap_bytes capacity sector_size + (sector_size - 1)) / sector_size

-- Sizes for which a disk has room for its own bitmap, without overflow.
pub record IsCapacity (capacity sector_size : ℕ) : Type 0 where
  pub sector : 0 < sector_size
  pub small : capacity < 2 ^ 32
  pub count : capacity / sector_size + 7 < 2 ^ 32
  pub reserve : 48 + bitmap_bytes capacity sector_size + sector_size ≤ 2 ^ 32
  pub inside : reserved_for capacity sector_size ≤ capacity / sector_size

-- A mounted disk with the sizes asked for, of which exactly the reserved blocks are in use.
pub record IsFormatted (capacity sector_size : ℕ) (c : Context) : Type 0 where
  pub mounted : IsMounted c
  pub sector : c.sector_size ≡ sector_size
  pub pool : c.pool_size ≡ capacity
  pub count : c.block_count ≡ capacity / sector_size
  pub reserved : c.reserved_blocks ≡ reserved_for capacity sector_size
  pub used :
      (j : ℕ)
      → j < capacity / sector_size
      → block_is_used j c ≡ ltb j (reserved_for capacity sector_size)

pub opened_sizes :
    (capacity sector_size : ℕ) (c : Cache)
    → IsCapacity capacity sector_size
    → ((opened capacity sector_size c).bitmap_size ≡ bitmap_bytes capacity sector_size)
      × ((opened capacity sector_size c).reserved_blocks ≡ reserved_for capacity sector_size)
unfolding with_sizes
opened_sizes capacity sector_size c v =
    let bytes : add32 (capacity / sector_size) 7 / 8 ≡ bitmap_bytes capacity sector_size =
      omega (arith, v.count) in
    (bytes, ap (λ (x : ℕ). x / sector_size) (omega (arith, bytes, v.reserve, v.sector)))

room_transport :
    {b r : ℕ} (b' r' sector_size : ℕ)
    → b ≡ b'
    → r ≡ r'
    → 48 + b' ≤ r' * sector_size
    → 48 + b ≤ r * sector_size
room_transport b' r' sector_size e f h = rw (e, f) h

pub opened-IsMounted :
    (capacity sector_size : ℕ) (c : Cache)
    → IsAttached c
    → IsCapacity capacity sector_size
    → IsMounted (opened capacity sector_size c)
unfolding with_sizes
opened-IsMounted capacity sector_size c a v =
    let (bytes, reserved) = opened_sizes capacity sector_size c v in
    record {
      framed = opened-IsFramed capacity sector_size c a v.count;
      sector = v.sector;
      room = room_transport _ _ sector_size bytes reserved (
          omega (
            arith,
            lt-div-mul-add {a = 48 + bitmap_bytes capacity sector_size + (sector_size - 1)}
                {b = sector_size} v.sector,
          ));
      inside = omega (arith, reserved, v.inside);
      fits = omega (arith, v.small, div-mul-le_self capacity sector_size);
    }

pub opened-blocks :
    (capacity sector_size : ℕ) (c : Cache)
    → ((opened capacity sector_size c).block_count ≡ capacity / sector_size)
      × ((opened capacity sector_size c).sector_size ≡ sector_size)
      × ((opened capacity sector_size c).pool_size ≡ capacity)
unfolding with_sizes
opened-blocks capacity sector_size c = (refl, refl, refl)
