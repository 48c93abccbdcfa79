-- ===== src/Fs/Device/Words.antt =====
-- Structures on the disk: what is read and written through the cache.
use avr_kernel.Base.{ℕ, ◌+◌, ◌-◌, ◌^◌, ◌≤◌, ◌<◌, ◌≡◌, arith, ◌&&◌, if◌then◌else◌, leb, ltb, get32}
use avr_kernel.Fs.Cache.Content.{content}
use avr_kernel.Fs.Cache.Bytes.{fs_mem_read-IsRead, fs_mem_write-IsStored}
use avr_kernel.Fs.Bitmap.{Context}
use avr_kernel.Fs.Bitmap.Frame.{bitmap_byte, IsFramed, Kept, SameSizes}
use avr_kernel.Fs.Device.{read_struct, write_struct, read_header}

-- A read leaves the bitmap and the disk as they are.
pub read_struct-Kept :
    (size address : ℕ) (c : Context)
    → IsFramed c
    → address + size ≤ 2 ^ 32
    → Kept c (read_struct size address c).1
      × ((k : ℕ) → k < size → (read_struct size address c).0 k ≡ content c.cache (address + k))
      × ((x : ℕ) → content (read_struct size address c).1.cache x ≡ content c.cache x)
unfolding read_struct bitmap_byte
read_struct-Kept size address c v le =
    let r = fs_mem_read-IsRead size 0 address (λ i. 0) c.cache v.ready (omega arith) in
    (
      record {
        framed = record {
          ready = r.ready;
          size = v.size;
          small = v.small;
          none_clean = v.none_clean;
          place = v.place;
          clean = λ k e lt inside.
              ground (arith, v.clean k e lt inside, r.same (48 + (c.frame_offset + k)));
        };
        sizes = omega arith;
        bits = λ j lt. ground (arith, r.same (48 + j));
        rest = λ a o. r.same a;
      },
      λ k lt. ground (arith, r.bytes k),
      r.same,
    )

pub read_header-Kept :
    (address : ℕ) (c : Context)
    → IsFramed c
    → address + 4 ≤ 2 ^ 32
    → Kept c (read_header address c).1
      × ((read_header address c).0 ≡ get32 (content c.cache) address)
      × ((x : ℕ) → content (read_header address c).1.cache x ≡ content c.cache x)
unfolding read_header get32
read_header-Kept address c v le =
    let (k, b, same) = read_struct-Kept 4 address c v le in
    (k, ground (arith, b 0, b 1, b 2, b 3), same)

-- A write outside the bitmap leaves the bitmap.
pub record IsWritten (size address : ℕ) (source : ℕ → ℕ) (c d : Context) : Type 0 where
  pub framed : IsFramed d
  pub sizes : SameSizes c d
  pub bits : (j : ℕ) → j < c.bitmap_size → bitmap_byte d j ≡ bitmap_byte c j
  pub bytes :
      (x : ℕ)
      → content d.cache x ≡ (
          if leb address x && ltb x (address + size)
          then source (x - address)
          else content c.cache x)

pub write_struct-IsWritten :
    (size address : ℕ) (source : ℕ → ℕ) (c : Context)
    → IsFramed c
    → 48 + c.bitmap_size ≤ address
    → address + size ≤ 2 ^ 32
    → IsWritten size address source c (write_struct size address source c)
unfolding write_struct bitmap_byte
write_struct-IsWritten size address source c v far le =
    let s = fs_mem_write-IsStored size 0 address source c.cache v.ready (omega arith) in
    record {
      framed = record {
        ready = s.ready;
        size = v.size;
        small = v.small;
        none_clean = v.none_clean;
        place = v.place;
        clean = λ k e lt inside.
            ground (arith, v.clean k e lt inside, s.bytes (48 + (c.frame_offset + k)));
      };
      sizes = omega arith;
      bits = λ j lt. ground (arith, s.bytes (48 + j));
      bytes = λ x. ground (arith, s.bytes x);
    }
