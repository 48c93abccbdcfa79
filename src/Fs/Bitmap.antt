-- ===== src/Fs/Bitmap.antt =====
-- kernel/fs/basefs/bitmap.c: one bit for each block of the disk, read and written through a frame of 32
-- bytes of the bitmap. The bitmap stands behind the device header (16 bytes) and the partition block
-- (32 bytes).
pub mod Bits
pub mod Frame
pub mod Blocks
use avr_kernel.Base.{
  ℕ, ◌+◌, ◌-◌, ◌*◌, ◌/◌, ◌%◌, ◌^◌, Bool, true, false, ◌&&◌, if◌then◌else◌, ltb, ◌!=◌, add32, sub32,
  upd, bit_test, bit_set, bit_clear,
}
use avr_kernel.Fs.Cache.{Cache, fs_mem_read, fs_mem_write}

-- The fields of FSDeviceContext; `cache` has those of the sector cache.
pub record Context : Type 0 where
  pub is_open : Bool
  pub sector_size : ℕ
  pub pool_size : ℕ
  pub block_count : ℕ
  pub bitmap_size : ℕ
  pub reserved_blocks : ℕ
  pub frame_offset : ℕ
  pub frame_bitmap : ℕ → ℕ
  pub frame_dirty : Bool
  pub cache : Cache

abbrev pub frame_size : ℕ
frame_size = 32

abbrev pub no_frame : ℕ
no_frame = 2 ^ 32 - 1

pub fs_bitmap_address : ℕ
fs_bitmap_address = 16 + 32

-- The bytes of the frame at an offset: fewer than 32 at the end of the bitmap.
pub frame_bytes : (offset : ℕ) → Context → ℕ
frame_bytes offset c =
    if ltb c.bitmap_size (add32 offset frame_size) then sub32 c.bitmap_size offset else frame_size

pub fs_bitmap_flush : Context → Context
fs_bitmap_flush c =
    if c.frame_dirty && c.frame_offset != no_frame
    then record c {
      cache =
          fs_mem_write (frame_bytes c.frame_offset c) 0 (add32 fs_bitmap_address c.frame_offset)
            c.frame_bitmap c.cache;
      frame_dirty = false;
    }
    else c

pub fs_bitmap_sync : (bit_index : ℕ) → Context → Context
fs_bitmap_sync bit_index c =
    let window_start = bit_index / 8 / frame_size * frame_size in
    let flushed = fs_bitmap_flush c in
    let (frame, cache) =
      fs_mem_read (frame_bytes window_start flushed) 0 (add32 fs_bitmap_address window_start)
        flushed.frame_bitmap flushed.cache in
    if c.frame_offset != window_start
    then record flushed {
      frame_offset = window_start;
      frame_bitmap = frame;
      frame_dirty = false;
      cache = cache;
    }
    else c

pub fs_bitmap_get : (index : ℕ) → Context → Bool × Context
fs_bitmap_get index c =
    let c' = fs_bitmap_sync index c in
    (bit_test (c'.frame_bitmap (sub32 (index / 8) c'.frame_offset)) (index % 8), c')

pub fs_bitmap_set : (index : ℕ) → Context → Context
fs_bitmap_set index c =
    let c' = fs_bitmap_sync index c in
    let local_byte = sub32 (index / 8) c'.frame_offset in
    let old = c'.frame_bitmap local_byte in
    if bit_test old (index % 8) then c' else record c' {
      frame_bitmap = upd c'.frame_bitmap local_byte (bit_set old (index % 8));
      frame_dirty = true;
    }

pub fs_bitmap_clear : (index : ℕ) → Context → Context
fs_bitmap_clear index c =
    let c' = fs_bitmap_sync index c in
    let local_byte = sub32 (index / 8) c'.frame_offset in
    let old = c'.frame_bitmap local_byte in
    if bit_test old (index % 8)
    then record c' {
      frame_bitmap = upd c'.frame_bitmap local_byte (bit_clear old (index % 8));
      frame_dirty = true;
    }
    else c'
