-- ===== src/Fs/Device/Tests.antt =====
-- The theorems on the disk at a concrete one: 16 blocks of 512 bytes, one of them reserved.
use avr_kernel.Base.{
  ℕ, ◌+◌, ◌≤◌, ◌<◌, ◌≡◌, ◌≢◌, refl, arith, ◌⊎◌, inl, inr, Bool, true, false, not, none, holds_below,
  holds_below_at, bit_test,
}
use avr_kernel.Fs.Cache.{Cache, fs_mem_read, fs_mem_write, fs_cache_flush}
use avr_kernel.Fs.Cache.Content.{content, IsReady}
use avr_kernel.Fs.Cache.Bytes.{fs_mem_read-fs_mem_write}
use avr_kernel.Fs.Cache.Sync.{fs_cache_flush_failed}
use avr_kernel.Fs.Bitmap.{Context, no_frame, fs_bitmap_get, fs_bitmap_set, fs_bitmap_clear}
use avr_kernel.Fs.Bitmap.Frame.{IsFramed, bitmap_byte, outside}
use avr_kernel.Fs.Bitmap.Blocks.{fs_bitmap_get-set, block_is_used}
use avr_kernel.Fs.Device.{fs_null, fs_alloc, fs_free, fs_device_sync}
use avr_kernel.Fs.Device.Layout.{IsMounted}
use avr_kernel.Fs.Device.Alloc.{IsOutcome, fs_alloc-IsOutcome}
use avr_kernel.Fs.Device.Free.{IsRestored, fs_free-fs_alloc}
use avr_kernel.Fs.Device.Sync.{drive_byte, fs_device_sync-drive_byte}

-- An ATA drive of zeros whose accesses all give the same answer, with sector 3 in the window.
abbrev cache_of : (answer dirty : Bool) → Cache
cache_of answer dirty = record {
  device_type = 0;
  sector_frame = 3;
  sector_dirty = dirty;
  window = λ b. 7;
  drive = record { sectors = λ s b. 0; accesses = 0; works = λ n. answer };
  ports = λ i. none;
}

dirty_IsReady : IsReady (cache_of true true)
dirty_IsReady = record {
  coherent = record { backed = inl refl; none_clean = λ h. absurd (omega arith); clean = λ h. cc };
  working = λ n. refl;
}

abbrev disk : Context
disk = record {
  is_open = true;
  sector_size = 512;
  pool_size = 8192;
  block_count = 16;
  bitmap_size = 2;
  reserved_blocks = 1;
  frame_offset = no_frame;
  frame_bitmap = λ k. 0;
  frame_dirty = false;
  cache = cache_of true true;
}

disk-IsFramed : IsFramed disk
disk-IsFramed = record {
  ready = dirty_IsReady;
  size = refl;
  small = omega arith;
  none_clean = λ h. refl;
  place = inl refl;
  clean = λ k h lt inside. absurd (omega arith);
}

disk-IsMounted : IsMounted disk
disk-IsMounted = record {
  framed = disk-IsFramed;
  sector = omega arith;
  room = omega arith;
  inside = omega arith;
  fits = omega arith;
}

fs_mem_read-fs_mem_write_example :
    ((k : ℕ)
      → k < 600
      → (fs_mem_read 600 0 1000 (λ i. 0) (fs_mem_write 600 0 1000 (λ i. i) (cache_of true true))).0
          k
        ≡ k)
    × ((x : ℕ)
        → (x < 1000) ⊎ (1600 ≤ x)
        → content (fs_mem_write 600 0 1000 (λ i. i) (cache_of true true)) x
          ≡ content (cache_of true true) x)
fs_mem_read-fs_mem_write_example =
    fs_mem_read-fs_mem_write 600 1000 (λ i. i) (λ i. 0) (cache_of true true) dirty_IsReady
      (omega arith)

fs_cache_flush_failed_example :
    ((fs_cache_flush (cache_of false true)).0 ≡ true)
    × ((fs_cache_flush (cache_of false true)).1.sector_dirty ≡ false)
    × ((fs_cache_flush (cache_of false true)).1.drive.sectors ≡ (λ s b. 0))
fs_cache_flush_failed_example =
    fs_cache_flush_failed (cache_of false true) refl refl (λ h. absurd (omega arith)) refl

fs_bitmap_get-set_example :
    ((fs_bitmap_get 9 (fs_bitmap_set 5 disk)).0 ≡ (fs_bitmap_get 9 disk).0)
    × ((fs_bitmap_get 9 (fs_bitmap_clear 5 disk)).0 ≡ (fs_bitmap_get 9 disk).0)
fs_bitmap_get-set_example = fs_bitmap_get-set 5 9 disk disk-IsFramed (omega arith) (omega arith)

fs_alloc-IsOutcome_example : IsOutcome 600 disk (fs_alloc 600 disk)
fs_alloc-IsOutcome_example = fs_alloc-IsOutcome 600 disk disk-IsMounted (omega arith)

-- The disk has no block in use, so the allocation succeeds.
all_free : holds_below (λ j. not (block_is_used j disk)) 16 ≡ true
unfolding holds_below block_is_used bitmap_byte content bit_test
all_free = refl

answered : (fs_alloc 600 disk).0 ≢ fs_null
answered = elim (fs_alloc-IsOutcome 600 disk disk-IsMounted (omega arith)) [
  | inl (_, full, _) ↦
      let (j, lo, hi, taken) = full 1 (omega arith) (omega arith) in
      absurd (ground (arith, taken, holds_below_at (λ j. not (block_is_used j disk)) 16 all_free j))
  | inr (start, al) ↦ λ h. absurd (omega (arith, h, al.payload, al.first.1))
]

fs_free-fs_alloc_example :
    IsRestored disk (fs_alloc 600 disk).0 (fs_free (fs_alloc 600 disk).0 (fs_alloc 600 disk).1)
fs_free-fs_alloc_example =
    fs_free-fs_alloc 600 disk disk-IsMounted (omega arith) (omega arith) answered

fs_device_sync-drive_byte_example :
    ((fs_device_sync disk).0 ≡ true)
    × ((j : ℕ) → j < 2 → drive_byte (fs_device_sync disk).1 (48 + j) ≡ bitmap_byte disk j)
    × ((a : ℕ) → outside 2 a ≡ true → drive_byte (fs_device_sync disk).1 a ≡ content disk.cache a)
fs_device_sync-drive_byte_example = fs_device_sync-drive_byte disk disk-IsFramed
