-- ===== src/Fs/Device/Sync.antt =====
-- fs_device_sync brings the bitmap and the data to the drive, in this order.
use avr_kernel.Base.{ℕ, ◌+◌, ◌/◌, ◌%◌, ◌<◌, ◌≡◌, refl, ◌∙◌, ap, arith, true, false}
use avr_kernel.Fs.Cache.{sector_bytes}
use avr_kernel.Fs.Cache.Content.{content}
use avr_kernel.Fs.Cache.Sync.{fs_cache_sync-IsSynced, fs_cache_flush-sectors}
use avr_kernel.Fs.Bitmap.{Context, fs_bitmap_flush}
use avr_kernel.Fs.Bitmap.Frame.{bitmap_byte, IsFramed, outside, fs_bitmap_flush-Kept}
use avr_kernel.Fs.Device.{fs_device_sync}

-- A byte as it stands on the drive itself.
abbrev pub drive_byte : Context → (a : ℕ) → ℕ
drive_byte c a = c.cache.drive.sectors (a / sector_bytes) (a % sector_bytes)

pub clean_byte :
    (c : Context) (j : ℕ) → c.frame_dirty ≡ false → content c.cache (48 + j) ≡ bitmap_byte c j
unfolding bitmap_byte
clean_byte c j e = ground (arith, e)

-- fs_device_sync on a drive that does not fail answers true, and then the drive itself has the bitmap,
-- byte for byte as it was through the frame, and outside the bitmap the bytes that the disk held
-- through the cache.
pub fs_device_sync-drive_byte :
    (c : Context)
    → IsFramed c
    → ((fs_device_sync c).0 ≡ true)
      × ((j : ℕ) → j < c.bitmap_size → drive_byte (fs_device_sync c).1 (48 + j) ≡ bitmap_byte c j)
      × ((a : ℕ)
          → outside c.bitmap_size a ≡ true
          → drive_byte (fs_device_sync c).1 a ≡ content c.cache a)
unfolding fs_device_sync
fs_device_sync-drive_byte c v =
    let (k, clean, _) = fs_bitmap_flush-Kept c v in
    let d = fs_bitmap_flush c in
    let s = fs_cache_sync-IsSynced d.cache k.framed.ready in
    let (done, written, sectors) = fs_cache_flush-sectors d.cache k.framed.ready in
    let on_drive : (a : ℕ) → drive_byte (fs_device_sync c).1 a ≡ content d.cache a =
      λ a. ap (λ (m : ℕ → ℕ → ℕ). m (a / sector_bytes) (a % sector_bytes)) sectors ∙ s.on_drive a in
    (
      rw (done, clean, written) refl,
      λ j lt. on_drive (48 + j) ∙ clean_byte d j clean ∙ k.bits j lt,
      λ a o. on_drive a ∙ k.rest a o,
    )
