-- ===== src/Fs/Device/Prepare.antt =====
-- fs_device_format, first half: what stands on the drive before the disk is opened again.
use avr_kernel.Base.{
  ℕ, zero, suc, ◌+◌, ◌%◌, ◌^◌, ◌<◌, ◌≤◌, ◌≡◌, ◌∙◌, arith, ◌&&◌, if◌then◌else◌, leb, ltb, get32,
  put32,
}
use avr_kernel.Fs.Cache.{Cache, fs_mem_write, fs_writeb, fs_cache_sync}
use avr_kernel.Fs.Cache.Content.{content, IsReady, fs_writeb-IsPut, Fetched-IsReady}
use avr_kernel.Fs.Cache.Bytes.{fs_mem_write-IsStored}
use avr_kernel.Fs.Cache.Sync.{fs_cache_sync-IsSynced}
use avr_kernel.Fs.Device.{fs_magic, clear_bytes, device_header, partition_block}
use avr_kernel.Fs.Device.Open.{on_drive, IsAttached}

pub ready-IsAttached : (c : Cache) → IsReady c → IsAttached c
ready-IsAttached c v = record { backed = v.coherent.backed; working = v.working }

record IsCleared (n address : ℕ) (c d : Cache) : Type 0 where
  pub ready : IsReady d
  pub bytes :
      (x : ℕ) → content d x ≡ (if leb address x && ltb x (address + n) then 0 else content c x)

clear_bytes-IsCleared :
    (n address : ℕ) (c : Cache)
    → IsReady c
    → address + n ≤ 2 ^ 32
    → IsCleared n address c (clear_bytes n address c)
unfolding clear_bytes
clear_bytes-IsCleared zero address c v le = record { ready = v; bytes = λ x. ground arith }
clear_bytes-IsCleared (suc n) address c v le =
    let p = fs_writeb-IsPut address 0 c v (omega arith) in
    let r = clear_bytes-IsCleared n (address + 1) (fs_writeb address 0 c) p.ready (omega arith) in
    record { ready = r.ready; bytes = λ x. ground (arith, r.bytes x, p.here x) }

-- The drive before fs_device_format opens it again.
abbrev pub prepared : (capacity sector_size bytes : ℕ) → Cache → Cache
prepared capacity sector_size bytes c = fs_cache_sync (
    clear_bytes bytes 48 (
      fs_mem_write 32 0 16 (partition_block capacity sector_size)
        (fs_mem_write 16 0 0 device_header c)))

pub record IsPrepared (capacity sector_size bytes : ℕ) (d : Cache) : Type 0 where
  pub attached : IsAttached d
  pub magic : on_drive d 47 ≡ fs_magic
  pub total_size : get32 (on_drive d) 16 ≡ capacity % 2 ^ 32
  pub sector : get32 (on_drive d) 20 ≡ sector_size % 2 ^ 32
  pub zeros : (j : ℕ) → j < bytes → on_drive d (48 + j) ≡ 0

pub prepared-IsPrepared :
    (capacity sector_size bytes : ℕ) (c : Cache)
    → IsReady c
    → 48 + bytes ≤ 2 ^ 32
    → IsPrepared capacity sector_size bytes (prepared capacity sector_size bytes c)
unfolding get32 put32
prepared-IsPrepared capacity sector_size bytes c v le =
    let part = partition_block capacity sector_size in
    let a = fs_mem_write-IsStored 16 0 0 device_header c v (omega arith) in
    let b = fs_mem_write-IsStored 32 0 16 part _ a.ready (omega arith) in
    let z = clear_bytes-IsCleared bytes 48 _ b.ready le in
    let s = fs_cache_sync-IsSynced _ z.ready in
    let block : (k : ℕ)
        → k < 32
        → on_drive (prepared capacity sector_size bytes c) (16 + k) ≡ part k =
      λ k lt. s.on_drive (16 + k) ∙ ground (arith, z.bytes (16 + k), b.bytes (16 + k)) in
    record {
      attached = ready-IsAttached _ (Fetched-IsReady _ _ z.ready s.fetched);
      magic = block 31 (omega arith);
      total_size = omega (arith, block 0, block 1, block 2, block 3);
      sector = omega (arith, block 4, block 5, block 6, block 7);
      zeros = λ j lt. s.on_drive (48 + j) ∙ ground (arith, z.bytes (48 + j));
    }
