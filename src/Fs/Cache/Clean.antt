-- ===== src/Fs/Cache/Clean.antt =====
-- Reads leave a clean cache clean.
use avr_kernel.Base.{arith, ℕ, zero, suc, ◌+◌, ◌/◌, ◌≡◌, false, add32, upd}
use avr_kernel.Fs.Cache.{
  Cache, sector_bytes, read_sector, write_dirty, load_sector, fs_cache_flush_and_fetch, fs_readb,
  fs_mem_read,
}

read_sector-clean :
    (sector : ℕ) (c : Cache)
    → c.sector_dirty ≡ false
    → (read_sector sector c).1.sector_dirty ≡ false
unfolding read_sector
read_sector-clean sector c e = ground arith

load_sector-clean :
    (sector : ℕ) (c : Cache)
    → c.sector_dirty ≡ false
    → (load_sector sector c).1.sector_dirty ≡ false
unfolding load_sector write_dirty
load_sector-clean sector c e = rw e (ground (arith, read_sector-clean sector c e, e))

fs_cache_flush_and_fetch-clean :
    (sector : ℕ) (c : Cache)
    → c.sector_dirty ≡ false
    → (fs_cache_flush_and_fetch sector c).1.sector_dirty ≡ false
unfolding fs_cache_flush_and_fetch
fs_cache_flush_and_fetch-clean sector c e = ground (arith, load_sector-clean sector c e, e)

fs_readb-clean :
    (address : ℕ) (c : Cache) → c.sector_dirty ≡ false → (fs_readb address c).1.sector_dirty ≡ false
unfolding fs_readb
fs_readb-clean address c e = fs_cache_flush_and_fetch-clean (address / sector_bytes) c e

pub fs_mem_read-clean :
    (size i address : ℕ) (destination : ℕ → ℕ) (c : Cache)
    → c.sector_dirty ≡ false
    → (fs_mem_read size i address destination c).1.sector_dirty ≡ false
unfolding fs_mem_read
fs_mem_read-clean zero i address destination c e = e
fs_mem_read-clean (suc size) i address destination c e =
    fs_mem_read-clean size (i + 1) address (upd destination i (fs_readb (add32 address i) c).0)
      (fs_readb (add32 address i) c).1 (fs_readb-clean (add32 address i) c e)
