-- ===== src/Fs/Cache/Bytes.antt =====
-- fs_mem_read and fs_mem_write over what the cached disk holds.
use avr_kernel.Base.{
  ℕ, zero, suc, ◌+◌, ◌-◌, ◌^◌, ◌≤◌, ◌<◌, ◌≡◌, ◌⊎◌, refl, arith, ◌&&◌, if◌then◌else◌, leb, ltb,
  add32, upd,
}
use avr_kernel.Fs.Cache.{Cache, fs_readb, fs_writeb, fs_mem_read, fs_mem_write}
use avr_kernel.Fs.Cache.Content.{
  content, IsReady, Fetched-IsReady, fs_readb-content, fs_readb-Fetched, fs_writeb-IsPut,
}

-- The buffer has the bytes at `address`, from the index `i` on.
pub record IsRead (size i address : ℕ) (destination : ℕ → ℕ) (c : Cache) (r : (ℕ → ℕ) × Cache)
    : Type 0 where
  pub ready : IsReady r.1
  pub same : (a : ℕ) → content r.1 a ≡ content c a
  pub bytes :
      (k : ℕ)
      → r.0 k ≡ (if leb i k && ltb k (i + size) then content c (address + k) else destination k)

pub fs_mem_read-IsRead :
    (size i address : ℕ) (destination : ℕ → ℕ) (c : Cache)
    → IsReady c
    → address + i + size ≤ 2 ^ 32
    → IsRead size i address destination c (fs_mem_read size i address destination c)
unfolding fs_mem_read
fs_mem_read-IsRead zero i address destination c v le = record {
  ready = v;
  same = λ a. refl;
  bytes = λ k. ground arith;
}
fs_mem_read-IsRead (suc size) i address destination c v le =
    let d = (fs_readb (add32 address i) c).1 in
    let f = fs_readb-Fetched (add32 address i) c v.coherent in
    let r =
      fs_mem_read-IsRead size (i + 1) address (upd destination i (fs_readb (add32 address i) c).0) d
        (Fetched-IsReady c d v f) (omega arith) in
    record {
      ready = r.ready;
      same = λ a. ground (arith, r.same a, f.same a);
      bytes = λ k.
          ground (arith, r.bytes k, f.same (address + k), fs_readb-content (add32 address i) c v);
    }

pub record IsStored (size i address : ℕ) (source : ℕ → ℕ) (c d : Cache) : Type 0 where
  pub ready : IsReady d
  pub bytes :
      (x : ℕ)
      → content d x ≡ (
          if leb (address + i) x && ltb x (address + i + size)
          then source (x - address)
          else content c x)

pub fs_mem_write-IsStored :
    (size i address : ℕ) (source : ℕ → ℕ) (c : Cache)
    → IsReady c
    → address + i + size ≤ 2 ^ 32
    → IsStored size i address source c (fs_mem_write size i address source c)
unfolding fs_mem_write
fs_mem_write-IsStored zero i address source c v le = record { ready = v; bytes = λ x. ground arith }
fs_mem_write-IsStored (suc size) i address source c v le =
    let d = fs_writeb (add32 address i) (source i) c in
    let p = fs_writeb-IsPut (add32 address i) (source i) c v (omega arith) in
    let r = fs_mem_write-IsStored size (i + 1) address source d p.ready (omega arith) in
    record { ready = r.ready; bytes = λ x. ground (arith, r.bytes x, p.here x) }

-- What fs_mem_write has written, fs_mem_read reads, for a range that ends within 32 bits, a drive
-- of a known kind that never fails, and a cache that, when it is clean, has the drive's bytes of
-- its sector: every byte of the buffer is the one of the source, and a byte of the disk outside the
-- range is what it was.
pub fs_mem_read-fs_mem_write :
    (size address : ℕ) (source destination : ℕ → ℕ) (c : Cache)
    → IsReady c
    → address + size ≤ 2 ^ 32
    → ((k : ℕ)
        → k < size
        → (fs_mem_read size 0 address destination (fs_mem_write size 0 address source c)).0 k
          ≡ source k)
      × ((x : ℕ)
          → (x < address) ⊎ (address + size ≤ x)
          → content (fs_mem_write size 0 address source c) x ≡ content c x)
fs_mem_read-fs_mem_write size address source destination c v le =
    let w = fs_mem_write-IsStored size 0 address source c v (omega arith) in
    let r =
      fs_mem_read-IsRead size 0 address destination (fs_mem_write size 0 address source c) w.ready
        (omega arith) in
    (
      λ k lt. ground (arith, r.bytes k, w.bytes (address + k)),
      λ x away. ground (arith, w.bytes x, away),
    )
