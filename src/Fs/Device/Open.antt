-- ===== src/Fs/Device/Open.antt =====
-- fs_device_open of a device with a partition block: the context is framed, and the disk is the drive's.
use mathlib.Core.Path.{subst}
use avr_kernel.Base.{
  sym, ℕ, ◌+◌, ◌/◌, ◌%◌, ◌^◌, ◌<◌, ◌≡◌, refl, ap, ◌∙◌, arith, Bool, Bool-cases, true, false, inl,
  inr, ◌==◌, get32,
}
use avr_kernel.Fs.Cache.{Cache, sector_bytes}
use avr_kernel.Fs.Cache.Content.{content, IsReady, IsBacked}
use avr_kernel.Fs.Cache.Clean.{fs_mem_read-clean}
use avr_kernel.Fs.Bitmap.{Context}
use avr_kernel.Fs.Bitmap.Frame.{IsFramed, bitmap_byte}
use avr_kernel.Fs.Device.{
  fs_magic, read_struct, fs_device_get_partition, unopened, with_sizes, fs_device_open,
}
use avr_kernel.Fs.Device.Words.{read_struct-Kept}

-- A byte of the drive.
abbrev pub on_drive : Cache → (a : ℕ) → ℕ
on_drive c a = c.drive.sectors (a / sector_bytes) (a % sector_bytes)

-- A device that can be opened: it has a drive that does not fail.
pub record IsAttached (c : Cache) : Type 0 where
  pub backed : IsBacked c
  pub working : (n : ℕ) → c.drive.works n ≡ true

unopened-IsFramed : (c : Cache) → IsAttached c → IsFramed (unopened c)
unopened-IsFramed c v = record {
  ready = record {
    coherent = record {
      backed = v.backed;
      none_clean = λ h. refl;
      clean = λ h ne b lt. absurd (ne refl);
    };
    working = v.working;
  };
  size = refl;
  small = omega arith;
  none_clean = λ h. refl;
  place = inl refl;
  clean = λ k h lt inside. absurd (omega arith);
}

unopened-content : (c : Cache) (a : ℕ) → content (unopened c).cache a ≡ on_drive c a
unfolding content
unopened-content c a = refl

read_struct-clean :
    (size address : ℕ) (c : Context)
    → c.cache.sector_dirty ≡ false
    → (read_struct size address c).1.cache.sector_dirty ≡ false
unfolding read_struct
read_struct-clean size address c e = fs_mem_read-clean size 0 address (λ i. 0) c.cache e

-- The context that fs_device_open makes from a valid partition block.
abbrev pub opened : (total_size sector_size : ℕ) → Cache → Context
opened total_size sector_size c =
    with_sizes total_size sector_size (read_struct 32 16 (unopened c)).1

pub fs_device_open-opened :
    (c : Cache)
    → IsAttached c
    → on_drive c 47 ≡ fs_magic
    → (fs_device_open c).1 ≡ opened (get32 (on_drive c) 16) (get32 (on_drive c) 20) c
unfolding fs_device_open fs_device_get_partition get32
fs_device_open-opened c v magic =
    let f = unopened-IsFramed c v in
    let (_, bytes, _) = read_struct-Kept 32 16 (unopened c) f (omega arith) in
    let byte : (k : ℕ) → k < 32 → (read_struct 32 16 (unopened c)).0 k ≡ on_drive c (16 + k) =
      λ k lt. bytes k lt ∙ unopened-content c (16 + k) in
    rw
      (
        byte 0 (omega arith),
        byte 1 (omega arith),
        byte 2 (omega arith),
        byte 3 (omega arith),
        byte 4 (omega arith),
        byte 5 (omega arith),
        byte 6 (omega arith),
        byte 7 (omega arith),
        byte 31 (omega arith),
        magic,
      )
      refl

clean_cache : (c : Cache) → c.sector_dirty ≡ false → c ≡ record c { sector_dirty = false }
clean_cache c e = ap (λ (b : Bool). record c { sector_dirty = b }) e

opened-cache :
    (total_size sector_size : ℕ) (c : Cache)
    → (read_struct 32 16 (unopened c)).1.cache ≡ (opened total_size sector_size c).cache
unfolding with_sizes
opened-cache total_size sector_size c =
    clean_cache (read_struct 32 16 (unopened c)).1.cache (read_struct-clean 32 16 (unopened c) refl)

pub opened-content :
    (total_size sector_size : ℕ) (c : Cache)
    → IsAttached c
    → (a : ℕ) → content (opened total_size sector_size c).cache a ≡ on_drive c a
opened-content total_size sector_size c v a =
    let (_, _, same) = read_struct-Kept 32 16 (unopened c) (unopened-IsFramed c v) (omega arith) in
    ap (λ (d : Cache). content d a) (sym (opened-cache total_size sector_size c))
    ∙ same a
    ∙ unopened-content c a

pub opened-bits :
    (total_size sector_size : ℕ) (c : Cache)
    → IsAttached c
    → (j : ℕ) → bitmap_byte (opened total_size sector_size c) j ≡ on_drive c (48 + j)
unfolding bitmap_byte with_sizes
opened-bits total_size sector_size c v j = opened-content total_size sector_size c v (48 + j)

pub opened-IsFramed :
    (total_size sector_size : ℕ) (c : Cache)
    → IsAttached c
    → total_size / sector_size + 7 < 2 ^ 32
    → IsFramed (opened total_size sector_size c)
unfolding with_sizes read_struct
opened-IsFramed total_size sector_size c v small =
    let (k, _, _) = read_struct-Kept 32 16 (unopened c) (unopened-IsFramed c v) (omega arith) in
    record {
      ready = subst IsReady (opened-cache total_size sector_size c) k.framed.ready;
      size = omega (arith, small);
      small = omega (arith, small);
      none_clean = λ h. refl;
      place = inl refl;
      clean = λ k e lt inside. absurd (omega (arith, small, inside));
    }

-- fs_device_open leaves a disk that can be read, as it is, whatever the partition block is.
pub fs_device_open-cache :
    (c : Cache) → (read_struct 32 16 (unopened c)).1.cache ≡ (fs_device_open c).1.cache
unfolding fs_device_open fs_device_get_partition
fs_device_open-cache c = elim (Bool-cases ((read_struct 32 16 (unopened c)).0 31 == fs_magic)) [
  | inl e ↦ rw e (
      opened-cache (get32 (read_struct 32 16 (unopened c)).0 0)
        (get32 (read_struct 32 16 (unopened c)).0 4) c)
  | inr e ↦ rw e refl
]

pub fs_device_open-IsReady :
    (c : Cache)
    → IsAttached c
    → IsReady (fs_device_open c).1.cache
      × ((a : ℕ) → content (fs_device_open c).1.cache a ≡ on_drive c a)
fs_device_open-IsReady c v =
    let (k, _, same) = read_struct-Kept 32 16 (unopened c) (unopened-IsFramed c v) (omega arith) in
    (
      subst IsReady (fs_device_open-cache c) k.framed.ready,
      λ a.
          ap (λ (d : Cache). content d a) (sym (fs_device_open-cache c))
          ∙ same a
          ∙ unopened-content c a,
    )
