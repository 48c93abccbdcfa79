-- ===== src/Fs/Device/Reserve.antt =====
-- fs_device_format, second half: the reserved blocks are marked, and all is brought to the drive.
use avr_kernel.Base.{
  ℕ, ◌+◌, ◌/◌, ◌%◌, ◌<◌, ◌≤◌, ◌≡◌, ap, ◌∙◌, sym, arith, true, false, if◌then◌else◌, ltb, bit_test,
}
use avr_kernel.Fs.Cache.{fs_cache_sync}
use avr_kernel.Fs.Cache.Content.{content, Fetched-IsReady}
use avr_kernel.Fs.Cache.Sync.{fs_cache_sync-IsSynced}
use avr_kernel.Fs.Bitmap.{Context, fs_bitmap_flush}
use avr_kernel.Fs.Bitmap.Frame.{
  bitmap_byte, IsFramed, Kept, outside, SameSizes, fs_bitmap_flush-Kept,
}
use avr_kernel.Fs.Bitmap.Blocks.{block_is_used}
use avr_kernel.Fs.Device.{set_range}
use avr_kernel.Fs.Device.Runs.{set_range-Marked}
use avr_kernel.Fs.Device.Open.{on_drive, IsAttached}
use avr_kernel.Fs.Device.Prepare.{ready-IsAttached}

-- The cache is synchronised.
abbrev synced : Context → Context
synced c = record c { cache = fs_cache_sync c.cache }

synced-Kept : (c : Context) → IsFramed c → Kept c (synced c)
unfolding bitmap_byte
synced-Kept c v =
    let s = fs_cache_sync-IsSynced c.cache v.ready in
    record {
      framed = record {
        ready = Fetched-IsReady _ _ v.ready s.fetched;
        size = v.size;
        small = v.small;
        none_clean = v.none_clean;
        place = v.place;
        clean = λ k e lt inside. v.clean k e lt inside ∙ sym (s.fetched.same _);
      };
      sizes = omega arith;
      bits = λ j lt. ground (arith, s.fetched.same (48 + j));
      rest = λ a o. s.fetched.same a;
    }

-- The end of fs_device_format: the reserved blocks are marked, and all is brought to the drive.
abbrev pub reserve_blocks : (reserved : ℕ) → Context → Context
reserve_blocks reserved c = synced (fs_bitmap_flush (set_range reserved 0 c))

-- The disk after `reserve_blocks`, seen from the one before.
pub record IsReserved (reserved : ℕ) (c d : Context) : Type 0 where
  pub framed : IsFramed d
  pub sizes : SameSizes c d
  pub used :
      (j : ℕ)
      → j < c.block_count
      → block_is_used j d ≡ (if ltb j reserved then true else block_is_used j c)
  pub rest : (a : ℕ) → outside c.bitmap_size a ≡ true → content d.cache a ≡ content c.cache a
  pub attached : IsAttached d.cache
  pub on_drive : (a : ℕ) → on_drive d.cache a ≡ content d.cache a
  pub clean : d.frame_dirty ≡ false

pub reserve_blocks-IsReserved :
    (reserved : ℕ) (c : Context)
    → IsFramed c
    → reserved ≤ c.block_count
    → IsReserved reserved c (reserve_blocks reserved c)
unfolding block_is_used
reserve_blocks-IsReserved reserved c v le =
    let m = set_range-Marked reserved 0 c v (omega (arith, le)) in
    let (k, clean, _) = fs_bitmap_flush-Kept _ m.framed in
    let f = fs_bitmap_flush (set_range reserved 0 c) in
    let e = synced-Kept f k.framed in
    let s = fs_cache_sync-IsSynced f.cache k.framed.ready in
    record {
      framed = e.framed;
      sizes = omega (arith, e.sizes, k.sizes, m.sizes);
      used = λ j lt.
          let place : j / 8 < c.bitmap_size = omega (arith, v.size, lt) in
          let same : bitmap_byte (synced f) (j / 8) ≡ bitmap_byte (set_range reserved 0 c) (j / 8) =
            e.bits (j / 8) (omega (arith, place, k.sizes, m.sizes))
            ∙ k.bits (j / 8) (omega (arith, place, m.sizes)) in
          ap (λ (b : ℕ). bit_test b (j % 8)) same ∙ ground (arith, m.used j lt);
      rest = λ a o.
          e.rest a (ground (arith, o, k.sizes, m.sizes))
          ∙ k.rest a (ground (arith, o, m.sizes))
          ∙ m.rest a o;
      attached = ready-IsAttached _ e.framed.ready;
      on_drive = λ a. s.on_drive a ∙ sym (s.fetched.same a);
      clean = clean;
    }
