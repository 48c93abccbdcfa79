-- ===== src/Fs/Device/Free.antt =====
-- fs_free gives the blocks of an allocation back.
use native.Mathlib.Nat.{mul-div_cancel}
use avr_kernel.Base.{
  ℕ, zero, suc, ◌+◌, ◌-◌, ◌*◌, ◌/◌, ◌^◌, ◌≤◌, ◌<◌, ◌≡◌, ◌≢◌, refl, ◌∙◌, arith, ◌⊎◌, inl, inr, true,
  false, ◌&&◌, if◌then◌else◌, leb, ltb, ◌==◌, add32, sub32, get32,
}
use avr_kernel.Fs.Cache.Content.{content}
use avr_kernel.Fs.Bitmap.{Context, fs_bitmap_clear, fs_bitmap_flush}
use avr_kernel.Fs.Bitmap.Frame.{IsFramed, Kept, Kept-refl, SameSizes, outside, fs_bitmap_flush-Kept}
use avr_kernel.Fs.Bitmap.Blocks.{
  block_is_used, Marked, Marked-join, Kept-then-Marked, Kept-Marked, Kept-block_is_used,
  fs_bitmap_clear-Marked,
}
use avr_kernel.Fs.Device.{
  fs_null, blocks_needed, clear_range, read_header, write_header, fs_alloc, fs_free,
}
use avr_kernel.Fs.Device.Words.{read_header-Kept}
use avr_kernel.Fs.Device.Layout.{
  IsMounted, SameSizes-IsMounted, blocks_for, blocks_needed-eq-blocks_for, blocks_for_bounds,
  run_bounds, IsHeaded, write_header-IsHeaded, get32-eq_of_eq,
}
use avr_kernel.Fs.Device.Alloc.{IsAllocated, fs_alloc-IsOutcome}

clear_range-Marked :
    (n start_block i : ℕ) (c : Context)
    → IsFramed c
    → start_block + i + n ≤ c.block_count
    → Marked false (start_block + i) n c (clear_range n start_block i c)
unfolding clear_range
clear_range-Marked zero start_block i c v le =
    Kept-Marked false (start_block + i) c c v (Kept-refl c v)
clear_range-Marked (suc n) start_block i c v le =
    let same : add32 start_block i ≡ start_block + i = omega (arith, v.small) in
    let first = fs_bitmap_clear-Marked (start_block + i) c v (omega arith) in
    rw same (
      Marked-join false (start_block + i) 1 n (suc n) c (fs_bitmap_clear (start_block + i) c) _
        (omega arith) first
        (rw add_one (
          clear_range-Marked n start_block (i + 1) (fs_bitmap_clear (start_block + i) c)
            first.framed (omega (arith, first.sizes)))))
  where
    add_one : start_block + i + 1 ≡ start_block + (i + 1)
    add_one = omega arith

whole_range-Marked :
    (n start : ℕ) (c : Context)
    → IsFramed c
    → start + n ≤ c.block_count
    → Marked false start n c (clear_range n start 0 c)
whole_range-Marked n start c v le =
    let e : start + 0 ≡ start = omega arith in
    rw e at (clear_range-Marked n start 0 c v (omega arith))

-- `d` is `c` with the run of `size` bytes at block `start` given back.
pub record IsFreed (size start : ℕ) (c d : Context) : Type 0 where
  pub mounted : IsMounted d
  pub sizes : SameSizes c d
  pub used :
      (j : ℕ)
      → j < c.block_count
      → block_is_used j d
        ≡ (if leb start j && ltb j (start + blocks_for size c) then false else block_is_used j c)
  pub header : get32 (content d.cache) (start * c.sector_size) ≡ 0
  pub rest :
      (x : ℕ)
      → outside c.bitmap_size x ≡ true
      → (x < start * c.sector_size) ⊎ (start * c.sector_size + 4 ≤ x)
      → content d.cache x ≡ content c.cache x
  pub flushed : d.frame_dirty ≡ false

==_ne : (a b : ℕ) → a < b → (a == b) ≡ false
==_ne a b lt = ground arith

SameSizes-blocks_needed :
    (size : ℕ) (c d : Context) → SameSizes c d → blocks_needed size d ≡ blocks_needed size c
unfolding blocks_needed
SameSizes-blocks_needed size c d s = rw s.0 refl

clear_run-IsFreed :
    (size start : ℕ) (c c' : Context)
    → IsMounted c
    → Kept c c'
    → c.reserved_blocks ≤ start
    → start + blocks_for size c ≤ c.block_count
    → IsFreed size start c (
        fs_bitmap_flush
          (write_header (start * c.sector_size) 0 (clear_range (blocks_for size c) start 0 c')))
clear_run-IsFreed size start c c' v k low high = record {
  mounted = SameSizes-IsMounted c _ v sizes f.0.framed;
  sizes = sizes;
  used = λ j lt.
      Kept-block_is_used j headed _ h.framed f.0 (omega (arith, marked.sizes, h.sizes))
      ∙ h.used j (omega (arith, marked.sizes))
      ∙ marked.used j lt;
  header = omega (
    arith,
    get32-eq_of_eq a (content headed.cache) (content (fs_bitmap_flush headed).cache) beyond,
    h.header,
  );
  rest = λ x o away.
      f.0.rest x (ground (arith, o, marked.sizes, h.sizes)) ∙ h.rest x away ∙ marked.rest x o;
  flushed = f.1;
}
  where
    n : ℕ
    n = blocks_for size c

    a : ℕ
    a = start * c.sector_size

    bounds : (48 + c.bitmap_size ≤ a) × (a + n * c.sector_size < 2 ^ 32)
    bounds = run_bounds start n c v low high

    cleared : Context
    cleared = clear_range n start 0 c'

    marked : Marked false start n c cleared
    marked =
        Kept-then-Marked false start n c c' cleared v.framed k
          (whole_range-Marked n start c' k.framed (omega (arith, high, k.sizes)))

    headed : Context
    headed = write_header a 0 cleared

    h : IsHeaded a 0 cleared headed
    h =
        write_header-IsHeaded a 0 cleared marked.framed (omega (arith, bounds, marked.sizes))
          (omega (arith, bounds, blocks_for_bounds size c v.sector))

    f :
        Kept headed (fs_bitmap_flush headed)
        × ((fs_bitmap_flush headed).frame_dirty ≡ false)
        × ((fs_bitmap_flush headed).frame_offset ≡ headed.frame_offset)
    f = fs_bitmap_flush-Kept headed h.framed

    sizes : SameSizes c (fs_bitmap_flush headed)
    sizes = omega (arith, marked.sizes, h.sizes, f.0.sizes)

    beyond : (x : ℕ) → a ≤ x → content (fs_bitmap_flush headed).cache x ≡ content headed.cache x
    beyond x le = f.0.rest x (ground (arith, bounds, marked.sizes, h.sizes))

-- fs_free of an address whose header names `size` bytes, within the disk: the blocks of that run are
-- free, all others as they were; the header is 0, and the bitmap is written back.
pub fs_free-IsFreed :
    (size start : ℕ) (c : Context)
    → IsMounted c
    → 0 < size
    → get32 (content c.cache) (start * c.sector_size) ≡ size
    → size + 4 + c.sector_size ≤ 2 ^ 32
    → c.reserved_blocks ≤ start
    → start + blocks_for size c ≤ c.block_count
    → IsFreed size start c (fs_free (start * c.sector_size + 4) c)
unfolding fs_free
fs_free-IsFreed size start c v pos named small low high =
    let n = blocks_for size c in
    let a = start * c.sector_size in
    let bounds = run_bounds start n c v low high in
    let enough = blocks_for_bounds size c v.sector in
    let (k, read, _) = read_header-Kept a c v.framed (omega (arith, bounds, enough)) in
    let relative : sub32 (a + 4) 4 ≡ a = omega (arith, bounds, enough) in
    let valid : (a + 4 == fs_null) ≡ false = ==_ne _ _ (omega (arith, bounds, enough, pos)) in
    let needed : blocks_needed (read_header a c).0 (read_header a c).1 ≡ n =
      rw (read, named, SameSizes-blocks_needed size c (read_header a c).1 k.sizes)
        (blocks_needed-eq-blocks_for size c v.sector small) in
    let block : a / c.sector_size ≡ start = mul-div_cancel start v.sector in
    rw (relative, valid, needed, block)
      (clear_run-IsFreed size start c (read_header a c).1 v k low high)

-- `e` has the bitmap of `c`, and its disk but for the word before `address`, which is 0.
pub record IsRestored (c : Context) (address : ℕ) (e : Context) : Type 0 where
  pub used : (j : ℕ) → j < c.block_count → block_is_used j e ≡ block_is_used j c
  pub rest :
      (x : ℕ)
      → outside c.bitmap_size x ≡ true
      → (x + 4 < address) ⊎ (address ≤ x)
      → content e.cache x ≡ content c.cache x
  pub header : get32 (content e.cache) (address - 4) ≡ 0
  pub flushed : e.frame_dirty ≡ false

fs_free-IsAllocated :
    (size start : ℕ) (c : Context) (address : ℕ) (d : Context)
    → 0 < size
    → size + 4 + c.sector_size ≤ 2 ^ 32
    → IsAllocated size start c address d
    → IsRestored c address (fs_free address d)
fs_free-IsAllocated size start c address d pos small al = record {
  used = λ j lt. rw at_d (
      ground (arith, same, freed.used j (omega (arith, al.sizes, lt)), al.used j lt, al.first.2 j));
  rest = λ x o away. rw at_d (
      freed.rest x (ground (arith, o, al.sizes)) (ground (arith, away, at_d))
      ∙ al.rest x o (ground (arith, away, al.payload)));
  header = rw (at_d, back) freed.header;
  flushed = rw at_d freed.flushed;
}
  where
    at_d : address ≡ start * d.sector_size + 4
    at_d = rw al.sizes.0 al.payload

    same : blocks_for size d ≡ blocks_for size c
    same = rw al.sizes.0 refl

    back : start * d.sector_size + 4 - 4 ≡ start * d.sector_size
    back = omega arith

    freed : IsFreed size start d (fs_free (start * d.sector_size + 4) d)
    freed =
        fs_free-IsFreed size start d al.mounted pos (rw al.sizes.0 al.header)
          (omega (arith, small, al.sizes)) (omega (arith, al.first.0, al.sizes))
          (omega (arith, same, al.first.1, al.sizes))

-- fs_free takes an allocation of fs_alloc back, on a mounted disk whose drive never fails: when fs_alloc
-- answers an address for a positive number of bytes that, with the header and the sector size, stays
-- within 32 bits, then after fs_free of it every block is in use or free as it was before fs_alloc, the
-- disk is as it was outside the bitmap and the word before the address, which is 0, and the bitmap is
-- written back.
pub fs_free-fs_alloc :
    (size : ℕ) (c : Context)
    → IsMounted c
    → 0 < size
    → size + 4 + c.sector_size ≤ 2 ^ 32
    → (fs_alloc size c).0 ≢ fs_null
    → IsRestored c (fs_alloc size c).0 (fs_free (fs_alloc size c).0 (fs_alloc size c).1)
fs_free-fs_alloc size c v pos small answered = elim (fs_alloc-IsOutcome size c v small) [
  | inl (failed, _, _) ↦ absurd (answered failed)
  | inr (start, al) ↦ fs_free-IsAllocated size start c _ _ pos small al
]
