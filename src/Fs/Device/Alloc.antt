-- ===== src/Fs/Device/Alloc.antt =====
-- fs_alloc takes the first run of free blocks that is long enough.
use avr_kernel.Base.{
  ℕ, ◌+◌, ◌-◌, ◌*◌, ◌^◌, ◌≤◌, ◌<◌, ◌≡◌, refl, ◌∙◌, arith, ◌⊎◌, inl, inr, true, false, ◌&&◌, none,
  some, if◌then◌else◌, leb, ltb, u32, add32, get32, Option-cases,
}
use avr_kernel.Base.Runs.{IsFirstFit, IsScanned-start}
use avr_kernel.Fs.Cache.Content.{content}
use avr_kernel.Fs.Bitmap.{Context, fs_bitmap_flush}
use avr_kernel.Fs.Bitmap.Frame.{Kept, Kept-refl, SameSizes, outside, fs_bitmap_flush-Kept}
use avr_kernel.Fs.Bitmap.Blocks.{block_is_used, Marked-Kept, Kept-then-Marked}
use avr_kernel.Fs.Device.{fs_null, find_free, set_range, write_header, take_blocks, fs_alloc}
use avr_kernel.Fs.Device.Layout.{
  IsMounted, SameSizes-IsMounted, blocks_for, blocks_needed-eq-blocks_for, blocks_for_bounds,
  run_bounds, write_header-IsHeaded,
}
use avr_kernel.Fs.Device.Runs.{marks, find_free_from-IsFirstFit, set_range-Marked}

-- `d` is `c` with the run from block `start` on allocated, and `address` is the answer.
pub record IsAllocated (size start : ℕ) (c : Context) (address : ℕ) (d : Context) : Type 0 where
  pub payload : address ≡ start * c.sector_size + 4
  pub first : IsFirstFit (marks c) (blocks_for size c) c.reserved_blocks c.block_count (some start)
  pub mounted : IsMounted d
  pub sizes : SameSizes c d
  pub used :
      (j : ℕ)
      → j < c.block_count
      → block_is_used j d
        ≡ (if leb start j && ltb j (start + blocks_for size c) then true else block_is_used j c)
  pub header : get32 (content d.cache) (start * c.sector_size) ≡ size
  pub rest :
      (x : ℕ)
      → outside c.bitmap_size x ≡ true
      → (x < start * c.sector_size) ⊎ (start * c.sector_size + 4 ≤ x)
      → content d.cache x ≡ content c.cache x
  pub flushed : d.frame_dirty ≡ false

take_blocks-IsAllocated :
    (size start : ℕ) (c c' : Context)
    → IsMounted c
    → Kept c c'
    → size + 4 + c.sector_size ≤ 2 ^ 32
    → IsFirstFit (marks c) (blocks_for size c) c.reserved_blocks c.block_count (some start)
    → IsAllocated size start c (start * c.sector_size + 4) (
        write_header
          (start * c.sector_size)
          size
          (fs_bitmap_flush (set_range (blocks_for size c) start c')))
take_blocks-IsAllocated size start c c' v k small first =
    let n = blocks_for size c in
    let bounds = run_bounds start n c v first.0 first.1 in
    let enough = blocks_for_bounds size c v.sector in
    let s = set_range-Marked n start c' k.framed (omega (arith, first.1, k.sizes)) in
    let (f, clean, _) = fs_bitmap_flush-Kept (set_range n start c') s.framed in
    let marked =
      Kept-then-Marked true start n c c' _ v.framed k
        (Marked-Kept true start n c' (set_range n start c') _ s.framed s f) in
    let far : 48 + (fs_bitmap_flush (set_range n start c')).bitmap_size ≤ start * c.sector_size =
      omega (arith, bounds, marked.sizes) in
    let h =
      write_header-IsHeaded (start * c.sector_size) size (fs_bitmap_flush (set_range n start c'))
        marked.framed far (omega (arith, bounds, enough)) in
    let d = write_header (start * c.sector_size) size (fs_bitmap_flush (set_range n start c')) in
    let sizes : SameSizes c d = omega (arith, marked.sizes, h.sizes) in
    record {
      payload = refl;
      first = first;
      mounted = SameSizes-IsMounted c d v sizes h.framed;
      sizes = sizes;
      used = λ j lt. h.used j (omega (arith, marked.sizes)) ∙ marked.used j lt;
      header = omega (arith, h.header);
      rest = λ x o away. h.rest x away ∙ marked.rest x o;
      flushed = h.dirty ∙ clean;
    }

-- What fs_alloc answers: no address if there is no run of free blocks that is long enough, or the
-- allocation of the first one.
abbrev pub IsOutcome : (size : ℕ) → Context → ℕ × Context → Type 0
IsOutcome size c r =
    ((r.0 ≡ fs_null)
      × IsFirstFit (marks c) (blocks_for size c) c.reserved_blocks c.block_count none
      × Kept c r.1)
    ⊎ ((start : ℕ) × IsAllocated size start c r.0 r.1)

-- fs_alloc of `size` bytes on a mounted disk whose drive never fails, when size, header and sector size
-- together stay within 32 bits. Either no run of free blocks behind the reserved ones has room for the bytes and the header, and
-- it answers FS_NULL and leaves the bitmap and the disk outside it as they are. Or it answers the
-- address behind the header of the first such run: exactly the blocks of the run become used, the
-- header has the size, the rest of the disk outside the bitmap stays, the frame is written back, and
-- the disk is mounted as before.
pub fs_alloc-IsOutcome :
    (size : ℕ) (c : Context)
    → IsMounted c
    → size + 4 + c.sector_size ≤ 2 ^ 32
    → IsOutcome size c (fs_alloc size c)
unfolding fs_alloc take_blocks
fs_alloc-IsOutcome size c v small =
    let n = blocks_for size c in
    let same = blocks_needed-eq-blocks_for size c v.sector small in
    let rounds = c.block_count - c.reserved_blocks in
    let searched = find_free n rounds c.reserved_blocks 0 0 c in
    let enough = blocks_for_bounds size c v.sector in
    let (found, kept) =
      find_free_from-IsFirstFit c v.framed n c.reserved_blocks c.block_count (omega arith) rounds
        c.reserved_blocks 0 0 c.reserved_blocks c (Kept-refl c v.framed) (omega (arith, v.inside))
        (IsScanned-start (marks c) n c.reserved_blocks enough.1) refl in
    elim (Option-cases searched.0) [
      | inl e ↦ rw (same, e) (inl (refl, rw e at found, kept))
      | inr (start, e) ↦
          let first : IsFirstFit (marks c) n c.reserved_blocks c.block_count (some start) =
            rw e at found in
          let bounds = run_bounds start n c v first.0 first.1 in
          let addr : u32 (start * searched.1.sector_size) ≡ start * c.sector_size =
            ground (arith, bounds, kept.sizes.0) in
          let payload : add32 (start * c.sector_size) 4 ≡ start * c.sector_size + 4 =
            omega (arith, bounds, enough) in
          rw (same, e, addr, payload)
            (inr (start, take_blocks-IsAllocated size start c searched.1 v kept small first))
    ]
