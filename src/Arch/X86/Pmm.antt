-- ===== src/Arch/X86/Pmm.antt =====
-- kernel/arch/x86/virtual/pmm.c: the bitmap of the physical frames. The operations run with interrupts
-- off, so each is one step.
pub mod Frames
pub mod Free
pub mod Init
mod Tests
use avr_kernel.Base.{
  ℕ, zero, suc, ◌+◌, ◌-◌, ◌*◌, ◌/◌, ◌%◌, ◌^◌, Option, none, some, if◌then◌else◌, ltb, leb, ◌==◌,
  ◌||◌, u32, u64, add32, upd, bit_and, bit_or, get32,
}

-- The static variables of the file.
pub record Pmm : Type 0 where
  pub pmm_bitmap : ℕ → ℕ
  pub total_frames : ℕ

abbrev pub page_size : ℕ
page_size = 4096

abbrev pub phys_bitmap_words : ℕ
phys_bitmap_words = 32768

abbrev pub pmm_no_frame : ℕ
pmm_no_frame = 2 ^ 32 - 1

-- The inner loop of `pmm_alloc_frame`.
pub find_bit : (rounds place word : ℕ) → Option ℕ
find_bit zero place word = none
find_bit (suc rounds) place word =
    let rest = find_bit rounds (place + 1) word in
    if bit_and word (2 ^ place) == 0 then some place else rest

-- The outer loop: the word and the bit of the first free frame.
pub find_frame : (rounds i : ℕ) → (ℕ → ℕ) → Option (ℕ × ℕ)
find_frame zero i bitmap = none
find_frame (suc rounds) i bitmap =
    let rest = find_frame rounds (i + 1) bitmap in
    if bitmap i == 2 ^ 32 - 1
    then rest
    else elim (find_bit 32 0 (bitmap i)) [ none ↦ rest | some place ↦ some (i, place) ]

-- The address, or `pmm_no_frame`.
pub pmm_alloc_frame : Pmm → ℕ × Pmm
pmm_alloc_frame p = elim (find_frame phys_bitmap_words 0 p.pmm_bitmap) [
  | none ↦ (pmm_no_frame, p)
  | some (i, place) ↦ (
    u32 (u32 (i * 32 + place) * page_size),
    record p { pmm_bitmap = upd p.pmm_bitmap i (bit_or (p.pmm_bitmap i) (2 ^ place)) },
  )
]

pub pmm_free_frame : (phys_addr : ℕ) → Pmm → Pmm
pmm_free_frame phys_addr p =
    let frame = phys_addr / page_size in
    if ltb frame p.total_frames
    then record p {
      pmm_bitmap =
          upd p.pmm_bitmap (frame / 32)
            (bit_and (p.pmm_bitmap (frame / 32)) (2 ^ 32 - 1 - 2 ^ (frame % 32)));
    }
    else p

-- `pmm_bitmap[frame / 32] &= ~(1U << (frame % 32))` and the highest known frame.
pub release : (frame : ℕ) → Pmm → Pmm
release frame p = record p {
  pmm_bitmap =
      upd p.pmm_bitmap (frame / 32)
        (bit_and (p.pmm_bitmap (frame / 32)) (2 ^ 32 - 1 - 2 ^ (frame % 32)));
  total_frames = if leb p.total_frames frame then frame + 1 else p.total_frames;
}

-- The loop over the pages of a region.
pub free_pages : (rounds addr aligned_end physical_begin : ℕ) → Pmm → Pmm
free_pages zero addr aligned_end physical_begin p = p
free_pages (suc rounds) addr aligned_end physical_begin p =
    let p' = if ltb addr physical_begin then p else release (u32 (addr / page_size)) p in
    let rest = free_pages rounds (addr + page_size) aligned_end physical_begin p' in
    if ltb addr aligned_end then rest else p

-- An available region: its pages are whole, and the rounds are as many as they.
pub free_region : (addr len physical_begin : ℕ) → Pmm → Pmm
free_region addr len physical_begin p =
    let region_end = u64 (addr + len) in
    let end = if ltb (2 ^ 32) region_end then 2 ^ 32 else region_end in
    let aligned_start = u64 (addr + page_size - 1) / page_size * page_size in
    let aligned_end = end / page_size * page_size in
    free_pages ((aligned_end - aligned_start) / page_size) aligned_start aligned_end physical_begin
      p

pub get64 : (m : ℕ → ℕ) (a : ℕ) → ℕ
get64 m a = get32 m a + 2 ^ 32 * get32 m (a + 4)

-- `while ((uint32_t)mmap < mmap_end)`: an entry has its size at 0, its address at 4, its length at 12
-- and its type at 20.
pub walk_map : (rounds mmap mmap_end physical_begin : ℕ) → (ℕ → ℕ) → Pmm → Option Pmm
walk_map zero mmap mmap_end physical_begin m p = none
walk_map (suc rounds) mmap mmap_end physical_begin m p =
    let p' =
      if get32 m (mmap + 20) == 1
      then free_region (get64 m (mmap + 4)) (get64 m (mmap + 12)) physical_begin p
      else p in
    let next = add32 (add32 mmap (get32 m mmap)) 4 in
    let rest = walk_map rounds next mmap_end physical_begin m p' in
    if ltb mmap mmap_end then rest else some p

-- `kernel_crashout` does not return.
pub data Outcome : Type 0 where
  crashed : Outcome
  finished : Option Pmm → Outcome

-- The flags of the boot information are at 0, the map's length at 44 and its address at 48.
pub pmm_init : (rounds mbi physical_begin : ℕ) → (ℕ → ℕ) → Pmm → Outcome
pmm_init rounds mbi physical_begin m p =
    let reserved = record p { pmm_bitmap = λ i. 2 ^ 32 - 1 } in
    let mmap = get32 m (mbi + 48) in
    if mbi == 0 || bit_and (get32 m mbi) (2 ^ 6) == 0
    then crashed
    else finished (walk_map rounds mmap (add32 mmap (get32 m (mbi + 44))) physical_begin m reserved)
