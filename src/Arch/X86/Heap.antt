-- ===== src/Arch/X86/Heap.antt =====
-- kernel/arch/x86/heap.c: the block heap with its bitmap inside the pool. Addresses, sizes and counts
-- are uint32_t, and wrap as written. Every public operation of the file runs with interrupts off, so
-- each is one step on the state.
pub mod Bitmap
pub mod Search
pub mod Layout
pub mod Headers
pub mod Alloc
pub mod Outcome
pub mod Live
pub mod Free
pub mod Safety
pub mod Lifecycle
pub mod Init
pub mod Access
pub mod Iterate
pub mod Memory
mod Tests
use avr_kernel.Base.{
  ℕ, zero, suc, ◌+◌, ◌-◌, ◌*◌, ◌/◌, ◌%◌, ◌^◌, ◌≡◌, refl, Bool, true, false, not, ◌&&◌, ◌||◌, Option,
  none, some, if◌then◌else◌, ltb, leb, ◌==◌, ◌!=◌, u32, add32, sub32, upd, get32, put32, bit_test,
  bit_set, bit_clear,
}

-- The static variables of the file, and the physical memory. A pointer is an address, 0 is NULL.
pub record Heap : Type 0 where
  pub block_size : ℕ
  pub pool_size : ℕ
  pub block_count : ℕ
  pub bitmap_size : ℕ
  pub reserved_blocks : ℕ
  pub bitmap : ℕ
  pub dirty : ℕ
  pub base : ℕ  -- `__KMALLOC_HEAP_BEGIN__`
  pub mem : ℕ → ℕ

-- `struct KMallocHeader`, of 16 bytes by its alignment.
pub record Header : Type 0 where
  pub size : ℕ
  pub flags : ℕ
  pub type : ℕ
  pub perm : ℕ
  pub magic : ℕ

abbrev pub kmalloc_null : ℕ
kmalloc_null = 0xffff_ffff

abbrev pub kmalloc_magic : ℕ
kmalloc_magic = 0x55

abbrev pub header_size : ℕ
header_size = 16

abbrev pub store : ℕ → ℕ → Heap → Heap
store a v h = record h { mem = upd h.mem a v }

pub heap_data_begin : Heap → ℕ
heap_data_begin h = u32 (h.reserved_blocks * h.block_size)

-- `memset` of `n` bytes at `a`.
pub memset : ℕ → ℕ → ℕ → Heap → Heap
memset a v zero h = h
memset a v (suc n) h = memset (add32 a 1) v n (store a v h)

-- `memcpy` of `n` bytes.
pub memcpy : ℕ → ℕ → ℕ → Heap → Heap
memcpy to from zero h = h
memcpy to from (suc n) h = memcpy (add32 to 1) (add32 from 1) n (store to (h.mem from) h)

pub kmalloc_bitmap_set : ℕ → ℕ → Heap → Heap
kmalloc_bitmap_set bitmap dirty h =
    let h' = record h { bitmap = bitmap; dirty = dirty } in
    if dirty != 0 then memset dirty 0 h'.bitmap_size h' else h'

pub heap_set_base_address : ℕ → Heap → Heap
heap_set_base_address base h = record h { base = base }

pub bitmap_mark_dirty : ℕ → Heap → Heap
bitmap_mark_dirty i h = if h.dirty != 0 then store (add32 h.dirty i) 1 h else h

-- The body of the loop of `kmalloc_bitmap_write`.
pub write_back_byte : ℕ → Heap → Heap
write_back_byte index h =
    if h.mem (add32 h.dirty index) == 0
    then h
    else store (add32 h.dirty index) 0 (store (add32 h.base index) (h.mem (add32 h.bitmap index)) h)

-- The loop: the next index, and the rounds left.
pub write_back : ℕ → ℕ → Heap → Heap
write_back index zero h = h
write_back index (suc rounds) h = write_back (index + 1) rounds (write_back_byte index h)

pub kmalloc_bitmap_write : Heap → Heap
kmalloc_bitmap_write h =
    if h.bitmap == 0
    then h
    else if h.dirty == 0
    then memcpy h.base h.bitmap h.bitmap_size h
    else write_back 0 h.bitmap_size h

pub kmalloc_bitmap_read : Heap → Heap
kmalloc_bitmap_read h =
    if h.bitmap == 0
    then h
    else let h' = memcpy h.bitmap h.base h.bitmap_size h in
      if h.dirty != 0 then memset h.dirty 0 h.bitmap_size h' else h'

-- The members of the header. What the assignment of the struct does to the eight bytes of padding
-- behind them is unspecified; they are left as they are.
pub header_write : ℕ → Header → Heap → Heap
header_write address x h =
    let a = add32 h.base address in
    record h {
      mem =
          upd (upd (upd (upd (put32 h.mem a x.size) (a + 4) x.flags) (a + 5) x.type) (a + 6) x.perm)
            (a + 7) x.magic;
    }

pub header_read : ℕ → Heap → Header
header_read address h =
    let a = add32 h.base address in
    record {
      size = get32 h.mem a;
      flags = h.mem (a + 4);
      type = h.mem (a + 5);
      perm = h.mem (a + 6);
      magic = h.mem (a + 7);
    }

pub blocks_required : ℕ → Heap → ℕ
blocks_required size h = if size == 0 then 0 else add32 size (sub32 h.block_size 1) / h.block_size

pub block_is_used : ℕ → Heap → Bool
block_is_used i h = bit_test (h.mem (add32 h.bitmap (i / 8))) (i % 8)

pub block_set_used : ℕ → Heap → Heap
block_set_used i h =
    let old_value = h.mem (add32 h.bitmap (i / 8)) in
    let new_value = bit_set old_value (i % 8) in
    if new_value != old_value
    then bitmap_mark_dirty (i / 8) (store (add32 h.bitmap (i / 8)) new_value h)
    else h

pub block_set_free : ℕ → Heap → Heap
block_set_free i h =
    let old_value = h.mem (add32 h.bitmap (i / 8)) in
    let new_value = bit_clear old_value (i % 8) in
    if new_value != old_value
    then bitmap_mark_dirty (i / 8) (store (add32 h.bitmap (i / 8)) new_value h)
    else h

abbrev header_of : ℕ → Heap → ℕ
header_of address h = sub32 (sub32 address header_size) h.base

pub kmalloc_is_valid : ℕ → Heap → Bool
kmalloc_is_valid address h =
    let rel = header_of address h in
    let header = header_read rel h in
    let required = blocks_required (add32 header.size header_size) h in
    let start_block = rel / h.block_size in
    not (address == kmalloc_null)
    && (not (ltb address (u32 (h.base + heap_data_begin h + header_size)))
        && (not (leb (add32 h.base h.pool_size) address)
            && (not (
                  ltb rel (heap_data_begin h)
                  || leb (add32 h.base h.pool_size) (sub32 address header_size))
                && (not (header.magic != kmalloc_magic || header.size == 0)
                    && (not (required == 0 || ltb start_block h.reserved_blocks)
                        && not (ltb h.block_count (add32 start_block required)))))))

pub heap_init : ℕ → ℕ → Heap → Heap
heap_init block_size total_memory h =
    if block_size == 0 || total_memory == 0
    then record h {
      block_size = 0;
      pool_size = 0;
      block_count = 0;
      bitmap_size = 0;
      reserved_blocks = 0;
    }
    else let count = total_memory / block_size in
      let bitmap_size = add32 count 7 / 8 in
      let overhead = u32 (bitmap_size * 2) in
      let h' = record h {
        block_size = block_size;
        pool_size = total_memory;
        block_count = count;
        bitmap_size = bitmap_size;
        bitmap = h.base;
        dirty = add32 h.base bitmap_size;
        reserved_blocks = sub32 (add32 overhead block_size) 1 / block_size;
      } in
      kmalloc_bitmap_write (memset h'.dirty 0 bitmap_size (memset h'.bitmap 0 bitmap_size h'))

-- The search loop of `kmalloc_unlocked`, at `current` with `rounds` blocks left: the first block of
-- the first free run of `required` blocks.
pub find_run : (required rounds current found start : ℕ) → Heap → Option ℕ
find_run required zero current found start h = none
find_run required (suc rounds) current found start h =
    let start' = if found == 0 then current else start in
    let after_free = find_run required rounds (current + 1) (found + 1) start' h in
    let after_used = find_run required rounds (current + 1) 0 start h in
    if block_is_used current h
    then after_used
    else if leb required (found + 1)
    then some start'
    else after_free

pub set_used_range : ℕ → ℕ → Heap → Heap
set_used_range start zero h = h
set_used_range start (suc n) h = set_used_range (start + 1) n (block_set_used start h)

pub set_free_range : ℕ → ℕ → Heap → Heap
set_free_range start zero h = h
set_free_range start (suc n) h = set_free_range (start + 1) n (block_set_free start h)

pub data Allocation : Type 0 where
  address : ℕ → Heap → Allocation  -- what `kmalloc` returns
  crashed : Allocation  -- `kernel_crashout`, which does not return

-- What follows the search.
pub take_run : (size required : ℕ) → Option ℕ → Heap → Allocation
take_run size required none h = crashed
take_run size required (some start) h =
    let rel = u32 (start * h.block_size) in
    let header : Header = record {
      size = size;
      flags = 0;
      type = 0;
      perm = 0;
      magic = kmalloc_magic;
    } in
    address (u32 (h.base + rel + header_size))
      (kmalloc_bitmap_write (header_write rel header (set_used_range start required h)))

pub kmalloc : ℕ → Heap → Allocation
kmalloc size h =
    if size == 0
    then address kmalloc_null h
    else if h.block_size == 0 || (h.pool_size == 0 || h.bitmap == 0)
    then address kmalloc_null h
    else let required = blocks_required (add32 size header_size) h in
      if required == 0 || ltb (sub32 h.block_count h.reserved_blocks) required
      then address kmalloc_null h
      else take_run size required
          (find_run required (h.block_count - h.reserved_blocks) h.reserved_blocks 0 0 h) h

pub kfree : ℕ → Heap → Heap
kfree payload h =
    let rel = header_of payload h in
    let required = blocks_required (add32 (header_read rel h).size header_size) h in
    let start_block = rel / h.block_size in
    let cleared : Header = record { size = 0; flags = 0; type = 0; perm = 0; magic = 0 } in
    if not (kmalloc_is_valid payload h)
    then h
    else if ltb start_block h.reserved_blocks || ltb h.block_count (add32 start_block required)
    then h
    else kmalloc_bitmap_write (set_free_range start_block required (header_write rel cleared h))
