-- ===== src/Fs/Device.antt =====
-- kernel/fs/basefs/device.c: the partition, and the allocation of runs of blocks. A run begins with its
-- allocation header, which is the number of bytes asked for; addresses are behind it.
pub mod Words
pub mod Runs
pub mod Layout
pub mod Alloc
pub mod Free
pub mod Sync
pub mod Open
pub mod Prepare
pub mod Reserve
pub mod Capacity
pub mod Format
mod Tests
use avr_kernel.Base.{
  ℕ, zero, suc, ◌+◌, ◌-◌, ◌*◌, ◌/◌, ◌%◌, ◌^◌, Bool, true, false, not, ◌&&◌, ◌||◌, Option, none,
  some, ◌≡◌, refl, if◌then◌else◌, ltb, leb, ◌==◌, ◌!=◌, u32, add32, sub32, upd, get32, put32,
  bit_and,
}
use avr_kernel.Fs.Cache.{
  Cache, device_ata, fs_mem_read, fs_mem_write, fs_writeb, fs_cache_sync, fs_cache_flush,
}
use avr_kernel.Fs.Bitmap.{
  Context, no_frame, fs_bitmap_address, fs_bitmap_get, fs_bitmap_set, fs_bitmap_clear,
  fs_bitmap_flush,
}

abbrev pub fs_null : ℕ
fs_null = 0xffff_ffff

abbrev pub fs_magic : ℕ
fs_magic = 0xaa

abbrev pub alloc_header_size : ℕ
alloc_header_size = 4

-- A structure read into a unopened buffer, and one written.
pub read_struct : (size address : ℕ) → Context → (ℕ → ℕ) × Context
read_struct size address c =
    let (buffer, cache) = fs_mem_read size 0 address (λ i. 0) c.cache in
    (buffer, record c { cache = cache })

pub write_struct : (size address : ℕ) → (ℕ → ℕ) → Context → Context
write_struct size address source c = record c { cache = fs_mem_write size 0 address source c.cache }

-- `struct FSAllocHeader`
pub read_header : (address : ℕ) → Context → ℕ × Context
read_header address c =
    let (buffer, c') = read_struct alloc_header_size address c in (get32 buffer 0, c')

pub write_header : (address size : ℕ) → Context → Context
write_header address size c = write_struct alloc_header_size address (put32 (λ i. 0) 0 size) c

-- `(sizeof(struct FSAllocHeader) + size + sector_size - 1UL) / sector_size`
pub blocks_needed : (size : ℕ) → Context → ℕ
blocks_needed size c = sub32 (add32 (add32 alloc_header_size size) c.sector_size) 1 / c.sector_size

-- The search of `fs_alloc` at block `i`: the first block of a run that is long enough.
pub find_free : (needed rounds i run_start run_length : ℕ) → Context → Option ℕ × Context
find_free needed zero i run_start run_length c = (none, c)
find_free needed (suc rounds) i run_start run_length c =
    let (used, c') = fs_bitmap_get i c in
    let start = if run_length == 0 then i else run_start in
    let over = find_free needed rounds (i + 1) run_start 0 c' in
    let longer = find_free needed rounds (i + 1) start (run_length + 1) c' in
    if used then over else if leb needed (run_length + 1) then (some start, c') else longer

pub set_range : (n j : ℕ) → Context → Context
set_range zero j c = c
set_range (suc n) j c = set_range n (j + 1) (fs_bitmap_set j c)

-- The end of `fs_alloc`, for the run that was found.
pub take_blocks : (size needed : ℕ) → Option ℕ → Context → ℕ × Context
take_blocks size needed none c = (fs_null, c)
take_blocks size needed (some start) c =
    let addr = u32 (start * c.sector_size) in
    (
      add32 addr alloc_header_size,
      write_header addr size (fs_bitmap_flush (set_range needed start c)),
    )

pub fs_alloc : (size : ℕ) → Context → ℕ × Context
fs_alloc size c =
    let needed = blocks_needed size c in
    let (run, c') = find_free needed (c.block_count - c.reserved_blocks) c.reserved_blocks 0 0 c in
    take_blocks size needed run c'

pub clear_range : (n start_block i : ℕ) → Context → Context
clear_range zero start_block i c = c
clear_range (suc n) start_block i c =
    clear_range n start_block (i + 1) (fs_bitmap_clear (add32 start_block i) c)

pub fs_free : (address : ℕ) → Context → Context
fs_free address c =
    let alloc_addr = sub32 address alloc_header_size in
    let (size, c') = read_header alloc_addr c in
    if address == fs_null
    then c
    else fs_bitmap_flush (
        write_header alloc_addr 0
          (clear_range (blocks_needed size c') (alloc_addr / c.sector_size) 0 c'))

-- The search of `fs_find_next` at block `i`.
pub find_header : (rounds i : ℕ) → Context → ℕ × Context
find_header zero i c = (fs_null, c)
find_header (suc rounds) i c =
    let (used, c') = fs_bitmap_get i c in
    let addr = u32 (i * c.sector_size) in
    let (size, c'') = read_header addr c' in
    let unused = find_header rounds (i + 1) c' in
    let empty = find_header rounds (i + 1) c'' in
    if used then if size != 0 then (add32 addr alloc_header_size, c'') else empty else unused

pub fs_find_next : (prev_addr : ℕ) → Context → ℕ × Context
fs_find_next prev_addr c =
    let h_addr = sub32 prev_addr alloc_header_size in
    let (size, c') = read_header h_addr c in
    let used = blocks_needed size c in
    let start = add32 (h_addr / c.sector_size) used in
    if prev_addr == fs_null
    then find_header (c.block_count - c.reserved_blocks) c.reserved_blocks c
    else find_header (c.block_count - start) start c'

-- The loop of `fs_get_used_bytes`; `none` when the rounds are used up.
pub add_used : (rounds current used_bytes : ℕ) → Context → Option (ℕ × Context)
add_used zero current used_bytes c = none
add_used (suc rounds) current used_bytes c =
    let (size, c') = read_header (sub32 current alloc_header_size) c in
    let block_bytes = u32 (blocks_needed size c' * c.sector_size) in
    let (next, c'') = fs_find_next current c' in
    let rest = add_used rounds next (add32 used_bytes block_bytes) c'' in
    if current == fs_null
    then some (used_bytes, c)
    else if size == 0 || ltb c.pool_size size
    then some (used_bytes, c')
    else if ltb c.pool_size (add32 used_bytes block_bytes)
    then some (c.pool_size, c')
    else rest

pub fs_get_used_bytes : (rounds : ℕ) → Context → Option (ℕ × Context)
fs_get_used_bytes rounds c =
    let reserved_bytes = u32 (c.reserved_blocks * c.sector_size) in
    let (first, c') = fs_find_next fs_null c in
    let rest = add_used rounds first reserved_bytes c' in
    if c.pool_size == 0
    then some (0, c)
    else if ltb c.pool_size reserved_bytes
    then some (c.pool_size, c)
    else rest

-- `struct FSPartitionBlock`, as its 32 bytes; its magic is the last one.
pub fs_device_get_partition : Context → Bool × (ℕ → ℕ) × Context
fs_device_get_partition c = let (part, c') = read_struct 32 16 c in (part 31 == fs_magic, part, c')

-- The context of a device that is not yet open: no frame, and no sector in the window.
abbrev pub unopened : Cache → Context
unopened cache = record {
  is_open = false;
  sector_size = 0;
  pool_size = 0;
  block_count = 0;
  bitmap_size = 0;
  reserved_blocks = 0;
  frame_offset = no_frame;
  frame_bitmap = λ i. 0;
  frame_dirty = false;
  cache = record cache { sector_frame = 2 ^ 32 - 1; sector_dirty = false };
}

-- The sizes that follow from the partition block, `total_size` and `sector_size` being its first words.
pub with_sizes : (total_size sector_size : ℕ) → Context → Context
with_sizes total_size sector_size c =
    let count = total_size / sector_size in
    let bytes = add32 count 7 / 8 in
    record c {
      is_open = true;
      sector_size = sector_size;
      pool_size = total_size;
      block_count = count;
      bitmap_size = bytes;
      reserved_blocks = sub32 (add32 (add32 48 bytes) sector_size) 1 / sector_size;
      frame_dirty = false;
      cache = record c.cache { sector_dirty = false };
    }

-- The partition block and the context. A sector size of 0 traps; here it gives no blocks.
pub fs_device_open : Cache → (ℕ → ℕ) × Context
fs_device_open cache =
    let (valid, part, c) = fs_device_get_partition (unopened cache) in
    (part, if valid then with_sizes (get32 part 0) (get32 part 4) c else c)

pub clear_bytes : (n address : ℕ) → Cache → Cache
clear_bytes zero address c = c
clear_bytes (suc n) address c = clear_bytes n (address + 1) (fs_writeb address 0 c)

-- `{ .id = 0x13, .name = "fs" }`
abbrev pub device_header : ℕ → ℕ
device_header = upd (upd (upd (λ i. 0) 0 0x13) 1 b'f') 2 b's'

-- The partition block that is written, its name being "storage".
abbrev pub partition_block : (capacity sector_size : ℕ) → ℕ → ℕ
partition_block capacity sector_size =
    let sizes = put32 (put32 (λ i. 0) 0 capacity) 4 sector_size in
    let stor = upd (upd (upd (upd sizes 12 b's') 13 b't') 14 b'o') 15 b'r' in
    upd (upd (upd (upd stor 16 b'a') 17 b'g') 18 b'e') 31 fs_magic

pub fs_device_format : (capacity sector_size : ℕ) → Cache → Context
fs_device_format capacity sector_size cache =
    let (part, c) = fs_device_open cache in
    let b_size = add32 (capacity / sector_size) 7 / 8 in
    let res_blocks = sub32 (add32 (add32 48 b_size) sector_size) 1 / sector_size in
    let named =
      fs_mem_write 32 0 16 (partition_block capacity sector_size)
        (fs_mem_write 16 0 0 device_header c.cache) in
    let (part', opened) = fs_device_open (fs_cache_sync (clear_bytes b_size 48 named)) in
    let marked = fs_bitmap_flush (set_range res_blocks 0 opened) in
    record marked { cache = fs_cache_sync marked.cache }

pub fs_device_format_low : (capacity : ℕ) → Cache → Cache
fs_device_format_low capacity cache =
    let (part, c) = fs_device_open (record cache { device_type = device_ata }) in
    fs_cache_sync (clear_bytes capacity 0 c.cache)

pub fs_device_sync : Context → Bool × Context
fs_device_sync c =
    let flushed = fs_bitmap_flush c in
    let (done, cache) = fs_cache_flush flushed.cache in
    (done && not flushed.frame_dirty && not cache.sector_dirty, record flushed { cache = cache })

pub fs_check_directory_valid : (address : ℕ) → Context → Bool × Context
fs_check_directory_valid address c =
    let (buffer, c') = read_struct 44 address c in (bit_and (buffer 16) 0x02 != 0, c')
