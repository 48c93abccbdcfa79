-- ===== src/Arch/X86/Heap/Tests.antt =====
-- A heap of sixteen blocks of 32 bytes at address 64, and what the operations of
-- kernel/arch/x86/heap.c do on it.
use avr_kernel.Base.{
  ℕ, ◌+◌, ◌≤◌, ◌<◌, ◌≡◌, refl, arith, true, false, inl, put32, get32, bit_set, bit_test,
}
use avr_kernel.Arch.X86.Heap.{
  Heap, Allocation, address, crashed, kmalloc, kfree, kmalloc_is_valid, heap_init, memset,
  kmalloc_bitmap_write, write_back, write_back_byte, blocks_required, find_run, block_is_used,
  take_run, set_used_range, block_set_used, bitmap_mark_dirty, header_write, header_read,
  header_size,
}
use avr_kernel.Arch.X86.Heap.Layout.{IsLaidOut}
use avr_kernel.Arch.X86.Heap.Alloc.{blocks_for}
use avr_kernel.Arch.X86.Heap.Outcome.{IsOutcome, kmalloc-IsOutcome}
use avr_kernel.Arch.X86.Heap.Live.{IsLive}
use avr_kernel.Arch.X86.Heap.Init.{IsFresh, heap_init-IsFresh}
use avr_kernel.Arch.X86.Heap.Headers.{SameMarks}
use avr_kernel.Arch.X86.Heap.Safety.{IsDisjoint, IsApart}
use avr_kernel.Arch.X86.Heap.Lifecycle.{
  IsRequest, kmalloc-IsLive, kmalloc-keeps, kfree-keeps, kfree-kmalloc, kfree-kfree,
}

abbrev blank : Heap
blank = record {
  block_size = 0;
  pool_size = 0;
  block_count = 0;
  bitmap_size = 0;
  reserved_blocks = 0;
  bitmap = 0;
  dirty = 0;
  base = 64;
  mem = λ _. 0;
}

abbrev fresh : Heap
fresh = heap_init 32 512 blank

heap_init-IsFresh_example : IsFresh 16 fresh
heap_init-IsFresh_example =
    heap_init-IsFresh 32 512 blank (omega arith) (omega arith) (omega arith) (omega arith)
      (omega arith) λ a. omega arith

laid_out : IsLaidOut fresh
laid_out = heap_init-IsFresh_example.laid_out

fresh-IsRequest : IsRequest 8 fresh
unfolding heap_init kmalloc_bitmap_write memset write_back write_back_byte
fresh-IsRequest = record {
  laid_out = laid_out;
  pool = omega arith;
  positive = omega arith;
  fits = omega arith;
}

kmalloc-IsOutcome_example : IsOutcome 8 fresh (kmalloc 8 fresh)
kmalloc-IsOutcome_example =
    kmalloc-IsOutcome 8 fresh laid_out fresh-IsRequest.pool fresh-IsRequest.positive
      fresh-IsRequest.fits

abbrev address_of : Allocation → ℕ
address_of (address a k) = a
address_of crashed = 0

abbrev heap_of : Allocation → Heap
heap_of (address a k) = k
heap_of crashed = blank

abbrev one : Heap
one = heap_of (kmalloc 8 fresh)

one_taken : kmalloc 8 fresh ≡ address 112 one
unfolding heap_init kmalloc_bitmap_write memset write_back write_back_byte kmalloc blocks_required
    find_run block_is_used take_run set_used_range block_set_used bitmap_mark_dirty header_write
    put32 bit_set bit_test
one_taken = refl

one-IsLaidOut : IsLaidOut one
one-IsLaidOut = (kmalloc-IsLive 8 fresh 112 one fresh-IsRequest one_taken (omega arith)).0

-- In a run of one block that block alone is to be looked at.
only :
    (h : Heap) (i j : ℕ) → i ≤ j → j < i + 1 → block_is_used i h ≡ true → block_is_used j h ≡ true
only h i j lo hi used = let same : j ≡ i = omega arith in rw same used

one_used : block_is_used 1 one ≡ true
unfolding heap_init kmalloc_bitmap_write memset write_back write_back_byte kmalloc blocks_required
    find_run block_is_used take_run set_used_range block_set_used bitmap_mark_dirty header_write
    header_read put32 get32 bit_set bit_test
one_used = refl

one-IsLive : IsLive 8 1 one 112
unfolding heap_init kmalloc_bitmap_write memset write_back write_back_byte kmalloc blocks_required
    find_run block_is_used take_run set_used_range block_set_used bitmap_mark_dirty header_write
    header_read put32 get32 bit_set bit_test
one-IsLive = record {
  low = omega arith;
  high = omega arith;
  payload = refl;
  size_at = refl;
  magic_at = refl;
  used_at = λ j lo hi. only one 1 j lo hi one_used;
  positive = omega arith;
  size_fits = omega arith;
}

one-IsRequest : IsRequest 8 one
unfolding heap_init kmalloc_bitmap_write memset write_back write_back_byte kmalloc blocks_required
    find_run block_is_used take_run set_used_range block_set_used bitmap_mark_dirty header_write
    header_read put32 get32 bit_set bit_test
one-IsRequest = record {
  laid_out = one-IsLaidOut;
  pool = omega arith;
  positive = omega arith;
  fits = omega arith;
}

abbrev two : Heap
two = heap_of (kmalloc 8 one)

two_taken : kmalloc 8 one ≡ address 144 two
unfolding heap_init kmalloc_bitmap_write memset write_back write_back_byte kmalloc blocks_required
    find_run block_is_used take_run set_used_range block_set_used bitmap_mark_dirty header_write
    header_read put32 get32 bit_set bit_test
two_taken = refl

kmalloc-keeps_example :
    IsLive 8 1 two 112
    × IsDisjoint 144 8 112 8
    × ((i : ℕ) → i < 8 → two.mem (112 + i) ≡ one.mem (112 + i))
kmalloc-keeps_example =
    kmalloc-keeps 8 one 144 two one-IsRequest two_taken (omega arith) 8 1 112 one-IsLive

two_used : block_is_used 2 two ≡ true
unfolding heap_init kmalloc_bitmap_write memset write_back write_back_byte kmalloc blocks_required
    find_run block_is_used take_run set_used_range block_set_used bitmap_mark_dirty header_write
    header_read put32 get32 bit_set bit_test
two_used = refl

two-IsLive : IsLive 8 2 two 144
unfolding heap_init kmalloc_bitmap_write memset write_back write_back_byte kmalloc blocks_required
    find_run block_is_used take_run set_used_range block_set_used bitmap_mark_dirty header_write
    header_read put32 get32 bit_set bit_test
two-IsLive = record {
  low = omega arith;
  high = omega arith;
  payload = refl;
  size_at = refl;
  magic_at = refl;
  used_at = λ j lo hi. only two 2 j lo hi two_used;
  positive = omega arith;
  size_fits = omega arith;
}

two-IsLaidOut : IsLaidOut two
two-IsLaidOut = (kmalloc-IsLive 8 one 144 two one-IsRequest two_taken (omega arith)).0

apart : IsApart 1 (blocks_for 8 two) 2 (blocks_for 8 two)
unfolding heap_init kmalloc_bitmap_write memset write_back write_back_byte kmalloc blocks_required
    find_run block_is_used take_run set_used_range block_set_used bitmap_mark_dirty header_write
    header_read put32 get32 bit_set bit_test
apart = inl (omega arith)

kfree-keeps_example :
    IsLive 8 2 (kfree 112 two) 144
    × ((i : ℕ) → i < 8 → (kfree 112 two).mem (144 + i) ≡ two.mem (144 + i))
kfree-keeps_example =
    kfree-keeps 8 1 two 112 two-IsLaidOut (kmalloc-keeps_example.0) 8 2 144 two-IsLive apart

kfree-kmalloc_example :
    (kmalloc_is_valid 112 one ≡ true) × IsLaidOut (kfree 112 one) × SameMarks fresh (kfree 112 one)
kfree-kmalloc_example = kfree-kmalloc 8 fresh 112 one fresh-IsRequest one_taken (omega arith)

kfree-kfree_example :
    (kmalloc_is_valid 112 (kfree 112 one) ≡ false) × (kfree 112 (kfree 112 one) ≡ kfree 112 one)
kfree-kfree_example = kfree-kfree 8 1 one 112 (one-IsLaidOut) one-IsLive

two_big : header_size ≤ two.block_size
unfolding heap_init kmalloc_bitmap_write memset write_back write_back_byte kmalloc blocks_required
    find_run block_is_used take_run set_used_range block_set_used bitmap_mark_dirty header_write
    header_read put32 get32 bit_set bit_test
two_big = omega arith
