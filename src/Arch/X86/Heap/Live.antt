-- ===== src/Arch/X86/Heap/Live.antt =====
-- kmalloc_is_valid of kernel/arch/x86/heap.c: the addresses of allocations pass it.
use native.Mathlib.Nat.{mul-le-mul_right, mul-div_cancel}
use avr_kernel.Base.{ℕ, ◌+◌, ◌*◌, ◌/◌, ◌^◌, ◌≤◌, ◌<◌, ◌≡◌, arith, true, add32}
use avr_kernel.Arch.X86.Heap.{
  Heap, kmalloc_is_valid, kmalloc_magic, header_size, header_of, header_read, heap_data_begin,
  blocks_required, block_is_used,
}
use avr_kernel.Arch.X86.Heap.Layout.{IsLaidOut}
use avr_kernel.Arch.X86.Heap.Alloc.{
  blocks_for, blocks_required-eq-blocks_for, blocks_for_bounds, start_bounds,
}
use avr_kernel.Arch.X86.Heap.Outcome.{blocks_for_pos}

-- An allocation of `size` bytes stands at block `start`, and `a` is the address of its payload.
pub record IsLive (size start : ℕ) (h : Heap) (a : ℕ) : Type 0 where
  pub low : h.reserved_blocks ≤ start
  pub high : start + blocks_for size h ≤ h.block_count
  pub payload : a ≡ h.base + start * h.block_size + header_size
  pub size_at : (header_read (start * h.block_size) h).size ≡ size
  pub magic_at : (header_read (start * h.block_size) h).magic ≡ kmalloc_magic
  pub used_at : (j : ℕ) → start ≤ j → j < start + blocks_for size h → block_is_used j h ≡ true
  pub positive : 0 < size
  pub size_fits : size + header_size + h.block_size ≤ 2 ^ 32

module _ (size start : ℕ) (h : Heap) (a : ℕ) (v : IsLaidOut h) (l : IsLive size start h a) where
  pub inside :
      (h.reserved_blocks * h.block_size ≤ start * h.block_size)
      × (start * h.block_size + size + header_size ≤ h.pool_size)
  inside = omega (
    arith,
    mul-le-mul_right h.block_size l.low,
    start_bounds start (blocks_for size h) h v l.low l.high,
    blocks_for_bounds size h v.block,
  )

  pub header_of-payload : header_of a h ≡ start * h.block_size
  header_of-payload = omega (arith, l.payload, inside, v.fits)

  pub required :
      blocks_required (add32 (header_read (header_of a h) h).size header_size) h ≡ blocks_for size h
  required =
      rw (header_of-payload, l.size_at) (blocks_required-eq-blocks_for size h v.block l.size_fits)

  pub start_of-payload : header_of a h / h.block_size ≡ start
  start_of-payload = rw header_of-payload (mul-div_cancel start v.block)

  pub count_fits : h.block_count < 2 ^ 32
  count_fits = omega (arith, v.fits, v.blocks_fit, mul-le-mul_right h.block_count v.block)

  pub kmalloc_is_valid-IsLive : kmalloc_is_valid a h ≡ true
  unfolding kmalloc_is_valid heap_data_begin
  kmalloc_is_valid-IsLive =
      rw (required, start_of-payload, header_of-payload, l.magic_at, l.size_at, l.payload)
        (ground (
          arith,
          inside,
          l.low,
          l.high,
          l.positive,
          v.fits,
          count_fits,
          blocks_for_pos size h v.block,
        ))
