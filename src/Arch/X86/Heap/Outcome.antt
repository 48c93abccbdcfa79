-- ===== src/Arch/X86/Heap/Outcome.antt =====
-- kmalloc of kernel/arch/x86/heap.c: every outcome of an allocation.
use native.Mathlib.Nat.{mul-le-mul_right}
use avr_kernel.Base.{
  ℕ, ◌+◌, ◌-◌, ◌^◌, ◌≤◌, ◌<◌, ◌≡◌, arith, false, inl, inr, ◌||◌, Option, none, some, ltb, ◌==◌,
  add32, sub32, Bool-cases, ltb→lt, ltb_false→le,
}
use avr_kernel.Arch.X86.Heap.{
  Heap, Allocation, address, crashed, kmalloc, kmalloc_null, header_size, take_run, blocks_required,
}
use avr_kernel.Arch.X86.Heap.Layout.{IsLaidOut}
use avr_kernel.Arch.X86.Heap.Search.{IsBlocked, IsFirstFit, find_run-IsFirstFit}
use avr_kernel.Arch.X86.Heap.Alloc.{
  blocks_for, blocks_required-eq-blocks_for, blocks_for_bounds, IsAllocated, take_run-IsAllocated,
}

-- What an allocation may end in, and when.
pub data IsOutcome (size : ℕ) (h : Heap) : Allocation → Type 0 where
  too_large :
      h.block_count - h.reserved_blocks < blocks_for size h
      → IsOutcome size h (address kmalloc_null h)
  no_run :
      blocks_for size h ≤ h.block_count - h.reserved_blocks
      → ((p : ℕ)
          → h.reserved_blocks ≤ p
          → p + blocks_for size h ≤ h.block_count
          → IsBlocked h (blocks_for size h) p)
      → IsOutcome size h crashed
  taken :
      {a : ℕ} {k : Heap} (start : ℕ)
      → IsAllocated size start h a k
      → ((p : ℕ) → h.reserved_blocks ≤ p → p < start → IsBlocked h (blocks_for size h) p)
      → IsOutcome size h (address a k)

pub blocks_for_pos : (size : ℕ) (h : Heap) → 0 < h.block_size → 0 < blocks_for size h
blocks_for_pos size h pos = ground (arith, blocks_for_bounds size h pos)

-- The search and what follows it.
search-IsOutcome :
    (size : ℕ) (h : Heap) (found : Option ℕ)
    → IsLaidOut h
    → 0 < size
    → size < 2 ^ 32
    → blocks_for size h ≤ h.block_count - h.reserved_blocks
    → IsFirstFit h (blocks_for size h) h.reserved_blocks h.block_count found
    → IsOutcome size h (take_run size (blocks_for size h) found h)
unfolding take_run
search-IsOutcome size h none v pos lt few fit = no_run few fit
search-IsOutcome size h (some start) v pos lt few (low, high, free, before) =
    let (a, k, e, all) = take_run-IsAllocated size start h v pos lt low high free in
    rw e (taken start all before)

-- In a laid-out heap a request of a positive size that does not wrap around ends in one of three ways.
-- It is answered with the null address, and nothing has changed, exactly when it needs more blocks
-- than the heap has. Otherwise, when every run of as many blocks has one in use, the kernel panics.
-- Otherwise it is answered with the first run of free blocks: these are marked, no other mark
-- changes, the header stands in front of the payload, and other data of the pool is untouched.
pub kmalloc-IsOutcome :
    (size : ℕ) (h : Heap)
    → IsLaidOut h
    → 0 < h.pool_size
    → 0 < size
    → size + header_size + h.block_size ≤ 2 ^ 32
    → IsOutcome size h (kmalloc size h)
unfolding kmalloc
kmalloc-IsOutcome size h v pool pos fits =
    elim (Bool-cases (ltb (h.block_count - h.reserved_blocks) (blocks_for size h))) [
      | inl many ↦
          rw (nonzero, ready, required, count, nonempty, many) (too_large (ltb→lt _ _ many))
      | inr few ↦
          rw (nonzero, ready, required, count, nonempty, few)
            (search-IsOutcome size h _ v pos (omega arith) (ltb_false→le _ _ few) (
              find_run-IsFirstFit (blocks_for size h) h.reserved_blocks h.block_count h
                (blocks_for_pos size h v.block) v.inside))
    ]
  where
    nonzero : (size == 0) ≡ false
    nonzero = ground (arith, pos)

    ready : (h.block_size == 0 || (h.pool_size == 0 || h.bitmap == 0)) ≡ false
    ready = ground (arith, v.block, pool, v.bitmap_at, v.non_null)

    required : blocks_required (add32 size header_size) h ≡ blocks_for size h
    required = blocks_required-eq-blocks_for size h v.block fits

    nonempty : (blocks_for size h == 0) ≡ false
    nonempty = ground (arith, blocks_for_pos size h v.block)

    count : sub32 h.block_count h.reserved_blocks ≡ h.block_count - h.reserved_blocks
    count = omega (arith, v.inside, v.fits, v.blocks_fit, mul-le-mul_right h.block_count v.block)
