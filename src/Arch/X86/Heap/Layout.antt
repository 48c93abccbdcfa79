-- ===== src/Arch/X86/Heap/Layout.antt =====
-- The layout of the heap: the bitmap and its dirty bytes at the start of the pool, in the reserved
-- blocks.
use avr_kernel.Base.{◌+◌, ◌*◌, ◌^◌, ◌≤◌, ◌<◌, ◌≡◌, ◌∙◌, sym, arith, IsBytes}
use native.Mathlib.Nat.{mul-le-mul_right}
use avr_kernel.Arch.X86.Heap.{Heap}

pub record IsLaidOut (h : Heap) : Type 0 where
  pub block : 0 < h.block_size
  pub non_null : 0 < h.base
  pub bitmap_at : h.bitmap ≡ h.base
  pub dirty_at : h.dirty ≡ h.base + h.bitmap_size
  pub fits : h.base + h.pool_size < 2 ^ 32
  pub blocks_fit : h.block_count * h.block_size ≤ h.pool_size
  pub bits_fit : h.block_count ≤ 8 * h.bitmap_size
  pub room : 2 * h.bitmap_size ≤ h.reserved_blocks * h.block_size
  pub inside : h.reserved_blocks ≤ h.block_count
  pub bytes : IsBytes h.mem

-- The two states differ in memory only.
pub record SameShape (h k : Heap) : Type 0 where
  pub block_size : k.block_size ≡ h.block_size
  pub pool_size : k.pool_size ≡ h.pool_size
  pub block_count : k.block_count ≡ h.block_count
  pub bitmap_size : k.bitmap_size ≡ h.bitmap_size
  pub reserved_blocks : k.reserved_blocks ≡ h.reserved_blocks
  pub bitmap : k.bitmap ≡ h.bitmap
  pub dirty : k.dirty ≡ h.dirty
  pub base : k.base ≡ h.base

pub SameShape-trans : {h k l : Heap} → SameShape h k → SameShape k l → SameShape h l
SameShape-trans p q = omega arith

pub SameShape-IsLaidOut : {h k : Heap} → IsLaidOut h → SameShape h k → IsBytes k.mem → IsLaidOut k
SameShape-IsLaidOut {h} {k} v s bytes = record {
  block = omega (arith, v.block, s.block_size);
  non_null = omega (arith, v.non_null, s.base);
  bitmap_at = s.bitmap ∙ v.bitmap_at ∙ sym s.base;
  dirty_at = omega (arith, s.dirty, v.dirty_at, s.base, s.bitmap_size);
  fits = omega (arith, v.fits, s.base, s.pool_size);
  blocks_fit = rw (s.block_count, s.block_size, s.pool_size) v.blocks_fit;
  bits_fit = omega (arith, v.bits_fit, s.block_count, s.bitmap_size);
  room = rw (s.bitmap_size, s.reserved_blocks, s.block_size) v.room;
  inside = omega (arith, v.inside, s.block_count, s.reserved_blocks);
  bytes = bytes;
}

-- The bitmap, its dirty bytes and the data of the pool are apart, and inside it nothing wraps.
pub small : {h : Heap} → IsLaidOut h → h.base + 2 * h.bitmap_size < 2 ^ 32
small {h} v = omega (arith, v.fits, v.room, v.blocks_fit, mul-le-mul_right h.block_size v.inside)
