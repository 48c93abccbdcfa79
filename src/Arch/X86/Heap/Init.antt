-- ===== src/Arch/X86/Heap/Init.antt =====
-- heap_init of kernel/arch/x86/heap.c.
use native.Mathlib.Nat.{mul-le-mul_right, div-mul-le_self, lt-div-mul-add}
use avr_kernel.Base.{
  ℕ, zero, suc, ◌+◌, ◌-◌, ◌*◌, ◌/◌, ◌%◌, ◌^◌, ◌≤◌, ◌<◌, ◌≡◌, refl, ◌∙◌, arith, false, ◌⊎◌, ◌||◌,
  ◌==◌, add32, sub32, u32, upd-IsBytes, IsBytes, bit_test, zero-bit_and,
}
use avr_kernel.Arch.X86.Heap.{Heap, heap_init, memset, store, kmalloc_bitmap_write, block_is_used}
use avr_kernel.Arch.X86.Heap.Layout.{
  IsLaidOut, SameShape, SameShape-trans, SameShape-IsLaidOut, small,
}
use avr_kernel.Arch.X86.Heap.Headers.{WroteBack, kmalloc_bitmap_write-WroteBack}

-- `k` is `h` with `n` bytes from `a` on set to `v`.
record IsFilled (a v n : ℕ) (h k : Heap) : Type 0 where
  shape : SameShape h k
  bytes : IsBytes k.mem
  filled : (b : ℕ) → a ≤ b → b < a + n → k.mem b ≡ v
  rest : (b : ℕ) → (b < a) ⊎ (a + n ≤ b) → k.mem b ≡ h.mem b

IsFilled-cons :
    (a v n : ℕ) (h k : Heap) → IsFilled (a + 1) v n (store a v h) k → IsFilled a v (suc n) h k
IsFilled-cons a v n h k later = record {
  shape = SameShape-trans (omega arith) later.shape;
  bytes = later.bytes;
  filled = λ b lo hi. ground (arith, later.filled b, later.rest b);
  rest = λ b away. ground (arith, later.rest b);
}

memset-IsFilled :
    (a v n : ℕ) (h : Heap)
    → IsBytes h.mem
    → v < 256
    → a + n < 2 ^ 32
    → IsFilled a v n h (memset a v n h)
unfolding memset
memset-IsFilled a v zero h bytes hv fits = record {
  shape = omega arith;
  bytes = bytes;
  filled = λ b lo hi. absurd (omega arith);
  rest = λ b away. refl;
}
memset-IsFilled a v (suc n) h bytes hv fits =
    let next : add32 a 1 ≡ a + 1 = omega arith in
    rw next (
      IsFilled-cons a v n h _ (
        memset-IsFilled (a + 1) v n (store a v h) (λ b. upd-IsBytes h.mem a v bytes hv b) hv
          (omega arith)))

-- A heap of `count` blocks, all of them free.
pub record IsFresh (blocks : ℕ) (h : Heap) : Type 0 where
  pub laid_out : IsLaidOut h
  pub count : h.block_count ≡ blocks
  pub free : (j : ℕ) → j < blocks → block_is_used j h ≡ false

block_is_used_blank :
    (j : ℕ) (h : Heap) → h.mem (add32 h.bitmap (j / 8)) ≡ 0 → block_is_used j h ≡ false
unfolding block_is_used bit_test
block_is_used_blank j h e = rw (e, zero-bit_and (2 ^ (j % 8))) refl

module _ (bs total : ℕ) (h : Heap) where
  abbrev count : ℕ
  count = total / bs

  abbrev bitmap_bytes : ℕ
  bitmap_bytes = (count + 7) / 8

  abbrev reserved : ℕ
  reserved = (bitmap_bytes * 2 + bs - 1) / bs

  -- The fields of the new heap.
  abbrev shaped : Heap
  shaped = record {
    block_size = bs;
    pool_size = total;
    block_count = count;
    bitmap_size = bitmap_bytes;
    reserved_blocks = reserved;
    bitmap = h.base;
    dirty = h.base + bitmap_bytes;
    base = h.base;
    mem = h.mem;
  }

  module _ (pos : 0 < bs) (pool : 0 < total) (base : 0 < h.base)
      (fits : h.base + total + bs + 8 ≤ 2 ^ 32) (room : reserved ≤ count)
      (bytes : IsBytes h.mem) where
    shaped-IsLaidOut : IsLaidOut shaped
    shaped-IsLaidOut = record {
      block = pos;
      non_null = base;
      bitmap_at = refl;
      dirty_at = refl;
      fits = omega arith;
      blocks_fit = div-mul-le_self total bs;
      bits_fit = omega arith;
      room = omega (arith, lt-div-mul-add {a = bitmap_bytes * 2 + bs - 1} {b = bs} pos);
      inside = room;
      bytes = bytes;
    }

    abbrev zeroed : Heap
    zeroed = memset shaped.dirty 0 bitmap_bytes (memset shaped.bitmap 0 bitmap_bytes shaped)

    heap_init-shaped : heap_init bs total h ≡ kmalloc_bitmap_write zeroed
    unfolding heap_init
    heap_init-shaped = rw (no_zero, plus_seven, overhead, reserve, dirty) refl
      where
        count_le : count ≤ total
        count_le = omega (arith, div-mul-le_self total bs, mul-le-mul_right count pos)

        no_zero : (bs == 0 || total == 0) ≡ false
        no_zero = ground arith

        plus_seven : add32 count 7 ≡ count + 7
        plus_seven = omega (arith, count_le)

        overhead : u32 (bitmap_bytes * 2) ≡ bitmap_bytes * 2
        overhead = omega (arith, count_le)

        reserve : sub32 (add32 (bitmap_bytes * 2) bs) 1 ≡ bitmap_bytes * 2 + bs - 1
        reserve = omega (arith, count_le)

        dirty : add32 h.base bitmap_bytes ≡ h.base + bitmap_bytes
        dirty = omega (arith, count_le)

    -- From a base address other than null, with a pool that ends below 2 ^ 32 with a block and eight
    -- bytes to spare and has room for the bitmap and its dirty bytes, `heap_init` makes a laid-out
    -- heap of as many blocks as fit, all of them free.
    pub heap_init-IsFresh : IsFresh count (heap_init bs total h)
    heap_init-IsFresh = rw heap_init-shaped (record {
      laid_out = SameShape-IsLaidOut v2 back.marks.shape back.marks.bytes;
      count = back.marks.shape.block_count ∙ second.shape.block_count ∙ first.shape.block_count;
      free = λ j hj.
          back.marks.used j (omega (arith, hj, first.shape, second.shape))
          ∙ block_is_used_blank j zeroed (
              rw (bitmap, cell j hj)
                (second.rest (h.base + j / 8) (omega (arith, hj))
                  ∙ first.filled (h.base + j / 8) (omega arith) (omega (arith, hj))));
    })
      where
        v : IsLaidOut shaped
        v = shaped-IsLaidOut

        first : IsFilled h.base 0 bitmap_bytes shaped (memset h.base 0 bitmap_bytes shaped)
        first =
            memset-IsFilled h.base 0 bitmap_bytes shaped bytes (omega arith)
              (omega (arith, small v))

        second :
            IsFilled
              (h.base + bitmap_bytes)
              0
              bitmap_bytes
              (memset h.base 0 bitmap_bytes shaped)
              zeroed
        second =
            memset-IsFilled (h.base + bitmap_bytes) 0 bitmap_bytes _ first.bytes (omega arith)
              (omega (arith, small v))

        v2 : IsLaidOut zeroed
        v2 = SameShape-IsLaidOut v (SameShape-trans first.shape second.shape) second.bytes

        back : WroteBack zeroed (kmalloc_bitmap_write zeroed)
        back = kmalloc_bitmap_write-WroteBack zeroed v2

        bitmap : zeroed.bitmap ≡ h.base
        bitmap = second.shape.bitmap ∙ first.shape.bitmap

        cell : (j : ℕ) → j < count → add32 h.base (j / 8) ≡ h.base + j / 8
        cell j hj = omega (arith, small v)
