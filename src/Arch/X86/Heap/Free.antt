-- ===== src/Arch/X86/Heap/Free.antt =====
-- kfree of kernel/arch/x86/heap.c.
use avr_kernel.Base.{
  ℕ, ◌+◌, ◌*◌, ◌^◌, ◌≤◌, ◌<◌, ◌≡◌, refl, ◌∙◌, ap, arith, Bool, false, ◌⊎◌, ◌&&◌, if◌then◌else◌, ltb,
  leb,
}
use avr_kernel.Arch.X86.Heap.{
  Heap, Header, kfree, kmalloc_is_valid, header_of, header_read, header_write, set_free_range,
  kmalloc_bitmap_write, block_is_used,
}
use avr_kernel.Arch.X86.Heap.Layout.{IsLaidOut, SameShape, SameShape-trans, SameShape-IsLaidOut}
use avr_kernel.Arch.X86.Heap.Bitmap.{Marked, set_free_range-Marked}
use avr_kernel.Arch.X86.Heap.Headers.{
  SameMarks, header_read-write, header_write-SameMarks, WroteBack, kmalloc_bitmap_write-WroteBack,
  header_read-rest, header_write-rest,
}
use avr_kernel.Arch.X86.Heap.Alloc.{blocks_for, start_bounds}
use avr_kernel.Arch.X86.Heap.Live.{
  IsLive, header_of-payload, required, start_of-payload, count_fits, kmalloc_is_valid-IsLive,
}

-- The header that `kfree` leaves.
abbrev pub cleared : Header
cleared = record { size = 0; flags = 0; type = 0; perm = 0; magic = 0 }

-- The blocks from `start` on are given back, and nothing else has changed.
pub record IsFreed (size start : ℕ) (h : Heap) (a : ℕ) (k : Heap) : Type 0 where
  pub shape : SameShape h k
  pub laid_out : IsLaidOut k
  pub used :
      (j : ℕ)
      → j < h.block_count
      → block_is_used j k
        ≡ (if leb start j && ltb j (start + blocks_for size h) then false else block_is_used j h)
  pub header : header_read (start * h.block_size) k ≡ cleared
  pub rest :
      (b : ℕ)
      → h.base + 2 * h.bitmap_size ≤ b
      → (b < h.base + start * h.block_size) ⊎ (h.base + start * h.block_size + 8 ≤ b)
      → k.mem b ≡ h.mem b

module _ (size start : ℕ) (h : Heap) (a : ℕ) (v : IsLaidOut h) (l : IsLive size start h a) where
  kfree-live :
      kfree a h
      ≡ kmalloc_bitmap_write
          (set_free_range start (blocks_for size h) (header_write (start * h.block_size) cleared h))
  unfolding kfree
  kfree-live =
      rw
        (
          kmalloc_is_valid-IsLive size start h a v l,
          required size start h a v l,
          start_of-payload size start h a v l,
          header_of-payload size start h a v l,
        )
        (ground (arith, l.low, l.high, count_fits size start h a v l))

  reach : (2 * h.bitmap_size ≤ start * h.block_size) × (h.base + start * h.block_size < 2 ^ 32)
  reach = omega (arith, start_bounds start (blocks_for size h) h v l.low l.high, v.fits)

  -- In a laid-out heap `kfree` of a live allocation marks its blocks free and no other, clears its
  -- header, changes no other data of the pool, and keeps the layout.
  pub kfree-IsFreed : IsFreed size start h a (kfree a h)
  kfree-IsFreed = rw kfree-live (record {
    shape = shape;
    laid_out = SameShape-IsLaidOut v shape back.marks.bytes;
    used = λ j hj.
        back.marks.used j (omega (arith, hj, marked.shape, headed.shape))
        ∙ marked.used j (omega (arith, hj, headed.shape))
        ∙ ap (λ (b : Bool). if leb start j && ltb j (start + n) then false else b)
            (headed.used j hj);
    header =
        header_read-rest r h1 h3 (omega (arith, marked.shape, back.marks.shape))
          (omega (arith, reach, headed.shape))
          (λ b far near. kept b (omega (arith, far, reach, headed.shape)))
        ∙ header_read-write r cleared h (omega arith);
    rest = λ b far away. kept b far ∙ header_write-rest r cleared h b (omega (arith, reach)) away;
  })
    where
      n : ℕ
      n = blocks_for size h

      r : ℕ
      r = start * h.block_size

      h1 : Heap
      h1 = header_write r cleared h

      headed : SameMarks h h1
      headed = header_write-SameMarks r cleared h v (omega arith) (reach.0) (reach.1)

      v1 : IsLaidOut h1
      v1 = SameShape-IsLaidOut v headed.shape headed.bytes

      h2 : Heap
      h2 = set_free_range start n h1

      marked : Marked false start n h1 h2
      marked = set_free_range-Marked start n h1 v1 (omega (arith, l.high, headed.shape))

      h3 : Heap
      h3 = kmalloc_bitmap_write h2

      back : WroteBack h2 h3
      back = kmalloc_bitmap_write-WroteBack h2 (SameShape-IsLaidOut v1 marked.shape marked.bytes)

      shape : SameShape h h3
      shape = SameShape-trans (SameShape-trans headed.shape marked.shape) back.marks.shape

      kept : (b : ℕ) → h.base + 2 * h.bitmap_size ≤ b → h3.mem b ≡ h1.mem b
      kept b far =
          back.rest b (omega (arith, far, headed.shape, marked.shape))
          ∙ marked.rest b (omega (arith, far, headed.shape))

-- An address that fails the test is left alone.
pub kfree_invalid : (a : ℕ) (h : Heap) → kmalloc_is_valid a h ≡ false → kfree a h ≡ h
unfolding kfree
kfree_invalid a h e = rw e refl

-- Without the magic number an address fails the test.
pub kmalloc_is_valid-cleared :
    (a : ℕ) (h : Heap) → (header_read (header_of a h) h).magic ≡ 0 → kmalloc_is_valid a h ≡ false
unfolding kmalloc_is_valid
kmalloc_is_valid-cleared a h e = rw e (ground arith)
