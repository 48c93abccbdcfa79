-- ===== src/Arch/X86/Heap/Alloc.antt =====
-- What `kmalloc` does, on every outcome.
use native.Mathlib.Nat.{mul-le-mul_right, add-mul, lt-div-mul-add, div-mul-le_self}
use avr_kernel.Base.{
  ℕ, ◌+◌, ◌-◌, ◌*◌, ◌/◌, ◌^◌, ◌≤◌, ◌<◌, ◌≡◌, refl, ◌∙◌, ap, arith, true, ◌⊎◌, inl, inr, ◌&&◌, some,
  if◌then◌else◌, ltb, leb, add32, sub32, u32,
}
use avr_kernel.Arch.X86.Heap.{
  Heap, Header, address, kmalloc_magic, header_size, take_run, blocks_required, block_is_used,
  header_write, header_read, kmalloc_bitmap_write, set_used_range,
}
use avr_kernel.Arch.X86.Heap.Layout.{IsLaidOut, SameShape, SameShape-trans, SameShape-IsLaidOut}
use avr_kernel.Arch.X86.Heap.Bitmap.{Marked, set_used_range-Marked}
use avr_kernel.Arch.X86.Heap.Headers.{
  SameMarks, IsHeader, header_read-write, header_write-SameMarks, WroteBack,
  kmalloc_bitmap_write-WroteBack, header_read-WroteBack, header_write-rest,
}
use avr_kernel.Arch.X86.Heap.Search.{IsFreeRun}

-- The blocks that an allocation of `size` bytes takes, header included.
abbrev pub blocks_for : ℕ → Heap → ℕ
blocks_for size h = (size + header_size + (h.block_size - 1)) / h.block_size

pub blocks_required-eq-blocks_for :
    (size : ℕ) (h : Heap)
    → 0 < h.block_size
    → size + header_size + h.block_size ≤ 2 ^ 32
    → blocks_required (add32 size header_size) h ≡ blocks_for size h
unfolding blocks_required
blocks_required-eq-blocks_for size h pos fits =
    ground (arith, ap (λ (x : ℕ). x / h.block_size) total)
  where
    total :
        add32 (add32 size header_size) (sub32 h.block_size 1)
        ≡ size + header_size + (h.block_size - 1)
    total = omega arith

-- They are enough, with less than one block to spare.
pub blocks_for_bounds :
    (size : ℕ) (h : Heap)
    → 0 < h.block_size
    → (size + header_size ≤ blocks_for size h * h.block_size)
      × (blocks_for size h * h.block_size < size + header_size + h.block_size)
blocks_for_bounds size h pos = omega (
  arith,
  lt-div-mul-add {a = size + header_size + (h.block_size - 1)} {b = h.block_size} pos,
  div-mul-le_self (size + header_size + (h.block_size - 1)) h.block_size,
)

abbrev pub header_for : ℕ → Header
header_for size = record { size = size; flags = 0; type = 0; perm = 0; magic = kmalloc_magic }

-- The allocation of the blocks from `start` on: what was true before, and what holds after.
pub record IsAllocated (size start : ℕ) (h : Heap) (a : ℕ) (k : Heap) : Type 0 where
  pub low : h.reserved_blocks ≤ start
  pub high : start + blocks_for size h ≤ h.block_count
  pub payload : a ≡ h.base + start * h.block_size + header_size
  pub was_free : IsFreeRun h (blocks_for size h) start
  pub shape : SameShape h k
  pub marked :
      (j : ℕ)
      → j < h.block_count
      → block_is_used j k
        ≡ (if leb start j && ltb j (start + blocks_for size h) then true else block_is_used j h)
  pub header : header_read (start * h.block_size) k ≡ header_for size
  pub laid_out : IsLaidOut k
  pub rest :
      (b : ℕ)
      → h.base + 2 * h.bitmap_size ≤ b
      → (b < h.base + start * h.block_size) ⊎ (h.base + start * h.block_size + 8 ≤ b)
      → k.mem b ≡ h.mem b

-- Where block `start` begins, when the run from it on is inside the pool.
pub start_bounds :
    (start n : ℕ) (h : Heap)
    → IsLaidOut h
    → h.reserved_blocks ≤ start
    → start + n ≤ h.block_count
    → (2 * h.bitmap_size ≤ start * h.block_size)
      × (start * h.block_size + n * h.block_size ≤ h.pool_size)
start_bounds start n h v low high = omega (
  arith,
  v.room,
  v.blocks_fit,
  mul-le-mul_right h.block_size low,
  mul-le-mul_right h.block_size high,
  add-mul start n h.block_size,
)

pub take_run-IsAllocated :
    (size start : ℕ) (h : Heap)
    → IsLaidOut h
    → 0 < size
    → size < 2 ^ 32
    → h.reserved_blocks ≤ start
    → start + blocks_for size h ≤ h.block_count
    → IsFreeRun h (blocks_for size h) start
    → (a : ℕ) × (k : Heap) × (take_run size (blocks_for size h) (some start) h ≡ address a k)
      × IsAllocated size start h a k
unfolding take_run
take_run-IsAllocated size start h v pos fits low high free = (
  h.base + r + header_size,
  h3,
  rw rel (ap (λ x. address x h3) payload),
  record {
    low = low;
    high = high;
    payload = refl;
    was_free = free;
    shape = shape;
    marked = λ j hj.
        back.marks.used j (omega (arith, hj, marked.shape, headed.shape))
        ∙ headed.used j (omega (arith, hj, marked.shape))
        ∙ marked.used j hj;
    header =
        header_read-WroteBack r h2 h3 back (omega (arith, apart, marked.shape, headed.shape))
          (omega (arith, inside, marked.shape, headed.shape))
        ∙ header_read-write r (header_for size) h1 valid;
    laid_out = SameShape-IsLaidOut v shape back.marks.bytes;
    rest = λ b far away.
        back.rest b (omega (arith, far, marked.shape, headed.shape))
        ∙ header_write-rest r (header_for size) h1 b (omega (arith, inside, marked.shape))
            (elim away [
              | inl below ↦ inl (omega (arith, below, marked.shape))
              | inr above ↦ inr (omega (arith, above, marked.shape))
            ])
        ∙ marked.rest b far;
  },
)
  where
    n : ℕ
    n = blocks_for size h

    r : ℕ
    r = start * h.block_size

    apart : 2 * h.bitmap_size ≤ r
    apart = (start_bounds start n h v low high).0

    inside : h.base + r + header_size < 2 ^ 32
    inside =
        omega (arith, v.fits, start_bounds start n h v low high, blocks_for_bounds size h v.block)

    rel : u32 (start * h.block_size) ≡ r
    rel = omega (arith, inside)

    payload : u32 (h.base + r + header_size) ≡ h.base + r + header_size
    payload = omega (arith, inside)

    valid : IsHeader (header_for size)
    valid = omega (arith, fits)

    h1 : Heap
    h1 = set_used_range start n h

    marked : Marked true start n h h1
    marked = set_used_range-Marked start n h v high

    v1 : IsLaidOut h1
    v1 = SameShape-IsLaidOut v marked.shape marked.bytes

    h2 : Heap
    h2 = header_write r (header_for size) h1

    headed : SameMarks h1 h2
    headed =
        header_write-SameMarks r (header_for size) h1 v1 valid (omega (arith, apart, marked.shape))
          (omega (arith, inside, marked.shape))

    h3 : Heap
    h3 = kmalloc_bitmap_write h2

    back : WroteBack h2 h3
    back = kmalloc_bitmap_write-WroteBack h2 (SameShape-IsLaidOut v1 headed.shape headed.bytes)

    shape : SameShape h h3
    shape = SameShape-trans (SameShape-trans marked.shape headed.shape) back.marks.shape
