-- ===== src/Arch/X86/Heap/Memory.antt =====
-- kmem_write, kmem_read and kmemset of kernel/arch/x86/heap.c.
use avr_kernel.Base.{ℕ, zero, suc, ◌+◌, ◌<◌, ◌≤◌, ◌≡◌, refl, ap, ◌∙◌, arith, ◌⊎◌, add32, u8, ◌^◌}
use avr_kernel.Util.Copy.{copy_up}
use avr_kernel.Util.Copy.Move.{copy_up-IsCopied}
use avr_kernel.Util.Copy.Append.{Apart}
use avr_kernel.Arch.X86.Heap.{Heap, memset, memcpy, store}

pub kmem_write : (destination source size : ℕ) → Heap → Heap
kmem_write destination source size h = memcpy destination source size h

pub kmem_read : (destination source size : ℕ) → Heap → Heap
kmem_read destination source size h = memcpy destination source size h

pub kmemset : (destination value size : ℕ) → Heap → Heap
kmemset destination value size h = memset destination (u8 value) size h

-- Where no address wraps around, the copy is that of string.c.
memcpy-copy_up :
    (n to from : ℕ) (h : Heap)
    → to + n < 2 ^ 32
    → from + n < 2 ^ 32
    → memcpy to from n h ≡ record h { mem = copy_up to from n h.mem }
unfolding memcpy copy_up
memcpy-copy_up zero to from h a b = refl
memcpy-copy_up (suc n) to from h a b =
    let to' : add32 to 1 ≡ to + 1 = omega (arith, a) in
    let from' : add32 from 1 ≡ from + 1 = omega (arith, b) in
    rw (to', from')
      (memcpy-copy_up n (to + 1) (from + 1) (store to (h.mem from) h) (omega (arith, a))
        (omega (arith, b)))

-- Bytes that were written are read back: for ranges that do not wrap around, the place written to
-- apart from the source and from the buffer read into, after kmem_write and kmem_read the buffer has
-- the bytes that stood at the source, and nothing outside the two ranges is changed.
pub kmem_read-write :
    (address source buffer size : ℕ) (h : Heap)
    → address + size < 2 ^ 32
    → source + size < 2 ^ 32
    → buffer + size < 2 ^ 32
    → Apart address size source size
    → Apart address size buffer size
    → let m' = (kmem_read buffer address size (kmem_write address source size h)).mem in
      ((i : ℕ) → i < size → m' (buffer + i) ≡ h.mem (source + i))
      × ((x : ℕ)
          → (x < address) ⊎ (address + size ≤ x)
          → (x < buffer) ⊎ (buffer + size ≤ x)
          → m' x ≡ h.mem x)
unfolding kmem_read kmem_write
kmem_read-write address source buffer size h a s b apart1 apart2 =
    let m1 = copy_up address source size h.mem in
    let first = copy_up-IsCopied address source size h.mem (ground (arith, apart1)) in
    let second = copy_up-IsCopied buffer address size m1 (ground (arith, apart2)) in
    let e1 = memcpy-copy_up size address source h a s in
    let h1 : Heap = record h { mem = m1 } in
    let e2 : memcpy buffer address size (memcpy address source size h)
        ≡ record h1 { mem = copy_up buffer address size m1 } =
      ap (memcpy buffer address size) e1 ∙ memcpy-copy_up size buffer address h1 b a in
    let at = λ (x : ℕ). ap (λ (g : Heap). g.mem x) e2 in
    (
      λ i lt. at (buffer + i) ∙ second.0 i lt ∙ first.0 i lt,
      λ x out1 out2. at x ∙ second.1 x out2 ∙ first.1 x out1,
    )
