-- ===== src/Arch/X86/Heap/Lifecycle.antt =====
-- What a caller of kmalloc and kfree of kernel/arch/x86/heap.c can rely on.
use avr_kernel.Base.{
  ℕ, ◌+◌, ◌-◌, ◌*◌, ◌/◌, ◌^◌, ◌≤◌, ◌<◌, ◌≡◌, ◌≢◌, refl, ◌∙◌, ap, arith, true, false, sub32,
}
use avr_kernel.Arch.X86.Heap.{
  Heap, Header, address, kmalloc, kmalloc_null, kfree, kmalloc_is_valid, header_size, header_of,
  header_read,
}
use avr_kernel.Arch.X86.Heap.Layout.{IsLaidOut, SameShape-trans}
use avr_kernel.Arch.X86.Heap.Headers.{SameMarks}
use avr_kernel.Arch.X86.Heap.Alloc.{blocks_for, blocks_for_bounds, IsAllocated}
use avr_kernel.Arch.X86.Heap.Outcome.{
  blocks_for_pos, IsOutcome, too_large, taken, kmalloc-IsOutcome,
}
use avr_kernel.Arch.X86.Heap.Live.{IsLive, header_of-payload, kmalloc_is_valid-IsLive}
use avr_kernel.Arch.X86.Heap.Free.{IsFreed, kfree-IsFreed, kfree_invalid, kmalloc_is_valid-cleared}
use avr_kernel.Arch.X86.Heap.Safety.{
  IsAllocated-IsLive, IsApart, IsApart-marks, kept_payload, kept-IsLive, IsDisjoint,
  IsDisjoint-apart,
}

-- A request that `kmalloc` can serve without wrapping around.
pub record IsRequest (size : ℕ) (h : Heap) : Type 0 where
  pub laid_out : IsLaidOut h
  pub pool : 0 < h.pool_size
  pub positive : 0 < size
  pub fits : size + header_size + h.block_size ≤ 2 ^ 32

outcome_taken :
    {size : ℕ} {h : Heap} {a : ℕ} {k : Heap}
    → IsOutcome size h (address a k)
    → a ≢ kmalloc_null
    → (start : ℕ) × IsAllocated size start h a k
outcome_taken (too_large _) some_address = absurd (some_address refl)
outcome_taken (taken start al _) some_address = (start, al)

kmalloc-IsAllocated :
    (size : ℕ) (h : Heap) (a : ℕ) (k : Heap)
    → IsRequest size h
    → kmalloc size h ≡ address a k
    → a ≢ kmalloc_null
    → (start : ℕ) × IsAllocated size start h a k
kmalloc-IsAllocated size h a k q e some_address =
    outcome_taken (rw (← e) (kmalloc-IsOutcome size h q.laid_out q.pool q.positive q.fits))
      some_address

-- An allocation that was live before stays as it was, and the new one is elsewhere.
IsAllocated-keeps :
    (size start : ℕ) (h : Heap) (a : ℕ) (k : Heap)
    → IsLaidOut h
    → IsAllocated size start h a k
    → (other place b : ℕ) → IsLive other place h b
    → IsLive other place k b
      × IsDisjoint a size b other
      × ((i : ℕ) → i < other → k.mem (b + i) ≡ h.mem (b + i))
IsAllocated-keeps size start h a k v al other place b l = (
  kept-IsLive other place start n h k b v l al.shape al.rest apart room
      λ j lo hi. al.marked j (omega (arith, hi, l.high)) ∙ ground (arith, l.used_at j lo hi),
  IsDisjoint-apart size start a other place b h v.block al.payload l.payload apart,
  kept_payload other place start n h k b v l al.shape al.rest apart room,
)
  where
    n : ℕ
    n = blocks_for size h

    apart : IsApart start n place (blocks_for other h)
    apart =
        IsApart-marks h start n place (blocks_for other h) (blocks_for_pos size h v.block)
          (blocks_for_pos other h v.block) al.was_free l.used_at

    room : header_size ≤ n * h.block_size
    room = omega (arith, blocks_for_bounds size h v.block)

-- In a laid-out heap, when `kmalloc` answers a request of a positive size that does not wrap around
-- with an address, that is a live allocation of the size asked for, and the heap is still laid out.
pub kmalloc-IsLive :
    (size : ℕ) (h : Heap) (a : ℕ) (k : Heap)
    → IsRequest size h
    → kmalloc size h ≡ address a k
    → a ≢ kmalloc_null
    → IsLaidOut k × ((start : ℕ) × IsLive size start k a)
kmalloc-IsLive size h a k q e some_address =
    let (start, al) = kmalloc-IsAllocated size h a k q e some_address in
    (al.laid_out, (start, IsAllocated-IsLive size start h a k q.positive q.fits al))

-- In a laid-out heap, when `kmalloc` answers a request of a positive size that does not wrap around
-- with an address, an allocation that was live before is still live at its address, its payload has
-- the bytes it had, and it has no byte in common with the new one.
pub kmalloc-keeps :
    (size : ℕ) (h : Heap) (a : ℕ) (k : Heap)
    → IsRequest size h
    → kmalloc size h ≡ address a k
    → a ≢ kmalloc_null
    → (other place b : ℕ) → IsLive other place h b
    → IsLive other place k b
      × IsDisjoint a size b other
      × ((i : ℕ) → i < other → k.mem (b + i) ≡ h.mem (b + i))
kmalloc-keeps size h a k q e some_address =
    let (start, al) = kmalloc-IsAllocated size h a k q e some_address in
    IsAllocated-keeps size start h a k q.laid_out al

-- In a laid-out heap, when a live allocation is freed, a live allocation of other blocks stays live at its address, and
-- its payload has the bytes it had.
pub kfree-keeps :
    (size start : ℕ) (h : Heap) (a : ℕ)
    → IsLaidOut h
    → IsLive size start h a
    → (other place b : ℕ) → IsLive other place h b
    → IsApart start (blocks_for size h) place (blocks_for other h)
    → IsLive other place (kfree a h) b
      × ((i : ℕ) → i < other → (kfree a h).mem (b + i) ≡ h.mem (b + i))
kfree-keeps size start h a v l other place b m apart = (
  kept-IsLive other place start n h (kfree a h) b v m freed.shape freed.rest apart room λ j lo hi.
      freed.used j (omega (arith, hi, m.high)) ∙ ground (arith, apart, m.used_at j lo hi),
  kept_payload other place start n h (kfree a h) b v m freed.shape freed.rest apart room,
)
  where
    n : ℕ
    n = blocks_for size h

    freed : IsFreed size start h a (kfree a h)
    freed = kfree-IsFreed size start h a v l

    room : header_size ≤ n * h.block_size
    room = omega (arith, blocks_for_bounds size h v.block)

-- In a laid-out heap, when `kmalloc` answers a request of a positive size that does not wrap around
-- with an address, `kfree` gives back what it took: the answer passes `kmalloc_is_valid`, and
-- freeing it restores the mark of every block and the layout of the heap.
pub kfree-kmalloc :
    (size : ℕ) (h : Heap) (a : ℕ) (k : Heap)
    → IsRequest size h
    → kmalloc size h ≡ address a k
    → a ≢ kmalloc_null
    → (kmalloc_is_valid a k ≡ true) × IsLaidOut (kfree a k) × SameMarks h (kfree a k)
kfree-kmalloc size h a k q e some_address =
    let (start, al) = kmalloc-IsAllocated size h a k q e some_address in
    let live = IsAllocated-IsLive size start h a k q.positive q.fits al in
    let freed = kfree-IsFreed size start k a al.laid_out live in
    let blocks : blocks_for size k ≡ blocks_for size h =
      ap (λ (b : ℕ). (size + header_size + (b - 1)) / b) al.shape.block_size in
    (
      kmalloc_is_valid-IsLive size start k a al.laid_out live,
      freed.laid_out,
      record {
        shape = SameShape-trans al.shape freed.shape;
        bytes = freed.laid_out.bytes;
        used = λ j hj. ground (
          arith,
          freed.used j (omega (arith, hj, al.shape)),
          al.marked j hj,
          al.was_free j,
          blocks,
        );
      },
    )

-- In a laid-out heap, an address that was live and has been freed fails `kmalloc_is_valid`, and a
-- second `kfree` of it does nothing.
pub kfree-kfree :
    (size start : ℕ) (h : Heap) (a : ℕ)
    → IsLaidOut h
    → IsLive size start h a
    → (kmalloc_is_valid a (kfree a h) ≡ false) × (kfree a (kfree a h) ≡ kfree a h)
kfree-kfree size start h a v l = (stale, kfree_invalid a (kfree a h) stale)
  where
    freed : IsFreed size start h a (kfree a h)
    freed = kfree-IsFreed size start h a v l

    place : header_of a (kfree a h) ≡ start * h.block_size
    place =
        ap (λ (b : ℕ). sub32 (sub32 a header_size) b) freed.shape.base
        ∙ header_of-payload size start h a v l

    stale : kmalloc_is_valid a (kfree a h) ≡ false
    stale = kmalloc_is_valid-cleared a (kfree a h) (
        ap (λ (r : ℕ). (header_read r (kfree a h)).magic) place
        ∙ ap (λ (x : Header). x.magic) freed.header)
