-- ===== src/Arch/X86/Heap/Iterate.antt =====
-- kmalloc_next of kernel/arch/x86/heap.c.
use native.Mathlib.Nat.{mul-le-mul_right}
use avr_kernel.Base.{
  ℕ, zero, suc, ◌+◌, ◌-◌, ◌*◌, ◌/◌, ◌≤◌, ◌<◌, ◌≡◌, ◌∙◌, ap, arith, Bool, true, false, ◌||◌, ◌&&◌,
  not, if◌then◌else◌, ltb, leb, ◌==◌, ◌!=◌, add32, u32, Bool-cases, ltb→lt, ltb_false→le, inl, inr,
}
use avr_kernel.Arch.X86.Heap.{
  Heap, kmalloc_is_valid, kmalloc_null, kmalloc_magic, header_size, header_of, header_read,
  heap_data_begin, blocks_required, block_is_used,
}
use avr_kernel.Arch.X86.Heap.Layout.{IsLaidOut}
use avr_kernel.Arch.X86.Heap.Alloc.{blocks_for}
use avr_kernel.Arch.X86.Heap.Live.{
  IsLive, required, start_of-payload, count_fits, kmalloc_is_valid-IsLive,
}

-- The loop of `kmalloc_next`, at `current` with `rounds` blocks left.
pub next_from : (rounds current : ℕ) → Heap → ℕ
next_from zero current h = kmalloc_null
next_from (suc rounds) current h =
    let later = next_from rounds (current + 1) h in
    let rel = u32 (current * h.block_size) in
    let header = header_read rel h in
    if not (block_is_used current h)
    then later
    else if ltb rel (heap_data_begin h)
    then later
    else if header.magic != kmalloc_magic || header.size == 0
    then later
    else if leb h.pool_size (add32 rel header_size)
    then later
    else u32 (h.base + rel + header_size)

pub kmalloc_next : ℕ → Heap → ℕ
kmalloc_next previous_address h =
    let rel = header_of previous_address h in
    let used_blocks = blocks_required (add32 (header_read rel h).size header_size) h in
    let start_block = add32 (rel / h.block_size) used_blocks in
    if previous_address == kmalloc_null
    then next_from (h.block_count - h.reserved_blocks) h.reserved_blocks h
    else if not (kmalloc_is_valid previous_address h)
    then kmalloc_null
    else next_from (h.block_count - start_block) start_block h

-- Block `i` begins an allocation: it is in use, and a header stands there.
abbrev begins : ℕ → Heap → Bool
begins i h =
    let header = header_read (i * h.block_size) h in
    block_is_used i h
    && ((header.magic == kmalloc_magic)
        && (not (header.size == 0) && ltb (i * h.block_size + header_size) h.pool_size))

-- What a walk from block `lower` on should answer: the payload of the first block that begins an
-- allocation, and the null address when none does.
pub data IsNext (h : Heap) (lower : ℕ) : ℕ → Type 0 where
  at_end :
      ((j : ℕ) → lower ≤ j → j < h.block_count → begins j h ≡ false) → IsNext h lower kmalloc_null
  found_at :
      (i : ℕ)
      → lower ≤ i
      → i < h.block_count
      → begins i h ≡ true
      → ((j : ℕ) → lower ≤ j → j < i → begins j h ≡ false)
      → IsNext h lower (h.base + i * h.block_size + header_size)

module _ (h : Heap) (v : IsLaidOut h) (big : header_size ≤ h.block_size) where
  IsNext-skip : (lower a : ℕ) → begins lower h ≡ false → IsNext h (lower + 1) a → IsNext h lower a
  IsNext-skip lower a no_start (at_end none_left) = at_end λ j lo hi.
      elim (Bool-cases (ltb lower j)) [
        | inl above ↦ none_left j (omega (arith, ltb→lt _ _ above)) hi
        | inr same ↦
            let here : j ≡ lower = omega (arith, ltb_false→le _ _ same) in
            ap (λ b. begins b h) here ∙ no_start
      ]
  IsNext-skip lower a no_start (found_at i lo hi start before) =
      found_at i (omega arith) hi start λ j lj hj. elim (Bool-cases (ltb lower j)) [
        | inl above ↦ before j (omega (arith, ltb→lt _ _ above)) hj
        | inr same ↦
            let here : j ≡ lower = omega (arith, ltb_false→le _ _ same) in
            ap (λ b. begins b h) here ∙ no_start
      ]

  -- The tests of the loop together ask whether the block begins an allocation.
  next_from-step :
      (rounds current : ℕ)
      → h.reserved_blocks ≤ current
      → current < h.block_count
      → next_from (suc rounds) current h ≡ (
          if begins current h
          then h.base + current * h.block_size + header_size
          else next_from rounds (current + 1) h)
  unfolding next_from heap_data_begin
  next_from-step rounds current low high = rw rel (ground (arith, above, data_begin, v.fits, end))
    where
      end : current * h.block_size + h.block_size ≤ h.pool_size
      end = omega (arith, v.blocks_fit, mul-le-mul_right h.block_size high)

      rel : u32 (current * h.block_size) ≡ current * h.block_size
      rel = omega (arith, end, v.fits)

      above : h.reserved_blocks * h.block_size ≤ current * h.block_size
      above = mul-le-mul_right h.block_size low

      data_begin : u32 (h.reserved_blocks * h.block_size) ≡ h.reserved_blocks * h.block_size
      data_begin = omega (arith, above, end, v.fits)

  next_from-end :
      (current : ℕ)
      → h.reserved_blocks ≤ current
      → (current + 0 ≡ h.block_count)
      → IsNext h current (next_from 0 current h)
  unfolding next_from
  next_from-end current low e = at_end λ j lo hi. absurd (omega arith)

  next_from-IsNext :
      (rounds current : ℕ)
      → h.reserved_blocks ≤ current
      → (current + rounds ≡ h.block_count)
      → IsNext h current (next_from rounds current h)
  next_from-IsNext zero current low e = next_from-end current low e
  next_from-IsNext (suc rounds) current low e = elim (Bool-cases (begins current h)) [
    | inl start ↦
        rw (next_from-step rounds current low (omega arith), start)
          (found_at current (omega arith) (omega arith) start λ j lo hi. absurd (omega arith))
    | inr no_start ↦
        rw (next_from-step rounds current low (omega arith), no_start)
          (IsNext-skip current _ no_start
            (next_from-IsNext rounds (current + 1) (omega arith) (omega arith)))
  ]

kmalloc_null-IsInvalid :
    (h : Heap) (a : ℕ) → kmalloc_is_valid a h ≡ true → (a == kmalloc_null) ≡ false
unfolding kmalloc_is_valid
kmalloc_null-IsInvalid h a e = ground (arith, e)

-- In a laid-out heap whose blocks hold a header at least, `kmalloc_next` of the null address answers the payload of
-- the first block that begins an allocation, and the null address when there is none.
pub kmalloc_next-first :
    (h : Heap)
    → IsLaidOut h
    → header_size ≤ h.block_size
    → IsNext h h.reserved_blocks (kmalloc_next kmalloc_null h)
unfolding kmalloc_next
kmalloc_next-first h v big =
    next_from-IsNext h v big _ h.reserved_blocks (omega arith) (omega (arith, v.inside))

-- In a laid-out heap whose blocks hold a header at least, `kmalloc_next` of a live allocation answers the payload of
-- the first block behind it that begins an allocation, and the null address when there is none.
pub kmalloc_next-IsNext :
    (size start : ℕ) (h : Heap) (a : ℕ)
    → IsLaidOut h
    → header_size ≤ h.block_size
    → IsLive size start h a
    → IsNext h (start + blocks_for size h) (kmalloc_next a h)
unfolding kmalloc_next
kmalloc_next-IsNext size start h a v big l =
    let n = blocks_for size h in
    let here : add32 start n ≡ start + n = omega (arith, l.high, count_fits size start h a v l) in
    let named : (a == kmalloc_null) ≡ false =
      ground (arith, kmalloc_null-IsInvalid h a, kmalloc_is_valid-IsLive size start h a v l) in
    rw
      (
        named,
        kmalloc_is_valid-IsLive size start h a v l,
        required size start h a v l,
        start_of-payload size start h a v l,
        here,
      )
      (next_from-IsNext h v big _ (start + n) (omega (arith, l.low)) (omega (arith, l.high)))
