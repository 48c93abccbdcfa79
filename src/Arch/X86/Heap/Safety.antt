-- ===== src/Arch/X86/Heap/Safety.antt =====
-- Allocations of kernel/arch/x86/heap.c beside each other: they are disjoint, stay as they are when
-- others come and go, and are given back whole.
use native.Mathlib.Nat.{mul-le-mul_right, add-mul}
use avr_kernel.Base.{
  ℕ, ◌+◌, ◌-◌, ◌*◌, ◌/◌, ◌^◌, ◌≤◌, ◌<◌, ◌≡◌, refl, ◌∙◌, ap, arith, true, ◌⊎◌, inl, inr, leb,
  Bool-cases, leb→le,
}
use avr_kernel.Arch.X86.Heap.{Heap, Header, kmalloc_magic, header_size, header_read, block_is_used}
use avr_kernel.Arch.X86.Heap.Layout.{IsLaidOut, SameShape}
use avr_kernel.Arch.X86.Heap.Headers.{header_read-rest}
use avr_kernel.Arch.X86.Heap.Alloc.{blocks_for, blocks_for_bounds, start_bounds, IsAllocated}
use avr_kernel.Arch.X86.Heap.Search.{IsFreeRun}
use avr_kernel.Arch.X86.Heap.Live.{IsLive, inside}

-- Two runs of blocks with no block in common.
abbrev pub IsApart : (start n other m : ℕ) → Type 0
IsApart start n other m = (start + n ≤ other) ⊎ (other + m ≤ start)

pub IsApart-marks :
    (h : Heap) (start n other m : ℕ)
    → 0 < n
    → 0 < m
    → IsFreeRun h n start
    → ((j : ℕ) → other ≤ j → j < other + m → block_is_used j h ≡ true)
    → IsApart start n other m
IsApart-marks h start n other m pn pm free used = elim (Bool-cases (leb (start + n) other)) [
  | inl before ↦ inl (leb→le _ _ before)
  | inr meets ↦ elim (Bool-cases (leb (other + m) start)) [
    | inl after ↦ inr (leb→le _ _ after)
    | inr both ↦ elim (Bool-cases (leb start other)) [
      | inl first ↦ ground (
        arith,
        free other (ground arith) (ground arith),
        used other (ground arith) (ground arith),
      )
      | inr second ↦ ground (
        arith,
        free start (ground arith) (ground arith),
        used start (ground arith) (ground arith),
      )
    ]
  ]
]

-- An allocation in a heap of the same shape, with its header and its marks.
pub IsLive-shape :
    (size start : ℕ) (h k : Heap) (a : ℕ)
    → SameShape h k
    → h.reserved_blocks ≤ start
    → start + blocks_for size h ≤ h.block_count
    → a ≡ h.base + start * h.block_size + header_size
    → 0 < size
    → size + header_size + h.block_size ≤ 2 ^ 32
    → ((j : ℕ) → start ≤ j → j < start + blocks_for size h → block_is_used j k ≡ true)
    → (x : Header) → header_read (start * h.block_size) k ≡ x
    → x.size ≡ size
    → x.magic ≡ kmalloc_magic
    → IsLive size start k a
IsLive-shape size start h k a s low high payload pos fits used x header size_at magic_at = record {
  low = omega (arith, low, s);
  high = omega (arith, high, s, blocks);
  payload = omega (arith, payload, s, offset);
  size_at = rw offset (ap (λ (x : Header). x.size) header ∙ size_at);
  magic_at = rw offset (ap (λ (x : Header). x.magic) header ∙ magic_at);
  used_at = λ j lo hi. used j lo (omega (arith, hi, blocks));
  positive = pos;
  size_fits = omega (arith, fits, s);
}
  where
    blocks : blocks_for size k ≡ blocks_for size h
    blocks = ap (λ (b : ℕ). (size + header_size + (b - 1)) / b) s.block_size

    offset : start * k.block_size ≡ start * h.block_size
    offset = ap (λ (b : ℕ). start * b) s.block_size

-- What `kmalloc` answers is live.
pub IsAllocated-IsLive :
    (size start : ℕ) (h : Heap) (a : ℕ) (k : Heap)
    → 0 < size
    → size + header_size + h.block_size ≤ 2 ^ 32
    → IsAllocated size start h a k
    → IsLive size start k a
IsAllocated-IsLive size start h a k pos fits al =
    IsLive-shape size start h k a al.shape al.low al.high al.payload pos fits
      (λ j lo hi. al.marked j (omega (arith, hi, al.high)) ∙ ground (arith, lo, hi)) _ al.header
      refl refl

-- Data that a change of the header at block `other` leaves alone.
away_of_apart :
    (size start other m : ℕ) (h : Heap) (b : ℕ)
    → IsLaidOut h
    → IsApart other m start (blocks_for size h)
    → header_size ≤ m * h.block_size
    → h.base + start * h.block_size ≤ b
    → b < h.base + start * h.block_size + blocks_for size h * h.block_size
    → (b < h.base + other * h.block_size) ⊎ (h.base + other * h.block_size + 8 ≤ b)
away_of_apart size start other m h b v apart room lo hi = elim apart [
  | inl after ↦
      inr
        (omega (arith, lo, room, mul-le-mul_right h.block_size after, add-mul other m h.block_size))
  | inr before ↦ inl (
      omega (
        arith,
        hi,
        mul-le-mul_right h.block_size before,
        add-mul start (blocks_for size h) h.block_size,
      ))
]

-- A block that stays apart from a change of `m` blocks at `other` keeps its header and its payload.
module _ (size start other m : ℕ) (h k : Heap) (a : ℕ) (v : IsLaidOut h) (l : IsLive size start h a)
    (s : SameShape h k)
    (rest : (b : ℕ)
      → h.base + 2 * h.bitmap_size ≤ b
      → (b < h.base + other * h.block_size) ⊎ (h.base + other * h.block_size + 8 ≤ b)
      → k.mem b ≡ h.mem b)
    (apart : IsApart other m start (blocks_for size h))
    (room : header_size ≤ m * h.block_size) where
  pub kept_byte :
      (b : ℕ)
      → h.base + start * h.block_size ≤ b
      → b < h.base + start * h.block_size + blocks_for size h * h.block_size
      → k.mem b ≡ h.mem b
  kept_byte b lo hi =
      rest b (omega (arith, lo, start_bounds start (blocks_for size h) h v l.low l.high))
        (away_of_apart size start other m h b v apart room lo hi)

  pub kept_payload : (i : ℕ) → i < size → k.mem (a + i) ≡ h.mem (a + i)
  kept_payload i lt =
      kept_byte (a + i) (omega (arith, l.payload))
        (omega (arith, lt, l.payload, blocks_for_bounds size h v.block))

  kept_header : header_read (start * h.block_size) k ≡ header_read (start * h.block_size) h
  kept_header =
      header_read-rest (start * h.block_size) h k s.base
        (omega (arith, inside size start h a v l, v.fits))
        λ b lo hi. kept_byte b lo (omega (arith, hi, blocks_for_bounds size h v.block))

  pub kept-IsLive :
      ((j : ℕ) → start ≤ j → j < start + blocks_for size h → block_is_used j k ≡ true)
      → IsLive size start k a
  kept-IsLive used =
      IsLive-shape size start h k a s l.low l.high l.payload l.positive l.size_fits used _
        kept_header l.size_at l.magic_at

-- `b` and the `m` bytes from it on do not meet the `n` bytes from `a` on.
abbrev pub IsDisjoint : (a n b m : ℕ) → Type 0
IsDisjoint a n b m = (a + n ≤ b) ⊎ (b + m ≤ a)

pub IsDisjoint-apart :
    (size start a other place b : ℕ) (h : Heap)
    → 0 < h.block_size
    → a ≡ h.base + start * h.block_size + header_size
    → b ≡ h.base + place * h.block_size + header_size
    → IsApart start (blocks_for size h) place (blocks_for other h)
    → IsDisjoint a size b other
IsDisjoint-apart size start a other place b h pos pa pb apart = elim apart [
  | inl before ↦ inl (
      omega (
        arith,
        pa,
        pb,
        mul-le-mul_right h.block_size before,
        add-mul start (blocks_for size h) h.block_size,
        blocks_for_bounds size h pos,
      ))
  | inr after ↦ inr (
      omega (
        arith,
        pa,
        pb,
        mul-le-mul_right h.block_size after,
        add-mul place (blocks_for other h) h.block_size,
        blocks_for_bounds other h pos,
      ))
]
