-- ===== src/Arch/X86/Heap/Bitmap.antt =====
-- What marking blocks does to the bitmap, and to nothing else.
use avr_kernel.Base.{
  ℕ, zero, suc, ◌+◌, ◌*◌, ◌/◌, ◌%◌, ◌≤◌, ◌<◌, ◌≡◌, ◌≢◌, refl, ◌∙◌, arith, Bool, true, false, ◌&&◌,
  if◌then◌else◌, ltb, leb, ◌==◌, ◌!=◌, add32, IsBytes, bit_test, bit_set, bit_clear, bit_test-set,
  bit_test-clear,
}
use avr_kernel.Arch.X86.Heap.{
  Heap, store, bitmap_mark_dirty, block_is_used, block_set_used, block_set_free, set_used_range,
  set_free_range,
}
use avr_kernel.Arch.X86.Heap.Layout.{
  IsLaidOut, SameShape, SameShape-trans, SameShape-IsLaidOut, small,
}

-- `k` is `h` with the blocks from `i` on, `n` of them, marked `v`; the data of the pool is untouched.
pub record Marked (v : Bool) (i n : ℕ) (h k : Heap) : Type 0 where
  pub shape : SameShape h k
  pub bytes : IsBytes k.mem
  pub used :
      (j : ℕ)
      → j < h.block_count
      → block_is_used j k ≡ (if leb i j && ltb j (i + n) then v else block_is_used j h)
  pub rest : (a : ℕ) → h.base + 2 * h.bitmap_size ≤ a → k.mem a ≡ h.mem a

-- The shared body of the two operations on a block.
abbrev put_byte : ℕ → ℕ → Heap → Heap
put_byte i b h =
    if b != h.mem (add32 h.bitmap (i / 8))
    then bitmap_mark_dirty (i / 8) (store (add32 h.bitmap (i / 8)) b h)
    else h

module _ (h : Heap) (v : IsLaidOut h) (i : ℕ) (hi : i < h.block_count) where
  bitmap_cell : add32 h.bitmap (i / 8) ≡ h.base + i / 8
  bitmap_cell = omega (arith, v.bitmap_at, small v, v.bits_fit)

  dirty_cell : add32 h.dirty (i / 8) ≡ h.base + h.bitmap_size + i / 8
  dirty_cell = omega (arith, v.dirty_at, small v, v.bits_fit)

  dirty_set : h.dirty ≢ 0
  dirty_set = omega (arith, v.dirty_at, v.non_null)

  -- The memory after the write, if there is one.
  put_byte_shape : (b : ℕ) → SameShape h (put_byte i b h)
  unfolding bitmap_mark_dirty
  put_byte_shape b = ground arith

  put_byte_mem :
      (b a : ℕ)
      → a ≢ h.base + h.bitmap_size + i / 8
      → (put_byte i b h).mem a ≡ (if a == h.base + i / 8 then b else h.mem a)
  unfolding bitmap_mark_dirty
  put_byte_mem b a ne = ground (arith, bitmap_cell, dirty_cell)

  put_byte-IsBytes : (b : ℕ) → b < 256 → IsBytes (put_byte i b h).mem
  unfolding bitmap_mark_dirty
  put_byte-IsBytes b hb a = ground (arith, v.bytes a)

module _ (h : Heap) (v : IsLaidOut h) (i : ℕ) (hi : i < h.block_count) where
  -- A byte that differs from the old one in the bit of block `i` at most marks that block.
  put_byte-Marked :
      (m : Bool) (b : ℕ)
      → b < 256
      → ((j : ℕ)
          → j < 8
          → bit_test b j ≡ (if j == i % 8 then m else bit_test (h.mem (add32 h.bitmap (i / 8))) j))
      → Marked m i 1 h (put_byte i b h)
  unfolding block_is_used
  put_byte-Marked m b hb bits = record {
    shape = shape;
    bytes = put_byte-IsBytes h v i hi b hb;
    used = λ j hj. ground (
      arith,
      shape,
      bitmap_cell h v j hj,
      bitmap_cell h v i hi,
      put_byte_mem h v i hi b (h.base + j / 8) (omega (arith, v.bits_fit)),
      bits (j % 8) (omega arith),
    );
    rest = λ a far. ground (arith, put_byte_mem h v i hi b a (omega (arith, v.bits_fit)));
  }
    where
      shape : SameShape h (put_byte i b h)
      shape = put_byte_shape h v i hi b

bit_set-lt : (b k : ℕ) → bit_set b k < 256
unfolding bit_set
bit_set-lt b k = omega arith

bit_clear-lt : (b k : ℕ) → bit_clear b k < 256
unfolding bit_clear
bit_clear-lt b k = omega arith

block_set_used-Marked :
    (i : ℕ) (h : Heap) → IsLaidOut h → i < h.block_count → Marked true i 1 h (block_set_used i h)
unfolding block_set_used
block_set_used-Marked i h v hi =
    put_byte-Marked h v i hi true _ (bit_set-lt _ _)
      λ j hj. bit_test-set _ (i % 8) j (v.bytes _) (omega arith) hj

block_set_free-Marked :
    (i : ℕ) (h : Heap) → IsLaidOut h → i < h.block_count → Marked false i 1 h (block_set_free i h)
unfolding block_set_free
block_set_free-Marked i h v hi =
    put_byte-Marked h v i hi false _ (bit_clear-lt _ _)
      λ j hj. bit_test-clear _ (i % 8) j (v.bytes _) (omega arith) hj

Marked-none : (m : Bool) (i : ℕ) (h : Heap) → IsLaidOut h → Marked m i 0 h h
Marked-none m i h v = record {
  shape = omega arith;
  bytes = v.bytes;
  used = λ j hj. ground arith;
  rest = λ a far. refl;
}

Marked-cons :
    (m : Bool) (i n : ℕ) (h k l : Heap)
    → Marked m i 1 h k
    → Marked m (i + 1) n k l
    → Marked m i (suc n) h l
Marked-cons m i n h k l p q = record {
  shape = SameShape-trans p.shape q.shape;
  bytes = q.bytes;
  used = λ j hj. ground (arith, p.shape, p.used j hj, q.used j (omega (arith, p.shape)));
  rest = λ a far. q.rest a (omega (arith, p.shape)) ∙ p.rest a far;
}

pub set_used_range-Marked :
    (i n : ℕ) (h : Heap)
    → IsLaidOut h
    → i + n ≤ h.block_count
    → Marked true i n h (set_used_range i n h)
unfolding set_used_range
set_used_range-Marked i zero h v le = Marked-none true i h v
set_used_range-Marked i (suc n) h v le =
    let first = block_set_used-Marked i h v (omega arith) in
    Marked-cons true i n h (block_set_used i h) _ first (
      set_used_range-Marked (i + 1) n (block_set_used i h)
        (SameShape-IsLaidOut v first.shape first.bytes) (omega (arith, first.shape)))

pub set_free_range-Marked :
    (i n : ℕ) (h : Heap)
    → IsLaidOut h
    → i + n ≤ h.block_count
    → Marked false i n h (set_free_range i n h)
unfolding set_free_range
set_free_range-Marked i zero h v le = Marked-none false i h v
set_free_range-Marked i (suc n) h v le =
    let first = block_set_free-Marked i h v (omega arith) in
    Marked-cons false i n h (block_set_free i h) _ first (
      set_free_range-Marked (i + 1) n (block_set_free i h)
        (SameShape-IsLaidOut v first.shape first.bytes) (omega (arith, first.shape)))
