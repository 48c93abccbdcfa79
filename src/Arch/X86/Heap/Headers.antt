-- ===== src/Arch/X86/Heap/Headers.antt =====
-- The header in front of an allocation, and the write-back of the bitmap, which both leave the
-- blocks' marks alone.
use avr_kernel.Base.{
  ℕ, zero, suc, ◌+◌, ◌*◌, ◌^◌, ◌≤◌, ◌<◌, ◌≡◌, refl, ◌∙◌, arith, false, ◌⊎◌, ◌==◌, add32, upd, get32,
  put32, get32-put32, IsBytes,
}
use avr_kernel.Arch.X86.Heap.{
  Heap, Header, block_is_used, header_write, header_read, write_back, write_back_byte,
  kmalloc_bitmap_write,
}
use avr_kernel.Arch.X86.Heap.Layout.{
  IsLaidOut, SameShape, SameShape-trans, SameShape-IsLaidOut, small,
}

-- `k` has the shape and the block marks of `h`.
pub record SameMarks (h k : Heap) : Type 0 where
  pub shape : SameShape h k
  pub bytes : IsBytes k.mem
  pub used : (j : ℕ) → j < h.block_count → block_is_used j k ≡ block_is_used j h

pub SameMarks-trans : {h k l : Heap} → SameMarks h k → SameMarks k l → SameMarks h l
SameMarks-trans p q = record {
  shape = SameShape-trans p.shape q.shape;
  bytes = q.bytes;
  used = λ j hj. q.used j (omega (arith, hj, p.shape)) ∙ p.used j hj;
}

-- A header that C could hold.
pub record IsHeader (x : Header) : Type 0 where
  pub size : x.size < 2 ^ 32
  pub flags : x.flags < 256
  pub type : x.type < 256
  pub perm : x.perm < 256
  pub magic : x.magic < 256

-- The size is stored apart from the four bytes behind it.
get32-apart :
    (f : ℕ → ℕ) (a v4 v5 v6 v7 : ℕ)
    → get32 (upd (upd (upd (upd f (a + 4) v4) (a + 5) v5) (a + 6) v6) (a + 7) v7) a ≡ get32 f a
unfolding get32
get32-apart f a v4 v5 v6 v7 = ground arith

tail_bytes :
    (f : ℕ → ℕ) (a v4 v5 v6 v7 : ℕ) (g : ℕ → ℕ)
    → g ≡ upd (upd (upd (upd f (a + 4) v4) (a + 5) v5) (a + 6) v6) (a + 7) v7
    → (g (a + 4) ≡ v4) × (g (a + 5) ≡ v5) × (g (a + 6) ≡ v6) × (g (a + 7) ≡ v7)
tail_bytes f a v4 v5 v6 v7 g e = rw e (ground arith, ground arith, ground arith, ground arith)

pub header_read-write :
    (rel : ℕ) (x : Header) (h : Heap) → IsHeader x → header_read rel (header_write rel x h) ≡ x
unfolding header_read header_write
header_read-write rel x h v =
    let a = add32 h.base rel in
    let f = put32 h.mem a x.size in
    ground (
      arith,
      get32-apart f a x.flags x.type x.perm x.magic,
      get32-put32 h.mem a x.size,
      tail_bytes f a x.flags x.type x.perm x.magic _ refl,
      v.size,
    )

pub header_write-SameMarks :
    (rel : ℕ) (x : Header) (h : Heap)
    → IsLaidOut h
    → IsHeader x
    → 2 * h.bitmap_size ≤ rel
    → h.base + rel < 2 ^ 32
    → SameMarks h (header_write rel x h)
unfolding header_write block_is_used put32
header_write-SameMarks rel x h v w apart fits = record {
  shape = ground arith;
  bytes = λ a. ground (arith, w, v.bytes a);
  used = λ j hj. ground (arith, v.bitmap_at, v.bits_fit, v.fits, small v);
}

-- The write-back keeps the data of the pool besides.
pub record WroteBack (h k : Heap) : Type 0 where
  pub marks : SameMarks h k
  pub rest : (a : ℕ) → h.base + 2 * h.bitmap_size ≤ a → k.mem a ≡ h.mem a

WroteBack-self : (h : Heap) → IsBytes h.mem → WroteBack h h
WroteBack-self h bytes = record {
  marks = record { shape = omega arith; bytes = bytes; used = λ j hj. refl };
  rest = λ a far. refl;
}

WroteBack-trans : {h k l : Heap} → WroteBack h k → WroteBack k l → WroteBack h l
WroteBack-trans p q = record {
  marks = SameMarks-trans p.marks q.marks;
  rest = λ a far. q.rest a (omega (arith, far, p.marks.shape)) ∙ p.rest a far;
}

-- In this layout the bitmap is its own destination: a round clears a dirty byte at most.
write_back_byte-WroteBack :
    (index : ℕ) (h : Heap)
    → IsLaidOut h
    → index < h.bitmap_size
    → WroteBack h (write_back_byte index h)
unfolding write_back_byte block_is_used
write_back_byte-WroteBack index h v lt = record {
  marks = record {
    shape = ground arith;
    bytes = λ a. ground (arith, v.bytes a, v.bytes (add32 h.bitmap index));
    used = λ j hj. ground (arith, v.bitmap_at, v.dirty_at, v.bits_fit, small v);
  };
  rest = λ a far. ground (arith, v.bitmap_at, v.dirty_at, small v);
}

write_back-WroteBack :
    (index rounds : ℕ) (h : Heap)
    → IsLaidOut h
    → index + rounds ≡ h.bitmap_size
    → WroteBack h (write_back index rounds h)
unfolding write_back
write_back-WroteBack index zero h v e = WroteBack-self h v.bytes
write_back-WroteBack index (suc rounds) h v e =
    let first = write_back_byte-WroteBack index h v (omega arith) in
    WroteBack-trans first (
      write_back-WroteBack (index + 1) rounds (write_back_byte index h)
        (SameShape-IsLaidOut v first.marks.shape first.marks.bytes)
        (omega (arith, first.marks.shape)))

pub kmalloc_bitmap_write-WroteBack : (h : Heap) → IsLaidOut h → WroteBack h (kmalloc_bitmap_write h)
unfolding kmalloc_bitmap_write
kmalloc_bitmap_write-WroteBack h v =
    let set : (h.bitmap == 0) ≡ false = ground (arith, v.bitmap_at, v.non_null) in
    let tracked : (h.dirty == 0) ≡ false = ground (arith, v.dirty_at, v.non_null) in
    rw (set, tracked) (write_back-WroteBack 0 h.bitmap_size h v (omega arith))

-- A header is read the same when its eight bytes are the same.
pub header_read-rest :
    (rel : ℕ) (h k : Heap)
    → k.base ≡ h.base
    → h.base + rel < 2 ^ 32
    → ((b : ℕ) → h.base + rel ≤ b → b < h.base + rel + 8 → k.mem b ≡ h.mem b)
    → header_read rel k ≡ header_read rel h
unfolding header_read get32
header_read-rest rel h k base fits same =
    rw (base, cell)
      (ground (
        arith,
        same (h.base + rel) (omega arith) (omega arith),
        same (h.base + rel + 1) (omega arith) (omega arith),
        same (h.base + rel + 2) (omega arith) (omega arith),
        same (h.base + rel + 3) (omega arith) (omega arith),
        same (h.base + rel + 4) (omega arith) (omega arith),
        same (h.base + rel + 5) (omega arith) (omega arith),
        same (h.base + rel + 6) (omega arith) (omega arith),
        same (h.base + rel + 7) (omega arith) (omega arith),
      ))
  where
    cell : add32 h.base rel ≡ h.base + rel
    cell = omega arith

-- In particular after the write-back.
pub header_read-WroteBack :
    (rel : ℕ) (h k : Heap)
    → WroteBack h k
    → 2 * h.bitmap_size ≤ rel
    → h.base + rel < 2 ^ 32
    → header_read rel k ≡ header_read rel h
header_read-WroteBack rel h k w apart fits =
    header_read-rest rel h k w.marks.shape.base fits λ b far near. w.rest b (omega arith)

-- Writing a header changes its eight bytes only.
pub header_write-rest :
    (rel : ℕ) (x : Header) (h : Heap) (b : ℕ)
    → h.base + rel < 2 ^ 32
    → (b < h.base + rel) ⊎ (h.base + rel + 8 ≤ b)
    → (header_write rel x h).mem b ≡ h.mem b
unfolding header_write put32
header_write-rest rel x h b fits away = ground arith
