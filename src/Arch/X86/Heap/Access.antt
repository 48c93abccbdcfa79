-- ===== src/Arch/X86/Heap/Access.antt =====
-- The accessors of kernel/arch/x86/heap.c: kmalloc_get_* and kmalloc_set_*.
use avr_kernel.Base.{
  ℕ, ◌+◌, ◌*◌, ◌<◌, ◌≡◌, refl, ◌∙◌, ap, arith, true, not, if◌then◌else◌, add32, sub32, get32-lt,
}
use avr_kernel.Arch.X86.Heap.{
  Heap, Header, kmalloc_is_valid, kmalloc_magic, header_size, header_of, header_read, header_write,
}
use avr_kernel.Arch.X86.Heap.Layout.{IsLaidOut, SameShape-IsLaidOut}
use avr_kernel.Arch.X86.Heap.Headers.{
  SameMarks, IsHeader, header_read-write, header_write-SameMarks,
}
use avr_kernel.Arch.X86.Heap.Alloc.{blocks_for, start_bounds}
use avr_kernel.Arch.X86.Heap.Live.{IsLive, inside, header_of-payload, kmalloc_is_valid-IsLive}
use avr_kernel.Arch.X86.Heap.Safety.{IsLive-shape}

abbrev own_header : ℕ → Heap → Header
own_header address h = header_read (header_of address h) h

pub kmalloc_get_type : ℕ → Heap → ℕ
kmalloc_get_type address h =
    if not (kmalloc_is_valid address h) then 0 else (own_header address h).type

pub kmalloc_get_flags : ℕ → Heap → ℕ
kmalloc_get_flags address h =
    if not (kmalloc_is_valid address h) then 0 else (own_header address h).flags

pub kmalloc_get_permissions : ℕ → Heap → ℕ
kmalloc_get_permissions address h =
    if not (kmalloc_is_valid address h) then 0 else (own_header address h).perm

pub kmalloc_get_size : ℕ → Heap → ℕ
kmalloc_get_size address h =
    if not (kmalloc_is_valid address h) then 0 else (own_header address h).size

pub kmalloc_set_type : ℕ → ℕ → Heap → Heap
kmalloc_set_type address type h =
    if not (kmalloc_is_valid address h)
    then h
    else header_write (header_of address h) (record (own_header address h) { type = type }) h

pub kmalloc_set_flags : ℕ → ℕ → Heap → Heap
kmalloc_set_flags address flags h =
    if not (kmalloc_is_valid address h)
    then h
    else header_write (header_of address h) (record (own_header address h) { flags = flags }) h

pub kmalloc_set_permissions : ℕ → ℕ → Heap → Heap
kmalloc_set_permissions address permissions h =
    if not (kmalloc_is_valid address h)
    then h
    else header_write (header_of address h) (record (own_header address h) { perm = permissions }) h

header_read-IsHeader : (rel : ℕ) (h : Heap) → IsLaidOut h → IsHeader (header_read rel h)
unfolding header_read
header_read-IsHeader rel h v =
    let a = add32 h.base rel in
    record {
      size = get32-lt h.mem a v.bytes;
      flags = v.bytes (a + 4);
      type = v.bytes (a + 5);
      perm = v.bytes (a + 6);
      magic = v.bytes (a + 7);
    }

-- `k` is `h` but for the header of the live allocation at `a`, which is `x` now.
record IsReplaced (size start : ℕ) (h : Heap) (a : ℕ) (x : Header) (k : Heap) : Type 0 where
  live : IsLive size start k a
  valid : kmalloc_is_valid a k ≡ true
  header : own_header a k ≡ x
  marks : SameMarks h k

header_write-IsReplaced :
    (size start : ℕ) (h : Heap) (a : ℕ) (x : Header)
    → IsLaidOut h
    → IsLive size start h a
    → IsHeader x
    → x.size ≡ size
    → x.magic ≡ kmalloc_magic
    → IsReplaced size start h a x (header_write (header_of a h) x h)
header_write-IsReplaced size start h a x v l w es em = rw rel record {
  live = live;
  valid = kmalloc_is_valid-IsLive size start k a laid_out live;
  header = own;
  marks = marks;
}
  where
    rel : header_of a h ≡ start * h.block_size
    rel = header_of-payload size start h a v l

    r : ℕ
    r = start * h.block_size

    k : Heap
    k = header_write r x h

    marks : SameMarks h k
    marks =
        header_write-SameMarks r x h v w
          (omega (arith, start_bounds start (blocks_for size h) h v l.low l.high))
          (omega (arith, inside size start h a v l, v.fits))

    laid_out : IsLaidOut k
    laid_out = SameShape-IsLaidOut v marks.shape marks.bytes

    read : header_read r k ≡ x
    read = header_read-write r x h w

    live : IsLive size start k a
    live =
        IsLive-shape size start h k a marks.shape l.low l.high l.payload l.positive l.size_fits
          (λ j lo hi. marks.used j (omega (arith, hi, l.high)) ∙ l.used_at j lo hi) x read es em

    own : own_header a k ≡ x
    own =
        ap (λ (b : ℕ). header_read (sub32 (sub32 a header_size) b) k) marks.shape.base
        ∙ ap (λ (b : ℕ). header_read b k) rel
        ∙ read

-- Each setter, called with `v`, changes what its own getter answers to `v`, and what no other getter
-- answers; the allocation stays live, and no block mark changes.
abbrev pub SetGet : (size start : ℕ) (h : Heap) (a v : ℕ) → Type 0
SetGet size start h a v =
    ((kmalloc_get_type a (kmalloc_set_type a v h) ≡ v)
      × (kmalloc_get_flags a (kmalloc_set_type a v h) ≡ kmalloc_get_flags a h)
      × (kmalloc_get_permissions a (kmalloc_set_type a v h) ≡ kmalloc_get_permissions a h)
      × (kmalloc_get_size a (kmalloc_set_type a v h) ≡ size)
      × IsLive size start (kmalloc_set_type a v h) a
      × SameMarks h (kmalloc_set_type a v h))
    × ((kmalloc_get_flags a (kmalloc_set_flags a v h) ≡ v)
        × (kmalloc_get_type a (kmalloc_set_flags a v h) ≡ kmalloc_get_type a h)
        × (kmalloc_get_permissions a (kmalloc_set_flags a v h) ≡ kmalloc_get_permissions a h)
        × (kmalloc_get_size a (kmalloc_set_flags a v h) ≡ size)
        × IsLive size start (kmalloc_set_flags a v h) a
        × SameMarks h (kmalloc_set_flags a v h))
    × ((kmalloc_get_permissions a (kmalloc_set_permissions a v h) ≡ v)
        × (kmalloc_get_type a (kmalloc_set_permissions a v h) ≡ kmalloc_get_type a h)
        × (kmalloc_get_flags a (kmalloc_set_permissions a v h) ≡ kmalloc_get_flags a h)
        × (kmalloc_get_size a (kmalloc_set_permissions a v h) ≡ size)
        × IsLive size start (kmalloc_set_permissions a v h) a
        × SameMarks h (kmalloc_set_permissions a v h))

-- In a laid-out heap, on a live allocation `kmalloc_set_type`, `kmalloc_set_flags` and `kmalloc_set_permissions` with a
-- byte each change what the getter of the same name answers to that byte, and what the other getters
-- answer not at all; the size is kept, the allocation stays live, and no block mark changes.
pub kmalloc_set-get :
    (size start : ℕ) (h : Heap) (a v : ℕ)
    → IsLaidOut h
    → IsLive size start h a
    → v < 256
    → SetGet size start h a v
unfolding kmalloc_get_type kmalloc_get_flags kmalloc_get_permissions kmalloc_get_size
    kmalloc_set_type kmalloc_set_flags kmalloc_set_permissions
kmalloc_set-get size start h a v laid l lt = rw valid (
  rw (typed.valid, typed.header) (refl, refl, refl, es, typed.live, typed.marks),
  rw (flagged.valid, flagged.header) (refl, refl, refl, es, flagged.live, flagged.marks),
  rw (permitted.valid, permitted.header) (refl, refl, refl, es, permitted.live, permitted.marks),
)
  where
    valid : kmalloc_is_valid a h ≡ true
    valid = kmalloc_is_valid-IsLive size start h a laid l

    old : Header
    old = own_header a h

    ok : IsHeader old
    ok = header_read-IsHeader (header_of a h) h laid

    es : old.size ≡ size
    es =
        ap (λ (b : ℕ). (header_read b h).size) (header_of-payload size start h a laid l) ∙ l.size_at

    em : old.magic ≡ kmalloc_magic
    em =
        ap (λ (b : ℕ). (header_read b h).magic) (header_of-payload size start h a laid l)
        ∙ l.magic_at

    typed :
        IsReplaced size start h a
          (record old { type = v })
          (header_write (header_of a h) (record old { type = v }) h)
    typed = header_write-IsReplaced size start h a _ laid l (omega (arith, ok, lt)) es em

    flagged :
        IsReplaced size start h a
          (record old { flags = v })
          (header_write (header_of a h) (record old { flags = v }) h)
    flagged = header_write-IsReplaced size start h a _ laid l (omega (arith, ok, lt)) es em

    permitted :
        IsReplaced size start h a
          (record old { perm = v })
          (header_write (header_of a h) (record old { perm = v }) h)
    permitted = header_write-IsReplaced size start h a _ laid l (omega (arith, ok, lt)) es em
