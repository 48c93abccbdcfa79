-- ===== src/Fs/Bitmap/Blocks.antt =====
-- Which blocks are in use, and what the operations on single bits do to them.
use avr_kernel.Base.{
  ℕ, ◌+◌, ◌-◌, ◌/◌, ◌%◌, ◌<◌, ◌≡◌, refl, ◌∙◌, arith, Bool, true, false, ◌&&◌, inl, inr,
  if◌then◌else◌, leb, ltb, ◌==◌, sub32, upd, bit_test, bit_set, bit_clear, Bool-cases,
}
use avr_kernel.Fs.Cache.Content.{content}
use avr_kernel.Fs.Bitmap.{Context, fs_bitmap_sync, fs_bitmap_get, fs_bitmap_set, fs_bitmap_clear}
use avr_kernel.Fs.Bitmap.Bits.{bit_test-bit_set, bit_test-bit_clear}
use avr_kernel.Fs.Bitmap.Frame.{
  bitmap_byte, IsFramed, Kept, SameSizes, outside, IsFocused, fs_bitmap_sync-IsFocused,
}

-- The bit of block `i`, through the frame.
unfoldable pub block_is_used : (i : ℕ) → Context → Bool
block_is_used i c = bit_test (bitmap_byte c (i / 8)) (i % 8)

-- `d` is `c` with the blocks from `i` on, `n` of them, marked `v`.
pub record Marked (v : Bool) (i n : ℕ) (c d : Context) : Type 0 where
  pub framed : IsFramed d
  pub sizes : SameSizes c d
  pub used :
      (j : ℕ)
      → j < c.block_count
      → block_is_used j d ≡ (if leb i j && ltb j (i + n) then v else block_is_used j c)
  pub rest : (a : ℕ) → outside c.bitmap_size a ≡ true → content d.cache a ≡ content c.cache a

pub Kept-Marked : (v : Bool) (i : ℕ) (c d : Context) → IsFramed c → Kept c d → Marked v i 0 c d
unfolding block_is_used
Kept-Marked v i c d f k = record {
  framed = k.framed;
  sizes = k.sizes;
  used = λ j lt. ground (arith, k.bits (j / 8) (omega (arith, f.size)));
  rest = k.rest;
}

pub Kept-block_is_used :
    (j : ℕ) (c d : Context)
    → IsFramed c
    → Kept c d
    → j < c.block_count
    → block_is_used j d ≡ block_is_used j c
unfolding block_is_used
Kept-block_is_used j c d v k lt = ground (arith, k.bits (j / 8) (omega (arith, v.size)))

pub Marked-join :
    (v : Bool) (i m n l : ℕ) (c d e : Context)
    → l ≡ m + n
    → Marked v i m c d
    → Marked v (i + m) n d e
    → Marked v i l c e
Marked-join v i m n l c d e total p q = record {
  framed = q.framed;
  sizes = omega (arith, p.sizes, q.sizes);
  used = λ j lt. ground (arith, p.used j lt, q.used j (omega (arith, p.sizes)));
  rest = λ a o. q.rest a (ground (arith, o, p.sizes)) ∙ p.rest a o;
}

pub Marked-Kept :
    (v : Bool) (i n : ℕ) (c d e : Context)
    → IsFramed d
    → Marked v i n c d
    → Kept d e
    → Marked v i n c e
Marked-Kept v i n c d e f p k = record {
  framed = k.framed;
  sizes = omega (arith, p.sizes, k.sizes);
  used = λ j lt. Kept-block_is_used j d e f k (omega (arith, p.sizes)) ∙ p.used j lt;
  rest = λ a o. k.rest a (ground (arith, o, p.sizes)) ∙ p.rest a o;
}

pub Kept-then-Marked :
    (v : Bool) (i n : ℕ) (c d e : Context)
    → IsFramed c
    → Kept c d
    → Marked v i n d e
    → Marked v i n c e
Kept-then-Marked v i n c d e f k p = record {
  framed = p.framed;
  sizes = omega (arith, p.sizes, k.sizes);
  used = λ j lt. ground (arith, p.used j (omega (arith, k.sizes)), Kept-block_is_used j c d f k lt);
  rest = λ a o. p.rest a (ground (arith, o, k.sizes)) ∙ k.rest a o;
}

-- The byte of the frame that a focused context works on.
focused_byte :
    (index : ℕ) (c d : Context)
    → IsFramed c
    → index < c.block_count
    → IsFocused index c d
    → d.frame_bitmap (sub32 (index / 8) d.frame_offset) ≡ bitmap_byte d (index / 8)
unfolding bitmap_byte
focused_byte index c d v lt f =
    let k = index / 8 - d.frame_offset in
    let local : sub32 (index / 8) d.frame_offset ≡ k = omega (arith, f.low, f.high, v.small) in
    rw local (elim (Bool-cases d.frame_dirty) [
      | inl e ↦ ground (arith, e, f.low, f.high)
      | inr e ↦
          let clean =
            f.kept.framed.clean k e (omega (arith, f.low, f.high))
              (omega (arith, f.low, f.kept.sizes, v.size)) in
          ground (arith, e, clean, f.low)
    ])

-- fs_bitmap_get answers whether the block is in use, and changes neither the bitmap nor the disk.
pub fs_bitmap_get-block_is_used :
    (index : ℕ) (c : Context)
    → IsFramed c
    → index < c.block_count
    → ((fs_bitmap_get index c).0 ≡ block_is_used index c) × Kept c (fs_bitmap_get index c).1
unfolding fs_bitmap_get block_is_used
fs_bitmap_get-block_is_used index c v lt =
    let f = fs_bitmap_sync-IsFocused index c v lt in
    (
      rw
          (
            focused_byte index c (fs_bitmap_sync index c) v lt f,
            f.kept.bits (index / 8) (omega (arith, v.size)),
          )
          refl,
      f.kept,
    )

-- The byte of block `index` replaced in the frame of a focused context.
put_byte : (index b : ℕ) → Context → Context
put_byte index b d = record d {
  frame_bitmap = upd d.frame_bitmap (sub32 (index / 8) d.frame_offset) b;
  frame_dirty = true;
}

put_byte-bitmap_byte :
    (index b : ℕ) (c d : Context)
    → IsFramed c
    → index < c.block_count
    → IsFocused index c d
    → (j : ℕ) → j < c.bitmap_size
    → bitmap_byte (put_byte index b d) j ≡ (if j == index / 8 then b else bitmap_byte d j)
unfolding put_byte bitmap_byte
put_byte-bitmap_byte index b c d v lt f j lt_j =
    let local : sub32 (index / 8) d.frame_offset ≡ index / 8 - d.frame_offset =
      omega (arith, f.low, f.high, v.small) in
    elim (Bool-cases (d.frame_dirty)) [
      | inl e ↦ ground (arith, e, local, f.low, f.high)
      | inr e ↦
          ground (
            arith,
            e,
            local,
            f.low,
            f.high,
            f.kept.sizes,
            f.kept.framed.clean (j - d.frame_offset) e,
          )
    ]

put_byte-IsFramed :
    (index b : ℕ) (c d : Context)
    → IsFramed c
    → index < c.block_count
    → IsFocused index c d
    → IsFramed (put_byte index b d)
unfolding put_byte
put_byte-IsFramed index b c d v lt f = record {
  ready = f.kept.framed.ready;
  size = f.kept.framed.size;
  small = f.kept.framed.small;
  none_clean = λ h. absurd (omega (arith, f.low, v.small));
  place = f.kept.framed.place;
  clean = λ k h. cc;
}

put_byte-Marked :
    (m : Bool) (index b : ℕ) (c d : Context)
    → IsFramed c
    → index < c.block_count
    → IsFocused index c d
    → ((j : ℕ)
        → j < 8
        → bit_test b j ≡ (
            if j == index % 8
            then m
            else bit_test (d.frame_bitmap (sub32 (index / 8) d.frame_offset)) j))
    → Marked m index 1 c (put_byte index b d)
unfolding block_is_used put_byte
put_byte-Marked m index b c d v lt f bits = record {
  framed = put_byte-IsFramed index b c d v lt f;
  sizes = f.kept.sizes;
  used = λ j lt_j. ground (
    arith,
    put_byte-bitmap_byte index b c d v lt f (j / 8) (omega (arith, v.size)),
    f.kept.bits (j / 8) (omega (arith, v.size)),
    f.kept.bits (index / 8) (omega (arith, v.size)),
    focused_byte index c d v lt f,
    bits (j % 8) (omega arith),
  );
  rest = f.kept.rest;
}

-- Nothing to write where the bit is right already.
focused-Marked :
    (m : Bool) (index : ℕ) (c d : Context)
    → IsFramed c
    → index < c.block_count
    → IsFocused index c d
    → bit_test (d.frame_bitmap (sub32 (index / 8) d.frame_offset)) (index % 8) ≡ m
    → Marked m index 1 c d
unfolding block_is_used
focused-Marked m index c d v lt f same = record {
  framed = f.kept.framed;
  sizes = f.kept.sizes;
  used = λ j lt_j.
      ground
        (arith, f.kept.bits (j / 8) (omega (arith, v.size)), focused_byte index c d v lt f, same);
  rest = f.kept.rest;
}

pub fs_bitmap_set-Marked :
    (index : ℕ) (c : Context)
    → IsFramed c
    → index < c.block_count
    → Marked true index 1 c (fs_bitmap_set index c)
unfolding fs_bitmap_set put_byte
fs_bitmap_set-Marked index c v lt =
    let d = fs_bitmap_sync index c in
    let f = fs_bitmap_sync-IsFocused index c v lt in
    let old = d.frame_bitmap (sub32 (index / 8) d.frame_offset) in
    elim (Bool-cases (bit_test old (index % 8))) [
      | inl e ↦ rw e (focused-Marked true index c d v lt f e)
      | inr e ↦ rw e (
          put_byte-Marked true index (bit_set old (index % 8)) c d v lt f
            (λ j lt_j. bit_test-bit_set old (index % 8) j lt_j))
    ]

pub fs_bitmap_clear-Marked :
    (index : ℕ) (c : Context)
    → IsFramed c
    → index < c.block_count
    → Marked false index 1 c (fs_bitmap_clear index c)
unfolding fs_bitmap_clear put_byte
fs_bitmap_clear-Marked index c v lt =
    let d = fs_bitmap_sync index c in
    let f = fs_bitmap_sync-IsFocused index c v lt in
    let old = d.frame_bitmap (sub32 (index / 8) d.frame_offset) in
    elim (Bool-cases (bit_test old (index % 8))) [
      | inl e ↦ rw e (
          put_byte-Marked false index (bit_clear old (index % 8)) c d v lt f
            (λ j lt_j. bit_test-bit_clear old (index % 8) j (omega arith) lt_j))
      | inr e ↦ rw e (focused-Marked false index c d v lt f e)
    ]

-- fs_bitmap_get after fs_bitmap_set and fs_bitmap_clear of blocks that the disk has, on a drive that
-- never fails, whichever frame of the bitmap is loaded, clean or dirty: the block that was set is in use, the block that was cleared is free, and every other one is as it was.
pub fs_bitmap_get-set :
    (i j : ℕ) (c : Context)
    → IsFramed c
    → i < c.block_count
    → j < c.block_count
    → ((fs_bitmap_get j (fs_bitmap_set i c)).0 ≡ (if j == i then true else (fs_bitmap_get j c).0))
      × ((fs_bitmap_get j (fs_bitmap_clear i c)).0
          ≡ (if j == i then false else (fs_bitmap_get j c).0))
fs_bitmap_get-set i j c v lt_i lt_j =
    let before = (fs_bitmap_get-block_is_used j c v lt_j).0 in
    let set = fs_bitmap_set-Marked i c v lt_i in
    let clear = fs_bitmap_clear-Marked i c v lt_i in
    let after_set =
      (fs_bitmap_get-block_is_used j (fs_bitmap_set i c) set.framed
        (omega (arith, set.sizes, lt_j))).0 in
    let after_clear =
      (fs_bitmap_get-block_is_used j (fs_bitmap_clear i c) clear.framed
        (omega (arith, clear.sizes, lt_j))).0 in
    (
      after_set ∙ ground (arith, set.used j lt_j, before),
      after_clear ∙ ground (arith, clear.used j lt_j, before),
    )
