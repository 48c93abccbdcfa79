-- ===== src/Fs/Bitmap/Frame.antt =====
-- The bitmap as one sequence of bytes: a dirty frame stands before the disk.
use avr_kernel.Base.{
  ℕ, ◌+◌, ◌-◌, ◌*◌, ◌/◌, ◌%◌, ◌^◌, ◌<◌, ◌≤◌, ◌≡◌, refl, ◌∙◌, arith, ◌⊎◌, inl, inr, Bool, true,
  false, ◌&&◌, ◌||◌, if◌then◌else◌, leb, ltb, ◌!=◌, add32, Bool-cases,
}
use avr_kernel.Fs.Cache.{fs_mem_read, fs_mem_write}
use avr_kernel.Fs.Cache.Content.{content, IsReady}
use avr_kernel.Fs.Cache.Bytes.{IsRead, IsStored, fs_mem_read-IsRead, fs_mem_write-IsStored}
use avr_kernel.Fs.Bitmap.{
  Context, frame_size, no_frame, fs_bitmap_address, frame_bytes, fs_bitmap_flush, fs_bitmap_sync,
}

unfoldable pub bitmap_byte : Context → (j : ℕ) → ℕ
bitmap_byte c j =
    if c.frame_dirty && leb c.frame_offset j && ltb j (c.frame_offset + frame_size)
    then c.frame_bitmap (j - c.frame_offset)
    else content c.cache (48 + j)

-- The frame is none or lies in the bitmap, and a clean one has what the disk has. The drive never fails.
pub record IsFramed (c : Context) : Type 0 where
  pub ready : IsReady c.cache
  pub size : c.bitmap_size ≡ (c.block_count + 7) / 8
  pub small : c.block_count < 2 ^ 32
  pub none_clean : c.frame_offset ≡ no_frame → c.frame_dirty ≡ false
  pub place :
      (c.frame_offset ≡ no_frame)
      ⊎ ((c.frame_offset % frame_size ≡ 0) × (c.frame_offset < c.bitmap_size))
  pub clean :
      (k : ℕ)
      → c.frame_dirty ≡ false
      → k < frame_size
      → c.frame_offset + k < c.bitmap_size
      → c.frame_bitmap k ≡ content c.cache (48 + (c.frame_offset + k))

-- An address outside the bitmap.
abbrev pub outside : (bitmap_size a : ℕ) → Bool
outside bitmap_size a = ltb a 48 || leb (48 + bitmap_size) a

abbrev pub SameSizes : Context → Context → Type 0
SameSizes c d =
    (d.sector_size ≡ c.sector_size)
    × (d.pool_size ≡ c.pool_size)
    × (d.block_count ≡ c.block_count)
    × (d.bitmap_size ≡ c.bitmap_size)
    × (d.reserved_blocks ≡ c.reserved_blocks)

-- `d` is `c` with the same bitmap and the same disk outside it.
pub record Kept (c d : Context) : Type 0 where
  pub framed : IsFramed d
  pub sizes : SameSizes c d
  pub bits : (j : ℕ) → j < c.bitmap_size → bitmap_byte d j ≡ bitmap_byte c j
  pub rest : (a : ℕ) → outside c.bitmap_size a ≡ true → content d.cache a ≡ content c.cache a

pub Kept-refl : (c : Context) → IsFramed c → Kept c c
Kept-refl c v = record { framed = v; sizes = omega arith; bits = λ j lt. refl; rest = λ a o. refl }

-- The bytes of a frame in the bitmap: 32, or as many as the bitmap has.
frame_bytes_lem :
    (offset : ℕ) (c : Context)
    → IsFramed c
    → offset < c.bitmap_size
    → (frame_bytes offset c ≤ frame_size)
      × (offset + frame_bytes offset c ≤ c.bitmap_size)
      × (frame_bytes offset c ≡ frame_size ⊎ offset + frame_bytes offset c ≡ c.bitmap_size)
unfolding frame_bytes
frame_bytes_lem offset c v lt = ground (arith, v.size, v.small)

fs_bitmap_address_add :
    (offset : ℕ) (c : Context)
    → IsFramed c
    → offset < c.bitmap_size
    → (add32 fs_bitmap_address offset ≡ 48 + offset)
      × (add32 fs_bitmap_address offset + 0 + frame_bytes offset c ≤ 2 ^ 32)
unfolding fs_bitmap_address
fs_bitmap_address_add offset c v lt = omega (arith, v.size, v.small, frame_bytes_lem offset c v lt)

-- The flush of a dirty frame.
flushed : Context → Context
flushed c = record c {
  cache =
      fs_mem_write (frame_bytes c.frame_offset c) 0 (add32 fs_bitmap_address c.frame_offset)
        c.frame_bitmap c.cache;
  frame_dirty = false;
}

flushed-Kept :
    (c : Context)
    → IsFramed c
    → c.frame_dirty ≡ true
    → c.frame_offset < c.bitmap_size
    → Kept c (flushed c)
unfolding flushed bitmap_byte
flushed-Kept c v e lt = record {
  framed = record {
    ready = s.ready;
    size = v.size;
    small = v.small;
    none_clean = λ h. refl;
    place = v.place;
    clean = λ k h lt_k inside. ground (arith, extent, at.0, s.bytes (48 + (c.frame_offset + k)));
  };
  sizes = omega arith;
  bits = λ j lt_j. ground (arith, e, extent, at.0, s.bytes (48 + j));
  rest = λ a o. ground (arith, o, extent, at.0, s.bytes a);
}
  where
    extent :
        (frame_bytes c.frame_offset c ≤ frame_size)
        × (c.frame_offset + frame_bytes c.frame_offset c ≤ c.bitmap_size)
        × (frame_bytes c.frame_offset c ≡ frame_size
            ⊎ c.frame_offset + frame_bytes c.frame_offset c ≡ c.bitmap_size)
    extent = frame_bytes_lem c.frame_offset c v lt

    at :
        (add32 fs_bitmap_address c.frame_offset ≡ 48 + c.frame_offset)
        × (add32 fs_bitmap_address c.frame_offset + 0 + frame_bytes c.frame_offset c ≤ 2 ^ 32)
    at = fs_bitmap_address_add c.frame_offset c v lt

    s :
        IsStored
          (frame_bytes c.frame_offset c)
          0
          (add32 fs_bitmap_address c.frame_offset)
          c.frame_bitmap
          c.cache
          (flushed c).cache
    s = fs_mem_write-IsStored _ 0 _ c.frame_bitmap c.cache v.ready at.1

pub fs_bitmap_flush-Kept :
    (c : Context)
    → IsFramed c
    → Kept c (fs_bitmap_flush c)
      × ((fs_bitmap_flush c).frame_dirty ≡ false)
      × ((fs_bitmap_flush c).frame_offset ≡ c.frame_offset)
unfolding fs_bitmap_flush flushed
fs_bitmap_flush-Kept c v = elim (Bool-cases (c.frame_dirty && c.frame_offset != no_frame)) [
  | inl e ↦ rw e (flushed-Kept c v (ground (arith, e)) (ground (arith, e, v.place)), refl, refl)
  | inr e ↦ rw e (Kept-refl c v, ground (arith, e, v.none_clean), refl)
]

pub Kept-trans : (c d e : Context) → Kept c d → Kept d e → Kept c e
Kept-trans c d e p q = record {
  framed = q.framed;
  sizes = omega (arith, p.sizes, q.sizes);
  bits = λ j lt. q.bits j (omega (arith, p.sizes)) ∙ p.bits j lt;
  rest = λ a o. q.rest a (ground (arith, o, p.sizes)) ∙ p.rest a o;
}

-- A clean context whose frame is moved to `offset`.
moved : (offset : ℕ) → Context → Context
moved offset c = record c {
  frame_offset = offset;
  frame_bitmap =
      (fs_mem_read (frame_bytes offset c) 0 (add32 fs_bitmap_address offset) c.frame_bitmap
        c.cache).0;
  frame_dirty = false;
  cache =
      (fs_mem_read (frame_bytes offset c) 0 (add32 fs_bitmap_address offset) c.frame_bitmap
        c.cache).1;
}

moved-Kept :
    (offset : ℕ) (c : Context)
    → IsFramed c
    → c.frame_dirty ≡ false
    → offset < c.bitmap_size
    → offset % frame_size ≡ 0
    → Kept c (moved offset c)
unfolding moved bitmap_byte
moved-Kept offset c v e lt aligned = record {
  framed = record {
    ready = r.ready;
    size = v.size;
    small = v.small;
    none_clean = λ h. refl;
    place = inr (aligned, lt);
    clean = λ k h lt_k inside. ground (arith, extent, at.0, r.bytes k, r.same (48 + (offset + k)));
  };
  sizes = omega arith;
  bits = λ j lt_j. ground (arith, e, r.same (48 + j));
  rest = λ a o. r.same a;
}
  where
    extent :
        (frame_bytes offset c ≤ frame_size)
        × (offset + frame_bytes offset c ≤ c.bitmap_size)
        × (frame_bytes offset c ≡ frame_size ⊎ offset + frame_bytes offset c ≡ c.bitmap_size)
    extent = frame_bytes_lem offset c v lt

    at :
        (add32 fs_bitmap_address offset ≡ 48 + offset)
        × (add32 fs_bitmap_address offset + 0 + frame_bytes offset c ≤ 2 ^ 32)
    at = fs_bitmap_address_add offset c v lt

    r : IsRead (frame_bytes offset c) 0 (add32 fs_bitmap_address offset) c.frame_bitmap c.cache (
        fs_mem_read
          (frame_bytes offset c)
          0
          (add32 fs_bitmap_address offset)
          c.frame_bitmap
          c.cache)
    r = fs_mem_read-IsRead _ 0 _ c.frame_bitmap c.cache v.ready at.1

-- `d` is `c` with the frame on the byte of block `index`.
pub record IsFocused (index : ℕ) (c d : Context) : Type 0 where
  pub kept : Kept c d
  pub low : d.frame_offset ≤ index / 8
  pub high : index / 8 < d.frame_offset + frame_size

pub fs_bitmap_sync-IsFocused :
    (index : ℕ) (c : Context)
    → IsFramed c
    → index < c.block_count
    → IsFocused index c (fs_bitmap_sync index c)
unfolding fs_bitmap_sync moved
fs_bitmap_sync-IsFocused index c v lt =
    let start = index / 8 / frame_size * frame_size in
    elim (Bool-cases (c.frame_offset != start)) [
      | inl e ↦
          let (k, clean, same) = fs_bitmap_flush-Kept c v in
          rw e (record {
            kept = Kept-trans c (fs_bitmap_flush c) _ k (
                moved-Kept start (fs_bitmap_flush c) k.framed clean (omega (arith, k.sizes, v.size))
                  (omega arith));
            low = omega arith;
            high = omega arith;
          })
      | inr e ↦
          rw e (record { kept = Kept-refl c v; low = ground (arith, e); high = ground (arith, e) })
    ]
