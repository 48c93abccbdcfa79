-- ===== src/Fs/File/Chain.antt =====
-- A file's contents, as the bytes of its chain of extents.
use avr_kernel.Base.{
  ℕ, ◌+◌, ◌-◌, ◌^◌, ◌<◌, ◌≤◌, ◌≡◌, refl, ◌∙◌, arith, Bool-cases, inl, inr, true, false, ◌&&◌, some,
  List, [], ◌∷◌, if◌then◌else◌, leb, ltb, ◌==◌, add32, sub32, get32,
}
use avr_kernel.Fs.Cache.Content.{content}
use avr_kernel.Fs.Bitmap.{Context}
use avr_kernel.Fs.Bitmap.Frame.{IsFramed}
use avr_kernel.Fs.Device.{fs_null, read_struct, read_header}
use avr_kernel.Fs.Device.Words.{read_struct-Kept, read_header-Kept}
use avr_kernel.Fs.File.{file_extent_size, extent_read, Progress, read_into, read_extent}

-- The extents from `address` on: where each one is, and the bytes that it holds.
abbrev pub IsChain : (m : ℕ → ℕ) → (address : ℕ) → List (ℕ × ℕ) → Type 0
IsChain m address [] = address ≡ fs_null
IsChain m address ((e, n) ∷ rest) =
    (address ≡ e)
    × (4 ≤ e)
    × (e + file_extent_size + n < 2 ^ 32)
    × (file_extent_size ≤ get32 m (e - 4))
    × (get32 m (e + 8) ≡ n)
    × IsChain m (get32 m e) rest

abbrev pub chain_size : List (ℕ × ℕ) → ℕ
chain_size [] = 0
chain_size ((e, n) ∷ rest) = n + chain_size rest

-- Byte `k` of the contents.
abbrev pub file_byte : (m : ℕ → ℕ) → List (ℕ × ℕ) → (k : ℕ) → ℕ
file_byte m [] k = 0
file_byte m ((e, n) ∷ rest) k =
    if ltb k n then m (e + file_extent_size + k) else file_byte m rest (k - n)

-- The disk holds `m`, and its drive never fails.
pub record Holds (m : ℕ → ℕ) (c : Context) : Type 0 where
  pub framed : IsFramed c
  pub same : (x : ℕ) → content c.cache x ≡ m x

pub read_struct-Holds :
    (size address : ℕ) (m : ℕ → ℕ) (c : Context)
    → Holds m c
    → address + size ≤ 2 ^ 32
    → Holds m (read_struct size address c).1
      × ((k : ℕ) → k < size → (read_struct size address c).0 k ≡ m (address + k))
read_struct-Holds size address m c v le =
    let (k, b, same) = read_struct-Kept size address c v.framed le in
    (
      record { framed = k.framed; same = λ x. same x ∙ v.same x },
      λ i lt. b i lt ∙ v.same (address + i),
    )

pub word-eq :
    (a b : ℕ) (m m' : ℕ → ℕ) → ((k : ℕ) → k < 4 → m' (a + k) ≡ m (b + k)) → get32 m' a ≡ get32 m b
unfolding get32
word-eq a b m m' h = omega (arith, first, h 1, h 2, h 3)
  where
    first : m' a ≡ m b
    first = ground (arith, h 0)

pub read_header-Holds :
    (address : ℕ) (m : ℕ → ℕ) (c : Context)
    → Holds m c
    → address + 4 ≤ 2 ^ 32
    → Holds m (read_header address c).1 × ((read_header address c).0 ≡ get32 m address)
read_header-Holds address m c v le =
    let (k, word, same) = read_header-Kept address c v.framed le in
    (
      record { framed = k.framed; same = λ x. same x ∙ v.same x },
      word ∙ word-eq address address m (content c.cache) (λ i lt. v.same (address + i)),
    )

-- An extent of a chain is read, with its link and its length.
pub extent_read-Holds :
    (e n : ℕ) (m : ℕ → ℕ) (c : Context)
    → Holds m c
    → 4 ≤ e
    → e + file_extent_size + n < 2 ^ 32
    → file_extent_size ≤ get32 m (e - 4)
    → (extent : ℕ → ℕ) × ((extent_read e c).0 ≡ some extent)
      × Holds m (extent_read e c).1
      × (get32 extent 0 ≡ get32 m e)
      × (get32 extent 8 ≡ get32 m (e + 8))
unfolding extent_read
extent_read-Holds e n m c v low high room =
    let at : sub32 e 4 ≡ e - 4 = omega (arith, low, high) in
    let (h, size) = read_header-Holds (e - 4) m c v (omega (arith, low, high)) in
    let c' = (read_header (e - 4) c).1 in
    let (h', bytes) = read_struct-Holds file_extent_size e m c' h (omega (arith, high)) in
    let extent = (read_struct file_extent_size e c').0 in
    let valid : (e == fs_null) ≡ false = ground (arith, high) in
    let enough : ltb (read_header (e - 4) c).0 file_extent_size ≡ false =
      ground (arith, size, room) in
    (
      extent,
      rw (at, valid, enough) refl,
      rw (at, valid, enough) h',
      word-eq 0 e m extent (λ k lt. ground (arith, bytes k)),
      word-eq 8 (e + 8) m extent (λ k lt. ground (arith, bytes (8 + k))),
    )

-- How many bytes the loop takes from an extent of `n` bytes.
abbrev pub chunk_of : (n : ℕ) → Progress → ℕ
chunk_of n p =
    if ltb p.read_offset (p.boundary + n)
    then (if ltb (n - (p.read_offset - p.boundary)) p.remaining
        then n - (p.read_offset - p.boundary)
        else p.remaining)
    else 0

-- What the body of the loop does at an extent.
pub record IsStep (e n : ℕ) (m : ℕ → ℕ) (p : Progress) (r : Progress × Context) : Type 0 where
  pub holds : Holds m r.1
  pub boundary : r.0.boundary ≡ p.boundary + n
  pub read_offset : r.0.read_offset ≡ p.read_offset + chunk_of n p
  pub cursor : r.0.cursor ≡ p.cursor + chunk_of n p
  pub remaining : r.0.remaining ≡ p.remaining - chunk_of n p
  pub destination :
      (j : ℕ)
      → r.0.destination j ≡ (
          if leb p.cursor j && ltb j (p.cursor + chunk_of n p)
          then m (e + file_extent_size + (p.read_offset - p.boundary + (j - p.cursor)))
          else p.destination j)

-- A buffer filled from `cursor` on.
filled :
    (cursor j chunk a base start : ℕ) (m destination bytes : ℕ → ℕ)
    → a ≡ base + start
    → ((k : ℕ) → k < chunk → bytes k ≡ m (a + k))
    → (if leb cursor j && ltb j (cursor + chunk) then bytes (j - cursor) else destination j) ≡ (
        if leb cursor j && ltb j (cursor + chunk)
        then m (base + (start + (j - cursor)))
        else destination j)
filled cursor j chunk a base start m destination bytes e h = ground (arith, e, h (j - cursor))

pub read_extent-IsStep :
    (e n : ℕ) (m : ℕ → ℕ) (p : Progress) (c : Context)
    → Holds m c
    → e + file_extent_size + n < 2 ^ 32
    → p.boundary ≤ p.read_offset
    → p.boundary + n < 2 ^ 32
    → p.read_offset + p.remaining < 2 ^ 32
    → IsStep e n m p (read_extent e n p c)
unfolding read_extent read_into
read_extent-IsStep e n m p c v high le small fits =
    let sum : add32 p.boundary n ≡ p.boundary + n = omega (arith, small) in
    let past : leb p.boundary p.read_offset ≡ true = ground (arith, le) in
    let start = p.read_offset - p.boundary in
    elim (Bool-cases (ltb p.read_offset (p.boundary + n))) [
      | inl t ↦
          let inside : start < n = ground (arith, t, le) in
          let local : sub32 p.read_offset p.boundary ≡ start = omega (arith, le, fits) in
          let available : sub32 n start ≡ n - start = omega (arith, inside, small) in
          let chunk = if ltb (n - start) p.remaining then n - start else p.remaining in
          let chunk_le : chunk ≤ n - start = ground arith in
          let chunk_fits : chunk ≤ p.remaining = ground arith in
          let at : add32 (add32 e file_extent_size) start ≡ e + file_extent_size + start =
            omega (arith, high, inside) in
          let forth : add32 p.read_offset chunk ≡ p.read_offset + chunk =
            omega (arith, fits, chunk_fits) in
          let (h, bytes) =
            read_struct-Holds chunk (e + file_extent_size + start) m c v
              (omega (arith, high, inside, chunk_le)) in
          rw (sum, past, local, available, at, t)
            (record {
              holds = h;
              boundary = refl;
              read_offset = rw t forth;
              cursor = rw t refl;
              remaining = rw t refl;
              destination = λ j. rw t (
                  filled p.cursor j chunk (e + file_extent_size + start) (e + file_extent_size)
                    start m p.destination (read_struct chunk (e + file_extent_size + start) c).0
                    refl bytes);
            })
      | inr t ↦
          rw (sum, past, t)
            (record {
              holds = v;
              boundary = refl;
              read_offset = ground (arith, t);
              cursor = ground (arith, t);
              remaining = ground (arith, t);
              destination = λ j. ground (arith, t);
            })
    ]
