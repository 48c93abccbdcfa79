-- ===== src/Arch/X86/Pmm/Frames.antt =====
-- Which frames are in use, and what the operations do to them.
use avr_kernel.Base.{
  ℕ, zero, suc, ◌+◌, ◌-◌, ◌*◌, ◌/◌, ◌%◌, ◌^◌, ◌<◌, ◌≤◌, ◌≡◌, refl, ap, ◌∙◌, arith, ◌⊎◌, inl, inr,
  false, Option, none, some, if◌then◌else◌, ltb, ◌==◌, upd, bit, bit-le, bit-ones, bit-set,
  bit_and_pow-zero, bit_or, Bool-cases,
}
use avr_kernel.Arch.X86.Pmm.{
  Pmm, pmm_alloc_frame, find_bit, find_frame, page_size, phys_bitmap_words, pmm_no_frame,
}

-- 1 for a frame in use.
abbrev pub used : Pmm → (frame : ℕ) → ℕ
used p frame = bit (p.pmm_bitmap (frame / 32)) (frame % 32)

find_bit-lowest :
    (rounds place word : ℕ)
    → ((find_bit rounds place word ≡ none)
        × ((b : ℕ) → place ≤ b → b < place + rounds → bit word b ≡ 1))
      ⊎ ((b : ℕ) × (find_bit rounds place word ≡ some b)
          × (bit word b ≡ 0)
          × (place ≤ b)
          × (b < place + rounds)
          × ((c : ℕ) → place ≤ c → c < b → bit word c ≡ 1))
unfolding find_bit
find_bit-lowest zero place word = inl (refl, λ b lo hi. absurd (omega arith))
find_bit-lowest (suc rounds) place word =
    let test = bit_and_pow-zero place word in
    elim (Bool-cases (bit word place == 0)) [
      | inl e ↦ inr (
        place,
        rw (test, e) refl,
        ground (arith, e),
        omega arith,
        omega arith,
        λ c lo hi. absurd (omega arith),
      )
      | inr e ↦
          let here : bit word place ≡ 1 = ground (arith, e, bit-le word place) in
          elim (find_bit-lowest rounds (place + 1) word) [
            | inl (f, all) ↦ inl (
              rw (test, e) f,
              λ b lo hi. elim (Bool-cases (b == place)) [
                | inl q ↦ let same : b ≡ place = ground (arith, q) in ap (bit word) same ∙ here
                | inr q ↦ all b (ground (arith, q)) (omega arith)
              ],
            )
            | inr (b, f, zero_there, lo, hi, below) ↦ inr (
              b,
              rw (test, e) f,
              zero_there,
              omega arith,
              omega arith,
              λ c lo' hi'. elim (Bool-cases (c == place)) [
                | inl q ↦ let same : c ≡ place = ground (arith, q) in ap (bit word) same ∙ here
                | inr q ↦ below c (ground (arith, q)) hi'
              ],
            )
          ]
    ]

-- The frames from `lo` on, below `hi`, are in use.
abbrev pub AllUsed : (bitmap : ℕ → ℕ) (lo hi : ℕ) → Type 0
AllUsed bitmap lo hi = (g : ℕ) → lo ≤ g → g < hi → bit (bitmap (g / 32)) (g % 32) ≡ 1

row-AllUsed :
    (bitmap : ℕ → ℕ) (i k : ℕ)
    → k ≤ 32
    → ((b : ℕ) → b < k → bit (bitmap i) b ≡ 1)
    → AllUsed bitmap (i * 32) (i * 32 + k)
row-AllUsed bitmap i k le row g lo hi =
    let word : g / 32 ≡ i = omega arith in
    ap (λ (j : ℕ). bit (bitmap j) (g % 32)) word ∙ row (g % 32) (omega arith)

AllUsed-join :
    (bitmap : ℕ → ℕ) (lo mid hi : ℕ)
    → AllUsed bitmap lo mid
    → AllUsed bitmap mid hi
    → AllUsed bitmap lo hi
AllUsed-join bitmap lo mid hi first second g l h = elim (Bool-cases (ltb g mid)) [
  | inl e ↦ first g l (ground (arith, e))
  | inr e ↦ second g (ground (arith, e)) h
]

-- The search over `rounds` words from `i` on finds the lowest free frame.
abbrev IsLowest : (rounds i : ℕ) (bitmap : ℕ → ℕ) → Option (ℕ × ℕ) → Type 0
IsLowest rounds i bitmap r =
    ((r ≡ none) × AllUsed bitmap (i * 32) ((i + rounds) * 32))
    ⊎ ((j : ℕ) × (b : ℕ) × (r ≡ some (j, b))
        × (b < 32)
        × (j < i + rounds)
        × (bit (bitmap j) b ≡ 0)
        × AllUsed bitmap (i * 32) (j * 32 + b))

skip_row :
    (rounds i : ℕ) (bitmap : ℕ → ℕ) (r : Option (ℕ × ℕ))
    → ((b : ℕ) → b < 32 → bit (bitmap i) b ≡ 1)
    → IsLowest rounds (i + 1) bitmap r
    → IsLowest (suc rounds) i bitmap r
skip_row rounds i bitmap r row (inl (e, rest)) = inl (
  e,
  λ g lo hi.
      AllUsed-join bitmap (i * 32) (i * 32 + 32) ((i + 1 + rounds) * 32)
        (row-AllUsed bitmap i 32 (omega arith) row) (λ g' lo' hi'. rest g' (omega arith) hi') g lo
        (omega arith),
)
skip_row rounds i bitmap r row (inr (j, b, e, small, last, free, rest)) = inr (
  j,
  b,
  e,
  small,
  omega arith,
  free,
  AllUsed-join bitmap (i * 32) (i * 32 + 32) (j * 32 + b)
      (row-AllUsed bitmap i 32 (omega arith) row) (λ g' lo' hi'. rest g' (omega arith) hi'),
)

find_frame-IsLowest :
    (rounds i : ℕ) (bitmap : ℕ → ℕ) → IsLowest rounds i bitmap (find_frame rounds i bitmap)
unfolding find_frame
find_frame-IsLowest zero i bitmap = inl (refl, λ g lo hi. absurd (omega arith))
find_frame-IsLowest (suc rounds) i bitmap =
    let rest = find_frame-IsLowest rounds (i + 1) bitmap in
    elim (Bool-cases (bitmap i == 2 ^ 32 - 1)) [
      | inl e ↦
          let full : bitmap i ≡ 2 ^ 32 - 1 = ground (arith, e) in
          rw e (
            skip_row rounds i bitmap (find_frame rounds (i + 1) bitmap)
              (λ b lt. ap (λ (w : ℕ). bit w b) full ∙ bit-ones 32 b lt) rest)
      | inr e ↦ elim (find_bit-lowest 32 0 (bitmap i)) [
        | inl (f, row) ↦
            rw (e, f)
              (skip_row rounds i bitmap (find_frame rounds (i + 1) bitmap)
                (λ b lt. row b (omega arith) (omega arith)) rest)
        | inr (b, f, free, lo, hi, below) ↦
            rw (e, f)
              (inr (
                i,
                b,
                refl,
                hi,
                omega arith,
                free,
                row-AllUsed bitmap i b (omega arith) (λ c lt. below c (omega arith) lt),
              ))
      ]
    ]

-- What pmm_alloc_frame answers and leaves: the lowest free frame, then in use, or none.
abbrev pub IsAllocated : Pmm → (phys_addr : ℕ) → Pmm → Type 0
IsAllocated p phys_addr p' =
    ((phys_addr ≡ pmm_no_frame) × (p' ≡ p) × AllUsed p.pmm_bitmap 0 (2 ^ 20))
    ⊎ ((f : ℕ) × (f < 2 ^ 20)
        × (phys_addr ≡ f * page_size)
        × (used p f ≡ 0)
        × AllUsed p.pmm_bitmap 0 f
        × ((g : ℕ) → used p' g ≡ (if f == g then 1 else used p g))
        × (p'.total_frames ≡ p.total_frames))

used-set :
    (bitmap : ℕ → ℕ) (j b g : ℕ)
    → b < 32
    → bit (upd bitmap j (bit_or (bitmap j) (2 ^ b)) (g / 32)) (g % 32)
      ≡ (if j * 32 + b == g then 1 else bit (bitmap (g / 32)) (g % 32))
used-set bitmap j b g lt = elim (Bool-cases (g / 32 == j)) [
  | inl e ↦
      let word : g / 32 ≡ j = ground (arith, e) in
      let same : (b == g % 32) ≡ (j * 32 + b == g) = ground (arith, lt, word) in
      rw (e, word) (bit-set (bitmap j) b (g % 32) ∙ rw same refl)
  | inr e ↦ let other : (j * 32 + b == g) ≡ false = ground (arith, lt, e) in rw (e, other) refl
]

-- pmm_alloc_frame hands out the lowest free frame: either every frame of the 4 GB is in use, and it
-- answers PMM_NO_FRAME and changes nothing; or it answers the address of a frame that was free, all
-- frames below it being in use, marks that frame, and leaves every other frame as it was.
pub pmm_alloc_frame-IsAllocated :
    (p : Pmm) → IsAllocated p (pmm_alloc_frame p).0 (pmm_alloc_frame p).1
unfolding pmm_alloc_frame
pmm_alloc_frame-IsAllocated p = elim (find_frame-IsLowest phys_bitmap_words 0 p.pmm_bitmap) [
  | inl (e, all) ↦ rw (e, pmm_alloc_frame) (inl (refl, refl, all))
  | inr (j, b, e, small, last, free, below) ↦
      let f = j * 32 + b in
      let word : f / 32 ≡ j = omega (arith, small) in
      let place : f % 32 ≡ b = omega (arith, small) in
      rw (e, pmm_alloc_frame)
        (inr (
          f,
          omega (arith, small, last),
          omega (arith, small, last),
          rw (word, place) free,
          below,
          λ g. used-set p.pmm_bitmap j b g small,
          refl,
        ))
]
