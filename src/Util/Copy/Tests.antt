-- ===== src/Util/Copy/Tests.antt =====
-- Runs of the functions that write memory, at small memories.
use avr_kernel.Base.{ℕ, ◌≤◌, ◌<◌, ◌≡◌, refl, arith, ◌⊎◌, inl, some, [], ◌∷◌}
use avr_kernel.Util.Text.{IsText, place}
use avr_kernel.Util.Copy.{
  Bytes, memmove, memcmp, memset, fill, copy_down, copy_and_pad, strncpy, strlcat,
}
use avr_kernel.Util.Copy.Append.{strlcat-bounded}

-- "ab" at 100 and "cde" at 200.
abbrev memory : Bytes
memory = place (99 ∷ 100 ∷ 101 ∷ []) 200 (place (97 ∷ 98 ∷ []) 100 (λ i. 0))

-- Two bytes up within "ab": the ranges overlap.
overlap_test : (memmove 101 100 2 memory).1 102 ≡ 98
unfolding memmove copy_down
overlap_test = refl

compare_test : memcmp 1 101 101 memory ≡ 0
unfolding memcmp
compare_test = refl

set_test : (memset 100 300 2 memory).1 101 ≡ 44
unfolding memset fill
set_test = refl

pad_test : (strncpy 200 100 4 memory).1 202 ≡ 0
unfolding strncpy copy_and_pad fill
pad_test = refl

-- In a buffer of 4 bytes one character of the source fits.
strlcat-bounded_example :
    (m' : Bytes) × (strlcat 9 100 200 4 memory ≡ some (5, m'))
    × IsText m' 100 (97 ∷ 98 ∷ 99 ∷ [])
    × ((x : ℕ) → (x < 100) ⊎ (104 ≤ x) → m' x ≡ memory x)
strlcat-bounded_example =
    strlcat-bounded (97 ∷ 98 ∷ []) (99 ∷ 100 ∷ 101 ∷ []) 9 100 200 4 memory (ground arith)
      (ground arith) (inl (omega arith)) (omega arith) (omega arith)
