-- ===== src/Fs/Device/Runs.antt =====
-- The search for a run of free blocks through the frame, and the marking of a run.
use avr_kernel.Base.{
  ℕ, zero, suc, ◌+◌, ◌≤◌, ◌≡◌, refl, ◌∙◌, arith, inl, inr, Bool, true, if◌then◌else◌, leb, ◌==◌,
  Bool-cases, leb→le,
}
use avr_kernel.Base.Runs.{IsFirstFit, IsScanned, IsScanned-used, IsScanned-free, IsScanned-found}
use avr_kernel.Fs.Bitmap.{Context, fs_bitmap_get, fs_bitmap_set}
use avr_kernel.Fs.Bitmap.Frame.{IsFramed, Kept, Kept-refl, Kept-trans}
use avr_kernel.Fs.Bitmap.Blocks.{
  block_is_used, Marked, Marked-join, Kept-Marked, Kept-block_is_used, fs_bitmap_get-block_is_used,
  fs_bitmap_set-Marked,
}
use avr_kernel.Fs.Device.{find_free, set_range}

-- The blocks in use, as the search reads them.
abbrev pub marks : Context → ℕ → Bool
marks c j = block_is_used j c

module _ (c : Context) (v : IsFramed c) (needed lower upper : ℕ)
    (inside : upper ≤ c.block_count) where
  pub find_free_from-IsFirstFit :
      (rounds current found start first : ℕ) (d : Context)
      → Kept c d
      → current + rounds ≡ upper
      → IsScanned (marks c) needed lower current found first
      → first ≡ (if found == 0 then current else start)
      → IsFirstFit (marks c) needed lower upper (find_free needed rounds current start found d).0
        × Kept c (find_free needed rounds current start found d).1
  unfolding find_free
  find_free_from-IsFirstFit zero current found start first d k u s e =
      (λ p low fit. s.before p low (omega (arith, s.length, s.short)), k)
  find_free_from-IsFirstFit (suc rounds) current found start first d k u s e =
      let (answer, kept) =
        fs_bitmap_get-block_is_used current d k.framed (omega (arith, u, inside, k.sizes)) in
      let same = answer ∙ Kept-block_is_used current c d v k (omega (arith, u, inside)) in
      let k' = Kept-trans c d (fs_bitmap_get current d).1 k kept in
      elim (Bool-cases (marks c current)) [
        | inl taken ↦
            rw (same, taken)
              (find_free_from-IsFirstFit rounds (current + 1) 0 start (current + 1)
                (fs_bitmap_get current d).1 k' (omega (arith, u))
                (IsScanned-used (marks c) needed lower current found first s taken) refl)
        | inr free ↦ elim (Bool-cases (leb needed (found + 1))) [
          | inl enough ↦
              rw (same, free, enough, ← e)
                (
                  IsScanned-found (marks c) needed lower upper current found first s free
                      (leb→le _ _ enough) (omega (arith, u)),
                  k',
                )
          | inr more ↦
              rw (same, free, more, ← e)
                (find_free_from-IsFirstFit rounds (current + 1) (found + 1) first first
                  (fs_bitmap_get current d).1 k' (omega (arith, u))
                  (IsScanned-free (marks c) needed lower current found first s free (ground arith))
                  (ground arith))
        ]
      ]

pub set_range-Marked :
    (n j : ℕ) (c : Context)
    → IsFramed c
    → j + n ≤ c.block_count
    → Marked true j n c (set_range n j c)
unfolding set_range
set_range-Marked zero j c v le = Kept-Marked true j c c v (Kept-refl c v)
set_range-Marked (suc n) j c v le =
    let first = fs_bitmap_set-Marked j c v (omega arith) in
    Marked-join true j 1 n (suc n) c (fs_bitmap_set j c) _ (omega arith) first
      (set_range-Marked n (j + 1) (fs_bitmap_set j c) first.framed (omega (arith, first.sizes)))
