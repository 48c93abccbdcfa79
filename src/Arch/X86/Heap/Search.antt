-- ===== src/Arch/X86/Heap/Search.antt =====
-- The search of `kmalloc_unlocked` is first fit.
use avr_kernel.Base.{
  ℕ, zero, suc, ◌+◌, ◌-◌, ◌≤◌, ◌<◌, ◌≡◌, refl, arith, Bool, Option, inl, inr, if◌then◌else◌, leb,
  ◌==◌, Bool-cases, leb→le,
}
use avr_kernel.Base.Runs as Runs
use avr_kernel.Arch.X86.Heap.{Heap, block_is_used, find_run}

module _ (h : Heap) (required : ℕ) where
  abbrev marks : ℕ → Bool
  marks j = block_is_used j h

  abbrev pub IsFreeRun : ℕ → Type 0
  IsFreeRun p = Runs.IsFreeRun marks required p

  abbrev pub IsBlocked : ℕ → Type 0
  IsBlocked p = Runs.IsBlocked marks required p

  abbrev pub IsFirstFit : ℕ → ℕ → Option ℕ → Type 0
  IsFirstFit lower upper found = Runs.IsFirstFit marks required lower upper found

  find_run_from-IsFirstFit :
      (lower upper rounds current found start first : ℕ)
      → current + rounds ≡ upper
      → Runs.IsScanned marks required lower current found first
      → first ≡ (if found == 0 then current else start)
      → IsFirstFit lower upper (find_run required rounds current found start h)
  unfolding find_run
  find_run_from-IsFirstFit lower upper zero current found start first u s e =
      λ p low fit. s.before p low (omega (arith, s.length, s.short))
  find_run_from-IsFirstFit lower upper (suc rounds) current found start first u s e =
      elim (Bool-cases (block_is_used current h)) [
        | inl used ↦ rw used (
            find_run_from-IsFirstFit lower upper rounds (current + 1) 0 start (current + 1)
              (omega arith) (Runs.IsScanned-used marks required lower current found first s used)
              refl)
        | inr free ↦ elim (Bool-cases (leb required (found + 1))) [
          | inl enough ↦
              rw (free, enough, ← e)
                (Runs.IsScanned-found marks required lower upper current found first s free
                  (leb→le _ _ enough) (omega arith))
          | inr more ↦
              rw (free, more, ← e)
                (find_run_from-IsFirstFit lower upper rounds (current + 1) (found + 1) first first
                  (omega arith)
                  (Runs.IsScanned-free marks required lower current found first s free
                    (ground arith))
                  (ground arith))
        ]
      ]

-- The search from `lower` answers the first run of `required` free blocks below `upper`, and nothing
-- only if there is none.
pub find_run-IsFirstFit :
    (required lower upper : ℕ) (h : Heap)
    → 0 < required
    → lower ≤ upper
    → IsFirstFit h required lower upper (find_run required (upper - lower) lower 0 0 h)
find_run-IsFirstFit required lower upper h pos le =
    find_run_from-IsFirstFit h required lower upper (upper - lower) lower 0 0 lower (omega arith)
      (Runs.IsScanned-start (λ j. block_is_used j h) required lower pos) refl
