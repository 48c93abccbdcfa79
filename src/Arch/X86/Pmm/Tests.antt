-- ===== src/Arch/X86/Pmm/Tests.antt =====
-- Runs of the frame allocator.
use avr_kernel.Base.{
  ℕ, ◌+◌, ◌^◌, ◌<◌, ◌≡◌, refl, arith, some, [], ◌∷◌, if◌then◌else◌, ◌==◌, get32, put32, add32,
}
use avr_kernel.Arch.X86.Pmm.{
  Pmm, pmm_alloc_frame, pmm_free_frame, find_bit, find_frame, pmm_init, finished, get64,
}
use avr_kernel.Arch.X86.Pmm.Frames.{IsAllocated, pmm_alloc_frame-IsAllocated, used}
use avr_kernel.Arch.X86.Pmm.Free.{IsKnown, pmm_free_frame-alloc}
use avr_kernel.Arch.X86.Pmm.Init.{Region, IsMap, some_covers, pmm_init-used}

-- Frame 0 is in use, and all others are free.
abbrev mostly_free : Pmm
mostly_free = record { pmm_bitmap = λ i. if i == 0 then 1 else 0; total_frames = 2 ^ 20 }

pmm_alloc_frame-IsAllocated_example :
    IsAllocated mostly_free (pmm_alloc_frame mostly_free).0 (pmm_alloc_frame mostly_free).1
pmm_alloc_frame-IsAllocated_example = pmm_alloc_frame-IsAllocated mostly_free

alloc_test : (pmm_alloc_frame mostly_free).0 ≡ 4096
unfolding pmm_alloc_frame find_frame find_bit
alloc_test = refl

pmm_free_frame-alloc_example :
    used (pmm_free_frame (pmm_alloc_frame mostly_free).0 (pmm_alloc_frame mostly_free).1) 1
    ≡ used mostly_free 1
pmm_free_frame-alloc_example =
    pmm_free_frame-alloc mostly_free 1 (λ g small free. small)
      (λ e. absurd (omega (arith, e, alloc_test)))

-- Boot information at 1000, and at 2000 a map of one available region: 64 KB from 1 MB on.
abbrev memory : ℕ → ℕ
memory =
    put32
      (put32
        (put32
          (put32
            (put32 (put32 (put32 (put32 (put32 (λ i. 0) 1000 64) 1044 24) 1048 2000) 2000 20) 2004
              1048576)
            2008 0)
          2012 65536)
        2016 0)
      2020 1

abbrev region : Region
region = record { addr = 1048576; len = 65536; type = 1 }

map_test :
    (get32 memory 1000 ≡ 64)
    × (get32 memory 1044 ≡ 24)
    × (get32 memory 1048 ≡ 2000)
    × (get32 memory 2000 ≡ 20)
unfolding get32 put32
map_test = (refl, refl, refl, refl)

entry_test : (get64 memory 2004 ≡ 1048576) × (get64 memory 2012 ≡ 65536) × (get32 memory 2020 ≡ 1)
unfolding get32 put32 get64
entry_test = (refl, refl, refl)

region-IsMap :
    IsMap memory
      (get32 memory (1000 + 48))
      (add32 (get32 memory (1000 + 48)) (get32 memory (1000 + 44)))
      (region ∷ [])
region-IsMap =
    rw (map_test.2, map_test.1, map_test.3)
      (
        omega arith,
        entry_test.0,
        entry_test.1,
        entry_test.2,
        (omega arith, omega arith),
        omega arith,
      )

pmm_init-used_example :
    (p' : Pmm) × (pmm_init 2 1000 0 memory mostly_free ≡ finished (some p'))
    × ((g : ℕ) → g < 2 ^ 20 → used p' g ≡ (if some_covers (region ∷ []) 0 g then 0 else 1))
    × IsKnown p'
pmm_init-used_example =
    pmm_init-used (region ∷ []) 2 1000 0 memory mostly_free (omega arith)
      (rw map_test.0 (omega arith)) region-IsMap (omega arith)
