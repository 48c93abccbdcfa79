-- ===== src/Arch/X86/Pmm/Free.antt =====
-- Freeing a frame, and a frame's way through allocation and back.
use avr_kernel.Base.{
  ℕ, ◌-◌, ◌/◌, ◌%◌, ◌^◌, ◌<◌, ◌≡◌, ◌≢◌, refl, sym, ap, ◌∙◌, arith, inl, inr, true, false, ◌&&◌,
  if◌then◌else◌, ltb, ◌==◌, upd, bit, bit-clear, bit_and, Bool-cases,
}
use avr_kernel.Arch.X86.Pmm.{Pmm, pmm_alloc_frame, pmm_free_frame, page_size, pmm_no_frame}
use avr_kernel.Arch.X86.Pmm.Frames.{used, pmm_alloc_frame-IsAllocated}

pub used-clear :
    (bitmap : ℕ → ℕ) (f g : ℕ)
    → bit
        (upd bitmap (f / 32) (bit_and (bitmap (f / 32)) (2 ^ 32 - 1 - 2 ^ (f % 32))) (g / 32))
        (g % 32)
      ≡ (if f == g then 0 else bit (bitmap (g / 32)) (g % 32))
used-clear bitmap f g = elim (Bool-cases (g / 32 == f / 32)) [
  | inl e ↦
      let word : g / 32 ≡ f / 32 = ground (arith, e) in
      let same : (f % 32 == g % 32) ≡ (f == g) = ground (arith, word) in
      rw (e, word)
        (bit-clear 32 (bitmap (f / 32)) (f % 32) (g % 32) (omega arith) (omega arith)
          ∙ rw same refl)
  | inr e ↦ let other : (f == g) ≡ false = ground (arith, e) in rw (e, other) refl
]

-- pmm_free_frame frees one frame: of an address in a frame below the highest known one, that frame is
-- free afterwards, and every other frame is as it was; an address above changes nothing.
pub pmm_free_frame-used :
    (p : Pmm) (phys_addr g : ℕ)
    → used (pmm_free_frame phys_addr p) g ≡ (
        if ltb (phys_addr / page_size) p.total_frames && phys_addr / page_size == g
        then 0
        else used p g)
unfolding pmm_free_frame
pmm_free_frame-used p phys_addr g = elim (Bool-cases (ltb (phys_addr / page_size) p.total_frames)) [
  | inl e ↦ rw (e, pmm_free_frame) (used-clear p.pmm_bitmap (phys_addr / page_size) g)
  | inr e ↦ rw (e, pmm_free_frame) refl
]

-- Every free frame lies below `total_frames`.
abbrev pub IsKnown : Pmm → Type 0
IsKnown p = (g : ℕ) → g < 2 ^ 20 → used p g ≡ 0 → g < p.total_frames

-- Freeing a frame that was allocated gives the old bitmap back: when every free frame is known and
-- some frame is free, the frame that pmm_alloc_frame hands out is free again after pmm_free_frame, and
-- every frame is as it was before both.
pub pmm_free_frame-alloc :
    (p : Pmm) (g : ℕ)
    → IsKnown p
    → (pmm_alloc_frame p).0 ≢ pmm_no_frame
    → used (pmm_free_frame (pmm_alloc_frame p).0 (pmm_alloc_frame p).1) g ≡ used p g
pmm_free_frame-alloc p g known found = elim (pmm_alloc_frame-IsAllocated p) [
  | inl (full, _, _) ↦ absurd (found full)
  | inr (f, small, addr, free, below, others, total) ↦
      let r = pmm_alloc_frame p in
      let frame : r.0 / page_size ≡ f = omega (arith, addr) in
      let known_f : ltb f r.1.total_frames ≡ true = ground (arith, known f small free, total) in
      pmm_free_frame-used r.1 r.0 g
      ∙ rw (frame, known_f)
          (elim (Bool-cases (f == g)) [
            | inl e ↦ let same : f ≡ g = ground (arith, e) in rw e (sym free ∙ ap (used p) same)
            | inr e ↦ rw e (others g ∙ rw e refl)
          ])
]

-- Allocation keeps every free frame known.
pub pmm_alloc_frame-IsKnown : (p : Pmm) → IsKnown p → IsKnown (pmm_alloc_frame p).1
pmm_alloc_frame-IsKnown p known g small free = elim (pmm_alloc_frame-IsAllocated p) [
  | inl (_, same, _) ↦
      let total = ap (λ (q : Pmm). q.total_frames) same in
      omega (arith, total, known g small (sym (ap (λ (q : Pmm). used q g) same) ∙ free))
  | inr (f, _, _, _, _, others, total) ↦ ground (arith, total, others g, free, known g small)
]
