-- ===== src/Arch/X86/Pmm/Init.antt =====
-- Which frames pmm_init leaves free.
use avr_kernel.Base.{
  ℕ, zero, suc, ◌+◌, ◌-◌, ◌*◌, ◌/◌, ◌%◌, ◌^◌, ◌<◌, ◌≤◌, ◌≡◌, ◌≢◌, refl, ◌∙◌, arith, inl, inr, Bool,
  true, false, ◌&&◌, ◌||◌, some, List, [], ◌∷◌, length, if◌then◌else◌, ltb, leb, ◌==◌, u32, u64,
  add32, bit-ones, bit_and, get32, Bool-cases,
}
use avr_kernel.Arch.X86.Pmm.{
  Pmm, release, free_pages, free_region, get64, walk_map, pmm_init, finished, page_size,
}
use avr_kernel.Arch.X86.Pmm.Frames.{used}
use avr_kernel.Arch.X86.Pmm.Free.{used-clear, IsKnown}

-- The frame `g` is one of those from `a` on, below `e`, that the kernel does not occupy.
abbrev pub in_pages : (a e physical_begin g : ℕ) → Bool
in_pages a e physical_begin g = leb a g && (ltb g e && leb physical_begin (g * page_size))

release-used :
    (frame g : ℕ) (p : Pmm) → used (release frame p) g ≡ (if frame == g then 0 else used p g)
unfolding release
release-used frame g p = used-clear p.pmm_bitmap frame g

release-IsKnown : (frame : ℕ) (p : Pmm) → IsKnown p → IsKnown (release frame p)
unfolding release
release-IsKnown frame p known g small free =
    ground (arith, used-clear p.pmm_bitmap frame g, known g small, free)

free_pages-used :
    (rounds a e physical_begin g : ℕ) (p : Pmm)
    → rounds ≡ e - a
    → e ≤ 2 ^ 20
    → used (free_pages rounds (a * page_size) (e * page_size) physical_begin p) g
      ≡ (if in_pages a e physical_begin g then 0 else used p g)
unfolding free_pages
free_pages-used zero a e physical_begin g p size small =
    let out : in_pages a e physical_begin g ≡ false = ground (arith, size) in rw out refl
free_pages-used (suc rounds) a e physical_begin g p size small =
    let inside : ltb (a * page_size) (e * page_size) ≡ true = ground (arith, size) in
    let frame : u32 (a * page_size / page_size) ≡ a = omega (arith, size, small) in
    let next : a * page_size + page_size ≡ (a + 1) * page_size = omega arith in
    elim (Bool-cases (ltb (a * page_size) physical_begin)) [
      | inl c ↦
          rw (inside, c, next)
            (free_pages-used rounds (a + 1) e physical_begin g p (omega (arith, size)) small
              ∙ ground (arith, c))
      | inr c ↦
          rw (inside, c, next, frame)
            (free_pages-used rounds (a + 1) e physical_begin g (release a p) (omega (arith, size))
                small
              ∙ ground (arith, c, release-used a g p, size))
    ]

free_pages-IsKnown :
    (rounds addr aligned_end physical_begin : ℕ) (p : Pmm)
    → IsKnown p
    → IsKnown (free_pages rounds addr aligned_end physical_begin p)
unfolding free_pages
free_pages-IsKnown zero addr e b p known = known
free_pages-IsKnown (suc rounds) addr e b p known = elim (Bool-cases (ltb addr e)) [
  | inl i ↦ elim (Bool-cases (ltb addr b)) [
    | inl c ↦ rw (i, c) (free_pages-IsKnown rounds (addr + page_size) e b p known)
    | inr c ↦
        rw (i, c)
          (free_pages-IsKnown rounds (addr + page_size) e b (release (u32 (addr / page_size)) p)
            (release-IsKnown (u32 (addr / page_size)) p known))
  ]
  | inr i ↦ rw i known
]

-- An entry of the memory map.
pub record Region : Type 0 where
  pub addr : ℕ
  pub len : ℕ
  pub type : ℕ

-- The whole page `g` lies in the region, which is available, and not in the kernel.
abbrev pub covers : Region → (physical_begin g : ℕ) → Bool
covers r physical_begin g =
    r.type == 1
    && (leb r.addr (g * page_size)
        && (leb (g * page_size + page_size) (r.addr + r.len) && leb physical_begin (g * page_size)))

-- Addresses of the region fit into 64 bits.
abbrev pub IsSane : Region → Type 0
IsSane r = (r.addr + r.len < 2 ^ 64) × (r.addr + page_size < 2 ^ 64)

free_region-used :
    (addr len physical_begin g : ℕ) (p : Pmm)
    → addr + len < 2 ^ 64
    → addr + page_size < 2 ^ 64
    → g < 2 ^ 20
    → used (free_region addr len physical_begin p) g ≡ (
        if leb addr (g * page_size)
          && (leb (g * page_size + page_size) (addr + len) && leb physical_begin (g * page_size))
        then 0
        else used p g)
unfolding free_region
free_region-used addr len physical_begin g p fits room small =
    let end = if ltb (2 ^ 32) (u64 (addr + len)) then 2 ^ 32 else u64 (addr + len) in
    let a = u64 (addr + page_size - 1) / page_size in
    let e = end / page_size in
    let rounds : (e * page_size - a * page_size) / page_size ≡ e - a = omega arith in
    let short : e ≤ 2 ^ 20 = ground arith in
    let same : in_pages a e physical_begin g ≡ (
        leb addr (g * page_size)
        && (leb (g * page_size + page_size) (addr + len) && leb physical_begin (g * page_size))) =
      ground (arith, fits, room, small) in
    free_pages-used ((e * page_size - a * page_size) / page_size) a e physical_begin g p rounds
      short
    ∙ rw same refl

-- The map between `mmap` and its end has these entries.
abbrev pub IsMap : (m : ℕ → ℕ) (mmap mmap_end : ℕ) → List Region → Type 0
IsMap m mmap mmap_end [] = mmap_end ≤ mmap
IsMap m mmap mmap_end (r ∷ rs) =
    (mmap < mmap_end)
    × (get64 m (mmap + 4) ≡ r.addr)
    × (get64 m (mmap + 12) ≡ r.len)
    × (get32 m (mmap + 20) ≡ r.type)
    × IsSane r
    × IsMap m (add32 (add32 mmap (get32 m mmap)) 4) mmap_end rs

abbrev pub some_covers : List Region → (physical_begin g : ℕ) → Bool
some_covers [] physical_begin g = false
some_covers (r ∷ rs) physical_begin g = covers r physical_begin g || some_covers rs physical_begin g

-- One entry.
entry-used :
    (r : Region) (m : ℕ → ℕ) (mmap physical_begin g : ℕ) (p : Pmm)
    → get64 m (mmap + 4) ≡ r.addr
    → get64 m (mmap + 12) ≡ r.len
    → get32 m (mmap + 20) ≡ r.type
    → IsSane r
    → g < 2 ^ 20
    → used
        (if get32 m (mmap + 20) == 1
          then free_region (get64 m (mmap + 4)) (get64 m (mmap + 12)) physical_begin p
          else p)
        g
      ≡ (if covers r physical_begin g then 0 else used p g)
entry-used r m mmap physical_begin g p ha hl ht sane small =
    rw (ha, hl, ht)
      (elim (Bool-cases (r.type == 1)) [
        | inl e ↦ rw e (free_region-used r.addr r.len physical_begin g p sane.0 sane.1 small)
        | inr e ↦ rw e refl
      ])

entry-IsKnown :
    (m : ℕ → ℕ) (mmap physical_begin : ℕ) (p : Pmm)
    → IsKnown p
    → IsKnown (
        if get32 m (mmap + 20) == 1
        then free_region (get64 m (mmap + 4)) (get64 m (mmap + 12)) physical_begin p
        else p)
unfolding free_region
entry-IsKnown m mmap physical_begin p known = elim (Bool-cases (get32 m (mmap + 20) == 1)) [
  | inl e ↦ rw e (free_pages-IsKnown _ _ _ physical_begin p known)
  | inr e ↦ rw e known
]

walk_map-used :
    (rs : List Region) (rounds mmap mmap_end physical_begin : ℕ) (m : ℕ → ℕ) (p : Pmm)
    → IsMap m mmap mmap_end rs
    → length rs < rounds
    → IsKnown p
    → (p' : Pmm) × (walk_map rounds mmap mmap_end physical_begin m p ≡ some p')
      × ((g : ℕ)
          → g < 2 ^ 20
          → used p' g ≡ (if some_covers rs physical_begin g then 0 else used p g))
      × IsKnown p'
unfolding walk_map
walk_map-used rs zero mmap mmap_end b m p h lt known = absurd (omega arith)
walk_map-used [] (suc rounds) mmap mmap_end b m p h lt known =
    let done : ltb mmap mmap_end ≡ false = ground (arith, h) in
    (p, rw done refl, λ g small. refl, known)
walk_map-used (r ∷ rs) (suc rounds) mmap mmap_end b m p h lt known =
    let more : ltb mmap mmap_end ≡ true = ground (arith, h.0) in
    let p1 =
      if get32 m (mmap + 20) == 1
      then free_region (get64 m (mmap + 4)) (get64 m (mmap + 12)) b p
      else p in
    let next = add32 (add32 mmap (get32 m mmap)) 4 in
    let w =
      walk_map-used rs rounds next mmap_end b m p1 h.5 (omega arith)
        (entry-IsKnown m mmap b p known) in
    (
      w.0,
      rw more w.1,
      λ g small. w.2 g small ∙ ground (arith, entry-used r m mmap b g p h.1 h.2 h.3 h.4 small),
      w.3,
    )

-- pmm_init leaves free exactly the pages it should: when the boot information has a memory map, with
-- entries whose addresses fit into 64 bits and are fewer than the rounds, it finishes; a frame of the
-- 4 GB is then free exactly when its whole page lies in an available region of the map and not below
-- the end of the kernel, and every free frame is known, as the other operations need.
pub pmm_init-used :
    (rs : List Region) (rounds mbi physical_begin : ℕ) (m : ℕ → ℕ) (p : Pmm)
    → mbi ≢ 0
    → bit_and (get32 m mbi) (2 ^ 6) ≢ 0
    → IsMap m (get32 m (mbi + 48)) (add32 (get32 m (mbi + 48)) (get32 m (mbi + 44))) rs
    → length rs < rounds
    → (p' : Pmm) × (pmm_init rounds mbi physical_begin m p ≡ finished (some p'))
      × ((g : ℕ) → g < 2 ^ 20 → used p' g ≡ (if some_covers rs physical_begin g then 0 else 1))
      × IsKnown p'
unfolding pmm_init
pmm_init-used rs rounds mbi physical_begin m p set flag map_there lt =
    let reserved : Pmm = record p { pmm_bitmap = λ i. 2 ^ 32 - 1 } in
    let all : (g : ℕ) → used reserved g ≡ 1 = λ g. bit-ones 32 (g % 32) (omega arith) in
    let known : IsKnown reserved = λ g small free. absurd (omega (arith, all g, free)) in
    let mmap = get32 m (mbi + 48) in
    let w =
      walk_map-used rs rounds mmap (add32 mmap (get32 m (mbi + 44))) physical_begin m reserved
        map_there lt known in
    let b0 : (mbi == 0) ≡ false = ground (arith, set) in
    let b1 : (bit_and (get32 m mbi) (2 ^ 6) == 0) ≡ false = ground (arith, flag) in
    (w.0, rw (b0, b1, w.1) refl, λ g small. w.2 g small ∙ ground (arith, all g), w.3)
