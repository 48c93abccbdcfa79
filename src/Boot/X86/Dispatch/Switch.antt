-- ===== src/Boot/X86/Dispatch/Switch.antt =====
-- One thread runs: the switch of thread_handler_c keeps it so.
use avr_kernel.Base.{
  ℕ, ◌≡◌, refl, sym, ap, ◌∙◌, arith, ◌⊎◌, inl, inr, true, false, ◌==◌, upd, Bool-cases,
}
use avr_kernel.Boot.X86.Mutex.{ready, running}
use avr_kernel.Boot.X86.Scheduler.{is_running}
use avr_kernel.Boot.X86.Dispatch.{
  Block, Run, set_block, set_dynamic, state_of, switch_to, refill, stop, start,
}

-- No thread but the current one is marked as running.
abbrev pub OneRuns : Run → Type 0
OneRuns s = (x : ℕ) → is_running (state_of s.blocks x) ≡ true → x ≡ s.current_thread

upd-hit : (f : ℕ → Block) (k x : ℕ) (b : Block) → (x == k) ≡ true → upd f k b x ≡ b
upd-hit f k x b e = rw e refl

upd-miss : (f : ℕ → Block) (k x : ℕ) (b : Block) → (x == k) ≡ false → upd f k b x ≡ f x
upd-miss f k x b e = rw e refl

set_block-hit :
    (t x : ℕ) (b : Block) (s : Run)
    → (x == t) ≡ true
    → state_of (set_block t b s).blocks x ≡ b.dynamic.state
unfolding set_block
set_block-hit t x b s e = ap (λ (c : Block). c.dynamic.state) (upd-hit s.blocks t x b e)

set_block-miss :
    (t x : ℕ) (b : Block) (s : Run)
    → (x == t) ≡ false
    → state_of (set_block t b s).blocks x ≡ state_of s.blocks x
unfolding set_block
set_block-miss t x b s e = ap (λ (c : Block). c.dynamic.state) (upd-miss s.blocks t x b e)

refill-state : (prev x : ℕ) (s : Run) → state_of (refill prev s).blocks x ≡ state_of s.blocks x
unfolding refill
refill-state prev x s = elim (Bool-cases (prev == s.idle_thread)) [
  | inl i ↦
      let e : refill prev s ≡ s = rw (i, refill) refl in ap (λ (r : Run). state_of r.blocks x) e
  | inr i ↦
      let p = record (s.blocks prev) { ticks_remaining = (s.blocks prev).dynamic.priority } in
      ap (λ (r : Run). state_of r.blocks x)
        (let e : refill prev s ≡ set_block prev p s = rw (i, refill) refl in e)
      ∙ elim (Bool-cases (x == prev)) [
        | inl e ↦
            let same : x ≡ prev = ground (arith, e) in
            set_block-hit prev x p s e ∙ ap (state_of s.blocks) (sym same)
        | inr e ↦ set_block-miss prev x p s e
      ]
]

-- After it, the thread is off, and no other thread has started.
stop-off : (prev : ℕ) (s : Run) → is_running (state_of (stop prev s).blocks prev) ≡ false
unfolding stop set_dynamic
stop-off prev s = elim (Bool-cases (is_running (state_of s.blocks prev))) [
  | inl on ↦
      let self : (prev == prev) ≡ true = ground arith in
      let d = record (s.blocks prev).dynamic { state = ready } in
      let b = record (s.blocks prev) { dynamic = d } in
      let e : stop prev s ≡ set_block prev b s = rw (on, stop) refl in
      ap (λ (r : Run). is_running (state_of r.blocks prev)) e
      ∙ ap is_running (set_block-hit prev prev b s self)
  | inr off ↦
      let e : stop prev s ≡ s = rw (off, stop) refl in
      ap (λ (r : Run). is_running (state_of r.blocks prev)) e ∙ off
]

stop-others :
    (prev x : ℕ) (s : Run)
    → (x == prev) ≡ false
    → state_of (stop prev s).blocks x ≡ state_of s.blocks x
unfolding stop set_dynamic
stop-others prev x s other = elim (Bool-cases (is_running (state_of s.blocks prev))) [
  | inl on ↦
      let d = record (s.blocks prev).dynamic { state = ready } in
      let b = record (s.blocks prev) { dynamic = d } in
      let e : stop prev s ≡ set_block prev b s = rw (on, stop) refl in
      ap (λ (r : Run). state_of r.blocks x) e ∙ set_block-miss prev x b s other
  | inr off ↦
      let e : stop prev s ≡ s = rw (off, stop) refl in ap (λ (r : Run). state_of r.blocks x) e
]

start-state :
    (next x : ℕ) (s : Run)
    → (((x == next) ≡ true) × (state_of (start next s).blocks x ≡ running))
      ⊎ (((x == next) ≡ false) × (state_of (start next s).blocks x ≡ state_of s.blocks x))
unfolding start set_dynamic
start-state next x s =
    let b = record (s.blocks next) {
      dynamic = record (s.blocks next).dynamic { state = running };
    } in
    elim (Bool-cases (x == next)) [
      | inl e ↦ inl (e, set_block-hit next x b s e)
      | inr e ↦ inr (e, set_block-miss next x b s e)
    ]

-- One thread runs after a switch: when no thread but the current one was marked as running, then after
-- the switch to a thread it is the current one, it is marked as running, and no other thread is.
pub switch_to-OneRuns :
    (next : ℕ) (s : Run)
    → OneRuns s
    → let s' = switch_to s.current_thread next s in
      (s'.current_thread ≡ next) × (state_of s'.blocks next ≡ running) × OneRuns s'
unfolding switch_to start
switch_to-OneRuns next s one =
    let prev = s.current_thread in
    let off = stop prev (refill prev s) in
    let self : (next == next) ≡ true = ground arith in
    (
      refl,
      elim (start-state next next off) [ inl (_, on) ↦ on | inr (e, _) ↦ absurd (cc (e, self)) ],
      λ x on. elim (start-state next x off) [
        | inl (e, _) ↦ ground (arith, e)
        | inr (e, same) ↦ elim (Bool-cases (x == prev)) [
          | inl p ↦
              let at : x ≡ prev = ground (arith, p) in
              absurd (
                cc (
                  on,
                  ap (λ (k : ℕ). is_running (state_of off.blocks k)) at,
                  stop-off prev (refill prev s),
                ))
          | inr p ↦ absurd (
              let ran : is_running (state_of s.blocks x) ≡ true =
                ap is_running (
                  sym (refill-state prev x s)
                  ∙ sym (stop-others prev x (refill prev s) p)
                  ∙ sym same)
                ∙ on in
              let at : x ≡ prev = one x ran in ground (arith, p, at))
        ]
      ],
    )
