-- ===== src/Boot/X86/Dispatch/Choose.antt =====
-- Which thread runs next: one of the highest effective priority, in turn.
use mathlib.Core.Path.{subst}
use avr_kernel.Base.{
  ℕ, ◌+◌, ◌<◌, ◌≤◌, ◌≡◌, ◌≢◌, refl, sym, ap, ◌∙◌, arith, ◌⊎◌, inl, inr, Bool, true, false, ◌&&◌,
  ◌||◌, some, List, [], ◌∷◌, ◌++◌, length, length-append, if◌then◌else◌, ◌==◌, Bool-cases,
}
use avr_kernel.Boot.X86.Dispatch.{
  Run, Choice, nothing, keep, switch, choose, runnable, effective, is_dead, state_of,
}
use avr_kernel.Boot.X86.Dispatch.Ring.{
  Links, Among, Lacks, Links-join, Links-turn, Among-append, Among-split, highest-IsHighest, stands,
  NoneStands, search-first,
}

-- The run queue is a ring of these threads.
abbrev pub IsRing : Run → List ℕ → Type 0
IsRing s [] = s.thread_queue ≡ 0
IsRing s (q ∷ xs) = (s.thread_queue ≡ q) × (q ≢ 0) × Links s.blocks q (q ∷ xs) q × Lacks q xs

-- The order in which the threads have their turn after `prev`: from the one behind it on, with `prev`
-- last; from the front of the queue on, when `prev` is the idle thread or dead.
abbrev pub IsTurn : Run → (prev : ℕ) (queue turn : List ℕ) → Type 0
IsTurn s prev queue turn =
    (((prev == s.idle_thread || is_dead (state_of s.blocks prev)) ≡ true) × (turn ≡ queue))
    ⊎ (((prev == s.idle_thread || is_dead (state_of s.blocks prev)) ≡ false)
        × ((xs ys : List ℕ) × (queue ≡ xs ++ (prev ∷ ys)) × (turn ≡ ys ++ (xs ++ (prev ∷ [])))))

-- No thread of the queue is runnable with a higher effective priority than `t`.
abbrev pub IsTop : Run → List ℕ → ℕ → Type 0
IsTop s queue t =
    (x : ℕ)
    → Among x queue
    → runnable s.blocks x ≡ true
    → effective s.blocks x ≤ effective s.blocks t

-- What the choice is.
abbrev pub IsChosen :
    Run → (prev : ℕ) (prev_continues : Bool) (queue turn : List ℕ) → Choice → Type 0
IsChosen s prev prev_continues queue turn nothing =
    (s.idle_thread ≡ 0) × ((x : ℕ) → Among x queue → runnable s.blocks x ≡ false)
IsChosen s prev prev_continues queue turn keep = (prev_continues ≡ true) × IsTop s queue prev
IsChosen s prev prev_continues queue turn (switch c) =
    ((c ≡ s.idle_thread) × ((x : ℕ) → Among x queue → runnable s.blocks x ≡ false))
    ⊎ ((runnable s.blocks c ≡ true)
        × IsTop s queue c
        × ((prev_continues && effective s.blocks prev == effective s.blocks c) ≡ false)
        × ((before after : List ℕ) × (turn ≡ before ++ (c ∷ after))
            × NoneStands s.blocks (effective s.blocks c + 1) before))

-- The search begins where the turn does, and goes over all threads of the queue.
turn-Links :
    (s : Run) (prev q : ℕ) (xs turn : List ℕ)
    → IsRing s (q ∷ xs)
    → IsTurn s prev (q ∷ xs) turn
    → (t : ℕ) × (e : ℕ) × ((if prev == s.idle_thread || is_dead (state_of s.blocks prev)
          then s.thread_queue
          else (s.blocks prev).next)
        ≡ t)
      × Links s.blocks t turn e
      × ((x : ℕ) → Among x (q ∷ xs) → Among x turn)
      × (length turn ≡ length (q ∷ xs))
turn-Links s prev q xs turn ring (inl (b, same)) =
    (q, q, rw b ring.0, rw same ring.2, λ x k. rw same k, ap length same)
turn-Links s prev q xs turn ring (inr (b, (front, back, whole, order))) =
    let split =
      Links-turn s.blocks front back prev q q
        (subst (λ (l : List ℕ). Links s.blocks q l q) whole ring.2) in
    (
      (s.blocks prev).next,
      (s.blocks prev).next,
      rw b refl,
      rw order (
          Links-join s.blocks back (front ++ (prev ∷ [])) (s.blocks prev).next q
            (s.blocks prev).next split.1
            (Links-join s.blocks front (prev ∷ []) q prev (s.blocks prev).next split.0
              (refl, refl))),
      λ x k. rw order (elim (Among-split x front (prev ∷ back) (subst (Among x) whole k)) [
        | inl a ↦
            Among-append x back (front ++ (prev ∷ []))
              (inr (Among-append x front (prev ∷ []) (inl a)))
        | inr (inl e) ↦
            Among-append x back (front ++ (prev ∷ []))
              (inr (Among-append x front (prev ∷ []) (inr (inl e))))
        | inr (inr a) ↦ Among-append x back (front ++ (prev ∷ [])) (inl a)
      ]),
      ap length order
          ∙ omega (
            arith,
            ap length whole,
            length-append back (front ++ (prev ∷ [])),
            length-append front (prev ∷ []),
            length-append front (prev ∷ back),
          ),
    )

idle_choice :
    (s : Run) (prev : ℕ) (prev_continues : Bool) (queue turn : List ℕ)
    → ((x : ℕ) → Among x queue → runnable s.blocks x ≡ false)
    → IsChosen s prev prev_continues queue turn
        (if s.idle_thread == 0 then nothing else switch s.idle_thread)
idle_choice s prev prev_continues queue turn none_on = elim (Bool-cases (s.idle_thread == 0)) [
  | inl e ↦ rw e (ground (arith, e), none_on)
  | inr e ↦ rw e (inl (refl, none_on))
]

-- The scheduler runs a thread of the highest priority, in turn: for a run queue that is a ring of fewer
-- threads than the rounds, and its order of turns after the thread that ran, the choice ends. It is
-- the idle thread (or nothing, when there is none) only when no thread of the queue is runnable. The
-- thread that ran keeps the processor only when its quantum goes on and no runnable thread has a
-- higher effective priority. Else the choice is a runnable thread such that none has a higher one, and
-- it is the first such thread in the order of turns.
pub choose-IsChosen :
    (queue turn : List ℕ) (rounds prev : ℕ) (prev_continues : Bool) (s : Run)
    → IsRing s queue
    → IsTurn s prev queue turn
    → length queue < rounds
    → (c : Choice) × (choose rounds prev prev_continues s ≡ some c)
      × IsChosen s prev prev_continues queue turn c
unfolding choose
choose-IsChosen [] turn rounds prev prev_continues s ring order lt =
    let no_queue : (s.thread_queue == 0) ≡ true = ground (arith, ring) in
    (
      (if s.idle_thread == 0 then nothing else switch s.idle_thread),
      rw no_queue refl,
      idle_choice s prev prev_continues [] turn (λ x k. elim k [ ]),
    )
choose-IsChosen (q ∷ xs) turn rounds prev prev_continues s ring order lt =
    let some_queue : (s.thread_queue == 0) ≡ false = ground (arith, ring.0, ring.1) in
    let high = highest-IsHighest xs s.blocks q rounds q 0 ring.2 ring.3 (omega arith) in
    let mx = high.0 in
    let top = high.2 in
    elim (Bool-cases (mx == 0)) [
      | inl z ↦
          let idle : (x : ℕ) → Among x (q ∷ xs) → runnable s.blocks x ≡ false = λ x k.
            elim (Bool-cases (runnable s.blocks x)) [
              | inl on ↦ absurd (ground (arith, z, top.1 x k on))
              | inr off ↦ off
            ] in
          (
            (if s.idle_thread == 0 then nothing else switch s.idle_thread),
            rw (some_queue, ring.0, high.1, z) refl,
            idle_choice s prev prev_continues (q ∷ xs) turn idle,
          )
      | inr nz ↦ elim top.2 [
        | inl e ↦ absurd (ground (arith, nz, e))
        | inr (w, among, on, e) ↦
            elim (Bool-cases (prev_continues && effective s.blocks prev + 1 == mx)) [
              | inl stays ↦
                  let level : effective s.blocks prev + 1 ≡ mx = ground (arith, stays) in
                  (
                    keep,
                    rw (some_queue, ring.0, high.1, nz, stays) refl,
                    (ground (arith, stays), λ x k on'. omega (arith, top.1 x k on', level)),
                  )
              | inr leaves ↦
                  let (t, end, start, links, all, len) = turn-Links s prev q xs turn ring order in
                  let at : stands s.blocks mx w ≡ true = ground (arith, on, e) in
                  let f =
                    search-first turn s.blocks t end rounds mx w links (all w among) at
                      (omega (arith, len, lt)) in
                  let level : effective s.blocks f.0 + 1 ≡ mx = ground (arith, f.6) in
                  (
                    switch f.0,
                    rw (some_queue, ring.0, high.1, nz, leaves, sym ring.0, start, f.3) refl,
                    inr (
                      ground (arith, f.6),
                      λ x k on'. omega (arith, top.1 x k on', level),
                      ground (arith, leaves, level),
                      (f.1, f.2, f.4, rw level f.5),
                    ),
                  )
            ]
      ]
    ]
