-- ===== src/Boot/X86/Dispatch/Tests.antt =====
-- A run queue of three threads.
use avr_kernel.Base.{ℕ, ◌≡◌, refl, arith, inr, false, some, [], ◌∷◌, if◌then◌else◌, ◌==◌}
use avr_kernel.Boot.X86.Mutex.{ThreadState, ready, running, sleeping}
use avr_kernel.Boot.X86.Scheduler.{Thread, thread_effective}
use avr_kernel.Boot.X86.Dispatch.{
  Block, Run, Choice, choose, highest, search, switch, switch_to, state_of,
}
use avr_kernel.Boot.X86.Dispatch.Choose.{IsRing, IsTurn, IsChosen, choose-IsChosen}
use avr_kernel.Boot.X86.Dispatch.Switch.{OneRuns, switch_to-OneRuns}

abbrev thread : ThreadState → (dyn_priority : ℕ) → Thread
thread state dyn_priority = record {
  state = state;
  priority = 4;
  dyn_priority = dyn_priority;
  boosted = false;
  cpu_used_ms = 0;
  recover_mark_ms = 0;
  wait_mark_ms = 0;
}

abbrev block : Thread → (next : ℕ) → Block
block t next = record {
  dynamic = t;
  esp = 0;
  ticks_remaining = 1;
  wake_tick = 0;
  next = next;
  reap_next = 0;
}

-- 10 runs, 20 sleeps, 30 is ready, and 40 is idle; all of the queue have priority 3.
abbrev three : Run
three = record {
  blocks = λ t.
      if t == 10
      then block (thread running 3) 20
      else if t == 20
      then block (thread sleeping 3) 30
      else if t == 30
      then block (thread ready 3) 10
      else block (thread ready 1) 0;
  current_thread = 10;
  thread_queue = 10;
  idle_thread = 40;
  reap_list = 0;
  sched_last_ms = 0;
}

three-IsRing : IsRing three (10 ∷ 20 ∷ 30 ∷ [])
three-IsRing = (refl, omega arith, (refl, (refl, (refl, refl))), (omega arith, (omega arith, tt)))

three-IsTurn : IsTurn three 10 (10 ∷ 20 ∷ 30 ∷ []) (20 ∷ 30 ∷ 10 ∷ [])
three-IsTurn = inr (refl, ([], 20 ∷ 30 ∷ [], refl, refl))

choose-IsChosen_example :
    (c : Choice) × (choose 4 10 false three ≡ some c)
    × IsChosen three 10 false (10 ∷ 20 ∷ 30 ∷ []) (20 ∷ 30 ∷ 10 ∷ []) c
choose-IsChosen_example =
    choose-IsChosen (10 ∷ 20 ∷ 30 ∷ []) (20 ∷ 30 ∷ 10 ∷ []) 4 10 false three three-IsRing
      three-IsTurn (omega arith)

choose_test : choose 4 10 false three ≡ some (switch 30)
unfolding choose highest search thread_effective
choose_test = refl

three-OneRuns : OneRuns three
three-OneRuns x on = ground (arith, on)

switch_to-OneRuns_example :
    ((switch_to 10 30 three).current_thread ≡ 30)
    × (state_of (switch_to 10 30 three).blocks 30 ≡ running)
    × OneRuns (switch_to 10 30 three)
switch_to-OneRuns_example = switch_to-OneRuns 30 three three-OneRuns
