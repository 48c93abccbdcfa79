-- ===== src/Boot/X86/Dispatch.antt =====
-- thread_handler_c of kernel/boot/x86/scheduler.c: the run queue, a ring of threads, and the choice of
-- the thread that runs next. A thread is its address, 0 is NULL. The loops over the ring run on rounds.
-- Saving and restoring the FPU state is left out, and so is what vmm_free_pages and free do with a
-- reaped thread: its address is handed on.
pub mod Ring
pub mod Choose
pub mod Switch
mod Tests
use avr_kernel.Base.{
  ℕ, zero, suc, ◌+◌, ◌-◌, ◌^◌, Bool, true, false, not, ◌&&◌, ◌||◌, Option, none, some, List, [],
  ◌∷◌, if◌then◌else◌, ltb, leb, ◌==◌, ◌!=◌, u32, upd, ◌>>=◌,
}
use avr_kernel.Boot.X86.Mutex.{ThreadState, ready, running, sleeping, blocked, dead}
use avr_kernel.Boot.X86.Scheduler.{
  Thread, thread_effective, thread_charge_cpu, thread_recover, thread_age, is_ready, is_running,
}

-- `ThreadBlock`: the members of the dynamic priority, and the others that the handler uses.
pub record Block : Type 0 where
  pub dynamic : Thread
  pub esp : ℕ
  pub ticks_remaining : ℕ
  pub wake_tick : ℕ
  pub next : ℕ
  pub reap_next : ℕ

-- The static variables of the file, and the thread blocks in memory.
pub record Run : Type 0 where
  pub blocks : ℕ → Block
  pub current_thread : ℕ
  pub thread_queue : ℕ
  pub idle_thread : ℕ
  pub reap_list : ℕ
  pub sched_last_ms : ℕ

pub set_block : ℕ → Block → Run → Run
set_block t b s = record s { blocks = upd s.blocks t b }

pub set_dynamic : ℕ → Thread → Run → Run
set_dynamic t d s = set_block t (record (s.blocks t) { dynamic = d }) s

abbrev pub is_dead : ThreadState → Bool
is_dead dead = true
is_dead _ = false

abbrev pub is_sleeping : ThreadState → Bool
is_sleeping sleeping = true
is_sleeping _ = false

abbrev pub is_blocked : ThreadState → Bool
is_blocked blocked = true
is_blocked _ = false

abbrev pub state_of : (ℕ → Block) → ℕ → ThreadState
state_of blocks t = (blocks t).dynamic.state

abbrev pub runnable : (ℕ → Block) → ℕ → Bool
runnable blocks t = is_ready (state_of blocks t) || is_running (state_of blocks t)

abbrev pub effective : (ℕ → Block) → ℕ → ℕ
effective blocks t = thread_effective (blocks t).dynamic

-- The walk of `unlink_thread` to the thread before `dead`.
pub find_prev : (rounds t dead_thread : ℕ) → (ℕ → Block) → Option ℕ
find_prev zero t dead_thread blocks = none
find_prev (suc rounds) t dead_thread blocks =
    let rest = find_prev rounds (blocks t).next dead_thread blocks in
    if (blocks t).next != dead_thread then rest else some t

pub unlink_thread : (rounds dead_thread : ℕ) → Run → Option Run
unlink_thread rounds dead_thread s =
    if s.thread_queue == 0 || dead_thread == 0
    then some s
    else if (s.blocks dead_thread).next == dead_thread
    then some (record s { thread_queue = 0 })
    else do
      prev ← find_prev rounds dead_thread dead_thread s.blocks
      let following = (s.blocks dead_thread).next
      let s' = set_block prev (record (s.blocks prev) { next = following }) s
      some (
          if s'.thread_queue == dead_thread
          then record s' { thread_queue = (s'.blocks dead_thread).next }
          else s')

-- The threads that are freed, and the state with an empty list.
pub reap_threads : (rounds : ℕ) → Run → Option (List ℕ × Run)
reap_threads zero s = none
reap_threads (suc rounds) s =
    let rest = do
      r ← reap_threads rounds (record s { reap_list = (s.blocks s.reap_list).reap_next })
      some (s.reap_list ∷ r.0, r.1)
    in if s.reap_list != 0 then rest else some ([], s)

-- The count at the start of the first pass.
pub count_ring : (rounds t : ℕ) → (start : ℕ) → (ℕ → Block) → Option ℕ
count_ring zero t start blocks = none
count_ring (suc rounds) t start blocks =
    let rest = do n ← count_ring rounds (blocks t).next start blocks; some (n + 1)
    in if (blocks t).next != start then rest else some 1

-- One round of the first pass.
pub visit : (rounds t now : ℕ) → Run → Option Run
visit rounds t now s =
    let b = s.blocks t in
    let woken =
      if is_sleeping b.dynamic.state && leb b.wake_tick now
      then set_dynamic t (record b.dynamic { state = ready }) s
      else s in
    if not (is_dead (state_of woken.blocks t))
    then some (set_dynamic t (thread_age now (woken.blocks t).dynamic) woken)
    else do
      s' ← unlink_thread rounds t woken
      let linked = set_block t (record (s'.blocks t) { reap_next = s'.reap_list }) s'
      some (record linked { reap_list = t })

-- The first pass.
pub first_pass : (count rounds t now : ℕ) → Run → Option Run
first_pass zero rounds t now s = some s
first_pass (suc count) rounds t now s =
    let following = (s.blocks t).next in
    if s.thread_queue == 0
    then some s
    else do s' ← visit rounds t now s; first_pass count rounds following now s'

-- The second pass: the highest effective priority of a runnable thread, plus 1; 0 stands for -1.
pub highest : (rounds t start max_priority : ℕ) → (ℕ → Block) → Option ℕ
highest zero t start max_priority blocks = none
highest (suc rounds) t start max_priority blocks =
    let max' =
      if runnable blocks t && leb max_priority (effective blocks t)
      then effective blocks t + 1
      else max_priority in
    let rest = highest rounds (blocks t).next start max' blocks in
    if (blocks t).next != start then rest else some max'

-- The round-robin search.
pub search : (rounds next max_priority : ℕ) → (ℕ → Block) → Option ℕ
search zero next max_priority blocks = none
search (suc rounds) next max_priority blocks =
    let rest = search rounds (blocks next).next max_priority blocks in
    if runnable blocks next && effective blocks next + 1 == max_priority then some next else rest

-- What the second half of the handler decides.
pub data Choice : Type 0 where
  -- Nothing is runnable, and there is no idle thread.
  nothing : Choice
  -- The thread that runs keeps the processor for the rest of its quantum.
  keep : Choice
  -- The thread runs next.
  switch : ℕ → Choice

-- From the second pass to the search.
pub choose : (rounds prev : ℕ) (prev_continues : Bool) → Run → Option Choice
choose rounds prev prev_continues s = do
  max_priority ←
      (if s.thread_queue == 0
        then some 0
        else highest rounds s.thread_queue s.thread_queue 0 s.blocks)
  (if max_priority == 0
      then some (if s.idle_thread == 0 then nothing else switch s.idle_thread)
      else if prev_continues && effective s.blocks prev + 1 == max_priority
      then some keep
      else do
        let search_start =
            if prev == s.idle_thread || is_dead (state_of s.blocks prev)
            then s.thread_queue
            else (s.blocks prev).next
        next ← search rounds search_start max_priority s.blocks
        some (switch next))

-- The running time of the thread that ran: `now - sched_last_ms`, as a uint32_t.
abbrev pub elapsed_ms : (now : ℕ) → Run → ℕ
elapsed_ms now s = u32 (now + 2 ^ 64 - s.sched_last_ms)

-- The charge for the thread that ran.
pub charge : (prev now : ℕ) → Run → Option Run
charge prev now s =
    let timed = record s { sched_last_ms = now } in
    if prev == s.idle_thread || is_dead (state_of s.blocks prev) then some timed else do
      d ← thread_charge_cpu (elapsed_ms now s) (s.blocks prev).dynamic
      let d' = if is_sleeping d.state || is_blocked d.state then thread_recover d else d
      some (set_dynamic prev d' timed)

-- The outgoing thread gets a new quantum.
pub refill : (prev : ℕ) → Run → Run
refill prev s =
    let p = s.blocks prev in
    if prev == s.idle_thread
    then s
    else set_block prev (record p { ticks_remaining = p.dynamic.priority }) s

-- The outgoing thread stops.
pub stop : (prev : ℕ) → Run → Run
stop prev s =
    if is_running (state_of s.blocks prev)
    then set_dynamic prev (record (s.blocks prev).dynamic { state = ready }) s
    else s

-- The next thread starts.
pub start : (next : ℕ) → Run → Run
start next s = record (set_dynamic next (record (s.blocks next).dynamic { state = running }) s) {
  current_thread = next;
}

pub switch_to : (prev next : ℕ) → Run → Run
switch_to prev next s = start next (stop prev (refill prev s))

-- The stack pointer to go on with, the state, and the threads that are freed.
pub thread_handler_c : (rounds now current_esp : ℕ) → Run → Option (ℕ × Run × List ℕ)
thread_handler_c rounds now current_esp s =
    let prev = s.current_thread in
    if s.thread_queue == 0 || prev == 0 then some (current_esp, s, []) else do
      let saved =
          if is_dead (state_of s.blocks prev)
          then s
          else set_block prev (record (s.blocks prev) { esp = current_esp }) s
      reaped ← reap_threads rounds saved
      charged ← charge prev now reaped.1
      count ← count_ring rounds charged.thread_queue charged.thread_queue charged.blocks
      aged ← first_pass count rounds charged.thread_queue now charged
      let b = aged.blocks prev
      let prev_continues =
          not (prev == aged.idle_thread) && (is_running b.dynamic.state && ltb 1 b.ticks_remaining)
      let calmed =
          if not (prev == aged.idle_thread) && not prev_continues
          then set_dynamic prev (record b.dynamic { boosted = false }) aged
          else aged
      choice ← choose rounds prev prev_continues calmed
      some (elim choice [
        | nothing ↦ (current_esp, calmed, reaped.0)
        | keep ↦ (
          current_esp,
          set_block prev
              (record (calmed.blocks prev) {
                ticks_remaining = (calmed.blocks prev).ticks_remaining - 1;
              })
              calmed,
          reaped.0,
        )
        | switch next ↦ let s' = switch_to prev next calmed in ((s'.blocks next).esp, s', reaped.0)
      ])
