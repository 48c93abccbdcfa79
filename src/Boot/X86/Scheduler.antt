-- ===== src/Boot/X86/Scheduler.antt =====
-- The dynamic priorities of kernel/boot/x86/scheduler.c: degradation of threads that use the processor,
-- recovery, and the boost of starving threads. The build-time settings of scheduler.h have their
-- defaults. Times are uint64_t and uint32_t, and wrap as written.
pub mod Charge
pub mod Age
mod Tests
use avr_kernel.Base.{
  ℕ, zero, suc, ◌+◌, ◌-◌, ◌*◌, ◌/◌, ◌^◌, Bool, true, false, not, ◌&&◌, Option, none, some,
  if◌then◌else◌, ltb, leb, ◌==◌, u32, u64,
}
use avr_kernel.Boot.X86.Mutex.{ThreadState, ready, running, sleeping, blocked, dead}

abbrev pub priority_idle : ℕ
priority_idle = 1

abbrev pub priority_realtime : ℕ
priority_realtime = 5

abbrev pub degrade_quanta : ℕ
degrade_quanta = 2

abbrev pub recover_ms : ℕ
recover_ms = 20

abbrev pub starvation_ms : ℕ
starvation_ms = 100

-- The members of `ThreadBlock` that the dynamic priority depends on.
pub record Thread : Type 0 where
  pub state : ThreadState
  pub priority : ℕ
  pub dyn_priority : ℕ
  pub boosted : Bool
  pub cpu_used_ms : ℕ
  pub recover_mark_ms : ℕ
  pub wait_mark_ms : ℕ

unfoldable pub thread_effective : Thread → ℕ
thread_effective t = if t.boosted then priority_realtime else t.dyn_priority

pub thread_init_dynamic : (priority now : ℕ) → Thread → Thread
thread_init_dynamic priority now t = record t {
  dyn_priority = priority;
  boosted = false;
  cpu_used_ms = 0;
  recover_mark_ms = now;
  wait_mark_ms = now;
}

-- The loop of `thread_charge_cpu`, with the rounds it may take.
pub charge_loop : (allotment rounds : ℕ) → Thread → Option Thread
charge_loop allotment zero t = none
charge_loop allotment (suc rounds) t =
    let rest =
      charge_loop allotment rounds
        (record t { dyn_priority = t.dyn_priority - 1; cpu_used_ms = t.cpu_used_ms - allotment }) in
    if ltb t.cpu_used_ms allotment
    then some t
    else if leb t.dyn_priority priority_idle
    then some (record t { cpu_used_ms = 0 })
    else rest

-- Each round lowers the priority, so it bounds the rounds.
pub thread_charge_cpu : ℕ → Thread → Option Thread
thread_charge_cpu ms t =
    if t.priority == priority_realtime
    then some (record t { cpu_used_ms = 0 })
    else charge_loop (u32 (t.priority * degrade_quanta)) (t.dyn_priority + 1)
        (record t { cpu_used_ms = u32 (t.cpu_used_ms + ms) })

pub thread_recover : Thread → Thread
thread_recover t =
    let t' = record t { cpu_used_ms = t.cpu_used_ms / 2 } in
    if ltb t'.dyn_priority t'.priority then record t' { dyn_priority = t'.dyn_priority + 1 } else t'

abbrev pub is_running : ThreadState → Bool
is_running running = true
is_running _ = false

abbrev pub is_ready : ThreadState → Bool
is_ready ready = true
is_ready _ = false

-- `now - mark`, a uint64_t.
abbrev pub since : ℕ → ℕ → ℕ
since mark now = u64 (now + 2 ^ 64 - mark)

-- The second half of `thread_age`, for a thread off the processor.
pub starve : ℕ → Thread → Thread
starve now t =
    if not (is_ready t.state)
    then record t { wait_mark_ms = now }
    else if not t.boosted && leb starvation_ms (since t.wait_mark_ms now)
    then record t { boosted = true }
    else t

pub thread_age : ℕ → Thread → Thread
thread_age now t =
    if is_running t.state
    then record t { recover_mark_ms = now; wait_mark_ms = now }
    else if leb recover_ms (since t.recover_mark_ms now)
    then starve now (thread_recover (record t { recover_mark_ms = now }))
    else starve now t
