-- ===== src/Boot/X86/Scheduler/Tests.antt =====
-- A thread of normal priority.
use avr_kernel.Base.{arith, false}
use avr_kernel.Boot.X86.Mutex.{ready}
use avr_kernel.Boot.X86.Scheduler.{Thread}
use avr_kernel.Boot.X86.Scheduler.Age.{IsRanked}

abbrev normal : Thread
normal = record {
  state = ready;
  priority = 3;
  dyn_priority = 3;
  boosted = false;
  cpu_used_ms = 4;
  recover_mark_ms = 1000;
  wait_mark_ms = 1000;
}

normal-IsRanked : IsRanked normal
normal-IsRanked = omega arith
