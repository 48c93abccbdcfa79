-- ===== src/Boot/X86/Scheduler/Charge.antt =====
-- thread_charge_cpu of kernel/boot/x86/scheduler.c in closed form.
use native.Mathlib.Nat.{add-mul, one-mul, mod-lt, div-add-mod'}
use avr_kernel.Base.{
  ℕ, zero, suc, ◌+◌, ◌-◌, ◌*◌, ◌/◌, ◌%◌, ◌^◌, ◌<◌, ◌≡◌, arith, false, some, if◌then◌else◌, ltb,
  ◌==◌, u32,
}
use avr_kernel.Boot.X86.Scheduler.{
  Thread, priority_idle, priority_realtime, degrade_quanta, charge_loop, thread_charge_cpu,
}

-- The thread after `q` whole allotments and `r` milliseconds of use.
abbrev pub degraded : (q r : ℕ) → Thread → Thread
degraded q r t = record t {
  dyn_priority = if ltb q t.dyn_priority then t.dyn_priority - q else priority_idle;
  cpu_used_ms = if ltb q t.dyn_priority then r else 0;
}

charge_loop_lem :
    (allotment rounds q r : ℕ) (t : Thread)
    → 0 < t.dyn_priority
    → t.dyn_priority < rounds
    → r < allotment
    → t.cpu_used_ms ≡ q * allotment + r
    → charge_loop allotment rounds t ≡ some (degraded q r t)
unfolding charge_loop
charge_loop_lem allotment zero q r t pos lt hr e = absurd (omega arith)
charge_loop_lem allotment (suc rounds) zero r t pos lt hr e = ground (arith, pos, hr, e)
charge_loop_lem allotment (suc rounds) (suc q) r t pos lt hr e =
    let step : suc q * allotment ≡ q * allotment + allotment =
      omega (arith, add-mul q 1 allotment, one-mul allotment) in
    ground (
      arith,
      pos,
      step,
      e,
      charge_loop_lem allotment rounds q r
          (record t { dyn_priority = t.dyn_priority - 1; cpu_used_ms = t.cpu_used_ms - allotment }),
    )

-- The use that costs a level of priority.
abbrev pub allotment : Thread → ℕ
allotment t = t.priority * degrade_quanta

-- Charging a thread below the realtime priority takes one level off for each whole allotment of its
-- use, down to the lowest level, and keeps the rest of the use, or none at the lowest level; the loop
-- ends.
pub thread_charge_cpu-degraded :
    (ms : ℕ) (t : Thread)
    → 0 < t.dyn_priority
    → 0 < t.priority
    → t.priority < priority_realtime
    → t.cpu_used_ms + ms < 2 ^ 32
    → thread_charge_cpu ms t
      ≡ some (degraded ((t.cpu_used_ms + ms) / allotment t) ((t.cpu_used_ms + ms) % allotment t) t)
unfolding thread_charge_cpu
thread_charge_cpu-degraded ms t pos prio below fits =
    rw (not_realtime, allot, used)
      (charge_loop_lem a (t.dyn_priority + 1) (n / a) (n % a) (record t { cpu_used_ms = n }) pos
        (omega arith) (mod-lt n (omega (arith, prio))) (omega (arith, div-add-mod' n a)))
  where
    n : ℕ
    n = t.cpu_used_ms + ms

    a : ℕ
    a = t.priority * degrade_quanta

    not_realtime : (t.priority == priority_realtime) ≡ false
    not_realtime = ground (arith, below)

    allot : u32 (t.priority * degrade_quanta) ≡ a
    allot = omega (arith, below)

    used : u32 (t.cpu_used_ms + ms) ≡ n
    used = omega (arith, fits)
