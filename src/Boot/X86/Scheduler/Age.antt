-- ===== src/Boot/X86/Scheduler/Age.antt =====
-- What the operations of kernel/boot/x86/scheduler.c on the dynamic priority keep, and how long a
-- thread can starve.
use native.Mathlib.Nat.{mod-lt}
use avr_kernel.Base.{
  ℕ, ◌+◌, ◌/◌, ◌%◌, ◌^◌, ◌≤◌, ◌<◌, ◌≡◌, refl, ◌∙◌, ap, arith, true, false, ◌&&◌, ◌||◌, some, ltb,
  leb, Bool-cases, inl, inr,
}
use avr_kernel.Boot.X86.Mutex.{ThreadState, ready}
use avr_kernel.Boot.X86.Scheduler.{
  Thread, priority_idle, priority_realtime, recover_ms, starvation_ms, thread_effective,
  thread_init_dynamic, thread_charge_cpu, thread_recover, thread_age, starve, since, is_ready,
  is_running,
}
use avr_kernel.Boot.X86.Scheduler.Charge.{allotment, degraded, thread_charge_cpu-degraded}

-- The effective priority is between the lowest one and the base priority, and the use counted is less
-- than what costs a level.
pub record IsRanked (t : Thread) : Type 0 where
  pub lowest : priority_idle ≤ t.dyn_priority
  pub base : t.dyn_priority ≤ t.priority
  pub highest : t.priority ≤ priority_realtime
  pub used : t.cpu_used_ms < allotment t

pub thread_init_dynamic-IsRanked :
    (priority now : ℕ) (t : Thread)
    → priority_idle ≤ priority
    → priority ≤ priority_realtime
    → t.priority ≡ priority
    → IsRanked (thread_init_dynamic priority now t)
unfolding thread_init_dynamic
thread_init_dynamic-IsRanked priority now t low high e = omega (arith, e)

thread_recover-IsRanked : (t : Thread) → IsRanked t → IsRanked (thread_recover t)
unfolding thread_recover
thread_recover-IsRanked t v = elim (Bool-cases (ltb t.dyn_priority t.priority)) [
  | inl below ↦ rw below (ground (arith, v, below))
  | inr at_base ↦ rw at_base (ground (arith, v))
]

starve-IsRanked : (now : ℕ) (t : Thread) → IsRanked t → IsRanked (starve now t)
unfolding starve
starve-IsRanked now t v = ground (arith, v)

-- Aging keeps the dynamic priority between the lowest level and the base priority, and the use below
-- an allotment.
pub thread_age-IsRanked : (now : ℕ) (t : Thread) → IsRanked t → IsRanked (thread_age now t)
unfolding thread_age
thread_age-IsRanked now t v =
    let earned = record t { recover_mark_ms = now } in
    let recovered = thread_recover-IsRanked earned (omega (arith, v)) in
    elim (Bool-cases (is_running t.state)) [
      | inl on ↦ rw on (omega (arith, v))
      | inr off ↦ elim (Bool-cases (leb recover_ms (since t.recover_mark_ms now))) [
        | inl due ↦ rw (off, due) (starve-IsRanked now (thread_recover earned) recovered)
        | inr early ↦ rw (off, early) (starve-IsRanked now t v)
      ]
    ]

charge_realtime :
    (ms : ℕ) (t : Thread)
    → t.priority ≡ priority_realtime
    → thread_charge_cpu ms t ≡ some (record t { cpu_used_ms = 0 })
unfolding thread_charge_cpu
charge_realtime ms t e = ground (arith, e)

degraded-IsRanked :
    (q r : ℕ) (t : Thread)
    → IsRanked t
    → r < allotment t
    → IsRanked (degraded q r t) × ((degraded q r t).dyn_priority ≤ t.dyn_priority)
degraded-IsRanked q r t v lt = elim (Bool-cases (ltb q t.dyn_priority)) [
  | inl some_left ↦ rw some_left (ground (arith, v, lt, some_left))
  | inr none_left ↦ rw none_left (ground (arith, v))
]

-- Charging comes back, keeps the dynamic priority between the lowest level and the base priority and
-- the use below an allotment, and never raises the dynamic priority.
pub thread_charge_cpu-IsRanked :
    (ms : ℕ) (t : Thread)
    → IsRanked t
    → t.cpu_used_ms + ms < 2 ^ 32
    → (u : Thread) × (thread_charge_cpu ms t ≡ some u)
      × IsRanked u
      × (u.dyn_priority ≤ t.dyn_priority)
thread_charge_cpu-IsRanked ms t v fits = elim (Bool-cases (ltb t.priority priority_realtime)) [
  | inl below ↦
      let n = t.cpu_used_ms + ms in
      let (ranked, lower) =
        degraded-IsRanked (n / allotment t) (n % allotment t) t v (mod-lt n (omega (arith, v))) in
      (
        _,
        thread_charge_cpu-degraded ms t (omega (arith, v)) (omega (arith, v))
            (ground (arith, below)) fits,
        ranked,
        lower,
      )
  | inr top ↦ (_, charge_realtime ms t (ground (arith, v, top)), ground (arith, v), omega arith)
]

not_both : (s : ThreadState) → is_running s ≡ true → is_ready s ≡ false
not_both ThreadState.running e = refl
not_both ThreadState.ready e = ground (arith, e)
not_both ThreadState.sleeping e = refl
not_both ThreadState.blocked e = refl
not_both ThreadState.dead e = refl

recover-rest :
    (t : Thread)
    → ((thread_recover t).boosted ≡ t.boosted)
      × ((thread_recover t).state ≡ t.state)
      × ((thread_recover t).wait_mark_ms ≡ t.wait_mark_ms)
unfolding thread_recover
recover-rest t = ground arith

starve-boosted :
    (now : ℕ) (t : Thread)
    → (starve now t).boosted
      ≡ (t.boosted || (is_ready t.state && leb starvation_ms (since t.wait_mark_ms now)))
unfolding starve
starve-boosted now t = ground arith

-- Aging boosts exactly the threads that have waited for the processor, ready, for the starvation time,
-- and leaves boosted threads boosted.
pub thread_age-boosted :
    (now : ℕ) (t : Thread)
    → (thread_age now t).boosted
      ≡ (t.boosted || (is_ready t.state && leb starvation_ms (since t.wait_mark_ms now)))
unfolding thread_age
thread_age-boosted now t =
    let earned = record t { recover_mark_ms = now } in
    let kept = recover-rest earned in
    let same : ((thread_recover earned).boosted
          || (is_ready ((thread_recover earned).state)
              && leb starvation_ms (since ((thread_recover earned).wait_mark_ms) now)))
        ≡ (t.boosted || (is_ready t.state && leb starvation_ms (since t.wait_mark_ms now))) =
      rw (kept.0, kept.1, kept.2) refl in
    elim (Bool-cases (is_running t.state)) [
      | inl on ↦ rw (on, not_both t.state on) (ground arith)
      | inr off ↦ elim (Bool-cases (leb recover_ms (since t.recover_mark_ms now))) [
        | inl due ↦ rw (off, due) (starve-boosted now (thread_recover earned) ∙ same)
        | inr early ↦ rw (off, early) (starve-boosted now t)
      ]
    ]

-- A ready thread that has waited for the starvation time competes, once aged, at the highest priority,
-- whatever its own.
pub thread_effective-thread_age :
    (now : ℕ) (t : Thread)
    → t.state ≡ ready
    → starvation_ms ≤ since t.wait_mark_ms now
    → thread_effective (thread_age now t) ≡ priority_realtime
unfolding thread_effective
thread_effective-thread_age now t e long =
    ground (arith, thread_age-boosted now t, ap is_ready e, long)
