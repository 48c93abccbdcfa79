-- ===== src/Boot/X86/Events/Tests.antt =====
-- Threads 1 and 2, and the event at 8.
use avr_kernel.Base.{◌≡◌, refl, arith, if◌then◌else◌, ◌==◌, Bool, true, false, some, [], ◌∷◌}
use avr_kernel.Boot.X86.Mutex.{blocked, ready}
use avr_kernel.Boot.X86.Events.{
  Event, System, set_event, event_signal, event_wait, event_wait_resume, returned,
}
use avr_kernel.Boot.X86.Events.Signal.{
  IsWoken, event_signal-IsWoken, event_wait-signal, event_wait_resume-some,
}
use avr_kernel.Boot.X86.Events.Remove.{IsTakenOff, event_wait_resume-IsTakenOff}

abbrev system : Event → System
system e = record {
  current_thread = 1;
  threads = λ _. record {
    state = blocked;
    wake_tick = 0;
    wait_event = 8;
    wait_next = 0;
    wait_signaled = false;
  };
  events = λ _. e;
}

-- Thread 2 waits.
abbrev waited_for : System
waited_for = system (record { signaled = false; waiters = 2 })

abbrev quiet : System
quiet = system (record { signaled = false; waiters = 0 })

event_signal-IsWoken_example :
    (u : System) × (event_signal 1 8 waited_for ≡ some u)
    × IsWoken (2 ∷ []) (set_event 8 (record { signaled = false; waiters = 0 }) waited_for) u
event_signal-IsWoken_example =
    event_signal-IsWoken 1 8 2 [] waited_for (omega arith) (refl, omega arith, refl) (tt, tt)
      (omega arith)

event_wait-signal_example :
    (u v : System) × (event_signal 0 8 quiet ≡ some u)
    × (event_wait 50 1000 8 u ≡ returned true v)
    × (v.events 8 ≡ record { signaled = false; waiters = 0 })
    × (v.threads ≡ quiet.threads)
event_wait-signal_example = event_wait-signal 0 50 1000 8 quiet (omega arith) refl

-- Threads 3, 2 and 1 wait, in this order; the time of thread 2 is up.
abbrev timed_out : System
timed_out = record (system (record { signaled = false; waiters = 3 })) {
  threads = λ i. record {
    state = ready;
    wake_tick = 40;
    wait_event = 8;
    wait_next = if i == 3 then 2 else if i == 2 then 1 else 0;
    wait_signaled = false;
  };
}

event_wait_resume-IsTakenOff_example :
    (v : System) × (event_wait_resume 4 8 2 timed_out ≡ some (false, v))
    × IsTakenOff 8 2 (3 ∷ 2 ∷ 1 ∷ []) timed_out v
event_wait_resume-IsTakenOff_example =
    event_wait_resume-IsTakenOff 4 8 2 (3 ∷ 2 ∷ 1 ∷ []) timed_out refl
      (refl, omega arith, (refl, omega arith, (refl, omega arith, refl)))
      ((omega arith, (omega arith, tt)), ((omega arith, tt), (tt, tt))) (omega arith)

event_wait_resume-some_example :
    (b : Bool) × (v : System) × (event_wait_resume 2 8 2 waited_for ≡ some (b, v))
event_wait_resume-some_example =
    event_wait_resume-some 2 8 2 (2 ∷ []) waited_for (refl, omega arith, refl) (omega arith)
