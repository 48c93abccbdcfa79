-- ===== src/Boot/X86/Events.antt =====
-- The events of kernel/boot/x86/scheduler.c. Pointers are numbers, 0 is NULL. The loops over the wait
-- list run on rounds. A call of event_wait that has to wait is two steps, up to the switch of
-- thread_yield and from it on. The tick counter that thread_yield clears is not part of the state.
pub mod Signal
pub mod Remove
mod Tests
use avr_kernel.Base.{
  ℕ, zero, suc, ◌+◌, ◌^◌, Bool, true, false, not, ◌||◌, Option, none, some, if◌then◌else◌, ◌==◌,
  ◌!=◌, u64, upd,
}
use avr_kernel.Boot.X86.Mutex.{ThreadState, ready, running, sleeping, blocked, dead}

-- The members of `ThreadBlock` that events use.
pub record Waiter : Type 0 where
  pub state : ThreadState
  pub wake_tick : ℕ
  pub wait_event : ℕ
  pub wait_next : ℕ
  pub wait_signaled : Bool

pub record Event : Type 0 where
  pub signaled : Bool
  pub waiters : ℕ

pub record System : Type 0 where
  pub current_thread : ℕ
  pub threads : ℕ → Waiter
  pub events : ℕ → Event

abbrev pub set_thread : ℕ → Waiter → System → System
set_thread t w s = record s { threads = upd s.threads t w }

abbrev pub set_event : ℕ → Event → System → System
set_event event e s = record s { events = upd s.events event e }

pub event_init : ℕ → System → System
event_init event s =
    if event == 0 then s else set_event event (record { signaled = false; waiters = 0 }) s

abbrev pub is_waiting : ThreadState → Bool
is_waiting sleeping = true
is_waiting blocked = true
is_waiting _ = false

-- What `event_signal` does to a waiter.
abbrev pub woken : Waiter → Waiter
woken w = record w {
  state = if is_waiting w.state then ready else w.state;
  wait_event = 0;
  wait_next = 0;
  wait_signaled = true;
}

pub wake_all : (rounds t : ℕ) → System → Option System
wake_all zero t s = if t == 0 then some s else none
wake_all (suc rounds) t s =
    let rest = wake_all rounds (s.threads t).wait_next (set_thread t (woken (s.threads t)) s) in
    if t == 0 then some s else rest

pub event_signal : (rounds event : ℕ) → System → Option System
event_signal rounds event s =
    let e = s.events event in
    if event == 0
    then some s
    else if e.waiters == 0
    then some (set_event event (record e { signaled = true }) s)
    else wake_all rounds e.waiters (set_event event (record e { waiters = 0 }) s)

-- Whether `event_wait` has returned, or its thread has given up the processor inside it.
pub data Waiting : Type 0 where
  returned : Bool → System → Waiting
  yielded : System → Waiting

-- How `event_wait` leaves the thread that waits.
abbrev pub listed : (timeout_ms now event waiters : ℕ) → Waiter → Waiter
listed timeout_ms now event waiters self = record {
  state = if timeout_ms == 0 then blocked else sleeping;
  wake_tick = if timeout_ms == 0 then self.wake_tick else u64 (now + timeout_ms);
  wait_event = event;
  wait_next = waiters;
  wait_signaled = false;
}

-- `event_wait` up to the switch; `now` is what the timer says.
pub event_wait : (timeout_ms now event : ℕ) → System → Waiting
event_wait timeout_ms now event s =
    let e = s.events event in
    let self = s.threads s.current_thread in
    let consumed = set_event event (record e { signaled = false }) s in
    if event == 0
    then returned false s
    else if s.current_thread == 0
    then returned e.signaled consumed
    else if e.signaled
    then returned true consumed
    else yielded (
        set_thread s.current_thread (listed timeout_ms now event e.waiters self)
          (set_event event (record e { waiters = s.current_thread }) s))

-- The loop of `event_remove_waiter`: the link is the event's for `prev` 0, that of thread `prev` else.
pub unlink : (rounds prev event thread : ℕ) → System → Option System
unlink zero prev event thread s = none
unlink (suc rounds) prev event thread s =
    let link = if prev == 0 then (s.events event).waiters else (s.threads prev).wait_next in
    let rest = unlink rounds link event thread s in
    let behind = (s.threads thread).wait_next in
    if link == 0
    then some s
    else if link != thread
    then rest
    else if prev == 0
    then some (set_event event (record (s.events event) { waiters = behind }) s)
    else some (set_thread prev (record (s.threads prev) { wait_next = behind }) s)

abbrev pub detached : ℕ → System → System
detached thread s =
    set_thread thread (record (s.threads thread) { wait_next = 0; wait_event = 0 }) s

abbrev pub detach : ℕ → Option System → Option System
detach thread none = none
detach thread (some s) = some (detached thread s)

pub event_remove_waiter : (rounds event thread : ℕ) → System → Option System
event_remove_waiter rounds event thread s = detach thread (unlink rounds 0 event thread s)

-- What `event_wait` returns at last.
abbrev pub answer : ℕ → Option System → Option (Bool × System)
answer self none = none
answer self (some s) = some (
  (s.threads self).wait_signaled,
  set_thread self (record (s.threads self) { wait_signaled = false }) s,
)

-- `event_wait` from the switch on.
pub event_wait_resume : (rounds event self : ℕ) → System → Option (Bool × System)
event_wait_resume rounds event self s = answer self (
    if (s.threads self).wait_event == event
    then event_remove_waiter rounds event self s
    else some s)
