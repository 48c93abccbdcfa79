-- ===== src/Boot/X86/Events/Signal.antt =====
-- A signal of kernel/boot/x86/scheduler.c reaches every waiter, or is kept for the next one.
use avr_kernel.Base.{
  ℕ, zero, suc, ◌+◌, ◌≤◌, ◌<◌, ◌≡◌, ◌≢◌, refl, ◌∙◌, sym, ap, arith, Bool, true, false, ◌||◌, some,
  if◌then◌else◌, ◌==◌, ◌⊎◌, upd, List, [], ◌∷◌, Bool-cases, inl, inr,
}
use mathlib.Core.Path.{subst}
use avr_kernel.Boot.X86.Mutex.{ThreadState, ready, running, sleeping, blocked, dead}
use avr_kernel.Boot.X86.Mutex.Queue.{IsFresh, IsDistinct}
use avr_kernel.Boot.X86.Events.{
  Waiter, System, set_thread, set_event, woken, is_waiting, wake_all, event_signal, event_wait,
  event_wait_resume, unlink, event_remove_waiter, answer, detached, listed, returned, yielded,
}

abbrev pub size : List ℕ → ℕ
size [] = 0
size (_ ∷ q) = size q + 1

abbrev pub among : ℕ → List ℕ → Bool
among i [] = false
among i (t ∷ q) = (i == t) || among i q

-- From `head` on the links visit the list, and end with null.
abbrev pub IsListed : (ℕ → Waiter) → ℕ → List ℕ → Type 0
IsListed threads head [] = head ≡ 0
IsListed threads head (t ∷ q) = (head ≡ t) × (t ≢ 0) × IsListed threads (threads t).wait_next q

-- A change of a thread outside the list leaves it.
pub IsListed-set :
    (threads : ℕ → Waiter) (t : ℕ) (w : Waiter) (head : ℕ) (q : List ℕ)
    → IsFresh t q
    → IsListed threads head q
    → IsListed (upd threads t w) head q
IsListed-set threads t w head [] f l = l
IsListed-set threads t w head (u ∷ q) f l =
    let away : (u == t) ≡ false = ground (arith, f.0) in
    (l.0, l.1, rw away (IsListed-set threads t w (threads u).wait_next q f.1 l.2))

among_fresh : (t : ℕ) (q : List ℕ) → IsFresh t q → among t q ≡ false
among_fresh t [] f = refl
among_fresh t (u ∷ q) f = ground (arith, f.0, among_fresh t q f.1)

-- Waking the first of the list and then the rest wakes the list.
woken_first :
    (threads : ℕ → Waiter) (t : ℕ) (q : List ℕ) (i : ℕ)
    → IsFresh t q
    → (if among i q
        then woken (upd threads t (woken (threads t)) i)
        else upd threads t (woken (threads t)) i)
      ≡ (if among i (t ∷ q) then woken (threads i) else threads i)
woken_first threads t q i fresh = elim (Bool-cases (i == t)) [
  | inl same ↦
      let here : i ≡ t = ground (arith, same) in
      let outside : among i q ≡ false = ap (λ x. among x q) here ∙ among_fresh t q fresh in
      rw (same, outside) (ap (λ x. woken (threads x)) (sym here))
  | inr other ↦ rw other refl
]

-- A waiter as a signal leaves it: off the list, with the answer true, and ready if it slept or was
-- blocked.
pub record IsAwake (before after : Waiter) : Type 0 where
  pub asleep : before.state ≡ sleeping ⊎ before.state ≡ blocked → after.state ≡ ready
  pub awake : before.state ≢ sleeping → before.state ≢ blocked → after.state ≡ before.state
  pub wake_tick : after.wake_tick ≡ before.wake_tick
  pub wait_event : after.wait_event ≡ 0
  pub wait_next : after.wait_next ≡ 0
  pub wait_signaled : after.wait_signaled ≡ true

pub record IsWoken (q : List ℕ) (s u : System) : Type 0 where
  pub current : u.current_thread ≡ s.current_thread
  pub events : u.events ≡ s.events
  pub waiters : (i : ℕ) → among i q ≡ true → IsAwake (s.threads i) (u.threads i)
  pub others : (i : ℕ) → among i q ≡ false → u.threads i ≡ s.threads i

woken-IsAwake : (w : Waiter) → IsAwake w (woken w)
woken-IsAwake w = record {
  asleep = λ e. waiting_ready w.state e;
  awake = λ n m. other_same w.state n m;
  wake_tick = refl;
  wait_event = refl;
  wait_next = refl;
  wait_signaled = refl;
}
  where
    waiting_ready :
        (x : ThreadState) → x ≡ sleeping ⊎ x ≡ blocked → (if is_waiting x then ready else x) ≡ ready
    waiting_ready x (inl e) = rw e refl
    waiting_ready x (inr e) = rw e refl

    other_same :
        (x : ThreadState) → x ≢ sleeping → x ≢ blocked → (if is_waiting x then ready else x) ≡ x
    other_same sleeping n m = absurd (n refl)
    other_same blocked n m = absurd (m refl)
    other_same ready n m = refl
    other_same running n m = refl
    other_same dead n m = refl

-- Every waiter of `q` has been through the body of the loop.
record IsThrough (q : List ℕ) (s u : System) : Type 0 where
  pub current : u.current_thread ≡ s.current_thread
  pub events : u.events ≡ s.events
  pub threads : (i : ℕ) → u.threads i ≡ (if among i q then woken (s.threads i) else s.threads i)

IsThrough-IsWoken : (q : List ℕ) (s u : System) → IsThrough q s u → IsWoken q s u
IsThrough-IsWoken q s u h = record {
  current = h.current;
  events = h.events;
  waiters = λ i e.
      let is : u.threads i ≡ woken (s.threads i) = h.threads i ∙ rw e refl in
      subst (IsAwake (s.threads i)) (sym is) (woken-IsAwake (s.threads i));
  others = λ i e. h.threads i ∙ rw e refl;
}

wake_all-IsThrough :
    (rounds head : ℕ) (q : List ℕ) (s : System)
    → IsListed s.threads head q
    → IsDistinct q
    → size q ≤ rounds
    → (u : System) × (wake_all rounds head s ≡ some u) × IsThrough q s u
unfolding wake_all
wake_all-IsThrough zero head [] s l d le =
    (s, ground (arith, l), record { current = refl; events = refl; threads = λ i. refl })
wake_all-IsThrough zero head (t ∷ q) s l d le = absurd (omega arith)
wake_all-IsThrough (suc rounds) head [] s l d le =
    (s, ground (arith, l), record { current = refl; events = refl; threads = λ i. refl })
wake_all-IsThrough (suc rounds) head (t ∷ q) s l d le =
    let s' = set_thread t (woken (s.threads t)) s in
    let (u, e, w) =
      wake_all-IsThrough rounds (s.threads t).wait_next q s'
        (IsListed-set s.threads t (woken (s.threads t)) (s.threads t).wait_next q d.0 l.2) d.1
        (omega arith) in
    let set : (t == 0) ≡ false = ground (arith, l.1) in
    (
      u,
      rw (l.0, set) e,
      record {
        current = w.current;
        events = w.events;
        threads = λ i. w.threads i ∙ woken_first s.threads t q i d.0;
      },
    )

-- A signal of an event other than null with distinct waiters wakes all of them and changes no other
-- thread, comes back when the rounds are as many as the waiters, and leaves the event with no waiter and
-- its flag as it was. A waiter that slept or was blocked is ready then; each is off the list, waits for
-- no event, and has the answer true.
pub event_signal-IsWoken :
    (rounds event t : ℕ) (q : List ℕ) (s : System)
    → event ≢ 0
    → IsListed s.threads (s.events event).waiters (t ∷ q)
    → IsDistinct (t ∷ q)
    → size (t ∷ q) ≤ rounds
    → (u : System) × (event_signal rounds event s ≡ some u)
      × IsWoken (t ∷ q) (set_event event (record (s.events event) { waiters = 0 }) s) u
unfolding event_signal
event_signal-IsWoken rounds event t q s given l d enough =
    let exists : (event == 0) ≡ false = ground (arith, given) in
    let some_wait : ((s.events event).waiters == 0) ≡ false = ground (arith, l.0, l.1) in
    let cleared = set_event event (record (s.events event) { waiters = 0 }) s in
    let (u, e, h) = wake_all-IsThrough rounds (s.events event).waiters (t ∷ q) cleared l d enough in
    (u, rw (exists, some_wait) e, IsThrough-IsWoken (t ∷ q) cleared u h)

-- A signal of an event other than null that nobody waits for is not lost: the next `event_wait`, with any timeout, returns true at
-- once and consumes it, so that the event is again as it was before, if it was not signaled then.
pub event_wait-signal :
    (rounds timeout_ms now event : ℕ) (s : System)
    → event ≢ 0
    → (s.events event).waiters ≡ 0
    → (u v : System) × (event_signal rounds event s ≡ some u)
      × (event_wait timeout_ms now event u ≡ returned true v)
      × (v.events event ≡ record (s.events event) { signaled = false })
      × (v.threads ≡ s.threads)
unfolding event_signal event_wait
event_wait-signal rounds timeout_ms now event s given nobody =
    let u = set_event event (record (s.events event) { signaled = true }) s in
    let exists : (event == 0) ≡ false = ground (arith, given) in
    let self : (event == event) ≡ true = ground arith in
    (
      u,
      set_event event (record (u.events event) { signaled = false }) u,
      rw (exists, nobody) refl,
      elim (Bool-cases (s.current_thread == 0)) [
        | inl none_runs ↦ rw (exists, none_runs, self) refl
        | inr one_runs ↦ rw (exists, one_runs, self) refl
      ],
      rw self refl,
      refl,
    )

same : (x : ℕ) → (x == x) ≡ true
same x = ground arith

-- When a thread that is not on the list of an event waits for it, neither of them null, and the event
-- is not signaled, the thread goes to the front of the list.
pub event_wait-IsListed :
    (timeout_ms now event : ℕ) (q : List ℕ) (s : System)
    → event ≢ 0
    → s.current_thread ≢ 0
    → (s.events event).signaled ≡ false
    → IsListed s.threads (s.events event).waiters q
    → IsFresh s.current_thread q
    → (u : System) × (event_wait timeout_ms now event s ≡ yielded u)
      × IsListed u.threads (u.events event).waiters (s.current_thread ∷ q)
unfolding event_wait
event_wait-IsListed timeout_ms now event q s given me quiet l fresh =
    let e = s.events event in
    let exists : (event == 0) ≡ false = ground (arith, given) in
    let runs : (s.current_thread == 0) ≡ false = ground (arith, me) in
    let w = listed timeout_ms now event e.waiters (s.threads s.current_thread) in
    (
      set_thread s.current_thread w (set_event event (record e { waiters = s.current_thread }) s),
      rw (exists, runs, quiet) refl,
      rw (same event, same s.current_thread)
          (refl, me, IsListed-set s.threads s.current_thread w e.waiters q fresh l),
    )

-- Where the loop of `event_remove_waiter` reads.
abbrev pub link : (prev event : ℕ) → System → ℕ
link prev event s = if prev == 0 then (s.events event).waiters else (s.threads prev).wait_next

unlink_ends :
    (rounds prev event thread : ℕ) (q : List ℕ) (s : System)
    → IsListed s.threads (link prev event s) q
    → size q < rounds
    → (u : System) × (unlink rounds prev event thread s ≡ some u)
unfolding unlink
unlink_ends zero prev event thread q s l lt = absurd (omega arith)
unlink_ends (suc rounds) prev event thread [] s l lt = (s, ground (arith, l))
unlink_ends (suc rounds) prev event thread (t ∷ q) s l lt =
    let set : (t == 0) ≡ false = ground (arith, l.1) in
    let (u, e) = unlink_ends rounds t event thread q s (rw set l.2) (omega arith) in
    elim (Bool-cases (t == thread)) [
      | inl found ↦ elim (Bool-cases (prev == 0)) [
        | inl first ↦ (
          set_event event (record (s.events event) { waiters = (s.threads thread).wait_next }) s,
          ground (arith, l.0, l.1, found, first),
        )
        | inr inner ↦ (
          set_thread prev (record (s.threads prev) { wait_next = (s.threads thread).wait_next }) s,
          ground (arith, l.0, l.1, found, inner),
        )
      ]
      | inr further ↦ (u, ground (arith, l.0, l.1, further, e))
    ]

answered :
    (self : ℕ) (s : System) → (b : Bool) × (v : System) × (answer self (some s) ≡ some (b, v))
answered self s = (
  (s.threads self).wait_signaled,
  set_thread self (record (s.threads self) { wait_signaled = false }) s,
  refl,
)

-- With more rounds than the event has waiters, a thread that resumes in `event_wait` comes back from
-- it.
pub event_wait_resume-some :
    (rounds event self : ℕ) (q : List ℕ) (s : System)
    → IsListed s.threads (s.events event).waiters q
    → size q < rounds
    → (b : Bool) × (v : System) × (event_wait_resume rounds event self s ≡ some (b, v))
unfolding event_wait_resume event_remove_waiter
event_wait_resume-some rounds event self q s l lt =
    let (u, e) = unlink_ends rounds 0 event self q s l lt in
    elim (Bool-cases ((s.threads self).wait_event == event)) [
      | inl waits ↦ rw (waits, e) (answered self (detached self u))
      | inr gone ↦ rw gone (answered self s)
    ]
