-- ===== src/Boot/X86/Events/Remove.antt =====
-- event_remove_waiter of kernel/boot/x86/scheduler.c, as a thread whose wait timed out calls it.
use mathlib.Core.Path.{subst}
use avr_kernel.Base.{
  sym, ℕ, zero, suc, ◌<◌, ◌≡◌, ◌≢◌, refl, ◌∙◌, ap, arith, Bool, true, false, some, if◌then◌else◌,
  ◌==◌, List, [], ◌∷◌, Bool-cases, inl, inr,
}
use avr_kernel.Boot.X86.Mutex.Queue.{IsFresh, IsDistinct}
use avr_kernel.Boot.X86.Events.{
  Waiter, Event, System, set_thread, set_event, unlink, event_remove_waiter, event_wait_resume,
  detached,
}
use avr_kernel.Boot.X86.Events.Signal.{size, among, IsListed, IsListed-set, link}

pub without : ℕ → List ℕ → List ℕ
without t [] = []
without t (u ∷ q) = if u == t then q else u ∷ without t q

-- What a removal may change of a thread.
abbrev pub but_link : Waiter → Waiter
but_link w = record w { wait_next = 0 }

IsListed-IsFresh :
    (threads : ℕ → Waiter) (head : ℕ) (q : List ℕ) → IsListed threads head q → IsFresh 0 q
IsListed-IsFresh threads head [] l = tt
IsListed-IsFresh threads head (t ∷ q) l =
    (λ e. l.1 (sym e), IsListed-IsFresh threads (threads t).wait_next q l.2)

without-IsFresh : (x t : ℕ) (q : List ℕ) → IsFresh x q → IsFresh x (without t q)
unfolding without
without-IsFresh x t [] f = tt
without-IsFresh x t (u ∷ q) f = elim (Bool-cases (u == t)) [
  | inl e ↦ rw e f.1
  | inr e ↦ rw e (f.0, without-IsFresh x t q f.1)
]

without-gone : (t : ℕ) (q : List ℕ) → IsDistinct q → IsFresh t (without t q)
unfolding without
without-gone t [] d = tt
without-gone t (u ∷ q) d = elim (Bool-cases (u == t)) [
  | inl e ↦ let same : u ≡ t = ground (arith, e) in rw e (subst (λ x. IsFresh x q) same d.0)
  | inr e ↦ rw e (λ s. absurd (ground (arith, e, s)), without-gone t q d.1)
]

fresh_among : (t : ℕ) (q : List ℕ) → IsFresh t q → among t q ≡ false
fresh_among t [] f = refl
fresh_among t (u ∷ q) f = ground (arith, f.0, fresh_among t q f.1)

record IsUnlinked (prev event thread : ℕ) (q : List ℕ) (s u : System) : Type 0 where
  pub listed : IsListed u.threads (link prev event u) (without thread q)
  pub others : (i : ℕ) → i ≢ prev → among i q ≡ false → u.threads i ≡ s.threads i
  pub inner : prev ≢ 0 → u.events ≡ s.events
  pub outer : (e : ℕ) → e ≢ event → u.events e ≡ s.events e
  pub signaled : (u.events event).signaled ≡ (s.events event).signaled
  pub fields : (i : ℕ) → but_link (u.threads i) ≡ but_link (s.threads i)
  pub current : u.current_thread ≡ s.current_thread

IsUnlinked-first :
    (event thread : ℕ) (q : List ℕ) (s : System)
    → IsListed s.threads (s.threads thread).wait_next q
    → IsUnlinked 0 event thread
        (thread ∷ q)
        s
        (set_event event (record (s.events event) { waiters = (s.threads thread).wait_next }) s)
unfolding without
IsUnlinked-first event thread q s l =
    let self : (thread == thread) ≡ true = ground arith in
    let here : (event == event) ≡ true = ground arith in
    record {
      listed = rw (self, here) l;
      others = λ i n a. refl;
      inner = λ n. absurd (n refl);
      outer = λ e n. ground (arith, n);
      signaled = rw here refl;
      fields = λ i. refl;
      current = refl;
    }

IsUnlinked-inner :
    (prev event thread : ℕ) (q : List ℕ) (s : System)
    → prev ≢ 0
    → IsFresh prev q
    → IsListed s.threads (s.threads thread).wait_next q
    → IsUnlinked prev event thread
        (thread ∷ q)
        s
        (set_thread prev (record (s.threads prev) { wait_next = (s.threads thread).wait_next }) s)
unfolding without
IsUnlinked-inner prev event thread q s given f l =
    let self : (thread == thread) ≡ true = ground arith in
    let here : (prev == prev) ≡ true = ground arith in
    let set : (prev == 0) ≡ false = ground (arith, given) in
    let w = record (s.threads prev) { wait_next = (s.threads thread).wait_next } in
    record {
      listed =
          rw (self, set, here) (IsListed-set s.threads prev w (s.threads thread).wait_next q f l);
      others = λ i n a. ground (arith, n);
      inner = λ n. refl;
      outer = λ e n. refl;
      signaled = refl;
      fields = λ i. elim (Bool-cases (i == prev)) [
        | inl e ↦
            let same : prev ≡ i = ground (arith, e) in
            rw e (ap (λ (x : ℕ). but_link (s.threads x)) same)
        | inr e ↦ rw e refl
      ];
      current = refl;
    }

IsUnlinked-further :
    (prev event thread t : ℕ) (q : List ℕ) (s u : System)
    → t ≢ 0
    → (t == thread) ≡ false
    → link prev event s ≡ t
    → IsFresh prev (t ∷ q)
    → IsFresh t q
    → IsUnlinked t event thread q s u
    → IsUnlinked prev event thread (t ∷ q) s u
unfolding without
IsUnlinked-further prev event thread t q s u given e head f g h =
    let set : (t == 0) ≡ false = ground (arith, given) in
    let same_link : link prev event u ≡ link prev event s = elim (Bool-cases (prev == 0)) [
      | inl p ↦ rw p (ap (λ (m : ℕ → Event). (m event).waiters) (h.inner given))
      | inr p ↦ rw p (ap (λ (w : Waiter). w.wait_next) (h.others prev f.0 (fresh_among prev q f.1)))
    ] in
    record {
      listed = rw e (same_link ∙ head, given, rw set at h.listed);
      others = λ i n a. h.others i (λ z. absurd (ground (arith, z, a))) (ground (arith, a));
      inner = λ n. h.inner given;
      outer = h.outer;
      signaled = h.signaled;
      fields = h.fields;
      current = h.current;
    }

unlink-IsUnlinked :
    (rounds prev event thread : ℕ) (q : List ℕ) (s : System)
    → IsListed s.threads (link prev event s) q
    → IsFresh prev q
    → IsDistinct q
    → size q < rounds
    → (u : System) × (unlink rounds prev event thread s ≡ some u)
      × IsUnlinked prev event thread q s u
unfolding unlink without
unlink-IsUnlinked zero prev event thread q s l f d lt = absurd (omega arith)
unlink-IsUnlinked (suc rounds) prev event thread [] s l f d lt = (
  s,
  ground (arith, l),
  record {
    listed = l;
    others = λ i n a. refl;
    inner = λ n. refl;
    outer = λ e n. refl;
    signaled = refl;
    fields = λ i. refl;
    current = refl;
  },
)
unlink-IsUnlinked (suc rounds) prev event thread (t ∷ q) s l f d lt =
    let set : (t == 0) ≡ false = ground (arith, l.1) in
    elim (Bool-cases (t == thread)) [
      | inl found ↦
          let same : t ≡ thread = ground (arith, found) in
          let behind : IsListed s.threads (s.threads thread).wait_next q =
            subst (λ x. IsListed s.threads (s.threads x).wait_next q) same l.2 in
          let next = (s.threads thread).wait_next in
          let by_event = set_event event (record (s.events event) { waiters = next }) s in
          let by_thread = set_thread prev (record (s.threads prev) { wait_next = next }) s in
          elim (Bool-cases (prev == 0)) [
            | inl first ↦
                let start : 0 ≡ prev = ground (arith, first) in
                (
                  by_event,
                  ground (arith, l.0, l.1, found, first),
                  subst (λ x. IsUnlinked prev event thread (x ∷ q) s by_event) (sym same)
                      (subst (λ p. IsUnlinked p event thread (thread ∷ q) s by_event) start
                        (IsUnlinked-first event thread q s behind)),
                )
            | inr inner ↦ (
              by_thread,
              ground (arith, l.0, l.1, found, inner),
              subst (λ x. IsUnlinked prev event thread (x ∷ q) s by_thread) (sym same)
                  (IsUnlinked-inner prev event thread q s (ground (arith, inner)) f.1 behind),
            )
          ]
      | inr further ↦
          let (u, e, h) =
            unlink-IsUnlinked rounds t event thread q s (rw set l.2) d.0 d.1 (omega arith) in
          (
            u,
            ground (arith, l.0, l.1, further, e),
            IsUnlinked-further prev event thread t q s u l.1 further l.0 f d.0 h,
          )
    ]

-- `v` is `s` with thread `self` off the list of the event, and its answer taken.
pub record IsTakenOff (event self : ℕ) (q : List ℕ) (s v : System) : Type 0 where
  pub listed : IsListed v.threads (v.events event).waiters (without self q)
  pub signaled : (v.events event).signaled ≡ (s.events event).signaled
  pub outer : (e : ℕ) → e ≢ event → v.events e ≡ s.events e
  pub own :
      v.threads self
      ≡ record (s.threads self) { wait_event = 0; wait_next = 0; wait_signaled = false }
  pub links : (i : ℕ) → i ≢ self → but_link (v.threads i) ≡ but_link (s.threads i)
  pub others : (i : ℕ) → i ≢ 0 → i ≢ self → among i q ≡ false → v.threads i ≡ s.threads i
  pub current : v.current_thread ≡ s.current_thread

-- A thread that resumes in event_wait while it still waits for the event, which a timeout makes
-- happen, takes itself off the event's list of distinct waiters, when the rounds are more than the
-- waiters. It comes back with its own signaled flag as the answer, clears the flag, and waits for
-- no event then. The list then holds the other waiters, in their order; the event's flag, the other
-- events and all other members of threads but the links of the list stay, and threads off the list
-- stay altogether.
pub event_wait_resume-IsTakenOff :
    (rounds event self : ℕ) (q : List ℕ) (s : System)
    → (s.threads self).wait_event ≡ event
    → IsListed s.threads (s.events event).waiters q
    → IsDistinct q
    → size q < rounds
    → (v : System) × (event_wait_resume rounds event self s
        ≡ some ((s.threads self).wait_signaled, v))
      × IsTakenOff event self q s v
unfolding event_wait_resume event_remove_waiter
event_wait_resume-IsTakenOff rounds event self q s waits l d lt =
    let still : ((s.threads self).wait_event == event) ≡ true = ground (arith, waits) in
    let (u, e, h) =
      unlink-IsUnlinked rounds 0 event self q s l (IsListed-IsFresh s.threads _ q l) d lt in
    let w = detached self u in
    let here : (self == self) ≡ true = ground arith in
    let gone = without-gone self q d in
    let v = set_thread self (record (w.threads self) { wait_signaled = false }) w in
    let listed_w : IsListed w.threads (w.events event).waiters (without self q) =
      IsListed-set u.threads self _ _ (without self q) gone h.listed in
    let flag : (w.threads self).wait_signaled ≡ (s.threads self).wait_signaled =
      rw here (ap (λ (x : Waiter). x.wait_signaled) (h.fields self)) in
    let other : (i : ℕ) → i ≢ self → (i == self) ≡ false = λ i n. ground (arith, n) in
    (
      v,
      rw (still, e) (ap (λ (b : Bool). some (b, v)) flag),
      record {
        listed = IsListed-set w.threads self _ _ (without self q) gone listed_w;
        signaled = h.signaled;
        outer = h.outer;
        own = rw here (
            ap (λ (x : Waiter). record x { wait_event = 0; wait_next = 0; wait_signaled = false })
              (h.fields self));
        links = λ i n. rw (other i n) (h.fields i);
        others = λ i given n a. rw (other i n) (h.others i given a);
        current = h.current;
      },
    )
