-- ===== src/Boot/X86/Mutex/Refines.antt =====
-- What a mutex of kernel/boot/x86/mutex.c promises: an owner, and a first-in first-out queue.
use avr_kernel.Base.{
  ℕ, ◌≡◌, ◌≢◌, refl, ◌∙◌, sym, ap, arith, Bool, true, false, Bool-cases, inl, inr, if◌then◌else◌,
  ◌==◌, upd, List, [], ◌∷◌, ◌++◌,
}
use avr_kernel.Boot.X86.Mutex.{
  ready, blocked, Kernel, Locking, returned, yielded, mutex_init, mutex_lock, mutex_trylock,
  mutex_unlock, enqueue, thread_yield, set_state, set_mutex,
}
use avr_kernel.Boot.X86.Mutex.Queue.{IsFresh, IsDistinct, IsQueue, IsQueue-snoc, IsQueue-rest}

-- A mutex without its representation.
pub data Spec : Type 0 where
  free : Spec
  held : (owner : ℕ) → (waiting : List ℕ) → Spec

pub spec_lock : ℕ → Spec → Spec
spec_lock me free = held me []
spec_lock me (held owner waiting) = held owner (waiting ++ me ∷ [])

-- How a call of `mutex_lock` ends.
pub lock_ends : Spec → Kernel → Locking
lock_ends free k = returned k
lock_ends (held _ _) k = yielded k

-- The first that waits owns the mutex next.
hand_over : List ℕ → Spec
hand_over [] = free
hand_over (t ∷ waiting) = held t waiting

pub spec_unlock : ℕ → Spec → Spec
spec_unlock me free = free
spec_unlock me (held owner waiting) = if owner == me then hand_over waiting else held owner waiting

abbrev pub AllBlocked : List ℕ → Kernel → Type 0
AllBlocked [] s = Unit
AllBlocked (t ∷ q) s = (s.state t ≡ blocked) × AllBlocked q s

abbrev pub Represents : ℕ → Kernel → Spec → Type 0
Represents mutex s free =
    let x = s.mutexes mutex in
    (x.locked ≡ false) × (x.owner ≡ 0) × IsQueue (s.next mutex) x.wait_head x.wait_tail []
Represents mutex s (held owner waiting) =
    let x = s.mutexes mutex in
    (x.locked ≡ true)
    × (x.owner ≡ owner)
    × IsQueue (s.next mutex) x.wait_head x.wait_tail waiting
    × IsDistinct waiting
    × AllBlocked waiting s

-- A thread that is not blocked waits nowhere.
IsFresh-running :
    (me : ℕ) (q : List ℕ) (s : Kernel) → s.state me ≢ blocked → AllBlocked q s → IsFresh me q
IsFresh-running me [] s awake all = tt
IsFresh-running me (t ∷ q) s awake all =
    ((λ e. awake (ap s.state e ∙ all.0)), IsFresh-running me q s awake all.1)

IsFresh-snoc : (x me : ℕ) (q : List ℕ) → IsFresh x q → x ≢ me → IsFresh x (q ++ me ∷ [])
IsFresh-snoc x me [] f ne = (ne, tt)
IsFresh-snoc x me (t ∷ q) f ne = (f.0, IsFresh-snoc x me q f.1 ne)

IsDistinct-snoc : (me : ℕ) (q : List ℕ) → IsDistinct q → IsFresh me q → IsDistinct (q ++ me ∷ [])
IsDistinct-snoc me [] d f = (tt, tt)
IsDistinct-snoc me (t ∷ q) d f =
    (IsFresh-snoc t me q d.0 (λ e. f.0 (sym e)), IsDistinct-snoc me q d.1 f.1)

AllBlocked-snoc :
    (me : ℕ) (q : List ℕ) (s k : Kernel)
    → AllBlocked q s
    → ((t : ℕ) → k.state t ≡ (if t == me then blocked else s.state t))
    → AllBlocked (q ++ me ∷ []) k
AllBlocked-snoc me [] s k all now = (ground (arith, now me), tt)
AllBlocked-snoc me (t ∷ q) s k all now =
    (ground (arith, now t, all.0), AllBlocked-snoc me q s k all.1 now)

AllBlocked-ready :
    (me : ℕ) (q : List ℕ) (s k : Kernel)
    → AllBlocked q s
    → IsFresh me q
    → ((t : ℕ) → k.state t ≡ (if t == me then ready else s.state t))
    → AllBlocked q k
AllBlocked-ready me [] s k all f now = tt
AllBlocked-ready me (t ∷ q) s k all f now =
    (ground (arith, now t, all.0, f.0), AllBlocked-ready me q s k all.1 f.1 now)

exists : (x : ℕ) → x ≢ 0 → (x == 0) ≡ false
exists x ne = ground (arith, ne)

self : (x : ℕ) → (x == x) ≡ true
self x = ground arith

-- What `mutex_lock` does of a held mutex.
abbrev waited : ℕ → Kernel → Kernel
waited mutex s = thread_yield (set_state s.current_thread blocked (enqueue mutex s))

-- Waiting at the end of the queue leaves the mutex otherwise as it was.
record IsWaiting (mutex : ℕ) (s k : Kernel) : Type 0 where
  locked : (k.mutexes mutex).locked ≡ (s.mutexes mutex).locked
  owner : (k.mutexes mutex).owner ≡ (s.mutexes mutex).owner
  head :
      (k.mutexes mutex).wait_head
      ≡ (if (s.mutexes mutex).wait_tail == 0 then s.current_thread else (s.mutexes mutex).wait_head)
  tail : (k.mutexes mutex).wait_tail ≡ s.current_thread
  links : k.next mutex ≡ (
      if (s.mutexes mutex).wait_tail == 0
      then upd (s.next mutex) s.current_thread 0
      else upd (upd (s.next mutex) s.current_thread 0) (s.mutexes mutex).wait_tail s.current_thread)
  states : (t : ℕ) → k.state t ≡ (if t == s.current_thread then blocked else s.state t)

waited-IsWaiting :
    (mutex : ℕ) (s : Kernel) → s.current_thread ≢ 0 → IsWaiting mutex s (waited mutex s)
unfolding enqueue thread_yield
waited-IsWaiting mutex s me = record {
  locked = ground arith;
  owner = ground arith;
  head = ground arith;
  tail = ground arith;
  links = λ i t. links_at t i;
  states = λ t. ground arith;
}
  where
    links_at :
        (t : ℕ)
        → (waited mutex s).next mutex t
          ≡ (if (s.mutexes mutex).wait_tail == 0
                then upd (s.next mutex) s.current_thread 0
                else upd
                    (upd (s.next mutex) s.current_thread 0)
                    (s.mutexes mutex).wait_tail
                    s.current_thread)
              t
    links_at t = ground arith

waited-held :
    (mutex : ℕ) (s : Kernel) (owner : ℕ) (q : List ℕ)
    → s.current_thread ≢ 0
    → s.state s.current_thread ≢ blocked
    → Represents mutex s (held owner q)
    → Represents mutex (waited mutex s) (held owner (q ++ s.current_thread ∷ []))
waited-held mutex s owner q me awake r =
    let fresh : IsFresh s.current_thread q = IsFresh-running s.current_thread q s awake r.4 in
    let w = waited-IsWaiting mutex s me in
    (
      w.locked ∙ r.0,
      w.owner ∙ r.1,
      rw (w.head, w.tail, w.links)
          (IsQueue-snoc (s.next mutex) _ _ s.current_thread q r.2 me fresh r.3),
      IsDistinct-snoc s.current_thread q r.3 fresh,
      AllBlocked-snoc s.current_thread q s _ r.4 w.states,
    )

-- With pointers other than null, `mutex_lock` by a thread that is not blocked implements the specification. Of a free mutex it
-- returns, with the thread its owner. Of a held one it gives up the processor, with the thread
-- blocked and last in the queue.
pub mutex_lock-Represents :
    (mutex : ℕ) (s : Kernel) (a : Spec)
    → mutex ≢ 0
    → s.current_thread ≢ 0
    → s.state s.current_thread ≢ blocked
    → Represents mutex s a
    → (k : Kernel) × (mutex_lock mutex s ≡ lock_ends a k)
      × Represents mutex k (spec_lock s.current_thread a)
unfolding mutex_lock lock_ends spec_lock
mutex_lock-Represents mutex s free given me awake r = (
  record s {
    mutexes =
        upd s.mutexes mutex (record (s.mutexes mutex) { locked = true; owner = s.current_thread });
  },
  rw (exists mutex given, r.0) refl,
  rw (self mutex) (refl, refl, r.2, tt, tt),
)
mutex_lock-Represents mutex s (held owner q) given me awake r =
    (waited mutex s, rw (exists mutex given, r.0) refl, waited-held mutex s owner q me awake r)

-- The first thread in the queue owns the mutex now.
abbrev handed_over : ℕ → Kernel → Kernel
handed_over mutex s =
    let x = s.mutexes mutex in
    let head = s.next mutex x.wait_head in
    set_state x.wait_head ready (
      set_mutex mutex
        (record x {
          wait_head = head;
          wait_tail = if head == 0 then 0 else x.wait_tail;
          owner = x.wait_head;
        })
        s)

handed_over-Represents :
    (mutex : ℕ) (s : Kernel) (owner t : ℕ) (q : List ℕ)
    → Represents mutex s (held owner (t ∷ q))
    → Represents mutex (handed_over mutex s) (held t q)
handed_over-Represents mutex s owner t q r = rw (self mutex) (
  r.0,
  r.2.0,
  IsQueue-rest (s.next mutex) _ _ t q r.2,
  r.3.1,
  AllBlocked-ready t q s _ r.4.1 r.3.0 λ u. ground (arith, r.2.0),
)

unlock_others :
    (mutex : ℕ) (s : Kernel)
    → mutex ≢ 0
    → (s.mutexes mutex).owner ≢ s.current_thread
    → mutex_unlock mutex s ≡ s
unfolding mutex_unlock
unlock_others mutex s given other = ground (arith, given, other)

-- The owner's call when nobody waits, and when somebody does.
unlock_last :
    (mutex : ℕ) (s : Kernel)
    → mutex ≢ 0
    → (s.mutexes mutex).owner ≡ s.current_thread
    → (s.mutexes mutex).wait_head ≡ 0
    → mutex_unlock mutex s
      ≡ set_mutex mutex (record (s.mutexes mutex) { locked = false; owner = 0 }) s
unfolding mutex_unlock
unlock_last mutex s given mine last = ground (arith, given, mine, last)

unlock_next :
    (mutex : ℕ) (s : Kernel)
    → mutex ≢ 0
    → (s.mutexes mutex).owner ≡ s.current_thread
    → (s.mutexes mutex).wait_head ≢ 0
    → mutex_unlock mutex s ≡ handed_over mutex s
unfolding mutex_unlock
unlock_next mutex s given mine more = ground (arith, given, mine, more)

hand_over-Represents :
    (mutex : ℕ) (s : Kernel) (owner : ℕ) (q : List ℕ)
    → mutex ≢ 0
    → (s.mutexes mutex).owner ≡ s.current_thread
    → Represents mutex s (held owner q)
    → Represents mutex (mutex_unlock mutex s) (hand_over q)
unfolding hand_over
hand_over-Represents mutex s owner [] given mine r =
    rw (unlock_last mutex s given mine r.2.0, self mutex) (refl, refl, r.2)
hand_over-Represents mutex s owner (t ∷ q) given mine r =
    rw (unlock_next mutex s given mine (λ e. r.2.1 (sym r.2.0 ∙ e)))
      (handed_over-Represents mutex s owner t q r)

-- With pointers other than null, `mutex_unlock` implements the specification: called by a thread that is not the owner it does
-- nothing; called by the owner it hands the mutex to the first thread in the queue, and frees it when
-- none waits.
pub mutex_unlock-Represents :
    (mutex : ℕ) (s : Kernel) (a : Spec)
    → mutex ≢ 0
    → s.current_thread ≢ 0
    → Represents mutex s a
    → Represents mutex (mutex_unlock mutex s) (spec_unlock s.current_thread a)
unfolding spec_unlock
mutex_unlock-Represents mutex s free given me r =
    rw (unlock_others mutex s given λ e. me (sym e ∙ r.1)) r
mutex_unlock-Represents mutex s (held owner q) given me r =
    elim (Bool-cases (owner == s.current_thread)) [
      | inr not_mine ↦ rw (not_mine, unlock_others mutex s given (ground (arith, r.1, not_mine))) r
      | inl mine ↦
          rw mine (hand_over-Represents mutex s owner q given (ground (arith, r.1, mine)) r)
    ]

-- When the owner unlocks a mutex that threads wait for, the first of them owns it and is ready, and the
-- others wait in the order they had.
pub mutex_unlock-ready :
    (mutex : ℕ) (s : Kernel) (t : ℕ) (q : List ℕ)
    → mutex ≢ 0
    → Represents mutex s (held s.current_thread (t ∷ q))
    → ((mutex_unlock mutex s).state t ≡ ready) × Represents mutex (mutex_unlock mutex s) (held t q)
mutex_unlock-ready mutex s t q given r =
    rw (unlock_next mutex s given r.1 (λ e. r.2.1 (sym r.2.0 ∙ e)))
      (ground (arith, r.2.0), handed_over-Represents mutex s s.current_thread t q r)

pub spec_trylock : ℕ → Spec → Bool × Spec
spec_trylock me free = (true, held me [])
spec_trylock me (held owner waiting) = (false, held owner waiting)

-- With a pointer other than null, `mutex_trylock` implements the specification: it takes a free mutex and says so, and leaves a held
-- one as it is.
pub mutex_trylock-Represents :
    (mutex : ℕ) (s : Kernel) (a : Spec)
    → mutex ≢ 0
    → Represents mutex s a
    → ((mutex_trylock mutex s).0 ≡ (spec_trylock s.current_thread a).0)
      × Represents mutex ((mutex_trylock mutex s).1) ((spec_trylock s.current_thread a).1)
unfolding mutex_trylock spec_trylock
mutex_trylock-Represents mutex s free given r =
    rw (exists mutex given, r.0) (refl, rw (self mutex) (refl, refl, r.2, tt, tt))
mutex_trylock-Represents mutex s (held owner q) given r = rw (exists mutex given, r.0) (refl, r)

-- With a pointer other than null, `mutex_init` makes a free mutex.
pub mutex_init-Represents :
    (mutex : ℕ) (s : Kernel) → mutex ≢ 0 → Represents mutex (mutex_init mutex s) free
unfolding mutex_init
mutex_init-Represents mutex s given = rw (exists mutex given, self mutex) (refl, refl, (refl, refl))
