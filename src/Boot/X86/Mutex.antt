-- ===== src/Boot/X86/Mutex.antt =====
-- kernel/boot/x86/mutex.c: mutexes with a queue of waiting threads. Pointers are numbers, 0 is NULL. A
-- waiter is a local of the call of mutex_lock that waits: it is named by the mutex and the thread.
-- Every operation runs with interrupts off, so each is one step, up to the switch of thread_yield.
pub mod Queue
pub mod Refines
mod Tests
use avr_kernel.Base.{ℕ, Bool, true, false, not, if◌then◌else◌, ◌==◌, ◌!=◌, upd}

pub data ThreadState : Type 0 where
  ready : ThreadState
  running : ThreadState
  sleeping : ThreadState
  blocked : ThreadState
  dead : ThreadState

pub record Mutex : Type 0 where
  pub locked : Bool
  pub owner : ℕ
  pub wait_head : ℕ
  pub wait_tail : ℕ

pub record Kernel : Type 0 where
  pub current_thread : ℕ
  pub state : ℕ → ThreadState
  pub ticks_remaining : ℕ → ℕ
  pub mutexes : ℕ → Mutex
  pub next : ℕ → ℕ → ℕ  -- of the waiter of a mutex and a thread

abbrev pub set_mutex : ℕ → Mutex → Kernel → Kernel
set_mutex mutex x s = record s { mutexes = upd s.mutexes mutex x }

abbrev pub set_next : (mutex waiter v : ℕ) → Kernel → Kernel
set_next mutex waiter v s = record s { next = upd s.next mutex (upd (s.next mutex) waiter v) }

abbrev pub set_state : ℕ → ThreadState → Kernel → Kernel
set_state thread v s = record s { state = upd s.state thread v }

-- `thread_yield`, up to its interrupt.
pub thread_yield : Kernel → Kernel
thread_yield s =
    if s.current_thread != 0
    then record s { ticks_remaining = upd s.ticks_remaining s.current_thread 0 }
    else s

pub mutex_init : ℕ → Kernel → Kernel
mutex_init mutex s =
    if mutex == 0
    then s
    else set_mutex mutex (record { locked = false; owner = 0; wait_head = 0; wait_tail = 0 }) s

-- The waiter of the current thread goes to the end of the queue.
pub enqueue : ℕ → Kernel → Kernel
enqueue mutex s =
    let x = s.mutexes mutex in
    let waiter = s.current_thread in
    let s' = set_next mutex waiter 0 s in
    if x.wait_tail != 0
    then set_mutex mutex (record x { wait_tail = waiter }) (set_next mutex x.wait_tail waiter s')
    else set_mutex mutex (record x { wait_head = waiter; wait_tail = waiter }) s'

-- Whether the call has returned, or its thread has given up the processor inside it.
pub data Locking : Type 0 where
  returned : Kernel → Locking
  yielded : Kernel → Locking

pub mutex_lock : ℕ → Kernel → Locking
mutex_lock mutex s =
    let x = s.mutexes mutex in
    if mutex == 0
    then returned s
    else if not x.locked
    then returned (set_mutex mutex (record x { locked = true; owner = s.current_thread }) s)
    else yielded (thread_yield (set_state s.current_thread blocked (enqueue mutex s)))

pub mutex_trylock : ℕ → Kernel → Bool × Kernel
mutex_trylock mutex s =
    let x = s.mutexes mutex in
    if mutex == 0
    then (false, s)
    else if not x.locked
    then (true, set_mutex mutex (record x { locked = true; owner = s.current_thread }) s)
    else (false, s)

pub mutex_unlock : ℕ → Kernel → Kernel
mutex_unlock mutex s =
    let x = s.mutexes mutex in
    let head = s.next mutex x.wait_head in
    let tail = if head == 0 then 0 else x.wait_tail in
    if mutex == 0
    then s
    else if x.owner != s.current_thread
    then s
    else if x.wait_head != 0
    then set_state x.wait_head ready
        (set_mutex mutex (record x { wait_head = head; wait_tail = tail; owner = x.wait_head }) s)
    else set_mutex mutex (record x { locked = false; owner = 0 }) s
