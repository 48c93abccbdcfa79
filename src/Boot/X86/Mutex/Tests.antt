-- ===== src/Boot/X86/Mutex/Tests.antt =====
-- Two threads and the mutex at 8.
use avr_kernel.Base.{ℕ, ◌≡◌, ◌≢◌, refl, arith, true, false, [], ◌∷◌}
use avr_kernel.Boot.X86.Mutex.{
  ThreadState, running, blocked, Mutex, Kernel, mutex_lock, mutex_unlock,
}
use avr_kernel.Boot.X86.Mutex.Refines.{
  held, spec_lock, spec_unlock, lock_ends, Represents, mutex_lock-Represents,
  mutex_unlock-Represents,
}

abbrev kernel : Mutex → (ℕ → ThreadState) → Kernel
kernel x state = record {
  current_thread = 1;
  state = state;
  ticks_remaining = λ _. 5;
  mutexes = λ _. x;
  next = λ _ _. 0;
}

abbrev unlocked : Kernel
unlocked = kernel (record { locked = false; owner = 0; wait_head = 0; wait_tail = 0 }) λ _. running

-- Thread 1 holds the mutex, and thread 2 waits for it.
abbrev contended : Kernel
contended = kernel (record { locked = true; owner = 1; wait_head = 2; wait_tail = 2 }) λ _. blocked

-- Thread 3 holds it.
abbrev taken : Kernel
taken = kernel (record { locked = true; owner = 3; wait_head = 0; wait_tail = 0 }) λ _. running

taken-Represents : Represents 8 taken (held 3 [])
taken-Represents = (refl, refl, (refl, refl), tt, tt)

contended-Represents : Represents 8 contended (held 1 (2 ∷ []))
contended-Represents = (refl, refl, (refl, omega arith, (refl, refl)), (tt, tt), (refl, tt))

awake : running ≢ blocked
awake e = ground (arith, e)

mutex_lock-Represents_example :
    (k : Kernel) × (mutex_lock 8 taken ≡ lock_ends (held 3 []) k)
    × Represents 8 k (spec_lock 1 (held 3 []))
mutex_lock-Represents_example =
    mutex_lock-Represents 8 taken (held 3 []) (omega arith) (omega arith) awake taken-Represents

mutex_unlock-Represents_example :
    Represents 8 (mutex_unlock 8 contended) (spec_unlock 1 (held 1 (2 ∷ [])))
mutex_unlock-Represents_example =
    mutex_unlock-Represents 8 contended (held 1 (2 ∷ [])) (omega arith) (omega arith)
      contended-Represents
