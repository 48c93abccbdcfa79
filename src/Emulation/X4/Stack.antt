-- ===== src/Emulation/X4/Stack.antt =====
-- The stack of the emulated thread: what pushing and popping do.
use avr_kernel.Base.{
  ℕ, ◌+◌, ◌-◌, ◌/◌, ◌%◌, ◌^◌, ◌<◌, ◌≡◌, refl, ap, ◌∙◌, arith, add32, upd, get32, put32, join32,
  IsBytes, get32-lt,
}
use avr_kernel.Emulation.X4.Machine.{Machine, off_ep, off_bp, off_sp, off_ss, word, readb, writeb}
use avr_kernel.Emulation.X4.Ops.{stack_push, stack_pop, stack_push_ptr, stack_pop_ptr}

-- The address of the stack byte `i` above the stack pointer of `t`.
abbrev pub slot : Machine → ℕ → ℕ
slot t i = (word off_ss t + word off_sp t + i) % 2 ^ 24

-- `u` is `t` with the stack pointer moved up by `n`.
pub record Moved (n : ℕ) (t u : Machine) : Type 0 where
  pub sp : word off_sp u ≡ (word off_sp t + n) % 2 ^ 32
  pub ss : word off_ss u ≡ word off_ss t
  pub bp : word off_bp u ≡ word off_bp t
  pub ep : word off_ep u ≡ word off_ep t

stack_push-Moved : (v : ℕ) (t : Machine) → Moved 1 t (stack_push v t)
unfolding stack_push writeb get32 put32
stack_push-Moved v t = ground arith

mem-stack_push : (v : ℕ) (t : Machine) → (stack_push v t).mem ≡ upd t.mem (slot t 0) v
unfolding stack_push writeb
mem-stack_push v t = rw slot_eq refl
  where
    slot_eq : add32 (word off_ss t) (word off_sp t) % 2 ^ 24 ≡ slot t 0
    slot_eq = omega arith

Moved-trans : {t u w : Machine} (m n : ℕ) → Moved m t u → Moved n u w → Moved (m + n) t w
Moved-trans m n p q = omega arith

slot-Moved : {t u : Machine} (n i : ℕ) → Moved n t u → slot u i ≡ slot t (n + i)
slot-Moved n i p = omega arith

mem-push_at :
    {t u : Machine} (i v : ℕ) → Moved i t u → (stack_push v u).mem ≡ upd u.mem (slot t i) v
mem-push_at {t} {u} i v moved = mem-stack_push v u ∙ ap (λ k. upd u.mem k v) (omega (arith, moved))

pub stack_push_ptr-Moved : (v : ℕ) (t : Machine) → Moved 4 t (stack_push_ptr v t)
unfolding stack_push_ptr
stack_push_ptr-Moved v t =
    Moved-trans 3 1
      (Moved-trans 2 1 (Moved-trans 1 1 (stack_push-Moved _ _) (stack_push-Moved _ _))
        (stack_push-Moved _ _))
      (stack_push-Moved _ _)

pub mem-stack_push_ptr :
    (v : ℕ) (t : Machine)
    → (stack_push_ptr v t).mem
      ≡ upd
          (upd
            (upd (upd t.mem (slot t 0) (v % 256)) (slot t 1) (v / 256 % 256))
            (slot t 2)
            (v / 65536 % 256))
          (slot t 3)
          (v / 16777216 % 256)
unfolding stack_push_ptr
mem-stack_push_ptr v t =
    mem-push_at 3 (v / 16777216 % 256) (Moved-trans 2 1 moved2 (stack_push-Moved b2 t2))
    ∙ ap (λ m. upd m (slot t 3) (v / 16777216 % 256))
        (mem-push_at 2 b2 moved2
          ∙ ap (λ m. upd m (slot t 2) b2)
              (mem-push_at 1 b1 moved1 ∙ ap (λ m. upd m (slot t 1) b1) (mem-stack_push b0 t)))
  where
    b0 : ℕ
    b0 = v % 256

    b1 : ℕ
    b1 = v / 256 % 256

    b2 : ℕ
    b2 = v / 65536 % 256

    t1 : Machine
    t1 = stack_push b0 t

    t2 : Machine
    t2 = stack_push b1 t1

    moved1 : Moved 1 t t1
    moved1 = stack_push-Moved b0 t

    moved2 : Moved 2 t t2
    moved2 = Moved-trans 1 1 moved1 (stack_push-Moved b1 t1)

stack_pop-Moved : (t : Machine) → Moved (2 ^ 32 - 1) t (stack_pop t).1
unfolding stack_pop get32 put32
stack_pop-Moved t = ground arith

mem-stack_pop : (t : Machine) → (stack_pop t).1.mem ≡ t.mem
unfolding stack_pop
mem-stack_pop t = refl

stack_pop_value : (t : Machine) → (stack_pop t).0 ≡ t.mem (slot t (2 ^ 32 - 1))
unfolding stack_pop readb get32 put32
stack_pop_value t = ap t.mem (omega arith)

pub stack_pop_ptr-Moved : (t : Machine) → Moved (2 ^ 32 - 4) t (stack_pop_ptr t).1
unfolding stack_pop_ptr
stack_pop_ptr-Moved t = omega (
  arith,
  stack_pop-Moved t,
  stack_pop-Moved (stack_pop t).1,
  stack_pop-Moved (stack_pop (stack_pop t).1).1,
  stack_pop-Moved (stack_pop (stack_pop (stack_pop t).1).1).1,
)

pub stack_pop_ptr_value :
    (t : Machine)
    → (stack_pop_ptr t).0
      ≡ join32
          (t.mem (slot t (2 ^ 32 - 4)))
          (t.mem (slot t (2 ^ 32 - 3)))
          (t.mem (slot t (2 ^ 32 - 2)))
          (t.mem (slot t (2 ^ 32 - 1)))
unfolding stack_pop_ptr
stack_pop_ptr_value t = ground (
  arith,
  stack_pop_value t,
  stack_pop_value t3,
  stack_pop_value t2,
  stack_pop_value t1,
  at3,
  at2,
  at1,
  mem-stack_pop t,
  mem-stack_pop t3,
  mem-stack_pop t2,
)
  where
    t3 : Machine
    t3 = (stack_pop t).1

    t2 : Machine
    t2 = (stack_pop t3).1

    t1 : Machine
    t1 = (stack_pop t2).1

    at3 : slot t3 (2 ^ 32 - 1) ≡ slot t (2 ^ 32 - 2)
    at3 = omega (arith, stack_pop-Moved t)

    at2 : slot t2 (2 ^ 32 - 1) ≡ slot t (2 ^ 32 - 3)
    at2 = omega (arith, stack_pop-Moved t, stack_pop-Moved t3)

    at1 : slot t1 (2 ^ 32 - 1) ≡ slot t (2 ^ 32 - 4)
    at1 = omega (arith, stack_pop-Moved t, stack_pop-Moved t3, stack_pop-Moved t2)

-- When the registers hold bytes, popping an address gives back the one of 32 bits that was pushed, and
-- the stack pointer is where it was.
pub stack_pop_ptr-push_ptr :
    (v : ℕ) (t : Machine)
    → v < 2 ^ 32
    → IsBytes t.cache
    → ((stack_pop_ptr (stack_push_ptr v t)).0 ≡ v)
      × (word off_sp (stack_pop_ptr (stack_push_ptr v t)).1 ≡ word off_sp t)
stack_pop_ptr-push_ptr v t small bytes = (
  ground (arith, stack_pop_ptr_value u, mem-stack_push_ptr v t, at4, at3, at2, at1),
  omega (arith, moved, stack_pop_ptr-Moved u, get32-lt t.cache off_sp bytes),
)
  where
    u : Machine
    u = stack_push_ptr v t

    moved : Moved 4 t u
    moved = stack_push_ptr-Moved v t

    at4 : slot u (2 ^ 32 - 4) ≡ slot t 0
    at4 = omega (arith, moved)

    at3 : slot u (2 ^ 32 - 3) ≡ slot t 1
    at3 = omega (arith, moved)

    at2 : slot u (2 ^ 32 - 2) ≡ slot t 2
    at2 = omega (arith, moved)

    at1 : slot u (2 ^ 32 - 1) ≡ slot t 3
    at1 = omega (arith, moved)
