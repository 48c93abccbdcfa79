-- ===== src/Emulation/X4/Calls.antt =====
-- CALL and RET of the emulated thread.
use avr_kernel.Base.{
  ℕ, ◌+◌, ◌-◌, ◌/◌, ◌%◌, ◌^◌, ◌<◌, ◌≡◌, ◌≢◌, refl, ◌∙◌, arith, add32, get32, put32, join32, IsBytes,
  get32-lt, join32-bytes,
}
use avr_kernel.Emulation.X4.Machine.{Machine, off_ep, off_bp, off_sp, off_ss, word, set_word}
use avr_kernel.Emulation.X4.Ops.{
  Args, pointer, stack_pop, stack_push_ptr, stack_pop_ptr, opcode_call, opcode_ret,
}
use avr_kernel.Emulation.X4.Stack.{
  slot, Moved, stack_push_ptr-Moved, mem-stack_push_ptr, stack_pop_ptr-Moved, stack_pop_ptr_value,
}

-- The frame that CALL leaves: the caller's `bp`, and above it the return address.
pub record Frame (t u : Machine) : Type 0 where
  pub base : word off_bp u ≡ (word off_sp t + 8) % 2 ^ 32
  pub segment : word off_ss u ≡ word off_ss t
  pub saved_bp :
      join32 (u.mem (slot t 0)) (u.mem (slot t 1)) (u.mem (slot t 2)) (u.mem (slot t 3))
      ≡ word off_bp t
  pub saved_ep :
      join32 (u.mem (slot t 4)) (u.mem (slot t 5)) (u.mem (slot t 6)) (u.mem (slot t 7))
      ≡ add32 (word off_ep t) 4

set_sp-words :
    (v : ℕ) (t : Machine)
    → (word off_sp (set_word off_sp v t) ≡ v % 2 ^ 32)
      × (word off_ss (set_word off_sp v t) ≡ word off_ss t)
      × (word off_bp (set_word off_sp v t) ≡ word off_bp t)
unfolding get32 put32
set_sp-words v t = ground arith

set_ep-words :
    (v : ℕ) (t : Machine)
    → (word off_ep (set_word off_ep v t) ≡ v % 2 ^ 32)
      × (word off_ss (set_word off_ep v t) ≡ word off_ss t)
      × (word off_sp (set_word off_ep v t) ≡ word off_sp t)
      × (word off_bp (set_word off_ep v t) ≡ word off_bp t)
unfolding get32 put32
set_ep-words v t = ground arith

set_bp-words :
    (v : ℕ) (t : Machine)
    → (word off_bp (set_word off_bp v t) ≡ v % 2 ^ 32)
      × (word off_ss (set_word off_bp v t) ≡ word off_ss t)
      × (word off_ep (set_word off_bp v t) ≡ word off_ep t)
      × (word off_sp (set_word off_bp v t) ≡ word off_sp t)
unfolding get32 put32
set_bp-words v t = ground arith

-- The bytes of a pushed word, and the memory that the push leaves alone.
stored_ptr :
    (v : ℕ) (t : Machine)
    → ((stack_push_ptr v t).mem (slot t 0) ≡ v % 256)
      × ((stack_push_ptr v t).mem (slot t 1) ≡ v / 256 % 256)
      × ((stack_push_ptr v t).mem (slot t 2) ≡ v / 65536 % 256)
      × ((stack_push_ptr v t).mem (slot t 3) ≡ v / 16777216 % 256)
stored_ptr v t = (
  ground (arith, mem-stack_push_ptr v t),
  ground (arith, mem-stack_push_ptr v t),
  ground (arith, mem-stack_push_ptr v t),
  ground (arith, mem-stack_push_ptr v t),
)

kept_ptr :
    (v : ℕ) (t : Machine) (a : ℕ)
    → (a ≢ slot t 0) × (a ≢ slot t 1) × (a ≢ slot t 2) × (a ≢ slot t 3)
    → (stack_push_ptr v t).mem a ≡ t.mem a
kept_ptr v t a apart = ground (arith, mem-stack_push_ptr v t)

-- CALL leaves the frame of the caller on the stack.
opcode_call-Frame : (x : Args) (t : Machine) → IsBytes t.cache → Frame t (opcode_call x t)
unfolding opcode_call
opcode_call-Frame x t bytes = record {
  base = omega (
    arith,
    moved,
    moved2,
    set_bp-words (word off_sp t2) t2,
    set_ep-words (pointer x.a0 x.a1 x.a2 x.a3) t3,
  );
  segment = omega (
    arith,
    moved,
    moved2,
    set_bp-words (word off_sp t2) t2,
    set_ep-words (pointer x.a0 x.a1 x.a2 x.a3) t3,
  );
  saved_bp = ground (arith, stored_ptr bp t, kept, join32-bytes bp, get32-lt t.cache off_bp bytes);
  saved_ep = ground (arith, stored_ptr ret t1, above, join32-bytes ret);
}
  where
    bp : ℕ
    bp = word off_bp t

    ret : ℕ
    ret = add32 (word off_ep t) 4

    t1 : Machine
    t1 = stack_push_ptr bp t

    t2 : Machine
    t2 = stack_push_ptr ret t1

    t3 : Machine
    t3 = set_word off_bp (word off_sp t2) t2

    moved : Moved 4 t t1
    moved = stack_push_ptr-Moved bp t

    moved2 : Moved 4 t1 t2
    moved2 = stack_push_ptr-Moved ret t1

    above :
        (slot t1 0 ≡ slot t 4)
        × (slot t1 1 ≡ slot t 5)
        × (slot t1 2 ≡ slot t 6)
        × (slot t1 3 ≡ slot t 7)
    above = omega (arith, moved)

    kept :
        (t2.mem (slot t 0) ≡ t1.mem (slot t 0))
        × (t2.mem (slot t 1) ≡ t1.mem (slot t 1))
        × (t2.mem (slot t 2) ≡ t1.mem (slot t 2))
        × (t2.mem (slot t 3) ≡ t1.mem (slot t 3))
    kept = (
      kept_ptr ret t1 _ (omega (arith, above)),
      kept_ptr ret t1 _ (omega (arith, above)),
      kept_ptr ret t1 _ (omega (arith, above)),
      kept_ptr ret t1 _ (omega (arith, above)),
    )

mem-stack_pop_ptr : (t : Machine) → (stack_pop_ptr t).1.mem ≡ t.mem
unfolding stack_pop_ptr stack_pop
mem-stack_pop_ptr t = refl

-- RET ends the call in progress: whatever the callee did, if it left `ss`, its own `bp` and the
-- eight bytes of the frame alone, execution goes on behind the CALL, with the caller's `bp` and `sp`.
pub opcode_ret-Frame :
    (t u : Machine)
    → IsBytes t.cache
    → Frame t u
    → (word off_ep (opcode_ret u) ≡ add32 (word off_ep t) 4)
      × (word off_bp (opcode_ret u) ≡ word off_bp t)
      × (word off_sp (opcode_ret u) ≡ word off_sp t)
unfolding opcode_ret
opcode_ret-Frame t u bytes f = (
  omega (arith, set_bp-words (stack_pop_ptr u2).0 (stack_pop_ptr u2).1, moved2, ep, popped),
  omega (
    arith,
    set_bp-words (stack_pop_ptr u2).0 (stack_pop_ptr u2).1,
    bp,
    get32-lt t.cache off_bp bytes,
  ),
  omega (
    arith,
    set_bp-words (stack_pop_ptr u2).0 (stack_pop_ptr u2).1,
    moved2,
    ep,
    moved,
    at0,
    get32-lt t.cache off_sp bytes,
  ),
)
  where
    u0 : Machine
    u0 = set_word off_sp (word off_bp u) u

    u1 : Machine
    u1 = (stack_pop_ptr u0).1

    u2 : Machine
    u2 = set_word off_ep (stack_pop_ptr u0).0 u1

    at0 : (word off_sp u0 ≡ (word off_sp t + 8) % 2 ^ 32) × (word off_ss u0 ≡ word off_ss t)
    at0 = omega (arith, set_sp-words (word off_bp u) u, f)

    moved : Moved (2 ^ 32 - 4) u0 u1
    moved = stack_pop_ptr-Moved u0

    moved2 : Moved (2 ^ 32 - 4) u2 (stack_pop_ptr u2).1
    moved2 = stack_pop_ptr-Moved u2

    ep :
        (word off_ep u2 ≡ (stack_pop_ptr u0).0 % 2 ^ 32)
        × (word off_ss u2 ≡ word off_ss u1)
        × (word off_sp u2 ≡ word off_sp u1)
        × (word off_bp u2 ≡ word off_bp u1)
    ep = set_ep-words (stack_pop_ptr u0).0 u1

    slots :
        (slot u0 (2 ^ 32 - 4) ≡ slot t 4)
        × (slot u0 (2 ^ 32 - 3) ≡ slot t 5)
        × (slot u0 (2 ^ 32 - 2) ≡ slot t 6)
        × (slot u0 (2 ^ 32 - 1) ≡ slot t 7)
    slots = omega (arith, at0)

    popped : (stack_pop_ptr u0).0 ≡ add32 (word off_ep t) 4
    popped = ground (arith, stack_pop_ptr_value u0, slots, f)

    slots2 :
        (slot u2 (2 ^ 32 - 4) ≡ slot t 0)
        × (slot u2 (2 ^ 32 - 3) ≡ slot t 1)
        × (slot u2 (2 ^ 32 - 2) ≡ slot t 2)
        × (slot u2 (2 ^ 32 - 1) ≡ slot t 3)
    slots2 = omega (arith, at0, moved, ep)

    bp : (stack_pop_ptr u2).0 ≡ word off_bp t
    bp = ground (arith, stack_pop_ptr_value u2, mem-stack_pop_ptr u0, slots2, f)

-- What the callee of a CALL made in `t` has to leave alone until it executes RET.
pub record FrameKept (x : Args) (t u : Machine) : Type 0 where
  pub bp : word off_bp u ≡ word off_bp (opcode_call x t)
  pub ss : word off_ss u ≡ word off_ss (opcode_call x t)
  pub saved : (i : ℕ) → i < 8 → u.mem (slot t i) ≡ (opcode_call x t).mem (slot t i)

-- RET undoes CALL, when the registers hold bytes: from any state `u` that the callee reaches with its `bp`, `ss` and the eight
-- bytes of the frame unchanged, RET continues behind the CALL with the caller's `bp` and `sp`.
pub opcode_ret-call :
    (x : Args) (t u : Machine)
    → IsBytes t.cache
    → FrameKept x t u
    → (word off_ep (opcode_ret u) ≡ add32 (word off_ep t) 4)
      × (word off_bp (opcode_ret u) ≡ word off_bp t)
      × (word off_sp (opcode_ret u) ≡ word off_sp t)
opcode_ret-call x t u bytes k = opcode_ret-Frame t u bytes (record {
  base = k.bp ∙ called.base;
  segment = k.ss ∙ called.segment;
  saved_bp = ground (
    arith,
    called,
    k.saved 0 (omega arith),
    k.saved 1 (omega arith),
    k.saved 2 (omega arith),
    k.saved 3 (omega arith),
  );
  saved_ep = ground (
    arith,
    called,
    k.saved 4 (omega arith),
    k.saved 5 (omega arith),
    k.saved 6 (omega arith),
    k.saved 7 (omega arith),
  );
})
  where
    called : Frame t (opcode_call x t)
    called = opcode_call-Frame x t bytes
