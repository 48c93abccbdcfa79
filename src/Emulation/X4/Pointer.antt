-- ===== src/Emulation/X4/Pointer.antt =====
-- The operations of kernel/emulation/x4 that keep the execution pointer.
use avr_kernel.Base.{
  zero, suc, if◌then◌else◌, ◌==◌, ◌>>=◌, ℕ, ◌+◌, ◌/◌, ◌%◌, ◌^◌, ◌<◌, ◌≡◌, refl, arith, Option, some,
  none, add32, get32, put32, get32-put32,
}
use avr_kernel.Emulation.X4.Machine.{
  Machine, off_ep, word, raise, lower, flag_dirty, newline, put_char, kmem_read8, read_reg,
  write_reg, writeb, advance,
}
use avr_kernel.Emulation.X4.Ops.{
  Args, opcode_movmw, opcode_movr, opcode_mova, opcode_div, opcode_pop, opcode_push, opcode_cmp,
  opcode_cmpr, store_result, update_zero_flag, stack_push, stack_pop,
}
use avr_kernel.Emulation.X4.Compare.{ep-update_compare_flags}
use avr_kernel.Emulation.X4.Run.{running, continue}
use avr_kernel.Emulation.X4.Services.{emit, text_at, print_loop, display_routine, keyboard_routine}

-- An operation that, if C defines it, keeps the execution pointer.
abbrev pub KeepsEp : Machine → Option Machine → Type 0
KeepsEp t r = (u : Machine) → r ≡ some u → word off_ep u ≡ word off_ep t

pub write_reg-KeepsEp : (i v : ℕ) (t : Machine) → i < 8 → KeepsEp t (write_reg i v t)
unfolding write_reg get32
write_reg-KeepsEp i v t h u e = ground arith

store_result-KeepsEp : (i v : ℕ) (t : Machine) → i < 8 → KeepsEp t (store_result i v t)
unfolding write_reg store_result update_zero_flag get32
store_result-KeepsEp i v t h u e = ground arith

pub movr-KeepsEp : (x : Args) (t : Machine) → x.a0 < 8 → KeepsEp t (opcode_movr x t)
unfolding opcode_movr read_reg
movr-KeepsEp x t h u e = ground (arith, write_reg-KeepsEp x.a0 (t.cache x.a1) t h u)

-- One operand read, and two.
pub unary-KeepsEp :
    (f : ℕ → ℕ) (i j : ℕ) (t : Machine)
    → i < 8
    → KeepsEp t (read_reg j t >>= λ v. store_result i (f v) t)
unfolding read_reg
unary-KeepsEp f i j t h u e = ground (arith, store_result-KeepsEp i (f (t.cache j)) t h u)

pub binary-KeepsEp :
    (f : ℕ → ℕ → ℕ) (i j k : ℕ) (t : Machine)
    → i < 8
    → KeepsEp t (read_reg j t >>= λ v. read_reg k t >>= λ w. store_result i (f v w) t)
unfolding read_reg
binary-KeepsEp f i j k t h u e =
    ground (arith, store_result-KeepsEp i (f (t.cache j) (t.cache k)) t h u)

pub opcode_mova-KeepsEp : (x : Args) (t : Machine) → x.a0 < 7 → KeepsEp t (opcode_mova x t)
unfolding opcode_mova write_reg get32
opcode_mova-KeepsEp x t h u e = ground arith

pub opcode_div-KeepsEp : (x : Args) (t : Machine) → x.a0 < 8 → KeepsEp t (opcode_div x t)
unfolding opcode_div read_reg
opcode_div-KeepsEp x t h u e =
    ground (arith, store_result-KeepsEp x.a0 (t.cache x.a1 / t.cache x.a2) t h u)

pub opcode_pop-KeepsEp : (x : Args) (t : Machine) → x.a0 < 8 → KeepsEp t (opcode_pop x t)
unfolding opcode_pop stack_pop write_reg get32 put32
opcode_pop-KeepsEp x t h u e = ground arith

pub opcode_push-KeepsEp : (x : Args) (t : Machine) → KeepsEp t (opcode_push x t)
unfolding opcode_push stack_push read_reg writeb get32 put32
opcode_push-KeepsEp x t u e = ground arith

pub opcode_movmw-KeepsEp : (x : Args) (t : Machine) → KeepsEp t (opcode_movmw x t)
unfolding opcode_movmw read_reg writeb get32
opcode_movmw-KeepsEp x t u e = ground arith

pub opcode_cmp-KeepsEp : (x : Args) (t : Machine) → KeepsEp t (opcode_cmp x t)
unfolding opcode_cmp read_reg
opcode_cmp-KeepsEp x t u e = ground (arith, ep-update_compare_flags (t.cache x.a0) x.a1 t)

pub opcode_cmpr-KeepsEp : (x : Args) (t : Machine) → KeepsEp t (opcode_cmpr x t)
unfolding opcode_cmpr read_reg
opcode_cmpr-KeepsEp x t u e =
    ground (arith, ep-update_compare_flags (t.cache x.a0) (t.cache x.a1) t)

continue-ep :
    (n : ℕ) (t : Machine) (r : Option Machine) (w : Machine)
    → KeepsEp t r
    → continue n r ≡ running w
    → word off_ep w ≡ add32 (word off_ep t) n
unfolding advance
continue-ep n t none w keeps e = cc
continue-ep n t (some u) w keeps e =
    ground (arith, keeps u refl, get32-put32 u.cache off_ep (add32 (word off_ep u) n))

pub falls_through :
    (k : ℕ) (t : Machine) (r : Option Machine) (w : Machine)
    → KeepsEp t r
    → continue k r ≡ running w
    → word off_ep w ≡ (word off_ep t + k) % 2 ^ 32
falls_through k t r w keeps e = ground (arith, continue-ep k t r w keeps e)

ep-print_loop :
    (rounds i : ℕ) (t u : Machine) → print_loop rounds i t ≡ some u → word off_ep u ≡ word off_ep t
unfolding print_loop
ep-print_loop zero i t u e = ground (arith, e)
ep-print_loop (suc rounds) i t u e =
    let c = kmem_read8 (text_at i t) t in
    ground (
      arith,
      e,
      ep-print_loop rounds (add32 i 1) (emit (if c == 0x0d then newline else put_char c) t) u,
    )

pub ep-raise : (f : ℕ) (t : Machine) → word off_ep (raise f t) ≡ word off_ep t
unfolding get32
ep-raise f t = ground arith

pub ep-lower : (f : ℕ) (t : Machine) → word off_ep (lower f t) ≡ word off_ep t
unfolding get32
ep-lower f t = ground arith

ep-printed :
    (n : ℕ) (t : Machine) (r : Option Machine) (u : Machine)
    → KeepsEp t r
    → (let after : Option (ℕ × Machine) = (do v ← r; some (0, raise flag_dirty v)) in after)
      ≡ some (n, u)
    → word off_ep u ≡ word off_ep t
ep-printed n t none u keeps e = cc
ep-printed n t (some v) u keeps e = ground (arith, keeps v refl, ep-raise flag_dirty v, e)

pub ep-display_routine :
    (rounds n : ℕ) (t u : Machine)
    → display_routine rounds t ≡ some (n, u)
    → word off_ep u ≡ word off_ep t
unfolding display_routine get32
ep-display_routine rounds n t u e =
    ground (arith, e, ep-printed n t (print_loop rounds 0 t) u (ep-print_loop rounds 0 t))

pub ep-keyboard_routine :
    (key : ℕ → ℕ) (t : Machine) → word off_ep (keyboard_routine key t).1 ≡ word off_ep t
unfolding keyboard_routine get32
ep-keyboard_routine key t = ground arith
