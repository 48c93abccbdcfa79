-- ===== src/Emulation/X4/Run.antt =====
-- x4.c: fetch, decode and dispatch.
use avr_kernel.Base.{
  ◌>>=◌, ℕ, zero, suc, Option, none, some, if◌then◌else◌, ◌==◌, ◌!=◌, add32, sub32,
}
use avr_kernel.Emulation.X4.Machine.{
  Machine, newline, off_ep, off_cs, word, set_word, flag, lower, flag_dirty, readb, advance,
}
use avr_kernel.Emulation.X4.Ops.{
  Args, opcode_movmr, opcode_movmw, opcode_movr, opcode_movb, opcode_mova, opcode_inc, opcode_dec,
  opcode_add, opcode_sub, opcode_mul, opcode_div, opcode_pop, opcode_push, opcode_and, opcode_or,
  opcode_xor, opcode_not, opcode_cmp, opcode_cmpr, opcode_jmp, opcode_je, opcode_jne, opcode_jg,
  opcode_jl, opcode_jz, opcode_jnz, opcode_call, opcode_ret, opcode_cli, opcode_sti,
}
use avr_kernel.Emulation.X4.Services.{emit, display_routine, keyboard_routine}

-- The opcodes that the switch knows.
pub data Opcode : Type 0 where
  movmr movmw movr movb mova inc dec add sub mul div pop push and or xor not' cmp cmpr : Opcode
  jmp je jne jg jl jz jnz call ret cli sti int nop : Opcode

unfoldable pub decode : ℕ → Option Opcode
decode c =
    if c == 0x81
    then some movmr
    else if c == 0x82
    then some movmw
    else if c == 0x88
    then some movr
    else if c == 0x89
    then some movb
    else if c == 0x83
    then some mova
    else if c == 0xfd
    then some inc
    else if c == 0xfc
    then some dec
    else if c == 0x00
    then some add
    else if c == 0x80
    then some sub
    else if c == 0xf6
    then some mul
    else if c == 0xf4
    then some div
    else if c == 0x0f
    then some pop
    else if c == 0xf0
    then some push
    else if c == 0x20
    then some and
    else if c == 0x21
    then some or
    else if c == 0x22
    then some xor
    else if c == 0x23
    then some not'
    else if c == 0x38
    then some cmp
    else if c == 0x39
    then some cmpr
    else if c == 0xfe
    then some jmp
    else if c == 0x74
    then some je
    else if c == 0xf3
    then some jne
    else if c == 0x75
    then some jg
    else if c == 0xf1
    then some jl
    else if c == 0x72
    then some jz
    else if c == 0xf9
    then some jnz
    else if c == 0x9a
    then some call
    else if c == 0xcb
    then some ret
    else if c == 0xfa
    then some cli
    else if c == 0xfb
    then some sti
    else if c == 0xcc
    then some int
    else if c == 0xcd
    then some int
    else if c == 0x90
    then some nop
    else none

-- How one round of the loop ends.
pub data Outcome : Type 0 where
  running : Machine → Outcome
  returned : ℕ → Machine → Outcome
  undefined : Outcome  -- C gives the round no meaning, or a service does not come back

abbrev pub continue : ℕ → Option Machine → Outcome
continue n none = undefined
continue n (some t) = running (advance n t)

unfoldable pub console_newline : Machine → Machine
console_newline t = if flag flag_dirty t then emit newline (lower flag_dirty t) else t

-- The instruction at CS:EP, and its five argument bytes.
abbrev pub fetch : ℕ → Machine → ℕ
fetch i t = readb (add32 (add32 (word off_cs t) (word off_ep t)) i) t

abbrev pub fetch_args : Machine → Args
fetch_args t = record {
  a0 = fetch 1 t;
  a1 = fetch 2 t;
  a2 = fetch 3 t;
  a3 = fetch 4 t;
  a4 = fetch 5 t;
}

module _ (key : ℕ → ℕ) (filesystem : Machine → ℕ × Machine) (rounds : ℕ) where
  -- The `switch` of `opcode_INT`: an unknown service does nothing.
  unfoldable pub service : ℕ → Machine → Option (ℕ × Machine)
  service n t =
      if n == 0x10
      then display_routine rounds t
      else if n == 0x13
      then some (filesystem t)
      else if n == 0x16
      then some (keyboard_routine key t)
      else some (0, t)

  -- What `opcode_INT` returns: 0xff to end the program, 0xd6 to yield, 0 otherwise.
  unfoldable pub finish_int : ℕ → ℕ → Machine → ℕ × Machine
  finish_int n result t =
      if n == 0x20
      then (0xff, console_newline t)
      else if result == 0xd6
      then (0xd6, set_word off_ep (sub32 (word off_ep t) 2) t)
      else (0, t)

  unfoldable pub opcode_int : Args → Machine → Option (ℕ × Machine)
  opcode_int x t = do (result, t') ← service x.a0 t; some (finish_int x.a0 result t')

  -- The case of `INT` in the switch.
  unfoldable pub after_int : ℕ → Machine → Outcome
  after_int result t =
      if result != 0
      then (if result == 0xd6
          then returned result (console_newline t)
          else returned 1 (console_newline t))
      else running (advance 1 t)

  abbrev pub int_outcome : Option (ℕ × Machine) → Outcome
  int_outcome none = undefined
  int_outcome (some (result, t)) = after_int result t

  -- The switch. `t` has `ep` past the opcode already; each case adds the length of its arguments.
  unfoldable pub execute : Opcode → Args → Machine → Outcome
  execute movmr x t = continue 5 (opcode_movmr x t)
  execute movmw x t = continue 5 (opcode_movmw x t)
  execute movr x t = continue 2 (opcode_movr x t)
  execute movb x t = continue 2 (opcode_movb x t)
  execute mova x t = continue 5 (opcode_mova x t)
  execute inc x t = continue 1 (opcode_inc x t)
  execute dec x t = continue 1 (opcode_dec x t)
  execute add x t = continue 2 (opcode_add x t)
  execute sub x t = continue 2 (opcode_sub x t)
  execute mul x t = continue 3 (opcode_mul x t)
  execute div x t = continue 3 (opcode_div x t)
  execute pop x t = continue 1 (opcode_pop x t)
  execute push x t = continue 1 (opcode_push x t)
  execute and x t = continue 2 (opcode_and x t)
  execute or x t = continue 2 (opcode_or x t)
  execute xor x t = continue 2 (opcode_xor x t)
  execute not' x t = continue 1 (opcode_not x t)
  execute cmp x t = continue 2 (opcode_cmp x t)
  execute cmpr x t = continue 2 (opcode_cmpr x t)
  execute jmp x t = running (opcode_jmp x t)
  execute je x t = running (opcode_je x t)
  execute jne x t = running (opcode_jne x t)
  execute jg x t = running (opcode_jg x t)
  execute jl x t = running (opcode_jl x t)
  execute jz x t = running (opcode_jz x t)
  execute jnz x t = running (opcode_jnz x t)
  execute call x t = running (opcode_call x t)
  execute ret x t = running (opcode_ret t)
  execute cli x t = running (opcode_cli t)
  execute sti x t = running (opcode_sti t)
  execute int x t = int_outcome (opcode_int x t)
  execute nop x t = running t

  abbrev pub dispatch : Option Opcode → Args → Machine → Outcome
  dispatch none x t = returned 1 t
  dispatch (some o) x t = execute o x t

  -- One round of the loop. The instruction bytes are read before `ep` moves.
  unfoldable pub step : Machine → Outcome
  step t = dispatch (decode (fetch 0 t)) (fetch_args t) (advance 1 t)

  -- `x4_emulate`: at most `steps` rounds.
  unfoldable pub emulate : ℕ → Machine → Outcome
  emulate zero t = returned 0 (console_newline t)
  emulate (suc steps) t = elim (step t) [
    | running t' ↦ emulate steps t'
    | returned code t' ↦ returned code t'
    | undefined ↦ undefined
  ]
