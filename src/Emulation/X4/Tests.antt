-- ===== src/Emulation/X4/Tests.antt =====
-- Threads of the emulator of kernel/emulation/x4, small enough to run.
use mathlib.Core.List.{reverse_aux}
use avr_kernel.Base.{
  ℕ, zero, suc, ◌+◌, ◌<◌, ◌≡◌, ◌≢◌, refl, arith, [], upd, add32, sub32, get32, IsBytes,
}
use avr_kernel.Emulation.X4.Machine.{
  Machine, off_ep, off_bp, off_sp, off_ah, word, raise, flag_dirty, advance, readb, kmem_read8,
}
use avr_kernel.Emulation.X4.Ops.{Args, opcode_call, opcode_ret}
use avr_kernel.Emulation.X4.Run.{Opcode, running, returned, execute, step}
use avr_kernel.Emulation.X4.Calls.{opcode_ret-call}
use avr_kernel.Emulation.X4.Interrupts.{char_at, text, EndsAt, step-text, step-waiting}
use avr_kernel.Emulation.X4.Encoding.{operands, args_length, first, IsInRange, flow, GoesOn}
use avr_kernel.Emulation.X4.Length.{execute-GoesOn}

-- A thread at address 100 of its code segment, whose memory holds `f`.
abbrev thread : (ℕ → ℕ) → Machine
thread f = record {
  cache = upd (upd (λ _. 0) 8 100) 17 8;
  mem = f;
  heap_begin = 0;
  out = [];
  last_character = 0;
  polls = 0;
}

abbrev idle : Machine
idle = thread λ _. 0

abbrev args : ℕ → ℕ → Args
args a b = record { a0 = a; a1 = b; a2 = 0; a3 = 0; a4 = 0 }

idle-IsBytes : IsBytes idle.cache
idle-IsBytes i = ground arith

-- The callee does nothing.
opcode_ret-call_example :
    (word off_ep (opcode_ret (opcode_call (args 9 0) idle)) ≡ add32 (word off_ep idle) 4)
    × (word off_bp (opcode_ret (opcode_call (args 9 0) idle)) ≡ word off_bp idle)
    × (word off_sp (opcode_ret (opcode_call (args 9 0) idle)) ≡ word off_sp idle)
opcode_ret-call_example =
    opcode_ret-call (args 9 0) idle (opcode_call (args 9 0) idle) idle-IsBytes
      (record { bp = refl; ss = refl; saved = λ i lt. refl })

-- The text "Hi" at CS:DX, that is at 0, and INT 10h with AH = 09h at address 100.
abbrev greeting : Machine
greeting =
    let t = thread (upd (upd (upd (upd (λ _. 0) 0 72) 1 105) 100 0xcd) 101 0x10) in
    record t { cache = upd t.cache off_ah 0x09 }

greeting_bytes : (char_at 0 greeting ≡ 72) × (char_at 1 greeting ≡ 105) × (char_at 2 greeting ≡ 0)
unfolding kmem_read8 readb get32
greeting_bytes = (refl, refl, refl)

greeting_chars : (j : ℕ) → j < 2 → char_at (0 + j) greeting ≢ 0
greeting_chars zero lt e = omega (arith, e, greeting_bytes)
greeting_chars (suc zero) lt e = omega (arith, e, greeting_bytes)
greeting_chars (suc (suc j)) lt e = absurd (omega (arith, lt))

greeting_ends : EndsAt 2 0 greeting
greeting_ends = record { chars = greeting_chars; null = greeting_bytes.2; small = omega arith }

abbrev no_key : ℕ → ℕ
no_key _ = 0

abbrev no_filesystem : Machine → ℕ × Machine
no_filesystem t = (0, t)

step-text_example :
    step no_key no_filesystem 3 greeting
    ≡ running (
        advance 1 (
          raise flag_dirty
            (record (advance 1 greeting) { out = reverse_aux (text 2 0 greeting) [] })))
unfolding readb get32
step-text_example =
    step-text no_key no_filesystem 3 2 greeting refl refl refl (omega arith) greeting_ends

-- INT 16h with AH = 0 at address 100.
abbrev waiting : Machine
waiting = thread (upd (upd (λ _. 0) 100 0xcd) 101 0x16)

step-waiting_example :
    (u : Machine) × (step no_key no_filesystem 1 waiting ≡ returned 0xd6 u)
    × (word off_ep u ≡ sub32 (word off_ep waiting) 1)
unfolding readb get32
step-waiting_example = step-waiting no_key no_filesystem 1 waiting idle-IsBytes refl refl refl refl

abbrev files_keep : (t : Machine) → word off_ep (no_filesystem t).1 ≡ word off_ep t
files_keep t = refl

-- JE, not taken.
je-IsInRange : IsInRange (operands Opcode.je) (args 9 0)
unfolding operands
je-IsInRange = tt

execute-GoesOn_example :
    (execute no_key no_filesystem 1 Opcode.je (args 9 0) idle
      ≡ execute no_key no_filesystem 1 Opcode.je (first (args_length Opcode.je) (args 9 0)) idle)
    × ((w : Machine)
        → execute no_key no_filesystem 1 Opcode.je (args 9 0) idle ≡ running w
        → GoesOn
            (flow Opcode.je)
            (args_length Opcode.je)
            (word off_ep idle)
            (args 9 0)
            (word off_ep w))
execute-GoesOn_example =
    execute-GoesOn no_key no_filesystem 1 files_keep Opcode.je (args 9 0) idle idle-IsBytes
      je-IsInRange
