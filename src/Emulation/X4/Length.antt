-- ===== src/Emulation/X4/Length.antt =====
-- What each instruction of kernel/emulation/x4 reads, and where it goes on.
use avr_kernel.Base.{
  sym, ◌∙◌, ap, inl, inr, Bool, Bool-cases, true, false, not, ◌==◌, ◌>>=◌, ℕ, ◌+◌, ◌-◌, ◌*◌, ◌%◌,
  ◌^◌, ◌≡◌, refl, arith, Option, some, none, u8, bit_and, bit_or, bit_xor, add32, get32-put32,
  get32-lt, IsBytes,
}
use avr_kernel.Emulation.X4.Machine.{
  Machine, off_ep, word, set_word, flag, flag_interrupt, flag_less, flag_equal, flag_greater,
  flag_zero, advance,
}
use avr_kernel.Emulation.X4.Ops.{
  Args, pointer, jump_if, opcode_jmp, opcode_je, opcode_jne, opcode_jg, opcode_jl, opcode_jz,
  opcode_jnz, opcode_call, opcode_cli, opcode_sti, opcode_movmr, opcode_movmw, opcode_movr,
  opcode_movb, opcode_mova, opcode_inc, opcode_dec, opcode_add, opcode_sub, opcode_mul, opcode_div,
  opcode_pop, opcode_push, opcode_and, opcode_or, opcode_xor, opcode_not, opcode_cmp, opcode_cmpr,
}
use avr_kernel.Emulation.X4.Run.{
  Opcode, Outcome, running, execute, service, finish_int, opcode_int, after_int, int_outcome,
}
use avr_kernel.Emulation.X4.Encoding.{operands, args_length, first, IsInRange, branch, flow, GoesOn}
use avr_kernel.Emulation.X4.Pointer.{
  write_reg-KeepsEp, movr-KeepsEp, unary-KeepsEp, binary-KeepsEp, opcode_mova-KeepsEp,
  opcode_div-KeepsEp, opcode_pop-KeepsEp, opcode_push-KeepsEp, opcode_movmw-KeepsEp,
  opcode_cmp-KeepsEp, opcode_cmpr-KeepsEp, falls_through, ep-raise, ep-lower, ep-display_routine,
  ep-keyboard_routine,
}

ep_of : Outcome → ℕ
ep_of (running w) = word off_ep w
ep_of _ = 0

set_ep :
    (v : ℕ) (t w : Machine) → running (set_word off_ep v t) ≡ running w → word off_ep w ≡ v % 2 ^ 32
unfolding ep_of
set_ep v t w e = sym (ap ep_of e) ∙ get32-put32 t.cache off_ep v

branches :
    (taken : Bool) (x : Args) (t w : Machine)
    → running (jump_if taken x t) ≡ running w
    → GoesOn branch 4 (word off_ep t) x (word off_ep w)
unfolding jump_if
branches true x t w e = inr (set_ep (pointer x.a0 x.a1 x.a2 x.a3) t w e)
branches false x t w e = inl (omega (arith, set_ep (add32 (word off_ep t) 4) t w e))

module _ (key : ℕ → ℕ) (filesystem : Machine → ℕ × Machine) (rounds : ℕ) where
  execute-first :
      (o : Opcode) (x : Args) (t : Machine)
      → execute key filesystem rounds o x t
        ≡ execute key filesystem rounds o (first (args_length o) x) t
  unfolding execute operands opcode_movmr opcode_movmw opcode_movr opcode_movb opcode_mova
      opcode_inc opcode_dec opcode_add opcode_sub opcode_mul opcode_div opcode_pop opcode_push
      opcode_and opcode_or opcode_xor opcode_not opcode_cmp opcode_cmpr opcode_jmp opcode_je
      opcode_jne opcode_jg opcode_jl opcode_jz opcode_jnz opcode_call opcode_int jump_if
  execute-first Opcode.movmr x t = refl
  execute-first Opcode.movmw x t = refl
  execute-first Opcode.movr x t = refl
  execute-first Opcode.movb x t = refl
  execute-first Opcode.mova x t = refl
  execute-first Opcode.inc x t = refl
  execute-first Opcode.dec x t = refl
  execute-first Opcode.add x t = refl
  execute-first Opcode.sub x t = refl
  execute-first Opcode.mul x t = refl
  execute-first Opcode.div x t = refl
  execute-first Opcode.pop x t = refl
  execute-first Opcode.push x t = refl
  execute-first Opcode.and x t = refl
  execute-first Opcode.or x t = refl
  execute-first Opcode.xor x t = refl
  execute-first Opcode.not' x t = refl
  execute-first Opcode.cmp x t = refl
  execute-first Opcode.cmpr x t = refl
  execute-first Opcode.jmp x t = refl
  execute-first Opcode.je x t = refl
  execute-first Opcode.jne x t = refl
  execute-first Opcode.jg x t = refl
  execute-first Opcode.jl x t = refl
  execute-first Opcode.jz x t = refl
  execute-first Opcode.jnz x t = refl
  execute-first Opcode.call x t = refl
  execute-first Opcode.ret x t = refl
  execute-first Opcode.cli x t = refl
  execute-first Opcode.sti x t = refl
  execute-first Opcode.int x t = refl
  execute-first Opcode.nop x t = refl

  service-keeps :
      ((t : Machine) → word off_ep (filesystem t).1 ≡ word off_ep t)
      → (n k : ℕ) (t u : Machine) → service key filesystem rounds n t ≡ some (k, u)
      → word off_ep u ≡ word off_ep t
  unfolding service
  service-keeps files n k t u e =
      ground (arith, e, files t, ep-keyboard_routine key t, ep-display_routine rounds k t u)

  finished :
      (n : ℕ) (t w : Machine) (r : Option (ℕ × Machine))
      → ((k : ℕ) (u : Machine) → r ≡ some (k, u) → word off_ep u ≡ word off_ep t)
      → int_outcome key filesystem rounds
          (do (result, t') ← r; some (finish_int key filesystem rounds n result t'))
        ≡ running w
      → word off_ep w ≡ (word off_ep t + 1) % 2 ^ 32
  unfolding finish_int after_int advance
  finished n t w none keeps e = cc
  finished n t w (some (k, u)) keeps e = elim (Bool-cases (n == 0x20)) [
    | inl ends ↦ absurd (ground (arith, rw ends at e))
    | inr goes ↦ elim (Bool-cases (k == 0xd6)) [
      | inl waits ↦ absurd (ground (arith, rw (goes, waits) at e))
      | inr done ↦
          omega (arith, set_ep (add32 (word off_ep u) 1) u w (rw (goes, done) at e), keeps k u refl)
    ]
  ]

  execute-flow :
      ((t : Machine) → word off_ep (filesystem t).1 ≡ word off_ep t)
      → (o : Opcode) (x : Args) (t w : Machine) → IsBytes t.cache
      → IsInRange (operands o) x
      → execute key filesystem rounds o x t ≡ running w
      → GoesOn (flow o) (args_length o) (word off_ep t) x (word off_ep w)
  unfolding operands flow execute opcode_movmr opcode_movb opcode_movr opcode_inc opcode_dec
      opcode_add opcode_sub opcode_mul opcode_and opcode_or opcode_xor opcode_not opcode_jmp
      opcode_call opcode_je opcode_jne opcode_jg opcode_jl opcode_jz opcode_jnz opcode_cli
      opcode_sti opcode_int ep_of
  execute-flow files Opcode.movmr x t w b h e =
      falls_through 5 t _ w (write_reg-KeepsEp x.a0 _ t (omega arith)) e
  execute-flow files Opcode.movmw x t w b h e = falls_through 5 t _ w (opcode_movmw-KeepsEp x t) e
  execute-flow files Opcode.movr x t w b h e =
      falls_through 2 t _ w (movr-KeepsEp x t (omega arith)) e
  execute-flow files Opcode.movb x t w b h e =
      falls_through 2 t _ w (write_reg-KeepsEp x.a0 x.a1 t (omega arith)) e
  execute-flow files Opcode.mova x t w b h e = falls_through 5 t _ w (opcode_mova-KeepsEp x t h) e
  execute-flow files Opcode.inc x t w b h e =
      falls_through 1 t _ w (unary-KeepsEp (λ v. u8 (v + 1)) x.a0 x.a0 t (omega arith)) e
  execute-flow files Opcode.dec x t w b h e =
      falls_through 1 t _ w (unary-KeepsEp (λ v. u8 (v + 255)) x.a0 x.a0 t (omega arith)) e
  execute-flow files Opcode.add x t w b h e =
      falls_through 2 t _ w (binary-KeepsEp (λ v w. u8 (v + w)) x.a0 x.a0 x.a1 t (omega arith)) e
  execute-flow files Opcode.sub x t w b h e =
      falls_through 2 t _ w
        (binary-KeepsEp (λ v w. u8 (v + 256 - w)) x.a0 x.a0 x.a1 t (omega arith)) e
  execute-flow files Opcode.mul x t w b h e =
      falls_through 3 t _ w (binary-KeepsEp (λ v w. u8 (v * w)) x.a0 x.a1 x.a2 t (omega arith)) e
  execute-flow files Opcode.div x t w b h e =
      falls_through 3 t _ w (opcode_div-KeepsEp x t (omega arith)) e
  execute-flow files Opcode.pop x t w b h e =
      falls_through 1 t _ w (opcode_pop-KeepsEp x t (omega arith)) e
  execute-flow files Opcode.push x t w b h e = falls_through 1 t _ w (opcode_push-KeepsEp x t) e
  execute-flow files Opcode.and x t w b h e =
      falls_through 2 t _ w
        (binary-KeepsEp (λ v w. u8 (bit_and v w)) x.a0 x.a0 x.a1 t (omega arith)) e
  execute-flow files Opcode.or x t w b h e =
      falls_through 2 t _ w (binary-KeepsEp (λ v w. u8 (bit_or v w)) x.a0 x.a0 x.a1 t (omega arith))
        e
  execute-flow files Opcode.xor x t w b h e =
      falls_through 2 t _ w
        (binary-KeepsEp (λ v w. u8 (bit_xor v w)) x.a0 x.a0 x.a1 t (omega arith)) e
  execute-flow files Opcode.not' x t w b h e =
      falls_through 1 t _ w (unary-KeepsEp (λ v. 255 - v) x.a0 x.a0 t (omega arith)) e
  execute-flow files Opcode.cmp x t w b h e = falls_through 2 t _ w (opcode_cmp-KeepsEp x t) e
  execute-flow files Opcode.cmpr x t w b h e = falls_through 2 t _ w (opcode_cmpr-KeepsEp x t) e
  execute-flow files Opcode.nop x t w b h e =
      let same : word off_ep t ≡ word off_ep w = ap ep_of e in
      omega (arith, same, get32-lt t.cache off_ep b)
  execute-flow files Opcode.cli x t w b h e =
      omega (arith, sym (ap ep_of e) ∙ ep-lower flag_interrupt t, get32-lt t.cache off_ep b)
  execute-flow files Opcode.sti x t w b h e =
      omega (arith, sym (ap ep_of e) ∙ ep-raise flag_interrupt t, get32-lt t.cache off_ep b)
  execute-flow files Opcode.jmp x t w b h e = set_ep _ t w e
  execute-flow files Opcode.call x t w b h e = set_ep _ _ w e
  execute-flow files Opcode.ret x t w b h e = tt
  execute-flow files Opcode.je x t w b h e = branches (flag flag_equal t) x t w e
  execute-flow files Opcode.jne x t w b h e = branches (not (flag flag_equal t)) x t w e
  execute-flow files Opcode.jg x t w b h e = branches (flag flag_greater t) x t w e
  execute-flow files Opcode.jl x t w b h e = branches (flag flag_less t) x t w e
  execute-flow files Opcode.jz x t w b h e = branches (flag flag_zero t) x t w e
  execute-flow files Opcode.jnz x t w b h e = branches (not (flag flag_zero t)) x t w e
  execute-flow files Opcode.int x t w b h e =
      finished x.a0 t w (service key filesystem rounds x.a0 t)
        (λ k u. service-keeps files x.a0 k t u) e

  -- The encoding of the instructions, whose operands are registers and bytes of one byte each and
  -- addresses of four: for an instruction that has a register of AL to DL first, or no register
  -- first, when the registers of the thread hold bytes and the file-system service keeps the
  -- execution pointer. It does not depend on a byte behind its own operands. And when it leaves the
  -- emulator running, the execution pointer stands behind the operands; a conditional jump may have
  -- moved it to its address instead, and JMP and CALL have. Nothing is said on where RET goes on.
  pub execute-GoesOn :
      ((t : Machine) → word off_ep (filesystem t).1 ≡ word off_ep t)
      → (o : Opcode) (x : Args) (t : Machine) → IsBytes t.cache
      → IsInRange (operands o) x
      → (execute key filesystem rounds o x t
          ≡ execute key filesystem rounds o (first (args_length o) x) t)
        × ((w : Machine)
            → execute key filesystem rounds o x t ≡ running w
            → GoesOn (flow o) (args_length o) (word off_ep t) x (word off_ep w))
  execute-GoesOn files o x t b h = (execute-first o x t, λ w. execute-flow files o x t w b h)
