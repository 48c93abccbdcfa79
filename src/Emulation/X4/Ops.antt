-- ===== src/Emulation/X4/Ops.antt =====
-- The instructions of opcodes.h. `none` is an access past the register struct or a division by
-- zero, which C leaves undefined.
use avr_kernel.Base.{
  ◌>>=◌, ℕ, ◌+◌, ◌-◌, ◌*◌, ◌/◌, ◌%◌, Option, none, some, Bool, if◌then◌else◌, ltb, ◌==◌, not, u8,
  add32, sub32, join32, bit_and, bit_or, bit_xor,
}
use avr_kernel.Emulation.X4.Machine.{
  Machine, off_ep, off_bp, off_sp, off_ss, word, set_word, flag, raise, lower, flag_zero,
  flag_equal, flag_greater, flag_less, flag_interrupt, read_reg, write_reg, readb, writeb,
}

-- `op_args`: the five bytes behind the opcode.
pub record Args : Type 0 where
  pub a0 : ℕ
  pub a1 : ℕ
  pub a2 : ℕ
  pub a3 : ℕ
  pub a4 : ℕ

-- `sp` is moved first, then the byte is read.
unfoldable pub stack_pop : Machine → ℕ × Machine
stack_pop t =
    let t' = set_word off_sp (sub32 (word off_sp t) 1) t in
    (readb (add32 (word off_ss t') (word off_sp t')) t', t')

unfoldable pub stack_push : ℕ → Machine → Machine
stack_push v t =
    let t' = writeb (add32 (word off_ss t) (word off_sp t)) v t in
    set_word off_sp (add32 (word off_sp t') 1) t'

unfoldable pub stack_push_ptr : ℕ → Machine → Machine
stack_push_ptr address t = stack_push (address / 16777216 % 256) (
    stack_push (address / 65536 % 256)
      (stack_push (address / 256 % 256) (stack_push (address % 256) t)))

unfoldable pub stack_pop_ptr : Machine → ℕ × Machine
stack_pop_ptr t =
    let (b3, t3) = stack_pop t in
    let (b2, t2) = stack_pop t3 in
    let (b1, t1) = stack_pop t2 in let (b0, t0) = stack_pop t1 in (join32 b0 b1 b2 b3, t0)

unfoldable pub update_compare_flags : ℕ → ℕ → Machine → Machine
update_compare_flags left right t =
    if left == right
    then raise flag_zero (lower flag_greater (lower flag_less (raise flag_equal t)))
    else if ltb right left
    then lower flag_zero (lower flag_less (raise flag_greater (lower flag_equal t)))
    else lower flag_zero (raise flag_less (lower flag_greater (lower flag_equal t)))

unfoldable pub update_zero_flag : ℕ → Machine → Machine
update_zero_flag v t = if v == 0 then raise flag_zero t else lower flag_zero t

-- `get_pointer_from_bytes`
abbrev pub pointer : ℕ → ℕ → ℕ → ℕ → ℕ
pointer = join32

unfoldable pub opcode_movmr : Args → Machine → Option Machine
opcode_movmr x t = write_reg x.a0 (readb (pointer x.a1 x.a2 x.a3 x.a4) t) t

unfoldable pub opcode_movmw : Args → Machine → Option Machine
opcode_movmw x t = do v ← read_reg x.a0 t; some (writeb (pointer x.a1 x.a2 x.a3 x.a4) v t)

unfoldable pub opcode_movr : Args → Machine → Option Machine
opcode_movr x t = do v ← read_reg x.a1 t; write_reg x.a0 v t

unfoldable pub opcode_movb : Args → Machine → Option Machine
opcode_movb x t = write_reg x.a0 x.a1 t

unfoldable pub opcode_mova : Args → Machine → Option Machine
opcode_mova x t = do t' ← write_reg x.a0 x.a1 t; write_reg (x.a0 + 1) x.a2 t'

-- Store a result, then set the zero flag from the byte that the register holds. A register index
-- that hits the flags byte reads back what the store left there.
unfoldable pub store_result : ℕ → ℕ → Machine → Option Machine
store_result i v t = do t' ← write_reg i v t; some (update_zero_flag (t'.cache i) t')

unfoldable pub opcode_inc : Args → Machine → Option Machine
opcode_inc x t = do v ← read_reg x.a0 t; store_result x.a0 (u8 (v + 1)) t

unfoldable pub opcode_dec : Args → Machine → Option Machine
opcode_dec x t = do v ← read_reg x.a0 t; store_result x.a0 (u8 (v + 255)) t

-- The two-operand instructions `*dst = *dst op reg[op_args[1]]`.
abbrev binary : (ℕ → ℕ → ℕ) → Args → Machine → Option Machine
binary op x t = do v ← read_reg x.a0 t; w ← read_reg x.a1 t; store_result x.a0 (op v w) t

unfoldable pub opcode_add : Args → Machine → Option Machine
opcode_add x t = binary (λ v w. u8 (v + w)) x t

unfoldable pub opcode_sub : Args → Machine → Option Machine
opcode_sub x t = binary (λ v w. u8 (v + 256 - w)) x t

unfoldable pub opcode_and : Args → Machine → Option Machine
opcode_and x t = binary (λ v w. u8 (bit_and v w)) x t

unfoldable pub opcode_or : Args → Machine → Option Machine
opcode_or x t = binary (λ v w. u8 (bit_or v w)) x t

unfoldable pub opcode_xor : Args → Machine → Option Machine
opcode_xor x t = binary (λ v w. u8 (bit_xor v w)) x t

unfoldable pub opcode_not : Args → Machine → Option Machine
opcode_not x t = do v ← read_reg x.a0 t; store_result x.a0 (255 - v) t

unfoldable pub opcode_mul : Args → Machine → Option Machine
opcode_mul x t = do v ← read_reg x.a1 t; w ← read_reg x.a2 t; store_result x.a0 (u8 (v * w)) t

unfoldable pub opcode_div : Args → Machine → Option Machine
opcode_div x t = do
  v ← read_reg x.a1 t
  w ← read_reg x.a2 t
  if w == 0 then none else store_result x.a0 (v / w) t

unfoldable pub opcode_push : Args → Machine → Option Machine
opcode_push x t = do v ← read_reg x.a0 t; some (stack_push v t)

unfoldable pub opcode_pop : Args → Machine → Option Machine
opcode_pop x t = let (v, t') = stack_pop t in write_reg x.a0 v t'

unfoldable pub opcode_cmp : Args → Machine → Option Machine
opcode_cmp x t = do v ← read_reg x.a0 t; some (update_compare_flags v x.a1 t)

unfoldable pub opcode_cmpr : Args → Machine → Option Machine
opcode_cmpr x t = do v ← read_reg x.a0 t; w ← read_reg x.a1 t; some (update_compare_flags v w t)

unfoldable pub opcode_jmp : Args → Machine → Machine
opcode_jmp x t = set_word off_ep (pointer x.a0 x.a1 x.a2 x.a3) t

-- The conditional jumps: to the target, or past the four bytes of it.
unfoldable pub jump_if : Bool → Args → Machine → Machine
jump_if taken x t =
    if taken
    then set_word off_ep (pointer x.a0 x.a1 x.a2 x.a3) t
    else set_word off_ep (add32 (word off_ep t) 4) t

unfoldable pub opcode_je : Args → Machine → Machine
opcode_je x t = jump_if (flag flag_equal t) x t

unfoldable pub opcode_jne : Args → Machine → Machine
opcode_jne x t = jump_if (not (flag flag_equal t)) x t

unfoldable pub opcode_jg : Args → Machine → Machine
opcode_jg x t = jump_if (flag flag_greater t) x t

unfoldable pub opcode_jl : Args → Machine → Machine
opcode_jl x t = jump_if (flag flag_less t) x t

unfoldable pub opcode_jz : Args → Machine → Machine
opcode_jz x t = jump_if (flag flag_zero t) x t

unfoldable pub opcode_jnz : Args → Machine → Machine
opcode_jnz x t = jump_if (not (flag flag_zero t)) x t

unfoldable pub opcode_call : Args → Machine → Machine
opcode_call x t =
    let return_address = add32 (word off_ep t) 4 in
    let t1 = stack_push_ptr (word off_bp t) t in
    let t2 = stack_push_ptr return_address t1 in
    let t3 = set_word off_bp (word off_sp t2) t2 in set_word off_ep (pointer x.a0 x.a1 x.a2 x.a3) t3

unfoldable pub opcode_ret : Machine → Machine
opcode_ret t =
    let (ep, t1) = stack_pop_ptr (set_word off_sp (word off_bp t) t) in
    let (bp, t2) = stack_pop_ptr (set_word off_ep ep t1) in set_word off_bp bp t2

-- The processor's own interrupt flag is not part of the machine.
unfoldable pub opcode_cli : Machine → Machine
opcode_cli t = lower flag_interrupt t

unfoldable pub opcode_sti : Machine → Machine
opcode_sti t = raise flag_interrupt t
