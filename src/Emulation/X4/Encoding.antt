-- ===== src/Emulation/X4/Encoding.antt =====
-- The encoding of the instructions of kernel/emulation/x4: operands, and how each one goes on.
use avr_kernel.Base.{◌⊎◌, List, [], ◌∷◌, if◌then◌else◌, ltb, ℕ, ◌+◌, ◌%◌, ◌^◌, ◌<◌, ◌≡◌}
use avr_kernel.Emulation.X4.Ops.{Args, pointer}
use avr_kernel.Emulation.X4.Run.{Opcode}

-- What stands behind an opcode: registers and bytes by one byte each, addresses by four.
pub data Operand : Type 0 where
  register immediate address : Operand

unfoldable pub operands : Opcode → List Operand
operands Opcode.movmr = register ∷ address ∷ []
operands Opcode.movmw = register ∷ address ∷ []
operands Opcode.movr = register ∷ register ∷ []
operands Opcode.movb = register ∷ immediate ∷ []
operands Opcode.mova = register ∷ address ∷ []
operands Opcode.inc = register ∷ []
operands Opcode.dec = register ∷ []
operands Opcode.add = register ∷ register ∷ []
operands Opcode.sub = register ∷ register ∷ []
operands Opcode.mul = register ∷ register ∷ register ∷ []
operands Opcode.div = register ∷ register ∷ register ∷ []
operands Opcode.pop = register ∷ []
operands Opcode.push = register ∷ []
operands Opcode.and = register ∷ register ∷ []
operands Opcode.or = register ∷ register ∷ []
operands Opcode.xor = register ∷ register ∷ []
operands Opcode.not' = register ∷ []
operands Opcode.cmp = register ∷ immediate ∷ []
operands Opcode.cmpr = register ∷ register ∷ []
operands Opcode.ret = []
operands Opcode.cli = []
operands Opcode.sti = []
operands Opcode.int = immediate ∷ []
operands Opcode.nop = []
operands _ = address ∷ []

abbrev pub operand_size : Operand → ℕ
operand_size register = 1
operand_size immediate = 1
operand_size address = 4

abbrev pub total : List Operand → ℕ
total [] = 0
total (o ∷ os) = operand_size o + total os

abbrev pub args_length : Opcode → ℕ
args_length o = total (operands o)

-- Only the first `n` argument bytes.
abbrev pub first : ℕ → Args → Args
first n x = record {
  a0 = if ltb 0 n then x.a0 else 0;
  a1 = if ltb 1 n then x.a1 else 0;
  a2 = if ltb 2 n then x.a2 else 0;
  a3 = if ltb 3 n then x.a3 else 0;
  a4 = if ltb 4 n then x.a4 else 0;
}

-- A first operand that is a register is one of AL to DL.
abbrev pub IsInRange : List Operand → Args → Type 0
IsInRange (register ∷ _) x = x.a0 < 7
IsInRange _ x = Unit

-- How an instruction goes on.
pub data Flow : Type 0 where
  straight branch jump back : Flow

unfoldable pub flow : Opcode → Flow
flow Opcode.jmp = jump
flow Opcode.call = jump
flow Opcode.je = branch
flow Opcode.jne = branch
flow Opcode.jg = branch
flow Opcode.jl = branch
flow Opcode.jz = branch
flow Opcode.jnz = branch
flow Opcode.ret = back
flow _ = straight

-- The execution pointer behind it, which was `ep` behind the opcode.
abbrev pub GoesOn : Flow → (n ep : ℕ) → Args → (after : ℕ) → Type 0
GoesOn straight n ep x after = after ≡ (ep + n) % 2 ^ 32
GoesOn branch n ep x after =
    (after ≡ (ep + n) % 2 ^ 32) ⊎ (after ≡ pointer x.a0 x.a1 x.a2 x.a3 % 2 ^ 32)
GoesOn jump n ep x after = after ≡ pointer x.a0 x.a1 x.a2 x.a3 % 2 ^ 32
GoesOn back n ep x after = Unit
