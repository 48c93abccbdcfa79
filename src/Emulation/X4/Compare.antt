-- ===== src/Emulation/X4/Compare.antt =====
-- The flags: what a comparison sets, what the jumps read, and the zero flag of the arithmetic.
use avr_kernel.Base.{
  ℕ, ◌+◌, ◌%◌, ◌^◌, ◌<◌, ◌≡◌, ◌≢◌, refl, ap, arith, Bool, true, false, not, some, ltb, ◌==◌,
  if◌then◌else◌, u8, add32, get32, put32, IsBytes, bit_test, bit_set, bit_clear, holds_below,
  holds_below_at, eqb, ◌&&◌,
}
use avr_kernel.Emulation.X4.Machine.{
  Machine, off_ep, off_state, word, set_byte, flag, flag_zero, flag_equal, flag_greater, flag_less,
  read_reg, write_reg,
}
use avr_kernel.Emulation.X4.Ops.{
  Args, pointer, update_compare_flags, update_zero_flag, store_result, jump_if, opcode_cmp,
  opcode_inc, opcode_dec, opcode_je, opcode_jne, opcode_jg, opcode_jl, opcode_jz, opcode_jnz,
}

-- The four condition flags, as a comparison of two bytes should leave them.
pub record Compared (left right : ℕ) (t : Machine) : Type 0 where
  pub equal : flag flag_equal t ≡ (left == right)
  pub greater : flag flag_greater t ≡ ltb right left
  pub less : flag flag_less t ≡ ltb left right
  pub zero : flag flag_zero t ≡ (left == right)

-- The flags byte after each of the three branches, and its bits at every byte before.
abbrev after_equal : ℕ → ℕ
after_equal b =
    bit_set (bit_clear (bit_clear (bit_set b flag_equal) flag_less) flag_greater) flag_zero

abbrev after_greater : ℕ → ℕ
after_greater b =
    bit_clear (bit_clear (bit_set (bit_clear b flag_equal) flag_greater) flag_less) flag_zero

abbrev after_less : ℕ → ℕ
after_less b =
    bit_clear (bit_set (bit_clear (bit_clear b flag_equal) flag_greater) flag_less) flag_zero

-- `equal`, `greater`, `less`, `zero`
abbrev has_bits : ℕ → Bool → Bool → Bool → Bool → Bool
has_bits b e g l z =
    eqb (bit_test b flag_equal) e
    && (eqb (bit_test b flag_greater) g
        && (eqb (bit_test b flag_less) l && eqb (bit_test b flag_zero) z))

compare_table :
    holds_below
      (λ b.
        has_bits (after_equal b) true false false true
        && (has_bits (after_greater b) false true false false
            && has_bits (after_less b) false false true false))
      256
    ≡ true
unfolding holds_below bit_test bit_set bit_clear
compare_table = refl

compare_bits :
    (b : ℕ)
    → b < 256
    → (has_bits (after_equal b) true false false true ≡ true)
      × (has_bits (after_greater b) false true false false ≡ true)
      × (has_bits (after_less b) false false true false ≡ true)
compare_bits b h = ground (arith, holds_below_at _ 256 compare_table b h)

update_compare_flags-Compared :
    (left right : ℕ) (t : Machine)
    → t.cache off_state < 256
    → Compared left right (update_compare_flags left right t)
unfolding update_compare_flags
update_compare_flags-Compared left right t small =
    ground (arith, compare_bits (t.cache off_state) small)

-- Where a conditional jump made in `t` continues.
abbrev lands : Bool → Args → Machine → ℕ
lands taken y t = if taken then pointer y.a0 y.a1 y.a2 y.a3 % 2 ^ 32 else add32 (word off_ep t) 4

ep-jump_if :
    (taken : Bool) (y : Args) (t : Machine) → word off_ep (jump_if taken y t) ≡ lands taken y t
unfolding jump_if get32 put32
ep-jump_if taken y t = ground arith

pub ep-update_compare_flags :
    (left right : ℕ) (t : Machine) → word off_ep (update_compare_flags left right t) ≡ word off_ep t
unfolding update_compare_flags get32
ep-update_compare_flags left right t = ground arith

lands_after :
    (taken taken' : Bool) (y : Args) (t u : Machine)
    → taken ≡ taken'
    → word off_ep u ≡ word off_ep t
    → word off_ep (jump_if taken y u) ≡ lands taken' y t
lands_after taken taken' y t u same ep = ground (arith, ep-jump_if taken y u)

-- CMP succeeds, and where each conditional jump then lands.
abbrev pub JumpsAsCompared : (x y : Args) (t : Machine) → Type 0
JumpsAsCompared x y t =
    (u : Machine) × (opcode_cmp x t ≡ some u)
    × (word off_ep (opcode_je y u) ≡ lands (t.cache x.a0 == x.a1) y t)
    × (word off_ep (opcode_jne y u) ≡ lands (not (t.cache x.a0 == x.a1)) y t)
    × (word off_ep (opcode_jg y u) ≡ lands (ltb x.a1 (t.cache x.a0)) y t)
    × (word off_ep (opcode_jl y u) ≡ lands (ltb (t.cache x.a0) x.a1) y t)
    × (word off_ep (opcode_jz y u) ≡ lands (t.cache x.a0 == x.a1) y t)
    × (word off_ep (opcode_jnz y u) ≡ lands (not (t.cache x.a0 == x.a1)) y t)

-- After CMP of a byte register with a constant, every conditional jump decides as its mnemonic says
-- of the two bytes: it lands on its target, or behind its four argument bytes.
pub jumps-cmp :
    (x y : Args) (t : Machine) → x.a0 < 8 → t.cache off_state < 256 → JumpsAsCompared x y t
unfolding opcode_cmp read_reg opcode_je opcode_jne opcode_jg opcode_jl opcode_jz opcode_jnz
jumps-cmp x y t reg small = (
  u,
  ground arith,
  lands_after _ _ y t u c.equal same,
  lands_after _ _ y t u (ap not c.equal) same,
  lands_after _ _ y t u c.greater same,
  lands_after _ _ y t u c.less same,
  lands_after _ _ y t u c.zero same,
  lands_after _ _ y t u (ap not c.zero) same,
)
  where
    u : Machine
    u = update_compare_flags (t.cache x.a0) x.a1 t

    c : Compared (t.cache x.a0) x.a1 u
    c = update_compare_flags-Compared (t.cache x.a0) x.a1 t small

    same : word off_ep u ≡ word off_ep t
    same = ep-update_compare_flags (t.cache x.a0) x.a1 t

zero_bit_table :
    holds_below
      (λ b.
        bit_test (bit_set b flag_zero) flag_zero
        && not (bit_test (bit_clear b flag_zero) flag_zero))
      256
    ≡ true
unfolding holds_below bit_test bit_set bit_clear
zero_bit_table = refl

-- A result goes to a byte register with the zero flag telling whether it is 0, and to no other
-- register.
store_result_lem :
    (i v : ℕ) (t : Machine)
    → i < 8
    → t.cache off_state < 256
    → (u : Machine) × (store_result i v t ≡ some u)
      × (u.cache i ≡ v)
      × (flag flag_zero u ≡ (v == 0))
      × (u.cache off_state < 256)
      × ((j : ℕ) → j < 8 → j ≢ i → u.cache j ≡ t.cache j)
unfolding store_result update_zero_flag write_reg bit_set bit_clear
store_result_lem i v t reg small = (
  update_zero_flag v (set_byte i v t),
  ground arith,
  ground arith,
  ground (arith, holds_below_at _ 256 zero_bit_table (t.cache off_state) small),
  ground arith,
  λ j hj ne. ground arith,
)

-- INC and then DEC of the register named by `x`, both defined, and what they leave.
abbrev pub IncDec : (x : Args) (t : Machine) → Type 0
IncDec x t =
    (u w : Machine) × (opcode_inc x t ≡ some u)
    × (opcode_dec x u ≡ some w)
    × (u.cache x.a0 ≡ u8 (t.cache x.a0 + 1))
    × (w.cache x.a0 ≡ t.cache x.a0)
    × (flag flag_zero w ≡ (t.cache x.a0 == 0))

-- INC and then DEC of a byte register give its value back, modulo 2 ^ 8, with the zero flag telling
-- whether it is 0.
pub opcode_dec-inc : (x : Args) (t : Machine) → x.a0 < 8 → IsBytes t.cache → IncDec x t
unfolding opcode_inc opcode_dec read_reg
opcode_dec-inc x t reg bytes =
    let up = store_result_lem x.a0 (u8 (t.cache x.a0 + 1)) t reg (bytes off_state) in
    let down = store_result_lem x.a0 (u8 (up.0.cache x.a0 + 255)) up.0 reg up.4 in
    (
      up.0,
      down.0,
      ground (arith, up.1),
      ground (arith, down.1),
      up.2,
      ground (arith, down.2, up.2, bytes x.a0),
      ground (arith, down.3, up.2, bytes x.a0),
    )
