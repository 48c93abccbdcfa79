-- ===== src/Util/Div.antt =====
-- kernel/util/div6432.c: unsigned 64-bit division by shift and subtract. A uint64_t is a number
-- below 2 ^ 64. `none` means that the rounds given to a loop ran out.
pub mod Correct
mod Tests
use avr_kernel.Base.{
  ℕ, zero, suc, ◌+◌, ◌-◌, ◌*◌, ◌/◌, ◌%◌, ◌^◌, ◌≤◌, ◌<◌, ◌≡◌, refl, Bool, true, false, ◌&&◌, Option,
  none, some, bit_or, ltb, leb, ◌==◌, if◌then◌else◌, u64,
}

-- The local variables of `__udivmoddi4`.
pub record Regs : Type 0 where
  pub num : ℕ
  pub den : ℕ
  pub quot : ℕ
  pub qbit : ℕ

-- The first loop: shift `den` and `qbit` up while `den` stays representable and at most `num`.
pub align : ℕ → Regs → Option Regs
align zero r = none
align (suc rounds) r =
    let rest = align rounds (record r { den = u64 (r.den * 2); qbit = u64 (r.qbit * 2) }) in
    if ltb r.den (2 ^ 63) && leb r.den r.num then rest else some r

-- The body of the second loop.
pub subtract : Regs → Regs
subtract r =
    if leb r.den r.num
    then record r {
      num = r.num - r.den;
      quot = bit_or r.quot r.qbit;
      den = r.den / 2;
      qbit = r.qbit / 2;
    }
    else record r { den = r.den / 2; qbit = r.qbit / 2 }

-- The second loop.
pub reduce : ℕ → Regs → Option Regs
reduce zero r = none
reduce (suc rounds) r =
    let rest = reduce rounds (subtract r) in if ltb 0 r.qbit then rest else some r

-- What `__udivmoddi4` returns, and what it stores through `rem`.
pub record QuotRem : Type 0 where
  pub quot : ℕ
  pub rem : ℕ

finish : Option Regs → Option QuotRem
finish none = none
finish (some r) = some (record { quot = r.quot; rem = r.num })

reduce_aligned : Option Regs → Option Regs
reduce_aligned none = none
reduce_aligned (some r) = reduce 65 r

pub udivmoddi4 : ℕ → ℕ → Option QuotRem
udivmoddi4 num den =
    if den == 0
    then some (record { quot = 0; rem = num })
    else finish (reduce_aligned (align 64 (record { num = num; den = den; quot = 0; qbit = 1 })))

abbrev pub quot_of : Option QuotRem → Option ℕ
quot_of none = none
quot_of (some r) = some r.quot

abbrev pub rem_of : Option QuotRem → Option ℕ
rem_of none = none
rem_of (some r) = some r.rem

pub udivdi3 : ℕ → ℕ → Option ℕ
udivdi3 num den = quot_of (udivmoddi4 num den)

pub umoddi3 : ℕ → ℕ → Option ℕ
umoddi3 num den = rem_of (udivmoddi4 num den)
