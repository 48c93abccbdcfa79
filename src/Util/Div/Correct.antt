-- ===== src/Util/Div/Correct.antt =====
-- The division routines return the quotient and the remainder.
use native.Mathlib.Nat.{div-eq_of_lt-le, mod-eq-sub-div-mul, pow-suc, one-le-pow}
use native.Mathlib.Nat.{zero-mul}
use mathlib.Core.Path.{subst}
use avr_kernel.Base.{
  ℕ, zero, suc, ◌+◌, ◌-◌, ◌*◌, ◌/◌, ◌%◌, ◌^◌, ◌≤◌, ◌<◌, ◌≡◌, refl, inl, inr, Option, some, arith,
  leb, ltb, ◌&&◌, Bool-cases, leb→le, lt→ltb, u64, ◌==◌, false, ap, bit_or_above, mul-pow-suc,
}
use avr_kernel.Util.Div.{
  udivdi3, umoddi3, Regs, align, subtract, reduce, reduce_aligned, finish, udivmoddi4,
}

-- The state of the second loop with `k + 1` rounds left.
abbrev at : ℕ → ℕ → ℕ → ℕ → Regs
at n d m k = record { num = n; den = d * 2 ^ k; quot = m * 2 ^ suc k; qbit = 2 ^ k }

record Divided (n d : ℕ) (above : ℕ) (out : Option Regs) : Type 0 where
  q : ℕ
  r : Regs
  returned : out ≡ some r
  quotient : r.quot ≡ above + q
  product : q * d + r.num ≡ n
  small : r.num < d

-- One round, where the aligned divisor fits and where it does not.
subtract-at :
    (n d m k : ℕ)
    → d * 2 ^ suc k ≤ n
    → subtract (at n d m (suc k)) ≡ at (n - d * 2 ^ suc k) d (m * 2 + 1) k
unfolding subtract
subtract-at n d m k fits = ground (
  arith,
  bit_or_above (suc k) m,
  mul-pow-suc d k,
  mul-pow-suc m (suc k),
  mul-pow-suc m k,
  mul-pow-suc (m * 2 + 1) k,
  pow-suc 2 k,
)

skip-at : (n d m k : ℕ) → n < d * 2 ^ suc k → subtract (at n d m (suc k)) ≡ at n d (m * 2) k
unfolding subtract
skip-at n d m k less = ground (
  arith,
  mul-pow-suc d k,
  mul-pow-suc m (suc k),
  mul-pow-suc m k,
  mul-pow-suc (m * 2) k,
  pow-suc 2 k,
)

reduce-next :
    (rounds n d m k : ℕ) → reduce (suc rounds) (at n d m k) ≡ reduce rounds (subtract (at n d m k))
unfolding reduce
reduce-next rounds n d m k = rw (lt→ltb 0 (2 ^ k) (one-le-pow k 2 (omega arith)))

reduce-Divided :
    (rounds n d m k : ℕ)
    → suc k < rounds
    → n < d * 2 ^ suc k
    → Divided n d (m * 2 ^ suc k) (reduce rounds (at n d m k))
unfolding reduce subtract
reduce-Divided zero n d m k h small = absurd (omega arith)
reduce-Divided (suc zero) n d m k h small = absurd (omega arith)
reduce-Divided (suc (suc rounds)) n d m zero h small = elim (Bool-cases (leb (d * 2 ^ 0) n)) [
  | inl fits ↦ record {
    q = 1;
    r = record { num = n - d; den = d / 2; quot = m * 2 + 1; qbit = 0 };
    returned = ground (arith, bit_or_above 0 m);
    quotient = refl;
    product = ground arith;
    small = ground arith;
  }
  | inr less ↦ record {
    q = 0;
    r = record { num = n; den = d / 2; quot = m * 2; qbit = 0 };
    returned = ground arith;
    quotient = omega arith;
    product = omega arith;
    small = ground arith;
  }
]
reduce-Divided (suc rounds) n d m (suc k) h small = elim (Bool-cases (leb (d * 2 ^ suc k) n)) [
  | inl fits ↦
      let rest =
        reduce-Divided rounds (n - d * 2 ^ suc k) d (m * 2 + 1) k (omega arith)
          (ground (arith, mul-pow-suc d (suc k))) in
      record {
        q = 2 ^ suc k + rest.q;
        r = rest.r;
        returned = rw (reduce-next, subtract-at n d m k (leb→le _ _ fits)) rest.returned;
        quotient = omega (arith, rest.quotient, mul-pow-suc m (suc k));
        product = omega (arith, rest.product, leb→le _ _ fits);
        small = rest.small;
      }
  | inr less ↦
      let rest = reduce-Divided rounds n d (m * 2) k (omega arith) (ground arith) in
      record {
        q = rest.q;
        r = rest.r;
        returned = rw (reduce-next, skip-at n d m k (ground arith)) rest.returned;
        quotient = omega (arith, rest.quotient, mul-pow-suc m (suc k));
        product = rest.product;
        small = rest.small;
      }
]

-- The state after `j` rounds of the first loop.
abbrev shifted : ℕ → ℕ → ℕ → Regs
shifted n d j = record { num = n; den = d * 2 ^ j; quot = 0; qbit = 2 ^ j }

-- A round of the first loop does not wrap.
doubled-shifted :
    (n d j : ℕ)
    → 2 ^ j ≤ d * 2 ^ j
    → d * 2 ^ j < 2 ^ 63
    → record (shifted n d j) { den = u64 (d * 2 ^ j * 2); qbit = u64 (2 ^ j * 2) }
      ≡ shifted n d (suc j)
doubled-shifted n d j low high = ground (arith, mul-pow-suc d j, mul-pow-suc 1 j)

-- Where the first loop stops: the divisor is aligned, with the dividend below twice of it.
record Aligned (n d : ℕ) (out : Option Regs) : Type 0 where
  j : ℕ
  bound : j ≤ 63
  returned : out ≡ some (shifted n d j)
  below : n < d * 2 ^ suc j

align-Aligned :
    (rounds n d j : ℕ)
    → 0 < d
    → n < 2 ^ 64
    → j + rounds ≡ 64
    → 2 ^ j ≤ d * 2 ^ j
    → d * 2 ^ j < 2 ^ 64
    → Aligned n d (align rounds (shifted n d j))
unfolding align
align-Aligned zero n d j pos hn e low high =
    absurd (omega (arith, ap (λ (t : ℕ). 2 ^ t) sixty_four))
  where
    sixty_four : j ≡ 64
    sixty_four = omega arith
align-Aligned (suc rounds) n d j pos hn e low high =
    elim (Bool-cases (ltb (d * 2 ^ j) (2 ^ 63) && leb (d * 2 ^ j) n)) [
      | inl more ↦
          let again =
            align-Aligned rounds n d (suc j) pos hn (omega arith)
              (omega (arith, mul-pow-suc d j, mul-pow-suc 1 j)) (ground (arith, mul-pow-suc d j)) in
          record {
            j = again.j;
            bound = again.bound;
            returned = rw (more, doubled-shifted n d j low (ground arith)) again.returned;
            below = again.below;
          }
      | inr stop ↦ record {
        j = j;
        bound = omega arith;
        returned = rw stop;
        below = ground (arith, mul-pow-suc d j);
      }
    ]

-- A product with a remainder below the divisor determines both.
quot-rem_unique : (n d q r : ℕ) → q * d + r ≡ n → r < d → (n / d ≡ q) × (n % d ≡ r)
quot-rem_unique n d q r e small =
    let div : n / d ≡ q = div-eq_of_lt-le d (omega arith) (omega arith) in
    (div, omega (arith, mod-eq-sub-div-mul n d, ap (λ (t : ℕ). t * d) div))

finish-Divided :
    (n d : ℕ) (out : Option Regs)
    → Divided n d 0 out
    → finish out ≡ some (record { quot = n / d; rem = n % d })
unfolding finish
finish-Divided n d out w =
    let unique = quot-rem_unique n d w.q w.r.num w.product w.small in
    rw (w.returned, w.quotient) (ground (arith, unique))

reduce_aligned-Divided :
    (n d : ℕ) (out : Option Regs) → Aligned n d out → Divided n d 0 (reduce_aligned out)
unfolding reduce_aligned
reduce_aligned-Divided n d out w = rw w.returned (
    subst (λ above. Divided n d above (reduce 65 (record (shifted n d w.j) { quot = above })))
      (zero-mul (2 ^ suc w.j)) (reduce-Divided 65 n d 0 w.j (omega (arith, w.bound)) w.below))

-- For a non-zero divisor `__udivmoddi4` returns, within the rounds given to its loops, the quotient
-- and the remainder of any two 64-bit numbers.
pub udivmoddi4_correct :
    (n d : ℕ)
    → n < 2 ^ 64
    → d < 2 ^ 64
    → 0 < d
    → udivmoddi4 n d ≡ some (record { quot = n / d; rem = n % d })
unfolding udivmoddi4
udivmoddi4_correct n d hn hd pos =
    rw (zero_iff, start)
      (finish-Divided n d _ (
        reduce_aligned-Divided n d _
          (align-Aligned 64 n d 0 pos hn refl (omega arith) (omega arith))))
  where
    zero_iff : (d == 0) ≡ false
    zero_iff = ground arith

    start : record { num = n; den = d; quot = 0; qbit = 1 } ≡ shifted n d 0
    start = ground arith

-- For a non-zero divisor `__udivdi3` and `__umoddi3` return the quotient and the remainder of any two
-- 64-bit numbers.
pub udivdi3-umoddi3 :
    (n d : ℕ)
    → n < 2 ^ 64
    → d < 2 ^ 64
    → 0 < d
    → (udivdi3 n d ≡ some (n / d)) × (umoddi3 n d ≡ some (n % d))
unfolding udivdi3 umoddi3
udivdi3-umoddi3 n d hn hd pos = rw (udivmoddi4_correct n d hn hd pos) (refl, refl)
