-- ===== src/Util/Math/Root.antt =====
-- isqrt is the integer square root.
use Prim.Native.Nat.{◌<◌}
use native.Mathlib.Nat.{pow-suc, one-le-pow}
use avr_kernel.Base.{
  ℕ, zero, suc, ◌+◌, ◌-◌, ◌*◌, ◌/◌, ◌^◌, ◌≤◌, ◌≡◌, refl, ap, arith, ◌⊎◌, inl, inr, true, false,
  some, ltb, leb, ◌!=◌, Bool-cases,
}
use avr_kernel.Util.Math.{lower_bit, root_loop, isqrt}

-- `r` is the root of `n`, rounded down.
abbrev pub IsRoot : (n r : ℕ) → Type 0
IsRoot n r = (r * r ≤ n) × (n < (r + 1) * (r + 1))

-- The state of the loop at the bit 4 ^ k, p = 2 ^ k: the root found so far is `r`, `num` is what is left
-- of `n`, and the root lies below `r + 2 * p`.
abbrev Going : (n num res r p : ℕ) → Type 0
Going n num res r p = (res ≡ 2 * r * p) × (n ≡ num + r * r) × (n < (r + 2 * p) * (r + 2 * p))

Going-take :
    (p n num res r : ℕ)
    → Going n num res r (2 * p)
    → res + 4 * (p * p) ≤ num
    → Going n (num - (res + 4 * (p * p))) (res / 2 + 4 * (p * p)) (r + 2 * p) p
Going-take p n num res r h le =
    (omega (arith, h.0), omega (arith, h.0, h.1, le), omega (arith, h.2))

Going-skip :
    (p n num res r : ℕ)
    → Going n num res r (2 * p)
    → num < res + 4 * (p * p)
    → Going n num (res / 2) r p
Going-skip p n num res r h lt = (omega (arith, h.0), h.1, omega (arith, h.0, h.1, lt))

four-pow : (k : ℕ) → 4 ^ k ≡ 2 ^ k * 2 ^ k
four-pow zero = refl
four-pow (suc k) =
    omega (arith, four-pow k, pow-suc 4 k, pow-suc 2 k, ap (λ (x : ℕ). x * x) (pow-suc 2 k))

root_loop-IsRoot :
    (k rounds n num res r : ℕ)
    → suc k < rounds
    → Going n num res r (2 ^ k)
    → (s : ℕ) × (root_loop rounds num res (4 ^ k) ≡ some s) × IsRoot n s
unfolding root_loop
root_loop-IsRoot zero zero n num res r lt h = absurd (omega arith)
root_loop-IsRoot zero (suc zero) n num res r lt h = absurd (omega arith)
root_loop-IsRoot zero (suc (suc rounds)) n num res r lt h = elim (Bool-cases (leb (res + 1) num)) [
  | inl e ↦
      let le : res + 1 ≤ num = ground (arith, e) in
      (
        r + 1,
        rw e (ap some (omega (arith, h.0))),
        (omega (arith, h.0, h.1, le), omega (arith, h.2)),
      )
  | inr e ↦
      let gt : num < res + 1 = ground (arith, e) in
      (r, rw e (ap some (omega (arith, h.0))), (omega (arith, h.1), omega (arith, h.0, h.1, gt)))
]
root_loop-IsRoot (suc k) zero n num res r lt h = absurd (omega arith)
root_loop-IsRoot (suc k) (suc rounds) n num res r lt h =
    let p = 2 ^ k in
    let bit : 4 ^ suc k ≡ 4 * (p * p) = omega (arith, pow-suc 4 k, four-pow k) in
    let next : 4 ^ suc k / 4 ≡ 4 ^ k = omega (arith, pow-suc 4 k) in
    let set : (4 ^ suc k != 0) ≡ true = ground (arith, one-le-pow (suc k) 4 (omega arith)) in
    let double : 2 ^ suc k ≡ 2 * p = omega (arith, pow-suc 2 k) in
    let h' : Going n num res r (2 * p) = rw double at h in
    elim (Bool-cases (leb (res + 4 ^ suc k) num)) [
      | inl e ↦
          let s =
            root_loop-IsRoot k rounds n (num - (res + 4 * (p * p))) (res / 2 + 4 * (p * p))
              (r + 2 * p) (omega arith) (Going-take p n num res r h' (ground (arith, e, bit))) in
          (s.0, rw (set, e, next, bit) s.1, s.2)
      | inr e ↦
          let s =
            root_loop-IsRoot k rounds n num (res / 2) r (omega arith)
              (Going-skip p n num res r h' (ground (arith, e, bit))) in
          (s.0, rw (set, e, next) s.1, s.2)
    ]

root_loop-zero : (rounds num res : ℕ) → 0 < rounds → root_loop rounds num res 0 ≡ some res
unfolding root_loop
root_loop-zero zero num res lt = absurd (omega arith)
root_loop-zero (suc rounds) num res lt = refl

-- The first loop ends at a power of 4, or below, such that the root lies below twice its root.
lower_bit-bound :
    (k rounds n : ℕ)
    → suc k < rounds
    → n < 4 * 4 ^ k
    → ((lower_bit rounds (4 ^ k) n ≡ some 0) × (n ≡ 0))
      ⊎ ((j : ℕ) × (j ≤ k) × (lower_bit rounds (4 ^ k) n ≡ some (4 ^ j)) × (n < 4 * 4 ^ j))
unfolding lower_bit
lower_bit-bound zero zero n lt small = absurd (omega arith)
lower_bit-bound zero (suc zero) n lt small = absurd (omega arith)
lower_bit-bound zero (suc (suc rounds)) n lt small = elim (Bool-cases (ltb n 1)) [
  | inl e ↦ let done : ltb n 0 ≡ false = ground arith in inl (rw (e, done) refl, ground (arith, e))
  | inr e ↦ inr (0, omega arith, rw e refl, small)
]
lower_bit-bound (suc k) zero n lt small = absurd (omega arith)
lower_bit-bound (suc k) (suc rounds) n lt small =
    let next : 4 ^ suc k / 4 ≡ 4 ^ k = omega (arith, pow-suc 4 k) in
    elim (Bool-cases (ltb n (4 ^ suc k))) [
      | inl e ↦ elim (lower_bit-bound k rounds n (omega arith) (ground (arith, e, pow-suc 4 k))) [
        | inl s ↦ inl (rw (e, next) s.0, s.1)
        | inr (j, le, s, b) ↦ inr (j, omega arith, rw (e, next) s, b)
      ]
      | inr e ↦ inr (suc k, omega arith, rw e refl, small)
    ]

-- isqrt is the integer square root: for every unsigned int, with eighteen rounds or more, it ends with
-- the greatest number whose square is not above the argument.
pub isqrt-IsRoot :
    (n rounds : ℕ) → n < 2 ^ 32 → 18 ≤ rounds → (s : ℕ) × (isqrt rounds n ≡ some s) × IsRoot n s
unfolding isqrt
isqrt-IsRoot n rounds lt le = elim (lower_bit-bound 15 rounds n (omega arith) (omega arith)) [
  | inl (s, z) ↦
      (0, rw s (root_loop-zero rounds n 0 (omega arith)), (omega arith, omega (arith, z)))
  | inr (j, short, s, b) ↦
      let r =
        root_loop-IsRoot j rounds n n 0 0 (omega arith)
          (omega arith, omega arith, omega (arith, b, four-pow j)) in
      (r.0, rw s r.1, r.2)
]
