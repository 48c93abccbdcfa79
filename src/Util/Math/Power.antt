-- ===== src/Util/Math/Power.antt =====
-- ipow is the power, cut off to 64 bits.
use native.Mathlib.Nat.{pow-zero, pow-suc, mul_comm, add-mul-mod_self_left}
use avr_kernel.Base.{
  ℕ, zero, suc, ◌+◌, ◌*◌, ◌/◌, ◌%◌, ◌^◌, ◌<◌, ◌≤◌, ◌≡◌, sym, ap, ◌∙◌, arith, inl, inr, true, false,
  some, if◌then◌else◌, ltb, leb, ◌==◌, ◌!=◌, u64, Bool-cases,
}
use avr_kernel.Util.Math.{power_loop, ipow}

u64-mul : (a b : ℕ) → u64 (u64 a * b) ≡ u64 (a * b)
u64-mul a b =
    let q = a / 2 ^ 64 in
    let split : a ≡ u64 a + 2 ^ 64 * q = omega arith in
    let e : a * b ≡ u64 a * b + 2 ^ 64 * (q * b) = ap (λ (x : ℕ). x * b) split ∙ omega arith in
    sym (ap u64 e ∙ add-mul-mod_self_left (u64 a * b) (2 ^ 64) (q * b))

u64-pow : (a n c : ℕ) → u64 (u64 a ^ n * c) ≡ u64 (a ^ n * c)
u64-pow a zero c = ap (λ (x : ℕ). u64 (x * c)) (pow-zero (u64 a) ∙ sym (pow-zero a))
u64-pow a (suc n) c =
    ap u64 (omega (arith, ap (λ (x : ℕ). x * c) (pow-suc (u64 a) n)))
    ∙ u64-pow a n (u64 a * c)
    ∙ ap u64 (let e : a ^ n * (u64 a * c) ≡ u64 a * (a ^ n * c) = omega arith in e)
    ∙ u64-mul a (a ^ n * c)
    ∙ ap u64 (omega (arith, ap (λ (x : ℕ). x * c) (pow-suc a n)))

pow-double : (b h : ℕ) → b ^ (h + h) ≡ (b * b) ^ h
pow-double b zero = pow-zero b ∙ sym (pow-zero (b * b))
pow-double b (suc h) =
    ap (λ (x : ℕ). b ^ x) (let e : suc h + suc h ≡ suc (suc (h + h)) = omega arith in e)
    ∙ omega (
      arith,
      pow-suc b (suc (h + h)),
      ap (λ (x : ℕ). x * b) (pow-suc b (h + h)),
      pow-suc (b * b) h,
      ap (λ (x : ℕ). x * (b * b)) (pow-double b h),
    )

-- The base that the loop goes on with has the same powers, as far as they are used.
base_step :
    (base h c : ℕ)
    → u64 ((if h != 0 then u64 (base * base) else base) ^ h * c) ≡ u64 ((base * base) ^ h * c)
base_step base zero c = ap (λ (x : ℕ). u64 (x * c)) (pow-zero base ∙ sym (pow-zero (base * base)))
base_step base (suc h) c =
    let set : (suc h != 0) ≡ true = ground arith in rw set (u64-pow (base * base) (suc h) c)

power_step :
    (res base e : ℕ)
    → let res' = if e % 2 == 1 then u64 (res * base) else res in
      let base' = if e / 2 != 0 then u64 (base * base) else base in
      u64 (res' * base' ^ (e / 2)) ≡ u64 (res * base ^ e)
power_step res base e =
    let h = e / 2 in
    let base' = if h != 0 then u64 (base * base) else base in
    elim (Bool-cases (e % 2 == 1)) [
      | inl o ↦
          let split : e ≡ suc (h + h) = ground (arith, o) in
          let pow : base ^ e ≡ (base * base) ^ h * base =
            ap (λ (x : ℕ). base ^ x) split
            ∙ pow-suc base (h + h)
            ∙ ap (λ (x : ℕ). x * base) (pow-double base h) in
          rw o (
            u64-mul (res * base) (base' ^ h)
            ∙ ap u64 (mul_comm (res * base) (base' ^ h))
            ∙ base_step base h (res * base)
            ∙ ap u64 (omega (arith, ap (λ (x : ℕ). res * x) pow)))
      | inr o ↦
          let split : e ≡ h + h = ground (arith, o) in
          let pow : base ^ e ≡ (base * base) ^ h =
            ap (λ (x : ℕ). base ^ x) split ∙ pow-double base h in
          rw o (
            ap u64 (mul_comm res (base' ^ h))
            ∙ base_step base h res
            ∙ ap u64 (omega (arith, ap (λ (x : ℕ). res * x) pow)))
    ]

power_loop-pow :
    (k rounds res base e : ℕ)
    → k < rounds
    → e < 2 ^ k
    → res < 2 ^ 64
    → power_loop rounds res base e ≡ some (u64 (res * base ^ e))
unfolding power_loop
power_loop-pow k zero res base e lt small fits = absurd (omega arith)
power_loop-pow zero (suc rounds) res base zero lt small fits =
    ap some (omega (arith, fits, ap (λ (x : ℕ). res * x) (pow-zero base)))
power_loop-pow zero (suc rounds) res base (suc e) lt small fits = absurd (omega arith)
power_loop-pow (suc k) (suc rounds) res base zero lt small fits =
    ap some (omega (arith, fits, ap (λ (x : ℕ). res * x) (pow-zero base)))
power_loop-pow (suc k) (suc rounds) res base (suc e) lt small fits =
    let res' = if suc e % 2 == 1 then u64 (res * base) else res in
    let base' = if suc e / 2 != 0 then u64 (base * base) else base in
    let more : ltb 0 (suc e) ≡ true = ground arith in
    rw more (
      power_loop-pow k rounds res' base' (suc e / 2) (omega arith)
        (omega (arith, small, pow-suc 2 k)) (ground (arith, fits))
      ∙ ap some (power_step res base (suc e)))

-- ipow is the power: for an exponent that is not negative, with thirty-two rounds or more, it ends with
-- the power of the base, cut off to 64 bits.
pub ipow-pow :
    (base exp rounds : ℕ)
    → exp < 2 ^ 31
    → 32 ≤ rounds
    → ipow rounds base exp ≡ some (u64 (base ^ exp))
unfolding ipow
ipow-pow base exp rounds small le =
    let b : leb (2 ^ 31) exp ≡ false = ground arith in
    rw b (
      power_loop-pow 31 rounds 1 base exp (omega arith) small (omega arith)
      ∙ ap (λ (x : ℕ). some (u64 x)) (omega arith))
