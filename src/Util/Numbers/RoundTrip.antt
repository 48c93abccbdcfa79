-- ===== src/Util/Numbers/RoundTrip.antt =====
-- stou and stoi read back what utos and itos write.
use avr_kernel.Base.{
  ℕ, zero, suc, ◌+◌, ◌-◌, ◌*◌, ◌^◌, ◌<◌, ◌≤◌, ◌≡◌, refl, ap, ◌∙◌, arith, ◌⊎◌, inl, inr, true, false,
  some, List, [], ◌∷◌, length, ◌==◌, leb, u32, sub32, upd, Bool-cases,
}
use avr_kernel.Util.Text.{IsText}
use avr_kernel.Util.Copy.{Bytes}
use avr_kernel.Util.Numbers.{utos, itos, skip_spaces, read_digits, stou, stoi, is_digit, is_space}
use avr_kernel.Util.Numbers.Decimal.{
  AreDigits, decimal, decimal-AreDigits, length-decimal, utos-IsWritten, value, decimal-value,
}

pub read_digits-value :
    (s : List ℕ) (rounds a r : ℕ) (m : Bytes)
    → IsText m a s
    → AreDigits s
    → length s < rounds
    → read_digits rounds a (u32 r) m ≡ some (u32 (value r s))
unfolding read_digits
read_digits-value s zero a r m t d lt = absurd (omega arith)
read_digits-value [] (suc rounds) a r m t d lt = ground (arith, t)
read_digits-value (c ∷ s) (suc rounds) a r m t d lt =
    let step : u32 (u32 r * 10 + (m a - 48)) ≡ u32 (r * 10 + (c - 48)) = omega (arith, t.0) in
    let digit : is_digit (m a) ≡ true = ground (arith, t.0, d.0, d.1) in
    rw (digit, step)
      (read_digits-value s rounds (a + 1) (r * 10 + (c - 48)) m t.2 d.2 (omega arith))

-- A text of digits begins with no space and no sign.
text_head : (s : List ℕ) (a : ℕ) (m : Bytes) → IsText m a s → AreDigits s → (m a ≡ 0) ⊎ (48 ≤ m a)
text_head [] a m t d = inl t
text_head (c ∷ s) a m t d = inr (omega (arith, t.0, d.0))

skip_spaces-stays :
    (rounds a : ℕ) (m : Bytes)
    → is_space (m a) ≡ false
    → 0 < rounds
    → skip_spaces rounds a m ≡ some a
unfolding skip_spaces
skip_spaces-stays zero a m h lt = absurd (omega arith)
skip_spaces-stays (suc rounds) a m h lt = rw h refl

pub stou-value :
    (s : List ℕ) (rounds a : ℕ) (m : Bytes)
    → IsText m a s
    → AreDigits s
    → length s < rounds
    → stou rounds a m ≡ some (u32 (value 0 s))
unfolding stou
stou-value s rounds a m t d lt =
    let h = text_head s a m t d in
    let plus : (m a == 43) ≡ false = ground (arith, h) in
    rw (skip_spaces-stays rounds a m (ground (arith, h)) (omega arith), plus)
      (read_digits-value s rounds a 0 m t d lt)

stoi-value :
    (s : List ℕ) (rounds a : ℕ) (m : Bytes)
    → IsText m a s
    → AreDigits s
    → length s < rounds
    → stoi rounds a m ≡ some (u32 (value 0 s))
unfolding stoi
stoi-value s rounds a m t d lt =
    let h = text_head s a m t d in
    let plus : (m a == 43) ≡ false = ground (arith, h) in
    let minus : (m a == 45) ≡ false = ground (arith, h) in
    rw
      (
        skip_spaces-stays rounds a m (ground (arith, h)) (omega arith),
        plus,
        minus,
        read_digits-value s rounds a 0 m t d lt,
      )
      refl

stoi-negative :
    (s : List ℕ) (rounds a : ℕ) (m : Bytes)
    → m a ≡ 45
    → IsText m (a + 1) s
    → AreDigits s
    → length s < rounds
    → stoi rounds a m ≡ some (sub32 0 (u32 (value 0 s)))
unfolding stoi
stoi-negative s rounds a m h t d lt =
    let plus : (m a == 43) ≡ false = ground (arith, h) in
    let minus : (m a == 45) ≡ true = ground (arith, h) in
    rw
      (
        skip_spaces-stays rounds a m (ground (arith, h)) (omega arith),
        plus,
        minus,
        read_digits-value s rounds (a + 1) 0 m t d lt,
      )
      refl

-- A number survives the way through a text: for every 32-bit `v`, utos ends, it writes no byte but
-- the eleven from the destination on, and stou reads `v` back, with twelve rounds or more.
pub stou-utos :
    (v dest rounds : ℕ) (m : Bytes)
    → v < 2 ^ 32
    → 12 ≤ rounds
    → (m' : Bytes) × (utos v dest m ≡ some m')
      × (stou rounds dest m' ≡ some v)
      × ((x : ℕ) → (x < dest) ⊎ (dest + 11 ≤ x) → m' x ≡ m x)
stou-utos v dest rounds m lt le =
    let r = utos-IsWritten v dest m lt in
    let len = length-decimal v in
    (
      r.0,
      r.1,
      stou-value (decimal v) rounds dest r.0 r.2.0 (decimal-AreDigits v) (omega (arith, len))
          ∙ ap (λ (k : ℕ). some k) (omega (arith, decimal-value v lt)),
      λ x out. r.2.1 x (ground (arith, out, len)),
    )

-- An int survives the way through a text: for the bit pattern `v` of every int32_t, INT32_MIN
-- included, itos ends, it writes no byte but the twelve from the destination on, and stoi reads `v`
-- back, with twelve rounds or more.
pub stoi-itos :
    (v dest rounds : ℕ) (m : Bytes)
    → v < 2 ^ 32
    → 12 ≤ rounds
    → (m' : Bytes) × (itos v dest m ≡ some m')
      × (stoi rounds dest m' ≡ some v)
      × ((x : ℕ) → (x < dest) ⊎ (dest + 12 ≤ x) → m' x ≡ m x)
unfolding itos
stoi-itos v dest rounds m lt le = elim (Bool-cases (leb (2 ^ 31) v)) [
  | inl e ↦
      let big : 2 ^ 31 ≤ v = ground (arith, e) in
      let mag = sub32 0 v in
      let small : mag < 2 ^ 32 = omega arith in
      let m1 = upd m dest 45 in
      let r = utos-IsWritten mag (dest + 1) m1 small in
      let len = length-decimal mag in
      let sign : r.0 dest ≡ 45 = r.2.1 dest (inl (omega arith)) ∙ ground arith in
      (
        r.0,
        rw e r.1,
        stoi-negative (decimal mag) rounds dest r.0 sign r.2.0 (decimal-AreDigits mag)
              (omega (arith, len))
            ∙ ap (λ (k : ℕ). some k) (omega (arith, decimal-value mag small, big)),
        λ x out. r.2.1 x (ground (arith, out, len)) ∙ ground (arith, out),
      )
  | inr e ↦
      let r = utos-IsWritten v dest m lt in
      let len = length-decimal v in
      (
        r.0,
        rw e r.1,
        stoi-value (decimal v) rounds dest r.0 r.2.0 (decimal-AreDigits v) (omega (arith, len))
            ∙ ap (λ (k : ℕ). some k) (omega (arith, decimal-value v lt)),
        λ x out. r.2.1 x (ground (arith, out, len)),
      )
]
