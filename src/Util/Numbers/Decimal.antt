-- ===== src/Util/Numbers/Decimal.antt =====
-- The digits that the buffer takes, as a list with the highest digit first.
use avr_kernel.Base.{
  ℕ, zero, suc, ◌+◌, ◌-◌, ◌*◌, ◌/◌, ◌%◌, ◌^◌, ◌<◌, ◌≤◌, ◌≡◌, ◌≢◌, refl, ap, ◌∙◌, arith, ◌⊎◌, inl,
  inr, some, List, [], ◌∷◌, length, ◌==◌, if◌then◌else◌, upd, Bool-cases,
}
use avr_kernel.Util.Text.{IsText, IsText-moved}
use avr_kernel.Util.Copy.{Bytes}
use avr_kernel.Util.Numbers.{fill_buffer, put_reversed, decimal_digit, utos}

-- The digits of `v` before `s`.
abbrev pub numeral : (digit : ℕ → ℕ) (base rounds v : ℕ) → List ℕ → List ℕ
numeral digit base zero v s = s
numeral digit base (suc rounds) v s =
    if v / base == 0
    then digit (v % base) ∷ s
    else numeral digit base rounds (v / base) (digit (v % base) ∷ s)

-- The buffer has the list, its last byte first.
abbrev pub Stacked : Bytes → List ℕ → Type 0
Stacked b [] = Unit
Stacked b (c ∷ s) = (b (length s) ≡ c) × Stacked b s

upd-Stacked :
    (b : Bytes) (k v : ℕ) (s : List ℕ) → length s ≤ k → Stacked b s → Stacked (upd b k v) s
upd-Stacked b k v [] le h = tt
upd-Stacked b k v (c ∷ s) le h = (ground (arith, h.0), upd-Stacked b k v s (omega arith) h.1)

-- The digits fit into the rounds.
abbrev pub Fits : (base rounds v : ℕ) → Type 0
Fits base zero v = ⊥
Fits base (suc rounds) v = (v / base ≡ 0) ⊎ Fits base rounds (v / base)

pub fill_buffer-Stacked :
    (digit : ℕ → ℕ) (base rounds v : ℕ) (s : List ℕ) (b : Bytes)
    → Fits base rounds v
    → Stacked b s
    → (b' : Bytes) × (fill_buffer digit base rounds v (length s) b
        ≡ some (length (numeral digit base rounds v s), b'))
      × Stacked b' (numeral digit base rounds v s)
unfolding fill_buffer
fill_buffer-Stacked digit base zero v s b fits h = absurd fits
fill_buffer-Stacked digit base (suc rounds) v s b fits h =
    let c = digit (v % base) in
    let b1 = upd b (length s) c in
    let h1 : Stacked b1 (c ∷ s) = (ground arith, upd-Stacked b (length s) c s (omega arith) h) in
    let one : length s + 1 ≡ suc (length s) = omega arith in
    elim (Bool-cases (v / base == 0)) [
      | inl e ↦ (b1, rw (e, one) refl, rw e h1)
      | inr e ↦
          let r =
            fill_buffer-Stacked digit base rounds (v / base) (c ∷ s) b1 (ground (arith, fits, e))
              h1 in
          (r.0, rw (e, one) r.1, rw e r.2)
    ]

pub put_reversed-outside :
    (i d dest : ℕ) (b m : Bytes) (x : ℕ)
    → (x < dest + d) ⊎ (dest + d + i < x)
    → put_reversed i d dest b m x ≡ m x
unfolding put_reversed
put_reversed-outside zero d dest b m x out = ground (arith, out)
put_reversed-outside (suc i) d dest b m x out = ground (
  arith,
  out,
  put_reversed-outside i (d + 1) dest b (upd m (dest + d) (b i)) x (ground (arith, out)),
)

abbrev pub NonZero : List ℕ → Type 0
NonZero [] = Unit
NonZero (c ∷ s) = (c ≢ 0) × NonZero s

pub put_reversed-IsText :
    (s : List ℕ) (d dest : ℕ) (b m : Bytes)
    → Stacked b s
    → NonZero s
    → IsText (put_reversed (length s) d dest b m) (dest + d) s
unfolding put_reversed
put_reversed-IsText [] d dest b m h nz = ground arith
put_reversed-IsText (c ∷ s) d dest b m h nz =
    let m1 = upd m (dest + d) (b (length s)) in
    let m' = put_reversed (length s) (d + 1) dest b m1 in
    (
      put_reversed-outside (length s) (d + 1) dest b m1 (dest + d) (inl (omega arith))
          ∙ ground (arith, h.0),
      nz.0,
      IsText-moved m' m' (dest + (d + 1)) (dest + d + 1) s (λ i lt. ap m' (omega arith))
          (put_reversed-IsText s (d + 1) dest b m1 h.1 nz.1),
    )

abbrev pub AreDigits : List ℕ → Type 0
AreDigits [] = Unit
AreDigits (c ∷ s) = (48 ≤ c) × (c ≤ 57) × AreDigits s

pub AreDigits-NonZero : (s : List ℕ) → AreDigits s → NonZero s
AreDigits-NonZero [] h = tt
AreDigits-NonZero (c ∷ s) h = (ground (arith, h.0), AreDigits-NonZero s h.2)

abbrev pub decimal : ℕ → List ℕ
decimal v = numeral decimal_digit 10 10 v []

numeral-AreDigits :
    (rounds v : ℕ) (s : List ℕ) → AreDigits s → AreDigits (numeral decimal_digit 10 rounds v s)
numeral-AreDigits zero v s h = h
numeral-AreDigits (suc rounds) v s h =
    let h1 : AreDigits (decimal_digit (v % 10) ∷ s) = (omega arith, omega arith, h) in
    elim (Bool-cases (v / 10 == 0)) [
      | inl e ↦ rw e h1
      | inr e ↦ rw e (numeral-AreDigits rounds (v / 10) (decimal_digit (v % 10) ∷ s) h1)
    ]

pub decimal-AreDigits : (v : ℕ) → AreDigits (decimal v)
decimal-AreDigits v = numeral-AreDigits 10 v [] tt

length-numeral :
    (digit : ℕ → ℕ) (base rounds v : ℕ) (s : List ℕ)
    → length (numeral digit base rounds v s) ≤ length s + rounds
length-numeral digit base zero v s = omega arith
length-numeral digit base (suc rounds) v s = elim (Bool-cases (v / base == 0)) [
  | inl e ↦ rw e (omega arith)
  | inr e ↦ rw e (omega (arith, length-numeral digit base rounds (v / base) (digit (v % base) ∷ s)))
]

pub length-decimal : (v : ℕ) → length (decimal v) ≤ 10
length-decimal v = length-numeral decimal_digit 10 10 v []

decimal-Fits : (v : ℕ) → v < 2 ^ 32 → Fits 10 10 v
decimal-Fits v lt = inr (inr (inr (inr (inr (inr (inr (inr (inr (inl (omega arith))))))))))

-- The decimal text of the number, and nothing more, is written.
abbrev pub IsWritten : (dest : ℕ) (s : List ℕ) → Bytes → Bytes → Type 0
IsWritten dest s m m' =
    IsText m' dest s × ((x : ℕ) → (x < dest) ⊎ (dest + length s < x) → m' x ≡ m x)

pub utos-IsWritten :
    (v dest : ℕ) (m : Bytes)
    → v < 2 ^ 32
    → (m' : Bytes) × (utos v dest m ≡ some m') × IsWritten dest (decimal v) m m'
unfolding utos
utos-IsWritten v dest m lt =
    let r = fill_buffer-Stacked decimal_digit 10 10 v [] (λ i. 0) (decimal-Fits v lt) tt in
    let s = decimal v in
    let m' = put_reversed (length s) 0 dest r.0 m in
    (
      m',
      rw r.1 refl,
      (
        IsText-moved m' m' (dest + 0) dest s (λ i h. ap m' (omega arith))
            (put_reversed-IsText s 0 dest r.0 m r.2 (AreDigits-NonZero s (decimal-AreDigits v))),
        λ x out. put_reversed-outside (length s) 0 dest r.0 m x (ground (arith, out)),
      ),
    )

-- The number that a list of digits stands for, after what `r` stands for.
abbrev pub value : ℕ → List ℕ → ℕ
value r [] = r
value r (c ∷ s) = value (r * 10 + (c - 48)) s

numeral-value :
    (rounds v : ℕ) (s : List ℕ)
    → Fits 10 rounds v
    → value 0 (numeral decimal_digit 10 rounds v s) ≡ value v s
numeral-value zero v s fits = absurd fits
numeral-value (suc rounds) v s fits = elim (Bool-cases (v / 10 == 0)) [
  | inl e ↦ rw e (ap (λ (r : ℕ). value r s) (ground (arith, e)))
  | inr e ↦ rw e (
      numeral-value rounds (v / 10) (decimal_digit (v % 10) ∷ s) (ground (arith, fits, e))
      ∙ ap (λ (r : ℕ). value r s) (omega arith))
]

-- The decimal text stands for the number.
pub decimal-value : (v : ℕ) → v < 2 ^ 32 → value 0 (decimal v) ≡ v
decimal-value v lt = numeral-value 10 v [] (decimal-Fits v lt)
