-- ===== src/Util/Numbers/Commas.antt =====
-- stoi_commas reads back what itos_commas writes.
use avr_kernel.Base.{
  ℕ, zero, suc, ◌+◌, ◌-◌, ◌*◌, ◌/◌, ◌%◌, ◌^◌, ◌<◌, ◌≤◌, ◌≡◌, ◌≢◌, refl, ap, ◌∙◌, arith, ◌⊎◌, inl,
  inr, Bool, true, false, ◌&&◌, some, List, [], ◌∷◌, length, ◌==◌, if◌then◌else◌, ltb, u32, upd,
  Bool-cases,
}
use avr_kernel.Util.Text.{IsText, IsText-push, IsText-moved, Letters, IsText-Letters}
use avr_kernel.Util.Strings.Search.{strlen-text}
use avr_kernel.Util.Copy.{Bytes}
use avr_kernel.Util.Copy.Append.{Apart}
use avr_kernel.Util.Numbers.{put_commas, itos_commas, read_commas, stoi_commas, is_digit}
use avr_kernel.Util.Numbers.Decimal.{
  AreDigits, decimal, decimal-AreDigits, length-decimal, utos-IsWritten, value, decimal-value,
}

abbrev comma_at : ℕ → Bool
comma_at count = ltb 0 count && count % 3 == 0

-- What the loop puts in front of `t`, from the digits `g 0` to `g (n - 1)`.
abbrev grouped : (g : ℕ → ℕ) (n count : ℕ) → List ℕ → List ℕ
grouped g zero count t = t
grouped g (suc n) count t = grouped g n (count + 1) (g n ∷ (if comma_at count then 44 ∷ t else t))

length-grouped :
    (g : ℕ → ℕ) (n count : ℕ) (t : List ℕ)
    → length (grouped g n count t) ≡ length t + n + ((count + n - 1) / 3 - (count - 1) / 3)
length-grouped g zero count t = omega arith
length-grouped g (suc n) count t =
    ground (
      arith,
      length-grouped g n (count + 1) (g n ∷ 44 ∷ t),
      length-grouped g n (count + 1) (g n ∷ t),
    )

put_commas-grouped :
    (g : ℕ → ℕ) (n e count raw dest : ℕ) (m : Bytes) (t : List ℕ)
    → ((i : ℕ) → i < n → (m (raw + i) ≡ g i) × (g i ≢ 0))
    → e ≡ n + ((count + n - 1) / 3 - (count - 1) / 3)
    → Apart raw n dest e
    → IsText m (dest + e) t
    → IsText (put_commas n e count raw dest m) dest (grouped g n count t)
      × ((x : ℕ) → (x < dest) ⊎ (dest + e ≤ x) → put_commas n e count raw dest m x ≡ m x)
unfolding put_commas
put_commas-grouped g zero e count raw dest m t src size apart h =
    (IsText-moved m m (dest + e) dest t (λ i lt. ap m (omega (arith, size))) h, λ x out. refl)
put_commas-grouped g (suc n) e count raw dest m t src size apart h =
    let last = src n (omega arith) in
    elim (Bool-cases (comma_at count)) [
      | inl b ↦
          let m1 = upd m (dest + (e - 1)) 44 in
          let c = m1 (raw + n) in
          let same : c ≡ g n = ground (arith, last.0, size, apart, b) in
          let m2 = upd m1 (dest + (e - 1 - 1)) c in
          let t1 = IsText-push m dest e 44 44 t (omega (arith, size)) refl (omega arith) h in
          let t2 =
            IsText-push m1 dest (e - 1) c (g n) (44 ∷ t) (ground (arith, size, b)) same last.1 t1 in
          let r =
            put_commas-grouped g n (e - 1 - 1) (count + 1) raw dest m2 (g n ∷ 44 ∷ t)
              (λ i lt.
                let s = src i (omega arith) in (ground (arith, apart, size, lt, b, s.0), s.1))
              (ground (arith, size, b)) (ground (arith, apart)) t2 in
          rw b (r.0, λ (x : ℕ) out. r.1 x (ground (arith, out)) ∙ ground (arith, out, size, b))
      | inr b ↦
          let c = m (raw + n) in
          let m2 = upd m (dest + (e - 1)) c in
          let t2 = IsText-push m dest e c (g n) t (omega (arith, size)) last.0 last.1 h in
          let r =
            put_commas-grouped g n (e - 1) (count + 1) raw dest m2 (g n ∷ t)
              (λ i lt.
                let s = src i (omega arith) in (ground (arith, apart, size, lt, b, s.0), s.1))
              (ground (arith, size, b)) (ground (arith, apart)) t2 in
          rw b (r.0, λ (x : ℕ) out. r.1 x (ground (arith, out)) ∙ ground (arith, out, size, b))
    ]

-- The digits of a text.
abbrev strip : List ℕ → List ℕ
strip [] = []
strip (c ∷ s) = if is_digit c then c ∷ strip s else strip s

abbrev run : (g : ℕ → ℕ) (n : ℕ) → List ℕ → List ℕ
run g zero s = s
run g (suc n) s = run g n (g n ∷ s)

strip-grouped :
    (g : ℕ → ℕ) (n count : ℕ) (t : List ℕ)
    → ((i : ℕ) → i < n → is_digit (g i) ≡ true)
    → strip (grouped g n count t) ≡ run g n (strip t)
strip-grouped g zero count t h = refl
strip-grouped g (suc n) count t h =
    let d = h n (omega arith) in
    let r = λ (u : List ℕ). strip-grouped g n (count + 1) u (λ i lt. h i (omega arith)) in
    elim (Bool-cases (comma_at count)) [
      | inl b ↦ rw b (r (g n ∷ 44 ∷ t) ∙ rw d refl)
      | inr b ↦ rw b (r (g n ∷ t) ∙ rw d refl)
    ]

run_front :
    (m : Bytes) (a n : ℕ) (s : List ℕ)
    → run (λ i. m (a + i)) (suc n) s ≡ m a ∷ run (λ i. m (a + 1 + i)) n s
run_front m a zero s = ap (λ (k : ℕ). m k ∷ s) (omega arith)
run_front m a (suc n) s =
    run_front m a n (m (a + suc n) ∷ s)
    ∙ ap (λ (k : ℕ). m a ∷ run (λ i. m (a + 1 + i)) n (m k ∷ s)) (omega arith)

run-text : (m : Bytes) (a : ℕ) (s : List ℕ) → Letters m a s → run (λ i. m (a + i)) (length s) [] ≡ s
run-text m a [] h = refl
run-text m a (c ∷ s) h = run_front m a (length s) [] ∙ cc (h.0, run-text m (a + 1) s h.2)

digit_at :
    (m : Bytes) (a : ℕ) (s : List ℕ)
    → Letters m a s
    → AreDigits s
    → (i : ℕ) → i < length s
    → is_digit (m (a + i)) ≡ true
digit_at m a [] h d i lt = absurd (omega arith)
digit_at m a (c ∷ s) h d zero lt =
    let same : m (a + 0) ≡ c = ap m (omega arith) ∙ h.0 in ground (arith, same, d.0, d.1)
digit_at m a (c ∷ s) h d (suc i) lt =
    let same : a + suc i ≡ a + 1 + i = omega arith in
    ap (λ (k : ℕ). is_digit (m k)) same ∙ digit_at m (a + 1) s h.2 d.2 i (omega arith)

read_commas-value :
    (s : List ℕ) (rounds a r : ℕ) (m : Bytes)
    → IsText m a s
    → length s < rounds
    → read_commas rounds a (u32 r) m ≡ some (u32 (value r (strip s)))
unfolding read_commas
read_commas-value s zero a r m t lt = absurd (omega arith)
read_commas-value [] (suc rounds) a r m t lt = ground (arith, t)
read_commas-value (c ∷ s) (suc rounds) a r m t lt =
    let more : (m a == 0) ≡ false = ground (arith, t.0, t.1) in
    let step : u32 (u32 r * 10 + (c - 48)) ≡ u32 (r * 10 + (c - 48)) = omega arith in
    elim (Bool-cases (is_digit c)) [
      | inl b ↦
          let r' = read_commas-value s rounds (a + 1) (r * 10 + (c - 48)) m t.2 (omega arith) in
          rw (t.0, b, step) (ground (arith, t.1, r'))
      | inr b ↦
          let r' = read_commas-value s rounds (a + 1) r m t.2 (omega arith) in
          rw (t.0, b) (ground (arith, t.1, r'))
    ]

-- A number survives the way through a text with commas: for every 32-bit `v`, with the local buffer
-- apart from the destination, which is not NULL, itos_commas ends, it writes no byte but the fourteen
-- from the destination on and the eleven of its buffer, and stoi_commas reads `v` back, with fourteen
-- rounds or more.
stoi_commas-itos_commas :
    (v raw dest rounds : ℕ) (m : Bytes)
    → v < 2 ^ 32
    → Apart raw 11 dest 14
    → 0 < dest
    → 14 ≤ rounds
    → (m' : Bytes) × (itos_commas rounds raw v dest m ≡ some m')
      × (stoi_commas rounds dest m' ≡ some v)
      × ((x : ℕ) → (x < dest) ⊎ (dest + 14 ≤ x) → (x < raw) ⊎ (raw + 11 ≤ x) → m' x ≡ m x)
unfolding itos_commas stoi_commas
stoi_commas-itos_commas v raw dest rounds m lt apart set le =
    let r = utos-IsWritten v raw m lt in
    let s = decimal v in
    let n = length s in
    let len = length-decimal v in
    let e = n + (n - 1) / 3 in
    let m1 = upd r.0 (dest + e) 0 in
    let g : ℕ → ℕ = λ i. r.0 (raw + i) in
    let letters = IsText-Letters r.0 raw s r.2.0 in
    let digit = digit_at r.0 raw s letters (decimal-AreDigits v) in
    let p =
      put_commas-grouped g n e 0 raw dest m1 []
        (λ i h. (ground (arith, apart, len, h), ground (arith, digit i h))) (omega (arith, len))
        (ground (arith, apart, len)) (ground arith) in
    let t = grouped g n 0 [] in
    let size : length t < rounds = omega (arith, length-grouped g n 0 [], len, le) in
    let not_null : (dest == 0) ≡ false = ground (arith, set) in
    (
      put_commas n e 0 raw dest m1,
      rw (r.1, strlen-text s rounds raw r.0 r.2.0 (omega (arith, len, le))) refl,
      rw not_null (read_commas-value t rounds dest 0 (put_commas n e 0 raw dest m1) p.0 size)
          ∙ ap (λ (u : List ℕ). some (u32 (value 0 u)))
              (strip-grouped g n 0 [] digit ∙ run-text r.0 raw s letters)
          ∙ ap (λ (k : ℕ). some k) (omega (arith, decimal-value v lt, lt)),
      λ x out out2.
          p.1 x (ground (arith, out, len))
          ∙ ground (arith, out, out2, len, r.2.1 x (ground (arith, out2, len))),
    )
