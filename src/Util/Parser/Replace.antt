-- ===== src/Util/Parser/Replace.antt =====
-- str_replace on lists: the first occurrence is replaced, within the size of the destination.
use avr_kernel.Base.{
  ℕ, ◌+◌, ◌^◌, ◌<◌, ◌≤◌, ◌≡◌, ◌≢◌, refl, ◌∙◌, arith, ◌⊎◌, inl, inr, false, Option, some, List, [],
  ◌∷◌, ◌++◌, length, length-append, ◌==◌, leb, add32, sub32, Bool-cases,
}
use avr_kernel.Util.Text.{
  IsText, Letters, Letters-moved, IsText-moved, IsText-Letters, IsText-join, IsText-front,
  IsText-drop,
}
use avr_kernel.Util.Strings.Search.{strlen-text, strstr-IsFirst}
use avr_kernel.Util.Copy.{Bytes, memcpy, memmove}
use avr_kernel.Util.Copy.Move.{memmove-IsCopied, memcpy-IsCopied}
use avr_kernel.Util.Copy.Append.{Apart}
use avr_kernel.Util.Parser.{str_replace, replace_at, minus_one, minus_two}

-- Nothing outside the buffer is written.
abbrev pub Within : (dest size : ℕ) → Bytes → Bytes → Type 0
Within dest size m m' = (x : ℕ) → (x < dest) ⊎ (dest + size ≤ x) → m' x ≡ m x

replaced :
    (x f r y : List ℕ) (dest rep size : ℕ) (m : Bytes)
    → IsText m dest (x ++ (f ++ y))
    → Letters m rep r
    → length x + length r + length y < size
    → Apart dest size rep (length r)
    → let found = dest + length x in
      let moved = (memmove (found + length r) (found + length f) (length y + 1) m).1 in
      let m' = (memcpy found rep (length r) moved).1 in
      IsText m' dest (x ++ (r ++ y)) × Within dest size m m'
replaced x f r y dest rep size m h hr lt apart =
    let found = dest + length x in
    let m1 = (memmove (found + length r) (found + length f) (length y + 1) m).1 in
    let m2 = (memcpy found rep (length r) m1).1 in
    let c1 = memmove-IsCopied (found + length r) (found + length f) (length y + 1) m in
    let c2 = memcpy-IsCopied found rep (length r) m1 (ground (arith, apart)) in
    let tail = IsText-drop m found f y (IsText-drop m dest x (f ++ y) h) in
    let first : Letters m2 dest x =
      Letters-moved m m2 dest dest x
        (λ i l. c2.1 (dest + i) (inl (omega arith)) ∙ c1.1 (dest + i) (inl (omega arith)))
        (IsText-front m dest x (f ++ y) h) in
    let second : Letters m2 found r =
      Letters-moved m m2 rep found r (λ i l. c2.0 i l ∙ c1.1 (rep + i) (ground (arith, apart, l)))
        hr in
    let third : IsText m2 (found + length r) y =
      IsText-moved m m2 (found + length f) (found + length r) y
        (λ i l. c2.1 (found + length r + i) (inr (omega arith)) ∙ c1.0 i l) tail in
    (
      IsText-join m2 dest x (r ++ y) first (IsText-join m2 found r y second third),
      λ k out. c2.1 k (ground (arith, out)) ∙ c1.1 k (ground (arith, out)),
    )

-- What str_replace answers and leaves, for a destination `d`, a text `f` to find and its replacement.
abbrev pub IsReplaced : (d f r : List ℕ) (dest size : ℕ) → Bytes → Option (ℕ × Bytes) → Type 0
IsReplaced d f r dest size m result =
    ((result ≡ some (minus_one, m)) × ((x y : List ℕ) → d ≢ x ++ (f ++ y)))
    ⊎ ((x y : List ℕ) × (d ≡ x ++ (f ++ y))
        × ((x' y' : List ℕ) → d ≡ x' ++ (f ++ y') → length x ≤ length x')
        × (((size ≤ length (x ++ (r ++ y))) × (result ≡ some (minus_two, m)))
            ⊎ ((length (x ++ (r ++ y)) < size)
                × ((m' : Bytes) × (result ≡ some (0, m'))
                    × IsText m' dest (x ++ (r ++ y))
                    × Within dest size m m'))))

module _ (f r : List ℕ) (rounds dest find rep size : ℕ) (m : Bytes) (hf : IsText m find f)
    (hr : IsText m rep r) (lf : length f < rounds) (lr : length r < rounds)
    (small : length r < 2 ^ 30) (apart : Apart dest size rep (length r)) where
  replace_at-split :
      (x y : List ℕ)
      → IsText m dest (x ++ (f ++ y))
      → length (x ++ (f ++ y)) < rounds
      → length (x ++ (f ++ y)) < 2 ^ 30
      → let result = replace_at rounds dest find rep size (dest + length x) m in
        ((size ≤ length (x ++ (r ++ y))) × (result ≡ some (minus_two, m)))
        ⊎ ((length (x ++ (r ++ y)) < size)
            × ((m' : Bytes) × (result ≡ some (0, m'))
                × IsText m' dest (x ++ (r ++ y))
                × Within dest size m m'))
  unfolding replace_at
  replace_at-split x y h ld short =
      let n = length x + length f + length y in
      let len : length (x ++ (f ++ y)) ≡ n =
        omega (arith, length-append x (f ++ y), length-append f y) in
      let len' : length (x ++ (r ++ y)) ≡ length x + length r + length y =
        omega (arith, length-append x (r ++ y), length-append r y) in
      let room : add32 (sub32 (length (x ++ (f ++ y))) (length f)) (length r)
          ≡ length (x ++ (r ++ y)) =
        omega (arith, len, len', short, small) in
      let tail : IsText m (dest + length x + length f) y =
        IsText-drop m (dest + length x) f y (IsText-drop m dest x (f ++ y) h) in
      let dest_len = strlen-text (x ++ (f ++ y)) rounds dest m h ld in
      let find_len = strlen-text f rounds find m hf lf in
      let replace_len = strlen-text r rounds rep m hr lr in
      elim (Bool-cases (leb size (length (x ++ (r ++ y))))) [
        | inl b ↦ inl (ground (arith, b), rw (dest_len, find_len, replace_len, room, b) refl)
        | inr b ↦
            let fits : length (x ++ (r ++ y)) < size = ground (arith, b) in
            let done =
              replaced x f r y dest rep size m h (IsText-Letters m rep r hr)
                (omega (arith, fits, len')) apart in
            inr (
              fits,
              (
                _,
                rw
                    (
                      dest_len,
                      find_len,
                      replace_len,
                      room,
                      b,
                      strlen-text y rounds (dest + length x + length f) m tail
                          (omega (arith, len, ld)),
                    )
                    refl,
                done.0,
                done.1,
              ),
            )
      ]

-- str_replace replaces the first occurrence: on zero-terminated texts, none of them NULL, the text to
-- find not empty, the replacement outside the `max_size` bytes of the destination, texts shorter than
-- the rounds and than 2 ^ 30, and `max_size` between 1 and 2 ^ 31 - 1, it ends. It answers -1 and
-- changes nothing when the text occurs nowhere. Else the destination splits at the first occurrence:
-- when the replaced text and its terminator would not fit into `max_size` bytes, it answers -2 and
-- changes nothing; when they fit, it answers 0, the destination has the replacement in the place of
-- that occurrence, and nothing outside the `max_size` bytes is written.
pub str_replace-IsReplaced :
    (d f r : List ℕ) (rounds dest find rep size : ℕ) (m : Bytes)
    → IsText m dest d
    → IsText m find f
    → IsText m rep r
    → (0 < dest) × (0 < find) × (0 < rep)
    → f ≢ []
    → (length d < rounds) × (length f < rounds) × (length r < rounds)
    → (length d < 2 ^ 30) × (length r < 2 ^ 30)
    → (0 < size) × (size < 2 ^ 31)
    → Apart dest size rep (length r)
    → IsReplaced d f r dest size m (str_replace rounds dest find rep size m)
unfolding str_replace
str_replace-IsReplaced d [] r rounds dest find rep size m hd hf hr set ne lens short sizes apart =
    absurd (ne refl)
str_replace-IsReplaced d (c ∷ f) r rounds dest find rep size m hd hf hr set ne lens short sizes
      apart =
    let s = strstr-IsFirst d (c ∷ f) rounds dest find m hd hf lens.0 in
    let b0 : (dest == 0) ≡ false = ground (arith, set.0) in
    let b1 : (find == 0) ≡ false = ground (arith, set.1) in
    let b2 : (rep == 0) ≡ false = ground (arith, set.2) in
    let b3 : (size == 0) ≡ false = ground (arith, sizes.0) in
    let b4 : leb (2 ^ 31) size ≡ false = ground (arith, sizes.1) in
    let b5 : (m find == 0) ≡ false = ground (arith, hf.0, hf.1) in
    rw (b0, b1, b2, b3, b4, b5, s.1)
      (elim s.2 [
        | inl (zero_at, absent) ↦ rw zero_at (inl (refl, absent))
        | inr (x, y, e, at, least) ↦
            let there : (dest + length x == 0) ≡ false = ground (arith, set.0) in
            rw (at, there)
              (inr (
                x,
                y,
                e,
                least,
                replace_at-split (c ∷ f) r rounds dest find rep size m hf hr lens.1 lens.2 short.1
                    apart x y (rw e at hd) (rw e at lens.0) (rw e at short.0),
              ))
      ])
