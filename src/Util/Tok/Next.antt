-- ===== src/Util/Tok/Next.antt =====
-- The next token of a text.
use avr_kernel.Base.{
  ℕ, ◌+◌, ◌<◌, ◌≡◌, ◌≢◌, refl, sym, ap, ◌∙◌, arith, ◌⊎◌, inl, inr, true, false, some, List, [], ◌∷◌,
  ◌++◌, length, length-append, ◌==◌, ◌!=◌, if◌then◌else◌, upd, Bool-cases, Option-cases, ◌>>=◌,
}
use avr_kernel.Util.Text.{
  IsText, IsText-front, IsText-drop, IsText-moved, Letters-moved, IsText-closed,
}
use avr_kernel.Util.Copy.{Bytes}
use avr_kernel.Util.Strings.{span_end}
use avr_kernel.Util.Strings.Spans.{front, back, front-append-back, span_end-front}
use avr_kernel.Util.Tok.{Tokenizer, cstr_tok_next, strtok}

-- The text that is left for the next call, at `next`, or nothing when that is NULL.
abbrev pub IsLeft : Bytes → (next : ℕ) → List ℕ → Type 0
IsLeft m next [] = next ≡ 0
IsLeft m next (c ∷ s) = IsText m next s

-- What a call answers on the text `s` at `a`, once the delimiters at its front are passed over.
abbrev pub IsNext : (ds s : List ℕ) (a : ℕ) → Bytes → (token next : ℕ) → Bytes → Type 0
IsNext ds s a m token next m' =
    let t = back true ds s in
    ((t ≡ []) × (token ≡ 0) × (next ≡ 0) × (m' ≡ m))
    ⊎ ((t ≢ [])
        × (token ≡ a + length (front true ds s))
        × IsText m' token (front false ds t)
        × IsLeft m' next (back false ds t)
        × ((x : ℕ) → x ≢ token + length (front false ds t) → m' x ≡ m x))

-- A text with nothing in it, or with a first character.
text_start :
    (m : Bytes) (a : ℕ) (t : List ℕ)
    → IsText m a t
    → ((t ≡ []) × (m a ≡ 0)) ⊎ ((t ≢ []) × (m a ≢ 0))
text_start m a [] h = inl (refl, h)
text_start m a (c ∷ t) h = inr (λ e. cc e, ground (arith, h.0, h.1))

-- Cutting a text at the end of its front part.
cut :
    (w r : List ℕ) (a : ℕ) (m : Bytes)
    → IsText m a (w ++ r)
    → r ≢ []
    → IsText (upd m (a + length w) 0) a w × IsLeft (upd m (a + length w) 0) (a + length w + 1) r
cut w [] a m h ne = absurd (ne refl)
cut w (c ∷ r) a m h ne =
    let m' = upd m (a + length w) 0 in
    let tail = IsText-drop m a w (c ∷ r) h in
    (
      IsText-closed m' a w
          (Letters-moved m m' a a w (λ i lt. ground arith) (IsText-front m a w (c ∷ r) h))
          (ground arith),
      IsText-moved m m' (a + length w + 1) (a + length w + 1) r (λ i lt. ground arith) tail.2,
    )

uncut :
    (w r : List ℕ) (a : ℕ) (m : Bytes) → IsText m a (w ++ r) → r ≡ [] → IsText m a w × IsLeft m 0 r
uncut w [] a m h e = (IsText-closed m a w (IsText-front m a w [] h) (IsText-drop m a w [] h), refl)
uncut w (c ∷ r) a m h e = absurd (cc e)

-- strtok takes the next token: called with a text, or with NULL for the text that the last call left,
-- that is zero-terminated like the delimiters, with more rounds than both have characters together, it
-- ends. A text of delimiters only answers NULL, and nothing is left. Else the token begins behind the
-- delimiters at the front and is terminated where its characters end; the rest of the text behind the
-- delimiter there is left for the next call, or nothing when the text ends there; at most the byte
-- behind the token is written.
pub strtok-IsNext :
    (ds s : List ℕ) (rounds str delim last : ℕ) (m : Bytes)
    → 0 < (if str != 0 then str else last)
    → IsText m (if str != 0 then str else last) s
    → IsText m delim ds
    → length s + length ds < rounds
    → (token : ℕ) × (next : ℕ) × (m' : Bytes) × (strtok rounds str delim last m
        ≡ some (token, next, m'))
      × IsNext ds s (if str != 0 then str else last) m token next m'
unfolding strtok
strtok-IsNext ds s rounds str delim last m set h d lt =
    let a = if str != 0 then str else last in
    let f = front true ds s in
    let t = back true ds s in
    let whole = front-append-back true ds s in
    let len : length f + length t ≡ length s = sym (length-append f t) ∙ ap length whole in
    let token = a + length f in
    let ht : IsText m token t = IsText-drop m a f t (rw whole h) in
    let b0 : (a == 0) ≡ false = ground (arith, set) in
    let first = span_end-front true ds s rounds a delim m h d lt in
    elim (text_start m token t ht) [
      | inl (nil, z) ↦
          let b1 : (m token == 0) ≡ true = ground (arith, z) in
          (0, 0, m, rw (b0, first, b1) refl, inl (nil, refl, refl, refl))
      | inr (some_left, z) ↦
          let b1 : (m token == 0) ≡ false = ground (arith, z) in
          let w = front false ds t in
          let r = back false ds t in
          let hw : IsText m token (w ++ r) = rw (front-append-back false ds t) ht in
          let second =
            span_end-front false ds t rounds token delim m ht d (omega (arith, len, lt)) in
          elim (text_start m (token + length w) r (IsText-drop m token w r hw)) [
            | inl (nil, y) ↦
                let b2 : (m (token + length w) != 0) ≡ false = ground (arith, y) in
                let u = uncut w r token m hw nil in
                (
                  token,
                  0,
                  m,
                  rw (b0, first, b1, second, b2) refl,
                  inr (some_left, refl, u.0, u.1, λ x out. refl),
                )
            | inr (more, y) ↦
                let b2 : (m (token + length w) != 0) ≡ true = ground (arith, y) in
                let c = cut w r token m hw more in
                (
                  token,
                  token + length w + 1,
                  upd m (token + length w) 0,
                  rw (b0, first, b1, second, b2) refl,
                  inr (some_left, refl, c.0, c.1, λ x out. ground (arith, out)),
                )
          ]
    ]

-- The reentrant tokenizer is strtok with its state passed along.
pub cstr_tok_next-strtok :
    (rounds : ℕ) (t : Tokenizer) (m : Bytes)
    → cstr_tok_next rounds t m ≡ (do
      r ← strtok rounds 0 t.delim t.next_token m
      some (r.0, record t { next_token = r.1 }, r.2))
unfolding cstr_tok_next strtok
cstr_tok_next-strtok rounds t m = elim (Bool-cases (t.next_token == 0)) [
  | inl e ↦ rw e refl
  | inr e ↦ rw e (elim (Option-cases (span_end true rounds t.next_token t.delim m)) [
    | inl f ↦ rw f refl
    | inr (a, f) ↦ rw f (elim (Bool-cases (m a == 0)) [
      | inl g ↦ rw g refl
      | inr g ↦ rw g (elim (Option-cases (span_end false rounds a t.delim m)) [
        | inl h ↦ rw h refl
        | inr (b, h) ↦ rw h (elim (Bool-cases (m b != 0)) [ inl i ↦ rw i refl | inr i ↦ rw i refl ])
      ])
    ])
  ])
]
