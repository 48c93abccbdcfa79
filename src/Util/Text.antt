-- ===== src/Util/Text.antt =====
-- Zero-terminated texts in memory, as lists of bytes.
use avr_kernel.Base.{
  ℕ, zero, suc, ◌+◌, ◌-◌, upd, ◌<◌, ◌≡◌, ◌≢◌, refl, ◌∙◌, ap, arith, List, [], ◌∷◌, ◌++◌, length,
  take,
}

-- At `a` stand the bytes of the list, none of them 0, and then a 0.
abbrev pub IsText : (ℕ → ℕ) → ℕ → List ℕ → Type 0
IsText m a [] = m a ≡ 0
IsText m a (c ∷ s) = (m a ≡ c) × (c ≢ 0) × IsText m (a + 1) s

-- At `a` stand the bytes of the list, none of them 0.
abbrev pub Letters : (ℕ → ℕ) → ℕ → List ℕ → Type 0
Letters m a [] = Unit
Letters m a (c ∷ s) = (m a ≡ c) × (c ≢ 0) × Letters m (a + 1) s

-- A text depends on its own bytes only, wherever they stand.
pub IsText-moved :
    (m m' : ℕ → ℕ) (a b : ℕ) (s : List ℕ)
    → ((i : ℕ) → i < length s + 1 → m' (b + i) ≡ m (a + i))
    → IsText m a s
    → IsText m' b s
IsText-moved m m' a b [] same t =
    ap m' (omega arith) ∙ same 0 (omega arith) ∙ ap m (omega arith) ∙ t
IsText-moved m m' a b (c ∷ s) same t = (
  ap m' (omega arith) ∙ same 0 (omega arith) ∙ ap m (omega arith) ∙ t.0,
  t.1,
  IsText-moved m m' (a + 1) (b + 1) s
      (λ i lt. ap m' (omega arith) ∙ same (i + 1) (omega arith) ∙ ap m (omega arith)) t.2,
)

pub Letters-moved :
    (m m' : ℕ → ℕ) (a b : ℕ) (s : List ℕ)
    → ((i : ℕ) → i < length s → m' (b + i) ≡ m (a + i))
    → Letters m a s
    → Letters m' b s
Letters-moved m m' a b [] same t = tt
Letters-moved m m' a b (c ∷ s) same t = (
  ap m' (omega arith) ∙ same 0 (omega arith) ∙ ap m (omega arith) ∙ t.0,
  t.1,
  Letters-moved m m' (a + 1) (b + 1) s
      (λ i lt. ap m' (omega arith) ∙ same (i + 1) (omega arith) ∙ ap m (omega arith)) t.2,
)

pub IsText-Letters : (m : ℕ → ℕ) (a : ℕ) (s : List ℕ) → IsText m a s → Letters m a s
IsText-Letters m a [] t = tt
IsText-Letters m a (c ∷ s) t = (t.0, t.1, IsText-Letters m (a + 1) s t.2)

pub IsText-end : (m : ℕ → ℕ) (a : ℕ) (s : List ℕ) → IsText m a s → m (a + length s) ≡ 0
IsText-end m a [] t = ap m (omega arith) ∙ t
IsText-end m a (c ∷ s) t = ap m (omega arith) ∙ IsText-end m (a + 1) s t.2

pub Letters-take : (m : ℕ → ℕ) (a k : ℕ) (s : List ℕ) → Letters m a s → Letters m a (take k s)
Letters-take m a zero s t = tt
Letters-take m a (suc k) [] t = tt
Letters-take m a (suc k) (c ∷ s) t = (t.0, t.1, Letters-take m (a + 1) k s t.2)

-- Letters and the text that follows them are one text.
pub IsText-join :
    (m : ℕ → ℕ) (a : ℕ) (s t : List ℕ)
    → Letters m a s
    → IsText m (a + length s) t
    → IsText m a (s ++ t)
IsText-join m a [] t l r = IsText-moved m m (a + 0) a t (λ i lt. ap m (omega arith)) r
IsText-join m a (c ∷ s) t l r = (
  l.0,
  l.1,
  IsText-join m (a + 1) s t l.2
      (IsText-moved m m (a + length (c ∷ s)) (a + 1 + length s) t (λ i lt. ap m (omega arith)) r),
)

pub Letters-join :
    (m : ℕ → ℕ) (a : ℕ) (s t : List ℕ)
    → Letters m a s
    → Letters m (a + length s) t
    → Letters m a (s ++ t)
Letters-join m a [] t l r = Letters-moved m m (a + 0) a t (λ i lt. ap m (omega arith)) r
Letters-join m a (c ∷ s) t l r = (
  l.0,
  l.1,
  Letters-join m (a + 1) s t l.2
      (Letters-moved m m (a + length (c ∷ s)) (a + 1 + length s) t (λ i lt. ap m (omega arith)) r),
)

-- Letters and the 0 that follows them are a text.
pub IsText-closed :
    (m : ℕ → ℕ) (a : ℕ) (s : List ℕ) → Letters m a s → m (a + length s) ≡ 0 → IsText m a s
IsText-closed m a [] l z = ap m (omega arith) ∙ z
IsText-closed m a (c ∷ s) l z = (l.0, l.1, IsText-closed m (a + 1) s l.2 (ap m (omega arith) ∙ z))

-- A text has one list.
pub IsText-unique : (m : ℕ → ℕ) (a : ℕ) (s t : List ℕ) → IsText m a s → IsText m a t → s ≡ t
IsText-unique m a [] [] p q = refl
IsText-unique m a [] (d ∷ t) p q = absurd (omega (arith, p, q))
IsText-unique m a (c ∷ s) [] p q = absurd (omega (arith, p, q))
IsText-unique m a (c ∷ s) (d ∷ t) p q =
    let same : c ≡ d = omega (arith, p, q) in cc (same, IsText-unique m (a + 1) s t p.2 q.2)

-- A byte in front of a text lengthens it.
pub IsText-push :
    (m : ℕ → ℕ) (dest e c d : ℕ) (t : List ℕ)
    → 0 < e
    → c ≡ d
    → d ≢ 0
    → IsText m (dest + e) t
    → IsText (upd m (dest + (e - 1)) c) (dest + (e - 1)) (d ∷ t)
IsText-push m dest e c d t lt same nz h = (
  ground (arith, same),
  nz,
  IsText-moved m (upd m (dest + (e - 1)) c) (dest + e) (dest + (e - 1) + 1) t
      (λ i l.
        ground arith ∙ ap m (let q : dest + (e - 1) + 1 + i ≡ dest + e + i = omega arith in q))
      h,
)

-- A text in two parts.
pub IsText-front : (m : ℕ → ℕ) (a : ℕ) (s t : List ℕ) → IsText m a (s ++ t) → Letters m a s
IsText-front m a [] t h = tt
IsText-front m a (c ∷ s) t h = (h.0, h.1, IsText-front m (a + 1) s t h.2)

pub IsText-drop :
    (m : ℕ → ℕ) (a : ℕ) (s t : List ℕ) → IsText m a (s ++ t) → IsText m (a + length s) t
IsText-drop m a [] t h = IsText-moved m m a (a + 0) t (λ i lt. ap m (omega arith)) h
IsText-drop m a (c ∷ s) t h =
    IsText-moved m m (a + 1 + length s) (a + suc (length s)) t (λ i lt. ap m (omega arith))
      (IsText-drop m (a + 1) s t h.2)

-- A memory with a text at `a`.
abbrev pub place : List ℕ → ℕ → (ℕ → ℕ) → ℕ → ℕ
place [] a m = upd m a 0
place (c ∷ s) a m = place s (a + 1) (upd m a c)
