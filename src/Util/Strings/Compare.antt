-- ===== src/Util/Strings/Compare.antt =====
-- The comparisons of string.c against the lexicographic order of lists.
use avr_kernel.Base.{
  ℕ, zero, suc, ◌+◌, ◌^◌, ◌<◌, ◌≤◌, ◌≡◌, ◌≢◌, refl, arith, some, List, [], ◌∷◌, length, ◌==◌, sub32,
  ◌↔◌, ◌⊎◌, Bool-cases, inl, inr,
}
use avr_kernel.Util.Text.{IsText}
use avr_kernel.Util.Strings.{strcmp}

-- The first list stands before the second in the dictionary.
abbrev pub Before : List ℕ → List ℕ → Type 0
Before [] [] = ⊥
Before [] (d ∷ t) = Unit
Before (c ∷ s) [] = ⊥
Before (c ∷ s) (d ∷ t) = (c < d) ⊎ ((c ≡ d) × Before s t)

-- The int with this bit pattern is 0 for equal lists, and negative for those in order.
abbrev pub IsOrder : List ℕ → List ℕ → ℕ → Type 0
IsOrder s t r = ((r ≡ 0) ↔ (s ≡ t)) × ((2 ^ 31 ≤ r) ↔ Before s t)

abbrev pub AreBytes : List ℕ → Type 0
AreBytes [] = Unit
AreBytes (c ∷ s) = (c < 256) × AreBytes s

-- strcmp orders texts: on zero-terminated texts of bytes, with more rounds than the first has
-- characters, it ends with an int that is 0 exactly when the texts are equal, and negative exactly
-- when the first stands before the second in the lexicographic order of unsigned bytes.
pub strcmp-IsOrder :
    (s t : List ℕ) (rounds a b : ℕ) (m : ℕ → ℕ)
    → IsText m a s
    → IsText m b t
    → AreBytes s
    → AreBytes t
    → length s < rounds
    → (r : ℕ) × (strcmp rounds a b m ≡ some r) × IsOrder s t r
unfolding strcmp
strcmp-IsOrder s t zero a b m p q hs ht lt = absurd (omega arith)
strcmp-IsOrder [] [] (suc rounds) a b m p q hs ht lt = (
  0,
  ground (arith, p, q),
  ((λ e. refl, λ e. refl), (λ e. absurd (omega arith), λ e. elim e [ ])),
)
strcmp-IsOrder [] (d ∷ t) (suc rounds) a b m p q hs ht lt = (
  sub32 0 d,
  ground (arith, p, q.0, q.1),
  (
    (λ e. absurd (omega (arith, e, q.1, ht.0)), λ e. cc e),
    (λ e. tt, λ e. omega (arith, q.1, ht.0)),
  ),
)
strcmp-IsOrder (c ∷ s) [] (suc rounds) a b m p q hs ht lt = (
  c,
  ground (arith, p.0, p.1, q, hs.0),
  (
    (λ e. absurd (omega (arith, p.1)), λ e. cc e),
    (λ e. absurd (omega (arith, hs.0)), λ e. elim e [ ]),
  ),
)
strcmp-IsOrder (c ∷ s) (d ∷ t) (suc rounds) a b m p q hs ht lt = elim (Bool-cases (c == d)) [
  | inl e ↦
      let r = strcmp-IsOrder s t rounds (a + 1) (b + 1) m p.2 q.2 hs.1 ht.1 (omega arith) in
      let same : c ≡ d = ground (arith, e) in
      (
        r.0,
        ground (arith, same, p.0, p.1, q.0, r.1),
        (
          (λ z. cc (same, r.2.0.0 z), λ z. r.2.0.1 (cc z)),
          (
            λ z. inr (same, r.2.1.0 z),
            λ z. elim z [ inl l ↦ absurd (omega (arith, l, same)) | inr l ↦ r.2.1.1 l.1 ],
          ),
        ),
      )
  | inr e ↦
      let differ : c ≢ d = ground (arith, e) in
      (
        sub32 c d,
        ground (arith, differ, p.0, p.1, q.0),
        (
          (λ z. absurd (omega (arith, z, differ, hs.0, ht.0)), λ z. absurd (differ (cc z))),
          (
            λ z. inl (omega (arith, z, differ, hs.0, ht.0)),
            λ z. elim z [ inl l ↦ omega (arith, l, hs.0, ht.0) | inr l ↦ absurd (differ l.0) ],
          ),
        ),
      )
]
