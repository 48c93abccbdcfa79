-- ===== src/Util/Strings/Search.antt =====
-- Where the searches of string.c end: lengths, characters, and the first occurrence of a text.
use avr_kernel.Base.{
  ℕ, zero, suc, ◌+◌, ◌<◌, ◌≤◌, ◌≡◌, ◌≢◌, refl, ap, arith, ◌⊎◌, inl, inr, Bool, true, false, some,
  List, [], ◌∷◌, ◌++◌, length, ◌==◌, if◌then◌else◌, u8, Bool-cases,
}
use avr_kernel.Util.Text.{IsText}
use avr_kernel.Util.Strings.{
  find_end, strlen, find_end_within, strnlen, strrchr_from, strrchr, stands_at, strstr_from, strstr,
}

find_end-text :
    (s : List ℕ) (rounds a : ℕ) (m : ℕ → ℕ)
    → IsText m a s
    → length s < rounds
    → find_end rounds a m ≡ some (a + length s)
unfolding find_end
find_end-text s zero a m t lt = absurd (omega arith)
find_end-text [] (suc rounds) a m t lt = ground (arith, t)
find_end-text (c ∷ s) (suc rounds) a m t lt =
    ground (arith, t.0, t.1, find_end-text s rounds (a + 1) m t.2 (omega arith))

-- strlen answers the length of the text.
pub strlen-text :
    (s : List ℕ) (rounds a : ℕ) (m : ℕ → ℕ)
    → IsText m a s
    → length s < rounds
    → strlen rounds a m ≡ some (length s)
unfolding strlen
strlen-text s rounds a m t lt = rw (find_end-text s rounds a m t lt) (ap some (omega arith))

find_end_within-text :
    (s : List ℕ) (n a : ℕ) (m : ℕ → ℕ)
    → IsText m a s
    → length s < n
    → find_end_within n a m ≡ a + length s
unfolding find_end_within
find_end_within-text s zero a m t lt = absurd (omega arith)
find_end_within-text [] (suc n) a m t lt = ground (arith, t)
find_end_within-text (c ∷ s) (suc n) a m t lt =
    ground (arith, t.0, t.1, find_end_within-text s n (a + 1) m t.2 (omega arith))

pub strnlen-text :
    (s : List ℕ) (n a : ℕ) (m : ℕ → ℕ) → IsText m a s → length s < n → strnlen a n m ≡ length s
unfolding strnlen
strnlen-text s n a m t lt = omega (arith, find_end_within-text s n a m t lt)

-- The list begins with the other.
abbrev pub begins : List ℕ → List ℕ → Bool
begins [] t = true
begins (c ∷ p) [] = false
begins (c ∷ p) (d ∷ t) = if d == c then begins p t else false

pub stands_at-begins :
    (s p : List ℕ) (rounds h n : ℕ) (m : ℕ → ℕ)
    → IsText m h s
    → IsText m n p
    → length s < rounds
    → stands_at rounds h n m ≡ some (begins p s)
unfolding stands_at
stands_at-begins s p zero h n m hs hp lt = absurd (omega arith)
stands_at-begins [] [] (suc rounds) h n m hs hp lt = ground (arith, hs, hp)
stands_at-begins [] (c ∷ p) (suc rounds) h n m hs hp lt = ground (arith, hs, hp.0, hp.1)
stands_at-begins (d ∷ s) [] (suc rounds) h n m hs hp lt = ground (arith, hs.0, hs.1, hp)
stands_at-begins (d ∷ s) (c ∷ p) (suc rounds) h n m hs hp lt = ground (
  arith,
  hs.0,
  hs.1,
  hp.0,
  hp.1,
  stands_at-begins s p rounds (h + 1) (n + 1) m hs.2 hp.2 (omega arith),
)

-- The place of the first occurrence.
abbrev pub first_at : List ℕ → ℕ → List ℕ → ℕ
first_at p h [] = 0
first_at p h (d ∷ s) = if begins p (d ∷ s) then h else first_at p (h + 1) s

strstr_from-first :
    (s : List ℕ) (c : ℕ) (p : List ℕ) (rounds h n : ℕ) (m : ℕ → ℕ)
    → IsText m h s
    → IsText m n (c ∷ p)
    → length s < rounds
    → strstr_from rounds h n m ≡ some (first_at (c ∷ p) h s)
unfolding strstr_from
strstr_from-first s c p zero h n m hs hp lt = absurd (omega arith)
strstr_from-first [] c p (suc rounds) h n m hs hp lt = ground (arith, hs)
strstr_from-first (d ∷ s) c p (suc rounds) h n m hs hp lt = ground (
  arith,
  hs.0,
  hs.1,
  hp.0,
  strstr_from-first s c p rounds (h + 1) n m hs.2 hp (omega arith),
  stands_at-begins (d ∷ s) (c ∷ p) (suc rounds) h n m hs hp lt,
)

-- What the place says of the two texts.
abbrev pub IsFirst : (p s : List ℕ) (h r : ℕ) → Type 0
IsFirst p s h r =
    ((r ≡ 0) × ((x y : List ℕ) → s ≢ x ++ (p ++ y)))
    ⊎ ((x y : List ℕ) × (s ≡ x ++ (p ++ y))
        × (r ≡ h + length x)
        × ((x' y' : List ℕ) → s ≡ x' ++ (p ++ y') → length x ≤ length x'))

begins-append : (p y : List ℕ) → begins p (p ++ y) ≡ true
begins-append [] y = refl
begins-append (c ∷ p) y = ground (arith, begins-append p y)

begins-rest : (p s : List ℕ) → begins p s ≡ true → (y : List ℕ) × (s ≡ p ++ y)
begins-rest [] s h = (s, refl)
begins-rest (c ∷ p) [] h = absurd (ground (arith, h))
begins-rest (c ∷ p) (d ∷ s) h =
    let r = begins-rest p s (ground (arith, h)) in
    let e : d ≡ c = ground (arith, h) in (r.0, cc (e, r.1))

occurs_nil : (c : ℕ) (p x y : List ℕ) → [] ≢ x ++ ((c ∷ p) ++ y)
occurs_nil c p [] y = λ e. cc e
occurs_nil c p (d ∷ x) y = λ e. cc e

occurs_cons :
    (p : List ℕ) (d : ℕ) (s : List ℕ)
    → begins p (d ∷ s) ≡ false
    → (x y : List ℕ) → d ∷ s ≡ x ++ (p ++ y)
    → (x' : List ℕ) × (length x ≡ suc (length x')) × (s ≡ x' ++ (p ++ y))
occurs_cons p d s miss [] y e = absurd (cc (miss, ap (begins p) e, begins-append p y))
occurs_cons p d s miss (d' ∷ x) y e = (x, refl, cc e)

first_at-IsFirst : (c : ℕ) (p s : List ℕ) (h : ℕ) → IsFirst (c ∷ p) s h (first_at (c ∷ p) h s)
first_at-IsFirst c p [] h = inl (refl, occurs_nil c p)
first_at-IsFirst c p (d ∷ s) h = elim (Bool-cases (begins (c ∷ p) (d ∷ s))) [
  | inl e ↦
      let r = begins-rest (c ∷ p) (d ∷ s) e in
      rw e (inr ([], r.0, r.1, omega arith, λ x' y' q. omega arith))
  | inr e ↦ rw e (elim (first_at-IsFirst c p s (h + 1)) [
    | inl (z, none_in) ↦
        inl (z, λ x y q. let r = occurs_cons (c ∷ p) d s e x y q in none_in r.0 y r.2)
    | inr (x, y, q, pos, least) ↦ inr (
      d ∷ x,
      y,
      ap (λ (l : List ℕ). d ∷ l) q,
      omega (arith, pos),
      λ x' y' q'.
          let r = occurs_cons (c ∷ p) d s e x' y' q' in omega (arith, r.1, least r.0 y' r.2),
    )
  ])
]

-- strstr finds the first occurrence: on zero-terminated texts, with more rounds than the haystack has
-- characters, it ends, and it answers NULL when the needle occurs nowhere in the haystack, and else the
-- address where the needle occurs for the first time.
pub strstr-IsFirst :
    (s p : List ℕ) (rounds haystack needle : ℕ) (m : ℕ → ℕ)
    → IsText m haystack s
    → IsText m needle p
    → length s < rounds
    → (r : ℕ) × (strstr rounds haystack needle m ≡ some r) × IsFirst p s haystack r
unfolding strstr
strstr-IsFirst s [] rounds h n m hs hp lt =
    (h, ground (arith, hp), inr ([], s, refl, omega arith, λ x' y' q. omega arith))
strstr-IsFirst s (c ∷ p) rounds h n m hs hp lt = (
  first_at (c ∷ p) h s,
  ground (arith, hp.0, hp.1, strstr_from-first s c p rounds h n m hs hp lt),
  first_at-IsFirst c p s h,
)

-- The character does not occur.
abbrev pub Without : ℕ → List ℕ → Type 0
Without c [] = Unit
Without c (d ∷ s) = (d ≢ c) × Without c s

strrchr_from-Without :
    (c : ℕ) (s : List ℕ) (rounds a last : ℕ) (m : ℕ → ℕ)
    → c ≢ 0
    → IsText m a s
    → Without c s
    → length s < rounds
    → strrchr_from rounds a c last m ≡ some last
unfolding strrchr_from
strrchr_from-Without c s zero a last m nz t w lt = absurd (omega arith)
strrchr_from-Without c [] (suc rounds) a last m nz t w lt = ground (arith, t, nz)
strrchr_from-Without c (d ∷ s) (suc rounds) a last m nz t w lt =
    ground (
      arith,
      t.0,
      t.1,
      w.0,
      strrchr_from-Without c s rounds (a + 1) last m nz t.2 w.1 (omega arith),
    )

strrchr_from-last :
    (c : ℕ) (p q : List ℕ) (rounds a last : ℕ) (m : ℕ → ℕ)
    → c ≢ 0
    → IsText m a (p ++ (c ∷ q))
    → Without c q
    → length (p ++ (c ∷ q)) < rounds
    → strrchr_from rounds a c last m ≡ some (a + length p)
unfolding strrchr_from
strrchr_from-last c p q zero a last m nz t w lt = absurd (omega arith)
strrchr_from-last c [] q (suc rounds) a last m nz t w lt =
    ground (arith, t.0, nz, strrchr_from-Without c q rounds (a + 1) a m nz t.2 w (omega arith))
strrchr_from-last c (d ∷ p) q (suc rounds) a last m nz t w lt = ground (
  arith,
  t.0,
  t.1,
  strrchr_from-last c p q rounds (a + 1) last m nz t.2 w (omega arith),
  strrchr_from-last c p q rounds (a + 1) a m nz t.2 w (omega arith),
)

pub strrchr-Without :
    (c : ℕ) (s : List ℕ) (rounds a : ℕ) (m : ℕ → ℕ)
    → (0 < c) × (c < 256)
    → IsText m a s
    → Without c s
    → length s < rounds
    → strrchr rounds a c m ≡ some 0
unfolding strrchr
strrchr-Without c s rounds a m byte t w lt =
    let e : u8 c ≡ c = omega (arith, byte.1) in
    rw e (strrchr_from-Without c s rounds a 0 m (omega (arith, byte.0)) t w lt)

pub strrchr-last :
    (c : ℕ) (p q : List ℕ) (rounds a : ℕ) (m : ℕ → ℕ)
    → (0 < c) × (c < 256)
    → IsText m a (p ++ (c ∷ q))
    → Without c q
    → length (p ++ (c ∷ q)) < rounds
    → strrchr rounds a c m ≡ some (a + length p)
unfolding strrchr
strrchr-last c p q rounds a m byte t w lt =
    let e : u8 c ≡ c = omega (arith, byte.1) in
    rw e (strrchr_from-last c p q rounds a 0 m (omega (arith, byte.0)) t w lt)
