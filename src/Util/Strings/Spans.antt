-- ===== src/Util/Strings/Spans.antt =====
-- Runs of delimiters, and of characters that are none, on lists.
use avr_kernel.Base.{
  ℕ, zero, suc, ◌+◌, ◌<◌, ◌≡◌, refl, ap, arith, inl, inr, Bool, true, false, not, some, List, [],
  ◌∷◌, ◌++◌, length, ◌==◌, ◌!=◌, if◌then◌else◌, Bool-cases,
}
use avr_kernel.Util.Text.{IsText}
use avr_kernel.Util.Strings.{is_delimiter, span_end, strspn, strcspn}

abbrev pub elem : ℕ → List ℕ → Bool
elem c [] = false
elem c (d ∷ ds) = if c == d then true else elem c ds

-- Whether the character belongs to the run: a delimiter for `wanted` true.
abbrev pub in_run : (wanted : Bool) → List ℕ → ℕ → Bool
in_run wanted ds c = if wanted then elem c ds else not (elem c ds)

-- The longest run at the front, and what follows it.
abbrev pub front : (wanted : Bool) → List ℕ → List ℕ → List ℕ
front wanted ds [] = []
front wanted ds (c ∷ s) = if in_run wanted ds c then c ∷ front wanted ds s else []

abbrev pub back : (wanted : Bool) → List ℕ → List ℕ → List ℕ
back wanted ds [] = []
back wanted ds (c ∷ s) = if in_run wanted ds c then back wanted ds s else c ∷ s

pub front-append-back : (wanted : Bool) (ds s : List ℕ) → front wanted ds s ++ back wanted ds s ≡ s
front-append-back wanted ds [] = refl
front-append-back wanted ds (c ∷ s) = elim (Bool-cases (in_run wanted ds c)) [
  | inl e ↦ rw e (ap (λ (l : List ℕ). c ∷ l) (front-append-back wanted ds s))
  | inr e ↦ rw e refl
]

pub is_delimiter-elem :
    (ds : List ℕ) (rounds c set : ℕ) (m : ℕ → ℕ)
    → IsText m set ds
    → length ds < rounds
    → is_delimiter rounds c set m ≡ some (elem c ds)
unfolding is_delimiter
is_delimiter-elem ds zero c set m t lt = absurd (omega arith)
is_delimiter-elem [] (suc rounds) c set m t lt = ground (arith, t)
is_delimiter-elem (d ∷ ds) (suc rounds) c set m t lt =
    ground (arith, t.0, t.1, is_delimiter-elem ds rounds c (set + 1) m t.2 (omega arith))

pub span_end-front :
    (wanted : Bool) (ds s : List ℕ) (rounds a set : ℕ) (m : ℕ → ℕ)
    → IsText m a s
    → IsText m set ds
    → length s + length ds < rounds
    → span_end wanted rounds a set m ≡ some (a + length (front wanted ds s))
unfolding span_end
span_end-front wanted ds s zero a set m t d lt = absurd (omega arith)
span_end-front wanted ds [] (suc rounds) a set m t d lt = ground (arith, t)
span_end-front wanted ds (c ∷ s) (suc rounds) a set m t d lt =
    let more : (c != 0) ≡ true = ground (arith, t.1) in
    let test = is_delimiter-elem ds (suc rounds) c set m d (omega arith) in
    let r = span_end-front wanted ds s rounds (a + 1) set m t.2 d (omega arith) in
    elim (Bool-cases (in_run wanted ds c)) [
      | inl e ↦ rw (t.0, more, test, e, r) (ap some (omega arith))
      | inr e ↦ rw (t.0, more, test, e) (ap some (omega arith))
    ]

-- strspn measures the run of delimiters at the front, and strcspn the run of other characters: on
-- zero-terminated texts, with more rounds than both have characters together, both end.
pub strspn-front :
    (ds s : List ℕ) (rounds a set : ℕ) (m : ℕ → ℕ)
    → IsText m a s
    → IsText m set ds
    → length s + length ds < rounds
    → (strspn rounds a set m ≡ some (length (front true ds s)))
      × (strcspn rounds a set m ≡ some (length (front false ds s)))
unfolding strspn strcspn
strspn-front ds s rounds a set m t d lt = (
  rw (span_end-front true ds s rounds a set m t d lt) (ap some (omega arith)),
  rw (span_end-front false ds s rounds a set m t d lt) (ap some (omega arith)),
)
