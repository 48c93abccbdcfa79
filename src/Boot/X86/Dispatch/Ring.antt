-- ===== src/Boot/X86/Dispatch/Ring.antt =====
-- The run queue as a list, and the loops over it.
use avr_kernel.Base.{
  ℕ, zero, suc, ◌+◌, ◌<◌, ◌≤◌, ◌≡◌, ◌≢◌, refl, sym, ap, ◌∙◌, arith, ◌⊎◌, inl, inr, Bool, true,
  false, ◌&&◌, some, List, [], ◌∷◌, ◌++◌, length, if◌then◌else◌, leb, ◌==◌, ◌!=◌, Bool-cases,
}
use avr_kernel.Boot.X86.Dispatch.{Block, highest, search, runnable, effective}

-- The links lead from `t` over the threads of the list to `e`.
abbrev pub Links : (ℕ → Block) → (t : ℕ) → List ℕ → (e : ℕ) → Type 0
Links blocks t [] e = t ≡ e
Links blocks t (x ∷ xs) e = (t ≡ x) × Links blocks (blocks x).next xs e

abbrev pub Among : ℕ → List ℕ → Type 0
Among x [] = ⊥
Among x (y ∷ ys) = (x ≡ y) ⊎ Among x ys

abbrev pub Lacks : ℕ → List ℕ → Type 0
Lacks x [] = Unit
Lacks x (y ∷ ys) = (y ≢ x) × Lacks x ys

pub Links-join :
    (blocks : ℕ → Block) (xs ys : List ℕ) (t u e : ℕ)
    → Links blocks t xs u
    → Links blocks u ys e
    → Links blocks t (xs ++ ys) e
Links-join blocks [] ys t u e h k = rw h k
Links-join blocks (x ∷ xs) ys t u e h k = (h.0, Links-join blocks xs ys (blocks x).next u e h.1 k)

-- A ring that is entered behind one of its threads.
pub Links-turn :
    (blocks : ℕ → Block) (xs ys : List ℕ) (p t e : ℕ)
    → Links blocks t (xs ++ (p ∷ ys)) e
    → Links blocks t xs p × Links blocks (blocks p).next ys e
Links-turn blocks [] ys p t e h = (h.0, h.1)
Links-turn blocks (x ∷ xs) ys p t e h =
    let r = Links-turn blocks xs ys p (blocks x).next e h.1 in ((h.0, r.0), r.1)

pub Among-append : (x : ℕ) (xs ys : List ℕ) → Among x xs ⊎ Among x ys → Among x (xs ++ ys)
Among-append x [] ys (inl h) = elim h [ ]
Among-append x [] ys (inr h) = h
Among-append x (y ∷ xs) ys (inl (inl e)) = inl e
Among-append x (y ∷ xs) ys (inl (inr h)) = inr (Among-append x xs ys (inl h))
Among-append x (y ∷ xs) ys (inr h) = inr (Among-append x xs ys (inr h))

pub Among-split : (x : ℕ) (xs ys : List ℕ) → Among x (xs ++ ys) → Among x xs ⊎ Among x ys
Among-split x [] ys h = inr h
Among-split x (y ∷ xs) ys (inl e) = inl (inl e)
Among-split x (y ∷ xs) ys (inr h) = elim (Among-split x xs ys h) [
  | inl k ↦ inl (inr k)
  | inr k ↦ inr k
]

-- One thread in the second pass.
abbrev raised : (ℕ → Block) → (max_priority t : ℕ) → ℕ
raised blocks max_priority t =
    if runnable blocks t && leb max_priority (effective blocks t)
    then effective blocks t + 1
    else max_priority

-- What the second pass finds: 0, or more than the priority of every runnable thread by 1 at least,
-- and by just 1 of some.
abbrev pub IsHighest : (ℕ → Block) → List ℕ → (start r : ℕ) → Type 0
IsHighest blocks xs start r =
    (start ≤ r)
    × ((x : ℕ) → Among x xs → runnable blocks x ≡ true → effective blocks x < r)
    × ((r ≡ start)
        ⊎ ((x : ℕ) × Among x xs × (runnable blocks x ≡ true) × (effective blocks x + 1 ≡ r)))

IsHighest-cons :
    (blocks : ℕ → Block) (x : ℕ) (xs : List ℕ) (mx r : ℕ)
    → IsHighest blocks xs (raised blocks mx x) r
    → IsHighest blocks (x ∷ xs) mx r
IsHighest-cons blocks x xs mx r (low, all, found) = (
  ground (arith, low),
  λ y among on. elim among [
    | inl e ↦
        let on' : runnable blocks x ≡ true = ap (runnable blocks) (sym e) ∙ on in
        let same = ap (effective blocks) e in ground (arith, same, on', low)
    | inr k ↦ all y k on
  ],
  elim found [
    | inl e ↦ elim (Bool-cases (runnable blocks x && leb mx (effective blocks x))) [
      | inl b ↦ inr (x, inl refl, ground (arith, b), ground (arith, b, e))
      | inr b ↦ inl (ground (arith, b, e))
    ]
    | inr (y, k, on, e) ↦ inr (y, inr k, on, e)
  ],
)

pub highest-IsHighest :
    (xs : List ℕ) (blocks : ℕ → Block) (x rounds start mx : ℕ)
    → Links blocks x (x ∷ xs) start
    → Lacks start xs
    → length xs < rounds
    → (r : ℕ) × (highest rounds x start mx blocks ≡ some r) × IsHighest blocks (x ∷ xs) mx r
unfolding highest
highest-IsHighest xs blocks x zero start mx h out lt = absurd (omega arith)
highest-IsHighest [] blocks x (suc rounds) start mx h out lt =
    let last : ((blocks x).next != start) ≡ false = ground (arith, h.1) in
    let r = raised blocks mx x in
    (
      r,
      rw last refl,
      IsHighest-cons blocks x [] mx r (omega arith, λ y among on. elim among [ ], inl refl),
    )
highest-IsHighest (y ∷ xs) blocks x (suc rounds) start mx h out lt =
    let more : ((blocks x).next != start) ≡ true = ground (arith, h.1.0, out.0) in
    let w =
      highest-IsHighest xs blocks y rounds start (raised blocks mx x) (refl, h.1.1) out.1
        (omega arith) in
    (w.0, rw (more, h.1.0) w.1, IsHighest-cons blocks x (y ∷ xs) mx w.0 w.2)

-- The thread is runnable, at this priority (plus 1).
abbrev pub stands : (ℕ → Block) → (max_priority t : ℕ) → Bool
stands blocks max_priority t = runnable blocks t && effective blocks t + 1 == max_priority

abbrev pub NoneStands : (ℕ → Block) → (max_priority : ℕ) → List ℕ → Type 0
NoneStands blocks mx [] = Unit
NoneStands blocks mx (x ∷ xs) = (stands blocks mx x ≡ false) × NoneStands blocks mx xs

-- The search stops at the first thread that stands at the priority.
pub search-first :
    (xs : List ℕ) (blocks : ℕ → Block) (t e rounds mx w : ℕ)
    → Links blocks t xs e
    → Among w xs
    → stands blocks mx w ≡ true
    → length xs < rounds
    → (c : ℕ) × (before : List ℕ) × (after : List ℕ) × (search rounds t mx blocks ≡ some c)
      × (xs ≡ before ++ (c ∷ after))
      × NoneStands blocks mx before
      × (stands blocks mx c ≡ true)
unfolding search
search-first xs blocks t e zero mx w h among at lt = absurd (omega arith)
search-first [] blocks t e (suc rounds) mx w h among at lt = elim among [ ]
search-first (x ∷ xs) blocks t e (suc rounds) mx w h among at lt =
    elim (Bool-cases (stands blocks mx x)) [
      | inl b ↦ (x, [], xs, rw (h.0, b) refl, refl, tt, b)
      | inr b ↦ elim among [
        | inl same ↦ absurd (cc (at, b, ap (stands blocks mx) same))
        | inr k ↦
            let r = search-first xs blocks (blocks x).next e rounds mx w h.1 k at (omega arith) in
            (r.0, x ∷ r.1, r.2, rw (h.0, b) r.3, ap (λ (l : List ℕ). x ∷ l) r.4, (b, r.5), r.6)
      ]
    ]
