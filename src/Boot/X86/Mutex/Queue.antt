-- ===== src/Boot/X86/Mutex/Queue.antt =====
-- The linked queue of waiters of kernel/boot/x86/mutex.c as a list.
use avr_kernel.Base.{
  ℕ, ◌≡◌, ◌≢◌, refl, ◌∙◌, sym, ap, arith, false, if◌then◌else◌, ◌==◌, upd, List, [], ◌∷◌, ◌++◌,
}

-- `x` is none of the list, and no two of the list are equal.
abbrev pub IsFresh : ℕ → List ℕ → Type 0
IsFresh x [] = Unit
IsFresh x (u ∷ q) = (x ≢ u) × IsFresh x q

abbrev pub IsDistinct : List ℕ → Type 0
IsDistinct [] = Unit
IsDistinct (t ∷ q) = IsFresh t q × IsDistinct q

-- From the waiter of `t` on the links visit the list, and end at `tail`.
abbrev pub IsChain : (ℕ → ℕ) → (t tail : ℕ) → List ℕ → Type 0
IsChain next t tail [] = (tail ≡ t) × (next t ≡ 0)
IsChain next t tail (u ∷ q) = (next t ≡ u) × (u ≢ 0) × IsChain next u tail q

abbrev pub IsQueue : (ℕ → ℕ) → (head tail : ℕ) → List ℕ → Type 0
IsQueue next head tail [] = (head ≡ 0) × (tail ≡ 0)
IsQueue next head tail (t ∷ q) = (head ≡ t) × (t ≢ 0) × IsChain next t tail q

IsFresh-tail :
    (next : ℕ → ℕ) (x t tail : ℕ) (q : List ℕ)
    → IsChain next t tail q
    → x ≢ t
    → IsFresh x q
    → x ≢ tail
IsFresh-tail next x t tail [] c ne f = λ e. ne (e ∙ c.0)
IsFresh-tail next x t tail (u ∷ q) c ne f = IsFresh-tail next x u tail q c.2 f.0 f.1

-- The chain after a waiter `w` has been put behind its tail.
IsChain-snoc :
    (next : ℕ → ℕ) (t tail w : ℕ) (q : List ℕ)
    → IsChain next t tail q
    → w ≢ 0
    → w ≢ t
    → IsFresh w q
    → IsFresh t q
    → IsDistinct q
    → IsChain (upd (upd next w 0) tail w) t w (q ++ w ∷ [])
IsChain-snoc next t tail w [] c pos ne f g d =
    (ground (arith, c.0), pos, (refl, ground (arith, c.0, ne)))
IsChain-snoc next t tail w (u ∷ q) c pos ne f g d =
    let away : t ≢ tail = IsFresh-tail next t u tail q c.2 g.0 g.1 in
    (ground (arith, c.0, away, ne), c.1, IsChain-snoc next u tail w q c.2 pos f.0 f.1 d.0 d.1)

IsChain-tail : (next : ℕ → ℕ) (t tail : ℕ) (q : List ℕ) → IsChain next t tail q → t ≢ 0 → tail ≢ 0
IsChain-tail next t tail [] c ne = λ e. ne (sym c.0 ∙ e)
IsChain-tail next t tail (u ∷ q) c ne = IsChain-tail next u tail q c.2 c.1

pub IsQueue-snoc :
    (next : ℕ → ℕ) (head tail w : ℕ) (q : List ℕ)
    → IsQueue next head tail q
    → w ≢ 0
    → IsFresh w q
    → IsDistinct q
    → IsQueue
        (if tail == 0 then upd next w 0 else upd (upd next w 0) tail w)
        (if tail == 0 then w else head)
        w
        (q ++ w ∷ [])
IsQueue-snoc next head tail w [] c pos f d = rw (c.1) (refl, pos, (refl, ground arith))
IsQueue-snoc next head tail w (t ∷ q) c pos f d =
    let full : (tail == 0) ≡ false = ground (arith, IsChain-tail next t tail q c.2 c.1) in
    rw full (c.0, c.1, IsChain-snoc next t tail w q c.2 pos f.0 f.1 d.0 d.1)

pub IsQueue-rest :
    (next : ℕ → ℕ) (head tail t : ℕ) (q : List ℕ)
    → IsQueue next head tail (t ∷ q)
    → IsQueue next (next head) (if next head == 0 then 0 else tail) q
IsQueue-rest next head tail t [] c =
    let last : next head ≡ 0 = ap next c.0 ∙ c.2.1 in rw last (refl, refl)
IsQueue-rest next head tail t (u ∷ q) c =
    let more : next head ≡ u = ap next c.0 ∙ c.2.0 in
    let set : (u == 0) ≡ false = ground (arith, c.2.1) in rw (more, set) (refl, c.2.1, c.2.2)
