-- ===== src/Util/Chain/Segments.antt =====
-- Runs of nodes that are linked both ways.
use mathlib.Core.Path.{subst}
use avr_kernel.Base.{
  ℕ, ◌≡◌, ◌≢◌, refl, sym, ap, ◌∙◌, arith, true, false, List, [], ◌∷◌, ◌++◌, ◌==◌, upd,
}
use avr_kernel.Util.Chain.{ListNode, link_next, link_prev}

-- The nodes from `t` on, behind `p`, are linked both ways; the last of them is `q` (or `p`, when there
-- is none), and its link leads to `e`.
abbrev pub Segment : (ℕ → ListNode) → (p t : ℕ) → List ℕ → (q e : ℕ) → Type 0
Segment nodes p t [] q e = (p ≡ q) × (t ≡ e)
Segment nodes p t (x ∷ xs) q e =
    (t ≡ x) × ((nodes x).prev ≡ p) × Segment nodes x (nodes x).next xs q e

-- The node is not in the list.
abbrev pub Lacks : ℕ → List ℕ → Type 0
Lacks x [] = Unit
Lacks x (y ∷ ys) = (y ≢ x) × Lacks x ys

abbrev pub IsDistinct : List ℕ → Type 0
IsDistinct [] = Unit
IsDistinct (x ∷ xs) = Lacks x xs × IsDistinct xs

pub upd-hit : (f : ℕ → ListNode) (k : ℕ) (n : ListNode) → upd f k n k ≡ n
upd-hit f k n = let e : (k == k) ≡ true = ground arith in rw e refl

pub upd-miss : (f : ℕ → ListNode) (k x : ℕ) (n : ListNode) → x ≢ k → upd f k n x ≡ f x
upd-miss f k x n ne = let e : (x == k) ≡ false = ground (arith, ne) in rw e refl

-- A node outside the segment may change.
pub Segment-frame :
    (xs : List ℕ) (nodes : ℕ → ListNode) (k : ℕ) (n : ListNode) (p t q e : ℕ)
    → Lacks k xs
    → Segment nodes p t xs q e
    → Segment (upd nodes k n) p t xs q e
Segment-frame [] nodes k n p t q e out h = h
Segment-frame (x ∷ xs) nodes k n p t q e out h =
    let same = upd-miss nodes k x n out.0 in
    (
      h.0,
      ap (λ (m : ListNode). m.prev) same ∙ h.1,
      rw same (Segment-frame xs nodes k n x (nodes x).next q e out.1 h.2),
    )

pub Segment-join :
    (xs ys : List ℕ) (nodes : ℕ → ListNode) (p t q e r f : ℕ)
    → Segment nodes p t xs q e
    → Segment nodes q e ys r f
    → Segment nodes p t (xs ++ ys) r f
Segment-join [] ys nodes p t q e r f h k = rw (h.0, h.1) k
Segment-join (x ∷ xs) ys nodes p t q e r f h k =
    (h.0, h.1, Segment-join xs ys nodes x (nodes x).next q e r f h.2 k)

-- A segment at one of its nodes.
pub Segment-split :
    (xs ys : List ℕ) (nodes : ℕ → ListNode) (p t x r f : ℕ)
    → Segment nodes p t (xs ++ (x ∷ ys)) r f
    → Segment nodes p t xs (nodes x).prev x × Segment nodes x (nodes x).next ys r f
Segment-split [] ys nodes p t x r f h = ((sym h.1, h.0), h.2)
Segment-split (y ∷ xs) ys nodes p t x r f h =
    let s = Segment-split xs ys nodes y (nodes y).next x r f h.2 in ((h.0, h.1, s.0), s.1)

pub last-Lacks :
    (xs : List ℕ) (nodes : ℕ → ListNode) (x y p t q e : ℕ)
    → Segment nodes p t (y ∷ xs) q e
    → Lacks x (y ∷ xs)
    → q ≢ x
last-Lacks [] nodes x y p t q e h out same = out.0 (h.2.0 ∙ same)
last-Lacks (z ∷ xs) nodes x y p t q e h out same =
    last-Lacks xs nodes x z y (nodes y).next q e h.2 out.1 same

-- The last node is one of the segment, and gets another link.
pub Segment-relink :
    (xs : List ℕ) (nodes : ℕ → ListNode) (x p t q e f : ℕ)
    → Segment nodes p t (x ∷ xs) q e
    → IsDistinct (x ∷ xs)
    → Segment (link_next q f nodes) p t (x ∷ xs) q f
Segment-relink [] nodes x p t q e f h d =
    let at : x ≡ q = h.2.0 in
    let hit = upd-hit nodes q (record (nodes q) { next = f }) in
    (
      h.0,
      ap (λ (k : ℕ). (link_next q f nodes k).prev) at
          ∙ ap (λ (m : ListNode). m.prev) hit
          ∙ ap (λ (k : ℕ). (nodes k).prev) (sym at)
          ∙ h.1,
      (at, ap (λ (k : ℕ). (link_next q f nodes k).next) at ∙ ap (λ (m : ListNode). m.next) hit),
    )
Segment-relink (y ∷ xs) nodes x p t q e f h d =
    let ne : x ≢ q = λ same. last-Lacks xs nodes x y x (nodes x).next q e h.2 d.0 (sym same) in
    let miss = upd-miss nodes q x (record (nodes q) { next = f }) ne in
    (
      h.0,
      ap (λ (m : ListNode). m.prev) miss ∙ h.1,
      rw miss (Segment-relink xs nodes y x (nodes x).next q e f h.2 d.1),
    )

-- The first node gets another backward link.
pub Segment-reprev :
    (xs : List ℕ) (nodes : ℕ → ListNode) (x p t q e p' : ℕ)
    → Segment nodes p t (x ∷ xs) q e
    → Lacks x xs
    → Segment (link_prev x p' nodes) p' t (x ∷ xs) q e
Segment-reprev xs nodes x p t q e p' h out =
    let n = record (nodes x) { prev = p' } in
    let hit = upd-hit nodes x n in
    (
      h.0,
      ap (λ (m : ListNode). m.prev) hit,
      rw hit (Segment-frame xs nodes x n x (nodes x).next q e out h.2),
    )

pub Lacks-split : (x : ℕ) (xs ys : List ℕ) → Lacks x (xs ++ ys) → Lacks x xs × Lacks x ys
Lacks-split x [] ys h = (tt, h)
Lacks-split x (y ∷ xs) ys h = let r = Lacks-split x xs ys h.1 in ((h.0, r.0), r.1)

pub Lacks-join : (x : ℕ) (xs ys : List ℕ) → Lacks x xs → Lacks x ys → Lacks x (xs ++ ys)
Lacks-join x [] ys h k = k
Lacks-join x (y ∷ xs) ys h k = (h.0, Lacks-join x xs ys h.1 k)

-- Taking a node out of distinct nodes: it is neither before nor behind itself, and what is left is
-- distinct.
pub IsDistinct-split :
    (xs ys : List ℕ) (x : ℕ)
    → IsDistinct (xs ++ (x ∷ ys))
    → Lacks x xs × Lacks x ys × IsDistinct xs × IsDistinct (xs ++ ys)
IsDistinct-split [] ys x h = (tt, h.0, tt, h.1)
IsDistinct-split (y ∷ xs) ys x h =
    let r = IsDistinct-split xs ys x h.1 in
    let s = Lacks-split y xs (x ∷ ys) h.0 in
    (((λ e. s.1.0 (sym e)), r.0), r.1, (s.0, r.2), (Lacks-join y xs ys s.0 s.1.1, r.3))

-- Two parts of distinct nodes have no node in common: the first of the second part, and the last of
-- the first part.
pub first-Lacks : (xs ys : List ℕ) (y : ℕ) → IsDistinct (xs ++ (y ∷ ys)) → Lacks y xs
first-Lacks xs ys y h = (IsDistinct-split xs ys y h).0

pub last_Lacks-rest :
    (xs ys : List ℕ) (nodes : ℕ → ListNode) (x p t q e : ℕ)
    → Segment nodes p t (x ∷ xs) q e
    → IsDistinct ((x ∷ xs) ++ ys)
    → Lacks q ys
last_Lacks-rest [] ys nodes x p t q e h d = subst (λ (k : ℕ). Lacks k ys) h.2.0 d.0
last_Lacks-rest (y ∷ xs) ys nodes x p t q e h d =
    last_Lacks-rest xs ys nodes y x (nodes x).next q e h.2 d.1
