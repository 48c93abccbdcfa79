-- ===== src/Util/Chain/Unlink.antt =====
-- Taking a node out of a doubly linked list.
use mathlib.Core.Path.{subst}
use avr_kernel.Base.{
  ℕ, zero, suc, ◌<◌, ◌≡◌, ◌≢◌, refl, sym, ap, ◌∙◌, arith, ◌⊎◌, inl, inr, true, false, Option, some,
  List, [], ◌∷◌, ◌++◌, length, ◌==◌, ◌!=◌, Bool-cases,
}
use avr_kernel.Util.Chain.{
  ListNode, Chain, link_next, link_prev, unlink_next, unlink_prev, list_unlink, find_data,
  list_remove,
}
use avr_kernel.Util.Chain.Segments.{
  Segment, Lacks, upd-miss, Segment-frame, Segment-join, Segment-split, Segment-relink,
  Segment-reprev, Lacks-split, Lacks-join, IsDistinct-split, last-Lacks, last_Lacks-rest,
}
use avr_kernel.Util.Chain.Refines.{IsChain, SamePayloads, upd-payload}

-- Between the two halves of `list_unlink`: the nodes before `x` lead past it.
abbrev IsSkipped : (a b : List ℕ) (x : ℕ) (s s' : Chain) → Type 0
IsSkipped a b x s s' =
    Segment s'.nodes 0 s'.head a (s.nodes x).prev (s.nodes x).next
    × Segment s'.nodes x (s.nodes x).next b s'.tail 0
    × (s'.nodes x ≡ s.nodes x)
    × SamePayloads s.nodes s'.nodes

unlink_next-IsSkipped :
    (a b : List ℕ) (x : ℕ) (s : Chain)
    → IsChain s (a ++ (x ∷ b))
    → IsSkipped a b x s (unlink_next x s)
unfolding unlink_next
unlink_next-IsSkipped [] b x s chain =
    let split = Segment-split [] b s.nodes 0 s.head x s.tail 0 chain.0 in
    let first : ((s.nodes x).prev != 0) ≡ false = ground (arith, split.0.0) in
    let e : record s { head = (s.nodes x).next } ≡ unlink_next x s = rw (first, unlink_next) refl in
    subst (IsSkipped [] b x s) e ((split.0.0, refl), split.1, refl, λ k. refl)
unlink_next-IsSkipped (y ∷ a) b x s chain =
    let r = (s.nodes x).prev in
    let nx = (s.nodes x).next in
    let split = Segment-split (y ∷ a) b s.nodes 0 s.head x s.tail 0 chain.0 in
    let d = IsDistinct-split (y ∷ a) b x chain.1 in
    let set : r ≢ 0 =
      last-Lacks a s.nodes 0 y 0 s.head r x split.0 (Lacks-split 0 (y ∷ a) (x ∷ b) chain.2).0 in
    let apart : r ≢ x = last-Lacks a s.nodes x y 0 s.head r x split.0 d.0 in
    let more : (r != 0) ≡ true = ground (arith, set) in
    let n = record (s.nodes r) { next = nx } in
    let e : record s { nodes = link_next r nx s.nodes } ≡ unlink_next x s =
      rw (more, unlink_next) refl in
    subst (IsSkipped (y ∷ a) b x s) e (
      Segment-relink a s.nodes y 0 s.head r x nx split.0 d.2,
      Segment-frame b s.nodes r n x nx s.tail 0
          (last_Lacks-rest a b s.nodes y 0 s.head r x split.0 d.3) split.1,
      upd-miss s.nodes r x n (λ q. apart (sym q)),
      λ k. upd-payload s.nodes r k n refl,
    )

-- What is left without the node.
abbrev pub IsUnlinked : (a b : List ℕ) (s s' : Chain) → Type 0
IsUnlinked a b s s' = IsChain s' (a ++ b) × SamePayloads s.nodes s'.nodes

unlink_prev-IsUnlinked :
    (a b : List ℕ) (x : ℕ) (s s1 : Chain)
    → IsChain s (a ++ (x ∷ b))
    → IsSkipped a b x s s1
    → IsUnlinked a b s (unlink_prev x s1)
unfolding unlink_prev
unlink_prev-IsUnlinked a [] x s s1 chain skip =
    let r = (s.nodes x).prev in
    let d = IsDistinct-split a [] x chain.1 in
    let zeros = Lacks-split 0 a (x ∷ []) chain.2 in
    let prev : (s1.nodes x).prev ≡ r = ap (λ (m : ListNode). m.prev) skip.2 in
    let next : (s1.nodes x).next ≡ (s.nodes x).next = ap (λ (m : ListNode). m.next) skip.2 in
    let last : ((s1.nodes x).next != 0) ≡ false = ground (arith, next, skip.1.1) in
    let e : record s1 { tail = (s1.nodes x).prev } ≡ unlink_prev x s1 =
      rw (last, unlink_prev) refl in
    subst (IsUnlinked a [] s) e (
      (
        Segment-join a [] s1.nodes 0 s1.head r (s.nodes x).next (s1.nodes x).prev 0 skip.0
            (sym prev, skip.1.1),
        d.3,
        Lacks-join 0 a [] zeros.0 tt,
      ),
      skip.3,
    )
unlink_prev-IsUnlinked a (z ∷ b) x s s1 chain skip =
    let r = (s.nodes x).prev in
    let nx = (s.nodes x).next in
    let d = IsDistinct-split a (z ∷ b) x chain.1 in
    let zeros = Lacks-split 0 a (x ∷ z ∷ b) chain.2 in
    let prev : (s1.nodes x).prev ≡ r = ap (λ (m : ListNode). m.prev) skip.2 in
    let next : (s1.nodes x).next ≡ z = ap (λ (m : ListNode). m.next) skip.2 ∙ skip.1.0 in
    let more : ((s1.nodes x).next != 0) ≡ true = ground (arith, next, zeros.1.1.0) in
    let d' = IsDistinct-split a b z d.3 in
    let n = record (s1.nodes z) { prev = r } in
    let e : record s1 { nodes = link_prev z r s1.nodes } ≡ unlink_prev x s1 =
      rw (more, next, prev, unlink_prev) refl in
    subst (IsUnlinked a (z ∷ b) s) e (
      (
        Segment-join a (z ∷ b) (link_prev z r s1.nodes) 0 s1.head r nx s1.tail 0
            (Segment-frame a s1.nodes z n 0 s1.head r nx d'.0 skip.0)
            (Segment-reprev b s1.nodes z x nx s1.tail 0 r skip.1 d'.1),
        d.3,
        Lacks-join 0 a (z ∷ b) zeros.0 zeros.1.1,
      ),
      λ k. upd-payload s1.nodes z k n refl ∙ skip.3 k,
    )

pub list_unlink-IsUnlinked :
    (a b : List ℕ) (x : ℕ) (s : Chain)
    → IsChain s (a ++ (x ∷ b))
    → IsUnlinked a b s (list_unlink x s)
unfolding list_unlink
list_unlink-IsUnlinked a b x s chain =
    unlink_prev-IsUnlinked a b x s (unlink_next x s) chain (unlink_next-IsSkipped a b x s chain)

-- None of the nodes has the payload.
abbrev pub NoneHolds : (ℕ → ListNode) → (target : ℕ) → List ℕ → Type 0
NoneHolds nodes target [] = Unit
NoneHolds nodes target (x ∷ xs) = ((nodes x).payload ≢ target) × NoneHolds nodes target xs

-- The first node with the payload.
abbrev pub IsFirstHolder : (ℕ → ListNode) → (target : ℕ) → (xs a : List ℕ) → ℕ → List ℕ → Type 0
IsFirstHolder nodes target xs a x b =
    (xs ≡ a ++ (x ∷ b)) × ((nodes x).payload ≡ target) × NoneHolds nodes target a

find_data-first :
    (xs : List ℕ) (rounds p t q target : ℕ) (nodes : ℕ → ListNode)
    → Segment nodes p t xs q 0
    → Lacks 0 xs
    → length xs < rounds
    → ((find_data rounds t target nodes ≡ some 0) × NoneHolds nodes target xs)
      ⊎ ((a b : List ℕ) × (x : ℕ) × (find_data rounds t target nodes ≡ some x)
          × (x ≢ 0)
          × IsFirstHolder nodes target xs a x b)
unfolding find_data
find_data-first xs zero p t q target nodes h set lt = absurd (omega arith)
find_data-first [] (suc rounds) p t q target nodes h set lt = inl (rw h.1 refl, tt)
find_data-first (x ∷ xs) (suc rounds) p t q target nodes h set lt =
    let some_node : (t == 0) ≡ false = ground (arith, h.0, set.0) in
    let at : t ≡ x = h.0 in
    elim (Bool-cases ((nodes x).payload == target)) [
      | inl b ↦ inr ([], xs, x, rw (some_node, at, b) refl, set.0, (refl, ground (arith, b), tt))
      | inr b ↦
          let other : (nodes x).payload ≢ target = ground (arith, b) in
          elim (find_data-first xs rounds x (nodes x).next q target nodes h.2 set.1 (omega arith)) [
            | inl (f, all) ↦ inl (rw (some_node, at, b) f, (other, all))
            | inr (a, c, y, f, ne, (whole, hit, before)) ↦ inr (
              x ∷ a,
              c,
              y,
              rw (some_node, at, b) f,
              ne,
              (ap (λ (l : List ℕ). x ∷ l) whole, hit, (other, before)),
            )
          ]
    ]

-- What a removal answers and leaves.
abbrev pub IsRemoved : (xs : List ℕ) (target : ℕ) → Chain → Option (ℕ × Chain) → Type 0
IsRemoved xs target s result =
    ((result ≡ some (0, s)) × NoneHolds s.nodes target xs)
    ⊎ ((a b : List ℕ) × (x : ℕ) × (s' : Chain) × (result ≡ some (x, s'))
        × (x ≢ 0)
        × IsFirstHolder s.nodes target xs a x b
        × IsUnlinked a b s s')

-- list_remove takes out the first node with the payload: on a list of fewer nodes than the rounds it
-- ends. When no node has the payload, it frees none and changes nothing. Else it frees the first node
-- that has it; the list is then the nodes before it followed by those behind it, linked both ways, and
-- no payload is changed.
pub list_remove-IsRemoved :
    (xs : List ℕ) (rounds target : ℕ) (s : Chain)
    → IsChain s xs
    → length xs < rounds
    → IsRemoved xs target s (list_remove rounds target s)
unfolding list_remove
list_remove-IsRemoved xs rounds target s chain lt =
    elim (find_data-first xs rounds 0 s.head s.tail target s.nodes chain.0 chain.2 lt) [
      | inl (f, all) ↦ inl (rw (f, list_remove) refl, all)
      | inr (a, b, x, f, ne, first) ↦
          let set : (x == 0) ≡ false = ground (arith, ne) in
          inr (
            a,
            b,
            x,
            list_unlink x s,
            rw (f, set, list_remove) refl,
            ne,
            first,
            list_unlink-IsUnlinked a b x s (subst (IsChain s) first.0 chain),
          )
    ]
