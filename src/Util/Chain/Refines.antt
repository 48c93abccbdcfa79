-- ===== src/Util/Chain/Refines.antt =====
-- The doubly linked list is a list: appending and removing do to the nodes in order what they should.
use mathlib.Core.Path.{subst}
use avr_kernel.Base.{
  ℕ, ◌≡◌, ◌≢◌, refl, sym, ap, ◌∙◌, arith, inl, inr, Bool, true, false, List, [], ◌∷◌, ◌++◌, ◌==◌,
  upd, Bool-cases,
}
use avr_kernel.Util.Chain.{ListNode, Chain, link_next, list_append}
use avr_kernel.Util.Chain.Segments.{
  Segment, Lacks, IsDistinct, upd-hit, upd-miss, Segment-frame, Segment-join, Segment-relink,
  Lacks-join, last-Lacks,
}

-- The list has these nodes, in order, linked both ways, and none twice.
abbrev pub IsChain : Chain → List ℕ → Type 0
IsChain s xs = Segment s.nodes 0 s.head xs s.tail 0 × IsDistinct xs × Lacks 0 xs

-- No payload is changed.
abbrev pub SamePayloads : (nodes nodes' : ℕ → ListNode) → Type 0
SamePayloads nodes nodes' = (k : ℕ) → (nodes' k).payload ≡ (nodes k).payload

pub upd-payload :
    (nodes : ℕ → ListNode) (k x : ℕ) (n : ListNode)
    → n.payload ≡ (nodes k).payload
    → (upd nodes k n x).payload ≡ (nodes x).payload
upd-payload nodes k x n h = elim (Bool-cases (x == k)) [
  | inl e ↦
      let same : x ≡ k = ground (arith, e) in
      rw e (h ∙ ap (λ (j : ℕ). (nodes j).payload) (sym same))
  | inr e ↦ rw e refl
]

IsDistinct-append : (xs : List ℕ) (x : ℕ) → IsDistinct xs → Lacks x xs → IsDistinct (xs ++ (x ∷ []))
IsDistinct-append [] x h out = (tt, tt)
IsDistinct-append (y ∷ xs) x h out =
    (Lacks-join y xs (x ∷ []) h.0 ((λ e. out.0 (sym e)), tt), IsDistinct-append xs x h.1 out.1)

-- What an append answers and leaves.
abbrev pub IsExtended : (xs : List ℕ) (new_node item : ℕ) → Chain → Bool × Chain → Type 0
IsExtended xs new_node item s r =
    (r.0 ≡ true)
    × IsChain r.1 (xs ++ (new_node ∷ []))
    × ((r.1.nodes new_node).payload ≡ item)
    × ((k : ℕ) → k ≢ new_node → (r.1.nodes k).payload ≡ (s.nodes k).payload)

-- list_append adds a node at the end: for a list of nodes and a new node that malloc gave, not NULL and
-- none of them, it answers true, the nodes are the old ones and then the new one, which has the
-- payload, and no other payload is changed.
pub list_append-IsExtended :
    (xs : List ℕ) (new_node item : ℕ) (s : Chain)
    → IsChain s xs
    → new_node ≢ 0
    → Lacks new_node xs
    → IsExtended xs new_node item s (list_append new_node item s)
unfolding list_append
list_append-IsExtended [] new item s chain set out =
    let n : ListNode = record { payload = item; next = 0; prev = s.tail } in
    let b0 : (new == 0) ≡ false = ground (arith, set) in
    let b1 : (s.head == 0) ≡ true = ground (arith, chain.0.1) in
    let hit = upd-hit s.nodes new n in
    let s1 : Chain = record { nodes = upd s.nodes new n; head = new; tail = new } in
    let e : (true, s1) ≡ list_append new item s = rw (b0, b1, list_append) refl in
    subst (IsExtended [] new item s) e (
      refl,
      (
        (
          refl,
          ap (λ (m : ListNode). m.prev) hit ∙ sym chain.0.0,
          (refl, ap (λ (m : ListNode). m.next) hit),
        ),
        (tt, tt),
        (set, tt),
      ),
      ap (λ (m : ListNode). m.payload) hit,
      λ k ne. ap (λ (m : ListNode). m.payload) (upd-miss s.nodes new k n ne),
    )
list_append-IsExtended (x ∷ xs) new item s chain set out =
    let n : ListNode = record { payload = item; next = 0; prev = s.tail } in
    let placed = upd s.nodes new n in
    let b0 : (new == 0) ≡ false = ground (arith, set) in
    let b1 : (s.head == 0) ≡ false = ground (arith, chain.0.0, chain.2.0) in
    let hit = upd-hit s.nodes new n in
    let apart : s.tail ≢ new = last-Lacks xs s.nodes new x 0 s.head s.tail 0 chain.0 out in
    let linked = record (placed s.tail) { next = new } in
    let nodes' = link_next s.tail new placed in
    let miss = upd-miss placed s.tail new linked (λ e. apart (sym e)) in
    let old =
      Segment-relink xs placed x 0 s.head s.tail 0 new
        (Segment-frame (x ∷ xs) s.nodes new n 0 s.head s.tail 0 out chain.0) chain.1 in
    let s1 : Chain = record { nodes = nodes'; head = s.head; tail = new } in
    let e : (true, s1) ≡ list_append new item s = rw (b0, b1, list_append) refl in
    subst (IsExtended (x ∷ xs) new item s) e (
      refl,
      (
        Segment-join (x ∷ xs) (new ∷ []) nodes' 0 s.head s.tail new new 0 old (
          refl,
          ap (λ (m : ListNode). m.prev) (miss ∙ hit),
          (refl, ap (λ (m : ListNode). m.next) (miss ∙ hit)),
        ),
        IsDistinct-append (x ∷ xs) new chain.1 out,
        Lacks-join 0 (x ∷ xs) (new ∷ []) chain.2 (set, tt),
      ),
      ap (λ (m : ListNode). m.payload) (miss ∙ hit),
      λ k ne.
          upd-payload placed s.tail k linked refl
          ∙ ap (λ (m : ListNode). m.payload) (upd-miss s.nodes new k n ne),
    )
