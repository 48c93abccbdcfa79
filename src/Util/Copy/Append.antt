-- ===== src/Util/Copy/Append.antt =====
-- Copies of texts: strcpy, strncpy, strcat, strncat and strlcat as copies of bytes.
use avr_kernel.Base.{
  ℕ, zero, suc, ◌+◌, ◌-◌, ◌<◌, ◌≤◌, ◌≡◌, refl, ap, ◌∙◌, arith, ◌⊎◌, inl, inr, false, some, List, [],
  ◌∷◌, ◌++◌, length, take, ltb, ◌==◌, if◌then◌else◌, add32, upd, length-take,
}
use avr_kernel.Util.Text.{
  IsText, Letters, IsText-moved, Letters-moved, IsText-Letters, Letters-take, IsText-join,
  IsText-closed,
}
use avr_kernel.Util.Strings.Search.{strlen-text, strnlen-text}
use avr_kernel.Util.Copy.{
  Bytes, copy_up, copy_text, strcat, append_within, strncat, strlcat, memcpy,
}
use avr_kernel.Util.Copy.Move.{copy_up-IsCopied}

-- The two ranges have no address in common.
abbrev pub Apart : (a n b k : ℕ) → Type 0
Apart a n b k = (a + n ≤ b) ⊎ (b + k ≤ a)

upd-IsText :
    (m : Bytes) (d v s : ℕ) (t : List ℕ)
    → (d < s) ⊎ (s + length t < d)
    → IsText m s t
    → IsText (upd m d v) s t
upd-IsText m d v s t out =
    IsText-moved m (upd m d v) s s t
      (λ i lt. elim out [ inl h ↦ ground arith | inr h ↦ ground arith ])

-- Copying a text up to its end copies its characters and the 0.
pub copy_text-copy_up :
    (t : List ℕ) (rounds d s : ℕ) (m : Bytes)
    → IsText m s t
    → (d ≤ s) ⊎ (s + length t < d)
    → length t < rounds
    → copy_text rounds d s m ≡ some (copy_up d s (suc (length t)) m)
unfolding copy_text copy_up
copy_text-copy_up t zero d s m h out lt = absurd (omega arith)
copy_text-copy_up [] (suc rounds) d s m h out lt = ground (arith, h)
copy_text-copy_up (c ∷ t) (suc rounds) d s m h out lt =
    let h' = upd-IsText m d (m s) (s + 1) t (ground (arith, out)) h.2 in
    ground (
      arith,
      h.0,
      h.1,
      copy_text-copy_up t rounds (d + 1) (s + 1) (upd m d (m s)) h' (ground (arith, out))
          (omega arith),
    )

-- What strncat appends: the first `n` characters, and a 0.
pub append_within-copy_up :
    (t : List ℕ) (n d s : ℕ) (m : Bytes)
    → IsText m s t
    → (d ≤ s) ⊎ (s + length t < d)
    → append_within n d s m ≡ upd (copy_up d s (length (take n t)) m) (d + length (take n t)) 0
unfolding append_within copy_up
append_within-copy_up t zero d s m h out = ap (λ (k : ℕ). upd m k 0) (omega arith)
append_within-copy_up [] (suc n) d s m h out =
    ground (arith, h, ap (λ (k : ℕ). upd m k 0) (let e : d ≡ d + 0 = omega arith in e))
append_within-copy_up (c ∷ t) (suc n) d s m h out =
    let h' = upd-IsText m d (m s) (s + 1) t (ground (arith, out)) h.2 in
    let r = append_within-copy_up t n (d + 1) (s + 1) (upd m d (m s)) h' (ground (arith, out)) in
    let k = length (take n t) in
    let e : d + 1 + k ≡ d + (k + 1) = omega arith in
    ground
      (arith, h.0, h.1, r ∙ ap (λ (j : ℕ). upd (copy_up (d + 1) (s + 1) k (upd m d (m s))) j 0) e)

-- The text `s` at `dest` has grown by `u`, and nothing else is written.
abbrev pub IsAppended : (dest : ℕ) (s u : List ℕ) → Bytes → Bytes → Type 0
IsAppended dest s u m m' =
    IsText m' dest (s ++ u)
    × ((x : ℕ) → (x < dest + length s) ⊎ (dest + length s + length u < x) → m' x ≡ m x)

-- The text `u` stands at `p`, and nothing else is written.
abbrev pub IsPut : (p : ℕ) (u : List ℕ) → Bytes → Bytes → Type 0
IsPut p u m m' = IsText m' p u × ((x : ℕ) → (x < p) ⊎ (p + length u < x) → m' x ≡ m x)

-- Letters that are copied and closed by a 0.
pub terminated-IsPut :
    (u : List ℕ) (p src : ℕ) (m : Bytes)
    → Letters m src u
    → Apart p (length u + 1) src (length u)
    → IsPut p u m (upd (copy_up p src (length u) m) (p + length u) 0)
terminated-IsPut u p src m hu apart =
    let k = length u in
    let m' = upd (copy_up p src k m) (p + k) 0 in
    let c = copy_up-IsCopied p src k m (ground (arith, apart)) in
    (
      IsText-closed m' p u (Letters-moved m m' src p u (λ i lt. ground (arith, lt, c.0 i)) hu)
          (ground arith),
      λ x out. ground (arith, out, c.1 x),
    )

append-IsAppended :
    (s u : List ℕ) (dest src : ℕ) (m : Bytes)
    → IsText m dest s
    → Letters m src u
    → Apart dest (length s + length u + 1) src (length u)
    → IsAppended dest s u m
        (upd (copy_up (dest + length s) src (length u) m) (dest + length s + length u) 0)
append-IsAppended s u dest src m hs hu apart =
    let p = dest + length s in
    let m' = upd (copy_up p src (length u) m) (p + length u) 0 in
    let put = terminated-IsPut u p src m hu (ground (arith, apart)) in
    (
      IsText-join m' dest s u
          (Letters-moved m m' dest dest s (λ i lt. put.1 (dest + i) (inl (omega arith)))
            (IsText-Letters m dest s hs))
          put.0,
      put.1,
    )

-- strncat appends: on zero-terminated texts in separate memory, with more rounds than the destination
-- has characters, it ends and answers the destination, which then has the old text followed by the
-- first `n` characters of the source and a terminator; nothing else is written.
pub strncat-IsAppended :
    (s t : List ℕ) (rounds dest src n : ℕ) (m : Bytes)
    → IsText m dest s
    → IsText m src t
    → Apart dest (length s + length (take n t) + 1) src (length t + 1)
    → length s < rounds
    → (m' : Bytes) × (strncat rounds dest src n m ≡ some (dest, m'))
      × IsAppended dest s (take n t) m m'
unfolding strncat
strncat-IsAppended s t rounds dest src n m hs ht apart lt =
    let u = take n t in
    let p = dest + length s in
    let m2 = upd (copy_up p src (length u) m) (p + length u) 0 in
    let e = append_within-copy_up t n p src m ht (ground (arith, apart, length-take n t)) in
    (
      m2,
      rw (strlen-text s rounds dest m hs lt) (ap (λ (f : Bytes). some (dest, f)) e),
      append-IsAppended s u dest src m hs (Letters-take m src n t (IsText-Letters m src t ht))
          (ground (arith, apart, length-take n t)),
    )

-- strcat appends the whole source: on zero-terminated texts in separate memory, with more rounds than
-- either has characters, it ends and answers the destination, which then has both texts joined;
-- nothing else is written.
pub strcat-IsAppended :
    (s t : List ℕ) (rounds dest src : ℕ) (m : Bytes)
    → IsText m dest s
    → IsText m src t
    → Apart dest (length s + length t + 1) src (length t + 1)
    → length s < rounds
    → length t < rounds
    → (m' : Bytes) × (strcat rounds dest src m ≡ some (dest, m')) × IsAppended dest s t m m'
unfolding strcat
strcat-IsAppended s t rounds dest src m hs ht apart ls lt =
    let p = dest + length s in
    let m' = copy_up p src (suc (length t)) m in
    let c = copy_up-IsCopied p src (suc (length t)) m (ground (arith, apart)) in
    let e = copy_text-copy_up t rounds p src m ht (ground (arith, apart)) lt in
    let first : Letters m' dest s =
      Letters-moved m m' dest dest s (λ i h. c.1 (dest + i) (inl (omega arith)))
        (IsText-Letters m dest s hs) in
    (
      m',
      rw (strlen-text s rounds dest m hs ls, e) refl,
      (
        IsText-join m' dest s t first (IsText-moved m m' src p t (λ i h. c.0 i (omega arith)) ht),
        λ x out. c.1 x (ground (arith, out)),
      ),
    )

-- strlcat stays within its buffer: for a text shorter than `size` at the destination and a text at the
-- source, in separate memory and with more rounds than the source has characters, it ends; the
-- destination then has the old text followed by as much of the source as leaves room for the
-- terminator, no byte outside the `size` bytes of the buffer is written, and the answer is the length
-- of both texts, cut off to 32 bits.
pub strlcat-bounded :
    (s t : List ℕ) (rounds dest src size : ℕ) (m : Bytes)
    → IsText m dest s
    → IsText m src t
    → Apart dest size src (length t + 1)
    → length s < size
    → length t < rounds
    → (m' : Bytes) × (strlcat rounds dest src size m ≡ some (add32 (length s) (length t), m'))
      × IsText m' dest (s ++ take (size - length s - 1) t)
      × ((x : ℕ) → (x < dest) ⊎ (dest + size ≤ x) → m' x ≡ m x)
unfolding strlcat memcpy
strlcat-bounded s t rounds dest src size m hs ht apart ls lt =
    let room = size - length s - 1 in
    let u = take room t in
    let p = dest + length s in
    let ended : ℕ → Bytes = λ k. upd (copy_up p src k m) (p + k) 0 in
    let cut : (if ltb (length t) room then length t else room) ≡ length u =
      ground (arith, length-take room t) in
    let fits : (length s == size) ≡ false = ground arith in
    let r =
      append-IsAppended s u dest src m hs (Letters-take m src room t (IsText-Letters m src t ht))
        (ground (arith, apart, length-take room t)) in
    (
      ended (length u),
      rw (strnlen-text s size dest m hs ls, strlen-text t rounds src m ht lt, fits)
          (ap (λ (k : ℕ). some (add32 (length s) (length t), ended k)) cut),
      r.0,
      λ x out. r.1 x (ground (arith, out, length-take room t)),
    )
