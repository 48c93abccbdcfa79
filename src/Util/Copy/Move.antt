-- ===== src/Util/Copy/Move.antt =====
-- Copies of memory, overlapping ones included.
use avr_kernel.Base.{
  ℕ, zero, suc, ◌+◌, ◌-◌, ◌<◌, ◌≤◌, ◌≡◌, refl, ap, ◌∙◌, arith, ltb, upd, ◌⊎◌, inl, inr, Bool-cases,
}
use avr_kernel.Util.Copy.{Bytes, copy_up, copy_down, memmove, memcpy}

-- `m'` has the `n` bytes that `m` has at `s` at `d`, and is `m` elsewhere.
abbrev pub IsCopied : (d s n : ℕ) → Bytes → Bytes → Type 0
IsCopied d s n m m' =
    ((i : ℕ) → i < n → m' (d + i) ≡ m (s + i)) × ((x : ℕ) → (x < d) ⊎ (d + n ≤ x) → m' x ≡ m x)

upd-ne : (m : Bytes) (k v x : ℕ) → (x < k) ⊎ (k < x) → upd m k v x ≡ m x
upd-ne m k v x h = ground arith

upd-eq : (m : Bytes) (k v x : ℕ) → x ≡ k → upd m k v x ≡ v
upd-eq m k v x h = ground arith

pub copy_up-outside :
    (d s n : ℕ) (m : Bytes) (x : ℕ) → (x < d) ⊎ (d + n ≤ x) → copy_up d s n m x ≡ m x
unfolding copy_up
copy_up-outside d s zero m x h = refl
copy_up-outside d s (suc n) m x h =
    copy_up-outside (d + 1) (s + 1) n (upd m d (m s)) x (ground arith)
    ∙ upd-ne m d (m s) x (ground arith)

pub copy_up-inside :
    (d s n : ℕ) (m : Bytes)
    → (d ≤ s) ⊎ (s + n ≤ d)
    → (i : ℕ) → i < n
    → copy_up d s n m (d + i) ≡ m (s + i)
unfolding copy_up
copy_up-inside d s zero m apart i lt = absurd (omega arith)
copy_up-inside d s (suc n) m apart zero lt =
    copy_up-outside (d + 1) (s + 1) n (upd m d (m s)) (d + 0) (inl (omega arith))
    ∙ upd-eq m d (m s) (d + 0) (omega arith)
    ∙ ap m (omega arith)
copy_up-inside d s (suc n) m apart (suc i) lt =
    ap (copy_up (d + 1) (s + 1) n (upd m d (m s))) (omega arith)
    ∙ copy_up-inside (d + 1) (s + 1) n (upd m d (m s)) (ground arith) i (omega arith)
    ∙ upd-ne m d (m s) (s + 1 + i) (ground arith)
    ∙ ap m (omega arith)

pub copy_up-IsCopied :
    (d s n : ℕ) (m : Bytes) → (d ≤ s) ⊎ (s + n ≤ d) → IsCopied d s n m (copy_up d s n m)
copy_up-IsCopied d s n m apart = (copy_up-inside d s n m apart, copy_up-outside d s n m)

copy_down-suc :
    (d s n : ℕ) (m : Bytes)
    → copy_down (d + suc n) (s + suc n) (suc n) m
      ≡ copy_down (d + n) (s + n) n (upd m (d + n) (m (s + n)))
unfolding copy_down
copy_down-suc d s n m =
    let e : d + suc n - 1 ≡ d + n = omega arith in
    let f : s + suc n - 1 ≡ s + n = omega arith in cc (e, f)

copy_down-outside :
    (d s n : ℕ) (m : Bytes) (x : ℕ) → (x < d) ⊎ (d + n ≤ x) → copy_down (d + n) (s + n) n m x ≡ m x
unfolding copy_down
copy_down-outside d s zero m x h = refl
copy_down-outside d s (suc n) m x h =
    ap (λ (f : Bytes). f x) (copy_down-suc d s n m)
    ∙ copy_down-outside d s n (upd m (d + n) (m (s + n))) x (ground arith)
    ∙ upd-ne m (d + n) (m (s + n)) x (ground arith)

copy_down-inside :
    (d s n : ℕ) (m : Bytes)
    → s < d
    → (i : ℕ) → i < n
    → copy_down (d + n) (s + n) n m (d + i) ≡ m (s + i)
unfolding copy_down
copy_down-inside d s zero m lt i h = absurd (omega arith)
copy_down-inside d s (suc n) m lt i h = elim (Bool-cases (ltb i n)) [
  | inl e ↦
      ap (λ (f : Bytes). f (d + i)) (copy_down-suc d s n m)
      ∙ copy_down-inside d s n (upd m (d + n) (m (s + n))) lt i (ground (arith, e))
      ∙ upd-ne m (d + n) (m (s + n)) (s + i) (ground (arith, e))
  | inr e ↦
      ap (λ (f : Bytes). f (d + i)) (copy_down-suc d s n m)
      ∙ copy_down-outside d s n (upd m (d + n) (m (s + n))) (d + i) (ground (arith, e))
      ∙ upd-eq m (d + n) (m (s + n)) (d + i) (ground (arith, e))
      ∙ ap m (ground (arith, e))
]

-- memmove copies: after it the `n` bytes at `dest` are those that stood at `src` before, however the
-- two ranges overlap, and every byte outside the destination is as it was.
pub memmove-IsCopied : (dest src n : ℕ) (m : Bytes) → IsCopied dest src n m (memmove dest src n m).1
unfolding memmove
memmove-IsCopied dest src n m = elim (Bool-cases (ltb dest src)) [
  | inl e ↦ rw e (copy_up-IsCopied dest src n m (inl (ground (arith, e))))
  | inr e ↦ elim (Bool-cases (ltb src dest)) [
    | inl f ↦
        rw (e, f)
          (copy_down-inside dest src n m (ground (arith, f)), copy_down-outside dest src n m)
    | inr f ↦ rw (e, f) ((λ (i : ℕ) lt. ap m (ground (arith, e, f))), (λ (x : ℕ) out. refl))
  ]
]

-- memcpy copies forward: right for a destination below the source, or past its end.
pub memcpy-IsCopied :
    (dest src n : ℕ) (m : Bytes)
    → (dest ≤ src) ⊎ (src + n ≤ dest)
    → IsCopied dest src n m (memcpy dest src n m).1
unfolding memcpy
memcpy-IsCopied = copy_up-IsCopied
