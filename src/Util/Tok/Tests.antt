-- ===== src/Util/Tok/Tests.antt =====
-- A path cut at its slashes.
use avr_kernel.Base.{ℕ, ◌≡◌, arith, some, [], ◌∷◌}
use avr_kernel.Util.Text.{place}
use avr_kernel.Util.Copy.{Bytes}
use avr_kernel.Util.Tok.{strtok}
use avr_kernel.Util.Tok.Next.{IsNext, strtok-IsNext}

-- "/a/b" at 100, and "/" at 200.
abbrev memory : Bytes
memory = place (47 ∷ []) 200 (place (47 ∷ 97 ∷ 47 ∷ 98 ∷ []) 100 (λ i. 0))

strtok-IsNext_example :
    (token : ℕ) × (next : ℕ) × (m' : Bytes) × (strtok 9 100 200 0 memory ≡ some (token, next, m'))
    × IsNext (47 ∷ []) (47 ∷ 97 ∷ 47 ∷ 98 ∷ []) 100 memory token next m'
strtok-IsNext_example =
    strtok-IsNext (47 ∷ []) (47 ∷ 97 ∷ 47 ∷ 98 ∷ []) 9 100 200 0 memory (omega arith) (ground arith)
      (ground arith) (omega arith)
