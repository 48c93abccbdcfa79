-- ===== src/Util/Parser/Tests.antt =====
-- Runs of the functions on paths and of the replacement.
use avr_kernel.Base.{◌≡◌, refl, arith, inl, inr, some, [], ◌∷◌, ◌>>=◌}
use avr_kernel.Util.Text.{IsText, place}
use avr_kernel.Util.Copy.{Bytes}
use avr_kernel.Util.Parser.{str_replace, str_toupper, each_char}
use avr_kernel.Util.Parser.Paths.{IsSplit}
use avr_kernel.Util.Parser.Replace.{IsReplaced, str_replace-IsReplaced}

-- "m/f" at 100, "f" at 200 and "xy" at 300.
abbrev memory : Bytes
memory =
    place (120 ∷ 121 ∷ []) 300 (place (102 ∷ []) 200 (place (109 ∷ 47 ∷ 102 ∷ []) 100 (λ i. 0)))

path-IsText : IsText memory 100 (109 ∷ 47 ∷ 102 ∷ [])
path-IsText = ground arith

path-IsSplit : IsSplit (109 ∷ 47 ∷ 102 ∷ []) (109 ∷ []) (102 ∷ [])
path-IsSplit = inr (109 ∷ [], refl, (omega arith, tt), refl)

str_replace-IsReplaced_example :
    IsReplaced
      (109 ∷ 47 ∷ 102 ∷ [])
      (102 ∷ [])
      (120 ∷ 121 ∷ [])
      100
      5
      memory
      (str_replace 9 100 200 300 5 memory)
str_replace-IsReplaced_example =
    str_replace-IsReplaced (109 ∷ 47 ∷ 102 ∷ []) (102 ∷ []) (120 ∷ 121 ∷ []) 9 100 200 300 5 memory
      path-IsText (ground arith) (ground arith) (omega arith, omega arith, omega arith) (λ e. cc e)
      (omega arith, omega arith, omega arith) (omega arith, omega arith) (omega arith, omega arith)
      (inl (omega arith))

upper_test : (do m ← str_toupper 9 100 memory; some (m 100 ∷ m 101 ∷ [])) ≡ some (77 ∷ 47 ∷ [])
unfolding str_toupper each_char
upper_test = refl
