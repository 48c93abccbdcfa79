-- ===== src/Util/Chain/Tests.antt =====
-- A list of two nodes.
use avr_kernel.Base.{refl, arith, [], ◌∷◌, if◌then◌else◌, ◌==◌}
use avr_kernel.Util.Chain.{Chain, list_remove}
use avr_kernel.Util.Chain.Refines.{IsChain}
use avr_kernel.Util.Chain.Unlink.{IsRemoved, list_remove-IsRemoved}

-- 10 holds 7, and 20 holds 8.
abbrev pair : Chain
pair = record {
  nodes = λ k.
      if k == 10
      then record { payload = 7; next = 20; prev = 0 }
      else record { payload = 8; next = 0; prev = 10 };
  head = 10;
  tail = 20;
}

pair-IsChain : IsChain pair (10 ∷ 20 ∷ [])
pair-IsChain = (
  (refl, refl, (refl, refl, (refl, refl))),
  ((omega arith, tt), (tt, tt)),
  (omega arith, (omega arith, tt)),
)

list_remove-IsRemoved_example : IsRemoved (10 ∷ 20 ∷ []) 8 pair (list_remove 3 8 pair)
list_remove-IsRemoved_example =
    list_remove-IsRemoved (10 ∷ 20 ∷ []) 3 8 pair pair-IsChain (omega arith)
