-- ===== src/Base/Runs.antt =====
-- The scan for a run of free blocks that the heap and the file system share: first fit.
use Prim.Native.Nat.{ℕ, ◌+◌, ◌≤◌, ◌<◌}
use mathlib.Core.Path.{◌≡◌, ap, ◌∙◌}
use mathlib.Core.Logic.{inl, inr}
use mathlib.Core.Bool.{Bool, true, false}
use mathlib.Core.Option.{Option, none, some}
use native.Mathlib.Omega.{arith}
use avr_kernel.Base.Tests.{ltb, Bool-cases, ltb→lt, ltb_false→le}

module _ (used : ℕ → Bool) (required : ℕ) where
  -- The `required` blocks from `p` on are free; or one of them is in use.
  abbrev pub IsFreeRun : ℕ → Type 0
  IsFreeRun p = (j : ℕ) → p ≤ j → j < p + required → used j ≡ false

  abbrev pub IsBlocked : ℕ → Type 0
  IsBlocked p = (j : ℕ) × (p ≤ j) × (j < p + required) × (used j ≡ true)

  -- What a first-fit search between the blocks `lower` and `upper` answers.
  abbrev pub IsFirstFit : ℕ → ℕ → Option ℕ → Type 0
  IsFirstFit lower upper none = (p : ℕ) → lower ≤ p → p + required ≤ upper → IsBlocked p
  IsFirstFit lower upper (some s) =
      (lower ≤ s)
      × (s + required ≤ upper)
      × IsFreeRun s
      × ((p : ℕ) → lower ≤ p → p < s → IsBlocked p)

  -- The loop at `current`: the run in progress starts at `first`, and all before it is blocked.
  pub record IsScanned (lower current found first : ℕ) : Type 0 where
    pub at_least : lower ≤ first
    pub length : first + found ≡ current
    pub short : found < required
    pub free : (j : ℕ) → first ≤ j → j < current → used j ≡ false
    pub before : (p : ℕ) → lower ≤ p → p < first → IsBlocked p

  -- A block in use ends the run in progress: every start up to it is blocked.
  pub IsScanned-used :
      (lower current found first : ℕ)
      → IsScanned lower current found first
      → used current ≡ true
      → IsScanned lower (current + 1) 0 (current + 1)
  IsScanned-used lower current found first s taken = record {
    at_least = omega (arith, s.at_least, s.length);
    length = omega arith;
    short = omega (arith, s.short);
    free = λ j lo hi. absurd (omega arith);
    before = λ p lo hi. elim (Bool-cases (ltb p first)) [
      | inl earlier ↦ s.before p lo (ltb→lt _ _ earlier)
      | inr inside ↦ (
        current,
        omega (arith, hi),
        omega (arith, s.length, s.short, ltb_false→le _ _ inside),
        taken,
      )
    ];
  }

  pub IsScanned-free :
      (lower current found first : ℕ)
      → IsScanned lower current found first
      → used current ≡ false
      → found + 1 < required
      → IsScanned lower (current + 1) (found + 1) first
  IsScanned-free lower current found first s free more = record {
    at_least = s.at_least;
    length = omega (arith, s.length);
    short = more;
    free = λ j lo hi. elim (Bool-cases (ltb j current)) [
      | inl earlier ↦ s.free j lo (ltb→lt _ _ earlier)
      | inr last ↦
          let here : j ≡ current = omega (arith, ltb_false→le _ _ last) in ap used here ∙ free
    ];
    before = s.before;
  }

  -- At the block that completes the run, the first one that is long enough is found.
  pub IsScanned-found :
      (lower upper current found first : ℕ)
      → IsScanned lower current found first
      → used current ≡ false
      → required ≤ found + 1
      → current < upper
      → IsFirstFit lower upper (some first)
  IsScanned-found lower upper current found first s free enough lt = (
    s.at_least,
    omega (arith, s.length, s.short, enough),
    λ j lo hi. elim (Bool-cases (ltb j current)) [
      | inl earlier ↦ s.free j lo (ltb→lt _ _ earlier)
      | inr last ↦
          let here : j ≡ current =
            omega (arith, s.length, s.short, enough, ltb_false→le _ _ last) in
          ap used here ∙ free
    ],
    s.before,
  )

  pub IsScanned-start : (lower : ℕ) → 0 < required → IsScanned lower lower 0 lower
  IsScanned-start lower pos = record {
    at_least = omega arith;
    length = omega arith;
    short = pos;
    free = λ j lo hi. absurd (omega arith);
    before = λ p lo hi. absurd (omega arith);
  }
