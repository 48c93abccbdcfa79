-- ===== src/Util/Numbers/Tests.antt =====
-- Runs of the conversions.
use avr_kernel.Base.{ℕ, ◌^◌, ◌≤◌, ◌<◌, ◌≡◌, refl, arith, ◌⊎◌, some, ◌>>=◌, [], ◌∷◌}
use avr_kernel.Util.Copy.{Bytes}
use avr_kernel.Util.Numbers.{itos, stoi, utox, fill_buffer, put_reversed}
use avr_kernel.Util.Numbers.RoundTrip.{stoi-itos}

abbrev blank : Bytes
blank i = 0

-- INT32_MIN
stoi-itos_example :
    (m' : Bytes) × (itos (2 ^ 31) 100 blank ≡ some m')
    × (stoi 12 100 m' ≡ some (2 ^ 31))
    × ((x : ℕ) → (x < 100) ⊎ (112 ≤ x) → m' x ≡ blank x)
stoi-itos_example = stoi-itos (2 ^ 31) 100 12 blank (omega arith) (omega arith)

-- 255 is "FF".
hex_test : (do m ← utox 255 100 blank; some (m 100 ∷ m 101 ∷ m 102 ∷ [])) ≡ some (70 ∷ 70 ∷ 0 ∷ [])
unfolding utox fill_buffer put_reversed
hex_test = refl
