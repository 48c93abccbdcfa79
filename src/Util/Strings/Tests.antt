-- ===== src/Util/Strings/Tests.antt =====
-- Runs of the functions that read texts, at small memories.
use avr_kernel.Base.{ℕ, ◌≡◌, refl, arith, some, [], ◌∷◌}
use avr_kernel.Util.Text.{IsText, place}
use avr_kernel.Util.Strings.{
  find_end, strlen, find_end_within, strnlen, span_end, is_delimiter, strstr_from, stands_at,
  strcmp, strncmp, strchr, strnchr, strspn, strcspn, strstr,
}
use avr_kernel.Util.Strings.Compare.{strcmp-IsOrder, IsOrder}

-- "abcb" at 100 and "cb" at 200.
abbrev memory : ℕ → ℕ
memory = place (99 ∷ 98 ∷ []) 200 (place (97 ∷ 98 ∷ 99 ∷ 98 ∷ []) 100 (λ i. 0))

haystack-IsText : IsText memory 100 (97 ∷ 98 ∷ 99 ∷ 98 ∷ [])
haystack-IsText = ground arith

needle-IsText : IsText memory 200 (99 ∷ 98 ∷ [])
needle-IsText = ground arith

length_test : strlen 9 100 memory ≡ some 4
unfolding strlen find_end
length_test = refl

bounded_length_test : strnlen 100 3 memory ≡ 3
unfolding strnlen find_end_within
bounded_length_test = refl

find_test : strchr 9 100 98 memory ≡ some 101
unfolding strchr
find_test = refl

bounded_find_test : strnchr 100 2 99 memory ≡ 0
unfolding strnchr
bounded_find_test = refl

span_test : (strspn 9 100 200 memory ≡ some 0) × (strcspn 9 100 200 memory ≡ some 1)
unfolding strspn strcspn span_end is_delimiter
span_test = (refl, refl)

bounded_compare_test : strncmp 2 101 101 memory ≡ 0
unfolding strncmp
bounded_compare_test = refl

search_test : strstr 9 100 200 memory ≡ some 102
unfolding strstr strstr_from stands_at
search_test = refl

strcmp-IsOrder_example :
    (r : ℕ) × (strcmp 9 100 200 memory ≡ some r) × IsOrder (97 ∷ 98 ∷ 99 ∷ 98 ∷ []) (99 ∷ 98 ∷ []) r
strcmp-IsOrder_example =
    strcmp-IsOrder (97 ∷ 98 ∷ 99 ∷ 98 ∷ []) (99 ∷ 98 ∷ []) 9 100 200 memory haystack-IsText
      needle-IsText (omega arith, (omega arith, (omega arith, (omega arith, tt))))
      (omega arith, (omega arith, tt)) (omega arith)
