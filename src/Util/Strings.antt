-- ===== src/Util/Strings.antt =====
-- kernel/util/string.c: the functions that read texts. Memory is a function, a pointer an address, 0
-- is NULL. A loop that ends at a terminator runs on rounds: `none` is a text that does not end within
-- them. A character is its byte: the order tests of the file ask for ASCII ranges only, where a signed
-- char and its byte agree.
pub mod Search
pub mod Compare
pub mod Spans
mod Tests
use avr_kernel.Base.{
  ℕ, zero, suc, ◌+◌, ◌-◌, Bool, true, false, not, ◌&&◌, Option, none, some, if◌then◌else◌, ltb, leb,
  ◌==◌, ◌!=◌, u8, sub32, ◌>>=◌,
}

-- `while (*s != '\0') s++;`
pub find_end : (rounds s : ℕ) → (ℕ → ℕ) → Option ℕ
find_end zero s m = none
find_end (suc rounds) s m =
    let rest = find_end rounds (s + 1) m in if m s != 0 then rest else some s

pub strlen : (rounds str : ℕ) → (ℕ → ℕ) → Option ℕ
strlen rounds str m = do s ← find_end rounds str m; some (s - str)

-- The loop of `strnlen`.
pub find_end_within : (maxlen s : ℕ) → (ℕ → ℕ) → ℕ
find_end_within zero s m = s
find_end_within (suc maxlen) s m =
    let rest = find_end_within maxlen (s + 1) m in if m s != 0 then rest else s

pub strnlen : (str maxlen : ℕ) → (ℕ → ℕ) → ℕ
strnlen str maxlen m = find_end_within maxlen str m - str

-- The result is the bit pattern of an int.
pub strcmp : (rounds str1 str2 : ℕ) → (ℕ → ℕ) → Option ℕ
strcmp zero str1 str2 m = none
strcmp (suc rounds) str1 str2 m =
    let rest = strcmp rounds (str1 + 1) (str2 + 1) m in
    if m str1 != 0 && m str1 == m str2 then rest else some (sub32 (m str1) (m str2))

pub strncmp : (n s1 s2 : ℕ) → (ℕ → ℕ) → ℕ
strncmp zero s1 s2 m = 0
strncmp (suc n) s1 s2 m =
    let rest = strncmp n (s1 + 1) (s2 + 1) m in
    if m s1 != 0 && m s1 == m s2 then rest else sub32 (m s1) (m s2)

pub strchr : (rounds str character : ℕ) → (ℕ → ℕ) → Option ℕ
strchr zero str character m = none
strchr (suc rounds) str character m =
    let rest = strchr rounds (str + 1) character m in
    if m str != u8 character then (if m str == 0 then some 0 else rest) else some str

pub strnchr : (n str character : ℕ) → (ℕ → ℕ) → ℕ
strnchr zero str character m = 0
strnchr (suc n) str character m =
    let rest = strnchr n (str + 1) character m in
    if m str == u8 character then str else if m str == 0 then 0 else rest

-- The loop of `strrchr`, and what follows it.
pub strrchr_from : (rounds str c last : ℕ) → (ℕ → ℕ) → Option ℕ
strrchr_from zero str c last m = none
strrchr_from (suc rounds) str c last m =
    let rest = strrchr_from rounds (str + 1) c (if m str == c then str else last) m in
    if m str != 0 then rest else some (if c == 0 then str else last)

pub strrchr : (rounds str character : ℕ) → (ℕ → ℕ) → Option ℕ
strrchr rounds str character m = strrchr_from rounds str (u8 character) 0 m

-- The inner loop of `strstr`: whether the needle ends before the texts differ.
pub stands_at : (rounds h n : ℕ) → (ℕ → ℕ) → Option Bool
stands_at zero h n m = none
stands_at (suc rounds) h n m =
    let rest = stands_at rounds (h + 1) (n + 1) m in
    if m h != 0 && (m n != 0 && m h == m n) then rest else some (m n == 0)

pub strstr_from : (rounds haystack needle : ℕ) → (ℕ → ℕ) → Option ℕ
strstr_from zero haystack needle m = none
strstr_from (suc rounds) haystack needle m =
    let rest = strstr_from rounds (haystack + 1) needle m in
    let here = do
      found ← stands_at (suc rounds) haystack needle m
      if found then some haystack else rest
    in if m haystack != 0 then (if m haystack == m needle then here else rest) else some 0

pub strstr : (rounds haystack needle : ℕ) → (ℕ → ℕ) → Option ℕ
strstr rounds haystack needle m =
    if m needle == 0 then some haystack else strstr_from rounds haystack needle m

pub is_delimiter : (rounds c delim : ℕ) → (ℕ → ℕ) → Option Bool
is_delimiter zero c delim m = none
is_delimiter (suc rounds) c delim m =
    let rest = is_delimiter rounds c (delim + 1) m in
    if m delim != 0 then (if c == m delim then some true else rest) else some false

-- The loop of `strspn` for `wanted` true, and of `strcspn` for false.
pub span_end : (wanted : Bool) (rounds s set : ℕ) → (ℕ → ℕ) → Option ℕ
span_end wanted zero s set m = none
span_end wanted (suc rounds) s set m =
    let rest = span_end wanted rounds (s + 1) set m in
    let going = do
      d ← is_delimiter (suc rounds) (m s) set m
      if (if wanted then d else not d) then rest else some s
    in if m s != 0 then going else some s

pub strspn : (rounds str accept : ℕ) → (ℕ → ℕ) → Option ℕ
strspn rounds str accept m = do s ← span_end true rounds str accept m; some (s - str)

pub strcspn : (rounds str reject : ℕ) → (ℕ → ℕ) → Option ℕ
strcspn rounds str reject m = do s ← span_end false rounds str reject m; some (s - str)
