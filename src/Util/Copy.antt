-- ===== src/Util/Copy.antt =====
-- kernel/util/string.c: the functions that write memory. Those that return their destination have it
-- beside the memory they leave. As in Strings, a loop that ends at a terminator runs on rounds.
pub mod Move
pub mod Append
mod Tests
use avr_kernel.Base.{
  ℕ, zero, suc, ◌+◌, ◌-◌, Option, none, some, if◌then◌else◌, ltb, ◌==◌, ◌!=◌, u8, add32, sub32, upd,
  ◌>>=◌,
}
use avr_kernel.Util.Strings.{strlen, strnlen}

abbrev pub Bytes : Type 0
Bytes = ℕ → ℕ

-- The loop of `memset`.
unfoldable pub fill : (str value n : ℕ) → Bytes → Bytes
fill str value zero m = m
fill str value (suc n) m = fill (str + 1) value n (upd m str (u8 value))

pub memset : (str value n : ℕ) → Bytes → ℕ × Bytes
memset str value n m = (str, fill str value n m)

-- `while (n--) *d++ = *s++;`
unfoldable pub copy_up : (d s n : ℕ) → Bytes → Bytes
copy_up d s zero m = m
copy_up d s (suc n) m = copy_up (d + 1) (s + 1) n (upd m d (m s))

-- `while (n--) *--d = *--s;`
pub copy_down : (d s n : ℕ) → Bytes → Bytes
copy_down d s zero m = m
copy_down d s (suc n) m = copy_down (d - 1) (s - 1) n (upd m (d - 1) (m (s - 1)))

unfoldable pub memcpy : (dest src n : ℕ) → Bytes → ℕ × Bytes
memcpy dest src n m = (dest, copy_up dest src n m)

pub memmove : (dest src n : ℕ) → Bytes → ℕ × Bytes
memmove dest src n m = (
  dest,
  if ltb dest src
      then copy_up dest src n m
      else if ltb src dest
      then copy_down (dest + n) (src + n) n m
      else m,
)

-- The result is the bit pattern of an int.
pub memcmp : (n s1 s2 : ℕ) → Bytes → ℕ
memcmp zero s1 s2 m = 0
memcmp (suc n) s1 s2 m =
    let rest = memcmp n (s1 + 1) (s2 + 1) m in if m s1 != m s2 then sub32 (m s1) (m s2) else rest

-- `while ((*dest++ = *src++) != '\0');`
pub copy_text : (rounds dest src : ℕ) → Bytes → Option Bytes
copy_text zero dest src m = none
copy_text (suc rounds) dest src m =
    let rest = copy_text rounds (dest + 1) (src + 1) (upd m dest (m src)) in
    if m src != 0 then rest else some (upd m dest (m src))

pub strcpy : (rounds dest src : ℕ) → Bytes → Option (ℕ × Bytes)
strcpy rounds dest src m = do m' ← copy_text rounds dest src m; some (dest, m')

-- Both loops of `strncpy`.
pub copy_and_pad : (n dest src : ℕ) → Bytes → Bytes
copy_and_pad zero dest src m = m
copy_and_pad (suc n) dest src m =
    let rest = copy_and_pad n (dest + 1) (src + 1) (upd m dest (m src)) in
    if m src != 0 then rest else fill dest 0 (suc n) m

pub strncpy : (dest src n : ℕ) → Bytes → ℕ × Bytes
strncpy dest src n m = (dest, copy_and_pad n dest src m)

pub strcat : (rounds dest src : ℕ) → Bytes → Option (ℕ × Bytes)
strcat rounds dest src m = do
  len ← strlen rounds dest m
  m' ← copy_text rounds (dest + len) src m
  some (dest, m')

-- The loop of `strncat`, and the terminator after it.
unfoldable pub append_within : (n ptr src : ℕ) → Bytes → Bytes
append_within zero ptr src m = upd m ptr 0
append_within (suc n) ptr src m =
    let rest = append_within n (ptr + 1) (src + 1) (upd m ptr (m src)) in
    if m src != 0 then rest else upd m ptr 0

pub strncat : (rounds dest src n : ℕ) → Bytes → Option (ℕ × Bytes)
strncat rounds dest src n m = do
  len ← strlen rounds dest m
  some (dest, append_within n (dest + len) src m)

-- The length it answers, and the memory.
pub strlcat : (rounds dest src size : ℕ) → Bytes → Option (ℕ × Bytes)
strlcat rounds dest src size m =
    let dlen = strnlen dest size m in
    do
      slen ← strlen rounds src m
      (if dlen == size
          then some (add32 size slen, m)
          else let room = size - dlen - 1 in
            let copy = if ltb slen room then slen else room in
            some (add32 dlen slen, upd (memcpy (dest + dlen) src copy m).1 (dest + dlen + copy) 0))
