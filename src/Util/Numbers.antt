-- ===== src/Util/Numbers.antt =====
-- kernel/util/string.c: numbers to texts and back. A local buffer is an array of its own; filling it
-- takes as many rounds as it has bytes, so a number with more digits than that is `none`. int32_t is
-- its bit pattern.
pub mod Decimal
pub mod RoundTrip
pub mod Commas
mod Tests
use avr_kernel.Base.{
  ℕ, zero, suc, ◌+◌, ◌-◌, ◌*◌, ◌/◌, ◌%◌, ◌^◌, Bool, true, false, ◌&&◌, ◌||◌, Option, none, some,
  if◌then◌else◌, ltb, leb, ◌==◌, ◌!=◌, u8, u32, sub32, upd, ◌>>=◌,
}
use avr_kernel.Util.Copy.{Bytes}
use avr_kernel.Util.Strings.{strlen}

-- `do { buffer[i++] = digit; value /= base; } while (value > 0);`
pub fill_buffer : (digit : ℕ → ℕ) (base rounds value i : ℕ) → Bytes → Option (ℕ × Bytes)
fill_buffer digit base zero value i buffer = none
fill_buffer digit base (suc rounds) value i buffer =
    let buffer' = upd buffer i (digit (value % base)) in
    let rest = fill_buffer digit base rounds (value / base) (i + 1) buffer' in
    if value / base == 0 then some (i + 1, buffer') else rest

-- `while (i > 0) dest[d++] = buffer[--i];` and the terminator.
pub put_reversed : (i d dest : ℕ) (buffer m : Bytes) → Bytes
put_reversed zero d dest buffer m = upd m (dest + d) 0
put_reversed (suc i) d dest buffer m =
    put_reversed i (d + 1) dest buffer (upd m (dest + d) (buffer i))

abbrev pub decimal_digit : ℕ → ℕ
decimal_digit d = d + 48

-- "0123456789ABCDEF"[d]
abbrev pub hex_digit : ℕ → ℕ
hex_digit d = if ltb d 10 then d + 48 else d + 55

pub utos : (value dest : ℕ) → Bytes → Option Bytes
utos value dest m = do
  filled ← fill_buffer decimal_digit 10 10 value 0 (λ i. 0)
  some (put_reversed filled.0 0 dest filled.1 m)

-- `value & 0xF` and `value >>= 4` as remainder and quotient.
pub utox : (value dest : ℕ) → Bytes → Option Bytes
utox value dest m = do
  filled ← fill_buffer hex_digit 16 8 value 0 (λ i. 0)
  some (put_reversed filled.0 0 dest filled.1 m)

pub itos : (value dest : ℕ) → Bytes → Option Bytes
itos value dest m =
    if leb (2 ^ 31) value
    then utos (sub32 0 value) (dest + 1) (upd m dest 45)
    else utos value dest m

abbrev pub is_space : ℕ → Bool
is_space c = c == 32 || (leb 9 c && leb c 13)

abbrev pub is_digit : ℕ → Bool
is_digit c = leb 48 c && leb c 57

pub skip_spaces : (rounds str : ℕ) → Bytes → Option ℕ
skip_spaces zero str m = none
skip_spaces (suc rounds) str m =
    let rest = skip_spaces rounds (str + 1) m in if is_space (m str) then rest else some str

-- The loop over the digits of `stoi` and `stou`.
pub read_digits : (rounds str result : ℕ) → Bytes → Option ℕ
read_digits zero str result m = none
read_digits (suc rounds) str result m =
    let rest = read_digits rounds (str + 1) (u32 (result * 10 + (m str - 48))) m in
    if is_digit (m str) then rest else some result

pub stoi : (rounds str : ℕ) → Bytes → Option ℕ
stoi rounds str m = do
  s ← skip_spaces rounds str m
  result ← read_digits rounds (if m s == 45 || m s == 43 then s + 1 else s) 0 m
  some (if m s == 45 then sub32 0 result else result)

pub stou : (rounds str : ℕ) → Bytes → Option ℕ
stou rounds str m = do
  s ← skip_spaces rounds str m
  read_digits rounds (if m s == 43 then s + 1 else s) 0 m

-- The loop of `itos_commas`: `n` is `src_i + 1` and `e` is `dest_i + 1`.
pub put_commas : (n e digit_count raw dest : ℕ) → Bytes → Bytes
put_commas zero e digit_count raw dest m = m
put_commas (suc n) e digit_count raw dest m =
    let comma = ltb 0 digit_count && digit_count % 3 == 0 in
    let m' = if comma then upd m (dest + (e - 1)) 44 else m in
    let e' = if comma then e - 1 else e in
    put_commas n (e' - 1) (digit_count + 1) raw dest (upd m' (dest + (e' - 1)) (m' (raw + n)))

-- `raw` is the address of the local array, on the stack.
pub itos_commas : (rounds raw val dest : ℕ) → Bytes → Option Bytes
itos_commas rounds raw val dest m = do
  m' ← utos val raw m
  len ← strlen rounds raw m'
  let new_len = len + (len - 1) / 3
  some (put_commas len new_len 0 raw dest (upd m' (dest + new_len) 0))

-- The loop of `stoi_commas`.
pub read_commas : (rounds str val : ℕ) → Bytes → Option ℕ
read_commas zero str val m = none
read_commas (suc rounds) str val m =
    let val' = if is_digit (m str) then u32 (val * 10 + (m str - 48)) else val in
    let rest = read_commas rounds (str + 1) val' m in if m str != 0 then rest else some val

pub stoi_commas : (rounds str : ℕ) → Bytes → Option ℕ
stoi_commas rounds str m = if str == 0 then some 0 else read_commas rounds str 0 m
