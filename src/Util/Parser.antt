-- ===== src/Util/Parser.antt =====
-- kernel/util/parser.c: paths, and texts changed in place. An int is its bit pattern. As in Strings, a
-- loop that ends at a terminator runs on rounds.
pub mod Replace
pub mod Paths
mod Tests
use avr_kernel.Base.{
  ℕ, zero, suc, ◌+◌, ◌-◌, ◌^◌, Bool, true, false, ◌&&◌, ◌||◌, Option, none, some, if◌then◌else◌,
  ltb, leb, ◌==◌, ◌!=◌, add32, sub32, upd, ◌>>=◌,
}
use avr_kernel.Util.Copy.{Bytes, memmove, memcpy}
use avr_kernel.Util.Strings.{strlen, strstr, strrchr}

-- `while (str[i] == ' ') {i++;}`
pub skip_blanks : (rounds str : ℕ) → Bytes → Option ℕ
skip_blanks zero str m = none
skip_blanks (suc rounds) str m =
    let rest = skip_blanks rounds (str + 1) m in if m str == 32 then rest else some str

pub parse_trim_leading_spaces : (rounds str : ℕ) → Bytes → Option Bytes
parse_trim_leading_spaces rounds str m = if str == 0 then some m else do
  start ← skip_blanks rounds str m
  (if leb start str
      then some m
      else do n ← strlen rounds start m; some (memmove str start (n + 1) m).1)

-- The loop of `parse_get_filename`, and the terminator after it.
pub copy_name : (room buffer start : ℕ) → Bytes → Bytes
copy_name zero buffer start m = upd m buffer 0
copy_name (suc room) buffer start m =
    let rest = copy_name room (buffer + 1) (start + 1) (upd m buffer (m start)) in
    if m start != 0 then rest else upd m buffer 0

pub parse_get_filename : (rounds path buffer buffer_size : ℕ) → Bytes → Option Bytes
parse_get_filename rounds path buffer buffer_size m =
    if buffer == 0 || buffer_size == 0
    then some m
    else if path == 0
    then some (upd m buffer 0)
    else do
      last_slash ← strrchr rounds path 47 m
      let start = if last_slash != 0 then last_slash + 1 else path
      some (copy_name (buffer_size - 1) buffer start m)

pub parse_get_parent_path : (rounds path buffer buffer_size : ℕ) → Bytes → Option Bytes
parse_get_parent_path rounds path buffer buffer_size m =
    if buffer == 0 || buffer_size == 0
    then some m
    else if path == 0
    then some (upd m buffer 0)
    else do
      last_slash ← strrchr rounds path 47 m
      let parent_len =
          if last_slash == 0 then 0 else if last_slash == path then 1 else last_slash - path
      let copy_len = if leb buffer_size parent_len then buffer_size - 1 else parent_len
      some (upd (memcpy buffer path copy_len m).1 (buffer + copy_len) 0)

-- The ints -1 and -2.
abbrev pub minus_one : ℕ
minus_one = 2 ^ 32 - 1

abbrev pub minus_two : ℕ
minus_two = 2 ^ 32 - 2

-- `str_replace` from the lengths on, for the match that `strstr` found.
pub replace_at : (rounds dest to_find to_replace max_size found : ℕ) → Bytes → Option (ℕ × Bytes)
replace_at rounds dest to_find to_replace max_size found m = do
  dest_len ← strlen rounds dest m
  find_len ← strlen rounds to_find m
  replace_len ← strlen rounds to_replace m
  (if leb max_size (add32 (sub32 dest_len find_len) replace_len) then some (minus_two, m) else do
    let suffix = found + find_len
    n ← strlen rounds suffix m
    let moved = (memmove (found + replace_len) suffix (n + 1) m).1
    some (0, (memcpy found to_replace replace_len moved).1))

pub str_replace : (rounds dest to_find to_replace max_size : ℕ) → Bytes → Option (ℕ × Bytes)
str_replace rounds dest to_find to_replace max_size m =
    if dest == 0
      || (to_find == 0
          || (to_replace == 0 || (max_size == 0 || (leb (2 ^ 31) max_size || m to_find == 0))))
    then some (minus_one, m)
    else do
      found ← strstr rounds dest to_find m
      (if found == 0
          then some (minus_one, m)
          else replace_at rounds dest to_find to_replace max_size found m)

abbrev pub lower : ℕ → ℕ
lower c = if leb 65 c && leb c 90 then c + 32 else c

abbrev pub upper : ℕ → ℕ
upper c = if leb 97 c && leb c 122 then c - 32 else c

-- The loop of `str_tolower` and `str_toupper`.
pub each_char : (change : ℕ → ℕ) (rounds str : ℕ) → Bytes → Option Bytes
each_char change zero str m = none
each_char change (suc rounds) str m =
    let rest = each_char change rounds (str + 1) (upd m str (change (m str))) in
    if m str != 0 then rest else some m

pub str_tolower : (rounds str : ℕ) → Bytes → Option Bytes
str_tolower rounds str m = if str == 0 then some m else each_char lower rounds str m

pub str_toupper : (rounds str : ℕ) → Bytes → Option Bytes
str_toupper rounds str m = if str == 0 then some m else each_char upper rounds str m
