-- ===== src/Util/Tok.antt =====
-- kernel/util/tok.c, and strtok of kernel/util/string.c: texts cut into tokens in place. The two loops
-- over the text are those of `strspn` and `strcspn`.
pub mod Next
mod Tests
use avr_kernel.Base.{
  ℕ, zero, ◌+◌, Bool, true, false, Option, none, some, if◌then◌else◌, ◌==◌, ◌!=◌, upd, ◌>>=◌,
}
use avr_kernel.Util.Copy.{Bytes}
use avr_kernel.Util.Strings.{span_end}

pub record Tokenizer : Type 0 where
  pub next_token : ℕ
  pub delim : ℕ

pub cstr_tok_init : (str delim : ℕ) → Tokenizer
cstr_tok_init str delim = record { next_token = str; delim = delim }

-- The token, the tokenizer and the memory that it leaves.
pub cstr_tok_next : (rounds : ℕ) → Tokenizer → Bytes → Option (ℕ × Tokenizer × Bytes)
cstr_tok_next rounds t m = if t.next_token == 0 then some (0, t, m) else do
  token_start ← span_end true rounds t.next_token t.delim m
  (if m token_start == 0 then some (0, record t { next_token = 0 }, m) else do
    str ← span_end false rounds token_start t.delim m
    (if m str != 0
        then some (token_start, record t { next_token = str + 1 }, upd m str 0)
        else some (token_start, record t { next_token = 0 }, m)))

-- The token, the static `last_token` and the memory that it leaves.
pub strtok : (rounds str delim last_token : ℕ) → Bytes → Option (ℕ × ℕ × Bytes)
strtok rounds str delim last_token m =
    let start = if str != 0 then str else last_token in
    if start == 0 then some (0, start, m) else do
      token_start ← span_end true rounds start delim m
      (if m token_start == 0 then some (0, 0, m) else do
        end ← span_end false rounds token_start delim m
        (if m end != 0 then some (token_start, end + 1, upd m end 0) else some (token_start, 0, m)))
