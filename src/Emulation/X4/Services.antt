-- ===== src/Emulation/X4/Services.antt =====
-- services.c: what `INT` calls. The keyboard driver and the file system are behind parameters: what
-- the n-th call of `kb_get_current_char` answers, and the effect of `isc_filesystem_routine`.
use avr_kernel.Base.{
  ◌>>=◌, ℕ, zero, suc, ◌+◌, ◌*◌, ◌∷◌, Option, none, some, if◌then◌else◌, ◌==◌, ◌!=◌, add32,
}
use avr_kernel.Emulation.X4.Machine.{
  Machine, Output, put_char, newline, clear_display, cursor_home, off_ah, off_cs, word, set_byte,
  raise, lower, flag_dirty, kmem_read8,
}

abbrev pub emit : Output → Machine → Machine
emit o t = record t { out = o ∷ t.out }

-- `x4_pointer_from_low16`
abbrev pub low16 : ℕ → ℕ → ℕ
low16 lo hi = lo + 256 * hi

-- The address of the `i`-th character of the text at CS:DX.
abbrev pub text_at : ℕ → Machine → ℕ
text_at i t = add32 (add32 (word off_cs t) (low16 (t.cache 6) (t.cache 7))) i

-- The loop of AH = 09h, which ends at a null character only: `none` when the rounds run out.
unfoldable pub print_loop : ℕ → ℕ → Machine → Option Machine
print_loop zero i t = none
print_loop (suc rounds) i t =
    let c = kmem_read8 (text_at i t) t in
    let again =
      print_loop rounds (add32 i 1) (emit (if c == 0x0d then newline else put_char c) t) in
    if c == 0 then some t else again

-- The answer of a service, beside the machine: 0, or 0xd6 to yield.
unfoldable pub display_routine : ℕ → Machine → Option (ℕ × Machine)
display_routine rounds t =
    if t.cache off_ah == 0x09
    then (do t' ← print_loop rounds 0 t; some (0, raise flag_dirty t'))
    else if t.cache off_ah == 0x03
    then some (0, lower flag_dirty (emit cursor_home (emit clear_display t)))
    else some (0, t)

module _ (key : ℕ → ℕ) where
  -- A key counts as new when it differs from the last one taken.
  abbrev pub current : Machine → ℕ
  current t = key t.polls

  abbrev pub polled : Machine → Machine
  polled t = record t { polls = t.polls + 1 }

  unfoldable pub keyboard_routine : Machine → ℕ × Machine
  keyboard_routine t =
      let c = current t in
      let fresh = set_byte 0 c (record (polled t) { last_character = c }) in
      let none_yet = set_byte 0 0 (polled t) in
      if t.cache off_ah == 0x00
      then (if c != t.last_character then (0, fresh) else (0xd6, none_yet))
      else if t.cache off_ah == 0x01
      then (0, if c != t.last_character then set_byte 0 c (polled t) else none_yet)
      else if t.cache off_ah == 0x03
      then (0, if c != t.last_character then fresh else none_yet)
      else (0, t)
