-- ===== src/Emulation/X4/Interrupts.antt =====
-- INT: the text service, the waiting keyboard service, and the end of a program.
use mathlib.Core.List.{reverse_aux}
use avr_kernel.Base.{
  ℕ, zero, suc, ◌+◌, ◌^◌, ◌<◌, ◌≡◌, ◌≢◌, refl, ◌∙◌, ap, sym, arith, some, ◌==◌, if◌then◌else◌, List,
  [], ◌∷◌, add32, sub32, get32, put32, IsBytes,
}
use avr_kernel.Emulation.X4.Machine.{
  Machine, Output, put_char, newline, off_ep, off_ah, word, set_word, set_byte, raise, flag_dirty,
  readb, advance, kmem_read8,
}
use avr_kernel.Emulation.X4.Ops.{Args}
use avr_kernel.Emulation.X4.Services.{emit, text_at, print_loop, display_routine, keyboard_routine}
use avr_kernel.Emulation.X4.Run.{
  decode, returned, fetch, fetch_args, console_newline, service, finish_int, opcode_int, after_int,
  int_outcome, execute, step, running,
}

-- The `i`-th character of the text at CS:DX, and what the display shows for it.
abbrev pub char_at : ℕ → Machine → ℕ
char_at i t = kmem_read8 (text_at i t) t

abbrev pub shown : ℕ → Output
shown c = if c == 0x0d then newline else put_char c

-- The `n` characters from the `i`-th on, in reading order.
pub text : ℕ → ℕ → Machine → List Output
text zero i t = []
text (suc n) i t = shown (char_at i t) ∷ text n (i + 1) t

text-emit : (o : Output) (n i : ℕ) (t : Machine) → text n i (emit o t) ≡ text n i t
unfolding text kmem_read8 readb
text-emit o zero i t = refl
text-emit o (suc n) i t = ap (λ l. shown (char_at i t) ∷ l) (text-emit o n (i + 1) t)

-- The text has `n` characters from the `i`-th on, and then a null.
pub record EndsAt (n i : ℕ) (t : Machine) : Type 0 where
  pub chars : (j : ℕ) → j < n → char_at (i + j) t ≢ 0
  pub null : char_at (i + n) t ≡ 0
  pub small : i + n < 2 ^ 32

char_at-emit : (o : Output) (i : ℕ) (t : Machine) → char_at i (emit o t) ≡ char_at i t
unfolding kmem_read8 readb
char_at-emit o i t = refl

EndsAt-suc : (n i : ℕ) (o : Output) (t : Machine) → EndsAt (suc n) i t → EndsAt n (i + 1) (emit o t)
EndsAt-suc n i o t e = record {
  chars = λ j h c.
      e.chars (suc j) (omega arith)
        (ap (λ k. char_at k t) (omega arith) ∙ sym (char_at-emit o (i + 1 + j) t) ∙ c);
  null = char_at-emit o (i + 1 + n) t ∙ ap (λ k. char_at k t) (omega arith) ∙ e.null;
  small = omega (arith, e.small);
}

print_loop_lem :
    (rounds n i : ℕ) (t : Machine)
    → n < rounds
    → EndsAt n i t
    → print_loop rounds i t ≡ some (record t { out = reverse_aux (text n i t) t.out })
unfolding print_loop text
print_loop_lem zero n i t h e = absurd (omega arith)
print_loop_lem (suc rounds) zero i t h e =
    let done : char_at i t ≡ 0 = ap (λ k. char_at k t) (omega arith) ∙ e.null in
    ground (arith, done)
print_loop_lem (suc rounds) (suc n) i t h e =
    let c = char_at i t in
    let more : c ≢ 0 = λ z. e.chars 0 (omega arith) (ap (λ k. char_at k t) (omega arith) ∙ z) in
    let next : add32 i 1 ≡ i + 1 = omega (arith, e.small) in
    let u = emit (shown c) t in
    ground (
      arith,
      more,
      next,
      text-emit (shown c) n (i + 1) t,
      print_loop_lem rounds n (i + 1) u (omega arith) (EndsAt-suc n i (shown c) t e),
    )

display_routine-text :
    (rounds n : ℕ) (t : Machine)
    → t.cache off_ah ≡ 0x09
    → n < rounds
    → EndsAt n 0 t
    → display_routine rounds t
      ≡ some (0, raise flag_dirty (record t { out = reverse_aux (text n 0 t) t.out }))
unfolding display_routine
display_routine-text rounds n t ah h e = ground (arith, ah, print_loop_lem rounds n 0 t h e)

-- The text does not depend on the execution pointer.
char_at-advance : (i k : ℕ) (t : Machine) → char_at i (advance k t) ≡ char_at i t
unfolding advance kmem_read8 readb get32 put32
char_at-advance i k t = refl

text-advance : (k n i : ℕ) (t : Machine) → text n i (advance k t) ≡ text n i t
unfolding text
text-advance k zero i t = refl
text-advance k (suc n) i t =
    ap (λ c. shown c ∷ text n (i + 1) (advance k t)) (char_at-advance i k t)
    ∙ ap (λ l. shown (char_at i t) ∷ l) (text-advance k n (i + 1) t)

EndsAt-advance : (k n i : ℕ) (t : Machine) → EndsAt n i t → EndsAt n i (advance k t)
EndsAt-advance k n i t e = record {
  chars = λ j h c. e.chars j h (sym (char_at-advance (i + j) k t) ∙ c);
  null = char_at-advance (i + n) k t ∙ e.null;
  small = e.small;
}

ep-console_newline : (t : Machine) → word off_ep (console_newline t) ≡ word off_ep t
unfolding console_newline get32
ep-console_newline t = ground arith

module _ (key : ℕ → ℕ) (filesystem : Machine → ℕ × Machine) (rounds : ℕ) where
  step_int :
      (t : Machine)
      → fetch 0 t ≡ 0xcd
      → step key filesystem rounds t
        ≡ int_outcome key filesystem rounds
            (opcode_int key filesystem rounds (fetch_args t) (advance 1 t))
  unfolding step decode execute
  step_int t op = rw op

  -- What the INT of a waiting thread does to it, once `ep` is past the opcode.
  abbrev waited : Machine → Machine
  waited t = set_byte 0 0 (record t { polls = t.polls + 1 })

  abbrev stepped_back : Machine → Machine
  stepped_back t = set_word off_ep (sub32 (word off_ep t) 2) t

  opcode_int_waiting :
      (x : Args) (t : Machine)
      → x.a0 ≡ 0x16
      → t.cache off_ah ≡ 0x00
      → key t.polls ≡ t.last_character
      → opcode_int key filesystem rounds x t ≡ some (0xd6, stepped_back (waited t))
  unfolding opcode_int service keyboard_routine finish_int
  opcode_int_waiting x t svc ah same = ground (arith, svc, ah, same)

  ep-waiting :
      (t : Machine)
      → IsBytes t.cache
      → word off_ep (stepped_back (waited (advance 1 t))) ≡ sub32 (word off_ep t) 1
  unfolding advance get32 put32
  ep-waiting t bytes = ground (arith, bytes 8, bytes 9, bytes 10, bytes 11)

  -- One round of the loop at an INT 10h with AH = 09h: it shows the text at CS:DX, a carriage return as
  -- a new line, up to its null character, marks the console, moves the execution pointer behind the
  -- INT, and changes nothing else, if the rounds of the print loop exceed the length of the text, and
  -- the offsets of its characters stay below 2^32.
  pub step-text :
      (n : ℕ) (t : Machine)
      → fetch 0 t ≡ 0xcd
      → fetch 1 t ≡ 0x10
      → t.cache off_ah ≡ 0x09
      → n < rounds
      → EndsAt n 0 t
      → step key filesystem rounds t
        ≡ running (
            advance 1
              (raise flag_dirty (record (advance 1 t) { out = reverse_aux (text n 0 t) t.out })))
  unfolding opcode_int service finish_int after_int advance put32
  step-text n t op svc ah h e =
      let there = advance 1 t in
      let printed = display_routine-text rounds n there ah h (EndsAt-advance 1 n 0 t e) in
      rw (step_int t op, svc, printed, text-advance 1 n 0 t) refl

  -- A thread that waits for a key yields with 0xd6, and its execution pointer then stands one byte
  -- before the INT, not at it.
  pub step-waiting :
      (t : Machine)
      → IsBytes t.cache
      → fetch 0 t ≡ 0xcd
      → fetch 1 t ≡ 0x16
      → t.cache off_ah ≡ 0x00
      → key t.polls ≡ t.last_character
      → (u : Machine) × (step key filesystem rounds t ≡ returned 0xd6 u)
        × (word off_ep u ≡ sub32 (word off_ep t) 1)
  unfolding after_int advance put32
  step-waiting t bytes op svc ah same = (
    console_newline (stepped_back (waited (advance 1 t))),
    rw (step_int t op, opcode_int_waiting (fetch_args t) (advance 1 t) svc ah same) refl,
    ep-console_newline _ ∙ ep-waiting t bytes,
  )

  -- INT 20h ends the program: `x4_emulate` returns 1, with the console line finished.
  pub step-exit :
      (t : Machine)
      → fetch 0 t ≡ 0xcd
      → fetch 1 t ≡ 0x20
      → step key filesystem rounds t ≡ returned 1 (console_newline (console_newline (advance 1 t)))
  unfolding opcode_int service finish_int after_int
  step-exit t op svc = rw (step_int t op) (ground (arith, svc))
